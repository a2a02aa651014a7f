-- ===== src/Rules/Validate/Cycles.antt =====
-- NativeDNS.Core/src/rules.cpp: the search for fallback cycles in `validate` always ends.
use mathlib.Core.List.{Memᴰ}
use mathlib.Core.List.Memᴰ
use native_dns.Prelude.{
  ℕ, zero, suc, ◌+◌, ◌<◌, true, false, not, ◌≡◌, refl, sym, ap, subst, ◌∙◌, inl, inr, Option, none,
  some, some-injective, List, [], ◌∷◌, ◌==◌, if_cases, Bool-cases, length, Result, ok, passed, ran,
  Safe, Safe-bind, Safe-throw_if, Safe-weaken, arith,
}
use native_dns.Model.{Server}
use native_dns.Rules.Validate.{
  Ids, has_id, remove_id, fallbacks_of, is_known, check_known, check_references, Visits, visit_each,
  visit_node, visit, ids_of, check_cycles,
}
use native_dns.Rules.Validate.Unseen.{unseen, unseen-cons_lt, unseen_le}

-- Every identifier in `ids` is that of a server.
abbrev AllKnown : List Server → List ℕ → Type 0
AllKnown servers [] = Unit
AllKnown servers (id ∷ ids) = (is_known servers id ≡ true) × AllKnown servers ids

check_known-AllKnown :
    (servers : List Server) (ids : List ℕ) {u : Unit {0}}
    → check_known servers ids ≡ ok u
    → AllKnown servers ids
unfolding check_known
check_known-AllKnown servers [] e = tt
check_known-AllKnown servers (id ∷ ids) e =
    let (known, rest) = passed (not (is_known servers id)) _ _ e in
    (ground (arith, known), check_known-AllKnown servers ids rest)

fallbacks_of-Mem :
    (id : ℕ) (servers : List Server) (ids : List ℕ)
    → fallbacks_of id servers ≡ some ids
    → (s : Server) × Memᴰ s servers × (s.id ≡ id) × (s.fallback_ids ≡ ids)
unfolding fallbacks_of
fallbacks_of-Mem id [] ids e = cc
fallbacks_of-Mem id (s ∷ servers) ids e = elim (Bool-cases (s.id == id)) [
  | inl hit ↦ (s, Memᴰ.head refl, ground (arith, hit), some-injective (rw hit at e))
  | inr miss ↦
      let (t, m, named, same) = fallbacks_of-Mem id servers ids (rw miss at e) in
      (t, Memᴰ.tail m, named, same)
]

references-AllKnown :
    (all servers : List Server) (s : Server) {u : Unit {0}}
    → check_references all servers ≡ ok u
    → Memᴰ s servers
    → AllKnown all s.fallback_ids
unfolding check_references
references-AllKnown all [] s e m = absurd (Memᴰ.not-nil m)
references-AllKnown all (t ∷ servers) s e m =
    let (u, known, rest) = ran (check_known all t.fallback_ids) _ e in
    elim (Memᴰ.cases_cons m) [
      | inl here ↦
          subst (λ x. AllKnown all x.fallback_ids) (sym here)
            (check_known-AllKnown all t.fallback_ids known)
      | inr there ↦ references-AllKnown all servers s rest there
    ]

remove_id-absent : (id : ℕ) (ids : Ids) → has_id id ids ≡ false → remove_id id ids ≡ ids
unfolding remove_id has_id
remove_id-absent id [] h = refl
remove_id-absent id (i ∷ ids) h = elim (Bool-cases (i == id)) [
  | inl hit ↦ let clash = rw hit at h in cc
  | inr miss ↦ rw miss (ap (λ l. i ∷ l) (remove_id-absent id ids (rw miss at h)))
]

remove_id-cons : (id : ℕ) (ids : Ids) → has_id id ids ≡ false → remove_id id (id ∷ ids) ≡ ids
unfolding remove_id
remove_id-cons id ids h = ground (arith, remove_id-absent id ids h)

-- What is being visited is as it was.
abbrev Restores : Visits → Visits → Type 0
Restores v w = w.visiting ≡ v.visiting

module _ (servers : List Server) (checked : check_references servers servers ≡ ok tt) where
  visit_each-Restores :
      (step : ℕ → Visits → Result Visits) (n : ℕ) (ids : List ℕ) (v : Visits)
      → ((id : ℕ) (w : Visits)
          → is_known servers id ≡ true
          → unseen w.visiting servers < n
          → Safe (Restores w) (step id w))
      → AllKnown servers ids
      → unseen v.visiting servers < n
      → Safe (Restores v) (visit_each step ids v)
  unfolding visit_each
  visit_each-Restores step n [] v good known small = refl
  visit_each-Restores step n (id ∷ ids) v good (here, known) small =
      Safe-bind (Restores v) (Restores v) _ _ (good id v here small) λ w same.
        Safe-weaken (Restores w) (Restores v) _ (λ r e. e ∙ same)
          (visit_each-Restores step n ids w good known
            (subst (λ l. unseen l servers < n) (sym same) small))

  unknown : (id : ℕ) → fallbacks_of id servers ≡ none → is_known servers id ≡ false
  unfolding is_known
  unknown id e = rw (e, is_known) refl

  smaller :
      (s : Server) (id : ℕ) (visiting : Ids)
      → Memᴰ s servers
      → s.id ≡ id
      → has_id id visiting ≡ false
      → unseen (id ∷ visiting) servers < unseen visiting servers
  smaller s id visiting m named =
      subst
        (λ i. has_id i visiting ≡ false → unseen (i ∷ visiting) servers < unseen visiting servers)
        named (unseen-cons_lt s visiting servers m)

  visit_node-Restores :
      (step : ℕ → Visits → Result Visits) (n id : ℕ) (o : Option (List ℕ)) (v : Visits)
      → fallbacks_of id servers ≡ o
      → is_known servers id ≡ true
      → ((i : ℕ) (w : Visits)
          → is_known servers i ≡ true
          → unseen w.visiting servers < n
          → Safe (Restores w) (step i w))
      → unseen v.visiting servers < suc n
      → Safe (Restores v) (visit_node step id o v)
  unfolding visit_node
  visit_node-Restores step n id none v e known good small =
      let clash = sym (unknown id e) ∙ known in cc
  visit_node-Restores step n id (some fallbacks) v e known good small =
      Safe-throw_if (Restores v) (has_id id v.visiting) _ _ λ fresh.
        let (s, m, named, same) = fallbacks_of-Mem id servers fallbacks e in
        let next : Visits = record { visiting = id ∷ v.visiting; visited = v.visited } in
        let all = subst (AllKnown servers) same (references-AllKnown servers servers s checked m) in
        Safe-bind (Restores next) (Restores v) _ _
          (visit_each-Restores step n fallbacks next good all
            (omega (arith, smaller s id v.visiting m named fresh, small)))
          λ w back. ap (remove_id id) back ∙ remove_id-cons id v.visiting fresh

  visit-Restores :
      (depth id : ℕ) (v : Visits)
      → is_known servers id ≡ true
      → unseen v.visiting servers < depth
      → Safe (Restores v) (visit depth servers id v)
  unfolding visit
  visit-Restores zero id v known small = absurd (omega (arith, small))
  visit-Restores (suc depth) id v known small =
      if_cases (Safe (Restores v)) (has_id id v.visited) (λ _. refl)
        (λ _.
          visit_node-Restores (visit depth servers) depth id (fallbacks_of id servers) v refl known
            (visit-Restores depth) small)

is_known-here : (s : Server) (servers : List Server) → is_known (s ∷ servers) s.id ≡ true
unfolding is_known fallbacks_of
is_known-here s servers = ground arith

is_known-cons :
    (s : Server) (servers : List Server) (id : ℕ)
    → is_known servers id ≡ true
    → is_known (s ∷ servers) id ≡ true
unfolding is_known fallbacks_of
is_known-cons s servers id h = elim (Bool-cases (s.id == id)) [
  | inl hit ↦ rw (hit, is_known) refl
  | inr miss ↦ rw (miss, is_known) h
]

AllKnown-cons :
    (s : Server) (servers : List Server) (ids : List ℕ)
    → AllKnown servers ids
    → AllKnown (s ∷ servers) ids
AllKnown-cons s servers [] h = tt
AllKnown-cons s servers (id ∷ ids) (known, rest) =
    (is_known-cons s servers id known, AllKnown-cons s servers ids rest)

ids_of-AllKnown : (servers : List Server) → AllKnown servers (ids_of servers)
unfolding ids_of
ids_of-AllKnown [] = tt
ids_of-AllKnown (s ∷ servers) =
    (is_known-here s servers, AllKnown-cons s servers (ids_of servers) (ids_of-AllKnown servers))

-- Where all fallbacks are known, the search for cycles ends within its bound: it refuses the servers, or
-- leaves nothing unfinished.
pub check_cycles-Safe :
    (servers : List Server)
    → check_references servers servers ≡ ok tt
    → Safe (λ w. w.visiting ≡ []) (check_cycles servers)
unfolding check_cycles
check_cycles-Safe servers checked =
    visit_each-Restores servers checked (visit (length servers + 2) servers) (length servers + 2)
      (ids_of servers) (record { visiting = []; visited = [] })
      (visit-Restores servers checked (length servers + 2)) (ids_of-AllKnown servers)
      (omega (arith, unseen_le [] servers))
