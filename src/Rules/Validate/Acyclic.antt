-- ===== src/Rules/Validate/Acyclic.antt =====
-- NativeDNS.Core/src/rules.cpp: servers that pass the search for cycles have none.
use mathlib.Core.List.{Memᴰ}
use mathlib.Core.List.Memᴰ
use native_dns.Prelude.{
  ℕ, zero, suc, ◌+◌, ◌≤◌, ◌<◌, true, ◌≡◌, refl, sym, ap, subst, ◌∙◌, inl, inr, Option, none, some,
  some-injective, List, [], ◌∷◌, ◌==◌, if◌then◌else◌, if_cases, Bool-cases, length, Result, ok,
  ok-injective, passed, >>=-eq-ok, Safe, Safe-weaken-eq, arith,
}
use native_dns.Model.{Server}
use native_dns.Rules.Validate.{
  Ids, has_id, fallbacks_of, check_references, Visits, visit_each, visit_node, visit, ids_of,
  check_cycles,
}
use native_dns.Rules.Validate.Cycles.{check_cycles-Safe}

abbrev AllIn : List ℕ → Ids → Type 0
AllIn ids visited = (j : ℕ) → Memᴰ j ids → has_id j visited ≡ true

-- The fallbacks of each identifier stand behind it.
abbrev Ordered : List Server → Ids → Type 0
Ordered servers [] = Unit
Ordered servers (id ∷ rest) =
    ((ids : List ℕ) → fallbacks_of id servers ≡ some ids → AllIn ids rest) × Ordered servers rest

-- The place of the last occurrence.
unfoldable pub rank : Ids → ℕ → ℕ
rank [] id = 0
rank (i ∷ rest) id =
    if has_id id rest then rank rest id else (if i == id then suc (length rest) else 0)

rank_le : (visited : Ids) (id : ℕ) → rank visited id ≤ length visited
unfolding rank
rank_le [] id = omega arith
rank_le (i ∷ rest) id = ground (arith, rank_le rest id)

rank-Ordered :
    (servers : List Server) (visited : Ids) (id j : ℕ) (ids : List ℕ)
    → Ordered servers visited
    → has_id id visited ≡ true
    → fallbacks_of id servers ≡ some ids
    → Memᴰ j ids
    → (has_id j visited ≡ true) × (rank visited j < rank visited id)
unfolding rank has_id
rank-Ordered servers [] id j ids o h e m = cc
rank-Ordered servers (i ∷ rest) id j ids (first, o) h e m = elim (Bool-cases (has_id id rest)) [
  | inl later ↦
      let (there, less) = rank-Ordered servers rest id j ids o later e m in
      rw (later, there) (ground arith, less)
  | inr last ↦
      let same : i ≡ id = ground (arith, h, last) in
      let there = first ids (subst (λ k. fallbacks_of k servers ≡ some ids) (sym same) e) j m in
      rw (last, there) (ground arith, ground (arith, same, rank_le rest j))
]

record Grown (servers : List Server) (v w : Visits) : Type 0 where
  ordered : Ordered servers w.visited
  kept : (id : ℕ) → has_id id v.visited ≡ true → has_id id w.visited ≡ true

has_id-cons : (id i : ℕ) (l : Ids) → has_id id l ≡ true → has_id id (i ∷ l) ≡ true
unfolding has_id
has_id-cons id i l h = ground (arith, h)

has_id-here : (id : ℕ) (l : Ids) → has_id id (id ∷ l) ≡ true
unfolding has_id
has_id-here id l = ground arith

visit_each-Grown :
    (servers : List Server) (step : ℕ → Visits → Result Visits) (ids : List ℕ) (v w : Visits)
    → ((id : ℕ) (a b : Visits)
        → Ordered servers a.visited
        → step id a ≡ ok b
        → Grown servers a b × (has_id id b.visited ≡ true))
    → Ordered servers v.visited
    → visit_each step ids v ≡ ok w
    → Grown servers v w × AllIn ids w.visited
unfolding visit_each
visit_each-Grown servers step [] v w good o e =
    let same = ok-injective e in
    (
      subst (Grown servers v) same (record { ordered = o; kept = λ id h. h }),
      λ j m. absurd (Memᴰ.not-nil m),
    )
visit_each-Grown servers step (id ∷ ids) v w good o e =
    let (u, first, rest) = >>=-eq-ok (step id v) _ e in
    let (g, here) = good id v u o first in
    let (k, all) = visit_each-Grown servers step ids u w good g.ordered rest in
    (
      record { ordered = k.ordered; kept = λ i h. k.kept i (g.kept i h) },
      λ j m. elim (Memᴰ.cases_cons m) [
        | inl same ↦ k.kept j (subst (λ i. has_id i u.visited ≡ true) (sym same) here)
        | inr later ↦ all j later
      ],
    )

visit_node-Grown :
    (servers : List Server) (step : ℕ → Visits → Result Visits) (id : ℕ) (o : Option (List ℕ))
    (v w : Visits)
    → fallbacks_of id servers ≡ o
    → ((i : ℕ) (a b : Visits)
        → Ordered servers a.visited
        → step i a ≡ ok b
        → Grown servers a b × (has_id i b.visited ≡ true))
    → Ordered servers v.visited
    → visit_node step id o v ≡ ok w
    → Grown servers v w × (has_id id w.visited ≡ true)
unfolding visit_node
visit_node-Grown servers step id none v w found good o e = cc
visit_node-Grown servers step id (some ids) v w found good o e =
    let (fresh, inner) = passed (has_id id v.visiting) _ _ e in
    let next : Visits = record { visiting = id ∷ v.visiting; visited = v.visited } in
    let (u, walked, h) = >>=-eq-ok (visit_each step ids next) _ inner in
    let (g, all) = visit_each-Grown servers step ids next u good o walked in
    let same = ap (λ (x : Visits). x.visited) (ok-injective h) in
    (
      record {
        ordered = subst (Ordered servers) same (
          (λ ids' e'. subst (λ l. AllIn l u.visited) (some-injective (sym found ∙ e')) all),
          g.ordered,
        );
        kept = λ i there.
            subst (λ l. has_id i l ≡ true) same (has_id-cons i id u.visited (g.kept i there));
      },
      subst (λ l. has_id id l ≡ true) same (has_id-here id u.visited),
    )

visit-Grown :
    (servers : List Server) (depth id : ℕ) (v w : Visits)
    → Ordered servers v.visited
    → visit depth servers id v ≡ ok w
    → Grown servers v w × (has_id id w.visited ≡ true)
unfolding visit
visit-Grown servers zero id v w o = λ e. cc
visit-Grown servers (suc depth) id v w o =
    if_cases {A = Result Visits} (λ r. r ≡ ok w → Grown servers v w × (has_id id w.visited ≡ true))
      (has_id id v.visited)
      (λ there e.
        let same = ok-injective e in
        subst (λ x. Grown servers v x × (has_id id x.visited ≡ true)) same
          (record { ordered = o; kept = λ i h. h }, there))
      (λ _.
        visit_node-Grown servers (visit depth servers) id (fallbacks_of id servers) v w refl
          (visit-Grown servers depth) o)

fallbacks_of-ids_of :
    (servers : List Server) (id : ℕ) (ids : List ℕ)
    → fallbacks_of id servers ≡ some ids
    → Memᴰ id (ids_of servers)
unfolding fallbacks_of ids_of
fallbacks_of-ids_of [] id ids e = cc
fallbacks_of-ids_of (s ∷ servers) id ids e = elim (Bool-cases (s.id == id)) [
  | inl hit ↦ Memᴰ.head (ground (arith, hit))
  | inr miss ↦ Memᴰ.tail (fallbacks_of-ids_of servers id ids (rw miss at e))
]

-- Every fallback of a server has a lower rank than the server, so that no walk along fallbacks comes back.
abbrev pub Ranked : List Server → (ℕ → ℕ) → Type 0
Ranked servers r =
    (id j : ℕ) (ids : List ℕ) → fallbacks_of id servers ≡ some ids → Memᴰ j ids → r j < r id

rank-check_cycles :
    (servers : List Server) (w : Visits)
    → check_cycles servers ≡ ok w
    → Ranked servers (rank w.visited)
unfolding check_cycles
rank-check_cycles servers w e id j ids found m =
    let (g, all) =
      visit_each-Grown servers (visit (length servers + 2) servers) (ids_of servers)
        (record { visiting = []; visited = [] }) w (visit-Grown servers (length servers + 2)) tt
        e in
    (rank-Ordered servers w.visited id j ids g.ordered
      (all id (fallbacks_of-ids_of servers id ids found)) found m).1

-- Where every fallback names a server, the search for cycles always ends: it refuses the servers, or there
-- is a rank that gets lower from every server to each of its fallbacks, so that there is no cycle.
pub check_cycles-Ranked :
    (servers : List Server)
    → check_references servers servers ≡ ok tt
    → Safe (λ w. (r : ℕ → ℕ) × Ranked servers r) (check_cycles servers)
check_cycles-Ranked servers checked =
    Safe-weaken-eq (λ w. w.visiting ≡ []) (λ w. (r : ℕ → ℕ) × Ranked servers r)
      (check_cycles servers) (λ w e _. (rank w.visited, rank-check_cycles servers w e))
      (check_cycles-Safe servers checked)
