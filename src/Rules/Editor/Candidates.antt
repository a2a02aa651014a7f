-- ===== src/Rules/Editor/Candidates.antt =====
-- NativeDNS.Core/src/rules.cpp: the operations of `ConfigEditor` stay inside the rules of a valid
-- configuration, which end with the Default.
use native_dns.Prelude.{
  ℕ, zero, suc, Bool, true, false, not, ◌≡◌, refl, sym, ap, ◌∙◌, Option, none, some, List, [], ◌∷◌,
  ◌==◌, Bool-cases, inl, inr, is_empty, order, Result, ok, ◌>>=◌, ◌>>◌, throw_if, some-injective,
}
use native_dns.Model.{Rule, Server, Config}
use native_dns.Rules.Validate.{same_bool}
use native_dns.Rules.Validate.Ends.{Quiet, Quiet-bind, Quiet-check, Quiet-ok, Quiet-err}
use native_dns.Rules.Select.Accepted.{Accepted}
use native_dns.Rules.Editor.{
  Place, find_place, find_rule, find_server, insert_before_last, replace_rule, erase_rule, swap_up,
  swap_down, ℤ, pos, negsuc, swap_rule, move_place, copy_of, replace_server, has_server, Edit,
  add_rule, update_rule, remove_rule, move_rule, clone_rule, add_server, update_server,
  remove_server, candidate,
}

-- The last rule of a list is the Default.
pub EndsInDefault : List Rule → Type 0
EndsInDefault [] = ⊥
EndsInDefault (r ∷ []) = r.is_default ≡ true
EndsInDefault (r ∷ s ∷ rules) = EndsInDefault (s ∷ rules)

pub Accepted-EndsInDefault : (rules : List Rule) → Accepted rules → EndsInDefault rules
unfolding EndsInDefault
Accepted-EndsInDefault [] v = v
Accepted-EndsInDefault (r ∷ []) v = v.3
Accepted-EndsInDefault (r ∷ s ∷ rules) v = Accepted-EndsInDefault (s ∷ rules) v.1

insert_before_last-Quiet :
    (rule : Rule) (rules : List Rule) → EndsInDefault rules → Quiet (insert_before_last rule rules)
unfolding insert_before_last EndsInDefault
insert_before_last-Quiet rule [] v = absurd v
insert_before_last-Quiet rule (r ∷ []) v = Quiet-ok _
insert_before_last-Quiet rule (r ∷ s ∷ rules) v =
    Quiet-bind _ _ (insert_before_last-Quiet rule (s ∷ rules) v) (λ _ _. Quiet-ok _)

tail-EndsInDefault :
    (r s : Rule) (rules : List Rule) → EndsInDefault (r ∷ s ∷ rules) → EndsInDefault (s ∷ rules)
unfolding EndsInDefault
tail-EndsInDefault r s rules v = v

empty_lem : (rules : List Rule) → is_empty rules ≡ true → rules ≡ []
empty_lem [] e = refl
empty_lem (r ∷ rules) e = cc

-- Where nothing follows a rule that is found, it is the Default.
EndsAt : Place Rule → Type 0
EndsAt p = p.behind ≡ [] → p.item.is_default ≡ true

find_place-EndsAt :
    (test : Rule → Bool) (front rules : List Rule) (p : Place Rule)
    → EndsInDefault rules
    → find_place test front rules ≡ some p
    → EndsAt p
unfolding find_place EndsInDefault EndsAt
find_place-EndsAt test front [] p v e last = absurd v
find_place-EndsAt test front (r ∷ []) p v e last = elim (Bool-cases (test r)) [
  | inl h ↦ let same = some-injective (rw h at e) in ap (λ q. q.item.is_default) (sym same) ∙ v
  | inr h ↦ let none_left : none ≡ some p = rw h at e in cc
]
find_place-EndsAt test front (r ∷ s ∷ rules) p v e last = elim (Bool-cases (test r)) [
  | inl h ↦
      let same = some-injective (rw h at e) in
      let full : s ∷ rules ≡ [] = ap (λ q. q.behind) same ∙ last in absurd (cc)
  | inr h ↦ find_place-EndsAt test (r ∷ front) (s ∷ rules) p v (rw h at e) last
]

swap_up-Quiet : (r : Rule) (front behind : List Rule) → Quiet (swap_up r front behind)
unfolding swap_up
swap_up-Quiet r [] behind = Quiet-err _ _
swap_up-Quiet r (x ∷ front) behind = Quiet-ok _

swap_down-Quiet :
    (r : Rule) (front behind : List Rule)
    → is_empty behind ≡ false
    → Quiet (swap_down r front behind)
unfolding swap_down
swap_down-Quiet r front [] e = cc
swap_down-Quiet r front (x ∷ behind) e = Quiet-check x.is_default _ _ (Quiet-ok _)

-- A rule that is not the Default has a rule behind it.
followed : (p : Place Rule) → EndsAt p → p.item.is_default ≡ false → is_empty p.behind ≡ false
unfolding EndsAt
followed p v plain = elim (Bool-cases (is_empty p.behind)) [
  | inl e ↦ let marked = v (empty_lem p.behind e) in cc
  | inr e ↦ e
]

checked-Quiet :
    (b : Bool) (r : Result (List Rule)) → (b ≡ false → Quiet r) → Quiet (throw_if b order >> r)
checked-Quiet true r h = Quiet-err _ _
checked-Quiet false r h = h refl

swap_rule-Quiet : (d : ℤ) (p : Place Rule) → EndsAt p → Quiet (swap_rule d p)
unfolding swap_rule
swap_rule-Quiet (negsuc zero) p v =
    checked-Quiet p.item.is_default _ (λ _. swap_up-Quiet p.item p.front p.behind)
swap_rule-Quiet (pos (suc zero)) p v =
    checked-Quiet p.item.is_default _
      (λ plain. swap_down-Quiet p.item p.front p.behind (followed p v plain))
swap_rule-Quiet (negsuc (suc n)) p v = Quiet-err _ _
swap_rule-Quiet (pos zero) p v = Quiet-err _ _
swap_rule-Quiet (pos (suc (suc n))) p v = Quiet-err _ _

move_place-Quiet :
    (d : ℤ) (o : Option (Place Rule))
    → ((p : Place Rule) → o ≡ some p → EndsAt p)
    → Quiet (move_place d o)
unfolding move_place
move_place-Quiet d none v = Quiet-err _ _
move_place-Quiet d (some p) v = swap_rule-Quiet d p (v p refl)

replace_rule-Quiet : (r : Rule) (o : Option (Place Rule)) → Quiet (replace_rule r o)
unfolding replace_rule
replace_rule-Quiet r none = Quiet-err _ _
replace_rule-Quiet r (some p) =
    Quiet-check (not (same_bool p.item.is_default r.is_default)) _ _ (Quiet-ok _)

erase_rule-Quiet : (o : Option (Place Rule)) → Quiet (erase_rule o)
unfolding erase_rule
erase_rule-Quiet none = Quiet-err _ _
erase_rule-Quiet (some p) = Quiet-check p.item.is_default _ _ (Quiet-ok _)

copy_of-Quiet : (id : ℕ) (o : Option (Place Rule)) → Quiet (copy_of id o)
unfolding copy_of
copy_of-Quiet id none = Quiet-err _ _
copy_of-Quiet id (some p) = Quiet-ok _

replace_server-Quiet : (s : Server) (o : Option (Place Server)) → Quiet (replace_server s o)
unfolding replace_server
replace_server-Quiet s none = Quiet-err _ _
replace_server-Quiet s (some p) = Quiet-ok _

-- A configuration with other rules or other servers.
with_rules-Quiet :
    (config : Config) (m : Result (List Rule))
    → Quiet m
    → Quiet (m >>= λ rules. ok (record config { rules = rules }))
with_rules-Quiet config m h = Quiet-bind m _ h (λ _ _. Quiet-ok _)

pub candidate-Quiet :
    (e : Edit) (config : Config) → EndsInDefault config.rules → Quiet (candidate e config)
unfolding candidate find_rule
candidate-Quiet (add_rule r) config v =
    with_rules-Quiet config _ (insert_before_last-Quiet r config.rules v)
candidate-Quiet (update_rule r) config v =
    with_rules-Quiet config _ (replace_rule-Quiet r (find_rule r.id config.rules))
candidate-Quiet (remove_rule id) config v =
    with_rules-Quiet config _ (erase_rule-Quiet (find_rule id config.rules))
candidate-Quiet (move_rule id direction) config v = with_rules-Quiet config _ (
    move_place-Quiet direction (find_rule id config.rules)
      (λ p e. find_place-EndsAt (λ r. r.id == id) [] config.rules p v e))
candidate-Quiet (clone_rule source id) config v =
    Quiet-bind (copy_of id (find_rule source config.rules)) _
      (copy_of-Quiet id (find_rule source config.rules))
      (λ r _. with_rules-Quiet config _ (insert_before_last-Quiet r config.rules v))
candidate-Quiet (add_server s) config v = Quiet-ok _
candidate-Quiet (update_server s) config v =
    Quiet-bind (replace_server s (find_server s.id config.servers)) _
      (replace_server-Quiet s (find_server s.id config.servers)) (λ _ _. Quiet-ok _)
candidate-Quiet (remove_server id) config v =
    Quiet-check (not (has_server id config.servers)) _ _ (Quiet-ok _)
