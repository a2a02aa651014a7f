-- ===== src/Rules/Editor/Safety.antt =====
-- NativeDNS.Core/src/rules.cpp: what the operations of `ConfigEditor` keep.
use mathlib.Core.List.{Permᴰ, Perm}
use native_dns.Prelude.{
  ℕ, zero, suc, Bool, false, ◌≡◌, refl, sym, ap, subst, ◌∙◌, Option, none, some, List, [], ◌∷◌,
  ◌==◌, Bool-cases, Option-cases, inl, inr, Text, order, Result, ok-injective, ok, err, fault,
  passed, ran, >>=-eq-ok,
}
use native_dns.Model.{Rule, Config}
use native_dns.Rules.Names.{normalize_dns_name}
use native_dns.Rules.Validate.{validate}
use native_dns.Rules.Select.{match_rule}
use native_dns.Rules.Select.Total.{First, match_rule-First}
use native_dns.Rules.Select.Accepted.{validate-Accepted}
use native_dns.Rules.Validate.Ends.{Quiet, Quiet-bind, Quiet-ok, validate-Quiet}
use native_dns.Rules.Editor.Candidates.{Accepted-EndsInDefault, candidate-Quiet}
use native_dns.Rules.Editor.{
  Place, find_place, rewind, find_rule, swap_up, swap_down, ℤ, pos, negsuc, swap_rule, move_place,
  Edit, move_rule, candidate, commit, edit, after_edit, run_edits,
}

some-inj {ℓ} : {A : Type ℓ} {a b : A} → some a ≡ some b → a ≡ b
some-inj e = cc

module _ {A : Type 0} where
  -- A place that is found is a place of the list.
  find_place-rewind :
      (test : A → Bool) (front xs : List A) {p : Place A}
      → find_place test front xs ≡ some p
      → rewind p.front (p.item ∷ p.behind) ≡ rewind front xs
  unfolding find_place rewind
  find_place-rewind test front [] e = cc
  find_place-rewind test front (x ∷ xs) {p} e = elim (Bool-cases (test x)) [
    | inl h ↦
        let same : some (record { front = front; item = x; behind = xs }) ≡ some p = rw h at e in
        ap (λ q. rewind q.front (q.item ∷ q.behind)) (sym (some-inj same))
    | inr h ↦ find_place-rewind test (x ∷ front) xs (rw h at e)
  ]

  rewind-Permᴰ :
      (front : List A) {xs ys : List A} → Permᴰ xs ys → Permᴰ (rewind front xs) (rewind front ys)
  unfolding rewind
  rewind-Permᴰ [] h = h
  rewind-Permᴰ (x ∷ front) h = rewind-Permᴰ front (Permᴰ.cons refl h)

  -- Moving an element past its neighbour permutes a list.
  swapped-Permᴰ :
      (front : List A) (a b : A) (behind : List A)
      → Permᴰ (rewind front (a ∷ b ∷ behind)) (rewind front (b ∷ a ∷ behind))
  swapped-Permᴰ front a b behind = rewind-Permᴰ front (Permᴰ.swap refl refl)

-- A move gives a permutation of the list that the place came from.
Permutes : Place Rule → List Rule → Type 0
Permutes p rules = Permᴰ (rewind p.front (p.item ∷ p.behind)) rules

swap_up-Permᴰ :
    (rule : Rule) (front behind : List Rule) {rules : List Rule}
    → swap_up rule front behind ≡ ok rules
    → Permᴰ (rewind front (rule ∷ behind)) rules
unfolding swap_up rewind
swap_up-Permᴰ rule [] behind e = cc
swap_up-Permᴰ rule (x ∷ front) behind {rules} e =
    subst (Permᴰ _) (ok-injective e) (swapped-Permᴰ front x rule behind)

swap_down-Permᴰ :
    (rule : Rule) (front behind : List Rule) {rules : List Rule}
    → swap_down rule front behind ≡ ok rules
    → Permᴰ (rewind front (rule ∷ behind)) rules
unfolding swap_down
swap_down-Permᴰ rule front [] e = cc
swap_down-Permᴰ rule front (x ∷ behind) e =
    let (_, e₁) = passed x.is_default order _ e in
    subst (Permᴰ _) (ok-injective e₁) (swapped-Permᴰ front rule x behind)

swap_rule-Permutes :
    (d : ℤ) (p : Place Rule) {rules : List Rule} → swap_rule d p ≡ ok rules → Permutes p rules
unfolding swap_rule Permutes
swap_rule-Permutes (negsuc zero) p e =
    swap_up-Permᴰ p.item p.front p.behind (passed p.item.is_default order _ e).1
swap_rule-Permutes (pos (suc zero)) p e =
    swap_down-Permᴰ p.item p.front p.behind (passed p.item.is_default order _ e).1
swap_rule-Permutes (negsuc (suc n)) p e = cc
swap_rule-Permutes (pos zero) p e = cc
swap_rule-Permutes (pos (suc (suc n))) p e = cc

move_place-Permᴰ :
    (id : ℕ) (d : ℤ) (rules : List Rule) {next : List Rule}
    → move_place d (find_rule id rules) ≡ ok next
    → Permᴰ rules next
unfolding move_place find_rule Permutes
move_place-Permᴰ id d rules {next} e = elim (Option-cases (find_rule id rules)) [
  | inl h ↦ let stuck : move_place d none ≡ ok next = rw h at e in cc
  | inr (p, h) ↦
      subst (λ r. Permᴰ r next) (find_place-rewind (λ r. r.id == id) [] rules h)
        (swap_rule-Permutes d p (rw h at e))
]

module _ (pton4 pton6 : Text → Option (List ℕ)) where
  edit-validate :
      (e : Edit) (config next : Config)
      → edit pton4 pton6 e config ≡ ok next
      → (candidate e config ≡ ok next) × (validate pton4 pton6 next ≡ ok tt)
  unfolding edit commit
  edit-validate e config next h =
      let (c, built, h₁) = >>=-eq-ok (candidate e config) _ h in
      let (_, valid, h₂) = ran (validate pton4 pton6 c) _ h₁ in
      let same = ok-injective h₂ in
      (built ∙ h₂, subst (λ n. validate pton4 pton6 n ≡ ok tt) same valid)

  -- A rule that is moved changes the order of the rules and nothing else, and the result is valid.
  pub move_rule-Perm :
      (config next : Config) (id : ℕ) (direction : ℤ)
      → edit pton4 pton6 (move_rule id direction) config ≡ ok next
      → Perm config.rules next.rules
        × (next ≡ record config { rules = next.rules })
        × (validate pton4 pton6 next ≡ ok tt)
  unfolding candidate
  move_rule-Perm config next id direction h =
      let (built, valid) = edit-validate (move_rule id direction) config next h in
      let (rules, moved, e) =
        >>=-eq-ok (move_place direction (find_rule id config.rules)) _ built in
      let same = ok-injective e in
      (
        subst (λ n. Perm config.rules n.rules) same
            ∣ move_place-Permᴰ id direction config.rules moved ∣₁,
        subst (λ n. n ≡ record config { rules = n.rules }) same refl,
        valid,
      )

  -- No operation on a valid configuration faults.
  edit-Quiet :
      (e : Edit) (config : Config)
      → validate pton4 pton6 config ≡ ok tt
      → Quiet (edit pton4 pton6 e config)
  unfolding edit commit
  edit-Quiet e config v =
      Quiet-bind (candidate e config) _
        (candidate-Quiet e config
          (Accepted-EndsInDefault config.rules (validate-Accepted pton4 pton6 config v)))
        (λ next _.
          Quiet-bind (validate pton4 pton6 next) _ (validate-Quiet pton4 pton6 next)
            (λ _ _. Quiet-ok next))

  -- The editor goes on with a valid configuration.
  abbrev GoesOn : Result Config → Type 0
  GoesOn r = (next : Config) × (r ≡ ok next) × (validate pton4 pton6 next ≡ ok tt)

  after_edit-GoesOn :
      (config : Config) (r : Result Config)
      → validate pton4 pton6 config ≡ ok tt
      → Quiet r
      → ((next : Config) → r ≡ ok next → validate pton4 pton6 next ≡ ok tt)
      → GoesOn (after_edit pton4 pton6 config r)
  unfolding after_edit Quiet
  after_edit-GoesOn config (ok next) v q h = (next, refl, h next refl)
  after_edit-GoesOn config (err c) v q h = (config, refl, v)
  after_edit-GoesOn config fault v q h = absurd q

  run_edits-GoesOn :
      (edits : List Edit) (config : Config)
      → validate pton4 pton6 config ≡ ok tt
      → GoesOn (run_edits pton4 pton6 edits config)
  unfolding run_edits
  run_edits-GoesOn [] config v = (config, refl, v)
  run_edits-GoesOn (e ∷ edits) config v =
      let (next, went, valid) =
        after_edit-GoesOn config (edit pton4 pton6 e config) v (edit-Quiet e config v)
          (λ next h. (edit-validate e config next h).1) in
      let (last, ran_on, still) = run_edits-GoesOn edits next valid in (last, rw went ran_on, still)

  -- Whatever is done through an editor that began with a valid configuration, no operation leaves
  -- a container, and the editor goes on with a valid configuration, where one that throws leaves
  -- the configuration as it was. For every name that can be normalized some rule is found then,
  -- and it is the first enabled rule that describes the name.
  pub run_edits-First :
      (config : Config) (edits : List Edit) (hostname name : Text)
      → validate pton4 pton6 config ≡ ok tt
      → normalize_dns_name hostname false ≡ ok name
      → (next : Config) × (r : Rule) × (run_edits pton4 pton6 edits config ≡ ok next)
        × (validate pton4 pton6 next ≡ ok tt)
        × (match_rule next hostname ≡ ok r)
        × First name next.rules r
  run_edits-First config edits hostname name v e =
      let (next, went, valid) = run_edits-GoesOn edits config v in
      let (r, matched, first) = match_rule-First pton4 pton6 next hostname name valid e in
      (next, r, went, valid, matched, first)
