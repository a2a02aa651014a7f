-- ===== src/Rules/Select/Total.antt =====
-- NativeDNS.Core/src/rules.cpp: which rule `match_rule` finds in a configuration that `validate`
-- accepts.
use native_dns.Prelude.{
  ℕ, Bool, true, false, ◌≡◌, refl, inl, inr, List, [], ◌∷◌, Bool-cases, Text, Result, ok, err,
  fault, Option,
}
use native_dns.Model.{Rule, Config}
use native_dns.Rules.Names.{normalize_dns_name}
use native_dns.Rules.Match.Correct.{IsStarless, Answers}
use native_dns.Rules.Validate.{validate}
use native_dns.Rules.Select.{any_pattern, first_rule, match_rule}
use native_dns.Rules.Select.Applies.{
  Applies, any_pattern-Answers, normalized-IsStarless, star-Applies,
}
use native_dns.Rules.Select.Accepted.{Accepted, validate-Accepted}

-- The rule is the first that is enabled and applies.
pub data First (h : Text) : List Rule → Rule → Type 0 where
  found : {r : Rule} {rs : List Rule} → r.enabled ≡ true → Applies h r.patterns → First h (r ∷ rs) r
  disabled : {r s : Rule} {rs : List Rule} → r.enabled ≡ false → First h rs s → First h (r ∷ rs) s
  inapplicable :
      {r s : Rule} {rs : List Rule} → ¬ Applies h r.patterns → First h rs s → First h (r ∷ rs) s

module _ (h : Text) (starless : IsStarless h) where
  -- What the search of a list of rules comes to.
  Selects : List Rule → Type 0
  Selects rs = (r : Rule) × (first_rule h rs ≡ ok r) × First h rs r

  applied-Selects :
      (r : Rule) (rs : List Rule) (m : Result Bool)
      → any_pattern h r.patterns ≡ m
      → Answers (Applies h r.patterns) m
      → r.enabled ≡ true
      → (¬ Applies h r.patterns → Selects rs)
      → Selects (r ∷ rs)
  unfolding first_rule Selects
  applied-Selects r rs (ok true) e a on next = (r, rw (on, e) refl, found on a)
  applied-Selects r rs (ok false) e a on next =
      let (s, chosen, first) = next a in (s, rw (on, e) chosen, inapplicable a first)
  applied-Selects r rs (err c) e a on next = absurd a
  applied-Selects r rs fault e a on next = absurd a

  disabled-Selects : (r : Rule) (rs : List Rule) → r.enabled ≡ false → Selects rs → Selects (r ∷ rs)
  unfolding first_rule Selects
  disabled-Selects r rs off (s, chosen, first) = (s, rw off chosen, disabled off first)

  first_rule-Selects : (rs : List Rule) → Accepted rs → Selects rs
  first_rule-Selects [] v = absurd v
  first_rule-Selects (r ∷ []) v =
      let applies = star-Applies h r.patterns v.2 in
      applied-Selects r [] _ refl (any_pattern-Answers h starless r.patterns v.0) v.1
        (λ n. absurd (n applies))
  first_rule-Selects (r ∷ s ∷ rs) v = elim (Bool-cases r.enabled) [
    | inl on ↦
        applied-Selects r (s ∷ rs) _ refl (any_pattern-Answers h starless r.patterns v.0) on
          (λ _. first_rule-Selects (s ∷ rs) v.1)
    | inr off ↦ disabled-Selects r (s ∷ rs) off (first_rule-Selects (s ∷ rs) v.1)
  ]

module _ (pton4 pton6 : Text → Option (List ℕ)) where
  -- In a configuration that `validate` accepts, every name that can be normalized has a rule: the
  -- search returns the first enabled rule with a pattern that describes the name.
  pub match_rule-First :
      (config : Config) (hostname name : Text)
      → validate pton4 pton6 config ≡ ok tt
      → normalize_dns_name hostname false ≡ ok name
      → (r : Rule) × (match_rule config hostname ≡ ok r) × First name config.rules r
  unfolding match_rule Selects
  match_rule-First config hostname name v e =
      let (r, chosen, first) =
        first_rule-Selects name (normalized-IsStarless hostname e) config.rules
          (validate-Accepted pton4 pton6 config v) in
      (r, rw e chosen, first)
