-- ===== src/Rules/Select/Accepted.antt =====
-- NativeDNS.Core/src/rules.cpp: what `validate` leaves of the rules of a configuration.
use native_dns.Prelude.{
  ℕ, Bool, true, false, not, ◌&&◌, ◌||◌, ◌≡◌, refl, List, [], ◌∷◌, ◌==◌, is_empty, length, ltb,
  Text, text_eq_iff, ok, >>=-eq-ok, arith, pattern, Option, rule_id, default_rule, schema,
  config_limit, config_invalid, passed, ran,
}
use native_dns.Model.{Rule, Config}
use native_dns.Rules.Names.{normalize_host}
use native_dns.Rules.Options.{RuntimeOptions, runtime_options}
use native_dns.Rules.Validate.{
  has_id, check_servers, check_references, check_cycles, Ids, check_patterns, check_rule,
  check_rules, matches_all, same_bool, validate,
}

-- A rule list whose last rule is an enabled one for every host, and whose patterns all parse.
abbrev pub Accepted : List Rule → Type 0
Accepted [] = ⊥
Accepted (r ∷ []) =
    (check_patterns r.patterns ≡ ok tt)
    × (r.enabled ≡ true)
    × (r.patterns ≡ (b'*' ∷ []) ∷ [])
    × (r.is_default ≡ true)
Accepted (r ∷ s ∷ rs) = (check_patterns r.patterns ≡ ok tt) × Accepted (s ∷ rs)

matches_all_lem : (ps : List Text) → matches_all ps ≡ true → ps ≡ (b'*' ∷ []) ∷ []
unfolding matches_all
matches_all_lem [] e = cc
matches_all_lem (p ∷ []) e = rw ((text_eq_iff p (b'*' ∷ [])).0 e)
matches_all_lem (p ∷ q ∷ ps) e = cc

default_lem :
    (r : Rule) (last : Bool)
    → not (same_bool r.is_default last) ≡ false
    → (r.is_default && (not r.enabled || not (matches_all r.patterns))) ≡ false
    → last ≡ true
    → (r.enabled ≡ true) × (r.patterns ≡ (b'*' ∷ []) ∷ []) × (r.is_default ≡ true)
unfolding same_bool
default_lem r last same all end =
    let marked : r.is_default ≡ true = ground (arith, end) in
    let every : matches_all r.patterns ≡ true = ground (arith, marked) in
    (ground (arith, marked), matches_all_lem r.patterns every, marked)

-- What the check of a rule leaves of it.
check_rule_lem :
    (servers seen : Ids) (last : Bool) (r : Rule)
    → check_rule servers last r seen ≡ ok tt
    → (check_patterns r.patterns ≡ ok tt)
      × (last ≡ true → (r.enabled ≡ true) × (r.patterns ≡ (b'*' ∷ []) ∷ []) × (r.is_default ≡ true))
unfolding check_rule
check_rule_lem servers seen last r e =
    let (_, e₁) = passed (r.id == 0 || has_id r.id seen || is_empty r.name) rule_id _ e in
    let (same, e₂) = passed (not (same_bool r.is_default last)) default_rule _ e₁ in
    let (all, e₃) =
      passed (r.is_default && (not r.enabled || not (matches_all r.patterns))) default_rule _ e₂ in
    let (_, e₄) = passed (is_empty r.patterns || ltb 4096 (length r.patterns)) pattern _ e₃ in
    let (_, patterns, _) = ran (check_patterns r.patterns) _ e₄ in
    (patterns, λ end. default_lem r last same all end)

check_rules-Accepted :
    (servers seen : Ids) (rs : List Rule)
    → is_empty rs ≡ false
    → check_rules servers rs seen ≡ ok tt
    → Accepted rs
unfolding check_rules
check_rules-Accepted servers seen [] some e = cc
check_rules-Accepted servers seen (r ∷ []) some e =
    let (_, checked, _) = ran (check_rule servers true r seen) _ e in
    let (patterns, last) = check_rule_lem servers seen true r checked in
    (patterns, (last refl).0, (last refl).1, (last refl).2)
check_rules-Accepted servers seen (r ∷ s ∷ rs) some e =
    let (_, checked, rest) = ran (check_rule servers false r seen) _ e in
    (
      (check_rule_lem servers seen false r checked).0,
      check_rules-Accepted servers (r.id ∷ seen) (s ∷ rs) refl rest,
    )

module _ (pton4 pton6 : Text → Option (List ℕ)) where
  pub validate-Accepted :
      (config : Config) → validate pton4 pton6 config ≡ ok tt → Accepted config.rules
  unfolding validate
  validate-Accepted config e =
      let (_, _, e₁) = >>=-eq-ok (runtime_options config) _ e in
      let (_, e₂) = passed (not (config.schema_version == 1)) schema _ e₁ in
      let (limits, e₃) =
        passed
          (ltb 4096 (length config.servers)
            || is_empty config.rules
            || ltb 4096 (length config.rules))
          config_limit _ e₂ in
      let (_, e₄) =
        passed (config.test_concurrency == 0 || ltb 64 config.test_concurrency) config_invalid _
          e₃ in
      let (_, _, e₅) = >>=-eq-ok (normalize_host config.test_target false) _ e₄ in
      let (ids, _, e₆) = >>=-eq-ok (check_servers pton4 pton6 config.servers []) _ e₅ in
      let (_, _, e₇) = ran (check_references config.servers config.servers) _ e₆ in
      let (_, _, e₈) = >>=-eq-ok (check_cycles config.servers) _ e₇ in
      check_rules-Accepted ids [] config.rules (ground arith) e₈

  pub validate-options :
      (config : Config)
      → validate pton4 pton6 config ≡ ok tt
      → (options : RuntimeOptions) × (runtime_options config ≡ ok options)
  unfolding validate
  validate-options config e =
      let (options, read, _) = >>=-eq-ok (runtime_options config) _ e in (options, read)
