-- ===== src/Rules/Patterns/Canonical.antt =====
-- NativeDNS.Core/src/rules.cpp: the patterns that `split_patterns` gives.
use native_dns.Prelude.{
  Bool, true, false, not, ◌&&◌, ◌||◌, ◌≡◌, ◌≤◌, refl, subst, List, [], ◌∷◌, ◌==◌, ltb, length,
  is_empty, if_cases, All, Text, rule_id, default_rule, pattern, Result, ok, Safe, Safe-bind,
  Safe-weaken-eq, passed, ran, arith,
}
use native_dns.Model.{Rule}
use native_dns.Rules.Names.{normalize_dns_name}
use native_dns.Rules.Names.Canonical.{IsCanonical, normalize-IsCanonical}
use native_dns.Rules.Names.Fixed.{normalize_idem}
use native_dns.Rules.Patterns.{pieces, is_filled, normalize_pieces, split_patterns}
use native_dns.Rules.Validate.{Ids, has_id, same_bool, matches_all, check_patterns, check_rule}

-- A pattern that normalizing leaves as it is.
IsFixed : Text → Type 0
IsFixed p = normalize_dns_name p true ≡ ok p

normalize-IsFixed : (value : Text) → Safe IsFixed (normalize_dns_name value true)
unfolding normalize_dns_name IsFixed
normalize-IsFixed value =
    Safe-weaken-eq (IsCanonical true false) IsFixed _ (λ r e _. normalize_idem value r true false e)
      (normalize-IsCanonical value true false)

normalize_pieces-IsFixed : (values : List Text) → Safe (All IsFixed) (normalize_pieces values)
unfolding normalize_pieces
normalize_pieces-IsFixed [] = tt
normalize_pieces-IsFixed (value ∷ values) =
    if_cases (Safe (All IsFixed)) (is_filled value)
      (λ _. Safe-bind IsFixed (All IsFixed) _ _ (normalize-IsFixed value) λ p fixed.
        Safe-bind (All IsFixed) (All IsFixed) _ _ (normalize_pieces-IsFixed values)
          λ ps all_fixed. (fixed, all_fixed))
      (λ _. normalize_pieces-IsFixed values)

check_patterns-IsFixed : (ps : List Text) → All IsFixed ps → check_patterns ps ≡ ok tt
unfolding check_patterns IsFixed
check_patterns-IsFixed [] h = refl
check_patterns-IsFixed (p ∷ ps) h = rw h.0 (check_patterns-IsFixed ps h.1)

split_patterns-IsFixed : (text : Text) → Safe (All IsFixed) (split_patterns text)
unfolding split_patterns
split_patterns-IsFixed text = normalize_pieces-IsFixed (pieces text)

Safe-ok :
    (ps : List Text) (r : Result (List Text)) → r ≡ ok ps → Safe (All IsFixed) r → All IsFixed ps
Safe-ok ps r e safe = subst (Safe (All IsFixed)) e safe

-- The check of a rule that is not the Default reads of its patterns only how many they are and
-- whether they normalize.
check_rule-patterns :
    (servers seen : Ids) (last : Bool) (rule : Rule) (ps : List Text)
    → check_rule servers last rule seen ≡ ok tt
    → rule.is_default ≡ false
    → is_empty ps ≡ false
    → length ps ≤ 4096
    → check_patterns ps ≡ ok tt
    → check_rule servers last (record rule { patterns = ps }) seen ≡ ok tt
unfolding check_rule
check_rule-patterns servers seen last r ps e plain some few normal =
    let (named, e₁) = passed (r.id == 0 || has_id r.id seen || is_empty r.name) rule_id _ e in
    let (same, e₂) = passed (not (same_bool r.is_default last)) default_rule _ e₁ in
    let (_, e₃) =
      passed (r.is_default && (not r.enabled || not (matches_all r.patterns))) default_rule _ e₂ in
    let (_, e₄) = passed (is_empty r.patterns || ltb 4096 (length r.patterns)) pattern _ e₃ in
    let (_, _, e₅) = ran (check_patterns r.patterns) _ e₄ in
    let small : ltb 4096 (length ps) ≡ false = ground (arith, few) in
    let unmarked : (r.is_default && (not r.enabled || not (matches_all ps))) ≡ false =
      rw plain refl in
    rw (named, same, unmarked, some, small, normal) e₅

-- A rule other than the Default that passes validation passes it as well with the patterns that
-- are split from any text, where these are at least one and at most 4096. Each of them is left as
-- it is by normalizing.
pub split_patterns-check_rule :
    (text : Text) (ps : List Text) (servers seen : Ids) (last : Bool) (rule : Rule)
    → split_patterns text ≡ ok ps
    → check_rule servers last rule seen ≡ ok tt
    → rule.is_default ≡ false
    → is_empty ps ≡ false
    → length ps ≤ 4096
    → All (λ p. normalize_dns_name p true ≡ ok p) ps
      × (check_rule servers last (record rule { patterns = ps }) seen ≡ ok tt)
unfolding IsFixed
split_patterns-check_rule text ps servers seen last rule split checked plain some few =
    let fixed = Safe-ok ps (split_patterns text) split (split_patterns-IsFixed text) in
    (
      fixed,
      check_rule-patterns servers seen last rule ps checked plain some few
          (check_patterns-IsFixed ps fixed),
    )
