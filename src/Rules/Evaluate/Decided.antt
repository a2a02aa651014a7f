-- ===== src/Rules/Evaluate/Decided.antt =====
-- NativeDNS.Core/src/rules.cpp: what `evaluate_rule` decides in a valid configuration.
use native_dns.Prelude.{
  ℕ, Bool, true, false, not, ◌&&◌, ◌||◌, ◌≡◌, refl, sym, ◌∙◌, ◌⊎◌, inl, inr, Option, none, some,
  List, [], ◌∷◌, if◌then◌else◌, if_cases, is_empty, Bool-cases, Text, Code, interface_enumeration,
  interface_down, not_implemented, Result, ok, err, fault, Safe, Safe-throw_if, arith,
}
use native_dns.Model.{NetworkRoute, no_route, Rule, Config}
use native_dns.Rules.Names.{normalize_dns_name}
use native_dns.Rules.Options.{RuntimeOptions, runtime_options}
use native_dns.Rules.Validate.{validate}
use native_dns.Rules.Match.Correct.{IsStarless, Answers}
use native_dns.Rules.Select.{any_pattern}
use native_dns.Rules.Select.Applies.{
  Applies, any_pattern-Answers, normalized-IsStarless, star-Applies,
}
use native_dns.Rules.Select.Accepted.{Accepted, validate-Accepted, validate-options}
use native_dns.Network.Interfaces.{
  InterfaceInfo, NetworkSnapshot, is_selector_type, only_match, find_interface,
}
use native_dns.Rules.Evaluate.{
  RuleDecision, fresh, selector_type, selector_of, finish, is_skipped, routed, decide, or_else,
  evaluate_rules, evaluate_rule,
}

true≢false : ◌≡◌ {A = Bool} true false → ⊥
true≢false e = cc

only_match-Safe :
    (test : InterfaceInfo → Bool) (infos : List InterfaceInfo) (found : Option InterfaceInfo)
    → Safe (λ _. Unit) (only_match test infos found)
unfolding only_match
only_match-Safe test [] found = tt
only_match-Safe test (info ∷ rest) none =
    if_cases (Safe (λ _. Unit)) (test info) (λ _. only_match-Safe test rest (some info))
      (λ _. only_match-Safe test rest none)
only_match-Safe test (info ∷ rest) (some first) =
    if_cases (Safe (λ _. Unit)) (test info) (λ _. tt) (λ _. only_match-Safe test rest (some first))

find_interface-Safe :
    (network : NetworkSnapshot) (id match : Text)
    → Safe (λ _. Unit) (find_interface network id match)
unfolding find_interface
find_interface-Safe network id match =
    Safe-throw_if (λ _. Unit) (not (is_selector_type match)) _ _
      λ _. only_match-Safe _ network.interfaces none

module _ (options : RuntimeOptions) (network : NetworkSnapshot) (host : Text) where
  -- What the check for DNSSEC reports.
  abbrev pub dnssec_error : Rule → Option Code
  dnssec_error rule =
      if rule.dnssec_validate || rule.dnssec_reject_unsigned then some not_implemented else none

  abbrev pub route_of : InterfaceInfo → NetworkRoute
  route_of info = record {
    interface_id = info.id;
    interface_name = info.name;
    index4 = info.index4;
    index6 = info.index6;
    scope6 = 0;
    generation = network.generation;
  }

  abbrev pub Found : Rule → Result (Option InterfaceInfo) → Type 0
  Found rule r = find_interface network (selector_of rule) (selector_type rule) ≡ r

  -- The rule has a selector, and the adapters could be listed.
  abbrev pub IsSelecting : Rule → Type 0
  IsSelecting rule = (is_empty (selector_of rule) ≡ false) × (is_empty network.error ≡ true)

  -- The selector's adapter is not there, or it is not up.
  abbrev pub IsDown : Rule → Type 0
  IsDown rule =
      IsSelecting rule
      × (Found rule (ok none)
          ⊎ ((info : InterfaceInfo) × Found rule (ok (some info)) × (info.up ≡ false)))

  -- The decision for a rule that applies.
  pub data Decision (rule : Rule) (d : RuleDecision) : Type 0 where
    anywhere :
        is_empty (selector_of rule) ≡ true
        → d.rule ≡ rule
        → d.route ≡ no_route
        → d.interface_dns ≡ []
        → d.error ≡ dnssec_error rule
        → Decision rule d
    through :
        (info : InterfaceInfo)
        → IsSelecting rule
        → Found rule (ok (some info))
        → info.up ≡ true
        → d.rule ≡ rule
        → d.route ≡ route_of info
        → d.interface_dns ≡ info.dns_servers
        → d.error ≡ dnssec_error rule
        → Decision rule d
    unlisted :
        is_empty (selector_of rule) ≡ false
        → is_empty network.error ≡ false
        → d ≡ record (fresh rule) { error = some interface_enumeration }
        → Decision rule d
    unfound :
        (c : Code)
        → IsSelecting rule
        → Found rule (err c)
        → d ≡ record (fresh rule) { error = some c }
        → Decision rule d
    down :
        IsDown rule
        → (options.ignore_interface_down ≡ false) ⊎ (rule.is_default ≡ true)
        → d ≡ record (fresh rule) { error = some interface_down }
        → Decision rule d

  -- A rule that applies is decided, or passed over: only where the options ask for it, the rule is
  -- not the Default, and its adapter is not there or not up.
  pub IsOutcome : Rule → Option RuleDecision → Type 0
  IsOutcome rule none =
      (options.ignore_interface_down ≡ true) × (rule.is_default ≡ false) × IsDown rule
  IsOutcome rule (some d) = Decision rule d

  abbrev Outcome : Rule → Result (Option RuleDecision) → Type 0
  Outcome rule r = (o : Option RuleDecision) × (r ≡ ok o) × IsOutcome rule o

  unskipped :
      (rule : Rule)
      → (options.ignore_interface_down && not rule.is_default) ≡ false
      → (options.ignore_interface_down ≡ false) ⊎ (rule.is_default ≡ true)
  unskipped rule h = elim (Bool-cases rule.is_default) [
    | inl e ↦ inr e
    | inr e ↦ inl (ground (arith, e))
  ]

  down-IsOutcome :
      (rule : Rule)
      → IsDown rule
      → IsOutcome rule (
          if is_skipped options network host rule
          then none
          else some (record (fresh rule) { error = some interface_down }))
  unfolding IsOutcome is_skipped
  down-IsOutcome rule away =
      if_cases (IsOutcome rule) (options.ignore_interface_down && not rule.is_default)
        (λ s. (ground (arith, s), ground (arith, s), away)) (λ s. down away (unskipped rule s) refl)

  -- The decision keeps what it has, and an error stands in it only where DNSSEC is asked for.
  abbrev Finished : RuleDecision → RuleDecision → Type 0
  Finished d r =
      (r.rule ≡ d.rule)
      × (r.route ≡ d.route)
      × (r.interface_dns ≡ d.interface_dns)
      × (r.error ≡ dnssec_error d.rule)

  finish_lem : (d : RuleDecision) → d.error ≡ none → Finished d (finish options network host d)
  unfolding finish
  finish_lem d clean = elim (Bool-cases (d.rule.dnssec_validate || d.rule.dnssec_reject_unsigned)) [
    | inl h ↦ rw h (refl, refl, refl, refl)
    | inr h ↦ rw h (refl, refl, refl, clean)
  ]

  routed-Outcome :
      (rule : Rule) (m : Result (Option InterfaceInfo))
      → IsSelecting rule
      → Found rule m
      → Safe (λ _. Unit) m
      → Outcome rule (routed options network host rule m)
  unfolding routed IsOutcome
  routed-Outcome rule fault selects e s = absurd s
  routed-Outcome rule (err c) selects e s = (_, refl, unfound c selects e refl)
  routed-Outcome rule (ok none) selects e s = (_, refl, down-IsOutcome rule (selects, inl e))
  routed-Outcome rule (ok (some info)) selects e s =
      if_cases (Outcome rule) (not info.up)
        (λ off. (_, refl, down-IsOutcome rule (selects, inr (info, e, ground (arith, off)))))
        (λ up.
          let (same, route, dns, error) =
            finish_lem
              (record (fresh rule) { route = route_of info; interface_dns = info.dns_servers })
              refl in
          (_, refl, through info selects e (ground (arith, up)) same route dns error))

  decide-Outcome : (rule : Rule) → Outcome rule (decide options network host rule)
  unfolding decide IsOutcome
  decide-Outcome rule =
      if_cases (Outcome rule) (is_empty (selector_of rule))
        (λ free.
          let (same, route, dns, error) = finish_lem (fresh rule) refl in
          (_, refl, anywhere free same route dns error))
        (λ full.
          if_cases (Outcome rule) (not (is_empty network.error))
            (λ broken. (_, refl, unlisted full (ground (arith, broken)) refl))
            (λ listed.
              routed-Outcome rule _ (full, ground (arith, listed)) refl
                (find_interface-Safe network (selector_of rule) (selector_type rule))))

  -- The rule of a decision is the first that is enabled, applies and is not passed over.
  pub data Decided : List Rule → RuleDecision → Type 0 where
    taken :
        {r : Rule} {rs : List Rule} {d : RuleDecision}
        → r.enabled ≡ true
        → Applies host r.patterns
        → IsOutcome r (some d)
        → Decided (r ∷ rs) d
    passed_over :
        {r : Rule} {rs : List Rule} {d : RuleDecision}
        → r.enabled ≡ true
        → Applies host r.patterns
        → IsOutcome r none
        → Decided rs d
        → Decided (r ∷ rs) d
    disabled :
        {r : Rule} {rs : List Rule} {d : RuleDecision}
        → r.enabled ≡ false
        → Decided rs d
        → Decided (r ∷ rs) d
    inapplicable :
        {r : Rule} {rs : List Rule} {d : RuleDecision}
        → ¬ Applies host r.patterns
        → Decided rs d
        → Decided (r ∷ rs) d

  abbrev Decides : List Rule → Type 0
  Decides rs = (d : RuleDecision) × (evaluate_rules options network host rs ≡ ok d) × Decided rs d

  decided_from :
      (r : Rule) (rs : List Rule) (m : Result (Option RuleDecision))
      → decide options network host r ≡ m
      → Outcome r m
      → any_pattern host r.patterns ≡ ok true
      → Applies host r.patterns
      → r.enabled ≡ true
      → (IsOutcome r none → Decides rs)
      → Decides (r ∷ rs)
  unfolding evaluate_rules or_else
  decided_from r rs m e (none, o, out) matched a on next =
      let (d, chosen, rest) = next out in
      (d, rw (matched, e, o, on) chosen, passed_over on a out rest)
  decided_from r rs m e (some d, o, out) matched a on next =
      (d, rw (matched, e, o, on) refl, taken on a out)

  applied-Decides :
      (r : Rule) (rs : List Rule) (m : Result Bool)
      → any_pattern host r.patterns ≡ m
      → Answers (Applies host r.patterns) m
      → r.enabled ≡ true
      → (¬ Applies host r.patterns ⊎ IsOutcome r none → Decides rs)
      → Decides (r ∷ rs)
  unfolding evaluate_rules
  applied-Decides r rs (ok true) e a on next =
      decided_from r rs _ refl (decide-Outcome r) e a on (λ out. next (inr out))
  applied-Decides r rs (ok false) e a on next =
      let (d, chosen, rest) = next (inl a) in (d, rw (on, e) chosen, inapplicable a rest)
  applied-Decides r rs (err c) e a on next = absurd a
  applied-Decides r rs fault e a on next = absurd a

  disabled-Decides : (r : Rule) (rs : List Rule) → r.enabled ≡ false → Decides rs → Decides (r ∷ rs)
  unfolding evaluate_rules
  disabled-Decides r rs off (d, chosen, rest) = (d, rw off chosen, disabled off rest)

  evaluate_rules-Decides : (rs : List Rule) → IsStarless host → Accepted rs → Decides rs
  unfolding IsOutcome
  evaluate_rules-Decides [] s v = absurd v
  evaluate_rules-Decides (r ∷ []) s v =
      applied-Decides r [] _ refl (any_pattern-Answers host s r.patterns v.0) v.1 (λ c. elim c [
        | inl n ↦ absurd (n (star-Applies host r.patterns v.2))
        | inr out ↦ absurd (true≢false (sym v.3 ∙ out.1))
      ])
  evaluate_rules-Decides (r ∷ t ∷ rs) s v = elim (Bool-cases r.enabled) [
    | inl on ↦
        applied-Decides r (t ∷ rs) _ refl (any_pattern-Answers host s r.patterns v.0) on
          (λ _. evaluate_rules-Decides (t ∷ rs) s v.1)
    | inr off ↦ disabled-Decides r (t ∷ rs) off (evaluate_rules-Decides (t ∷ rs) s v.1)
  ]

-- In a valid configuration every name that can be normalized has a decision, whatever the state
-- of the network. Its rule is the first that is enabled, applies and is not passed over. A rule
-- is passed over only where the options ask for it, it is not the Default, and it has a selector
-- whose adapter is not there or not up. The decision for a rule without a selector has no route.
-- For one with a selector the route and the resolvers are those of its adapter, under the
-- generation of the network, where it is there and up; or the decision is the error that kept it
-- from being found, or that it is down. A decision without one of these errors has an error just
-- where the rule asks for DNSSEC.
pub evaluate_rule-Decided :
    (pton4 pton6 : Text → Option (List ℕ)) (config : Config) (hostname name : Text)
    (network : NetworkSnapshot)
    → validate pton4 pton6 config ≡ ok tt
    → normalize_dns_name hostname false ≡ ok name
    → (options : RuntimeOptions) × (d : RuleDecision) × (runtime_options config ≡ ok options)
      × (evaluate_rule config hostname network ≡ ok d)
      × Decided options network name config.rules d
unfolding evaluate_rule
evaluate_rule-Decided pton4 pton6 config hostname name network v e =
    let (options, read) = validate-options pton4 pton6 config v in
    let (d, decided, which) =
      evaluate_rules-Decides options network name config.rules (normalized-IsStarless hostname e)
        (validate-Accepted pton4 pton6 config v) in
    (options, d, read, rw (e, read) decided, which)
