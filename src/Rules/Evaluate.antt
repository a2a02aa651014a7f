-- ===== src/Rules/Evaluate.antt =====
-- NativeDNS.Core/src/rules.cpp: `evaluate_rule`. `network` is the snapshot that the caller gave or,
-- where it gave none, the one that `NetworkMonitor::shared()` holds. Messages are left out.
pub mod Decided
pub mod Safety
use native_dns.Prelude.{
  ℕ, Bool, true, false, not, ◌&&◌, ◌||◌, Option, none, some, List, [], ◌∷◌, ◌==◌, if◌then◌else◌,
  any, is_empty, Text, codes, text_eq, lookup, Code, default_rule, interface_enumeration,
  interface_down, not_implemented, Result, ok, err, fault, ◌>>=◌,
}
use native_dns.Model.{Action, process, bypass, block, NetworkRoute, no_route, Rule, Config}
use native_dns.Rules.Names.{normalize_dns_name}
use native_dns.Rules.Options.{RuntimeOptions, runtime_options, setting_max}
use native_dns.Rules.Validate.{is_process}
use native_dns.Rules.Select.{any_pattern}
use native_dns.Network.Interfaces.{InterfaceInfo, NetworkSnapshot, find_interface}

pub record RuleDecision : Type 0 where
  pub rule : Rule
  pub reinject_udp : Bool
  pub captive_bypass : Bool
  pub route : NetworkRoute
  pub interface_dns : List Text
  pub error : Option Code

unfoldable pub is_bypass : Action → Bool
is_bypass bypass = true
is_bypass process = false
is_bypass block = false

-- A decision for the rule with everything else at its default.
abbrev pub fresh : Rule → RuleDecision
fresh rule = record {
  rule = rule;
  reinject_udp = false;
  captive_bypass = false;
  route = no_route;
  interface_dns = [];
  error = none;
}

unfoldable pub selector_type : Rule → Text
selector_type rule = elim (lookup (codes "interface_id_type") rule.metadata) [
  | none ↦ codes "id"
  | some match ↦ match
]

unfoldable pub named_or : Text → Option Text → Text
named_or id none = id
named_or id (some name) = if is_empty name then id else name

unfoldable pub selector_of : Rule → Text
unfolding selector_type named_or
selector_of rule =
    if text_eq (selector_type rule) (codes "name")
    then named_or rule.interface_id (lookup (codes "interface_name") rule.metadata)
    else rule.interface_id

unfoldable pub is_probe : Text → Bool
is_probe host =
    text_eq host (codes "dns.msftncsi.com")
    || text_eq host (codes "www.msftncsi.com")
    || text_eq host (codes "ipv6.msftncsi.com")
    || text_eq host (codes "www.msftconnecttest.com")
    || text_eq host (codes "ipv6.msftconnecttest.com")

module _ (options : RuntimeOptions) (network : NetworkSnapshot) (host : Text) where
  unfoldable pub captive : Rule → Bool
  unfolding selector_of is_probe
  captive rule =
      (options.captive_portal_detection
        && is_process rule.action
        && rule.is_default
        && is_empty (selector_of rule))
      && (any (λ info. info.up && info.captive_portal) network.interfaces || is_probe host)

  -- From the check for DNSSEC on.
  unfoldable pub finish : RuleDecision → RuleDecision
  finish decision =
      let rule = decision.rule in
      if rule.dnssec_validate || rule.dnssec_reject_unsigned
      then record decision { error = some not_implemented }
      else record decision {
        captive_bypass = captive rule;
        reinject_udp =
            captive rule
            || is_bypass rule.action
            || (is_process rule.action
                && rule.server_id == 0
                && is_empty (selector_of rule)
                && options.ttl_min == 0
                && options.ttl_max == setting_max);
      }

  unfoldable pub is_skipped : Rule → Bool
  is_skipped rule = options.ignore_interface_down && not rule.is_default

  -- The route through the adapter that the selector found; nothing where the rule is passed over.
  unfoldable pub routed : Rule → Result (Option InterfaceInfo) → Result (Option RuleDecision)
  unfolding finish is_skipped
  routed rule fault = fault
  routed rule (err code) = ok (some (record (fresh rule) { error = some code }))
  routed rule (ok none) =
      ok (
        if is_skipped rule
        then none
        else some (record (fresh rule) { error = some interface_down }))
  routed rule (ok (some info)) =
      if not info.up
      then ok (
          if is_skipped rule
          then none
          else some (record (fresh rule) { error = some interface_down }))
      else ok (
          some (
            finish (record (fresh rule) {
              route = record {
                interface_id = info.id;
                interface_name = info.name;
                index4 = info.index4;
                index6 = info.index6;
                scope6 = 0;
                generation = network.generation;
              };
              interface_dns = info.dns_servers;
            })))

  -- The body of the loop for a rule that applies.
  unfoldable pub decide : Rule → Result (Option RuleDecision)
  decide rule =
      if is_empty (selector_of rule)
      then ok (some (finish (fresh rule)))
      else (if not (is_empty network.error)
          then ok (some (record (fresh rule) { error = some interface_enumeration }))
          else routed rule (find_interface network (selector_of rule) (selector_type rule)))

  unfoldable pub or_else : Result RuleDecision → Result (Option RuleDecision) → Result RuleDecision
  or_else rest fault = fault
  or_else rest (err code) = err code
  or_else rest (ok none) = rest
  or_else rest (ok (some decision)) = ok decision

  -- The loop over the rules.
  unfoldable pub evaluate_rules : List Rule → Result RuleDecision
  evaluate_rules [] = err default_rule
  evaluate_rules (rule ∷ rules) =
      let rest = evaluate_rules rules in
      let taken = any_pattern host rule.patterns >>= λ matched.
      if matched then or_else rest (decide rule) else rest in
      if not rule.enabled then rest else taken

unfoldable pub evaluate_rule : Config → Text → NetworkSnapshot → Result RuleDecision
evaluate_rule config hostname network = do
  host ← normalize_dns_name hostname false
  options ← runtime_options config
  evaluate_rules options network host config.rules
