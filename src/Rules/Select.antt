-- ===== src/Rules/Select.antt =====
-- NativeDNS.Core/src/rules.cpp: `match_rule`.
pub mod Applies
pub mod Accepted
pub mod Total
use native_dns.Prelude.{
  Bool, true, false, not, List, [], ◌∷◌, if◌then◌else◌, Text, default_rule, Result, ok, err, ◌>>=◌,
}
use native_dns.Model.{Rule, Config}
use native_dns.Rules.Names.{normalize_dns_name}
use native_dns.Rules.Match.{host_matches}

-- The loop over `rule.patterns`: whether one of them matches.
unfoldable pub any_pattern : Text → List Text → Result Bool
any_pattern host [] = ok false
any_pattern host (p ∷ patterns) = do
  q ← normalize_dns_name p true
  matched ← host_matches host q
  let rest = any_pattern host patterns
  if matched then ok true else rest

unfoldable pub first_rule : Text → List Rule → Result Rule
first_rule host [] = err default_rule
first_rule host (rule ∷ rules) =
    let rest = first_rule host rules in
    let chosen = any_pattern host rule.patterns >>= λ matched. if matched then ok rule else rest in
    if not rule.enabled then rest else chosen

unfoldable pub match_rule : Config → Text → Result Rule
match_rule config hostname = do
  host ← normalize_dns_name hostname false
  first_rule host config.rules
