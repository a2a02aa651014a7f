-- ===== src/Examples/Rules.antt =====
-- The theorems on configurations at one with two servers and two rules.
use mathlib.Core.List.{Perm}
use native_dns.Prelude.{
  ℕ, false, ◌≡◌, refl, Option, none, some, List, [], ◌∷◌, Text, codes, text_eq, lookup, ok, Safe,
}
use native_dns.Model.{block, default_rule_value, default_config, blank_server, Server, Rule, Config}
use native_dns.Network.Endpoint.{protocol_is, parse_numeric_endpoint}
use native_dns.Rules.Names.{normalize_host, normalize_dns_name}
use native_dns.Examples.Adapters.{connected}
use native_dns.Rules.Evaluate.{RuleDecision, evaluate_rule}
use native_dns.Rules.Evaluate.Decided.{Decided, evaluate_rule-Decided}
use native_dns.Rules.Options.{RuntimeOptions, boolean, number, runtime_options}
use native_dns.Rules.Options.Bounds.{IsBounded, runtime_options-IsBounded}
use native_dns.Rules.Validate.{
  has_id, when, check_fallbacks, check_patterns, is_process, matches_all, same_bool, check_rule,
  check_rules, check_references, check_cycles, check_server, check_servers, validate,
}
use native_dns.Rules.Validate.Acyclic.{Ranked, check_cycles-Ranked}
use native_dns.Rules.Select.{match_rule}
use native_dns.Rules.Select.Total.{First, match_rule-First}
use native_dns.Rules.Editor.{
  pos, negsuc, find_rule, move_place, candidate, Edit, move_rule, clone_rule, remove_rule, edit,
  run_edits,
}
use native_dns.Rules.Editor.Safety.{move_rule-Perm, run_edits-First}

-- An address parser for the one address of the configuration.
abbrev pub loopback4 : Text → Option (List ℕ)
loopback4 text = some (127 ∷ 0 ∷ 0 ∷ 1 ∷ [])

abbrev pub no_address : Text → Option (List ℕ)
no_address text = none

abbrev pub near : Server
near = record blank_server {
  id = 1;
  name = codes "near";
  ip = codes "127.0.0.1";
  fallback_ids = 2 ∷ [];
}

abbrev pub far : Server
far = record blank_server { id = 2; name = codes "far"; ip = codes "127.0.0.1" }

abbrev ads : Rule
ads = record default_rule_value {
  id = 2;
  name = codes "ads";
  is_default = false;
  patterns = codes "*.ads" ∷ [];
  action = block;
}

abbrev tracked : Rule
tracked = record default_rule_value {
  id = 3;
  name = codes "tracked";
  is_default = false;
  patterns = codes "a.b" ∷ codes "t?" ∷ [];
  server_id = 1;
}

abbrev pub sample : Config
sample = record default_config {
  servers = near ∷ far ∷ [];
  rules = ads ∷ tracked ∷ default_rule_value ∷ [];
  settings = (codes "ttlMin", codes "60") ∷ [];
}

abbrev moved : Config
moved = record sample { rules = tracked ∷ ads ∷ default_rule_value ∷ [] }

runtime_options-IsBounded_example : Safe IsBounded (runtime_options sample)
runtime_options-IsBounded_example = runtime_options-IsBounded sample

pub sample_valid : validate loopback4 no_address sample ≡ ok tt
unfolding validate runtime_options boolean lookup text_eq number normalize_host check_servers
    check_server has_id when parse_numeric_endpoint protocol_is check_fallbacks check_references
    check_cycles check_rules check_rule check_patterns normalize_dns_name matches_all same_bool
    is_process
sample_valid = refl

-- The editor holds the configuration behind an operation that succeeds.
moved_edit : edit loopback4 no_address (move_rule 3 (negsuc 0)) sample ≡ ok moved
unfolding edit candidate find_rule move_place validate runtime_options boolean lookup text_eq number
    normalize_host check_servers check_server has_id when parse_numeric_endpoint protocol_is
    check_fallbacks check_references check_cycles check_rules check_rule check_patterns
    normalize_dns_name matches_all same_bool is_process
moved_edit = refl

name_normalized : normalize_dns_name (codes "X.Ads") false ≡ ok (codes "x.ads")
unfolding normalize_dns_name
name_normalized = refl

match_rule-First_example :
    (r : Rule) × (match_rule sample (codes "X.Ads") ≡ ok r) × First (codes "x.ads") sample.rules r
match_rule-First_example =
    match_rule-First loopback4 no_address sample (codes "X.Ads") (codes "x.ads") sample_valid
      name_normalized

move_rule-Perm_example :
    Perm sample.rules moved.rules
    × (moved ≡ record sample { rules = moved.rules })
    × (validate loopback4 no_address moved ≡ ok tt)
move_rule-Perm_example = move_rule-Perm loopback4 no_address sample moved 3 (negsuc 0) moved_edit

abbrev edits : List Edit
edits = clone_rule 2 9 ∷ move_rule 1 (pos 1) ∷ remove_rule 3 ∷ remove_rule 1 ∷ []

run_edits-First_example :
    (next : Config) × (r : Rule) × (run_edits loopback4 no_address edits sample ≡ ok next)
    × (validate loopback4 no_address next ≡ ok tt)
    × (match_rule next (codes "X.Ads") ≡ ok r)
    × First (codes "x.ads") next.rules r
run_edits-First_example =
    run_edits-First loopback4 no_address sample edits (codes "X.Ads") (codes "x.ads") sample_valid
      name_normalized

evaluate_rule-Decided_example :
    (options : RuntimeOptions) × (d : RuleDecision) × (runtime_options sample ≡ ok options)
    × (evaluate_rule sample (codes "X.Ads") connected ≡ ok d)
    × Decided options connected (codes "x.ads") sample.rules d
evaluate_rule-Decided_example =
    evaluate_rule-Decided loopback4 no_address sample (codes "X.Ads") (codes "x.ads") connected
      sample_valid name_normalized

sample_references : check_references sample.servers sample.servers ≡ ok tt
unfolding check_references
sample_references = refl

check_cycles-Ranked_example :
    Safe (λ w. (r : ℕ → ℕ) × Ranked sample.servers r) (check_cycles sample.servers)
check_cycles-Ranked_example = check_cycles-Ranked sample.servers sample_references
