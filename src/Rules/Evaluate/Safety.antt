-- ===== src/Rules/Evaluate/Safety.antt =====
-- NativeDNS.Core/src/rules.cpp: `evaluate_rule` leaves no container.
use native_dns.Prelude.{false, ◌≡◌, refl, Option, List, Text, Result, ok, err, fault, Safe, ℕ}
use native_dns.Model.{Config}
use native_dns.Network.Interfaces.{NetworkSnapshot}
use native_dns.Rules.Names.{normalize_dns_name}
use native_dns.Rules.Names.Canonical.{IsCanonical, normalize-IsCanonical}
use native_dns.Rules.Validate.{validate}
use native_dns.Rules.Evaluate.{evaluate_rule}
use native_dns.Rules.Evaluate.Decided.{evaluate_rule-Decided}

evaluate_normalized-Safe :
    (pton4 pton6 : Text → Option (List ℕ)) (config : Config) (hostname : Text)
    (network : NetworkSnapshot) (r : Result Text)
    → validate pton4 pton6 config ≡ ok tt
    → normalize_dns_name hostname false ≡ r
    → Safe (IsCanonical false false) r
    → Safe (λ _. Unit) (evaluate_rule config hostname network)
unfolding evaluate_rule
evaluate_normalized-Safe pton4 pton6 config hostname network (ok name) valid e safe =
    let (options, d, read, decided, which) =
      evaluate_rule-Decided pton4 pton6 config hostname name network valid e in
    rw decided tt
evaluate_normalized-Safe pton4 pton6 config hostname network (err code) valid e safe = rw e tt
evaluate_normalized-Safe pton4 pton6 config hostname network fault valid e safe = absurd safe

-- In a valid configuration every name has a decision or is refused.
pub evaluate_rule-Safe :
    (pton4 pton6 : Text → Option (List ℕ)) (config : Config) (hostname : Text)
    (network : NetworkSnapshot)
    → validate pton4 pton6 config ≡ ok tt
    → Safe (λ _. Unit) (evaluate_rule config hostname network)
unfolding normalize_dns_name
evaluate_rule-Safe pton4 pton6 config hostname network valid =
    evaluate_normalized-Safe pton4 pton6 config hostname network (normalize_dns_name hostname false)
      valid refl (normalize-IsCanonical hostname false false)
