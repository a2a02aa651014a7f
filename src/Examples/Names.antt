-- ===== src/Examples/Names.antt =====
-- The theorems on names and patterns at concrete texts.
use native_dns.Prelude.{◌∷◌, []}
use native_dns.Prelude.{true, false, ◌≡◌, refl, ◌↔◌, codes, ok, Safe}
use native_dns.Prelude.{inl, inr, arith, All}
use native_dns.Model.{Rule, default_rule_value}
use native_dns.Rules.Validate.{has_id, same_bool, check_patterns, is_process, check_rule}
use native_dns.Rules.Patterns.{is_filled, split_patterns}
use native_dns.Rules.Patterns.Canonical.{split_patterns-check_rule}
use native_dns.Rules.Unicode.{decode_utf8, narrow_points}
use native_dns.Rules.Unicode.RoundTrip.{decode_utf8-narrow_points}
use native_dns.Rules.Names.{normalize_dns_name, normalize_ascii_name}
use native_dns.Rules.Names.Canonical.{IsCanonical, normalize-IsCanonical}
use native_dns.Rules.Names.Fixed.{normalize_idem}
use native_dns.Rules.Match.{host_matches}
use native_dns.Rules.Match.Correct.{Matches, host_matches_iff}

normalized : normalize_ascii_name (codes " Www.Example. ") false true ≡ ok (codes "www.example")
unfolding normalize_ascii_name
normalized = refl

normalize_idem_example :
    normalize_ascii_name (codes "www.example") false true ≡ ok (codes "www.example")
normalize_idem_example =
    normalize_idem (codes " Www.Example. ") (codes "www.example") false true normalized

normalize-IsCanonical_example :
    Safe (IsCanonical true false) (normalize_ascii_name (codes "*.Example") true false)
normalize-IsCanonical_example = normalize-IsCanonical (codes "*.Example") true false

host_matches_iff_example :
    ((host_matches (codes "a.b") (codes "*b") ≡ ok true) ↔ Matches (codes "a.b") (codes "*b"))
    × ((host_matches (codes "a.b") (codes "*b") ≡ ok false)
        ↔ (¬ Matches (codes "a.b") (codes "*b")))
host_matches_iff_example =
    host_matches_iff (codes "a.b") (codes "*b") (λ e. cc, (λ e. cc, (λ e. cc, tt)))

decode_utf8-narrow_points_example :
    decode_utf8 (narrow_points (233 ∷ 8364 ∷ 128512 ∷ []) []) ≡ ok (233 ∷ 8364 ∷ 128512 ∷ [])
decode_utf8-narrow_points_example = decode_utf8-narrow_points (233 ∷ 8364 ∷ 128512 ∷ []) (
  (omega arith, inl (omega arith)),
  ((omega arith, inl (omega arith)), ((omega arith, inr (omega arith)), tt)),
)

abbrev ads_rule : Rule
ads_rule = record default_rule_value {
  id = 2;
  is_default = false;
  name = codes "Ads";
  patterns = codes "*" ∷ [];
}

ads_rule_checked : check_rule [] false ads_rule [] ≡ ok tt
unfolding check_rule has_id same_bool check_patterns normalize_dns_name is_process
ads_rule_checked = refl

ads_split : split_patterns (codes "*.ads; ;A.b") ≡ ok (codes "*.ads" ∷ codes "a.b" ∷ [])
unfolding split_patterns is_filled normalize_dns_name
ads_split = refl

split_patterns-check_rule_example :
    All (λ p. normalize_dns_name p true ≡ ok p) (codes "*.ads" ∷ codes "a.b" ∷ [])
    × (check_rule [] false (record ads_rule { patterns = codes "*.ads" ∷ codes "a.b" ∷ [] }) []
        ≡ ok tt)
split_patterns-check_rule_example =
    split_patterns-check_rule (codes "*.ads; ;A.b") (codes "*.ads" ∷ codes "a.b" ∷ []) [] [] false
      ads_rule ads_split ads_rule_checked refl refl (omega arith)
