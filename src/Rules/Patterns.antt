-- ===== src/Rules/Patterns.antt =====
-- NativeDNS.Core/src/rules.cpp: `split_patterns`. The loop over `find_first_of(";\r\n")` is a walk
-- over the pieces between these bytes; an empty piece is blank, and blank pieces are skipped.
pub mod Canonical
use native_dns.Prelude.{
  ℕ, Bool, true, false, not, ◌&&◌, ◌||◌, List, [], ◌∷◌, ◌==◌, if◌then◌else◌, any, Text, Result, ok,
  ◌>>=◌,
}
use native_dns.Rules.Names.{push_front, normalize_dns_name}

unfoldable pub is_separator : ℕ → Bool
is_separator c = c == b';' || c == 13 || c == 10

unfoldable pub pieces : Text → List Text
unfolding is_separator push_front
pieces [] = [] ∷ []
pieces (c ∷ text) =
    let rest = pieces text in if is_separator c then [] ∷ rest else push_front c rest

-- `value.find_first_not_of(" \t") != std::string::npos`
unfoldable pub is_filled : Text → Bool
is_filled value = any (λ c. not (c == b' ') && not (c == 9)) value

unfoldable pub normalize_pieces : List Text → Result (List Text)
normalize_pieces [] = ok []
normalize_pieces (value ∷ values) =
    let rest = normalize_pieces values in
    if is_filled value
    then normalize_dns_name value true >>= (λ p. rest >>= λ ps. ok (p ∷ ps))
    else rest

unfoldable pub split_patterns : Text → Result (List Text)
unfolding pieces normalize_pieces
split_patterns text = normalize_pieces (pieces text)
