-- ===== src/Rules/Names.antt =====
-- NativeDNS.Core/src/rules.cpp: canonical DNS and host names. The loop over `value.find('.')` is a
-- walk over the pieces between the dots; every refusal throws the code HOST.
pub mod Canonical
pub mod Fixed
use native_dns.Prelude.{
  ℕ, ◌+◌, Bool, true, false, not, ◌&&◌, ◌||◌, Option, none, some, List, [], ◌∷◌, ◌++◌, ltb, leb,
  ◌==◌, if◌then◌else◌, between, length, is_empty, Text, host, Result, ok, ◌>>=◌, ◌>>◌, throw_if,
}

-- The four bytes of `" \t\r\n"`.
unfoldable pub is_space : ℕ → Bool
is_space c = c == b' ' || c == 9 || c == 13 || c == 10

-- From `find_first_not_of` on.
unfoldable pub trim_front : Text → Text
unfolding is_space
trim_front [] = []
trim_front (c ∷ t) = if is_space c then trim_front t else c ∷ t

-- One step of `find_last_not_of`, from the back.
unfoldable pub keep_byte : ℕ → Text → Text
unfolding is_space
keep_byte c [] = if is_space c then [] else c ∷ []
keep_byte c (d ∷ t) = c ∷ d ∷ t

unfoldable pub trim_back : Text → Text
unfolding keep_byte
trim_back [] = []
trim_back (c ∷ t) = keep_byte c (trim_back t)

-- `if (value.back() == '.') value.pop_back()`
unfoldable pub drop_last_dot : Text → Text
drop_last_dot [] = []
drop_last_dot (c ∷ []) = if c == b'.' then [] else c ∷ []
drop_last_dot (c ∷ d ∷ t) = c ∷ drop_last_dot (d ∷ t)

unfoldable pub push_front : ℕ → List Text → List Text
push_front c [] = (c ∷ []) ∷ []
push_front c (l ∷ ls) = (c ∷ l) ∷ ls

-- The pieces between the dots.
unfoldable pub split_dots : Text → List Text
unfolding push_front
split_dots [] = [] ∷ []
split_dots (c ∷ t) = let rest = split_dots t in if c == b'.' then [] ∷ rest else push_front c rest

unfoldable pub lower : ℕ → ℕ
lower c = if between b'A' b'Z' c then c + 32 else c

unfoldable pub is_ldh : ℕ → Bool
is_ldh c = between b'a' b'z' c || between b'0' b'9' c || c == b'-'

unfoldable pub is_wildcard : ℕ → Bool
is_wildcard c = c == b'*' || c == b'?'

-- The body of `for (char& character : label)`.
unfoldable pub normalize_byte : Bool → Bool → ℕ → Result ℕ
unfolding lower is_ldh is_wildcard
normalize_byte pattern hostname byte = do
  let c = lower byte
  throw_if (hostname && not (is_ldh c) && not (pattern && is_wildcard c)) host
  throw_if
      (not hostname && (leb byte 32 || leb 127 byte || c == b'.' || (not pattern && is_wildcard c)))
      host
  ok c

unfoldable pub normalize_bytes : Bool → Bool → Text → Result Text
unfolding normalize_byte
normalize_bytes pattern hostname [] = ok []
normalize_bytes pattern hostname (b ∷ l) = do
  c ← normalize_byte pattern hostname b
  cs ← normalize_bytes pattern hostname l
  ok (c ∷ cs)

-- `label.back() == '-'`
unfoldable pub ends_in_hyphen : Text → Bool
ends_in_hyphen [] = false
ends_in_hyphen (c ∷ []) = c == b'-'
ends_in_hyphen (c ∷ d ∷ t) = ends_in_hyphen (d ∷ t)

-- `label.front() == '-'`
unfoldable pub starts_with_hyphen : Text → Bool
starts_with_hyphen [] = false
starts_with_hyphen (c ∷ t) = c == b'-'

unfoldable pub normalize_label : Bool → Bool → Text → Result Text
unfolding normalize_bytes ends_in_hyphen starts_with_hyphen
normalize_label pattern hostname label = do
  throw_if (is_empty label) host
  throw_if (ltb 63 (length label)) host
  l ← normalize_bytes pattern hostname label
  throw_if (hostname && (starts_with_hyphen l || ends_in_hyphen l)) host
  ok l

-- `if (!result.empty()) result += '.'; result += label;`
unfoldable pub add_label : Text → Text → Text
add_label result label = if is_empty result then label else result ++ b'.' ∷ label

unfoldable pub normalize_labels : Bool → Bool → List Text → Text → Result Text
unfolding normalize_label add_label
normalize_labels pattern hostname [] result = ok result
normalize_labels pattern hostname (label ∷ labels) result = do
  l ← normalize_label pattern hostname label
  normalize_labels pattern hostname labels (add_label result l)

unfoldable pub normalize_ascii_name : Text → Bool → Bool → Result Text
unfolding trim_front trim_back drop_last_dot split_dots normalize_labels
normalize_ascii_name text pattern hostname = do
  let trimmed = trim_back (trim_front text)
  throw_if (is_empty trimmed) host
  let value = drop_last_dot trimmed
  throw_if (is_empty value) host
  result ← normalize_labels pattern hostname (split_dots value) []
  throw_if (ltb 253 (length result)) host
  ok result

unfoldable pub normalize_host : Text → Bool → Result Text
unfolding normalize_ascii_name
normalize_host text pattern = normalize_ascii_name text pattern true

unfoldable pub normalize_dns_name : Text → Bool → Result Text
unfolding normalize_ascii_name
normalize_dns_name text pattern = normalize_ascii_name text pattern false
