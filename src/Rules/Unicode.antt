-- ===== src/Rules/Unicode.antt =====
-- NativeDNS.Core/src/rules.cpp: `decode_utf8`, `append_utf8`, `widen` and `narrow`. The bit
-- operations are arithmetic: `(c & 0xE0) == 0xC0` is `c / 32 == 6`, `cp << 6 | b & 0x3F` is
-- `cp * 64 + b % 64`. Every refusal but the limit's throws the code UTF8.
pub mod RoundTrip
use native_dns.Prelude.{
  ℕ, zero, suc, ◌+◌, ◌-◌, ◌*◌, ◌/◌, ◌%◌, Bool, true, false, not, ◌&&◌, ◌||◌, List, [], ◌∷◌, ◌++◌,
  ltb, leb, ◌==◌, if◌then◌else◌, between, length, Text, utf8, input_limit, Result, ok, err, fault,
  ◌>>=◌, ◌>>◌, throw_if,
}

-- What a leading byte gives: its bits of the code point and the number of bytes behind it.
unfoldable pub lead : ℕ → Result (ℕ × ℕ)
lead c =
    if ltb c 128
    then ok (c, 0)
    else (if c / 32 == 6
        then (if ltb (c % 32) 2 then err utf8 else ok (c % 32, 1))
        else (if c / 16 == 14
            then ok (c % 16, 2)
            else (if c / 8 == 30 then ok (c % 8, 3) else err utf8)))

-- The loop over the continuation bytes.
unfoldable pub continue_bytes : ℕ → ℕ → Text → Result (ℕ × Text)
continue_bytes zero cp text = ok (cp, text)
continue_bytes (suc n) cp [] = fault
continue_bytes (suc n) cp (b ∷ text) = do
  throw_if (not (b / 64 == 2)) utf8
  continue_bytes n (cp * 64 + b % 64) text

unfoldable pub is_bad_point : ℕ → ℕ → Bool
is_bad_point extra cp =
    extra == 2 && ltb cp 2048
    || extra == 3 && ltb cp 65536
    || ltb 1114111 cp
    || between 55296 57343 cp

-- One round of the loop: the code point and what follows it.
unfoldable pub decode_one : ℕ → Text → Result (ℕ × Text)
decode_one c text = do
  (bits, extra) ← lead c
  throw_if (leb (length text + 1) extra) utf8
  (cp, rest) ← continue_bytes extra bits text
  throw_if (is_bad_point extra cp) utf8
  ok (cp, rest)

-- The loop, on fuel for the bytes.
unfoldable pub decode_loop : ℕ → Text → Result (List ℕ)
decode_loop n [] = ok []
decode_loop zero (c ∷ text) = fault
decode_loop (suc n) (c ∷ text) = do
  (cp, rest) ← decode_one c text
  points ← decode_loop n rest
  ok (cp ∷ points)

unfoldable pub decode_utf8 : Text → Result (List ℕ)
unfolding decode_loop
decode_utf8 text = decode_loop (length text) text

-- The bytes that `append_utf8` pushes.
unfoldable pub utf8_bytes : ℕ → Text
utf8_bytes cp =
    if leb cp 127
    then cp ∷ []
    else (if leb cp 2047
        then (192 + cp / 64) ∷ (128 + cp % 64) ∷ []
        else (if leb cp 65535
            then (224 + cp / 4096) ∷ (128 + cp / 64 % 64) ∷ (128 + cp % 64) ∷ []
            else (240 + cp / 262144 % 16)
              ∷ (128 + cp / 4096 % 64)
              ∷ (128 + cp / 64 % 64)
              ∷ (128 + cp % 64)
              ∷ []))

unfoldable pub append_utf8 : Text → ℕ → Text
unfolding utf8_bytes
append_utf8 out cp = out ++ utf8_bytes cp

abbrev pub text_limit : ℕ
text_limit = 4194304

-- The units of a code point, for a `wchar_t` of 16 bits or of 32.
unfoldable pub wide_units : Bool → ℕ → List ℕ
wide_units narrow_units cp =
    if narrow_units && ltb 65535 cp
    then (55296 + (cp - 65536) / 1024) ∷ (56320 + (cp - 65536) % 1024) ∷ []
    else cp ∷ []

unfoldable pub widen_points : Bool → List ℕ → List ℕ
unfolding wide_units
widen_points narrow_units [] = []
widen_points narrow_units (cp ∷ points) =
    wide_units narrow_units cp ++ widen_points narrow_units points

unfoldable pub widen : Bool → Text → Result (List ℕ)
unfolding widen_points
widen narrow_units text = do
  throw_if (ltb text_limit (length text)) input_limit
  points ← decode_utf8 text
  ok (widen_points narrow_units points)

-- The loop of `narrow` over 32 bit units.
unfoldable pub narrow_points : List ℕ → Text → Text
unfolding append_utf8
narrow_points [] out = out
narrow_points (cp ∷ points) out = narrow_points points (append_utf8 out cp)

-- The loop of `narrow` over 16 bit units, with its surrogates.
unfoldable pub narrow_pairs : List ℕ → Text → Result Text
unfolding append_utf8
narrow_pairs [] out = ok out
narrow_pairs (u ∷ []) out = do
  throw_if (between 55296 56319 u) utf8
  throw_if (between 56320 57343 u) utf8
  ok (append_utf8 out u)
narrow_pairs (u ∷ v ∷ units) out =
    let pair = narrow_pairs units (append_utf8 out (65536 + (u - 55296) * 1024 + (v - 56320))) in
    let single = narrow_pairs (v ∷ units) (append_utf8 out u) in
    if between 55296 56319 u
    then throw_if (ltb v 56320 || ltb 57343 v) utf8 >> pair
    else throw_if (between 56320 57343 u) utf8 >> single

unfoldable pub narrow : Bool → List ℕ → Result Text
unfolding narrow_points narrow_pairs
narrow narrow_units text = do
  throw_if (ltb text_limit (length text)) input_limit
  if narrow_units then narrow_pairs text [] else ok (narrow_points text [])
