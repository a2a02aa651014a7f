-- ===== src/Rules/Unicode/RoundTrip.antt =====
-- NativeDNS.Core/src/rules.cpp: what `append_utf8` writes, `decode_utf8` reads.
use native_dns.Prelude.{
  ℕ, zero, suc, ◌+◌, ◌*◌, ◌/◌, ◌%◌, ◌≤◌, ◌<◌, false, not, ◌≡◌, refl, sym, ap, subst, ◌∙◌, ◌⊎◌, List,
  [], ◌∷◌, ◌++◌, append_assoc, append-nil, leb, ◌==◌, ==_iff, ge→ltb, if_cases, length,
  length-append, All, Text, ok, arith,
}
use native_dns.Rules.Unicode.{
  lead, continue_bytes, is_bad_point, decode_one, decode_loop, decode_utf8, utf8_bytes, append_utf8,
  narrow_points,
}

-- A Unicode scalar value.
abbrev pub IsScalar : ℕ → Type 0
IsScalar cp = (cp ≤ 1114111) × ((cp < 55296) ⊎ (57343 < cp))

-- The bytes are read as the code point, whatever follows them.
Reads : ℕ → Text → Text → Type 0
Reads cp rest bytes =
    (c : ℕ) × (tail : Text) × (bytes ≡ c ∷ tail) × (decode_one c (tail ++ rest) ≡ ok (cp, rest))

lead-one : (c : ℕ) → c ≤ 127 → lead c ≡ ok (c, 0)
unfolding lead
lead-one c h = ground arith

lead-two : (x : ℕ) → 2 ≤ x → x < 32 → lead (192 + x) ≡ ok (x, 1)
unfolding lead
lead-two x low high =
    let same : (192 + x) % 32 ≡ x = omega arith in
    rw (
      ge→ltb (192 + x) 128 (omega arith),
      (==_iff ((192 + x) / 32) 6).1 (omega arith),
      same,
      ge→ltb x 2 low,
    )

lead-three : (x : ℕ) → x < 16 → lead (224 + x) ≡ ok (x, 2)
unfolding lead
lead-three x high =
    let same : (224 + x) % 16 ≡ x = omega arith in
    let other : ((224 + x) / 32 == 6) ≡ false = ground arith in
    rw (
      ge→ltb (224 + x) 128 (omega arith),
      other,
      (==_iff ((224 + x) / 16) 14).1 (omega arith),
      same,
    )

lead-four : (x : ℕ) → x < 8 → lead (240 + x) ≡ ok (x, 3)
unfolding lead
lead-four x high =
    let same : (240 + x) % 8 ≡ x = omega arith in
    let other : ((240 + x) / 32 == 6) ≡ false = ground arith in
    let third : ((240 + x) / 16 == 14) ≡ false = ground arith in
    rw (
      ge→ltb (240 + x) 128 (omega arith),
      other,
      third,
      (==_iff ((240 + x) / 8) 30).1 (omega arith),
      same,
    )

continue_one :
    (n cp x : ℕ) (text : Text)
    → x < 64
    → continue_bytes (suc n) cp ((128 + x) ∷ text) ≡ continue_bytes n (cp * 64 + x) text
unfolding continue_bytes
continue_one n cp x text h =
    let same : (128 + x) % 64 ≡ x = omega arith in
    let good : not ((128 + x) / 64 == 2) ≡ false = ground arith in rw (good, same)

continue_none : (cp : ℕ) (text : Text) → continue_bytes 0 cp text ≡ ok (cp, text)
unfolding continue_bytes
continue_none cp text = refl

good-point :
    (extra cp : ℕ)
    → IsScalar cp
    → (extra ≡ 2 → 2048 ≤ cp)
    → (extra ≡ 3 → 65536 ≤ cp)
    → is_bad_point extra cp ≡ false
unfolding is_bad_point
good-point extra cp s two three = ground (arith, s)

module _ (cp : ℕ) (rest : Text) (s : IsScalar cp) where
  reads_one : cp ≤ 127 → decode_one cp rest ≡ ok (cp, rest)
  unfolding decode_one
  reads_one h =
      let long : leb (length rest + 1) 0 ≡ false = ground arith in
      rw (
        lead-one cp h,
        long,
        continue_none cp rest,
        good-point 0 cp s (λ e. absurd (omega (arith, e))) (λ e. absurd (omega (arith, e))),
      )

  reads_two :
      128 ≤ cp → cp ≤ 2047 → decode_one (192 + cp / 64) ((128 + cp % 64) ∷ rest) ≡ ok (cp, rest)
  unfolding decode_one
  reads_two low high =
      let long : leb (length ((128 + cp % 64) ∷ rest) + 1) 1 ≡ false = ground arith in
      let joined : cp / 64 * 64 + cp % 64 ≡ cp = omega arith in
      rw (
        lead-two (cp / 64) (omega arith) (omega arith),
        long,
        continue_one 0 (cp / 64) (cp % 64) rest (omega arith),
        joined,
        continue_none cp rest,
        good-point 1 cp s (λ e. absurd (omega (arith, e))) (λ e. absurd (omega (arith, e))),
      )

  reads_three :
      2048 ≤ cp
      → cp ≤ 65535
      → decode_one (224 + cp / 4096) ((128 + cp / 64 % 64) ∷ (128 + cp % 64) ∷ rest) ≡ ok (cp, rest)
  unfolding decode_one
  reads_three low high =
      let tail = (128 + cp % 64) ∷ rest in
      let long : leb (length ((128 + cp / 64 % 64) ∷ tail) + 1) 2 ≡ false = ground arith in
      let joined : (cp / 4096 * 64 + cp / 64 % 64) * 64 + cp % 64 ≡ cp = omega arith in
      rw (
        lead-three (cp / 4096) (omega arith),
        long,
        continue_one 1 (cp / 4096) (cp / 64 % 64) tail (omega arith),
        continue_one 0 (cp / 4096 * 64 + cp / 64 % 64) (cp % 64) rest (omega arith),
        joined,
        continue_none cp rest,
        good-point 2 cp s (λ _. low) (λ e. absurd (omega (arith, e))),
      )

  reads_four :
      65536 ≤ cp
      → decode_one
          (240 + cp / 262144 % 16)
          ((128 + cp / 4096 % 64) ∷ (128 + cp / 64 % 64) ∷ (128 + cp % 64) ∷ rest)
        ≡ ok (cp, rest)
  unfolding decode_one
  reads_four low =
      let x = cp / 262144 % 16 in
      let last = (128 + cp % 64) ∷ rest in
      let tail = (128 + cp / 64 % 64) ∷ last in
      let long : leb (length ((128 + cp / 4096 % 64) ∷ tail) + 1) 3 ≡ false = ground arith in
      let small : x ≡ cp / 262144 = omega (arith, s.0) in
      let joined : ((x * 64 + cp / 4096 % 64) * 64 + cp / 64 % 64) * 64 + cp % 64 ≡ cp =
        omega (arith, small) in
      rw (
        lead-four x (omega (arith, small, s.0)),
        long,
        continue_one 2 x (cp / 4096 % 64) tail (omega arith),
        continue_one 1 (x * 64 + cp / 4096 % 64) (cp / 64 % 64) last (omega arith),
        continue_one 0 ((x * 64 + cp / 4096 % 64) * 64 + cp / 64 % 64) (cp % 64) rest (omega arith),
        joined,
        continue_none cp rest,
        good-point 3 cp s (λ e. absurd (omega (arith, e))) (λ _. low),
      )

  utf8_bytes-Reads : Reads cp rest (utf8_bytes cp)
  unfolding utf8_bytes Reads
  utf8_bytes-Reads =
      if_cases (Reads cp rest) (leb cp 127) (λ e. (_, _, refl, reads_one (ground arith)))
        λ e₁.
          if_cases (Reads cp rest) (leb cp 2047)
            (λ e. (_, _, refl, reads_two (ground arith) (ground arith)))
            λ e₂.
              if_cases (Reads cp rest) (leb cp 65535)
                (λ e. (_, _, refl, reads_three (ground arith) (ground arith)))
                (λ e. (_, _, refl, reads_four (ground arith)))

-- The text of a list of code points, as `narrow` builds it from 32 bit units.
narrow_points-append :
    (points : List ℕ) (out : Text) → narrow_points points out ≡ out ++ narrow_points points []
unfolding narrow_points append_utf8
narrow_points-append [] out = sym (append-nil out)
narrow_points-append (cp ∷ points) out =
    narrow_points-append points (out ++ utf8_bytes cp)
    ∙ append_assoc out (utf8_bytes cp) (narrow_points points [])
    ∙ ap (◌++◌ out) (sym (narrow_points-append points (utf8_bytes cp)))

whole :
    (cp : ℕ) (points : List ℕ) (c : ℕ) (tail : Text)
    → utf8_bytes cp ≡ c ∷ tail
    → narrow_points points (utf8_bytes cp) ≡ c ∷ (tail ++ narrow_points points [])
whole cp points c tail e =
    narrow_points-append points (utf8_bytes cp) ∙ ap (λ t. t ++ narrow_points points []) e

decode_loop-cons :
    (m c cp : ℕ) (tail rest : Text) (points : List ℕ)
    → decode_one c (tail ++ rest) ≡ ok (cp, rest)
    → decode_loop m rest ≡ ok points
    → decode_loop (suc m) (c ∷ (tail ++ rest)) ≡ ok (cp ∷ points)
unfolding decode_loop
decode_loop-cons m c cp tail rest points d r = rw (d, r)

decode_loop-narrow_points :
    (points : List ℕ) (n : ℕ)
    → All IsScalar points
    → length (narrow_points points []) ≤ n
    → decode_loop n (narrow_points points []) ≡ ok points
unfolding narrow_points append_utf8 decode_loop Reads
decode_loop-narrow_points [] zero s h = refl
decode_loop-narrow_points [] (suc n) s h = refl
decode_loop-narrow_points (cp ∷ points) zero s h =
    let (c, tail, e, d) = utf8_bytes-Reads cp (narrow_points points []) s.0 in
    let sized = subst (λ t. length t ≤ 0) (whole cp points c tail e) h in
    absurd (omega (arith, sized))
decode_loop-narrow_points (cp ∷ points) (suc m) s h =
    let rest = narrow_points points [] in
    let (c, tail, e, d) = utf8_bytes-Reads cp rest s.0 in
    let sized = subst (λ t. length t ≤ suc m) (whole cp points c tail e) h in
    let shorter : length rest ≤ m = omega (arith, sized, length-append tail rest) in
    subst (λ t. decode_loop (suc m) t ≡ ok (cp ∷ points)) (sym (whole cp points c tail e))
      (decode_loop-cons m c cp tail rest points d (decode_loop-narrow_points points m s.1 shorter))

-- Every list of Unicode scalar values is written as a text that decodes to the list.
pub decode_utf8-narrow_points :
    (points : List ℕ) → All IsScalar points → decode_utf8 (narrow_points points []) ≡ ok points
unfolding decode_utf8
decode_utf8-narrow_points points s =
    decode_loop-narrow_points points (length (narrow_points points [])) s (omega arith)
