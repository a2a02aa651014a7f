-- ===== src/Config/Xml/RoundTrip.antt =====
-- NativeDNS.Core/src/config.cpp: an attribute that is written is read back.
use native_dns.Prelude.{
  ℕ, zero, suc, ◌≤◌, ◌<◌, Bool, true, false, ◌≡◌, refl, ap, subst, ◌∙◌, [], ◌∷◌, ◌++◌, append_assoc,
  append-nil, ltb, ◌==◌, if_cases, length, length-append, Text, codes, text_eq, ok, ok-injective,
  >>=-eq-ok, Safe, Safe-eq-ok, arith,
}
use native_dns.Rules.Unicode.{widen}
use native_dns.Config.Xml.{decode_entity, quoted_loop, quoted, escape_byte, escape_loop, escape}

-- Reading a piece takes one round, and gives the byte back.
Reads : ℕ → Text → Type 0
Reads c piece =
    (n : ℕ) (tail out : Text)
    → quoted_loop (suc n) 34 (piece ++ tail) out ≡ quoted_loop n 34 tail (out ++ c ∷ [])

amp-Reads : Reads 38 (codes "&amp;")
unfolding Reads quoted_loop decode_entity text_eq
amp-Reads n tail out = refl

lt-Reads : Reads 60 (codes "&lt;")
unfolding Reads quoted_loop decode_entity text_eq
lt-Reads n tail out = refl

gt-Reads : Reads 62 (codes "&gt;")
unfolding Reads quoted_loop decode_entity text_eq
gt-Reads n tail out = refl

quot-Reads : Reads 34 (codes "&quot;")
unfolding Reads quoted_loop decode_entity text_eq
quot-Reads n tail out = refl

feed-Reads : Reads 10 (codes "&#10;")
unfolding Reads quoted_loop decode_entity text_eq
feed-Reads n tail out = refl

return-Reads : Reads 13 (codes "&#13;")
unfolding Reads quoted_loop decode_entity text_eq
return-Reads n tail out = refl

tab-Reads : Reads 9 (codes "&#9;")
unfolding Reads quoted_loop decode_entity text_eq
tab-Reads n tail out = refl

plain-Reads : (c : ℕ) → c == 34 ≡ false → c == 38 ≡ false → ltb c 32 ≡ false → Reads c (c ∷ [])
unfolding Reads quoted_loop
plain-Reads c a b d n tail out = rw (a, b, d) refl

same-Reads : (c k : ℕ) (piece : Text) → Reads k piece → c == k ≡ true → Reads c piece
same-Reads c k piece reads h = subst (λ x. Reads x piece) (ground (arith, h)) reads

escape_byte-Reads : (c : ℕ) → Safe (Reads c) (escape_byte c)
unfolding escape_byte
escape_byte-Reads c = if_cases (Safe (Reads c)) (c == 38) (same-Reads c 38 _ amp-Reads) λ a.
    if_cases (Safe (Reads c)) (c == 60) (same-Reads c 60 _ lt-Reads) λ _.
      if_cases (Safe (Reads c)) (c == 62) (same-Reads c 62 _ gt-Reads) λ _.
        if_cases (Safe (Reads c)) (c == 34) (same-Reads c 34 _ quot-Reads) λ q.
          if_cases (Safe (Reads c)) (c == 10) (same-Reads c 10 _ feed-Reads) λ _.
            if_cases (Safe (Reads c)) (c == 13) (same-Reads c 13 _ return-Reads) λ _.
              if_cases (Safe (Reads c)) (c == 9) (same-Reads c 9 _ tab-Reads)
                λ _. if_cases (Safe (Reads c)) (ltb c 32) (λ _. tt) (plain-Reads c q a)

closing : (n : ℕ) (rest out : Text) → quoted_loop (suc n) 34 (34 ∷ rest) out ≡ ok (out, rest)
unfolding quoted_loop
closing n rest out = refl

read-step :
    (c n : ℕ) (piece front rest out value : Text)
    → Reads c piece
    → quoted_loop n 34 (front ++ 34 ∷ rest) (out ++ c ∷ []) ≡ ok ((out ++ c ∷ []) ++ value, rest)
    → quoted_loop (suc n) 34 ((piece ++ front) ++ 34 ∷ rest) out ≡ ok (out ++ c ∷ value, rest)
unfolding Reads
read-step c n piece front rest out value reads h = rw (append_assoc piece front (34 ∷ rest)) (
    reads n (front ++ 34 ∷ rest) out ∙ h ∙ ap (λ x. ok (x, rest)) (append_assoc out (c ∷ []) value))

-- A whole value, with its rounds.
escape_loop-quoted_loop :
    (value escaped rest out : Text) (n : ℕ)
    → escape_loop value ≡ ok escaped
    → length value < n
    → quoted_loop n 34 (escaped ++ 34 ∷ rest) out ≡ ok (out ++ value, rest)
unfolding escape_loop
escape_loop-quoted_loop [] escaped rest out zero e short = absurd (omega (arith, short))
escape_loop-quoted_loop [] escaped rest out (suc n) e short =
    subst (λ x. quoted_loop (suc n) 34 (x ++ 34 ∷ rest) out ≡ ok (out ++ [], rest)) (ok-injective e)
      (rw (append-nil out) (closing n rest out))
escape_loop-quoted_loop (c ∷ value) escaped rest out zero e short = absurd (omega (arith, short))
escape_loop-quoted_loop (c ∷ value) escaped rest out (suc n) e short =
    let (piece, made, e₁) = >>=-eq-ok (escape_byte c) _ e in
    let (front, loop, e₂) = >>=-eq-ok (escape_loop value) _ e₁ in
    subst (λ x. quoted_loop (suc n) 34 (x ++ 34 ∷ rest) out ≡ ok (out ++ c ∷ value, rest))
      (ok-injective e₂)
      (read-step c n piece front rest out value
        (Safe-eq-ok (Reads c) (escape_byte c) (escape_byte-Reads c) made)
        (escape_loop-quoted_loop value front rest (out ++ c ∷ []) n loop (omega (arith, short))))

-- What is written is no shorter than the value.
escape_byte-length : (c : ℕ) → Safe (λ piece. 1 ≤ length piece) (escape_byte c)
unfolding escape_byte
escape_byte-length c = ground arith

escape_loop-length :
    (value escaped : Text) → escape_loop value ≡ ok escaped → length value ≤ length escaped
unfolding escape_loop
escape_loop-length [] escaped e = omega arith
escape_loop-length (c ∷ value) escaped e =
    let (piece, made, e₁) = >>=-eq-ok (escape_byte c) _ e in
    let (front, loop, e₂) = >>=-eq-ok (escape_loop value) _ e₁ in
    let filled =
      Safe-eq-ok (λ piece. 1 ≤ length piece) (escape_byte c) (escape_byte-length c) made in
    subst (λ x. suc (length value) ≤ length x) (ok-injective e₂)
      (omega (arith, length-append piece front, filled, escape_loop-length value front loop))

-- A value that can be written as an attribute is read back as it was, up to its closing quote and
-- whatever follows.
pub escape-quoted :
    (narrow_units : Bool) (value escaped rest : Text)
    → escape narrow_units value ≡ ok escaped
    → quoted (34 ∷ escaped ++ 34 ∷ rest) ≡ ok (value, rest)
unfolding escape quoted
escape-quoted narrow_units value escaped rest e =
    let (points, wide, loop) = >>=-eq-ok (widen narrow_units value) _ e in
    escape_loop-quoted_loop value escaped rest [] (length (escaped ++ 34 ∷ rest)) loop
      (omega (arith, escape_loop-length value escaped loop, length-append escaped (34 ∷ rest)))
