-- ===== src/Config/Xml/Ends.antt =====
-- NativeDNS.Core/src/config.cpp: reading an attribute's value ends behind its quote.
use native_dns.Prelude.{
  ℕ, zero, suc, ◌+◌, ◌-◌, ◌*◌, ◌/◌, ◌≤◌, ◌<◌, Bool, true, false, not, ◌&&◌, ◌||◌, Option, none,
  some, [], ◌∷◌, ◌++◌, ltb, leb, ◌==◌, if_cases, between, is_empty, length, Text, codes, text_eq,
  Result, Safe, Safe-bind, Safe-throw_if, Safe-weaken, arith,
}
use native_dns.Config.Xml.{
  entity_digit, base_of, entity_value, numeric_entity, number_entity, decode_entity, prepend,
  up_to_semicolon, take_entity, is_control, quoted_loop, quoted,
}

entity_digit-Safe : (hex : Bool) (c : ℕ) → Safe (λ _. Unit) (entity_digit hex c)
unfolding entity_digit
entity_digit-Safe hex c =
    if_cases (Safe (λ _. Unit)) (between b'0' b'9' c) (λ _. tt)
      λ _.
        if_cases (Safe (λ _. Unit)) (hex && between b'a' b'f' c) (λ _. tt)
          λ _. if_cases (Safe (λ _. Unit)) (hex && between b'A' b'F' c) (λ _. tt) (λ _. tt)

entity_value-Safe :
    (hex : Bool) (value : ℕ) (text : Text) → Safe (λ _. Unit) (entity_value hex value text)
unfolding entity_value
entity_value-Safe hex value [] = tt
entity_value-Safe hex value (c ∷ text) =
    Safe-bind (λ _. Unit) (λ _. Unit) _ _ (entity_digit-Safe hex c)
      λ digit _.
        Safe-throw_if (λ _. Unit)
          (leb (base_of hex) digit || ltb ((1114111 - digit) / base_of hex) value) _ _
          λ _. entity_value-Safe hex (value * base_of hex + digit) text

numeric_entity-Safe : (hex : Bool) (digits : Text) → Safe (λ _. Unit) (numeric_entity hex digits)
unfolding numeric_entity
numeric_entity-Safe hex digits =
    Safe-throw_if (λ _. Unit) (is_empty digits) _ _
      λ _.
        Safe-bind (λ _. Unit) (λ _. Unit) _ _ (entity_value-Safe hex 0 digits)
          λ value _.
            Safe-throw_if (λ _. Unit) (value == 0 || ltb 1114111 value || between 55296 57343 value)
              _ _ λ _. tt

number_entity-Safe : (entity : Text) → Safe (λ _. Unit) (number_entity entity)
unfolding number_entity
number_entity-Safe [] = tt
number_entity-Safe (b ∷ []) = tt
number_entity-Safe (b ∷ c ∷ text) =
    if_cases (Safe (λ _. Unit)) (not (b == b'#')) (λ _. tt)
      λ _.
        if_cases (Safe (λ _. Unit)) (c == b'x' || c == b'X') (λ _. numeric_entity-Safe true text)
          (λ _. numeric_entity-Safe false (c ∷ text))

decode_entity-Safe : (entity : Text) → Safe (λ _. Unit) (decode_entity entity)
unfolding decode_entity
decode_entity-Safe entity =
    if_cases (Safe (λ _. Unit)) (text_eq entity (codes "amp")) (λ _. tt)
      λ _.
        if_cases (Safe (λ _. Unit)) (text_eq entity (codes "lt")) (λ _. tt)
          λ _.
            if_cases (Safe (λ _. Unit)) (text_eq entity (codes "gt")) (λ _. tt)
              λ _.
                if_cases (Safe (λ _. Unit)) (text_eq entity (codes "quot")) (λ _. tt)
                  λ _.
                    if_cases (Safe (λ _. Unit)) (text_eq entity (codes "apos")) (λ _. tt)
                      λ _. number_entity-Safe entity

-- What follows the semicolon is shorter.
Behind : ℕ → Option (Text × Text) → Type 0
Behind n none = Unit
Behind n (some (front, back)) = length back < n

prepend-Behind : (n c : ℕ) (o : Option (Text × Text)) → Behind n o → Behind (suc n) (prepend c o)
unfolding Behind prepend
prepend-Behind n c none h = tt
prepend-Behind n c (some (front, back)) h = omega (arith, h)

up_to_semicolon-Behind : (text : Text) → Behind (length text) (up_to_semicolon text)
unfolding Behind up_to_semicolon
up_to_semicolon-Behind [] = tt
up_to_semicolon-Behind (c ∷ text) =
    if_cases (Behind (suc (length text))) (c == b';') (λ _. omega arith)
      (λ _. prepend-Behind (length text) c (up_to_semicolon text) (up_to_semicolon-Behind text))

-- What follows is shorter than `n`.
abbrev pub Within : ℕ → Text × Text → Type 0
Within n (value, rest) = length rest < n

abbrev pub Leaves : ℕ → Result (Text × Text) → Type 0
Leaves n r = Safe (Within n) r

take_entity-Leaves :
    (again : Text → Text → Result (Text × Text)) (n : ℕ) (o : Option (Text × Text)) (out : Text)
    → Behind n o
    → ((text out : Text) → length text < n → Leaves n (again text out))
    → Leaves n (take_entity again o out)
unfolding take_entity Behind
take_entity-Leaves again n none out h k = tt
take_entity-Leaves again n (some (entity, text)) out h k =
    Safe-bind (λ _. Unit) (Within n) _ _ (decode_entity-Safe entity)
      λ decoded _. k text (out ++ decoded) h

quoted_loop-Leaves :
    (n m quote : ℕ) (text out : Text)
    → length text ≤ n
    → length text < m
    → Leaves m (quoted_loop n quote text out)
unfolding quoted_loop
quoted_loop-Leaves n m quote [] out h k = tt
quoted_loop-Leaves zero m quote (c ∷ text) out h k = absurd (omega (arith, h))
quoted_loop-Leaves (suc n) m quote (c ∷ text) out h k =
    if_cases (Leaves m) (c == quote) (λ _. omega (arith, k))
      λ _.
        if_cases (Leaves m) (c == b'&')
          (λ _.
            Safe-weaken (Within (length text)) (Within m) _ (λ r s. omega (arith, s, k))
              (take_entity-Leaves (quoted_loop n quote) (length text) (up_to_semicolon text) out
                (up_to_semicolon-Behind text)
                (λ t o s. quoted_loop-Leaves n (length text) quote t o (omega (arith, h, s)) s)))
          (λ _. Safe-throw_if (Within m) (is_control c) _ _ λ _.
            quoted_loop-Leaves n m quote text (out ++ c ∷ []) (omega (arith, h)) (omega (arith, k)))

pub quoted-Leaves : (text : Text) → Leaves (length text) (quoted text)
unfolding quoted
quoted-Leaves [] = tt
quoted-Leaves (c ∷ text) =
    if_cases (Leaves (suc (length text))) (c == 34 || c == 39)
      (λ _.
        quoted_loop-Leaves (length text) (suc (length text)) c text [] (omega arith) (omega arith))
      (λ _. tt)
