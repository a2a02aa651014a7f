-- ===== src/Config/Parser/Lengths.antt =====
-- NativeDNS.Core/src/config.cpp: `XmlParser` up to the attributes: what is left of the text is shorter.
use native_dns.Prelude.{
  ℕ, zero, suc, ◌+◌, ◌≤◌, ◌<◌, Bool, true, false, not, ◌||◌, ◌≡◌, refl, List, [], ◌∷◌, if_cases,
  is_empty, length, drop, Text, codes, lookup, put, Result, Safe, Safe-bind, Safe-throw_if,
  Safe-weaken, ◌>>=◌, arith,
}
use native_dns.Rules.Validate.{starts_with}
use native_dns.Config.Xml.Ends.{Within, Leaves, quoted-Leaves}
use native_dns.Config.Parser.{
  is_name_byte, skip_ws, skip_until, skip_misc, split_name, read_name, stands, is_taken,
  read_attribute, read_attributes,
}

pub length-drop_le : (n : ℕ) (text : Text) → length (drop n text) ≤ length text
length-drop_le zero text = omega arith
length-drop_le (suc n) [] = omega arith
length-drop_le (suc n) (c ∷ text) = omega (arith, length-drop_le n text)

length-drop_lt : (n : ℕ) (c : ℕ) (text : Text) → length (drop (suc n) (c ∷ text)) ≤ length text
length-drop_lt n c text = length-drop_le n text

-- Dropping a token that stands there.
pub drop-starts_with :
    (token : Text) (n : ℕ) (text : Text)
    → starts_with token text ≡ true
    → 1 ≤ length token
    → length (drop (suc n) text) < length text
unfolding starts_with
drop-starts_with [] n text h k = absurd (omega (arith, k))
drop-starts_with (d ∷ token) n [] h k = cc
drop-starts_with (d ∷ token) n (c ∷ text) h k = omega (arith, length-drop_lt n c text)

pub drop-stands :
    (d n : ℕ) (text : Text) → stands d text ≡ true → length (drop (suc n) text) < length text
unfolding stands
drop-stands d n [] h = cc
drop-stands d n (c ∷ text) h = omega (arith, length-drop_lt n c text)

pub skip_ws-length : (text : Text) → length (skip_ws text) ≤ length text
unfolding skip_ws
skip_ws-length [] = omega arith
skip_ws-length (c ∷ text) = ground (arith, skip_ws-length text)

-- What is left has at most `n` bytes.
abbrev pub UpTo : ℕ → Text → Type 0
UpTo n rest = length rest ≤ n

skip_until-UpTo : (token text : Text) → Safe (UpTo (length text)) (skip_until token text)
unfolding skip_until
skip_until-UpTo token [] = if_cases (Safe (UpTo 0)) (is_empty token) (λ _. omega arith) (λ _. tt)
skip_until-UpTo token (c ∷ text) =
    if_cases (Safe (UpTo (suc (length text)))) (starts_with token (c ∷ text))
      (λ _. length-drop_le (length token) (c ∷ text))
      (λ _.
        Safe-weaken (UpTo (length text)) (UpTo (suc (length text))) (skip_until token text)
          (λ r h. omega (arith, h)) (skip_until-UpTo token text))

-- Behind a section that is skipped.
pub section-Safe :
    {B : Type 0} (P : B → Type 0) (again : Text → Result B) (opening closing rest : Text) (k : ℕ)
    → starts_with opening rest ≡ true
    → 1 ≤ length opening
    → ((t : Text) → length t < length rest → Safe P (again t))
    → Safe P (skip_until closing (drop (suc k) rest) >>= again)
section-Safe P again opening closing rest k h filled step =
    Safe-bind (UpTo (length (drop (suc k) rest))) P (skip_until closing (drop (suc k) rest)) again
      (skip_until-UpTo closing (drop (suc k) rest))
      (λ t s. step t (omega (arith, s, drop-starts_with opening k rest h filled)))

pub skip_misc-UpTo :
    (n m : ℕ) (text : Text) → length text < n → length text ≤ m → Safe (UpTo m) (skip_misc n text)
unfolding skip_misc
skip_misc-UpTo zero m text h k = absurd (omega (arith, h))
skip_misc-UpTo (suc n) m text h k =
    let rest = skip_ws text in
    let shorter = skip_ws-length text in
    let again = λ (t : Text) (s : length t < length rest).
      skip_misc-UpTo n m t (omega (arith, s, shorter, h)) (omega (arith, s, shorter, k)) in
    if_cases (Safe (UpTo m)) (starts_with (codes "<?") rest)
      (λ p.
        section-Safe (UpTo m) (skip_misc n) (codes "<?") (codes "?>") rest 1 p (omega arith) again)
      (λ _.
        if_cases (Safe (UpTo m)) (starts_with (codes "<!--") rest)
          (λ p.
            section-Safe (UpTo m) (skip_misc n) (codes "<!--") (codes "-->") rest 3 p (omega arith)
              again)
          (λ _.
            if_cases (Safe (UpTo m))
              (starts_with (codes "<!DOCTYPE") rest || starts_with (codes "<!ENTITY") rest)
              (λ _. tt) (λ _. omega (arith, shorter, k))))

split_name-length :
    (text : Text) → length (split_name text).0 + length (split_name text).1 ≡ length text
unfolding split_name
split_name-length [] = refl
split_name-length (c ∷ text) =
    if_cases {A = Text × Text} (λ r. length r.0 + length r.1 ≡ suc (length text)) (is_name_byte c)
      (λ _. omega (arith, split_name-length text)) (λ _. omega arith)

filled-length : (text : Text) → is_empty text ≡ false → 1 ≤ length text
filled-length [] e = cc
filled-length (c ∷ text) e = omega arith

pub read_name-Leaves : (text : Text) → Leaves (length text) (read_name text)
unfolding read_name
read_name-Leaves text =
    if_cases (Leaves (length text)) (is_empty (split_name text).0) (λ _. tt)
      (λ h. omega (arith, split_name-length text, filled-length (split_name text).0 h))

-- What follows an attribute.
abbrev Attributed : ℕ → Text × Text × Text → Type 0
Attributed n (key, value, rest) = length rest < n

read_attribute-Safe : (text : Text) → Safe (Attributed (length text)) (read_attribute text)
unfolding read_attribute
read_attribute-Safe text =
    Safe-bind (Within (length text)) (Attributed (length text)) _ _ (read_name-Leaves text)
      λ (key, behind) s.
        let equals = skip_ws behind in
        Safe-throw_if (Attributed (length text)) (not (stands b'=' equals)) _ _ λ _.
          Safe-bind (Within (length (skip_ws (drop 1 equals)))) (Attributed (length text)) _ _
            (quoted-Leaves (skip_ws (drop 1 equals)))
            λ (value, rest) t. omega (
              arith,
              s,
              t,
              skip_ws-length behind,
              skip_ws-length (drop 1 equals),
              length-drop_le 1 equals,
            )

-- What follows the attributes.
abbrev pub Headed : ℕ → Bool × List (Text × Text) × Text → Type 0
Headed n (goes_on, attrs, rest) = length rest < n

pub read_attributes-Safe :
    (n m : ℕ) (attrs : List (Text × Text)) (text : Text)
    → length text < n
    → length text ≤ m
    → Safe (Headed m) (read_attributes n attrs text)
unfolding read_attributes
read_attributes-Safe zero m attrs text h k = absurd (omega (arith, h))
read_attributes-Safe (suc n) m attrs text h k =
    let at = skip_ws text in
    let shorter = skip_ws-length text in
    if_cases (Safe (Headed m)) (starts_with (codes "/>") at)
      (λ p. omega (arith, drop-starts_with (codes "/>") 1 at p (omega arith), shorter, k))
      (λ _.
        if_cases (Safe (Headed m)) (stands b'>' at)
          (λ p. omega (arith, drop-stands b'>' 0 at p, shorter, k))
          (λ _.
            Safe-bind (Attributed (length at)) (Headed m) _ _ (read_attribute-Safe at)
              λ (key, value, rest) s.
                Safe-throw_if (Headed m) (is_taken (lookup key attrs)) _ _ λ _.
                  read_attributes-Safe n m (put key value attrs) rest (omega (arith, s, shorter, h))
                    (omega (arith, s, shorter, k))))
