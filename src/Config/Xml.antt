-- ===== src/Config/Xml.antt =====
-- NativeDNS.Core/src/config.cpp: entities, attribute values and their escapes. A position in the text is
-- the text behind it.
pub mod RoundTrip
pub mod Ends
use native_dns.Prelude.{
  ℕ, zero, suc, ◌+◌, ◌-◌, ◌*◌, ◌/◌, Bool, true, false, not, ◌&&◌, ◌||◌, Option, none, some, List,
  [], ◌∷◌, ◌++◌, ltb, leb, ◌==◌, if◌then◌else◌, between, is_empty, length, Text, codes, text_eq,
  Code, other, Result, ok, err, fault, ◌>>=◌, ◌>>◌, throw_if,
}
use native_dns.Rules.Unicode.{utf8_bytes, widen}
use native_dns.Network.Interfaces.{to_string}

abbrev pub xml : Code
xml = other (codes "XML")

-- The digit of a numeric entity, below the base.
unfoldable pub entity_digit : Bool → ℕ → Result ℕ
entity_digit hex c =
    if between b'0' b'9' c
    then ok (c - b'0')
    else (if hex && between b'a' b'f' c
        then ok (10 + (c - b'a'))
        else (if hex && between b'A' b'F' c then ok (10 + (c - b'A')) else err xml))

abbrev pub base_of : Bool → ℕ
base_of hex = if hex then 16 else 10

-- The loop over the digits.
unfoldable pub entity_value : Bool → ℕ → Text → Result ℕ
unfolding entity_digit
entity_value hex value [] = ok value
entity_value hex value (c ∷ text) = do
  digit ← entity_digit hex c
  throw_if (leb (base_of hex) digit || ltb ((1114111 - digit) / base_of hex) value) xml
  entity_value hex (value * base_of hex + digit) text

unfoldable pub numeric_entity : Bool → Text → Result Text
unfolding entity_value utf8_bytes
numeric_entity hex digits = do
  throw_if (is_empty digits) xml
  value ← entity_value hex 0 digits
  throw_if (value == 0 || ltb 1114111 value || between 55296 57343 value) xml
  ok (utf8_bytes value)

-- The branch `if (entity.size() > 1 && entity[0] == '#')`.
unfoldable pub number_entity : Text → Result Text
unfolding numeric_entity
number_entity (b ∷ c ∷ text) =
    if not (b == b'#')
    then err xml
    else (if c == b'x' || c == b'X'
        then numeric_entity true text
        else numeric_entity false (c ∷ text))
number_entity _ = err xml

unfoldable pub decode_entity : Text → Result Text
unfolding number_entity
decode_entity entity =
    if text_eq entity (codes "amp")
    then ok (b'&' ∷ [])
    else (if text_eq entity (codes "lt")
        then ok (b'<' ∷ [])
        else (if text_eq entity (codes "gt")
            then ok (b'>' ∷ [])
            else (if text_eq entity (codes "quot")
                then ok (34 ∷ [])
                else (if text_eq entity (codes "apos")
                    then ok (39 ∷ [])
                    else number_entity entity))))

unfoldable pub prepend : ℕ → Option (Text × Text) → Option (Text × Text)
prepend c none = none
prepend c (some (front, back)) = some (c ∷ front, back)

-- `text_.find(';')`: what stands before it, and behind.
unfoldable pub up_to_semicolon : Text → Option (Text × Text)
unfolding prepend
up_to_semicolon [] = none
up_to_semicolon (c ∷ text) =
    let later = prepend c (up_to_semicolon text) in if c == b';' then some ([], text) else later

unfoldable pub take_entity :
    (Text → Text → Result (Text × Text)) → Option (Text × Text) → Text → Result (Text × Text)
take_entity again none out = err xml
take_entity again (some (entity, text)) out = do
  decoded ← decode_entity entity
  again text (out ++ decoded)

unfoldable pub is_control : ℕ → Bool
is_control c = ltb c 32 && not (c == 9) && not (c == 13) && not (c == 10)

-- The loop of `quoted`, on fuel; the value and what follows the closing quote.
unfoldable pub quoted_loop : ℕ → ℕ → Text → Text → Result (Text × Text)
unfolding take_entity up_to_semicolon is_control
quoted_loop n quote [] out = err xml
quoted_loop zero quote (c ∷ text) out = fault
quoted_loop (suc n) quote (c ∷ text) out =
    let entity = take_entity (quoted_loop n quote) (up_to_semicolon text) out in
    let plain = throw_if (is_control c) xml >> quoted_loop n quote text (out ++ c ∷ []) in
    if c == quote then ok (out, text) else (if c == b'&' then entity else plain)

unfoldable pub quoted : Text → Result (Text × Text)
unfolding quoted_loop
quoted [] = err xml
quoted (c ∷ text) =
    let value = quoted_loop (length text) c text [] in if c == 34 || c == 39 then value else err xml

-- One round of the loop of `escape`.
unfoldable pub escape_byte : ℕ → Result Text
escape_byte c =
    if c == b'&'
    then ok (codes "&amp;")
    else (if c == b'<'
        then ok (codes "&lt;")
        else (if c == b'>'
            then ok (codes "&gt;")
            else (if c == 34
                then ok (codes "&quot;")
                else (if c == 10
                    then ok (codes "&#10;")
                    else (if c == 13
                        then ok (codes "&#13;")
                        else (if c == 9
                            then ok (codes "&#9;")
                            else (if ltb c 32 then err xml else ok (c ∷ []))))))))

unfoldable pub escape_loop : Text → Result Text
unfolding escape_byte
escape_loop [] = ok []
escape_loop (c ∷ text) = do piece ← escape_byte c; rest ← escape_loop text; ok (piece ++ rest)

-- `narrow_units` says whether a `wchar_t` has 16 bits.
unfoldable pub escape : Bool → Text → Result Text
unfolding escape_loop widen
escape narrow_units value = do _ ← widen narrow_units value; escape_loop value

unfoldable pub field : Bool → Text → Text → Result Text
unfolding escape
field narrow_units name value = do
  escaped ← escape narrow_units value
  ok (b' ' ∷ name ++ b'=' ∷ 34 ∷ escaped ++ 34 ∷ [])
