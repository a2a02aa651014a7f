-- ===== src/Examples/Texts.antt =====
-- The theorems on the configuration's XML at a value with an ampersand and a quote, and at an element.
use native_dns.Prelude.{false, ◌≡◌, refl, [], ◌∷◌, ◌++◌, Text, codes, ok, Safe}
use native_dns.Rules.Unicode.{widen, decode_utf8, decode_one, lead, continue_bytes, is_bad_point}
use native_dns.Config.Xml.{quoted, escape}
use native_dns.Config.Xml.RoundTrip.{escape-quoted}
use native_dns.Config.Parser.{parse}
use native_dns.Config.Parser.Ends.{parse-Safe}

abbrev value : Text
value = b'a' ∷ b'&' ∷ 34 ∷ []

abbrev written : Text
written = codes "a&amp;&quot;"

escaped_value : escape false value ≡ ok written
unfolding escape widen decode_utf8 decode_one lead continue_bytes is_bad_point
escaped_value = refl

escape-quoted_example : quoted (34 ∷ written ++ 34 ∷ b'>' ∷ []) ≡ ok (value, b'>' ∷ [])
escape-quoted_example = escape-quoted false value written (b'>' ∷ []) escaped_value

abbrev element : Text
element = codes "<?xml?><A x='1'><!-- y --><B/></A>"

parse-Safe_example : Safe (λ _. Unit) (parse element)
parse-Safe_example = parse-Safe element
