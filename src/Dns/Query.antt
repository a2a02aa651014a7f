-- ===== src/Dns/Query.antt =====
-- NativeDNS.Core/src/dns_packet.cpp: `make_query` and `parse_question`.
pub mod Bounds
pub mod Laid
pub mod RoundTrip
use native_dns.Prelude.{
  ℕ, ◌+◌, ◌/◌, ◌%◌, Bool, true, false, not, ◌||◌, List, [], ◌∷◌, ◌++◌, ltb, ◌==◌, if◌then◌else◌,
  length, is_empty, Text, dns_malformed, dns_opcode, Result, ok, ◌>>=◌, ◌>>◌, throw_if,
}
use native_dns.Rules.Names.{split_dots, normalize_dns_name}
use native_dns.Dns.Wire.{Packet, word, append_word, name}

pub record Question : Type 0 where
  pub id : ℕ
  pub flags : ℕ
  pub type : ℕ
  pub klass : ℕ
  pub name : Text
  pub end : ℕ

-- The opcode bits, `flags & 0x7800`.
abbrev pub opcode : ℕ → ℕ
opcode flags = flags / 2048 % 16

unfoldable pub parse_question : Packet → Result Question
parse_question packet = do
  throw_if (ltb (length packet) 12 || ltb 65535 (length packet)) dns_malformed
  questions ← word packet 4
  throw_if (not (questions == 1)) dns_malformed
  id ← word packet 0
  flags ← word packet 2
  throw_if (not (opcode flags == 0)) dns_opcode
  (text, end) ← name packet 12
  type ← word packet end
  klass ← word packet (end + 2)
  ok (record { id = id; flags = flags; type = type; klass = klass; name = text; end = end + 4 })

-- The loop over `host.find('.', at)`; it stops before an empty piece at the end.
unfoldable pub encode_labels : List Text → Packet
encode_labels [] = []
encode_labels (l ∷ []) = if is_empty l then [] else length l % 256 ∷ l
encode_labels (l ∷ m ∷ ls) = (length l % 256 ∷ l) ++ encode_labels (m ∷ ls)

-- `id` is what `secure_random_u16` gave.
unfoldable pub make_query : ℕ → Text → ℕ → Result Packet
unfolding append_word encode_labels
make_query id hostname type = do
  host ← normalize_dns_name hostname false
  let start = append_word (append_word (append_word [] id) 256) 1
  let header = append_word (append_word (append_word start 0) 0) 0
  ok (append_word (append_word (header ++ (encode_labels (split_dots host) ++ 0 ∷ [])) type) 1)
