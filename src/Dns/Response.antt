-- ===== src/Dns/Response.antt =====
-- NativeDNS.Core/src/dns_packet.cpp: the responses that the program makes up itself, and the
-- truncation of a response that does not fit the client's UDP payload.
pub mod Bounds
pub mod Echo
pub mod Fit
pub mod Payload
use native_dns.Prelude.{
  ℕ, zero, suc, ◌+◌, ◌-◌, ◌*◌, ◌/◌, ◌%◌, min, max, Bool, true, false, not, ◌&&◌, ◌||◌, List, [],
  ◌∷◌, ◌++◌, ltb, leb, ◌==◌, if◌then◌else◌, has_bit, length, take, replicate, is_empty, Text,
  text_eq, dns_malformed, dns_mismatch, config_invalid, Result, ok, err, ◌>>=◌, ◌>>◌, throw_if,
}
use native_dns.Model.{BlockMode, zero_address, nxdomain, refused, silent_drop}
use native_dns.Dns.Wire.{Packet, byte_at, put_byte, word, name}
use native_dns.Dns.Query.{Question, parse_question}

pub record EdnsRequest : Type 0 where
  pub present : Bool
  pub do_bit : Bool
  pub payload : ℕ

abbrev pub no_edns : EdnsRequest
no_edns = record { present = false; do_bit = false; payload = 512 }

-- The branch `if (type == 41)`; `late` is `index >= answers + authority`.
unfoldable pub read_opt : Packet → EdnsRequest → ℕ → ℕ → Text → Bool → Result EdnsRequest
read_opt request edns at klass owner late = do
  throw_if (edns.present || not (is_empty owner) || not late) dns_malformed
  flags ← byte_at request (at + 6)
  ok (record { present = true; do_bit = has_bit flags 128; payload = min (max klass 512) 1232 })

-- One round of the loop over the records, from `at` to the next record.
unfoldable pub edns_record : Packet → Bool → EdnsRequest → ℕ → Result (EdnsRequest × ℕ)
unfolding read_opt
edns_record request late edns offset = do
  (owner, at) ← name request offset
  type ← word request at
  klass ← word request (at + 2)
  size ← word request (at + 8)
  throw_if (ltb (length request - at) 10 || ltb (length request - (at + 10)) size) dns_malformed
  next ← if type == 41 then read_opt request edns at klass owner late else ok edns
  ok (next, at + 10 + size)

-- The loop; the first argument counts the records that are left.
unfoldable pub edns_records : ℕ → Packet → ℕ → ℕ → EdnsRequest → ℕ → Result (EdnsRequest × ℕ)
unfolding edns_record
edns_records zero request early index edns at = ok (edns, at)
edns_records (suc n) request early index edns at = do
  (next, behind) ← edns_record request (leb early index) edns at
  edns_records n request early (index + 1) next behind

unfoldable pub edns_request : Packet → Question → Result EdnsRequest
unfolding edns_records
edns_request request question = do
  answers ← word request 6
  authority ← word request 8
  additional ← word request 10
  throw_if (ltb 4096 (answers + authority + additional)) dns_malformed
  (edns, at) ←
      edns_records (answers + authority + additional) request (answers + authority) 0 no_edns
        question.end
  throw_if (not (at == length request)) dns_malformed
  ok edns

-- `for (size_t index = 6; index < 12; ++index) response[index] = 0`
unfoldable pub zero_bytes : ℕ → Packet → ℕ → Result Packet
zero_bytes zero p index = ok p
zero_bytes (suc n) p index = do next ← put_byte p index 0; zero_bytes n next (index + 1)

-- The header of a made up response: the flags, one question and no records.
unfoldable pub reply_header : Packet → ℕ → Result Packet
unfolding zero_bytes put_byte
reply_header p flags = do
  p₁ ← put_byte p 2 (flags / 256)
  p₂ ← put_byte p₁ 3 flags
  p₃ ← put_byte p₂ 4 0
  p₄ ← put_byte p₃ 5 1
  zero_bytes 6 p₄ 6

-- `0x8080 | (flags & 0x0110) | rcode`, for `rcode` below 16
unfoldable pub reply_flags : ℕ → ℕ → ℕ
reply_flags flags rcode = 32896 + flags / 256 % 2 * 256 + flags / 16 % 2 * 16 + rcode

-- `if (zero && question.klass == 1 && ...)`
unfoldable pub is_zeroed : Bool → Question → Bool
is_zeroed zeroed q = zeroed && q.klass == 1 && (q.type == 1 || q.type == 28)

abbrev pub address_size : ℕ → ℕ
address_size type = if type == 1 then 4 else 16

abbrev pub zero_record : ℕ → Packet
zero_record type = 192 ∷ 12 ∷ 0 ∷ type % 256 ∷ 0 ∷ 1 ∷ 0 ∷ 0 ∷ 0 ∷ 0 ∷ 0 ∷ address_size type ∷ []

unfoldable pub add_zero_address : Packet → Question → Result Packet
add_zero_address response q = do
  counted ← put_byte response 7 1
  ok ((counted ++ zero_record q.type) ++ replicate (address_size q.type) 0)

abbrev pub opt_record : EdnsRequest → Packet
opt_record edns =
    0
    ∷ 0
    ∷ 41
    ∷ edns.payload / 256 % 256
    ∷ edns.payload % 256
    ∷ 0
    ∷ 0
    ∷ (if edns.do_bit then 128 else 0)
    ∷ 0
    ∷ 0
    ∷ 0
    ∷ []

unfoldable pub add_opt : Packet → EdnsRequest → Result Packet
add_opt response edns = do counted ← put_byte response 11 1; ok (counted ++ opt_record edns)

-- The part behind the checks of the request.
unfoldable pub fill_response : Packet → Question → EdnsRequest → ℕ → Bool → Result Packet
fill_response request question edns rcode zeroed = do
  response ← reply_header (take question.end request) (reply_flags question.flags rcode)
  addressed ← if is_zeroed zeroed question then add_zero_address response question else ok response
  if edns.present then add_opt addressed edns else ok addressed

unfoldable pub synthetic_response : Packet → ℕ → Bool → Result Packet
synthetic_response request rcode zeroed = do
  throw_if (ltb 15 rcode) dns_malformed
  question ← parse_question request
  throw_if (has_bit question.flags 32768) dns_malformed
  edns ← edns_request request question
  fill_response request question edns rcode zeroed

unfoldable pub make_error_response : Packet → ℕ → Result Packet
make_error_response request rcode = synthetic_response request rcode false

abbrev pub block_rcode : BlockMode → ℕ
block_rcode nxdomain = 3
block_rcode refused = 5
block_rcode zero_address = 0
block_rcode silent_drop = 0

abbrev pub is_zero_address : BlockMode → Bool
is_zero_address zero_address = true
is_zero_address _ = false

abbrev pub is_silent_drop : BlockMode → Bool
is_silent_drop silent_drop = true
is_silent_drop _ = false

unfoldable pub make_block_response : Packet → BlockMode → Result Packet
make_block_response request mode = do
  throw_if (is_silent_drop mode) config_invalid
  synthetic_response request (block_rcode mode) (is_zero_address mode)

unfoldable pub client_udp_payload_size : Packet → Result ℕ
client_udp_payload_size request = do
  question ← parse_question request
  throw_if (has_bit question.flags 32768) dns_malformed
  edns ← edns_request request question
  ok (if edns.present then edns.payload else 512)

-- `actual` answers `expected`: it is a reply with the same identifier, name, type and class.
unfoldable pub answers_question : Question → Question → Bool
answers_question actual expected =
    has_bit actual.flags 32768
    && actual.id == expected.id
    && text_eq actual.name expected.name
    && actual.type == expected.type
    && actual.klass == expected.klass

-- `flags | 0x0200`
unfoldable pub with_truncated : ℕ → ℕ
with_truncated flags = if has_bit flags 512 then flags else flags + 512

-- The part behind the test of the size.
unfoldable pub truncate_response : Packet → Packet → Result Packet
truncate_response request response = do
  expected ← parse_question request
  actual ← parse_question response
  throw_if (not (answers_question actual expected)) dns_mismatch
  flags ← word response 2
  reply_header (take actual.end response) (with_truncated flags)

unfoldable pub fit_udp_response : Packet → Packet → Result Packet
fit_udp_response request response = do
  limit ← client_udp_payload_size request
  if leb (length response) limit then ok response else truncate_response request response
