-- ===== src/Dns/Response/Fit.antt =====
-- NativeDNS.Core/src/dns_packet.cpp: how long the responses are that leave for a client.
use native_dns.Prelude.{
  ℕ, ◌+◌, ◌%◌, ◌≤◌, ◌<◌, Bool, true, false, not, ◌≡◌, refl, ◌⊎◌, inl, inr, ◌++◌, ltb, leb,
  if◌then◌else◌, if_cases, has_bit, length, length-append, length-set, length-replicate,
  length-take, take, replicate, ok, Safe, Safe-bind, Safe-bind-eq, Safe-throw_if, Safe-weaken,
  Safe-eq-ok, arith,
}
use native_dns.Model.{BlockMode}
use native_dns.Dns.Wire.{Packet, put_byte}
use native_dns.Dns.Wire.Bounds.{IsPacket}
use native_dns.Dns.Response.Payload.{Announces, client_udp_payload_size-Announces}
use native_dns.Dns.Response.Bounds.{IsGranted, edns_request-Safe, HasReplyHeader, reply_header-Safe}
use native_dns.Dns.Query.{Question, parse_question}
use native_dns.Dns.Query.Bounds.{QuestionRead, parse_question-Safe}
use native_dns.Dns.Response.{
  EdnsRequest, reply_flags, is_zeroed, add_zero_address, add_opt, fill_response, synthetic_response,
  make_error_response, make_block_response, client_udp_payload_size, answers_question,
  with_truncated, truncate_response, fit_udp_response, zero_record, address_size, opt_record,
  is_silent_drop, block_rcode, is_zero_address,
}

-- The part of a packet up to the end of its question is long enough for a header.
length-question : (p : Packet) (q : Question) → QuestionRead p q → length (take q.end p) ≡ q.end
length-question p q v = omega (arith, length-take q.end p, v.inside)

put_byte-Safe :
    (p : Packet) (i v : ℕ) → i < length p → Safe (λ r. length r ≡ length p) (put_byte p i v)
unfolding put_byte
put_byte-Safe p i v h = ground (arith, length-set p i (v % 256))

address_size-le : (type : ℕ) → address_size type ≤ 16
address_size-le type = ground arith

zero_address_bounds :
    (p r : Packet) (q : Question)
    → 12 ≤ length p
    → length r ≡ length p
    → (12 ≤ length ((r ++ zero_record q.type) ++ replicate (address_size q.type) 0))
      × (length ((r ++ zero_record q.type) ++ replicate (address_size q.type) 0) ≤ length p + 28)
zero_address_bounds p r q h same =
    let zeros = replicate (address_size q.type) 0 in
    let size = length-append (r ++ zero_record q.type) zeros in
    let front = length-append r (zero_record q.type) in
    let few = length-replicate {A = ℕ} (address_size q.type) 0 in
    (
      omega (arith, size, front, same, few),
      omega (arith, size, front, same, few, address_size-le q.type),
    )

add_zero_address-Safe :
    (p : Packet) (q : Question)
    → 12 ≤ length p
    → Safe (λ r. (12 ≤ length r) × (length r ≤ length p + 28)) (add_zero_address p q)
unfolding add_zero_address
add_zero_address-Safe p q h =
    Safe-bind (λ r. length r ≡ length p) _ _ _ (put_byte-Safe p 7 1 (omega arith))
      λ r same. zero_address_bounds p r q h same

add_opt-Safe :
    (p : Packet) (edns : EdnsRequest)
    → 12 ≤ length p
    → Safe (λ r. length r ≤ length p + 11) (add_opt p edns)
unfolding add_opt
add_opt-Safe p edns h =
    Safe-bind (λ r. length r ≡ length p) (λ r. length r ≤ length p + 11) _ _
      (put_byte-Safe p 11 1 (omega arith))
      λ r same. omega (arith, same, length-append r (opt_record edns))

addressed-Safe :
    (p : Packet) (q : Question) (zeroed : Bool)
    → 12 ≤ length p
    → length p ≤ 272
    → Safe
        (λ r. (12 ≤ length r) × (length r ≤ 300))
        (if is_zeroed zeroed q then add_zero_address p q else ok p)
addressed-Safe p q zeroed long short =
    if_cases (Safe (λ r. (12 ≤ length r) × (length r ≤ 300))) (is_zeroed zeroed q)
      (λ _.
        Safe-weaken (λ r. (12 ≤ length r) × (length r ≤ length p + 28))
          (λ r. (12 ≤ length r) × (length r ≤ 300)) _ (λ r (low, high). (low, omega arith))
          (add_zero_address-Safe p q long))
      (λ _. (long, omega arith))

fill_response-Safe :
    (p : Packet) (q : Question) (edns : EdnsRequest) (rcode : ℕ) (zeroed : Bool)
    → QuestionRead p q
    → Safe (λ r. length r ≤ 311) (fill_response p q edns rcode zeroed)
unfolding fill_response
fill_response-Safe p q edns rcode zeroed v =
    let cut = length-question p q v in
    Safe-bind (HasReplyHeader (take q.end p) (reply_flags q.flags rcode)) (λ r. length r ≤ 311) _ _
      (reply_header-Safe (take q.end p) (reply_flags q.flags rcode) (omega (arith, cut, v.after)))
      λ response head.
        Safe-bind (λ r. (12 ≤ length r) × (length r ≤ 300)) (λ r. length r ≤ 311) _ _
          (addressed-Safe response q zeroed (omega (arith, head.same_length, cut, v.after))
            (omega (arith, head.same_length, cut, v.near)))
          λ addressed (long, short).
            if_cases (Safe (λ r. length r ≤ 311)) edns.present
              (λ _.
                Safe-weaken (λ r. length r ≤ length addressed + 11) (λ r. length r ≤ 311) _
                  (λ r h. omega arith) (add_opt-Safe addressed edns long))
              (λ _. omega arith)

synthetic_response-Safe :
    (request : Packet) (rcode : ℕ) (zeroed : Bool)
    → IsPacket request
    → Safe (λ r. length r ≤ 311) (synthetic_response request rcode zeroed)
unfolding synthetic_response
synthetic_response-Safe request rcode zeroed v =
    Safe-throw_if (λ r. length r ≤ 311) (ltb 15 rcode) _ _
      λ _.
        Safe-bind (QuestionRead request) (λ r. length r ≤ 311) _ _ (parse_question-Safe request v)
          λ q read.
            Safe-throw_if (λ r. length r ≤ 311) (has_bit q.flags 32768) _ _
              λ _.
                Safe-bind IsGranted (λ r. length r ≤ 311) _ _
                  (edns_request-Safe request v q read.inside)
                  λ edns _. fill_response-Safe request q edns rcode zeroed read

-- Answering a request with an error or a block never faults, and the answer has at most 311 bytes,
-- so it fits every client's UDP payload.
pub made_response_bound :
    (request : Packet) (rcode : ℕ) (mode : BlockMode)
    → IsPacket request
    → Safe (λ r. length r ≤ 311) (make_error_response request rcode)
      × Safe (λ r. length r ≤ 311) (make_block_response request mode)
unfolding make_error_response make_block_response
made_response_bound request rcode mode v = (
  synthetic_response-Safe request rcode false v,
  Safe-throw_if (λ r. length r ≤ 311) (is_silent_drop mode) _ _
      λ _. synthetic_response-Safe request (block_rcode mode) (is_zero_address mode) v,
)

abbrev IsLimit : ℕ → Type 0
IsLimit limit = (512 ≤ limit) × (limit ≤ 1232)

client_udp_payload_size-Safe :
    (request : Packet) → IsPacket request → Safe IsLimit (client_udp_payload_size request)
unfolding client_udp_payload_size
client_udp_payload_size-Safe request v =
    Safe-bind (QuestionRead request) IsLimit _ _ (parse_question-Safe request v) λ q read.
      Safe-throw_if IsLimit (has_bit q.flags 32768) _ _ λ _.
        Safe-bind IsGranted IsLimit _ _ (edns_request-Safe request v q read.inside)
          λ edns granted. if_cases IsLimit edns.present (λ _. granted) (λ _. omega arith)

-- A response cut behind its question, with a header that says so.
pub record Cut (response r : Packet) : Type 0 where
  pub question : Question
  pub parsed : parse_question response ≡ ok question
  pub header : HasReplyHeader (take question.end response) (with_truncated question.flags) r
  pub marked : has_bit (with_truncated question.flags) 512 ≡ true

truncated_bit : (flags : ℕ) → has_bit (with_truncated flags) 512 ≡ true
unfolding with_truncated
truncated_bit flags = ground arith

truncate_response-Cut :
    (request response : Packet)
    → IsPacket request
    → IsPacket response
    → Safe (Cut response) (truncate_response request response)
unfolding truncate_response
truncate_response-Cut request response v w =
    Safe-bind (QuestionRead request) (Cut response) _ _ (parse_question-Safe request v)
      λ expected _.
        Safe-bind-eq (QuestionRead response) (Cut response) _ _ (parse_question-Safe response w)
          λ actual read parsed.
            Safe-throw_if (Cut response) (not (answers_question actual expected)) _ _ λ _.
              rw read.flags_at (
                Safe-weaken
                  (HasReplyHeader (take actual.end response) (with_truncated actual.flags))
                  (Cut response) _
                  (λ r h. record {
                    question = actual;
                    parsed = parsed;
                    header = h;
                    marked = truncated_bit actual.flags;
                  })
                  (reply_header-Safe (take actual.end response) (with_truncated actual.flags)
                    (omega (arith, length-question response actual read, read.after))))

abbrev pub Fits : ℕ → Packet → Packet → Type 0
Fits limit response r = (length r ≤ limit) × ((r ≡ response) ⊎ Cut response r)

fit_udp_response-Safe :
    (request response : Packet) (limit : ℕ)
    → IsPacket request
    → IsPacket response
    → client_udp_payload_size request ≡ ok limit
    → Safe (Fits limit response) (fit_udp_response request response)
unfolding fit_udp_response
fit_udp_response-Safe request response limit v w e =
    let limits = Safe-eq-ok IsLimit _ (client_udp_payload_size-Safe request v) e in
    rw e (
      if_cases (Safe (Fits limit response)) (leb (length response) limit)
        (λ fits. (ground arith, inl refl))
        (λ _.
          Safe-weaken (Cut response) (Fits limit response) _
            (λ r cut. (
              let read =
                    Safe-eq-ok (QuestionRead response) _ (parse_question-Safe response w)
                      cut.parsed in
                  omega (
                    arith,
                    cut.header.same_length,
                    limits.0,
                    read.near,
                    length-question response cut.question read,
                  ),
              inr cut,
            ))
            (truncate_response-Cut request response v w)))

-- What is sent to a client over UDP is not longer than the payload that its request announces:
-- 512 bytes where none of the request's records is an OPT record, and else the class of the only
-- OPT record, which has the root as its owner and stands in the additional section, but at least
-- 512 and at most 1232. It is the response itself, or its header and question with the truncation
-- bit set and no records; no access leaves a packet.
pub fit_udp_response-Fits :
    (request response : Packet) (limit : ℕ)
    → IsPacket request
    → IsPacket response
    → client_udp_payload_size request ≡ ok limit
    → Announces request limit × Safe (Fits limit response) (fit_udp_response request response)
fit_udp_response-Fits request response limit v w e = (
  client_udp_payload_size-Announces request limit e,
  fit_udp_response-Safe request response limit v w e,
)
