-- ===== src/Dns/Response/Echo.antt =====
-- NativeDNS.Core/src/dns_packet.cpp: a made up response asks the question of its request.
use native_dns.Prelude.{
  ℕ, ◌+◌, ◌*◌, ◌/◌, ◌%◌, ◌≤◌, ◌<◌, Bool, true, false, ◌≡◌, refl, ap, ◌∙◌, List, [], ◌∷◌, ◌++◌,
  append_assoc, ◌==◌, has_bit, ltb, length, length-append, take, ok, throw_if, >>=-eq-ok, arith,
  Bool-cases, inl, inr, replicate, dns_malformed, throw_if-ok, ltb→ge,
}
use native_dns.Rules.Names.Canonical.{dotted}
use native_dns.Dns.Wire.{Packet, put_byte}
use native_dns.Dns.Wire.Layout.{wire, length-wire}
use native_dns.Dns.Query.{Question, opcode, parse_question}
use native_dns.Dns.Query.Laid.{
  Laid, question_bytes, packet_of, question_of, IsLaid, parse_question-packet_of,
}
use native_dns.Dns.Response.{
  EdnsRequest, edns_request, reply_header, reply_flags, is_zeroed, zero_record, add_zero_address,
  opt_record, add_opt, fill_response, synthetic_response, address_size,
}

-- The message `m` with the header of a reply and `rest` behind its question.
abbrev pub replied : Laid → ℕ → ℕ → ℕ → Packet → Laid
replied m flags answers additional rest = record m {
  flags_high = flags / 256 % 256;
  flags_low = flags % 256;
  count_high = 0;
  count_low = 1;
  answers_high = 0;
  answers_low = answers;
  authority_high = 0;
  authority_low = 0;
  additional_high = 0;
  additional_low = additional;
  rest = rest;
}

take-append {ℓ} : {A : Type ℓ} (xs ys : List A) (n : ℕ) → n ≡ length xs → take n (xs ++ ys) ≡ xs
take-append [] ys n e = rw e
take-append (x ∷ xs) ys n e = rw e (ap (◌∷◌ x) (take-append xs ys (length xs) refl))

-- Cutting a message behind its question drops what follows it.
take-packet_of :
    (m : Laid) → take (question_of m).end (packet_of m) ≡ packet_of (record m { rest = [] })
take-packet_of m =
    let front = packet_of (record m { rest = [] }) in
    let whole : packet_of m ≡ front ++ m.rest = simp append_assoc in
    let cut : (question_of m).end ≡ length front = omega (
      arith,
      length-append (wire (m.first ∷ m.labels))
          (0 ∷ m.type_high ∷ m.type_low ∷ m.class_high ∷ m.class_low ∷ []),
    ) in
    rw whole (take-append front m.rest _ cut)

reply_header-packet_of :
    (m : Laid) (flags : ℕ)
    → reply_header (packet_of m) flags ≡ ok (packet_of (replied m flags 0 0 m.rest))
unfolding reply_header
reply_header-packet_of m flags = let tail = question_bytes m in ground arith

packet_of-append :
    (m : Laid) (extra : Packet)
    → packet_of m ++ extra ≡ packet_of (record m { rest = m.rest ++ extra })
packet_of-append m extra = simp append_assoc

add_zero_address-packet_of :
    (m : Laid) (flags : ℕ) (q : Question)
    → add_zero_address (packet_of (replied m flags 0 0 [])) q
      ≡ ok (
          packet_of (replied m flags 1 0 (zero_record q.type ++ replicate (address_size q.type) 0)))
unfolding add_zero_address put_byte
add_zero_address-packet_of m flags q =
    let bare = replied m flags 1 0 [] in
    let counted : put_byte (packet_of (replied m flags 0 0 [])) 7 1 ≡ ok (packet_of bare) =
      ground arith in
    rw counted (
      ap ok (
        ap (λ p. p ++ replicate (address_size q.type) 0)
          (packet_of-append bare (zero_record q.type))
        ∙ packet_of-append (replied m flags 1 0 (zero_record q.type))
            (replicate (address_size q.type) 0)))

add_opt-packet_of :
    (m : Laid) (flags answers : ℕ) (rest : Packet) (edns : EdnsRequest)
    → add_opt (packet_of (replied m flags answers 0 rest)) edns
      ≡ ok (packet_of (replied m flags answers 1 (rest ++ opt_record edns)))
unfolding add_opt put_byte
add_opt-packet_of m flags answers rest edns = ground (
  arith,
  append_assoc (wire (m.first ∷ m.labels))
      (0 ∷ m.type_high ∷ m.type_low ∷ m.class_high ∷ m.class_low ∷ rest) (opt_record edns),
)

reply_flags-opcode :
    (flags rcode : ℕ)
    → rcode ≤ 15
    → (opcode (reply_flags flags rcode) ≡ 0) × (reply_flags flags rcode < 65536)
unfolding reply_flags
reply_flags-opcode flags rcode h = (omega arith, omega arith)

-- What follows the question of a made up response is short.
abbrev FewBytes : Packet → Type 0
FewBytes rest = length rest ≤ 60

replied-IsLaid :
    (m : Laid) (flags answers additional : ℕ) (rest : Packet)
    → IsLaid m
    → opcode flags ≡ 0
    → flags < 65536
    → FewBytes rest
    → IsLaid (replied m flags answers additional rest)
replied-IsLaid m flags answers additional rest v o f h = record {
  good = v.good;
  bounded = v.bounded;
  single = refl;
  standard = omega arith;
  sized = omega (
    arith,
    length-wire m.labels,
    v.bounded,
    length-append m.first (dotted m.labels),
    length-append m.first (wire m.labels),
    length-append (wire (m.first ∷ m.labels))
        (0 ∷ m.type_high ∷ m.type_low ∷ m.class_high ∷ m.class_low ∷ rest),
  );
}

length-zero_record : (type : ℕ) → length (zero_record type ++ replicate (address_size type) 0) ≤ 28
length-zero_record type = elim (Bool-cases (type == 1)) [
  | inl e ↦ rw e (omega arith)
  | inr e ↦ rw e (omega arith)
]

-- What `fill_response` returns for a laid out request.
record Filled (m : Laid) (flags : ℕ) (r : Packet) : Type 0 where
  answers : ℕ
  additional : ℕ
  rest : Packet
  few : FewBytes rest
  laid : r ≡ packet_of (replied m flags answers additional rest)

fill_response-packet_of :
    (m : Laid) (edns : EdnsRequest) (rcode : ℕ) (zeroed : Bool) (r : Packet)
    → fill_response (packet_of m) (question_of m) edns rcode zeroed ≡ ok r
    → Filled m (reply_flags (question_of m).flags rcode) r
unfolding fill_response
fill_response-packet_of m edns rcode zeroed r e =
    let q = question_of m in
    let flags = reply_flags q.flags rcode in
    let zeros = zero_record q.type ++ replicate (address_size q.type) 0 in
    let short : length zeros ≤ 28 = length-zero_record q.type in
    let bare : reply_header (take q.end (packet_of m)) flags
        ≡ ok (packet_of (replied m flags 0 0 [])) =
      rw (take-packet_of m) (reply_header-packet_of (record m { rest = [] }) flags) in
    let e' = rw bare at e in
    elim (Bool-cases (is_zeroed zeroed q)) [
      | inl z ↦
          let e₁ = rw (z, add_zero_address-packet_of m flags q) at e' in
          elim (Bool-cases edns.present) [
            | inl o ↦
                let e₂ = rw (add_opt-packet_of m flags 1 zeros edns, o) at e₁ in
                record {
                  answers = 1;
                  additional = 1;
                  rest = zeros ++ opt_record edns;
                  few = omega (arith, short, length-append zeros (opt_record edns));
                  laid = cc;
                }
            | inr o ↦
                let e₂ = rw o at e₁ in
                record {
                  answers = 1;
                  additional = 0;
                  rest = zeros;
                  few = omega (arith, short);
                  laid = cc;
                }
          ]
      | inr z ↦
          let e₁ = rw z at e' in
          elim (Bool-cases edns.present) [
            | inl o ↦
                let e₂ = rw (add_opt-packet_of m flags 0 [] edns, o) at e₁ in
                record {
                  answers = 0;
                  additional = 1;
                  rest = opt_record edns;
                  few = omega arith;
                  laid = cc;
                }
            | inr o ↦
                let e₂ = rw o at e₁ in
                record { answers = 0; additional = 0; rest = []; few = omega arith; laid = cc }
          ]
    ]

-- The flags of a reply that the program makes up: QR and RA are set, RD and CD are the request's,
-- the opcode is QUERY, AA, TC, Z and AD are clear, and the low four bits are the code.
pub record IsReplyFlags (flags rcode f : ℕ) : Type 0 where
  pub word : f < 65536
  pub qr : has_bit f 32768 ≡ true
  pub query : f / 2048 % 16 ≡ 0
  pub aa : has_bit f 1024 ≡ false
  pub tc : has_bit f 512 ≡ false
  pub rd : has_bit f 256 ≡ has_bit flags 256
  pub ra : has_bit f 128 ≡ true
  pub z : has_bit f 64 ≡ false
  pub ad : has_bit f 32 ≡ false
  pub cd : has_bit f 16 ≡ has_bit flags 16
  pub code : f % 16 ≡ rcode

same_bit : (f flags b : ℕ) → f / b % 2 ≡ flags / b % 2 → has_bit f b ≡ has_bit flags b
same_bit f flags b e = rw e refl

reply_flags-IsReplyFlags :
    (flags rcode : ℕ) → rcode ≤ 15 → IsReplyFlags flags rcode (reply_flags flags rcode)
unfolding reply_flags
reply_flags-IsReplyFlags flags rcode h =
    let f = 32896 + flags / 256 % 2 * 256 + flags / 16 % 2 * 16 + rcode in
    record {
      word = omega arith;
      qr = ground arith;
      query = omega arith;
      aa = ground arith;
      tc = ground arith;
      rd = same_bit f flags 256 (omega arith);
      ra = ground arith;
      z = ground arith;
      ad = ground arith;
      cd = same_bit f flags 16 (omega arith);
      code = omega arith;
    }

-- A made up response to a laid out request parses as a reply to the same question: with the
-- identifier, name, type, class and end of the request's question. Of its flags QR and RA are
-- set, RD and CD are the request's, the opcode is QUERY, AA, TC, Z and AD are clear, and the low
-- four bits are the given code.
pub parse_question-synthetic_response :
    (m : Laid) (rcode : ℕ) (zeroed : Bool) (r : Packet)
    → IsLaid m
    → synthetic_response (packet_of m) rcode zeroed ≡ ok r
    → (flags : ℕ) × (parse_question r ≡ ok (record (question_of m) { flags = flags }))
      × IsReplyFlags (question_of m).flags rcode flags
unfolding synthetic_response
parse_question-synthetic_response m rcode zeroed r v e =
    let (_, small, e₁) = >>=-eq-ok (throw_if (ltb 15 rcode) dns_malformed) _ e in
    let (_, _, e₂) =
      >>=-eq-ok (throw_if (has_bit (question_of m).flags 32768) dns_malformed) _
        (rw (parse_question-packet_of m v) at e₁) in
    let (edns, _, e₃) = >>=-eq-ok (edns_request (packet_of m) (question_of m)) _ e₂ in
    let f = fill_response-packet_of m edns rcode zeroed r e₃ in
    let flags = reply_flags (question_of m).flags rcode in
    let four_bits = ltb→ge 15 rcode (throw_if-ok _ dns_malformed small) in
    let (standard, word) = reply_flags-opcode (question_of m).flags rcode four_bits in
    let m' = replied m flags f.answers f.additional f.rest in
    let whole : flags / 256 % 256 * 256 + flags % 256 ≡ flags = omega arith in
    (
      flags,
      rw f.laid (
          parse_question-packet_of m'
            (replied-IsLaid m flags f.answers f.additional f.rest v standard word f.few)
          ∙ rw whole),
      reply_flags-IsReplyFlags (question_of m).flags rcode four_bits,
    )
