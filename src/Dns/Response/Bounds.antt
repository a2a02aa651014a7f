-- ===== src/Dns/Response/Bounds.antt =====
-- NativeDNS.Core/src/dns_packet.cpp: made up and truncated responses, their bounds and headers.
use native_dns.Prelude.{
  ℕ, zero, suc, ◌+◌, ◌-◌, ◌*◌, ◌/◌, ◌%◌, ◌≤◌, ◌<◌, min, max, Bool, not, ◌||◌, ◌≡◌, refl, [], ◌∷◌,
  ltb, leb, ◌==◌, if_cases, length, take, drop, is_empty, Text, ok, Safe, Safe-bind, Safe-throw_if,
  arith,
}
use native_dns.Dns.Wire.{Packet, word}
use native_dns.Dns.Wire.Bounds.{IsPacket, NameRead, byte_at-Safe, word-Safe, name-Safe}
use native_dns.Dns.Wire.Layout.{word-append}
use native_dns.Dns.Query.{Question}
use native_dns.Dns.Query.Bounds.{IsField}
use native_dns.Dns.Response.{
  EdnsRequest, no_edns, read_opt, edns_record, edns_records, edns_request, reply_header,
}

-- The payload size that the program grants a client.
abbrev pub IsGranted : EdnsRequest → Type 0
IsGranted edns = (512 ≤ edns.payload) × (edns.payload ≤ 1232)

module _ (p : Packet) (v : IsPacket p) where
  -- The loop's state: the options read, and an offset inside the packet.
  abbrev EdnsInv : EdnsRequest × ℕ → Type 0
  EdnsInv s = IsGranted s.0 × (s.1 ≤ length p)

  granted : (klass : ℕ) → (512 ≤ min (max klass 512) 1232) × (min (max klass 512) 1232 ≤ 1232)
  granted klass = (omega arith, omega arith)

  read_opt-Safe :
      (edns : EdnsRequest) (at klass : ℕ) (owner : Text) (late : Bool)
      → at + 6 < length p
      → Safe IsGranted (read_opt p edns at klass owner late)
  unfolding read_opt
  read_opt-Safe edns at klass owner late h =
      Safe-throw_if IsGranted (edns.present || not (is_empty owner) || not late) _ _ λ _.
        Safe-bind (λ b. b < 256) IsGranted _ _ (byte_at-Safe p (at + 6) v h) λ b _. granted klass

  edns_record-Safe :
      (late : Bool) (edns : EdnsRequest) (at : ℕ)
      → IsGranted edns
      → Safe EdnsInv (edns_record p late edns at)
  unfolding edns_record
  edns_record-Safe late edns offset g =
      Safe-bind (NameRead p offset) EdnsInv _ _ (name-Safe p offset) λ (owner, at) n.
        Safe-bind (IsField p at) EdnsInv _ _ (word-Safe p at v) λ type _.
          Safe-bind (IsField p (at + 2)) EdnsInv _ _ (word-Safe p (at + 2) v) λ klass _.
            Safe-bind (IsField p (at + 8)) EdnsInv _ _ (word-Safe p (at + 8) v) λ size s.
              Safe-throw_if EdnsInv (ltb (length p - at) 10 || ltb (length p - (at + 10)) size) _ _
                λ fits.
                  Safe-bind IsGranted EdnsInv _ _
                    (if_cases (Safe IsGranted) (type == 41)
                      (λ _. read_opt-Safe edns at klass owner late (omega arith)) (λ _. g))
                    λ next granted. (granted, ground arith)

  edns_records-Safe :
      (n early index : ℕ) (edns : EdnsRequest) (at : ℕ)
      → IsGranted edns
      → at ≤ length p
      → Safe EdnsInv (edns_records n p early index edns at)
  unfolding edns_records
  edns_records-Safe zero early index edns at g h = (g, h)
  edns_records-Safe (suc n) early index edns at g h =
      Safe-bind EdnsInv EdnsInv _ _ (edns_record-Safe (leb early index) edns at g)
        λ (next, behind) i. edns_records-Safe n early (index + 1) next behind i.0 i.1

  pub edns_request-Safe : (q : Question) → q.end ≤ length p → Safe IsGranted (edns_request p q)
  unfolding edns_request
  edns_request-Safe q h = Safe-bind (IsField p 6) IsGranted _ _ (word-Safe p 6 v) λ answers _.
      Safe-bind (IsField p 8) IsGranted _ _ (word-Safe p 8 v) λ authority _.
        Safe-bind (IsField p 10) IsGranted _ _ (word-Safe p 10 v) λ additional _.
          Safe-throw_if IsGranted (ltb 4096 (answers + authority + additional)) _ _ λ _.
            Safe-bind EdnsInv IsGranted _ _
              (edns_records-Safe (answers + authority + additional) (answers + authority) 0 no_edns
                q.end (omega arith) h)
              λ (edns, at) i. Safe-throw_if IsGranted (not (at == length p)) _ (ok edns) λ _. i.0

-- The header of a reply: the identifier kept, the flags written, one question and no records; and
-- all behind the header as it was.
pub record HasReplyHeader (p : Packet) (flags : ℕ) (r : Packet) : Type 0 where
  pub same_length : length r ≡ length p
  pub same_id : take 2 r ≡ take 2 p
  pub flags_word : word r 2 ≡ ok (flags / 256 % 256 * 256 + flags % 256)
  pub one_question : word r 4 ≡ ok 1
  pub no_answers : word r 6 ≡ ok 0
  pub no_authority : word r 8 ≡ ok 0
  pub no_additional : word r 10 ≡ ok 0
  pub same_rest : drop 12 r ≡ drop 12 p

reply_header_lem :
    (a b c d e f g i j k l m : ℕ) (t : Packet) (flags : ℕ)
    → reply_header (a ∷ b ∷ c ∷ d ∷ e ∷ f ∷ g ∷ i ∷ j ∷ k ∷ l ∷ m ∷ t) flags
      ≡ ok (a ∷ b ∷ flags / 256 % 256 ∷ flags % 256 ∷ 0 ∷ 1 ∷ 0 ∷ 0 ∷ 0 ∷ 0 ∷ 0 ∷ 0 ∷ t)
unfolding reply_header
reply_header_lem a b c d e f g i j k l m t flags = ground arith

pub reply_header-Safe :
    (p : Packet) (flags : ℕ) → 12 ≤ length p → Safe (HasReplyHeader p flags) (reply_header p flags)
reply_header-Safe (a ∷ b ∷ c ∷ d ∷ e ∷ f ∷ g ∷ i ∷ j ∷ k ∷ l ∷ m ∷ t) flags h =
    let laid = reply_header_lem a b c d e f g i j k l m t flags in
    let high = flags / 256 % 256 in
    let low = flags % 256 in
    rw laid (record {
      same_length = refl;
      same_id = refl;
      flags_word = word-append (a ∷ b ∷ []) high low _;
      one_question = word-append (a ∷ b ∷ high ∷ low ∷ []) 0 1 _;
      no_answers = word-append (a ∷ b ∷ high ∷ low ∷ 0 ∷ 1 ∷ []) 0 0 _;
      no_authority = word-append (a ∷ b ∷ high ∷ low ∷ 0 ∷ 1 ∷ 0 ∷ 0 ∷ []) 0 0 _;
      no_additional = word-append (a ∷ b ∷ high ∷ low ∷ 0 ∷ 1 ∷ 0 ∷ 0 ∷ 0 ∷ 0 ∷ []) 0 0 _;
      same_rest = refl;
    })
reply_header-Safe _ flags h = absurd (omega arith)
