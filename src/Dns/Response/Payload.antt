-- ===== src/Dns/Response/Payload.antt =====
-- NativeDNS.Core/src/dns_packet.cpp: the payload that a request announces, read from the list of its
-- records.
use native_dns.Prelude.{
  ℕ, zero, suc, ◌+◌, ◌-◌, min, max, ◌≤◌, Bool, true, false, not, ◌||◌, ◌≡◌, refl, sym, ap, subst,
  ◌∙◌, ◌⊎◌, inl, inr, List, [], ◌∷◌, ltb, leb, ◌==◌, ==_iff, if◌then◌else◌, has_bit, length,
  is_empty, All, Text, dns_malformed, ok, >>=-eq-ok, passed, ok-injective, arith,
}
use native_dns.Dns.Wire.{Packet, byte_at, word, name}
use native_dns.Dns.Query.{Question, parse_question}
use native_dns.Dns.Response.{
  EdnsRequest, no_edns, read_opt, edns_record, edns_records, edns_request, client_udp_payload_size,
}

-- What stands in front of the data of a record.
pub record Head : Type 0 where
  pub owner : Text
  pub type : ℕ
  pub klass : ℕ

-- The records of a message from an offset to its end, one behind the other.
pub data Holds (p : Packet) : ℕ → List Head → Type 0 where
  ends : {at : ℕ} → at ≡ length p → Holds p at []
  follows :
      {offset at size : ℕ} {head : Head} {heads : List Head}
      → name p offset ≡ ok (head.owner, at)
      → word p at ≡ ok head.type
      → word p (at + 2) ≡ ok head.klass
      → word p (at + 8) ≡ ok size
      → Holds p (at + 10 + size) heads
      → Holds p offset (head ∷ heads)

-- No OPT record among them.
abbrev pub Plain : List Head → Type 0
Plain = All (λ head. ¬ (head.type ≡ 41))

-- Exactly one OPT record among them, with the root as its owner and `klass` as its class; it stands
-- at `early` or later, where the first record stands at `index`.
pub data Sole (early klass : ℕ) : ℕ → List Head → Type 0 where
  this :
      {index : ℕ} {head : Head} {heads : List Head}
      → head.type ≡ 41
      → head.owner ≡ []
      → head.klass ≡ klass
      → early ≤ index
      → Plain heads
      → Sole early klass index (head ∷ heads)
  further :
      {index : ℕ} {head : Head} {heads : List Head}
      → ¬ (head.type ≡ 41)
      → Sole early klass (index + 1) heads
      → Sole early klass index (head ∷ heads)

-- The payload for records: 512 bytes without an OPT record, and else the class of the one that is
-- there, but at least 512 and at most 1232.
abbrev pub Grants : ℕ → List Head → ℕ → Type 0
Grants early heads limit =
    (Plain heads × (limit ≡ 512))
    ⊎ ((klass : ℕ) × Sole early klass 0 heads × (limit ≡ min (max klass 512) 1232))

-- What a request of which `question` was read announces.
pub record Announces (p : Packet) (limit : ℕ) : Type 0 where
  pub question : Question
  pub answers : ℕ
  pub authority : ℕ
  pub additional : ℕ
  pub heads : List Head
  pub parsed : parse_question p ≡ ok question
  pub answers_word : word p 6 ≡ ok answers
  pub authority_word : word p 8 ≡ ok authority
  pub additional_word : word p 10 ≡ ok additional
  pub counted : length heads ≡ answers + authority + additional
  pub holds : Holds p question.end heads
  pub grants : Grants (answers + authority) heads limit

empty_lem : (text : Text) → is_empty text ≡ true → text ≡ []
empty_lem [] e = refl
empty_lem (c ∷ text) e = cc

module _ (p : Packet) where
  -- What a record does to the options that were read before it.
  Step : Bool → Head → EdnsRequest → EdnsRequest → Type 0
  Step late head edns next =
      ((¬ (head.type ≡ 41)) × (next ≡ edns))
      ⊎ ((head.type ≡ 41)
          × (edns.present ≡ false)
          × (head.owner ≡ [])
          × (late ≡ true)
          × (next.present ≡ true)
          × (next.payload ≡ min (max head.klass 512) 1232))

  read_opt-Step :
      (edns next : EdnsRequest) (at : ℕ) (head : Head) (late : Bool)
      → head.type ≡ 41
      → read_opt p edns at head.klass head.owner late ≡ ok next
      → Step late head edns next
  unfolding read_opt Step
  read_opt-Step edns next at head late is e =
      let (allowed, e₁) =
        passed (edns.present || not (is_empty head.owner) || not late) dns_malformed _ e in
      let (flags, _, e₂) = >>=-eq-ok (byte_at p (at + 6)) _ e₁ in
      let same = ok-injective e₂ in
      inr (
        is,
        ground (arith, allowed),
        empty_lem head.owner (ground (arith, allowed)),
        ground (arith, allowed),
        sym (ap (λ n. n.present) same),
        sym (ap (λ n. n.payload) same),
      )

  chosen-Step :
      (edns next : EdnsRequest) (at : ℕ) (head : Head) (late is_opt : Bool)
      → head.type == 41 ≡ is_opt
      → (if is_opt then read_opt p edns at head.klass head.owner late else ok edns) ≡ ok next
      → Step late head edns next
  unfolding Step
  chosen-Step edns next at head late true is e =
      read_opt-Step edns next at head late ((==_iff head.type 41).0 is) e
  chosen-Step edns next at head late false plain e =
      inl (λ is. absurd (ground (arith, is, plain)), sym (ok-injective e))

  -- A record that was read, and where the next one begins.
  record Took (late : Bool) (edns next : EdnsRequest) (offset behind : ℕ) : Type 0 where
    head : Head
    at : ℕ
    size : ℕ
    named : name p offset ≡ ok (head.owner, at)
    typed : word p at ≡ ok head.type
    classed : word p (at + 2) ≡ ok head.klass
    sized : word p (at + 8) ≡ ok size
    stepped : Step late head edns next
    moved : at + 10 + size ≡ behind

  edns_record-Took :
      (late : Bool) (edns next : EdnsRequest) (offset behind : ℕ)
      → edns_record p late edns offset ≡ ok (next, behind)
      → Took late edns next offset behind
  unfolding edns_record Step
  edns_record-Took late edns next offset behind e =
      let ((owner, at), named, e₁) = >>=-eq-ok (name p offset) _ e in
      let (type, typed, e₂) = >>=-eq-ok (word p at) _ e₁ in
      let (klass, classed, e₃) = >>=-eq-ok (word p (at + 2)) _ e₂ in
      let (size, sized, e₄) = >>=-eq-ok (word p (at + 8)) _ e₃ in
      let (_, e₅) =
        passed (ltb (length p - at) 10 || ltb (length p - (at + 10)) size) dns_malformed _ e₄ in
      let head : Head = record { owner = owner; type = type; klass = klass } in
      let (got, chosen, e₆) =
        >>=-eq-ok (if type == 41 then read_opt p edns at klass owner late else ok edns) _ e₅ in
      let same = ok-injective e₆ in
      let step = chosen-Step edns got at head late (type == 41) refl chosen in
      record {
        head = head;
        at = at;
        size = size;
        named = named;
        typed = typed;
        classed = classed;
        sized = sized;
        stepped = subst (Step late head edns) (ap (λ s. s.0) same) step;
        moved = ap (λ s. s.1) same;
      }

  -- The options that the records from `index` on leave.
  Left : ℕ → ℕ → List Head → EdnsRequest → EdnsRequest → Type 0
  Left early index heads edns last =
      (Plain heads × (last ≡ edns))
      ⊎ ((edns.present ≡ false)
          × (last.present ≡ true)
          × ((klass : ℕ) × Sole early klass index heads
              × (last.payload ≡ min (max klass 512) 1232)))

  Left-follows :
      (early index : ℕ) (head : Head) (heads : List Head) (edns next last : EdnsRequest)
      → Step (leb early index) head edns next
      → Left early (index + 1) heads next last
      → Left early index (head ∷ heads) edns last
  unfolding Step Left
  Left-follows early index head heads edns next last (inl (other_type, same)) (inl (plain, kept)) =
      inl ((other_type, plain), kept ∙ same)
  Left-follows early index head heads edns next last (inl (other_type, same))
        (inr (fresh, there, (klass, sole, size))) =
      inr (ap (λ n. n.present) (sym same) ∙ fresh, there, (klass, further other_type sole, size))
  Left-follows early index head heads edns next last (inr (is, fresh, root, late, there, size))
        (inl (plain, kept)) =
      inr (
        fresh,
        ap (λ n. n.present) kept ∙ there,
        (
          head.klass,
          this is root refl (ground (arith, late)) plain,
          ap (λ n. n.payload) kept ∙ size,
        ),
      )
  Left-follows early index head heads edns next last (inr (is, fresh, root, late, there, size))
        (inr (again, _, _)) =
      absurd (ground (arith, there, again))

  -- The records that a loop read, and what they leave.
  abbrev Read : ℕ → ℕ → ℕ → EdnsRequest → ℕ → EdnsRequest → Type 0
  Read n early index edns at last =
      (heads : List Head) × (length heads ≡ n) × Holds p at heads × Left early index heads edns last

  edns_records-Read :
      (n early index : ℕ) (edns last : EdnsRequest) (at end : ℕ)
      → edns_records n p early index edns at ≡ ok (last, end)
      → end ≡ length p
      → Read n early index edns at last
  unfolding edns_records Left
  edns_records-Read zero early index edns last at end e whole =
      let same = ok-injective e in
      ([], refl, ends (ap (λ s. s.1) same ∙ whole), inl (tt, sym (ap (λ s. s.0) same)))
  edns_records-Read (suc n) early index edns last at end e whole =
      let ((next, behind), first, e₁) = >>=-eq-ok (edns_record p (leb early index) edns at) _ e in
      let took = edns_record-Took (leb early index) edns next at behind first in
      let (heads, counted, holds, left) =
        edns_records-Read n early (index + 1) next last behind end e₁ whole in
      (
        took.head ∷ heads,
        ap suc counted,
        follows took.named took.typed took.classed took.sized
            (subst (λ b. Holds p b heads) (sym took.moved) holds),
        Left-follows early index took.head heads edns next last took.stepped left,
      )

  Left-Grants :
      (early : ℕ) (heads : List Head) (last : EdnsRequest)
      → Left early 0 heads no_edns last
      → Grants early heads (if last.present then last.payload else 512)
  unfolding Left
  Left-Grants early heads last (inl (plain, same)) = inl (plain, rw same refl)
  Left-Grants early heads last (inr (_, there, (klass, sole, size))) =
      inr (klass, sole, rw there size)

  -- The limit is the one that the request's records announce.
  pub client_udp_payload_size-Announces :
      (limit : ℕ) → client_udp_payload_size p ≡ ok limit → Announces p limit
  unfolding client_udp_payload_size edns_request
  client_udp_payload_size-Announces limit e =
      let (q, parsed, e₁) = >>=-eq-ok (parse_question p) _ e in
      let (_, e₂) = passed (has_bit q.flags 32768) dns_malformed _ e₁ in
      let (edns, asked, e₃) = >>=-eq-ok (edns_request p q) _ e₂ in
      let (answers, first, e₄) = >>=-eq-ok (word p 6) _ asked in
      let (authority, second, e₅) = >>=-eq-ok (word p 8) _ e₄ in
      let (additional, third, e₆) = >>=-eq-ok (word p 10) _ e₅ in
      let early = answers + authority in
      let (_, e₇) = passed (ltb 4096 (early + additional)) dns_malformed _ e₆ in
      let ((last, end), walked, e₈) =
        >>=-eq-ok (edns_records (early + additional) p early 0 no_edns q.end) _ e₇ in
      let (whole, e₉) = passed (not (end == length p)) dns_malformed _ e₈ in
      let (heads, counted, holds, left) =
        edns_records-Read (early + additional) early 0 no_edns last q.end end walked
          (ground (arith, whole)) in
      let same : last ≡ edns = ok-injective e₉ in
      record {
        question = q;
        answers = answers;
        authority = authority;
        additional = additional;
        heads = heads;
        parsed = parsed;
        answers_word = first;
        authority_word = second;
        additional_word = third;
        counted = counted;
        holds = holds;
        grants =
            subst (Grants early heads)
              (ap (λ d. if d.present then d.payload else 512) same ∙ ok-injective e₃)
              (Left-Grants early heads last left);
      }
