-- ===== src/Dns/Query/Laid.antt =====
-- NativeDNS.Core/src/dns_packet.cpp: a message whose question stands uncompressed behind the
-- header, which is how resolvers write their queries, and what `parse_question` makes of it.
use native_dns.Prelude.{
  ℕ, ◌+◌, ◌*◌, ◌≤◌, true, false, ◌≡◌, refl, sym, ap, ◌∙◌, List, [], ◌∷◌, ◌++◌, append_assoc, length,
  length-append, All, Text, ok, ltb, ◌==◌, ◌||◌, arith,
}
use native_dns.Rules.Names.Canonical.{join, IsLabel}
use native_dns.Dns.Wire.{Packet, word, name}
use native_dns.Dns.Wire.Layout.{wire, word-append, name-wire}
use native_dns.Dns.Query.{Question, opcode, parse_question}

pub record Laid : Type 0 where
  pub id_high : ℕ
  pub id_low : ℕ
  pub flags_high : ℕ
  pub flags_low : ℕ
  pub count_high : ℕ
  pub count_low : ℕ
  pub answers_high : ℕ
  pub answers_low : ℕ
  pub authority_high : ℕ
  pub authority_low : ℕ
  pub additional_high : ℕ
  pub additional_low : ℕ
  pub first : Text
  pub labels : List Text
  pub type_high : ℕ
  pub type_low : ℕ
  pub class_high : ℕ
  pub class_low : ℕ
  pub rest : Packet

-- The name, its zero, type and class, and what follows them.
abbrev pub question_bytes : Laid → Packet
question_bytes m =
    wire (m.first ∷ m.labels) ++ 0 ∷ m.type_high ∷ m.type_low ∷ m.class_high ∷ m.class_low ∷ m.rest

abbrev pub counts_of : Laid → Packet
counts_of m =
    m.answers_high ∷ m.answers_low ∷ m.authority_high ∷ m.authority_low ∷ m.additional_high
    ∷ m.additional_low ∷ []

abbrev pub packet_of : Laid → Packet
packet_of m =
    m.id_high
    ∷ m.id_low
    ∷ m.flags_high
    ∷ m.flags_low
    ∷ m.count_high
    ∷ m.count_low
    ∷ (counts_of m ++ question_bytes m)

abbrev pub question_of : Laid → Question
question_of m = record {
  id = m.id_high * 256 + m.id_low;
  flags = m.flags_high * 256 + m.flags_low;
  type = m.type_high * 256 + m.type_low;
  klass = m.class_high * 256 + m.class_low;
  name = join (m.first ∷ m.labels);
  end = 12 + length (wire (m.first ∷ m.labels)) + 5;
}

-- One question with a canonical name, a standard opcode, and a size that a message can have.
pub record IsLaid (m : Laid) : Type 0 where
  pub good : All (IsLabel false false) (m.first ∷ m.labels)
  pub bounded : length (join (m.first ∷ m.labels)) ≤ 253
  pub single : m.count_high * 256 + m.count_low ≡ 1
  pub standard : opcode (m.flags_high * 256 + m.flags_low) ≡ 0
  pub sized : length (packet_of m) ≤ 65535

module _ (m : Laid) (v : IsLaid m) where
  abbrev header : Packet
  header =
      m.id_high ∷ m.id_low ∷ m.flags_high ∷ m.flags_low ∷ m.count_high ∷ m.count_low ∷ counts_of m

  -- The length of the header and the name.
  abbrev name_end : ℕ
  name_end = 12 + length (wire (m.first ∷ m.labels)) + 1

  name_at : name (packet_of m) 12 ≡ ok (join (m.first ∷ m.labels), name_end)
  name_at =
      name-wire m.first m.labels (packet_of m) header
        (m.type_high ∷ m.type_low ∷ m.class_high ∷ m.class_low ∷ m.rest) v.good v.bounded refl

  -- A field behind the zero of the name, past the bytes `skip`.
  field_at :
      (skip : Packet) (a b : ℕ) (tail : Packet)
      → m.type_high ∷ m.type_low ∷ m.class_high ∷ m.class_low ∷ m.rest ≡ skip ++ a ∷ b ∷ tail
      → word (packet_of m) (name_end + length skip) ≡ ok (a * 256 + b)
  field_at skip a b tail e =
      let labels = wire (m.first ∷ m.labels) in
      let front = header ++ (labels ++ 0 ∷ skip) in
      let ended : length front ≡ name_end + length skip =
        omega (arith, length-append header (labels ++ 0 ∷ skip), length-append labels (0 ∷ skip)) in
      let whole : packet_of m ≡ front ++ a ∷ b ∷ tail =
        ap (λ t. header ++ (labels ++ 0 ∷ t)) e
        ∙ ap (λ t. header ++ t) (sym (append_assoc labels (0 ∷ skip) (a ∷ b ∷ tail)))
        ∙ sym (append_assoc header (labels ++ 0 ∷ skip) (a ∷ b ∷ tail)) in
      rw (whole, ← ended) (word-append front a b tail)

  length-packet_of : 12 ≤ length (packet_of m)
  length-packet_of = omega arith

-- The question of a laid out message is read back, field by field.
pub parse_question-packet_of :
    (m : Laid) → IsLaid m → parse_question (packet_of m) ≡ ok (question_of m)
unfolding parse_question
parse_question-packet_of m v =
    let sized : (ltb (length (packet_of m)) 12 || ltb 65535 (length (packet_of m))) ≡ false =
      ground (arith, v.sized, length-packet_of m v) in
    let rest = counts_of m ++ question_bytes m in
    let count : word (packet_of m) 4 ≡ ok 1 =
      word-append (m.id_high ∷ m.id_low ∷ m.flags_high ∷ m.flags_low ∷ []) m.count_high m.count_low
        rest
      ∙ ap ok v.single in
    let id =
      word-append [] m.id_high m.id_low
        (m.flags_high ∷ m.flags_low ∷ m.count_high ∷ m.count_low ∷ rest) in
    let flags =
      word-append (m.id_high ∷ m.id_low ∷ []) m.flags_high m.flags_low
        (m.count_high ∷ m.count_low ∷ rest) in
    let standard : (opcode (m.flags_high * 256 + m.flags_low) == 0) ≡ true = rw v.standard refl in
    let type : word (packet_of m) (name_end m v) ≡ ok (m.type_high * 256 + m.type_low) =
      let here : name_end m v ≡ name_end m v + 0 = omega arith in
      rw here (field_at m v [] m.type_high m.type_low (m.class_high ∷ m.class_low ∷ m.rest) refl) in
    let klass : word (packet_of m) (name_end m v + 2) ≡ ok (m.class_high * 256 + m.class_low) =
      field_at m v (m.type_high ∷ m.type_low ∷ []) m.class_high m.class_low m.rest refl in
    let ended : name_end m v + 4 ≡ 12 + length (wire (m.first ∷ m.labels)) + 5 = omega arith in
    rw (sized, count, id, flags, standard, name_at m v, type, klass, ended)
