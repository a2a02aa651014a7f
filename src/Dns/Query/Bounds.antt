-- ===== src/Dns/Query/Bounds.antt =====
-- NativeDNS.Core/src/dns_packet.cpp: `parse_question` stays inside the packet.
use native_dns.Prelude.{
  ℕ, ◌+◌, ◌≤◌, ◌<◌, not, ◌||◌, ◌≡◌, ltb, ◌==◌, length, All, ok, Safe, Safe-bind, Safe-bind-eq,
  Safe-throw_if, arith,
}
use native_dns.Dns.Wire.{Packet, word}
use native_dns.Dns.Wire.Bounds.{IsPacket, IsNameByte, NameRead, word-Safe, name-Safe}
use native_dns.Dns.Query.{Question, opcode, parse_question}

-- What holds of a question that was read from `p`.
pub record QuestionRead (p : Packet) (q : Question) : Type 0 where
  pub id_word : q.id < 65536
  pub flags_word : q.flags < 65536
  pub type_word : q.type < 65536
  pub class_word : q.klass < 65536
  pub flags_at : word p 2 ≡ ok q.flags
  pub standard : opcode q.flags ≡ 0
  pub name_short : length q.name ≤ 253
  pub name_readable : All IsNameByte q.name
  pub after : 17 ≤ q.end
  pub inside : q.end ≤ length p
  pub near : q.end ≤ 272
  pub sized : length p ≤ 65535

abbrev pub IsField : Packet → ℕ → ℕ → Type 0
IsField p at w = (w < 65536) × (at + 2 ≤ length p)

-- Reading a question never leaves the packet: it is refused, or its end, name and fields lie
-- within their bounds.
pub parse_question-Safe : (p : Packet) → IsPacket p → Safe (QuestionRead p) (parse_question p)
unfolding parse_question
parse_question-Safe p v =
    Safe-throw_if (QuestionRead p) (ltb (length p) 12 || ltb 65535 (length p)) _ _ λ sized.
      Safe-bind (IsField p 4) (QuestionRead p) _ _ (word-Safe p 4 v) λ count _.
        Safe-throw_if (QuestionRead p) (not (count == 1)) _ _ λ _.
          Safe-bind (IsField p 0) (QuestionRead p) _ _ (word-Safe p 0 v) λ id id_word.
            Safe-bind-eq (IsField p 2) (QuestionRead p) _ _ (word-Safe p 2 v)
              λ flags flags_word flags_at.
                Safe-throw_if (QuestionRead p) (not (opcode flags == 0)) _ _ λ standard.
                  Safe-bind (NameRead p 12) (QuestionRead p) _ _ (name-Safe p 12) λ (text, end) n.
                    Safe-bind (IsField p end) (QuestionRead p) _ _ (word-Safe p end v) λ type t.
                      Safe-bind (IsField p (end + 2)) (QuestionRead p) _ _ (word-Safe p (end + 2) v)
                        λ klass k. record {
                          id_word = id_word.0;
                          flags_word = flags_word.0;
                          type_word = t.0;
                          class_word = k.0;
                          flags_at = flags_at;
                          standard = ground arith;
                          name_short = n.short;
                          name_readable = n.readable;
                          after = omega arith;
                          inside = omega arith;
                          near = omega arith;
                          sized = ground arith;
                        }
