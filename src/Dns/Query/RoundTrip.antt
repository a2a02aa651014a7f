-- ===== src/Dns/Query/RoundTrip.antt =====
-- NativeDNS.Core/src/dns_packet.cpp: what `make_query` writes, `parse_question` reads.
use native_dns.Prelude.{
  ℕ, ◌+◌, ◌*◌, ◌/◌, ◌%◌, ◌≤◌, ◌<◌, false, ◌≡◌, refl, ap, ◌∙◌, List, [], ◌∷◌, append_assoc,
  append-nil, length, length-append, All, Text, ok, Safe-eq-ok, arith,
}
use native_dns.Rules.Names.{split_dots, normalize_dns_name}
use native_dns.Rules.Names.Canonical.{
  join, dotted, IsLabel, IsCanonical, filled-is_empty, normalize-IsCanonical,
}
use native_dns.Rules.Names.Fixed.{split_dots-join}
use native_dns.Dns.Wire.{Packet, append_word}
use native_dns.Dns.Wire.Layout.{wire, length-wire}
use native_dns.Dns.Query.{parse_question, encode_labels, make_query}
use native_dns.Dns.Query.Laid.{Laid, packet_of, question_of, IsLaid, parse_question-packet_of}

-- Labels of 63 bytes at most keep their length in one byte.
encode_labels-wire : (ls : List Text) → All (IsLabel false false) ls → encode_labels ls ≡ wire ls
unfolding encode_labels
encode_labels-wire [] good = refl
encode_labels-wire (l ∷ []) good =
    let small : length l % 256 ≡ length l = omega (arith, good.0.short) in
    rw (filled-is_empty l good.0.filled, small, append-nil)
encode_labels-wire (l ∷ m ∷ ls) good =
    let small : length l % 256 ≡ length l = omega (arith, good.0.short) in
    rw (small, encode_labels-wire (m ∷ ls) good.1)

-- The message that `make_query` writes for a canonical name.
abbrev query_laid : ℕ → ℕ → Text → List Text → Laid
query_laid id type first labels = record {
  id_high = id / 256 % 256;
  id_low = id % 256;
  flags_high = 1;
  flags_low = 0;
  count_high = 0;
  count_low = 1;
  answers_high = 0;
  answers_low = 0;
  authority_high = 0;
  authority_low = 0;
  additional_high = 0;
  additional_low = 0;
  first = first;
  labels = labels;
  type_high = type / 256 % 256;
  type_low = type % 256;
  class_high = 0;
  class_low = 1;
  rest = [];
}

length-query :
    (id type : ℕ) (first : Text) (labels : List Text)
    → length (packet_of (query_laid id type first labels)) ≡ 12 + length (wire (first ∷ labels)) + 5
length-query id type first labels =
    omega (
      arith,
      length-append (wire (first ∷ labels)) (0 ∷ type / 256 % 256 ∷ type % 256 ∷ 0 ∷ 1 ∷ []),
    )

query-IsLaid :
    (id type : ℕ) (first : Text) (labels : List Text)
    → All (IsLabel false false) (first ∷ labels)
    → length (join (first ∷ labels)) ≤ 253
    → IsLaid (query_laid id type first labels)
query-IsLaid id type first labels good bounded = record {
  good = good;
  bounded = bounded;
  single = refl;
  standard = refl;
  sized = omega (
    arith,
    length-query id type first labels,
    bounded,
    length-wire labels,
    length-append first (wire labels),
    length-append first (dotted labels),
  );
}

make_query-Laid :
    (id type : ℕ) (hostname r : Text) (c : IsCanonical false false r)
    → normalize_dns_name hostname false ≡ ok r
    → make_query id hostname type ≡ ok (packet_of (query_laid id type c.first c.labels))
unfolding make_query append_word
make_query-Laid id type hostname r c e =
    let pieces : split_dots r ≡ c.first ∷ c.labels =
      rw c.joined (split_dots-join false false c.first c.labels c.good) in
    let name = wire (c.first ∷ c.labels) in
    rw (e, pieces, encode_labels-wire (c.first ∷ c.labels) c.good)
      (ap (λ t. ok (id / 256 % 256 ∷ id % 256 ∷ 1 ∷ 0 ∷ 0 ∷ 1 ∷ 0 ∷ 0 ∷ 0 ∷ 0 ∷ 0 ∷ 0 ∷ t))
        (simp append_assoc))

question_of-query :
    (id type : ℕ) (host : Text) (c : IsCanonical false false host)
    → id < 65536
    → type < 65536
    → question_of (query_laid id type c.first c.labels) ≡ record {
      id = id;
      flags = 256;
      type = type;
      klass = 1;
      name = host;
      end = length (packet_of (query_laid id type c.first c.labels));
    }
question_of-query id type host c hi ht =
    let same_id : id / 256 % 256 * 256 + id % 256 ≡ id = omega arith in
    let same_type : type / 256 % 256 * 256 + type % 256 ≡ type = omega arith in
    rw (same_id, same_type, ← c.joined, length-query id type c.first c.labels)

-- A query that was built parses back to the identifier and type it was built from, the canonical
-- form of the name, class IN and the flags of a recursive query, and it ends where the packet ends.
pub parse_question-make_query :
    (id type : ℕ) (hostname host : Text)
    → id < 65536
    → type < 65536
    → normalize_dns_name hostname false ≡ ok host
    → (packet : Packet) × (make_query id hostname type ≡ ok packet)
      × (parse_question packet
          ≡ ok (record {
            id = id;
            flags = 256;
            type = type;
            klass = 1;
            name = host;
            end = length packet;
          }))
unfolding normalize_dns_name
parse_question-make_query id type hostname host hi ht e =
    let c : IsCanonical false false host =
      Safe-eq-ok (IsCanonical false false) _ (normalize-IsCanonical hostname false false) e in
    let m = query_laid id type c.first c.labels in
    let short : length (join (c.first ∷ c.labels)) ≤ 253 = rw (← c.joined) c.bounded in
    let parsed = parse_question-packet_of m (query-IsLaid id type c.first c.labels c.good short) in
    (
      packet_of m,
      make_query-Laid id type hostname host c e,
      parsed ∙ ap ok (question_of-query id type host c hi ht),
    )
