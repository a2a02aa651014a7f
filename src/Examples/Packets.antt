-- ===== src/Examples/Packets.antt =====
-- The theorems on messages at a query for the address of `a.b` and its response.
use native_dns.Prelude.{◌+◌}
use native_dns.Prelude.{
  ℕ, ◌≤◌, true, false, ◌≡◌, refl, List, [], ◌∷◌, ltb, all, length, Text, codes, lookup, text_eq,
  member, none, between, ok, Safe, arith,
}
use native_dns.Model.{nxdomain}
use native_dns.Rules.Names.{lower, normalize_label, normalize_dns_name}
use native_dns.Rules.Names.Canonical.{IsLabel, IsLabelByte}
use native_dns.Dns.Wire.{Packet, byte_at, is_short, word, name}
use native_dns.Dns.Wire.Bounds.{IsPacket, NameRead, name-Safe}
use native_dns.Dns.Query.{parse_question, make_query}
use native_dns.Dns.Query.Bounds.{QuestionRead, parse_question-Safe}
use native_dns.Dns.Query.Laid.{Laid, packet_of, question_of, IsLaid, parse_question-packet_of}
use native_dns.Dns.Query.RoundTrip.{parse_question-make_query}
use native_dns.Dns.Response.{
  edns_request, fill_response, reply_header, is_zeroed, add_opt, reply_flags, synthetic_response,
  make_error_response, make_block_response, client_udp_payload_size, fit_udp_response,
}
use native_dns.Dns.Response.Echo.{IsReplyFlags, parse_question-synthetic_response}
use native_dns.Dns.Response.Payload.{Announces}
use native_dns.Dns.Response.Fit.{Fits, fit_udp_response-Fits, made_response_bound}
use native_dns.Dns.Certificate.{be16, be32, skip_name}
use native_dns.Dns.Certificate.Bounds.{Within, skip_name-Safe}
use native_dns.Dns.Answer.{follow_from, follow_aliases, parse_response}
use native_dns.Dns.Answer.Bounds.{IsSound, parse_response-Safe}
use native_dns.Dns.Answer.Aliases.{follow_aliases-EndsWithin}

all-IsPacket : (p : Packet) → all (λ b. ltb b 256) p ≡ true → IsPacket p
all-IsPacket [] e = tt
all-IsPacket (b ∷ p) e = ground (arith, all-IsPacket p)

-- Identifier 0x1234, recursion desired, one question, and an OPT record.
abbrev pub asked : Laid
asked = record {
  id_high = 18;
  id_low = 52;
  flags_high = 1;
  flags_low = 0;
  count_high = 0;
  count_low = 1;
  answers_high = 0;
  answers_low = 0;
  authority_high = 0;
  authority_low = 0;
  additional_high = 0;
  additional_low = 1;
  first = codes "a";
  labels = codes "b" ∷ [];
  type_high = 0;
  type_low = 1;
  class_high = 0;
  class_low = 1;
  rest = 0 ∷ 0 ∷ 41 ∷ 4 ∷ 208 ∷ 0 ∷ 0 ∷ 128 ∷ 0 ∷ 0 ∷ 0 ∷ [];
}

abbrev pub request : Packet
request = packet_of asked

-- The reply with one address record, which lives for 300 seconds.
abbrev pub response : Packet
response = packet_of (record asked {
  flags_high = 129;
  flags_low = 128;
  answers_low = 1;
  additional_low = 0;
  rest = 192 ∷ 12 ∷ 0 ∷ 1 ∷ 0 ∷ 1 ∷ 0 ∷ 0 ∷ 1 ∷ 44 ∷ 0 ∷ 4 ∷ 1 ∷ 2 ∷ 3 ∷ 4 ∷ [];
})

pub request-IsPacket : IsPacket request
request-IsPacket = all-IsPacket request refl

pub response-IsPacket : IsPacket response
response-IsPacket = all-IsPacket response refl

label_byte : (c : ℕ) → between b'a' b'z' c ≡ true → IsLabelByte c
unfolding lower
label_byte c h = ground arith

one_letter-IsLabel : (c : ℕ) → between b'a' b'z' c ≡ true → IsLabel false false (c ∷ [])
unfolding normalize_label
one_letter-IsLabel c h = record {
  fixed = ground arith;
  bytes = (label_byte c h, tt);
  filled = omega arith;
  short = omega arith;
}

pub asked-IsLaid : IsLaid asked
asked-IsLaid = record {
  good = (one_letter-IsLabel b'a' refl, (one_letter-IsLabel b'b' refl, tt));
  bounded = omega arith;
  single = refl;
  standard = refl;
  sized = omega arith;
}

asked_name : normalize_dns_name (codes "A.b.") false ≡ ok (codes "a.b")
unfolding normalize_dns_name
asked_name = refl

parse_question-make_query_example :
    (packet : Packet) × (make_query 4660 (codes "A.b.") 1 ≡ ok packet)
    × (parse_question packet
        ≡ ok (record {
          id = 4660;
          flags = 256;
          type = 1;
          klass = 1;
          name = codes "a.b";
          end = length packet;
        }))
parse_question-make_query_example =
    parse_question-make_query 4660 1 (codes "A.b.") (codes "a.b") (omega arith) (omega arith)
      asked_name

parse_question-packet_of_example : parse_question request ≡ ok (question_of asked)
parse_question-packet_of_example = parse_question-packet_of asked asked-IsLaid

parse_question-Safe_example : Safe (QuestionRead request) (parse_question request)
parse_question-Safe_example = parse_question-Safe request request-IsPacket

name-Safe_example : Safe (NameRead response 21) (name response 21)
name-Safe_example = name-Safe response 21

-- The refusal of the name, with the client's OPT record answered.
abbrev refusal : Packet
refusal = packet_of (record asked {
  flags_high = 129;
  flags_low = 131;
  rest = 0 ∷ 0 ∷ 41 ∷ 4 ∷ 208 ∷ 0 ∷ 0 ∷ 128 ∷ 0 ∷ 0 ∷ 0 ∷ [];
})

refused : synthetic_response request 3 false ≡ ok refusal
unfolding synthetic_response parse_question word is_short byte_at name edns_request fill_response
    reply_header is_zeroed add_opt reply_flags
refused = refl

parse_question-synthetic_response_example :
    (flags : ℕ) × (parse_question refusal ≡ ok (record (question_of asked) { flags = flags }))
    × IsReplyFlags (question_of asked).flags 3 flags
parse_question-synthetic_response_example =
    parse_question-synthetic_response asked 3 false refusal asked-IsLaid refused

made_response_bound_example :
    Safe (λ r. length r ≤ 311) (make_error_response request 2)
    × Safe (λ r. length r ≤ 311) (make_block_response request nxdomain)
made_response_bound_example = made_response_bound request 2 nxdomain request-IsPacket

limited : client_udp_payload_size request ≡ ok 1232
unfolding client_udp_payload_size parse_question word is_short byte_at name edns_request
limited = refl

fit_udp_response-Fits_example :
    Announces request 1232 × Safe (Fits 1232 response) (fit_udp_response request response)
fit_udp_response-Fits_example =
    fit_udp_response-Fits request response 1232 request-IsPacket response-IsPacket limited

parse_response-Safe_example :
    Safe (IsSound (question_of asked)) (parse_response (λ p v6. p) response (question_of asked))
parse_response-Safe_example =
    parse_response-Safe (λ p v6. p) response (question_of asked) response-IsPacket

abbrev aliases : List (Text × Text)
aliases = (codes "a.b", codes "c.d") ∷ []

followed :
    follow_aliases 2 aliases (codes "a.b" ∷ []) (codes "a.b") ≡ ok (codes "c.d" ∷ codes "a.b" ∷ [])
unfolding follow_aliases follow_from lookup text_eq member
followed = refl

follow_aliases-EndsWithin_example :
    (last : Text) × (member last (codes "c.d" ∷ codes "a.b" ∷ []) ≡ true)
    × (lookup last aliases ≡ none)
follow_aliases-EndsWithin_example =
    follow_aliases-EndsWithin aliases (codes "a.b") (codes "c.d" ∷ codes "a.b" ∷ []) followed

skip_name-Safe_example :
    Safe (Within response 12) (skip_name response 12)
    × Safe (λ _. 12 + 2 ≤ length response) (be16 response 12)
    × Safe (λ _. 12 + 4 ≤ length response) (be32 response 12)
skip_name-Safe_example = skip_name-Safe response 12
