-- ===== src/Dns/Answer.antt =====
-- NativeDNS.Core/src/dns_packet.cpp: `parse_response`. `format_ip` stands for the platform's
-- rendering of an address, which calls the operating system.

pub mod Bounds
pub mod Aliases
use native_dns.Prelude.{
  ℕ, zero, suc, ◌+◌, ◌-◌, ◌*◌, ◌%◌, min, Bool, true, false, not, ◌&&◌, ◌||◌, Option, none, some,
  List, [], ◌∷◌, ◌++◌, map, ltb, ◌==◌, if◌then◌else◌, has_bit, length, take, drop, any, erase_if,
  is_empty, Text, text_eq, lookup, insert, member, dns_malformed, dns_mismatch, Result, ok, err,
  ◌>>=◌, ◌>>◌, throw_if,
}
use native_dns.Dns.Wire.{Packet, byte_at, word, dword, name}
use native_dns.Dns.Query.{Question, parse_question}
use native_dns.Dns.Response.{answers_question}

pub record DnsAnswer : Type 0 where
  pub rcode : ℕ
  pub truncated : Bool
  pub authenticated_data : Bool
  pub addresses : List Text
  pub cache_ttl : ℕ
  pub cacheable : Bool

-- The largest `uint32_t` stands for no lifetime.
abbrev pub no_ttl : ℕ
no_ttl = 4294967295

-- The variables of the loop over the records.
pub record Scan : Type 0 where
  pub rcode : ℕ
  pub addresses : List (Text × Text)
  pub aliases : List (Text × Text)
  pub opt_seen : Bool
  pub requested_answer : Bool
  pub transaction_signed : Bool
  pub positive_ttl : ℕ
  pub negative_ttl : ℕ

-- The fields of one record; its data stands at `at + 10`.
pub record Resource : Type 0 where
  pub owner : Text
  pub at : ℕ
  pub type : ℕ
  pub klass : ℕ
  pub size : ℕ
  pub ttl : ℕ

-- Which section a record stands in.
pub record Section : Type 0 where
  pub is_answer : Bool
  pub is_authority : Bool

unfoldable pub read_resource : Packet → ℕ → Result Resource
read_resource packet offset = do
  (owner, at) ← name packet offset
  type ← word packet at
  klass ← word packet (at + 2)
  size ← word packet (at + 8)
  ttl ← dword packet (at + 4)
  throw_if (ltb (length packet - at) 10) dns_malformed
  throw_if (ltb (length packet - (at + 10)) size) dns_malformed
  throw_if ((type == 1 && not (size == 4)) || (type == 28 && not (size == 16))) dns_malformed
  ok (record { owner = owner; at = at; type = type; klass = klass; size = size; ttl = ttl })

unfoldable pub is_address : Resource → Bool
is_address r = r.type == 1 || r.type == 28

-- A record that names another: NS, CNAME and PTR.
unfoldable pub read_target : Packet → Section → Scan → Resource → Result Scan
read_target packet place s r = do
  (target, next) ← name packet (r.at + 10)
  throw_if (not (next == r.at + 10 + r.size)) dns_malformed
  ok (
      if r.type == 5 && r.klass == 1 && place.is_answer
      then record s { aliases = insert r.owner target s.aliases }
      else s)

-- `answer.rcode | (packet[at + 4] << 4)`: the lower four bits were set before, the others not.
unfoldable pub read_options : Packet → Section → Scan → Resource → Result Scan
read_options packet place s r = do
  throw_if (s.opt_seen || not (is_empty r.owner) || place.is_answer || place.is_authority)
      dns_malformed
  high ← byte_at packet (r.at + 4)
  ok (record s { opt_seen = true; rcode = s.rcode + high * 16 })

-- `if (i < answers && type != 41)`, and the test of the signature types behind it.
unfoldable pub count_lifetime : Section → Question → Scan → Resource → Scan
count_lifetime place expected s r =
    let counted = place.is_answer && not (r.type == 41) in
    record s {
      positive_ttl = if counted then min s.positive_ttl r.ttl else s.positive_ttl;
      requested_answer =
          s.requested_answer || (counted && r.type == expected.type && r.klass == expected.klass);
      transaction_signed = s.transaction_signed || r.type == 249 || r.type == 250;
    }

-- The SOA record of a negative answer.
unfoldable pub read_soa : Packet → Scan → Resource → Result Scan
read_soa packet s r = do
  (_, middle) ← name packet (r.at + 10)
  (_, soa) ← name packet middle
  throw_if (ltb (r.at + 10 + r.size) soa || not (r.at + 10 + r.size - soa == 20)) dns_malformed
  minimum ← dword packet (soa + 16)
  ok (record s { negative_ttl = min s.negative_ttl (min r.ttl minimum) })

unfoldable pub is_soa : Section → Question → Resource → Bool
is_soa place expected r = r.type == 6 && place.is_authority && r.klass == expected.klass

abbrev pub no_ttl_scan : ℕ → Scan
no_ttl_scan rcode = record {
  rcode = rcode;
  addresses = [];
  aliases = [];
  opt_seen = false;
  requested_answer = false;
  transaction_signed = false;
  positive_ttl = no_ttl;
  negative_ttl = no_ttl;
}

unfoldable pub follow_from :
    (List Text → Text → Result (List Text)) → List Text → Option Text → Result (List Text)
follow_from next reachable none = ok reachable
follow_from next reachable (some target) =
    if member target reachable then err dns_malformed else next (target ∷ reachable) target

-- One round of `for (size_t i = 0; i <= aliases.size(); ++i)`; the first argument counts the
-- rounds that are left.
unfoldable pub follow_aliases : ℕ → List (Text × Text) → List Text → Text → Result (List Text)
follow_aliases zero aliases reachable current = ok reachable
follow_aliases (suc n) aliases reachable current =
    follow_from (follow_aliases n aliases) reachable (lookup current aliases)

-- The addresses whose owner the question reaches.
unfoldable pub reached : List Text → List (Text × Text) → List Text
reached reachable [] = []
reached reachable ((owner, value) ∷ rest) =
    let others = reached reachable rest in if member owner reachable then value ∷ others else others

-- The end of `parse_response`: which lifetime counts, and whether there is one.
unfoldable pub is_negative : Scan → Bool
is_negative s =
    s.rcode == 3 || (s.rcode == 0 && not s.requested_answer && not (s.negative_ttl == no_ttl))

unfoldable pub lifetime : Scan → ℕ
lifetime s = if is_negative s then s.negative_ttl else s.positive_ttl

unfoldable pub is_cacheable : Question → Scan → Bool
is_cacheable expected s =
    not s.transaction_signed
    && not (expected.type == 251)
    && not (expected.type == 252)
    && (s.rcode == 0 || s.rcode == 3)
    && not (lifetime s == no_ttl)
    && not (lifetime s == 0)

-- The section of the record with index `i`.
abbrev pub section_of : ℕ → ℕ → ℕ → Section
section_of answers authority i = record {
  is_answer = ltb i answers;
  is_authority = not (ltb i answers) && ltb i (answers + authority);
}

module _ (format_ip : Packet → Bool → Text) where
  unfoldable pub add_address : Packet → Scan → Resource → Scan
  add_address packet s r =
      let value = format_ip (take r.size (drop (r.at + 10) packet)) (r.type == 28) in
      record s { addresses = s.addresses ++ (r.owner, value) ∷ [] }

  -- The ladder over the record's type.
  unfoldable pub read_data : Packet → Section → Question → Scan → Resource → Result Scan
  read_data packet place expected s r =
      if is_address r && r.klass == 1 && place.is_answer && r.type == expected.type
      then ok (add_address packet s r)
      else if r.type == 5 || r.type == 2 || r.type == 12
      then read_target packet place s r
      else if r.type == 41
      then read_options packet place s r
      else ok s

  -- One round of the loop over the records.
  unfoldable pub scan_record : Packet → Section → Question → Scan → ℕ → Result (Scan × ℕ)
  scan_record packet place expected s offset = do
    r ← read_resource packet offset
    s₁ ← read_data packet place expected s r
    let s₂ = count_lifetime place expected s₁ r
    s₃ ← if is_soa place expected r then read_soa packet s₂ r else ok s₂
    ok (s₃, r.at + 10 + r.size)

  unfoldable pub scan_records : ℕ → Packet → ℕ → ℕ → Question → ℕ → Scan → ℕ → Result (Scan × ℕ)
  scan_records zero packet answers authority expected i s at = ok (s, at)
  scan_records (suc n) packet answers authority expected i s at = do
    (next, behind) ← scan_record packet (section_of answers authority i) expected s at
    scan_records n packet answers authority expected (i + 1) next behind

  -- What follows the test of `truncated`.
  unfoldable pub parse_records : Packet → Question → Question → Result DnsAnswer
  parse_records packet q expected = do
    answers ← word packet 6
    authority ← word packet 8
    additional ← word packet 10
    throw_if (ltb 4096 (answers + authority + additional)) dns_malformed
    (s, at) ←
        scan_records (answers + authority + additional) packet answers authority expected 0
          (no_ttl_scan (q.flags % 16)) q.end
    throw_if (not (at == length packet)) dns_malformed
    reachable ← follow_aliases (length s.aliases + 1) s.aliases (expected.name ∷ []) expected.name
    ok (record {
      rcode = s.rcode;
      truncated = false;
      authenticated_data = has_bit q.flags 32;
      addresses = reached reachable s.addresses;
      cache_ttl = if is_cacheable expected s then lifetime s else 0;
      cacheable = is_cacheable expected s;
    })

  unfoldable pub parse_response : Packet → Question → Result DnsAnswer
  parse_response packet expected = do
    q ← parse_question packet
    throw_if (not (answers_question q expected)) dns_mismatch
    if has_bit q.flags 512
        then ok (record {
          rcode = q.flags % 16;
          truncated = true;
          authenticated_data = has_bit q.flags 32;
          addresses = [];
          cache_ttl = 0;
          cacheable = false;
        })
        else parse_records packet q expected
