-- ===== src/Dns/Answer/Bounds.antt =====
-- NativeDNS.Core/src/dns_packet.cpp: `parse_response` stays inside the packet, and what it says may
-- be cached.
use native_dns.Prelude.{
  ℕ, zero, suc, ◌+◌, ◌-◌, ◌%◌, ◌≤◌, ◌<◌, Bool, true, false, not, ◌&&◌, ◌||◌, ◌≡◌, ◌≢◌, refl, ◌⊎◌,
  inl, inr, List, [], ◌∷◌, ltb, ◌==◌, if◌then◌else◌, if_cases, Option-cases, has_bit, length,
  is_empty, Text, member, lookup, Safe, Safe-bind, Safe-throw_if, arith,
}
use native_dns.Dns.Wire.{Packet}
use native_dns.Dns.Wire.Bounds.{IsPacket, NameRead, byte_at-Safe, word-Safe, dword-Safe, name-Safe}
use native_dns.Dns.Query.{Question}
use native_dns.Dns.Query.Bounds.{QuestionRead, IsField, parse_question-Safe}
use native_dns.Dns.Response.{answers_question}
use native_dns.Dns.Answer.{
  DnsAnswer, no_ttl, Scan, Resource, Section, read_resource, is_address, read_target, read_options,
  count_lifetime, read_soa, is_soa, no_ttl_scan, follow_from, follow_aliases, lifetime,
  is_cacheable, add_address, read_data, scan_record, section_of, scan_records, parse_records,
  parse_response,
}

abbrev pub IsLong : Packet → ℕ → ℕ → Type 0
IsLong p at w = (w < 4294967296) × (at + 4 ≤ length p)

-- A record whose fields and data lie in the packet.
pub record ResourceRead (p : Packet) (r : Resource) : Type 0 where
  pub inside : r.at + 10 + r.size ≤ length p
  pub ttl_long : r.ttl < 4294967296

-- Lifetimes are `uint32_t`s.
pub record ScanInv (s : Scan) : Type 0 where
  pub positive_long : s.positive_ttl ≤ no_ttl
  pub negative_long : s.negative_ttl ≤ no_ttl

module _ (p : Packet) (v : IsPacket p) where
  pub read_resource-Safe : (offset : ℕ) → Safe (ResourceRead p) (read_resource p offset)
  unfolding read_resource
  read_resource-Safe offset =
      Safe-bind (NameRead p offset) (ResourceRead p) _ _ (name-Safe p offset) λ (owner, at) n.
        Safe-bind (IsField p at) (ResourceRead p) _ _ (word-Safe p at v) λ type _.
          Safe-bind (IsField p (at + 2)) (ResourceRead p) _ _ (word-Safe p (at + 2) v) λ klass _.
            Safe-bind (IsField p (at + 8)) (ResourceRead p) _ _ (word-Safe p (at + 8) v) λ size s.
              Safe-bind (IsLong p (at + 4)) (ResourceRead p) _ _ (dword-Safe p (at + 4) v) λ ttl t.
                Safe-throw_if (ResourceRead p) (ltb (length p - at) 10) _ _ λ _.
                  Safe-throw_if (ResourceRead p) (ltb (length p - (at + 10)) size) _ _ λ fits.
                    Safe-throw_if (ResourceRead p)
                      ((type == 1 && not (size == 4)) || (type == 28 && not (size == 16))) _ _
                      λ _. record { inside = ground arith; ttl_long = t.0 }

  module _ (place : Section) (s : Scan) (r : Resource) (i : ScanInv s) (w : ResourceRead p r) where
    read_target-Safe : Safe ScanInv (read_target p place s r)
    unfolding read_target
    read_target-Safe =
        Safe-bind (NameRead p (r.at + 10)) ScanInv _ _ (name-Safe p (r.at + 10)) λ (target, next) _.
          Safe-throw_if ScanInv (not (next == r.at + 10 + r.size)) _ _ λ _.
            if_cases ScanInv (r.type == 5 && r.klass == 1 && place.is_answer)
              (λ _. record { positive_long = i.positive_long; negative_long = i.negative_long })
              (λ _. i)

    read_options-Safe : Safe ScanInv (read_options p place s r)
    unfolding read_options
    read_options-Safe =
        Safe-throw_if ScanInv
          (s.opt_seen || not (is_empty r.owner) || place.is_answer || place.is_authority) _ _
          λ _.
            Safe-bind (λ b. b < 256) ScanInv _ _ (byte_at-Safe p (r.at + 4) v (omega arith))
              λ high _. record { positive_long = i.positive_long; negative_long = i.negative_long }

    count_lifetime-ScanInv : (expected : Question) → ScanInv (count_lifetime place expected s r)
    unfolding count_lifetime
    count_lifetime-ScanInv expected = record {
      positive_long = ground arith;
      negative_long = i.negative_long;
    }

    read_soa-Safe : Safe ScanInv (read_soa p s r)
    unfolding read_soa
    read_soa-Safe =
        Safe-bind (NameRead p (r.at + 10)) ScanInv _ _ (name-Safe p (r.at + 10)) λ (_, middle) _.
          Safe-bind (NameRead p middle) ScanInv _ _ (name-Safe p middle) λ (_, soa) _.
            Safe-throw_if ScanInv
              (ltb (r.at + 10 + r.size) soa || not (r.at + 10 + r.size - soa == 20)) _ _
              λ _.
                Safe-bind (IsLong p (soa + 16)) ScanInv _ _ (dword-Safe p (soa + 16) v) λ minimum _.
                  record {
                    positive_long = i.positive_long;
                    negative_long = omega (arith, i.negative_long);
                  }

    module _ (format_ip : Packet → Bool → Text) (expected : Question) where
      read_data-Safe : Safe ScanInv (read_data format_ip p place expected s r)
      unfolding read_data add_address
      read_data-Safe =
          if_cases (Safe ScanInv)
            (is_address r && r.klass == 1 && place.is_answer && r.type == expected.type)
            (λ _. record { positive_long = i.positive_long; negative_long = i.negative_long })
            λ _.
              if_cases (Safe ScanInv) (r.type == 5 || r.type == 2 || r.type == 12)
                (λ _. read_target-Safe)
                λ _. if_cases (Safe ScanInv) (r.type == 41) (λ _. read_options-Safe) (λ _. i)

  abbrev RecordInv : Scan × ℕ → Type 0
  RecordInv s = ScanInv s.0 × (s.1 ≤ length p)

  module _ (format_ip : Packet → Bool → Text) (expected : Question) where
    scan_record-Safe :
        (place : Section) (s : Scan) (offset : ℕ)
        → ScanInv s
        → Safe RecordInv (scan_record format_ip p place expected s offset)
    unfolding scan_record
    scan_record-Safe place s offset i =
        Safe-bind (ResourceRead p) RecordInv _ _ (read_resource-Safe offset) λ r w.
          Safe-bind ScanInv RecordInv _ _ (read_data-Safe place s r i w format_ip expected) λ s₁ i₁.
            let i₂ = count_lifetime-ScanInv place s₁ r i₁ w expected in
            Safe-bind ScanInv RecordInv _ _
              (if_cases (Safe ScanInv) (is_soa place expected r)
                (λ _. read_soa-Safe place (count_lifetime place expected s₁ r) r i₂ w) (λ _. i₂))
              λ s₃ i₃. (i₃, w.inside)

    scan_records-Safe :
        (n answers authority i : ℕ) (s : Scan) (at : ℕ)
        → ScanInv s
        → at ≤ length p
        → Safe RecordInv (scan_records format_ip n p answers authority expected i s at)
    unfolding scan_records
    scan_records-Safe zero answers authority i s at inv h = (inv, h)
    scan_records-Safe (suc n) answers authority i s at inv h =
        Safe-bind RecordInv RecordInv _ _
          (scan_record-Safe (section_of answers authority i) s at inv)
          λ (next, behind) (inv', h').
            scan_records-Safe n answers authority (i + 1) next behind inv' h'

-- What holds of an answer: a lifetime is given exactly when it may be cached, and then it is a
-- real one, of a complete and unsigned answer that is positive or says that the name is missing.
pub record IsSound (expected : Question) (a : DnsAnswer) : Type 0 where
  pub cached : a.cacheable ≡ true → (0 < a.cache_ttl) × (a.cache_ttl < no_ttl)
  pub complete : a.cacheable ≡ true → a.truncated ≡ false
  pub settled : a.cacheable ≡ true → (a.rcode ≡ 0) ⊎ (a.rcode ≡ 3)
  pub no_transfer : a.cacheable ≡ true → (expected.type ≢ 251) × (expected.type ≢ 252)
  pub uncached : a.cacheable ≡ false → a.cache_ttl ≡ 0

follow_aliases-Safe :
    (n : ℕ) (aliases : List (Text × Text)) (reachable : List Text) (current : Text)
    → Safe (λ _. Unit) (follow_aliases n aliases reachable current)
unfolding follow_aliases follow_from
follow_aliases-Safe zero aliases reachable current = tt
follow_aliases-Safe (suc n) aliases reachable current =
    elim (Option-cases (lookup current aliases)) [
      | inl end ↦ rw end tt
      | inr (target, more) ↦ rw more (
          if_cases (Safe (λ _. Unit)) (member target reachable) (λ _. tt)
            λ _. follow_aliases-Safe n aliases (target ∷ reachable) target)
    ]

module _ (expected : Question) (s : Scan) (i : ScanInv s) where
  abbrev given : ℕ
  given = if is_cacheable expected s then lifetime s else 0

  lifetime-le : lifetime s ≤ no_ttl
  unfolding lifetime
  lifetime-le = ground (arith, i.positive_long, i.negative_long)

  cacheable_lem :
      is_cacheable expected s ≡ true
      → (0 < lifetime s)
        × (lifetime s < no_ttl)
        × ((s.rcode ≡ 0) ⊎ (s.rcode ≡ 3))
        × (expected.type ≢ 251)
        × (expected.type ≢ 252)
  unfolding is_cacheable
  cacheable_lem h = ground (arith, lifetime-le)

  given-IsSound :
      (addresses : List Text) (ad : Bool)
      → IsSound expected (record {
        rcode = s.rcode;
        truncated = false;
        authenticated_data = ad;
        addresses = addresses;
        cache_ttl = given;
        cacheable = is_cacheable expected s;
      })
  given-IsSound addresses ad = record {
    cached = λ h. let (pos, real, _, _, _) = cacheable_lem h in rw h (pos, real);
    complete = λ _. refl;
    settled = λ h. (cacheable_lem h).2;
    no_transfer = λ h. ((cacheable_lem h).3, (cacheable_lem h).4);
    uncached = λ h. rw h;
  }

parse_records-Safe :
    (format_ip : Packet → Bool → Text) (packet : Packet) (q expected : Question)
    → IsPacket packet
    → QuestionRead packet q
    → Safe (IsSound expected) (parse_records format_ip packet q expected)
unfolding parse_records
parse_records-Safe format_ip packet q expected v read =
    Safe-bind (IsField packet 6) (IsSound expected) _ _ (word-Safe packet 6 v) λ answers _.
      Safe-bind (IsField packet 8) (IsSound expected) _ _ (word-Safe packet 8 v) λ authority _.
        Safe-bind (IsField packet 10) (IsSound expected) _ _ (word-Safe packet 10 v) λ additional _.
          Safe-throw_if (IsSound expected) (ltb 4096 (answers + authority + additional)) _ _ λ _.
            Safe-bind (RecordInv packet v) (IsSound expected) _ _
              (scan_records-Safe packet v format_ip expected (answers + authority + additional)
                answers authority 0 (no_ttl_scan (q.flags % 16)) q.end
                (record { positive_long = omega arith; negative_long = omega arith }) read.inside)
              λ (s, at) (i, _).
                Safe-throw_if (IsSound expected) (not (at == length packet)) _ _ λ _.
                  Safe-bind (λ _. Unit) (IsSound expected) _ _
                    (follow_aliases-Safe (length s.aliases + 1) s.aliases (expected.name ∷ [])
                      expected.name)
                    λ reachable _. given-IsSound expected s i _ _

-- Reading a response never faults, and what it says about caching is sound.
pub parse_response-Safe :
    (format_ip : Packet → Bool → Text) (packet : Packet) (expected : Question)
    → IsPacket packet
    → Safe (IsSound expected) (parse_response format_ip packet expected)
unfolding parse_response parse_records
parse_response-Safe format_ip packet expected v =
    Safe-bind (QuestionRead packet) (IsSound expected) _ _ (parse_question-Safe packet v) λ q read.
      Safe-throw_if (IsSound expected) (not (answers_question q expected)) _ _ λ _.
        if_cases (Safe (IsSound expected)) (has_bit q.flags 512)
          (λ _. record {
            cached = λ h. cc;
            complete = λ h. cc;
            settled = λ h. cc;
            no_transfer = λ h. cc;
            uncached = λ _. refl;
          })
          λ _. parse_records-Safe format_ip packet q expected v read
