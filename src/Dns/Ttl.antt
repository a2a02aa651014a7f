-- ===== src/Dns/Ttl.antt =====
-- NativeDNS.Core/src/dns_packet.cpp: `clamp_dns_ttl` and `age_dns_response` rewrite the lifetimes
-- of the records of a response.
pub mod Age
pub mod Clamp
use native_dns.Prelude.{
  ℕ, zero, suc, ◌+◌, ◌-◌, ◌/◌, min, max, Bool, true, false, not, ◌&&◌, ◌||◌, List, [], ◌∷◌, ◌++◌,
  ltb, ◌==◌, if◌then◌else◌, has_bit, length, Text, dns_malformed, config_setting, Option, none,
  some, Result, ok, err, ◌>>=◌, ◌>>◌, throw_if,
}
use native_dns.Dns.Wire.{Packet, put_byte, word, dword, put_dword, name}
use native_dns.Dns.Query.{Question, parse_question}
use native_dns.Dns.Answer.{DnsAnswer, parse_response}

-- `types 46, 249 and 250`: signed data keeps its lifetime.
unfoldable pub is_signed : ℕ → Bool
is_signed type = type == 46 || type == 249 || type == 250

-- What a round does with a record of type `type`.
unfoldable pub ttl_step :
    (ℕ → List ℕ → Result (Option (List ℕ))) → ℕ → ℕ → ℕ → List ℕ → Result (Option (List ℕ))
ttl_step next type size at offsets =
    if is_signed type
    then ok none
    else next (at + 10 + size) (if type == 41 then offsets else offsets ++ (at + 4) ∷ [])

-- The loop that collects where the lifetimes stand; `none` when a record is signed.
unfoldable pub ttl_offsets : ℕ → Packet → ℕ → List ℕ → Result (Option (List ℕ))
ttl_offsets zero p at offsets = ok (some offsets)
ttl_offsets (suc n) p offset offsets = do
  (_, at) ← name p offset
  type ← word p at
  size ← word p (at + 8)
  ttl_step (ttl_offsets n p) type size at offsets

-- `std::clamp(value, minimum, maximum)`
abbrev pub clamp : ℕ → ℕ → ℕ → ℕ
clamp value minimum maximum =
    if ltb value minimum then minimum else if ltb maximum value then maximum else value

unfoldable pub clamp_at : ℕ → ℕ → List ℕ → Packet → Result Packet
clamp_at minimum maximum [] p = ok p
clamp_at minimum maximum (offset ∷ offsets) p = do
  ttl ← dword p offset
  next ← put_dword p offset (clamp ttl minimum maximum)
  clamp_at minimum maximum offsets next

unfoldable pub clamp_or_keep : ℕ → ℕ → Packet → Option (List ℕ) → Result Packet
clamp_or_keep minimum maximum response none = ok response
clamp_or_keep minimum maximum response (some offsets) = clamp_at minimum maximum offsets response

module _ (format_ip : Packet → Bool → Text) where
  unfoldable pub clamp_dns_ttl : Packet → ℕ → ℕ → Result Packet
  clamp_dns_ttl response minimum maximum = do
    throw_if (ltb maximum minimum) config_setting
    question ← parse_question response
    parsed ← parse_response format_ip response question
    if parsed.truncated || parsed.authenticated_data then ok response else do
      answers ← word response 6
      authority ← word response 8
      additional ← word response 10
      found ← ttl_offsets (answers + authority + additional) response question.end []
      clamp_or_keep minimum maximum response found

-- `ttl > elapsed_seconds ? ttl - elapsed_seconds : 0`
abbrev pub aged : ℕ → ℕ → ℕ
aged ttl elapsed = if ltb elapsed ttl then ttl - elapsed else 0

-- The branch `if (type != 41)`.
unfoldable pub age_ttl : Packet → ℕ → ℕ → ℕ → Result Packet
age_ttl p type at elapsed =
    if type == 41 then ok p else do ttl ← dword p (at + 4); put_dword p (at + 4) (aged ttl elapsed)

-- One round of the loop over the records.
unfoldable pub age_record : Packet → ℕ → ℕ → Result (Packet × ℕ)
age_record p offset elapsed = do
  (_, at) ← name p offset
  type ← word p at
  size ← word p (at + 8)
  throw_if (ltb (length p - at) 10 || ltb (length p - (at + 10)) size) dns_malformed
  next ← age_ttl p type at elapsed
  ok (next, at + 10 + size)

unfoldable pub age_records : ℕ → Packet → ℕ → ℕ → Result (Packet × ℕ)
age_records zero p at elapsed = ok (p, at)
age_records (suc n) p at elapsed = do
  (next, behind) ← age_record p at elapsed
  age_records n next behind elapsed

unfoldable pub age_dns_response : Packet → ℕ → ℕ → Result Packet
age_dns_response response transaction_id elapsed = do
  question ← parse_question response
  throw_if (not (has_bit question.flags 32768)) dns_malformed
  p₁ ← put_byte response 0 (transaction_id / 256)
  p₂ ← put_byte p₁ 1 transaction_id
  answers ← word p₂ 6
  authority ← word p₂ 8
  additional ← word p₂ 10
  throw_if (ltb 4096 (answers + authority + additional)) dns_malformed
  (p, at) ← age_records (answers + authority + additional) p₂ question.end elapsed
  throw_if (not (at == length p)) dns_malformed
  ok p
