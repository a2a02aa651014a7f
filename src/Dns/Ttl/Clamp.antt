-- ===== src/Dns/Ttl/Clamp.antt =====
-- NativeDNS.Core/src/dns_packet.cpp: clamping the lifetimes keeps a response's shape.
use native_dns.Prelude.{
  ℕ, zero, suc, ◌+◌, ◌≤◌, ◌<◌, Bool, ◌||◌, refl, ◌∙◌, Option, none, some, List, [], ◌∷◌, ltb,
  if_cases, length, Text, Result, Safe, Safe-bind, Safe-throw_if, Safe-weaken,
}
use native_dns.Dns.Wire.{Packet}
use native_dns.Dns.Wire.Bounds.{IsPacket, NameRead, word-Safe, dword-Safe, name-Safe}
use native_dns.Dns.Query.Bounds.{QuestionRead, parse_question-Safe}
use native_dns.Dns.Answer.Bounds.{IsSound, parse_response-Safe}
use native_dns.Dns.Ttl.{
  is_signed, ttl_step, ttl_offsets, clamp, clamp_at, clamp_or_keep, clamp_dns_ttl,
}
use native_dns.Dns.Ttl.Age.{SameShape, put_dword-SameShape}

clamp_at-SameShape :
    (minimum maximum : ℕ) (offsets : List ℕ) (p : Packet)
    → IsPacket p
    → Safe (SameShape p) (clamp_at minimum maximum offsets p)
unfolding clamp_at
clamp_at-SameShape minimum maximum [] p bytes = (refl, bytes)
clamp_at-SameShape minimum maximum (offset ∷ offsets) p bytes =
    Safe-bind (λ w. (w < 4294967296) × (offset + 4 ≤ length p)) (SameShape p) _ _
      (dword-Safe p offset bytes)
      λ ttl (small, fits).
        Safe-bind (SameShape p) (SameShape p) _ _
          (put_dword-SameShape p offset (clamp ttl minimum maximum) bytes fits)
          λ next (same, kept).
            Safe-weaken (SameShape next) (SameShape p) _ (λ r (l, h). (l ∙ same, h))
              (clamp_at-SameShape minimum maximum offsets next kept)

ttl_step-Safe :
    (next : ℕ → List ℕ → Result (Option (List ℕ))) (type size at : ℕ) (offsets : List ℕ)
    → ((a : ℕ) (l : List ℕ) → Safe (λ _. Unit) (next a l))
    → Safe (λ _. Unit) (ttl_step next type size at offsets)
unfolding ttl_step
ttl_step-Safe next type size at offsets step =
    if_cases (Safe (λ _. Unit)) (is_signed type) (λ _. tt) (λ _. step _ _)

ttl_offsets-Safe :
    (n : ℕ) (p : Packet) (offset : ℕ) (offsets : List ℕ)
    → IsPacket p
    → Safe (λ _. Unit) (ttl_offsets n p offset offsets)
unfolding ttl_offsets
ttl_offsets-Safe zero p offset offsets bytes = tt
ttl_offsets-Safe (suc n) p offset offsets bytes =
    Safe-bind (NameRead p offset) (λ _. Unit) _ _ (name-Safe p offset)
      λ (owner, at) _.
        Safe-bind (λ w. (w < 65536) × (at + 2 ≤ length p)) (λ _. Unit) _ _ (word-Safe p at bytes)
          λ type _.
            Safe-bind (λ w. (w < 65536) × (at + 8 + 2 ≤ length p)) (λ _. Unit) _ _
              (word-Safe p (at + 8) bytes)
              λ size _.
                ttl_step-Safe (ttl_offsets n p) type size at offsets
                  (λ a l. ttl_offsets-Safe n p a l bytes)

clamp_or_keep-SameShape :
    (minimum maximum : ℕ) (response : Packet) (found : Option (List ℕ))
    → IsPacket response
    → Safe (SameShape response) (clamp_or_keep minimum maximum response found)
unfolding clamp_or_keep
clamp_or_keep-SameShape minimum maximum response none bytes = (refl, bytes)
clamp_or_keep-SameShape minimum maximum response (some offsets) bytes =
    clamp_at-SameShape minimum maximum offsets response bytes

pub clamp_dns_ttl-SameShape :
    (format_ip : Packet → Bool → Text) (response : Packet) (minimum maximum : ℕ)
    → IsPacket response
    → Safe (SameShape response) (clamp_dns_ttl format_ip response minimum maximum)
unfolding clamp_dns_ttl
clamp_dns_ttl-SameShape format_ip response minimum maximum bytes =
    let P = SameShape response in
    let Word = λ (i : ℕ) (w : ℕ). (w < 65536) × (i + 2 ≤ length response) in
    Safe-throw_if P (ltb maximum minimum) _ _ λ _.
      Safe-bind (QuestionRead response) P _ _ (parse_question-Safe response bytes) λ question _.
        Safe-bind (IsSound question) P _ _ (parse_response-Safe format_ip response question bytes)
          λ parsed _.
            if_cases (Safe P) (parsed.truncated || parsed.authenticated_data) (λ _. (refl, bytes))
              λ _. Safe-bind (Word 6) P _ _ (word-Safe response 6 bytes) λ answers _.
                Safe-bind (Word 8) P _ _ (word-Safe response 8 bytes) λ authority _.
                  Safe-bind (Word 10) P _ _ (word-Safe response 10 bytes) λ additional _.
                    Safe-bind (λ _. Unit) P _ _
                      (ttl_offsets-Safe (answers + authority + additional) response question.end []
                        bytes)
                      λ found _. clamp_or_keep-SameShape minimum maximum response found bytes
