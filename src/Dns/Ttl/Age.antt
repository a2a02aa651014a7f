-- ===== src/Dns/Ttl/Age.antt =====
-- NativeDNS.Core/src/dns_packet.cpp: ageing a response keeps its shape; by no time at all it changes
-- only the identifier.
use native_dns.Prelude.{
  ℕ, ◌+◌, ◌*◌, ◌/◌, ◌%◌, ◌≤◌, ◌<◌, ◌≡◌, ltb, if_cases, length, set, length-set, All-set, ok, Safe,
  Safe-bind, Safe-weaken, arith,
}
use native_dns.Dns.Wire.{Packet, byte_at, put_byte, put_dword}
use native_dns.Dns.Wire.Bounds.{IsPacket}

abbrev IsByte : ℕ → Type 0
IsByte b = b < 256

-- A packet of the same length.
abbrev pub SameShape : Packet → Packet → Type 0
SameShape p r = (length r ≡ length p) × IsPacket r

put_byte-SameShape :
    (p : Packet) (i v : ℕ) → IsPacket p → i < length p → Safe (SameShape p) (put_byte p i v)
unfolding put_byte
put_byte-SameShape p i v h lt =
    if_cases (Safe (SameShape p)) (ltb i (length p))
      (λ _. (length-set p i (v % 256), All-set (λ b. b < 256) p i (v % 256) (omega arith) h))
      (λ out. absurd (ground arith))

pub put_dword-SameShape :
    (p : Packet) (i v : ℕ) → IsPacket p → i + 4 ≤ length p → Safe (SameShape p) (put_dword p i v)
unfolding put_dword
put_dword-SameShape p i v h fits =
    Safe-bind (SameShape p) (SameShape p) _ _
      (put_byte-SameShape p i (v / 16777216) h (omega arith))
      λ p₁ (l₁, h₁).
        Safe-bind (SameShape p₁) (SameShape p) _ _
          (put_byte-SameShape p₁ (i + 1) (v / 65536) h₁ (omega (arith, l₁)))
          λ p₂ (l₂, h₂).
            Safe-bind (SameShape p₂) (SameShape p) _ _
              (put_byte-SameShape p₂ (i + 2) (v / 256) h₂ (omega (arith, l₁, l₂)))
              λ p₃ (l₃, h₃).
                Safe-weaken (SameShape p₃) (SameShape p) _
                  (λ r (l, h'). (omega (arith, l₁, l₂, l₃), h'))
                  (put_byte-SameShape p₃ (i + 3) v h₃ (omega (arith, l₁, l₂, l₃)))

-- The four bytes of a number that was read.
record Bytes4 (p : Packet) (i w : ℕ) : Type 0 where
  a : ℕ
  b : ℕ
  c : ℕ
  d : ℕ
  at₀ : byte_at p i ≡ ok a
  at₁ : byte_at p (i + 1) ≡ ok b
  at₂ : byte_at p (i + 2) ≡ ok c
  at₃ : byte_at p (i + 3) ≡ ok d
  small : (b < 256) × (c < 256) × (d < 256) × (a < 256)
  whole : w ≡ a * 16777216 + b * 65536 + c * 256 + d
  fits : i + 4 ≤ length p

-- The same shape, and the same packet where no time has passed.
abbrev pub Aged : Packet → ℕ → Packet → Type 0
Aged p elapsed r = SameShape p r × (elapsed ≡ 0 → r ≡ p)

-- A round's outcome: the aged packet, and an offset inside it.
abbrev StepsWithin : Packet → ℕ → Packet × ℕ → Type 0
StepsWithin p elapsed s = Aged p elapsed s.0 × (s.1 ≤ length p)

-- The packet `p` with another identifier.
abbrev pub with_id : Packet → ℕ → Packet
with_id p id = set (set p 0 (id / 256 % 256)) 1 (id % 256)
