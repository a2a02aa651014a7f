-- ===== src/Dns/Certificate.antt =====
-- NativeDNS.Core/src/dnscrypt.cpp: the fields and names of a certificate's response, `be16`, `be32`
-- and `skip_name`. The cryptography of the certificate is not part of this.
pub mod Bounds
use native_dns.Prelude.{
  ℕ, zero, suc, ◌+◌, ◌*◌, ◌/◌, ◌%◌, Bool, true, false, not, ◌&&◌, ◌||◌, List, [], ◌∷◌, ltb, leb,
  ◌==◌, if◌then◌else◌, length, codes, dns_malformed, other, Result, ok, err, ◌>>=◌, ◌>>◌, throw_if,
}
use native_dns.Dns.Wire.{Packet, byte_at}

unfoldable pub be16 : Packet → ℕ → Result ℕ
be16 bytes at = do
  throw_if (ltb (length bytes) (at + 2)) dns_malformed
  high ← byte_at bytes at
  low ← byte_at bytes (at + 1)
  ok (high * 256 + low)

unfoldable pub be32 : Packet → ℕ → Result ℕ
be32 bytes at = do
  throw_if (ltb (length bytes) (at + 4)) (other (codes "DNSCRYPT_CERT"))
  a ← byte_at bytes at
  b ← byte_at bytes (at + 1)
  c ← byte_at bytes (at + 2)
  d ← byte_at bytes (at + 3)
  ok (a * 16777216 + b * 65536 + c * 256 + d)

-- A round of the loop ends at an offset, or goes on from one.
pub data Skip : Type 0 where
  ended further : ℕ → Skip

-- A compression pointer, whose first byte stood at `at`.
unfoldable pub skip_pointer : Packet → ℕ → ℕ → Result Skip
skip_pointer packet at head = do
  throw_if (leb (length packet) (at + 1)) dns_malformed
  low ← byte_at packet (at + 1)
  let pointer = head % 64 * 256 + low
  throw_if (ltb pointer 12 || leb at pointer) dns_malformed
  ok (ended (at + 2))

-- A label, or the end of the name.
unfoldable pub skip_label : Packet → ℕ → ℕ → Result Skip
skip_label packet at size = do
  throw_if (not (size / 64 == 0)) dns_malformed
  if size == 0
      then ok (ended (at + 1))
      else throw_if (ltb 63 size || ltb (length packet) (at + 1 + size)) dns_malformed
        >> ok (further (at + 1 + size))

unfoldable pub skip_round : Packet → ℕ → Result Skip
skip_round packet at = do
  throw_if (leb (length packet) at) dns_malformed
  head ← byte_at packet at
  if head / 64 == 3 then skip_pointer packet at head else skip_label packet at head

unfoldable pub go_further : (ℕ → Result ℕ) → Skip → Result ℕ
go_further loop (ended at) = ok at
go_further loop (further at) = loop at

-- The loop, with the labels that are left.
unfoldable pub skip_loop : ℕ → Packet → ℕ → Result ℕ
skip_loop zero packet at = err dns_malformed
skip_loop (suc labels) packet at = skip_round packet at >>= go_further (skip_loop labels packet)

unfoldable pub skip_name : Packet → ℕ → Result ℕ
skip_name packet at = skip_loop 128 packet at
