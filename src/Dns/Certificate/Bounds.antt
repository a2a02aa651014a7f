-- ===== src/Dns/Certificate/Bounds.antt =====
-- NativeDNS.Core/src/dnscrypt.cpp: `be16`, `be32` and `skip_name` stay inside the packet.
use native_dns.Prelude.{
  ℕ, zero, suc, ◌+◌, ◌*◌, ◌/◌, ◌%◌, ◌≤◌, ◌<◌, not, ◌||◌, ltb, leb, ◌==◌, if_cases, length, Result,
  ok, Safe, Safe-bind, Safe-throw_if, Safe-weaken, arith,
}
use native_dns.Dns.Wire.{Packet}
use native_dns.Dns.Wire.Bounds.{byte_at-lt}
use native_dns.Dns.Certificate.{
  be16, be32, Skip, ended, further, skip_pointer, skip_label, skip_round, go_further, skip_loop,
  skip_name,
}

-- Behind where it began, and inside the packet.
abbrev pub Within : Packet → ℕ → ℕ → Type 0
Within packet at e = (at < e) × (e ≤ length packet)

abbrev Skipped : Packet → ℕ → Skip → Type 0
Skipped packet at (ended e) = Within packet at e
Skipped packet at (further e) = Within packet at e

skip_pointer-Safe :
    (packet : Packet) (at head : ℕ) → Safe (Skipped packet at) (skip_pointer packet at head)
unfolding skip_pointer
skip_pointer-Safe packet at head =
    Safe-throw_if (Skipped packet at) (leb (length packet) (at + 1)) _ _ λ here.
      Safe-bind (λ _. Unit) (Skipped packet at) _ _ (byte_at-lt packet (at + 1) (ground arith))
        λ low _.
          Safe-throw_if (Skipped packet at)
            (ltb (head % 64 * 256 + low) 12 || leb at (head % 64 * 256 + low)) _
            (ok (ended (at + 2))) λ _. (omega arith, ground arith)

skip_label-Safe :
    (packet : Packet) (at size : ℕ)
    → at < length packet
    → Safe (Skipped packet at) (skip_label packet at size)
unfolding skip_label
skip_label-Safe packet at size h = Safe-throw_if (Skipped packet at) (not (size / 64 == 0)) _ _ λ _.
    if_cases (Safe (Skipped packet at)) (size == 0) (λ _. (omega arith, omega (arith, h)))
      λ _.
        Safe-throw_if (Skipped packet at) (ltb 63 size || ltb (length packet) (at + 1 + size)) _
          (ok (further (at + 1 + size))) λ fits. (omega arith, ground arith)

skip_round-Safe : (packet : Packet) (at : ℕ) → Safe (Skipped packet at) (skip_round packet at)
unfolding skip_round
skip_round-Safe packet at = Safe-throw_if (Skipped packet at) (leb (length packet) at) _ _ λ here.
    Safe-bind (λ _. Unit) (Skipped packet at) _ _ (byte_at-lt packet at (ground arith))
      λ head _.
        if_cases (Safe (Skipped packet at)) (head / 64 == 3) (λ _. skip_pointer-Safe packet at head)
          (λ _. skip_label-Safe packet at head (ground arith))

go_further-Safe :
    (packet : Packet) (at : ℕ) (loop : ℕ → Result ℕ) (s : Skip)
    → ((from : ℕ) → Safe (Within packet from) (loop from))
    → Skipped packet at s
    → Safe (Within packet at) (go_further loop s)
unfolding go_further
go_further-Safe packet at loop (ended e) each i = i
go_further-Safe packet at loop (further e) each i =
    Safe-weaken (Within packet e) (Within packet at) _ (λ r w. (omega (arith, i.0, w.0), w.1))
      (each e)

skip_loop-Safe :
    (labels : ℕ) (packet : Packet) (at : ℕ) → Safe (Within packet at) (skip_loop labels packet at)
unfolding skip_loop
skip_loop-Safe zero packet at = tt
skip_loop-Safe (suc labels) packet at =
    Safe-bind (Skipped packet at) (Within packet at) _ _ (skip_round-Safe packet at) (λ s i.
      go_further-Safe packet at (skip_loop labels packet) s (skip_loop-Safe labels packet) i)

be32-Safe : (bytes : Packet) (at : ℕ) → Safe (λ _. at + 4 ≤ length bytes) (be32 bytes at)
unfolding be32
be32-Safe bytes at =
    Safe-throw_if (λ _. at + 4 ≤ length bytes) (ltb (length bytes) (at + 4)) _ _
      λ h.
        let inside : at + 4 ≤ length bytes = ground arith in
        Safe-bind (λ _. Unit) (λ _. at + 4 ≤ length bytes) _ _
          (byte_at-lt bytes at (omega (arith, inside)))
          λ a _.
            Safe-bind (λ _. Unit) (λ _. at + 4 ≤ length bytes) _ _
              (byte_at-lt bytes (at + 1) (omega (arith, inside)))
              λ b _.
                Safe-bind (λ _. Unit) (λ _. at + 4 ≤ length bytes) _ _
                  (byte_at-lt bytes (at + 2) (omega (arith, inside)))
                  λ c _.
                    Safe-bind (λ _. Unit) (λ _. at + 4 ≤ length bytes) _ _
                      (byte_at-lt bytes (at + 3) (omega (arith, inside))) λ d _. inside

be16-Safe : (bytes : Packet) (at : ℕ) → Safe (λ _. at + 2 ≤ length bytes) (be16 bytes at)
unfolding be16
be16-Safe bytes at =
    Safe-throw_if (λ _. at + 2 ≤ length bytes) (ltb (length bytes) (at + 2)) _ _
      λ h.
        let inside : at + 2 ≤ length bytes = ground arith in
        Safe-bind (λ _. Unit) (λ _. at + 2 ≤ length bytes) _ _
          (byte_at-lt bytes at (omega (arith, inside)))
          λ a _.
            Safe-bind (λ _. Unit) (λ _. at + 2 ≤ length bytes) _ _
              (byte_at-lt bytes (at + 1) (omega (arith, inside))) λ b _. inside

-- Skipping a name and reading the fields behind it never leaves the packet: the offset behind the
-- name is past its start and inside the packet, and a field that is read lies inside it.
pub skip_name-Safe :
    (packet : Packet) (at : ℕ)
    → Safe (Within packet at) (skip_name packet at)
      × Safe (λ _. at + 2 ≤ length packet) (be16 packet at)
      × Safe (λ _. at + 4 ≤ length packet) (be32 packet at)
unfolding skip_name
skip_name-Safe packet at = (skip_loop-Safe 128 packet at, be16-Safe packet at, be32-Safe packet at)
