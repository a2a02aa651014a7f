-- ===== src/Dns/Wire.antt =====
-- NativeDNS.Core/src/dns_packet.cpp: the big-endian fields of a packet and compressed names.
-- A byte is a number below 256. The source's bit tests are written as arithmetic: `x & 0xc0` is
-- nonzero when `x / 64` is, `(x & 0x3f) << 8 | y` is `x % 64 * 256 + y`.
pub mod Bounds
pub mod Layout
use native_dns.Prelude.{
  ℕ, zero, suc, ◌+◌, ◌-◌, ◌*◌, ◌/◌, ◌%◌, Bool, true, false, not, ◌&&◌, ◌||◌, Option, none, some,
  List, [], ◌∷◌, ◌++◌, ltb, leb, ◌==◌, if◌then◌else◌, between, length, get_elem?, set, is_empty,
  Text, Code, dns_malformed, Result, ok, err, fault, ◌>>=◌, ◌>>◌, throw_if,
}

abbrev pub Packet : Type 0
Packet = List ℕ

-- `p[i]`, undefined past the end
unfoldable pub byte_at : Packet → ℕ → Result ℕ
byte_at p i = elim (get_elem? p i) [ none ↦ fault | some b ↦ ok b ]

-- `p[i] = static_cast<uint8_t>(v)`, undefined past the end
unfoldable pub put_byte : Packet → ℕ → ℕ → Result Packet
put_byte p i v = if ltb i (length p) then ok (set p i (v % 256)) else fault

-- `offset > p.size() || p.size() - offset < n`
unfoldable pub is_short : Packet → ℕ → ℕ → Bool
is_short p offset n = ltb (length p) offset || ltb (length p - offset) n

unfoldable pub word : Packet → ℕ → Result ℕ
word p offset = do
  throw_if (is_short p offset 2) dns_malformed
  high ← byte_at p offset
  low ← byte_at p (offset + 1)
  ok (high * 256 + low)

unfoldable pub dword : Packet → ℕ → Result ℕ
dword p offset = do
  throw_if (is_short p offset 4) dns_malformed
  a ← byte_at p offset
  b ← byte_at p (offset + 1)
  c ← byte_at p (offset + 2)
  d ← byte_at p (offset + 3)
  ok (a * 16777216 + b * 65536 + c * 256 + d)

unfoldable pub put_dword : Packet → ℕ → ℕ → Result Packet
put_dword p offset value = do
  p₁ ← put_byte p offset (value / 16777216)
  p₂ ← put_byte p₁ (offset + 1) (value / 65536)
  p₃ ← put_byte p₂ (offset + 2) (value / 256)
  put_byte p₃ (offset + 3) value

abbrev pub word_bytes : ℕ → Packet
word_bytes value = value / 256 % 256 ∷ value % 256 ∷ []

unfoldable pub append_word : Packet → ℕ → Packet
append_word p value = p ++ word_bytes value

-- The variables of `name`'s loop; `resume` is its reference parameter `offset`.
pub record Cursor : Type 0 where
  pub at : ℕ
  pub jumped : Bool
  pub resume : ℕ
  pub result : Text

abbrev pub cursor_at : ℕ → Cursor
cursor_at offset = record { at = offset; jumped = false; resume = offset; result = [] }

-- One round either goes on or returns the name and the offset behind it.
pub data Progress : Type 0 where
  continue : Cursor → Progress
  finish : Text → ℕ → Progress

-- A byte of a label that a host name may hold: printable, and no dot.
unfoldable pub is_label_byte : ℕ → Bool
is_label_byte c = between 33 126 c && not (c == b'.')

unfoldable pub to_lower : ℕ → ℕ
to_lower c = if between b'A' b'Z' c then c + 32 else c

-- `for (unsigned i = 0; i < length; ++i)`: the name so far and the offset behind the label.
unfoldable pub read_label : ℕ → Packet → ℕ → Text → Result (Text × ℕ)
unfolding is_label_byte to_lower
read_label zero p at result = ok (result, at)
read_label (suc n) p at result = do
  c ← byte_at p at
  throw_if (not (is_label_byte c)) dns_malformed
  read_label n p (at + 1) (result ++ to_lower c ∷ [])

abbrev pub pointer_target : ℕ → ℕ → ℕ
pointer_target head low = head % 64 * 256 + low

-- The cursor behind a jump.
abbrev pub pointed : Cursor → ℕ → ℕ → Cursor
pointed s head low = record s {
  at = pointer_target head low;
  jumped = true;
  resume = if s.jumped then s.resume else s.at + 2;
}

-- A compression pointer at `s.at` whose first byte is `head`.
unfoldable pub follow_pointer : Packet → Cursor → ℕ → Result Progress
follow_pointer p s head = do
  throw_if (leb (length p) (s.at + 1)) dns_malformed
  low ← byte_at p (s.at + 1)
  let target = pointer_target head low
  throw_if (leb s.at target || ltb target 12) dns_malformed
  ok (continue (pointed s head low))

-- `if (!result.empty()) result += '.'`
abbrev pub start_of : Text → Text
start_of result = if is_empty result then result else result ++ b'.' ∷ []

-- A label of `count` bytes at `s.at`.
unfoldable pub take_label : Packet → Cursor → ℕ → Result Progress
unfolding read_label
take_label p s count = do
  throw_if (ltb (length p - (s.at + 1)) count) dns_malformed
  (result, at) ← read_label count p (s.at + 1) (start_of s.result)
  throw_if (ltb 253 (length result)) dns_malformed
  ok (continue (record s { at = at; result = result }))

-- One round of the loop, after its test.
unfoldable pub name_round : Packet → Cursor → Result Progress
unfolding follow_pointer take_label
name_round p s = do
  head ← byte_at p s.at
  if head / 64 == 3
      then follow_pointer p s head
      else if not (head / 64 == 0)
      then err dns_malformed
      else if head == 0
      then ok (finish s.result (if s.jumped then s.resume else s.at + 1))
      else take_label p s head

unfoldable pub resume_loop : (Cursor → Result (Text × ℕ)) → Progress → Result (Text × ℕ)
resume_loop loop (continue s) = loop s
resume_loop loop (finish text offset) = ok (text, offset)

-- The first argument counts down the `hops` that are left of 128.
unfoldable pub name_loop : ℕ → Packet → Cursor → Result (Text × ℕ)
unfolding name_round resume_loop
name_loop zero p s = err dns_malformed
name_loop (suc hops) p s = do
  throw_if (leb (length p) s.at) dns_malformed
  progress ← name_round p s
  resume_loop (name_loop hops p) progress

-- `name(p, offset)`: the name, and the value that it leaves in `offset`.
unfoldable pub name : Packet → ℕ → Result (Text × ℕ)
unfolding name_loop
name p offset = name_loop 128 p (cursor_at offset)
