-- ===== src/Service/IpcWire.antt =====
-- NativeDNS.Core/src/ipc_wire.cpp: the header of a frame, and its layout in little-endian bytes.
pub mod RoundTrip
use native_dns.Prelude.{
  ℕ, zero, suc, ◌+◌, ◌-◌, ◌*◌, ◌/◌, ◌%◌, ◌≤◌, ◌<◌, Bool, true, false, not, ◌&&◌, ◌||◌, ◌≡◌, refl,
  List, [], ◌∷◌, ltb, ◌==◌, if◌then◌else◌, if_cases, has_bit, length, ipc_protocol, other, codes,
  ◌++◌, take, Result, ok, err, fault, ◌>>=◌, ◌>>◌, throw_if, Safe, Safe-throw_if, Safe-bind, arith,
}
use native_dns.Dns.Wire.{Packet, byte_at}

pub record IpcWireHeader : Type 0 where
  pub operation : ℕ
  pub request : ℕ
  pub length : ℕ

abbrev pub ipc_header_size : ℕ
ipc_header_size = 20

abbrev pub ipc_max_payload : ℕ
ipc_max_payload = 1048576

unfoldable pub get16 : Packet → ℕ → Result ℕ
get16 p at = do low ← byte_at p at; high ← byte_at p (at + 1); ok (low + high * 256)

unfoldable pub get32 : Packet → ℕ → Result ℕ
unfolding get16
get32 p at = do low ← get16 p at; high ← get16 p (at + 2); ok (low + high * 65536)

unfoldable pub get64 : Packet → ℕ → Result ℕ
unfolding get32
get64 p at = do low ← get32 p at; high ← get32 p (at + 4); ok (low + high * 4294967296)

-- The test on the operation: its low fifteen bits name a request, its top bit marks a response.
unfoldable pub is_bad_request : Bool → ℕ → ℕ → Bool
is_bad_request response operation request =
    request == 0
    || ltb (operation % 32768) 1
    || ltb 11 (operation % 32768)
    || (if response then not (has_bit operation 32768) else has_bit operation 32768)

unfoldable pub is_bad_length : Bool → ℕ → Bool
is_bad_length response size =
    if response then ltb size 4 || ltb (ipc_max_payload + 4) size else ltb ipc_max_payload size

unfoldable pub parse_ipc_header : Packet → Bool → Result IpcWireHeader
unfolding get16 get32 get64 is_bad_request is_bad_length
parse_ipc_header bytes response = do
  throw_if (not (length bytes == ipc_header_size)) ipc_protocol
  magic ← get32 bytes 0
  version ← get16 bytes 4
  throw_if (not (magic == 826560078) || not (version == 1)) ipc_protocol
  operation ← get16 bytes 6
  request ← get64 bytes 8
  size ← get32 bytes 16
  throw_if (is_bad_request response operation request) ipc_protocol
  throw_if (is_bad_length response size) ipc_protocol
  ok (record { operation = operation; request = request; length = size })

unfoldable pub put16 : ℕ → Packet
put16 value = value % 256 ∷ value / 256 % 256 ∷ []

unfoldable pub put32 : ℕ → Packet
put32 value = value % 256 ∷ value / 256 % 256 ∷ value / 65536 % 256 ∷ value / 16777216 % 256 ∷ []

unfoldable pub put64 : ℕ → Packet
unfolding put32
put64 value = put32 (value % 4294967296) ++ put32 (value / 4294967296)

-- The bytes in front of the payload's length.
unfoldable pub frame_head : ℕ → ℕ → Packet
unfolding put16 put32 put64
frame_head operation request = put32 826560078 ++ put16 1 ++ put16 operation ++ put64 request

abbrev pub status_size : ℕ → ℕ
status_size operation = if has_bit operation 32768 then 4 else 0

-- NativeDNS.Core/src/platform/linux/ipc.cpp: `frame`, field by field.
unfoldable pub frame : ℕ → ℕ → ℕ → Packet → Result Packet
unfolding frame_head put32
frame operation request status payload = do
  throw_if (ltb ipc_max_payload (length payload)) (other (codes "IPC_LIMIT"))
  let size = (status_size operation + length payload) % 4294967296
  let status_bytes = if has_bit operation 32768 then put32 status else []
  ok (frame_head operation request ++ put32 size ++ status_bytes ++ payload)
