-- ===== src/Service/IpcWire/RoundTrip.antt =====
-- NativeDNS.Core/src/ipc_wire.cpp and the Linux pipe: the header of a frame that one end writes is
-- read back by the other.
use native_dns.Prelude.{
  ℕ, ◌+◌, ◌*◌, ◌/◌, ◌%◌, ◌≤◌, ◌<◌, Bool, false, ◌≡◌, [], ◌++◌, take, ltb, if◌then◌else◌, has_bit,
  length, ok, arith,
}
use native_dns.Dns.Wire.{Packet, byte_at}
use native_dns.Service.IpcWire.{
  ipc_max_payload, get16, get32, get64, is_bad_request, is_bad_length, parse_ipc_header, put16,
  put32, put64, frame_head, status_size, frame,
}

dword_lem :
    (v : ℕ)
    → v < 4294967296
    → v % 256 + v / 256 % 256 * 256 + (v / 65536 % 256 + v / 16777216 % 256 * 256) * 65536 ≡ v
dword_lem v h = omega arith

header_lem :
    (operation request size : ℕ) (rest : Packet) (response : Bool)
    → operation < 65536
    → request < 18446744073709551616
    → size < 4294967296
    → is_bad_request response operation request ≡ false
    → is_bad_length response size ≡ false
    → parse_ipc_header (take 20 (frame_head operation request ++ put32 size ++ rest)) response
      ≡ ok (record { operation = operation; request = request; length = size })
unfolding parse_ipc_header get16 get32 get64 byte_at frame_head put16 put32 put64
header_lem operation request size rest response o r s good sized =
    let o₁ : operation % 256 + operation / 256 % 256 * 256 ≡ operation = omega arith in
    let low = request % 4294967296 in
    let high = request / 4294967296 in
    let whole : low + high * 4294967296 ≡ request = omega arith in
    rw (
      o₁,
      dword_lem low (omega arith),
      dword_lem high (omega arith),
      whole,
      dword_lem size s,
      good,
      sized,
    )

-- The operations that a request names, and requests that have a number.
pub record IsAddressed (operation request : ℕ) : Type 0 where
  pub word_sized : operation < 65536
  pub named : 1 ≤ operation % 32768
  pub known : operation % 32768 ≤ 11
  pub numbered : 1 ≤ request
  pub request_sized : request < 18446744073709551616

addressed_lem :
    (operation request : ℕ)
    → IsAddressed operation request
    → is_bad_request (has_bit operation 32768) operation request ≡ false
unfolding is_bad_request
addressed_lem operation request v = ground (arith, v.named, v.known, v.numbered)

sized_lem :
    (operation : ℕ) (payload : Packet)
    → length payload ≤ ipc_max_payload
    → is_bad_length (has_bit operation 32768) (status_size operation + length payload) ≡ false
unfolding is_bad_length
sized_lem operation payload h = ground arith

-- The header of a frame that is written is read back as a request's or a response's, by its
-- operation: the operation, the request's number and the size of what follows; and a payload up to
-- the limit is always written.
pub parse_ipc_header-frame :
    (operation request status : ℕ) (payload : Packet)
    → IsAddressed operation request
    → length payload ≤ ipc_max_payload
    → (output : Packet) × (frame operation request status payload ≡ ok output)
      × (parse_ipc_header (take 20 output) (has_bit operation 32768)
          ≡ ok (record {
            operation = operation;
            request = request;
            length = status_size operation + length payload;
          }))
unfolding frame
parse_ipc_header-frame operation request status payload v h =
    let fits : ltb ipc_max_payload (length payload) ≡ false = ground arith in
    let status_bytes = if has_bit operation 32768 then put32 status else [] in
    let size = status_size operation + length payload in
    let small : size < 4294967296 = ground arith in
    let kept : size % 4294967296 ≡ size = omega (arith, small) in
    let output = frame_head operation request ++ put32 size ++ status_bytes ++ payload in
    (
      output,
      rw (fits, kept),
      header_lem operation request size (status_bytes ++ payload) (has_bit operation 32768)
          v.word_sized v.request_sized small (addressed_lem operation request v)
          (sized_lem operation payload h),
    )
