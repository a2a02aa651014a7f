-- ===== src/Examples/Services.antt =====
-- The theorems on the worker pool and the frames at small ones.
use native_dns.Prelude.{true, false}
use native_dns.Prelude.{ℕ, ◌+◌, false, ◌≡◌, refl, [], ◌∷◌, has_bit, take, length, ok, arith}
use native_dns.Dns.Wire.{Packet}
use native_dns.Prelude.{Safe, codes}
use native_dns.Service.Pool.{Pool, limit_idle_pool}
use native_dns.Service.Pool.Limits.{IsLimited, limit_idle_pool-IsLimited}
use native_dns.Service.Executor.{
  idle, Executor, new_executor, start, submit, Reachable, made, then_step, started, submitted,
  IsBounded, Reachable-IsBounded,
}
use native_dns.Service.IpcWire.{status_size, parse_ipc_header, frame}
use native_dns.Service.IpcWire.RoundTrip.{parse_ipc_header-frame}

parse_ipc_header-frame_example :
    (output : Packet) × (frame 32771 9 0 (1 ∷ 2 ∷ []) ≡ ok output)
    × (parse_ipc_header (take 20 output) (has_bit 32771 32768)
        ≡ ok (record {
          operation = 32771;
          request = 9;
          length = status_size 32771 + length {A = ℕ} (1 ∷ 2 ∷ []);
        }))
parse_ipc_header-frame_example =
    parse_ipc_header-frame 32771 9 0 (1 ∷ 2 ∷ [])
      (record {
        word_sized = omega arith;
        named = omega arith;
        known = omega arith;
        numbered = omega arith;
        request_sized = omega arith;
      })
      (omega arith)

abbrev working : Executor ℕ
working = record (new_executor ℕ) { threads = idle ∷ []; capacity = 1; stopping = false }

working_started : start ℕ 1 1 (new_executor ℕ) ≡ ok working
unfolding start
working_started = refl

-- The second of two jobs finds the queue full.
abbrev queued : Executor ℕ
queued = (submit ℕ 8 (submit ℕ 7 working).0).0

queued-Reachable : Reachable ℕ queued
queued-Reachable =
    then_step (then_step (then_step made (started 1 1 working_started)) (submitted 7)) (submitted 8)

Reachable-IsBounded_example : IsBounded ℕ queued
Reachable-IsBounded_example = Reachable-IsBounded ℕ queued queued-Reachable

abbrev pool : Pool
pool = (codes "a", true ∷ false ∷ []) ∷ (codes "b", false ∷ []) ∷ []

limit_idle_pool-IsLimited_example :
    Safe (IsLimited pool (codes "c")) (limit_idle_pool pool (codes "c"))
limit_idle_pool-IsLimited_example = limit_idle_pool-IsLimited pool (codes "c")
