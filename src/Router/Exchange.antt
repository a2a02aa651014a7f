-- ===== src/Router/Exchange.antt =====
-- NativeDNS.Core/src/router.cpp: `exchange_cached` as a whole, for one request. `group` is what
-- `exchange_group` gives, `meanwhile` what other requests make of the tables during the exchange, and
-- `awaited` the object that a request waits for once it is done; it is none when 120 seconds pass first.
pub mod Settles
use native_dns.Prelude.{
  ℕ, Bool, true, false, Option, none, some, List, [], ◌∷◌, if◌then◌else◌, Text, Code, timeout,
  Result, ok, err, fault, ◌>>=◌,
}
use native_dns.Model.{Server}
use native_dns.Dns.Wire.{Packet}
use native_dns.Dns.Query.{parse_question}
use native_dns.Dns.Answer.{DnsAnswer, parse_response}
use native_dns.Dns.Ttl.{clamp_dns_ttl}
use native_dns.Rules.Options.{RuntimeOptions}
use native_dns.Router.Cache.{
  Tables, Pending, Begun, answered, waiting, refused, leading, begin_request, publish, abandon,
  collect, cache_key, transaction_id,
}
use native_dns.Router.Cache.Reachable.{enlist}
use native_dns.Router.Cache.Histories.{System}

module _ (format_ip : Packet → Bool → Text) (options : RuntimeOptions) where
  -- What is made of the group's message: the message, its reading and the server's identifier.
  unfoldable pub clamp_exchange :
      Packet → Bool → Result (Packet × Server) → Result (Packet × DnsAnswer × ℕ)
  clamp_exchange request configured exchanged = do
    (packet, server) ← exchanged
    clamped ← clamp_dns_ttl format_ip packet options.ttl_min options.ttl_max
    question ← parse_question request
    parsed ← parse_response format_ip clamped question
    ok (clamped, parsed, if configured then server.id else 0)

  unfoldable pub take_tables : Tables → Packet → ℕ → Result Tables → Tables × Result (Packet × ℕ)
  take_tables before packet used (ok t) = (t, ok (packet, used))
  take_tables before packet used (err code) = (before, err code)
  take_tables before packet used fault = (before, fault)

  -- The end of the `try`, and its handlers.
  unfoldable pub conclude :
      ℕ → Text → ℕ → Result (Packet × DnsAnswer × ℕ) → Tables → Tables × Result (Packet × ℕ)
  unfolding take_tables
  conclude now key id (ok (packet, parsed, used)) t =
      take_tables t packet used (publish now key id packet parsed used t)
  conclude now key id (err code) t = (abandon key id code t, err code)
  conclude now key id fault t = (t, fault)

  unfoldable pub wait_for : ℕ → Option Pending → Result (Packet × ℕ)
  wait_for tx none = err timeout
  wait_for tx (some pending) = collect tx pending

  -- From what the first critical section found on.
  unfoldable pub respond :
      ℕ
      → Packet
      → Bool
      → Text
      → ℕ
      → (ℕ → Option Pending)
      → (Tables → Tables)
      → Result (Packet × Server)
      → Tables
      → Begun
      → Tables × Result (Packet × ℕ)
  unfolding conclude wait_for clamp_exchange
  respond later request configured key tx awaited meanwhile group t (answered reply used) =
      (t, reply >>= λ packet. ok (packet, used))
  respond later request configured key tx awaited meanwhile group t (waiting id) =
      (t, wait_for tx (awaited id))
  respond later request configured key tx awaited meanwhile group t (refused code) = (t, err code)
  respond later request configured key tx awaited meanwhile group t (leading id) =
      conclude later key id (clamp_exchange request configured group) (meanwhile t)

  unfoldable pub respond_begun :
      ℕ
      → Packet
      → Bool
      → Text
      → ℕ
      → (ℕ → Option Pending)
      → (Tables → Tables)
      → Result (Packet × Server)
      → Tables × Begun
      → Tables × Result (Packet × ℕ)
  unfolding respond
  respond_begun later request configured key tx awaited meanwhile group (t, begun) =
      respond later request configured key tx awaited meanwhile group t begun

  unfoldable pub with_key :
      ℕ
      → ℕ
      → Packet
      → Bool
      → (ℕ → Option Pending)
      → (Tables → Tables)
      → Result (Packet × Server)
      → Tables
      → Result (Text × ℕ)
      → Tables × Result (Packet × ℕ)
  unfolding respond_begun
  with_key now later request configured awaited meanwhile group t (ok (key, tx)) =
      respond_begun later request configured key tx awaited meanwhile group
        (begin_request now key tx t)
  with_key now later request configured awaited meanwhile group t (err code) = (t, err code)
  with_key now later request configured awaited meanwhile group t fault = (t, fault)

  unfoldable pub exchange_cached :
      ℕ
      → ℕ
      → Packet
      → Server
      → Bool
      → (ℕ → Option Pending)
      → (Tables → Tables)
      → Result (Packet × Server)
      → Tables
      → Tables × Result (Packet × ℕ)
  unfolding with_key
  exchange_cached now later request primary configured awaited meanwhile group t =
      with_key now later request configured awaited meanwhile group t
        (do key ← cache_key configured primary request; tx ← transaction_id request; ok (key, tx))
