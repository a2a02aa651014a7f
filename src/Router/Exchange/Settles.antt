-- ===== src/Router/Exchange/Settles.antt =====
-- NativeDNS.Core/src/router.cpp: a request that leads a query settles it, however its exchange ends.
use native_dns.Prelude.{
  ℕ, ◌≤◌, Bool, ◌≡◌, refl, sym, ◌∙◌, Option, none, some, ◌∷◌, length, Text, text_eq_iff, lookup,
  erase, lookup-erase_self, Result, ok, err, fault, Safe, Safe-bind, ◌>>=◌, arith,
}
use native_dns.Model.{Server}
use native_dns.Dns.Wire.{Packet}
use native_dns.Dns.Wire.Bounds.{IsPacket}
use native_dns.Dns.Query.Bounds.{QuestionRead, parse_question-Safe}
use native_dns.Dns.Answer.{DnsAnswer}
use native_dns.Dns.Answer.Bounds.{IsSound as IsRead, parse_response-Safe}
use native_dns.Dns.Ttl.Age.{SameShape}
use native_dns.Dns.Ttl.Clamp.{clamp_dns_ttl-SameShape}
use native_dns.Rules.Options.{RuntimeOptions}
use native_dns.Router.Cache.{
  Tables, Pending, Begun, answered, waiting, refused, leading, entry_bytes, max_cache_bytes,
  begin_request, abandon, cache_key, transaction_id,
}
use native_dns.Router.Cache.Reachable.{
  Leaders, enlist, IsSound, IsSoundAfter, begin_request-IsSound,
}
use native_dns.Router.Cache.Settle.{
  IsSettled, published_outcome, abandoned_outcome, publish-IsSettled, abandon-IsSettled,
}
use native_dns.Router.Exchange.{
  clamp_exchange, take_tables, conclude, respond, respond_begun, with_key, exchange_cached,
}

-- A message that the cache has room for.
abbrev pub Fits : Text → Packet × Server → Type 0
Fits key (packet, server) = IsPacket packet × (entry_bytes key packet ≤ max_cache_bytes)

abbrev Clamped : Text → Packet × DnsAnswer × ℕ → Type 0
Clamped key (packet, parsed, used) = entry_bytes key packet ≤ max_cache_bytes

-- The tables are sound, and of the leaders of `key` there is none but who was one before.
abbrev pub Leaves : Text → Leaders → Tables → Type 0
Leaves key leaders t = (after : Leaders) × IsSound after t × (lookup key after ≡ lookup key leaders)

entry_bytes-same :
    (key : Text) (p r : Packet)
    → length r ≡ length p
    → entry_bytes key p ≤ max_cache_bytes
    → entry_bytes key r ≤ max_cache_bytes
unfolding entry_bytes
entry_bytes-same key p r e h = omega (arith, e, h)

lookup-here : (key : Text) (id : ℕ) (leaders : Leaders) → lookup key ((key, id) ∷ leaders) ≡ some id
unfolding lookup
lookup-here key id leaders = ground (arith, text_eq_iff key key)

module _ (format_ip : Packet → Bool → Text) (options : RuntimeOptions) where
  clamp_exchange-Clamped :
      (key : Text) (request : Packet) (configured : Bool) (exchanged : Result (Packet × Server))
      → IsPacket request
      → Safe (Fits key) exchanged
      → Safe (Clamped key) (clamp_exchange format_ip options request configured exchanged)
  unfolding clamp_exchange
  clamp_exchange-Clamped key request configured exchanged bytes safe =
      Safe-bind (Fits key) (Clamped key) _ _ safe λ (packet, server) (kept, small).
        Safe-bind (SameShape packet) (Clamped key) _ _
          (clamp_dns_ttl-SameShape format_ip packet options.ttl_min options.ttl_max kept)
          λ clamped (same, good).
            Safe-bind (QuestionRead request) (Clamped key) _ _ (parse_question-Safe request bytes)
              λ question _.
                Safe-bind (IsRead question) (Clamped key) _ _
                  (parse_response-Safe format_ip clamped question good)
                  λ parsed _. entry_bytes-same key packet clamped same small

  settled-Leaves :
      (key : Text) (id : ℕ) (outcome : Pending) (before leaders : Leaders) (t u : Tables)
      → lookup key before ≡ none
      → IsSound leaders t
      → IsSettled key id outcome leaders t u
      → Leaves key before u
  settled-Leaves key id outcome before leaders t u fresh sound settled =
      (erase key leaders, settled.sound, lookup-erase_self key leaders sound.distinct ∙ sym fresh)

  conclude-Leaves :
      (now : ℕ) (key : Text) (id : ℕ) (before leaders : Leaders)
      (outcome : Result (Packet × DnsAnswer × ℕ)) (t : Tables)
      → lookup key before ≡ none
      → IsSound leaders t
      → lookup key leaders ≡ some id
      → Safe (Clamped key) outcome
      → Leaves key before (conclude format_ip options now key id outcome t).0
  unfolding conclude take_tables
  conclude-Leaves now key id before leaders (ok (packet, parsed, used)) t fresh sound here small =
      let (u, same, settled) =
        publish-IsSettled now key id packet parsed used leaders t sound here small in
      rw same (
        settled-Leaves key id (published_outcome packet used) before leaders t u fresh sound
          settled)
  conclude-Leaves now key id before leaders (err code) t fresh sound here small =
      settled-Leaves key id (abandoned_outcome code) before leaders t (abandon key id code t) fresh
        sound (abandon-IsSettled key id code leaders t sound here)
  conclude-Leaves now key id before leaders fault t fresh sound here small = absurd small

  module _ (key : Text) (meanwhile : Tables → Tables) (others : Leaders → Leaders)
      (kept : (l : Leaders) (u : Tables) → IsSound l u → IsSound (others l) (meanwhile u))
      (ours : (l : Leaders) (id : ℕ)
        → lookup key l ≡ some id
        → lookup key (others l) ≡ some id) where
    respond-Leaves :
        (later tx : ℕ) (request : Packet) (configured : Bool) (awaited : ℕ → Option Pending)
        (group : Result (Packet × Server)) (leaders : Leaders) (t : Tables) (begun : Begun)
        → IsPacket request
        → Safe (Fits key) group
        → IsSoundAfter key leaders (t, begun)
        → Leaves key leaders
            (respond format_ip options later request configured key tx awaited meanwhile group t
              begun).0
    unfolding respond enlist
    respond-Leaves later tx request configured awaited group leaders t (answered reply used) bytes
          safe sound =
        (leaders, sound, refl)
    respond-Leaves later tx request configured awaited group leaders t (waiting id) bytes safe
          sound =
        (leaders, sound, refl)
    respond-Leaves later tx request configured awaited group leaders t (refused code) bytes safe
          sound =
        (leaders, sound, refl)
    respond-Leaves later tx request configured awaited group leaders t (leading id) bytes safe
          sound =
        conclude-Leaves later key id leaders (others ((key, id) ∷ leaders))
          (clamp_exchange format_ip options request configured group) (meanwhile t) sound.distinct.0
          (kept ((key, id) ∷ leaders) t sound)
          (ours ((key, id) ∷ leaders) id (lookup-here key id leaders))
          (clamp_exchange-Clamped key request configured group bytes safe)

    respond_begun-Leaves :
        (later tx : ℕ) (request : Packet) (configured : Bool) (awaited : ℕ → Option Pending)
        (group : Result (Packet × Server)) (leaders : Leaders) (r : Tables × Begun)
        → IsPacket request
        → Safe (Fits key) group
        → IsSoundAfter key leaders r
        → Leaves key leaders
            (respond_begun format_ip options later request configured key tx awaited meanwhile group
              r).0
    unfolding respond_begun
    respond_begun-Leaves later tx request configured awaited group leaders (t, begun) bytes safe
          sound =
        respond-Leaves later tx request configured awaited group leaders t begun bytes safe sound

    with_key-Leaves :
        (now later : ℕ) (request : Packet) (configured : Bool) (awaited : ℕ → Option Pending)
        (group : Result (Packet × Server)) (leaders : Leaders) (t : Tables) (tx : Result ℕ)
        → IsPacket request
        → Safe (Fits key) group
        → IsSound leaders t
        → Leaves key leaders
            (with_key format_ip options now later request configured awaited meanwhile group t
              (tx >>= λ id. ok (key, id))).0
    unfolding with_key
    with_key-Leaves now later request configured awaited group leaders t (ok tx) bytes safe sound =
        respond_begun-Leaves later tx request configured awaited group leaders
          (begin_request now key tx t) bytes safe (begin_request-IsSound now key tx leaders t sound)
    with_key-Leaves now later request configured awaited group leaders t (err code) bytes safe
          sound =
        (leaders, sound, refl)
    with_key-Leaves now later request configured awaited group leaders t fault bytes safe sound =
        (leaders, sound, refl)

    -- Where other requests keep the tables sound and leave this request's place as a leader alone, the
    -- group gives bytes that the cache has room for or throws, and the request is bytes: exchanging it
    -- keeps the tables sound, and leaves no leader for its key but one that was there before. So a
    -- request that leads a query has settled it at its end, whether it has an answer or throws.
    pub exchange_cached-Leaves :
        (now later : ℕ) (request : Packet) (primary : Server) (configured : Bool)
        (awaited : ℕ → Option Pending) (group : Result (Packet × Server)) (leaders : Leaders)
        (t : Tables)
        → cache_key configured primary request ≡ ok key
        → IsPacket request
        → Safe (Fits key) group
        → IsSound leaders t
        → Leaves key leaders
            (exchange_cached format_ip options now later request primary configured awaited
              meanwhile group t).0
    unfolding exchange_cached
    exchange_cached-Leaves now later request primary configured awaited group leaders t keyed bytes
          safe sound =
        rw keyed (
          with_key-Leaves now later request configured awaited group leaders t
            (transaction_id request) bytes safe sound)
