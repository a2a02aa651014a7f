-- ===== src/Router/Cache.antt =====
-- NativeDNS.Core/src/router.cpp: `exchange_cached`, the cache and the queries in flight. Each
-- critical section under `cache_mutex` is a function of the tables; a pending query is named by the
-- index of its object. Points in time are nanoseconds of the steady clock.
pub mod Accounts
pub mod Eviction
pub mod Flight
pub mod Reachable
pub mod Settle
pub mod Histories
pub mod Hits
pub mod Keys
use native_dns.Prelude.{
  ℕ, zero, suc, ◌+◌, ◌-◌, ◌*◌, ◌/◌, ◌%◌, min, Bool, true, false, not, ◌&&◌, ◌||◌, Option, none,
  some, List, [], ◌∷◌, ◌++◌, ltb, leb, ◌==◌, if◌then◌else◌, length, set, drop, get_elem?, replicate,
  Text, codes, lookup, put, erase, Code, dns_malformed, upstream_busy, timeout, internal, Result,
  ok, err, fault, ◌>>=◌, ◌>>◌, throw_if,
}
use native_dns.Model.{
  Protocol, udp, tcp, doh, dot, doh3, doq, dnscrypt, anonymized_dnscrypt, Server,
}
use native_dns.Network.Interfaces.{to_string, network_route_key}
use native_dns.Dns.Wire.{Packet, byte_at}
use native_dns.Dns.Answer.{DnsAnswer}
use native_dns.Dns.Ttl.{age_dns_response}

abbrev pub second : ℕ
second = 1000000000

-- The wrap-around of `size_t`.
unfoldable pub add_size : ℕ → ℕ → ℕ
add_size a b = (a + b) % 18446744073709551616

unfoldable pub sub_size : ℕ → ℕ → ℕ
sub_size a b = (a + (18446744073709551616 - b % 18446744073709551616)) % 18446744073709551616

pub record CacheEntry : Type 0 where
  pub packet : Packet
  pub stored : ℕ
  pub expires : ℕ
  pub used_server_id : ℕ

pub record Pending : Type 0 where
  pub done : Bool
  pub packet : Packet
  pub used_server_id : ℕ
  pub error_code : Option Code

abbrev pub new_pending : Pending
new_pending = record { done = false; packet = []; used_server_id = 0; error_code = none }

abbrev pub Entries : Type 0
Entries = List (Text × CacheEntry)

pub record Tables : Type 0 where
  pub cache : Entries
  pub cache_bytes : ℕ
  pub pending : List (Text × ℕ)
  pub objects : List Pending

abbrev pub no_tables : Tables
no_tables = record { cache = []; cache_bytes = 0; pending = []; objects = [] }

unfoldable pub entry_bytes : Text → Packet → ℕ
entry_bytes key packet = length packet + length key

abbrev pub max_entries : ℕ
max_entries = 4096

abbrev pub max_pending : ℕ
max_pending = 256

abbrev pub max_cache_bytes : ℕ
max_cache_bytes = 33554432

unfoldable pub protocol_index : Protocol → ℕ
protocol_index udp = 0
protocol_index tcp = 1
protocol_index doh = 2
protocol_index dot = 3
protocol_index doh3 = 4
protocol_index doq = 5
protocol_index dnscrypt = 6
protocol_index anonymized_dnscrypt = 7

-- The part of the key that names the server and the route.
unfoldable pub key_prefix : Bool → Server → Text
unfolding protocol_index
key_prefix configured primary =
    (if configured then codes "configured:" else codes "original:")
    ++ to_string (if configured then primary.id else protocol_index primary.protocol)
    ++ b'|' ∷ []
    ++ network_route_key primary.route
    ++ b'|' ∷ []
    ++ (if configured then [] else primary.ip ++ b'|' ∷ to_string primary.port ++ b'|' ∷ [])

-- The key: everything of the request but its identifier.
unfoldable pub cache_key : Bool → Server → Packet → Result Text
unfolding key_prefix
cache_key configured primary request = do
  throw_if (ltb (length request) 2) dns_malformed
  ok (key_prefix configured primary ++ 0 ∷ 0 ∷ drop 2 request)

unfoldable pub transaction_id : Packet → Result ℕ
transaction_id request = do high ← byte_at request 0; low ← byte_at request 1; ok (high * 256 + low)

-- The loop that drops what has expired.
unfoldable pub purge : ℕ → Entries → ℕ → Entries × ℕ
unfolding entry_bytes sub_size
purge now [] bytes = ([], bytes)
purge now ((k, e) ∷ cache) bytes =
    let dropped = purge now cache (sub_size bytes (entry_bytes k e.packet)) in
    let (kept, left) = purge now cache bytes in
    if leb e.expires now then dropped else ((k, e) ∷ kept, left)

unfoldable pub purge_tables : ℕ → Tables → Tables
unfolding purge
purge_tables now t =
    let (cache, bytes) = purge now t.cache t.cache_bytes in
    record t { cache = cache; cache_bytes = bytes }

-- How the first critical section leaves a request.
pub data Begun : Type 0 where
  answered : Result Packet → ℕ → Begun
  waiting : ℕ → Begun
  refused : Code → Begun
  leading : ℕ → Begun

unfoldable pub seconds_between : ℕ → ℕ → ℕ
seconds_between stored now = (now - stored) / second % 4294967296

unfoldable pub start_pending : Text → Tables → Tables × Begun
start_pending key t =
    let id = length t.objects in
    if leb max_pending (length t.pending) then (t, refused upstream_busy) else (
      record t { pending = put key id t.pending; objects = t.objects ++ new_pending ∷ [] },
      leading id,
    )

unfoldable pub join_pending : Text → Option ℕ → Tables → Tables × Begun
unfolding start_pending
join_pending key (some id) t = (t, waiting id)
join_pending key none t = start_pending key t

unfoldable pub look_up : ℕ → Text → ℕ → Option CacheEntry → Tables → Tables × Begun
unfolding join_pending seconds_between
look_up now key tx (some e) t =
    let aged = age_dns_response e.packet tx (seconds_between e.stored now) in
    (t, answered aged e.used_server_id)
look_up now key tx none t = join_pending key (lookup key t.pending) t

unfoldable pub begin_request : ℕ → Text → ℕ → Tables → Tables × Begun
unfolding look_up purge_tables
begin_request now key tx t =
    let purged = purge_tables now t in look_up now key tx (lookup key purged.cache) purged

-- `std::min_element` by the time of expiry: the first of the earliest.
unfoldable pub earlier : Text × CacheEntry → Option (Text × CacheEntry) → Text × CacheEntry
earlier a none = a
earlier a (some b) = if ltb b.1.expires a.1.expires then b else a

unfoldable pub oldest : Entries → Option (Text × CacheEntry)
unfolding earlier
oldest [] = none
oldest (a ∷ cache) = some (earlier a (oldest cache))

unfoldable pub is_full : ℕ → Entries → ℕ → Bool
unfolding add_size
is_full size cache bytes =
    leb max_entries (length cache) || ltb max_cache_bytes (add_size bytes size)

unfoldable pub evict_oldest :
    (Entries → ℕ → Result (Entries × ℕ))
    → Option (Text × CacheEntry)
    → Entries
    → ℕ
    → Result (Entries × ℕ)
unfolding sub_size entry_bytes
evict_oldest again none cache bytes = ok (cache, bytes)
evict_oldest again (some (k, e)) cache bytes =
    again (erase k cache) (sub_size bytes (entry_bytes k e.packet))

-- The loop that makes room for `size` bytes, on fuel.
unfoldable pub evict : ℕ → ℕ → Entries → ℕ → Result (Entries × ℕ)
unfolding is_full oldest evict_oldest
evict zero size cache bytes = fault
evict (suc n) size cache bytes =
    let next = evict_oldest (evict n size) (oldest cache) cache bytes in
    if is_full size cache bytes then next else ok (cache, bytes)

abbrev pub max_ttl : ℕ
max_ttl = 86400

-- The branch `if (parsed.cacheable)`; every round erases an entry.
unfoldable pub store_entry : ℕ → Text → Packet → DnsAnswer → ℕ → Tables → Result Tables
store_entry now key packet parsed used_id t = do
  let size = entry_bytes key packet
  (cache, bytes) ← evict (length t.cache + 1) size t.cache t.cache_bytes
  let entry : CacheEntry = record {
    packet = packet;
    stored = now;
    expires = now + min parsed.cache_ttl max_ttl * second;
    used_server_id = used_id;
  }
  ok (record t { cache = put key entry cache; cache_bytes = add_size bytes size })

unfoldable pub settle : Text → ℕ → Pending → Tables → Tables
settle key id outcome t = record t {
  objects = set t.objects id outcome;
  pending = erase key t.pending;
}

-- The critical section behind an exchange that succeeded.
unfoldable pub publish : ℕ → Text → ℕ → Packet → DnsAnswer → ℕ → Tables → Result Tables
unfolding settle
publish now key id packet parsed used_id t = do
  stored ← if parsed.cacheable then store_entry now key packet parsed used_id t else ok t
  ok (
      settle key id
        (record { done = true; packet = packet; used_server_id = used_id; error_code = none })
        stored)

-- The critical section behind an exchange that threw.
unfoldable pub abandon : Text → ℕ → Code → Tables → Tables
unfolding settle
abandon key id code t =
    settle key id (record { done = true; packet = []; used_server_id = 0; error_code = some code })
      t

-- What a request that waits makes of its object, once that is done.
unfoldable pub collect : ℕ → Pending → Result (Packet × ℕ)
collect tx p = elim p.error_code [
  | some code ↦ err code
  | none ↦ age_dns_response p.packet tx 0 >>= λ packet. ok (packet, p.used_server_id)
]
