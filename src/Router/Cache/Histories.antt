-- ===== src/Router/Cache/Histories.antt =====
-- NativeDNS.Core/src/router.cpp: `exchange_cached` under any number of requests: each turn is one
-- critical section under `cache_mutex`, in the order in which the requests take it.
use native_dns.Prelude.{
  ℕ, ◌≤◌, true, ◌≡◌, refl, sym, subst, ◌∙◌, Option, none, some, List, [], leb, if_cases, length,
  get_elem?, set, Text, lookup, erase, Code, ok, ok-injective, get_elem?-set_ne, arith,
}
use native_dns.Dns.Wire.{Packet}
use native_dns.Dns.Answer.{DnsAnswer}
use native_dns.Router.Cache.{
  CacheEntry, Pending, new_pending, Tables, no_tables, entry_bytes, max_cache_bytes, Begun, waiting,
  start_pending, join_pending, look_up, begin_request, publish, abandon, purge_tables,
}
use native_dns.Router.Cache.Accounts.{total}
use native_dns.Router.Cache.Flight.{IsInFlight, purge_tables-IsConsistent, get_elem?-before}
use native_dns.Router.Cache.Reachable.{Leaders, enlist, IsSound, begin_request-IsSound}
use native_dns.Router.Cache.Settle.{
  IsSettled, published_outcome, abandoned_outcome, publish-IsSettled, abandon-IsSettled,
}

-- The tables, and the requests that exchange a query themselves.
pub record System : Type 0 where
  pub tables : Tables
  pub leaders : Leaders

abbrev pub initial : System
initial = record { tables = no_tables; leaders = [] }

pub data Turn : System → System → Type 0 where
  begun :
      (now : ℕ) (key : Text) (tx : ℕ) (s : System)
      → Turn s (record {
        tables = (begin_request now key tx s.tables).0;
        leaders = enlist key (begin_request now key tx s.tables).1 s.leaders;
      })
  published :
      (now : ℕ) (key : Text) (id : ℕ) (packet : Packet) (parsed : DnsAnswer) (used : ℕ) (s : System)
      (t : Tables)
      → lookup key s.leaders ≡ some id
      → entry_bytes key packet ≤ max_cache_bytes
      → publish now key id packet parsed used s.tables ≡ ok t
      → Turn s (record { tables = t; leaders = erase key s.leaders })
  abandoned :
      (key : Text) (id : ℕ) (code : Code) (s : System)
      → lookup key s.leaders ≡ some id
      → Turn s (record { tables = abandon key id code s.tables; leaders = erase key s.leaders })

pub data Reached : System → Type 0 where
  started : Reached initial
  stepped : (s t : System) → Reached s → Turn s t → Reached t

initial-IsSound : IsSound [] no_tables
unfolding lookup total
initial-IsSound = record {
  consistent = record {
    accounted = record { counted = refl; small = omega arith; few = omega arith; distinct = tt };
    in_flight = record {
      few = omega arith;
      distinct = tt;
      unsettled = λ k id h. cc;
      own = λ j k id hj hk. cc;
    };
    apart = λ k id h. refl;
  };
  led = λ k. refl;
  distinct = tt;
}

pub publish-all :
    (now : ℕ) (key : Text) (id : ℕ) (packet : Packet) (parsed : DnsAnswer) (used : ℕ)
    (leaders : Leaders) (t u : Tables)
    → IsSound leaders t
    → lookup key leaders ≡ some id
    → entry_bytes key packet ≤ max_cache_bytes
    → publish now key id packet parsed used t ≡ ok u
    → IsSettled key id (published_outcome packet used) leaders t u
publish-all now key id packet parsed used leaders t u sound here fits e =
    let (s, same, settled) =
      publish-IsSettled now key id packet parsed used leaders t sound here fits in
    subst (IsSettled key id (published_outcome packet used) leaders t) (ok-injective (sym same ∙ e))
      settled

Turn-IsSound : (s t : System) → Turn s t → IsSound s.leaders s.tables → IsSound t.leaders t.tables
Turn-IsSound _ _ (begun now key tx s) sound =
    begin_request-IsSound now key tx s.leaders s.tables sound
Turn-IsSound _ _ (published now key id packet parsed used s t here fits e) sound =
    (publish-all now key id packet parsed used s.leaders s.tables t sound here fits e).sound
Turn-IsSound _ _ (abandoned key id code s here) sound =
    (abandon-IsSettled key id code s.leaders s.tables sound here).sound

-- In every state that is reached by any order of the critical sections, where every message that is
-- stored has at most 32 MiB with its key: the count of bytes is what the cache holds, which is at most
-- 32 MiB; there are at most 4096 entries and 256 queries in flight, no key stands twice, each query in
-- flight has an object of its own that is not done, exactly one leader, and no entry in the cache.
pub Reached-IsSound : (s : System) → Reached s → IsSound s.leaders s.tables
Reached-IsSound _ started = initial-IsSound
Reached-IsSound _ (stepped s t past step) = Turn-IsSound s t step (Reached-IsSound s past)

-- In every such state a leader whose message and key have at most 32 MiB can publish: the critical
-- section ends, its key is free again, its object holds the outcome, and the state is sound.
pub leader-publish :
    (s : System) (now : ℕ) (key : Text) (id : ℕ) (packet : Packet) (parsed : DnsAnswer) (used : ℕ)
    → Reached s
    → lookup key s.leaders ≡ some id
    → entry_bytes key packet ≤ max_cache_bytes
    → (t : Tables) × (publish now key id packet parsed used s.tables ≡ ok t)
      × IsSettled key id (published_outcome packet used) s.leaders s.tables t
leader-publish s now key id packet parsed used past here fits =
    publish-IsSettled now key id packet parsed used s.leaders s.tables (Reached-IsSound s past) here
      fits

-- In every such state a request for a query that has a leader waits for the object of that leader:
-- the same query is not exchanged twice at once.
pub begin_request-waiting :
    (s : System) (now : ℕ) (key : Text) (tx id : ℕ)
    → Reached s
    → lookup key s.leaders ≡ some id
    → (begin_request now key tx s.tables).1 ≡ waiting id
unfolding begin_request look_up join_pending purge_tables
begin_request-waiting s now key tx id past here =
    let sound = Reached-IsSound s past in
    let flying = sym (sound.led key) ∙ here in
    let (c, same) = purge_tables-IsConsistent now s.tables sound.consistent in
    rw (c.apart key id flying, flying) refl

-- An object that is settled stays as it is.
IsKept : List Pending → List Pending → Type 0
IsKept before after =
    (id : ℕ) (p : Pending)
    → get_elem? before id ≡ some p
    → p.done ≡ true
    → get_elem? after id ≡ some p

start_pending-IsKept : (key : Text) (t : Tables) → IsKept t.objects (start_pending key t).0.objects
unfolding start_pending IsKept
start_pending-IsKept key t =
    if_cases {A = Tables × Begun} (λ r. IsKept t.objects r.0.objects) (leb 256 (length t.pending))
      (λ _ id p h d. h) (λ _ id p h d. get_elem?-before t.objects new_pending p id h)

look_up-IsKept :
    (now : ℕ) (key : Text) (tx : ℕ) (t : Tables) (o : Option CacheEntry) (q : Option ℕ)
    → lookup key t.pending ≡ q
    → IsKept t.objects (look_up now key tx o t).0.objects
unfolding look_up join_pending IsKept
look_up-IsKept now key tx t (some e) q same = λ id p h d. h
look_up-IsKept now key tx t none (some i) same = rw same (λ id p h d. h)
look_up-IsKept now key tx t none none same = rw same (start_pending-IsKept key t)

begin_request-IsKept :
    (now : ℕ) (key : Text) (tx : ℕ) (t : Tables)
    → IsKept t.objects (begin_request now key tx t).0.objects
unfolding begin_request IsKept
begin_request-IsKept now key tx t =
    let purged = purge_tables now t in
    look_up-IsKept now key tx purged (lookup key purged.cache) (lookup key purged.pending) refl

settled-IsKept :
    (key : Text) (id : ℕ) (outcome : Pending) (pending : List (Text × ℕ)) (objects : List Pending)
    → IsInFlight pending objects
    → lookup key pending ≡ some id
    → IsKept objects (set objects id outcome)
unfolding IsKept
settled-IsKept key id outcome pending objects f here i p h d =
    let (q, at, waits) = f.unsettled key id here in
    get_elem?-set_ne objects i id outcome
      (λ e. let same = sym at ∙ subst (λ n. get_elem? objects n ≡ some p) e h in cc)
    ∙ h

IsSettled-IsKept :
    (key : Text) (id : ℕ) (outcome : Pending) (leaders : Leaders) (t u : Tables)
    → IsSound leaders t
    → lookup key leaders ≡ some id
    → IsSettled key id outcome leaders t u
    → IsKept t.objects u.objects
IsSettled-IsKept key id outcome leaders t u sound here settled = rw settled.objects (
    settled-IsKept key id outcome t.pending t.objects sound.consistent.in_flight
      (sym (sound.led key) ∙ here))

Turn-IsKept :
    (s t : System)
    → IsSound s.leaders s.tables
    → Turn s t
    → IsKept s.tables.objects t.tables.objects
Turn-IsKept _ _ sound (begun now key tx s) = begin_request-IsKept now key tx s.tables
Turn-IsKept _ _ sound (published now key id packet parsed used s t here fits e) =
    IsSettled-IsKept key id (published_outcome packet used) s.leaders s.tables t sound here
      (publish-all now key id packet parsed used s.leaders s.tables t sound here fits e)
Turn-IsKept _ _ sound (abandoned key id code s here) =
    IsSettled-IsKept key id (abandoned_outcome code) s.leaders s.tables
      (abandon key id code s.tables) sound here
      (abandon-IsSettled key id code s.leaders s.tables sound here)

-- What an object says once it is done stays as it is, whatever critical section comes next: all who
-- wait for it find the same outcome.
pub Turn-get_elem? :
    (s t : System) (id : ℕ) (p : Pending)
    → Reached s
    → Turn s t
    → get_elem? s.tables.objects id ≡ some p
    → p.done ≡ true
    → get_elem? t.tables.objects id ≡ some p
unfolding IsKept
Turn-get_elem? s t id p past step here settled =
    Turn-IsKept s t (Reached-IsSound s past) step id p here settled
