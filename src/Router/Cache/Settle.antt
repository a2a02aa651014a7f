-- ===== src/Router/Cache/Settle.antt =====
-- NativeDNS.Core/src/router.cpp: how the critical sections behind an exchange leave the tables of
-- `exchange_cached`.
use native_dns.Prelude.{
  ℕ, ◌+◌, ◌*◌, min, ◌≤◌, true, ◌≡◌, ◌≢◌, refl, sym, subst, ◌∙◌, inl, inr, none, some, List, [],
  if◌then◌else◌, if_cases, length, set, get_elem?, get_elem?-set, get_elem?-set_ne, Text, lookup,
  put, erase, Distinct, Distinct-put, Distinct-erase, lookup-put_ne, lookup-erase_ne,
  lookup-erase_self, length-put, length-erase_le, Code, Result, ok, arith,
}
use native_dns.Dns.Wire.{Packet}
use native_dns.Dns.Answer.{DnsAnswer}
use native_dns.Router.Cache.{
  CacheEntry, Pending, Entries, Tables, add_size, entry_bytes, max_cache_bytes, max_ttl, second,
  store_entry, settle, publish, abandon,
}
use native_dns.Router.Cache.Accounts.{add_size_lem}
use native_dns.Router.Cache.Eviction.{HasRoom, evict-Evicts}
use native_dns.Router.Cache.Flight.{total-put, IsAccounted, IsInFlight, IsConsistent, text-cases}
use native_dns.Router.Cache.Reachable.{Leaders, IsSound}

-- What is left behind an erased key.
pub lookup-erase-cases :
    (k key : Text) (id : ℕ) (m : List (Text × ℕ))
    → Distinct m
    → lookup k (erase key m) ≡ some id
    → (k ≢ key) × (lookup k m ≡ some id)
lookup-erase-cases k key id m d h = elim (text-cases k key) [
  | inl same ↦
      let gone =
        subst (λ j. lookup j (erase key m) ≡ none) (sym same) (lookup-erase_self key m d) in
      cc
  | inr apart ↦ (apart, sym (lookup-erase_ne k key m apart) ∙ h)
]

settled-IsInFlight :
    (key : Text) (id : ℕ) (outcome : Pending) (pending : List (Text × ℕ)) (objects : List Pending)
    → IsInFlight pending objects
    → lookup key pending ≡ some id
    → IsInFlight (erase key pending) (set objects id outcome)
settled-IsInFlight key id outcome pending objects f here = record {
  few = omega (arith, f.few, length-erase_le key pending);
  distinct = Distinct-erase key pending f.distinct;
  unsettled = λ k i h.
      let (apart, there) = lookup-erase-cases k key i pending f.distinct h in
      let (p, at, waits) = f.unsettled k i there in
      let kept = get_elem?-set_ne objects i id outcome (λ e.
        apart (f.own k key i there (subst (λ n. lookup key pending ≡ some n) (sym e) here))) in
      (p, kept ∙ at, waits);
  own = λ j k i hj hk.
      f.own j k i (lookup-erase-cases j key i pending f.distinct hj).1
        (lookup-erase-cases k key i pending f.distinct hk).1;
}

lookup-erase-agree :
    (k key : Text) (leaders pending : List (Text × ℕ))
    → Distinct leaders
    → Distinct pending
    → lookup k leaders ≡ lookup k pending
    → lookup k (erase key leaders) ≡ lookup k (erase key pending)
lookup-erase-agree k key leaders pending d e h = elim (text-cases k key) [
  | inl same ↦
      subst (λ j. lookup j (erase key leaders) ≡ lookup j (erase key pending)) (sym same)
        (lookup-erase_self key leaders d ∙ sym (lookup-erase_self key pending e))
  | inr apart ↦ lookup-erase_ne k key leaders apart ∙ h ∙ sym (lookup-erase_ne k key pending apart)
]

-- The tables before a query is settled: its key may be in the cache already.
pub record IsReady (key : Text) (t s : Tables) : Type 0 where
  pub accounted : IsAccounted s.cache s.cache_bytes
  pub same_pending : s.pending ≡ t.pending
  pub same_objects : s.objects ≡ t.objects
  pub apart : (k : Text) → k ≢ key → lookup k t.cache ≡ none → lookup k s.cache ≡ none

pub settle-IsSound :
    (key : Text) (id : ℕ) (outcome : Pending) (leaders : Leaders) (t s : Tables)
    → IsSound leaders t
    → lookup key t.pending ≡ some id
    → IsReady key t s
    → IsSound (erase key leaders) (settle key id outcome s)
unfolding settle
settle-IsSound key id outcome leaders t s sound here r =
    let c = sound.consistent in
    record {
      consistent = record {
        accounted = r.accounted;
        in_flight =
            rw (r.same_pending, r.same_objects)
              (settled-IsInFlight key id outcome t.pending t.objects c.in_flight here);
        apart = λ k i h.
            let (apart, there) =
              lookup-erase-cases k key i t.pending c.in_flight.distinct (rw r.same_pending at h) in
            r.apart k apart (c.apart k i there);
      };
      led = λ k. rw r.same_pending (
          lookup-erase-agree k key leaders t.pending sound.distinct c.in_flight.distinct
            (sound.led k));
      distinct = Distinct-erase key leaders sound.distinct;
    }

-- The key of a new entry, and the accounts with it.
put-IsAccounted :
    (key : Text) (e : CacheEntry) (r : Entries × ℕ) (whole : Entries)
    → lookup key whole ≡ none
    → HasRoom (entry_bytes key e.packet) whole r
    → IsAccounted (put key e r.0) (add_size r.1 (entry_bytes key e.packet))
put-IsAccounted key e (cache, bytes) whole fresh room =
    let absent = room.part.absent key fresh in
    let size = entry_bytes key e.packet in
    let sum = total-put key e cache absent in
    let exact = add_size_lem bytes size (omega (arith, room.counted, room.fits)) in
    record {
      counted = omega (arith, exact, sum, room.counted);
      small = omega (arith, sum, room.fits);
      few = omega (arith, length-put key e cache absent, room.few);
      distinct = Distinct-put key e cache absent room.part.distinct;
    }

abbrev pub Stores : Text → Tables → Result Tables → Type 0
Stores key t r = (s : Tables) × (r ≡ ok s) × IsReady key t s

store_entry-Stores :
    (now : ℕ) (key : Text) (packet : Packet) (parsed : DnsAnswer) (used : ℕ) (t : Tables)
    → IsAccounted t.cache t.cache_bytes
    → lookup key t.cache ≡ none
    → entry_bytes key packet ≤ max_cache_bytes
    → Stores key t (store_entry now key packet parsed used t)
unfolding store_entry
store_entry-Stores now key packet parsed used t a fresh fits =
    let (r, same, room) =
      evict-Evicts (length t.cache + 1) (entry_bytes key packet) t.cache (omega arith) a.distinct
        a.small fits in
    let entry : CacheEntry = record {
      packet = packet;
      stored = now;
      expires = now + min parsed.cache_ttl max_ttl * second;
      used_server_id = used;
    } in
    rw (a.counted, same)
      (
        record t { cache = put key entry r.0; cache_bytes = add_size r.1 (entry_bytes key packet) },
        refl,
        record {
          accounted = put-IsAccounted key entry r t.cache fresh room;
          same_pending = refl;
          same_objects = refl;
          apart = λ k other h. lookup-put_ne k key entry r.0 other ∙ room.part.absent k h;
        },
      )

-- A query is settled with its outcome: its key is free, and who waits for it finds the outcome.
pub record IsSettled (key : Text) (id : ℕ) (outcome : Pending) (leaders : Leaders)
    (before t : Tables) : Type 0 where
  pub sound : IsSound (erase key leaders) t
  pub free : lookup key t.pending ≡ none
  pub objects : t.objects ≡ set before.objects id outcome
  pub outcome_kept : get_elem? t.objects id ≡ some outcome

settle-IsSettled :
    (key : Text) (id : ℕ) (outcome : Pending) (leaders : Leaders) (t s : Tables)
    → IsSound leaders t
    → lookup key t.pending ≡ some id
    → IsReady key t s
    → IsSettled key id outcome leaders t (settle key id outcome s)
unfolding settle
settle-IsSettled key id outcome leaders t s sound here r =
    let f = sound.consistent.in_flight in
    let (p, at, waits) = f.unsettled key id here in
    record {
      sound = settle-IsSound key id outcome leaders t s sound here r;
      objects = rw r.same_objects refl;
      free = rw r.same_pending (lookup-erase_self key t.pending f.distinct);
      outcome_kept = rw r.same_objects (get_elem?-set t.objects id outcome at);
    }

unchanged-IsReady : (key : Text) (t : Tables) → IsConsistent t → IsReady key t t
unchanged-IsReady key t c = record {
  accounted = c.accounted;
  same_pending = refl;
  same_objects = refl;
  apart = λ k other h. h;
}

publish-ready :
    (now : ℕ) (key : Text) (packet : Packet) (parsed : DnsAnswer) (used : ℕ) (t : Tables)
    → IsConsistent t
    → lookup key t.cache ≡ none
    → entry_bytes key packet ≤ max_cache_bytes
    → Stores key t (if parsed.cacheable then store_entry now key packet parsed used t else ok t)
publish-ready now key packet parsed used t c fresh fits =
    if_cases (Stores key t) parsed.cacheable
      (λ _. store_entry-Stores now key packet parsed used t c.accounted fresh fits)
      (λ _. (t, refl, unchanged-IsReady key t c))

-- The outcome that `publish` leaves.
abbrev pub published_outcome : Packet → ℕ → Pending
published_outcome packet used = record {
  done = true;
  packet = packet;
  used_server_id = used;
  error_code = none;
}

pub publish-IsSettled :
    (now : ℕ) (key : Text) (id : ℕ) (packet : Packet) (parsed : DnsAnswer) (used : ℕ)
    (leaders : Leaders) (t : Tables)
    → IsSound leaders t
    → lookup key leaders ≡ some id
    → entry_bytes key packet ≤ max_cache_bytes
    → (s : Tables) × (publish now key id packet parsed used t ≡ ok s)
      × IsSettled key id (published_outcome packet used) leaders t s
unfolding publish
publish-IsSettled now key id packet parsed used leaders t sound here fits =
    let c = sound.consistent in
    let flying = sym (sound.led key) ∙ here in
    let (s, same, ready) =
      publish-ready now key packet parsed used t c (c.apart key id flying) fits in
    rw same (
      settle key id (published_outcome packet used) s,
      refl,
      settle-IsSettled key id (published_outcome packet used) leaders t s sound flying ready,
    )

abbrev pub abandoned_outcome : Code → Pending
abandoned_outcome code = record {
  done = true;
  packet = [];
  used_server_id = 0;
  error_code = some code;
}

pub abandon-IsSettled :
    (key : Text) (id : ℕ) (code : Code) (leaders : Leaders) (t : Tables)
    → IsSound leaders t
    → lookup key leaders ≡ some id
    → IsSettled key id (abandoned_outcome code) leaders t (abandon key id code t)
unfolding abandon
abandon-IsSettled key id code leaders t sound here =
    settle-IsSettled key id (abandoned_outcome code) leaders t t sound (sym (sound.led key) ∙ here)
      (unchanged-IsReady key t sound.consistent)
