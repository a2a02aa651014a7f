-- ===== src/Router/Cache/Reachable.antt =====
-- NativeDNS.Core/src/router.cpp: the cache and the queries in flight under any order of the critical
-- sections of `exchange_cached`. `leaders` holds the requests that exchange a query themselves, each
-- with the object that it settles.
use native_dns.Prelude.{
  ℕ, ◌≡◌, refl, sym, subst, ◌∙◌, inl, inr, Option, none, some, List, ◌∷◌, leb, if_cases, Bool-cases,
  length, Text, text_eq, text_eq_iff, lookup, put, Distinct, lookup-put_self, lookup-put_ne,
}
use native_dns.Router.Cache.{
  CacheEntry, Tables, max_pending, purge_tables, Begun, answered, waiting, refused, leading,
  start_pending, join_pending, look_up, begin_request,
}
use native_dns.Router.Cache.Flight.{
  IsConsistent, purge_tables-IsConsistent, text-cases, added-IsInFlight,
}

abbrev pub Leaders : Type 0
Leaders = List (Text × ℕ)

unfoldable pub enlist : Text → Begun → Leaders → Leaders
enlist key (answered r used) leaders = leaders
enlist key (waiting id) leaders = leaders
enlist key (refused code) leaders = leaders
enlist key (leading id) leaders = (key, id) ∷ leaders

-- The tables, and the leaders: one for each query in flight.
pub record IsSound (leaders : Leaders) (t : Tables) : Type 0 where
  pub consistent : IsConsistent t
  pub led : (k : Text) → lookup k leaders ≡ lookup k t.pending
  pub distinct : Distinct leaders

abbrev pub IsSoundAfter : Text → Leaders → Tables × Begun → Type 0
IsSoundAfter key leaders (t, b) = IsSound (enlist key b leaders) t

lookup-cons-put :
    (k key : Text) (id : ℕ) (leaders pending : List (Text × ℕ))
    → lookup k leaders ≡ lookup k pending
    → lookup k ((key, id) ∷ leaders) ≡ lookup k (put key id pending)
unfolding lookup
lookup-cons-put k key id leaders pending h = elim (Bool-cases (text_eq key k)) [
  | inl hit ↦
      let same = (text_eq_iff key k).0 hit in
      rw hit (
        sym (
          subst (λ j. lookup j (put key id pending) ≡ some id) same
            (lookup-put_self key id pending)))
  | inr miss ↦ rw miss (
      h
      ∙ sym (
          lookup-put_ne k key id pending
            (λ same. let hit = (text_eq_iff key k).1 (sym same) in cc)))
]

start_pending-IsSound :
    (key : Text) (leaders : Leaders) (t : Tables)
    → IsSound leaders t
    → lookup key t.cache ≡ none
    → lookup key t.pending ≡ none
    → IsSoundAfter key leaders (start_pending key t)
unfolding start_pending enlist lookup
start_pending-IsSound key leaders t s uncached fresh =
    let id = length t.objects in
    let f = s.consistent.in_flight in
    if_cases {A = Tables × Begun} (IsSoundAfter key leaders) (leb max_pending (length t.pending))
      (λ _. s)
      (λ room. record {
        consistent = record {
          accounted = s.consistent.accounted;
          in_flight = added-IsInFlight key t.pending t.objects f fresh room;
          apart = λ k i h. elim (text-cases k key) [
            | inl same ↦ subst (λ j. lookup j t.cache ≡ none) (sym same) uncached
            | inr other ↦ s.consistent.apart k i (sym (lookup-put_ne k key id t.pending other) ∙ h)
          ];
        };
        led = λ k. lookup-cons-put k key id leaders t.pending (s.led k);
        distinct = (s.led key ∙ fresh, s.distinct);
      })

join_pending-IsSound :
    (key : Text) (leaders : Leaders) (t : Tables) (o : Option ℕ)
    → lookup key t.pending ≡ o
    → IsSound leaders t
    → lookup key t.cache ≡ none
    → IsSoundAfter key leaders (join_pending key o t)
unfolding join_pending enlist
join_pending-IsSound key leaders t (some id) e s uncached = s
join_pending-IsSound key leaders t none e s uncached =
    start_pending-IsSound key leaders t s uncached e

look_up-IsSound :
    (now : ℕ) (key : Text) (tx : ℕ) (leaders : Leaders) (t : Tables) (o : Option CacheEntry)
    → lookup key t.cache ≡ o
    → IsSound leaders t
    → IsSoundAfter key leaders (look_up now key tx o t)
unfolding look_up enlist
look_up-IsSound now key tx leaders t (some entry) e s = s
look_up-IsSound now key tx leaders t none e s =
    join_pending-IsSound key leaders t (lookup key t.pending) refl s e

pub begin_request-IsSound :
    (now : ℕ) (key : Text) (tx : ℕ) (leaders : Leaders) (t : Tables)
    → IsSound leaders t
    → IsSoundAfter key leaders (begin_request now key tx t)
unfolding begin_request
begin_request-IsSound now key tx leaders t s =
    let (c, same) = purge_tables-IsConsistent now t s.consistent in
    look_up-IsSound now key tx leaders (purge_tables now t) (lookup key (purge_tables now t).cache)
      refl (record { consistent = c; led = λ k. rw same (s.led k); distinct = s.distinct })
