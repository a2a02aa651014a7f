-- ===== src/Router/Cache/Flight.antt =====
-- NativeDNS.Core/src/router.cpp: the cache and the queries in flight under a critical section of
-- `exchange_cached`.
use native_dns.Prelude.{
  ℕ, zero, suc, ◌+◌, ◌≤◌, ◌<◌, false, ◌≡◌, ◌≢◌, refl, sym, subst, ◌∙◌, ◌⊎◌, inl, inr, none, some,
  some-injective, List, [], ◌∷◌, ◌++◌, leb, Bool-cases, length, get_elem?, get_elem?-append, Text,
  text_eq, text_eq_iff, lookup, put, Distinct, Distinct-put, lookup-put_self, lookup-put_ne,
  length-put, arith,
}
use native_dns.Router.Cache.{
  CacheEntry, Pending, new_pending, Entries, Tables, entry_bytes, max_entries, max_pending,
  max_cache_bytes, purge_tables,
}
use native_dns.Router.Cache.Accounts.{total, purge-Counted}

pub total-put :
    (k : Text) (e : CacheEntry) (cache : Entries)
    → lookup k cache ≡ none
    → total (put k e cache) ≡ entry_bytes k e.packet + total cache
unfolding total lookup put
total-put k e [] h = refl
total-put k e ((j, f) ∷ cache) h = ground (arith, total-put k e cache, h)

-- The cache and its count.
pub record IsAccounted (cache : Entries) (bytes : ℕ) : Type 0 where
  pub counted : bytes ≡ total cache
  pub small : total cache ≤ max_cache_bytes
  pub few : length cache ≤ max_entries
  pub distinct : Distinct cache

-- The queries in flight: each has an object of its own that is not settled yet.
pub record IsInFlight (pending : List (Text × ℕ)) (objects : List Pending) : Type 0 where
  pub few : length pending ≤ max_pending
  pub distinct : Distinct pending
  pub unsettled :
      (k : Text) (id : ℕ)
      → lookup k pending ≡ some id
      → (p : Pending) × (get_elem? objects id ≡ some p) × (p.done ≡ false)
  pub own : (j k : Text) (id : ℕ) → lookup j pending ≡ some id → lookup k pending ≡ some id → j ≡ k

-- No key is both in the cache and in flight.
abbrev pub IsApart : Entries → List (Text × ℕ) → Type 0
IsApart cache pending = (k : Text) (id : ℕ) → lookup k pending ≡ some id → lookup k cache ≡ none

pub record IsConsistent (t : Tables) : Type 0 where
  pub accounted : IsAccounted t.cache t.cache_bytes
  pub in_flight : IsInFlight t.pending t.objects
  pub apart : IsApart t.cache t.pending

pub purge_tables-IsConsistent :
    (now : ℕ) (t : Tables)
    → IsConsistent t
    → IsConsistent (purge_tables now t) × ((purge_tables now t).pending ≡ t.pending)
unfolding purge_tables
purge_tables-IsConsistent now t c =
    let (part, count) =
      purge-Counted now t.cache t.cache_bytes 0 c.accounted.distinct
        (omega (arith, c.accounted.counted))
        (omega (arith, c.accounted.counted, c.accounted.small)) in
    (
      record {
        accounted = record {
          counted = omega (arith, count);
          small = omega (arith, part.smaller, c.accounted.small);
          few = omega (arith, part.shorter, c.accounted.few);
          distinct = part.distinct;
        };
        in_flight = c.in_flight;
        apart = λ k id h. part.absent k (c.apart k id h);
      },
      refl,
    )

-- A new object for a key that is neither cached nor in flight.
pub get_elem?-before :
    (objects : List Pending) (q p : Pending) (id : ℕ)
    → get_elem? objects id ≡ some p
    → get_elem? (objects ++ q ∷ []) id ≡ some p
get_elem?-before [] q p id e = cc
get_elem?-before (x ∷ objects) q p zero e = e
get_elem?-before (x ∷ objects) q p (suc id) e = get_elem?-before objects q p id e

pub get_elem?-some-lt :
    (objects : List Pending) (id : ℕ) {p : Pending}
    → get_elem? objects id ≡ some p
    → id < length objects
get_elem?-some-lt [] id e = cc
get_elem?-some-lt (x ∷ objects) zero e = omega arith
get_elem?-some-lt (x ∷ objects) (suc id) e = omega (arith, get_elem?-some-lt objects id e)

pub text-cases : (j k : Text) → (j ≡ k) ⊎ (j ≢ k)
text-cases j k = elim (Bool-cases (text_eq j k)) [
  | inl e ↦ inl ((text_eq_iff j k).0 e)
  | inr e ↦ inr (λ same. let hit = (text_eq_iff j k).1 same in cc)
]

lookup-put-cases :
    (j k : Text) (v w : ℕ) (m : List (Text × ℕ))
    → lookup j (put k v m) ≡ some w
    → ((j ≡ k) × (v ≡ w)) ⊎ ((j ≢ k) × (lookup j m ≡ some w))
lookup-put-cases j k v w m h = elim (text-cases j k) [
  | inl same ↦ inl (
    same,
    some-injective
        (sym (lookup-put_self k v m) ∙ subst (λ i. lookup i (put k v m) ≡ some w) same h),
  )
  | inr apart ↦ inr (apart, sym (lookup-put_ne j k v m apart) ∙ h)
]

pub added-IsInFlight :
    (key : Text) (pending : List (Text × ℕ)) (objects : List Pending)
    → IsInFlight pending objects
    → lookup key pending ≡ none
    → leb max_pending (length pending) ≡ false
    → IsInFlight (put key (length objects) pending) (objects ++ new_pending ∷ [])
added-IsInFlight key pending objects f fresh room =
    let new = length objects in
    let old-lt = λ (k : Text) (id : ℕ) (h : lookup k pending ≡ some id).
      get_elem?-some-lt objects id (f.unsettled k id h).1 in
    record {
      few = ground (arith, length-put key new pending fresh, room);
      distinct = Distinct-put key new pending fresh f.distinct;
      unsettled = λ k id h. elim (lookup-put-cases k key new id pending h) [
        | inl (same, here) ↦ (
          new_pending,
          subst (λ i. get_elem? (objects ++ new_pending ∷ []) i ≡ some new_pending) here
              (get_elem?-append objects new_pending []),
          refl,
        )
        | inr (apart, there) ↦
            let (p, at, waits) = f.unsettled k id there in
            (p, get_elem?-before objects new_pending p id at, waits)
      ];
      own = λ j k id hj hk. elim (lookup-put-cases j key new id pending hj) [
        | inl (same, here) ↦ elim (lookup-put-cases k key new id pending hk) [
          | inl (same', here') ↦ same ∙ sym same'
          | inr (apart', there') ↦ absurd (omega (arith, old-lt k id there', here))
        ]
        | inr (apart, there) ↦ elim (lookup-put-cases k key new id pending hk) [
          | inl (same', here') ↦ absurd (omega (arith, old-lt j id there, here'))
          | inr (apart', there') ↦ f.own j k id there there'
        ]
      ];
    }
