-- ===== src/Router/Cache/Eviction.antt =====
-- NativeDNS.Core/src/router.cpp: the loop that makes room ends, and makes room.
use native_dns.Prelude.{
  ℕ, zero, suc, ◌+◌, ◌≤◌, ◌<◌, true, false, ◌≡◌, refl, sym, subst, ◌∙◌, ◌⊎◌, inl, inr, Option, none,
  some, some-injective, [], ◌∷◌, ltb, if_cases, Bool-cases, Option-cases, length, Text, text_eq,
  text_eq_iff, lookup, erase, Distinct, lookup-erase-none, Distinct-erase, length-erase_le, Result,
  ok, arith,
}
use native_dns.Router.Cache.{
  CacheEntry, Entries, add_size, entry_bytes, max_entries, max_cache_bytes, earlier, oldest,
  is_full, evict_oldest, evict,
}
use native_dns.Router.Cache.Accounts.{
  total, add_size_lem, sub_size_lem, IsPart, IsPart-refl, IsPart-trans,
}

-- The oldest entry is one of the cache.
earlier-cases :
    (a : Text × CacheEntry) (o : Option (Text × CacheEntry))
    → (earlier a o ≡ a) ⊎ (o ≡ some (earlier a o))
unfolding earlier
earlier-cases a none = inl refl
earlier-cases a (some b) =
    if_cases {A = Text × CacheEntry} (λ r. (r ≡ a) ⊎ (some b ≡ some r))
      (ltb b.1.expires a.1.expires) (λ _. inr refl) (λ _. inl refl)

lookup-cons_ne :
    (j k : Text) (e f : CacheEntry) (cache : Entries)
    → lookup j cache ≡ none
    → lookup k cache ≡ some f
    → lookup k ((j, e) ∷ cache) ≡ some f
unfolding lookup
lookup-cons_ne j k e f cache a b = ground (arith, text_eq_iff j k, a, b)

lookup-cons_self :
    (k : Text) (e : CacheEntry) (cache : Entries) → lookup k ((k, e) ∷ cache) ≡ some e
unfolding lookup
lookup-cons_self k e cache = ground (arith, text_eq_iff k k)

lookup-oldest :
    (cache : Entries) (a : Text × CacheEntry)
    → Distinct cache
    → oldest cache ≡ some a
    → lookup a.0 cache ≡ some a.1
unfolding oldest
lookup-oldest [] a d e = cc
lookup-oldest ((j, f) ∷ cache) a d e = elim (earlier-cases (j, f) (oldest cache)) [
  | inl h ↦
      let same : a ≡ (j, f) = sym (some-injective e) ∙ h in rw same (lookup-cons_self j f cache)
  | inr h ↦ lookup-cons_ne j a.0 f a.1 cache d.0 (lookup-oldest cache a d.1 (h ∙ e))
]

total-erase :
    (k : Text) (e : CacheEntry) (cache : Entries)
    → lookup k cache ≡ some e
    → (total cache ≡ entry_bytes k e.packet + total (erase k cache))
      × (length cache ≡ suc (length (erase k cache)))
unfolding total lookup erase
total-erase k e [] h = cc
total-erase k e ((j, f) ∷ cache) h = elim (Bool-cases (text_eq j k)) [
  | inl o ↦
      let named = (text_eq_iff j k).0 o in
      let same : f ≡ e = some-injective (rw o at h) in rw (o, named, same) (refl, refl)
  | inr o ↦
      let (bytes, count) = total-erase k e cache (rw o at h) in
      rw o (omega (arith, bytes), omega (arith, count))
]

pub total-erase_le : (k : Text) (cache : Entries) → total (erase k cache) ≤ total cache
unfolding total erase
total-erase_le k [] = omega arith
total-erase_le k ((j, f) ∷ cache) = ground (arith, total-erase_le k cache)

erase-IsPart : (k : Text) (cache : Entries) → Distinct cache → IsPart (erase k cache) cache
erase-IsPart k cache d = record {
  absent = λ j h. lookup-erase-none j k cache h;
  shorter = length-erase_le k cache;
  smaller = total-erase_le k cache;
  distinct = Distinct-erase k cache d;
}

oldest-none : (cache : Entries) → oldest cache ≡ none → cache ≡ []
unfolding oldest
oldest-none [] e = refl
oldest-none (a ∷ cache) e = cc

-- Room for `size` more bytes and one more entry.
pub record HasRoom (size : ℕ) (whole : Entries) (r : Entries × ℕ) : Type 0 where
  pub part : IsPart r.0 whole
  pub counted : r.1 ≡ total r.0
  pub few : length r.0 < max_entries
  pub fits : total r.0 + size ≤ max_cache_bytes

abbrev pub Evicts : ℕ → Entries → Result (Entries × ℕ) → Type 0
Evicts size whole r = (s : Entries × ℕ) × (r ≡ ok s) × HasRoom size whole s

not-full :
    (size : ℕ) (cache : Entries)
    → total cache ≤ max_cache_bytes
    → size ≤ max_cache_bytes
    → is_full size cache (total cache) ≡ false
    → (length cache < max_entries) × (total cache + size ≤ max_cache_bytes)
unfolding is_full
not-full size cache small fits e =
    let exact = add_size_lem (total cache) size (omega (arith, small, fits)) in
    ground (arith, exact, e)

empty-full : (size : ℕ) → size ≤ max_cache_bytes → ¬ (is_full size [] (total []) ≡ true)
unfolding is_full total add_size
empty-full size fits full = absurd (ground (arith, full, fits))

evict_oldest-Evicts :
    (size : ℕ) (cache : Entries) (loop : Entries → ℕ → Result (Entries × ℕ))
    → Distinct cache
    → total cache ≤ max_cache_bytes
    → size ≤ max_cache_bytes
    → is_full size cache (total cache) ≡ true
    → ((k : Text)
        → suc (length (erase k cache)) ≡ length cache
        → Evicts size (erase k cache) (loop (erase k cache) (total (erase k cache))))
    → Evicts size cache (evict_oldest loop (oldest cache) cache (total cache))
unfolding evict_oldest
evict_oldest-Evicts size cache loop d small fits full again = elim (Option-cases (oldest cache)) [
  | inl none_left ↦ absurd (
      empty-full size fits
        (subst (λ c. is_full size c (total c) ≡ true) (oldest-none cache none_left) full))
  | inr ((k, e), found) ↦
      let (bytes, count) = total-erase k e cache (lookup-oldest cache (k, e) d found) in
      let left =
        sub_size_lem (total cache) (entry_bytes k e.packet) (total (erase k cache)) bytes
          (omega (arith, small)) in
      let (s, same, room) = again k (sym count) in
      rw (found, left)
        (
          s,
          same,
          record {
            part = IsPart-trans room.part (erase-IsPart k cache d);
            counted = room.counted;
            few = room.few;
            fits = room.fits;
          },
        )
]

pub evict-Evicts :
    (n size : ℕ) (cache : Entries)
    → length cache < n
    → Distinct cache
    → total cache ≤ max_cache_bytes
    → size ≤ max_cache_bytes
    → Evicts size cache (evict n size cache (total cache))
unfolding evict
evict-Evicts zero size cache short d small fits = absurd (omega (arith, short))
evict-Evicts (suc n) size cache short d small fits =
    if_cases (Evicts size cache) (is_full size cache (total cache))
      (λ full. evict_oldest-Evicts size cache (evict n size) d small fits full (λ k count.
        evict-Evicts n size (erase k cache) (omega (arith, count, short)) (Distinct-erase k cache d)
          (omega (arith, total-erase_le k cache, small)) fits))
      (λ free.
        let (few, room) = not-full size cache small fits free in
        (
          (cache, total cache),
          refl,
          record { part = IsPart-refl cache d; counted = refl; few = few; fits = room },
        ))
