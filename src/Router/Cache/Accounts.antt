-- ===== src/Router/Cache/Accounts.antt =====
-- NativeDNS.Core/src/router.cpp: `cache_bytes` follows what the cache holds.
use native_dns.Prelude.{
  ℕ, ◌+◌, ◌≤◌, ◌<◌, ◌≡◌, none, [], ◌∷◌, leb, if_cases, length, Text, lookup, Distinct, arith,
}
use native_dns.Router.Cache.{CacheEntry, Entries, add_size, sub_size, entry_bytes, purge}

unfoldable pub total : Entries → ℕ
total [] = 0
total ((k, e) ∷ cache) = entry_bytes k e.packet + total cache

pub add_size_lem : (a b : ℕ) → a + b < 18446744073709551616 → add_size a b ≡ a + b
unfolding add_size
add_size_lem a b h = omega (arith, h)

pub sub_size_lem : (a b c : ℕ) → a ≡ b + c → a < 18446744073709551616 → sub_size a b ≡ c
unfolding sub_size
sub_size_lem a b c e h = omega (arith, e, h)

-- Part of a cache.
pub record IsPart (part whole : Entries) : Type 0 where
  pub absent : (k : Text) → lookup k whole ≡ none → lookup k part ≡ none
  pub shorter : length part ≤ length whole
  pub smaller : total part ≤ total whole
  pub distinct : Distinct part

pub IsPart-refl : (cache : Entries) → Distinct cache → IsPart cache cache
IsPart-refl cache d = record {
  absent = λ k a. a;
  shorter = omega arith;
  smaller = omega arith;
  distinct = d;
}

pub IsPart-trans : {a b c : Entries} → IsPart a b → IsPart b c → IsPart a c
IsPart-trans p q = record {
  absent = λ k h. p.absent k (q.absent k h);
  shorter = omega (arith, p.shorter, q.shorter);
  smaller = omega (arith, p.smaller, q.smaller);
  distinct = p.distinct;
}

lookup-tail :
    (k : Text) (e : CacheEntry) (cache : Entries) (j : Text)
    → lookup j ((k, e) ∷ cache) ≡ none
    → lookup j cache ≡ none
unfolding lookup
lookup-tail k e cache j h = ground arith

IsPart-drop :
    (k : Text) (e : CacheEntry) {part whole : Entries}
    → IsPart part whole
    → IsPart part ((k, e) ∷ whole)
unfolding total
IsPart-drop k e {whole = whole} p = record {
  absent = λ j h. p.absent j (lookup-tail k e whole j h);
  shorter = omega (arith, p.shorter);
  smaller = omega (arith, p.smaller);
  distinct = p.distinct;
}

lookup-cons_none :
    (k : Text) (e : CacheEntry) (part whole : Entries) (j : Text)
    → (lookup j whole ≡ none → lookup j part ≡ none)
    → lookup j ((k, e) ∷ whole) ≡ none
    → lookup j ((k, e) ∷ part) ≡ none
unfolding lookup
lookup-cons_none k e part whole j h a = ground (arith, h, a)

IsPart-cons :
    (k : Text) (e : CacheEntry) {part whole : Entries}
    → lookup k whole ≡ none
    → IsPart part whole
    → IsPart ((k, e) ∷ part) ((k, e) ∷ whole)
unfolding total
IsPart-cons k e {part} {whole} fresh p = record {
  absent = λ j h. lookup-cons_none k e part whole j (p.absent j) h;
  shorter = omega (arith, p.shorter);
  smaller = omega (arith, p.smaller);
  distinct = (p.absent k fresh, p.distinct);
}

-- The count goes with the part that is left; `r` counts something else.
abbrev pub Counted : Entries → ℕ → Entries × ℕ → Type 0
Counted whole r (part, bytes) = IsPart part whole × (bytes ≡ total part + r)

pub purge-Counted :
    (now : ℕ) (cache : Entries) (bytes r : ℕ)
    → Distinct cache
    → bytes ≡ total cache + r
    → bytes < 18446744073709551616
    → Counted cache r (purge now cache bytes)
unfolding purge total
purge-Counted now [] bytes r d e h =
    (record { absent = λ k a. a; shorter = omega arith; smaller = omega arith; distinct = tt }, e)
purge-Counted now ((k, e) ∷ cache) bytes r d same h =
    let size = entry_bytes k e.packet in
    if_cases (Counted ((k, e) ∷ cache) r) (leb e.expires now)
      (λ _.
        let left = sub_size_lem bytes size (total cache + r) (omega (arith, same)) h in
        let (part, count) =
          purge-Counted now cache (sub_size bytes size) r d.1 left (omega (arith, left, same, h)) in
        (IsPart-drop k e part, count))
      (λ _.
        let (part, count) = purge-Counted now cache bytes (size + r) d.1 (omega (arith, same)) h in
        (IsPart-cons k e d.0 part, omega (arith, count)))
