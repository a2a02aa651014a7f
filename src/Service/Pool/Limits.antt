-- ===== src/Service/Pool/Limits.antt =====
-- NativeDNS.Core/src/pool_limits.hpp: what `limit_idle_pool` keeps and what it makes room for.
use native_dns.Prelude.{
  ◌<◌, Bool, true, false, ◌||◌, ◌≡◌, refl, ◌⊎◌, inl, inr, List, [], ◌∷◌, ltb, leb, if_cases,
  Bool-cases, length, Text, ok, Safe, Safe-throw_if, arith,
}
use native_dns.Service.Pool.{Pool, max_keys, contains, is_idle, erase_idle, limit_idle_pool}

-- A key with its connections is in the pool.
pub data Holds (k : Text) (entries : List Bool) : Pool → Type 0 where
  first : {pool : Pool} → Holds k entries ((k, entries) ∷ pool)
  other : {e : Text × List Bool} {pool : Pool} → Holds k entries pool → Holds k entries (e ∷ pool)

erase_idle-Holds :
    (k : Text) (entries : List Bool) (pool : Pool)
    → is_idle entries ≡ false
    → Holds k entries pool
    → Holds k entries (erase_idle pool)
unfolding erase_idle
erase_idle-Holds k entries [] busy h = elim h [ ]
erase_idle-Holds k entries ((j, es) ∷ pool) busy first = rw busy first
erase_idle-Holds k entries ((j, es) ∷ pool) busy (other h) =
    if_cases (Holds k entries) (is_idle es) (λ _. erase_idle-Holds k entries pool busy h)
      (λ _. other (erase_idle-Holds k entries pool busy h))

-- What is left has every busy key with its connections, and room for the key that is asked for
-- unless it is there already; a key that is there leaves the pool alone.
pub record IsLimited (pool : Pool) (key : Text) (r : Pool) : Type 0 where
  pub kept :
      (k : Text) (entries : List Bool)
      → is_idle entries ≡ false
      → Holds k entries pool
      → Holds k entries r
  pub room : (contains key pool ≡ true) × (r ≡ pool) ⊎ (length r < max_keys)

-- Limiting a pool refuses, or keeps all busy connections and makes room for the key.
pub limit_idle_pool-IsLimited :
    (pool : Pool) (key : Text) → Safe (IsLimited pool key) (limit_idle_pool pool key)
unfolding limit_idle_pool
limit_idle_pool-IsLimited pool key =
    if_cases (Safe (IsLimited pool key)) (contains key pool || ltb (length pool) max_keys)
      (λ there. record {
        kept = λ k entries busy h. h;
        room = elim (Bool-cases (contains key pool)) [
          | inl e ↦ inl (e, refl)
          | inr e ↦ inr (ground (arith, there, e))
        ];
      })
      (λ _.
        Safe-throw_if (IsLimited pool key) (leb max_keys (length (erase_idle pool))) _
          (ok (erase_idle pool))
          λ fits. record {
            kept = λ k entries busy h. erase_idle-Holds k entries pool busy h;
            room = inr (ground (arith, fits));
          })
