-- ===== src/Service/Pool.antt =====
-- NativeDNS.Core/src/pool_limits.hpp: `limit_idle_pool`. A pool maps a key to the busy flags of its
-- connections, in the order of its keys.
pub mod Limits
use native_dns.Prelude.{
  ℕ, Bool, true, false, not, ◌&&◌, ◌||◌, List, [], ◌∷◌, ltb, leb, if◌then◌else◌, any, all, length,
  Text, text_eq, upstream_busy, Result, ok, err, ◌>>◌, throw_if,
}

abbrev pub Pool : Type 0
Pool = List (Text × List Bool)

abbrev pub max_keys : ℕ
max_keys = 128

unfoldable pub contains : Text → Pool → Bool
contains key [] = false
contains key ((k, entries) ∷ pool) = if text_eq k key then true else contains key pool

-- No connection of the key is busy.
unfoldable pub is_idle : List Bool → Bool
is_idle entries = all not entries

-- The loop that erases idle keys.
unfoldable pub erase_idle : Pool → Pool
unfolding is_idle
erase_idle [] = []
erase_idle ((k, entries) ∷ pool) =
    let rest = erase_idle pool in if is_idle entries then rest else (k, entries) ∷ rest

unfoldable pub limit_idle_pool : Pool → Text → Result Pool
unfolding contains erase_idle
limit_idle_pool pool key =
    if contains key pool || ltb (length pool) max_keys
    then ok pool
    else throw_if (leb max_keys (length (erase_idle pool))) upstream_busy >> ok (erase_idle pool)
