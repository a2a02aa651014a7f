-- ===== src/Network/Interfaces/Refresh.antt =====
-- NativeDNS.Core/src/network.cpp: when the generation of a snapshot changes, and what the snapshot
-- holds. A route names the generation of the snapshot that it was made from.
use mathlib.Core.List.{Permᴰ, Perm}
use mathlib.Core.List.Permᴰ
use native_dns.Prelude.{ℕ, ◌+◌, ◌%◌, ◌≤◌, ◌<◌, Bool, false, ◌≡◌, ◌⊎◌, List, [], ◌∷◌, Text, text_ltb}
use native_dns.Network.Interfaces.{
  InterfaceInfo, NetworkSnapshot, Enumeration, listed, failed, refresh,
}

-- No adapter stands behind one whose identifier is greater.
pub IsSorted : List InterfaceInfo → Type 0
IsSorted [] = Unit
IsSorted (a ∷ []) = Unit
IsSorted (a ∷ b ∷ infos) = (text_ltb b.id a.id ≡ false) × IsSorted (b ∷ infos)

-- What a source makes of the adapters and the error: a list of adapters is kept in the order of
-- their identifiers and clears the error; a source that fails leaves the adapters and says why.
pub IsObserved : Enumeration → List InterfaceInfo → List InterfaceInfo → Text → Type 0
IsObserved (listed infos) old new error = Perm infos new × IsSorted new × (error ≡ [])
IsObserved (failed text) old new error = (new ≡ old) × (error ≡ text)

-- The snapshot holds what its source observed, under its generation or the next one; it is a new
-- one whenever that was asked for or something differs.
pub record IsRefreshed (invalidate : Bool) (source : Enumeration) (previous next : NetworkSnapshot)
    : Type 0 where
  pub observation : IsObserved source previous.interfaces next.interfaces next.error
  pub renewed :
      (next ≡ previous) × (invalidate ≡ false)
      ⊎ (next.generation ≡ (previous.generation + 1) % 18446744073709551616)

-- The refreshes of a monitor, one behind the other.
unfoldable pub refreshes : List (Bool × Enumeration) → NetworkSnapshot → NetworkSnapshot
refreshes [] s = s
refreshes ((invalidate, source) ∷ events) s = refreshes events (refresh invalidate source s)

-- At most `n` generations on, and the same snapshot where there are none between.
abbrev pub Later : ℕ → NetworkSnapshot → NetworkSnapshot → Type 0
Later n s t = ((t ≡ s) ⊎ (s.generation < t.generation)) × (t.generation ≤ s.generation + n)
