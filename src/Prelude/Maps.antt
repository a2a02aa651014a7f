-- ===== src/Prelude/Maps.antt =====
-- `std::map` with string keys: an association list in the order of its keys.
use Prim.Native.Nat.{suc, ◌≤◌}
use mathlib.Core.Path.{◌≡◌, refl}
use mathlib.Core.Logic.{◌≢◌}
use mathlib.Core.List.{List, [], ◌∷◌}
use mathlib.Core.Option.{none, some}
use native.Mathlib.Omega.{arith}
use native_dns.Prelude.Tests.{if◌then◌else◌}
use native_dns.Prelude.Lists.{length}
use native_dns.Prelude.Strings.{Text, text_eq, text_eq_iff, text_ltb, lookup}

module _ {ℓ} {V : Type ℓ} where
  -- `map[key] = value`
  unfoldable pub put : Text → V → List (Text × V) → List (Text × V)
  put k v [] = (k, v) ∷ []
  put k v ((j, w) ∷ m) =
      let rest = put k v m in
      if text_eq j k
      then (k, v) ∷ m
      else (if text_ltb k j then (k, v) ∷ (j, w) ∷ m else (j, w) ∷ rest)

  -- `map.erase(key)`
  unfoldable pub erase : Text → List (Text × V) → List (Text × V)
  erase k [] = []
  erase k ((j, w) ∷ m) = let rest = erase k m in if text_eq j k then m else (j, w) ∷ rest

  -- No key stands twice.
  abbrev pub Distinct : List (Text × V) → Type ℓ
  Distinct [] = Unit
  Distinct ((j, w) ∷ m) = (lookup j m ≡ none) × Distinct m

  pub lookup-put_self : (k : Text) (v : V) (m : List (Text × V)) → lookup k (put k v m) ≡ some v
  unfolding lookup put
  lookup-put_self k v [] = ground (arith, text_eq_iff k k)
  lookup-put_self k v ((j, w) ∷ m) = ground (arith, lookup-put_self k v m, text_eq_iff k k)

  pub lookup-put_ne :
      (i k : Text) (v : V) (m : List (Text × V)) → i ≢ k → lookup i (put k v m) ≡ lookup i m
  unfolding lookup put
  lookup-put_ne i k v [] h = ground (arith, text_eq_iff k i)
  lookup-put_ne i k v ((j, w) ∷ m) h =
      ground (arith, lookup-put_ne i k v m h, text_eq_iff k i, text_eq_iff j i, text_eq_iff j k)

  pub lookup-erase_ne :
      (i k : Text) (m : List (Text × V)) → i ≢ k → lookup i (erase k m) ≡ lookup i m
  unfolding lookup erase
  lookup-erase_ne i k [] h = refl
  lookup-erase_ne i k ((j, w) ∷ m) h =
      ground (arith, lookup-erase_ne i k m h, text_eq_iff j i, text_eq_iff j k)

  pub lookup-erase_self :
      (k : Text) (m : List (Text × V)) → Distinct m → lookup k (erase k m) ≡ none
  unfolding lookup erase
  lookup-erase_self k [] d = refl
  lookup-erase_self k ((j, w) ∷ m) d =
      ground (arith, lookup-erase_self k m d.1, text_eq_iff j k, d.0)

  -- Erasing adds no key.
  pub lookup-erase-none :
      (i k : Text) (m : List (Text × V)) → lookup i m ≡ none → lookup i (erase k m) ≡ none
  unfolding lookup erase
  lookup-erase-none i k [] e = refl
  lookup-erase-none i k ((j, w) ∷ m) e = ground (arith, lookup-erase-none i k m)

  pub Distinct-erase : (k : Text) (m : List (Text × V)) → Distinct m → Distinct (erase k m)
  unfolding erase
  Distinct-erase k [] d = tt
  Distinct-erase k ((j, w) ∷ m) d =
      ground (arith, Distinct-erase k m d.1, lookup-erase-none j k m d.0, d)

  pub Distinct-put :
      (k : Text) (v : V) (m : List (Text × V))
      → lookup k m ≡ none
      → Distinct m
      → Distinct (put k v m)
  unfolding put lookup
  Distinct-put k v [] e d = (refl, tt)
  Distinct-put k v ((j, w) ∷ m) e d =
      ground
        (arith, Distinct-put k v m, lookup-put_ne j k v m, text_eq_iff j k, text_eq_iff k j, d, e)

  pub length-put :
      (k : Text) (v : V) (m : List (Text × V))
      → lookup k m ≡ none
      → length (put k v m) ≡ suc (length m)
  unfolding put lookup
  length-put k v [] e = refl
  length-put k v ((j, w) ∷ m) e = ground (arith, length-put k v m)

  pub length-erase_le : (k : Text) (m : List (Text × V)) → length (erase k m) ≤ length m
  unfolding erase
  length-erase_le k [] = omega arith
  length-erase_le k ((j, w) ∷ m) = ground (arith, length-erase_le k m)
