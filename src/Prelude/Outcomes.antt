-- ===== src/Prelude/Outcomes.antt =====
-- Fallible code: a value, a thrown `nd::Error` (its code), or a fault.
use mathlib.Core.Path.{◌≡◌, refl}
use mathlib.Core.Bool.{Bool, true, false}
use mathlib.Core.List.{List}
use mathlib.Core.Option.{some}
use Prim.Native.Nat.{ℕ}

-- The codes of the program's errors; `other` holds the text of any further one.
pub data Code : Type 0 where
  dns_malformed dns_opcode dns_mismatch config_invalid config_setting config_limit : Code
  host utf8 input_limit protocol action schema server_id server_fallback server_reference : Code
  server_disabled endpoint rule_id default_rule pattern order interface_ambiguous : Code
  interface_enumeration interface_down interface_dns not_implemented ipc_protocol : Code
  upstream_busy upstream_unavailable timeout cancelled internal : Code
  other : List ℕ → Code

-- `fault` is an access outside a container, which C++ leaves undefined.
pub data Result {ℓ} (A : Type ℓ) : Type ℓ where
  ok : A → Result A
  err : Code → Result A
  fault : Result A

infixl 5 ◌>>=◌ ◌>>◌
abbrev pub ◌>>=◌ {ℓ κ} : {A : Type ℓ} {B : Type κ} → Result A → (A → Result B) → Result B
ok a >>= f = f a
err c >>= f = err c
fault >>= f = fault

abbrev pub ◌>>◌ {ℓ κ} : {A : Type ℓ} {B : Type κ} → Result A → Result B → Result B
m >> k = m >>= λ _. k

-- `if (bad) throw Error(code, ...)`
abbrev pub throw_if : Bool → Code → Result (Unit {0})
throw_if true c = err c
throw_if false c = ok tt

-- No fault, and a value meets `P`.
abbrev pub Safe {ℓ} : {A : Type ℓ} → (A → Type 0) → Result A → Type 0
Safe P (ok a) = P a
Safe P (err c) = Unit
Safe P fault = ⊥

module _ {ℓ κ} {A : Type ℓ} {B : Type κ} where
  pub Safe-bind :
      (P : A → Type 0) (Q : B → Type 0) (r : Result A) (f : A → Result B)
      → Safe P r
      → ((a : A) → P a → Safe Q (f a))
      → Safe Q (r >>= f)
  Safe-bind P Q (ok a) f h k = k a h
  Safe-bind P Q (err c) f h k = tt
  Safe-bind P Q fault f h k = absurd h

  pub >>=-eq-ok :
      (r : Result A) (k : A → Result B) {v : B}
      → r >>= k ≡ ok v
      → (x : A) × (r ≡ ok x) × (k x ≡ ok v)
  >>=-eq-ok fault k e = cc
  >>=-eq-ok (err c) k e = cc
  >>=-eq-ok (ok x) k e = (x, refl, e)

pub Safe-throw_if {ℓ} :
    {B : Type ℓ} (Q : B → Type 0) (b : Bool) (c : Code) (r : Result B)
    → (b ≡ false → Safe Q r)
    → Safe Q (throw_if b c >> r)
Safe-throw_if Q true c r k = tt
Safe-throw_if Q false c r k = k refl

pub Safe-eq-ok {ℓ} :
    {A : Type ℓ} (P : A → Type 0) (r : Result A) {a : A} → Safe P r → r ≡ ok a → P a
Safe-eq-ok P r h e = rw e at h

pub Safe-weaken {ℓ} :
    {A : Type ℓ} (P Q : A → Type 0) (r : Result A) → ((a : A) → P a → Q a) → Safe P r → Safe Q r
Safe-weaken P Q (ok a) w h = w a h
Safe-weaken P Q (err c) w h = tt
Safe-weaken P Q fault w h = absurd h

pub throw_if-ok : (b : Bool) (c : Code) {u : Unit {0}} → throw_if b c ≡ ok u → b ≡ false
throw_if-ok true c e = cc
throw_if-ok false c e = refl

-- The same, with the equation of the value that the call gave.
pub Safe-bind-eq {ℓ κ} :
    {A : Type ℓ} {B : Type κ} (P : A → Type 0) (Q : B → Type 0) (r : Result A) (f : A → Result B)
    → Safe P r
    → ((a : A) → P a → r ≡ ok a → Safe Q (f a))
    → Safe Q (r >>= f)
Safe-bind-eq P Q (ok a) f h k = k a h refl
Safe-bind-eq P Q (err c) f h k = tt
Safe-bind-eq P Q fault f h k = absurd h

-- The same for a change of the predicate.
pub Safe-weaken-eq {ℓ} :
    {A : Type ℓ} (P Q : A → Type 0) (r : Result A)
    → ((a : A) → r ≡ ok a → P a → Q a)
    → Safe P r
    → Safe Q r
Safe-weaken-eq P Q (ok a) w h = w a refl h
Safe-weaken-eq P Q (err c) w h = tt
Safe-weaken-eq P Q fault w h = absurd h

-- What goes on behind a check that passed.
pub passed {ℓ} :
    {B : Type ℓ} (b : Bool) (c : Code) (r : Result B) {v : B}
    → throw_if b c >> r ≡ ok v
    → (b ≡ false) × (r ≡ ok v)
passed true c r e = cc
passed false c r e = (refl, e)

-- The same where a call succeeded.
pub ran {ℓ κ} :
    {A : Type ℓ} {B : Type κ} (m : Result A) (r : Result B) {v : B}
    → m >> r ≡ ok v
    → (a : A) × (m ≡ ok a) × (r ≡ ok v)
ran (ok a) r e = (a, refl, e)
ran (err c) r e = cc
ran fault r e = cc

pub ok-injective {ℓ} : {A : Type ℓ} {a b : A} → ok a ≡ ok b → a ≡ b
ok-injective e = cc

pub some-injective {ℓ} : {A : Type ℓ} {a b : A} → some a ≡ some b → a ≡ b
some-injective e = cc
