-- ===== src/Prelude/Faults.antt =====
-- What a call may end in: a value, or one of the ways in which the C program does not go on.
use mathlib.Core.Path.{◌≡◌, refl, subst}
use mathlib.Core.Option.{Option, none, some}
use mathlib.Core.List.{List}
use Prim.Native.Nat.{ℕ, ◌<◌}
use mmt_security.Prelude.Lists.{length, get_elem?, get_elem?-in}

-- `halted` is `mmt_halt` (or a failed `mmt_assert`), `wild` an access out of bounds or through a
-- dangling pointer, and `out_of_fuel` a recursion deeper than the bound that the caller gave.
pub data Fault : Type 0 where
  halted wild out_of_fuel : Fault

pub data Run {ℓ} (A : Type ℓ) : Type ℓ where
  fault : Fault → Run A
  ok : A → Run A

infixl 5 ◌>>=◌
abbrev pub ◌>>=◌ {ℓ κ} : {A : Type ℓ} {B : Type κ} → Run A → (A → Run B) → Run B
fault cause >>= next = fault cause
ok result >>= next = next result

-- No proof.
pub data Never {ℓ} : Type ℓ where

-- The call ends in a value, and `P` holds of it.
abbrev pub Ensures {ℓ κ} : {A : Type ℓ} → Run A → (A → Type κ) → Type κ
Ensures (ok a) P = P a
Ensures (fault e) P = Never

-- A dereference: what is not there is a wild access.
abbrev pub present {ℓ} : {A : Type ℓ} → Option A → Run A
present (some a) = ok a
present none = fault wild

abbrev pub at {ℓ} : {A : Type ℓ} → List A → ℕ → Run A
at xs i = present (get_elem? xs i)

pub at-in {ℓ} : {A : Type ℓ} (xs : List A) (i : ℕ) → i < length xs → (a : A) × (at xs i ≡ ok a)
at-in xs i h = let (a, e) = get_elem?-in xs i h in (a, (λ k. present (e k)))

pub Ensures-bind {ℓ κ μ ν} :
    {A : Type ℓ} {B : Type κ} (r : Run A) (f : A → Run B) (P : A → Type μ) (Q : B → Type ν)
    → Ensures r P
    → ((a : A) → r ≡ ok a → P a → Ensures (f a) Q)
    → Ensures (r >>= f) Q
Ensures-bind (ok a) f P Q h k = k a refl h
Ensures-bind (fault e) f P Q h k = elim h [ ]

pub Ensures-map {ℓ κ μ} :
    {A : Type ℓ} (r : Run A) (P : A → Type κ) (Q : A → Type μ)
    → Ensures r P
    → ((a : A) → P a → Q a)
    → Ensures r Q
Ensures-map (ok a) P Q h k = k a h
Ensures-map (fault e) P Q h k = elim h [ ]

-- What holds of the value if the call ends in one; nothing is said of a fault.
abbrev pub IfOk {ℓ κ} : {A : Type ℓ} → Run A → (A → Type κ) → Type κ
IfOk (ok a) P = P a
IfOk (fault e) P = Unit

pub IfOk-bind {ℓ κ μ ν} :
    {A : Type ℓ} {B : Type κ} (r : Run A) (f : A → Run B) (P : A → Type μ) (Q : B → Type ν)
    → IfOk r P
    → ((a : A) → r ≡ ok a → P a → IfOk (f a) Q)
    → IfOk (r >>= f) Q
IfOk-bind (ok a) f P Q h k = k a refl h
IfOk-bind (fault e) f P Q h k = tt

pub IfOk-map {ℓ κ μ} :
    {A : Type ℓ} (r : Run A) (P : A → Type κ) (Q : A → Type μ)
    → IfOk r P
    → ((a : A) → P a → Q a)
    → IfOk r Q
IfOk-map (ok a) P Q h k = k a h
IfOk-map (fault e) P Q h k = tt

ok-injective {ℓ} : {A : Type ℓ} {a b : A} → ok a ≡ ok b → a ≡ b
ok-injective e = cc

pub IfOk-use {ℓ κ} : {A : Type ℓ} (r : Run A) (P : A → Type κ) {a : A} → IfOk r P → r ≡ ok a → P a
IfOk-use (ok b) P h e = subst P (ok-injective e) h
IfOk-use (fault b) P h e = cc

pub Ensures-use {ℓ κ} :
    {A : Type ℓ} (r : Run A) (P : A → Type κ) {a : A} → Ensures r P → r ≡ ok a → P a
Ensures-use (ok b) P h e = subst P (ok-injective e) h
Ensures-use (fault b) P h e = elim h [ ]

pub IfOk-trivial {ℓ} : {A : Type ℓ} (r : Run A) → IfOk r (λ _. Unit {0})
IfOk-trivial (ok a) = tt
IfOk-trivial (fault e) = tt

pub Ensures-IfOk {ℓ κ μ} :
    {A : Type ℓ} (r : Run A) (P : A → Type κ) (Q : A → Type μ)
    → Ensures r P
    → ((a : A) → P a → Q a)
    → IfOk r Q
Ensures-IfOk (ok a) P Q h k = k a h
Ensures-IfOk (fault e) P Q h k = tt
