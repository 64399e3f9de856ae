-- ===== src/Base/Run.antt =====
-- What a kernel function may come to besides its result: a BUG, or a loop that does not end.
use mathlib.Core.Path.{◌≡◌, refl}
use mathlib.Core.Bool.{Bool, true, false}
use dumping.Base.Tests.{if◌then◌else◌}

-- `bug` is a failed NVMEV_ASSERT or BUG_ON, or a division by zero; `out_of_fuel` is a loop that
-- has made more rounds than its fuel.
pub data Run {ℓ} (A : Type ℓ) : Type ℓ where
  ok : A → Run A
  bug : Run A
  out_of_fuel : Run A

infixl 5 ◌>>=◌ ◌>>◌
abbrev pub ◌>>=◌ {ℓ κ} : {A : Type ℓ} {B : Type κ} → Run A → (A → Run B) → Run B
ok a >>= f = f a
bug >>= f = bug
out_of_fuel >>= f = out_of_fuel

abbrev pub ◌>>◌ {ℓ} : {B : Type ℓ} → Run (Unit {0}) → Run B → Run B
m >> k = m >>= λ _. k

-- NVMEV_ASSERT
abbrev pub nvmev_assert : Bool → Run (Unit {0})
nvmev_assert true = ok tt
nvmev_assert false = bug

-- The call ends without a BUG, and its result satisfies `P`.
abbrev pub Returns {ℓ} : {A : Type ℓ} → (A → Type 0) → Run A → Type 0
Returns P (ok a) = P a
Returns P bug = ⊥
Returns P out_of_fuel = ⊥

-- A sequence returns if its parts do.
pub Returns-bind {ℓ κ} :
    {A : Type ℓ} {B : Type κ} (P : A → Type 0) (Q : B → Type 0) (m : Run A) (f : A → Run B)
    → Returns P m
    → ((a : A) → P a → Returns Q (f a))
    → Returns Q (m >>= f)
Returns-bind P Q (ok a) f h k = k a h
Returns-bind P Q bug f h k = absurd h
Returns-bind P Q out_of_fuel f h k = absurd h

pub Returns-map {ℓ} :
    {A : Type ℓ} (P Q : A → Type 0) (m : Run A) → Returns P m → ((a : A) → P a → Q a) → Returns Q m
Returns-map P Q (ok a) h k = k a h
Returns-map P Q bug h k = absurd h
Returns-map P Q out_of_fuel h k = absurd h

-- The value that a call returns.
pub Returns-inv {ℓ} :
    {A : Type ℓ} (P : A → Type 0) (m : Run A) → Returns P m → (a : A) × (m ≡ ok a) × P a
Returns-inv P (ok a) h = (a, refl, h)
Returns-inv P bug h = absurd h
Returns-inv P out_of_fuel h = absurd h

pub Returns-if {ℓ} :
    {A : Type ℓ} (P : A → Type 0) (b : Bool) (x y : Run A)
    → (b ≡ true → Returns P x)
    → (b ≡ false → Returns P y)
    → Returns P (if b then x else y)
Returns-if P true x y h k = h refl
Returns-if P false x y h k = k refl

-- A true assertion lets the rest run.
pub Returns-assert {ℓ} :
    {A : Type ℓ} (P : A → Type 0) (b : Bool) (m : Run A)
    → b ≡ true
    → Returns P m
    → Returns P (nvmev_assert b >> m)
Returns-assert P true m e h = h
Returns-assert P false m e h = cc

pub Returns-both {ℓ} :
    {A : Type ℓ} (P Q : A → Type 0) (m : Run A)
    → Returns P m
    → Returns Q m
    → Returns (λ a. P a × Q a) m
Returns-both P Q (ok a) h k = (h, k)
Returns-both P Q bug h k = absurd h
Returns-both P Q out_of_fuel h k = absurd h
