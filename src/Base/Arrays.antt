-- ===== src/Base/Arrays.antt =====
-- C arrays as functions of the index, and sums and counts over their first entries.
use Prim.Native.Nat.{ℕ, zero, suc, ◌+◌, ◌*◌, ◌≤◌, ◌<◌}
use mathlib.Core.Path.{◌≡◌, refl, ap, sym}
use mathlib.Core.Logic.{◌≢◌}
use native.Mathlib.Decide.{ℕ_discrete}
use native.Mathlib.Omega.{arith}
use dumping.Base.Tests.{◌==◌, if◌then◌else◌}

module _ {ℓ} {A : Type ℓ} where
  -- `f[i] = v`
  abbrev pub update : (ℕ → A) → ℕ → A → ℕ → A
  update f i v j = if i == j then v else f j

pub sum_below : ℕ → (ℕ → ℕ) → ℕ
sum_below zero f = 0
sum_below (suc n) f = f n + sum_below n f

pub sum_below-update_out :
    (n : ℕ) (f : ℕ → ℕ) (i v : ℕ) → n ≤ i → sum_below n (update f i v) ≡ sum_below n f
unfolding sum_below
sum_below-update_out zero f i v h = refl
sum_below-update_out (suc n) f i v h = ground (arith, sum_below-update_out n f i v)

-- A write changes the sum by the difference of the new entry and the old one.
pub sum_below-update :
    (n : ℕ) (f : ℕ → ℕ) (i v : ℕ) → i < n → sum_below n (update f i v) + f i ≡ sum_below n f + v
unfolding sum_below
sum_below-update zero f i v h = absurd (omega arith)
sum_below-update (suc n) f i v h =
    ground (arith, sum_below-update n f i v, sum_below-update_out n f i v)

pub sum_below_le : (n : ℕ) (f : ℕ → ℕ) → ((i : ℕ) → f i ≤ 1) → sum_below n f ≤ n
unfolding sum_below
sum_below_le zero f h = omega arith
sum_below_le (suc n) f h = omega (arith, h n, sum_below_le n f h)

pub sum_below_cong :
    (n : ℕ) (f g : ℕ → ℕ) → ((i : ℕ) → i < n → f i ≡ g i) → sum_below n f ≡ sum_below n g
unfolding sum_below
sum_below_cong zero f g h = refl
sum_below_cong (suc n) f g h =
    omega (arith, h n (omega arith), sum_below_cong n f g (λ i p. h i (omega arith)))

pub sum_below_ge : (n : ℕ) (f : ℕ → ℕ) (i : ℕ) → i < n → f i ≤ sum_below n f
unfolding sum_below
sum_below_ge zero f i h = absurd (omega arith)
sum_below_ge (suc n) f i h = ground (arith, sum_below_ge n f i)

-- Two sums whose terms differ at one place.
pub sum_below_one :
    (n : ℕ) (g h : ℕ → ℕ) (k : ℕ)
    → k < n
    → ((i : ℕ) → i ≢ k → h i ≡ g i)
    → sum_below n h + g k ≡ sum_below n g + h k
unfolding sum_below
sum_below_one zero g h k p other = absurd (omega arith)
sum_below_one (suc n) g h k p other = elim (ℕ_discrete k n) [
  | yes e ↦ omega (
    arith,
    ap g e,
    ap h e,
    sum_below_cong n h g (λ i q. other i (λ u. absurd (omega (arith, u, e, q)))),
  )
  | no ne ↦ omega (arith, sum_below_one n g h k (omega arith) other, other n (λ e. ne (sym e)))
]

module _ {ℓ} {A : Type ℓ} where
  pub update_same : (f : ℕ → A) (i : ℕ) (v : A) → update f i v i ≡ v
  update_same f i v = ground arith

  pub update_other : (f : ℕ → A) (i : ℕ) (v : A) (j : ℕ) → j ≢ i → update f i v j ≡ f j
  update_other f i v j ne = ground (arith, ne)

pub sum_below_none : (n : ℕ) → sum_below n (λ i. 0) ≡ 0
unfolding sum_below
sum_below_none zero = refl
sum_below_none (suc n) = omega (arith, sum_below_none n)

-- Three sums whose terms add up to the same at every index.
pub sum_three :
    (n m : ℕ) (f g h : ℕ → ℕ)
    → ((i : ℕ) → i < n → f i + g i + h i ≡ m)
    → sum_below n f + sum_below n g + sum_below n h ≡ n * m
unfolding sum_below
sum_three zero m f g h e = grind arith
sum_three (suc n) m f g h e =
    let rest = sum_three n m f g h (λ i lt. e i (omega (arith, lt))) in
    let here = e n (omega arith) in grind (arith, rest, here)
