-- ===== src/Conv/Pointer/Reset.antt =====
-- The reset of the page counters, once every chip is full.
use dumping.Ssd.Params.{SsdParams}
use dumping.Conv.Pointer.{reset_chip, reset_luns, reset_counters}
use dumping.Base.{
  zero, suc, ℕ, ◌≡◌, ◌<◌, ◌≤◌, ◌+◌, ◌*◌, refl, arith, tests, ◌⊎◌, inl, inr, ◌^◌, u64, ◌==◌,
  update_same, update_other, ◌∙◌,
}
use dumping.Base.Run.{Returns, Returns-assert, Returns-bind, Returns-map}
use native.Mathlib.Decide.{ℕ_discrete, dec_lt}

-- The entries from `a` to before `b` are 0, the others as before.
abbrev pub IsCleared : (ℕ → ℕ) → ℕ → ℕ → (ℕ → ℕ) → Type 0
IsCleared counter a b d =
    (k : ℕ) → (a ≤ k → k < b → d k ≡ 0) × ((k < a) ⊎ (b ≤ k) → d k ≡ counter k)

reset_chip-IsCleared :
    (p : SsdParams) (counter : ℕ → ℕ) (i j : ℕ)
    → counter (i * p.luns_per_ch + j) ≡ p.pgs_per_blk
    → i * p.luns_per_ch + j < 2 ^ 64
    → Returns
        (IsCleared counter (i * p.luns_per_ch + j) (i * p.luns_per_ch + j + 1))
        (reset_chip p counter i j)
unfolding reset_chip
reset_chip-IsCleared p counter i j full small =
    let n = i * p.luns_per_ch + j in
    let at : u64 n ≡ n = omega (arith, small) in
    rw at (
      Returns-assert (IsCleared counter n (n + 1)) (counter n == p.pgs_per_blk) _
        (grind (tests, full))
        (λ k. (
          λ le lt. let e : k ≡ n = omega (arith, le, lt) in rw e (update_same counter n 0),
          λ out. update_other counter n 0 k (λ e. absurd (omega (arith, e, out))),
        )))

reset_luns-IsCleared :
    (n : ℕ) (p : SsdParams) (i : ℕ) (counter : ℕ → ℕ)
    → n ≤ p.luns_per_ch
    → ((j : ℕ) → j < p.luns_per_ch → counter (i * p.luns_per_ch + j) ≡ p.pgs_per_blk)
    → i * p.luns_per_ch + p.luns_per_ch < 2 ^ 64
    → Returns
        (IsCleared counter (i * p.luns_per_ch) (i * p.luns_per_ch + n))
        (reset_luns n p i counter)
unfolding reset_luns
reset_luns-IsCleared zero p i counter le full small =
    λ k. (λ ge lt. absurd (omega (arith, ge, lt)), λ out. refl)
reset_luns-IsCleared (suc n) p i counter le full small =
    let s = i * p.luns_per_ch in
    let P : (ℕ → ℕ) → Type 0 = IsCleared counter s (s + suc n) in
    Returns-bind (IsCleared counter s (s + n)) P (reset_luns n p i counter) _
      (reset_luns-IsCleared n p i counter (omega (arith, le)) full small)
      (λ c h.
        Returns-map (IsCleared c (s + n) (s + n + 1)) P (reset_chip p c i n)
          (reset_chip-IsCleared p c i n
            ((h (s + n)).1 (inr (omega arith)) ∙ full n (omega (arith, le)))
            (omega (arith, small, le)))
          (λ d t k. (
            λ ge lt. elim (ℕ_discrete k (s + n)) [
              | yes e ↦ (t k).0 (omega (arith, e)) (omega (arith, e))
              | no ne ↦ (t k).1 (inl (omega (arith, ne, lt))) ∙ (h k).0 ge (omega (arith, ne, lt))
            ],
            λ out. (t k).1 (omega (arith, out)) ∙ (h k).1 (omega (arith, out)),
          )))

next_row : (n m : ℕ) → suc n * m ≡ n * m + m
next_row n m = grind arith

row_fits : (n c m : ℕ) → n < c → n * m + m ≤ c * m
row_fits n c m h = grind arith

-- Where every counter shows a full block, the reset raises no BUG, and clears the counters of all
-- chips.
pub reset_counters-IsCleared :
    (n : ℕ) (p : SsdParams) (counter : ℕ → ℕ)
    → n ≤ p.nchs
    → ((i j : ℕ) → i < p.nchs → j < p.luns_per_ch → counter (i * p.luns_per_ch + j) ≡ p.pgs_per_blk)
    → p.nchs * p.luns_per_ch < 2 ^ 64
    → Returns (IsCleared counter 0 (n * p.luns_per_ch)) (reset_counters n p counter)
unfolding reset_counters
reset_counters-IsCleared zero p counter le full small =
    λ k. (λ ge lt. absurd (omega (arith, lt)), λ out. refl)
reset_counters-IsCleared (suc n) p counter le full small =
    let m = p.luns_per_ch in
    let P : (ℕ → ℕ) → Type 0 = IsCleared counter 0 (suc n * m) in
    let row = next_row n m in
    let lt : n < p.nchs = omega (arith, le) in
    Returns-bind (IsCleared counter 0 (n * m)) P (reset_counters n p counter) _
      (reset_counters-IsCleared n p counter (omega (arith, le)) full small)
      (λ c h.
        Returns-map (IsCleared c (n * m) (n * m + m)) P (reset_luns m p n c)
          (reset_luns-IsCleared m p n c (omega arith)
            (λ j hj. (h (n * m + j)).1 (inr (omega arith)) ∙ full n j lt hj)
            (omega (arith, small, row_fits n p.nchs m lt)))
          (λ d t k. (
            λ ge below. elim (dec_lt k (n * m)) [
              | yes e ↦ (t k).1 (inl e) ∙ (h k).0 ge e
              | no ne ↦ (t k).0 (omega (arith, ne)) (omega (arith, below, row))
            ],
            λ out.
                (t k).1 (inr (omega (arith, out, row))) ∙ (h k).1 (inr (omega (arith, out, row))),
          )))
