-- ===== src/Conv/Lines/Sum.antt =====
-- Sums over the blocks of a line: one on each die.
use dumping.Base.{
  sum_below_none, ℕ, ◌≡◌, ◌≢◌, ◌<◌, ◌≤◌, ◌+◌, ◌*◌, arith, sum_below, sum_below_one, sum_below_ge,
  sum_below_cong, sum_three, ◌⊎◌, inl, inr, sum_below_none, ◌∙◌,
}

-- Over the channels and their dies.
abbrev pub sum_dies : ℕ → ℕ → (ℕ → ℕ → ℕ) → ℕ
sum_dies nchs luns g = sum_below nchs (λ c. sum_below luns (g c))

pub sum_dies_one :
    (nchs luns : ℕ) (g h : ℕ → ℕ → ℕ) (c l : ℕ)
    → c < nchs
    → l < luns
    → ((i j : ℕ) → (i ≢ c) ⊎ (j ≢ l) → h i j ≡ g i j)
    → sum_dies nchs luns h + g c l ≡ sum_dies nchs luns g + h c l
sum_dies_one nchs luns g h c l hc hl other = omega (
  arith,
  sum_below_one nchs (λ i. sum_below luns (g i)) (λ i. sum_below luns (h i)) c hc
      (λ i ne. sum_below_cong luns (h i) (g i) (λ j lt. other i j (inl ne))),
  sum_below_one luns (g c) (h c) l hl (λ j ne. other c j (inr ne)),
)

pub sum_dies_cong :
    (nchs luns : ℕ) (g h : ℕ → ℕ → ℕ)
    → ((i j : ℕ) → i < nchs → j < luns → g i j ≡ h i j)
    → sum_dies nchs luns g ≡ sum_dies nchs luns h
sum_dies_cong nchs luns g h e =
    sum_below_cong nchs (λ i. sum_below luns (g i)) (λ i. sum_below luns (h i))
      (λ i lt. sum_below_cong luns (g i) (h i) (λ j lt'. e i j lt lt'))

pub sum_dies_ge :
    (nchs luns : ℕ) (g : ℕ → ℕ → ℕ) (c l : ℕ) → c < nchs → l < luns → g c l ≤ sum_dies nchs luns g
sum_dies_ge nchs luns g c l h k =
    omega (arith, sum_below_ge nchs (λ i. sum_below luns (g i)) c h, sum_below_ge luns (g c) l k)

pub sum_dies_three :
    (nchs luns m : ℕ) (f g h : ℕ → ℕ → ℕ)
    → ((i j : ℕ) → i < nchs → j < luns → f i j + g i j + h i j ≡ m)
    → sum_dies nchs luns f + sum_dies nchs luns g + sum_dies nchs luns h ≡ nchs * (luns * m)
sum_dies_three nchs luns m f g h e =
    sum_three nchs (luns * m) (λ i. sum_below luns (f i)) (λ i. sum_below luns (g i))
      (λ i. sum_below luns (h i))
      (λ i lt. sum_three luns m (f i) (g i) (h i) (λ j lt'. e i j lt lt'))

pub sum_dies_none : (n m : ℕ) → sum_dies n m (λ c l. 0) ≡ 0
sum_dies_none n m =
    sum_below_cong n (λ c. sum_below m (λ l. 0)) (λ c. 0) (λ c h. sum_below_none m)
    ∙ sum_below_none n
