-- ===== src/Alloc/Tests.antt =====
-- Examples for the allocators: a device of 16 KiB, and bitmap functions that search bit by bit.
use dumping.Alloc.{KernelBitmap, Area, Allocator, bitmap_allocator_init, bitmap_allocate}
use dumping.Alloc.Place.{
  IsKernelBitmap, IsAllocator, IsPlaced, bitmap_allocate-IsPlaced, bitmap_allocator_init-IsEmpty,
  IsEmpty,
}
use dumping.Base.{
  ℕ, zero, suc, Bool, true, false, ◌≡◌, ◌≤◌, ◌<◌, ◌+◌, ◌-◌, ltb, if◌then◌else◌, refl, arith, tests,
  update, update_same, update_other, if_true, if_false, ap, ◌∙◌,
}
use native.Mathlib.Decide.{ℕ_discrete}
use dumping.Base.Run.{Returns}

-- The first clear bit from `i` on, among `fuel` bits.
clear_from : ℕ → (ℕ → Bool) → ℕ → ℕ
clear_from zero b i = i
clear_from (suc fuel) b i = let rest = clear_from fuel b (i + 1) in if b i then rest else i

abbrev bit_by_bit : KernelBitmap
bit_by_bit = record {
  find_next_zero = λ b n s. clear_from (n - s) b s;
  set = λ b i. update b i true;
  zero = λ b n i. if ltb i n then false else b i;
}

clear_from_found :
    (fuel : ℕ) (b : ℕ → Bool) (s i : ℕ)
    → s ≤ i
    → i < s + fuel
    → b i ≡ false
    → ((j : ℕ) → s ≤ j → j < i → b j ≡ true)
    → clear_from fuel b s ≡ i
unfolding clear_from
clear_from_found zero b s i ge lt e before = absurd (omega (arith, ge, lt))
clear_from_found (suc fuel) b s i ge lt e before = elim (ℕ_discrete s i) [
  | yes same ↦ if_false (λ x. x ≡ i) (b s) (clear_from fuel b (s + 1)) s (ap b same ∙ e) same
  | no ne ↦
      if_true (λ x. x ≡ i) (b s) (clear_from fuel b (s + 1)) s
        (before s (omega arith) (omega (arith, ge, ne)))
        (clear_from_found fuel b (s + 1) i (omega (arith, ge, ne)) (omega (arith, lt)) e
          (λ j low high. before j (omega (arith, low)) high))
]

bit_by_bit-IsKernelBitmap : IsKernelBitmap bit_by_bit
bit_by_bit-IsKernelBitmap = record {
  found = λ b n s i ge lt. clear_from_found (n - s) b s i ge (omega (arith, ge, lt));
  set_at = λ b i. update_same b i true;
  set_other = λ b i j. update_other b i true j;
  zeroed = λ b n i lt. if_true (λ x. x ≡ false) (ltb i n) false (b i) (grind (tests, lt)) refl;
}

abbrev no_area : Area
no_area = record { nbits = 0; bitmap = λ i. false; last_pos = 0; capacity = 0 }

abbrev no_allocator : Allocator
no_allocator = record { small = no_area; large = no_area; dev_size = 0; total_written = 0 }

bitmap_allocator_init-IsEmpty_example :
    Returns (IsEmpty no_allocator 16384) (bitmap_allocator_init bit_by_bit no_allocator 16384)
bitmap_allocator_init-IsEmpty_example =
    bitmap_allocator_init-IsEmpty bit_by_bit bit_by_bit-IsKernelBitmap no_allocator 16384 refl refl
      (omega arith) (omega arith) (omega arith)

-- Two of the eight small places and none of the two large ones are taken.
abbrev two_taken : Allocator
two_taken = record {
  small = record { nbits = 8; bitmap = λ i. ltb i 2; last_pos = 2; capacity = 2 };
  large = record { nbits = 2; bitmap = λ i. false; last_pos = 0; capacity = 0 };
  dev_size = 16384;
  total_written = 2000;
}

two_taken-IsAllocator : IsAllocator two_taken
two_taken-IsAllocator = record {
  small = record {
    bound = omega arith;
    fits = omega arith;
    taken = λ j lt. grind (tests, lt);
    free = λ j ge lt. grind (tests, ge);
  };
  large = record {
    bound = omega arith;
    fits = omega arith;
    taken = λ j lt. absurd (omega (arith, lt));
    free = λ j ge lt. refl;
  };
  small_nbits = refl;
  large_nbits = refl;
  size = omega arith;
}

bitmap_allocate-IsPlaced_example :
    Returns (IsPlaced two_taken false) (bitmap_allocate bit_by_bit two_taken 900)
bitmap_allocate-IsPlaced_example =
    bitmap_allocate-IsPlaced bit_by_bit bit_by_bit-IsKernelBitmap two_taken 900
      two_taken-IsAllocator (omega arith)
