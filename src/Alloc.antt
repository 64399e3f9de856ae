-- ===== src/Alloc.antt =====
-- bitmap.c and append_only.c: the allocators of value space for the key-value FTL.
pub mod Place
mod Tests
use dumping.Base.{ℕ, Bool, ◌+◌, ◌*◌, ◌/◌, ◌&&◌, leb, ltb, u64, if◌then◌else◌}
use dumping.Base.Run.{Run, ok, bug, ◌>>=◌}

-- The kernel's bitmap functions: bitmap_find_next_zero_area for one bit without alignment,
-- bitmap_set of one bit, bitmap_zero.
pub record KernelBitmap : Type 0 where
  pub find_next_zero : (ℕ → Bool) → ℕ → ℕ → ℕ
  pub set : (ℕ → Bool) → ℕ → ℕ → Bool
  pub zero : (ℕ → Bool) → ℕ → ℕ → Bool

abbrev pub small_length : ℕ
small_length = 1024

abbrev pub large_length : ℕ
large_length = 4096

-- The bits of `small_bitmap` and of `large_bitmap`.
abbrev pub small_bits : ℕ
small_bits = 600000 * 64

abbrev pub large_bits : ℕ
large_bits = 300000 * 64

-- The variables that bitmap.c has for small and for large values alike.
pub record Area : Type 0 where
  pub nbits : ℕ
  pub bitmap : ℕ → Bool
  pub last_pos : ℕ
  pub capacity : ℕ

pub record Allocator : Type 0 where
  pub small : Area
  pub large : Area
  pub dev_size : ℕ
  pub total_written : ℕ

module _ (k : KernelBitmap) where
  abbrev pub cleared : Area → ℕ → Area
  cleared a nbits = record a { nbits = nbits; bitmap = k.zero a.bitmap nbits }

  -- A bit past the end of an array is a BUG.
  unfoldable pub bitmap_allocator_init : Allocator → ℕ → Run Allocator
  bitmap_allocator_init s size =
      let small_nbits = size / 2 / small_length in
      let large_nbits = size / 2 / large_length in
      if leb small_nbits small_bits && leb large_nbits large_bits
      then ok (record s {
        dev_size = size;
        small = cleared s.small small_nbits;
        large = cleared s.large large_nbits;
      })
      else bug

  -- A bit of an area whose array has `limit` bits.
  unfoldable pub take_bit : ℕ → Area → Run (Area × ℕ)
  take_bit limit a =
      let off = k.find_next_zero a.bitmap a.nbits a.last_pos in
      let next = u64 (off + 1) in
      if ltb off limit
      then ok (
        record a {
          bitmap = k.set a.bitmap off;
          last_pos = if ltb a.nbits next then 0 else next;
          capacity = a.capacity + 1;
        },
        off,
      )
      else bug

  unfoldable pub bitmap_allocate : Allocator → ℕ → Run (Allocator × ℕ)
  bitmap_allocate s length =
      let written = u64 (s.total_written + length) in
      let in_large = take_bit large_bits s.large >>= λ (a, off). ok (
        record s { large = a; total_written = written },
        u64 (s.dev_size / 2 + off * large_length),
      ) in
      let in_small = take_bit small_bits s.small >>= λ (a, off).
      ok (record s { small = a; total_written = written }, u64 (off * small_length)) in
      if ltb small_length length then in_large else in_small
