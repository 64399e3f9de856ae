-- ===== src/Alloc/Place.antt =====
-- The places that bitmap_allocate of bitmap.c gives out.
use dumping.Alloc.{
  KernelBitmap, Area, Allocator, bitmap_allocator_init, take_bit, bitmap_allocate, small_length,
  large_length, small_bits, large_bits,
}
use dumping.Base.{
  ℕ, Bool, true, false, ◌+◌, ◌*◌, ◌/◌, ◌^◌, ◌≡◌, ◌≢◌, ◌<◌, ◌≤◌, ltb, leb, u64, if◌then◌else◌, refl,
  arith, tests, ◌∙◌, subst, ◌&&◌, sym, ap,
}
use dumping.Base.Run.{ok, bug, Returns, Returns-if, Returns-bind, ◌>>=◌}
use native.Mathlib.Nat.{mod-eq_of_lt}
use native.Mathlib.Decide.{ℕ_discrete}

-- What the kernel documents of its bitmap functions.
pub record IsKernelBitmap (k : KernelBitmap) : Type 0 where
  pub found :
      (b : ℕ → Bool) (n s i : ℕ)
      → s ≤ i
      → i < n
      → b i ≡ false
      → ((j : ℕ) → s ≤ j → j < i → b j ≡ true)
      → k.find_next_zero b n s ≡ i
  pub set_at : (b : ℕ → Bool) (i : ℕ) → k.set b i i ≡ true
  pub set_other : (b : ℕ → Bool) (i j : ℕ) → j ≢ i → k.set b i j ≡ b j
  pub zeroed : (b : ℕ → Bool) (n i : ℕ) → i < n → k.zero b n i ≡ false

-- The bits below the position are taken, and the others free.
pub record IsFilled (limit : ℕ) (a : Area) : Type 0 where
  pub bound : a.last_pos ≤ a.nbits
  pub fits : a.nbits ≤ limit
  pub taken : (j : ℕ) → j < a.last_pos → a.bitmap j ≡ true
  pub free : (j : ℕ) → a.last_pos ≤ j → j < a.nbits → a.bitmap j ≡ false

-- Both areas are filled from the bottom, and each has its half of the device.
pub record IsAllocator (s : Allocator) : Type 0 where
  pub small : IsFilled small_bits s.small
  pub large : IsFilled large_bits s.large
  pub small_nbits : s.small.nbits ≡ s.dev_size / 2 / small_length
  pub large_nbits : s.large.nbits ≡ s.dev_size / 2 / large_length
  pub size : s.dev_size < 2 ^ 64

-- The area of large or of small values, the size of its places, and where they start and end.
abbrev pub area_of : Allocator → Bool → Area
area_of s is_large = if is_large then s.large else s.small

abbrev pub place_size : Bool → ℕ
place_size is_large = if is_large then large_length else small_length

abbrev pub base_of : Allocator → Bool → ℕ
base_of s is_large = if is_large then s.dev_size / 2 else 0

abbrev pub end_of : Allocator → Bool → ℕ
end_of s is_large = if is_large then s.dev_size else s.dev_size / 2

-- The next place of the value's area has been given out.
pub record IsPlaced (s : Allocator) (is_large : Bool) (y : Allocator × ℕ) : Type 0 where
  pub ready : IsAllocator y.0
  pub offset : y.1 ≡ base_of s is_large + (area_of s is_large).last_pos * place_size is_large
  pub inside : y.1 + place_size is_large ≤ end_of s is_large
  pub next : (area_of y.0 is_large).last_pos ≡ (area_of s is_large).last_pos + 1

-- An allocator for a device of `size` bytes, with nothing allocated since `s`.
pub record IsEmpty (s : Allocator) (size : ℕ) (t : Allocator) : Type 0 where
  pub ready : IsAllocator t
  pub dev_size : t.dev_size ≡ size
  pub small_pos : t.small.last_pos ≡ 0
  pub large_pos : t.large.last_pos ≡ 0
  pub small_free : (i : ℕ) → i < size / 2 / small_length → t.small.bitmap i ≡ false
  pub large_free : (i : ℕ) → i < size / 2 / large_length → t.large.bitmap i ≡ false
  pub written : t.total_written ≡ s.total_written

-- The bit at the position of an area has been taken.
record IsTaken (limit : ℕ) (a : Area) (y : Area × ℕ) : Type 0 where
  filled : IsFilled limit y.0
  at : y.1 ≡ a.last_pos
  next : y.0.last_pos ≡ a.last_pos + 1
  nbits : y.0.nbits ≡ a.nbits

module _ (k : KernelBitmap) (laws : IsKernelBitmap k) where
  -- What a bit taken below the end leaves.
  take_bit-IsTaken :
      (limit : ℕ) (a : Area)
      → limit < 2 ^ 63
      → IsFilled limit a
      → a.last_pos < a.nbits
      → Returns (IsTaken limit a) (take_bit k limit a)
  unfolding take_bit
  take_bit-IsTaken limit a small h room =
      let P : Area × ℕ → Type 0 = IsTaken limit a in
      let off = k.find_next_zero a.bitmap a.nbits a.last_pos in
      let at : off ≡ a.last_pos =
        laws.found a.bitmap a.nbits a.last_pos a.last_pos (omega arith) room
          (h.free a.last_pos (omega arith) room) (λ j ge lt. absurd (omega (arith, ge, lt))) in
      let next : (if ltb a.nbits (u64 (off + 1)) then 0 else u64 (off + 1)) ≡ a.last_pos + 1 =
        grind (tests, at, room, h.fits, small) in
      Returns-if P (ltb off limit) _ bug
        (λ e. record {
          filled = record {
            bound = rw next (omega (arith, room));
            fits = h.fits;
            taken = λ j lt. elim (ℕ_discrete j off) [
              | yes e ↦ subst (λ i. k.set a.bitmap off i ≡ true) (sym e) (laws.set_at a.bitmap off)
              | no ne ↦
                  laws.set_other a.bitmap off j ne ∙ h.taken j (omega (arith, lt, next, ne, at))
            ];
            free = λ j ge lt.
                laws.set_other a.bitmap off j (λ e. absurd (omega (arith, e, at, ge, next)))
                ∙ h.free j (omega (arith, ge, next)) lt;
          };
          at = at;
          next = next;
          nbits = refl;
        })
        (λ e. absurd (omega (tests, e, at, room, h.fits)))

  empty :
      (a : Area) (n limit : ℕ)
      → a.last_pos ≡ 0
      → n ≤ limit
      → IsFilled limit (record a { nbits = n; bitmap = k.zero a.bitmap n })
  empty a n limit e le = record {
    bound = omega (arith, e);
    fits = le;
    taken = λ j lt. absurd (omega (arith, lt, e));
    free = λ j ge lt. laws.zeroed a.bitmap n j lt;
  }

  placed :
      (s : Allocator) (written : ℕ) (is_large : Bool)
      → IsAllocator s
      → (area_of s is_large).last_pos < (area_of s is_large).nbits
      → Returns (IsPlaced s is_large) (
          if is_large
          then (take_bit k large_bits s.large >>= λ (a, off). ok (
            record s { large = a; total_written = written },
            u64 (s.dev_size / 2 + off * large_length),
          ))
          else (take_bit k small_bits s.small >>= λ (a, off).
              ok (record s { small = a; total_written = written }, u64 (off * small_length))))
  placed s written true h room =
      Returns-bind (IsTaken large_bits s.large) (IsPlaced s true) (take_bit k large_bits s.large) _
        (take_bit-IsTaken large_bits s.large (omega arith) h.large room)
        (λ (a, off) w.
          let fits : s.dev_size / 2 + off * large_length < 2 ^ 64 =
            omega (arith, w.at, room, h.large_nbits, h.size) in
          record {
            ready = record {
              small = h.small;
              large = w.filled;
              small_nbits = h.small_nbits;
              large_nbits = w.nbits ∙ h.large_nbits;
              size = h.size;
            };
            offset = mod-eq_of_lt fits ∙ ap (λ i. s.dev_size / 2 + i * large_length) w.at;
            inside = omega (arith, mod-eq_of_lt fits, w.at, room, h.large_nbits);
            next = w.next;
          })
  placed s written false h room =
      Returns-bind (IsTaken small_bits s.small) (IsPlaced s false) (take_bit k small_bits s.small) _
        (take_bit-IsTaken small_bits s.small (omega arith) h.small room)
        (λ (a, off) w.
          let fits : off * small_length < 2 ^ 64 =
            omega (arith, w.at, room, h.small_nbits, h.size) in
          record {
            ready = record {
              small = w.filled;
              large = h.large;
              small_nbits = w.nbits ∙ h.small_nbits;
              large_nbits = h.large_nbits;
              size = h.size;
            };
            offset = omega (arith, mod-eq_of_lt fits, w.at);
            inside = omega (arith, mod-eq_of_lt fits, w.at, room, h.small_nbits);
            next = w.next;
          })

  -- Where the areas are filled from the bottom and the value's area has a place left, an allocation
  -- raises no BUG. It gives the next place, inside the area's half of the device, and the areas are
  -- filled from the bottom again.
  pub bitmap_allocate-IsPlaced :
      (s : Allocator) (length : ℕ)
      → IsAllocator s
      → (area_of s (ltb small_length length)).last_pos < (area_of s (ltb small_length length)).nbits
      → Returns (IsPlaced s (ltb small_length length)) (bitmap_allocate k s length)
  unfolding bitmap_allocate
  bitmap_allocate-IsPlaced s length h room =
      placed s (u64 (s.total_written + length)) (ltb small_length length) h room

  -- Where the size is small enough for the arrays and nothing was allocated before,
  -- bitmap_allocator_init gives an allocator for a device of that size, with every place of both
  -- areas free and the position of each at its first place; what was written before still counts.
  pub bitmap_allocator_init-IsEmpty :
      (s : Allocator) (size : ℕ)
      → s.small.last_pos ≡ 0
      → s.large.last_pos ≡ 0
      → size < 2 ^ 64
      → size / 2 / small_length ≤ small_bits
      → size / 2 / large_length ≤ large_bits
      → Returns (IsEmpty s size) (bitmap_allocator_init k s size)
  unfolding bitmap_allocator_init
  bitmap_allocator_init-IsEmpty s size es el lt fs fl =
      Returns-if (IsEmpty s size)
        (leb (size / 2 / small_length) small_bits && leb (size / 2 / large_length) large_bits) _ bug
        (λ e. record {
          ready = record {
            small = empty s.small (size / 2 / small_length) small_bits es fs;
            large = empty s.large (size / 2 / large_length) large_bits el fl;
            small_nbits = refl;
            large_nbits = refl;
            size = lt;
          };
          dev_size = refl;
          small_pos = es;
          large_pos = el;
          small_free = λ i h. laws.zeroed s.small.bitmap (size / 2 / small_length) i h;
          large_free = λ i h. laws.zeroed s.large.bitmap (size / 2 / large_length) i h;
          written = refl;
        })
        (λ e. grind (tests, e, fs, fl))
