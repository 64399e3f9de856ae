-- ===== src/Ssd/Buffer.antt =====
-- struct buffer and its operations (ssd.c). The lock makes each of them one step.
use native.Mathlib.Decide.{dec_le}
use dumping.Base.{
  ℕ, ◌+◌, ◌-◌, ltb, if◌then◌else◌, u32, u64, ◌<◌, ◌^◌, ◌≤◌, ◌≡◌, ◌⊎◌, inl, inr, arith, if_false, ap,
}

pub record Buffer : Type 0 where
  pub size : ℕ
  pub remaining : ℕ

abbrev pub buffer_init : ℕ → Buffer
buffer_init size = record { size = size; remaining = size }

-- The result is a `uint32_t`.
unfoldable pub buffer_allocate : Buffer → ℕ → Buffer × ℕ
buffer_allocate b size =
    let granted = if ltb b.remaining size then 0 else size in
    (record b { remaining = b.remaining - granted }, u32 granted)

pub buffer_release : Buffer → ℕ → Buffer
buffer_release b size = record b { remaining = u64 (b.remaining + size) }

pub buffer_refill : Buffer → Buffer
buffer_refill b = record b { remaining = b.size }

whole :
    (b : Buffer) (n : ℕ)
    → b.remaining < 2 ^ 64
    → n ≤ b.remaining
    → buffer_release (buffer_allocate b n).0 n ≡ b
unfolding buffer_allocate buffer_release
whole b n small le =
    if_false (λ (t : ℕ). buffer_release (record b { remaining = b.remaining - t }) n ≡ b)
      (ltb b.remaining n) 0 n (ground (arith, le))
      (ap (λ t. record { size = b.size; remaining = t }) (omega (arith, small, le)))

-- An allocation of fewer than 2^32 bytes is whole or fails: a whole one takes the bytes and a
-- release of as many gives the buffer back; a failed one leaves the buffer and returns 0.
pub buffer_allocate-buffer_release :
    (b : Buffer) (n : ℕ)
    → b.remaining < 2 ^ 64
    → n < 2 ^ 32
    → ((n ≤ b.remaining)
        × ((buffer_allocate b n).1 ≡ n)
        × ((buffer_allocate b n).0.remaining + n ≡ b.remaining)
        × (buffer_release (buffer_allocate b n).0 n ≡ b))
      ⊎ ((b.remaining < n) × (buffer_allocate b n ≡ (b, 0)))
unfolding buffer_allocate buffer_release
buffer_allocate-buffer_release b n small len = elim (dec_le n b.remaining) [
  | yes le ↦ inl (le, ground (arith, le, len), ground (arith, le), whole b n small le)
  | no gt ↦ inr (omega (arith, gt), ground (arith, gt))
]
