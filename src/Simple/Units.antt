-- ===== src/Simple/Units.antt =====
-- __schedule_io_units of simple_ftl.c: the time at which a request completes.
use dumping.Simple.{
  NvmevConfig, IoUnitStat, io_loop, next_unit, schedule_io_units, latency_of, trailing_of,
  io_unit_size, first_unit, trailing_units, started,
}
use dumping.Conv.Read.{Opcode}
use dumping.Base.{
  ℕ, zero, suc, ◌+◌, ◌-◌, ◌*◌, ◌/◌, ◌%◌, ◌^◌, ◌≡◌, ◌≢◌, ◌<◌, ◌≤◌, ltb, leb, min, max, u64, update,
  update_other, if◌then◌else◌, arith, tests, ◌∙◌, subst, mod_lt, ◌&&◌, sym, ap,
}
use dumping.Base.Run.{bug, Returns, Returns-if, Returns-map}
use native.Mathlib.Nat.{mod-add-mod, mod_self, mod-eq_of_lt}

-- The configurations whose shifts C defines and that have a unit.
pub record IsConfig (c : NvmevConfig) : Type 0 where
  pub shift : 9 ≤ c.io_unit_shift
  pub narrow : c.io_unit_shift < 32
  pub some : 0 < c.nr_io_units
  pub few : c.nr_io_units < 2 ^ 32

-- What the loop leaves after `m` more rounds than one.
pub record IsSpread (c : NvmevConfig) (op : Opcode) (s : IoUnitStat) (latest unit length : ℕ)
    (y : IoUnitStat × ℕ) : Type 0 where
  pub m : ℕ
  pub needed : m * io_unit_size c < max length 1
  pub covered : length ≤ m * io_unit_size c + io_unit_size c
  pub time : y.1 ≡ u64 (latest + (m * latency_of c op + latency_of c op))
  pub kept : (j : ℕ) → ((k : ℕ) → k ≤ m → j ≢ (unit + k) % c.nr_io_units) → y.0 j ≡ s j

pub pow_pos : (n : ℕ) → 0 < 2 ^ n
pow_pos zero = omega arith
pow_pos (suc n) = grind (arith, pow_pos n)

pub suc_mul : (m k : ℕ) → suc m * k ≡ m * k + k
suc_mul m k = grind arith

mod_step : (nr unit k : ℕ) → ((unit + 1) % nr + k) % nr ≡ (unit + suc k) % nr
mod_step nr unit k = mod-add-mod (unit + 1) nr k ∙ ap (λ x. x % nr) (omega arith)

-- The next unit, as the units are counted round.
pub next_unit_lem :
    (c : NvmevConfig) (unit : ℕ)
    → c.nr_io_units < 2 ^ 32
    → unit < c.nr_io_units
    → next_unit c unit ≡ (unit + 1) % c.nr_io_units
unfolding next_unit
next_unit_lem c unit few lt =
    grind (arith, tests, mod-eq_of_lt {n = unit + 1} {m = c.nr_io_units}, mod_self c.nr_io_units)

-- Two rounds of the clock's word are one.
u64_step : (a b c : ℕ) → u64 (u64 (a + b) + c) ≡ u64 (a + (c + b))
u64_step a b c = mod-add-mod (a + b) (2 ^ 64) c ∙ ap u64 (omega arith)

module _ (c : NvmevConfig) (op : Opcode) where
  io_loop-IsSpread :
      (fuel : ℕ) (s : IoUnitStat) (latest trailing unit length : ℕ)
      → IsConfig c
      → unit < c.nr_io_units
      → length < fuel
      → Returns
          (IsSpread c op s latest unit length)
          (io_loop fuel c op s latest trailing unit length)
  unfolding io_loop
  io_loop-IsSpread zero s latest trailing unit length h lt enough = absurd (omega (arith, enough))
  io_loop-IsSpread (suc fuel) s latest trailing unit length h lt enough =
      let P = IsSpread c op s latest unit length in
      let size = io_unit_size c in
      let some : 0 < size = pow_pos c.io_unit_shift in
      let done = u64 (latest + latency_of c op) in
      let busy = if ltb 0 trailing then u64 (done + trailing_of c op) else done in
      let left = length - min length size in
      let next = next_unit_lem c unit h.few lt in
      let here : (unit + 0) % c.nr_io_units ≡ unit =
        ap (λ x. x % c.nr_io_units) (omega arith) ∙ mod-eq_of_lt lt in
      Returns-if P (ltb 0 left) _ _
        (λ more.
          Returns-map (IsSpread c op (update s unit busy) done (next_unit c unit) left) P
            (io_loop fuel c op (update s unit busy) done (trailing - 1) (next_unit c unit) left)
            (io_loop-IsSpread fuel (update s unit busy) done (trailing - 1) (next_unit c unit) left
              h (subst (λ x. x < c.nr_io_units) (sym next) (mod_lt (unit + 1) c.nr_io_units h.some))
              (omega (tests, more, enough, some)))
            (λ y w. record {
              m = suc w.m;
              needed = omega (tests, more, w.needed, suc_mul w.m size);
              covered = omega (tests, more, w.covered, suc_mul w.m size);
              time =
                  w.time
                  ∙ u64_step latest (latency_of c op) (w.m * latency_of c op + latency_of c op)
                  ∙ ap (λ x. u64 (latest + x)) (omega (arith, suc_mul w.m (latency_of c op)));
              kept = λ j away.
                  w.kept j (λ k le e.
                    away (suc k) (omega (arith, le))
                      (e ∙ ap (λ x. (x + k) % c.nr_io_units) next ∙ mod_step c.nr_io_units unit k))
                  ∙ update_other s unit busy j (λ e. away 0 (omega arith) (e ∙ sym here));
            }))
        (λ last. record {
          m = 0;
          needed = omega arith;
          covered = omega (tests, last);
          time = ap (λ x. u64 (latest + x)) (omega arith);
          kept = λ j away. update_other s unit busy j (λ e. away 0 (omega arith) (e ∙ sym here));
        })

  -- Where the shifts are defined and there is an io unit, a request for `length` bytes returns. Its
  -- completion time is the later of the start and of the time at which the first unit is free, plus
  -- the delay, plus the latency for each unit size begun in `length`, at least one, on 64 bits; a
  -- unit that is not among that many from the first, counted round, keeps its time.
  pub schedule_io_units-IsSpread :
      (s : IoUnitStat) (lba length start : ℕ)
      → IsConfig c
      → Returns
          (IsSpread c op s (started c op s lba start) (first_unit c lba) length)
          (schedule_io_units c s op lba length start)
  unfolding schedule_io_units
  schedule_io_units-IsSpread s lba length start h =
      Returns-if (IsSpread c op s (started c op s lba start) (first_unit c lba) length)
        (leb 9 c.io_unit_shift && ltb c.io_unit_shift 32 && ltb 0 c.nr_io_units) _ bug
        (λ e.
          io_loop-IsSpread (length + 1) s (started c op s lba start) (trailing_units c length)
            (first_unit c lba) length h
            (mod_lt (lba / 2 ^ (c.io_unit_shift - 9)) c.nr_io_units h.some) (omega arith))
        (λ e. grind (tests, e, h.shift, h.narrow, h.some))
