-- ===== src/Simple/Flush.antt =====
-- A flush waits for the io units (simple_ftl.c).
use dumping.Simple.{
  NvmevConfig, IoUnitStat, RwCommand, io_loop, next_unit, schedule_io_units, schedule_flush,
  simple_proc_nvme_io_cmd, latency_of, trailing_of, delay_of, io_unit_size, first_unit,
  trailing_units, started, cmd_io_size,
}
use dumping.Simple.Units.{IsConfig, pow_pos, next_unit_lem, suc_mul}
use dumping.Conv.Read.{Opcode}
use dumping.Base.{
  ℕ, zero, suc, true, ◌+◌, ◌-◌, ◌*◌, ◌/◌, ◌^◌, ◌≡◌, ◌<◌, ◌≤◌, ltb, leb, min, max, u64, update,
  update_same, if◌then◌else◌, if_cases, refl, arith, tests, subst, mod_lt, ◌&&◌, sym, ap, ◌⊎◌, inl,
  inr,
}
use dumping.Base.Run.{Run, bug, Returns, Returns-if, Returns-map}
use native.Mathlib.Nat.{mod-eq_of_lt}
use native.Mathlib.Decide.{ℕ_discrete}

-- No time computed for the command passes the end of its 64 bits.
pub record IsEarly (c : NvmevConfig) (s : IoUnitStat) (op : Opcode) (cmd : RwCommand) (now : ℕ)
    : Type 0 where
  pub ends :
      max now (s (first_unit c cmd.slba))
        + delay_of c op
        + (cmd_io_size cmd + 1) * latency_of c op
        + trailing_of c op
      < 2 ^ 64

-- The command completes no earlier than it starts, and some unit is busy until then.
record IsBusy (c : NvmevConfig) (start : ℕ) (y : IoUnitStat × ℕ) : Type 0 where
  later : start ≤ y.1
  unit : ℕ
  exists : unit < c.nr_io_units
  busy : y.1 ≤ y.0 unit

schedule_flush_ge : (n : ℕ) (s : IoUnitStat) (i : ℕ) → i < n → s i ≤ schedule_flush n s
unfolding schedule_flush
schedule_flush_ge zero s i lt = absurd (omega (arith, lt))
schedule_flush_ge (suc n) s i lt = elim (ℕ_discrete i n) [
  | yes e ↦ omega (arith, ap s e)
  | no ne ↦ omega (arith, schedule_flush_ge n s i (omega (arith, lt, ne)))
]

fits : (a : ℕ) → a < 2 ^ 64 → u64 a ≡ a
fits a lt = mod-eq_of_lt lt

module _ (c : NvmevConfig) (op : Opcode) where
  io_loop-IsBusy :
      (fuel : ℕ) (s : IoUnitStat) (latest trailing unit length : ℕ)
      → IsConfig c
      → unit < c.nr_io_units
      → length < fuel
      → latest + fuel * latency_of c op + trailing_of c op < 2 ^ 64
      → Returns (IsBusy c latest) (io_loop fuel c op s latest trailing unit length)
  unfolding io_loop
  io_loop-IsBusy zero s latest trailing unit length h lt enough early =
      absurd (omega (arith, enough))
  io_loop-IsBusy (suc fuel) s latest trailing unit length h lt enough early =
      let P = IsBusy c latest in
      let size = io_unit_size c in
      let lat = latency_of c op in
      let done = u64 (latest + lat) in
      let busy = if ltb 0 trailing then u64 (done + trailing_of c op) else done in
      let left = length - min length size in
      let more_time = suc_mul fuel lat in
      let done_at : done ≡ latest + lat = fits (latest + lat) (omega (arith, early, more_time)) in
      let held : done ≤ busy =
        if_cases (λ x. done ≤ x) (ltb 0 trailing) (u64 (done + trailing_of c op)) done
          (λ e.
            omega
              (arith, fits (done + trailing_of c op) (omega (arith, early, more_time, done_at))))
          (λ e. omega arith) in
      Returns-if P (ltb 0 left) _ _
        (λ more.
          Returns-map (IsBusy c done) P
            (io_loop fuel c op (update s unit busy) done (trailing - 1) (next_unit c unit) left)
            (io_loop-IsBusy fuel (update s unit busy) done (trailing - 1) (next_unit c unit) left h
              (subst (λ x. x < c.nr_io_units) (sym (next_unit_lem c unit h.few lt))
                (mod_lt (unit + 1) c.nr_io_units h.some))
              (omega (tests, more, enough, pow_pos c.io_unit_shift))
              (omega (arith, early, more_time, done_at)))
            (λ y w. record {
              later = omega (arith, w.later, done_at);
              unit = w.unit;
              exists = w.exists;
              busy = w.busy;
            }))
        (λ last. record {
          later = omega (arith, done_at);
          unit = unit;
          exists = lt;
          busy = subst (λ x. done ≤ x) (sym (update_same s unit busy)) held;
        })

  schedule_io_units-IsBusy :
      (s : IoUnitStat) (cmd : RwCommand) (now : ℕ)
      → IsConfig c
      → IsEarly c s op cmd now
      → Returns (IsBusy c now) (schedule_io_units c s op cmd.slba (cmd_io_size cmd) now)
  unfolding schedule_io_units
  schedule_io_units-IsBusy s cmd now h early =
      let at = started c op s cmd.slba now in
      let begun : at ≡ max now (s (first_unit c cmd.slba)) + delay_of c op =
        fits _ (omega (arith, early.ends)) in
      Returns-if (IsBusy c now)
        (leb 9 c.io_unit_shift && ltb c.io_unit_shift 32 && ltb 0 c.nr_io_units) _ bug
        (λ e.
          Returns-map (IsBusy c at) (IsBusy c now)
            (io_loop (cmd_io_size cmd + 1) c op s at (trailing_units c (cmd_io_size cmd))
              (first_unit c cmd.slba) (cmd_io_size cmd))
            (io_loop-IsBusy (cmd_io_size cmd + 1) s at (trailing_units c (cmd_io_size cmd))
              (first_unit c cmd.slba) (cmd_io_size cmd) h
              (mod_lt (cmd.slba / 2 ^ (c.io_unit_shift - 9)) c.nr_io_units h.some) (omega arith)
              (omega (arith, early.ends, begun)))
            (λ y w. record {
              later = omega (arith, w.later, begun);
              unit = w.unit;
              exists = w.exists;
              busy = w.busy;
            }))
        (λ e. grind (tests, e, h.shift, h.narrow, h.some))

-- What a read or a write and then a flush give: the first completes no earlier than it starts, and
-- the flush no earlier than the first.
pub IsOrdered : NvmevConfig → ℕ → RwCommand → ℕ → ℕ → IoUnitStat × ℕ → Type 0
IsOrdered c now flush later target y =
    (now ≤ y.1)
    × Returns (λ z. (y.1 ≤ z.1) × (z.0 ≡ y.0))
        (simple_proc_nvme_io_cmd c true 0 y.0 Opcode.cmd_flush flush later target)

module _ (c : NvmevConfig) where
  flushed :
      (now : ℕ) (flush : RwCommand) (later target : ℕ) (m : Run (IoUnitStat × ℕ))
      → Returns (IsBusy c now) m
      → Returns (IsOrdered c now flush later target) m
  unfolding simple_proc_nvme_io_cmd IsOrdered
  flushed now flush later target m h =
      Returns-map (IsBusy c now) (IsOrdered c now flush later target) m h (λ y w. (
        w.later,
        (omega (arith, w.busy, schedule_flush_ge c.nr_io_units y.0 w.unit w.exists), refl),
      ))

  -- Where the shifts are defined, there is an io unit and no time passes the end of its 64 bits, a
  -- read or a write raises no BUG and completes no earlier than it starts; a flush that comes next
  -- raises none either, completes no earlier than the command, and leaves the units as they are.
  pub simple_proc_nvme_io_cmd-IsOrdered :
      (s : IoUnitStat) (op : Opcode) (cmd : RwCommand) (now target : ℕ) (flush : RwCommand)
      (later old : ℕ)
      → (op ≡ Opcode.cmd_read) ⊎ (op ≡ Opcode.cmd_write)
      → IsConfig c
      → IsEarly c s op cmd now
      → Returns
          (IsOrdered c now flush later old)
          (simple_proc_nvme_io_cmd c true 0 s op cmd now target)
  unfolding simple_proc_nvme_io_cmd
  simple_proc_nvme_io_cmd-IsOrdered s Opcode.cmd_read cmd now target flush later old kind h early =
      flushed now flush later old _ (schedule_io_units-IsBusy c Opcode.cmd_read s cmd now h early)
  simple_proc_nvme_io_cmd-IsOrdered s Opcode.cmd_write cmd now target flush later old kind h early =
      flushed now flush later old _ (schedule_io_units-IsBusy c Opcode.cmd_write s cmd now h early)
  simple_proc_nvme_io_cmd-IsOrdered s Opcode.cmd_flush cmd now target flush later old (inl e) h
        early =
      cc
  simple_proc_nvme_io_cmd-IsOrdered s Opcode.cmd_flush cmd now target flush later old (inr e) h
        early =
      cc
  simple_proc_nvme_io_cmd-IsOrdered s Opcode.cmd_other cmd now target flush later old (inl e) h
        early =
      cc
  simple_proc_nvme_io_cmd-IsOrdered s Opcode.cmd_other cmd now target flush later old (inr e) h
        early =
      cc
