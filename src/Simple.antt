-- ===== src/Simple.antt =====
-- simple_ftl.c: reads and writes are spread over io units, each with the time until which it is
-- busy.
pub mod Units
pub mod Flush
mod Tests
use dumping.Base.{
  ℕ, zero, suc, Bool, ◌+◌, ◌-◌, ◌*◌, ◌/◌, ◌%◌, ◌^◌, ◌&&◌, ◌==◌, leb, ltb, not, min, max, u32, u64,
  update, if◌then◌else◌,
}
use dumping.Base.Run.{Run, ok, bug, out_of_fuel, ◌>>◌, nvmev_assert}
use dumping.Conv.Read.{Opcode}

-- The fields of `struct nvmev_config` that simple_ftl.c reads, all `unsigned int`.
pub record NvmevConfig : Type 0 where
  pub nr_io_units : ℕ
  pub io_unit_shift : ℕ
  pub read_delay : ℕ
  pub read_time : ℕ
  pub read_trailing : ℕ
  pub write_delay : ℕ
  pub write_time : ℕ
  pub write_trailing : ℕ

-- `io_unit_stat`, indexed by the unit.
abbrev pub IoUnitStat : Type 0
IoUnitStat = ℕ → ℕ

-- `slba` and the 16-bit `length`, which counts from 0.
pub record RwCommand : Type 0 where
  pub slba : ℕ
  pub length : ℕ

abbrev pub cmd_io_size : RwCommand → ℕ
cmd_io_size cmd = (cmd.length + 1) * 512

abbrev pub delay_of : NvmevConfig → Opcode → ℕ
delay_of c op = elim op [
  | Opcode.cmd_write ↦ c.write_delay
  | Opcode.cmd_read ↦ c.read_delay
  | _ ↦ 0
]

abbrev pub latency_of : NvmevConfig → Opcode → ℕ
latency_of c op = elim op [
  | Opcode.cmd_write ↦ c.write_time
  | Opcode.cmd_read ↦ c.read_time
  | _ ↦ 0
]

abbrev pub trailing_of : NvmevConfig → Opcode → ℕ
trailing_of c op = elim op [
  | Opcode.cmd_write ↦ c.write_trailing
  | Opcode.cmd_read ↦ c.read_trailing
  | _ ↦ 0
]

abbrev pub io_unit_size : NvmevConfig → ℕ
io_unit_size c = 2 ^ c.io_unit_shift

abbrev pub first_unit : NvmevConfig → ℕ → ℕ
first_unit c lba = lba / 2 ^ (c.io_unit_shift - 9) % c.nr_io_units

-- The `int` nr_io_units, where 0 stands for every value that is not positive.
abbrev pub trailing_units : NvmevConfig → ℕ → ℕ
trailing_units c length =
    let n = min c.nr_io_units (u32 (length + io_unit_size c - 1) / io_unit_size c) in
    if ltb n (2 ^ 31) then n else 0

-- `if (++io_unit >= nr_io_units) io_unit = 0`
unfoldable pub next_unit : NvmevConfig → ℕ → ℕ
next_unit c unit = if leb c.nr_io_units (u32 (unit + 1)) then 0 else u32 (unit + 1)

-- The do-while loop, which leaves the busy times and the latest time.
unfoldable pub io_loop :
    ℕ → NvmevConfig → Opcode → IoUnitStat → ℕ → ℕ → ℕ → ℕ → Run (IoUnitStat × ℕ)
io_loop zero c op s latest trailing unit length = out_of_fuel
io_loop (suc fuel) c op s latest trailing unit length =
    let done = u64 (latest + latency_of c op) in
    let busy = if ltb 0 trailing then u64 (done + trailing_of c op) else done in
    let left = length - min length (io_unit_size c) in
    let rest = io_loop fuel c op (update s unit busy) done (trailing - 1) (next_unit c unit) left in
    if ltb 0 left then rest else ok (update s unit busy, done)

abbrev pub started : NvmevConfig → Opcode → IoUnitStat → ℕ → ℕ → ℕ
started c op s lba start = u64 (max start (s (first_unit c lba)) + delay_of c op)

-- A shift that C leaves undefined is a BUG.
unfoldable pub schedule_io_units :
    NvmevConfig → IoUnitStat → Opcode → ℕ → ℕ → ℕ → Run (IoUnitStat × ℕ)
schedule_io_units c s op lba length start =
    if leb 9 c.io_unit_shift && ltb c.io_unit_shift 32 && ltb 0 c.nr_io_units
    then io_loop (length + 1) c op s (started c op s lba start) (trailing_units c length)
        (first_unit c lba) length
    else bug

-- The loop of a flush over the units below a bound.
unfoldable pub schedule_flush : ℕ → IoUnitStat → ℕ
schedule_flush zero s = 0
schedule_flush (suc i) s = max (schedule_flush i s) (s i)

-- `built` says that BASE_SSD is INTEL_OPTANE or MI, `csi` is the command set of the namespace, `now`
-- the time of the clock and `target` the nsecs_target that the caller passed in.
unfoldable pub simple_proc_nvme_io_cmd :
    NvmevConfig → Bool → ℕ → IoUnitStat → Opcode → RwCommand → ℕ → ℕ → Run (IoUnitStat × ℕ)
simple_proc_nvme_io_cmd c built csi s op cmd now target =
    nvmev_assert (csi == 0)
    >> (nvmev_assert built >> elim op [
      | Opcode.cmd_write ↦ schedule_io_units c s Opcode.cmd_write cmd.slba (cmd_io_size cmd) now
      | Opcode.cmd_read ↦ schedule_io_units c s Opcode.cmd_read cmd.slba (cmd_io_size cmd) now
      | Opcode.cmd_flush ↦ ok (s, schedule_flush c.nr_io_units s)
      | Opcode.cmd_other ↦ ok (s, target)
    ])
