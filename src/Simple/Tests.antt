-- ===== src/Simple/Tests.antt =====
-- Examples for simple_ftl.c: eight units of 4 KiB, the third of which is busy.
use dumping.Simple.{
  NvmevConfig, IoUnitStat, RwCommand, schedule_io_units, simple_proc_nvme_io_cmd, started,
  first_unit,
}
use dumping.Simple.Units.{IsConfig, IsSpread, schedule_io_units-IsSpread}
use dumping.Simple.Flush.{IsEarly, IsOrdered, simple_proc_nvme_io_cmd-IsOrdered}
use dumping.Conv.Read.{Opcode}
use dumping.Base.{◌≡◌, ◌==◌, if◌then◌else◌, refl, arith, inr, true}
use dumping.Base.Run.{Returns, ok, ◌>>=◌}

abbrev eight_units : NvmevConfig
eight_units = record {
  nr_io_units = 8;
  io_unit_shift = 12;
  read_delay = 1;
  read_time = 10;
  read_trailing = 2;
  write_delay = 5;
  write_time = 20;
  write_trailing = 7;
}

abbrev third_busy : IoUnitStat
third_busy u = if u == 2 then 500 else 0

-- 12 KiB from the third unit on.
abbrev three_units : RwCommand
three_units = record { slba = 16; length = 23 }

eight_units-IsConfig : IsConfig eight_units
eight_units-IsConfig = record {
  shift = omega arith;
  narrow = omega arith;
  some = omega arith;
  few = omega arith;
}

third_busy-IsEarly : IsEarly eight_units third_busy Opcode.cmd_write three_units 100
third_busy-IsEarly = record { ends = omega arith }

-- Three units at 20 each from 505 on; the last of them trails by 7.
write_three :
    (schedule_io_units eight_units third_busy Opcode.cmd_write 16 12288 100 >>= λ y. ok (y.1))
    ≡ ok 565
unfolding schedule_io_units dumping.Simple.io_loop
write_three = refl

schedule_io_units-IsSpread_example :
    Returns
      (IsSpread eight_units Opcode.cmd_write third_busy
        (started eight_units Opcode.cmd_write third_busy 16 100)
        (first_unit eight_units 16)
        12288)
      (schedule_io_units eight_units third_busy Opcode.cmd_write 16 12288 100)
schedule_io_units-IsSpread_example =
    schedule_io_units-IsSpread eight_units Opcode.cmd_write third_busy 16 12288 100
      eight_units-IsConfig

simple_proc_nvme_io_cmd-IsOrdered_example :
    Returns
      (IsOrdered eight_units 100 three_units 110 0)
      (simple_proc_nvme_io_cmd eight_units true 0 third_busy Opcode.cmd_write three_units 100 0)
simple_proc_nvme_io_cmd-IsOrdered_example =
    simple_proc_nvme_io_cmd-IsOrdered eight_units third_busy Opcode.cmd_write three_units 100 0
      three_units 110 0 (inr refl) eight_units-IsConfig third_busy-IsEarly
