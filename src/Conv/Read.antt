-- ===== src/Conv/Read.antt =====
-- conv_read, conv_flush and conv_proc_nvme_io_cmd (conv_ftl.c).
pub mod Live
pub mod Total
use dumping.Conv.Ftl.{ConvFtl, get_maptbl_ent, mapped_ppa, valid_ppa}
use dumping.Ssd.Ppa.{Ppa, blk_in_ssd}
use dumping.Conv.Pqueue.{Pqueue}
use dumping.Ssd.Params.{SsdParams}
use dumping.Base.{
  ℕ, zero, suc, Bool, true, false, Option, some, none, ◌/◌, ◌%◌, ◌+◌, ◌*◌, ◌-◌, ◌^◌, ◌==◌, ◌&&◌,
  ◌||◌, not, ltb, leb, update, if◌then◌else◌, u32, sub32, u64, sub64, max,
}
use dumping.Base.Run.{Run, ok, bug, out_of_fuel, ◌>>=◌, ◌>>◌, nvmev_assert}
use dumping.Ssd.Nand.{nand_read, ssd_next_idle_time, read_clock, ssd_advance_nand}
use dumping.Conv.Write.{
  put_off, completed, ConvNs, Reply, ConvCmd, params, set_ftl, conv_write, end_lpn_of, start_lpn_of,
}

unfoldable pub is_same_flash_page : SsdParams → Ppa → Ppa → Bool
is_same_flash_page p a b =
    blk_in_ssd a == blk_in_ssd b && a.pg / p.pgs_per_flashpg == b.pg / p.pgs_per_flashpg

-- What the loops of a read keep: the command's `arrive_time` and the latest completion time.
pub record Reading : Type 0 where
  pub arrive : Option ℕ
  pub latest : ℕ

module _ {Q : Type 0} where
  -- `first_io = false` on every die of the instances.
  unfoldable pub clear_first_io : ConvNs Q → ConvNs Q
  clear_first_io n =
      let cleared : ConvFtl Q → ConvFtl Q = λ f. record f {
        ssd = record (f.ssd) {
          lun = λ c l.
              if ltb c (params n).nchs && ltb l f.ssd.sp.luns_per_ch
              then record (f.ssd.lun c l) { first_io = false }
              else f.ssd.lun c l;
        };
      } in
      record n { ftls = λ q. if ltb q n.nr_parts then cleared (n.ftls q) else n.ftls q }

  -- The `arrive_time` of -1 is added too.
  abbrev pub add_wait : ConvNs Q → Option ℕ → ConvNs Q
  add_wait n arrive = record n {
    queueing_wait = u64 (n.queueing_wait + (elim arrive [ none ↦ 2 ^ 64 - 1 | some a ↦ a ]));
  }

  abbrev pub conv_read_stime : ConvNs Q → ConvCmd → ℕ
  conv_read_stime n c =
      let p = params n in
      u64 (
        c.nsecs_start
        + (if leb ((c.length + 1) * 512) (4096 * n.nr_parts) then p.fw_4kb_rd_lat else p.fw_rd_lat))

  module _ (cpu_clock : ℕ → ℕ) where
    -- The pages of one flash page that were gathered, if any, are read.
    unfoldable pub read_gathered : ConvNs Q → ℕ → Ppa → ℕ → ℕ → Reading → Run (ConvNs Q × Reading)
    read_gathered n i prev xfer_size stime r =
        let issued : Run (ConvNs Q × Reading) = do
          o ←
              ssd_advance_nand cpu_clock (record { ssd = (n.ftls i).ssd; link = n.link })
                (record {
                  cmd = nand_read;
                  xfer_size = xfer_size;
                  stime = stime;
                  interleave_pci_dma = true;
                  ppa = prev;
                  arrive_time = r.arrive;
                })
          ok (
            set_ftl n i (record (n.ftls i) { ssd = o.device.ssd }) o.device.link,
            record { arrive = o.arrive_time; latest = max o.time r.latest },
          )
        in if ltb 0 xfer_size then issued else ok (n, r)

    -- The loop over the pages of instance `i`.
    unfoldable pub read_part :
        ℕ → ConvNs Q → ℕ → ℕ → ℕ → ℕ → Ppa → ℕ → Reading → Run (ConvNs Q × Reading)
    read_part zero n i lpn end_lpn stime prev xfer_size r = out_of_fuel
    read_part (suc fuel) n i lpn end_lpn stime prev xfer_size r =
        let f = n.ftls i in
        let p = params n in
        let next = u64 (lpn + n.nr_parts) in
        let cur = get_maptbl_ent f (lpn / n.nr_parts) in
        let skipped = read_part fuel n i next end_lpn stime prev xfer_size r in
        let gathered = read_part fuel n i next end_lpn stime prev (u32 (xfer_size + p.pgsz)) r in
        let issued = read_gathered n i prev xfer_size stime r >>= λ (m, s).
        read_part fuel m i next end_lpn stime cur (u32 p.pgsz) s in
        let rest =
          if not (mapped_ppa cur) || not (valid_ppa f.ssd.sp cur)
          then skipped
          else if mapped_ppa prev && is_same_flash_page f.ssd.sp cur prev
          then gathered
          else issued in
        if leb lpn end_lpn then rest else read_gathered n i prev xfer_size stime r

    -- The loop over the instances.
    unfoldable pub read_parts : ℕ → ConvNs Q → ℕ → ℕ → ℕ → Reading → Run (ConvNs Q × Reading)
    read_parts zero n start_lpn end_lpn stime r = ok (n, r)
    read_parts (suc parts) n start_lpn end_lpn stime r =
        let i = start_lpn % n.nr_parts in
        let prev = get_maptbl_ent (n.ftls i) (start_lpn / n.nr_parts) in
        let rest =
          read_part (end_lpn + 2 - start_lpn) n i start_lpn end_lpn stime prev 0 r >>= λ (m, s).
          read_parts parts m (u64 (start_lpn + 1)) end_lpn stime s in
        if leb start_lpn end_lpn then rest else ok (n, r)

    unfoldable pub conv_read : ConvNs Q → ConvCmd → Run (ConvNs Q × Reply)
    conv_read n c =
        let p = params n in
        let m = clear_first_io n in
        let end_lpn = end_lpn_of p c in
        let reading = do
          (g, r) ←
              read_parts n.nr_parts m (start_lpn_of p c) end_lpn (conv_read_stime n c)
                (record { arrive = none; latest = c.nsecs_start })
          ok (add_wait g r.arrive, completed r.latest)
        in if n.nr_parts == 0 || p.secs_per_pg == 0
          then bug
          else if leb p.tt_pgs (end_lpn / n.nr_parts)
          then ok (m, put_off)
          else reading

    -- The loop of conv_flush over the instances.
    unfoldable pub latest_of_parts : ℕ → ConvNs Q → ℕ → ConvNs Q × ℕ
    latest_of_parts zero n latest = (n, latest)
    latest_of_parts (suc i) n latest =
        let (m, t) = latest_of_parts i n latest in
        let (idle, d) =
          ssd_next_idle_time cpu_clock (record { ssd = (m.ftls i).ssd; link = m.link }) in
        (set_ftl m i (record (m.ftls i) { ssd = d.ssd }) d.link, max t idle)

    unfoldable pub conv_flush : ConvNs Q → ConvNs Q × ℕ
    conv_flush n =
        let (now, k) = read_clock cpu_clock n.link in
        latest_of_parts n.nr_parts (record n { link = k }) now

-- The opcodes of conv_proc_nvme_io_cmd.
pub data Opcode : Type 0 where
  cmd_write cmd_read cmd_flush cmd_other : Opcode

-- What the dispatcher does with a request. A command that is not implemented leaves the result as
-- it was.
pub data Handled : Type 0 where
  replied : Reply → Handled
  untouched : Handled

module _ {Q : Type 0} (cpu_clock : ℕ → ℕ) (pq : Pqueue Q) where
  abbrev pub conv_proc_nvme_io_cmd : ConvNs Q → Opcode → ConvCmd → Run (ConvNs Q × Handled)
  conv_proc_nvme_io_cmd n cmd_write c = conv_write cpu_clock pq n c >>= λ (m, r). ok (m, replied r)
  conv_proc_nvme_io_cmd n cmd_read c = conv_read cpu_clock n c >>= λ (m, r). ok (m, replied r)
  conv_proc_nvme_io_cmd n cmd_flush c =
      let (m, t) = conv_flush cpu_clock n in ok (m, replied (completed t))
  conv_proc_nvme_io_cmd n cmd_other c = ok (n, untouched)
