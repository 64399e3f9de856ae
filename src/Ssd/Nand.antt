-- ===== src/Ssd/Nand.antt =====
-- ssd.h and ssd.c: the state of the dies and channels, and the time that a NAND command takes.
-- `cpu_clock n` is what the clock shows when it is read for the n-th time.
pub mod Transfer
pub mod Advance
use dumping.Base.{
  none, some, zero, suc, ℕ, Bool, if◌then◌else◌, ◌/◌, ◌+◌, update, u64, Option, suc, ◌==◌, ◌%◌, ◌*◌,
  min, ◌&&◌, div_round_up, ◌-◌, true, max, ltb, not, ◌||◌, leb,
}
use dumping.Base.Run.{Run, ok, bug, out_of_fuel, ◌>>=◌}
use dumping.Ssd.Config.{kb}
use dumping.Ssd.Params.{SsdParams, CellType, lsb, msb, csb}
use dumping.Ssd.Ppa.{Ppa, word, unmapped_ppa}
use dumping.Ssd.Buffer.{Buffer, buffer_init}
use dumping.Ssd.Channel.{ChannelModel, chmodel_init, chmodel_request, unit_xfer_size}

-- struct nand_lun, without its planes.
pub record Lun : Type 0 where
  pub next_lun_avail_time : ℕ
  pub busy : Bool
  pub gc_endtime : ℕ
  pub first_io : Bool

-- struct ssd, with the arrays of channels and dies as functions of the indices.
pub record Ssd : Type 0 where
  pub sp : SsdParams
  pub perf_model : ℕ → ChannelModel
  pub lun : ℕ → ℕ → Lun
  pub checking : Bool
  pub ch_die_counter : ℕ
  pub ch_die_latency : ℕ

-- The PCIe link and the write buffer, which the instances of a namespace share, and the number
-- of times that the clock has been read.
pub record Link : Type 0 where
  pub pcie : ChannelModel
  pub write_buffer : Buffer
  pub ticks : ℕ

pub data NandOp : Type 0 where
  nand_read nand_write nand_erase nand_nop unsupported : NandOp

-- struct nand_cmd. A negative `arrive_time` is `none`.
pub record NandCmd : Type 0 where
  pub cmd : NandOp
  pub xfer_size : ℕ
  pub stime : ℕ
  pub interleave_pci_dma : Bool
  pub ppa : Ppa
  pub arrive_time : Option ℕ

-- The cell types are numbered 0, 1, 2.
abbrev pub cell_type : ℕ → CellType
cell_type n = if n == 0 then lsb else if n == 1 then msb else csb

abbrev pub get_cell : SsdParams → Ppa → ℕ
get_cell p a = a.pg / p.pgs_per_flashpg % (p.cell_mode + 1)

abbrev pub set_lun : Ssd → ℕ → ℕ → Lun → Ssd
set_lun s c l v = record s { lun = λ i j. if i == c && j == l then v else s.lun i j }

-- The state that a command works on.
pub record Device : Type 0 where
  pub ssd : Ssd
  pub link : Link

-- What a command leaves: the device, the command's `arrive_time` and the completion time.
pub record Outcome : Type 0 where
  pub device : Device
  pub arrive_time : Option ℕ
  pub time : ℕ

-- The statistics of a read's wait for the die, and the command's `arrive_time`.
unfoldable pub note_wait : Ssd → NandCmd → ℕ → ℕ → Ssd × Option ℕ
note_wait s n nand_stime cmd_stime =
    let l = s.lun n.ppa.ch n.ppa.lun in
    let delay = nand_stime - cmd_stime in
    let t = set_lun s n.ppa.ch n.ppa.lun (record l { first_io = true }) in
    let counted = record t {
      ch_die_counter = u64 (s.ch_die_counter + 1);
      ch_die_latency = u64 (s.ch_die_latency + delay);
    } in
    let earlier : Option ℕ = elim (n.arrive_time) [
      | none ↦ some delay
      | some a ↦ some (if ltb delay a then delay else a)
    ] in
    if s.checking && not l.first_io
    then (if ltb 0 delay then counted else t, earlier)
    else (s, n.arrive_time)

-- `lun->next_lun_avail_time = t`
abbrev pub occupy : Device → Ppa → ℕ → Device
occupy d a t =
    let s = d.ssd in
    record d { ssd = set_lun s a.ch a.lun (record (s.lun a.ch a.lun) { next_lun_avail_time = t }) }

-- The latency of a cell that exists.
abbrev pub read_latency : SsdParams → NandCmd → ℕ
read_latency p n =
    if n.xfer_size == 4096
    then p.pg_4kb_rd_lat (cell_type (get_cell p n.ppa))
    else p.pg_rd_lat (cell_type (get_cell p n.ppa))

module _ (cpu_clock : ℕ → ℕ) where
  abbrev pub read_clock : Link → ℕ × Link
  read_clock k = (cpu_clock k.ticks, record k { ticks = k.ticks + 1 })

  pub ssd_advance_pcie : Link → ℕ → ℕ → Run (Link × ℕ)
  ssd_advance_pcie k request_time length = do
    (m, t) ← chmodel_request (cpu_clock k.ticks) k.pcie request_time length
    ok (record k { pcie = m; ticks = k.ticks + 1 }, t)

  -- chmodel_request on the channel `c`.
  pub advance_channel : Device → ℕ → ℕ → ℕ → Run (Device × ℕ)
  advance_channel d c request_time length = do
    (m, t) ← chmodel_request (cpu_clock d.link.ticks) (d.ssd.perf_model c) request_time length
    ok (
      record {
        ssd = record (d.ssd) { perf_model = update d.ssd.perf_model c m };
        link = record (d.link) { ticks = d.link.ticks + 1 };
      },
      t,
    )

  -- ssd_advance_write_buffer; KB(transfer_size_KB) is not zero at any of its calls.
  unfoldable pub ssd_advance_write_buffer : SsdParams → Link → ℕ → ℕ → ℕ → Run (Link × ℕ)
  ssd_advance_write_buffer p k request_time length transfer_size_kb =
      ssd_advance_pcie k
        (u64 (
          request_time
          + p.fw_wbuf_lat0
          + p.fw_wbuf_lat1 * div_round_up length (kb transfer_size_kb)))
        length

  -- The transfer of one chunk, over the channel and maybe over PCIe.
  pub transfer_chunk : Device → NandCmd → ℕ → ℕ → Run (Device × ℕ × ℕ)
  transfer_chunk d n chnl_stime xfer_size = do
    (d', chnl_etime) ← advance_channel d n.ppa.ch chnl_stime xfer_size
    let over_pcie : Run (Device × ℕ × ℕ) = do
      (k, t) ← ssd_advance_pcie d'.link chnl_etime xfer_size
      ok (record d' { link = k }, chnl_etime, t)
    if n.interleave_pci_dma then over_pcie else ok (d', chnl_etime, chnl_etime)

  -- `while (remaining)` of a read: the device, the channel's end time and the completion time.
  pub transfer_loop : ℕ → Device → NandCmd → ℕ → ℕ → ℕ → Run (Device × ℕ × ℕ)
  transfer_loop zero d n remaining chnl_stime completed = out_of_fuel
  transfer_loop (suc fuel) d n remaining chnl_stime completed =
      let xfer_size = min remaining d.ssd.sp.max_ch_xfer_size in
      let rest = transfer_chunk d n chnl_stime xfer_size >>= λ (d', chnl_etime, t).
      transfer_loop fuel d' n (remaining - xfer_size) chnl_etime t in
      if remaining == 0 then ok (d, chnl_stime, completed) else rest

  -- NAND_READ. A read of no bytes uses times that are not set, and the arrays of latencies have
  -- three entries.
  pub do_read : Device → NandCmd → ℕ → Run Outcome
  do_read d n cmd_stime =
      let nand_stime = max (d.ssd.lun n.ppa.ch n.ppa.lun).next_lun_avail_time cmd_stime in
      let (s, arrive) = note_wait d.ssd n nand_stime cmd_stime in
      let nand_etime = u64 (nand_stime + read_latency d.ssd.sp n) in
      let transfer =
        transfer_loop (n.xfer_size + 1) (record d { ssd = s }) n n.xfer_size nand_etime 0
        >>= λ (d', chnl_etime, t).
            ok (record { device = occupy d' n.ppa chnl_etime; arrive_time = arrive; time = t }) in
      if n.xfer_size == 0 || leb 3 (get_cell d.ssd.sp n.ppa) then bug else transfer

  -- NAND_WRITE: the transfer, then the program.
  pub do_write : Device → NandCmd → ℕ → Run Outcome
  do_write d n cmd_stime = do
    let start = max (d.ssd.lun n.ppa.ch n.ppa.lun).next_lun_avail_time cmd_stime
    (d', chnl_etime) ← advance_channel d n.ppa.ch start n.xfer_size
    let nand_etime = u64 (chnl_etime + d.ssd.sp.pg_wr_lat)
    ok (record {
      device = occupy d' n.ppa nand_etime;
      arrive_time = n.arrive_time;
      time = nand_etime;
    })

  -- NAND_ERASE takes `blk_er_lat`, NAND_NOP no time.
  pub do_hold : Device → NandCmd → ℕ → ℕ → Run Outcome
  do_hold d n cmd_stime latency =
      let start = max (d.ssd.lun n.ppa.ch n.ppa.lun).next_lun_avail_time cmd_stime in
      let nand_etime = u64 (start + latency) in
      ok (record {
        device = occupy d n.ppa nand_etime;
        arrive_time = n.arrive_time;
        time = nand_etime;
      })

  pub dispatch : NandOp → Device → NandCmd → ℕ → Run Outcome
  dispatch nand_read d n cmd_stime = do_read d n cmd_stime
  dispatch nand_write d n cmd_stime = do_write d n cmd_stime
  dispatch nand_erase d n cmd_stime = do_hold d n cmd_stime d.ssd.sp.blk_er_lat
  dispatch nand_nop d n cmd_stime = do_hold d n cmd_stime 0
  dispatch unsupported d n cmd_stime =
      ok (record { device = d; arrive_time = n.arrive_time; time = 0 })

  -- The start time of a command is the clock's if it has none of its own.
  abbrev pub cmd_start : Device → NandCmd → ℕ × Device
  cmd_start d n =
      let (now, k) = read_clock d.link in
      if n.stime == 0 then (now, record d { link = k }) else (n.stime, d)

  -- get_lun and get_cell are called for every mapped address: a channel or a die past its array and
  -- a flash page of no pages are a BUG.
  pub ssd_advance_nand : Device → NandCmd → Run Outcome
  ssd_advance_nand d n =
      let (cmd_stime, d') = cmd_start d n in
      let skipped : Run Outcome =
        ok (record { device = d'; arrive_time = n.arrive_time; time = cmd_stime }) in
      let reached = dispatch n.cmd d' n cmd_stime in
      let p = d.ssd.sp in
      if word n.ppa == word unmapped_ppa
      then skipped
      else if ltb n.ppa.ch p.nchs && ltb n.ppa.lun p.luns_per_ch && ltb 0 p.pgs_per_flashpg
      then reached
      else bug

  -- ssd_next_idle_time: the latest time at which a die is busy, and not before the clock. The
  -- maximum is taken from the last die down.
  unfoldable pub latest_of_luns : ℕ → ℕ → Ssd → ℕ → ℕ
  latest_of_luns zero i s latest = latest
  latest_of_luns (suc j) i s latest =
      latest_of_luns j i s (max latest (s.lun i j).next_lun_avail_time)

  unfoldable pub latest_of_chs : ℕ → Ssd → ℕ → ℕ
  latest_of_chs zero s latest = latest
  latest_of_chs (suc i) s latest = latest_of_chs i s (latest_of_luns s.sp.luns_per_ch i s latest)

  unfoldable pub ssd_next_idle_time : Device → ℕ × Device
  ssd_next_idle_time d =
      let (now, k) = read_clock d.link in
      (latest_of_chs d.ssd.sp.nchs d.ssd now, record d { link = k })
