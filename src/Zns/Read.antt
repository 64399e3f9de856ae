-- ===== src/Zns/Read.antt =====
-- Reads (zns_read of zns_read_write.c).
pub mod Total
use dumping.Zns.Address.{
  lpn_to_ppa, nr_lbas_from_rw_cmd, lpn_to_zone, lba_to_lpn, check_boundary_error,
}
use dumping.Ssd.Ppa.{Ppa}
use dumping.Base.{
  zero, suc, ℕ, true, false, none, Bool, if◌then◌else◌, u64, not, ◌+◌, ◌%◌, leb, min, sub64, ◌*◌,
  ◌-◌, ltb, max,
}
use dumping.Base.Run.{Run, ok, bug, out_of_fuel, ◌>>=◌}
use dumping.Ssd.Nand.{nand_read, ssd_advance_nand, ssd_advance_pcie}
use dumping.Zns.Ftl.{ZnsFtl, Status, success, ZoneState, offline, err_offline, err_boundary}

-- The fields of the command and of the request that are read.
pub record ReadCmd : Type 0 where
  pub slba : ℕ
  pub length : ℕ
  pub nsecs_start : ℕ

-- What a read leaves: the namespace, the status and `nsecs_target`.
pub record ReadDone : Type 0 where
  pub ftl : ZnsFtl
  pub status : Status
  pub nsecs_target : ℕ

abbrev pub is_offline : ZoneState → Bool
is_offline s = elim s [ offline ↦ true | _ ↦ false ]

-- The status does not stop the read.
unfoldable pub read_status : ZnsFtl → ℕ → ReadCmd → Status
read_status f zid cmd =
    if is_offline (f.zone_descs zid).state
    then err_offline
    else if not (check_boundary_error f cmd.slba (nr_lbas_from_rw_cmd cmd.length))
    then err_boundary
    else success

-- The firmware's part of the latency.
abbrev pub read_start : ZnsFtl → ReadCmd → ℕ
read_start f cmd =
    let p = f.device.ssd.sp in
    u64 (
      cmd.nsecs_start
      + (if leb (nr_lbas_from_rw_cmd cmd.length * 512) 4096 then p.fw_4kb_rd_lat else p.fw_rd_lat))

module _ (cpu_clock : ℕ → ℕ) where
  -- One flash page is read, as far as the request reaches. `arrive_time` is not set and its new
  -- value is not read.
  unfoldable pub read_page : ZnsFtl → Ppa → ℕ → ℕ → Run (ZnsFtl × ℕ)
  read_page f ppa stime xfer_size = do
    o ← ssd_advance_nand cpu_clock f.device (record {
      cmd = nand_read;
      xfer_size = xfer_size;
      stime = stime;
      interleave_pci_dma = false;
      ppa = ppa;
      arrive_time = none;
    })
    ok (record f { device = o.device }, o.time)

  -- `for (lpn = slpn; lpn <= elpn; lpn += pgs)`: the namespace and the latest completion time.
  unfoldable pub read_loop : ℕ → ZnsFtl → ℕ → ℕ → ℕ → ℕ → Run (ZnsFtl × ℕ)
  read_loop zero f lpn elpn stime latest = out_of_fuel
  read_loop (suc fuel) f lpn elpn stime latest =
      let round : Ppa → Run (ZnsFtl × ℕ) = λ ppa.
        let pg_off = ppa.pg % f.device.ssd.sp.pgs_per_flashpg in
        let pgs = min (u64 (sub64 elpn lpn + 1)) (f.device.ssd.sp.pgs_per_flashpg - pg_off) in
        read_page f ppa stime (u64 (pgs * f.device.ssd.sp.pgsz)) >>= λ (g, t).
        read_loop fuel g (u64 (lpn + pgs)) elpn stime (max t latest) in
      let rest = lpn_to_ppa f lpn >>= round in if leb lpn elpn then rest else ok (f, latest)

  -- The data goes to the host over PCIe after the last page.
  unfoldable pub read_data : ZnsFtl → ReadCmd → Run (ZnsFtl × ℕ)
  read_data f cmd = do
    let nr_lba = nr_lbas_from_rw_cmd cmd.length
    let slpn = lba_to_lpn f cmd.slba
    let elpn = lba_to_lpn f (sub64 (u64 (cmd.slba + nr_lba)) 1)
    let start = read_start f cmd
    (g, latest) ← read_loop (elpn + 2 - slpn) f slpn elpn start start
    (k, t) ← ssd_advance_pcie cpu_clock g.device.link latest (nr_lba * g.device.ssd.sp.secsz)
    ok (record g { device = record (g.device) { link = k } }, max t latest)

  unfoldable pub zns_read : ZnsFtl → ReadCmd → Run ReadDone
  zns_read f cmd =
      let zid = lpn_to_zone f (lba_to_lpn f cmd.slba) in
      let done = read_data f cmd >>= λ (g, t).
      ok (record { ftl = g; status = read_status f zid cmd; nsecs_target = t }) in
      if ltb zid f.zp.nr_zones then done else bug
