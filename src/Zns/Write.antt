-- ===== src/Zns/Write.antt =====
-- Writes to a zone without a ZRWA (__zns_write of zns_read_write.c).
pub mod Admit
pub mod Pointer
pub mod Loop
pub mod Total
use dumping.Zns.Address.{
  lpn_to_ppa, nr_lbas_from_rw_cmd, lba_to_zone, check_boundary_error, lba_to_lpn, zone_to_elpn,
}
use dumping.Ssd.Ppa.{Ppa}
use dumping.Ssd.Buffer.{buffer_allocate}
use dumping.Base.{
  refl, zero, suc, ℕ, true, false, none, some, if◌then◌else◌, u64, Bool, Option, not, ◌+◌, ◌==◌,
  update, ◌*◌, ◌%◌, ◌||◌, min, sub64, ltb, ◌&&◌, ◌-◌, ◌∷◌, max, leb, ◌^◌,
}
use dumping.Base.Run.{Run, ok, bug, out_of_fuel, ◌>>=◌, ◌>>◌, nvmev_assert}
use dumping.Ssd.Nand.{NandCmd, nand_write, ssd_advance_nand, ssd_advance_write_buffer}
use dumping.Zns.Ftl.{
  ZnsFtl, Status, success, ZoneState, empty, opened_impl, opened_expl, closed, read_only, full,
  offline, WriteBuffer, global_buffer, zone_buffer, err_offline, is_zone_resource_avail,
  change_zone_state, invalid_write, release_active, zwra_buffer, acquire_open,
  is_zone_resource_full, release_open, no_open_zone, no_active_zone, err_boundary,
}
use dumping.Zns.Mgmt.{Result, move_wp, acquire_active_if, zone_limit}

-- `case ZONE_STATE_CLOSED`, which an empty zone falls into.
abbrev pub write_closed : ZnsFtl → ℕ → Result
write_closed f zid =
    if is_zone_resource_avail f.res_infos.open_zone
    then (change_zone_state (acquire_open f) zid opened_impl, success)
    else (f, no_open_zone)

abbrev pub write_empty : ZnsFtl → ℕ → ℕ → Result
write_empty f zid slba =
    if not (slba == (f.zone_descs zid).zslba)
    then (f, invalid_write)
    else if is_zone_resource_full f.res_infos.active_zone
    then (f, no_active_zone)
    else if is_zone_resource_full f.res_infos.open_zone
    then (f, no_open_zone)
    else write_closed (acquire_active_if f) zid

-- The `switch` on the state. FULL and READ_ONLY fall through to OFFLINE.
abbrev pub write_from : ZoneState → ZnsFtl → ℕ → ℕ → Result
write_from empty f zid slba = write_empty f zid slba
write_from closed f zid slba = write_closed f zid
write_from opened_impl f zid slba = (f, success)
write_from opened_expl f zid slba = (f, success)
write_from full f zid slba = (f, err_offline)
write_from read_only f zid slba = (f, err_offline)
write_from offline f zid slba = (f, err_offline)

-- The tests of a write, and the zone's state after them.
unfoldable pub write_admit : ZnsFtl → ℕ → ℕ → ℕ → Result
write_admit f zid slba nr_lba =
    if not (nr_lba * 512 % f.device.ssd.sp.write_unit_size == 0)
    then (f, invalid_write)
    else if not (check_boundary_error f slba nr_lba)
    then (f, err_boundary)
    else if not (slba == (f.zone_descs zid).wp)
    then (f, invalid_write)
    else write_from (f.zone_descs zid).state f zid slba

-- __increase_write_ptr. Past the end of the zone it only logs an error.
unfoldable pub increase_write_ptr : ZnsFtl → ℕ → ℕ → ZnsFtl
increase_write_ptr f zid nr_lba =
    let wp = u64 ((f.zone_descs zid).wp + nr_lba) in
    let filled = release_active (release_open (move_wp f zid wp)) in
    if wp == zone_limit f zid then change_zone_state filled zid full else move_wp f zid wp

-- The command and the request, as far as they are read.
pub record WriteCmd : Type 0 where
  pub is_append : Bool
  pub slba : ℕ
  pub length : ℕ
  pub fua : Bool
  pub sq_id : ℕ
  pub nsecs_start : ℕ

abbrev pub is_success : Status → Bool
is_success s = elim s [ success ↦ true | _ ↦ false ]

-- What a write leaves: the namespace, the status, `nsecs_target` and the command's sector.
pub record Written : Type 0 where
  pub ftl : ZnsFtl
  pub status : Status
  pub nsecs_target : ℕ
  pub slba : ℕ

-- The buffer that takes the data, and buffer_allocate on it.
abbrev pub buffer_of : ZnsFtl → ℕ → WriteBuffer
buffer_of f zid = if f.zp.zone_wb_size == 0 then global_buffer else zone_buffer zid

abbrev pub allocate_in : WriteBuffer → ZnsFtl → ℕ → ZnsFtl × ℕ
allocate_in global_buffer f n =
    let (b, granted) = buffer_allocate f.device.link.write_buffer n in
    (
      record f {
        device = record (f.device) { link = record (f.device.link) { write_buffer = b } };
      },
      granted,
    )
allocate_in (zone_buffer zid) f n =
    let (b, granted) = buffer_allocate (f.zone_write_buffer zid) n in
    (record f { zone_write_buffer = update f.zone_write_buffer zid b }, granted)
allocate_in (zwra_buffer zid) f n =
    let (b, granted) = buffer_allocate (f.zwra_buffers zid) n in
    (record f { zwra_buffers = update f.zwra_buffers zid b }, granted)

module _ (cpu_clock : ℕ → ℕ) where
  -- The program of one whole oneshot page, with the operation that releases its buffer space. Its
  -- bytes are an `int` product that divides: no bytes and an overflow are a BUG.
  unfoldable pub program_page : ZnsFtl → WriteCmd → WriteBuffer → Ppa → ℕ → Bool → Run (ZnsFtl × ℕ)
  program_page f cmd write_buffer ppa stime at_end = do
    let p = f.device.ssd.sp
    let bytes = p.pgs_per_oneshotpg * p.pgsz
    nvmev_assert (ltb 0 bytes && ltb bytes (2 ^ 31))
    o ← ssd_advance_nand cpu_clock f.device (record {
      cmd = nand_write;
      xfer_size = bytes;
      stime = stime;
      interleave_pci_dma = false;
      ppa = ppa;
      arrive_time = some 0;
    })
    let unaligned_space = f.zp.zone_size % bytes
    let bufs_to_release = if at_end && ltb 0 unaligned_space then unaligned_space else bytes
    ok (
      record f {
        device = o.device;
        scheduled =
            record {
              sqid = cmd.sq_id;
              nsecs_target = o.time;
              write_buffer = write_buffer;
              buffs_to_release = bufs_to_release;
            }
            ∷ f.scheduled;
      },
      o.time,
    )

  -- `for (lpn = slpn; lpn <= elpn; lpn += pgs)`: the namespace and the latest completion time.
  unfoldable pub write_loop :
      ℕ → ZnsFtl → WriteCmd → WriteBuffer → ℕ → ℕ → ℕ → ℕ → ℕ → Run (ZnsFtl × ℕ)
  write_loop zero f cmd wb lpn elpn zone_elpn stime latest = out_of_fuel
  write_loop (suc fuel) f cmd wb lpn elpn zone_elpn stime latest =
      let round : Ppa → Run (ZnsFtl × ℕ) = λ ppa.
        let pg_off = ppa.pg % f.device.ssd.sp.pgs_per_oneshotpg in
        let pgs = min (u64 (sub64 elpn lpn + 1)) (f.device.ssd.sp.pgs_per_oneshotpg - pg_off) in
        let at_end = sub64 (u64 (lpn + pgs)) 1 == zone_elpn in
        let programmed =
          program_page f cmd wb ppa stime at_end >>= λ (g, t). ok (g, max t latest) in
        let here =
          if pg_off + pgs == f.device.ssd.sp.pgs_per_oneshotpg || at_end
          then programmed
          else ok (f, latest) in
        here >>= λ (g, t). write_loop fuel g cmd wb (u64 (lpn + pgs)) elpn zone_elpn stime t in
      let rest = lpn_to_ppa f lpn >>= round in if leb lpn elpn then rest else ok (f, latest)

  -- The label `out`: what the host waits for.
  abbrev pub completion : ZnsFtl → WriteCmd → ℕ → ℕ → ℕ
  completion f cmd latest xfer_completed =
      if cmd.fua || not f.device.ssd.sp.write_early_completion then latest else xfer_completed

  -- The data goes to the buffer over PCIe, and whole pages to the flash.
  unfoldable pub write_data : ZnsFtl → WriteCmd → WriteBuffer → ℕ → ℕ → Run Written
  write_data f cmd wb zid slba = do
    let nr_lba = nr_lbas_from_rw_cmd cmd.length
    (k, xfer) ←
        ssd_advance_write_buffer cpu_clock f.device.ssd.sp f.device.link cmd.nsecs_start
          (nr_lba * 512) 4
    let g = record f { device = record (f.device) { link = k } }
    let slpn = lba_to_lpn f slba
    let elpn = lba_to_lpn f (sub64 (u64 (slba + nr_lba)) 1)
    (h, latest) ← write_loop (elpn + 2 - slpn) g cmd wb slpn elpn (zone_to_elpn f zid) xfer xfer
    ok (record {
      ftl = h;
      status = success;
      nsecs_target = completion h cmd latest xfer;
      slba = slba;
    })

  -- __zns_write; `none` is its result `false`, with which the command waits for buffer space.
  unfoldable pub zns_write_plain : ZnsFtl → WriteCmd → Run (Option Written)
  zns_write_plain f cmd =
      let nr_lba = nr_lbas_from_rw_cmd cmd.length in
      let zid = lba_to_zone f cmd.slba in
      let slba = if cmd.is_append then (f.zone_descs zid).wp else cmd.slba in
      let wb = buffer_of f zid in
      let (f', granted) = allocate_in wb f (nr_lba * 512) in
      let (g, status) = write_admit f' zid slba nr_lba in
      let refused : Written = record {
        ftl = g;
        status = status;
        nsecs_target = cmd.nsecs_start;
        slba = slba;
      } in
      let written =
        write_data (increase_write_ptr g zid nr_lba) cmd wb zid slba >>= λ w. ok (some w) in
      let done : Run (Option Written) = if is_success status then written else ok (some refused) in
      if not (ltb zid f.zp.nr_zones) || f.device.ssd.sp.write_unit_size == 0
      then bug
      else if ltb granted (nr_lba * 512)
      then ok none
      else done
