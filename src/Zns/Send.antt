-- ===== src/Zns/Send.antt =====
-- The zone management send command as a whole (__zmgmt_send and zns_zmgmt_send), with the time
-- that a reset takes.
pub mod Frame
pub mod Erase
pub mod Total
pub mod Machine
pub mod Conforms
use dumping.Zns.Mgmt.{
  close_zone, finish_zone, open_zone_cmd, reset_zone, offline_zone, flush_explicit_zrwa,
}
use dumping.Zns.Address.{
  lpn_to_ppa, lba_to_lpn, zone_to_slba, lba_to_zone, nr_lbas_from_rw_cmd, zone_to_elpn,
}
use dumping.Ssd.Ppa.{Ppa}
use dumping.Ssd.Nand.{Device, read_clock, occupy}
use dumping.Base.{
  zero, suc, ℕ, Bool, if◌then◌else◌, u64, ◌%◌, sub64, ltb, ◌==◌, max, min, ◌+◌, ◌-◌, ◌||◌, leb,
  ◌&&◌,
}
use dumping.Base.Run.{Run, ok, bug, out_of_fuel, ◌>>=◌}
use dumping.Zns.Ftl.{ZnsFtl, Status, success}

-- `zsa`, the zone send action.
pub data Action : Type 0 where
  zsa_close_zone zsa_finish_zone zsa_open_zone zsa_reset_zone zsa_offline_zone : Action
  zsa_set_zone_desc_ext zsa_flush_expl_zrwa zsa_unknown : Action

-- The fields of the command and of the request that are read.
pub record SendCmd : Type 0 where
  pub zsa : Action
  pub select_all : Bool
  pub zsaso : Bool
  pub slba : ℕ
  pub length : ℕ
  pub nsecs_start : ℕ

-- What the command leaves: the namespace, the status and `nsecs_target`.
pub record Sent : Type 0 where
  pub ftl : ZnsFtl
  pub status : Status
  pub nsecs_target : ℕ

abbrev reset_latency : ℕ
reset_latency = 2000000

module _ (cpu_clock : ℕ → ℕ) where
  -- max_cstime_vs_ioclock
  abbrev pub max_cstime_vs_ioclock : ℕ → Device → ℕ × Device
  max_cstime_vs_ioclock cmd_stime d =
      let (now, k) = read_clock cpu_clock d.link in
      if cmd_stime == 0 then (now, record d { link = k }) else (cmd_stime, d)

  -- The erase of one die: its new time, the start of the next one and the latency so far. A channel
  -- or a die past its array is a BUG.
  unfoldable pub reset_die : ZnsFtl → Ppa → ℕ → ℕ → Run (ZnsFtl × ℕ × ℕ)
  reset_die f ppa cmd_stime maxlat =
      let (stime, d) = max_cstime_vs_ioclock cmd_stime f.device in
      let avail = u64 (max (d.ssd.lun ppa.ch ppa.lun).next_lun_avail_time stime + reset_latency) in
      let lat = sub64 avail stime in
      if ltb ppa.ch d.ssd.sp.nchs && ltb ppa.lun d.ssd.sp.luns_per_ch
      then ok (record f { device = occupy d ppa avail }, stime, max lat maxlat)
      else bug

  -- `for (lpn = slpn; lpn <= elpn; lpn += pgs)`: the namespace and the longest latency.
  unfoldable pub reset_loop : ℕ → ZnsFtl → ℕ → ℕ → ℕ → ℕ → ℕ → Run (ZnsFtl × ℕ)
  reset_loop zero f lpn elpn zone_elpn cmd_stime maxlat = out_of_fuel
  reset_loop (suc fuel) f lpn elpn zone_elpn cmd_stime maxlat =
      let round : Ppa → Run (ZnsFtl × ℕ) = λ ppa.
        let pg_off = ppa.pg % f.device.ssd.sp.pgs_per_oneshotpg in
        let pgs = min (u64 (sub64 elpn lpn + 1)) (f.device.ssd.sp.pgs_per_oneshotpg - pg_off) in
        let whole =
          pg_off + pgs == f.device.ssd.sp.pgs_per_oneshotpg
          || sub64 (u64 (lpn + pgs)) 1 == zone_elpn in
        let erased =
          if whole then reset_die f ppa cmd_stime maxlat else ok (f, cmd_stime, maxlat) in
        erased >>= λ (f', stime, lat).
        reset_loop fuel f' (u64 (lpn + pgs)) elpn zone_elpn stime lat in
      let rest = lpn_to_ppa f lpn >>= round in if leb lpn elpn then rest else ok (f, maxlat)

  -- The pages of the request `slba`, `length`, and the rounds that they take at most.
  unfoldable pub reset_time : ZnsFtl → ℕ → ℕ → ℕ → Run (ZnsFtl × ℕ)
  reset_time f slba length cmd_stime =
      let slpn = lba_to_lpn f slba in
      let elpn = lba_to_lpn f (sub64 (u64 (slba + nr_lbas_from_rw_cmd length)) 1) in
      reset_loop (elpn + 2 - slpn) f slpn elpn (zone_to_elpn f (lba_to_zone f slba)) cmd_stime 0

  -- The `switch` on the action. An action without a case leaves the status unset.
  unfoldable pub send_action : Action → ZnsFtl → SendCmd → ℕ → ℕ → Run (ZnsFtl × Status × ℕ)
  send_action zsa_close_zone f cmd slba target =
      let (f', status) = close_zone f (lba_to_zone f slba) in ok (f', status, target)
  send_action zsa_finish_zone f cmd slba target =
      let (f', status) = finish_zone f (lba_to_zone f slba) in ok (f', status, target)
  send_action zsa_open_zone f cmd slba target =
      let (f', status) = open_zone_cmd f (lba_to_zone f slba) cmd.zsaso in ok (f', status, target)
  send_action zsa_reset_zone f cmd slba target =
      let (f', status) = reset_zone f (lba_to_zone f slba) in
      reset_time f' slba cmd.length cmd.nsecs_start >>= λ (g, maxlat).
      ok (g, status, u64 (target + maxlat))
  send_action zsa_offline_zone f cmd slba target =
      let (f', status) = offline_zone f (lba_to_zone f slba) in ok (f', status, target)
  send_action zsa_flush_expl_zrwa f cmd slba target =
      flush_explicit_zrwa f slba >>= λ (f', status). ok (f', status, target)
  send_action zsa_set_zone_desc_ext f cmd slba target = bug
  send_action zsa_unknown f cmd slba target = bug

  -- __zmgmt_send. An access to zone_descs past its end is not defined.
  unfoldable pub zmgmt_send : ZnsFtl → SendCmd → ℕ → ℕ → Run (ZnsFtl × Status × ℕ)
  zmgmt_send f cmd slba target =
      if ltb (lba_to_zone f slba) f.zp.nr_zones then send_action cmd.zsa f cmd slba target else bug

  -- `for (zid = 0; zid < nr_zones; zid++)`, whose statuses are dropped; `n` zones are left.
  unfoldable pub send_all : ℕ → ℕ → ZnsFtl → SendCmd → ℕ → Run (ZnsFtl × ℕ)
  send_all zero zid f cmd target = ok (f, target)
  send_all (suc n) zid f cmd target =
      zmgmt_send f cmd (zone_to_slba f zid) target >>= λ (f', status, target').
      send_all n (zid + 1) f' cmd target'

  unfoldable pub zns_zmgmt_send : ZnsFtl → SendCmd → Run Sent
  zns_zmgmt_send f cmd =
      let all = send_all f.zp.nr_zones 0 f cmd cmd.nsecs_start >>= λ (f', target).
      ok (record { ftl = f'; status = success; nsecs_target = target }) in
      let one = zmgmt_send f cmd cmd.slba cmd.nsecs_start >>= λ (f', status, target).
      ok (record { ftl = f'; status = status; nsecs_target = target }) in
      if cmd.select_all then all else one
