-- ===== src/Zns/Mgmt.antt =====
-- The zone management send command (zns_mgmt_send.c): what each action does to a zone.
pub mod Resources
pub mod Leave
pub mod Reset
pub mod Open
pub mod Flush
use dumping.Base.Run.{Run, ok, bug}
use dumping.Base.{
  ℕ, true, false, Bool, if◌then◌else◌, u64, min, ◌*◌, ◌==◌, ◌+◌, sub64, leb, update, not, ◌&&◌, ltb,
  ◌%◌,
}
use dumping.Ssd.Buffer.{buffer_refill}
use dumping.Zns.Ftl.{
  ZnsFtl, Status, ZoneState, empty, opened_impl, opened_expl, closed, read_only, full, offline,
  success, release_open, set_zone, change_zone_state, invalid_transition, release_zrwa,
  release_active, is_zone_resource_avail, is_zone_resource_full, invalid_zone_operation,
  acquire_open, acquire_active, acquire_zrwa, no_active_zone, no_open_zone, zrwa_rsrc_unavail,
  invalid_field,
}
use dumping.Zns.Address.{zone_to_slba, lba_to_zone}

-- An operation leaves the namespace and a status.
abbrev pub Result : Type 0
Result = ZnsFtl × Status

-- Each function `..._from` is the `switch` on the zone's state.
abbrev pub close_from : ZoneState → ZnsFtl → ℕ → Result
close_from opened_impl f zid = (release_open (change_zone_state f zid closed), success)
close_from opened_expl f zid = (release_open (change_zone_state f zid closed), success)
close_from closed f zid = (f, success)
close_from empty f zid = (f, invalid_transition)
close_from read_only f zid = (f, invalid_transition)
close_from full f zid = (f, invalid_transition)
close_from offline f zid = (f, invalid_transition)

unfoldable pub close_zone : ZnsFtl → ℕ → Result
close_zone f zid = close_from (f.zone_descs zid).state f zid

-- `if (is_zrwa_zone) release_zone_resource(zns_ftl, ZRWA_ZONE)`
abbrev pub release_zrwa_if : Bool → ZnsFtl → ZnsFtl
release_zrwa_if b f = if b then release_zrwa f else f

-- `case ZONE_STATE_CLOSED` of finish and reset, which the open states fall into.
abbrev pub give_up : Bool → ZnsFtl → ZnsFtl
give_up is_zrwa_zone f = release_zrwa_if is_zrwa_zone (release_active f)

abbrev pub finish_from : ZoneState → Bool → ZnsFtl → ℕ → Result
finish_from opened_impl z f zid = (change_zone_state (give_up z (release_open f)) zid full, success)
finish_from opened_expl z f zid = (change_zone_state (give_up z (release_open f)) zid full, success)
finish_from closed z f zid = (change_zone_state (give_up z f) zid full, success)
finish_from empty z f zid = (change_zone_state f zid full, success)
finish_from full z f zid = (f, success)
finish_from read_only z f zid = (f, invalid_transition)
finish_from offline z f zid = (f, invalid_transition)

unfoldable pub finish_zone : ZnsFtl → ℕ → Result
finish_zone f zid = finish_from (f.zone_descs zid).state (f.zone_descs zid).zrwav f zid

-- `case ZONE_STATE_CLOSED` of open, which an empty zone falls into.
abbrev pub open_closed : ZnsFtl → ℕ → Result
open_closed f zid =
    if is_zone_resource_avail f.res_infos.open_zone
    then (change_zone_state (acquire_open f) zid opened_expl, success)
    else (f, no_open_zone)

abbrev pub acquire_active_if : ZnsFtl → ZnsFtl
acquire_active_if f = if is_zone_resource_avail f.res_infos.active_zone then acquire_active f else f

-- `zrwav = 1`, with a resource for it.
abbrev pub give_zrwa : ZnsFtl → ℕ → ZnsFtl
give_zrwa f zid =
    set_zone (if is_zone_resource_avail f.res_infos.zrwa_zone then acquire_zrwa f else f) zid
      (record (f.zone_descs zid) { zrwav = true })

abbrev pub open_empty : ZnsFtl → ℕ → Bool → Result
open_empty f zid zrwa =
    if is_zone_resource_full f.res_infos.active_zone
    then (f, no_active_zone)
    else if is_zone_resource_full f.res_infos.open_zone
    then (f, no_open_zone)
    else if zrwa && is_zone_resource_full f.res_infos.zrwa_zone
    then (f, zrwa_rsrc_unavail)
    else open_closed (acquire_active_if (if zrwa then give_zrwa f zid else f)) zid

abbrev pub open_from : ZoneState → ZnsFtl → ℕ → Bool → Result
open_from empty f zid zrwa = open_empty f zid zrwa
open_from closed f zid zrwa = open_closed f zid
open_from opened_impl f zid zrwa = (change_zone_state f zid opened_expl, success)
open_from opened_expl f zid zrwa = (f, success)
open_from read_only f zid zrwa = (f, invalid_transition)
open_from full f zid zrwa = (f, invalid_transition)
open_from offline f zid zrwa = (f, invalid_transition)

unfoldable pub open_zone_cmd : ZnsFtl → ℕ → Bool → Result
open_zone_cmd f zid zrwa = open_from (f.zone_descs zid).state f zid zrwa

-- The bytes of the zone are cleared by memset.
abbrev pub clear_storage : ZnsFtl → ℕ → ZnsFtl
clear_storage f zid =
    let start = u64 (zid * f.zp.zone_size) in
    record f {
      storage = λ a. if leb start a && ltb a (start + f.zp.zone_size) then 0 else f.storage a;
    }

abbrev pub refill_zwra : ZnsFtl → ℕ → ZnsFtl
refill_zwra f zid = record f {
  zwra_buffers =
      if f.zp.zrwa_buffer_size == 0
      then f.zwra_buffers
      else update f.zwra_buffers zid (buffer_refill (f.zwra_buffers zid));
}

-- __reset_zone
unfoldable pub clear_zone : ZnsFtl → ℕ → ZnsFtl
clear_zone f zid =
    let z = f.zone_descs zid in
    refill_zwra (set_zone (clear_storage f zid) zid (record z { wp = z.zslba; zrwav = false })) zid

abbrev pub reset_from : ZoneState → Bool → ZnsFtl → ℕ → Result
reset_from opened_impl z f zid =
    (clear_zone (change_zone_state (give_up z (release_open f)) zid empty) zid, success)
reset_from opened_expl z f zid =
    (clear_zone (change_zone_state (give_up z (release_open f)) zid empty) zid, success)
reset_from closed z f zid = (clear_zone (change_zone_state (give_up z f) zid empty) zid, success)
reset_from full z f zid = (clear_zone (change_zone_state f zid empty) zid, success)
reset_from empty z f zid = (clear_zone (change_zone_state f zid empty) zid, success)
reset_from read_only z f zid = (f, invalid_transition)
reset_from offline z f zid = (f, invalid_transition)

unfoldable pub reset_zone : ZnsFtl → ℕ → Result
reset_zone f zid = reset_from (f.zone_descs zid).state (f.zone_descs zid).zrwav f zid

abbrev pub offline_from : ZoneState → ZnsFtl → ℕ → Result
offline_from read_only f zid = (change_zone_state f zid offline, success)
offline_from offline f zid = (f, success)
offline_from empty f zid = (f, invalid_transition)
offline_from opened_impl f zid = (f, invalid_transition)
offline_from opened_expl f zid = (f, invalid_transition)
offline_from closed f zid = (f, invalid_transition)
offline_from full f zid = (f, invalid_transition)

unfoldable pub offline_zone : ZnsFtl → ℕ → Result
offline_zone f zid = offline_from (f.zone_descs zid).state f zid

-- The end of the zone's capacity.
unfoldable pub zone_limit : ZnsFtl → ℕ → ℕ
zone_limit f zid = u64 (zone_to_slba f zid + (f.zone_descs zid).zone_capacity)

-- The write pointer moves past `slba`, and a zone that it fills becomes full.
abbrev pub move_wp : ZnsFtl → ℕ → ℕ → ZnsFtl
move_wp f zid wp = set_zone f zid (record (f.zone_descs zid) { wp = wp })

abbrev pub flush_open : ZnsFtl → ℕ → ℕ → ZnsFtl → Result
flush_open f zid slba g =
    let moved = move_wp f zid (u64 (slba + 1)) in
    let filled = move_wp g zid (u64 (slba + 1)) in
    if u64 (slba + 1) == zone_limit f zid
    then (change_zone_state (release_zrwa (release_active filled)) zid full, success)
    else (moved, success)

abbrev pub flush_from : ZoneState → ZnsFtl → ℕ → ℕ → Result
flush_from opened_impl f zid slba = flush_open f zid slba (release_open f)
flush_from opened_expl f zid slba = flush_open f zid slba (release_open f)
flush_from closed f zid slba = flush_open f zid slba f
flush_from empty f zid slba = (f, invalid_zone_operation)
flush_from read_only f zid slba = (f, invalid_zone_operation)
flush_from full f zid slba = (f, invalid_zone_operation)
flush_from offline f zid slba = (f, invalid_zone_operation)

-- `slba >= zrwa_start && slba <= zrwa_end`
abbrev pub in_zrwa : ZnsFtl → ℕ → ℕ → Bool
in_zrwa f zid slba =
    let wp = (f.zone_descs zid).wp in
    let zrwa_end = min (sub64 (u64 (wp + f.zp.lbas_per_zrwa)) 1) (sub64 (zone_limit f zid) 1) in
    leb wp slba && leb slba zrwa_end

-- The last test of the flush; a granularity of 0 traps in `%`.
abbrev pub flush_whole : ZnsFtl → ℕ → ℕ → Run Result
flush_whole f zid slba =
    let nr_lbas_flush = u64 (sub64 slba (f.zone_descs zid).wp + 1) in
    if f.zp.lbas_per_zrwafg == 0
    then bug
    else if nr_lbas_flush % f.zp.lbas_per_zrwafg == 0
    then ok (flush_from (f.zone_descs zid).state f zid slba)
    else ok (f, invalid_field)

unfoldable pub flush_explicit_zrwa : ZnsFtl → ℕ → Run Result
flush_explicit_zrwa f slba =
    let zid = lba_to_zone f slba in
    if (f.zone_descs zid).zrwav
    then (if in_zrwa f zid slba then flush_whole f zid slba else ok (f, invalid_zone_operation))
    else ok (f, invalid_zone_operation)
