-- ===== src/Zns/Ftl.antt =====
-- The state of a zoned namespace (nvme_zns.h, zns_ftl.h) and the operations on its resources.
use dumping.Base.{ℕ, Bool, List, ◌+◌, ltb, ◌==◌, update, u32, sub32}
use dumping.Ssd.Buffer.{Buffer}
use dumping.Ssd.Nand.{Device}

-- The status codes that the zoned namespace reports.
pub data Status : Type 0 where
  success invalid_field invalid_zone_operation zrwa_rsrc_unavail err_boundary err_full
        err_read_only :
      Status
  err_offline invalid_write no_active_zone no_open_zone invalid_transition : Status

pub data ZoneState : Type 0 where
  empty opened_impl opened_expl closed read_only full offline : ZoneState

-- struct zone_descriptor: the fields that the code reads. `type` is constant.
pub record Zone : Type 0 where
  pub state : ZoneState
  pub zrwav : Bool
  pub zone_capacity : ℕ
  pub zslba : ℕ
  pub wp : ℕ

pub record ZnsParams : Type 0 where
  pub nr_zones : ℕ
  pub nr_active_zones : ℕ
  pub nr_open_zones : ℕ
  pub dies_per_zone : ℕ
  pub zone_size : ℕ
  pub zone_wb_size : ℕ
  pub nr_zrwa_zones : ℕ
  pub zrwafg_size : ℕ
  pub zrwa_size : ℕ
  pub zrwa_buffer_size : ℕ
  pub lbas_per_zrwafg : ℕ
  pub lbas_per_zrwa : ℕ

pub record ZoneResourceInfo : Type 0 where
  pub acquired_cnt : ℕ
  pub total_cnt : ℕ

-- `res_infos`, an array of three: ACTIVE_ZONE, OPEN_ZONE and ZRWA_ZONE.
pub record ResInfos : Type 0 where
  pub active_zone : ZoneResourceInfo
  pub open_zone : ZoneResourceInfo
  pub zrwa_zone : ZoneResourceInfo

-- The buffer that an internal operation releases into.
pub data WriteBuffer : Type 0 where
  global_buffer : WriteBuffer
  zone_buffer zwra_buffer : ℕ → WriteBuffer

-- A call of schedule_internal_operation.
pub record InternalOp : Type 0 where
  pub sqid : ℕ
  pub nsecs_target : ℕ
  pub write_buffer : WriteBuffer
  pub buffs_to_release : ℕ

-- struct zns_ftl, with the device behind it. `storage` gives the bytes from `storage_base_addr`
-- on, and `scheduled` the internal operations so far, the last one first.
pub record ZnsFtl : Type 0 where
  pub device : Device
  pub zp : ZnsParams
  pub res_infos : ResInfos
  pub zone_descs : ℕ → Zone
  pub zone_write_buffer : ℕ → Buffer
  pub zwra_buffers : ℕ → Buffer
  pub storage : ℕ → ℕ
  pub scheduled : List InternalOp

abbrev pub is_zone_resource_avail : ZoneResourceInfo → Bool
is_zone_resource_avail r = ltb r.acquired_cnt r.total_cnt

abbrev pub is_zone_resource_full : ZoneResourceInfo → Bool
is_zone_resource_full r = r.acquired_cnt == r.total_cnt

-- acquire_zone_resource, by its effect on an available resource; the caller has tested that.
abbrev pub acquire : ZoneResourceInfo → ZoneResourceInfo
acquire r = record r { acquired_cnt = u32 (r.acquired_cnt + 1) }

-- release_zone_resource; its ASSERT is empty (nvmev.h), so a count of 0 wraps.
abbrev pub release : ZoneResourceInfo → ZoneResourceInfo
release r = record r { acquired_cnt = sub32 r.acquired_cnt 1 }

-- acquire_zone_resource(zns_ftl, OPEN_ZONE), and so on.
abbrev pub acquire_active : ZnsFtl → ZnsFtl
acquire_active f = record f {
  res_infos = record (f.res_infos) { active_zone = acquire f.res_infos.active_zone };
}

abbrev pub acquire_open : ZnsFtl → ZnsFtl
acquire_open f = record f {
  res_infos = record (f.res_infos) { open_zone = acquire f.res_infos.open_zone };
}

abbrev pub acquire_zrwa : ZnsFtl → ZnsFtl
acquire_zrwa f = record f {
  res_infos = record (f.res_infos) { zrwa_zone = acquire f.res_infos.zrwa_zone };
}

abbrev pub release_active : ZnsFtl → ZnsFtl
release_active f = record f {
  res_infos = record (f.res_infos) { active_zone = release f.res_infos.active_zone };
}

abbrev pub release_open : ZnsFtl → ZnsFtl
release_open f = record f {
  res_infos = record (f.res_infos) { open_zone = release f.res_infos.open_zone };
}

abbrev pub release_zrwa : ZnsFtl → ZnsFtl
release_zrwa f = record f {
  res_infos = record (f.res_infos) { zrwa_zone = release f.res_infos.zrwa_zone };
}

abbrev pub set_zone : ZnsFtl → ℕ → Zone → ZnsFtl
set_zone f zid z = record f { zone_descs = update f.zone_descs zid z }

abbrev pub change_zone_state : ZnsFtl → ℕ → ZoneState → ZnsFtl
change_zone_state f zid state = set_zone f zid (record (f.zone_descs zid) { state = state })
