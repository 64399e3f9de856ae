-- ===== src/Zns/Address.antt =====
-- Logical addresses and zones (zns_ftl.h), and the die that a logical page stands on
-- (__lpn_to_ppa of zns_read_write.h).
pub mod Stripe
use dumping.Base.Run.{Run, bug, ok}
use dumping.Base.{ℕ, ◌+◌, ◌*◌, ◌/◌, ◌%◌, Bool, ◌==◌, u8, u16, u32, u64, sub64, if◌then◌else◌, ◌||◌}
use dumping.Ssd.Ppa.{Ppa}
use dumping.Zns.Ftl.{ZnsFtl}

-- The sectors and the pages of a zone.
abbrev pub zone_secs : ZnsFtl → ℕ
zone_secs f = f.zp.zone_size / f.device.ssd.sp.secsz

abbrev pub zone_pgs : ZnsFtl → ℕ
zone_pgs f = f.zp.zone_size / f.device.ssd.sp.pgsz

unfoldable pub lpn_to_zone : ZnsFtl → ℕ → ℕ
lpn_to_zone f lpn = u32 (lpn / zone_pgs f)

-- The product of two `uint32_t` is one too.
unfoldable pub zone_to_slpn : ZnsFtl → ℕ → ℕ
zone_to_slpn f zid = u32 (zid * zone_pgs f)

unfoldable pub lba_to_zone : ZnsFtl → ℕ → ℕ
lba_to_zone f lba = u32 (lba / zone_secs f)

unfoldable pub zone_to_slba : ZnsFtl → ℕ → ℕ
zone_to_slba f zid = u32 (zid * zone_secs f)

unfoldable pub zone_to_elba : ZnsFtl → ℕ → ℕ
zone_to_elba f zid = sub64 (zone_to_slba f (u32 (zid + 1))) 1

unfoldable pub zone_to_elpn : ZnsFtl → ℕ → ℕ
zone_to_elpn f zid = zone_to_elba f zid / f.device.ssd.sp.secs_per_pg

abbrev pub die_to_channel : ZnsFtl → ℕ → ℕ
die_to_channel f die = die % f.device.ssd.sp.nchs

abbrev pub die_to_lun : ZnsFtl → ℕ → ℕ
die_to_lun f die = die / f.device.ssd.sp.nchs

abbrev pub lba_to_lpn : ZnsFtl → ℕ → ℕ
lba_to_lpn f lba = lba / f.device.ssd.sp.secs_per_pg

abbrev pub nr_lbas_from_rw_cmd : ℕ → ℕ
nr_lbas_from_rw_cmd length = length + 1

-- __check_boundary_error: true where the request stays in one zone.
abbrev pub check_boundary_error : ZnsFtl → ℕ → ℕ → Bool
check_boundary_error f slba nr_lba =
    lba_to_zone f slba == lba_to_zone f (sub64 (u64 (slba + nr_lba)) 1)

-- The die of the zone's stripe, before it is split into a channel and a die of the channel.
unfoldable pub die_of_lpn : ZnsFtl → ℕ → ℕ
die_of_lpn f lpn =
    let zone = lpn_to_zone f lpn in
    let off = sub64 lpn (zone_to_slpn f zone) in
    let sdie = u32 (u64 (zone * f.zp.dies_per_zone) % f.device.ssd.sp.tt_luns) in
    u32 (sdie + off / f.device.ssd.sp.pgs_per_oneshotpg % f.zp.dies_per_zone)

-- The address that __lpn_to_ppa computes, with the widths of the bit fields.
unfoldable pub ppa_of_lpn : ZnsFtl → ℕ → Ppa
ppa_of_lpn f lpn =
    let off = sub64 lpn (zone_to_slpn f (lpn_to_zone f lpn)) in
    let die = die_of_lpn f lpn in
    record {
      pg = u16 (off % f.device.ssd.sp.pgs_per_oneshotpg);
      blk = 0;
      pl = 0;
      lun = u8 (die_to_lun f die);
      ch = u8 (die_to_channel f die);
      rsv = 0;
    }

-- __lpn_to_ppa. A division by zero is a BUG.
unfoldable pub lpn_to_ppa : ZnsFtl → ℕ → Run Ppa
lpn_to_ppa f lpn =
    let p = f.device.ssd.sp in
    if zone_pgs f == 0
      || p.tt_luns == 0
      || p.pgs_per_oneshotpg == 0
      || f.zp.dies_per_zone == 0
      || p.nchs == 0
    then bug
    else ok (ppa_of_lpn f lpn)
