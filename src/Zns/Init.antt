-- ===== src/Zns/Init.antt =====
-- The start of a zoned namespace (zns_ftl.c): its parameters, its zones and its resources.
use dumping.Zns.Counts.{IsBounded}
use dumping.Zns.Send.Total.{IsReady}
use dumping.Ssd.Buffer.{buffer_init}
use dumping.Ssd.Config.{ZnsConfigs}
use dumping.Ssd.Nand.{Device}
use dumping.Ssd.Params.{SsdParams}
use dumping.Base.{
  refl, zero, suc, ℕ, false, [], u64, ◌/◌, ◌<◌, ◌+◌, ◌*◌, u32, ◌%◌, ◌^◌, ◌≡◌, arith, ◌==◌, sym,
  sum_below_none, if◌then◌else◌, ◌||◌,
}
use dumping.Base.Run.{Run, ok, bug, nvmev_assert, Returns, ◌>>◌}
use dumping.Zns.Ftl.{ZnsFtl, ZnsParams, Zone, ResInfos, ZoneResourceInfo, empty}

-- zns_init_params. ZONE_SIZE has 64 bits and `zone_size` 32; a division by zero is a BUG. The
-- compound literal reads `*zpp` before it is set: `old` is what it holds.
unfoldable pub zns_init_params : ZnsParams → SsdParams → ℕ → ZnsConfigs → Run ZnsParams
zns_init_params old spp capacity cfg =
    let p : ZnsParams = record {
      zone_size = u32 cfg.zone_size;
      nr_zones = u32 (capacity / cfg.zone_size);
      dies_per_zone = cfg.dies_per_zone;
      nr_active_zones = old.nr_zones;
      nr_open_zones = old.nr_zones;
      nr_zrwa_zones = cfg.max_zrwa_zones;
      zone_wb_size = cfg.zone_wb_size;
      zrwa_size = cfg.zrwa_size;
      zrwafg_size = cfg.zrwafg_size;
      zrwa_buffer_size = cfg.zrwa_buffer_size;
      lbas_per_zrwa = old.zrwa_size / spp.secsz;
      lbas_per_zrwafg = old.zrwafg_size / spp.secsz;
    } in
    let checked =
      nvmev_assert (capacity % p.zone_size == 0)
      >> nvmev_assert (p.zone_size % spp.pgsz == 0)
      >> ok p in
    if cfg.zone_size == 0 || p.zone_size == 0 || spp.secsz == 0 || spp.pgsz == 0
    then bug
    else checked

-- `zslba` after `i` rounds of the loop of __init_descriptor.
unfoldable pub zslba_after : ℕ → ℕ → ℕ
zslba_after zero zone_size = 0
zslba_after (suc i) zone_size = u64 (zslba_after i zone_size + zone_size / 512)

-- __init_descriptor: the entry of the zone `i`.
abbrev pub init_zone : ℕ → ℕ → Zone
init_zone zone_size i = record {
  state = empty;
  zrwav = false;
  zone_capacity = zone_size / 512;
  zslba = zslba_after i zone_size;
  wp = zslba_after i zone_size;
}

-- __init_resource: each total is `nr_zones`.
abbrev pub init_resource : ZnsParams → ResInfos
init_resource p =
    let all : ZoneResourceInfo = record { acquired_cnt = 0; total_cnt = p.nr_zones } in
    record { active_zone = all; open_zone = all; zrwa_zone = all }

-- zns_init_ftl, on a device and a storage that are there before.
unfoldable pub zns_init_ftl : ZnsParams → Device → (ℕ → ℕ) → ZnsFtl
zns_init_ftl p device storage = record {
  device = device;
  zp = p;
  res_infos = init_resource p;
  zone_descs = init_zone p.zone_size;
  zone_write_buffer = λ i. buffer_init p.zone_wb_size;
  zwra_buffers = λ i. buffer_init p.zrwa_buffer_size;
  storage = storage;
  scheduled = [];
}

div-mul : (a b : ℕ) → a % b ≡ 0 → a / b * b ≡ a
div-mul a b h = grind arith

-- zns_init_params of a capacity that is a whole number of zones of whole pages, below 2^32 of them
-- and each of fewer than 2^32 bytes, returns zones that fill the capacity, if sectors and pages have
-- bytes. The sizes of the ZRWA in sectors are not those of the configuration: they are computed from
-- what `*zpp` held before.
pub zns_init_params_lem :
    (old : ZnsParams) (spp : SsdParams) (capacity : ℕ) (cfg : ZnsConfigs)
    → 0 < cfg.zone_size
    → cfg.zone_size < 2 ^ 32
    → 0 < spp.secsz
    → 0 < spp.pgsz
    → capacity % cfg.zone_size ≡ 0
    → cfg.zone_size % spp.pgsz ≡ 0
    → capacity / cfg.zone_size < 2 ^ 32
    → Returns
        (λ (p : ZnsParams).
          (p.nr_zones * p.zone_size ≡ capacity)
          × (p.lbas_per_zrwa ≡ old.zrwa_size / spp.secsz)
          × (p.lbas_per_zrwafg ≡ old.zrwafg_size / spp.secsz))
        (zns_init_params old spp capacity cfg)
unfolding zns_init_params
zns_init_params_lem old spp capacity cfg pos narrow secs page whole pages few =
    let full_zones : capacity / cfg.zone_size * cfg.zone_size ≡ capacity =
      div-mul capacity cfg.zone_size whole in
    let count : u32 (capacity / cfg.zone_size) ≡ capacity / cfg.zone_size = omega (arith, few) in
    let size : u32 cfg.zone_size ≡ cfg.zone_size = omega (arith, narrow) in
    rw size (ground (arith, pos, secs, page, whole, pages, full_zones, count))

few_of : (a b : ℕ) → 0 < b → a * b < 2 ^ 32 → a < 2 ^ 32
few_of a b pos h = grind arith

-- A namespace that zns_init_ftl has set up is ready and has leaked no resource, if the sizes that
-- divide are not 0 and it has fewer than 2^32 sectors.
pub zns_init_ftl-IsReady :
    (p : ZnsParams) (device : Device) (storage : ℕ → ℕ)
    → 0 < device.ssd.sp.pgs_per_oneshotpg
    → 0 < device.ssd.sp.secs_per_pg
    → 0 < p.lbas_per_zrwafg
    → 0 < p.zone_size / device.ssd.sp.secsz
    → p.nr_zones * (p.zone_size / device.ssd.sp.secsz) < 2 ^ 32
    → IsReady 0 (zns_init_ftl p device storage)
unfolding zns_init_ftl
zns_init_ftl-IsReady p device storage pages sectors granularity zones small =
    let few : p.nr_zones < 2 ^ 32 =
      few_of p.nr_zones (p.zone_size / device.ssd.sp.secsz) zones small in
    let b : IsBounded (init_resource p).active_zone = record {
      within = omega arith;
      total = few;
    } in
    record {
      counted = record {
        active = sym (sum_below_none p.nr_zones);
        open_ = sym (sum_below_none p.nr_zones);
        zrwa = omega (arith, sum_below_none p.nr_zones);
        active_bound = b;
        open_bound = b;
        zrwa_bound = b;
        clean = λ i e. refl;
      };
      pages = pages;
      sectors = sectors;
      granularity = granularity;
      zones = zones;
      small = small;
    }
