-- ===== src/Ssd/Config.antt =====
-- ssd_config.h and ssd_config.c: the configuration of each kind of device.
-- `int` fields are natural numbers: every configuration sets them to small positive values.
use dumping.Base.{ℕ, ◌*◌, ◌/◌, ◌+◌, ◌-◌, ◌%◌, ◌==◌, Bool, true}
use dumping.Base.Run.{Run, ok, ◌>>◌, nvmev_assert}

-- The `zns` member of `union extra_configs`.
pub record ZnsConfigs : Type 0 where
  pub zone_size : ℕ
  pub dies_per_zone : ℕ
  pub zone_wb_size : ℕ
  pub max_zrwa_zones : ℕ
  pub zrwafg_size : ℕ
  pub zrwa_size : ℕ
  pub zrwa_buffer_size : ℕ

-- OP_AREA_PERCENT, a `double` that no part of the model reads, is left out.
pub record FtlConfigs : Type 0 where
  pub max_con : ℕ
  pub ns_ssd_type : ℕ
  pub mdts : ℕ
  pub cell_mode : ℕ
  pub ssd_partitions : ℕ
  pub nand_channels : ℕ
  pub luns_per_nand_ch : ℕ
  pub plns_per_lun : ℕ
  pub flash_page_size : ℕ
  pub oneshot_page_size : ℕ
  pub blks_per_pln : ℕ
  pub blk_size : ℕ
  pub max_ch_xfer_size : ℕ
  pub write_unit_size : ℕ
  pub nand_channel_bandwidth : ℕ
  pub pcie_bandwidth : ℕ
  pub nand_4kb_read_latency_lsb : ℕ
  pub nand_4kb_read_latency_msb : ℕ
  pub nand_4kb_read_latency_csb : ℕ
  pub nand_read_latency_lsb : ℕ
  pub nand_read_latency_msb : ℕ
  pub nand_read_latency_csb : ℕ
  pub nand_prog_latency : ℕ
  pub nand_erase_latency : ℕ
  pub fw_4kb_read_latency : ℕ
  pub fw_read_latency : ℕ
  pub fw_wbuf_latency0 : ℕ
  pub fw_wbuf_latency1 : ℕ
  pub fw_ch_xfer_latency : ℕ
  pub global_wb_size : ℕ
  pub write_early_completion : Bool
  pub zns : ZnsConfigs

-- KB(k) and MB(m) on `int`.
abbrev pub kb : ℕ → ℕ
kb k = k * 1024

abbrev pub mb_int : ℕ → ℕ
mb_int m = m * 1048576

abbrev pub ssd_type_nvm : ℕ
ssd_type_nvm = 0

abbrev pub ssd_type_conv : ℕ
ssd_type_conv = 1

abbrev pub ssd_type_zns : ℕ
ssd_type_zns = 2

abbrev pub cell_mode_unknown : ℕ
cell_mode_unknown = 0

abbrev pub cell_mode_mlc : ℕ
cell_mode_mlc = 2

abbrev pub cell_mode_tlc : ℕ
cell_mode_tlc = 3

-- A field that a loader does not set keeps what the structure held.
unfoldable pub load_simple_configs : FtlConfigs → FtlConfigs
load_simple_configs c = record c {
  ns_ssd_type = ssd_type_nvm;
  mdts = 5;
  cell_mode = cell_mode_unknown;
}

unfoldable pub load_conv_configs : FtlConfigs → Run FtlConfigs
load_conv_configs c = do
  nvmev_assert (kb 32 * 1 % kb 32 == 0)
  ok (record c {
    ns_ssd_type = ssd_type_conv;
    mdts = 6;
    cell_mode = cell_mode_mlc;
    ssd_partitions = 4;
    nand_channels = 8;
    luns_per_nand_ch = 2;
    plns_per_lun = 1;
    flash_page_size = kb 32;
    oneshot_page_size = kb 32 * 1;
    blks_per_pln = 8192;
    blk_size = 0;
    max_ch_xfer_size = kb 16;
    write_unit_size = 512;
    nand_channel_bandwidth = 800;
    pcie_bandwidth = 3360;
    nand_4kb_read_latency_lsb = 35760 - 6000;
    nand_4kb_read_latency_msb = 35760 + 6000;
    nand_4kb_read_latency_csb = 0;
    nand_read_latency_lsb = 36013 - 6000;
    nand_read_latency_msb = 36013 + 6000;
    nand_read_latency_csb = 0;
    nand_prog_latency = 185000;
    nand_erase_latency = 0;
    fw_4kb_read_latency = 21500;
    fw_read_latency = 30490;
    fw_wbuf_latency0 = 4000;
    fw_wbuf_latency1 = 460;
    fw_ch_xfer_latency = 0;
    global_wb_size = 8 * 2 * (kb 32 * 1) * 2;
    write_early_completion = true;
  })

unfoldable pub load_zns_configs : FtlConfigs → Run FtlConfigs
load_zns_configs c = do
  nvmev_assert (kb 16 * 3 % kb 16 == 0)
  nvmev_assert (mb_int 2 % (8 * 4) == 0)
  ok (record c {
    ns_ssd_type = ssd_type_zns;
    mdts = 6;
    cell_mode = cell_mode_tlc;
    ssd_partitions = 1;
    nand_channels = 8;
    luns_per_nand_ch = 4;
    plns_per_lun = 1;
    flash_page_size = kb 16;
    oneshot_page_size = kb 16 * 3;
    blks_per_pln = 0;
    blk_size = mb_int 2 / (8 * 4);
    max_ch_xfer_size = kb 16;
    write_unit_size = 512;
    nand_channel_bandwidth = 450;
    pcie_bandwidth = 3050;
    nand_4kb_read_latency_lsb = 50000;
    nand_4kb_read_latency_msb = 50000;
    nand_4kb_read_latency_csb = 50000;
    nand_read_latency_lsb = 58000;
    nand_read_latency_msb = 58000;
    nand_read_latency_csb = 58000;
    nand_prog_latency = 561000;
    nand_erase_latency = 3500000;
    fw_4kb_read_latency = 20000;
    fw_read_latency = 13000;
    fw_wbuf_latency0 = 5600;
    fw_wbuf_latency1 = 600;
    fw_ch_xfer_latency = 0;
    global_wb_size = 0;
    write_early_completion = true;
    zns = record {
      zone_size = mb_int 2;
      dies_per_zone = 8 * 4;
      zone_wb_size = 10 * (kb 16 * 3);
      max_zrwa_zones = 0;
      zrwafg_size = 0;
      zrwa_size = 0;
      zrwa_buffer_size = 0;
    };
  })
