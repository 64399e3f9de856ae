-- ===== src/Ssd/Tests.antt =====
-- The theorems on the device at a small configuration: two channels with one die each.
use dumping.Ssd.Channel.Request
use dumping.Ssd.Nand.Transfer
use dumping.Ssd.Channel.Copy.{chmodel_request_copy_lem}
use dumping.Ssd.Channel.Request.{IsServed, chmodel_request-IsServed}
use dumping.Ssd.Nand.Advance.{IsAdvanced, ssd_advance_nand-IsAdvanced, reads}
use dumping.Ssd.Buffer.{
  buffer_init, Buffer, buffer_allocate, buffer_release, buffer_allocate-buffer_release,
}
use dumping.Ssd.Params.Geometry.{IsUsable, IsGeometry, ssd_init_params-IsGeometry}
use dumping.Ssd.Ppa.{zero_ppa}
use dumping.Ssd.Params.{SsdParams, params_of, ssd_init_params}
use dumping.Ssd.Channel.{ChannelModel, chmodel_request_copy, chmodel_request, units_to_xfer}
use dumping.Base.{refl, true, false, none, ◌≡◌, arith, u64, inl, ◌*◌, ◌+◌, u32, ◌≤◌, ◌⊎◌, ◌<◌}
use dumping.Base.Run.{ok, Returns}
use dumping.Ssd.Config.{FtlConfigs}
use dumping.Ssd.Nand.{Device, NandCmd, nand_read, Lun, cmd_start, ssd_advance_nand}

abbrev pub small_config : FtlConfigs
small_config = record {
  max_con = 16;
  ns_ssd_type = 2;
  mdts = 6;
  cell_mode = 2;
  ssd_partitions = 1;
  nand_channels = 2;
  luns_per_nand_ch = 1;
  plns_per_lun = 1;
  flash_page_size = 16384;
  oneshot_page_size = 49152;
  blks_per_pln = 4;
  blk_size = 0;
  max_ch_xfer_size = 16384;
  write_unit_size = 512;
  nand_channel_bandwidth = 800;
  pcie_bandwidth = 3360;
  nand_4kb_read_latency_lsb = 50000;
  nand_4kb_read_latency_msb = 50000;
  nand_4kb_read_latency_csb = 50000;
  nand_read_latency_lsb = 58000;
  nand_read_latency_msb = 58000;
  nand_read_latency_csb = 58000;
  nand_prog_latency = 561000;
  nand_erase_latency = 3500000;
  fw_4kb_read_latency = 20000;
  fw_read_latency = 13000;
  fw_wbuf_latency0 = 5600;
  fw_wbuf_latency1 = 600;
  fw_ch_xfer_latency = 0;
  global_wb_size = 196608;
  write_early_completion = true;
  zns = record {
    zone_size = 98304;
    dies_per_zone = 2;
    zone_wb_size = 98304;
    max_zrwa_zones = 1;
    zrwafg_size = 4096;
    zrwa_size = 8192;
    zrwa_buffer_size = 16384;
  };
}

abbrev pub small_ch : ChannelModel
small_ch = record {
  cur_time = 0;
  head = 0;
  valid_len = 0;
  max_credits = 12;
  command_credits = 0;
  xfer_lat = 4;
  avail_credits = λ i. 12;
}

pub small_ch-IsValid : Request.IsValid small_ch
small_ch-IsValid = record {
  head_in = omega arith;
  window = omega arith;
  positive = omega arith;
  bounded = λ i h. omega arith;
  fresh = λ k h l. refl;
}

abbrev pub idle_lun : Lun
idle_lun = record { next_lun_avail_time = 0; busy = false; gc_endtime = 0; first_io = false }

abbrev pub device_of : SsdParams → Device
device_of p = record {
  ssd = record {
    sp = p;
    perf_model = λ c. small_ch;
    lun = λ i j. idle_lun;
    checking = false;
    ch_die_counter = 0;
    ch_die_latency = 0;
  };
  link = record { pcie = small_ch; write_buffer = buffer_init 196608; ticks = 0 };
}

pub device-IsValid : Transfer.IsValid (device_of (params_of small_config 2 196608 4))
unfolding params_of
device-IsValid = record {
  channels = λ c h. small_ch-IsValid;
  pcie = small_ch-IsValid;
  moves = omega arith;
  short = record {
    read_4kb = λ t. ground arith;
    read = λ t. ground arith;
    write = omega arith;
    erase = omega arith;
  };
  flash = omega arith;
}

abbrev read_cmd : NandCmd
read_cmd = record {
  cmd = nand_read;
  xfer_size = 40960;
  stime = 5000;
  interleave_pci_dma = true;
  ppa = record (zero_ppa) { pg = 3; ch = 1 };
  arrive_time = none;
}

ssd_advance_nand-IsAdvanced_example :
    Returns
      (IsAdvanced
        (cmd_start (λ n. 100 * n) (device_of (params_of small_config 2 196608 4)) read_cmd).1
        read_cmd
        (cmd_start (λ n. 100 * n) (device_of (params_of small_config 2 196608 4)) read_cmd).0)
      (ssd_advance_nand (λ n. 100 * n) (device_of (params_of small_config 2 196608 4)) read_cmd)
unfolding params_of
ssd_advance_nand-IsAdvanced_example =
    ssd_advance_nand-IsAdvanced (λ n. 100 * n) (device_of (params_of small_config 2 196608 4))
      read_cmd device-IsValid (record { ch = omega arith; lun = omega arith })
      (reads refl (omega arith) (omega arith)) (λ e. absurd (omega (arith, e)))

chmodel_request-IsServed_example :
    Returns (IsServed small_ch 300 5000) (chmodel_request 300 small_ch 5000 16384)
chmodel_request-IsServed_example = chmodel_request-IsServed 300 small_ch 5000 16384 small_ch-IsValid

chmodel_request_copy_lem_example :
    chmodel_request_copy small_ch 1000 8192 ≡ ok (u64 (1000 + u32 (4 * units_to_xfer 8192)))
chmodel_request_copy_lem_example = chmodel_request_copy_lem small_ch 1000 8192 (omega arith)

small_config-IsUsable : IsUsable 1572864 1 small_config
small_config-IsUsable = record {
  parts = omega arith;
  channels = omega arith;
  whole = refl;
  luns = omega arith;
  planes = omega arith;
  flash = omega arith;
  flash_pages = refl;
  oneshot = omega arith;
  oneshot_pages = refl;
  oneshot_flash = refl;
  sized = inl (omega arith);
  small = omega arith;
  small_blks = omega arith;
  small_dies = omega arith;
  blk_max = 196608;
  blks_max = 4;
  by_blks = λ h. (omega arith, omega arith);
  by_size = λ e. absurd (omega (arith, e));
  blk_fits = omega arith;
  blks_fit = omega arith;
  plane_fits = omega arith;
  blks_per_lun_fit = omega arith;
  pls_per_ch_fit = omega arith;
  luns_fit = omega arith;
  device_fits = omega arith;
}

ssd_init_params-IsGeometry_example :
    Returns (IsGeometry 1572864 1) (ssd_init_params 1572864 1 small_config)
ssd_init_params-IsGeometry_example =
    ssd_init_params-IsGeometry 1572864 1 small_config small_config-IsUsable

abbrev half_full : Buffer
half_full = record { size = 8192; remaining = 4096 }

buffer_allocate-buffer_release_example :
    ((1024 ≤ 4096)
      × ((buffer_allocate half_full 1024).1 ≡ 1024)
      × ((buffer_allocate half_full 1024).0.remaining + 1024 ≡ 4096)
      × (buffer_release (buffer_allocate half_full 1024).0 1024 ≡ half_full))
    ⊎ ((4096 < 1024) × (buffer_allocate half_full 1024 ≡ (half_full, 0)))
buffer_allocate-buffer_release_example =
    buffer_allocate-buffer_release half_full 1024 (omega arith) (omega arith)
