-- ===== src/Ssd/Params.antt =====
-- struct ssdparams (ssd.h) and ssd_init_params (ssd.c).
-- A product that overflows its `int` is a BUG. So is here a value that the `int` or the `unsigned
-- long` that it is stored in cannot hold, where the code goes on with what is left of it.
use dumping.Base.{
  ℕ, ◌+◌, ◌*◌, ◌/◌, ◌%◌, ◌-◌, ◌&&◌, ◌==◌, ltb, if◌then◌else◌, Bool, div_round_up, ◌^◌, u64, ◌||◌,
  not,
}
use dumping.Base.Run.{Run, ok, bug, ◌>>=◌, ◌>>◌, nvmev_assert}
use dumping.Ssd.Config.{FtlConfigs}
pub mod Products
pub mod Geometry

pub data CellType : Type 0 where
  lsb msb csb : CellType

pub record SsdParams : Type 0 where
  pub secsz : ℕ
  pub secs_per_pg : ℕ
  pub pgsz : ℕ
  pub pgs_per_flashpg : ℕ
  pub flashpgs_per_blk : ℕ
  pub pgs_per_oneshotpg : ℕ
  pub oneshotpgs_per_blk : ℕ
  pub pgs_per_blk : ℕ
  pub blks_per_pl : ℕ
  pub pls_per_lun : ℕ
  pub luns_per_ch : ℕ
  pub nchs : ℕ
  pub cell_mode : ℕ
  pub write_unit_size : ℕ
  pub write_early_completion : Bool
  pub pg_4kb_rd_lat : CellType → ℕ
  pub pg_rd_lat : CellType → ℕ
  pub pg_wr_lat : ℕ
  pub blk_er_lat : ℕ
  pub max_ch_xfer_size : ℕ
  pub fw_4kb_rd_lat : ℕ
  pub fw_rd_lat : ℕ
  pub fw_wbuf_lat0 : ℕ
  pub fw_wbuf_lat1 : ℕ
  pub fw_ch_xfer_lat : ℕ
  pub ch_bandwidth : ℕ
  pub pcie_bandwidth : ℕ
  pub secs_per_blk : ℕ
  pub secs_per_pl : ℕ
  pub secs_per_lun : ℕ
  pub secs_per_ch : ℕ
  pub tt_secs : ℕ
  pub pgs_per_pl : ℕ
  pub pgs_per_lun : ℕ
  pub pgs_per_ch : ℕ
  pub tt_pgs : ℕ
  pub blks_per_lun : ℕ
  pub blks_per_ch : ℕ
  pub tt_blks : ℕ
  pub secs_per_line : ℕ
  pub pgs_per_line : ℕ
  pub blks_per_line : ℕ
  pub tt_lines : ℕ
  pub pls_per_ch : ℕ
  pub tt_pls : ℕ
  pub tt_luns : ℕ
  pub write_buffer_size : ℕ
  pub max_con : ℕ

abbrev pub by_cell : ℕ → ℕ → ℕ → CellType → ℕ
by_cell l m c lsb = l
by_cell l m c msb = m
by_cell l m c csb = c

-- The value of an `int`.
abbrev pub int_of : ℕ → Run ℕ
int_of n = if ltb n (2 ^ 31) then ok n else bug

-- The block's size in bytes, and the blocks of a plane: the one is configured, the other
-- follows from the capacity.
pub block_shape : ℕ → ℕ → FtlConfigs → Run (ℕ × ℕ)
block_shape capacity nchs c =
    let dies = c.plns_per_lun * c.luns_per_nand_ch * nchs in
    let by_blks = do
      unit ← int_of (c.blks_per_pln * dies)
      let shape = ok (div_round_up capacity unit, c.blks_per_pln)
      if unit == 0 then bug else shape
    in let by_size = do
      nvmev_assert (ltb 0 c.blk_size)
      let unit = u64 (c.blk_size * dies)
      let shape = int_of (div_round_up capacity unit) >>= λ blks. ok (c.blk_size, blks)
      if unit == 0 then bug else shape
      in if ltb 0 c.blks_per_pln then by_blks else by_size

-- The fields that the configuration and the block's shape determine.
unfoldable pub params_of : FtlConfigs → ℕ → ℕ → ℕ → SsdParams
params_of c nchs blk_size blks_per_pl =
    let secsz : ℕ = 512 in
    let secs_per_pg : ℕ = 8 in
    let pgsz = secsz * secs_per_pg in
    let oneshotpgs_per_blk = div_round_up blk_size c.oneshot_page_size in
    let pgs_per_oneshotpg = c.oneshot_page_size / pgsz in
    let pgs_per_blk = pgs_per_oneshotpg * oneshotpgs_per_blk in
    let secs_per_blk = secs_per_pg * pgs_per_blk in
    let secs_per_pl = secs_per_blk * blks_per_pl in
    let secs_per_lun = secs_per_pl * c.plns_per_lun in
    let secs_per_ch = secs_per_lun * c.luns_per_nand_ch in
    let pgs_per_pl = pgs_per_blk * blks_per_pl in
    let pgs_per_lun = pgs_per_pl * c.plns_per_lun in
    let pgs_per_ch = pgs_per_lun * c.luns_per_nand_ch in
    let blks_per_lun = blks_per_pl * c.plns_per_lun in
    let blks_per_ch = blks_per_lun * c.luns_per_nand_ch in
    let pls_per_ch = c.plns_per_lun * c.luns_per_nand_ch in
    let tt_luns = c.luns_per_nand_ch * nchs in
    let pgs_per_line = tt_luns * pgs_per_blk in
    record {
      secsz = secsz;
      secs_per_pg = secs_per_pg;
      pgsz = pgsz;
      pgs_per_flashpg = c.flash_page_size / pgsz;
      flashpgs_per_blk = c.oneshot_page_size / c.flash_page_size * oneshotpgs_per_blk;
      pgs_per_oneshotpg = pgs_per_oneshotpg;
      oneshotpgs_per_blk = oneshotpgs_per_blk;
      pgs_per_blk = pgs_per_blk;
      blks_per_pl = blks_per_pl;
      pls_per_lun = c.plns_per_lun;
      luns_per_ch = c.luns_per_nand_ch;
      nchs = nchs;
      cell_mode = c.cell_mode;
      write_unit_size = c.write_unit_size;
      write_early_completion = c.write_early_completion;
      pg_4kb_rd_lat =
          by_cell c.nand_4kb_read_latency_lsb c.nand_4kb_read_latency_msb
            c.nand_4kb_read_latency_csb;
      pg_rd_lat = by_cell c.nand_read_latency_lsb c.nand_read_latency_msb c.nand_read_latency_csb;
      pg_wr_lat = c.nand_prog_latency;
      blk_er_lat = c.nand_erase_latency;
      max_ch_xfer_size = c.max_ch_xfer_size;
      fw_4kb_rd_lat = c.fw_4kb_read_latency;
      fw_rd_lat = c.fw_read_latency;
      fw_wbuf_lat0 = c.fw_wbuf_latency0;
      fw_wbuf_lat1 = c.fw_wbuf_latency1;
      fw_ch_xfer_lat = c.fw_ch_xfer_latency;
      ch_bandwidth = c.nand_channel_bandwidth;
      pcie_bandwidth = c.pcie_bandwidth;
      secs_per_blk = secs_per_blk;
      secs_per_pl = secs_per_pl;
      secs_per_lun = secs_per_lun;
      secs_per_ch = secs_per_ch;
      tt_secs = secs_per_ch * nchs;
      pgs_per_pl = pgs_per_pl;
      pgs_per_lun = pgs_per_lun;
      pgs_per_ch = pgs_per_ch;
      tt_pgs = pgs_per_ch * nchs;
      blks_per_lun = blks_per_lun;
      blks_per_ch = blks_per_ch;
      tt_blks = blks_per_ch * nchs;
      secs_per_line = pgs_per_line * secs_per_pg;
      pgs_per_line = pgs_per_line;
      blks_per_line = tt_luns;
      tt_lines = blks_per_lun;
      pls_per_ch = pls_per_ch;
      tt_pls = pls_per_ch * nchs;
      tt_luns = tt_luns;
      write_buffer_size = c.global_wb_size;
      max_con = c.max_con;
    }

-- The fields and products of type `int`, the bytes of a block among them, and the largest of those
-- of type `unsigned long`.
abbrev pub sizes_fit : SsdParams → Bool
sizes_fit p =
    ltb p.oneshotpgs_per_blk (2 ^ 31)
    && ltb p.flashpgs_per_blk (2 ^ 31)
    && ltb (p.pgs_per_blk * 4096) (2 ^ 31)
    && ltb p.pgs_per_pl (2 ^ 31)
    && ltb p.blks_per_lun (2 ^ 31)
    && ltb p.pls_per_ch (2 ^ 31)
    && ltb p.tt_luns (2 ^ 31)
    && ltb p.tt_secs (2 ^ 64)

-- `%` and `/` by zero trap.
unfoldable pub ssd_init_params : ℕ → ℕ → FtlConfigs → Run SsdParams
unfolding block_shape params_of
ssd_init_params capacity nparts c = do
  nvmev_assert (ltb 0 nparts && c.nand_channels % nparts == 0)
  let nchs = c.nand_channels / nparts
  (blk_size, blks_per_pl) ← block_shape (capacity / nparts) nchs c
  nvmev_assert (c.oneshot_page_size % 4096 == 0 && c.flash_page_size % 4096 == 0)
  nvmev_assert (ltb 0 c.flash_page_size && c.oneshot_page_size % c.flash_page_size == 0)
  let p = params_of c nchs blk_size blks_per_pl
  (if c.oneshot_page_size == 0 || not (sizes_fit p) then bug else ok p)
