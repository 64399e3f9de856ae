-- ===== src/Ssd/Params/Geometry.antt =====
-- What ssd_init_params computes: the geometry covers the capacity and its counts agree.
use dumping.Ssd.Params.Products.{
  div_round_up_covers, div-mul_exact, mul_pos, mul_mono, div_chain, div_round_up_max,
  div_round_up_lt, mul_mono_both, page_bytes, plane_bytes, device_bytes, mul_ge, all_fit,
}
use dumping.Base.Run.{Returns, Returns-if, Returns-assert, Returns-bind, ok, bug}
use dumping.Base.{
  true, false, refl, Bool, ℕ, ◌<◌, ◌/◌, ◌%◌, ◌≡◌, ◌≤◌, ◌+◌, ◌⊎◌, ◌*◌, ◌^◌, div_round_up, arith, u64,
  ap, sym, ltb, ◌==◌, ◌&&◌, tests, ltb→lt, Bool, ◌||◌, true, not, div_le,
}
use dumping.Ssd.Params.{SsdParams, block_shape, params_of, ssd_init_params, int_of, sizes_fit}
use dumping.Ssd.Config.{FtlConfigs}

-- The dies of a partition, times the planes.
abbrev pub planes_of : ℕ → FtlConfigs → ℕ
planes_of nparts c = c.plns_per_lun * c.luns_per_nand_ch * (c.nand_channels / nparts)

-- A configuration that fits its own assertions and whose sizes fit their types: a block has at most
-- `blk_max` bytes and a plane `blks_max` blocks.
pub record IsUsable (capacity nparts : ℕ) (c : FtlConfigs) : Type 0 where
  pub parts : 0 < nparts
  pub channels : 0 < c.nand_channels / nparts
  pub whole : c.nand_channels % nparts ≡ 0
  pub luns : 0 < c.luns_per_nand_ch
  pub planes : 0 < c.plns_per_lun
  pub flash : 0 < c.flash_page_size
  pub flash_pages : c.flash_page_size % 4096 ≡ 0
  pub oneshot : 0 < c.oneshot_page_size
  pub oneshot_pages : c.oneshot_page_size % 4096 ≡ 0
  pub oneshot_flash : c.oneshot_page_size % c.flash_page_size ≡ 0
  pub sized : (0 < c.blks_per_pln) ⊎ (0 < c.blk_size)
  pub small : capacity / nparts + c.oneshot_page_size < 2 ^ 63
  pub small_blks : c.blks_per_pln * planes_of nparts c < 2 ^ 31
  pub small_dies : c.blk_size * planes_of nparts c < 2 ^ 63
  pub blk_max : ℕ
  pub blks_max : ℕ
  pub by_blks :
      0 < c.blks_per_pln
      → (c.blks_per_pln ≤ blks_max)
        × (capacity / nparts ≤ blk_max * (c.blks_per_pln * planes_of nparts c))
  pub by_size :
      c.blks_per_pln ≡ 0
      → (c.blk_size ≤ blk_max) × (capacity / nparts ≤ blks_max * (c.blk_size * planes_of nparts c))
  pub blk_fits : blk_max + c.oneshot_page_size < 2 ^ 31
  pub blks_fit : blks_max < 2 ^ 31
  pub plane_fits : (blk_max + c.oneshot_page_size) * blks_max < 2 ^ 43
  pub blks_per_lun_fit : blks_max * c.plns_per_lun < 2 ^ 31
  pub pls_per_ch_fit : c.plns_per_lun * c.luns_per_nand_ch < 2 ^ 31
  pub luns_fit : c.luns_per_nand_ch * (c.nand_channels / nparts) < 2 ^ 31
  pub device_fits : (blk_max + c.oneshot_page_size) * (blks_max * planes_of nparts c) < 2 ^ 64

pub record IsGeometry (capacity nparts : ℕ) (p : SsdParams) : Type 0 where
  pub covers : capacity / nparts ≤ p.tt_pgs * p.pgsz
  pub lines : p.tt_pgs ≡ p.tt_lines * p.pgs_per_line
  pub blocks : p.tt_pgs ≡ p.tt_blks * p.pgs_per_blk
  pub flash_pages : p.pgs_per_blk ≡ p.flashpgs_per_blk * p.pgs_per_flashpg

params_of-IsGeometry :
    (c : FtlConfigs) (capacity nparts nchs blk_size blks : ℕ)
    → 0 < c.flash_page_size
    → 0 < c.oneshot_page_size
    → c.flash_page_size % 4096 ≡ 0
    → c.oneshot_page_size % 4096 ≡ 0
    → c.oneshot_page_size % c.flash_page_size ≡ 0
    → blk_size + c.oneshot_page_size < 2 ^ 64
    → capacity / nparts ≤ blk_size * (blks * (c.plns_per_lun * c.luns_per_nand_ch * nchs))
    → IsGeometry capacity nparts (params_of c nchs blk_size blks)
unfolding params_of
params_of-IsGeometry c capacity nparts nchs blk_size blks pf po f4 o4 of small covered = record {
  covers =
      let k = blks * (c.plns_per_lun * c.luns_per_nand_ch * nchs) in
      let d = div_round_up blk_size c.oneshot_page_size in
      let u = c.oneshot_page_size / 4096 in
      let filled : blk_size * k ≤ d * c.oneshot_page_size * k =
        mul_mono blk_size (d * c.oneshot_page_size) k
          (div_round_up_covers blk_size c.oneshot_page_size po small) in
      let pages : d * c.oneshot_page_size * k ≡ d * (u * 4096) * k =
        ap (λ t. d * t * k) (sym (div-mul_exact c.oneshot_page_size 4096 o4)) in
      omega (arith, filled, pages);
  lines = grind arith;
  blocks = grind arith;
  flash_pages = omega (
    arith,
    ap (λ t. t * div_round_up blk_size c.oneshot_page_size)
        (div_chain c.oneshot_page_size c.flash_page_size 4096 pf (omega arith) of f4),
  );
}

-- The block's shape covers the partition, within its bounds.
record IsShape (capacity nparts : ℕ) (c : FtlConfigs) (v : IsUsable capacity nparts c) (s : ℕ × ℕ)
    : Type 0 where
  blk : s.0 ≤ v.blk_max
  blks : s.1 ≤ v.blks_max
  covers : capacity / nparts ≤ s.0 * (s.1 * planes_of nparts c)

int_of-Returns : (P : ℕ → Type 0) (n : ℕ) → n < 2 ^ 31 → P n → Returns P (int_of n)
int_of-Returns P n h p =
    Returns-if P (ltb n (2 ^ 31)) (ok n) bug (λ e. p) (λ e. absurd (omega (tests, e, h)))

refuted : (n : ℕ) (b : Bool) → 0 < n → b ≡ true → (n == 0 || not b) ≡ true → ⊥
refuted n true pos e h = grind (tests, pos, h)
refuted n false pos e h = cc

module _ (capacity nparts : ℕ) (c : FtlConfigs) (v : IsUsable capacity nparts c) where
  planes_pos : 0 < planes_of nparts c
  planes_pos =
      mul_pos (c.plns_per_lun * c.luns_per_nand_ch) (c.nand_channels / nparts)
        (mul_pos c.plns_per_lun c.luns_per_nand_ch v.planes v.luns) v.channels

  block_shape-IsShape :
      Returns
        (IsShape capacity nparts c v)
        (block_shape (capacity / nparts) (c.nand_channels / nparts) c)
  unfolding block_shape
  block_shape-IsShape =
      let P : ℕ × ℕ → Type 0 = IsShape capacity nparts c v in
      let part = capacity / nparts in
      let dies = planes_of nparts c in
      Returns-if P (ltb 0 c.blks_per_pln) _ _
        (λ given.
          let some : 0 < c.blks_per_pln = ltb→lt _ _ given in
          let d = c.blks_per_pln * dies in
          let pos : 0 < d = mul_pos c.blks_per_pln dies some planes_pos in
          let fits : part + d < 2 ^ 64 = omega (arith, v.small, v.small_blks) in
          let (few, whole) = v.by_blks some in
          Returns-bind (λ x. x ≡ d) P (int_of d) _ (int_of-Returns (λ x. x ≡ d) d v.small_blks refl)
            (λ x e.
              Returns-if P (x == 0) bug _ (λ none. absurd (omega (tests, none, e, pos)))
                (λ _. record {
                  blk = rw e (div_round_up_max part d v.blk_max pos fits whole);
                  blks = few;
                  covers = rw e (div_round_up_covers part d pos fits);
                })))
        (λ computed.
          let none : c.blks_per_pln ≡ 0 = omega (tests, computed) in
          let unit : 0 < c.blk_size = ground (arith, v.sized, none) in
          let d = c.blk_size * dies in
          let pos : 0 < d = mul_pos c.blk_size dies unit planes_pos in
          let wide : u64 d ≡ d = omega (arith, v.small_dies) in
          let fits : part + d < 2 ^ 64 = omega (arith, v.small, v.small_dies) in
          let (few, whole) = v.by_size none in
          let most : div_round_up part d ≤ v.blks_max =
            div_round_up_max part d v.blks_max pos fits whole in
          Returns-assert P (ltb 0 c.blk_size) _ (grind (tests, unit)) (
            rw wide (
              Returns-if P (d == 0) bug _ (λ zero. absurd (omega (tests, zero, pos)))
                (λ _.
                  Returns-bind (λ x. x ≡ div_round_up part d) P (int_of (div_round_up part d)) _
                    (int_of-Returns (λ x. x ≡ div_round_up part d) (div_round_up part d)
                      (omega (arith, most, v.blks_fit)) refl)
                    (λ x e. record {
                      blk = few;
                      blks = rw e most;
                      covers = rw e (omega (arith, div_round_up_covers part d pos fits));
                    })))))

  -- The sizes that follow from a shape within its bounds fit their types.
  sizes_fit_lem :
      (s : ℕ × ℕ)
      → IsShape capacity nparts c v s
      → sizes_fit (params_of c (c.nand_channels / nparts) s.0 s.1) ≡ true
  unfolding params_of
  sizes_fit_lem (blk, blks) h =
      let u = c.oneshot_page_size in
      let nchs = c.nand_channels / nparts in
      let d = div_round_up blk u in
      let pgs = u / 4096 * d in
      let bm = v.blk_max + u in
      let fits : blk + u < 2 ^ 64 = omega (arith, h.blk, v.blk_fits) in
      let total : d * u ≤ bm = omega (arith, div_round_up_lt blk u v.oneshot fits, h.blk) in
      let bytes : pgs * 4096 ≡ d * u = page_bytes u d v.oneshot_pages in
      let planes : pgs * blks * 4096 ≡ d * u * blks = plane_bytes pgs blks (d * u) bytes in
      let plane_le : d * u * blks ≤ bm * v.blks_max =
        mul_mono_both (d * u) bm blks v.blks_max total h.blks in
      let flash : u / c.flash_page_size * d ≤ u * d =
        mul_mono (u / c.flash_page_size) u d (div_le u c.flash_page_size v.flash) in
      let lun : blks * c.plns_per_lun ≤ v.blks_max * c.plns_per_lun =
        mul_mono blks v.blks_max c.plns_per_lun h.blks in
      let secs : 8 * pgs * blks * c.plns_per_lun * c.luns_per_nand_ch * nchs * 512
          ≡ d * u * (blks * planes_of nparts c) =
        device_bytes pgs blks c.plns_per_lun c.luns_per_nand_ch nchs (d * u) bytes in
      let secs_le : d * u * (blks * planes_of nparts c) ≤ bm * (v.blks_max * planes_of nparts c) =
        mul_mono_both (d * u) bm (blks * planes_of nparts c) (v.blks_max * planes_of nparts c) total
          (mul_mono blks v.blks_max (planes_of nparts c) h.blks) in
      all_fit d (u / c.flash_page_size * d) (pgs * 4096) (pgs * blks) (blks * c.plns_per_lun)
        (c.plns_per_lun * c.luns_per_nand_ch) (c.luns_per_nand_ch * nchs)
        (8 * pgs * blks * c.plns_per_lun * c.luns_per_nand_ch * nchs)
        (omega (arith, mul_ge d u v.oneshot, total, v.blk_fits))
        (omega (arith, flash, total, v.blk_fits)) (omega (arith, bytes, total, v.blk_fits))
        (omega (arith, planes, plane_le, v.plane_fits)) (omega (arith, lun, v.blks_per_lun_fit))
        v.pls_per_ch_fit v.luns_fit (omega (arith, secs, secs_le, v.device_fits))

-- For a configuration that meets the assertions and whose sizes fit their types, with a block, a
-- plane and a device within the bounds given, ssd_init_params raises no BUG; the geometry that it
-- computes covers the partition's share of the capacity, its page count is the lines times the pages
-- of a line and the blocks times the pages of a block, and a block is made up of whole flash pages.
pub ssd_init_params-IsGeometry :
    (capacity nparts : ℕ) (c : FtlConfigs)
    → IsUsable capacity nparts c
    → Returns (IsGeometry capacity nparts) (ssd_init_params capacity nparts c)
unfolding ssd_init_params
ssd_init_params-IsGeometry capacity nparts c v =
    let P : SsdParams → Type 0 = IsGeometry capacity nparts in
    Returns-assert P (ltb 0 nparts && c.nand_channels % nparts == 0) _
      (ground (arith, v.parts, v.whole))
      (Returns-bind (IsShape capacity nparts c v) P _ _ (block_shape-IsShape capacity nparts c v)
        (λ s h.
          let p = params_of c (c.nand_channels / nparts) s.0 s.1 in
          let good = sizes_fit_lem capacity nparts c v s h in
          Returns-assert P (c.oneshot_page_size % 4096 == 0 && c.flash_page_size % 4096 == 0) _
            (ground (arith, v.oneshot_pages, v.flash_pages))
            (Returns-assert P
              (ltb 0 c.flash_page_size && c.oneshot_page_size % c.flash_page_size == 0) _
              (ground (arith, v.flash, v.oneshot_flash))
              (Returns-if P (c.oneshot_page_size == 0 || not (sizes_fit p)) bug (ok p)
                (λ bad. absurd (refuted c.oneshot_page_size (sizes_fit p) v.oneshot good bad))
                (λ _.
                  params_of-IsGeometry c capacity nparts (c.nand_channels / nparts) s.0 s.1 v.flash
                    v.oneshot v.flash_pages v.oneshot_pages v.oneshot_flash
                    (omega (arith, h.blk, v.blk_fits)) h.covers)))))
