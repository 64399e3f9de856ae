-- ===== src/Zns/Address/Stripe.antt =====
-- A logical page stands on an existing die.
use dumping.Ssd.Ppa.{Ppa}
use dumping.Base.Run.{ok, Returns, bug}
use dumping.Zns.Address.{lpn_to_zone, lpn_to_ppa, die_of_lpn, zone_to_slpn, zone_pgs, ppa_of_lpn}
use dumping.Base.{
  refl, mod_lt, ℕ, ◌≡◌, ◌<◌, ◌*◌, ◌%◌, ◌^◌, arith, ◌+◌, ◌/◌, u32, u64, sub64, sym, if_false, ◌==◌,
  ◌||◌, tests,
}
use dumping.Zns.Ftl.{ZnsFtl}

-- The zones are striped over whole groups of dies, and no size that divides is 0.
pub record IsStriped (f : ZnsFtl) : Type 0 where
  pub groups : ℕ
  pub whole : f.device.ssd.sp.tt_luns ≡ groups * f.zp.dies_per_zone
  pub some : 0 < groups
  pub dies : 0 < f.zp.dies_per_zone
  pub luns : f.device.ssd.sp.tt_luns ≡ f.device.ssd.sp.luns_per_ch * f.device.ssd.sp.nchs
  pub chs : 0 < f.device.ssd.sp.nchs
  pub chs_fit : f.device.ssd.sp.nchs < 2 ^ 8
  pub luns_fit : f.device.ssd.sp.luns_per_ch < 2 ^ 8
  pub dies_fit : f.zp.dies_per_zone < 2 ^ 32
  pub zone : 0 < zone_pgs f
  pub oneshot : 0 < f.device.ssd.sp.pgs_per_oneshotpg

group_end : (r k d x : ℕ) → r < k → x < d → r * d + x < k * d
group_end r k d x h h' = grind arith

div_lt : (a n k : ℕ) → 0 < n → a < k * n → a / n < k
div_lt a n k pos h = grind arith

mod_unique : (a q r n : ℕ) → r < n → a ≡ q * n + r → a % n ≡ r
mod_unique a q r n lt e = grind arith

lt_scale : (a b d : ℕ) → 0 < d → a < b → a * d < b * d
lt_scale a b d pos h = grind arith

mod_eq : (z k : ℕ) → 0 < k → z ≡ z / k * k + z % k
mod_eq z k pos = grind arith

spread : (z q k r d : ℕ) → z ≡ q * k + r → z * d ≡ q * (k * d) + r * d
spread z q k r d e = rw e (grind arith)

mod-mul : (z d k : ℕ) → 0 < d → 0 < k → (z * d) % (k * d) ≡ z % k * d
mod-mul z d k pos pos' =
    mod_unique (z * d) (z / k) (z % k * d) (k * d) (lt_scale _ _ d pos (mod_lt z k pos'))
      (spread z (z / k) k (z % k) d (mod_eq z k pos'))

mul_pos : (a b : ℕ) → 0 < a → 0 < b → 0 < a * b
mul_pos a b h k = grind arith

mul_small : (a b : ℕ) → a < 2 ^ 8 → b < 2 ^ 8 → a * b < 2 ^ 16
mul_small a b h k = grind arith

prod_small : (a b : ℕ) → a < 2 ^ 32 → b < 2 ^ 32 → a * b < 2 ^ 64
prod_small a b h k = grind arith

zone_small : (f : ZnsFtl) (lpn : ℕ) → lpn_to_zone f lpn < 2 ^ 32
unfolding lpn_to_zone
zone_small f lpn = omega arith

module _ (f : ZnsFtl) (s : IsStriped f) where
  few_dies : f.device.ssd.sp.tt_luns < 2 ^ 16
  few_dies = omega (
    arith,
    s.luns,
    mul_small f.device.ssd.sp.luns_per_ch f.device.ssd.sp.nchs s.luns_fit s.chs_fit,
  )

  -- The die of a page, out of the zone and the page's stripe in it.
  striped :
      (zone off : ℕ)
      → zone < 2 ^ 32
      → u32 (
          u32 (u64 (zone * f.zp.dies_per_zone) % f.device.ssd.sp.tt_luns)
          + off % f.zp.dies_per_zone)
        < f.device.ssd.sp.tt_luns
  striped zone off lt =
      let d = f.zp.dies_per_zone in
      let small : zone * d < 2 ^ 64 = prod_small zone d lt s.dies_fit in
      let start : zone * d % f.device.ssd.sp.tt_luns ≡ zone % s.groups * d =
        rw s.whole (mod-mul zone d s.groups s.dies s.some) in
      let last : zone % s.groups * d + off % d < s.groups * d =
        group_end (zone % s.groups) s.groups d (off % d) (mod_lt zone s.groups s.some)
          (mod_lt off d s.dies) in
      let wide : u64 (zone * d) ≡ zone * d = omega (arith, small) in
      rw wide (omega (arith, start, last, s.whole, few_dies))

pub ppa_of_lpn_bound :
    (f : ZnsFtl) (lpn : ℕ)
    → IsStriped f
    → ((ppa_of_lpn f lpn).ch < f.device.ssd.sp.nchs)
      × ((ppa_of_lpn f lpn).lun < f.device.ssd.sp.luns_per_ch)
unfolding ppa_of_lpn die_of_lpn
ppa_of_lpn_bound f lpn s =
    let off = sub64 lpn (zone_to_slpn f (lpn_to_zone f lpn)) in
    let n = f.device.ssd.sp.nchs in
    let stripe = off / f.device.ssd.sp.pgs_per_oneshotpg in
    let die = die_of_lpn f lpn in
    let low : die < f.device.ssd.sp.tt_luns =
      striped f s (lpn_to_zone f lpn) stripe (zone_small f lpn) in
    let lun : die / n < f.device.ssd.sp.luns_per_ch =
      div_lt die n f.device.ssd.sp.luns_per_ch s.chs (rw (sym s.luns) low) in
    let ch : die % n < n = mod_lt die n s.chs in (omega (arith, ch), omega (arith, lun))

-- The stripes are about the parameters of the zones and of the device.
pub IsStriped-cong :
    (f g : ZnsFtl) → g.zp ≡ f.zp → g.device.ssd.sp ≡ f.device.ssd.sp → IsStriped f → IsStriped g
IsStriped-cong f g ep es s = record {
  groups = s.groups;
  whole = rw ep (rw es s.whole);
  some = s.some;
  dies = rw ep s.dies;
  luns = rw es s.luns;
  chs = rw es s.chs;
  chs_fit = rw es s.chs_fit;
  luns_fit = rw es s.luns_fit;
  dies_fit = rw ep s.dies_fit;
  zone = rw ep (rw es s.zone);
  oneshot = rw es s.oneshot;
}

-- Striped zones have no zero to divide by.
pub lpn_to_ppa_lem : (f : ZnsFtl) (lpn : ℕ) → IsStriped f → lpn_to_ppa f lpn ≡ ok (ppa_of_lpn f lpn)
unfolding lpn_to_ppa
lpn_to_ppa_lem f lpn s =
    let p = f.device.ssd.sp in
    let luns : 0 < p.tt_luns = rw s.whole (mul_pos s.groups f.zp.dies_per_zone s.some s.dies) in
    if_false (λ m. m ≡ ok (ppa_of_lpn f lpn))
      (zone_pgs f == 0
        || p.tt_luns == 0
        || p.pgs_per_oneshotpg == 0
        || f.zp.dies_per_zone == 0
        || p.nchs == 0)
      bug (ok (ppa_of_lpn f lpn)) (grind (tests, luns, s.zone, s.oneshot, s.dies, s.chs)) refl

-- The address of a page is computed without a division by zero and stands on an existing channel
-- and an existing die of it, if the zones are striped over whole groups of dies, there are fewer
-- than 256 channels and dies of a channel, and zones and oneshot pages have a page.
pub lpn_to_ppa_bound :
    (f : ZnsFtl) (lpn : ℕ)
    → IsStriped f
    → Returns
        (λ (a : Ppa). (a.ch < f.device.ssd.sp.nchs) × (a.lun < f.device.ssd.sp.luns_per_ch))
        (lpn_to_ppa f lpn)
lpn_to_ppa_bound f lpn s = rw (lpn_to_ppa_lem f lpn s) (ppa_of_lpn_bound f lpn s)
