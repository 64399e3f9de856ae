-- ===== src/Conv/Index.antt =====
-- The index of a physical page (ppa2pgidx of conv_ftl.c): in range, and its own.
use dumping.Conv.Ftl.{valid_ppa, ppa2pgidx, page_index, ConvFtl}
use dumping.Ssd.Params.{SsdParams}
use native.Mathlib.Decide.{ℕ_discrete, dec_lt}
use dumping.Base.{ℕ, true, ◌≡◌, ◌<◌, ◌≤◌, ◌+◌, ◌*◌, ltb, arith, tests, ap}
use dumping.Base.Run.{ok, Returns, Returns-assert}
use dumping.Ssd.Ppa.{Ppa}

-- The address is of a page of the device.
pub record IsIn (p : SsdParams) (a : Ppa) : Type 0 where
  pub ch : a.ch < p.nchs
  pub lun : a.lun < p.luns_per_ch
  pub pl : a.pl < p.pls_per_lun
  pub blk : a.blk < p.blks_per_pl
  pub pg : a.pg < p.pgs_per_blk

-- The counts of pages are products.
pub record IsShaped (p : SsdParams) : Type 0 where
  pub plane : p.pgs_per_pl ≡ p.blks_per_pl * p.pgs_per_blk
  pub lun : p.pgs_per_lun ≡ p.pls_per_lun * p.pgs_per_pl
  pub ch : p.pgs_per_ch ≡ p.luns_per_ch * p.pgs_per_lun
  pub all : p.tt_pgs ≡ p.nchs * p.pgs_per_ch
  pub line : p.pgs_per_line ≡ p.nchs * (p.luns_per_ch * p.pgs_per_blk)

-- Two addresses of the same page.
pub record IsSame (a b : Ppa) : Type 0 where
  pub ch : a.ch ≡ b.ch
  pub lun : a.lun ≡ b.lun
  pub pl : a.pl ≡ b.pl
  pub blk : a.blk ≡ b.blk
  pub pg : a.pg ≡ b.pg

mul_lt : (a b n : ℕ) → a < b → a * n + n ≤ b * n
mul_lt a b n h = grind arith

digit_lt : (a m x n : ℕ) → a < m → x < n → a * n + x < m * n
digit_lt a m x n h k = omega (arith, mul_lt a m n h)

-- The quotient and the rest of a number are its own.
digits : (a b x y n : ℕ) → x < n → y < n → a * n + x ≡ b * n + y → (a ≡ b) × (x ≡ y)
digits a b x y n h k e = elim (ℕ_discrete a b) [
  | yes same ↦ (same, omega (arith, e, ap (λ t. t * n) same))
  | no ne ↦ elim (dec_lt a b) [
    | yes lt ↦ absurd (omega (arith, e, mul_lt a b n lt))
    | no ge ↦ absurd (omega (arith, e, ne, ge, mul_lt b a n (omega (arith, ne, ge))))
  ]
]

pub valid_ppa-IsIn : (p : SsdParams) (a : Ppa) → valid_ppa p a ≡ true → IsIn p a
unfolding valid_ppa
valid_ppa-IsIn p a e = record {
  ch = grind (tests, e);
  lun = grind (tests, e);
  pl = grind (tests, e);
  blk = grind (tests, e);
  pg = grind (tests, e);
}

module _ (p : SsdParams) (s : IsShaped p) where
  in_plane : (a : Ppa) → IsIn p a → a.blk * p.pgs_per_blk + a.pg < p.pgs_per_pl
  in_plane a h = rw s.plane (digit_lt a.blk p.blks_per_pl a.pg p.pgs_per_blk h.blk h.pg)

  in_lun :
      (a : Ppa) → IsIn p a → a.pl * p.pgs_per_pl + (a.blk * p.pgs_per_blk + a.pg) < p.pgs_per_lun
  in_lun a h = rw s.lun (digit_lt a.pl p.pls_per_lun _ p.pgs_per_pl h.pl (in_plane a h))

  in_ch :
      (a : Ppa)
      → IsIn p a
      → a.lun * p.pgs_per_lun + (a.pl * p.pgs_per_pl + (a.blk * p.pgs_per_blk + a.pg))
        < p.pgs_per_ch
  in_ch a h = rw s.ch (digit_lt a.lun p.luns_per_ch _ p.pgs_per_lun h.lun (in_lun a h))

  pub page_index_lt : (a : Ppa) → IsIn p a → page_index p a < p.tt_pgs
  page_index_lt a h = omega (arith, s.all, digit_lt a.ch p.nchs _ p.pgs_per_ch h.ch (in_ch a h))

  pub page_index_inj :
      (a b : Ppa) → IsIn p a → IsIn p b → page_index p a ≡ page_index p b → IsSame a b
  page_index_inj a b h k e =
      let (ch, r) = digits a.ch b.ch _ _ p.pgs_per_ch (in_ch a h) (in_ch b k) (omega (arith, e)) in
      let (lun, r') = digits a.lun b.lun _ _ p.pgs_per_lun (in_lun a h) (in_lun b k) r in
      let (pl, r'') = digits a.pl b.pl _ _ p.pgs_per_pl (in_plane a h) (in_plane b k) r' in
      let (blk, pg) = digits a.blk b.blk _ _ p.pgs_per_blk h.pg k.pg r'' in
      record { ch = ch; lun = lun; pl = pl; blk = blk; pg = pg }

-- ppa2pgidx of two pages of a device of a regular shape returns indices below the number of
-- pages, and they are the same only for the same page.
pub ppa2pgidx_inj :
    {Q : Type 0} (f : ConvFtl Q) (a b : Ppa)
    → IsShaped f.ssd.sp
    → IsIn f.ssd.sp a
    → IsIn f.ssd.sp b
    → Returns
        (λ i. (i < f.ssd.sp.tt_pgs) × Returns (λ j. i ≡ j → IsSame a b) (ppa2pgidx f b))
        (ppa2pgidx f a)
unfolding ppa2pgidx
ppa2pgidx_inj f a b s h k =
    let p = f.ssd.sp in
    let lt : page_index p a < p.tt_pgs = page_index_lt p s a h in
    let lt' : page_index p b < p.tt_pgs = page_index_lt p s b k in
    Returns-assert _ (ltb (page_index p a) p.tt_pgs) (ok (page_index p a)) (grind (tests, lt)) (
      lt,
      Returns-assert _ (ltb (page_index p b) p.tt_pgs) (ok (page_index p b)) (grind (tests, lt'))
          (page_index_inj p s a b h k),
    )
