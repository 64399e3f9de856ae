-- ===== src/Conv/Pointer/Fill.antt =====
-- How far the current line is filled: on every chip, the pages below its counter are used and the
-- others are free.
use dumping.Conv.Index.{IsSame}
use dumping.Conv.Pointer.{chip_index}
use dumping.Conv.Write.Place.{IsApart, eq_or_ne, status_clash, same_status}
use dumping.Conv.Pointer.Search.{IsChip}
use dumping.Ssd.Ppa.{Ppa}
use dumping.Ssd.Params.{SsdParams}
use dumping.Base.{
  ℕ, ◌≡◌, ◌≢◌, ◌<◌, ◌≤◌, ◌+◌, ◌*◌, ◌%◌, refl, arith, inl, inr, ◌^◌, update, update_same,
  update_other, ◌∙◌, ap, sym,
}
use native.Mathlib.Decide.{ℕ_discrete}
use dumping.Conv.Ftl.{pg_free, pg_valid, Blocks, get_pg}

-- The counts of the device fit the fields of an address, and a block has whole wordlines.
pub record IsSmall (p : SsdParams) : Type 0 where
  pub chs : p.nchs < 2 ^ 8
  pub luns : p.luns_per_ch < 2 ^ 8
  pub blks : p.blks_per_pl < 2 ^ 16
  pub pgs : p.pgs_per_blk < 2 ^ 16
  pub some_chs : 0 < p.nchs
  pub some_luns : 0 < p.luns_per_ch
  pub some_pls : 0 < p.pls_per_lun
  pub some_pgs : 0 < p.pgs_per_blk
  pub whole : p.pgs_per_blk % p.pgs_per_oneshotpg ≡ 0

-- Page `j` of the block `blk` on the chip `x`.
abbrev pub page_at : ℕ × ℕ → ℕ → ℕ → Ppa
page_at x blk j = record { pg = j; blk = blk; pl = 0; lun = x.1; ch = x.0; rsv = 0 }

pub record IsFill (p : SsdParams) (b : Blocks) (blk : ℕ) (counter : ℕ → ℕ) : Type 0 where
  pub bound : (x : ℕ × ℕ) → IsChip p x → counter (chip_index p x.0 x.1) ≤ p.pgs_per_blk
  pub free :
      (x : ℕ × ℕ) (j : ℕ)
      → IsChip p x
      → counter (chip_index p x.0 x.1) ≤ j
      → j < p.pgs_per_blk
      → get_pg b (page_at x blk j) ≡ pg_free
  pub used :
      (x : ℕ × ℕ) (j : ℕ)
      → IsChip p x
      → j < counter (chip_index p x.0 x.1)
      → get_pg b (page_at x blk j) ≢ pg_free

-- What mapping the page `a` does to the pages of other addresses.
pub record IsWrittenAt (b c : Blocks) (a : Ppa) : Type 0 where
  pub still_free : (x : Ppa) → IsApart x a → get_pg b x ≡ pg_free → get_pg c x ≡ pg_free
  pub still_used : (x : Ppa) → get_pg b x ≢ pg_free → get_pg c x ≢ pg_free
  pub written : get_pg c a ≡ pg_valid

mul_small : (a b : ℕ) → a < 2 ^ 8 → b < 2 ^ 8 → a * b < 2 ^ 16
mul_small a b h k = grind arith

mul_row : (a n m : ℕ) → a < n → a * m + m ≤ n * m
mul_row a n m h = grind arith

digit_eq : (a b x y n : ℕ) → x < n → y < n → a * n + x ≡ b * n + y → a ≡ b
digit_eq a b x y n h k e = grind arith

module _ (p : SsdParams) (s : IsSmall p) where
  pub chips_small : p.nchs * p.luns_per_ch < 2 ^ 16
  chips_small = mul_small p.nchs p.luns_per_ch s.chs s.luns

  pub chip_index_eq : (x : ℕ × ℕ) → IsChip p x → chip_index p x.0 x.1 ≡ x.0 * p.luns_per_ch + x.1
  chip_index_eq x h = omega (arith, h.1, chips_small, mul_row x.0 p.nchs p.luns_per_ch h.0)

  pub chip_index_inj :
      (x y : ℕ × ℕ)
      → IsChip p x
      → IsChip p y
      → chip_index p x.0 x.1 ≡ chip_index p y.0 y.1
      → (x.0 ≡ y.0) × (x.1 ≡ y.1)
  chip_index_inj x y h k e =
      let flat : x.0 * p.luns_per_ch + x.1 ≡ y.0 * p.luns_per_ch + y.1 =
        sym (chip_index_eq x h) ∙ e ∙ chip_index_eq y k in
      let same : x.0 ≡ y.0 = digit_eq x.0 y.0 x.1 y.1 p.luns_per_ch h.1 k.1 flat in
      (same, omega (arith, flat, ap (λ t. t * p.luns_per_ch) same))

  -- The page at the counter of a chip is written, and the counter goes up.
  pub filled :
      (b c : Blocks) (blk : ℕ) (counter : ℕ → ℕ) (x : ℕ × ℕ) (a : Ppa)
      → IsFill p b blk counter
      → IsChip p x
      → counter (chip_index p x.0 x.1) < p.pgs_per_blk
      → IsSame (page_at x blk (counter (chip_index p x.0 x.1))) a
      → IsWrittenAt b c a
      → IsFill p c blk (update counter (chip_index p x.0 x.1) (counter (chip_index p x.0 x.1) + 1))
  filled b c blk counter x a f h room same w =
      let i = chip_index p x.0 x.1 in
      let n = counter i in
      let here : (y : ℕ × ℕ)
          → i ≡ chip_index p y.0 y.1
          → update counter i (n + 1) (chip_index p y.0 y.1) ≡ n + 1 =
        λ y e. rw (sym e) (update_same counter i (n + 1)) in
      let there : (y : ℕ × ℕ)
          → i ≢ chip_index p y.0 y.1
          → update counter i (n + 1) (chip_index p y.0 y.1) ≡ counter (chip_index p y.0 y.1) =
        λ y ne. update_other counter i (n + 1) (chip_index p y.0 y.1) (λ e. ne (sym e)) in
      record {
        bound = λ y k. elim (ℕ_discrete i (chip_index p y.0 y.1)) [
          | yes e ↦ omega (arith, here y e, room)
          | no ne ↦ omega (arith, there y ne, f.bound y k)
        ];
        free = λ y j k ge lt. elim (eq_or_ne (page_at y blk j) a) [
          | inl t ↦
              let index : i ≡ chip_index p y.0 y.1 =
                rw (same.ch ∙ sym t.ch) (rw (same.lun ∙ sym t.lun) refl) in
              absurd (omega (arith, here y index, ge, same.pg, t.pg))
          | inr apart ↦ elim (ℕ_discrete i (chip_index p y.0 y.1)) [
            | yes e ↦
                w.still_free (page_at y blk j) apart
                  (f.free y j k (omega (arith, here y e, ge, ap counter e)) lt)
            | no ne ↦
                w.still_free (page_at y blk j) apart
                  (f.free y j k (omega (arith, there y ne, ge)) lt)
          ]
        ];
        used = λ y j k lt. elim (eq_or_ne (page_at y blk j) a) [
          | inl t ↦
              λ fr. status_clash (sym w.written ∙ sym (same_status c (page_at y blk j) a t) ∙ fr)
          | inr apart ↦ elim (ℕ_discrete i (chip_index p y.0 y.1)) [
            | yes e ↦ elim (ℕ_discrete j n) [
              | yes last ↦ absurd (
                  ground (
                    arith,
                    apart,
                    (chip_index_inj x y h k e).0,
                    (chip_index_inj x y h k e).1,
                    last,
                    same.ch,
                    same.lun,
                    same.pl,
                    same.blk,
                    same.pg,
                  ))
              | no ne ↦
                  w.still_used (page_at y blk j)
                    (f.used y j k (omega (arith, here y e, lt, ne, ap counter e)))
            ]
            | no ne ↦ w.still_used (page_at y blk j) (f.used y j k (omega (arith, there y ne, lt)))
          ]
        ];
      }
