-- ===== src/Conv/Pages/Counted.antt =====
-- The counters of the blocks and of the lines agree with the states of the pages, on plane 0.
use dumping.Conv.Index.{IsIn, IsShaped}
use dumping.Conv.Pages.Count.{count_none, IsBlock, count, count_pos, count_all, count_none}
use dumping.Ssd.Ppa.{Ppa}
use dumping.Conv.Pqueue.{Line}
use dumping.Conv.Lines.Sum.{
  sum_dies, sum_dies_one, sum_dies_cong, sum_dies_three, sum_dies_ge, sum_dies_none,
}
use dumping.Ssd.Params.{SsdParams}
use native.Mathlib.Decide.{ℕ_discrete}
use dumping.Base.{
  ℕ, ◌≡◌, ◌≢◌, ◌<◌, ◌≤◌, ◌+◌, ◌&&◌, refl, arith, ap, ◌∙◌, sym, ◌⊎◌, inr, if_cases, ◌==◌,
}
use dumping.Conv.Ftl.{pg_free, pg_valid, Blocks, get_blk, NandBlock, set_blk, get_pg}

abbrev pub line_vpc : SsdParams → Blocks → ℕ → ℕ
line_vpc p b k = sum_dies p.nchs p.luns_per_ch (λ c l. (b c l 0 k).vpc)

abbrev pub line_ipc : SsdParams → Blocks → ℕ → ℕ
line_ipc p b k = sum_dies p.nchs p.luns_per_ch (λ c l. (b c l 0 k).ipc)

pub record IsCounted (p : SsdParams) (b : Blocks) (ls : ℕ → Line) : Type 0 where
  pub block :
      (c l k : ℕ)
      → c < p.nchs
      → l < p.luns_per_ch
      → k < p.blks_per_pl
      → IsBlock p.pgs_per_blk (b c l 0 k)
  pub vpc : (k : ℕ) → k < p.blks_per_pl → (ls k).vpc ≡ line_vpc p b k
  pub ipc : (k : ℕ) → k < p.blks_per_pl → (ls k).ipc ≡ line_ipc p b k

-- A page of the device, on plane 0.
pub record IsPage (p : SsdParams) (a : Ppa) : Type 0 where
  pub is_in : IsIn p a
  pub plane : a.pl ≡ 0

get_at : (b : Blocks) (a : Ppa) → a.pl ≡ 0 → get_blk b a ≡ b a.ch a.lun 0 a.blk
get_at b a e = ap (λ t. b a.ch a.lun t a.blk) e

pub set_blk_same :
    (b : Blocks) (a : Ppa) (v : NandBlock) → a.pl ≡ 0 → set_blk b a v a.ch a.lun 0 a.blk ≡ v
set_blk_same b a v e = ground (arith, e)

pub set_blk_other :
    (b : Blocks) (a : Ppa) (v : NandBlock) (c l k : ℕ)
    → (c ≢ a.ch) ⊎ ((l ≢ a.lun) ⊎ (k ≢ a.blk))
    → set_blk b a v c l 0 k ≡ b c l 0 k
set_blk_other b a v c l k ne = ground (arith, ne)

pub page-IsBlock :
    (p : SsdParams) (b : Blocks) (ls : ℕ → Line) (a : Ppa)
    → IsCounted p b ls
    → IsPage p a
    → IsBlock p.pgs_per_blk (get_blk b a)
page-IsBlock p b ls a s h =
    rw (get_at b a h.plane) (s.block a.ch a.lun a.blk h.is_in.ch h.is_in.lun h.is_in.blk)

-- A count over a line, after one block has changed.
module _ (p : SsdParams) (b : Blocks) (a : Ppa) (v : NandBlock) (h : IsPage p a)
    (g : NandBlock → ℕ) where
  sum_set :
      sum_dies p.nchs p.luns_per_ch (λ c l. g (set_blk b a v c l 0 a.blk)) + g (get_blk b a)
      ≡ sum_dies p.nchs p.luns_per_ch (λ c l. g (b c l 0 a.blk)) + g v
  sum_set = omega (
    arith,
    sum_dies_one p.nchs p.luns_per_ch (λ c l. g (b c l 0 a.blk))
        (λ c l. g (set_blk b a v c l 0 a.blk)) a.ch a.lun h.is_in.ch h.is_in.lun
        (λ i j ne. ap g (set_blk_other b a v i j a.blk (ground (arith, ne)))),
    ap g (get_at b a h.plane),
    ap g (set_blk_same b a v h.plane),
  )

  sum_kept :
      (k : ℕ)
      → k ≢ a.blk
      → sum_dies p.nchs p.luns_per_ch (λ c l. g (set_blk b a v c l 0 k))
        ≡ sum_dies p.nchs p.luns_per_ch (λ c l. g (b c l 0 k))
  sum_kept k ne =
      sum_dies_cong p.nchs p.luns_per_ch (λ c l. g (set_blk b a v c l 0 k)) (λ c l. g (b c l 0 k))
        (λ i j lt lt'. ap g (set_blk_other b a v i j k (inr (inr ne))))

-- The lines after the block of `a` has become `v`.
pub record IsTallied (b : Blocks) (ls ms : ℕ → Line) (a : Ppa) (v : NandBlock) : Type 0 where
  pub vpc : (ms a.blk).vpc + (get_blk b a).vpc ≡ (ls a.blk).vpc + v.vpc
  pub ipc : (ms a.blk).ipc + (get_blk b a).ipc ≡ (ls a.blk).ipc + v.ipc
  pub others : (k : ℕ) → k ≢ a.blk → ((ms k).vpc ≡ (ls k).vpc) × ((ms k).ipc ≡ (ls k).ipc)

pub IsCounted-set :
    (p : SsdParams) (b : Blocks) (ls ms : ℕ → Line) (a : Ppa) (v : NandBlock)
    → IsCounted p b ls
    → IsPage p a
    → IsBlock p.pgs_per_blk v
    → IsTallied b ls ms a v
    → IsCounted p (set_blk b a v) ms
IsCounted-set p b ls ms a v s h w t = record {
  block = λ c l k hc hl hk.
      if_cases (IsBlock p.pgs_per_blk) (c == a.ch && l == a.lun && 0 == a.pl && k == a.blk) v
        (b c l 0 k) (λ e. w) (λ e. s.block c l k hc hl hk);
  vpc = λ k hk. elim (ℕ_discrete k a.blk) [
    | yes e ↦ rw e (omega (arith, t.vpc, s.vpc a.blk h.is_in.blk, sum_set p b a v h (λ x. x.vpc)))
    | no ne ↦ (t.others k ne).0 ∙ s.vpc k hk ∙ sym (sum_kept p b a v h (λ x. x.vpc) k ne)
  ];
  ipc = λ k hk. elim (ℕ_discrete k a.blk) [
    | yes e ↦ rw e (omega (arith, t.ipc, s.ipc a.blk h.is_in.blk, sum_set p b a v h (λ x. x.ipc)))
    | no ne ↦ (t.others k ne).1 ∙ s.ipc k hk ∙ sym (sum_kept p b a v h (λ x. x.ipc) k ne)
  ];
}

module _ (p : SsdParams) (b : Blocks) (ls : ℕ → Line) (s : IsCounted p b ls) (q : IsShaped p) where
  -- Every page of a line is valid, invalid or free.
  line_all :
      (k : ℕ)
      → k < p.blks_per_pl
      → line_vpc p b k
          + line_ipc p b k
          + sum_dies p.nchs p.luns_per_ch (λ c l. count pg_free p.pgs_per_blk (b c l 0 k).pg)
        ≡ p.pgs_per_line
  line_all k h =
      sum_dies_three p.nchs p.luns_per_ch p.pgs_per_blk (λ c l. (b c l 0 k).vpc)
        (λ c l. (b c l 0 k).ipc) (λ c l. count pg_free p.pgs_per_blk (b c l 0 k).pg)
        (λ i j hi hj. omega (
          arith,
          (s.block i j k hi hj h).vpc,
          (s.block i j k hi hj h).ipc,
          count_all p.pgs_per_blk (b i j 0 k).pg,
        ))
      ∙ sym q.line

  pub line_bound : (k : ℕ) → k < p.blks_per_pl → (ls k).vpc + (ls k).ipc ≤ p.pgs_per_line
  line_bound k h = omega (arith, s.vpc k h, s.ipc k h, line_all k h)

  -- A line with a free page, and one with a valid page.
  pub line_free :
      (a : Ppa)
      → IsPage p a
      → get_pg b a ≡ pg_free
      → (ls a.blk).vpc + (ls a.blk).ipc < p.pgs_per_line
  line_free a h e =
      let e' : (b a.ch a.lun 0 a.blk).pg a.pg ≡ pg_free =
        ap (λ (k : NandBlock). k.pg a.pg) (sym (get_at b a h.plane)) ∙ e in
      omega (
        arith,
        s.vpc a.blk h.is_in.blk,
        s.ipc a.blk h.is_in.blk,
        line_all a.blk h.is_in.blk,
        count_pos pg_free p.pgs_per_blk (b a.ch a.lun 0 a.blk).pg a.pg h.is_in.pg e' refl,
        sum_dies_ge p.nchs p.luns_per_ch (λ c l. count pg_free p.pgs_per_blk (b c l 0 a.blk).pg)
            a.ch a.lun h.is_in.ch h.is_in.lun,
      )

  pub line_valid : (a : Ppa) → IsPage p a → get_pg b a ≡ pg_valid → 0 < (ls a.blk).vpc
  line_valid a h e =
      let e' : (b a.ch a.lun 0 a.blk).pg a.pg ≡ pg_valid =
        ap (λ (k : NandBlock). k.pg a.pg) (sym (get_at b a h.plane)) ∙ e in
      omega (
        arith,
        s.vpc a.blk h.is_in.blk,
        (s.block a.ch a.lun a.blk h.is_in.ch h.is_in.lun h.is_in.blk).vpc,
        count_pos pg_valid p.pgs_per_blk (b a.ch a.lun 0 a.blk).pg a.pg h.is_in.pg e' refl,
        sum_dies_ge p.nchs p.luns_per_ch (λ c l. (b c l 0 a.blk).vpc) a.ch a.lun h.is_in.ch
            h.is_in.lun,
      )

  -- A line without a free page.
  pub line_used :
      (k : ℕ)
      → k < p.blks_per_pl
      → ((c l j : ℕ)
          → c < p.nchs
          → l < p.luns_per_ch
          → j < p.pgs_per_blk
          → (b c l 0 k).pg j ≢ pg_free)
      → (ls k).vpc + (ls k).ipc ≡ p.pgs_per_line
  line_used k h used =
      let none : sum_dies p.nchs p.luns_per_ch (λ c l. count pg_free p.pgs_per_blk (b c l 0 k).pg)
          ≡ 0 =
        sum_dies_cong p.nchs p.luns_per_ch (λ c l. count pg_free p.pgs_per_blk (b c l 0 k).pg)
          (λ c l. 0)
          (λ i j hi hj. count_none p.pgs_per_blk (b i j 0 k).pg (λ n hn. used i j n hi hj hn))
        ∙ sum_dies_none p.nchs p.luns_per_ch in
      omega (arith, s.vpc k h, s.ipc k h, line_all k h, none)
