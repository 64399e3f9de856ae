-- ===== src/Conv/Init/Fresh.antt =====
-- A new instance: nothing is mapped, and the two write pointers stand on lines of their own.
use dumping.Conv.Init.Listed.{lines_from, init_free_line, init_free_cnt, init_first}
use dumping.Ssd.Ppa.{Ppa, unmapped_ppa}
use dumping.Conv.Write.Map.{IsRoomy}
use dumping.Conv.Write.Place.{IsMapped}
use dumping.Conv.Pqueue.{Pqueue, Line}
use dumping.Conv.Init.{
  conv_init_ftl, ssd_init_blocks, init_maptbl, init_rmap, blank_maptbl, blank_rmap,
  init_write_flow_control,
}
use dumping.Conv.Lines.Sum.{sum_dies_none}
use dumping.Ssd.Nand.{Ssd}
use dumping.Ssd.Params.{SsdParams}
use dumping.Conv.Lines.{init_free, init_lines, prepare_write_pointer, get_next_free_line}
use dumping.Conv.Pages.Counted.{IsCounted, IsPage}
use dumping.Base.{
  if_true, ℕ, true, false, List, [], ◌∷◌, ◌≡◌, ◌≢◌, ◌<◌, ◌≤◌, ◌+◌, ◌-◌, ◌^◌, ltb, refl, arith,
  tests, ap, ◌∙◌, subst, sym, ◌==◌, ◌%◌, sum_below_none, sub32,
}
use dumping.Base.Run.{Returns, Returns-assert, Returns-bind, ok, bug}
use dumping.Conv.Ftl.{
  user_io, gc_io, LineMgmt, WritePointer, ConvFtl, new_page, IoType, ConvParams, mapped_ppa, set_wp,
}

-- A device with a page to spare on either of two lines.
pub record IsFormed (p : SsdParams) : Type 0 where
  pub lines : p.blks_per_pl ≡ p.tt_lines
  pub two : 2 ≤ p.blks_per_pl
  pub few : p.blks_per_pl < 2 ^ 16
  pub chs : 0 < p.nchs
  pub luns : 0 < p.luns_per_ch
  pub pls : 0 < p.pls_per_lun
  pub pgs : 0 < p.pgs_per_blk
  pub all : p.tt_pgs < 2 ^ 31

-- The lines after init_lines.
record IsListed {Q : Type 0} (p : SsdParams) (m : LineMgmt Q) : Type 0 where
  lines : (i : ℕ) → i < p.blks_per_pl → m.lines i ≡ record { id = i; ipc = 0; vpc = 0; pos = 0 }
  free : m.free_line_list ≡ 0 ∷ 1 ∷ lines_from 2 (p.blks_per_pl - 2)
  cnt : m.free_line_cnt ≡ p.blks_per_pl

-- A new instance of the FTL on the device `s`.
pub record IsFresh {Q : Type 0} (s : Ssd) (g : ConvFtl Q) : Type 0 where
  pub device : g.ssd ≡ s
  pub counted : IsCounted s.sp g.blocks g.lm.lines
  pub mapped : IsMapped g
  pub unmapped : (i : ℕ) → i < s.sp.tt_pgs → mapped_ppa (g.maptbl i) ≡ false
  pub user : IsRoomy g g.wp
  pub gc : IsRoomy g g.gc_wp
  pub apart : g.wp.blk ≢ g.gc_wp.blk
  pub free : g.lm.free_line_list ≡ lines_from 2 (s.sp.tt_lines - 2)
  pub free_cnt : g.lm.free_line_cnt + 2 ≡ s.sp.tt_lines
  pub at_user : g.wp.curline ≡ 0
  pub at_gc : g.gc_wp.curline ≡ 1

true-false : true ≢ false
true-false e = cc

init_lines-IsListed :
    {Q : Type 0} (pq : Pqueue Q) (p : SsdParams) (memory : ℕ → Line)
    → IsFormed p
    → Returns (IsListed p) (init_lines pq p memory)
unfolding init_lines
init_lines-IsListed {Q = Q} pq p memory w =
    let n = p.blks_per_pl in
    let start : LineMgmt Q = record {
      lines = memory;
      free_line_list = [];
      victim_line_pq = pq.empty;
      full_line_list = [];
      tt_lines = n;
      free_line_cnt = 0;
      victim_line_cnt = 0;
      full_line_cnt = 0;
    } in
    let cnt : (init_free n start).free_line_cnt ≡ n =
      init_free_cnt n start refl (omega (arith, w.few)) in
    Returns-assert (IsListed p) (n == p.tt_lines) _ (grind (tests, w.lines)) (
      Returns-assert (IsListed p) ((init_free n start).free_line_cnt == n) _ (grind (tests, cnt))
        (record {
          lines = init_free_line n start;
          free = init_first n start w.two refl;
          cnt = cnt;
        }))

pub blank-IsCounted :
    (p : SsdParams) (ls : ℕ → Line)
    → ((i : ℕ) → i < p.blks_per_pl → ls i ≡ record { id = i; ipc = 0; vpc = 0; pos = 0 })
    → IsCounted p ssd_init_blocks ls
blank-IsCounted p ls h = record {
  block = λ c l k hc hl hk. record {
    vpc = sym (sum_below_none p.pgs_per_blk);
    ipc = sym (sum_below_none p.pgs_per_blk);
  };
  vpc = λ k hk. ap (λ (l : Line). l.vpc) (h k hk) ∙ sym (sum_dies_none p.nchs p.luns_per_ch);
  ipc = λ k hk. ap (λ (l : Line). l.ipc) (h k hk) ∙ sym (sum_dies_none p.nchs p.luns_per_ch);
}

-- The pointer at the first page of line `i`.
abbrev at_line : ℕ → WritePointer
at_line i = record { curline = i; ch = 0; lun = 0; pg = 0; blk = i; pl = 0 }

at_line-IsPage :
    (p : SsdParams) (i : ℕ) → IsFormed p → i < p.blks_per_pl → IsPage p (new_page (at_line i))
at_line-IsPage p i w h =
    let small : i % 2 ^ 16 ≡ i = omega (arith, h, w.few) in
    record {
      is_in = record {
        ch = omega (arith, w.chs);
        lun = omega (arith, w.luns);
        pl = omega (arith, w.pls);
        blk = omega (arith, small, h);
        pg = omega (arith, w.pgs);
      };
      plane = omega arith;
    }

init_maptbl_lem :
    (p : SsdParams) (memory : ℕ → Ppa)
    → p.tt_pgs < 2 ^ 31
    → init_maptbl p memory ≡ ok (blank_maptbl p memory)
unfolding init_maptbl
init_maptbl_lem p memory h =
    if_true (λ m. m ≡ ok (blank_maptbl p memory)) (ltb p.tt_pgs (2 ^ 31))
      (ok (blank_maptbl p memory)) bug (grind (tests, h)) refl

init_rmap_lem :
    (p : SsdParams) (memory : ℕ → ℕ)
    → p.tt_pgs < 2 ^ 31
    → init_rmap p memory ≡ ok (blank_rmap p memory)
unfolding init_rmap
init_rmap_lem p memory h =
    if_true (λ m. m ≡ ok (blank_rmap p memory)) (ltb p.tt_pgs (2 ^ 31)) (ok (blank_rmap p memory))
      bug (grind (tests, h)) refl

prepare_write_pointer-Returns :
    {Q : Type 0} (f : ConvFtl Q) (io : IoType) (i : ℕ) (r : List ℕ)
    → f.lm.free_line_list ≡ i ∷ r
    → (f.lm.lines i).id ≡ i
    → Returns
        (λ g.
          g
          ≡ set_wp
              (record f {
                lm = record (f.lm) {
                  free_line_list = r;
                  free_line_cnt = sub32 f.lm.free_line_cnt 1;
                };
              })
              io
              (at_line i))
        (prepare_write_pointer f io)
unfolding prepare_write_pointer get_next_free_line
prepare_write_pointer-Returns f io i r e k = rw e (rw k refl)

blank_maptbl-unmapped :
    (p : SsdParams) (memory : ℕ → Ppa) (i : ℕ)
    → i < p.tt_pgs
    → mapped_ppa (blank_maptbl p memory i) ≡ false
blank_maptbl-unmapped p memory i h =
    if_true (λ a. mapped_ppa a ≡ false) (ltb i p.tt_pgs) unmapped_ppa (memory i) (grind (tests, h))
      refl

fresh :
    {Q : Type 0} (f : ConvFtl Q) (cpp : ConvParams)
    → IsFormed f.ssd.sp
    → f.blocks ≡ ssd_init_blocks
    → (m : LineMgmt Q) → IsListed f.ssd.sp m
    → IsFresh f.ssd (record f {
      cp = cpp;
      maptbl = blank_maptbl f.ssd.sp f.maptbl;
      rmap = blank_rmap f.ssd.sp f.rmap;
      lm = record m {
        free_line_list = lines_from 2 (f.ssd.sp.blks_per_pl - 2);
        free_line_cnt = sub32 (sub32 m.free_line_cnt 1) 1;
      };
      wp = at_line 0;
      gc_wp = at_line 1;
      wfc = init_write_flow_control f.ssd.sp;
    })
fresh f cpp w blank m d =
    let p = f.ssd.sp in
    record {
      device = refl;
      counted = rw blank (blank-IsCounted p m.lines d.lines);
      mapped = λ lpn lt e. absurd (true-false (sym e ∙ blank_maptbl-unmapped p f.maptbl lpn lt));
      unmapped = λ i lt. blank_maptbl-unmapped p f.maptbl i lt;
      user = record { page = at_line-IsPage p 0 w (omega (arith, w.two)); free = rw blank refl };
      gc = record { page = at_line-IsPage p 1 w (omega (arith, w.two)); free = rw blank refl };
      apart = λ e. absurd (omega (arith, e));
      free = ap (λ n. lines_from 2 (n - 2)) w.lines;
      free_cnt = omega (arith, d.cnt, w.two, w.lines, w.few);
      at_user = refl;
      at_gc = refl;
    }

-- conv_init_ftl on a device with blank blocks and fewer than 2^31 pages returns, if its lines are the
-- blocks of a plane, two or more of them and fewer than 2^16. The counters agree with the states of
-- the pages, no logical page is mapped, and the two write pointers stand on free pages of lines 0
-- and 1; the list of free lines holds the others in their order, and their count is right.
pub conv_init_ftl-IsFresh :
    {Q : Type 0} (pq : Pqueue Q) (f : ConvFtl Q) (cpp : ConvParams)
    → IsFormed f.ssd.sp
    → f.blocks ≡ ssd_init_blocks
    → Returns (IsFresh f.ssd) (conv_init_ftl pq f cpp)
unfolding conv_init_ftl
conv_init_ftl-IsFresh {Q = Q} pq f cpp w blank =
    let p = f.ssd.sp in
    let P : ConvFtl Q → Type 0 = IsFresh f.ssd in
    rw (init_maptbl_lem p f.maptbl w.all) (
      rw (init_rmap_lem p f.rmap w.all) (
        Returns-bind (IsListed p) P (init_lines pq p f.lm.lines) _
          (init_lines-IsListed pq p f.lm.lines w)
          (λ m d.
            let g : ConvFtl Q = record f {
              cp = cpp;
              maptbl = blank_maptbl p f.maptbl;
              rmap = blank_rmap p f.rmap;
              lm = m;
            } in
            let id0 : (m.lines 0).id ≡ 0 =
              ap (λ (l : Line). l.id) (d.lines 0 (omega (arith, w.two))) in
            let id1 : (m.lines 1).id ≡ 1 =
              ap (λ (l : Line). l.id) (d.lines 1 (omega (arith, w.two))) in
            let r = lines_from 2 (p.blks_per_pl - 2) in
            let h : ConvFtl Q = record g {
              lm = record m { free_line_list = 1 ∷ r; free_line_cnt = sub32 m.free_line_cnt 1 };
              wp = at_line 0;
            } in
            let k : ConvFtl Q = record h {
              lm = record m {
                free_line_list = r;
                free_line_cnt = sub32 (sub32 m.free_line_cnt 1) 1;
              };
              gc_wp = at_line 1;
            } in
            Returns-bind (λ x. x ≡ h) P (prepare_write_pointer g user_io) _
              (prepare_write_pointer-Returns g user_io 0 (1 ∷ r) d.free id0)
              (λ x ex.
                Returns-bind (λ y. y ≡ k) P (prepare_write_pointer x gc_io) _
                  (subst (λ t. Returns (λ y. y ≡ k) (prepare_write_pointer t gc_io)) (sym ex)
                    (prepare_write_pointer-Returns h gc_io 1 r refl id1))
                  (λ y ey.
                    subst (λ (t : ConvFtl Q). P (record t { wfc = init_write_flow_control p }))
                      (sym ey) (fresh f cpp w blank m d))))))
