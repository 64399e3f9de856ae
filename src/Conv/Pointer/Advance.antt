-- ===== src/Conv/Pointer/Advance.antt =====
-- advance_write_pointer of a host write: the pointer stands on a free page again.
use dumping.Conv.Index.{IsShaped}
use dumping.Conv.Pointer.Fill.{IsFill, page_at}
use dumping.Conv.Lines.{close_line, get_next_free_line}
use dumping.Conv.Pointer.{chip_index, next_line}
use dumping.Conv.Pointer.Search.{IsChip, IsFull}
use dumping.Conv.Pqueue.{Pqueue, IsPqueue, Line}
use dumping.Ssd.Params.{SsdParams}
use dumping.Conv.Frame.{IsSameStock}
use dumping.Conv.Pages.Counted.{IsCounted, line_used}
use dumping.Base.{
  ℕ, List, [], ◌∷◌, ◌≡◌, ◌≢◌, ◌<◌, ◌+◌, refl, arith, tests, ◌==◌, update, ◌∙◌, sym, ltb, sub32,
}
use dumping.Base.Run.{Returns, Returns-bind, Returns-if, Returns-assert}
use dumping.Conv.Ftl.{pg_free, user_io, ConvFtl, LineMgmt, Blocks, get_pg}

-- A free line: another than the current one, with no page in use.
pub record IsBlank (p : SsdParams) (b : Blocks) (ls : ℕ → Line) (blk i : ℕ) : Type 0 where
  pub exists : i < p.blks_per_pl
  pub id : (ls i).id ≡ i
  pub other : i ≢ blk
  pub blank :
      (x : ℕ × ℕ) (j : ℕ) → IsChip p x → j < p.pgs_per_blk → get_pg b (page_at x i j) ≡ pg_free

abbrev pub NotIn : ℕ → List ℕ → Type 0
NotIn i [] = Unit {0}
NotIn i (j ∷ r) = (i ≢ j) × NotIn i r

-- Every line of the free list is blank, and stands there once.
abbrev pub Stock : SsdParams → Blocks → (ℕ → Line) → ℕ → List ℕ → Type 0
Stock p b ls blk [] = Unit {0}
Stock p b ls blk (i ∷ r) = IsBlank p b ls blk i × NotIn i r × Stock p b ls blk r

-- The write pointer stands on a free page of the current line.
pub record IsOpen {Q : Type 0} (f : ConvFtl Q) : Type 0 where
  pub chip : IsChip f.ssd.sp (f.wp.ch, f.wp.lun)
  pub exists : f.wp.blk < f.ssd.sp.blks_per_pl
  pub curline : f.wp.curline ≡ f.wp.blk
  pub plane : f.wp.pl ≡ 0
  pub page : f.wp.pg ≡ f.page_counter (chip_index f.ssd.sp f.wp.ch f.wp.lun)
  pub room : f.page_counter (chip_index f.ssd.sp f.wp.ch f.wp.lun) < f.ssd.sp.pgs_per_blk
  pub fill : IsFill f.ssd.sp f.blocks f.wp.blk f.page_counter
  pub stock : Stock f.ssd.sp f.blocks f.lm.lines f.wp.blk f.lm.free_line_list

-- The page at the write pointer has been mapped, and the pointer has not moved yet.
pub record IsBehind {Q : Type 0} (f : ConvFtl Q) : Type 0 where
  pub chip : IsChip f.ssd.sp (f.wp.ch, f.wp.lun)
  pub exists : f.wp.blk < f.ssd.sp.blks_per_pl
  pub curline : f.wp.curline ≡ f.wp.blk
  pub plane : f.wp.pl ≡ 0
  pub room : f.page_counter (chip_index f.ssd.sp f.wp.ch f.wp.lun) < f.ssd.sp.pgs_per_blk
  pub fill : IsFill f.ssd.sp f.blocks f.wp.blk (
      update f.page_counter
        (chip_index f.ssd.sp f.wp.ch f.wp.lun)
        (f.page_counter (chip_index f.ssd.sp f.wp.ch f.wp.lun) + 1))
  pub stock : Stock f.ssd.sp f.blocks f.lm.lines f.wp.blk f.lm.free_line_list
  pub counted : IsCounted f.ssd.sp f.blocks f.lm.lines

-- The pointer has moved; nothing that is written has changed.
pub record IsForward {Q : Type 0} (f g : ConvFtl Q) : Type 0 where
  pub ssd : g.ssd ≡ f.ssd
  pub blocks : g.blocks ≡ f.blocks
  pub maptbl : g.maptbl ≡ f.maptbl
  pub rmap : g.rmap ≡ f.rmap
  pub gc_wp : g.gc_wp ≡ f.gc_wp
  pub wfc : g.wfc ≡ f.wfc
  pub counted : IsCounted g.ssd.sp g.blocks g.lm.lines
  pub opened : IsOpen g

pub Stock-move :
    (p : SsdParams) (b : Blocks) (ls ms : ℕ → Line) (blk i : ℕ) (r : List ℕ)
    → ((k : ℕ) → (ms k).id ≡ (ls k).id)
    → NotIn i r
    → Stock p b ls blk r
    → Stock p b ms i r
Stock-move p b ls ms blk i [] e ne s = tt
Stock-move p b ls ms blk i (j ∷ r) e ne s = (
  record { exists = s.0.exists; id = e j ∙ s.0.id; other = λ t. ne.0 (sym t); blank = s.0.blank },
  s.1,
  Stock-move p b ls ms blk i r e ne.1 s.2,
)

-- The lines after the current one is closed.
pub record IsClosed {Q : Type 0} (m n : LineMgmt Q) : Type 0 where
  pub stock : IsSameStock m n
  pub vpc : (k : ℕ) → (n.lines k).vpc ≡ (m.lines k).vpc
  pub ipc : (k : ℕ) → (n.lines k).ipc ≡ (m.lines k).ipc

pub IsCounted-closed :
    {Q : Type 0} (p : SsdParams) (b : Blocks) (m n : LineMgmt Q)
    → IsClosed m n
    → IsCounted p b m.lines
    → IsCounted p b n.lines
IsCounted-closed p b m n h s = record {
  block = s.block;
  vpc = λ k lt. h.vpc k ∙ s.vpc k lt;
  ipc = λ k lt. h.ipc k ∙ s.ipc k lt;
}

-- A blank line, with cleared counters.
pub blank-IsFill :
    (p : SsdParams) (b : Blocks) (ls : ℕ → Line) (blk i : ℕ) (counter : ℕ → ℕ)
    → IsBlank p b ls blk i
    → ((x : ℕ × ℕ) → IsChip p x → counter (chip_index p x.0 x.1) ≡ 0)
    → IsFill p b i counter
blank-IsFill p b ls blk i counter h none = record {
  bound = λ x k. omega (arith, none x k);
  free = λ x j k ge lt. h.blank x j k lt;
  used = λ x j k lt. absurd (omega (arith, none x k, lt));
}

module _ {Q : Type 0} where
  -- The FTL on its next line.
  abbrev pub taken : ConvFtl Q → LineMgmt Q → ℕ → List ℕ → ConvFtl Q
  taken f m i r = record f {
    lm = record m { free_line_list = r; free_line_cnt = sub32 m.free_line_cnt 1 };
    wp = record (f.wp) { curline = i; blk = i };
  }

module _ {Q : Type 0} (pq : Pqueue Q) (laws : IsPqueue Q pq) where
  close_line-IsClosed :
      (m : LineMgmt Q) (i ppl : ℕ)
      → (m.lines i).vpc + (m.lines i).ipc ≡ ppl
      → Returns (IsClosed m) (close_line pq m i ppl)
  unfolding close_line
  close_line-IsClosed m i ppl e =
      Returns-if (IsClosed m) ((m.lines i).vpc == ppl) _ _
        (λ full.
          Returns-assert (IsClosed m) ((m.lines i).ipc == 0) _ (grind (tests, e, full)) (record {
            stock = record { free_list = refl; ids = λ k. refl };
            vpc = λ k. refl;
            ipc = λ k. refl;
          }))
        (λ part. Returns-assert (IsClosed m) (ltb (m.lines i).vpc ppl) _ (grind (tests, e, part)) (
          Returns-assert (IsClosed m) (ltb 0 (m.lines i).ipc) _ (grind (tests, e, part)) (record {
            stock = record {
              free_list = refl;
              ids = λ k. (laws.insert_moves m.victim_line_pq m.lines i k).id;
            };
            vpc = λ k. (laws.insert_moves m.victim_line_pq m.lines i k).vpc;
            ipc = λ k. (laws.insert_moves m.victim_line_pq m.lines i k).ipc;
          })))

  pub next_line-Returns :
      (f : ConvFtl Q) (i : ℕ) (r : List ℕ)
      → f.lm.free_line_list ≡ i ∷ r
      → (f.lm.lines i).id ≡ i
      → i < f.ssd.sp.blks_per_pl
      → f.wp.blk < f.ssd.sp.blks_per_pl
      → (f.lm.lines f.wp.curline).vpc + (f.lm.lines f.wp.curline).ipc ≡ f.ssd.sp.pgs_per_line
      → Returns
          (λ g. (m : LineMgmt Q) × IsClosed f.lm m × (g ≡ taken f m i r))
          (next_line pq f user_io)
  unfolding next_line get_next_free_line
  next_line-Returns f i r e id lt lt' full =
      let P : ConvFtl Q → Type 0 = λ g. (m : LineMgmt Q) × IsClosed f.lm m × (g ≡ taken f m i r) in
      Returns-bind (IsClosed f.lm) P (close_line pq f.lm f.wp.curline f.ssd.sp.pgs_per_line) _
        (close_line-IsClosed f.lm f.wp.curline f.ssd.sp.pgs_per_line full)
        (λ m c.
          let first : m.free_line_list ≡ i ∷ r = c.stock.free_list ∙ e in
          let same : (m.lines i).id ≡ i = c.stock.ids i ∙ id in
          Returns-assert P (ltb f.wp.blk f.ssd.sp.blks_per_pl) _ (grind (tests, lt')) (
            rw first (
              rw same (
                Returns-assert P (ltb i f.ssd.sp.blks_per_pl) _ (grind (tests, lt)) (m, c, refl)))))

  -- Every chip is full.
  pub all_used :
      (f : ConvFtl Q) (counter : ℕ → ℕ)
      → IsFill f.ssd.sp f.blocks f.wp.blk counter
      → ((x : ℕ × ℕ) → IsChip f.ssd.sp x → IsFull f.ssd.sp counter x)
      → f.wp.blk < f.ssd.sp.blks_per_pl
      → IsShaped f.ssd.sp
      → IsCounted f.ssd.sp f.blocks f.lm.lines
      → (f.lm.lines f.wp.blk).vpc + (f.lm.lines f.wp.blk).ipc ≡ f.ssd.sp.pgs_per_line
  all_used f counter h full lt q s =
      line_used f.ssd.sp f.blocks f.lm.lines s q f.wp.blk lt
        (λ c l j hc hl hj. h.used (c, l) j (hc, hl) (omega (arith, full (c, l) (hc, hl), hj)))
