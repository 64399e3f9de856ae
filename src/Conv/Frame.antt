-- ===== src/Conv/Frame.antt =====
-- What an operation on pages and lines leaves of an instance of the FTL.
use dumping.Conv.Pqueue.{Line}
use dumping.Conv.Ftl.{ConvFtl, LineMgmt}
use dumping.Base.{refl, ap, update, if_cases, ==→eq, ℕ, ◌==◌, ◌≡◌, ◌∙◌}

-- The free lines and the ids of the lines.
pub record IsSameStock {Q : Type 0} (m n : LineMgmt Q) : Type 0 where
  pub free_list : n.free_line_list ≡ m.free_line_list
  pub ids : (k : ℕ) → (n.lines k).id ≡ (m.lines k).id

pub IsSameStock-trans :
    {Q : Type 0} (l m n : LineMgmt Q) → IsSameStock l m → IsSameStock m n → IsSameStock l n
IsSameStock-trans l m n a b = record {
  free_list = b.free_list ∙ a.free_list;
  ids = λ k. b.ids k ∙ a.ids k;
}

-- A line that is written keeps its id.
pub IsSameStock-set :
    {Q : Type 0} (m : LineMgmt Q) (i : ℕ) (l : Line)
    → l.id ≡ (m.lines i).id
    → IsSameStock m (record m { lines = update m.lines i l })
IsSameStock-set m i l e = record {
  free_list = refl;
  ids = λ k.
      if_cases (λ (x : Line). x.id ≡ (m.lines k).id) (i == k) l (m.lines k)
        (λ h. e ∙ ap (λ j. (m.lines j).id) (==→eq i k h)) (λ h. refl);
}

pub record IsFramed {Q : Type 0} (f g : ConvFtl Q) : Type 0 where
  pub ssd : g.ssd ≡ f.ssd
  pub cp : g.cp ≡ f.cp
  pub maptbl : g.maptbl ≡ f.maptbl
  pub rmap : g.rmap ≡ f.rmap
  pub wp : g.wp ≡ f.wp
  pub gc_wp : g.gc_wp ≡ f.gc_wp
  pub stock : IsSameStock f.lm g.lm
  pub wfc : g.wfc ≡ f.wfc
  pub page_counter : g.page_counter ≡ f.page_counter
