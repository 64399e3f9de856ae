-- ===== src/Conv/Pages/Valid.antt =====
-- mark_page_valid keeps the counters right.
use dumping.Conv.Pqueue.{Line}
use dumping.Conv.Pages.Count.{validated, validated-IsBlock, valid_in_block-Returns}
use dumping.Conv.Frame.{IsFramed, IsSameStock-set}
use dumping.Conv.Pages.Counted.{
  IsCounted, IsPage, page-IsBlock, line_free, IsTallied, IsCounted-set,
}
use dumping.Conv.Index.{IsShaped}
use dumping.Ssd.Ppa.{Ppa}
use dumping.Conv.Pages.{mark_page_valid, valid_in_block}
use dumping.Base.{
  ◌≡◌, ◌<◌, ◌+◌, ltb, refl, arith, tests, ap, update, update_same, update_other, subst, sym,
}
use dumping.Base.Run.{Returns, Returns-assert, Returns-bind}
use dumping.Conv.Ftl.{pg_free, ConvFtl, set_blk, get_pg, get_blk}

-- The instance after the page `a` has become valid.
pub record IsValidated {Q : Type 0} (f : ConvFtl Q) (a : Ppa) (g : ConvFtl Q) : Type 0 where
  pub framed : IsFramed f g
  pub counted : IsCounted f.ssd.sp g.blocks g.lm.lines
  pub blocks : g.blocks ≡ set_blk f.blocks a (validated (get_blk f.blocks a) a.pg)

pub mark_page_valid-IsValidated :
    {Q : Type 0} (f : ConvFtl Q) (a : Ppa)
    → IsShaped f.ssd.sp
    → IsCounted f.ssd.sp f.blocks f.lm.lines
    → IsPage f.ssd.sp a
    → get_pg f.blocks a ≡ pg_free
    → Returns (IsValidated f a) (mark_page_valid f a)
unfolding mark_page_valid
mark_page_valid-IsValidated f a q s h e =
    let p = f.ssd.sp in
    let v = validated (get_blk f.blocks a) a.pg in
    let w = page-IsBlock p f.blocks f.lm.lines a s h in
    let l = f.lm.lines a.blk in
    let room : l.vpc < p.pgs_per_line = omega (arith, line_free p f.blocks f.lm.lines s q a h e) in
    let ms = update f.lm.lines a.blk (record l { vpc = l.vpc + 1 }) in
    let tallied : IsTallied f.blocks f.lm.lines ms a v = record {
      vpc = omega (
        arith,
        ap (λ (x : Line). x.vpc) (update_same f.lm.lines a.blk (record l { vpc = l.vpc + 1 })),
      );
      ipc = omega (
        arith,
        ap (λ (x : Line). x.ipc) (update_same f.lm.lines a.blk (record l { vpc = l.vpc + 1 })),
      );
      others = λ k ne. (
        ap (λ (x : Line). x.vpc)
            (update_other f.lm.lines a.blk (record l { vpc = l.vpc + 1 }) k ne),
        ap (λ (x : Line). x.ipc)
            (update_other f.lm.lines a.blk (record l { vpc = l.vpc + 1 }) k ne),
      );
    } in
    let counted =
      IsCounted-set p f.blocks f.lm.lines ms a v s h
        (validated-IsBlock p.pgs_per_blk (get_blk f.blocks a) a.pg w h.is_in.pg e) tallied in
    Returns-bind (λ c. c ≡ set_blk f.blocks a v) (IsValidated f a)
      (valid_in_block f.blocks a p.pgs_per_blk) _
      (valid_in_block-Returns f.blocks a p.pgs_per_blk w h.is_in.pg e)
      (λ c ec.
        Returns-assert (IsValidated f a) (ltb l.vpc p.pgs_per_line) _ (grind (tests, room))
          (record {
            framed = record {
              ssd = refl;
              cp = refl;
              maptbl = refl;
              rmap = refl;
              wp = refl;
              gc_wp = refl;
              stock = IsSameStock-set f.lm a.blk (record l { vpc = l.vpc + 1 }) refl;
              wfc = refl;
              page_counter = refl;
            };
            counted = subst (λ x. IsCounted p x ms) (sym ec) counted;
            blocks = ec;
          }))
