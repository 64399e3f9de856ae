-- ===== src/Conv/Pages/Invalid.antt =====
-- mark_page_invalid keeps the counters right.
use dumping.Conv.Index.{IsShaped}
use dumping.Conv.Pages.Count.{invalidated, count_pos, invalid_in_block-Returns, invalidated-IsBlock}
use dumping.Conv.Pages.{
  lower_vpc, full_to_victim, set_line, invalid_in_line, mark_page_invalid, invalid_in_block,
}
use dumping.Ssd.Ppa.{Ppa}
use dumping.Conv.Frame.{IsFramed, IsSameStock, IsSameStock-set, IsSameStock-trans}
use dumping.Conv.Pages.Counted.{
  IsCounted, IsPage, page-IsBlock, line_valid, line_bound, IsTallied, IsCounted-set,
}
use dumping.Conv.Pqueue.{IsMoved, Line, Pqueue, IsPqueue}
use dumping.Base.{
  ℕ, ◌≡◌, ◌≢◌, ◌<◌, ◌≤◌, ◌+◌, ◌-◌, ltb, leb, refl, arith, tests, ap, ◌∙◌, update, update_same,
  update_other, subst, sym, if_cases, ◌==◌, ◌||◌, ◌&&◌, not,
}
use dumping.Base.Run.{Returns, Returns-assert, Returns-bind, Returns-both}
use dumping.Conv.Ftl.{pg_valid, ConvFtl, set_blk, LineMgmt, get_blk, get_pg}

-- The lines after a page of line `i` has become invalid.
pub record IsLowered (ls ms : ℕ → Line) (i : ℕ) : Type 0 where
  pub vpc : (ms i).vpc ≡ (ls i).vpc - 1
  pub ipc : (ms i).ipc ≡ (ls i).ipc + 1
  pub others : (k : ℕ) → k ≢ i → ((ms k).vpc ≡ (ls k).vpc) × ((ms k).ipc ≡ (ls k).ipc)

record IsDropped (ls ms : ℕ → Line) (i : ℕ) : Type 0 where
  vpc : (ms i).vpc ≡ (ls i).vpc - 1
  ipc : (ms i).ipc ≡ (ls i).ipc
  others : (k : ℕ) → k ≢ i → ((ms k).vpc ≡ (ls k).vpc) × ((ms k).ipc ≡ (ls k).ipc)

-- The instance after the page `a` has become invalid.
pub record IsInvalidated {Q : Type 0} (f : ConvFtl Q) (a : Ppa) (g : ConvFtl Q) : Type 0 where
  pub framed : IsFramed f g
  pub counted : IsCounted f.ssd.sp g.blocks g.lm.lines
  pub blocks : g.blocks ≡ set_blk f.blocks a (invalidated (get_blk f.blocks a) a.pg)

module _ {Q : Type 0} (pq : Pqueue Q) (laws : IsPqueue Q pq) where
  lower_vpc-IsDropped : (m : LineMgmt Q) (i : ℕ) → IsDropped m.lines (lower_vpc pq m i).lines i
  unfolding lower_vpc
  lower_vpc-IsDropped m i =
      let l = m.lines i in
      let l' : Line = record l { vpc = l.vpc - 1 } in
      let r = pq.change_priority m.victim_line_pq m.lines (l.vpc - 1) i in
      let set = update m.lines i l' in
      let direct : IsDropped m.lines set i = record {
        vpc = ap (λ (x : Line). x.vpc) (update_same m.lines i l');
        ipc = ap (λ (x : Line). x.ipc) (update_same m.lines i l');
        others = λ k ne. (
          ap (λ (x : Line). x.vpc) (update_other m.lines i l' k ne),
          ap (λ (x : Line). x.ipc) (update_other m.lines i l' k ne),
        );
      } in
      let moved : (k : ℕ) → IsMoved (set k) (r.1 k) =
        λ k. laws.change_moves m.victim_line_pq m.lines (l.vpc - 1) i k in
      if_cases (λ (x : LineMgmt Q). IsDropped m.lines x.lines i) (ltb 0 l.pos)
        (record m { victim_line_pq = r.0; lines = r.1 }) (set_line m i l')
        (λ e. record {
          vpc = (moved i).vpc ∙ direct.vpc;
          ipc = (moved i).ipc ∙ direct.ipc;
          others = λ k ne.
              ((moved k).vpc ∙ (direct.others k ne).0, (moved k).ipc ∙ (direct.others k ne).1);
        })
        (λ e. direct)

  full_to_victim-IsLowered :
      (m : LineMgmt Q) (ls : ℕ → Line) (i j : ℕ)
      → IsLowered ls m.lines i
      → IsLowered ls (full_to_victim pq m j).lines i
  unfolding full_to_victim
  full_to_victim-IsLowered m ls i j h =
      let moved : (k : ℕ) → IsMoved (m.lines k) ((pq.insert m.victim_line_pq m.lines j).1 k) =
        λ k. laws.insert_moves m.victim_line_pq m.lines j k in
      record {
        vpc = (moved i).vpc ∙ h.vpc;
        ipc = (moved i).ipc ∙ h.ipc;
        others = λ k ne. ((moved k).vpc ∙ (h.others k ne).0, (moved k).ipc ∙ (h.others k ne).1);
      }

  lowered :
      (m : LineMgmt Q) (i : ℕ) (l : Line)
      → l.vpc ≡ (m.lines i).vpc
      → l.ipc ≡ (m.lines i).ipc + 1
      → IsLowered m.lines (lower_vpc pq (set_line m i l) i).lines i
  lowered m i l ev ei =
      let d = lower_vpc-IsDropped (set_line m i l) i in
      let here : update m.lines i l i ≡ l = update_same m.lines i l in
      record {
        vpc = d.vpc ∙ ap (λ (x : Line). x.vpc - 1) here ∙ ap (λ t. t - 1) ev;
        ipc = d.ipc ∙ ap (λ (x : Line). x.ipc) here ∙ ei;
        others = λ k ne.
            let there = update_other m.lines i l k ne in
            (
              (d.others k ne).0 ∙ ap (λ (x : Line). x.vpc) there,
              (d.others k ne).1 ∙ ap (λ (x : Line). x.ipc) there,
            );
      }

  invalid_in_line-IsLowered :
      (m : LineMgmt Q) (i ppl : ℕ)
      → 0 < (m.lines i).vpc
      → (m.lines i).vpc + (m.lines i).ipc ≤ ppl
      → Returns (λ (n : LineMgmt Q). IsLowered m.lines n.lines i) (invalid_in_line pq m i ppl)
  unfolding invalid_in_line
  invalid_in_line-IsLowered m i ppl pos le =
      let P : LineMgmt Q → Type 0 = λ n. IsLowered m.lines n.lines i in
      let l = m.lines i in
      let m' = lower_vpc pq (set_line m i (record l { ipc = l.ipc + 1 })) i in
      let low = lowered m i (record l { ipc = l.ipc + 1 }) refl refl in
      Returns-assert P (ltb l.ipc ppl) _ (grind (tests, pos, le)) (
        Returns-assert P (not (l.vpc == ppl) || l.ipc == 0) _ (grind (tests, pos, le)) (
          Returns-assert P (ltb 0 l.vpc && leb l.vpc ppl) _ (grind (tests, pos, le)) (
            if_cases P (l.vpc == ppl) (full_to_victim pq m' i) m'
              (λ e. full_to_victim-IsLowered m' m.lines i i low) (λ e. low))))

  lower_vpc-IsSameStock : (m : LineMgmt Q) (i : ℕ) → IsSameStock m (lower_vpc pq m i)
  unfolding lower_vpc
  lower_vpc-IsSameStock m i =
      let l = m.lines i in
      let l' : Line = record l { vpc = l.vpc - 1 } in
      let r = pq.change_priority m.victim_line_pq m.lines (l.vpc - 1) i in
      let direct = IsSameStock-set m i l' refl in
      if_cases (IsSameStock m) (ltb 0 l.pos) (record m { victim_line_pq = r.0; lines = r.1 })
        (set_line m i l')
        (λ e. record {
          free_list = refl;
          ids = λ k. (laws.change_moves m.victim_line_pq m.lines (l.vpc - 1) i k).id ∙ direct.ids k;
        })
        (λ e. direct)

  full_to_victim-IsSameStock : (m : LineMgmt Q) (i : ℕ) → IsSameStock m (full_to_victim pq m i)
  unfolding full_to_victim
  full_to_victim-IsSameStock m i = record {
    free_list = refl;
    ids = λ k. (laws.insert_moves m.victim_line_pq m.lines i k).id;
  }

  invalid_in_line-IsSameStock :
      (m : LineMgmt Q) (i ppl : ℕ)
      → 0 < (m.lines i).vpc
      → (m.lines i).vpc + (m.lines i).ipc ≤ ppl
      → Returns (IsSameStock m) (invalid_in_line pq m i ppl)
  unfolding invalid_in_line
  invalid_in_line-IsSameStock m i ppl pos le =
      let P : LineMgmt Q → Type 0 = IsSameStock m in
      let l = m.lines i in
      let m1 = set_line m i (record l { ipc = l.ipc + 1 }) in
      let m' = lower_vpc pq m1 i in
      let kept =
        IsSameStock-trans m m1 m' (IsSameStock-set m i (record l { ipc = l.ipc + 1 }) refl)
          (lower_vpc-IsSameStock m1 i) in
      Returns-assert P (ltb l.ipc ppl) _ (grind (tests, pos, le)) (
        Returns-assert P (not (l.vpc == ppl) || l.ipc == 0) _ (grind (tests, pos, le)) (
          Returns-assert P (ltb 0 l.vpc && leb l.vpc ppl) _ (grind (tests, pos, le)) (
            if_cases P (l.vpc == ppl) (full_to_victim pq m' i) m'
              (λ e.
                IsSameStock-trans m m' (full_to_victim pq m' i) kept
                  (full_to_victim-IsSameStock m' i))
              (λ e. kept))))

-- mark_page_invalid of a valid page raises no BUG where the counters agree with the states of the
-- pages, and they agree again after it: the page is invalid, and its block and its line count one
-- valid page less and one invalid page more.
pub mark_page_invalid-IsInvalidated :
    {Q : Type 0} (pq : Pqueue Q) (laws : IsPqueue Q pq) (f : ConvFtl Q) (a : Ppa)
    → IsShaped f.ssd.sp
    → IsCounted f.ssd.sp f.blocks f.lm.lines
    → IsPage f.ssd.sp a
    → get_pg f.blocks a ≡ pg_valid
    → Returns (IsInvalidated f a) (mark_page_invalid pq f a)
unfolding mark_page_invalid
mark_page_invalid-IsInvalidated pq laws f a q s h e =
    let p = f.ssd.sp in
    let v = invalidated (get_blk f.blocks a) a.pg in
    let w = page-IsBlock p f.blocks f.lm.lines a s h in
    let some = count_pos pg_valid p.pgs_per_blk (get_blk f.blocks a).pg a.pg h.is_in.pg e refl in
    let here : 0 < (get_blk f.blocks a).vpc = omega (arith, w.vpc, some) in
    let pos = line_valid p f.blocks f.lm.lines s q a h e in
    let bound = line_bound p f.blocks f.lm.lines s q a.blk h.is_in.blk in
    Returns-bind (λ c. c ≡ set_blk f.blocks a v) (IsInvalidated f a)
      (invalid_in_block f.blocks a p.pgs_per_blk) _
      (invalid_in_block-Returns f.blocks a p.pgs_per_blk w h.is_in.pg e)
      (λ c ec.
        Returns-bind (λ (n : LineMgmt _). IsLowered f.lm.lines n.lines a.blk × IsSameStock f.lm n)
          (IsInvalidated f a) (invalid_in_line pq f.lm a.blk p.pgs_per_line) _
          (Returns-both (λ (n : LineMgmt _). IsLowered f.lm.lines n.lines a.blk)
            (λ (n : LineMgmt _). IsSameStock f.lm n) (invalid_in_line pq f.lm a.blk p.pgs_per_line)
            (invalid_in_line-IsLowered pq laws f.lm a.blk p.pgs_per_line pos bound)
            (invalid_in_line-IsSameStock pq laws f.lm a.blk p.pgs_per_line pos bound))
          (λ n (low, stock).
            let tallied : IsTallied f.blocks f.lm.lines n.lines a v = record {
              vpc = omega (arith, low.vpc, here, pos);
              ipc = omega (arith, low.ipc);
              others = low.others;
            } in
            record {
              framed = record {
                ssd = refl;
                cp = refl;
                maptbl = refl;
                rmap = refl;
                wp = refl;
                gc_wp = refl;
                stock = stock;
                wfc = refl;
                page_counter = refl;
              };
              counted =
                  subst (λ x. IsCounted p x n.lines) (sym ec)
                    (IsCounted-set p f.blocks f.lm.lines n.lines a v s h
                      (invalidated-IsBlock p.pgs_per_blk (get_blk f.blocks a) a.pg w h.is_in.pg e)
                      tallied);
              blocks = ec;
            }))
