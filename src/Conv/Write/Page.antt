-- ===== src/Conv/Write/Page.antt =====
-- map_page: one logical page gets a new physical page, and the others keep theirs.
use dumping.Conv.Frame.{IsSameStock-trans}
use dumping.Conv.Pqueue.{Pqueue, IsPqueue}
use dumping.Conv.Pages.{mark_page_valid}
use dumping.Conv.Write.{map_page, drop_old}
use dumping.Conv.Pages.Valid.{IsValidated, mark_page_valid-IsValidated}
use dumping.Conv.Pages.Count.{validated}
use dumping.Conv.Write.Place.{
  IsMapped, IsPlaced, status_same, IsApart, status_ne, status_clash, kept_other, status_other,
  invalid_clash,
}
use dumping.Conv.Index.{IsShaped}
use dumping.Ssd.Ppa.{Ppa}
use dumping.Conv.Pages.Counted.{IsCounted, IsPage}
use dumping.Conv.Write.Map.{IsDropped, IsSteady, IsRoomy, set_rmap_ent_at, drop_old-IsDropped}
use native.Mathlib.Decide.{ℕ_discrete}
use dumping.Base.{
  ℕ, true, ◌≡◌, ◌≢◌, ◌<◌, ltb, refl, tests, ap, ◌∙◌, update, update_same, update_other, subst, sym,
  ◌==◌,
}
use dumping.Base.Run.{
  ok, Returns, Returns-assert, Returns-bind, Returns-map, ◌>>◌, nvmev_assert, ◌>>=◌,
}
use dumping.Conv.Ftl.{
  pg_free, pg_invalid, pg_valid, user_io, ConvFtl, mapped_ppa, new_page, get_pg, set_blk, get_blk,
  page_index, set_maptbl_ent, set_rmap_ent, get_new_page, WritePointer,
}

-- The instance after logical page `lpn` has been mapped to `a`.
pub record IsRemapped {Q : Type 0} (f : ConvFtl Q) (lpn : ℕ) (g : ConvFtl Q) (a : Ppa)
    : Type 0 where
  pub steady : IsSteady f g
  pub address : a ≡ new_page f.wp
  pub table : g.maptbl ≡ update f.maptbl lpn a
  pub counted : IsCounted g.ssd.sp g.blocks g.lm.lines
  pub mapped : IsMapped g
  pub still_free :
      (x : Ppa) → IsApart x a → get_pg f.blocks x ≡ pg_free → get_pg g.blocks x ≡ pg_free
  pub still_used : (x : Ppa) → get_pg f.blocks x ≢ pg_free → get_pg g.blocks x ≢ pg_free
  pub written : get_pg g.blocks a ≡ pg_valid
  pub old : mapped_ppa (f.maptbl lpn) ≡ true → get_pg g.blocks (f.maptbl lpn) ≡ pg_invalid

-- The tables but for page `lpn`, whose data is on its way to the page `a`.
record IsPending {Q : Type 0} (f : ConvFtl Q) (lpn : ℕ) (a : Ppa) : Type 0 where
  shaped : IsShaped f.ssd.sp
  counted : IsCounted f.ssd.sp f.blocks f.lm.lines
  exists : lpn < f.ssd.sp.tt_pgs
  page : IsPage f.ssd.sp a
  free : get_pg f.blocks a ≡ pg_free
  others :
      (j : ℕ)
      → j < f.ssd.sp.tt_pgs
      → j ≢ lpn
      → mapped_ppa (f.maptbl j) ≡ true
      → IsPlaced f.ssd.sp f.blocks f.rmap (f.maptbl j) j

-- The tables after the page `a` has been given to `lpn`.
record IsGiven {Q : Type 0} (f : ConvFtl Q) (lpn : ℕ) (a : Ppa) (g : ConvFtl Q) : Type 0 where
  steady : IsSteady f g
  table : g.maptbl ≡ update f.maptbl lpn a
  counted : IsCounted g.ssd.sp g.blocks g.lm.lines
  mapped : IsMapped g
  written : get_pg g.blocks a ≡ pg_valid
  apart : (x : Ppa) → IsApart x a → get_pg g.blocks x ≡ get_pg f.blocks x
  states : (x : Ppa) → get_pg f.blocks x ≢ pg_free → get_pg g.blocks x ≡ get_pg f.blocks x

module _ {Q : Type 0} where
  -- Every mapped page is placed, after the page `a` has become valid and is mapped.
  in_place :
      (f : ConvFtl Q) (lpn : ℕ) (a : Ppa)
      → IsPending f lpn a
      → (j : ℕ) → j < f.ssd.sp.tt_pgs
      → mapped_ppa (update f.maptbl lpn a j) ≡ true
      → IsPlaced f.ssd.sp
          (set_blk f.blocks a (validated (get_blk f.blocks a) a.pg))
          (update f.rmap (page_index f.ssd.sp a) lpn)
          (update f.maptbl lpn a j)
          j
  in_place f lpn a d j lt e =
      let p = f.ssd.sp in
      let v = validated (get_blk f.blocks a) a.pg in
      elim (ℕ_discrete j lpn) [
        | yes same ↦
            let here : IsPlaced p (set_blk f.blocks a v) (update f.rmap (page_index p a) lpn) a
                lpn =
              record {
                page = d.page;
                valid = status_same f.blocks a v pg_valid refl;
                back = update_same f.rmap (page_index p a) lpn;
              } in
            rw same (rw (update_same f.maptbl lpn a) here)
        | no ne ↦
            let other = update_other f.maptbl lpn a j ne in
            let at : IsPlaced p f.blocks f.rmap (f.maptbl j) j =
              d.others j lt ne (subst (λ x. mapped_ppa x ≡ true) other e) in
            let apart : IsApart (f.maptbl j) a =
              status_ne f.blocks (f.maptbl j) a (λ st. status_clash (sym at.valid ∙ st ∙ d.free)) in
            rw other (
              kept_other p f.blocks f.rmap (f.maptbl j) a j lpn v pg_valid d.shaped at d.page apart
                refl)
      ]

  set_maptbl_ent-Returns :
      (f : ConvFtl Q) (lpn : ℕ) (a : Ppa)
      → lpn < f.ssd.sp.tt_pgs
      → Returns (λ g. g ≡ record f { maptbl = update f.maptbl lpn a }) (set_maptbl_ent f lpn a)
  unfolding set_maptbl_ent
  set_maptbl_ent-Returns f lpn a lt =
      Returns-assert (λ g. g ≡ record f { maptbl = update f.maptbl lpn a })
        (ltb lpn f.ssd.sp.tt_pgs) _ (grind (tests, lt)) refl

  -- The instance with both tables set, before the page is marked.
  abbrev tabled : ConvFtl Q → ℕ → Ppa → ConvFtl Q
  tabled f lpn a = record f {
    maptbl = update f.maptbl lpn a;
    rmap = update f.rmap (page_index f.ssd.sp a) lpn;
  }

  marked-IsGiven :
      (f : ConvFtl Q) (lpn : ℕ) (a : Ppa) (g : ConvFtl Q)
      → IsPending f lpn a
      → IsValidated (tabled f lpn a) a g
      → IsGiven f lpn a g
  marked-IsGiven f lpn a g d k = record {
    steady = record {
      ssd = k.framed.ssd;
      cp = k.framed.cp;
      wp = k.framed.wp;
      gc_wp = k.framed.gc_wp;
      stock = k.framed.stock;
      wfc = k.framed.wfc;
      page_counter = k.framed.page_counter;
    };
    table = k.framed.maptbl;
    counted = rw k.framed.ssd k.counted;
    mapped =
        rw k.framed.ssd (rw k.framed.maptbl (rw k.framed.rmap (rw k.blocks (in_place f lpn a d))));
    written =
        rw k.blocks (status_same f.blocks a (validated (get_blk f.blocks a) a.pg) pg_valid refl);
    apart = λ x h.
        rw k.blocks
          (status_other f.blocks a x (validated (get_blk f.blocks a) a.pg) pg_valid refl h);
    states = λ x ne. rw k.blocks (
        status_other f.blocks a x (validated (get_blk f.blocks a) a.pg) pg_valid refl
          (status_ne f.blocks x a (λ e. ne (e ∙ d.free))));
  }

  -- The steps that give the page `a` to `lpn`.
  give_page-IsGiven :
      (f : ConvFtl Q) (lpn : ℕ) (a : Ppa)
      → IsPending f lpn a
      → Returns
          (λ ((g, x) : ConvFtl Q × Ppa). IsGiven f lpn a g × (x ≡ a))
          (set_maptbl_ent f lpn a >>= λ f2.
            set_rmap_ent f2 lpn a >>= λ f3. mark_page_valid f3 a >>= λ f4. ok (f4, a))
  give_page-IsGiven f lpn a d =
      let P : ConvFtl Q × Ppa → Type 0 = λ y. IsGiven f lpn a y.0 × (y.1 ≡ a) in
      let f1 : ConvFtl Q = record f { maptbl = update f.maptbl lpn a } in
      Returns-bind (λ g. g ≡ f1) P (set_maptbl_ent f lpn a) _
        (set_maptbl_ent-Returns f lpn a d.exists)
        (λ f2 e2.
          Returns-bind (λ g. g ≡ tabled f lpn a) P (set_rmap_ent f2 lpn a) _
            (subst (λ t. Returns (λ g. g ≡ tabled f lpn a) (set_rmap_ent t lpn a)) (sym e2)
              (set_rmap_ent_at f.ssd.sp f1 lpn a refl d.shaped d.page))
            (λ f3 e3.
              Returns-bind (IsValidated (tabled f lpn a) a) P (mark_page_valid f3 a) _
                (subst (λ t. Returns (IsValidated (tabled f lpn a) a) (mark_page_valid t a))
                  (sym e3)
                  (mark_page_valid-IsValidated (tabled f lpn a) a d.shaped d.counted d.page d.free))
                (λ g k. (marked-IsGiven f lpn a g d k, refl))))

  dropped-IsPending :
      (f : ConvFtl Q) (lpn : ℕ) (g : ConvFtl Q)
      → IsShaped f.ssd.sp
      → lpn < f.ssd.sp.tt_pgs
      → IsRoomy f f.wp
      → IsDropped f lpn g
      → IsPending g lpn (new_page f.wp)
  dropped-IsPending f lpn g q lt r d = record {
    shaped = rw d.steady.ssd q;
    counted = rw d.steady.ssd d.counted;
    exists = rw d.steady.ssd lt;
    page = rw d.steady.ssd r.page;
    free = d.still_free (new_page f.wp) r.free;
    others = rw d.steady.ssd (rw d.maptbl d.others);
  }

  remapped :
      (f : ConvFtl Q) (lpn : ℕ) (g h : ConvFtl Q)
      → IsDropped f lpn g
      → IsGiven g lpn (new_page f.wp) h
      → IsRemapped f lpn h (new_page f.wp)
  remapped f lpn g h d k = record {
    steady = record {
      ssd = k.steady.ssd ∙ d.steady.ssd;
      cp = k.steady.cp ∙ d.steady.cp;
      wp = k.steady.wp ∙ d.steady.wp;
      gc_wp = k.steady.gc_wp ∙ d.steady.gc_wp;
      stock = IsSameStock-trans f.lm g.lm h.lm d.steady.stock k.steady.stock;
      wfc = k.steady.wfc ∙ d.steady.wfc;
      page_counter = k.steady.page_counter ∙ d.steady.page_counter;
    };
    address = refl;
    table = k.table ∙ ap (λ t. update t lpn (new_page f.wp)) d.maptbl;
    counted = k.counted;
    mapped = k.mapped;
    written = k.written;
    still_free = λ x ne e. k.apart x ne ∙ d.still_free x e;
    still_used = λ x ne fr. d.still_used x ne (sym (k.states x (d.still_used x ne)) ∙ fr);
    old = λ e. k.states (f.maptbl lpn) (λ fr. invalid_clash (sym (d.old e) ∙ fr)) ∙ d.old e;
  }

  get_new_page-Returns :
      (f : ConvFtl Q) (w : WritePointer)
      → f.wp ≡ w
      → (new_page w).pl ≡ 0
      → Returns (λ x. x ≡ new_page w) (get_new_page f user_io)
  unfolding get_new_page
  get_new_page-Returns f w e h =
      subst
        (λ v.
          Returns (λ x. x ≡ new_page w) (nvmev_assert ((new_page v).pl == 0) >> ok (new_page v)))
        (sym e)
        (Returns-assert (λ x. x ≡ new_page w) ((new_page w).pl == 0) _ (grind (tests, h)) refl)

-- Mapping a logical page of an instance whose counters agree with the states of its pages, whose
-- mapped pages are in place and whose write pointer is on a free page raises no BUG. The page is
-- mapped to the one at the write pointer, which is valid; the old page, if there was one, is
-- invalid; the entries of all other pages are as before; the counters agree again, and all mapped
-- pages are in place again.
pub map_page-IsRemapped :
    {Q : Type 0} (pq : Pqueue Q) (laws : IsPqueue Q pq) (f : ConvFtl Q) (lpn : ℕ)
    → IsShaped f.ssd.sp
    → IsCounted f.ssd.sp f.blocks f.lm.lines
    → IsMapped f
    → IsRoomy f f.wp
    → lpn < f.ssd.sp.tt_pgs
    → Returns (λ ((g, a) : ConvFtl Q × Ppa). IsRemapped f lpn g a) (map_page pq f lpn)
unfolding map_page
map_page-IsRemapped {Q = Q} pq laws f lpn q s m r lt =
    let P : ConvFtl Q × Ppa → Type 0 = λ y. IsRemapped f lpn y.0 y.1 in
    let a = new_page f.wp in
    Returns-bind (IsDropped f lpn) P (drop_old pq f (f.maptbl lpn)) _
      (drop_old-IsDropped pq laws f lpn q s m lt)
      (λ g d.
        Returns-bind (λ x. x ≡ a) P (get_new_page g user_io) _
          (get_new_page-Returns g f.wp d.steady.wp r.page.plane)
          (λ x e.
            Returns-map (λ ((h, y) : ConvFtl Q × Ppa). IsGiven g lpn x h × (y ≡ x)) P _
              (give_page-IsGiven g lpn x
                (subst (IsPending g lpn) (sym e) (dropped-IsPending f lpn g q lt r d)))
              (λ (h, y) k.
                subst (IsRemapped f lpn h) (sym (k.1 ∙ e))
                  (remapped f lpn g h d (subst (λ t. IsGiven g lpn t h) e k.0)))))
