-- ===== src/Conv/Write/Map.antt =====
-- A write maps its page: the tables agree with the states of the pages before and after.
use dumping.Conv.Frame.{IsSameStock}
use dumping.Ssd.Nand.{Ssd}
use dumping.Conv.Pages.Count.{invalidated}
use dumping.Ssd.Params.{SsdParams}
use dumping.Conv.Pages.{mark_page_invalid}
use dumping.Conv.Pages.Invalid.{IsInvalidated, mark_page_invalid-IsInvalidated}
use dumping.Conv.Index.{IsShaped, page_index_lt}
use dumping.Conv.Write.Place.{
  IsPlaced, IsMapped, IsApart, index_ne, kept_other, status_ne, status_other, status_same, eq_or_ne,
  invalid_clash, same_status,
}
use dumping.Conv.Pqueue.{Pqueue, IsPqueue}
use dumping.Ssd.Ppa.{Ppa}
use dumping.Conv.Write.{drop_old}
use dumping.Conv.Pages.Counted.{IsCounted, IsPage}
use dumping.Base.{inl, inr, ℕ, true, ◌≡◌, ◌≢◌, ◌<◌, ltb, refl, tests, ap, ◌∙◌, update, subst, sym}
use dumping.Base.Run.{ok, Returns, Returns-assert, Returns-bind, Returns-if, Returns-map}
use dumping.Conv.Ftl.{
  pg_free, pg_invalid, ConvFtl, set_rmap_ent, WritePointer, mapped_ppa, ppa2pgidx, new_page, get_pg,
  page_index, invalid_lpn, get_blk, set_blk,
}

-- A write pointer stands on a free page of the device.
pub record IsRoomy {Q : Type 0} (f : ConvFtl Q) (w : WritePointer) : Type 0 where
  pub page : IsPage f.ssd.sp (new_page w)
  pub free : get_pg f.blocks (new_page w) ≡ pg_free

-- What mapping a page leaves of the rest of the instance.
pub record IsSteady {Q : Type 0} (f g : ConvFtl Q) : Type 0 where
  pub ssd : g.ssd ≡ f.ssd
  pub cp : g.cp ≡ f.cp
  pub wp : g.wp ≡ f.wp
  pub gc_wp : g.gc_wp ≡ f.gc_wp
  pub stock : IsSameStock f.lm g.lm
  pub wfc : g.wfc ≡ f.wfc
  pub page_counter : g.page_counter ≡ f.page_counter

-- The old page of `lpn` is dropped: the data of every other page is in place.
pub record IsDropped {Q : Type 0} (f : ConvFtl Q) (lpn : ℕ) (g : ConvFtl Q) : Type 0 where
  pub steady : IsSteady f g
  pub maptbl : g.maptbl ≡ f.maptbl
  pub counted : IsCounted f.ssd.sp g.blocks g.lm.lines
  pub others :
      (j : ℕ)
      → j < f.ssd.sp.tt_pgs
      → j ≢ lpn
      → mapped_ppa (f.maptbl j) ≡ true
      → IsPlaced f.ssd.sp g.blocks g.rmap (f.maptbl j) j
  pub still_free : (x : Ppa) → get_pg f.blocks x ≡ pg_free → get_pg g.blocks x ≡ pg_free
  pub still_used : (x : Ppa) → get_pg f.blocks x ≢ pg_free → get_pg g.blocks x ≢ pg_free
  pub old : mapped_ppa (f.maptbl lpn) ≡ true → get_pg g.blocks (f.maptbl lpn) ≡ pg_invalid

module _ {Q : Type 0} where
  -- set_rmap_ent of a page of the device.
  set_rmap_ent-Returns :
      (f : ConvFtl Q) (lpn : ℕ) (a : Ppa)
      → IsShaped f.ssd.sp
      → IsPage f.ssd.sp a
      → Returns
          (λ g. g ≡ record f { rmap = update f.rmap (page_index f.ssd.sp a) lpn })
          (set_rmap_ent f lpn a)
  unfolding set_rmap_ent ppa2pgidx
  set_rmap_ent-Returns f lpn a q h =
      let g : ConvFtl Q = record f { rmap = update f.rmap (page_index f.ssd.sp a) lpn } in
      let lt = page_index_lt f.ssd.sp q a h.is_in in
      Returns-bind (λ i. i ≡ page_index f.ssd.sp a) (λ x. x ≡ g) (ppa2pgidx f a) _
        (Returns-assert (λ i. i ≡ page_index f.ssd.sp a)
          (ltb (page_index f.ssd.sp a) f.ssd.sp.tt_pgs) _ (grind (tests, lt)) refl)
        (λ i e. ap (λ t. record f { rmap = update f.rmap t lpn }) e)

  pub set_rmap_ent_at :
      (p : SsdParams) (f : ConvFtl Q) (lpn : ℕ) (a : Ppa)
      → f.ssd.sp ≡ p
      → IsShaped p
      → IsPage p a
      → Returns
          (λ g. g ≡ record f { rmap = update f.rmap (page_index p a) lpn })
          (set_rmap_ent f lpn a)
  set_rmap_ent_at p f lpn a e =
      subst
        (λ p.
          IsShaped p
          → IsPage p a
          → Returns (λ g. g ≡ record f { rmap = update f.rmap (page_index p a) lpn })
              (set_rmap_ent f lpn a))
        e (set_rmap_ent-Returns f lpn a)

  -- Two mapped logical pages stand apart.
  two_distinct :
      (f : ConvFtl Q) (j lpn : ℕ)
      → IsPlaced f.ssd.sp f.blocks f.rmap (f.maptbl j) j
      → IsPlaced f.ssd.sp f.blocks f.rmap (f.maptbl lpn) lpn
      → j ≢ lpn
      → IsApart (f.maptbl j) (f.maptbl lpn)
  two_distinct f j lpn h k ne =
      index_ne f.ssd.sp (f.maptbl j) (f.maptbl lpn) (λ e. ne (sym h.back ∙ ap f.rmap e ∙ k.back))

  after_invalid :
      (f : ConvFtl Q) (lpn : ℕ) (g : ConvFtl Q)
      → IsShaped f.ssd.sp
      → IsMapped f
      → IsPlaced f.ssd.sp f.blocks f.rmap (f.maptbl lpn) lpn
      → IsInvalidated f (f.maptbl lpn) g
      → IsDropped f lpn
          (record g { rmap = update g.rmap (page_index f.ssd.sp (f.maptbl lpn)) invalid_lpn })
  after_invalid f lpn g q m at k =
      let p = f.ssd.sp in
      let a = f.maptbl lpn in
      let v = invalidated (get_blk f.blocks a) a.pg in
      record {
        steady = record {
          ssd = k.framed.ssd;
          cp = k.framed.cp;
          wp = k.framed.wp;
          gc_wp = k.framed.gc_wp;
          stock = k.framed.stock;
          wfc = k.framed.wfc;
          page_counter = k.framed.page_counter;
        };
        maptbl = k.framed.maptbl;
        counted = k.counted;
        others = λ j lt ne e. rw k.blocks (
            rw k.framed.rmap (
              kept_other p f.blocks f.rmap (f.maptbl j) a j invalid_lpn v pg_invalid q (m j lt e)
                at.page (two_distinct f j lpn (m j lt e) at ne) refl));
        still_free = λ x e.
            let apart : IsApart x a = status_ne f.blocks x a (λ same. cc) in
            rw k.blocks (status_other f.blocks a x v pg_invalid refl apart ∙ e);
        still_used = λ x ne. elim (eq_or_ne x a) [
          | inl s ↦ λ fr. invalid_clash (
              sym (
                same_status (set_blk f.blocks a v) x a s ∙ status_same f.blocks a v pg_invalid refl)
              ∙ subst (λ b. get_pg b x ≡ pg_free) k.blocks fr)
          | inr apart ↦ λ fr. ne (
              sym (status_other f.blocks a x v pg_invalid refl apart)
              ∙ subst (λ b. get_pg b x ≡ pg_free) k.blocks fr)
        ];
        old = λ e. rw k.blocks (status_same f.blocks a v pg_invalid refl);
      }

  pub drop_old-IsDropped :
      (pq : Pqueue Q) (laws : IsPqueue Q pq) (f : ConvFtl Q) (lpn : ℕ)
      → IsShaped f.ssd.sp
      → IsCounted f.ssd.sp f.blocks f.lm.lines
      → IsMapped f
      → lpn < f.ssd.sp.tt_pgs
      → Returns (IsDropped f lpn) (drop_old pq f (f.maptbl lpn))
  unfolding drop_old
  drop_old-IsDropped pq laws f lpn q s m lt =
      let p = f.ssd.sp in
      let a = f.maptbl lpn in
      let P : ConvFtl Q → Type 0 = IsDropped f lpn in
      Returns-if P (mapped_ppa a) _ (ok f)
        (λ e.
          let at : IsPlaced p f.blocks f.rmap a lpn = m lpn lt e in
          Returns-bind (IsInvalidated f a) P (mark_page_invalid pq f a) _
            (mark_page_invalid-IsInvalidated pq laws f a q s at.page at.valid)
            (λ g k.
              Returns-map (λ h. h ≡ record g { rmap = update g.rmap (page_index p a) invalid_lpn })
                P (set_rmap_ent g invalid_lpn a)
                (set_rmap_ent_at p g invalid_lpn a (ap (λ (x : Ssd). x.sp) k.framed.ssd) q at.page)
                (λ h eh. subst P (sym eh) (after_invalid f lpn g q m at k))))
        (λ e. record {
          steady = record {
            ssd = refl;
            cp = refl;
            wp = refl;
            gc_wp = refl;
            stock = record { free_list = refl; ids = λ i. refl };
            wfc = refl;
            page_counter = refl;
          };
          maptbl = refl;
          counted = s;
          others = λ j lt' ne e'. m j lt' e';
          still_free = λ x e'. e';
          still_used = λ x ne. ne;
          old = λ e'. cc;
        })
