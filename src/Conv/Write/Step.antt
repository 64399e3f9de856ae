-- ===== src/Conv/Write/Step.antt =====
-- A page is mapped and the write pointer advances: the instance is ready for the next page.
use dumping.Conv.Pointer.Turn.{advance_user-IsForward}
use dumping.Conv.Write.{map_page}
use dumping.Base.Run.{Returns, Returns-map}
use dumping.Conv.Write.Page.{IsRemapped, map_page-IsRemapped}
use dumping.Conv.Pointer.{chip_index, advance_user}
use dumping.Conv.Write.Map.{IsRoomy}
use dumping.Conv.Write.Place.{IsMapped, same_status}
use dumping.Conv.Pqueue.{Line, Pqueue, IsPqueue}
use dumping.Conv.Pointer.Advance.{IsOpen, Stock, IsBehind, IsForward}
use dumping.Conv.Index.{IsShaped, IsSame}
use dumping.Ssd.Ppa.{Ppa}
use dumping.Conv.Pointer.Fill.{IsSmall, IsWrittenAt, page_at, filled}
use dumping.Ssd.Params.{SsdParams}
use dumping.Conv.Pages.Counted.{IsCounted, IsPage}
use dumping.Base.{ℕ, List, [], ◌∷◌, ◌≡◌, arith, inl, inr, update, ◌∙◌, sym, subst, ◌<◌}
use dumping.Conv.Ftl.{ConvFtl, Blocks, new_page}

-- An instance that can write a page.
pub record IsGood {Q : Type 0} (f : ConvFtl Q) : Type 0 where
  pub small : IsSmall f.ssd.sp
  pub shaped : IsShaped f.ssd.sp
  pub counted : IsCounted f.ssd.sp f.blocks f.lm.lines
  pub mapped : IsMapped f
  pub opened : IsOpen f

-- The instance after a page of logical number `lpn` is written.
pub record IsStepped {Q : Type 0} (f : ConvFtl Q) (lpn : ℕ) (a : Ppa) (g : ConvFtl Q) : Type 0 where
  pub good : IsGood g
  pub ssd : g.ssd ≡ f.ssd
  pub wfc : g.wfc ≡ f.wfc
  pub address : a ≡ new_page f.wp
  pub page : IsPage f.ssd.sp a
  pub table : g.maptbl ≡ update f.maptbl lpn a

-- A blank line stays blank.
Stock-written :
    (p : SsdParams) (b c : Blocks) (ls ms : ℕ → Line) (blk : ℕ) (a : Ppa) (r : List ℕ)
    → a.blk ≡ blk
    → IsWrittenAt b c a
    → ((k : ℕ) → (ms k).id ≡ (ls k).id)
    → Stock p b ls blk r
    → Stock p c ms blk r
Stock-written p b c ls ms blk a [] e w ids s = tt
Stock-written p b c ls ms blk a (i ∷ r) e w ids s = (
  record {
    exists = s.0.exists;
    id = ids i ∙ s.0.id;
    other = s.0.other;
    blank = λ x j h lt.
        w.still_free (page_at x i j) (inr (inr (inr (inl (λ t. s.0.other (t ∙ e))))))
          (s.0.blank x j h lt);
  },
  s.1,
  Stock-written p b c ls ms blk a r e w ids s.2,
)

module _ {Q : Type 0} where
  -- The page at the pointer.
  at_counter :
      (f : ConvFtl Q)
      → IsSmall f.ssd.sp
      → IsOpen f
      → IsSame
          (page_at
            (f.wp.ch, f.wp.lun)
            f.wp.blk
            (f.page_counter (chip_index f.ssd.sp f.wp.ch f.wp.lun)))
          (new_page f.wp)
  at_counter f s o = record {
    ch = omega (arith, o.chip.0, s.chs);
    lun = omega (arith, o.chip.1, s.luns);
    pl = omega (arith, o.plane);
    blk = omega (arith, o.exists, s.blks);
    pg = omega (arith, o.page, o.room, s.pgs);
  }

  open-IsRoomy : (f : ConvFtl Q) → IsSmall f.ssd.sp → IsOpen f → IsRoomy f f.wp
  open-IsRoomy f s o =
      let t = at_counter f s o in
      record {
        page = record {
          is_in = record {
            ch = omega (arith, t.ch, o.chip.0);
            lun = omega (arith, t.lun, o.chip.1);
            pl = omega (arith, t.pl, s.some_pls);
            blk = omega (arith, t.blk, o.exists);
            pg = omega (arith, t.pg, o.room);
          };
          plane = sym t.pl;
        };
        free =
            sym (same_status f.blocks _ (new_page f.wp) t)
            ∙ o.fill.free (f.wp.ch, f.wp.lun)
                (f.page_counter (chip_index f.ssd.sp f.wp.ch f.wp.lun)) o.chip (omega arith) o.room;
      }

  remapped-IsBehind :
      (f : ConvFtl Q) (lpn : ℕ) (g : ConvFtl Q) (a : Ppa)
      → IsGood f
      → IsRemapped f lpn g a
      → IsBehind g
  remapped-IsBehind f lpn g a h k =
      let p = f.ssd.sp in
      let o = h.opened in
      let same = at_counter f h.small o in
      let w : IsWrittenAt f.blocks g.blocks (new_page f.wp) =
        subst (IsWrittenAt f.blocks g.blocks) k.address
          (record { still_free = k.still_free; still_used = k.still_used; written = k.written }) in
      record {
        chip = rw k.steady.ssd (rw k.steady.wp o.chip);
        exists = rw k.steady.ssd (rw k.steady.wp o.exists);
        curline = rw k.steady.wp o.curline;
        plane = rw k.steady.wp o.plane;
        room = rw k.steady.ssd (rw k.steady.wp (rw k.steady.page_counter o.room));
        fill = rw k.steady.ssd (
            rw k.steady.wp (
              rw k.steady.page_counter (
                filled p h.small f.blocks g.blocks f.wp.blk f.page_counter (f.wp.ch, f.wp.lun)
                  (new_page f.wp) o.fill o.chip o.room same w)));
        stock = rw k.steady.ssd (
            rw k.steady.wp (
              rw k.steady.stock.free_list (
                Stock-written p f.blocks g.blocks f.lm.lines g.lm.lines f.wp.blk (new_page f.wp)
                  f.lm.free_line_list (sym same.blk) w k.steady.stock.ids o.stock)));
        counted = k.counted;
      }

  forward-IsStepped :
      (f : ConvFtl Q) (lpn : ℕ) (g : ConvFtl Q) (a : Ppa) (h : ConvFtl Q)
      → IsGood f
      → IsRemapped f lpn g a
      → IsForward g h
      → IsStepped f lpn a h
  forward-IsStepped f lpn g a h s k w =
      let ssd : h.ssd ≡ f.ssd = w.ssd ∙ k.steady.ssd in
      record {
        good = record {
          small = rw ssd s.small;
          shaped = rw ssd s.shaped;
          counted = w.counted;
          mapped = rw w.ssd (rw w.maptbl (rw w.rmap (rw w.blocks k.mapped)));
          opened = w.opened;
        };
        ssd = ssd;
        wfc = w.wfc ∙ k.steady.wfc;
        address = k.address;
        page = subst (IsPage f.ssd.sp) (sym k.address) (open-IsRoomy f s.small s.opened).page;
        table = w.maptbl ∙ k.table;
      }

-- Writing a page of an instance that can write one, while a blank line is free, raises no BUG: the
-- page is mapped to the one at the write pointer, and the instance can write another.
pub write_page-IsStepped :
    {Q : Type 0} (pq : Pqueue Q) (laws : IsPqueue Q pq) (f : ConvFtl Q) (lpn i : ℕ) (r : List ℕ)
    → IsGood f
    → lpn < f.ssd.sp.tt_pgs
    → f.lm.free_line_list ≡ i ∷ r
    → Returns
        (λ ((g, a) : ConvFtl Q × Ppa). Returns (IsStepped f lpn a) (advance_user pq g))
        (map_page pq f lpn)
write_page-IsStepped {Q = Q} pq laws f lpn i r h lt list =
    Returns-map (λ ((g, a) : ConvFtl Q × Ppa). IsRemapped f lpn g a)
      (λ ((g, a) : ConvFtl Q × Ppa). Returns (IsStepped f lpn a) (advance_user pq g))
      (map_page pq f lpn)
      (map_page-IsRemapped pq laws f lpn h.shaped h.counted h.mapped
        (open-IsRoomy f h.small h.opened) lt)
      (λ (g, a) k.
        Returns-map (IsForward g) (IsStepped f lpn a) (advance_user pq g)
          (advance_user-IsForward pq laws g i r (rw k.steady.ssd h.small) (rw k.steady.ssd h.shaped)
            (remapped-IsBehind f lpn g a h k) (k.steady.stock.free_list ∙ list))
          (λ g' w. forward-IsStepped f lpn g a g' h k w))
