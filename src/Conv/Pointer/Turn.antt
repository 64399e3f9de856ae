-- ===== src/Conv/Pointer/Turn.antt =====
-- advance_user as a whole: within a chip, on to the next chip with room, or on to the next line.
use dumping.Conv.Pointer.Reset.{IsCleared, reset_counters-IsCleared}
use dumping.Conv.Pointer.Search.{IsChip, IsFull, IsFound, find_room-IsFound}
use dumping.Conv.Index.{IsShaped}
use dumping.Conv.Pointer.{
  all_full, chip_index, at_chip, advance_user, reset_counters, next_line, find_room,
}
use dumping.Conv.Pointer.Advance.{
  IsBehind, Stock, IsClosed, IsForward, taken, IsCounted-closed, all_used, blank-IsFill, Stock-move,
  next_line-Returns,
}
use dumping.Conv.Pointer.Fill.{IsSmall, IsFill, chips_small, chip_index_eq}
use dumping.Conv.Pqueue.{Pqueue, IsPqueue}
use dumping.Conv.Pages.Counted.{IsCounted}
use dumping.Base.{
  ℕ, true, List, ◌∷◌, Option, some, none, ◌≡◌, ◌≢◌, ◌<◌, ◌≤◌, ◌+◌, ◌*◌, ◌%◌, refl, arith, tests,
  u64, ◌==◌, update, update_same, sym, subst, ltb, not, ◌∙◌,
}
use native.Mathlib.Decide.{ℕ_discrete}
use dumping.Base.Run.{ok, Returns, Returns-bind, Returns-if, Returns-map, Returns-assert}
use dumping.Conv.Ftl.{user_io, ConvFtl, LineMgmt}

not_zero : (m : ℕ) → not (m == 0) ≡ true → m ≢ 0
not_zero m e h = grind (tests, e, h)

not_last : (c b o : ℕ) → not (c % o == 0) ≡ true → b % o ≡ 0 → c ≤ b → c < b
not_last c b o e whole le = elim (ℕ_discrete c b) [
  | yes same ↦ absurd (not_zero (b % o) (subst (λ t. not (t % o == 0) ≡ true) same e) whole)
  | no ne ↦ omega (arith, le, ne)
]

row_fits : (a n m : ℕ) → a < n → a * m + m ≤ n * m
row_fits a n m h = grind arith

module _ {Q : Type 0} where
  -- The pointer goes to a chip that has room in the line.
  at_chip-IsForward :
      (f : ConvFtl Q) (counter : ℕ → ℕ) (x : ℕ × ℕ)
      → IsSmall f.ssd.sp
      → IsBehind f
      → IsFill f.ssd.sp f.blocks f.wp.blk counter
      → IsChip f.ssd.sp x
      → counter (chip_index f.ssd.sp x.0 x.1) < f.ssd.sp.pgs_per_blk
      → IsForward f (at_chip (record f { page_counter = counter }) x.0 x.1)
  at_chip-IsForward f counter x s d fill h room = record {
    ssd = refl;
    blocks = refl;
    maptbl = refl;
    rmap = refl;
    gc_wp = refl;
    wfc = refl;
    counted = d.counted;
    opened = record {
      chip = h;
      exists = d.exists;
      curline = d.curline;
      plane = d.plane;
      page = omega (arith, room, s.pgs);
      room = room;
      fill = fill;
      stock = d.stock;
    };
  }

module _ {Q : Type 0} (pq : Pqueue Q) (laws : IsPqueue Q pq) where
  -- The pointer goes to the first chip of the next line.
  taken-IsForward :
      (f : ConvFtl Q) (c : ℕ → ℕ) (m : LineMgmt Q) (i : ℕ) (r : List ℕ)
      → IsSmall f.ssd.sp
      → IsCounted f.ssd.sp f.blocks f.lm.lines
      → Stock f.ssd.sp f.blocks f.lm.lines f.wp.blk (i ∷ r)
      → IsClosed f.lm m
      → ((x : ℕ × ℕ) → IsChip f.ssd.sp x → c (chip_index f.ssd.sp x.0 x.1) ≡ 0)
      → IsForward f (
          at_chip
            (record (taken (record f { page_counter = c }) m i r) {
              wp = record (f.wp) { curline = i; blk = i; pl = 0 };
            })
            0
            0)
  taken-IsForward f c m i r s d stock cl clear =
      let p = f.ssd.sp in
      let first : IsChip p (0, 0) = (s.some_chs, s.some_luns) in
      record {
        ssd = refl;
        blocks = refl;
        maptbl = refl;
        rmap = refl;
        gc_wp = refl;
        wfc = refl;
        counted = IsCounted-closed p f.blocks f.lm m cl d;
        opened = record {
          chip = first;
          exists = stock.0.exists;
          curline = refl;
          plane = refl;
          page = omega (arith, clear (0, 0) first);
          room = omega (arith, clear (0, 0) first, s.some_pgs);
          fill = blank-IsFill p f.blocks f.lm.lines f.wp.blk i c stock.0 clear;
          stock =
              Stock-move p f.blocks f.lm.lines m.lines f.wp.blk i r cl.stock.ids stock.1 stock.2;
        };
      }

  all_full-IsForward :
      (f : ConvFtl Q) (i : ℕ) (r : List ℕ)
      → IsSmall f.ssd.sp
      → IsShaped f.ssd.sp
      → IsCounted f.ssd.sp f.blocks f.lm.lines
      → IsFill f.ssd.sp f.blocks f.wp.blk f.page_counter
      → ((x : ℕ × ℕ) → IsChip f.ssd.sp x → IsFull f.ssd.sp f.page_counter x)
      → f.wp.blk < f.ssd.sp.blks_per_pl
      → f.wp.curline ≡ f.wp.blk
      → f.lm.free_line_list ≡ i ∷ r
      → Stock f.ssd.sp f.blocks f.lm.lines f.wp.blk (i ∷ r)
      → Returns (IsForward f) (all_full pq f)
  unfolding all_full
  all_full-IsForward f i r s q d fill full exists cur list stock =
      let p = f.ssd.sp in
      let P : ConvFtl Q → Type 0 = IsForward f in
      let few = chips_small p s in
      let whole : (c l : ℕ)
          → c < p.nchs
          → l < p.luns_per_ch
          → f.page_counter (c * p.luns_per_ch + l) ≡ p.pgs_per_blk =
        λ c l hc hl.
          subst (λ t. f.page_counter t ≡ p.pgs_per_blk) (chip_index_eq p s (c, l) (hc, hl))
            (omega (arith, fill.bound (c, l) (hc, hl), full (c, l) (hc, hl))) in
      let line =
        subst (λ t. (f.lm.lines t).vpc + (f.lm.lines t).ipc ≡ p.pgs_per_line) (sym cur)
          (all_used pq laws f f.page_counter fill full exists q d) in
      Returns-bind (IsCleared f.page_counter 0 (p.nchs * p.luns_per_ch)) P
        (reset_counters p.nchs p f.page_counter) _
        (reset_counters-IsCleared p.nchs p f.page_counter (omega arith) whole (omega (arith, few)))
        (λ c cl.
          let clear : (x : ℕ × ℕ) → IsChip p x → c (chip_index p x.0 x.1) ≡ 0 = λ x h.
            rw (chip_index_eq p s x h) (
              (cl (x.0 * p.luns_per_ch + x.1)).0 (omega arith)
                (omega (arith, h.1, row_fits x.0 p.nchs p.luns_per_ch h.0))) in
          let start : c 0 ≡ 0 =
            (cl 0).0 (omega arith)
              (omega (arith, s.some_luns, row_fits 0 p.nchs p.luns_per_ch s.some_chs)) in
          let f1 : ConvFtl Q = record f { page_counter = c } in
          Returns-bind (λ g. (m : LineMgmt Q) × IsClosed f.lm m × (g ≡ taken f1 m i r)) P
            (next_line pq f1 user_io) _
            (next_line-Returns pq laws f1 i r list stock.0.id stock.0.exists exists line)
            (λ g (m, k, e). rw e (
              Returns-assert P (c 0 == 0) _ (grind (tests, start))
                (taken-IsForward f c m i r s d stock k clear))))

  -- After the search: the chip that it has found, or the next line.
  found :
      (f : ConvFtl Q) (counter : ℕ → ℕ) (i : ℕ) (r : List ℕ)
      → IsSmall f.ssd.sp
      → IsShaped f.ssd.sp
      → IsBehind f
      → IsFill f.ssd.sp f.blocks f.wp.blk counter
      → f.lm.free_line_list ≡ i ∷ r
      → (o : Option (ℕ × ℕ)) → IsFound f.ssd.sp counter o
      → Returns (IsForward f) (elim o [
        | none ↦ all_full pq (record f { page_counter = counter })
        | some (c, l) ↦ ok (at_chip (record f { page_counter = counter }) c l)
      ])
  found f counter i r s q d fill list none full =
      Returns-map (IsForward (record f { page_counter = counter })) (IsForward f) _
        (all_full-IsForward (record f { page_counter = counter }) i r s q d.counted fill full
          d.exists d.curline list
          (subst (λ l. Stock f.ssd.sp f.blocks f.lm.lines f.wp.blk l) list d.stock))
        (λ g k. record {
          ssd = k.ssd;
          blocks = k.blocks;
          maptbl = k.maptbl;
          rmap = k.rmap;
          gc_wp = k.gc_wp;
          wfc = k.wfc;
          counted = k.counted;
          opened = k.opened;
        })
  found f counter i r s q d fill list (some (c, l)) k =
      at_chip-IsForward f counter (c, l) s d fill k.0 k.1

  -- Advancing the pointer of an instance whose page at it has been written raises no BUG, if a
  -- blank line is free: the pointer stands on a free page of the line, or of the next line.
  pub advance_user-IsForward :
      (f : ConvFtl Q) (i : ℕ) (r : List ℕ)
      → IsSmall f.ssd.sp
      → IsShaped f.ssd.sp
      → IsBehind f
      → f.lm.free_line_list ≡ i ∷ r
      → Returns (IsForward f) (advance_user pq f)
  unfolding advance_user
  advance_user-IsForward f i r s q d list =
      let p = f.ssd.sp in
      let P : ConvFtl Q → Type 0 = IsForward f in
      let x : ℕ × ℕ = (f.wp.ch, f.wp.lun) in
      let idx = chip_index p f.wp.ch f.wp.lun in
      let n = f.page_counter idx in
      let up : u64 (n + 1) ≡ n + 1 = omega (arith, d.room, s.pgs) in
      let counter = update f.page_counter idx (u64 (n + 1)) in
      let fill : IsFill p f.blocks f.wp.blk counter =
        subst (λ v. IsFill p f.blocks f.wp.blk (update f.page_counter idx v)) (sym up) d.fill in
      let g : ConvFtl Q = record f { page_counter = counter } in
      let now : counter idx ≡ n + 1 = update_same f.page_counter idx (u64 (n + 1)) ∙ up in
      Returns-assert P (ltb n p.pgs_per_blk) _ (grind (tests, d.room)) (
        Returns-if P (not (counter idx % p.pgs_per_oneshotpg == 0)) _ _
          (λ e. at_chip-IsForward f counter x s d fill d.chip (
            not_last (counter idx) p.pgs_per_blk p.pgs_per_oneshotpg e s.whole
              (omega (arith, now, d.room))))
          (λ e.
            Returns-bind (IsFound p counter) P
              (find_room (p.nchs * p.luns_per_ch) p counter f.wp.ch f.wp.lun f.wp.ch f.wp.lun) _
              (find_room-IsFound p counter f.wp.ch f.wp.lun
                (record { chs = omega (arith, s.chs); luns = omega (arith, s.luns) }) d.chip)
              (λ o k. found f counter i r s q d fill list o k)))
