-- ===== src/Conv/Gc.antt =====
-- Garbage collection and write flow control (conv_ftl.c).
use dumping.Conv.Pointer.{advance_write_pointer}
use dumping.Conv.Lines.{select_victim_line, mark_line_free}
use dumping.Conv.Pages.{is_status, mark_block_free, mark_page_valid}
use dumping.Conv.Pqueue.{Pqueue}
use dumping.Ssd.Ppa.{Ppa}
use dumping.Base.{
  ℕ, zero, suc, Bool, true, false, some, none, ◌+◌, ◌*◌, ◌-◌, ◌==◌, not, if◌then◌else◌, u32, sub32,
  u16, u8,
}
use dumping.Base.Run.{Run, ok, ◌>>=◌, ◌>>◌, nvmev_assert}
use dumping.Conv.Ftl.{
  pg_free, pg_valid, gc_io, ConvFtl, Blocks, get_blk, get_rmap_ent, should_gc_high, valid_lpn,
  get_pg, get_new_page, set_maptbl_ent, set_rmap_ent, last_pg_in_wordline,
}
use dumping.Ssd.Nand.{
  nand_read, nand_write, nand_nop, nand_erase, NandOp, NandCmd, Link, ssd_advance_nand, set_lun,
}

-- A command of the collector; what its initializer does not name is 0.
abbrev pub gc_cmd : NandOp → ℕ → Ppa → NandCmd
gc_cmd op xfer_size a = record {
  cmd = op;
  xfer_size = xfer_size;
  stime = 0;
  interleave_pci_dma = false;
  ppa = a;
  arrive_time = some 0;
}

-- The pages of a flash page that hold data, from `a` on; none of them is free.
unfoldable pub count_valid : ℕ → Blocks → Ppa → Run ℕ
count_valid zero b a = ok 0
count_valid (suc i) b a = do
  n ← count_valid i b a
  let s = (get_blk b a).pg (u16 (a.pg + i))
  nvmev_assert (not (is_status s pg_free))
  ok (if is_status s pg_valid then n + 1 else n)

module _ {Q : Type 0} where
  abbrev pub consume_write_credit : ConvFtl Q → ConvFtl Q
  consume_write_credit f = record f {
    wfc = record (f.wfc) { write_credits = sub32 f.wfc.write_credits 1 };
  }

  module _ (cpu_clock : ℕ → ℕ) where
    -- ssd_advance_nand on the instance's device.
    unfoldable pub nand : ConvFtl Q → Link → NandCmd → Run (ConvFtl Q × Link × ℕ)
    nand f k n = do
      o ← ssd_advance_nand cpu_clock (record { ssd = f.ssd; link = k }) n
      ok (record f { ssd = o.device.ssd }, o.device.link, o.time)

    -- The same, where the collector's delay is modelled by the device at all.
    abbrev pub delay : ConvFtl Q → Link → NandCmd → Run (ConvFtl Q × Link)
    delay f k n =
        let timed : Run (ConvFtl Q × Link) = nand f k n >>= λ (g, k', t). ok (g, k') in
        if f.cp.enable_gc_delay then timed else ok (f, k)

    unfoldable pub gc_read_page : ConvFtl Q → Link → Ppa → Run (ConvFtl Q × Link)
    gc_read_page f k a = delay f k (gc_cmd nand_read f.ssd.sp.pgsz a)

    module _ (pq : Pqueue Q) where
      -- The data of `old_ppa` is written to a new page.
      unfoldable pub gc_write_page : ConvFtl Q → Link → Ppa → Run (ConvFtl Q × Link)
      gc_write_page f k old_ppa = do
        lpn ← get_rmap_ent f old_ppa
        nvmev_assert (valid_lpn f lpn)
        new_ppa ← get_new_page f gc_io
        f1 ← set_maptbl_ent f lpn new_ppa
        f2 ← set_rmap_ent f1 lpn new_ppa
        f3 ← mark_page_valid f2 new_ppa
        g ← advance_write_pointer pq f3 gc_io
        let p = g.ssd.sp
        delay g k (
            if last_pg_in_wordline p new_ppa
            then gc_cmd nand_write (p.pgsz * p.pgs_per_oneshotpg) new_ppa
            else gc_cmd nand_nop 0 new_ppa)

      -- One round of the loops of clean_one_block and of clean_one_flashpg.
      unfoldable pub move_page : ConvFtl Q → Link → Ppa → Run (ConvFtl Q × Link)
      move_page f k a =
          let moved = gc_write_page f k a in
          if is_status (get_pg f.blocks a) pg_valid then moved else ok (f, k)

      unfoldable pub move_pages : ℕ → ConvFtl Q → Link → Ppa → Run (ConvFtl Q × Link)
      move_pages zero f k a = ok (f, k)
      move_pages (suc i) f k a = do
        (g, k') ← move_pages i f k a
        move_page g k' (record a { pg = u16 (a.pg + i) })

      unfoldable pub clean_one_flashpg : ConvFtl Q → Link → Ppa → Run (ConvFtl Q × Link)
      clean_one_flashpg f k a = do
        cnt ← count_valid f.ssd.sp.pgs_per_flashpg f.blocks a
        let moved : Run (ConvFtl Q × Link) = do
          (g, k') ← delay f k (gc_cmd nand_read (f.ssd.sp.pgsz * cnt) a)
          move_pages f.ssd.sp.pgs_per_flashpg g k' a
        if cnt == 0 then ok (f, k) else moved

      -- One chip of a round of do_gc, with the block freed after its last flash page.
      unfoldable pub clean_chip : ConvFtl Q → Link → Ppa → Bool → Run (ConvFtl Q × Link)
      clean_chip f k a last = do
        (g, k') ← clean_one_flashpg f k a
        let erased : Run (ConvFtl Q × Link) = do
          (h, k'') ← delay (mark_block_free g a) k' (gc_cmd nand_erase 0 a)
          let l = h.ssd.lun a.ch a.lun
          let s = set_lun h.ssd a.ch a.lun (record l { gc_endtime = l.next_lun_avail_time })
          ok (record h { ssd = s }, k'')
        if last then erased else ok (g, k')

      -- The loops of do_gc over the dies, the channels and the flash pages.
      unfoldable pub clean_luns : ℕ → ConvFtl Q → Link → Ppa → Bool → Run (ConvFtl Q × Link)
      clean_luns zero f k a last = ok (f, k)
      clean_luns (suc lun) f k a last = do
        (g, k') ← clean_luns lun f k a last
        clean_chip g k' (record a { lun = u8 lun }) last

      unfoldable pub clean_chs : ℕ → ConvFtl Q → Link → Ppa → Bool → Run (ConvFtl Q × Link)
      clean_chs zero f k a last = ok (f, k)
      clean_chs (suc ch) f k a last = do
        (g, k') ← clean_chs ch f k a last
        clean_luns g.ssd.sp.luns_per_ch g k' (record a { ch = u8 ch }) last

      unfoldable pub clean_flashpgs : ℕ → ConvFtl Q → Link → Ppa → Run (ConvFtl Q × Link)
      clean_flashpgs zero f k a = ok (f, k)
      clean_flashpgs (suc flashpg) f k a = do
        (g, k') ← clean_flashpgs flashpg f k a
        clean_chs g.ssd.sp.nchs g k' (record a { pg = u16 (flashpg * g.ssd.sp.pgs_per_flashpg) })
            (flashpg == g.ssd.sp.flashpgs_per_blk - 1)

      -- The victim line is moved and freed; nothing is done if there is none.
      unfoldable pub do_gc : ConvFtl Q → Link → Bool → Run (ConvFtl Q × Link)
      do_gc f k force = elim (select_victim_line pq f.lm f.ssd.sp.pgs_per_line force) [
        | none ↦ ok (f, k)
        | some (i, m) ↦ do
          let l = m.lines i
          let a : Ppa = record { pg = 0; blk = u16 l.id; pl = 0; lun = 0; ch = 0; rsv = 0 }
          let g : ConvFtl Q = record f {
            lm = m;
            wfc = record (f.wfc) { credits_to_refill = u32 l.ipc };
          }
          (h, k') ← clean_flashpgs g.ssd.sp.flashpgs_per_blk g k a
          ok (record h { lm = mark_line_free h.lm a.blk }, k')
      ]

      unfoldable pub forground_gc : ConvFtl Q → Link → Run (ConvFtl Q × Link)
      forground_gc f k =
          let collected = do_gc f k true in if should_gc_high f then collected else ok (f, k)

      -- `write_credits` is unsigned: the test `<= 0` is a test for 0.
      unfoldable pub check_and_refill_write_credit : ConvFtl Q → Link → Run (ConvFtl Q × Link)
      check_and_refill_write_credit f k =
          let refilled : Run (ConvFtl Q × Link) = do
            (g, k') ← forground_gc f k
            ok (
              record g {
                wfc = record (g.wfc) {
                  write_credits = u32 (g.wfc.write_credits + g.wfc.credits_to_refill);
                };
              },
              k',
            )
          in if f.wfc.write_credits == 0 then refilled else ok (f, k)
