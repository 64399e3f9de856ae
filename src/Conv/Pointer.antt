-- ===== src/Conv/Pointer.antt =====
-- advance_write_pointer (conv_ftl.c). A host write fills the chips one after the other, each up
-- to its page counter; the collector fills them page by page.
pub mod Search
pub mod Reset
pub mod Fill
pub mod Advance
pub mod Turn
use dumping.Conv.Lines.{close_line, get_next_free_line}
use dumping.Conv.Pqueue.{Pqueue}
use dumping.Ssd.Params.{SsdParams}
use dumping.Base.{
  ℕ, zero, suc, Bool, true, false, Option, some, none, List, [], ◌∷◌, ◌++◌, ◌%◌, ◌+◌, ◌*◌, ◌-◌,
  ◌==◌, ◌&&◌, ◌||◌, not, ltb, leb, update, if◌then◌else◌, u32, sub32, u64,
}
use dumping.Base.Run.{Run, ok, bug, out_of_fuel, ◌>>=◌, ◌>>◌, nvmev_assert}
use dumping.Conv.Ftl.{user_io, gc_io, check_addr, ConvFtl, IoType, get_wp, set_wp}

-- The index of a chip, in `uint32_t` arithmetic.
abbrev pub chip_index : SsdParams → ℕ → ℕ → ℕ
chip_index p ch lun = u32 (ch * p.luns_per_ch + lun)

-- The next chip, channel by channel.
unfoldable pub next_chip : SsdParams → ℕ → ℕ → Run (ℕ × ℕ)
next_chip p ch lun = do
  check_addr ch p.nchs
  let ch' = u32 (ch + 1)
  let lun' = u32 (lun + 1)
  let wrapped : Run (ℕ × ℕ) = do
    check_addr lun p.luns_per_ch
    ok (0, if lun' == p.luns_per_ch then 0 else lun')
  if ch' == p.nchs then wrapped else ok (ch', lun)

-- The `do` loop: the next chip that has room, if one is found before the search is back at its
-- start.
unfoldable pub find_room : ℕ → SsdParams → (ℕ → ℕ) → ℕ → ℕ → ℕ → ℕ → Run (Option (ℕ × ℕ))
find_room zero p counter start_ch start_lun ch lun = out_of_fuel
find_room (suc fuel) p counter start_ch start_lun ch lun = do
  (c, l) ← next_chip p ch lun
  let rest = find_room fuel p counter start_ch start_lun c l
  if ltb (counter (chip_index p c l)) p.pgs_per_blk
      then ok (some (c, l))
      else if not (c == start_ch) || not (l == start_lun)
      then rest
      else ok none

-- The reset of the counters, each of which shows a full block.
unfoldable pub reset_chip : SsdParams → (ℕ → ℕ) → ℕ → ℕ → Run (ℕ → ℕ)
reset_chip p counter i j = do
  let reset_idx = u64 (i * p.luns_per_ch + j)
  nvmev_assert (counter reset_idx == p.pgs_per_blk)
  ok (update counter reset_idx 0)

unfoldable pub reset_luns : ℕ → SsdParams → ℕ → (ℕ → ℕ) → Run (ℕ → ℕ)
reset_luns zero p i counter = ok counter
reset_luns (suc j) p i counter = do c ← reset_luns j p i counter; reset_chip p c i j

unfoldable pub reset_counters : ℕ → SsdParams → (ℕ → ℕ) → Run (ℕ → ℕ)
reset_counters zero p counter = ok counter
reset_counters (suc i) p counter = do c ← reset_counters i p counter; reset_luns p.luns_per_ch p i c

module _ {Q : Type 0} where
  -- At the label `out`: the page is the chip's counter.
  abbrev pub at_chip : ConvFtl Q → ℕ → ℕ → ConvFtl Q
  at_chip f ch lun = record f {
    wp = record (f.wp) {
      ch = ch;
      lun = lun;
      pg = u32 (f.page_counter (chip_index f.ssd.sp ch lun));
    };
  }

module _ {Q : Type 0} (pq : Pqueue Q) where
  -- The current line is closed and the next free one is taken, from its first chip on.
  unfoldable pub next_line : ConvFtl Q → IoType → Run (ConvFtl Q)
  next_line f io = do
    let w = get_wp f io
    m ← close_line pq f.lm w.curline f.ssd.sp.pgs_per_line
    check_addr w.blk f.ssd.sp.blks_per_pl
    elim (get_next_free_line m) [
      | none ↦ bug
      | some (i, n) ↦ do
        let id = (n.lines i).id
        check_addr id f.ssd.sp.blks_per_pl
        ok (set_wp (record f { lm = n }) io (record w { curline = i; blk = id }))
    ]

  -- Every chip is full: the counters are reset and the next line begins.
  unfoldable pub all_full : ConvFtl Q → Run (ConvFtl Q)
  all_full f = do
    c ← reset_counters f.ssd.sp.nchs f.ssd.sp f.page_counter
    g ← next_line (record f { page_counter = c }) user_io
    nvmev_assert (g.page_counter 0 == 0)
    ok (at_chip (record g { wp = record (g.wp) { pl = 0 } }) 0 0)

  unfoldable pub advance_user : ConvFtl Q → Run (ConvFtl Q)
  advance_user f = do
    let p = f.ssd.sp
    let w = f.wp
    let idx = chip_index p w.ch w.lun
    check_addr (f.page_counter idx) p.pgs_per_blk
    let g : ConvFtl Q = record f {
      page_counter = update f.page_counter idx (u64 (f.page_counter idx + 1));
    }
    let search = do
      o ← find_room (p.nchs * p.luns_per_ch) p g.page_counter w.ch w.lun w.ch w.lun
      elim o [ none ↦ all_full g | some (c, l) ↦ ok (at_chip g c l) ]
    if not (g.page_counter idx % p.pgs_per_oneshotpg == 0)
        then ok (at_chip g w.ch w.lun)
        else search

  -- The pages of a one-shot page, then the channels, then the dies, then the next one-shot page.
  unfoldable pub advance_gc : ConvFtl Q → Run (ConvFtl Q)
  advance_gc f = do
    let p = f.ssd.sp
    let w = f.gc_wp
    check_addr w.pg p.pgs_per_blk
    let pg = u32 (w.pg + 1)
    let back = sub32 pg p.pgs_per_oneshotpg
    let at : ℕ → ℕ → ℕ → ConvFtl Q =
        λ pg ch lun. record f { gc_wp = record w { pg = pg; ch = ch; lun = lun } }
    let through = do g ← next_line (at 0 0 0) gc_io; nvmev_assert (g.gc_wp.pl == 0); ok g
    let next_lun = do
      check_addr w.lun p.luns_per_ch
      if not (u32 (w.lun + 1) == p.luns_per_ch)
          then ok (at back 0 (u32 (w.lun + 1)))
          else if not (u32 (back + p.pgs_per_oneshotpg) == p.pgs_per_blk)
          then ok (at (u32 (back + p.pgs_per_oneshotpg)) 0 0)
          else through
    let next_ch = do
      check_addr w.ch p.nchs
      if not (u32 (w.ch + 1) == p.nchs) then ok (at back (u32 (w.ch + 1)) w.lun) else next_lun
    if not (pg % p.pgs_per_oneshotpg == 0) then ok (at pg w.ch w.lun) else next_ch

  abbrev pub advance_write_pointer : ConvFtl Q → IoType → Run (ConvFtl Q)
  advance_write_pointer f user_io = advance_user f
  advance_write_pointer f gc_io = advance_gc f
