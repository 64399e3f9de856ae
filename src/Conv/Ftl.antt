-- ===== src/Conv/Ftl.antt =====
-- conv_ftl.h: the state of an instance of the conventional FTL, and the tables from logical to
-- physical pages and back (conv_ftl.c).
use dumping.Base.{
  ℕ, Bool, List, ◌+◌, ◌*◌, ◌-◌, ◌^◌, ◌%◌, ◌==◌, ◌&&◌, not, ltb, leb, update, if◌then◌else◌,
}
use dumping.Base.Run.{Run, ok, ◌>>=◌, ◌>>◌, nvmev_assert}
use dumping.Conv.Pqueue.{Line}
use dumping.Ssd.Nand.{Ssd}
use dumping.Ssd.Ppa.{Ppa, word, unmapped_ppa}
use dumping.Ssd.Params.{SsdParams}

pub data PageStatus : Type 0 where
  pg_free pg_invalid pg_valid : PageStatus

-- struct nand_block, of whose pages the status is used.
pub record NandBlock : Type 0 where
  pub pg : ℕ → PageStatus
  pub ipc : ℕ
  pub vpc : ℕ
  pub erase_cnt : ℕ

-- The blocks of the device: ch[].lun[].pl[].blk[].
abbrev pub Blocks : Type 0
Blocks = ℕ → ℕ → ℕ → ℕ → NandBlock

abbrev pub get_blk : Blocks → Ppa → NandBlock
get_blk b a = b a.ch a.lun a.pl a.blk

abbrev pub set_blk : Blocks → Ppa → NandBlock → Blocks
set_blk b a v c l p k = if c == a.ch && l == a.lun && p == a.pl && k == a.blk then v else b c l p k

abbrev pub get_pg : Blocks → Ppa → PageStatus
get_pg b a = (get_blk b a).pg a.pg

pub record WritePointer : Type 0 where
  pub curline : ℕ
  pub ch : ℕ
  pub lun : ℕ
  pub pg : ℕ
  pub blk : ℕ
  pub pl : ℕ

-- struct line_mgmt; `Q` is the type of the queue of victim lines.
pub record LineMgmt (Q : Type 0) : Type 0 where
  pub lines : ℕ → Line
  pub free_line_list : List ℕ
  pub victim_line_pq : Q
  pub full_line_list : List ℕ
  pub tt_lines : ℕ
  pub free_line_cnt : ℕ
  pub victim_line_cnt : ℕ
  pub full_line_cnt : ℕ

pub record WriteFlowControl : Type 0 where
  pub write_credits : ℕ
  pub credits_to_refill : ℕ

pub record ConvParams : Type 0 where
  pub gc_thres_lines : ℕ
  pub gc_thres_lines_high : ℕ
  pub enable_gc_delay : Bool
  pub pba_pcent : ℕ

-- struct conv_ftl, with the blocks of its device beside the dies.
pub record ConvFtl (Q : Type 0) : Type 0 where
  pub ssd : Ssd
  pub blocks : Blocks
  pub cp : ConvParams
  pub maptbl : ℕ → Ppa
  pub rmap : ℕ → ℕ
  pub wp : WritePointer
  pub gc_wp : WritePointer
  pub lm : LineMgmt Q
  pub wfc : WriteFlowControl
  pub page_counter : ℕ → ℕ

pub data IoType : Type 0 where
  user_io gc_io : IoType

abbrev pub invalid_lpn : ℕ
invalid_lpn = 2 ^ 64 - 1

-- The index of a page, before it is asserted to be in range. The fields and the parameters are of
-- the type `int` or wider.
abbrev pub page_index : SsdParams → Ppa → ℕ
page_index p a =
    a.ch * p.pgs_per_ch + a.lun * p.pgs_per_lun + a.pl * p.pgs_per_pl + a.blk * p.pgs_per_blk + a.pg

unfoldable pub valid_ppa : SsdParams → Ppa → Bool
valid_ppa p a =
    ltb a.ch p.nchs
    && ltb a.lun p.luns_per_ch
    && ltb a.pl p.pls_per_lun
    && ltb a.blk p.blks_per_pl
    && ltb a.pg p.pgs_per_blk

abbrev pub mapped_ppa : Ppa → Bool
mapped_ppa a = not (word a == word unmapped_ppa)

abbrev pub last_pg_in_wordline : SsdParams → Ppa → Bool
last_pg_in_wordline p a = a.pg % p.pgs_per_oneshotpg == p.pgs_per_oneshotpg - 1

-- The page at a write pointer, with the widths of the bit fields.
abbrev pub new_page : WritePointer → Ppa
new_page w = record {
  pg = w.pg % 2 ^ 16;
  blk = w.blk % 2 ^ 16;
  pl = w.pl % 2 ^ 8;
  lun = w.lun % 2 ^ 8;
  ch = w.ch % 2 ^ 8;
  rsv = 0;
}

abbrev pub check_addr : ℕ → ℕ → Run (Unit {0})
check_addr a max = nvmev_assert (ltb a max)

module _ {Q : Type 0} where
  unfoldable pub ppa2pgidx : ConvFtl Q → Ppa → Run ℕ
  ppa2pgidx f a = do
    nvmev_assert (ltb (page_index f.ssd.sp a) f.ssd.sp.tt_pgs)
    ok (page_index f.ssd.sp a)

  abbrev pub valid_lpn : ConvFtl Q → ℕ → Bool
  valid_lpn f lpn = ltb lpn f.ssd.sp.tt_pgs

  -- A read of the array outside of it is not modelled: the callers check the page first.
  abbrev pub get_maptbl_ent : ConvFtl Q → ℕ → Ppa
  get_maptbl_ent f lpn = f.maptbl lpn

  unfoldable pub set_maptbl_ent : ConvFtl Q → ℕ → Ppa → Run (ConvFtl Q)
  set_maptbl_ent f lpn a = do
    nvmev_assert (ltb lpn f.ssd.sp.tt_pgs)
    ok (record f { maptbl = update f.maptbl lpn a })

  unfoldable pub get_rmap_ent : ConvFtl Q → Ppa → Run ℕ
  get_rmap_ent f a = do i ← ppa2pgidx f a; ok (f.rmap i)

  unfoldable pub set_rmap_ent : ConvFtl Q → ℕ → Ppa → Run (ConvFtl Q)
  set_rmap_ent f lpn a = do i ← ppa2pgidx f a; ok (record f { rmap = update f.rmap i lpn })

  abbrev pub should_gc_high : ConvFtl Q → Bool
  should_gc_high f = leb f.lm.free_line_cnt f.cp.gc_thres_lines_high

  abbrev pub get_wp : ConvFtl Q → IoType → WritePointer
  get_wp f user_io = f.wp
  get_wp f gc_io = f.gc_wp

  abbrev pub set_wp : ConvFtl Q → IoType → WritePointer → ConvFtl Q
  set_wp f user_io w = record f { wp = w }
  set_wp f gc_io w = record f { gc_wp = w }

  abbrev pub get_line : ConvFtl Q → Ppa → Line
  get_line f a = f.lm.lines a.blk

  unfoldable pub get_new_page : ConvFtl Q → IoType → Run Ppa
  get_new_page f io = do
    nvmev_assert ((new_page (get_wp f io)).pl == 0)
    ok (new_page (get_wp f io))
