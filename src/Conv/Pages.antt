-- ===== src/Conv/Pages.antt =====
-- The status of pages, and the counters of the blocks and lines (conv_ftl.c).
pub mod Count
pub mod Counted
pub mod Valid
pub mod Invalid
use dumping.Conv.Pqueue.{Pqueue, Line}
use dumping.Base.{
  ℕ, zero, suc, Bool, true, false, List, [], ◌∷◌, u32, sub32, ◌+◌, ◌*◌, ◌-◌, ◌==◌, ◌&&◌, not, ltb,
  leb, update, if◌then◌else◌, ◌||◌,
}
use dumping.Base.Run.{Run, ok, bug, ◌>>=◌, ◌>>◌, nvmev_assert}
use dumping.Ssd.Ppa.{Ppa}
use dumping.Conv.Ftl.{
  PageStatus, pg_free, pg_invalid, pg_valid, LineMgmt, Blocks, ConvFtl, get_blk, get_line, set_blk,
}

-- `a == b` on page states.
abbrev pub is_status : PageStatus → PageStatus → Bool
is_status pg_free pg_free = true
is_status pg_invalid pg_invalid = true
is_status pg_valid pg_valid = true
is_status _ _ = false

-- list_del_init
unfoldable pub remove : ℕ → List ℕ → List ℕ
remove i [] = []
remove i (j ∷ js) = let rest = remove i js in if i == j then rest else j ∷ rest

-- The page and its block, of mark_page_valid.
unfoldable pub valid_in_block : Blocks → Ppa → ℕ → Run Blocks
valid_in_block b a pgs_per_blk = do
  let k = get_blk b a
  nvmev_assert (is_status (k.pg a.pg) pg_free)
  nvmev_assert (ltb k.vpc pgs_per_blk)
  ok (set_blk b a (record k { pg = update k.pg a.pg pg_valid; vpc = k.vpc + 1 }))

-- The page and its block, of mark_page_invalid.
unfoldable pub invalid_in_block : Blocks → Ppa → ℕ → Run Blocks
invalid_in_block b a pgs_per_blk = do
  let k = get_blk b a
  nvmev_assert (is_status (k.pg a.pg) pg_valid)
  nvmev_assert (ltb k.ipc pgs_per_blk)
  nvmev_assert (ltb 0 k.vpc && leb k.vpc pgs_per_blk)
  ok (set_blk b a (record k { pg = update k.pg a.pg pg_invalid; ipc = k.ipc + 1; vpc = k.vpc - 1 }))

module _ {Q : Type 0} where
  abbrev pub set_line : LineMgmt Q → ℕ → Line → LineMgmt Q
  set_line m i l = record m { lines = update m.lines i l }

  unfoldable pub mark_page_valid : ConvFtl Q → Ppa → Run (ConvFtl Q)
  mark_page_valid f a = do
    b ← valid_in_block f.blocks a f.ssd.sp.pgs_per_blk
    let l = get_line f a
    nvmev_assert (ltb l.vpc f.ssd.sp.pgs_per_line)
    ok (record f { blocks = b; lm = set_line f.lm a.blk (record l { vpc = l.vpc + 1 }) })

  module _ (pq : Pqueue Q) where
    -- A queued line changes its priority, which sets its `vpc`.
    unfoldable pub lower_vpc : LineMgmt Q → ℕ → LineMgmt Q
    lower_vpc m i =
        let l = m.lines i in
        let (q, ls) = pq.change_priority m.victim_line_pq m.lines (l.vpc - 1) i in
        if ltb 0 l.pos
        then record m { victim_line_pq = q; lines = ls }
        else set_line m i (record l { vpc = l.vpc - 1 })

    -- A line that was full goes over to the queue of victims.
    unfoldable pub full_to_victim : LineMgmt Q → ℕ → LineMgmt Q
    full_to_victim m i =
        let (q, ls) = pq.insert m.victim_line_pq m.lines i in
        record m {
          full_line_list = remove i m.full_line_list;
          full_line_cnt = sub32 m.full_line_cnt 1;
          victim_line_pq = q;
          lines = ls;
          victim_line_cnt = u32 (m.victim_line_cnt + 1);
        }

    -- The line, of mark_page_invalid.
    unfoldable pub invalid_in_line : LineMgmt Q → ℕ → ℕ → Run (LineMgmt Q)
    invalid_in_line m i pgs_per_line = do
      let l = m.lines i
      nvmev_assert (ltb l.ipc pgs_per_line)
      let was_full_line = l.vpc == pgs_per_line
      nvmev_assert (not was_full_line || l.ipc == 0)
      nvmev_assert (ltb 0 l.vpc && leb l.vpc pgs_per_line)
      let m' = lower_vpc (set_line m i (record l { ipc = l.ipc + 1 })) i
      ok (if was_full_line then full_to_victim m' i else m')

    unfoldable pub mark_page_invalid : ConvFtl Q → Ppa → Run (ConvFtl Q)
    mark_page_invalid f a = do
      b ← invalid_in_block f.blocks a f.ssd.sp.pgs_per_blk
      m ← invalid_in_line f.lm a.blk f.ssd.sp.pgs_per_line
      ok (record f { blocks = b; lm = m })

  -- The assertions on `nsecs` and `npgs` are about fields that ssd_init sets once. Writing a
  -- state to every page of the block is the constant array below `pgs_per_blk`.
  unfoldable pub mark_block_free : ConvFtl Q → Ppa → ConvFtl Q
  mark_block_free f a =
      let k = get_blk f.blocks a in
      record f {
        blocks = set_blk f.blocks a (record k {
          pg = λ i. if ltb i f.ssd.sp.pgs_per_blk then pg_free else k.pg i;
          ipc = 0;
          vpc = 0;
          erase_cnt = k.erase_cnt + 1;
        });
      }
