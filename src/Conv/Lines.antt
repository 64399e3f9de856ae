-- ===== src/Conv/Lines.antt =====
-- The lines: free, full or queued as victims (conv_ftl.c).
pub mod Sum
use dumping.Ssd.Params.{SsdParams}
use dumping.Conv.Pqueue.{Pqueue, Line}
use dumping.Base.{
  ℕ, zero, suc, Bool, true, false, Option, some, none, List, [], ◌∷◌, ◌++◌, ◌/◌, ◌+◌, ◌*◌, ◌-◌,
  ◌==◌, ◌&&◌, not, ltb, leb, update, if◌then◌else◌, u32, sub32,
}
use dumping.Base.Run.{Run, ok, bug, ◌>>=◌, ◌>>◌, nvmev_assert}
use dumping.Conv.Ftl.{user_io, gc_io, LineMgmt, ConvFtl, IoType, set_wp}

module _ {Q : Type 0} where
  -- The first free line, if there is one.
  unfoldable pub get_next_free_line : LineMgmt Q → Option (ℕ × LineMgmt Q)
  get_next_free_line m = elim (m.free_line_list) [
    | [] ↦ none
    | i ∷ rest ↦
        some (i, record m { free_line_list = rest; free_line_cnt = sub32 m.free_line_cnt 1 })
  ]

  unfoldable pub prepare_write_pointer : ConvFtl Q → IoType → Run (ConvFtl Q)
  prepare_write_pointer f io = elim (get_next_free_line f.lm) [
    | none ↦ bug
    | some (i, m) ↦ ok (
        set_wp (record f { lm = m }) io
          (record { curline = i; ch = 0; lun = 0; pg = 0; blk = (m.lines i).id; pl = 0 }))
  ]

  -- The line is appended to the free list.
  unfoldable pub mark_line_free : LineMgmt Q → ℕ → LineMgmt Q
  mark_line_free m i = record m {
    lines = update m.lines i (record (m.lines i) { ipc = 0; vpc = 0 });
    free_line_list = m.free_line_list ++ i ∷ [];
    free_line_cnt = u32 (m.free_line_cnt + 1);
  }

  -- The loop of init_lines, over the lines from 0 up.
  unfoldable pub init_free : ℕ → LineMgmt Q → LineMgmt Q
  init_free zero m = m
  init_free (suc i) m =
      let m' = init_free i m in
      record m' {
        lines = update m'.lines i (record { id = i; ipc = 0; vpc = 0; pos = 0 });
        free_line_list = m'.free_line_list ++ i ∷ [];
        free_line_cnt = u32 (m'.free_line_cnt + 1);
      }

  module _ (pq : Pqueue Q) where
    -- `memory` is what the new array of lines shows before it is written.
    unfoldable pub init_lines : SsdParams → (ℕ → Line) → Run (LineMgmt Q)
    init_lines p memory = do
      let tt_lines = p.blks_per_pl
      nvmev_assert (tt_lines == p.tt_lines)
      let m : LineMgmt Q = init_free tt_lines (record {
        lines = memory;
        free_line_list = [];
        victim_line_pq = pq.empty;
        full_line_list = [];
        tt_lines = tt_lines;
        free_line_cnt = 0;
        victim_line_cnt = 0;
        full_line_cnt = 0;
      })
      nvmev_assert (m.free_line_cnt == tt_lines)
      ok m

    -- The line at the head of the queue, unless too much of it is valid.
    unfoldable pub select_victim_line : LineMgmt Q → ℕ → Bool → Option (ℕ × LineMgmt Q)
    select_victim_line m pgs_per_line force = elim (pq.peek m.victim_line_pq) [
      | none ↦ none
      | some i ↦
          let (q, ls) = pq.pop m.victim_line_pq m.lines in
          let popped : Option (ℕ × LineMgmt Q) = some (
            i,
            record m {
              victim_line_pq = q;
              lines = update ls i (record (ls i) { pos = 0 });
              victim_line_cnt = sub32 m.victim_line_cnt 1;
            },
          ) in
          if not force && ltb (pgs_per_line / 8) (m.lines i).vpc then none else popped
    ]

    -- The current line is written through: full, or a victim. (advance_write_pointer)
    unfoldable pub close_line : LineMgmt Q → ℕ → ℕ → Run (LineMgmt Q)
    close_line m i pgs_per_line =
        let l = m.lines i in
        let (q, ls) = pq.insert m.victim_line_pq m.lines i in
        let full = do
          nvmev_assert (l.ipc == 0)
          ok (record m {
            full_line_list = m.full_line_list ++ i ∷ [];
            full_line_cnt = u32 (m.full_line_cnt + 1);
          })
        in let victim = do
          nvmev_assert (ltb l.vpc pgs_per_line)
          nvmev_assert (ltb 0 l.ipc)
          ok (record m {
            victim_line_pq = q;
            lines = ls;
            victim_line_cnt = u32 (m.victim_line_cnt + 1);
          })
          in if l.vpc == pgs_per_line then full else victim
