-- ===== src/Conv/Init.antt =====
-- conv_init_ftl and what it calls (conv_ftl.c).
pub mod Listed
pub mod Fresh
use dumping.Conv.Lines.{init_lines, prepare_write_pointer}
use dumping.Ssd.Ppa.{Ppa, unmapped_ppa}
use dumping.Conv.Pqueue.{Pqueue}
use dumping.Ssd.Params.{SsdParams}
use dumping.Base.{
  ℕ, zero, suc, Bool, true, false, Option, some, none, ◌/◌, ◌%◌, ◌+◌, ◌*◌, ◌-◌, ◌^◌, ◌==◌, ◌&&◌,
  ◌||◌, not, ltb, leb, update, if◌then◌else◌, u32, sub32, u64, sub64, max,
}
use dumping.Base.Run.{Run, ok, bug, out_of_fuel, ◌>>=◌, ◌>>◌, nvmev_assert}
use dumping.Conv.Ftl.{
  pg_free, user_io, gc_io, invalid_lpn, WriteFlowControl, ConvFtl, ConvParams, Blocks,
}

-- The tables that init_maptbl and init_rmap leave: `memory` is what a new array shows before it is
-- written.
abbrev pub blank_maptbl : SsdParams → (ℕ → Ppa) → ℕ → Ppa
blank_maptbl p memory i = if ltb i p.tt_pgs then unmapped_ppa else memory i

abbrev pub blank_rmap : SsdParams → (ℕ → ℕ) → ℕ → ℕ
blank_rmap p memory i = if ltb i p.tt_pgs then invalid_lpn else memory i

-- The loop counters are of type `int`: one that is to pass 2^31 - 1 overflows, a BUG.
unfoldable pub init_maptbl : SsdParams → (ℕ → Ppa) → Run (ℕ → Ppa)
init_maptbl p memory = if ltb p.tt_pgs (2 ^ 31) then ok (blank_maptbl p memory) else bug

unfoldable pub init_rmap : SsdParams → (ℕ → ℕ) → Run (ℕ → ℕ)
init_rmap p memory = if ltb p.tt_pgs (2 ^ 31) then ok (blank_rmap p memory) else bug

-- ssd_init_nand_blk and ssd_init_nand_page (ssd.c): every page of every block is free.
abbrev pub ssd_init_blocks : Blocks
ssd_init_blocks c l p k = record { pg = λ i. pg_free; ipc = 0; vpc = 0; erase_cnt = 0 }

abbrev pub init_write_flow_control : SsdParams → WriteFlowControl
init_write_flow_control p = record {
  write_credits = u32 p.pgs_per_line;
  credits_to_refill = u32 p.pgs_per_line;
}

module _ {Q : Type 0} (pq : Pqueue Q) where
  -- The instance shows `f` before: its device is initialized and its tables are allocated.
  unfoldable pub conv_init_ftl : ConvFtl Q → ConvParams → Run (ConvFtl Q)
  conv_init_ftl f cpp = do
    let p = f.ssd.sp
    maptbl ← init_maptbl p f.maptbl
    rmap ← init_rmap p f.rmap
    m ← init_lines pq p f.lm.lines
    let g : ConvFtl Q = record f { cp = cpp; maptbl = maptbl; rmap = rmap; lm = m }
    h ← prepare_write_pointer g user_io
    k ← prepare_write_pointer h gc_io
    ok (record k { wfc = init_write_flow_control p })
