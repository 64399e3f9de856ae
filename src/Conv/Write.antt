-- ===== src/Conv/Write.antt =====
-- conv_write and the statistics of the written addresses (conv_ftl.c).
pub mod Place
pub mod Map
pub mod Page
pub mod Step
pub mod Healthy
pub mod Round
use dumping.Conv.Gc.{nand, check_and_refill_write_credit, consume_write_credit}
use dumping.Conv.Pages.{mark_page_invalid, mark_page_valid}
use dumping.Ssd.Buffer.{buffer_allocate}
use dumping.Conv.Pointer.{advance_write_pointer}
use dumping.Ssd.Ppa.{Ppa}
use dumping.Conv.Pqueue.{Pqueue}
use dumping.Ssd.Params.{SsdParams}
use dumping.Base.{
  ℕ, zero, suc, Bool, true, false, Option, some, none, List, ◌∷◌, ◌/◌, ◌%◌, ◌+◌, ◌*◌, ◌-◌, ◌^◌,
  ◌==◌, ◌&&◌, ◌||◌, not, ltb, leb, update, if◌then◌else◌, u32, sub32, u64, sub64, max,
}
use dumping.Base.Run.{Run, ok, bug, out_of_fuel, ◌>>=◌, ◌>>◌, nvmev_assert}
use dumping.Conv.Ftl.{
  pg_free, pg_invalid, pg_valid, user_io, gc_io, ConvFtl, get_maptbl_ent, set_rmap_ent,
  get_new_page, last_pg_in_wordline, invalid_lpn, set_maptbl_ent, mapped_ppa,
}
use dumping.Ssd.Nand.{nand_read, nand_write, nand_nop, nand_erase, Link, ssd_advance_write_buffer}

-- struct write_pattern_stats
pub record WriteStats : Type 0 where
  pub prev_lpn : ℕ
  pub total_writes : ℕ
  pub sequential_writes : ℕ
  pub large_jump_writes : ℕ
  pub lpn_delta_sum : ℕ
  pub start : ℕ

-- The absolute value of the difference of two `int64_t`.
abbrev pub abs_delta : ℕ → ℕ → ℕ
abs_delta a b = let d = sub64 a b in if ltb d (2 ^ 63) then d else 2 ^ 64 - d

unfoldable pub track_write : WriteStats → ℕ → WriteStats
track_write s start_lpn =
    let d = abs_delta start_lpn s.prev_lpn in
    let t =
      if ltb 0 s.total_writes
      then record s {
        sequential_writes = u64 (s.sequential_writes + (if leb d 8 then 1 else 0));
        large_jump_writes = u64 (s.large_jump_writes + (if ltb 1024 d then 1 else 0));
        lpn_delta_sum = u64 (s.lpn_delta_sum + d);
      }
      else s in
    record t { prev_lpn = start_lpn; total_writes = u64 (s.total_writes + 1) }

-- A call of schedule_internal_operation: the buffer is the shared write buffer.
pub record BufferOp : Type 0 where
  pub sqid : ℕ
  pub nsecs_target : ℕ
  pub buffs_to_release : ℕ

-- struct nvmev_ns, with the link that its instances share and the internal operations scheduled
-- so far, the last one first.
pub record ConvNs (Q : Type 0) : Type 0 where
  pub ftls : ℕ → ConvFtl Q
  pub nr_parts : ℕ
  pub link : Link
  pub stats : WriteStats
  pub queueing_wait : ℕ
  pub scheduled : List BufferOp

-- The fields of the command and of the request that are used.
pub record ConvCmd : Type 0 where
  pub slba : ℕ
  pub length : ℕ
  pub fua : Bool
  pub sq_id : ℕ
  pub nsecs_start : ℕ

-- A request that is not completed is tried again.
pub data Reply : Type 0 where
  put_off : Reply
  completed : ℕ → Reply

abbrev pub start_lpn_of : SsdParams → ConvCmd → ℕ
start_lpn_of p c = c.slba / p.secs_per_pg

abbrev pub end_lpn_of : SsdParams → ConvCmd → ℕ
end_lpn_of p c = sub64 (u64 (c.slba + (c.length + 1))) 1 / p.secs_per_pg

module _ {Q : Type 0} where
  -- spp, of the first instance
  abbrev pub params : ConvNs Q → SsdParams
  params n = (n.ftls 0).ssd.sp

  abbrev pub set_ftl : ConvNs Q → ℕ → ConvFtl Q → Link → ConvNs Q
  set_ftl n i f k = record n { ftls = update n.ftls i f; link = k }

  -- The page that held the data is invalid from now on, in its line and in the reverse table.
  unfoldable pub drop_old : Pqueue Q → ConvFtl Q → Ppa → Run (ConvFtl Q)
  drop_old pq f a =
      let dropped : Run (ConvFtl Q) = do g ← mark_page_invalid pq f a; set_rmap_ent g invalid_lpn a
      in if mapped_ppa a then dropped else ok f

  -- The tables for a page that is written: the new address, and the FTL before the write pointer
  -- advances.
  unfoldable pub map_page : Pqueue Q → ConvFtl Q → ℕ → Run (ConvFtl Q × Ppa)
  map_page pq f local_lpn = do
    f1 ← drop_old pq f (get_maptbl_ent f local_lpn)
    a ← get_new_page f1 user_io
    f2 ← set_maptbl_ent f1 local_lpn a
    f3 ← set_rmap_ent f2 local_lpn a
    f4 ← mark_page_valid f3 a
    ok (f4, a)

  module _ (cpu_clock : ℕ → ℕ) (pq : Pqueue Q) where
    -- The last page of a wordline programs it and gives its part of the buffer back later.
    unfoldable pub program_wordline : ConvNs Q → ℕ → Ppa → ConvCmd → ℕ → ℕ → Run (ConvNs Q × ℕ)
    program_wordline n i a c stime latest =
        let bytes = u64 ((params n).pgsz * (params n).pgs_per_oneshotpg) in
        let programmed : Run (ConvNs Q × ℕ) = do
          (f, k, t) ← nand cpu_clock (n.ftls i) n.link (record {
            cmd = nand_write;
            xfer_size = bytes;
            stime = stime;
            interleave_pci_dma = false;
            ppa = a;
            arrive_time = some 0;
          })
          let m = set_ftl n i f k
          let op : BufferOp = record {
            sqid = c.sq_id;
            nsecs_target = t;
            buffs_to_release = u32 bytes;
          }
          ok (record m { scheduled = op ∷ n.scheduled }, max t latest)
        in if last_pg_in_wordline (n.ftls i).ssd.sp a then programmed else ok (n, latest)

    -- One round of the loop over the pages.
    unfoldable pub write_lpn : ConvNs Q → ConvCmd → ℕ → ℕ → ℕ → Run (ConvNs Q × ℕ)
    write_lpn n c lpn stime latest = do
      let i = lpn % n.nr_parts
      (f, a) ← map_page pq (n.ftls i) (lpn / n.nr_parts)
      g ← advance_write_pointer pq f user_io
      (m, t) ← program_wordline (set_ftl n i g n.link) i a c stime latest
      (h, k) ← check_and_refill_write_credit cpu_clock pq (consume_write_credit (m.ftls i)) m.link
      ok (set_ftl m i h k, t)

    unfoldable pub conv_write_loop : ℕ → ConvNs Q → ConvCmd → ℕ → ℕ → ℕ → ℕ → Run (ConvNs Q × ℕ)
    conv_write_loop zero n c lpn end_lpn stime latest = out_of_fuel
    conv_write_loop (suc fuel) n c lpn end_lpn stime latest =
        let rest = write_lpn n c lpn stime latest >>= λ (m, t).
        conv_write_loop fuel m c (u64 (lpn + 1)) end_lpn stime t in
        if leb lpn end_lpn then rest else ok (n, latest)

    -- The data of a write for which the buffer had room.
    unfoldable pub conv_write_data : ConvNs Q → ConvCmd → Run (ConvNs Q × Reply)
    conv_write_data n c = do
      let p = params n
      let bytes = (c.length + 1) * 512
      (k, xfer) ← ssd_advance_write_buffer cpu_clock p n.link c.nsecs_start bytes 4
      let start_lpn = start_lpn_of p c
      let end_lpn = end_lpn_of p c
      (m, latest) ←
          conv_write_loop (end_lpn + 2 - start_lpn) (record n { link = k }) c start_lpn end_lpn xfer
            xfer
      ok (m, completed (if c.fua || not p.write_early_completion then latest else xfer))

    unfoldable pub conv_write : ConvNs Q → ConvCmd → Run (ConvNs Q × Reply)
    conv_write n c =
        let p = params n in
        let s = if n.stats.start == 1 then track_write n.stats (start_lpn_of p c) else n.stats in
        let m : ConvNs Q = record n { stats = s } in
        let bytes = (c.length + 1) * 512 in
        let (b, granted) = buffer_allocate n.link.write_buffer bytes in
        let m' : ConvNs Q = record m { link = record (m.link) { write_buffer = b } } in
        let written = conv_write_data m' c in
        if n.nr_parts == 0 || p.secs_per_pg == 0
        then bug
        else if leb p.tt_pgs (end_lpn_of p c / n.nr_parts)
        then ok (m, put_off)
        else if ltb granted bytes
        then ok (m', put_off)
        else written
