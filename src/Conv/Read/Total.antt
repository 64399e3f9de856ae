-- ===== src/Conv/Read/Total.antt =====
-- A read returns, and changes no table.
use dumping.Ssd.Nand.Advance.{cmd_start_keeps, IsAdvanced, ssd_advance_nand-IsAdvanced, reads}
use dumping.Conv.Read.Live.{
  IsLive, IsReadOnly-trans, IsReadOnly, IsReadOnly-same, device_at, set_ssd-IsLive, IsTables,
  IsTables-same, IsLive-step,
}
use dumping.Conv.Index.{IsIn, valid_ppa-IsIn}
use dumping.Conv.Ftl.{mapped_ppa, valid_ppa, ConvFtl}
use dumping.Conv.Read.{
  read_gathered, read_part, Reading, is_same_flash_page, params, read_parts, clear_first_io,
  conv_read, conv_read_stime, add_wait,
}
use dumping.Ssd.Params.{SsdParams}
use dumping.Ssd.Nand.Transfer
use dumping.Ssd.Ppa.{word, unmapped_ppa, Ppa}
use dumping.Base.{
  mod_lt, div_mono, div_le, zero, suc, ℕ, Bool, true, false, Option, none, ◌≡◌, ◌≢◌, ◌<◌, ◌≤◌, ◌+◌,
  ◌-◌, ◌/◌, ◌%◌, ◌^◌, ltb, leb, refl, arith, tests, ap, ◌∙◌, ◌==◌, ◌||◌, ◌&&◌, if◌then◌else◌,
  if_cases, not, ltb→lt, u32, u64, leb→le, leb→lt, sub64,
}
use dumping.Base.Run.{ok, bug, Returns, Returns-bind, Returns-if, Returns-map}
use dumping.Ssd.Nand.{nand_read, NandCmd, Device, cmd_start, ssd_advance_nand, Ssd, get_cell}
use dumping.Conv.Write.{put_off, completed, ConvNs, ConvCmd, Reply, end_lpn_of, start_lpn_of}

-- The page that is gathered: where it is mapped, it is of the device, and it is mapped if there
-- is anything to read.
record IsGathered (p : SsdParams) (prev : Ppa) (xfer_size : ℕ) : Type 0 where
  is_in : mapped_ppa prev ≡ true → IsIn p prev
  some : 0 < xfer_size → mapped_ppa prev ≡ true

-- What a loop of a read leaves.
record IsReading {Q : Type 0} (n : ConvNs Q) (r : Reading) (y : ConvNs Q × Reading) : Type 0 where
  live : IsLive y.0
  kept : IsReadOnly n y.0
  later : r.latest ≤ y.1.latest

both_true : (a b : Bool) → (not a || not b) ≡ false → (a ≡ true) × (b ≡ true)
both_true true true e = (refl, refl)
both_true true false e = cc
both_true false b e = cc

and_left : (a b : Bool) → (a && b) ≡ true → a ≡ true
and_left true b e = refl
and_left false b e = cc

mapped_word : (a : Ppa) → mapped_ppa a ≡ true → word a ≢ word unmapped_ppa
mapped_word a e h = grind (tests, e, h)

get_cell_bound : (p : SsdParams) (a : Ppa) → p.cell_mode < 3 → get_cell p a < 3
get_cell_bound p a h =
    omega (arith, h, mod_lt (a.pg / p.pgs_per_flashpg) (p.cell_mode + 1) (omega arith))

module _ {Q : Type 0} (cpu_clock : ℕ → ℕ) where
  same-IsReading : (n : ConvNs Q) (r : Reading) → IsLive n → IsReading n r (n, r)
  same-IsReading n r h = record { live = h; kept = IsReadOnly-same n; later = omega arith }

  IsReading-trans :
      (n : ConvNs Q) (r : Reading) (x y : ConvNs Q × Reading)
      → IsReading n r x
      → IsReading x.0 x.1 y
      → IsReading n r y
  IsReading-trans n r x y a b = record {
    live = b.live;
    kept = IsReadOnly-trans n x.0 y.0 a.kept b.kept;
    later = omega (arith, a.later, b.later);
  }

  read_gathered-IsReading :
      (n : ConvNs Q) (i : ℕ) (prev : Ppa) (xfer_size stime : ℕ) (r : Reading)
      → IsLive n
      → i < n.nr_parts
      → IsGathered (n.ftls i).ssd.sp prev xfer_size
      → Returns (IsReading n r) (read_gathered cpu_clock n i prev xfer_size stime r)
  unfolding read_gathered
  read_gathered-IsReading n i prev xfer_size stime r h lt g =
      let P : ConvNs Q × Reading → Type 0 = IsReading n r in
      let c : NandCmd = record {
        cmd = nand_read;
        xfer_size = xfer_size;
        stime = stime;
        interleave_pci_dma = true;
        ppa = prev;
        arrive_time = r.arrive;
      } in
      let d : Device = device_at n i in
      let k = cmd_start_keeps cpu_clock d c in
      Returns-if P (ltb 0 xfer_size) _ (ok (n, r))
        (λ e.
          let pos : 0 < xfer_size = ltb→lt 0 xfer_size e in
          let mapped = g.some pos in
          Returns-bind (IsAdvanced (cmd_start cpu_clock d c).1 c (cmd_start cpu_clock d c).0) P
            (ssd_advance_nand cpu_clock d c) _
            (ssd_advance_nand-IsAdvanced cpu_clock d c (h.valid i lt)
              (record { ch = (g.is_in mapped).ch; lun = (g.is_in mapped).lun })
              (reads refl pos (get_cell_bound (n.ftls i).ssd.sp prev (rw (h.same i lt) h.cells)))
              (mapped_word prev mapped))
            (λ o a.
              let set =
                set_ssd-IsLive n i o.device h lt a.valid
                  (a.kept.params ∙ ap (λ (s : Ssd). s.sp) k.0) in
              record { live = set.0; kept = set.1; later = omega arith }))
        (λ e. same-IsReading n r h)

  read_part-IsReading :
      (fuel : ℕ) (n : ConvNs Q) (i lpn end_lpn stime : ℕ) (prev : Ppa) (xfer_size : ℕ) (r : Reading)
      → IsLive n
      → i < n.nr_parts
      → IsGathered (n.ftls i).ssd.sp prev xfer_size
      → end_lpn < 2 ^ 63
      → n.nr_parts < 2 ^ 32
      → 0 < fuel
      → (lpn ≤ end_lpn → end_lpn + 2 ≤ lpn + fuel)
      → Returns (IsReading n r) (read_part cpu_clock fuel n i lpn end_lpn stime prev xfer_size r)
  unfolding read_part
  read_part-IsReading zero n i lpn end_lpn stime prev xfer_size r h lt g small few pos enough =
      absurd (omega (arith, pos))
  read_part-IsReading (suc fuel) n i lpn end_lpn stime prev xfer_size r h lt g small few pos
        enough =
      let P : ConvNs Q × Reading → Type 0 = IsReading n r in
      let f = n.ftls i in
      let next = u64 (lpn + n.nr_parts) in
      let cur = f.maptbl (lpn / n.nr_parts) in
      Returns-if P (leb lpn end_lpn) _ _
        (λ e.
          let le : lpn ≤ end_lpn = leb→le lpn end_lpn e in
          let ahead : next ≡ lpn + n.nr_parts = omega (arith, le, small, few) in
          let parts = h.parts in
          let left : 0 < fuel = omega (arith, enough le, le) in
          let enough' : next ≤ end_lpn → end_lpn + 2 ≤ next + fuel =
            λ le'. omega (arith, enough le, ahead, parts) in
          Returns-if P (not (mapped_ppa cur) || not (valid_ppa f.ssd.sp cur)) _ _
            (λ skip.
              read_part-IsReading fuel n i next end_lpn stime prev xfer_size r h lt g small few left
                enough')
            (λ here.
              let mapped : mapped_ppa cur ≡ true = (both_true _ _ here).0 in
              let is_in : IsIn f.ssd.sp cur = valid_ppa-IsIn f.ssd.sp cur (both_true _ _ here).1 in
              Returns-if P (mapped_ppa prev && is_same_flash_page f.ssd.sp cur prev) _ _
                (λ join.
                  read_part-IsReading fuel n i next end_lpn stime prev
                    (u32 (xfer_size + (params n).pgsz)) r h lt
                    (record { is_in = g.is_in; some = λ p. and_left _ _ join }) small few left
                    enough')
                (λ split.
                  Returns-bind P P (read_gathered cpu_clock n i prev xfer_size stime r) _
                    (read_gathered-IsReading n i prev xfer_size stime r h lt g)
                    (λ (m, s) k.
                      Returns-map (IsReading m s) P _
                        (read_part-IsReading fuel m i next end_lpn stime cur (u32 (params n).pgsz) s
                          k.live (rw k.kept.parts lt)
                          (record {
                            is_in = λ e'. rw (k.kept.tables i).params is_in;
                            some = λ e'. mapped;
                          })
                          small (rw k.kept.parts few) left enough')
                        (λ y k'. IsReading-trans n r (m, s) y k k')))))
        (λ e. read_gathered-IsReading n i prev xfer_size stime r h lt g)

  read_parts-IsReading :
      (parts : ℕ) (n : ConvNs Q) (start_lpn end_lpn stime : ℕ) (r : Reading)
      → IsLive n
      → end_lpn < 2 ^ 63
      → n.nr_parts < 2 ^ 32
      → end_lpn / n.nr_parts < (params n).tt_pgs
      → Returns (IsReading n r) (read_parts cpu_clock parts n start_lpn end_lpn stime r)
  unfolding read_parts
  read_parts-IsReading zero n start_lpn end_lpn stime r h small few range = same-IsReading n r h
  read_parts-IsReading (suc parts) n start_lpn end_lpn stime r h small few range =
      let P : ConvNs Q × Reading → Type 0 = IsReading n r in
      let i = start_lpn % n.nr_parts in
      let prev = (n.ftls i).maptbl (start_lpn / n.nr_parts) in
      Returns-if P (leb start_lpn end_lpn) _ (ok (n, r))
        (λ e.
          let le : start_lpn ≤ end_lpn = leb→le start_lpn end_lpn e in
          let lt : i < n.nr_parts = mod_lt start_lpn n.nr_parts h.parts in
          let exists : start_lpn / n.nr_parts < (n.ftls i).ssd.sp.tt_pgs =
            rw (h.same i lt)
              (omega (arith, range, div_mono start_lpn end_lpn n.nr_parts h.parts le)) in
          Returns-bind P P
            (read_part cpu_clock (end_lpn + 2 - start_lpn) n i start_lpn end_lpn stime prev 0 r) _
            (read_part-IsReading (end_lpn + 2 - start_lpn) n i start_lpn end_lpn stime prev 0 r h lt
              (record {
                is_in = λ m. (h.mapped i lt (start_lpn / n.nr_parts) exists m).page.is_in;
                some = λ p. absurd (omega (arith, p));
              })
              small few (omega (arith, le)) (λ le'. omega (arith, le)))
            (λ (m, s) k.
              Returns-map (IsReading m s) P _
                (read_parts-IsReading parts m (u64 (start_lpn + 1)) end_lpn stime s k.live small
                  (rw k.kept.parts few) (rw k.kept.parts (rw (k.kept.tables 0).params range)))
                (λ y k'. IsReading-trans n r (m, s) y k k')))
        (λ e. same-IsReading n r h)

clear_first_io-IsLive :
    {Q : Type 0} (n : ConvNs Q)
    → IsLive n
    → IsLive (clear_first_io n) × IsReadOnly n (clear_first_io n)
unfolding clear_first_io
clear_first_io-IsLive {Q = Q} n h =
    let cleared : ConvFtl Q → ConvFtl Q = λ f. record f {
      ssd = record (f.ssd) {
        lun = λ c l.
            if ltb c (params n).nchs && ltb l f.ssd.sp.luns_per_ch
            then record (f.ssd.lun c l) { first_io = false }
            else f.ssd.lun c l;
      };
    } in
    let m : ConvNs Q = record n {
      ftls = λ q. if ltb q n.nr_parts then cleared (n.ftls q) else n.ftls q;
    } in
    let k : IsReadOnly n m = record {
      parts = refl;
      tables = λ j.
          if_cases (λ (x : ConvFtl Q). IsTables (n.ftls j) x) (ltb j n.nr_parts)
            (cleared (n.ftls j)) (n.ftls j)
            (λ e. record { maptbl = refl; rmap = refl; blocks = refl; lm = refl; params = refl })
            (λ e. IsTables-same (n.ftls j));
    } in
    (
      IsLive-step n m h k (λ j lt.
          if_cases (λ (x : ConvFtl Q). Transfer.IsValid (record { ssd = x.ssd; link = n.link }))
            (ltb j n.nr_parts) (cleared (n.ftls j)) (n.ftls j)
            (λ e. record {
              channels = (h.valid j lt).channels;
              pcie = (h.valid j lt).pcie;
              moves = (h.valid j lt).moves;
              short = (h.valid j lt).short;
              flash = (h.valid j lt).flash;
            })
            (λ e. h.valid j lt)),
      k,
    )

IsReadOnly-wait : {Q : Type 0} (n : ConvNs Q) (a : Option ℕ) → IsReadOnly n (add_wait n a)
IsReadOnly-wait n a = record { parts = refl; tables = λ i. IsTables-same (n.ftls i) }

-- What conv_read leaves, and its answer: it is put off if its last page is out of range.
pub record IsAnswered {Q : Type 0} (n : ConvNs Q) (c : ConvCmd) (y : ConvNs Q × Reply)
    : Type 0 where
  pub live : IsLive y.0
  pub kept : IsReadOnly n y.0
  pub out_of_range : (params n).tt_pgs ≤ end_lpn_of (params n) c / n.nr_parts → y.1 ≡ put_off
  pub in_range :
      end_lpn_of (params n) c / n.nr_parts < (params n).tt_pgs
      → (t : ℕ) × (y.1 ≡ completed t) × (c.nsecs_start ≤ t)

-- A read of a namespace whose instances share their parameters, with a cell mode below 3, have their
-- mapped pages in place and have valid devices returns, if it ends below sector 2^63. No table, page state or line of
-- any instance has changed. It is put off if its last page is outside of the instances, and else
-- completed, no earlier than it has started.
pub conv_read-IsAnswered :
    {Q : Type 0} (cpu_clock : ℕ → ℕ) (n : ConvNs Q) (c : ConvCmd)
    → IsLive n
    → n.nr_parts < 2 ^ 32
    → 0 < (params n).secs_per_pg
    → c.slba + c.length + 1 < 2 ^ 63
    → Returns (IsAnswered n c) (conv_read cpu_clock n c)
unfolding conv_read
conv_read-IsAnswered {Q = Q} cpu_clock n c h few secs small =
    let P : ConvNs Q × Reply → Type 0 = IsAnswered n c in
    let (live, kept) = clear_first_io-IsLive n h in
    let m = clear_first_io n in
    let end_lpn = end_lpn_of (params n) c in
    let last : sub64 (u64 (c.slba + (c.length + 1))) 1 < 2 ^ 63 = omega (arith, small) in
    let bound = div_le (sub64 (u64 (c.slba + (c.length + 1))) 1) (params n).secs_per_pg secs in
    let parts = h.parts in
    Returns-if P (n.nr_parts == 0 || (params n).secs_per_pg == 0) bug _
      (λ e. absurd (grind (tests, e, parts, secs)))
      (λ e.
        Returns-if P (leb (params n).tt_pgs (end_lpn / n.nr_parts)) (ok (m, put_off)) _
          (λ out. record {
            live = live;
            kept = kept;
            out_of_range = λ le. refl;
            in_range = λ lt. absurd (omega (tests, out, lt));
          })
          (λ inside.
            let range : end_lpn / n.nr_parts < (params n).tt_pgs = leb→lt _ _ inside in
            let start : Reading = record { arrive = none; latest = c.nsecs_start } in
            Returns-bind (IsReading m start) P
              (read_parts cpu_clock n.nr_parts m (start_lpn_of (params n) c) end_lpn
                (conv_read_stime n c) start)
              _
              (read_parts-IsReading cpu_clock n.nr_parts m (start_lpn_of (params n) c) end_lpn
                (conv_read_stime n c) start live (omega (arith, bound, last)) (rw kept.parts few)
                (rw kept.parts (rw (kept.tables 0).params range)))
              (λ (g, r) k. record {
                live =
                    IsLive-step g (add_wait g r.arrive) k.live (IsReadOnly-wait g r.arrive)
                      k.live.valid;
                kept =
                    IsReadOnly-trans n g (add_wait g r.arrive) (IsReadOnly-trans n m g kept k.kept)
                      (IsReadOnly-wait g r.arrive);
                out_of_range = λ le. absurd (omega (arith, le, range));
                in_range = λ lt. (r.latest, refl, k.later);
              })))
