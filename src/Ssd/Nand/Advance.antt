-- ===== src/Ssd/Nand/Advance.antt =====
-- ssd_advance_nand: a command holds its die, and no other.
use dumping.Base.{
  true, false, refl, ℕ, max, ◌+◌, ◌≢◌, ◌≡◌, ◌<◌, ◌^◌, ◌⊎◌, arith, ◌*◌, ◌≤◌, ap, u64, if◌then◌else◌,
  ◌==◌, ◌&&◌, tests, ==→eq, ◌∙◌, subst, sym, Bool, ◌||◌, ltb, leb,
}
use dumping.Base.Run.{Returns, Returns-bind, Returns-if, bug}
use dumping.Ssd.Ppa.{Ppa, word, unmapped_ppa}
use dumping.Ssd.Nand.{
  Ssd, Device, NandCmd, Outcome, NandOp, nand_read, nand_write, nand_erase, nand_nop, do_read,
  do_write, do_hold, dispatch, ssd_advance_nand, cmd_start, note_wait, occupy, SsdParams,
  read_latency, get_cell, cell_type,
}
use dumping.Ssd.Nand.Transfer.{
  IsValid, IsKept, IsShort, IsValid-cong, IsLooped, transfer_loop-IsLooped, IsPassed,
  advance_channel-Returns,
}

-- The time until which a die is busy.
abbrev pub avail : Device → ℕ → ℕ → ℕ
avail d c l = (d.ssd.lun c l).next_lun_avail_time

-- When a command with start time `stime` gets its die.
abbrev pub begins : Device → NandCmd → ℕ → ℕ
begins d n stime = max (avail d n.ppa.ch n.ppa.lun) stime

-- No time in sight reaches 2^64.
abbrev pub Fits : Device → NandCmd → ℕ → Type 0
Fits d n stime = begins d n stime + 2 ^ 32 + (n.xfer_size + 1) * 2 ^ 34 < 2 ^ 64

pub record IsAdvanced (d : Device) (n : NandCmd) (stime : ℕ) (o : Outcome) : Type 0 where
  pub valid : IsValid o.device
  pub kept : IsKept d o.device
  pub others : (c l : ℕ) → (c ≢ n.ppa.ch) ⊎ (l ≢ n.ppa.lun) → avail o.device c l ≡ avail d c l
  pub serial :
      Fits d n stime
      → (begins d n stime ≤ avail o.device n.ppa.ch n.ppa.lun)
        × (avail o.device n.ppa.ch n.ppa.lun ≤ o.time)

-- The statistics leave the times of the dies.
note_wait_avail :
    (s : Ssd) (n : NandCmd) (a b c l : ℕ)
    → ((note_wait s n a b).0.lun c l).next_lun_avail_time ≡ (s.lun c l).next_lun_avail_time
unfolding note_wait
note_wait_avail s n a b c l = ground arith

note_wait_keeps :
    (s : Ssd) (n : NandCmd) (a b : ℕ)
    → ((note_wait s n a b).0.sp ≡ s.sp) × ((note_wait s n a b).0.perf_model ≡ s.perf_model)
unfolding note_wait
note_wait_keeps s n a b = ground arith

avail-occupy :
    (d : Device) (a : Ppa) (t c l : ℕ)
    → avail (occupy d a t) c l ≡ (if c == a.ch && l == a.lun then t else avail d c l)
avail-occupy d a t c l = ground arith

avail_cong : (d e : Device) (c l : ℕ) → e.ssd.lun ≡ d.ssd.lun → avail e c l ≡ avail d c l
avail_cong d e c l p = ap (λ f. (f c l).next_lun_avail_time) p

read_latency-lt : (p : SsdParams) (n : NandCmd) → IsShort p → read_latency p n < 2 ^ 31
read_latency-lt p n v =
    ground (arith, v.read_4kb (cell_type (get_cell p n.ppa)), v.read (cell_type (get_cell p n.ppa)))

module _ (cpu_clock : ℕ → ℕ) (d : Device) (n : NandCmd) (stime : ℕ) (v : IsValid d)
    (h : n.ppa.ch < d.ssd.sp.nchs) where
  do_hold-IsAdvanced :
      (latency : ℕ)
      → latency < 2 ^ 31
      → Returns (IsAdvanced d n stime) (do_hold cpu_clock d n stime latency)
  unfolding do_hold
  do_hold-IsAdvanced latency small = record {
    valid = record {
      channels = v.channels;
      pcie = v.pcie;
      moves = v.moves;
      short = v.short;
      flash = v.flash;
    };
    kept = record { params = refl; buffer = refl };
    others = λ c l e. ground arith;
    serial = λ f. ground arith;
  }

  do_write-IsAdvanced : Returns (IsAdvanced d n stime) (do_write cpu_clock d n stime)
  unfolding do_write
  do_write-IsAdvanced =
      Returns-bind (IsPassed d (begins d n stime)) (IsAdvanced d n stime) _ _
        (advance_channel-Returns cpu_clock d n.ppa.ch (begins d n stime) n.xfer_size v h)
        λ r p. record {
          valid = record {
            channels = p.valid.channels;
            pcie = p.valid.pcie;
            moves = p.valid.moves;
            short = p.valid.short;
            flash = p.valid.flash;
          };
          kept = record { params = p.kept.params; buffer = p.kept.buffer };
          others = λ c l e. ground (
            arith,
            avail-occupy r.0 n.ppa (u64 (r.1 + d.ssd.sp.pg_wr_lat)) c l,
            avail_cong d r.0 c l p.dies,
          );
          serial = λ f. ground (
            arith,
            p.in_time,
            v.short.write,
            avail-occupy r.0 n.ppa (u64 (r.1 + d.ssd.sp.pg_wr_lat)) n.ppa.ch n.ppa.lun,
          );
        }

  do_read-IsAdvanced :
      0 < n.xfer_size
      → get_cell d.ssd.sp n.ppa < 3
      → Returns (IsAdvanced d n stime) (do_read cpu_clock d n stime)
  unfolding do_read
  do_read-IsAdvanced some cell =
      Returns-if P (n.xfer_size == 0 || leb 3 (get_cell d.ssd.sp n.ppa)) _ _
        (λ none. absurd (grind (tests, none, some, cell)))
        λ _.
          Returns-bind (IsLooped e etime n.xfer_size 0) P _ _
            (transfer_loop-IsLooped cpu_clock (n.xfer_size + 1) e n n.xfer_size etime 0 ve
              (subst (λ (p : SsdParams). n.ppa.ch < p.nchs) (sym ks.0) h) (omega arith))
            λ r t. record {
              valid = record {
                channels = t.valid.channels;
                pcie = t.valid.pcie;
                moves = t.valid.moves;
                short = t.valid.short;
                flash = t.valid.flash;
              };
              kept = record { params = t.kept.params ∙ ks.0; buffer = t.kept.buffer };
              others = λ c l apart. ground (
                arith,
                avail-occupy r.0 n.ppa r.1 c l,
                avail_cong e r.0 c l t.dies,
                note_wait_avail d.ssd n (begins d n stime) stime c l,
              );
              serial = λ f. ground (
                arith,
                t.times,
                read_latency-lt d.ssd.sp n v.short,
                avail-occupy r.0 n.ppa r.1 n.ppa.ch n.ppa.lun,
              );
            }
    where
      P : Outcome → Type 0
      P = IsAdvanced d n stime

      e : Device
      e = record d { ssd = (note_wait d.ssd n (begins d n stime) stime).0 }

      etime : ℕ
      etime = u64 (begins d n stime + read_latency d.ssd.sp n)

      ks : (e.ssd.sp ≡ d.ssd.sp) × (e.ssd.perf_model ≡ d.ssd.perf_model)
      ks = note_wait_keeps d.ssd n (begins d n stime) stime

      ve : IsValid e
      ve = IsValid-cong d e.ssd ks.0 ks.1 v

-- A command of a kind that ssd_advance_nand knows. If it reads, it has bytes to read, from one of
-- the three types of cells.
pub data IsKnown (p : SsdParams) (n : NandCmd) : Type 0 where
  reads : n.cmd ≡ nand_read → 0 < n.xfer_size → get_cell p n.ppa < 3 → IsKnown p n
  writes : n.cmd ≡ nand_write → IsKnown p n
  erases : n.cmd ≡ nand_erase → IsKnown p n
  waits : n.cmd ≡ nand_nop → IsKnown p n

-- The channel and the die of an address exist.
pub record IsReached (p : SsdParams) (a : Ppa) : Type 0 where
  pub ch : a.ch < p.nchs
  pub lun : a.lun < p.luns_per_ch

module _ (cpu_clock : ℕ → ℕ) (d : Device) (n : NandCmd) (stime : ℕ) (v : IsValid d)
    (h : n.ppa.ch < d.ssd.sp.nchs) where
  dispatch_at :
      (op : NandOp)
      → n.cmd ≡ op
      → Returns (IsAdvanced d n stime) (dispatch cpu_clock op d n stime)
      → Returns (IsAdvanced d n stime) (dispatch cpu_clock n.cmd d n stime)
  dispatch_at op e r =
      subst (λ o. Returns (IsAdvanced d n stime) (dispatch cpu_clock o d n stime)) (sym e) r

  dispatch-IsAdvanced :
      IsKnown d.ssd.sp n → Returns (IsAdvanced d n stime) (dispatch cpu_clock n.cmd d n stime)
  unfolding dispatch
  dispatch-IsAdvanced (reads e some cell) =
      dispatch_at nand_read e (do_read-IsAdvanced cpu_clock d n stime v h some cell)
  dispatch-IsAdvanced (writes e) =
      dispatch_at nand_write e (do_write-IsAdvanced cpu_clock d n stime v h)
  dispatch-IsAdvanced (erases e) =
      dispatch_at nand_erase e
        (do_hold-IsAdvanced cpu_clock d n stime v h d.ssd.sp.blk_er_lat v.short.erase)
  dispatch-IsAdvanced (waits e) =
      dispatch_at nand_nop e (do_hold-IsAdvanced cpu_clock d n stime v h 0 (omega arith))

-- Reading the clock for the start time changes the count of readings alone.
pub cmd_start_keeps :
    (cpu_clock : ℕ → ℕ) (d : Device) (n : NandCmd)
    → ((cmd_start cpu_clock d n).1.ssd ≡ d.ssd)
      × ((cmd_start cpu_clock d n).1.link.pcie ≡ d.link.pcie)
      × ((cmd_start cpu_clock d n).1.link.write_buffer ≡ d.link.write_buffer)
cmd_start_keeps cpu_clock d n = ground arith

IsValid-if :
    (b : Bool) (t u : ℕ) (d e : Device)
    → IsValid d
    → IsValid e
    → IsValid (if◌then◌else◌ {A = ℕ × Device} b (t, d) (u, e)).1
IsValid-if true t u d e v w = v
IsValid-if false t u d e v w = w

pub cmd_start-IsValid :
    (cpu_clock : ℕ → ℕ) (d : Device) (n : NandCmd) → IsValid d → IsValid (cmd_start cpu_clock d n).1
cmd_start-IsValid cpu_clock d n v =
    IsValid-if (n.stime == 0) _ _ _ d
      (record {
        channels = v.channels;
        pcie = v.pcie;
        moves = v.moves;
        short = v.short;
        flash = v.flash;
      })
      v

-- ssd_advance_nand of a known command to a mapped address on an existing channel and die raises no
-- BUG and ends, with the device valid, if a read is of one of the three cell types. It changes the busy time of no die but the command's own; that
-- die is busy from no earlier than its previous end and the command's start, up to no later than
-- the completion time returned, where the times stay below 2^64.
pub ssd_advance_nand-IsAdvanced :
    (cpu_clock : ℕ → ℕ) (d : Device) (n : NandCmd)
    → IsValid d
    → IsReached d.ssd.sp n.ppa
    → IsKnown d.ssd.sp n
    → word n.ppa ≢ word unmapped_ppa
    → Returns
        (IsAdvanced (cmd_start cpu_clock d n).1 n (cmd_start cpu_clock d n).0)
        (ssd_advance_nand cpu_clock d n)
unfolding ssd_advance_nand
ssd_advance_nand-IsAdvanced cpu_clock d n v h known mapped =
    let (stime, d') = cmd_start cpu_clock d n in
    let k = cmd_start_keeps cpu_clock d n in
    Returns-if (IsAdvanced d' n stime) (word n.ppa == word unmapped_ppa) _ _
      (λ e. absurd (mapped (==→eq _ _ e)))
      λ _.
        Returns-if (IsAdvanced d' n stime)
          (ltb n.ppa.ch d.ssd.sp.nchs
            && ltb n.ppa.lun d.ssd.sp.luns_per_ch
            && ltb 0 d.ssd.sp.pgs_per_flashpg)
          _ bug
          (λ e.
            dispatch-IsAdvanced cpu_clock d' n stime (cmd_start-IsValid cpu_clock d n v)
              (subst (λ (s : Ssd). n.ppa.ch < s.sp.nchs) (sym k.0) h.ch)
              (subst (λ (s : Ssd). IsKnown s.sp n) (sym k.0) known))
          (λ e. absurd (grind (tests, e, h.ch, h.lun, v.flash)))
