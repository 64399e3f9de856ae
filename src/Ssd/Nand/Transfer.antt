-- ===== src/Ssd/Nand/Transfer.antt =====
-- The state invariant of the timing model, and the transfer loop of a read.
use dumping.Base.{
  true, false, refl, zero, suc, ℕ, ◌<◌, ◌≡◌, ◌+◌, ◌*◌, ◌^◌, ◌⊎◌, ◌≤◌, arith, Bool, ◌==◌, min,
  if◌then◌else◌, ◌∙◌, ◌-◌, subst, sym, ap,
}
use dumping.Base.Run.{Returns, Returns-bind, Returns-if, Returns-map}
use dumping.Ssd.Channel.{ChannelModel}
use dumping.Ssd.Channel.Request
use dumping.Ssd.Channel.Request.{IsServed, chmodel_request-IsServed}
use dumping.Ssd.Nand.{
  Link, Device, NandCmd, ssd_advance_pcie, advance_channel, transfer_chunk, transfer_loop,
  SsdParams, CellType, Ssd,
}

-- The latencies are values of the type `int`.
pub record IsShort (p : SsdParams) : Type 0 where
  pub read_4kb : (t : CellType) → p.pg_4kb_rd_lat t < 2 ^ 31
  pub read : (t : CellType) → p.pg_rd_lat t < 2 ^ 31
  pub write : p.pg_wr_lat < 2 ^ 31
  pub erase : p.blk_er_lat < 2 ^ 31

-- Every credit ring is valid, a transfer moves at least a byte at a time, and a flash page has at
-- least a page.
pub record IsValid (d : Device) : Type 0 where
  pub channels : (c : ℕ) → c < d.ssd.sp.nchs → Request.IsValid (d.ssd.perf_model c)
  pub pcie : Request.IsValid d.link.pcie
  pub moves : 0 < d.ssd.sp.max_ch_xfer_size
  pub short : IsShort d.ssd.sp
  pub flash : 0 < d.ssd.sp.pgs_per_flashpg

-- What a command leaves alone.
pub record IsKept (d e : Device) : Type 0 where
  pub params : e.ssd.sp ≡ d.ssd.sp
  pub buffer : e.link.write_buffer ≡ d.link.write_buffer

-- A time that a request at `from` may be given.
abbrev pub Within : ℕ → ℕ → ℕ → Type 0
Within from rounds t = from + rounds * 2 ^ 34 < 2 ^ 64 → (from ≤ t) × (t ≤ from + rounds * 2 ^ 34)

-- A device after a transfer, with the times of the channel and of completion.
pub record IsMoved (d : Device) (from rounds : ℕ) (r : Device × ℕ × ℕ) : Type 0 where
  pub valid : IsValid r.0
  pub kept : IsKept d r.0
  pub dies : r.0.ssd.lun ≡ d.ssd.lun
  pub channel_time : Within from rounds r.1
  pub done_time : from + rounds * 2 ^ 34 < 2 ^ 64 → (r.1 ≤ r.2) × (r.2 ≤ from + rounds * 2 ^ 34)

-- A device after the loop from `from` with `rounds` bytes left and the completion time `completed`.
pub record IsLooped (d : Device) (from rounds completed : ℕ) (r : Device × ℕ × ℕ) : Type 0 where
  pub valid : IsValid r.0
  pub kept : IsKept d r.0
  pub dies : r.0.ssd.lun ≡ d.ssd.lun
  pub times :
      from + (rounds + 1) * 2 ^ 34 < 2 ^ 64
      → (0 < rounds) ⊎ ((from ≤ completed) × (completed ≤ from + 2 ^ 34))
      → (from ≤ r.1) × (r.1 ≤ r.2) × (r.2 ≤ from + (rounds + 1) * 2 ^ 34)

-- One request to the PCIe link, and one to a channel.
pub record IsSent (k : Link) (from : ℕ) (r : Link × ℕ) : Type 0 where
  pub valid : Request.IsValid r.0.pcie
  pub buffer : r.0.write_buffer ≡ k.write_buffer
  pub in_time : from + 2 ^ 33 < 2 ^ 64 → (from ≤ r.1) × (r.1 < from + 2 ^ 33)

pub record IsPassed (d : Device) (from : ℕ) (r : Device × ℕ) : Type 0 where
  pub valid : IsValid r.0
  pub kept : IsKept d r.0
  pub dies : r.0.ssd.lun ≡ d.ssd.lun
  pub in_time : from + 2 ^ 33 < 2 ^ 64 → (from ≤ r.1) × (r.1 < from + 2 ^ 33)

IsValid-if :
    (b : Bool) (m n : ChannelModel)
    → Request.IsValid m
    → Request.IsValid n
    → Request.IsValid (if b then m else n)
IsValid-if true m n v w = v
IsValid-if false m n v w = w

-- Validity is about the parameters, the credit rings and the link alone.
pub IsValid-cong :
    (d : Device) (s : Ssd)
    → s.sp ≡ d.ssd.sp
    → s.perf_model ≡ d.ssd.perf_model
    → IsValid d
    → IsValid (record d { ssd = s })
IsValid-cong d s ep em v = record {
  channels = λ c hc.
      subst Request.IsValid (sym (ap (λ f. f c) em))
        (v.channels c (subst (λ (p : SsdParams). c < p.nchs) ep hc));
  pcie = v.pcie;
  moves = subst (λ (p : SsdParams). 0 < p.max_ch_xfer_size) (sym ep) v.moves;
  short = subst IsShort (sym ep) v.short;
  flash = subst (λ (p : SsdParams). 0 < p.pgs_per_flashpg) (sym ep) v.flash;
}

module _ (cpu_clock : ℕ → ℕ) where
  pub ssd_advance_pcie-Returns :
      (k : Link) (request_time length : ℕ)
      → Request.IsValid k.pcie
      → Returns (IsSent k request_time) (ssd_advance_pcie cpu_clock k request_time length)
  unfolding ssd_advance_pcie
  ssd_advance_pcie-Returns k request_time length v =
      Returns-bind (IsServed k.pcie (cpu_clock k.ticks) request_time) _ _ _
        (chmodel_request-IsServed (cpu_clock k.ticks) k.pcie request_time length v)
        λ r s. record { valid = s.valid; buffer = refl; in_time = s.not_early }

  pub advance_channel-Returns :
      (d : Device) (c request_time length : ℕ)
      → IsValid d
      → c < d.ssd.sp.nchs
      → Returns (IsPassed d request_time) (advance_channel cpu_clock d c request_time length)
  unfolding advance_channel
  advance_channel-Returns d c request_time length v h =
      Returns-bind (IsServed (d.ssd.perf_model c) (cpu_clock d.link.ticks) request_time) _ _ _
        (chmodel_request-IsServed (cpu_clock d.link.ticks) (d.ssd.perf_model c) request_time length
          (v.channels c h))
        λ r s. record {
          valid = record {
            channels =
                λ i hi. IsValid-if (c == i) r.0 (d.ssd.perf_model i) s.valid (v.channels i hi);
            pcie = v.pcie;
            moves = v.moves;
            short = v.short;
            flash = v.flash;
          };
          kept = record { params = refl; buffer = refl };
          dies = refl;
          in_time = s.not_early;
        }

  pub transfer_chunk-IsMoved :
      (d : Device) (n : NandCmd) (chnl_stime xfer_size : ℕ)
      → IsValid d
      → n.ppa.ch < d.ssd.sp.nchs
      → Returns (IsMoved d chnl_stime 1) (transfer_chunk cpu_clock d n chnl_stime xfer_size)
  unfolding transfer_chunk
  transfer_chunk-IsMoved d n chnl_stime xfer_size v h =
      Returns-bind (IsPassed d chnl_stime) (IsMoved d chnl_stime 1) _ _
        (advance_channel-Returns d n.ppa.ch chnl_stime xfer_size v h)
        λ r p.
          Returns-if (IsMoved d chnl_stime 1) n.interleave_pci_dma _ _
            (λ _.
              Returns-bind (IsSent r.0.link r.1) (IsMoved d chnl_stime 1) _ _
                (ssd_advance_pcie-Returns r.0.link r.1 xfer_size p.valid.pcie)
                λ k s. record {
                  valid = record {
                    channels = p.valid.channels;
                    pcie = s.valid;
                    moves = p.valid.moves;
                    short = p.valid.short;
                    flash = p.valid.flash;
                  };
                  kept = record { params = p.kept.params; buffer = s.buffer ∙ p.kept.buffer };
                  dies = p.dies;
                  channel_time = λ f. ground (arith, p.in_time);
                  done_time = λ f. ground (arith, p.in_time, s.in_time);
                })
            λ _. record {
              valid = p.valid;
              kept = p.kept;
              dies = p.dies;
              channel_time = λ f. ground (arith, p.in_time);
              done_time = λ f. ground (arith, p.in_time);
            }

  pub transfer_loop-IsLooped :
      (fuel : ℕ) (d : Device) (n : NandCmd) (remaining chnl_stime completed : ℕ)
      → IsValid d
      → n.ppa.ch < d.ssd.sp.nchs
      → remaining < fuel
      → Returns
          (IsLooped d chnl_stime remaining completed)
          (transfer_loop cpu_clock fuel d n remaining chnl_stime completed)
  unfolding transfer_loop
  transfer_loop-IsLooped zero d n remaining chnl_stime completed v h enough = absurd (omega arith)
  transfer_loop-IsLooped (suc fuel) d n remaining chnl_stime completed v h enough =
      let size = min remaining d.ssd.sp.max_ch_xfer_size in
      let P = IsLooped d chnl_stime remaining completed in
      Returns-if P (remaining == 0) _ _
        (λ none. record {
          valid = v;
          kept = record { params = refl; buffer = refl };
          dies = refl;
          times = λ f g. ground arith;
        })
        λ some.
          Returns-bind (IsMoved d chnl_stime 1) P _ _
            (transfer_chunk-IsMoved d n chnl_stime size v h)
            λ r m.
              Returns-map (IsLooped r.0 r.1 (remaining - size) r.2) P _
                (transfer_loop-IsLooped fuel r.0 n (remaining - size) r.1 r.2 m.valid
                  (subst (λ (p : SsdParams). n.ppa.ch < p.nchs) (sym m.kept.params) h)
                  (ground (arith, v.moves)))
                λ t u. record {
                  valid = u.valid;
                  kept = record {
                    params = u.kept.params ∙ m.kept.params;
                    buffer = u.kept.buffer ∙ m.kept.buffer;
                  };
                  dies = u.dies ∙ m.dies;
                  times = λ f g. ground (arith, v.moves, u.times, m.channel_time, m.done_time);
                }
