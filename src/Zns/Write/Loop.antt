-- ===== src/Zns/Write/Loop.antt =====
-- The loop over the pages of a write ends, and the write returns.
use dumping.Zns.Send.Erase.{advances}
use dumping.Ssd.Nand.Advance.{cmd_start_keeps, IsAdvanced, ssd_advance_nand-IsAdvanced, writes}
use dumping.Ssd.Ppa.{word, unmapped_ppa}
use dumping.Zns.Write.{program_page, write_loop, WriteCmd}
use dumping.Zns.Address.{ppa_of_lpn, zone_secs}
use dumping.Zns.Address.Stripe.{IsStriped, ppa_of_lpn_bound, IsStriped-cong, lpn_to_ppa_lem}
use dumping.Base.{
  mod_lt, refl, zero, suc, ℕ, false, some, ◌≡◌, ◌∙◌, ◌<◌, ◌≢◌, Bool, ◌^◌, arith, ◌+◌, ◌*◌, ◌≤◌, ◌%◌,
  min, u64, sub64, ◌-◌, ◌==◌, max, ap, if◌then◌else◌, ◌||◌, leb, leb→le, ltb, ◌&&◌, tests,
}
use dumping.Base.Run.{ok, Returns, Returns-bind, ◌>>=◌, Returns-if, Returns-map, Returns-assert}
use dumping.Ssd.Nand.{nand_write, NandCmd, cmd_start, ssd_advance_nand, Ssd}
use dumping.Ssd.Nand.Transfer
use dumping.Zns.Ftl.{ZnsFtl, WriteBuffer}

-- What the data of a write changes: the device, its clock and the operations scheduled.
pub record IsWritten (f g : ZnsFtl) : Type 0 where
  pub params : g.zp ≡ f.zp
  pub infos : g.res_infos ≡ f.res_infos
  pub zones : g.zone_descs ≡ f.zone_descs
  pub geometry : g.device.ssd.sp ≡ f.device.ssd.sp
  pub valid : Transfer.IsValid g.device

-- A device that a write can work on.
pub record IsWritable (f : ZnsFtl) : Type 0 where
  pub striped : IsStriped f
  pub valid : Transfer.IsValid f.device
  pub pages : 0 < f.device.ssd.sp.pgs_per_oneshotpg
  pub sectors : 0 < f.device.ssd.sp.secs_per_pg
  pub zones : 0 < zone_secs f
  pub bytes : 0 < f.device.ssd.sp.pgs_per_oneshotpg * f.device.ssd.sp.pgsz
  pub few_bytes : f.device.ssd.sp.pgs_per_oneshotpg * f.device.ssd.sp.pgsz < 2 ^ 31

pub IsWritten-trans : (f g h : ZnsFtl) → IsWritten f g → IsWritten g h → IsWritten f h
IsWritten-trans f g h a b = record {
  params = b.params ∙ a.params;
  infos = b.infos ∙ a.infos;
  zones = b.zones ∙ a.zones;
  geometry = b.geometry ∙ a.geometry;
  valid = b.valid;
}

pub IsWritable-step : (f g : ZnsFtl) → IsWritable f → IsWritten f g → IsWritable g
IsWritable-step f g w s = record {
  striped = IsStriped-cong f g s.params s.geometry w.striped;
  zones = rw s.params (rw s.geometry w.zones);
  bytes = rw s.geometry w.bytes;
  few_bytes = rw s.geometry w.few_bytes;
  valid = s.valid;
  pages = rw s.geometry w.pages;
  sectors = rw s.geometry w.sectors;
}

-- The address of a page is not the unmapped one.
pub mapped : (f : ZnsFtl) (lpn : ℕ) → word (ppa_of_lpn f lpn) ≢ word unmapped_ppa
unfolding ppa_of_lpn
mapped f lpn e = absurd (omega (arith, e))

module _ (cpu_clock : ℕ → ℕ) where
  program_page-IsWritten :
      (f : ZnsFtl) (cmd : WriteCmd) (wb : WriteBuffer) (lpn stime : ℕ) (at_end : Bool)
      → IsWritable f
      → Returns
          (λ (g, t). IsWritten f g)
          (program_page cpu_clock f cmd wb (ppa_of_lpn f lpn) stime at_end)
  unfolding program_page
  program_page-IsWritten f cmd wb lpn stime at_end w =
      let n : NandCmd = record {
        cmd = nand_write;
        xfer_size = f.device.ssd.sp.pgs_per_oneshotpg * f.device.ssd.sp.pgsz;
        stime = stime;
        interleave_pci_dma = false;
        ppa = ppa_of_lpn f lpn;
        arrive_time = some 0;
      } in
      let k = cmd_start_keeps cpu_clock f.device n in
      let fits = ltb 0 n.xfer_size && ltb n.xfer_size (2 ^ 31) in
      Returns-assert (λ (g, t). IsWritten f g) fits _ (grind (tests, w.bytes, w.few_bytes))
        (Returns-bind
          (IsAdvanced (cmd_start cpu_clock f.device n).1 n (cmd_start cpu_clock f.device n).0)
          (λ (g, t). IsWritten f g) (ssd_advance_nand cpu_clock f.device n) _
          (ssd_advance_nand-IsAdvanced cpu_clock f.device n w.valid
            (record {
              ch = (ppa_of_lpn_bound f lpn w.striped).0;
              lun = (ppa_of_lpn_bound f lpn w.striped).1;
            })
            (writes refl) (mapped f lpn))
          (λ o a. record {
            params = refl;
            infos = refl;
            zones = refl;
            geometry = a.kept.params ∙ ap (λ (s : Ssd). s.sp) k.0;
            valid = a.valid;
          }))

  pub write_loop-IsWritten :
      (fuel : ℕ) (f : ZnsFtl) (cmd : WriteCmd) (wb : WriteBuffer)
      (lpn elpn zone_elpn stime latest : ℕ)
      → IsWritable f
      → elpn < 2 ^ 63
      → elpn + 2 ≤ lpn + fuel
      → lpn ≤ elpn + 1
      → Returns
          (λ (g, t). IsWritten f g)
          (write_loop cpu_clock fuel f cmd wb lpn elpn zone_elpn stime latest)
  unfolding write_loop
  write_loop-IsWritten zero f cmd wb lpn elpn zone_elpn stime latest w small fuelled le =
      absurd (omega (arith, fuelled, le))
  write_loop-IsWritten (suc fuel) f cmd wb lpn elpn zone_elpn stime latest w small fuelled le =
      let P : ZnsFtl × ℕ → Type 0 = λ (g, t). IsWritten f g in
      let pp = f.device.ssd.sp.pgs_per_oneshotpg in
      let pg_off = (ppa_of_lpn f lpn).pg % pp in
      let pgs = min (u64 (sub64 elpn lpn + 1)) (pp - pg_off) in
      let at_end = sub64 (u64 (lpn + pgs)) 1 == zone_elpn in
      let same : IsWritten f f = record {
        params = refl;
        infos = refl;
        zones = refl;
        geometry = refl;
        valid = w.valid;
      } in
      let programmed = program_page cpu_clock f cmd wb (ppa_of_lpn f lpn) stime at_end >>= λ (g, t).
      ok (g, max t latest) in
      let here = if pg_off + pgs == pp || at_end then programmed else ok (f, latest) in
      Returns-if P (leb lpn elpn) _ (ok (f, latest))
        (λ e.
          let next =
            advances lpn elpn pp pg_off fuel (mod_lt _ pp w.pages) (leb→le lpn elpn e) small
              fuelled in
          rw (lpn_to_ppa_lem f lpn w.striped) (
            Returns-bind P P here _
              (Returns-if P (pg_off + pgs == pp || at_end) programmed (ok (f, latest))
                (λ h.
                  Returns-bind P P (program_page cpu_clock f cmd wb (ppa_of_lpn f lpn) stime at_end)
                    _ (program_page-IsWritten f cmd wb lpn stime at_end w) (λ x s. s))
                (λ h. same))
              (λ (g, t) s.
                Returns-map (λ (h, u). IsWritten g h) P _
                  (write_loop-IsWritten fuel g cmd wb (u64 (lpn + pgs)) elpn zone_elpn stime t
                    (IsWritable-step f g w s) small next.0 next.1)
                  (λ (h, u) s'. IsWritten-trans f g h s s'))))
        (λ e. same)
