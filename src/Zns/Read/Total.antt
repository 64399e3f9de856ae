-- ===== src/Zns/Read/Total.antt =====
-- A read returns, and leaves the zones as they are.
use dumping.Zns.Address.Stripe.{ppa_of_lpn_bound, lpn_to_ppa_lem}
use dumping.Ssd.Nand.Transfer.{IsSent, ssd_advance_pcie-Returns}
use dumping.Ssd.Nand.Advance.{cmd_start_keeps, IsAdvanced, ssd_advance_nand-IsAdvanced, reads}
use dumping.Zns.Send.Erase.{advances}
use dumping.Ssd.Nand.{NandCmd, nand_read, cmd_start, ssd_advance_nand, Ssd, get_cell}
use dumping.Zns.Address.{
  ppa_of_lpn, lba_to_zone, zone_secs, check_boundary_error, nr_lbas_from_rw_cmd, lpn_to_zone,
  lba_to_lpn, zone_to_slpn,
}
use dumping.Zns.Read.{
  ReadCmd, read_page, read_loop, read_data, ReadDone, read_start, is_offline, read_status, zns_read,
}
use dumping.Zns.Write.Loop.{IsWritable, IsWritten, IsWritable-step, IsWritten-trans, mapped}
use dumping.Base.{
  mod_lt, div_mono, div_le, refl, zero, suc, ℕ, false, none, ◌≡◌, ◌∙◌, ◌<◌, ◌≢◌, ◌^◌, arith, ◌+◌,
  ◌*◌, ◌≤◌, ◌%◌, min, u64, sub64, ◌-◌, ◌==◌, max, ap, leb, leb→le, ◌/◌, tests, ltb, u16,
}
use dumping.Base.Run.{ok, bug, Returns, Returns-bind, Returns-if, Returns-map}
use dumping.Zns.Ftl.{ZnsFtl, success, ZoneState, offline, err_offline, err_boundary}

-- A device that a read can work on: a oneshot page has at most three flash pages, one of each type
-- of cells.
pub record IsReadable (f : ZnsFtl) : Type 0 where
  pub writable : IsWritable f
  pub pages : 0 < f.device.ssd.sp.pgs_per_flashpg
  pub bytes : 0 < f.device.ssd.sp.pgsz
  pub fits : f.device.ssd.sp.pgs_per_flashpg * f.device.ssd.sp.pgsz < 2 ^ 64
  pub cells : f.device.ssd.sp.pgs_per_oneshotpg ≤ 3 * f.device.ssd.sp.pgs_per_flashpg

IsReadable-step : (f g : ZnsFtl) → IsReadable f → IsWritten f g → IsReadable g
IsReadable-step f g r s = record {
  writable = IsWritable-step f g r.writable s;
  pages = rw s.geometry r.pages;
  bytes = rw s.geometry r.bytes;
  fits = rw s.geometry r.fits;
  cells = rw s.geometry r.cells;
}

-- What a read that stays below zone 2^32 leaves: the last sector tells whether it crosses zones.
pub record IsRead (f : ZnsFtl) (cmd : ReadCmd) (d : ReadDone) : Type 0 where
  pub kept : IsWritten f d.ftl
  pub in_order : read_start f cmd ≤ d.nsecs_target
  pub at_offline :
      (f.zone_descs (lpn_to_zone f (lba_to_lpn f cmd.slba))).state ≡ offline
      → d.status ≡ err_offline
  pub crossing :
      (f.zone_descs (lpn_to_zone f (lba_to_lpn f cmd.slba))).state ≢ offline
      → cmd.slba / zone_secs f ≢ (cmd.slba + cmd.length) / zone_secs f
      → d.status ≡ err_boundary
  pub within :
      (f.zone_descs (lpn_to_zone f (lba_to_lpn f cmd.slba))).state ≢ offline
      → cmd.slba / zone_secs f ≡ (cmd.slba + cmd.length) / zone_secs f
      → d.status ≡ success

-- The bytes of at least one page and at most a flash page.
some_bytes : (pgs pp n : ℕ) → 0 < pgs → pgs ≤ pp → 0 < n → pp * n < 2 ^ 64 → 0 < u64 (pgs * n)
some_bytes pgs pp n pos le pos' fits = grind arith

third : (a n : ℕ) → 0 < n → a < 3 * n → a / n < 3
third a n pos h = grind arith

mod_le : (a n : ℕ) → a % n ≤ a
mod_le a n = grind arith

-- The page of an address lies in the first three flash pages.
get_cell_lt :
    (f : ZnsFtl) (lpn : ℕ) → IsReadable f → get_cell f.device.ssd.sp (ppa_of_lpn f lpn) < 3
unfolding ppa_of_lpn
get_cell_lt f lpn r =
    let p = f.device.ssd.sp in
    let off = sub64 lpn (zone_to_slpn f (lpn_to_zone f lpn)) in
    let low : off % p.pgs_per_oneshotpg < p.pgs_per_oneshotpg =
      mod_lt off p.pgs_per_oneshotpg r.writable.striped.oneshot in
    let pg = u16 (off % p.pgs_per_oneshotpg) in
    let cell = pg / p.pgs_per_flashpg in
    let few : cell < 3 =
      third pg p.pgs_per_flashpg r.pages
        (omega (arith, low, r.cells, mod_le (off % p.pgs_per_oneshotpg) (2 ^ 16))) in
    omega (arith, few, mod_le cell (p.cell_mode + 1))

module _ (cpu_clock : ℕ → ℕ) where
  read_page-IsWritten :
      (f : ZnsFtl) (lpn stime xfer_size : ℕ)
      → IsReadable f
      → 0 < xfer_size
      → Returns (λ (g, t). IsWritten f g) (read_page cpu_clock f (ppa_of_lpn f lpn) stime xfer_size)
  unfolding read_page
  read_page-IsWritten f lpn stime xfer_size w pos =
      let n : NandCmd = record {
        cmd = nand_read;
        xfer_size = xfer_size;
        stime = stime;
        interleave_pci_dma = false;
        ppa = ppa_of_lpn f lpn;
        arrive_time = none;
      } in
      let k = cmd_start_keeps cpu_clock f.device n in
      Returns-bind
        (IsAdvanced (cmd_start cpu_clock f.device n).1 n (cmd_start cpu_clock f.device n).0)
        (λ (g, t). IsWritten f g) (ssd_advance_nand cpu_clock f.device n) _
        (ssd_advance_nand-IsAdvanced cpu_clock f.device n w.writable.valid
          (record {
            ch = (ppa_of_lpn_bound f lpn w.writable.striped).0;
            lun = (ppa_of_lpn_bound f lpn w.writable.striped).1;
          })
          (reads refl pos (get_cell_lt f lpn w)) (mapped f lpn))
        (λ o a. record {
          params = refl;
          infos = refl;
          zones = refl;
          geometry = a.kept.params ∙ ap (λ (s : Ssd). s.sp) k.0;
          valid = a.valid;
        })

  pub read_loop-IsWritten :
      (fuel : ℕ) (f : ZnsFtl) (lpn elpn stime latest : ℕ)
      → IsReadable f
      → elpn < 2 ^ 63
      → elpn + 2 ≤ lpn + fuel
      → lpn ≤ elpn + 1
      → Returns
          (λ (g, t). IsWritten f g × (latest ≤ t))
          (read_loop cpu_clock fuel f lpn elpn stime latest)
  unfolding read_loop
  read_loop-IsWritten zero f lpn elpn stime latest w small fuelled le =
      absurd (omega (arith, fuelled, le))
  read_loop-IsWritten (suc fuel) f lpn elpn stime latest w small fuelled le =
      let P : ZnsFtl × ℕ → Type 0 = λ (g, t). IsWritten f g × (latest ≤ t) in
      let pp = f.device.ssd.sp.pgs_per_flashpg in
      let pg_off = (ppa_of_lpn f lpn).pg % pp in
      let pgs = min (u64 (sub64 elpn lpn + 1)) (pp - pg_off) in
      let off : pg_off < pp = mod_lt _ pp w.pages in
      let same : IsWritten f f = record {
        params = refl;
        infos = refl;
        zones = refl;
        geometry = refl;
        valid = w.writable.valid;
      } in
      Returns-if P (leb lpn elpn) _ (ok (f, latest))
        (λ e.
          let lt : lpn ≤ elpn = leb→le lpn elpn e in
          let next = advances lpn elpn pp pg_off fuel off lt small fuelled in
          rw (lpn_to_ppa_lem f lpn w.writable.striped) (
            Returns-bind (λ (g, t). IsWritten f g) P _ _
              (read_page-IsWritten f lpn stime (u64 (pgs * f.device.ssd.sp.pgsz)) w (
                some_bytes pgs pp f.device.ssd.sp.pgsz (omega (arith, off, lt, small)) (omega arith)
                  w.bytes w.fits))
              (λ (g, t) s.
                Returns-map (λ (h, u). IsWritten g h × (max t latest ≤ u)) P _
                  (read_loop-IsWritten fuel g (u64 (lpn + pgs)) elpn stime (max t latest)
                    (IsReadable-step f g w s) small next.0 next.1)
                  (λ (h, u) s'. (IsWritten-trans f g h s s'.0, omega (arith, s'.1))))))
        (λ e. (same, omega arith))

  read_data-IsWritten :
      (f : ZnsFtl) (cmd : ReadCmd)
      → IsReadable f
      → cmd.slba + cmd.length + 1 < 2 ^ 63
      → Returns (λ (g, t). IsWritten f g × (read_start f cmd ≤ t)) (read_data cpu_clock f cmd)
  unfolding read_data
  read_data-IsWritten f cmd w small =
      let P : ZnsFtl × ℕ → Type 0 = λ (g, t). IsWritten f g × (read_start f cmd ≤ t) in
      let spp = f.device.ssd.sp.secs_per_pg in
      let last = sub64 (u64 (cmd.slba + (cmd.length + 1))) 1 in
      let whole : last ≡ cmd.slba + cmd.length = omega (arith, small) in
      let le : cmd.slba / spp ≤ last / spp =
        div_mono cmd.slba last spp w.writable.sectors (omega (arith, whole)) in
      let bound : last / spp ≤ last = div_le last spp w.writable.sectors in
      Returns-bind P P _ _
        (read_loop-IsWritten (last / spp + 2 - cmd.slba / spp) f (cmd.slba / spp) (last / spp)
          (read_start f cmd) (read_start f cmd) w (omega (arith, bound, whole, small))
          (omega (arith, le)) (omega (arith, le)))
        (λ (g, t) s.
          Returns-bind (IsSent g.device.link t) P _ _
            (ssd_advance_pcie-Returns cpu_clock g.device.link t _ s.0.valid.pcie)
            (λ (k, u) r. (
              record {
                params = s.0.params;
                infos = s.0.infos;
                zones = s.0.zones;
                geometry = s.0.geometry;
                valid = record {
                  channels = s.0.valid.channels;
                  pcie = r.valid;
                  moves = s.0.valid.moves;
                  short = s.0.valid.short;
                  flash = s.0.valid.flash;
                };
              },
              omega (arith, s.1),
            )))

is_offline_lem : (s : ZoneState) → s ≢ offline → is_offline s ≡ false
is_offline_lem s ne = ground (arith, ne)

module _ (f : ZnsFtl) (cmd : ReadCmd) (small : cmd.slba + cmd.length + 1 < 2 ^ 63)
    (fits : (cmd.slba + cmd.length) / zone_secs f < 2 ^ 32) where
  same_zone :
      cmd.slba / zone_secs f < 2 ^ 32
      → check_boundary_error f cmd.slba (nr_lbas_from_rw_cmd cmd.length)
        ≡ (cmd.slba / zone_secs f == (cmd.slba + cmd.length) / zone_secs f)
  unfolding lba_to_zone
  same_zone fits' =
      let last : sub64 (u64 (cmd.slba + (cmd.length + 1))) 1 ≡ cmd.slba + cmd.length =
        omega (arith, small) in
      let first : lba_to_zone f cmd.slba ≡ cmd.slba / zone_secs f = omega (arith, fits') in
      let final : lba_to_zone f (cmd.slba + cmd.length) ≡ (cmd.slba + cmd.length) / zone_secs f =
        omega (arith, fits) in
      rw last (rw final (rw first refl))

  read_status-crossing :
      (zid : ℕ)
      → (f.zone_descs zid).state ≢ offline
      → cmd.slba / zone_secs f < 2 ^ 32
      → cmd.slba / zone_secs f ≢ (cmd.slba + cmd.length) / zone_secs f
      → read_status f zid cmd ≡ err_boundary
  unfolding read_status
  read_status-crossing zid ne fits' apart =
      rw (is_offline_lem _ ne) (rw (same_zone fits') (grind (tests, apart)))

  read_status-within :
      (zid : ℕ)
      → (f.zone_descs zid).state ≢ offline
      → cmd.slba / zone_secs f < 2 ^ 32
      → cmd.slba / zone_secs f ≡ (cmd.slba + cmd.length) / zone_secs f
      → read_status f zid cmd ≡ success
  unfolding read_status
  read_status-within zid ne fits' same =
      rw (is_offline_lem _ ne) (rw (same_zone fits') (grind (tests, same)))

read_status-offline :
    (f : ZnsFtl) (zid : ℕ) (cmd : ReadCmd)
    → (f.zone_descs zid).state ≡ offline
    → read_status f zid cmd ≡ err_offline
unfolding read_status
read_status-offline f zid cmd e = rw e refl

-- A read of an existing zone returns, if the device is readable, with zones striped over whole groups
-- of dies and at most three flash pages in a oneshot page, the read ends below sector 2^63
-- and its zones are numbered below 2^32. No zone, no count and no parameter has changed, and the
-- read ends no earlier than its start with the firmware's latency. An offline zone is refused;
-- else a read whose first and last sectors stand in different zones gets a boundary error, and any
-- other succeeds.
pub zns_read-IsRead :
    (cpu_clock : ℕ → ℕ) (f : ZnsFtl) (cmd : ReadCmd)
    → IsReadable f
    → lpn_to_zone f (lba_to_lpn f cmd.slba) < f.zp.nr_zones
    → cmd.slba + cmd.length + 1 < 2 ^ 63
    → cmd.slba / zone_secs f < 2 ^ 32
    → (cmd.slba + cmd.length) / zone_secs f < 2 ^ 32
    → Returns (IsRead f cmd) (zns_read cpu_clock f cmd)
unfolding zns_read
zns_read-IsRead cpu_clock f cmd w p small fits' fits =
    let zid = lpn_to_zone f (lba_to_lpn f cmd.slba) in
    Returns-if (IsRead f cmd) (ltb zid f.zp.nr_zones) _ bug
      (λ e.
        Returns-bind (λ (g, t). IsWritten f g × (read_start f cmd ≤ t)) (IsRead f cmd)
          (read_data cpu_clock f cmd)
          (λ (g, t). ok (record { ftl = g; status = read_status f zid cmd; nsecs_target = t }))
          (read_data-IsWritten cpu_clock f cmd w small)
          (λ (g, t) s. record {
            kept = s.0;
            in_order = s.1;
            at_offline = λ o. read_status-offline f zid cmd o;
            crossing = λ o. read_status-crossing f cmd small fits zid o fits';
            within = λ o. read_status-within f cmd small fits zid o fits';
          }))
      (λ e. absurd (omega (tests, e, p)))
