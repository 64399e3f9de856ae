-- ===== src/Zns/Send/Erase.antt =====
-- The loop over the pages of a reset ends, and changes only the device's dies and clock.
use dumping.Zns.Address.Stripe.{IsStriped, ppa_of_lpn_bound, lpn_to_ppa_lem, IsStriped-cong}
use dumping.Ssd.Nand.{Device, Ssd}
use dumping.Zns.Address.{ppa_of_lpn}
use dumping.Base.Run.{Returns, Returns-if, ok, Returns-map, bug, Run, Returns-bind}
use dumping.Ssd.Ppa.{Ppa}
use dumping.Zns.Send.{reset_die, reset_loop, max_cstime_vs_ioclock}
use dumping.Base.{
  mod_lt, refl, zero, suc, ℕ, ◌≡◌, ◌∙◌, ◌<◌, arith, ◌^◌, ◌+◌, ◌≤◌, ◌%◌, min, u64, sub64, ◌-◌, ◌==◌,
  ◌||◌, if◌then◌else◌, leb, leb→le, ltb, ◌&&◌, ap, tests,
}
use dumping.Zns.Ftl.{ZnsFtl}

pub record IsErased (f g : ZnsFtl) : Type 0 where
  pub params : g.zp ≡ f.zp
  pub infos : g.res_infos ≡ f.res_infos
  pub zones : g.zone_descs ≡ f.zone_descs
  pub geometry : g.device.ssd.sp ≡ f.device.ssd.sp

IsErased-trans : (f g h : ZnsFtl) → IsErased f g → IsErased g h → IsErased f h
IsErased-trans f g h a b = record {
  params = b.params ∙ a.params;
  infos = b.infos ∙ a.infos;
  zones = b.zones ∙ a.zones;
  geometry = b.geometry ∙ a.geometry;
}

-- A round takes at least one page, and none past the last.
pub advances :
    (lpn elpn pp off fuel : ℕ)
    → off < pp
    → lpn ≤ elpn
    → elpn < 2 ^ 63
    → elpn + 2 ≤ lpn + suc fuel
    → (elpn + 2 ≤ u64 (lpn + min (u64 (sub64 elpn lpn + 1)) (pp - off)) + fuel)
      × (u64 (lpn + min (u64 (sub64 elpn lpn + 1)) (pp - off)) ≤ elpn + 1)
advances lpn elpn pp off fuel h le small fuelled = (omega arith, omega arith)

module _ (cpu_clock : ℕ → ℕ) where
  max_cstime_keeps : (t : ℕ) (d : Device) → (max_cstime_vs_ioclock cpu_clock t d).1.ssd ≡ d.ssd
  max_cstime_keeps t d = ground arith

  reset_die-IsErased :
      (f : ZnsFtl) (ppa : Ppa) (cmd_stime maxlat : ℕ)
      → ppa.ch < f.device.ssd.sp.nchs
      → ppa.lun < f.device.ssd.sp.luns_per_ch
      → Returns (λ (g, t, m). IsErased f g) (reset_die cpu_clock f ppa cmd_stime maxlat)
  unfolding reset_die
  reset_die-IsErased f ppa cmd_stime maxlat ch lun =
      let d = (max_cstime_vs_ioclock cpu_clock cmd_stime f.device).1 in
      let e : d.ssd ≡ f.device.ssd = max_cstime_keeps cmd_stime f.device in
      let ch' : ppa.ch < d.ssd.sp.nchs = rw e ch in
      let lun' : ppa.lun < d.ssd.sp.luns_per_ch = rw e lun in
      Returns-if (λ (g, t, m). IsErased f g)
        (ltb ppa.ch d.ssd.sp.nchs && ltb ppa.lun d.ssd.sp.luns_per_ch) _ bug
        (λ _. record {
          params = refl;
          infos = refl;
          zones = refl;
          geometry = ap (λ (s : Ssd). s.sp) e;
        })
        (λ no. absurd (grind (tests, no, ch', lun')))

  pub reset_loop-IsErased :
      (fuel : ℕ) (f : ZnsFtl) (lpn elpn zone_elpn cmd_stime maxlat : ℕ)
      → IsStriped f
      → elpn < 2 ^ 63
      → elpn + 2 ≤ lpn + fuel
      → lpn ≤ elpn + 1
      → Returns
          (λ (g, m). IsErased f g)
          (reset_loop cpu_clock fuel f lpn elpn zone_elpn cmd_stime maxlat)
  unfolding reset_loop
  reset_loop-IsErased zero f lpn elpn zone_elpn cmd_stime maxlat striped small fuelled le =
      absurd (omega (arith, fuelled, le))
  reset_loop-IsErased (suc fuel) f lpn elpn zone_elpn cmd_stime maxlat striped small fuelled le =
      let P : ZnsFtl × ℕ → Type 0 = λ (g, m). IsErased f g in
      let ppa = ppa_of_lpn f lpn in
      let (ch, lun) = ppa_of_lpn_bound f lpn striped in
      let pp = f.device.ssd.sp.pgs_per_oneshotpg in
      let pg_off = ppa.pg % pp in
      let off : pg_off < pp = mod_lt ppa.pg pp striped.oneshot in
      let pgs = min (u64 (sub64 elpn lpn + 1)) (pp - pg_off) in
      let whole = pg_off + pgs == pp || sub64 (u64 (lpn + pgs)) 1 == zone_elpn in
      let erased : Run (ZnsFtl × ℕ × ℕ) =
        if whole then reset_die cpu_clock f ppa cmd_stime maxlat else ok (f, cmd_stime, maxlat) in
      Returns-if P (leb lpn elpn) _ (ok (f, maxlat))
        (λ e.
          let next = advances lpn elpn pp pg_off fuel off (leb→le lpn elpn e) small fuelled in
          rw (lpn_to_ppa_lem f lpn striped) (
            Returns-bind (λ (g, t, m). IsErased f g) P erased _
              (Returns-if (λ (g, t, m). IsErased f g) whole _ (ok (f, cmd_stime, maxlat))
                (λ e. reset_die-IsErased f ppa cmd_stime maxlat ch lun)
                (λ e. record { params = refl; infos = refl; zones = refl; geometry = refl }))
              (λ (g, t, m) step.
                Returns-map (λ (h, m). IsErased g h) P _
                  (reset_loop-IsErased fuel g (u64 (lpn + pgs)) elpn zone_elpn t m
                    (IsStriped-cong f g step.params step.geometry striped) small next.0 next.1)
                  (λ (h, m) k. IsErased-trans f g h step k))))
        (λ e. record { params = refl; infos = refl; zones = refl; geometry = refl })
