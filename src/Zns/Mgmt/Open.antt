-- ===== src/Zns/Mgmt/Open.antt =====
-- Opening a zone keeps the counts of the zone resources.
use dumping.Zns.Mgmt.Resources.{state_at, zrwav_at, zrwa_in_same, zrwa_in_none, holds_on}
use dumping.Zns.Mgmt.{Result, open_closed, open_empty, acquire_active_if, open_from, open_zone_cmd}
use dumping.Zns.Counts.{
  IsAccounted, IsCounted-step, IsMoved-same, IsMoved-acquire, avail, not_full, active_in, open_in,
}
use dumping.Base.{
  refl, ℕ, true, false, ◌<◌, ◌≡◌, Bool, tests, if_cases, update_other, update, ◌∙◌, ap, ◌+◌,
  update_same, arith, if_true, sym,
}
use dumping.Zns.Ftl.{
  ZnsFtl, ZoneState, Zone, empty, opened_impl, opened_expl, closed, read_only, full, offline,
  change_zone_state, acquire_open, acquire_active, set_zone, acquire_zrwa,
}

module _ (leaked : ℕ) (f : ZnsFtl) (zid : ℕ) (c : IsAccounted leaked f)
    (p : zid < f.zp.nr_zones) where
  -- A closed zone is opened.
  pub opens :
      (t : ZoneState)
      → active_in t ≡ 1
      → open_in t ≡ 1
      → (f.zone_descs zid).state ≡ closed
      → f.res_infos.open_zone.acquired_cnt < f.res_infos.open_zone.total_cnt
      → IsAccounted leaked (change_zone_state (acquire_open f) zid t)
  opens t act op es lt =
      IsCounted-step leaked leaked _ zid _ _ _ _ closed t _ _ c p (update_other f.zone_descs zid _)
        es refl (state_at leaked f zid c p _) (zrwav_at leaked f zid c p _)
        (IsMoved-same _ _ _ c.active_bound (sym act))
        (IsMoved-acquire _ _ _ c.open_bound lt (sym op))
        (IsMoved-same _ _ _ c.zrwa_bound (ap (λ k. leaked + k) (zrwa_in_same _ closed t (sym act))))
        (λ e. absurd (omega (arith, act, ap active_in e)))

  -- An empty zone is opened without a ZRWA.
  pub starts :
      (t : ZoneState)
      → active_in t ≡ 1
      → open_in t ≡ 1
      → (f.zone_descs zid).state ≡ empty
      → f.res_infos.active_zone.acquired_cnt < f.res_infos.active_zone.total_cnt
      → f.res_infos.open_zone.acquired_cnt < f.res_infos.open_zone.total_cnt
      → IsAccounted leaked (change_zone_state (acquire_open (acquire_active f)) zid t)
  starts t act op es la lo =
      IsCounted-step leaked leaked _ zid _ _ _ _ empty t _ false c p
        (update_other f.zone_descs zid _) es refl (state_at leaked f zid c p _)
        (zrwav_at leaked f zid c p _ ∙ c.clean zid es)
        (IsMoved-acquire _ _ _ c.active_bound la (sym act))
        (IsMoved-acquire _ _ _ c.open_bound lo (sym op))
        (IsMoved-same _ _ _ c.zrwa_bound (ap (λ k. leaked + k) (zrwa_in_none _ empty refl)))
        (λ e. absurd (omega (arith, act, ap active_in e)))

  -- An empty zone is opened with a ZRWA.
  starts_zrwa :
      (f.zone_descs zid).state ≡ empty
      → f.res_infos.active_zone.acquired_cnt < f.res_infos.active_zone.total_cnt
      → f.res_infos.open_zone.acquired_cnt < f.res_infos.open_zone.total_cnt
      → f.res_infos.zrwa_zone.acquired_cnt < f.res_infos.zrwa_zone.total_cnt
      → IsAccounted leaked (
          change_zone_state
            (acquire_open (
              acquire_active
                (set_zone (acquire_zrwa f) zid (record (f.zone_descs zid) { zrwav = true }))))
            zid
            opened_expl)
  starts_zrwa es la lo lz =
      let z : Zone = record (f.zone_descs zid) { zrwav = true } in
      IsCounted-step leaked leaked _ zid _ _ _ _ empty opened_expl _ true c p
        (λ i ne.
          update_other (update f.zone_descs zid z) zid _ i ne
          ∙ update_other f.zone_descs zid z i ne)
        es refl (ap (λ (t : Zone). t.state) (update_same (update f.zone_descs zid z) zid _))
        (ap (λ (t : Zone). t.zrwav) (update_same (update f.zone_descs zid z) zid _)
          ∙ zrwav_at leaked f zid c p z)
        (IsMoved-acquire _ _ _ c.active_bound la refl) (IsMoved-acquire _ _ _ c.open_bound lo refl)
        (IsMoved-acquire _ _ _ c.zrwa_bound lz
          (omega (arith, zrwa_in_none (f.zone_descs zid).zrwav empty refl)))
        (λ e. cc)

  abbrev Keeps : Result → Type 0
  Keeps r = IsAccounted leaked r.0

  open_closed-Keeps : (f.zone_descs zid).state ≡ closed → Keeps (open_closed f zid)
  open_closed-Keeps es =
      if_cases Keeps _ _ _ (λ e. opens opened_expl refl refl es (omega (tests, e))) (λ e. c)

  -- The last two steps of opening an empty zone, which cannot fail after the tests.
  open_tested :
      (g : ZnsFtl)
      → g.res_infos.active_zone.acquired_cnt < g.res_infos.active_zone.total_cnt
      → g.res_infos.open_zone.acquired_cnt < g.res_infos.open_zone.total_cnt
      → IsAccounted leaked (change_zone_state (acquire_open (acquire_active g)) zid opened_expl)
      → Keeps (open_closed (acquire_active_if g) zid)
  open_tested g la lo h =
      if_true (λ g'. Keeps (open_closed g' zid)) _ _ _ (avail g.res_infos.active_zone la)
        (if_true Keeps _ _ _ (avail g.res_infos.open_zone lo) h)

  open_empty-Keeps :
      (zrwa : Bool) → (f.zone_descs zid).state ≡ empty → Keeps (open_empty f zid zrwa)
  open_empty-Keeps true es =
      if_cases Keeps _ _ _ (λ e. c)
        (λ ea.
          if_cases Keeps _ _ _ (λ e. c)
            (λ eo.
              if_cases Keeps _ _ _ (λ e. c)
                (λ ez.
                  let la = not_full f.res_infos.active_zone c.active_bound ea in
                  let lo = not_full f.res_infos.open_zone c.open_bound eo in
                  let lz = not_full f.res_infos.zrwa_zone c.zrwa_bound ez in
                  let z : Zone = record (f.zone_descs zid) { zrwav = true } in
                  if_true (λ g. Keeps (open_closed (acquire_active_if (set_zone g zid z)) zid)) _ _
                    _ (avail f.res_infos.zrwa_zone lz)
                    (open_tested (set_zone (acquire_zrwa f) zid z) la lo
                      (starts_zrwa es la lo lz)))))
  open_empty-Keeps false es =
      if_cases Keeps _ _ _ (λ e. c)
        (λ ea.
          if_cases Keeps _ _ _ (λ e. c)
            (λ eo.
              let la = not_full f.res_infos.active_zone c.active_bound ea in
              let lo = not_full f.res_infos.open_zone c.open_bound eo in
              open_tested f la lo (starts opened_expl refl refl es la lo)))

  open_from-Keeps :
      (s : ZoneState) (zrwa : Bool) → (f.zone_descs zid).state ≡ s → Keeps (open_from s f zid zrwa)
  open_from-Keeps empty zrwa es = open_empty-Keeps zrwa es
  open_from-Keeps closed zrwa es = open_closed-Keeps es
  open_from-Keeps opened_impl zrwa es =
      holds_on leaked f zid c p opened_impl opened_expl _ _ _ es refl
        (update_other f.zone_descs zid _) (state_at leaked f zid c p _)
        (zrwav_at leaked f zid c p _) refl refl (zrwa_in_same _ opened_impl opened_expl refl)
        (λ e. cc)
  open_from-Keeps opened_expl zrwa es = c
  open_from-Keeps full zrwa es = c
  open_from-Keeps read_only zrwa es = c
  open_from-Keeps offline zrwa es = c

  pub open_zone_cmd-IsAccounted : (zrwa : Bool) → IsAccounted leaked (open_zone_cmd f zid zrwa).0
  unfolding open_zone_cmd
  open_zone_cmd-IsAccounted zrwa = open_from-Keeps _ zrwa refl
