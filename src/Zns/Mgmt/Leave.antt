-- ===== src/Zns/Mgmt/Leave.antt =====
-- Closing, finishing and taking offline keep the counts of the zone resources.
use dumping.Zns.Mgmt.Resources.{
  holds_on, shut, state_at, release_if, zrwav_at, gives_up, zrwa_in_none, zrwa_in_same,
}
use dumping.Zns.Mgmt.{finish_zone, close_zone, offline_zone, finish_from, close_from, offline_from}
use dumping.Zns.Counts.{
  IsAccounted, active_in, IsCounted, open_in, IsCounted-step, IsMoved-same, IsMoved-release,
  open_held,
}
use dumping.Base.{refl, ℕ, true, false, ◌<◌, Bool, ◌≡◌, update_other, ◌∙◌, sym, arith, ap, ◌+◌}
use dumping.Zns.Ftl.{
  ZnsFtl, ZoneState, empty, opened_impl, opened_expl, closed, read_only, full, offline, release,
  release_open, change_zone_state,
}

module _ (leaked : ℕ) (f : ZnsFtl) (zid : ℕ) (c : IsAccounted leaked f)
    (p : zid < f.zp.nr_zones) where
  -- A zone of an active state is finished.
  finished :
      (s : ZoneState) (b : Bool)
      → (f.zone_descs zid).state ≡ s
      → (f.zone_descs zid).zrwav ≡ b
      → active_in s ≡ 1
      → IsCounted leaked f.zp.nr_zones
          (record {
            active_zone = release f.res_infos.active_zone;
            open_zone = shut s f.res_infos.open_zone;
            zrwa_zone = release_if b f.res_infos.zrwa_zone;
          })
          (change_zone_state f zid full).zone_descs
  finished s b es eb act =
      gives_up leaked f zid c p s full b b _ es eb act refl refl (update_other f.zone_descs zid _)
        (state_at leaked f zid c p _) (zrwav_at leaked f zid c p _ ∙ eb) (λ e. cc)

  finish_from-IsAccounted :
      (s : ZoneState) (b : Bool)
      → (f.zone_descs zid).state ≡ s
      → (f.zone_descs zid).zrwav ≡ b
      → IsAccounted leaked (finish_from s b f zid).0
  finish_from-IsAccounted opened_impl true es eb = finished opened_impl true es eb refl
  finish_from-IsAccounted opened_impl false es eb = finished opened_impl false es eb refl
  finish_from-IsAccounted opened_expl true es eb = finished opened_expl true es eb refl
  finish_from-IsAccounted opened_expl false es eb = finished opened_expl false es eb refl
  finish_from-IsAccounted closed true es eb = finished closed true es eb refl
  finish_from-IsAccounted closed false es eb = finished closed false es eb refl
  finish_from-IsAccounted empty b es eb =
      holds_on leaked f zid c p empty full b b _ es eb (update_other f.zone_descs zid _)
        (state_at leaked f zid c p _) (zrwav_at leaked f zid c p _ ∙ eb) refl refl
        (zrwa_in_none b empty refl ∙ sym (zrwa_in_none b full refl)) (λ e. cc)
  finish_from-IsAccounted full b es eb = c
  finish_from-IsAccounted read_only b es eb = c
  finish_from-IsAccounted offline b es eb = c

  pub finish_zone-IsAccounted : IsAccounted leaked (finish_zone f zid).0
  unfolding finish_zone
  finish_zone-IsAccounted = finish_from-IsAccounted _ _ refl refl

  closes :
      (s : ZoneState)
      → (f.zone_descs zid).state ≡ s
      → active_in s ≡ 1
      → open_in s ≡ 1
      → IsAccounted leaked (release_open (change_zone_state f zid closed))
  closes s es act op =
      IsCounted-step leaked leaked _ zid _ _ _ _ s closed _ _ c p (update_other f.zone_descs zid _)
        es refl (state_at leaked f zid c p _) (zrwav_at leaked f zid c p _)
        (IsMoved-same _ _ _ c.active_bound act)
        (IsMoved-release _ _ _ c.open_bound
          (omega (arith, open_held leaked f zid c p, ap open_in es)) op)
        (IsMoved-same _ _ _ c.zrwa_bound (ap (λ t. leaked + t) (zrwa_in_same _ s closed act)))
        (λ e. cc)

  close_from-IsAccounted :
      (s : ZoneState) → (f.zone_descs zid).state ≡ s → IsAccounted leaked (close_from s f zid).0
  close_from-IsAccounted opened_impl es = closes opened_impl es refl refl
  close_from-IsAccounted opened_expl es = closes opened_expl es refl refl
  close_from-IsAccounted closed es = c
  close_from-IsAccounted empty es = c
  close_from-IsAccounted full es = c
  close_from-IsAccounted read_only es = c
  close_from-IsAccounted offline es = c

  pub close_zone-IsAccounted : IsAccounted leaked (close_zone f zid).0
  unfolding close_zone
  close_zone-IsAccounted = close_from-IsAccounted _ refl

  offline_from-IsAccounted :
      (s : ZoneState) → (f.zone_descs zid).state ≡ s → IsAccounted leaked (offline_from s f zid).0
  offline_from-IsAccounted read_only es =
      holds_on leaked f zid c p read_only offline _ _ _ es refl (update_other f.zone_descs zid _)
        (state_at leaked f zid c p _) (zrwav_at leaked f zid c p _) refl refl
        (zrwa_in_none _ read_only refl ∙ sym (zrwa_in_none _ offline refl)) (λ e. cc)
  offline_from-IsAccounted opened_impl es = c
  offline_from-IsAccounted opened_expl es = c
  offline_from-IsAccounted closed es = c
  offline_from-IsAccounted empty es = c
  offline_from-IsAccounted full es = c
  offline_from-IsAccounted offline es = c

  pub offline_zone-IsAccounted : IsAccounted leaked (offline_zone f zid).0
  unfolding offline_zone
  offline_zone-IsAccounted = offline_from-IsAccounted _ refl
