-- ===== src/Zns/Mgmt/Reset.antt =====
-- Resetting a zone keeps the counts of the zone resources.
use dumping.Zns.Mgmt.Resources.{shut, holds_on, release_if, gives_up, state_at, zrwa_in_none}
use dumping.Zns.Mgmt.{clear_zone, reset_zone, reset_from}
use dumping.Zns.Counts.{IsAccounted, active_in, IsCounted, open_in}
use dumping.Base.{refl, ℕ, true, false, ◌<◌, Bool, ◌≡◌, update_other, ◌∙◌, ap, update_same, ◌≢◌}
use dumping.Zns.Ftl.{
  ZnsFtl, ZoneState, Zone, empty, opened_impl, opened_expl, closed, read_only, full, offline,
  release, change_zone_state,
}

pub clear_zone_other :
    (g : ZnsFtl) (zid i : ℕ) → i ≢ zid → (clear_zone g zid).zone_descs i ≡ g.zone_descs i
unfolding clear_zone
clear_zone_other g zid i ne = update_other g.zone_descs zid _ i ne

-- The zone's entry after __reset_zone.
pub clear_zone_same :
    (g : ZnsFtl) (zid : ℕ)
    → (clear_zone g zid).zone_descs zid
      ≡ record (g.zone_descs zid) { wp = (g.zone_descs zid).zslba; zrwav = false }
unfolding clear_zone
clear_zone_same g zid = update_same g.zone_descs zid _

module _ (leaked : ℕ) (f : ZnsFtl) (zid : ℕ) (c : IsAccounted leaked f)
    (p : zid < f.zp.nr_zones) where
  cleared :
      (s : ZoneState) (b : Bool)
      → (f.zone_descs zid).state ≡ s
      → (f.zone_descs zid).zrwav ≡ b
      → active_in s ≡ 1
      → IsCounted leaked f.zp.nr_zones
          (record {
            active_zone = release f.res_infos.active_zone;
            open_zone = shut s f.res_infos.open_zone;
            zrwa_zone = release_if b f.res_infos.zrwa_zone;
          })
          (clear_zone (change_zone_state f zid empty) zid).zone_descs
  unfolding clear_zone
  cleared s b es eb act =
      gives_up leaked f zid c p s empty b false _ es eb act refl refl
        (λ i ne.
          clear_zone_other (change_zone_state f zid empty) zid i ne
          ∙ update_other f.zone_descs zid _ i ne)
        (ap (λ (t : Zone). t.state) (clear_zone_same (change_zone_state f zid empty) zid)
          ∙ state_at leaked f zid c p _)
        (ap (λ (t : Zone). t.zrwav) (clear_zone_same (change_zone_state f zid empty) zid))
        (λ e. refl)

  emptied :
      (s : ZoneState)
      → (f.zone_descs zid).state ≡ s
      → active_in s ≡ 0
      → open_in s ≡ 0
      → IsAccounted leaked (clear_zone (change_zone_state f zid empty) zid)
  unfolding clear_zone
  emptied s es act op =
      holds_on leaked f zid c p s empty _ false _ es refl
        (λ i ne.
          clear_zone_other (change_zone_state f zid empty) zid i ne
          ∙ update_other f.zone_descs zid _ i ne)
        (ap (λ (t : Zone). t.state) (clear_zone_same (change_zone_state f zid empty) zid)
          ∙ state_at leaked f zid c p _)
        (ap (λ (t : Zone). t.zrwav) (clear_zone_same (change_zone_state f zid empty) zid)) act op
        (zrwa_in_none _ s act) (λ e. refl)

  reset_from-IsAccounted :
      (s : ZoneState) (b : Bool)
      → (f.zone_descs zid).state ≡ s
      → (f.zone_descs zid).zrwav ≡ b
      → IsAccounted leaked (reset_from s b f zid).0
  unfolding clear_zone
  reset_from-IsAccounted opened_impl true es eb = cleared opened_impl true es eb refl
  reset_from-IsAccounted opened_impl false es eb = cleared opened_impl false es eb refl
  reset_from-IsAccounted opened_expl true es eb = cleared opened_expl true es eb refl
  reset_from-IsAccounted opened_expl false es eb = cleared opened_expl false es eb refl
  reset_from-IsAccounted closed true es eb = cleared closed true es eb refl
  reset_from-IsAccounted closed false es eb = cleared closed false es eb refl
  reset_from-IsAccounted empty b es eb = emptied empty es refl refl
  reset_from-IsAccounted full b es eb = emptied full es refl refl
  reset_from-IsAccounted read_only b es eb = c
  reset_from-IsAccounted offline b es eb = c

  pub reset_zone-IsAccounted : IsAccounted leaked (reset_zone f zid).0
  unfolding reset_zone
  reset_zone-IsAccounted = reset_from-IsAccounted _ _ refl refl
