-- ===== src/Zns/Mgmt/Flush.antt =====
-- An explicit flush of the ZRWA keeps the counts of the zone resources.
use dumping.Zns.Mgmt.Resources.{holds_on, shut, state_at, gives_up, zrwav_at}
use dumping.Base.Run.{Returns, Returns-if, Run, ok, bug}
use dumping.Zns.Address.{lba_to_zone}
use dumping.Zns.Mgmt.{Result, flush_explicit_zrwa, flush_from, move_wp, in_zrwa, flush_whole}
use dumping.Zns.Counts.{IsAccounted, active_in, IsCounted}
use dumping.Base.{
  refl, ℕ, true, ◌<◌, ◌≡◌, if_cases, tests, update_other, ◌∙◌, update, ap, arith, update_same, ◌==◌,
  u64, sub64, ◌+◌, ◌%◌, if◌then◌else◌,
}
use dumping.Zns.Ftl.{
  ZnsFtl, ZoneState, Zone, empty, opened_impl, opened_expl, closed, read_only, full, offline,
  release, change_zone_state, invalid_zone_operation, invalid_field,
}

module _ (leaked : ℕ) (f : ZnsFtl) (zid : ℕ) (c : IsAccounted leaked f) (p : zid < f.zp.nr_zones)
    (zrwav : (f.zone_descs zid).zrwav ≡ true) where
  fills :
      (s : ZoneState) (wp : ℕ)
      → (f.zone_descs zid).state ≡ s
      → active_in s ≡ 1
      → IsCounted leaked f.zp.nr_zones
          (record {
            active_zone = release f.res_infos.active_zone;
            open_zone = shut s f.res_infos.open_zone;
            zrwa_zone = release f.res_infos.zrwa_zone;
          })
          (change_zone_state (move_wp f zid wp) zid full).zone_descs
  fills s wp es act =
      let z : Zone = record (f.zone_descs zid) { wp = wp } in
      gives_up leaked f zid c p s full true true _ es zrwav act refl refl
        (λ i ne.
          update_other (update f.zone_descs zid z) zid _ i ne
          ∙ update_other f.zone_descs zid z i ne)
        (ap (λ (t : Zone). t.state) (update_same (update f.zone_descs zid z) zid _))
        (ap (λ (t : Zone). t.zrwav) (update_same (update f.zone_descs zid z) zid _)
          ∙ zrwav_at leaked f zid c p z
          ∙ zrwav)
        (λ e. cc)

  moves :
      (s : ZoneState) (wp : ℕ)
      → (f.zone_descs zid).state ≡ s
      → active_in s ≡ 1
      → IsAccounted leaked (move_wp f zid wp)
  moves s wp es act =
      holds_on leaked f zid c p s s true true _ es zrwav (update_other f.zone_descs zid _)
        (state_at leaked f zid c p _ ∙ es) (zrwav_at leaked f zid c p _ ∙ zrwav) refl refl refl
        (λ e. absurd (omega (arith, act, ap active_in e)))

  pub flush_from-IsAccounted :
      (s : ZoneState) (slba : ℕ)
      → (f.zone_descs zid).state ≡ s
      → IsAccounted leaked (flush_from s f zid slba).0
  flush_from-IsAccounted opened_impl slba es =
      if_cases (λ (r : Result). IsAccounted leaked r.0) _ _ _ (λ e. fills opened_impl _ es refl)
        (λ e. moves opened_impl _ es refl)
  flush_from-IsAccounted opened_expl slba es =
      if_cases (λ (r : Result). IsAccounted leaked r.0) _ _ _ (λ e. fills opened_expl _ es refl)
        (λ e. moves opened_expl _ es refl)
  flush_from-IsAccounted closed slba es =
      if_cases (λ (r : Result). IsAccounted leaked r.0) _ _ _ (λ e. fills closed _ es refl)
        (λ e. moves closed _ es refl)
  flush_from-IsAccounted empty slba es = c
  flush_from-IsAccounted full slba es = c
  flush_from-IsAccounted read_only slba es = c
  flush_from-IsAccounted offline slba es = c

-- What the flush returns: a refusal, or what the state's case does in a zone with a ZRWA.
pub flush_cases :
    (P : Result → Type 0) (f : ZnsFtl) (slba : ℕ)
    → 0 < f.zp.lbas_per_zrwafg
    → P (f, invalid_zone_operation)
    → P (f, invalid_field)
    → ((f.zone_descs (lba_to_zone f slba)).zrwav ≡ true
        → P (flush_from (f.zone_descs (lba_to_zone f slba)).state f (lba_to_zone f slba) slba))
    → Returns P (flush_explicit_zrwa f slba)
unfolding flush_explicit_zrwa
flush_cases P f slba pos refused odd flushed =
    let zid = lba_to_zone f slba in
    let no : Run Result = ok (f, invalid_zone_operation) in
    let yes_ : Run Result = ok (flush_from (f.zone_descs zid).state f zid slba) in
    let nr_lbas_flush = u64 (sub64 slba (f.zone_descs zid).wp + 1) in
    let granular = nr_lbas_flush % f.zp.lbas_per_zrwafg == 0 in
    let aligned : Run Result = if granular then yes_ else ok (f, invalid_field) in
    Returns-if P (f.zone_descs zid).zrwav
      (if in_zrwa f zid slba then flush_whole f zid slba else no) no
      (λ ev.
        Returns-if P (in_zrwa f zid slba) (flush_whole f zid slba) no
          (λ e.
            Returns-if P (f.zp.lbas_per_zrwafg == 0) bug aligned
              (λ e. absurd (omega (tests, e, pos)))
              (λ e.
                Returns-if P granular yes_ (ok (f, invalid_field)) (λ e. flushed ev) (λ e. odd)))
          (λ e. refused))
      (λ e. refused)

pub flush_explicit_zrwa-IsAccounted :
    (leaked : ℕ) (f : ZnsFtl) (slba : ℕ)
    → IsAccounted leaked f
    → lba_to_zone f slba < f.zp.nr_zones
    → 0 < f.zp.lbas_per_zrwafg
    → Returns (λ (r : Result). IsAccounted leaked r.0) (flush_explicit_zrwa f slba)
flush_explicit_zrwa-IsAccounted leaked f slba c p pos =
    flush_cases (λ (r : Result). IsAccounted leaked r.0) f slba pos c c
      (λ ev. flush_from-IsAccounted leaked f (lba_to_zone f slba) c p ev _ slba refl)
