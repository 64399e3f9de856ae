-- ===== src/Zns/Write/Admit.antt =====
-- The state of a zone and the resources when a write to it is accepted or refused.
use dumping.Zns.Address.{check_boundary_error}
use dumping.Zns.Mgmt.Open.{opens, starts}
use dumping.Zns.Write.{write_empty, write_from, write_admit, write_closed}
use dumping.Zns.Counts.{IsAccounted, open_in, not_full, avail}
use dumping.Base.{
  refl, ℕ, ◌≡◌, ◌<◌, ◌≢◌, ap, if_cases, ◌∙◌, update_same, not, update_other, ◌==◌, ◌*◌, ◌%◌, tests,
  arith, if_true,
}
use dumping.Zns.Ftl.{
  ZnsFtl, Status, success, ZoneState, Zone, empty, opened_impl, opened_expl, closed, read_only,
  full, offline, change_zone_state, is_zone_resource_avail, acquire_open, invalid_write,
  is_zone_resource_full, no_active_zone, no_open_zone, err_boundary, err_offline, acquire_active,
}
use dumping.Zns.Mgmt.{Result}

-- What the tests of a write leave: an accepted write starts at the write pointer of a zone that is
-- open now, and a refused one changes no zone and no count.
pub record IsAdmitted (leaked : ℕ) (f : ZnsFtl) (zid slba : ℕ) (r : Result) : Type 0 where
  pub counted : IsAccounted leaked r.0
  pub opened : r.1 ≡ success → open_in (r.0.zone_descs zid).state ≡ 1
  pub at_wp : r.1 ≡ success → slba ≡ (f.zone_descs zid).wp
  pub others : (i : ℕ) → i ≢ zid → r.0.zone_descs i ≡ f.zone_descs i
  pub same_wp : (r.0.zone_descs zid).wp ≡ (f.zone_descs zid).wp
  pub same_zrwav : (r.0.zone_descs zid).zrwav ≡ (f.zone_descs zid).zrwav
  pub refused : r.1 ≢ success → (r.0.zone_descs ≡ f.zone_descs) × (r.0.res_infos ≡ f.res_infos)

module _ (leaked : ℕ) (f : ZnsFtl) (zid slba : ℕ) (c : IsAccounted leaked f)
    (p : zid < f.zp.nr_zones) where
  refuses : (s : Status) → s ≢ success → IsAdmitted leaked f zid slba (f, s)
  refuses s ne = record {
    counted = c;
    opened = λ e. absurd (ne e);
    at_wp = λ e. absurd (ne e);
    others = λ i h. refl;
    same_wp = refl;
    same_zrwav = refl;
    refused = λ h. (refl, refl);
  }

  accepts :
      (s : ZoneState)
      → slba ≡ (f.zone_descs zid).wp
      → (f.zone_descs zid).state ≡ s
      → open_in s ≡ 1
      → IsAdmitted leaked f zid slba (f, success)
  accepts s at es op = record {
    counted = c;
    opened = λ e. ap open_in es ∙ op;
    at_wp = λ e. at;
    others = λ i h. refl;
    same_wp = refl;
    same_zrwav = refl;
    refused = λ h. (refl, refl);
  }

  opens_impl :
      (g : ZnsFtl)
      → slba ≡ (f.zone_descs zid).wp
      → g.zone_descs ≡ f.zone_descs
      → IsAccounted leaked (change_zone_state g zid opened_impl)
      → IsAdmitted leaked f zid slba (change_zone_state g zid opened_impl, success)
  opens_impl g at ez k = record {
    counted = k;
    opened = λ e. ap (λ (t : Zone). open_in t.state) (update_same g.zone_descs zid _);
    at_wp = λ e. at;
    others = λ i ne. update_other g.zone_descs zid _ i ne ∙ ap (λ (d : ℕ → Zone). d i) ez;
    same_wp =
        ap (λ (t : Zone). t.wp) (update_same g.zone_descs zid _)
        ∙ ap (λ (d : ℕ → Zone). (d zid).wp) ez;
    same_zrwav =
        ap (λ (t : Zone). t.zrwav) (update_same g.zone_descs zid _)
        ∙ ap (λ (d : ℕ → Zone). (d zid).zrwav) ez;
    refused = λ h. absurd (h refl);
  }

  abbrev Admits : Result → Type 0
  Admits r = IsAdmitted leaked f zid slba r

  write_empty-IsAdmitted :
      slba ≡ (f.zone_descs zid).wp
      → (f.zone_descs zid).state ≡ empty
      → Admits (write_empty f zid slba)
  write_empty-IsAdmitted at es =
      if_cases Admits (not (slba == (f.zone_descs zid).zslba)) _ _
        (λ e. refuses invalid_write (λ e. cc))
        (λ ew.
          if_cases Admits (is_zone_resource_full f.res_infos.active_zone) _ _
            (λ e. refuses no_active_zone (λ e. cc))
            (λ ea.
              if_cases Admits (is_zone_resource_full f.res_infos.open_zone) _ _
                (λ e. refuses no_open_zone (λ e. cc))
                (λ eo.
                  let la = not_full f.res_infos.active_zone c.active_bound ea in
                  let lo = not_full f.res_infos.open_zone c.open_bound eo in
                  if_true (λ h. Admits (write_closed h zid)) _ _ _
                    (avail f.res_infos.active_zone la)
                    (if_true Admits _ _ _ (avail f.res_infos.open_zone lo) (
                      opens_impl (acquire_open (acquire_active f)) at refl
                        (starts leaked f zid c p opened_impl refl refl es la lo))))))

  write_from-IsAdmitted :
      (s : ZoneState)
      → slba ≡ (f.zone_descs zid).wp
      → (f.zone_descs zid).state ≡ s
      → Admits (write_from s f zid slba)
  write_from-IsAdmitted empty at es = write_empty-IsAdmitted at es
  write_from-IsAdmitted closed at es =
      if_cases Admits (is_zone_resource_avail f.res_infos.open_zone) _ _
        (λ e.
          opens_impl (acquire_open f) at refl
            (opens leaked f zid c p opened_impl refl refl es (omega (tests, e))))
        (λ e. refuses no_open_zone (λ e. cc))
  write_from-IsAdmitted opened_impl at es = accepts opened_impl at es refl
  write_from-IsAdmitted opened_expl at es = accepts opened_expl at es refl
  write_from-IsAdmitted full at es = refuses err_offline (λ e. cc)
  write_from-IsAdmitted read_only at es = refuses err_offline (λ e. cc)
  write_from-IsAdmitted offline at es = refuses err_offline (λ e. cc)

  -- The tests of a write of any size to an existing zone keep the counts. A write that they accept
  -- starts at the write pointer, and the zone is open then; a write that they refuse changes no
  -- zone and no count. No other zone changes, and no write pointer.
  pub write_admit-IsAdmitted :
      (nr_lba : ℕ) → IsAdmitted leaked f zid slba (write_admit f zid slba nr_lba)
  unfolding write_admit
  write_admit-IsAdmitted nr_lba =
      if_cases Admits (not (nr_lba * 512 % f.device.ssd.sp.write_unit_size == 0)) _ _
        (λ e. refuses invalid_write (λ e. cc))
        (λ eu.
          if_cases Admits (not (check_boundary_error f slba nr_lba)) _ _
            (λ e. refuses err_boundary (λ e. cc))
            (λ eb.
              if_cases Admits (not (slba == (f.zone_descs zid).wp)) _ _
                (λ e. refuses invalid_write (λ e. cc))
                (λ e. write_from-IsAdmitted _ (ground (arith, e)) refl)))
