-- ===== src/Zns/Mgmt/Resources.antt =====
-- What a zone gives up and what it keeps when its state changes.
use dumping.Zns.Counts.{
  IsBounded, IsAccounted, open_in, active_in, IsMoved, zrwa_in, IsMoved-release, IsCounted,
  IsMoved-same, IsCounted-step, active_held, zrwa_held, IsMoved-to, open_held,
}
use dumping.Base.{
  refl, ℕ, true, false, Bool, if◌then◌else◌, ◌<◌, ◌≤◌, ◌≡◌, ◌+◌, ◌≢◌, arith, ap, update, sym,
  update_same,
}
use dumping.Zns.Ftl.{
  ZnsFtl, ZoneState, Zone, empty, opened_impl, opened_expl, closed, read_only, full, offline,
  ZoneResourceInfo, release,
}

-- What a zone gives up that becomes inactive.
abbrev pub shut : ZoneState → ZoneResourceInfo → ZoneResourceInfo
shut opened_impl r = release r
shut opened_expl r = release r
shut closed r = r
shut empty r = r
shut read_only r = r
shut full r = r
shut offline r = r

abbrev pub release_if : Bool → ZoneResourceInfo → ZoneResourceInfo
release_if b r = if b then release r else r

shut-IsMoved :
    (s : ZoneState) (r : ZoneResourceInfo)
    → IsBounded r
    → open_in s ≤ r.acquired_cnt
    → IsMoved (open_in s) 0 r (shut s r)
shut-IsMoved opened_impl r u h = IsMoved-release 1 0 r u h refl
shut-IsMoved opened_expl r u h = IsMoved-release 1 0 r u h refl
shut-IsMoved closed r u h = IsMoved-same 0 0 r u refl
shut-IsMoved empty r u h = IsMoved-same 0 0 r u refl
shut-IsMoved read_only r u h = IsMoved-same 0 0 r u refl
shut-IsMoved full r u h = IsMoved-same 0 0 r u refl
shut-IsMoved offline r u h = IsMoved-same 0 0 r u refl

release_if-IsMoved :
    (b : Bool) (s : ZoneState) (k : ℕ) (r : ZoneResourceInfo)
    → IsBounded r
    → active_in s ≡ 1
    → k + zrwa_in b s ≤ r.acquired_cnt
    → IsMoved (k + zrwa_in b s) k r (release_if b r)
release_if-IsMoved true s k r u e h = IsMoved-release _ _ r u h (omega (arith, e))
release_if-IsMoved false s k r u e h = IsMoved-same _ _ r u (omega arith)

pub zrwa_in_same :
    (b : Bool) (s s' : ZoneState) → active_in s ≡ active_in s' → zrwa_in b s ≡ zrwa_in b s'
zrwa_in_same true s s' e = e
zrwa_in_same false s s' e = refl

pub zrwa_in_none : (b : Bool) (s : ZoneState) → active_in s ≡ 0 → zrwa_in b s ≡ 0
zrwa_in_none true s e = e
zrwa_in_none false s e = refl

module _ (leaked : ℕ) (f : ZnsFtl) (zid : ℕ) (c : IsAccounted leaked f)
    (p : zid < f.zp.nr_zones) where
  pub at_zrwa :
      (s : ZoneState) (b : Bool)
      → (f.zone_descs zid).state ≡ s
      → (f.zone_descs zid).zrwav ≡ b
      → leaked + zrwa_in b s ≤ f.res_infos.zrwa_zone.acquired_cnt
  at_zrwa s b es eb = omega (
    arith,
    zrwa_held leaked f zid c p,
    ap (λ x. zrwa_in x s) eb,
    ap (zrwa_in (f.zone_descs zid).zrwav) es,
  )

  -- A zone that becomes inactive.
  pub gives_up :
      (s s' : ZoneState) (b b' : Bool) (d' : ℕ → Zone)
      → (f.zone_descs zid).state ≡ s
      → (f.zone_descs zid).zrwav ≡ b
      → active_in s ≡ 1
      → active_in s' ≡ 0
      → open_in s' ≡ 0
      → ((i : ℕ) → i ≢ zid → d' i ≡ f.zone_descs i)
      → (d' zid).state ≡ s'
      → (d' zid).zrwav ≡ b'
      → (s' ≡ empty → b' ≡ false)
      → IsCounted leaked f.zp.nr_zones
          (record {
            active_zone = release f.res_infos.active_zone;
            open_zone = shut s f.res_infos.open_zone;
            zrwa_zone = release_if b f.res_infos.zrwa_zone;
          })
          d'
  gives_up s s' b b' d' es eb act inact closed_ other es' eb' clean =
      IsCounted-step leaked leaked _ zid _ _ _ d' s s' b b' c p other es eb es' eb'
        (IsMoved-release _ _ _ c.active_bound
          (omega (arith, active_held leaked f zid c p, ap active_in es))
          (omega (arith, act, inact)))
        (IsMoved-to _ 0 _ _ _ (sym closed_) (
          shut-IsMoved s _ c.open_bound (omega (arith, open_held leaked f zid c p, ap open_in es))))
        (IsMoved-to _ leaked _ _ _ (omega (arith, zrwa_in_none b' s' inact))
          (release_if-IsMoved b s leaked _ c.zrwa_bound act (at_zrwa s b es eb)))
        clean

  -- A zone that changes its state, its wp or its `zrwav`, and keeps what it holds.
  pub holds_on :
      (s s' : ZoneState) (b b' : Bool) (d' : ℕ → Zone)
      → (f.zone_descs zid).state ≡ s
      → (f.zone_descs zid).zrwav ≡ b
      → ((i : ℕ) → i ≢ zid → d' i ≡ f.zone_descs i)
      → (d' zid).state ≡ s'
      → (d' zid).zrwav ≡ b'
      → active_in s ≡ active_in s'
      → open_in s ≡ open_in s'
      → zrwa_in b s ≡ zrwa_in b' s'
      → (s' ≡ empty → b' ≡ false)
      → IsCounted leaked f.zp.nr_zones f.res_infos d'
  holds_on s s' b b' d' es eb other es' eb' act op zr clean =
      IsCounted-step leaked leaked _ zid _ _ _ d' s s' b b' c p other es eb es' eb'
        (IsMoved-same _ _ _ c.active_bound act) (IsMoved-same _ _ _ c.open_bound op)
        (IsMoved-same _ _ _ c.zrwa_bound (omega (arith, zr))) clean

  pub state_at : (z : Zone) → (update f.zone_descs zid z zid).state ≡ z.state
  state_at z = ap (λ (t : Zone). t.state) (update_same f.zone_descs zid z)

  pub zrwav_at : (z : Zone) → (update f.zone_descs zid z zid).zrwav ≡ z.zrwav
  zrwav_at z = ap (λ (t : Zone). t.zrwav) (update_same f.zone_descs zid z)
