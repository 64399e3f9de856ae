-- ===== src/Zns/Send/Machine.antt =====
-- The state machine of a zone, as the zoned namespace command set has it, and that the zone
-- management actions follow it.
use dumping.Zns.Counts.{IsBounded, not_full, avail}
use dumping.Zns.Mgmt.Reset.{clear_zone_other, clear_zone_same}
use dumping.Base.{
  refl, ℕ, true, false, ◌≢◌, ◌≡◌, ap, ◌∙◌, update_other, update_same, Bool, if_cases, ◌<◌, if_true,
  u64, ◌+◌, update, ◌&&◌, if◌then◌else◌,
}
use dumping.Zns.Ftl.{
  ZnsFtl, Status, success, ZoneState, empty, opened_impl, opened_expl, closed, read_only, full,
  offline, change_zone_state, Zone, acquire_open, set_zone, acquire_zrwa, acquire_active,
  zrwa_rsrc_unavail, release_zrwa, release_active, is_zone_resource_full, is_zone_resource_avail,
}
use dumping.Zns.Mgmt.{
  Result, close_from, offline_from, clear_zone, finish_from, reset_from, open_from, open_empty,
  open_closed, acquire_active_if, flush_open, flush_from, move_wp, give_zrwa,
}
use dumping.Zns.Send.{
  Action, zsa_close_zone, zsa_finish_zone, zsa_open_zone, zsa_reset_zone, zsa_offline_zone,
  zsa_flush_expl_zrwa,
}

-- The states of a zone that holds an active resource, and of one that is open.
pub data IsActive : ZoneState → Type 0 where
  is_impl : IsActive opened_impl
  is_expl : IsActive opened_expl
  is_closed : IsActive closed

-- The states that an action takes a zone from and to when it succeeds.
pub data Goes : Action → ZoneState → ZoneState → Type 0 where
  close_active : {s : ZoneState} → IsActive s → Goes zsa_close_zone s closed
  finish_active : {s : ZoneState} → IsActive s → Goes zsa_finish_zone s full
  finish_empty : Goes zsa_finish_zone empty full
  finish_full : Goes zsa_finish_zone full full
  open_active : {s : ZoneState} → IsActive s → Goes zsa_open_zone s opened_expl
  open_fresh : Goes zsa_open_zone empty opened_expl
  reset_active : {s : ZoneState} → IsActive s → Goes zsa_reset_zone s empty
  reset_full : Goes zsa_reset_zone full empty
  reset_empty : Goes zsa_reset_zone empty empty
  flush_part : {s : ZoneState} → IsActive s → Goes zsa_flush_expl_zrwa s s
  flush_rest : {s : ZoneState} → IsActive s → Goes zsa_flush_expl_zrwa s full
  retire : Goes zsa_offline_zone read_only offline
  retired : Goes zsa_offline_zone offline offline

-- What an action on the zone `zid` may do: a success is a step of the machine, and a failure
-- changes no zone and no count. No other zone changes.
pub record Follows (a : Action) (f : ZnsFtl) (zid : ℕ) (r : Result) : Type 0 where
  pub others : (i : ℕ) → i ≢ zid → r.0.zone_descs i ≡ f.zone_descs i
  pub goes : r.1 ≡ success → Goes a (f.zone_descs zid).state (r.0.zone_descs zid).state
  pub fails : r.1 ≢ success → (r.0.zone_descs ≡ f.zone_descs) × (r.0.res_infos ≡ f.res_infos)

module _ (f : ZnsFtl) (zid : ℕ) where
  -- A failure, and a success that changes nothing.
  pub failed : (a : Action) (s : Status) → s ≢ success → Follows a f zid (f, s)
  failed a s ne = record {
    others = λ i h. refl;
    goes = λ e. absurd (ne e);
    fails = λ h. (refl, refl);
  }

  stays :
      (a : Action) (s : ZoneState)
      → (f.zone_descs zid).state ≡ s
      → Goes a s s
      → Follows a f zid (f, success)
  stays a s es go = record { others = λ i h. refl; goes = λ e. rw es go; fails = λ h. (refl, refl) }

  turns :
      (a : Action) (s s' : ZoneState) (g : ZnsFtl)
      → (f.zone_descs zid).state ≡ s
      → Goes a s s'
      → ((i : ℕ) → i ≢ zid → g.zone_descs i ≡ f.zone_descs i)
      → (g.zone_descs zid).state ≡ s'
      → Follows a f zid (g, success)
  turns a s s' g es go other es' = record {
    others = other;
    goes = λ e. rw es (rw es' go);
    fails = λ h. absurd (h refl);
  }

  switches :
      (a : Action) (s s' : ZoneState) (g : ZnsFtl)
      → (f.zone_descs zid).state ≡ s
      → Goes a s s'
      → g.zone_descs ≡ (change_zone_state f zid s').zone_descs
      → Follows a f zid (g, success)
  switches a s s' g es go e =
      turns a s s' g es go
        (λ i ne. ap (λ (d : ℕ → Zone). d i) e ∙ update_other f.zone_descs zid _ i ne)
        (ap (λ (d : ℕ → Zone). (d zid).state) e
          ∙ ap (λ (t : Zone). t.state) (update_same f.zone_descs zid _))

  pub close_from-Follows :
      (s : ZoneState)
      → (f.zone_descs zid).state ≡ s
      → Follows zsa_close_zone f zid (close_from s f zid)
  close_from-Follows opened_impl es = switches _ _ closed _ es (close_active is_impl) refl
  close_from-Follows opened_expl es = switches _ _ closed _ es (close_active is_expl) refl
  close_from-Follows closed es = stays _ closed es (close_active is_closed)
  close_from-Follows empty es = failed _ _ (λ e. cc)
  close_from-Follows full es = failed _ _ (λ e. cc)
  close_from-Follows read_only es = failed _ _ (λ e. cc)
  close_from-Follows offline es = failed _ _ (λ e. cc)

  pub finish_from-Follows :
      (s : ZoneState) (z : Bool)
      → (f.zone_descs zid).state ≡ s
      → Follows zsa_finish_zone f zid (finish_from s z f zid)
  finish_from-Follows opened_impl true es = switches _ _ full _ es (finish_active is_impl) refl
  finish_from-Follows opened_impl false es = switches _ _ full _ es (finish_active is_impl) refl
  finish_from-Follows opened_expl true es = switches _ _ full _ es (finish_active is_expl) refl
  finish_from-Follows opened_expl false es = switches _ _ full _ es (finish_active is_expl) refl
  finish_from-Follows closed true es = switches _ _ full _ es (finish_active is_closed) refl
  finish_from-Follows closed false es = switches _ _ full _ es (finish_active is_closed) refl
  finish_from-Follows empty z es = switches _ _ full _ es finish_empty refl
  finish_from-Follows full z es = stays _ full es finish_full
  finish_from-Follows read_only z es = failed _ _ (λ e. cc)
  finish_from-Follows offline z es = failed _ _ (λ e. cc)

  pub offline_from-Follows :
      (s : ZoneState)
      → (f.zone_descs zid).state ≡ s
      → Follows zsa_offline_zone f zid (offline_from s f zid)
  offline_from-Follows read_only es = switches _ _ offline _ es retire refl
  offline_from-Follows offline es = stays _ offline es retired
  offline_from-Follows opened_impl es = failed _ _ (λ e. cc)
  offline_from-Follows opened_expl es = failed _ _ (λ e. cc)
  offline_from-Follows closed es = failed _ _ (λ e. cc)
  offline_from-Follows empty es = failed _ _ (λ e. cc)
  offline_from-Follows full es = failed _ _ (λ e. cc)

  clears :
      (s : ZoneState) (g : ZnsFtl)
      → (f.zone_descs zid).state ≡ s
      → Goes zsa_reset_zone s empty
      → g.zone_descs ≡ (change_zone_state f zid empty).zone_descs
      → Follows zsa_reset_zone f zid (clear_zone g zid, success)
  clears s g es go e =
      turns _ s empty _ es go
        (λ i ne.
          clear_zone_other g zid i ne
          ∙ ap (λ (d : ℕ → Zone). d i) e
          ∙ update_other f.zone_descs zid _ i ne)
        (ap (λ (t : Zone). t.state) (clear_zone_same g zid)
          ∙ ap (λ (d : ℕ → Zone). (d zid).state) e
          ∙ ap (λ (t : Zone). t.state) (update_same f.zone_descs zid _))

  pub reset_from-Follows :
      (s : ZoneState) (z : Bool)
      → (f.zone_descs zid).state ≡ s
      → Follows zsa_reset_zone f zid (reset_from s z f zid)
  reset_from-Follows opened_impl true es = clears _ _ es (reset_active is_impl) refl
  reset_from-Follows opened_impl false es = clears _ _ es (reset_active is_impl) refl
  reset_from-Follows opened_expl true es = clears _ _ es (reset_active is_expl) refl
  reset_from-Follows opened_expl false es = clears _ _ es (reset_active is_expl) refl
  reset_from-Follows closed true es = clears _ _ es (reset_active is_closed) refl
  reset_from-Follows closed false es = clears _ _ es (reset_active is_closed) refl
  reset_from-Follows empty z es = clears _ _ es reset_empty refl
  reset_from-Follows full z es = clears _ _ es reset_full refl
  reset_from-Follows read_only z es = failed _ _ (λ e. cc)
  reset_from-Follows offline z es = failed _ _ (λ e. cc)

  -- The zone is opened, whatever it gained before.
  opened-Follows :
      (s : ZoneState) (g : ZnsFtl)
      → (f.zone_descs zid).state ≡ s
      → Goes zsa_open_zone s opened_expl
      → ((i : ℕ) → i ≢ zid → g.zone_descs i ≡ f.zone_descs i)
      → Follows zsa_open_zone f zid (change_zone_state g zid opened_expl, success)
  opened-Follows s g es go other =
      turns _ s opened_expl _ es go (λ i ne. update_other g.zone_descs zid _ i ne ∙ other i ne)
        (ap (λ (t : Zone). t.state) (update_same g.zone_descs zid _))

  abbrev Opens : Result → Type 0
  Opens r = Follows zsa_open_zone f zid r

  tested-Follows :
      (g : ZnsFtl)
      → (f.zone_descs zid).state ≡ empty
      → g.res_infos.active_zone.acquired_cnt < g.res_infos.active_zone.total_cnt
      → g.res_infos.open_zone.acquired_cnt < g.res_infos.open_zone.total_cnt
      → ((i : ℕ) → i ≢ zid → g.zone_descs i ≡ f.zone_descs i)
      → Opens (open_closed (acquire_active_if g) zid)
  tested-Follows g es la lo other =
      if_true (λ h. Opens (open_closed h zid)) _ _ _ (avail g.res_infos.active_zone la)
        (if_true Opens _ _ _ (avail g.res_infos.open_zone lo)
          (opened-Follows empty (acquire_open (acquire_active g)) es open_fresh other))

  open_empty-Follows :
      (zrwa : Bool)
      → (f.zone_descs zid).state ≡ empty
      → IsBounded f.res_infos.active_zone
      → IsBounded f.res_infos.open_zone
      → Opens (open_empty f zid zrwa)
  open_empty-Follows zrwa es ba bo =
      if_cases Opens _ _ _ (λ e. failed _ _ (λ e. cc))
        (λ ea.
          if_cases Opens _ _ _ (λ e. failed _ _ (λ e. cc))
            (λ eo.
              if_cases Opens (zrwa && is_zone_resource_full f.res_infos.zrwa_zone) _
                (open_closed (acquire_active_if (if zrwa then give_zrwa f zid else f)) zid)
                (λ e. failed zsa_open_zone zrwa_rsrc_unavail (λ e. cc))
                (λ ez.
                  let la = not_full f.res_infos.active_zone ba ea in
                  let lo = not_full f.res_infos.open_zone bo eo in
                  let z : Zone = record (f.zone_descs zid) { zrwav = true } in
                  if_cases (λ h. Opens (open_closed (acquire_active_if h) zid)) zrwa
                    (give_zrwa f zid) f
                    (λ e.
                      if_cases (λ h. Opens (open_closed (acquire_active_if (set_zone h zid z)) zid))
                        (is_zone_resource_avail f.res_infos.zrwa_zone) (acquire_zrwa f) f
                        (λ e.
                          tested-Follows (set_zone (acquire_zrwa f) zid z) es la lo
                            (update_other f.zone_descs zid z))
                        (λ e.
                          tested-Follows (set_zone f zid z) es la lo
                            (update_other f.zone_descs zid z)))
                    (λ e. tested-Follows f es la lo (λ i ne. refl)))))

  flush_open-Follows :
      (s : ZoneState) (slba : ℕ) (g : ZnsFtl)
      → (f.zone_descs zid).state ≡ s
      → IsActive s
      → g.zone_descs ≡ f.zone_descs
      → Follows zsa_flush_expl_zrwa f zid (flush_open f zid slba g)
  flush_open-Follows s slba g es act e =
      let moved : Zone = record (f.zone_descs zid) { wp = u64 (slba + 1) } in
      let filled : Zone = record (g.zone_descs zid) { wp = u64 (slba + 1) } in
      if_cases (Follows zsa_flush_expl_zrwa f zid) _ _ _
        (λ h.
          turns _ s full
            (change_zone_state (release_zrwa (release_active (move_wp g zid (u64 (slba + 1))))) zid
              full)
            es (flush_rest act)
            (λ i ne.
              update_other (update g.zone_descs zid filled) zid _ i ne
              ∙ update_other g.zone_descs zid filled i ne
              ∙ ap (λ (d : ℕ → Zone). d i) e)
            (ap (λ (t : Zone). t.state) (update_same (update g.zone_descs zid filled) zid _)))
        (λ h.
          turns _ s s (move_wp f zid (u64 (slba + 1))) es (flush_part act)
            (update_other f.zone_descs zid moved)
            (ap (λ (t : Zone). t.state) (update_same f.zone_descs zid moved) ∙ es))

  pub flush_from-Follows :
      (s : ZoneState) (slba : ℕ)
      → (f.zone_descs zid).state ≡ s
      → Follows zsa_flush_expl_zrwa f zid (flush_from s f zid slba)
  flush_from-Follows opened_impl slba es = flush_open-Follows opened_impl slba _ es is_impl refl
  flush_from-Follows opened_expl slba es = flush_open-Follows opened_expl slba _ es is_expl refl
  flush_from-Follows closed slba es = flush_open-Follows closed slba _ es is_closed refl
  flush_from-Follows empty slba es = failed _ _ (λ e. cc)
  flush_from-Follows full slba es = failed _ _ (λ e. cc)
  flush_from-Follows read_only slba es = failed _ _ (λ e. cc)
  flush_from-Follows offline slba es = failed _ _ (λ e. cc)

  pub open_from-Follows :
      (s : ZoneState) (zrwa : Bool)
      → (f.zone_descs zid).state ≡ s
      → IsBounded f.res_infos.active_zone
      → IsBounded f.res_infos.open_zone
      → Opens (open_from s f zid zrwa)
  open_from-Follows empty zrwa es ba bo = open_empty-Follows zrwa es ba bo
  open_from-Follows closed zrwa es ba bo =
      if_cases Opens _ _ _
        (λ e. opened-Follows closed (acquire_open f) es (open_active is_closed) (λ i ne. refl))
        (λ e. failed _ _ (λ e. cc))
  open_from-Follows opened_impl zrwa es ba bo =
      opened-Follows opened_impl f es (open_active is_impl) (λ i ne. refl)
  open_from-Follows opened_expl zrwa es ba bo = stays _ opened_expl es (open_active is_expl)
  open_from-Follows full zrwa es ba bo = failed _ _ (λ e. cc)
  open_from-Follows read_only zrwa es ba bo = failed _ _ (λ e. cc)
  open_from-Follows offline zrwa es ba bo = failed _ _ (λ e. cc)
