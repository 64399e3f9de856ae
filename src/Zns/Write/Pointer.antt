-- ===== src/Zns/Write/Pointer.antt =====
-- The write pointer after a write, and the resources of a zone that it fills.
use dumping.Zns.Mgmt.Resources.{holds_on, state_at, zrwav_at}
use dumping.Zns.Write.{increase_write_ptr}
use dumping.Zns.Mgmt.{move_wp, zone_limit}
use dumping.Zns.Counts.{
  open_in, IsAccounted, active_in, zrwa_in, IsCounted-step, IsMoved-release, active_held, open_held,
  IsMoved-same,
}
use dumping.Base.{
  refl, suc, ℕ, true, false, Bool, ◌≢◌, ◌≡◌, ◌<◌, u64, ◌+◌, arith, if_cases, update_other, ◌==◌,
  update, ◌∙◌, ap, update_same, ==→eq, ==→ne,
}
use dumping.Zns.Ftl.{ZnsFtl, ZoneState, Zone, full, change_zone_state, release_active, release_open}

-- The ZRWA resources that no zone holds, after a zone with or without a ZRWA has been filled.
abbrev pub leak : Bool → ℕ → ℕ
leak true leaked = suc leaked
leak false leaked = leaked

-- What __increase_write_ptr leaves of a zone and of the counts.
pub record IsPassed (leaked : ℕ) (f : ZnsFtl) (zid nr_lba : ℕ) (g : ZnsFtl) : Type 0 where
  pub others : (i : ℕ) → i ≢ zid → g.zone_descs i ≡ f.zone_descs i
  pub wp : (g.zone_descs zid).wp ≡ u64 ((f.zone_descs zid).wp + nr_lba)
  pub filled :
      u64 ((f.zone_descs zid).wp + nr_lba) ≡ zone_limit f zid
      → ((g.zone_descs zid).state ≡ full) × IsAccounted (leak (f.zone_descs zid).zrwav leaked) g
  pub partly :
      u64 ((f.zone_descs zid).wp + nr_lba) ≢ zone_limit f zid
      → ((g.zone_descs zid).state ≡ (f.zone_descs zid).state) × IsAccounted leaked g

leaks :
    (b : Bool) (s : ZoneState) (leaked : ℕ)
    → active_in s ≡ 1
    → leaked + zrwa_in b s ≡ leak b leaked + zrwa_in b full
leaks true s leaked e = omega (arith, e)
leaks false s leaked e = omega arith

open-active : (s : ZoneState) → open_in s ≡ 1 → active_in s ≡ 1
open-active s e = ground (arith, e)

module _ (leaked : ℕ) (f : ZnsFtl) (zid nr_lba : ℕ) (c : IsAccounted leaked f)
    (p : zid < f.zp.nr_zones) (op : open_in (f.zone_descs zid).state ≡ 1) where
  act : active_in (f.zone_descs zid).state ≡ 1
  act = open-active (f.zone_descs zid).state op

  abbrev after : ℕ
  after = u64 ((f.zone_descs zid).wp + nr_lba)

  abbrev moved : Zone
  moved = record (f.zone_descs zid) { wp = after }

  fills :
      IsAccounted
        (leak (f.zone_descs zid).zrwav leaked)
        (change_zone_state (release_active (release_open (move_wp f zid after))) zid full)
  fills =
      IsCounted-step leaked (leak (f.zone_descs zid).zrwav leaked) _ zid _ _ _ _ _ full _ _ c p
        (λ i ne.
          update_other (update f.zone_descs zid moved) zid _ i ne
          ∙ update_other f.zone_descs zid moved i ne)
        refl refl (ap (λ (t : Zone). t.state) (update_same (update f.zone_descs zid moved) zid _))
        (ap (λ (t : Zone). t.zrwav) (update_same (update f.zone_descs zid moved) zid _)
          ∙ zrwav_at leaked f zid c p moved)
        (IsMoved-release _ _ _ c.active_bound (active_held leaked f zid c p) act)
        (IsMoved-release _ _ _ c.open_bound (open_held leaked f zid c p) op)
        (IsMoved-same _ _ _ c.zrwa_bound (leaks _ _ leaked act)) (λ e. cc)

  moves : IsAccounted leaked (move_wp f zid after)
  moves =
      holds_on leaked f zid c p _ _ _ _ _ refl refl (update_other f.zone_descs zid moved)
        (state_at leaked f zid c p moved) (zrwav_at leaked f zid c p moved) refl refl refl
        (λ e. absurd (omega (arith, act, ap active_in e)))

  -- After a write to an open zone its write pointer has moved by the sectors written, and no other
  -- zone has changed. A zone that reaches its capacity is full and has given up its active and its
  -- open resource, but a ZRWA resource that it held is leaked. A zone that does not keeps its state
  -- and its resources.
  pub increase_write_ptr-IsPassed : IsPassed leaked f zid nr_lba (increase_write_ptr f zid nr_lba)
  unfolding increase_write_ptr
  increase_write_ptr-IsPassed =
      if_cases (IsPassed leaked f zid nr_lba) (after == zone_limit f zid) _ _
        (λ e. record {
          others = λ i ne.
              update_other (update f.zone_descs zid moved) zid _ i ne
              ∙ update_other f.zone_descs zid moved i ne;
          wp =
              ap (λ (t : Zone). t.wp) (update_same (update f.zone_descs zid moved) zid _)
              ∙ ap (λ (t : Zone). t.wp) (update_same f.zone_descs zid moved);
          filled = λ h. (
            ap (λ (t : Zone). t.state) (update_same (update f.zone_descs zid moved) zid _),
            fills,
          );
          partly = λ h. absurd (h (==→eq _ _ e));
        })
        (λ e. record {
          others = update_other f.zone_descs zid moved;
          wp = ap (λ (t : Zone). t.wp) (update_same f.zone_descs zid moved);
          filled = λ h. absurd (==→ne _ _ e h);
          partly = λ h. (state_at leaked f zid c p moved, moves);
        })
