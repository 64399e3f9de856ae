-- ===== src/Zns/Send/Conforms.antt =====
-- Each zone management action returns and follows the state machine of a zone.
use dumping.Zns.Mgmt.Flush.{flush_cases}
use dumping.Zns.Send.Erase.{IsErased}
use dumping.Zns.Send.Frame.{reset_zone-IsFramed}
use dumping.Zns.Mgmt.Reset.{reset_zone-IsAccounted}
use dumping.Zns.Address.{lba_to_zone}
use dumping.Zns.Send.Total.{IsSupported, IsReady, ready, reset_time-IsErased}
use dumping.Zns.Address.Stripe.{IsStriped, IsStriped-cong}
use dumping.Base.{refl, ℕ, ◌≡◌, ap, ◌∙◌, ◌<◌, ◌+◌, ◌^◌}
use dumping.Base.Run.{Returns, Returns-bind}
use dumping.Zns.Ftl.{ZnsFtl, Status, Zone}
use dumping.Zns.Mgmt.{
  reset_zone, flush_explicit_zrwa, close_zone, finish_zone, open_zone_cmd, offline_zone,
}
use dumping.Zns.Send.{
  Action, SendCmd, zsa_close_zone, zsa_finish_zone, zsa_open_zone, zsa_reset_zone, zsa_offline_zone,
  zsa_set_zone_desc_ext, zsa_flush_expl_zrwa, zsa_unknown, send_action, reset_time,
}
use dumping.Zns.Send.Machine.{
  Follows, close_from-Follows, finish_from-Follows, open_from-Follows, reset_from-Follows,
  offline_from-Follows, failed, flush_from-Follows,
}

-- A change that leaves the zones and the counts.
Follows-same :
    (a : Action) (f g h : ZnsFtl) (zid : ℕ) (s : Status)
    → g.zone_descs ≡ h.zone_descs
    → g.res_infos ≡ h.res_infos
    → Follows a f zid (h, s)
    → Follows a f zid (g, s)
Follows-same a f g h zid s ez er k = record {
  others = λ i ne. ap (λ (d : ℕ → Zone). d i) ez ∙ k.others i ne;
  goes = λ e. rw ez (k.goes e);
  fails = λ ne. (ez ∙ (k.fails ne).0, er ∙ (k.fails ne).1);
}

-- A zone management action with a case in the code, on one zone: it returns; a success takes the
-- zone by a step of the machine, a failure changes no zone and no count, and no other zone changes.
-- The namespace has counts that agree with its zones, sizes that are not 0 and zones striped over
-- whole groups of dies, the zone exists and the request ends below sector 2^63.
pub send_action-Follows :
    (cpu_clock : ℕ → ℕ) (leaked : ℕ) (a : Action) (f : ZnsFtl) (cmd : SendCmd) (slba target : ℕ)
    → IsSupported a
    → IsReady leaked f
    → IsStriped f
    → lba_to_zone f slba < f.zp.nr_zones
    → slba + cmd.length + 1 < 2 ^ 63
    → Returns
        (λ (g, s, t). Follows a f (lba_to_zone f slba) (g, s))
        (send_action cpu_clock a f cmd slba target)
unfolding send_action close_zone finish_zone open_zone_cmd reset_zone offline_zone
send_action-Follows cpu_clock leaked zsa_close_zone f cmd slba target sup r st p small =
    close_from-Follows f _ _ refl
send_action-Follows cpu_clock leaked zsa_finish_zone f cmd slba target sup r st p small =
    finish_from-Follows f _ _ _ refl
send_action-Follows cpu_clock leaked zsa_open_zone f cmd slba target sup r st p small =
    open_from-Follows f _ _ _ refl r.counted.active_bound r.counted.open_bound
send_action-Follows cpu_clock leaked zsa_reset_zone f cmd slba target sup r st p small =
    let zid = lba_to_zone f slba in
    let f' = (reset_zone f zid).0 in
    let s = (reset_zone f zid).1 in
    let r' =
      ready leaked f f' r (reset_zone-IsAccounted leaked f _ r.counted p)
        (reset_zone-IsFramed f _) in
    Returns-bind (λ (g, m). IsErased f' g) (λ (g, s, t). Follows zsa_reset_zone f zid (g, s))
      (reset_time cpu_clock f' slba cmd.length cmd.nsecs_start) _
      (reset_time-IsErased cpu_clock leaked f' slba cmd.length cmd.nsecs_start r'.0
        (IsStriped-cong f f' r'.1 r'.2 st) small)
      (λ (g, m) e.
        Follows-same zsa_reset_zone f g f' zid s e.zones e.infos (reset_from-Follows f _ _ _ refl))
send_action-Follows cpu_clock leaked zsa_offline_zone f cmd slba target sup r st p small =
    offline_from-Follows f _ _ refl
send_action-Follows cpu_clock leaked zsa_flush_expl_zrwa f cmd slba target sup r st p small =
    Returns-bind (Follows zsa_flush_expl_zrwa f (lba_to_zone f slba))
      (λ (g, s, t). Follows zsa_flush_expl_zrwa f (lba_to_zone f slba) (g, s))
      (flush_explicit_zrwa f slba) _
      (flush_cases (Follows zsa_flush_expl_zrwa f (lba_to_zone f slba)) f slba r.granularity
        (failed f _ _ _ (λ e. cc)) (failed f _ _ _ (λ e. cc))
        (λ ev. flush_from-Follows f _ _ slba refl))
      (λ x h. h)
send_action-Follows cpu_clock leaked zsa_set_zone_desc_ext f cmd slba target sup r st p small =
    absurd sup
send_action-Follows cpu_clock leaked zsa_unknown f cmd slba target sup r st p small = absurd sup
