-- ===== src/Zns/Send/Total.antt =====
-- A zone management send command ends without a BUG and keeps the counts of the resources.
use dumping.Zns.Mgmt.Flush.{flush_explicit_zrwa-IsAccounted}
use dumping.Zns.Mgmt.Reset.{reset_zone-IsAccounted}
use dumping.Zns.Mgmt.Open.{open_zone_cmd-IsAccounted}
use dumping.Zns.Mgmt.Leave.{
  close_zone-IsAccounted, finish_zone-IsAccounted, offline_zone-IsAccounted,
}
use dumping.Zns.Send.Erase.{IsErased, reset_loop-IsErased}
use dumping.Base.Run.{Returns, Returns-bind, Returns-both, Returns-if}
use dumping.Ssd.Nand.{Device}
use dumping.Zns.Send.Frame.{
  IsFramed, close_zone-IsFramed, finish_zone-IsFramed, open_zone_cmd-IsFramed, reset_zone-IsFramed,
  offline_zone-IsFramed, flush_explicit_zrwa-IsFramed,
}
use dumping.Zns.Address.{zone_secs, lba_to_zone, zone_to_slba}
use dumping.Zns.Counts.{IsAccounted}
use dumping.Zns.Address.Stripe.{IsStriped, IsStriped-cong}
use dumping.Base.{
  div_mono, div_le, zero, suc, ℕ, ◌<◌, ◌≡◌, ◌/◌, ◌≤◌, ◌+◌, ◌*◌, ap, arith, ◌^◌, sub64, u64, ◌-◌,
  if_true, ltb, ◌∙◌, u32,
}
use dumping.Zns.Ftl.{ZnsFtl, Status}
use dumping.Zns.Mgmt.{Result, reset_zone, flush_explicit_zrwa}
use dumping.Zns.Send.{
  Action, SendCmd, Sent, zsa_close_zone, zsa_finish_zone, zsa_open_zone, zsa_reset_zone,
  zsa_offline_zone, zsa_set_zone_desc_ext, zsa_flush_expl_zrwa, zsa_unknown, reset_time,
  send_action, zmgmt_send, send_all, zns_zmgmt_send,
}

-- The counts agree, no size that divides is 0, and the sectors of all zones have 32-bit numbers.
pub record IsReady (leaked : ℕ) (f : ZnsFtl) : Type 0 where
  pub counted : IsAccounted leaked f
  pub pages : 0 < f.device.ssd.sp.pgs_per_oneshotpg
  pub sectors : 0 < f.device.ssd.sp.secs_per_pg
  pub granularity : 0 < f.zp.lbas_per_zrwafg
  pub zones : 0 < zone_secs f
  pub small : f.zp.nr_zones * zone_secs f < 2 ^ 32

-- An action that the code has a case for.
abbrev pub IsSupported : Action → Type 0
IsSupported zsa_close_zone = Unit
IsSupported zsa_finish_zone = Unit
IsSupported zsa_open_zone = Unit
IsSupported zsa_reset_zone = Unit
IsSupported zsa_offline_zone = Unit
IsSupported zsa_flush_expl_zrwa = Unit
IsSupported zsa_set_zone_desc_ext = ⊥
IsSupported zsa_unknown = ⊥

pub IsReady-cong :
    (leaked leaked' : ℕ) (f g : ZnsFtl)
    → IsReady leaked f
    → IsAccounted leaked' g
    → g.zp ≡ f.zp
    → g.device.ssd.sp ≡ f.device.ssd.sp
    → IsReady leaked' g
IsReady-cong leaked leaked' f g r c ep es = record {
  counted = c;
  pages = rw es r.pages;
  sectors = rw es r.sectors;
  granularity = rw ep r.granularity;
  zones = rw ep (rw es r.zones);
  small = rw ep (rw es r.small);
}

-- From the counts and the frame of an action.
pub ready :
    (leaked : ℕ) (f g : ZnsFtl)
    → IsReady leaked f
    → IsAccounted leaked g
    → IsFramed f g
    → IsReady leaked g × (g.zp ≡ f.zp) × (g.device.ssd.sp ≡ f.device.ssd.sp)
ready leaked f g r c k =
    let es = ap (λ (d : Device). d.ssd.sp) k.device in
    (IsReady-cong leaked leaked f g r c k.params es, k.params, es)

below_all : (a b n : ℕ) → a < b → b * n < 2 ^ 32 → a * n < 2 ^ 32
below_all a b n lt small = grind arith

mul-div : (a n : ℕ) → 0 < n → a * n / n ≡ a
mul-div a n pos = grind arith

mul_le : (a n : ℕ) → 0 < n → a ≤ a * n
mul_le a n pos = grind arith

module _ (cpu_clock : ℕ → ℕ) (leaked : ℕ) where
  pub reset_time-IsErased :
      (f : ZnsFtl) (slba length cmd_stime : ℕ)
      → IsReady leaked f
      → IsStriped f
      → slba + length + 1 < 2 ^ 63
      → Returns (λ (g, m). IsErased f g) (reset_time cpu_clock f slba length cmd_stime)
  unfolding reset_time
  reset_time-IsErased f slba length cmd_stime r s small =
      let spp = f.device.ssd.sp.secs_per_pg in
      let last = sub64 (u64 (slba + (length + 1))) 1 in
      let whole : last ≡ slba + length = omega (arith, small) in
      let le : slba / spp ≤ last / spp = div_mono slba last spp r.sectors (omega (arith, whole)) in
      let bound : last / spp ≤ last = div_le last spp r.sectors in
      reset_loop-IsErased cpu_clock (last / spp + 2 - slba / spp) f (slba / spp) (last / spp) _
        cmd_stime 0 s (omega (arith, bound, whole, small)) (omega (arith, le)) (omega (arith, le))

  abbrev After : ZnsFtl → ZnsFtl × Status × ℕ → Type 0
  After f (g, s, t) = IsReady leaked g × (g.zp ≡ f.zp) × (g.device.ssd.sp ≡ f.device.ssd.sp)

  send_action-IsReady :
      (a : Action) (f : ZnsFtl) (cmd : SendCmd) (slba target : ℕ)
      → IsSupported a
      → IsReady leaked f
      → IsStriped f
      → lba_to_zone f slba < f.zp.nr_zones
      → slba + cmd.length + 1 < 2 ^ 63
      → Returns (After f) (send_action cpu_clock a f cmd slba target)
  unfolding send_action
  send_action-IsReady zsa_close_zone f cmd slba target k r s p small =
      ready leaked f _ r (close_zone-IsAccounted leaked f _ r.counted p) (close_zone-IsFramed f _)
  send_action-IsReady zsa_finish_zone f cmd slba target k r s p small =
      ready leaked f _ r (finish_zone-IsAccounted leaked f _ r.counted p) (finish_zone-IsFramed f _)
  send_action-IsReady zsa_open_zone f cmd slba target k r s p small =
      ready leaked f _ r (open_zone_cmd-IsAccounted leaked f _ r.counted p cmd.zsaso)
        (open_zone_cmd-IsFramed f _ cmd.zsaso)
  send_action-IsReady zsa_reset_zone f cmd slba target k r s p small =
      let f' = (reset_zone f (lba_to_zone f slba)).0 in
      let r' : IsReady leaked f' × (f'.zp ≡ f.zp) × (f'.device.ssd.sp ≡ f.device.ssd.sp) =
        ready leaked f f' r (reset_zone-IsAccounted leaked f _ r.counted p)
          (reset_zone-IsFramed f _) in
      Returns-bind (λ (g, m). IsErased f' g) (After f)
        (reset_time cpu_clock f' slba cmd.length cmd.nsecs_start) _
        (reset_time-IsErased f' slba cmd.length cmd.nsecs_start r'.0
          (IsStriped-cong f f' r'.1 r'.2 s) small)
        (λ (g, m) e. (
          IsReady-cong leaked leaked f' g r'.0 (rw e.params (rw e.infos (rw e.zones r'.0.counted)))
              e.params e.geometry,
          e.params ∙ r'.1,
          e.geometry ∙ r'.2,
        ))
  send_action-IsReady zsa_offline_zone f cmd slba target k r s p small =
      ready leaked f _ r (offline_zone-IsAccounted leaked f _ r.counted p)
        (offline_zone-IsFramed f _)
  send_action-IsReady zsa_flush_expl_zrwa f cmd slba target k r s p small =
      Returns-bind (λ (x : Result). IsAccounted leaked x.0 × IsFramed f x.0) (After f)
        (flush_explicit_zrwa f slba) _
        (Returns-both _ _ (flush_explicit_zrwa f slba)
          (flush_explicit_zrwa-IsAccounted leaked f slba r.counted p r.granularity)
          (flush_explicit_zrwa-IsFramed f slba r.granularity))
        (λ x (c, k). ready leaked f x.0 r c k)
  send_action-IsReady zsa_set_zone_desc_ext f cmd slba target k r s p small = absurd k
  send_action-IsReady zsa_unknown f cmd slba target k r s p small = absurd k

  zmgmt_send-IsReady :
      (f : ZnsFtl) (cmd : SendCmd) (slba target : ℕ)
      → IsSupported cmd.zsa
      → IsReady leaked f
      → IsStriped f
      → lba_to_zone f slba < f.zp.nr_zones
      → slba + cmd.length + 1 < 2 ^ 63
      → Returns (After f) (zmgmt_send cpu_clock f cmd slba target)
  unfolding zmgmt_send
  zmgmt_send-IsReady f cmd slba target k r s p small =
      if_true (Returns (After f)) (ltb (lba_to_zone f slba) f.zp.nr_zones) _ _ (ground (arith, p))
        (send_action-IsReady cmd.zsa f cmd slba target k r s p small)

  -- The first sector of a zone is in the zone.
  zone_round :
      (f : ZnsFtl) (zid : ℕ)
      → IsReady leaked f
      → zid < f.zp.nr_zones
      → (lba_to_zone f (zone_to_slba f zid) ≡ zid) × (zone_to_slba f zid < 2 ^ 32)
  unfolding lba_to_zone zone_to_slba
  zone_round f zid r p =
      let n = zone_secs f in
      let below : zid * n < 2 ^ 32 = below_all zid f.zp.nr_zones n p r.small in
      let start : u32 (zid * n) ≡ zid * n = omega (arith, below) in
      let back : zid * n / n ≡ zid = mul-div zid n r.zones in
      let count : f.zp.nr_zones ≤ f.zp.nr_zones * n = mul_le f.zp.nr_zones n r.zones in
      (rw start (rw back (omega (arith, p, count, r.small))), omega (arith, start, below))

  send_all-IsReady :
      (n zid : ℕ) (f : ZnsFtl) (cmd : SendCmd) (target : ℕ)
      → IsSupported cmd.zsa
      → IsReady leaked f
      → IsStriped f
      → zid + n ≤ f.zp.nr_zones
      → cmd.length < 2 ^ 16
      → Returns (λ (g, t). IsReady leaked g) (send_all cpu_clock n zid f cmd target)
  unfolding send_all
  send_all-IsReady zero zid f cmd target k r st le len = r
  send_all-IsReady (suc n) zid f cmd target k r st le len =
      let (at, low) = zone_round f zid r (omega (arith, le)) in
      Returns-bind (After f) (λ (g, t). IsReady leaked g)
        (zmgmt_send cpu_clock f cmd (zone_to_slba f zid) target) _
        (zmgmt_send-IsReady f cmd (zone_to_slba f zid) target k r st (omega (arith, at, le))
          (omega (arith, low, len)))
        (λ (g, s, t) (r', e, es).
          send_all-IsReady n (zid + 1) g cmd t k r' (IsStriped-cong f g e es st)
            (rw e (omega (arith, le))) len)

-- A zone management send command with a supported action, to a zone or to all of them, ends
-- without a BUG and leaves a namespace whose counts agree with the states of its zones, the same
-- ZRWA resources leaked, if it starts from such a namespace with sizes that are not 0, zones striped
-- over whole groups of dies and fewer than 2^32 sectors, and the request is for an existing zone and ends below sector 2^63.
pub zns_zmgmt_send-IsReady :
    (cpu_clock : ℕ → ℕ) (leaked : ℕ) (f : ZnsFtl) (cmd : SendCmd)
    → IsReady leaked f
    → IsStriped f
    → IsSupported cmd.zsa
    → lba_to_zone f cmd.slba < f.zp.nr_zones
    → cmd.slba + cmd.length + 1 < 2 ^ 63
    → cmd.length < 2 ^ 16
    → Returns (λ (s : Sent). IsReady leaked s.ftl) (zns_zmgmt_send cpu_clock f cmd)
unfolding zns_zmgmt_send
zns_zmgmt_send-IsReady cpu_clock leaked f cmd r st k p small len =
    let P : Sent → Type 0 = λ s. IsReady leaked s.ftl in
    Returns-if P cmd.select_all _ _
      (λ e.
        Returns-bind (λ (g, t). IsReady leaked g) P
          (send_all cpu_clock f.zp.nr_zones 0 f cmd cmd.nsecs_start) _
          (send_all-IsReady cpu_clock leaked f.zp.nr_zones 0 f cmd cmd.nsecs_start k r st
            (omega arith) len)
          (λ x h. h))
      (λ e.
        Returns-bind (After cpu_clock leaked f) P
          (zmgmt_send cpu_clock f cmd cmd.slba cmd.nsecs_start) _
          (zmgmt_send-IsReady cpu_clock leaked f cmd cmd.slba cmd.nsecs_start k r st p small)
          (λ x h. h.0))
