-- ===== src/Zns/Send/Frame.antt =====
-- The zone management actions leave the parameters and the device as they are.
use dumping.Base.Run.{Returns}
use dumping.Zns.Mgmt.{
  Result, close_zone, finish_zone, open_zone_cmd, reset_zone, offline_zone, flush_from, clear_zone,
  flush_explicit_zrwa,
}
use dumping.Base.{ℕ, ◌≡◌, arith, Bool, ◌<◌}
use dumping.Zns.Ftl.{ZnsFtl, ZoneState}

-- Only the resources, the zones, the storage and the ZRWA buffers may differ.
pub record IsFramed (f g : ZnsFtl) : Type 0 where
  pub params : g.zp ≡ f.zp
  pub device : g.device ≡ f.device

abbrev pub Frames : ZnsFtl → Result → Type 0
Frames f r = IsFramed f r.0

module _ (f : ZnsFtl) (zid : ℕ) where
  pub close_zone-IsFramed : IsFramed f (close_zone f zid).0
  unfolding close_zone
  close_zone-IsFramed = ground arith

  pub finish_zone-IsFramed : IsFramed f (finish_zone f zid).0
  unfolding finish_zone
  finish_zone-IsFramed = ground arith

  pub open_zone_cmd-IsFramed : (zrwa : Bool) → IsFramed f (open_zone_cmd f zid zrwa).0
  unfolding open_zone_cmd
  open_zone_cmd-IsFramed zrwa = ground arith

  pub reset_zone-IsFramed : IsFramed f (reset_zone f zid).0
  unfolding reset_zone clear_zone
  reset_zone-IsFramed = ground arith

  pub offline_zone-IsFramed : IsFramed f (offline_zone f zid).0
  unfolding offline_zone
  offline_zone-IsFramed = ground arith

  pub flush_from-IsFramed : (slba : ℕ) (s : ZoneState) → IsFramed f (flush_from s f zid slba).0
  flush_from-IsFramed slba s = ground arith

pub flush_explicit_zrwa-IsFramed :
    (f : ZnsFtl) (slba : ℕ)
    → 0 < f.zp.lbas_per_zrwafg
    → Returns (Frames f) (flush_explicit_zrwa f slba)
unfolding flush_explicit_zrwa
flush_explicit_zrwa-IsFramed f slba pos = ground (arith, pos)
