-- ===== src/Zns/Counts.antt =====
-- The counts of the zone resources agree with the states of the zones.
use native.Mathlib.Decide.{ℕ_discrete}
use dumping.Base.{
  refl, ℕ, true, false, Bool, ◌≤◌, ◌≡◌, ◌+◌, sum_below, ◌<◌, ◌≢◌, ◌^◌, ap, arith, sum_below_one,
  ◌∙◌, sym, suc, sum_below_ge, tests,
}
use dumping.Zns.Ftl.{
  ZoneState, Zone, empty, opened_impl, opened_expl, closed, read_only, full, offline, ResInfos,
  ZoneResourceInfo, ZnsFtl, release, acquire, is_zone_resource_full, is_zone_resource_avail,
}

-- Whether a zone in a state holds an ACTIVE_ZONE and an OPEN_ZONE, and with `zrwav` a ZRWA_ZONE.
abbrev pub open_in : ZoneState → ℕ
open_in opened_impl = 1
open_in opened_expl = 1
open_in closed = 0
open_in empty = 0
open_in read_only = 0
open_in full = 0
open_in offline = 0

abbrev pub active_in : ZoneState → ℕ
active_in opened_impl = 1
active_in opened_expl = 1
active_in closed = 1
active_in empty = 0
active_in read_only = 0
active_in full = 0
active_in offline = 0

abbrev pub zrwa_in : Bool → ZoneState → ℕ
zrwa_in true s = active_in s
zrwa_in false s = 0

-- A count within its total, which is a `uint32_t`.
pub record IsBounded (r : ZoneResourceInfo) : Type 0 where
  pub within : r.acquired_cnt ≤ r.total_cnt
  pub total : r.total_cnt < 2 ^ 32

-- Each resource is held once by each zone whose state needs it; `leaked` of the ZRWA resources
-- are held by none. An empty zone has no ZRWA.
pub record IsCounted (leaked n : ℕ) (r : ResInfos) (d : ℕ → Zone) : Type 0 where
  pub active : r.active_zone.acquired_cnt ≡ sum_below n (λ i. active_in (d i).state)
  pub open_ : r.open_zone.acquired_cnt ≡ sum_below n (λ i. open_in (d i).state)
  pub zrwa : r.zrwa_zone.acquired_cnt ≡ leaked + sum_below n (λ i. zrwa_in (d i).zrwav (d i).state)
  pub active_bound : IsBounded r.active_zone
  pub open_bound : IsBounded r.open_zone
  pub zrwa_bound : IsBounded r.zrwa_zone
  pub clean : (i : ℕ) → (d i).state ≡ empty → (d i).zrwav ≡ false

-- A resource whose holder goes from holding `a` of it to holding `b`.
pub record IsMoved (a b : ℕ) (r r' : ZoneResourceInfo) : Type 0 where
  pub count : r'.acquired_cnt + a ≡ r.acquired_cnt + b
  pub bound : IsBounded r'

count_moves :
    (k k' n zid : ℕ) (q : Zone → ℕ) (d d' : ℕ → Zone) (m m' a b : ℕ)
    → m ≡ k + sum_below n (λ i. q (d i))
    → zid < n
    → ((i : ℕ) → i ≢ zid → d' i ≡ d i)
    → q (d zid) ≡ a
    → q (d' zid) ≡ b
    → m' + (k + a) ≡ m + (k' + b)
    → m' ≡ k' + sum_below n (λ i. q (d' i))
count_moves k k' n zid q d d' m m' a b e p other ea eb moved =
    let one = sum_below_one n (λ i. q (d i)) (λ i. q (d' i)) zid p (λ i ne. ap q (other i ne)) in
    omega (arith, one, e, ea, eb, moved)

-- A zone that changes its state, with the resources that it gains or gives up.
pub IsCounted-step :
    (leaked leaked' n zid : ℕ) (r r' : ResInfos) (d d' : ℕ → Zone) (s s' : ZoneState) (b b' : Bool)
    → IsCounted leaked n r d
    → zid < n
    → ((i : ℕ) → i ≢ zid → d' i ≡ d i)
    → (d zid).state ≡ s
    → (d zid).zrwav ≡ b
    → (d' zid).state ≡ s'
    → (d' zid).zrwav ≡ b'
    → IsMoved (active_in s) (active_in s') r.active_zone r'.active_zone
    → IsMoved (open_in s) (open_in s') r.open_zone r'.open_zone
    → IsMoved (leaked + zrwa_in b s) (leaked' + zrwa_in b' s') r.zrwa_zone r'.zrwa_zone
    → (s' ≡ empty → b' ≡ false)
    → IsCounted leaked' n r' d'
IsCounted-step leaked leaked' n zid r r' d d' s s' b b' c p other es eb es' eb' a o z clean =
    record {
      active = omega (
        arith,
        count_moves 0 0 n zid (λ t. active_in t.state) d d' r.active_zone.acquired_cnt
            r'.active_zone.acquired_cnt (active_in s) (active_in s') (omega (arith, c.active)) p
            other (ap active_in es) (ap active_in es') (omega (arith, a.count)),
      );
      open_ = omega (
        arith,
        count_moves 0 0 n zid (λ t. open_in t.state) d d' r.open_zone.acquired_cnt
            r'.open_zone.acquired_cnt (open_in s) (open_in s') (omega (arith, c.open_)) p other
            (ap open_in es) (ap open_in es') (omega (arith, o.count)),
      );
      zrwa =
          count_moves leaked leaked' n zid (λ t. zrwa_in t.zrwav t.state) d d' _ _ _ _ c.zrwa p
            other (rw es (rw eb refl)) (rw es' (rw eb' refl)) z.count;
      active_bound = a.bound;
      open_bound = o.bound;
      zrwa_bound = z.bound;
      clean = λ i e. elim (ℕ_discrete i zid) [
        | yes at ↦ rw at (eb' ∙ clean (sym es' ∙ sym (ap (λ j. (d' j).state) at) ∙ e))
        | no ne ↦
            ap (λ (t : Zone). t.zrwav) (other i ne)
            ∙ c.clean i (sym (ap (λ (t : Zone). t.state) (other i ne)) ∙ e)
      ];
    }

pub IsMoved-release :
    (a b : ℕ) (r : ZoneResourceInfo)
    → IsBounded r
    → a ≤ r.acquired_cnt
    → a ≡ suc b
    → IsMoved a b r (release r)
IsMoved-release a b r u le e = record {
  count = omega (arith, u.within, u.total, le, e);
  bound = record { within = omega (arith, u.within, u.total, le, e); total = u.total };
}

pub IsMoved-acquire :
    (a b : ℕ) (r : ZoneResourceInfo)
    → IsBounded r
    → r.acquired_cnt < r.total_cnt
    → suc a ≡ b
    → IsMoved a b r (acquire r)
IsMoved-acquire a b r u lt e = record {
  count = omega (arith, u.within, u.total, lt, e);
  bound = record { within = omega (arith, u.within, u.total, lt, e); total = u.total };
}

pub IsMoved-same : (a b : ℕ) (r : ZoneResourceInfo) → IsBounded r → a ≡ b → IsMoved a b r r
IsMoved-same a b r u e = record { count = omega (arith, e); bound = u }

-- The counts of the namespace.
abbrev pub IsAccounted : ℕ → ZnsFtl → Type 0
IsAccounted leaked f = IsCounted leaked f.zp.nr_zones f.res_infos f.zone_descs

module _ (leaked : ℕ) (f : ZnsFtl) (zid : ℕ) (c : IsAccounted leaked f)
    (p : zid < f.zp.nr_zones) where
  pub active_held : active_in (f.zone_descs zid).state ≤ f.res_infos.active_zone.acquired_cnt
  active_held =
      omega (arith, c.active, sum_below_ge _ (λ i. active_in (f.zone_descs i).state) zid p)

  pub open_held : open_in (f.zone_descs zid).state ≤ f.res_infos.open_zone.acquired_cnt
  open_held = omega (arith, c.open_, sum_below_ge _ (λ i. open_in (f.zone_descs i).state) zid p)

  pub zrwa_held :
      leaked + zrwa_in (f.zone_descs zid).zrwav (f.zone_descs zid).state
      ≤ f.res_infos.zrwa_zone.acquired_cnt
  zrwa_held = omega (
    arith,
    c.zrwa,
    sum_below_ge _ (λ i. zrwa_in (f.zone_descs i).zrwav (f.zone_descs i).state) zid p,
  )

pub IsMoved-to :
    (a b b' : ℕ) (r r' : ZoneResourceInfo) → b ≡ b' → IsMoved a b r r' → IsMoved a b' r r'
IsMoved-to a b b' r r' e m = record { count = omega (arith, m.count, e); bound = m.bound }

pub not_full :
    (r : ZoneResourceInfo)
    → IsBounded r
    → is_zone_resource_full r ≡ false
    → r.acquired_cnt < r.total_cnt
not_full r u e = omega (tests, e, u.within)

pub avail : (r : ZoneResourceInfo) → r.acquired_cnt < r.total_cnt → is_zone_resource_avail r ≡ true
avail r lt = ground (arith, lt)
