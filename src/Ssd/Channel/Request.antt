-- ===== src/Ssd/Channel/Request.antt =====
-- chmodel_init and chmodel_request: the invariant of the credit ring, and what a request returns.
use dumping.Base.{
  ℕ, ◌+◌, ◌-◌, ◌%◌, ◌≤◌, ◌<◌, ◌≡◌, ◌≢◌, refl, arith, Bool, true, ◌∙◌, if◌then◌else◌, ltb, leb, ◌==◌,
  u8, u32, sub64, ◌^◌, ap, ◌/◌, ltb→lt, ==→eq, tests, leb→lt,
}
use native.Mathlib.Decide.{dec_lt}
use dumping.Base.Run.{Returns, Returns-bind, Returns-if}
use dumping.Ssd.Channel.{
  nr_credit_entries, unit_time_interval, ChannelModel, Xfer, memset, chmodel_init, passed,
  free_passed, advance_head, needed, finish_request, chmodel_request, mb, bandwidth_to_max_credits,
  total_latency, excess,
}
use dumping.Ssd.Channel.Transfer.{slot, IsTransfer, xfer_loop-Returns}

-- Beyond `valid_len` intervals from the head every entry is full.
pub record IsValid (ch : ChannelModel) : Type 0 where
  pub head_in : ch.head < nr_credit_entries
  pub window : ch.valid_len ≤ nr_credit_entries
  pub positive : 0 < ch.max_credits
  pub bounded : (i : ℕ) → i < nr_credit_entries → ch.avail_credits i ≤ u8 ch.max_credits
  pub fresh :
      (k : ℕ)
      → ch.valid_len ≤ k
      → k < nr_credit_entries
      → ch.avail_credits (slot ch.head k) ≡ u8 ch.max_credits

pub chmodel_init-IsValid :
    (old : ChannelModel) (bandwidth : ℕ)
    → 0 < u32 (bandwidth_to_max_credits bandwidth)
    → mb bandwidth ≢ 0
    → Returns IsValid (chmodel_init old bandwidth)
unfolding chmodel_init memset
chmodel_init-IsValid old bandwidth h ne = ground arith

free_passed_lower :
    (ch : ChannelModel) (offs i : ℕ)
    → IsValid ch
    → offs ≤ ch.valid_len
    → i < nr_credit_entries
    → free_passed ch offs i ≤ u8 ch.max_credits
unfolding free_passed memset
free_passed_lower ch offs i v h hi = ground (arith, v.bounded i hi)

-- An entry is refilled exactly if it lies fewer than `offs` intervals after the head.
free_passed_at :
    (ch : ChannelModel) (offs j d : ℕ)
    → IsValid ch
    → offs ≤ ch.valid_len
    → d < nr_credit_entries
    → j ≡ slot ch.head d
    → free_passed ch offs j ≡ (if ltb d offs then u8 ch.max_credits else ch.avail_credits j)
unfolding free_passed memset
free_passed_at ch offs j d v h hd e = ground (arith, v.head_in, v.window)

rw_fresh : {a v : ℕ} (b : Bool) → a ≡ v → (if b then v else a) ≡ v
rw_fresh b e = ground arith

free_passed_fresh :
    (ch : ChannelModel) (offs k : ℕ)
    → IsValid ch
    → offs ≤ ch.valid_len
    → ch.valid_len - offs ≤ k
    → k < nr_credit_entries
    → free_passed ch offs (slot (u32 (ch.head + offs) % nr_credit_entries) k) ≡ u8 ch.max_credits
free_passed_fresh ch offs k v h hk hn =
    let j = slot (u32 (ch.head + offs) % nr_credit_entries) k in
    elim (dec_lt (k + offs) nr_credit_entries) [
      | yes ahead ↦
          let same : j ≡ slot ch.head (k + offs) = omega (arith, v.head_in, v.window) in
          rw same (
            free_passed_at ch offs (slot ch.head (k + offs)) (k + offs) v h ahead refl
            ∙ rw_fresh (ltb (k + offs) offs) (v.fresh (k + offs) (omega arith) ahead))
      | no wrapped ↦
          let back = k + offs - nr_credit_entries in
          let same : j ≡ slot ch.head back = omega (arith, v.head_in, v.window) in
          let within : ltb back offs ≡ true = ground arith in
          rw same (
            free_passed_at ch offs (slot ch.head back) back v h (omega arith) refl ∙ rw within refl)
    ]

pub advance_head-IsValid :
    (ch : ChannelModel) (cur_time : ℕ) → IsValid ch → IsValid (advance_head ch cur_time)
unfolding advance_head
advance_head-IsValid ch cur_time v =
    let offs = passed ch cur_time in
    let small : offs ≤ ch.valid_len = ground arith in
    record {
      head_in = omega arith;
      window = omega (arith, v.window);
      positive = v.positive;
      bounded = λ i hi. free_passed_lower ch offs i v small hi;
      fresh = λ k p q. free_passed_fresh ch offs k v small p q;
    }

-- The ring after a request, and the time that the request is given.
pub record IsServed (ch : ChannelModel) (cur_time request_time : ℕ) (r : ChannelModel × ℕ)
    : Type 0 where
  pub valid : IsValid r.0
  pub now : r.0.cur_time ≡ cur_time
  pub same_rate : (r.0.max_credits ≡ ch.max_credits) × (r.0.xfer_lat ≡ ch.xfer_lat)
  pub not_early :
      request_time + 2 ^ 33 < 2 ^ 64 → (request_time ≤ r.1) × (r.1 < request_time + 2 ^ 33)

total_latency-lt :
    (ch : ChannelModel) (length delay : ℕ)
    → delay ≤ nr_credit_entries
    → total_latency ch length delay < 2 ^ 33
total_latency-lt ch length delay h = omega arith

excess-le : (delay default_delay : ℕ) → excess delay default_delay ≤ delay
excess-le delay default_delay = ground arith

finish_request-IsServed :
    (old ch : ChannelModel) (cur_time request_time length default_delay k : ℕ) (x y : Xfer)
    → IsValid ch
    → ch.cur_time ≡ cur_time
    → (ch.max_credits ≡ old.max_credits) × (ch.xfer_lat ≡ old.xfer_lat)
    → x.credits ≡ ch.avail_credits
    → x.delay ≡ 0
    → IsTransfer ch.head k x y
    → IsServed old cur_time request_time (finish_request ch request_time length default_delay y)
unfolding finish_request
finish_request-IsServed old ch cur_time request_time length default_delay k x y v now same ec ed t =
    let before : (i : ℕ) → x.credits i ≡ ch.avail_credits i = λ i. ap (λ f. f i) ec in
    record {
      valid = record {
        head_in = v.head_in;
        window = ground (arith, v.head_in, v.window, t.stops, t.inside);
        positive = v.positive;
        bounded = λ i hi. omega (arith, t.lower i, before i, v.bounded i hi);
        fresh = λ i p q. t.untouched i (ground arith) q ∙ before _ ∙ v.fresh i (ground arith) q;
      };
      now = now;
      same_rate = same;
      not_early = λ h. omega (
        arith,
        total_latency-lt ch length (excess y.delay default_delay)
            (omega (arith, excess-le y.delay default_delay, t.waited, t.inside)),
      );
    }

-- chmodel_request on a valid ring raises no BUG and ends; the ring stays valid at the same rate,
-- with the clock's time, and the time returned lies in [request_time, request_time + 2^33) where
-- that range stays below 2^64.
pub chmodel_request-IsServed :
    (cur_time : ℕ) (ch : ChannelModel) (request_time length : ℕ)
    → IsValid ch
    → Returns (IsServed ch cur_time request_time) (chmodel_request cur_time ch request_time length)
unfolding chmodel_request advance_head
chmodel_request-IsServed cur_time old request_time length v =
    let P = IsServed old cur_time request_time in
    Returns-if P (ltb nr_credit_entries ch.valid_len) _ _
      (λ over. absurd (omega (arith, v'.window, ltb→lt _ _ over)))
      λ _.
        Returns-if P (ltb request_time cur_time) _ _ (λ _. at_once)
          λ _.
            Returns-if P (leb nr_credit_entries offs) _ _ (λ _. at_once)
              λ near.
                Returns-if P (ch.max_credits == 0) _ _
                  (λ none. absurd (omega (arith, v'.positive, ==→eq _ _ none)))
                  λ _.
                    Returns-bind (IsTransfer ch.head offs start) P _ _
                      (xfer_loop-Returns nr_credit_entries ch.head offs start v'.head_in
                        (omega tests) (omega arith) (omega (tests, v'.head_in, leb→lt _ _ near))
                        (omega arith))
                      λ y t.
                        finish_request-IsServed old ch cur_time request_time length _ _ start y v'
                          now same refl refl t
  where
    ch : ChannelModel
    ch = advance_head old cur_time

    v' : IsValid ch
    v' = advance_head-IsValid old cur_time v

    now : ch.cur_time ≡ cur_time
    now = refl

    same : (ch.max_credits ≡ old.max_credits) × (ch.xfer_lat ≡ old.xfer_lat)
    same = (refl, refl)

    at_once : IsServed old cur_time request_time (ch, request_time)
    at_once = record {
      valid = v';
      now = now;
      same_rate = same;
      not_early = λ h. (omega arith, omega arith);
    }

    offs : ℕ
    offs = u32 (sub64 (request_time / unit_time_interval) (cur_time / unit_time_interval))

    start : Xfer
    start = record {
      credits = ch.avail_credits;
      pos = u32 (ch.head + offs) % nr_credit_entries;
      remaining = needed ch length;
      delay = 0;
    }
