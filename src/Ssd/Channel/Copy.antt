-- ===== src/Ssd/Channel/Copy.antt =====
-- chmodel_request_copy: its loop counts rounds of `max_credits` credits.
use dumping.Base.Run.{ok, Returns, Returns-inv, Returns-if, Returns-map}
use dumping.Base.{
  ℕ, zero, suc, ◌<◌, ◌+◌, ◌*◌, ◌≡◌, ◌^◌, ◌≤◌, ◌/◌, u64, arith, u32, suc, if◌then◌else◌, leb, ◌-◌,
  ◌==◌,
}
use dumping.Ssd.Channel.{ChannelModel, copy_loop, needed, units_to_xfer, chmodel_request_copy}

copy_loop-Returns :
    (fuel max_credits remaining delay : ℕ)
    → 0 < max_credits
    → remaining < fuel
    → delay + remaining < 2 ^ 32
    → Returns
        (λ d. d * max_credits ≤ delay * max_credits + remaining)
        (copy_loop fuel max_credits remaining delay)
unfolding copy_loop
copy_loop-Returns zero m r d pos enough small = absurd (omega arith)
copy_loop-Returns (suc fuel) m r d pos enough small =
    let left = if leb r m then 0 else r - m in
    Returns-if (λ e. e * m ≤ d * m + r) (left == 0) _ _ (λ _. omega arith)
      λ more.
        Returns-map (λ e. e * m ≤ u32 (d + 1) * m + left) (λ e. e * m ≤ d * m + r) _
          (copy_loop-Returns fuel m left (u32 (d + 1)) pos (ground arith) (ground arith))
          λ e h.
            let whole : u32 (d + 1) ≡ d + 1 = ground arith in
            let h' : e * m ≤ (d + 1) * m + left = rw whole at h in ground arith

le-div : (d m n : ℕ) → 0 < m → d * m ≤ n → d ≤ n / m
le-div d m n pos h = grind arith

-- A request to the copying model ends, and adds the transfer's latency and no delay.
pub chmodel_request_copy_lem :
    (ch : ChannelModel) (request_time length : ℕ)
    → 0 < ch.max_credits
    → chmodel_request_copy ch request_time length
      ≡ ok (u64 (request_time + u32 (ch.xfer_lat * units_to_xfer length)))
unfolding chmodel_request_copy
chmodel_request_copy_lem ch request_time length pos =
    let need = needed ch length in
    let (d, e, h) =
      Returns-inv (λ e. e * ch.max_credits ≤ 0 * ch.max_credits + need) _
        (copy_loop-Returns (need + 1) ch.max_credits need 0 pos (omega arith) (omega arith)) in
    let small = le-div d ch.max_credits need pos (omega arith) in ground arith
