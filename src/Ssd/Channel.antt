-- ===== src/Ssd/Channel.antt =====
-- channel_model.h and channel_model.c: a ring of bandwidth credits, one entry per time interval.
-- An array is a function of the index; `avail_credits` has NR_CREDIT_ENTRIES entries.
pub mod Transfer
pub mod Request
pub mod Copy
use dumping.Base.{
  ℕ, zero, suc, ◌+◌, ◌-◌, ◌*◌, ◌/◌, ◌%◌, ◌^◌, ◌&&◌, ltb, leb, ◌==◌, if◌then◌else◌, u8, u32, u64,
  sub32, sub64, div_round_up, update,
}
use dumping.Base.Run.{Run, ok, bug, out_of_fuel, ◌>>=◌, ◌>>◌, nvmev_assert}

abbrev pub nr_credit_entries : ℕ
nr_credit_entries = 1024 * 96

abbrev pub unit_time_interval : ℕ
unit_time_interval = 4000

abbrev pub unit_xfer_size : ℕ
unit_xfer_size = 128

abbrev pub unit_xfer_credits : ℕ
unit_xfer_credits = 1

pub record ChannelModel : Type 0 where
  pub cur_time : ℕ
  pub head : ℕ
  pub valid_len : ℕ
  pub max_credits : ℕ
  pub command_credits : ℕ
  pub xfer_lat : ℕ
  pub avail_credits : ℕ → ℕ

-- MB(m) on `uint64_t`.
abbrev pub mb : ℕ → ℕ
mb m = u64 (m * 2 ^ 20)

abbrev pub bandwidth_to_tx_time : ℕ → ℕ
bandwidth_to_tx_time m = unit_xfer_size * 10 ^ 9 / mb m

abbrev pub bandwidth_to_max_credits : ℕ → ℕ
bandwidth_to_max_credits m =
    u64 (mb m * unit_time_interval) / 10 ^ 9 / unit_xfer_size * unit_xfer_credits

-- MEMSET(&credits[from], value, len): the entries are bytes.
unfoldable pub memset : (ℕ → ℕ) → ℕ → ℕ → ℕ → ℕ → ℕ
memset credits from value len i = if leb from i && ltb i (from + len) then u8 value else credits i

-- `old` is what the memory held; a zero bandwidth divides by zero.
unfoldable pub chmodel_init : ChannelModel → ℕ → Run ChannelModel
chmodel_init old bandwidth =
    if mb bandwidth == 0
    then bug
    else ok (record {
      cur_time = 0;
      head = 0;
      valid_len = 0;
      max_credits = u32 (bandwidth_to_max_credits bandwidth);
      command_credits = 0;
      xfer_lat = u32 (bandwidth_to_tx_time bandwidth);
      avail_credits =
          memset old.avail_credits 0 (u32 (bandwidth_to_max_credits bandwidth)) nr_credit_entries;
    })

-- The variables of the `while (1)` of chmodel_request.
pub record Xfer : Type 0 where
  pub credits : ℕ → ℕ
  pub pos : ℕ
  pub remaining : ℕ
  pub delay : ℕ

abbrev pub consumed : Xfer → ℕ
consumed x = if leb x.remaining (x.credits x.pos) then x.remaining else x.credits x.pos

-- The loop's body up to its test.
pub take_credits : Xfer → Xfer
take_credits x = record x {
  credits = update x.credits x.pos (x.credits x.pos - consumed x);
  remaining = x.remaining - consumed x;
}

pub xfer_loop : ℕ → ℕ → Xfer → Run Xfer
xfer_loop zero head x = out_of_fuel
xfer_loop (suc fuel) head x =
    let y = take_credits x in
    let next_pos = (y.pos + 1) % nr_credit_entries in
    let rest = xfer_loop fuel head (record y { pos = next_pos; delay = u32 (y.delay + 1) }) in
    if y.remaining == 0 then ok y else if next_pos == head then ok y else rest

-- Moving the head to the current time frees the intervals that have passed.
abbrev pub passed : ChannelModel → ℕ → ℕ
passed ch cur_time =
    let offs = u32 (sub64 (cur_time / unit_time_interval) (ch.cur_time / unit_time_interval)) in
    if ltb offs ch.valid_len then offs else ch.valid_len

pub free_passed : ChannelModel → ℕ → ℕ → ℕ
free_passed ch offs =
    let tail = nr_credit_entries - ch.head in
    if leb nr_credit_entries (u32 (ch.head + offs))
    then memset (memset ch.avail_credits ch.head ch.max_credits tail) 0 ch.max_credits (offs - tail)
    else memset ch.avail_credits ch.head ch.max_credits offs

pub advance_head : ChannelModel → ℕ → ChannelModel
advance_head ch cur_time =
    let offs = passed ch cur_time in
    record ch {
      avail_credits = free_passed ch offs;
      head = u32 (ch.head + offs) % nr_credit_entries;
      cur_time = cur_time;
      valid_len = ch.valid_len - offs;
    }

abbrev pub units_to_xfer : ℕ → ℕ
units_to_xfer length = u32 (div_round_up length unit_xfer_size)

-- The credits that a transfer needs.
abbrev pub needed : ChannelModel → ℕ → ℕ
needed ch length = u32 (u32 (units_to_xfer length * unit_xfer_credits) + ch.command_credits)

-- The delay beyond the one that the bandwidth itself gives, and the transfer's latency.
abbrev pub excess : ℕ → ℕ → ℕ
excess delay default_delay = if ltb default_delay delay then delay - default_delay else 0

abbrev pub total_latency : ChannelModel → ℕ → ℕ → ℕ
total_latency ch length delay =
    u64 (u32 (ch.xfer_lat * units_to_xfer length) + delay * unit_time_interval)

-- The last part of chmodel_request: the loop has ended at `x`.
unfoldable pub finish_request : ChannelModel → ℕ → ℕ → ℕ → Xfer → ChannelModel × ℕ
finish_request ch request_time length default_delay x =
    let valid_length =
      if leb ch.head x.pos
      then x.pos - ch.head + 1
      else nr_credit_entries - (ch.head - x.pos - 1) in
    (
      record ch {
        avail_credits = x.credits;
        valid_len = if ltb ch.valid_len valid_length then valid_length else ch.valid_len;
      },
      u64 (request_time + total_latency ch length (excess x.delay default_delay)),
    )

-- `cur_time` is what the clock shows at the call.
pub chmodel_request : ℕ → ChannelModel → ℕ → ℕ → Run (ChannelModel × ℕ)
chmodel_request cur_time old request_time length =
    let ch = advance_head old cur_time in
    let request_time_offs =
      u32 (sub64 (request_time / unit_time_interval) (cur_time / unit_time_interval)) in
    let default_delay = needed ch length / ch.max_credits in
    let transfer =
      xfer_loop nr_credit_entries ch.head (record {
        credits = ch.avail_credits;
        pos = u32 (ch.head + request_time_offs) % nr_credit_entries;
        remaining = needed ch length;
        delay = 0;
      })
      >>= λ x. ok (finish_request ch request_time length default_delay x) in
    if ltb nr_credit_entries ch.valid_len
    then bug
    else if ltb request_time cur_time
    then ok (ch, request_time)
    else if leb nr_credit_entries request_time_offs
    then ok (ch, request_time)
    else if ch.max_credits == 0
    then bug
    else transfer

-- The loop of chmodel_request_copy takes `max_credits` in each round.
pub copy_loop : ℕ → ℕ → ℕ → ℕ → Run ℕ
copy_loop zero max_credits remaining delay = out_of_fuel
copy_loop (suc fuel) max_credits remaining delay =
    let left = if leb remaining max_credits then 0 else remaining - max_credits in
    let rest = copy_loop fuel max_credits left (u32 (delay + 1)) in
    if left == 0 then ok delay else rest

pub chmodel_request_copy : ChannelModel → ℕ → ℕ → Run ℕ
chmodel_request_copy ch request_time length =
    let need = needed ch length in
    let latency = copy_loop (need + 1) ch.max_credits need 0 >>= λ delay.
    ok (u64 (request_time + total_latency ch length (excess delay (need / ch.max_credits)))) in
    if ch.max_credits == 0 then bug else latency
