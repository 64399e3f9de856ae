-- ===== src/Ssd/Channel/Transfer.antt =====
-- The `while (1)` of chmodel_request: it ends, and takes the earliest credits there are.
use dumping.Base.{
  ℕ, zero, suc, ◌+◌, ◌-◌, ◌%◌, ◌≤◌, ◌<◌, ◌≡◌, ◌≢◌, refl, ap, ◌⊎◌, inl, inr, arith, ◌==◌, Bool-cases,
  u32, ◌∙◌, sum_below, sum_below-update,
}
use native.Mathlib.Decide.{dec_lt}
use dumping.Base.Run.{Returns, Returns-map}
use dumping.Ssd.Channel.{nr_credit_entries, Xfer, consumed, take_credits, xfer_loop}

-- The entry that lies `i` intervals after the head.
abbrev pub slot : ℕ → ℕ → ℕ
slot head i = (head + i) % nr_credit_entries

-- `y` is the outcome of the loop from `x`, which stood `k` intervals after the head.
pub record IsTransfer (head k : ℕ) (x y : Xfer) : Type 0 where
  pub last : ℕ
  pub forward : k ≤ last
  pub inside : last < nr_credit_entries
  pub stops : y.pos ≡ slot head last
  pub settled : (y.remaining ≡ 0) ⊎ (suc last ≡ nr_credit_entries)
  pub conserved :
      sum_below nr_credit_entries y.credits + x.remaining
      ≡ sum_below nr_credit_entries x.credits + y.remaining
  pub lower : (i : ℕ) → y.credits i ≤ x.credits i
  pub drained : (i : ℕ) → k ≤ i → i < last → y.credits (slot head i) ≡ 0
  pub untouched :
      (i : ℕ) → last < i → i < nr_credit_entries → y.credits (slot head i) ≡ x.credits (slot head i)
  pub waited : y.delay ≡ u32 (x.delay + (last - k))

pub slot_injective :
    (head i k : ℕ)
    → i < nr_credit_entries
    → k < nr_credit_entries
    → slot head i ≡ slot head k
    → i ≡ k
slot_injective head i k hi hk e = omega arith

slot_next :
    (head k : ℕ)
    → head < nr_credit_entries
    → k < nr_credit_entries
    → (slot head k + 1) % nr_credit_entries ≢ head
    → ((slot head k + 1) % nr_credit_entries ≡ slot head (k + 1)) × (k + 1 < nr_credit_entries)
slot_next head k hh hk e = omega arith

slot_end :
    (head k : ℕ)
    → head < nr_credit_entries
    → k < nr_credit_entries
    → (slot head k + 1) % nr_credit_entries ≡ head
    → suc k ≡ nr_credit_entries
slot_end head k hh hk e = omega arith

consumed_le : (x : Xfer) → (consumed x ≤ x.credits x.pos) × (consumed x ≤ x.remaining)
consumed_le x = ground arith

take_credits_lower : (x : Xfer) (i : ℕ) → (take_credits x).credits i ≤ x.credits i
unfolding take_credits
take_credits_lower x i = ground arith

take_credits_keeps :
    (x : Xfer) → ((take_credits x).pos ≡ x.pos) × ((take_credits x).delay ≡ x.delay)
unfolding take_credits
take_credits_keeps x = (refl, refl)

-- Where the transfer is not done, the entry is used up.
take_credits_empties :
    (x : Xfer) → (take_credits x).remaining ≢ 0 → (take_credits x).credits x.pos ≡ 0
unfolding take_credits
take_credits_empties x h = ground arith

module _ (head k : ℕ) (x : Xfer) (hh : head < nr_credit_entries) (hk : k < nr_credit_entries)
    (at : x.pos ≡ slot head k) where
  take_credits_conserves :
      sum_below nr_credit_entries (take_credits x).credits + x.remaining
      ≡ sum_below nr_credit_entries x.credits + (take_credits x).remaining
  unfolding take_credits
  take_credits_conserves = omega (
    arith,
    consumed_le x,
    sum_below-update nr_credit_entries x.credits x.pos (x.credits x.pos - consumed x) (omega arith),
  )

  take_credits_elsewhere :
      (i : ℕ)
      → i < nr_credit_entries
      → i ≢ k
      → (take_credits x).credits (slot head i) ≡ x.credits (slot head i)
  unfolding take_credits
  take_credits_elsewhere i hi ne =
      let apart : slot head i ≢ x.pos = λ e. ne (slot_injective head i k hi hk (e ∙ at)) in
      ground arith

  -- The loop stops in this round.
  stop_here :
      x.delay < 0x1_0000_0000
      → ((take_credits x).remaining ≡ 0) ⊎ (suc k ≡ nr_credit_entries)
      → IsTransfer head k x (take_credits x)
  unfolding take_credits
  stop_here small settled = record {
    last = k;
    forward = omega arith;
    inside = hk;
    stops = at;
    settled = settled;
    conserved = take_credits_conserves;
    lower = λ i. ground arith;
    drained = λ i p q. absurd (omega arith);
    untouched = λ i p q. take_credits_elsewhere i q (omega arith);
    waited = omega arith;
  }

  abbrev next_round : Xfer
  next_round = record (take_credits x) {
    pos = ((take_credits x).pos + 1) % nr_credit_entries;
    delay = u32 ((take_credits x).delay + 1);
  }

  -- The loop goes on to the next entry, and ends at `y`.
  stop_later :
      (y : Xfer)
      → (take_credits x).remaining ≢ 0
      → IsTransfer head (k + 1) next_round y
      → IsTransfer head k x y
  stop_later y more t = record {
    last = t.last;
    forward = omega (arith, t.forward);
    inside = t.inside;
    stops = t.stops;
    settled = t.settled;
    conserved = omega (arith, t.conserved, take_credits_conserves);
    lower = λ i. omega (arith, t.lower i, take_credits_lower x i);
    drained = λ i p q. elim (dec_lt k i) [
      | yes later ↦ t.drained i (omega arith) q
      | no now ↦
          let same : slot head i ≡ (take_credits x).pos = omega (arith, take_credits_keeps x) in
          rw same (
            omega (
              arith,
              t.lower (take_credits x).pos,
              take_credits_empties x more,
              ap (λ p. (take_credits x).credits p) (take_credits_keeps x).0,
            ))
    ];
    untouched = λ i p q. t.untouched i p q ∙ take_credits_elsewhere i q (omega (arith, t.forward));
    waited = omega (arith, t.waited, t.forward, take_credits_keeps x);
  }

pub xfer_loop-Returns :
    (fuel head k : ℕ) (x : Xfer)
    → head < nr_credit_entries
    → k < nr_credit_entries
    → nr_credit_entries ≤ fuel + k
    → x.pos ≡ slot head k
    → x.delay < 0x1_0000_0000
    → Returns (IsTransfer head k x) (xfer_loop fuel head x)
unfolding xfer_loop
xfer_loop-Returns zero head k x hh hk enough at small = absurd (omega arith)
xfer_loop-Returns (suc fuel) head k x hh hk enough at small =
    elim (Bool-cases ((take_credits x).remaining == 0)) [
      | inl done ↦ rw done (stop_here head k x hh hk at small (inl (ground arith)))
      | inr more ↦
          rw more (elim (Bool-cases (((take_credits x).pos + 1) % nr_credit_entries == head)) [
            | inl full ↦ rw full (
                stop_here head k x hh hk at small
                  (inr (slot_end head k hh hk (ground (arith, take_credits_keeps x)))))
            | inr room ↦ rw room (
                let next = slot_next head k hh hk (ground (arith, take_credits_keeps x)) in
                Returns-map (IsTransfer head (k + 1) (next_round head k x hh hk at))
                  (IsTransfer head k x) _
                  (xfer_loop-Returns fuel head (k + 1) (next_round head k x hh hk at) hh next.1
                    (omega arith) (ground (arith, take_credits_keeps x)) (omega arith))
                  (λ y t. stop_later head k x hh hk at y (ground arith) t))
          ])
    ]
