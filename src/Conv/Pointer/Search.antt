-- ===== src/Conv/Pointer/Search.antt =====
-- The search for a chip with room ends, and misses none.
use dumping.Conv.Pointer.{next_chip, chip_index, find_room}
use dumping.Ssd.Params.{SsdParams}
use native.Mathlib.Decide.{ℕ_discrete, dec_lt}
use dumping.Base.{
  ℕ, zero, suc, false, Option, some, none, ◌≡◌, ◌<◌, ◌≤◌, ◌+◌, ◌*◌, ◌-◌, ltb, arith, tests, ◌⊎◌,
  inl, inr, ◌^◌, u32, ◌==◌, not, ◌||◌, ap, subst, sym, ltb→lt, ltb→le, if_cases, ◌-◌,
}
use dumping.Base.Run.{ok, Returns, Returns-assert, Returns-bind, Returns-if}

-- The chips of the device, fewer than 2^31 of them.
pub record IsChips (p : SsdParams) : Type 0 where
  pub chs : p.nchs < 2 ^ 31
  pub luns : p.luns_per_ch < 2 ^ 31

abbrev pub IsChip : SsdParams → ℕ × ℕ → Type 0
IsChip p (ch, lun) = (ch < p.nchs) × (lun < p.luns_per_ch)

-- The place of a chip in the order of the search.
abbrev place : SsdParams → ℕ × ℕ → ℕ
place p (ch, lun) = lun * p.nchs + ch

abbrev chips : SsdParams → ℕ
chips p = p.nchs * p.luns_per_ch

-- The chip has no free page in the current line.
abbrev pub IsFull : SsdParams → (ℕ → ℕ) → ℕ × ℕ → Type 0
IsFull p counter (ch, lun) = p.pgs_per_blk ≤ counter (chip_index p ch lun)

-- What the search returns.
abbrev pub IsFound : SsdParams → (ℕ → ℕ) → Option (ℕ × ℕ) → Type 0
IsFound p counter none = (x : ℕ × ℕ) → IsChip p x → IsFull p counter x
IsFound p counter (some (c, l)) = IsChip p (c, l) × (counter (chip_index p c l) < p.pgs_per_blk)

-- `k` comes `i` places after `s`, in a cycle of `n`.
abbrev IsAfter : ℕ → ℕ → ℕ → ℕ → Type 0
IsAfter n s i k = (k ≡ s + i) ⊎ (k + n ≡ s + i)

row_end : (lun luns n ch : ℕ) → lun < luns → ch < n → lun * n + ch < n * luns
row_end lun luns n ch h k = grind arith

row_next : (lun n : ℕ) → (lun + 1) * n ≡ lun * n + n
row_next lun n = grind arith

row_last : (n luns lun : ℕ) → lun + 1 ≡ luns → n * luns ≡ lun * n + n
row_last n luns lun e = rw (sym e) (grind arith)

place_lt : (p : SsdParams) (x : ℕ × ℕ) → IsChip p x → place p x < chips p
place_lt p x h = row_end x.1 p.luns_per_ch p.nchs x.0 h.1 h.0

row_inj : (a b x y n : ℕ) → x < n → y < n → a * n + x ≡ b * n + y → a ≡ b
row_inj a b x y n h k e = grind arith

place_inj : (p : SsdParams) (x y : ℕ × ℕ) → IsChip p x → IsChip p y → place p x ≡ place p y → x ≡ y
place_inj p (c, l) (d, m) h k e =
    let same : l ≡ m = row_inj l m c d p.nchs h.0 k.0 e in
    let same' : c ≡ d = omega (arith, e, ap (λ t. t * p.nchs) same) in cc

-- One step of the search.
abbrev IsNext : SsdParams → ℕ × ℕ → ℕ × ℕ → Type 0
IsNext p x y =
    IsChip p y × ((place p y ≡ place p x + 1) ⊎ ((place p y ≡ 0) × (place p x + 1 ≡ chips p)))

next_chip-Returns :
    (p : SsdParams) (ch lun : ℕ)
    → IsChips p
    → IsChip p (ch, lun)
    → Returns (IsNext p (ch, lun)) (next_chip p ch lun)
unfolding next_chip
next_chip-Returns p ch lun s h =
    let P : ℕ × ℕ → Type 0 = IsNext p (ch, lun) in
    Returns-assert P (ltb ch p.nchs) _ (grind (tests, h.0)) (
      Returns-if P (u32 (ch + 1) == p.nchs) _ (ok (u32 (ch + 1), lun))
        (λ e.
          let row : ch + 1 ≡ p.nchs = omega (tests, e, h.0, s.chs) in
          Returns-assert P (ltb lun p.luns_per_ch) _ (grind (tests, h.1)) (
            if_cases (λ l. P (0, l)) (u32 (lun + 1) == p.luns_per_ch) 0 (u32 (lun + 1))
              (λ e'.
                let last : lun + 1 ≡ p.luns_per_ch = omega (tests, e', h.1, s.luns) in
                (
                  (omega (arith, row), omega (arith, last)),
                  inr (omega arith, omega (arith, row, row_last p.nchs p.luns_per_ch lun last)),
                ))
              (λ e'.
                let next : u32 (lun + 1) ≡ lun + 1 = omega (arith, h.1, s.luns) in
                (
                  (omega (arith, row), omega (tests, e', next, h.1)),
                  inl (rw next (omega (arith, row, row_next lun p.nchs))),
                ))))
        (λ e.
          let next : u32 (ch + 1) ≡ ch + 1 = omega (arith, h.0, s.chs) in
          ((omega (tests, e, next, h.0), h.1), inl (omega (arith, next)))))

-- The chip that is as far on as another is the same.
after_same :
    (p : SsdParams) (s i : ℕ) (x y : ℕ × ℕ)
    → IsChip p x
    → IsChip p y
    → IsAfter (chips p) s i (place p x)
    → IsAfter (chips p) s i (place p y)
    → x ≡ y
after_same p s i x y h k a b =
    place_inj p x y h k (omega (arith, place_lt p x h, place_lt p y k, a, b))

-- Every chip comes after the start, at most a whole round later.
how_far : (n s k : ℕ) → s < n → k < n → (i : ℕ) × (0 < i) × (i ≤ n) × IsAfter n s i k
how_far n s k h h' = elim (dec_lt s k) [
  | yes lt ↦ (k - s, omega (arith, lt), omega (arith, h'), inl (omega (arith, lt)))
  | no ge ↦ (k + n - s, omega (arith, h), omega (arith, ge), inr (omega (arith, ge, h)))
]

one_further :
    (n s j k k' : ℕ)
    → s < n
    → j < n
    → IsAfter n s j k
    → (k' ≡ k + 1) ⊎ ((k' ≡ 0) × (k + 1 ≡ n))
    → IsAfter n s (j + 1) k'
one_further n s j k k' h h' (inl a) (inl b) = inl (omega (arith, a, b))
one_further n s j k k' h h' (inl a) (inr b) = inr (omega (arith, a, b.0, b.1))
one_further n s j k k' h h' (inr a) (inl b) = inr (omega (arith, a, b))
one_further n s j k k' h h' (inr a) (inr b) = absurd (omega (arith, h, h', a, b.0, b.1))

whole_round : (n s k : ℕ) → k < n → IsAfter n s n k → k ≡ s
whole_round n s k h (inl a) = absurd (omega (arith, h, a))
whole_round n s k h (inr a) = omega (arith, a)

back_whole : (n s j : ℕ) → j < n → IsAfter n s (j + 1) s → j + 1 ≡ n
back_whole n s j h (inl a) = absurd (omega (arith, a))
back_whole n s j h (inr a) = omega (arith, a)

is_back : (c c0 l l0 : ℕ) → (not (c == c0) || not (l == l0)) ≡ false → (c ≡ c0) × (l ≡ l0)
is_back c c0 l l0 e = (grind (tests, e), grind (tests, e))

is_away : (c l : ℕ) → (not (c == c) || not (l == l)) ≡ false
is_away c l = ground arith

-- The chips up to the `j`-th after the start are full.
abbrev Seen : SsdParams → (ℕ → ℕ) → ℕ → ℕ → Type 0
Seen p counter s j =
    (z : ℕ × ℕ) (i : ℕ)
    → IsChip p z
    → 0 < i
    → i ≤ j
    → IsAfter (chips p) s i (place p z)
    → IsFull p counter z

Seen-next :
    (p : SsdParams) (counter : ℕ → ℕ) (s j : ℕ) (y : ℕ × ℕ)
    → Seen p counter s j
    → IsChip p y
    → IsAfter (chips p) s (j + 1) (place p y)
    → IsFull p counter y
    → Seen p counter s (j + 1)
Seen-next p counter s j y seen h a full z i k pos le b = elim (ℕ_discrete i (j + 1)) [
  | yes e ↦
      let same : y ≡ z =
        after_same p s (j + 1) y z h k a (subst (λ t. IsAfter (chips p) s t (place p z)) e b) in
      subst (IsFull p counter) same full
  | no ne ↦ seen z i k pos (omega (arith, le, ne)) b
]

module _ (p : SsdParams) (counter : ℕ → ℕ) (c0 l0 : ℕ) (s : IsChips p)
    (h0 : IsChip p (c0, l0)) where
  find_room_from :
      (fuel j ch lun : ℕ)
      → IsChip p (ch, lun)
      → j < chips p
      → j + fuel ≡ chips p
      → IsAfter (chips p) (place p (c0, l0)) j (place p (ch, lun))
      → Seen p counter (place p (c0, l0)) j
      → Returns (IsFound p counter) (find_room fuel p counter c0 l0 ch lun)
  unfolding find_room
  find_room_from zero j ch lun h lt fuelled a seen = absurd (omega (arith, lt, fuelled))
  find_room_from (suc fuel) j ch lun h lt fuelled a seen =
      let P : Option (ℕ × ℕ) → Type 0 = IsFound p counter in
      let here : place p (ch, lun) < chips p = place_lt p (ch, lun) h in
      let start : place p (c0, l0) < chips p = place_lt p (c0, l0) h0 in
      Returns-bind (IsNext p (ch, lun)) P _ _ (next_chip-Returns p ch lun s h) (λ (c, l) n.
        let there : place p (c, l) < chips p = place_lt p (c, l) n.0 in
        let a' : IsAfter (chips p) (place p (c0, l0)) (j + 1) (place p (c, l)) =
          one_further (chips p) (place p (c0, l0)) j (place p (ch, lun)) (place p (c, l)) start lt a
            n.1 in
        Returns-if P (ltb (counter (chip_index p c l)) p.pgs_per_blk) _ _ (λ e. (n.0, ltb→lt _ _ e))
          (λ e.
            let seen' : Seen p counter (place p (c0, l0)) (j + 1) =
              Seen-next p counter (place p (c0, l0)) j (c, l) seen n.0 a' (ltb→le _ _ e) in
            Returns-if P (not (c == c0) || not (l == l0)) _ (ok none)
              (λ away. elim (ℕ_discrete (j + 1) (chips p)) [
                | yes e' ↦
                    let same : (c, l) ≡ (c0, l0) =
                      place_inj p (c, l) (c0, l0) n.0 h0
                        (whole_round (chips p) (place p (c0, l0)) (place p (c, l)) there (
                          subst (λ t. IsAfter (chips p) (place p (c0, l0)) t (place p (c, l))) e'
                            a')) in
                    let stay : (not (c == c0) || not (l == l0)) ≡ false =
                      subst (λ (x : ℕ × ℕ). (not (x.0 == c0) || not (x.1 == l0)) ≡ false) (sym same)
                        (is_away c0 l0) in
                    absurd cc
                | no ne ↦
                    find_room_from fuel (j + 1) c l n.0 (omega (arith, lt, ne))
                      (omega (arith, fuelled)) a' seen'
              ])
              (λ back z k.
                let far = how_far (chips p) (place p (c0, l0)) (place p z) start (place_lt p z k) in
                let (ec, el) = is_back c c0 l l0 back in
                let same : place p (c, l) ≡ place p (c0, l0) =
                  omega (arith, ec, ap (λ t. t * p.nchs) el) in
                let whole : j + 1 ≡ chips p =
                  back_whole (chips p) (place p (c0, l0)) j lt
                    (subst (λ t. IsAfter (chips p) (place p (c0, l0)) (j + 1) t) same a') in
                seen' z far.0 k far.1 (omega (arith, whole, far.2)) far.3)))

-- The search for a chip with room, from a chip of the device, ends within as many rounds as there
-- are chips: it returns a chip whose page counter is below the pages of a block, or nothing, and
-- then every chip is full.
pub find_room-IsFound :
    (p : SsdParams) (counter : ℕ → ℕ) (ch lun : ℕ)
    → IsChips p
    → IsChip p (ch, lun)
    → Returns (IsFound p counter) (find_room (p.nchs * p.luns_per_ch) p counter ch lun ch lun)
find_room-IsFound p counter ch lun s h =
    let start : place p (ch, lun) < chips p = place_lt p (ch, lun) h in
    find_room_from p counter ch lun s h (chips p) 0 ch lun h (omega (arith, start)) (omega arith)
      (inl (omega arith)) (λ z i k pos le a. absurd (omega (arith, pos, le)))
