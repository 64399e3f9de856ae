-- ===== src/Conv/Pages/Count.antt =====
-- The counters of a block are the numbers of its pages in a state.
use dumping.Ssd.Ppa.{Ppa}
use dumping.Conv.Pages.{valid_in_block, invalid_in_block, is_status}
use dumping.Base.{
  sum_below_cong, sum_below_none, ◌≢◌, ℕ, true, ◌≡◌, ◌<◌, ◌≤◌, ◌+◌, ◌-◌, ◌&&◌, ltb, leb, refl,
  arith, tests, if◌then◌else◌, sum_below, sum_below_one, sum_three, sum_below_ge, update,
  update_same, update_other, ap, ◌∙◌,
}
use dumping.Base.Run.{Returns, Returns-assert}
use dumping.Conv.Ftl.{
  pg_free, pg_invalid, pg_valid, PageStatus, NandBlock, Blocks, get_blk, get_pg, set_blk,
}

abbrev pub flag : PageStatus → PageStatus → ℕ
flag s t = if is_status t s then 1 else 0

-- The pages in the state `s`, of the first `n`.
abbrev pub count : PageStatus → ℕ → (ℕ → PageStatus) → ℕ
count s n pg = sum_below n (λ i. flag s (pg i))

pub record IsBlock (n : ℕ) (k : NandBlock) : Type 0 where
  pub vpc : k.vpc ≡ count pg_valid n k.pg
  pub ipc : k.ipc ≡ count pg_invalid n k.pg

-- A page is in one of three states.
flag_all : (s : PageStatus) → flag pg_valid s + flag pg_invalid s + flag pg_free s ≡ 1
flag_all pg_free = refl
flag_all pg_invalid = refl
flag_all pg_valid = refl

pub count_all :
    (n : ℕ) (pg : ℕ → PageStatus)
    → count pg_valid n pg + count pg_invalid n pg + count pg_free n pg ≡ n
count_all n pg = omega (
  arith,
  sum_three n 1 (λ i. flag pg_valid (pg i)) (λ i. flag pg_invalid (pg i)) (λ i. flag pg_free (pg i))
      (λ i h. flag_all (pg i)),
)

pub count_update :
    (s : PageStatus) (n : ℕ) (pg : ℕ → PageStatus) (i : ℕ) (t : PageStatus)
    → i < n
    → count s n (update pg i t) + flag s (pg i) ≡ count s n pg + flag s t
count_update s n pg i t h =
    sum_below_one n (λ j. flag s (pg j)) (λ j. flag s (update pg i t j)) i h
      (λ j ne. ap (flag s) (update_other pg i t j ne))
    ∙ ap (λ x. count s n pg + flag s x) (update_same pg i t)

pub count_pos :
    (s : PageStatus) (n : ℕ) (pg : ℕ → PageStatus) (i : ℕ)
    → i < n
    → pg i ≡ s
    → is_status s s ≡ true
    → 0 < count s n pg
count_pos s n pg i h e r =
    let one : flag s (pg i) ≡ 1 = rw e (rw r refl) in
    omega (arith, one, sum_below_ge n (λ j. flag s (pg j)) i h)

flag_free : (s : PageStatus) → s ≢ pg_free → flag pg_free s ≡ 0
flag_free pg_free ne = absurd (ne refl)
flag_free pg_invalid ne = refl
flag_free pg_valid ne = refl

-- Where no page is free, none is counted.
pub count_none :
    (n : ℕ) (pg : ℕ → PageStatus) → ((i : ℕ) → i < n → pg i ≢ pg_free) → count pg_free n pg ≡ 0
count_none n pg h =
    sum_below_cong n (λ i. flag pg_free (pg i)) (λ i. 0) (λ i lt. flag_free (pg i) (h i lt))
    ∙ sum_below_none n

-- The block after a page has become valid.
abbrev pub validated : NandBlock → ℕ → NandBlock
validated k i = record k { pg = update k.pg i pg_valid; vpc = k.vpc + 1 }

abbrev pub invalidated : NandBlock → ℕ → NandBlock
invalidated k i = record k { pg = update k.pg i pg_invalid; ipc = k.ipc + 1; vpc = k.vpc - 1 }

pub validated-IsBlock :
    (n : ℕ) (k : NandBlock) (i : ℕ)
    → IsBlock n k
    → i < n
    → k.pg i ≡ pg_free
    → IsBlock n (validated k i)
validated-IsBlock n k i b h e =
    let none : flag pg_valid (k.pg i) ≡ 0 = rw e refl in
    let none' : flag pg_invalid (k.pg i) ≡ 0 = rw e refl in
    record {
      vpc = omega (arith, b.vpc, none, count_update pg_valid n k.pg i pg_valid h);
      ipc = omega (arith, b.ipc, none', count_update pg_invalid n k.pg i pg_valid h);
    }

pub invalidated-IsBlock :
    (n : ℕ) (k : NandBlock) (i : ℕ)
    → IsBlock n k
    → i < n
    → k.pg i ≡ pg_valid
    → IsBlock n (invalidated k i)
invalidated-IsBlock n k i b h e =
    let one : flag pg_valid (k.pg i) ≡ 1 = rw e refl in
    let none : flag pg_invalid (k.pg i) ≡ 0 = rw e refl in
    record {
      vpc = omega (arith, b.vpc, one, count_update pg_valid n k.pg i pg_invalid h);
      ipc = omega (arith, b.ipc, none, count_update pg_invalid n k.pg i pg_invalid h);
    }

pub valid_in_block-Returns :
    (b : Blocks) (a : Ppa) (n : ℕ)
    → IsBlock n (get_blk b a)
    → a.pg < n
    → get_pg b a ≡ pg_free
    → Returns (λ c. c ≡ set_blk b a (validated (get_blk b a) a.pg)) (valid_in_block b a n)
unfolding valid_in_block
valid_in_block-Returns b a n k h e =
    let P : Blocks → Type 0 = λ c. c ≡ set_blk b a (validated (get_blk b a) a.pg) in
    let free = count_pos pg_free n (get_blk b a).pg a.pg h e refl in
    let room : (get_blk b a).vpc < n = omega (arith, k.vpc, free, count_all n (get_blk b a).pg) in
    Returns-assert P (is_status (get_pg b a) pg_free) _ (rw e refl)
      (Returns-assert P (ltb (get_blk b a).vpc n) _ (grind (tests, room)) refl)

pub invalid_in_block-Returns :
    (b : Blocks) (a : Ppa) (n : ℕ)
    → IsBlock n (get_blk b a)
    → a.pg < n
    → get_pg b a ≡ pg_valid
    → Returns (λ c. c ≡ set_blk b a (invalidated (get_blk b a) a.pg)) (invalid_in_block b a n)
unfolding invalid_in_block
invalid_in_block-Returns b a n k h e =
    let P : Blocks → Type 0 = λ c. c ≡ set_blk b a (invalidated (get_blk b a) a.pg) in
    let some = count_pos pg_valid n (get_blk b a).pg a.pg h e refl in
    let all = count_all n (get_blk b a).pg in
    let v : 0 < (get_blk b a).vpc = omega (arith, k.vpc, some) in
    let v' : (get_blk b a).vpc ≤ n = omega (arith, k.vpc, all) in
    let i : (get_blk b a).ipc < n = omega (arith, k.ipc, some, all) in
    Returns-assert P (is_status (get_pg b a) pg_valid) _ (rw e refl) (
      Returns-assert P (ltb (get_blk b a).ipc n) _ (grind (tests, i)) (
        Returns-assert P (ltb 0 (get_blk b a).vpc && leb (get_blk b a).vpc n) _
          (grind (tests, v, v')) refl))
