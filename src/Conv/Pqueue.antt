-- ===== src/Conv/Pqueue.antt =====
-- The priority queue of pqueue/pqueue.h, as the FTL uses it for its victim lines: a record of
-- operations on the queue and on the array of lines whose `vpc` and `pos` its callbacks set
-- (victim_line_get_pri and the other victim_line_ functions), and the laws that the FTL relies on.
use dumping.Base.{Bool, true, false, Option, some, none, ◌≡◌, ◌≢◌, ◌<◌, update, ℕ}

-- struct line, without the list links: a list of lines is a list of their ids.
pub record Line : Type 0 where
  pub id : ℕ
  pub ipc : ℕ
  pub vpc : ℕ
  pub pos : ℕ

-- `new` is `old` but for its position in the queue.
pub record IsMoved (old new : Line) : Type 0 where
  pub id : new.id ≡ old.id
  pub ipc : new.ipc ≡ old.ipc
  pub vpc : new.vpc ≡ old.vpc

pub record Pqueue (Q : Type 0) : Type 0 where
  pub empty : Q
  pub has : Q → ℕ → Bool
  pub insert : Q → (ℕ → Line) → ℕ → Q × (ℕ → Line)
  pub change_priority : Q → (ℕ → Line) → ℕ → ℕ → Q × (ℕ → Line)
  pub pop : Q → (ℕ → Line) → Q × (ℕ → Line)
  pub peek : Q → Option ℕ

-- The laws: which lines are queued, and what becomes of the lines' fields. The position of
-- a queued line is not 0, since the first entry of the heap is not used.
pub record IsPqueue (Q : Type 0) (pq : Pqueue Q) : Type 0 where
  pub has-empty : (i : ℕ) → pq.has pq.empty i ≡ false
  pub has-insert :
      (q : Q) (ls : ℕ → Line) (d i : ℕ) → pq.has (pq.insert q ls d).0 i ≡ update (pq.has q) d true i
  pub insert_moves : (q : Q) (ls : ℕ → Line) (d i : ℕ) → IsMoved (ls i) ((pq.insert q ls d).1 i)
  pub insert_pos : (q : Q) (ls : ℕ → Line) (d : ℕ) → 0 < ((pq.insert q ls d).1 d).pos
  pub insert_others :
      (q : Q) (ls : ℕ → Line) (d i : ℕ)
      → pq.has q i ≡ true
      → 0 < (ls i).pos
      → 0 < ((pq.insert q ls d).1 i).pos
  pub insert_out :
      (q : Q) (ls : ℕ → Line) (d i : ℕ)
      → i ≢ d
      → pq.has q i ≡ false
      → ((pq.insert q ls d).1 i).pos ≡ (ls i).pos
  pub has-change :
      (q : Q) (ls : ℕ → Line) (pri d i : ℕ)
      → pq.has (pq.change_priority q ls pri d).0 i ≡ pq.has q i
  pub change_moves :
      (q : Q) (ls : ℕ → Line) (pri d i : ℕ)
      → IsMoved (update ls d (record (ls d) { vpc = pri }) i) ((pq.change_priority q ls pri d).1 i)
  pub change_pos :
      (q : Q) (ls : ℕ → Line) (pri d i : ℕ)
      → pq.has q i ≡ true
      → 0 < (ls i).pos
      → 0 < ((pq.change_priority q ls pri d).1 i).pos
  pub change_out :
      (q : Q) (ls : ℕ → Line) (pri d i : ℕ)
      → pq.has q d ≡ true
      → pq.has q i ≡ false
      → ((pq.change_priority q ls pri d).1 i).pos ≡ (ls i).pos
  pub peek_has : (q : Q) (d : ℕ) → pq.peek q ≡ some d → pq.has q d ≡ true
  pub peek_none : (q : Q) (i : ℕ) → pq.peek q ≡ none → pq.has q i ≡ false
  pub has-pop :
      (q : Q) (ls : ℕ → Line) (d i : ℕ)
      → pq.peek q ≡ some d
      → pq.has (pq.pop q ls).0 i ≡ update (pq.has q) d false i
  pub pop_moves : (q : Q) (ls : ℕ → Line) (i : ℕ) → IsMoved (ls i) ((pq.pop q ls).1 i)
  pub pop_pos :
      (q : Q) (ls : ℕ → Line) (i : ℕ)
      → pq.has q i ≡ true
      → 0 < (ls i).pos
      → 0 < ((pq.pop q ls).1 i).pos
  pub pop_out :
      (q : Q) (ls : ℕ → Line) (i : ℕ) → pq.has q i ≡ false → ((pq.pop q ls).1 i).pos ≡ (ls i).pos
