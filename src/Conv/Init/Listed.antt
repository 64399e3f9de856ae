-- ===== src/Conv/Init/Listed.antt =====
-- The lines that the loop of init_lines leaves (conv_ftl.c).
use dumping.Conv.Lines.{init_free}
use dumping.Base.{
  zero, suc, ℕ, List, [], ◌∷◌, ◌++◌, ◌≡◌, ◌<◌, ◌≤◌, ◌+◌, ◌-◌, ◌^◌, arith, ap, ◌∙◌, update_same,
  update_other, sym,
}
use dumping.Conv.Ftl.{LineMgmt}
use native.Mathlib.Decide.{ℕ_discrete}

-- The `n` numbers from `i` on.
pub lines_from : ℕ → ℕ → List ℕ
lines_from i zero = []
lines_from i (suc n) = i ∷ lines_from (i + 1) n

lines_from_last : (n i : ℕ) → lines_from i (suc n) ≡ lines_from i n ++ (i + n) ∷ []
unfolding lines_from
lines_from_last zero i = ap (λ k. k ∷ []) (omega arith)
lines_from_last (suc n) i =
    ap (λ (l : List ℕ). i ∷ l)
      (lines_from_last n (i + 1) ∙ ap (λ k. lines_from (i + 1) n ++ k ∷ []) (omega arith))

module _ {Q : Type 0} where
  pub init_free_line :
      (n : ℕ) (m : LineMgmt Q) (i : ℕ)
      → i < n
      → (init_free n m).lines i ≡ record { id = i; ipc = 0; vpc = 0; pos = 0 }
  unfolding init_free
  init_free_line zero m i h = absurd (omega arith)
  init_free_line (suc n) m i h = elim (ℕ_discrete i n) [
    | yes e ↦
        rw e (update_same (init_free n m).lines n (record { id = n; ipc = 0; vpc = 0; pos = 0 }))
    | no ne ↦
        update_other (init_free n m).lines n (record { id = n; ipc = 0; vpc = 0; pos = 0 }) i ne
        ∙ init_free_line n m i (omega (arith, ne))
  ]

  pub init_free_cnt :
      (n : ℕ) (m : LineMgmt Q)
      → m.free_line_cnt ≡ 0
      → n < 2 ^ 32
      → (init_free n m).free_line_cnt ≡ n
  unfolding init_free
  init_free_cnt zero m e h = e
  init_free_cnt (suc n) m e h = omega (arith, init_free_cnt n m e (omega arith))

  -- The lines stand in the list in their order.
  init_free_list :
      (n : ℕ) (m : LineMgmt Q)
      → m.free_line_list ≡ []
      → (init_free n m).free_line_list ≡ lines_from 0 n
  unfolding init_free lines_from
  init_free_list zero m e = e
  init_free_list (suc n) m e =
      ap (λ (l : List ℕ). l ++ n ∷ []) (init_free_list n m e)
      ∙ ap (λ k. lines_from 0 n ++ k ∷ []) (omega arith)
      ∙ sym (lines_from_last n 0)

pub init_first :
    {Q : Type 0} (n : ℕ) (m : LineMgmt Q)
    → 2 ≤ n
    → m.free_line_list ≡ []
    → (init_free n m).free_line_list ≡ 0 ∷ 1 ∷ lines_from 2 (n - 2)
unfolding lines_from
init_first n m h e =
    let two_more : n ≡ suc (suc (n - 2)) = omega (arith, h) in
    init_free_list n m e ∙ ap (lines_from 0) two_more
