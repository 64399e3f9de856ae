-- ===== src/Base/Numbers.antt =====
-- Laws of quotients and rests that the components share.
use Prim.Native.Nat.{ℕ, ◌/◌, ◌%◌, ◌≤◌, ◌<◌}
use native.Mathlib.Omega.{arith}

pub mod_lt : (a b : ℕ) → 0 < b → a % b < b
mod_lt a b pos = grind arith

pub div_le : (a b : ℕ) → 0 < b → a / b ≤ a
div_le a b pos = grind arith

pub div_mono : (a b c : ℕ) → 0 < c → a ≤ b → a / c ≤ b / c
div_mono a b c pos le = grind arith
