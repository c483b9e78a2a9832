-- ===== src/Prelude/Below.antt =====
-- A Boolean test on every number below a bound, for facts about tables.
use Prim.Native.Nat.{ℕ, zero, suc, ◌<◌}
use mathlib.Core.Path.{◌≡◌}
use mathlib.Core.Logic.{inl, inr}
use mathlib.Core.Bool.{Bool, true, ◌&&◌}
use native.Mathlib.Omega.{arith}
use pcon_tng.Prelude.Tests.{◌==◌, Bool-cases}

pub and_left : (a b : Bool) → (a && b) ≡ true → a ≡ true
and_left a b h = ground arith

pub and_right : (a b : Bool) → (a && b) ≡ true → b ≡ true
and_right a b h = ground arith

-- A test that holds below a bound, and what it gives.
unfoldable pub all_below : ℕ → (ℕ → Bool) → Bool
all_below zero p = true
all_below (suc n) p = p n && all_below n p

pub all_below-at : (n : ℕ) (p : ℕ → Bool) → all_below n p ≡ true → (k : ℕ) → k < n → p k ≡ true
unfolding all_below
all_below-at zero p h k l = absurd (omega arith)
all_below-at (suc n) p h k l = elim (Bool-cases (k == n)) [
  | inl same ↦ let e : k ≡ n = ground arith in rw e (and_left (p n) (all_below n p) h)
  | inr other ↦ all_below-at n p (and_right (p n) (all_below n p) h) k (ground arith)
]
