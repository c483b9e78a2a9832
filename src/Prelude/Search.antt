-- ===== src/Prelude/Search.antt =====
-- What a bounded search through an array finds, and a counting argument on arrays.
use Prim.Native.Nat.{ℕ, zero, suc, ◌+◌, ◌≤◌, ◌<◌}
use mathlib.Core.Path.{◌≡◌, subst}
use mathlib.Core.Logic.{◌≢◌, ◌⊎◌, inl, inr}
use mathlib.Core.Option.{Option, none, some}
use native.Mathlib.Omega.{arith}
use pcon_tng.Prelude.Tests.{◌==◌, if◌then◌else◌, Bool-cases}
use pcon_tng.Prelude.Slots.{update}

-- What a search from `i` for a record with a property has found, where `n` records are left.
abbrev pub Hit : (ℕ → Type 0) → ℕ → ℕ → ℕ → Type 0
Hit P i n j = (i ≤ j) × (j < i + n) × P j × ((k : ℕ) → i ≤ k → k < j → ¬ P k)

abbrev pub Miss : (ℕ → Type 0) → ℕ → ℕ → Type 0
Miss P i n = (k : ℕ) → i ≤ k → k < i + n → ¬ P k

abbrev pub Found : (ℕ → Type 0) → ℕ → ℕ → Option ℕ → Type 0
Found P i n none = Miss P i n
Found P i n (some j) = Hit P i n j

pub split : (k i : ℕ) → i ≤ k → (i ≡ k) ⊎ (suc i ≤ k)
split k i h = omega arith

pub Found-here : (P : ℕ → Type 0) (i n : ℕ) → P i → Found P i (suc n) (some i)
Found-here P i n p = (omega arith, omega arith, p, λ k h l. absurd (omega arith))

pub Found-next :
    (P : ℕ → Type 0) (i n : ℕ) (o : Option ℕ) → ¬ P i → Found P (suc i) n o → Found P i (suc n) o
Found-next P i n none np f =
    λ k h l. elim (split k i h) [ inl e ↦ subst (λ x. ¬ P x) e np | inr g ↦ f k g (omega arith) ]
Found-next P i n (some j) np (a, b, c, d) = (
  omega arith,
  omega arith,
  c,
  λ k h l. elim (split k i h) [ inl e ↦ subst (λ x. ¬ P x) e np | inr g ↦ d k g l ],
)

-- The first of `n` indices from `i` where the array holds `v`.
unfoldable pub index_from : (ℕ → ℕ) → ℕ → ℕ → ℕ → Option ℕ
index_from f v i zero = none
index_from f v i (suc n) = if f i == v then some i else index_from f v (suc i) n

pub index_from-Found : (f : ℕ → ℕ) (v i n : ℕ) → Found (λ j. f j ≡ v) i n (index_from f v i n)
unfolding index_from
index_from-Found f v i zero = λ k h l. absurd (omega arith)
index_from-Found f v i (suc n) = elim (Bool-cases (f i == v)) [
  | inl e ↦ rw e (Found-here (λ j. f j ≡ v) i n (ground arith))
  | inr e ↦ rw e (Found-next (λ j. f j ≡ v) i n _ (ground arith) (index_from-Found f v (suc i) n))
]

abbrev pub Distinct : (ℕ → ℕ) → ℕ → Type 0
Distinct f n = (i j : ℕ) → i < j → j < n → f i ≢ f j

abbrev Below : ℕ → (ℕ → ℕ) → ℕ → Type 0
Below m f n = (k : ℕ) → k < n → f k < m

-- One step of the counting argument: where `m` occurs, the last number takes its place.
pigeonhole_step :
    (m : ℕ) (f : ℕ → ℕ) (n : ℕ) (o : Option ℕ)
    → ((g : ℕ → ℕ) (k : ℕ) → Below m g k → Distinct g k → k ≤ m)
    → Below (suc m) f (suc n)
    → Distinct f (suc n)
    → Found (λ j. f j ≡ m) 0 (suc n) o
    → suc n ≤ suc m
pigeonhole_step m f n none ih below distinct miss = omega (
  arith,
  ih f (suc n) (λ k h. omega (arith, below k h, miss k (omega arith) (omega arith))) distinct,
)
pigeonhole_step m f n (some p) ih below distinct (a, b, c, d) =
    omega (arith, ih (update f p (f n)) n small apart)
  where
    small : Below m (update f p (f n)) n
    small k h = ground (
      arith,
      below n (omega arith),
      below k (omega arith),
      distinct p n,
      distinct p k,
      distinct k p,
    )

    apart : Distinct (update f p (f n)) n
    apart i j h l = ground (arith, distinct i j h (omega arith), distinct i n, distinct j n)

-- Distinct numbers below `m` are at most `m`.
pub pigeonhole : (m : ℕ) (f : ℕ → ℕ) (n : ℕ) → Below m f n → Distinct f n → n ≤ m
pigeonhole zero f zero below distinct = omega arith
pigeonhole zero f (suc n) below distinct = absurd (omega (arith, below 0 (omega arith)))
pigeonhole (suc m) f zero below distinct = omega arith
pigeonhole (suc m) f (suc n) below distinct =
    pigeonhole_step m f n (index_from f m 0 (suc n)) (pigeonhole m) below distinct
      (index_from-Found f m 0 (suc n))
