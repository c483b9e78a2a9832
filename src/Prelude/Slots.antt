-- ===== src/Prelude/Slots.antt =====
-- C arrays as functions from indices: a read outside the array yields whatever the function holds
-- there, and a write outside it is visible, so bounds can be stated. `slots f i n` lists n of them.
use Prim.Native.Nat.{ℕ, zero, suc, ◌+◌, ◌≤◌, ◌<◌}
use mathlib.Core.Path.{◌≡◌, refl, ap}
use mathlib.Core.List.{List, [], ◌∷◌, ◌++◌}
use mathlib.Core.Option.{Option, none, some}
use native.Mathlib.Omega.{arith}
use pcon_tng.Prelude.Tests.{◌==◌, if◌then◌else◌}

module _ {ℓ} {A : Type ℓ} where
  -- f[i] = v
  abbrev pub update : (ℕ → A) → ℕ → A → ℕ → A
  update f i v j = if j == i then v else f j

  -- f[i], …, f[i + n - 1]
  unfoldable pub slots : (ℕ → A) → ℕ → ℕ → List A
  slots f i zero = []
  slots f i (suc n) = f i ∷ slots f (suc i) n

  abbrev pub length : List A → ℕ
  length [] = 0
  length (_ ∷ xs) = suc (length xs)

  abbrev pub get_elem? : List A → ℕ → Option A
  get_elem? [] i = none
  get_elem? (x ∷ xs) zero = some x
  get_elem? (x ∷ xs) (suc i) = get_elem? xs i

  abbrev pub get_or : List A → ℕ → A → A
  get_or [] i d = d
  get_or (x ∷ xs) zero d = x
  get_or (x ∷ xs) (suc i) d = get_or xs i d

module _ {ℓ} {A : Type ℓ} where
  pub length-slots : (f : ℕ → A) (i n : ℕ) → length (slots f i n) ≡ n
  unfolding slots
  length-slots f i zero = refl
  length-slots f i (suc n) = ap suc (length-slots f (suc i) n)

  pub slots-cong :
      (f g : ℕ → A) (i n : ℕ)
      → ((k : ℕ) → i ≤ k → k < i + n → g k ≡ f k)
      → slots g i n ≡ slots f i n
  unfolding slots
  slots-cong f g i zero same = refl
  slots-cong f g i (suc n) same = ground (
    arith,
    same i (omega arith) (omega arith),
    slots-cong f g (suc i) n (λ k h l. same k (omega arith) (omega arith)),
  )

  pub slots-shift :
      (f g : ℕ → A) (i n : ℕ)
      → ((k : ℕ) → i ≤ k → k < i + n → g (suc k) ≡ f k)
      → slots g (suc i) n ≡ slots f i n
  unfolding slots
  slots-shift f g i zero same = refl
  slots-shift f g i (suc n) same = ground (
    arith,
    same i (omega arith) (omega arith),
    slots-shift f g (suc i) n (λ k h l. same k (omega arith) (omega arith)),
  )

  pub slots-snoc : (f : ℕ → A) (i n p : ℕ) → p ≡ i + n → slots f i (suc n) ≡ slots f i n ++ f p ∷ []
  unfolding slots
  slots-snoc f i zero p e = let e' : p ≡ i = omega arith in rw e'
  slots-snoc f i (suc n) p e = ap (λ xs. f i ∷ xs) (slots-snoc f (suc i) n p (omega arith))
