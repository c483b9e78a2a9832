-- ===== src/ListMaint/Cells.antt =====
-- An array with a count as a list: what the searches and the shifts of list_maint.c do to it.
use pcon_tng.Prelude.{
  ℕ, zero, suc, ◌+◌, ◌≤◌, ◌<◌, ◌≡◌, ◌≢◌, refl, ap, ◌∙◌, inl, inr, List, [], ◌∷◌, ◌++◌, Bool, true,
  false, ◌||◌, ◌&&◌, arith, ltb, leb, if◌then◌else◌, Bool-cases, ℤ, eq_ℤ, eq_of_parts, update,
  slots, slots-cong, slots-shift, slots-snoc,
}
use pcon_tng.Prelude.Search.{Found, Found-here, Found-next, split}
use pcon_tng.ListMaint.{find_elm, shift_elms}

-- The list that an array and a count stand for.
abbrev pub elms : (ℕ → ℤ) × ℕ → List ℤ
elms (arr, n) = slots arr 0 n

unfoldable pub has : ℤ → List ℤ → Bool
has v [] = false
has v (x ∷ xs) = eq_ℤ x v || has v xs

-- The list without the first `v`.
unfoldable pub erase : ℤ → List ℤ → List ℤ
erase v [] = []
erase v (x ∷ xs) = if eq_ℤ x v then xs else x ∷ erase v xs

abbrev pub DistinctElms : (ℕ → ℤ) → ℕ → Type 0
DistinctElms arr n = (i j : ℕ) → i < j → j < n → arr i ≢ arr j

eq_ℤ_sound : (a b : ℤ) → eq_ℤ a b ≡ true → a ≡ b
eq_ℤ_sound a b h = ground (arith, eq_of_parts a b)

eq_ℤ_ne : (a b : ℤ) → eq_ℤ a b ≡ false → a ≢ b
eq_ℤ_ne a b h = ground arith

eq_ℤ_refl : (a : ℤ) → eq_ℤ a a ≡ true
eq_ℤ_refl a = ground arith

ne-eq_ℤ : (a b : ℤ) → a ≢ b → eq_ℤ a b ≡ false
ne-eq_ℤ a b h = ground (arith, eq_of_parts a b)

pub find_elm-Found :
    (arr : ℕ → ℤ) (v : ℤ) (i n : ℕ) → Found (λ j. arr j ≡ v) i n (find_elm arr v i n)
unfolding find_elm
find_elm-Found arr v i zero = λ k h l. absurd (omega arith)
find_elm-Found arr v i (suc n) = elim (Bool-cases (eq_ℤ (arr i) v)) [
  | inl e ↦ rw e (Found-here (λ j. arr j ≡ v) i n (eq_ℤ_sound _ _ e))
  | inr e ↦
      rw e (Found-next (λ j. arr j ≡ v) i n _ (eq_ℤ_ne _ _ e) (find_elm-Found arr v (suc i) n))
]

pub shift_elms_lem :
    (arr : ℕ → ℤ) (i n j : ℕ)
    → shift_elms arr i n j ≡ (if leb i j && ltb j (i + n) then arr (suc j) else arr j)
unfolding shift_elms
shift_elms_lem arr i zero j = ground arith
shift_elms_lem arr i (suc n) j =
    ground (arith, shift_elms_lem (update arr i (arr (suc i))) (suc i) n j)

pub slots-erase :
    (arr g : ℕ → ℤ) (v : ℤ) (p i n : ℕ)
    → i ≤ p
    → p < i + suc n
    → arr p ≡ v
    → ((k : ℕ) → i ≤ k → k < p → arr k ≢ v)
    → ((k : ℕ) → i ≤ k → k < i + n → g k ≡ (if ltb k p then arr k else arr (suc k)))
    → slots g i n ≡ erase v (slots arr i (suc n))
unfolding slots erase
slots-erase arr g v p i zero h l e miss cells = elim (split p i h) [
  | inl q ↦ let e' : arr i ≡ v = rw q e in rw e' (rw (eq_ℤ_refl v))
  | inr g ↦ absurd (omega arith)
]
slots-erase arr g v p i (suc n) h l e miss cells = elim (split p i h) [
  | inl q ↦
      let e' : arr i ≡ v = rw q e in
      ground (
        arith,
        eq_ℤ_refl v,
        cells i (omega arith) (omega arith),
        slots-cong (λ k. arr (suc k)) g (suc i) n
            (λ k a b. ground (arith, cells k (omega arith) (omega arith))),
        slots-shift (λ k. arr (suc k)) arr (suc i) n (λ k a b. refl),
      )
  | inr r ↦ ground (
    arith,
    ne-eq_ℤ _ _ (miss i (omega arith) r),
    cells i (omega arith) (omega arith),
    slots-erase arr g v p (suc i) n r (omega arith) e (λ k a b. miss k (omega arith) b)
        (λ k a b. cells k (omega arith) (omega arith)),
  )
]

pub has-slots-false :
    (arr : ℕ → ℤ) (v : ℤ) (i n : ℕ)
    → ((k : ℕ) → i ≤ k → k < i + n → arr k ≢ v)
    → has v (slots arr i n) ≡ false
unfolding slots has
has-slots-false arr v i zero miss = refl
has-slots-false arr v i (suc n) miss =
    rw (ne-eq_ℤ _ _ (miss i (omega arith) (omega arith)))
      (has-slots-false arr v (suc i) n (λ k a b. miss k (omega arith) (omega arith)))

pub has-slots-true :
    (arr : ℕ → ℤ) (v : ℤ) (i n p : ℕ) → i ≤ p → p < i + n → arr p ≡ v → has v (slots arr i n) ≡ true
unfolding slots has
has-slots-true arr v i zero p h l e = absurd (omega arith)
has-slots-true arr v i (suc n) p h l e = elim (split p i h) [
  | inl q ↦ let e' : arr i ≡ v = rw q e in rw e' (rw (eq_ℤ_refl v))
  | inr r ↦ ground (arith, has-slots-true arr v (suc i) n p r (omega arith) e)
]

pub erase-absent : (v : ℤ) (xs : List ℤ) → has v xs ≡ false → erase v xs ≡ xs
unfolding has erase
erase-absent v [] e = refl
erase-absent v (x ∷ xs) e = elim (Bool-cases (eq_ℤ x v)) [
  | inl hit ↦ let e' = rw hit at e in cc
  | inr miss ↦ rw miss (ap (λ ys. x ∷ ys) (erase-absent v xs (rw miss at e)))
]

pub slots-update_end :
    (arr : ℕ → ℤ) (v : ℤ) (n : ℕ) → slots (update arr n v) 0 (suc n) ≡ slots arr 0 n ++ v ∷ []
slots-update_end arr v n =
    slots-snoc (update arr n v) 0 n n (omega arith)
    ∙ ground (arith, slots-cong arr (update arr n v) 0 n (λ k a b. ground arith))
