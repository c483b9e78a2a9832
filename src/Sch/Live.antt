-- ===== src/Sch/Live.antt =====
-- The abstract view of a template, the list of its live records in order, and what its loops find.
use pcon_tng.Prelude.{
  ℕ, zero, suc, ◌+◌, ◌≤◌, ◌<◌, ◌≡◌, inl, inr, Option, none, some, List, [], ◌∷◌, arith, ltb, leb,
  ◌==◌, if◌then◌else◌, update, slots, ◌&&◌, Bool-cases,
}
use pcon_tng.Prelude.Search.{Found, Found-here, Found-next}
use pcon_tng.Sch.{
  SRec, TmplDat, max_schedule_recs, match_from, later_from, shift_up, shift_down, preceding,
}

-- The live records.
abbrev pub live : {F : Type 0} → TmplDat F → List (SRec F)
live t = slots t.rec 0 t.rcnt

-- Keys rise strictly along the live records, and these fit the array.
pub record IsValid {F : Type 0} (t : TmplDat F) : Type 0 where
  pub fits : t.rcnt ≤ max_schedule_recs
  pub sorted : (i j : ℕ) → i < j → j < t.rcnt → (t.rec i).key < (t.rec j).key

-- The record with a key, in a list of records.
unfoldable pub find_rec : {F : Type 0} → ℕ → List (SRec F) → Option (SRec F)
find_rec key [] = none
find_rec key (x ∷ xs) = if x.key == key then some x else find_rec key xs

-- The list with a record put in at its place by key, or in the place of the one with its key.
unfoldable pub put_rec : {F : Type 0} → SRec F → List (SRec F) → List (SRec F)
put_rec r [] = r ∷ []
put_rec r (x ∷ xs) =
    if ltb r.key x.key then r ∷ x ∷ xs else if r.key == x.key then r ∷ xs else x ∷ put_rec r xs

-- The list without the record of a key.
unfoldable pub drop_rec : {F : Type 0} → ℕ → List (SRec F) → List (SRec F)
drop_rec key [] = []
drop_rec key (x ∷ xs) = if x.key == key then xs else x ∷ drop_rec key xs

module _ {F : Type 0} (rec : ℕ → SRec F) (key : ℕ) where
  pub match_from-Found : (i n : ℕ) → Found (λ j. (rec j).key ≡ key) i n (match_from rec key i n)
  unfolding match_from
  match_from-Found i zero = λ k h l. absurd (omega arith)
  match_from-Found i (suc n) = elim (Bool-cases ((rec i).key == key)) [
    | inl e ↦ rw e (Found-here (λ j. (rec j).key ≡ key) i n (ground arith))
    | inr e ↦
        rw e (Found-next (λ j. (rec j).key ≡ key) i n _ (ground arith) (match_from-Found (suc i) n))
  ]

  pub later_from-Found : (i n : ℕ) → Found (λ j. key < (rec j).key) i n (later_from rec key i n)
  unfolding later_from
  later_from-Found i zero = λ k h l. absurd (omega arith)
  later_from-Found i (suc n) = elim (Bool-cases (ltb key (rec i).key)) [
    | inl e ↦ rw e (Found-here (λ j. key < (rec j).key) i n (ground arith))
    | inr e ↦
        rw e (Found-next (λ j. key < (rec j).key) i n _ (ground arith) (later_from-Found (suc i) n))
  ]

pub shift_down_lem :
    {F : Type 0} (rec : ℕ → SRec F) (i n j : ℕ)
    → shift_down rec i n j ≡ (if leb i j && ltb j (i + n) then rec (suc j) else rec j)
unfolding shift_down
shift_down_lem rec i zero j = ground arith
shift_down_lem rec i (suc n) j =
    ground (arith, shift_down_lem (update rec i (rec (suc i))) (suc i) n j)

pub shift_up_lem :
    {F : Type 0} (below : SRec F) (rec : ℕ → SRec F) (i d j : ℕ)
    → shift_up below rec i d j ≡ (if leb i j && ltb j (i + d) then preceding below rec j else rec j)
unfolding shift_up
shift_up_lem below rec i zero j = ground arith
shift_up_lem below rec i (suc d) zero =
    ground (arith, shift_up_lem below (update rec (i + d) (preceding below rec (i + d))) i d zero)
shift_up_lem below rec i (suc d) (suc j) =
    ground
      (arith, shift_up_lem below (update rec (i + d) (preceding below rec (i + d))) i d (suc j))
