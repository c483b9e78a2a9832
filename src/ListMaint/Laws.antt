-- ===== src/ListMaint/Laws.antt =====
-- The array list against plain lists without repetition.
use pcon_tng.Prelude.{
  ℕ, suc, ◌+◌, ◌-◌, ◌≤◌, ◌<◌, ◌≡◌, ◌≢◌, refl, sym, ◌⊎◌, inl, inr, Option, none, some, [], ◌∷◌, ◌++◌,
  ◌||◌, ◌&&◌, arith, ltb, leb, ◌==◌, if◌then◌else◌, Bool-cases, ℤ, pos, pos_part, ◌≤ℤ◌, ◌<ℤ◌,
  eq_of_parts, update, slots, subst,
}
use pcon_tng.Prelude.Search.{Found, pigeonhole}
use pcon_tng.ListMaint.{find_elm, shift_elms, del_elm, add_elm}
use pcon_tng.ListMaint.Cells.{
  elms, has, erase, DistinctElms, find_elm-Found, shift_elms_lem, slots-erase, has-slots-false,
  has-slots-true, erase-absent, slots-update_end,
}

-- What adding a value can do.
data Added (arr : ℕ → ℤ) (index : ℕ) (v : ℤ) (size : ℕ) : (ℕ → ℤ) × ℕ → Type 0 where
  appended :
      ((k : ℕ) → 0 ≤ k → k < 0 + index → arr k ≢ v)
      → (index ≡ 0) ⊎ (index + 1 < size)
      → Added arr index v size (update arr index v, suc index)
  held : (p : ℕ) → p < index → arr p ≡ v → Added arr index v size (arr, index)
  no_room :
      ((k : ℕ) → 0 ≤ k → k < 0 + index → arr k ≢ v)
      → 0 < index
      → size ≤ index + 1
      → Added arr index v size (arr, index)

-- What deleting a value can do.
data Deleted (arr : ℕ → ℤ) (index : ℕ) (v : ℤ) : (ℕ → ℤ) × ℕ → Type 0 where
  taken :
      {g : ℕ → ℤ} (p n : ℕ)
      → index ≡ suc n
      → p ≤ n
      → arr p ≡ v
      → ((k : ℕ) → 0 ≤ k → k < p → arr k ≢ v)
      → ((k : ℕ) → g k ≡ (if leb p k && ltb k n then arr (suc k) else arr k))
      → Deleted arr index v (g, n)
  absent : ((k : ℕ) → 0 ≤ k → k < 0 + index → arr k ≢ v) → Deleted arr index v (arr, index)

module _ (arr : ℕ → ℤ) (index : ℕ) (v : ℤ) (size : ℕ) where
  add-Added : Added arr index v size (add_elm arr index v size)
  unfolding add_elm
  add-Added = elim (Bool-cases (index == 0)) [
    | inl e ↦
        let z : index ≡ 0 = ground arith in
        rw e (
          let one : index + 1 ≡ suc index = omega arith in
          rw one (
            subst (λ k. Added arr index v size (update arr k v, suc index)) z
              (appended (λ k a b. absurd (omega arith)) (inl z))))
    | inr e ↦ rw e (go (ground arith) (find_elm arr v 0 index) (find_elm-Found arr v 0 index))
  ]
    where
      go :
          0 < index
          → (o : Option ℕ) → Found (λ j. arr j ≡ v) 0 index o
          → Added arr index v size (elim o [
            | some p ↦ (arr, index)
            | none ↦ if ltb (index + 1) size then (update arr index v, index + 1) else (arr, index)
          ])
      go some_left (some p) (a, b, c, d) = held p (omega arith) c
      go some_left none miss = elim (Bool-cases (ltb (index + 1) size)) [
        | inl room ↦ rw room (
            let one : index + 1 ≡ suc index = omega arith in
            rw one (appended miss (inr (ground arith))))
        | inr full ↦ rw full (no_room miss some_left (ground arith))
      ]

  del-Deleted : Deleted arr index v (del_elm arr index v size)
  unfolding del_elm
  del-Deleted = go (find_elm arr v 0 index) (find_elm-Found arr v 0 index)
    where
      go :
          (o : Option ℕ)
          → Found (λ j. arr j ≡ v) 0 index o
          → Deleted arr index v (elim o [
            | some p ↦ (shift_elms arr p (index - 1 - p), index - 1)
            | none ↦ (arr, index)
          ])
      go none miss = absent miss
      go (some p) (a, b, c, d) =
          taken p (index - 1) (omega arith) (omega arith) c d
            (λ k. ground (arith, shift_elms_lem arr p (index - 1 - p) k))

module _ (arr : ℕ → ℤ) (index : ℕ) (v : ℤ) (size : ℕ) where
  -- Deleting takes the first occurrence of the value out of the list, if there is one.
  pub del_elm-erase : elms (del_elm arr index v size) ≡ erase v (slots arr 0 index)
  del_elm-erase = go (del-Deleted arr index v size)
    where
      go : {o : (ℕ → ℤ) × ℕ} → Deleted arr index v o → elms o ≡ erase v (slots arr 0 index)
      go (absent miss) = sym (erase-absent v _ (has-slots-false arr v 0 index miss))
      go (taken {g} p n c l e miss cells) = rw c (
          slots-erase arr g v p 0 n (omega arith) (omega arith) e miss
            (λ k a b. ground (arith, cells k)))

  -- Adding puts a new value at the end of the list, where the size given allows it or the list is
  -- empty, and otherwise leaves the list alone.
  pub add_elm-append : elms (add_elm arr index v size) ≡ (
      if has v (slots arr 0 index)
      then slots arr 0 index
      else if index == 0 || ltb (index + 1) size
      then slots arr 0 index ++ v ∷ []
      else slots arr 0 index)
  add_elm-append = go (add-Added arr index v size)
    where
      go :
          {o : (ℕ → ℤ) × ℕ}
          → Added arr index v size o
          → elms o ≡ (
              if has v (slots arr 0 index)
              then slots arr 0 index
              else if index == 0 || ltb (index + 1) size
              then slots arr 0 index ++ v ∷ []
              else slots arr 0 index)
      go (appended miss (inl z)) =
          rw (has-slots-false arr v 0 index miss) (ground (arith, slots-update_end arr v index))
      go (appended miss (inr room)) =
          rw (has-slots-false arr v 0 index miss) (ground (arith, slots-update_end arr v index))
      go (held p l e) = rw (has-slots-true arr v 0 index p (omega arith) (omega arith) e)
      go (no_room miss a b) = rw (has-slots-false arr v 0 index miss) (ground arith)

  -- A list without repetition stays so under both operations.
  pub add_elm-DistinctElms :
      DistinctElms arr index
      → let (arr', index') = add_elm arr index v size in DistinctElms arr' index'
  add_elm-DistinctElms d = go (add-Added arr index v size)
    where
      go : {o : (ℕ → ℤ) × ℕ} → Added arr index v size o → DistinctElms o.0 o.1
      go (appended miss room) =
          λ i j h l. ground (arith, d i j h, miss i (omega arith) (omega arith))
      go (held p l e) = d
      go (no_room miss a b) = d

  pub del_elm-DistinctElms :
      DistinctElms arr index
      → let (arr', index') = del_elm arr index v size in DistinctElms arr' index'
  del_elm-DistinctElms d = go (del-Deleted arr index v size)
    where
      go : {o : (ℕ → ℤ) × ℕ} → Deleted arr index v o → DistinctElms o.0 o.1
      go (absent miss) = d
      go (taken {g} p n c l e miss cells) =
          λ i j h m. ground (arith, cells i, cells j, d i j, d i (suc j), d (suc i) (suc j))

-- The values are channel numbers.
abbrev pub AreChannels : (ℕ → ℤ) → ℕ → Type 0
AreChannels arr n = (k : ℕ) → k < n → (pos 0 ≤ℤ arr k) × (arr k <ℤ pos 16)

distinct-le :
    (arr : ℕ → ℤ) (index : ℕ) → DistinctElms arr index → AreChannels arr index → index ≤ 16
distinct-le arr index d c =
    pigeonhole 16 (λ k. pos_part (arr k)) index (λ k h. ground (arith, c k h))
      (λ i j h l e. d i j h l (eq_of_parts (arr i) (arr j) (ground (arith, c i, c j))))

module _ (arr : ℕ → ℤ) (index : ℕ) where
  -- The size that the callers give is four times the true one, yet a list of distinct channel
  -- numbers never outgrows its array of sixteen, and no slot behind it is written.
  pub add_elm_bounds :
      (v : ℤ) (size : ℕ)
      → DistinctElms arr index
      → AreChannels arr index
      → pos 0 ≤ℤ v
      → v <ℤ pos 16
      → let (arr', index') = add_elm arr index v size in
        (index' ≤ 16) × AreChannels arr' index' × ((j : ℕ) → arr' (16 + j) ≡ arr (16 + j))
  add_elm_bounds v size d c lo hi =
      go (add-Added arr index v size) (add_elm-DistinctElms arr index v size d)
    where
      go :
          {o : (ℕ → ℤ) × ℕ}
          → Added arr index v size o
          → DistinctElms o.0 o.1
          → (o.1 ≤ 16) × AreChannels o.0 o.1 × ((j : ℕ) → o.0 (16 + j) ≡ arr (16 + j))
      go (held p l e) d' = (distinct-le arr index d c, c, λ j. refl)
      go (no_room miss a b) d' = (distinct-le arr index d c, c, λ j. refl)
      go (appended miss room) d' =
          (fits, channels, λ j. let room : suc index ≤ 16 = fits in ground arith)
        where
          channels : AreChannels (update arr index v) (suc index)
          channels k h = ground (arith, c k)

          fits : suc index ≤ 16
          fits = distinct-le (update arr index v) (suc index) d' channels
