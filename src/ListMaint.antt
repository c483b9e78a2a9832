-- ===== src/ListMaint.antt =====
-- BBB/lib-sources/list_maint.c: a list of ints kept in an array with its count. The two functions
-- return the array and the count that they leave behind their pointers.
pub mod Cells
pub mod Laws
use pcon_tng.Prelude.{
  ℕ, zero, suc, ◌+◌, ◌-◌, ℤ, eq_ℤ, Option, none, some, ltb, ◌==◌, if◌then◌else◌, update,
}

-- while (i < *index) { if (*elm == value) …; elm++; i++; }
pub find_elm : (ℕ → ℤ) → ℤ → ℕ → ℕ → Option ℕ
find_elm arr value i zero = none
find_elm arr value i (suc n) = if eq_ℤ (arr i) value then some i else find_elm arr value (suc i) n

-- while (elm < array_end) { *elm = *(elm + 1); elm++; }
pub shift_elms : (ℕ → ℤ) → ℕ → ℕ → ℕ → ℤ
shift_elms arr elm zero = arr
shift_elms arr elm (suc n) = shift_elms (update arr elm (arr (suc elm))) (suc elm) n

-- `array_size` is not used.
unfoldable pub del_elm : (ℕ → ℤ) → ℕ → ℤ → ℕ → (ℕ → ℤ) × ℕ
unfolding find_elm shift_elms
del_elm arr index value array_size = elim (find_elm arr value 0 index) [
  | some p ↦ (shift_elms arr p (index - 1 - p), index - 1)
  | none ↦ (arr, index)
]

unfoldable pub add_elm : (ℕ → ℤ) → ℕ → ℤ → ℕ → (ℕ → ℤ) × ℕ
unfolding find_elm
add_elm arr index value array_size =
    if index == 0 then (update arr 0 value, index + 1) else elim (find_elm arr value 0 index) [
      | some p ↦ (arr, index)
      | none ↦
          if ltb (index + 1) array_size then (update arr index value, index + 1) else (arr, index)
    ]
