-- ===== src/LineEditor/Text.antt =====
-- A line of text with a cursor: what the editor of BBB/UI/Pcon.c is meant to hold.
use pcon_tng.Prelude.{
  ℕ, zero, suc, ◌-◌, ◌≤◌, ◌<◌, ◌≡◌, refl, List, [], ◌∷◌, ◌++◌, arith, ltb, leb, ◌==◌, if◌then◌else◌,
  length, get_or,
}

pub record Line : Type 0 where
  pub text : List ℕ
  pub cursor : ℕ

unfoldable pub insert_at : List ℕ → ℕ → ℕ → List ℕ
insert_at xs zero y = y ∷ xs
insert_at [] (suc i) y = y ∷ []
insert_at (x ∷ xs) (suc i) y = x ∷ insert_at xs i y

unfoldable pub remove_at : List ℕ → ℕ → List ℕ
remove_at [] i = []
remove_at (x ∷ xs) zero = xs
remove_at (x ∷ xs) (suc i) = x ∷ remove_at xs i

pub length-insert_at : (xs : List ℕ) (i y : ℕ) → length (insert_at xs i y) ≡ suc (length xs)
unfolding insert_at
length-insert_at xs zero y = refl
length-insert_at [] (suc i) y = refl
length-insert_at (x ∷ xs) (suc i) y = omega (arith, length-insert_at xs i y)

pub length-remove_at :
    (xs : List ℕ) (i : ℕ) → i < length xs → suc (length (remove_at xs i)) ≡ length xs
unfolding remove_at
length-remove_at [] i h = absurd (omega arith)
length-remove_at (x ∷ xs) zero h = refl
length-remove_at (x ∷ xs) (suc i) h = omega (arith, length-remove_at xs i (omega arith))

pub get_or-insert_at :
    (xs : List ℕ) (i y k : ℕ)
    → i ≤ length xs
    → get_or (insert_at xs i y) k 0
      ≡ (if ltb k i then get_or xs k 0 else if k == i then y else get_or xs (k - 1) 0)
unfolding insert_at
get_or-insert_at xs zero y zero h = refl
get_or-insert_at xs zero y (suc k) h = ground arith
get_or-insert_at [] (suc i) y k h = absurd (omega arith)
get_or-insert_at (x ∷ xs) (suc i) y zero h = ground arith
get_or-insert_at (x ∷ xs) (suc i) y (suc zero) h =
    ground (arith, get_or-insert_at xs i y zero (omega arith))
get_or-insert_at (x ∷ xs) (suc i) y (suc (suc k)) h =
    ground (arith, get_or-insert_at xs i y (suc k) (omega arith))

pub get_or-remove_at :
    (xs : List ℕ) (i k : ℕ)
    → get_or (remove_at xs i) k 0 ≡ (if ltb k i then get_or xs k 0 else get_or xs (suc k) 0)
unfolding remove_at
get_or-remove_at [] i k = ground arith
get_or-remove_at (x ∷ xs) zero k = ground arith
get_or-remove_at (x ∷ xs) (suc i) zero = ground arith
get_or-remove_at (x ∷ xs) (suc i) (suc k) = ground (arith, get_or-remove_at xs i k)

-- The four editing keys.
pub data Edit : Type 0 where
  character : ℕ → Edit
  delete left right : Edit

-- What a key does to a line; a line of 61 characters takes no more.
abbrev pub edited : Edit → Line → Line
edited (character c) l =
    if leb (length l.text) 60
    then record { text = insert_at l.text l.cursor c; cursor = suc l.cursor }
    else l
edited delete l =
    if l.cursor == 0
    then l
    else record { text = remove_at l.text (l.cursor - 1); cursor = l.cursor - 1 }
edited left l = if ltb 0 l.cursor then record l { cursor = l.cursor - 1 } else l
edited right l = if ltb l.cursor (length l.text) then record l { cursor = suc l.cursor } else l

-- A character is deleted by the delete key behind it.
pub remove_at-insert_at :
    (xs : List ℕ) (i y : ℕ) → i ≤ length xs → remove_at (insert_at xs i y) i ≡ xs
unfolding insert_at remove_at
remove_at-insert_at xs zero y h = refl
remove_at-insert_at [] (suc i) y h = absurd (omega arith)
remove_at-insert_at (x ∷ xs) (suc i) y h = ground (arith, remove_at-insert_at xs i y (omega arith))

pub insert_at-end : (xs : List ℕ) (y : ℕ) → insert_at xs (length xs) y ≡ xs ++ y ∷ []
unfolding insert_at
insert_at-end [] y = refl
insert_at-end (x ∷ xs) y = ground (arith, insert_at-end xs y)
