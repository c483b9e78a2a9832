-- ===== src/LineEditor/Bounds.antt =====
-- The editing keys of BBB/UI/Pcon.c on lines that fit the work buffer: they do what they mean, and
-- write nothing behind the buffer.
use pcon_tng.Prelude.{
  ℕ, suc, ◌-◌, ◌≤◌, ◌<◌, ◌≡◌, refl, subst, ◌∙◌, List, [], ◌∷◌, Bool, true, ◌&&◌, ltb, leb, ◌==◌,
  if-true, if-elim, update, length, arith,
}
use pcon_tng.Prelude.Below.{and_left, and_right}
use pcon_tng.CharFsm.{input_buffer_size}
use pcon_tng.LineEditor.{
  Editor, insert_char, append_char, squeeze_char, delete_last, delete_inside, delete_char,
  arrow_left, arrow_right,
}
use pcon_tng.LineEditor.Text.{
  Line, insert_at, length-insert_at, Edit, character, delete, left, right, edited,
}
use pcon_tng.LineEditor.Editing.{
  Shows, press_edit, press_edits, press_edit-Shows, move_right_lem, move_left_lem,
}

-- What a key means, on a line without a limit.
abbrev pub meant : Edit → Line → Line
meant (character c) l = record { text = insert_at l.text l.cursor c; cursor = suc l.cursor }
meant delete l = edited delete l
meant left l = edited left l
meant right l = edited right l

unfoldable pub meant_all : List Edit → Line → Line
meant_all [] l = l
meant_all (k ∷ ks) l = meant_all ks (meant k l)

-- Every line on the way has its characters and a NUL in the buffer.
unfoldable pub all_fit : List Edit → Line → Bool
all_fit [] l = ltb (length l.text) input_buffer_size
all_fit (k ∷ ks) l = ltb (length l.text) input_buffer_size && all_fit ks (meant k l)

first_fits : (ks : List Edit) (l : Line) → all_fit ks l ≡ true → length l.text < 60
unfolding all_fit
first_fits [] l h = ground arith
first_fits (k ∷ ks) l h =
    ground (arith, and_left (ltb (length l.text) input_buffer_size) (all_fit ks (meant k l)) h)

edited-meant : (k : Edit) (l : Line) → length l.text < 60 → edited k l ≡ meant k l
edited-meant (character c) l h = if-true (leb (length l.text) 60) _ l (ground arith)
edited-meant delete l h = refl
edited-meant left l h = refl
edited-meant right l h = refl

-- The bytes behind the buffer are as they were.
abbrev pub SameBehind : Editor → Editor → Type 0
SameBehind e e' = (j : ℕ) → input_buffer_size ≤ j → e'.work_buffer j ≡ e.work_buffer j

module _ {e : Editor} {l : Line} (h : Shows e l) where
  insert_char-SameBehind : (c : ℕ) → length l.text < 59 → SameBehind e (insert_char c e)
  unfolding insert_char
  insert_char-SameBehind c room =
      if-elim (SameBehind e) (leb e.work_buffer_ptr 60) _ e
        (λ _.
          if-elim (SameBehind e) (e.input_ptr == e.work_buffer_ptr) (append_char c e)
            (squeeze_char c e) (λ same j b. ground (arith, h.at_end))
            (λ other j b. ground (
              arith,
              h.at_end,
              h.at_cursor,
              h.inside,
              move_right_lem (update e.work_buffer (suc e.work_buffer_ptr) 0) e.input_ptr
                  (e.work_buffer_ptr - e.input_ptr) j,
            )))
        (λ _ j b. refl)

  delete_char-SameBehind : length l.text < 60 → SameBehind e (delete_char e)
  unfolding delete_char
  delete_char-SameBehind room =
      if-elim (SameBehind e) (e.input_ptr == 0) e _ (λ _ j b. refl)
        (λ some_left.
          if-elim (SameBehind e) (e.input_ptr == e.work_buffer_ptr) (delete_last e)
            (delete_inside e) (λ same j b. ground (arith, h.at_end))
            (λ other j b. ground (
              arith,
              h.at_end,
              h.at_cursor,
              h.inside,
              move_left_lem e.work_buffer (e.input_ptr - 1) (e.work_buffer_ptr - (e.input_ptr - 1))
                  j,
            )))

  press_edit-SameBehind :
      (k : Edit) → length l.text < 60 → length (meant k l).text < 60 → SameBehind e (press_edit k e)
  unfolding press_edit arrow_left arrow_right
  press_edit-SameBehind (character c) before after =
      insert_char-SameBehind c (omega (arith, after, length-insert_at l.text l.cursor c))
  press_edit-SameBehind delete before after = delete_char-SameBehind before
  press_edit-SameBehind left before after =
      if-elim (SameBehind e) (ltb 0 e.input_ptr) _ e (λ _ j b. refl) (λ _ j b. refl)
  press_edit-SameBehind right before after =
      if-elim (SameBehind e) (ltb e.input_ptr e.work_buffer_ptr) _ e (λ _ j b. refl) (λ _ j b. refl)

-- As long as no line on the way has more than 59 characters, an editor that shows a line with a
-- cursor shows, after any characters, deletions and arrows to the left and the right, what these
-- make of the line, and nothing is written behind the 60 bytes of the work buffer.
pub press_edits-meant_all :
    (ks : List Edit) (e : Editor) (l : Line)
    → all_fit ks l ≡ true
    → Shows e l
    → Shows (press_edits ks e) (meant_all ks l) × SameBehind e (press_edits ks e)
unfolding press_edits meant_all all_fit
press_edits-meant_all [] e l fits h = (h, λ j b. refl)
press_edits-meant_all (k ∷ ks) e l fits h =
    let before = first_fits (k ∷ ks) l fits in
    let later = and_right (ltb (length l.text) input_buffer_size) (all_fit ks (meant k l)) fits in
    let shows =
      subst (Shows (press_edit k e)) (edited-meant k l before) (press_edit-Shows k e l h) in
    let rest = press_edits-meant_all ks (press_edit k e) (meant k l) later shows in
    (
      rest.0,
      λ j b. rest.1 j b ∙ press_edit-SameBehind h k before (first_fits ks (meant k l) later) j b,
    )
