-- ===== src/LineEditor/Tidy.antt =====
-- The editing keys of BBB/UI/Pcon.c keep the rest of the buffer behind the line clear.
use pcon_tng.Prelude.{
  ℕ, suc, ◌-◌, ◌≤◌, ◌<◌, ◌≡◌, List, [], ◌∷◌, arith, ◌==◌, leb, ltb, if-elim, update,
}
use pcon_tng.LineEditor.{
  Editor, insert_char, append_char, squeeze_char, delete_last, delete_inside, delete_char,
  arrow_left, arrow_right,
}
use pcon_tng.LineEditor.Text.{Line, Edit, character, delete, left, right, edited}
use pcon_tng.LineEditor.Editing.{
  Shows, press_edit, press_edits, press_edit-Shows, move_left_lem, move_right_lem,
}

-- The cells behind the line are 0.
abbrev pub Tidy : Editor → Type 0
Tidy e = (k : ℕ) → e.work_buffer_ptr ≤ k → k < 60 → e.work_buffer k ≡ 0

module _ {e : Editor} {l : Line} (h : Shows e l) (t : Tidy e) where
  pub inserted-Tidy : (c : ℕ) → Tidy (insert_char c e)
  unfolding insert_char
  inserted-Tidy c =
      if-elim Tidy (leb e.work_buffer_ptr 60) _ e
        (λ _.
          if-elim Tidy (e.input_ptr == e.work_buffer_ptr) (append_char c e) (squeeze_char c e)
            (λ same k a b. ground (arith, t k (omega (arith, a)) b))
            (λ other k a b. ground (
              arith,
              h.at_end,
              h.at_cursor,
              h.inside,
              t k (omega (arith, a)) b,
              move_right_lem (update e.work_buffer (suc e.work_buffer_ptr) 0) e.input_ptr
                  (e.work_buffer_ptr - e.input_ptr) k,
            )))
        (λ _. t)

  deleted-Tidy : Tidy (delete_char e)
  unfolding delete_char
  deleted-Tidy =
      if-elim Tidy (e.input_ptr == 0) e _ (λ _. t)
        (λ some_left.
          if-elim Tidy (e.input_ptr == e.work_buffer_ptr) (delete_last e) (delete_inside e)
            (λ same k a b. ground (arith, t k))
            (λ other k a b. ground (
              arith,
              h.at_end,
              h.at_cursor,
              h.inside,
              t k,
              move_left_lem e.work_buffer (e.input_ptr - 1) (e.work_buffer_ptr - (e.input_ptr - 1))
                  k,
            )))

  press_edit-Tidy : (k : Edit) → Tidy (press_edit k e)
  unfolding press_edit arrow_left arrow_right
  press_edit-Tidy (character c) = inserted-Tidy c
  press_edit-Tidy delete = deleted-Tidy
  press_edit-Tidy left = if-elim Tidy (ltb 0 e.input_ptr) _ e (λ _. t) (λ _. t)
  press_edit-Tidy right = if-elim Tidy (ltb e.input_ptr e.work_buffer_ptr) _ e (λ _. t) (λ _. t)

-- The keys of `Edit` leave no part of an old line behind the line in the buffer.
pub press_edits-Tidy :
    (ks : List Edit) (e : Editor) (l : Line) → Shows e l → Tidy e → Tidy (press_edits ks e)
unfolding press_edits
press_edits-Tidy [] e l h t = t
press_edits-Tidy (k ∷ ks) e l h t =
    press_edits-Tidy ks (press_edit k e) (edited k l) (press_edit-Shows k e l h)
      (press_edit-Tidy h t k)
