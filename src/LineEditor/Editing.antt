-- ===== src/LineEditor/Editing.antt =====
-- The editing keys of BBB/UI/Pcon.c do to the buffer what they mean on a line with a cursor.
use pcon_tng.Prelude.{
  ℕ, zero, suc, ◌+◌, ◌-◌, ◌≤◌, ◌<◌, ◌≡◌, refl, subst, ◌∙◌, List, [], ◌∷◌, ◌++◌, map, ap, arith, ltb,
  leb, ◌&&◌, ◌==◌, if◌then◌else◌, if-true, if-elim, if-elim_both, update, length, get_or,
  append_assoc, append_nil,
}
use pcon_tng.LineEditor.{
  Editor, move_right, move_left, insert_char, append_char, squeeze_char, delete_last, delete_inside,
  delete_char, arrow_left, arrow_right,
}
use pcon_tng.CharFsm.{input_buffer_size}
use pcon_tng.CharFsm.Holds.{length-snoc}
use pcon_tng.LineEditor.Text.{
  Line, insert_at, remove_at, length-insert_at, length-remove_at, get_or-insert_at,
  get_or-remove_at, insert_at-end, Edit, character, delete, left, right, edited,
}

pub move_right_lem :
    (f : ℕ → ℕ) (i n j : ℕ)
    → move_right f i n j ≡ (if ltb i j && leb j (i + n) then f (j - 1) else f j)
unfolding move_right
move_right_lem f i zero j = ground arith
move_right_lem f i (suc n) j =
    ground (arith, move_right_lem (update f (i + suc n) (f (i + n))) i n j)

pub move_left_lem :
    (f : ℕ → ℕ) (i n j : ℕ)
    → move_left f i n j ≡ (if leb i j && ltb j (i + n) then f (suc j) else f j)
unfolding move_left
move_left_lem f i zero j = ground arith
move_left_lem f i (suc n) j = ground (arith, move_left_lem (update f i (f (suc i))) (suc i) n j)

-- The buffer holds the line, and the pointers stand at its end and at the cursor.
pub record Shows (e : Editor) (l : Line) : Type 0 where
  pub at_end : e.work_buffer_ptr ≡ length l.text
  pub at_cursor : e.input_ptr ≡ l.cursor
  pub inside : l.cursor ≤ length l.text
  pub cells : (k : ℕ) → k < length l.text → e.work_buffer k ≡ get_or l.text k 0

unfoldable pub press_edit : Edit → Editor → Editor
press_edit (character c) e = insert_char c e
press_edit delete e = delete_char e
press_edit left e = arrow_left e
press_edit right e = arrow_right e

module _ {e : Editor} {l : Line} (h : Shows e l) where
  appended-Shows :
      (c : ℕ)
      → e.input_ptr ≡ e.work_buffer_ptr
      → Shows
          (append_char c e)
          (record { text = insert_at l.text l.cursor c; cursor = suc l.cursor })
  appended-Shows c same = record {
    at_end = omega (arith, h.at_end, length-insert_at l.text l.cursor c);
    at_cursor = omega (arith, h.at_end, h.at_cursor);
    inside = omega (arith, h.inside, length-insert_at l.text l.cursor c);
    cells = λ k b. ground (
      arith,
      h.at_end,
      h.at_cursor,
      h.inside,
      length-insert_at l.text l.cursor c,
      get_or-insert_at l.text l.cursor c k h.inside,
      h.cells k,
    );
  }

  squeezed-Shows :
      (c : ℕ)
      → Shows
          (squeeze_char c e)
          (record { text = insert_at l.text l.cursor c; cursor = suc l.cursor })
  squeezed-Shows c = record {
    at_end = omega (arith, h.at_end, length-insert_at l.text l.cursor c);
    at_cursor = omega (arith, h.at_cursor);
    inside = omega (arith, h.inside, length-insert_at l.text l.cursor c);
    cells = λ k b. ground (
      arith,
      h.at_end,
      h.at_cursor,
      h.inside,
      length-insert_at l.text l.cursor c,
      get_or-insert_at l.text l.cursor c k h.inside,
      h.cells k,
      h.cells (k - 1),
      move_right_lem (update e.work_buffer (suc e.work_buffer_ptr) 0) e.input_ptr
          (e.work_buffer_ptr - e.input_ptr) k,
    );
  }

  pub insert_char-Shows : (c : ℕ) → Shows (insert_char c e) (edited (character c) l)
  unfolding insert_char
  insert_char-Shows c =
      if-elim_both Shows (leb e.work_buffer_ptr 60) (leb (length l.text) 60) _ e _ l
        (ground (arith, h.at_end))
        (λ _.
          if-elim
            (λ e'. Shows e' (record { text = insert_at l.text l.cursor c; cursor = suc l.cursor }))
            (e.input_ptr == e.work_buffer_ptr) (append_char c e) (squeeze_char c e)
            (λ same. appended-Shows c (ground arith)) (λ _. squeezed-Shows c))
        (λ _. h)

  removed : Line
  removed = record { text = remove_at l.text (l.cursor - 1); cursor = l.cursor - 1 }

  shortened : 0 < l.cursor → suc (length (remove_at l.text (l.cursor - 1))) ≡ length l.text
  shortened some_left = length-remove_at l.text (l.cursor - 1) (omega (arith, h.inside))

  delete_last-Shows : 0 < l.cursor → e.input_ptr ≡ e.work_buffer_ptr → Shows (delete_last e) removed
  unfolding removed
  delete_last-Shows some_left same = record {
    at_end = omega (arith, h.at_end, h.at_cursor, h.inside, shortened some_left);
    at_cursor = omega (arith, h.at_end, h.at_cursor);
    inside = omega (arith, h.inside, shortened some_left);
    cells = λ k b. ground (
      arith,
      h.at_end,
      h.at_cursor,
      h.inside,
      shortened some_left,
      get_or-remove_at l.text (l.cursor - 1) k,
      h.cells k,
    );
  }

  delete_inside-Shows : 0 < l.cursor → Shows (delete_inside e) removed
  unfolding removed
  delete_inside-Shows some_left = record {
    at_end = omega (arith, h.at_end, h.at_cursor, h.inside, shortened some_left);
    at_cursor = omega (arith, h.at_end, h.at_cursor);
    inside = omega (arith, h.inside, shortened some_left);
    cells = λ k b. ground (
      arith,
      h.at_end,
      h.at_cursor,
      h.inside,
      shortened some_left,
      get_or-remove_at l.text (l.cursor - 1) k,
      h.cells k,
      h.cells (suc k),
      move_left_lem e.work_buffer (e.input_ptr - 1) (e.work_buffer_ptr - (e.input_ptr - 1)) k,
    );
  }

  delete_char-Shows : Shows (delete_char e) (edited delete l)
  unfolding delete_char removed
  delete_char-Shows =
      if-elim_both Shows (e.input_ptr == 0) (l.cursor == 0) e _ l removed
        (ground (arith, h.at_cursor)) (λ _. h)
        (λ left.
          if-elim (λ e'. Shows e' removed) (e.input_ptr == e.work_buffer_ptr) (delete_last e)
            (delete_inside e)
            (λ same. delete_last-Shows (ground (arith, h.at_cursor)) (ground arith))
            (λ _. delete_inside-Shows (ground (arith, h.at_cursor))))

  arrow_left-Shows : Shows (arrow_left e) (edited left l)
  unfolding arrow_left
  arrow_left-Shows =
      if-elim_both Shows (ltb 0 e.input_ptr) (ltb 0 l.cursor) _ e _ l (ground (arith, h.at_cursor))
        (λ b. record {
          at_end = h.at_end;
          at_cursor = omega (arith, h.at_cursor);
          inside = omega (arith, h.inside);
          cells = h.cells;
        })
        (λ _. h)

  arrow_right-Shows : Shows (arrow_right e) (edited right l)
  unfolding arrow_right
  arrow_right-Shows =
      if-elim_both Shows (ltb e.input_ptr e.work_buffer_ptr) (ltb l.cursor (length l.text)) _ e _ l
        (ground (arith, h.at_end, h.at_cursor))
        (λ b. record {
          at_end = h.at_end;
          at_cursor = omega (arith, h.at_cursor);
          inside = ground (arith, h.at_end, h.at_cursor);
          cells = h.cells;
        })
        (λ _. h)

pub press_edit-Shows :
    (k : Edit) (e : Editor) (l : Line) → Shows e l → Shows (press_edit k e) (edited k l)
unfolding press_edit
press_edit-Shows (character c) e l h = insert_char-Shows h c
press_edit-Shows delete e l h = delete_char-Shows h
press_edit-Shows left e l h = arrow_left-Shows h
press_edit-Shows right e l h = arrow_right-Shows h

-- Keys in order, on the editor and on a line.
unfoldable pub press_edits : List Edit → Editor → Editor
press_edits [] e = e
press_edits (k ∷ ks) e = press_edits ks (press_edit k e)

unfoldable pub edits : List Edit → Line → Line
edits [] l = l
edits (k ∷ ks) l = edits ks (edited k l)

-- An editor that shows a line with a cursor goes on to show what the edits make of a line that takes
-- at most 61 characters, in a memory that goes on behind the work buffer.
pub press_edits-edits :
    (ks : List Edit) (e : Editor) (l : Line) → Shows e l → Shows (press_edits ks e) (edits ks l)
unfolding press_edits edits
press_edits-edits [] e l h = h
press_edits-edits (k ∷ ks) e l h =
    press_edits-edits ks (press_edit k e) (edited k l) (press_edit-Shows k e l h)

abbrev pub empty_line : Line
empty_line = record { text = []; cursor = 0 }

abbrev pub line_end : List ℕ → Line
line_end xs = record { text = xs; cursor = length xs }

pub edited-line_end :
    (xs : List ℕ) (c : ℕ)
    → length xs ≤ 60
    → edited (character c) (line_end xs) ≡ line_end (xs ++ c ∷ [])
edited-line_end xs c room =
    if-true (leb (length xs) 60)
      (record { text = insert_at xs (length xs) c; cursor = suc (length xs) }) (line_end xs)
      (ground arith)
    ∙ rw (insert_at-end xs c, length-snoc xs c) refl

-- Characters at the end of a line, as long as there is room.
pub edits-characters :
    (cs xs : List ℕ)
    → length xs + length cs ≤ 61
    → edits (map character cs) (line_end xs) ≡ line_end (xs ++ cs)
unfolding edits
edits-characters [] xs room = rw (append_nil xs) refl
edits-characters (c ∷ cs) xs room =
    ap (edits (map character cs)) (edited-line_end xs c (omega arith))
    ∙ edits-characters cs (xs ++ c ∷ []) (omega (arith, length-snoc xs c))
    ∙ ap line_end (append_assoc xs (c ∷ []) cs)

-- Typing 61 characters on an empty line writes the last of them to cell 60 of the work buffer,
-- which has 60 cells.
pub press_edits_overrun :
    (cs : List ℕ) (e : Editor)
    → length cs ≡ 61
    → Shows e empty_line
    → ((press_edits (map character cs) e).work_buffer_ptr ≡ 61)
      × ((press_edits (map character cs) e).work_buffer input_buffer_size ≡ get_or cs 60 0)
press_edits_overrun cs e full h =
    let shows =
      subst (Shows (press_edits (map character cs) e)) (edits-characters cs [] (omega arith))
        (press_edits-edits (map character cs) e empty_line h) in
    (shows.at_end ∙ full, shows.cells 60 (omega arith))
