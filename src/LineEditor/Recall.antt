-- ===== src/LineEditor/Recall.antt =====
-- The up arrow of BBB/UI/Pcon.c takes lines out of the history.
use pcon_tng.Prelude.{
  ℕ, zero, suc, ◌+◌, ◌-◌, ◌*◌, ◌≤◌, ◌<◌, ◌≡◌, refl, ◌∙◌, ap, ℤ, pos, negsuc, List, [], ◌∷◌, Option,
  none, some, true, arith, length, get_or, get_elem?, ◌+ℤ◌, ◌-ℤ◌,
}
use pcon_tng.CharFsm.Words.{every}
use pcon_tng.LineEditor.{
  Editor, string_at, string_limit, row_cells, copied, older, arrow_up, arrow_reprompt, shown_line,
}
use pcon_tng.LineEditor.Editing.{Shows, line_end}
use pcon_tng.LineEditor.Return.{is_text, StringAt, string_at_lem}
use pcon_tng.LineEditor.History.{RowHolds, Remembers, lt_of_get_elem?}

row_cells_lem : (ring : ℤ → ℕ) (i k : ℕ) → row_cells ring (pos i) k ≡ ring (pos (60 * i + k))
unfolding ◌+ℤ◌
row_cells_lem ring i k = ground arith

row-StringAt :
    (ring : ℤ → ℕ) (i : ℕ) (s : List ℕ) → RowHolds ring i s → StringAt (row_cells ring (pos i)) 0 s
row-StringAt ring i s h = record {
  text = h.text;
  cells = λ k b. let e : 0 + k ≡ k = omega arith in rw e (row_cells_lem ring i k ∙ h.cells k b);
}

reprompt :
    (e : Editor) (i : ℕ) (s : List ℕ)
    → e.rb_out_idx ≡ pos i
    → RowHolds e.ring_buffer i s
    → arrow_reprompt e ≡ shown_line e (some s)
unfolding arrow_reprompt
reprompt e i s out h =
    ap (λ o. shown_line e (string_at (row_cells e.ring_buffer o) 0 string_limit)) out
    ∙ ap (shown_line e) (
        string_at_lem (row_cells e.ring_buffer (pos i)) 0 string_limit s
          (row-StringAt e.ring_buffer i s h) (omega (arith, h.short)))

shown-Shows :
    (e : Editor) (s : List ℕ)
    → Shows
        (record e {
          work_buffer = copied s e.work_buffer;
          work_buffer_ptr = length s;
          input_ptr = length s;
          prompted = true;
        })
        (line_end s)
shown-Shows e s = record {
  at_end = refl;
  at_cursor = refl;
  inside = omega arith;
  cells = λ k b. ground arith;
}

-- After the arrow: the line is shown, and the history is as it was.
pub record Recalled (e : Editor) (lines : List (List ℕ)) (i : ℕ) (s : List ℕ) : Type 0 where
  pub shows : Shows e (line_end s)
  pub remembers : Remembers e lines
  pub index : e.rb_out_idx ≡ pos i

recalled :
    (e : Editor) (lines : List (List ℕ)) (i : ℕ) (s : List ℕ)
    → Remembers e lines
    → e.rb_out_idx ≡ pos i
    → get_elem? lines i ≡ some s
    → (e' : Editor) × (arrow_reprompt e ≡ some e') × Recalled e' lines i s
recalled e lines i s h out at = (
  _,
  reprompt e i s out (h.rows i s at),
  record {
    shows = shown-Shows e s;
    remembers = record { count = h.count; room = h.room; rows = h.rows };
    index = out;
  },
)

older_lem : (n : ℕ) (o : ℤ) (i : ℕ) → o ≡ pos (suc i) → i < n → older n o ≡ pos i
unfolding ◌-ℤ◌
older_lem n o i e h = rw e (ground arith)

arrow_up_lem :
    (e : Editor) (lines : List (List ℕ)) (i : ℕ) (s : List ℕ)
    → Remembers e lines
    → e.rb_out_idx ≡ pos (suc i)
    → get_elem? lines i ≡ some s
    → (e' : Editor) × (arrow_up e ≡ some e') × Recalled e' lines i s
unfolding arrow_up
arrow_up_lem e lines i s h out at =
    recalled (record e { rb_out_idx = older e.rb_in_idx e.rb_out_idx }) lines i s
      (record { count = h.count; room = h.room; rows = h.rows })
      (older_lem e.rb_in_idx e.rb_out_idx i out
        (omega (arith, h.count, lt_of_get_elem? lines i s at)))
      at

-- The up arrow, `n` times.
unfoldable pub arrow_ups : ℕ → Option Editor → Option Editor
arrow_ups zero o = o
arrow_ups (suc n) none = none
arrow_ups (suc n) (some e) = arrow_ups n (arrow_up e)

get_elem?_lt :
    (lines : List (List ℕ)) (i : ℕ) → i < length lines → (s : List ℕ) × (get_elem? lines i ≡ some s)
get_elem?_lt [] i h = absurd (omega arith)
get_elem?_lt (x ∷ xs) zero h = (x, refl)
get_elem?_lt (x ∷ xs) (suc i) h = get_elem?_lt xs i (omega (arith, h))

-- While the history holds the lines, the oldest first, and the last arrow left its index at line
-- i + n + 1 or it stands behind the last line, n + 1 presses of the up arrow show line i, with the
-- cursor at its end, and leave the history as it was.
pub arrow_ups-Recalled :
    (n : ℕ) (e : Editor) (lines : List (List ℕ)) (i : ℕ) (s : List ℕ)
    → Remembers e lines
    → e.rb_out_idx ≡ pos (i + suc n)
    → i + n < length lines
    → get_elem? lines i ≡ some s
    → (e' : Editor) × (arrow_ups (suc n) (some e) ≡ some e') × Recalled e' lines i s
unfolding arrow_ups
arrow_ups-Recalled zero e lines i s h out within at =
    let up =
      arrow_up_lem e lines i s h (let e : i + 1 ≡ suc i = omega arith in out ∙ ap pos e) at in
    up
arrow_ups-Recalled (suc n) e lines i s h out within at =
    let middle = get_elem?_lt lines (i + suc n) within in
    let up =
      arrow_up_lem e lines (i + suc n) middle.0 h
        (let e : i + suc (suc n) ≡ suc (i + suc n) = omega arith in out ∙ ap pos e) middle.1 in
    let rest =
      arrow_ups-Recalled n up.0 lines i s up.2.remembers up.2.index (omega (arith, within)) at in
    (rest.0, ap (arrow_ups (suc n)) up.1 ∙ rest.1, rest.2)

front_cell :
    (ring : ℤ → ℕ) (k : ℕ) → k < 60 → row_cells ring (negsuc 0) (0 + k) ≡ ring (negsuc (59 - k))
unfolding ◌+ℤ◌
front_cell ring k h = ground arith

-- With no line in the history, or ten, the index of the next row is 0; where the index of the last
-- arrow is 0 too, the up arrow shows the string that stands 60 bytes in front of the ring buffer.
pub arrow_up_in_front :
    (e : Editor) (s : List ℕ)
    → e.rb_in_idx ≡ 0
    → e.rb_out_idx ≡ pos 0
    → length s < 60
    → every is_text s ≡ true
    → ((k : ℕ) → k ≤ length s → e.ring_buffer (negsuc (59 - k)) ≡ get_or s k 0)
    → (e' : Editor) × (arrow_up e ≡ some e') × Shows e' (line_end s) × (e'.rb_out_idx ≡ negsuc 0)
unfolding arrow_up arrow_reprompt ◌-ℤ◌
arrow_up_in_front e s first out short text cells =
    let index : older e.rb_in_idx e.rb_out_idx ≡ negsuc 0 = rw (first, out) refl in
    (
      _,
      ap
            (λ o.
              shown_line (record e { rb_out_idx = older e.rb_in_idx e.rb_out_idx })
                (string_at (row_cells e.ring_buffer o) 0 string_limit))
            index
          ∙ ap (shown_line (record e { rb_out_idx = older e.rb_in_idx e.rb_out_idx })) (
              string_at_lem (row_cells e.ring_buffer (negsuc 0)) 0 string_limit s
                (record {
                  text = text;
                  cells = λ k b. front_cell e.ring_buffer k (omega (arith, short)) ∙ cells k b;
                })
                (omega (arith, short))),
      shown-Shows (record e { rb_out_idx = older e.rb_in_idx e.rb_out_idx }) s,
      index,
    )
