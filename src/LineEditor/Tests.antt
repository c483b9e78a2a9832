-- ===== src/LineEditor/Tests.antt =====
-- The line editor on short lines.
use pcon_tng.Prelude.{
  true, ◌+◌, ◌*◌, subst, get_elem?, zero, suc, ◌++◌, false, Option, ◌≡◌, refl, pos, negsuc, List,
  [], ◌∷◌, none, some, arith, ℕ, eq_ℤ, if◌then◌else◌, ◌==◌, ◌+ℤ◌, ◌-ℤ◌,
}
use pcon_tng.CharFsm.{Reader, char_fsm_reset}
use pcon_tng.CharFsm.Keys.{type_line}
use pcon_tng.LineEditor.{
  Editor, string_at, string_limit, insert_char, arrow_up, arrow_reprompt, return_key, with_reader,
}
use pcon_tng.LineEditor.Text.{Edit, character, delete, left, right, insert_at, remove_at}
use pcon_tng.LineEditor.Editing.{Shows, press_edits, edits, empty_line, line_end}
use pcon_tng.LineEditor.Bounds.{meant_all, all_fit, SameBehind, press_edits-meant_all}
use pcon_tng.LineEditor.Tidy.{Tidy}
use pcon_tng.LineEditor.Return.{is_text}
use pcon_tng.LineEditor.History.{Remembers, RowHolds, return_key-Remembers}
use pcon_tng.LineEditor.Recall.{Recalled, arrow_ups, arrow_ups-Recalled}

abbrev pub fresh : Editor
fresh = record {
  work_buffer = λ i. 0;
  work_buffer_ptr = 0;
  input_ptr = 0;
  previous_work_buffer = λ i. 0;
  ring_buffer = λ i. 0;
  rb_in_idx = 0;
  rb_out_idx = pos 0;
  prompted = false;
}

pub fresh-Shows : Shows fresh empty_line
fresh-Shows = record { at_end = refl; at_cursor = refl; inside = omega arith; cells = λ k b. refl }

abbrev pub empty_reader : Reader
empty_reader = record {
  input_buffer = λ i. 0;
  input_buffer_ptr = pos 0;
  char_state = 0;
  queue = [];
  usable = λ n. n + 8;
}

-- `ac`, back, `b`, on, delete: `ab`, with the cursor behind it.
abbrev some_keys : List Edit
some_keys = character b'a' ∷ character b'c' ∷ left ∷ character b'b' ∷ right ∷ delete ∷ []

some_keys-fit : all_fit some_keys empty_line ≡ true
unfolding all_fit insert_at remove_at
some_keys-fit = refl

press_edits-meant_all_example :
    Shows (press_edits some_keys fresh) (meant_all some_keys empty_line)
    × SameBehind fresh (press_edits some_keys fresh)
press_edits-meant_all_example =
    press_edits-meant_all some_keys fresh empty_line some_keys-fit fresh-Shows

edited_ab : edits some_keys empty_line ≡ record { text = b'a' ∷ b'b' ∷ []; cursor = 2 }
unfolding edits insert_at remove_at
edited_ab = refl

abbrev ten : List ℕ
ten = 97 ∷ 97 ∷ 97 ∷ 97 ∷ 97 ∷ 97 ∷ 97 ∷ 97 ∷ 97 ∷ 97 ∷ []

abbrev sixty_one : List ℕ
sixty_one = ten ++ ten ++ ten ++ ten ++ ten ++ ten ++ 98 ∷ []

-- An editor with `on` in its buffer.
abbrev with_on : Editor
with_on = record fresh {
  work_buffer = λ i. if i == 0 then b'o' else if i == 1 then b'n' else 0;
  work_buffer_ptr = 2;
  input_ptr = 2;
}

with_on-Shows : Shows with_on (line_end (b'o' ∷ b'n' ∷ []))
with_on-Shows = record {
  at_end = refl;
  at_cursor = refl;
  inside = omega arith;
  cells = elim [
    | zero ↦ λ b. refl
    | suc zero ↦ λ b. refl
    | suc (suc k) ↦ λ b. absurd (omega arith)
  ];
}

with_on-Tidy : Tidy with_on
with_on-Tidy = λ k a b. ground arith

no_previous : string_at with_on.previous_work_buffer 0 string_limit ≡ some []
unfolding string_at
no_previous = refl

with_on-Remembers : Remembers with_on []
with_on-Remembers = record { count = refl; room = omega arith; rows = λ i s at. absurd (cc at) }

return_key-Remembers_example :
    (e : Editor) × (return_key with_on empty_reader
      ≡ with_reader e (type_line (b'o' ∷ b'n' ∷ 13 ∷ []) (some (char_fsm_reset empty_reader))))
    × (Shows e empty_line × Tidy e × SameBehind with_on e)
    × Remembers e ((b'o' ∷ b'n' ∷ []) ∷ [])
    × (e.rb_out_idx ≡ pos 1)
return_key-Remembers_example =
    return_key-Remembers with_on (line_end (b'o' ∷ b'n' ∷ [])) [] [] empty_reader with_on-Shows
      with_on-Tidy refl (omega arith) (omega arith) no_previous refl with_on-Remembers (omega arith)

-- Two lines in the history, `x` and `y`.
abbrev with_two : Editor
with_two = record fresh {
  ring_buffer = λ i. if eq_ℤ i (pos 0) then b'x' else if eq_ℤ i (pos 60) then b'y' else 0;
  rb_in_idx = 2;
  rb_out_idx = pos 2;
}

one_letter :
    (i c : ℕ)
    → is_text c ≡ true
    → with_two.ring_buffer (pos (60 * i + 0)) ≡ c
    → with_two.ring_buffer (pos (60 * i + 1)) ≡ 0
    → RowHolds with_two.ring_buffer i (c ∷ [])
one_letter i c t first second = record {
  short = omega arith;
  text = ground arith;
  cells = elim [
    | zero ↦ λ b. first
    | suc zero ↦ λ b. second
    | suc (suc k) ↦ λ b. absurd (omega arith)
  ];
}

two_rows :
    (i : ℕ) (s : List ℕ)
    → get_elem? ((b'x' ∷ []) ∷ (b'y' ∷ []) ∷ []) i ≡ some s
    → RowHolds with_two.ring_buffer i s
two_rows zero s at =
    let e : b'x' ∷ [] ≡ s = cc at in
    subst (RowHolds with_two.ring_buffer 0) e (one_letter 0 b'x' refl refl refl)
two_rows (suc zero) s at =
    let e : b'y' ∷ [] ≡ s = cc at in
    subst (RowHolds with_two.ring_buffer 1) e (one_letter 1 b'y' refl refl refl)
two_rows (suc (suc i)) s at = absurd (cc at)

with_two-Remembers : Remembers with_two ((b'x' ∷ []) ∷ (b'y' ∷ []) ∷ [])
with_two-Remembers = record { count = refl; room = omega arith; rows = two_rows }

arrow_ups-Recalled_example :
    (e : Editor) × (arrow_ups 2 (some with_two) ≡ some e)
    × Recalled e ((b'x' ∷ []) ∷ (b'y' ∷ []) ∷ []) 0 (b'x' ∷ [])
arrow_ups-Recalled_example =
    arrow_ups-Recalled 1 with_two ((b'x' ∷ []) ∷ (b'y' ∷ []) ∷ []) 0 (b'x' ∷ []) with_two-Remembers
      refl (omega arith) refl

-- A `z` 60 bytes in front of the ring buffer.
abbrev in_front : Editor
in_front = record fresh { ring_buffer = λ i. if eq_ℤ i (negsuc 59) then b'z' else 0 }

-- A short line that is recalled over a longer one leaves its end behind: with `abc` in the buffer,
-- the up arrow to `y` and an `s` make `ys`, but `ysc` goes into the history.
abbrev stale : Editor
stale = record with_two {
  work_buffer = λ i. if i == 0 then b'a' else if i == 1 then b'b' else if i == 2 then b'c' else 0;
  work_buffer_ptr = 3;
  input_ptr = 3;
}

abbrev read_line : Option Editor → Option (List ℕ)
read_line none = none
read_line (some e) = string_at (insert_char b's' e).work_buffer 0 string_limit

stale_tail : read_line (arrow_up stale) ≡ some (b'y' ∷ b's' ∷ b'c' ∷ [])
unfolding arrow_up arrow_reprompt string_at insert_char ◌+ℤ◌ ◌-ℤ◌
stale_tail = refl
