-- ===== src/LineEditor.antt =====
-- BBB/UI/Pcon.c: the line editor of the user interface and its history of lines, as the cases of the
-- switch on the key in `main`. Pointers into `work_buffer` are indices; both buffers are memory that
-- goes on behind their end, where a cell that is written is seen, but not as the object that the
-- compiler has put there. `&ring_buffer[i][j]` is cell 60 i + j, also in front of the buffer. What
-- is printed is left out, and `screen_buf`, which is only cleared.
pub mod Text
pub mod Editing
pub mod Bounds
pub mod Tidy
pub mod Return
pub mod History
pub mod Recall
pub mod Tests
use pcon_tng.Prelude.{
  ℕ, zero, suc, ◌+◌, ◌-◌, ◌*◌, ℤ, pos, negsuc, ◌+ℤ◌, ◌-ℤ◌, leb_ℤ, ltb_ℤ, List, [], ◌∷◌, Option,
  none, some, Bool, true, false, ◌&&◌, ltb, leb, ◌==◌, if◌then◌else◌, update, length, get_or,
}
use pcon_tng.CharFsm.{Reader, input_buffer_size, char_fsm_reset}
use pcon_tng.CharFsm.Keys.{type_line}
use pcon_tng.CmdFsm.Tokens.{str_eq}

abbrev pub cmd_buffer_depth : ℕ
cmd_buffer_depth = 10

-- The editor's globals.
pub record Editor : Type 0 where
  pub work_buffer : ℕ → ℕ
  pub work_buffer_ptr : ℕ
  pub input_ptr : ℕ
  pub previous_work_buffer : ℕ → ℕ
  pub ring_buffer : ℤ → ℕ
  pub rb_in_idx : ℕ
  pub rb_out_idx : ℤ
  pub prompted : Bool

-- memset(buffer, '\0', 60)
abbrev pub erased : (ℕ → ℕ) → ℕ → ℕ
erased buffer j = if ltb j input_buffer_size then 0 else buffer j

-- Where a row of the ring buffer starts.
abbrev pub row : ℤ → ℤ
row (pos i) = pos (input_buffer_size * i)
row (negsuc i) = negsuc (input_buffer_size * i + 59)

-- The ring buffer from row `i` on, in front of which nothing is read.
abbrev pub row_cells : (ℤ → ℕ) → ℤ → ℕ → ℕ
row_cells ring i j = ring (row i +ℤ pos j)

-- memset(&ring_buffer[i][0], '\0', 60)
abbrev pub erased_row : ℕ → (ℤ → ℕ) → ℤ → ℕ
erased_row i ring j =
    if leb_ℤ (pos (input_buffer_size * i)) j && ltb_ℤ j (pos (input_buffer_size * i + 60))
    then 0
    else ring j

-- What the string functions read: the bytes up to the first NUL, of which there is none in the
-- first `n` bytes where the result is `none`. No line is longer than 61 bytes.
abbrev pub string_limit : ℕ
string_limit = 64

abbrev pub consed : ℕ → Option (List ℕ) → Option (List ℕ)
consed c none = none
consed c (some cs) = some (c ∷ cs)

unfoldable pub string_at : (ℕ → ℕ) → ℕ → ℕ → Option (List ℕ)
string_at f i zero = none
string_at f i (suc n) =
    let rest = string_at f (suc i) n in if f i == 0 then some [] else consed (f i) rest

-- strcpy: the string and its NUL.
abbrev pub copied : List ℕ → (ℕ → ℕ) → ℕ → ℕ
copied s f j = if leb j (length s) then get_or s j 0 else f j

abbrev pub copied_row : List ℕ → ℕ → (ℤ → ℕ) → ℤ → ℕ
copied_row s i ring (negsuc j) = ring (negsuc j)
copied_row s i ring (pos j) =
    if leb (input_buffer_size * i) j && leb j (input_buffer_size * i + length s)
    then get_or s (j - input_buffer_size * i) 0
    else ring (pos j)

-- while (move_ptr > input_ptr) { *move_ptr = *(move_ptr - 1); move_ptr--; }
-- with `n` rounds left: `move_ptr` is input_ptr + n.
unfoldable pub move_right : (ℕ → ℕ) → ℕ → ℕ → ℕ → ℕ
move_right f input_ptr zero = f
move_right f input_ptr (suc n) =
    move_right (update f (input_ptr + suc n) (f (input_ptr + n))) input_ptr n

-- while (input_ptr < work_buffer_ptr) { *input_ptr = *(input_ptr + 1); input_ptr++; }
-- with `n` rounds left.
unfoldable pub move_left : (ℕ → ℕ) → ℕ → ℕ → ℕ → ℕ
move_left f input_ptr zero = f
move_left f input_ptr (suc n) = move_left (update f input_ptr (f (suc input_ptr))) (suc input_ptr) n

-- A character at the end of the line.
abbrev pub append_char : ℕ → Editor → Editor
append_char c e = record e {
  work_buffer = update e.work_buffer e.work_buffer_ptr c;
  work_buffer_ptr = suc e.work_buffer_ptr;
  input_ptr = suc e.work_buffer_ptr;
}

-- A character inside the line.
abbrev pub squeeze_char : ℕ → Editor → Editor
squeeze_char c e = record e {
  work_buffer =
      update
        (move_right (update e.work_buffer (suc e.work_buffer_ptr) 0) e.input_ptr
          (e.work_buffer_ptr - e.input_ptr))
        e.input_ptr c;
  work_buffer_ptr = suc e.work_buffer_ptr;
  input_ptr = suc e.input_ptr;
}

-- A character, where there is room: `end_buff` is the address behind the buffer, so a line of 60
-- characters takes one more, which the code writes behind the 60 bytes.
unfoldable pub insert_char : ℕ → Editor → Editor
insert_char c e =
    if leb e.work_buffer_ptr input_buffer_size
    then (if e.input_ptr == e.work_buffer_ptr then append_char c e else squeeze_char c e)
    else e

-- *work_buffer_ptr-- = '\0'; *work_buffer_ptr = '\0';
abbrev pub ended_at : ℕ → (ℕ → ℕ) → ℕ → ℕ
ended_at p f = update (update f p 0) (p - 1) 0

-- The last character of the line, deleted.
abbrev pub delete_last : Editor → Editor
delete_last e = record e {
  work_buffer = ended_at e.work_buffer_ptr e.work_buffer;
  work_buffer_ptr = e.work_buffer_ptr - 1;
  input_ptr = e.work_buffer_ptr - 1;
  prompted = true;
}

-- The character in front of the cursor, deleted.
abbrev pub delete_inside : Editor → Editor
delete_inside e = record e {
  work_buffer =
      ended_at e.work_buffer_ptr
        (move_left e.work_buffer (e.input_ptr - 1) (e.work_buffer_ptr - (e.input_ptr - 1)));
  work_buffer_ptr = e.work_buffer_ptr - 1;
  input_ptr = e.input_ptr - 1;
}

-- The delete key.
unfoldable pub delete_char : Editor → Editor
delete_char e =
    if e.input_ptr == 0
    then e
    else if e.input_ptr == e.work_buffer_ptr
    then delete_last e
    else delete_inside e

unfoldable pub arrow_right : Editor → Editor
arrow_right e =
    if ltb e.input_ptr e.work_buffer_ptr then record e { input_ptr = suc e.input_ptr } else e

unfoldable pub arrow_left : Editor → Editor
arrow_left e = if ltb 0 e.input_ptr then record e { input_ptr = e.input_ptr - 1 } else e

-- The line that is found in the ring buffer, shown.
abbrev pub shown_line : Editor → Option (List ℕ) → Option Editor
shown_line e none = none
shown_line e (some s) = some (record e {
  work_buffer = copied s e.work_buffer;
  work_buffer_ptr = length s;
  input_ptr = length s;
  prompted = true;
})

unfoldable pub arrow_reprompt : Editor → Option Editor
arrow_reprompt e = shown_line e (string_at (row_cells e.ring_buffer e.rb_out_idx) 0 string_limit)

-- Towards older lines.
abbrev pub older : ℕ → ℤ → ℤ
older rb_in_idx rb_out_idx =
    let out = if ltb_ℤ (pos 0) rb_out_idx then rb_out_idx -ℤ pos 1 else pos rb_in_idx -ℤ pos 1 in
    if leb_ℤ (pos rb_in_idx) out then pos 0 else out

-- Towards newer lines.
abbrev pub newer : ℕ → ℤ → ℤ
newer rb_in_idx rb_out_idx =
    if leb_ℤ (pos rb_in_idx) (rb_out_idx +ℤ pos 1) then pos 0 else rb_out_idx +ℤ pos 1

unfoldable pub arrow_up : Editor → Option Editor
arrow_up e = arrow_reprompt (record e { rb_out_idx = older e.rb_in_idx e.rb_out_idx })

unfoldable pub arrow_down : Editor → Option Editor
arrow_down e = arrow_reprompt (record e { rb_out_idx = newer e.rb_in_idx e.rb_out_idx })

-- The next row for a line.
abbrev pub next_row : ℕ → ℕ
next_row i = if ltb (cmd_buffer_depth - 1) (suc i) then 0 else suc i

-- A line that is not the one before, put into the ring buffer.
abbrev pub stored_line : List ℕ → Editor → Editor
stored_line s e = record e {
  ring_buffer = copied_row s e.rb_in_idx e.ring_buffer;
  rb_in_idx = next_row e.rb_in_idx;
  rb_out_idx = pos (next_row e.rb_in_idx);
  previous_work_buffer = copied s (erased e.previous_work_buffer);
}

-- The comparison with the line before, of the two strings that are read.
abbrev pub compared : Editor → Option (List ℕ) → Option (List ℕ) → Option Editor
compared e none _ = none
compared e (some s) none = none
compared e (some s) (some previous) = some (if str_eq s previous then e else stored_line s e)

unfoldable pub remember : Editor → Option Editor
remember e =
    if e.work_buffer_ptr == 0
    then some e
    else compared e (string_at e.work_buffer 0 string_limit)
        (string_at e.previous_work_buffer 0 string_limit)

-- The line to the character parser: the characters of the string that is in the buffer.
abbrev pub sent : Reader → Option (List ℕ) → Option Reader
sent r none = none
sent r (some s) = type_line s (some (char_fsm_reset r))

-- *work_buffer_ptr++ = _CR; *work_buffer_ptr++ = '\0';
-- Behind a line of 59 characters or more the NUL is written behind the 60 bytes.
abbrev pub returned : Editor → ℕ → ℕ
returned e = update (update e.work_buffer e.work_buffer_ptr 13) (suc e.work_buffer_ptr) 0

-- The editor after the line is sent.
abbrev pub restarted : Editor → Editor
restarted e = record e {
  work_buffer = erased (returned e);
  work_buffer_ptr = 0;
  input_ptr = 0;
  ring_buffer = erased_row e.rb_in_idx e.ring_buffer;
}

abbrev pub with_reader : Editor → Option Reader → Option (Editor × Reader)
with_reader e none = none
with_reader e (some r) = some (e, r)

abbrev pub send_line : Reader → Option Editor → Option (Editor × Reader)
send_line r none = none
send_line r (some e) = with_reader (restarted e) (sent r (string_at (returned e) 0 string_limit))

-- The return key.
unfoldable pub return_key : Editor → Reader → Option (Editor × Reader)
return_key e r = send_line r (remember e)

-- The buffers and pointers after an escape.
unfoldable pub escape_key : Editor → Editor
escape_key e = record e {
  work_buffer = erased e.work_buffer;
  previous_work_buffer = erased e.previous_work_buffer;
  work_buffer_ptr = 0;
  input_ptr = 0;
  prompted = false;
}
