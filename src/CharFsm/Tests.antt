-- ===== src/CharFsm/Tests.antt =====
-- The reader's theorem at a line with a number and a text, and a line that is typed.
use pcon_tng.Prelude.{true, ◌≡◌, refl, pos, List, [], ◌∷◌, some, ◌+ℤ◌, if◌then◌else◌, eq_ℤ, ◌+◌}
use pcon_tng.CharFsm.{
  pop_cmd_q, test_cmd_q, char_fsm_reset, Reader, char_fsm, run_char_action, process_buffer,
  tokens_from, quote,
}
use pcon_tng.CharFsm.Keys.{type_line}
use pcon_tng.CharFsm.Typing.{queue_of}
use pcon_tng.CharFsm.Words.{Word, plain, quoted}

abbrev zeros : Reader
zeros = record {
  input_buffer = λ i. 0;
  input_buffer_ptr = pos 0;
  char_state = 0;
  queue = [];
  usable = λ n. n + 8;
}

-- Blanks in front, two between the words, and none behind.
typed_line :
    queue_of (type_line (32 ∷ b'3' ∷ 32 ∷ 32 ∷ b'o' ∷ b'n' ∷ 13 ∷ []) (some zeros))
    ≡ some ((b'3' ∷ []) ∷ (b'o' ∷ b'n' ∷ []) ∷ [])
unfolding type_line char_fsm run_char_action process_buffer tokens_from ◌+ℤ◌
typed_line = refl

abbrev two_words : List Word
two_words = plain (b'3' ∷ []) refl ∷ quoted (b'a' ∷ 32 ∷ b'b' ∷ []) refl ∷ []

-- `3 "a b" ` in the buffer.
abbrev loaded : Reader
loaded = record zeros {
  input_buffer = λ i.
      if eq_ℤ i (pos 0)
      then b'3'
      else if eq_ℤ i (pos 1)
      then 32
      else if eq_ℤ i (pos 2)
      then quote
      else if eq_ℤ i (pos 3)
      then b'a'
      else if eq_ℤ i (pos 4)
      then 32
      else if eq_ℤ i (pos 5)
      then b'b'
      else if eq_ℤ i (pos 6)
      then quote
      else if eq_ℤ i (pos 7)
      then 32
      else 0;
}

-- A text in quotes between two words.
typed_text :
    queue_of (
      type_line
        (b'3' ∷ 32 ∷ quote ∷ b'a' ∷ 32 ∷ b'b' ∷ quote ∷ 32 ∷ b'o' ∷ b'n' ∷ 32 ∷ 13 ∷ [])
        (some zeros))
    ≡ some ((b'3' ∷ []) ∷ (quote ∷ b'a' ∷ 32 ∷ b'b' ∷ quote ∷ []) ∷ (b'o' ∷ b'n' ∷ []) ∷ [])
unfolding type_line char_fsm run_char_action process_buffer tokens_from ◌+ℤ◌
typed_text = refl

abbrev queue_two : Reader
queue_two = record zeros { queue = (b'3' ∷ []) ∷ (b'o' ∷ b'n' ∷ []) ∷ []; char_state = 3 }

-- Popping takes the oldest token, and a reset keeps the queue.
pop_first :
    ((pop_cmd_q queue_two).1 ≡ b'3' ∷ [])
    × (test_cmd_q (pop_cmd_q queue_two).2 ≡ true)
    × ((char_fsm_reset queue_two).queue ≡ queue_two.queue)
unfolding pop_cmd_q test_cmd_q char_fsm_reset
pop_first = (refl, refl, refl)
