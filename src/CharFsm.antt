-- ===== src/CharFsm.antt =====
-- BBB/lib-sources/char_fsm.c: the character parser, which turns a line into a queue of tokens.
pub mod Words
pub mod Holds
pub mod Keys
pub mod Typing
pub mod Tests
use pcon_tng.Prelude.{
  ℕ, zero, suc, ◌+◌, ◌-◌, ℤ, pos, ◌+ℤ◌, ◌-ℤ◌, List, [], ◌∷◌, ◌++◌, Option, none, some, Bool, true,
  false, ◌||◌, ◌&&◌, leb_ℤ, ltb_ℤ, not, ◌==◌, if◌then◌else◌, get_or, ltb, length,
}
use pcon_tng.TypeDefs.{put}

abbrev pub quote : ℕ
quote = 34

abbrev pub input_buffer_size : ℕ
input_buffer_size = 60

abbrev pub char_type : ℕ → ℕ
char_type c =
    if c == 44 || c == 32 || c == 58 || c == 47
    then 0
    else if c == quote
    then 1
    else if c == 127
    then 2
    else if c == 13
    then 3
    else 4

-- A string: the bytes up to the first NUL.
abbrev pub str : List ℕ → List ℕ
str [] = []
str (c ∷ cs) = let rest = str cs in if c == 0 then [] else c ∷ rest

-- One more token in front of those that follow; `none` is an access outside an object.
abbrev pub queued : List ℕ → Option (List (List ℕ)) → Option (List (List ℕ))
queued t none = none
queued t (some ts) = some (t ∷ ts)

-- Where the pointer of `process_buffer` stands: in its outer loop, in the loop that looks for a
-- quote, or on the byte that is overwritten once that loop has ended.
pub data Place : Type 0 where
  outside in_quotes after_quote : Place

-- Whether a byte more than a request fits the block that `malloc` gives for it.
abbrev pub has_slack : (ℕ → ℕ) → ℕ → Bool
has_slack usable n = ltb n (usable n)

-- A text in quotes: its block is asked for without its NUL, which `memcpy` writes all the same. Where
-- the block has no byte more, that is a write behind it.
abbrev pub push_text : (ℕ → ℕ) → List ℕ → Option (List (List ℕ)) → Option (List (List ℕ))
push_text usable t ts = if has_slack usable (length t) then queued (str t) ts else none

-- The loops of `process_buffer`: `word` is what stands from `start_char` to the pointer, and the
-- last argument is the rest of the buffer. `usable` is the number of bytes that `malloc` gives for a
-- request.
unfoldable pub tokens_from : (ℕ → ℕ) → Place → List ℕ → List ℕ → Option (List (List ℕ))
tokens_from usable place word [] = none
tokens_from usable outside word (c ∷ cs) = elim (c == 0) [
  | true ↦ some []
  | false ↦ elim (c == quote) [
    | true ↦ tokens_from usable in_quotes (word ++ c ∷ []) cs
    | false ↦ elim (char_type c == 0) [
      | true ↦ queued (str word) (tokens_from usable outside [] cs)
      | false ↦ tokens_from usable outside (word ++ c ∷ []) cs
    ]
  ]
]
tokens_from usable in_quotes word (c ∷ cs) = elim (c == quote || c == 0) [
  | true ↦ push_text usable (word ++ c ∷ []) (tokens_from usable after_quote [] cs)
  | false ↦ tokens_from usable in_quotes (word ++ c ∷ []) cs
]
tokens_from usable after_quote word (c ∷ cs) = tokens_from usable outside [] cs

-- The reader's state: the buffer, where the next character goes, the state of the machine, the queue of
-- tokens, and the bytes that `malloc` gives for a request, which are at least those asked for.
pub record Reader : Type 0 where
  pub input_buffer : ℤ → ℕ
  pub input_buffer_ptr : ℤ
  pub char_state : ℕ
  pub queue : List (List ℕ)
  pub usable : ℕ → ℕ

-- The bytes of the buffer from `i` on.
abbrev pub bytes : (ℤ → ℕ) → ℕ → ℕ → List ℕ
bytes buffer i zero = []
bytes buffer i (suc n) = buffer (pos i) ∷ bytes buffer (suc i) n

-- for (i = 0; i < _INPUT_BUFFER_SIZE; i++) input_buffer[i] = '\0'
abbrev pub cleared : (ℤ → ℕ) → ℤ → ℕ
cleared buffer i = if leb_ℤ (pos 0) i && ltb_ℤ i (pos input_buffer_size) then 0 else buffer i

-- The cleared buffer, with the tokens that were found.
abbrev pub stored : Reader → Option (List (List ℕ)) → Option Reader
stored r none = none
stored r (some ts) =
    some (record r { input_buffer = cleared r.input_buffer; input_buffer_ptr = pos 0; queue = ts })

-- `process_buffer`; `none` is a read past the end of the buffer, or a write behind a token's block.
unfoldable pub process_buffer : Reader → Option Reader
process_buffer r =
    stored r (tokens_from r.usable outside [] (bytes r.input_buffer 0 input_buffer_size))

-- *input_buffer_ptr++ = c
abbrev pub put_char : ℕ → Reader → Reader
put_char c r = record r {
  input_buffer = put r.input_buffer r.input_buffer_ptr c;
  input_buffer_ptr = r.input_buffer_ptr +ℤ pos 1;
}

-- The action routines that the table names.
pub data CharAction : Type 0 where
  nop add adq aqd del cr cr2 : CharAction

unfoldable pub run_char_action : CharAction → ℕ → Reader → Option Reader
run_char_action nop c r = some r
run_char_action add c r = some (put_char c r)
run_char_action adq c r = some (put_char c (put_char 32 r))
run_char_action aqd c r = some (put_char 32 (put_char c r))
run_char_action del c r =
    let back = r.input_buffer_ptr -ℤ pos 1 in
    some (record r { input_buffer = put r.input_buffer back 0; input_buffer_ptr = back })
run_char_action cr c r =
    let r' =
      if not (char_type (r.input_buffer r.input_buffer_ptr) == 0) then put_char 32 r else r in
    process_buffer (put_char 0 r')
run_char_action cr2 c r =
    process_buffer (record r { input_buffer = put r.input_buffer r.input_buffer_ptr 0 })

abbrev pub char_action : List (List CharAction)
char_action =
    (nop ∷ add ∷ add ∷ nop ∷ [])
    ∷ (add ∷ aqd ∷ adq ∷ add ∷ [])
    ∷ (del ∷ del ∷ del ∷ del ∷ [])
    ∷ (cr ∷ cr ∷ cr ∷ cr2 ∷ [])
    ∷ (add ∷ add ∷ add ∷ add ∷ [])
    ∷ []

abbrev pub char_new_state : List (List ℕ)
char_new_state =
    (0 ∷ 1 ∷ 3 ∷ 3 ∷ [])
    ∷ (1 ∷ 3 ∷ 1 ∷ 1 ∷ [])
    ∷ (0 ∷ 1 ∷ 2 ∷ 3 ∷ [])
    ∷ (0 ∷ 0 ∷ 0 ∷ 0 ∷ [])
    ∷ (2 ∷ 1 ∷ 2 ∷ 2 ∷ [])
    ∷ []

-- The state that follows `state` on a character of type `c_type`.
abbrev pub char_new_state_at : ℕ → ℕ → ℕ
char_new_state_at c_type state = get_or (get_or char_new_state c_type []) state 0

abbrev pub set_char_state : ℕ → Option Reader → Option Reader
set_char_state state none = none
set_char_state state (some r) = some (record r { char_state = state })

unfoldable pub char_fsm : ℕ → ℕ → Reader → Option Reader
char_fsm c_type c r =
    set_char_state (char_new_state_at c_type r.char_state)
      (run_char_action (get_or (get_or char_action c_type []) r.char_state nop) c r)

unfoldable pub char_fsm_reset : Reader → Reader
char_fsm_reset r = record r {
  char_state = 0;
  input_buffer_ptr = pos 0;
  input_buffer = cleared r.input_buffer;
}

-- True where the code returns -1.
unfoldable pub test_cmd_q : Reader → Bool
test_cmd_q r = elim (r.queue) [ [] ↦ false | t ∷ ts ↦ true ]

-- The value that it returns, the token that it stores, and the queue after it.
unfoldable pub pop_cmd_q : Reader → Bool × List ℕ × Reader
pop_cmd_q r = elim (r.queue) [ [] ↦ (false, [], r) | t ∷ ts ↦ (true, t, record r { queue = ts }) ]
