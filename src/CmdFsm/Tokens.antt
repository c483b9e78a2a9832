-- ===== src/CmdFsm/Tokens.antt =====
-- BBB/lib-sources/cmd_fsm.c: the tests on tokens, and the string routines. A string is its bytes up
-- to the NUL. `strlen`, `tolower`, `isdigit`, `strncmp` and `sscanf` with "%u" are C's, in the C
-- locale, with 32-bit `int` and `unsigned long`.
use pcon_tng.Prelude.{
  ℕ, zero, suc, ◌+◌, ◌-◌, ◌*◌, ◌^◌, ℤ, pos, negsuc, List, [], ◌∷◌, Option, none, some, Bool, true,
  false, ◌&&◌, not, ltb, leb, ◌==◌, if◌then◌else◌, length, get_or, map,
}
use pcon_tng.CmdFsm.Tables.{keyword}

abbrev pub tt_int : ℤ
tt_int = negsuc 0

abbrev pub tt_str : ℤ
tt_str = negsuc 1

abbrev pub tt_null : ℤ
tt_null = negsuc 2

abbrev pub tt_unrec : ℤ
tt_unrec = negsuc 3

abbrev pub quote : ℕ
quote = b'"'

abbrev pub isdigit : ℕ → Bool
isdigit c = leb b'0' c && leb c b'9'

abbrev pub tolower : ℕ → ℕ
tolower c = if leb b'A' c && leb c b'Z' then c + 32 else c

abbrev pub str_eq : List ℕ → List ℕ → Bool
str_eq [] [] = true
str_eq [] (y ∷ ys) = false
str_eq (x ∷ xs) [] = false
str_eq (x ∷ xs) (y ∷ ys) = x == y && str_eq xs ys

-- while (*str) if (!isdigit(*str)) return 0;
abbrev pub all_digits : List ℕ → Bool
all_digits [] = true
all_digits (c ∷ cs) = isdigit c && all_digits cs

abbrev pub digits_only : List ℕ → Bool
digits_only [] = false
digits_only (c ∷ cs) = all_digits (c ∷ cs)

-- True where the code returns -1, false where it returns 0.
unfoldable pub is_valid_int : List ℕ → Bool
is_valid_int [] = false
is_valid_int (c ∷ cs) = if c == b'-' then digits_only cs else digits_only (c ∷ cs)

unfoldable pub keyword_at : ℕ → List ℕ
keyword_at i = get_or keyword i []

-- The loops over the keywords, from keyword `i` with `n` rounds left. The token is put into lower
-- case once a keyword of its length is met, which changes no later round.
unfoldable pub keyword_from : List ℕ → ℕ → ℕ → Option ℕ
keyword_from c i zero = none
keyword_from c i (suc n) =
    let rest = keyword_from c (suc i) n in
    if length c == length (keyword_at i) && str_eq (map tolower c) (keyword_at i)
    then some i
    else rest

-- What the first search found, else the second.
abbrev pub found_word : Option ℕ → Option ℕ → ℤ
found_word (some i) o = pos i
found_word none (some i) = pos i
found_word none none = tt_unrec

unfoldable pub token_word : List ℕ → ℤ
token_word c = found_word (keyword_from c 0 35) (keyword_from c 38 3)

unfoldable pub token_type : List ℕ → ℤ
token_type [] = tt_null
token_type (c ∷ cs) =
    if c == b' '
    then tt_null
    else if c == quote
    then tt_str
    else if is_valid_int (c ∷ cs)
    then tt_int
    else token_word (c ∷ cs)

unfoldable pub dequote : List ℕ → List ℕ
dequote [] = []
dequote (c ∷ cs) = let rest = dequote cs in if c == quote then rest else c ∷ rest

-- The value of a string of digits, after `acc`.
abbrev pub decimal : ℕ → List ℕ → ℕ
decimal acc [] = acc
decimal acc (c ∷ cs) = decimal (acc * 10 + (c - b'0')) cs

-- An `unsigned int` read as an `int`.
abbrev pub as_int : ℕ → ℤ
as_int m = if ltb m (2 ^ 31) then pos m else negsuc (2 ^ 32 - 1 - m)

-- sscanf(token, "%u", &num) on a token that `is_valid_int` accepts: a value too large is ULONG_MAX,
-- and a minus sign negates the word.
unfoldable pub scan_u : List ℕ → ℤ
scan_u [] = pos 0
scan_u (c ∷ cs) =
    let n = if c == b'-' then decimal 0 cs else decimal 0 (c ∷ cs) in
    if leb (2 ^ 32) n
    then as_int (2 ^ 32 - 1)
    else if c == b'-' && not (n == 0)
    then as_int (2 ^ 32 - n)
    else as_int n

abbrev pub blanks : ℕ → List ℕ
blanks zero = []
blanks (suc n) = b' ' ∷ blanks n

-- One byte in front of what the later rounds put into the buffer.
abbrev pub put_byte : ℕ → Option (List ℕ) → Option (List ℕ)
put_byte c none = none
put_byte c (some buf) = some (c ∷ buf)

-- The loop of `padstr`, with `n` rounds left: what it has put into `buf` at the return in it, or
-- nothing where it runs to its end.
unfoldable pub pad_from : List ℕ → ℕ → Option (List ℕ)
pad_from str zero = none
pad_from [] (suc n) = some (blanks (suc n))
pad_from (c ∷ cs) (suc n) = put_byte c (pad_from cs n)

-- The string that the result points to; `none` is NULL.
unfoldable pub padstr : List ℕ → ℕ → Option (List ℕ)
padstr str len =
    if ltb 120 len then some str else if ltb len (length str) then some str else pad_from str len
