-- ===== src/CharFsm/Words.antt =====
-- A line of words comes back as its words.
use pcon_tng.Prelude.{
  ℕ, ◌≡◌, refl, ap, ◌∙◌, List, [], ◌∷◌, ◌++◌, some, Bool, true, false, ◌&&◌, not, ◌==◌, arith, map,
  pos, append_assoc, append_nil, if-true, length,
}
use pcon_tng.Prelude.Below.{and_left, and_right}
use pcon_tng.CharFsm.{
  char_type, quote, str, queued, outside, in_quotes, tokens_from, Reader, bytes, input_buffer_size,
  cleared, stored, process_buffer, has_slack, push_text,
}

-- A byte of a word: no NUL, quote or delimiter.
abbrev pub is_plain : ℕ → Bool
is_plain c = not (c == 0) && not (c == quote) && not (char_type c == 0)

-- A byte of a quoted text: no NUL or quote.
abbrev pub is_inner : ℕ → Bool
is_inner c = not (c == 0) && not (c == quote)

abbrev pub every : (ℕ → Bool) → List ℕ → Bool
every p [] = true
every p (c ∷ cs) = p c && every p cs

-- A word as it is, or a text in quotes.
pub data Word : Type 0 where
  plain : (w : List ℕ) → every is_plain w ≡ true → Word
  quoted : (s : List ℕ) → every is_inner s ≡ true → Word

-- The token of a word: a text keeps its quotes.
abbrev pub token : Word → List ℕ
token (plain w _) = w
token (quoted s _) = quote ∷ (s ++ quote ∷ [])

-- A line: each word with a blank behind it.
abbrev pub line : List Word → List ℕ
line [] = []
line (w ∷ ws) = token w ++ 32 ∷ line ws

str-every :
    (p : ℕ → Bool) (w : List ℕ)
    → ((c : ℕ) → p c ≡ true → (c == 0) ≡ false)
    → every p w ≡ true
    → str w ≡ w
str-every p [] nonzero h = refl
str-every p (c ∷ cs) nonzero h =
    rw
      (
        nonzero c (and_left (p c) (every p cs) h),
        str-every p cs nonzero (and_right (p c) (every p cs) h),
      )
      refl

plain_step :
    (u : ℕ → ℕ) (word : List ℕ) (c : ℕ) (cs : List ℕ)
    → is_plain c ≡ true
    → tokens_from u outside word (c ∷ cs) ≡ tokens_from u outside (word ++ c ∷ []) cs
unfolding tokens_from
plain_step u word c cs h = ground arith

inner_step :
    (u : ℕ → ℕ) (word : List ℕ) (c : ℕ) (cs : List ℕ)
    → is_inner c ≡ true
    → tokens_from u in_quotes word (c ∷ cs) ≡ tokens_from u in_quotes (word ++ c ∷ []) cs
unfolding tokens_from
inner_step u word c cs h = ground arith

-- The outer loop on a plain word and the delimiter behind it.
outside_word :
    (u : ℕ → ℕ) (word w cs : List ℕ)
    → every is_plain w ≡ true
    → tokens_from u outside word (w ++ 32 ∷ cs)
      ≡ queued (str (word ++ w)) (tokens_from u outside [] cs)
unfolding tokens_from
outside_word u word [] cs h = rw (append_nil word) refl
outside_word u word (c ∷ w) cs h =
    plain_step u word c (w ++ 32 ∷ cs) (and_left (is_plain c) (every is_plain w) h)
    ∙ outside_word u (word ++ c ∷ []) w cs (and_right (is_plain c) (every is_plain w) h)
    ∙ ap (λ l. queued (str l) (tokens_from u outside [] cs)) (append_assoc word (c ∷ []) w)

-- The inner loop on a text, the quote and the byte behind it.
inside_text :
    (u : ℕ → ℕ) (word s cs : List ℕ)
    → every is_inner s ≡ true
    → tokens_from u in_quotes word (s ++ quote ∷ 32 ∷ cs)
      ≡ push_text u (word ++ (s ++ quote ∷ [])) (tokens_from u outside [] cs)
unfolding tokens_from
inside_text u word [] cs h = refl
inside_text u word (c ∷ s) cs h =
    inner_step u word c (s ++ quote ∷ 32 ∷ cs) (and_left (is_inner c) (every is_inner s) h)
    ∙ inside_text u (word ++ c ∷ []) s cs (and_right (is_inner c) (every is_inner s) h)
    ∙ ap (λ l. push_text u l (tokens_from u outside [] cs))
        (append_assoc word (c ∷ []) (s ++ quote ∷ []))

str_text : (s : List ℕ) → every is_inner s ≡ true → str (s ++ quote ∷ []) ≡ s ++ quote ∷ []
str_text [] h = refl
str_text (c ∷ s) h =
    rw
      (
        nonzero c (and_left (is_inner c) (every is_inner s) h),
        str_text s (and_right (is_inner c) (every is_inner s) h),
      )
      refl
  where
    nonzero : (c : ℕ) → is_inner c ≡ true → (c == 0) ≡ false
    nonzero c h = ground arith

-- Whether the block of each text in quotes has room for its NUL.
abbrev pub roomy : (ℕ → ℕ) → List Word → Bool
roomy u [] = true
roomy u (plain w h ∷ ws) = roomy u ws
roomy u (quoted s h ∷ ws) = has_slack u (length (quote ∷ (s ++ quote ∷ []))) && roomy u ws

word_queued :
    (u : ℕ → ℕ) (w : Word) (cs : List ℕ)
    → roomy u (w ∷ []) ≡ true
    → tokens_from u outside [] (token w ++ 32 ∷ cs) ≡ queued (token w) (tokens_from u outside [] cs)
unfolding tokens_from
word_queued u (plain w h) cs room =
    outside_word u [] w cs h
    ∙ ap (λ l. queued l (tokens_from u outside [] cs))
        (str-every is_plain w (λ c p. ground arith) h)
word_queued u (quoted s h) cs room =
    ap (tokens_from u in_quotes (quote ∷ [])) (append_assoc s (quote ∷ []) (32 ∷ cs))
    ∙ inside_text u (quote ∷ []) s cs h
    ∙ if-true (has_slack u (length (quote ∷ (s ++ quote ∷ [])))) _ _
        (and_left (has_slack u (length (quote ∷ (s ++ quote ∷ [])))) true room)
    ∙ ap (λ l. queued (quote ∷ l) (tokens_from u outside [] cs)) (str_text s h)

roomy_first :
    (u : ℕ → ℕ) (w : Word) (ws : List Word) → roomy u (w ∷ ws) ≡ true → roomy u (w ∷ []) ≡ true
roomy_first u (plain w h) ws room = refl
roomy_first u (quoted s h) ws room =
    ap (λ b. b && true)
      (and_left (has_slack u (length (quote ∷ (s ++ quote ∷ [])))) (roomy u ws) room)

roomy_rest : (u : ℕ → ℕ) (w : Word) (ws : List Word) → roomy u (w ∷ ws) ≡ true → roomy u ws ≡ true
roomy_rest u (plain w h) ws room = room
roomy_rest u (quoted s h) ws room =
    and_right (has_slack u (length (quote ∷ (s ++ quote ∷ [])))) (roomy u ws) room

-- The tokens of a line of words, each followed by a blank, are the words, in order, and texts in
-- quotes are tokens with their quotes, where their blocks have room for a NUL, whatever stands behind
-- the NUL that ends the line.
pub tokens_from-line :
    (u : ℕ → ℕ) (ws : List Word) (rest : List ℕ)
    → roomy u ws ≡ true
    → tokens_from u outside [] (line ws ++ 0 ∷ rest) ≡ some (map token ws)
unfolding tokens_from
tokens_from-line u [] rest room = refl
tokens_from-line u (w ∷ ws) rest room =
    ap (tokens_from u outside []) (append_assoc (token w) (32 ∷ line ws) (0 ∷ rest))
    ∙ word_queued u w (line ws ++ 0 ∷ rest) (roomy_first u w ws room)
    ∙ ap (queued (token w)) (tokens_from-line u ws rest (roomy_rest u w ws room))

-- Processing a buffer that holds a line of words and a NUL queues the words' tokens in the place of
-- what was queued, and clears the buffer.
pub process_buffer-line :
    (r : Reader) (ws : List Word) (rest : List ℕ)
    → roomy r.usable ws ≡ true
    → bytes r.input_buffer 0 input_buffer_size ≡ line ws ++ 0 ∷ rest
    → process_buffer r
      ≡ some (record r {
        input_buffer = cleared r.input_buffer;
        input_buffer_ptr = pos 0;
        queue = map token ws;
      })
unfolding process_buffer
process_buffer-line r ws rest room h =
    ap (stored r) (ap (tokens_from r.usable outside []) h ∙ tokens_from-line r.usable ws rest room)
