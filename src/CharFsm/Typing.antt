-- ===== src/CharFsm/Typing.antt =====
-- What typing a line of words queues.
use pcon_tng.Prelude.{
  ℕ, ◌<◌, ◌≡◌, inl, inr, refl, sym, ap, subst, ◌∙◌, List, [], ◌∷◌, ◌++◌, Option, none, some, true,
  arith, length, get_or, map, append_assoc, append_nil,
}
use pcon_tng.TypeDefs.{put}
use pcon_tng.CharFsm.{
  Reader, char_fsm, run_char_action, process_buffer, input_buffer_size, set_char_state,
}
use pcon_tng.CharFsm.Words.{Word, token, line, roomy, process_buffer-line}
use pcon_tng.CharFsm.Holds.{Holds, step_at, bytes-Holds}
use pcon_tng.CharFsm.Keys.{type_line, Typed, Typable, to_word, type_one}

type_words :
    (ts : List Typable) (rest cs : List ℕ) (r : Reader)
    → Holds r cs
    → r.char_state ≡ 3
    → (r' : Reader) × (type_line (line (map to_word ts) ++ rest) (some r)
        ≡ type_line rest (some r'))
      × Typed r' (cs ++ line (map to_word ts)) 3 r.queue r.usable
unfolding type_line
type_words [] rest cs r held u = (
  r,
  refl,
  record {
    holds = subst (Holds r) (sym (append_nil cs)) held;
    in_state = u;
    queue_kept = refl;
    usable_kept = refl;
  },
)
type_words (t ∷ ts) rest cs r held u =
    let w = token (to_word t) in
    let tail = line (map to_word ts) in
    let one = type_one t (tail ++ rest) cs r held (inr u) in
    let more = type_words ts rest (cs ++ (w ++ 32 ∷ [])) one.0 one.2.holds one.2.in_state in
    let e : (cs ++ (w ++ 32 ∷ [])) ++ tail ≡ cs ++ (w ++ 32 ∷ tail) =
      append_assoc cs (w ++ 32 ∷ []) tail ∙ ap (λ l. cs ++ l) (append_assoc w (32 ∷ []) tail) in
    (
      more.0,
      ap (λ l. type_line l (some r)) (append_assoc w (32 ∷ tail) rest) ∙ one.1 ∙ more.1,
      subst (λ l. Typed more.0 l 3 r.queue r.usable) e
          (record {
            holds = more.2.holds;
            in_state = more.2.in_state;
            queue_kept = more.2.queue_kept ∙ one.2.queue_kept;
            usable_kept = more.2.usable_kept ∙ one.2.usable_kept;
          }),
    )

get_or-end : (cs : List ℕ) → get_or cs (length cs) 0 ≡ 0
get_or-end [] = refl
get_or-end (c ∷ cs) = get_or-end cs

-- The tokens of a reader.
abbrev pub queue_of : Option Reader → Option (List (List ℕ))
queue_of none = none
queue_of (some r) = some r.queue

return_at :
    (state : ℕ) (r : Reader)
    → state ≡ 3
    → step_at 3 state 13 r
      ≡ set_char_state 0
          (process_buffer (record r { input_buffer = put r.input_buffer r.input_buffer_ptr 0 }))
unfolding run_char_action
return_at state r u = rw u refl

-- The return key behind a line that the buffer holds.
return_queues :
    (ws : List Word) (r : Reader)
    → Holds r (line ws)
    → r.char_state ≡ 3
    → length (line ws) < input_buffer_size
    → roomy r.usable ws ≡ true
    → queue_of (char_fsm 3 13 r) ≡ some (map token ws)
unfolding char_fsm
return_queues ws r held u fits room =
    let ended : Reader = record r { input_buffer = put r.input_buffer r.input_buffer_ptr 0 } in
    let cells =
      bytes-Holds ended.input_buffer (line ws) 0 input_buffer_size
        (λ j b. ground (arith, held.ptr, held.cells j b, get_or-end (line ws))) fits in
    ap queue_of (
      return_at r.char_state r u
      ∙ ap (set_char_state 0) (process_buffer-line ended ws cells.0 room cells.1))

-- Typing a line of at least one word or text in quotes, each with a blank behind it, and then the
-- return key queues the words and the texts in order, a text with its quotes, when the line fits the
-- buffer, the block of each text has room for its NUL, the buffer was empty and the machine had just
-- been reset.
pub type_line-queue :
    (t : Typable) (ts : List Typable) (r : Reader)
    → Holds r []
    → r.char_state ≡ 0
    → length (line (map to_word (t ∷ ts))) < input_buffer_size
    → roomy r.usable (map to_word (t ∷ ts)) ≡ true
    → queue_of (type_line (line (map to_word (t ∷ ts)) ++ 13 ∷ []) (some r))
      ≡ some (map token (map to_word (t ∷ ts)))
unfolding type_line
type_line-queue t ts r held u fits room =
    let w = token (to_word t) in
    let tail = line (map to_word ts) in
    let one = type_one t (tail ++ 13 ∷ []) [] r held (inl u) in
    let more = type_words ts (13 ∷ []) (w ++ 32 ∷ []) one.0 one.2.holds one.2.in_state in
    let e : (w ++ 32 ∷ []) ++ tail ≡ w ++ 32 ∷ tail = append_assoc w (32 ∷ []) tail in
    ap queue_of
      (ap (λ l. type_line l (some r)) (append_assoc w (32 ∷ tail) (13 ∷ [])) ∙ one.1 ∙ more.1)
    ∙ return_queues (map to_word (t ∷ ts)) more.0 (subst (Holds more.0) e more.2.holds)
        more.2.in_state fits
        (ap (λ f. roomy f (map to_word (t ∷ ts))) (more.2.usable_kept ∙ one.2.usable_kept) ∙ room)
