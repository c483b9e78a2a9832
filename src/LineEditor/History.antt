-- ===== src/LineEditor/History.antt =====
-- The ring buffer of BBB/UI/Pcon.c as a list of lines, the oldest first, until it is full.
use pcon_tng.Prelude.{
  ℕ, zero, suc, ◌+◌, ◌*◌, ◌≤◌, ◌<◌, ◌≡◌, refl, ◌⊎◌, inl, inr, sym, subst, ◌∙◌, ap, ℤ, pos, List, [],
  ◌∷◌, ◌++◌, some, true, false, arith, length, get_or, get_elem?, ◌==◌, if-false,
}
use pcon_tng.CharFsm.{Reader, char_fsm_reset}
use pcon_tng.CharFsm.Keys.{type_line}
use pcon_tng.LineEditor.Tidy.{Tidy}
use pcon_tng.CharFsm.Words.{every}
use pcon_tng.CmdFsm.Tokens.{str_eq}
use pcon_tng.LineEditor.{
  Editor, return_key, with_reader, string_at, string_limit, restarted, copied_row, erased_row,
  stored_line, next_row,
}
use pcon_tng.LineEditor.Text.{Line}
use pcon_tng.LineEditor.Editing.{Shows, empty_line}
use pcon_tng.LineEditor.Bounds.{SameBehind}
use pcon_tng.LineEditor.Return.{return_key_lem, kept, restarted-Shows, restarted-Tidy, is_text}

-- Row `i` holds the string.
pub record RowHolds (ring : ℤ → ℕ) (i : ℕ) (s : List ℕ) : Type 0 where
  pub short : length s < 60
  pub text : every is_text s ≡ true
  pub cells : (k : ℕ) → k ≤ length s → ring (pos (60 * i + k)) ≡ get_or s k 0

-- The rows in front of `rb_in_idx` hold the lines, the oldest first, and there is room for a line
-- before the index goes round.
pub record Remembers (e : Editor) (lines : List (List ℕ)) : Type 0 where
  pub count : e.rb_in_idx ≡ length lines
  pub room : length lines < 10
  pub rows : (i : ℕ) (s : List ℕ) → get_elem? lines i ≡ some s → RowHolds e.ring_buffer i s

pub lt_of_get_elem? :
    (lines : List (List ℕ)) (i : ℕ) (s : List ℕ) → get_elem? lines i ≡ some s → i < length lines
lt_of_get_elem? [] i s h = absurd (cc h)
lt_of_get_elem? (x ∷ xs) zero s h = omega arith
lt_of_get_elem? (x ∷ xs) (suc i) s h = omega (arith, lt_of_get_elem? xs i s h)

stored-RowHolds :
    (ring : ℤ → ℕ) (i : ℕ) (s : List ℕ)
    → every is_text s ≡ true
    → length s < 60
    → i < 9
    → RowHolds (erased_row (next_row i) (copied_row s i ring)) i s
stored-RowHolds ring i s t room l = record { short = room; text = t; cells = λ k b. ground arith }

spared :
    (ring : ℤ → ℕ) (i j : ℕ) (s t : List ℕ)
    → RowHolds ring j t
    → j < i
    → i < 9
    → RowHolds (erased_row (next_row i) (copied_row s i ring)) j t
spared ring i j s t h l m = record {
  short = h.short;
  text = h.text;
  cells = λ k b. ground (arith, h.short, h.cells k);
}

get_elem?-snoc-cases :
    (lines : List (List ℕ)) (s t : List ℕ) (i : ℕ)
    → get_elem? (lines ++ s ∷ []) i ≡ some t
    → (get_elem? lines i ≡ some t) ⊎ ((i ≡ length lines) × (t ≡ s))
get_elem?-snoc-cases [] s t zero h = inr (refl, cc h)
get_elem?-snoc-cases [] s t (suc i) h = absurd (cc h)
get_elem?-snoc-cases (x ∷ xs) s t zero h = inl h
get_elem?-snoc-cases (x ∷ xs) s t (suc i) h = elim (get_elem?-snoc-cases xs s t i h) [
  | inl e ↦ inl e
  | inr (e, f) ↦ inr (ap suc e, f)
]

length-snoc : (lines : List (List ℕ)) (s : List ℕ) → length (lines ++ s ∷ []) ≡ suc (length lines)
length-snoc [] s = refl
length-snoc (x ∷ xs) s = ap suc (length-snoc xs s)

stored_line-Remembers :
    (e : Editor) (lines : List (List ℕ)) (s : List ℕ)
    → Remembers e lines
    → length lines < 9
    → length s < 60
    → every is_text s ≡ true
    → Remembers (restarted (stored_line s e)) (lines ++ s ∷ [])
      × ((restarted (stored_line s e)).rb_out_idx ≡ pos (length (lines ++ s ∷ [])))
stored_line-Remembers e lines s h room short text =
    let next : next_row e.rb_in_idx ≡ length (lines ++ s ∷ []) =
      ground (arith, h.count, length-snoc lines s) in
    (
      record {
        count = next;
        room = omega (arith, length-snoc lines s);
        rows = λ i t at. elim (get_elem?-snoc-cases lines s t i at) [
          | inl old ↦
              let below = lt_of_get_elem? lines i t old in
              spared e.ring_buffer e.rb_in_idx i s t (h.rows i t old) (omega (arith, h.count))
                (omega (arith, h.count))
          | inr (last, same) ↦
              subst (RowHolds (restarted (stored_line s e)).ring_buffer i) (sym same) (
                subst (λ k. RowHolds (restarted (stored_line s e)).ring_buffer k s)
                  (h.count ∙ sym last)
                  (stored-RowHolds e.ring_buffer e.rb_in_idx s text short (omega (arith, h.count))))
        ];
      },
      ap pos next,
    )

kept-new :
    (e : Editor) (s previous : List ℕ)
    → 0 < length s
    → str_eq s previous ≡ false
    → kept e s previous ≡ stored_line s e
kept-new e s previous some_text new =
    if-false (length s == 0) e _ (ground arith)
    ∙ if-false (str_eq s previous) e (stored_line s e) new

-- When the buffer holds a line of 1 to 58 characters, so that the carriage return and its NUL fit
-- behind them, none of them NUL, with nothing behind it, the previous line can be read and differs
-- from it, and the history holds at most eight lines, then the return key sends the characters of the
-- line and a carriage return to the parser that has been reset, adds the line to the history, leaves
-- an empty line, and writes nothing behind the work buffer.
pub return_key-Remembers :
    (e : Editor) (l : Line) (lines : List (List ℕ)) (previous : List ℕ) (r : Reader)
    → Shows e l
    → Tidy e
    → every is_text l.text ≡ true
    → 0 < length l.text
    → length l.text < 59
    → string_at e.previous_work_buffer 0 string_limit ≡ some previous
    → str_eq l.text previous ≡ false
    → Remembers e lines
    → length lines < 9
    → (e' : Editor) × (return_key e r
        ≡ with_reader e' (type_line (l.text ++ 13 ∷ []) (some (char_fsm_reset r))))
      × (Shows e' empty_line × Tidy e' × SameBehind e e')
      × Remembers e' (lines ++ l.text ∷ [])
      × (e'.rb_out_idx ≡ pos (length (lines ++ l.text ∷ [])))
return_key-Remembers e l lines previous r shows tidy text some_text short readable new h room =
    let e' = restarted (stored_line l.text e) in
    (
      e',
      return_key_lem shows text tidy (omega (arith, short)) readable r
          ∙ ap
              (λ k.
                with_reader (restarted k) (type_line (l.text ++ 13 ∷ []) (some (char_fsm_reset r))))
              (kept-new e l.text previous some_text new),
      (
        restarted-Shows (stored_line l.text e),
        restarted-Tidy (stored_line l.text e),
        λ j b. ground (arith, shows.at_end),
      ),
      (stored_line-Remembers e lines l.text h room (omega (arith, short)) text).0,
      (stored_line-Remembers e lines l.text h room (omega (arith, short)) text).1,
    )
