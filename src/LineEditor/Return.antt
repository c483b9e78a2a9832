-- ===== src/LineEditor/Return.antt =====
-- The return key of BBB/UI/Pcon.c: the line goes to the character parser and into the history.
use pcon_tng.Prelude.{
  ℕ, zero, suc, ◌+◌, ◌≤◌, ◌<◌, ◌≡◌, refl, subst, ◌∙◌, ap, List, [], ◌∷◌, ◌++◌, some, Bool, true,
  not, arith, length, get_or, ◌==◌, if◌then◌else◌, if-elim, if-elim_both, if-true, if-false,
}
use pcon_tng.Prelude.Below.{and_left, and_right}
use pcon_tng.CharFsm.{Reader, char_fsm_reset}
use pcon_tng.CharFsm.Holds.{length-snoc, get_or-snoc}
use pcon_tng.CharFsm.Words.{every}
use pcon_tng.CharFsm.Keys.{type_line}
use pcon_tng.CmdFsm.Tokens.{str_eq}
use pcon_tng.LineEditor.{
  Editor, string_at, consed, string_limit, returned, restarted, remember, compared, stored_line,
  sent, send_line, with_reader, return_key,
}
use pcon_tng.LineEditor.Text.{Line}
use pcon_tng.LineEditor.Editing.{Shows, empty_line}
use pcon_tng.LineEditor.Tidy.{Tidy}

-- A character of a text: not the NUL.
abbrev pub is_text : ℕ → Bool
is_text c = not (c == 0)

-- From cell `i` on the buffer holds the string.
pub record StringAt (f : ℕ → ℕ) (i : ℕ) (s : List ℕ) : Type 0 where
  pub text : every is_text s ≡ true
  pub cells : (k : ℕ) → k ≤ length s → f (i + k) ≡ get_or s k 0

string_at-cons :
    (f : ℕ → ℕ) (i n c : ℕ) (s : List ℕ)
    → f i ≡ c
    → is_text c ≡ true
    → string_at f (suc i) n ≡ some s
    → string_at f i (suc n) ≡ some (c ∷ s)
unfolding string_at
string_at-cons f i n c s first text rest =
    rw (first, rest) (if-false (c == 0) (some []) (some (c ∷ s)) (ground arith))

pub string_at_lem :
    (f : ℕ → ℕ) (i n : ℕ) (s : List ℕ) → StringAt f i s → length s < n → string_at f i n ≡ some s
unfolding string_at
string_at_lem f i zero s h room = absurd (omega arith)
string_at_lem f i (suc n) [] h room =
    let e : i + 0 ≡ i = omega arith in
    let ended : f i ≡ 0 = subst (λ k. f k ≡ 0) e (h.cells 0 (omega arith)) in
    if-true (f i == 0) (some []) (consed (f i) (string_at f (suc i) n)) (ground arith)
string_at_lem f i (suc n) (c ∷ s) h room =
    string_at-cons f i n c s
      (let e : i + 0 ≡ i = omega arith in subst (λ k. f k ≡ c) e (h.cells 0 (omega arith)))
      (and_left (is_text c) (every is_text s) h.text)
      (string_at_lem f (suc i) n s
        (record {
          text = and_right (is_text c) (every is_text s) h.text;
          cells = λ k b.
              let e : i + suc k ≡ suc i + k = omega arith in
              subst (λ j. f j ≡ get_or s k 0) e (h.cells (suc k) (omega (arith, b)));
        })
        (omega (arith, room)))

get_or-beyond : (s : List ℕ) (k : ℕ) → length s ≤ k → get_or s k 0 ≡ 0
get_or-beyond [] k h = refl
get_or-beyond (x ∷ s) zero h = absurd (omega arith)
get_or-beyond (x ∷ s) (suc k) h = get_or-beyond s k (omega (arith, h))

pub every-snoc :
    (s : List ℕ) (c : ℕ)
    → every is_text s ≡ true
    → is_text c ≡ true
    → every is_text (s ++ c ∷ []) ≡ true
every-snoc [] c h t = ground arith
every-snoc (x ∷ s) c h t = ground (arith, every-snoc s c)

-- The next editor, once the line has been compared with the one before, `previous`.
abbrev pub kept : Editor → List ℕ → List ℕ → Editor
kept e s previous = if length s == 0 then e else if str_eq s previous then e else stored_line s e

returned-kept : (e : Editor) (s previous : List ℕ) → returned (kept e s previous) ≡ returned e
returned-kept e s previous =
    if-elim (λ e'. returned e' ≡ returned e) (length s == 0) e _ (λ _. refl)
      (λ _.
        if-elim (λ e'. returned e' ≡ returned e) (str_eq s previous) e (stored_line s e) (λ _. refl)
          (λ _. refl))

module _ {e : Editor} {l : Line} (h : Shows e l) (text : every is_text l.text ≡ true) where
  returned-StringAt : StringAt (returned e) 0 (l.text ++ 13 ∷ [])
  returned-StringAt = record {
    text = every-snoc l.text 13 text refl;
    cells = λ k b. ground (
      arith,
      h.at_end,
      h.cells k,
      get_or-snoc l.text 13 k,
      length-snoc l.text 13,
      get_or-beyond l.text k,
    );
  }

  work-StringAt : Tidy e → length l.text < 60 → StringAt e.work_buffer 0 l.text
  work-StringAt t room = record {
    text = text;
    cells = λ k b. ground (arith, h.at_end, h.cells k, t k, get_or-beyond l.text k);
  }

  module _ (t : Tidy e) (room : length l.text < 60) {previous : List ℕ}
      (readable : string_at e.previous_work_buffer 0 string_limit ≡ some previous) where
    remember_lem : remember e ≡ some (kept e l.text previous)
    unfolding remember
    remember_lem =
        if-elim_both (λ x y. x ≡ some y) (e.work_buffer_ptr == 0) (length l.text == 0) (some e) _ e
          _ (ground (arith, h.at_end)) (λ _. refl)
          (λ _.
            ap (λ x. compared e x (string_at e.previous_work_buffer 0 string_limit))
              (string_at_lem e.work_buffer 0 string_limit l.text (work-StringAt t room)
                (omega (arith, room)))
            ∙ ap (compared e (some l.text)) readable)

    -- When the buffer holds a line of fewer than 60 characters, none of them NUL, with nothing behind
    -- it, and the previous line can be read, the return key sends the characters of the line and a
    -- carriage return to the parser that has been reset, and restarts the editor, with the line put
    -- into the history unless it is empty or equal to the previous line.
    pub return_key_lem :
        (r : Reader)
        → return_key e r
          ≡ with_reader
              (restarted (kept e l.text previous))
              (type_line (l.text ++ 13 ∷ []) (some (char_fsm_reset r)))
    unfolding return_key
    return_key_lem r =
        ap (send_line r) remember_lem
        ∙ ap
            (λ f.
              with_reader (restarted (kept e l.text previous))
                (sent r (string_at f 0 string_limit)))
            (returned-kept e l.text previous)
        ∙ ap (λ s. with_reader (restarted (kept e l.text previous)) (sent r s))
            (string_at_lem (returned e) 0 string_limit (l.text ++ 13 ∷ []) returned-StringAt
              (omega (arith, length-snoc l.text 13, room)))

-- What the editor holds after the return key: an empty line.
pub restarted-Shows : (e : Editor) → Shows (restarted e) empty_line
restarted-Shows e = record {
  at_end = refl;
  at_cursor = refl;
  inside = omega arith;
  cells = λ k b. absurd (omega arith);
}

pub restarted-Tidy : (e : Editor) → Tidy (restarted e)
restarted-Tidy e = λ k a b. ground arith

-- The previous line can be read after the return key, too.
pub kept-readable :
    (e : Editor) (s previous : List ℕ)
    → every is_text s ≡ true
    → length s < 60
    → string_at e.previous_work_buffer 0 string_limit ≡ some previous
    → (p : List ℕ) × (string_at (kept e s previous).previous_work_buffer 0 string_limit ≡ some p)
kept-readable e s previous text short readable =
    let P : Editor → Type 0 =
      λ e'. (p : List ℕ) × (string_at e'.previous_work_buffer 0 string_limit ≡ some p) in
    if-elim P (length s == 0) e _ (λ _. (previous, readable))
      (λ _.
        if-elim P (str_eq s previous) e (stored_line s e) (λ _. (previous, readable))
          (λ _. (
            s,
            string_at_lem (stored_line s e).previous_work_buffer 0 string_limit s
                (record { text = text; cells = λ k b. ground arith }) (omega (arith, short)),
          )))
