-- ===== src/CharFsm/Keys.antt =====
-- What typing a word or a quoted text does to the buffer of the character parser.
use pcon_tng.Prelude.{
  ℕ, ◌≡◌, inl, inr, refl, sym, ap, subst, ◌∙◌, List, [], ◌∷◌, ◌++◌, Option, none, some, Bool, true,
  ◌⊎◌, ◌||◌, Bool-cases, ◌&&◌, ◌==◌, arith, append_assoc, append_nil,
}
use pcon_tng.CharFsm.{Reader, quote, put_char, char_type, char_fsm}
use pcon_tng.CharFsm.Words.{Word, plain, quoted, is_inner, token, every, is_plain}
use pcon_tng.Prelude.Below.{and_left, and_right}
use pcon_tng.CharFsm.Holds.{
  Holds, Unquoted, Between, open_quote, add_inner, close_quote, drop_blank, added, put_char-Holds,
  add_other, add_blank,
}

-- The characters of a line, one call of the machine each.
unfoldable pub type_line : List ℕ → Option Reader → Option Reader
type_line [] r = r
type_line (c ∷ cs) none = none
type_line (c ∷ cs) (some r) = type_line cs (char_fsm (char_type c) c r)

-- The reader after more characters: what it holds and its state.
pub record Typed (r : Reader) (cs : List ℕ) (state : ℕ) (queue : List (List ℕ)) (usable : ℕ → ℕ)
    : Type 0 where
  pub holds : Holds r cs
  pub in_state : r.char_state ≡ state
  pub queue_kept : r.queue ≡ queue
  pub usable_kept : r.usable ≡ usable

-- A character of a word that the machine adds as it is.
abbrev pub is_other : ℕ → Bool
is_other c = char_type c == 4

pub added-Holds :
    (state : ℕ) (r : Reader) (cs : List ℕ) (c : ℕ)
    → Holds r cs
    → Holds (added state c r) (cs ++ c ∷ [])
added-Holds state r cs c h =
    let p = put_char-Holds r cs c h in record { ptr = p.ptr; cells = p.cells }

other_type : (c : ℕ) → is_other c ≡ true → char_type c ≡ 4
other_type c h = ground arith

type_word :
    (w rest : List ℕ) (cs : List ℕ) (r : Reader)
    → every is_other w ≡ true
    → Holds r cs
    → r.char_state ≡ 2
    → (r' : Reader) × (type_line (w ++ rest) (some r) ≡ type_line rest (some r'))
      × Typed r' (cs ++ w) 2 r.queue r.usable
unfolding type_line
type_word [] rest cs r h held u = (
  r,
  refl,
  record {
    holds = subst (Holds r) (sym (append_nil cs)) held;
    in_state = u;
    queue_kept = refl;
    usable_kept = refl;
  },
)
type_word (c ∷ w) rest cs r h held u =
    let next =
      type_word w rest (cs ++ c ∷ []) (added 2 c r) (and_right (is_other c) (every is_other w) h)
        (added-Holds 2 r cs c held) refl in
    (
      next.0,
      ap (type_line (w ++ rest)) (
            add_other r c (other_type c (and_left (is_other c) (every is_other w) h)) (inr (inl u)))
          ∙ next.1,
      subst (λ l. Typed next.0 l 2 r.queue r.usable) (append_assoc cs (c ∷ []) w) next.2,
    )

-- A word that can be typed: not empty, and without NUL, quote, delimiter, delete or return.
abbrev pub is_typed : ℕ → Bool
is_typed c = is_plain c && is_other c

-- A byte of a text that can be typed between quotes: no NUL, quote, delete or return.
abbrev pub is_typed_inner : ℕ → Bool
is_typed_inner c = is_inner c && (is_other c || char_type c == 0)

pub data Typable : Type 0 where
  word : (c : ℕ) (w : List ℕ) → every is_typed (c ∷ w) ≡ true → Typable
  text : (s : List ℕ) → every is_typed_inner s ≡ true → Typable

pub every-weaken :
    (p q : ℕ → Bool) (w : List ℕ)
    → ((c : ℕ) → p c ≡ true → q c ≡ true)
    → every p w ≡ true
    → every q w ≡ true
every-weaken p q [] imp h = refl
every-weaken p q (c ∷ w) imp h =
    rw
      (imp c (and_left (p c) (every p w) h), every-weaken p q w imp (and_right (p c) (every p w) h))
      refl

abbrev pub to_word : Typable → Word
to_word (word c w h) =
    plain (c ∷ w)
      (every-weaken is_typed is_plain (c ∷ w) (λ c. and_left (is_plain c) (is_other c)) h)
to_word (text s h) = quoted s (
    every-weaken is_typed_inner is_inner s
      (λ c. and_left (is_inner c) (is_other c || char_type c == 0)) h)

typed_inner : (c : ℕ) → is_typed_inner c ≡ true → (char_type c ≡ 4) ⊎ (char_type c ≡ 0)
typed_inner c h = elim (Bool-cases (is_other c)) [
  | inl other ↦ inl (other_type c other)
  | inr blank ↦ inr (ground (arith, h, blank))
]

-- The characters of a text, behind its first quote.
type_text :
    (s rest cs : List ℕ) (r : Reader)
    → every is_typed_inner s ≡ true
    → Holds r cs
    → r.char_state ≡ 1
    → (r' : Reader) × (type_line (s ++ rest) (some r) ≡ type_line rest (some r'))
      × Typed r' (cs ++ s) 1 r.queue r.usable
unfolding type_line
type_text [] rest cs r h held u = (
  r,
  refl,
  record {
    holds = subst (Holds r) (sym (append_nil cs)) held;
    in_state = u;
    queue_kept = refl;
    usable_kept = refl;
  },
)
type_text (c ∷ s) rest cs r h held u =
    let next =
      type_text s rest (cs ++ c ∷ []) (added 1 c r)
        (and_right (is_typed_inner c) (every is_typed_inner s) h) (added-Holds 1 r cs c held)
        refl in
    (
      next.0,
      ap (type_line (s ++ rest)) (
            add_inner r c (typed_inner c (and_left (is_typed_inner c) (every is_typed_inner s) h))
              u)
          ∙ next.1,
      subst (λ l. Typed next.0 l 1 r.queue r.usable) (append_assoc cs (c ∷ []) s) next.2,
    )

unquoted : (r : Reader) → Between r → Unquoted r
unquoted r (inl u) = inl u
unquoted r (inr u) = inr (inr u)

-- A word or a text and the blank behind it.
pub type_one :
    (t : Typable) (rest cs : List ℕ) (r : Reader)
    → Holds r cs
    → Between r
    → (r' : Reader) × (type_line (token (to_word t) ++ 32 ∷ rest) (some r)
        ≡ type_line rest (some r'))
      × Typed r' (cs ++ (token (to_word t) ++ 32 ∷ [])) 3 r.queue r.usable
unfolding type_line
type_one (word c w h) rest cs r held u =
    let others =
      every-weaken is_typed is_other (c ∷ w) (λ c. and_right (is_plain c) (is_other c)) h in
    let typed =
      type_word w (32 ∷ rest) (cs ++ c ∷ []) (added 2 c r)
        (and_right (is_other c) (every is_other w) others) (added-Holds 2 r cs c held) refl in
    let r' = typed.0 in
    let all = added-Holds 3 r' ((cs ++ c ∷ []) ++ w) 32 typed.2.holds in
    let e : ((cs ++ c ∷ []) ++ w) ++ 32 ∷ [] ≡ cs ++ (c ∷ (w ++ 32 ∷ [])) =
      append_assoc (cs ++ c ∷ []) w (32 ∷ []) ∙ append_assoc cs (c ∷ []) (w ++ 32 ∷ []) in
    (
      added 3 32 r',
      ap (type_line (w ++ 32 ∷ rest)) (
            add_other r c (other_type c (and_left (is_other c) (every is_other w) others))
              (unquoted r u))
          ∙ typed.1
          ∙ ap (type_line rest) (add_blank r' typed.2.in_state),
      record {
        holds = subst (Holds (added 3 32 r')) e all;
        in_state = refl;
        queue_kept = typed.2.queue_kept;
        usable_kept = typed.2.usable_kept;
      },
    )
type_one (text s h) rest cs r held u =
    let typed =
      type_text s (quote ∷ 32 ∷ rest) (cs ++ quote ∷ []) (added 1 quote r) h
        (added-Holds 1 r cs quote held) refl in
    let r' = typed.0 in
    let ended = put_char quote r' in
    let inner = (cs ++ quote ∷ []) ++ s in
    let all =
      added-Holds 3 ended (inner ++ quote ∷ []) 32 (put_char-Holds r' inner quote typed.2.holds) in
    let e : (inner ++ quote ∷ []) ++ 32 ∷ [] ≡ cs ++ (quote ∷ (s ++ quote ∷ []) ++ 32 ∷ []) =
      append_assoc inner (quote ∷ []) (32 ∷ [])
      ∙ append_assoc (cs ++ quote ∷ []) s (quote ∷ 32 ∷ [])
      ∙ append_assoc cs (quote ∷ []) (s ++ quote ∷ 32 ∷ [])
      ∙ ap (λ l. cs ++ quote ∷ l) (sym (append_assoc s (quote ∷ []) (32 ∷ []))) in
    (
      added 3 32 ended,
      ap (λ l. type_line l (char_fsm 1 quote r)) (append_assoc s (quote ∷ []) (32 ∷ rest))
          ∙ ap (type_line (s ++ quote ∷ 32 ∷ rest)) (open_quote r u)
          ∙ typed.1
          ∙ ap (type_line (32 ∷ rest)) (close_quote r' typed.2.in_state)
          ∙ ap (type_line rest) (drop_blank ended 32),
      record {
        holds = subst (Holds (added 3 32 ended)) e all;
        in_state = refl;
        queue_kept = typed.2.queue_kept;
        usable_kept = typed.2.usable_kept;
      },
    )
