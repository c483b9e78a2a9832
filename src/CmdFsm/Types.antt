-- ===== src/CmdFsm/Types.antt =====
-- What `token_type` and the routines on strings of cmd_fsm.c answer.
use pcon_tng.Prelude.{
  ℕ, zero, suc, ◌+◌, ◌-◌, ◌++◌, ◌≤◌, ◌<◌, ◌≡◌, ◌≢◌, refl, sym, ap, subst, ◌∙◌, ◌⊎◌, inl, inr, ◌↔◌,
  List, [], ◌∷◌, Option, none, some, Bool, true, ◌&&◌, ◌==◌, if◌then◌else◌, arith, pos, length, map,
  Bool-cases, ltb, ltb→lt,
}
use pcon_tng.Prelude.Below.{and_right}
use pcon_tng.CmdFsm.Tokens.{
  str_eq, keyword_at, tolower, all_digits, is_valid_int, keyword_from, token_word, found_word,
  token_type, dequote, quote, padstr, pad_from, blanks, tt_null, tt_int, tt_str, tt_unrec,
}

pub str_eq_sound : (xs ys : List ℕ) → str_eq xs ys ≡ true → xs ≡ ys
str_eq_sound [] [] h = refl
str_eq_sound [] (y ∷ ys) h = absurd (ground arith)
str_eq_sound (x ∷ xs) [] h = absurd (ground arith)
str_eq_sound (x ∷ xs) (y ∷ ys) h = ground (arith, str_eq_sound xs ys)

found_or :
    {A : Type 0} (b : Bool) (a : A) (o : Option A) (k : A)
    → (if b then some a else o) ≡ some k
    → ((b ≡ true) × (a ≡ k)) ⊎ (o ≡ some k)
found_or b a o k h = ground arith

-- What a search of the keywords finds.
keyword_from_found :
    (c : List ℕ) (i n k : ℕ)
    → keyword_from c i n ≡ some k
    → (i ≤ k) × (k < i + n) × (map tolower c ≡ keyword_at k)
unfolding keyword_from
keyword_from_found c i zero k h = absurd (ground arith)
keyword_from_found c i (suc n) k h =
    elim (found_or (length c == length (keyword_at i) && str_eq (map tolower c) (keyword_at i)) i
      (keyword_from c (suc i) n) k h) [
        | inl (same, e) ↦
            let word =
              str_eq_sound (map tolower c) (keyword_at i)
                (and_right (length c == length (keyword_at i)) _ same) in
            (omega arith, omega arith, subst (λ j. map tolower c ≡ keyword_at j) e word)
        | inr later ↦
            let r = keyword_from_found c (suc i) n k later in
            (omega (arith, r.0), omega (arith, r.1), r.2)
      ]

-- The class of a token, by the order of the tests.
token_type-cases :
    (c : List ℕ)
    → (token_type c ≡ tt_null)
      ⊎ (token_type c ≡ tt_str)
      ⊎ ((token_type c ≡ tt_int) × (is_valid_int c ≡ true))
      ⊎ (token_type c ≡ token_word c)
unfolding token_type
token_type-cases [] = inl refl
token_type-cases (c ∷ cs) = ground arith

token_word-cases :
    (c : List ℕ)
    → (token_word c ≡ tt_unrec)
      ⊎ ((i : ℕ) × (token_word c ≡ pos i)
          × (i < 35 ⊎ (38 ≤ i × i < 41))
          × (map tolower c ≡ keyword_at i))
unfolding token_word
token_word-cases c = go (keyword_from c 0 35) refl (keyword_from c 38 3) refl
  where
    go :
        (o : Option ℕ)
        → keyword_from c 0 35 ≡ o
        → (o' : Option ℕ) → keyword_from c 38 3 ≡ o'
        → (found_word o o' ≡ tt_unrec)
          ⊎ ((i : ℕ) × (found_word o o' ≡ pos i)
              × (i < 35 ⊎ (38 ≤ i × i < 41))
              × (map tolower c ≡ keyword_at i))
    go (some i) e o' e' =
        let r = keyword_from_found c 0 35 i e in inr (i, refl, inl (omega (arith, r.1)), r.2)
    go none e (some i) e' =
        let r = keyword_from_found c 38 3 i e' in inr (i, refl, inr (r.0, omega (arith, r.1)), r.2)
    go none e none e' = inl refl

-- A token that `token_type` gives a number is the keyword of that number, up to case, and never one
-- of the three placeholders INT, STR and OTHER.
pub token_type-keyword :
    (c : List ℕ) (i : ℕ)
    → token_type c ≡ pos i
    → (i < 35 ⊎ (38 ≤ i × i < 41)) × (map tolower c ≡ keyword_at i)
token_type-keyword c i h = elim (token_type-cases c) [
  | inl e ↦ absurd (ground arith)
  | inr (inl e) ↦ absurd (ground arith)
  | inr (inr (inl (e, _))) ↦ absurd (ground arith)
  | inr (inr (inr e)) ↦ elim (token_word-cases c) [
    | inl u ↦ absurd (ground arith)
    | inr (j, word, range, same) ↦
        let k : j ≡ i = ground arith in
        (
          subst (λ n. n < 35 ⊎ (38 ≤ n × n < 41)) k range,
          subst (λ n. map tolower c ≡ keyword_at n) k same,
        )
  ]
]

-- Every token has one of the four types that are not words, or is a word.
pub token_type_range :
    (c : List ℕ)
    → (token_type c ≡ tt_null)
      ⊎ (token_type c ≡ tt_str)
      ⊎ (token_type c ≡ tt_int)
      ⊎ (token_type c ≡ tt_unrec)
      ⊎ ((i : ℕ) × (token_type c ≡ pos i) × (i < 41))
token_type_range c = elim (token_type-cases c) [
  | inl e ↦ inl e
  | inr (inl e) ↦ inr (inl e)
  | inr (inr (inl (e, _))) ↦ inr (inr (inl e))
  | inr (inr (inr e)) ↦ elim (token_word-cases c) [
    | inl u ↦ inr (inr (inr (inl (e ∙ u))))
    | inr (i, word, inl low, _) ↦ inr (inr (inr (inr (i, e ∙ word, omega arith))))
    | inr (i, word, inr (_, high), _) ↦ inr (inr (inr (inr (i, e ∙ word, high))))
  ]
]

-- Digits after an optional minus sign.
pub Numeral : List ℕ → Type 0
Numeral c = (ds : List ℕ) × (ds ≢ []) × (all_digits ds ≡ true) × ((c ≡ ds) ⊎ (c ≡ b'-' ∷ ds))

-- `is_valid_int` accepts exactly the strings of one or more digits, with or without a minus sign in
-- front.
pub is_valid_int-Numeral : (c : List ℕ) → (is_valid_int c ≡ true) ↔ Numeral c
unfolding is_valid_int Numeral
is_valid_int-Numeral c = (accepts c, accepted c)
  where
    accepts : (c : List ℕ) → is_valid_int c ≡ true → Numeral c
    accepts [] h = absurd (ground arith)
    accepts (c ∷ cs) h = elim (Bool-cases (c == b'-')) [
      | inr other ↦ (c ∷ cs, λ e. ground arith, ground arith, inl refl)
      | inl dash ↦
          elim cs as (λ cs. is_valid_int (c ∷ cs) ≡ true → Numeral (c ∷ cs)) [
            | [] ↦ λ h. absurd (ground arith)
            | d ∷ ds ↦ λ h.
                let e : c ≡ b'-' = ground arith in
                (d ∷ ds, λ e. ground arith, ground arith, inr (ap (λ n. n ∷ d ∷ ds) e))
          ]
            h
    ]

    plain : (d : ℕ) (ds : List ℕ) → all_digits (d ∷ ds) ≡ true → is_valid_int (d ∷ ds) ≡ true
    plain d ds h = ground arith

    signed :
        (d : ℕ) (ds : List ℕ) → all_digits (d ∷ ds) ≡ true → is_valid_int (b'-' ∷ d ∷ ds) ≡ true
    signed d ds h = h

    accepted : (c : List ℕ) → Numeral c → is_valid_int c ≡ true
    accepted c ([], full, digits, form) = absurd (full refl)
    accepted c (d ∷ ds, full, digits, inl e) =
        subst (λ c. is_valid_int c ≡ true) (sym e) (plain d ds digits)
    accepted c (d ∷ ds, full, digits, inr e) =
        subst (λ c. is_valid_int c ≡ true) (sym e) (signed d ds digits)

-- The number of quotes in a string.
abbrev pub quotes : List ℕ → ℕ
quotes [] = 0
quotes (c ∷ cs) = (if c == quote then 1 else 0) + quotes cs

-- `dequote` leaves no quote, and drops as many bytes as the string had quotes.
pub dequote-quotes :
    (s : List ℕ) → (quotes (dequote s) ≡ 0) × (length (dequote s) + quotes s ≡ length s)
unfolding dequote
dequote-quotes [] = (refl, refl)
dequote-quotes (c ∷ cs) = let rest = dequote-quotes cs in ground (arith, rest.0, rest.1)

pad_from_short :
    (str : List ℕ) (n m : ℕ)
    → n ≡ length str + suc m
    → pad_from str n ≡ some (str ++ blanks (suc m))
unfolding pad_from
pad_from_short str zero m h = absurd (omega arith)
pad_from_short [] (suc n) m h = let e : n ≡ m = omega arith in rw e
pad_from_short (c ∷ cs) (suc n) m h = rw (pad_from_short cs n m (omega (arith, h)))

pad_from_full : (str : List ℕ) (n : ℕ) → n ≤ length str → pad_from str n ≡ none
unfolding pad_from
pad_from_full str zero h = refl
pad_from_full [] (suc n) h = absurd (omega arith)
pad_from_full (c ∷ cs) (suc n) h = rw (pad_from_full cs n (omega (arith, h)))

-- For a length of at most 120, `padstr` fills a shorter string up with blanks, returns a longer
-- one as it is, and returns NULL for a string that already has the length asked for.
pub padstr-cases :
    (str : List ℕ) (len : ℕ)
    → len ≤ 120
    → ((length str < len) × (padstr str len ≡ some (str ++ blanks (len - length str))))
      ⊎ ((len < length str) × (padstr str len ≡ some str))
      ⊎ ((length str ≡ len) × (padstr str len ≡ none))
unfolding padstr
padstr-cases str len fits = elim (Bool-cases (ltb (length str) len)) [
  | inl e ↦ let h = ltb→lt (length str) len e in inl (h, ground (arith, short h))
  | inr e ↦ elim (Bool-cases (ltb len (length str))) [
    | inl e' ↦ inr (inl (ltb→lt len (length str) e', ground arith))
    | inr e' ↦ inr (inr (ground arith, ground (arith, pad_from_full str len (ground arith))))
  ]
]
  where
    short : length str < len → pad_from str len ≡ some (str ++ blanks (len - length str))
    short h =
        let m : ℕ = len - length str - 1 in
        let e : suc m ≡ len - length str = omega arith in
        subst (λ k. pad_from str len ≡ some (str ++ blanks k)) e
          (pad_from_short str len m (omega arith))

-- The last of these cases.
pub padstr_full : (str : List ℕ) (len : ℕ) → len ≤ 120 → length str ≡ len → padstr str len ≡ none
padstr_full str len fits full = elim (padstr-cases str len fits) [
  | inl (h, _) ↦ absurd (omega arith)
  | inr (inl (h, _)) ↦ absurd (omega arith)
  | inr (inr (_, e)) ↦ e
]
