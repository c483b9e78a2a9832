-- ===== src/Gateway/Query.antt =====
-- What `cgigetval` of BBB/CGI/Scon.c finds among the fields of a query.
use pcon_tng.Prelude.{
  ℕ, zero, suc, ◌≤◌, ◌<◌, ◌≡◌, refl, ap, sym, ◌∙◌, List, [], ◌∷◌, ◌++◌, Option, none, some, true,
  false, ◌&&◌, ◌==◌, arith, length, if◌then◌else◌, if-false, if-true, if-elim_both, append_assoc,
  append_nil, drop, drop-append, length-append,
}
use pcon_tng.CharFsm.{str}
use pcon_tng.CharFsm.Words.{every}
use pcon_tng.CmdFsm.Tokens.{str_eq}
use pcon_tng.Gateway.{
  strchr, past_amp, len2_of, is_stuck, Lookup, found, missing, out_of_rounds, names, value_at,
  get_from, cgigetval,
}
use pcon_tng.Gateway.Encoding.{text, decoded, apart}
use pcon_tng.Gateway.Fields.{
  Field, field, query, lookup, strchr-append, strchr-none, every-append, field_with, value-field,
  first_equals, field_apart, names-field, field_some,
}

module _ (beyond : ℕ) (name : List ℕ) where
  -- One round on `p`.
  abbrev round : ℕ → List ℕ → Option ℕ → Option ℕ → Lookup
  round n p p2 p3 =
      if is_stuck p2 p3
      then get_from beyond name n p
      else if names name p p2
      then value_at beyond p p2 (len2_of p p3)
      else get_from beyond name n (past_amp (drop (len2_of p p3) p))

  get_from-round :
      (n : ℕ) (p : List ℕ)
      → 0 < length p
      → get_from beyond name (suc n) p ≡ round n p (strchr p b'=') (strchr p b'&')
  unfolding get_from
  get_from-round n [] h = absurd (omega arith)
  get_from-round n (c ∷ cs) h = refl

  -- A round on a field, where `p3` is found as given and what follows is searched.
  field_round :
      (n : ℕ) (f : Field) (rest : List ℕ) (p3 : Option ℕ) (next : Lookup)
      → strchr (field f ++ rest) b'&' ≡ p3
      → is_stuck (some (length f.name)) p3 ≡ false
      → len2_of (field f ++ rest) p3 ≡ length (field f)
      → get_from beyond name n (past_amp (drop (length (field f)) (field f ++ rest))) ≡ next
      → get_from beyond name (suc n) (field f ++ rest) ≡ (
          if length f.name == length name && str_eq name f.name
          then found (str (decoded f.value))
          else next)
  field_round n f rest p3 next third moves len2 follows =
      let p = field f ++ rest in
      get_from-round n p (field_some f rest)
      ∙ ap (λ q. round n p q (strchr p b'&')) (first_equals f rest)
      ∙ ap (round n p (some (length f.name))) third
      ∙ if-false (is_stuck (some (length f.name)) p3) (get_from beyond name n p) _ moves
      ∙ if-elim_both (λ x y. x ≡ y) (names name p (some (length f.name)))
          (length f.name == length name && str_eq name f.name) _ _ _ next (names-field name f rest)
          (λ _. ap (value_at beyond p (some (length f.name))) len2 ∙ value-field beyond f rest)
          (λ _. ap (λ m. get_from beyond name n (past_amp (drop m p))) len2 ∙ follows)

  get_from-nil : (n : ℕ) → get_from beyond name n [] ≡ missing
  unfolding get_from
  get_from-nil zero = refl
  get_from-nil (suc n) = refl

  get_from-query :
      (n : ℕ) (fs : List Field)
      → length (query fs) ≤ n
      → get_from beyond name n (query fs) ≡ lookup name fs
  get_from-query n [] h = get_from-nil n
  get_from-query zero (f ∷ []) h =
      absurd (omega (arith, length-append f.name (b'=' ∷ text f.value)))
  get_from-query (suc n) (f ∷ []) h =
      let all = append_nil (field f) in
      ap (get_from beyond name (suc n)) (sym all)
      ∙ field_round n f [] none missing
          (ap (λ p. strchr p b'&') all ∙ strchr-none b'&' (field f) (field_apart f)) refl
          (ap length all)
          (ap (λ p. get_from beyond name n (past_amp p)) (drop-append (field f) [])
            ∙ get_from-nil n)
  get_from-query zero (f ∷ g ∷ fs) h =
      absurd (omega (arith, length-append (field f) (b'&' ∷ query (g ∷ fs))))
  get_from-query (suc n) (f ∷ g ∷ fs) h =
      let rest = b'&' ∷ query (g ∷ fs) in
      let longer = length-append f.name (b'=' ∷ text f.value) in
      field_round n f rest (some (length (field f))) (lookup name (g ∷ fs))
        (strchr-append b'&' (field f) (query (g ∷ fs)) (field_apart f)) (ground (arith, longer))
        refl
        (ap (λ p. get_from beyond name n (past_amp p)) (drop-append (field f) rest)
          ∙ get_from-query n (g ∷ fs) (omega (arith, length-append (field f) rest, h)))

  -- In a query of fields, each a name without `=` and `&`, an equals sign and a value in which a blank
  -- may be written `+`, and any byte as a per cent sign and its two hexadecimal digits, in capitals or
  -- small letters, `cgigetval` finds the decoded value, up to its first
  -- NUL, of the first field with the name, and NULL if there is none.
  pub cgigetval-query : (fs : List Field) → cgigetval beyond name (some (query fs)) ≡ lookup name fs
  unfolding cgigetval
  cgigetval-query fs = get_from-query (length (query fs)) fs (omega arith)

  stuck :
      (n c : ℕ) (cs : List ℕ) (p2 p3 : Option ℕ)
      → strchr (c ∷ cs) b'=' ≡ p2
      → strchr (c ∷ cs) b'&' ≡ p3
      → is_stuck p2 p3 ≡ true
      → get_from beyond name n (c ∷ cs) ≡ out_of_rounds
  unfolding get_from
  stuck zero c cs p2 p3 e2 e3 s = refl
  stuck (suc n) c cs p2 p3 e2 e3 s =
      get_from-round n (c ∷ cs) (omega arith)
      ∙ ap (λ q. round n (c ∷ cs) q (strchr (c ∷ cs) b'&')) e2
      ∙ ap (round n (c ∷ cs) p2) e3
      ∙ if-true (is_stuck p2 p3) (get_from beyond name n (c ∷ cs)) _ s
      ∙ stuck n c cs p2 p3 e2 e3 s

  -- A query that starts with a field without an equals sign, with another field behind it that has
  -- one, keeps `cgigetval` in its loop: no number of rounds is enough.
  pub get_from_stuck :
      (n c : ℕ) (word rest : List ℕ) (f : Field)
      → every (apart b'=') (c ∷ word) ≡ true
      → every (apart b'&') (c ∷ word) ≡ true
      → get_from beyond name n ((c ∷ word) ++ b'&' ∷ (field f ++ rest)) ≡ out_of_rounds
  get_from_stuck n c word rest f no_equals no_amp =
      let first = c ∷ word in
      stuck n c (word ++ b'&' ∷ (field f ++ rest)) (some (length (first ++ b'&' ∷ f.name)))
        (some (length first)) (equals f) (strchr-append b'&' first (field f ++ rest) no_amp)
        (ground (arith, length-append first (b'&' ∷ f.name)))
    where
      equals :
          (f : Field)
          → strchr ((c ∷ word) ++ b'&' ∷ (field f ++ rest)) b'='
            ≡ some (length ((c ∷ word) ++ b'&' ∷ f.name))
      equals f =
          let front = (c ∷ word) ++ b'&' ∷ f.name in
          let behind = text f.value ++ rest in
          ap (λ p. strchr ((c ∷ word) ++ b'&' ∷ p) b'=') (field_with f rest)
          ∙ ap (λ p. strchr p b'=') (sym (append_assoc (c ∷ word) (b'&' ∷ f.name) (b'=' ∷ behind)))
          ∙ strchr-append b'=' front behind
              (every-append (apart b'=') (c ∷ word) (b'&' ∷ f.name) no_equals f.no_equals)
