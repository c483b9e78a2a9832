-- ===== src/Gateway/Fields.antt =====
-- The fields of a query string, and what the string functions that BBB/CGI/Scon.c calls find in them.
use pcon_tng.Prelude.{
  ℕ, suc, ◌-◌, ◌<◌, ◌≡◌, refl, ap, ◌∙◌, List, [], ◌∷◌, ◌++◌, none, some, Bool, true, ◌&&◌, ◌==◌,
  arith, length, if◌then◌else◌, append_assoc, drop, length-append, take, take-append,
}
use pcon_tng.Prelude.Below.{and_right}
use pcon_tng.CharFsm.{str}
use pcon_tng.CharFsm.Words.{every}
use pcon_tng.CmdFsm.Tokens.{str_eq}
use pcon_tng.Gateway.{strchr, Lookup, found, missing, names, value_at, unesc_from}
use pcon_tng.Gateway.Encoding.{Piece, text, decoded, apart, text-apart, unesc_from-text}

pub strchr-append :
    (c : ℕ) (xs ys : List ℕ)
    → every (apart c) xs ≡ true
    → strchr (xs ++ c ∷ ys) c ≡ some (length xs)
unfolding strchr
strchr-append c [] ys h = ground arith
strchr-append c (x ∷ xs) ys h =
    ground (arith, strchr-append c xs ys (and_right (apart c x) (every (apart c) xs) h))

pub strchr-none : (c : ℕ) (xs : List ℕ) → every (apart c) xs ≡ true → strchr xs c ≡ none
unfolding strchr
strchr-none c [] h = refl
strchr-none c (x ∷ xs) h =
    ground (arith, strchr-none c xs (and_right (apart c x) (every (apart c) xs) h))

pub every-append :
    (p : ℕ → Bool) (xs ys : List ℕ)
    → every p xs ≡ true
    → every p ys ≡ true
    → every p (xs ++ ys) ≡ true
every-append p [] ys h k = k
every-append p (x ∷ xs) ys h k =
    ground (arith, every-append p xs ys (and_right (p x) (every p xs) h) k)

-- A field: a name, and a value in pieces.
pub record Field : Type 0 where
  pub name : List ℕ
  pub no_equals : every (apart b'=') name ≡ true
  pub no_amp : every (apart b'&') name ≡ true
  pub value : List Piece

abbrev pub field : Field → List ℕ
field f = f.name ++ b'=' ∷ text f.value

-- The fields with an ampersand between them.
abbrev pub query : List Field → List ℕ
query [] = []
query (f ∷ []) = field f
query (f ∷ g ∷ fs) = field f ++ b'&' ∷ query (g ∷ fs)

-- The value of the first field of the name.
abbrev pub lookup : List ℕ → List Field → Lookup
lookup name [] = missing
lookup name (f ∷ fs) =
    if length f.name == length name && str_eq name f.name
    then found (str (decoded f.value))
    else lookup name fs

pub drop-past : (xs : List ℕ) (c : ℕ) (ys : List ℕ) → drop (suc (length xs)) (xs ++ c ∷ ys) ≡ ys
drop-past [] c ys = refl
drop-past (x ∷ xs) c ys = drop-past xs c ys

pub field_with :
    (f : Field) (rest : List ℕ) → field f ++ rest ≡ f.name ++ b'=' ∷ (text f.value ++ rest)
field_with f rest = append_assoc f.name (b'=' ∷ text f.value) rest

-- The value of a field, with `rest` behind it.
pub value-field :
    (beyond : ℕ) (f : Field) (rest : List ℕ)
    → value_at beyond (field f ++ rest) (some (length f.name)) (length (field f))
      ≡ found (str (decoded f.value))
value-field beyond f rest =
    let n : length (field f) - length f.name - 1 ≡ length (text f.value) =
      omega (arith, length-append f.name (b'=' ∷ text f.value)) in
    ap (λ v. found (str v))
      (ap
          (λ p.
            unesc_from beyond (length (field f) - length f.name - 1) 0
              (drop (suc (length f.name)) p))
          (field_with f rest)
        ∙ ap (unesc_from beyond (length (field f) - length f.name - 1) 0)
            (drop-past f.name b'=' (text f.value ++ rest))
        ∙ ap (λ n. unesc_from beyond n 0 (text f.value ++ rest)) n
        ∙ unesc_from-text beyond f.value rest)

pub first_equals :
    (f : Field) (rest : List ℕ) → strchr (field f ++ rest) b'=' ≡ some (length f.name)
first_equals f rest =
    ap (λ p. strchr p b'=') (field_with f rest)
    ∙ strchr-append b'=' f.name (text f.value ++ rest) f.no_equals

pub field_apart : (f : Field) → every (apart b'&') (field f) ≡ true
field_apart f = every-append (apart b'&') f.name (b'=' ∷ text f.value) f.no_amp (text-apart f.value)

pub names-field :
    (name : List ℕ) (f : Field) (rest : List ℕ)
    → names name (field f ++ rest) (some (length f.name))
      ≡ (length f.name == length name && str_eq name f.name)
names-field name f rest =
    ap (λ p. length f.name == length name && str_eq name (take (length f.name) p))
      (field_with f rest)
    ∙ ap (λ p. length f.name == length name && str_eq name p)
        (take-append f.name (b'=' ∷ (text f.value ++ rest)))

pub field_some : (f : Field) (rest : List ℕ) → 0 < length (field f ++ rest)
field_some f rest =
    omega (arith, length-append (field f) rest, length-append f.name (b'=' ∷ text f.value))
