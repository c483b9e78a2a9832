-- ===== src/Topics/Levels.antt =====
-- What the topics of i5-6600k/lib-sources/build_token_q.c are made of.
use pcon_tng.Prelude.{
  ℕ, ◌≡◌, ◌<◌, refl, ap, ◌∙◌, List, [], ◌∷◌, ◌++◌, true, not, ◌==◌, arith, if-false, length,
}
use pcon_tng.Prelude.Below.{and_right}
use pcon_tng.CharFsm.Words.{every}
use pcon_tng.Topics.{until_slash, token_buffer_size}
use pcon_tng.Topics.Chain.{is_text}

-- A level of a topic: fewer than 50 bytes, none of them NUL or a slash.
pub record Level : Type 0 where
  pub text : List ℕ
  pub no_slash : every (λ c. not (c == b'/')) text ≡ true
  pub no_nul : every is_text text ≡ true
  pub short : length text < token_buffer_size

-- A topic: levels with a slash behind each, and one more without.
abbrev pub topic : List Level → Level → List ℕ
topic [] last = last.text
topic (l ∷ ls) last = l.text ++ b'/' ∷ topic ls last

-- What the last level adds: nothing if it is empty.
abbrev pub last_text : List ℕ → List (List ℕ)
last_text [] = []
last_text (c ∷ cs) = (c ∷ cs) ∷ []

abbrev pub levels : List Level → Level → List (List ℕ)
levels [] last = last_text last.text
levels (l ∷ ls) last = l.text ∷ levels ls last

pub until_slash-slash :
    (s rest : List ℕ)
    → every (λ c. not (c == b'/')) s ≡ true
    → until_slash (s ++ b'/' ∷ rest) ≡ (s, rest)
until_slash-slash [] rest h = refl
until_slash-slash (c ∷ s) rest h =
    if-false (c == b'/') _ _ (ground arith)
    ∙ ap (λ (r : List ℕ × List ℕ). (c ∷ r.0, r.1))
        (until_slash-slash s rest (and_right (not (c == b'/')) _ h))

pub until_slash-end : (s : List ℕ) → every (λ c. not (c == b'/')) s ≡ true → until_slash s ≡ (s, [])
until_slash-end [] h = refl
until_slash-end (c ∷ s) h =
    if-false (c == b'/') _ _ (ground arith)
    ∙ ap (λ (r : List ℕ × List ℕ). (c ∷ r.0, r.1))
        (until_slash-end s (and_right (not (c == b'/')) _ h))

pub slash_some : (s rest : List ℕ) → 0 < length (s ++ b'/' ∷ rest)
slash_some [] rest = omega arith
slash_some (c ∷ s) rest = omega arith
