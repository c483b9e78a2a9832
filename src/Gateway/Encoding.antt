-- ===== src/Gateway/Encoding.antt =====
-- Values in a query string, and what `unescstring` of BBB/CGI/Scon.c makes of them.
use pcon_tng.Prelude.{
  ℕ, suc, ◌+◌, ◌*◌, ◌%◌, ◌<◌, false, get_or, if◌then◌else◌, ◌≡◌, refl, ap, ◌∙◌, List, [], ◌∷◌, ◌++◌,
  Bool, true, not, ◌&&◌, ◌==◌, arith, length,
}
use pcon_tng.CharFsm.Words.{every}
use pcon_tng.Prelude.Below.{all_below, all_below-at, and_left, and_right}
use pcon_tng.Gateway.{xctod, from_hex, unesc_from}

-- A character that stands for itself in a value.
abbrev pub stands : ℕ → Bool
stands c = not (c == b'+') && not (c == b'%') && not (c == b'&')

-- A hexadecimal digit, in capitals or not.
pub record Digit : Type 0 where
  pub value : ℕ
  pub small : value < 16
  pub capital : Bool

abbrev pub capitals : List ℕ
capitals =
    b'0' ∷ b'1' ∷ b'2' ∷ b'3' ∷ b'4' ∷ b'5' ∷ b'6' ∷ b'7' ∷ b'8' ∷ b'9' ∷ b'A' ∷ b'B' ∷ b'C' ∷ b'D'
    ∷ b'E' ∷ b'F' ∷ []

abbrev pub small_letters : List ℕ
small_letters =
    b'0' ∷ b'1' ∷ b'2' ∷ b'3' ∷ b'4' ∷ b'5' ∷ b'6' ∷ b'7' ∷ b'8' ∷ b'9' ∷ b'a' ∷ b'b' ∷ b'c' ∷ b'd'
    ∷ b'e' ∷ b'f' ∷ []

-- The character of a digit.
abbrev pub digit : Digit → ℕ
digit d = get_or (if d.capital then capitals else small_letters) d.value 0

-- Each character is read as its digit, and none is a separator.
reads_back : Bool → ℕ → Bool
reads_back capital n =
    let c = get_or (if capital then capitals else small_letters) n 0 in
    xctod c == n && not (c == b'&')

digits_read : (capital : Bool) → all_below 16 (reads_back capital) ≡ true
unfolding all_below reads_back
digits_read true = refl
digits_read false = refl

digit-reads_back : (d : Digit) → reads_back d.capital d.value ≡ true
digit-reads_back d = all_below-at 16 (reads_back d.capital) (digits_read d.capital) d.value d.small

xctod-digit : (d : Digit) → xctod (digit d) ≡ d.value
unfolding reads_back
xctod-digit d =
    let read = xctod (digit d) == d.value in
    ground (arith, and_left read (not (digit d == b'&')) (digit-reads_back d))

digit-apart : (d : Digit) → not (digit d == b'&') ≡ true
unfolding reads_back
digit-apart d = and_right (xctod (digit d) == d.value) (not (digit d == b'&')) (digit-reads_back d)

from_hex-digits : (c d : Digit) → from_hex (digit c) (digit d) ≡ 16 * c.value + d.value
from_hex-digits c d =
    ap (λ n. (16 * n + xctod (digit d)) % 256) (xctod-digit c)
    ∙ ap (λ n. (16 * c.value + n) % 256) (xctod-digit d)
    ∙ ground (arith, c.small, d.small)

-- The three ways to write a byte.
pub data Piece : Type 0 where
  plain : (c : ℕ) → stands c ≡ true → Piece
  blank : Piece
  hex : (high low : Digit) → Piece

abbrev pub text : List Piece → List ℕ
text [] = []
text (plain c h ∷ ps) = c ∷ text ps
text (blank ∷ ps) = b'+' ∷ text ps
text (hex c d ∷ ps) = b'%' ∷ digit c ∷ digit d ∷ text ps

abbrev pub decoded : List Piece → List ℕ
decoded [] = []
decoded (plain c h ∷ ps) = c ∷ decoded ps
decoded (blank ∷ ps) = 32 ∷ decoded ps
decoded (hex c d ∷ ps) = (16 * c.value + d.value) ∷ decoded ps

plain_step :
    (beyond n c : ℕ) (cs : List ℕ)
    → stands c ≡ true
    → unesc_from beyond (suc n) 0 (c ∷ cs) ≡ c ∷ unesc_from beyond n 0 cs
unfolding unesc_from
plain_step beyond n c cs h = ground arith

-- Reading as many bytes as a value has yields the bytes that it stands for, whatever comes behind.
pub unesc_from-text :
    (beyond : ℕ) (ps : List Piece) (rest : List ℕ)
    → unesc_from beyond (length (text ps)) 0 (text ps ++ rest) ≡ decoded ps
unfolding unesc_from
unesc_from-text beyond [] rest = refl
unesc_from-text beyond (plain c h ∷ ps) rest =
    plain_step beyond (length (text ps)) c (text ps ++ rest) h
    ∙ ap (λ l. c ∷ l) (unesc_from-text beyond ps rest)
unesc_from-text beyond (blank ∷ ps) rest = ap (λ l. 32 ∷ l) (unesc_from-text beyond ps rest)
unesc_from-text beyond (hex c d ∷ ps) rest =
    ap (λ l. from_hex (digit c) (digit d) ∷ l) (unesc_from-text beyond ps rest)
    ∙ ap (λ b. b ∷ decoded ps) (from_hex-digits c d)

-- No value has a separator in it.
abbrev pub apart : ℕ → ℕ → Bool
apart c d = not (d == c)

pub text-apart : (ps : List Piece) → every (apart b'&') (text ps) ≡ true
text-apart [] = refl
text-apart (plain c h ∷ ps) = ground (arith, text-apart ps)
text-apart (blank ∷ ps) = text-apart ps
text-apart (hex c d ∷ ps) = ground (arith, digit-apart c, digit-apart d, text-apart ps)
