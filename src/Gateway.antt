-- ===== src/Gateway.antt =====
-- BBB/CGI/Scon.c: the gateway that sensors call over the web with their readings. The query string
-- is its bytes; `getenv`, `time` and C's floating-point arithmetic are parameters, and so is `beyond`,
-- what the memory behind the query's NUL reads as. Files, logs and the lock are left out.
pub mod Encoding
pub mod Fields
pub mod Query
pub mod Main
pub mod Update
pub mod Log
pub mod Control
pub mod Tests
use pcon_tng.Prelude.{
  ℕ, zero, suc, ◌+◌, ◌-◌, ◌*◌, ◌%◌, ℤ, pos, negsuc, ltb_ℤ, eq_ℤ, List, [], ◌∷◌, ◌++◌, Option, none,
  some, Bool, true, false, ◌&&◌, ◌||◌, not, ltb, leb, ◌==◌, if◌then◌else◌, length, get_or, drop,
  take,
}
use pcon_tng.TypeDefs.{IpcDat, SenDat, put}
use pcon_tng.CharFsm.{str}
use pcon_tng.CmdFsm.Tokens.{str_eq, isdigit}

-- `xctod`: a hexadecimal digit.
abbrev pub xctod : ℕ → ℕ
xctod c =
    if isdigit c
    then c - 48
    else if leb b'A' c && leb c b'Z'
    then c - 65 + 10
    else if leb b'a' c && leb c b'z'
    then c - 97 + 10
    else 0

-- The two digits behind a per cent sign; a `char` holds eight bits.
abbrev pub from_hex : ℕ → ℕ → ℕ
from_hex c d = (16 * xctod c + xctod d) % 256

module _ (beyond : ℕ) where
  -- The loop of `unescstring`, with `n` bytes of the source left, of which the next `skip` are
  -- passed over: the two digits that `srcp += 2` leaves behind.
  unfoldable pub unesc_from : ℕ → ℕ → List ℕ → List ℕ
  unesc_from zero skip src = []
  unesc_from (suc n) skip [] = []
  unesc_from (suc n) (suc skip) (c ∷ cs) = unesc_from n skip cs
  unesc_from (suc n) zero (c ∷ cs) =
      let next = unesc_from n 0 cs in
      let after = unesc_from n 2 cs in
      if c == b'+'
      then 32 ∷ next
      else if c == b'%'
      then from_hex (get_or (cs ++ 0 ∷ []) 0 beyond) (get_or (cs ++ 0 ∷ []) 1 beyond) ∷ after
      else c ∷ next

  -- The string that it leaves, which ends at its first NUL.
  abbrev pub unescstring : List ℕ → ℕ → List ℕ
  unescstring src srclen = str (unesc_from srclen 0 src)

-- strchr, as a distance.
abbrev pub next_index : Option ℕ → Option ℕ
next_index none = none
next_index (some i) = some (suc i)

unfoldable pub strchr : List ℕ → ℕ → Option ℕ
strchr [] c = none
strchr (d ∷ ds) c = let rest = next_index (strchr ds c) in if d == c then some 0 else rest

-- p += len2; if (*p == '&') p++;
abbrev pub past_amp : List ℕ → List ℕ
past_amp [] = []
past_amp (c ∷ cs) = if c == b'&' then cs else c ∷ cs

abbrev pub len2_of : List ℕ → Option ℕ → ℕ
len2_of p none = length p
len2_of p (some i) = i

-- A test on `p2` and `p3` in the loop: `p2` and `p3` are addresses, and NULL is below them all.
abbrev pub is_stuck : Option ℕ → Option ℕ → Bool
is_stuck none p3 = false
is_stuck (some i) none = false
is_stuck (some i) (some j) = ltb j i

-- What a search yields: a value, NULL, or no end within the rounds allowed.
pub data Lookup : Type 0 where
  found : List ℕ → Lookup
  missing out_of_rounds : Lookup

-- Where NULL is taken from an address the distance is no name's length.
abbrev pub names : List ℕ → List ℕ → Option ℕ → Bool
names fieldname p none = false
names fieldname p (some len1) = len1 == length fieldname && str_eq fieldname (take len1 p)

abbrev pub value_at : ℕ → List ℕ → Option ℕ → ℕ → Lookup
value_at beyond p none len2 = missing
value_at beyond p (some len1) len2 =
    found (unescstring beyond (drop (suc len1) p) (len2 - len1 - 1))

module _ (beyond : ℕ) (fieldname : List ℕ) where
  -- The loop of `cgigetval`, with at most `n` rounds.
  unfoldable pub get_from : ℕ → List ℕ → Lookup
  get_from n [] = missing
  get_from zero (c ∷ cs) = out_of_rounds
  get_from (suc n) (c ∷ cs) =
      let p = c ∷ cs in
      let p2 = strchr p b'=' in
      let p3 = strchr p b'&' in
      let len2 = len2_of p p3 in
      let again = get_from n p in
      let on = get_from n (past_amp (drop len2 p)) in
      if is_stuck p2 p3
      then again
      else if names fieldname p p2
      then value_at beyond p p2 len2
      else on

  -- `query` is what `getenv` returns. A round takes at least one byte of the query, or none and
  -- then every later round is the same.
  unfoldable pub cgigetval : Option (List ℕ) → Lookup
  cgigetval none = missing
  cgigetval (some query) = get_from (length query) query
