-- ===== src/Gateway/Main.antt =====
-- BBB/CGI/Scon.c: the numbers in a report, and `main`. `strtol` is C's, with a 32-bit `long`; `malloc`
-- and `time` do not fail. Logs and files are left out.
use pcon_tng.Prelude.{
  ℕ, zero, suc, ◌+◌, ◌-◌, ◌*◌, ◌^◌, ℤ, pos, negsuc, ltb_ℤ, eq_ℤ, List, [], ◌∷◌, Option, none, some,
  Bool, not, ◌&&◌, ◌||◌, leb, ltb, ◌==◌, if◌then◌else◌, get_or,
}
use pcon_tng.Float.{CFloat}
use pcon_tng.TypeDefs.{IpcDat, put, number_of_sensors}
use pcon_tng.CmdFsm.Tokens.{isdigit}
use pcon_tng.Gateway.{Lookup, found, out_of_rounds, cgigetval}

abbrev pub isspace : ℕ → Bool
isspace c = c == 32 || (leb 9 c && leb c 13)

abbrev pub digits_from : ℕ → List ℕ → ℕ
digits_from n [] = n
digits_from n (c ∷ cs) =
    let rest = digits_from (n * 10 + (c - 48)) cs in if isdigit c then rest else n

abbrev pub max_long : ℕ
max_long = 2 ^ 31 - 1

abbrev pub clamped : ℕ → ℤ
clamped n = if ltb max_long n then pos max_long else pos n

abbrev pub negated : ℕ → ℤ
negated zero = pos 0
negated (suc n) = if ltb max_long n then negsuc max_long else negsuc n

-- strtol(s, &eptr, 10)
unfoldable pub strtol : List ℕ → ℤ
strtol [] = pos 0
strtol (c ∷ cs) =
    let rest = strtol cs in
    if isspace c
    then rest
    else if c == b'-'
    then negated (digits_from 0 cs)
    else if c == b'+'
    then clamped (digits_from 0 cs)
    else clamped (digits_from 0 (c ∷ cs))

-- strtok(str, "."): the token and what is left of the string.
abbrev pub until_dot : List ℕ → List ℕ × List ℕ
until_dot [] = ([], [])
until_dot (c ∷ cs) = let rest = until_dot cs in if c == b'.' then ([], cs) else (c ∷ rest.0, rest.1)

unfoldable pub strtok : List ℕ → Option (List ℕ × List ℕ)
strtok [] = none
strtok (c ∷ cs) = let rest = strtok cs in if c == b'.' then rest else some (until_dot (c ∷ cs))

-- What the code relies on of C's floating-point numbers: adding a digit after the point,
-- `f += strtol(n, 0, base) * pow(base, -(i + 1)) * sign` with base 10, and the test on 0.
pub record Decimal (F : Type 0) : Type 0 where
  pub add_digit : F → ℤ → ℕ → ℤ → F
  pub is_zero : F → Bool

module _ {F : Type 0} ⦃fl : CFloat F⦄ ⦃dec : Decimal F⦄ where
  unfoldable pub add_digits : List ℕ → ℕ → ℤ → F → F
  add_digits [] i sign f = f
  add_digits (c ∷ cs) i sign f =
      add_digits cs (suc i) sign (dec.add_digit f (strtol (c ∷ [])) i sign)

  -- The sum, with what `strtok` finds behind the point; `none` is a read through NULL.
  abbrev pub with_fraction : List ℕ → List ℕ → Option (List ℕ × List ℕ) → Option F
  with_fraction ostr before none = none
  with_fraction ostr before (some (after, _)) =
      let sign = if get_or ostr 0 0 == b'-' then negsuc 0 else pos 1 in
      some (add_digits after 0 sign (fl.of_int (strtol before)))

  abbrev pub with_whole : List ℕ → Option (List ℕ × List ℕ) → Option F
  with_whole ostr none = none
  with_whole ostr (some (before, rest)) = with_fraction ostr before (strtok rest)

  -- `new_strtof` in base 10; `none` is a read through NULL.
  unfoldable pub new_strtof : List ℕ → Option F
  new_strtof ostr = with_whole ostr (strtok ostr)

abbrev pub word_sensor : List ℕ
word_sensor = b's' ∷ b'e' ∷ b'n' ∷ b's' ∷ b'o' ∷ b'r' ∷ []

abbrev pub word_temp : List ℕ
word_temp = b't' ∷ b'e' ∷ b'm' ∷ b'p' ∷ []

abbrev pub word_humid : List ℕ
word_humid = b'h' ∷ b'u' ∷ b'm' ∷ b'i' ∷ b'd' ∷ []

-- How a request ends: a value is missing, one is refused, the process reads through NULL or does
-- not come back, it writes outside the array of sensors, or the reading of a sensor is stored. What
-- the write outside the array overwrites, and what comes of it, is not modelled.
pub data Outcome (F : Type 0) : Type 0 where
  incomplete refused crashed hung overrun : Outcome F
  stored : ℤ → IpcDat F → Outcome F

module _ {F : Type 0} where
  -- The reading in shared memory, for a number from 0 to 19.
  abbrev pub store_reading : ℤ → F → F → ℕ → IpcDat F → IpcDat F
  store_reading l_num l_temp l_humid now ipc = record ipc {
    s_dat = put ipc.s_dat l_num (record (ipc.s_dat l_num) {
      ts = now;
      sensor_id = l_num;
      temp = l_temp;
      humidity = l_humid;
    });
  }

-- An index of the 20 entries of s_dat. `main` itself has no such test.
abbrev pub in_s_dat : ℤ → Bool
in_s_dat i = not (ltb_ℤ i (pos 0)) && ltb_ℤ i (pos number_of_sensors)

module _ {F : Type 0} ⦃fl : CFloat F⦄ ⦃dec : Decimal F⦄ (now : ℕ) (ipc : IpcDat F) where
  abbrev pub with_humid : ℤ → F → Option F → Outcome F
  with_humid l_num l_temp none = crashed
  with_humid l_num l_temp (some l_humid) =
      if dec.is_zero l_humid
      then refused
      else if in_s_dat l_num
      then stored l_num (store_reading l_num l_temp l_humid now ipc)
      else overrun

  abbrev pub with_temp : ℤ → Option F → List ℕ → Outcome F
  with_temp l_num none s_humid = crashed
  with_temp l_num (some l_temp) s_humid =
      if dec.is_zero l_temp then refused else with_humid l_num l_temp (new_strtof s_humid)

  -- The checks, once the three values are there.
  unfoldable pub checked : List ℕ → List ℕ → List ℕ → Outcome F
  checked s_num s_temp s_humid =
      let l_num = strtol s_num in
      if eq_ℤ l_num (pos 0)
      then refused
      else if ltb_ℤ l_num (pos 0) && ltb 99 (get_or s_num 0 0)
      then refused
      else with_temp l_num (new_strtof s_temp) s_humid

  -- The three calls of `cgigetval` and the test on NULL.
  abbrev pub with_values : Lookup → Lookup → Lookup → Outcome F
  with_values out_of_rounds t h = hung
  with_values n out_of_rounds h = hung
  with_values n t out_of_rounds = hung
  with_values (found n) (found t) (found h) = checked n t h
  with_values n t h = incomplete

  unfoldable pub gateway : ℕ → Option (List ℕ) → Outcome F
  gateway beyond query =
      with_values (cgigetval beyond word_sensor query) (cgigetval beyond word_temp query)
        (cgigetval beyond word_humid query)
