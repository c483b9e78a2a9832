-- ===== src/SchPrint/Overrun.antt =====
-- What `sch_print` of BBB/lib-sources/sch.c can print inside the nine bytes of `time_state`.
use mathlib.Core.Option
use pcon_tng.Prelude.{
  ℕ, zero, append_nil, Bool, true, false, suc, ◌+◌, ◌/◌, ◌%◌, ◌<◌, ◌≤◌, ◌≡◌, refl, ap, ◌∙◌, List,
  [], ◌∷◌, ◌++◌, Option, none, some, leb, ◌==◌, if◌then◌else◌, length, arith, length-append,
  Bool-cases, inl, inr, if-true, if-false,
}
use pcon_tng.Sch.{TmplDat, con_key}
use pcon_tng.TypeDefs.{ChnDat}
use pcon_tng.SchPrint.{
  FloatText, bytes, decimal_from, two_digits, stamp, onoff, cell, row_text, rows_text, most_records,
  channel_head, channel_text, in_time_state,
}

decimal_from-above : (rounds n : ℕ) → 1 ≤ length (decimal_from (suc rounds) n)
decimal_from-above rounds n =
    let last = (48 + n % 10) ∷ [] in
    grind (arith, length-append (decimal_from rounds (n / 10)) last)

two_digits-above : (n : ℕ) → 2 ≤ length (two_digits n)
two_digits-above zero = omega arith
two_digits-above (suc n) =
    let last = (48 + suc n % 10) ∷ [] in
    grind (
      arith,
      length-append (decimal_from (suc n) (suc n / 10)) last,
      decimal_from-above n (suc n / 10),
    )

stamp-above : (key : ℕ) → 5 ≤ length (stamp key)
stamp-above key = omega (
  arith,
  length-append (two_digits (con_key key).0) (b':' ∷ two_digits (con_key key).1),
  two_digits-above (con_key key).0,
  two_digits-above (con_key key).1,
)

onoff-above : (state : ℕ) → state < 2 → 3 ≤ length (onoff state)
onoff-above zero h = omega arith
onoff-above (suc zero) h = omega arith
onoff-above (suc (suc n)) h = absurd (omega arith)

-- A string of nine characters or more does not fit.
too_long : (text : List ℕ) → 9 ≤ length text → in_time_state text ≡ none
too_long text h = ground arith

-- A time, a blank and a text of three characters or more.
timed-none :
    (key : ℕ) (text : List ℕ)
    → 3 ≤ length text
    → in_time_state (stamp key ++ bytes " " ++ text) ≡ none
timed-none key text h = too_long (stamp key ++ bytes " " ++ text) (
    omega (
      arith,
      length-append (stamp key ++ bytes " ") text,
      length-append (stamp key) (bytes " "),
      stamp-above key,
    ))

by_mode :
    {A : Type 0} (mode : ℕ) (x y z : Option A)
    → mode < 3
    → x ≡ none
    → y ≡ none
    → (if mode == 0 then x else if mode == 1 then x else if mode == 2 then y else z) ≡ none
by_mode zero x y z h p q = p
by_mode (suc zero) x y z h p q = p
by_mode (suc (suc zero)) x y z h p q = q
by_mode (suc (suc (suc n))) x y z h p q = absurd (omega arith)

-- Nothing follows a string that does not fit.
then_none :
    {A B : Type 0} (o : Option A) (g : A → Option B)
    → o ≡ none
    → elim o as (λ _. Option B) [ none ↦ none | some x ↦ g x ] ≡ none
then_none {B = B} o g e = ap (λ o. elim o as (λ _. Option B) [ none ↦ none | some x ↦ g x ]) e

if-some : {A : Type 0} (n : ℕ) (x y : A) → y ≡ (if suc n == 0 then x else y)
if-some n x y = ground arith

map-if :
    {A B : Type 0} (g : A → B) (b : Bool) (x : A)
    → Option.map g (if b then some x else none) ≡ (if b then some (g x) else none)
map-if g true x = refl
map-if g false x = refl

-- The states of the records are on or off.
abbrev pub OnOrOff : {F : Type 0} → TmplDat F → Type 0
OnOrOff t = (i : ℕ) → i < t.rcnt → (t.rec i).state < 2

module _ {F : Type 0} (f : FloatText F) (places : (x : F) → 4 ≤ length (f.two_places x)) where
  cell-none :
      (t : TmplDat F) (mode i : ℕ) (before : List ℕ)
      → OnOrOff t
      → mode < 3
      → cell f t mode i before ≡ none
  cell-none t mode i before states h = elim (Bool-cases (leb t.rcnt i)) [
    | inl past ↦ if-true (leb t.rcnt i) _ _ past
    | inr live ↦
        let r = t.rec i in
        let shown =
          timed-none r.key (onoff r.state)
            (onoff-above r.state (states i (ground (arith, live)))) in
        let warm = timed-none r.key (f.two_places r.temp) (omega (arith, places r.temp)) in
        if-false (leb t.rcnt i) _ _ live ∙ by_mode mode _ _ _ h shown warm
  ]

  rows_text-none :
      (sch : ℕ → TmplDat F) (mode i n : ℕ) (before : List ℕ)
      → OnOrOff (sch 0)
      → mode < 3
      → rows_text f sch mode i (suc n) before ≡ none
  unfolding rows_text row_text
  rows_text-none sch mode i n before states h =
      then_none _ _
        (then_none (cell f (sch 0) mode i before) _ (cell-none (sch 0) mode i before states h))

  rows_text-counted :
      (sch : ℕ → TmplDat F) (mode n : ℕ) (before : List ℕ)
      → OnOrOff (sch 0)
      → mode < 3
      → rows_text f sch mode 0 n before ≡ (if n == 0 then some ([], before) else none)
  unfolding rows_text
  rows_text-counted sch mode zero before states h = refl
  rows_text-counted sch mode (suc n) before states h =
      rows_text-none sch mode 0 n before states h ∙ if-some n (some ([], before)) none

  -- In the modes manual, time and sensor, when printf makes at least four characters of a number with
  -- two places and the states of Sunday's records are on or off, `sch_print` stays inside the nine
  -- bytes of `time_state` for a channel just when the channel is hidden, and nothing is printed, or
  -- no day has a record, and only the heads are.
  pub channel_text-fits :
      (channel : ℕ) (c : ChnDat) (sch : ℕ → TmplDat F) (junk : List ℕ)
      → OnOrOff (sch 0)
      → c.mode < 3
      → channel_text f channel c sch junk ≡ (
          if c.hide == 1
          then some ([], junk)
          else if most_records f sch 0 7 0 == 0
          then some (channel_head f channel c ++ bytes "\n\r", junk)
          else none)
  unfolding channel_text
  channel_text-fits channel c sch junk states h =
      let n = most_records f sch 0 7 0 in
      let framed : List ℕ × List ℕ → List ℕ × List ℕ =
        λ r. (channel_head f channel c ++ r.0 ++ bytes "\n\r", r.1) in
      ap (λ o. if c.hide == 1 then some ([], junk) else Option.map framed o)
        (rows_text-counted sch c.mode n junk states h)
      ∙ ap (λ o. if c.hide == 1 then some ([], junk) else o)
          (map-if framed (n == 0) ([], junk)
            ∙ ap (λ head. if n == 0 then some (head ++ bytes "\n\r", junk) else none)
                (append_nil (channel_head f channel c)))
