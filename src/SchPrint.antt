-- ===== src/SchPrint.antt =====
-- BBB/lib-sources/sch.c: the routines that print templates and schedules. What they print is the list
-- of its bytes. printf is outside but for `%i`, `%02i` and `%s`: what it makes of a number with the
-- conversions `%0.2f` and `%02.f` is given.
pub mod Overrun
pub mod Prompt
pub mod Tests
use mathlib.Core.Option
use Prim.Native.Char.{code}
use Prim.Native.String.{String}
use pcon_tng.Prelude.{
  ℕ, zero, suc, ◌+◌, ◌-◌, ◌/◌, ◌%◌, ℤ, pos, List, [], ◌∷◌, ◌++◌, Option, none, some, ltb, leb, ◌==◌,
  if◌then◌else◌, get_or, length,
}
use pcon_tng.Sch.{TmplDat, con_key, max_schedule_recs}
use pcon_tng.TypeDefs.{ChnDat, SysDat, number_of_channels}

abbrev pub bytes : String → List ℕ
bytes String.[] = []
bytes (String.◌∷◌ c s) = code c ∷ bytes s

-- `%i`, with more rounds than there are digits, and `%02i`.
abbrev pub decimal_from : ℕ → ℕ → List ℕ
decimal_from zero n = []
decimal_from (suc rounds) n =
    let front = decimal_from rounds (n / 10) in
    if ltb n 10 then (48 + n) ∷ [] else front ++ (48 + n % 10) ∷ []

abbrev pub decimal : ℕ → List ℕ
decimal n = decimal_from (suc n) n

abbrev pub two_digits : ℕ → List ℕ
two_digits n = if ltb n 10 then b'0' ∷ decimal n else decimal n

-- %02i:%02i
abbrev pub stamp : ℕ → List ℕ
stamp key = let k = con_key key in two_digits k.0 ++ b':' ∷ two_digits k.1

-- What printf makes of a float.
pub record FloatText (F : Type 0) : Type 0 where
  pub two_places : F → List ℕ
  pub whole_number : F → List ℕ

-- onoff and day_names_short; the entry behind the last is not known.
abbrev pub onoff : ℕ → List ℕ
onoff state = get_or (bytes "off" ∷ bytes " on" ∷ []) state []

abbrev pub day_names_short : ℕ → List ℕ
day_names_short day =
    get_or
      (bytes "Sun"
        ∷ bytes "Mon"
        ∷ bytes "Tue"
        ∷ bytes "Wed"
        ∷ bytes "Thu"
        ∷ bytes "Fri"
        ∷ bytes "Sat"
        ∷ [])
      day []

-- `char time_state[9]`
abbrev pub time_state_size : ℕ
time_state_size = 9

-- strcpy or sprintf into `time_state`, when nothing is printed: the string with its NUL, or none.
abbrev pub in_time_state : List ℕ → Option (List ℕ × List ℕ)
in_time_state text = if ltb (length text) time_state_size then some ([], text) else none

module _ {F : Type 0} (f : FloatText F) where
  -- %02i:%02i - state %i temp %0.2f humid %0.2f
  abbrev pub record_text : TmplDat F → ℕ → List ℕ
  record_text t i =
      let r = t.rec i in
      stamp r.key
      ++ bytes " - state "
      ++ decimal r.state
      ++ bytes " temp "
      ++ f.two_places r.temp
      ++ bytes " humid "
      ++ f.two_places r.humid

  dump_from : TmplDat F → ℕ → ℕ → List ℕ
  dump_from t i zero = []
  dump_from t i (suc n) = bytes "    " ++ record_text t i ++ bytes "\n\r" ++ dump_from t (suc i) n

  pub dump_template : TmplDat F → List ℕ
  dump_template t = bytes "    rcnt = " ++ decimal t.rcnt ++ bytes "\n\r" ++ dump_from t 0 t.rcnt

  list_from : TmplDat F → ℕ → ℕ → List ℕ
  list_from t i zero = []
  list_from t i (suc n) =
      let r = t.rec i in
      bytes "            "
      ++ stamp r.key
      ++ bytes "-"
      ++ decimal r.state
      ++ bytes ","
      ++ f.whole_number r.temp
      ++ bytes ","
      ++ f.whole_number r.humid
      ++ bytes " \n\r"
      ++ list_from t (suc i) n

  pub list_template : TmplDat F → List ℕ
  list_template t = bytes " " ++ t.name ++ bytes " \n\r" ++ list_from t 0 t.rcnt

  -- The loop of `load_temps`, where `b` is the string in the buffer: `strcpy` puts each record over
  -- the one before.
  unfoldable pub load_from : TmplDat F → ℕ → ℕ → List ℕ → List ℕ
  load_from t i zero b = b
  load_from t i (suc n) b =
      load_from t (suc i) n (bytes "\n\r  " ++ record_text t i ++ bytes "\r\n")

  -- `none` is the end of the process.
  unfoldable pub load_temps : TmplDat F → List ℕ → Option (List ℕ)
  load_temps t b =
      if ltb t.rcnt 1
      then some (b ++ bytes "\n\r  no records in schedule\r\n")
      else if ltb max_schedule_recs t.rcnt
      then none
      else some (load_from t 0 t.rcnt b)

  unfoldable pub print_from : TmplDat F → ℕ → ℕ → List ℕ
  print_from t i zero = []
  print_from t i (suc n) = bytes "\n\r  " ++ record_text t i ++ print_from t (suc i) n

  unfoldable pub print_temps : TmplDat F → Option (List ℕ)
  print_temps t =
      if ltb t.rcnt 1
      then some (bytes "\n\r   no records in schedule\r\n")
      else if ltb max_schedule_recs t.rcnt
      then none
      else some (print_from t 0 t.rcnt ++ bytes "\r\n")

  -- One round of the inner loop of `sch_print`: what the switch prints, and the string in
  -- `time_state`, which holds `before` before it. Behind the array nothing is modelled: a string that
  -- it has no room for gives none, and so does all that is printed after it.
  abbrev pub cell : TmplDat F → (mode i : ℕ) → List ℕ → Option (List ℕ × List ℕ)
  cell t mode i before =
      let r = t.rec i in
      let error = bytes "**** error  bad chnannel mode <" ++ decimal mode ++ bytes ">\r\n" in
      if leb t.rcnt i
      then in_time_state (bytes "         ")
      else if mode == 0
      then in_time_state (stamp r.key ++ bytes " " ++ onoff r.state)
      else if mode == 1
      then in_time_state (stamp r.key ++ bytes " " ++ onoff r.state)
      else if mode == 2
      then in_time_state (stamp r.key ++ bytes " " ++ f.two_places r.temp)
      else some (error, before)

  -- The schedules of one channel, by the day.
  module _ (sch : ℕ → TmplDat F) (mode : ℕ) where
    unfoldable pub row_text : ℕ → (day n : ℕ) → List ℕ → Option (List ℕ × List ℕ)
    row_text i day zero before = some ([], before)
    row_text i day (suc n) before = elim (cell (sch day) mode i before) [
      | none ↦ none
      | some c ↦
          Option.map (λ r. (c.0 ++ c.1 ++ bytes "   " ++ r.0, r.1)) (row_text i (suc day) n c.1)
    ]

    unfoldable pub rows_text : (i n : ℕ) → List ℕ → Option (List ℕ × List ℕ)
    rows_text i zero before = some ([], before)
    rows_text i (suc n) before = elim (row_text i 0 7 before) [
      | none ↦ none
      | some row ↦ Option.map (λ r. (row.0 ++ bytes "\n\r" ++ r.0, r.1)) (rows_text (suc i) n row.1)
    ]

  -- The loop that finds `mrcnt`.
  unfoldable pub most_records : (ℕ → TmplDat F) → (day n mrcnt : ℕ) → ℕ
  most_records sch day zero mrcnt = mrcnt
  most_records sch day (suc n) mrcnt =
      most_records sch (suc day) n (if ltb mrcnt (sch day).rcnt then (sch day).rcnt else mrcnt)

  abbrev day_heads : ℕ → ℕ → List ℕ
  day_heads day zero = []
  day_heads day (suc n) = day_names_short day ++ bytes "         " ++ day_heads (suc day) n

  pub channel_head : ℕ → ChnDat → List ℕ
  channel_head channel c =
      bytes "\r\nchannel "
      ++ decimal channel
      ++ bytes " <"
      ++ c.name
      ++ bytes ">\r\n"
      ++ bytes "   "
      ++ day_heads 0 7
      ++ bytes "\n\r"

  -- One channel.
  unfoldable pub channel_text : ℕ → ChnDat → (ℕ → TmplDat F) → List ℕ → Option (List ℕ × List ℕ)
  channel_text channel c sch before =
      if c.hide == 1
      then some ([], before)
      else Option.map (λ r. (channel_head channel c ++ r.0 ++ bytes "\n\r", r.1))
          (rows_text sch c.mode 0 (most_records sch 0 7 0) before)

  channels_text : SysDat F → (ℤ → ℤ → TmplDat F) → (channel n : ℕ) → List ℕ → Option (List ℕ)
  channels_text sys s channel zero before = some []
  channels_text sys s channel (suc n) before =
      elim (channel_text channel (sys.c_data (pos channel)) (λ day. s (pos day) (pos channel))
        before) [
          | none ↦ none
          | some r ↦ Option.map (λ rest. r.0 ++ rest) (channels_text sys s (suc channel) n r.1)
        ]

  -- `junk` is what the uninitialised `time_state` holds.
  pub sch_print : List ℕ → SysDat F → (ℤ → ℤ → TmplDat F) → Option (List ℕ)
  sch_print junk sys s = channels_text sys s 0 number_of_channels junk
