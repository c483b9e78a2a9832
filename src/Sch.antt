-- ===== src/Sch.antt =====
-- BBB/lib-sources/sch.c and the records of BBB/include/typedefs.h: schedule templates.
-- A template holds `rcnt` records in an array of 51. Hours, minutes, keys and states are never
-- negative, since the command handlers check what they pass.
pub mod Live
pub mod Places
pub mod Add
pub mod Del
pub mod Time
pub mod Target
pub mod Tests
use pcon_tng.Prelude.{
  ℕ, zero, suc, ◌+◌, ◌-◌, ◌*◌, ◌/◌, ◌%◌, ◌&&◌, ℤ, pos, negsuc, Option, none, some, List, ltb, ◌==◌,
  if◌then◌else◌, update,
}
use pcon_tng.Float.{CFloat}
use pcon_tng.Slab.{slabcon}

-- `_S_REC`
pub record SRec (F : Type 0) : Type 0 where
  pub key : ℕ
  pub state : ℕ
  pub temp : F
  pub humid : F

-- `_TMPL_DAT`; `name` is its bytes up to the NUL.
pub record TmplDat (F : Type 0) : Type 0 where
  pub name : List ℕ
  pub rcnt : ℕ
  pub rec : ℕ → SRec F

abbrev pub max_schedule_recs : ℕ
max_schedule_recs = 50

-- The key of a time of day.
abbrev pub key_of : ℕ → ℕ → ℕ
key_of hour minute = hour * 60 + minute

module _ {F : Type 0} where
  -- for (i = 0; i < rcnt; i++) if (rec[i].key == key) return …
  pub match_from : (ℕ → SRec F) → ℕ → ℕ → ℕ → Option ℕ
  match_from rec key i zero = none
  match_from rec key i (suc n) = if (rec i).key == key then some i else match_from rec key (suc i) n

  -- for (i = 0; i < rcnt; i++) if (rec[i].key > key) …
  pub later_from : (ℕ → SRec F) → ℕ → ℕ → ℕ → Option ℕ
  later_from rec key i zero = none
  later_from rec key i (suc n) =
      if ltb key (rec i).key then some i else later_from rec key (suc i) n

  -- The loop of `find_tmpl_key`, which tests `rec[0]` in every round.
  first_key_from : (ℕ → SRec F) → ℕ → ℕ → ℕ → ℤ
  first_key_from rec key i zero = negsuc 0
  first_key_from rec key i (suc n) =
      if (rec 0).key == key then pos i else first_key_from rec key (suc i) n

  unfoldable pub find_tmpl_key : TmplDat F → ℕ → ℕ → ℤ
  unfolding first_key_from
  find_tmpl_key t hour minute = first_key_from t.rec (key_of hour minute) 0 t.rcnt

  -- for (; ii < rcnt - 1; ii++) rec[ii] = rec[ii + 1]
  pub shift_down : (ℕ → SRec F) → ℕ → ℕ → ℕ → SRec F
  shift_down rec ii zero = rec
  shift_down rec ii (suc n) = shift_down (update rec ii (rec (suc ii))) (suc ii) n

  unfoldable pub del_tmpl_rec : TmplDat F → ℕ → ℕ → ℕ × TmplDat F
  unfolding match_from shift_down
  del_tmpl_rec t hour minute =
      let key = key_of hour minute in
      if t.rcnt == 1 && (t.rec 0).key == key
      then (0, record t { rcnt = 0 })
      else elim (match_from t.rec key 0 t.rcnt) [
        | some i ↦ (0, record t { rec = shift_down t.rec i (t.rcnt - 1 - i); rcnt = t.rcnt - 1 })
        | none ↦ (1, t)
      ]

  -- rec[i - 1], where `below` is what the memory in front of the array reads as.
  abbrev pub preceding : SRec F → (ℕ → SRec F) → ℕ → SRec F
  preceding below rec zero = below
  preceding below rec (suc i) = rec i

  -- for (ii = rcnt; ii >= i; ii--) rec[ii] = rec[ii - 1], with `d` rounds left: ii is i + d - 1.
  pub shift_up : SRec F → (ℕ → SRec F) → ℕ → ℕ → ℕ → SRec F
  shift_up below rec i zero = rec
  shift_up below rec i (suc d) =
      shift_up below (update rec (i + d) (preceding below rec (i + d))) i d

module _ {F : Type 0} ⦃fl : CFloat F⦄ (below : SRec F) where
  pub insert_new : TmplDat F → SRec F → ℕ × TmplDat F
  unfolding later_from shift_up
  insert_new t hrec = elim (later_from t.rec hrec.key 0 t.rcnt) [
    | some i ↦ (
      0,
      record t { rec = update (shift_up below t.rec i (t.rcnt - i + 1)) i hrec; rcnt = t.rcnt + 1 },
    )
    | none ↦ (0, record t { rcnt = t.rcnt + 1; rec = update t.rec t.rcnt hrec })
  ]

  unfoldable pub add_tmpl_rec : TmplDat F → ℕ → ℕ → ℕ → ℤ → ℤ → ℕ × TmplDat F
  unfolding match_from insert_new
  add_tmpl_rec t hour minute state temp humid =
      let key = key_of hour minute in
      let hrec : SRec F = record {
        key = key;
        state = state;
        temp = fl.of_int temp;
        humid = fl.of_int humid;
      } in
      elim (match_from t.rec key 0 t.rcnt) [
        | some i ↦ (
          0,
          record t {
            rec = update t.rec i (record (t.rec i) {
              state = state;
              temp = fl.of_int temp;
              humid = fl.of_int humid;
            });
          },
        )
        | none ↦
            if ltb max_schedule_recs (t.rcnt + 1)
            then (1, t)
            else if t.rcnt == 0
            then (0, record t { rec = update t.rec 0 hrec; rcnt = t.rcnt + 1 })
            else insert_new t hrec
      ]

-- The hour and the minute that it stores through its pointers, and the value that it returns.
unfoldable pub con_key : ℕ → ℕ × ℕ × ℕ
con_key key = (key / 60, key % 60, key)

module _ {F : Type 0} where
  -- The last loop of `test_sch_time`; the second test in it is for a round that is never made.
  pub between_from : (ℕ → SRec F) → ℕ → ℕ → ℕ → ℕ → ℕ
  between_from rec rcnt key i zero = 0
  between_from rec rcnt key i (suc n) =
      if ltb (rec i).key key && ltb key (rec (suc i)).key
      then (rec i).state
      else if ltb key (rec i).key && i == rcnt - 1
      then (rec (i - 1)).state
      else between_from rec rcnt key (suc i) n

  pub sch_time_many : ℕ → TmplDat F → ℕ
  unfolding match_from between_from
  sch_time_many key t = elim (match_from t.rec key 0 t.rcnt) [
    | some i ↦ (t.rec i).state
    | none ↦
        if ltb key (t.rec 0).key
        then (t.rec (t.rcnt - 1)).state
        else if ltb (t.rec (t.rcnt - 1)).key key
        then (t.rec (t.rcnt - 1)).state
        else between_from t.rec t.rcnt key 0 (t.rcnt - 1)
  ]

  pub sch_time_two : ℕ → TmplDat F → ℕ
  sch_time_two key t =
      if key == (t.rec 0).key
      then (t.rec 0).state
      else if key == (t.rec 1).key
      then (t.rec 1).state
      else if ltb (t.rec 1).key key
      then (t.rec 1).state
      else if ltb key (t.rec 0).key
      then (t.rec 1).state
      else (t.rec 0).state

  unfoldable pub test_sch_time : ℕ → TmplDat F → ℕ
  unfolding sch_time_two sch_time_many
  test_sch_time key t =
      if t.rcnt == 0
      then 0
      else if t.rcnt == 1
      then (t.rec 0).state
      else if t.rcnt == 2
      then sch_time_two key t
      else sch_time_many key t

module _ {F : Type 0} ⦃fl : CFloat F⦄ where
  -- The loop of `get_tar_temp`, which returns in its first round.
  pub tar_temp_from : TmplDat F → ℕ → ℕ → ℕ → ℤ
  tar_temp_from t key i zero = fl.to_int (t.rec (i - 1)).temp
  tar_temp_from t key i (suc n) =
      if (t.rec i).key == key
      then fl.to_int (t.rec i).temp
      else if ltb key (t.rec i).key && ltb 0 i
      then fl.to_int (t.rec (i - 1)).temp
      else fl.to_int (t.rec t.rcnt).temp

  unfoldable pub get_tar_temp : ℕ → TmplDat F → ℤ
  unfolding tar_temp_from
  get_tar_temp key t =
      if t.rcnt == 0
      then pos 0
      else if t.rcnt == 1
      then fl.to_int (t.rec 0).temp
      else tar_temp_from t key 0 t.rcnt

  -- The loop of `test_sch_sensor`; the same, with a call of the slab controller at each return.
  pub sch_sensor_from : ℤ → TmplDat F → ℕ → ℤ → ℕ → ℕ → ℕ × ℤ
  sch_sensor_from hold t key sensor i zero = slabcon hold (fl.to_int (t.rec (i - 1)).temp) sensor
  sch_sensor_from hold t key sensor i (suc n) =
      if (t.rec i).key == key
      then slabcon hold (fl.to_int (t.rec i).temp) sensor
      else if ltb key (t.rec i).key && ltb 0 i
      then slabcon hold (fl.to_int (t.rec (i - 1)).temp) sensor
      else slabcon hold (fl.to_int (t.rec t.rcnt).temp) sensor

  -- The state, and the slab controller's `hold` after the call.
  unfoldable pub test_sch_sensor : ℤ → ℕ → TmplDat F → ℤ → ℕ × ℤ
  unfolding sch_sensor_from
  test_sch_sensor hold key t sensor =
      if t.rcnt == 0
      then (0, hold)
      else if t.rcnt == 1
      then slabcon hold (fl.to_int (t.rec 0).temp) sensor
      else sch_sensor_from hold t key sensor 0 t.rcnt
