-- ===== src/SensorLog.antt =====
-- Mint/process-master/process.c: the statistics of the sensors' log. The log is the list of its
-- records; C's floating-point arithmetic and what the two arrays of dates hold at first are
-- parameters. Printing is left out.
pub mod Summary
pub mod Report
pub mod Tests
use pcon_tng.Prelude.{
  ℕ, zero, suc, ◌+◌, ℤ, pos, ltb_ℤ, List, [], ◌∷◌, Option, none, some, Bool, true, false, ◌||◌, not,
  ◌&&◌, ltb, if◌then◌else◌,
}
use pcon_tng.Float.{CFloat}
use pcon_tng.TypeDefs.{put}

abbrev pub max_sensor_id : ℕ
max_sensor_id = 99

-- An index of the arrays; the program's test of the range lets 99 and, behind a record that fails it,
-- any number pass.
abbrev pub in_arrays : ℤ → Bool
in_arrays i = not (ltb_ℤ i (pos 0)) && ltb_ℤ i (pos max_sensor_id)

-- What the code does with floating-point numbers: `+=`, `>` and the mean.
pub record Arith (F : Type 0) : Type 0 where
  pub add : F → F → F
  pub greater : F → F → Bool
  pub mean : F → ℕ → F

-- `_SEN_DAT_REC`, less what the program does not read.
pub record Reading (F : Type 0) : Type 0 where
  pub sensor_id : ℤ
  pub temp : F
  pub ts : ℕ

-- The variables of `main`.
pub record Stats (F : Type 0) : Type 0 where
  pub rcnt : ℕ
  pub hit_cnt : ℤ → ℕ
  pub avg_t : ℤ → F
  pub sum_t : ℤ → F
  pub max_t : ℤ → F
  pub min_t : ℤ → F
  pub f_date : ℤ → ℕ
  pub c_date : ℤ → ℕ

module _ {F : Type 0} ⦃fl : CFloat F⦄ ⦃ar : Arith F⦄ where
  -- The first loop, on the elements that it sets.
  abbrev pub initial : (f_date c_date : ℤ → ℕ) → Stats F
  initial f_date c_date = record {
    rcnt = 0;
    hit_cnt = λ i. 0;
    avg_t = λ i. fl.of_int (pos 0);
    sum_t = λ i. fl.of_int (pos 0);
    max_t = λ i. fl.of_int (pos 0);
    min_t = λ i. fl.of_int (pos 999);
    f_date = f_date;
    c_date = c_date;
  }

  -- max_t, where the temperature is above it.
  abbrev pub raised : Reading F → (ℤ → F) → ℤ → F
  raised r max_t =
      if ar.greater r.temp (max_t r.sensor_id) then put max_t r.sensor_id r.temp else max_t

  -- min_t, where the temperature is below it.
  abbrev pub lowered : Reading F → (ℤ → F) → ℤ → F
  lowered r min_t =
      if ar.greater (min_t r.sensor_id) r.temp then put min_t r.sensor_id r.temp else min_t

  -- f_date and c_date
  abbrev pub dated : Reading F → (ℤ → ℕ) → ℤ → ℕ
  dated r date = if ltb (date r.sensor_id) r.ts then put date r.sensor_id r.ts else date

  -- The second half of the loop's body, for a sensor number from 0 to 98.
  unfoldable pub count : Reading F → Stats F → Stats F
  count r s = record s {
    hit_cnt = put s.hit_cnt r.sensor_id (s.hit_cnt r.sensor_id + 1);
    sum_t = put s.sum_t r.sensor_id (ar.add (s.sum_t r.sensor_id) r.temp);
    max_t = raised r s.max_t;
    min_t = lowered r s.min_t;
    f_date = dated r s.f_date;
    c_date = dated r s.c_date;
  }

  abbrev pub one_read : Stats F → Stats F
  one_read s = record s { rcnt = suc s.rcnt }

  -- avg_t[i] = sum_t[i] / hit_cnt[i], where a reading was found.
  abbrev pub with_mean : ℕ → Stats F → Stats F → Stats F
  with_mean i s rest =
      if ltb 0 (s.hit_cnt (pos i))
      then record rest {
        avg_t = put rest.avg_t (pos i) (ar.mean (s.sum_t (pos i)) (s.hit_cnt (pos i)));
      }
      else rest

  -- The means, of the first `n` sensors.
  unfoldable pub averages : ℕ → Stats F → Stats F
  averages zero s = s
  averages (suc n) s = with_mean n s (averages n s)

module _ {F : Type 0} ⦃fl : CFloat F⦄ ⦃ar : Arith F⦄ where
  abbrev pub out_of_range : Reading F → Bool
  out_of_range r = ltb_ℤ r.sensor_id (pos 0) || ltb_ℤ (pos max_sensor_id) r.sensor_id

  -- What comes of a record whose statistics are written at its number, if the arrays have that entry.
  abbrev pub in_entry : Reading F → Option (Stats F) → Option (Stats F)
  in_entry r after = if in_arrays r.sensor_id then after else none

  -- The loop. The record behind one that is out of range is counted unchecked; `none` is the return
  -- where there is no such record, or a write outside the arrays, of which nothing is modelled.
  unfoldable pub read_from : List (Reading F) → Stats F → Option (Stats F)
  read_from [] s = some s
  read_from (r ∷ []) s = if out_of_range r then none else in_entry r (some (count r (one_read s)))
  read_from (r ∷ next ∷ rs) s =
      let past = in_entry next (read_from rs (count next (one_read s))) in
      let on = in_entry r (read_from (next ∷ rs) (count r (one_read s))) in
      if out_of_range r then past else on

  abbrev pub averaged : Option (Stats F) → Option (Stats F)
  averaged none = none
  averaged (some s) = some (averages max_sensor_id s)

  -- `main`, from the first loop to the last before the report.
  unfoldable pub process : (f_date c_date : ℤ → ℕ) → List (Reading F) → Option (Stats F)
  process f_date c_date log = averaged (read_from log (initial f_date c_date))
