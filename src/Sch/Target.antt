-- ===== src/Sch/Target.antt =====
-- `test_sch_sensor`, `get_tar_temp`, `find_tmpl_key` and `con_key`.
use pcon_tng.Prelude.{
  ℕ, zero, suc, ◌<◌, ◌≡◌, ◌≢◌, refl, some, arith, ◌==◌, ◌||◌, if◌then◌else◌, ℤ, negsuc, update,
  slots-cong,
}
use pcon_tng.Float.{CFloat}
use pcon_tng.Slab.{slabcon}
use pcon_tng.Sch.{
  SRec, TmplDat, key_of, first_key_from, find_tmpl_key, con_key, tar_temp_from, get_tar_temp,
  sch_sensor_from, test_sch_sensor,
}
use pcon_tng.Sch.Live.{live, IsValid, find_rec}
use pcon_tng.Sch.Places.{find_rec-some}

module _ {F : Type 0} ⦃fl : CFloat F⦄ (t : TmplDat F) where
  sch_sensor_from-tar_temp_from :
      (hold : ℤ) (key : ℕ) (sensor : ℤ) (i n : ℕ)
      → sch_sensor_from hold t key sensor i n ≡ slabcon hold (tar_temp_from t key i n) sensor
  unfolding sch_sensor_from tar_temp_from
  sch_sensor_from-tar_temp_from hold key sensor i zero = refl
  sch_sensor_from-tar_temp_from hold key sensor i (suc n) = ground arith

  -- The sensor routine is the slab controller applied to the target temperature, so the two copies
  -- of the search agree; without records it answers off and leaves the controller alone.
  pub test_sch_sensor-get_tar_temp :
      (hold : ℤ) (key : ℕ) (sensor : ℤ)
      → test_sch_sensor hold key t sensor
        ≡ (if t.rcnt == 0 then (0, hold) else slabcon hold (get_tar_temp key t) sensor)
  unfolding test_sch_sensor get_tar_temp
  test_sch_sensor-get_tar_temp hold key sensor =
      ground (arith, sch_sensor_from-tar_temp_from hold key sensor 0 t.rcnt)

  tar_temp_from-first :
      (key n : ℕ)
      → 0 < n
      → (t.rec 0).key ≢ key
      → tar_temp_from t key 0 n ≡ fl.to_int (t.rec t.rcnt).temp
  unfolding tar_temp_from
  tar_temp_from-first key zero h other = absurd (omega arith)
  tar_temp_from-first key (suc n) h other = ground arith

module _ {F : Type 0} ⦃fl : CFloat F⦄ where
  -- The record whose temperature is the target: the first, where it is the only one or its time has
  -- come to the minute; at any other time the unused one behind the last.
  abbrev pub target_slot : ℕ → TmplDat F → ℕ
  target_slot key t = if t.rcnt == 1 || (t.rec 0).key == key then 0 else t.rcnt

  slot_from :
      (t : TmplDat F) (key n : ℕ)
      → n ≢ 0
      → tar_temp_from t key 0 n
        ≡ (if (t.rec 0).key == key then fl.to_int (t.rec 0).temp else fl.to_int (t.rec t.rcnt).temp)
  unfolding tar_temp_from
  slot_from t key zero h = absurd (h refl)
  slot_from t key (suc n) h = ground arith

  pub get_tar_temp-slot :
      (key : ℕ) (t : TmplDat F)
      → t.rcnt ≢ 0
      → get_tar_temp key t ≡ fl.to_int (t.rec (target_slot key t)).temp
  unfolding get_tar_temp
  get_tar_temp-slot key t some_records =
      ground (arith, slot_from t key t.rcnt some_records, some_records)

module _ {F : Type 0} ⦃fl : CFloat F⦄ (t : TmplDat F) where
  -- With two records or more, any time but that of the first reads the unused slot behind the last
  -- record: whatever `r` stands there, the live records are the same and the target is that of `r`.
  pub get_tar_temp_unused_slot :
      (key : ℕ) (r : SRec F)
      → 1 < t.rcnt
      → (t.rec 0).key ≢ key
      → (live (record t { rec = update t.rec t.rcnt r }) ≡ live t)
        × (get_tar_temp key (record t { rec = update t.rec t.rcnt r }) ≡ fl.to_int r.temp)
  unfolding get_tar_temp
  get_tar_temp_unused_slot key r many other = (
    slots-cong t.rec (update t.rec t.rcnt r) 0 t.rcnt (λ k h l. ground arith),
    ground (arith, tar_temp_from-first (record t { rec = update t.rec t.rcnt r }) key t.rcnt),
  )

module _ {F : Type 0} (t : TmplDat F) (hour minute : ℕ) where
  first_key_from-other :
      (i n : ℕ)
      → (t.rec 0).key ≢ key_of hour minute
      → first_key_from t.rec (key_of hour minute) i n ≡ negsuc 0
  unfolding first_key_from
  first_key_from-other i zero h = refl
  first_key_from-other i (suc n) h = ground (arith, first_key_from-other (suc i) n h)

  -- The search sees the first record only: a record further on of a template in order is in the
  -- template and is missed.
  pub find_tmpl_key_misses :
      (p : ℕ)
      → IsValid t
      → 0 < p
      → p < t.rcnt
      → (t.rec p).key ≡ key_of hour minute
      → (find_rec (key_of hour minute) (live t) ≡ some (t.rec p))
        × (find_tmpl_key t hour minute ≡ negsuc 0)
  unfolding find_tmpl_key
  find_tmpl_key_misses p v h l e = (
    find_rec-some t.rec (key_of hour minute) 0 t.rcnt p (omega arith) (omega arith) e
        (λ k a b. omega (arith, v.sorted k p b l)),
    first_key_from-other 0 t.rcnt (omega (arith, v.sorted 0 p h l)),
  )

-- A key gives back the hour and the minute that it was made of.
pub con_key-key_of :
    (hour minute : ℕ)
    → minute < 60
    → con_key (key_of hour minute) ≡ (hour, minute, key_of hour minute)
unfolding con_key
con_key-key_of hour minute h = ground arith
