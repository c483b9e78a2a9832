-- ===== src/SensorLog/Report.antt =====
-- What Mint/process-master/process.c reports of a log.
use pcon_tng.Prelude.{ℕ, ◌≡◌, ◌<◌, ℤ, pos, List, [], ◌∷◌, some, Bool, true, ◌&&◌}
use pcon_tng.Float.{CFloat}
use pcon_tng.SensorLog.{Arith, Reading, Stats, initial, in_arrays, process, max_sensor_id}
use pcon_tng.SensorLog.Summary.{sensor, summary}

module _ {F : Type 0} ⦃fl : CFloat F⦄ ⦃ar : Arith F⦄ where
  abbrev mean_of : Stats F → ℕ → F
  mean_of s k = ar.mean (s.sum_t (pos k)) (s.hit_cnt (pos k))

module _ {F : Type 0} ⦃fl : CFloat F⦄ ⦃ar : Arith F⦄ where
  abbrev pub all_in_arrays : List (Reading F) → Bool
  all_in_arrays [] = true
  all_in_arrays (r ∷ rs) = in_arrays r.sensor_id && all_in_arrays rs

  -- What the report shows.
  pub record Reported (f_date c_date : ℤ → ℕ) (log : List (Reading F)) : Type 0 where
    pub s : Stats F
    pub runs : process f_date c_date log ≡ some s
    pub sensors :
        (k : ℕ)
        → k < max_sensor_id
        → sensor s (pos k) ≡ summary (pos k) (sensor (initial f_date c_date) (pos k)) log
    pub means :
        (k : ℕ)
        → k < max_sensor_id
        → 0 < s.hit_cnt (pos k)
        → s.avg_t (pos k) ≡ ar.mean (s.sum_t (pos k)) (s.hit_cnt (pos k))
    pub dates :
        (k : ℕ)
        → k < max_sensor_id
        → f_date (pos k) ≡ c_date (pos k)
        → s.f_date (pos k) ≡ s.c_date (pos k)
