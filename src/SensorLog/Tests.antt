-- ===== src/SensorLog/Tests.antt =====
-- Runs of the statistics of Mint/process-master/process.c.
use pcon_tng.Prelude.{ℕ, ◌≡◌, refl, ℤ, pos, negsuc, ◌+ℤ◌, ltb_ℤ, List, [], ◌∷◌, Option, none, some}
use pcon_tng.Float.{whole}
use pcon_tng.SensorLog.{Arith, Reading, Stats, process, count, averages, read_from}

-- Whole degrees, without the means.
instance abbrev pub degrees : Arith ℤ
degrees = record { add = λ a b. a +ℤ b; greater = λ a b. ltb_ℤ b a; mean = λ total n. total }

abbrev reading : ℤ → ℤ → ℕ → Reading ℤ
reading sensor_id temp ts = record { sensor_id = sensor_id; temp = temp; ts = ts }

-- Sensor 3 twice, in frost, and sensor 5.
abbrev frost : List (Reading ℤ)
frost =
    reading (pos 3) (negsuc 4) 100
    ∷ reading (pos 5) (pos 20) 110
    ∷ reading (pos 3) (negsuc 6) 120
    ∷ []

abbrev greatest_of : ℤ → Option (Stats ℤ) → Option ℤ
greatest_of i none = none
greatest_of i (some s) = some (s.max_t i)

-- The maximum of readings below zero comes out as 0.
frost_maximum : greatest_of (pos 3) (process (λ i. 0) (λ i. 0) frost) ≡ some (pos 0)
unfolding process read_from count averages
frost_maximum = refl
