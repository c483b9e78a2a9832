-- ===== src/Gateway/Log/Statistics.antt =====
-- From the web requests to the statistics: BBB/CGI/Scon.c writes the data file that
-- Mint/process-master/process.c reports on.
use pcon_tng.Prelude.{suc, ◌<◌, ℕ, ◌≡◌, pos, List, [], ◌∷◌, some, true, false}
use pcon_tng.Float.{CFloat}
use pcon_tng.TypeDefs.{number_of_sensors}
use pcon_tng.Gateway.{found}
use pcon_tng.Gateway.Fields.{Field, query, lookup}
use pcon_tng.Gateway.Main.{strtol, Decimal, new_strtof, word_sensor, word_temp, word_humid}
use pcon_tng.Gateway.Log.{SenDatRec, Request}
use pcon_tng.SensorLog.{Reading}

-- A sensor's report: the time, the fields of its query, the three values in them, and what the
-- temperature and the humidity are read as.
pub record Report (F : Type 0) : Type 0 where
  pub now : ℕ
  pub fields : List Field
  pub number : List ℕ
  pub temp_text : List ℕ
  pub humid_text : List ℕ
  pub temperature : F
  pub humidity : F

-- The gateway can read the report, and the number is that of a sensor from 1 to 19.
pub record IsReadable {F : Type 0} ⦃fl : CFloat F⦄ ⦃dec : Decimal F⦄ (r : Report F) : Type 0 where
  pub has_number : lookup word_sensor r.fields ≡ found r.number
  pub has_temp : lookup word_temp r.fields ≡ found r.temp_text
  pub has_humid : lookup word_humid r.fields ≡ found r.humid_text
  pub id : ℕ
  pub is_number : strtol r.number ≡ pos (suc id)
  pub in_range : suc id < number_of_sensors
  pub is_temperature : new_strtof r.temp_text ≡ some r.temperature
  pub temperature_nonzero : dec.is_zero r.temperature ≡ false
  pub is_humidity : new_strtof r.humid_text ≡ some r.humidity
  pub humidity_nonzero : dec.is_zero r.humidity ≡ false

module _ {F : Type 0} ⦃fl : CFloat F⦄ ⦃dec : Decimal F⦄ where
  abbrev pub request : Report F → Request
  request r = record { now = r.now; query = some (query r.fields); written = true }

  abbrev pub reading : Report F → Reading F
  reading r = record { sensor_id = strtol r.number; temp = r.temperature; ts = r.now }

  -- What process.c reads of a record.
  abbrev pub as_reading : SenDatRec F → Reading F
  as_reading r = record { sensor_id = r.sensor_id; temp = r.temp; ts = r.ts }

  abbrev pub readings : List (Report F) → List (Reading F)
  readings [] = []
  readings (r ∷ rs) = reading r ∷ readings rs

  abbrev pub as_readings : List (SenDatRec F) → List (Reading F)
  as_readings [] = []
  as_readings (r ∷ rs) = as_reading r ∷ as_readings rs

  abbrev pub requests : List (Report F) → List Request
  requests [] = []
  requests (r ∷ rs) = request r ∷ requests rs

  abbrev pub AllReadable : List (Report F) → Type 0
  AllReadable [] = Unit
  AllReadable (r ∷ rs) = IsReadable r × AllReadable rs
