-- ===== src/Gateway/Tests.antt =====
-- A report of sensor 4, and some that go wrong.
use pcon_tng.Prelude.{ℕ, List, ◌≡◌, ◌≢◌, refl, true, ℤ, pos, negsuc, [], ◌∷◌, some, arith, eq_ℤ}
use pcon_tng.Float.{whole}
use pcon_tng.Daemon.Tests.{house, noon}
use pcon_tng.Daemon.Relays.{SensorsInRange}
use pcon_tng.Sch.Tests.{day_plan}
use pcon_tng.TypeDefs.{IpcDat}
use pcon_tng.Gateway.{found, cgigetval}
use pcon_tng.Gateway.Encoding.{plain, hex, Digit}
use pcon_tng.Gateway.Fields.{Field, query}
use pcon_tng.Gateway.Query.{cgigetval-query}
use pcon_tng.Gateway.Main.{
  Decimal, strtol, strtok, new_strtof, add_digits, word_sensor, word_temp, word_humid, gateway,
}
use pcon_tng.Gateway.Log.{serve_all}
use pcon_tng.Gateway.Log.Statistics.{Report, as_readings, requests}
use pcon_tng.SensorLog.{Reading}
use pcon_tng.SensorLog.Tests.{degrees}
use pcon_tng.Gateway.Control.{Controls, report_reaches_channel}

-- Whole degrees: what stands behind the point is cut off.
instance abbrev whole_decimal : Decimal ℤ
whole_decimal = record { add_digit = λ f d i s. f; is_zero = λ f. eq_ℤ f (pos 0) }

abbrev sensor_four : Field
sensor_four = record {
  name = word_sensor;
  no_equals = refl;
  no_amp = refl;
  value = plain b'4' refl ∷ [];
}

abbrev two : Digit
two = record { value = 2; small = omega arith; capital = true }

abbrev capital_e : Digit
capital_e = record { value = 14; small = omega arith; capital = true }

-- `21%2E5`: the point is encoded.
abbrev temp_21_5 : Field
temp_21_5 = record {
  name = word_temp;
  no_equals = refl;
  no_amp = refl;
  value = plain b'2' refl ∷ plain b'1' refl ∷ hex two capital_e ∷ plain b'5' refl ∷ [];
}

abbrev temp_21 : Field
temp_21 = record {
  name = word_temp;
  no_equals = refl;
  no_amp = refl;
  value = plain b'2' refl ∷ plain b'1' refl ∷ [];
}

abbrev humid_40 : Field
humid_40 = record {
  name = word_humid;
  no_equals = refl;
  no_amp = refl;
  value = plain b'4' refl ∷ plain b'0' refl ∷ plain b'.' refl ∷ plain b'0' refl ∷ [];
}

cgigetval-query_example :
    cgigetval 7 word_temp (some (query (sensor_four ∷ temp_21_5 ∷ humid_40 ∷ [])))
    ≡ found (b'2' ∷ b'1' ∷ b'.' ∷ b'5' ∷ [])
cgigetval-query_example = cgigetval-query 7 word_temp (sensor_four ∷ temp_21_5 ∷ humid_40 ∷ [])

number_four : strtol (b'4' ∷ []) ≡ pos 4
unfolding strtol
number_four = refl

below_zero : strtol (32 ∷ b'-' ∷ b'1' ∷ b'2' ∷ b'x' ∷ []) ≡ negsuc 11
unfolding strtol
below_zero = refl

four_nonzero : strtol (b'4' ∷ []) ≢ pos 0
unfolding strtol
four_nonzero = ground arith

read_21 : new_strtof (b'2' ∷ b'1' ∷ b'.' ∷ b'5' ∷ []) ≡ some (pos 21)
unfolding new_strtof strtok strtol add_digits
read_21 = refl

read_40 : new_strtof (b'4' ∷ b'0' ∷ b'.' ∷ b'0' ∷ []) ≡ some (pos 40)
unfolding new_strtof strtok strtol add_digits
read_40 = refl

-- The house with one record in each schedule.
abbrev steady_house : IpcDat ℤ
steady_house = record house {
  sys_data = record (house.sys_data) { sys_sch = λ d c. record day_plan { rcnt = 1 } };
}

steady_house-SensorsInRange : SensorsInRange steady_house
steady_house-SensorsInRange k h = (4, omega arith, ground arith)

report_reaches_channel_example :
    Controls
      (gateway 1000 steady_house 7 (some (query (sensor_four ∷ temp_21_5 ∷ humid_40 ∷ []))))
      0
      noon
      (pos 50)
      (pos 4)
      2
      (pos 70)
      (pos 21)
report_reaches_channel_example =
    report_reaches_channel 1000 7 steady_house (sensor_four ∷ temp_21_5 ∷ humid_40 ∷ []) 3 refl refl
      refl number_four (omega arith) read_21 refl read_40 refl steady_house-SensorsInRange 0 noon
      (pos 50) 2 (omega arith) refl refl (omega arith) refl

-- Two reports of sensor 4.
abbrev report_at : ℕ → Report ℤ
report_at now = record {
  now = now;
  fields = sensor_four ∷ temp_21_5 ∷ humid_40 ∷ [];
  number = b'4' ∷ [];
  temp_text = b'2' ∷ b'1' ∷ b'.' ∷ b'5' ∷ [];
  humid_text = b'4' ∷ b'0' ∷ b'.' ∷ b'0' ∷ [];
  temperature = pos 21;
  humidity = pos 40;
}

abbrev two_reports : List (Report ℤ)
two_reports = report_at 1000 ∷ report_at 1060 ∷ []

abbrev two_logged : List (Reading ℤ)
two_logged =
    as_readings
      (serve_all 7 (requests two_reports) (record { ipc = house; cgi_data = [] })).cgi_data
