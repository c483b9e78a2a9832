-- ===== src/Clock/Tests.antt =====
-- The clock's theorem at 23:59:58 on the last day of 2024.
use pcon_tng.Prelude.{◌≡◌, pos, arith}
use pcon_tng.Clock.{ClockTm, set_tm, bcd_to_decimal}
use pcon_tng.Clock.Laws.{byte, bcd_to_decimal-set_tm}

abbrev new_years_eve : ClockTm
new_years_eve = record {
  tm_sec = pos 58;
  tm_min = pos 59;
  tm_hour = pos 23;
  tm_mday = pos 31;
  tm_mon = pos 12;
  tm_year = pos 2024;
  tm_wday = pos 2;
}

bcd_to_decimal-set_tm_example :
    (bcd_to_decimal (byte (set_tm new_years_eve) 1) ≡ 58)
    × (bcd_to_decimal (byte (set_tm new_years_eve) 2) ≡ 59)
    × (bcd_to_decimal (byte (set_tm new_years_eve) 3) ≡ 23)
    × (bcd_to_decimal (byte (set_tm new_years_eve) 4) ≡ 31)
    × (byte (set_tm new_years_eve) 5 ≡ 2)
    × (bcd_to_decimal (byte (set_tm new_years_eve) 6) ≡ 12)
    × (bcd_to_decimal (byte (set_tm new_years_eve) 7) ≡ 24)
bcd_to_decimal-set_tm_example =
    bcd_to_decimal-set_tm 58 59 23 31 12 24 2 (omega arith) (omega arith) (omega arith)
      (omega arith) (omega arith) (omega arith) (omega arith)
