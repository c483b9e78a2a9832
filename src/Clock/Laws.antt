-- ===== src/Clock/Laws.antt =====
-- What the clock's registers read as after `set_tm`.
use pcon_tng.Prelude.{ℕ, ◌+◌, ◌<◌, ◌≡◌, ap, ◌∙◌, pos, ◌-ℤ◌, get_or, List, arith}
use pcon_tng.Clock.{uint8, bcd_to_decimal, decimal_to_bcd, set_tm}

uint8_small : (n : ℕ) → n < 256 → uint8 (pos n) ≡ n
unfolding uint8
uint8_small n h = omega arith

-- A number of two decimal digits survives its coding.
bcd_to_decimal-decimal_to_bcd : (n : ℕ) → n < 100 → bcd_to_decimal (decimal_to_bcd n) ≡ n
unfolding bcd_to_decimal decimal_to_bcd
bcd_to_decimal-decimal_to_bcd n h = omega arith

field : (n : ℕ) → n < 100 → bcd_to_decimal (decimal_to_bcd (uint8 (pos n))) ≡ n
field n h =
    ap (λ m. bcd_to_decimal (decimal_to_bcd m)) (uint8_small n (omega arith))
    ∙ bcd_to_decimal-decimal_to_bcd n h

-- The year loses its century although the cast comes before the subtraction.
year_byte : (y : ℕ) → y < 100 → uint8 (pos (uint8 (pos (2000 + y))) -ℤ pos 2000) ≡ y
unfolding uint8 ◌-ℤ◌
year_byte y h = ground arith

-- Byte `i` of a block of registers.
abbrev pub byte : List ℕ → ℕ → ℕ
byte regs i = get_or regs i 0

-- For a time whose fields are below 100, a day of the week that is a byte, and a year from 2000 to
-- 2099, the bytes that `set_tm` writes decode to the time, the year as its last two digits.
pub bcd_to_decimal-set_tm :
    (sec min hour mday mon year wday : ℕ)
    → sec < 100
    → min < 100
    → hour < 100
    → mday < 100
    → mon < 100
    → year < 100
    → wday < 256
    → let regs = set_tm (record {
      tm_sec = pos sec;
      tm_min = pos min;
      tm_hour = pos hour;
      tm_mday = pos mday;
      tm_mon = pos mon;
      tm_year = pos (2000 + year);
      tm_wday = pos wday;
    }) in
      (bcd_to_decimal (byte regs 1) ≡ sec)
      × (bcd_to_decimal (byte regs 2) ≡ min)
      × (bcd_to_decimal (byte regs 3) ≡ hour)
      × (bcd_to_decimal (byte regs 4) ≡ mday)
      × (byte regs 5 ≡ wday)
      × (bcd_to_decimal (byte regs 6) ≡ mon)
      × (bcd_to_decimal (byte regs 7) ≡ year)
unfolding set_tm
bcd_to_decimal-set_tm sec min hour mday mon year wday h₁ h₂ h₃ h₄ h₅ h₆ h₇ = (
  field sec h₁,
  field min h₂,
  field hour h₃,
  field mday h₄,
  uint8_small wday h₇,
  field mon h₅,
  ap (λ m. bcd_to_decimal (decimal_to_bcd m)) (year_byte year h₆)
      ∙ bcd_to_decimal-decimal_to_bcd year h₆,
)
