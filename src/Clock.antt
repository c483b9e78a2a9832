-- ===== src/Clock.antt =====
-- BBB/lib-sources/PCF8563.c: the clock chip's registers in binary coded decimal. The bus is left
-- out: `set_tm` yields the bytes that it writes.
pub mod Laws
pub mod Tests
use pcon_tng.Prelude.{ℕ, ◌+◌, ◌-◌, ◌*◌, ◌/◌, ◌%◌, ℤ, pos, negsuc, ◌-ℤ◌, List, [], ◌∷◌}

-- `_tm` as the clock commands fill it: values as they were typed.
pub record ClockTm : Type 0 where
  pub tm_sec : ℤ
  pub tm_min : ℤ
  pub tm_hour : ℤ
  pub tm_mday : ℤ
  pub tm_mon : ℤ
  pub tm_year : ℤ
  pub tm_wday : ℤ

-- (uint8_t) n
unfoldable pub uint8 : ℤ → ℕ
uint8 (pos n) = n % 256
uint8 (negsuc n) = 255 - n % 256

unfoldable pub bcd_to_decimal : ℕ → ℕ
bcd_to_decimal bcd_byte = (bcd_byte / 16 * 10 + bcd_byte % 16) % 256

-- The low four bits of the first operand of `|` are clear, so it is a sum.
unfoldable pub decimal_to_bcd : ℕ → ℕ
decimal_to_bcd decimal_byte = (decimal_byte / 10 * 16 + decimal_byte % 10) % 256

-- The start register, and the time and date registers.
unfoldable pub set_tm : ClockTm → List ℕ
set_tm tm =
    2
    ∷ decimal_to_bcd (uint8 tm.tm_sec)
    ∷ decimal_to_bcd (uint8 tm.tm_min)
    ∷ decimal_to_bcd (uint8 tm.tm_hour)
    ∷ decimal_to_bcd (uint8 tm.tm_mday)
    ∷ uint8 tm.tm_wday
    ∷ decimal_to_bcd (uint8 tm.tm_mon)
    ∷ decimal_to_bcd (uint8 (pos (uint8 tm.tm_year) -ℤ pos 2000))
    ∷ []
