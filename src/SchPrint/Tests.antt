-- ===== src/SchPrint/Tests.antt =====
-- What is printed of one channel.
use pcon_tng.Prelude.{◌≡◌, refl, ℤ, [], ◌++◌, none, some, arith, ◌==◌, if◌then◌else◌}
use pcon_tng.Sch
use pcon_tng.Sch.{TmplDat}
use pcon_tng.Sch.Tests.{day_plan}
use pcon_tng.Daemon.Tests.{channel_in_mode}
use pcon_tng.SchPrint.{
  FloatText, bytes, cell, channel_head, channel_text, rows_text, most_records, decimal, two_digits,
}
use pcon_tng.SchPrint.Overrun.{channel_text-fits}

-- Whatever printf makes of a float.
abbrev any_text : FloatText ℤ
any_text = record { two_places = λ x. bytes "70.00"; whole_number = λ x. bytes "70" }

decimal_test : decimal 1440 ++ two_digits 7 ++ two_digits 59 ≡ bytes "14400759"
decimal_test = refl

-- Nine characters, and the NUL behind them, in an array of nine bytes.
cell_overrun : cell any_text day_plan 0 0 [] ≡ none
unfolding Sch.con_key
cell_overrun = refl

-- A week in which no day has a record.
abbrev empty_plan : TmplDat ℤ
empty_plan = record day_plan { rcnt = 0 }

empty_week :
    channel_text any_text 5 (channel_in_mode 1 0) (λ day. empty_plan) []
    ≡ some (channel_head any_text 5 (channel_in_mode 1 0) ++ bytes "\n\r", [])
unfolding channel_text rows_text most_records channel_head
empty_week = refl

channel_text-fits_example : channel_text any_text 5 (channel_in_mode 1 0) (λ day. day_plan) [] ≡ (
    if most_records any_text (λ day. day_plan) 0 7 0 == 0
    then some (channel_head any_text 5 (channel_in_mode 1 0) ++ bytes "\n\r", [])
    else none)
channel_text-fits_example =
    channel_text-fits any_text (λ x. omega arith) 5 (channel_in_mode 1 0) (λ day. day_plan) []
      (λ i h. ground arith) (omega arith)
