-- ===== src/CmdFsm/Runs.antt =====
-- The theorems on commands at runs from the house of Tests.
use pcon_tng.Prelude.{
  ◌+◌, ◌≡◌, ◌<◌, refl, some, [], ◌∷◌, true, false, length, arith, ℤ, pos, negsuc, if◌then◌else◌,
  ltb, leb, ◌&&◌,
}
use pcon_tng.Float.{whole}
use pcon_tng.Sch.{SRec}
use pcon_tng.Sch.Tests.{day_plan, day_plan-IsValid, rec_at}
use pcon_tng.TypeDefs.{template_name_size}
use pcon_tng.Daemon.Tests.{house}
use pcon_tng.CmdFsm.State.{Cmd}
use pcon_tng.CmdFsm.Tables.{c_20, action_at}
use pcon_tng.CmdFsm.Tokens.{dequote, token_type, is_valid_int, scan_u}
use pcon_tng.CmdFsm.Schedules.{delete_template, save_template, load_template}
use pcon_tng.CmdFsm.Bounds.{in_bounds}
use pcon_tng.CmdFsm.Sensors.{find_sensor}
use pcon_tng.CmdFsm.Engine.{cmd_fsm, row_of, typed}
use pcon_tng.CmdFsm.Sound.{Sound}
use pcon_tng.CmdFsm.Invariant.{cmd_fsm-Sound}
use pcon_tng.CmdFsm.Escape.{escape, enter, word_done, word_cancel}
use pcon_tng.CmdFsm.Library.{delete_template_lem, load_template-save_template, lib_of, saved_at}
use pcon_tng.CmdFsm.Tests.{start}

abbrev junk : SRec ℤ
junk = rec_at 999 7 (negsuc 3)

-- A library of three, and a token's value.
abbrev with_three : ℤ → Cmd ℤ
with_three v = record start {
  cb = record (start.cb) { token_value = v; token = b'"' ∷ b'x' ∷ b'"' ∷ [] };
  ipc = record house { sys_data = record (house.sys_data) { tpl_index = 3 } };
}

with_three-Sound : (v : ℤ) → Sound (with_three v)
with_three-Sound v = record {
  buffer = day_plan-IsValid;
  hour_fits = omega arith;
  minute_fits = omega arith;
  library = record { fits = omega arith; valid = λ i h. day_plan-IsValid };
  saved = tt;
}

-- The number 007 as an hour, in state 4.
abbrev hour_seven : Cmd ℤ
hour_seven = record (with_three (pos 1)) {
  cb = record ((with_three (pos 1)).cb) { state = 4; token = b'0' ∷ b'0' ∷ b'7' ∷ [] };
}

hour_seven-in_bounds :
    in_bounds
      (action_at (row_of (token_type hour_seven.cb.token)) hour_seven.cb.state)
      (typed hour_seven)
    ≡ true
unfolding in_bounds token_type is_valid_int scan_u
hour_seven-in_bounds = refl

-- With a zero more it is too long.
long_hour-in_bounds :
    in_bounds c_20 (
      typed (record hour_seven {
        cb = record (hour_seven.cb) { token = b'0' ∷ b'0' ∷ b'0' ∷ b'7' ∷ [] };
      }))
    ≡ false
unfolding in_bounds token_type is_valid_int scan_u
long_hour-in_bounds = refl

cmd_fsm-Sound_example : Sound (cmd_fsm junk hour_seven)
cmd_fsm-Sound_example =
    cmd_fsm-Sound junk hour_seven (with_three-Sound (pos 1)) hour_seven-in_bounds

-- Left in state 26, the entry of a temperature.
abbrev entering : Cmd ℤ
entering = record start { cb = record (start.cb) { state = 26 } }

escape_example :
    ((enter junk word_cancel
        (enter junk word_done (enter junk word_done (enter junk word_done entering)))).cb.state
      ≡ 0)
    × ((enter junk word_cancel
          (enter junk word_done (enter junk word_done (enter junk word_done entering)))).ended
        ≡ false)
escape_example = escape junk entering refl refl

-- The only template of a library.
abbrev with_one : Cmd ℤ
with_one = record (with_three (pos 0)) {
  ipc = record house { sys_data = record (house.sys_data) { tpl_index = 1 } };
}

delete_template_lem_example :
    ((delete_template with_one).0 ≡ 0)
    × ((delete_template with_one).1.ipc.sys_data.tpl_index + 1 ≡ 1)
    × (lib_of (delete_template with_one).1 0
        ≡ (if leb 0 0 && ltb 1 1 then lib_of with_one 1 else lib_of with_one 0))
delete_template_lem_example = delete_template_lem with_one 0 0 refl (omega arith)

name_fits : length (dequote (b'"' ∷ b'x' ∷ b'"' ∷ [])) < template_name_size
unfolding dequote
name_fits = omega arith

-- Into an empty library.
abbrev with_none : Cmd ℤ
with_none = record (with_three (pos 0)) {
  ipc = record house { sys_data = record (house.sys_data) { tpl_index = 0 } };
}

load_template-save_template_example :
    ((load_template (saved_at with_none 0)).1.cb.w_template_buffer
      ≡ record day_plan { name = dequote (b'"' ∷ b'x' ∷ b'"' ∷ []) })
    × ((save_template with_none).1.ipc.sys_data.tpl_index ≡ 1)
    × (lib_of (save_template with_none).1 0
        ≡ record day_plan { name = dequote (b'"' ∷ b'x' ∷ b'"' ∷ []) })
load_template-save_template_example =
    load_template-save_template with_none 0 (omega arith) name_fits

found_first : find_sensor house.s_dat (pos 4) 0 20 ≡ some 0
unfolding find_sensor
found_first = refl

-- Sensor 4, with an edit buffer that holds another reading.
abbrev editing : Cmd ℤ
editing = record start {
  cb = record (start.cb) {
    token_value = pos 4;
    w_sen_dat = record (start.cb.w_sen_dat) { temp = pos 99; channel_index = 7 };
  };
}

-- Nine characters in quotes.
abbrev nine_letters : Cmd ℤ
nine_letters = record start {
  cb = record (start.cb) {
    token = b'"' ∷ b'b' ∷ b'a' ∷ b's' ∷ b'e' ∷ b'm' ∷ b'e' ∷ b'n' ∷ b't' ∷ b's' ∷ b'"' ∷ [];
  };
}
