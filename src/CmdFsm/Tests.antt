-- ===== src/CmdFsm/Tests.antt =====
-- The command processor's theorems at a house with one channel in each mode, and runs of the code.
use pcon_tng.Prelude.{ℕ, ◌≡◌, ◌≢◌, refl, none, [], ◌∷◌, List, true, false, arith, ℤ, pos, negsuc}
use pcon_tng.Float.{whole}
use pcon_tng.Sch.Tests.{day_plan, rec_at}
use pcon_tng.Daemon.Tests.{house, cold_sensor}
use pcon_tng.CmdFsm.Tables.{action_at, c_18, c_49}
use pcon_tng.CmdFsm.Tokens.{token_type, token_word, keyword_from, keyword_at, is_valid_int, scan_u}
use pcon_tng.CmdFsm.State.{Cmd}
use pcon_tng.CmdFsm.Channels.{set_working_channel, set_mode}
use pcon_tng.CmdFsm.Engine.{
  cmd_fsm_reset, revert, run_action, settle, dispatch, cmd_fsm, run_tokens,
}
use pcon_tng.CmdFsm.Reach.{sensor_assignment_unreachable}

abbrev pub start : Cmd ℤ
start = record {
  cb = record {
    state = 0;
    p_state = 0;
    token = [];
    token_type = pos 0;
    token_value = pos 0;
    w_channel = pos 0;
    w_minutes = 0;
    w_minutes_str = [];
    w_hours = 0;
    w_hours_str = [];
    w_day = pos 0;
    w_sen_dat = cold_sensor;
    w_template_buffer = day_plan;
    w_sch = λ d c. day_plan;
  };
  ipc = house;
  tm = record {
    tm_sec = pos 0;
    tm_min = pos 0;
    tm_hour = pos 0;
    tm_mday = pos 1;
    tm_mon = pos 1;
    tm_year = pos 2020;
    tm_wday = pos 0;
  };
  rtc = [];
  backup = none;
  writable = true;
  cmd_q = [];
  ended = false;
}

abbrev word_on : List ℕ
word_on = b'O' ∷ b'n' ∷ []

abbrev channel_three : List ℕ
channel_three = b'3' ∷ []

on_type : token_type word_on ≡ pos 12
unfolding token_type is_valid_int token_word keyword_from keyword_at
on_type = refl

minus_is_word : token_type (b'-' ∷ []) ≡ negsuc 3
unfolding token_type is_valid_int token_word keyword_from keyword_at
minus_is_word = refl

scan_minus_seven : scan_u (b'-' ∷ b'7' ∷ []) ≡ negsuc 6
unfolding scan_u
scan_minus_seven = refl

-- A channel number, then a switch: the processor is back in state 0.
on_run : (run_tokens (rec_at 0 0 (pos 0)) (channel_three ∷ word_on ∷ []) start).cb.state ≡ 0
unfolding run_tokens cmd_fsm dispatch settle run_action set_working_channel set_mode token_type
    is_valid_int token_word keyword_from keyword_at scan_u
on_run = refl

sensor_assignment_unreachable_example :
    (action_at 35 (run_tokens (rec_at 0 0 (pos 0)) (channel_three ∷ word_on ∷ []) start).cb.state
      ≢ c_49)
    × (action_at 35 (run_tokens (rec_at 0 0 (pos 0)) (channel_three ∷ word_on ∷ []) start).cb.state
        ≢ c_18)
sensor_assignment_unreachable_example =
    sensor_assignment_unreachable (rec_at 0 0 (pos 0)) (channel_three ∷ word_on ∷ []) start 35 refl
      (omega arith)

abbrev in_state_seven : Cmd ℤ
in_state_seven = record start { cb = record (start.cb) { state = 7; p_state = 4 } }

resets : ((cmd_fsm_reset in_state_seven).cb.state ≡ 0) × ((revert in_state_seven).1.cb.state ≡ 4)
unfolding cmd_fsm_reset revert
resets = (refl, refl)
