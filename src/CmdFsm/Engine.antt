-- ===== src/CmdFsm/Engine.antt =====
-- BBB/lib-sources/cmd_fsm.c: the engine, which looks a token up in the two tables and calls the
-- action routine.
use pcon_tng.Prelude.{ℕ, ℤ, negsuc, List, [], ◌∷◌, true, eq_ℤ, pos_part, ◌==◌, if◌then◌else◌}
use pcon_tng.Float.{CFloat}
use pcon_tng.Sch.{SRec}
use pcon_tng.CmdFsm.Tables.{
  Action, c_0, c_1, c_2, c_3, c_4, c_5, c_6, c_7, c_8, c_9, c_10, c_11, c_12, c_13, c_14, c_16,
  c_17, c_18, c_19, c_20, c_21, c_22, c_23, c_24, c_25, c_27, c_28, c_29, c_30, c_31, c_32, c_33,
  c_34, c_37, c_38, c_39, c_40, c_41, c_42, c_43, c_44, c_45, c_46, c_47, c_48, c_49, c_50, c_51,
  c_52, c_53, c_55, c_56, c_57, c_58, c_59, c_61, c_63, c_65, c_66, c_68, c_69, c_70, c_71, c_72,
  c_73, c_74, c_75, c_76, new_state_at, action_at,
}
use pcon_tng.CmdFsm.Tokens.{tt_int, tt_str, tt_unrec, tt_null, token_type, scan_u}
use pcon_tng.CmdFsm.State.{Cmd}
use pcon_tng.CmdFsm.Channels.{
  set_working_channel, set_channel_name, channel_on, channel_off, channel_time, channel_sensor,
  clear_sensor, set_sensor_id, set_hide, load_backup, save_backup,
}
use pcon_tng.CmdFsm.Schedules.{
  set_hour, set_minute, set_day, set_all_days, clear_template, load_channel, load_all_channels,
  replace_schedule, delete_template, save_template, load_template, record_state, record_temp,
  record_humid, delete_record,
}
use pcon_tng.CmdFsm.Sensors.{
  edit_sensor, set_group, set_description, set_active, store_sensor, set_clock, write_clock,
}

module _ {F : Type 0} where
  -- A routine that prints, sets the prompt, or does nothing.
  abbrev pub shown : Cmd F → ℕ × Cmd F
  shown s = (0, s)

  abbrev pub refused : Cmd F → ℕ × Cmd F
  refused s = (1, s)

  abbrev pub terminate : Cmd F → ℕ × Cmd F
  terminate s = (0, record s { ended = true })

module _ {F : Type 0} ⦃fl : CFloat F⦄ (below : SRec F) where
  -- cmd_action[index][state](cb)
  unfoldable pub run_action : Action → Cmd F → ℕ × Cmd F
  run_action c_0 s = shown s
  run_action c_1 s = shown s
  run_action c_2 s = shown s
  run_action c_3 s = terminate s
  run_action c_4 s = set_working_channel s
  run_action c_5 s = set_channel_name s
  run_action c_6 s = shown s
  run_action c_7 s = refused s
  run_action c_8 s = refused s
  run_action c_9 s = channel_on s
  run_action c_10 s = channel_off s
  run_action c_11 s = channel_time s
  run_action c_12 s = channel_sensor s
  run_action c_13 s = shown s
  run_action c_14 s = delete_template s
  run_action c_16 s = shown s
  run_action c_17 s = shown s
  run_action c_18 s = clear_sensor s
  run_action c_19 s = load_backup s
  run_action c_20 s = set_hour s
  run_action c_21 s = set_minute s
  run_action c_22 s = record_state below 1 s
  run_action c_23 s = record_state below 0 s
  run_action c_24 s = delete_record s
  run_action c_25 s = save_backup s
  run_action c_27 s = record_temp below s
  run_action c_28 s = record_humid below s
  run_action c_29 s = load_channel s
  run_action c_30 s = set_day s
  run_action c_31 s = load_all_channels s
  run_action c_32 s = set_all_days s
  run_action c_33 s = clear_template s
  run_action c_34 s = shown s
  run_action c_37 s = shown s
  run_action c_38 s = shown s
  run_action c_39 s = replace_schedule s
  run_action c_40 s = shown s
  run_action c_41 s = set_clock (λ v t. record t { tm_hour = v }) s
  run_action c_42 s = set_clock (λ v t. record t { tm_min = v }) s
  run_action c_43 s = set_clock (λ v t. record t { tm_sec = v }) s
  run_action c_44 s = set_clock (λ v t. record t { tm_mon = v }) s
  run_action c_45 s = set_clock (λ v t. record t { tm_mday = v }) s
  run_action c_46 s = set_clock (λ v t. record t { tm_year = v }) s
  run_action c_47 s = set_clock (λ v t. record t { tm_wday = v }) s
  run_action c_48 s = write_clock s
  run_action c_49 s = set_sensor_id s
  run_action c_50 s = shown s
  run_action c_51 s = save_template s
  run_action c_52 s = shown s
  run_action c_53 s = shown s
  run_action c_55 s = shown s
  run_action c_56 s = shown s
  run_action c_57 s = shown s
  run_action c_58 s = shown s
  run_action c_59 s = shown s
  run_action c_61 s = load_template s
  run_action c_63 s = shown s
  run_action c_65 s = shown s
  run_action c_66 s = shown s
  run_action c_68 s = edit_sensor s
  run_action c_69 s = set_group s
  run_action c_70 s = set_description s
  run_action c_71 s = set_active 1 s
  run_action c_72 s = set_active 0 s
  run_action c_73 s = store_sensor s
  run_action c_74 s = shown s
  run_action c_75 s = set_hide 1 s
  run_action c_76 s = set_hide 0 s

-- The first `switch`: the token's value and its row. A word's type is in range of the tables.
abbrev pub value_of : List ℕ → ℤ → ℤ
value_of token type =
    if eq_ℤ type tt_int
    then scan_u token
    else if eq_ℤ type tt_str
    then negsuc 0
    else if eq_ℤ type tt_unrec
    then negsuc 0
    else type

abbrev pub row_of : ℤ → ℕ
row_of type =
    if eq_ℤ type tt_int
    then 35
    else if eq_ℤ type tt_str
    then 36
    else if eq_ℤ type tt_unrec
    then 37
    else pos_part type

module _ {F : Type 0} where
  abbrev pub set_state : Cmd F → ℕ → Cmd F
  set_state s state = record s { cb = record (s.cb) { state = state } }

  -- The prompt aside, `cmd_fsm_reset` goes back to state 0 and `c_15`, which no table entry calls,
  -- to the state kept in `p_state`.
  unfoldable pub cmd_fsm_reset : Cmd F → Cmd F
  cmd_fsm_reset s = set_state s 0

  unfoldable pub revert : Cmd F → ℕ × Cmd F
  revert s = (0, set_state s s.cb.p_state)

  -- The second `switch`, on what the routine returned; a process that has ended does nothing more.
  unfoldable pub settle : ℕ → ℕ × Cmd F → Cmd F
  settle index r =
      if r.1.ended
      then r.1
      else if r.0 == 0
      then set_state r.1 (new_state_at index r.1.cb.state)
      else if r.0 == 1
      then record (r.1) { cmd_q = []; cb = record (r.1.cb) { token = [] } }
      else if r.0 == 2
      then r.1
      else record (r.1) { ended = true }

module _ {F : Type 0} where
  -- The control block after the first `switch`.
  abbrev pub typed : Cmd F → Cmd F
  typed s = record s {
    cb = record (s.cb) {
      token_type = token_type s.cb.token;
      token_value = value_of s.cb.token (token_type s.cb.token);
    };
  }

module _ {F : Type 0} ⦃fl : CFloat F⦄ (below : SRec F) where
  -- The call of the action, with the value and the row set up.
  unfoldable pub dispatch : ℕ → Cmd F → Cmd F
  unfolding settle
  dispatch index s = settle index (run_action below (action_at index s.cb.state) s)

  unfoldable pub cmd_fsm : Cmd F → Cmd F
  unfolding dispatch
  cmd_fsm s =
      if eq_ℤ (token_type s.cb.token) tt_null
      then record s { cb = record (s.cb) { token_type = token_type s.cb.token } }
      else dispatch (row_of (token_type s.cb.token)) (typed s)

  -- The processor on a list of tokens, one call each, until the process ends.
  unfoldable pub run_tokens : List (List ℕ) → Cmd F → Cmd F
  run_tokens [] s = s
  run_tokens (t ∷ ts) s =
      let next = run_tokens ts (cmd_fsm (record s { cb = record (s.cb) { token = t } })) in
      if s.ended then s else next
