-- ===== src/CmdFsm/Invariant.antt =====
-- Every command keeps the invariant of Sound.
use pcon_tng.Prelude.{
  ℕ, ◌+◌, ◌≡◌, ℤ, pos, ltb_ℤ, ltb, eq_ℤ, ◌==◌, Option, none, some, List, [], true, if-elim, length,
  arith,
}
use pcon_tng.Float.{CFloat}
use pcon_tng.Sch.{SRec}
use pcon_tng.Sch.Add.{add_tmpl_rec-IsValid}
use pcon_tng.Sch.Del.{del_tmpl_rec-IsValid}
use pcon_tng.TypeDefs.{number_of_sensors}
use pcon_tng.CmdFsm.Tables.{
  Action, c_4, c_14, c_19, c_20, c_21, c_22, c_23, c_24, c_25, c_27, c_28, c_30, c_33, c_51, c_61,
  c_68, c_69, c_70, action_at, new_state_at,
}
use pcon_tng.CmdFsm.State.{Cmd}
use pcon_tng.CmdFsm.Tokens.{token_type, tt_null, dequote, padstr}
use pcon_tng.CmdFsm.Channels.{
  set_channel_name, set_mode, clear_channel, clear_sensor, set_sensor_id, set_hide,
}
use pcon_tng.CmdFsm.Schedules.{
  set_all_days, clear_template, load_channel, load_all_channels, replace_schedule, record_state,
  record_temp, record_humid, delete_record, held, add_at,
}
use pcon_tng.CmdFsm.Sensors.{
  edit_sensor, s_load, find_sensor, loaded, copy_group, set_group, set_description, set_active,
  store_sensor, write_clock, set_sensor, group_name_size, description_name_size,
}
use pcon_tng.CmdFsm.Bounds.{in_bounds}
use pcon_tng.CmdFsm.Engine.{run_action, settle, dispatch, cmd_fsm, typed, row_of, set_state}
use pcon_tng.CmdFsm.Sound.{Sound}
use pcon_tng.CmdFsm.Steps.{
  with_buffer, emptied, set_hour-Sound, set_minute-Sound, load_backup-Sound, save_backup-Sound,
  delete_template-Sound, save_template-Sound, load_template-Sound, set_working_channel-Sound,
  set_day-Sound,
}

module _ {F : Type 0} where
  s_load-Sound : (id : ℤ) (s : Cmd F) → Sound s → Sound (s_load id s)
  unfolding s_load
  s_load-Sound id s h = loaded-Sound (find_sensor s.ipc.s_dat id 0 number_of_sensors)
    where
      loaded-Sound : (o : Option ℕ) → Sound (loaded id o s)
      loaded-Sound none = h
      loaded-Sound (some i) = h

  edit_sensor-Sound : (s : Cmd F) → Sound s → Sound (edit_sensor s).1
  unfolding edit_sensor
  edit_sensor-Sound s h =
      if-elim {A = ℕ × Cmd F} (λ r. Sound r.1) (ltb_ℤ (pos 19) s.cb.token_value) (2, s)
        (0, s_load s.cb.token_value s) (λ _. h) (λ _. s_load-Sound s.cb.token_value s h)

  set_group-Sound : (s : Cmd F) → Sound s → Sound (set_group s).1
  unfolding set_group
  set_group-Sound s h =
      let named : Cmd F = record s { cb = record (s.cb) { token = dequote s.cb.token } } in
      if-elim {A = ℕ × Cmd F} (λ r. Sound r.1) (ltb (group_name_size + 2) (length s.cb.token))
        (2, s) (copy_group (padstr (dequote s.cb.token) group_name_size) named) (λ _. h)
        (λ _. copy_group-Sound (padstr (dequote s.cb.token) group_name_size) named h)
    where
      copy_group-Sound : (o : Option (List ℕ)) (s : Cmd F) → Sound s → Sound (copy_group o s).1
      copy_group-Sound none s h = h
      copy_group-Sound (some group) s h = h

  set_description-Sound : (s : Cmd F) → Sound s → Sound (set_description s).1
  unfolding set_description
  set_description-Sound s h =
      if-elim {A = ℕ × Cmd F} (λ r. Sound r.1) (ltb (description_name_size + 2) (length s.cb.token))
        (2, s)
        (
          0,
          set_sensor (record s { cb = record (s.cb) { token = dequote s.cb.token } })
              (record (s.cb.w_sen_dat) { description = dequote s.cb.token }),
        )
        (λ _. h) (λ _. h)

  settle-Sound : (index : ℕ) (r : ℕ × Cmd F) → Sound r.1 → Sound (settle index r)
  unfolding settle
  settle-Sound index r h =
      let moved = set_state r.1 (new_state_at index r.1.cb.state) in
      let emptied : Cmd F = record (r.1) { cmd_q = []; cb = record (r.1.cb) { token = [] } } in
      let aborted : Cmd F = record (r.1) { ended = true } in
      if-elim Sound r.1.ended r.1 _ (λ _. h)
        (λ _.
          if-elim Sound (r.0 == 0) moved _ (λ _. h)
            (λ _.
              if-elim Sound (r.0 == 1) emptied _ (λ _. h)
                (λ _. if-elim Sound (r.0 == 2) r.1 aborted (λ _. h) (λ _. h))))

module _ {F : Type 0} ⦃fl : CFloat F⦄ (below : SRec F) where
  with_record :
      (s : Cmd F) (state : ℕ) (temp humid : ℤ) → Sound s → Sound (add_at below s state temp humid).1
  with_record s state temp humid h = with_buffer s _ h (
      add_tmpl_rec-IsValid below s.cb.w_template_buffer h.buffer s.cb.w_hours s.cb.w_minutes state
        temp humid)

  run_action-Sound :
      (a : Action) (s : Cmd F) → Sound s → in_bounds a s ≡ true → Sound (run_action below a s).1
  unfolding run_action set_channel_name set_mode clear_channel clear_sensor set_sensor_id set_hide
      set_all_days clear_template load_channel load_all_channels replace_schedule record_state
      record_temp record_humid delete_record set_active store_sensor write_clock in_bounds
  run_action-Sound c_4 s h ok = set_working_channel-Sound s h
  run_action-Sound c_14 s h ok = delete_template-Sound s h
  run_action-Sound c_19 s h ok = load_backup-Sound s h
  run_action-Sound c_20 s h ok = set_hour-Sound s h
  run_action-Sound c_21 s h ok = set_minute-Sound s h
  run_action-Sound c_22 s h ok = with_record s 1 _ _ h
  run_action-Sound c_23 s h ok = with_record s 0 _ _ h
  run_action-Sound c_24 s h ok =
      with_buffer s _ h
        (del_tmpl_rec-IsValid s.cb.w_template_buffer s.cb.w_hours s.cb.w_minutes h.buffer)
  run_action-Sound c_25 s h ok = save_backup-Sound s h
  run_action-Sound c_27 s h ok = with_record s (held below s).state _ _ h
  run_action-Sound c_28 s h ok = with_record s (held below s).state _ _ h
  run_action-Sound c_30 s h ok = set_day-Sound s h
  run_action-Sound c_33 s h ok = with_buffer s _ h (emptied s.cb.w_template_buffer)
  run_action-Sound c_51 s h ok = save_template-Sound s h
  run_action-Sound c_61 s h ok = load_template-Sound s h (ground (arith, ok))
  run_action-Sound c_68 s h ok = edit_sensor-Sound s h
  run_action-Sound c_69 s h ok = set_group-Sound s h
  run_action-Sound c_70 s h ok = set_description-Sound s h
  run_action-Sound _ s h ok = h

  -- A command whose writes stay inside their arrays keeps the template buffer, the working time, the
  -- library and its backup in order. So the token of an hour or a minute has less than four
  -- characters, a template's name less than 40 and a channel's less than 20, a template that is
  -- loaded is one of the library's, a working channel, day or sensor that is written to exists, a
  -- sensor's description that is set or loaded has less than 128 characters, and its group is refused
  -- when set and has less than nine when loaded.
  pub cmd_fsm-Sound :
      (s : Cmd F)
      → Sound s
      → in_bounds (action_at (row_of (token_type s.cb.token)) s.cb.state) (typed s) ≡ true
      → Sound (cmd_fsm below s)
  unfolding cmd_fsm dispatch
  cmd_fsm-Sound s h ok =
      let index = row_of (token_type s.cb.token) in
      if-elim Sound (eq_ℤ (token_type s.cb.token) tt_null)
        (record s { cb = record (s.cb) { token_type = token_type s.cb.token } })
        (settle index (run_action below (action_at index s.cb.state) (typed s))) (λ _. h)
        (λ _.
          settle-Sound index (run_action below (action_at index s.cb.state) (typed s))
            (run_action-Sound (action_at index s.cb.state) (typed s) h ok))
