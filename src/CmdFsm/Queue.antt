-- ===== src/CmdFsm/Queue.antt =====
-- What a command does to the queue of tokens: it keeps it or empties it.
use pcon_tng.Prelude.{
  ℕ, ◌+◌, ◌≡◌, ◌∙◌, ◌⊎◌, inl, inr, refl, ℤ, pos, ltb_ℤ, ltb, eq_ℤ, ◌==◌, ◌&&◌, ◌||◌, Option, none,
  some, List, [], if-elim, length,
}
use pcon_tng.Float.{CFloat}
use pcon_tng.Sch.{SRec}
use pcon_tng.TypeDefs.{IpcDat, number_of_channels, number_of_sensors, days_per_week, max_templates}
use pcon_tng.CmdFsm.Tables.{
  Action, c_4, c_14, c_19, c_20, c_21, c_25, c_30, c_51, c_68, c_69, c_70, action_at,
}
use pcon_tng.CmdFsm.State.{Cmd}
use pcon_tng.CmdFsm.Tokens.{token_type, tt_null, dequote, padstr}
use pcon_tng.CmdFsm.Channels.{
  set_working_channel, set_channel_name, set_mode, clear_sensor, set_sensor_id, set_hide,
  load_backup, save_backup,
}
use pcon_tng.CmdFsm.Schedules.{
  out_of_library, set_hour, set_minute, set_day, set_all_days, clear_template, load_channel,
  load_all_channels, replace_schedule, delete_template, save_template, load_template, record_state,
  record_temp, record_humid, delete_record,
}
use pcon_tng.CmdFsm.Sensors.{
  edit_sensor, s_load, find_sensor, loaded, copy_group, set_group, set_description, set_active,
  store_sensor, write_clock, group_name_size, description_name_size,
}
use pcon_tng.CmdFsm.Engine.{run_action, settle, dispatch, cmd_fsm, typed, row_of}

module _ {F : Type 0} where
  abbrev pub KeepsQueue : Cmd F → Cmd F → Type 0
  KeepsQueue s s' = s'.cmd_q ≡ s.cmd_q

  s_load-KeepsQueue : (id : ℤ) (s : Cmd F) → KeepsQueue s (s_load id s)
  unfolding s_load
  s_load-KeepsQueue id s = loaded-KeepsQueue (find_sensor s.ipc.s_dat id 0 number_of_sensors)
    where
      loaded-KeepsQueue : (o : Option ℕ) → KeepsQueue s (loaded id o s)
      loaded-KeepsQueue none = refl
      loaded-KeepsQueue (some i) = refl

  set_group-KeepsQueue : (s : Cmd F) → KeepsQueue s (set_group s).1
  unfolding set_group
  set_group-KeepsQueue s =
      if-elim {A = ℕ × Cmd F} (λ r. KeepsQueue s r.1)
        (ltb (group_name_size + 2) (length s.cb.token)) _ _ (λ _. refl)
        (λ _.
          copied (padstr (dequote s.cb.token) group_name_size)
            (record s { cb = record (s.cb) { token = dequote s.cb.token } }))
    where
      copied : (o : Option (List ℕ)) (s : Cmd F) → KeepsQueue s (copy_group o s).1
      copied none s = refl
      copied (some group) s = refl

  load_backup-KeepsQueue : (s : Cmd F) → KeepsQueue s (load_backup s).1
  unfolding load_backup
  load_backup-KeepsQueue s = go s.backup refl
    where
      go : (o : Option (IpcDat F)) → s.backup ≡ o → KeepsQueue s (load_backup s).1
      go none e = rw e refl
      go (some ipc) e = rw e refl

module _ {F : Type 0} ⦃fl : CFloat F⦄ (below : SRec F) where
  run_action-KeepsQueue : (a : Action) (s : Cmd F) → KeepsQueue s (run_action below a s).1
  unfolding run_action set_channel_name set_mode clear_sensor set_sensor_id set_hide save_backup
      set_hour set_minute set_day set_all_days clear_template load_channel load_all_channels
      replace_schedule delete_template save_template load_template record_state record_temp
      record_humid delete_record edit_sensor set_description set_active store_sensor write_clock
      set_working_channel
  run_action-KeepsQueue c_4 s =
      if-elim {A = ℕ × Cmd F} (λ r. KeepsQueue s r.1)
        (ltb_ℤ s.cb.token_value (pos number_of_channels)) _ _ (λ _. refl) (λ _. refl)
  run_action-KeepsQueue c_14 s =
      if-elim {A = ℕ × Cmd F} (λ r. KeepsQueue s r.1) (out_of_library s) _ _ (λ _. refl) (λ _. refl)
  run_action-KeepsQueue c_19 s = load_backup-KeepsQueue s
  run_action-KeepsQueue c_20 s =
      if-elim {A = ℕ × Cmd F} (λ r. KeepsQueue s r.1)
        (ltb_ℤ (pos 23) s.cb.token_value || ltb_ℤ s.cb.token_value (pos 0)) _ _ (λ _. refl)
        (λ _. refl)
  run_action-KeepsQueue c_21 s =
      if-elim {A = ℕ × Cmd F} (λ r. KeepsQueue s r.1)
        (ltb_ℤ (pos 59) s.cb.token_value || ltb_ℤ s.cb.token_value (pos 0)) _ _ (λ _. refl)
        (λ _. refl)
  run_action-KeepsQueue c_25 s =
      if-elim (λ s'. KeepsQueue s s') s.writable _ _ (λ _. refl) (λ _. refl)
  run_action-KeepsQueue c_30 s =
      if-elim {A = ℕ × Cmd F} (λ r. KeepsQueue s r.1)
        (ltb_ℤ (pos 0) s.cb.token_value && ltb_ℤ s.cb.token_value (pos (days_per_week + 1))) _ _
        (λ _. refl) (λ _. refl)
  run_action-KeepsQueue c_51 s =
      if-elim {A = ℕ × Cmd F} (λ r. KeepsQueue s r.1)
        (ltb max_templates (s.ipc.sys_data.tpl_index + 1)) _ _ (λ _. refl) (λ _. refl)
  run_action-KeepsQueue c_68 s =
      if-elim {A = ℕ × Cmd F} (λ r. KeepsQueue s r.1) (ltb_ℤ (pos 19) s.cb.token_value) _ _
        (λ _. refl) (λ _. s_load-KeepsQueue s.cb.token_value s)
  run_action-KeepsQueue c_69 s = set_group-KeepsQueue s
  run_action-KeepsQueue c_70 s =
      if-elim {A = ℕ × Cmd F} (λ r. KeepsQueue s r.1)
        (ltb (description_name_size + 2) (length s.cb.token)) _ _ (λ _. refl) (λ _. refl)
  run_action-KeepsQueue _ s = refl

  settle-queue :
      (index : ℕ) (r : ℕ × Cmd F)
      → ((settle index r).cmd_q ≡ r.1.cmd_q) ⊎ ((settle index r).cmd_q ≡ [])
  unfolding settle
  settle-queue index r =
      let P : Cmd F → Type 0 = λ s. (s.cmd_q ≡ r.1.cmd_q) ⊎ (s.cmd_q ≡ []) in
      if-elim P r.1.ended _ _ (λ _. inl refl)
        (λ _.
          if-elim P (r.0 == 0) _ _ (λ _. inl refl)
            (λ _.
              if-elim P (r.0 == 1) _ _ (λ _. inr refl)
                (λ _. if-elim P (r.0 == 2) _ _ (λ _. inl refl) (λ _. inl refl))))

  -- A command keeps the tokens that wait, or drops them all.
  pub cmd_fsm-queue :
      (s : Cmd F) → ((cmd_fsm below s).cmd_q ≡ s.cmd_q) ⊎ ((cmd_fsm below s).cmd_q ≡ [])
  unfolding cmd_fsm dispatch
  cmd_fsm-queue s =
      let index = row_of (token_type s.cb.token) in
      let r = run_action below (action_at index s.cb.state) (typed s) in
      if-elim {A = Cmd F} (λ s'. (s'.cmd_q ≡ s.cmd_q) ⊎ (s'.cmd_q ≡ []))
        (eq_ℤ (token_type s.cb.token) tt_null) _ _ (λ _. inl refl)
        (λ _. elim (settle-queue index r) [
          | inl same ↦ inl (same ∙ run_action-KeepsQueue (action_at index s.cb.state) (typed s))
          | inr gone ↦ inr gone
        ])
