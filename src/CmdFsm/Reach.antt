-- ===== src/CmdFsm/Reach.antt =====
-- Which states of the command processor can be reached.
use pcon_tng.Prelude.{
  ℕ, ◌<◌, ◌≡◌, refl, sym, ap, subst, ◌∙◌, ◌⊎◌, ◌≢◌, eq_ℤ, List, [], ◌∷◌, Bool, true, false, not,
  ◌&&◌, ◌||◌, ◌==◌, arith, ltb, Bool-cases, if-elim, inl, inr, pos,
}
use pcon_tng.Prelude.Below.{all_below, all_below-at}
use pcon_tng.Float.{CFloat}
use pcon_tng.Sch.{SRec}
use pcon_tng.CmdFsm.Tables.{
  Action, c_4, c_7, c_8, c_18, c_49, c_14, c_19, c_20, c_21, c_25, c_30, c_51, c_68, c_69, c_70,
  action_at, new_state_at,
}
use pcon_tng.CmdFsm.State.{Cmd}
use pcon_tng.CmdFsm.Channels.{
  set_working_channel, set_channel_name, set_mode, clear_sensor, set_sensor_id, set_hide,
  load_backup, save_backup,
}
use pcon_tng.CmdFsm.Schedules.{
  set_hour, set_minute, set_day, set_all_days, clear_template, load_channel, load_all_channels,
  replace_schedule, delete_template, save_template, load_template, record_state, record_temp,
  record_humid, delete_record,
}
use pcon_tng.CmdFsm.Sensors.{
  edit_sensor, s_load, set_group, set_description, set_active, store_sensor, write_clock,
}
use pcon_tng.CmdFsm.Tokens.{token_type, tt_null}
use pcon_tng.CmdFsm.Types.{token_type_range}
use pcon_tng.CmdFsm.Engine.{run_action, settle, dispatch, cmd_fsm, run_tokens, row_of, typed}

module _ {F : Type 0} ⦃fl : CFloat F⦄ (below : SRec F) where
  pub run_action-state : (a : Action) (s : Cmd F) → (run_action below a s).1.cb.state ≡ s.cb.state
  unfolding run_action set_working_channel set_channel_name set_mode clear_sensor set_sensor_id
      set_hide load_backup save_backup set_hour set_minute set_day set_all_days clear_template
      load_channel load_all_channels replace_schedule delete_template save_template load_template
      record_state record_temp record_humid delete_record edit_sensor s_load set_group
      set_description set_active store_sensor write_clock
  run_action-state c_4 s = ground arith
  run_action-state c_14 s = ground arith
  run_action-state c_19 s = ground arith
  run_action-state c_20 s = ground arith
  run_action-state c_21 s = ground arith
  run_action-state c_25 s = ground arith
  run_action-state c_30 s = ground arith
  run_action-state c_51 s = ground arith
  run_action-state c_68 s = ground arith
  run_action-state c_69 s = ground arith
  run_action-state c_70 s = ground arith
  run_action-state _ s = refl

-- The states that can be reached from state 0: all but 21, 23, 28, 33 and 34.
abbrev pub reachable : ℕ → Bool
reachable s = ltb s 33 && not (s == 21 || s == 23 || s == 28)

abbrev pub refuses : Action → Bool
refuses c_7 = true
refuses c_8 = true
refuses _ = false

abbrev pub closed_at : ℕ → ℕ → Bool
closed_at index s =
    not (reachable s) || refuses (action_at index s) || reachable (new_state_at index s)

tables_closed : all_below 41 (λ index. all_below 35 (closed_at index)) ≡ true
unfolding all_below
tables_closed = refl

pub reachable_bound : (s : ℕ) → reachable s ≡ true → s < 35
reachable_bound s r = ground arith

closed : (index s : ℕ) → index < 41 → s < 35 → closed_at index s ≡ true
closed index s h l =
    all_below-at 35 (closed_at index)
      (all_below-at 41 (λ index. all_below 35 (closed_at index)) tables_closed index h) s l

new_state_reachable :
    (index s : ℕ)
    → index < 41
    → reachable s ≡ true
    → refuses (action_at index s) ≡ false
    → reachable (new_state_at index s) ≡ true
new_state_reachable index s h r q =
    step (reachable s) (refuses (action_at index s)) (reachable (new_state_at index s))
      (closed index s h (reachable_bound s r)) r q
  where
    step : (a b c : Bool) → (not a || b || c) ≡ true → a ≡ true → b ≡ false → c ≡ true
    step a b c h p q = ground arith

abbrev assigns : Action → Bool
assigns c_18 = true
assigns c_49 = true
assigns _ = false

abbrev unassigned_at : ℕ → ℕ → Bool
unassigned_at index s = not (reachable s) || not (assigns (action_at index s))

assigns_nowhere : all_below 41 (λ index. all_below 35 (unassigned_at index)) ≡ true
unfolding all_below
assigns_nowhere = refl

never_assigns :
    (index s : ℕ)
    → index < 41
    → reachable s ≡ true
    → (action_at index s ≢ c_49) × (action_at index s ≢ c_18)
never_assigns index s h r =
    let row =
      all_below-at 41 (λ index. all_below 35 (unassigned_at index)) assigns_nowhere index h in
    let here = all_below-at 35 (unassigned_at index) row s (reachable_bound s r) in
    let no = step (reachable s) (assigns (action_at index s)) here r in
    (λ e. clash c_49 e refl no, λ e. clash c_18 e refl no)
  where
    step : (a b : Bool) → (not a || not b) ≡ true → a ≡ true → b ≡ false
    step a b h p = ground arith

    clash :
        (a : Action)
        → action_at index s ≡ a
        → assigns a ≡ true
        → assigns (action_at index s) ≡ false
        → ⊥
    clash a e p q = let p' = ap assigns e ∙ p in ground arith

module _ {F : Type 0} ⦃fl : CFloat F⦄ (below : SRec F) where
  run_action-refuses : (a : Action) (s : Cmd F) → refuses a ≡ true → (run_action below a s).0 ≡ 1
  unfolding run_action
  run_action-refuses c_7 s h = refl
  run_action-refuses c_8 s h = refl
  run_action-refuses _ s h = absurd (ground arith)

  settle-state :
      (index : ℕ) (r : ℕ × Cmd F)
      → ((settle index r).cb.state ≡ r.1.cb.state)
        ⊎ ((r.0 ≡ 0) × ((settle index r).cb.state ≡ new_state_at index r.1.cb.state))
  unfolding settle
  settle-state index r = ground arith

  pub dispatch-reachable :
      (index : ℕ) (s : Cmd F)
      → index < 41
      → reachable s.cb.state ≡ true
      → reachable (dispatch below index s).cb.state ≡ true
  unfolding dispatch
  dispatch-reachable index s h r =
      let a = action_at index s.cb.state in
      let kept = run_action-state below a s in
      elim (settle-state index (run_action below a s)) [
        | inl same ↦ subst (λ n. reachable n ≡ true) (sym (same ∙ kept)) r
        | inr (done, moved) ↦
            let accepts : refuses a ≡ false = elim (Bool-cases (refuses a)) [
              | inl q ↦ let one = run_action-refuses a s q in absurd (omega arith)
              | inr q ↦ q
            ] in
            subst (λ n. reachable n ≡ true) (sym (moved ∙ ap (new_state_at index) kept))
              (new_state_reachable index s.cb.state h r accepts)
      ]

  -- One command keeps the processor within the reachable states.
  pub cmd_fsm-reachable :
      (s : Cmd F) → reachable s.cb.state ≡ true → reachable (cmd_fsm below s).cb.state ≡ true
  unfolding cmd_fsm
  cmd_fsm-reachable s r =
      if-elim (λ s'. reachable s'.cb.state ≡ true) (eq_ℤ (token_type s.cb.token) tt_null)
        (record s { cb = record (s.cb) { token_type = token_type s.cb.token } })
        (dispatch below (row_of (token_type s.cb.token)) (typed s)) (λ _. r)
        (λ word.
          dispatch-reachable (row_of (token_type s.cb.token)) (typed s) (row_bound s.cb.token word)
            r)
    where
      row_word : (i : ℕ) → i < 41 → row_of (pos i) < 41
      row_word i l = ground arith

      row_bound : (c : List ℕ) → eq_ℤ (token_type c) tt_null ≡ false → row_of (token_type c) < 41
      row_bound c word = elim (token_type_range c) [
        | inl e ↦ absurd (ground arith)
        | inr (inl e) ↦ rw e (omega arith)
        | inr (inr (inl e)) ↦ rw e (omega arith)
        | inr (inr (inr (inl e))) ↦ rw e (omega arith)
        | inr (inr (inr (inr (i, e, l)))) ↦ rw e (row_word i l)
      ]

  -- Whatever is typed from a reachable state on, the processor stays within the reachable states.
  pub run_tokens-reachable :
      (ts : List (List ℕ)) (s : Cmd F)
      → reachable s.cb.state ≡ true
      → reachable (run_tokens below ts s).cb.state ≡ true
  unfolding run_tokens
  run_tokens-reachable [] s r = r
  run_tokens-reachable (t ∷ ts) s r =
      let s' : Cmd F = record s { cb = record (s.cb) { token = t } } in
      if-elim (λ s. reachable s.cb.state ≡ true) s.ended s (run_tokens below ts (cmd_fsm below s'))
        (λ _. r) (λ _. run_tokens-reachable ts (cmd_fsm below s') (cmd_fsm-reachable s' r))

  -- From state 0 no sequence of tokens, whatever the data, leads to a state in which a token calls
  -- `c_49`, which assigns a sensor to a channel, or `c_18`, which clears the assignment.
  pub sensor_assignment_unreachable :
      (ts : List (List ℕ)) (s : Cmd F) (index : ℕ)
      → s.cb.state ≡ 0
      → index < 41
      → (action_at index (run_tokens below ts s).cb.state ≢ c_49)
        × (action_at index (run_tokens below ts s).cb.state ≢ c_18)
  sensor_assignment_unreachable ts s index start h =
      let r = run_tokens-reachable ts s (subst (λ n. reachable n ≡ true) (sym start) refl) in
      never_assigns index (run_tokens below ts s).cb.state h r
