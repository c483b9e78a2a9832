-- ===== src/CmdFsm/Schedules.antt =====
-- BBB/lib-sources/cmd_fsm.c: the action routines on schedules and on the template library, and
-- `load_wsch` of BBB/lib-sources/sch.c.
use pcon_tng.Prelude.{
  ℕ, zero, suc, ◌+◌, ◌-◌, ℤ, pos, negsuc, ◌-ℤ◌, pos_part, ltb_ℤ, eq_ℤ, ltb, Bool, ◌&&◌, ◌||◌,
  if◌then◌else◌,
}
use pcon_tng.Float.{CFloat}
use pcon_tng.Sch.{SRec, TmplDat, find_tmpl_key, add_tmpl_rec, del_tmpl_rec}
use pcon_tng.TypeDefs.{STab, put, number_of_channels, days_per_week, max_templates}
use pcon_tng.CmdFsm.State.{Cmd, set_template, force}
use pcon_tng.CmdFsm.Tokens.{dequote}

abbrev pub all_channels : ℤ
all_channels = pos 99

abbrev pub all_days : ℤ
all_days = pos 99

module _ {F : Type 0} where
  -- `c_20` and `c_21`. The copy of the token is `strcpy` into four bytes without a test of its
  -- length: a longer token, such as 00007, overruns them, which is not modelled.
  unfoldable pub set_hour : Cmd F → ℕ × Cmd F
  set_hour s =
      if ltb_ℤ (pos 23) s.cb.token_value || ltb_ℤ s.cb.token_value (pos 0) then (1, s) else (
        0,
        record s {
          cb = record (s.cb) { w_hours = pos_part s.cb.token_value; w_hours_str = s.cb.token };
        },
      )

  unfoldable pub set_minute : Cmd F → ℕ × Cmd F
  set_minute s =
      if ltb_ℤ (pos 59) s.cb.token_value || ltb_ℤ s.cb.token_value (pos 0) then (1, s) else (
        0,
        record s {
          cb = record (s.cb) { w_minutes = pos_part s.cb.token_value; w_minutes_str = s.cb.token };
        },
      )

  unfoldable pub set_day : Cmd F → ℕ × Cmd F
  set_day s =
      if ltb_ℤ (pos 0) s.cb.token_value && ltb_ℤ s.cb.token_value (pos (days_per_week + 1))
      then (0, record s { cb = record (s.cb) { w_day = s.cb.token_value -ℤ pos 1 } })
      else (1, s)

  unfoldable pub set_all_days : Cmd F → ℕ × Cmd F
  set_all_days s = (0, record s { cb = record (s.cb) { w_day = all_days } })

  unfoldable pub clear_template : Cmd F → ℕ × Cmd F
  clear_template s = (0, set_template s (record (s.cb.w_template_buffer) { rcnt = 0 }))

  -- The loops over the channels and the days; `put_cell` is sch[d][c] = w_template_buffer.
  abbrev pub put_cell : STab F → ℤ → ℤ → TmplDat F → STab F
  put_cell sch d c t = put sch d (put (sch d) c t)

  unfoldable pub fill_channels : TmplDat F → ℤ → ℕ → ℕ → STab F → STab F
  fill_channels t d c zero sch = sch
  fill_channels t d c (suc n) sch = fill_channels t d (suc c) n (put_cell sch d (pos c) t)

  unfoldable pub fill_days : TmplDat F → ℤ → ℕ → ℕ → STab F → STab F
  fill_days t c d zero sch = sch
  fill_days t c d (suc n) sch = fill_days t c (suc d) n (put_cell sch (pos d) c t)

  unfoldable pub fill_all : TmplDat F → ℕ → ℕ → STab F → STab F
  fill_all t d zero sch = sch
  fill_all t d (suc n) sch = fill_all t (suc d) n (fill_channels t (pos d) 0 number_of_channels sch)

  unfoldable pub load_wsch : TmplDat F → (w_channel w_day : ℤ) → STab F → STab F
  load_wsch t w_channel w_day sch =
      if eq_ℤ w_channel all_channels
      then (if eq_ℤ w_day all_days
          then fill_all t 0 days_per_week sch
          else fill_channels t w_day 0 number_of_channels sch)
      else if eq_ℤ w_day all_days
      then fill_days t w_channel 0 days_per_week sch
      else put_cell sch w_day w_channel t

  -- load_wsch(cb), once the working channel is set.
  abbrev pub load_schedule : ℤ → Cmd F → Cmd F
  load_schedule w_channel s = record s {
    cb = record (s.cb) {
      w_channel = w_channel;
      w_sch = load_wsch s.cb.w_template_buffer w_channel s.cb.w_day s.cb.w_sch;
    };
  }

  unfoldable pub load_channel : Cmd F → ℕ × Cmd F
  load_channel s = (0, load_schedule s.cb.token_value s)

  unfoldable pub load_all_channels : Cmd F → ℕ × Cmd F
  load_all_channels s = (0, load_schedule all_channels s)

  unfoldable pub replace_schedule : Cmd F → ℕ × Cmd F
  replace_schedule s = (
    0,
    force (record s {
      ipc = record (s.ipc) { sys_data = record (s.ipc.sys_data) { sys_sch = s.cb.w_sch } };
    }),
  )

  abbrev pub set_library : Cmd F → (ℤ → TmplDat F) → ℕ → Cmd F
  set_library s lib index = record s {
    ipc = record (s.ipc) {
      sys_data = record (s.ipc.sys_data) { tpl_lib = lib; tpl_index = index };
    };
  }

  -- The test of a template number against the library.
  abbrev pub out_of_library : Cmd F → Bool
  out_of_library s =
      ltb_ℤ s.cb.token_value (pos 0)
      || ltb_ℤ (pos s.ipc.sys_data.tpl_index -ℤ pos 1) s.cb.token_value

  -- for (i = token_value; i < tpl_index - 1; i++) tpl_lib[i] = tpl_lib[i + 1]
  unfoldable pub shift_library : (ℤ → TmplDat F) → ℕ → ℕ → ℤ → TmplDat F
  shift_library lib i zero = lib
  shift_library lib i (suc n) = shift_library (put lib (pos i) (lib (pos (suc i)))) (suc i) n

  unfoldable pub delete_template : Cmd F → ℕ × Cmd F
  delete_template s =
      let i = pos_part s.cb.token_value in
      let index = s.ipc.sys_data.tpl_index in
      if out_of_library s
      then (1, s)
      else (0, set_library s (shift_library s.ipc.sys_data.tpl_lib i (index - 1 - i)) (index - 1))

  -- The name is copied by `strcpy` into 40 bytes without a test of its length: a longer one runs over
  -- the count of the template's records, which is not modelled.
  unfoldable pub save_template : Cmd F → ℕ × Cmd F
  unfolding clear_template
  save_template s =
      let index = s.ipc.sys_data.tpl_index in
      let name = dequote s.cb.token in
      if ltb max_templates (index + 1)
      then (0, s)
      else clear_template (
          set_library (record s { cb = record (s.cb) { token = name } })
            (put s.ipc.sys_data.tpl_lib (pos index)
              (record (s.cb.w_template_buffer) { name = name }))
            (index + 1))

  -- The range test only prints a message.
  unfoldable pub load_template : Cmd F → ℕ × Cmd F
  load_template s = (0, set_template s (s.ipc.sys_data.tpl_lib s.cb.token_value))

-- The routines that edit the template buffer. `below` is what the memory in front of its records
-- reads as.
module _ {F : Type 0} ⦃fl : CFloat F⦄ (below : SRec F) where
  -- `hold` after the search for the working time's record.
  abbrev pub held : Cmd F → SRec F
  held s = elim (find_tmpl_key s.cb.w_template_buffer s.cb.w_hours s.cb.w_minutes) [
    | pos i ↦ s.cb.w_template_buffer.rec i
    | negsuc _ ↦ record { key = 0; state = 0; temp = fl.of_int (pos 0); humid = fl.of_int (pos 0) }
  ]

  abbrev pub add_at : Cmd F → ℕ → ℤ → ℤ → ℕ × Cmd F
  add_at s state temp humid = (
    0,
    set_template s
        (add_tmpl_rec below s.cb.w_template_buffer s.cb.w_hours s.cb.w_minutes state temp humid).1,
  )

  -- `c_22` and `c_23` differ in the state.
  unfoldable pub record_state : ℕ → Cmd F → ℕ × Cmd F
  record_state state s = add_at s state (fl.to_int (held s).temp) (fl.to_int (held s).humid)

  unfoldable pub record_temp : Cmd F → ℕ × Cmd F
  record_temp s = add_at s (held s).state s.cb.token_value (fl.to_int (held s).humid)

  unfoldable pub record_humid : Cmd F → ℕ × Cmd F
  record_humid s = add_at s (held s).state (fl.to_int (held s).temp) s.cb.token_value

module _ {F : Type 0} where
  unfoldable pub delete_record : Cmd F → ℕ × Cmd F
  delete_record s =
      (0, set_template s (del_tmpl_rec s.cb.w_template_buffer s.cb.w_hours s.cb.w_minutes).1)
