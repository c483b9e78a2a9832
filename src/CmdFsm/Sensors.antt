-- ===== src/CmdFsm/Sensors.antt =====
-- BBB/lib-sources/cmd_fsm.c: the action routines on sensors and on the clock, with `s_load` of
-- BBB/lib-sources/smaint.c.
use pcon_tng.Prelude.{
  ℕ, zero, suc, ◌+◌, ◌-◌, ℤ, pos, ltb_ℤ, eq_ℤ, Option, none, some, List, [], true, ltb, length,
  if◌then◌else◌,
}
use pcon_tng.TypeDefs.{SenDat, put, number_of_sensors}
use pcon_tng.Clock.{ClockTm, set_tm}
use pcon_tng.CmdFsm.State.{Cmd}
use pcon_tng.CmdFsm.Tokens.{dequote, padstr}

abbrev pub group_name_size : ℕ
group_name_size = 9

abbrev pub description_name_size : ℕ
description_name_size = 128

module _ {F : Type 0} where
  -- for (i = 0; i < _NUMBER_OF_SENSORS; i++) if (s_dat[i].sensor_id == id) …
  unfoldable pub find_sensor : (ℤ → SenDat F) → ℤ → ℕ → ℕ → Option ℕ
  find_sensor s_dat id i zero = none
  find_sensor s_dat id i (suc n) =
      let rest = find_sensor s_dat id (suc i) n in
      if eq_ℤ (s_dat (pos i)).sensor_id id then some i else rest

  abbrev pub set_sensor : Cmd F → SenDat F → Cmd F
  set_sensor s d = record s { cb = record (s.cb) { w_sen_dat = d } }

  -- The edit buffer once the search is done.
  abbrev pub loaded : ℤ → Option ℕ → Cmd F → Cmd F
  loaded id (some i) s = set_sensor s (record (s.cb.w_sen_dat) {
    sensor_id = id;
    group = (s.ipc.s_dat (pos i)).group;
    description = (s.ipc.s_dat (pos i)).description;
    active = (s.ipc.s_dat (pos i)).active;
  })
  loaded id none s =
      set_sensor s
        (record (s.cb.w_sen_dat) { sensor_id = id; group = []; description = []; active = 0 })

  unfoldable pub s_load : ℤ → Cmd F → Cmd F
  s_load id s = loaded id (find_sensor s.ipc.s_dat id 0 number_of_sensors) s

  unfoldable pub edit_sensor : Cmd F → ℕ × Cmd F
  edit_sensor s =
      if ltb_ℤ (pos (number_of_sensors - 1)) s.cb.token_value
      then (2, s)
      else (0, s_load s.cb.token_value s)

  -- strcpy(group, …), where copying from NULL ends the process.
  abbrev pub copy_group : Option (List ℕ) → Cmd F → ℕ × Cmd F
  copy_group (some group) s = (0, set_sensor s (record (s.cb.w_sen_dat) { group = group }))
  copy_group none s = (0, record s { ended = true })

  unfoldable pub set_group : Cmd F → ℕ × Cmd F
  set_group s =
      let name = dequote s.cb.token in
      if ltb (group_name_size + 2) (length s.cb.token)
      then (2, s)
      else copy_group (padstr name group_name_size)
          (record s { cb = record (s.cb) { token = name } })

  unfoldable pub set_description : Cmd F → ℕ × Cmd F
  set_description s =
      let name = dequote s.cb.token in
      if ltb (description_name_size + 2) (length s.cb.token) then (2, s) else (
        0,
        set_sensor (record s { cb = record (s.cb) { token = name } })
            (record (s.cb.w_sen_dat) { description = name }),
      )

  -- `c_71` and `c_72`
  unfoldable pub set_active : ℕ → Cmd F → ℕ × Cmd F
  set_active active s = (0, set_sensor s (record (s.cb.w_sen_dat) { active = active }))

  unfoldable pub store_sensor : Cmd F → ℕ × Cmd F
  store_sensor s = (
    0,
    record s {
      ipc = record (s.ipc) { s_dat = put s.ipc.s_dat s.cb.w_sen_dat.sensor_id s.cb.w_sen_dat };
    },
  )

  -- `c_41` to `c_47` each store the token's value in one field.
  abbrev pub set_clock : (ℤ → ClockTm → ClockTm) → Cmd F → ℕ × Cmd F
  set_clock f s = (0, record s { tm = f s.cb.token_value s.tm })

  unfoldable pub write_clock : Cmd F → ℕ × Cmd F
  write_clock s = (0, record s { rtc = set_tm s.tm })
