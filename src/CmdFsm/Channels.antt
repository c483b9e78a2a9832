-- ===== src/CmdFsm/Channels.antt =====
-- BBB/lib-sources/cmd_fsm.c: the action routines on channels. A routine yields the value that it
-- returns, and the state after it.
use pcon_tng.Prelude.{ℕ, zero, suc, ℤ, pos, none, some, ltb_ℤ, if◌then◌else◌}
use pcon_tng.ListMaint.{add_elm, del_elm}
use pcon_tng.TypeDefs.{IpcDat, put, number_of_channels, number_of_sensors}
use pcon_tng.CmdFsm.State.{Cmd, set_channel, force}
use pcon_tng.CmdFsm.Tokens.{dequote}

module _ {F : Type 0} where
  unfoldable pub set_working_channel : Cmd F → ℕ × Cmd F
  set_working_channel s =
      if ltb_ℤ s.cb.token_value (pos number_of_channels)
      then (
        0,
        record s {
          cb = record (s.cb) { w_channel = s.cb.token_value; w_minutes = 0; w_hours = 0 };
        },
      )
      else (1, s)

  -- The name is copied into 20 bytes without a test of its length; a longer one is not modelled.
  unfoldable pub set_channel_name : Cmd F → ℕ × Cmd F
  set_channel_name s =
      let name = dequote s.cb.token in
      let s' = set_channel s (λ c. record c { name = name }) in
      (0, record s' { cb = record (s.cb) { token = name } })

  -- `c_9`, `c_10`, `c_11` and `c_12` differ in the mode and the state that they store.
  unfoldable pub set_mode : ℕ → ℕ → Cmd F → ℕ × Cmd F
  set_mode mode state s = (0, force (set_channel s (λ c. record c { mode = mode; state = state })))

  abbrev pub channel_on : Cmd F → ℕ × Cmd F
  channel_on = set_mode 0 1

  abbrev pub channel_off : Cmd F → ℕ × Cmd F
  channel_off = set_mode 0 0

  abbrev pub channel_time : Cmd F → ℕ × Cmd F
  channel_time = set_mode 1 0

  abbrev pub channel_sensor : Cmd F → ℕ × Cmd F
  channel_sensor = set_mode 2 0

  -- for (i = 0; i < _NUMBER_OF_SENSORS; i++) del_elm(…), with sizeof(channel) in bytes.
  unfoldable pub clear_channel : ℤ → ℕ → ℕ → IpcDat F → IpcDat F
  clear_channel w_channel i zero ipc = ipc
  clear_channel w_channel i (suc n) ipc =
      let r = del_elm (ipc.s_dat (pos i)).channel (ipc.s_dat (pos i)).channel_index w_channel 64 in
      clear_channel w_channel (suc i) n (record ipc {
        s_dat =
            put ipc.s_dat (pos i)
              (record (ipc.s_dat (pos i)) { channel = r.0; channel_index = r.1 });
      })

  unfoldable pub clear_sensor : Cmd F → ℕ × Cmd F
  clear_sensor s =
      let s' = set_channel s (λ c. record c { sensor_assigned = 0 }) in
      (0, force (record s' { ipc = clear_channel s.cb.w_channel 0 number_of_sensors s'.ipc }))

  -- add_elm on the sensor's channel list.
  abbrev list_channel : ℤ → ℤ → IpcDat F → IpcDat F
  list_channel sensor w_channel ipc =
      let d = ipc.s_dat sensor in
      let r = add_elm d.channel d.channel_index w_channel 64 in
      record ipc { s_dat = put ipc.s_dat sensor (record d { channel = r.0; channel_index = r.1 }) }

  unfoldable pub set_sensor_id : Cmd F → ℕ × Cmd F
  set_sensor_id s =
      let cleared = record s { ipc = clear_channel s.cb.w_channel 0 number_of_sensors s.ipc } in
      let s' =
        set_channel cleared (λ c. record c { sensor_id = s.cb.token_value; sensor_assigned = 1 }) in
      (0, force (record s' { ipc = list_channel s.cb.token_value s.cb.w_channel s'.ipc }))

  unfoldable pub set_hide : ℕ → Cmd F → ℕ × Cmd F
  set_hide hide s = (0, set_channel s (λ c. record c { hide = hide }))

  -- `c_19` with `ipc_load`, and `c_25` with `ipc_save`; both return 0 whatever happens.
  unfoldable pub load_backup : Cmd F → ℕ × Cmd F
  load_backup s = elim s.backup [ some ipc ↦ (0, record s { ipc = ipc }) | none ↦ (0, s) ]

  unfoldable pub save_backup : Cmd F → ℕ × Cmd F
  save_backup s = (0, if s.writable then record s { backup = some s.ipc } else s)
