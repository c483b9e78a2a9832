-- ===== src/CmdFsm/Edits.antt =====
-- The sensor edit buffer: what an edit that is saved does to the sensor's data, and names of nine
-- characters.
use pcon_tng.Prelude.{
  ℕ, ◌+◌, ◌≤◌, ◌≡◌, refl, ap, ◌∙◌, ℤ, pos, ◌≤ℤ◌, ltb_ℤ, ltb, some, true, false, arith, length,
}
use pcon_tng.TypeDefs.{SenDat, number_of_sensors, put}
use pcon_tng.CmdFsm.State.{Cmd}
use pcon_tng.CmdFsm.Tokens.{dequote}
use pcon_tng.CmdFsm.Types.{padstr_full}
use pcon_tng.CmdFsm.Sensors.{
  find_sensor, loaded, s_load, edit_sensor, store_sensor, set_group, group_name_size,
}

module _ {F : Type 0} (s : Cmd F) where
  abbrev pub stored : SenDat F
  stored = (store_sensor (edit_sensor s).1).1.ipc.s_dat s.cb.token_value

  edited :
      (i : ℕ)
      → s.cb.token_value ≤ℤ pos 19
      → find_sensor s.ipc.s_dat s.cb.token_value 0 number_of_sensors ≡ some i
      → edit_sensor s ≡ (0, loaded s.cb.token_value (some i) s)
  unfolding edit_sensor s_load
  edited i h found =
      let low : ltb_ℤ (pos 19) s.cb.token_value ≡ false = ground arith in rw (low, found) refl

  put_same : (f : ℤ → SenDat F) (id : ℤ) (d : SenDat F) → put f id d id ≡ d
  put_same f id d = ground arith

  stored_lem :
      (i : ℕ)
      → s.cb.token_value ≤ℤ pos 19
      → find_sensor s.ipc.s_dat s.cb.token_value 0 number_of_sensors ≡ some i
      → stored ≡ (loaded s.cb.token_value (some i) s).cb.w_sen_dat
  unfolding store_sensor
  stored_lem i h found =
      ap (λ r. (store_sensor r.1).1.ipc.s_dat s.cb.token_value) (edited i h found)
      ∙ put_same (loaded s.cb.token_value (some i) s).ipc.s_dat s.cb.token_value
          (loaded s.cb.token_value (some i) s).cb.w_sen_dat

  -- Editing a sensor that is known, under an id of at most 19, and saving the edit at once keeps
  -- its group, description and display, but replaces its temperature and its list of channels by
  -- those of the edit buffer.
  pub store_sensor-edit_sensor :
      (i : ℕ)
      → s.cb.token_value ≤ℤ pos 19
      → find_sensor s.ipc.s_dat s.cb.token_value 0 number_of_sensors ≡ some i
      → ((stored.group ≡ (s.ipc.s_dat (pos i)).group)
          × (stored.description ≡ (s.ipc.s_dat (pos i)).description)
          × (stored.active ≡ (s.ipc.s_dat (pos i)).active))
        × ((stored.channel_index ≡ s.cb.w_sen_dat.channel_index)
            × (stored.channel ≡ s.cb.w_sen_dat.channel)
            × (stored.temp ≡ s.cb.w_sen_dat.temp))
  store_sensor-edit_sensor i h found =
      let e = stored_lem i h found in
      (
        (ap (λ d. d.group) e, ap (λ d. d.description) e, ap (λ d. d.active) e),
        (ap (λ d. d.channel_index) e, ap (λ d. d.channel) e, ap (λ d. d.temp) e),
      )

  -- A group name of exactly nine characters, in a token that passes the test of its length, ends
  -- the process: `padstr` returns NULL for it.
  pub set_group-padstr :
      length s.cb.token ≤ group_name_size + 2
      → length (dequote s.cb.token) ≡ group_name_size
      → (set_group s).1.ended ≡ true
  unfolding set_group
  set_group-padstr h nine =
      let null = padstr_full (dequote s.cb.token) group_name_size (omega arith) nine in
      let room : ltb (group_name_size + 2) (length s.cb.token) ≡ false = ground arith in
      rw (room, null) refl
