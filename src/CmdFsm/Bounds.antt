-- ===== src/CmdFsm/Bounds.antt =====
-- BBB/lib-sources/cmd_fsm.c and s_load of BBB/lib-sources/smaint.c: where an action routine writes
-- inside the arrays of BBB/include/typedefs.h. The routines test little of this; a write outside lands
-- in other data of the program, so what is proved of it takes these tests as conditions.
use pcon_tng.Prelude.{
  ℕ, ◌+◌, ℤ, pos, ltb_ℤ, eq_ℤ, ltb, length, Option, none, some, Bool, true, not, ◌&&◌, ◌||◌,
}
use pcon_tng.TypeDefs.{
  SenDat, number_of_channels, number_of_sensors, days_per_week, max_templates, channel_name_size,
  template_name_size,
}
use pcon_tng.CmdFsm.Tables.{
  Action, c_5, c_9, c_10, c_11, c_12, c_18, c_20, c_21, c_29, c_31, c_49, c_51, c_61, c_68, c_69,
  c_70, c_73, c_75, c_76,
}
use pcon_tng.CmdFsm.State.{Cmd}
use pcon_tng.CmdFsm.Tokens.{dequote}
use pcon_tng.CmdFsm.Schedules.{all_channels, all_days, out_of_library}
use pcon_tng.CmdFsm.Sensors.{find_sensor, group_name_size, description_name_size}

-- An index of an array of `n`.
abbrev pub inside : ℤ → ℕ → Bool
inside i n = not (ltb_ℤ i (pos 0)) && ltb_ℤ i (pos n)

-- `char w_hours_str[4]` and `char w_minutes_str[4]`
abbrev time_text_size : ℕ
time_text_size = 4

-- An entry of the schedule table, or a whole row or column of it.
abbrev in_table : (w_channel w_day : ℤ) → Bool
in_table w_channel w_day =
    (eq_ℤ w_channel all_channels || inside w_channel number_of_channels)
    && (eq_ℤ w_day all_days || inside w_day days_per_week)

module _ {F : Type 0} where
  -- What strcpy copies from the sensor that is found.
  abbrev texts_fit : (ℤ → SenDat F) → Option ℕ → Bool
  texts_fit s_dat none = true
  texts_fit s_dat (some i) =
      ltb (length (s_dat (pos i)).group) group_name_size
      && ltb (length (s_dat (pos i)).description) description_name_size

  -- Where the routine writes, its arrays have room. What `padstr` makes of a group is nine
  -- characters, and `group` has no room for their NUL: only a group that is refused is left.
  unfoldable pub in_bounds : Action → Cmd F → Bool
  in_bounds c_5 s =
      inside s.cb.w_channel number_of_channels
      && ltb (length (dequote s.cb.token)) channel_name_size
  in_bounds c_9 s = inside s.cb.w_channel number_of_channels
  in_bounds c_10 s = inside s.cb.w_channel number_of_channels
  in_bounds c_11 s = inside s.cb.w_channel number_of_channels
  in_bounds c_12 s = inside s.cb.w_channel number_of_channels
  in_bounds c_18 s = inside s.cb.w_channel number_of_channels
  in_bounds c_20 s = not (inside s.cb.token_value 24) || ltb (length s.cb.token) time_text_size
  in_bounds c_21 s = not (inside s.cb.token_value 60) || ltb (length s.cb.token) time_text_size
  in_bounds c_29 s = in_table s.cb.token_value s.cb.w_day
  in_bounds c_31 s = in_table all_channels s.cb.w_day
  in_bounds c_49 s =
      inside s.cb.w_channel number_of_channels && inside s.cb.token_value number_of_sensors
  in_bounds c_51 s =
      ltb max_templates (s.ipc.sys_data.tpl_index + 1)
      || ltb (length (dequote s.cb.token)) template_name_size
  in_bounds c_61 s = not (out_of_library s)
  in_bounds c_68 s =
      not (ltb_ℤ s.cb.token_value (pos number_of_sensors))
      || texts_fit s.ipc.s_dat (find_sensor s.ipc.s_dat s.cb.token_value 0 number_of_sensors)
  in_bounds c_69 s = ltb (group_name_size + 2) (length s.cb.token)
  in_bounds c_70 s =
      ltb (description_name_size + 2) (length s.cb.token)
      || ltb (length (dequote s.cb.token)) description_name_size
  in_bounds c_73 s = inside s.cb.w_sen_dat.sensor_id number_of_sensors
  in_bounds c_75 s = inside s.cb.w_channel number_of_channels
  in_bounds c_76 s = inside s.cb.w_channel number_of_channels
  in_bounds _ s = true
