-- ===== src/Daemon/Tests.antt =====
-- The daemon's theorems at a shared memory with one channel in each mode.
use pcon_tng.Prelude.{true, ℕ, ◌≡◌, refl, some, none, [], arith, ℤ, pos, if◌then◌else◌, ltb, eq_ℤ}
use pcon_tng.Float.{whole}
use pcon_tng.Sch.Time.{in_force}
use pcon_tng.Sch.Tests.{day_plan, day_plan-IsValid}
use pcon_tng.TypeDefs.{ChnDat, SenDat, IpcDat, Tm}
use pcon_tng.Daemon.{DaemonState, update_relays, set_state, run_update}
use pcon_tng.Daemon.Relays.{chn, decided, update_relays-decided, time_channel-in_force}
use pcon_tng.Daemon.Start.{start, start-IsServed}
use pcon_tng.Daemon.Requests.{
  head, forced, World, at, cleared, requested, Reach, here, later, request, see_flag, clear_flag,
  forced_update, IsServed,
}
use pcon_tng.Daemon.Pins.{level, bit, update_relays-level}

abbrev pub channel_in_mode : ℕ → ℕ → ChnDat
channel_in_mode mode state = record {
  time_on = 0;
  on_sec = 0;
  off_sec = 0;
  mode = mode;
  state = state;
  sensor_id = pos 4;
  sensor_assigned = 1;
  name = [];
  hide = 0;
}

abbrev pub cold_sensor : SenDat ℤ
cold_sensor = record {
  sensor_id = pos 4;
  group_id = pos 0;
  active = 1;
  group = [];
  description = [];
  channel = λ i. pos 0;
  channel_index = 0;
  temp = pos 40;
  humidity = pos 30;
  ts = 0;
}

-- Channel 0 is manual, 1 follows the time, 2 a sensor, and the others are in a bad mode.
abbrev pub house : IpcDat ℤ
house = record {
  force_update = 1;
  sys_data = record {
    config = record {
      major_version = 1;
      minor_version = 2;
      minor_revision = 0;
      channels = 16;
      sensors = 20;
      commands = 41;
      states = 35;
    };
    sys_sch = λ d c. day_plan;
    c_data = λ c.
        if eq_ℤ c (pos 0)
        then channel_in_mode 0 1
        else if eq_ℤ c (pos 1)
        then channel_in_mode 1 0
        else if eq_ℤ c (pos 2)
        then channel_in_mode 2 0
        else channel_in_mode 3 0;
    tpl_lib = λ i. day_plan;
    tpl_index = 0;
  };
  s_dat = λ s. cold_sensor;
}

-- 11:40 on a Monday.
abbrev pub noon : Tm
noon = record {
  tm_sec = 0;
  tm_min = 40;
  tm_hour = 11;
  tm_mday = 2;
  tm_mon = 1;
  tm_year = 2020;
  tm_wday = 1;
}

update_relays-decided_example :
    (chn (update_relays 0 noon (pos 50) house).0 2 ≡ (
      if ltb 2 16
      then record (chn house 2) { state = (decided house noon 0 (pos 50) 3).0 }
      else chn house 2))
    × ((update_relays 0 noon (pos 50) house).1 ≡ (decided house noon 0 (pos 50) 16).1)
update_relays-decided_example = update_relays-decided house noon 0 (pos 50) 2

time_channel-in_force_example :
    (chn (update_relays 0 noon (pos 50) house).0 1).state
    ≡ (day_plan.rec (in_force day_plan 700)).state
time_channel-in_force_example =
    time_channel-in_force house noon 0 (pos 50) 1 (omega arith) refl day_plan-IsValid (omega arith)

update_relays-level_example :
    level (update_relays 0 noon (pos 50) house).2 86 none
    ≡ some (bit (chn (update_relays 0 noon (pos 50) house).0 12).state)
update_relays-level_example = update_relays-level 0 noon (pos 50) house none 0 (omega arith)

abbrev pub started : DaemonState ℤ
started = record { ipc = house; hold = pos 50; h_min = 0; toggle = 0; writes = [] }

-- The same house with each channel off, and the daemon's loop with a request between its steps.
abbrev pub dark : IpcDat ℤ
dark = record house { sys_data = record (house.sys_data) { c_data = λ c. channel_in_mode 0 0 } }

abbrev first_on : IpcDat ℤ → IpcDat ℤ
first_on ipc = set_state ipc 1 1

abbrev fresh : DaemonState ℤ
fresh = start true dark (pos 50) 0 0

abbrev later_on : World ℤ
later_on = at head (run_update 0 noon (cleared (requested first_on (requested first_on fresh))))

asked_twice : Reach (at head fresh) later_on
asked_twice =
    later
      (later
        (later
          (later (later here (request first_on head fresh))
            (see_flag (requested first_on fresh) refl))
          (request first_on forced (requested first_on fresh)))
        (clear_flag (requested first_on (requested first_on fresh))))
      (forced_update 0 noon (cleared (requested first_on (requested first_on fresh))))

start-IsServed_example : IsServed later_on
start-IsServed_example = start-IsServed true dark (pos 50) 0 0 (λ j. refl) asked_twice
