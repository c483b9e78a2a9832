-- ===== src/OldDaemon/Tests.antt =====
-- The earlier daemon's theorems at a house where channels 8 and 10 are on, and all follow modes 0 to 2.
use pcon_tng.Prelude.{
  ℕ, ◌≡◌, ◌+◌, refl, ℤ, pos, negsuc, ◌++◌, arith, if◌then◌else◌, eq_ℤ, ◌||◌, true, false, [], ◌∷◌,
  ◌⊎◌,
}
use pcon_tng.Float.{whole}
use pcon_tng.TypeDefs.{IpcDat}
use pcon_tng.Daemon
use pcon_tng.Daemon.Tests.{house, channel_in_mode, noon}
use pcon_tng.OldDaemon
use pcon_tng.OldDaemon.{Pins, DaemonState, update_relays, main_round, bit_set}
use pcon_tng.OldDaemon.Board.{IsWired, sampled, shifted}
use pcon_tng.OldDaemon.Register.{Register, register}
use pcon_tng.OldDaemon.Start.{start}
use pcon_tng.OldDaemon.Service.{main_round-Reach}
use pcon_tng.OldDaemon.Wiring.{IsConnected}
use pcon_tng.OldDaemon.Log.{log_line}
use pcon_tng.SchPrint.{bytes}
use pcon_tng.OldDaemon.Served.{IsShown, earlier_start-IsServed}
use pcon_tng.OldDaemon.Channels.{update_relays-same_data}

abbrev cape : Pins
cape = record {
  din = 11;
  sclk = 12;
  latch = 13;
  header = λ i. 9;
  pin = λ i. i;
  led = λ i. 20 + i;
  cape = λ i. 30 + i;
}

cape-IsWired : IsWired cape
cape-IsWired = record {
  din_sclk = λ e. absurd (omega arith);
  latch_sclk = λ e. absurd (omega arith);
  latch_din = λ e. absurd (omega arith);
  relay_sclk = λ i. refl;
  relay_din = λ i. refl;
}

-- Channels 8 and 10 are held on, the others follow the time.
abbrev held_house : IpcDat ℤ
held_house = record house {
  force_update = 0;
  sys_data = record (house.sys_data) {
    c_data =
        λ i. if eq_ℤ i (pos 8) || eq_ℤ i (pos 10) then channel_in_mode 0 1 else channel_in_mode 0 0;
  };
}

abbrev started : DaemonState ℤ
started = record { ipc = held_house; hold = pos 0; tm = noon; h_min = 61; toggle = 0; writes = [] }

-- The house with all its schedules in force.
abbrev timed_house : IpcDat ℤ
timed_house = record house {
  sys_data = record (house.sys_data) { c_data = λ i. channel_in_mode 1 0 };
}

abbrev shown : ℕ
shown = shifted 0 (sampled cape true false (update_relays cape 7 255 noon (pos 0) held_house).2)

update_relays-same_data_example :
    ((OldDaemon.update_relays cape 7 0 noon (pos 0) timed_house).0
      ≡ (Daemon.update_relays 7 noon (pos 0) timed_house).0)
    × ((OldDaemon.update_relays cape 7 0 noon (pos 0) timed_house).1
        ≡ (Daemon.update_relays 7 noon (pos 0) timed_house).1)
update_relays-same_data_example =
    update_relays-same_data cape 7 0 noon (pos 0) timed_house (λ k. omega arith)

abbrev asked : DaemonState ℤ
asked =
    let s = main_round cape 7 0 noon started in
    record s { ipc = record (timed_house) { force_update = 1 } }

-- A forced update does not read the clock.
forced_clock : (main_round cape 7 0 (record noon { tm_min = 41 }) asked).tm.tm_min ≡ 40
unfolding main_round
forced_clock = refl

cape-IsConnected : IsConnected cape
cape-IsConnected = record {
  din_sclk = λ e. absurd (omega arith);
  latch_sclk = λ e. absurd (omega arith);
  latch_din = λ e. absurd (omega arith);
  relays = λ i j hi hj n. ground arith;
  relay_board = λ i h. refl;
  led_board = λ k h. ground arith;
  led_relay = λ i k h hk. refl;
  cape_board = λ k h. ground arith;
}

-- The board before anything is written to it, with its clock high.
abbrev fresh : Register
fresh = register false true false [] []

abbrev begun : DaemonState ℤ
begun = start (67 ∷ 68 ∷ []) cape held_house (pos 0) 61 0

earlier_start-IsServed_example :
    ((main_round cape 7 255 noon begun).ipc.force_update ≡ 1)
    ⊎ IsShown cape fresh (main_round cape 7 255 noon begun)
earlier_start-IsServed_example =
    earlier_start-IsServed cape fresh (67 ∷ 68 ∷ []) held_house (pos 0) 61 0
      {s = main_round cape 7 255 noon begun} cape-IsConnected refl
      (main_round-Reach cape 7 255 noon begun (omega arith))

-- Channel 12 is on at 65 degrees, with a target of -4.
logged_line : log_line 1 12 (pos 65) (negsuc 3) ≡ bytes "12, -4, 65,1" ++ 10 ∷ []
unfolding log_line
logged_line = refl
