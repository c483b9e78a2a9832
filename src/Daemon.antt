-- ===== src/Daemon.antt =====
-- BBB/daemon/Dcon.c: the daemon that drives the relays.
-- Logging and the busy waits after a channel is on change no data and are left out. The shell
-- commands that write gpio pins are the list of writes, in order; locks are taken around the whole
-- update, which is one step of the model.
pub mod Relays
pub mod Pins
pub mod Loop
pub mod Requests
pub mod Start
pub mod Tests
use pcon_tng.Prelude.{
  ℕ, zero, suc, ◌+◌, ◌*◌, ℤ, pos, List, [], ◌∷◌, ◌++◌, ◌==◌, if◌then◌else◌, not, get_or,
}
use pcon_tng.Float.{CFloat}
use pcon_tng.Sch.{TmplDat, test_sch_time, test_sch_sensor}
use pcon_tng.TypeDefs.{ChnDat, SenDat, SysDat, IpcDat, Tm, STab, put, number_of_channels}

-- The gpio numbers of `chan`, and of the heart beat leds, from shared.h.
abbrev pub chan : List ℕ
chan = 86 ∷ 88 ∷ 87 ∷ 89 ∷ 10 ∷ 11 ∷ 9 ∷ 81 ∷ 8 ∷ 80 ∷ 78 ∷ 79 ∷ 86 ∷ 77 ∷ 74 ∷ 75 ∷ []

abbrev pub heart : List ℕ
heart = 66 ∷ 67 ∷ 69 ∷ 68 ∷ []

abbrev pub chan_gpio : ℕ → ℕ
chan_gpio i = get_or chan i 0

-- What is written to a gpio's value file.
pub record Write : Type 0 where
  pub gpio : ℕ
  pub value : ℕ

module _ {F : Type 0} ⦃fl : CFloat F⦄ where
  -- The `switch` on the mode: the value of `state` after it, and of the slab controller's `hold`.
  -- A mode of 3 or more leaves `state` as it was.
  unfoldable pub channel_state : IpcDat F → Tm → ℕ → (state : ℕ) (hold : ℤ) → ℕ × ℤ
  channel_state ipc tm channel state hold =
      let c = ipc.sys_data.c_data (pos channel) in
      let key = tm.tm_hour * 60 + tm.tm_min in
      let sch = ipc.sys_data.sys_sch (pos tm.tm_wday) (pos channel) in
      if c.mode == 0
      then (c.state, hold)
      else if c.mode == 1
      then (test_sch_time key sch, hold)
      else if c.mode == 2
      then test_sch_sensor hold key sch (fl.to_int (ipc.s_dat c.sensor_id).temp)
      else (state, hold)

  -- ipc_ptr->sys_data.c_data[channel].state = state
  abbrev pub set_state : IpcDat F → ℕ → ℕ → IpcDat F
  set_state ipc channel state =
      let c_data = ipc.sys_data.c_data in
      record ipc {
        sys_data = record (ipc.sys_data) {
          c_data = put c_data (pos channel) (record (c_data (pos channel)) { state = state });
        };
      }

  -- The first loop, from `channel` with `n` rounds left.
  unfoldable pub update_channels : Tm → ℕ → ℕ → (state : ℕ) (hold : ℤ) → IpcDat F → IpcDat F × ℤ
  update_channels tm channel zero state hold ipc = (ipc, hold)
  update_channels tm channel (suc n) state hold ipc =
      let r = channel_state ipc tm channel state hold in
      update_channels tm (suc channel) n r.0 r.1 (set_state ipc channel r.0)

  -- The second loop.
  pub pin_writes : IpcDat F → ℕ → ℕ → List Write
  pin_writes ipc channel zero = []
  pin_writes ipc channel (suc n) =
      record {
        gpio = chan_gpio channel;
        value = if (ipc.sys_data.c_data (pos channel)).state == 0 then 0 else 1;
      }
      ∷ pin_writes ipc (suc channel) n

  -- `update_relays`, where `stray` is what the uninitialised `state` holds on entry.
  unfoldable pub update_relays : ℕ → Tm → ℤ → IpcDat F → IpcDat F × ℤ × List Write
  update_relays stray tm hold ipc =
      let r = update_channels tm 0 number_of_channels stray hold ipc in
      (r.0, r.1, pin_writes r.0 0 number_of_channels)

-- What the main loop keeps between rounds, and the writes that it has made.
pub record DaemonState (F : Type 0) : Type 0 where
  pub ipc : IpcDat F
  pub hold : ℤ
  pub h_min : ℕ
  pub toggle : ℕ
  pub writes : List Write

abbrev pub beat : ℕ → ℕ → List Write
beat even odd =
    record { gpio = get_or heart 0 0; value = even }
    ∷ record { gpio = get_or heart 1 0; value = odd }
    ∷ record { gpio = get_or heart 2 0; value = even }
    ∷ record { gpio = get_or heart 3 0; value = odd }
    ∷ []

module _ {F : Type 0} ⦃fl : CFloat F⦄ where
  abbrev pub run_update : ℕ → Tm → DaemonState F → DaemonState F
  run_update stray t s =
      let r = update_relays stray t s.hold s.ipc in
      record s { ipc = r.0; hold = r.1; writes = s.writes ++ r.2 }

  -- One round of `while (1)`, at the time `t`.
  unfoldable pub main_round : ℕ → Tm → DaemonState F → DaemonState F
  main_round stray t s =
      if s.ipc.force_update == 1
      then run_update stray t (record s { ipc = record (s.ipc) { force_update = 0 } })
      else if not (s.h_min == t.tm_min)
      then run_update stray t (record s { h_min = t.tm_min })
      else if not (s.toggle == 0)
      then record s { toggle = 0; writes = s.writes ++ beat 1 0 }
      else record s { toggle = 1; writes = s.writes ++ beat 0 1 }
