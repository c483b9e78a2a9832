-- ===== src/OldDaemon/Service.antt =====
-- The main loop of BBB/old daemon/Dcon.c from its start on, beside the processes that change shared
-- memory and ask for an update: the loop's steps and theirs in any order. Each step is what stands
-- under one lock, or an access without it.
use pcon_tng.Prelude.{ℕ, ◌<◌, ◌≡◌, ◌≢◌, inl, inr, ◌==◌, arith, Bool-cases}
use pcon_tng.Float.{CFloat}
use pcon_tng.TypeDefs.{IpcDat, Tm}
use pcon_tng.Daemon.Requests.{Leaves}
use pcon_tng.OldDaemon.{Pins, DaemonState, run_update, cycle_leds, main_round}

-- Where the loop stands: at its head, behind the test of the flag, behind the line that clears it,
-- behind the test of the minute, and in front of the leds.
pub data Stage : Type 0 where
  head : Stage
  forced : Stage
  clear : Stage
  minute : Stage
  leds : Stage

pub record Moment (F : Type 0) : Type 0 where
  pub place : Stage
  pub daemon : DaemonState F

module _ {F : Type 0} where
  abbrev pub moment : Stage → DaemonState F → Moment F
  moment place s = record { place = place; daemon = s }

  -- A change of shared memory by a command, with its request.
  abbrev pub with_request : (IpcDat F → IpcDat F) → DaemonState F → DaemonState F
  with_request edit s = record s { ipc = record (edit s.ipc) { force_update = 1 } }

  -- ipc_ptr->force_update = 0
  abbrev pub without_request : DaemonState F → DaemonState F
  without_request s = record s { ipc = record (s.ipc) { force_update = 0 } }

module _ {F : Type 0} ⦃fl : CFloat F⦄ (p : Pins) where
  pub data Turn : Moment F → Moment F → Type 0 where
    request :
        (edit : IpcDat F → IpcDat F) (place : Stage) (s : DaemonState F)
        → Turn (moment place s) (moment place (with_request edit s))
    report :
        (ipc : IpcDat F) (place : Stage) (s : DaemonState F)
        → Leaves s.ipc ipc
        → Turn (moment place s) (moment place (record s { ipc = ipc }))
    see_flag : (s : DaemonState F) → s.ipc.force_update ≡ 1 → Turn (moment head s) (moment forced s)
    clear_flag : (s : DaemonState F) → Turn (moment forced s) (moment clear (without_request s))
    forced_update :
        (stray ccb : ℕ) (s : DaemonState F)
        → ccb < 256
        → Turn (moment clear s) (moment leds (run_update p stray ccb s))
    see_minute :
        (t : Tm) (s : DaemonState F)
        → s.ipc.force_update ≢ 1
        → s.h_min ≢ t.tm_min
        → Turn (moment head s) (moment minute (record s { tm = t; h_min = t.tm_min }))
    minute_update :
        (stray ccb : ℕ) (s : DaemonState F)
        → ccb < 256
        → Turn (moment minute s) (moment leds (run_update p stray ccb s))
    same_minute :
        (t : Tm) (s : DaemonState F)
        → s.ipc.force_update ≢ 1
        → s.h_min ≡ t.tm_min
        → Turn (moment head s) (moment leds (record s { tm = t }))
    show_leds : (s : DaemonState F) → Turn (moment leds s) (moment head (cycle_leds p s))

  pub data Reach (m : Moment F) : Moment F → Type 0 where
    here : Reach m m
    later : {u v : Moment F} → Reach m u → Turn u v → Reach m v

  -- A round of the main loop that nothing comes between is one of these sequences of turns.
  pub main_round-Reach :
      (stray ccb : ℕ) (t : Tm) (s : DaemonState F)
      → ccb < 256
      → Reach (moment head s) (moment head (main_round p stray ccb t s))
  unfolding main_round
  main_round-Reach stray ccb t s h = elim (Bool-cases (s.ipc.force_update == 1)) [
    | inl asked ↦
        let cleared = without_request s in
        rw asked (
          later
            (later (later (later here (see_flag s (ground arith))) (clear_flag s))
              (forced_update stray ccb cleared h))
            (show_leds (run_update p stray ccb cleared)))
    | inr free ↦ elim (Bool-cases (s.h_min == t.tm_min)) [
      | inl same ↦
          rw (free, same)
            (later (later here (same_minute t s (ground arith) (ground arith)))
              (show_leds (record s { tm = t })))
      | inr other ↦
          let seen = record s { tm = t; h_min = t.tm_min } in
          rw (free, other)
            (later
              (later (later here (see_minute t s (ground arith) (ground arith)))
                (minute_update stray ccb seen h))
              (show_leds (run_update p stray ccb seen)))
    ]
  ]
