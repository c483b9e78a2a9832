-- ===== src/Daemon/Requests.antt =====
-- The main loop of BBB/daemon/Dcon.c beside the processes that change shared memory and ask for an
-- update: the loop's steps and theirs in any order. Each step is what stands under one lock, or a
-- read without it.
use pcon_tng.Prelude.{
  ℕ, ◌≡◌, ◌≢◌, ◌<◌, ◌⊎◌, inl, inr, refl, sym, ap, ◌∙◌, Option, some, ◌==◌, arith, Bool-cases,
}
use pcon_tng.Float.{CFloat}
use pcon_tng.TypeDefs.{IpcDat, Tm, number_of_channels}
use pcon_tng.Daemon.{beat, DaemonState, run_update, update_relays, main_round, chan_gpio}
use pcon_tng.Daemon.Relays.{chn}
use pcon_tng.Daemon.Pins.{level-append, beat-level, level, bit, shown, update_relays-level}

-- Where the loop stands: at its head, behind the test of the flag, behind the lines that clear it,
-- and behind the test of the clock.
pub data Phase : Type 0 where
  head : Phase
  forced : Phase
  clear : Phase
  minute : Phase

pub record World (F : Type 0) : Type 0 where
  pub phase : Phase
  pub daemon : DaemonState F

module _ {F : Type 0} where
  abbrev pub at : Phase → DaemonState F → World F
  at p s = record { phase = p; daemon = s }

  -- ipc_ptr->force_update = 0
  abbrev pub cleared : DaemonState F → DaemonState F
  cleared s = record s { ipc = record (s.ipc) { force_update = 0 } }

  -- A change of shared memory by a command, with its request.
  abbrev pub requested : (IpcDat F → IpcDat F) → DaemonState F → DaemonState F
  requested edit s = record s { ipc = record (edit s.ipc) { force_update = 1 } }

  -- A change that asks for nothing, such as a sensor's report: it keeps the flag and the states.
  pub record Leaves (ipc ipc' : IpcDat F) : Type 0 where
    pub force : ipc'.force_update ≡ ipc.force_update
    pub states : (j : ℕ) → (chn ipc' j).state ≡ (chn ipc j).state

module _ {F : Type 0} ⦃fl : CFloat F⦄ where
  pub data Step : World F → World F → Type 0 where
    request :
        (edit : IpcDat F → IpcDat F) (p : Phase) (s : DaemonState F)
        → Step (at p s) (at p (requested edit s))
    report :
        (ipc : IpcDat F) (p : Phase) (s : DaemonState F)
        → Leaves s.ipc ipc
        → Step (at p s) (at p (record s { ipc = ipc }))
    see_flag : (s : DaemonState F) → s.ipc.force_update ≡ 1 → Step (at head s) (at forced s)
    clear_flag : (s : DaemonState F) → Step (at forced s) (at clear (cleared s))
    forced_update :
        (stray : ℕ) (tm : Tm) (s : DaemonState F)
        → Step (at clear s) (at head (run_update stray tm s))
    see_minute :
        (tm : Tm) (s : DaemonState F)
        → s.ipc.force_update ≢ 1
        → s.h_min ≢ tm.tm_min
        → Step (at head s) (at minute (record s { h_min = tm.tm_min }))
    minute_update :
        (stray : ℕ) (tm : Tm) (s : DaemonState F)
        → Step (at minute s) (at head (run_update stray tm s))
    heart_beat :
        (stray : ℕ) (tm : Tm) (s : DaemonState F)
        → s.ipc.force_update ≢ 1
        → s.h_min ≡ tm.tm_min
        → Step (at head s) (at head (main_round stray tm s))

  pub data Reach (w : World F) : World F → Type 0 where
    here : Reach w w
    later : {u v : World F} → Reach w u → Step u v → Reach w v

  -- A round of the main loop that nothing comes between is one of these sequences of steps.
  pub main_round-Reach :
      (stray : ℕ) (tm : Tm) (s : DaemonState F)
      → Reach (at head s) (at head (main_round stray tm s))
  unfolding main_round
  main_round-Reach stray tm s = elim (Bool-cases (s.ipc.force_update == 1)) [
    | inl asked ↦ rw asked (
        later (later (later here (see_flag s (ground arith))) (clear_flag s))
          (forced_update stray tm (cleared s)))
    | inr free ↦ elim (Bool-cases (s.h_min == tm.tm_min)) [
      | inl same ↦ later here (heart_beat stray tm s (ground arith) (ground arith))
      | inr other ↦
          let seen = see_minute tm s (ground arith) (ground arith) in
          rw (free, other)
            (later (later here seen) (minute_update stray tm (record s { h_min = tm.tm_min })))
    ]
  ]

  -- At the head of the loop, without a request, the pins show the channels' states.
  abbrev pub IsShown : DaemonState F → Type 0
  IsShown s =
      (v : Option ℕ) (j : ℕ)
      → j < number_of_channels
      → level s.writes (chan_gpio j) v ≡ some (bit (chn s.ipc (shown j)).state)

  abbrev pub IsServed : World F → Type 0
  IsServed w = w.phase ≡ head → (w.daemon.ipc.force_update ≡ 1) ⊎ IsShown w.daemon

  update-IsShown : (stray : ℕ) (tm : Tm) (s : DaemonState F) → IsShown (run_update stray tm s)
  update-IsShown stray tm s v j h =
      level-append s.writes (update_relays stray tm s.hold s.ipc).2 (chan_gpio j) v
      ∙ update_relays-level stray tm s.hold s.ipc (level s.writes (chan_gpio j) v) j h

  idle-IsShown :
      (stray : ℕ) (tm : Tm) (s : DaemonState F)
      → s.ipc.force_update ≢ 1
      → s.h_min ≡ tm.tm_min
      → IsShown s
      → IsShown (main_round stray tm s)
  unfolding main_round
  idle-IsShown stray tm s free same is v j h = ground (
    arith,
    is v j h,
    level-append s.writes (beat 1 0) (chan_gpio j) v,
    level-append s.writes (beat 0 1) (chan_gpio j) v,
    beat-level 1 0 j (level s.writes (chan_gpio j) v) h,
    beat-level 0 1 j (level s.writes (chan_gpio j) v) h,
  )

  report-IsShown :
      (ipc : IpcDat F) (s : DaemonState F)
      → Leaves s.ipc ipc
      → IsShown s
      → IsShown (record s { ipc = ipc })
  report-IsShown ipc s k is v j h =
      is v j h ∙ ap (λ (state : ℕ). some (bit state)) (sym (k.states (shown j)))

  Step-IsServed : {u w : World F} → Step u w → IsServed u → IsServed w
  Step-IsServed (request edit p s) served = λ e. inl refl
  Step-IsServed (report ipc p s k) served = λ e. elim (served e) [
    | inl asked ↦ inl (k.force ∙ asked)
    | inr is ↦ inr (report-IsShown ipc s k is)
  ]
  Step-IsServed (see_flag s asked) served = λ e. cc
  Step-IsServed (clear_flag s) served = λ e. cc
  Step-IsServed (forced_update stray tm s) served = λ e. inr (update-IsShown stray tm s)
  Step-IsServed (see_minute tm s free other) served = λ e. cc
  Step-IsServed (minute_update stray tm s) served = λ e. inr (update-IsShown stray tm s)
  Step-IsServed (heart_beat stray tm s free same) served = λ e. elim (served refl) [
    | inl asked ↦ absurd (free asked)
    | inr is ↦ inr (idle-IsShown stray tm s free same is)
  ]

  -- However the requests of commands and the reports of sensors come between the steps of the
  -- daemon's loop, no request is lost: whenever the daemon is at the head of the loop, an update is
  -- still asked for, or each channel's pin shows its state, channel 0's that of channel 12, if it was
  -- so at first.
  pub Reach-IsServed : {u w : World F} → IsServed u → Reach u w → IsServed w
  Reach-IsServed served here = served
  Reach-IsServed served (later r step) = Step-IsServed step (Reach-IsServed served r)
