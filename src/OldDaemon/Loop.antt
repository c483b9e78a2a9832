-- ===== src/OldDaemon/Loop.antt =====
-- The main loop of BBB/old daemon/Dcon.c: which clock an update goes by.
use pcon_tng.Prelude.{ℕ, ◌≡◌, ◌≢◌, refl, ap, ◌∙◌, arith}
use pcon_tng.Float.{CFloat}
use pcon_tng.TypeDefs.{IpcDat, Tm}
use pcon_tng.OldDaemon.{Pins, DaemonState, main_round, cycle_leds, update_relays}

module _ {F : Type 0} ⦃fl : CFloat F⦄ where
  pub cycle_leds-ipc : (p : Pins) (s : DaemonState F) → (cycle_leds p s).ipc ≡ s.ipc
  cycle_leds-ipc p s = ground arith

  cycle_leds-tm : (p : Pins) (s : DaemonState F) → (cycle_leds p s).tm ≡ s.tm
  cycle_leds-tm p s = ground arith

  main_round-ipc :
      (p : Pins) (stray ccb : ℕ) (t : Tm) (s : DaemonState F)
      → s.ipc.force_update ≡ 1
      → (main_round p stray ccb t s).ipc
        ≡ (update_relays p stray ccb s.tm s.hold (record (s.ipc) { force_update = 0 })).0
  unfolding main_round
  main_round-ipc p stray ccb t s h = rw (cycle_leds-ipc, h) refl

  main_round-tm :
      (p : Pins) (stray ccb : ℕ) (t : Tm) (s : DaemonState F)
      → s.ipc.force_update ≢ 1
      → (main_round p stray ccb t s).tm ≡ t
  unfolding main_round
  main_round-tm p stray ccb t s h = rw (cycle_leds-tm) (ground (arith, h))

  -- An update that is asked for after a round that made none, or one by the minute, goes by the
  -- clock of that round and not by the clock of its own: `main_round` reads the clock only where
  -- no update is asked for.
  pub forced_update-last_clock :
      (p : Pins) (stray ccb stray' ccb' : ℕ) (t t' : Tm) (edit : IpcDat F → IpcDat F)
      (s : DaemonState F)
      → s.ipc.force_update ≢ 1
      → let s' = main_round p stray ccb t s in
        let asked = record s' { ipc = record (edit (s'.ipc)) { force_update = 1 } } in
        (main_round p stray' ccb' t' asked).ipc
        ≡ (update_relays p stray' ccb' t s'.hold (record (edit (s'.ipc)) { force_update = 0 })).0
  forced_update-last_clock p stray ccb stray' ccb' t t' edit s h =
      let s' = main_round p stray ccb t s in
      let asked : DaemonState F = record s' { ipc = record (edit (s'.ipc)) { force_update = 1 } } in
      main_round-ipc p stray' ccb' t' asked refl
      ∙ ap
          (λ clock.
            (update_relays p stray' ccb' clock s'.hold
              (record (edit (s'.ipc)) { force_update = 0 })).0)
          (main_round-tm p stray ccb t s h)
