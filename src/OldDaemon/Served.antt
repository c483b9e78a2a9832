-- ===== src/OldDaemon/Served.antt =====
-- BBB/old daemon/Dcon.c from its start on: the sixteen relays beside the channels' states.
use pcon_tng.Prelude.{
  ℕ, ◌+◌, ◌<◌, ◌≡◌, ◌⊎◌, inl, inr, refl, sym, ap, subst, ◌∙◌, ℤ, List, [], ◌∷◌, ◌++◌, Bool, true,
  false, not, ◌==◌, arith,
}
use pcon_tng.Float.{CFloat}
use pcon_tng.TypeDefs.{IpcDat}
use pcon_tng.Daemon.Relays.{chn}
use pcon_tng.Daemon.Requests.{Leaves}
use pcon_tng.OldDaemon.{Pins, DaemonState, run_update, update_relays, cycle_leds, pin_low}
use pcon_tng.OldDaemon.Loop.{cycle_leds-ipc}
use pcon_tng.OldDaemon.Start.{
  Setup, init_gpio, setup_leds, setup_relays, setup_board, setup, written_pins, start,
}
use pcon_tng.OldDaemon.Register.{Register, board, on_write, board-append, register, output}
use pcon_tng.OldDaemon.Levels.{pin_level, pin_level-append, pin_level-spares}
use pcon_tng.OldDaemon.Wiring.{
  IsConnected, led_writes, off_board, board-off_board, led_writes-off_board, led_writes-spares,
  update_relays-level, update_relays-output,
}
use pcon_tng.OldDaemon.Service.{
  Stage, head, forced, clear, minute, leds, Moment, moment, Turn, request, report, see_flag,
  clear_flag, forced_update, see_minute, minute_update, same_minute, show_leds, Reach, here, later,
}

-- The clock and the latch of the board are low.
abbrev pub IsQuiet : Register → Type 0
IsQuiet r = (r.sclk ≡ false) × (r.latch ≡ false)

IsQuiet-register : (r : Register) → IsQuiet r → r ≡ register r.din false false r.shift r.shown
IsQuiet-register r q =
    ap (λ sclk. register r.din sclk r.latch r.shift r.shown) q.0
    ∙ ap (λ latch. register r.din false latch r.shift r.shown) q.1

-- The places at which no update is under way.
abbrev pub is_settled : Stage → Bool
is_settled head = true
is_settled forced = false
is_settled clear = false
is_settled minute = false
is_settled leds = true

module _ {F : Type 0} ⦃fl : CFloat F⦄ (p : Pins) (r : Register) where
  -- The relays on gpio pins show the channels 0 to 7, and those of the board the channels 8 to 15.
  pub record IsShown (s : DaemonState F) : Type 0 where
    pub on_pins :
        (i : ℕ) (v : Bool)
        → i < 8
        → pin_level (p.header (i + 8)) (p.pin (i + 8)) s.writes v ≡ not ((chn s.ipc i).state == 0)
    pub on_board :
        (i : ℕ) → i < 8 → output (board p r s.writes).shown i ≡ not ((chn s.ipc (i + 8)).state == 0)

  abbrev pub IsServed : Moment F → Type 0
  IsServed m = is_settled m.place ≡ true → (m.daemon.ipc.force_update ≡ 1) ⊎ IsShown m.daemon

  -- The board between the steps.
  abbrev IsReady : DaemonState F → Type 0
  IsReady s = IsQuiet (board p r s.writes)

  module _ (c : IsConnected p) where
    board-update :
        (stray ccb : ℕ) (s : DaemonState F)
        → IsReady s
        → let before = board p r s.writes in
          let u = update_relays p stray ccb s.tm s.hold s.ipc in
          board p r (s.writes ++ u.2)
          ≡ board p (register before.din false false before.shift before.shown) u.2
    board-update stray ccb s q =
        let u = update_relays p stray ccb s.tm s.hold s.ipc in
        board-append p s.writes u.2 r
        ∙ ap (λ b. board p b u.2) (IsQuiet-register (board p r s.writes) q)

    update-IsReady :
        (stray ccb : ℕ) (s : DaemonState F)
        → ccb < 256
        → IsReady s
        → IsReady (run_update p stray ccb s)
    update-IsReady stray ccb s h q =
        let before = board p r s.writes in
        let after =
          update_relays-output p c stray ccb s.tm s.hold s.ipc 0 before.din before.shift
            before.shown (omega arith) h in
        let same = board-update stray ccb s q in
        (
          ap (λ (b : Register). b.sclk) same ∙ after.0,
          ap (λ (b : Register). b.latch) same ∙ after.1,
        )

    update-IsShown :
        (stray ccb : ℕ) (s : DaemonState F)
        → ccb < 256
        → IsReady s
        → IsShown (run_update p stray ccb s)
    update-IsShown stray ccb s h q =
        let before = board p r s.writes in
        let u = update_relays p stray ccb s.tm s.hold s.ipc in
        record {
          on_pins = λ i v l.
              let header = p.header (i + 8) in
              let pin = p.pin (i + 8) in
              pin_level-append header pin s.writes u.2 v
              ∙ update_relays-level p c stray ccb s.tm s.hold s.ipc i
                  (pin_level header pin s.writes v) l;
          on_board = λ i l.
              ap (λ (b : Register). output b.shown i) (board-update stray ccb s q)
              ∙ (update_relays-output p c stray ccb s.tm s.hold s.ipc i before.din before.shift
                  before.shown l h).2;
        }

    cycle_leds-writes :
        (s : DaemonState F) → (cycle_leds p s).writes ≡ s.writes ++ led_writes p s.toggle
    cycle_leds-writes s = ground arith

    board-leds : (s : DaemonState F) → board p r (cycle_leds p s).writes ≡ board p r s.writes
    board-leds s =
        ap (board p r) (cycle_leds-writes s)
        ∙ board-append p s.writes (led_writes p s.toggle) r
        ∙ board-off_board p (led_writes p s.toggle) (board p r s.writes)
            (led_writes-off_board p c s.toggle)

    leds-IsShown : (s : DaemonState F) → IsShown s → IsShown (cycle_leds p s)
    leds-IsShown s is =
        let same = cycle_leds-ipc p s in
        record {
          on_pins = λ i v l.
              let header = p.header (i + 8) in
              let pin = p.pin (i + 8) in
              ap (λ ws. pin_level header pin ws v) (cycle_leds-writes s)
              ∙ pin_level-append header pin s.writes (led_writes p s.toggle) v
              ∙ pin_level-spares header pin (led_writes p s.toggle)
                  (pin_level header pin s.writes v) (led_writes-spares p c i s.toggle l)
              ∙ is.on_pins i v l
              ∙ sym (ap (λ (d : IpcDat F). not ((chn d i).state == 0)) same);
          on_board = λ i l.
              ap (λ (b : Register). output b.shown i) (board-leds s)
              ∙ is.on_board i l
              ∙ sym (ap (λ (d : IpcDat F). not ((chn d (i + 8)).state == 0)) same);
        }

    report-IsShown :
        (ipc : IpcDat F) (s : DaemonState F)
        → Leaves s.ipc ipc
        → IsShown s
        → IsShown (record s { ipc = ipc })
    report-IsShown ipc s k is = record {
      on_pins = λ i v l. is.on_pins i v l ∙ ap (λ state. not (state == 0)) (sym (k.states i));
      on_board = λ i l. is.on_board i l ∙ ap (λ state. not (state == 0)) (sym (k.states (i + 8)));
    }

    Turn-IsReady : {m m' : Moment F} → Turn p m m' → IsReady m.daemon → IsReady m'.daemon
    Turn-IsReady (request edit place s) q = q
    Turn-IsReady (report ipc place s k) q = q
    Turn-IsReady (see_flag s asked) q = q
    Turn-IsReady (clear_flag s) q = q
    Turn-IsReady (forced_update stray ccb s h) q = update-IsReady stray ccb s h q
    Turn-IsReady (see_minute t s free other) q = q
    Turn-IsReady (minute_update stray ccb s h) q = update-IsReady stray ccb s h q
    Turn-IsReady (same_minute t s free same) q = q
    Turn-IsReady (show_leds s) q = subst IsQuiet (sym (board-leds s)) q

    Turn-IsServed : {m m' : Moment F} → Turn p m m' → IsReady m.daemon → IsServed m → IsServed m'
    Turn-IsServed (request edit place s) q served = λ e. inl refl
    Turn-IsServed (report ipc place s k) q served = λ e. elim (served e) [
      | inl asked ↦ inl (k.force ∙ asked)
      | inr is ↦ inr (report-IsShown ipc s k is)
    ]
    Turn-IsServed (see_flag s asked) q served = λ e. cc
    Turn-IsServed (clear_flag s) q served = λ e. cc
    Turn-IsServed (forced_update stray ccb s h) q served = λ e. inr (update-IsShown stray ccb s h q)
    Turn-IsServed (see_minute t s free other) q served = λ e. cc
    Turn-IsServed (minute_update stray ccb s h) q served = λ e. inr (update-IsShown stray ccb s h q)
    Turn-IsServed (same_minute t s free same) q served = λ e. elim (served refl) [
      | inl asked ↦ absurd (free asked)
      | inr is ↦ inr (record { on_pins = is.on_pins; on_board = is.on_board })
    ]
    Turn-IsServed (show_leds s) q served = λ e. elim (served refl) [
      | inl asked ↦ inl (ap (λ (d : IpcDat F). d.force_update) (cycle_leds-ipc p s) ∙ asked)
      | inr is ↦ inr (leds-IsShown s is)
    ]

    Reach-IsReady : {m m' : Moment F} → Reach p m m' → IsReady m.daemon → IsReady m'.daemon
    Reach-IsReady here q = q
    Reach-IsReady (later run turn) q = Turn-IsReady turn (Reach-IsReady run q)

    Reach-IsServed : {m m' : Moment F} → Reach p m m' → IsReady m.daemon → IsServed m → IsServed m'
    Reach-IsServed here q served = served
    Reach-IsServed (later run turn) q served =
        Turn-IsServed turn (Reach-IsReady run q) (Reach-IsServed run q served)

written_pins-init_gpio :
    (gpios : List ℕ) (rest : List Setup)
    → written_pins (init_gpio gpios ++ rest) ≡ written_pins rest
written_pins-init_gpio [] rest = refl
written_pins-init_gpio (gpio ∷ gpios) rest = written_pins-init_gpio gpios rest

module _ (p : Pins) (c : IsConnected p) where
  setup-off_board : off_board p (written_pins (setup_leds p ++ setup_relays p)) ≡ true
  unfolding off_board
  setup-off_board =
      let l1 = c.led_board 1 (omega arith) in
      let l2 = c.led_board 2 (omega arith) in
      let l3 = c.led_board 3 (omega arith) in
      let l4 = c.led_board 4 (omega arith) in
      let c1 = c.cape_board 1 (omega arith) in
      let c2 = c.cape_board 2 (omega arith) in
      let c3 = c.cape_board 3 (omega arith) in let c4 = c.cape_board 4 (omega arith) in ground arith

  board-lows :
      (r : Register)
      → board p r (pin_low 8 p.sclk ∷ pin_low 8 p.din ∷ [])
        ≡ register false false r.latch r.shift r.shown
  unfolding board on_write
  board-lows r = ground (arith, c.din_sclk)

  -- The setup leaves the clock and the data of the board low, and its latch as it was.
  board-setup :
      (gpios : List ℕ) (r : Register)
      → board p r (written_pins (setup gpios p)) ≡ register false false r.latch r.shift r.shown
  unfolding setup
  board-setup gpios r =
      let first = written_pins (setup_leds p ++ setup_relays p) in
      let lows = pin_low 8 p.sclk ∷ pin_low 8 p.din ∷ [] in
      ap (board p r)
        (written_pins-init_gpio gpios (setup_leds p ++ (setup_relays p ++ setup_board p)))
      ∙ board-append p first lows r
      ∙ ap (λ b. board p b lows) (board-off_board p first r setup-off_board)
      ∙ board-lows r

module _ {F : Type 0} ⦃fl : CFloat F⦄ where
  -- From the start of the earlier daemon on, whatever the data in shared memory, with the pins
  -- connected as `IsConnected` says, the latch of the board low at first, and a control byte of eight
  -- bits: however the requests of commands and the reports of sensors come between the steps of the
  -- daemon's loop, whenever the daemon is at the head of the loop an update is still asked for, or the
  -- eight relays on gpio pins show the states of the channels 0 to 7 and the eight relays behind the
  -- shift register those of the channels 8 to 15.
  pub earlier_start-IsServed :
      (p : Pins) (r : Register) (gpios : List ℕ) (ipc : IpcDat F) (hold : ℤ) (h_min toggle : ℕ)
      {s : DaemonState F}
      → IsConnected p
      → r.latch ≡ false
      → Reach p (moment head (start gpios p ipc hold h_min toggle)) (moment head s)
      → (s.ipc.force_update ≡ 1) ⊎ IsShown p r s
  unfolding start
  earlier_start-IsServed p r gpios ipc hold h_min toggle c low run =
      let begun = board-setup p c gpios r in
      let ready : IsQuiet (board p r (written_pins (setup gpios p))) =
        (ap (λ (b : Register). b.sclk) begun, ap (λ (b : Register). b.latch) begun ∙ low) in
      Reach-IsServed p r c run ready (λ e. inl refl) refl
