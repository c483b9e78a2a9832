-- ===== src/OldDaemon/Wiring.antt =====
-- What the writes of an update and of the leds in BBB/old daemon/Dcon.c leave on the relays' pins
-- and on the board, when the pins are connected as the code takes them to be.
use pcon_tng.Prelude.{
  ℕ, zero, suc, ◌+◌, ◌<◌, ◌≤◌, ◌≡◌, ◌≢◌, refl, ap, ◌∙◌, ℤ, List, [], ◌∷◌, ◌++◌, Bool, true, false,
  not, ◌&&◌, ◌==◌, if◌then◌else◌, arith,
}
use pcon_tng.Float.{CFloat}
use pcon_tng.TypeDefs.{IpcDat, Tm, number_of_channels}
use pcon_tng.Daemon.Relays.{chn}
use pcon_tng.OldDaemon.{
  PinWrite, Pins, pin_high, pin_low, send_bits, send_ccb, relay_writes, control_byte,
  update_channels, update_relays,
}
use pcon_tng.OldDaemon.Bits.{bit_set-control_byte}
use pcon_tng.OldDaemon.Register.{
  Register, board, board-append, is_board, on_write-away, register, output, shift_in,
  output-shift_in, last_bit, board-send_ccb,
}
use pcon_tng.OldDaemon.Levels.{
  pin_level, pin_level-append, pin_level-spares, spares, AreApart, relay_writes-level,
}

-- The three pins of the board are three, no two relays share a pin, no relay and no led is on a
-- pin of the board, nor is _R1_CAPE to _R4_CAPE, and no led is on a relay's pin.
pub record IsConnected (p : Pins) : Type 0 where
  pub din_sclk : p.din ≢ p.sclk
  pub latch_sclk : p.latch ≢ p.sclk
  pub latch_din : p.latch ≢ p.din
  pub relays : AreApart p
  pub relay_board :
      (i : ℕ) → i < 8 → is_board p (pin_low (p.header (i + 8)) (p.pin (i + 8))) ≡ false
  pub led_board : (k : ℕ) → k < 5 → is_board p (pin_low 8 (p.led k)) ≡ false
  pub led_relay :
      (i k : ℕ) → i < 8 → k < 5 → (8 == p.header (i + 8) && p.led k == p.pin (i + 8)) ≡ false
  pub cape_board : (k : ℕ) → k < 5 → is_board p (pin_low 8 (p.cape k)) ≡ false

-- The writes for the leds in a round.
abbrev pub led_writes : Pins → (toggle : ℕ) → List PinWrite
led_writes p toggle =
    if not (toggle == 0)
    then pin_low 8 (p.led 1)
      ∷ pin_high 8 (p.led 2)
      ∷ pin_low 8 (p.led 3)
      ∷ pin_high 8 (p.led 4)
      ∷ []
    else pin_high 8 (p.led 1)
      ∷ pin_low 8 (p.led 2)
      ∷ pin_high 8 (p.led 3)
      ∷ pin_low 8 (p.led 4)
      ∷ []

-- A list of writes none of which is to the board leaves it as it is.
unfoldable pub off_board : Pins → List PinWrite → Bool
off_board p [] = true
off_board p (w ∷ ws) = not (is_board p w) && off_board p ws

pub board-off_board :
    (p : Pins) (ws : List PinWrite) (r : Register) → off_board p ws ≡ true → board p r ws ≡ r
unfolding board off_board
board-off_board p [] r h = refl
board-off_board p (w ∷ ws) r h =
    ap (λ s. board p s ws) (on_write-away p r w (ground arith))
    ∙ board-off_board p ws r (ground arith)

module _ (p : Pins) (c : IsConnected p) where
  pub led_writes-off_board : (toggle : ℕ) → off_board p (led_writes p toggle) ≡ true
  unfolding off_board
  led_writes-off_board toggle =
      let one = c.led_board 1 (omega arith) in
      let two = c.led_board 2 (omega arith) in
      let three = c.led_board 3 (omega arith) in
      let four = c.led_board 4 (omega arith) in ground arith

  pub led_writes-spares :
      (i toggle : ℕ)
      → i < 8
      → spares (p.header (i + 8)) (p.pin (i + 8)) (led_writes p toggle) ≡ true
  unfolding spares
  led_writes-spares i toggle h =
      let one = c.led_relay i 1 h (omega arith) in
      let two = c.led_relay i 2 h (omega arith) in
      let three = c.led_relay i 3 h (omega arith) in
      let four = c.led_relay i 4 h (omega arith) in ground arith

  send_bits-spares :
      (byte n i : ℕ) (ws : List PinWrite)
      → i < 8
      → spares (p.header (i + 8)) (p.pin (i + 8)) ws ≡ true
      → spares (p.header (i + 8)) (p.pin (i + 8)) (send_bits p byte n ++ ws) ≡ true
  unfolding spares send_bits
  send_bits-spares byte zero i ws h e = e
  send_bits-spares byte (suc n) i ws h e =
      let away = c.relay_board i h in let rest = send_bits-spares byte n i ws h e in ground arith

  send_ccb-spares :
      (byte i : ℕ) → i < 8 → spares (p.header (i + 8)) (p.pin (i + 8)) (send_ccb p byte) ≡ true
  unfolding spares send_ccb
  send_ccb-spares byte i h =
      let away = c.relay_board i h in
      let rest =
        send_bits-spares byte 8 i (pin_high 8 p.latch ∷ pin_low 8 p.latch ∷ []) h (ground arith) in
      ground arith

  module _ {F : Type 0} (ipc : IpcDat F) where
    relay_writes-off_board :
        (channel n : ℕ) → channel + n ≤ 8 → off_board p (relay_writes p ipc channel n) ≡ true
    unfolding off_board relay_writes
    relay_writes-off_board channel zero l = refl
    relay_writes-off_board channel (suc n) l =
        let away = c.relay_board channel (omega arith) in
        let rest = relay_writes-off_board (suc channel) n (omega arith) in ground arith

    writes-level :
        (byte i : ℕ) (v : Bool)
        → i < 8
        → pin_level (p.header (i + 8)) (p.pin (i + 8)) (relay_writes p ipc 0 8 ++ send_ccb p byte) v
          ≡ not ((chn ipc i).state == 0)
    writes-level byte i v h =
        let header = p.header (i + 8) in
        let pin = p.pin (i + 8) in
        let writes = relay_writes p ipc 0 8 in
        pin_level-append header pin writes (send_ccb p byte) v
        ∙ pin_level-spares header pin (send_ccb p byte) (pin_level header pin writes v)
            (send_ccb-spares byte i h)
        ∙ relay_writes-level p c.relays ipc i 0 8 v (omega arith) (omega arith) (omega arith)

    writes-board :
        (byte : ℕ) (d : Bool) (bits out : List Bool)
        → board p (register d false false bits out) (relay_writes p ipc 0 8 ++ send_ccb p byte)
          ≡ register
              (last_bit byte 8 false)
              false
              false
              (shift_in byte 8 bits)
              (shift_in byte 8 bits)
    writes-board byte d bits out =
        board-append p (relay_writes p ipc 0 8) (send_ccb p byte) (register d false false bits out)
        ∙ ap (λ r. board p r (send_ccb p byte))
            (board-off_board p (relay_writes p ipc 0 8) (register d false false bits out)
              (relay_writes-off_board 0 8 (omega arith)))
        ∙ board-send_ccb p c.din_sclk c.latch_sclk c.latch_din byte d bits out

  module _ {F : Type 0} ⦃fl : CFloat F⦄ (stray ccb : ℕ) (tm : Tm) (hold : ℤ) (ipc : IpcDat F) where
    -- An update leaves each relay on a gpio pin as its channel is.
    pub update_relays-level :
        (i : ℕ) (v : Bool)
        → i < 8
        → pin_level (p.header (i + 8)) (p.pin (i + 8)) (update_relays p stray ccb tm hold ipc).2 v
          ≡ not ((chn (update_relays p stray ccb tm hold ipc).0 i).state == 0)
    unfolding update_relays
    update_relays-level i v h =
        let left = (update_channels tm 0 number_of_channels stray hold ipc).0 in
        writes-level left (control_byte left 0 8 ccb) i v h

    -- An update leaves each relay of the board as its channel is.
    pub update_relays-output :
        (i : ℕ) (d : Bool) (bits out : List Bool)
        → i < 8
        → ccb < 256
        → let r = update_relays p stray ccb tm hold ipc in
          let after = board p (register d false false bits out) r.2 in
          (after.sclk ≡ false)
          × (after.latch ≡ false)
          × (output after.shown i ≡ not ((chn r.0 (i + 8)).state == 0))
    unfolding update_relays
    update_relays-output i d bits out h hc =
        let left = (update_channels tm 0 number_of_channels stray hold ipc).0 in
        let byte = control_byte left 0 8 ccb in
        rw (writes-board left byte d bits out) (
          refl,
          refl,
          output-shift_in byte 8 i bits h
              ∙ bit_set-control_byte left 0 8 ccb i refl h hc (λ l. absurd (ground (arith, l))),
        )
