-- ===== src/OldDaemon/Board.antt =====
-- What the board behind the shift register is given by BBB/old daemon/Dcon.c.
use pcon_tng.Prelude.{
  ℕ, zero, suc, ◌+◌, ◌*◌, ◌<◌, ◌≡◌, ◌≢◌, refl, ap, ◌∙◌, ℤ, List, [], ◌∷◌, ◌++◌, Bool, true, false,
  not, ◌&&◌, ◌==◌, if◌then◌else◌, if-false, arith,
}
use pcon_tng.Prelude.Below.{all_below, all_below-at}
use pcon_tng.Float.{CFloat}
use pcon_tng.TypeDefs.{IpcDat, Tm, number_of_channels}
use pcon_tng.Daemon.Relays.{chn}
use pcon_tng.OldDaemon.{
  PinWrite, Pins, pin_high, pin_low, bit_set, send_bits, send_ccb, control_byte, relay_writes,
  update_channels, update_relays,
}
use pcon_tng.OldDaemon.Bits.{control_byte-byte, bit_set-control_byte}

abbrev pub is_at : ℕ → PinWrite → Bool
is_at pin w = w.header == 8 && w.pin == pin

-- What the register takes in: the level of its data pin at each rising edge of its clock pin, from
-- the levels of the two before the writes.
unfoldable pub sampled : Pins → (din sclk : Bool) → List PinWrite → List Bool
sampled p din sclk [] = []
sampled p din sclk (w ∷ ws) =
    let clocked = sampled p din w.high ws in
    let set = sampled p w.high sclk ws in
    let rest = sampled p din sclk ws in
    if is_at p.sclk w
    then (if w.high && not sclk then din ∷ clocked else clocked)
    else if is_at p.din w
    then set
    else rest

-- The number that is shifted in, the highest bit first.
abbrev pub shifted : ℕ → List Bool → ℕ
shifted n [] = n
shifted n (true ∷ bits) = shifted (2 * n + 1) bits
shifted n (false ∷ bits) = shifted (2 * n) bits

-- Bits n - 1 to 0 of a byte.
unfoldable bits_below : ℕ → ℕ → List Bool
bits_below byte zero = []
bits_below byte (suc i) = bit_set byte i ∷ bits_below byte i

send_ccb_lem :
    (p : Pins) (byte : ℕ)
    → send_ccb p byte
      ≡ pin_low 8 p.din ∷ (send_bits p byte 8 ++ pin_high 8 p.latch ∷ pin_low 8 p.latch ∷ [])
unfolding send_ccb
send_ccb_lem p byte = refl

-- The three pins of the board are three, and no relay is on its clock or its data pin.
pub record IsWired (p : Pins) : Type 0 where
  pub din_sclk : p.din ≢ p.sclk
  pub latch_sclk : p.latch ≢ p.sclk
  pub latch_din : p.latch ≢ p.din
  pub relay_sclk : (i : ℕ) → (p.header i == 8 && p.pin i == p.sclk) ≡ false
  pub relay_din : (i : ℕ) → (p.header i == 8 && p.pin i == p.din) ≡ false

module _ (p : Pins) (wired : IsWired p) where
  sampled-send_bits :
      (byte n : ℕ) (din : Bool) (ws : List PinWrite)
      → ((d : Bool) → sampled p d false ws ≡ [])
      → sampled p din false (send_bits p byte n ++ ws) ≡ bits_below byte n
  unfolding send_bits bits_below sampled
  sampled-send_bits byte zero din ws none_left = none_left din
  sampled-send_bits byte (suc i) din ws none_left =
      ground (arith, wired.din_sclk, sampled-send_bits byte i (bit_set byte i) ws none_left)

  sampled-pin_low :
      (d : Bool) (ws : List PinWrite)
      → sampled p d false (pin_low 8 p.din ∷ ws) ≡ sampled p false false ws
  unfolding sampled
  sampled-pin_low d ws = ground (arith, wired.din_sclk)

  sampled-latch : (d : Bool) → sampled p d false (pin_high 8 p.latch ∷ pin_low 8 p.latch ∷ []) ≡ []
  unfolding sampled
  sampled-latch d = ground (arith, wired.latch_sclk, wired.latch_din)

  sampled-send_ccb : (byte : ℕ) (d : Bool) → sampled p d false (send_ccb p byte) ≡ bits_below byte 8
  sampled-send_ccb byte d =
      ap (sampled p d false) (send_ccb_lem p byte)
      ∙ sampled-pin_low d (send_bits p byte 8 ++ pin_high 8 p.latch ∷ pin_low 8 p.latch ∷ [])
      ∙ sampled-send_bits byte 8 false (pin_high 8 p.latch ∷ pin_low 8 p.latch ∷ []) sampled-latch

byte_table : all_below 256 (λ byte. shifted 0 (bits_below byte 8) == byte) ≡ true
unfolding all_below bits_below
byte_table = refl

shifted-bits_below : (byte : ℕ) → byte < 256 → shifted 0 (bits_below byte 8) ≡ byte
shifted-bits_below byte h =
    ground
      (arith, all_below-at 256 (λ byte. shifted 0 (bits_below byte 8) == byte) byte_table byte h)

-- Whether a write is to a pin does not depend on what is written.
is_at-either :
    (pin header relay : ℕ) (off : Bool)
    → (header == 8 && relay == pin) ≡ false
    → is_at pin (if off then pin_low header relay else pin_high header relay) ≡ false
is_at-either pin header relay true h = h
is_at-either pin header relay false h = h

module _ {F : Type 0} (p : Pins) (wired : IsWired p) (ipc : IpcDat F) where
  sampled-relay_writes :
      (channel n : ℕ) (d : Bool) (ws : List PinWrite)
      → sampled p d false (relay_writes p ipc channel n ++ ws) ≡ sampled p d false ws
  unfolding sampled relay_writes
  sampled-relay_writes channel zero d ws = refl
  sampled-relay_writes channel (suc n) d ws =
      if-false _ _ _ (
        is_at-either p.sclk (p.header (channel + 8)) (p.pin (channel + 8))
          ((chn ipc channel).state == 0) (wired.relay_sclk (channel + 8)))
      ∙ if-false _ _ _ (
          is_at-either p.din (p.header (channel + 8)) (p.pin (channel + 8))
            ((chn ipc channel).state == 0) (wired.relay_din (channel + 8)))
      ∙ sampled-relay_writes (suc channel) n d ws

module _ {F : Type 0} ⦃fl : CFloat F⦄ where
  -- What `update_relays` has the board show is a byte, whatever byte the uninitialised control byte
  -- held and whatever level the data pin had, when no relay is on the pins of the board: bit j of what
  -- the shift register takes in is the state that channel 8 + j has in the data that the update leaves.
  pub update_relays-board :
      (p : Pins) (stray ccb : ℕ) (tm : Tm) (hold : ℤ) (ipc : IpcDat F) (d : Bool)
      → IsWired p
      → ccb < 256
      → let r = update_relays p stray ccb tm hold ipc in
        let byte = shifted 0 (sampled p d false r.2) in
        (byte < 256) × ((j : ℕ) → j < 8 → bit_set byte j ≡ not ((chn r.0 (j + 8)).state == 0))
  unfolding update_relays
  update_relays-board p stray ccb tm hold ipc d wired hc =
      let r = update_channels tm 0 number_of_channels stray hold ipc in
      let byte = control_byte r.0 0 8 ccb in
      let small : byte < 256 = control_byte-byte r.0 0 8 ccb (omega arith) hc in
      let taken : shifted 0 (sampled p d false (relay_writes p r.0 0 8 ++ send_ccb p byte)) ≡ byte =
        ap (shifted 0) (
          sampled-relay_writes p wired r.0 0 8 d (send_ccb p byte)
          ∙ sampled-send_ccb p wired byte d)
        ∙ shifted-bits_below byte small in
      rw taken (
        small,
        λ j hj. bit_set-control_byte r.0 0 8 ccb j refl hj hc (λ l. absurd (ground (arith, l))),
      )
