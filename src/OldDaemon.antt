-- ===== src/OldDaemon.antt =====
-- BBB/old daemon/Dcon.c: the daemon of the earlier hardware, with eight relays on gpio pins and
-- eight on a board behind a shift register. The pins of `pin_high` and `pin_low` are parameters:
-- no header of the repository defines them. Printing is left out.
pub mod Bits
pub mod Channels
pub mod Loop
pub mod Tests
pub mod Board
pub mod Register
pub mod Start
pub mod Levels
pub mod Wiring
pub mod Service
pub mod Served
pub mod Log
use Prim.Native.Nat.{bit_and, bit_or}
use pcon_tng.Prelude.{
  ℕ, zero, suc, ◌+◌, ◌-◌, ◌*◌, ◌/◌, ◌%◌, ◌^◌, ℤ, pos, List, [], ◌∷◌, ◌++◌, Bool, true, false, not,
  ltb, ◌==◌, if◌then◌else◌,
}
use pcon_tng.Float.{CFloat}
use pcon_tng.TypeDefs.{IpcDat, Tm, number_of_channels}
use pcon_tng.Daemon.{channel_state, set_state}
use pcon_tng.Daemon.Relays.{chn}

-- `pin_high(header, pin)` and `pin_low(header, pin)`.
pub record PinWrite : Type 0 where
  pub header : ℕ
  pub pin : ℕ
  pub high : Bool

abbrev pub pin_high : ℕ → ℕ → PinWrite
pin_high header pin = record { header = header; pin = pin; high = true }

abbrev pub pin_low : ℕ → ℕ → PinWrite
pin_low header pin = record { header = header; pin = pin; high = false }

-- The pins of the board's serial header and of the leds, those of the first eight relays, by their
-- index, and _R1_CAPE to _R8_CAPE.
pub record Pins : Type 0 where
  pub din : ℕ
  pub sclk : ℕ
  pub latch : ℕ
  pub header : ℕ → ℕ
  pub pin : ℕ → ℕ
  pub led : ℕ → ℕ
  pub cape : ℕ → ℕ

-- (1 << i) & byte
abbrev pub bit_set : ℕ → ℕ → Bool
bit_set byte i = not (byte / 2 ^ i % 2 == 0)

-- The loop of `send_ccb`, with bits `n - 1` to 0 left.
unfoldable pub send_bits : Pins → ℕ → ℕ → List PinWrite
send_bits p byte zero = []
send_bits p byte (suc i) =
    (if bit_set byte i then pin_high 8 p.din else pin_low 8 p.din)
    ∷ pin_high 8 p.sclk
    ∷ pin_low 8 p.sclk
    ∷ send_bits p byte i

unfoldable pub send_ccb : Pins → ℕ → List PinWrite
unfolding send_bits
send_ccb p byte =
    pin_low 8 p.din ∷ (send_bits p byte 8 ++ pin_high 8 p.latch ∷ pin_low 8 p.latch ∷ [])

module _ {F : Type 0} ⦃fl : CFloat F⦄ where
  -- The switch on the mode, with what is stored in each case. `state` and `hold` are carried along.
  abbrev pub stored : IpcDat F → ℕ → ℕ × ℤ → IpcDat F
  stored ipc channel r =
      let mode = (chn ipc channel).mode in
      if mode == 1
      then set_state ipc channel r.0
      else if mode == 2
      then set_state ipc channel r.0
      else ipc

  -- The first loop.
  pub update_channels : Tm → ℕ → ℕ → (state : ℕ) (hold : ℤ) → IpcDat F → IpcDat F × ℤ
  update_channels tm channel zero state hold ipc = (ipc, hold)
  update_channels tm channel (suc n) state hold ipc =
      let r = channel_state ipc tm channel state hold in
      update_channels tm (suc channel) n r.0 r.1 (stored ipc channel r)

-- ccb |= 1 << k and ccb &= ~(1 << k), on eight bits.
abbrev pub with_bit : ℕ → ℕ → ℕ → ℕ
with_bit ccb k state = if state == 0 then bit_and ccb (255 - 2 ^ k) else bit_or ccb (2 ^ k)

module _ {F : Type 0} where
  -- The relays on gpio pins.
  unfoldable pub relay_writes : Pins → IpcDat F → ℕ → ℕ → List PinWrite
  relay_writes p ipc channel zero = []
  relay_writes p ipc channel (suc n) =
      let index = channel + 8 in
      (if (chn ipc channel).state == 0
        then pin_low (p.header index) (p.pin index)
        else pin_high (p.header index) (p.pin index))
      ∷ relay_writes p ipc (suc channel) n

  -- The loop that makes the control byte, for the channels from `k + 8` on.
  unfoldable pub control_byte : IpcDat F → ℕ → ℕ → ℕ → ℕ
  control_byte ipc k zero ccb = ccb
  control_byte ipc k (suc n) ccb =
      control_byte ipc (suc k) n (with_bit ccb k (chn ipc (k + 8)).state)

module _ {F : Type 0} ⦃fl : CFloat F⦄ where
  -- `update_relays`, where `stray` and `ccb` are what the uninitialised variables hold.
  unfoldable pub update_relays :
      Pins → (stray ccb : ℕ) → Tm → ℤ → IpcDat F → IpcDat F × ℤ × List PinWrite
  update_relays p stray ccb tm hold ipc =
      let r = update_channels tm 0 number_of_channels stray hold ipc in
      (r.0, r.1, relay_writes p r.0 0 8 ++ send_ccb p (control_byte r.0 0 8 ccb))

-- What the main loop keeps between rounds, with the time that was read last, and the writes made.
pub record DaemonState (F : Type 0) : Type 0 where
  pub ipc : IpcDat F
  pub hold : ℤ
  pub tm : Tm
  pub h_min : ℕ
  pub toggle : ℕ
  pub writes : List PinWrite

module _ {F : Type 0} ⦃fl : CFloat F⦄ where
  abbrev pub run_update : Pins → (stray ccb : ℕ) → DaemonState F → DaemonState F
  run_update p stray ccb s =
      let r = update_relays p stray ccb s.tm s.hold s.ipc in
      record s { ipc = r.0; hold = r.1; writes = s.writes ++ r.2 }

  -- cycle leds
  abbrev pub cycle_leds : Pins → DaemonState F → DaemonState F
  cycle_leds p s =
      if not (s.toggle == 0)
      then record s {
        toggle = 0;
        writes =
            s.writes
            ++ pin_low 8 (p.led 1)
              ∷ pin_high 8 (p.led 2)
              ∷ pin_low 8 (p.led 3)
              ∷ pin_high 8 (p.led 4)
              ∷ [];
      }
      else record s {
        toggle = 1;
        writes =
            s.writes
            ++ pin_high 8 (p.led 1)
              ∷ pin_low 8 (p.led 2)
              ∷ pin_high 8 (p.led 3)
              ∷ pin_low 8 (p.led 4)
              ∷ [];
      }

  -- One round of `while (1)`, where `get_tm` would give `t`.
  unfoldable pub main_round : Pins → (stray ccb : ℕ) → Tm → DaemonState F → DaemonState F
  main_round p stray ccb t s =
      let read = record s { tm = t } in
      cycle_leds p (
        if s.ipc.force_update == 1
        then run_update p stray ccb (record s { ipc = record (s.ipc) { force_update = 0 } })
        else if not (s.h_min == t.tm_min)
        then run_update p stray ccb (record read { h_min = t.tm_min })
        else read)
