-- ===== src/OldDaemon/Register.antt =====
-- The board behind the shift register of BBB/old daemon/Dcon.c: what a 74HC595 with a latch shows
-- of the writes to its three pins, and what one control byte makes of it.
use pcon_tng.Prelude.{
  ℕ, zero, suc, ◌+◌, ◌<◌, ◌≡◌, ◌≢◌, refl, sym, ap, ◌∙◌, List, [], ◌∷◌, ◌++◌, Bool, false, not,
  Bool-cases, inl, inr, ◌&&◌, ◌||◌, ◌==◌, if◌then◌else◌, arith,
}
use pcon_tng.OldDaemon.{PinWrite, Pins, pin_high, pin_low, bit_set, send_bits, send_ccb}

-- The levels of the three pins, the bits that were shifted in, the last one first, and those that
-- the relays were last given.
pub record Register : Type 0 where
  pub din : Bool
  pub sclk : Bool
  pub latch : Bool
  pub shift : List Bool
  pub shown : List Bool

abbrev pub is_on : (header pin : ℕ) → PinWrite → Bool
is_on header pin w = w.header == header && w.pin == pin

-- The register takes in its data pin when the clock pin rises, and hands on its bits when the latch
-- pin rises.
unfoldable pub on_write : Pins → Register → PinWrite → Register
on_write p r w =
    if is_on 8 p.sclk w
    then record r {
      sclk = w.high;
      shift = if w.high && not r.sclk then r.din ∷ r.shift else r.shift;
    }
    else if is_on 8 p.din w
    then record r { din = w.high }
    else if is_on 8 p.latch w
    then record r { latch = w.high; shown = if w.high && not r.latch then r.shift else r.shown }
    else r

unfoldable pub board : Pins → Register → List PinWrite → Register
board p r [] = r
board p r (w ∷ ws) = board p (on_write p r w) ws

-- The relay at output j.
unfoldable pub output : List Bool → ℕ → Bool
output [] j = false
output (b ∷ bits) zero = b
output (b ∷ bits) (suc j) = output bits j

pub board-append :
    (p : Pins) (xs ys : List PinWrite) (r : Register)
    → board p r (xs ++ ys) ≡ board p (board p r xs) ys
unfolding board
board-append p [] ys r = refl
board-append p (x ∷ xs) ys r = board-append p xs ys (on_write p r x)

abbrev pub is_board : Pins → PinWrite → Bool
is_board p w = is_on 8 p.sclk w || is_on 8 p.din w || is_on 8 p.latch w

pub on_write-away :
    (p : Pins) (r : Register) (w : PinWrite) → is_board p w ≡ false → on_write p r w ≡ r
unfolding on_write
on_write-away p r w h = ground arith

abbrev pub register : (din sclk latch : Bool) → (shift shown : List Bool) → Register
register din sclk latch shift shown = record {
  din = din;
  sclk = sclk;
  latch = latch;
  shift = shift;
  shown = shown;
}

-- The bits n - 1 to 0 of a byte in front of those that were there.
unfoldable pub shift_in : ℕ → ℕ → List Bool → List Bool
shift_in byte zero bits = bits
shift_in byte (suc i) bits = shift_in byte i (bit_set byte i ∷ bits)

-- The level of the data pin after them.
unfoldable pub last_bit : ℕ → ℕ → Bool → Bool
last_bit byte zero d = d
last_bit byte (suc i) d = last_bit byte i (bit_set byte i)

output-shift_in_old :
    (byte n j k : ℕ) (bits : List Bool)
    → k ≡ n + j
    → output (shift_in byte n bits) k ≡ output bits j
unfolding shift_in output
output-shift_in_old byte zero j k bits e = ap (output bits) (omega (arith, e))
output-shift_in_old byte (suc i) j k bits e =
    output-shift_in_old byte i (suc j) k (bit_set byte i ∷ bits) (omega (arith, e))

pub output-shift_in :
    (byte n j : ℕ) (bits : List Bool) → j < n → output (shift_in byte n bits) j ≡ bit_set byte j
unfolding shift_in output
output-shift_in byte zero j bits h = absurd (omega arith)
output-shift_in byte (suc i) j bits h = elim (Bool-cases (j == i)) [
  | inl last ↦
      let here : j ≡ i = ground arith in
      output-shift_in_old byte i 0 j (bit_set byte i ∷ bits) (omega arith)
      ∙ ap (bit_set byte) (sym here)
  | inr before ↦ output-shift_in byte i j (bit_set byte i ∷ bits) (ground arith)
]

module _ (p : Pins) (din_sclk : p.din ≢ p.sclk) (latch_sclk : p.latch ≢ p.sclk)
    (latch_din : p.latch ≢ p.din) where
  on_write-din :
      (b d l : Bool) (bits out : List Bool)
      → on_write p (register d false l bits out) (if b then pin_high 8 p.din else pin_low 8 p.din)
        ≡ register b false l bits out
  unfolding on_write
  on_write-din b d l bits out = ground (arith, din_sclk)

  on_write-clock :
      (d l : Bool) (bits out : List Bool)
      → on_write p (on_write p (register d false l bits out) (pin_high 8 p.sclk)) (pin_low 8 p.sclk)
        ≡ register d false l (d ∷ bits) out
  unfolding on_write
  on_write-clock d l bits out = ground arith

  board-latch :
      (d : Bool) (bits out : List Bool)
      → board p (register d false false bits out) (pin_high 8 p.latch ∷ pin_low 8 p.latch ∷ [])
        ≡ register d false false bits bits
  unfolding board on_write
  board-latch d bits out = ground (arith, latch_sclk, latch_din)

  board-send_bits :
      (byte n : ℕ) (d : Bool) (bits out : List Bool)
      → board p (register d false false bits out) (send_bits p byte n)
        ≡ register (last_bit byte n d) false false (shift_in byte n bits) out
  unfolding board send_bits last_bit shift_in
  board-send_bits byte zero d bits out = refl
  board-send_bits byte (suc i) d bits out =
      ap
        (λ r.
          board p (on_write p (on_write p r (pin_high 8 p.sclk)) (pin_low 8 p.sclk))
            (send_bits p byte i))
        (on_write-din (bit_set byte i) d false bits out)
      ∙ ap (λ r. board p r (send_bits p byte i)) (on_write-clock (bit_set byte i) false bits out)
      ∙ board-send_bits byte i (bit_set byte i) (bit_set byte i ∷ bits) out

  -- What one control byte makes of the register.
  pub board-send_ccb :
      (byte : ℕ) (d : Bool) (bits out : List Bool)
      → board p (register d false false bits out) (send_ccb p byte)
        ≡ register (last_bit byte 8 false) false false (shift_in byte 8 bits) (shift_in byte 8 bits)
  unfolding board send_ccb
  board-send_ccb byte d bits out =
      ap (λ r. board p r (send_bits p byte 8 ++ pin_high 8 p.latch ∷ pin_low 8 p.latch ∷ []))
        (on_write-din false d false bits out)
      ∙ board-append p (send_bits p byte 8) (pin_high 8 p.latch ∷ pin_low 8 p.latch ∷ [])
          (register false false false bits out)
      ∙ ap (λ r. board p r (pin_high 8 p.latch ∷ pin_low 8 p.latch ∷ []))
          (board-send_bits byte 8 false bits out)
      ∙ board-latch (last_bit byte 8 false) (shift_in byte 8 bits) out
