-- ===== src/OldDaemon/Levels.antt =====
-- The level of a pin after the writes of BBB/old daemon/Dcon.c: that of the last write to it.
use pcon_tng.Prelude.{
  ℕ, zero, suc, ◌+◌, ◌<◌, ◌≤◌, ◌≡◌, ◌≢◌, refl, ap, subst, ◌∙◌, List, [], ◌∷◌, ◌++◌, Bool, true,
  false, not, Bool-cases, inl, inr, ◌&&◌, ◌==◌, if◌then◌else◌, if-true, if-false, arith,
}
use pcon_tng.TypeDefs.{IpcDat}
use pcon_tng.Daemon.Relays.{chn}
use pcon_tng.OldDaemon.{PinWrite, Pins, pin_high, pin_low, relay_writes}
use pcon_tng.OldDaemon.Register.{is_on}

unfoldable pub pin_level : (header pin : ℕ) → List PinWrite → Bool → Bool
pin_level header pin [] v = v
pin_level header pin (w ∷ ws) v = pin_level header pin ws (if is_on header pin w then w.high else v)

pub pin_level-append :
    (header pin : ℕ) (xs ys : List PinWrite) (v : Bool)
    → pin_level header pin (xs ++ ys) v ≡ pin_level header pin ys (pin_level header pin xs v)
unfolding pin_level
pin_level-append header pin [] ys v = refl
pin_level-append header pin (x ∷ xs) ys v =
    pin_level-append header pin xs ys (if is_on header pin x then x.high else v)

-- No write of the list is to the pin.
unfoldable pub spares : (header pin : ℕ) → List PinWrite → Bool
spares header pin [] = true
spares header pin (w ∷ ws) = not (is_on header pin w) && spares header pin ws

pub pin_level-spares :
    (header pin : ℕ) (ws : List PinWrite) (v : Bool)
    → spares header pin ws ≡ true
    → pin_level header pin ws v ≡ v
unfolding pin_level spares
pin_level-spares header pin [] v h = refl
pin_level-spares header pin (w ∷ ws) v h = ground (arith, pin_level-spares header pin ws v)

-- No two of the eight relays on gpio pins share a pin.
abbrev pub AreApart : Pins → Type 0
AreApart p =
    (i j : ℕ)
    → i < 8
    → j < 8
    → i ≢ j
    → (p.header (i + 8) == p.header (j + 8) && p.pin (i + 8) == p.pin (j + 8)) ≡ false

-- Whether a write is to a pin does not depend on what is written.
is_on-either :
    (header pin h q : ℕ) (off : Bool)
    → is_on header pin (if off then pin_low h q else pin_high h q) ≡ (h == header && q == pin)
is_on-either header pin h q true = refl
is_on-either header pin h q false = refl

high-either : (h q : ℕ) (off : Bool) → (if off then pin_low h q else pin_high h q).high ≡ not off
high-either h q true = refl
high-either h q false = refl

module _ {F : Type 0} (p : Pins) (apart : AreApart p) (ipc : IpcDat F) where
  -- The first write of the loop.
  abbrev relay_write : ℕ → PinWrite
  relay_write channel =
      if (chn ipc channel).state == 0
      then pin_low (p.header (channel + 8)) (p.pin (channel + 8))
      else pin_high (p.header (channel + 8)) (p.pin (channel + 8))

  abbrev relay_level : ℕ → List PinWrite → Bool → Bool
  relay_level j ws v = pin_level (p.header (j + 8)) (p.pin (j + 8)) ws v

  relay_writes-later :
      (j channel n : ℕ) (v : Bool)
      → j < channel
      → channel + n ≤ 8
      → relay_level j (relay_writes p ipc channel n) v ≡ v
  unfolding pin_level relay_writes
  relay_writes-later j channel zero v h l = refl
  relay_writes-later j channel (suc n) v h l =
      ap (relay_level j (relay_writes p ipc (suc channel) n)) (
        if-false _ _ _ (
          is_on-either (p.header (j + 8)) (p.pin (j + 8)) (p.header (channel + 8))
            (p.pin (channel + 8)) ((chn ipc channel).state == 0)
          ∙ apart channel j (omega arith) (omega arith) (omega arith)))
      ∙ relay_writes-later j (suc channel) n v (omega arith) (omega arith)

  relay_writes-own :
      (channel n : ℕ) (v : Bool)
      → channel + suc n ≤ 8
      → relay_level channel (relay_writes p ipc channel (suc n)) v
        ≡ not ((chn ipc channel).state == 0)
  unfolding pin_level relay_writes
  relay_writes-own channel n v l =
      let header = p.header (channel + 8) in
      let pin = p.pin (channel + 8) in
      let off = (chn ipc channel).state == 0 in
      ap (relay_level channel (relay_writes p ipc (suc channel) n)) (
        if-true _ _ _ (is_on-either header pin header pin off ∙ ground arith)
        ∙ high-either header pin off)
      ∙ relay_writes-later channel (suc channel) n (not off) (omega arith) (omega arith)

  -- After the loop each of the relays on gpio pins has the state of its channel.
  pub relay_writes-level :
      (j channel n : ℕ) (v : Bool)
      → channel ≤ j
      → j < channel + n
      → channel + n ≤ 8
      → pin_level (p.header (j + 8)) (p.pin (j + 8)) (relay_writes p ipc channel n) v
        ≡ not ((chn ipc j).state == 0)
  unfolding pin_level relay_writes
  relay_writes-level j channel zero v l h e = absurd (omega arith)
  relay_writes-level j channel (suc n) v l h e = elim (Bool-cases (j == channel)) [
    | inl own ↦
        let here : channel ≡ j = ground arith in
        subst
          (λ i. relay_level i (relay_writes p ipc channel (suc n)) v ≡ not ((chn ipc i).state == 0))
          here (relay_writes-own channel n v e)
    | inr other ↦
        relay_writes-level j (suc channel) n
          (if is_on (p.header (j + 8)) (p.pin (j + 8)) (relay_write channel)
            then (relay_write channel).high
            else v)
          (ground arith) (omega arith) (omega arith)
  ]
