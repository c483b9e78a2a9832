-- ===== src/Daemon/Pins.antt =====
-- What the writes of an update leave on the gpio pins.
use pcon_tng.Prelude.{
  ℕ, zero, suc, ◌<◌, ◌≡◌, refl, ℤ, List, [], ◌∷◌, Option, some, ◌==◌, if◌then◌else◌, arith, ◌++◌,
  not, ◌&&◌, Bool, true,
}
use pcon_tng.Prelude.Below.{all_below, all_below-at}
use pcon_tng.Float.{CFloat}
use pcon_tng.TypeDefs.{IpcDat, Tm, number_of_channels}
use pcon_tng.Daemon.{Write, beat, chan_gpio, pin_writes, update_relays}
use pcon_tng.Daemon.Relays.{chn}

-- The value that a pin has after some writes: the last one for it, or else the one before.
unfoldable pub level : List Write → ℕ → Option ℕ → Option ℕ
level [] g v = v
level (w ∷ ws) g v = level ws g (if w.gpio == g then some w.value else v)

abbrev pub bit : ℕ → ℕ
bit state = if state == 0 then 0 else 1

-- The channel whose state a channel's pin shows: channels 0 and 12 are given one gpio, and 12 is
-- written later.
abbrev pub shown : ℕ → ℕ
shown zero = 12
shown (suc j) = suc j

pub level-append :
    (ws vs : List Write) (g : ℕ) (v : Option ℕ) → level (ws ++ vs) g v ≡ level vs g (level ws g v)
unfolding level
level-append [] vs g v = refl
level-append (w ∷ ws) vs g v = level-append ws vs g (if w.gpio == g then some w.value else v)

-- No channel has the pin of a heart beat led.
is_apart : ℕ → Bool
is_apart g = (not (66 == g) && not (67 == g)) && (not (69 == g) && not (68 == g))

all_apart : all_below number_of_channels (λ j. is_apart (chan_gpio j)) ≡ true
unfolding all_below is_apart
all_apart = refl

pub beat-level :
    (even odd j : ℕ) (v : Option ℕ)
    → j < number_of_channels
    → level (beat even odd) (chan_gpio j) v ≡ v
unfolding level is_apart
beat-level even odd j v h =
    ground (arith, all_below-at number_of_channels (λ k. is_apart (chan_gpio k)) all_apart j h)

module _ {F : Type 0} ⦃fl : CFloat F⦄ (stray : ℕ) (tm : Tm) (hold : ℤ) (ipc : IpcDat F)
    (v : Option ℕ) where
  -- After an update the pin of each channel but 0 is up exactly when the channel's state is not off,
  -- and the pin of channel 0 shows channel 12 instead.
  pub update_relays-level :
      (j : ℕ)
      → j < number_of_channels
      → level (update_relays stray tm hold ipc).2 (chan_gpio j) v
        ≡ some (bit (chn (update_relays stray tm hold ipc).0 (shown j)).state)
  unfolding update_relays pin_writes level
  update_relays-level zero h = refl
  update_relays-level (suc zero) h = refl
  update_relays-level (suc (suc zero)) h = refl
  update_relays-level (suc (suc (suc zero))) h = refl
  update_relays-level (suc (suc (suc (suc zero)))) h = refl
  update_relays-level (suc (suc (suc (suc (suc zero))))) h = refl
  update_relays-level (suc (suc (suc (suc (suc (suc zero)))))) h = refl
  update_relays-level (suc (suc (suc (suc (suc (suc (suc zero))))))) h = refl
  update_relays-level (suc (suc (suc (suc (suc (suc (suc (suc zero)))))))) h = refl
  update_relays-level (suc (suc (suc (suc (suc (suc (suc (suc (suc zero))))))))) h = refl
  update_relays-level (suc (suc (suc (suc (suc (suc (suc (suc (suc (suc zero)))))))))) h = refl
  update_relays-level (suc (suc (suc (suc (suc (suc (suc (suc (suc (suc (suc zero))))))))))) h =
      refl
  update_relays-level (suc (suc (suc (suc (suc (suc (suc (suc (suc (suc (suc (suc zero))))))))))))
        h =
      refl
  update_relays-level
        (suc (suc (suc (suc (suc (suc (suc (suc (suc (suc (suc (suc (suc zero))))))))))))) h =
      refl
  update_relays-level
        (suc (suc (suc (suc (suc (suc (suc (suc (suc (suc (suc (suc (suc (suc zero)))))))))))))) h =
      refl
  update_relays-level
        (suc
          (suc (suc (suc (suc (suc (suc (suc (suc (suc (suc (suc (suc (suc (suc zero)))))))))))))))
        h =
      refl
  update_relays-level
        (suc (
          suc
            (suc (suc (suc (suc (suc (suc (suc (suc (suc (suc (suc (suc (suc (suc j))))))))))))))))
        h =
      absurd (omega arith)
