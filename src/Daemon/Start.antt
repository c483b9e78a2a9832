-- ===== src/Daemon/Start.antt =====
-- BBB/daemon/Dcon.c: the start of the daemon, from the check of the file to the main loop. The fork,
-- the session, the mapping of the file and the log are left out.
use pcon_tng.Prelude.{
  ℕ, zero, suc, ◌≡◌, ◌<◌, inl, inr, refl, sym, ap, ◌∙◌, ℤ, List, [], ◌∷◌, ◌++◌, Option, none, some,
  Bool, true, false, ◌==◌, if◌then◌else◌, arith, get_or, Bool-cases, if-true, if-false,
}
use pcon_tng.Prelude.Below.{all_below, all_below-at}
use pcon_tng.Float.{CFloat}
use pcon_tng.TypeDefs.{IpcDat, number_of_channels, number_of_sensors, cmd_tokens, cmd_states}
use pcon_tng.SystemData.{major_version_system, minor_version_system, minor_revision_system}
use pcon_tng.Daemon.{Write, DaemonState, chan_gpio, heart}
use pcon_tng.Daemon.Relays.{chn}
use pcon_tng.Daemon.Pins.{level, bit, shown}
use pcon_tng.Daemon.Requests.{World, at, head, Reach, IsShown, IsServed, Reach-IsServed}

-- The three shell commands of `init_gpio`.
pub data Command : Type 0 where
  export direction_out : ℕ → Command
  value : ℕ → ℕ → Command

abbrev pub init_gpio : ℕ → List Command
init_gpio gpio = export gpio ∷ direction_out gpio ∷ value gpio 0 ∷ []

-- for (i = …; n more; i++) init_gpio(gpios[i])
unfoldable pub init_gpios : (ℕ → ℕ) → ℕ → ℕ → List Command
init_gpios gpio i zero = []
init_gpios gpio i (suc n) = init_gpio (gpio i) ++ init_gpios gpio (suc i) n

unfoldable pub start_commands : List Command
unfolding init_gpios
start_commands = init_gpios chan_gpio 0 number_of_channels ++ init_gpios (λ i. get_or heart i 0) 0 4

-- What is written to the pins.
abbrev pub written : List Command → List Write
written [] = []
written (export gpio ∷ rest) = written rest
written (direction_out gpio ∷ rest) = written rest
written (value gpio v ∷ rest) = record { gpio = gpio; value = v } ∷ written rest

module _ {F : Type 0} where
  -- The configuration in a file that is new.
  abbrev pub new_config : IpcDat F → IpcDat F
  new_config ipc = record ipc {
    sys_data = record (ipc.sys_data) {
      config = record {
        major_version = major_version_system;
        minor_version = minor_version_system;
        minor_revision = minor_revision_system;
        channels = number_of_channels;
        sensors = number_of_sensors;
        commands = cmd_tokens;
        states = cmd_states;
      };
    };
  }

  -- The daemon at the head of its loop. `found` is whether the file was there; `hold` is the slab
  -- controller's static reading; `h_min` and `toggle` are what the uninitialised variables hold.
  unfoldable pub start : Bool → IpcDat F → (hold : ℤ) → (h_min toggle : ℕ) → DaemonState F
  start found ipc hold h_min toggle = record {
    ipc = if found then ipc else new_config ipc;
    hold = hold;
    h_min = h_min;
    toggle = toggle;
    writes = written start_commands;
  }

level_written :
    (ws : List Write) (g n : ℕ) (v : Option ℕ) → level ws g none ≡ some n → level ws g v ≡ some n
unfolding level
level_written [] g n v h = cc
level_written (w ∷ ws) g n v h = elim (Bool-cases (w.gpio == g)) [
  | inl own ↦
      ap (λ (u : Option ℕ). level ws g u) (if-true (w.gpio == g) (some w.value) v own)
      ∙ sym (ap (λ (u : Option ℕ). level ws g u) (if-true (w.gpio == g) (some w.value) none own))
      ∙ h
  | inr other ↦
      ap (λ (u : Option ℕ). level ws g u) (if-false (w.gpio == g) (some w.value) v other)
      ∙ level_written ws g n v (
          sym
            (ap (λ (u : Option ℕ). level ws g u) (if-false (w.gpio == g) (some w.value) none other))
          ∙ h)
]

is_low : Option ℕ → Bool
is_low none = false
is_low (some v) = v == 0

is_low-some : (o : Option ℕ) → is_low o ≡ true → o ≡ some 0
unfolding is_low
is_low-some none h = absurd (ground arith)
is_low-some (some v) h = ground arith

all_low :
    all_below number_of_channels (λ j. is_low (level (written start_commands) (chan_gpio j) none))
    ≡ true
unfolding all_below is_low level start_commands
all_low = refl

start-level :
    (j : ℕ) (v : Option ℕ)
    → j < number_of_channels
    → level (written start_commands) (chan_gpio j) v ≡ some 0
start-level j v h = level_written (written start_commands) (chan_gpio j) 0 v (
    is_low-some (level (written start_commands) (chan_gpio j) none) (
      all_below-at number_of_channels
        (λ k. is_low (level (written start_commands) (chan_gpio k) none)) all_low j h))

module _ {F : Type 0} ⦃fl : CFloat F⦄ (found : Bool) (ipc : IpcDat F) (hold : ℤ)
    (h_min toggle : ℕ) where
  start-IsShown : ((j : ℕ) → (chn ipc j).state ≡ 0) → IsShown (start found ipc hold h_min toggle)
  unfolding start
  start-IsShown off v j h =
      start-level j v h ∙ ap (λ (state : ℕ). some (bit state)) (sym (kept found))
    where
      kept : (found : Bool) → (chn (if found then ipc else new_config ipc) (shown j)).state ≡ 0
      kept true = off (shown j)
      kept false = off (shown j)

  -- From the start of the daemon on data in which each channel is off, whether the file was there or
  -- is new: however the requests of commands and the reports of sensors come between the steps of
  -- the daemon's loop, whenever the daemon is at the head of the loop an update is still asked for,
  -- or each channel's pin shows its state, channel 0's that of channel 12.
  pub start-IsServed :
      {w : World F}
      → ((j : ℕ) → (chn ipc j).state ≡ 0)
      → Reach (at head (start found ipc hold h_min toggle)) w
      → IsServed w
  start-IsServed off r = Reach-IsServed (λ e. inr (start-IsShown off)) r
