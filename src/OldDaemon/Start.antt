-- ===== src/OldDaemon/Start.antt =====
-- BBB/old daemon/Dcon.c: the start of the earlier daemon, from the setup of the pins to the head of the
-- main loop. The trace, the clock's bus and the mapping of shared memory are left out.
use pcon_tng.Prelude.{ℕ, ℤ, List, [], ◌∷◌, ◌++◌, map}
use pcon_tng.TypeDefs.{IpcDat, Tm}
use pcon_tng.OldDaemon.{PinWrite, Pins, DaemonState, pin_low}

-- What the setup asks of the system: the command of `init_gpio`, which exports a gpio that is not
-- there yet, `iolib_setdir(header, pin, BBBIO_DIR_OUT)` and `pin_low`.
pub data Setup : Type 0 where
  export_gpio : ℕ → Setup
  set_out : (header pin : ℕ) → Setup
  set_level : PinWrite → Setup

abbrev pub init_gpio : List ℕ → List Setup
init_gpio gpios = map export_gpio gpios

abbrev pub low : (header pin : ℕ) → Setup
low header pin = set_level (pin_low header pin)

abbrev pub setup_leds : Pins → List Setup
setup_leds p =
    set_out 8 (p.led 1)
    ∷ set_out 8 (p.led 2)
    ∷ set_out 8 (p.led 3)
    ∷ set_out 8 (p.led 4)
    ∷ low 8 (p.led 1)
    ∷ low 8 (p.led 2)
    ∷ low 8 (p.led 3)
    ∷ low 8 (p.led 4)
    ∷ []

abbrev pub setup_relays : Pins → List Setup
setup_relays p =
    set_out 8 (p.cape 1)
    ∷ set_out 8 (p.cape 2)
    ∷ set_out 8 (p.cape 3)
    ∷ set_out 8 (p.cape 4)
    ∷ set_out 9 (p.cape 5)
    ∷ set_out 9 (p.cape 6)
    ∷ set_out 9 (p.cape 7)
    ∷ set_out 9 (p.cape 8)
    ∷ low 8 (p.cape 1)
    ∷ low 8 (p.cape 2)
    ∷ low 8 (p.cape 3)
    ∷ low 8 (p.cape 4)
    ∷ low 9 (p.cape 5)
    ∷ low 9 (p.cape 6)
    ∷ low 9 (p.cape 7)
    ∷ low 9 (p.cape 8)
    ∷ []

abbrev pub setup_board : Pins → List Setup
setup_board p =
    set_out 8 p.din ∷ set_out 8 p.sclk ∷ set_out 8 p.latch ∷ low 8 p.sclk ∷ low 8 p.din ∷ []

unfoldable pub setup : List ℕ → Pins → List Setup
setup gpios p = init_gpio gpios ++ (setup_leds p ++ (setup_relays p ++ setup_board p))

-- The calls of `pin_high` and `pin_low` among them.
abbrev pub written_pins : List Setup → List PinWrite
written_pins [] = []
written_pins (export_gpio gpio ∷ rest) = written_pins rest
written_pins (set_out header pin ∷ rest) = written_pins rest
written_pins (set_level w ∷ rest) = w ∷ written_pins rest

-- The global `tm` before the clock is read.
abbrev pub unread : Tm
unread = record {
  tm_sec = 0;
  tm_min = 0;
  tm_hour = 0;
  tm_mday = 0;
  tm_mon = 0;
  tm_year = 0;
  tm_wday = 0;
}

module _ {F : Type 0} where
  -- The daemon at the head of its loop. `gpios` is the array `_GPIOS`, which no header of the
  -- repository defines; `hold` is the slab controller's static reading; `h_min` and `toggle` are what
  -- the uninitialised variables hold.
  unfoldable pub start : List ℕ → Pins → IpcDat F → (hold : ℤ) → (h_min toggle : ℕ) → DaemonState F
  start gpios p ipc hold h_min toggle = record {
    ipc = record ipc { force_update = 1 };
    hold = hold;
    tm = unread;
    h_min = h_min;
    toggle = toggle;
    writes = written_pins (setup gpios p);
  }
