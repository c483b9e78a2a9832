-- ===== src/Ui/Tests.antt =====
-- The user interface at the house of CmdFsm.Tests.
use pcon_tng.Prelude.{
  false, ◌==◌, if◌then◌else◌, ◌≡◌, refl, pos, negsuc, List, [], ◌∷◌, none, some, arith, ℤ, ℕ,
  length,
}
use pcon_tng.Float.{whole}
use pcon_tng.Sch.{SRec}
use pcon_tng.Sch.Tests.{rec_at}
use pcon_tng.Daemon.{chan_gpio, main_round}
use pcon_tng.Daemon.Pins.{level}
use pcon_tng.Daemon.Tests.{noon, started, dark}
use pcon_tng.CmdFsm.State.{Cmd}
use pcon_tng.CmdFsm.Tests.{start}
use pcon_tng.LineEditor.{string_at, string_limit}
use pcon_tng.LineEditor.Tests.{fresh, fresh-Shows, empty_reader}
use pcon_tng.Ui.{Ui, up, escape, character, next_key, with_token, commands, run_commands, main_loop}
use pcon_tng.Ui.Commands.{Finished, commands-Finished}
use pcon_tng.Ui.Console.{Waiting}
use pcon_tng.Ui.Lines.{keys, words, Queued, keys-commands}
use pcon_tng.SystemData.Laws.{current}
use pcon_tng.Ui.FirstRun.{start_up-Ready}
use pcon_tng.Daemon.Start.{new_config, start as daemon_start}
use pcon_tng.Ui.Start.{initialised, Ready, start_up, Started, start_up-Started}
use pcon_tng.Ui.Name.{keyboard_names_channel}
use pcon_tng.CharFsm.Keys.{text}
use pcon_tng.Daemon.Relays.{chn}
use pcon_tng.Ui.Switch.{typed_on, typed_off, keyboard_reaches_pin}

abbrev junk : SRec ℤ
junk = rec_at 999 7 (negsuc 3)

abbrev three : List ℕ
three = b'3' ∷ []

commands-Finished_example :
    (commands junk 5 (three ∷ three ∷ []) start ≡ commands junk 2 (three ∷ three ∷ []) start)
    × Finished (commands junk 2 (three ∷ three ∷ []) start)
commands-Finished_example = commands-Finished junk 5 (three ∷ three ∷ []) start (omega arith)

-- Channel 3 is being edited.
abbrev editing : Cmd ℤ
editing = record start { cb = record (start.cb) { state = 1; w_channel = pos 3 } }

abbrev at_console : Ui ℤ
at_console = record { editor = fresh; reader = empty_reader; cmd = editing }

readable_fresh : string_at fresh.previous_work_buffer 0 string_limit ≡ some []
unfolding string_at
readable_fresh = refl

at_console-Waiting : Waiting at_console editing []
at_console-Waiting = record {
  entered = record {
    shows = fresh-Shows;
    tidy = λ k a b. refl;
    previous = [];
    readable = readable_fresh;
  };
  no_token = refl;
  runs = refl;
  commanded = refl;
}

keys-commands_example :
    (u : Ui ℤ) × (main_loop junk (keys (typed_on ∷ typed_off ∷ [])) (some at_console) ≡ some u)
    × Queued u editing (typed_on ∷ typed_off ∷ [])
    × ((run_commands junk u).cmd
        ≡ commands junk
            (length (words (typed_on ∷ typed_off ∷ [])))
            (words (typed_on ∷ typed_off ∷ []))
            (with_token [] [] editing))
keys-commands_example =
    keys-commands junk typed_on (typed_off ∷ []) at_console (omega arith) refl at_console-Waiting

keyboard_reaches_pin_example :
    ((u : Ui ℤ) × (main_loop junk (keys (typed_on ∷ [])) (some at_console) ≡ some u)
      × (level
            (main_round 0 noon (record started { ipc = (run_commands junk u).cmd.ipc })).writes
            (chan_gpio 3)
            none
          ≡ some 1))
    × ((u : Ui ℤ) × (main_loop junk (keys (typed_off ∷ [])) (some at_console) ≡ some u)
        × (level
              (main_round 0 noon (record started { ipc = (run_commands junk u).cmd.ipc })).writes
              (chan_gpio 3)
              none
            ≡ some 0))
keyboard_reaches_pin_example =
    keyboard_reaches_pin junk at_console 2 0 noon started none (omega arith) at_console-Waiting refl
      refl

abbrev porch : List ℕ
porch = b'p' ∷ b'o' ∷ 32 ∷ b'r' ∷ []

keyboard_names_channel_example :
    (u : Ui ℤ) × (main_loop junk (keys (text porch refl ∷ [])) (some at_console) ≡ some u)
    × (chn (run_commands junk u).cmd.ipc 3 ≡ (
        if 3 == 3
        then record (chn at_console.cmd.ipc 3) { name = porch }
        else chn at_console.cmd.ipc 3))
keyboard_names_channel_example =
    keyboard_names_channel junk at_console 2 porch refl 3 (omega arith) refl at_console-Waiting refl
      refl

-- An arrow is three bytes, and an escape behind which another byte stands is a reset.
decoded :
    (next_key (27 ∷ b'[' ∷ b'A' ∷ b'x' ∷ []) ≡ some (up, b'x' ∷ []))
    × (next_key (27 ∷ 27 ∷ 27 ∷ []) ≡ some (escape, []))
    × (next_key (27 ∷ b'[' ∷ []) ≡ none)
    × (next_key (b'x' ∷ []) ≡ some (character b'x', []))
unfolding next_key
decoded = (refl, refl, refl, refl)

-- An older version in shared memory, and a user who answers `y`.
abbrev outdated : Ui ℤ
outdated = record at_console {
  cmd = record editing {
    ipc = record (editing.ipc) {
      sys_data = record (editing.ipc.sys_data) { config = record current { minor_version = 1 } };
    };
  };
}

start_up-Started_example : Started outdated b'y' (start_up b'y' outdated)
start_up-Started_example = start_up-Started b'y' outdated refl refl refl

-- The data of a daemon that found no file.
abbrev on_new_file : Ui ℤ
on_new_file = record at_console { cmd = record editing { ipc = new_config dark } }

on_new_file-same : on_new_file.cmd.ipc ≡ (daemon_start false dark (pos 50) 0 0).ipc
unfolding daemon_start
on_new_file-same = refl

start_up-Ready_example :
    (start_up b'n' on_new_file ≡ initialised on_new_file) × Ready (initialised on_new_file)
start_up-Ready_example =
    start_up-Ready dark (pos 50) 0 0 b'n' on_new_file on_new_file-same refl refl refl
