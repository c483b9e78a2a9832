-- ===== src/Ui/Start.antt =====
-- BBB/UI/Pcon.c: the start of `main`, from the check of the versions to the main loop. Shared memory
-- is mapped before; the terminal's settings are left out.
use pcon_tng.Prelude.{
  ℕ, zero, suc, ◌≡◌, ◌≢◌, ◌⊎◌, inl, inr, refl, ℤ, pos, [], some, true, false, ◌==◌, if◌then◌else◌,
  if-elim, if-true, arith,
}
use pcon_tng.TypeDefs.{number_of_channels, number_of_sensors, cmd_tokens, cmd_states}
use pcon_tng.CharFsm.{char_fsm_reset}
use pcon_tng.CmdFsm.State.{Cmd}
use pcon_tng.CmdFsm.Engine.{cmd_fsm_reset}
use pcon_tng.SystemData.{
  sys_comp, major_version_system, minor_version_system, minor_revision_system,
}
use pcon_tng.SystemData.Laws.{current, sys_comp-current}
use pcon_tng.LineEditor.{Editor, erased, erased_row, cmd_buffer_depth, string_at, string_limit}
use pcon_tng.Ui.{Ui}
use pcon_tng.Ui.Console.{Waiting}

-- for (i = 0; i < _CMD_BUFFER_DEPTH; i++) memset(&ring_buffer[i][0], '\0', _INPUT_BUFFER_SIZE)
unfoldable pub erased_rows : ℕ → ℕ → (ℤ → ℕ) → ℤ → ℕ
erased_rows i zero ring = ring
erased_rows i (suc n) ring = erased_rows (suc i) n (erased_row i ring)

-- The input buffer and the ring buffer at the start.
abbrev pub cleared_editor : Editor → Editor
cleared_editor e = record e {
  work_buffer = erased e.work_buffer;
  work_buffer_ptr = 0;
  input_ptr = 0;
  ring_buffer = erased_rows 0 cmd_buffer_depth e.ring_buffer;
  rb_in_idx = 0;
  rb_out_idx = pos 0;
}

empty_string : (f : ℕ → ℕ) → f 0 ≡ 0 → string_at f 0 string_limit ≡ some []
unfolding string_at
empty_string f e = if-true (f 0 == 0) (some []) _ (ground arith)

module _ {F : Type 0} where
  -- The program's version, written to shared memory.
  abbrev pub updated_config : Cmd F → Cmd F
  updated_config s = record s {
    ipc = record (s.ipc) {
      sys_data = record (s.ipc.sys_data) {
        config = record {
          major_version = major_version_system;
          minor_version = minor_version_system;
          minor_revision = minor_revision_system;
          channels = number_of_channels;
          sensors = number_of_sensors;
          commands = cmd_tokens;
          states = cmd_states;
        };
      };
    };
  }

  -- The working schedule and the sensor that is edited.
  abbrev pub loaded_schedule : Cmd F → Cmd F
  loaded_schedule s = record s {
    cb = record (s.cb) {
      w_sch = s.ipc.sys_data.sys_sch;
      w_sen_dat = record (s.cb.w_sen_dat) { group = []; description = [] };
    };
  }

  unfoldable pub initialised : Ui F → Ui F
  initialised u = record u {
    editor = cleared_editor u.editor;
    reader = char_fsm_reset u.reader;
    cmd = cmd_fsm_reset (loaded_schedule u.cmd);
  }

  -- `answer` is the character that `getchar` returns when the user is asked.
  unfoldable pub start_up : ℕ → Ui F → Ui F
  start_up answer u =
      if sys_comp u.cmd.ipc.sys_data.config == 0
      then initialised u
      else if answer == b'y'
      then initialised (record u { cmd = updated_config u.cmd })
      else record u { cmd = record (u.cmd) { ended = true } }

  -- The main loop can start: it waits with an empty line, in state 0, for the program's own version
  -- of the data, and the working schedule is the one in effect.
  pub record Ready (u : Ui F) : Type 0 where
    pub waits : Waiting u u.cmd []
    pub in_state : u.cmd.cb.state ≡ 0
    pub version : u.cmd.ipc.sys_data.config ≡ current
    pub schedule : u.cmd.cb.w_sch ≡ u.cmd.ipc.sys_data.sys_sch

  pub initialised-Ready :
      (u : Ui F)
      → u.reader.queue ≡ []
      → u.editor.previous_work_buffer 0 ≡ 0
      → u.cmd.ended ≡ false
      → u.cmd.ipc.sys_data.config ≡ current
      → Ready (initialised u)
  unfolding initialised char_fsm_reset cmd_fsm_reset
  initialised-Ready u queue previous runs version = record {
    waits = record {
      entered = record {
        shows = record {
          at_end = refl;
          at_cursor = refl;
          inside = omega arith;
          cells = λ k b. absurd (omega arith);
        };
        tidy = λ k a b. ground arith;
        previous = [];
        readable = empty_string u.editor.previous_work_buffer previous;
      };
      no_token = queue;
      runs = runs;
      commanded = refl;
    };
    in_state = refl;
    version = version;
    schedule = refl;
  }

  -- How the start ends: the main loop can start, or the process has ended and the shared data is
  -- as it was.
  pub data Started (before : Ui F) (answer : ℕ) : Ui F → Type 0 where
    ready :
        {u : Ui F}
        → (before.cmd.ipc.sys_data.config ≡ current) ⊎ (answer ≡ b'y')
        → Ready u
        → Started before answer u
    refused :
        {u : Ui F}
        → before.cmd.ipc.sys_data.config ≢ current
        → answer ≢ b'y'
        → u.cmd.ended ≡ true
        → u.cmd.ipc ≡ before.cmd.ipc
        → Started before answer u

  -- On a program that runs, with no token queued and an empty previous line, as its globals are at
  -- first, the start ends in one of two ways: the data is of the program's version or the user
  -- answers `y`, and then the main loop can start, with the version in shared memory; or neither,
  -- and then the process has ended and the shared data is as it was.
  pub start_up-Started :
      (answer : ℕ) (u : Ui F)
      → u.reader.queue ≡ []
      → u.editor.previous_work_buffer 0 ≡ 0
      → u.cmd.ended ≡ false
      → Started u answer (start_up answer u)
  unfolding start_up
  start_up-Started answer u queue previous runs =
      let config = u.cmd.ipc.sys_data.config in
      if-elim (Started u answer) (sys_comp config == 0) _ _
        (λ same.
          let version = (sys_comp-current config).0.0 (ground arith) in
          ready (inl version) (initialised-Ready u queue previous runs version))
        (λ other.
          if-elim (Started u answer) (answer == b'y') _ _
            (λ yes. ready (inr (ground arith)) (
              initialised-Ready (record u { cmd = updated_config u.cmd }) queue previous runs refl))
            (λ no.
              refused (λ e. absurd (ground (arith, (sys_comp-current config).0.1 e))) (ground arith)
                refl refl))
