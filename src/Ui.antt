-- ===== src/Ui.antt =====
-- BBB/UI/Pcon.c: the main loop of the user interface, which runs the commands that are queued and
-- then waits for a key. `escape`, which is set and never read, and what is printed are left out.
pub mod Commands
pub mod Console
pub mod Lines
pub mod Start
pub mod FirstRun
pub mod Switch
pub mod Name
pub mod Tests
use pcon_tng.Prelude.{
  ℕ, zero, suc, List, [], ◌∷◌, Option, none, some, Bool, true, false, ◌==◌, if◌then◌else◌, length,
}
use pcon_tng.Float.{CFloat}
use pcon_tng.Sch.{SRec}
use pcon_tng.CharFsm.{Reader, char_fsm_reset}
use pcon_tng.CmdFsm.State.{Cmd}
use pcon_tng.CmdFsm.Engine.{cmd_fsm, cmd_fsm_reset}
use pcon_tng.LineEditor.{
  Editor, insert_char, delete_char, arrow_left, arrow_right, arrow_up, arrow_down, return_key,
  escape_key,
}

-- The program's globals: the editor, the character parser with the queue of tokens, and the command
-- processor, whose field for the queue is in effect while commands run.
pub record Ui (F : Type 0) : Type 0 where
  pub editor : Editor
  pub reader : Reader
  pub cmd : Cmd F

-- What `fgetc` and the two calls behind an escape amount to.
pub data Key : Type 0 where
  no_char up down right left escape carriage_return delete : Key
  character : ℕ → Key

abbrev pub escape_code : ℕ → Key
escape_code c =
    if c == b'A'
    then up
    else if c == b'B'
    then down
    else if c == b'C'
    then right
    else if c == b'D'
    then left
    else escape

-- The next key of the input and the rest of the input; `none` while the keyboard is waited for.
unfoldable pub next_key : List ℕ → Option (Key × List ℕ)
next_key [] = none
next_key (c ∷ cs) =
    if c == 255
    then some (no_char, cs)
    else if c == 27
    then after_escape cs
    else if c == 13
    then some (carriage_return, cs)
    else if c == 127
    then some (delete, cs)
    else some (character c, cs)
  where
    after_escape : List ℕ → Option (Key × List ℕ)
    after_escape [] = none
    after_escape (_ ∷ []) = none
    after_escape (_ ∷ c ∷ cs) = some (escape_code c, cs)

module _ {F : Type 0} where
  -- pop_cmd_q(cmd_fsm_cb.token)
  abbrev pub with_token : List ℕ → List (List ℕ) → Cmd F → Cmd F
  with_token token queue s = record s { cb = record (s.cb) { token = token }; cmd_q = queue }

module _ {F : Type 0} ⦃fl : CFloat F⦄ (below : SRec F) where
  -- while (pop_cmd_q(token)) cmd_fsm(&cb)
  -- on a queue, with at most `n` rounds.
  unfoldable pub commands : ℕ → List (List ℕ) → Cmd F → Cmd F
  commands n [] s = with_token [] [] s
  commands zero (t ∷ ts) s = with_token [] (t ∷ ts) s
  commands (suc n) (t ∷ ts) s =
      let next = cmd_fsm below (with_token t ts s) in
      let rest = commands n next.cmd_q next in if next.ended then next else rest

  -- The commands that are queued, and the prompt.
  unfoldable pub run_commands : Ui F → Ui F
  run_commands u =
      let s = commands (length u.reader.queue) u.reader.queue u.cmd in
      record u {
        editor = record (u.editor) { prompted = true };
        reader = record (u.reader) { queue = s.cmd_q };
        cmd = s;
      }

module _ {F : Type 0} where
  abbrev pub with_editor : Ui F → Option Editor → Option (Ui F)
  with_editor u none = none
  with_editor u (some e) = some (record u { editor = e })

  abbrev pub with_line : Ui F → Option (Editor × Reader) → Option (Ui F)
  with_line u none = none
  with_line u (some (e, r)) = some (record u { editor = e; reader = r })

  -- The switch on the key.
  unfoldable pub press : Key → Ui F → Option (Ui F)
  press no_char u = some u
  press up u = with_editor u (arrow_up u.editor)
  press down u = with_editor u (arrow_down u.editor)
  press right u = some (record u { editor = arrow_right u.editor })
  press left u = some (record u { editor = arrow_left u.editor })
  press escape u = some (record u {
    editor = escape_key u.editor;
    reader = record (char_fsm_reset u.reader) { queue = [] };
    cmd = cmd_fsm_reset (with_token [] [] u.cmd);
  })
  press carriage_return u = with_line u (return_key u.editor u.reader)
  press delete u = some (record u { editor = delete_char u.editor })
  press (character c) u = some (record u { editor = insert_char c u.editor })

module _ {F : Type 0} ⦃fl : CFloat F⦄ (below : SRec F) where
  -- Rounds of the main loop, one for each key; no key is read once the process has ended.
  unfoldable pub main_loop : List Key → Option (Ui F) → Option (Ui F)
  main_loop [] u = u
  main_loop (k ∷ ks) none = none
  main_loop (k ∷ ks) (some u) =
      let ready = run_commands below u in
      let rest = main_loop ks (press k ready) in if ready.cmd.ended then some ready else rest
