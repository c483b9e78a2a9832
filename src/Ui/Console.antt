-- ===== src/Ui/Console.antt =====
-- BBB/UI/Pcon.c: from the keys of a line to the commands of its words.
use pcon_tng.Prelude.{
  ℕ, ◌+◌, ◌≤◌, ◌≡◌, ◌∙◌, refl, sym, ap, subst, List, [], ◌∷◌, ◌++◌, map, some, true, false,
  if◌then◌else◌, arith, length, if-elim, if-false, leb, ◌==◌, append_assoc, append_nil,
}
use pcon_tng.Float.{CFloat}
use pcon_tng.Sch.{SRec}
use pcon_tng.CharFsm.Holds.{length-snoc}
use pcon_tng.CmdFsm.State.{Cmd}
use pcon_tng.LineEditor.{Editor, insert_char, append_char, squeeze_char, string_at, string_limit}
use pcon_tng.LineEditor.Editing.{Shows, line_end, edited-line_end, insert_char-Shows}
use pcon_tng.LineEditor.Tidy.{Tidy, inserted-Tidy}
use pcon_tng.Ui.{Ui, Key, with_token, commands, run_commands, press, main_loop}

-- The editor shows a text with the cursor at its end and nothing behind it, and the previous line
-- can be read.
pub record Entered (e : Editor) (text : List ℕ) : Type 0 where
  pub shows : Shows e (line_end text)
  pub tidy : Tidy e
  pub previous : List ℕ
  pub readable : string_at e.previous_work_buffer 0 string_limit ≡ some previous

pub prompted-Entered :
    (e : Editor) (text : List ℕ) → Entered e text → Entered (record e { prompted = true }) text
prompted-Entered e text h = record {
  shows = record {
    at_end = h.shows.at_end;
    at_cursor = h.shows.at_cursor;
    inside = h.shows.inside;
    cells = h.shows.cells;
  };
  tidy = h.tidy;
  previous = h.previous;
  readable = h.readable;
}

previous-insert_char :
    (c : ℕ) (e : Editor) → (insert_char c e).previous_work_buffer ≡ e.previous_work_buffer
unfolding insert_char
previous-insert_char c e =
    let P : Editor → Type 0 = λ e'. e'.previous_work_buffer ≡ e.previous_work_buffer in
    if-elim P (leb e.work_buffer_ptr 60) _ e
      (λ _.
        if-elim P (e.input_ptr == e.work_buffer_ptr) (append_char c e) (squeeze_char c e)
          (λ _. refl) (λ _. refl))
      (λ _. refl)

typed-Entered :
    (c : ℕ) (e : Editor) (text : List ℕ)
    → length text ≤ 60
    → Entered e text
    → Entered (insert_char c e) (text ++ c ∷ [])
typed-Entered c e text room h = record {
  shows =
      subst (Shows (insert_char c e)) (edited-line_end text c room) (insert_char-Shows h.shows c);
  tidy = inserted-Tidy h.shows h.tidy c;
  previous = h.previous;
  readable = ap (λ f. string_at f 0 string_limit) (previous-insert_char c e) ∙ h.readable;
}

module _ {F : Type 0} where
  -- The user interface waits for a key: no token is queued, and the process runs.
  pub record Waiting (u : Ui F) (s : Cmd F) (text : List ℕ) : Type 0 where
    pub entered : Entered u.editor text
    pub no_token : u.reader.queue ≡ []
    pub runs : u.cmd.ended ≡ false
    pub commanded : with_token [] [] u.cmd ≡ with_token [] [] s

  -- A round's commands when none is queued.
  unfoldable pub idle : Ui F → Ui F
  idle u = record u {
    editor = record (u.editor) { prompted = true };
    reader = record (u.reader) { queue = [] };
    cmd = with_token [] [] u.cmd;
  }

module _ {F : Type 0} ⦃fl : CFloat F⦄ (below : SRec F) where
  run_commands-idle : (u : Ui F) → u.reader.queue ≡ [] → run_commands below u ≡ idle u
  unfolding run_commands commands idle
  run_commands-idle u e =
      ap
        (λ q. record u {
          editor = record (u.editor) { prompted = true };
          reader = record (u.reader) { queue = (commands below (length q) q u.cmd).cmd_q };
          cmd = commands below (length q) q u.cmd;
        })
        e

  -- One round on a key, when no token is queued.
  pub main_loop-step :
      (k : Key) (ks : List Key) (u : Ui F)
      → u.reader.queue ≡ []
      → u.cmd.ended ≡ false
      → main_loop below (k ∷ ks) (some u) ≡ main_loop below ks (press k (idle u))
  unfolding main_loop idle
  main_loop-step k ks u e runs =
      ap (λ r. if r.cmd.ended then some r else main_loop below ks (press k r))
        (run_commands-idle u e)
      ∙ if-false u.cmd.ended (some (idle u)) (main_loop below ks (press k (idle u))) runs

  pub typed_characters :
      (cs : List ℕ) (ks : List Key) (text : List ℕ) (u : Ui F) (s : Cmd F)
      → length text + length cs ≤ 60
      → Waiting u s text
      → (u' : Ui F) × (main_loop below (map Key.character cs ++ ks) (some u)
          ≡ main_loop below ks (some u'))
        × Waiting u' s (text ++ cs)
        × (u'.reader.usable ≡ u.reader.usable)
  unfolding press idle
  typed_characters [] ks text u s room h =
      (u, refl, subst (Waiting u s) (sym (append_nil text)) h, refl)
  typed_characters (c ∷ cs) ks text u s room h =
      let u1 : Ui F = record (idle u) { editor = insert_char c (idle u).editor } in
      let h1 : Waiting u1 s (text ++ c ∷ []) = record {
        entered =
            typed-Entered c (idle u).editor text (omega (arith, room))
              (prompted-Entered u.editor text h.entered);
        no_token = refl;
        runs = h.runs;
        commanded = h.commanded;
      } in
      let more =
        typed_characters cs ks (text ++ c ∷ []) u1 s (omega (arith, room, length-snoc text c)) h1 in
      (
        more.0,
        main_loop-step (Key.character c) (map Key.character cs ++ ks) u h.no_token h.runs ∙ more.1,
        subst (Waiting more.0 s) (append_assoc text (c ∷ []) cs) more.2,
        more.3,
      )
