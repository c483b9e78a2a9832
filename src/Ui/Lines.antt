-- ===== src/Ui/Lines.antt =====
-- BBB/UI/Pcon.c: a line that is typed and returned is queued as its words, and they are run.
use pcon_tng.Prelude.{
  ℕ, zero, suc, ◌<◌, ◌≡◌, ◌∙◌, refl, ap, List, [], ◌∷◌, ◌++◌, map, Option, none, some, true, false,
  arith, length,
}
use pcon_tng.Prelude.Below.{and_right}
use pcon_tng.Float.{CFloat}
use pcon_tng.Sch.{SRec}
use pcon_tng.CharFsm.{quote, Reader, char_fsm_reset}
use pcon_tng.CharFsm.Holds.{Holds}
use pcon_tng.CharFsm.Words.{every, line, token, roomy}
use pcon_tng.CharFsm.Keys.{
  Typable, word, text, every-weaken, to_word, is_typed, is_typed_inner, type_line,
}
use pcon_tng.CharFsm.Typing.{queue_of, type_line-queue}
use pcon_tng.CmdFsm.State.{Cmd}
use pcon_tng.LineEditor.{restarted, with_reader}
use pcon_tng.LineEditor.Return.{
  is_text, kept, return_key_lem, restarted-Shows, restarted-Tidy, kept-readable,
}
use pcon_tng.Ui.{
  Ui, Key, carriage_return, with_token, commands, run_commands, press, with_line, main_loop,
}
use pcon_tng.Ui.Console.{Entered, Waiting, idle, prompted-Entered, main_loop-step, typed_characters}

-- A line of words has no NUL.
every-append :
    (s t : List ℕ) → every is_text s ≡ true → every is_text t ≡ true → every is_text (s ++ t) ≡ true
every-append [] t h k = k
every-append (c ∷ s) t h k =
    ground (arith, every-append s t (and_right (is_text c) (every is_text s) h) k)

text_of_typed : (w : List ℕ) → every is_typed w ≡ true → every is_text w ≡ true
text_of_typed w h = every-weaken is_typed is_text w (λ c t. ground arith) h

line_text : (ts : List Typable) → every is_text (line (map to_word ts)) ≡ true
line_text [] = refl
line_text (word c w h ∷ ts) =
    every-append (c ∷ w) (32 ∷ line (map to_word ts)) (text_of_typed (c ∷ w) h) (line_text ts)
line_text (text s h ∷ ts) =
    every-append (quote ∷ (s ++ quote ∷ [])) (32 ∷ line (map to_word ts))
      (every-append s (quote ∷ []) (every-weaken is_typed_inner is_text s (λ c t. ground arith) h)
        refl)
      (line_text ts)

reset-Holds : (r : Reader) → Holds (char_fsm_reset r) []
unfolding char_fsm_reset
reset-Holds r = record { ptr = refl; cells = λ i b. ground arith }

reset_state : (r : Reader) → (char_fsm_reset r).char_state ≡ 0
unfolding char_fsm_reset
reset_state r = refl

reset_usable : (r : Reader) → (char_fsm_reset r).usable ≡ r.usable
unfolding char_fsm_reset
reset_usable r = refl

queued_some :
    (o : Option Reader) (q : List (List ℕ))
    → queue_of o ≡ some q
    → (r : Reader) × (o ≡ some r) × (r.queue ≡ q)
queued_some none q h = absurd (cc h)
queued_some (some r) q h = (r, refl, cc h)

-- The words of a line.
abbrev pub words : List Typable → List (List ℕ)
words ts = map token (map to_word ts)

-- The keys of a line: each word with a blank behind it, and the return key.
abbrev pub keys : List Typable → List Key
keys ts = map Key.character (line (map to_word ts)) ++ carriage_return ∷ []

-- After the return key: the words are queued, and the editor is empty.
pub record Queued {F : Type 0} (u : Ui F) (s : Cmd F) (ts : List Typable) : Type 0 where
  pub entered : Entered u.editor []
  pub tokens : u.reader.queue ≡ words ts
  pub runs : u.cmd.ended ≡ false
  pub commanded : with_token [] [] u.cmd ≡ with_token [] [] s

module _ {F : Type 0} where
  pressed_return :
      (t : Typable) (ts : List Typable) (u : Ui F) (s : Cmd F)
      → length (line (map to_word (t ∷ ts))) < 60
      → roomy u.reader.usable (map to_word (t ∷ ts)) ≡ true
      → Waiting u s (line (map to_word (t ∷ ts)))
      → (u' : Ui F) × (press carriage_return (idle u) ≡ some u') × Queued u' s (t ∷ ts)
  unfolding press idle
  pressed_return t ts u s short room h =
      let text = line (map to_word (t ∷ ts)) in
      let e = prompted-Entered u.editor text h.entered in
      let reader = (idle u).reader in
      let queued =
        queued_some (type_line (text ++ 13 ∷ []) (some (char_fsm_reset reader))) (words (t ∷ ts)) (
          type_line-queue t ts (char_fsm_reset reader) (reset-Holds reader) (reset_state reader)
            short (ap (λ f. roomy f (map to_word (t ∷ ts))) (reset_usable reader) ∙ room)) in
      let next = restarted (kept (idle u).editor text e.previous) in
      let readable =
        kept-readable (idle u).editor text e.previous (line_text (t ∷ ts)) short e.readable in
      (
        record (idle u) { editor = next; reader = queued.0 },
        ap (with_line (idle u)) (
            return_key_lem e.shows (line_text (t ∷ ts)) e.tidy short e.readable reader
            ∙ ap (with_reader next) queued.1),
        record {
          entered = record {
            shows = restarted-Shows (kept (idle u).editor text e.previous);
            tidy = restarted-Tidy (kept (idle u).editor text e.previous);
            previous = readable.0;
            readable = readable.1;
          };
          tokens = queued.2;
          runs = h.runs;
          commanded = h.commanded;
        },
      )

module _ {F : Type 0} ⦃fl : CFloat F⦄ (below : SRec F) where
  commands_idle :
      (n : ℕ) (q : List (List ℕ)) (s : Cmd F)
      → commands below n q s ≡ commands below n q (with_token [] [] s)
  unfolding commands
  commands_idle n [] s = refl
  commands_idle zero (t ∷ ts) s = refl
  commands_idle (suc n) (t ∷ ts) s = refl

  -- When no token waits, the editor is empty, the previous line can be read, the process runs, and
  -- `malloc` gives for each text in quotes a block with a byte more than is asked for, typing a line of
  -- at least one word or text in quotes, each with a blank behind it, of fewer than 59 characters in
  -- all (so that the return and its NUL fit the work buffer), and the return key takes the main loop to
  -- a state in which the words, and the texts with their quotes, are queued in order and the editor is
  -- empty again; the commands of the next round are those tokens, run in order from the command
  -- processor's state before the line.
  pub keys-commands :
      (t : Typable) (ts : List Typable) (u : Ui F)
      → length (line (map to_word (t ∷ ts))) < 59
      → roomy u.reader.usable (map to_word (t ∷ ts)) ≡ true
      → Waiting u u.cmd []
      → (u' : Ui F) × (main_loop below (keys (t ∷ ts)) (some u) ≡ some u')
        × Queued u' u.cmd (t ∷ ts)
        × ((run_commands below u').cmd
            ≡ commands below (length (words (t ∷ ts))) (words (t ∷ ts)) (with_token [] [] u.cmd))
  unfolding main_loop run_commands
  keys-commands t ts u short room h =
      let typed =
        typed_characters below (line (map to_word (t ∷ ts))) (carriage_return ∷ []) [] u u.cmd
          (omega (arith, short)) h in
      let returned =
        pressed_return t ts typed.0 u.cmd (omega (arith, short))
          (ap (λ f. roomy f (map to_word (t ∷ ts))) typed.3 ∙ room) typed.2 in
      (
        returned.0,
        typed.1
            ∙ main_loop-step below carriage_return [] typed.0 typed.2.no_token typed.2.runs
            ∙ ap (main_loop below []) returned.1,
        returned.2,
        ap (λ q. commands below (length q) q returned.0.cmd) returned.2.tokens
            ∙ commands_idle (length (words (t ∷ ts))) (words (t ∷ ts)) returned.0.cmd
            ∙ ap (commands below (length (words (t ∷ ts))) (words (t ∷ ts))) returned.2.commanded,
      )
