-- ===== src/Ui/Switch.antt =====
-- From the keyboard to the pin: BBB/UI/Pcon.c, cmd_fsm.c, the shared data, and BBB/daemon/Dcon.c.
use pcon_tng.Prelude.{
  true, ℕ, suc, ◌<◌, ◌≡◌, ◌∙◌, inl, inr, refl, ap, pos, List, [], ◌∷◌, Option, some, false, arith,
  length, map, if-elim,
}
use pcon_tng.Float.{CFloat}
use pcon_tng.Sch.{SRec}
use pcon_tng.TypeDefs.{IpcDat, Tm, number_of_channels}
use pcon_tng.Daemon.{DaemonState, chan_gpio, main_round}
use pcon_tng.Daemon.Pins.{level}
use pcon_tng.CharFsm.Keys.{Typable, word, to_word}
use pcon_tng.CharFsm.Words.{line, roomy}
use pcon_tng.CmdFsm.State.{Cmd}
use pcon_tng.CmdFsm.Engine.{cmd_fsm}
use pcon_tng.CmdFsm.Queue.{cmd_fsm-queue}
use pcon_tng.CmdFsm.Switch.{word_on, word_off, switched, switch_reaches_pin}
use pcon_tng.Ui.{Ui, with_token, commands, run_commands, main_loop}
use pcon_tng.Ui.Console.{Waiting}
use pcon_tng.Ui.Lines.{keys, words, keys-commands}

abbrev pub typed_on : Typable
typed_on = word b'o' (b'n' ∷ []) refl

abbrev pub typed_off : Typable
typed_off = word b'o' (b'f' ∷ b'f' ∷ []) refl

module _ {F : Type 0} ⦃fl : CFloat F⦄ (below : SRec F) where
  drained : (n : ℕ) (q : List (List ℕ)) (s : Cmd F) → q ≡ [] → (commands below n q s).ipc ≡ s.ipc
  unfolding commands
  drained n [] s e = refl
  drained n (t ∷ ts) s e = absurd (cc e)

  -- One command changes the shared data as the processor does.
  one_command :
      (w : List ℕ) (s : Cmd F)
      → (commands below 1 (w ∷ []) s).ipc ≡ (cmd_fsm below (with_token w [] s)).ipc
  unfolding commands
  one_command w s =
      let next = cmd_fsm below (with_token w [] s) in
      let empty : next.cmd_q ≡ [] = elim (cmd_fsm-queue below (with_token w [] s)) [
        | inl same ↦ same
        | inr gone ↦ gone
      ] in
      if-elim {A = Cmd F} (λ r. r.ipc ≡ next.ipc) next.ended next (commands below 0 next.cmd_q next)
        (λ _. refl) (λ _. drained 0 next.cmd_q next empty)

  -- A word that runs in state 1 on a working channel.
  in_state :
      (s : Cmd F) (k : ℕ) (w : List ℕ)
      → s.cb.state ≡ 1
      → s.cb.w_channel ≡ pos (suc k)
      → s.ended ≡ false
      → cmd_fsm below (with_token w [] s) ≡ switched below (with_token [] [] s) k w
  in_state s k w st ch run = λ i. cmd_fsm below (record s {
    cb = record (s.cb) { token = w; state = st i; w_channel = ch i };
    cmd_q = [];
    ended = run i;
  })

  -- The shared data after the keys of one word, the return key and the commands of the next round.
  pub typed_word :
      (t : Typable) (w : List ℕ) (k : ℕ) (u : Ui F)
      → words (t ∷ []) ≡ w ∷ []
      → length (line (map to_word (t ∷ []))) < 59
      → roomy u.reader.usable (map to_word (t ∷ [])) ≡ true
      → Waiting u u.cmd []
      → u.cmd.cb.state ≡ 1
      → u.cmd.cb.w_channel ≡ pos (suc k)
      → (u' : Ui F) × (main_loop below (keys (t ∷ [])) (some u) ≡ some u')
        × ((run_commands below u').cmd.ipc ≡ (switched below (with_token [] [] u.cmd) k w).ipc)
  typed_word t w k u same short room h st ch =
      let r = keys-commands below t [] u short room h in
      (
        r.0,
        r.1,
        ap (λ s. s.ipc) r.3
            ∙ ap (λ q. (commands below (length q) q (with_token [] [] u.cmd)).ipc) same
            ∙ one_command w (with_token [] [] u.cmd)
            ∙ ap (λ s. s.ipc) (in_state u.cmd k w st ch h.runs),
      )

  -- When the user interface waits with an empty line, with the command processor in state 1 on a
  -- channel from 1 to 15, typing `on` or `off`, a blank and the return key, and the commands of the
  -- round that follows, leave the shared data so that the daemon's next round drives that channel's
  -- pin high or low, whatever it was before.
  pub keyboard_reaches_pin :
      (u : Ui F) (k stray : ℕ) (tm : Tm) (d : DaemonState F) (v : Option ℕ)
      → suc k < number_of_channels
      → Waiting u u.cmd []
      → u.cmd.cb.state ≡ 1
      → u.cmd.cb.w_channel ≡ pos (suc k)
      → ((u' : Ui F) × (main_loop below (keys (typed_on ∷ [])) (some u) ≡ some u')
          × (level
                (main_round stray tm (record d { ipc = (run_commands below u').cmd.ipc })).writes
                (chan_gpio (suc k))
                v
              ≡ some 1))
        × ((u' : Ui F) × (main_loop below (keys (typed_off ∷ [])) (some u) ≡ some u')
            × (level
                  (main_round stray tm (record d { ipc = (run_commands below u').cmd.ipc })).writes
                  (chan_gpio (suc k))
                  v
                ≡ some 0))
  keyboard_reaches_pin u k stray tm d v inside h st ch =
      let on = typed_word typed_on word_on k u refl (omega arith) refl h st ch in
      let off = typed_word typed_off word_off k u refl (omega arith) refl h st ch in
      let pins = switch_reaches_pin below (with_token [] [] u.cmd) k stray tm d v inside in
      let reached : IpcDat F → Option ℕ =
        λ ipc. level (main_round stray tm (record d { ipc = ipc })).writes (chan_gpio (suc k)) v in
      ((on.0, on.1, ap reached on.2 ∙ pins.0), (off.0, off.1, ap reached off.2 ∙ pins.1))
