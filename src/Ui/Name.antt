-- ===== src/Ui/Name.antt =====
-- From the keyboard to a channel's name: BBB/UI/Pcon.c, char_fsm.c and cmd_fsm.c.
use pcon_tng.Prelude.{
  length-append, ℕ, suc, ◌+◌, ◌&&◌, ◌<◌, ◌≡◌, ◌∙◌, refl, sym, ap, pos, eq_ℤ, List, [], ◌∷◌, ◌++◌,
  some, true, ◌==◌, if◌then◌else◌, if-true, if-false, Bool-cases, inl, inr, arith, length, map,
}
use pcon_tng.Prelude.Below.{and_left, and_right}
use pcon_tng.Float.{CFloat}
use pcon_tng.Sch.{SRec}
use pcon_tng.TypeDefs.{channel_name_size}
use pcon_tng.Daemon.Relays.{chn}
use pcon_tng.CharFsm.{quote, has_slack}
use pcon_tng.CharFsm.Words.{every, line}
use pcon_tng.CharFsm.Keys.{text, to_word, is_typed_inner}
use pcon_tng.CmdFsm.State.{Cmd}
use pcon_tng.CmdFsm.Tokens.{dequote, token_type}
use pcon_tng.CmdFsm.Channels.{set_channel_name}
use pcon_tng.CmdFsm.Engine.{run_action, settle, dispatch, cmd_fsm}
use pcon_tng.CmdFsm.Switch.{switched}
use pcon_tng.Ui.{Ui, with_token, run_commands, main_loop}
use pcon_tng.Ui.Console.{Waiting}
use pcon_tng.Ui.Lines.{keys}
use pcon_tng.Ui.Switch.{typed_word}

dequote-text : (s : List ℕ) → every is_typed_inner s ≡ true → dequote (s ++ quote ∷ []) ≡ s
unfolding dequote
dequote-text [] h = refl
dequote-text (c ∷ s) h = ground (
  arith,
  and_left (is_typed_inner c) (every is_typed_inner s) h,
  dequote-text s (and_right (is_typed_inner c) (every is_typed_inner s) h),
)

short_line :
    (s : List ℕ) (h : every is_typed_inner s ≡ true)
    → length s < channel_name_size
    → length (line (map to_word (text s h ∷ []))) < 59
short_line s h fits =
    omega (arith, fits, length-append (s ++ quote ∷ []) (32 ∷ []), length-append s (quote ∷ []))

-- The token of a text has its two quotes.
text_room :
    (usable : ℕ → ℕ) (s : List ℕ)
    → has_slack usable (length s + 2) ≡ true
    → (has_slack usable (length (quote ∷ (s ++ quote ∷ []))) && true) ≡ true
text_room usable s slack =
    let n : length (quote ∷ (s ++ quote ∷ [])) ≡ length s + 2 =
      omega (arith, length-append s (quote ∷ [])) in
    ap (λ m. has_slack usable m && true) n ∙ ap (λ b. b && true) slack

module _ {F : Type 0} ⦃fl : CFloat F⦄ (below : SRec F) where
  -- A quoted text in state 1: every channel as it was, but for the working channel's name.
  named :
      (s : Cmd F) (k : ℕ) (w : List ℕ) (j : ℕ)
      → chn (switched below s k (quote ∷ w)).ipc j
        ≡ (if j == suc k then record (chn s.ipc (suc k)) { name = dequote w } else chn s.ipc j)
  unfolding cmd_fsm dispatch settle run_action set_channel_name token_type dequote
  named s k w j = elim (Bool-cases (j == suc k)) [
    | inl same ↦
        if-true (eq_ℤ (pos j) (pos (suc k))) _ _ (ground (arith, same))
        ∙ sym (if-true (j == suc k) _ _ same)
    | inr other ↦
        if-false (eq_ℤ (pos j) (pos (suc k))) _ _ (ground (arith, other))
        ∙ sym (if-false (j == suc k) _ _ other)
  ]

  -- When the user interface waits with an empty line, with the command processor in state 1 on a
  -- channel k + 1, typing a text of at most 19 characters in quotes, a blank and the return key, and
  -- the commands of the round that follows, give that channel the text without its quotes as its
  -- name, and leave the rest of its data and all other channels as they were: when `malloc` gives for
  -- the text with its quotes a block with a byte more than is asked for, as the token's NUL is written
  -- behind the bytes that are asked for.
  pub keyboard_names_channel :
      (u : Ui F) (k : ℕ) (s : List ℕ) (h : every is_typed_inner s ≡ true) (j : ℕ)
      → length s < channel_name_size
      → has_slack u.reader.usable (length s + 2) ≡ true
      → Waiting u u.cmd []
      → u.cmd.cb.state ≡ 1
      → u.cmd.cb.w_channel ≡ pos (suc k)
      → (u' : Ui F) × (main_loop below (keys (text s h ∷ [])) (some u) ≡ some u')
        × (chn (run_commands below u').cmd.ipc j
            ≡ (if j == suc k then record (chn u.cmd.ipc (suc k)) { name = s } else chn u.cmd.ipc j))
  keyboard_names_channel u k s h j fits slack waits st ch =
      let w = s ++ quote ∷ [] in
      let r =
        typed_word below (text s h) (quote ∷ w) k u refl (short_line s h fits)
          (text_room u.reader.usable s slack) waits st ch in
      (
        r.0,
        r.1,
        ap (λ ipc. chn ipc j) r.2
            ∙ named (with_token [] [] u.cmd) k w j
            ∙ ap
                (λ n.
                  if j == suc k
                  then record (chn u.cmd.ipc (suc k)) { name = n }
                  else chn u.cmd.ipc j)
                (dequote-text s h),
      )
