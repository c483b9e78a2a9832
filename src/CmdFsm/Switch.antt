-- ===== src/CmdFsm/Switch.antt =====
-- From a command to the pin: a channel that is switched by hand is driven at the daemon's next round.
use pcon_tng.Prelude.{
  ℕ, suc, ◌<◌, ◌≡◌, refl, ap, ◌∙◌, pos, List, [], ◌∷◌, Option, some, ◌==◌, arith, if-true, false,
}
use pcon_tng.Float.{CFloat}
use pcon_tng.Sch.{SRec}
use pcon_tng.TypeDefs.{IpcDat, Tm, number_of_channels}
use pcon_tng.Daemon.{DaemonState, chan_gpio, update_relays, main_round, run_update}
use pcon_tng.Daemon.Relays.{chn, manual_channel}
use pcon_tng.Daemon.Pins.{level, level-append, bit, update_relays-level}
use pcon_tng.CmdFsm.State.{Cmd}
use pcon_tng.CmdFsm.Tokens.{token_type, token_word, is_valid_int, keyword_from, keyword_at}
use pcon_tng.CmdFsm.Channels.{set_mode}
use pcon_tng.CmdFsm.Engine.{run_action, settle, dispatch, cmd_fsm}

abbrev pub word_on : List ℕ
word_on = b'o' ∷ b'n' ∷ []

abbrev pub word_off : List ℕ
word_off = b'o' ∷ b'f' ∷ b'f' ∷ []

module _ {F : Type 0} ⦃fl : CFloat F⦄ (stray : ℕ) (tm : Tm) (d : DaemonState F) where
  forced :
      d.ipc.force_update ≡ 1
      → main_round stray tm d
        ≡ run_update stray tm (record d { ipc = record (d.ipc) { force_update = 0 } })
  unfolding main_round
  forced asked = if-true (d.ipc.force_update == 1) _ _ (ap (λ n. n == 1) asked)

  -- A round of the daemon on data that asks for an update drives a manual channel's pin to its state.
  round_drives :
      (k : ℕ) (v : Option ℕ)
      → d.ipc.force_update ≡ 1
      → suc k < number_of_channels
      → (chn d.ipc (suc k)).mode ≡ 0
      → level (main_round stray tm d).writes (chan_gpio (suc k)) v
        ≡ some (bit (chn d.ipc (suc k)).state)
  round_drives k v asked h manual =
      let ipc : IpcDat F = record (d.ipc) { force_update = 0 } in
      ap (λ e. level e.writes (chan_gpio (suc k)) v) (forced asked)
      ∙ level-append d.writes (update_relays stray tm d.hold ipc).2 (chan_gpio (suc k)) v
      ∙ update_relays-level stray tm d.hold ipc (level d.writes (chan_gpio (suc k)) v) (suc k) h
      ∙ ap (λ c. some (bit c.state)) (manual_channel ipc tm stray d.hold (suc k) h manual)

module _ {F : Type 0} ⦃fl : CFloat F⦄ (below : SRec F) (s : Cmd F) (k : ℕ) where
  -- A word typed in state 1, with working channel k + 1.
  abbrev pub switched : List ℕ → Cmd F
  switched word = cmd_fsm below (record s {
    cb = record (s.cb) { token = word; state = 1; w_channel = pos (suc k) };
    ended = false;
  })

  switched_on :
      ((switched word_on).ipc.force_update ≡ 1)
      × ((chn (switched word_on).ipc (suc k)).mode ≡ 0)
      × ((chn (switched word_on).ipc (suc k)).state ≡ 1)
  unfolding cmd_fsm dispatch settle run_action set_mode token_type token_word is_valid_int
      keyword_from keyword_at
  switched_on = (refl, ground arith, ground arith)

  switched_off :
      ((switched word_off).ipc.force_update ≡ 1)
      × ((chn (switched word_off).ipc (suc k)).mode ≡ 0)
      × ((chn (switched word_off).ipc (suc k)).state ≡ 0)
  unfolding cmd_fsm dispatch settle run_action set_mode token_type token_word is_valid_int
      keyword_from keyword_at
  switched_off = (refl, ground arith, ground arith)

  -- When a user who edits a channel from 1 to 15, with the processor in state 1, types `on` or
  -- `off`, the next round of the daemon on the shared data leaves that channel's pin high or low,
  -- whatever it was before.
  pub switch_reaches_pin :
      (stray : ℕ) (tm : Tm) (d : DaemonState F) (v : Option ℕ)
      → suc k < number_of_channels
      → (level
            (main_round stray tm (record d { ipc = (switched word_on).ipc })).writes
            (chan_gpio (suc k))
            v
          ≡ some 1)
        × (level
              (main_round stray tm (record d { ipc = (switched word_off).ipc })).writes
              (chan_gpio (suc k))
              v
            ≡ some 0)
  switch_reaches_pin stray tm d v h =
      let on = switched_on in
      let off = switched_off in
      (
        round_drives stray tm (record d { ipc = (switched word_on).ipc }) k v on.0 h on.1
            ∙ ap (λ n. some (bit n)) on.2,
        round_drives stray tm (record d { ipc = (switched word_off).ipc }) k v off.0 h off.1
            ∙ ap (λ n. some (bit n)) off.2,
      )
