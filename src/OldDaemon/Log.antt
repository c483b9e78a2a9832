-- ===== src/OldDaemon/Log.antt =====
-- The log of states of BBB/old daemon/Dcon.c: the lines that `log_state` adds to the log file while
-- `update_relays` goes through the channels.
use pcon_tng.Prelude.{
  ℕ, zero, suc, ◌+◌, ◌-◌, ◌*◌, ◌<◌, ◌≡◌, refl, sym, ap, ◌∙◌, ℤ, pos, negsuc, List, [], ◌∷◌, ◌++◌,
  Bool, ◌==◌, ◌&&◌, if◌then◌else◌, arith, length, take, append_assoc, append_nil,
}
use pcon_tng.Float.{CFloat}
use pcon_tng.Sch.{TmplDat, get_tar_temp}
use pcon_tng.TypeDefs.{ChnDat, SenDat, IpcDat, Tm}
use pcon_tng.Daemon.{channel_state}
use pcon_tng.Daemon.Relays.{chn, schedule}
use pcon_tng.OldDaemon.{stored, update_channels}
use pcon_tng.SchPrint.{decimal}
use pcon_tng.CmdFsm.Tokens.{blanks}

-- %i, and with a width.
abbrev pub int_text : ℤ → List ℕ
int_text (pos n) = decimal n
int_text (negsuc n) = b'-' ∷ decimal (suc n)

abbrev pub int_padded : ℕ → ℤ → List ℕ
int_padded width i = let text = int_text i in blanks (width - length text) ++ text

-- snprintf(numbuf, 25, "%2d,%3d,%3d,%1d\n", channel, target, actual, state)
unfoldable pub log_line : (state channel : ℕ) → (actual target : ℤ) → List ℕ
log_line state channel actual target = take 24 (
    int_padded 2 (pos channel)
    ++ b','
      ∷ (int_padded 3 target
          ++ b',' ∷ (int_padded 3 actual ++ b',' ∷ (int_padded 1 (pos state) ++ 10 ∷ []))))

-- `log_state`, where `opens` is whether the log file can be opened.
unfoldable pub log_state : Bool → (state channel : ℕ) → (actual target : ℤ) → List ℕ → List ℕ
log_state opens state channel actual target log =
    if opens then log ++ log_line state channel actual target else log

module _ {F : Type 0} ⦃fl : CFloat F⦄ (opens : ℕ → Bool) (tm : Tm) where
  abbrev pub actual_temp : IpcDat F → ℕ → ℤ
  actual_temp ipc channel = fl.to_int (ipc.s_dat (chn ipc channel).sensor_id).temp

  abbrev pub target_temp : IpcDat F → ℕ → ℤ
  target_temp ipc channel = get_tar_temp (tm.tm_hour * 60 + tm.tm_min) (schedule ipc tm channel)

  -- The log file after the first loop of `update_relays`.
  unfoldable pub update_log : ℕ → ℕ → (state : ℕ) (hold : ℤ) → IpcDat F → List ℕ → List ℕ
  update_log channel zero state hold ipc log = log
  update_log channel (suc n) state hold ipc log =
      let r = channel_state ipc tm channel state hold in
      let ipc' = stored ipc channel r in
      update_log (suc channel) n r.0 r.1 ipc' (
        if (chn ipc channel).mode == 2
        then log_state (opens channel) r.0 channel (actual_temp ipc' channel)
            (target_temp ipc' channel) log
        else log)

  -- The line for a channel: from its data, the sensors and its schedule for the day.
  unfoldable pub line_at : ChnDat → (ℤ → SenDat F) → TmplDat F → ℕ → List ℕ
  line_at c s_dat sch channel =
      if c.mode == 2 && opens channel
      then log_line c.state channel (fl.to_int (s_dat c.sensor_id).temp)
          (get_tar_temp (tm.tm_hour * 60 + tm.tm_min) sch)
      else []

  abbrev pub line_of : IpcDat F → ℕ → List ℕ
  line_of ipc channel = line_at (chn ipc channel) ipc.s_dat (schedule ipc tm channel) channel

  unfoldable pub lines_of : IpcDat F → ℕ → ℕ → List ℕ
  lines_of ipc channel zero = []
  lines_of ipc channel (suc n) = line_of ipc channel ++ lines_of ipc (suc channel) n

  -- What the loop leaves alone: the channels before it, the schedules and the sensors.
  record Kept (ipc ipc' : IpcDat F) (channel : ℕ) : Type 0 where
    sch : ipc'.sys_data.sys_sch ≡ ipc.sys_data.sys_sch
    sen : ipc'.s_dat ≡ ipc.s_dat
    before : (j : ℕ) → j < channel → chn ipc' j ≡ chn ipc j

  stored-chn : (ipc : IpcDat F) (k j : ℕ) (r : ℕ × ℤ) → j < k → chn (stored ipc k r) j ≡ chn ipc j
  stored-chn ipc k j r h = ground arith

  stored-sch :
      (ipc : IpcDat F) (k : ℕ) (r : ℕ × ℤ)
      → (stored ipc k r).sys_data.sys_sch ≡ ipc.sys_data.sys_sch
  stored-sch ipc k r = ground arith

  stored-sen : (ipc : IpcDat F) (k : ℕ) (r : ℕ × ℤ) → (stored ipc k r).s_dat ≡ ipc.s_dat
  stored-sen ipc k r = ground arith

  update_channels-Kept :
      (channel n state : ℕ) (hold : ℤ) (ipc : IpcDat F)
      → Kept ipc (update_channels tm channel n state hold ipc).0 channel
  unfolding update_channels
  update_channels-Kept channel zero state hold ipc = record {
    sch = refl;
    sen = refl;
    before = λ j h. refl;
  }
  update_channels-Kept channel (suc n) state hold ipc =
      let r = channel_state ipc tm channel state hold in
      let k = update_channels-Kept (suc channel) n r.0 r.1 (stored ipc channel r) in
      record {
        sch = k.sch ∙ stored-sch ipc channel r;
        sen = k.sen ∙ stored-sen ipc channel r;
        before = λ j h. k.before j (omega arith) ∙ stored-chn ipc channel j r h;
      }

  line_of-Kept :
      (ipc ipc' : IpcDat F) (k : ℕ) → Kept ipc ipc' (suc k) → line_of ipc' k ≡ line_of ipc k
  line_of-Kept ipc ipc' k kept =
      ap (λ (c : ChnDat). line_at c ipc'.s_dat (schedule ipc' tm k) k) (kept.before k (omega arith))
      ∙ ap (λ s_dat. line_at (chn ipc k) s_dat (schedule ipc' tm k) k) kept.sen
      ∙ ap
          (λ (sch : ℤ → ℤ → TmplDat F).
            line_at (chn ipc k) ipc.s_dat (sch (pos tm.tm_wday) (pos k)) k)
          kept.sch

  line_of-stored :
      (ipc : IpcDat F) (k : ℕ) (r : ℕ × ℤ) (log : List ℕ)
      → (if (chn ipc k).mode == 2
          then log_state
              (opens k)
              r.0
              k
              (actual_temp (stored ipc k r) k)
              (target_temp (stored ipc k r) k)
              log
          else log)
        ≡ log ++ line_of (stored ipc k r) k
  unfolding line_at log_state
  line_of-stored ipc k r log = ground (arith, append_nil log)

  -- In the order of the channels, an update adds a line to the log for each channel that is under
  -- sensor control, where the log file can be opened: with the state that the update leaves, the
  -- temperature of its sensor and the target of its schedule.
  pub update_log-lines :
      (channel n state : ℕ) (hold : ℤ) (ipc : IpcDat F) (log : List ℕ)
      → update_log channel n state hold ipc log
        ≡ log ++ lines_of (update_channels tm channel n state hold ipc).0 channel n
  unfolding update_log update_channels lines_of
  update_log-lines channel zero state hold ipc log = sym (append_nil log)
  update_log-lines channel (suc n) state hold ipc log =
      let r = channel_state ipc tm channel state hold in
      let ipc' = stored ipc channel r in
      let left = (update_channels tm (suc channel) n r.0 r.1 ipc').0 in
      let kept = update_channels-Kept (suc channel) n r.0 r.1 ipc' in
      ap (update_log (suc channel) n r.0 r.1 ipc') (
        line_of-stored ipc channel r log
        ∙ ap (λ line. log ++ line) (sym (line_of-Kept ipc' left channel kept)))
      ∙ update_log-lines (suc channel) n r.0 r.1 ipc' (log ++ line_of left channel)
      ∙ append_assoc log (line_of left channel) (lines_of left (suc channel) n)
