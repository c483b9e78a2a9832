-- ===== src/Daemon/Loop.antt =====
-- The daemon's main loop: when it updates the relays, and when it leaves the shared data alone.
use pcon_tng.Prelude.{ℕ, zero, suc, ◌≡◌, ◌≢◌, refl, ◌∙◌, ℤ, inl, inr, ◌==◌, arith, Bool-cases}
use pcon_tng.Float.{CFloat}
use pcon_tng.TypeDefs.{IpcDat, Tm}
use pcon_tng.Daemon.{
  DaemonState, main_round, update_channels, update_relays, channel_state, set_state,
}

module _ {F : Type 0} ⦃fl : CFloat F⦄ where
  -- What an update leaves alone in shared memory.
  pub record Keeps (ipc ipc' : IpcDat F) : Type 0 where
    pub force : ipc'.force_update ≡ ipc.force_update
    pub config : ipc'.sys_data.config ≡ ipc.sys_data.config
    pub sch : ipc'.sys_data.sys_sch ≡ ipc.sys_data.sys_sch
    pub tpl_lib : ipc'.sys_data.tpl_lib ≡ ipc.sys_data.tpl_lib
    pub tpl_index : ipc'.sys_data.tpl_index ≡ ipc.sys_data.tpl_index
    pub sen : ipc'.s_dat ≡ ipc.s_dat

  update_channels-Keeps :
      (tm : Tm) (i n st : ℕ) (hold : ℤ) (ipc : IpcDat F)
      → Keeps ipc (update_channels tm i n st hold ipc).0
  unfolding update_channels
  update_channels-Keeps tm i zero st hold ipc = record {
    force = refl;
    config = refl;
    sch = refl;
    tpl_lib = refl;
    tpl_index = refl;
    sen = refl;
  }
  update_channels-Keeps tm i (suc n) st hold ipc =
      let r = channel_state ipc tm i st hold in
      let k = update_channels-Keeps tm (suc i) n r.0 r.1 (set_state ipc i r.0) in
      record {
        force = k.force;
        config = k.config;
        sch = k.sch;
        tpl_lib = k.tpl_lib;
        tpl_index = k.tpl_index;
        sen = k.sen;
      }

  -- An update changes nothing in shared memory but the channel data: not the request flag, the
  -- configuration, the schedules, the template library or the sensor data.
  pub update_relays-Keeps :
      (stray : ℕ) (tm : Tm) (hold : ℤ) (ipc : IpcDat F)
      → Keeps ipc (update_relays stray tm hold ipc).0
  unfolding update_relays
  update_relays-Keeps stray tm hold ipc = update_channels-Keeps tm 0 16 stray hold ipc

  -- No update is due: none is requested, and the one for this minute is made.
  pub record Settled (tm : Tm) (s : DaemonState F) : Type 0 where
    pub idle : s.ipc.force_update ≢ 1
    pub minute : s.h_min ≡ tm.tm_min

  -- `n` rounds within one minute, with no change from outside.
  pub rounds : ℕ → ℕ → Tm → DaemonState F → DaemonState F
  rounds stray zero tm s = s
  rounds stray (suc n) tm s = rounds stray n tm (main_round stray tm s)

  main_round-Settled :
      (stray : ℕ) (tm : Tm) (s : DaemonState F)
      → Settled tm s
      → Settled tm (main_round stray tm s) × ((main_round stray tm s).ipc ≡ s.ipc)
  unfolding main_round
  main_round-Settled stray tm s q = ground (arith, q.idle, q.minute)

  forced_round :
      (stray : ℕ) (tm : Tm) (s : DaemonState F)
      → s.ipc.force_update ≡ 1
      → (main_round stray tm s).ipc.force_update ≡ 0
  unfolding main_round
  forced_round stray tm s e =
      let k = update_relays-Keeps stray tm s.hold (record (s.ipc) { force_update = 0 }) in
      ground (arith, k.force)

  free_round :
      (stray : ℕ) (tm : Tm) (s : DaemonState F)
      → s.ipc.force_update ≢ 1
      → Settled tm (main_round stray tm s)
  unfolding main_round
  free_round stray tm s free = ground (arith, (update_relays-Keeps stray tm s.hold s.ipc).force)

  settles :
      (stray : ℕ) (tm : Tm) (s : DaemonState F)
      → Settled tm (main_round stray tm (main_round stray tm s))
  settles stray tm s = elim (Bool-cases (s.ipc.force_update == 1)) [
    | inl e ↦ free_round stray tm _ (omega (arith, forced_round stray tm s (ground arith)))
    | inr e ↦ (main_round-Settled stray tm _ (free_round stray tm s (ground arith))).0
  ]

  -- Two rounds after any change, a request or a new minute, every update that was due has been made:
  -- further rounds in the minute leave the shared data as it is.
  pub rounds-settle :
      (stray n : ℕ) (tm : Tm) (s : DaemonState F)
      → (rounds stray (suc (suc n)) tm s).ipc ≡ (rounds stray 2 tm s).ipc
  unfolding rounds
  rounds-settle stray n tm s =
      go n (main_round stray tm (main_round stray tm s)) (settles stray tm s)
    where
      go : (n : ℕ) (s : DaemonState F) → Settled tm s → (rounds stray n tm s).ipc ≡ s.ipc
      go zero s q = refl
      go (suc n) s q =
          go n (main_round stray tm s) (main_round-Settled stray tm s q).0
          ∙ (main_round-Settled stray tm s q).1
