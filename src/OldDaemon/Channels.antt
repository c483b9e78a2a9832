-- ===== src/OldDaemon/Channels.antt =====
-- The channels' states in BBB/old daemon/Dcon.c, beside those of BBB/daemon/Dcon.c.
use pcon_tng.Prelude.{
  ℕ, zero, suc, ◌<◌, ◌≡◌, refl, sym, ap, subst, ◌∙◌, ℤ, pos, true, ◌==◌, if-true, if-false,
  Bool-cases, inl, inr, arith, eq_ℤ, eq_of_parts,
}
use std.Path.{fun_ext}
use pcon_tng.Float.{CFloat}
use pcon_tng.TypeDefs.{ChnDat, IpcDat, Tm, put, number_of_channels}
use pcon_tng.Daemon
use pcon_tng.Daemon.{channel_state, set_state}
use pcon_tng.Daemon.Relays.{chn}
use pcon_tng.OldDaemon
use pcon_tng.OldDaemon.{Pins, stored}

put-same {ℓ} : {A : Type ℓ} (a : ℤ → A) (i : ℤ) → put a i (a i) ≡ a
put-same a i = fun_ext (λ j. elim (Bool-cases (eq_ℤ j i)) [
  | inl same ↦
      let here : j ≡ i = ground (arith, eq_of_parts j i) in if-true _ _ _ same ∙ ap a (sym here)
  | inr other ↦ if-false _ _ _ other
])

module _ {F : Type 0} ⦃fl : CFloat F⦄ where
  set_state-same : (ipc : IpcDat F) (k : ℕ) → set_state ipc k (chn ipc k).state ≡ ipc
  set_state-same ipc k =
      ap (λ c. record ipc { sys_data = record (ipc.sys_data) { c_data = c } })
        (put-same ipc.sys_data.c_data (pos k))

  stored_lem :
      (tm : Tm) (ipc : IpcDat F) (k state : ℕ) (hold : ℤ)
      → (chn ipc k).mode < 3
      → let r = channel_state ipc tm k state hold in stored ipc k r ≡ set_state ipc k r.0
  unfolding channel_state
  stored_lem tm ipc k state hold h =
      let r = channel_state ipc tm k state hold in
      elim (Bool-cases ((chn ipc k).mode == 1)) [
        | inl time ↦ if-true _ _ _ time
        | inr untimed ↦ if-false _ _ _ untimed ∙ elim (Bool-cases ((chn ipc k).mode == 2)) [
          | inl sensor ↦ if-true _ _ _ sensor
          | inr unsensed ↦
              let manual : ((chn ipc k).mode == 0) ≡ true = ground arith in
              let own : r.0 ≡ (chn ipc k).state = ap (λ (x : ℕ × ℤ). x.0) (if-true _ _ _ manual) in
              if-false _ _ _ unsensed ∙ sym (rw own (set_state-same ipc k))
        ]
      ]

  abbrev pub InSwitch : IpcDat F → Type 0
  InSwitch ipc = (k : ℕ) → (chn ipc k).mode < 3

  set_state-mode :
      (ipc : IpcDat F) (k state j : ℕ) → (chn (set_state ipc k state) j).mode ≡ (chn ipc j).mode
  set_state-mode ipc k state j = elim (Bool-cases (eq_ℤ (pos j) (pos k))) [
    | inl same ↦
        let here : j ≡ k = ground arith in
        ap (λ (c : ChnDat). c.mode) (if-true _ _ _ same) ∙ ap (λ i. (chn ipc i).mode) (sym here)
    | inr other ↦ ap (λ (c : ChnDat). c.mode) (if-false _ _ _ other)
  ]

  InSwitch-set_state :
      (ipc : IpcDat F) (k state : ℕ) → InSwitch ipc → InSwitch (set_state ipc k state)
  InSwitch-set_state ipc k state h j = subst (λ m. m < 3) (sym (set_state-mode ipc k state j)) (h j)

  update_channels-stored :
      (tm : Tm) (k n state : ℕ) (hold : ℤ) (ipc : IpcDat F)
      → InSwitch ipc
      → OldDaemon.update_channels tm k n state hold ipc
        ≡ Daemon.update_channels tm k n state hold ipc
  unfolding OldDaemon.update_channels Daemon.update_channels
  update_channels-stored tm k zero state hold ipc h = refl
  update_channels-stored tm k (suc n) state hold ipc h =
      let r = channel_state ipc tm k state hold in
      rw (stored_lem tm ipc k state hold (h k)) (
        update_channels-stored tm (suc k) n r.0 r.1 (set_state ipc k r.0)
          (InSwitch-set_state ipc k r.0 h))

  -- While every channel is in one of the three modes that the switch handles, an update by the
  -- earlier daemon and one by the daemon leave the same shared data and the same slab state, from
  -- the same data, clock, slab state and junk in `state`.
  pub update_relays-same_data :
      (p : Pins) (stray ccb : ℕ) (tm : Tm) (hold : ℤ) (ipc : IpcDat F)
      → InSwitch ipc
      → let old = OldDaemon.update_relays p stray ccb tm hold ipc in
        let new = Daemon.update_relays stray tm hold ipc in (old.0 ≡ new.0) × (old.1 ≡ new.1)
  unfolding OldDaemon.update_relays Daemon.update_relays
  update_relays-same_data p stray ccb tm hold ipc h =
      let same = update_channels-stored tm 0 number_of_channels stray hold ipc h in
      (ap (λ r. r.0) same, ap (λ r. r.1) same)
