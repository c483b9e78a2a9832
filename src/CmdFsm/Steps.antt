-- ===== src/CmdFsm/Steps.antt =====
-- The routines that change what the invariant is about keep it.
use pcon_tng.Prelude.{
  ℕ, ◌+◌, ◌-◌, ◌<◌, ◌≡◌, refl, ℤ, pos, ◌-ℤ◌, pos_part, ltb_ℤ, ltb, ◌&&◌, ◌||◌, Option, none, some,
  false, arith, if-elim, subst, sym,
}
use pcon_tng.Sch.{TmplDat}
use pcon_tng.Sch.Live.{IsValid}
use pcon_tng.TypeDefs.{IpcDat, put, max_templates, number_of_channels, days_per_week}
use pcon_tng.CmdFsm.State.{Cmd, set_template}
use pcon_tng.CmdFsm.Tokens.{dequote}
use pcon_tng.CmdFsm.Channels.{set_working_channel, load_backup, save_backup}
use pcon_tng.CmdFsm.Schedules.{
  out_of_library, shift_library, set_hour, set_minute, set_day, set_library, clear_template,
  delete_template, save_template, load_template,
}
use pcon_tng.CmdFsm.Sound.{
  IsLibrary, BackupIsLibrary, Sound, shift_library-IsLibrary, put-IsLibrary,
}

module _ {F : Type 0} where
  pub with_buffer : (s : Cmd F) (t : TmplDat F) → Sound s → IsValid t → Sound (set_template s t)
  with_buffer s t h v = record {
    buffer = v;
    hour_fits = h.hour_fits;
    minute_fits = h.minute_fits;
    library = h.library;
    saved = h.saved;
  }

  pub emptied : (t : TmplDat F) → IsValid (record t { rcnt = 0 })
  emptied t = record { fits = omega arith; sorted = λ i j h l. absurd (omega arith) }

  pub set_hour-Sound : (s : Cmd F) → Sound s → Sound (set_hour s).1
  unfolding set_hour
  set_hour-Sound s h =
      if-elim {A = ℕ × Cmd F} (λ r. Sound r.1)
        (ltb_ℤ (pos 23) s.cb.token_value || ltb_ℤ s.cb.token_value (pos 0)) (1, s)
        (
          0,
          record s {
            cb = record (s.cb) { w_hours = pos_part s.cb.token_value; w_hours_str = s.cb.token };
          },
        )
        (λ _. h)
        (λ e. record {
          buffer = h.buffer;
          hour_fits = ground arith;
          minute_fits = h.minute_fits;
          library = h.library;
          saved = h.saved;
        })

  pub set_minute-Sound : (s : Cmd F) → Sound s → Sound (set_minute s).1
  unfolding set_minute
  set_minute-Sound s h =
      if-elim {A = ℕ × Cmd F} (λ r. Sound r.1)
        (ltb_ℤ (pos 59) s.cb.token_value || ltb_ℤ s.cb.token_value (pos 0)) (1, s)
        (
          0,
          record s {
            cb = record (s.cb) {
              w_minutes = pos_part s.cb.token_value;
              w_minutes_str = s.cb.token;
            };
          },
        )
        (λ _. h)
        (λ e. record {
          buffer = h.buffer;
          hour_fits = h.hour_fits;
          minute_fits = ground arith;
          library = h.library;
          saved = h.saved;
        })

  pub load_backup-Sound : (s : Cmd F) → Sound s → Sound (load_backup s).1
  unfolding load_backup
  load_backup-Sound s h = go s.backup refl h.saved
    where
      go :
          (b : Option (IpcDat F))
          → s.backup ≡ b
          → BackupIsLibrary b
          → Sound
              (elim b as (λ _. ℕ × Cmd F) [
                | some ipc ↦ (0, record s { ipc = ipc })
                | none ↦ (0, s)
              ]).1
      go none e l = h
      go (some ipc) e l = record {
        buffer = h.buffer;
        hour_fits = h.hour_fits;
        minute_fits = h.minute_fits;
        library = l;
        saved = h.saved;
      }

  pub save_backup-Sound : (s : Cmd F) → Sound s → Sound (save_backup s).1
  unfolding save_backup
  save_backup-Sound s h =
      if-elim (λ s'. Sound s') s.writable (record s { backup = some s.ipc }) s
        (λ _. record {
          buffer = h.buffer;
          hour_fits = h.hour_fits;
          minute_fits = h.minute_fits;
          library = h.library;
          saved = h.library;
        })
        (λ _. h)

  pub with_library :
      (s : Cmd F) (lib : ℤ → TmplDat F) (index : ℕ)
      → Sound s
      → IsLibrary lib index
      → Sound (set_library s lib index)
  with_library s lib index h l = record {
    buffer = h.buffer;
    hour_fits = h.hour_fits;
    minute_fits = h.minute_fits;
    library = l;
    saved = h.saved;
  }

  in_library :
      (s : Cmd F)
      → out_of_library s ≡ false
      → (pos_part s.cb.token_value < s.ipc.sys_data.tpl_index)
        × (s.cb.token_value ≡ pos (pos_part s.cb.token_value))
  unfolding ◌-ℤ◌
  in_library s e = ground arith

  pub delete_template-Sound : (s : Cmd F) → Sound s → Sound (delete_template s).1
  unfolding delete_template
  delete_template-Sound s h =
      let i = pos_part s.cb.token_value in
      let index = s.ipc.sys_data.tpl_index in
      let lib = shift_library s.ipc.sys_data.tpl_lib i (index - 1 - i) in
      if-elim {A = ℕ × Cmd F} (λ r. Sound r.1) (out_of_library s) (1, s)
        (0, set_library s lib (index - 1)) (λ _. h)
        (λ e.
          with_library s lib (index - 1) h
            (shift_library-IsLibrary s.ipc.sys_data.tpl_lib i index (in_library s e).0 h.library))

  pub save_template-Sound : (s : Cmd F) → Sound s → Sound (save_template s).1
  unfolding save_template clear_template
  save_template-Sound s h =
      let index = s.ipc.sys_data.tpl_index in
      let t : TmplDat F = record (s.cb.w_template_buffer) { name = dequote s.cb.token } in
      let lib = put s.ipc.sys_data.tpl_lib (pos index) t in
      let named : Cmd F = record s { cb = record (s.cb) { token = dequote s.cb.token } } in
      if-elim {A = ℕ × Cmd F} (λ r. Sound r.1) (ltb max_templates (index + 1)) (0, s)
        (clear_template (set_library named lib (index + 1))) (λ _. h)
        (λ e.
          with_buffer (set_library named lib (index + 1))
            (record (s.cb.w_template_buffer) { rcnt = 0 })
            (with_library named lib (index + 1) h (
              put-IsLibrary s.ipc.sys_data.tpl_lib index t (ground arith)
                (record { fits = h.buffer.fits; sorted = h.buffer.sorted }) h.library))
            (emptied s.cb.w_template_buffer))

  pub load_template-Sound :
      (s : Cmd F) → Sound s → out_of_library s ≡ false → Sound (load_template s).1
  unfolding load_template
  load_template-Sound s h e =
      let r = in_library s e in
      with_buffer s (s.ipc.sys_data.tpl_lib s.cb.token_value) h (
        subst (λ i. IsValid (s.ipc.sys_data.tpl_lib i)) (sym r.1)
          (h.library.valid (pos_part s.cb.token_value) r.0))

  pub set_working_channel-Sound : (s : Cmd F) → Sound s → Sound (set_working_channel s).1
  unfolding set_working_channel
  set_working_channel-Sound s h =
      if-elim {A = ℕ × Cmd F} (λ r. Sound r.1) (ltb_ℤ s.cb.token_value (pos number_of_channels))
        (
          0,
          record s {
            cb = record (s.cb) { w_channel = s.cb.token_value; w_minutes = 0; w_hours = 0 };
          },
        )
        (1, s)
        (λ _. record {
          buffer = h.buffer;
          hour_fits = omega arith;
          minute_fits = omega arith;
          library = h.library;
          saved = h.saved;
        })
        (λ _. h)

  pub set_day-Sound : (s : Cmd F) → Sound s → Sound (set_day s).1
  unfolding set_day
  set_day-Sound s h =
      if-elim {A = ℕ × Cmd F} (λ r. Sound r.1)
        (ltb_ℤ (pos 0) s.cb.token_value && ltb_ℤ s.cb.token_value (pos (days_per_week + 1)))
        (0, record s { cb = record (s.cb) { w_day = s.cb.token_value -ℤ pos 1 } }) (1, s) (λ _. h)
        (λ _. h)
