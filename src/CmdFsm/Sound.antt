-- ===== src/CmdFsm/Sound.antt =====
-- The invariant of what the commands edit: the template buffer, the working time, the library of
-- templates and its backup.
use pcon_tng.Prelude.{
  ℕ, suc, ◌+◌, ◌-◌, ◌≤◌, ◌<◌, ◌≡◌, ℤ, pos, ltb, leb, ◌&&◌, zero, Option, none, some, arith, eq_ℤ,
  if-elim, if◌then◌else◌, subst, sym,
}
use pcon_tng.Sch.{TmplDat}
use pcon_tng.Sch.Live.{IsValid}
use pcon_tng.TypeDefs.{IpcDat, put, max_templates}
use pcon_tng.CmdFsm.State.{Cmd}
use pcon_tng.CmdFsm.Schedules.{shift_library}

module _ {F : Type 0} where
  -- A library of templates: at most ten, each of them in order.
  pub record IsLibrary (lib : ℤ → TmplDat F) (index : ℕ) : Type 0 where
    pub fits : index ≤ max_templates
    pub valid : (i : ℕ) → i < index → IsValid (lib (pos i))

  abbrev pub BackupIsLibrary : Option (IpcDat F) → Type 0
  BackupIsLibrary none = Unit {0}
  BackupIsLibrary (some ipc) = IsLibrary ipc.sys_data.tpl_lib ipc.sys_data.tpl_index

  pub record IsSound (t : TmplDat F) (hour minute : ℕ) (lib : ℤ → TmplDat F) (index : ℕ)
      (backup : Option (IpcDat F)) : Type 0 where
    pub buffer : IsValid t
    pub hour_fits : hour < 24
    pub minute_fits : minute < 60
    pub library : IsLibrary lib index
    pub saved : BackupIsLibrary backup

  abbrev pub Sound : Cmd F → Type 0
  Sound s =
      IsSound s.cb.w_template_buffer s.cb.w_hours s.cb.w_minutes s.ipc.sys_data.tpl_lib
        s.ipc.sys_data.tpl_index s.backup

  -- The cells after a deletion.
  pub shift_library_lem :
      (lib : ℤ → TmplDat F) (i n j : ℕ)
      → shift_library lib i n (pos j)
        ≡ (if leb i j && ltb j (i + n) then lib (pos (suc j)) else lib (pos j))
  unfolding shift_library
  shift_library_lem lib i zero j = ground arith
  shift_library_lem lib i (suc n) j =
      ground (arith, shift_library_lem (put lib (pos i) (lib (pos (suc i)))) (suc i) n j)

  pub shift_library-IsLibrary :
      (lib : ℤ → TmplDat F) (i index : ℕ)
      → i < index
      → IsLibrary lib index
      → IsLibrary (shift_library lib i (index - 1 - i)) (index - 1)
  shift_library-IsLibrary lib i index h l = record {
    fits = omega (arith, l.fits);
    valid = λ j k. subst IsValid (sym (shift_library_lem lib i (index - 1 - i) j)) (
        if-elim IsValid (leb i j && ltb j (i + (index - 1 - i))) (lib (pos (suc j))) (lib (pos j))
          (λ _. l.valid (suc j) (omega arith)) (λ _. l.valid j (omega arith)));
  }

  pub put-IsLibrary :
      (lib : ℤ → TmplDat F) (index : ℕ) (t : TmplDat F)
      → index < max_templates
      → IsValid t
      → IsLibrary lib index
      → IsLibrary (put lib (pos index) t) (index + 1)
  put-IsLibrary lib index t h v l = record {
    fits = omega arith;
    valid = λ j k.
        if-elim IsValid (eq_ℤ (pos j) (pos index)) t (lib (pos j)) (λ _. v)
          (λ e. l.valid j (ground arith));
  }
