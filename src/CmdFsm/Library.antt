-- ===== src/CmdFsm/Library.antt =====
-- The template library and the working schedule: what deleting, saving and loading leave in them.
use pcon_tng.Prelude.{
  ℕ, zero, suc, ◌+◌, ◌-◌, ◌<◌, ◌≡◌, refl, sym, ap, subst, ℤ, pos, ◌-ℤ◌, eq_ℤ, pos_part, leb, ltb,
  false, ◌&&◌, ◌||◌, if◌then◌else◌, arith, length, ◌==◌,
}
use pcon_tng.Sch.{TmplDat}
use pcon_tng.TypeDefs.{STab, max_templates, template_name_size, number_of_channels, days_per_week}
use pcon_tng.CmdFsm.State.{Cmd}
use pcon_tng.CmdFsm.Tokens.{dequote}
use pcon_tng.CmdFsm.Schedules.{
  fill_channels, fill_days, fill_all, load_wsch, all_channels, all_days, delete_template,
  save_template, load_template, clear_template, shift_library, put_cell, out_of_library,
  set_library,
}
use pcon_tng.CmdFsm.Sound.{shift_library_lem}

module _ {F : Type 0} (t : TmplDat F) where
  fill_channels_lem :
      (d : ℤ) (c n : ℕ) (sch : STab F) (d' : ℤ) (c' : ℕ)
      → fill_channels t d c n sch d' (pos c')
        ≡ (if eq_ℤ d' d && (leb c c' && ltb c' (c + n)) then t else sch d' (pos c'))
  unfolding fill_channels
  fill_channels_lem d c zero sch d' c' = ground arith
  fill_channels_lem d c (suc n) sch d' c' =
      ground (arith, fill_channels_lem d (suc c) n (put_cell sch d (pos c) t) d' c')

  fill_days_lem :
      (c : ℤ) (d n : ℕ) (sch : STab F) (d' : ℕ) (c' : ℤ)
      → fill_days t c d n sch (pos d') c'
        ≡ (if eq_ℤ c' c && (leb d d' && ltb d' (d + n)) then t else sch (pos d') c')
  unfolding fill_days
  fill_days_lem c d zero sch d' c' = ground arith
  fill_days_lem c d (suc n) sch d' c' =
      ground (arith, fill_days_lem c (suc d) n (put_cell sch (pos d) c t) d' c')

  fill_all_lem :
      (d n : ℕ) (sch : STab F) (d' c' : ℕ)
      → c' < number_of_channels
      → fill_all t d n sch (pos d') (pos c')
        ≡ (if leb d d' && ltb d' (d + n) then t else sch (pos d') (pos c'))
  unfolding fill_all
  fill_all_lem d zero sch d' c' h = ground arith
  fill_all_lem d (suc n) sch d' c' h = ground (
    arith,
    fill_all_lem (suc d) n (fill_channels t (pos d) 0 number_of_channels sch) d' c' h,
    fill_channels_lem (pos d) 0 number_of_channels sch (pos d') c',
  )

  -- After the buffer is loaded into the working schedule, a cell of the table of seven days and
  -- sixteen channels holds the buffer when its day and its channel are chosen, where 99 chooses
  -- all of them, and is as it was otherwise.
  pub load_wsch_lem :
      (w_channel w_day : ℤ) (sch : STab F) (d c : ℕ)
      → d < days_per_week
      → c < number_of_channels
      → load_wsch t w_channel w_day sch (pos d) (pos c) ≡ (
          if (eq_ℤ w_channel all_channels || eq_ℤ (pos c) w_channel)
            && (eq_ℤ w_day all_days || eq_ℤ (pos d) w_day)
          then t
          else sch (pos d) (pos c))
  unfolding load_wsch
  load_wsch_lem w_channel w_day sch d c h l = ground (
    arith,
    fill_all_lem 0 days_per_week sch d c l,
    fill_channels_lem w_day 0 number_of_channels sch (pos d) c,
    fill_days_lem w_channel 0 days_per_week sch d (pos c),
  )

module _ {F : Type 0} where
  -- A template of the library.
  abbrev pub lib_of : Cmd F → ℕ → TmplDat F
  lib_of s i = s.ipc.sys_data.tpl_lib (pos i)

module _ {F : Type 0} (s : Cmd F) where
  inside :
      (i : ℕ) → s.cb.token_value ≡ pos i → i < s.ipc.sys_data.tpl_index → out_of_library s ≡ false
  unfolding ◌-ℤ◌
  inside i e h = ground arith

  deleted :
      (i : ℕ)
      → s.cb.token_value ≡ pos i
      → i < s.ipc.sys_data.tpl_index
      → delete_template s ≡ (
        0,
        set_library s
            (shift_library s.ipc.sys_data.tpl_lib i (s.ipc.sys_data.tpl_index - 1 - i))
            (s.ipc.sys_data.tpl_index - 1),
      )
  unfolding delete_template
  deleted i e h = rw (inside i e h) (
      ap
        (λ k. (
          0,
          set_library s (shift_library s.ipc.sys_data.tpl_lib k (s.ipc.sys_data.tpl_index - 1 - k))
              (s.ipc.sys_data.tpl_index - 1),
        ))
        (ap pos_part e))

  -- Deleting template `i` of the library, for a number in range, succeeds, leaves one less, and
  -- closes the gap: each later one moves down by one, and the other cells are as they were.
  pub delete_template_lem :
      (i j : ℕ)
      → s.cb.token_value ≡ pos i
      → i < s.ipc.sys_data.tpl_index
      → ((delete_template s).0 ≡ 0)
        × ((delete_template s).1.ipc.sys_data.tpl_index + 1 ≡ s.ipc.sys_data.tpl_index)
        × (lib_of (delete_template s).1 j ≡ (
            if leb i j && ltb (j + 1) s.ipc.sys_data.tpl_index
            then lib_of s (j + 1)
            else lib_of s j))
  delete_template_lem i j e h =
      subst
        (λ r.
          (r.0 ≡ 0)
          × (r.1.ipc.sys_data.tpl_index + 1 ≡ s.ipc.sys_data.tpl_index)
          × (lib_of r.1 j ≡ (
              if leb i j && ltb (j + 1) s.ipc.sys_data.tpl_index
              then lib_of s (j + 1)
              else lib_of s j)))
        (sym (deleted i e h)) (refl, omega (arith, h), cell)
    where
      cell : shift_library s.ipc.sys_data.tpl_lib i (s.ipc.sys_data.tpl_index - 1 - i) (pos j) ≡ (
          if leb i j && ltb (j + 1) s.ipc.sys_data.tpl_index then lib_of s (j + 1) else lib_of s j)
      cell =
          ground
            (arith, shift_library_lem s.ipc.sys_data.tpl_lib i (s.ipc.sys_data.tpl_index - 1 - i) j)

  abbrev pub saved_at : ℕ → Cmd F
  saved_at index =
      let s' = (save_template s).1 in record s' { cb = record (s'.cb) { token_value = pos index } }

  -- Saving while there is room, under a name that fits its 40 bytes, adds one template; loaded by
  -- its number it is the buffer as it was, under the name given without its quotes; and in the
  -- library that one is new, and every other cell is as it was.
  pub load_template-save_template :
      (j : ℕ)
      → s.ipc.sys_data.tpl_index < max_templates
      → length (dequote s.cb.token) < template_name_size
      → ((load_template (saved_at s.ipc.sys_data.tpl_index)).1.cb.w_template_buffer
          ≡ record (s.cb.w_template_buffer) { name = dequote s.cb.token })
        × ((save_template s).1.ipc.sys_data.tpl_index ≡ s.ipc.sys_data.tpl_index + 1)
        × (lib_of (save_template s).1 j ≡ (
            if j == s.ipc.sys_data.tpl_index
            then record (s.cb.w_template_buffer) { name = dequote s.cb.token }
            else lib_of s j))
  unfolding load_template save_template clear_template
  load_template-save_template j h fits =
      let room : ltb max_templates (s.ipc.sys_data.tpl_index + 1) ≡ false = ground arith in
      rw room (ground arith, refl, ground arith)
