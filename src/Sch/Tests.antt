-- ===== src/Sch/Tests.antt =====
-- The schedule theorems at a template with two records, and runs of the code on it.
use pcon_tng.Prelude.{ℕ, ◌≡◌, refl, inl, [], ◌∷◌, ◌==◌, if◌then◌else◌, arith, ℤ, pos, negsuc, slots}
use pcon_tng.Float.{whole}
use pcon_tng.Sch.{
  SRec, TmplDat, find_tmpl_key, add_tmpl_rec, del_tmpl_rec, test_sch_time, get_tar_temp,
}
use pcon_tng.Sch.Live.{live, IsValid, find_rec, put_rec, drop_rec}
use pcon_tng.Sch.Add.{new_rec, add_tmpl_rec-put_rec}
use pcon_tng.Sch.Del.{del_tmpl_rec-drop_rec}
use pcon_tng.Sch.Time.{in_force, test_sch_time-in_force}

abbrev pub rec_at : ℕ → ℕ → ℤ → SRec ℤ
rec_at key state temp = record { key = key; state = state; temp = temp; humid = pos 0 }

-- On at 06:00, off at 22:00.
abbrev pub day_plan : TmplDat ℤ
day_plan = record {
  name = [];
  rcnt = 2;
  rec = λ i.
      if i == 0
      then rec_at 360 1 (pos 70)
      else if i == 1
      then rec_at 1320 0 (pos 60)
      else rec_at 0 0 (pos 5);
}

pub day_plan-IsValid : IsValid day_plan
day_plan-IsValid = record { fits = omega arith; sorted = λ i j h l. ground arith }

abbrev junk : SRec ℤ
junk = rec_at 999 7 (negsuc 3)

add_first :
    live (add_tmpl_rec junk day_plan 1 0 0 (pos 50) (pos 0)).1
    ≡ rec_at 60 0 (pos 50) ∷ rec_at 360 1 (pos 70) ∷ rec_at 1320 0 (pos 60) ∷ []
unfolding add_tmpl_rec slots
add_first = refl

time_before_first : test_sch_time 10 day_plan ≡ 0
unfolding test_sch_time
time_before_first = refl

time_between : test_sch_time 700 day_plan ≡ 1
unfolding test_sch_time
time_between = refl

target_between : get_tar_temp 700 day_plan ≡ pos 5
unfolding get_tar_temp
target_between = refl

find_second : find_tmpl_key day_plan 22 0 ≡ negsuc 0
unfolding find_tmpl_key
find_second = refl

add_tmpl_rec-put_rec_example :
    ((add_tmpl_rec junk day_plan 12 30 1 (pos 65) (pos 0)).0 ≡ 0)
    × (live (add_tmpl_rec junk day_plan 12 30 1 (pos 65) (pos 0)).1
        ≡ put_rec (new_rec 12 30 1 (pos 65) (pos 0)) (live day_plan))
add_tmpl_rec-put_rec_example =
    add_tmpl_rec-put_rec junk day_plan day_plan-IsValid 12 30 1 (pos 65) (pos 0) (inl (omega arith))

del_tmpl_rec-drop_rec_example :
    ((del_tmpl_rec day_plan 6 0).0 ≡ 0)
    × (live (del_tmpl_rec day_plan 6 0).1 ≡ drop_rec 360 (live day_plan))
unfolding slots find_rec
del_tmpl_rec-drop_rec_example = del_tmpl_rec-drop_rec day_plan 6 0

test_sch_time-in_force_example :
    test_sch_time 700 day_plan ≡ (day_plan.rec (in_force day_plan 700)).state
test_sch_time-in_force_example = test_sch_time-in_force day_plan day_plan-IsValid 700
