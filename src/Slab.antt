-- ===== src/Slab.antt =====
-- BBB/lib-sources/slab_control.c: the on/off controller for heated slabs. The `static int hold` of
-- `direction` is the last reading; a call takes it and returns its new value beside the result.
-- Readings and targets are unbounded integers, so `actual + 5` does not overflow.
pub mod Laws
use pcon_tng.Prelude.{
  ℕ, eq_ℤ, ℤ, pos, negsuc, ◌+ℤ◌, ◌-ℤ◌, ltb_ℤ, leb_ℤ, ltb, ◌==◌, if◌then◌else◌, Bool, ◌&&◌,
}

abbrev h_setback : ℤ
h_setback = pos 5

abbrev l_setback : ℤ
l_setback = pos 5

-- The result, and `hold` after the call.
unfoldable pub direction : ℤ → ℤ → ℤ × ℤ
direction hold n =
    if eq_ℤ hold n then (pos 0, hold) else if ltb_ℤ n hold then (negsuc 0, n) else (pos 1, n)

-- The three branches of `slabcon`, and its error value.
unfoldable pub slab_state : ℤ → ℤ → ℤ → ℕ
slab_state dir target actual =
    if eq_ℤ dir (negsuc 0)
    then (if leb_ℤ target actual then 0 else if ltb_ℤ actual target then 1 else 0)
    else if eq_ℤ dir (pos 1)
    then (if ltb_ℤ target (actual +ℤ h_setback)
        then 0
        else if leb_ℤ (actual -ℤ l_setback) target
        then 1
        else 0)
    else if eq_ℤ dir (pos 0)
    then (if ltb_ℤ target (actual +ℤ h_setback)
        then 0
        else if leb_ℤ (actual -ℤ l_setback) target
        then 1
        else 0)
    else 2000

-- `slabcon(target, actual)`: the state, and `hold` after the call.
unfoldable pub slabcon : ℤ → ℤ → ℤ → ℕ × ℤ
unfolding direction slab_state
slabcon hold target actual =
    let (dir, hold') = direction hold actual in (slab_state dir target actual, hold')
