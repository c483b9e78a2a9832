-- ===== src/Slab/Laws.antt =====
-- When the slab controller switches on.
use pcon_tng.Prelude.{
  ℤ, pos, ◌+ℤ◌, ◌≤ℤ◌, ◌<ℤ◌, ◌≡◌, ◌⊎◌, ◌↔◌, inl, inr, negsuc, ltb_ℤ, leb_ℤ, arith, eq_of_parts,
  if◌then◌else◌, +ℤ_parts, -ℤ_parts,
}
use pcon_tng.Slab.{direction, slab_state, slabcon}

-- The controller's rule: on below the target while the reading falls, and otherwise only at five
-- degrees below it.
abbrev pub Demands : ℤ → ℤ → ℤ → Type 0
Demands hold target actual =
    ((actual <ℤ hold) × (actual <ℤ target)) ⊎ ((hold ≤ℤ actual) × (actual +ℤ pos 5 ≤ℤ target))

direction-cases :
    (hold actual : ℤ)
    → ((actual <ℤ hold) × (direction hold actual ≡ (negsuc 0, actual)))
      ⊎ ((hold ≤ℤ actual) × (direction hold actual ≡ (pos 1, actual)))
      ⊎ ((hold ≤ℤ actual) × (direction hold actual ≡ (pos 0, actual)))
unfolding direction
direction-cases hold actual = ground (arith, eq_of_parts hold actual)

falling :
    (target actual : ℤ)
    → (slab_state (negsuc 0) target actual ≡ (if ltb_ℤ actual target then 1 else 0))
unfolding slab_state
falling target actual = ground arith

rising :
    (target actual : ℤ)
    → (slab_state (pos 1) target actual ≡ (if leb_ℤ (actual +ℤ pos 5) target then 1 else 0))
unfolding slab_state
rising target actual = ground (arith, +ℤ_parts actual (pos 5), -ℤ_parts actual (pos 5))

stable :
    (target actual : ℤ)
    → (slab_state (pos 0) target actual ≡ (if leb_ℤ (actual +ℤ pos 5) target then 1 else 0))
unfolding slab_state
stable target actual = ground (arith, +ℤ_parts actual (pos 5), -ℤ_parts actual (pos 5))

-- The controller always answers 0 or 1, never its error value; it answers 1 exactly when the
-- rule demands heat; and it remembers the reading.
pub slabcon_lem :
    (hold target actual : ℤ)
    → (((slabcon hold target actual).0 ≡ 0) ⊎ ((slabcon hold target actual).0 ≡ 1))
      × (((slabcon hold target actual).0 ≡ 1) ↔ Demands hold target actual)
      × ((slabcon hold target actual).1 ≡ actual)
unfolding slabcon
slabcon_lem hold target actual = elim (direction-cases hold actual) [
  | inl (lt, e) ↦ rw (e, falling target actual) (ground arith)
  | inr (inl (ge, e)) ↦ rw (e, rising target actual) (ground arith)
  | inr (inr (ge, e)) ↦ rw (e, stable target actual) (ground arith)
]
