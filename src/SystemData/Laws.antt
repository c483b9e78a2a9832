-- ===== src/SystemData/Laws.antt =====
-- Which configurations the program accepts.
use pcon_tng.Prelude.{◌≡◌, ◌↔◌, ◌⊎◌, refl, arith, subst, sym}
use pcon_tng.TypeDefs.{ConfigDat}
use pcon_tng.SystemData.{sys_comp}

-- The configuration of this version of the program.
abbrev pub current : ConfigDat
current = record {
  major_version = 1;
  minor_version = 2;
  minor_revision = 0;
  channels = 16;
  sensors = 20;
  commands = 41;
  states = 35;
}

-- `sys_comp` returns 0 for the program's own configuration and for no other, and else 1.
pub sys_comp-current :
    (config : ConfigDat)
    → ((sys_comp config ≡ 0) ↔ (config ≡ current)) × ((sys_comp config ≡ 0) ⊎ (sys_comp config ≡ 1))
unfolding sys_comp
sys_comp-current config =
    ((λ h. ground arith, λ h. subst (λ c. sys_comp c ≡ 0) (sym h) refl), ground arith)
