-- ===== src/SystemData.antt =====
-- BBB/lib-sources/sys_dat.c: the comparison of a stored configuration with the program's.
pub mod Laws
use pcon_tng.Prelude.{ℕ, not, ◌==◌, if◌then◌else◌}
use pcon_tng.TypeDefs.{ConfigDat, number_of_channels, number_of_sensors, cmd_tokens, cmd_states}

abbrev pub major_version_system : ℕ
major_version_system = 1

abbrev pub minor_version_system : ℕ
minor_version_system = 2

abbrev pub minor_revision_system : ℕ
minor_revision_system = 0

unfoldable pub sys_comp : ConfigDat → ℕ
sys_comp config =
    if not (major_version_system == config.major_version)
    then 1
    else if not (minor_version_system == config.minor_version)
    then 1
    else if not (minor_revision_system == config.minor_revision)
    then 1
    else if not (number_of_channels == config.channels)
    then 1
    else if not (number_of_sensors == config.sensors)
    then 1
    else if not (cmd_tokens == config.commands)
    then 1
    else if not (cmd_states == config.states)
    then 1
    else 0
