-- ===== src/TypeDefs.antt =====
-- BBB/include/typedefs.h and the sizes of BBB/include/shared.h: the data in shared memory.
-- An array that the code indexes by an unchecked `int` is a function from the integers, whose cells
-- outside the array stand for other memory. Which object that memory belongs to is not modelled, so
-- the theorems on code that writes by such an index take it to be inside. A string is a list of any
-- length, and they take it to fit its array likewise.
use pcon_tng.Prelude.{ℕ, ℤ, List, eq_ℤ, if◌then◌else◌}
use pcon_tng.Sch.{TmplDat}

abbrev pub number_of_channels : ℕ
number_of_channels = 16

abbrev pub number_of_sensors : ℕ
number_of_sensors = 20

abbrev pub days_per_week : ℕ
days_per_week = 7

abbrev pub max_templates : ℕ
max_templates = 10

-- The bytes of a channel's name and of a template's, with the NUL.
abbrev pub channel_name_size : ℕ
channel_name_size = 20

abbrev pub template_name_size : ℕ
template_name_size = 40

abbrev pub cmd_tokens : ℕ
cmd_tokens = 41

abbrev pub cmd_states : ℕ
cmd_states = 35

-- a[i] = v
abbrev pub put {ℓ} : {A : Type ℓ} → (ℤ → A) → ℤ → A → ℤ → A
put a i v j = if eq_ℤ j i then v else a j

-- `_CONFIG_DAT`
pub record ConfigDat : Type 0 where
  pub major_version : ℕ
  pub minor_version : ℕ
  pub minor_revision : ℕ
  pub channels : ℕ
  pub sensors : ℕ
  pub commands : ℕ
  pub states : ℕ

-- `_CHN_DAT`
pub record ChnDat : Type 0 where
  pub time_on : ℕ
  pub on_sec : ℕ
  pub off_sec : ℕ
  pub mode : ℕ
  pub state : ℕ
  pub sensor_id : ℤ
  pub sensor_assigned : ℕ
  pub name : List ℕ
  pub hide : ℕ

-- `_SEN_DAT`
pub record SenDat (F : Type 0) : Type 0 where
  pub sensor_id : ℤ
  pub group_id : ℤ
  pub active : ℕ
  pub group : List ℕ
  pub description : List ℕ
  pub channel : ℕ → ℤ
  pub channel_index : ℕ
  pub temp : F
  pub humidity : F
  pub ts : ℕ

-- `_S_TAB`: by day and by channel.
abbrev pub STab : Type 0 → Type 0
STab F = ℤ → ℤ → TmplDat F

-- `_SYS_DAT`; the schedule library, which nothing reads or writes, is left out.
pub record SysDat (F : Type 0) : Type 0 where
  pub config : ConfigDat
  pub sys_sch : STab F
  pub c_data : ℤ → ChnDat
  pub tpl_lib : ℤ → TmplDat F
  pub tpl_index : ℕ

-- `_IPC_DAT`: `c_data` has the entries 0 to 15, `s_dat` 0 to 19, and `tpl_lib` 0 to 9.
pub record IpcDat (F : Type 0) : Type 0 where
  pub force_update : ℕ
  pub sys_data : SysDat F
  pub s_dat : ℤ → SenDat F

-- `_tm`, as far as it is read.
pub record Tm : Type 0 where
  pub tm_sec : ℕ
  pub tm_min : ℕ
  pub tm_hour : ℕ
  pub tm_mday : ℕ
  pub tm_mon : ℕ
  pub tm_year : ℕ
  pub tm_wday : ℕ
