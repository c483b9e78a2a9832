-- ===== src/CmdFsm/State.antt =====
-- BBB/include/typedefs.h and BBB/lib-sources/cmd_fsm.c: the control block of the command processor
-- and what its action routines share. Prompts and what is printed are left out: nothing reads them
-- back. A routine is one step: many hold the lock on shared memory around their change of it, but
-- c_14, c_51, c_75 and c_76 change it without the lock, and what another process may do between two
-- of their accesses is not modelled.
use pcon_tng.Prelude.{ℕ, ℤ, List, Option, Bool}
use pcon_tng.Sch.{TmplDat}
use pcon_tng.Clock.{ClockTm}
use pcon_tng.TypeDefs.{ChnDat, SenDat, STab, IpcDat, put}

-- `_CMD_FSM_CB` less its pointers and its prompt: `ipc_ptr`, `sys_ptr` and `ssch_ptr` point into
-- the shared data, `wsch_ptr` to `w_sch`. The hour and the minute are never negative.
-- `w_hours_str` and `w_minutes_str` have four bytes and `token` 128 in the source; strings are lists
-- here, and one that is too long for its bytes overruns them there. `in_bounds` in Bounds says when
-- a routine stays inside.
pub record CmdFsmCb (F : Type 0) : Type 0 where
  pub state : ℕ
  pub p_state : ℕ
  pub token : List ℕ
  pub token_type : ℤ
  pub token_value : ℤ
  pub w_channel : ℤ
  pub w_minutes : ℕ
  pub w_minutes_str : List ℕ
  pub w_hours : ℕ
  pub w_hours_str : List ℕ
  pub w_day : ℤ
  pub w_sen_dat : SenDat F
  pub w_template_buffer : TmplDat F
  pub w_sch : STab F

-- The control block with what the routines reach besides it: shared memory, the buffer `tm`, the
-- clock's registers, the backup file (whole, or absent) and whether it can be written, the command
-- queue, and whether the process has ended.
pub record Cmd (F : Type 0) : Type 0 where
  pub cb : CmdFsmCb F
  pub ipc : IpcDat F
  pub tm : ClockTm
  pub rtc : List ℕ
  pub backup : Option (IpcDat F)
  pub writable : Bool
  pub cmd_q : List (List ℕ)
  pub ended : Bool

module _ {F : Type 0} where
  -- sys_ptr->c_data[w_channel] = …
  abbrev pub set_channel : Cmd F → (ChnDat → ChnDat) → Cmd F
  set_channel s f = record s {
    ipc = record (s.ipc) {
      sys_data = record (s.ipc.sys_data) {
        c_data =
            put s.ipc.sys_data.c_data s.cb.w_channel (f (s.ipc.sys_data.c_data s.cb.w_channel));
      };
    };
  }

  -- ipc_ptr->force_update = 1
  abbrev pub force : Cmd F → Cmd F
  force s = record s { ipc = record (s.ipc) { force_update = 1 } }

  -- w_template_buffer = …
  abbrev pub set_template : Cmd F → TmplDat F → Cmd F
  set_template s t = record s { cb = record (s.cb) { w_template_buffer = t } }
