-- ===== src/Ui/FirstRun.antt =====
-- BBB/UI/Pcon.c after BBB/daemon/Dcon.c: the user interface on a file that the daemon has made.
use pcon_tng.Prelude.{ℕ, ◌≡◌, ap, ℤ, [], false, ◌==◌, if-true, arith}
use pcon_tng.TypeDefs.{IpcDat}
use pcon_tng.SystemData.{sys_comp}
use pcon_tng.SystemData.Laws.{current, sys_comp-current}
use pcon_tng.Daemon.Start.{start}
use pcon_tng.Ui.{Ui}
use pcon_tng.Ui.Start.{start_up, initialised, Ready, initialised-Ready}

module _ {F : Type 0} where
  -- On the data of a daemon that found no file, the user interface starts without a question: the
  -- answer is not looked at, and the main loop can start, when no token is queued, the previous line
  -- is empty and the program runs.
  pub start_up-Ready :
      (ipc : IpcDat F) (hold : ℤ) (h_min toggle answer : ℕ) (u : Ui F)
      → u.cmd.ipc ≡ (start false ipc hold h_min toggle).ipc
      → u.reader.queue ≡ []
      → u.editor.previous_work_buffer 0 ≡ 0
      → u.cmd.ended ≡ false
      → (start_up answer u ≡ initialised u) × Ready (initialised u)
  unfolding start_up start
  start_up-Ready ipc hold h_min toggle answer u same queue previous runs =
      let version : u.cmd.ipc.sys_data.config ≡ current =
        ap (λ (x : IpcDat F). x.sys_data.config) same in
      let accepted = (sys_comp-current u.cmd.ipc.sys_data.config).0.1 version in
      (
        if-true (sys_comp u.cmd.ipc.sys_data.config == 0) (initialised u) _
            (ground (arith, accepted)),
        initialised-Ready u queue previous runs version,
      )
