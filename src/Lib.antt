-- ===== src/Lib.antt =====
-- Pcon-TNG: a power controller for a BeagleBone. A daemon drives sixteen relays from a
-- configuration in shared memory; each relay follows a fixed state, a daily schedule, or a sensor
-- that holds a slab at a target temperature. A command processor edits the configuration, and asks
-- the daemon for an update through a flag in shared memory.
--
-- The modules and the code they are about (paths from the repository's root):
-- - Sch: BBB/lib-sources/sch.c. `TmplDat` is `_TMPL_DAT`; `add_tmpl_rec`, `del_tmpl_rec`,
--   `find_tmpl_key`, `con_key`, `test_sch_time`, `test_sch_sensor` and `get_tar_temp` are the C
--   functions of these names, and their loops are functions of their own. `below` is what the
--   memory in front of a record array reads as.
-- - SchPrint: the routines of sch.c that print templates and schedules, as the bytes that they
--   print; Overrun is about the room in `time_state`.
-- - Slab: BBB/lib-sources/slab_control.c, which `test_sch_sensor` calls. The static reading of
--   `direction` is passed in and out.
-- - ListMaint: BBB/lib-sources/list_maint.c, the channel lists of the sensors.
-- - TypeDefs: the records of BBB/include/typedefs.h that live in shared memory.
-- - Daemon: BBB/daemon/Dcon.c. `update_relays` takes the shared data to the new shared data, the
--   slab controller's reading and the gpio writes in order; `main_round` is a round of the main
--   loop. `stray` is what the uninitialised `state` of `update_relays` holds. Start is the start
--   of the daemon, Requests the loop line by line beside the processes that ask for updates.
-- - OldDaemon: BBB/old daemon/Dcon.c, the daemon of the earlier hardware: the calls of `pin_high`
--   and `pin_low` in order, on pins that are given. Start is the start of the daemon, Service the
--   loop line by line beside the processes that ask for updates. Register is a shift register with
--   a latch, as the comment on `send_ccb` describes it, with what it shows of the writes to its
--   three pins; Board is what it takes in of one update, Wiring what an update leaves on pins that
--   are connected as the code takes them to be. Channels compares the channels' states with the
--   daemon's, Loop is the main loop, Log the log of states that an update adds to.
-- - Ipc: BBB/lib-sources/ipc.c, the size of shared memory, the file behind it, and the semaphore
--   with what each process does to it; Lock and Progress are about the processes taking turns, of
--   which some use shared memory without the lock.
-- - Clock: BBB/lib-sources/PCF8563.c, the bytes that set the clock chip.
-- - CharFsm: BBB/lib-sources/char_fsm.c. `char_fsm` puts a character into the buffer by two tables,
--   and `process_buffer` splits the buffer into the queue of tokens, which is a list.
-- - LineEditor: BBB/UI/Pcon.c, the keys of its line editor and its history of lines; Text is the
--   line with a cursor that the editor is compared with, and Bounds the comparison for keys that
--   stay inside the 60 bytes of `work_buffer`.
-- - Ui: BBB/UI/Pcon.c, the start and the main loop: `main_loop` makes a round for each key, in
--   which `run_commands` runs the queued tokens and `press` is the switch on the key. FirstRun is
--   the start on the data that the daemon has made, Switch and Name go from the keyboard to a pin
--   and to a name.
-- - SystemData: BBB/lib-sources/sys_dat.c, the comparison of configurations.
-- - CmdFsm: BBB/lib-sources/cmd_fsm.c, with `s_load` of smaint.c, `load_wsch` of sch.c and the
--   backup file of ipc.c. Tables holds the keywords and the two tables row by row; Tokens the
--   string routines and `token_type`; State the control block with all that the routines reach;
--   Channels, Schedules and Sensors the routines, under names that say what they do (`run_action`
--   in Engine gives the number of each); Engine the engine `cmd_fsm`; Bounds when a routine writes
--   inside its arrays. A routine yields the value
--   that it returns and the state after it.
-- - CmdDefs: BBB/lib-sources/cmd_defs.c, the texts of the commands, and the list that `c_1` of
--   cmd_fsm.c makes of them.
-- - Gateway: BBB/CGI/Scon.c, which a sensor's web request runs: Gateway itself has `cgigetval` and
--   `unescstring`, Encoding and Fields the format of a query, Main the conversions and `main`; Log
--   the record added to the data file; Control is about a report and the daemon's update behind
--   it, Log.Statistics about reports and the statistics of the file behind them.
-- - Topics: i5-6600k/lib-sources/fifo_q.c and build_token_q.c, a linked queue on a heap; Chain and
--   Fifo say what a queue is, Supply what `malloc` may yield, Levels what a topic is.
-- - SensorLog: Mint/process-master/process.c, the statistics of the log; Summary is what a sensor's
--   own readings come to, Report the statistics of them all.
-- - Float: what the code relies on of a C float, as an interface with an instance.
-- - Prelude: tests, integers, arrays as functions, searches, and tests below a bound.
--
-- Choices. An array is a function from its indices; one that the code indexes by an unchecked
-- `int` is a function from the integers. What a write outside an array overwrites in the program
-- is not modelled: the cells there stand for other memory, and the theorems on code that does not
-- check take the indices to be in the array and the strings to fit it (`all_fit` in LineEditor,
-- `roomy` and `has_slack` in CharFsm, `in_bounds` in CmdFsm, `SensorsInRange` in Daemon,
-- `all_in_arrays` in SensorLog). In CharFsm `usable` says how many bytes `malloc` gives for a
-- request, and a quoted text without room for its NUL gives no queue; in SchPrint a string that
-- `time_state` has no room for gives no text. In Gateway a reading whose number is not in s_dat
-- ends as `overrun`, and in SensorLog a number behind the arrays gives no statistics. Integers do
-- not wrap around where the values are hours, minutes, keys, counts and readings; `scan_u` and the
-- clock's bytes do. Loops are structural recursion on the data or on the rounds left. The number
-- of rounds given is enough: `commands` has one for each token in the queue, `cgigetval` one for
-- each byte of the query, `list_free` one for each cell; a loop of `cgigetval` that has no end
-- comes out as `out_of_rounds` with every number. Strings are lists of bytes up to the NUL; only
-- the line editor, the character parser and the topic queue model the buffers that hold them. On
-- the heap of the topic queue an access to memory that is not allocated is a fault. Logging but
-- for OldDaemon.Log, prompts, all printing but that of SchPrint, busy waits and the shell are left
-- out. An update under a lock is one step of the daemon; the lock itself is in Ipc, where a
-- process is the list of its semaphore calls and accesses, any process may make the next call, and
-- `semop` does not go on while the semaphore is 0. The calls of the system are outside: in Ipc
-- whether each succeeds is a list of answers; the mapping of the file, the logs and text files of
-- the gateway, the fork of the daemon and the clock's bus are not modelled. No header of the
-- repository names the pins of the earlier daemon: they are given. The MQTT clients, the programs
-- that print the log, the vendored libraries, and the copies of the daemon kept for tests are not
-- modelled.
pub mod Prelude
pub mod Float
pub mod Slab
pub mod ListMaint
pub mod Sch
pub mod SchPrint
pub mod TypeDefs
pub mod Daemon
pub mod Clock
pub mod CmdFsm
pub mod CharFsm
pub mod SystemData
pub mod LineEditor
pub mod Ui
pub mod CmdDefs
pub mod Gateway
pub mod Topics
pub mod SensorLog
pub mod OldDaemon
pub mod Ipc
