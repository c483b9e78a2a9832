-- ===== src/CmdFsm.antt =====
-- BBB/lib-sources/cmd_fsm.c: the command processor.
pub mod Tables
pub mod Tokens
pub mod State
pub mod Channels
pub mod Schedules
pub mod Sensors
pub mod Bounds
pub mod Engine
pub mod Reach
pub mod Sound
pub mod Library
pub mod Edits
pub mod Escape
pub mod Switch
pub mod Steps
pub mod Invariant
pub mod Queue
pub mod Types
pub mod Tests
pub mod Runs
