-- ===== src/CmdDefs/Texts.antt =====
-- BBB/lib-sources/cmd_defs.c: the texts of `keyword_defs`, by token. All the states but 0, 1, 4, 13
-- and 21 have the same texts.
use Prim.Native.String.{String}
use pcon_tng.Prelude.{List, [], ◌∷◌}

abbrev pub state_0_texts : List String
state_0_texts =
    "" ∷ "" ∷ "" ∷ "maintain system schedule" ∷ "display all commands valid in current state"
    ∷ "set the real time clock" ∷ "" ∷ "" ∷ "" ∷ "maintain sensor information" ∷ "" ∷ "" ∷ "" ∷ ""
    ∷ "" ∷ "" ∷ "display the time and date from the real time clock" ∷ "" ∷ "" ∷ "" ∷ "" ∷ "" ∷ ""
    ∷ "" ∷ "edit schedule template library" ∷ "" ∷ "load" ∷ "unrecognized command"
    ∷ "display all valid commands" ∷ "terminate Pcon"
    ∷ "move current sensor data log to the master file and erase data log" ∷ "back up one state"
    ∷ "display system data" ∷ "display debug data" ∷ "display contents of template library"
    ∷ "set channel number (0 - 15) for next action (i.e, 0 on)"
    ∷ "alpha numeric string enclosed in quotes" ∷ "any unrecognized token"
    ∷ "display list of active sensors and their current values " ∷ []

abbrev pub state_1_texts : List String
state_1_texts =
    "temperature" ∷ "" ∷ "" ∷ "maintain system schedule"
    ∷ "display all commands valid in current state" ∷ "set the real time clock"
    ∷ "send a ping to the C3" ∷ "build time date structure to set PCF8563 real tim clock"
    ∷ "set PCF8563" ∷ "" ∷ "the system schedule with the contents of the edit buffer"
    ∷ "edit system schedule" ∷ "turn channel on, set channel control mode to manual"
    ∷ "turn channel off, set channel control mode to manual" ∷ "t" ∷ "display status of each chanel"
    ∷ "set channel mode to time" ∷ "set channel control mode to time and sensor"
    ∷ "set channel control mode to cycle" ∷ "" ∷ "show schedule data for channel" ∷ "startup"
    ∷ "display" ∷ "hide schedule sdata for channel" ∷ "edit schedule template library" ∷ "channel"
    ∷ "load" ∷ "unrecognized command" ∷ "display all valid commands" ∷ "terminate Pcon"
    ∷ "move current sensor data log to the master file and erase data log" ∷ "back up one state"
    ∷ "display system data" ∷ "display debug data" ∷ "display contents of template library"
    ∷ "integer" ∷ "channel name enclosed in quotes" ∷ "any unrecognized token"
    ∷ "display list of active sensors and their current values " ∷ []

abbrev pub common_texts : List String
common_texts =
    "temperature" ∷ "" ∷ "" ∷ "maintain system schedule"
    ∷ "display all commands valid in current state" ∷ "set the real time clock"
    ∷ "send a ping to the C3" ∷ "build time date structure to set PCF8563 real tim clock"
    ∷ "set PCF8563" ∷ "" ∷ "the system schedule with the contents of the edit buffer"
    ∷ "edit system schedule" ∷ "turn channel on, set channel control mode to manual"
    ∷ "turn channel off, set channel control mode to manual" ∷ "t" ∷ "display status of each chanel"
    ∷ "display the time and date from the real time clock" ∷ "display status for all channels"
    ∷ "set channel control mode to time" ∷ "set channel control mode to time and sensor"
    ∷ "set channel control mode to cycle" ∷ "startup" ∷ "display" ∷ "save schedule template"
    ∷ "edit schedule template library" ∷ "channel" ∷ "load" ∷ "unrecognized command"
    ∷ "display all valid commands" ∷ "terminate Pcon"
    ∷ "move current sensor data log to the master file and erase data log" ∷ "back up one state"
    ∷ "display system data" ∷ "display debug data" ∷ "display contents of template library"
    ∷ "integer" ∷ "alpha numeric string enclosed in quotes" ∷ "any unrecognized token"
    ∷ "display list of active sensors and their current values " ∷ []

abbrev pub state_4_texts : List String
state_4_texts =
    "temperature" ∷ "" ∷ "" ∷ "maintain system schedule"
    ∷ "display all commands valid in current state" ∷ "set the real time clock"
    ∷ "send a ping to the C3" ∷ "build time date structure to set PCF8563 real tim clock"
    ∷ "replace system schedule table with working schedule table" ∷ ""
    ∷ "delete a saved template or schedule table" ∷ "edit system schedule"
    ∷ "turn channel on, set channel control mode to manual"
    ∷ "turn channel off, set channel control mode to manual" ∷ "clear the schedule buffer"
    ∷ "display status of each chanel" ∷ "display the time and date from the real time clock"
    ∷ "display status for all channels" ∷ "set channel control mode to time"
    ∷ "set channel control mode to time and sensor" ∷ "set channel control mode to cycle"
    ∷ "save the working schedule or the working schedule table" ∷ "display"
    ∷ "save schedule template"
    ∷ "load a template into the schedule buffer or \n\r                 load the working schedule table with a saved schedule table"
    ∷ "load a schedule into working schedule table" ∷ "load" ∷ "unrecognized command"
    ∷ "display all valid commands" ∷ "terminate Pcon"
    ∷ "move current sensor data log to the master file and erase data log" ∷ "back up one state"
    ∷ "display system data" ∷ "display debug data" ∷ "display contents of template library"
    ∷ "start editing a schedule record, schedule record hour"
    ∷ "alpha numeric string enclosed in quotes" ∷ "any unrecognized token"
    ∷ "display list of active sensors and their current values " ∷ []

abbrev pub state_13_texts : List String
state_13_texts =
    "temperature" ∷ "" ∷ "" ∷ "maintain system schedule"
    ∷ "display all commands valid in current state" ∷ "set the real time clock"
    ∷ "send a ping to the C3" ∷ "build time date structure to set PCF8563 real tim clock"
    ∷ "set PCF8563" ∷ "" ∷ "the system schedule with the contents of the edit buffer"
    ∷ "edit system schedule" ∷ "turn channel on, set channel control mode to manual"
    ∷ "turn channel off, set channel control mode to manual" ∷ "t" ∷ "display status of each chanel"
    ∷ "display the time and date from the real time clock" ∷ "display status for all channels"
    ∷ "set channel control mode to time" ∷ "set channel control mode to time and sensor"
    ∷ "set channel control mode to cycle" ∷ "startup" ∷ "display" ∷ "save schedule template"
    ∷ "edit schedule template library" ∷ "channel" ∷ "load" ∷ "unrecognized command"
    ∷ "display all valid commands" ∷ "terminate Pcon"
    ∷ "move current sensor data log to the master file and erase data log" ∷ "back up one state"
    ∷ "display system data" ∷ "display debug data" ∷ "display contents of template library" ∷ "hour"
    ∷ "alpha numeric string enclosed in quotes" ∷ "any unrecognized token"
    ∷ "display list of active sensors and their current values " ∷ []

abbrev pub state_21_texts : List String
state_21_texts =
    "temperature" ∷ "" ∷ "" ∷ "maintain system schedule"
    ∷ "display all commands valid in current state" ∷ "set the real time clock"
    ∷ "send a ping to the C3" ∷ "build time date structure to set PCF8563 real tim clock"
    ∷ "set PCF8563" ∷ "" ∷ "the system schedule with the contents of the edit buffer"
    ∷ "edit system schedule" ∷ "turn channel on, set channel control mode to manual"
    ∷ "turn channel off, set channel control mode to manual" ∷ "t" ∷ "display status of each chanel"
    ∷ "display the time and date from the real time clock" ∷ "display status for all channels"
    ∷ "set channel control mode to time" ∷ "set channel control mode to time and sensor"
    ∷ "set channel control mode to cycle" ∷ "startup" ∷ "display" ∷ "save schedule template"
    ∷ "edit schedule template library" ∷ "channel" ∷ "load" ∷ "unrecognized command"
    ∷ "display all valid commands" ∷ "terminate Pcon"
    ∷ "move current sensor data log to the master file and erase data log" ∷ "back up one state"
    ∷ "display system data" ∷ "display debug data" ∷ "display contents of template library"
    ∷ "sensor id" ∷ "alpha numeric string enclosed in quotes" ∷ "any unrecognized token"
    ∷ "display list of active sensors and their current values " ∷ []
