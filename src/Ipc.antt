-- ===== src/Ipc.antt =====
-- BBB/lib-sources/ipc.c: the file behind shared memory, its size, and the semaphore. The operating
-- system is outside: whether each call succeeds is a list of answers, and `semop` on the one
-- semaphore waits while its value is 0. Messages are left out.
pub mod Sections
pub mod Mapped
pub mod Lock
pub mod Progress
pub mod Tests
use pcon_tng.Prelude.{
  ℕ, zero, suc, ◌+◌, ◌-◌, ◌*◌, ◌/◌, ◌%◌, List, [], ◌∷◌, ◌++◌, Option, none, some, Bool, true, false,
  ◌&&◌, ltb, ◌==◌, if◌then◌else◌, length,
}

-- `ipc_size`, by the size of a page and of `_IPC_DAT`.
unfoldable pub ipc_size : ℕ → ℕ → ℕ
ipc_size page_size size =
    let pages = size / page_size in
    if ltb pages 1
    then page_size
    else if size % page_size == 0
    then pages * page_size
    else (pages + 1) * page_size

-- The file, as far as the process is concerned: its bytes, and how many descriptors are open on it.
pub record Disk : Type 0 where
  pub bytes : List ℕ
  pub fds : ℕ

-- `none` is the end of the process. The answers of the system calls to come are passed on.
abbrev pub M : Type 0 → Type 0
M A = List Bool → Disk → Option (A × List Bool × Disk)

abbrev pub pure : {A : Type 0} → A → M A
pure a answers d = some (a, answers, d)

module _ {A B : Type 0} where
  abbrev pub and_then : Option (A × List Bool × Disk) → (A → M B) → Option (B × List Bool × Disk)
  and_then none k = none
  and_then (some (a, answers, d)) k = k a answers d

  infixl 5 ◌>>=◌ ◌>>◌
  abbrev pub ◌>>=◌ : M A → (A → M B) → M B
  m >>= k = λ answers d. and_then (m answers d) k

  abbrev pub ◌>>◌ : M A → M B → M B
  m >> k = m >>= λ _. k

-- A system call with what it does to the file; the process ends if it fails.
abbrev pub call : (Disk → Disk) → M (Unit {0})
call f [] d = none
call f (true ∷ answers) d = some (tt, answers, f d)
call f (false ∷ answers) d = none

-- A system call whose result is not looked at.
abbrev pub unchecked : (Disk → Disk) → M (Unit {0})
unchecked f answers d = some (tt, answers, f d)

abbrev pub replicate : ℕ → ℕ → List ℕ
replicate zero x = []
replicate (suc n) x = x ∷ replicate n x

abbrev opened : Disk → Disk
opened d = record d { fds = suc d.fds }

abbrev closed : Disk → Disk
closed d = record d { fds = d.fds - 1 }

abbrev same : Disk → Disk
same d = d

-- lseek(fd, size - 1, SEEK_SET) and write(fd, "", 1), behind the end: what lies between is zeros.
abbrev pub stretched : ℕ → Disk → Disk
stretched size d = record d {
  bytes = (d.bytes ++ replicate (size - 1 - length d.bytes) 0) ++ 0 ∷ [];
}

-- if (!S_ISREG (sb.st_mode)) exit(1)
abbrev pub check_regular : Bool → M (Unit {0})
check_regular regular answers d = if regular then some (tt, answers, d) else none

-- fstat, and the test of the file's type.
abbrev pub check_file : Bool → M (Unit {0})
check_file regular = do call same; check_regular regular

-- The second half of `ipc_open`. The file is opened twice.
abbrev pub stretch : Bool → ℕ → M (Unit {0})
stretch regular size = do
  call same
  call (stretched size)
  check_file regular
  unchecked closed
  call opened
  check_file regular
  call opened
  check_file regular

abbrev pub if_short : Bool → ℕ → M (Unit {0})
if_short regular size answers d =
    if ltb (length d.bytes) size then stretch regular size answers d else some (tt, answers, d)

unfoldable pub ipc_open : Bool → ℕ → M (Unit {0})
ipc_open regular size = do call opened; check_file regular; if_short regular size

-- What a process does that concerns the semaphore: `ipc_sem_init`, `ipc_sem_lock`, `ipc_sem_free`,
-- and an access to shared memory, which may stand between a lock and a free or, as some accesses of
-- the programs do, outside.
pub data Op : Type 0 where
  sem_init sem_lock sem_free access : Op

-- The semaphore's value after an operation; `none` where it waits.
abbrev pub semop : Op → ℕ → Option ℕ
semop sem_init v = some 1
semop sem_lock zero = none
semop sem_lock (suc v) = some v
semop sem_free v = some (suc v)
semop access v = some v

-- Whether a process is between a lock and the call that frees it.
abbrev pub inside_after : Op → Bool → Bool
inside_after sem_init b = b
inside_after sem_lock b = true
inside_after sem_free b = false
inside_after access b = b

pub record Process : Type 0 where
  pub program : List Op
  pub inside : Bool

pub record System : Type 0 where
  pub sem : ℕ
  pub process : ℕ → Process

-- The programs: the start of each of the three processes, what they run later, and the gateway's
-- last section where `time` fails, which returns with the lock held. The user interface compares the
-- configuration, the daemon tests the flag, and some commands change shared memory, without a lock.
abbrev pub section : List Op
section = sem_lock ∷ access ∷ sem_free ∷ []

abbrev pub start : List Op
start = sem_init ∷ section

-- The daemon, which creates the file or not.
abbrev pub daemon_start : Bool → List Op
daemon_start new_file = if new_file then start ++ section else start

-- A round of the daemon with an update that is forced: the test of the flag, the lines that clear it,
-- and the update.
abbrev pub forced_update : List Op
forced_update = access ∷ (section ++ section)

-- A round with an update that the clock triggers, and one without an update.
abbrev pub minute_update : List Op
minute_update = access ∷ section

abbrev pub idle_round : List Op
idle_round = access ∷ []

-- The start of the user interface, which may store its version.
abbrev pub ui_start : Bool → List Op
ui_start stores = start ++ access ∷ ((if stores then access ∷ [] else []) ++ section)

-- `c_14`, `c_51`, `c_75` and `c_76`.
abbrev pub unlocked_command : List Op
unlocked_command = access ∷ []

abbrev pub gateway : Bool → List Op
gateway time_fails = start ++ (if time_fails then sem_lock ∷ access ∷ [] else section)

abbrev pub set : (ℕ → Process) → ℕ → Process → ℕ → Process
set ps i p j = if j == i then p else ps j

abbrev pub moved : System → ℕ → Op → List Op → Option ℕ → System
moved s i op rest none = s
moved s i op rest (some v) = record {
  sem = v;
  process =
      set s.process i (record { program = rest; inside = inside_after op (s.process i).inside });
}

abbrev pub turn_of : System → ℕ → List Op → System
turn_of s i [] = s
turn_of s i (op ∷ rest) = moved s i op rest (semop op s.sem)

-- The next operation of process `i`, which is left where it is while the semaphore makes it wait.
unfoldable pub turn : ℕ → System → System
turn i s = turn_of s i (s.process i).program

-- The processes take turns in any order.
unfoldable pub run : List ℕ → System → System
run [] s = s
run (i ∷ order) s = run order (turn i s)
