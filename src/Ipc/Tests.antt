-- ===== src/Ipc/Tests.antt =====
-- Runs of the semaphore and of the file behind shared memory, of BBB/lib-sources/ipc.c.
use pcon_tng.Prelude.{
  ℕ, ◌≡◌, refl, List, [], ◌∷◌, ◌++◌, none, some, Bool, true, false, ◌==◌, if◌then◌else◌, arith, inl,
  inr,
}
use pcon_tng.Ipc.{
  Op, sem_lock, sem_free, access, Process, System, turn, run, section, forced_update,
  unlocked_command, gateway, Disk, ipc_open, ipc_size,
}
use pcon_tng.Ipc.Sections.{locks_accesses}
use pcon_tng.Ipc.Lock.{inside, Guarded, CalmRun, mutual_exclusion}
use pcon_tng.Ipc.Progress.{Ready, AllFree, no_deadlock, lock_lost}
use pcon_tng.Ipc.Mapped.{Pages, ipc_size-Pages, trues, checks, ready, ipc_open_lem, ipc_open_fails}

abbrev outside : List Op → Process
outside program = record { program = program; inside = false }

-- The daemon at an update that is forced, the user interface at two commands, one of which does not
-- lock, and a sensor's report.
abbrev house : Bool → System
house time_fails = record {
  sem = 1;
  process = λ i.
      if i == 0
      then outside forced_update
      else if i == 1
      then outside (unlocked_command ++ section)
      else if i == 2
      then outside (gateway time_fails)
      else outside [];
}

house-Guarded : (b : Bool) → Guarded (house b)
house-Guarded b = record { owned = inl (refl, λ i. ground arith); programs = λ i. ground arith }

-- The gateway starts first, then the three take turns.
abbrev order : List ℕ
order = 2 ∷ 0 ∷ 1 ∷ 0 ∷ 2 ∷ 0 ∷ 1 ∷ []

order-Calm : CalmRun order (house false)
unfolding turn
order-Calm =
    (λ h j. ground arith, (λ h. cc, (λ h. cc, (λ h. cc, (λ h. cc, (λ h. cc, (λ h. cc, tt)))))))

mutual_exclusion_example :
    ((i j : ℕ)
      → inside (run order (house false)) i ≡ true
      → inside (run order (house false)) j ≡ true
      → i ≡ j)
    × ((i : ℕ) (rest : List Op)
        → locks_accesses (inside (house false) i) ((house false).process i).program ≡ true
        → ((run order (house false)).process i).program ≡ access ∷ rest
        → inside (run order (house false)) i ≡ true)
mutual_exclusion_example = mutual_exclusion order (house false) order-Calm (house-Guarded false)

house-AllFree : AllFree (house false)
house-AllFree i = ground arith

no_deadlock_example : Ready (run order (house false))
unfolding run turn
no_deadlock_example =
    no_deadlock order (house false) order-Calm (house-Guarded false) house-AllFree 1 sem_lock
      (access ∷ sem_free ∷ []) refl

-- The daemon is in its section when a sensor's report starts the gateway.
abbrev updating : System
updating = record {
  sem = 0;
  process = λ i.
      if i == 0
      then record { program = access ∷ sem_free ∷ []; inside = true }
      else if i == 1
      then outside section
      else if i == 2
      then outside (gateway false)
      else outside [];
}

-- The gateway has ended with the lock held.
abbrev lost : System
lost = record {
  sem = 0;
  process = λ i.
      if i == 2
      then record { program = []; inside = true }
      else if i == 0
      then outside forced_update
      else if i == 1
      then outside section
      else outside [];
}

lost-Guarded : Guarded lost
lost-Guarded = record {
  owned = inr (record { taken = refl; holder = 2; holds = refl; only = λ i h. ground arith });
  programs = λ i. ground arith;
}

-- Where the gateway's turns lead when `time` fails.
lost_reached : (run (2 ∷ 2 ∷ 2 ∷ 2 ∷ 2 ∷ 2 ∷ []) (house true)).sem ≡ 0
unfolding run turn
lost_reached = refl

lost-Calm : CalmRun (0 ∷ 1 ∷ 0 ∷ []) lost
unfolding turn
lost-Calm = (λ h. cc, (λ h. cc, (λ h. cc, tt)))

lock_lost_example : inside (run (0 ∷ 1 ∷ 0 ∷ []) lost) 1 ≡ (1 == 2)
lock_lost_example = lock_lost (0 ∷ 1 ∷ 0 ∷ []) lost 2 lost-Calm lost-Guarded refl refl 1

ipc_size-Pages_example : Pages 4096 70000 (ipc_size 4096 70000)
ipc_size-Pages_example = ipc_size-Pages 4096 70000 (omega arith) (omega arith)

abbrev short_file : Disk
short_file = record { bytes = 7 ∷ 8 ∷ []; fds = 0 }

ipc_open_lem_example :
    ipc_open true 5 (trues (checks short_file 5) ++ []) short_file
    ≡ some (tt, [], ready short_file 5)
ipc_open_lem_example = ipc_open_lem 5 [] short_file

ipc_open_fails_example : ipc_open true 5 (trues 3 ++ false ∷ []) short_file ≡ none
ipc_open_fails_example = ipc_open_fails 5 3 [] short_file (omega arith)
