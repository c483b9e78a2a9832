-- ===== src/Ipc/Sections.antt =====
-- What the programs of the processes are: how they pair locks with the calls that free, and whether
-- their accesses to shared memory stand in between.
use pcon_tng.Prelude.{List, [], ◌∷◌, Bool, true, false, ◌&&◌, not}
use pcon_tng.Ipc.{Op, sem_init, sem_lock, sem_free, access}

-- From inside or outside a section: no start and no lock inside one, no call that frees outside;
-- accesses anywhere.
abbrev pub in_sections : Bool → List Op → Bool
in_sections b [] = true
in_sections b (sem_init ∷ rest) = not b && in_sections b rest
in_sections b (sem_lock ∷ rest) = not b && in_sections true rest
in_sections b (sem_free ∷ rest) = b && in_sections false rest
in_sections b (access ∷ rest) = in_sections b rest

-- Each access stands in a section.
abbrev pub locks_accesses : Bool → List Op → Bool
locks_accesses b [] = true
locks_accesses b (sem_init ∷ rest) = locks_accesses b rest
locks_accesses b (sem_lock ∷ rest) = locks_accesses true rest
locks_accesses b (sem_free ∷ rest) = locks_accesses false rest
locks_accesses b (access ∷ rest) = b && locks_accesses b rest

-- The same, and the program ends outside.
abbrev pub frees : Bool → List Op → Bool
frees b [] = not b
frees b (sem_init ∷ rest) = frees b rest
frees b (sem_lock ∷ rest) = frees true rest
frees b (sem_free ∷ rest) = frees false rest
frees b (access ∷ rest) = frees b rest
