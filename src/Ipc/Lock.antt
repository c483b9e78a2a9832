-- ===== src/Ipc/Lock.antt =====
-- The semaphore of BBB/lib-sources/ipc.c keeps the processes apart, unless one of them starts while
-- another is in its section.
use pcon_tng.Prelude.{
  ℕ, zero, suc, ◌≡◌, ◌≢◌, ◌⊎◌, inl, inr, refl, sym, ap, ◌∙◌, List, [], ◌∷◌, Option, none, some,
  Bool, true, false, subst, ◌==◌, Bool-cases, if-true, if-false, arith,
}
use pcon_tng.Prelude.Below.{and_left, and_right}
use pcon_tng.Ipc.{
  Op, sem_init, sem_lock, sem_free, access, Process, System, semop, inside_after, moved, turn_of,
  turn, run,
}
use pcon_tng.Ipc.Sections.{in_sections, locks_accesses}

abbrev pub inside : System → ℕ → Bool
inside s i = (s.process i).inside

-- The semaphore is 1 and no process is inside, or it is 0 and one is.
abbrev pub Free : System → Type 0
Free s = (s.sem ≡ 1) × ((i : ℕ) → inside s i ≡ false)

pub record Held (s : System) : Type 0 where
  pub taken : s.sem ≡ 0
  pub holder : ℕ
  pub holds : inside s holder ≡ true
  pub only : (i : ℕ) → inside s i ≡ true → i ≡ holder

pub record Guarded (s : System) : Type 0 where
  pub owned : Free s ⊎ Held s
  pub programs : (i : ℕ) → in_sections (inside s i) (s.process i).program ≡ true

-- The process whose turn it is does not start while another is in its section.
abbrev pub starts : List Op → Bool
starts [] = false
starts (sem_init ∷ rest) = true
starts (op ∷ rest) = false

abbrev pub Calm : System → ℕ → Type 0
Calm s i = starts (s.process i).program ≡ true → (j : ℕ) → inside s j ≡ false

abbrev pub CalmRun : List ℕ → System → Type 0
CalmRun [] s = Unit
CalmRun (i ∷ order) s = Calm s i × CalmRun order (turn i s)

module _ (s : System) (i : ℕ) (g : Guarded s) where
  -- What process `i` runs next, and what of its program is left.
  module _ (op : Op) (rest : List Op) (program : (s.process i).program ≡ op ∷ rest) where
    next_in_sections : in_sections (inside s i) (op ∷ rest) ≡ true
    next_in_sections = ap (in_sections (inside s i)) (sym program) ∙ g.programs i

    moved-programs :
        (v j : ℕ)
        → in_sections (inside_after op (inside s i)) rest ≡ true
        → in_sections
            (inside (moved s i op rest (some v)) j)
            ((moved s i op rest (some v)).process j).program
          ≡ true
    moved-programs v j ok = ground (arith, g.programs j)

  init-Guarded :
      (rest : List Op)
      → (s.process i).program ≡ sem_init ∷ rest
      → ((j : ℕ) → inside s j ≡ false)
      → Guarded (moved s i sem_init rest (some 1))
  init-Guarded rest program none_inside = record {
    owned = inl (refl, λ j. ground (arith, none_inside j, none_inside i));
    programs = λ j.
        moved-programs sem_init rest program 1 j
          (ground (arith, next_in_sections sem_init rest program));
  }

  lock-Guarded :
      (rest : List Op) (sem : ℕ)
      → s.sem ≡ sem
      → (s.process i).program ≡ sem_lock ∷ rest
      → Guarded (moved s i sem_lock rest (semop sem_lock sem))
  lock-Guarded rest zero e program = g
  lock-Guarded rest (suc v) e program = elim g.owned [
    | inl (one, none_inside) ↦ record {
      owned = inr (record {
        taken = omega (arith, one, e);
        holder = i;
        holds = ground arith;
        only = λ j h. ground (arith, none_inside j);
      });
      programs = λ j.
          moved-programs sem_lock rest program v j
            (ground (arith, next_in_sections sem_lock rest program));
    }
    | inr held ↦ absurd (omega (arith, held.taken, e))
  ]

  free-Guarded :
      (rest : List Op)
      → (s.process i).program ≡ sem_free ∷ rest
      → Guarded (moved s i sem_free rest (some (suc s.sem)))
  free-Guarded rest program =
      let own : inside s i ≡ true = ground (arith, next_in_sections sem_free rest program) in
      elim g.owned [
        | inl (one, none_inside) ↦ absurd (ground (arith, none_inside i))
        | inr held ↦ record {
          owned = inl (ap suc held.taken, λ j. ground (arith, held.only j, held.only i own));
          programs = λ j.
              moved-programs sem_free rest program (suc s.sem) j
                (ground (arith, next_in_sections sem_free rest program));
        }
      ]

  access-Guarded :
      (rest : List Op)
      → (s.process i).program ≡ access ∷ rest
      → Guarded (moved s i access rest (some s.sem))
  access-Guarded rest program = record {
    owned = elim g.owned [
      | inl (one, none_inside) ↦ inl (one, λ j. ground (arith, none_inside j, none_inside i))
      | inr held ↦ inr (record {
        taken = held.taken;
        holder = held.holder;
        holds = ground (arith, held.holds);
        only = λ j h. ground (arith, held.only j, held.only i);
      })
    ];
    programs = λ j.
        moved-programs access rest program s.sem j
          (ground (arith, next_in_sections access rest program));
  }

  turn_of-Guarded :
      (program : List Op)
      → (s.process i).program ≡ program
      → Calm s i
      → Guarded (turn_of s i program)
  turn_of-Guarded [] e calm = g
  turn_of-Guarded (sem_init ∷ rest) e calm = init-Guarded rest e (calm (ap starts e))
  turn_of-Guarded (sem_lock ∷ rest) e calm = lock-Guarded rest s.sem refl e
  turn_of-Guarded (sem_free ∷ rest) e calm = free-Guarded rest e
  turn_of-Guarded (access ∷ rest) e calm = access-Guarded rest e

pub run-Guarded :
    (order : List ℕ) (s : System) → CalmRun order s → Guarded s → Guarded (run order s)
unfolding run turn
run-Guarded [] s calm g = g
run-Guarded (i ∷ order) s (here, later) g =
    run-Guarded order (turn i s) later (turn_of-Guarded s i g (s.process i).program refl here)

-- A program whose accesses stand in sections stays one.
abbrev LocksAccesses : System → ℕ → Type 0
LocksAccesses s k = locks_accesses (inside s k) (s.process k).program ≡ true

locks_accesses-next :
    (op : Op) (b : Bool) (rest : List Op)
    → locks_accesses b (op ∷ rest) ≡ true
    → locks_accesses (inside_after op b) rest ≡ true
locks_accesses-next sem_init b rest h = h
locks_accesses-next sem_lock b rest h = h
locks_accesses-next sem_free b rest h = h
locks_accesses-next access b rest h = and_right b (locks_accesses b rest) h

moved-LocksAccesses :
    (s : System) (i k : ℕ) (op : Op) (rest : List Op) (v : Option ℕ)
    → (s.process i).program ≡ op ∷ rest
    → LocksAccesses s k
    → LocksAccesses (moved s i op rest v) k
moved-LocksAccesses s i k op rest none e h = h
moved-LocksAccesses s i k op rest (some v) e h = elim (Bool-cases (k == i)) [
  | inl same ↦
      let here : k ≡ i = ground arith in
      let own : locks_accesses (inside s i) (op ∷ rest) ≡ true =
        ap (locks_accesses (inside s i)) (sym e) ∙ subst (LocksAccesses s) here h in
      ap (λ (p : Process). locks_accesses p.inside p.program) (if-true (k == i) _ _ same)
      ∙ locks_accesses-next op (inside s i) rest own
  | inr other ↦
      ap (λ (p : Process). locks_accesses p.inside p.program) (if-false (k == i) _ _ other) ∙ h
]

turn_of-LocksAccesses :
    (s : System) (i k : ℕ) (program : List Op)
    → (s.process i).program ≡ program
    → LocksAccesses s k
    → LocksAccesses (turn_of s i program) k
turn_of-LocksAccesses s i k [] e h = h
turn_of-LocksAccesses s i k (op ∷ rest) e h = moved-LocksAccesses s i k op rest (semop op s.sem) e h

run-LocksAccesses :
    (order : List ℕ) (s : System) (k : ℕ) → LocksAccesses s k → LocksAccesses (run order s) k
unfolding run turn
run-LocksAccesses [] s k h = h
run-LocksAccesses (i ∷ order) s k h =
    run-LocksAccesses order (turn i s) k (turn_of-LocksAccesses s i k (s.process i).program refl h)

-- Take programs that pair their locks with calls that free (no start and no lock inside a section,
-- no call that frees outside one, with accesses to shared memory anywhere), and a semaphore that
-- is 1 with no process in its section, or 0 with one. Then, whatever the order in which the
-- processes take turns, as long as none starts while another is in its section, two processes are
-- never in their sections at once; and a process each of whose accesses stands in a section of its
-- program is in its section when it is about to make one.
pub mutual_exclusion :
    (order : List ℕ) (s : System)
    → CalmRun order s
    → Guarded s
    → ((i j : ℕ) → inside (run order s) i ≡ true → inside (run order s) j ≡ true → i ≡ j)
      × ((i : ℕ) (rest : List Op)
          → locks_accesses (inside s i) (s.process i).program ≡ true
          → ((run order s).process i).program ≡ access ∷ rest
          → inside (run order s) i ≡ true)
mutual_exclusion order s calm g =
    let g' = run-Guarded order s calm g in
    (
      λ i j in_i in_j. elim g'.owned [
        | inl (one, none_inside) ↦ absurd (ground (arith, none_inside i))
        | inr held ↦ held.only i in_i ∙ sym (held.only j in_j)
      ],
      λ i rest locks e.
          and_left (inside (run order s) i) (locks_accesses (inside (run order s) i) rest) (
            ap (locks_accesses (inside (run order s) i)) (sym e)
            ∙ run-LocksAccesses order s i locks),
    )

-- A process that starts while another is in its section sets the semaphore to 1 and gets in too.
pub restart_enters :
    (s : System) (i j : ℕ) (rest : List Op)
    → i ≢ j
    → inside s i ≡ true
    → (s.process j).program ≡ sem_init ∷ sem_lock ∷ rest
    → (inside (run (j ∷ j ∷ []) s) i ≡ true) × (inside (run (j ∷ j ∷ []) s) j ≡ true)
unfolding run turn
restart_enters s i j rest ne in_i e = rw e (ground arith)
