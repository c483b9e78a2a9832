-- ===== src/Ipc/Progress.antt =====
-- Whether the processes get on: the semaphore of BBB/lib-sources/ipc.c when each section is freed, and
-- when one is not.
use pcon_tng.Prelude.{
  ℕ, suc, ◌≡◌, inl, inr, refl, sym, ap, ◌∙◌, List, [], ◌∷◌, Option, none, some, Bool, true, false,
  ◌==◌, arith, Bool-cases,
}
use pcon_tng.Ipc.{
  Op, sem_init, sem_lock, sem_free, access, Process, System, semop, inside_after, moved, turn_of,
  turn, run,
}
use pcon_tng.Ipc.Sections.{in_sections, frees}
use pcon_tng.Ipc.Lock.{inside, Guarded, CalmRun, run-Guarded, mutual_exclusion}

-- A process that can go on.
pub record Ready (s : System) : Type 0 where
  pub process : ℕ
  pub op : Op
  pub rest : List Op
  pub sem : ℕ
  pub next : (s.process process).program ≡ op ∷ rest
  pub goes : semop op s.sem ≡ some sem

abbrev pub AllFree : System → Type 0
AllFree s = (i : ℕ) → frees (inside s i) (s.process i).program ≡ true

moved-AllFree :
    (s : System) (i : ℕ) (op : Op) (rest : List Op) (v : Option ℕ)
    → (s.process i).program ≡ op ∷ rest
    → AllFree s
    → AllFree (moved s i op rest v)
moved-AllFree s i op rest none e all = all
moved-AllFree s i op rest (some v) e all =
    λ j. ground (arith, all j, own op (inside s i) rest (ap (frees (inside s i)) (sym e) ∙ all i))
  where
    own :
        (op : Op) (b : Bool) (rest : List Op)
        → frees b (op ∷ rest) ≡ true
        → frees (inside_after op b) rest ≡ true
    own sem_init b rest h = h
    own sem_lock b rest h = h
    own sem_free b rest h = h
    own access b rest h = h

turn_of-AllFree :
    (s : System) (i : ℕ) (program : List Op)
    → (s.process i).program ≡ program
    → AllFree s
    → AllFree (turn_of s i program)
turn_of-AllFree s i [] e all = all
turn_of-AllFree s i (op ∷ rest) e all = moved-AllFree s i op rest (semop op s.sem) e all

run-AllFree : (order : List ℕ) (s : System) → AllFree s → AllFree (run order s)
unfolding run turn
run-AllFree [] s all = all
run-AllFree (i ∷ order) s all =
    run-AllFree order (turn i s) (turn_of-AllFree s i (s.process i).program refl all)

-- With the semaphore at 1, any process that has something left goes on.
free-Ready :
    (s : System) (i : ℕ) (op : Op) (rest : List Op)
    → (s.process i).program ≡ op ∷ rest
    → s.sem ≡ 1
    → Ready s
free-Ready s i op rest e one = record {
  process = i;
  op = op;
  rest = rest;
  sem = (goes op).0;
  next = e;
  goes = ap (semop op) one ∙ (goes op).1;
}
  where
    goes : (op : Op) → (v : ℕ) × (semop op 1 ≡ some v)
    goes sem_init = (1, refl)
    goes sem_lock = (0, refl)
    goes sem_free = (2, refl)
    goes access = (1, refl)

-- The process that is inside goes on: it has not ended, and locks nothing.
inside-Ready :
    (s : System) (k : ℕ) (program : List Op)
    → (s.process k).program ≡ program
    → in_sections true program ≡ true
    → frees true program ≡ true
    → Ready s
inside-Ready s k [] e sections ends = absurd (ground arith)
inside-Ready s k (sem_init ∷ rest) e sections ends = absurd (ground arith)
inside-Ready s k (sem_lock ∷ rest) e sections ends = absurd (ground arith)
inside-Ready s k (sem_free ∷ rest) e sections ends = record {
  process = k;
  op = sem_free;
  rest = rest;
  sem = suc s.sem;
  next = e;
  goes = refl;
}
inside-Ready s k (access ∷ rest) e sections ends = record {
  process = k;
  op = access;
  rest = rest;
  sem = s.sem;
  next = e;
  goes = refl;
}

Guarded-Ready :
    (s : System) (i : ℕ) (op : Op) (rest : List Op)
    → Guarded s
    → AllFree s
    → (s.process i).program ≡ op ∷ rest
    → Ready s
Guarded-Ready s i op rest g all e = elim g.owned [
  | inl (one, none_inside) ↦ free-Ready s i op rest e one
  | inr held ↦
      let k = held.holder in
      inside-Ready s k (s.process k).program refl
        (ap (λ b. in_sections b (s.process k).program) (sym held.holds) ∙ g.programs k)
        (ap (λ b. frees b (s.process k).program) (sym held.holds) ∙ all k)
]

-- Take programs that pair their locks with calls that free, with accesses to shared memory anywhere,
-- and a semaphore that is 1 with no process in its section, or 0 with one. When every program frees
-- what it locks, then after any turns in which no process starts while another is in its section,
-- some process can go on as long as one has something left to do.
pub no_deadlock :
    (order : List ℕ) (s : System)
    → CalmRun order s
    → Guarded s
    → AllFree s
    → (i : ℕ) (op : Op) (rest : List Op) → ((run order s).process i).program ≡ op ∷ rest
    → Ready (run order s)
no_deadlock order s calm g all i op rest e =
    Guarded-Ready (run order s) i op rest (run-Guarded order s calm g) (run-AllFree order s all) e

-- What has ended stays where it is.
ended_turn :
    (s : System) (i k : ℕ) (program : List Op)
    → (s.process i).program ≡ program
    → (s.process k).program ≡ []
    → (turn_of s i program).process k ≡ s.process k
ended_turn s i k [] e ended = refl
ended_turn s i k (op ∷ rest) e ended = ended_move (semop op s.sem)
  where
    other : (k == i) ≡ false
    other = elim (Bool-cases (k == i)) [
      | inl same ↦
          let e' : k ≡ i = ground arith in
          absurd (ground (arith, ap (λ (j : ℕ). (s.process j).program) e'))
      | inr ne ↦ ne
    ]

    ended_move : (v : Option ℕ) → (moved s i op rest v).process k ≡ s.process k
    ended_move none = refl
    ended_move (some v) = ground (arith, other)

ended_stays :
    (order : List ℕ) (s : System) (k : ℕ)
    → (s.process k).program ≡ []
    → (run order s).process k ≡ s.process k
unfolding run turn
ended_stays [] s k e = refl
ended_stays (i ∷ order) s k e =
    let here = ended_turn s i k (s.process i).program refl e in
    ended_stays order (turn i s) k (ap (λ (p : Process). p.program) here ∙ e) ∙ here

-- Take programs that pair their locks with calls that free, with accesses to shared memory anywhere,
-- and a semaphore that is 1 with no process in its section, or 0 with one. When a process has ended
-- inside its section, as the gateway does when `time` fails, then after any turns in which no process
-- starts while another is in its section, it is inside and no other is.
pub lock_lost :
    (order : List ℕ) (s : System) (k : ℕ)
    → CalmRun order s
    → Guarded s
    → (s.process k).program ≡ []
    → inside s k ≡ true
    → (i : ℕ) → inside (run order s) i ≡ (i == k)
lock_lost order s k calm g ended in_k i = elim (Bool-cases (i == k)) [
  | inl same ↦ let here : i ≡ k = ground arith in ap (inside (run order s)) here ∙ stays ∙ sym same
  | inr other ↦ elim (Bool-cases (inside (run order s) i)) [
    | inl in_i ↦
        let here = (mutual_exclusion order s calm g).0 i k in_i stays in
        absurd (ground (arith, here, other))
    | inr out ↦ out ∙ sym other
  ]
]
  where
    stays : inside (run order s) k ≡ true
    stays = ap (λ (p : Process). p.inside) (ended_stays order s k ended) ∙ in_k
