-- ===== src/Ipc/Mapped.antt =====
-- The size of shared memory and the file behind it: `ipc_size` and `ipc_open` of
-- BBB/lib-sources/ipc.c.
use pcon_tng.Prelude.{
  ℕ, zero, suc, ◌+◌, ◌-◌, ◌*◌, ◌/◌, ◌%◌, ◌<◌, ◌≤◌, ◌≡◌, refl, ap, sym, ◌∙◌, List, [], ◌∷◌, ◌++◌,
  none, some, Bool, true, false, ltb, ◌==◌, if◌then◌else◌, if-true, if-false, length, arith,
  Bool-cases, inl, inr,
}
use native.Mathlib.Nat.{mul_comm, div-add-mod, mod-lt}
use pcon_tng.Ipc.{Disk, ipc_size, ipc_open, stretch, replicate, stretched, opened}

-- A whole number of pages, enough for the data, with less than a page to spare.
pub record Pages (page_size size total : ℕ) : Type 0 where
  pub pages : ℕ
  pub whole : total ≡ pages * page_size
  pub holds : size ≤ total
  pub spare : total < size + page_size

-- Rounded up to whole pages by the quotient and the remainder.
rounded-Pages :
    (page_size size q r total : ℕ)
    → q * page_size + r ≡ size
    → r < page_size
    → 0 < size
    → total ≡ (if ltb q 1 then page_size else if r == 0 then q * page_size else (q + 1) * page_size)
    → Pages page_size size total
rounded-Pages page_size size zero r total e h some_data f = record {
  pages = 1;
  whole = ground arith;
  holds = omega (arith, f, e);
  spare = omega (arith, f, e);
}
rounded-Pages page_size size (suc q) zero total e h some_data f = record {
  pages = suc q;
  whole = ground arith;
  holds = ground arith;
  spare = ground arith;
}
rounded-Pages page_size size (suc q) (suc r) total e h some_data f = record {
  pages = suc q + 1;
  whole = ground arith;
  holds = grind arith;
  spare = grind arith;
}

-- For data of at least one byte, `ipc_size` is the fewest whole pages that hold it.
pub ipc_size-Pages :
    (page_size size : ℕ) → 0 < page_size → 0 < size → Pages page_size size (ipc_size page_size size)
unfolding ipc_size
ipc_size-Pages page_size size h some_data =
    rounded-Pages page_size size (size / page_size) (size % page_size) (ipc_size page_size size)
      (omega (arith, div-add-mod size page_size, mul_comm page_size (size / page_size)))
      (mod-lt size h) some_data refl

abbrev pub trues : ℕ → List Bool
trues zero = []
trues (suc n) = true ∷ trues n

-- How many of its system calls `ipc_open` looks at.
abbrev pub checks : Disk → ℕ → ℕ
checks d size = if ltb (length d.bytes) size then 9 else 2

-- The file, filled with zeros to the size, and its descriptors.
abbrev pub ready : Disk → ℕ → Disk
ready d size =
    if ltb (length d.bytes) size
    then record { bytes = d.bytes ++ replicate (size - length d.bytes) 0; fds = suc (suc d.fds) }
    else record d { fds = suc d.fds }

replicate-snoc : (n x : ℕ) → replicate n x ++ x ∷ [] ≡ replicate (suc n) x
replicate-snoc zero x = refl
replicate-snoc (suc n) x = ap (λ xs. x ∷ xs) (replicate-snoc n x)

append_assoc : (xs ys zs : List ℕ) → (xs ++ ys) ++ zs ≡ xs ++ (ys ++ zs)
append_assoc [] ys zs = refl
append_assoc (x ∷ xs) ys zs = ap (λ l. x ∷ l) (append_assoc xs ys zs)

stretched_bytes :
    (d : Disk) (size : ℕ)
    → length d.bytes < size
    → (d.bytes ++ replicate (size - 1 - length d.bytes) 0) ++ 0 ∷ []
      ≡ d.bytes ++ replicate (size - length d.bytes) 0
stretched_bytes d size short =
    append_assoc d.bytes (replicate (size - 1 - length d.bytes) 0) (0 ∷ [])
    ∙ ap (λ xs. d.bytes ++ xs)
        (replicate-snoc (size - 1 - length d.bytes) 0
          ∙ ap (λ (n : ℕ). replicate n 0) {x = suc (size - 1 - length d.bytes)}
              (omega (arith, short)))

open_short :
    (size : ℕ) (answers : List Bool) (d : Disk)
    → ltb (length d.bytes) size ≡ true
    → ipc_open true size (true ∷ true ∷ answers) d ≡ stretch true size answers (opened d)
unfolding ipc_open
open_short size answers d short =
    if-true (ltb (length d.bytes) size) (stretch true size answers (opened d)) _ short

open_long :
    (size : ℕ) (answers : List Bool) (d : Disk)
    → ltb (length d.bytes) size ≡ false
    → ipc_open true size (true ∷ true ∷ answers) d ≡ some (tt, answers, opened d)
unfolding ipc_open
open_long size answers d long =
    if-false (ltb (length d.bytes) size) (stretch true size answers (opened d)) _ long

-- When each call that it looks at succeeds on a regular file, `ipc_open` leaves the file at least
-- as long as asked for, with its bytes as they were and zeros behind them.
pub ipc_open_lem :
    (size : ℕ) (answers : List Bool) (d : Disk)
    → ipc_open true size (trues (checks d size) ++ answers) d ≡ some (tt, answers, ready d size)
ipc_open_lem size answers d = elim (Bool-cases (ltb (length d.bytes) size)) [
  | inl short ↦
      ap (λ (n : ℕ). ipc_open true size (trues n ++ answers) d)
        (if-true (ltb (length d.bytes) size) 9 2 short)
      ∙ open_short size (trues 7 ++ answers) d short
      ∙ ap
          (λ (n : ℕ).
            some (tt, answers, record { bytes = (stretched size d).bytes; fds = suc (suc n) }))
          {x = suc d.fds - 1} {y = d.fds} (omega arith)
      ∙ ap (λ (b : List ℕ). some (tt, answers, record { bytes = b; fds = suc (suc d.fds) }))
          (stretched_bytes d size (ground arith))
      ∙ ap (λ (r : Disk). some (tt, answers, r))
          (sym (if-true (ltb (length d.bytes) size) _ (record d { fds = suc d.fds }) short))
  | inr long ↦
      ap (λ (n : ℕ). ipc_open true size (trues n ++ answers) d)
        (if-false (ltb (length d.bytes) size) 9 2 long)
      ∙ open_long size answers d long
      ∙ ap (λ (r : Disk). some (tt, answers, r))
          (sym (if-false (ltb (length d.bytes) size) _ (record d { fds = suc d.fds }) long))
]

stretch_fails :
    (size k : ℕ) (answers : List Bool) (d : Disk)
    → k < 7
    → stretch true size (trues k ++ false ∷ answers) d ≡ none
stretch_fails size zero answers d h = refl
stretch_fails size (suc zero) answers d h = refl
stretch_fails size (suc (suc zero)) answers d h = refl
stretch_fails size (suc (suc (suc zero))) answers d h = refl
stretch_fails size (suc (suc (suc (suc zero)))) answers d h = refl
stretch_fails size (suc (suc (suc (suc (suc zero))))) answers d h = refl
stretch_fails size (suc (suc (suc (suc (suc (suc zero)))))) answers d h = refl
stretch_fails size (suc (suc (suc (suc (suc (suc (suc k))))))) answers d h = absurd (omega arith)

-- When one of those calls fails, the process ends.
pub ipc_open_fails :
    (size k : ℕ) (answers : List Bool) (d : Disk)
    → k < checks d size
    → ipc_open true size (trues k ++ false ∷ answers) d ≡ none
unfolding ipc_open
ipc_open_fails size zero answers d below = refl
ipc_open_fails size (suc zero) answers d below = refl
ipc_open_fails size (suc (suc k)) answers d below = elim (Bool-cases (ltb (length d.bytes) size)) [
  | inl short ↦
      open_short size (trues k ++ false ∷ answers) d short
      ∙ stretch_fails size k answers (opened d) (ground arith)
  | inr long ↦ absurd (ground arith)
]
