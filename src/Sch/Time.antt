-- ===== src/Sch/Time.antt =====
-- `test_sch_time` gives the state of the record in force.
use pcon_tng.Prelude.{
  ℕ, zero, suc, ◌+◌, ◌-◌, ◌≤◌, ◌<◌, ◌≡◌, ◌≢◌, refl, inl, inr, Option, none, some, arith, ltb, leb,
  ◌==◌, if◌then◌else◌, Bool-cases,
}
use pcon_tng.Sch.{
  SRec, TmplDat, match_from, between_from, sch_time_many, sch_time_two, test_sch_time,
}
use pcon_tng.Prelude.Search.{Found, split}
use pcon_tng.Sch.Live.{IsValid, match_from-Found}

module _ {F : Type 0} where
  -- The index of the last of `n` records whose time has come at `key`.
  unfoldable pub last_due : (ℕ → SRec F) → ℕ → ℕ → Option ℕ
  last_due rec key zero = none
  last_due rec key (suc n) = if leb (rec n).key key then some n else last_due rec key n

  -- The index of the record in force: the last that is due, or, before the first of the day, the
  -- last of all, whose state has been in force since the day before.
  unfoldable pub in_force : TmplDat F → ℕ → ℕ
  unfolding last_due
  in_force t key = elim (last_due t.rec key t.rcnt) [ some i ↦ i | none ↦ t.rcnt - 1 ]

  last_due-some :
      (rec : ℕ → SRec F) (key n i : ℕ)
      → i < n
      → (rec i).key ≤ key
      → ((k : ℕ) → i < k → k < n → key < (rec k).key)
      → last_due rec key n ≡ some i
  unfolding last_due
  last_due-some rec key zero i h l later = absurd (omega arith)
  last_due-some rec key (suc n) i h l later = ground (arith, later n, last_due-some rec key n i)

  last_due-none :
      (rec : ℕ → SRec F) (key n : ℕ)
      → ((k : ℕ) → k < n → key < (rec k).key)
      → last_due rec key n ≡ none
  unfolding last_due
  last_due-none rec key zero later = refl
  last_due-none rec key (suc n) later =
      ground (arith, later n (omega arith), last_due-none rec key n (λ k h. later k (omega arith)))

module _ {F : Type 0} (t : TmplDat F) (v : IsValid t) (key : ℕ) where
  in_force-due :
      (i : ℕ)
      → i < t.rcnt
      → (t.rec i).key ≤ key
      → (suc i < t.rcnt → key < (t.rec (suc i)).key)
      → in_force t key ≡ i
  unfolding in_force
  in_force-due i h l next = rw (
    in_force,
    last_due-some t.rec key t.rcnt i h l (λ k a b. elim (split (k) (suc i) a) [
      | inl e ↦ ground (arith, next)
      | inr g ↦ ground (arith, next, v.sorted (suc i) k g b)
    ]),
  )

  in_force-before : 0 < t.rcnt → key < (t.rec 0).key → in_force t key ≡ t.rcnt - 1
  unfolding in_force
  in_force-before h l = rw (
    in_force,
    last_due-none t.rec key t.rcnt (λ k a. elim (split k 0 (omega arith)) [
      | inl e ↦ rw (← e) l
      | inr g ↦ omega (arith, v.sorted 0 k g a)
    ]),
  )

  between_from-lem :
      (i n : ℕ)
      → i + n ≡ t.rcnt - 1
      → (t.rec i).key < key
      → key < (t.rec (t.rcnt - 1)).key
      → ((k : ℕ) → 0 ≤ k → k < 0 + t.rcnt → (t.rec k).key ≢ key)
      → between_from t.rec t.rcnt key i n ≡ (t.rec (in_force t key)).state
  unfolding between_from
  between_from-lem i zero e lo hi miss =
      let e' : i ≡ t.rcnt - 1 = omega arith in let lo' = rw e' at lo in absurd (omega arith)
  between_from-lem i (suc n) e lo hi miss = elim (Bool-cases (ltb key (t.rec (suc i)).key)) [
    | inl now ↦ ground (arith, in_force-due i (omega arith) (omega arith) (λ _. ground arith))
    | inr on ↦
        ground (
          arith,
          miss (suc i) (omega arith) (omega arith),
          between_from-lem (suc i) n (omega arith),
        )
  ]

  many-lem : 1 < t.rcnt → sch_time_many key t ≡ (t.rec (in_force t key)).state
  unfolding sch_time_many
  many-lem h = go (match_from t.rec key 0 t.rcnt) refl (match_from-Found t.rec key 0 t.rcnt)
    where
      go :
          (o : Option ℕ)
          → match_from t.rec key 0 t.rcnt ≡ o
          → Found (λ j. (t.rec j).key ≡ key) 0 t.rcnt o
          → sch_time_many key t ≡ (t.rec (in_force t key)).state
      go (some p) e (a, b, c, d) =
          rw (e, sch_time_many)
            (rw (
              in_force-due p (omega arith) (omega arith)
                (λ l. omega (arith, v.sorted p (suc p) (omega arith) l))))
      go none e miss =
          rw (e, sch_time_many)
            (elim (Bool-cases (ltb key (t.rec 0).key)) [
              | inl early ↦ rw (early, in_force-before (omega arith) (ground arith))
              | inr started ↦ elim (Bool-cases (ltb (t.rec (t.rcnt - 1)).key key)) [
                | inl late ↦ rw (
                  started,
                  late,
                  in_force-due (t.rcnt - 1) (omega arith) (ground arith)
                      (λ l. absurd (omega arith)),
                )
                | inr amid ↦
                    rw (started, amid)
                      (between_from-lem 0 (t.rcnt - 1) (omega arith)
                        (ground (arith, miss 0 (omega arith) (omega arith)))
                        (ground (arith, miss (t.rcnt - 1) (omega arith) (omega arith))) miss)
              ]
            ])

  one-lem : t.rcnt ≡ 1 → in_force t key ≡ 0
  one-lem e = elim (Bool-cases (ltb key (t.rec 0).key)) [
    | inl early ↦ omega (arith, in_force-before (omega arith) (ground arith))
    | inr due ↦ in_force-due 0 (omega arith) (ground arith) (λ l. absurd (omega arith))
  ]

  two-lem : t.rcnt ≡ 2 → sch_time_two key t ≡ (t.rec (in_force t key)).state
  unfolding sch_time_two
  two-lem e = elim (Bool-cases (ltb key (t.rec 0).key)) [
    | inl early ↦
        rw (in_force-before (omega arith) (ground arith), e) (ground (arith, v.sorted 0 1))
    | inr started ↦ elim (Bool-cases (ltb key (t.rec 1).key)) [
      | inl between ↦
          rw (in_force-due 0 (omega arith) (ground arith) (λ l. ground arith))
            (ground (arith, v.sorted 0 1))
      | inr late ↦
          rw (in_force-due 1 (omega arith) (ground arith) (λ l. absurd (omega arith)))
            (ground (arith, v.sorted 0 1))
    ]
  ]

  -- In a template that is in order, the state for a time of day is that of the record in force:
  -- the last record whose time has come, or, before the first, the last record of the day. Without
  -- records it is off.
  pub test_sch_time-in_force :
      test_sch_time key t ≡ (if t.rcnt == 0 then 0 else (t.rec (in_force t key)).state)
  unfolding test_sch_time
  test_sch_time-in_force = ground (arith, one-lem, two-lem, many-lem)
