-- ===== src/Sch/Del.antt =====
-- `del_tmpl_rec` takes a record out, and undoes `add_tmpl_rec`.
use pcon_tng.Prelude.{
  ℕ, zero, suc, ◌+◌, ◌-◌, ◌≤◌, ◌<◌, ◌≡◌, ◌≢◌, refl, ◌∙◌, ◌⊎◌, inl, inr, Option, none, some, List,
  [], ◌∷◌, arith, ltb, ◌==◌, if◌then◌else◌, slots, slots-cong, slots-shift, Bool-cases, ℤ, ◌&&◌,
}
use pcon_tng.Float.{CFloat}
use pcon_tng.Sch.{
  SRec, TmplDat, max_schedule_recs, key_of, match_from, shift_down, add_tmpl_rec, del_tmpl_rec,
}
use pcon_tng.Prelude.Search.{Found, split}
use pcon_tng.Sch.Live.{live, IsValid, find_rec, put_rec, drop_rec, match_from-Found, shift_down_lem}
use pcon_tng.Sch.Places.{find_rec-none, find_rec-some}
use pcon_tng.Sch.Add.{new_rec, add_tmpl_rec-put_rec}

module _ {F : Type 0} where
  -- The array with index `p` taken out.
  abbrev removed : (ℕ → SRec F) → ℕ → ℕ → SRec F
  removed rec p j = if ltb j p then rec j else rec (suc j)

  slots-removed :
      (rec : ℕ → SRec F) (key p i n : ℕ)
      → i ≤ p
      → p < i + suc n
      → (rec p).key ≡ key
      → ((k : ℕ) → i ≤ k → k < p → (rec k).key ≢ key)
      → slots (removed rec p) i n ≡ drop_rec key (slots rec i (suc n))
  unfolding slots drop_rec
  slots-removed rec key p i zero h l e miss = ground (arith, split p i h)
  slots-removed rec key p i (suc n) h l e miss = elim (split p i h) [
    | inl q ↦ ground (
      arith,
      slots-cong (λ k. rec (suc k)) (removed rec p) i (suc n) (λ k a b. ground arith),
      slots-shift (λ k. rec (suc k)) rec i (suc n) (λ k a b. refl),
    )
    | inr g ↦ ground (
      arith,
      miss i (omega arith) g,
      slots-removed rec key p (suc i) n g (omega arith) e (λ k a b. miss k (omega arith) b),
    )
  ]

  drop_rec-none : (key : ℕ) (xs : List (SRec F)) → find_rec key xs ≡ none → drop_rec key xs ≡ xs
  unfolding drop_rec find_rec
  drop_rec-none key [] e = refl
  drop_rec-none key (x ∷ xs) e = ground (arith, drop_rec-none key xs)

-- What a deletion can do.
data Outcome {F : Type 0} (t : TmplDat F) (key : ℕ) : ℕ × TmplDat F → Type 0 where
  taken :
      {t' : TmplDat F} (p n : ℕ)
      → t.rcnt ≡ suc n
      → p ≤ n
      → (t.rec p).key ≡ key
      → ((k : ℕ) → k < p → (t.rec k).key ≢ key)
      → t'.rcnt ≡ n
      → ((j : ℕ) → j < n → t'.rec j ≡ removed t.rec p j)
      → Outcome t key (0, t')
  absent : ((k : ℕ) → 0 ≤ k → k < 0 + t.rcnt → (t.rec k).key ≢ key) → Outcome t key (1, t)

module _ {F : Type 0} (t : TmplDat F) (hour minute : ℕ) where
  del-Outcome : Outcome t (key_of hour minute) (del_tmpl_rec t hour minute)
  unfolding del_tmpl_rec
  del-Outcome = elim (Bool-cases (t.rcnt == 1 && (t.rec 0).key == key_of hour minute)) [
    | inl e ↦ rw e (
        taken 0 0 (ground arith) (omega arith) (ground arith) (λ k h. absurd (omega arith)) refl
          (λ j h. absurd (omega arith)))
    | inr e ↦ rw e (
        go (match_from t.rec (key_of hour minute) 0 t.rcnt) refl
          (match_from-Found t.rec (key_of hour minute) 0 t.rcnt))
  ]
    where
      go :
          (o : Option ℕ)
          → match_from t.rec (key_of hour minute) 0 t.rcnt ≡ o
          → Found (λ j. (t.rec j).key ≡ key_of hour minute) 0 t.rcnt o
          → Outcome t (key_of hour minute) (elim o [
            | some i ↦
                (0, record t { rec = shift_down t.rec i (t.rcnt - 1 - i); rcnt = t.rcnt - 1 })
            | none ↦ (1, t)
          ])
      go none e miss = absent miss
      go (some p) e (a, b, c, d) =
          taken p (t.rcnt - 1) (omega arith) (omega arith) c (λ k h. d k (omega arith) h) refl
            (λ j h. ground (arith, shift_down_lem t.rec p (t.rcnt - 1 - p) j))

  -- The call succeeds exactly when there is a record for the time, and the live records become those
  -- without it.
  pub del_tmpl_rec-drop_rec :
      ((del_tmpl_rec t hour minute).0
        ≡ (elim (find_rec (key_of hour minute) (live t)) [ some _ ↦ 0 | none ↦ 1 ]))
      × (live (del_tmpl_rec t hour minute).1 ≡ drop_rec (key_of hour minute) (live t))
  del_tmpl_rec-drop_rec = go del-Outcome
    where
      key : ℕ
      key = key_of hour minute

      go :
          {o : ℕ × TmplDat F}
          → Outcome t key o
          → (o.0 ≡ (elim (find_rec key (live t)) [ some _ ↦ 0 | none ↦ 1 ]))
            × (live o.1 ≡ drop_rec key (live t))
      go (absent miss) =
          ground (arith, find_rec-none t.rec key 0 t.rcnt miss, drop_rec-none key (live t))
      go (taken {t'} p n c l e miss c' cells) = (
        rw (find_rec-some t.rec key 0 t.rcnt p (omega arith) (omega arith) e (λ k h m. miss k m)),
        rw (c', c)
            (slots-cong (removed t.rec p) t'.rec 0 n (λ k h m. cells k (omega arith))
              ∙ slots-removed t.rec key p 0 n (omega arith) (omega arith) e (λ k h m. miss k m)),
      )

  -- Deleting a record of a template that is sorted by key and within its array keeps it so.
  pub del_tmpl_rec-IsValid : IsValid t → IsValid (del_tmpl_rec t hour minute).1
  del_tmpl_rec-IsValid v = go del-Outcome
    where
      go : {o : ℕ × TmplDat F} → Outcome t (key_of hour minute) o → IsValid o.1
      go (absent _) = v
      go (taken {t'} p n c l e miss c' cells) = record {
        fits = omega (arith, v.fits);
        sorted = λ i j h m.
            ground (
              arith,
              cells i,
              cells j,
              v.sorted i j h,
              v.sorted (suc i) (suc j),
              v.sorted i (suc j),
            );
      }

module _ {F : Type 0} (r : SRec F) where
  find_rec-put_rec :
      (k : ℕ) (xs : List (SRec F))
      → find_rec k (put_rec r xs) ≡ (if k == r.key then some r else find_rec k xs)
  unfolding find_rec put_rec
  find_rec-put_rec k [] = ground arith
  find_rec-put_rec k (x ∷ xs) = ground (arith, find_rec-put_rec k xs)

  drop_rec-put_rec :
      (xs : List (SRec F)) → find_rec r.key xs ≡ none → drop_rec r.key (put_rec r xs) ≡ xs
  unfolding find_rec put_rec drop_rec
  drop_rec-put_rec [] e = ground arith
  drop_rec-put_rec (x ∷ xs) e = ground (arith, drop_rec-put_rec xs)

module _ {F : Type 0} ⦃fl : CFloat F⦄ (below : SRec F) (t : TmplDat F) (v : IsValid t)
    (hour minute state : ℕ) (temp humid : ℤ) where
  -- After an add to a template in order, with room or with a record for the time, the record for
  -- the time is the new one, and every other time has the record that it had.
  pub find_rec-add_tmpl_rec :
      (k : ℕ)
      → ((t.rcnt < max_schedule_recs) ⊎ (find_rec (key_of hour minute) (live t) ≢ none))
      → find_rec k (live (add_tmpl_rec below t hour minute state temp humid).1) ≡ (
          if k == key_of hour minute
          then some (new_rec hour minute state temp humid)
          else find_rec k (live t))
  find_rec-add_tmpl_rec k room =
      rw ((add_tmpl_rec-put_rec below t v hour minute state temp humid room).1)
        (find_rec-put_rec (new_rec hour minute state temp humid) k (live t))

  -- Deleting a record that was just added for a new time to a template in order that is not full
  -- gives back the live records.
  pub del_tmpl_rec-add_tmpl_rec :
      t.rcnt < max_schedule_recs
      → find_rec (key_of hour minute) (live t) ≡ none
      → live (del_tmpl_rec (add_tmpl_rec below t hour minute state temp humid).1 hour minute).1
        ≡ live t
  del_tmpl_rec-add_tmpl_rec room new =
      rw
        (
          (del_tmpl_rec-drop_rec (add_tmpl_rec below t hour minute state temp humid).1 hour
              minute).1,
          (add_tmpl_rec-put_rec below t v hour minute state temp humid (inl room)).1,
        )
        (drop_rec-put_rec (new_rec hour minute state temp humid) (live t) new)
