-- ===== src/Sch/Add.antt =====
-- `add_tmpl_rec` puts a record in by key.
use pcon_tng.Prelude.{
  ℕ, zero, suc, ◌+◌, ◌-◌, ◌≤◌, ◌<◌, ◌≡◌, ◌≢◌, refl, sym, ◌∙◌, ◌⊎◌, inl, inr, Option, none, some,
  arith, ltb, ◌==◌, if◌then◌else◌, update, slots-cong, Bool-cases, ℤ, subst,
}
use pcon_tng.Float.{CFloat}
use pcon_tng.Sch.{
  SRec, TmplDat, max_schedule_recs, key_of, match_from, later_from, insert_new, add_tmpl_rec,
}
use pcon_tng.Prelude.Search.{Found, split}
use pcon_tng.Sch.Live.{
  live, IsValid, find_rec, put_rec, match_from-Found, later_from-Found, shift_up_lem,
}
use pcon_tng.Sch.Places.{inserted, slots-inserted, slots-replaced, find_rec-none, find_rec-some}

-- The record that a call of `add_tmpl_rec` describes.
abbrev pub new_rec : {F : Type 0} ⦃fl : CFloat F⦄ → ℕ → ℕ → ℕ → ℤ → ℤ → SRec F
new_rec ⦃fl⦄ hour minute state temp humid = record {
  key = key_of hour minute;
  state = state;
  temp = fl.of_int temp;
  humid = fl.of_int humid;
}

-- What adding `r` to `t` can do.
record Inserted {F : Type 0} (t t' : TmplDat F) (r : SRec F) : Type 0 where
  at : ℕ
  within : at ≤ t.rcnt
  lo : (k : ℕ) → k < at → (t.rec k).key < r.key
  hi : (k : ℕ) → at ≤ k → k < t.rcnt → r.key < (t.rec k).key
  count : t'.rcnt ≡ suc t.rcnt
  cells : (j : ℕ) → t'.rec j ≡ (if ltb t.rcnt j then t.rec j else inserted t.rec at r j)

data Outcome {F : Type 0} (t : TmplDat F) (r : SRec F) : ℕ × TmplDat F → Type 0 where
  put_in : {t' : TmplDat F} → t.rcnt < max_schedule_recs → Inserted t t' r → Outcome t r (0, t')
  replaced :
      (p : ℕ)
      → p < t.rcnt
      → (t.rec p).key ≡ r.key
      → Outcome t r (0, record t { rec = update t.rec p r })
  refused :
      max_schedule_recs ≤ t.rcnt
      → ((k : ℕ) → k < t.rcnt → (t.rec k).key ≢ r.key)
      → Outcome t r (1, t)

module _ {F : Type 0} ⦃fl : CFloat F⦄ (below : SRec F) (t : TmplDat F) (v : IsValid t) where
  insert_new-Outcome :
      (r : SRec F)
      → t.rcnt < max_schedule_recs
      → ((k : ℕ) → k < t.rcnt → (t.rec k).key ≢ r.key)
      → Outcome t r (insert_new below t r)
  unfolding insert_new
  insert_new-Outcome r room miss =
      go (later_from t.rec r.key 0 t.rcnt) refl (later_from-Found t.rec r.key 0 t.rcnt)
    where
      go :
          (o : Option ℕ)
          → later_from t.rec r.key 0 t.rcnt ≡ o
          → Found (λ j. r.key < (t.rec j).key) 0 t.rcnt o
          → Outcome t r (insert_new below t r)
      go none e f =
          rw (e, insert_new)
            (put_in room (record {
              at = t.rcnt;
              within = omega arith;
              lo = λ k h. ground (arith, miss k h, f k (omega arith) (omega arith));
              hi = λ k h l. absurd (omega arith);
              count = omega arith;
              cells = λ j. ground arith;
            }))
      go (some p) e (a, b, c, d) =
          rw (e, insert_new)
            (put_in room (record {
              at = p;
              within = omega arith;
              lo = λ k h. ground (arith, miss k (omega arith), d k (omega arith) h);
              hi = λ k h l. elim (split k p h) [
                | inl q ↦ rw (← q) c
                | inr g ↦ omega (arith, v.sorted p k g l)
              ];
              count = omega arith;
              cells = elim [
                | zero ↦ ground (arith, shift_up_lem below t.rec p (t.rcnt - p + 1) zero)
                | suc j ↦ ground (arith, shift_up_lem below t.rec p (t.rcnt - p + 1) (suc j))
              ];
            }))

  add-Outcome :
      (hour minute state : ℕ) (temp humid : ℤ)
      → Outcome t
          (new_rec hour minute state temp humid)
          (add_tmpl_rec below t hour minute state temp humid)
  unfolding add_tmpl_rec
  add-Outcome hour minute state temp humid =
      go (match_from t.rec (key_of hour minute) 0 t.rcnt) refl
        (match_from-Found t.rec (key_of hour minute) 0 t.rcnt)
    where
      r : SRec F
      r = new_rec hour minute state temp humid

      first : t.rcnt ≡ 0 → Inserted t (record t { rec = update t.rec 0 r; rcnt = t.rcnt + 1 }) r
      first e = record {
        at = 0;
        within = omega arith;
        lo = λ k h. absurd (omega arith);
        hi = λ k h l. absurd (omega arith);
        count = omega arith;
        cells = λ j. ground arith;
      }

      go :
          (o : Option ℕ)
          → match_from t.rec (key_of hour minute) 0 t.rcnt ≡ o
          → Found (λ j. (t.rec j).key ≡ key_of hour minute) 0 t.rcnt o
          → Outcome t r (add_tmpl_rec below t hour minute state temp humid)
      go (some p) e (a, b, c, d) =
          rw (e, add_tmpl_rec)
            (subst (λ k. Outcome t r (0, record t { rec = update t.rec p (record r { key = k }) }))
              (sym c) (replaced p (omega arith) c))
      go none e miss = elim (Bool-cases (ltb max_schedule_recs (t.rcnt + 1))) [
        | inl full ↦
            rw (e, add_tmpl_rec)
              (rw full (refused (ground arith) (λ k h. miss k (omega arith) (omega arith))))
        | inr room ↦ elim (Bool-cases (t.rcnt == 0)) [
          | inl empty ↦
              rw (e, add_tmpl_rec) (rw (room, empty) (put_in (ground arith) (first (ground arith))))
          | inr some_left ↦
              rw (e, add_tmpl_rec)
                (rw (room, some_left)
                  (insert_new-Outcome r (ground arith) (λ k h. miss k (omega arith) (omega arith))))
        ]
      ]

module _ {F : Type 0} {t t' : TmplDat F} {r : SRec F} (ins : Inserted t t' r) where
  live-Inserted : live t' ≡ put_rec r (live t)
  live-Inserted = rw ins.count (
      slots-cong (inserted t.rec ins.at r) t'.rec 0 (suc t.rcnt)
        (λ k h l. ground (arith, ins.cells k))
      ∙ slots-inserted t.rec r ins.at 0 t.rcnt (omega arith) (omega (arith, ins.within))
          (λ k h l. ins.lo k l) (λ k h l. ins.hi k h (omega arith)))

  IsValid-Inserted : t.rcnt < max_schedule_recs → IsValid t → IsValid t'
  IsValid-Inserted room v = record {
    fits = omega (arith, ins.count);
    sorted = λ i j h l. ground (
      arith,
      ins.count,
      ins.cells i,
      ins.cells j,
      ins.within,
      ins.lo i,
      ins.hi (j - 1),
      v.sorted i j h,
      v.sorted i (j - 1),
      v.sorted (i - 1) (j - 1),
    );
  }

module _ {F : Type 0} ⦃fl : CFloat F⦄ (below : SRec F) (t : TmplDat F) (v : IsValid t)
    (hour minute state : ℕ) (temp humid : ℤ) where
  -- Adding a record to a template that is sorted by key and within its array keeps it so.
  pub add_tmpl_rec-IsValid : IsValid (add_tmpl_rec below t hour minute state temp humid).1
  add_tmpl_rec-IsValid = go (add-Outcome below t v hour minute state temp humid)
    where
      go : {o : ℕ × TmplDat F} → Outcome t (new_rec hour minute state temp humid) o → IsValid o.1
      go (put_in room ins) = IsValid-Inserted ins room v
      go (replaced p l e) = record {
        fits = v.fits;
        sorted = λ i j h m. ground (arith, v.sorted i j h m);
      }
      go (refused full miss) = v

  -- Adding to a template that is in order, where there is room or the time already has a record,
  -- succeeds, and the live records become those with the new record in its place by key, whatever
  -- the memory in front of the array reads as.
  pub add_tmpl_rec-put_rec :
      ((t.rcnt < max_schedule_recs) ⊎ (find_rec (key_of hour minute) (live t) ≢ none))
      → ((add_tmpl_rec below t hour minute state temp humid).0 ≡ 0)
        × (live (add_tmpl_rec below t hour minute state temp humid).1
            ≡ put_rec (new_rec hour minute state temp humid) (live t))
  add_tmpl_rec-put_rec room = go (add-Outcome below t v hour minute state temp humid)
    where
      r : SRec F
      r = new_rec hour minute state temp humid

      go : {o : ℕ × TmplDat F} → Outcome t r o → (o.0 ≡ 0) × (live o.1 ≡ put_rec r (live t))
      go (put_in _ ins) = (refl, live-Inserted ins)
      go (replaced p l e) = (
        refl,
        slots-replaced t.rec r p 0 t.rcnt (omega arith) (omega arith) (sym e)
            (λ k h m. omega (arith, e, v.sorted k p m l)),
      )
      go (refused full miss) = elim room [
        | inl h ↦ absurd (omega arith)
        | inr h ↦ absurd (h (find_rec-none t.rec _ 0 t.rcnt (λ k a b. miss k (omega arith))))
      ]

  -- A full template in order without a record for the time refuses the call and stays as it is.
  pub add_tmpl_rec-full :
      t.rcnt ≡ max_schedule_recs
      → find_rec (key_of hour minute) (live t) ≡ none
      → add_tmpl_rec below t hour minute state temp humid ≡ (1, t)
  add_tmpl_rec-full full miss = go (add-Outcome below t v hour minute state temp humid)
    where
      r : SRec F
      r = new_rec hour minute state temp humid

      go : {o : ℕ × TmplDat F} → Outcome t r o → o ≡ (1, t)
      go (put_in room ins) = absurd (omega arith)
      go (replaced p l e) = ground (
        arith,
        find_rec-some t.rec r.key 0 t.rcnt p (omega arith) (omega arith) e
            (λ k h m. omega (arith, e, v.sorted k p m l)),
      )
      go (refused _ _) = refl

  -- On a template in order the call writes to no slot but the first fifty, so it stays inside the
  -- array of fifty-one.
  pub add_tmpl_rec_bounds :
      (j : ℕ)
      → max_schedule_recs ≤ j
      → (add_tmpl_rec below t hour minute state temp humid).1.rec j ≡ t.rec j
  add_tmpl_rec_bounds j h = go (add-Outcome below t v hour minute state temp humid)
    where
      go :
          {o : ℕ × TmplDat F}
          → Outcome t (new_rec hour minute state temp humid) o
          → o.1.rec j ≡ t.rec j
      go (put_in room ins) = ground (arith, ins.cells j)
      go (replaced p l e) = ground (arith, v.fits)
      go (refused _ _) = refl
