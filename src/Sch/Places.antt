-- ===== src/Sch/Places.antt =====
-- Where records stand: the array and its list of live records, step by step.
use pcon_tng.Prelude.{
  ℕ, zero, suc, ◌+◌, ◌-◌, ◌≤◌, ◌<◌, ◌≡◌, ◌≢◌, refl, inl, inr, none, some, arith, ltb, ◌==◌,
  if◌then◌else◌, update, slots, slots-cong, slots-shift,
}
use pcon_tng.Sch.{SRec}
use pcon_tng.Prelude.Search.{split}
use pcon_tng.Sch.Live.{find_rec, put_rec}

module _ {F : Type 0} where
  -- The array with `r` put in before index `p`.
  abbrev pub inserted : (ℕ → SRec F) → ℕ → SRec F → ℕ → SRec F
  inserted rec p r j = if ltb j p then rec j else if j == p then r else rec (j - 1)

  pub slots-inserted :
      (rec : ℕ → SRec F) (r : SRec F) (p i n : ℕ)
      → i ≤ p
      → p ≤ i + n
      → ((k : ℕ) → i ≤ k → k < p → (rec k).key < r.key)
      → ((k : ℕ) → p ≤ k → k < i + n → r.key < (rec k).key)
      → slots (inserted rec p r) i (suc n) ≡ put_rec r (slots rec i n)
  unfolding slots put_rec
  slots-inserted rec r p i zero h l lo hi = ground arith
  slots-inserted rec r p i (suc n) h l lo hi = elim (split p i h) [
    | inl e ↦ ground (
      arith,
      hi i (omega arith) (omega arith),
      slots-shift rec (inserted rec p r) i (suc n) (λ k a b. ground arith),
    )
    | inr g ↦ ground (
      arith,
      lo i (omega arith) (omega arith),
      slots-inserted rec r p (suc i) n g (omega arith) (λ k a b. lo k (omega arith) b)
          (λ k a b. hi k a (omega arith)),
    )
  ]

  pub slots-replaced :
      (rec : ℕ → SRec F) (r : SRec F) (p i n : ℕ)
      → i ≤ p
      → p < i + n
      → r.key ≡ (rec p).key
      → ((k : ℕ) → i ≤ k → k < p → (rec k).key < r.key)
      → slots (update rec p r) i n ≡ put_rec r (slots rec i n)
  unfolding slots put_rec
  slots-replaced rec r p i zero h l same lo = absurd (omega arith)
  slots-replaced rec r p i (suc n) h l same lo = elim (split p i h) [
    | inl e ↦ ground (arith, slots-cong rec (update rec p r) (suc i) n (λ k a b. ground arith))
    | inr g ↦ ground (
      arith,
      lo i (omega arith) (omega arith),
      slots-replaced rec r p (suc i) n g (omega arith) same (λ k a b. lo k (omega arith) b),
    )
  ]

  -- A search of the array and of its list agree.
  pub find_rec-none :
      (rec : ℕ → SRec F) (key i n : ℕ)
      → ((k : ℕ) → i ≤ k → k < i + n → (rec k).key ≢ key)
      → find_rec key (slots rec i n) ≡ none
  unfolding slots find_rec
  find_rec-none rec key i zero miss = refl
  find_rec-none rec key i (suc n) miss = ground (
    arith,
    miss i (omega arith) (omega arith),
    find_rec-none rec key (suc i) n (λ k a b. miss k (omega arith) (omega arith)),
  )

  pub find_rec-some :
      (rec : ℕ → SRec F) (key i n p : ℕ)
      → i ≤ p
      → p < i + n
      → (rec p).key ≡ key
      → ((k : ℕ) → i ≤ k → k < p → (rec k).key ≢ key)
      → find_rec key (slots rec i n) ≡ some (rec p)
  unfolding slots find_rec
  find_rec-some rec key i zero p h l e miss = absurd (omega arith)
  find_rec-some rec key i (suc n) p h l e miss = elim (split p i h) [
    | inl q ↦ rw q (ground arith)
    | inr g ↦ ground (
      arith,
      miss i (omega arith) (omega arith),
      find_rec-some rec key (suc i) n p g (omega arith) e (λ k a b. miss k (omega arith) b),
    )
  ]
