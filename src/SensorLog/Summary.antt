-- ===== src/SensorLog/Summary.antt =====
-- The statistics of Mint/process-master/process.c, sensor by sensor.
use pcon_tng.Prelude.{
  ℕ, ◌+◌, ◌≡◌, refl, ap, sym, ◌∙◌, ℤ, eq_ℤ, eq_of_parts, List, [], ◌∷◌, Bool, true, false, ltb,
  if◌then◌else◌, if-true, if-false, Bool-cases, inl, inr, arith,
}
use pcon_tng.Float.{CFloat}
use pcon_tng.TypeDefs.{put}
use pcon_tng.SensorLog.{Arith, Reading, Stats, count, one_read}

-- What is known of one sensor.
pub record Sensor (F : Type 0) : Type 0 where
  pub hits : ℕ
  pub total : F
  pub greatest : F
  pub least : F
  pub first_date : ℕ
  pub last_date : ℕ

put_if :
    {A : Type 0} (b : Bool) (f : ℤ → A) (id : ℤ) (v : A) (i : ℤ)
    → (if b then put f id v else f) i ≡ (if eq_ℤ i id then (if b then v else f i) else f i)
put_if true f id v i = refl
put_if false f id v i = elim (Bool-cases (eq_ℤ i id)) [
  | inl same ↦ sym (if-true (eq_ℤ i id) (f i) (f i) same)
  | inr other ↦ sym (if-false (eq_ℤ i id) (f i) (f i) other)
]

same_id : (i id : ℤ) → eq_ℤ i id ≡ true → i ≡ id
same_id i id h = ground (arith, eq_of_parts i id)

-- An array at an element that is written by what it holds.
put_same :
    {A : Type 0} (f : ℤ → A) (g : A → A) (id i : ℤ)
    → eq_ℤ i id ≡ true
    → put f id (g (f id)) i ≡ g (f i)
put_same f g id i h =
    if-true (eq_ℤ i id) (g (f id)) (f i) h ∙ ap (λ k. g (f k)) (sym (same_id i id h))

test_same :
    {A : Type 0} (f : ℤ → A) (b : A → Bool) (v : A) (id i : ℤ)
    → eq_ℤ i id ≡ true
    → (if b (f id) then put f id v else f) i ≡ (if b (f i) then v else f i)
test_same f b v id i h =
    put_if (b (f id)) f id v i
    ∙ if-true (eq_ℤ i id) (if b (f id) then v else f i) (f i) h
    ∙ ap (λ k. if b (f k) then v else f i) (sym (same_id i id h))

test_other :
    {A : Type 0} (f : ℤ → A) (b : Bool) (v : A) (id i : ℤ)
    → eq_ℤ i id ≡ false
    → (if b then put f id v else f) i ≡ f i
test_other f b v id i h = put_if b f id v i ∙ if-false (eq_ℤ i id) (if b then v else f i) (f i) h

module _ {F : Type 0} ⦃fl : CFloat F⦄ ⦃ar : Arith F⦄ where
  abbrev pub sensor : Stats F → ℤ → Sensor F
  sensor s i = record {
    hits = s.hit_cnt i;
    total = s.sum_t i;
    greatest = s.max_t i;
    least = s.min_t i;
    first_date = s.f_date i;
    last_date = s.c_date i;
  }

  -- A sensor with one more reading.
  abbrev pub step : Sensor F → Reading F → Sensor F
  step x r = record {
    hits = x.hits + 1;
    total = ar.add x.total r.temp;
    greatest = if ar.greater r.temp x.greatest then r.temp else x.greatest;
    least = if ar.greater x.least r.temp then r.temp else x.least;
    first_date = if ltb x.first_date r.ts then r.ts else x.first_date;
    last_date = if ltb x.last_date r.ts then r.ts else x.last_date;
  }

  -- A sensor with its own readings of a log, in their order.
  abbrev pub summary : ℤ → Sensor F → List (Reading F) → Sensor F
  summary i x [] = x
  summary i x (r ∷ rs) =
      let own = summary i (step x r) rs in
      let others = summary i x rs in if eq_ℤ i r.sensor_id then own else others

  same_sensor :
      {x y : Sensor F}
      → x.hits ≡ y.hits
      → x.total ≡ y.total
      → x.greatest ≡ y.greatest
      → x.least ≡ y.least
      → x.first_date ≡ y.first_date
      → x.last_date ≡ y.last_date
      → x ≡ y
  same_sensor h t g l f d = λ i. record {
    hits = h i;
    total = t i;
    greatest = g i;
    least = l i;
    first_date = f i;
    last_date = d i;
  }

  sensor-count :
      (r : Reading F) (s : Stats F) (i : ℤ)
      → sensor (count r s) i ≡ (if eq_ℤ i r.sensor_id then step (sensor s i) r else sensor s i)
  unfolding count
  sensor-count r s i =
      let id = r.sensor_id in
      let after = sensor (count r s) i in
      elim (Bool-cases (eq_ℤ i id)) [
        | inl same ↦
            same_sensor {x = after} {y = step (sensor s i) r}
              (put_same s.hit_cnt (λ n. n + 1) id i same)
              (put_same s.sum_t (λ x. ar.add x r.temp) id i same)
              (test_same s.max_t (λ x. ar.greater r.temp x) r.temp id i same)
              (test_same s.min_t (λ x. ar.greater x r.temp) r.temp id i same)
              (test_same s.f_date (λ d. ltb d r.ts) r.ts id i same)
              (test_same s.c_date (λ d. ltb d r.ts) r.ts id i same)
            ∙ sym (if-true (eq_ℤ i id) (step (sensor s i) r) (sensor s i) same)
        | inr other ↦
            same_sensor {x = after} {y = sensor s i}
              (if-false (eq_ℤ i id) (s.hit_cnt id + 1) (s.hit_cnt i) other)
              (if-false (eq_ℤ i id) (ar.add (s.sum_t id) r.temp) (s.sum_t i) other)
              (test_other s.max_t (ar.greater r.temp (s.max_t id)) r.temp id i other)
              (test_other s.min_t (ar.greater (s.min_t id) r.temp) r.temp id i other)
              (test_other s.f_date (ltb (s.f_date id) r.ts) r.ts id i other)
              (test_other s.c_date (ltb (s.c_date id) r.ts) r.ts id i other)
            ∙ sym (if-false (eq_ℤ i id) (step (sensor s i) r) (sensor s i) other)
      ]

  pub summary_dates :
      (i : ℤ) (x : Sensor F) (rs : List (Reading F))
      → x.first_date ≡ x.last_date
      → (summary i x rs).first_date ≡ (summary i x rs).last_date
  summary_dates i x [] start = start
  summary_dates i x (r ∷ rs) start = elim (Bool-cases (eq_ℤ i r.sensor_id)) [
    | inl own ↦
        let e = if-true (eq_ℤ i r.sensor_id) (summary i (step x r) rs) (summary i x rs) own in
        ap (λ (y : Sensor F). y.first_date) e
        ∙ summary_dates i (step x r) rs (ap (λ d. if ltb d r.ts then r.ts else d) start)
        ∙ sym (ap (λ (y : Sensor F). y.last_date) e)
    | inr other ↦
        let e = if-false (eq_ℤ i r.sensor_id) (summary i (step x r) rs) (summary i x rs) other in
        ap (λ (y : Sensor F). y.first_date) e
        ∙ summary_dates i x rs start
        ∙ sym (ap (λ (y : Sensor F). y.last_date) e)
  ]

  -- The whole log counted, reading by reading.
  abbrev pub counted : List (Reading F) → Stats F → Stats F
  counted [] s = s
  counted (r ∷ rs) s = counted rs (count r (one_read s))

  pub sensor-counted :
      (rs : List (Reading F)) (s : Stats F) (i : ℤ)
      → sensor (counted rs s) i ≡ summary i (sensor s i) rs
  sensor-counted [] s i = refl
  sensor-counted (r ∷ rs) s i =
      sensor-counted rs (count r (one_read s)) i
      ∙ ap (λ x. summary i x rs) (sensor-count r (one_read s) i)
      ∙ if_out (eq_ℤ i r.sensor_id)
    where
      if_out :
          (b : Bool)
          → summary i (if b then step (sensor s i) r else sensor s i) rs
            ≡ (if b then summary i (step (sensor s i) r) rs else summary i (sensor s i) rs)
      if_out true = refl
      if_out false = refl
