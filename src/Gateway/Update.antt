-- ===== src/Gateway/Update.antt =====
-- What a report does to the shared data: BBB/CGI/Scon.c.
use pcon_tng.Prelude.{
  ℕ, suc, sym, ◌<◌, ◌≡◌, ◌≢◌, ◌∙◌, refl, ap, pos, ltb_ℤ, eq_ℤ, eq_of_parts, List, [], ◌∷◌, none,
  some, Bool, true, false, ◌&&◌, ltb, ◌==◌, arith, get_or, if-false, if-true, Bool-cases, inl, inr,
}
use pcon_tng.Prelude.Below.{and_left, and_right}
use pcon_tng.Float.{CFloat}
use pcon_tng.TypeDefs.{IpcDat, number_of_sensors}
use pcon_tng.CharFsm.Words.{every}
use pcon_tng.Gateway.{Lookup, found, cgigetval}
use pcon_tng.Gateway.Encoding.{apart}
use pcon_tng.Gateway.Fields.{Field, query, lookup}
use pcon_tng.Gateway.Query.{cgigetval-query}
use pcon_tng.Gateway.Main.{
  strtol, strtok, until_dot, Decimal, new_strtof, with_whole, with_fraction, word_sensor, word_temp,
  word_humid, refused, crashed, overrun, in_s_dat, stored, store_reading, with_humid, with_temp,
  checked, with_values, gateway,
}

and_false : (b : Bool) → (b && false) ≡ false
and_false true = refl
and_false false = refl

-- A number that starts with a letter is 0.
strtol_letter : (c : ℕ) (cs : List ℕ) → ltb 99 c ≡ true → strtol (c ∷ cs) ≡ pos 0
unfolding strtol
strtol_letter c cs h = ground arith

-- The test of the sensor's number for its range refuses no number.
range_unchecked : (s : List ℕ) → (ltb_ℤ (strtol s) (pos 0) && ltb 99 (get_or s 0 0)) ≡ false
unfolding strtol
range_unchecked [] = refl
range_unchecked (c ∷ cs) = elim (Bool-cases (ltb 99 c)) [
  | inl letter ↦ ap (λ k. ltb_ℤ k (pos 0) && ltb 99 c) (strtol_letter c cs letter)
  | inr other ↦
      ap (λ b. ltb_ℤ (strtol (c ∷ cs)) (pos 0) && b) other
      ∙ and_false (ltb_ℤ (strtol (c ∷ cs)) (pos 0))
]

no_point : (s : List ℕ) → every (apart b'.') s ≡ true → (until_dot s).1 ≡ []
no_point [] h = refl
no_point (c ∷ cs) h =
    ap (λ (x : List ℕ × List ℕ). x.1)
      (if-false (c == b'.') ([], cs) (c ∷ (until_dot cs).0, (until_dot cs).1)
        (ground (arith, and_left (apart b'.' c) (every (apart b'.') cs) h)))
    ∙ no_point cs (and_right (apart b'.' c) (every (apart b'.') cs) h)

pos_nonzero : (k : ℕ) → pos (suc k) ≢ pos 0
pos_nonzero k e = absurd (cc e)

module _ {F : Type 0} ⦃fl : CFloat F⦄ ⦃dec : Decimal F⦄ where
  new_strtof-none : (s : List ℕ) → every (apart b'.') s ≡ true → new_strtof {F = F} s ≡ none
  unfolding new_strtof strtok
  new_strtof-none [] h = refl
  new_strtof-none (c ∷ cs) h =
      let s = c ∷ cs in
      ap (with_whole {F = F} s) (
        if-false (c == b'.') (strtok cs) (some (until_dot s))
          (ground (arith, and_left (apart b'.' c) (every (apart b'.') cs) h)))
      ∙ ap (λ rest. with_fraction {F = F} s (until_dot s).0 (strtok rest)) (no_point s h)

  -- What a request yields when its three values are found.
  module _ (now beyond : ℕ) (ipc : IpcDat F) (fs : List Field) {n t h : List ℕ}
      (sensor : lookup word_sensor fs ≡ found n) (temp : lookup word_temp fs ≡ found t)
      (humid : lookup word_humid fs ≡ found h) where
    gateway-checked : gateway now ipc beyond (some (query fs)) ≡ checked now ipc n t h
    unfolding gateway
    gateway-checked =
        let got : (w : List ℕ) (v : Lookup)
            → lookup w fs ≡ v
            → cgigetval beyond w (some (query fs)) ≡ v =
          λ w v e. cgigetval-query beyond w fs ∙ e in
        λ i.
          with_values now ipc (got word_sensor (found n) sensor i) (got word_temp (found t) temp i)
            (got word_humid (found h) humid i)

    checked-with_temp :
        strtol n ≢ pos 0 → checked now ipc n t h ≡ with_temp now ipc (strtol n) (new_strtof t) h
    unfolding checked
    checked-with_temp nonzero =
        if-false (eq_ℤ (strtol n) (pos 0)) _ _ (ground (arith, eq_of_parts (strtol n) (pos 0)))
        ∙ if-false (ltb_ℤ (strtol n) (pos 0) && ltb 99 (get_or n 0 0)) refused _ (range_unchecked n)

    gateway-stores :
        {temperature humidity : F}
        → strtol n ≢ pos 0
        → new_strtof t ≡ some temperature
        → dec.is_zero temperature ≡ false
        → new_strtof h ≡ some humidity
        → dec.is_zero humidity ≡ false
        → in_s_dat (strtol n) ≡ true
        → gateway now ipc beyond (some (query fs))
          ≡ stored (strtol n) (store_reading (strtol n) temperature humidity now ipc)
    gateway-stores {temperature} {humidity} nonzero et zt eh zh inside =
        gateway-checked
        ∙ checked-with_temp nonzero
        ∙ ap (λ x. with_temp now ipc (strtol n) x h) et
        ∙ if-false (dec.is_zero temperature) refused _ zt
        ∙ ap (with_humid now ipc (strtol n) temperature) eh
        ∙ if-false (dec.is_zero humidity) refused _ zh
        ∙ if-true (in_s_dat (strtol n)) _ overrun inside

    pub gateway-stored :
        {temperature humidity : F} (k : ℕ)
        → strtol n ≡ pos (suc k)
        → suc k < number_of_sensors
        → new_strtof t ≡ some temperature
        → dec.is_zero temperature ≡ false
        → new_strtof h ≡ some humidity
        → dec.is_zero humidity ≡ false
        → gateway now ipc beyond (some (query fs))
          ≡ stored (pos (suc k)) (store_reading (pos (suc k)) temperature humidity now ipc)
    gateway-stored {temperature} {humidity} k number in_range et zt eh zh =
        gateway-stores (nonzero number) et zt eh zh (ap in_s_dat number ∙ ground (arith, in_range))
        ∙ ap (λ i. stored i (store_reading i temperature humidity now ipc)) number
      where
        nonzero : strtol n ≡ pos (suc k) → strtol n ≢ pos 0
        nonzero e z = pos_nonzero k (sym e ∙ z)

    -- When a query of fields has a sensor's number that is not 0 and a temperature without a decimal
    -- point, the process reads through NULL.
    pub gateway-crashed :
        strtol n ≢ pos 0
        → every (apart b'.') t ≡ true
        → gateway now ipc beyond (some (query fs)) ≡ crashed
    gateway-crashed nonzero whole =
        gateway-checked
        ∙ checked-with_temp nonzero
        ∙ ap (λ x. with_temp now ipc (strtol n) x h) (new_strtof-none t whole)
