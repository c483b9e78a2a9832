-- ===== src/CharFsm/Holds.antt =====
-- The buffer of the character parser as a line, and the steps of the machine on it.
use pcon_tng.Prelude.{
  ℕ, zero, suc, ◌+◌, ◌<◌, ◌≡◌, ◌⊎◌, inl, inr, refl, ap, subst, ◌∙◌, ℤ, pos, ◌+ℤ◌, List, [], ◌∷◌,
  ◌++◌, Option, some, ◌==◌, arith, length, get_or, if◌then◌else◌,
}
use pcon_tng.CharFsm.{
  Reader, char_type, char_fsm, run_char_action, put_char, bytes, set_char_state, char_new_state_at,
  char_action, nop, input_buffer_size, quote,
}

-- The buffer of 60 bytes holds `cs` and then NULs, and the pointer stands behind it.
pub record Holds (r : Reader) (cs : List ℕ) : Type 0 where
  pub ptr : r.input_buffer_ptr ≡ pos (length cs)
  pub cells : (i : ℕ) → i < input_buffer_size → r.input_buffer (pos i) ≡ get_or cs i 0

pub get_or-snoc :
    (cs : List ℕ) (c i : ℕ)
    → get_or (cs ++ c ∷ []) i 0 ≡ (if i == length cs then c else get_or cs i 0)
get_or-snoc [] c zero = refl
get_or-snoc [] c (suc i) = ground arith
get_or-snoc (x ∷ cs) c zero = ground arith
get_or-snoc (x ∷ cs) c (suc i) = ground (arith, get_or-snoc cs c i)

pub length-snoc : (cs : List ℕ) (c : ℕ) → length (cs ++ c ∷ []) ≡ suc (length cs)
length-snoc [] c = refl
length-snoc (x ∷ cs) c = ap suc (length-snoc cs c)

pub put_char-Holds :
    (r : Reader) (cs : List ℕ) (c : ℕ) → Holds r cs → Holds (put_char c r) (cs ++ c ∷ [])
unfolding ◌+ℤ◌
put_char-Holds r cs c h = record {
  ptr = ground (arith, h.ptr, length-snoc cs c);
  cells = λ i b. ground (arith, h.ptr, h.cells i b, get_or-snoc cs c i);
}

-- The machine is not inside quotes.
abbrev pub Unquoted : Reader → Type 0
Unquoted r = (r.char_state ≡ 0) ⊎ (r.char_state ≡ 2) ⊎ (r.char_state ≡ 3)

abbrev pub added : ℕ → ℕ → Reader → Reader
added state c r = record (put_char c r) { char_state = state }

-- One step of the machine from a state, on a character of a type.
abbrev pub step_at : ℕ → ℕ → ℕ → Reader → Option Reader
step_at t state c r =
    set_char_state (char_new_state_at t state)
      (run_char_action (get_or (get_or char_action t []) state nop) c r)

other_at :
    (t state c : ℕ) (r : Reader)
    → t ≡ 4
    → (state ≡ 0) ⊎ (state ≡ 2) ⊎ (state ≡ 3)
    → step_at t state c r ≡ some (added 2 c r)
unfolding run_char_action
other_at t state c r e (inl u) = rw (e, u) refl
other_at t state c r e (inr (inl u)) = rw (e, u) refl
other_at t state c r e (inr (inr u)) = rw (e, u) refl

pub add_other :
    (r : Reader) (c : ℕ)
    → char_type c ≡ 4
    → Unquoted r
    → char_fsm (char_type c) c r ≡ some (added 2 c r)
unfolding char_fsm
add_other r c t u = other_at (char_type c) r.char_state c r t u

blank_at : (state : ℕ) (r : Reader) → state ≡ 2 → step_at 0 state 32 r ≡ some (added 3 32 r)
unfolding run_char_action
blank_at state r u = rw u refl

pub add_blank : (r : Reader) → r.char_state ≡ 2 → char_fsm (char_type 32) 32 r ≡ some (added 3 32 r)
unfolding char_fsm
add_blank r u = blank_at r.char_state r u

-- The machine stands between words.
abbrev pub Between : Reader → Type 0
Between r = (r.char_state ≡ 0) ⊎ (r.char_state ≡ 3)

quote_at :
    (state : ℕ) (r : Reader)
    → (state ≡ 0) ⊎ (state ≡ 3)
    → step_at 1 state quote r ≡ some (added 1 quote r)
unfolding run_char_action
quote_at state r (inl u) = rw u refl
quote_at state r (inr u) = rw u refl

-- The quote in front of a text.
pub open_quote :
    (r : Reader) → Between r → char_fsm (char_type quote) quote r ≡ some (added 1 quote r)
unfolding char_fsm
open_quote r u = quote_at r.char_state r u

inner_at :
    (t state c : ℕ) (r : Reader)
    → (t ≡ 4) ⊎ (t ≡ 0)
    → state ≡ 1
    → step_at t state c r ≡ some (added 1 c r)
unfolding run_char_action
inner_at t state c r (inl e) u = rw (e, u) refl
inner_at t state c r (inr e) u = rw (e, u) refl

pub add_inner :
    (r : Reader) (c : ℕ)
    → (char_type c ≡ 4) ⊎ (char_type c ≡ 0)
    → r.char_state ≡ 1
    → char_fsm (char_type c) c r ≡ some (added 1 c r)
unfolding char_fsm
add_inner r c t u = inner_at (char_type c) r.char_state c r t u

end_at :
    (state : ℕ) (r : Reader)
    → state ≡ 1
    → step_at 1 state quote r ≡ some (added 3 32 (put_char quote r))
unfolding run_char_action
end_at state r u = rw u refl

-- The quote behind a text brings a blank with it.
pub close_quote :
    (r : Reader)
    → r.char_state ≡ 1
    → char_fsm (char_type quote) quote r ≡ some (added 3 32 (put_char quote r))
unfolding char_fsm
close_quote r u = end_at r.char_state r u

-- A blank behind a blank is dropped.
pub drop_blank :
    (r : Reader) (c : ℕ) → char_fsm (char_type 32) 32 (added 3 c r) ≡ some (added 3 c r)
unfolding char_fsm run_char_action
drop_blank r c = refl

pub bytes-Holds :
    (f : ℤ → ℕ) (cs : List ℕ) (i n : ℕ)
    → ((j : ℕ) → j < n → f (pos (i + j)) ≡ get_or cs j 0)
    → length cs < n
    → (rest : List ℕ) × (bytes f i n ≡ cs ++ 0 ∷ rest)
bytes-Holds f cs i zero same h = absurd (omega arith)
bytes-Holds f [] i (suc n) same h =
    let e : i + 0 ≡ i = omega arith in
    (
      bytes f (suc i) n,
      ap (λ x. x ∷ bytes f (suc i) n) (subst (λ k. f (pos k) ≡ 0) e (same 0 (omega arith))),
    )
bytes-Holds f (c ∷ cs) i (suc n) same h =
    let e : i + 0 ≡ i = omega arith in
    let r =
      bytes-Holds f cs (suc i) n
        (λ j b.
          let e : i + suc j ≡ suc i + j = omega arith in
          subst (λ k. f (pos k) ≡ get_or cs j 0) e (same (suc j) (omega (arith, b))))
        (omega (arith, h)) in
    (
      r.0,
      ap (λ x. x ∷ bytes f (suc i) n) (subst (λ k. f (pos k) ≡ c) e (same 0 (omega arith)))
          ∙ ap (λ l. c ∷ l) r.1,
    )
