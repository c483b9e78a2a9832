-- ===== src/CmdFsm/Escape.antt =====
-- The way back to state 0.
use pcon_tng.Prelude.{
  ℕ, ◌<◌, ◌≡◌, refl, sym, ap, subst, ◌∙◌, ltb, ℤ, pos, eq_ℤ, List, [], ◌∷◌, Bool, true, false, not,
  ◌&&◌, ◌||◌, ◌==◌, arith, ltb→lt, if-false,
}
use pcon_tng.Prelude.Below.{all_below, all_below-at, and_left, and_right}
use pcon_tng.Float.{CFloat}
use pcon_tng.Sch.{SRec}
use pcon_tng.CmdFsm.Tables.{Action, c_34, action_at, new_state_at}
use pcon_tng.CmdFsm.State.{Cmd}
use pcon_tng.CmdFsm.Tokens.{token_type, token_word, is_valid_int, keyword_from, keyword_at, tt_null}
use pcon_tng.CmdFsm.Engine.{run_action, settle, dispatch, cmd_fsm, row_of, typed, set_state}
use pcon_tng.CmdFsm.Reach.{reachable, reachable_bound}

abbrev pub word_done : List ℕ
word_done = b'd' ∷ b'o' ∷ b'n' ∷ b'e' ∷ []

abbrev pub word_cancel : List ℕ
word_cancel = b'c' ∷ b'a' ∷ b'n' ∷ b'c' ∷ b'e' ∷ b'l' ∷ []

done_type : token_type word_done ≡ pos 27
unfolding token_type token_word is_valid_int keyword_from keyword_at
done_type = refl

cancel_type : token_type word_cancel ≡ pos 7
unfolding token_type token_word is_valid_int keyword_from keyword_at
cancel_type = refl

-- In every state `done` and `cancel` call the routine that only sets a prompt.
abbrev prompts : Action → Bool
prompts c_34 = true
prompts _ = false

abbrev prompts_at : ℕ → Bool
prompts_at s = prompts (action_at 27 s) && prompts (action_at 7 s)

-- Where `done` three times and `cancel` lead.
abbrev way_out : ℕ → ℕ
way_out s = new_state_at 7 (new_state_at 27 (new_state_at 27 (new_state_at 27 s)))

prompts_everywhere : all_below 35 prompts_at ≡ true
unfolding all_below
prompts_everywhere = refl

way_out_zero : all_below 35 (λ s. not (reachable s) || way_out s == 0) ≡ true
unfolding all_below
way_out_zero = refl

states_bound : all_below 35 (λ s. ltb (new_state_at 27 s) 35) ≡ true
unfolding all_below
states_bound = refl

module _ {F : Type 0} ⦃fl : CFloat F⦄ (below : SRec F) where
  abbrev pub enter : List ℕ → Cmd F → Cmd F
  enter t s = cmd_fsm below (record s { cb = record (s.cb) { token = t } })

  prompts-run_action : (a : Action) (s : Cmd F) → prompts a ≡ true → run_action below a s ≡ (0, s)
  unfolding run_action
  prompts-run_action c_34 s h = refl
  prompts-run_action _ s h = absurd (ground arith)

  abbrev Moved : ℕ → Cmd F → Cmd F → Type 0
  Moved i s s' = (s'.cb.state ≡ new_state_at i s.cb.state) × (s'.ended ≡ false)

  settle_prompt : (i : ℕ) (s : Cmd F) → s.ended ≡ false → Moved i s (settle i (0, s))
  unfolding settle
  settle_prompt i s going = (
    ap (λ s. s.cb.state) (if-false s.ended s (set_state s (new_state_at i s.cb.state)) going),
    ap (λ s. s.ended) (if-false s.ended s (set_state s (new_state_at i s.cb.state)) going) ∙ going,
  )

  dispatch_prompt :
      (i : ℕ) (s : Cmd F)
      → prompts (action_at i s.cb.state) ≡ true
      → s.ended ≡ false
      → Moved i s (dispatch below i s)
  unfolding dispatch
  dispatch_prompt i s p going =
      subst (λ r. Moved i s (settle i r)) (sym (prompts-run_action (action_at i s.cb.state) s p))
        (settle_prompt i s going)

  not_null : (i : ℕ) (z : ℤ) → z ≡ pos i → eq_ℤ z tt_null ≡ false
  not_null i z e = ground arith

  row_of_word : (i : ℕ) → row_of (pos i) ≡ i
  row_of_word i = ground arith

  -- A word that calls the prompt routine moves the processor by its row.
  prompt_step :
      (t : List ℕ) (i : ℕ) (s : Cmd F)
      → token_type t ≡ pos i
      → prompts (action_at i s.cb.state) ≡ true
      → s.ended ≡ false
      → Moved i s (enter t s)
  unfolding cmd_fsm
  prompt_step t i s e p going =
      let s' : Cmd F = record s { cb = record (s.cb) { token = t } } in
      subst (Moved i s)
        (sym (
          if-false (eq_ℤ (token_type t) tt_null)
            (record s' { cb = record (s'.cb) { token_type = token_type t } })
            (dispatch below (row_of (token_type t)) (typed s')) (not_null i (token_type t) e)))
        (subst (λ k. Moved i s (dispatch below k (typed s'))) (sym (ap row_of e ∙ row_of_word i))
          (dispatch_prompt i (typed s') p going))

  done_moves : (s : Cmd F) → s.cb.state < 35 → s.ended ≡ false → Moved 27 s (enter word_done s)
  done_moves s h going =
      prompt_step word_done 27 s done_type
        (and_left _ _ (all_below-at 35 prompts_at prompts_everywhere s.cb.state h)) going

  cancel_moves : (s : Cmd F) → s.cb.state < 35 → s.ended ≡ false → Moved 7 s (enter word_cancel s)
  cancel_moves s h going =
      prompt_step word_cancel 7 s cancel_type
        (and_right _ _ (all_below-at 35 prompts_at prompts_everywhere s.cb.state h)) going

  done_bound : (n : ℕ) → n < 35 → new_state_at 27 n < 35
  done_bound n h =
      ltb→lt (new_state_at 27 n) 35
        (all_below-at 35 (λ s. ltb (new_state_at 27 s) 35) states_bound n h)

  -- From every reachable state the words `done`, `done`, `done` and `cancel` lead back to state 0,
  -- whatever the data, while the process runs.
  pub escape :
      (s : Cmd F)
      → reachable s.cb.state ≡ true
      → s.ended ≡ false
      → ((enter word_cancel (enter word_done (enter word_done (enter word_done s)))).cb.state ≡ 0)
        × ((enter word_cancel (enter word_done (enter word_done (enter word_done s)))).ended
            ≡ false)
  escape s r going =
      let b₀ = reachable_bound s.cb.state r in
      let s₁ = enter word_done s in
      let m₁ = done_moves s b₀ going in
      let b₁ : s₁.cb.state < 35 = subst (λ n. n < 35) (sym m₁.0) (done_bound s.cb.state b₀) in
      let s₂ = enter word_done s₁ in
      let m₂ = done_moves s₁ b₁ m₁.1 in
      let b₂ : s₂.cb.state < 35 = subst (λ n. n < 35) (sym m₂.0) (done_bound s₁.cb.state b₁) in
      let s₃ = enter word_done s₂ in
      let m₃ = done_moves s₂ b₂ m₂.1 in
      let b₃ : s₃.cb.state < 35 = subst (λ n. n < 35) (sym m₃.0) (done_bound s₂.cb.state b₂) in
      let m₄ = cancel_moves s₃ b₃ m₃.1 in
      let path : s₃.cb.state ≡ new_state_at 27 (new_state_at 27 (new_state_at 27 s.cb.state)) =
        m₃.0 ∙ ap (new_state_at 27) (m₂.0 ∙ ap (new_state_at 27) m₁.0) in
      (m₄.0 ∙ ap (new_state_at 7) path ∙ zero_at s.cb.state b₀ r, m₄.1)
    where
      step : (b : Bool) (n : ℕ) → (not b || n == 0) ≡ true → b ≡ true → n ≡ 0
      step b n h p = ground arith

      zero_at : (n : ℕ) → n < 35 → reachable n ≡ true → way_out n ≡ 0
      zero_at n h r =
          step (reachable n) (way_out n)
            (all_below-at 35 (λ s. not (reachable s) || way_out s == 0) way_out_zero n h) r
