-- ===== src/Ui/Commands.antt =====
-- BBB/UI/Pcon.c: the loop that runs the queued commands comes to an end.
use pcon_tng.Prelude.{
  ℕ, zero, suc, ◌≤◌, ◌≡◌, ◌⊎◌, inl, inr, refl, ap, List, [], ◌∷◌, true, arith, length, if-elim,
  if-elim_both,
}
use pcon_tng.Float.{CFloat}
use pcon_tng.Sch.{SRec}
use pcon_tng.CmdFsm.State.{Cmd}
use pcon_tng.CmdFsm.Engine.{cmd_fsm}
use pcon_tng.CmdFsm.Queue.{cmd_fsm-queue}
use pcon_tng.Ui.{with_token, commands}

module _ {F : Type 0} where
  -- The process has ended, or no token is left and the last one is cleared.
  abbrev pub Finished : Cmd F → Type 0
  Finished s = (s.ended ≡ true) ⊎ ((s.cmd_q ≡ []) × (s.cb.token ≡ []))

module _ {F : Type 0} ⦃fl : CFloat F⦄ (below : SRec F) where
  shorter :
      (t : List ℕ) (ts : List (List ℕ)) (s : Cmd F)
      → length (cmd_fsm below (with_token t ts s)).cmd_q ≤ length ts
  shorter t ts s = elim (cmd_fsm-queue below (with_token t ts s)) [
    | inl same ↦ omega (arith, ap length same)
    | inr gone ↦ omega (arith, ap length gone)
  ]

  finish : (n : ℕ) (q : List (List ℕ)) (s : Cmd F) → length q ≤ n → Finished (commands below n q s)
  unfolding commands
  finish n [] s h = inr (refl, refl)
  finish zero (t ∷ ts) s h = absurd (omega arith)
  finish (suc n) (t ∷ ts) s h =
      let next = cmd_fsm below (with_token t ts s) in
      if-elim Finished next.ended next (commands below n next.cmd_q next) (λ e. inl e)
        (λ _. finish n next.cmd_q next (omega (arith, shorter t ts s, h)))

  same_result :
      (n m : ℕ) (q : List (List ℕ)) (s : Cmd F)
      → length q ≤ n
      → length q ≤ m
      → commands below n q s ≡ commands below m q s
  unfolding commands
  same_result n m [] s h k = refl
  same_result zero m (t ∷ ts) s h k = absurd (omega arith)
  same_result (suc n) zero (t ∷ ts) s h k = absurd (omega arith)
  same_result (suc n) (suc m) (t ∷ ts) s h k =
      let next = cmd_fsm below (with_token t ts s) in
      if-elim_both (λ x y. x ≡ y) next.ended next.ended next (commands below n next.cmd_q next) next
        (commands below m next.cmd_q next) refl (λ _. refl)
        (λ _.
          same_result n m next.cmd_q next (omega (arith, shorter t ts s, h))
            (omega (arith, shorter t ts s, k)))

  -- The loop that runs the commands makes at most one round for each token that is queued: with
  -- more rounds allowed the result is the same, and it is that the process has ended or that no
  -- token is left.
  pub commands-Finished :
      (n : ℕ) (q : List (List ℕ)) (s : Cmd F)
      → length q ≤ n
      → (commands below n q s ≡ commands below (length q) q s)
        × Finished (commands below (length q) q s)
  commands-Finished n q s h =
      (same_result n (length q) q s h (omega arith), finish (length q) q s (omega arith))
