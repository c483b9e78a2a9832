-- ===== src/SchPrint/Prompt.antt =====
-- What `load_temps` of BBB/lib-sources/sch.c leaves in the prompt buffer.
use pcon_tng.Prelude.{ℕ, zero, suc, ◌+◌, ◌≤◌, ◌≡◌, ap, ◌∙◌, List, ◌++◌, some, ltb, arith, if-false}
use pcon_tng.Sch.{TmplDat, max_schedule_recs}
use pcon_tng.SchPrint.{FloatText, bytes, record_text, load_from, load_temps}

module _ {F : Type 0} (f : FloatText F) (t : TmplDat F) where
  load_from-last :
      (i n : ℕ) (b : List ℕ)
      → load_from f t i (suc n) b ≡ bytes "\n\r  " ++ record_text f t (i + n) ++ bytes "\r\n"
  unfolding load_from
  load_from-last i zero b =
      let here : i ≡ i + 0 = omega arith in
      ap (λ k. bytes "\n\r  " ++ record_text f t k ++ bytes "\r\n") here
  load_from-last i (suc n) b =
      let here : suc i + n ≡ i + suc n = omega arith in
      load_from-last (suc i) n (bytes "\n\r  " ++ record_text f t i ++ bytes "\r\n")
      ∙ ap (λ k. bytes "\n\r  " ++ record_text f t k ++ bytes "\r\n") here

  -- With one record or more, as many as fit the array, the prompt buffer holds the text of the last
  -- record and nothing else: neither what it held nor the records before.
  load_temps_lem :
      (n : ℕ) (b : List ℕ)
      → t.rcnt ≡ suc n
      → t.rcnt ≤ max_schedule_recs
      → load_temps f t b ≡ some (bytes "\n\r  " ++ record_text f t n ++ bytes "\r\n")
  unfolding load_temps
  load_temps_lem n b e h =
      let zeroth : 0 + n ≡ n = omega arith in
      if-false (ltb t.rcnt 1) _ _ (ground (arith, e))
      ∙ if-false (ltb max_schedule_recs t.rcnt) _ _ (ground (arith, h))
      ∙ ap some (
          ap (λ k. load_from f t 0 k b) e
          ∙ load_from-last 0 n b
          ∙ ap (λ k. bytes "\n\r  " ++ record_text f t k ++ bytes "\r\n") zeroth)
