-- ===== src/Topics/Order.antt =====
-- A topic's queue, built by `build_token_q` and emptied by `pop` of i5-6600k/lib-sources: the levels
-- come back in their order.
use pcon_tng.Prelude.{
  ℕ, zero, suc, ◌≡◌, ◌≤◌, refl, ap, ◌∙◌, subst, sym, List, [], ◌∷◌, ◌++◌, map, Option, none, some,
  length, arith,
}
use pcon_tng.Topics.{Heap, Ptr, Queue, queue, M, pure, ◌>>=◌, pop, build_token_q}
use pcon_tng.Topics.Chain.{Cell}
use pcon_tng.Topics.Fifo.{Cells, texts, IsQueue, empty, filled}
use pcon_tng.Topics.Supply.{Fresh}
use pcon_tng.Topics.Levels.{Level, topic, levels}
use pcon_tng.Topics.Build.{build_token_q-levels}
use pcon_tng.Topics.Pop.{list_remove_element_lem, first_of, rest_of}

-- What a number of calls of `pop` yield.
unfoldable pub pops : ℕ → Queue → M (List (Option (List ℕ)))
pops zero s = pure []
pops (suc n) s = do r ← pop s; rest ← pops n r.1; pure (r.0 ∷ rest)

-- A queue that is built, and what calls of `pop` yield of it.
pub record Popped (n : ℕ) (run : Option (Option Queue × Heap)) (tokens : List (List ℕ))
    : Type 0 where
  pub q : Queue
  pub built_in : Heap
  pub end : Heap
  pub builds : run ≡ some (some q, built_in)
  pub yields : pops (suc n) q built_in ≡ some (map some tokens ++ none ∷ [], end)

-- The queue is empty after the calls, which yield these tokens and then NULL.
pub record Emptied (n : ℕ) (h : Heap) (q : Queue) (tokens : List (List ℕ)) : Type 0 where
  pub h' : Heap
  pub runs : pops (suc n) q h ≡ some (map some tokens ++ none ∷ [], h')

texts-first :
    (cs : List Cell) (z : Cell) → texts (some (cs, z)) ≡ (first_of cs z).text ∷ texts (rest_of cs z)
texts-first [] z = refl
texts-first (c ∷ cs) z = refl

pops_empty : (h : Heap) → pops 1 (queue 0 0) h ≡ some (none ∷ [], h)
unfolding pops pop
pops_empty h = refl

pops_round :
    (n : ℕ) (q : Queue) (h : Heap) {h' end : Heap} {q' : Queue} {text : List ℕ}
    {rest : List (Option (List ℕ))}
    → pop q h ≡ some ((some text, q'), h')
    → pops n q' h' ≡ some (rest, end)
    → pops (suc n) q h ≡ some (some text ∷ rest, end)
unfolding pops
pops_round n q h first more = rw (◌>>=◌, first, more) refl

emptied :
    (n : ℕ) {h : Heap} {q : Queue} {cells : Cells}
    → IsQueue h q cells
    → length (texts cells) ≡ n
    → Emptied n h q (texts cells)
emptied zero {h} empty same = record { h' = h; runs = pops_empty h }
emptied (suc n) empty same = absurd (omega (arith, same))
emptied zero (filled {cs} {z} chain last out out') same =
    absurd (omega (arith, same, ap length (texts-first cs z)))
emptied (suc n) {h} {q} (filled {cs} {z} chain last out out') same =
    let r = list_remove_element_lem (filled chain last out out') in
    let more = emptied n r.holds (omega (arith, same, ap length (texts-first cs z))) in
    subst (Emptied (suc n) h q) (sym (texts-first cs z))
      (record { h' = more.h'; runs = pops_round (suc n) q h r.pops more.runs })

-- A topic's levels, each shorter than the token buffer, are what `pop` yields, in their order and
-- then NULL, from the queue that `build_token_q` builds: with an address from `malloc` for each
-- token and each node, and with a NUL in the byte behind each copied token.
pub build_token_q-pops :
    (ls : List Level) (last : Level) (supply : List (Ptr × Ptr)) (h : Heap)
    → Fresh h supply
    → length (levels ls last) ≤ length supply
    → Popped (length (levels ls last)) (build_token_q 0 supply (topic ls last) h) (levels ls last)
build_token_q-pops ls last supply h fresh room =
    let b = build_token_q-levels ls last supply h fresh room in
    let e = emptied (length (levels ls last)) b.holds (ap length b.tokens_are) in
    record {
      q = b.q';
      built_in = b.h';
      end = e.h';
      builds = b.runs;
      yields = e.runs ∙ ap (λ tokens. some (map some tokens ++ none ∷ [], e.h')) b.tokens_are;
    }
