-- ===== src/Topics/Free.antt =====
-- `list_free` of i5-6600k/lib-sources/fifo_q.c comes to an end, with everything freed.
use pcon_tng.Prelude.{
  ℕ, zero, suc, ◌≡◌, ◌≤◌, refl, ◌∙◌, List, [], ◌∷◌, none, some, ◌||◌, ◌==◌, arith, if◌then◌else◌,
  length,
}
use pcon_tng.Topics.{Heap, Ptr, Queue, queue, list_free}
use pcon_tng.Topics.Chain.{Cell}
use pcon_tng.Topics.Fifo.{Cells, used_by, IsQueue, empty, filled}
use pcon_tng.Topics.Pop.{first_of, rest_of, without, Removed, list_remove_element_lem}

abbrev pub count : Cells → ℕ
count none = 0
count (some (cs, z)) = suc (length cs)

-- The queue is empty, the cells are freed, and the rest of the heap is as it was.
pub record Freed (n : ℕ) (h : Heap) (q : Queue) (cells : Cells) : Type 0 where
  pub h' : Heap
  pub runs : list_free n q h ≡ some (queue 0 0, h')
  pub memory : (a : Ptr) → h' a ≡ (if used_by a cells then none else h a)

count-rest : (cs : List Cell) (z : Cell) → suc (count (rest_of cs z)) ≡ suc (length cs)
count-rest [] z = refl
count-rest (c ∷ cs) z = refl

used_by-rest :
    (cs : List Cell) (z : Cell) (a : Ptr)
    → used_by a (some (cs, z))
      ≡ ((a == (first_of cs z).addr || a == (first_of cs z).token) || used_by a (rest_of cs z))
used_by-rest [] z a = refl
used_by-rest (c ∷ cs) z a = ground arith

free_empty : (n : ℕ) (h : Heap) → list_free n (queue 0 0) h ≡ some (queue 0 0, h)
unfolding list_free
free_empty zero h = refl
free_empty (suc n) h = refl

free_round :
    (n : ℕ) {h : Heap} {q : Queue} {cs : List Cell} {z : Cell} (r : Removed h q cs z)
    → list_free (suc n) q h ≡ list_free n r.q' (without (first_of cs z) h)
unfolding list_free
free_round n {h} {q} {cs} {z} r = rw (r.nonempty, r.runs) refl

-- Freeing a queue takes as many rounds as it has tokens: with as many or more rounds the queue is
-- empty, its nodes and tokens are freed, and the rest of the heap is as it was.
pub list_free-Freed :
    (n : ℕ) {h : Heap} {q : Queue} {cells : Cells}
    → IsQueue h q cells
    → count cells ≤ n
    → Freed n h q cells
list_free-Freed n {h} empty enough = record { h' = h; runs = free_empty n h; memory = λ a. refl }
list_free-Freed zero (filled {p} {cs} {z} chain last out out') enough = absurd (omega arith)
list_free-Freed (suc n) {h} (filled {p} {cs} {z} chain last out out') enough =
    let r = list_remove_element_lem (filled chain last out out') in
    let more = list_free-Freed n r.holds (omega (arith, count-rest cs z, enough)) in
    record {
      h' = more.h';
      runs = free_round n r ∙ more.runs;
      memory = λ a. more.memory a ∙ ground (arith, used_by-rest cs z a);
    }
