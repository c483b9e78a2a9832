-- ===== src/Topics/Pop.antt =====
-- `pop`, `list_remove_element` and `list_free` of i5-6600k/lib-sources/fifo_q.c.
use pcon_tng.Prelude.{
  ◌≡◌, ◌≢◌, refl, ap, ◌∙◌, List, [], ◌∷◌, none, some, true, false, ◌==◌, arith, if◌then◌else◌,
  if-false,
}
use pcon_tng.Topics.{Ptr, Heap, write, Queue, queue, list_remove_element, pop, ◌>>=◌}
use pcon_tng.Topics.Chain.{Cell, IsCell, nil, cons, terminated-text, frame-IsCell, frame}
use pcon_tng.Topics.Fifo.{Cells, IsQueue, empty, filled, head_ne}

abbrev pub first_of : List Cell → Cell → Cell
first_of [] z = z
first_of (c ∷ cs) z = c

abbrev pub rest_of : List Cell → Cell → Cells
rest_of [] z = none
rest_of (c ∷ cs) z = some (cs, z)

-- The heap without a cell.
abbrev pub without : Cell → Heap → Heap
without c h = write (write h c.token none) c.addr none

-- The first cell removed.
pub record Removed (h : Heap) (q : Queue) (cs : List Cell) (z : Cell) : Type 0 where
  pub q' : Queue
  pub runs : list_remove_element q h ≡ some ((true, q'), without (first_of cs z) h)
  pub pops : pop q h ≡ some ((some (first_of cs z).text, q'), without (first_of cs z) h)
  pub holds : IsQueue (without (first_of cs z) h) q' (rest_of cs z)
  pub nonempty : (q.head == 0) ≡ false

-- Removing the head, whose cell and the node behind it are known.
remove_runs :
    {h : Heap} {c : Cell} {next tail : Ptr}
    → IsCell h c next
    → tail ≢ 0
    → list_remove_element (queue c.addr tail) h
      ≡ some ((true, if next == 0 then queue next next else queue next tail), without c h)
unfolding list_remove_element
remove_runs {h} {c} {next} {tail} k tail_ne =
    let head_null : (c.addr == 0) ≡ false = ground (arith, k.addr_ne) in
    let tail_null : (tail == 0) ≡ false = ground (arith, tail_ne) in
    let token_null : (c.token == 0) ≡ false = ground (arith, k.token_ne) in
    let other : (c.addr == c.token) ≡ false = ground (arith, k.apart) in
    rw (head_null, tail_null, k.node_at, token_null, k.text_at, head_null, other, k.node_at) refl

pop_runs :
    {h h' : Heap} {c : Cell} {next : Ptr} {q' : Queue} (tail : Ptr)
    → IsCell h c next
    → list_remove_element (queue c.addr tail) h ≡ some ((true, q'), h')
    → pop (queue c.addr tail) h ≡ some ((some c.text, q'), h')
unfolding pop
pop_runs {c} tail k runs =
    let head_null : (c.addr == 0) ≡ false = ground (arith, k.addr_ne) in
    rw (head_null, k.node_at, k.text_at, terminated-text c.text k.text_ok, ◌>>=◌, runs) refl

pub list_remove_element_lem :
    {h : Heap} {q : Queue} {cs : List Cell} {z : Cell}
    → IsQueue h q (some (cs, z))
    → Removed h q cs z
list_remove_element_lem {h} (filled {z} nil last out out') =
    let runs = remove_runs last last.addr_ne in
    record {
      q' = queue 0 0;
      runs = runs;
      pops = pop_runs z.addr last runs;
      holds = empty;
      nonempty = ground (arith, last.addr_ne);
    }
list_remove_element_lem {h} (filled {z} (cons {c} {next} {cs} k apart apart' rest) last out out') =
    let next_ne = head_ne rest last.addr_ne in
    let runs =
      remove_runs k last.addr_ne
      ∙ ap (λ q. some ((true, q), without c h))
          (if-false (next == 0) (queue next next) (queue next z.addr) (ground (arith, next_ne))) in
    record {
      q' = queue next z.addr;
      runs = runs;
      pops = pop_runs z.addr k runs;
      holds =
          filled (frame rest (λ a u. ground arith))
            (frame-IsCell last (ground arith) (ground arith)) (ground arith) (ground arith);
      nonempty = ground (arith, k.addr_ne);
    }
