-- ===== src/Topics/Fifo.antt =====
-- The queue of i5-6600k/lib-sources/fifo_q.c: what comes in first goes out first.
use pcon_tng.Prelude.{
  ℕ, ◌≡◌, ◌≢◌, refl, List, [], ◌∷◌, ◌++◌, map, Option, none, some, Bool, true, false, ◌==◌, arith,
}
use pcon_tng.CharFsm.Words.{every}
use pcon_tng.Topics.{Ptr, node, bytes, Heap, write, Queue, queue, list_add_element}
use pcon_tng.Topics.Chain.{
  Cell, uses, is_text, IsCell, Chain, nil, cons, frame, unused, uses-append, snoc,
}

-- The cells of a queue: none, or those in front and the last.
abbrev pub Cells : Type 0
Cells = Option (List Cell × Cell)

abbrev pub used_by : Ptr → Cells → Bool
used_by a none = false
used_by a (some (cs, z)) = uses a (z ∷ cs)

abbrev pub texts : Cells → List (List ℕ)
texts none = []
texts (some (cs, z)) = map (λ c. c.text) cs ++ z.text ∷ []

abbrev pub added : Cells → Cell → Cells
added none new = some ([], new)
added (some (cs, z)) new = some (cs ++ z ∷ [], new)

pub data IsQueue (h : Heap) : Queue → Cells → Type 0 where
  empty : IsQueue h (queue 0 0) none
  filled :
      {p : Ptr} {cs : List Cell} {z : Cell}
      → Chain h z.addr p cs
      → IsCell h z 0
      → uses z.addr cs ≡ false
      → uses z.token cs ≡ false
      → IsQueue h (queue p z.addr) (some (cs, z))

-- A new node's address is free, and its token's block holds the token and is no part of the queue.
pub record IsNew (h : Heap) (cells : Cells) (c : Cell) : Type 0 where
  pub addr_ne : c.addr ≢ 0
  pub token_ne : c.token ≢ 0
  pub free_addr : h c.addr ≡ none
  pub text_at : h c.token ≡ some (bytes (c.text ++ 0 ∷ []))
  pub text_ok : every is_text c.text ≡ true
  pub unused_token : used_by c.token cells ≡ false

pub head_ne : {h : Heap} {stop p : Ptr} {cs : List Cell} → Chain h stop p cs → stop ≢ 0 → p ≢ 0
head_ne nil ne = ne
head_ne (cons k out out' rest) ne = k.addr_ne

-- A queue and a heap after a call.
pub record Added (h : Heap) (q : Queue) (cells : Cells) (new : Cell) : Type 0 where
  pub q' : Queue
  pub h' : Heap
  pub runs : list_add_element new.addr new.token q h ≡ some ((true, q'), h')
  pub holds : IsQueue h' q' (added cells new)
  pub spares : (a : Ptr) → used_by a (added cells new) ≡ false → h' a ≡ h a

pub list_add_element_lem :
    {h : Heap} {q : Queue} {cells : Cells} (new : Cell)
    → IsQueue h q cells
    → IsNew h cells new
    → Added h q cells new
unfolding list_add_element
list_add_element_lem {h} new empty k = record {
  q' = queue new.addr new.addr;
  h' = write h new.addr (some (node new.token 0));
  runs = ground (arith, k.addr_ne);
  holds =
      filled nil
        (record {
          addr_ne = k.addr_ne;
          token_ne = k.token_ne;
          apart = ground (arith, k.free_addr, k.text_at);
          node_at = ground arith;
          text_at = ground (arith, k.free_addr, k.text_at);
          text_ok = k.text_ok;
        })
        refl refl;
  spares = λ a u. ground arith;
}
list_add_element_lem {h} new (filled {p} {cs} {z} chain last out out') k =
    let h1 = write h new.addr (some (node new.token 0)) in
    let h2 = write h1 z.addr (some (node z.token new.addr)) in
    let p_ne = head_ne chain last.addr_ne in
    let new_unused = unused new.addr chain k.free_addr in
    record {
      q' = queue p new.addr;
      h' = h2;
      runs =
          let new_null : (new.addr == 0) ≡ false = ground (arith, k.addr_ne) in
          let head_null : (p == 0) ≡ false = ground (arith, p_ne) in
          let tail_null : (z.addr == 0) ≡ false = ground (arith, last.addr_ne) in
          let other : (z.addr == new.addr) ≡ false = ground (arith, last.node_at, k.free_addr) in
          rw (new_null, head_null, tail_null, other, last.node_at) refl;
      holds =
          filled
            (snoc z (frame chain (λ a u. ground (arith, k.free_addr)))
              (record {
                addr_ne = last.addr_ne;
                token_ne = last.token_ne;
                apart = last.apart;
                node_at = ground arith;
                text_at = ground (arith, last.text_at, last.apart, k.free_addr);
                text_ok = last.text_ok;
              })
              out out')
            (record {
              addr_ne = k.addr_ne;
              token_ne = k.token_ne;
              apart = ground (arith, k.free_addr, k.text_at);
              node_at = ground (arith, last.node_at, k.free_addr);
              text_at = ground (arith, k.text_at, k.free_addr, k.unused_token);
              text_ok = k.text_ok;
            })
            (ground
              (arith, uses-append new.addr cs (z ∷ []), last.node_at, last.text_at, k.free_addr))
            (ground (arith, uses-append new.token cs (z ∷ []), k.unused_token));
      spares = λ a u. ground (arith, uses-append a cs (z ∷ []));
    }
