-- ===== src/Topics/Tests.antt =====
-- Runs of the topic queue, of i5-6600k/lib-sources/fifo_q.c and build_token_q.c.
use pcon_tng.Prelude.{ℕ, ◌≡◌, refl, List, [], ◌∷◌, Option, none, some, arith}
use pcon_tng.Topics.{
  Heap, Ptr, Queue, queue, pop, build_token_q, build_from, list_add_element, list_remove_element,
  ◌>>=◌, fault, M, node, bytes, write,
}
use pcon_tng.Topics.Chain.{Chain}
use pcon_tng.Topics.Fifo.{Cells, filled}
use pcon_tng.Topics.Supply.{Fresh, nil, cons}
use pcon_tng.Topics.Levels.{Level, topic, levels}
use pcon_tng.Topics.Order.{Popped, build_token_q-pops}
use pcon_tng.Topics.Free.{Freed, list_free-Freed}

abbrev no_memory : Heap
no_memory p = none

abbrev home : Level
home = record { text = b'p' ∷ b'c' ∷ []; no_slash = refl; no_nul = refl; short = omega arith }

abbrev humidity : Level
humidity = record { text = b'h' ∷ []; no_slash = refl; no_nul = refl; short = omega arith }

abbrev addresses : List (Ptr × Ptr)
addresses = (10, 11) ∷ (20, 21) ∷ []

addresses-Fresh : Fresh no_memory addresses
addresses-Fresh =
    cons
      (record {
        token_ne = omega arith;
        addr_ne = omega arith;
        apart = omega arith;
        free_token = refl;
        free_addr = refl;
        token_once = refl;
        addr_once = refl;
      })
      (cons
        (record {
          token_ne = omega arith;
          addr_ne = omega arith;
          apart = omega arith;
          free_token = refl;
          free_addr = refl;
          token_once = refl;
          addr_once = refl;
        })
        nil)

build_token_q-pops_example :
    Popped 2
      (build_token_q 0 addresses (topic (home ∷ []) humidity) no_memory)
      (levels (home ∷ []) humidity)
build_token_q-pops_example =
    build_token_q-pops (home ∷ []) humidity addresses no_memory addresses-Fresh (omega arith)

abbrev popped : Option Queue → M (Option (List ℕ) × Queue)
popped none = fault
popped (some q) = pop q

abbrev token_of : Option ((Option (List ℕ) × Queue) × Heap) → Option (Option (List ℕ))
token_of none = none
token_of (some r) = some r.0.0

-- What the first `pop` of the topic yields, by what the last byte of a new block holds.
abbrev first_token : ℕ → Option (Option (List ℕ))
first_token last =
    token_of ((build_token_q last addresses (topic (home ∷ []) humidity) >>= popped) no_memory)

terminated_token : first_token 0 ≡ some (some (b'p' ∷ b'c' ∷ []))
unfolding build_from list_add_element pop list_remove_element
terminated_token = refl

-- With another byte than NUL behind the token, `strlen` reads on.
unterminated_token : first_token 165 ≡ none
unfolding build_from list_add_element pop
unterminated_token = refl

abbrev cells : Cells
cells = some ([], record { addr = 11; token = 10; text = b'h' ∷ [] })

abbrev one_token : Heap
one_token = write (write no_memory 10 (some (bytes (b'h' ∷ 0 ∷ [])))) 11 (some (node 10 0))

list_free-Freed_example : Freed 3 one_token (queue 11 11) cells
list_free-Freed_example =
    list_free-Freed 3
      (filled Chain.nil
        (record {
          addr_ne = omega arith;
          token_ne = omega arith;
          apart = omega arith;
          node_at = refl;
          text_at = refl;
          text_ok = refl;
        })
        refl refl)
      (omega arith)
