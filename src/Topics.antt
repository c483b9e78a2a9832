-- ===== src/Topics.antt =====
-- i5-6600k/lib-sources/fifo_q.c and build_token_q.c: the levels of an MQTT topic as a linked queue on
-- the heap. `malloc` is a parameter: each call is given the address that it yields, 0 for NULL. The
-- queue's own record is a value, since one pointer to it is all there is. Printing is left out.
pub mod Chain
pub mod Fifo
pub mod Pop
pub mod Free
pub mod Levels
pub mod Build
pub mod Supply
pub mod Order
pub mod Tests
use pcon_tng.Prelude.{
  ℕ, zero, suc, List, [], ◌∷◌, ◌++◌, Option, none, some, Bool, true, false, ◌&&◌, ◌||◌, leb, ◌==◌,
  if◌then◌else◌, length,
}

abbrev pub Ptr : Type 0
Ptr = ℕ

-- What a block that is allocated holds: a node, or the bytes of a token.
pub data Block : Type 0 where
  node : (token next : Ptr) → Block
  bytes : List ℕ → Block

abbrev pub Heap : Type 0
Heap = Ptr → Option Block

abbrev pub write : Heap → Ptr → Option Block → Heap
write h p b a = if a == p then b else h a

-- `none` is an access to memory that is not allocated.
abbrev pub M : Type 0 → Type 0
M A = Heap → Option (A × Heap)

abbrev pub pure : {A : Type 0} → A → M A
pure a h = some (a, h)

abbrev pub fault : {A : Type 0} → M A
fault h = none

module _ {A B : Type 0} where
  abbrev pub and_then : Option (A × Heap) → (A → M B) → Option (B × Heap)
  and_then none k = none
  and_then (some (a, h)) k = k a h

  infixl 5 ◌>>=◌ ◌>>◌
  abbrev pub ◌>>=◌ : M A → (A → M B) → M B
  m >>= k = λ h. and_then (m h) k

  abbrev pub ◌>>◌ : M A → M B → M B
  m >> k = m >>= λ _. k

abbrev pub store : Ptr → Block → M (Unit {0})
store p b h = some (tt, write h p (some b))

abbrev pub node_in : Option Block → M (Ptr × Ptr)
node_in none h = none
node_in (some (bytes s)) h = none
node_in (some (node token next)) h = some ((token, next), h)

-- The token and the successor of a node.
abbrev pub load : Ptr → M (Ptr × Ptr)
load p h = node_in (h p) h

abbrev pub consed : ℕ → Option (List ℕ) → Option (List ℕ)
consed c none = none
consed c (some cs) = some (c ∷ cs)

-- The string in a block: the bytes up to its first NUL, if it has one.
abbrev pub terminated : List ℕ → Option (List ℕ)
terminated [] = none
terminated (c ∷ cs) = let rest = consed c (terminated cs) in if c == 0 then some [] else rest

abbrev pub string_in : Option Block → Option (List ℕ)
string_in none = none
string_in (some (node token next)) = none
string_in (some (bytes s)) = terminated s

abbrev pub as_read : Option (List ℕ) → M (List ℕ)
as_read none h = none
as_read (some s) h = some (s, h)

-- What `strlen` and `strncpy` read at an address.
abbrev pub read_string : Ptr → M (List ℕ)
read_string p h = as_read (string_in (h p)) h

-- p->next = q
abbrev pub set_next : Ptr → Ptr → M (Unit {0})
set_next p q = do n ← load p; store p (node n.0 q)

abbrev pub freed : Ptr → Option Block → M (Unit {0})
freed p none h = none
freed p (some b) h = some (tt, write h p none)

-- `free`, which does nothing at NULL.
abbrev pub free : Ptr → M (Unit {0})
free p h = if p == 0 then some (tt, h) else freed p (h p) h

-- `_TOPIC_Q`
pub record Queue : Type 0 where
  pub head : Ptr
  pub tail : Ptr

abbrev pub queue : Ptr → Ptr → Queue
queue p z = record { head = p; tail = z }

-- `list_new`
abbrev pub list_new : Queue
list_new = queue 0 0

-- A new node at the end. The result is whether a queue is returned rather than NULL, and the queue.
abbrev pub linked : Ptr → Queue → M (Bool × Queue)
linked new_node s =
    if s.head == 0 && s.tail == 0
    then pure (true, queue new_node new_node)
    else if s.head == 0 || s.tail == 0
    then (do free new_node; pure (false, s))
    else (do set_next s.tail new_node; pure (true, queue s.head new_node))

unfoldable pub list_add_element : Ptr → Ptr → Queue → M (Bool × Queue)
list_add_element new_node tokenptr s =
    if new_node == 0
    then pure (true, s)
    else (do store new_node (node tokenptr 0); linked new_node s)

abbrev pub without_head : Queue → Ptr → Queue
without_head s p = if p == 0 then queue p p else queue p s.tail

unfoldable pub list_remove_element : Queue → M (Bool × Queue)
list_remove_element s =
    if s.head == 0 && s.tail == 0
    then pure (false, s)
    else if s.head == 0 || s.tail == 0
    then pure (false, s)
    else (do n ← load s.head; free n.0; free s.head; pure (true, without_head s n.1))

-- `pop`: the bytes that are copied to the buffer, without a NUL behind them, or NULL.
unfoldable pub pop : Queue → M (Option (List ℕ) × Queue)
pop s = if s.head == 0 then pure (none, s) else (do
  n ← load s.head
  token ← read_string n.0
  r ← list_remove_element s
  pure (some token, r.1))

-- `list_free`, with at most `n` rounds.
unfoldable pub list_free : ℕ → Queue → M Queue
list_free zero s = pure s
list_free (suc n) s =
    let round = (do r ← list_remove_element s; list_free n r.1) in
    if s.head == 0 then pure s else round

-- The two inner loops of `build_token_q`: the bytes up to a slash, and those behind it.
abbrev pub until_slash : List ℕ → List ℕ × List ℕ
until_slash [] = ([], [])
until_slash (c ∷ cs) =
    let rest = until_slash cs in if c == b'/' then ([], cs) else (c ∷ rest.0, rest.1)

abbrev pub token_buffer_size : ℕ
token_buffer_size = 50

-- The rest of `build_token_q` on the rest of the topic. `supply` has the addresses of a token and of
-- a node for each round, and NULL behind them; `last` is what the last byte of a new block holds. A
-- token that does not fit its buffer with a NUL is a fault; `none` is the return of NULL.
unfoldable pub build_from : (last : ℕ) → List (Ptr × Ptr) → List ℕ → Queue → M (Option Queue)
build_from last supply [] mt = pure (some mt)
build_from last [] (c ∷ cs) mt = pure none
build_from last ((cptr, new_node) ∷ supply) (c ∷ cs) mt =
    let parts = until_slash (c ∷ cs) in
    let added = (do
      store cptr (bytes (parts.0 ++ last ∷ []))
      r ← list_add_element new_node cptr mt
      build_from last supply parts.1 r.1) in
    if leb token_buffer_size (length parts.0) then fault else if cptr == 0 then pure none else added

abbrev pub build_token_q : ℕ → List (Ptr × Ptr) → List ℕ → M (Option Queue)
build_token_q last supply topic = build_from last supply topic list_new
