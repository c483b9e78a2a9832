-- ===== src/Topics/Chain.antt =====
-- The nodes and tokens that a queue of i5-6600k/lib-sources/fifo_q.c owns.
use pcon_tng.Prelude.{
  ℕ, ◌≡◌, ◌≢◌, refl, ◌∙◌, List, [], ◌∷◌, ◌++◌, none, some, Bool, true, false, not, ◌||◌, ◌==◌,
  arith,
}
use pcon_tng.CharFsm.Words.{every}
use pcon_tng.Topics.{Ptr, node, bytes, Heap, terminated}

-- A node, its token's block, and the token.
pub record Cell : Type 0 where
  pub addr : Ptr
  pub token : Ptr
  pub text : List ℕ

abbrev pub uses : Ptr → List Cell → Bool
uses a [] = false
uses a (c ∷ cs) = (a == c.addr || a == c.token) || uses a cs

abbrev pub is_text : ℕ → Bool
is_text c = not (c == 0)

-- The node at an address with its successor, and its token with a NUL behind it.
pub record IsCell (h : Heap) (c : Cell) (next : Ptr) : Type 0 where
  pub addr_ne : c.addr ≢ 0
  pub token_ne : c.token ≢ 0
  pub apart : c.addr ≢ c.token
  pub node_at : h c.addr ≡ some (node c.token next)
  pub text_at : h c.token ≡ some (bytes (c.text ++ 0 ∷ []))
  pub text_ok : every is_text c.text ≡ true

-- From an address the successors lead through the cells, which share nothing, to `stop`.
pub data Chain (h : Heap) (stop : Ptr) : Ptr → List Cell → Type 0 where
  nil : Chain h stop stop []
  cons :
      {c : Cell} {next : Ptr} {cs : List Cell}
      → IsCell h c next
      → uses c.addr cs ≡ false
      → uses c.token cs ≡ false
      → Chain h stop next cs
      → Chain h stop c.addr (c ∷ cs)

pub terminated-text : (s : List ℕ) → every is_text s ≡ true → terminated (s ++ 0 ∷ []) ≡ some s
terminated-text [] h = refl
terminated-text (c ∷ s) h = ground (arith, terminated-text s)

pub frame-IsCell :
    {h g : Heap} {c : Cell} {next : Ptr}
    → IsCell h c next
    → g c.addr ≡ h c.addr
    → g c.token ≡ h c.token
    → IsCell g c next
frame-IsCell k a t = record {
  addr_ne = k.addr_ne;
  token_ne = k.token_ne;
  apart = k.apart;
  node_at = a ∙ k.node_at;
  text_at = t ∙ k.text_at;
  text_ok = k.text_ok;
}

module _ {h : Heap} where
  -- A chain survives every change that spares its cells.
  pub frame :
      {g : Heap} {stop p : Ptr} {cs : List Cell}
      → Chain h stop p cs
      → ((a : Ptr) → uses a cs ≡ true → g a ≡ h a)
      → Chain g stop p cs
  frame nil same = nil
  frame (cons {c} k out out' rest) same =
      cons (frame-IsCell k (same c.addr (ground arith)) (same c.token (ground arith))) out out'
        (frame rest (λ a u. same a (ground arith)))

  -- What is not allocated is in no chain.
  pub unused :
      {stop p : Ptr} {cs : List Cell} (a : Ptr) → Chain h stop p cs → h a ≡ none → uses a cs ≡ false
  unused a nil e = refl
  unused a (cons {c} k out out' rest) e = ground (arith, k.node_at, k.text_at, unused a rest e)

pub uses-append : (a : Ptr) (cs ds : List Cell) → uses a (cs ++ ds) ≡ (uses a cs || uses a ds)
uses-append a [] ds = refl
uses-append a (c ∷ cs) ds = ground (arith, uses-append a cs ds)

module _ {h : Heap} where
  -- One more cell at the end of a chain.
  pub snoc :
      (z : Cell) {p next : Ptr} {cs : List Cell}
      → Chain h z.addr p cs
      → IsCell h z next
      → uses z.addr cs ≡ false
      → uses z.token cs ≡ false
      → Chain h next p (cs ++ z ∷ [])
  snoc z nil k out out' = cons k refl refl nil
  snoc z (cons {c} {cs = cs} l a b rest) k out out' =
      cons l (ground (arith, uses-append c.addr cs (z ∷ [])))
        (ground (arith, uses-append c.token cs (z ∷ [])))
        (snoc z rest k (ground arith) (ground arith))
