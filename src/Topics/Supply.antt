-- ===== src/Topics/Supply.antt =====
-- What `malloc` yields to `build_token_q` of i5-6600k/lib-sources/build_token_q.c.
use pcon_tng.Prelude.{
  ◌≡◌, ◌≢◌, refl, ◌∙◌, List, [], ◌∷◌, none, Bool, true, false, ◌||◌, ◌==◌, arith,
}
use pcon_tng.Topics.{Heap, Ptr, Queue}
use pcon_tng.Topics.Chain.{frame, frame-IsCell, unused}
use pcon_tng.Topics.Fifo.{Cells, used_by, IsQueue, empty, filled}

abbrev pub in_supply : Ptr → List (Ptr × Ptr) → Bool
in_supply x [] = false
in_supply x ((t, a) ∷ s) = (x == t || x == a) || in_supply x s

-- What `malloc` may yield: addresses that are not allocated, no two of them equal.
pub record IsFresh (h : Heap) (t a : Ptr) (s : List (Ptr × Ptr)) : Type 0 where
  pub token_ne : t ≢ 0
  pub addr_ne : a ≢ 0
  pub apart : t ≢ a
  pub free_token : h t ≡ none
  pub free_addr : h a ≡ none
  pub token_once : in_supply t s ≡ false
  pub addr_once : in_supply a s ≡ false

pub data Fresh (h : Heap) : List (Ptr × Ptr) → Type 0 where
  nil : Fresh h []
  cons : {t a : Ptr} {s : List (Ptr × Ptr)} → IsFresh h t a s → Fresh h s → Fresh h ((t, a) ∷ s)

pub frame-Fresh :
    {h g : Heap} {s : List (Ptr × Ptr)}
    → Fresh h s
    → ((x : Ptr) → in_supply x s ≡ true → g x ≡ h x)
    → Fresh g s
frame-Fresh nil same = nil
frame-Fresh (cons {t} {a} k rest) same =
    cons
      (record {
        token_ne = k.token_ne;
        addr_ne = k.addr_ne;
        apart = k.apart;
        free_token = same t (ground arith) ∙ k.free_token;
        free_addr = same a (ground arith) ∙ k.free_addr;
        token_once = k.token_once;
        addr_once = k.addr_once;
      })
      (frame-Fresh rest (λ x u. same x (ground arith)))

pub free_in_Fresh :
    {h : Heap} {s : List (Ptr × Ptr)} (x : Ptr) → Fresh h s → in_supply x s ≡ true → h x ≡ none
free_in_Fresh x nil u = absurd (ground arith)
free_in_Fresh x (cons {t} {a} {s} k rest) u =
    ground (arith, k.free_token, k.free_addr, free_in_Fresh x rest)

pub unused_IsQueue :
    {h : Heap} {q : Queue} {cells : Cells} (x : Ptr)
    → IsQueue h q cells
    → h x ≡ none
    → used_by x cells ≡ false
unused_IsQueue x empty e = refl
unused_IsQueue x (filled {z} chain last out out') e =
    ground (arith, last.node_at, last.text_at, unused x chain e)

pub frame-IsQueue :
    {h g : Heap} {q : Queue} {cells : Cells}
    → IsQueue h q cells
    → ((x : Ptr) → used_by x cells ≡ true → g x ≡ h x)
    → IsQueue g q cells
frame-IsQueue empty same = empty
frame-IsQueue (filled {z} chain last out out') same =
    filled (frame chain (λ x u. same x (ground arith)))
      (frame-IsCell last (same z.addr (ground arith)) (same z.token (ground arith))) out out'
