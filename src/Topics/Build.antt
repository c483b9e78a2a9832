-- ===== src/Topics/Build.antt =====
-- `build_token_q` of i5-6600k/lib-sources/build_token_q.c: a queue of the levels of a topic.
use pcon_tng.Prelude.{
  ℕ, ◌≡◌, ◌≢◌, ◌<◌, ◌≤◌, refl, ap, sym, ◌∙◌, subst, List, [], ◌∷◌, ◌++◌, map, Option, none, some,
  Bool, true, false, ◌||◌, ◌==◌, leb, arith, if◌then◌else◌, if-false, length,
}
use pcon_tng.Topics.{
  Heap, Ptr, Block, bytes, write, Queue, M, ◌>>=◌, pure, fault, store, ◌>>◌, until_slash,
  build_from, build_token_q, list_add_element, token_buffer_size,
}
use pcon_tng.Topics.Chain.{Cell, uses-append}
use pcon_tng.Topics.Fifo.{Cells, used_by, texts, added, IsQueue, empty, Added, list_add_element_lem}
use pcon_tng.Topics.Supply.{
  in_supply, IsFresh, Fresh, cons, frame-Fresh, free_in_Fresh, unused_IsQueue, frame-IsQueue,
}
use pcon_tng.Topics.Levels.{
  Level, topic, last_text, levels, until_slash-slash, until_slash-end, slash_some,
}

-- One round: the token is stored and queued.
record Round (h : Heap) (p : List ℕ) (q : Queue) (cells : Cells) (l : Level) (t a : Ptr)
    (s : List (Ptr × Ptr)) (rest : List ℕ) : Type 0 where
  q' : Queue
  h' : Heap
  runs : build_from 0 ((t, a) ∷ s) p q h ≡ build_from 0 s rest q' h'
  holds : IsQueue h' q' (added cells (record { addr = a; token = t; text = l.text }))
  fresh : Fresh h' s

-- The body of the loop, by what the inner loops find.
abbrev body : Ptr → Ptr → List (Ptr × Ptr) → Queue → List ℕ × List ℕ → M (Option Queue)
body t a s q parts =
    let added = (do
      store t (bytes (parts.0 ++ 0 ∷ []))
      r ← list_add_element a t q
      build_from 0 s parts.1 r.1) in
    if leb token_buffer_size (length parts.0) then fault else if t == 0 then pure none else added

build_from-body :
    (t a : Ptr) (s : List (Ptr × Ptr)) (p : List ℕ) (q : Queue)
    → 0 < length p
    → build_from 0 ((t, a) ∷ s) p q ≡ body t a s q (until_slash p)
unfolding build_from
build_from-body t a s [] q some_bytes = absurd (omega arith)
build_from-body t a s (c ∷ cs) q some_bytes = refl

body_runs :
    (t a : Ptr) (s : List (Ptr × Ptr)) (q q' : Queue) (h h' : Heap) (text rest : List ℕ) (ok : Bool)
    → t ≢ 0
    → length text < token_buffer_size
    → list_add_element a t q (write h t (some (bytes (text ++ 0 ∷ [])))) ≡ some ((ok, q'), h')
    → body t a s q (text, rest) h ≡ build_from 0 s rest q' h'
body_runs t a s q q' h h' text rest ok ne short runs =
    let long : leb token_buffer_size (length text) ≡ false = ground arith in
    let null : (t == 0) ≡ false = ground arith in rw (long, null, ◌>>=◌, runs) refl

used_by-added :
    (x : Ptr) (cells : Cells) (new : Cell)
    → used_by x (added cells new) ≡ ((x == new.addr || x == new.token) || used_by x cells)
used_by-added x none new = refl
used_by-added x (some (cs, z)) new = ground (arith, uses-append x cs (z ∷ []))

spare :
    (h h' : Heap) (t a x : Ptr) (s : List (Ptr × Ptr)) (cells : Cells) (b : Block) (new : Cell)
    → IsFresh h t a s
    → new.addr ≡ a
    → new.token ≡ t
    → ((y : Ptr) → used_by y (added cells new) ≡ false → h' y ≡ write h t (some b) y)
    → used_by x cells ≡ false
    → in_supply x s ≡ true
    → h' x ≡ h x
spare h h' t a x s cells b new k ea et same out u =
    let not_token : (x == t) ≡ false = ground (arith, k.token_once) in
    let not_addr : (x == a) ≡ false = ground (arith, k.addr_once) in
    same x (used_by-added x cells new ∙ ground arith) ∙ if-false (x == t) (some b) (h x) not_token

build_from-Round :
    {h : Heap} {q : Queue} {cells : Cells} {t a : Ptr} {s : List (Ptr × Ptr)} (l : Level)
    (p rest : List ℕ)
    → 0 < length p
    → until_slash p ≡ (l.text, rest)
    → IsQueue h q cells
    → IsFresh h t a s
    → Fresh h s
    → Round h p q cells l t a s rest
build_from-Round {h} {q} {cells} {t} {a} {s} l p rest some_bytes parts is k fresh = go (
    list_add_element_lem new
      (frame-IsQueue is (λ x u. ground (arith, unused_IsQueue t is k.free_token)))
      (record {
        addr_ne = k.addr_ne;
        token_ne = k.token_ne;
        free_addr = ground (arith, k.free_addr, k.apart);
        text_at = ground arith;
        text_ok = l.no_nul;
        unused_token = unused_IsQueue t is k.free_token;
      }))
  where
    new : Cell
    new = record { addr = a; token = t; text = l.text }

    go :
        Added (write h t (some (bytes (l.text ++ 0 ∷ [])))) q cells new
        → Round h p q cells l t a s rest
    go step = record {
      q' = step.q';
      h' = step.h';
      runs =
          ap (λ m. m h) (build_from-body t a s p q some_bytes)
          ∙ ap (λ parts. body t a s q parts h) parts
          ∙ body_runs t a s q step.q' h step.h' l.text rest true k.token_ne l.short step.runs;
      holds = step.holds;
      fresh = frame-Fresh fresh (λ x u.
          spare h step.h' t a x s cells (bytes (l.text ++ 0 ∷ [])) new k refl refl step.spares
            (unused_IsQueue x is (free_in_Fresh x fresh u)) u);
    }

-- The tokens that are queued behind others.
texts-added : (cells : Cells) (new : Cell) → texts (added cells new) ≡ texts cells ++ new.text ∷ []
texts-added none new = refl
texts-added (some (cs, z)) new = ap (λ l. l ++ new.text ∷ []) (map-snoc cs z)
  where
    map-snoc :
        (cs : List Cell) (z : Cell)
        → map (λ c. c.text) (cs ++ z ∷ []) ≡ map (λ c. c.text) cs ++ z.text ∷ []
    map-snoc [] z = refl
    map-snoc (c ∷ cs) z = ap (λ l. c.text ∷ l) (map-snoc cs z)

-- A queue that is built, and what it holds.
pub record Built (h : Heap) (run : Option (Option Queue × Heap)) (tokens : List (List ℕ))
    : Type 0 where
  pub q' : Queue
  pub h' : Heap
  pub cells : Cells
  pub runs : run ≡ some (some q', h')
  pub holds : IsQueue h' q' cells
  pub tokens_are : texts cells ≡ tokens

assoc : (xs ys zs : List (List ℕ)) → (xs ++ ys) ++ zs ≡ xs ++ (ys ++ zs)
assoc [] ys zs = refl
assoc (x ∷ xs) ys zs = ap (λ l. x ∷ l) (assoc xs ys zs)

nil_right : (xs : List (List ℕ)) → xs ++ [] ≡ xs
nil_right [] = refl
nil_right (x ∷ xs) = ap (λ l. x ∷ l) (nil_right xs)

end_of_topic :
    (supply : List (Ptr × Ptr)) (q : Queue) (h : Heap)
    → build_from 0 supply [] q h ≡ some (some q, h)
unfolding build_from
end_of_topic [] q h = refl
end_of_topic (p ∷ supply) q h = refl

-- After one round, the rest.
after-Round :
    {h : Heap} {p : List ℕ} {q : Queue} {cells : Cells} {l : Level} {t a : Ptr}
    {s : List (Ptr × Ptr)} {rest : List ℕ} (more : List (List ℕ))
    → (r : Round h p q cells l t a s rest)
    → Built r.h'
        (build_from 0 s rest r.q' r.h')
        (texts (added cells (record { addr = a; token = t; text = l.text })) ++ more)
    → Built h (build_from 0 ((t, a) ∷ s) p q h) (texts cells ++ l.text ∷ more)
after-Round {cells} {l} {t} {a} more r b = record {
  q' = b.q';
  h' = b.h';
  cells = b.cells;
  runs = r.runs ∙ b.runs;
  holds = b.holds;
  tokens_are =
      b.tokens_are
      ∙ ap (λ x. x ++ more) (texts-added cells (record { addr = a; token = t; text = l.text }))
      ∙ assoc (texts cells) (l.text ∷ []) more;
}

end_of_topic-Built :
    {h : Heap} {q : Queue} {cells : Cells} (supply : List (Ptr × Ptr))
    → IsQueue h q cells
    → Built h (build_from 0 supply [] q h) (texts cells ++ [])
end_of_topic-Built {h} {q} {cells} supply is = record {
  q' = q;
  h' = h;
  cells = cells;
  runs = end_of_topic supply q h;
  holds = is;
  tokens_are = sym (nil_right (texts cells));
}

build_last :
    (last : Level) (text : List ℕ) (supply : List (Ptr × Ptr)) {h : Heap} {q : Queue}
    {cells : Cells}
    → last.text ≡ text
    → IsQueue h q cells
    → Fresh h supply
    → length (last_text text) ≤ length supply
    → Built h (build_from 0 supply text q h) (texts cells ++ last_text text)
build_last last [] supply same is fresh room = end_of_topic-Built supply is
build_last last (c ∷ cs) [] same is fresh room = absurd (omega (arith, room))
build_last last (c ∷ cs) ((t, a) ∷ s) {h} {q} {cells} same is (cons k fresh) room =
    let r =
      build_from-Round last (c ∷ cs) [] (omega arith)
        (ap until_slash (sym same) ∙ until_slash-end last.text last.no_slash) is k fresh in
    subst (λ text. Built h (build_from 0 ((t, a) ∷ s) (c ∷ cs) q h) (texts cells ++ text ∷ [])) same
      (after-Round [] r (end_of_topic-Built s r.holds))

build_levels :
    (ls : List Level) (last : Level) (supply : List (Ptr × Ptr)) {h : Heap} {q : Queue}
    {cells : Cells}
    → IsQueue h q cells
    → Fresh h supply
    → length (levels ls last) ≤ length supply
    → Built h (build_from 0 supply (topic ls last) q h) (texts cells ++ levels ls last)
build_levels [] last supply is fresh room = build_last last last.text supply refl is fresh room
build_levels (l ∷ ls) last [] is fresh room = absurd (omega (arith, room))
build_levels (l ∷ ls) last ((t, a) ∷ s) is (cons k fresh) room =
    let r =
      build_from-Round l (l.text ++ b'/' ∷ topic ls last) (topic ls last)
        (slash_some l.text (topic ls last)) (until_slash-slash l.text (topic ls last) l.no_slash) is
        k fresh in
    after-Round (levels ls last) r (build_levels ls last s r.holds r.fresh (omega (arith, room)))

-- A topic of levels that fit the token buffer, with an address from `malloc` for each token and each
-- node: if the byte behind each copied token is NUL, the queue is built and holds the levels in
-- their order, an empty last one left out.
pub build_token_q-levels :
    (ls : List Level) (last : Level) (supply : List (Ptr × Ptr)) (h : Heap)
    → Fresh h supply
    → length (levels ls last) ≤ length supply
    → Built h (build_token_q 0 supply (topic ls last) h) (levels ls last)
build_token_q-levels ls last supply h fresh room = build_levels ls last supply empty fresh room
