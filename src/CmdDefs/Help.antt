-- ===== src/CmdDefs/Help.antt =====
-- What `c_1` of BBB/lib-sources/cmd_fsm.c prints behind the commands that it lists.
use Prim.Native.String.{String}
use pcon_tng.Prelude.{
  ℕ, zero, suc, ◌+◌, ◌≤◌, ◌<◌, ◌≡◌, refl, List, ◌∷◌, Option, none, some, Bool, true, false, not,
  ◌||◌, ltb, if◌then◌else◌, if-elim, arith, get_elem?, subst,
}
use pcon_tng.Prelude.Below.{all_below, all_below-at}
use pcon_tng.TypeDefs.{cmd_tokens, cmd_states}
use pcon_tng.CmdFsm.Tables.{action_at}
use pcon_tng.CmdFsm.Tokens.{keyword_at}
use pcon_tng.CmdFsm.Reach.{reachable}
use pcon_tng.CmdDefs.{cmd_def, is_hidden, help_from, help}

abbrev pub is_null : Option String → Bool
is_null none = true
is_null (some t) = false

-- A command that is listed in a state that can be reached has a text up to state 26 only.
abbrev text_as_said : ℕ → ℕ → Bool
text_as_said state token =
    not (reachable state)
    || is_hidden (action_at token state)
    || (if ltb 26 state then is_null (cmd_def state token) else not (is_null (cmd_def state token)))

all_texts : all_below cmd_states (λ state. all_below cmd_tokens (text_as_said state)) ≡ true
unfolding all_below cmd_def
all_texts = refl

listed_text :
    (state token : ℕ)
    → state < cmd_states
    → token < cmd_tokens
    → reachable state ≡ true
    → is_hidden (action_at token state) ≡ false
    → is_null (cmd_def state token) ≡ ltb 26 state
listed_text state token s t can listed =
    decide (reachable state) (is_hidden (action_at token state)) (ltb 26 state)
      (is_null (cmd_def state token)) can listed
      (all_below-at cmd_tokens (text_as_said state)
        (all_below-at cmd_states (λ state. all_below cmd_tokens (text_as_said state)) all_texts
          state s)
        token t)
  where
    decide :
        (r h l n : Bool)
        → r ≡ true
        → h ≡ false
        → (not r || h || (if l then n else not n)) ≡ true
        → n ≡ l
    decide r h l n can listed said = ground arith

-- Each entry of a list has a text up to state 26, and NULL from state 27 on.
abbrev Texts : ℕ → List (List ℕ × Option String) → Type 0
Texts state entries =
    (k : ℕ) (entry : List ℕ × Option String)
    → get_elem? entries k ≡ some entry
    → is_null entry.1 ≡ ltb 26 state

Texts-cons :
    (state : ℕ) (e : List ℕ × Option String) (entries : List (List ℕ × Option String))
    → is_null e.1 ≡ ltb 26 state
    → Texts state entries
    → Texts state (e ∷ entries)
Texts-cons state e entries h rest zero entry at =
    let same : e ≡ entry = cc at in subst (λ x. is_null x.1 ≡ ltb 26 state) same h
Texts-cons state e entries h rest (suc k) entry at = rest k entry at

help_from-Texts :
    (state i n : ℕ)
    → state < cmd_states
    → i + n ≤ cmd_tokens
    → reachable state ≡ true
    → Texts state (help_from state i n)
unfolding help_from
help_from-Texts state i zero s within can = λ k entry at. absurd (cc at)
help_from-Texts state i (suc n) s within can =
    let rest = help_from-Texts state (suc i) n s (omega (arith, within)) can in
    if-elim (Texts state) (is_hidden (action_at i state)) (help_from state (suc i) n)
      ((keyword_at i, cmd_def state i) ∷ help_from state (suc i) n) (λ _. rest)
      (λ listed.
        Texts-cons state (keyword_at i, cmd_def state i) (help_from state (suc i) n)
          (listed_text state i s (omega (arith, within)) can listed) rest)

-- In a state that can be reached, each command that `?` lists has a text, if the state is at most
-- 26; from state 27 on, each has NULL in the place of its text.
pub help-texts :
    (state k : ℕ) (entry : List ℕ × Option String)
    → state < cmd_states
    → reachable state ≡ true
    → get_elem? (help state) k ≡ some entry
    → is_null entry.1 ≡ ltb 26 state
unfolding help
help-texts state k entry s can at =
    help_from-Texts state 0 cmd_tokens s (omega arith) can k entry at
