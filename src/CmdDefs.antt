-- ===== src/CmdDefs.antt =====
-- BBB/lib-sources/cmd_defs.c, with the list that `c_1` of cmd_fsm.c prints: the texts of the
-- commands by state and token.
pub mod Texts
pub mod Help
pub mod Tests
use Prim.Native.String.{String}
use pcon_tng.Prelude.{
  ℕ, zero, suc, List, [], ◌∷◌, Option, none, some, Bool, true, false, get_elem?, if◌then◌else◌,
}
use pcon_tng.TypeDefs.{cmd_tokens}
use pcon_tng.CmdFsm.Tables.{
  Action, c_0, c_1, c_2, c_3, c_6, c_7, c_8, c_34, c_55, c_56, c_57, c_58, c_66, action_at,
}
use pcon_tng.CmdFsm.Tokens.{keyword_at}
use pcon_tng.CmdDefs.Texts.{
  state_0_texts, state_1_texts, common_texts, state_4_texts, state_13_texts, state_21_texts,
}

-- The rows that are initialised.
abbrev pub keyword_defs : List (List String)
keyword_defs =
    state_0_texts ∷ state_1_texts ∷ common_texts ∷ common_texts ∷ state_4_texts ∷ common_texts
    ∷ common_texts ∷ common_texts ∷ common_texts ∷ common_texts ∷ common_texts ∷ common_texts
    ∷ common_texts ∷ state_13_texts ∷ common_texts ∷ common_texts ∷ common_texts ∷ common_texts
    ∷ common_texts ∷ common_texts ∷ common_texts ∷ state_21_texts ∷ common_texts ∷ common_texts
    ∷ common_texts ∷ common_texts ∷ common_texts ∷ []

-- Rows and cells that are not initialised are NULL.
abbrev pub text_in : Option (List String) → ℕ → Option String
text_in none token = none
text_in (some texts) token = get_elem? texts token

unfoldable pub cmd_def : ℕ → ℕ → Option String
cmd_def state token = text_in (get_elem? keyword_defs state) token

-- The routines that `c_1` leaves out of its list; `c_26`, too, which no table entry names.
abbrev pub is_hidden : Action → Bool
is_hidden c_0 = true
is_hidden c_1 = true
is_hidden c_2 = true
is_hidden c_3 = true
is_hidden c_6 = true
is_hidden c_7 = true
is_hidden c_8 = true
is_hidden c_34 = true
is_hidden c_55 = true
is_hidden c_56 = true
is_hidden c_57 = true
is_hidden c_58 = true
is_hidden c_66 = true
is_hidden _ = false

-- The list that `c_1` prints, from token `i` with `n` left: the keyword and the text of each.
unfoldable pub help_from : ℕ → ℕ → ℕ → List (List ℕ × Option String)
help_from state i zero = []
help_from state i (suc n) =
    let rest = help_from state (suc i) n in
    if is_hidden (action_at i state) then rest else (keyword_at i, cmd_def state i) ∷ rest

unfoldable pub help : ℕ → List (List ℕ × Option String)
unfolding help_from
help state = help_from state 0 cmd_tokens
