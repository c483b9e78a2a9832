-- ===== src/CmdDefs/Tests.antt =====
-- The list of commands for a channel and for a sensor that is edited.
use pcon_tng.Prelude.{◌≡◌, refl, [], ◌∷◌, some, none, true, arith, length, get_elem?}
use pcon_tng.CmdFsm.Tokens.{keyword_at}
use pcon_tng.CmdDefs.{cmd_def, help, help_from}
use pcon_tng.CmdDefs.Help.{is_null, help-texts}

-- In state 30 the last of the four commands is `slist`, and its text is NULL.
last_of_four :
    (length (help 30) ≡ 4)
    × (get_elem? (help 30) 3 ≡ some (b's' ∷ b'l' ∷ b'i' ∷ b's' ∷ b't' ∷ [], none))
unfolding help help_from cmd_def keyword_at
last_of_four = (refl, refl)

help-texts_example : is_null none ≡ true
help-texts_example =
    help-texts 30 3 (b's' ∷ b'l' ∷ b'i' ∷ b's' ∷ b't' ∷ [], none) (omega arith) refl last_of_four.1
