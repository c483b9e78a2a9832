-- ===== src/CmdFsm/Tables.antt =====
-- BBB/lib-sources/cmd_fsm.c: the keywords and the two tables of the command processor, row by
-- row. A string is its bytes up to the NUL.
use pcon_tng.Prelude.{ℕ, List, [], ◌∷◌, get_or}

-- The action routines that the table names.
pub data Action : Type 0 where
  c_0 c_1 c_2 c_3 c_4 c_5 c_6 c_7 c_8 c_9 c_10 c_11 c_12 c_13 c_14 c_16 c_17 c_18 c_19 c_20 c_21
        c_22 c_23 c_24 c_25 c_27 c_28 c_29 c_30 c_31 c_32 c_33 c_34 c_37 c_38 c_39 c_40 c_41 c_42
        c_43 c_44 c_45 c_46 c_47 c_48 c_49 c_50 c_51 c_52 c_53 c_55 c_56 c_57 c_58 c_59 c_61 c_63
        c_65 c_66 c_68 c_69 c_70 c_71 c_72 c_73 c_74 c_75 c_76 :
      Action

abbrev pub keyword : List (List ℕ)
keyword =
    (b't' ∷ b'e' ∷ b'm' ∷ b'p' ∷ [])
    ∷ (b'*' ∷ [])
    ∷ (b'h' ∷ b'u' ∷ b'm' ∷ b'i' ∷ b'd' ∷ [])
    ∷ (b's' ∷ b'c' ∷ b'h' ∷ b'e' ∷ b'd' ∷ b'u' ∷ b'l' ∷ b'e' ∷ [])
    ∷ (b'?' ∷ [])
    ∷ (b'd' ∷ b'i' ∷ b's' ∷ b'p' ∷ b'l' ∷ b'a' ∷ b'y' ∷ [])
    ∷ (b'y' ∷ b'e' ∷ b's' ∷ [])
    ∷ (b'c' ∷ b'a' ∷ b'n' ∷ b'c' ∷ b'e' ∷ b'l' ∷ [])
    ∷ (b'r' ∷ b'e' ∷ b'p' ∷ b'l' ∷ b'a' ∷ b'c' ∷ b'e' ∷ [])
    ∷ (b's' ∷ b'e' ∷ b'd' ∷ b'i' ∷ b't' ∷ [])
    ∷ (b'd' ∷ b'e' ∷ b'l' ∷ b'e' ∷ b't' ∷ b'e' ∷ [])
    ∷ (b'a' ∷ b'c' ∷ b't' ∷ b'i' ∷ b'v' ∷ b'e' ∷ [])
    ∷ (b'o' ∷ b'n' ∷ [])
    ∷ (b'o' ∷ b'f' ∷ b'f' ∷ [])
    ∷ (b'c' ∷ b'l' ∷ b'e' ∷ b'a' ∷ b'r' ∷ [])
    ∷ (b's' ∷ b't' ∷ b'a' ∷ b't' ∷ b'u' ∷ b's' ∷ [])
    ∷ (b't' ∷ b'i' ∷ b'm' ∷ b'e' ∷ [])
    ∷ (b's' ∷ b'e' ∷ b'n' ∷ b's' ∷ b'o' ∷ b'r' ∷ [])
    ∷ (b'c' ∷ b'y' ∷ b'c' ∷ b'l' ∷ b'e' ∷ [])
    ∷ (b'i' ∷ b'p' ∷ b'c' ∷ [])
    ∷ (b's' ∷ b'h' ∷ b'o' ∷ b'w' ∷ [])
    ∷ (b's' ∷ b'a' ∷ b'v' ∷ b'e' ∷ [])
    ∷ (b't' ∷ b'e' ∷ b'm' ∷ b'p' ∷ b'l' ∷ b'a' ∷ b't' ∷ b'e' ∷ [])
    ∷ (b'h' ∷ b'i' ∷ b'd' ∷ b'e' ∷ [])
    ∷ (b'l' ∷ b'o' ∷ b'a' ∷ b'd' ∷ [])
    ∷ (b's' ∷ b'e' ∷ b't' ∷ [])
    ∷ (b'q' ∷ [])
    ∷ (b'd' ∷ b'o' ∷ b'n' ∷ b'e' ∷ [])
    ∷ (b'b' ∷ b'a' ∷ b'c' ∷ b'k' ∷ [])
    ∷ (b's' ∷ b'y' ∷ b's' ∷ b't' ∷ b'e' ∷ b'm' ∷ [])
    ∷ (b'c' ∷ b'h' ∷ b'a' ∷ b'n' ∷ b'n' ∷ b'e' ∷ b'l' ∷ [])
    ∷ (b's' ∷ b's' ∷ b'c' ∷ b'h' ∷ [])
    ∷ (b'w' ∷ b's' ∷ b'c' ∷ b'h' ∷ [])
    ∷ (b's' ∷ b'l' ∷ b'i' ∷ b'b' ∷ [])
    ∷ (b't' ∷ b'l' ∷ b'i' ∷ b'b' ∷ [])
    ∷ (b'I' ∷ b'N' ∷ b'T' ∷ [])
    ∷ (b'S' ∷ b'T' ∷ b'R' ∷ [])
    ∷ (b'O' ∷ b'T' ∷ b'H' ∷ b'E' ∷ b'R' ∷ [])
    ∷ (b's' ∷ b'l' ∷ b'i' ∷ b's' ∷ b't' ∷ [])
    ∷ (b'g' ∷ b'r' ∷ b'o' ∷ b'u' ∷ b'p' ∷ [])
    ∷ (b'd' ∷ b'e' ∷ b's' ∷ b'c' ∷ b'r' ∷ b'i' ∷ b'p' ∷ b't' ∷ b'i' ∷ b'o' ∷ b'n' ∷ [])
    ∷ []

abbrev pub cmd_new_state : List (List ℕ)
cmd_new_state =
    (0 ∷ 1 ∷ 2 ∷ 3 ∷ 4 ∷ 5 ∷ 6 ∷ 7 ∷ 8 ∷ 9 ∷ 10 ∷ 11 ∷ 12 ∷ 13 ∷ 14 ∷ 15 ∷ 16 ∷ 17 ∷ 18 ∷ 19 ∷ 20
      ∷ 21 ∷ 0 ∷ 0 ∷ 26 ∷ 25 ∷ 26 ∷ 27 ∷ 28 ∷ 29 ∷ 30 ∷ 31 ∷ 32 ∷ 33 ∷ 34 ∷ [])
    ∷ (0 ∷ 1 ∷ 2 ∷ 3 ∷ 4 ∷ 9 ∷ 6 ∷ 8 ∷ 9 ∷ 4 ∷ 10 ∷ 11 ∷ 12 ∷ 13 ∷ 14 ∷ 15 ∷ 16 ∷ 17 ∷ 18 ∷ 19 ∷ 20
        ∷ 21 ∷ 0 ∷ 0 ∷ 24 ∷ 25 ∷ 26 ∷ 27 ∷ 28 ∷ 29 ∷ 30 ∷ 31 ∷ 32 ∷ 33 ∷ 34 ∷ [])
    ∷ (0 ∷ 1 ∷ 2 ∷ 3 ∷ 4 ∷ 0 ∷ 6 ∷ 0 ∷ 8 ∷ 9 ∷ 10 ∷ 11 ∷ 12 ∷ 13 ∷ 14 ∷ 15 ∷ 16 ∷ 17 ∷ 18 ∷ 19 ∷ 20
        ∷ 21 ∷ 0 ∷ 0 ∷ 27 ∷ 25 ∷ 26 ∷ 27 ∷ 28 ∷ 29 ∷ 30 ∷ 31 ∷ 32 ∷ 33 ∷ 34 ∷ [])
    ∷ (4 ∷ 1 ∷ 2 ∷ 3 ∷ 4 ∷ 0 ∷ 11 ∷ 23 ∷ 8 ∷ 9 ∷ 10 ∷ 11 ∷ 28 ∷ 13 ∷ 14 ∷ 15 ∷ 16 ∷ 17 ∷ 18 ∷ 19
        ∷ 20 ∷ 21 ∷ 0 ∷ 0 ∷ 24 ∷ 25 ∷ 26 ∷ 27 ∷ 28 ∷ 29 ∷ 30 ∷ 31 ∷ 32 ∷ 33 ∷ 34 ∷ [])
    ∷ (0 ∷ 1 ∷ 2 ∷ 3 ∷ 4 ∷ 5 ∷ 6 ∷ 7 ∷ 8 ∷ 9 ∷ 10 ∷ 11 ∷ 12 ∷ 13 ∷ 14 ∷ 15 ∷ 16 ∷ 17 ∷ 18 ∷ 19 ∷ 20
        ∷ 21 ∷ 22 ∷ 23 ∷ 24 ∷ 25 ∷ 26 ∷ 27 ∷ 28 ∷ 29 ∷ 30 ∷ 31 ∷ 32 ∷ 33 ∷ 34 ∷ [])
    ∷ (0 ∷ 1 ∷ 2 ∷ 3 ∷ 4 ∷ 5 ∷ 6 ∷ 7 ∷ 8 ∷ 9 ∷ 10 ∷ 11 ∷ 12 ∷ 13 ∷ 14 ∷ 15 ∷ 16 ∷ 17 ∷ 18 ∷ 19 ∷ 20
        ∷ 21 ∷ 22 ∷ 23 ∷ 24 ∷ 25 ∷ 26 ∷ 27 ∷ 28 ∷ 29 ∷ 13 ∷ 31 ∷ 32 ∷ 33 ∷ 34 ∷ [])
    ∷ (0 ∷ 1 ∷ 0 ∷ 3 ∷ 4 ∷ 0 ∷ 6 ∷ 0 ∷ 0 ∷ 0 ∷ 10 ∷ 11 ∷ 4 ∷ 13 ∷ 14 ∷ 15 ∷ 16 ∷ 17 ∷ 18 ∷ 19 ∷ 20
        ∷ 21 ∷ 22 ∷ 23 ∷ 24 ∷ 25 ∷ 26 ∷ 27 ∷ 28 ∷ 29 ∷ 30 ∷ 31 ∷ 32 ∷ 33 ∷ 34 ∷ [])
    ∷ (0 ∷ 0 ∷ 0 ∷ 0 ∷ 0 ∷ 0 ∷ 4 ∷ 4 ∷ 4 ∷ 4 ∷ 4 ∷ 4 ∷ 4 ∷ 0 ∷ 14 ∷ 15 ∷ 16 ∷ 17 ∷ 18 ∷ 19 ∷ 20 ∷ 21
        ∷ 22 ∷ 23 ∷ 8 ∷ 25 ∷ 8 ∷ 8 ∷ 28 ∷ 0 ∷ 0 ∷ 0 ∷ 0 ∷ 33 ∷ 34 ∷ [])
    ∷ (0 ∷ 1 ∷ 2 ∷ 3 ∷ 4 ∷ 5 ∷ 6 ∷ 0 ∷ 8 ∷ 9 ∷ 10 ∷ 11 ∷ 12 ∷ 13 ∷ 14 ∷ 15 ∷ 16 ∷ 17 ∷ 18 ∷ 19 ∷ 20
        ∷ 21 ∷ 22 ∷ 23 ∷ 24 ∷ 25 ∷ 26 ∷ 27 ∷ 28 ∷ 29 ∷ 30 ∷ 31 ∷ 32 ∷ 33 ∷ 34 ∷ [])
    ∷ (29 ∷ 1 ∷ 2 ∷ 3 ∷ 4 ∷ 5 ∷ 6 ∷ 7 ∷ 8 ∷ 9 ∷ 10 ∷ 11 ∷ 12 ∷ 13 ∷ 14 ∷ 15 ∷ 16 ∷ 17 ∷ 18 ∷ 19 ∷ 20
        ∷ 21 ∷ 22 ∷ 23 ∷ 24 ∷ 25 ∷ 26 ∷ 27 ∷ 28 ∷ 30 ∷ 30 ∷ 31 ∷ 32 ∷ 33 ∷ 34 ∷ [])
    ∷ (0 ∷ 1 ∷ 2 ∷ 3 ∷ 12 ∷ 5 ∷ 4 ∷ 7 ∷ 8 ∷ 9 ∷ 10 ∷ 11 ∷ 12 ∷ 13 ∷ 14 ∷ 15 ∷ 16 ∷ 17 ∷ 18 ∷ 19 ∷ 20
        ∷ 21 ∷ 22 ∷ 23 ∷ 4 ∷ 25 ∷ 26 ∷ 27 ∷ 28 ∷ 29 ∷ 0 ∷ 31 ∷ 32 ∷ 33 ∷ 34 ∷ [])
    ∷ (0 ∷ 1 ∷ 2 ∷ 3 ∷ 4 ∷ 5 ∷ 6 ∷ 7 ∷ 8 ∷ 9 ∷ 10 ∷ 11 ∷ 12 ∷ 13 ∷ 14 ∷ 15 ∷ 16 ∷ 17 ∷ 18 ∷ 19 ∷ 20
        ∷ 21 ∷ 22 ∷ 23 ∷ 24 ∷ 25 ∷ 26 ∷ 27 ∷ 28 ∷ 29 ∷ 30 ∷ 32 ∷ 32 ∷ 33 ∷ 34 ∷ [])
    ∷ (0 ∷ 0 ∷ 2 ∷ 3 ∷ 4 ∷ 5 ∷ 6 ∷ 7 ∷ 8 ∷ 9 ∷ 10 ∷ 11 ∷ 12 ∷ 30 ∷ 14 ∷ 15 ∷ 16 ∷ 17 ∷ 18 ∷ 19 ∷ 20
        ∷ 21 ∷ 22 ∷ 23 ∷ 4 ∷ 25 ∷ 26 ∷ 27 ∷ 28 ∷ 29 ∷ 30 ∷ 31 ∷ 32 ∷ 33 ∷ 34 ∷ [])
    ∷ (0 ∷ 0 ∷ 2 ∷ 3 ∷ 4 ∷ 5 ∷ 6 ∷ 7 ∷ 8 ∷ 9 ∷ 10 ∷ 11 ∷ 12 ∷ 30 ∷ 14 ∷ 15 ∷ 16 ∷ 17 ∷ 18 ∷ 19 ∷ 20
        ∷ 21 ∷ 22 ∷ 23 ∷ 4 ∷ 25 ∷ 26 ∷ 27 ∷ 28 ∷ 29 ∷ 30 ∷ 31 ∷ 32 ∷ 33 ∷ 34 ∷ [])
    ∷ (0 ∷ 1 ∷ 2 ∷ 3 ∷ 4 ∷ 5 ∷ 6 ∷ 7 ∷ 8 ∷ 9 ∷ 10 ∷ 11 ∷ 12 ∷ 13 ∷ 14 ∷ 15 ∷ 16 ∷ 17 ∷ 18 ∷ 19 ∷ 20
        ∷ 0 ∷ 22 ∷ 23 ∷ 24 ∷ 25 ∷ 26 ∷ 27 ∷ 28 ∷ 29 ∷ 30 ∷ 31 ∷ 32 ∷ 33 ∷ 34 ∷ [])
    ∷ (0 ∷ 1 ∷ 2 ∷ 3 ∷ 4 ∷ 5 ∷ 6 ∷ 7 ∷ 8 ∷ 9 ∷ 10 ∷ 11 ∷ 12 ∷ 13 ∷ 14 ∷ 15 ∷ 16 ∷ 17 ∷ 18 ∷ 19 ∷ 20
        ∷ 21 ∷ 22 ∷ 23 ∷ 24 ∷ 25 ∷ 26 ∷ 27 ∷ 28 ∷ 29 ∷ 30 ∷ 31 ∷ 32 ∷ 33 ∷ 34 ∷ [])
    ∷ (0 ∷ 0 ∷ 2 ∷ 3 ∷ 4 ∷ 5 ∷ 6 ∷ 7 ∷ 8 ∷ 9 ∷ 10 ∷ 11 ∷ 12 ∷ 13 ∷ 14 ∷ 15 ∷ 16 ∷ 17 ∷ 18 ∷ 19 ∷ 20
        ∷ 21 ∷ 22 ∷ 23 ∷ 24 ∷ 25 ∷ 26 ∷ 27 ∷ 28 ∷ 29 ∷ 30 ∷ 31 ∷ 32 ∷ 33 ∷ 34 ∷ [])
    ∷ (0 ∷ 0 ∷ 2 ∷ 3 ∷ 4 ∷ 5 ∷ 6 ∷ 7 ∷ 8 ∷ 9 ∷ 10 ∷ 11 ∷ 12 ∷ 13 ∷ 14 ∷ 15 ∷ 16 ∷ 17 ∷ 18 ∷ 19 ∷ 20
        ∷ 21 ∷ 0 ∷ 0 ∷ 24 ∷ 25 ∷ 26 ∷ 27 ∷ 28 ∷ 29 ∷ 30 ∷ 31 ∷ 32 ∷ 33 ∷ 34 ∷ [])
    ∷ (0 ∷ 2 ∷ 2 ∷ 3 ∷ 4 ∷ 5 ∷ 6 ∷ 7 ∷ 8 ∷ 9 ∷ 10 ∷ 11 ∷ 12 ∷ 13 ∷ 14 ∷ 15 ∷ 16 ∷ 17 ∷ 18 ∷ 19 ∷ 20
        ∷ 21 ∷ 0 ∷ 0 ∷ 24 ∷ 25 ∷ 26 ∷ 27 ∷ 28 ∷ 29 ∷ 30 ∷ 31 ∷ 32 ∷ 33 ∷ 34 ∷ [])
    ∷ (0 ∷ 1 ∷ 2 ∷ 3 ∷ 4 ∷ 5 ∷ 4 ∷ 4 ∷ 8 ∷ 9 ∷ 10 ∷ 11 ∷ 4 ∷ 13 ∷ 14 ∷ 15 ∷ 16 ∷ 17 ∷ 18 ∷ 19 ∷ 20
        ∷ 21 ∷ 0 ∷ 0 ∷ 24 ∷ 25 ∷ 26 ∷ 27 ∷ 28 ∷ 29 ∷ 30 ∷ 31 ∷ 32 ∷ 33 ∷ 34 ∷ [])
    ∷ (0 ∷ 0 ∷ 2 ∷ 3 ∷ 4 ∷ 5 ∷ 6 ∷ 7 ∷ 8 ∷ 9 ∷ 10 ∷ 11 ∷ 12 ∷ 13 ∷ 14 ∷ 15 ∷ 16 ∷ 17 ∷ 18 ∷ 19 ∷ 20
        ∷ 21 ∷ 0 ∷ 0 ∷ 24 ∷ 25 ∷ 26 ∷ 27 ∷ 28 ∷ 29 ∷ 31 ∷ 33 ∷ 32 ∷ 33 ∷ 34 ∷ [])
    ∷ (0 ∷ 1 ∷ 2 ∷ 3 ∷ 6 ∷ 5 ∷ 4 ∷ 5 ∷ 8 ∷ 9 ∷ 10 ∷ 11 ∷ 12 ∷ 13 ∷ 14 ∷ 15 ∷ 16 ∷ 17 ∷ 18 ∷ 19 ∷ 20
        ∷ 21 ∷ 22 ∷ 23 ∷ 24 ∷ 25 ∷ 26 ∷ 27 ∷ 28 ∷ 29 ∷ 29 ∷ 31 ∷ 32 ∷ 33 ∷ 34 ∷ [])
    ∷ (0 ∷ 1 ∷ 2 ∷ 3 ∷ 4 ∷ 5 ∷ 10 ∷ 22 ∷ 8 ∷ 9 ∷ 10 ∷ 11 ∷ 25 ∷ 13 ∷ 14 ∷ 15 ∷ 16 ∷ 17 ∷ 18 ∷ 19
        ∷ 20 ∷ 21 ∷ 0 ∷ 0 ∷ 24 ∷ 25 ∷ 26 ∷ 27 ∷ 28 ∷ 29 ∷ 30 ∷ 31 ∷ 32 ∷ 33 ∷ 34 ∷ [])
    ∷ (0 ∷ 0 ∷ 2 ∷ 3 ∷ 4 ∷ 5 ∷ 6 ∷ 7 ∷ 8 ∷ 9 ∷ 10 ∷ 11 ∷ 12 ∷ 13 ∷ 14 ∷ 15 ∷ 16 ∷ 17 ∷ 18 ∷ 19 ∷ 20
        ∷ 21 ∷ 0 ∷ 0 ∷ 24 ∷ 25 ∷ 26 ∷ 27 ∷ 28 ∷ 29 ∷ 32 ∷ 34 ∷ 32 ∷ 33 ∷ 34 ∷ [])
    ∷ (0 ∷ 1 ∷ 2 ∷ 3 ∷ 7 ∷ 5 ∷ 6 ∷ 7 ∷ 8 ∷ 9 ∷ 10 ∷ 11 ∷ 12 ∷ 13 ∷ 14 ∷ 15 ∷ 16 ∷ 17 ∷ 18 ∷ 19 ∷ 20
        ∷ 21 ∷ 0 ∷ 0 ∷ 24 ∷ 25 ∷ 26 ∷ 27 ∷ 28 ∷ 29 ∷ 30 ∷ 31 ∷ 32 ∷ 33 ∷ 34 ∷ [])
    ∷ (0 ∷ 1 ∷ 2 ∷ 3 ∷ 5 ∷ 5 ∷ 6 ∷ 7 ∷ 8 ∷ 9 ∷ 10 ∷ 11 ∷ 12 ∷ 13 ∷ 14 ∷ 15 ∷ 16 ∷ 17 ∷ 18 ∷ 19 ∷ 20
        ∷ 21 ∷ 22 ∷ 23 ∷ 24 ∷ 25 ∷ 26 ∷ 27 ∷ 28 ∷ 29 ∷ 30 ∷ 31 ∷ 32 ∷ 33 ∷ 34 ∷ [])
    ∷ (0 ∷ 1 ∷ 0 ∷ 0 ∷ 0 ∷ 0 ∷ 0 ∷ 0 ∷ 8 ∷ 9 ∷ 10 ∷ 11 ∷ 12 ∷ 13 ∷ 14 ∷ 15 ∷ 16 ∷ 17 ∷ 18 ∷ 19 ∷ 20
        ∷ 21 ∷ 22 ∷ 23 ∷ 24 ∷ 25 ∷ 26 ∷ 27 ∷ 28 ∷ 29 ∷ 30 ∷ 31 ∷ 32 ∷ 33 ∷ 34 ∷ [])
    ∷ (0 ∷ 0 ∷ 0 ∷ 0 ∷ 0 ∷ 0 ∷ 4 ∷ 0 ∷ 0 ∷ 0 ∷ 4 ∷ 6 ∷ 4 ∷ 0 ∷ 0 ∷ 0 ∷ 0 ∷ 0 ∷ 0 ∷ 0 ∷ 0 ∷ 0 ∷ 0 ∷ 0
        ∷ 0 ∷ 0 ∷ 4 ∷ 4 ∷ 28 ∷ 0 ∷ 0 ∷ 31 ∷ 32 ∷ 33 ∷ 34 ∷ [])
    ∷ (0 ∷ 0 ∷ 1 ∷ 2 ∷ 0 ∷ 4 ∷ 4 ∷ 4 ∷ 4 ∷ 5 ∷ 6 ∷ 6 ∷ 4 ∷ 30 ∷ 13 ∷ 14 ∷ 15 ∷ 16 ∷ 17 ∷ 18 ∷ 19 ∷ 1
        ∷ 7 ∷ 7 ∷ 8 ∷ 12 ∷ 24 ∷ 24 ∷ 12 ∷ 0 ∷ 29 ∷ 30 ∷ 30 ∷ 33 ∷ 34 ∷ [])
    ∷ (0 ∷ 1 ∷ 2 ∷ 3 ∷ 4 ∷ 5 ∷ 4 ∷ 4 ∷ 8 ∷ 9 ∷ 10 ∷ 11 ∷ 12 ∷ 13 ∷ 14 ∷ 15 ∷ 16 ∷ 17 ∷ 18 ∷ 19 ∷ 20
        ∷ 21 ∷ 22 ∷ 23 ∷ 24 ∷ 25 ∷ 26 ∷ 27 ∷ 28 ∷ 29 ∷ 30 ∷ 31 ∷ 32 ∷ 33 ∷ 34 ∷ [])
    ∷ (0 ∷ 1 ∷ 2 ∷ 3 ∷ 4 ∷ 5 ∷ 6 ∷ 7 ∷ 8 ∷ 9 ∷ 10 ∷ 11 ∷ 12 ∷ 13 ∷ 14 ∷ 15 ∷ 16 ∷ 17 ∷ 18 ∷ 19 ∷ 20
        ∷ 0 ∷ 22 ∷ 23 ∷ 24 ∷ 25 ∷ 26 ∷ 27 ∷ 28 ∷ 29 ∷ 30 ∷ 31 ∷ 32 ∷ 33 ∷ 34 ∷ [])
    ∷ (0 ∷ 1 ∷ 2 ∷ 3 ∷ 4 ∷ 5 ∷ 6 ∷ 7 ∷ 8 ∷ 9 ∷ 10 ∷ 11 ∷ 12 ∷ 13 ∷ 14 ∷ 15 ∷ 16 ∷ 17 ∷ 18 ∷ 19 ∷ 20
        ∷ 21 ∷ 22 ∷ 23 ∷ 24 ∷ 25 ∷ 26 ∷ 27 ∷ 28 ∷ 29 ∷ 30 ∷ 31 ∷ 32 ∷ 33 ∷ 34 ∷ [])
    ∷ (0 ∷ 1 ∷ 2 ∷ 3 ∷ 4 ∷ 5 ∷ 6 ∷ 7 ∷ 8 ∷ 9 ∷ 10 ∷ 11 ∷ 12 ∷ 13 ∷ 14 ∷ 15 ∷ 16 ∷ 17 ∷ 18 ∷ 19 ∷ 20
        ∷ 21 ∷ 22 ∷ 23 ∷ 24 ∷ 25 ∷ 26 ∷ 27 ∷ 28 ∷ 29 ∷ 30 ∷ 31 ∷ 32 ∷ 33 ∷ 34 ∷ [])
    ∷ (0 ∷ 1 ∷ 2 ∷ 3 ∷ 4 ∷ 5 ∷ 6 ∷ 7 ∷ 8 ∷ 9 ∷ 10 ∷ 11 ∷ 12 ∷ 13 ∷ 14 ∷ 15 ∷ 16 ∷ 17 ∷ 18 ∷ 19 ∷ 20
        ∷ 21 ∷ 22 ∷ 23 ∷ 24 ∷ 25 ∷ 26 ∷ 27 ∷ 28 ∷ 29 ∷ 30 ∷ 31 ∷ 32 ∷ 33 ∷ 34 ∷ [])
    ∷ (0 ∷ 1 ∷ 2 ∷ 3 ∷ 4 ∷ 5 ∷ 6 ∷ 7 ∷ 8 ∷ 9 ∷ 10 ∷ 11 ∷ 12 ∷ 13 ∷ 14 ∷ 15 ∷ 16 ∷ 17 ∷ 18 ∷ 19 ∷ 20
        ∷ 21 ∷ 22 ∷ 23 ∷ 24 ∷ 25 ∷ 26 ∷ 27 ∷ 28 ∷ 29 ∷ 30 ∷ 31 ∷ 32 ∷ 33 ∷ 34 ∷ [])
    ∷ (1 ∷ 1 ∷ 3 ∷ 0 ∷ 8 ∷ 9 ∷ 6 ∷ 21 ∷ 24 ∷ 4 ∷ 10 ∷ 11 ∷ 12 ∷ 14 ∷ 15 ∷ 16 ∷ 17 ∷ 18 ∷ 19 ∷ 20 ∷ 0
        ∷ 0 ∷ 4 ∷ 4 ∷ 24 ∷ 4 ∷ 4 ∷ 4 ∷ 28 ∷ 30 ∷ 31 ∷ 31 ∷ 32 ∷ 33 ∷ 34 ∷ [])
    ∷ (0 ∷ 0 ∷ 2 ∷ 3 ∷ 4 ∷ 5 ∷ 6 ∷ 7 ∷ 8 ∷ 9 ∷ 4 ∷ 4 ∷ 12 ∷ 13 ∷ 0 ∷ 0 ∷ 0 ∷ 0 ∷ 0 ∷ 0 ∷ 0 ∷ 21 ∷ 0
        ∷ 0 ∷ 24 ∷ 25 ∷ 26 ∷ 27 ∷ 28 ∷ 29 ∷ 30 ∷ 30 ∷ 30 ∷ 33 ∷ 34 ∷ [])
    ∷ (0 ∷ 1 ∷ 2 ∷ 3 ∷ 4 ∷ 5 ∷ 6 ∷ 7 ∷ 8 ∷ 9 ∷ 10 ∷ 11 ∷ 12 ∷ 13 ∷ 14 ∷ 15 ∷ 16 ∷ 0 ∷ 0 ∷ 0 ∷ 0 ∷ 21
        ∷ 0 ∷ 0 ∷ 24 ∷ 25 ∷ 26 ∷ 27 ∷ 28 ∷ 29 ∷ 30 ∷ 31 ∷ 32 ∷ 33 ∷ 34 ∷ [])
    ∷ (0 ∷ 1 ∷ 2 ∷ 3 ∷ 4 ∷ 5 ∷ 6 ∷ 7 ∷ 8 ∷ 9 ∷ 10 ∷ 11 ∷ 12 ∷ 13 ∷ 14 ∷ 15 ∷ 16 ∷ 17 ∷ 18 ∷ 19 ∷ 20
        ∷ 21 ∷ 22 ∷ 23 ∷ 24 ∷ 25 ∷ 26 ∷ 27 ∷ 28 ∷ 29 ∷ 30 ∷ 32 ∷ 32 ∷ 33 ∷ 34 ∷ [])
    ∷ (0 ∷ 1 ∷ 2 ∷ 3 ∷ 4 ∷ 5 ∷ 6 ∷ 7 ∷ 8 ∷ 9 ∷ 10 ∷ 11 ∷ 12 ∷ 13 ∷ 14 ∷ 15 ∷ 16 ∷ 17 ∷ 18 ∷ 19 ∷ 20
        ∷ 21 ∷ 22 ∷ 23 ∷ 24 ∷ 25 ∷ 26 ∷ 27 ∷ 28 ∷ 29 ∷ 31 ∷ 31 ∷ 32 ∷ 33 ∷ 34 ∷ [])
    ∷ (0 ∷ 1 ∷ 2 ∷ 3 ∷ 4 ∷ 5 ∷ 6 ∷ 7 ∷ 8 ∷ 9 ∷ 10 ∷ 11 ∷ 12 ∷ 13 ∷ 14 ∷ 15 ∷ 16 ∷ 17 ∷ 18 ∷ 19 ∷ 20
        ∷ 21 ∷ 22 ∷ 23 ∷ 24 ∷ 25 ∷ 26 ∷ 27 ∷ 28 ∷ 29 ∷ 32 ∷ 31 ∷ 32 ∷ 33 ∷ 34 ∷ [])
    ∷ []

abbrev pub cmd_action : List (List Action)
cmd_action =
    (c_7 ∷ c_7 ∷ c_7 ∷ c_7 ∷ c_7 ∷ c_7 ∷ c_7 ∷ c_7 ∷ c_7 ∷ c_7 ∷ c_7 ∷ c_7 ∷ c_7 ∷ c_7 ∷ c_7 ∷ c_7
      ∷ c_7 ∷ c_7 ∷ c_7 ∷ c_7 ∷ c_7 ∷ c_7 ∷ c_7 ∷ c_7 ∷ c_38 ∷ c_7 ∷ c_7 ∷ c_7 ∷ c_7 ∷ c_7 ∷ c_7
      ∷ c_7 ∷ c_7 ∷ c_7 ∷ c_7 ∷ [])
    ∷ (c_7 ∷ c_7 ∷ c_7 ∷ c_7 ∷ c_7 ∷ c_32 ∷ c_31 ∷ c_7 ∷ c_7 ∷ c_31 ∷ c_7 ∷ c_7 ∷ c_7 ∷ c_7 ∷ c_7
        ∷ c_7 ∷ c_7 ∷ c_7 ∷ c_7 ∷ c_7 ∷ c_7 ∷ c_7 ∷ c_7 ∷ c_7 ∷ c_7 ∷ c_7 ∷ c_7 ∷ c_7 ∷ c_7 ∷ c_7
        ∷ c_7 ∷ c_7 ∷ c_7 ∷ c_7 ∷ c_7 ∷ [])
    ∷ (c_7 ∷ c_7 ∷ c_7 ∷ c_7 ∷ c_7 ∷ c_7 ∷ c_7 ∷ c_7 ∷ c_7 ∷ c_7 ∷ c_7 ∷ c_7 ∷ c_7 ∷ c_7 ∷ c_7 ∷ c_7
        ∷ c_7 ∷ c_7 ∷ c_7 ∷ c_7 ∷ c_7 ∷ c_7 ∷ c_7 ∷ c_7 ∷ c_37 ∷ c_7 ∷ c_7 ∷ c_7 ∷ c_7 ∷ c_7 ∷ c_7
        ∷ c_7 ∷ c_7 ∷ c_7 ∷ c_7 ∷ [])
    ∷ (c_0 ∷ c_8 ∷ c_7 ∷ c_7 ∷ c_7 ∷ c_7 ∷ c_52 ∷ c_7 ∷ c_7 ∷ c_7 ∷ c_7 ∷ c_7 ∷ c_7 ∷ c_7 ∷ c_7
        ∷ c_7 ∷ c_7 ∷ c_7 ∷ c_7 ∷ c_7 ∷ c_7 ∷ c_7 ∷ c_7 ∷ c_7 ∷ c_7 ∷ c_7 ∷ c_7 ∷ c_7 ∷ c_7 ∷ c_7
        ∷ c_7 ∷ c_7 ∷ c_7 ∷ c_7 ∷ c_7 ∷ [])
    ∷ (c_1 ∷ c_1 ∷ c_1 ∷ c_1 ∷ c_1 ∷ c_1 ∷ c_1 ∷ c_1 ∷ c_1 ∷ c_1 ∷ c_1 ∷ c_1 ∷ c_1 ∷ c_1 ∷ c_1 ∷ c_1
        ∷ c_1 ∷ c_1 ∷ c_1 ∷ c_1 ∷ c_1 ∷ c_1 ∷ c_1 ∷ c_1 ∷ c_1 ∷ c_1 ∷ c_1 ∷ c_1 ∷ c_1 ∷ c_1 ∷ c_1
        ∷ c_1 ∷ c_1 ∷ c_1 ∷ c_7 ∷ [])
    ∷ (c_7 ∷ c_7 ∷ c_7 ∷ c_7 ∷ c_7 ∷ c_7 ∷ c_7 ∷ c_7 ∷ c_7 ∷ c_7 ∷ c_7 ∷ c_7 ∷ c_7 ∷ c_7 ∷ c_7 ∷ c_7
        ∷ c_7 ∷ c_7 ∷ c_7 ∷ c_7 ∷ c_7 ∷ c_7 ∷ c_7 ∷ c_7 ∷ c_7 ∷ c_7 ∷ c_7 ∷ c_7 ∷ c_7 ∷ c_7 ∷ c_74
        ∷ c_7 ∷ c_7 ∷ c_7 ∷ c_7 ∷ [])
    ∷ (c_7 ∷ c_34 ∷ c_7 ∷ c_7 ∷ c_34 ∷ c_7 ∷ c_7 ∷ c_34 ∷ c_7 ∷ c_7 ∷ c_7 ∷ c_7 ∷ c_7 ∷ c_7 ∷ c_7
        ∷ c_7 ∷ c_7 ∷ c_7 ∷ c_7 ∷ c_7 ∷ c_48 ∷ c_7 ∷ c_7 ∷ c_7 ∷ c_7 ∷ c_7 ∷ c_7 ∷ c_7 ∷ c_7 ∷ c_7
        ∷ c_7 ∷ c_7 ∷ c_7 ∷ c_7 ∷ c_7 ∷ [])
    ∷ (c_34 ∷ c_34 ∷ c_34 ∷ c_34 ∷ c_34 ∷ c_34 ∷ c_34 ∷ c_34 ∷ c_34 ∷ c_34 ∷ c_34 ∷ c_34 ∷ c_34
        ∷ c_34 ∷ c_34 ∷ c_34 ∷ c_34 ∷ c_34 ∷ c_34 ∷ c_34 ∷ c_34 ∷ c_34 ∷ c_34 ∷ c_34 ∷ c_34 ∷ c_34
        ∷ c_34 ∷ c_34 ∷ c_34 ∷ c_34 ∷ c_34 ∷ c_34 ∷ c_34 ∷ c_34 ∷ c_34 ∷ [])
    ∷ (c_7 ∷ c_7 ∷ c_7 ∷ c_7 ∷ c_39 ∷ c_7 ∷ c_7 ∷ c_7 ∷ c_7 ∷ c_7 ∷ c_7 ∷ c_7 ∷ c_7 ∷ c_7 ∷ c_7
        ∷ c_7 ∷ c_7 ∷ c_7 ∷ c_7 ∷ c_7 ∷ c_7 ∷ c_7 ∷ c_7 ∷ c_7 ∷ c_7 ∷ c_7 ∷ c_7 ∷ c_7 ∷ c_7 ∷ c_7
        ∷ c_7 ∷ c_7 ∷ c_7 ∷ c_7 ∷ c_7 ∷ [])
    ∷ (c_0 ∷ c_7 ∷ c_7 ∷ c_7 ∷ c_7 ∷ c_7 ∷ c_7 ∷ c_7 ∷ c_7 ∷ c_7 ∷ c_7 ∷ c_7 ∷ c_7 ∷ c_7 ∷ c_7 ∷ c_7
        ∷ c_7 ∷ c_7 ∷ c_7 ∷ c_7 ∷ c_7 ∷ c_7 ∷ c_7 ∷ c_7 ∷ c_7 ∷ c_7 ∷ c_7 ∷ c_7 ∷ c_7 ∷ c_7 ∷ c_0
        ∷ c_7 ∷ c_7 ∷ c_7 ∷ c_7 ∷ [])
    ∷ (c_7 ∷ c_7 ∷ c_7 ∷ c_7 ∷ c_50 ∷ c_7 ∷ c_7 ∷ c_7 ∷ c_7 ∷ c_7 ∷ c_7 ∷ c_7 ∷ c_24 ∷ c_7 ∷ c_7
        ∷ c_7 ∷ c_7 ∷ c_7 ∷ c_7 ∷ c_7 ∷ c_7 ∷ c_7 ∷ c_7 ∷ c_7 ∷ c_24 ∷ c_7 ∷ c_7 ∷ c_7 ∷ c_7 ∷ c_7
        ∷ c_7 ∷ c_7 ∷ c_7 ∷ c_7 ∷ c_7 ∷ [])
    ∷ (c_7 ∷ c_7 ∷ c_7 ∷ c_7 ∷ c_7 ∷ c_7 ∷ c_7 ∷ c_7 ∷ c_7 ∷ c_7 ∷ c_7 ∷ c_7 ∷ c_7 ∷ c_7 ∷ c_7 ∷ c_7
        ∷ c_7 ∷ c_7 ∷ c_7 ∷ c_7 ∷ c_7 ∷ c_7 ∷ c_7 ∷ c_7 ∷ c_7 ∷ c_7 ∷ c_7 ∷ c_7 ∷ c_7 ∷ c_7 ∷ c_7
        ∷ c_7 ∷ c_7 ∷ c_7 ∷ c_7 ∷ [])
    ∷ (c_7 ∷ c_9 ∷ c_7 ∷ c_7 ∷ c_7 ∷ c_7 ∷ c_7 ∷ c_7 ∷ c_7 ∷ c_7 ∷ c_7 ∷ c_7 ∷ c_7 ∷ c_71 ∷ c_7
        ∷ c_7 ∷ c_7 ∷ c_7 ∷ c_7 ∷ c_7 ∷ c_7 ∷ c_7 ∷ c_7 ∷ c_7 ∷ c_22 ∷ c_7 ∷ c_7 ∷ c_7 ∷ c_7 ∷ c_7
        ∷ c_7 ∷ c_7 ∷ c_7 ∷ c_7 ∷ c_7 ∷ [])
    ∷ (c_7 ∷ c_10 ∷ c_7 ∷ c_7 ∷ c_7 ∷ c_7 ∷ c_7 ∷ c_7 ∷ c_7 ∷ c_7 ∷ c_7 ∷ c_7 ∷ c_23 ∷ c_72 ∷ c_7
        ∷ c_7 ∷ c_7 ∷ c_7 ∷ c_7 ∷ c_7 ∷ c_7 ∷ c_7 ∷ c_7 ∷ c_7 ∷ c_23 ∷ c_7 ∷ c_7 ∷ c_7 ∷ c_7 ∷ c_7
        ∷ c_7 ∷ c_7 ∷ c_7 ∷ c_7 ∷ c_7 ∷ [])
    ∷ (c_7 ∷ c_7 ∷ c_7 ∷ c_7 ∷ c_33 ∷ c_7 ∷ c_7 ∷ c_7 ∷ c_7 ∷ c_7 ∷ c_7 ∷ c_7 ∷ c_7 ∷ c_7 ∷ c_7
        ∷ c_7 ∷ c_7 ∷ c_7 ∷ c_7 ∷ c_7 ∷ c_7 ∷ c_18 ∷ c_7 ∷ c_7 ∷ c_7 ∷ c_7 ∷ c_7 ∷ c_7 ∷ c_7 ∷ c_7
        ∷ c_7 ∷ c_7 ∷ c_7 ∷ c_7 ∷ c_7 ∷ [])
    ∷ (c_6 ∷ c_6 ∷ c_6 ∷ c_6 ∷ c_6 ∷ c_6 ∷ c_6 ∷ c_6 ∷ c_6 ∷ c_6 ∷ c_6 ∷ c_6 ∷ c_6 ∷ c_6 ∷ c_6 ∷ c_6
        ∷ c_6 ∷ c_6 ∷ c_6 ∷ c_6 ∷ c_6 ∷ c_6 ∷ c_6 ∷ c_6 ∷ c_6 ∷ c_6 ∷ c_6 ∷ c_6 ∷ c_7 ∷ c_7 ∷ c_7
        ∷ c_7 ∷ c_7 ∷ c_7 ∷ c_7 ∷ [])
    ∷ (c_2 ∷ c_11 ∷ c_2 ∷ c_2 ∷ c_2 ∷ c_2 ∷ c_2 ∷ c_2 ∷ c_2 ∷ c_2 ∷ c_2 ∷ c_2 ∷ c_2 ∷ c_2 ∷ c_2
        ∷ c_2 ∷ c_2 ∷ c_2 ∷ c_2 ∷ c_2 ∷ c_2 ∷ c_2 ∷ c_2 ∷ c_2 ∷ c_2 ∷ c_2 ∷ c_2 ∷ c_2 ∷ c_7 ∷ c_7
        ∷ c_7 ∷ c_7 ∷ c_7 ∷ c_7 ∷ c_7 ∷ [])
    ∷ (c_12 ∷ c_7 ∷ c_7 ∷ c_7 ∷ c_7 ∷ c_7 ∷ c_7 ∷ c_7 ∷ c_7 ∷ c_7 ∷ c_7 ∷ c_7 ∷ c_7 ∷ c_7 ∷ c_7
        ∷ c_7 ∷ c_7 ∷ c_7 ∷ c_7 ∷ c_7 ∷ c_7 ∷ c_7 ∷ c_7 ∷ c_7 ∷ c_7 ∷ c_7 ∷ c_7 ∷ c_7 ∷ c_7 ∷ c_7
        ∷ c_7 ∷ c_7 ∷ c_7 ∷ c_7 ∷ c_7 ∷ [])
    ∷ (c_7 ∷ c_13 ∷ c_7 ∷ c_7 ∷ c_7 ∷ c_7 ∷ c_7 ∷ c_7 ∷ c_7 ∷ c_7 ∷ c_7 ∷ c_7 ∷ c_7 ∷ c_7 ∷ c_7
        ∷ c_7 ∷ c_7 ∷ c_7 ∷ c_7 ∷ c_7 ∷ c_7 ∷ c_7 ∷ c_7 ∷ c_7 ∷ c_7 ∷ c_7 ∷ c_7 ∷ c_7 ∷ c_7 ∷ c_7
        ∷ c_7 ∷ c_7 ∷ c_7 ∷ c_7 ∷ c_7 ∷ [])
    ∷ (c_7 ∷ c_7 ∷ c_7 ∷ c_7 ∷ c_7 ∷ c_7 ∷ c_25 ∷ c_19 ∷ c_7 ∷ c_7 ∷ c_7 ∷ c_7 ∷ c_7 ∷ c_7 ∷ c_7
        ∷ c_7 ∷ c_7 ∷ c_7 ∷ c_7 ∷ c_7 ∷ c_7 ∷ c_7 ∷ c_7 ∷ c_7 ∷ c_7 ∷ c_7 ∷ c_7 ∷ c_7 ∷ c_7 ∷ c_7
        ∷ c_7 ∷ c_7 ∷ c_7 ∷ c_7 ∷ c_7 ∷ [])
    ∷ (c_7 ∷ c_76 ∷ c_7 ∷ c_7 ∷ c_7 ∷ c_7 ∷ c_7 ∷ c_7 ∷ c_7 ∷ c_7 ∷ c_7 ∷ c_7 ∷ c_7 ∷ c_7 ∷ c_7
        ∷ c_7 ∷ c_7 ∷ c_7 ∷ c_7 ∷ c_7 ∷ c_7 ∷ c_7 ∷ c_7 ∷ c_7 ∷ c_7 ∷ c_7 ∷ c_7 ∷ c_7 ∷ c_7 ∷ c_7
        ∷ c_0 ∷ c_7 ∷ c_7 ∷ c_7 ∷ c_7 ∷ [])
    ∷ (c_7 ∷ c_7 ∷ c_7 ∷ c_7 ∷ c_50 ∷ c_7 ∷ c_7 ∷ c_7 ∷ c_7 ∷ c_7 ∷ c_7 ∷ c_7 ∷ c_7 ∷ c_7 ∷ c_7
        ∷ c_7 ∷ c_7 ∷ c_7 ∷ c_7 ∷ c_7 ∷ c_7 ∷ c_7 ∷ c_7 ∷ c_7 ∷ c_7 ∷ c_7 ∷ c_7 ∷ c_7 ∷ c_7 ∷ c_7
        ∷ c_73 ∷ c_7 ∷ c_7 ∷ c_7 ∷ c_7 ∷ [])
    ∷ (c_7 ∷ c_7 ∷ c_7 ∷ c_7 ∷ c_7 ∷ c_7 ∷ c_53 ∷ c_63 ∷ c_7 ∷ c_7 ∷ c_7 ∷ c_7 ∷ c_63 ∷ c_7 ∷ c_7
        ∷ c_7 ∷ c_7 ∷ c_7 ∷ c_7 ∷ c_7 ∷ c_7 ∷ c_7 ∷ c_7 ∷ c_7 ∷ c_7 ∷ c_7 ∷ c_7 ∷ c_7 ∷ c_7 ∷ c_7
        ∷ c_7 ∷ c_7 ∷ c_7 ∷ c_7 ∷ c_7 ∷ [])
    ∷ (c_7 ∷ c_75 ∷ c_7 ∷ c_7 ∷ c_7 ∷ c_7 ∷ c_7 ∷ c_7 ∷ c_7 ∷ c_7 ∷ c_7 ∷ c_7 ∷ c_7 ∷ c_7 ∷ c_7
        ∷ c_7 ∷ c_7 ∷ c_7 ∷ c_7 ∷ c_7 ∷ c_7 ∷ c_7 ∷ c_7 ∷ c_7 ∷ c_7 ∷ c_7 ∷ c_7 ∷ c_7 ∷ c_7 ∷ c_7
        ∷ c_0 ∷ c_7 ∷ c_7 ∷ c_7 ∷ c_7 ∷ [])
    ∷ (c_7 ∷ c_7 ∷ c_7 ∷ c_7 ∷ c_50 ∷ c_7 ∷ c_7 ∷ c_7 ∷ c_7 ∷ c_7 ∷ c_7 ∷ c_7 ∷ c_7 ∷ c_7 ∷ c_7
        ∷ c_7 ∷ c_7 ∷ c_7 ∷ c_7 ∷ c_7 ∷ c_7 ∷ c_7 ∷ c_7 ∷ c_7 ∷ c_7 ∷ c_7 ∷ c_7 ∷ c_7 ∷ c_7 ∷ c_7
        ∷ c_7 ∷ c_7 ∷ c_7 ∷ c_7 ∷ c_7 ∷ [])
    ∷ (c_7 ∷ c_7 ∷ c_7 ∷ c_1 ∷ c_59 ∷ c_7 ∷ c_7 ∷ c_7 ∷ c_7 ∷ c_7 ∷ c_7 ∷ c_7 ∷ c_7 ∷ c_7 ∷ c_7
        ∷ c_7 ∷ c_7 ∷ c_7 ∷ c_7 ∷ c_7 ∷ c_7 ∷ c_7 ∷ c_7 ∷ c_7 ∷ c_7 ∷ c_7 ∷ c_7 ∷ c_7 ∷ c_7 ∷ c_7
        ∷ c_7 ∷ c_7 ∷ c_7 ∷ c_7 ∷ c_7 ∷ [])
    ∷ (c_3 ∷ c_3 ∷ c_3 ∷ c_3 ∷ c_3 ∷ c_3 ∷ c_3 ∷ c_3 ∷ c_3 ∷ c_3 ∷ c_3 ∷ c_3 ∷ c_3 ∷ c_3 ∷ c_3 ∷ c_3
        ∷ c_3 ∷ c_3 ∷ c_3 ∷ c_3 ∷ c_3 ∷ c_3 ∷ c_3 ∷ c_3 ∷ c_3 ∷ c_3 ∷ c_3 ∷ c_3 ∷ c_3 ∷ c_3 ∷ c_3
        ∷ c_3 ∷ c_3 ∷ c_3 ∷ c_3 ∷ [])
    ∷ (c_34 ∷ c_34 ∷ c_34 ∷ c_34 ∷ c_34 ∷ c_34 ∷ c_34 ∷ c_34 ∷ c_34 ∷ c_34 ∷ c_34 ∷ c_34 ∷ c_34
        ∷ c_34 ∷ c_34 ∷ c_34 ∷ c_34 ∷ c_34 ∷ c_34 ∷ c_34 ∷ c_34 ∷ c_34 ∷ c_34 ∷ c_34 ∷ c_34 ∷ c_34
        ∷ c_34 ∷ c_34 ∷ c_34 ∷ c_34 ∷ c_34 ∷ c_34 ∷ c_34 ∷ c_34 ∷ c_34 ∷ [])
    ∷ (c_34 ∷ c_34 ∷ c_34 ∷ c_34 ∷ c_34 ∷ c_34 ∷ c_34 ∷ c_34 ∷ c_34 ∷ c_34 ∷ c_34 ∷ c_34 ∷ c_34
        ∷ c_34 ∷ c_34 ∷ c_34 ∷ c_34 ∷ c_34 ∷ c_34 ∷ c_34 ∷ c_34 ∷ c_34 ∷ c_34 ∷ c_34 ∷ c_34 ∷ c_34
        ∷ c_34 ∷ c_34 ∷ c_34 ∷ c_34 ∷ c_34 ∷ c_34 ∷ c_34 ∷ c_34 ∷ c_34 ∷ [])
    ∷ (c_66 ∷ c_66 ∷ c_66 ∷ c_66 ∷ c_66 ∷ c_66 ∷ c_66 ∷ c_66 ∷ c_66 ∷ c_66 ∷ c_66 ∷ c_66 ∷ c_66
        ∷ c_66 ∷ c_66 ∷ c_66 ∷ c_66 ∷ c_66 ∷ c_66 ∷ c_66 ∷ c_66 ∷ c_66 ∷ c_66 ∷ c_66 ∷ c_66 ∷ c_66
        ∷ c_66 ∷ c_66 ∷ c_66 ∷ c_7 ∷ c_7 ∷ c_7 ∷ c_7 ∷ c_7 ∷ c_7 ∷ [])
    ∷ (c_7 ∷ c_7 ∷ c_7 ∷ c_7 ∷ c_7 ∷ c_7 ∷ c_7 ∷ c_7 ∷ c_7 ∷ c_7 ∷ c_7 ∷ c_7 ∷ c_7 ∷ c_7 ∷ c_7 ∷ c_7
        ∷ c_7 ∷ c_7 ∷ c_7 ∷ c_7 ∷ c_7 ∷ c_7 ∷ c_7 ∷ c_7 ∷ c_7 ∷ c_7 ∷ c_7 ∷ c_7 ∷ c_7 ∷ c_7 ∷ c_21
        ∷ c_7 ∷ c_7 ∷ c_7 ∷ c_7 ∷ [])
    ∷ (c_57 ∷ c_57 ∷ c_57 ∷ c_57 ∷ c_57 ∷ c_57 ∷ c_57 ∷ c_57 ∷ c_57 ∷ c_57 ∷ c_57 ∷ c_57 ∷ c_57
        ∷ c_57 ∷ c_57 ∷ c_57 ∷ c_57 ∷ c_57 ∷ c_57 ∷ c_57 ∷ c_57 ∷ c_57 ∷ c_57 ∷ c_57 ∷ c_57 ∷ c_57
        ∷ c_57 ∷ c_57 ∷ c_57 ∷ c_7 ∷ c_7 ∷ c_7 ∷ c_7 ∷ c_7 ∷ c_7 ∷ [])
    ∷ (c_58 ∷ c_58 ∷ c_58 ∷ c_58 ∷ c_58 ∷ c_58 ∷ c_58 ∷ c_58 ∷ c_58 ∷ c_58 ∷ c_58 ∷ c_58 ∷ c_58
        ∷ c_58 ∷ c_58 ∷ c_58 ∷ c_58 ∷ c_58 ∷ c_58 ∷ c_58 ∷ c_58 ∷ c_58 ∷ c_58 ∷ c_58 ∷ c_58 ∷ c_58
        ∷ c_58 ∷ c_58 ∷ c_58 ∷ c_7 ∷ c_7 ∷ c_7 ∷ c_7 ∷ c_7 ∷ c_7 ∷ [])
    ∷ (c_56 ∷ c_56 ∷ c_56 ∷ c_56 ∷ c_56 ∷ c_56 ∷ c_56 ∷ c_56 ∷ c_56 ∷ c_56 ∷ c_56 ∷ c_56 ∷ c_56
        ∷ c_56 ∷ c_56 ∷ c_56 ∷ c_56 ∷ c_56 ∷ c_56 ∷ c_56 ∷ c_56 ∷ c_56 ∷ c_56 ∷ c_56 ∷ c_56 ∷ c_56
        ∷ c_56 ∷ c_56 ∷ c_56 ∷ c_7 ∷ c_7 ∷ c_7 ∷ c_7 ∷ c_7 ∷ c_7 ∷ [])
    ∷ (c_55 ∷ c_55 ∷ c_55 ∷ c_55 ∷ c_55 ∷ c_55 ∷ c_55 ∷ c_55 ∷ c_55 ∷ c_55 ∷ c_55 ∷ c_55 ∷ c_55
        ∷ c_55 ∷ c_55 ∷ c_55 ∷ c_55 ∷ c_55 ∷ c_55 ∷ c_55 ∷ c_55 ∷ c_55 ∷ c_55 ∷ c_55 ∷ c_55 ∷ c_55
        ∷ c_55 ∷ c_55 ∷ c_55 ∷ c_7 ∷ c_7 ∷ c_7 ∷ c_7 ∷ c_7 ∷ c_7 ∷ [])
    ∷ (c_4 ∷ c_7 ∷ c_16 ∷ c_17 ∷ c_20 ∷ c_30 ∷ c_20 ∷ c_7 ∷ c_21 ∷ c_29 ∷ c_7 ∷ c_21 ∷ c_7 ∷ c_41
        ∷ c_42 ∷ c_43 ∷ c_44 ∷ c_45 ∷ c_46 ∷ c_47 ∷ c_7 ∷ c_49 ∷ c_61 ∷ c_7 ∷ c_7 ∷ c_14 ∷ c_27
        ∷ c_28 ∷ c_7 ∷ c_68 ∷ c_7 ∷ c_7 ∷ c_7 ∷ c_7 ∷ c_7 ∷ [])
    ∷ (c_7 ∷ c_5 ∷ c_7 ∷ c_7 ∷ c_7 ∷ c_7 ∷ c_7 ∷ c_7 ∷ c_7 ∷ c_7 ∷ c_51 ∷ c_7 ∷ c_7 ∷ c_7 ∷ c_7
        ∷ c_7 ∷ c_7 ∷ c_7 ∷ c_7 ∷ c_7 ∷ c_7 ∷ c_7 ∷ c_7 ∷ c_7 ∷ c_7 ∷ c_7 ∷ c_7 ∷ c_7 ∷ c_7 ∷ c_7
        ∷ c_7 ∷ c_69 ∷ c_70 ∷ c_7 ∷ c_7 ∷ [])
    ∷ (c_8 ∷ c_7 ∷ c_7 ∷ c_7 ∷ c_7 ∷ c_7 ∷ c_7 ∷ c_8 ∷ c_7 ∷ c_7 ∷ c_7 ∷ c_7 ∷ c_7 ∷ c_7 ∷ c_7 ∷ c_7
        ∷ c_7 ∷ c_7 ∷ c_7 ∷ c_7 ∷ c_7 ∷ c_7 ∷ c_7 ∷ c_7 ∷ c_7 ∷ c_7 ∷ c_7 ∷ c_7 ∷ c_7 ∷ c_7 ∷ c_7
        ∷ c_7 ∷ c_7 ∷ c_7 ∷ c_7 ∷ [])
    ∷ (c_40 ∷ c_65 ∷ c_65 ∷ c_65 ∷ c_65 ∷ c_65 ∷ c_65 ∷ c_65 ∷ c_65 ∷ c_65 ∷ c_65 ∷ c_65 ∷ c_65
        ∷ c_65 ∷ c_65 ∷ c_65 ∷ c_65 ∷ c_65 ∷ c_65 ∷ c_65 ∷ c_65 ∷ c_65 ∷ c_65 ∷ c_65 ∷ c_65 ∷ c_65
        ∷ c_65 ∷ c_65 ∷ c_65 ∷ c_65 ∷ c_65 ∷ c_65 ∷ c_65 ∷ c_65 ∷ c_65 ∷ [])
    ∷ (c_7 ∷ c_7 ∷ c_7 ∷ c_7 ∷ c_7 ∷ c_7 ∷ c_7 ∷ c_7 ∷ c_7 ∷ c_7 ∷ c_7 ∷ c_7 ∷ c_7 ∷ c_7 ∷ c_7 ∷ c_7
        ∷ c_7 ∷ c_7 ∷ c_7 ∷ c_7 ∷ c_7 ∷ c_7 ∷ c_7 ∷ c_7 ∷ c_7 ∷ c_7 ∷ c_7 ∷ c_7 ∷ c_7 ∷ c_7 ∷ c_0
        ∷ c_7 ∷ c_7 ∷ c_7 ∷ c_7 ∷ [])
    ∷ (c_7 ∷ c_7 ∷ c_7 ∷ c_7 ∷ c_7 ∷ c_7 ∷ c_7 ∷ c_7 ∷ c_7 ∷ c_7 ∷ c_7 ∷ c_7 ∷ c_7 ∷ c_7 ∷ c_7 ∷ c_7
        ∷ c_7 ∷ c_7 ∷ c_7 ∷ c_7 ∷ c_7 ∷ c_7 ∷ c_7 ∷ c_7 ∷ c_7 ∷ c_7 ∷ c_7 ∷ c_7 ∷ c_7 ∷ c_7 ∷ c_0
        ∷ c_7 ∷ c_7 ∷ c_7 ∷ c_7 ∷ [])
    ∷ []

-- cmd_new_state[index][state]; the indices are in range wherever the engine reads the tables.
abbrev pub new_state_at : ℕ → ℕ → ℕ
new_state_at index state = get_or (get_or cmd_new_state index []) state 0

abbrev pub action_at : ℕ → ℕ → Action
action_at index state = get_or (get_or cmd_action index []) state c_0
