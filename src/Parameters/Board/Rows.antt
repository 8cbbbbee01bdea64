-- ===== src/Parameters/Board/Rows.antt =====
-- The rows of the board table, in every build.
use k_fsw.Base.{ℕ, ◌≡◌, Bool, true, ◌&&◌, not, List, [], ◌∷◌, arith, ◌==◌}
use k_fsw.Text.{Bytes, str_eq}
use k_fsw.Parameters.Definition.{Definition}
use k_fsw.Parameters.Board.{BoardConfig, BoardWorld, board_definitions}

-- No row has the offset or the name.
abbrev pub is_new : ℕ → Bytes → List (Definition BoardWorld) → Bool
is_new offset name [] = true
is_new offset name (d ∷ ds) =
    not (d.offset == offset) && not (str_eq d.name name) && is_new offset name ds

-- No two rows share an offset or a name.
abbrev pub well_formed : List (Definition BoardWorld) → Bool
well_formed [] = true
well_formed (d ∷ ds) = is_new d.offset d.name ds && well_formed ds

-- In every build, no two rows of the board table share an offset or a name.
board_definitions_unique : (c : BoardConfig) → well_formed (board_definitions c) ≡ true
unfolding str_eq
board_definitions_unique c = ground arith
