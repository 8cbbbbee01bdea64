-- ===== src/Commands/Unique.antt =====
-- The identifiers and names of the table, in every build.
use k_fsw.Base.{ℕ, ◌≡◌, Bool, true, ◌&&◌, not, List, [], ◌∷◌, ◌==◌, arith}
use k_fsw.Text.{Bytes, str_eq}
use k_fsw.Parameters.System.{SystemValues}
use k_fsw.Commands.{CommandConfig, CommandEnv}
use k_fsw.Commands.Table.{CommandDefinition, app_commands}

-- No row has this identifier or this name.
unfoldable pub free : ℕ → Bytes → List CommandDefinition → Bool
unfolding str_eq
free id name [] = true
free id name (d ∷ ds) = not (id == d.id) && not (str_eq name d.name) && free id name ds

unfoldable pub unique : List CommandDefinition → Bool
unfolding free
unique [] = true
unique (d ∷ ds) = free d.id d.name ds && unique ds

-- In every build, no two commands of the table share an identifier or a name.
pub app_commands-unique :
    (c : CommandConfig) (env : CommandEnv) (v : SystemValues) → unique (app_commands c env v) ≡ true
unfolding unique
app_commands-unique c env v = ground arith
