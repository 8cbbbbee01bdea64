-- ===== src/Parameters/Board/Tests.antt =====
-- A build with a CAN bus, and a host name that does not fit.
use k_fsw.Base.{◌≡◌, refl, true, some, leb, map, arith, [], ◌∷◌}
use k_fsw.Text.{codes, fitted}
use k_fsw.Parameters.Board.{BoardConfig, copy_from, sample_identity, board_definitions}
use k_fsw.Parameters.Board.Identity.{or_empty, sample_identity_lem}

abbrev config : BoardConfig
config = record {
  csp = true;
  can = true;
  kiss = true;
  shell = true;
  storage = true;
  csp_address = 1;
  can_bitrate = 1000000;
  hardware_id_size = 33;
  bitrate_supported = λ n. leb n 1000000;
  set_bitrate = λ n old. n;
}

offsets :
    map (λ d. d.offset) (board_definitions config)
    ≡ 0 ∷ 16 ∷ 64 ∷ 32 ∷ 48 ∷ 2 ∷ 5 ∷ 12 ∷ 3 ∷ 4 ∷ 8 ∷ 9 ∷ []
offsets = refl

cut_short : sample_identity 4 (some (codes "k-fsw")) ≡ codes "k-f"
unfolding sample_identity copy_from
cut_short = refl

sample_identity_lem_example :
    sample_identity 4 (some (codes "k-fsw")) ≡ fitted 4 (or_empty (some (codes "k-fsw")))
sample_identity_lem_example = sample_identity_lem 4 (some (codes "k-fsw")) (omega arith)
