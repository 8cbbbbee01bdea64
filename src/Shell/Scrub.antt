-- ===== src/Shell/Scrub.antt =====
-- app/src/shell/shell_scrub.c: the `scrub` commands, for the checksums of the resident images. What
-- the service answers and the regions that it visits are functions of the history.
use k_fsw.Base.{
  ℕ, ◌+◌, Bool, Option, none, some, List, [], ◌∷◌, ◌++◌, ◌==◌, if◌then◌else◌, ℤ, ok, is_negative,
  einval,
}
use k_fsw.Text.{Bytes, codes, decimal, str_eq, hex_fixed, pad_left, pad_right}
use k_fsw.Env.{Proc, pure, ◌>>=◌, ◌>>◌, tell, recall}
use k_fsw.Shell.Service.{ServiceCall, scrub_sweep_region, scrub_sweep, scrub_learn}
use k_fsw.Shell.{ShellCall, shell_print, ask}
use k_fsw.Shell.Report.{row, number_row, refuse, failed, unless_failed}

-- `struct kfsw_scrub_result`
pub record Region : Type 0 where
  pub name : Bytes
  pub bytes : ℕ
  pub reference : ℕ
  pub measured : ℕ
  pub state : ℕ

-- `struct kfsw_scrub_status`
pub record ScrubStatus : Type 0 where
  pub running : Bool
  pub regions : ℕ
  pub sweeps : ℕ
  pub mismatches : ℕ
  pub last_sweep_ms : ℕ

-- The numbers of the states, and what the service gives.
pub record ScrubShell : Type 0 where
  pub state_empty : ℕ
  pub state_unknown : ℕ
  pub state_ok : ℕ
  pub state_mismatch : ℕ
  pub state_unreadable : ℕ
  pub result : List ShellCall → ServiceCall → ℤ
  pub regions : List ShellCall → List Region
  pub status : List ShellCall → ScrubStatus

-- The names of the regions, in the order of their numbers.
abbrev pub region_names : List Bytes
region_names = codes "slot0" ∷ codes "slot1" ∷ codes "golden" ∷ []

-- The loop of `parse_region`.
unfoldable pub region_of : Bytes → ℕ → List Bytes → Option ℕ
region_of text id [] = none
region_of text id (name ∷ names) =
    let rest = region_of text (id + 1) names in if str_eq text name then some id else rest

module _ (env : ScrubShell) where
  unfoldable region_state : ℕ → Bytes
  region_state state =
      if state == env.state_empty
      then codes "empty"
      else if state == env.state_unknown
      then codes "unknown"
      else if state == env.state_ok
      then codes "ok"
      else if state == env.state_mismatch
      then codes "mismatch"
      else if state == env.state_unreadable
      then codes "unreadable"
      else codes "absent"

  unfoldable print_region : Region → Proc ShellCall (Unit {0})
  print_region r = tell (
      shell_print (
        pad_right 8 r.name
        ++ codes "  "
        ++ pad_left 8 (decimal r.bytes)
        ++ codes "  "
        ++ hex_fixed 8 r.reference
        ++ codes "  "
        ++ hex_fixed 8 r.measured
        ++ codes "  "
        ++ region_state r.state))

  unfoldable print_regions : List Region → Proc ShellCall ℤ
  print_regions [] = pure ok
  print_regions (r ∷ rs) = print_region r >> print_regions rs

  -- `print_table`, and the success that every caller returns behind it.
  unfoldable print_table : Proc ShellCall ℤ
  print_table = do
    tell (shell_print (codes "region       bytes  referenc  measured  state"))
    tell (shell_print (codes "--------  --------  --------  --------  -----"))
    recall env.regions >>= print_regions

  abbrev with_region : Bytes → (ℕ → Proc ShellCall ℤ) → Option ℕ → Proc ShellCall ℤ
  with_region text next none =
      refuse (codes "unknown region " ++ text ++ codes "; one of slot0, slot1, golden") einval
  with_region text next (some region) = next region

  -- `parse_region`, and what follows a region that it finds.
  unfoldable parse_region : Bytes → (ℕ → Proc ShellCall ℤ) → Proc ShellCall ℤ
  parse_region text next = with_region text next (region_of text 0 region_names)

  abbrev print_sweeps : ScrubStatus → Proc ShellCall ℤ
  print_sweeps s = do
    row (codes "state") (if s.running then codes "sweeping" else codes "stopped")
    number_row (codes "regions") s.regions
    row (codes "sweeps") (decimal s.sweeps ++ codes " mismatches: " ++ decimal s.mismatches)
    number_row (codes "last_sweep_ms") s.last_sweep_ms
    print_table

  unfoldable cmd_scrub_status : Proc ShellCall ℤ
  cmd_scrub_status = recall env.status >>= print_sweeps

  abbrev region_swept : Bytes → ℤ → Proc ShellCall ℤ
  region_swept text = unless_failed (codes "scrub sweep " ++ text ++ codes " failed") print_table

  abbrev sweep_region : Bytes → ℕ → Proc ShellCall ℤ
  sweep_region text region = ask env.result (scrub_sweep_region region) >>= region_swept text

  -- The sweep of all regions may answer a number of them.
  abbrev all_swept : ℤ → Proc ShellCall ℤ
  all_swept result =
      if is_negative result then failed (codes "scrub sweep failed") result else print_table

  unfoldable cmd_scrub_sweep : Option Bytes → Proc ShellCall ℤ
  cmd_scrub_sweep none = ask env.result scrub_sweep >>= all_swept
  cmd_scrub_sweep (some text) = parse_region text (sweep_region text)

  abbrev region_learned : Bytes → ℤ → Proc ShellCall ℤ
  region_learned text = unless_failed (codes "scrub learn " ++ text ++ codes " failed") print_table

  abbrev learn_region : Bytes → ℕ → Proc ShellCall ℤ
  learn_region text region = ask env.result (scrub_learn region) >>= region_learned text

  unfoldable cmd_scrub_learn : Bytes → Proc ShellCall ℤ
  cmd_scrub_learn text = parse_region text (learn_region text)
