-- ===== src/Shell/FwuLite/Tests.antt =====
-- A node that the services always answer, which activates the image of node 5.
use k_fsw.Base.{◌≡◌, refl, false, none, [], ◌∷◌, ok}
use k_fsw.Text.{codes}
use k_fsw.Text.Strtoul.{strtoul}
use k_fsw.Shell.Service.{
  FwuHandle, fwu_remote_status, fwu_remote_verify, fwu_remote_activate, fwu_remote_abort,
}
use k_fsw.Shell.{requests}
use k_fsw.Shell.Remote.{parse_node}
use k_fsw.Shell.FwuLite.{FwuShell, FwuStatus, cmd_validate, cmd_flash, cmd_abort, resolve_transfer}
use k_fsw.Shell.FwuLite.Owned.{Owned, transfer_commands-Owned}

abbrev transfer : FwuHandle
transfer = record { transfer_id = 3; generation = 2 }

abbrev whole_image : FwuStatus
whole_image = record {
  state = 1;
  handle = transfer;
  total_size = 4096;
  received = 4096;
  committed = 4096;
  expected_crc32 = 255;
  actual_crc32 = 255;
  swap_scheduled = false;
  sha256 = none;
}

abbrev shell : FwuShell
shell = record {
  parts = record { strtoul = λ text. ((strtoul 64 text).value, ok); broadcast_address = 31 };
  state_name = λ state. [];
  bin2hex = λ bytes. bytes;
  result = λ h c. ok;
  status = λ h. whole_image;
  resent = λ h. 0;
}

flashed :
    requests (cmd_flash shell (codes "5") []).1
    ≡ fwu_remote_activate 5 transfer ∷ fwu_remote_status 5 ∷ []
unfolding cmd_flash resolve_transfer parse_node strtoul
flashed = refl

transfer_commands-Owned_example :
    Owned shell fwu_remote_verify [] (cmd_validate shell (codes "5") [])
    × Owned shell fwu_remote_activate [] (cmd_flash shell (codes "5") [])
    × Owned shell fwu_remote_abort [] (cmd_abort shell (codes "5") [])
transfer_commands-Owned_example = transfer_commands-Owned shell (codes "5") []
