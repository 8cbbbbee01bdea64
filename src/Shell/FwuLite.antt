-- ===== src/Shell/FwuLite.antt =====
-- app/src/shell/shell_fwu_lite.c: the `fwu_lite` commands, which load an image into another node.
-- What the services answer and leave in a status are functions of the history.
pub mod Owned
mod Tests
use k_fsw.Base.{
  ℕ, Bool, not, Option, none, some, List, ◌++◌, ◌==◌, if◌then◌else◌, ℤ, ok, is_ok, einval, enoent,
  ◌==ℤ◌,
}
use k_fsw.Text.{Bytes, codes, decimal, hex_fixed, signed}
use k_fsw.Env.{Proc, pure, ◌>>=◌, ◌>>◌, tell, recall}
use k_fsw.Shell.Service.{
  ServiceCall, FwuHandle, fwu_get_status, fwu_remote_status, fwu_send_file, fwu_remote_verify,
  fwu_remote_activate, fwu_remote_abort,
}
use k_fsw.Shell.{ShellCall, shell_print, shell_error, ShellParts, ask}
use k_fsw.Shell.Remote.{parse_node}

-- `struct kfsw_fwu_status`; without `digest_present` there is no digest.
pub record FwuStatus : Type 0 where
  pub state : ℕ
  pub handle : FwuHandle
  pub total_size : ℕ
  pub received : ℕ
  pub committed : ℕ
  pub expected_crc32 : ℕ
  pub actual_crc32 : ℕ
  pub swap_scheduled : Bool
  pub sha256 : Option (List ℕ)

-- `kfsw_fwu_state_name`, `bin2hex`, and what the services give:
-- the status behind a call and the blocks that a transfer has sent again.
pub record FwuShell : Type 0 where
  pub parts : ShellParts
  pub state_name : ℕ → Bytes
  pub bin2hex : List ℕ → Bytes
  pub result : List ShellCall → ServiceCall → ℤ
  pub status : List ShellCall → FwuStatus
  pub resent : List ShellCall → ℕ

abbrev row : Bytes → Bytes → Proc ShellCall (Unit {0})
row name text = tell (shell_print (name ++ codes ": " ++ text))

abbrev yes_no : Bool → Bytes
yes_no flag = if flag then codes "yes" else codes "no"

abbrev failed : Bytes → ℤ → Proc ShellCall ℤ
failed what result = do
  tell (shell_error (what ++ codes " failed (" ++ signed result ++ codes ")"))
  pure result

-- What resolve_transfer leaves: its result, or the node and its transfer.
pub data Transfer : Type 0 where
  unresolved : ℤ → Transfer
  resolved : ℕ → FwuStatus → Transfer

module _ (env : FwuShell) where
  abbrev print_digest : Option (List ℕ) → Proc ShellCall (Unit {0})
  print_digest none = pure tt
  print_digest (some bytes) = row (codes "sha256") (env.bin2hex bytes)

  unfoldable print_status : FwuStatus → Proc ShellCall (Unit {0})
  print_status s = do
    row (codes "state") (env.state_name s.state)
    row (codes "transfer_id") (decimal s.handle.transfer_id)
    row (codes "generation") (decimal s.handle.generation)
    row (codes "total_size") (decimal s.total_size)
    row (codes "received") (decimal s.received)
    row (codes "committed") (decimal s.committed)
    row (codes "expected_crc32") (hex_fixed 8 s.expected_crc32)
    row (codes "actual_crc32") (hex_fixed 8 s.actual_crc32)
    row (codes "swap_scheduled") (yes_no s.swap_scheduled)
    print_digest s.sha256

  abbrev show : FwuStatus → Proc ShellCall ℤ
  show s = do print_status s; pure ok

  abbrev status_read : ℤ → Proc ShellCall ℤ
  status_read result =
      if not (is_ok result)
      then failed (codes "Firmware upload status") result
      else recall env.status >>= show

  abbrev remote_status_read : ℕ → ℤ → Proc ShellCall ℤ
  remote_status_read node result =
      if result ==ℤ enoent
      then (do
        tell (shell_print (codes "Node " ++ decimal node ++ codes " has no owned transfer"))
        pure ok)
      else status_read result

  abbrev status_of : Option ℕ → Proc ShellCall ℤ
  status_of none = pure einval
  status_of (some node) = ask env.result (fwu_remote_status node) >>= remote_status_read node

  unfoldable cmd_status : Option Bytes → Proc ShellCall ℤ
  cmd_status none = ask env.result fwu_get_status >>= status_read
  cmd_status (some text) = parse_node env.parts text >>= status_of

  abbrev blocks : ℕ → Bytes
  blocks resent = decimal resent ++ codes " block(s) resent"

  -- A receipt of generation 0 is the zero that it starts as.
  abbrev print_receipt : FwuStatus → Proc ShellCall (Unit {0})
  print_receipt s = if s.handle.generation == 0 then pure tt else print_status s

  abbrev stopped : ℤ → Proc ShellCall ℤ
  stopped result = do
    resent ← recall env.resent
    receipt ← recall env.status
    tell (shell_error (codes "Upload stopped (" ++ signed result ++ codes "); " ++ blocks resent))
    print_receipt receipt
    tell (
        shell_print (codes "Receiver progress retained; repeat send with the same image to resume"))
    pure result

  abbrev completed : ℕ → Proc ShellCall ℤ
  completed node = do
    resent ← recall env.resent
    receipt ← recall env.status
    tell (
        shell_print
          (codes "Upload complete; no validation or activation requested; " ++ blocks resent))
    print_status receipt
    tell (shell_print (codes "Run: fwu_lite validate " ++ decimal node))
    pure ok

  abbrev was_sent : ℕ → ℤ → Proc ShellCall ℤ
  was_sent node result = if not (is_ok result) then stopped result else completed node

  unfoldable send_to : Bytes → Option ℕ → Proc ShellCall ℤ
  send_to path none = pure einval
  send_to path (some node) = do
    tell (shell_print (codes "Sending " ++ path ++ codes " to node " ++ decimal node))
    result ← ask env.result (fwu_send_file node path)
    was_sent node result

  unfoldable cmd_send : Bytes → Bytes → Proc ShellCall ℤ
  cmd_send text path = parse_node env.parts text >>= send_to path

  abbrev transfer_of : ℕ → ℤ → Proc ShellCall Transfer
  transfer_of node result =
      if not (is_ok result)
      then (do
        tell (
            shell_error (
              codes "Could not resolve this node's owned transfer (" ++ signed result ++ codes ")"))
        pure (unresolved result))
      else (do status ← recall env.status; pure (resolved node status))

  abbrev resolve_on : Option ℕ → Proc ShellCall Transfer
  resolve_on none = pure (unresolved einval)
  resolve_on (some node) = ask env.result (fwu_remote_status node) >>= transfer_of node

  unfoldable resolve_transfer : Bytes → Proc ShellCall Transfer
  resolve_transfer text = parse_node env.parts text >>= resolve_on

  -- What the transfer that was resolved is asked, by its handle.
  abbrev with_handle :
      (ℕ → FwuHandle → ServiceCall) → Bytes → (ℕ → Proc ShellCall ℤ) → Transfer → Proc ShellCall ℤ
  with_handle request what next (unresolved result) = failed what result
  with_handle request what next (resolved node status) = do
    result ← ask env.result (request node status.handle)
    (if not (is_ok result) then failed what result else next node)

  abbrev verified : ℕ → Proc ShellCall ℤ
  verified node = do
    status ← recall env.status
    tell (shell_print (codes "Stored image verified; activation not requested"))
    print_status status
    pure ok

  unfoldable cmd_validate : Bytes → Proc ShellCall ℤ
  cmd_validate text =
      resolve_transfer text
      >>= with_handle fwu_remote_verify (codes "Stored image validation") verified

  abbrev activated : ℕ → Proc ShellCall ℤ
  activated node = do
    status ← recall env.status
    tell (
        shell_print (
          codes "Node "
          ++ decimal node
          ++ codes " image ready; swap scheduled: "
          ++ yes_no status.swap_scheduled))
    tell (shell_print (codes "No reset requested; check target boot behavior before resetting"))
    pure ok

  unfoldable cmd_flash : Bytes → Proc ShellCall ℤ
  cmd_flash text =
      resolve_transfer text >>= with_handle fwu_remote_activate (codes "Image activation") activated

  abbrev aborted : ℕ → Proc ShellCall ℤ
  aborted node = do tell (shell_print (codes "Owned transfer aborted; target slot erased")); pure ok

  unfoldable cmd_abort : Bytes → Proc ShellCall ℤ
  cmd_abort text =
      resolve_transfer text
      >>= with_handle fwu_remote_abort (codes "Owned transfer cleanup") aborted
