-- ===== src/Shell/System/Log.antt =====
-- The `log` commands of app/src/shell/shell_system.c.
use k_fsw.Base.{
  ℕ, zero, suc, ◌+◌, ◌-◌, ◌%◌, Bool, false, not, ◌||◌, Option, none, some, List, [], ◌∷◌, ◌++◌,
  take, ltb, ◌==◌, if◌then◌else◌, ℤ, ok, is_ok, ◌==ℤ◌, einval, eio,
}
use k_fsw.Text.{Bytes, codes, decimal, str_eq, hex_bytes, hex_fixed, pad_right}
use k_fsw.Env.{Proc, pure, ◌>>=◌, ◌>>◌, tell, recall}
use k_fsw.Shell.Service.{
  ServiceCall, log_line, log_history_get, log_remote_read, log_set_module_level,
}
use k_fsw.Shell.{ShellCall, shell_print, shell_error, service, ShellParts, ask}
use k_fsw.Shell.Remote.{parse_node, remote_failed}

-- `struct kfsw_log_record`, and the window of the records that are kept.
pub record LogRecord : Type 0 where
  pub sequence : ℕ
  pub uptime_ms : ℕ
  pub module_id : ℕ
  pub severity : ℕ
  pub truncated : Bool
  pub text : Bytes

pub record LogWindow : Type 0 where
  pub first : ℕ
  pub end : ℕ
  pub overwritten : ℕ

-- What another node sends: first its window and the format, then messages. One that is a package
-- is bytes, with the checksum of its text if that is there.
pub record RemoteStart : Type 0 where
  pub is_dictionary : Bool
  pub window : LogWindow

pub record RemoteMessage : Type 0 where
  pub message : LogRecord
  pub is_package : Bool
  pub bytes : List ℕ
  pub text_crc : Option ℕ

-- KFSW_LOG_HISTORY_MAX_READ, KFSW_LOG_ENCODED_SIZE, the modules and what the services give.
pub record LogShell : Type 0 where
  pub parts : ShellParts
  pub max_read : ℕ
  pub encoded_size : ℕ
  pub module_count : ℕ
  pub module_name : ℕ → Bytes
  pub result : List ShellCall → ServiceCall → ℤ
  pub window : List ShellCall → LogWindow
  pub stored : List ShellCall → LogRecord
  pub started : List ShellCall → Option RemoteStart
  pub messages : List ShellCall → List RemoteMessage
  pub module_level : List ShellCall → ℕ → ℕ

abbrev refuse : Bytes → ℤ → Proc ShellCall ℤ
refuse text result = do tell (shell_error text); pure result

unfoldable cmd_log_test : Proc ShellCall ℤ
cmd_log_test = do
  tell (service (log_line 3 (codes "K-FSW shell log test: error")))
  tell (service (log_line 2 (codes "K-FSW shell log test: warning")))
  tell (service (log_line 1 (codes "K-FSW shell log test: info")))
  tell (service (log_line 0 (codes "K-FSW shell log test: debug")))
  pure ok

abbrev window_text : LogWindow → Bytes
window_text w =
    codes "first="
    ++ decimal w.first
    ++ codes " end="
    ++ decimal w.end
    ++ codes " overwritten="
    ++ decimal w.overwritten

module _ (env : LogShell) where
  -- What every line of a record begins with.
  abbrev record_head : LogRecord → Bytes
  record_head r =
      decimal r.sequence
      ++ codes " t="
      ++ decimal r.uptime_ms
      ++ codes "ms "
      ++ env.module_name r.module_id
      ++ codes " level="
      ++ decimal r.severity
      ++ (if r.truncated then codes " truncated" else [])

  abbrev print_record : LogRecord → Proc ShellCall (Unit {0})
  print_record r = tell (shell_print (record_head r ++ codes " " ++ r.text))

  abbrev history_step : Proc ShellCall ℤ → ℤ → Proc ShellCall ℤ
  history_step rest result =
      if not (is_ok result)
      then refuse (codes "Log history changed during read; retry") result
      else recall env.stored >>= λ r. print_record r >> rest

  -- The records from a sequence on, as many as are left.
  unfoldable print_history : ℕ → ℕ → Proc ShellCall ℤ
  print_history zero sequence = pure ok
  print_history (suc left) sequence =
      let rest = print_history left (sequence + 1) in
      ask env.result (log_history_get sequence) >>= history_step rest

  unfoldable cmd_log_history : Proc ShellCall ℤ
  cmd_log_history = do
    w ← recall env.window
    tell (shell_print (codes "Log history: " ++ window_text w))
    print_history (w.end - w.first) w.first

  unfoldable print_remote_start : RemoteStart → Proc ShellCall (Unit {0})
  print_remote_start s = do
    tell (
        shell_print
          (codes "format: " ++ (if s.is_dictionary then codes "dictionary" else codes "text")))
    tell (shell_print (window_text s.window))

  abbrev crc_front : Option ℕ → Bytes
  crc_front none = []
  crc_front (some crc) = codes "00000000:"

  abbrev crc_behind : Option ℕ → Bytes
  crc_behind none = []
  crc_behind (some crc) = codes " crc32=" ++ hex_fixed 8 crc

  unfoldable print_remote_message : RemoteMessage → Proc ShellCall (Unit {0})
  print_remote_message m =
      if not m.is_package
      then print_record m.message
      else tell (
          shell_print (
            record_head m.message
            ++ codes " pkg="
            ++ crc_front m.text_crc
            ++ hex_bytes (take env.encoded_size m.bytes)
            ++ crc_behind m.text_crc))

  abbrev print_start : Option RemoteStart → Proc ShellCall (Unit {0})
  print_start none = pure tt
  print_start (some s) = print_remote_start s

  abbrev print_messages : List RemoteMessage → Proc ShellCall (Unit {0})
  print_messages [] = pure tt
  print_messages (m ∷ ms) = print_remote_message m >> print_messages ms

  abbrev remote_result : ℕ → ℤ → Proc ShellCall ℤ
  remote_result node result =
      if result ==ℤ eio
      then refuse (codes "log remote: node " ++ decimal node ++ codes " cut the read short") result
      else if is_ok result
      then pure ok
      else remote_failed (codes "log remote") node result

  -- What the visitor is given is printed while the call runs.
  abbrev remote_read : ℕ → ℤ → Proc ShellCall ℤ
  remote_read node result = do
    started ← recall env.started
    messages ← recall env.messages
    print_start started
    print_messages messages
    remote_result node result

  abbrev number_or : ℕ → Option Bytes → ℕ × ℤ
  number_or default none = (default, ok)
  number_or default (some text) = env.parts.strtoul text

  abbrev read_checked : ℕ × ℤ → ℕ × ℤ → ℕ → Proc ShellCall ℤ
  read_checked (count, count_error) (level, level_error) node =
      if not (is_ok count_error)
        || not (is_ok level_error)
        || count == 0
        || ltb env.max_read count
        || ltb 3 level
      then refuse
          (codes "Usage: log remote <node> [count 1.."
            ++ decimal env.max_read
            ++ codes "] [min level 0..3]")
          einval
      else (do
        tell (shell_print (codes "node: " ++ decimal node))
        result ← ask env.result (log_remote_read node false (count % 65536) (level % 256))
        remote_read node result)

  abbrev on_log_node : (ℕ → Proc ShellCall ℤ) → Option ℕ → Proc ShellCall ℤ
  on_log_node next none = pure einval
  on_log_node next (some node) = next node

  unfoldable cmd_log_remote : Bytes → Option Bytes → Option Bytes → Proc ShellCall ℤ
  cmd_log_remote text count level =
      parse_node env.parts text
      >>= on_log_node (read_checked (number_or env.max_read count) (number_or 0 level))

  abbrev level_line : Bytes → ℕ → ShellCall
  level_line name level = shell_print (pad_right 8 name ++ codes " " ++ decimal level)

  -- The modules from a number on, as many as are left.
  abbrev print_levels : ℕ → ℕ → Proc ShellCall ℤ
  print_levels zero id = pure ok
  print_levels (suc left) id = do
    level ← recall (λ h. env.module_level h id)
    tell (level_line (env.module_name id) level)
    print_levels left (id + 1)

  abbrev level_set : Bytes → ℕ → ℤ → Proc ShellCall ℤ
  level_set name level result =
      if not (is_ok result)
      then refuse (name ++ codes " would not take level " ++ decimal level) einval
      else (do tell (level_line name level); pure ok)

  abbrev set_level : Bytes → ℕ → ℕ × ℤ → Proc ShellCall ℤ
  set_level name id (level, parse_error) =
      if not (is_ok parse_error) || ltb 4 level
      then refuse (codes "level is 0 debug, 1 info, 2 warning, 3 error, 4 off") einval
      else ask env.result (log_set_module_level id (level % 256)) >>= level_set name level

  abbrev at_module : Bytes → Option Bytes → ℕ → Proc ShellCall ℤ
  at_module name none id = do
    level ← recall (λ h. env.module_level h id)
    tell (level_line name level)
    pure ok
  at_module name (some text) id = set_level name id (env.parts.strtoul text)

  unfoldable find_module : Bytes → Option Bytes → ℕ → ℕ → Proc ShellCall ℤ
  find_module name level zero id = refuse (codes "unknown module: " ++ name) einval
  find_module name level (suc left) id =
      let rest = find_module name level left (id + 1) in
      if not (str_eq name (env.module_name id)) then rest else at_module name level id

  unfoldable cmd_log_level : Option Bytes → Option Bytes → Proc ShellCall ℤ
  cmd_log_level none level = print_levels env.module_count 0
  cmd_log_level (some name) level = find_module name level env.module_count 0
