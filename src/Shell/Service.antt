-- ===== src/Shell/Service.antt =====
-- The calls that the shell commands make to the services: include/kfsw/services/hk.h, parameter.h
-- and the others that app/src/shell includes. Where a call fills a structure, what it leaves there
-- is the environment's.
use k_fsw.Base.{ℕ, ℤ, Bool, List}
use k_fsw.Text.{Bytes}
use k_fsw.Hk.Header.{Entry}
use k_fsw.Parameters.Definition.{ParamType}

-- `struct kfsw_hk_store_filter`
pub record StoreFilter : Type 0 where
  pub report : ℕ
  pub from_sequence : ℕ
  pub to_sequence : ℕ
  pub from_seconds : ℕ
  pub to_seconds : ℕ
  pub without_flags : ℕ

-- `struct kfsw_param_value`: the scalar as its type reads it, unsigned, signed or as the bits of a
-- floating number, the text, and the first `size` bytes.
pub record ParamValue : Type 0 where
  pub type : ParamType
  pub unsigned : ℕ
  pub signed : ℤ
  pub floating : ℕ
  pub text : Bytes
  pub bytes : List ℕ

-- `struct kfsw_fwu_handle`
pub record FwuHandle : Type 0 where
  pub transfer_id : ℕ
  pub generation : ℕ

-- The `struct fs_file_t` that a diagnostic keeps, and how it opens it: FS_O_READ, or FS_O_CREATE |
-- FS_O_WRITE | FS_O_TRUNC.
pub data FileSlot : Type 0 where
  first_file second_file : FileSlot

pub data OpenMode : Type 0 where
  to_read to_replace : OpenMode

-- `struct kfsw_command_arg` where the caller fills it: its type, with the value of that type.
pub data TypedArg : Type 0 where
  u32_arg : ℕ → TypedArg
  text_arg : Bytes → TypedArg

-- The services' calls, each with its arguments.
pub data ServiceCall : Type 0 where
  hk_define_class : ℕ → List Entry → ℕ → ServiceCall
  hk_clear : ℕ → ServiceCall
  hk_get_definition : ℕ → ServiceCall
  hk_get_beacon : ℕ → ServiceCall
  hk_collect : ℕ → ServiceCall
  hk_get : ℕ → ℕ → ServiceCall
  hk_set_period : ℕ → ℕ → ServiceCall
  hk_set_store : ℕ → ℕ → ServiceCall
  hk_clear_store : ℕ → ServiceCall
  hk_set_beacon : ℕ → ℕ → ℕ → ServiceCall
  hk_save : ServiceCall
  hk_store_query : ℕ → ServiceCall
  hk_store_count : StoreFilter → ServiceCall
  hk_store_read : StoreFilter → ℕ → ServiceCall
  hk_store_extract : StoreFilter → Bytes → ServiceCall
  param_visit : ServiceCall
  param_visit_tables : ServiceCall
  param_get : Bytes → ServiceCall
  param_set : Bytes → ParamValue → ServiceCall
  param_get_info : Bytes → ServiceCall
  param_remote_visit : ℕ → ServiceCall
  param_remote_visit_table : ℕ → ℕ → ServiceCall
  param_remote_tables : ℕ → ServiceCall
  param_remote_get : ℕ → Bytes → ServiceCall
  param_remote_get_many : ℕ → List Bytes → ServiceCall
  param_remote_set : ℕ → Bytes → ParamValue → ServiceCall
  param_persist_save : ServiceCall
  param_persist_load : ServiceCall
  param_persist_clear : ServiceCall
  param_persist_table_count : ℕ → ServiceCall
  param_restore_defaults : ServiceCall
  csp_route_lookup : ℕ → ServiceCall
  csp_ping : ℕ → ℕ → ℕ → ServiceCall
  csp_interface_stats_read : ℕ → Bytes → ℕ → ServiceCall
  csp_clear_counters : ServiceCall
  csp_set_packet_trace : Bool → ServiceCall
  csp_set_rdp_trace : ℕ → ServiceCall
  csp_identify : ℕ → ℕ → ServiceCall
  csp_clock_read : ℕ → ℕ → ServiceCall
  csp_clock_set : ℤ → ℕ → ServiceCall
  csp_clock_write : ℕ → ℕ → ℤ → ℕ → ServiceCall
  watchdog_get_info : ServiceCall
  watchdog_feed : ServiceCall
  watchdog_stop_feeding : ServiceCall
  fwu_get_status : ServiceCall
  fwu_remote_status : ℕ → ServiceCall
  fwu_send_file : ℕ → Bytes → ServiceCall
  fwu_remote_verify : ℕ → FwuHandle → ServiceCall
  fwu_remote_activate : ℕ → FwuHandle → ServiceCall
  fwu_remote_abort : ℕ → FwuHandle → ServiceCall
  file_open : FileSlot → Bytes → OpenMode → ServiceCall
  file_read : FileSlot → ℕ → ServiceCall
  file_write : FileSlot → Bytes → ServiceCall
  file_sync : FileSlot → ServiceCall
  file_close : FileSlot → ServiceCall
  file_unlink : Bytes → ServiceCall
  storage_get_info : ServiceCall
  storage_get_tmp_info : ServiceCall
  ftp_list : ℕ → Bytes → ServiceCall
  ftp_stat : ℕ → Bytes → ServiceCall
  ftp_mkdir : ℕ → Bytes → ServiceCall
  ftp_put : ℕ → Bytes → Bytes → ServiceCall
  ftp_get : ℕ → Bytes → Bytes → ServiceCall
  log_line : ℕ → Bytes → ServiceCall
  log_history_get : ℕ → ServiceCall
  log_remote_read : ℕ → Bool → ℕ → ℕ → ServiceCall
  log_set_module_level : ℕ → ℕ → ServiceCall
  command_invoke_args : Bytes → List TypedArg → ServiceCall
  fbo_schedule_get_status : ServiceCall
  fbo_schedule_get_entry : ℕ → ServiceCall
  fbo_run : Bytes → ServiceCall
  fbo_stop : ServiceCall
  fbo_get_status : ServiceCall
  fwu_begin : ℕ → ℕ → ServiceCall
  fwu_finish : ServiceCall
  fwu_abort : ServiceCall
  gndwdt_remote : ℕ → Bool → ServiceCall
  gndwdt_set_enabled : Bool → ServiceCall
  gndwdt_set_timeout_s : ℕ → ServiceCall
  health_get_status : ServiceCall
  health_get_component : ℕ → ServiceCall
  health_register : Bytes → ℕ → ServiceCall
  health_report : ℕ → ServiceCall
  scrub_sweep_region : ℕ → ServiceCall
  scrub_sweep : ServiceCall
  scrub_learn : ℕ → ServiceCall
  limits_load : Bytes → ServiceCall
  limits_sweep : ServiceCall
  table_get_status : ServiceCall
  table_validate : Bytes → ServiceCall
  table_load : Bytes → ServiceCall
  table_revert : ServiceCall
  table_dump : ℕ → Bytes → ServiceCall
  event_clear : ServiceCall
  can_test_peer : ℕ → ℕ → ServiceCall
  uart_test_peer : ℕ → ℕ → ServiceCall
  resmon_sample : ServiceCall
  resmon_set_alert_percent : ℕ → ServiceCall
