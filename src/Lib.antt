-- ===== src/Lib.antt =====
-- A verification library for the flight software application of K-FSW, the C code under app/src.
-- The application composes services that live in other repositories (comms, platform, services):
-- it starts them, registers its commands and parameter tables with them, and offers shell commands
-- over them. Their functions are parameters here: a record of functions that answer, given the
-- history of the calls made before, so that a theorem about such code holds whatever they answer.
--
-- The parts, and the files that model them:
--
-- - Hk/Entries, app/src/hk_entries.c: `kfsw_app_hk_parse_entry` is `parse_entry`, whose loop over the
--   parts is `parse_parts`; `kfsw_app_hk_parse_entries` is `parse_entries`, its loop `parse_words` and
--   one round of it `at_word`; `kfsw_app_hk_parse_class` is `parse_class`. The proofs are in
--   Hk/Entries/Sound, Print, Lists and Class. KFSW_PARAM_ID, the bounds of classes and offsets and
--   KFSW_HK_NODE_LOCAL come from headers of the services and are the fields of `HkHeader`.
-- - Parameters, app/src/parameters: a table is a list of `Definition`, with the callbacks as
--   functions on the state that they read and change. Parameters/System is system_table.c,
--   Parameters/Csp csp_table.c, Parameters/Storage storage_table.c, Parameters/Watchdog
--   watchdog_table.c, Parameters/Telemetry telemetry_table.c and Parameters/Board board_table.c.
-- - Commands, app/src/commands/command_definitions.c: one function for each handler, by its name in
--   the source, and the table `app_commands` under the options of the build. The handlers of
--   Commands/Hk call the parsers of Hk/Entries, and those of Commands/Node the pin of
--   Parameters/System.
-- - Startup, app/src/main.c: `main` as a sequence of stages on its variables, and the rounds of its
--   loop. Startup/Order says what each call rests on.
-- - Shell, app/src/shell: Shell/Remote is shell_remote.c, Shell/Remexec shell_remexec.c,
--   Shell/Command shell_command.c, Shell/Hk shell_hk.c, Shell/Param shell_param.c, Shell/Csp
--   shell_csp.c, Shell/Watchdog shell_watchdog.c, Shell/Golden shell_golden.c and Shell/FwuLite
--   shell_fwu_lite.c, with Shell/FwuLite/Owned on what it asks, Shell/Storage
--   shell_storage.c, Shell/Ftp shell_ftp.c, whose child Transfer moves files, Shell/System
--   shell_system.c, whose child Log holds the `log` commands, and Shell/Registry shell_registry.c.
--   The front ends of one service each are Shell/Fbo (shell_fbo.c), Shell/Fwu (shell_fwu.c),
--   Shell/GroundWatchdog (shell_gndwdt.c), Shell/Health (shell_health.c), Shell/Scrub (shell_scrub.c),
--   Shell/Limits (shell_limits.c), Shell/Tables (shell_table.c), Shell/Event (shell_event.c),
--   Shell/Journal (shell_journal.c), Shell/Links (shell_can.c and shell_uart.c) and Shell/Resmon
--   (shell_resmon.c); what they share is Shell/Report, and Shell/Guarded says what eight of their
--   commands ask for. Shell/Prompt is shell_prompt.c and
--   shell_echo.c. The lines printed and
--   the calls of the services, which Shell/Service lists, are the history. Shell/Hk holds the
--   commands that write; its children read a filter (Filter, Words), show and fetch samples (Show,
--   Samples, Get) and change settings (Settings). Shell/Param holds get, set and info; its children
--   print values (Format, Columns), list the parameters of a table (Listing, Table, Tables) and keep a
--   snapshot (Snapshot). Shell/Csp shows this node, Csp/Exchange asks another and Csp/Clock is the
--   clock. Shell/Remexec/Allowlist is app/src/remexec/remexec_allowlist.c.
-- - Diagnostics, app/src/diagnostics: Diagnostics/Storage is storage_diagnostics.c and Diagnostics/Ftp
--   ftp_diagnostics.c. Diagnostics/FileState and Diagnostics/Files say what a file is, and what it
--   holds, by the calls made on it; `Works` there is a file system whose calls succeed, and
--   Diagnostics/Disk one such system for the tests.
-- - Liveness, app/src/csp_liveness.c: the probe of the router and its counters.
-- - Fatal, app/src/fatal.c, and HostClock, app/src/clock_host.c: the hook of a fatal error, and the
--   clock of a native node.
--
-- Text models C strings as lists of bytes without the final NUL, with the functions of the C
-- library that the application calls on them; Text/Strtoul is `strtoul` for an `unsigned long` of
-- any width. Env holds the histories, and Base the shared operators and lemmas on lists and numbers.
--
-- Fixed-width integers wrap where they are written: the counters of Startup and Parameters/Csp modulo
-- 2 ^ 32, the class and the casts of Commands to a byte behind their checks, and the product of the
-- storage percentage modulo 2 ^ 64. The loop `parse_words` is on fuel, and is given the length
-- of the text and one more: a round takes at least one byte off the text, and
-- `Hk.Entries.Sound.parse_entries-Sound` says that this is always enough. The digits of `decimal` are
-- on fuel of the number itself, and the windows of `print_windows` in Shell/Param/Table on fuel of the
-- number of descriptors, which `Shell.Param.Windows.print_collected-Fetches` shows to be enough. The generator of
-- Diagnostics/Ftp writes on fuel of the size, enough by `Diagnostics.Pattern.generate-pattern`. Its
-- comparison is on fuel that is an argument, since it is the file system that ends it: none is a
-- comparison that still runs, and `Diagnostics.Compare.compare-same` says how many rounds are enough.
-- The loop over the revisions of a build, `print_words` in Shell/System, is on fuel of the length of
-- the text, since a round takes at least one byte off it (Shell/System/Enough).
--
-- Not modelled: app/src/shell/shell_comms.c, which registers a command group and has no function;
-- help texts, descriptions and information lines, which are only printed; and threads, since each
-- function here runs to its end.
pub mod Base
pub mod Text
pub mod Hk
pub mod Parameters
pub mod Env
pub mod Liveness
pub mod Commands
pub mod Diagnostics
pub mod Fatal
pub mod HostClock
pub mod Startup
pub mod Shell
