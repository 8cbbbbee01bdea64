-- ===== src/Fatal.antt =====
-- app/src/fatal.c: the hook of a fatal error.
use k_fsw.Base.{ℕ, ◌%◌, ◌^◌, Bool, not, ◌&&◌, Option, none, some, if◌then◌else◌}
use k_fsw.Env.{Proc, ◌>>=◌, ◌>>◌, tell, recall}
use k_fsw.Base.{List}

-- The calls of the hook: the note, with the address, the uptime and the boot count, and how it
-- ends.
pub data FatalCall : Type 0 where
  lastwords_write : ℕ → ℕ → ℕ → FatalCall
  sys_reboot_cold : FatalCall
  fatal_halt : ℕ → FatalCall

-- CONFIG_ARM without CONFIG_ARM64, CONFIG_KFSW_PARAM, CONFIG_REBOOT and CONFIG_ARCH_POSIX, and what
-- the kernel and the boot service give.
pub record FatalBuild : Type 0 where
  pub is_arm32 : Bool
  pub has_param : Bool
  pub has_reboot : Bool
  pub is_posix : Bool
  pub uptime_32 : List FatalCall → ℕ
  pub boot_count : List FatalCall → ℕ

module _ (env : FatalBuild) where
  -- The address of the fault, of the program counter in the exception frame if there is one.
  unfoldable pub fault_address : Option ℕ → ℕ
  fault_address none = 0
  fault_address (some pc) = if env.is_arm32 then pc % 2 ^ 32 else 0

  unfoldable pub fatal_error_handler : ℕ → Option ℕ → Proc FatalCall (Unit {0})
  fatal_error_handler reason frame = do
    uptime ← recall env.uptime_32
    boots ← recall env.boot_count
    tell (lastwords_write (fault_address frame) uptime (if env.has_param then boots else 0))
    tell (if env.has_reboot && not env.is_posix then sys_reboot_cold else fatal_halt reason)
