-- ===== src/Commands/Tests.antt =====
-- Runs of the commands, and the theorems at concrete inputs.
use k_fsw.Base.{
  ℕ, ◌+◌, ◌*◌, ◌≡◌, ◌≢◌, refl, ◌⊎◌, true, false, some, none, List, [], ◌∷◌, ◌++◌, map, arith, All,
  ok, is_ok, eio, ◌≤◌,
}
use k_fsw.Text.{codes, decimal}
use k_fsw.Hk.Header.{HkHeader, Entry}
use k_fsw.Hk.Entries.Print.{Fields, entry_of, print_entry}
use k_fsw.Hk.Entries.Lists.{joined}
use k_fsw.Parameters.System.{SystemValues, initial}
use k_fsw.Commands.{
  command_ok, CommandArg, CommandResult, CommandConfig, hk_define_class, EventRecord, CommandEnv,
}
use k_fsw.Commands.Node.{command_reboot}
use k_fsw.Commands.Hk.{command_hk_define}
use k_fsw.Commands.Table.{app_commands}
use k_fsw.Commands.Safe.{Reports, Unarmed, app_commands-Reports, app_commands-Unarmed}
use k_fsw.Commands.Unique.{unique, app_commands-unique}
use k_fsw.Commands.Define.{Takeable, command_hk_define_calls, command_hk_define-print}
use k_fsw.Commands.Reboot.{Scheduled, Denied, command_reboot_result}

abbrev pub header : HkHeader
header = record {
  node_local = 0;
  class_default = 4;
  class_max = 7;
  offset_max = 255;
  param_id = λ table offset. table * 256 + offset;
}

abbrev pub everything : CommandConfig
everything = record {
  storage = true;
  param = true;
  lastwords = true;
  golden = true;
  reboot = true;
  event = true;
  hk = true;
  journal = true;
  detail_size = 96;
  hk_entries = 8;
  applied_unsaved = eio;
  long_bits = 32;
  hk_header = header;
}

abbrev event : EventRecord
event = record {
  sequence = 1;
  monotonic_us = 2000;
  source = 0;
  id = 3;
  severity = 1;
  payload = 171 ∷ [];
}

-- Every call succeeds.
abbrev pub services : CommandEnv
services = record {
  result = λ h k. ok;
  uptime_ms = λ h. 1000;
  boot_count = λ h. 2;
  storage_ready = λ h. true;
  storage_free_bytes = λ h. 4096;
  event_stats = λ h. record { held = 1; capacity = 8; recorded = 1; overwritten = 0; rejected = 0 };
  event_record = λ h. event;
  event_source_name = λ n. codes "app";
  hk_last_save_error = λ h. ok;
  journal_stats = λ h. record {
    held = 0;
    queued = 0;
    dropped = 0;
    errors = 0;
    corrupt = 0;
    ready = 1;
    last_error = ok;
  };
  journal_record =
      λ h. record { sequence = 1; boot = 1; utc_seconds = ok; utc_valid = 0; event = event };
}

abbrev values : SystemValues
values = initial (record { health = false; deadline_ms = 0 })

abbrev pub untouched : CommandResult
untouched = record { status = command_ok; detail = [] }

-- The arguments `0000` and `0001` of a reboot.
abbrev right_pin : ℕ → CommandArg
right_pin _ = record { u32 = 0; text = codes "0000" }

abbrev wrong_pin : ℕ → CommandArg
wrong_pin _ = record { u32 = 0; text = codes "0001" }

abbrev pub two_fields : List Fields
two_fields =
    record { node = none; table = 2; offset = 16 }
    ∷ record { node = some 3; table = 9; offset = 8 }
    ∷ []

abbrev definition : ℕ → CommandArg
definition _ = record {
  u32 = 5;
  text = codes "class=" ++ (decimal 6 ++ b' ' ∷ joined (map print_entry two_fields));
}

app_commands-Reports_example :
    All
      (λ d. Reports everything services values wrong_pin 9 untouched [] d.handler)
      (app_commands everything services values)
app_commands-Reports_example =
    app_commands-Reports everything services values wrong_pin 9 untouched []

app_commands-Unarmed_example :
    All
      (Unarmed everything services values wrong_pin 9 untouched [])
      (app_commands everything services values)
app_commands-Unarmed_example =
    app_commands-Unarmed everything services values wrong_pin 9 untouched []

app_commands-unique_example : unique (app_commands everything services values) ≡ true
app_commands-unique_example = app_commands-unique everything services values

command_reboot_result_example :
    ((codes "0000" ≡ codes "0000")
      × Scheduled everything services values right_pin 9 untouched []
          (command_reboot everything services values right_pin 9 untouched [])
          [])
    ⊎ ((codes "0000" ≢ codes "0000")
        × Denied everything services values right_pin 9 untouched []
            (command_reboot everything services values right_pin 9 untouched []))
command_reboot_result_example =
    command_reboot_result everything services values right_pin 9 untouched [] refl
      (omega arith, (omega arith, (omega arith, (omega arith, tt))))
      (omega arith, (omega arith, (omega arith, (omega arith, tt))))

command_hk_define_calls_example :
    let ((returned, after), h') = command_hk_define everything services definition 9 untouched [] in
    ((h' ≡ []) × (is_ok returned ≡ false))
    ⊎ ((entries : List Entry) × (class : ℕ) × (h' ≡ hk_define_class 5 entries class ∷ [])
        × (5 ≤ 255)
        × Takeable everything entries class)
command_hk_define_calls_example =
    command_hk_define_calls everything services definition 9 untouched [] (omega arith)
      (omega arith)

command_hk_define-print_example :
    (command_hk_define everything services definition 9 untouched []).1
    ≡ hk_define_class 5 (map (entry_of header) two_fields) 6 ∷ []
command_hk_define-print_example =
    command_hk_define-print everything services definition 9 untouched [] 6 two_fields (omega arith)
      refl (omega arith) (omega arith) (omega arith) (omega arith) (omega arith) (omega arith)
      (
        record { node_fits = tt; table_fits = omega arith; offset_fits = omega arith },
        (
          record { node_fits = omega arith; table_fits = omega arith; offset_fits = omega arith },
          tt,
        ),
      )
