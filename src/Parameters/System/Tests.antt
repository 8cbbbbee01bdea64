-- ===== src/Parameters/System/Tests.antt =====
-- Runs of the system table's callbacks.
use k_fsw.Base.{◌≤◌, ◌≡◌, refl, ◌↔◌, ◌⊎◌, true, false, none, some, arith, All, ok, einval}
use k_fsw.Text.{codes}
use k_fsw.Text.Decimal.{IsDigit}
use k_fsw.Parameters.System.{
  SystemConfig, initial, validate_reboot_pin, validate_app_report_ms, difference_from,
  reboot_pin_matches, all_digits,
}
use k_fsw.Parameters.System.Pin.{reboot_pin_matches_iff, validate_reboot_pin_iff}

abbrev supervised : SystemConfig
supervised = record { health = true; deadline_ms = 4000 }

matches_default : reboot_pin_matches (initial supervised) (some (codes "0000")) ≡ true
unfolding reboot_pin_matches difference_from
matches_default = refl

one_digit_off : reboot_pin_matches (initial supervised) (some (codes "0001")) ≡ false
unfolding reboot_pin_matches difference_from
one_digit_off = refl

nine_digits : validate_reboot_pin (codes "123456789") ≡ einval
unfolding validate_reboot_pin all_digits
nine_digits = refl

-- Exactly half the deadline passes.
half_the_deadline : validate_app_report_ms supervised 2000 ≡ ok
unfolding validate_app_report_ms
half_the_deadline = refl

reboot_pin_matches_iff_example :
    ((reboot_pin_matches (initial supervised) (some (codes "0001")) ≡ true)
      ↔ (codes "0001" ≡ codes "0000"))
    × (reboot_pin_matches (initial supervised) none ≡ false)
reboot_pin_matches_iff_example =
    reboot_pin_matches_iff (initial supervised) (codes "0001")
      (omega arith, (omega arith, (omega arith, (omega arith, tt))))
      (omega arith, (omega arith, (omega arith, (omega arith, tt))))

validate_reboot_pin_iff_example :
    ((validate_reboot_pin (codes "12a4") ≡ ok) ↔ ((1 ≤ 4) × (4 ≤ 8) × All IsDigit (codes "12a4")))
    × ((validate_reboot_pin (codes "12a4") ≡ ok) ⊎ (validate_reboot_pin (codes "12a4") ≡ einval))
validate_reboot_pin_iff_example = validate_reboot_pin_iff (codes "12a4")
