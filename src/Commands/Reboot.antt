-- ===== src/Commands/Reboot.antt =====
-- A reset by command, against the pin that table 2 stores.
use k_fsw.Base.{
  ℕ, ◌≡◌, ◌≢◌, refl, ◌⊎◌, inl, inr, true, false, some, List, ◌∷◌, arith, All, ℤ, ok, is_ok,
  is_negative, eacces, ebusy, Bool-cases,
}
use k_fsw.Text.{Bytes}
use k_fsw.Parameters.System.{SystemValues, reboot_pin_matches}
use k_fsw.Parameters.System.Pin.{IsByte, reboot_pin_matches_iff}
use k_fsw.Commands.{
  CommandStatus, command_ok, command_denied, command_busy, CommandArg, CommandResult, CommandConfig,
  CommandCall, log_warning, golden_install, schedule_reboot, CommandEnv,
}
use k_fsw.Commands.Node.{pin_accepted, command_reboot, command_golden_install}

-- How a handler ended: what it returned, the status it left and the calls that it made.
abbrev Ended :
    (ℤ × CommandResult) × List CommandCall → ℤ → CommandStatus → List CommandCall → Type 0
Ended ((returned, result), h') outcome status calls =
    (returned ≡ outcome) × (result.status ≡ status) × (h' ≡ calls)

module _ (c : CommandConfig) (env : CommandEnv) (v : SystemValues) (args : ℕ → CommandArg)
    (node : ℕ) (result : CommandResult) (h : List CommandCall) where
  -- The reset is asked for, and the schedule takes it or is busy.
  abbrev pub Scheduled : (ℤ × CommandResult) × List CommandCall → List CommandCall → Type 0
  Scheduled run before =
      ((is_negative (env.result before (schedule_reboot 500)) ≡ true)
        × Ended run ebusy command_busy (schedule_reboot 500 ∷ before))
      ⊎ ((warning : Bytes) × (is_negative (env.result before (schedule_reboot 500)) ≡ false)
          × Ended run ok command_ok (log_warning warning ∷ schedule_reboot 500 ∷ before))

  -- The pin is refused: nothing is called but the warning.
  abbrev pub Denied : (ℤ × CommandResult) × List CommandCall → Type 0
  Denied run = (warning : Bytes) × Ended run eacces command_denied (log_warning warning ∷ h)

  command_reboot-right :
      pin_accepted c v (args 0).text ≡ true
      → Scheduled (command_reboot c env v args node result h) h
  unfolding command_reboot
  command_reboot-right right =
      elim (Bool-cases (is_negative (env.result h (schedule_reboot 500)))) [
        | inl busy ↦ inl (busy, rw right (rw busy (refl, refl, refl)))
        | inr taken ↦ rw right (rw taken (inr (_, refl, (refl, refl, refl))))
      ]

  command_reboot-wrong :
      pin_accepted c v (args 0).text ≡ false → Denied (command_reboot c env v args node result h)
  unfolding command_reboot
  command_reboot-wrong wrong = rw wrong (_, (refl, refl, refl))

  -- With the parameter service and over pins of bytes, a reboot command with the stored pin
  -- schedules the reset after 500 ms, and answers OK or BUSY as the schedule tells; with any other
  -- pin it is denied and calls nothing but the log.
  pub command_reboot_result :
      c.param ≡ true
      → All IsByte (args 0).text
      → All IsByte v.reboot_pin
      → (((args 0).text ≡ v.reboot_pin) × Scheduled (command_reboot c env v args node result h) h)
        ⊎ (((args 0).text ≢ v.reboot_pin) × Denied (command_reboot c env v args node result h))
  unfolding pin_accepted
  command_reboot_result on hp hs =
      let same = (reboot_pin_matches_iff v (args 0).text hp hs).0 in
      elim (Bool-cases (reboot_pin_matches v (some (args 0).text))) [
        | inl match ↦ inl (same.0 match, command_reboot-right (rw on match))
        | inr other ↦ inr ((λ e. ground (arith, same.1 e)), command_reboot-wrong (rw on other))
      ]

  -- Likewise golden_install, which installs first: the reset is only asked for if that succeeded.
  abbrev pub Installed : (ℤ × CommandResult) × List CommandCall → Type 0
  Installed run =
      ((is_ok (env.result h golden_install) ≡ true) × Scheduled run (golden_install ∷ h))
      ⊎ ((is_ok (env.result h golden_install) ≡ false)
          × (run.0.0 ≡ env.result h golden_install)
          × (run.0.1.status ≢ command_ok)
          × (run.1 ≡ golden_install ∷ h))

  command_golden_install-right :
      pin_accepted c v (args 0).text ≡ true
      → Installed (command_golden_install c env v args node result h)
  unfolding command_golden_install
  command_golden_install-right right = elim (Bool-cases (is_ok (env.result h golden_install))) [
    | inr failed ↦ rw right (rw failed (inr (refl, refl, ground arith, refl)))
    | inl done ↦
        elim (Bool-cases (is_negative (env.result (golden_install ∷ h) (schedule_reboot 500)))) [
          | inl busy ↦ rw right (rw done (rw busy (inl (refl, inl (refl, (refl, refl, refl))))))
          | inr taken ↦
              rw right (rw done (rw taken (inl (refl, inr (_, refl, (refl, refl, refl))))))
        ]
  ]

  command_golden_install-wrong :
      pin_accepted c v (args 0).text ≡ false
      → Denied (command_golden_install c env v args node result h)
  unfolding command_golden_install
  command_golden_install-wrong wrong = rw wrong (_, (refl, refl, refl))

  -- With the parameter service and over pins of bytes, a golden_install command with another pin
  -- than the stored one is denied and calls nothing but the log. With the stored pin it installs
  -- the image; a failure is returned, without a reset and not as OK, and a success schedules the
  -- reset as a reboot command does.
  command_golden_install_result :
      c.param ≡ true
      → All IsByte (args 0).text
      → All IsByte v.reboot_pin
      → (((args 0).text ≡ v.reboot_pin)
          × Installed (command_golden_install c env v args node result h))
        ⊎ (((args 0).text ≢ v.reboot_pin)
            × Denied (command_golden_install c env v args node result h))
  unfolding pin_accepted
  command_golden_install_result on hp hs =
      let same = (reboot_pin_matches_iff v (args 0).text hp hs).0 in
      elim (Bool-cases (reboot_pin_matches v (some (args 0).text))) [
        | inl match ↦ inl (same.0 match, command_golden_install-right (rw on match))
        | inr other ↦
            inr ((λ e. ground (arith, same.1 e)), command_golden_install-wrong (rw on other))
      ]
