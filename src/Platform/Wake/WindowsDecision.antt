-- ===== src/Platform/Wake/WindowsDecision.antt =====
-- The wake capability on Windows: crates/bellman-core/src/platform/wake/windows_decision.rs.
use bellman.Common.{
  ℕ, ◌≡◌, ◌↔◌, ◌≢◌, arith, Bool, true, false, not, ◌||◌, ◌==◌, if◌then◌else◌, [], ◌∷◌,
}
use bellman.Platform.Wake.{
  WakeCapability, enabled, disabled, is_enabled, PowerRail, ac, dc, probe_failed,
  resume_timers_unsupported, wake_timers_disabled_by_policy, hibernate_not_guaranteed,
  modern_standby_screen_off, windows_waitable_timer,
}

-- `Result<(), bool>`.
pub data ArmTest : Type 0 where
  clean : ArmTest
  arm_error : Bool → ArmTest

pub record WindowsProbeFacts : Type 0 where
  pub ao_ac : Bool
  pub rtc_wake_ok : Bool
  pub ac_rtcwake : ℕ
  pub dc_rtcwake : ℕ
  pub ac_line_status : ℕ
  pub arm_test : ArmTest

-- The power rail in use; an unknown one counts as AC.
abbrev pub rail : WindowsProbeFacts → PowerRail
rail facts = if facts.ac_line_status == 1 then ac else if facts.ac_line_status == 0 then dc else ac

abbrev pub rail_value : WindowsProbeFacts → ℕ
rail_value facts =
    if facts.ac_line_status == 1
    then facts.ac_rtcwake
    else if facts.ac_line_status == 0
    then facts.dc_rtcwake
    else facts.ac_rtcwake

unfoldable pub decide_arm_test : ArmTest → WindowsProbeFacts → WakeCapability
decide_arm_test (arm_error true) facts = disabled resume_timers_unsupported
decide_arm_test (arm_error false) facts = disabled (probe_failed "SetWaitableTimer arm test failed")
decide_arm_test clean facts =
    enabled windows_waitable_timer
      (hibernate_not_guaranteed ∷ (if facts.ao_ac then modern_standby_screen_off ∷ [] else []))

unfoldable pub decide : WindowsProbeFacts → WakeCapability
unfolding decide_arm_test
decide facts =
    let value = rail_value facts in
    if not facts.rtc_wake_ok
    then disabled resume_timers_unsupported
    else if (value == 0) || (value == 2)
    then disabled (wake_timers_disabled_by_policy (rail facts) value)
    else decide_arm_test facts.arm_test facts

arm_test_decides :
    (t : ArmTest) (facts : WindowsProbeFacts)
    → (is_enabled (decide_arm_test t facts) ≡ true) ↔ (t ≡ clean)
unfolding decide_arm_test
arm_test_decides (arm_error true) facts = ((λ h. ground arith), λ h. ground arith)
arm_test_decides (arm_error false) facts = ((λ h. ground arith), λ h. ground arith)
arm_test_decides clean facts = ((λ h. ground arith), λ h. ground arith)

-- Windows can wake exactly if the clock can resume the machine, the policy of the power rail in use
-- neither forbids wake timers nor admits only important ones, and the arm test was clean.
decide-windows :
    (facts : WindowsProbeFacts)
    → (is_enabled (decide facts) ≡ true)
      ↔ (facts.rtc_wake_ok ≡ true)
        × (rail_value facts ≢ 0)
        × (rail_value facts ≢ 2)
        × (facts.arm_test ≡ clean)
unfolding decide
decide-windows facts = (
  (λ h. ground (arith, arm_test_decides facts.arm_test facts)),
  λ h. ground (arith, arm_test_decides facts.arm_test facts),
)
