-- ===== src/Platform/Wake/MacosDecision.antt =====
-- The wake capability on macOS: crates/bellman-core/src/platform/wake/macos_decision.rs.
use bellman.Common.{
  ◌≡◌, ◌↔◌, arith, Bool, true, not, if◌then◌else◌, Option, none, some, [], ◌∷◌, String,
}
use bellman.Platform.Wake.{
  WakeCapability, enabled, disabled, is_enabled, probe_failed, helper_awaiting_approval,
  helper_not_installed, hibernate_not_guaranteed, apple_silicon_best_effort, mac_pm_daemon,
}

pub data HelperStatus : Type 0 where
  helper_enabled requires_approval not_registered not_found : HelperStatus

pub record MacosProbeFacts : Type 0 where
  pub helper : HelperStatus
  pub sentinel_ok : Bool
  pub apple_silicon : Bool
  pub sentinel_error : Option String

abbrev pub sentinel_detail : Option String → String
sentinel_detail (some error) = error
sentinel_detail none = "daemon sentinel schedule/cancel failed"

-- The answer for each state of the helper.
unfoldable pub decide_helper : HelperStatus → MacosProbeFacts → WakeCapability
decide_helper requires_approval facts = disabled helper_awaiting_approval
decide_helper not_registered facts = disabled helper_not_installed
decide_helper not_found facts = disabled helper_not_installed
decide_helper helper_enabled facts =
    if not facts.sentinel_ok
    then disabled (probe_failed (sentinel_detail facts.sentinel_error))
    else enabled mac_pm_daemon (
        hibernate_not_guaranteed
        ∷ (if facts.apple_silicon then apple_silicon_best_effort ∷ [] else []))

unfoldable pub decide : MacosProbeFacts → WakeCapability
unfolding decide_helper
decide facts = decide_helper facts.helper facts

helper_decides :
    (helper : HelperStatus) (facts : MacosProbeFacts)
    → (is_enabled (decide_helper helper facts) ≡ true)
      ↔ (helper ≡ helper_enabled) × (facts.sentinel_ok ≡ true)
unfolding decide_helper
helper_decides requires_approval facts = ((λ h. ground arith), λ h. ground arith)
helper_decides not_registered facts = ((λ h. ground arith), λ h. ground arith)
helper_decides not_found facts = ((λ h. ground arith), λ h. ground arith)
helper_decides helper_enabled facts = ((λ h. ground arith), λ h. ground arith)

-- macOS can wake exactly if the helper is enabled and the sentinel round trip through it succeeded.
decide-macos :
    (facts : MacosProbeFacts)
    → (is_enabled (decide facts) ≡ true)
      ↔ (facts.helper ≡ helper_enabled) × (facts.sentinel_ok ≡ true)
unfolding decide
decide-macos facts = helper_decides facts.helper facts
