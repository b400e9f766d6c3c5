-- ===== src/Events/Record/Wire.antt =====
-- The wire names of the states: crates/bellman-core/src/events/record.rs.
use mathlib.Core.Option.{some-injective}
use text.Mathlib.Text
use text.Mathlib.TextEquality.{eq_iff}
use bellman.Common.{
  ◌≡◌, ◌↔◌, ◌∙◌, ap, sym, if_cases, refl, arith, if◌then◌else◌, Option, some, String,
}
use bellman.Events.Record.{RunState, from_wire, state_text}

pub reads_back : (s : RunState) → from_wire (state_text s) ≡ some s
unfolding from_wire state_text
reads_back RunState.registered = refl
reads_back RunState.fired = refl
reads_back RunState.fired_late = refl
reads_back RunState.skipped_misfire = refl
reads_back RunState.coalesced = refl
reads_back RunState.wake_delivered = refl
reads_back RunState.wake_failed = refl
reads_back RunState.no_ack = refl
reads_back RunState.pruned = refl
reads_back RunState.year_recalibrate = refl
reads_back RunState.wake_capability = refl
reads_back RunState.acknowledged = refl
reads_back RunState.running = refl
reads_back RunState.completed = refl
reads_back RunState.failed = refl
reads_back RunState.cancelled = refl
reads_back RunState.superseded = refl
reads_back RunState.reply_rejected = refl

-- One line of the table of names.
named :
    (w name : String) (s s' : RunState) (rest : Option RunState)
    → state_text s ≡ name
    → (rest ≡ some s' → w ≡ state_text s')
    → (if Text.◌==◌ w name then some s else rest) ≡ some s'
    → w ≡ state_text s'
named w name s s' rest e later =
    if_cases (λ found. found ≡ some s' → w ≡ state_text s') (Text.◌==◌ w name)
      (λ same h. (eq_iff w name).0 same ∙ sym e ∙ ap state_text (some-injective _ _ h))
      (λ other. later)

-- A text reads as a state exactly when it is the name that the state is written as, so each state reads back
-- as itself and no other text is a state.
pub from_wire-state_text : (w : String) (s : RunState) → (from_wire w ≡ some s) ↔ (w ≡ state_text s)
unfolding from_wire state_text
from_wire-state_text w s = (
  named w "registered" RunState.registered s _ refl (
      named w "fired" RunState.fired s _ refl (
        named w "fired_late" RunState.fired_late s _ refl (
          named w "skipped_misfire" RunState.skipped_misfire s _ refl (
            named w "coalesced" RunState.coalesced s _ refl (
              named w "wake_delivered" RunState.wake_delivered s _ refl (
                named w "wake_failed" RunState.wake_failed s _ refl (
                  named w "no_ack" RunState.no_ack s _ refl (
                    named w "pruned" RunState.pruned s _ refl (
                      named w "year_recalibrate" RunState.year_recalibrate s _ refl (
                        named w "wake_capability" RunState.wake_capability s _ refl (
                          named w "acknowledged" RunState.acknowledged s _ refl (
                            named w "running" RunState.running s _ refl (
                              named w "completed" RunState.completed s _ refl (
                                named w "failed" RunState.failed s _ refl (
                                  named w "cancelled" RunState.cancelled s _ refl (
                                    named w "superseded" RunState.superseded s _ refl (
                                      named w "reply_rejected" RunState.reply_rejected s _ refl
                                        (λ h. absurd (ground arith))))))))))))))))))),
  λ e. ap from_wire e ∙ reads_back s,
)
