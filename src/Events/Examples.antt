-- ===== src/Events/Examples.antt =====
-- A concrete name of a state.
use bellman.Common.{◌≡◌, ◌↔◌, some}
use bellman.Events.Record.{from_wire, state_text, no_ack}
use bellman.Events.Record.Wire.{from_wire-state_text}

from_wire-state_text_example : (from_wire "no_ack" ≡ some no_ack) ↔ ("no_ack" ≡ state_text no_ack)
from_wire-state_text_example = from_wire-state_text "no_ack" no_ack
