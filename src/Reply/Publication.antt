-- ===== src/Reply/Publication.antt =====
-- How the notification of a fire is routed: crates/bellman-core/src/reply/publication.rs and notification.rs.
-- A path is its text; the attempts to publish are left out.
use Prim.Native.String.{◌++◌}
use bellman.Common.{ℕ, Bool, ◌&&◌, if◌then◌else◌, Option, none, some, String}
use bellman.Occurrence.Kind.{OccurrenceKind, once, interval, daily, weekly, monthly, yearly, cron}
use bellman.Store.Ledger.{RunClaim}
use bellman.Store.Models.{Timer, TransportMode}
use bellman.Store.Transport.{TransportProjection, ProjectionKind, file, pending}

pub data SelectedTransport : Type 0 where
  json ipc : SelectedTransport

unfoldable pub transport_text : SelectedTransport → String
transport_text json = "json"
transport_text ipc = "ipc"

-- The IPC server: whether it is live, and the timers that a connected client holds.
pub record IpcHandle : Type 0 where
  pub is_live : Bool
  pub has_client : ℕ → Bool
  pub socket : String

-- A notification; the socket is the endpoint of the server.
pub record FireNotification : Type 0 where
  pub schema : String
  pub kind : String
  pub occurrence_kind : String
  pub timer_id : ℕ
  pub timer_name : String
  pub app_name : String
  pub run_id : ℕ
  pub scheduled_for : ℕ
  pub fired_at : ℕ
  pub status_path : String
  pub reply_path : Option String
  pub socket : Option String

-- The settings of the engine, and what the code takes from the standard library, uuid and serde_json.
pub record Publisher : Type 0 where
  pub data_dir : String
  pub fire_slot_file : Option String
  pub ipc : Option IpcHandle
  pub join : String → String → String
  pub uuid_text : ℕ → String
  pub to_json : FireNotification → Option String

abbrev pub fire_schema : String
fire_schema = "bellman-slot/1"

-- `OccurrenceKind::kind_label`.
unfoldable pub kind_label : OccurrenceKind → String
kind_label (once at) = "once"
kind_label (interval every_secs anchor) = "interval"
kind_label (daily at) = "daily"
kind_label (weekly days at) = "weekly"
kind_label (monthly day at) = "monthly"
kind_label (yearly month day at) = "yearly"
kind_label (cron expr) = "cron"

abbrev pub over_socket : Option IpcHandle → (IpcHandle → Bool) → SelectedTransport
over_socket none admits = json
over_socket (some h) admits = if admits h then ipc else json

unfoldable pub select_transport : Publisher → Timer → SelectedTransport
select_transport via t = elim t.transport [
  | TransportMode.json ↦ json
  | TransportMode.ipc ↦ over_socket via.ipc (λ h. h.is_live)
  | TransportMode.auto ↦ over_socket via.ipc (λ h. h.is_live && h.has_client t.id)
]

abbrev pub socket_of : Option IpcHandle → Option String
socket_of none = none
socket_of (some h) = some h.socket

abbrev pub reply_file_name : Publisher → ℕ → String
reply_file_name via run_id = "reply-" ++ via.uuid_text run_id ++ ".json"

abbrev pub fire_notification_name : Publisher → ℕ → String
fire_notification_name via run_id = "fire-" ++ via.uuid_text run_id ++ ".json"

abbrev pub slot_file : Publisher → ℕ → Option String → String
slot_file via run_id (some name) = name
slot_file via run_id none = fire_notification_name via run_id

-- The reply path, the adapter and the target.
unfoldable pub route :
    Publisher → ℕ → ℕ → String → SelectedTransport → Option String × ProjectionKind × String
route via timer_id run_id folder json = (
  some (via.join folder (reply_file_name via run_id)),
  file,
  via.join (via.join (via.join via.data_dir "slots") "fires")
      (slot_file via run_id via.fire_slot_file),
)
route via timer_id run_id folder ipc =
    (none, ProjectionKind.ipc, "ipc://" ++ via.uuid_text timer_id)

-- `FireNotification::new` with the arguments of `new_projection`.
unfoldable pub notification :
    Publisher → Timer → RunClaim → String → String → String → Option String → FireNotification
unfolding kind_label
notification via t claim fire_state folder app_name reply_path = record {
  schema = fire_schema;
  kind = fire_state;
  occurrence_kind = kind_label t.occurrence.kind;
  timer_id = t.id;
  timer_name = t.name;
  app_name = app_name;
  run_id = claim.run_id;
  scheduled_for = claim.scheduled_for;
  fired_at = claim.claimed_at;
  status_path = via.join folder "status.json";
  reply_path = reply_path;
  socket = socket_of via.ipc;
}

abbrev pub projected :
    Timer → RunClaim → ℕ → ℕ → ProjectionKind → String → Option String → Option TransportProjection
projected t claim order now kind target none = none
projected t claim order now kind target (some payload) = some (record {
  run_id = claim.run_id;
  timer_id = t.id;
  kind = kind;
  target_path = target;
  payload = payload;
  publication_order = order;
  state = pending;
  attempts = 0;
  next_attempt_at = now;
  created_at = now;
  published_at = none;
})

-- `new_projection`; `none` is a notification that serde_json does not write.
unfoldable pub new_projection :
    Publisher
    → Timer
    → RunClaim
    → String
    → String
    → String
    → ℕ
    → ℕ
    → SelectedTransport
    → Option TransportProjection
unfolding route notification
new_projection via t claim fire_state folder app_name order now selected =
    let (reply_path, kind, target) = route via t.id claim.run_id folder selected in
    projected t claim order now kind target
      (via.to_json (notification via t claim fire_state folder app_name reply_path))
