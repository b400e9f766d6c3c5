-- ===== src/Store/Transport.antt =====
-- The routing of fire notifications: the tables `transport_projections` and `target_cursors` of
-- crates/bellman-core/src/store/mod.rs. The publication order stays below 2^63.
pub mod Settled
mod Examples
use text.Mathlib.Text
use bellman.Common.{
  ℕ, ◌+◌, Bool, true, false, not, ◌&&◌, ◌||◌, ◌==◌, ltb, leb, if◌then◌else◌, Option, none, some,
  List, [], ◌∷◌, String, take, update_where, count_where, keep_where, any_where, order_by,
}

pub data ProjectionState : Type 0 where
  pending published obsolete picked_up : ProjectionState

pub data ProjectionKind : Type 0 where
  file ipc : ProjectionKind

pub record TransportProjection : Type 0 where
  pub run_id : ℕ
  pub timer_id : ℕ
  pub kind : ProjectionKind
  pub target_path : String
  pub payload : String
  pub publication_order : ℕ
  pub state : ProjectionState
  pub attempts : ℕ
  pub next_attempt_at : ℕ
  pub created_at : ℕ
  pub published_at : Option ℕ

-- The rows, the newest first, and the cursor of each target.
pub record Transport : Type 0 where
  pub rows : List TransportProjection
  pub cursors : List (String × ℕ)

abbrev pub is_pending : ProjectionState → Bool
is_pending pending = true
is_pending published = false
is_pending obsolete = false
is_pending picked_up = false

abbrev pub is_published : ProjectionState → Bool
is_published published = true
is_published pending = false
is_published obsolete = false
is_published picked_up = false

-- `state IN (pending, published)`.
abbrev pub is_live : ProjectionState → Bool
is_live s = is_pending s || is_published s

unfoldable pub max_order : List TransportProjection → ℕ
max_order [] = 0
max_order (r ∷ rows) =
    let rest = max_order rows in if ltb rest r.publication_order then r.publication_order else rest

-- `next_publication_order_conn`.
unfoldable pub next_publication_order : Transport → ℕ
unfolding max_order
next_publication_order t = max_order t.rows + 1

-- The upsert of a cursor, which never goes back.
unfoldable pub raise_cursor : String → ℕ → List (String × ℕ) → List (String × ℕ)
raise_cursor path order [] = (path, order) ∷ []
raise_cursor path order ((p, n) ∷ cursors) =
    let rest = raise_cursor path order cursors in
    if Text.◌==◌ p path then (p, if ltb n order then order else n) ∷ cursors else (p, n) ∷ rest

-- `target_cursor`.
unfoldable pub target_cursor : String → List (String × ℕ) → ℕ
target_cursor path [] = 0
target_cursor path ((p, n) ∷ cursors) =
    let rest = target_cursor path cursors in if Text.◌==◌ p path then n else rest

abbrev pub has_run : ℕ → TransportProjection → Bool
has_run run_id r = r.run_id == run_id

-- `insert_transport_projection_conn`: `INSERT OR REPLACE`, and the cursor of the target.
unfoldable pub insert_transport_projection : TransportProjection → Transport → Transport
unfolding raise_cursor
insert_transport_projection proj t = record {
  rows = proj ∷ keep_where (λ r. not (has_run proj.run_id r)) t.rows;
  cursors = raise_cursor proj.target_path proj.publication_order t.cursors;
}

-- `UPDATE transport_projections SET … WHERE run_id = … AND …`.
abbrev pub update_run :
    ℕ
    → (ProjectionState → Bool)
    → (TransportProjection → TransportProjection)
    → Transport
    → Transport
update_run run_id admits change t = record t {
  rows = update_where (λ r. has_run run_id r && admits r.state) change t.rows;
}

unfoldable pub mark_transport_published : ℕ → ℕ → Transport → Transport
mark_transport_published run_id now t =
    update_run run_id is_pending (λ r. record r { state = published; published_at = some now }) t

unfoldable pub mark_transport_obsolete : ℕ → Transport → Transport
mark_transport_obsolete run_id t = update_run run_id is_live (λ r. record r { state = obsolete }) t

unfoldable pub requeue_transport_projection : ℕ → ℕ → Transport → Transport
requeue_transport_projection run_id now t =
    update_run run_id is_published (λ r. record r { state = pending; next_attempt_at = now }) t

unfoldable pub defer_transport_projection : ℕ → ℕ → ℕ → Transport → Transport
defer_transport_projection run_id attempts next_attempt_at t =
    update_run run_id is_pending
      (λ r. record r { attempts = attempts; next_attempt_at = next_attempt_at }) t

-- Whether a live projection was converted.
unfoldable pub convert_projection_to_file : ℕ → String → String → Transport → Bool × Transport
convert_projection_to_file run_id target_path payload t = (
  count_where (λ r. has_run run_id r && is_live r.state) t.rows == 1,
  update_run run_id is_live
      (λ r. record r { kind = file; target_path = target_path; payload = payload; state = pending })
      t,
)

unfoldable pub mark_transport_picked_up : ℕ → Transport → Transport
mark_transport_picked_up run_id t =
    update_run run_id is_live (λ r. record r { state = picked_up }) t

-- `ORDER BY publication_order ASC`.
abbrev pub by_order : TransportProjection → TransportProjection → Bool
by_order r q = leb r.publication_order q.publication_order

unfoldable pub transport_projection : ℕ → List TransportProjection → Option TransportProjection
transport_projection run_id [] = none
transport_projection run_id (r ∷ rows) =
    let rest = transport_projection run_id rows in if r.run_id == run_id then some r else rest

unfoldable pub due_transport_projections : ℕ → ℕ → Transport → List TransportProjection
due_transport_projections now limit t =
    take limit
      (order_by by_order (keep_where (λ r. is_pending r.state && leb r.next_attempt_at now) t.rows))

unfoldable pub live_transport_projections : ℕ → Transport → List TransportProjection
live_transport_projections limit t =
    take limit (order_by by_order (keep_where (λ r. is_live r.state) t.rows))

abbrev pub targets : String → TransportProjection → Bool
targets path r = Text.◌==◌ r.target_path path

-- `prune_transport_for_timer`: the cursors that no row refers to any more go too.
unfoldable pub prune_transport_for_timer : ℕ → Transport → Transport
prune_transport_for_timer timer_id t =
    let rows = keep_where (λ (r : TransportProjection). not (r.timer_id == timer_id)) t.rows in
    record { rows = rows; cursors = keep_where (λ (p, n). any_where (targets p) rows) t.cursors }
