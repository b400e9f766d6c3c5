-- ===== src/Store/Transport/Examples.antt =====
-- Concrete runs of the routing tables.
use bellman.Common.{
  ◌≡◌, refl, arith, true, none, [], ◌∷◌, String, done, and_then, update_where, keep_where,
  count_where, any_where, order_by, insert_by,
}
use bellman.Store.Transport.{
  TransportProjection, Transport, transport_projection, file, ipc, pending, picked_up,
  insert_transport_projection, mark_transport_picked_up, requeue_transport_projection,
  convert_projection_to_file, prune_transport_for_timer, target_cursor, next_publication_order,
  due_transport_projections, raise_cursor, max_order,
}
use bellman.Store.Transport.Settled.{Holds, Steps-Holds, inserts, requeues, converts, prunes}

abbrev path : String
path = "fires/fire.json"

abbrev first : TransportProjection
first = record {
  run_id = 1;
  timer_id = 7;
  kind = ipc;
  target_path = path;
  payload = "first";
  publication_order = 1;
  state = pending;
  attempts = 0;
  next_attempt_at = 10;
  created_at = 10;
  published_at = none;
}

abbrev second : TransportProjection
second = record first {
  run_id = 2;
  timer_id = 8;
  kind = file;
  payload = "second";
  publication_order = 2;
}

abbrev one_row : Transport
one_row = insert_transport_projection first (record { rows = []; cursors = [] })

abbrev two_rows : Transport
two_rows = insert_transport_projection second one_row

second_order : next_publication_order one_row ≡ 2
unfolding next_publication_order max_order insert_transport_projection keep_where
second_order = refl

cursor_of_second : target_cursor path two_rows.cursors ≡ 2
unfolding target_cursor insert_transport_projection raise_cursor
cursor_of_second = refl

oldest_first : due_transport_projections 10 1 two_rows ≡ first ∷ []
unfolding due_transport_projections insert_transport_projection keep_where order_by insert_by
oldest_first = refl

converted_once : (convert_projection_to_file 1 path "stub" two_rows).0 ≡ true
unfolding convert_projection_to_file insert_transport_projection count_where keep_where
converted_once = refl

cursor_pruned : target_cursor path (prune_transport_for_timer 7 one_row).cursors ≡ 0
unfolding target_cursor prune_transport_for_timer insert_transport_projection raise_cursor
    keep_where any_where
cursor_pruned = refl

abbrev settled : TransportProjection
settled = record first { state = picked_up }

abbrev picked : Transport
picked = mark_transport_picked_up 1 one_row

picked-Holds : Holds 1 settled picked
unfolding mark_transport_picked_up insert_transport_projection transport_projection update_where
    keep_where
picked-Holds = refl

Steps-Holds_example : Holds 1 settled (
    prune_transport_for_timer 8
      (convert_projection_to_file 1 path "stub"
        (requeue_transport_projection 1 20 (insert_transport_projection second picked))).1)
Steps-Holds_example =
    Steps-Holds 1 settled 7 picked _ refl refl
      (and_then (inserts second (λ e. ground (arith, e))) (
        and_then (requeues 1 20)
          (and_then (converts 1 path "stub") (and_then (prunes 8 (λ e. ground (arith, e))) done))))
      picked-Holds
