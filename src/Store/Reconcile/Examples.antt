-- ===== src/Store/Reconcile/Examples.antt =====
-- A node whose Agent has been silent for 100 seconds.
use poly_fleet.Base.{
  ℕ, Option, ◌<◌, ◌+◌, ◌≤◌, ◌≡◌, refl, none, some, [], ◌∷◌, ok, find, exists, select, update, count,
  arith, max_int64,
}
use poly_fleet.Schema.{
  Db, Node, Alert, AlertType, AlertStatus, offline, critical, bytes, is_live_node, is_node,
}
use poly_fleet.Store.Fixtures.{start, node}
use poly_fleet.Store.Traffic.Account.{checked_add}
use poly_fleet.Store.Calibration.{effective_node_traffic_used}
use poly_fleet.Store.Alert.{
  queue_delivery, queue_deliveries, enqueue_alert_notification, notify_alert, upsert_alert,
  resolve_alert,
}
use poly_fleet.Store.Alert.Effect.{KeyedAlerts, active_alerts, one_if}
use poly_fleet.Store.Reconcile.{
  traffic_used_column, alert_conditions, checks, apply_check, apply_checks, reconcile_nodes,
  reconcile_alerts, condition_row, expired_db,
}
use poly_fleet.Store.Reconcile.Verdict.{due}
use poly_fleet.Store.Reconcile.Settles.{
  reconcile_settles, reconcile_keeps, traffic_used_column_effective,
}

abbrev uuid : ℕ → ℕ
uuid n = n + 1000

abbrev no_reals : Node → Option ℕ
no_reals n = none

abbrev silent : Alert
silent = record {
  id = 1000;
  node_id = 1;
  type = offline;
  severity = critical;
  status = AlertStatus.open_alert;
  message = bytes "Agent heartbeat is overdue";
  first_seen_at = 100000;
  last_seen_at = 100000;
  acknowledged_by = none;
  acknowledged_at = none;
  resolved_at = none;
  created_at = 100000;
  updated_at = 100000;
}

abbrev alarmed_db : Db
alarmed_db = record start { alerts = silent ∷ []; drawn = 1 }

reconciled : reconcile_alerts uuid no_reals 100000 90000 300000 start ≡ ok alarmed_db
unfolding reconcile_alerts alert_conditions traffic_used_column checked_add reconcile_nodes
    apply_checks apply_check checks upsert_alert resolve_alert notify_alert
    enqueue_alert_notification queue_deliveries queue_delivery find exists select update
reconciled = refl

no_alerts : KeyedAlerts start
unfolding count
no_alerts = record { ids = λ k. ground arith; active = λ n t. ground arith }

one_node : count (is_node 1) start.nodes ≤ 1
unfolding count
one_node = ground arith

node_is : find (is_live_node 1) start.nodes ≡ some node
unfolding find
node_is = refl

reconcile_settles_example :
    (used : ℕ) × (traffic_used_column no_reals node ≡ some used)
    × (active_alerts 1 offline alarmed_db
        ≡ one_if
            (due 100000 90000 300000 (condition_row (expired_db 100000 start) node used) offline))
reconcile_settles_example =
    reconcile_settles uuid no_reals 100000 90000 300000 start alarmed_db 1 node offline
      (omega arith) (omega arith) no_alerts one_node node_is reconciled

reconcile_keeps_example :
    KeyedAlerts alarmed_db
    × ((k : ℕ) (t : AlertType)
        → find (is_live_node k) start.nodes ≡ none
        → active_alerts k t alarmed_db ≡ active_alerts k t start)
reconcile_keeps_example =
    reconcile_keeps uuid no_reals 100000 90000 300000 start alarmed_db no_alerts reconciled

shows_less : effective_node_traffic_used node < max_int64
unfolding effective_node_traffic_used checked_add
shows_less = omega arith

traffic_used_column_effective_example :
    traffic_used_column no_reals node ≡ some (effective_node_traffic_used node)
traffic_used_column_effective_example = traffic_used_column_effective no_reals node shows_less
