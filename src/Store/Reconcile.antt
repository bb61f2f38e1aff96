-- ===== src/Store/Reconcile.antt =====
-- `ReconcileAlerts` of internal/store/alert.go. Instants and durations are whole milliseconds.
pub mod Verdict
pub mod Settles
pub mod Frame
mod Examples
use poly_fleet.Base.{
  ℕ, ◌+◌, ◌-◌, ◌*◌, ◌/◌, Bool, true, false, ◌&&◌, ◌||◌, not, Option, none, some, List, [], ◌∷◌,
  ◌==◌, leb, ltb, if◌then◌else◌, Result, ok, err, internal, ◌>>=◌, find, exists, select, update,
}
use poly_fleet.Schema.{
  Db, Node, NodeStatus, Snapshot, Assignment, AssignmentState, Operation, AlertType, offline,
  degraded, core_down, usage_error, sync_failed, sync_stuck, operation_failed,
  traffic_quota_warning, traffic_quota_exhausted, Severity, warning, critical, Text, bytes, is_none,
}
use poly_fleet.Store.Texts.{is_empty}
use poly_fleet.Store.Traffic.Account.{checked_add}
use poly_fleet.Store.Operation.Pending.{expire_row, is_queued}
use poly_fleet.Store.Operation.Result.{is_unrecovered}
use poly_fleet.Store.Alert.{upsert_alert, resolve_alert}

pub record AlertCondition : Type 0 where
  pub node_id : ℕ
  pub enabled : Bool
  pub is_degraded : Bool
  pub status_reason : Text
  pub installed : Bool
  pub core_running : Bool
  pub last_activity_at : ℕ
  pub usage_enabled : Bool
  pub usage_error_code : Text
  pub desired_version : ℕ
  pub applied_version : ℕ
  pub desired_created_at : ℕ
  pub failed_assignments : Bool
  pub unrecovered_operation_failure : Bool
  pub traffic_limit_bytes : ℕ
  pub traffic_used_bytes : ℕ

abbrev status_is_degraded : NodeStatus → Bool
status_is_degraded NodeStatus.degraded = true
status_is_degraded _ = false

abbrev state_is_failed : AssignmentState → Bool
state_is_failed AssignmentState.failed = true
state_is_failed _ = false

abbrev coalesce : Option ℕ → ℕ → ℕ
coalesce none t = t
coalesce (some s) t = s

abbrev snapshot_time : Option Snapshot → ℕ → ℕ
snapshot_time none t = t
snapshot_time (some s) t = s.created_at

-- The last column of the query, as it is scanned into an int64. Where a sum is more than an integer of
-- SQLite holds, SQLite goes on with floats; what comes of them is `real_used`, none where the scan
-- refuses it.
unfoldable pub traffic_used_column : (Node → Option ℕ) → Node → Option ℕ
traffic_used_column real_used n =
    elim (checked_add n.traffic_cycle_upload_bytes n.traffic_cycle_download_bytes) [
      | none ↦ real_used n
      | some proxied ↦ elim n.traffic_calibration_bytes [
        | none ↦ some proxied
        | some calibration ↦ elim n.traffic_calibration_proxy_bytes [
          | none ↦ some proxied
          | some proxy ↦ elim (checked_add calibration (proxied - proxy)) [
            | none ↦ real_used n
            | some used ↦ some used
          ]
        ]
      ]
    ]

abbrev pub condition_row : Db → Node → ℕ → AlertCondition
condition_row db n used = record {
  node_id = n.id;
  enabled = n.enabled;
  is_degraded = status_is_degraded n.status;
  status_reason = n.status_reason;
  installed = not (n.agent_installation_id == 0);
  core_running = n.core_running;
  last_activity_at = coalesce n.last_seen_at n.updated_at;
  usage_enabled = n.usage_enabled;
  usage_error_code = n.usage_error_code;
  desired_version = n.desired_version;
  applied_version = n.applied_version;
  desired_created_at =
      snapshot_time
        (find (λ (s : Snapshot). (s.node_id == n.id) && (s.version == n.desired_version))
          db.snapshots)
        n.updated_at;
  failed_assignments =
      exists (λ (a : Assignment). (a.node_id == n.id) && state_is_failed a.state) db.assignments;
  unrecovered_operation_failure = exists (is_unrecovered db.operations n.id) db.operations;
  traffic_limit_bytes = n.traffic_limit_bytes;
  traffic_used_bytes = used;
}

-- The query: one row for each node that is not archived, all of them read before the loop.
unfoldable pub alert_conditions : (Node → Option ℕ) → Db → List Node → Result (List AlertCondition)
alert_conditions real_used db [] = ok []
alert_conditions real_used db (n ∷ ns) = alert_conditions real_used db ns >>= λ rest.
    if is_none n.archived_at
    then (elim (traffic_used_column real_used n) [
      | none ↦ err internal
      | some used ↦ ok (condition_row db n used ∷ rest)
    ])
    else ok rest

pub record Check : Type 0 where
  pub alert_type : AlertType
  pub severity : Severity
  pub active : Bool
  pub message : Text

abbrev pub recent : ℕ → ℕ → AlertCondition → Bool
recent now offline_after c = ltb now (c.last_activity_at + offline_after)

abbrev pub traffic_warning : AlertCondition → Bool
traffic_warning c =
    ltb 0 c.traffic_limit_bytes
    && (ltb c.traffic_used_bytes c.traffic_limit_bytes
        && leb (c.traffic_limit_bytes - c.traffic_limit_bytes / 5) c.traffic_used_bytes)

abbrev pub traffic_exhausted : AlertCondition → Bool
traffic_exhausted c = ltb 0 c.traffic_limit_bytes && leb c.traffic_limit_bytes c.traffic_used_bytes

abbrev check : AlertType → Severity → Bool → Text → Check
check type severity active message = record {
  alert_type = type;
  severity = severity;
  active = active;
  message = message;
}

unfoldable pub checks : ℕ → ℕ → ℕ → AlertCondition → List Check
checks now offline_after sync_stuck_after c =
    check offline critical (c.enabled && (c.installed && not (recent now offline_after c)))
      (bytes "Agent heartbeat is overdue")
    ∷ check degraded warning (c.enabled && c.is_degraded) c.status_reason
    ∷ check core_down critical
        (c.enabled && (c.installed && (recent now offline_after c && not c.core_running)))
        (bytes "core service is not running")
    ∷ check usage_error warning
        (c.enabled && (c.usage_enabled && not (is_empty c.usage_error_code))) c.usage_error_code
    ∷ check sync_failed warning (c.enabled && c.failed_assignments)
        (bytes "one or more desired assignments failed")
    ∷ check sync_stuck warning
        (c.enabled
          && (c.installed
              && (ltb c.applied_version c.desired_version
                  && leb (c.desired_created_at + sync_stuck_after) now)))
        (bytes "desired state has not been applied within the expected window")
    ∷ check operation_failed warning c.unrecovered_operation_failure
        (bytes "a node operation failed or expired")
    ∷ check traffic_quota_warning warning (traffic_warning c)
        (bytes "node traffic has reached 80% of the configured monthly allowance")
    ∷ check traffic_quota_exhausted critical (traffic_exhausted c)
        (bytes "node traffic has reached the configured monthly allowance")
    ∷ []

abbrev type_name : AlertType → Text
type_name offline = bytes "offline"
type_name degraded = bytes "degraded"
type_name core_down = bytes "core_down"
type_name usage_error = bytes "usage_error"
type_name sync_failed = bytes "sync_failed"
type_name sync_stuck = bytes "sync_stuck"
type_name operation_failed = bytes "operation_failed"
type_name traffic_quota_warning = bytes "traffic_quota_warning"
type_name traffic_quota_exhausted = bytes "traffic_quota_exhausted"

abbrev pub message_of : Check → Text
message_of k = if is_empty k.message then type_name k.alert_type else k.message

abbrev pub is_overdue : ℕ → Operation → Bool
is_overdue now o = is_queued o.status && leb o.expires_at now

-- The database that the conditions are read from.
abbrev pub expired_db : ℕ → Db → Db
expired_db now db = record db {
  operations = update (is_overdue now) (expire_row now) db.operations;
}

abbrev pub or_default : ℕ → ℕ → ℕ
or_default default d = if d == 0 then default else d

module _ (new_uuid : ℕ → ℕ) where
  unfoldable pub apply_check : ℕ → Check → ℕ → Db → Result Db
  apply_check node k now db =
      if k.active
      then upsert_alert new_uuid node k.alert_type k.severity (message_of k) now db
      else resolve_alert new_uuid node k.alert_type now db

  unfoldable pub apply_checks : ℕ → List Check → ℕ → Db → Result Db
  apply_checks node [] now db = ok db
  apply_checks node (k ∷ ks) now db =
      apply_check node k now db >>= λ db'. apply_checks node ks now db'

  unfoldable pub reconcile_nodes : List AlertCondition → ℕ → ℕ → ℕ → Db → Result Db
  reconcile_nodes [] now offline_after sync_stuck_after db = ok db
  reconcile_nodes (c ∷ cs) now offline_after sync_stuck_after db =
      apply_checks c.node_id (checks now offline_after sync_stuck_after c) now db >>= λ db'.
      reconcile_nodes cs now offline_after sync_stuck_after db'

  unfoldable pub reconcile_alerts : (Node → Option ℕ) → ℕ → ℕ → ℕ → Db → Result Db
  reconcile_alerts real_used now offline_after sync_stuck_after db =
      alert_conditions real_used (expired_db now db) db.nodes >>= λ conditions.
      reconcile_nodes conditions now (or_default 90000 offline_after)
        (or_default 300000 sync_stuck_after) (expired_db now db)
