-- ===== src/Store/Alert.antt =====
-- `upsertAlertTx`, `resolveAlertTx` and `AcknowledgeAlert` of internal/store/alert.go, and
-- `enqueueAlertNotificationTx` of notification.go. The payload of a notification is not kept.
-- `uuid.NewString` is the function `new_uuid` of the number of UUIDs drawn so far.
pub mod Effect
use poly_fleet.Base.{
  ℕ, suc, ◌+◌, Bool, true, false, ◌&&◌, not, Option, none, some, List, [], ◌∷◌, map, ◌==◌, ltb,
  if◌then◌else◌, Result, ok, err, not_found, conflict, internal, unsupported, ◌>>=◌, find, exists,
  select, update, length, take,
}
use poly_fleet.Schema.{
  Db, Node, Alert, AlertType, AlertStatus, Severity, Notifier, Delivery, DeliveryStatus, EventType,
  Text, is_none, is_node, is_active_alert,
}

abbrev pub has_id : ℕ → Alert → Bool
has_id k a = a.id == k

abbrev wants : EventType → Notifier → Bool
wants EventType.created n = n.enabled && n.on_created
wants EventType.resolved n = n.enabled && n.on_resolved

abbrev event_code : EventType → ℕ
event_code EventType.created = 0
event_code EventType.resolved = 1

abbrev pub is_delivery : ℕ → ℕ → EventType → Delivery → Bool
is_delivery notifier alert event d =
    (d.notifier_id == notifier)
    && ((d.alert_id == alert) && (event_code d.event_type == event_code event))

abbrev pub new_alert : ℕ → AlertType → Severity → Text → ℕ → ℕ → Alert
new_alert node type severity message now id = record {
  id = id;
  node_id = node;
  type = type;
  severity = severity;
  status = AlertStatus.open_alert;
  message = message;
  first_seen_at = now;
  last_seen_at = now;
  acknowledged_by = none;
  acknowledged_at = none;
  resolved_at = none;
  created_at = now;
  updated_at = now;
}

abbrev pub touch_row : Severity → Text → ℕ → Alert → Alert
touch_row severity text now x = record x {
  severity = severity;
  message = text;
  last_seen_at = now;
  updated_at = now;
}

abbrev pub resolve_row : ℕ → Alert → Alert
resolve_row now x = record x {
  status = AlertStatus.resolved;
  resolved_at = some now;
  updated_at = now;
}

module _ (new_uuid : ℕ → ℕ) where
  -- INSERT ... ON CONFLICT(notifier_id, alert_id, event_type) DO NOTHING; the UUID is drawn anyway,
  -- and is the primary key.
  unfoldable pub queue_delivery : ℕ → ℕ → EventType → ℕ → Db → Result Db
  queue_delivery notifier alert event now db =
      if exists (is_delivery notifier alert event) db.deliveries
      then ok (record db { drawn = suc db.drawn })
      else if exists (λ d. d.id == new_uuid db.drawn) db.deliveries
      then err internal
      else ok (record db {
        deliveries =
            record {
              id = new_uuid db.drawn;
              notifier_id = notifier;
              alert_id = alert;
              event_type = event;
              status = DeliveryStatus.queued;
              attempt_count = 0;
              next_attempt_at = now;
              last_error = [];
              response_code = 0;
              delivered_at = none;
              created_at = now;
              updated_at = now;
            }
            ∷ db.deliveries;
        drawn = suc db.drawn;
      })

  unfoldable pub queue_deliveries : List ℕ → ℕ → EventType → ℕ → Db → Result Db
  queue_deliveries [] alert event now db = ok db
  queue_deliveries (notifier ∷ notifiers) alert event now db =
      queue_delivery notifier alert event now db >>= λ db'.
      queue_deliveries notifiers alert event now db'

  unfoldable pub enqueue_alert_notification : ℕ → EventType → ℕ → Db → Result Db
  enqueue_alert_notification alert event now db =
      queue_deliveries (map (λ n. n.id) (select (wants event) db.notifiers)) alert event now db

  -- The payload is read through a join with the alert's node.
  unfoldable pub notify_alert : ℕ → ℕ → EventType → ℕ → Db → Result Db
  notify_alert alert node event now db =
      if exists (is_node node) db.nodes
      then enqueue_alert_notification alert event now db
      else err internal

  unfoldable pub upsert_alert : ℕ → AlertType → Severity → Text → ℕ → Db → Result Db
  upsert_alert node type severity message now db =
      let text = take 512 message in
      elim (find (is_active_alert node type) db.alerts) [
        | some a ↦
            ok (record db { alerts = update (has_id a.id) (touch_row severity text now) db.alerts })
        | none ↦
            if exists (has_id (new_uuid db.drawn)) db.alerts
            then err internal
            else notify_alert (new_uuid db.drawn) node EventType.created now (record db {
              alerts = new_alert node type severity text now (new_uuid db.drawn) ∷ db.alerts;
              drawn = suc db.drawn;
            })
      ]

  unfoldable pub resolve_alert : ℕ → AlertType → ℕ → Db → Result Db
  resolve_alert node type now db = elim (find (is_active_alert node type) db.alerts) [
    | none ↦ ok db
    | some a ↦ notify_alert a.id node EventType.resolved now (record db {
      alerts = update (λ x. has_id a.id x && is_none x.resolved_at) (resolve_row now) db.alerts;
    })
  ]

-- The row that is read back is that of `id`.
unfoldable pub acknowledge_alert : ℕ → ℕ → ℕ → Db → Result Db
acknowledge_alert alert admin now db =
    if exists (λ x. has_id alert x && is_none x.resolved_at) db.alerts
    then ok (record db {
      alerts =
          update (λ x. has_id alert x && is_none x.resolved_at)
            (λ x. record x {
              status = AlertStatus.acknowledged;
              acknowledged_by = some admin;
              acknowledged_at = some now;
              updated_at = now;
            })
            db.alerts;
    })
    else if exists (has_id alert) db.alerts
    then err conflict
    else err not_found
