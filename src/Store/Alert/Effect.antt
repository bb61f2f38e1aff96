-- ===== src/Store/Alert/Effect.antt =====
-- What `upsertAlertTx` and `resolveAlertTx` of internal/store/alert.go do to the active alerts, and
-- what they leave alone.
use poly_fleet.Base.{
  ℕ, ◌≤◌, ◌≡◌, refl, subst, ◌∙◌, Bool, true, false, ◌&&◌, List, [], ◌∷◌, inl, inr, none, some, ◌==◌,
  if◌then◌else◌, ok, >>=-eq-ok, find, exists, update, count, Option-cases, Bool-cases, find_holds,
  find-none, find_unique, find-count, exists_none, count_le, count-update, take, count-update_one,
  eq_refl, arith,
}
use poly_fleet.Schema.{
  Db, Alert, AlertType, Severity, EventType, Text, is_none, is_active_alert, alert_code,
}
use poly_fleet.Store.Alert.{
  has_id, queue_delivery, queue_deliveries, enqueue_alert_notification, notify_alert, upsert_alert,
  resolve_alert, resolve_row, touch_row, new_alert,
}

-- The tables that the alerts are computed from.
pub record Alike (db db' : Db) : Type 0 where
  pub operations : db'.operations ≡ db.operations
  pub nodes : db'.nodes ≡ db.nodes
  pub backups : db'.backups ≡ db.backups

pub Alike-refl : (db : Db) → Alike db db
Alike-refl db = record { operations = refl; nodes = refl; backups = refl }

pub Alike-trans : {a b c : Db} → Alike a b → Alike b c → Alike a c
Alike-trans f g = record {
  operations = g.operations ∙ f.operations;
  nodes = g.nodes ∙ f.nodes;
  backups = g.backups ∙ f.backups;
}

-- The primary key of the alerts, and the unique index of the active ones.
pub record KeyedAlerts (db : Db) : Type 0 where
  pub ids : (k : ℕ) → count (has_id k) db.alerts ≤ 1
  pub active : (node : ℕ) (type : AlertType) → count (is_active_alert node type) db.alerts ≤ 1

-- Is `type` of `node` the alert that is set?
abbrev pub is_target : ℕ → AlertType → ℕ → AlertType → Bool
is_target node type n t = (node == n) && (alert_code type == alert_code t)

abbrev pub one_if : Bool → ℕ
one_if b = if b then 1 else 0

abbrev pub active_alerts : ℕ → AlertType → Db → ℕ
active_alerts node type db = count (is_active_alert node type) db.alerts

-- From `db` to `db'` the alert of the type is set for the node, or taken back, and no other.
pub record Sets (node : ℕ) (type : AlertType) (to : Bool) (db db' : Db) : Type 0 where
  pub alike : Alike db db'
  pub keyed : KeyedAlerts db'
  pub set :
      (n : ℕ) (t : AlertType)
      → active_alerts n t db'
        ≡ (if is_target node type n t then one_if to else active_alerts n t db)

module _ (new_uuid : ℕ → ℕ) where
  -- A notification touches neither the alerts nor what they are computed from.
  pub record Quiet (db db' : Db) : Type 0 where
    pub alike : Alike db db'
    pub alerts : db'.alerts ≡ db.alerts

  queue_delivery-Quiet :
      (notifier alert : ℕ) (event : EventType) (now : ℕ) (db db' : Db)
      → queue_delivery new_uuid notifier alert event now db ≡ ok db'
      → Quiet db db'
  unfolding queue_delivery
  queue_delivery-Quiet notifier alert event now db db' h = ground (arith, Alike-refl db)

  queue_deliveries-Quiet :
      (notifiers : List ℕ) (alert : ℕ) (event : EventType) (now : ℕ) (db db' : Db)
      → queue_deliveries new_uuid notifiers alert event now db ≡ ok db'
      → Quiet db db'
  unfolding queue_deliveries
  queue_deliveries-Quiet [] alert event now db db' h = ground (arith, Alike-refl db)
  queue_deliveries-Quiet (n ∷ ns) alert event now db db' h =
      let (db1, e, rest) = >>=-eq-ok (queue_delivery new_uuid n alert event now db) _ h in
      let first = queue_delivery-Quiet n alert event now db db1 e in
      let later = queue_deliveries-Quiet ns alert event now db1 db' rest in
      record { alike = Alike-trans first.alike later.alike; alerts = later.alerts ∙ first.alerts }

  enqueue-Quiet :
      (alert : ℕ) (event : EventType) (now : ℕ) (db db' : Db)
      → enqueue_alert_notification new_uuid alert event now db ≡ ok db'
      → Quiet db db'
  unfolding enqueue_alert_notification
  enqueue-Quiet alert event now db db' h = queue_deliveries-Quiet _ alert event now db db' h

  pub notify_alert-Quiet :
      (alert node : ℕ) (event : EventType) (now : ℕ) (db db' : Db)
      → notify_alert new_uuid alert node event now db ≡ ok db'
      → Quiet db db'
  unfolding notify_alert
  notify_alert-Quiet alert node event now db db' h =
      ground (arith, enqueue-Quiet alert event now db db')

-- The target's alert is active for the target only.
is_active_alert_target :
    (node : ℕ) (type : AlertType) (n : ℕ) (t : AlertType) (a : Alert)
    → is_active_alert node type a ≡ true
    → is_active_alert n t a ≡ is_target node type n t
is_active_alert_target node type n t a h = ground arith

same_target :
    (node : ℕ) (type : AlertType) (n : ℕ) (t : AlertType) (alerts : List Alert)
    → is_target node type n t ≡ true
    → count (is_active_alert n t) alerts ≡ count (is_active_alert node type) alerts
same_target node type n t alerts h = ground (
  arith,
  count_le (is_active_alert n t) (is_active_alert node type) (λ x e. ground arith) alerts,
  count_le (is_active_alert node type) (is_active_alert n t) (λ x e. ground arith) alerts,
)

module _ (node : ℕ) (type : AlertType) (now : ℕ) (db db' : Db) (keys : KeyedAlerts db)
    (alike : Alike db db') where
  counted-Sets :
      (to : Bool)
      → ((k : ℕ) → count (has_id k) db'.alerts ≤ 1)
      → ((n : ℕ) (t : AlertType)
          → active_alerts n t db'
            ≡ (if is_target node type n t then one_if to else active_alerts n t db))
      → Sets node type to db db'
  counted-Sets to ids set = record {
    alike = alike;
    keyed = record { ids = ids; active = λ n t. ground (arith, set n t, keys.active n t) };
    set = set;
  }

  pub touched-Sets :
      (f : Alert → Alert)
      → ((k : ℕ) (x : Alert) → has_id k (f x) ≡ has_id k x)
      → ((n : ℕ) (t : AlertType) (x : Alert) → is_active_alert n t (f x) ≡ is_active_alert n t x)
      → (a : Alert) → find (is_active_alert node type) db.alerts ≡ some a
      → db'.alerts ≡ update (has_id a.id) f db.alerts
      → Sets node type true db db'
  touched-Sets f keep_id keep_active a e same =
      counted-Sets true
        (λ k. rw (same, count-update (has_id k) (has_id a.id) f (keep_id k) db.alerts) (keys.ids k))
        (λ n t.
          rw (same, count-update (is_active_alert n t) (has_id a.id) f (keep_active n t) db.alerts)
            (ground (
              arith,
              same_target node type n t db.alerts,
              find-count (is_active_alert node type) db.alerts e,
              keys.active node type,
            )))

  opened_id :
      (a : Alert)
      → exists (has_id a.id) db.alerts ≡ false
      → (k : ℕ) → count (has_id k) (a ∷ db.alerts) ≤ 1
  unfolding count
  opened_id a fresh k = elim (Bool-cases (a.id == k)) [
    | inl hit ↦
        let same : a.id ≡ k = ground arith in
        let absent = exists_none (has_id a.id) db.alerts fresh in
        ground (arith, subst (λ i. count (has_id i) db.alerts ≡ 0) same absent)
    | inr miss ↦ ground (arith, keys.ids k)
  ]

  pub opened-Sets :
      (a : Alert)
      → find (is_active_alert node type) db.alerts ≡ none
      → exists (has_id a.id) db.alerts ≡ false
      → is_active_alert node type a ≡ true
      → db'.alerts ≡ a ∷ db.alerts
      → Sets node type true db db'
  unfolding count
  opened-Sets a e fresh here same =
      counted-Sets true (λ k. rw same (opened_id a fresh k))
        (λ n t. ground (
          arith,
          same_target node type n t db.alerts,
          is_active_alert_target node type n t a here,
          find-none (is_active_alert node type) db.alerts e,
        ))

  pub kept-Sets :
      find (is_active_alert node type) db.alerts ≡ none
      → db'.alerts ≡ db.alerts
      → Sets node type false db db'
  kept-Sets e same =
      counted-Sets false (λ k. rw same (keys.ids k))
        (λ n t. rw same (
          ground (
            arith,
            same_target node type n t db.alerts,
            find-none (is_active_alert node type) db.alerts e,
          )))

  pub closed-Sets :
      (a : Alert)
      → find (is_active_alert node type) db.alerts ≡ some a
      → db'.alerts
        ≡ update (λ x. has_id a.id x && is_none x.resolved_at) (resolve_row now) db.alerts
      → Sets node type false db db'
  closed-Sets a e same =
      let here = find_holds (is_active_alert node type) db.alerts e in
      let key = λ (x : Alert). has_id a.id x && is_none x.resolved_at in
      let unique : count key db.alerts ≤ 1 =
        ground (arith, count_le key (has_id a.id) (λ x h. ground arith) db.alerts, keys.ids a.id) in
      let found =
        find_unique key (is_active_alert node type) db.alerts e (ground (arith, eq_refl a.id))
          unique in
      counted-Sets false
        (λ k.
          rw (same, count-update (has_id k) key (resolve_row now) (λ x. refl) db.alerts)
            (keys.ids k))
        (λ n t. ground (
          arith,
          count-update_one key (is_active_alert n t) (resolve_row now) db.alerts found unique,
          same_target node type n t db.alerts,
          is_active_alert_target node type n t a here,
          keys.active node type,
          find-count (is_active_alert node type) db.alerts e,
        ))

module _ (new_uuid : ℕ → ℕ) where
  pub upsert_alert-Sets :
      (node : ℕ) (type : AlertType) (severity : Severity) (message : Text) (now : ℕ) (db db' : Db)
      → KeyedAlerts db
      → upsert_alert new_uuid node type severity message now db ≡ ok db'
      → Sets node type true db db'
  unfolding upsert_alert
  upsert_alert-Sets node type severity message now db db' keys h =
      elim (Option-cases (find (is_active_alert node type) db.alerts)) [
        | inr (a, e) ↦
            let done = rw (e, upsert_alert) at h in
            touched-Sets node type now db db' keys (ground (arith, Alike-refl db))
              (touch_row severity (take 512 message) now) (λ k x. refl) (λ n t x. refl) a e
              (ground arith)
        | inl e ↦
            let id = new_uuid db.drawn in
            elim (Bool-cases (exists (has_id id) db.alerts)) [
              | inl clash ↦ absurd (ground arith)
              | inr fresh ↦
                  let quiet =
                    notify_alert-Quiet new_uuid id node EventType.created now _ db'
                      (rw (e, fresh, upsert_alert) at h) in
                  opened-Sets node type now db db' keys (ground (arith, quiet.alike))
                    (new_alert node type severity (take 512 message) now id) e fresh
                    (ground (arith, eq_refl node, eq_refl (alert_code type))) quiet.alerts
            ]
      ]

  pub resolve_alert-Sets :
      (node : ℕ) (type : AlertType) (now : ℕ) (db db' : Db)
      → KeyedAlerts db
      → resolve_alert new_uuid node type now db ≡ ok db'
      → Sets node type false db db'
  unfolding resolve_alert
  resolve_alert-Sets node type now db db' keys h =
      elim (Option-cases (find (is_active_alert node type) db.alerts)) [
        | inr (a, e) ↦
            let quiet =
              notify_alert-Quiet new_uuid a.id node EventType.resolved now _ db'
                (rw (e, resolve_alert) at h) in
            closed-Sets node type now db db' keys (ground (arith, quiet.alike)) a e quiet.alerts
        | inl e ↦
            kept-Sets node type now db db' keys (ground (arith, Alike-refl db)) e (ground arith)
      ]
