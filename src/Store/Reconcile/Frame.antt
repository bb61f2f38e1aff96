-- ===== src/Store/Reconcile/Frame.antt =====
-- What `ReconcileAlerts` of internal/store/alert.go leaves of the table of operations.
use poly_fleet.Base.{ℕ, Option, ◌≡◌, List, [], ◌∷◌, ok, >>=-eq-ok, update, arith}
use poly_fleet.Schema.{Db, Node}
use poly_fleet.Store.Alert.Effect.{Alike, Alike-refl, Alike-trans}
use poly_fleet.Store.Operation.Pending.{expire_row}
use poly_fleet.Store.Operation.Report.{upsert_alert-Alike, resolve_alert-Alike}
use poly_fleet.Store.Reconcile.{
  AlertCondition, Check, checks, alert_conditions, apply_check, apply_checks, reconcile_nodes,
  reconcile_alerts, message_of, is_overdue, expired_db, or_default,
}

module _ (new_uuid : ℕ → ℕ) where
  apply_check-Alike :
      (node : ℕ) (k : Check) (now : ℕ) (db db' : Db)
      → apply_check new_uuid node k now db ≡ ok db'
      → Alike db db'
  unfolding apply_check
  apply_check-Alike node k now db db' h = ground (
    arith,
    upsert_alert-Alike new_uuid node k.alert_type k.severity (message_of k) now db db',
    resolve_alert-Alike new_uuid node k.alert_type now db db',
  )

  apply_checks-Alike :
      (node : ℕ) (ks : List Check) (now : ℕ) (db db' : Db)
      → apply_checks new_uuid node ks now db ≡ ok db'
      → Alike db db'
  unfolding apply_checks
  apply_checks-Alike node [] now db db' h = ground (arith, Alike-refl db)
  apply_checks-Alike node (k ∷ ks) now db db' h =
      let (db1, e, rest) = >>=-eq-ok (apply_check new_uuid node k now db) _ h in
      Alike-trans (apply_check-Alike node k now db db1 e)
        (apply_checks-Alike node ks now db1 db' rest)

  reconcile_nodes-Alike :
      (cs : List AlertCondition) (now offline_after stuck_after : ℕ) (db db' : Db)
      → reconcile_nodes new_uuid cs now offline_after stuck_after db ≡ ok db'
      → Alike db db'
  unfolding reconcile_nodes
  reconcile_nodes-Alike [] now offline_after stuck_after db db' h = ground (arith, Alike-refl db)
  reconcile_nodes-Alike (c ∷ cs) now offline_after stuck_after db db' h =
      let (db1, e, rest) =
        >>=-eq-ok (apply_checks new_uuid c.node_id (checks now offline_after stuck_after c) now db)
          _ h in
      Alike-trans (apply_checks-Alike c.node_id _ now db db1 e)
        (reconcile_nodes-Alike cs now offline_after stuck_after db1 db' rest)

  pub reconcile_operations :
      (real_used : Node → Option ℕ) (now offline_after stuck_after : ℕ) (db db' : Db)
      → reconcile_alerts new_uuid real_used now offline_after stuck_after db ≡ ok db'
      → db'.operations ≡ update (is_overdue now) (expire_row now) db.operations
  unfolding reconcile_alerts
  reconcile_operations real_used now offline_after stuck_after db db' done =
      let (cs, e, rest) =
        >>=-eq-ok (alert_conditions real_used (expired_db now db) db.nodes) _ done in
      let run =
        reconcile_nodes-Alike cs now (or_default 90000 offline_after)
          (or_default 300000 stuck_after) (expired_db now db) db' rest in
      run.operations
