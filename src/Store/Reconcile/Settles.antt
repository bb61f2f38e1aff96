-- ===== src/Store/Reconcile/Settles.antt =====
-- After `ReconcileAlerts` of internal/store/alert.go the active alerts are those that are due.
use poly_fleet.Base.{
  ℕ, ◌≤◌, ◌<◌, Option, ◌≡◌, refl, ap, subst, ◌∙◌, List, [], ◌∷◌, inl, inr, none, some, ◌==◌, ok,
  >>=-eq-ok, find, count, Option-cases, Bool-cases, arith, count_le, find-none, max_int64,
}
use poly_fleet.Schema.{Db, Node, AlertType, is_live_node, is_node, is_none}
use poly_fleet.Store.Alert.Effect.{
  Alike, Alike-refl, Alike-trans, KeyedAlerts, Sets, one_if, active_alerts, upsert_alert-Sets,
  resolve_alert-Sets,
}
use poly_fleet.Store.Calibration.{effective_node_traffic_used}
use poly_fleet.Store.Reconcile.{
  AlertCondition, Check, checks, condition_row, traffic_used_column, alert_conditions, apply_check,
  apply_checks, reconcile_nodes, reconcile_alerts, message_of, or_default, expired_db,
}
use poly_fleet.Store.Reconcile.Verdict.{verdict, verdicts, due, verdict-due}

module _ (real_used : Node → Option ℕ) (now offline_after stuck_after : ℕ) (db : Db) (k : ℕ)
    (t : AlertType) where
  absent-verdicts :
      (ns : List Node) (cs : List AlertCondition) (before : ℕ)
      → alert_conditions real_used db ns ≡ ok cs
      → count (is_live_node k) ns ≡ 0
      → verdicts now offline_after stuck_after cs k t before ≡ before
  unfolding alert_conditions verdicts count
  absent-verdicts [] cs before h none_here = ground arith
  absent-verdicts (n ∷ ns) cs before h none_here =
      let (rest, e, done) = >>=-eq-ok (alert_conditions real_used db ns) _ h in
      elim (Bool-cases (is_none n.archived_at)) [
        | inl live ↦ elim (Option-cases (traffic_used_column real_used n)) [
          | inl over ↦ absurd (ground arith)
          | inr (used, fits) ↦
              let first =
                verdict-due now offline_after stuck_after (condition_row db n used) k before t in
              let built : cs ≡ condition_row db n used ∷ rest = ground arith in
              rw built (absent-verdicts ns rest _ e (ground arith) ∙ (ground (arith, first)))
        ]
        | inr dead ↦
            let built : cs ≡ rest = ground arith in
            rw built (absent-verdicts ns rest before e (ground arith))
      ]

  -- The conditions put the node's alert of the type where it is due.
  abbrev Meets : List AlertCondition → ℕ → Node → Type 0
  Meets cs before n =
      (used : ℕ) × (traffic_used_column real_used n ≡ some used)
      × (verdicts now offline_after stuck_after cs k t before
          ≡ one_if (due now offline_after stuck_after (condition_row db n used) t))

  present-verdicts :
      (ns : List Node) (cs : List AlertCondition) (before : ℕ) (n : Node)
      → alert_conditions real_used db ns ≡ ok cs
      → find (is_live_node k) ns ≡ some n
      → count (is_node k) ns ≤ 1
      → Meets cs before n
  unfolding alert_conditions verdicts count find
  present-verdicts [] cs before n h here unique = absurd (ground arith)
  present-verdicts (m ∷ ns) cs before n h here unique =
      let (rest, e, done) = >>=-eq-ok (alert_conditions real_used db ns) _ h in
      elim (Bool-cases (is_none m.archived_at)) [
        | inl live ↦ elim (Option-cases (traffic_used_column real_used m)) [
          | inl over ↦ absurd (ground arith)
          | inr (used, fits) ↦
              let first =
                verdict-due now offline_after stuck_after (condition_row db m used) k before t in
              let built : cs ≡ condition_row db m used ∷ rest = ground arith in
              elim (Bool-cases (m.id == k)) [
                | inl hit ↦
                    let same : m ≡ n = ground arith in
                    let others =
                      count_le (is_live_node k) (is_node k) (λ x live_here. ground arith) ns in
                    subst (Meets cs before) same (
                      used,
                      fits,
                      rw built (absent-verdicts ns rest _ e (ground arith) ∙ ground (arith, first)),
                    )
                | inr miss ↦
                    let (more, fits', later) =
                      present-verdicts ns rest
                        (verdict m.id
                          (checks now offline_after stuck_after (condition_row db m used)) k t
                          before)
                        n e (ground arith) (ground arith) in
                    (more, fits', rw built later)
              ]
        ]
        | inr dead ↦
            let built : cs ≡ rest = ground arith in
            rw built (present-verdicts ns rest before n e (ground arith) (ground arith))
      ]

-- From `db` to `db'` the active alerts change as a verdict says.
record Follows (verdict_of : ℕ → AlertType → ℕ → ℕ) (db db' : Db) : Type 0 where
  alike : Alike db db'
  keyed : KeyedAlerts db'
  set : (n : ℕ) (t : AlertType) → active_alerts n t db' ≡ verdict_of n t (active_alerts n t db)

module _ (new_uuid : ℕ → ℕ) where
  apply_check-Sets :
      (node : ℕ) (k : Check) (now : ℕ) (db db' : Db)
      → KeyedAlerts db
      → apply_check new_uuid node k now db ≡ ok db'
      → Sets node k.alert_type k.active db db'
  unfolding apply_check
  apply_check-Sets node k now db db' keys h = elim (Bool-cases k.active) [
    | inl on ↦ rw on (
        upsert_alert-Sets new_uuid node k.alert_type k.severity (message_of k) now db db' keys
          (ground arith))
    | inr off ↦
        rw off (resolve_alert-Sets new_uuid node k.alert_type now db db' keys (ground arith))
  ]

  apply_checks-Follows :
      (node : ℕ) (ks : List Check) (now : ℕ) (db db' : Db)
      → KeyedAlerts db
      → apply_checks new_uuid node ks now db ≡ ok db'
      → Follows (verdict node ks) db db'
  unfolding apply_checks verdict
  apply_checks-Follows node [] now db db' keys h =
      subst (Follows (verdict node []) db) (ground arith)
        (record { alike = Alike-refl db; keyed = keys; set = λ n t. refl })
  apply_checks-Follows node (k ∷ ks) now db db' keys h =
      let (db1, e, rest) = >>=-eq-ok (apply_check new_uuid node k now db) _ h in
      let first = apply_check-Sets node k now db db1 keys e in
      let later = apply_checks-Follows node ks now db1 db' first.keyed rest in
      record {
        alike = Alike-trans first.alike later.alike;
        keyed = later.keyed;
        set = λ n t. later.set n t ∙ ap (verdict node ks n t) (first.set n t);
      }

  reconcile_nodes-Follows :
      (cs : List AlertCondition) (now offline_after stuck_after : ℕ) (db db' : Db)
      → KeyedAlerts db
      → reconcile_nodes new_uuid cs now offline_after stuck_after db ≡ ok db'
      → Follows (verdicts now offline_after stuck_after cs) db db'
  unfolding reconcile_nodes verdicts
  reconcile_nodes-Follows [] now offline_after stuck_after db db' keys h =
      subst (Follows (verdicts now offline_after stuck_after []) db) (ground arith)
        (record { alike = Alike-refl db; keyed = keys; set = λ n t. refl })
  reconcile_nodes-Follows (c ∷ cs) now offline_after stuck_after db db' keys h =
      let (db1, e, rest) =
        >>=-eq-ok (apply_checks new_uuid c.node_id (checks now offline_after stuck_after c) now db)
          _ h in
      let first = apply_checks-Follows c.node_id _ now db db1 keys e in
      let later =
        reconcile_nodes-Follows cs now offline_after stuck_after db1 db' first.keyed rest in
      record {
        alike = Alike-trans first.alike later.alike;
        keyed = later.keyed;
        set = λ n t.
            later.set n t ∙ ap (verdicts now offline_after stuck_after cs n t) (first.set n t);
      }

  -- After a reconciliation a node that is not archived has exactly one active alert of a type if one
  -- is due, by the condition that the database holds when overdue operations have been expired, and
  -- none otherwise, from a database whose alerts and nodes have their unique keys and for thresholds
  -- that are not 0.
  pub reconcile_settles :
      (real_used : Node → Option ℕ) (now offline_after stuck_after : ℕ) (db db' : Db) (k : ℕ)
      (n : Node) (t : AlertType)
      → 1 ≤ offline_after
      → 1 ≤ stuck_after
      → KeyedAlerts db
      → count (is_node k) db.nodes ≤ 1
      → find (is_live_node k) db.nodes ≡ some n
      → reconcile_alerts new_uuid real_used now offline_after stuck_after db ≡ ok db'
      → (used : ℕ) × (traffic_used_column real_used n ≡ some used)
        × (active_alerts k t db'
            ≡ one_if
                (due now offline_after stuck_after (condition_row (expired_db now db) n used) t))
  unfolding reconcile_alerts
  reconcile_settles real_used now offline_after stuck_after db db' k n t h1 h2 keys unique here
        done =
      let (cs, e, rest) =
        >>=-eq-ok (alert_conditions real_used (expired_db now db) db.nodes) _ done in
      let run =
        reconcile_nodes-Follows cs now (or_default 90000 offline_after)
          (or_default 300000 stuck_after) (expired_db now db) db'
          (record { ids = keys.ids; active = keys.active }) rest in
      let (used, fits, settled) =
        present-verdicts real_used now (or_default 90000 offline_after)
          (or_default 300000 stuck_after) (expired_db now db) k t db.nodes cs (active_alerts k t db)
          n e here unique in
      (used, fits, ground (arith, run.set k t))

  -- A reconciliation keeps the unique keys of the alerts, and the number of active alerts of every
  -- type for a node that is archived or does not exist.
  pub reconcile_keeps :
      (real_used : Node → Option ℕ) (now offline_after stuck_after : ℕ) (db db' : Db)
      → KeyedAlerts db
      → reconcile_alerts new_uuid real_used now offline_after stuck_after db ≡ ok db'
      → KeyedAlerts db'
        × ((k : ℕ) (t : AlertType)
            → find (is_live_node k) db.nodes ≡ none
            → active_alerts k t db' ≡ active_alerts k t db)
  unfolding reconcile_alerts
  reconcile_keeps real_used now offline_after stuck_after db db' keys done =
      let (cs, e, rest) =
        >>=-eq-ok (alert_conditions real_used (expired_db now db) db.nodes) _ done in
      let run =
        reconcile_nodes-Follows cs now (or_default 90000 offline_after)
          (or_default 300000 stuck_after) (expired_db now db) db'
          (record { ids = keys.ids; active = keys.active }) rest in
      (
        run.keyed,
        λ k t gone.
            run.set k t
            ∙ absent-verdicts real_used now (or_default 90000 offline_after)
                (or_default 300000 stuck_after) (expired_db now db) k t db.nodes cs
                (active_alerts k t db) e (find-none (is_live_node k) db.nodes gone),
      )

-- A node that shows less than the largest int64 is judged for alerts by the bytes that it shows,
-- whatever SQLite makes of the sums that are too large for it.
pub traffic_used_column_effective :
    (real_used : Node → Option ℕ) (n : Node)
    → effective_node_traffic_used n < max_int64
    → traffic_used_column real_used n ≡ some (effective_node_traffic_used n)
unfolding effective_node_traffic_used traffic_used_column
traffic_used_column_effective real_used n h = ground arith
