-- ===== src/Store/Operation/Steps.antt =====
-- The life of operations under the methods of internal/store/operation.go and `ReconcileAlerts` of
-- alert.go, as a step relation.
use poly_fleet.Base.{
  ℕ, ◌+◌, ◌≤◌, ◌<◌, ◌≡◌, refl, subst, Bool, true, false, Option, List, [], ◌∷◌, map, inl, inr, none,
  some, ◌==◌, ok, >>=-eq-ok, find, update, count, Option-cases, find_holds, find_unique, eq_refl,
  arith,
}
use poly_fleet.Schema.{
  Db, Node, Operation, OperationType, OperationStatus, queued, running, succeeded, failed,
  AgentIdentity, Text, ℤ, is_live_node,
}
use poly_fleet.Store.Reconcile.Frame.{reconcile_operations}
use poly_fleet.Store.Reconcile.{reconcile_alerts, is_overdue}
use poly_fleet.Store.Operation.Queue.{
  is_pending, is_open, is_operation, insert_node_operation, new_operation, queue_operation,
  requeue_operation, ensure_operation_queue_capacity, create_targeted_node_operation,
  retry_node_operation, get_node_operation, valid_operation_type, normalize_operation_lines,
  normalize_operation_target,
}
use poly_fleet.Store.Operation.Pending.{
  list_pending_node_operations, expire_row, start_row, mark_running, is_open_operation, overdue,
  expire_overdue, pending_operations,
}
use poly_fleet.Store.Operation.Result.{
  OperationResultRequest, record_node_operation_result, accept_result, complete_operation,
  complete_row, result_status,
}
use poly_fleet.Store.Operation.Report.{complete_operation-operations, status_text}
use poly_fleet.Store.Operation.Progress.{
  has_key, Keyed, Progress, Progress-refl, Progress-trans, insert-Progress, update-Progress,
}

module _ (new_uuid : ℕ → ℕ) where
  insert_operation-Progress :
      (node : ℕ) (type : OperationType) (lines : ℕ) (target : Text) (retry_of : Option ℕ)
      (attempt by now : ℕ) (db db' : Db) (o : Operation)
      → count (is_pending node) db.operations < 20
      → insert_node_operation new_uuid node type lines target retry_of attempt by now db
        ≡ ok (o, db')
      → Progress db.operations db'.operations
  unfolding insert_node_operation
  insert_operation-Progress node type lines target retry_of attempt by now db db' o room done =
      ground (
        arith,
        insert-Progress (new_operation new_uuid node type lines target retry_of attempt by now db)
            db.operations,
      )

  queue_operation-Progress :
      (node : ℕ) (type : OperationType) (lines : ℕ) (target : Text) (by now : ℕ) (db db' : Db)
      (o : Operation)
      → queue_operation new_uuid node type lines target by now db ≡ ok (o, db')
      → Progress db.operations db'.operations
  unfolding queue_operation ensure_operation_queue_capacity
  queue_operation-Progress node type lines target by now db db' o done =
      ground (arith, insert_operation-Progress node type lines target none 1 by now db db' o)

  expire-Progress :
      (p : Operation → Bool) (now : ℕ) (os : List Operation)
      → ((x : Operation) → p x ≡ true → is_open x.status ≡ true)
      → Progress os (update p (expire_row now) os)
  expire-Progress p now os live =
      update-Progress p (expire_row now) os (λ k x. refl) (λ keys k x e. live x)
        (λ node x h pending. ground arith)

  mark_running-Progress :
      (ids : List ℕ) (now : ℕ) (os : List Operation) → Progress os (mark_running ids now os)
  unfolding mark_running
  mark_running-Progress [] now os = Progress-refl os
  mark_running-Progress (id ∷ ids) now os =
      Progress-trans
        (update-Progress (is_open_operation id) (start_row now) os (λ k x. refl)
          (λ keys k x e h. ground arith) (λ node x h pending. ground arith))
        (mark_running-Progress ids now _)

  list_pending-Progress :
      (identity : AgentIdentity) (after now limit : ℕ) (db db' : Db) (sent : List Operation)
      → list_pending_node_operations identity after now limit db ≡ ok (sent, db')
      → Progress db.operations db'.operations
  unfolding list_pending_node_operations
  list_pending-Progress identity after now limit db db' sent done =
      elim (Option-cases (find (is_live_node identity.node_id) db.nodes)) [
        | inl e ↦ absurd (ground arith)
        | inr (n, e) ↦
            let expired = expire_overdue identity.node_id after now db.operations in
            let ids =
              map (λ (o : Operation). o.id)
                (pending_operations identity.node_id after now limit expired) in
            let same : db'.operations ≡ mark_running ids now expired = ground arith in
            rw same (
              Progress-trans
                (expire-Progress (overdue identity.node_id after now) now db.operations
                  (λ x h. ground arith))
                (mark_running-Progress ids now expired))
      ]

  requeue-Progress :
      (node : ℕ) (x : Operation) (n : Node) (by now : ℕ) (db db' : Db) (o : Operation)
      → requeue_operation new_uuid node x n by now db ≡ ok (o, db')
      → Progress db.operations db'.operations
  unfolding requeue_operation ensure_operation_queue_capacity
  requeue-Progress node x n by now db db' o done = ground (
    arith,
    insert_operation-Progress node x.type x.max_lines x.target (some x.id) (x.attempt + 1) by now db
        db' o,
  )

  retry-Progress :
      (node id by now : ℕ) (db db' : Db) (o : Operation)
      → retry_node_operation new_uuid node id by now db ≡ ok (o, db')
      → Progress db.operations db'.operations
  unfolding retry_node_operation
  retry-Progress node id by now db db' o done =
      elim (Option-cases (find (is_operation node id) db.operations)) [
        | inl e ↦ absurd (ground arith)
        | inr (x, e) ↦ elim (Option-cases (find (is_live_node node) db.nodes)) [
          | inl f ↦ absurd (ground arith)
          | inr (n, f) ↦
              let ((made, db1), e1, done1) =
                >>=-eq-ok (requeue_operation new_uuid node x n by now db) _
                  (rw (e, f, retry_node_operation) at done) in
              let (again, e2, done2) = >>=-eq-ok (get_node_operation node made.id db1) _ done1 in
              ground (arith, requeue-Progress node x n by now db db1 made)
        ]
      ]

  create-Progress :
      (parse_ip : Text → Option Text) (node : ℕ) (type : Text) (lines : ℤ) (target : Text)
      (by now : ℕ) (db db' : Db) (o : Operation)
      → create_targeted_node_operation new_uuid parse_ip node type lines target by now db
        ≡ ok (o, db')
      → Progress db.operations db'.operations
  unfolding create_targeted_node_operation
  create-Progress parse_ip node type lines target by now db db' o done =
      elim (Option-cases (valid_operation_type type)) [
        | inl e ↦ absurd (ground arith)
        | inr (t, e) ↦
            let (n, e1, done1) =
              >>=-eq-ok (normalize_operation_lines t lines) _
                (rw (e, create_targeted_node_operation) at done) in
            let (x, e2, done2) = >>=-eq-ok (normalize_operation_target parse_ip t target) _ done1 in
            let ((made, db1), e3, done3) =
              >>=-eq-ok (queue_operation new_uuid node t n x by now db) _ done2 in
            let (again, e4, done4) = >>=-eq-ok (get_node_operation node made.id db1) _ done3 in
            ground (arith, queue_operation-Progress node t n x by now db db1 made)
      ]

  complete-Progress :
      (node : ℕ) (o : Operation) (r : OperationResultRequest) (status : OperationStatus) (now : ℕ)
      (db db' : Db)
      → find (is_operation node o.id) db.operations ≡ some o
      → is_open o.status ≡ true
      → result_status r.status ≡ some status
      → complete_operation new_uuid node o.id status r now db ≡ ok db'
      → Progress db.operations db'.operations
  complete-Progress node o r status now db db' e live given done =
      let tables = complete_operation-operations new_uuid node o.id status r now db db' done in
      let named = status_text r.status status given in
      rw tables.0 (
        update-Progress (λ x. x.id == o.id) (complete_row status r now) db.operations (λ k x. refl)
          (λ keys k x at_k h.
            let at_o =
              find_unique (has_key o.id) (is_operation node o.id) db.operations e (eq_refl o.id)
                (keys o.id) in
            let own : k ≡ o.id = ground (arith, find_holds (has_key k) db.operations at_k) in
            let at_x = subst (λ i. find (has_key i) db.operations ≡ some x) own at_k in
            ground (arith, live))
          (λ n x h pending. absurd (ground (arith, named.0))))

  accept-Progress :
      (node : ℕ) (o : Operation) (r : OperationResultRequest) (status : OperationStatus) (now : ℕ)
      (db db' : Db)
      → find (is_operation node o.id) db.operations ≡ some o
      → o.status ≡ status
      → accept_result new_uuid status node o r now db ≡ ok db'
      → Progress db.operations db'.operations
  unfolding accept_result
  accept-Progress node o r OperationStatus.expired now db db' e s done = absurd (ground arith)
  accept-Progress node o r succeeded now db db' e s done =
      ground (arith, Progress-refl db.operations)
  accept-Progress node o r failed now db db' e s done = ground (arith, Progress-refl db.operations)
  accept-Progress node o r queued now db db' e s done =
      elim (Option-cases (result_status r.status)) [
        | inl x ↦ absurd (ground arith)
        | inr (status, x) ↦
            complete-Progress node o r status now db db' e (ground arith) x (ground arith)
      ]
  accept-Progress node o r running now db db' e s done =
      elim (Option-cases (result_status r.status)) [
        | inl x ↦ absurd (ground arith)
        | inr (status, x) ↦
            complete-Progress node o r status now db db' e (ground arith) x (ground arith)
      ]

  report-Progress :
      (identity : AgentIdentity) (id : ℕ) (r : OperationResultRequest) (now : ℕ) (db db' : Db)
      → record_node_operation_result new_uuid identity id r now db ≡ ok db'
      → Progress db.operations db'.operations
  unfolding record_node_operation_result
  report-Progress identity id r now db db' done =
      elim (Option-cases (find (is_operation identity.node_id id) db.operations)) [
        | inl e ↦ absurd (ground arith)
        | inr (o, e) ↦ elim (Option-cases (find (is_live_node identity.node_id) db.nodes)) [
          | inl f ↦ absurd (ground arith)
          | inr (n, f) ↦
              let own : id ≡ o.id =
                ground (arith, find_holds (is_operation identity.node_id id) db.operations e) in
              let guard = rw (e, f, record_node_operation_result) at done in
              accept-Progress identity.node_id o r o.status now db db'
                (subst (λ i. find (is_operation identity.node_id i) db.operations ≡ some o) own e)
                refl (ground arith)
        ]
      ]

-- One call of a method that writes the table of operations, and that has succeeded.
pub data Step (new_uuid : ℕ → ℕ) (parse_ip : Text → Option Text) : Db → Db → Type 0 where
  created :
      (node : ℕ) (type : Text) (lines : ℤ) (target : Text) (by now : ℕ) (o : Operation)
      {db db' : Db}
      → create_targeted_node_operation new_uuid parse_ip node type lines target by now db
        ≡ ok (o, db')
      → Step new_uuid parse_ip db db'
  retried :
      (node id by now : ℕ) (o : Operation) {db db' : Db}
      → retry_node_operation new_uuid node id by now db ≡ ok (o, db')
      → Step new_uuid parse_ip db db'
  listed :
      (identity : AgentIdentity) (after now limit : ℕ) (sent : List Operation) {db db' : Db}
      → list_pending_node_operations identity after now limit db ≡ ok (sent, db')
      → Step new_uuid parse_ip db db'
  reported :
      (identity : AgentIdentity) (id : ℕ) (r : OperationResultRequest) (now : ℕ) {db db' : Db}
      → record_node_operation_result new_uuid identity id r now db ≡ ok db'
      → Step new_uuid parse_ip db db'
  reconciled :
      (real_used : Node → Option ℕ) (now offline_after stuck_after : ℕ) {db db' : Db}
      → reconcile_alerts new_uuid real_used now offline_after stuck_after db ≡ ok db'
      → Step new_uuid parse_ip db db'

-- Calls in any order.
pub data Steps (new_uuid : ℕ → ℕ) (parse_ip : Text → Option Text) : Db → Db → Type 0 where
  stop : {db : Db} → Steps new_uuid parse_ip db db
  step :
      {a b c : Db}
      → Step new_uuid parse_ip a b
      → Steps new_uuid parse_ip b c
      → Steps new_uuid parse_ip a c

module _ (new_uuid : ℕ → ℕ) (parse_ip : Text → Option Text) where
  Step-Progress :
      {db db' : Db} → Step new_uuid parse_ip db db' → Progress db.operations db'.operations
  Step-Progress {db} {db'} (created node type lines target by now o done) =
      create-Progress new_uuid parse_ip node type lines target by now db db' o done
  Step-Progress {db} {db'} (retried node id by now o done) =
      retry-Progress new_uuid node id by now db db' o done
  Step-Progress {db} {db'} (listed identity after now limit sent done) =
      list_pending-Progress new_uuid identity after now limit db db' sent done
  Step-Progress {db} {db'} (reported identity id r now done) =
      report-Progress new_uuid identity id r now db db' done
  Step-Progress {db} {db'} (reconciled real_used now offline_after stuck_after done) =
      rw (reconcile_operations new_uuid real_used now offline_after stuck_after db db' done)
        (expire-Progress new_uuid (is_overdue now) now db.operations (λ x h. ground arith))

  Steps-Progress :
      {db db' : Db} → Steps new_uuid parse_ip db db' → Progress db.operations db'.operations
  Steps-Progress {db} stop = Progress-refl db.operations
  Steps-Progress (step first rest) = Progress-trans (Step-Progress first) (Steps-Progress rest)

  -- An operation that has succeeded, failed or expired never changes again, whatever calls follow,
  -- from a table of operations with its primary key.
  pub finished_stays :
      (db db' : Db) (k : ℕ) (o : Operation)
      → Steps new_uuid parse_ip db db'
      → Keyed db.operations
      → find (has_key k) db.operations ≡ some o
      → is_open o.status ≡ false
      → find (has_key k) db'.operations ≡ some o
  finished_stays db db' k o calls keys e final = (Steps-Progress calls).kept keys k o e final

  -- No node ever has more than 20 operations queued or running, whatever calls follow, from a table
  -- where none has.
  pub queue_bounded :
      (db db' : Db)
      → Steps new_uuid parse_ip db db'
      → ((node : ℕ) → count (is_pending node) db.operations ≤ 20)
      → (node : ℕ) → count (is_pending node) db'.operations ≤ 20
  queue_bounded db db' calls bound node =
      ground (arith, (Steps-Progress calls).pending node, bound node)
