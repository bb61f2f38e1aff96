-- ===== src/Store/Operation/Pending.antt =====
-- `ListPendingNodeOperations` and `RetryNodeSync` of internal/store/operation.go.
use poly_fleet.Base.{
  ℕ, Bool, true, false, ◌&&◌, ◌||◌, Option, none, some, List, [], ◌∷◌, ◌==◌, leb, ltb, map,
  if◌then◌else◌, Result, ok, err, not_found, conflict, pending, unsupported, ◌>>=◌, find, select,
  update, take,
}
use poly_fleet.Schema.{
  Db, Node, Operation, OperationStatus, queued, running, AgentIdentity, bytes, is_live_node,
  is_node, Adapter, native_hysteria2, s_ui, sing_box_vless_reality, NodeStatus, AssignmentState,
  Assignment, AlertType,
}
use poly_fleet.Store.Snapshot.{bump_node_snapshot}
use poly_fleet.Store.Calibration.{get_node}
use poly_fleet.Store.Alert.{resolve_alert}
use poly_fleet.Store.Operation.Queue.{is_open}

abbrev pub is_queued : OperationStatus → Bool
is_queued queued = true
is_queued _ = false

abbrev pub is_running : OperationStatus → Bool
is_running running = true
is_running _ = false

abbrev pub expire_row : ℕ → Operation → Operation
expire_row now o = record o {
  status = OperationStatus.expired;
  completed_at = some now;
  updated_at = now;
  error_code = bytes "operation_expired";
  error_message = bytes "operation expired before completion";
}

abbrev pub overdue : ℕ → ℕ → ℕ → Operation → Bool
overdue node after now o =
    (o.node_id == node) && (ltb after o.sequence && (is_queued o.status && leb o.expires_at now))

abbrev pub deliverable : ℕ → ℕ → ℕ → Operation → Bool
deliverable node after now o =
    (o.node_id == node)
    && (ltb after o.sequence
        && (is_running o.status || (is_queued o.status && ltb now o.expires_at)))

-- ORDER BY sequence
unfoldable pub insert_by_sequence : Operation → List Operation → List Operation
insert_by_sequence o [] = o ∷ []
insert_by_sequence o (x ∷ xs) =
    if leb o.sequence x.sequence then o ∷ x ∷ xs else x ∷ insert_by_sequence o xs

unfoldable pub by_sequence : List Operation → List Operation
by_sequence [] = []
by_sequence (o ∷ os) = insert_by_sequence o (by_sequence os)

abbrev pub or_now : Option ℕ → ℕ → ℕ
or_now none now = now
or_now (some t) now = t

abbrev pub start_row : ℕ → Operation → Operation
start_row now o = record o {
  status = running;
  started_at = some (or_now o.started_at now);
  updated_at = now;
}

abbrev pub is_open_operation : ℕ → Operation → Bool
is_open_operation id o = (o.id == id) && is_open o.status

unfoldable pub mark_running : List ℕ → ℕ → List Operation → List Operation
mark_running [] now os = os
mark_running (id ∷ ids) now os =
    mark_running ids now (update (is_open_operation id) (start_row now) os)

abbrev pub expire_overdue : ℕ → ℕ → ℕ → List Operation → List Operation
expire_overdue node after now = update (overdue node after now) (expire_row now)

-- The rows that go to the Agent, as they are read.
unfoldable pub pending_operations : ℕ → ℕ → ℕ → ℕ → List Operation → List Operation
pending_operations node after now limit os =
    take (if ltb limit 1 || ltb 20 limit then 20 else limit)
      (by_sequence (select (deliverable node after now) os))

unfoldable pub list_pending_node_operations :
    AgentIdentity → ℕ → ℕ → ℕ → Db → Result (List Operation × Db)
list_pending_node_operations identity after now limit db =
    elim (find (is_live_node identity.node_id) db.nodes) [
      | none ↦ err not_found
      | some n ↦
          if n.agent_installation_id == identity.installation_id
          then (let expired = expire_overdue identity.node_id after now db.operations in
              let sent = pending_operations identity.node_id after now limit expired in
              ok (sent, record db { operations = mark_running (map (λ o. o.id) sent) now expired }))
          else err conflict
    ]

abbrev syncs : Adapter → Bool
syncs native_hysteria2 = true
syncs s_ui = true
syncs sing_box_vless_reality = true
syncs _ = false

abbrev pub pending_rows : ℕ → ℕ → ℕ → List Assignment → List Assignment
pending_rows node version now =
    update (λ a. a.node_id == node)
      (λ a. record a {
        desired_version = version;
        state = AssignmentState.pending;
        last_error_code = [];
        last_error_message = [];
        updated_at = now;
      })

module _ (new_uuid : ℕ → ℕ) where
  unfoldable pub retry_node_sync : ℕ → ℕ → Db → Result (Node × Db)
  retry_node_sync node now db = elim (find (is_live_node node) db.nodes) [
    | none ↦ err not_found
    | some n ↦
        if n.agent_installation_id == 0
        then err pending
        else if syncs n.adapter_type
        then (bump_node_snapshot node now db >>= λ (version, db').
            resolve_alert new_uuid node AlertType.sync_failed now (record db' {
              assignments = pending_rows node version now db'.assignments;
              nodes =
                  update (is_node node)
                    (λ m. record m {
                      status = (if n.enabled then NodeStatus.pending else NodeStatus.disabled);
                      status_reason = [];
                      updated_at = now;
                    })
                    db'.nodes;
            })
            >>= λ db''. get_node node db'' >>= λ m. ok (m, db''))
        else err unsupported
  ]
