-- ===== src/Store/Operation/Report.antt =====
-- A result that `RecordNodeOperationResult` of internal/store/operation.go has taken stays.
use poly_fleet.Base.{
  ℕ, ◌≡◌, ◌⊎◌, refl, sym, subst, ◌∙◌, true, inl, inr, some, ◌==◌, if◌then◌else◌, ok, err, conflict,
  >>=-eq-ok, find, exists, update, Option-cases, Bool-cases, find-update, eq_refl, arith,
}
use poly_fleet.Schema.{
  Db, Node, Operation, OperationStatus, queued, running, succeeded, failed, AgentIdentity, Text,
  bytes, is_live_node, AlertType, Severity, EventType, is_active_alert,
}
use poly_fleet.Store.Texts.{same_text}
use poly_fleet.Store.Texts.Same.{same_text_refl, same_text_eq, same_text_sym}
use poly_fleet.Store.Alert.{has_id, upsert_alert, resolve_alert}
use poly_fleet.Store.Alert.Effect.{Alike, Alike-refl, notify_alert-Quiet}
use poly_fleet.Store.Operation.Queue.{is_operation}
use poly_fleet.Store.Operation.Result.{
  OperationResultRequest, same_result, result_status, complete_row, complete_operation,
  record_backup, insert_backup, settle_alert, accept_result, failure_message,
  record_node_operation_result, status_name,
}

module _ (new_uuid : ℕ → ℕ) where
  -- What a notification leaves alone, an alert leaves alone.
  pub upsert_alert-Alike :
      (node : ℕ) (type : AlertType) (severity : Severity) (message : Text) (now : ℕ) (db db' : Db)
      → upsert_alert new_uuid node type severity message now db ≡ ok db'
      → Alike db db'
  unfolding upsert_alert
  upsert_alert-Alike node type severity message now db db' h =
      elim (Option-cases (find (is_active_alert node type) db.alerts)) [
        | inr (a, e) ↦ ground (arith, Alike-refl db)
        | inl e ↦ elim (Bool-cases (exists (has_id (new_uuid db.drawn)) db.alerts)) [
          | inl clash ↦ absurd (ground arith)
          | inr fresh ↦
              let quiet =
                notify_alert-Quiet new_uuid (new_uuid db.drawn) node EventType.created now _ db'
                  (rw (e, fresh, upsert_alert) at h) in
              ground (arith, quiet.alike)
        ]
      ]

  pub resolve_alert-Alike :
      (node : ℕ) (type : AlertType) (now : ℕ) (db db' : Db)
      → resolve_alert new_uuid node type now db ≡ ok db'
      → Alike db db'
  unfolding resolve_alert
  resolve_alert-Alike node type now db db' h =
      elim (Option-cases (find (is_active_alert node type) db.alerts)) [
        | inl e ↦ ground (arith, Alike-refl db)
        | inr (a, e) ↦
            let quiet =
              notify_alert-Quiet new_uuid a.id node EventType.resolved now _ db'
                (rw (e, resolve_alert) at h) in
            ground (arith, quiet.alike)
      ]

  record_backup-operations :
      (node id : ℕ) (r : OperationResultRequest) (now : ℕ) (db db' : Db)
      → record_backup new_uuid node id r now db ≡ ok db'
      → (db'.operations ≡ db.operations) × (db'.nodes ≡ db.nodes)
  unfolding record_backup insert_backup
  record_backup-operations node id r now db db' h = ground arith

  settle_alert-Alike :
      (node : ℕ) (status : OperationStatus) (r : OperationResultRequest) (now : ℕ) (db db' : Db)
      → settle_alert new_uuid node status r now db ≡ ok db'
      → Alike db db'
  unfolding settle_alert
  settle_alert-Alike node status r now db db' h = ground (
    arith,
    Alike-refl db,
    upsert_alert-Alike node AlertType.operation_failed Severity.warning (failure_message r) now db
        db',
    resolve_alert-Alike node AlertType.operation_failed now db db',
  )

  pub complete_operation-operations :
      (node id : ℕ) (status : OperationStatus) (r : OperationResultRequest) (now : ℕ) (db db' : Db)
      → complete_operation new_uuid node id status r now db ≡ ok db'
      → (db'.operations ≡ update (λ o. o.id == id) (complete_row status r now) db.operations)
        × (db'.nodes ≡ db.nodes)
  unfolding complete_operation
  complete_operation-operations node id status r now db db' h =
      let (db1, e, rest) = >>=-eq-ok (record_backup new_uuid node id r now _) _ h in
      let first = record_backup-operations node id r now _ db1 e in
      let later = settle_alert-Alike node status r now db1 db' rest in
      (later.operations ∙ first.0, later.nodes ∙ first.1)

-- The answer of the method for an operation in its table and a node in its table.
record Taken (identity : AgentIdentity) (id : ℕ) (r : OperationResultRequest) (db : Db)
    : Type 0 where
  row : Operation
  node : Node
  found : find (is_operation identity.node_id id) db.operations ≡ some row
  live : find (is_live_node identity.node_id) db.nodes ≡ some node
  installation : (node.agent_installation_id == identity.installation_id) ≡ true
  sequence : (row.sequence == r.sequence) ≡ true
  finished : (row.status ≡ succeeded) ⊎ (row.status ≡ failed)
  same : same_result row r ≡ true

abbrev pub Finished : OperationStatus → Type 0
Finished status = (status ≡ succeeded) ⊎ (status ≡ failed)

pub status_text :
    (s : Text) (status : OperationStatus)
    → result_status s ≡ some status
    → Finished status × (same_text (status_name status) s ≡ true)
unfolding result_status
status_text s status h = elim (Bool-cases (same_text s (bytes "succeeded"))) [
  | inl hit ↦
      let is : succeeded ≡ status = ground arith in
      subst (λ x. Finished x × (same_text (status_name x) s ≡ true)) is
        (inl refl, same_text_sym s (bytes "succeeded") hit)
  | inr miss ↦ elim (Bool-cases (same_text s (bytes "failed"))) [
    | inl hit ↦
        let is : failed ≡ status = ground arith in
        subst (λ x. Finished x × (same_text (status_name x) s ≡ true)) is
          (inr refl, same_text_sym s (bytes "failed") hit)
    | inr none_of ↦ absurd (ground arith)
  ]
]

completed_same :
    (status : OperationStatus) (r : OperationResultRequest) (now : ℕ) (o : Operation)
    → same_text (status_name status) r.status ≡ true
    → same_result (complete_row status r now o) r ≡ true
unfolding same_result
completed_same status r now o h =
    rw (h, same_text_refl r.output, same_text_refl r.error_code, same_text_refl r.error_message)
      (ground arith)

module _ (new_uuid : ℕ → ℕ) (identity : AgentIdentity) (id : ℕ) (r : OperationResultRequest)
    (now : ℕ) (db db' : Db) where
  completed-Taken :
      (o : Operation) (n : Node) (status : OperationStatus)
      → find (is_operation identity.node_id id) db.operations ≡ some o
      → find (is_live_node identity.node_id) db.nodes ≡ some n
      → (n.agent_installation_id == identity.installation_id) ≡ true
      → (o.sequence == r.sequence) ≡ true
      → result_status r.status ≡ some status
      → complete_operation new_uuid identity.node_id o.id status r now db ≡ ok db'
      → Taken identity id r db'
  completed-Taken o n status e f installation sequence given done =
      let tables =
        complete_operation-operations new_uuid identity.node_id o.id status r now db db' done in
      let named = status_text r.status status given in
      record {
        row = complete_row status r now o;
        node = n;
        found =
            rw
              (
                tables.0,
                find-update (is_operation identity.node_id id) (λ x. x.id == o.id)
                    (complete_row status r now) (λ x. refl) db.operations,
                e,
              )
              (ground (arith, eq_refl o.id));
        live = rw tables.1 f;
        installation = installation;
        sequence = sequence;
        finished = named.0;
        same = completed_same status r now o named.1;
      }

  repeated-Taken :
      (o : Operation) (n : Node)
      → Finished o.status
      → find (is_operation identity.node_id id) db.operations ≡ some o
      → find (is_live_node identity.node_id) db.nodes ≡ some n
      → (n.agent_installation_id == identity.installation_id) ≡ true
      → (o.sequence == r.sequence) ≡ true
      → ◌≡◌ (if same_result o r then ok db else err conflict) (ok db')
      → Taken identity id r db'
  repeated-Taken o n final e f i q h =
      let unchanged : db ≡ db' = ground arith in
      subst (Taken identity id r) unchanged (record {
        row = o;
        node = n;
        found = e;
        live = f;
        installation = i;
        sequence = q;
        finished = final;
        same = ground arith;
      })

  accepted-Taken :
      (o : Operation) (n : Node) (status : OperationStatus)
      → o.status ≡ status
      → find (is_operation identity.node_id id) db.operations ≡ some o
      → find (is_live_node identity.node_id) db.nodes ≡ some n
      → (n.agent_installation_id == identity.installation_id) ≡ true
      → (o.sequence == r.sequence) ≡ true
      → accept_result new_uuid status identity.node_id o r now db ≡ ok db'
      → Taken identity id r db'
  unfolding accept_result
  accepted-Taken o n OperationStatus.expired s e f i q h = absurd (ground arith)
  accepted-Taken o n succeeded s e f i q h = repeated-Taken o n (inl s) e f i q h
  accepted-Taken o n failed s e f i q h = repeated-Taken o n (inr s) e f i q h
  accepted-Taken o n queued s e f i q h = elim (Option-cases (result_status r.status)) [
    | inl x ↦ absurd (ground arith)
    | inr (status, x) ↦ completed-Taken o n status e f i q x (ground arith)
  ]
  accepted-Taken o n running s e f i q h = elim (Option-cases (result_status r.status)) [
    | inl x ↦ absurd (ground arith)
    | inr (status, x) ↦ completed-Taken o n status e f i q x (ground arith)
  ]

  record_result-Taken :
      record_node_operation_result new_uuid identity id r now db ≡ ok db' → Taken identity id r db'
  unfolding record_node_operation_result
  record_result-Taken h =
      elim (Option-cases (find (is_operation identity.node_id id) db.operations)) [
        | inl e ↦ absurd (ground arith)
        | inr (o, e) ↦ elim (Option-cases (find (is_live_node identity.node_id) db.nodes)) [
          | inl f ↦ absurd (ground arith)
          | inr (n, f) ↦
              let guard = rw (e, f, record_node_operation_result) at h in
              accepted-Taken o n o.status refl e f (ground arith) (ground arith) (ground arith)
        ]
      ]

-- Two reports of the same outcome.
pub record SameReport (r s : OperationResultRequest) : Type 0 where
  pub status : r.status ≡ s.status
  pub output : r.output ≡ s.output
  pub error_code : r.error_code ≡ s.error_code
  pub error_message : r.error_message ≡ s.error_message
  pub rolled_back : r.rolled_back ≡ s.rolled_back

same_result-SameReport :
    (o : Operation) (r s : OperationResultRequest)
    → same_result o r ≡ true
    → same_result o s ≡ true
    → SameReport r s
unfolding same_result
same_result-SameReport o r s h k = record {
  status =
      sym (same_text_eq (status_name o.status) r.status (ground arith))
      ∙ same_text_eq (status_name o.status) s.status (ground arith);
  output =
      sym (same_text_eq o.output r.output (ground arith))
      ∙ same_text_eq o.output s.output (ground arith);
  error_code =
      sym (same_text_eq o.error_code r.error_code (ground arith))
      ∙ same_text_eq o.error_code s.error_code (ground arith);
  error_message =
      sym (same_text_eq o.error_message r.error_message (ground arith))
      ∙ same_text_eq o.error_message s.error_message (ground arith);
  rolled_back = ground arith;
}

module _ (new_uuid : ℕ → ℕ) (identity : AgentIdentity) (id : ℕ) (r : OperationResultRequest)
    (now : ℕ) (db db' : Db) where
  final_answer :
      (o : Operation) (s : OperationResultRequest) (later : ℕ)
      → Finished o.status
      → accept_result new_uuid o.status identity.node_id o s later db'
        ≡ (if same_result o s then ok db' else err conflict)
  unfolding accept_result
  final_answer o s later (inl e) = rw e refl
  final_answer o s later (inr e) = rw e refl

  -- The answer to any further report.
  later_answer :
      (t : Taken identity id r db') (s : OperationResultRequest) (later : ℕ)
      → record_node_operation_result new_uuid identity id s later db' ≡ (
          if t.row.sequence == s.sequence
          then if same_result t.row s then ok db' else err conflict
          else err conflict)
  unfolding record_node_operation_result
  later_answer t s later =
      rw (t.found, t.live, t.installation, record_node_operation_result)
        (ground (arith, final_answer t.row s later t.finished))

  -- A result that has been taken is taken again when it is sent again, at whatever time, and then
  -- changes nothing.
  pub result_replay :
      record_node_operation_result new_uuid identity id r now db ≡ ok db'
      → (later : ℕ) → record_node_operation_result new_uuid identity id r later db' ≡ ok db'
  result_replay done later =
      let t = record_result-Taken new_uuid identity id r now db db' done in
      rw (later_answer t r later, t.sequence, t.same) refl

  -- After a result has been taken, a report of another outcome from the same Agent is a conflict,
  -- whatever sequence it names and whenever it comes.
  pub result_conflict :
      record_node_operation_result new_uuid identity id r now db ≡ ok db'
      → (s : OperationResultRequest) (later : ℕ) → ¬ SameReport r s
      → record_node_operation_result new_uuid identity id s later db' ≡ err conflict
  result_conflict done s later other =
      let t = record_result-Taken new_uuid identity id r now db db' done in
      elim (Bool-cases (same_result t.row s)) [
        | inl hit ↦ absurd (other (same_result-SameReport t.row r s t.same hit))
        | inr miss ↦ rw (later_answer t s later, miss) (ground arith)
      ]
