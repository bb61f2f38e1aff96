-- ===== src/Store/Operation/Queue.antt =====
-- `CreateTargetedNodeOperation`, `CreateNodeOperation`, `RetryNodeOperation`, `GetNodeOperation` and
-- what they call, of internal/store/operation.go. `net.ParseIP` followed by `String` is the function
-- `parse_ip`; `uuid.NewString` is the function `new_uuid` of the number of UUIDs drawn so far.
use poly_fleet.Base.{
  ℕ, suc, ◌+◌, max, Bool, true, false, ◌&&◌, ◌||◌, not, Option, none, some, List, [], ◌∷◌, ◌==◌,
  leb, ltb, if◌then◌else◌, Result, ok, err, not_found, conflict, pending, unsupported, internal,
  ◌>>=◌, find, exists, count,
}
use poly_fleet.Schema.{
  Db, Node, Operation, OperationType, OperationStatus, probe_core, restart_core, tail_core_log,
  backup_config, ping, queued, running, Adapter, sing_box_vless_reality, Text, bytes, is_live_node,
  ℤ, pos, negsuc,
}
use poly_fleet.Store.Texts.{same_text, is_empty, trim_space}

abbrev pub type_code : OperationType → ℕ
type_code probe_core = 0
type_code restart_core = 1
type_code tail_core_log = 2
type_code backup_config = 3
type_code ping = 4

abbrev pub same_type : OperationType → OperationType → Bool
same_type s t = type_code s == type_code t

-- `ValidOperationType`, which gives the type that the name stands for.
unfoldable pub valid_operation_type : Text → Option OperationType
valid_operation_type value =
    if same_text value (bytes "probe_core")
    then some probe_core
    else if same_text value (bytes "restart_core")
    then some restart_core
    else if same_text value (bytes "tail_core_log")
    then some tail_core_log
    else if same_text value (bytes "backup_config")
    then some backup_config
    else if same_text value (bytes "ping")
    then some ping
    else none

abbrev pub max_operation_log_lines : ℕ
max_operation_log_lines = 200

abbrev pub max_pending_node_operations : ℕ
max_pending_node_operations = 20

unfoldable pub normalize_operation_lines : OperationType → ℤ → Result ℕ
normalize_operation_lines type (negsuc n) = err unsupported
normalize_operation_lines type (pos n) =
    if same_type type tail_core_log
    then if n == 0 then ok 100 else if ltb max_operation_log_lines n then err unsupported else ok n
    else if n == 0
    then ok 0
    else err unsupported

-- In milliseconds.
unfoldable pub operation_ttl : OperationType → ℕ
operation_ttl ping = 120000
operation_ttl restart_core = 900000
operation_ttl backup_config = 900000
operation_ttl _ = 600000

abbrev pub is_open : OperationStatus → Bool
is_open queued = true
is_open running = true
is_open _ = false

abbrev pub is_pending : ℕ → Operation → Bool
is_pending node o = (o.node_id == node) && is_open o.status

unfoldable pub ensure_operation_queue_capacity : ℕ → Db → Result Db
ensure_operation_queue_capacity node db =
    if leb max_pending_node_operations (count (is_pending node) db.operations)
    then err conflict
    else ok db

-- COALESCE(MAX(sequence), 0)
unfoldable pub max_sequence : ℕ → List Operation → ℕ
max_sequence node [] = 0
max_sequence node (o ∷ os) =
    if o.node_id == node then max o.sequence (max_sequence node os) else max_sequence node os

abbrev pub is_operation : ℕ → ℕ → Operation → Bool
is_operation node id o = (o.id == id) && (o.node_id == node)

-- The answer is read through a join with the node.
unfoldable pub get_node_operation : ℕ → ℕ → Db → Result Operation
get_node_operation node id db = elim (find (is_operation node id) db.operations) [
  | none ↦ err not_found
  | some o ↦ if exists (is_live_node node) db.nodes then ok o else err not_found
]

abbrev no_core_log : Adapter → OperationType → Bool
no_core_log sing_box_vless_reality tail_core_log = true
no_core_log _ _ = false

module _ (parse_ip : Text → Option Text) where
  unfoldable pub normalize_operation_target : OperationType → Text → Result Text
  normalize_operation_target type target =
      if same_type type ping
      then (elim (parse_ip (trim_space target)) [ none ↦ err unsupported | some ip ↦ ok ip ])
      else if is_empty (trim_space target)
      then ok []
      else err unsupported

abbrev pub may_retry : OperationStatus → Bool
may_retry OperationStatus.failed = true
may_retry OperationStatus.expired = true
may_retry _ = false

module _ (new_uuid : ℕ → ℕ) where
  abbrev pub new_operation : ℕ → OperationType → ℕ → Text → Option ℕ → ℕ → ℕ → ℕ → Db → Operation
  new_operation node type max_lines target retry_of attempt requested_by now db = record {
    id = new_uuid db.drawn;
    node_id = node;
    sequence = max_sequence node db.operations + 1;
    type = type;
    status = queued;
    retry_of = retry_of;
    attempt = attempt;
    max_lines = max_lines;
    target = target;
    output = [];
    error_code = [];
    error_message = [];
    rolled_back = false;
    requested_by = requested_by;
    expires_at = now + operation_ttl type;
    started_at = none;
    completed_at = none;
    created_at = now;
    updated_at = now;
  }

  -- The primary key is `id`, and (node_id, sequence) is unique.
  unfoldable pub insert_node_operation :
      ℕ → OperationType → ℕ → Text → Option ℕ → ℕ → ℕ → ℕ → Db → Result (Operation × Db)
  insert_node_operation node type max_lines target retry_of attempt requested_by now db =
      let o = new_operation node type max_lines target retry_of attempt requested_by now db in
      if exists
        (λ (x : Operation). (x.id == o.id) || ((x.node_id == node) && (x.sequence == o.sequence)))
        db.operations
      then err internal
      else ok (o, record db { operations = o ∷ db.operations; drawn = suc db.drawn })

  -- From the checks of the node on, for an operation that is asked for anew.
  unfoldable pub queue_operation :
      ℕ → OperationType → ℕ → Text → ℕ → ℕ → Db → Result (Operation × Db)
  queue_operation node type max_lines target requested_by now db =
      elim (find (is_live_node node) db.nodes) [
        | none ↦ err not_found
        | some n ↦
            if n.agent_installation_id == 0
            then err pending
            else if no_core_log n.adapter_type type
            then err unsupported
            else ensure_operation_queue_capacity node db >>= λ db0.
                insert_node_operation node type max_lines target none 1 requested_by now db0
      ]

  module _ (parse_ip : Text → Option Text) where
    unfoldable pub create_targeted_node_operation :
        ℕ → Text → ℤ → Text → ℕ → ℕ → Db → Result (Operation × Db)
    create_targeted_node_operation node type max_lines target requested_by now db =
        elim (valid_operation_type type) [
          | none ↦ err unsupported
          | some t ↦ normalize_operation_lines t max_lines >>= λ lines.
              normalize_operation_target parse_ip t target >>= λ normalized.
              queue_operation node t lines normalized requested_by now db >>= λ (created, db').
              get_node_operation node created.id db' >>= λ o. ok (o, db')
        ]

    abbrev pub create_node_operation : ℕ → Text → ℤ → ℕ → ℕ → Db → Result (Operation × Db)
    create_node_operation node type max_lines requested_by now db =
        create_targeted_node_operation node type max_lines [] requested_by now db

  -- The checks of a retry, and its insertion.
  unfoldable pub requeue_operation : ℕ → Operation → Node → ℕ → ℕ → Db → Result (Operation × Db)
  requeue_operation node o n requested_by now db =
      if not (may_retry o.status)
      then err conflict
      else if no_core_log n.adapter_type o.type
      then err unsupported
      else ensure_operation_queue_capacity node db >>= λ db0.
          insert_node_operation node o.type o.max_lines o.target (some o.id) (o.attempt + 1)
            requested_by now db0

  unfoldable pub retry_node_operation : ℕ → ℕ → ℕ → ℕ → Db → Result (Operation × Db)
  retry_node_operation node id requested_by now db =
      elim (find (is_operation node id) db.operations) [
        | none ↦ err not_found
        | some o ↦ elim (find (is_live_node node) db.nodes) [
          | none ↦ err not_found
          | some n ↦ requeue_operation node o n requested_by now db >>= λ (created, db').
              get_node_operation node created.id db' >>= λ again. ok (again, db')
        ]
      ]
