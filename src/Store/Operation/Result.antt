-- ===== src/Store/Operation/Result.antt =====
-- `RecordNodeOperationResult` and `validConfigBackupPath` of internal/store/operation.go.
-- `uuid.NewString` is the function `new_uuid` of the number of UUIDs drawn so far.
use poly_fleet.Base.{
  ℕ, suc, Bool, true, false, ◌&&◌, ◌||◌, not, Option, none, some, List, [], ◌∷◌, ◌++◌, ◌==◌, leb,
  ltb, if◌then◌else◌, Result, ok, err, not_found, conflict, unsupported, expired, internal, ◌>>=◌,
  find, exists, update, length,
}
use poly_fleet.Schema.{
  Db, Operation, OperationStatus, queued, running, succeeded, failed, AgentIdentity, Text, bytes,
  is_live_node, ConfigBackup, ℤ, pos, negsuc, AlertType, Severity,
}
use poly_fleet.Store.Texts.{same_text, is_empty, has_prefix, clean}
use poly_fleet.Store.Alert.{upsert_alert, resolve_alert}
use poly_fleet.Store.Operation.Queue.{is_operation, same_type}
use poly_fleet.Store.Operation.Pending.{or_now}

pub record Backup : Type 0 where
  pub local_path : Text
  pub sha256 : Text
  pub size_bytes : ℤ

-- A zero `CompletedAt` is `none`.
pub record OperationResultRequest : Type 0 where
  pub sequence : ℕ
  pub status : Text
  pub output : Text
  pub error_code : Text
  pub error_message : Text
  pub rolled_back : Bool
  pub backup : Option Backup
  pub completed_at : Option ℕ

abbrev same_bool : Bool → Bool → Bool
same_bool true b = b
same_bool false b = not b

abbrev pub status_name : OperationStatus → Text
status_name queued = bytes "queued"
status_name running = bytes "running"
status_name succeeded = bytes "succeeded"
status_name failed = bytes "failed"
status_name OperationStatus.expired = bytes "expired"

-- The recorded result is the reported one.
unfoldable pub same_result : Operation → OperationResultRequest → Bool
same_result o r =
    same_text (status_name o.status) r.status
    && (same_text o.output r.output
        && (same_text o.error_code r.error_code
            && (same_text o.error_message r.error_message
                && same_bool o.rolled_back r.rolled_back)))

-- The statuses that a result may have.
unfoldable pub result_status : Text → Option OperationStatus
result_status s =
    if same_text s (bytes "succeeded")
    then some succeeded
    else if same_text s (bytes "failed")
    then some failed
    else none

abbrev pub complete_row : OperationStatus → OperationResultRequest → ℕ → Operation → Operation
complete_row status r now o = record o {
  status = status;
  output = r.output;
  error_code = r.error_code;
  error_message = r.error_message;
  rolled_back = r.rolled_back;
  completed_at = some (or_now r.completed_at now);
  updated_at = now;
}

unfoldable pub valid_config_backup_path : Text → Bool
valid_config_backup_path value =
    same_text (clean value) value
    && (has_prefix value (bytes "/var/lib/hyfleet-backups/")
        || has_prefix value (bytes "/var/lib/hyfleet-backups-lab/"))

abbrev pub is_hex : ℕ → Bool
is_hex x = (leb 48 x && leb x 57) || (leb 97 x && leb x 102)

unfoldable pub all_hex : Text → Bool
all_hex [] = true
all_hex (x ∷ s) = is_hex x && all_hex s

unfoldable pub valid_backup : Backup → Bool
valid_backup b =
    valid_config_backup_path (clean b.local_path)
    && (same_text (clean b.local_path) b.local_path
        && (not (ltb 512 (length b.local_path)) && ((length b.sha256 == 64) && all_hex b.sha256)))

abbrev is_failure : OperationStatus → Bool
is_failure failed = true
is_failure OperationStatus.expired = true
is_failure _ = false

abbrev is_success : OperationStatus → Bool
is_success succeeded = true
is_success _ = false

-- A failure that no later success of its type makes up for.
abbrev pub is_unrecovered : List Operation → ℕ → Operation → Bool
is_unrecovered os node o =
    (o.node_id == node)
    && (is_failure o.status
        && not (
            exists
              (λ (r : Operation).
                (r.node_id == o.node_id)
                && (same_type r.type o.type && (ltb o.sequence r.sequence && is_success r.status)))
              os))

abbrev pub failure_message : OperationResultRequest → Text
failure_message r =
    if is_empty r.error_message
    then r.error_code
    else r.error_code ++ (bytes ": " ++ r.error_message)

module _ (new_uuid : ℕ → ℕ) where
  -- `id` is the primary key, and `operation_id` is unique.
  unfoldable pub insert_backup : ℕ → ℕ → Backup → ℕ → Db → Result Db
  insert_backup node id b completed_at db = elim b.size_bytes [
    | negsuc n ↦ err unsupported
    | pos size ↦
        if exists (λ (c : ConfigBackup). (c.id == new_uuid db.drawn) || (c.operation_id == id))
          db.backups
        then err internal
        else ok (record db {
          backups =
              record {
                id = new_uuid db.drawn;
                node_id = node;
                operation_id = id;
                local_path = b.local_path;
                sha256 = b.sha256;
                size_bytes = size;
                created_at = completed_at;
              }
              ∷ db.backups;
          drawn = suc db.drawn;
        })
  ]

  unfoldable pub record_backup : ℕ → ℕ → OperationResultRequest → ℕ → Db → Result Db
  record_backup node id r now db = elim r.backup [
    | none ↦ ok db
    | some b ↦
        if valid_backup b
        then insert_backup node id b (or_now r.completed_at now) db
        else err unsupported
  ]

  -- The alert that follows from the result.
  unfoldable pub settle_alert : ℕ → OperationStatus → OperationResultRequest → ℕ → Db → Result Db
  settle_alert node failed r now db =
      upsert_alert new_uuid node AlertType.operation_failed Severity.warning (failure_message r) now
        db
  settle_alert node status r now db =
      if exists (is_unrecovered db.operations node) db.operations
      then ok db
      else resolve_alert new_uuid node AlertType.operation_failed now db

  -- From the update of the row on.
  unfoldable pub complete_operation :
      ℕ → ℕ → OperationStatus → OperationResultRequest → ℕ → Db → Result Db
  complete_operation node id status r now db =
      record_backup node id r now (record db {
        operations = update (λ o. o.id == id) (complete_row status r now) db.operations;
      })
      >>= λ db'. settle_alert node status r now db'

  -- The answer for an operation with the given status.
  unfoldable pub accept_result :
      OperationStatus → ℕ → Operation → OperationResultRequest → ℕ → Db → Result Db
  accept_result OperationStatus.expired node o r now db = err expired
  accept_result succeeded node o r now db = if same_result o r then ok db else err conflict
  accept_result failed node o r now db = if same_result o r then ok db else err conflict
  accept_result _ node o r now db = elim (result_status r.status) [
    | none ↦ err unsupported
    | some status ↦ complete_operation node o.id status r now db
  ]

  unfoldable pub record_node_operation_result :
      AgentIdentity → ℕ → OperationResultRequest → ℕ → Db → Result Db
  record_node_operation_result identity id r now db =
      elim (find (is_operation identity.node_id id) db.operations) [
        | none ↦ err not_found
        | some o ↦ elim (find (is_live_node identity.node_id) db.nodes) [
          | none ↦ err not_found
          | some n ↦
              if (n.agent_installation_id == identity.installation_id) && (o.sequence == r.sequence)
              then accept_result o.status identity.node_id o r now db
              else err conflict
        ]
      ]
