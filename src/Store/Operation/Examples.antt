-- ===== src/Store/Operation/Examples.antt =====
-- An operation from its creation to its result, and a second one after it.
use poly_fleet.Base.{
  ℕ, ◌+◌, ◌≤◌, ◌≡◌, refl, true, false, Option, none, some, List, [], ◌∷◌, Result, ok, err, conflict,
  find, exists, select, update, count, length, All, arith,
}
use poly_fleet.Schema.{Db, Operation, backup_config, queued, running, succeeded, Text, bytes, pos}
use poly_fleet.Store.Fixtures.{start, agent}
use poly_fleet.Store.Texts.{
  same_text, has_prefix, trim_by, reverse_onto, push_byte, split_slash, join_slash, clean_elements,
  reverse_words, clean,
}
use poly_fleet.Store.Alert.{resolve_alert}
use poly_fleet.Store.Operation.Queue.{
  valid_operation_type, normalize_operation_lines, normalize_operation_target, operation_ttl,
  ensure_operation_queue_capacity, max_sequence, get_node_operation, insert_node_operation,
  queue_operation, create_targeted_node_operation, is_pending,
}
use poly_fleet.Store.Operation.Pending.{
  insert_by_sequence, by_sequence, mark_running, pending_operations, list_pending_node_operations,
}
use poly_fleet.Store.Operation.Result.{
  OperationResultRequest, result_status, valid_config_backup_path, all_hex, valid_backup,
  insert_backup, record_backup, settle_alert, complete_operation, accept_result,
  record_node_operation_result,
}
use poly_fleet.Store.Operation.Report.{SameReport, result_replay, result_conflict}
use poly_fleet.Store.Operation.Progress.{has_key, Keyed}
use poly_fleet.Store.Operation.Steps.{
  created, listed, reported, stop, step, finished_stays, queue_bounded,
}
use poly_fleet.Store.Operation.Created.{reaches, create_appends}
use poly_fleet.Store.Operation.Delivered.{Ascending, Due, list_pending-Due}
use poly_fleet.Store.Operation.BackupPath.{InBackupDirectory, PlainWord, valid_path-Plain}

abbrev uuid : ℕ → ℕ
uuid n = n + 1000

-- A stand-in for the parser of addresses that takes every text.
abbrev parse_any : Text → Option Text
parse_any = some

abbrev ask : ℕ → Db → Result (Operation × Db)
ask now db =
    create_targeted_node_operation uuid parse_any 1 (bytes "backup_config") (pos 0) [] 4 now db

abbrev first : Operation
first = record {
  id = 1000;
  node_id = 1;
  sequence = 1;
  type = backup_config;
  status = queued;
  retry_of = none;
  attempt = 1;
  max_lines = 0;
  target = [];
  output = [];
  error_code = [];
  error_message = [];
  rolled_back = false;
  requested_by = 4;
  expires_at = 900010;
  started_at = none;
  completed_at = none;
  created_at = 10;
  updated_at = 10;
}

abbrev queued_db : Db
queued_db = record start { operations = first ∷ []; drawn = 1 }

asked : ask 10 start ≡ ok (first, queued_db)
unfolding create_targeted_node_operation valid_operation_type normalize_operation_lines
    normalize_operation_target operation_ttl ensure_operation_queue_capacity max_sequence
    get_node_operation insert_node_operation queue_operation same_text trim_by reverse_onto find
    exists count
asked = refl

abbrev running_db : Db
running_db = record queued_db {
  operations = record first { status = running; started_at = some 20; updated_at = 20 } ∷ [];
}

sent_to_agent : list_pending_node_operations agent 0 20 5 queued_db ≡ ok (first ∷ [], running_db)
unfolding list_pending_node_operations pending_operations insert_by_sequence by_sequence
    mark_running find select update
sent_to_agent = refl

abbrev archive : Text
archive = bytes "/var/lib/hyfleet-backups/a.tar"

abbrev digest : Text
digest = bytes "0123456789abcdef0123456789abcdef0123456789abcdef0123456789abcdef"

abbrev report : OperationResultRequest
report = record {
  sequence = 1;
  status = bytes "succeeded";
  output = [];
  error_code = [];
  error_message = [];
  rolled_back = false;
  backup = some (record { local_path = archive; sha256 = digest; size_bytes = pos 7 });
  completed_at = none;
}

abbrev finished : Operation
finished = record first {
  status = succeeded;
  started_at = some 20;
  completed_at = some 30;
  updated_at = 30;
}

abbrev finished_db : Db
finished_db = record running_db {
  operations = finished ∷ [];
  backups =
      record {
        id = 1001;
        node_id = 1;
        operation_id = 1000;
        local_path = archive;
        sha256 = digest;
        size_bytes = 7;
        created_at = 30;
      }
      ∷ [];
  drawn = 2;
}

taken : record_node_operation_result uuid agent 1000 report 30 running_db ≡ ok finished_db
unfolding record_node_operation_result accept_result complete_operation settle_alert record_backup
    insert_backup valid_backup all_hex valid_config_backup_path result_status same_text has_prefix
    clean split_slash push_byte join_slash clean_elements reverse_words resolve_alert find exists
    update
taken = refl

-- The second operation comes after the first one is finished.
abbrev second : Operation
second = record first {
  id = 1002;
  sequence = 2;
  expires_at = 900040;
  created_at = 40;
  updated_at = 40;
}

abbrev later_db : Db
later_db = record finished_db { operations = second ∷ finished ∷ []; drawn = 3 }

asked_again : ask 40 finished_db ≡ ok (second, later_db)
unfolding create_targeted_node_operation valid_operation_type normalize_operation_lines
    normalize_operation_target operation_ttl ensure_operation_queue_capacity max_sequence
    get_node_operation insert_node_operation queue_operation same_text trim_by reverse_onto find
    exists count
asked_again = refl

result_replay_example :
    record_node_operation_result uuid agent 1000 report 99 finished_db ≡ ok finished_db
result_replay_example = result_replay uuid agent 1000 report 30 running_db finished_db taken 99

abbrev other_report : OperationResultRequest
other_report = record report { status = bytes "failed" }

differs : ¬ SameReport report other_report
differs same = ground (arith, same.status)

result_conflict_example :
    record_node_operation_result uuid agent 1000 other_report 99 finished_db ≡ err conflict
result_conflict_example =
    result_conflict uuid agent 1000 report 30 running_db finished_db taken other_report 99 differs

finished_keys : Keyed finished_db.operations
unfolding count
finished_keys k = ground arith

first_is : find (has_key 1000) finished_db.operations ≡ some finished
unfolding find
first_is = refl

finished_stays_example : find (has_key 1000) later_db.operations ≡ some finished
finished_stays_example =
    finished_stays uuid parse_any finished_db later_db 1000 finished
      (step (created 1 (bytes "backup_config") (pos 0) [] 4 40 second asked_again) stop)
      finished_keys first_is refl

nothing_pending : (node : ℕ) → count (is_pending node) start.operations ≤ 20
unfolding count
nothing_pending node = ground arith

queue_bounded_example : count (is_pending 1) later_db.operations ≤ 20
queue_bounded_example =
    queue_bounded uuid parse_any start later_db
      (step (created 1 (bytes "backup_config") (pos 0) [] 4 10 first asked) (
        step (listed agent 0 20 5 (first ∷ []) sent_to_agent) (
          step (reported agent 1000 report 30 taken)
            (step (created 1 (bytes "backup_config") (pos 0) [] 4 40 second asked_again) stop))))
      nothing_pending 1

create_appends_example :
    (later_db.operations ≡ second ∷ finished_db.operations)
    × (second.node_id ≡ 1)
    × (second.status ≡ queued)
    × (second.max_lines ≤ 200)
    × (count (reaches 1 second.sequence) finished_db.operations ≡ 0)
create_appends_example =
    create_appends uuid parse_any 1 (bytes "backup_config") (pos 0) [] 4 40 finished_db later_db
      second asked_again

list_pending-Due_example :
    (length (first ∷ []) ≤ 20) × Ascending (first ∷ []) × All (Due 1 0 20) (first ∷ [])
list_pending-Due_example =
    list_pending-Due agent 0 20 5 queued_db running_db (first ∷ []) sent_to_agent

archive_valid : valid_config_backup_path archive ≡ true
unfolding valid_config_backup_path same_text has_prefix clean split_slash push_byte join_slash
    clean_elements reverse_words
archive_valid = refl

valid_path-Plain_example :
    InBackupDirectory archive
    × ((ws : List Text) × ◌≡◌ {A = Text} archive (47 ∷ join_slash ws) × All PlainWord ws)
valid_path-Plain_example = valid_path-Plain archive archive_valid

-- A path that climbs out of the directory is refused.
climbing_refused : valid_config_backup_path (bytes "/var/lib/hyfleet-backups/../x") ≡ false
unfolding valid_config_backup_path same_text has_prefix clean split_slash push_byte join_slash
    clean_elements reverse_words
climbing_refused = refl
