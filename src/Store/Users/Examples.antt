-- ===== src/Store/Users/Examples.antt =====
-- A user is archived, and the Agent acknowledges afterwards; a credential is rotated and revealed.
use poly_fleet.Base.{
  ℕ, ◌+◌, Bool, false, ◌≡◌, refl, none, [], ◌∷◌, Result, ok, err, not_found, pending, find, exists,
  update, select, delete,
}
use poly_fleet.Schema.{Db, Text, bytes, hysteria2}
use poly_fleet.Store.Fixtures.{start, agent}
use poly_fleet.Store.Texts.{same_text}
use poly_fleet.Store.Snapshot.{
  insert_snapshot, insert_sorted, sorted, bump_node_snapshot, mark_assignment_pending,
  assignment_node_ids,
}
use poly_fleet.Store.Kick.{upsert_kick, request_kick}
use poly_fleet.Store.Agents.Fixtures.{crypto, crypto-IsLawful, codec, master_key}
use poly_fleet.Store.Agents.Desired.{
  take_material, retire_credentials, apply_credentials, apply_assignments, settle_applied,
  acknowledge_found, acknowledge_desired_with_material,
}
use poly_fleet.Store.Secret.{seal}
use poly_fleet.Store.Users.Credential.{
  CreatedCredential, create_user_credential, stage_credential, stage_rotation,
  rotate_assignment_credential, credential_protocol_for_adapter,
}
use poly_fleet.Store.Users.Reveal.{reveal_assignment_credential}
use poly_fleet.Store.Users.Reveals.{reveal-Issued, by_rotation}
use poly_fleet.Store.Users.Remove.{
  archive_row, archive_nodes, archive_user, drop_assignment, unassign_user,
}
use poly_fleet.Store.Users.Access.{LockedOut}
use poly_fleet.Store.Users.Outlives.{acknowledged, unassigned, then, done, archive_user-Calls}

abbrev never_same : Text → Text → Bool
never_same a b = false

abbrev fresh : ℕ → ℕ
fresh n = n + 50

abbrev hash : ℕ → ℕ → Text
hash node version = version ∷ []

abbrev db_of : Result Db → Db
db_of (ok db) = db
db_of (err cause) = start

abbrev archived_db : Db
archived_db = db_of (archive_user 2 5 start)

archiving_runs : archive_user 2 5 start ≡ ok archived_db
unfolding archive_user archive_nodes archive_row request_kick upsert_kick bump_node_snapshot
    insert_snapshot mark_assignment_pending assignment_node_ids sorted insert_sorted find exists
    update select
archiving_runs = refl

abbrev applied_db : Db
applied_db = db_of (
    acknowledge_desired_with_material hash agent 2 (hash 1 2) (bytes "applied") [] [] none 7
      archived_db)

applying_runs :
    acknowledge_desired_with_material hash agent 2
      (hash 1 2)
      (bytes "applied")
      []
      []
      none
      7
      archived_db
    ≡ ok applied_db
unfolding acknowledge_desired_with_material acknowledge_found take_material settle_applied
    retire_credentials apply_credentials apply_assignments same_text archive_user archive_nodes
    archive_row request_kick upsert_kick bump_node_snapshot insert_snapshot mark_assignment_pending
    assignment_node_ids sorted insert_sorted find exists update select
applying_runs = refl

abbrev unassigned_db : Db
unassigned_db = db_of (unassign_user 2 1 9 applied_db)

unassigning_runs : unassign_user 2 1 9 applied_db ≡ ok unassigned_db
unfolding unassign_user drop_assignment acknowledge_desired_with_material acknowledge_found
    take_material settle_applied retire_credentials apply_credentials apply_assignments same_text
    archive_user archive_nodes archive_row request_kick upsert_kick bump_node_snapshot
    insert_snapshot mark_assignment_pending assignment_node_ids sorted insert_sorted find exists
    update select delete
unassigning_runs = refl

archive_user-Calls_example : LockedOut 2 unassigned_db
archive_user-Calls_example =
    archive_user-Calls crypto codec fresh hash never_same 2 5 start archived_db unassigned_db
      archiving_runs
      (then archived_db applied_db
        (acknowledged agent 2 (hash 1 2) (bytes "applied") [] [] none 7 applying_runs)
        (then applied_db unassigned_db (unassigned 2 1 9 unassigning_runs) done))

-- An archived user is not archived again.
archived_ends : archive_user 2 6 archived_db ≡ err not_found
unfolding archive_user archive_nodes archive_row request_kick upsert_kick bump_node_snapshot
    insert_snapshot mark_assignment_pending assignment_node_ids sorted insert_sorted find exists
    update select
archived_ends = refl

abbrev first_of : Result (CreatedCredential × Db) → CreatedCredential
first_of (ok (made, db)) = made
first_of (err cause) = record {
  user_id = 0;
  node_id = 0;
  credential_id = 0;
  fingerprint = [];
  protocol = hysteria2;
  desired_version = 0;
  secret = [];
}

abbrev next_of : Result (CreatedCredential × Db) → Db
next_of (ok (made, db)) = db
next_of (err cause) = start

abbrev rotation : Result (CreatedCredential × Db)
rotation = rotate_assignment_credential crypto codec.id_text fresh 2 1 9 master_key start

rotation_runs : rotation ≡ ok (first_of rotation, next_of rotation)
unfolding rotate_assignment_credential stage_rotation stage_credential create_user_credential seal
    find exists update credential_protocol_for_adapter bump_node_snapshot insert_snapshot
    mark_assignment_pending
rotation_runs = refl

reveal-Issued_example :
    reveal_assignment_credential crypto codec.id_text fresh 2 1 master_key (next_of rotation)
    ≡ ok (first_of rotation)
reveal-Issued_example =
    reveal-Issued crypto crypto-IsLawful codec.id_text fresh 2 1 master_key start (next_of rotation)
      (first_of rotation) (by_rotation 9 rotation_runs)

-- The new credential waits for the Agent, so that there is no second rotation.
rotation_waits :
    rotate_assignment_credential crypto codec.id_text fresh 2 1 10 master_key (next_of rotation)
    ≡ err pending
unfolding rotate_assignment_credential stage_rotation stage_credential create_user_credential seal
    find exists update credential_protocol_for_adapter bump_node_snapshot insert_snapshot
    mark_assignment_pending
rotation_waits = refl
