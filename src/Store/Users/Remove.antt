-- ===== src/Store/Users/Remove.antt =====
-- `UnassignUser` and `ArchiveUser` of internal/store/user.go.
use poly_fleet.Base.{
  ℕ, Bool, true, false, ◌&&◌, none, some, List, [], ◌∷◌, ◌==◌, if◌then◌else◌, Result, ok, err,
  not_found, ◌>>=◌, find, exists, update, delete,
}
use poly_fleet.Schema.{
  Db, UserCredential, CredentialState, user_archived, assignment_removed, is_assignment,
}
use poly_fleet.Store.Snapshot.{bump_node_snapshot, mark_assignment_pending, assignment_node_ids}
use poly_fleet.Store.Kick.{request_kick}
use poly_fleet.Store.Users.Credential.{is_live_user}

abbrev pub revoke : ℕ → UserCredential → UserCredential
revoke now c = record c { state = CredentialState.revoked; revoked_at = some now }

-- The deletion of the assignment, and the end of its credential.
unfoldable pub drop_assignment : ℕ → ℕ → ℕ → ℕ → Db → Db
drop_assignment user node credential now db = record db {
  assignments = delete (is_assignment node user) db.assignments;
  credentials = update (λ c. c.id == credential) (revoke now) db.credentials;
}

unfoldable pub unassign_user : ℕ → ℕ → ℕ → Db → Result Db
unassign_user user node now db = elim (find (is_assignment node user) db.assignments) [
  | none ↦ err not_found
  | some a ↦
      request_kick node user assignment_removed now
        (drop_assignment user node a.desired_credential_id now db)
      >>= λ kicked. bump_node_snapshot node now kicked >>= λ (version, bumped). ok bumped
]

-- `state IN ('staged', 'applied')`
abbrev pub is_usable : CredentialState → Bool
is_usable CredentialState.staged = true
is_usable CredentialState.applied = true
is_usable _ = false

unfoldable pub archive_row : ℕ → ℕ → Db → Db
archive_row user now db = record db {
  users =
      update (is_live_user user)
        (λ u. record u { enabled = false; archived_at = some now; updated_at = now }) db.users;
  credentials = update (λ c. (c.user_id == user) && is_usable c.state) (revoke now) db.credentials;
}

-- The loop over the nodes of the user.
unfoldable pub archive_nodes : ℕ → List ℕ → ℕ → Db → Result Db
archive_nodes user [] now db = ok db
archive_nodes user (node ∷ nodes) now db = request_kick node user user_archived now db >>= λ kicked.
    bump_node_snapshot node now kicked >>= λ (version, bumped).
    archive_nodes user nodes now (mark_assignment_pending user node version now bumped)

unfoldable pub archive_user : ℕ → ℕ → Db → Result Db
archive_user user now db =
    if exists (is_live_user user) db.users
    then archive_nodes user (assignment_node_ids user db) now (archive_row user now db)
    else err not_found
