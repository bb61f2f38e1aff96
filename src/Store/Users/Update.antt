-- ===== src/Store/Users/Update.antt =====
-- `UpdateUser`, `UpdateAssignment` and `SetAssignmentEnabled` of internal/store/user.go. The rows that
-- they return are read from the database.
use poly_fleet.Base.{
  ℕ, Bool, true, ◌&&◌, not, Option, none, some, List, [], ◌∷◌, ◌==◌, if◌then◌else◌, Result, ok, err,
  not_found, conflict, StoreError, ◌>>=◌, find, exists, update,
}
use poly_fleet.Schema.{
  Text, Db, User, Assignment, KickReason, quota_limited, user_disabled, assignment_disabled,
  is_none, is_live_node, is_assignment,
}
use poly_fleet.Store.Snapshot.{
  Changed, add_changed_assignment, assignment_node_ids, bump_changed_assignments,
  bump_node_snapshot, mark_assignment_pending,
}
use poly_fleet.Store.Kick.{request_kick}
use poly_fleet.Store.Traffic.Account.{quota_state_of}
use poly_fleet.Store.Traffic.Quota.{QuotaRow, effective_quota_states}
use poly_fleet.Store.Users.Credential.{is_live_user, is_managed}
use poly_fleet.Store.Users.Assign.{expiry_enforced_value}

pub record UpdateUser : Type 0 where
  pub username : Text
  pub display_name : Text
  pub notes : Text
  pub enabled : Bool
  pub expires_at : Option ℕ
  pub traffic_limit_bytes : ℕ
  pub now : ℕ

-- The state of a key in a map, false where there is none.
abbrev pub is_limited_in : ℕ → ℕ → List QuotaRow → Bool
is_limited_in node user rows =
    exists (λ r. (r.node_id == node) && ((r.user_id == user) && r.is_limited)) rows

-- The limit of the user or of the assignment begins to hold.
abbrev pub begins : ℕ → ℕ → List QuotaRow → List QuotaRow → Bool
begins node user before after =
    not (is_limited_in node user before) && is_limited_in node user after

-- An instant that has been marked stays, while the user is expired.
abbrev pub kept_enforcement : Option ℕ → Option ℕ → Option ℕ
kept_enforcement none current = none
kept_enforcement (some value) none = some value
kept_enforcement (some value) (some current) = some current

abbrev pub updated_user : UpdateUser → User → User
updated_user input u = record u {
  username = input.username;
  display_name = input.display_name;
  notes = input.notes;
  enabled = input.enabled;
  expires_at = input.expires_at;
  traffic_limit_bytes = input.traffic_limit_bytes;
  quota_state = quota_state_of input.traffic_limit_bytes u.traffic_used_bytes;
  expiry_enforced_at =
      kept_enforcement (expiry_enforced_value input.expires_at input.now) u.expiry_enforced_at;
  updated_at = input.now;
}

abbrev has_expired : UpdateUser → Bool
has_expired input = not (is_none (expiry_enforced_value input.expires_at input.now))

-- Why the user is kicked from a node, if at all.
unfoldable pub update_reason :
    UpdateUser → User → ℕ → List QuotaRow → List QuotaRow → Option KickReason
update_reason input u node before after =
    if u.enabled && not input.enabled
    then some user_disabled
    else if has_expired input && is_none u.expiry_enforced_at
    then some KickReason.expired
    else if begins node u.id before after
    then some quota_limited
    else none

abbrev pub kick_for : Option KickReason → ℕ → ℕ → ℕ → Db → Result Db
kick_for none node user now db = ok db
kick_for (some reason) node user now db = request_kick node user reason now db

-- The loop over the nodes of the user.
unfoldable pub update_nodes :
    UpdateUser
    → User
    → List ℕ
    → List QuotaRow
    → List QuotaRow
    → Changed
    → Db
    → Result (Changed × Db)
update_nodes input u [] before after changed db = ok (changed, db)
update_nodes input u (node ∷ nodes) before after changed db =
    kick_for (update_reason input u node before after) node u.id input.now db >>= λ kicked.
    update_nodes input u nodes before after (add_changed_assignment node u.id changed) kicked

unfoldable pub update_found : UpdateUser → User → Db → Result Db
update_found input u db =
    let before = effective_quota_states (u.id ∷ []) [] db in
    let updated : Db = record db {
      users = update (is_live_user u.id) (updated_user input) db.users;
    } in
    let after = effective_quota_states (u.id ∷ []) [] updated in
    update_nodes input u (assignment_node_ids u.id db) before after [] updated >>= λ (changed, db').
    bump_changed_assignments changed input.now db'

-- `same_name` is the comparison of names without case; the names of users that are not archived
-- differ.
unfoldable pub update_user : (Text → Text → Bool) → ℕ → UpdateUser → Db → Result Db
update_user same_name user input db = elim (find (is_live_user user) db.users) [
  | none ↦ err not_found
  | some u ↦
      if exists
        (λ (v : User).
          not (v.id == u.id) && (is_none v.archived_at && same_name v.username input.username))
        db.users
      then err conflict
      else update_found input u db
]

abbrev pub updated_assignment : Bool → ℕ → ℕ → Assignment → Assignment
updated_assignment enabled limit now a = record a {
  enabled = enabled;
  traffic_limit_bytes = limit;
  quota_state = quota_state_of limit a.traffic_used_bytes;
  updated_at = now;
}

unfoldable pub assignment_reason :
    Bool → Assignment → List QuotaRow → List QuotaRow → Option KickReason
assignment_reason enabled a before after =
    if a.enabled && not enabled
    then some assignment_disabled
    else if begins a.node_id a.user_id before after
    then some quota_limited
    else none

unfoldable pub update_assignment_found : ℕ → ℕ → Bool → ℕ → ℕ → Db → Assignment → Result Db
update_assignment_found user node enabled limit now db a =
    let before = effective_quota_states (user ∷ []) [] db in
    let updated : Db = record db {
      assignments =
          update (is_assignment node user) (updated_assignment enabled limit now) db.assignments;
    } in
    let after = effective_quota_states (user ∷ []) [] updated in
    kick_for (assignment_reason enabled a before after) node user now updated >>= λ kicked.
    bump_node_snapshot node now kicked >>= λ (version, bumped).
    ok (mark_assignment_pending user node version now bumped)

-- The joined row of the assignment and its node.
abbrev pub update_assignment_joined :
    ℕ → ℕ → Bool → ℕ → ℕ → Db → Option Assignment → Bool → Result Db
update_assignment_joined user node enabled limit now db (some a) true =
    if is_managed a.management_mode
    then update_assignment_found user node enabled limit now db a
    else err StoreError.read_only
update_assignment_joined user node enabled limit now db _ _ = err not_found

unfoldable pub update_assignment : ℕ → ℕ → Bool → ℕ → ℕ → Db → Result Db
update_assignment user node enabled limit now db =
    update_assignment_joined user node enabled limit now db
      (find (is_assignment node user) db.assignments) (exists (is_live_node node) db.nodes)

-- The limit is that of the assignment.
unfoldable pub set_assignment_enabled : ℕ → ℕ → Bool → ℕ → Db → Result Db
set_assignment_enabled user node enabled now db =
    if exists (is_live_user user) db.users
    then (elim (find (is_assignment node user) db.assignments) [
      | none ↦ err not_found
      | some a ↦ update_assignment user node enabled a.traffic_limit_bytes now db
    ])
    else err not_found
