-- ===== src/Store/Snapshot.antt =====
-- `bumpNodeSnapshot` and `insertSnapshot` of internal/store/node.go, `markAssignmentPending` and
-- `assignmentNodeIDs` of user.go, `bumpChangedAssignmentsTx` and `addChangedAssignment` of
-- traffic.go. Of a snapshot row the version and its life are kept, not the JSON document.
use poly_fleet.Base.{
  ℕ, ◌+◌, ◌&&◌, none, some, List, [], ◌∷◌, map, ◌==◌, leb, if◌then◌else◌, Result, ok, err,
  not_found, internal, ◌>>=◌, find, exists, select, update,
}
use poly_fleet.Schema.{Db, Snapshot, AssignmentState, is_none, is_node, is_live_node, is_assignment}

-- The primary key is (node_id, version).
unfoldable pub insert_snapshot : ℕ → ℕ → ℕ → Db → Result Db
insert_snapshot node version now db =
    if exists (λ s. (s.node_id == node) && (s.version == version)) db.snapshots
    then err internal
    else ok (record db {
      snapshots =
          record { node_id = node; version = version; created_at = now; superseded_at = none }
          ∷ db.snapshots;
    })

abbrev pub supersede : ℕ → ℕ → List Snapshot → List Snapshot
supersede node now =
    update (λ s. (s.node_id == node) && is_none s.superseded_at)
      (λ s. record s { superseded_at = some now })

unfoldable pub bump_node_snapshot : ℕ → ℕ → Db → Result (ℕ × Db)
bump_node_snapshot node now db = elim (find (is_live_node node) db.nodes) [
  | none ↦ err not_found
  | some n ↦
      insert_snapshot node (n.desired_version + 1) now (record db {
        nodes =
            update (is_node node)
              (λ m. record m { desired_version = n.desired_version + 1; updated_at = now })
              db.nodes;
        snapshots = supersede node now db.snapshots;
      })
      >>= λ db'. ok (n.desired_version + 1, db')
]

unfoldable pub mark_assignment_pending : ℕ → ℕ → ℕ → ℕ → Db → Db
mark_assignment_pending user node version now db = record db {
  assignments =
      update (is_assignment node user)
        (λ a. record a {
          desired_version = version;
          state = AssignmentState.pending;
          last_error_code = [];
          last_error_message = [];
          updated_at = now;
        })
        db.assignments;
}

unfoldable pub insert_sorted : ℕ → List ℕ → List ℕ
insert_sorted k [] = k ∷ []
insert_sorted k (x ∷ xs) = if leb k x then k ∷ x ∷ xs else x ∷ insert_sorted k xs

-- `sort.Strings`, `ORDER BY`
unfoldable pub sorted : List ℕ → List ℕ
sorted [] = []
sorted (x ∷ xs) = insert_sorted x (sorted xs)

unfoldable pub assignment_node_ids : ℕ → Db → List ℕ
assignment_node_ids user db =
    sorted (map (λ a. a.node_id) (select (λ a. a.user_id == user) db.assignments))

-- `map[string]map[string]struct{}`: for each node its users, both without repetition. The order
-- stands for Go's unspecified order of iteration.
abbrev pub Changed : Type 0
Changed = List (ℕ × List ℕ)

unfoldable pub add_user : ℕ → List ℕ → List ℕ
add_user user [] = user ∷ []
add_user user (x ∷ xs) = if x == user then x ∷ xs else x ∷ add_user user xs

unfoldable pub add_changed_assignment : ℕ → ℕ → Changed → Changed
add_changed_assignment node user [] = (node, user ∷ []) ∷ []
add_changed_assignment node user ((k, users) ∷ rest) =
    if k == node
    then (k, add_user user users) ∷ rest
    else (k, users) ∷ add_changed_assignment node user rest

unfoldable pub users_of : ℕ → Changed → List ℕ
users_of node [] = []
users_of node ((k, users) ∷ rest) = if k == node then users else users_of node rest

unfoldable pub mark_users : List ℕ → ℕ → ℕ → ℕ → Db → Db
mark_users [] node version now db = db
mark_users (user ∷ users) node version now db =
    mark_users users node version now (mark_assignment_pending user node version now db)

unfoldable pub bump_nodes : List ℕ → Changed → ℕ → Db → Result Db
bump_nodes [] changed now db = ok db
bump_nodes (node ∷ nodes) changed now db = bump_node_snapshot node now db >>= λ (version, db').
    bump_nodes nodes changed now (mark_users (users_of node changed) node version now db')

unfoldable pub bump_changed_assignments : Changed → ℕ → Db → Result Db
bump_changed_assignments changed now db =
    bump_nodes (sorted (map (λ (k, users). k) changed)) changed now db
