-- ===== src/Store/Frame.antt =====
-- What the bookkeeping of kicks and snapshots leaves alone: users, batches, and the traffic counters
-- of nodes and assignments.
use poly_fleet.Base.{
  ℕ, ◌+◌, update, >>=-eq-ok, ◌≡◌, refl, ◌∙◌, Option, List, [], ◌∷◌, map, inl, inr, ok, find,
  map-update, Option-cases, arith,
}
use poly_fleet.Schema.{
  Db, Snapshot, Node, Assignment, QuotaState, KickReason, is_live_node, is_node, is_assignment,
}
use poly_fleet.Store.Snapshot.{
  supersede, insert_snapshot, bump_node_snapshot, mark_assignment_pending, mark_users, bump_nodes,
  users_of, bump_changed_assignments, Changed,
}
use poly_fleet.Store.Kick.{upsert_kick, request_kick}

pub record AssignmentView : Type 0 where
  pub node_id : ℕ
  pub user_id : ℕ
  pub upload_bytes : ℕ
  pub download_bytes : ℕ
  pub used_bytes : ℕ
  pub limit_bytes : ℕ
  pub quota_state : QuotaState

abbrev pub assignment_view : Assignment → AssignmentView
assignment_view a = record {
  node_id = a.node_id;
  user_id = a.user_id;
  upload_bytes = a.traffic_upload_bytes;
  download_bytes = a.traffic_download_bytes;
  used_bytes = a.traffic_used_bytes;
  limit_bytes = a.traffic_limit_bytes;
  quota_state = a.quota_state;
}

pub record NodeView : Type 0 where
  pub id : ℕ
  pub upload_bytes : ℕ
  pub download_bytes : ℕ
  pub unattributed_bytes : ℕ
  pub cycle_started_at : Option ℕ
  pub cycle_upload_bytes : ℕ
  pub cycle_download_bytes : ℕ
  pub calibration_bytes : Option ℕ
  pub calibration_proxy_bytes : Option ℕ

abbrev pub node_view : Node → NodeView
node_view n = record {
  id = n.id;
  upload_bytes = n.traffic_upload_bytes;
  download_bytes = n.traffic_download_bytes;
  unattributed_bytes = n.traffic_unattributed_bytes;
  cycle_started_at = n.traffic_cycle_started_at;
  cycle_upload_bytes = n.traffic_cycle_upload_bytes;
  cycle_download_bytes = n.traffic_cycle_download_bytes;
  calibration_bytes = n.traffic_calibration_bytes;
  calibration_proxy_bytes = n.traffic_calibration_proxy_bytes;
}

pub record Frame (db db' : Db) : Type 0 where
  pub users : db'.users ≡ db.users
  pub batches : db'.batches ≡ db.batches
  pub assignments : map assignment_view db'.assignments ≡ map assignment_view db.assignments
  pub nodes : map node_view db'.nodes ≡ map node_view db.nodes

pub Frame-refl : (db : Db) → Frame db db
Frame-refl db = record { users = refl; batches = refl; assignments = refl; nodes = refl }

pub Frame-trans : {a b c : Db} → Frame a b → Frame b c → Frame a c
Frame-trans f g = record {
  users = g.users ∙ f.users;
  batches = g.batches ∙ f.batches;
  assignments = g.assignments ∙ f.assignments;
  nodes = g.nodes ∙ f.nodes;
}

upsert_kick-Frame :
    (node user : ℕ) (reason : KickReason) (now : ℕ) (db : Db)
    → Frame db (upsert_kick node user reason now db)
unfolding upsert_kick
upsert_kick-Frame node user reason now db = ground arith

pub request_kick-Frame :
    (node user : ℕ) (reason : KickReason) (now : ℕ) (db db' : Db)
    → request_kick node user reason now db ≡ ok db'
    → Frame db db'
unfolding request_kick
request_kick-Frame node user reason now db db' h =
    ground (arith, upsert_kick-Frame node user reason now db, Frame-refl db)

insert_snapshot-Frame :
    (node version now : ℕ) (db db' : Db)
    → insert_snapshot node version now db ≡ ok db'
    → Frame db db'
unfolding insert_snapshot
insert_snapshot-Frame node version now db db' h = ground (arith, Frame-refl db)

bumped-Frame :
    (node version now : ℕ) (snapshots : List Snapshot) (db : Db)
    → Frame db (record db {
      nodes =
          update
            (is_node node)
            (λ m. record m { desired_version = version; updated_at = now })
            db.nodes;
      snapshots = snapshots;
    })
bumped-Frame node version now snapshots db = record {
  users = refl;
  batches = refl;
  assignments = refl;
  nodes = map-update node_view (is_node node) _ (λ m. refl) db.nodes;
}

pub bump_node_snapshot-Frame :
    (node now : ℕ) (db db' : Db) (version : ℕ)
    → bump_node_snapshot node now db ≡ ok (version, db')
    → Frame db db'
unfolding bump_node_snapshot
bump_node_snapshot-Frame node now db db' version h =
    elim (Option-cases (find (is_live_node node) db.nodes)) [
      | inl e ↦ absurd (ground arith)
      | inr (n, e) ↦
          let (db1, inserted, same) =
            >>=-eq-ok (insert_snapshot node (n.desired_version + 1) now _) _
              (rw (e, bump_node_snapshot) at h) in
          Frame-trans
            (bumped-Frame node (n.desired_version + 1) now (supersede node now db.snapshots) db)
            (insert_snapshot-Frame node (n.desired_version + 1) now _ db' (ground arith))
    ]

mark_assignment_pending-Frame :
    (user node version now : ℕ) (db : Db)
    → Frame db (mark_assignment_pending user node version now db)
unfolding mark_assignment_pending
mark_assignment_pending-Frame user node version now db = record {
  users = refl;
  batches = refl;
  assignments = map-update assignment_view (is_assignment node user) _ (λ a. refl) db.assignments;
  nodes = refl;
}

mark_users-Frame :
    (users : List ℕ) (node version now : ℕ) (db : Db)
    → Frame db (mark_users users node version now db)
unfolding mark_users
mark_users-Frame [] node version now db = Frame-refl db
mark_users-Frame (user ∷ users) node version now db =
    Frame-trans (mark_assignment_pending-Frame user node version now db)
      (mark_users-Frame users node version now _)

bump_nodes-Frame :
    (nodes : List ℕ) (changed : Changed) (now : ℕ) (db db' : Db)
    → bump_nodes nodes changed now db ≡ ok db'
    → Frame db db'
unfolding bump_nodes
bump_nodes-Frame [] changed now db db' h = ground (arith, Frame-refl db)
bump_nodes-Frame (node ∷ nodes) changed now db db' h =
    let ((version, bumped), e, rest) = >>=-eq-ok (bump_node_snapshot node now db) _ h in
    Frame-trans (bump_node_snapshot-Frame node now db bumped version e) (
      Frame-trans (mark_users-Frame (users_of node changed) node version now bumped)
        (bump_nodes-Frame nodes changed now _ db' rest))

pub bump_changed_assignments-Frame :
    (changed : Changed) (now : ℕ) (db db' : Db)
    → bump_changed_assignments changed now db ≡ ok db'
    → Frame db db'
unfolding bump_changed_assignments
bump_changed_assignments-Frame changed now db db' h = bump_nodes-Frame _ changed now db db' h
