-- ===== src/Store/Online/Shows.antt =====
-- What `RecordOnlineSnapshot` of internal/store/traffic.go leaves in the tables.
use mathlib.Core.List
use mathlib.Core.List.{reverse, reverse_aux}
use poly_fleet.Base.{
  ℕ, ◌≡◌, refl, ap, ◌∙◌, subst, Bool, true, not, some, ◌++◌, map, inl, inr, ◌==◌, Result, ok,
  >>=-eq-ok, find, delete, select, count, All, All-update_where, Bool-cases, arith,
}
use poly_fleet.Schema.{Db, Node, OnlineSnapshot, AgentIdentity, is_node}
use poly_fleet.Store.Online.{
  OnlineSnapshotRequest, is_snapshot, is_online, tally_users, snapshot_row, no_tally,
  replace_online, is_stale, record_online_snapshot,
}
use poly_fleet.Store.Online.Tallied.{
  reported_connections, is_assigned, online_row, find-upsert, delete-eq-select, tally_users-Tallied,
}

-- The row of a snapshot, with its numbers of connections, of known and of unknown users.
abbrev pub shown_row : AgentIdentity → OnlineSnapshotRequest → ℕ → ℕ → ℕ → ℕ → OnlineSnapshot
shown_row identity r now connections known unknown = record {
  node_id = identity.node_id;
  agent_installation_id = identity.installation_id;
  snapshot_id = r.snapshot_id;
  sampled_at = r.sampled_at;
  received_at = now;
  total_connections = connections;
  known_users = known;
  unknown_users = unknown;
}

-- What an accepted snapshot makes of the tables `db`.
pub record Shows (identity : AgentIdentity) (r : OnlineSnapshotRequest) (now : ℕ) (db db' : Db)
    : Type 0 where
  -- The node's rows are those of the report, the last one first; the rows of other nodes follow.
  pub rows :
      db'.online_users
      ≡ reverse (map (online_row identity.node_id r.sampled_at db.assignments) r.users)
        ++ select (λ u. not (is_online identity.node_id u)) db.online_users
  pub snapshot :
      find (is_snapshot identity.node_id) db'.online_snapshots
      ≡ some (
          shown_row identity r now
            (reported_connections r.users)
            (count (is_assigned identity.node_id db.assignments) r.users)
            (count (λ u. not (is_assigned identity.node_id db.assignments u)) r.users))
  pub nodes :
      All
        (λ (n : Node).
          n.id ≡ identity.node_id
          → (n.online_users ≡ count (is_assigned identity.node_id db.assignments) r.users)
            × (n.online_unknown_users
                ≡ count (λ u. not (is_assigned identity.node_id db.assignments u)) r.users)
            × (n.online_connections ≡ reported_connections r.users)
            × (n.online_sampled_at ≡ some r.sampled_at))
        db'.nodes

replace_online-Shows :
    (identity : AgentIdentity) (r : OnlineSnapshotRequest) (now : ℕ) (db db' : Db)
    → replace_online identity r now db ≡ ok db'
    → Shows identity r now db db'
unfolding replace_online
replace_online-Shows identity r now db db' h =
    let node = identity.node_id in
    let cleared : Db = record db { online_users = delete (is_online node) db.online_users } in
    let ((t, db1), e, rest) =
      >>=-eq-ok (tally_users node r.sampled_at r.users no_tally cleared) _ h in
    let tallied = tally_users-Tallied node r.sampled_at r.users no_tally t cleared db1 e in
    let known : t.known_users ≡ count (is_assigned node db.assignments) r.users =
      omega (arith, tallied.known) in
    let unknown : t.unknown_users ≡ count (λ u. not (is_assigned node db.assignments u)) r.users =
      omega (arith, tallied.unknown) in
    let connections : t.total_connections ≡ reported_connections r.users =
      omega (arith, tallied.connections) in
    subst (Shows identity r now db) (only rest) (record {
      rows =
          tallied.rows
          ∙ ap (reverse_aux (map (online_row node r.sampled_at db.assignments) r.users))
              (delete-eq-select (is_online node) db.online_users)
          ∙ List.reverse_aux-eq (map (online_row node r.sampled_at db.assignments) r.users)
              (select (λ u. not (is_online node u)) db.online_users);
      snapshot =
          find-upsert (snapshot_row identity r now t) db1.online_snapshots
          ∙ ap (λ k. some (shown_row identity r now k t.known_users t.unknown_users)) connections
          ∙ ap
              (λ k.
                some (shown_row identity r now (reported_connections r.users) k t.unknown_users))
              known
          ∙ ap
              (λ k. some (
                shown_row identity r now (reported_connections r.users)
                  (count (is_assigned node db.assignments) r.users) k))
              unknown;
      nodes =
          All-update_where _ (is_node node) _ (λ n hit on. (known, unknown, connections, refl))
            (λ n miss on. absurd (ground arith)) db1.nodes;
    })
  where
    only : {x y : Db} → ◌≡◌ {A = Result Db} (ok x) (ok y) → x ≡ y
    only h = ground arith

accepted-Shows :
    (identity : AgentIdentity) (r : OnlineSnapshotRequest) (now : ℕ) (db db' : Db)
    → record_online_snapshot identity r now db ≡ ok (true, db')
    → Shows identity r now db db' × (r.installation_id ≡ identity.installation_id)
unfolding record_online_snapshot
accepted-Shows identity r now db db' h =
    elim (Bool-cases (r.installation_id == identity.installation_id)) [
      | inr other ↦ absurd (ground arith)
      | inl own ↦
          elim (Bool-cases
            (is_stale r.sampled_at (find (is_snapshot identity.node_id) db.online_snapshots))) [
              | inl stale ↦ absurd (ground arith)
              | inr fresh ↦
                  let (db1, e, done) =
                    >>=-eq-ok {W = Bool × Db} (replace_online identity r now db) (λ d. ok (true, d))
                      {w = (true, db')} (ground arith) in
                  let same : db1 ≡ db' = ground arith in
                  (
                    subst (Shows identity r now db) same
                        (replace_online-Shows identity r now db db1 e),
                    ground arith,
                  )
            ]
    ]

-- An accepted snapshot of the users online replaces those that the table held for the node: its rows
-- are then those of the report, each with the reported user and connections, and known if the user is
-- assigned to the node, while the rows of other nodes stay; the stored snapshot and the node hold the
-- numbers of the reported users who are assigned and who are not, and the sum of the connections.
pub online_replaces :
    (identity : AgentIdentity) (r : OnlineSnapshotRequest) (now : ℕ) (db db' : Db)
    → record_online_snapshot identity r now db ≡ ok (true, db')
    → Shows identity r now db db'
online_replaces identity r now db db' h = (accepted-Shows identity r now db db' h).0
