-- ===== src/Store/Online.antt =====
-- `RecordOnlineSnapshot` of internal/store/traffic.go. Connections are non-negative, as the handler
-- demands; `math.MaxInt` is that of 64 bits.
pub mod Tallied
pub mod Shows
mod Examples
use poly_fleet.Base.{
  ℕ, suc, ◌+◌, ◌-◌, ◌≤◌, ◌≡◌, refl, subst, Bool, true, false, ◌&&◌, not, Option, none, some, List,
  [], ◌∷◌, inl, inr, ◌==◌, leb, ltb, if◌then◌else◌, max_int64, Result, ok, err, conflict, internal,
  ◌>>=◌, >>=-eq-ok, find, exists, update, delete, total, length, Option-cases, Bool-cases, eq_refl,
  arith,
}
use poly_fleet.Schema.{Db, OnlineUser, OnlineSnapshot, AgentIdentity, is_node, is_assignment}

pub record OnlineReport : Type 0 where
  pub user_id : ℕ
  pub connections : ℕ

-- `sampled_at` in Unix milliseconds
pub record OnlineSnapshotRequest : Type 0 where
  pub snapshot_id : ℕ
  pub installation_id : ℕ
  pub sampled_at : ℕ
  pub users : List OnlineReport

-- The totals of the loop.
pub record Tally : Type 0 where
  pub total_connections : ℕ
  pub known_users : ℕ
  pub unknown_users : ℕ

abbrev pub is_snapshot : ℕ → OnlineSnapshot → Bool
is_snapshot node s = s.node_id == node

abbrev pub is_online : ℕ → OnlineUser → Bool
is_online node u = u.node_id == node

-- INSERT INTO node_online_users, with the primary key (node_id, user_id)
unfoldable pub insert_online : OnlineUser → Db → Result Db
insert_online row db =
    if exists (λ u. (u.node_id == row.node_id) && (u.user_id == row.user_id)) db.online_users
    then err internal
    else ok (record db { online_users = row ∷ db.online_users })

abbrev pub tally_user : Bool → ℕ → Tally → Tally
tally_user true connections t = record t {
  total_connections = t.total_connections + connections;
  known_users = t.known_users + 1;
}
tally_user false connections t = record t {
  total_connections = t.total_connections + connections;
  unknown_users = t.unknown_users + 1;
}

unfoldable pub tally_users : ℕ → ℕ → List OnlineReport → Tally → Db → Result (Tally × Db)
tally_users node sampled_at [] t db = ok (t, db)
tally_users node sampled_at (u ∷ us) t db =
    let known = exists (is_assignment node u.user_id) db.assignments in
    let rest =
      insert_online
        (record {
          node_id = node;
          user_id = u.user_id;
          connections = u.connections;
          known_assignment = known;
          sampled_at = sampled_at;
        })
        db
      >>= λ db'. tally_users node sampled_at us (tally_user known u.connections t) db' in
    if ltb (max_int64 - u.connections) t.total_connections then err internal else rest

-- INSERT ... ON CONFLICT(node_id) DO UPDATE
unfoldable pub upsert_snapshot : OnlineSnapshot → List OnlineSnapshot → List OnlineSnapshot
upsert_snapshot row [] = row ∷ []
upsert_snapshot row (s ∷ ss) =
    let rest = upsert_snapshot row ss in if s.node_id == row.node_id then row ∷ ss else s ∷ rest

abbrev pub snapshot_row : AgentIdentity → OnlineSnapshotRequest → ℕ → Tally → OnlineSnapshot
snapshot_row identity r now t = record {
  node_id = identity.node_id;
  agent_installation_id = identity.installation_id;
  snapshot_id = r.snapshot_id;
  sampled_at = r.sampled_at;
  received_at = now;
  total_connections = t.total_connections;
  known_users = t.known_users;
  unknown_users = t.unknown_users;
}

abbrev pub no_tally : Tally
no_tally = record { total_connections = 0; known_users = 0; unknown_users = 0 }

-- From the deletion of the old rows on.
unfoldable pub replace_online : AgentIdentity → OnlineSnapshotRequest → ℕ → Db → Result Db
replace_online identity r now db =
    tally_users identity.node_id r.sampled_at r.users no_tally
      (record db { online_users = delete (is_online identity.node_id) db.online_users })
    >>= λ (t, db'). ok (record db' {
      online_snapshots = upsert_snapshot (snapshot_row identity r now t) db'.online_snapshots;
      nodes =
          update (is_node identity.node_id)
            (λ n. record n {
              online_users = t.known_users;
              online_connections = t.total_connections;
              online_unknown_users = t.unknown_users;
              online_sampled_at = some r.sampled_at;
              online_last_report_at = some now;
              updated_at = now;
            })
            db'.nodes;
    })

abbrev pub is_stale : ℕ → Option OnlineSnapshot → Bool
is_stale sampled_at none = false
is_stale sampled_at (some s) = leb sampled_at s.sampled_at

-- The answer `false` comes with a rollback.
unfoldable pub record_online_snapshot :
    AgentIdentity → OnlineSnapshotRequest → ℕ → Db → Result (Bool × Db)
record_online_snapshot identity r now db =
    if not (r.installation_id == identity.installation_id)
    then err conflict
    else if is_stale r.sampled_at (find (is_snapshot identity.node_id) db.online_snapshots)
    then ok (false, db)
    else (replace_online identity r now db >>= λ db'. ok (true, db'))
