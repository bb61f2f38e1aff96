-- ===== src/Store/Online/Tallied.antt =====
-- What the loop of `RecordOnlineSnapshot` of internal/store/traffic.go adds up and writes.
use mathlib.Core.List.{reverse_aux}
use poly_fleet.Base.{
  ℕ, ◌+◌, ◌-◌, ◌≡◌, refl, ap, ◌∙◌, subst, Bool, true, false, not, some, List, [], ◌∷◌, map, inl,
  inr, ltb, if◌then◌else◌, max_int64, Result, ok, err, internal, >>=-eq-ok, find, exists, delete,
  select, count, total, Bool-cases, eq_refl, arith,
}
use poly_fleet.Schema.{Db, Assignment, OnlineUser, OnlineSnapshot, is_assignment}
use poly_fleet.Store.Online.{
  OnlineReport, Tally, is_snapshot, insert_online, tally_user, tally_users, upsert_snapshot,
}

abbrev pub reported_connections : List OnlineReport → ℕ
reported_connections us = total (λ (u : OnlineReport). u.connections) us

-- The reported user is assigned to the node.
abbrev pub is_assigned : ℕ → List Assignment → OnlineReport → Bool
is_assigned node assignments u = exists (is_assignment node u.user_id) assignments

abbrev pub online_row : ℕ → ℕ → List Assignment → OnlineReport → OnlineUser
online_row node sampled_at assignments u = record {
  node_id = node;
  user_id = u.user_id;
  connections = u.connections;
  known_assignment = is_assigned node assignments u;
  sampled_at = sampled_at;
}

pub find-upsert :
    (row : OnlineSnapshot) (ss : List OnlineSnapshot)
    → find (is_snapshot row.node_id) (upsert_snapshot row ss) ≡ some row
unfolding find upsert_snapshot
find-upsert row [] = ground (arith, eq_refl row.node_id)
find-upsert row (s ∷ ss) = ground (arith, eq_refl row.node_id, find-upsert row ss)

pub delete-eq-select :
    (p : OnlineUser → Bool) (us : List OnlineUser) → delete p us ≡ select (λ u. not (p u)) us
unfolding delete select
delete-eq-select p [] = refl
delete-eq-select p (u ∷ us) = ground (arith, delete-eq-select p us)

-- Only the table of the users online changes, by one row.
record Inserts (row : OnlineUser) (db db' : Db) : Type 0 where
  rows : db'.online_users ≡ row ∷ db.online_users
  assignments : db'.assignments ≡ db.assignments
  nodes : db'.nodes ≡ db.nodes
  snapshots : db'.online_snapshots ≡ db.online_snapshots

past_key : (b : Bool) (x : Db) {db : Db} → (if b then err internal else ok x) ≡ ok db → x ≡ db
past_key b x h = ground arith

insert_online-Inserts :
    (row : OnlineUser) (db db' : Db) → insert_online row db ≡ ok db' → Inserts row db db'
unfolding insert_online
insert_online-Inserts row db db' h =
    subst (Inserts row db) (past_key _ (record db { online_users = row ∷ db.online_users }) h)
      (record { rows = refl; assignments = refl; nodes = refl; snapshots = refl })

-- What the loop over the reported users comes to.
pub record Tallied (node sampled_at : ℕ) (us : List OnlineReport) (t t' : Tally) (db db' : Db)
    : Type 0 where
  pub rows :
      db'.online_users
      ≡ reverse_aux (map (online_row node sampled_at db.assignments) us) db.online_users
  pub connections : t'.total_connections ≡ t.total_connections + reported_connections us
  pub known : t'.known_users ≡ t.known_users + count (is_assigned node db.assignments) us
  pub unknown :
      t'.unknown_users ≡ t.unknown_users + count (λ u. not (is_assigned node db.assignments u)) us
  pub nodes : db'.nodes ≡ db.nodes
  pub snapshots : db'.online_snapshots ≡ db.online_snapshots

abbrev one_if : Bool → ℕ
one_if b = if b then 1 else 0

tally_user_counts :
    (known : Bool) (connections : ℕ) (t : Tally)
    → ((tally_user known connections t).total_connections ≡ t.total_connections + connections)
      × ((tally_user known connections t).known_users ≡ t.known_users + one_if known)
      × ((tally_user known connections t).unknown_users ≡ t.unknown_users + one_if (not known))
tally_user_counts true connections t = ground arith
tally_user_counts false connections t = ground arith

empty-Tallied :
    (node sampled_at : ℕ) (t t' : Tally) (db db' : Db)
    → ◌≡◌ {A = Result (Tally × Db)} (ok (t, db)) (ok (t', db'))
    → Tallied node sampled_at [] t t' db db'
unfolding total count
empty-Tallied node sampled_at t t' db db' h =
    let tally : t ≡ t' = ground arith in
    let same : db ≡ db' = ground arith in
    subst (λ x. Tallied node sampled_at [] t x db db') tally
      (subst (λ d. Tallied node sampled_at [] t t db d) same
        (record {
          rows = refl;
          connections = omega arith;
          known = omega arith;
          unknown = omega arith;
          nodes = refl;
          snapshots = refl;
        }))

pub tally_users-Tallied :
    (node sampled_at : ℕ) (us : List OnlineReport) (t t' : Tally) (db db' : Db)
    → tally_users node sampled_at us t db ≡ ok (t', db')
    → Tallied node sampled_at us t t' db db'
unfolding tally_users total count
tally_users-Tallied node sampled_at [] t t' db db' h = empty-Tallied node sampled_at t t' db db' h
tally_users-Tallied node sampled_at (u ∷ us) t t' db db' h =
    elim (Bool-cases (ltb (max_int64 - u.connections) t.total_connections)) [
      | inl over ↦ absurd (ground arith)
      | inr room ↦
          let known = is_assigned node db.assignments u in
          let row = online_row node sampled_at db.assignments u in
          let (db1, e, rest) =
            >>=-eq-ok (insert_online row db)
              (λ d. tally_users node sampled_at us (tally_user known u.connections t) d)
              {w = (t', db')} (ground arith) in
          let here = insert_online-Inserts row db db1 e in
          let later =
            tally_users-Tallied node sampled_at us (tally_user known u.connections t) t' db1 db'
              rest in
          let counts = tally_user_counts known u.connections t in
          let same = here.assignments in
          record {
            rows =
                later.rows
                ∙ ap (λ a. reverse_aux (map (online_row node sampled_at a) us) db1.online_users)
                    same
                ∙ ap (reverse_aux (map (online_row node sampled_at db.assignments) us)) here.rows;
            connections = omega (arith, later.connections, counts.0);
            known =
                omega (arith, later.known, ap (λ a. count (is_assigned node a) us) same, counts.1);
            unknown = omega (
              arith,
              later.unknown,
              ap (λ a. count (λ x. not (is_assigned node a x)) us) same,
              counts.2,
            );
            nodes = later.nodes ∙ here.nodes;
            snapshots = later.snapshots ∙ here.snapshots;
          }
    ]
