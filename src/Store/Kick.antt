-- ===== src/Store/Kick.antt =====
-- Kick targets: `requestKickTx`, `RequestUserKick` and `EnforceExpiredUsers` of
-- internal/store/traffic.go. The reasons are enumerated; all are shorter than 64 bytes.
pub mod Raised
mod Examples
use poly_fleet.Base.{
  ℕ, ◌+◌, Bool, true, false, ◌&&◌, not, Option, none, some, List, [], ◌∷◌, ◌==◌, leb, ltb,
  if◌then◌else◌, Result, ok, err, not_found, ◌>>=◌, find, exists, select, update, length, take, map,
}
use poly_fleet.Schema.{
  Db, User, Node, KickTarget, KickReason, manual, is_none, is_live_node, is_user, takes_kicks,
}
use poly_fleet.Store.Snapshot.{
  Changed, add_changed_assignment, assignment_node_ids, bump_changed_assignments,
}

abbrev pub is_kick : ℕ → ℕ → KickTarget → Bool
is_kick node user k = (k.node_id == node) && (k.user_id == user)

-- INSERT ... ON CONFLICT(node_id, user_id) DO UPDATE
unfoldable pub upsert_kick : ℕ → ℕ → KickReason → ℕ → Db → Db
upsert_kick node user reason now db =
    if exists (is_kick node user) db.kicks
    then record db {
      kicks =
          update (is_kick node user)
            (λ k. record k { generation = k.generation + 1; reason = reason; requested_at = now })
            db.kicks;
    }
    else record db {
      kicks =
          record {
            node_id = node;
            user_id = user;
            generation = 1;
            reason = reason;
            requested_at = now;
          }
          ∷ db.kicks;
    }

unfoldable pub request_kick : ℕ → ℕ → KickReason → ℕ → Db → Result Db
request_kick node user reason now db = elim (find (is_live_node node) db.nodes) [
  | none ↦ err not_found
  | some n ↦ if takes_kicks n.adapter_type then ok (upsert_kick node user reason now db) else ok db
]

-- The loop over nodes that `RequestUserKick` and `EnforceExpiredUsers` share.
unfoldable pub kick_nodes : List ℕ → ℕ → KickReason → ℕ → Changed → Db → Result (Changed × Db)
kick_nodes [] user reason now changed db = ok (changed, db)
kick_nodes (node ∷ nodes) user reason now changed db =
    request_kick node user reason now db >>= λ db'.
    kick_nodes nodes user reason now (add_changed_assignment node user changed) db'

-- The node of an assignment takes kicks and is not archived.
abbrev pub kickable_in : List Node → ℕ → Bool
kickable_in nodes node = elim (find (is_live_node node) nodes) [
  | none ↦ false
  | some n ↦ takes_kicks n.adapter_type
]

abbrev pub kickable : Db → ℕ → Bool
kickable db = kickable_in db.nodes

-- The node identifier 0 (the empty text) asks for all nodes of the user.
unfoldable pub kick_targets : ℕ → ℕ → Db → List ℕ
kick_targets user node db =
    select (λ k. kickable db k && (if node == 0 then true else k == node))
      (assignment_node_ids user db)

-- The kicks of the targets that have been found.
unfoldable pub kick_all : List ℕ → ℕ → ℕ → Db → Result (ℕ × Db)
kick_all targets user now db = kick_nodes targets user manual now [] db >>= λ (changed, db').
    bump_changed_assignments changed now db' >>= λ db''. ok (length targets, db'')

unfoldable pub request_user_kick : ℕ → ℕ → ℕ → Db → Result (ℕ × Db)
request_user_kick user node now db =
    if not (exists (λ (u : User). is_user user u && is_none u.archived_at) db.users)
    then err not_found
    else if length (kick_targets user node db) == 0
    then err not_found
    else kick_all (kick_targets user node db) user now db

abbrev expired_by : ℕ → Option ℕ → Bool
expired_by now none = false
expired_by now (some t) = leb t now

-- The condition of the query, and that of the update.
abbrev pub is_expired : ℕ → User → Bool
is_expired now u =
    is_none u.archived_at
    && (u.enabled && (expired_by now u.expires_at && is_none u.expiry_enforced_at))

abbrev pub unenforced : ℕ → ℕ → User → Bool
unenforced user now u =
    is_user user u && (is_none u.expiry_enforced_at && expired_by now u.expires_at)

-- NULL sorts first.
abbrev expires_le : Option ℕ → Option ℕ → Bool
expires_le (some s) (some t) = leb s t
expires_le none _ = true
expires_le (some s) none = false

unfoldable pub insert_by_expiry : User → List User → List User
insert_by_expiry u [] = u ∷ []
insert_by_expiry u (v ∷ vs) =
    if expires_le u.expires_at v.expires_at then u ∷ v ∷ vs else v ∷ insert_by_expiry u vs

unfoldable pub by_expiry : List User → List User
by_expiry [] = []
by_expiry (u ∷ us) = insert_by_expiry u (by_expiry us)

-- The loop over the expired users: it counts those that are marked and collects their nodes.
unfoldable pub enforce_users : List ℕ → ℕ → ℕ → Changed → Db → Result (ℕ × Changed × Db)
enforce_users [] now enforced changed db = ok (enforced, changed, db)
enforce_users (user ∷ users) now enforced changed db =
    let skipped = enforce_users users now enforced changed db in
    if not (exists (unenforced user now) db.users)
    then skipped
    else (let db' = record db {
      users =
          update (unenforced user now)
            (λ u. record u { expiry_enforced_at = some now; updated_at = now }) db.users;
    } in
        kick_nodes (assignment_node_ids user db') user KickReason.expired now changed db'
        >>= λ (changed', db''). enforce_users users now (enforced + 1) changed' db'')

unfoldable pub enforce_expired_users : ℕ → ℕ → Db → Result (ℕ × Db)
enforce_expired_users now limit db =
    let limit' = if ltb limit 1 then 100 else limit in
    let users = map (λ u. u.id) (take limit' (by_expiry (select (is_expired now) db.users))) in
    if length users == 0
    then ok (0, db)
    else enforce_users users now 0 [] db >>= λ (enforced, changed, db').
        bump_changed_assignments changed now db' >>= λ db''. ok (enforced, db'')
