-- ===== src/Store/Traffic/Balance.antt =====
-- The counters of users and assignments stay consistent under `IngestTrafficBatch`.
use poly_fleet.Base.{
  ℕ, ◌+◌, ◌≤◌, ◌≡◌, subst, sym, refl, some, List, [], ◌∷◌, inl, inr, max_int64, ok, find, All,
  All-views, All-update_found, Option-cases, arith, find-All, ◌-◌,
}
use poly_fleet.Calendar.{Time, unix_milli}
use poly_fleet.Schema.{
  Db, User, Assignment, QuotaState, Disposition, AgentIdentity, is_user, is_assignment,
}
use poly_fleet.Store.Frame.{Frame, AssignmentView, assignment_view}
use poly_fleet.Store.Traffic.Account.{
  TrafficDelta, TrafficBatch, quota_state_of, charge, charge_user, charge_assignment, checked_add,
  add_accounted_traffic, leave_unattributed, insert_item, item_row, account_item, account_items,
  counted,
}
use poly_fleet.Store.Traffic.Conservation.{
  HasKeys, account_items_cons, account_item_inv, account_item-Accounts, account_items-Accounts,
}
use poly_fleet.Store.Traffic.Ingest.{node_bytes}
use poly_fleet.Store.Traffic.Steps.{ingest_inv, payload_row}
use poly_fleet.Store.Traffic.{ingest_traffic_batch, accepted}

-- The used bytes are the sum of both directions, fit into an int64, and give the quota state.
pub record IsBalanced (upload download used limit : ℕ) (quota : QuotaState) : Type 0 where
  pub sum : used ≡ upload + download
  pub fits : used ≤ max_int64
  pub state : quota ≡ quota_state_of limit used

abbrev pub UserIsBalanced : User → Type 0
UserIsBalanced u =
    IsBalanced u.traffic_upload_bytes u.traffic_download_bytes u.traffic_used_bytes
      u.traffic_limit_bytes u.quota_state

abbrev pub AssignmentIsBalanced : AssignmentView → Type 0
AssignmentIsBalanced a =
    IsBalanced a.upload_bytes a.download_bytes a.used_bytes a.limit_bytes a.quota_state

pub record Balanced (db : Db) : Type 0 where
  pub users : All UserIsBalanced db.users
  pub assignments : All (λ a. AssignmentIsBalanced (assignment_view a)) db.assignments

-- The byte counts are int64 values.
abbrev pub IsInt64 : TrafficDelta → Type 0
IsInt64 i = (i.upload_bytes ≤ max_int64) × (i.download_bytes ≤ max_int64)

module _ (node batch : ℕ) (item : TrafficDelta) (now : ℕ) (u : User) (a : Assignment) (db : Db)
    (e : find (is_user item.user_id) db.users ≡ some u)
    (f : find (is_assignment node item.user_id) db.assignments ≡ some a) where
  -- What an accepted charge has checked.
  charge_checked :
      (db' : Db)
      → add_accounted_traffic node batch item now db ≡ ok db'
      → (item.upload_bytes ≤ max_int64 - item.download_bytes)
        × (u.traffic_used_bytes ≤ max_int64 - (item.upload_bytes + item.download_bytes))
        × (a.traffic_used_bytes ≤ max_int64 - (item.upload_bytes + item.download_bytes))
        × (charge node batch item now u a db ≡ db')
  unfolding add_accounted_traffic checked_add
  charge_checked db' h = ground arith

  charge-Balanced :
      IsInt64 item
      → (item.upload_bytes ≤ max_int64 - item.download_bytes)
      → (u.traffic_used_bytes ≤ max_int64 - (item.upload_bytes + item.download_bytes))
      → (a.traffic_used_bytes ≤ max_int64 - (item.upload_bytes + item.download_bytes))
      → HasKeys db
      → Balanced db
      → Balanced (charge node batch item now u a db)
  unfolding charge
  charge-Balanced range p q r keys bal = record {
    users =
        let before = find-All UserIsBalanced (is_user item.user_id) db.users e bal.users in
        All-update_found UserIsBalanced (is_user item.user_id)
          (charge_user item.upload_bytes item.download_bytes now) db.users e
          (keys.users item.user_id)
          (record { sum = omega (arith, before.sum); fits = omega arith; state = refl }) bal.users;
    assignments =
        let before =
          find-All (λ x. AssignmentIsBalanced (assignment_view x)) (is_assignment node item.user_id)
            db.assignments f bal.assignments in
        All-update_found (λ x. AssignmentIsBalanced (assignment_view x))
          (is_assignment node item.user_id)
          (charge_assignment item.upload_bytes item.download_bytes now) db.assignments f
          (keys.assignments node item.user_id)
          (record { sum = omega (arith, before.sum); fits = omega arith; state = refl })
          bal.assignments;
  }

add_accounted-Balanced :
    (node batch : ℕ) (item : TrafficDelta) (now : ℕ) (db db' : Db)
    → IsInt64 item
    → HasKeys db
    → Balanced db
    → add_accounted_traffic node batch item now db ≡ ok db'
    → Balanced db'
unfolding add_accounted_traffic
add_accounted-Balanced node batch item now db db' range keys bal h =
    elim (Option-cases (find (is_user item.user_id) db.users)) [
      | inl e ↦ absurd (ground arith)
      | inr (u, e) ↦ elim (Option-cases (find (is_assignment node item.user_id) db.assignments)) [
        | inl f ↦ absurd (ground arith)
        | inr (a, f) ↦
            let (p, q, r, same) = charge_checked node batch item now u a db e f db' h in
            subst Balanced same
              (charge-Balanced node batch item now u a db e f range p q r keys bal)
      ]
    ]

inserted_same :
    (node batch : ℕ) (item : TrafficDelta) (disposition : Disposition) (db db' : Db)
    → insert_item node batch item disposition db ≡ ok db'
    → record db { batch_items = item_row node batch item disposition ∷ db.batch_items } ≡ db'
unfolding insert_item
inserted_same node batch item disposition db db' h = ground arith

inserted-Balanced :
    (node batch : ℕ) (item : TrafficDelta) (disposition : Disposition) (db db' : Db)
    → Balanced db
    → HasKeys db
    → insert_item node batch item disposition db ≡ ok db'
    → Balanced db' × HasKeys db'
inserted-Balanced node batch item disposition db db' bal keys h =
    let same = inserted_same node batch item disposition db db' h in
    (
      subst Balanced same (record { users = bal.users; assignments = bal.assignments }),
      subst HasKeys same
          (record { users = keys.users; assignments = keys.assignments; nodes = keys.nodes }),
    )

left-same :
    (item : TrafficDelta) (before after : ℕ) (db db' : Db)
    → leave_unattributed item before db ≡ counted after db'
    → db ≡ db'
unfolding leave_unattributed
left-same item before after db db' h = ground arith

account_item-Balanced :
    (node batch : ℕ) (item : TrafficDelta) (now before after : ℕ) (db db' : Db)
    → IsInt64 item
    → HasKeys db
    → Balanced db
    → account_item node batch item now before db ≡ counted after db'
    → Balanced db'
account_item-Balanced node batch item now before after db db' range keys bal h =
    let (mid, e, next) = account_item_inv node batch item now before after db db' h in
    let (mid_bal, mid_keys) = inserted-Balanced node batch item _ db mid bal keys e in
    elim next [
      | inl (r, s) ↦ add_accounted-Balanced node batch item now mid db' range mid_keys mid_bal r
      | inr l ↦ subst Balanced (left-same item before after mid db' l) mid_bal
    ]

account_items-Balanced :
    (node batch : ℕ) (items : List TrafficDelta) (now before after : ℕ) (db db' : Db)
    → All IsInt64 items
    → HasKeys db
    → Balanced db
    → account_items node batch items now before db ≡ counted after db'
    → Balanced db'
unfolding account_items
account_items-Balanced node batch [] now before after db db' range keys bal h =
    subst Balanced (ground arith) bal
account_items-Balanced node batch (item ∷ items) now before after db db' range keys bal h =
    let (between, mid, e, rest) =
      account_items_cons node batch item items now before after db db' h in
    let one = account_item-Accounts node batch item now before between db mid keys e in
    account_items-Balanced node batch items now between after mid db' range.1 one.keys
      (account_item-Balanced node batch item now before between db mid range.0 keys bal e) rest

Frame-Balanced : {db db' : Db} → Frame db db' → Balanced db → Balanced db'
Frame-Balanced {db} {db'} f bal = record {
  users = subst (All UserIsBalanced) (sym f.users) bal.users;
  assignments =
      All-views assignment_view AssignmentIsBalanced db'.assignments db.assignments f.assignments
        bal.assignments;
}

-- An accepted batch keeps the counters of all users and assignments balanced.
pub ingest-Balanced :
    (fingerprint : TrafficBatch → ℕ) (identity : AgentIdentity) (batch : TrafficBatch) (now : Time)
    (db db' : Db)
    → All IsInt64 batch.items
    → HasKeys db
    → Balanced db
    → ingest_traffic_batch fingerprint identity batch now db ≡ (ok accepted, db')
    → Balanced db'
ingest-Balanced fingerprint identity batch now db db' range keys bal done =
    let s = ingest_inv fingerprint identity batch now db db' done in
    let keyed : HasKeys (record db {
      batches = payload_row fingerprint identity batch now db s.upload s.download ∷ db.batches;
    }) =
      record { users = keys.users; assignments = keys.assignments; nodes = keys.nodes } in
    let loop =
      account_items-Accounts identity.node_id batch.id batch.items (unix_milli now) 0 s.unattributed
        _ s.counted_db keyed s.accounting in
    let counted_bal =
      account_items-Balanced identity.node_id batch.id batch.items (unix_milli now) 0 s.unattributed
        _ s.counted_db range keyed (record { users = bal.users; assignments = bal.assignments })
        s.accounting in
    let (_, same_users, same_rows, _) =
      node_bytes identity.node_id s.upload s.download s.unattributed batch.sampled_at now
        s.counted_db s.node_db loop.keys s.node_traffic in
    Frame-Balanced s.frame (record {
      users = subst (All UserIsBalanced) (sym same_users) counted_bal.users;
      assignments =
          subst (All (λ a. AssignmentIsBalanced (assignment_view a))) (sym same_rows)
            counted_bal.assignments;
    })
