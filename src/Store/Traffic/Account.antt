-- ===== src/Store/Traffic/Account.antt =====
-- The accounting of a batch's items in internal/store/traffic.go: `checkedAdd`, `quotaState`,
-- `classifyTrafficItemTx`, `addAccountedTrafficTx` and the loops of `IngestTrafficBatch`.
use poly_fleet.Base.{
  ℕ, ◌+◌, ◌-◌, Bool, true, false, ◌&&◌, ◌||◌, Option, none, some, List, [], ◌∷◌, ◌==◌, leb, ltb,
  if◌then◌else◌, max_int64, StoreError, Result, ok, err, internal, find, exists, update,
}
use poly_fleet.Calendar.{Time}
use poly_fleet.Schema.{
  Db, User, Assignment, BatchItem, TrafficTotal, Disposition, accounted, unknown_user, unassigned,
  archived_user, QuotaState, unlimited, active, limited, is_none, is_user, is_assignment,
}

-- protocol.TrafficDelta and protocol.TrafficBatch
pub record TrafficDelta : Type 0 where
  pub user_id : ℕ
  pub upload_bytes : ℕ
  pub download_bytes : ℕ

pub record TrafficBatch : Type 0 where
  pub id : ℕ
  pub installation_id : ℕ
  pub source_epoch : ℕ
  pub sequence : ℕ
  pub sampled_at : Time
  pub items : List TrafficDelta

unfoldable pub checked_add : ℕ → ℕ → Option ℕ
checked_add left right = if ltb (max_int64 - right) left then none else some (left + right)

unfoldable pub quota_state_of : ℕ → ℕ → QuotaState
quota_state_of limit used =
    if limit == 0 then unlimited else if leb limit used then limited else active

unfoldable pub classify_traffic_item : ℕ → ℕ → Db → Disposition
classify_traffic_item node user db = elim (find (is_user user) db.users) [
  | none ↦ unknown_user
  | some u ↦
      if is_none u.archived_at
      then (if exists (is_assignment node user) db.assignments then accounted else unassigned)
      else archived_user
]

-- INSERT ... ON CONFLICT(node_id, user_id) DO UPDATE
unfoldable pub upsert_total : TrafficTotal → List TrafficTotal → List TrafficTotal
upsert_total t [] = t ∷ []
upsert_total t (x ∷ xs) =
    if (x.node_id == t.node_id) && (x.user_id == t.user_id) then t ∷ xs else x ∷ upsert_total t xs

abbrev pub charge_user : ℕ → ℕ → ℕ → User → User
charge_user up down now u = record u {
  traffic_upload_bytes = u.traffic_upload_bytes + up;
  traffic_download_bytes = u.traffic_download_bytes + down;
  traffic_used_bytes = u.traffic_used_bytes + (up + down);
  quota_state = quota_state_of u.traffic_limit_bytes (u.traffic_used_bytes + (up + down));
  last_traffic_at = some now;
  updated_at = now;
}

abbrev pub charge_assignment : ℕ → ℕ → ℕ → Assignment → Assignment
charge_assignment up down now a = record a {
  traffic_upload_bytes = a.traffic_upload_bytes + up;
  traffic_download_bytes = a.traffic_download_bytes + down;
  traffic_used_bytes = a.traffic_used_bytes + (up + down);
  quota_state = quota_state_of a.traffic_limit_bytes (a.traffic_used_bytes + (up + down));
  last_traffic_at = some now;
  updated_at = now;
}

-- The counters that have been read fit into SQLite's integers after the addition.
abbrev pub has_room : ℕ → ℕ → ℕ → ℕ → ℕ → Bool
has_room upload download used up down =
    leb upload (max_int64 - up)
    && (leb download (max_int64 - down) && leb used (max_int64 - (up + down)))

-- The rows are found again by their primary keys, so the row that is written is the row that was
-- read.
unfoldable pub charge : ℕ → ℕ → TrafficDelta → ℕ → User → Assignment → Db → Db
charge node batch item now u a db = record db {
  totals =
      upsert_total
        (record {
          node_id = node;
          user_id = item.user_id;
          upload_bytes = a.traffic_upload_bytes + item.upload_bytes;
          download_bytes = a.traffic_download_bytes + item.download_bytes;
          last_batch_id = batch;
          updated_at = now;
        })
        db.totals;
  users =
      update (is_user item.user_id) (charge_user item.upload_bytes item.download_bytes now)
        db.users;
  assignments =
      update (is_assignment node item.user_id)
        (charge_assignment item.upload_bytes item.download_bytes now) db.assignments;
}

unfoldable pub add_accounted_traffic : ℕ → ℕ → TrafficDelta → ℕ → Db → Result Db
add_accounted_traffic node batch item now db = elim (find (is_user item.user_id) db.users) [
  | none ↦ err internal
  | some u ↦ elim (find (is_assignment node item.user_id) db.assignments) [
    | none ↦ err internal
    | some a ↦ elim (checked_add item.upload_bytes item.download_bytes) [
      | none ↦ err internal
      | some used ↦
          if has_room u.traffic_upload_bytes u.traffic_download_bytes u.traffic_used_bytes
              item.upload_bytes item.download_bytes
            && has_room a.traffic_upload_bytes a.traffic_download_bytes a.traffic_used_bytes
                item.upload_bytes item.download_bytes
          then ok (charge node batch item now u a db)
          else err internal
    ]
  ]
]

-- The first loop over the items: the totals, unless one overflows.
unfoldable pub batch_totals : List TrafficDelta → ℕ → ℕ → Option (ℕ × ℕ)
batch_totals [] upload download = some (upload, download)
batch_totals (item ∷ items) upload download =
    let rest = batch_totals items (upload + item.upload_bytes) (download + item.download_bytes) in
    if ltb (max_int64 - item.upload_bytes) upload || ltb (max_int64 - item.download_bytes) download
    then none
    else rest

-- How the second loop goes on after an item, or ends.
pub data Accounting : Type 0 where
  counted : ℕ → Db → Accounting
  overflowed : Accounting
  broken : StoreError → Accounting

abbrev pub item_row : ℕ → ℕ → TrafficDelta → Disposition → BatchItem
item_row node batch item disposition = record {
  batch_id = batch;
  node_id = node;
  user_id = item.user_id;
  upload_bytes = item.upload_bytes;
  download_bytes = item.download_bytes;
  disposition = disposition;
}

-- INSERT INTO traffic_batch_items, with the primary key (batch_id, user_id)
unfoldable pub insert_item : ℕ → ℕ → TrafficDelta → Disposition → Db → Result Db
insert_item node batch item disposition db =
    if exists (λ (i : BatchItem). (i.batch_id == batch) && (i.user_id == item.user_id))
      db.batch_items
    then err internal
    else ok (record db { batch_items = item_row node batch item disposition ∷ db.batch_items })

abbrev pub is_accounted : Disposition → Bool
is_accounted accounted = true
is_accounted _ = false

abbrev pub after_charge : ℕ → Result Db → Accounting
after_charge unattributed (ok db) = counted unattributed db
after_charge unattributed (err e) = broken e

-- An item that no user can be charged for.
unfoldable pub leave_unattributed : TrafficDelta → ℕ → Db → Accounting
leave_unattributed item unattributed db = elim (checked_add item.upload_bytes item.download_bytes) [
  | none ↦ overflowed
  | some bytes ↦
      if ltb (max_int64 - bytes) unattributed then overflowed else counted (unattributed + bytes) db
]

unfoldable pub account_item : ℕ → ℕ → TrafficDelta → ℕ → ℕ → Db → Accounting
account_item node batch item now unattributed db =
    let disposition = classify_traffic_item node item.user_id db in
    elim (insert_item node batch item disposition db) [
      | err e ↦ broken e
      | ok db' ↦
          if is_accounted disposition
          then after_charge unattributed (add_accounted_traffic node batch item now db')
          else leave_unattributed item unattributed db'
    ]

unfoldable pub account_items : ℕ → ℕ → List TrafficDelta → ℕ → ℕ → Db → Accounting
account_items node batch [] now unattributed db = counted unattributed db
account_items node batch (item ∷ items) now unattributed db =
    elim (account_item node batch item now unattributed db) [
      | counted unattributed' db' ↦ account_items node batch items now unattributed' db'
      | overflowed ↦ overflowed
      | broken e ↦ broken e
    ]
