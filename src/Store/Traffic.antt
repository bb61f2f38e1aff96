-- ===== src/Store/Traffic.antt =====
-- `IngestTrafficBatch` of internal/store/traffic.go. Byte counts are non-negative, as the handler and
-- the schema's checks demand. A batch's fingerprint, the SHA-256 of its JSON text, is a function that
-- the method is given.
pub mod Account
pub mod NodeTotals
pub mod Quota
pub mod Conservation
pub mod Steps
pub mod Ingest
pub mod Balance
mod Examples
use poly_fleet.Base.{
  ℕ, ◌+◌, ◌-◌, Bool, true, false, ◌&&◌, ◌||◌, not, Option, none, some, List, [], ◌∷◌, ◌++◌, map,
  ◌==◌, leb, ltb, if◌then◌else◌, max_int64, StoreError, Result, ok, err, not_found, internal, ◌>>=◌,
  find, exists, select, update, length, total,
}
use poly_fleet.Schema.{
  Db, Node, User, Assignment, Batch, BatchItem, TrafficTotal, Disposition, accounted, unknown_user,
  unassigned, archived_user, QuotaState, unlimited, active, limited, AgentIdentity, is_none,
  is_node, is_user, is_assignment, quota_limited,
}
use poly_fleet.Calendar.{Time, unix_milli}
use poly_fleet.Store.Snapshot.{bump_changed_assignments}
use poly_fleet.Store.Traffic.Account.{
  TrafficDelta, TrafficBatch, batch_totals, counted, overflowed, broken, account_items,
}
use poly_fleet.Store.Traffic.NodeTotals.{add_node_traffic}
use poly_fleet.Store.Traffic.Quota.{QuotaRow, effective_quota_states, apply_transitions}

pub data IngestErrorCode : Type 0 where
  installation_conflict batch_id_conflict sequence_conflict batch_total_overflow : IngestErrorCode

-- TrafficIngestResult
pub data IngestStatus : Type 0 where
  accepted duplicate : IngestStatus
  rejected : IngestErrorCode → IngestStatus

-- The ways in which the transaction ends: by its commit, by a return of a result with a rollback,
-- or by an error with a rollback.
pub data Ending : Type 0 where
  commit : Db → Ending
  repeat : Ending
  reject : IngestErrorCode → Ending
  fail : StoreError → Ending

-- The updates after the two loops.
unfoldable pub settle :
    AgentIdentity → TrafficBatch → Time → ℕ → ℕ → ℕ → List QuotaRow → Db → Result Db
settle identity batch now upload download unattributed previous db =
    add_node_traffic identity.node_id upload download unattributed batch.sampled_at now db
    >>= λ db'.
        apply_transitions previous
          (effective_quota_states (map (λ (i : TrafficDelta). i.user_id) batch.items) [] db')
          (unix_milli now) [] db'
        >>= λ (changed, db''). bump_changed_assignments changed (unix_milli now) db''

abbrev pub ending_of : Result Db → Ending
ending_of (ok db) = commit db
ending_of (err e) = fail e

abbrev pub same_sequence : AgentIdentity → TrafficBatch → Batch → Bool
same_sequence identity batch b =
    (b.node_id == identity.node_id)
    && ((b.agent_installation_id == identity.installation_id)
        && ((b.source_epoch == batch.source_epoch) && (b.sequence == batch.sequence)))

-- What the code calls `traffic_batches` row, with its fingerprint.
abbrev pub batch_row : AgentIdentity → TrafficBatch → ℕ → Time → ℕ → ℕ → Batch
batch_row identity batch payload now upload download = record {
  id = batch.id;
  node_id = identity.node_id;
  agent_installation_id = identity.installation_id;
  source_epoch = batch.source_epoch;
  sequence = batch.sequence;
  sampled_at = unix_milli batch.sampled_at;
  received_at = unix_milli now;
  item_count = length batch.items;
  upload_bytes = upload;
  download_bytes = download;
  payload_sha256 = payload;
}

abbrev pub is_batch : ℕ → Batch → Bool
is_batch k b = b.id == k

module _ (fingerprint : TrafficBatch → ℕ) where
  -- From the insertion of the batch on.
  unfoldable pub record_batch : AgentIdentity → TrafficBatch → Time → ℕ → ℕ → Db → Ending
  record_batch identity batch now upload download db =
      let previous =
        effective_quota_states (map (λ (i : TrafficDelta). i.user_id) batch.items) [] db in
      elim (account_items identity.node_id batch.id batch.items (unix_milli now) 0 (record db {
        batches = batch_row identity batch (fingerprint batch) now upload download ∷ db.batches;
      })) [
        | counted unattributed db' ↦
            ending_of (settle identity batch now upload download unattributed previous db')
        | overflowed ↦ reject batch_total_overflow
        | broken e ↦ fail e
      ]

  unfoldable pub ingest_tx : AgentIdentity → TrafficBatch → Time → Db → Ending
  ingest_tx identity batch now db =
      if batch.installation_id == identity.installation_id
      then (elim (find (is_batch batch.id) db.batches) [
        | some b ↦
            if b.payload_sha256 == fingerprint batch then repeat else reject batch_id_conflict
        | none ↦
            if exists (same_sequence identity batch) db.batches
            then reject sequence_conflict
            else elim (batch_totals batch.items 0 0) [
              | none ↦ reject batch_total_overflow
              | some (upload, download) ↦ record_batch identity batch now upload download db
            ]
      ])
      else reject installation_conflict

  -- A return without a commit rolls back: the caller's database is kept.
  unfoldable pub ingest_traffic_batch :
      AgentIdentity → TrafficBatch → Time → Db → Result IngestStatus × Db
  ingest_traffic_batch identity batch now db = elim (ingest_tx identity batch now db) [
    | commit db' ↦ (ok accepted, db')
    | repeat ↦ (ok duplicate, db)
    | reject code ↦ (ok (rejected code), db)
    | fail e ↦ (err e, db)
  ]
