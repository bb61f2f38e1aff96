-- ===== src/Store/Traffic/Steps.antt =====
-- The steps of an accepted batch, taken apart for the proofs about `IngestTrafficBatch`.
use poly_fleet.Base.{
  ℕ, ◌≡◌, refl, ◌&&◌, not, Bool, false, Bool-cases, none, some, List, [], ◌∷◌, ◌==◌, inl, inr, map,
  Result, ok, err, >>=-eq-ok, find, exists, update, Option-cases, arith,
}
use poly_fleet.Calendar.{Time, unix_milli}
use poly_fleet.Budget.{traffic_cycle_start, traffic_cycle_next_start}
use poly_fleet.Schema.{Db, Batch, Node, AgentIdentity, is_node, quota_limited}
use poly_fleet.Store.Snapshot.{Changed, add_changed_assignment}
use poly_fleet.Store.Kick.{request_kick}
use poly_fleet.Store.Frame.{
  Frame, Frame-refl, Frame-trans, request_kick-Frame, bump_changed_assignments-Frame,
}
use poly_fleet.Store.Traffic.Account.{
  TrafficDelta, TrafficBatch, Accounting, counted, overflowed, broken, batch_totals, account_items,
}
use poly_fleet.Store.Traffic.NodeTotals.{
  add_node_traffic, has_node_room, charge_node, cycle_counters, stored_is, stored_before,
}
use poly_fleet.Store.Traffic.Quota.{
  QuotaRow, apply_transitions, effective_quota_states, is_unchanged, same_key,
}
use poly_fleet.Store.Traffic.{
  settle, record_batch, ingest_tx, ingest_traffic_batch, batch_row, is_batch, same_sequence,
  accepted, Ending, commit, repeat, reject, fail, ending_of,
}

-- What `add_node_traffic` writes: the one node, with its counters charged.
pub add_node_traffic_inv :
    (node upload download unattributed : ℕ) (sampled_at now : Time) (db db' : Db)
    → add_node_traffic node upload download unattributed sampled_at now db ≡ ok db'
    → (n : Node) × (cycle_upload : ℕ) × (cycle_download : ℕ) × (clear : Bool) × (find
          (is_node node)
          db.nodes
        ≡ some n)
      × (db' ≡ record db {
        nodes =
            update
              (is_node node)
              (charge_node upload download unattributed
                (unix_milli (traffic_cycle_start now n.traffic_reset_day))
                cycle_upload
                cycle_download
                (unix_milli now)
                clear)
              db.nodes;
      })
unfolding add_node_traffic
add_node_traffic_inv node upload download unattributed sampled_at now db db' h =
    elim (Option-cases (find (is_node node) db.nodes)) [
      | inl e ↦ absurd (ground arith)
      | inr (n, e) ↦ elim (Bool-cases (has_node_room n upload download unattributed)) [
        | inl room ↦
            let start = traffic_cycle_start now n.traffic_reset_day in
            let ((cycle_upload, cycle_download), c, same) =
              >>=-eq-ok
                (cycle_counters n upload download sampled_at start
                  (traffic_cycle_next_start start n.traffic_reset_day) db)
                _ (rw (e, add_node_traffic, room) at h) in
            (
              n,
              cycle_upload,
              cycle_download,
              not (stored_is n.traffic_cycle_started_at (unix_milli start))
                  && stored_before n.traffic_calibrated_at (unix_milli start),
              e,
              ground arith,
            )
        | inr full ↦ absurd (ground arith)
      ]
    ]

transition_inv :
    (previous : List QuotaRow) (current : QuotaRow) (rest : List QuotaRow) (now : ℕ)
    (changed changed' : Changed) (db db' : Db)
    → apply_transitions previous (current ∷ rest) now changed db ≡ ok (changed', db')
    → (changed1 : Changed) × (mid : Db) × Frame db mid
      × (apply_transitions previous rest now changed1 mid ≡ ok (changed', db'))
unfolding apply_transitions
transition_inv previous current rest now changed changed' db db' h =
    elim (Bool-cases (is_unchanged current (find (same_key current) previous))) [
      | inl same ↦ (changed, db, Frame-refl db, ground arith)
      | inr differs ↦ elim (Bool-cases current.is_limited) [
        | inl lim ↦
            let (mid, k, r) =
              >>=-eq-ok (request_kick current.node_id current.user_id quota_limited now db) _
                (rw (differs, apply_transitions, lim) at h) in
            (
              add_changed_assignment current.node_id current.user_id changed,
              mid,
              request_kick-Frame current.node_id current.user_id quota_limited now db mid k,
              r,
            )
        | inr free ↦ (
          add_changed_assignment current.node_id current.user_id changed,
          db,
          Frame-refl db,
          ground arith,
        )
      ]
    ]

pub apply_transitions-Frame :
    (previous rows : List QuotaRow) (now : ℕ) (changed changed' : Changed) (db db' : Db)
    → apply_transitions previous rows now changed db ≡ ok (changed', db')
    → Frame db db'
unfolding apply_transitions
apply_transitions-Frame previous [] now changed changed' db db' h = ground (arith, Frame-refl db)
apply_transitions-Frame previous (current ∷ rest) now changed changed' db db' h =
    let (changed1, mid, f, e) =
      transition_inv previous current rest now changed changed' db db' h in
    Frame-trans f (apply_transitions-Frame previous rest now changed1 changed' mid db' e)

pub settle_inv :
    (identity : AgentIdentity) (batch : TrafficBatch) (now : Time)
    (upload download unattributed : ℕ) (previous : List QuotaRow) (db db' : Db)
    → settle identity batch now upload download unattributed previous db ≡ ok db'
    → (mid : Db) × (add_node_traffic identity.node_id upload download unattributed batch.sampled_at
          now db
        ≡ ok mid)
      × Frame mid db'
unfolding settle
settle_inv identity batch now upload download unattributed previous db db' h =
    let (mid, e, rest) =
      >>=-eq-ok
        (add_node_traffic identity.node_id upload download unattributed batch.sampled_at now db) _
        h in
    let ((changed, kicked), f, bump) =
      >>=-eq-ok
        (apply_transitions previous
          (effective_quota_states (map (λ (i : TrafficDelta). i.user_id) batch.items) [] mid)
          (unix_milli now) [] mid)
        _ rest in
    (
      mid,
      e,
      Frame-trans (apply_transitions-Frame previous _ (unix_milli now) [] changed mid kicked f)
          (bump_changed_assignments-Frame changed (unix_milli now) kicked db' bump),
    )

module _ (fingerprint : TrafficBatch → ℕ) (identity : AgentIdentity) (batch : TrafficBatch)
    (now : Time) (db : Db) where
  abbrev pub payload_row : ℕ → ℕ → Batch
  payload_row = batch_row identity batch (fingerprint batch) now

  -- What an accepted batch has gone through.
  pub record Accepted (db' : Db) : Type 0 where
    pub installation : batch.installation_id ≡ identity.installation_id
    pub new_id : find (is_batch batch.id) db.batches ≡ none
    pub new_sequence : exists (same_sequence identity batch) db.batches ≡ false
    pub upload : ℕ
    pub download : ℕ
    pub totals : batch_totals batch.items 0 0 ≡ some (upload, download)
    pub unattributed : ℕ
    pub counted_db : Db
    pub accounting :
        account_items identity.node_id batch.id batch.items
          (unix_milli now)
          0
          (record db { batches = payload_row upload download ∷ db.batches })
        ≡ counted unattributed counted_db
    pub node_db : Db
    pub node_traffic :
        add_node_traffic identity.node_id upload download unattributed batch.sampled_at now
          counted_db
        ≡ ok node_db
    pub frame : Frame node_db db'

  ending_inv : (r : Result Db) (db' : Db) → ending_of r ≡ commit db' → r ≡ ok db'
  ending_inv (ok x) db' h = ground arith
  ending_inv (err x) db' h = absurd (ground arith)

  record_batch_inv :
      (upload download : ℕ) (db' : Db)
      → record_batch fingerprint identity batch now upload download db ≡ commit db'
      → (unattributed : ℕ) × (counted_db : Db) × (node_db : Db) × (account_items identity.node_id
            batch.id batch.items
            (unix_milli now)
            0
            (record db { batches = payload_row upload download ∷ db.batches })
          ≡ counted unattributed counted_db)
        × (add_node_traffic identity.node_id upload download unattributed batch.sampled_at now
              counted_db
            ≡ ok node_db)
        × Frame node_db db'
  unfolding record_batch
  record_batch_inv upload download db' h = go _ refl
    where
      go :
          (r : Accounting)
          → account_items identity.node_id batch.id batch.items
              (unix_milli now)
              0
              (record db { batches = payload_row upload download ∷ db.batches })
            ≡ r
          → (unattributed : ℕ) × (counted_db : Db) × (node_db : Db) × (account_items
                identity.node_id batch.id batch.items
                (unix_milli now)
                0
                (record db { batches = payload_row upload download ∷ db.batches })
              ≡ counted unattributed counted_db)
            × (add_node_traffic identity.node_id upload download unattributed batch.sampled_at now
                  counted_db
                ≡ ok node_db)
            × Frame node_db db'
      go overflowed e = absurd (ground arith)
      go (broken x) e = absurd (ground arith)
      go (counted unattributed counted_db) e =
          let (node_db, n, f) =
            settle_inv identity batch now upload download unattributed
              (effective_quota_states (map (λ (i : TrafficDelta). i.user_id) batch.items) [] db)
              counted_db db' (ending_inv _ db' (rw (e, record_batch) at h)) in
          (unattributed, counted_db, node_db, e, n, f)

  committed :
      (db' : Db)
      → ingest_traffic_batch fingerprint identity batch now db ≡ (ok accepted, db')
      → ingest_tx fingerprint identity batch now db ≡ commit db'
  unfolding ingest_traffic_batch
  committed db' h = go _ refl
    where
      go :
          (e : Ending)
          → ingest_tx fingerprint identity batch now db ≡ e
          → ingest_tx fingerprint identity batch now db ≡ commit db'
      go (commit x) p = ground arith
      go repeat p = absurd (ground arith)
      go (reject c) p = absurd (ground arith)
      go (fail e) p = absurd (ground arith)

  pub ingest_inv :
      (db' : Db)
      → ingest_traffic_batch fingerprint identity batch now db ≡ (ok accepted, db')
      → Accepted db'
  unfolding ingest_tx
  ingest_inv db' h = elim (Bool-cases (batch.installation_id == identity.installation_id)) [
    | inr wrong ↦ absurd (ground (arith, committed db' h))
    | inl right ↦ elim (Option-cases (find (is_batch batch.id) db.batches)) [
      | inr (b, known) ↦ absurd (ground (arith, committed db' h))
      | inl fresh ↦ elim (Bool-cases (exists (same_sequence identity batch) db.batches)) [
        | inl used ↦ absurd (ground (arith, committed db' h))
        | inr unused ↦ elim (Option-cases (batch_totals batch.items 0 0)) [
          | inl over ↦ absurd (ground (arith, committed db' h))
          | inr ((upload, download), sums) ↦
              let (unattributed, counted_db, node_db, a, n, f) =
                record_batch_inv upload download db' (ground (arith, committed db' h)) in
              record {
                installation = ground arith;
                new_id = fresh;
                new_sequence = unused;
                upload = upload;
                download = download;
                totals = sums;
                unattributed = unattributed;
                counted_db = counted_db;
                accounting = a;
                node_db = node_db;
                node_traffic = n;
                frame = f;
              }
        ]
      ]
    ]
  ]
