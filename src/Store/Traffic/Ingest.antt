-- ===== src/Store/Traffic/Ingest.antt =====
-- The theorems on `IngestTrafficBatch`: what a batch adds, and what one that comes again does.
use poly_fleet.Base.{
  ℕ, ◌+◌, ◌≡◌, ◌≢◌, ◌∙◌, ap, sym, refl, true, none, some, List, [], ◌∷◌, map, ok, find, exists,
  total, total-update, arith,
}
use poly_fleet.Calendar.{Time, unix_milli}
use poly_fleet.Budget.{traffic_cycle_start}
use poly_fleet.Schema.{Db, User, Node, Assignment, AgentIdentity, is_node}
use poly_fleet.Store.Frame.{NodeView, node_view, AssignmentView, assignment_view}
use poly_fleet.Store.Traffic.Account.{TrafficDelta, TrafficBatch, batch_totals}
use poly_fleet.Store.Traffic.Conservation.{
  HasKeys, Accounts, account_items-Accounts, user_bytes, assignment_bytes, unattributed_bytes,
  batch_bytes,
}
use poly_fleet.Store.Traffic.NodeTotals.{charge_node, add_node_traffic}
use poly_fleet.Store.Traffic.Steps.{Accepted, ingest_inv, add_node_traffic_inv, payload_row}
use poly_fleet.Store.Traffic.{
  ingest_tx, ingest_traffic_batch, is_batch, same_sequence, accepted, duplicate, rejected,
  batch_id_conflict, sequence_conflict,
}

total-map {ℓ κ} :
    {A : Type ℓ} {V : Type κ} (v : A → V) (g : V → ℕ) (xs : List A)
    → total g (map v xs) ≡ total (λ x. g (v x)) xs
unfolding total
total-map v g [] = refl
total-map v g (x ∷ xs) = ground (arith, total-map v g xs)

-- Tables with the same views have the same sums.
total-views {ℓ κ} :
    {A : Type ℓ} {V : Type κ} (v : A → V) (g : V → ℕ) (xs ys : List A)
    → map v xs ≡ map v ys
    → total (λ x. g (v x)) xs ≡ total (λ x. g (v x)) ys
total-views v g xs ys e = sym (total-map v g xs) ∙ ap (total g) e ∙ total-map v g ys

batch_totals_sum :
    (items : List TrafficDelta) (up down upload download : ℕ)
    → batch_totals items up down ≡ some (upload, download)
    → (upload ≡ up + total (λ (i : TrafficDelta). i.upload_bytes) items)
      × (download ≡ down + total (λ (i : TrafficDelta). i.download_bytes) items)
unfolding batch_totals total
batch_totals_sum [] up down upload download h = ground arith
batch_totals_sum (item ∷ items) up down upload download h = ground (
  arith,
  batch_totals_sum items (up + item.upload_bytes) (down + item.download_bytes) upload download,
)

pub node_bytes :
    (node upload download unattributed : ℕ) (sampled_at now : Time) (db db' : Db)
    → HasKeys db
    → add_node_traffic node upload download unattributed sampled_at now db ≡ ok db'
    → (unattributed_bytes db' ≡ unattributed_bytes db + unattributed)
      × (db'.users ≡ db.users)
      × (db'.assignments ≡ db.assignments)
      × (db'.batches ≡ db.batches)
node_bytes node upload download unattributed sampled_at now db db' keys h =
    let (n, cycle_upload, cycle_download, clear, found, same) =
      add_node_traffic_inv node upload download unattributed sampled_at now db db' h in
    let sum =
      total-update (is_node node)
        (charge_node upload download unattributed
          (unix_milli (traffic_cycle_start now n.traffic_reset_day)) cycle_upload cycle_download
          (unix_milli now) clear)
        (λ (n : Node). n.traffic_unattributed_bytes) db.nodes found (keys.nodes node) in
    (
      rw same (omega (arith, sum)),
      ap (λ (d : Db). d.users) same,
      ap (λ (d : Db). d.assignments) same,
      ap (λ (d : Db). d.batches) same,
    )

module _ (fingerprint : TrafficBatch → ℕ) (identity : AgentIdentity) (batch : TrafficBatch)
    (now : Time) (db : Db) where
  module _ (keys : HasKeys db) (db' : Db)
      (done : ingest_traffic_batch fingerprint identity batch now db ≡ (ok accepted, db')) where
    steps : Accepted fingerprint identity batch now db db'
    steps = ingest_inv fingerprint identity batch now db db' done

    accounts :
        Accounts
          (batch_bytes batch.items)
          0
          (record db {
            batches =
                payload_row fingerprint identity batch now db steps.upload steps.download
                ∷ db.batches;
          })
          steps.unattributed
          steps.counted_db
    accounts =
        account_items-Accounts identity.node_id batch.id batch.items (unix_milli now) 0
          steps.unattributed _ steps.counted_db
          (record { users = keys.users; assignments = keys.assignments; nodes = keys.nodes })
          steps.accounting

    after_node :
        (unattributed_bytes steps.node_db
          ≡ unattributed_bytes steps.counted_db + steps.unattributed)
        × (steps.node_db.users ≡ steps.counted_db.users)
        × (steps.node_db.assignments ≡ steps.counted_db.assignments)
        × (steps.node_db.batches ≡ steps.counted_db.batches)
    after_node =
        node_bytes identity.node_id steps.upload steps.download steps.unattributed batch.sampled_at
          now steps.counted_db steps.node_db accounts.keys steps.node_traffic

    -- Every byte of an accepted batch is charged to one user or counted as unattributed on the node,
    -- and is charged to one assignment or counted as unattributed.
    pub ingest_conserves :
        (user_bytes db' + unattributed_bytes db'
          ≡ user_bytes db + unattributed_bytes db + batch_bytes batch.items)
        × (assignment_bytes db' + unattributed_bytes db'
            ≡ assignment_bytes db + unattributed_bytes db + batch_bytes batch.items)
    ingest_conserves =
        let nodes =
          total-views node_view (λ (v : NodeView). v.unattributed_bytes) db'.nodes
            steps.node_db.nodes steps.frame.nodes in
        let rows =
          total-views assignment_view (λ (v : AssignmentView). v.used_bytes) db'.assignments
            steps.node_db.assignments steps.frame.assignments in
        let users =
          ap (total (λ (u : User). u.traffic_used_bytes)) (steps.frame.users ∙ after_node.1) in
        let charged = ap (total (λ (a : Assignment). a.traffic_used_bytes)) after_node.2 in
        let untouched = ap (total (λ (n : Node). n.traffic_unattributed_bytes)) accounts.nodes in
        (
          omega (arith, nodes, users, untouched, after_node.0, accounts.users),
          omega (arith, nodes, rows, charged, untouched, after_node.0, accounts.assignments),
        )

    batches_lem :
        db'.batches
        ≡ payload_row fingerprint identity batch now db steps.upload steps.download ∷ db.batches
    batches_lem = steps.frame.batches ∙ after_node.3 ∙ accounts.batches

    found_again :
        find (is_batch batch.id) db'.batches
        ≡ some (payload_row fingerprint identity batch now db steps.upload steps.download)
    unfolding find
    found_again = rw batches_lem (ground arith)

    -- An accepted batch that is sent again, whenever it is, is answered as a duplicate and changes
    -- nothing.
    pub ingest_replay :
        (later : Time)
        → ingest_traffic_batch fingerprint identity batch later db' ≡ (ok duplicate, db')
    unfolding ingest_traffic_batch ingest_tx
    ingest_replay later = ground (arith, found_again, steps.installation)

    -- After an accepted batch, a batch of the installation with its identifier and another content is
    -- rejected.
    pub ingest_id_conflict :
        (other : TrafficBatch) (later : Time)
        → other.installation_id ≡ batch.installation_id
        → other.id ≡ batch.id
        → fingerprint other ≢ fingerprint batch
        → ingest_traffic_batch fingerprint identity other later db'
          ≡ (ok (rejected batch_id_conflict), db')
    unfolding ingest_traffic_batch ingest_tx
    ingest_id_conflict other later same e differs =
        ground (arith, ap (λ k. find (is_batch k) db'.batches) e ∙ found_again, steps.installation)

    sequence_used :
        (other : TrafficBatch)
        → other.source_epoch ≡ batch.source_epoch
        → other.sequence ≡ batch.sequence
        → exists (same_sequence identity other) db'.batches ≡ true
    unfolding exists
    sequence_used other e f = rw batches_lem (ground arith)

    -- After an accepted batch, a batch of the installation under a new identifier with its epoch and
    -- sequence is rejected.
    pub ingest_sequence_conflict :
        (other : TrafficBatch) (later : Time)
        → other.installation_id ≡ batch.installation_id
        → find (is_batch other.id) db'.batches ≡ none
        → other.source_epoch ≡ batch.source_epoch
        → other.sequence ≡ batch.sequence
        → ingest_traffic_batch fingerprint identity other later db'
          ≡ (ok (rejected sequence_conflict), db')
    unfolding ingest_traffic_batch ingest_tx
    ingest_sequence_conflict other later same fresh e f =
        ground (arith, fresh, sequence_used other e f, steps.installation)
