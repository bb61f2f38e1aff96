-- ===== src/Store/Traffic/NodeTotals.antt =====
-- The node's counters: `addNodeTrafficTx` of internal/store/traffic.go and `trafficCycleTotalsTx` of
-- traffic_budget.go.
use poly_fleet.Base.{
  ℕ, ◌+◌, ◌-◌, Bool, false, ◌&&◌, ◌||◌, not, Option, none, some, ◌==◌, leb, ltb, if◌then◌else◌,
  max_int64, Result, ok, err, internal, ◌>>=◌, find, select, update, total,
}
use poly_fleet.Schema.{Db, Node, Batch, is_node}
use poly_fleet.Calendar.{Time, before, unix_milli}
use poly_fleet.Budget.{traffic_cycle_start, traffic_cycle_next_start}

-- The batches of a node that were sampled in [start, end).
abbrev pub in_cycle : ℕ → ℕ → ℕ → Batch → Bool
in_cycle node start end b = (b.node_id == node) && (leb start b.sampled_at && ltb b.sampled_at end)

-- SQLite's SUM fails with an integer overflow.
unfoldable pub traffic_cycle_totals : ℕ → Time → Time → Db → Result (ℕ × ℕ)
traffic_cycle_totals node start end db =
    let rows = select (in_cycle node (unix_milli start) (unix_milli end)) db.batches in
    let upload = total (λ (b : Batch). b.upload_bytes) rows in
    let download = total (λ (b : Batch). b.download_bytes) rows in
    if ltb max_int64 upload || ltb max_int64 download then err internal else ok (upload, download)

abbrev pub stored_is : Option ℕ → ℕ → Bool
stored_is none t = false
stored_is (some s) t = s == t

abbrev pub stored_before : Option ℕ → ℕ → Bool
stored_before none t = false
stored_before (some s) t = ltb s t

-- The counters of the cycle after a batch, and whether a new cycle has begun.
unfoldable pub cycle_counters : Node → ℕ → ℕ → Time → Time → Time → Db → Result (ℕ × ℕ)
cycle_counters n upload download sampled_at start next db =
    if not (stored_is n.traffic_cycle_started_at (unix_milli start))
    then traffic_cycle_totals n.id start next db
    else if not (before sampled_at start) && before sampled_at next
    then if leb n.traffic_cycle_upload_bytes (max_int64 - upload)
        && leb n.traffic_cycle_download_bytes (max_int64 - download)
      then ok (n.traffic_cycle_upload_bytes + upload, n.traffic_cycle_download_bytes + download)
      else err internal
    else ok (n.traffic_cycle_upload_bytes, n.traffic_cycle_download_bytes)

abbrev pub charge_node : ℕ → ℕ → ℕ → ℕ → ℕ → ℕ → ℕ → Bool → Node → Node
charge_node upload download unattributed cycle_start cycle_upload cycle_download now clear n =
    record n {
      traffic_upload_bytes = n.traffic_upload_bytes + upload;
      traffic_download_bytes = n.traffic_download_bytes + download;
      traffic_unattributed_bytes = n.traffic_unattributed_bytes + unattributed;
      traffic_last_report_at = some now;
      updated_at = now;
      traffic_cycle_started_at = some cycle_start;
      traffic_cycle_upload_bytes = cycle_upload;
      traffic_cycle_download_bytes = cycle_download;
      traffic_calibration_bytes = if clear then none else n.traffic_calibration_bytes;
      traffic_calibration_proxy_bytes = if clear then none else n.traffic_calibration_proxy_bytes;
      traffic_calibrated_at = if clear then none else n.traffic_calibrated_at;
    }

abbrev pub has_node_room : Node → ℕ → ℕ → ℕ → Bool
has_node_room n upload download unattributed =
    leb n.traffic_upload_bytes (max_int64 - upload)
    && (leb n.traffic_download_bytes (max_int64 - download)
        && leb n.traffic_unattributed_bytes (max_int64 - unattributed))

unfoldable pub add_node_traffic : ℕ → ℕ → ℕ → ℕ → Time → Time → Db → Result Db
add_node_traffic node upload download unattributed sampled_at now db =
    elim (find (is_node node) db.nodes) [
      | none ↦ err internal
      | some n ↦
          let start = traffic_cycle_start now n.traffic_reset_day in
          let next = traffic_cycle_next_start start n.traffic_reset_day in
          let changed = not (stored_is n.traffic_cycle_started_at (unix_milli start)) in
          let clear = changed && stored_before n.traffic_calibrated_at (unix_milli start) in
          if has_node_room n upload download unattributed
          then (cycle_counters n upload download sampled_at start next db
              >>= λ (cycle_upload, cycle_download). ok (record db {
                nodes =
                    update (is_node node)
                      (charge_node upload download unattributed (unix_milli start) cycle_upload
                        cycle_download (unix_milli now) clear)
                      db.nodes;
              }))
          else err internal
    ]
