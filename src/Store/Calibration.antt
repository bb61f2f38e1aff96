-- ===== src/Store/Calibration.antt =====
-- `EffectiveNodeTrafficUsed` and `CalibrateNodeTraffic` of internal/store/traffic_budget.go, and the
-- row that `GetNode` returns.
mod Examples
use poly_fleet.Base.{
  ℕ, ◌+◌, ◌-◌, ◌≤◌, ◌≡◌, refl, ap, Bool, true, false, Bool-cases, Option, none, some, List, [], ◌∷◌,
  inl, inr, min, ltb, max_int64, if◌then◌else◌, Result, ok, err, not_found, internal, ◌>>=◌,
  >>=-eq-ok, find, update, find-update, find_holds, Option-cases, arith,
}
use poly_fleet.Calendar.{Time, unix_milli}
use poly_fleet.Budget.{traffic_cycle_start, traffic_cycle_next_start}
use poly_fleet.Schema.{Db, Node, is_node, is_live_node}
use poly_fleet.Store.Traffic.Account.{checked_add}
use poly_fleet.Store.Traffic.NodeTotals.{traffic_cycle_totals}

-- `delta` is negative where the counters fell behind the calibration, and is then taken as 0.
unfoldable pub effective_node_traffic_used : Node → ℕ
unfolding checked_add
effective_node_traffic_used n =
    elim (checked_add n.traffic_cycle_upload_bytes n.traffic_cycle_download_bytes) [
      | none ↦ max_int64
      | some proxy_used ↦ elim n.traffic_calibration_bytes [
        | none ↦ proxy_used
        | some calibration ↦ elim n.traffic_calibration_proxy_bytes [
          | none ↦ proxy_used
          | some proxy ↦
              let delta = proxy_used - proxy in
              if ltb (max_int64 - delta) calibration then max_int64 else calibration + delta
        ]
      ]
    ]

unfoldable pub get_node : ℕ → Db → Result Node
get_node node db = elim (find (is_live_node node) db.nodes) [ none ↦ err not_found | some n ↦ ok n ]

abbrev pub calibrate_row : ℕ → ℕ → ℕ → ℕ → ℕ → ℕ → Node → Node
calibrate_row start upload download provider proxy_used now n = record n {
  traffic_cycle_started_at = some start;
  traffic_cycle_upload_bytes = upload;
  traffic_cycle_download_bytes = download;
  traffic_calibration_bytes = some provider;
  traffic_calibration_proxy_bytes = some proxy_used;
  traffic_calibrated_at = some now;
  updated_at = now;
}

-- The update of the row, and the read of it.
unfoldable pub store_calibration : ℕ → ℕ → ℕ → ℕ → ℕ → ℕ → Db → Result (Node × Db)
store_calibration node provider now start upload download db = elim (checked_add upload download) [
  | none ↦ err internal
  | some proxy_used ↦
      let db' = record db {
        nodes =
            update (is_node node) (calibrate_row start upload download provider proxy_used now)
              db.nodes;
      } in
      get_node node db' >>= λ n. ok (n, db')
]

-- `providerUsedBytes` is a number that the handler has found to be non-negative.
unfoldable pub calibrate_node_traffic : ℕ → ℕ → Time → Db → Result (Node × Db)
calibrate_node_traffic node provider now db = elim (find (is_live_node node) db.nodes) [
  | none ↦ err not_found
  | some n ↦
      let start = traffic_cycle_start now n.traffic_reset_day in
      traffic_cycle_totals node start (traffic_cycle_next_start start n.traffic_reset_day) db
      >>= λ (upload, download).
          store_calibration node provider (unix_milli now) (unix_milli start) upload download db
]

-- What has been used never reads as more than an int64, for counters that are int64 values.
pub effective_used_le :
    (n : Node)
    → n.traffic_cycle_download_bytes ≤ max_int64
    → effective_node_traffic_used n ≤ max_int64
unfolding effective_node_traffic_used
effective_used_le n h = ground arith

-- A calibrated node reads as the provider's count plus what was proxied since, cut off at the
-- largest int64.
pub effective_used_after :
    (n : Node) (start upload download provider now more_upload more_download : ℕ)
    → provider ≤ max_int64
    → upload + more_upload + (download + more_download) ≤ max_int64
    → effective_node_traffic_used
        (record (calibrate_row start upload download provider (upload + download) now n) {
          traffic_cycle_upload_bytes = upload + more_upload;
          traffic_cycle_download_bytes = download + more_download;
        })
      ≡ min max_int64 (provider + (more_upload + more_download))
unfolding effective_node_traffic_used
effective_used_after n start upload download provider now more_upload more_download h k =
    ground arith

-- The row that `find` gives after an update through the identifier.
live_after :
    (node : ℕ) (f : Node → Node) (db : Db) (n : Node)
    → ((x : Node) → is_live_node node (f x) ≡ is_live_node node x)
    → find (is_live_node node) db.nodes ≡ some n
    → find (is_live_node node) (update (is_node node) f db.nodes) ≡ some (f n)
live_after node f db n keep e =
    let hit = find_holds (is_live_node node) db.nodes e in
    rw (find-update (is_live_node node) (is_node node) f keep db.nodes, e) (ground arith)

calibrated_effective :
    (n : Node) (start upload download provider proxy_used now : ℕ)
    → checked_add upload download ≡ some proxy_used
    → provider ≤ max_int64
    → effective_node_traffic_used (calibrate_row start upload download provider proxy_used now n)
      ≡ provider
unfolding effective_node_traffic_used
calibrated_effective n start upload download provider proxy_used now e h = ground arith

stored :
    (node provider now start upload download : ℕ) (db db' : Db) (n n' : Node)
    → provider ≤ max_int64
    → find (is_live_node node) db.nodes ≡ some n
    → store_calibration node provider now start upload download db ≡ ok (n', db')
    → (effective_node_traffic_used n' ≡ provider)
      × (find (is_live_node node) db'.nodes ≡ some n')
      × (db'.batches ≡ db.batches)
      × (db'.users ≡ db.users)
unfolding store_calibration get_node
stored node provider now start upload download db db' n n' h e done =
    elim (Option-cases (checked_add upload download)) [
      | inl over ↦ absurd (ground arith)
      | inr (proxy, sum) ↦ ground (
        arith,
        live_after node (calibrate_row start upload download provider proxy now) db n (λ x. refl) e,
        calibrated_effective n start upload download provider proxy now sum h,
      )
    ]

-- A calibration reads back as the provider's count, and leaves the batches and the users alone.
pub calibrate_reads_back :
    (node provider : ℕ) (now : Time) (db db' : Db) (n' : Node)
    → provider ≤ max_int64
    → calibrate_node_traffic node provider now db ≡ ok (n', db')
    → (effective_node_traffic_used n' ≡ provider)
      × (find (is_live_node node) db'.nodes ≡ some n')
      × (db'.batches ≡ db.batches)
      × (db'.users ≡ db.users)
unfolding calibrate_node_traffic
calibrate_reads_back node provider now db db' n' h done =
    elim (Option-cases (find (is_live_node node) db.nodes)) [
      | inl e ↦ absurd (ground arith)
      | inr (n, e) ↦
          let start = traffic_cycle_start now n.traffic_reset_day in
          let next = traffic_cycle_next_start start n.traffic_reset_day in
          let parts =
            >>=-eq-ok (traffic_cycle_totals node start next db) _
              (rw (e, calibrate_node_traffic) at done) in
          stored node provider (unix_milli now) (unix_milli start) parts.0.0 parts.0.1 db db' n n' h
            e parts.2
    ]
