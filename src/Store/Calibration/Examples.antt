-- ===== src/Store/Calibration/Examples.antt =====
-- A calibration of the node of the fixtures at 850 bytes.
use poly_fleet.Base.{
  ◌+◌, ◌≡◌, refl, min, max_int64, some, [], ◌∷◌, ok, find, select, total, update, arith,
}
use poly_fleet.Calendar.{
  is_leap, days_in, carry_month, date, next_month, previous_month, before, year_days, month_days,
  unix_milli,
}
use poly_fleet.Budget.{
  traffic_cycle_boundary, clamp_reset_day, traffic_cycle_start, traffic_cycle_next_start,
}
use poly_fleet.Schema.{Db, Node, is_live_node}
use poly_fleet.Store.Fixtures.{node, start, noon}
use poly_fleet.Store.Traffic.Account.{checked_add}
use poly_fleet.Store.Traffic.NodeTotals.{traffic_cycle_totals}
use poly_fleet.Store.Calibration.{
  effective_node_traffic_used, get_node, calibrate_row, store_calibration, calibrate_node_traffic,
  effective_used_after, calibrate_reads_back,
}

abbrev calibrated : Node
calibrated = calibrate_row 1786320000000 0 0 850 0 1786622400000 node

abbrev after : Db
after = record start { nodes = calibrated ∷ [] }

done : calibrate_node_traffic 1 850 noon start ≡ ok (calibrated, after)
unfolding calibrate_node_traffic store_calibration get_node find select total update checked_add
    traffic_cycle_totals traffic_cycle_start traffic_cycle_next_start traffic_cycle_boundary
    clamp_reset_day date carry_month days_in is_leap next_month previous_month before unix_milli
    year_days month_days
done = refl

calibrate_reads_back_example :
    (effective_node_traffic_used calibrated ≡ 850)
    × (find (is_live_node 1) after.nodes ≡ some calibrated)
    × (after.batches ≡ start.batches)
    × (after.users ≡ start.users)
calibrate_reads_back_example =
    calibrate_reads_back 1 850 noon start after calibrated (omega arith) done

effective_used_after_example :
    effective_node_traffic_used (record (calibrate_row 5 300 500 850 (300 + 500) 6 node) {
      traffic_cycle_upload_bytes = 300 + 20;
      traffic_cycle_download_bytes = 500 + 30;
    })
    ≡ min max_int64 (850 + (20 + 30))
effective_used_after_example =
    effective_used_after node 5 300 500 850 6 20 30 (omega arith) (omega arith)
