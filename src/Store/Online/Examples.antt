-- ===== src/Store/Online/Examples.antt =====
-- A report of one known user and one unknown user.
use poly_fleet.Base.{◌≡◌, refl, true, [], ◌∷◌, Bool, Result, ok, err, find, exists, update, delete}
use poly_fleet.Schema.{Db}
use poly_fleet.Store.Fixtures.{start, agent}
use poly_fleet.Store.Online.{
  OnlineSnapshotRequest, insert_online, tally_users, upsert_snapshot, replace_online,
  record_online_snapshot,
}
use poly_fleet.Store.Online.Shows.{Shows, online_replaces}

abbrev report : OnlineSnapshotRequest
report = record {
  snapshot_id = 60;
  installation_id = 7;
  sampled_at = 500;
  users = record { user_id = 2; connections = 3 } ∷ record { user_id = 8; connections = 1 } ∷ [];
}

abbrev db_of : Result (Bool × Db) → Db
db_of (ok x) = x.1
db_of (err e) = start

shown : Db
unfolding record_online_snapshot replace_online tally_users insert_online upsert_snapshot find
    exists update delete
shown = db_of (record_online_snapshot agent report 510 start)

shown_ok : record_online_snapshot agent report 510 start ≡ ok (true, shown)
unfolding shown
shown_ok = refl

online_replaces_example : Shows agent report 510 start shown
online_replaces_example = online_replaces agent report 510 start shown shown_ok
