-- ===== src/Store/Traffic/Examples.antt =====
-- A node with one assigned user, and the batches that its Agent reports.
use poly_fleet.Base.{
  ℕ, ◌+◌, ◌≡◌, refl, map, ◌==◌, true, none, [], ◌∷◌, Result, ok, find, exists, update, select,
  count, total, arith,
}
use poly_fleet.Calendar.{
  Time, date, is_leap, days_in, carry_month, next_month, previous_month, before, year_days,
  month_days, unix_milli,
}
use poly_fleet.Budget.{
  traffic_cycle_boundary, clamp_reset_day, traffic_cycle_start, traffic_cycle_next_start,
}
use poly_fleet.Schema.{Db, User, Node, limited}
use poly_fleet.Store.Fixtures.{start, agent, noon}
use poly_fleet.Store.Snapshot.{
  insert_snapshot, bump_node_snapshot, mark_assignment_pending, insert_sorted, sorted, add_user,
  add_changed_assignment, users_of, mark_users, bump_nodes, bump_changed_assignments,
}
use poly_fleet.Store.Kick.{upsert_kick, request_kick}
use poly_fleet.Store.Traffic.Account.{
  TrafficBatch, checked_add, quota_state_of, classify_traffic_item, upsert_total, charge,
  add_accounted_traffic, batch_totals, insert_item, leave_unattributed, account_item, account_items,
}
use poly_fleet.Store.Traffic.NodeTotals.{traffic_cycle_totals, cycle_counters, add_node_traffic}
use poly_fleet.Store.Traffic.Quota.{
  user_quota_rows, quota_rows_of, effective_quota_states, apply_transitions,
}
use poly_fleet.Store.Traffic.Conservation.{
  HasKeys, user_bytes, assignment_bytes, unattributed_bytes, batch_bytes,
}
use poly_fleet.Store.Traffic.Ingest.{
  ingest_conserves, ingest_replay, ingest_id_conflict, ingest_sequence_conflict,
}
use poly_fleet.Store.Traffic.Balance.{Balanced, ingest-Balanced}
use poly_fleet.Store.Traffic.{
  settle, record_batch, ingest_tx, ingest_traffic_batch, IngestStatus, accepted, duplicate,
  rejected, batch_id_conflict, sequence_conflict,
}

abbrev sampled : Time
sampled = record { year = 2026; month = 8; day = 11; milli = 0 }

-- User 2 passes the limit of 900 bytes; user 9 is unknown.
abbrev report : TrafficBatch
report = record {
  id = 100;
  installation_id = 7;
  source_epoch = 5;
  sequence = 1;
  sampled_at = sampled;
  items =
      record { user_id = 2; upload_bytes = 300; download_bytes = 500 }
      ∷ record { user_id = 9; upload_bytes = 1; download_bytes = 2 }
      ∷ [];
}

-- A fingerprint that tells the batches of these examples apart.
abbrev fingerprint : TrafficBatch → ℕ
fingerprint b = b.id + b.sequence

received : Result IngestStatus × Db
unfolding ingest_traffic_batch ingest_tx record_batch settle batch_totals account_items account_item
    insert_item leave_unattributed checked_add quota_state_of classify_traffic_item upsert_total
    charge add_accounted_traffic traffic_cycle_totals cycle_counters add_node_traffic
    user_quota_rows quota_rows_of effective_quota_states apply_transitions upsert_kick request_kick
    insert_snapshot bump_node_snapshot mark_assignment_pending insert_sorted sorted add_user
    add_changed_assignment users_of mark_users bump_nodes bump_changed_assignments find exists
    update select count total traffic_cycle_boundary clamp_reset_day traffic_cycle_start
    traffic_cycle_next_start date is_leap days_in carry_month next_month previous_month before
    year_days month_days unix_milli
received = ingest_traffic_batch fingerprint agent report noon start

received_lem :
    (user_bytes received.1 ≡ 950)
    × (unattributed_bytes received.1 ≡ 3)
    × (count (λ k. true) received.1.kicks ≡ 1)
    × (map (λ (u : User). u.quota_state) received.1.users ≡ limited ∷ [])
    × (map (λ (n : Node). n.desired_version) received.1.nodes ≡ 2 ∷ [])
unfolding received
received_lem = (refl, refl, refl, refl, refl)

done : ingest_traffic_batch fingerprint agent report noon start ≡ (ok accepted, received.1)
unfolding received
done = refl

keys : HasKeys start
unfolding count
keys = record {
  users = λ k. ground arith;
  assignments = λ n k. ground arith;
  nodes = λ k. ground arith;
}

ingest_conserves_example :
    (user_bytes received.1 + unattributed_bytes received.1
      ≡ user_bytes start + unattributed_bytes start + batch_bytes report.items)
    × (assignment_bytes received.1 + unattributed_bytes received.1
        ≡ assignment_bytes start + unattributed_bytes start + batch_bytes report.items)
ingest_conserves_example = ingest_conserves fingerprint agent report noon start keys received.1 done

ingest_replay_example :
    ingest_traffic_batch fingerprint agent report noon received.1 ≡ (ok duplicate, received.1)
ingest_replay_example = ingest_replay fingerprint agent report noon start keys received.1 done noon

-- The same identifier, with another sequence and so another fingerprint.
abbrev forged : TrafficBatch
forged = record report { sequence = 2 }

ingest_id_conflict_example :
    ingest_traffic_batch fingerprint agent forged noon received.1
    ≡ (ok (rejected batch_id_conflict), received.1)
ingest_id_conflict_example =
    ingest_id_conflict fingerprint agent report noon start keys received.1 done forged noon refl
      refl (omega arith)

-- Another identifier with the same sequence.
abbrev rival : TrafficBatch
rival = record report { id = 101 }

rival_new : find (λ b. b.id == 101) received.1.batches ≡ none
unfolding received
rival_new = refl

ingest_sequence_conflict_example :
    ingest_traffic_batch fingerprint agent rival noon received.1
    ≡ (ok (rejected sequence_conflict), received.1)
ingest_sequence_conflict_example =
    ingest_sequence_conflict fingerprint agent report noon start keys received.1 done rival noon
      refl rival_new refl refl

balanced : Balanced start
unfolding quota_state_of
balanced = record {
  users = (record { sum = refl; fits = omega arith; state = refl }, tt);
  assignments = (record { sum = refl; fits = omega arith; state = refl }, tt);
}

ingest-Balanced_example : Balanced received.1
ingest-Balanced_example =
    ingest-Balanced fingerprint agent report noon start received.1 (omega arith) keys balanced done
