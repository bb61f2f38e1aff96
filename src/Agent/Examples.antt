-- ===== src/Agent/Examples.antt =====
-- A local store that samples two users, one of whose counters have started again, and its kicks.
use poly_fleet.Base.{
  ℕ, ◌+◌, ◌≡◌, refl, max, Bool, true, List, [], ◌∷◌, Result, ok, err, find, exists, select, count,
  total, arith,
}
use poly_fleet.Calendar.{Time, date, is_leap, unix_milli, year_days, month_days}
use poly_fleet.Store.Traffic.Account.{TrafficBatch}
use poly_fleet.Agent.Sample.{
  TrafficCounters, LocalStore, write_baseline, insert_by_user, by_user, has_restarted, previous_of,
  sample_items, insert_outbox, make_batches, rotate_counter_epoch, sample_deltas, sample_counters,
  record_traffic_sample,
}
use poly_fleet.Agent.Conserves.{uploaded, downloaded, Distinct, counter_bytes, outbox_bytes}
use poly_fleet.Agent.Deltas.{counted, known_baselines, sample_conserves}
use poly_fleet.Agent.Kicks.{
  DesiredKick, KickStore, applied_generation, upsert_kick_row, queue_kicks, mark_kicks_applied,
}
use poly_fleet.Agent.Reached.{asked_generation, reached, queue_kicks-reached, mark_kicks_reached}

abbrev new_id : ℕ → ℕ
new_id n = n + 500

abbrev any_uuid : ℕ → Bool
any_uuid n = true

abbrev noon : Time
noon = record { year = 2026; month = 8; day = 13; milli = 43200000 }

abbrev local : LocalStore
local = record {
  source_epoch = 9;
  next_sequence = 4;
  initialized = true;
  counter_epoch = 0;
  baselines =
      record { user_id = 2; tx_bytes = 100; rx_bytes = 50; updated_at = 0 }
      ∷ record { user_id = 3; tx_bytes = 80; rx_bytes = 80; updated_at = 0 }
      ∷ [];
  outbox = [];
  drawn = 0;
}

-- User 3 has started again.
abbrev counters : List TrafficCounters
counters = record { user_id = 3; tx = 5; rx = 6 } ∷ record { user_id = 2; tx = 130; rx = 50 } ∷ []

abbrev sample : Result (List TrafficBatch × LocalStore)
sample = record_traffic_sample new_id any_uuid 7 counters noon [] 1 local

abbrev sampled_of : Result (List TrafficBatch × LocalStore) → List TrafficBatch × LocalStore
sampled_of (ok x) = x
sampled_of (err e) = ([], local)

sampled : List TrafficBatch × LocalStore
unfolding record_traffic_sample rotate_counter_epoch sample_counters sample_deltas by_user
    insert_by_user has_restarted previous_of sample_items write_baseline make_batches insert_outbox
    find exists select unix_milli date is_leap year_days month_days
sampled = sampled_of sample

sampled_ok : sample ≡ ok sampled
unfolding sampled
sampled_ok = refl

-- 30 bytes of user 2, 5 and 6 of user 3, under a new epoch.
sampled_bytes :
    (outbox_bytes 2 uploaded sampled.1 ≡ 30)
    × (outbox_bytes 3 uploaded sampled.1 ≡ 5)
    × (outbox_bytes 3 downloaded sampled.1 ≡ 6)
    × (sampled.1.source_epoch ≡ 500)
unfolding sampled total
sampled_bytes = (refl, refl, refl, refl)

distinct : Distinct counters
unfolding count
distinct k = ground arith

sample_conserves_example :
    outbox_bytes 2 uploaded sampled.1
      + total (counted 2 uploaded (known_baselines [] local)) counters
    ≡ outbox_bytes 2 uploaded local + total (counter_bytes 2 uploaded) counters
sample_conserves_example =
    sample_conserves new_id any_uuid 2 uploaded 7 counters noon [] 1 local sampled.1 sampled.0
      distinct refl sampled_ok

abbrev kicks : List DesiredKick
kicks = record { user_id = 2; generation = 3 } ∷ record { user_id = 5; generation = 1 } ∷ []

abbrev empty : KickStore
empty = record { states = []; outbox = [] }

abbrev kicks_of : Result KickStore → KickStore
kicks_of (ok s) = s
kicks_of (err e) = empty

queued : KickStore
unfolding queue_kicks upsert_kick_row applied_generation
queued = kicks_of (queue_kicks kicks 10 empty)

queued_ok : queue_kicks kicks 10 empty ≡ ok queued
unfolding queued
queued_ok = refl

queue_kicks-reached_example : reached 2 queued ≡ max (asked_generation 2 kicks) (reached 2 empty)
queue_kicks-reached_example = queue_kicks-reached kicks 10 2 empty queued queued_ok

mark_kicks_reached_example :
    reached 5 (mark_kicks_applied kicks 20 queued)
    ≡ max (asked_generation 5 kicks) (reached 5 queued)
mark_kicks_reached_example = mark_kicks_reached kicks 20 5 queued
