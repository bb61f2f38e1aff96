-- ===== src/Agent/Sample.antt =====
-- `recordTrafficSample`, `deleteTrafficOutbox`, `recordTrafficFailure` and `primeTrafficBaseline` of
-- internal/agent/local_store.go. Counters are non-negative. `cryptoutil.NewID` is the function
-- `new_id` of the number of identifiers drawn so far, `uuid.Parse` succeeds where `valid_uuid` holds,
-- and 0 is the empty text.
use poly_fleet.Base.{
  ℕ, zero, suc, ◌+◌, ◌-◌, Bool, true, false, ◌&&◌, ◌||◌, not, Option, none, some, List, [], ◌∷◌,
  ◌==◌, leb, ltb, if◌then◌else◌, Result, ok, err, internal, ◌>>=◌, find, exists, select, update,
  delete, take, drop, length,
}
use poly_fleet.Calendar.{Time, unix_milli}
use poly_fleet.Schema.{Text}
use poly_fleet.Store.Traffic.Account.{TrafficDelta, TrafficBatch}

pub record TrafficCounters : Type 0 where
  pub user_id : ℕ
  pub tx : ℕ
  pub rx : ℕ

pub record Baseline : Type 0 where
  pub user_id : ℕ
  pub tx_bytes : ℕ
  pub rx_bytes : ℕ
  pub updated_at : ℕ

pub record OutboxRow : Type 0 where
  pub batch : TrafficBatch
  pub attempt_count : ℕ
  pub last_attempt_at : Option ℕ
  pub last_error_code : Text
  pub created_at : ℕ

-- The tables usage_runtime, usage_baselines and traffic_outbox.
pub record LocalStore : Type 0 where
  pub source_epoch : ℕ
  pub next_sequence : ℕ
  pub initialized : Bool
  pub counter_epoch : ℕ
  pub baselines : List Baseline
  pub outbox : List OutboxRow
  pub drawn : ℕ

abbrev pub has_user : ℕ → TrafficCounters → Bool
has_user k c = c.user_id == k

abbrev pub is_baseline : ℕ → Baseline → Bool
is_baseline k b = b.user_id == k

-- INSERT ... ON CONFLICT(user_id) DO UPDATE
unfoldable pub write_baseline : TrafficCounters → ℕ → List Baseline → List Baseline
write_baseline c now [] =
    record { user_id = c.user_id; tx_bytes = c.tx; rx_bytes = c.rx; updated_at = now } ∷ []
write_baseline c now (b ∷ bs) =
    let rest = write_baseline c now bs in
    if b.user_id == c.user_id
    then record b { tx_bytes = c.tx; rx_bytes = c.rx; updated_at = now } ∷ bs
    else b ∷ rest

unfoldable pub write_baselines : List TrafficCounters → ℕ → List Baseline → List Baseline
write_baselines [] now bs = bs
write_baselines (c ∷ cs) now bs = write_baselines cs now (write_baseline c now bs)

-- The user of a baseline is not the empty text.
unfoldable pub prime_traffic_baseline : TrafficCounters → ℕ → LocalStore → Result LocalStore
prime_traffic_baseline c now l =
    if c.user_id == 0
    then err internal
    else ok (record l { baselines = write_baseline c now l.baselines })

unfoldable pub insert_by_user : TrafficCounters → List TrafficCounters → List TrafficCounters
insert_by_user c [] = c ∷ []
insert_by_user c (x ∷ xs) = if leb c.user_id x.user_id then c ∷ x ∷ xs else x ∷ insert_by_user c xs

unfoldable pub by_user : List TrafficCounters → List TrafficCounters
by_user [] = []
by_user (c ∷ cs) = insert_by_user c (by_user cs)

-- A counter that has fallen behind its baseline.
unfoldable pub has_restarted : List Baseline → TrafficCounters → Bool
has_restarted bs c = elim (find (is_baseline c.user_id) bs) [
  | none ↦ false
  | some b ↦ ltb c.tx b.tx_bytes || ltb c.rx b.rx_bytes
]

unfoldable pub previous_of : List TrafficCounters → List Baseline → TrafficCounters → ℕ × ℕ
previous_of restarted bs c =
    if exists (has_user c.user_id) restarted
    then (0, 0)
    else (elim (find (is_baseline c.user_id) bs) [
      | none ↦ (0, 0)
      | some b ↦ (b.tx_bytes, b.rx_bytes)
    ])

-- The item of a user, unless it is empty.
abbrev pub add_item : ℕ → ℕ → ℕ → List TrafficDelta → List TrafficDelta
add_item user upload download items =
    if (upload == 0) && (download == 0)
    then items
    else record { user_id = user; upload_bytes = upload; download_bytes = download } ∷ items

unfoldable pub sample_items :
    List TrafficCounters
    → List TrafficCounters
    → ℕ
    → List Baseline
    → Result (List TrafficDelta × List Baseline)
sample_items restarted [] now bs = ok ([], bs)
sample_items restarted (c ∷ cs) now bs =
    let (tx, rx) = previous_of restarted bs c in
    sample_items restarted cs now (write_baseline c now bs) >>= λ (items, bs').
    if ltb c.tx tx || ltb c.rx rx
    then err internal
    else ok (add_item c.user_id (c.tx - tx) (c.rx - rx) items, bs')

abbrev pub max_traffic_items_per_batch : ℕ
max_traffic_items_per_batch = 1000

module _ (new_id : ℕ → ℕ) where
  -- `id` is unique, and so is (source_epoch, sequence).
  unfoldable pub insert_outbox : TrafficBatch → ℕ → LocalStore → Result LocalStore
  insert_outbox batch created_at l =
      if exists
        (λ (r : OutboxRow).
          (r.batch.id == batch.id)
          || ((r.batch.source_epoch == batch.source_epoch) && (r.batch.sequence == batch.sequence)))
        l.outbox
      then err internal
      else ok (record l {
        outbox =
            record {
              batch = batch;
              attempt_count = 0;
              last_attempt_at = none;
              last_error_code = [];
              created_at = created_at;
            }
            ∷ l.outbox;
        drawn = suc l.drawn;
      })

  abbrev pub batch_of : ℕ → ℕ → Time → List TrafficDelta → LocalStore → TrafficBatch
  batch_of installation sequence sampled_at items l = record {
    id = new_id l.drawn;
    installation_id = installation;
    source_epoch = l.source_epoch;
    sequence = sequence;
    sampled_at = sampled_at;
    items = take max_traffic_items_per_batch items;
  }

  -- The loop over the items, with fuel for one item each.
  unfoldable pub make_batches :
      ℕ
      → ℕ
      → ℕ
      → Time
      → ℕ
      → List TrafficDelta
      → LocalStore
      → Result (List TrafficBatch × LocalStore)
  make_batches fuel installation sequence sampled_at created_at [] l = ok ([], l)
  make_batches zero installation sequence sampled_at created_at (i ∷ items) l = ok ([], l)
  make_batches (suc fuel) installation sequence sampled_at created_at (i ∷ items) l =
      let batch = batch_of installation sequence sampled_at (i ∷ items) l in
      insert_outbox batch created_at l >>= λ l'.
      make_batches fuel installation (sequence + 1) sampled_at created_at
        (drop max_traffic_items_per_batch (i ∷ items)) l'
      >>= λ (batches, l''). ok (batch ∷ batches, l'')

  module _ (valid_uuid : ℕ → Bool) where
    -- The argument `counterEpoch` is variadic.
    unfoldable pub rotate_counter_epoch : List ℕ → LocalStore → Result LocalStore
    rotate_counter_epoch [] l = ok l
    rotate_counter_epoch (epoch ∷ []) l =
        if epoch == 0
        then ok l
        else if not (valid_uuid epoch)
        then err internal
        else if not (l.counter_epoch == epoch) && l.initialized
        then ok (record l {
          source_epoch = new_id l.drawn;
          next_sequence = 1;
          counter_epoch = epoch;
          baselines = [];
          drawn = suc l.drawn;
        })
        else if l.counter_epoch == 0
        then ok (record l { counter_epoch = epoch })
        else ok l
    rotate_counter_epoch (epoch ∷ other ∷ epochs) l = err internal

    abbrev pub rotate_restarted : List TrafficCounters → LocalStore → LocalStore
    rotate_restarted [] l = l
    rotate_restarted (c ∷ cs) l = record l {
      source_epoch = new_id l.drawn;
      next_sequence = 1;
      drawn = suc l.drawn;
    }

    -- The deltas of counters whose baselines are known, with the users in order.
    unfoldable pub sample_deltas :
        ℕ → List TrafficCounters → Time → ℕ → LocalStore → Result (List TrafficBatch × LocalStore)
    sample_deltas installation cs sampled_at created_at l =
        let restarted = select (has_restarted l.baselines) cs in
        sample_items restarted cs (unix_milli sampled_at) l.baselines >>= λ (items, bs).
        let l' = record (rotate_restarted restarted l) { baselines = bs } in
        make_batches (length items) installation l'.next_sequence sampled_at created_at items l'
        >>= λ (batches, l'').
            ok (batches, record l'' { next_sequence = l'.next_sequence + length batches })

    -- From the reads of the baselines on.
    unfoldable pub sample_counters :
        ℕ → List TrafficCounters → Time → ℕ → LocalStore → Result (List TrafficBatch × LocalStore)
    sample_counters installation cs sampled_at created_at l =
        if l.initialized
        then sample_deltas installation cs sampled_at created_at l
        else ok (
          [],
          record l {
            baselines = write_baselines cs (unix_milli sampled_at) l.baselines;
            initialized = true;
          },
        )

    unfoldable pub record_traffic_sample :
        ℕ
        → List TrafficCounters
        → Time
        → List ℕ
        → ℕ
        → LocalStore
        → Result (List TrafficBatch × LocalStore)
    record_traffic_sample installation counters sampled_at epochs created_at l =
        rotate_counter_epoch epochs l >>= λ l'.
        sample_counters installation (by_user counters) sampled_at created_at l'

abbrev pub is_outbox : ℕ → OutboxRow → Bool
is_outbox id r = r.batch.id == id

unfoldable pub delete_traffic_outbox : ℕ → LocalStore → LocalStore
delete_traffic_outbox id l = record l { outbox = delete (is_outbox id) l.outbox }

unfoldable pub record_traffic_failure : ℕ → Text → ℕ → LocalStore → LocalStore
record_traffic_failure id code now l = record l {
  outbox =
      update (is_outbox id)
        (λ r. record r {
          attempt_count = r.attempt_count + 1;
          last_attempt_at = some now;
          last_error_code = take 64 code;
        })
        l.outbox;
}
