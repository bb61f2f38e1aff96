-- ===== src/Agent/Deltas.antt =====
-- What `recordTrafficSample` of internal/agent/local_store.go puts into the outbox.
use poly_fleet.Base.{
  ℕ, ◌+◌, ◌≡◌, refl, ap, Bool, true, false, ◌&&◌, ◌||◌, not, none, some, List, [], ◌∷◌, ◌==◌, ltb,
  if◌then◌else◌, ok, >>=-eq-ok, find, exists, select, count, total, length, All, eq_refl, arith,
}
use poly_fleet.Calendar.{Time, unix_milli}
use poly_fleet.Store.Traffic.Account.{TrafficBatch}
use poly_fleet.Agent.Sample.{
  TrafficCounters, Baseline, LocalStore, has_user, is_baseline, by_user, has_restarted, previous_of,
  sample_items, make_batches, rotate_counter_epoch, rotate_restarted, sample_deltas,
  sample_counters, record_traffic_sample,
}
use poly_fleet.Agent.Conserves.{
  Direction, uploaded, downloaded, share, Distinct, Distinct-tail, Distinct-head, counter_bytes,
  outbox_bytes, counted_before, sample_items-total, make_batches_bytes, by_user-total,
  by_user-count,
}

-- What the baselines hold of the user's bytes, which is nothing where a counter has fallen behind
-- them.
unfoldable pub counted : ℕ → Direction → List Baseline → TrafficCounters → ℕ
counted k way bs c = elim (find (is_baseline c.user_id) bs) [
  | none ↦ 0
  | some b ↦
      if ltb c.tx b.tx_bytes || ltb c.rx b.rx_bytes
      then 0
      else share k way c.user_id b.tx_bytes b.rx_bytes
]

-- Another epoch of the counters voids the baselines.
abbrev epoch_changed : List ℕ → LocalStore → Bool
epoch_changed [] l = false
epoch_changed (epoch ∷ epochs) l = not (epoch == 0) && not (l.counter_epoch == epoch)

abbrev pub known_baselines : List ℕ → LocalStore → List Baseline
known_baselines epochs l = if epoch_changed epochs l then [] else l.baselines

All-others :
    (k : ℕ) (cs : List TrafficCounters)
    → count (has_user k) cs ≡ 0
    → All (λ x. (x.user_id == k) ≡ false) cs
unfolding count
All-others k [] h = tt
All-others k (c ∷ cs) h = (ground arith, All-others k cs (ground arith))

exists_unselected :
    (p : TrafficCounters → Bool) (k : ℕ) (cs : List TrafficCounters)
    → count (has_user k) cs ≡ 0
    → exists (has_user k) (select p cs) ≡ false
unfolding count exists select
exists_unselected p k [] h = refl
exists_unselected p k (c ∷ cs) h = ground (arith, exists_unselected p k cs)

abbrev Told : (TrafficCounters → Bool) → List TrafficCounters → List TrafficCounters → Type 0
Told p restarted = All (λ x. exists (has_user x.user_id) restarted ≡ p x)

Told-cons :
    (p : TrafficCounters → Bool) (c : TrafficCounters) (restarted cs : List TrafficCounters)
    → All (λ x. (x.user_id == c.user_id) ≡ false) cs
    → Told p restarted cs
    → Told p (if p c then c ∷ restarted else restarted) cs
unfolding exists
Told-cons p c restarted [] o h = tt
Told-cons p c restarted (x ∷ cs) o h =
    (ground (arith, o.0, h.0), Told-cons p c restarted cs o.1 h.1)

-- The users that are found to have restarted are those.
restarted-Told :
    (p : TrafficCounters → Bool) (cs : List TrafficCounters) → Distinct cs → Told p (select p cs) cs
unfolding select exists
restarted-Told p [] d = tt
restarted-Told p (c ∷ cs) d =
    let alone = Distinct-head c cs d in
    (
      ground (arith, eq_refl c.user_id, exists_unselected p c.user_id cs alone),
      Told-cons p c (select p cs) cs (All-others c.user_id cs alone)
          (restarted-Told p cs (Distinct-tail c cs d)),
    )

share_zero : (k : ℕ) (way : Direction) (user : ℕ) → share k way user 0 0 ≡ 0
share_zero k uploaded user = ground arith
share_zero k downloaded user = ground arith

counted-Told :
    (k : ℕ) (way : Direction) (bs : List Baseline) (restarted cs : List TrafficCounters)
    → Told (has_restarted bs) restarted cs
    → total (counted_before k way restarted bs) cs ≡ total (counted k way bs) cs
unfolding total previous_of counted has_restarted
counted-Told k way bs restarted [] t = refl
counted-Told k way bs restarted (c ∷ cs) t =
    ground (arith, t.0, share_zero k way c.user_id, counted-Told k way bs restarted cs t.1)

module _ (new_id : ℕ → ℕ) (valid_uuid : ℕ → Bool) (user : ℕ) (way : Direction) where
  rotate_restarted_outbox :
      (restarted : List TrafficCounters) (l : LocalStore)
      → outbox_bytes user way (rotate_restarted new_id valid_uuid restarted l)
        ≡ outbox_bytes user way l
  rotate_restarted_outbox [] l = refl
  rotate_restarted_outbox (c ∷ cs) l = refl

  sample_deltas_bytes :
      (installation : ℕ) (cs : List TrafficCounters) (sampled_at : Time) (created_at : ℕ)
      (l l' : LocalStore) (batches : List TrafficBatch)
      → Distinct cs
      → sample_deltas new_id valid_uuid installation cs sampled_at created_at l ≡ ok (batches, l')
      → outbox_bytes user way l' + total (counted user way l.baselines) cs
        ≡ outbox_bytes user way l + total (counter_bytes user way) cs
  unfolding sample_deltas
  sample_deltas_bytes installation cs sampled_at created_at l l' batches d h =
      let restarted = select (has_restarted l.baselines) cs in
      let ((items, bs), e, rest) =
        >>=-eq-ok (sample_items restarted cs (unix_milli sampled_at) l.baselines) _ h in
      let l1 = record (rotate_restarted new_id valid_uuid restarted l) { baselines = bs } in
      let ((more, l2), e2, rest2) =
        >>=-eq-ok
          (make_batches new_id (length items) installation l1.next_sequence sampled_at created_at
            items l1)
          _ rest in
      let made =
        make_batches_bytes user way new_id (length items) installation l1.next_sequence sampled_at
          created_at items l1 l2 more (ground arith) e2 in
      let deltas =
        sample_items-total user way restarted cs (unix_milli sampled_at) l.baselines bs items d e in
      let told =
        counted-Told user way l.baselines restarted cs
          (restarted-Told (has_restarted l.baselines) cs d) in
      let same : outbox_bytes user way l2 ≡ outbox_bytes user way l' = ground arith in
      let kept = rotate_restarted_outbox restarted l in
      omega (arith, made, deltas, told, same, kept)

  sample_counters_bytes :
      (installation : ℕ) (cs : List TrafficCounters) (sampled_at : Time) (created_at : ℕ)
      (l l' : LocalStore) (batches : List TrafficBatch)
      → Distinct cs
      → l.initialized ≡ true
      → sample_counters new_id valid_uuid installation cs sampled_at created_at l ≡ ok (batches, l')
      → outbox_bytes user way l' + total (counted user way l.baselines) cs
        ≡ outbox_bytes user way l + total (counter_bytes user way) cs
  unfolding sample_counters
  sample_counters_bytes installation cs sampled_at created_at l l' batches d on h =
      sample_deltas_bytes installation cs sampled_at created_at l l' batches d (ground arith)

  rotate_known :
      (epochs : List ℕ) (l l' : LocalStore)
      → l.initialized ≡ true
      → rotate_counter_epoch new_id valid_uuid epochs l ≡ ok l'
      → (l'.initialized ≡ true)
        × (l'.baselines ≡ known_baselines epochs l)
        × (outbox_bytes user way l' ≡ outbox_bytes user way l)
  unfolding rotate_counter_epoch
  rotate_known [] l l' on h = ground arith
  rotate_known (epoch ∷ []) l l' on h = ground arith
  rotate_known (epoch ∷ other ∷ epochs) l l' on h = absurd (ground arith)

  -- A sample of an initialised store, for counters that name each user once, puts into the outbox for
  -- every user, and for uploaded and downloaded bytes alike, what the user's counter holds beyond what
  -- the baselines hold, where baselines are void after another epoch of the counters and a user's
  -- baseline is void where a counter has fallen behind it: the user's bytes in the outbox rise by the
  -- difference.
  pub sample_conserves :
      (installation : ℕ) (counters : List TrafficCounters) (sampled_at : Time) (epochs : List ℕ)
      (created_at : ℕ) (l l' : LocalStore) (batches : List TrafficBatch)
      → Distinct counters
      → l.initialized ≡ true
      → record_traffic_sample new_id valid_uuid installation counters sampled_at epochs created_at l
        ≡ ok (batches, l')
      → outbox_bytes user way l' + total (counted user way (known_baselines epochs l)) counters
        ≡ outbox_bytes user way l + total (counter_bytes user way) counters
  unfolding record_traffic_sample
  sample_conserves installation counters sampled_at epochs created_at l l' batches d on done =
      let (l1, e, rest) = >>=-eq-ok (rotate_counter_epoch new_id valid_uuid epochs l) _ done in
      let known = rotate_known epochs l l1 on e in
      let grown =
        sample_counters_bytes installation (by_user counters) sampled_at created_at l1 l' batches
          (λ k. rw (by_user-count (has_user k) counters) (d k)) known.0 rest in
      let before = ap (λ bs. total (counted user way bs) counters) known.1 in
      omega (
        arith,
        grown,
        known.2,
        before,
        by_user-total (counted user way l1.baselines) counters,
        by_user-total (counter_bytes user way) counters,
      )
