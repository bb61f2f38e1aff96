-- ===== src/Agent/Conserves.antt =====
-- Where the bytes of counters go in `recordTrafficSample` of internal/agent/local_store.go.
use poly_fleet.Base.{
  ℕ, zero, suc, ◌+◌, ◌-◌, ◌≤◌, ◌≡◌, refl, subst, Bool, false, ◌||◌, List, [], ◌∷◌, ◌==◌, ltb,
  if◌then◌else◌, Result, ok, err, internal, >>=-eq-ok, find, count, total, take, drop, length,
  eq_refl, arith,
}
use poly_fleet.Calendar.{Time}
use poly_fleet.Store.Traffic.Account.{TrafficDelta, TrafficBatch}
use poly_fleet.Agent.Sample.{
  TrafficCounters, Baseline, OutboxRow, LocalStore, has_user, is_baseline, write_baseline,
  insert_by_user, by_user, previous_of, add_item, sample_items, insert_outbox, batch_of,
  make_batches,
}

pub data Direction : Type 0 where
  uploaded downloaded : Direction

-- The bytes of one direction, if they are the user's.
abbrev pub share : ℕ → Direction → ℕ → ℕ → ℕ → ℕ
share k uploaded user upload download = if user == k then upload else 0
share k downloaded user upload download = if user == k then download else 0

abbrev pub item_bytes : ℕ → Direction → TrafficDelta → ℕ
item_bytes k way i = share k way i.user_id i.upload_bytes i.download_bytes

-- A counter sends what its user uploads.
abbrev pub counter_bytes : ℕ → Direction → TrafficCounters → ℕ
counter_bytes k way c = share k way c.user_id c.tx c.rx

abbrev pub row_bytes : ℕ → Direction → OutboxRow → ℕ
row_bytes k way r = total (item_bytes k way) r.batch.items

abbrev pub outbox_bytes : ℕ → Direction → LocalStore → ℕ
outbox_bytes k way l = total (row_bytes k way) l.outbox

-- What has been counted before: the baseline, or nothing after a restart of the counters.
abbrev pub counted_before :
    ℕ → Direction → List TrafficCounters → List Baseline → TrafficCounters → ℕ
counted_before k way restarted bs c =
    share k way c.user_id (previous_of restarted bs c).0 (previous_of restarted bs c).1

find-write_other :
    (c : TrafficCounters) (now k : ℕ) (bs : List Baseline)
    → (c.user_id == k) ≡ false
    → find (is_baseline k) (write_baseline c now bs) ≡ find (is_baseline k) bs
unfolding find write_baseline
find-write_other c now k [] h = ground arith
find-write_other c now k (b ∷ bs) h = ground (arith, find-write_other c now k bs h)

counted_before-write :
    (k : ℕ) (way : Direction) (restarted : List TrafficCounters) (c : TrafficCounters) (now : ℕ)
    (bs : List Baseline) (x : TrafficCounters)
    → (c.user_id == x.user_id) ≡ false
    → counted_before k way restarted (write_baseline c now bs) x
      ≡ counted_before k way restarted bs x
unfolding previous_of
counted_before-write k way restarted c now bs x h = rw (find-write_other c now x.user_id bs h) refl

total_before-write :
    (k : ℕ) (way : Direction) (restarted : List TrafficCounters) (c : TrafficCounters) (now : ℕ)
    (bs : List Baseline) (cs : List TrafficCounters)
    → count (has_user c.user_id) cs ≡ 0
    → total (counted_before k way restarted (write_baseline c now bs)) cs
      ≡ total (counted_before k way restarted bs) cs
unfolding total count
total_before-write k way restarted c now bs [] h = refl
total_before-write k way restarted c now bs (x ∷ cs) h = ground (
  arith,
  counted_before-write k way restarted c now bs x,
  total_before-write k way restarted c now bs cs,
)

-- The keys of a map.
abbrev pub Distinct : List TrafficCounters → Type 0
Distinct cs = (k : ℕ) → count (has_user k) cs ≤ 1

pub Distinct-tail :
    (c : TrafficCounters) (cs : List TrafficCounters) → Distinct (c ∷ cs) → Distinct cs
unfolding count
Distinct-tail c cs h k = ground (arith, h k)

pub Distinct-head :
    (c : TrafficCounters) (cs : List TrafficCounters)
    → Distinct (c ∷ cs)
    → count (has_user c.user_id) cs ≡ 0
unfolding count
Distinct-head c cs h = ground (arith, h c.user_id, eq_refl c.user_id)

add_item_bytes :
    (k : ℕ) (way : Direction) (user upload download : ℕ) (items : List TrafficDelta)
    → total (item_bytes k way) (add_item user upload download items)
      ≡ share k way user upload download + total (item_bytes k way) items
unfolding total
add_item_bytes k way user upload download items = ground arith

item_step :
    (k : ℕ) (way : Direction) (user tx rx before_tx before_rx : ℕ) (more items : List TrafficDelta)
    (bs bs' : List Baseline)
    → ◌≡◌ {A = Result (List TrafficDelta × List Baseline)}
        (if ltb tx before_tx || ltb rx before_rx
          then err internal
          else ok (add_item user (tx - before_tx) (rx - before_rx) more, bs))
        (ok (items, bs'))
    → total (item_bytes k way) items + share k way user before_tx before_rx
      ≡ share k way user tx rx + total (item_bytes k way) more
item_step k way user tx rx before_tx before_rx more items bs bs' h =
    ground (arith, add_item_bytes k way user (tx - before_tx) (rx - before_rx) more)

pub sample_items-total :
    (k : ℕ) (way : Direction) (restarted cs : List TrafficCounters) (now : ℕ)
    (bs bs' : List Baseline) (items : List TrafficDelta)
    → Distinct cs
    → sample_items restarted cs now bs ≡ ok (items, bs')
    → total (item_bytes k way) items + total (counted_before k way restarted bs) cs
      ≡ total (counter_bytes k way) cs
unfolding sample_items total
sample_items-total k way restarted [] now bs bs' items d h = ground arith
sample_items-total k way restarted (c ∷ cs) now bs bs' items d h =
    let ((more, bs1), e, rest) =
      >>=-eq-ok (sample_items restarted cs now (write_baseline c now bs)) _ h in
    let here =
      item_step k way c.user_id c.tx c.rx (previous_of restarted bs c).0
        (previous_of restarted bs c).1 more items bs1 bs' rest in
    let later =
      sample_items-total k way restarted cs now (write_baseline c now bs) bs1 more
        (Distinct-tail c cs d) e in
    let kept = total_before-write k way restarted c now bs cs (Distinct-head c cs d) in
    omega (arith, here, later, kept)

insert_outbox_bytes :
    (k : ℕ) (way : Direction) (new_id : ℕ → ℕ) (batch : TrafficBatch) (created_at : ℕ)
    (l l' : LocalStore)
    → insert_outbox new_id batch created_at l ≡ ok l'
    → outbox_bytes k way l' ≡ outbox_bytes k way l + total (item_bytes k way) batch.items
unfolding insert_outbox total
insert_outbox_bytes k way new_id batch created_at l l' h = ground arith

take-drop-total :
    (k : ℕ) (way : Direction) (n : ℕ) (items : List TrafficDelta)
    → total (item_bytes k way) (take n items) + total (item_bytes k way) (drop n items)
      ≡ total (item_bytes k way) items
unfolding total
take-drop-total k way zero items = ground arith
take-drop-total k way (suc n) [] = ground arith
take-drop-total k way (suc n) (i ∷ items) = ground (arith, take-drop-total k way n items)

length-drop : (n : ℕ) (items : List TrafficDelta) → length (drop n items) ≤ length items
length-drop zero items = ground arith
length-drop (suc n) [] = ground arith
length-drop (suc n) (i ∷ items) = ground (arith, length-drop n items)

pub make_batches_bytes :
    (k : ℕ) (way : Direction) (new_id : ℕ → ℕ) (fuel installation sequence : ℕ) (sampled_at : Time)
    (created_at : ℕ) (items : List TrafficDelta) (l l' : LocalStore) (batches : List TrafficBatch)
    → length items ≤ fuel
    → make_batches new_id fuel installation sequence sampled_at created_at items l
      ≡ ok (batches, l')
    → outbox_bytes k way l' ≡ outbox_bytes k way l + total (item_bytes k way) items
unfolding make_batches total
make_batches_bytes k way new_id fuel installation sequence sampled_at created_at [] l l' batches f
      h =
    ground arith
make_batches_bytes k way new_id zero installation sequence sampled_at created_at (i ∷ items) l l'
      batches f h =
    absurd (ground arith)
make_batches_bytes k way new_id (suc fuel) installation sequence sampled_at created_at (i ∷ items) l
      l' batches f h =
    let batch = batch_of new_id installation sequence sampled_at (i ∷ items) l in
    let (l1, e, rest) = >>=-eq-ok (insert_outbox new_id batch created_at l) _ h in
    let ((more, l2), e2, rest2) =
      >>=-eq-ok
        (make_batches new_id fuel installation (sequence + 1) sampled_at created_at
          (drop 1000 (i ∷ items)) l1)
        _ rest in
    let here = insert_outbox_bytes k way new_id batch created_at l l1 e in
    let later =
      make_batches_bytes k way new_id fuel installation (sequence + 1) sampled_at created_at
        (drop 1000 (i ∷ items)) l1 l2 more (ground (arith, length-drop 999 items)) e2 in
    let parts = take-drop-total k way 1000 (i ∷ items) in
    let same : l2 ≡ l' = ground arith in
    subst (λ x. outbox_bytes k way x ≡ outbox_bytes k way l + total (item_bytes k way) (i ∷ items))
      same (omega (arith, here, later, parts))

-- The order of the users.
insert_by_user-total :
    (g : TrafficCounters → ℕ) (c : TrafficCounters) (cs : List TrafficCounters)
    → total g (insert_by_user c cs) ≡ g c + total g cs
unfolding total insert_by_user
insert_by_user-total g c [] = refl
insert_by_user-total g c (x ∷ cs) = ground (arith, insert_by_user-total g c cs)

pub by_user-total :
    (g : TrafficCounters → ℕ) (cs : List TrafficCounters) → total g (by_user cs) ≡ total g cs
unfolding total by_user
by_user-total g [] = refl
by_user-total g (c ∷ cs) = ground (arith, insert_by_user-total g c (by_user cs), by_user-total g cs)

insert_by_user-count :
    (q : TrafficCounters → Bool) (c : TrafficCounters) (cs : List TrafficCounters)
    → count q (insert_by_user c cs) ≡ count q (c ∷ cs)
unfolding count insert_by_user
insert_by_user-count q c [] = refl
insert_by_user-count q c (x ∷ cs) = ground (arith, insert_by_user-count q c cs)

pub by_user-count :
    (q : TrafficCounters → Bool) (cs : List TrafficCounters) → count q (by_user cs) ≡ count q cs
unfolding count by_user
by_user-count q [] = refl
by_user-count q (c ∷ cs) = ground (arith, insert_by_user-count q c (by_user cs), by_user-count q cs)
