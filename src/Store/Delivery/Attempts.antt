-- ===== src/Store/Delivery/Attempts.antt =====
-- How often `RecordNotificationDelivery` of internal/store/notification.go attempts a delivery.
use poly_fleet.Base.{
  ℕ, zero, suc, ◌+◌, ◌≤◌, ◌≡◌, refl, subst, inl, inr, Bool, true, false, Option, none, some, List,
  [], ◌∷◌, if◌then◌else◌, Result, ok, err, conflict, find, exists, find-All, find_holds, All,
  All-update_where, Bool-cases, arith,
}
use poly_fleet.Schema.{Text, Db, Delivery}
use poly_fleet.Store.Delivery.{
  is_open, delays, delay_at, delivered_row, failed_row, record_failure,
  record_notification_delivery,
}

-- A delivery that is still to be attempted has been attempted at least `k` times, and at most five.
abbrev pub Within : ℕ → ℕ → Delivery → Type 0
Within id k d = is_open id d ≡ true → (k ≤ d.attempt_count) × (d.attempt_count ≤ 5)

delay_at_bound : (k delay : ℕ) → delay_at delays k ≡ some delay → k ≤ 4
delay_at_bound zero delay h = ground arith
delay_at_bound (suc zero) delay h = ground arith
delay_at_bound (suc (suc zero)) delay h = ground arith
delay_at_bound (suc (suc (suc zero))) delay h = ground arith
delay_at_bound (suc (suc (suc (suc zero)))) delay h = ground arith
delay_at_bound (suc (suc (suc (suc (suc k))))) delay h = absurd (ground arith)

failed_row-Within :
    (id k count code : ℕ) (message : Text) (now : ℕ) (d : Delivery) (o : Option ℕ)
    → delay_at delays count ≡ o
    → k ≤ count
    → Within id (k + 1) (failed_row o count code message now d)
failed_row-Within id k count code message now d none e le on = absurd (ground arith)
failed_row-Within id k count code message now d (some delay) e le on =
    let few = delay_at_bound count delay e in (omega (arith, le), omega (arith, few))

record_failure-Within :
    (id k code : ℕ) (message : Text) (now : ℕ) (db db' : Db) (o : Option Delivery)
    → find (is_open id) db.deliveries ≡ o
    → record_failure id code message now db o ≡ ok db'
    → All (Within id k) db.deliveries
    → (k ≤ 5) × All (Within id (k + 1)) db'.deliveries
record_failure-Within id k code message now db db' none e h within = absurd (ground arith)
record_failure-Within id k code message now db db' (some d) e h within =
    let (low, high) =
      find-All (Within id k) (is_open id) db.deliveries e within
        (find_holds (is_open id) db.deliveries e) in
    let is : ◌≡◌ {A = Db} _ db' = ok_is h in
    (
      omega (arith, low, high),
      subst (λ (x : Db). All (Within id (k + 1)) x.deliveries) is
          (All-update_where (Within id (k + 1)) (is_open id) _
            (λ x hit. failed_row-Within id k d.attempt_count code message now x _ refl low)
            (λ x miss on. absurd (ground arith)) db.deliveries),
    )
  where
    ok_is : {x y : Db} → ◌≡◌ {A = Result Db} (ok x) (ok y) → x ≡ y
    ok_is h = ground arith

exists-Within :
    (id k : ℕ) (ds : List Delivery) → exists (is_open id) ds ≡ true → All (Within id k) ds → k ≤ 5
unfolding exists
exists-Within id k [] e within = absurd (ground arith)
exists-Within id k (d ∷ ds) e within = elim (Bool-cases (is_open id d)) [
  | inl on ↦ let (low, high) = within.0 on in omega (arith, low, high)
  | inr shut ↦ exists-Within id k ds (rw (shut, exists) at e) within.1
]

past_open :
    (b : Bool) (x : Db) {db : Db}
    → (if b then ok x else err conflict) ≡ ok db
    → (b ≡ true) × (x ≡ db)
past_open b x h = ground arith

record-Within :
    (id : ℕ) (delivered : Bool) (k code : ℕ) (message : Text) (now : ℕ) (db db' : Db)
    → record_notification_delivery id delivered code message now db ≡ ok db'
    → All (Within id k) db.deliveries
    → (k ≤ 5) × All (Within id (k + 1)) db'.deliveries
unfolding record_notification_delivery
record-Within id true k code message now db db' h within =
    let (there, is) = past_open (exists (is_open id) db.deliveries) _ h in
    (
      exists-Within id k db.deliveries there within,
      subst (λ (x : Db). All (Within id (k + 1)) x.deliveries) is
          (All-update_where (Within id (k + 1)) (is_open id) (delivered_row code now)
            (λ x hit on. absurd (ground arith)) (λ x miss on. absurd (ground arith)) db.deliveries),
    )
record-Within id false k code message now db db' h within =
    record_failure-Within id k code _ now db db' _ refl h within

-- Attempts of one delivery that are recorded, one after the other.
pub data Attempts (id : ℕ) : ℕ → Db → Db → Type 0 where
  rest : {db : Db} → Attempts id 0 db db
  attempt :
      (n : ℕ) (a b : Db) {c : Db} (delivered : Bool) (code : ℕ) (message : Text) (now : ℕ)
      → record_notification_delivery id delivered code message now a ≡ ok b
      → Attempts id n b c
      → Attempts id (n + 1) a c

Attempts-Within :
    (id k n : ℕ) (a c : Db)
    → Attempts id n a c
    → All (Within id k) a.deliveries
    → k ≤ 6
    → (k + n ≤ 6) × All (Within id (k + n)) c.deliveries
Attempts-Within id k n a c rest within few =
    (omega (arith, few), subst (λ m. All (Within id m) a.deliveries) (omega arith) within)
Attempts-Within id k n a c (attempt m a' b delivered code message now h more) within few =
    let (now_few, next) = record-Within id delivered k code message now a' b h within in
    let (bound, last) = Attempts-Within id (k + 1) m b c more next (omega (arith, now_few)) in
    (omega (arith, bound), subst (λ l. All (Within id l) c.deliveries) (omega arith) last)

from_zero :
    (id : ℕ) (ds : List Delivery)
    → All (λ (d : Delivery). is_open id d ≡ true → d.attempt_count ≤ 5) ds
    → All (Within id 0) ds
from_zero id [] h = tt
from_zero id (d ∷ ds) h = ((λ on. (omega arith, h.0 on)), from_zero id ds h.1)

-- Where a delivery that is still to be attempted has not been attempted more than five times, at most
-- six attempts of a delivery are recorded one after the other, whatever their outcomes; after `n` of
-- them it has been attempted at least `n` and at most five times if it is still to be attempted.
pub Attempts-end :
    (id n : ℕ) (db db' : Db)
    → All (λ (d : Delivery). is_open id d ≡ true → d.attempt_count ≤ 5) db.deliveries
    → Attempts id n db db'
    → (n ≤ 6) × All (Within id n) db'.deliveries
Attempts-end id n db db' few attempts =
    let (bound, last) =
      Attempts-Within id 0 n db db' attempts (from_zero id db.deliveries few) (omega arith) in
    (omega (arith, bound), subst (λ l. All (Within id l) db'.deliveries) (omega arith) last)
