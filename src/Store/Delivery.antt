-- ===== src/Store/Delivery.antt =====
-- `RecordNotificationDelivery` of internal/store/notification.go. Times are in milliseconds.
pub mod Attempts
mod Examples
use poly_fleet.Base.{
  ℕ, zero, suc, ◌+◌, ◌*◌, Bool, true, false, ◌&&◌, Option, none, some, List, [], ◌∷◌, ◌==◌,
  if◌then◌else◌, Result, ok, err, conflict, find, exists, update, take,
}
use poly_fleet.Schema.{Text, Db, Delivery, DeliveryStatus}

abbrev waits : DeliveryStatus → Bool
waits DeliveryStatus.queued = true
waits DeliveryStatus.retry = true
waits DeliveryStatus.delivered = false
waits DeliveryStatus.failed = false

-- `id = ? AND status IN ('queued', 'retry')`
abbrev pub is_open : ℕ → Delivery → Bool
is_open id d = (d.id == id) && waits d.status

abbrev pub minutes : ℕ → ℕ
minutes k = k * 60000

abbrev pub delays : List ℕ
delays = minutes 1 ∷ minutes 5 ∷ minutes 30 ∷ minutes 120 ∷ minutes 360 ∷ []

abbrev pub delay_at : List ℕ → ℕ → Option ℕ
delay_at [] k = none
delay_at (x ∷ xs) zero = some x
delay_at (x ∷ xs) (suc k) = delay_at xs k

abbrev pub delivered_row : ℕ → ℕ → Delivery → Delivery
delivered_row code now d = record d {
  status = DeliveryStatus.delivered;
  attempt_count = d.attempt_count + 1;
  response_code = code;
  last_error = [];
  delivered_at = some now;
  updated_at = now;
}

-- After an attempt that follows `count` others there is a delay, or it was the last one.
abbrev pub failed_row : Option ℕ → ℕ → ℕ → Text → ℕ → Delivery → Delivery
failed_row none count code message now d = record d {
  status = DeliveryStatus.failed;
  attempt_count = count + 1;
  next_attempt_at = now;
  response_code = code;
  last_error = message;
  updated_at = now;
}
failed_row (some delay) count code message now d = record d {
  status = DeliveryStatus.retry;
  attempt_count = count + 1;
  next_attempt_at = now + delay;
  response_code = code;
  last_error = message;
  updated_at = now;
}

abbrev pub record_failure : ℕ → ℕ → Text → ℕ → Db → Option Delivery → Result Db
record_failure id code message now db none = err conflict
record_failure id code message now db (some d) = ok (record db {
  deliveries =
      update (is_open id)
        (failed_row (delay_at delays d.attempt_count) d.attempt_count code message now)
        db.deliveries;
})

unfoldable pub record_notification_delivery : ℕ → Bool → ℕ → Text → ℕ → Db → Result Db
record_notification_delivery id true code message now db =
    if exists (is_open id) db.deliveries
    then ok (record db { deliveries = update (is_open id) (delivered_row code now) db.deliveries })
    else err conflict
record_notification_delivery id false code message now db =
    record_failure id code (take 512 message) now db (find (is_open id) db.deliveries)
