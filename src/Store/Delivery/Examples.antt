-- ===== src/Store/Delivery/Examples.antt =====
-- A delivery that fails once and succeeds then.
use poly_fleet.Base.{
  ◌≡◌, ◌≤◌, refl, true, false, some, none, [], ◌∷◌, ok, err, conflict, All, find, exists, update,
  arith,
}
use poly_fleet.Schema.{Db, Delivery, DeliveryStatus, EventType, bytes}
use poly_fleet.Store.Fixtures.{start}
use poly_fleet.Store.Delivery.{record_notification_delivery}
use poly_fleet.Store.Delivery.Attempts.{Within, rest, attempt, Attempts-end}

abbrev delivery : Delivery
delivery = record {
  id = 70;
  notifier_id = 1;
  alert_id = 2;
  event_type = EventType.created;
  status = DeliveryStatus.queued;
  attempt_count = 0;
  next_attempt_at = 5;
  last_error = [];
  response_code = 0;
  delivered_at = none;
  created_at = 5;
  updated_at = 5;
}

abbrev waiting : Db
waiting = record start { deliveries = delivery ∷ [] }

abbrev failed_once : Db
failed_once = record start {
  deliveries =
      record delivery {
        status = DeliveryStatus.retry;
        attempt_count = 1;
        next_attempt_at = 60010;
        last_error = bytes "no";
        response_code = 500;
        updated_at = 10;
      }
      ∷ [];
}

abbrev arrived : Db
arrived = record start {
  deliveries =
      record delivery {
        status = DeliveryStatus.delivered;
        attempt_count = 2;
        next_attempt_at = 60010;
        last_error = [];
        response_code = 200;
        delivered_at = some 60020;
        updated_at = 60020;
      }
      ∷ [];
}

fails : record_notification_delivery 70 false 500 (bytes "no") 10 waiting ≡ ok failed_once
unfolding record_notification_delivery find update
fails = refl

arrives : record_notification_delivery 70 true 200 [] 60020 failed_once ≡ ok arrived
unfolding record_notification_delivery exists update
arrives = refl

-- What has arrived is not recorded again.
arrived_once : record_notification_delivery 70 true 200 [] 60030 arrived ≡ err conflict
unfolding record_notification_delivery exists
arrived_once = refl

Attempts-end_example : (2 ≤ 6) × All (Within 70 2) arrived.deliveries
Attempts-end_example =
    Attempts-end 70 2 waiting arrived ((λ on. omega arith), tt)
      (attempt 1 waiting failed_once false 500 (bytes "no") 10 fails
        (attempt 0 failed_once arrived true 200 [] 60020 arrives rest))
