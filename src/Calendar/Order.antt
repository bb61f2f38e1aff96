-- ===== src/Calendar/Order.antt =====
-- The order `before` on times.
use poly_fleet.Base.{◌≡◌, true, false, arith, ℕ, ltb}
use poly_fleet.Calendar.{Time, before}

module _ (s t : Time) where
  pub before_irrefl : before s s ≡ false
  unfolding before
  before_irrefl = ground arith

  pub before_asymm : before s t ≡ true → before t s ≡ false
  unfolding before
  before_asymm h = ground arith

-- Midnight of a day of the same month is later exactly when the day is.
pub before_same_month :
    (t : Time) (d : ℕ)
    → before t (record { year = t.year; month = t.month; day = d; milli = 0 }) ≡ ltb t.day d
unfolding before
before_same_month t d = ground arith
