-- ===== src/Budget/Examples.antt =====
-- Days of 2026 at which the cycle functions are run.
use poly_fleet.Base.{ℕ, ◌≡◌, ◌<◌, ◌≤◌, ◌↔◌, refl, true, false, min, arith}
use poly_fleet.Calendar.{Time, IsValid, days_in, is_leap, carry_month, before, date, previous_month}
use poly_fleet.Budget.{
  traffic_cycle_start, traffic_cycle_next_start, traffic_cycle_boundary, clamp_reset_day,
}
use poly_fleet.Budget.Cycle.{boundary, Overflows, IsMonth, cycle_start_future_iff}
use poly_fleet.Budget.Next.{cycle_next_start_least, cycle_next_start_skips}

abbrev on : ℕ → ℕ → Time
on m d = record { year = 2026; month = m; day = d; milli = 0 }

-- The four days of the source's own test, one of them in a leap year.
source_test :
    (traffic_cycle_start (record (on 2 28) { milli = 43200000 }) 31 ≡ on 2 28)
    × (traffic_cycle_start (record (on 2 27) { milli = 43200000 }) 31 ≡ on 1 31)
    × (traffic_cycle_start (record (on 8 13) { milli = 3600000 }) 10 ≡ on 8 10)
    × (traffic_cycle_start (record { year = 2028; month = 2; day = 29; milli = 3600000 }) 31
        ≡ record { year = 2028; month = 2; day = 29; milli = 0 })
unfolding traffic_cycle_start clamp_reset_day traffic_cycle_boundary previous_month date days_in
    carry_month before is_leap
source_test = (refl, refl, refl, refl)

march-IsValid : IsValid (on 3 29)
unfolding days_in is_leap
march-IsValid = omega arith

march-Overflows : Overflows (on 3 29)
unfolding days_in is_leap
march-Overflows = omega arith

-- On 29 March 2026 a node with reset day 31 is in a cycle that has not begun.
cycle_start_future_iff_example :
    (before (on 3 29) (traffic_cycle_start (on 3 29) 31) ≡ true) ↔ (Overflows (on 3 29) × (29 < 31))
cycle_start_future_iff_example = cycle_start_future_iff (on 3 29) 31 march-IsValid (omega arith)

july_august : before (boundary 2026 7 31) (boundary 2026 8 31) ≡ true
unfolding before days_in
july_august = refl

july_fits : min 31 (days_in 2026 7) ≤ days_in 2026 8
unfolding days_in
july_fits = omega arith

cycle_next_start_least_example :
    ((y : ℕ) × (m : ℕ) × IsMonth m
      × (traffic_cycle_next_start (boundary 2026 7 31) 31 ≡ boundary y m 31))
    × (before (boundary 2026 7 31) (traffic_cycle_next_start (boundary 2026 7 31) 31) ≡ true)
    × (before (boundary 2026 8 31) (traffic_cycle_next_start (boundary 2026 7 31) 31) ≡ false)
cycle_next_start_least_example =
    cycle_next_start_least 2026 7 31 (omega arith) (omega arith) (omega arith) july_fits 2026 8
      (omega arith) july_august

january_over : days_in 2026 2 < min 31 (days_in 2026 1)
unfolding days_in is_leap
january_over = omega arith

-- The cycle from 31 January 2026 is taken to end on 31 March, past the boundary of 28 February.
cycle_next_start_skips_example :
    (before (boundary 2026 1 31) (boundary 2026 2 31) ≡ true)
    × (before (boundary 2026 2 31) (traffic_cycle_next_start (boundary 2026 1 31) 31) ≡ true)
cycle_next_start_skips_example =
    cycle_next_start_skips 2026 1 31 (omega arith) (omega arith) (omega arith) january_over
