-- ===== src/Budget/Next.antt =====
-- `trafficCycleNextStart` of traffic_budget.go from one boundary to the next.
use poly_fleet.Base.{
  ℕ, ◌≤◌, ◌<◌, ◌≡◌, true, false, min, ltb, if◌then◌else◌, Bool-cases, inl, inr, arith,
}
use poly_fleet.Calendar.{
  days_in, before, IsValid, days_in_bounds, forth, next_month_lem, next_month_overflow,
}
use poly_fleet.Budget.{traffic_cycle_next_start}
use poly_fleet.Budget.Cycle.{boundary, boundary_lem, IsMonth, IsResetDay}

boundary-IsValid : (y m d : ℕ) → 1970 ≤ y → IsMonth m → IsResetDay d → IsValid (boundary y m d)
boundary-IsValid y m d h k r = record {
  year_ge = h;
  month_pos = k.0;
  month_le = k.1;
  day_pos = ground (arith, days_in_bounds y m);
  day_le = omega arith;
  milli_lt = omega arith;
}

module _ (y m d : ℕ) (since : 1970 ≤ y) (k : IsMonth m) (r : IsResetDay d) where
  forth_ok : IsMonth (forth y m).1
  forth_ok = ground arith

  forth-forth_ok : IsMonth (forth (forth y m).0 (forth y m).1).1
  forth-forth_ok = ground arith

  -- The next start after a boundary is the boundary of the following month where that month has
  -- the day of the month on which the cycle started. Otherwise that month is skipped.
  pub cycle_next_start_lem : traffic_cycle_next_start (boundary y m d) d ≡ (
      if ltb (days_in (forth y m).0 (forth y m).1) (min d (days_in y m))
      then boundary (forth (forth y m).0 (forth y m).1).0 (forth (forth y m).0 (forth y m).1).1 d
      else boundary (forth y m).0 (forth y m).1 d)
  unfolding traffic_cycle_next_start
  cycle_next_start_lem =
      elim (Bool-cases (ltb (days_in (forth y m).0 (forth y m).1) (min d (days_in y m)))) [
        | inl over ↦
            rw
              (
                over,
                next_month_overflow (boundary y m d) (boundary-IsValid y m d since k r)
                    (ground arith),
              )
              (boundary_lem _ _ d forth-forth_ok r.0)
        | inr fits ↦
            rw
              (
                fits,
                next_month_lem (boundary y m d) (boundary-IsValid y m d since k r) (ground arith),
              )
              (boundary_lem _ _ d forth_ok r.0)
      ]

  -- A cycle that starts on a day that the following month has ends at the least later boundary: its
  -- end is the boundary of some month, is later than its start, and no boundary lies between the two.
  pub cycle_next_start_least :
      min d (days_in y m) ≤ days_in (forth y m).0 (forth y m).1
      → (y' m' : ℕ) → IsMonth m'
      → before (boundary y m d) (boundary y' m' d) ≡ true
      → ((y'' : ℕ) × (m'' : ℕ) × IsMonth m''
          × (traffic_cycle_next_start (boundary y m d) d ≡ boundary y'' m'' d))
        × (before (boundary y m d) (traffic_cycle_next_start (boundary y m d) d) ≡ true)
        × (before (boundary y' m' d) (traffic_cycle_next_start (boundary y m d) d) ≡ false)
  unfolding before
  cycle_next_start_least fits y' m' k' e =
      let at : traffic_cycle_next_start (boundary y m d) d
          ≡ boundary (forth y m).0 (forth y m).1 d =
        rw cycle_next_start_lem (ground arith) in
      (((forth y m).0, (forth y m).1, forth_ok, at), rw at (ground arith), rw at (ground arith))

  -- A cycle that starts on a day that the following month lacks swallows the boundary of that
  -- month: it lies after the start and before the computed end.
  pub cycle_next_start_skips :
      days_in (forth y m).0 (forth y m).1 < min d (days_in y m)
      → (before (boundary y m d) (boundary (forth y m).0 (forth y m).1 d) ≡ true)
        × (before
              (boundary (forth y m).0 (forth y m).1 d)
              (traffic_cycle_next_start (boundary y m d) d)
            ≡ true)
  unfolding before
  cycle_next_start_skips over = rw cycle_next_start_lem (ground arith, ground arith)
