-- ===== src/Budget/Cycle.antt =====
-- The cycle functions of traffic_budget.go against the calendar's boundaries: in each month the
-- reset day, or the month's last day where the month is shorter.
use poly_fleet.Base.{
  ℕ, ◌≤◌, ◌<◌, ◌≡◌, refl, ◌↔◌, ◌⊎◌, inl, inr, Bool, true, false, min, ltb, ◌&&◌, ◌==◌,
  if◌then◌else◌, Bool-cases, arith,
}
use poly_fleet.Calendar.{
  Time, date_lem, date_last_day, days_in, before, back, previous_month_lem, previous_month_overflow,
  IsValid, days_in_bounds, days_in_ge, days_in_march,
}
use poly_fleet.Calendar.Order.{before_same_month}
use poly_fleet.Budget.{traffic_cycle_boundary, clamp_reset_day, traffic_cycle_start}

-- Midnight of the reset day, or of the month's last day.
abbrev pub boundary : ℕ → ℕ → ℕ → Time
boundary y m d = record { year = y; month = m; day = min d (days_in y m); milli = 0 }

abbrev pub IsMonth : ℕ → Type 0
IsMonth m = (1 ≤ m) × (m ≤ 12)

abbrev pub IsResetDay : ℕ → Type 0
IsResetDay d = (1 ≤ d) × (d ≤ 31)

pub boundary_lem : (y m d : ℕ) → IsMonth m → 1 ≤ d → traffic_cycle_boundary y m d ≡ boundary y m d
unfolding traffic_cycle_boundary
boundary_lem y m d h k =
    rw (date_last_day y m h)
      (ground (arith, days_in_bounds y m, date_lem y m (min d (days_in y m)) 0 h))

pub clamp_lem : (d : ℕ) → IsResetDay d → clamp_reset_day d ≡ d
unfolding clamp_reset_day
clamp_lem d h = ground arith

-- A day that the month before does not have: 29 or 30 March, after a February without it.
abbrev pub Overflows : Time → Type 0
Overflows at = (at.month ≡ 3) × (days_in at.year 2 < at.day)

fits_back :
    (at : Time) (d : ℕ)
    → IsValid at
    → IsResetDay d
    → (Overflows at → ⊥)
    → at.day < d
    → at.day ≤ days_in (back at.year at.month).0 (back at.year at.month).1
fits_back at d v r no_overflow h = elim (Bool-cases (at.month == 3)) [
  | inl march ↦ fits march (Bool-cases (ltb (days_in at.year 2) at.day))
  | inr other ↦ ground (arith, days_in_ge (back at.year at.month).0 (back at.year at.month).1)
]
  where
    fits :
        (at.month == 3) ≡ true
        → (ltb (days_in at.year 2) at.day ≡ true) ⊎ (ltb (days_in at.year 2) at.day ≡ false)
        → at.day ≤ days_in (back at.year at.month).0 (back at.year at.month).1
    fits march (inl over) = absurd (no_overflow (ground arith, ground arith))
    fits march (inr under) = let e : at.month ≡ 3 = ground arith in rw e (ground arith)

module _ (at : Time) (d : ℕ) (v : IsValid at) (r : IsResetDay d) where
  month_ok : IsMonth at.month
  month_ok = (v.month_pos, v.month_le)

  back_ok : IsMonth (back at.year at.month).1
  back_ok = ground (arith, v.month_pos)

  pub cycle_start_lem :
      (Overflows at → ⊥)
      → traffic_cycle_start at d ≡ (
          if ltb at.day (min d (days_in at.year at.month))
          then boundary (back at.year at.month).0 (back at.year at.month).1 d
          else boundary at.year at.month d)
  unfolding traffic_cycle_start
  cycle_start_lem no_overflow =
      rw
        (
          clamp_lem d r,
          boundary_lem at.year at.month d month_ok r.0,
          before_same_month at (min d (days_in at.year at.month)),
        )
        (elim (Bool-cases (ltb at.day (min d (days_in at.year at.month)))) [
          | inl early ↦
              rw (early, previous_month_lem at v (fits_back at d v r no_overflow (ground arith)))
                (boundary_lem _ _ d back_ok r.0)
          | inr late ↦ rw late
        ])

  -- On 29 or 30 March the boundary of the cycle of February is missed.
  pub cycle_start_overflow :
      Overflows at → at.day < d → traffic_cycle_start at d ≡ boundary at.year 3 d
  unfolding traffic_cycle_start
  cycle_start_overflow (e, over) h =
      rw
        (
          clamp_lem d r,
          boundary_lem at.year at.month d month_ok r.0,
          before_same_month at (min d (days_in at.year at.month)),
        )
        (elim (Bool-cases (ltb at.day (min d (days_in at.year at.month)))) [
          | inl early ↦
              rw (early, previous_month_overflow at v e over)
                (boundary_lem at.year 3 d (omega arith, omega arith) r.0)
          | inr late ↦ rw (late, e)
        ])

  start_on_boundary :
      (b : Bool)
      → (y : ℕ) × (m : ℕ) × IsMonth m
        × ((if b
              then boundary (back at.year at.month).0 (back at.year at.month).1 d
              else boundary at.year at.month d)
            ≡ boundary y m d)
  start_on_boundary true = ((back at.year at.month).0, (back at.year at.month).1, back_ok, refl)
  start_on_boundary false = (at.year, at.month, month_ok, refl)

  start_not_after :
      before at (
        if ltb at.day (min d (days_in at.year at.month))
        then boundary (back at.year at.month).0 (back at.year at.month).1 d
        else boundary at.year at.month d)
      ≡ false
  unfolding before
  start_not_after = ground (arith, v.year_ge)

  pub cycle_start_bounds :
      ¬ Overflows at
      → ((y : ℕ) × (m : ℕ) × IsMonth m × (traffic_cycle_start at d ≡ boundary y m d))
        × (before at (traffic_cycle_start at d) ≡ false)
  cycle_start_bounds no_overflow =
      rw (cycle_start_lem no_overflow)
        (start_on_boundary (ltb at.day (min d (days_in at.year at.month))), start_not_after)

  future_when_overflow : Overflows at → at.day < d → before at (boundary at.year 3 d) ≡ true
  unfolding before
  future_when_overflow o h = ground (arith, days_in_march at.year)

  overflow_dec : (Overflows at) ⊎ (¬ Overflows at)
  overflow_dec = elim (Bool-cases ((at.month == 3) && ltb (days_in at.year 2) at.day)) [
    | inl e ↦ inl (ground arith, ground arith)
    | inr e ↦ inr (λ o. ground (arith, o.0, o.1))
  ]

  not_after_when_late : d ≤ at.day → before at (traffic_cycle_start at d) ≡ false
  unfolding traffic_cycle_start
  not_after_when_late h =
      let e : ltb at.day (min d (days_in at.year at.month)) ≡ false = ground arith in
      let s = before_same_month at (min d (days_in at.year at.month)) in
      rw (clamp_lem d r, boundary_lem at.year at.month d month_ok r.0, s, e) (rw s e)

  early_of_future : before at (traffic_cycle_start at d) ≡ true → at.day < d
  early_of_future e = ground (arith, not_after_when_late)

  -- The start of the cycle lies in the future exactly on 29 or 30 March after a February that
  -- lacks that day, when the reset day is later in the month.
  pub cycle_start_future_iff :
      (before at (traffic_cycle_start at d) ≡ true) ↔ (Overflows at × (at.day < d))
  cycle_start_future_iff =
      (to overflow_dec, λ h. rw (cycle_start_overflow h.0 h.1) (future_when_overflow h.0 h.1))
    where
      to :
          (Overflows at) ⊎ (¬ Overflows at)
          → before at (traffic_cycle_start at d) ≡ true
          → Overflows at × (at.day < d)
      to (inl o) e = (o, early_of_future e)
      to (inr n) e = absurd (ground (arith, (cycle_start_bounds n).1))
