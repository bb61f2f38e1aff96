-- ===== src/Budget.antt =====
-- internal/store/traffic_budget.go: the monthly traffic cycle of a node. `resetDay` is a Go int; a
-- negative one is clamped as 0 is.
pub mod Cycle
pub mod Next
mod Examples
use poly_fleet.Base.{ℕ, zero, ◌+◌, ltb, if◌then◌else◌}
use poly_fleet.Calendar.{Time, date, next_month, previous_month, before}

unfoldable pub traffic_cycle_boundary : ℕ → ℕ → ℕ → Time
traffic_cycle_boundary year month reset_day =
    let days = (date year (month + 1) 0 0).day in
    let day = if ltb days reset_day then days else reset_day in date year month day 0

unfoldable pub clamp_reset_day : ℕ → ℕ
clamp_reset_day reset_day =
    if ltb reset_day 1 then 1 else if ltb 31 reset_day then 31 else reset_day

unfoldable pub traffic_cycle_start : Time → ℕ → Time
unfolding clamp_reset_day
traffic_cycle_start at reset_day =
    let day = clamp_reset_day reset_day in
    let start = traffic_cycle_boundary at.year at.month day in
    if before at start
    then (let previous = previous_month at in
        traffic_cycle_boundary previous.year previous.month day)
    else start

unfoldable pub traffic_cycle_next_start : Time → ℕ → Time
traffic_cycle_next_start start reset_day =
    let next = next_month start in traffic_cycle_boundary next.year next.month reset_day
