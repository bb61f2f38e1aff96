-- ===== src/Calendar.antt =====
-- What internal/store uses of Go's `time` package (the standard library): UTC civil times with
-- `time.Date`, `AddDate(0, ±1, 0)`, `Before` and `UnixMilli`. Times are kept to the millisecond, the
-- resolution of the database, and lie after 1970.
pub mod Order
use poly_fleet.Base.{
  ℕ, zero, suc, ◌+◌, ◌-◌, ◌*◌, ◌/◌, ◌%◌, ◌≤◌, ◌<◌, ◌≡◌, refl, Bool, not, ◌&&◌, ◌||◌, ltb, ◌==◌,
  if◌then◌else◌, arith,
}

pub record Time : Type 0 where
  pub year : ℕ
  pub month : ℕ
  pub day : ℕ
  pub milli : ℕ

unfoldable pub is_leap : ℕ → Bool
is_leap y = (y % 4 == 0) && (not (y % 100 == 0) || (y % 400 == 0))

unfoldable pub days_in : ℕ → ℕ → ℕ
unfolding is_leap
days_in y m =
    if m == 2
    then (if is_leap y then 29 else 28)
    else if (m == 4) || ((m == 6) || ((m == 9) || (m == 11)))
    then 30
    else 31

-- A month one outside 1..12 is carried into the year.
unfoldable pub carry_month : ℕ → ℕ → ℕ × ℕ
carry_month y m = if m == 0 then (y - 1, 12) else if ltb 12 m then (y + 1, m - 12) else (y, m)

-- `time.Date(year, month, day, ...)`: a day that the month does not have runs over into the next
-- month, and day 0 is the last day of the month before.
unfoldable pub date : ℕ → ℕ → ℕ → ℕ → Time
date year month day milli =
    let (y, m) = carry_month year month in
    if day == 0
    then (let (p, q) = carry_month y (m - 1) in
        record { year = p; month = q; day = days_in p q; milli = milli })
    else if ltb (days_in y m) day
    then (let (p, q) = carry_month y (m + 1) in
        record { year = p; month = q; day = day - days_in y m; milli = milli })
    else record { year = y; month = m; day = day; milli = milli }

-- `t.AddDate(0, 1, 0)` and `t.AddDate(0, -1, 0)`
unfoldable pub next_month : Time → Time
next_month t = date t.year (t.month + 1) t.day t.milli

unfoldable pub previous_month : Time → Time
previous_month t = date t.year (t.month - 1) t.day t.milli

unfoldable pub before : Time → Time → Bool
before s t =
    if s.year == t.year
    then (if s.month == t.month
        then (if s.day == t.day then ltb s.milli t.milli else ltb s.day t.day)
        else ltb s.month t.month)
    else ltb s.year t.year

unfoldable pub year_days : ℕ → ℕ
year_days y = 365 * y + y / 4 + y / 400 - y / 100

-- The days of the year before month `m`.
unfoldable pub month_days : ℕ → ℕ → ℕ
unfolding days_in
month_days y zero = 0
month_days y (suc m) = month_days y m + (if m == 0 then 0 else days_in y m)

-- `t.UnixMilli()`; 719162 days precede 1970.
unfoldable pub unix_milli : Time → ℕ
unfolding year_days month_days
unix_milli t =
    (year_days (t.year - 1) + month_days t.year t.month + (t.day - 1) - 719162) * 86400000 + t.milli

pub record IsValid (t : Time) : Type 0 where
  pub year_ge : 1970 ≤ t.year
  pub month_pos : 1 ≤ t.month
  pub month_le : t.month ≤ 12
  pub day_pos : 1 ≤ t.day
  pub day_le : t.day ≤ days_in t.year t.month
  pub milli_lt : t.milli < 86400000

pub days_in_bounds : (y m : ℕ) → (28 ≤ days_in y m) × (days_in y m ≤ 31)
unfolding days_in
days_in_bounds y m = ground arith

-- Months other than February have thirty days at least.
pub days_in_ge : (y m : ℕ) → (m == 2) ≡ Bool.false → 30 ≤ days_in y m
unfolding days_in
days_in_ge y m h = ground arith

pub days_in_march : (y : ℕ) → days_in y 3 ≡ 31
unfolding days_in
days_in_march y = refl

-- In range the fields are taken as they are.
pub date_lem :
    (y m d t : ℕ)
    → (1 ≤ m) × (m ≤ 12)
    → (1 ≤ d) × (d ≤ days_in y m)
    → date y m d t ≡ record { year = y; month = m; day = d; milli = t }
unfolding date carry_month
date_lem y m d t h k = ground arith

pub date_last_day : (y m : ℕ) → (1 ≤ m) × (m ≤ 12) → (date y (m + 1) 0 0).day ≡ days_in y m
unfolding date carry_month
date_last_day y m h = ground arith

-- The month before and the month after.
abbrev pub back : ℕ → ℕ → ℕ × ℕ
back y m = if m == 1 then (y - 1, 12) else (y, m - 1)

abbrev pub forth : ℕ → ℕ → ℕ × ℕ
forth y m = if m == 12 then (y + 1, 1) else (y, m + 1)

module _ (t : Time) (v : IsValid t) where
  -- One month back keeps the day where that month has it.
  pub previous_month_lem :
      t.day ≤ days_in (back t.year t.month).0 (back t.year t.month).1
      → previous_month t ≡ record {
        year = (back t.year t.month).0;
        month = (back t.year t.month).1;
        day = t.day;
        milli = t.milli;
      }
  unfolding previous_month date carry_month
  previous_month_lem fits = ground (arith, v.year_ge)

  -- Otherwise it runs over into the month that it left.
  pub previous_month_overflow :
      t.month ≡ 3
      → days_in t.year 2 < t.day
      → previous_month t
        ≡ record { year = t.year; month = 3; day = t.day - days_in t.year 2; milli = t.milli }
  unfolding previous_month date carry_month
  previous_month_overflow e over = rw e (ground arith)

  pub next_month_lem :
      t.day ≤ days_in (forth t.year t.month).0 (forth t.year t.month).1
      → next_month t ≡ record {
        year = (forth t.year t.month).0;
        month = (forth t.year t.month).1;
        day = t.day;
        milli = t.milli;
      }
  unfolding next_month date carry_month
  next_month_lem fits = ground arith

  pub next_month_overflow :
      days_in (forth t.year t.month).0 (forth t.year t.month).1 < t.day
      → next_month t ≡ (
          let (y, m) = forth t.year t.month in
          record {
            year = (forth y m).0;
            month = (forth y m).1;
            day = t.day - days_in y m;
            milli = t.milli;
          })
  unfolding next_month date carry_month
  next_month_overflow over = ground arith

feb_2026 :
    next_month (record { year = 2026; month = 1; day = 31; milli = 5 })
    ≡ record { year = 2026; month = 3; day = 3; milli = 5 }
unfolding next_month date carry_month days_in
feb_2026 = refl

-- 2026-02-28T00:00:00Z
feb_2026_milli : unix_milli (record { year = 2026; month = 2; day = 28; milli = 0 }) ≡ 1772236800000
unfolding unix_milli
feb_2026_milli = refl
