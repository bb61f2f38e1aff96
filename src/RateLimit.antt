-- ===== src/RateLimit.antt =====
-- internal/server/ratelimit.go: a fixed window for each key. Instants and durations are numbers of
-- the clock's unit, and the window is positive: where the clock was set back, `now.Sub` is 0 here
-- and negative there, less than the window in both.
pub mod Window
mod Examples
use poly_fleet.Base.{
  ℕ, zero, suc, ◌+◌, ◌-◌, Bool, true, false, Option, none, some, List, [], ◌∷◌, ◌==◌, leb, ltb,
  if◌then◌else◌, length,
}

pub record RateEntry : Type 0 where
  pub started : ℕ
  pub count : ℕ

-- A Go map: each key once, in the order of insertion.
abbrev pub Entries : Type 0
Entries = List (ℕ × RateEntry)

pub record RateLimiter : Type 0 where
  pub entries : Entries
  pub limit : ℕ
  pub window : ℕ

unfoldable pub new_rate_limiter : ℕ → ℕ → RateLimiter
new_rate_limiter limit window = record { entries = []; limit = limit; window = window }

unfoldable pub lookup : ℕ → Entries → Option RateEntry
lookup key [] = none
lookup key ((k, e) ∷ rest) = if k == key then some e else lookup key rest

unfoldable pub insert : ℕ → RateEntry → Entries → Entries
insert key entry [] = (key, entry) ∷ []
insert key entry ((k, e) ∷ rest) =
    if k == key then (k, entry) ∷ rest else (k, e) ∷ insert key entry rest

-- The sweep over the entries: those whose window is over are deleted.
unfoldable pub sweep : ℕ → ℕ → Entries → Entries
sweep now window [] = []
sweep now window ((k, e) ∷ rest) =
    let kept = sweep now window rest in if leb window (now - e.started) then kept else (k, e) ∷ kept

unfoldable pub allow : ℕ → ℕ → RateLimiter → Bool × RateLimiter
allow key now l = elim (lookup key l.entries) [
  | none ↦ (true, record l { entries = insert key (record { started = now; count = 1 }) l.entries })
  | some e ↦
      if leb l.window (now - e.started)
      then (true, record l { entries = insert key (record { started = now; count = 1 }) l.entries })
      else if leb l.limit e.count
      then (false, l)
      else (let entries = insert key (record e { count = e.count + 1 }) l.entries in
          if ltb 2048 (length entries)
          then (true, record l { entries = sweep now l.window entries })
          else (true, record l { entries = entries }))
]

-- The answers to the calls for one key, interleaved with those for others.
unfoldable pub allow_all : List (ℕ × ℕ) → RateLimiter → List (ℕ × Bool) × RateLimiter
allow_all [] l = ([], l)
allow_all ((key, now) ∷ calls) l =
    let (answer, l') = allow key now l in
    let (answers, l'') = allow_all calls l' in ((key, answer) ∷ answers, l'')
