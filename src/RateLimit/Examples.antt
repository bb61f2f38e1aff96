-- ===== src/RateLimit/Examples.antt =====
-- Three calls within a window of 10 and a limit of 2, with a call for another key between them.
use poly_fleet.Base.{ℕ, ◌-◌, ◌≡◌, refl, min, some, List, [], ◌∷◌, arith}
use poly_fleet.RateLimit.{RateEntry, RateLimiter, lookup, allow_all}
use poly_fleet.RateLimit.Window.{passes, calls_for, window_passes}

abbrev entry : RateEntry
entry = record { started = 5; count = 1 }

abbrev limiter : RateLimiter
limiter = record { entries = (7, entry) ∷ []; limit = 2; window = 10 }

abbrev calls : List (ℕ × ℕ)
calls = (7, 6) ∷ (8, 7) ∷ (7, 8) ∷ []

entry_found : lookup 7 limiter.entries ≡ some entry
unfolding lookup
entry_found = refl

window_passes_example :
    passes 7 (allow_all calls limiter).0 ≡ min (calls_for 7 calls) (limiter.limit - entry.count)
window_passes_example = window_passes 7 calls limiter entry entry_found (omega arith)
