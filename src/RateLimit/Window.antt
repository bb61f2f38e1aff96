-- ===== src/RateLimit/Window.antt =====
-- The promise of the limiter: within one window a key passes at most `limit` times.
use poly_fleet.Base.{
  ℕ, ◌+◌, ◌-◌, ◌<◌, ◌≡◌, refl, Bool, false, Bool-cases, some, List, [], ◌∷◌, ◌==◌, ltb, inl, inr,
  min, subst, sym, eq_refl, if◌then◌else◌, Option-cases, arith,
}
use poly_fleet.RateLimit.{RateEntry, Entries, RateLimiter, lookup, insert, sweep, allow, allow_all}

lookup-insert :
    (key j : ℕ) (e : RateEntry) (m : Entries)
    → lookup j (insert key e m) ≡ (if key == j then some e else lookup j m)
unfolding lookup insert
lookup-insert key j e [] = refl
lookup-insert key j e ((k, x) ∷ m) = ground (arith, lookup-insert key j e m)

-- A sweep keeps the entries whose window runs.
lookup-sweep :
    (key now window : ℕ) (m : Entries) (e : RateEntry)
    → lookup key m ≡ some e
    → now - e.started < window
    → lookup key (sweep now window m) ≡ some e
unfolding lookup sweep
lookup-sweep key now window [] e h r = absurd (cc)
lookup-sweep key now window ((k, x) ∷ m) e h r = ground (arith, lookup-sweep key now window m e)

-- The entry after a call within its window.
abbrev charged : RateEntry → ℕ → RateEntry
charged e limit = if ltb e.count limit then record e { count = e.count + 1 } else e

charged_started : (e : RateEntry) (limit : ℕ) → (charged e limit).started ≡ e.started
charged_started e limit = ground arith

module _ (key now : ℕ) (l : RateLimiter) (e : RateEntry) where
  -- The key's own call within its window.
  allow_self :
      lookup key l.entries ≡ some e
      → now - e.started < l.window
      → ((allow key now l).0 ≡ ltb e.count l.limit)
        × (lookup key (allow key now l).1.entries ≡ some (charged e l.limit))
  unfolding allow
  allow_self h r =
      let next : RateEntry = record e { count = e.count + 1 } in
      ground (
        arith,
        lookup-insert key key next l.entries,
        lookup-sweep key now l.window (insert key next l.entries) next,
      )

  allow_ne :
      (other : ℕ)
      → (other == key) ≡ false
      → lookup key l.entries ≡ some e
      → now - e.started < l.window
      → lookup key (allow other now l).1.entries ≡ some e
  unfolding allow
  allow_ne other ne h r = elim (Option-cases (lookup other l.entries)) [
    | inl f ↦
        ground (arith, lookup-insert other key (record { started = now; count = 1 }) l.entries)
    | inr (x, f) ↦ ground (
      arith,
      lookup-insert other key (record { started = now; count = 1 }) l.entries,
      lookup-insert other key (record x { count = x.count + 1 }) l.entries,
      lookup-sweep key now l.window (insert other (record x { count = x.count + 1 }) l.entries) e,
    )
  ]

  allow_settings :
      (other : ℕ)
      → ((allow other now l).1.limit ≡ l.limit) × ((allow other now l).1.window ≡ l.window)
  unfolding allow
  allow_settings other = ground arith

-- How many calls are for the key, and how many of its answers are positive.
abbrev pub calls_for : ℕ → List (ℕ × ℕ) → ℕ
calls_for key [] = 0
calls_for key ((k, t) ∷ calls) = (if k == key then 1 else 0) + calls_for key calls

abbrev pub passes : ℕ → List (ℕ × Bool) → ℕ
passes key [] = 0
passes key ((k, b) ∷ answers) = (if k == key then (if b then 1 else 0) else 0) + passes key answers

-- All calls come before the window ends that began at `start`.
abbrev pub Within : ℕ → ℕ → List (ℕ × ℕ) → Type 0
Within start window [] = Unit {0}
Within start window ((k, t) ∷ calls) = (t - start < window) × Within start window calls

-- Within the window of a key's entry, however the calls of all keys interleave, the key passes as
-- often as it asks, up to what the limit leaves.
pub window_passes :
    (key : ℕ) (calls : List (ℕ × ℕ)) (l : RateLimiter) (e : RateEntry)
    → lookup key l.entries ≡ some e
    → Within e.started l.window calls
    → passes key (allow_all calls l).0 ≡ min (calls_for key calls) (l.limit - e.count)
unfolding allow_all
window_passes key [] l e h w = omega arith
window_passes key ((k, t) ∷ calls) l e h w = elim (Bool-cases (k == key)) [
  | inl same ↦
      let here : k ≡ key = ground arith in
      let step = allow_self key t l e h w.0 in
      let settings = allow_settings key t l e key in
      let e' = charged e l.limit in
      let ih = window_passes key calls (allow key t l).1 e' step.1 (
        rw settings.1
          (subst (λ s. Within s l.window calls) (sym (charged_started e l.limit)) w.1)) in
      rw here (ground (arith, ih, step.0, settings.0, eq_refl key))
  | inr ne ↦
      let settings = allow_settings key t l e k in
      let ih =
        window_passes key calls (allow k t l).1 e (allow_ne key t l e k ne h w.0)
          (rw settings.1 w.1) in
      rw ne (ground (arith, ih, settings.0))
]
