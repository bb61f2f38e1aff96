-- ===== src/Base/Outcome.antt =====
-- Results of the store's methods: the sentinel errors of internal/store, and one constructor for
-- every error that is made on the spot with `errors.New` or `fmt.Errorf`.
use mathlib.Core.Path.{◌≡◌, refl}
use mathlib.Core.Option.{Option, none, some}
use native.Mathlib.Omega.{arith}

pub data StoreError : Type 0 where
  not_found conflict pending unsupported expired version_conflict : StoreError
  unauthorized read_only internal : StoreError

pub data Result {ℓ} (Value : Type ℓ) : Type ℓ where
  ok : Value → Result Value
  err : StoreError → Result Value

-- A failure of a library's function, as `fmt.Errorf` passes it on.
abbrev pub or_internal {ℓ} : {A : Type ℓ} → Option A → Result A
or_internal none = err internal
or_internal (some a) = ok a

module _ {ℓ κ} {V : Type ℓ} {W : Type κ} where
  infixl 5 ◌>>=◌
  -- `if err != nil { return ..., err }` between two steps.
  abbrev pub ◌>>=◌ : Result V → (V → Result W) → Result W
  ◌>>=◌ (err cause) next = err cause
  ◌>>=◌ (ok value) next = next value

  -- A success of two steps is a success of each.
  pub >>=-eq-ok :
      (first : Result V) (next : V → Result W) {w : W}
      → ◌≡◌ (first >>= next) (ok w)
      → (value : V) × (first ≡ ok value) × (next value ≡ ok w)
  >>=-eq-ok (err cause) next done = absurd (ground arith)
  >>=-eq-ok (ok value) next done = (value, refl, done)
