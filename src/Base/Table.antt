-- ===== src/Base/Table.antt =====
-- A table is the list of its rows. `find` is a query for one row, `update` is UPDATE ... WHERE,
-- `delete` is DELETE ... WHERE, `count` is COUNT(*), `total` is SUM.
use Prim.Native.Nat.{ℕ, zero, suc, ◌+◌}
use mathlib.Core.Path.{◌≡◌, refl, ap}
use mathlib.Core.Bool.{Bool, true, false}
use mathlib.Core.Option.{Option, none, some}
use mathlib.Core.Option
use mathlib.Core.List.{List, [], ◌∷◌}
use native.Mathlib.Omega.{arith}
use poly_fleet.Base.Tests.{if◌then◌else◌}

module _ {ℓ} {A : Type ℓ} where
  abbrev pub length : List A → ℕ
  length [] = 0
  length (x ∷ xs) = suc (length xs)

  abbrev pub take : ℕ → List A → List A
  take zero xs = []
  take (suc n) [] = []
  take (suc n) (x ∷ xs) = x ∷ take n xs

  abbrev pub drop : ℕ → List A → List A
  drop zero xs = xs
  drop (suc n) [] = []
  drop (suc n) (x ∷ xs) = drop n xs

  unfoldable pub find : (A → Bool) → List A → Option A
  find p [] = none
  find p (x ∷ xs) = if p x then some x else find p xs

  -- `EXISTS (SELECT ...)`
  unfoldable pub exists : (A → Bool) → List A → Bool
  exists p [] = false
  exists p (x ∷ xs) = if p x then true else exists p xs

  -- The rows that a condition selects, in the table's order.
  unfoldable pub select : (A → Bool) → List A → List A
  select p [] = []
  select p (x ∷ xs) = let rest = select p xs in if p x then x ∷ rest else rest

  abbrev pub patch : (A → Bool) → (A → A) → A → A
  patch p f x = if p x then f x else x

  unfoldable pub update : (A → Bool) → (A → A) → List A → List A
  update p f [] = []
  update p f (x ∷ xs) = patch p f x ∷ update p f xs

  unfoldable pub delete : (A → Bool) → List A → List A
  delete p [] = []
  delete p (x ∷ xs) = let rest = delete p xs in if p x then rest else x ∷ rest

  unfoldable pub count : (A → Bool) → List A → ℕ
  count p [] = 0
  count p (x ∷ xs) = (if p x then 1 else 0) + count p xs

  unfoldable pub total : (A → ℕ) → List A → ℕ
  total g [] = 0
  total g (x ∷ xs) = g x + total g xs

  abbrev pub All {κ} : (A → Type κ) → List A → Type κ
  All P [] = Unit
  All P (x ∷ xs) = P x × All P xs

  pub patch_holds : (p : A → Bool) (f : A → A) (x : A) → p x ≡ true → patch p f x ≡ f x
  patch_holds p f x h = ap (λ b. if b then f x else x) h

  -- An update that keeps what a query tests changes the found row at most.
  pub find-update :
      (q p : A → Bool) (f : A → A)
      → ((x : A) → q (f x) ≡ q x)
      → (xs : List A) → find q (update p f xs) ≡ Option.map (patch p f) (find q xs)
  unfolding find update
  find-update q p f keep [] = refl
  find-update q p f keep (x ∷ xs) = ground (arith, keep x, find-update q p f keep xs)

  pub find_ext : (p q : A → Bool) → ((x : A) → p x ≡ q x) → (xs : List A) → find p xs ≡ find q xs
  unfolding find
  find_ext p q same [] = refl
  find_ext p q same (x ∷ xs) = ground (arith, same x, find_ext p q same xs)

  pub All-update {κ} :
      (P : A → Type κ) (p : A → Bool) (f : A → A)
      → ((x : A) → p x ≡ true → P x → P (f x))
      → (xs : List A) → All P xs
      → All P (update p f xs)
  unfolding update
  All-update P p f keep [] h = tt
  All-update P p f keep (x ∷ xs) h = (step (p x) refl, All-update P p f keep xs h.1)
    where
      step : (b : Bool) → p x ≡ b → P (if b then f x else x)
      step true e = keep x e h.0
      step false e = h.0

  -- What an update establishes in the rows that it touches, and what holds in the others.
  pub All-update_where {κ} :
      (P : A → Type κ) (p : A → Bool) (f : A → A)
      → ((x : A) → p x ≡ true → P (f x))
      → ((x : A) → p x ≡ false → P x)
      → (xs : List A) → All P (update p f xs)
  unfolding update
  All-update_where P p f hit miss [] = tt
  All-update_where P p f hit miss (x ∷ xs) = (step (p x) refl, All-update_where P p f hit miss xs)
    where
      step : (b : Bool) → p x ≡ b → P (if b then f x else x)
      step true e = hit x e
      step false e = miss x e

  pub find-All {κ} :
      (P : A → Type κ) (q : A → Bool) (xs : List A) {x : A} → find q xs ≡ some x → All P xs → P x
  unfolding find
  find-All P q [] e h = absurd (cc)
  find-All P q (y ∷ ys) {x} e h = ground (arith, h.0, find-All P q ys {x = x})

  pub find_holds : (q : A → Bool) (xs : List A) {x : A} → find q xs ≡ some x → q x ≡ true
  unfolding find
  find_holds q [] e = cc
  find_holds q (y ∷ ys) {x} e = ground (arith, find_holds q ys {x = x})

  pub length-update : (p : A → Bool) (f : A → A) (xs : List A) → length (update p f xs) ≡ length xs
  unfolding update
  length-update p f [] = refl
  length-update p f (x ∷ xs) = ap suc (length-update p f xs)
