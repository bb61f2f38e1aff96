-- ===== src/Base/Keys.antt =====
-- Laws of updates: views that they keep, and rows that a unique key selects.
use poly_fleet.Base.Tests.{Bool-cases, if◌then◌else◌}
use poly_fleet.Base.Table.{find, exists, update, count, total, All}
use Prim.Native.Nat.{ℕ, ◌+◌, ◌≤◌}
use mathlib.Core.Path.{◌≡◌, refl, subst, sym}
use mathlib.Core.Logic.{◌↔◌, inl, inr}
use mathlib.Core.Option
use mathlib.Core.Bool.{Bool, true, false}
use mathlib.Core.Option.{Option, none, some}
use mathlib.Core.List.{List, [], ◌∷◌, map}
use native.Mathlib.Omega.{arith}

module _ {ℓ} {A : Type ℓ} where
  pub map-update {κ} :
      {V : Type κ} (v : A → V) (p : A → Bool) (f : A → A)
      → ((x : A) → v (f x) ≡ v x)
      → (xs : List A) → map v (update p f xs) ≡ map v xs
  unfolding update
  map-update v p f keep [] = refl
  map-update v p f keep (x ∷ xs) = ground (arith, keep x, map-update v p f keep xs)

  pub count-update :
      (q p : A → Bool) (f : A → A)
      → ((x : A) → q (f x) ≡ q x)
      → (xs : List A) → count q (update p f xs) ≡ count q xs
  unfolding update count
  count-update q p f keep [] = refl
  count-update q p f keep (x ∷ xs) = ground (arith, keep x, count-update q p f keep xs)

  update_none : (q : A → Bool) (f : A → A) (xs : List A) → count q xs ≡ 0 → update q f xs ≡ xs
  unfolding update count
  update_none q f [] h = refl
  update_none q f (x ∷ xs) h = ground (arith, update_none q f xs)

  -- An update through a unique key changes a sum by what it changes in the one row.
  pub total-update :
      (q : A → Bool) (f : A → A) (g : A → ℕ) (xs : List A) {x : A}
      → find q xs ≡ some x
      → count q xs ≤ 1
      → total g (update q f xs) + g x ≡ total g xs + g (f x)
  unfolding find update count total
  total-update q f g [] e u = absurd (cc)
  total-update q f g (y ∷ ys) {x} e u =
      ground (arith, update_none q f ys, total-update q f g ys {x = x})

  -- The same for the number of rows that another query selects.
  pub count-update_one :
      (p q : A → Bool) (f : A → A) (xs : List A) {x : A}
      → find p xs ≡ some x
      → count p xs ≤ 1
      → count q (update p f xs) + (if q x then 1 else 0) ≡ count q xs + (if q (f x) then 1 else 0)
  unfolding find update count
  count-update_one p q f [] e u = absurd (cc)
  count-update_one p q f (y ∷ ys) {x} e u =
      ground (arith, update_none p f ys, count-update_one p q f ys {x = x})

  pub count-update_le :
      (q p : A → Bool) (f : A → A)
      → ((x : A) → p x ≡ true → q (f x) ≡ true → q x ≡ true)
      → (xs : List A) → count q (update p f xs) ≤ count q xs
  unfolding update count
  count-update_le q p f keep [] = ground arith
  count-update_le q p f keep (x ∷ xs) = ground (arith, keep x, count-update_le q p f keep xs)

  pub count_le :
      (p q : A → Bool)
      → ((x : A) → p x ≡ true → q x ≡ true)
      → (xs : List A) → count p xs ≤ count q xs
  unfolding count
  count_le p q weaken [] = ground arith
  count_le p q weaken (x ∷ xs) = ground (arith, weaken x, count_le p q weaken xs)

  pub find-count : (q : A → Bool) (xs : List A) {x : A} → find q xs ≡ some x → 1 ≤ count q xs
  unfolding find count
  find-count q [] e = absurd (cc)
  find-count q (y ∷ ys) {x} e = ground (arith, find-count q ys {x = x})

  pub find-none : (q : A → Bool) (xs : List A) → find q xs ≡ none → count q xs ≡ 0
  unfolding find count
  find-none q [] e = refl
  find-none q (y ∷ ys) e = ground (arith, find-none q ys)

  pub exists_none : (q : A → Bool) (xs : List A) → exists q xs ≡ false → count q xs ≡ 0
  unfolding exists count
  exists_none q [] e = refl
  exists_none q (y ∷ ys) e = ground (arith, exists_none q ys)

  -- A row that one query finds is the one that a unique key finds.
  pub find_unique :
      (p q : A → Bool) (xs : List A) {x : A}
      → find q xs ≡ some x
      → p x ≡ true
      → count p xs ≤ 1
      → find p xs ≡ some x
  unfolding find count
  find_unique p q [] e h u = absurd (cc)
  find_unique p q (y ∷ ys) {x} e h u =
      ground (arith, find_unique p q ys {x = x}, find-count p ys {x = x})

  pub total-update_keep :
      (q : A → Bool) (f : A → A) (g : A → ℕ)
      → ((x : A) → g (f x) ≡ g x)
      → (xs : List A) → total g (update q f xs) ≡ total g xs
  unfolding update total
  total-update_keep q f g keep [] = refl
  total-update_keep q f g keep (x ∷ xs) = ground (arith, keep x, total-update_keep q f g keep xs)

  -- Through a unique key only the found row is touched.
  pub All-update_found {κ} :
      (P : A → Type κ) (q : A → Bool) (f : A → A) (xs : List A) {x : A}
      → find q xs ≡ some x
      → count q xs ≤ 1
      → P (f x)
      → All P xs
      → All P (update q f xs)
  unfolding find update count
  All-update_found P q f [] e u new h = h
  All-update_found P q f (y ∷ ys) {x} e u new h = elim (Bool-cases (q y)) [
    | inl hit ↦
        let same : y ≡ x = ground arith in
        rw (hit, update_none q f ys (ground arith)) (rw same (new, h.1))
    | inr miss ↦
        rw miss (h.0, All-update_found P q f ys {x = x} (ground arith) (ground arith) new h.1)
  ]

  pub find-map {κ} :
      {V : Type κ} (v : A → V) (q : A → Bool) (r : V → Bool)
      → ((x : A) → q x ≡ r (v x))
      → (xs : List A) → Option.map v (find q xs) ≡ find r (map v xs)
  unfolding find
  find-map v q r same [] = refl
  find-map v q r same (x ∷ xs) = ground (arith, same x, find-map v q r same xs)

  pub All-map {κ μ} :
      {V : Type κ} (v : A → V) (P : V → Type μ) (xs : List A)
      → All P (map v xs) ↔ All (λ x. P (v x)) xs
  All-map v P [] = (λ h. h, λ h. h)
  All-map v P (x ∷ xs) = (λ h. (h.0, (All-map v P xs).0 h.1), λ h. (h.0, (All-map v P xs).1 h.1))

  -- Tables with the same views satisfy the same predicates on views.
  pub All-views {κ μ} :
      {V : Type κ} (v : A → V) (P : V → Type μ) (xs ys : List A)
      → map v xs ≡ map v ys
      → All (λ x. P (v x)) ys
      → All (λ x. P (v x)) xs
  All-views v P xs ys e h = (All-map v P xs).0 (subst (All P) (sym e) ((All-map v P ys).1 h))
