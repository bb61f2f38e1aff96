-- ===== src/Store/Texts/Same.antt =====
-- The comparison of texts decides their equality.
use poly_fleet.Base.{◌≡◌, refl, subst, true, [], ◌∷◌, eq_refl, arith}
use poly_fleet.Schema.{Text}
use poly_fleet.Store.Texts.{same_text}

pub same_text_refl : (s : Text) → same_text s s ≡ true
unfolding same_text
same_text_refl [] = refl
same_text_refl (x ∷ s) = ground (arith, eq_refl x, same_text_refl s)

pub same_text_eq : (s t : Text) → same_text s t ≡ true → s ≡ t
unfolding same_text
same_text_eq [] [] h = refl
same_text_eq [] (y ∷ t) h = absurd (ground arith)
same_text_eq (x ∷ s) [] h = absurd (ground arith)
same_text_eq (x ∷ s) (y ∷ t) h = ground (arith, same_text_eq s t)

pub same_text_sym : (s t : Text) → same_text s t ≡ true → same_text t s ≡ true
same_text_sym s t h = subst (λ x. same_text x s ≡ true) (same_text_eq s t h) (same_text_refl s)
