-- ===== src/Agent/AuthCache/Index.antt =====
-- What `buildAuthIndex` of internal/agent/auth_cache.go leaves in its map.
use poly_fleet.Base.{
  ℕ, ◌≡◌, ◌≤◌, refl, subst, ap, true, false, Bool, Option, none, some, List, [], ◌∷◌, inl, inr,
  ◌==◌, if◌then◌else◌, Result, ok, err, internal, >>=-eq-ok, find, exists, count, Bool-cases,
  find-none, arith, not,
}
use mathlib.Core.Option
use poly_fleet.Schema.{Text}
use poly_fleet.Store.Texts.{same_text}
use poly_fleet.Store.Texts.Same.{same_text_eq}
use poly_fleet.Base64.{decode}
use poly_fleet.Agent.AuthCache.{
  CachedAuthUser, AuthEntry, has_key, entry_of, of_size, is_quota_state, bad_identity,
  bad_credential, check_user, index_users,
}

-- The verifier of a user, decoded, is the hash.
abbrev is_text : Text → Option Text → Bool
is_text v none = false
is_text v (some w) = same_text w v

unfoldable pub has_verifier : Text → CachedAuthUser → Bool
has_verifier v u = is_text v (decode u.verifier_sha256)

of_size_decoded : (o : Option Text) (v : Text) → of_size o ≡ ok v → o ≡ some v
of_size_decoded none v h = absurd (ground arith)
of_size_decoded (some w) v h = ground arith

past_guards :
    (a b c : Bool) (m : Result Text) (v : Text)
    → (if a then err internal else if b then err internal else if c then err internal else m) ≡ ok v
    → m ≡ ok v
past_guards a b c m v h = ground arith

key_same :
    (w v : Text) (u : CachedAuthUser)
    → decode u.verifier_sha256 ≡ some w
    → has_verifier v u ≡ same_text w v
unfolding has_verifier
key_same w v u e = ap (is_text v) e

-- What a key finds: the entry of the first user with that verifier, or what was there before.
abbrev pub found_entry :
    Text → List CachedAuthUser → List (Text × AuthEntry) → Option (Text × AuthEntry)
found_entry v us entries = elim (find (has_verifier v) us) [
  | none ↦ find (has_key v) entries
  | some u ↦ some (v, entry_of u v)
]

module _ (valid_uuid : ℕ → Bool) where
  pub check_user-decode :
      (u : CachedAuthUser) (v : Text)
      → check_user valid_uuid u ≡ ok v
      → decode u.verifier_sha256 ≡ some v
  unfolding check_user
  check_user-decode u v h = of_size_decoded (decode u.verifier_sha256) v (
      past_guards (bad_identity valid_uuid u) (bad_credential valid_uuid u)
        (not (is_quota_state u.quota_state)) (of_size (decode u.verifier_sha256)) v h)

  record Added (u : CachedAuthUser) (us : List CachedAuthUser)
      (entries es : List (Text × AuthEntry)) (seen : List ℕ) : Type 0 where
    key : Text
    decoded : decode u.verifier_sha256 ≡ some key
    fresh : exists (has_key key) entries ≡ false
    unseen : exists (λ (k : ℕ). k == u.id) seen ≡ false
    rest : index_users valid_uuid us ((key, entry_of u key) ∷ entries) (u.id ∷ seen) ≡ ok es

  add_user :
      (u : CachedAuthUser) (us : List CachedAuthUser) (entries es : List (Text × AuthEntry))
      (seen : List ℕ)
      → index_users valid_uuid (u ∷ us) entries seen ≡ ok es
      → Added u us entries es seen
  unfolding index_users
  add_user u us entries es seen h =
      let (v, checked, rest) = >>=-eq-ok (check_user valid_uuid u) _ h in
      record {
        key = v;
        decoded = check_user-decode u v checked;
        fresh = ground arith;
        unseen = ground arith;
        rest = ground arith;
      }

  -- A verifier that is in the map belongs to no user that is still to come.
  index_users_fresh :
      (us : List CachedAuthUser) (entries es : List (Text × AuthEntry)) (seen : List ℕ) (v : Text)
      → index_users valid_uuid us entries seen ≡ ok es
      → exists (has_key v) entries ≡ true
      → find (has_verifier v) us ≡ none
  unfolding find exists
  index_users_fresh [] entries es seen v h e = refl
  index_users_fresh (u ∷ us) entries es seen v h e =
      let a = add_user u us entries es seen h in
      let other = index_users_fresh us _ es _ v a.rest in
      let same = key_same a.key v u a.decoded in
      elim (Bool-cases (same_text a.key v)) [
        | inl hit ↦
            let is = same_text_eq a.key v hit in
            let clash = subst (λ x. exists (has_key x) entries ≡ false) is a.fresh in
            absurd (ground arith)
        | inr miss ↦ ground arith
      ]

  index_users_found :
      (us : List CachedAuthUser) (entries es : List (Text × AuthEntry)) (seen : List ℕ) (v : Text)
      → index_users valid_uuid us entries seen ≡ ok es
      → find (has_key v) es ≡ found_entry v us entries
  unfolding find exists index_users
  index_users_found [] entries es seen v h = ground arith
  index_users_found (u ∷ us) entries es seen v h =
      let a = add_user u us entries es seen h in
      let same = key_same a.key v u a.decoded in
      let later = index_users_found us _ es _ v a.rest in
      let fresh = index_users_fresh us _ es _ v a.rest in
      elim (Bool-cases (same_text a.key v)) [
        | inl hit ↦
            let moved : ◌≡◌ {A = Option (Text × AuthEntry)} (some (a.key, entry_of u a.key))
                (some (v, entry_of u v)) =
              ap (λ x. some (x, entry_of u x)) (same_text_eq a.key v hit) in
            ground arith
        | inr miss ↦ ground arith
      ]

  -- The map of a document: a key finds the entry of the user whose verifier it is.
  pub index-lookup :
      (us : List CachedAuthUser) (es : List (Text × AuthEntry)) (v : Text)
      → index_users valid_uuid us [] [] ≡ ok es
      → find (has_key v) es ≡ Option.map (λ u. (v, entry_of u v)) (find (has_verifier v) us)
  unfolding find
  index-lookup us es v h = rw (index_users_found us [] es [] v h) (ground arith)

  -- No two users have a verifier in common.
  pub index_users-Distinct :
      (us : List CachedAuthUser) (entries es : List (Text × AuthEntry)) (seen : List ℕ) (v : Text)
      → index_users valid_uuid us entries seen ≡ ok es
      → count (has_verifier v) us ≤ 1
  unfolding count exists
  index_users-Distinct [] entries es seen v h = ground arith
  index_users-Distinct (u ∷ us) entries es seen v h =
      let a = add_user u us entries es seen h in
      let same = key_same a.key v u a.decoded in
      let later = index_users-Distinct us _ es _ v a.rest in
      let fresh = index_users_fresh us _ es _ v a.rest in
      let none_left = find-none (has_verifier v) us in ground arith
