-- ===== src/Agent/AuthCache/Admits.antt =====
-- What `Apply`, `LoadAuthCache` and `Authenticate` of internal/agent/auth_cache.go come to together.
use poly_fleet.Base.{
  ℕ, ◌≡◌, ◌≤◌, ◌∙◌, refl, ap, subst, true, false, ◌&&◌, not, Bool, Option, none, some, List, [],
  ◌∷◌, if◌then◌else◌, Result, ok, err, internal, or_internal, ◌>>=◌, >>=-eq-ok, find, count,
  count_le, &&-eq-true, sym, find-none, arith,
}
use mathlib.Core.Option
use poly_fleet.Schema.{Text, bytes}
use poly_fleet.Store.Texts.{same_text}
use poly_fleet.Store.Texts.Same.{same_text_refl}
use poly_fleet.Agent.AuthCache.{
  JsonCodec, IsLossless, save_auth_cache, CachedAuthUser, AuthCacheDocument, AuthCache, AuthEntry,
  DesiredSnapshot, entry_of, empty_cache, stored, is_of_other_node, is_stale_snapshot, index_users,
  build_auth_index, load_auth_cache, document_of, apply, is_past, admit, admit_entry, authenticate,
}
use poly_fleet.Agent.AuthCache.Index.{has_verifier, index-lookup, index_users-Distinct}

-- A user of the document that may pass: with the verifier, enabled, neither expired nor limited.
abbrev may_pass : ℕ → CachedAuthUser → Bool
may_pass now u =
    u.enabled && (not (is_past now u.expires_at) && not (same_text u.quota_state (bytes "limited")))

unfoldable pub may_sign_in : Text → ℕ → CachedAuthUser → Bool
may_sign_in hash now u = has_verifier hash u && may_pass now u

-- The caches that an Agent can have.
pub data Reachable (valid_uuid : ℕ → Bool) (J : JsonCodec) : AuthCache → Type 0 where
  loaded :
      (file : Option Text) {c : AuthCache}
      → load_auth_cache valid_uuid J file ≡ ok c
      → Reachable valid_uuid J c
  applied :
      (saved : Bool) (s : DesiredSnapshot) (hash : Text) (applied_at : ℕ) (c : AuthCache)
      {c' : AuthCache}
      → Reachable valid_uuid J c
      → apply valid_uuid J saved s hash applied_at c ≡ ok c'
      → Reachable valid_uuid J c'

module _ {ℓ} {A : Type ℓ} where
  find_conj : (p q : A → Bool) (xs : List A) → count p xs ≡ 0 → find (λ x. p x && q x) xs ≡ none
  unfolding find count
  find_conj p q [] u = refl
  find_conj p q (x ∷ xs) u = ground (arith, find_conj p q xs)

  count_both : (p q : A → Bool) (xs : List A) → count p xs ≤ 1 → count (λ x. p x && q x) xs ≤ 1
  count_both p q xs u =
      omega (arith, count_le (λ x. p x && q x) p (λ x h. (&&-eq-true (p x) (q x) h).0) xs)

  abbrev kept_if : (A → Bool) → Option A → Option A
  kept_if q none = none
  kept_if q (some x) = if q x then some x else none

  find_both :
      (p q : A → Bool) (xs : List A)
      → count p xs ≤ 1
      → find (λ x. p x && q x) xs ≡ kept_if q (find p xs)
  unfolding find count
  find_both p q [] u = refl
  find_both p q (x ∷ xs) u = ground (arith, find_both p q xs, find-none p xs, find_conj p q xs)

past_refusals :
    (a b : Bool) (m : Result AuthCache) {c : AuthCache}
    → (if a then err internal else if b then err internal else m) ≡ ok c
    → (a ≡ false) × (b ≡ false) × (m ≡ ok c)
past_refusals a b m h = ground arith

only : {A : Type 0} {x y : A} → ◌≡◌ {A = Result A} (ok x) (ok y) → x ≡ y
only h = ground arith

-- A save writes the JSON of the document.
saved_text :
    (J : JsonCodec) (saved : Bool) (d : AuthCacheDocument) (text : Text)
    → save_auth_cache J saved d ≡ ok text
    → J.marshal d ≡ some text
unfolding save_auth_cache
saved_text J saved d text h = by_text (J.marshal d) h
  where
    by_text :
        (o : Option Text)
        → ◌≡◌ {A = Result Text}
            (or_internal o >>= λ t. if saved then ok t else err internal)
            (ok text)
        → o ≡ some text
    by_text none e = absurd (ground arith)
    by_text (some t) e = ground arith

admit-entry_of :
    (hash : Text) (now : ℕ) (u : CachedAuthUser)
    → admit hash now (entry_of u hash) ≡ (if may_pass now u then some u.id else none)
unfolding admit
admit-entry_of hash now u = rw (same_text_refl hash) (ground arith)

map_if :
    (b : Bool) (f : CachedAuthUser → ℕ) (u : CachedAuthUser)
    → (if b then some (f u) else none) ≡ Option.map f (if b then some u else none)
map_if true f u = refl
map_if false f u = refl

admit_entry-map :
    (hash : Text) (now : ℕ) (o : Option CachedAuthUser)
    → admit_entry hash now (Option.map (λ u. (hash, entry_of u hash)) o)
      ≡ Option.map (λ u. u.id) (kept_if (may_pass now) o)
admit_entry-map hash now none = refl
admit_entry-map hash now (some u) =
    admit-entry_of hash now u ∙ map_if (may_pass now u) (λ u. u.id) u

module _ (valid_uuid : ℕ → Bool) where
  build_users :
      (d : AuthCacheDocument) (es : List (Text × AuthEntry))
      → build_auth_index valid_uuid d ≡ ok es
      → index_users valid_uuid d.users [] [] ≡ ok es
  unfolding build_auth_index
  build_users d es h = ground arith

  abbrev Kept : AuthCache → Type 0
  Kept c = index_users valid_uuid c.document.users [] [] ≡ ok c.entries

  empty-Kept : Kept empty_cache
  unfolding index_users
  empty-Kept = refl

  module _ (J : JsonCodec) where
    -- What a success of `apply` says.
    pub record Applied (s : DesiredSnapshot) (hash : Text) (applied_at : ℕ) (c c' : AuthCache)
        : Type 0 where
      pub node : is_of_other_node s c.document ≡ false
      pub fresh : is_stale_snapshot s hash c.document ≡ false
      pub entries : List (Text × AuthEntry)
      pub built : build_auth_index valid_uuid (document_of s hash applied_at) ≡ ok entries
      pub text : Text
      pub written : J.marshal (document_of s hash applied_at) ≡ some text
      pub is : stored text (document_of s hash applied_at) entries ≡ c'

    pub apply-Applied :
        (saved : Bool) (s : DesiredSnapshot) (hash : Text) (applied_at : ℕ) (c c' : AuthCache)
        → apply valid_uuid J saved s hash applied_at c ≡ ok c'
        → Applied s hash applied_at c c'
    unfolding apply
    apply-Applied saved s hash at c c' h =
        let (node, fresh, rest) =
          past_refusals (is_of_other_node s c.document) (is_stale_snapshot s hash c.document) _ h in
        let (es, built, saving) =
          >>=-eq-ok (build_auth_index valid_uuid (document_of s hash at)) _ rest in
        let (text, written, done) =
          >>=-eq-ok (save_auth_cache J saved (document_of s hash at)) _ saving in
        record {
          node = node;
          fresh = fresh;
          entries = es;
          built = built;
          text = text;
          written = saved_text J saved (document_of s hash at) text written;
          is = only done;
        }

    Reachable-Kept : (c : AuthCache) → Reachable valid_uuid J c → Kept c
    unfolding load_auth_cache
    Reachable-Kept c (loaded none h) = subst Kept (only h) empty-Kept
    Reachable-Kept c (loaded (some text) h) =
        let (d, parsed, more) = >>=-eq-ok (or_internal (J.unmarshal text)) _ h in
        let (es, built, rest) = >>=-eq-ok (build_auth_index valid_uuid d) _ more in
        subst Kept (only rest) (build_users d es built)
    Reachable-Kept c (applied saved s hash at b r h) =
        let a = apply-Applied saved s hash at b c h in
        subst Kept a.is (build_users (document_of s hash at) a.entries a.built)

    stored_reload :
        IsLossless J
        → (d : AuthCacheDocument) (es : List (Text × AuthEntry)) (text : Text)
        → J.marshal d ≡ some text
        → build_auth_index valid_uuid d ≡ ok es
        → load_auth_cache valid_uuid J (some text) ≡ ok (stored text d es)
    unfolding load_auth_cache
    stored_reload lossless d es text written built =
        rw (lossless.reads_back d text written, built) refl

    reload_same :
        (file : Option Text) (c : AuthCache)
        → load_auth_cache valid_uuid J file ≡ ok c
        → c.file ≡ file
    unfolding load_auth_cache
    reload_same none c h = ap (λ (x : AuthCache). x.file) (sym (only h))
    reload_same (some text) c h =
        let (d, parsed, more) = >>=-eq-ok (or_internal (J.unmarshal text)) _ h in
        let (es, built, rest) = >>=-eq-ok (build_auth_index valid_uuid d) _ more in
        ap (λ (x : AuthCache). x.file) (sym (only rest))

    -- A cache that an Agent comes to by starting, from whatever its file holds, and by taking
    -- snapshots is the one it has when it starts again from the file that it has then, if the JSON of a
    -- document is read back as the document.
    pub load_auth_cache-Reachable :
        IsLossless J
        → (c : AuthCache) → Reachable valid_uuid J c
        → load_auth_cache valid_uuid J c.file ≡ ok c
    load_auth_cache-Reachable lossless c (loaded file h) =
        subst (λ f. load_auth_cache valid_uuid J f ≡ ok c) (sym (reload_same file c h)) h
    load_auth_cache-Reachable lossless c (applied saved s hash at b r h) =
        let a = apply-Applied saved s hash at b c h in
        subst (λ (x : AuthCache). load_auth_cache valid_uuid J x.file ≡ ok x) a.is
          (stored_reload lossless (document_of s hash at) a.entries a.text a.written a.built)

  module _ (J : JsonCodec) (sha256 : Text → Text) where
    -- In a cache that an Agent comes to, a secret signs in the user of the cached document whose
    -- verifier is its hash, who is enabled and neither expired nor limited, and no one where there is
    -- none; there is never more than one.
    pub authenticate-may_sign_in :
        (c : AuthCache) (secret : Text) (now : ℕ)
        → Reachable valid_uuid J c
        → (authenticate sha256 secret now c
            ≡ Option.map (λ u. u.id) (find (may_sign_in (sha256 secret) now) c.document.users))
          × (count (may_sign_in (sha256 secret) now) c.document.users ≤ 1)
    unfolding authenticate may_sign_in
    authenticate-may_sign_in c secret now r =
        let kept = Reachable-Kept J c r in
        let hash = sha256 secret in
        let distinct = index_users-Distinct valid_uuid c.document.users [] c.entries [] hash kept in
        let looked = index-lookup valid_uuid c.document.users c.entries hash kept in
        let both = find_both (has_verifier hash) (may_pass now) c.document.users distinct in
        (
          ap (admit_entry hash now) looked
              ∙ admit_entry-map hash now (find (has_verifier hash) c.document.users)
              ∙ ap (Option.map (λ (u : CachedAuthUser). u.id)) (sym both),
          count_both (has_verifier hash) (may_pass now) c.document.users distinct,
        )
