-- ===== src/Agent/AuthCache/Fixtures.antt =====
-- A codec of documents for the examples: numbers as they are, texts and users after their lengths.
use poly_fleet.Base.{
  ℕ, zero, suc, ◌≡◌, refl, ap, subst, Bool, true, false, not, Option, none, some, List, [], ◌∷◌,
  ◌++◌, ◌==◌, if◌then◌else◌, take, drop, length, arith,
}
use poly_fleet.Schema.{Text, ℤ, pos, negsuc}
use poly_fleet.Store.Secret.{take_append, drop_append}
use poly_fleet.Agent.AuthCache.{CachedAuthUser, AuthCacheDocument, JsonCodec, IsLossless}

unfoldable pub put_text : Text → Text → Text
put_text t rest = length t ∷ (t ++ rest)

unfoldable pub first_text : Text → Text
first_text [] = []
first_text (n ∷ s) = take n s

unfoldable pub rest_text : Text → Text
rest_text [] = []
rest_text (n ∷ s) = drop n s

first_text-put : (t rest : Text) → first_text (put_text t rest) ≡ t
unfolding first_text put_text
first_text-put t rest = take_append t rest

rest_text-put : (t rest : Text) → rest_text (put_text t rest) ≡ rest
unfolding rest_text put_text
rest_text-put t rest = drop_append t rest

abbrev number_at : ℕ → Text → ℕ
number_at k [] = 0
number_at zero (x ∷ s) = x
number_at (suc k) (x ∷ s) = number_at k s

abbrev flag : Bool → ℕ
flag true = 1
flag false = 0

abbrev is_set : ℕ → Bool
is_set n = not (n == 0)

abbrev expiry_code : Option ℕ → ℕ
expiry_code none = 0
expiry_code (some e) = suc e

abbrev expiry_of : ℕ → Option ℕ
expiry_of zero = none
expiry_of (suc e) = some e

abbrev version_code : ℤ → Text → Text
version_code (pos n) rest = 0 ∷ n ∷ rest
version_code (negsuc n) rest = 1 ∷ n ∷ rest

abbrev version_of : Text → ℤ
version_of s = if number_at 0 s == 0 then pos (number_at 1 s) else negsuc (number_at 1 s)

abbrev put_user_texts : CachedAuthUser → Text → Text
put_user_texts u rest =
    put_text u.username
      (put_text u.fingerprint (put_text u.verifier_sha256 (put_text u.quota_state rest)))

unfoldable pub put_user : CachedAuthUser → Text → Text
put_user u rest =
    u.id ∷ u.credential_ref ∷ flag u.enabled ∷ expiry_code u.expires_at ∷ put_user_texts u rest

unfoldable pub user_of : Text → CachedAuthUser
user_of s =
    let t = drop 4 s in
    record {
      id = number_at 0 s;
      username = first_text t;
      credential_ref = number_at 1 s;
      fingerprint = first_text (rest_text t);
      verifier_sha256 = first_text (rest_text (rest_text t));
      enabled = is_set (number_at 2 s);
      expires_at = expiry_of (number_at 3 s);
      quota_state = first_text (rest_text (rest_text (rest_text t)));
    }

unfoldable pub after_user : Text → Text
after_user s = rest_text (rest_text (rest_text (rest_text (drop 4 s))))

flag_back : (b : Bool) → is_set (flag b) ≡ b
flag_back true = refl
flag_back false = refl

expiry_back : (o : Option ℕ) → expiry_of (expiry_code o) ≡ o
expiry_back none = refl
expiry_back (some e) = refl

user_of-put_user : (u : CachedAuthUser) (rest : Text) → user_of (put_user u rest) ≡ u
unfolding user_of put_user
user_of-put_user u rest = simp (rest_text-put, first_text-put, flag_back, expiry_back) refl

after_user-put_user : (u : CachedAuthUser) (rest : Text) → after_user (put_user u rest) ≡ rest
unfolding after_user put_user
after_user-put_user u rest = simp (rest_text-put) refl

unfoldable pub put_users : List CachedAuthUser → Text
put_users [] = []
put_users (u ∷ us) = put_user u (put_users us)

unfoldable pub users_of : ℕ → Text → List CachedAuthUser
users_of zero s = []
users_of (suc n) s = user_of s ∷ users_of n (after_user s)

users_of-put_users : (us : List CachedAuthUser) → users_of (length us) (put_users us) ≡ us
unfolding users_of put_users
users_of-put_users [] = refl
users_of-put_users (u ∷ us) =
    rw (user_of-put_user, after_user-put_user)
      (ap (λ (xs : List CachedAuthUser). u ∷ xs) (users_of-put_users us))

abbrev json_of : ℤ → AuthCacheDocument → Text
json_of version d = version_code version (
    d.schema_version
    ∷ d.node_id
    ∷ d.applied_at
    ∷ length d.users
    ∷ put_text d.snapshot_hash (put_users d.users))

unfoldable pub marshal : AuthCacheDocument → Option Text
marshal d = some (json_of d.desired_version d)

unfoldable pub unmarshal : Text → Option AuthCacheDocument
unmarshal s = some (record {
  schema_version = number_at 2 s;
  node_id = number_at 3 s;
  desired_version = version_of s;
  snapshot_hash = first_text (drop 6 s);
  applied_at = number_at 4 s;
  users = users_of (number_at 5 s) (rest_text (drop 6 s));
})

abbrev pub codec : JsonCodec
codec = record { marshal = marshal; unmarshal = unmarshal }

unmarshal-json_of :
    (version : ℤ) (d : AuthCacheDocument)
    → unmarshal (json_of version d) ≡ some (record d { desired_version = version })
unfolding unmarshal
unmarshal-json_of (pos n) d = simp (rest_text-put, first_text-put, users_of-put_users) refl
unmarshal-json_of (negsuc n) d = simp (rest_text-put, first_text-put, users_of-put_users) refl

pub codec-IsLossless : IsLossless codec
unfolding marshal
codec-IsLossless = record { reads_back = reads_back }
  where
    reads_back :
        (d : AuthCacheDocument) (text : Text)
        → codec.marshal d ≡ some text
        → codec.unmarshal text ≡ some d
    reads_back d text h =
        subst (λ t. unmarshal t ≡ some d) (ground arith) (unmarshal-json_of d.desired_version d)
