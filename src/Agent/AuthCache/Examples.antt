-- ===== src/Agent/AuthCache/Examples.antt =====
-- An Agent with one user signs the user in, takes a newer snapshot, and starts again.
use poly_fleet.Base.{
  ℕ, Option, ◌≡◌, ◌≤◌, refl, Bool, true, none, some, [], ◌∷◌, ok, err, internal, find, count,
  exists,
}
use mathlib.Core.Option
use poly_fleet.Schema.{Text, pos, bytes}
use poly_fleet.Store.Texts.{same_text}
use poly_fleet.Base64.{sextet, sextets, join_sextets, decode}
use poly_fleet.Agent.AuthCache.{
  DesiredUser, DesiredSnapshot, AuthEntry, AuthCache, save_auth_cache, empty_cache, stored,
  check_user, index_users, build_auth_index, load_auth_cache, document_of, apply, admit,
  authenticate,
}
use poly_fleet.Agent.AuthCache.Fixtures.{codec, codec-IsLossless, marshal}
use poly_fleet.Agent.AuthCache.Admits.{
  Reachable, may_sign_in, load_auth_cache-Reachable, authenticate-may_sign_in, loaded, applied,
}
use poly_fleet.Agent.AuthCache.Versions.{Later, Takes-Later, here, then}

abbrev any_uuid : ℕ → Bool
any_uuid n = true

abbrev eight : ℕ → Text → Text
eight x s = x ∷ x ∷ x ∷ x ∷ x ∷ x ∷ x ∷ x ∷ s

-- A hash that repeats the first byte of the secret.
abbrev digest : Text → Text
digest [] = eight 1 (eight 1 (eight 1 (eight 1 [])))
digest (x ∷ s) = eight x (eight x (eight x (eight x [])))

-- The text of 32 zeros.
abbrev zeros : Text
zeros = eight 65 (eight 65 (eight 65 (eight 65 (eight 65 (65 ∷ 65 ∷ 65 ∷ [])))))

abbrev desired : DesiredUser
desired = record {
  id = 2;
  username = bytes "ann";
  credential = record { ref = 3; fingerprint = bytes "f"; verifier_sha256 = zeros };
  enabled = true;
  expires_at = some 100;
  quota_state = bytes "active";
}

abbrev snapshot : ℕ → DesiredSnapshot
snapshot version = record { node_id = 1; version = pos version; users = desired ∷ [] }

abbrev entry : AuthEntry
entry = record {
  id = 2;
  verifier = digest (0 ∷ []);
  enabled = true;
  expires_at = some 100;
  quota_state = bytes "active";
}

abbrev text_of : Option Text → Text
text_of none = []
text_of (some text) = text

abbrev cache : ℕ → AuthCache
cache version =
    stored (text_of (codec.marshal (document_of (snapshot version) zeros 50)))
      (document_of (snapshot version) zeros 50) ((digest (0 ∷ []), entry) ∷ [])

took_first : apply any_uuid codec true (snapshot 1) zeros 50 empty_cache ≡ ok (cache 1)
unfolding apply save_auth_cache marshal build_auth_index index_users check_user document_of decode
    sextets sextet join_sextets same_text exists
took_first = refl

took_second : apply any_uuid codec true (snapshot 2) zeros 50 (cache 1) ≡ ok (cache 2)
unfolding apply save_auth_cache marshal build_auth_index index_users check_user document_of decode
    sextets sextet join_sextets same_text exists
took_second = refl

-- An older version is refused.
refused_older : apply any_uuid codec true (snapshot 1) zeros 50 (cache 2) ≡ err internal
unfolding apply document_of same_text
refused_older = refl

first_Reachable : Reachable any_uuid codec (cache 1)
unfolding load_auth_cache
first_Reachable = applied true (snapshot 1) zeros 50 empty_cache (loaded none refl) took_first

second_Reachable : Reachable any_uuid codec (cache 2)
second_Reachable = applied true (snapshot 2) zeros 50 (cache 1) first_Reachable took_second

signs_in : authenticate digest (0 ∷ []) 60 (cache 2) ≡ some 2
unfolding authenticate admit find same_text
signs_in = refl

expired_out : authenticate digest (0 ∷ []) 100 (cache 2) ≡ none
unfolding authenticate admit find same_text
expired_out = refl

load_auth_cache-Reachable_example : load_auth_cache any_uuid codec (cache 2).file ≡ ok (cache 2)
load_auth_cache-Reachable_example =
    load_auth_cache-Reachable any_uuid codec codec-IsLossless (cache 2) second_Reachable

authenticate-may_sign_in_example :
    (authenticate digest (0 ∷ []) 60 (cache 2)
      ≡ Option.map (λ u. u.id) (find (may_sign_in (digest (0 ∷ [])) 60) (cache 2).document.users))
    × (count (may_sign_in (digest (0 ∷ [])) 60) (cache 2).document.users ≤ 1)
authenticate-may_sign_in_example =
    authenticate-may_sign_in any_uuid codec digest (cache 2) (0 ∷ []) 60 second_Reachable

Takes-Later_example : Later (cache 1).document (cache 2).document
Takes-Later_example =
    Takes-Later any_uuid codec (cache 1) (cache 2)
      (then true (snapshot 2) zeros 50 (cache 1) (cache 2) took_second here)
