-- ===== src/Agent/AuthCache.antt =====
-- `AuthCache` of internal/agent/auth_cache.go: the users that an Agent admits, by the SHA-256 of their
-- secrets. The file is its text, or none; `saved` says whether the writes to it succeed. The JSON of a
-- document is that of `JsonCodec`. `sha256` is the hash function, `uuid.Parse` succeeds where `valid_uuid` holds, and 0 is the
-- empty text. Instants are Unix milliseconds, so `UTC` is the identity.
use poly_fleet.Base.{
  ℕ, suc, ◌≡◌, or_internal, Bool, true, false, ◌&&◌, ◌||◌, not, Option, none, some, List, [], ◌∷◌,
  ◌==◌, leb, ltb, if◌then◌else◌, Result, ok, err, internal, ◌>>=◌, find, exists, length, map,
}
use poly_fleet.Schema.{Text, ℤ, pos, negsuc, bytes}
use poly_fleet.Store.Texts.{same_text, is_empty}
use poly_fleet.Base64.{decode}
pub mod Index
pub mod Admits
pub mod Versions
mod Fixtures
mod Examples

-- The fields of `protocol.DesiredUser` and `DesiredSnapshot` that the cache reads.
pub record DesiredCredential : Type 0 where
  pub ref : ℕ
  pub fingerprint : Text
  pub verifier_sha256 : Text

pub record DesiredUser : Type 0 where
  pub id : ℕ
  pub username : Text
  pub credential : DesiredCredential
  pub enabled : Bool
  pub expires_at : Option ℕ
  pub quota_state : Text

pub record DesiredSnapshot : Type 0 where
  pub node_id : ℕ
  pub version : ℤ
  pub users : List DesiredUser

pub record CachedAuthUser : Type 0 where
  pub id : ℕ
  pub username : Text
  pub credential_ref : ℕ
  pub fingerprint : Text
  pub verifier_sha256 : Text
  pub enabled : Bool
  pub expires_at : Option ℕ
  pub quota_state : Text

pub record AuthCacheDocument : Type 0 where
  pub schema_version : ℕ
  pub node_id : ℕ
  pub desired_version : ℤ
  pub snapshot_hash : Text
  pub applied_at : ℕ
  pub users : List CachedAuthUser

pub record AuthEntry : Type 0 where
  pub id : ℕ
  pub verifier : Text
  pub enabled : Bool
  pub expires_at : Option ℕ
  pub quota_state : Text

-- A map is the list of its keys and values; a key is put into it once.
pub record AuthCache : Type 0 where
  pub file : Option Text
  pub document : AuthCacheDocument
  pub entries : List (Text × AuthEntry)

-- `json.MarshalIndent` and `json.Unmarshal` of Go's `encoding/json`, none where they fail.
pub record JsonCodec : Type 0 where
  pub marshal : AuthCacheDocument → Option Text
  pub unmarshal : Text → Option AuthCacheDocument

-- What has been marshalled is read back. Texts are valid UTF-8, as those of a snapshot, which comes
-- in JSON.
pub record IsLossless (J : JsonCodec) : Type 0 where
  pub reads_back :
      (d : AuthCacheDocument) (text : Text) → J.marshal d ≡ some text → J.unmarshal text ≡ some d

abbrev pub has_key : Text → Text × AuthEntry → Bool
has_key v (k, e) = same_text k v

abbrev pub entry_of : CachedAuthUser → Text → AuthEntry
entry_of u v = record {
  id = u.id;
  verifier = v;
  enabled = u.enabled;
  expires_at = u.expires_at;
  quota_state = u.quota_state;
}

abbrev pub is_quota_state : Text → Bool
is_quota_state s =
    same_text s (bytes "unlimited")
    || (same_text s (bytes "active") || same_text s (bytes "limited"))

-- `decoded` has the size of a hash.
abbrev pub of_size : Option Text → Result Text
of_size none = err internal
of_size (some decoded) = if length decoded == 32 then ok decoded else err internal

abbrev is_positive : ℤ → Bool
is_positive (pos n) = ltb 0 n
is_positive (negsuc n) = false

abbrev is_negative : ℤ → Bool
is_negative (pos n) = false
is_negative (negsuc n) = true

abbrev is_hash : Text → Bool
is_hash s = elim (of_size (decode s)) [ ok decoded ↦ true | err cause ↦ false ]

abbrev auth_cache_schema_version : ℕ
auth_cache_schema_version = 1

abbrev max_cached_auth_users : ℕ
max_cached_auth_users = 10000

abbrev pub no_document : AuthCacheDocument
no_document = record {
  schema_version = auth_cache_schema_version;
  node_id = 0;
  desired_version = pos 0;
  snapshot_hash = [];
  applied_at = 0;
  users = [];
}

abbrev cached_user : DesiredUser → CachedAuthUser
cached_user u = record {
  id = u.id;
  username = u.username;
  credential_ref = u.credential.ref;
  fingerprint = u.credential.fingerprint;
  verifier_sha256 = u.credential.verifier_sha256;
  enabled = u.enabled;
  expires_at = u.expires_at;
  quota_state = u.quota_state;
}

unfoldable pub document_of : DesiredSnapshot → Text → ℕ → AuthCacheDocument
document_of s hash applied_at = record {
  schema_version = auth_cache_schema_version;
  node_id = s.node_id;
  desired_version = s.version;
  snapshot_hash = hash;
  applied_at = applied_at;
  users = map cached_user s.users;
}

-- `<` and `==` on int64
abbrev pub ltb_ℤ : ℤ → ℤ → Bool
ltb_ℤ (pos a) (pos b) = ltb a b
ltb_ℤ (pos a) (negsuc b) = false
ltb_ℤ (negsuc a) (pos b) = true
ltb_ℤ (negsuc a) (negsuc b) = ltb b a

abbrev pub same_ℤ : ℤ → ℤ → Bool
same_ℤ (pos a) (pos b) = a == b
same_ℤ (negsuc a) (negsuc b) = a == b
same_ℤ _ _ = false

abbrev pub is_of_other_node : DesiredSnapshot → AuthCacheDocument → Bool
is_of_other_node s d = not (d.node_id == 0) && not (d.node_id == s.node_id)

abbrev pub is_stale_snapshot : DesiredSnapshot → Text → AuthCacheDocument → Bool
is_stale_snapshot s hash d =
    ltb_ℤ s.version d.desired_version
    || (same_ℤ s.version d.desired_version
        && (not (is_empty d.snapshot_hash) && not (same_text d.snapshot_hash hash)))

abbrev pub empty_cache : AuthCache
empty_cache = record { file = none; document = no_document; entries = [] }

-- The cache of a document, with the text of its file.
abbrev pub stored : Text → AuthCacheDocument → List (Text × AuthEntry) → AuthCache
stored text document entries = record { file = some text; document = document; entries = entries }

-- `saveAuthCache`: the text that the file gets.
unfoldable pub save_auth_cache : JsonCodec → Bool → AuthCacheDocument → Result Text
save_auth_cache J saved d =
    or_internal (J.marshal d) >>= λ text. if saved then ok text else err internal

module _ (valid_uuid : ℕ → Bool) where
  abbrev pub bad_identity : CachedAuthUser → Bool
  bad_identity u =
      not (valid_uuid u.id) || (ltb (length u.username) 1 || ltb 64 (length u.username))

  abbrev pub bad_credential : CachedAuthUser → Bool
  bad_credential u =
      not (valid_uuid u.credential_ref) || (is_empty u.fingerprint || ltb 64 (length u.fingerprint))

  -- The checks of one user, up to the verifier.
  unfoldable pub check_user : CachedAuthUser → Result Text
  check_user u =
      if bad_identity u
      then err internal
      else if bad_credential u
      then err internal
      else if not (is_quota_state u.quota_state)
      then err internal
      else of_size (decode u.verifier_sha256)

  -- The loop over the users.
  unfoldable pub index_users :
      List CachedAuthUser → List (Text × AuthEntry) → List ℕ → Result (List (Text × AuthEntry))
  index_users [] entries seen = ok entries
  index_users (u ∷ us) entries seen = check_user u >>= λ v.
      if exists (has_key v) entries
      then err internal
      else if exists (λ (k : ℕ). k == u.id) seen
      then err internal
      else index_users us ((v, entry_of u v) ∷ entries) (u.id ∷ seen)

  unfoldable pub build_auth_index : AuthCacheDocument → Result (List (Text × AuthEntry))
  build_auth_index d =
      if not (d.schema_version == auth_cache_schema_version)
      then err internal
      else if is_negative d.desired_version || ltb max_cached_auth_users (length d.users)
      then err internal
      else if is_positive d.desired_version
          && (not (valid_uuid d.node_id) || not (is_hash d.snapshot_hash))
      then err internal
      else index_users d.users [] []

  module _ (J : JsonCodec) where
    -- From the text of the file, if it can be read.
    unfoldable pub load_auth_cache : Option Text → Result AuthCache
    load_auth_cache none = ok empty_cache
    load_auth_cache (some text) = or_internal (J.unmarshal text) >>= λ document.
        build_auth_index document >>= λ entries. ok (stored text document entries)

    -- The new cache only comes once the file has been written.
    unfoldable pub apply : Bool → DesiredSnapshot → Text → ℕ → AuthCache → Result AuthCache
    apply saved s hash applied_at c =
        if is_of_other_node s c.document
        then err internal
        else if is_stale_snapshot s hash c.document
        then err internal
        else build_auth_index (document_of s hash applied_at) >>= λ entries.
            save_auth_cache J saved (document_of s hash applied_at) >>= λ text.
            ok (stored text (document_of s hash applied_at) entries)

abbrev pub is_past : ℕ → Option ℕ → Bool
is_past now none = false
is_past now (some expires_at) = not (ltb now expires_at)

-- The decision about an entry, from the comparison of the hashes on.
unfoldable pub admit : Text → ℕ → AuthEntry → Option ℕ
admit verifier now e =
    if not (same_text verifier e.verifier) || not e.enabled
    then none
    else if is_past now e.expires_at
    then none
    else if same_text e.quota_state (bytes "limited")
    then none
    else some e.id

abbrev pub admit_entry : Text → ℕ → Option (Text × AuthEntry) → Option ℕ
admit_entry verifier now none = none
admit_entry verifier now (some (k, e)) = admit verifier now e

module _ (sha256 : Text → Text) where
  -- The user whose secret it is, or none.
  unfoldable pub authenticate : Text → ℕ → AuthCache → Option ℕ
  authenticate secret now c =
      admit_entry (sha256 secret) now (find (has_key (sha256 secret)) c.entries)

unfoldable pub metadata : AuthCache → ℕ × ℤ × ℕ
metadata c = (c.document.node_id, c.document.desired_version, length c.entries)
