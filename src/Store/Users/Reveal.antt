-- ===== src/Store/Users/Reveal.antt =====
-- `RevealAssignmentCredential` of internal/store/user.go. Of the assignment that is returned with the
-- secret the fields are kept that `CreatedCredential` has.
use poly_fleet.Base.{
  ℕ, Bool, true, ◌||◌, not, Option, none, some, ◌==◌, if◌then◌else◌, Result, ok, err, not_found,
  conflict, StoreError, ◌>>=◌, find, exists,
}
use poly_fleet.Schema.{Text, Db, Node, Assignment, UserCredential, is_live_node, is_assignment}
use poly_fleet.Store.Secret.{Crypto, open_sealed}
use poly_fleet.Store.Users.Credential.{
  CreatedCredential, credential_key_version, credential_aad, is_live_user, is_managed,
}
use poly_fleet.Store.Users.Remove.{is_usable}

module _ (C : Crypto) (id_text : ℕ → Text) (new_uuid : ℕ → ℕ) where
  unfoldable pub reveal_found :
      ℕ → ℕ → Text → Assignment → UserCredential → Result CreatedCredential
  reveal_found user node key a c =
      if not (is_managed a.management_mode)
      then err StoreError.read_only
      else if not (c.key_version == credential_key_version) || not (is_usable c.state)
      then err conflict
      else (open_sealed C key c.secret_ciphertext
            (credential_aad C id_text new_uuid a.desired_credential_id user node c.protocol)
          >>= λ secret. ok (record {
            user_id = user;
            node_id = node;
            credential_id = a.desired_credential_id;
            fingerprint = c.secret_fingerprint;
            protocol = c.protocol;
            desired_version = a.desired_version;
            secret = secret;
          }))

  abbrev pub reveal_by :
      ℕ → ℕ → Text → Assignment → Option UserCredential → Result CreatedCredential
  reveal_by user node key a none = err not_found
  reveal_by user node key a (some c) = reveal_found user node key a c

  -- The joined row of the assignment, its user, its node and the credential that it desires.
  abbrev pub reveal_joined :
      ℕ → ℕ → Text → Db → Option Assignment → Bool → Option Node → Result CreatedCredential
  reveal_joined user node key db (some a) true (some n) =
      reveal_by user node key a (find (λ c. c.id == a.desired_credential_id) db.credentials)
  reveal_joined user node key db _ _ _ = err not_found

  unfoldable pub reveal_assignment_credential : ℕ → ℕ → Text → Db → Result CreatedCredential
  reveal_assignment_credential user node key db =
      reveal_joined user node key db (find (is_assignment node user) db.assignments)
        (exists (is_live_user user) db.users) (find (is_live_node node) db.nodes)
