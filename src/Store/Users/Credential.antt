-- ===== src/Store/Users/Credential.antt =====
-- `createUserCredentialTx`, `rotateAssignmentCredentialTx`, `RotateAssignmentCredential` and
-- `RotateUserCredentials` of internal/store/user.go, with `credentialProtocolForAdapter` of
-- reality.go. Of the assignment that is returned with a secret the fields are kept that are computed
-- here.
use poly_fleet.Base.{
  ℕ, suc, Bool, true, false, ◌&&◌, not, Option, none, some, List, [], ◌∷◌, ◌++◌, map, ◌==◌, leb,
  if◌then◌else◌, Result, ok, err, not_found, pending, unsupported, StoreError, ◌>>=◌, find, exists,
  select, update, take,
}
use poly_fleet.Schema.{
  Text, Db, Node, User, Adapter, native_hysteria2, standalone_sing_box, s_ui,
  sing_box_vless_reality, Assignment, AssignmentState, ManagementMode, CredentialProtocol,
  hysteria2, vless, CredentialState, bytes, is_none, is_user, is_live_node, is_assignment,
}
use poly_fleet.Base64.{encode}
use poly_fleet.Store.Secret.{Crypto, seal}
use poly_fleet.Store.Snapshot.{bump_node_snapshot, mark_assignment_pending}

pub record CreatedCredential : Type 0 where
  pub user_id : ℕ
  pub node_id : ℕ
  pub credential_id : ℕ
  pub fingerprint : Text
  pub protocol : CredentialProtocol
  pub desired_version : ℕ
  pub secret : Text

unfoldable pub credential_protocol_for_adapter : Adapter → Result CredentialProtocol
credential_protocol_for_adapter native_hysteria2 = ok hysteria2
credential_protocol_for_adapter s_ui = ok hysteria2
credential_protocol_for_adapter sing_box_vless_reality = ok vless
credential_protocol_for_adapter standalone_sing_box = err unsupported

abbrev protocol_text : CredentialProtocol → Text
protocol_text hysteria2 = bytes "hysteria2"
protocol_text vless = bytes "vless"

abbrev pub credential_key_version : ℕ
credential_key_version = 1

-- `WHERE id = ? AND archived_at IS NULL`
abbrev pub is_live_user : ℕ → User → Bool
is_live_user k u = is_user k u && is_none u.archived_at

abbrev pub is_managed : ManagementMode → Bool
is_managed ManagementMode.managed = true
is_managed ManagementMode.read_only = false

abbrev is_applied_state : AssignmentState → Bool
is_applied_state AssignmentState.applied = true
is_applied_state _ = false

abbrev is_id : ℕ → Option ℕ → Bool
is_id k none = false
is_id k (some id) = id == k

-- The assignment has its desired credential in force.
abbrev pub is_current : Assignment → Bool
is_current a =
    is_applied_state a.state
    && (leb a.desired_version a.applied_version
        && (not (a.desired_credential_id == 0)
            && is_id a.desired_credential_id a.applied_credential_id))

unfoldable pub stage_credential : ℕ → ℕ → ℕ → ℕ → Db → Db
stage_credential user node credential now db = record db {
  assignments =
      update (is_assignment node user)
        (λ a. record a {
          desired_credential_id = credential;
          state = AssignmentState.pending;
          last_error_code = [];
          last_error_message = [];
          updated_at = now;
        })
        db.assignments;
}

-- The managed assignments to nodes that are not archived. The names of nodes, by which the code
-- orders them, are not kept; the order is that of the table.
abbrev pub is_rotation_target : ℕ → Db → Assignment → Bool
is_rotation_target user db a =
    (a.user_id == user)
    && (is_managed a.management_mode && exists (is_live_node a.node_id) db.nodes)

module _ (C : Crypto) (id_text : ℕ → Text) (new_uuid : ℕ → ℕ) where
  -- `credentialAAD`
  abbrev pub credential_aad : ℕ → ℕ → ℕ → CredentialProtocol → Text
  credential_aad credential user node protocol =
      id_text credential
      ++ (0
          ∷ (id_text user
              ++ (0 ∷ (id_text node ++ (0 ∷ (protocol_text protocol ++ (0 ∷ bytes "v1")))))))

  -- A random token, or the text of a random UUID.
  abbrev new_secret : CredentialProtocol → ℕ → Text
  new_secret hysteria2 draw = C.random_token draw
  new_secret vless draw = id_text (new_uuid draw)

  abbrev fingerprint_of : Text → Text
  fingerprint_of secret = bytes "fp_" ++ encode (take 6 (C.sha256 secret))

  -- The identifier, the secret and the fingerprint; the identifier is new, as it is drawn.
  unfoldable pub create_user_credential :
      ℕ → ℕ → CredentialProtocol → ℕ → Text → Db → Result ((ℕ × Text × Text) × Db)
  create_user_credential user node protocol now key db =
      let secret = new_secret protocol db.drawn in
      let id = new_uuid (suc db.drawn) in
      seal C (suc (suc db.drawn)) key secret (credential_aad id user node protocol)
      >>= λ ciphertext. ok (
        (id, secret, fingerprint_of secret),
        record db {
          credentials =
              record {
                id = id;
                user_id = user;
                node_id = node;
                protocol = protocol;
                secret_ciphertext = ciphertext;
                verifier_sha256 = C.sha256 secret;
                secret_fingerprint = fingerprint_of secret;
                key_version = credential_key_version;
                state = CredentialState.staged;
                created_at = now;
                applied_at = none;
                retired_at = none;
                revoked_at = none;
              }
              ∷ db.credentials;
          drawn = suc (suc (suc db.drawn));
        },
      )

  -- From the new credential on.
  unfoldable pub stage_rotation :
      ℕ → ℕ → CredentialProtocol → ℕ → Text → Db → Result (CreatedCredential × Db)
  stage_rotation user node protocol now key db =
      create_user_credential user node protocol now key db
      >>= λ ((id, secret, fingerprint), created).
          bump_node_snapshot node now (stage_credential user node id now created)
          >>= λ (version, bumped). ok (
            record {
              user_id = user;
              node_id = node;
              credential_id = id;
              fingerprint = fingerprint;
              protocol = protocol;
              desired_version = version;
              secret = secret;
            },
            mark_assignment_pending user node version now bumped,
          )

  abbrev pub rotate_found :
      ℕ → ℕ → ℕ → Text → Db → Assignment → Node → Result (CreatedCredential × Db)
  rotate_found user node now key db a n =
      if not (is_managed a.management_mode)
      then err StoreError.read_only
      else (credential_protocol_for_adapter n.adapter_type >>= λ protocol.
          if is_current a then stage_rotation user node protocol now key db else err pending)

  -- The joined row of the assignment, its user and its node.
  abbrev pub rotate_joined :
      ℕ
      → ℕ
      → ℕ
      → Text
      → Db
      → Option Assignment
      → Bool
      → Option Node
      → Result (CreatedCredential × Db)
  rotate_joined user node now key db (some a) true (some n) = rotate_found user node now key db a n
  rotate_joined user node now key db _ _ _ = err not_found

  unfoldable pub rotate_assignment_credential :
      ℕ → ℕ → ℕ → Text → Db → Result (CreatedCredential × Db)
  rotate_assignment_credential user node now key db =
      rotate_joined user node now key db (find (is_assignment node user) db.assignments)
        (exists (is_live_user user) db.users) (find (is_live_node node) db.nodes)

  unfoldable pub rotate_nodes : ℕ → List ℕ → ℕ → Text → Db → Result (List CreatedCredential × Db)
  rotate_nodes user [] now key db = ok ([], db)
  rotate_nodes user (node ∷ nodes) now key db =
      rotate_assignment_credential user node now key db >>= λ (credential, rotated).
      rotate_nodes user nodes now key rotated >>= λ (credentials, db').
      ok (credential ∷ credentials, db')

  unfoldable pub rotate_user_credentials : ℕ → ℕ → Text → Db → Result (List CreatedCredential × Db)
  rotate_user_credentials user now key db =
      if exists (is_live_user user) db.users
      then rotate_nodes user
          (map (λ a. a.node_id) (select (is_rotation_target user db) db.assignments)) now key db
      else err not_found
