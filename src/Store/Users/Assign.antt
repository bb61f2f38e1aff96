-- ===== src/Store/Users/Assign.antt =====
-- `assignUserTx`, `assignUserTxWithMode`, `AssignUser` and `CreateUser` of internal/store/user.go, with
-- `expiryEnforcedValue` of traffic.go. What is returned beside the secrets is the row of the user.
use poly_fleet.Base.{
  ℕ, suc, Bool, true, false, ◌&&◌, ◌||◌, not, Option, none, some, List, [], ◌∷◌, ◌==◌, ltb,
  if◌then◌else◌, Result, ok, err, not_found, conflict, unsupported, internal, ◌>>=◌, find, exists,
  length,
}
use poly_fleet.Schema.{
  Text, Db, Node, User, Adapter, native_hysteria2, s_ui, sing_box_vless_reality, Assignment,
  AssignmentState, ManagementMode, TrafficTotal, is_none, is_user, is_live_node,
}
use poly_fleet.Store.Secret.{Crypto}
use poly_fleet.Store.Snapshot.{bump_node_snapshot, mark_assignment_pending}
use poly_fleet.Store.Traffic.Account.{checked_add, quota_state_of}
use poly_fleet.Store.Users.Credential.{
  CreatedCredential, credential_protocol_for_adapter, create_user_credential, is_live_user,
  is_managed,
}

pub record NewUser : Type 0 where
  pub id : ℕ
  pub username : Text
  pub display_name : Text
  pub notes : Text
  pub enabled : Bool
  pub expires_at : Option ℕ
  pub traffic_limit_bytes : ℕ
  pub node_ids : List ℕ
  pub now : ℕ

-- `expiryEnforcedValue`
abbrev pub expiry_enforced_value : Option ℕ → ℕ → Option ℕ
expiry_enforced_value none now = none
expiry_enforced_value (some expires_at) now = if ltb now expires_at then none else some now

abbrev pub is_total : ℕ → ℕ → TrafficTotal → Bool
is_total node user t = (t.node_id == node) && (t.user_id == user)

-- What has been counted before, 0 and 0 where nothing has.
abbrev pub prior_traffic : Option TrafficTotal → ℕ × ℕ
prior_traffic none = (0, 0)
prior_traffic (some t) = (t.upload_bytes, t.download_bytes)

-- The checks of the mode; the remote identifier 0 is NULL.
unfoldable pub allows_mode : Adapter → ManagementMode → ℕ → List ℕ → Result Bool
allows_mode native_hysteria2 mode remote inbounds =
    if not (is_managed mode) || not (remote == 0) then err unsupported else ok true
allows_mode sing_box_vless_reality mode remote inbounds =
    if not (is_managed mode) || not (remote == 0) then err unsupported else ok true
allows_mode s_ui mode remote inbounds =
    if is_managed mode && ((remote == 0) && (length inbounds == 0)) then err conflict else ok true
allows_mode _ mode remote inbounds = ok true

abbrev null_if_zero : ℕ → Option ℕ
null_if_zero k = if k == 0 then none else some k

abbrev pub new_assignment : ℕ → ℕ → ℕ → ManagementMode → ℕ → ℕ → ℕ × ℕ → ℕ → ℕ → Assignment
new_assignment user node credential mode remote limit (upload, download) used now = record {
  node_id = node;
  user_id = user;
  enabled = true;
  management_mode = mode;
  remote_client_id = null_if_zero remote;
  desired_credential_id = credential;
  applied_credential_id = none;
  desired_version = 0;
  applied_version = 0;
  state = AssignmentState.pending;
  last_error_code = [];
  last_error_message = [];
  last_attempt_at = none;
  applied_at = none;
  traffic_upload_bytes = upload;
  traffic_download_bytes = download;
  traffic_used_bytes = used;
  traffic_limit_bytes = limit;
  quota_state = quota_state_of limit used;
  last_traffic_at = none;
  updated_at = now;
}

abbrev same_remote : Option ℕ → Option ℕ → Bool
same_remote (some a) (some b) = a == b
same_remote _ _ = false

-- UNIQUE(node_id, user_id), and for S-UI UNIQUE(node_id, remote_client_id). The identifier of an assignment, which is drawn, is not kept.
unfoldable pub insert_assignment : Assignment → Db → Result Db
insert_assignment a db =
    if exists
      (λ b.
        (b.node_id == a.node_id)
        && ((b.user_id == a.user_id) || same_remote b.remote_client_id a.remote_client_id))
      db.assignments
    then err conflict
    else ok (record db { assignments = a ∷ db.assignments; drawn = suc db.drawn })

abbrev pub or_overflow : Option ℕ → Result ℕ
or_overflow none = err internal
or_overflow (some used) = ok used

abbrev pub user_row : NewUser → User
user_row input = record {
  id = input.id;
  username = input.username;
  display_name = input.display_name;
  notes = input.notes;
  enabled = input.enabled;
  expires_at = input.expires_at;
  expiry_enforced_at = expiry_enforced_value input.expires_at input.now;
  archived_at = none;
  traffic_upload_bytes = 0;
  traffic_download_bytes = 0;
  traffic_used_bytes = 0;
  traffic_limit_bytes = input.traffic_limit_bytes;
  quota_state = quota_state_of input.traffic_limit_bytes 0;
  last_traffic_at = none;
  updated_at = input.now;
}

module _ (C : Crypto) (id_text : ℕ → Text) (new_uuid : ℕ → ℕ) where
  unfoldable pub assign_on :
      ℕ → ℕ → ℕ → ManagementMode → ℕ → ℕ → Text → Db → Node → Result (CreatedCredential × Db)
  assign_on user node limit mode remote now key db n =
      credential_protocol_for_adapter n.adapter_type >>= λ protocol.
      allows_mode n.adapter_type mode remote n.sui_target_inbound_ids >>= λ allowed.
      create_user_credential C id_text new_uuid user node protocol now key db
      >>= λ ((id, secret, fingerprint), created).
          let prior = prior_traffic (find (is_total node user) created.totals) in
          or_overflow (checked_add prior.0 prior.1) >>= λ used.
          insert_assignment (new_assignment user node id mode remote limit prior used now) created
          >>= λ inserted. bump_node_snapshot node now inserted >>= λ (version, bumped). ok (
            record {
              user_id = user;
              node_id = node;
              credential_id = id;
              fingerprint = fingerprint;
              protocol = protocol;
              desired_version = version;
              secret = secret;
            },
            mark_assignment_pending user node version now bumped,
          )

  unfoldable pub assign_user_with_mode :
      ℕ → ℕ → ℕ → ManagementMode → ℕ → ℕ → Text → Db → Result (CreatedCredential × Db)
  assign_user_with_mode user node limit mode remote now key db =
      elim (find (is_live_node node) db.nodes) [
        | none ↦ err not_found
        | some n ↦ assign_on user node limit mode remote now key db n
      ]

  -- `assignUserTx`
  abbrev pub assign_user_tx : ℕ → ℕ → ℕ → ℕ → Text → Db → Result (CreatedCredential × Db)
  assign_user_tx user node limit now key db =
      assign_user_with_mode user node limit ManagementMode.managed 0 now key db

  unfoldable pub assign_user : ℕ → ℕ → ℕ → ℕ → Text → Db → Result (CreatedCredential × Db)
  assign_user user node limit now key db =
      if exists (is_live_user user) db.users
      then assign_user_tx user node limit now key db
      else err not_found

  unfoldable pub assign_nodes : ℕ → List ℕ → ℕ → Text → Db → Result (List CreatedCredential × Db)
  assign_nodes user [] now key db = ok ([], db)
  assign_nodes user (node ∷ nodes) now key db =
      assign_user_tx user node 0 now key db >>= λ (credential, assigned).
      assign_nodes user nodes now key assigned >>= λ (credentials, db').
      ok (credential ∷ credentials, db')

  -- `same_name` is the comparison of names without case; the names of users that are not archived
  -- differ.
  unfoldable pub create_user :
      (Text → Text → Bool) → NewUser → Text → Db → Result (List CreatedCredential × Db)
  create_user same_name input key db =
      if exists
        (λ (u : User).
          is_user input.id u || (is_none u.archived_at && same_name u.username input.username))
        db.users
      then err conflict
      else assign_nodes input.id input.node_ids input.now key
          (record db { users = user_row input ∷ db.users })
