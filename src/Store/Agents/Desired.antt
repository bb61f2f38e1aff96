-- ===== src/Store/Agents/Desired.antt =====
-- `AcknowledgeDesired` and `AcknowledgeDesiredWithMaterial` of internal/store/agent.go, with
-- `validAppliedRealityMaterial` of reality.go. The hash of a snapshot, which no method changes, is
-- `hash_of` of its primary key.
use poly_fleet.Base.{
  ℕ, Bool, true, false, ◌&&◌, ◌||◌, not, Option, none, some, List, [], ◌∷◌, ◌++◌, ◌==◌, leb,
  if◌then◌else◌, Result, ok, err, conflict, version_conflict, internal, ◌>>=◌, find, exists, update,
  count, length, take,
}
use poly_fleet.Schema.{
  Text, ℤ, pos, negsuc, Db, Node, NodeStatus, Assignment, AssignmentState, CredentialState,
  UserCredential, RealityRow, AgentIdentity, bytes, is_node, is_live_node,
}
use poly_fleet.Store.Texts.{same_text, is_empty}
use poly_fleet.Base64.{decode}
use poly_fleet.Store.Agents.Tokens.{adapter_code, is_reality}
use poly_fleet.Store.Agents.Invalidate.{is_desired, is_applied, or_now}

pub record AppliedRealityMaterial : Type 0 where
  pub key_generation : ℤ
  pub public_key : Text
  pub short_id : Text

abbrev is_positive : ℤ → Bool
is_positive (pos n) = leb 1 n
is_positive (negsuc n) = false

-- '0' to '9' and 'a' to 'f'.
abbrev is_hex : ℕ → Bool
is_hex c = (leb 48 c && leb c 57) || (leb 97 c && leb c 102)

unfoldable pub all_hex : Text → Bool
all_hex [] = true
all_hex (c ∷ s) = is_hex c && all_hex s

abbrev has_key_size : Option Text → Bool
has_key_size none = false
has_key_size (some decoded) = length decoded == 32

unfoldable pub valid_applied_reality_material : AppliedRealityMaterial → Bool
valid_applied_reality_material m =
    is_positive m.key_generation
    && ((length m.short_id == 16) && (has_key_size (decode m.public_key) && all_hex m.short_id))

abbrev pub same_generation : ℤ → ℕ → Bool
same_generation (pos k) n = k == n
same_generation (negsuc k) n = false

-- The material was reported before, with another key or identifier.
abbrev pub contradicts : AppliedRealityMaterial → RealityRow → Bool
contradicts m r =
    same_generation m.key_generation r.applied_key_generation
    && ((not (is_empty r.public_key) || not (is_empty r.short_id))
        && (not (same_text r.public_key m.public_key) || not (same_text r.short_id m.short_id)))

-- UPDATE node_vless_reality ... WHERE node_id = ? AND desired_key_generation = ?
unfoldable pub store_material : ℕ → ℕ → AppliedRealityMaterial → ℕ → ℕ → Db → Result Db
store_material node generation m version now db =
    if count (λ r. (r.node_id == node) && (r.desired_key_generation == generation)) db.realities
      == 1
    then ok (record db {
      realities =
          update (λ r. (r.node_id == node) && (r.desired_key_generation == generation))
            (λ r. record r {
              applied_key_generation = generation;
              public_key = m.public_key;
              short_id = m.short_id;
              material_applied_version = version;
              material_reported_at = some now;
              updated_at = now;
            })
            db.realities;
    })
    else err version_conflict

abbrev pub accept_known : ℕ → AppliedRealityMaterial → ℕ → ℕ → Db → Option RealityRow → Result Db
accept_known node m version now db none = err internal
accept_known node m version now db (some r) =
    if not (same_generation m.key_generation r.desired_key_generation)
    then err version_conflict
    else if contradicts m r
    then err conflict
    else store_material node r.desired_key_generation m version now db

unfoldable pub accept_material : ℕ → Option AppliedRealityMaterial → ℕ → ℕ → Db → Result Db
accept_material node none version now db = err conflict
accept_material node (some m) version now db =
    if valid_applied_reality_material m
    then accept_known node m version now db (find (λ r. r.node_id == node) db.realities)
    else err conflict

-- The material that comes with an acknowledgement, by the adapter.
unfoldable pub take_material :
    Bool → Bool → ℕ → Option AppliedRealityMaterial → ℕ → ℕ → Db → Result Db
take_material true true node material version now db = accept_material node material version now db
take_material true false node material version now db = ok db
take_material false applied node none version now db = ok db
take_material false applied node (some m) version now db = err conflict

abbrev result_status : Bool → NodeStatus
result_status enabled = if enabled then NodeStatus.online else NodeStatus.disabled

abbrev pub applied_node : Bool → ℕ → ℕ → Node → Node
applied_node enabled version now n = record n {
  applied_version = version;
  status = result_status enabled;
  status_reason = [];
  last_applied_at = some now;
  updated_at = now;
}

abbrev pub is_staged : CredentialState → Bool
is_staged CredentialState.staged = true
is_staged _ = false

-- The credentials that are no longer desired, and then those that are.
unfoldable pub retire_credentials :
    ℕ → ℕ → List Assignment → List UserCredential → List UserCredential
retire_credentials node now assignments =
    update (λ c. (c.node_id == node) && (is_applied c.state && not (is_desired node assignments c)))
      (λ c. record c { state = CredentialState.retired; retired_at = some now })

unfoldable pub apply_credentials :
    ℕ → ℕ → List Assignment → List UserCredential → List UserCredential
apply_credentials node now assignments =
    update (λ c. (c.node_id == node) && (is_staged c.state && is_desired node assignments c))
      (λ c. record c { state = CredentialState.applied; applied_at = or_now c.applied_at now })

abbrev pub is_reached : ℕ → ℕ → Assignment → Bool
is_reached node version a = (a.node_id == node) && leb a.desired_version version

unfoldable pub apply_assignments : ℕ → ℕ → ℕ → List Assignment → List Assignment
apply_assignments node version now = update (is_reached node version) (λ a. record a {
  applied_credential_id = some a.desired_credential_id;
  applied_version = version;
  state = AssignmentState.applied;
  last_error_code = [];
  last_error_message = [];
  last_attempt_at = some now;
  applied_at = some now;
  updated_at = now;
})

unfoldable pub settle_applied : AgentIdentity → ℕ → ℕ → Db → Db
settle_applied identity version now db = record db {
  nodes = update (is_node identity.node_id) (applied_node identity.enabled version now) db.nodes;
  credentials =
      apply_credentials identity.node_id now db.assignments
        (retire_credentials identity.node_id now db.assignments db.credentials);
  assignments = apply_assignments identity.node_id version now db.assignments;
}

-- ": " is 58 and 32.
abbrev failure_reason : Text → Text → Text
failure_reason code message = if is_empty message then code else code ++ (58 ∷ 32 ∷ message)

unfoldable pub settle_failed : ℕ → ℕ → Text → Text → ℕ → Db → Db
settle_failed node version code message now db = record db {
  nodes =
      update (is_node node)
        (λ n. record n {
          status = NodeStatus.degraded;
          status_reason = failure_reason code message;
          updated_at = now;
        })
        db.nodes;
  assignments =
      update (is_reached node version)
        (λ a. record a {
          state = AssignmentState.failed;
          last_error_code = code;
          last_error_message = message;
          last_attempt_at = some now;
          updated_at = now;
        })
        db.assignments;
}

abbrev pub is_applied_status : Text → Bool
is_applied_status status = same_text status (bytes "applied")

-- The desired acknowledgement is for another version, snapshot, adapter or installation.
abbrev pub misses : AgentIdentity → ℕ → Text → Text → Node → Bool
misses identity version hash expected n =
    (not (version == n.desired_version) || not (same_text hash expected))
    || (not (adapter_code identity.adapter_type == adapter_code n.adapter_type)
        || (not (identity.installation_id == 0)
            && not (identity.installation_id == n.agent_installation_id)))

module _ (hash_of : ℕ → ℕ → Text) where
  unfoldable pub acknowledge_found :
      AgentIdentity
      → ℕ
      → Text
      → Text
      → Text
      → Text
      → Option AppliedRealityMaterial
      → ℕ
      → Db
      → Node
      → Result Db
  acknowledge_found identity version hash status code message material now db n =
      if misses identity version hash (hash_of identity.node_id version) n
      then err version_conflict
      else (take_material (is_reality n.adapter_type) (is_applied_status status) identity.node_id
            material version now db
          >>= λ db'. ok (
              if is_applied_status status
              then settle_applied identity version now db'
              else settle_failed identity.node_id version code (take 240 message) now db'))

  abbrev pub acknowledge_by :
      AgentIdentity
      → ℕ
      → Text
      → Text
      → Text
      → Text
      → Option AppliedRealityMaterial
      → ℕ
      → Db
      → Bool
      → Option Node
      → Result Db
  acknowledge_by identity version hash status code message material now db true (some n) =
      acknowledge_found identity version hash status code message material now db n
  acknowledge_by identity version hash status code message material now db _ _ =
      err version_conflict

  unfoldable pub acknowledge_desired_with_material :
      AgentIdentity
      → ℕ
      → Text
      → Text
      → Text
      → Text
      → Option AppliedRealityMaterial
      → ℕ
      → Db
      → Result Db
  acknowledge_desired_with_material identity version hash status code message material now db =
      acknowledge_by identity version hash status code message material now db
        (exists (λ s. (s.node_id == identity.node_id) && (s.version == version)) db.snapshots)
        (find (is_live_node identity.node_id) db.nodes)

  abbrev acknowledge_desired : AgentIdentity → ℕ → Text → Text → Text → Text → ℕ → Db → Result Db
  acknowledge_desired identity version hash status code message now db =
      acknowledge_desired_with_material identity version hash status code message none now db
