-- ===== src/Store/Agents/Invalidate.antt =====
-- The writes of `EnrollAgent` of internal/store/agent.go, one function for each statement.
use poly_fleet.Base.{
  ℕ, ◌+◌, Bool, true, false, ◌&&◌, Option, none, some, List, [], ◌==◌, if◌then◌else◌, exists,
  update,
}
use poly_fleet.Schema.{
  Text, Db, Node, NodeStatus, AssignmentState, CredentialState, UserCredential, Assignment,
  EnrollmentRow, bytes, is_none, is_node,
}
use poly_fleet.Store.Agents.Tokens.{EnrollmentFacts, major_version}

-- The columns of a node that an enrolment sets.
abbrev pub bound_node : EnrollmentFacts → Text → ℕ → Node → Node
bound_node facts hash now n = record n {
  agent_installation_id = facts.installation_id;
  agent_credential_hash = some hash;
  agent_facts = record {
    version = facts.agent_version;
    protocol_version = major_version;
    os_name = facts.os_name;
    os_version = facts.os_version;
    architecture = facts.architecture;
    core_name = facts.core_name;
    core_version = [];
  };
  adapter_facts = record {
    status = bytes "unknown";
    version = [];
    error_code = [];
    last_probed_at = none;
    last_discovered_at = none;
  };
  core_running = false;
  status = NodeStatus.pending;
  status_reason = [];
  applied_version = 0;
  last_seen_at = none;
  last_applied_at = none;
  updated_at = now;
}

unfoldable pub bind_node : ℕ → EnrollmentFacts → Text → ℕ → Db → Db
bind_node node facts hash now db = record db {
  nodes = update (is_node node) (bound_node facts hash now) db.nodes;
}

-- `id IN (SELECT desired_credential_id FROM node_user_assignments WHERE node_id = ?)`
unfoldable pub is_desired : ℕ → List Assignment → UserCredential → Bool
is_desired node assignments c =
    exists (λ a. (a.node_id == node) && (a.desired_credential_id == c.id)) assignments

abbrev pub is_applied : CredentialState → Bool
is_applied CredentialState.applied = true
is_applied _ = false

abbrev pub or_now : Option ℕ → ℕ → Option ℕ
or_now none now = some now
or_now (some at) now = some at

unfoldable pub invalidated_credential : Bool → ℕ → UserCredential → UserCredential
invalidated_credential desired now c =
    if desired
    then record c { state = CredentialState.staged; applied_at = none; retired_at = none }
    else record c { state = CredentialState.retired; retired_at = or_now c.retired_at now }

unfoldable pub invalidate_credentials : ℕ → ℕ → Db → Db
invalidate_credentials node now db = record db {
  credentials =
      update (λ c. (c.node_id == node) && is_applied c.state)
        (λ c. invalidated_credential (is_desired node db.assignments c) now c) db.credentials;
}

unfoldable pub invalidate_assignments : ℕ → ℕ → Db → Db
invalidate_assignments node now db = record db {
  assignments =
      update (λ a. a.node_id == node)
        (λ a. record a {
          applied_credential_id = none;
          applied_version = 0;
          state = AssignmentState.pending;
          last_error_code = [];
          last_error_message = [];
          last_attempt_at = none;
          applied_at = none;
          updated_at = now;
        })
        db.assignments;
}

unfoldable pub invalidate_reality : ℕ → ℕ → Db → Db
invalidate_reality node now db = record db {
  realities =
      update (λ r. r.node_id == node)
        (λ r. record r {
          applied_key_generation = 0;
          material_applied_version = 0;
          material_reported_at = none;
          updated_at = now;
        })
        db.realities;
}

-- `5*time.Minute` in milliseconds
abbrev pub replay_window : ℕ
replay_window = 300000

abbrev pub consumed_row : EnrollmentFacts → Text → ℕ → EnrollmentRow → EnrollmentRow
consumed_row facts ciphertext now t = record t {
  consumed_at = some now;
  bound_installation_id = some facts.installation_id;
  bound_request_id = some facts.request_id;
  response_ciphertext = some ciphertext;
  response_expires_at = some (now + replay_window);
}

unfoldable pub consume_token : ℕ → EnrollmentFacts → Text → ℕ → Db → Db
consume_token id facts ciphertext now db = record db {
  tokens =
      update (λ t. (t.id == id) && is_none t.consumed_at) (consumed_row facts ciphertext now)
        db.tokens;
}
