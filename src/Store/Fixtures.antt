-- ===== src/Store/Fixtures.antt =====
-- Test data of the store: a node with one assigned user, and its Agent.
use poly_fleet.Base.{true, none, some, [], ◌∷◌}
use poly_fleet.Calendar.{Time}
use poly_fleet.Schema.{
  Db, User, Assignment, AssignmentState, CredentialState, Node, NodeStatus, AgentIdentity,
  native_hysteria2, unlimited, active, managed, hysteria2, bytes,
}

abbrev pub user : User
user = record {
  id = 2;
  username = bytes "ann";
  display_name = [];
  notes = [];
  enabled = true;
  expires_at = none;
  expiry_enforced_at = none;
  archived_at = none;
  traffic_upload_bytes = 100;
  traffic_download_bytes = 50;
  traffic_used_bytes = 150;
  traffic_limit_bytes = 900;
  quota_state = active;
  last_traffic_at = none;
  updated_at = 0;
}

abbrev pub assignment : Assignment
assignment = record {
  node_id = 1;
  user_id = 2;
  enabled = true;
  management_mode = managed;
  remote_client_id = none;
  desired_credential_id = 4;
  applied_credential_id = some 4;
  desired_version = 1;
  applied_version = 1;
  state = AssignmentState.applied;
  last_error_code = [];
  last_error_message = [];
  last_attempt_at = none;
  applied_at = none;
  traffic_upload_bytes = 100;
  traffic_download_bytes = 50;
  traffic_used_bytes = 150;
  traffic_limit_bytes = 0;
  quota_state = unlimited;
  last_traffic_at = none;
  updated_at = 0;
}

abbrev pub node : Node
node = record {
  id = 1;
  adapter_type = native_hysteria2;
  sui_target_inbound_ids = [];
  enabled = true;
  status = NodeStatus.online;
  status_reason = [];
  agent_installation_id = 7;
  agent_credential_hash = none;
  agent_facts = record {
    version = [];
    protocol_version = 1;
    os_name = [];
    os_version = [];
    architecture = [];
    core_name = [];
    core_version = [];
  };
  adapter_facts = record {
    status = [];
    version = [];
    error_code = [];
    last_probed_at = none;
    last_discovered_at = none;
  };
  usage_facts = record { available = true; outbox_batches = 0; sampled_at = none };
  host = none;
  core_running = true;
  usage_enabled = true;
  usage_error_code = [];
  desired_version = 1;
  applied_version = 1;
  archived_at = none;
  last_seen_at = none;
  last_applied_at = none;
  traffic_upload_bytes = 100;
  traffic_download_bytes = 50;
  traffic_unattributed_bytes = 0;
  traffic_limit_bytes = 0;
  traffic_reset_day = 10;
  traffic_last_report_at = none;
  traffic_cycle_started_at = none;
  traffic_cycle_upload_bytes = 0;
  traffic_cycle_download_bytes = 0;
  traffic_calibration_bytes = none;
  traffic_calibration_proxy_bytes = none;
  traffic_calibrated_at = none;
  online_users = 0;
  online_connections = 0;
  online_unknown_users = 0;
  online_sampled_at = none;
  online_last_report_at = none;
  updated_at = 0;
}

abbrev pub start : Db
start = record {
  users = user ∷ [];
  assignments = assignment ∷ [];
  nodes = node ∷ [];
  snapshots = [];
  batches = [];
  batch_items = [];
  totals = [];
  kicks = [];
  online_users = [];
  online_snapshots = [];
  operations = [];
  backups = [];
  alerts = [];
  notifiers = [];
  deliveries = [];
  tokens = [];
  credentials =
      record {
        id = 4;
        user_id = 2;
        node_id = 1;
        protocol = hysteria2;
        secret_ciphertext = [];
        verifier_sha256 = [];
        secret_fingerprint = [];
        key_version = 1;
        state = CredentialState.applied;
        created_at = 0;
        applied_at = some 0;
        retired_at = none;
        revoked_at = none;
      }
      ∷ [];
  realities = [];
  capabilities = [];
  metrics = [];
  drawn = 0;
}

abbrev pub agent : AgentIdentity
agent = record { node_id = 1; installation_id = 7; adapter_type = native_hysteria2; enabled = true }

abbrev pub noon : Time
noon = record { year = 2026; month = 8; day = 13; milli = 43200000 }
