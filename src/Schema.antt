-- ===== src/Schema.antt =====
-- internal/store: the tables of the controller's database, as far as the modelled methods read or
-- write them (migrations 0001 to 0020). Identifiers and other texts that the code only compares are
-- numbers, with 0 for the empty text; texts that it cuts or joins are lists of bytes; instants are
-- Unix milliseconds.
use Prim.Native.Char.{code}
use Prim.Native.String.{String}
use poly_fleet.Base.{ℕ, ◌==◌, ◌&&◌, Bool, false, true, Option, none, some, List, [], ◌∷◌}

abbrev pub Text : Type 0
Text = List ℕ

-- A Go integer that a request may make negative.
pub data ℤ : Type 0 where
  pos negsuc : ℕ → ℤ

pub data Adapter : Type 0 where
  native_hysteria2 standalone_sing_box s_ui sing_box_vless_reality : Adapter

pub data QuotaState : Type 0 where
  unlimited active limited : QuotaState

pub data NodeStatus : Type 0 where
  pending online stale offline degraded disabled : NodeStatus

pub data AssignmentState : Type 0 where
  pending applied failed : AssignmentState

pub data CredentialState : Type 0 where
  staged applied retired revoked : CredentialState

pub data CredentialProtocol : Type 0 where
  hysteria2 vless : CredentialProtocol

pub data ManagementMode : Type 0 where
  managed read_only : ManagementMode

pub record User : Type 0 where
  pub id : ℕ
  pub username : Text
  pub display_name : Text
  pub notes : Text
  pub enabled : Bool
  pub expires_at : Option ℕ
  pub expiry_enforced_at : Option ℕ
  pub archived_at : Option ℕ
  pub traffic_upload_bytes : ℕ
  pub traffic_download_bytes : ℕ
  pub traffic_used_bytes : ℕ
  pub traffic_limit_bytes : ℕ
  pub quota_state : QuotaState
  pub last_traffic_at : Option ℕ
  pub updated_at : ℕ

pub record Assignment : Type 0 where
  pub node_id : ℕ
  pub user_id : ℕ
  pub enabled : Bool
  pub management_mode : ManagementMode
  pub remote_client_id : Option ℕ
  pub desired_credential_id : ℕ
  pub applied_credential_id : Option ℕ
  pub desired_version : ℕ
  pub applied_version : ℕ
  pub state : AssignmentState
  pub last_error_code : Text
  pub last_error_message : Text
  pub last_attempt_at : Option ℕ
  pub applied_at : Option ℕ
  pub traffic_upload_bytes : ℕ
  pub traffic_download_bytes : ℕ
  pub traffic_used_bytes : ℕ
  pub traffic_limit_bytes : ℕ
  pub quota_state : QuotaState
  pub last_traffic_at : Option ℕ
  pub updated_at : ℕ

-- The columns of a node that describe its Agent, and those that describe its adapter.
pub record AgentFacts : Type 0 where
  pub version : Text
  pub protocol_version : ℕ
  pub os_name : Text
  pub os_version : Text
  pub architecture : Text
  pub core_name : Text
  pub core_version : Text

pub record AdapterFacts : Type 0 where
  pub status : Text
  pub version : Text
  pub error_code : Text
  pub last_probed_at : Option ℕ
  pub last_discovered_at : Option ℕ

pub record UsageFacts : Type 0 where
  pub available : Bool
  pub outbox_batches : ℕ
  pub sampled_at : Option ℕ

-- The readings of a host; the code only copies them, so they are numbers, fractions too.
pub record HostMetrics : Type 0 where
  pub hostname : Text
  pub kernel_version : Text
  pub uptime_seconds : ℕ
  pub cpu_cores : ℕ
  pub cpu_percent : ℕ
  pub memory_used_bytes : ℕ
  pub memory_total_bytes : ℕ
  pub swap_used_bytes : ℕ
  pub swap_total_bytes : ℕ
  pub disk_used_bytes : ℕ
  pub disk_total_bytes : ℕ
  pub disk_read_bytes_per_second : ℕ
  pub disk_write_bytes_per_second : ℕ
  pub network_rx_bps : ℕ
  pub network_tx_bps : ℕ
  pub network_rx_bytes_total : ℕ
  pub network_tx_bytes_total : ℕ
  pub load_1 : ℕ
  pub load_5 : ℕ
  pub load_15 : ℕ

pub record Node : Type 0 where
  pub id : ℕ
  pub adapter_type : Adapter
  pub sui_target_inbound_ids : List ℕ
  pub enabled : Bool
  pub status : NodeStatus
  pub status_reason : Text
  pub agent_installation_id : ℕ
  pub agent_credential_hash : Option Text
  pub agent_facts : AgentFacts
  pub adapter_facts : AdapterFacts
  pub usage_facts : UsageFacts
  pub host : Option HostMetrics
  pub core_running : Bool
  pub usage_enabled : Bool
  pub usage_error_code : Text
  pub desired_version : ℕ
  pub applied_version : ℕ
  pub archived_at : Option ℕ
  pub last_seen_at : Option ℕ
  pub last_applied_at : Option ℕ
  pub traffic_upload_bytes : ℕ
  pub traffic_download_bytes : ℕ
  pub traffic_unattributed_bytes : ℕ
  pub traffic_limit_bytes : ℕ
  pub traffic_reset_day : ℕ
  pub traffic_last_report_at : Option ℕ
  pub traffic_cycle_started_at : Option ℕ
  pub traffic_cycle_upload_bytes : ℕ
  pub traffic_cycle_download_bytes : ℕ
  pub traffic_calibration_bytes : Option ℕ
  pub traffic_calibration_proxy_bytes : Option ℕ
  pub traffic_calibrated_at : Option ℕ
  pub online_users : ℕ
  pub online_connections : ℕ
  pub online_unknown_users : ℕ
  pub online_sampled_at : Option ℕ
  pub online_last_report_at : Option ℕ
  pub updated_at : ℕ

-- The content of a snapshot (its JSON and hash) is not modelled.
pub record Snapshot : Type 0 where
  pub node_id : ℕ
  pub version : ℕ
  pub created_at : ℕ
  pub superseded_at : Option ℕ

pub data Disposition : Type 0 where
  accounted unknown_user unassigned archived_user : Disposition

pub record Batch : Type 0 where
  pub id : ℕ
  pub node_id : ℕ
  pub agent_installation_id : ℕ
  pub source_epoch : ℕ
  pub sequence : ℕ
  pub sampled_at : ℕ
  pub received_at : ℕ
  pub item_count : ℕ
  pub upload_bytes : ℕ
  pub download_bytes : ℕ
  pub payload_sha256 : ℕ

pub record BatchItem : Type 0 where
  pub batch_id : ℕ
  pub node_id : ℕ
  pub user_id : ℕ
  pub upload_bytes : ℕ
  pub download_bytes : ℕ
  pub disposition : Disposition

pub record TrafficTotal : Type 0 where
  pub node_id : ℕ
  pub user_id : ℕ
  pub upload_bytes : ℕ
  pub download_bytes : ℕ
  pub last_batch_id : ℕ
  pub updated_at : ℕ

pub data KickReason : Type 0 where
  manual expired quota_limited user_disabled user_archived : KickReason
  assignment_disabled assignment_removed : KickReason

pub record KickTarget : Type 0 where
  pub node_id : ℕ
  pub user_id : ℕ
  pub generation : ℕ
  pub reason : KickReason
  pub requested_at : ℕ

pub record OnlineUser : Type 0 where
  pub node_id : ℕ
  pub user_id : ℕ
  pub connections : ℕ
  pub known_assignment : Bool
  pub sampled_at : ℕ

pub record OnlineSnapshot : Type 0 where
  pub node_id : ℕ
  pub agent_installation_id : ℕ
  pub snapshot_id : ℕ
  pub sampled_at : ℕ
  pub received_at : ℕ
  pub total_connections : ℕ
  pub known_users : ℕ
  pub unknown_users : ℕ

pub data OperationType : Type 0 where
  probe_core restart_core tail_core_log backup_config ping : OperationType

pub data OperationStatus : Type 0 where
  queued running succeeded failed expired : OperationStatus

pub record Operation : Type 0 where
  pub id : ℕ
  pub node_id : ℕ
  pub sequence : ℕ
  pub type : OperationType
  pub status : OperationStatus
  pub retry_of : Option ℕ
  pub attempt : ℕ
  pub max_lines : ℕ
  pub target : Text
  pub output : Text
  pub error_code : Text
  pub error_message : Text
  pub rolled_back : Bool
  pub requested_by : ℕ
  pub expires_at : ℕ
  pub started_at : Option ℕ
  pub completed_at : Option ℕ
  pub created_at : ℕ
  pub updated_at : ℕ

pub record ConfigBackup : Type 0 where
  pub id : ℕ
  pub node_id : ℕ
  pub operation_id : ℕ
  pub local_path : Text
  pub sha256 : Text
  pub size_bytes : ℕ
  pub created_at : ℕ

pub data AlertType : Type 0 where
  offline degraded core_down usage_error sync_failed sync_stuck operation_failed : AlertType
  traffic_quota_warning traffic_quota_exhausted : AlertType

pub data Severity : Type 0 where
  warning critical : Severity

pub data AlertStatus : Type 0 where
  open_alert acknowledged resolved : AlertStatus

pub record Alert : Type 0 where
  pub id : ℕ
  pub node_id : ℕ
  pub type : AlertType
  pub severity : Severity
  pub status : AlertStatus
  pub message : Text
  pub first_seen_at : ℕ
  pub last_seen_at : ℕ
  pub acknowledged_by : Option ℕ
  pub acknowledged_at : Option ℕ
  pub resolved_at : Option ℕ
  pub created_at : ℕ
  pub updated_at : ℕ

pub data EventType : Type 0 where
  created resolved : EventType

pub record Notifier : Type 0 where
  pub id : ℕ
  pub enabled : Bool
  pub on_created : Bool
  pub on_resolved : Bool

pub data DeliveryStatus : Type 0 where
  queued retry delivered failed : DeliveryStatus

pub record Delivery : Type 0 where
  pub id : ℕ
  pub notifier_id : ℕ
  pub alert_id : ℕ
  pub event_type : EventType
  pub status : DeliveryStatus
  pub attempt_count : ℕ
  pub next_attempt_at : ℕ
  pub last_error : Text
  pub response_code : ℕ
  pub delivered_at : Option ℕ
  pub created_at : ℕ
  pub updated_at : ℕ

-- A row of node_enrollment_tokens.
pub record EnrollmentRow : Type 0 where
  pub id : ℕ
  pub node_id : ℕ
  pub token_hash : Text
  pub expires_at : ℕ
  pub consumed_at : Option ℕ
  pub bound_installation_id : Option ℕ
  pub bound_request_id : Option ℕ
  pub response_ciphertext : Option Text
  pub response_expires_at : Option ℕ
  pub created_by : ℕ
  pub created_at : ℕ

pub record UserCredential : Type 0 where
  pub id : ℕ
  pub user_id : ℕ
  pub node_id : ℕ
  pub protocol : CredentialProtocol
  pub secret_ciphertext : Text
  pub verifier_sha256 : Text
  pub secret_fingerprint : Text
  pub key_version : ℕ
  pub state : CredentialState
  pub created_at : ℕ
  pub applied_at : Option ℕ
  pub retired_at : Option ℕ
  pub revoked_at : Option ℕ

-- A row of node_vless_reality; the settings of its handshake are not kept.
pub record RealityRow : Type 0 where
  pub node_id : ℕ
  pub desired_key_generation : ℕ
  pub applied_key_generation : ℕ
  pub public_key : Text
  pub short_id : Text
  pub material_applied_version : ℕ
  pub material_reported_at : Option ℕ
  pub updated_at : ℕ

pub record CapabilityRow : Type 0 where
  pub node_id : ℕ
  pub capability : Text
  pub reported_at : ℕ

-- A row of node_metric_samples, whose key is (node_id, bucket_at).
pub record MetricRow : Type 0 where
  pub node_id : ℕ
  pub bucket_at : ℕ
  pub cpu_percent : ℕ
  pub memory_used_bytes : ℕ
  pub memory_total_bytes : ℕ
  pub disk_used_bytes : ℕ
  pub disk_total_bytes : ℕ
  pub network_rx_bps : ℕ
  pub network_tx_bps : ℕ
  pub load_1 : ℕ
  pub load_5 : ℕ
  pub load_15 : ℕ
  pub sampled_at : ℕ
  pub swap_used_bytes : ℕ
  pub swap_total_bytes : ℕ
  pub disk_read_bytes_per_second : ℕ
  pub disk_write_bytes_per_second : ℕ

-- `drawn` counts the UUIDs that have been drawn from the generator, and the random values.
pub record Db : Type 0 where
  pub users : List User
  pub assignments : List Assignment
  pub nodes : List Node
  pub snapshots : List Snapshot
  pub batches : List Batch
  pub batch_items : List BatchItem
  pub totals : List TrafficTotal
  pub kicks : List KickTarget
  pub online_users : List OnlineUser
  pub online_snapshots : List OnlineSnapshot
  pub operations : List Operation
  pub backups : List ConfigBackup
  pub alerts : List Alert
  pub notifiers : List Notifier
  pub deliveries : List Delivery
  pub tokens : List EnrollmentRow
  pub credentials : List UserCredential
  pub realities : List RealityRow
  pub capabilities : List CapabilityRow
  pub metrics : List MetricRow
  pub drawn : ℕ

-- The Agent that a request comes from.
pub record AgentIdentity : Type 0 where
  pub node_id : ℕ
  pub installation_id : ℕ
  pub adapter_type : Adapter
  pub enabled : Bool

abbrev pub is_none {ℓ} : {A : Type ℓ} → Option A → Bool
is_none none = true
is_none (some a) = false

-- `WHERE id = ? AND archived_at IS NULL`
abbrev pub is_node : ℕ → Node → Bool
is_node k n = n.id == k

abbrev pub is_live_node : ℕ → Node → Bool
is_live_node k n = (n.id == k) && is_none n.archived_at

abbrev pub is_user : ℕ → User → Bool
is_user k u = u.id == k

abbrev pub is_assignment : ℕ → ℕ → Assignment → Bool
is_assignment node user a = (a.node_id == node) && (a.user_id == user)

-- `native_hysteria2` and `sing_box_vless_reality` nodes take kicks.
abbrev pub takes_kicks : Adapter → Bool
takes_kicks native_hysteria2 = true
takes_kicks sing_box_vless_reality = true
takes_kicks _ = false

-- The types are compared by number, as the code compares their names.
abbrev pub alert_code : AlertType → ℕ
alert_code offline = 0
alert_code degraded = 1
alert_code core_down = 2
alert_code usage_error = 3
alert_code sync_failed = 4
alert_code sync_stuck = 5
alert_code operation_failed = 6
alert_code traffic_quota_warning = 7
alert_code traffic_quota_exhausted = 8

-- `node_id = ? AND type = ? AND resolved_at IS NULL`
abbrev pub is_active_alert : ℕ → AlertType → Alert → Bool
is_active_alert node type a =
    (a.node_id == node) && ((alert_code a.type == alert_code type) && is_none a.resolved_at)

-- The bytes of an ASCII text.
abbrev pub bytes : String → Text
bytes String.[] = []
bytes (String.◌∷◌ c s) = code c ∷ bytes s
