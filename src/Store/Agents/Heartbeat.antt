-- ===== src/Store/Agents/Heartbeat.antt =====
-- `RecordHeartbeat` of internal/store/agent.go. Instants are Unix milliseconds.
use poly_fleet.Base.{
  ℕ, ◌-◌, ◌%◌, Bool, false, ◌&&◌, ◌||◌, not, Option, none, some, List, [], ◌∷◌, ◌==◌, if◌then◌else◌,
  Result, ok, err, conflict, ◌>>=◌, find, exists, update,
}
use poly_fleet.Schema.{
  Text, Db, Node, NodeStatus, AssignmentState, CapabilityRow, EnrollmentRow, HostMetrics, MetricRow,
  AgentIdentity, bytes, is_none, is_node,
}
use poly_fleet.Store.Texts.{same_text, is_empty}
use poly_fleet.Store.Snapshot.{bump_node_snapshot}
use poly_fleet.Store.Agents.Capabilities.{
  normalize_agent_capabilities, contains_all_capabilities, replace_capabilities,
}
use poly_fleet.Store.Agents.Tokens.{is_reality}

pub record AgentInfo : Type 0 where
  pub version : Text
  pub protocol : ℕ

pub record CoreInfo : Type 0 where
  pub name : Text
  pub version : Text
  pub running : Bool

pub record AdapterInfo : Type 0 where
  pub version : Text
  pub status : Text
  pub error_code : Text
  pub last_probed_at : Option ℕ

pub record UsageInfo : Type 0 where
  pub enabled : Bool
  pub available : Bool
  pub outbox_batches : ℕ
  pub last_sampled_at : Option ℕ
  pub last_error_code : Text

pub record HeartbeatRequest : Type 0 where
  pub installation_id : ℕ
  pub capabilities : Option (List Text)
  pub agent : AgentInfo
  pub core : CoreInfo
  pub adapter : AdapterInfo
  pub host : HostMetrics
  pub usage : UsageInfo
  pub sampled_at : ℕ

abbrev is_unfit : Text → Bool
is_unfit status =
    same_text status (bytes "incompatible")
    || (same_text status (bytes "unavailable") || same_text status (bytes "not_configured"))

-- The status of the node, with its reason.
unfoldable pub heartbeat_status : AgentIdentity → HeartbeatRequest → NodeStatus × Text
heartbeat_status identity h =
    if not identity.enabled
    then (NodeStatus.disabled, [])
    else if is_unfit h.adapter.status
    then (NodeStatus.degraded, h.adapter.error_code)
    else (NodeStatus.online, [])

-- `CASE WHEN ? = '' THEN column ELSE ? END`, and `COALESCE(?, column)`
abbrev unless_empty : Text → Text → Text → Text
unless_empty test value column = if is_empty test then column else value

abbrev or_column : Option ℕ → Option ℕ → Option ℕ
or_column none column = column
or_column (some value) column = some value

unfoldable pub heard_node : AgentIdentity → HeartbeatRequest → ℕ → Node → Node
heard_node identity h now n = record n {
  status = (heartbeat_status identity h).0;
  status_reason = (heartbeat_status identity h).1;
  agent_facts = record n.agent_facts {
    version = h.agent.version;
    protocol_version = h.agent.protocol;
    core_name = h.core.name;
    core_version = h.core.version;
  };
  core_running = h.core.running;
  adapter_facts = record n.adapter_facts {
    status = unless_empty h.adapter.status h.adapter.status n.adapter_facts.status;
    version = unless_empty h.adapter.version h.adapter.version n.adapter_facts.version;
    error_code = unless_empty h.adapter.status h.adapter.error_code n.adapter_facts.error_code;
    last_probed_at = or_column h.adapter.last_probed_at n.adapter_facts.last_probed_at;
  };
  host = some h.host;
  usage_enabled = h.usage.enabled;
  usage_facts = record {
    available = h.usage.available;
    outbox_batches = h.usage.outbox_batches;
    sampled_at = h.usage.last_sampled_at;
  };
  usage_error_code = h.usage.last_error_code;
  last_seen_at = some now;
  updated_at = now;
}

abbrev pub is_installed : AgentIdentity → Node → Bool
is_installed identity n =
    (n.id == identity.node_id) && (n.agent_installation_id == identity.installation_id)

abbrev user_control : Text
user_control = bytes "reality_user_control_v1"

abbrev upgrade_capabilities : List Text
upgrade_capabilities =
    bytes "traffic_stats_v1"
    ∷ bytes "traffic_outbox_v1"
    ∷ bytes "online_snapshot_v1"
    ∷ bytes "kick_generation_v1"
    ∷ user_control
    ∷ []

abbrev had_user_control : ℕ → List CapabilityRow → Bool
had_user_control node = exists (λ r. (r.node_id == node) && same_text r.capability user_control)

-- The writes after a new version of a Reality node: the node's status, and all its assignments.
unfoldable pub resync_node : ℕ → ℕ → ℕ → Db → Db
resync_node node version now db = record db {
  nodes =
      update (is_node node)
        (λ n. record n {
          status = if n.enabled then NodeStatus.pending else NodeStatus.disabled;
          status_reason = [];
          updated_at = now;
        })
        db.nodes;
  assignments =
      update (λ a. a.node_id == node)
        (λ a. record a {
          desired_version = version;
          state = AssignmentState.pending;
          last_error_code = [];
          last_error_message = [];
          updated_at = now;
        })
        db.assignments;
}

-- A Reality node whose Agent begins to control users.
abbrev pub upgrades : AgentIdentity → List Text → Db → Bool
upgrades identity capabilities db =
    is_reality identity.adapter_type
    && (not (had_user_control identity.node_id db.capabilities)
        && contains_all_capabilities capabilities upgrade_capabilities)

unfoldable pub resync : ℕ → ℕ → Db → Result (ℕ × Db)
resync node now db = bump_node_snapshot node now db >>= λ (version, db').
    ok (version, resync_node node version now db')

unfoldable pub record_capabilities :
    AgentIdentity → ℕ → Option (List Text) → ℕ → Db → Result (ℕ × Db)
record_capabilities identity desired none now db = ok (desired, db)
record_capabilities identity desired (some reported) now db =
    let capabilities = normalize_agent_capabilities reported in
    let replaced = replace_capabilities identity.node_id capabilities now db in
    if upgrades identity capabilities db
    then resync identity.node_id now replaced
    else ok (desired, replaced)

-- The start of the minute.
abbrev pub bucket_of : ℕ → ℕ
bucket_of t = t - t % 60000

abbrev metric_row : ℕ → HeartbeatRequest → MetricRow
metric_row node h = record {
  node_id = node;
  bucket_at = bucket_of h.sampled_at;
  cpu_percent = h.host.cpu_percent;
  memory_used_bytes = h.host.memory_used_bytes;
  memory_total_bytes = h.host.memory_total_bytes;
  disk_used_bytes = h.host.disk_used_bytes;
  disk_total_bytes = h.host.disk_total_bytes;
  network_rx_bps = h.host.network_rx_bps;
  network_tx_bps = h.host.network_tx_bps;
  load_1 = h.host.load_1;
  load_5 = h.host.load_5;
  load_15 = h.host.load_15;
  sampled_at = h.sampled_at;
  swap_used_bytes = h.host.swap_used_bytes;
  swap_total_bytes = h.host.swap_total_bytes;
  disk_read_bytes_per_second = h.host.disk_read_bytes_per_second;
  disk_write_bytes_per_second = h.host.disk_write_bytes_per_second;
}

-- INSERT ... ON CONFLICT(node_id, bucket_at) DO UPDATE, of all the other columns
unfoldable pub upsert_metric : MetricRow → List MetricRow → List MetricRow
upsert_metric m [] = m ∷ []
upsert_metric m (x ∷ xs) =
    let rest = upsert_metric m xs in
    if (x.node_id == m.node_id) && (x.bucket_at == m.bucket_at) then m ∷ xs else x ∷ rest

abbrev bound_to : ℕ → Option ℕ → Bool
bound_to installation none = false
bound_to installation (some bound) = bound == installation

abbrev pub has_capsule : AgentIdentity → EnrollmentRow → Bool
has_capsule identity t =
    (t.node_id == identity.node_id)
    && (bound_to identity.installation_id t.bound_installation_id
        && not (is_none t.response_ciphertext))

abbrev pub cleared_row : EnrollmentRow → EnrollmentRow
cleared_row t = record t { response_ciphertext = none; response_expires_at = none }

unfoldable pub clear_capsules : AgentIdentity → List EnrollmentRow → List EnrollmentRow
clear_capsules identity = update (has_capsule identity) cleared_row

-- From the update of the node on, whose row is `n`.
unfoldable pub record_heard : AgentIdentity → HeartbeatRequest → ℕ → Db → Node → Result (ℕ × Db)
record_heard identity h now db n =
    record_capabilities identity n.desired_version h.capabilities now
      (record db { nodes = update (is_installed identity) (heard_node identity h now) db.nodes })
    >>= λ (version, db'). ok (
      version,
      record db' {
        metrics = upsert_metric (metric_row identity.node_id h) db'.metrics;
        tokens = clear_capsules identity db'.tokens;
      },
    )

abbrev pub record_by : AgentIdentity → HeartbeatRequest → ℕ → Db → Option Node → Result (ℕ × Db)
record_by identity h now db none = err conflict
record_by identity h now db (some n) = record_heard identity h now db n

unfoldable pub record_heartbeat : AgentIdentity → HeartbeatRequest → ℕ → Db → Result (ℕ × Db)
record_heartbeat identity h now db =
    if identity.installation_id == h.installation_id
    then record_by identity h now db (find (is_installed identity) db.nodes)
    else err conflict
