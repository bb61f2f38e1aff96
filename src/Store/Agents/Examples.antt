-- ===== src/Store/Agents/Examples.antt =====
-- A node is enrolled, asks again, and is known.
use poly_fleet.Base.{
  ℕ, ◌≡◌, refl, some, [], ◌++◌, true, ◌∷◌, inl, ok, err, conflict, find, update, Result, none, ◌≢◌,
  arith,
}
use poly_fleet.Schema.{Db, Text, native_hysteria2, AgentIdentity, bytes, is_live_node}
use poly_fleet.Store.Fixtures.{node}
use poly_fleet.Store.Texts.{same_text}
use poly_fleet.Store.Secret.{seal}
use poly_fleet.Store.Agents.Capabilities.{
  ltb_text, insert_capability, normalize_agent_capabilities, replace_capabilities,
}
use poly_fleet.Store.Agents.Tokens.{EnrollResponse, is_token}
use poly_fleet.Store.Agents.Enrol.{response_of, write_enrollment, enroll_node, enroll_agent}
use poly_fleet.Store.Agents.Invalidate.{
  bind_node, invalidate_credentials, invalidate_assignments, invalidate_reality, consume_token,
}
use poly_fleet.Store.Agents.Heartbeat.{
  HeartbeatRequest, record_capabilities, record_heard, record_heartbeat,
}
use poly_fleet.Store.Agents.Heard.{enroll-record_heartbeat}
use poly_fleet.Store.Agents.Identity.{authenticate_agent}
use poly_fleet.Store.Agents.Replay.{enroll_replay, enroll_single_use}
use poly_fleet.Store.Agents.Known.{enroll-authenticate}
use poly_fleet.Store.Agents.Fixtures.{
  crypto, crypto-IsLawful, unary-AreIds, codec, codec_reads, token, row, issued, facts, master_key,
}

abbrev response : EnrollResponse
response = response_of crypto codec 1 100 issued

abbrev ciphertext : Text
ciphertext =
    crypto.nonce 1 ++ crypto.aead_seal master_key (crypto.nonce 1) (codec.to_json response) []

abbrev enrolled_db : Db
enrolled_db = write_enrollment crypto codec row (facts 8 9) ciphertext 100 issued

first_enrollment :
    enroll_agent crypto codec token (facts 8 9) master_key 100 issued ≡ ok (response, enrolled_db)
unfolding enroll_agent enroll_node seal find same_text
first_enrollment = refl

-- Capabilities are put in order, once each.
capabilities_in_order :
    normalize_agent_capabilities (bytes "b" ∷ bytes "a" ∷ bytes "b" ∷ [])
    ≡ bytes "a" ∷ bytes "b" ∷ []
unfolding normalize_agent_capabilities insert_capability ltb_text same_text
capabilities_in_order = refl

token_there : find (is_token (crypto.sha256 token)) issued.tokens ≡ some row
unfolding find same_text
token_there = refl

node_there : find (is_live_node 1) issued.nodes ≡ some node
unfolding find
node_there = refl

enroll_replay_example :
    enroll_agent crypto codec token (facts 8 9) master_key 300100 enrolled_db
    ≡ ok (response, enrolled_db)
enroll_replay_example =
    enroll_replay crypto codec token master_key row (facts 8 9) (facts 8 9) 100 300100 issued
      enrolled_db response token_there refl first_enrollment crypto-IsLawful codec_reads refl refl
      (ground arith)

enroll_single_use_example :
    enroll_agent crypto codec token (facts 7 9) master_key 200 enrolled_db ≡ err conflict
enroll_single_use_example =
    enroll_single_use crypto codec token master_key row (facts 8 9) (facts 7 9) 100 200 issued
      enrolled_db response token_there refl first_enrollment (inl (ground arith))

enroll-authenticate_example :
    authenticate_agent crypto.sha256 codec.id_text response.node_credential enrolled_db
    ≡ ok (record {
      node_id = 1;
      installation_id = 8;
      adapter_type = native_hysteria2;
      enabled = true;
    })
enroll-authenticate_example =
    enroll-authenticate crypto codec token row node (facts 8 9) master_key 100 issued response
      enrolled_db crypto-IsLawful unary-AreIds token_there refl node_there first_enrollment

abbrev beat : HeartbeatRequest
beat = record {
  installation_id = 8;
  capabilities = some (bytes "a" ∷ []);
  agent = record { version = bytes "1"; protocol = 1 };
  core = record { name = []; version = []; running = true };
  adapter = record { version = []; status = bytes "ok"; error_code = []; last_probed_at = none };
  host = record {
    hostname = [];
    kernel_version = [];
    uptime_seconds = 1;
    cpu_cores = 2;
    cpu_percent = 3;
    memory_used_bytes = 4;
    memory_total_bytes = 5;
    swap_used_bytes = 6;
    swap_total_bytes = 7;
    disk_used_bytes = 8;
    disk_total_bytes = 9;
    disk_read_bytes_per_second = 10;
    disk_write_bytes_per_second = 11;
    network_rx_bps = 12;
    network_tx_bps = 13;
    network_rx_bytes_total = 14;
    network_tx_bytes_total = 15;
    load_1 = 16;
    load_5 = 17;
    load_15 = 18;
  };
  usage = record {
    enabled = true;
    available = true;
    outbox_batches = 0;
    last_sampled_at = none;
    last_error_code = [];
  };
  sampled_at = 61000;
}

abbrev identity : AgentIdentity
identity = record {
  node_id = 1;
  installation_id = 8;
  adapter_type = native_hysteria2;
  enabled = true;
}

abbrev db_of : Result (ℕ × Db) → Db
db_of (ok (version, db)) = db
db_of (err cause) = issued

abbrev heard_db : Db
heard_db = db_of (record_heartbeat identity beat 150 enrolled_db)

beat_runs : record_heartbeat identity beat 150 enrolled_db ≡ ok (1, heard_db)
unfolding record_heartbeat record_heard record_capabilities write_enrollment bind_node
    invalidate_credentials invalidate_assignments invalidate_reality replace_capabilities
    consume_token find update
beat_runs = refl

enroll-record_heartbeat_example :
    enroll_agent crypto codec token (facts 8 9) master_key 200 heard_db ≢ ok (response, heard_db)
enroll-record_heartbeat_example =
    enroll-record_heartbeat crypto codec token master_key row (facts 8 9) (facts 8 9) 100 150 200 1
      issued enrolled_db heard_db response identity beat token_there refl first_enrollment refl refl
      beat_runs (response, heard_db)
