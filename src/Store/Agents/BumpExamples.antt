-- ===== src/Store/Agents/BumpExamples.antt =====
-- A node whose user gets another credential: a new version, and its acknowledgement.
use poly_fleet.Base.{ℕ, ◌≡◌, refl, none, some, [], ◌∷◌, ok, find, exists, update}
use poly_fleet.Schema.{
  Db, Text, CredentialState, AssignmentState, UserCredential, hysteria2, bytes, is_live_node,
}
use poly_fleet.Store.Fixtures.{start, assignment, node, agent}
use poly_fleet.Store.Texts.{same_text}
use poly_fleet.Store.Snapshot.{insert_snapshot, bump_node_snapshot}
use poly_fleet.Store.Agents.Invalidate.{is_desired}
use poly_fleet.Store.Agents.Desired.{
  take_material, retire_credentials, apply_credentials, settle_applied, acknowledge_found,
  acknowledge_desired_with_material,
}
use poly_fleet.Store.Agents.Settles.{Settled}
use poly_fleet.Store.Agents.Acknowledged.{acknowledge-Settled}
use poly_fleet.Store.Agents.Bumped.{bump-acknowledge}

abbrev hash_of : ℕ → ℕ → Text
hash_of node version = node ∷ version ∷ []

abbrev credential : ℕ → CredentialState → UserCredential
credential id state = record {
  id = id;
  user_id = 2;
  node_id = 1;
  protocol = hysteria2;
  secret_ciphertext = [];
  verifier_sha256 = [];
  secret_fingerprint = [];
  key_version = 1;
  state = state;
  created_at = 0;
  applied_at = none;
  retired_at = none;
  revoked_at = none;
}

-- The assignment desires credential 5 in place of credential 4.
abbrev renewed : Db
renewed = record start {
  assignments =
      record assignment { desired_credential_id = 5; state = AssignmentState.pending } ∷ [];
  credentials = credential 4 CredentialState.applied ∷ credential 5 CredentialState.staged ∷ [];
}

abbrev bumped : Db
bumped = record renewed {
  nodes = record node { desired_version = 2; updated_at = 50 } ∷ [];
  snapshots = record { node_id = 1; version = 2; created_at = 50; superseded_at = none } ∷ [];
}

bump_runs : bump_node_snapshot 1 50 renewed ≡ ok (2, bumped)
unfolding bump_node_snapshot insert_snapshot find exists update
bump_runs = refl

node_there : find (is_live_node agent.node_id) renewed.nodes ≡ some node
unfolding find
node_there = refl

-- Credential 4 is retired and credential 5 applied.
credentials_after :
    (settle_applied agent 2 60 bumped).credentials
    ≡ record (credential 4 CredentialState.retired) { retired_at = some 60 }
      ∷ record (credential 5 CredentialState.applied) { applied_at = some 60 }
      ∷ []
unfolding settle_applied retire_credentials apply_credentials is_desired exists update
credentials_after = refl

acknowledgement_runs :
    acknowledge_desired_with_material hash_of agent 2
      (1 ∷ 2 ∷ [])
      (bytes "applied")
      []
      []
      none
      60
      bumped
    ≡ ok (settle_applied agent 2 60 bumped)
unfolding acknowledge_desired_with_material acknowledge_found take_material same_text find exists
acknowledgement_runs = refl

acknowledge-Settled_example : Settled 1 2 (settle_applied agent 2 60 bumped)
unfolding same_text
acknowledge-Settled_example =
    acknowledge-Settled hash_of agent 2 (1 ∷ 2 ∷ []) (bytes "applied") [] [] none 60 bumped
      (settle_applied agent 2 60 bumped) refl acknowledgement_runs

bump-acknowledge_example :
    (db2 : Db) × (acknowledge_desired_with_material hash_of agent 2
        (1 ∷ 2 ∷ [])
        (bytes "applied")
        []
        []
        none
        60
        bumped
      ≡ ok db2)
    × Settled 1 2 db2
bump-acknowledge_example =
    bump-acknowledge hash_of agent 50 2 60 node [] [] renewed bumped node_there bump_runs
      (record { adapter = refl; installation = refl }) refl
