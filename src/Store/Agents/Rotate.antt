-- ===== src/Store/Agents/Rotate.antt =====
-- `RotateVLESSRealityIdentity` of internal/store/reality.go.
use poly_fleet.Base.{
  ℕ, ◌+◌, Bool, true, false, ◌&&◌, ◌||◌, not, Option, none, some, ◌==◌, ltb, if◌then◌else◌, Result,
  ok, err, not_found, conflict, pending, unsupported, ◌>>=◌, find, update, count,
}
use poly_fleet.Schema.{ℤ, pos, negsuc, Db, Node, RealityRow, is_live_node}
use poly_fleet.Store.Texts.{is_empty}
use poly_fleet.Store.Calibration.{get_node}
use poly_fleet.Store.Agents.Tokens.{is_reality}
use poly_fleet.Store.Agents.Heartbeat.{resync}
use poly_fleet.Store.Agents.Desired.{same_generation}

abbrev below_one : ℤ → Bool
below_one (pos n) = ltb n 1
below_one (negsuc n) = true

-- `COALESCE(r.desired_key_generation, 0)` of the LEFT JOIN
abbrev pub desired_generation : Option RealityRow → ℕ
desired_generation none = 0
desired_generation (some r) = r.desired_key_generation

-- The applied generation, version and material are those of the last acknowledgement. Without a row
-- the identifiers are empty.
abbrev pub is_in_sync : Node → Option RealityRow → Bool
is_in_sync n none = false
is_in_sync n (some r) =
    (n.desired_version == n.applied_version)
    && ((r.desired_key_generation == r.applied_key_generation)
        && ((r.material_applied_version == n.applied_version)
            && (not (is_empty r.public_key) && not (is_empty r.short_id))))

abbrev pub is_generation : ℕ → ℕ → RealityRow → Bool
is_generation node generation r = (r.node_id == node) && (r.desired_key_generation == generation)

-- UPDATE node_vless_reality ... WHERE node_id = ? AND desired_key_generation = ?
unfoldable pub advance_generation : ℕ → ℕ → ℕ → Db → Result Db
advance_generation node generation now db =
    if count (is_generation node generation) db.realities == 1
    then ok (record db {
      realities =
          update (is_generation node generation)
            (λ r. record r {
              desired_key_generation = r.desired_key_generation + 1;
              updated_at = now;
            })
            db.realities;
    })
    else err conflict

-- The new version is written as after an upgrade of a node's Agent.
unfoldable pub rotate_node : ℤ → ℤ → ℕ → Db → Node → Option RealityRow → Result (Node × Db)
rotate_node generation version now db n r =
    if not (is_reality n.adapter_type)
    then err unsupported
    else if not (same_generation generation (desired_generation r))
        || not (same_generation version n.desired_version)
    then err conflict
    else if (n.agent_installation_id == 0) || not (is_in_sync n r)
    then err pending
    else (advance_generation n.id (desired_generation r) now db >>= λ advanced.
        resync n.id now advanced >>= λ (bumped, db'). get_node n.id db' >>= λ m. ok (m, db'))

unfoldable pub rotate_vless_reality_identity : ℕ → ℤ → ℤ → ℕ → Db → Result (Node × Db)
rotate_vless_reality_identity node generation version now db =
    if below_one generation || below_one version
    then err conflict
    else (elim (find (is_live_node node) db.nodes) [
      | none ↦ err not_found
      | some n ↦
          rotate_node generation version now db n (find (λ r. r.node_id == node) db.realities)
    ])
