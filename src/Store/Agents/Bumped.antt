-- ===== src/Store/Agents/Bumped.antt =====
-- The versions that `bumpNodeSnapshot` of internal/store/node.go makes, and what
-- `AcknowledgeDesiredWithMaterial` of agent.go says of them.
use poly_fleet.Base.{
  ℕ, ◌+◌, ◌≡◌, refl, ap, subst, ◌∙◌, Bool, true, false, ◌&&◌, none, some, ◌∷◌, ◌==◌, if◌then◌else◌,
  Result, ok, err, internal, >>=-eq-ok, find, find-update, find_holds, patch_holds, exists,
  &&-eq-true, eq_refl, arith,
}
use mathlib.Core.Option
use poly_fleet.Schema.{
  Text, Db, Node, Snapshot, AgentIdentity, bytes, is_node, is_live_node, is_none,
}
use poly_fleet.Store.Texts.{same_text}
use poly_fleet.Store.Texts.Same.{same_text_refl}
use poly_fleet.Store.Snapshot.{insert_snapshot, bump_node_snapshot}
use poly_fleet.Store.Agents.Tokens.{adapter_code, is_reality}
use poly_fleet.Store.Agents.Desired.{
  take_material, settle_applied, misses, acknowledge_found, acknowledge_by,
  acknowledge_desired_with_material,
}
use poly_fleet.Store.Agents.Settles.{Settled}
use poly_fleet.Store.Agents.Acknowledged.{acknowledge-Settled}

abbrev pub bumped_node : ℕ → ℕ → Node → Node
bumped_node version now n = record n { desired_version = version; updated_at = now }

-- What a new snapshot leaves of its node.
pub record Bumped (row : Node) (node version now : ℕ) (db : Db) : Type 0 where
  pub live : find (is_live_node node) db.nodes ≡ some (bumped_node version now row)
  pub there : exists (λ s. (s.node_id == node) && (s.version == version)) db.snapshots ≡ true

past_key : (b : Bool) (x : Db) {db : Db} → (if b then err internal else ok x) ≡ ok db → x ≡ db
past_key b x h = ground arith

here :
    (node version : ℕ) (later : Bool)
    → (if (node == node) && (version == version) then true else later) ≡ true
here node version later = ground (arith, eq_refl node, eq_refl version)

insert_snapshot-Bumped :
    (node version now : ℕ) (db db' : Db) (n : Node)
    → find (is_live_node node) db.nodes ≡ some (bumped_node version now n)
    → insert_snapshot node version now db ≡ ok db'
    → Bumped n node version now db'
unfolding insert_snapshot exists
insert_snapshot-Bumped node version now db db' n live h =
    let row : Snapshot = record {
      node_id = node;
      version = version;
      created_at = now;
      superseded_at = none;
    } in
    let is : ◌≡◌ {A = Db} (record db { snapshots = row ∷ db.snapshots }) db' =
      past_key (exists (λ s. (s.node_id == node) && (s.version == version)) db.snapshots) _ h in
    subst (Bumped n node version now) is (record { live = live; there = here node version _ })

renamed :
    (n : Node) (node now a b : ℕ) (x y : Db)
    → ◌≡◌ {A = Result (ℕ × Db)} (ok (a, x)) (ok (b, y))
    → Bumped n node a now x
    → Bumped n node b now y
renamed n node now a b x y h bumped =
    let is : a ≡ b = ground arith in
    let at : x ≡ y = ground arith in
    subst (λ k. Bumped n node k now y) is (subst (Bumped n node a now) at bumped)

pub bump_node_snapshot-Bumped :
    (node now version : ℕ) (db db' : Db) (n : Node)
    → find (is_live_node node) db.nodes ≡ some n
    → bump_node_snapshot node now db ≡ ok (version, db')
    → Bumped n node version now db'
unfolding bump_node_snapshot
bump_node_snapshot-Bumped node now version db db' n e h =
    let v = n.desired_version + 1 in
    let f : Node → Node = bumped_node v now in
    let holds =
      (&&-eq-true (n.id == node) (is_none n.archived_at)
        (find_holds (is_live_node node) db.nodes e)).0 in
    let (db1, done, same) =
      >>=-eq-ok (insert_snapshot node v now _) _ (rw (e, bump_node_snapshot) at h) in
    renamed n node now v version db1 db' same (
      insert_snapshot-Bumped node v now _ db1 n
        (find-update (is_live_node node) (is_node node) f (λ m. refl) db.nodes
          ∙ ap (Option.map _) e
          ∙ ap some (patch_holds (is_node node) f n holds))
        done)

-- The identity of the Agent is that of its node.
pub record Serves (identity : AgentIdentity) (n : Node) : Type 0 where
  pub adapter : (adapter_code identity.adapter_type == adapter_code n.adapter_type) ≡ true
  pub installation : (identity.installation_id == n.agent_installation_id) ≡ true

module _ (hash_of : ℕ → ℕ → Text) (identity : AgentIdentity) (now version later : ℕ) (n : Node)
    (code message : Text) (db db' : Db)
    (live : find (is_live_node identity.node_id) db.nodes ≡ some n)
    (bumped : bump_node_snapshot identity.node_id now db ≡ ok (version, db')) where
  served :
      Serves identity n
      → misses identity version
          (hash_of identity.node_id version)
          (hash_of identity.node_id version)
          (bumped_node version now n)
        ≡ false
  served s =
      let h = hash_of identity.node_id version in
      ground (arith, eq_refl version, same_text_refl h, s.adapter, s.installation)

  accepted :
      Serves identity n
      → is_reality n.adapter_type ≡ false
      → acknowledge_desired_with_material hash_of identity version
          (hash_of identity.node_id version)
          (bytes "applied")
          code
          message
          none
          later
          db'
        ≡ ok (settle_applied identity version later db')
  unfolding acknowledge_desired_with_material acknowledge_found take_material same_text
  accepted s plain =
      let h = hash_of identity.node_id version in
      let b = bump_node_snapshot-Bumped identity.node_id now version db db' n live bumped in
      let by =
        acknowledge_by hash_of identity version h (bytes "applied") code message none later db' in
      ap (λ k. by k (find (is_live_node identity.node_id) db'.nodes)) b.there
      ∙ ap (by true) b.live
      ∙ rw (served s, plain) refl

  -- After a new version of a live node's snapshot, unless the node speaks Reality, the node's Agent can
  -- acknowledge that version under its hash as applied; the node has then applied it, and so have all
  -- its assignments up to that version, with the desired credentials.
  pub bump-acknowledge :
      Serves identity n
      → is_reality n.adapter_type ≡ false
      → (db2 : Db) × (acknowledge_desired_with_material hash_of identity version
            (hash_of identity.node_id version)
            (bytes "applied")
            code
            message
            none
            later
            db'
          ≡ ok db2)
        × Settled identity.node_id version db2
  bump-acknowledge s plain =
      let done = accepted s plain in
      (
        settle_applied identity version later db',
        done,
        acknowledge-Settled hash_of identity version (hash_of identity.node_id version)
            (bytes "applied") code message none later db' _ (same_text_refl (bytes "applied")) done,
      )
