-- ===== src/Store/Agents/Acknowledged.antt =====
-- `AcknowledgeDesiredWithMaterial` of internal/store/agent.go, on the versions that
-- `bumpNodeSnapshot` of node.go makes.
use poly_fleet.Base.{
  take, ℕ, ◌≡◌, refl, ap, subst, ◌∙◌, Bool, true, false, ◌&&◌, not, Option, none, some, ◌==◌,
  if◌then◌else◌, Result, ok, err, version_conflict, conflict, >>=-eq-ok, find, exists, count, List,
  arith,
}
use poly_fleet.Schema.{Text, Db, Node, RealityRow, AgentIdentity, is_live_node}
use poly_fleet.Store.Agents.Tokens.{is_reality}
use poly_fleet.Store.Agents.Desired.{
  AppliedRealityMaterial, store_material, accept_material, contradicts, accept_known,
  same_generation, valid_applied_reality_material, take_material, settle_applied, settle_failed,
  is_applied_status, misses, acknowledge_found, acknowledge_by, acknowledge_desired_with_material,
}
use poly_fleet.Store.Agents.Settles.{Settled, settle_applied-Settled}

-- Only the material of Reality differs.
abbrev Alike : Db → Db → Type 0
Alike db db' = (rs : List RealityRow) × (record db { realities = rs } ≡ db')

done_if :
    (b : Bool) (x : Db) {db : Db} → (if b then ok x else err version_conflict) ≡ ok db → x ≡ db
done_if b x h = ground arith

past_two :
    (a b : Bool) (m : Result Db) {db : Db}
    → (if a then err version_conflict else if b then err conflict else m) ≡ ok db
    → m ≡ ok db
past_two a b m h = ground arith

past_one :
    (a : Bool) (m : Result Db) {db : Db} → (if a then m else err conflict) ≡ ok db → m ≡ ok db
past_one a m h = ground arith

store_material-Alike :
    (node generation : ℕ) (m : AppliedRealityMaterial) (version now : ℕ) (db db' : Db)
    → store_material node generation m version now db ≡ ok db'
    → Alike db db'
unfolding store_material
store_material-Alike node generation m version now db db' h = (
  _,
  done_if
      (count (λ r. (r.node_id == node) && (r.desired_key_generation == generation)) db.realities
        == 1)
      _ h,
)

accept_known-Alike :
    (node : ℕ) (m : AppliedRealityMaterial) (version now : ℕ) (db db' : Db) (o : Option RealityRow)
    → accept_known node m version now db o ≡ ok db'
    → Alike db db'
accept_known-Alike node m version now db db' none h = absurd (ground arith)
accept_known-Alike node m version now db db' (some r) h =
    store_material-Alike node r.desired_key_generation m version now db db' (
      past_two (not (same_generation m.key_generation r.desired_key_generation)) (contradicts m r) _
        h)

take_material-Alike :
    (reality applied : Bool) (node : ℕ) (material : Option AppliedRealityMaterial) (version now : ℕ)
    (db db' : Db)
    → take_material reality applied node material version now db ≡ ok db'
    → Alike db db'
unfolding take_material accept_material
take_material-Alike true true node none version now db db' h = absurd (ground arith)
take_material-Alike true true node (some m) version now db db' h =
    accept_known-Alike node m version now db db' (find (λ r. r.node_id == node) db.realities)
      (past_one (valid_applied_reality_material m) _ h)
take_material-Alike true false node material version now db db' h = (db.realities, ground arith)
take_material-Alike false applied node none version now db db' h = (db.realities, ground arith)
take_material-Alike false applied node (some m) version now db db' h = absurd (ground arith)

ok_injective : {x y : Db} → ◌≡◌ {A = Result Db} (ok x) (ok y) → x ≡ y
ok_injective h = ground arith

past_misses :
    (a : Bool) (m : Result Db) {db : Db}
    → (if a then err version_conflict else m) ≡ ok db
    → (a ≡ false) × (m ≡ ok db)
past_misses a m h = ground arith

settled_if : (b : Bool) (x y : Db) {db : Db} → b ≡ true → ok (if b then x else y) ≡ ok db → x ≡ db
settled_if true x y e h = ground arith
settled_if false x y e h = absurd (ground arith)

module _ (hash_of : ℕ → ℕ → Text) (identity : AgentIdentity) (version : ℕ)
    (hash status code message : Text) (material : Option AppliedRealityMaterial) (now : ℕ) where
  misses-desired :
      (n : Node) (expected : Text)
      → misses identity version hash expected n ≡ false
      → n.desired_version ≡ version
  misses-desired n expected hits = ground arith

  acknowledge_by-Settled :
      (db db' : Db) (b : Bool) (o : Option Node)
      → find (is_live_node identity.node_id) db.nodes ≡ o
      → is_applied_status status ≡ true
      → acknowledge_by hash_of identity version hash status code message material now db b o
        ≡ ok db'
      → Settled identity.node_id version db'
  unfolding acknowledge_found
  acknowledge_by-Settled db db' false o live applied h = absurd (ground arith)
  acknowledge_by-Settled db db' true none live applied h = absurd (ground arith)
  acknowledge_by-Settled db db' true (some n) live applied h =
      let (hits, rest) =
        past_misses (misses identity version hash (hash_of identity.node_id version) n) _ h in
      let (db1, taken, done) =
        >>=-eq-ok
          (take_material (is_reality n.adapter_type) (is_applied_status status) identity.node_id
            material version now db)
          _ rest in
      let (rs, alike) =
        take_material-Alike (is_reality n.adapter_type) (is_applied_status status) identity.node_id
          material version now db db1 taken in
      let is : settle_applied identity version now db1 ≡ db' =
        settled_if (is_applied_status status) _ _ applied done in
      subst (Settled identity.node_id version) is (
        settle_applied-Settled identity version now db1 n
          (subst (λ (x : Db). find (is_live_node identity.node_id) x.nodes ≡ some n) alike live)
          (misses-desired n (hash_of identity.node_id version) hits))

  -- After an accepted acknowledgement that the snapshot is applied, the node has applied the version that
  -- is desired; every assignment up to that version is applied, with the desired credential; and of the
  -- node's credentials only desired ones are applied, and no desired one is left staged.
  pub acknowledge-Settled :
      (db db' : Db)
      → is_applied_status status ≡ true
      → acknowledge_desired_with_material hash_of identity version hash status code message material
          now db
        ≡ ok db'
      → Settled identity.node_id version db'
  unfolding acknowledge_desired_with_material acknowledge_found
  acknowledge-Settled db db' applied h =
      acknowledge_by-Settled db db'
        (exists (λ s. (s.node_id == identity.node_id) && (s.version == version)) db.snapshots)
        (find (is_live_node identity.node_id) db.nodes) refl applied h

  -- An accepted acknowledgement settles the node as applied or as failed, and changes no more than the
  -- material of Reality beside.
  abbrev pub Ends : Db → Db → Type 0
  Ends db db' =
      (rs : List RealityRow) × ((if is_applied_status status
          then settle_applied identity version now (record db { realities = rs })
          else settle_failed identity.node_id version code (take 240 message) now
              (record db { realities = rs }))
        ≡ db')

  acknowledge_by-Ends :
      (db db' : Db) (b : Bool) (o : Option Node)
      → acknowledge_by hash_of identity version hash status code message material now db b o
        ≡ ok db'
      → Ends db db'
  unfolding acknowledge_found
  acknowledge_by-Ends db db' false o h = absurd (ground arith)
  acknowledge_by-Ends db db' true none h = absurd (ground arith)
  acknowledge_by-Ends db db' true (some n) h =
      let (hits, rest) =
        past_misses (misses identity version hash (hash_of identity.node_id version) n) _ h in
      let (db1, taken, done) =
        >>=-eq-ok
          (take_material (is_reality n.adapter_type) (is_applied_status status) identity.node_id
            material version now db)
          _ rest in
      let (rs, alike) =
        take_material-Alike (is_reality n.adapter_type) (is_applied_status status) identity.node_id
          material version now db db1 taken in
      (
        rs,
        ap
              (λ (x : Db).
                if is_applied_status status
                then settle_applied identity version now x
                else settle_failed identity.node_id version code (take 240 message) now x)
              alike
            ∙ ok_injective done,
      )

  pub acknowledge-Ends :
      (db db' : Db)
      → acknowledge_desired_with_material hash_of identity version hash status code message material
          now db
        ≡ ok db'
      → Ends db db'
  unfolding acknowledge_desired_with_material
  acknowledge-Ends db db' h =
      acknowledge_by-Ends db db'
        (exists (λ s. (s.node_id == identity.node_id) && (s.version == version)) db.snapshots)
        (find (is_live_node identity.node_id) db.nodes) h
