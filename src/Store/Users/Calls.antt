-- ===== src/Store/Users/Calls.antt =====
-- The calls of internal/store/user.go and agent.go that an archived user outlives.
use poly_fleet.Base.{
  ℕ, ◌≡◌, refl, subst, inl, inr, Bool, Option, none, some, List, if◌then◌else◌, Result, ok, err,
  conflict, >>=-eq-ok, arith,
}
use poly_fleet.Schema.{Text, Db, Node, AgentIdentity, EnrollmentRow}
use poly_fleet.Store.Secret.{Crypto}
use poly_fleet.Store.Agents.Capabilities.{normalize_agent_capabilities, replace_capabilities}
use poly_fleet.Store.Agents.Tokens.{EnrollmentFacts, EnrollResponse, Codec}
use poly_fleet.Store.Agents.Invalidate.{
  bind_node, invalidate_credentials, invalidate_assignments, invalidate_reality, consume_token,
}
use poly_fleet.Store.Agents.Enrol.{response_of, write_enrollment, enroll_agent}
use poly_fleet.Store.Agents.Enrolled.{enroll_agent-Ends}
use poly_fleet.Store.Agents.Heartbeat.{
  HeartbeatRequest, upgrades, resync, resync_node, record_capabilities, record_heard, record_by,
  record_heartbeat,
}
use poly_fleet.Store.Agents.Heard.{either_branch}
use poly_fleet.Store.Snapshot.{bump_node_snapshot}
use poly_fleet.Store.Users.Access.{
  SameAccess, SameAccess-refl, SameAccess-trans, bump-SameAccess, LockedOut,
}
use poly_fleet.Store.Users.Barred.{invalidate_credentials-LockedOut}

module _ (C : Crypto) (J : Codec) where
  write_enrollment-LockedOut :
      (user : ℕ) (t : EnrollmentRow) (facts : EnrollmentFacts) (ciphertext : Text) (now : ℕ)
      (db : Db)
      → LockedOut user db
      → LockedOut user (write_enrollment C J t facts ciphertext now db)
  unfolding write_enrollment bind_node invalidate_assignments invalidate_reality
      replace_capabilities consume_token invalidate_credentials
  write_enrollment-LockedOut user t facts ciphertext now db h =
      let kept =
        invalidate_credentials-LockedOut user t.node_id now
          (bind_node t.node_id facts (C.sha256 (response_of C J t.node_id now db).node_credential)
            now db)
          (record { archived = h.archived; revoked = h.revoked }) in
      record { archived = kept.archived; revoked = kept.revoked }

  pub enroll_agent-LockedOut :
      (user : ℕ) (token : Text) (facts : EnrollmentFacts) (key : Text) (now : ℕ) (db : Db)
      (r : EnrollResponse) (db' : Db)
      → enroll_agent C J token facts key now db ≡ ok (r, db')
      → LockedOut user db
      → LockedOut user db'
  enroll_agent-LockedOut user token facts key now db r db' h locked =
      elim (enroll_agent-Ends C J token facts key now db r db' h) [
        | inl same ↦ subst (LockedOut user) same locked
        | inr (t, ciphertext, written) ↦
            subst (LockedOut user) written
              (write_enrollment-LockedOut user t facts ciphertext now db locked)
      ]

resync_node-SameAccess :
    (node version now : ℕ) (db : Db) → SameAccess db (resync_node node version now db)
unfolding resync_node
resync_node-SameAccess node version now db = record { users = refl; credentials = refl }

second_is : {a b : ℕ} {x y : Db} → ◌≡◌ {A = Result (ℕ × Db)} (ok (a, x)) (ok (b, y)) → x ≡ y
second_is h = ground arith

resync-SameAccess :
    (node now version : ℕ) (db db' : Db)
    → resync node now db ≡ ok (version, db')
    → SameAccess db db'
unfolding resync
resync-SameAccess node now version db db' h =
    let ((v, bumped), b, done) = >>=-eq-ok (bump_node_snapshot node now db) _ h in
    subst (SameAccess db) (second_is done) (
      SameAccess-trans (bump-SameAccess node now v db bumped b)
        (resync_node-SameAccess node v now bumped))

replace_capabilities-SameAccess :
    (node : ℕ) (cs : List Text) (now : ℕ) (db : Db)
    → SameAccess db (replace_capabilities node cs now db)
unfolding replace_capabilities
replace_capabilities-SameAccess node cs now db = record { users = refl; credentials = refl }

record_capabilities-SameAccess :
    (identity : AgentIdentity) (desired : ℕ) (reported : Option (List Text)) (now version : ℕ)
    (db db' : Db)
    → record_capabilities identity desired reported now db ≡ ok (version, db')
    → SameAccess db db'
unfolding record_capabilities
record_capabilities-SameAccess identity desired none now version db db' h =
    subst (SameAccess db) (second_is h) (SameAccess-refl db)
record_capabilities-SameAccess identity desired (some reported) now version db db' h =
    let cs = normalize_agent_capabilities reported in
    let replaced = replace_capabilities identity.node_id cs now db in
    let first = replace_capabilities-SameAccess identity.node_id cs now db in
    elim (either_branch (upgrades identity cs db) (resync identity.node_id now replaced)
      (desired, replaced) h) [
        | inr kept ↦ subst (λ (x : ℕ × Db). SameAccess db x.1) kept first
        | inl upgraded ↦
            SameAccess-trans first
              (resync-SameAccess identity.node_id now version replaced db' upgraded)
      ]

record_by-SameAccess :
    (identity : AgentIdentity) (h : HeartbeatRequest) (now version : ℕ) (db db' : Db)
    (o : Option Node)
    → record_by identity h now db o ≡ ok (version, db')
    → SameAccess db db'
unfolding record_heard
record_by-SameAccess identity h now version db db' none e = absurd (ground arith)
record_by-SameAccess identity h now version db db' (some n) e =
    let ((v, mid), taken, done) =
      >>=-eq-ok (record_capabilities identity n.desired_version h.capabilities now _) _ e in
    let kept =
      record_capabilities-SameAccess identity n.desired_version h.capabilities now v _ mid taken in
    subst (SameAccess db) (second_is done)
      (record { users = kept.users; credentials = kept.credentials })

past_beat :
    (b : Bool) (m : Result (ℕ × Db)) {y : ℕ × Db}
    → (if b then m else err conflict) ≡ ok y
    → m ≡ ok y
past_beat b m h = ground arith

pub record_heartbeat-SameAccess :
    (identity : AgentIdentity) (h : HeartbeatRequest) (now version : ℕ) (db db' : Db)
    → record_heartbeat identity h now db ≡ ok (version, db')
    → SameAccess db db'
unfolding record_heartbeat
record_heartbeat-SameAccess identity h now version db db' e =
    record_by-SameAccess identity h now version db db' _ (past_beat _ _ e)
