-- ===== src/Store/Agents/Heard.antt =====
-- What `RecordHeartbeat` of internal/store/agent.go leaves of a token that `EnrollAgent` has taken.
use poly_fleet.Base.{
  ℕ, ◌+◌, ◌≡◌, ◌≢◌, refl, sym, ap, subst, ◌∙◌, ◌⊎◌, inl, inr, Bool, true, false, Option, none, some,
  List, ◌==◌, if◌then◌else◌, Result, ok, err, conflict, ◌>>=◌, >>=-eq-ok, find, patch, find-update,
  patch_holds, Option-cases, arith,
}
use mathlib.Core.Option
use poly_fleet.Schema.{Text, Db, Node, EnrollmentRow, AgentIdentity, is_none, is_live_node}
use poly_fleet.Store.Snapshot.{insert_snapshot, bump_node_snapshot}
use poly_fleet.Store.Secret.{Crypto}
use poly_fleet.Store.Agents.Capabilities.{normalize_agent_capabilities, replace_capabilities}
use poly_fleet.Store.Agents.Tokens.{EnrollmentFacts, EnrollResponse, Codec, is_token}
use poly_fleet.Store.Agents.Invalidate.{consumed_row}
use poly_fleet.Store.Agents.Enrol.{
  capsule, open_response, replay_enrollment, enroll_node, enroll_found, enroll_on, enroll_by,
  enroll_agent,
}
use poly_fleet.Store.Agents.Enrolled.{enroll_agent-Enrolled, token_after}
use poly_fleet.Store.Agents.Heartbeat.{
  HeartbeatRequest, has_capsule, cleared_row, clear_capsules, is_installed, upgrades, resync,
  resync_node, record_capabilities, record_heard, record_by, record_heartbeat,
}

insert_snapshot_tokens :
    (node version now : ℕ) (db db' : Db)
    → insert_snapshot node version now db ≡ ok db'
    → db'.tokens ≡ db.tokens
unfolding insert_snapshot
insert_snapshot_tokens node version now db db' h = ground arith

bump_tokens :
    (node now version : ℕ) (db db' : Db)
    → bump_node_snapshot node now db ≡ ok (version, db')
    → db'.tokens ≡ db.tokens
unfolding bump_node_snapshot
bump_tokens node now version db db' h = elim (Option-cases (find (is_live_node node) db.nodes)) [
  | inl e ↦ absurd (ground arith)
  | inr (n, e) ↦
      let (db1, inserted, same) =
        >>=-eq-ok (insert_snapshot node (n.desired_version + 1) now _) _
          (rw (e, bump_node_snapshot) at h) in
      let kept = insert_snapshot_tokens node (n.desired_version + 1) now _ db1 inserted in
      ground arith
]

pub either_branch :
    (b : Bool) (m : Result (ℕ × Db)) (x : ℕ × Db) {y : ℕ × Db}
    → (if b then m else ok x) ≡ ok y
    → (m ≡ ok y) ⊎ (x ≡ y)
either_branch true m x h = inl h
either_branch false m x h = inr (ground arith)

resynced_tokens :
    (node version v now : ℕ) (db db' : Db)
    → ◌≡◌ {A = Result (ℕ × Db)} (ok (v, resync_node node v now db)) (ok (version, db'))
    → db'.tokens ≡ db.tokens
unfolding resync_node
resynced_tokens node version v now db db' h = ground arith

resync_tokens :
    (node now version : ℕ) (db db' : Db)
    → resync node now db ≡ ok (version, db')
    → db'.tokens ≡ db.tokens
unfolding resync
resync_tokens node now version db db' h =
    let ((v, db1), bumped, done) = >>=-eq-ok (bump_node_snapshot node now db) _ h in
    resynced_tokens node version v now db1 db' done ∙ bump_tokens node now v db db1 bumped

capabilities_tokens :
    (identity : AgentIdentity) (desired : ℕ) (reported : Option (List Text)) (now version : ℕ)
    (db db' : Db)
    → record_capabilities identity desired reported now db ≡ ok (version, db')
    → db'.tokens ≡ db.tokens
unfolding record_capabilities replace_capabilities
capabilities_tokens identity desired none now version db db' h = ground arith
capabilities_tokens identity desired (some reported) now version db db' h =
    let cs = normalize_agent_capabilities reported in
    let replaced = replace_capabilities identity.node_id cs now db in
    elim (either_branch (upgrades identity cs db) (resync identity.node_id now replaced)
      (desired, replaced) h) [
        | inr kept ↦ ap (λ (x : ℕ × Db). x.1.tokens) (sym kept)
        | inl upgraded ↦ resync_tokens identity.node_id now version replaced db' upgraded
      ]

answer_tokens :
    {a b : ℕ} {x y : Db} → ◌≡◌ {A = Result (ℕ × Db)} (ok (a, x)) (ok (b, y)) → y.tokens ≡ x.tokens
answer_tokens h = ground arith

past_installation :
    (b : Bool) (m : Result (ℕ × Db)) {y : ℕ × Db}
    → (if b then m else err conflict) ≡ ok y
    → m ≡ ok y
past_installation b m h = ground arith

heard_tokens :
    (identity : AgentIdentity) (h : HeartbeatRequest) (now version : ℕ) (db db' : Db)
    (o : Option Node)
    → record_by identity h now db o ≡ ok (version, db')
    → db'.tokens ≡ clear_capsules identity db.tokens
unfolding record_heard
heard_tokens identity h now version db db' none e = absurd (ground arith)
heard_tokens identity h now version db db' (some n) e =
    let ((v, db1), taken, done) =
      >>=-eq-ok (record_capabilities identity n.desired_version h.capabilities now _) _ e in
    let kept = capabilities_tokens identity n.desired_version h.capabilities now v _ db1 taken in
    answer_tokens done ∙ ap (clear_capsules identity) kept

-- An enrolled token that a heartbeat has cleared.
cleared :
    (identity : AgentIdentity) (facts : EnrollmentFacts) (ciphertext : Text) (now : ℕ)
    (t : EnrollmentRow)
    → identity.node_id ≡ t.node_id
    → identity.installation_id ≡ facts.installation_id
    → has_capsule identity (consumed_row facts ciphertext now t) ≡ true
cleared identity facts ciphertext now t node installation = ground arith

-- The capsule of a cleared token is gone for any request.
capsule_cleared :
    (again : EnrollmentFacts) (later : ℕ) (t : EnrollmentRow)
    → capsule again later (cleared_row t) ≡ none
capsule_cleared again later t = ground arith

conflicting :
    {x : EnrollResponse × Db} → ◌≡◌ {A = Result (EnrollResponse × Db)} (err conflict) (ok x) → ⊥
conflicting h = ground arith

module _ (C : Crypto) (J : Codec) where
  -- A used token without a capsule enrols nobody.
  refused_on :
      (key : Text) (u : EnrollmentRow) (again : EnrollmentFacts) (later : ℕ) (db : Db)
      (o : Option Node) (x : EnrollResponse × Db)
      → is_none u.consumed_at ≡ false
      → capsule again later u ≡ none
      → enroll_on C J key u again later db o ≢ ok x
  unfolding replay_enrollment
  refused_on key u again later db none x used gone h = ground arith
  refused_on key u again later db (some n) x used gone h =
      let refused : enroll_found C J key u n again later db ≡ err conflict =
        ap
          (λ b.
            if b
            then enroll_node C J key u n again later db
            else (replay_enrollment C J key u again later >>= λ response. ok (response, db)))
          used
        ∙ ap (λ o. open_response C J key u again o >>= λ response. ok (response, db)) gone in
      conflicting (sym refused ∙ h)

  -- After an enrolment and a heartbeat of the Agent that enrolled, the token enrols nobody, not even the
  -- same request within five minutes.
  pub enroll-record_heartbeat :
      (token key : Text) (t : EnrollmentRow) (facts again : EnrollmentFacts)
      (now heard later version : ℕ) (db db' db2 : Db) (r : EnrollResponse)
      (identity : AgentIdentity) (h : HeartbeatRequest)
      → find (is_token (C.sha256 token)) db.tokens ≡ some t
      → t.consumed_at ≡ none
      → enroll_agent C J token facts key now db ≡ ok (r, db')
      → identity.node_id ≡ t.node_id
      → identity.installation_id ≡ facts.installation_id
      → record_heartbeat identity h heard db' ≡ ok (version, db2)
      → (x : EnrollResponse × Db) → enroll_agent C J token again key later db2 ≢ ok x
  unfolding enroll_agent record_heartbeat clear_capsules
  enroll-record_heartbeat token key t facts again now heard later version db db' db2 r identity h
        found fresh enrolled node installation beat x again_ok =
      let e = enroll_agent-Enrolled C J token t facts key now db r db' found fresh enrolled in
      let u = consumed_row facts e.ciphertext now t in
      let there : find (is_token (C.sha256 token)) db'.tokens ≡ some u =
        subst (λ (d : Db). find (is_token (C.sha256 token)) d.tokens ≡ some u) e.written
          (token_after C J (C.sha256 token) t facts e.ciphertext now db found fresh) in
      let taken : record_by identity h heard db' (find (is_installed identity) db'.nodes)
          ≡ ok (version, db2) =
        past_installation (identity.installation_id == h.installation_id) _ beat in
      let tokens =
        heard_tokens identity h heard version db' db2 (find (is_installed identity) db'.nodes)
          taken in
      let after : find (is_token (C.sha256 token)) db2.tokens ≡ some (cleared_row u) =
        ap (find (is_token (C.sha256 token))) tokens
        ∙ find-update (is_token (C.sha256 token)) (has_capsule identity) cleared_row (λ v. refl)
            db'.tokens
        ∙ ap (Option.map (patch (has_capsule identity) cleared_row)) there
        ∙ ap some (
            patch_holds (has_capsule identity) cleared_row u
              (cleared identity facts e.ciphertext now t node installation)) in
      refused_on key (cleared_row u) again later db2 (find (is_live_node t.node_id) db2.nodes) x
        refl (capsule_cleared again later u)
        (sym (ap (enroll_by C J key again later db2) after) ∙ again_ok)
