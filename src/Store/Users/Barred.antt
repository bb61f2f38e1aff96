-- ===== src/Store/Users/Barred.antt =====
-- Calls of internal/store/user.go and agent.go that leave an archived user locked out: the removal of
-- users and assignments, the updates, and the acknowledgements and enrolments of Agents.
use poly_fleet.Base.{
  ℕ, ◌≡◌, refl, sym, subst, ◌∙◌, inl, inr, Bool, true, false, ◌&&◌, Option, ◌==◌, if◌then◌else◌, ok,
  >>=-eq-ok, take, find, exists, All-update, Option-cases, &&-eq-true, arith,
}
use poly_fleet.Schema.{
  Text, Db, User, UserCredential, CredentialState, KickReason, AgentIdentity, is_none,
  is_assignment,
}
use poly_fleet.Store.Snapshot.{assignment_node_ids, bump_node_snapshot}
use poly_fleet.Store.Kick.{request_kick}
use poly_fleet.Store.Agents.Invalidate.{
  is_applied, is_desired, invalidated_credential, invalidate_credentials,
}
use poly_fleet.Store.Agents.Desired.{
  is_staged, retire_credentials, apply_credentials, settle_applied, settle_failed,
  AppliedRealityMaterial, is_applied_status, acknowledge_desired_with_material,
}
use poly_fleet.Store.Agents.Acknowledged.{acknowledge-Ends}
use poly_fleet.Store.Users.Credential.{is_live_user}
use poly_fleet.Store.Users.Remove.{
  revoke, is_usable, drop_assignment, unassign_user, archive_row, archive_user,
}
use poly_fleet.Store.Users.Access.{
  SameAccess, SameAccess-trans, request_kick-SameAccess, bump-SameAccess, archive_nodes-SameAccess,
  past_user, LockedOut, LockedOut-SameAccess,
}

invalidated_user :
    (desired : Bool) (now : ℕ) (c : UserCredential)
    → (invalidated_credential desired now c).user_id ≡ c.user_id
unfolding invalidated_credential
invalidated_user true now c = refl
invalidated_user false now c = refl

applied_usable : (s : CredentialState) → is_usable s ≡ false → is_applied s ≡ true → ⊥
applied_usable s h a = ground arith

staged_usable :
    (s : CredentialState) (desired : Bool)
    → is_usable s ≡ false
    → (is_staged s && desired) ≡ true
    → ⊥
staged_usable s desired h a = ground arith

module _ (user : ℕ) where
  abbrev Unusable : UserCredential → Type 0
  Unusable c = c.user_id ≡ user → is_usable c.state ≡ false

  drop_assignment-LockedOut :
      (other node credential now : ℕ) (db : Db)
      → LockedOut user db
      → LockedOut user (drop_assignment other node credential now db)
  unfolding drop_assignment
  drop_assignment-LockedOut other node credential now db h = record {
    archived = h.archived;
    revoked =
        All-update Unusable (λ c. c.id == credential) (revoke now) (λ c hit before on. refl)
          db.credentials h.revoked;
  }

  -- The removal of an assignment leaves the user locked out.
  pub unassign_user-LockedOut :
      (other node now : ℕ) (db db' : Db)
      → unassign_user other node now db ≡ ok db'
      → LockedOut user db
      → LockedOut user db'
  unfolding unassign_user
  unassign_user-LockedOut other node now db db' h locked =
      elim (Option-cases (find (is_assignment node other) db.assignments)) [
        | inl e ↦ absurd (ground arith)
        | inr (a, e) ↦
            let dropped = drop_assignment other node a.desired_credential_id now db in
            let (kicked, k, more) =
              >>=-eq-ok (request_kick node other KickReason.assignment_removed now dropped) _
                (rw (e, unassign_user) at h) in
            let ((version, bumped), b, done) =
              >>=-eq-ok (bump_node_snapshot node now kicked) _ more in
            let is : bumped ≡ db' = ground arith in
            LockedOut-SameAccess user dropped db'
              (subst (SameAccess dropped) is (
                SameAccess-trans
                  (request_kick-SameAccess node other KickReason.assignment_removed now dropped
                    kicked k)
                  (bump-SameAccess node now version kicked bumped b)))
              (drop_assignment-LockedOut other node a.desired_credential_id now db locked)
      ]

  settle_applied-LockedOut :
      (identity : AgentIdentity) (version now : ℕ) (db : Db)
      → LockedOut user db
      → LockedOut user (settle_applied identity version now db)
  unfolding settle_applied retire_credentials apply_credentials
  settle_applied-LockedOut identity version now db h = record {
    archived = h.archived;
    revoked =
        All-update Unusable _ _
          (λ c hit before on. absurd (
            staged_usable c.state (is_desired identity.node_id db.assignments c) (before on)
              (&&-eq-true (c.node_id == identity.node_id)
                (is_staged c.state && is_desired identity.node_id db.assignments c) hit).1))
          _ (All-update Unusable _ _ (λ c hit before on. refl) db.credentials h.revoked);
  }

  settle_failed-SameAccess :
      (node version : ℕ) (code message : Text) (now : ℕ) (db : Db)
      → SameAccess db (settle_failed node version code message now db)
  unfolding settle_failed
  settle_failed-SameAccess node version code message now db = record {
    users = refl;
    credentials = refl;
  }

  pub invalidate_credentials-LockedOut :
      (node now : ℕ) (db : Db)
      → LockedOut user db
      → LockedOut user (invalidate_credentials node now db)
  unfolding invalidate_credentials invalidated_credential
  invalidate_credentials-LockedOut node now db h = record {
    archived = h.archived;
    revoked =
        All-update Unusable _ _
          (λ c hit before on. absurd (
            applied_usable c.state
              (before (sym (invalidated_user (is_desired node db.assignments c) now c) ∙ on))
              ((&&-eq-true (c.node_id == node) (is_applied c.state) hit).1)))
          db.credentials h.revoked;
  }

  settled-LockedOut :
      (b : Bool) (identity : AgentIdentity) (version : ℕ) (code message : Text) (now : ℕ) (db : Db)
      → LockedOut user db
      → LockedOut user (
          if b
          then settle_applied identity version now db
          else settle_failed identity.node_id version code message now db)
  settled-LockedOut true identity version code message now db h =
      settle_applied-LockedOut identity version now db h
  settled-LockedOut false identity version code message now db h =
      LockedOut-SameAccess user db _
        (settle_failed-SameAccess identity.node_id version code message now db) h

  -- An acknowledgement leaves the user locked out.
  pub acknowledge-LockedOut :
      (hash_of : ℕ → ℕ → Text) (identity : AgentIdentity) (version : ℕ)
      (hash status code message : Text) (material : Option AppliedRealityMaterial) (now : ℕ)
      (db db' : Db)
      → acknowledge_desired_with_material hash_of identity version hash status code message material
          now db
        ≡ ok db'
      → LockedOut user db
      → LockedOut user db'
  acknowledge-LockedOut hash_of identity version hash status code message material now db db' h
        locked =
      let (rs, is) =
        acknowledge-Ends hash_of identity version hash status code message material now db db' h in
      subst (LockedOut user) is (
        settled-LockedOut (is_applied_status status) identity version code (take 240 message) now
          (record db { realities = rs })
          (record { archived = locked.archived; revoked = locked.revoked }))

  -- The archiving of any user does.
  archive_row-Kept :
      (other now : ℕ) (db : Db) → LockedOut user db → LockedOut user (archive_row other now db)
  unfolding archive_row
  archive_row-Kept other now db h = record {
    archived =
        All-update (λ (u : User). u.id ≡ user → is_none u.archived_at ≡ false) (is_live_user other)
          _ (λ u hit before on. refl) db.users h.archived;
    revoked =
        All-update Unusable (λ c. (c.user_id == other) && is_usable c.state) (revoke now)
          (λ c hit before on. refl) db.credentials h.revoked;
  }

  pub archive_user-Kept :
      (other now : ℕ) (db db' : Db)
      → archive_user other now db ≡ ok db'
      → LockedOut user db
      → LockedOut user db'
  unfolding archive_user
  archive_user-Kept other now db db' h locked =
      LockedOut-SameAccess user (archive_row other now db) db'
        (archive_nodes-SameAccess other (assignment_node_ids other db) now _ db'
          (past_user (exists (is_live_user other) db.users) _ h))
        (archive_row-Kept other now db locked)
