-- ===== src/Store/Users/Granted.antt =====
-- Credentials of internal/store/user.go are made for users that are not archived, so that an archived
-- user stays locked out.
use poly_fleet.Base.{
  ℕ, suc, ◌≡◌, ◌≢◌, refl, subst, ◌∙◌, inl, inr, Bool, true, false, not, Option, none, some, List,
  [], ◌∷◌, ◌==◌, if◌then◌else◌, Result, ok, err, pending, not_found, StoreError, >>=-eq-ok, find,
  exists, All, Bool-cases, Option-cases, &&-eq-true, arith,
}
use poly_fleet.Schema.{
  Text, Db, User, Node, Assignment, ManagementMode, CredentialProtocol, is_none, is_live_node,
}
use poly_fleet.Store.Secret.{Crypto, seal}
use poly_fleet.Store.Snapshot.{bump_node_snapshot}
use poly_fleet.Store.Traffic.Account.{checked_add}
use poly_fleet.Store.Users.Credential.{
  CreatedCredential, credential_protocol_for_adapter, is_live_user, is_current, is_managed,
  create_user_credential, stage_credential, stage_rotation, rotate_joined,
  rotate_assignment_credential,
}
use poly_fleet.Store.Users.Assign.{
  allows_mode, is_total, prior_traffic, new_assignment, insert_assignment, or_overflow, assign_on,
  assign_user_with_mode, assign_user,
}
use poly_fleet.Store.Users.Access.{
  SameAccess, SameAccess-refl, SameAccess-trans, bump-SameAccess,
  mark_assignment_pending-SameAccess, LockedOut, LockedOut-SameAccess,
}

second_of :
    {A B : Type 0} {a b : A} {x y : B} → ◌≡◌ {A = Result (A × B)} (ok (a, x)) (ok (b, y)) → x ≡ y
second_of h = ground arith

-- A user that is not archived is another than one that is locked out.
live_other :
    (user other : ℕ) (us : List User)
    → All (λ (u : User). u.id ≡ user → is_none u.archived_at ≡ false) us
    → exists (is_live_user other) us ≡ true
    → other ≢ user
unfolding exists
live_other user other [] h e = absurd (ground arith)
live_other user other (u ∷ us) h e = elim (Bool-cases (is_live_user other u)) [
  | inl hit ↦ λ same.
      let (is, live) = &&-eq-true (u.id == other) (is_none u.archived_at) hit in
      let id : u.id ≡ other = ground arith in let gone = h.0 (id ∙ same) in ground arith
  | inr miss ↦ live_other user other us h.1 (rw (miss, exists) at e)
]

past_live :
    (b : Bool) (m : Result (CreatedCredential × Db)) {y : CreatedCredential × Db}
    → (if b then m else err not_found) ≡ ok y
    → (b ≡ true) × (m ≡ ok y)
past_live b m h = ground arith

past_current :
    (b : Bool) (m : Result (CreatedCredential × Db)) {y : CreatedCredential × Db}
    → (if b then m else err pending) ≡ ok y
    → m ≡ ok y
past_current b m h = ground arith

past_managed :
    (b : Bool) (m : Result (CreatedCredential × Db)) {y : CreatedCredential × Db}
    → (if not b then err StoreError.read_only else m) ≡ ok y
    → m ≡ ok y
past_managed b m h = ground arith

module _ (C : Crypto) (id_text : ℕ → Text) (new_uuid : ℕ → ℕ) (user : ℕ) where
  create_user_credential-LockedOut :
      (other node : ℕ) (protocol : CredentialProtocol) (now : ℕ) (key : Text) (db created : Db)
      (x : ℕ × Text × Text)
      → create_user_credential C id_text new_uuid other node protocol now key db ≡ ok (x, created)
      → other ≢ user
      → LockedOut user db
      → LockedOut user created
  unfolding create_user_credential
  create_user_credential-LockedOut other node protocol now key db created x h differs locked =
      let (ciphertext, sealed, done) = >>=-eq-ok (seal C (suc (suc db.drawn)) key _ _) _ h in
      subst (LockedOut user) (second_of done) (record {
        archived = locked.archived;
        revoked = (λ on. absurd (differs on), locked.revoked);
      })

  stage_credential-SameAccess :
      (other node credential now : ℕ) (db : Db)
      → SameAccess db (stage_credential other node credential now db)
  unfolding stage_credential
  stage_credential-SameAccess other node credential now db = record {
    users = refl;
    credentials = refl;
  }

  stage_rotation-LockedOut :
      (other node : ℕ) (protocol : CredentialProtocol) (now : ℕ) (key : Text) (db db' : Db)
      (made : CreatedCredential)
      → stage_rotation C id_text new_uuid other node protocol now key db ≡ ok (made, db')
      → other ≢ user
      → LockedOut user db
      → LockedOut user db'
  unfolding stage_rotation
  stage_rotation-LockedOut other node protocol now key db db' made h differs locked =
      let ((x, created), c, more) =
        >>=-eq-ok (create_user_credential C id_text new_uuid other node protocol now key db) _ h in
      let ((version, bumped), b, done) =
        >>=-eq-ok (bump_node_snapshot node now (stage_credential other node x.0 now created)) _
          more in
      let kept : SameAccess created db' = subst (SameAccess created) (second_of done) (
        SameAccess-trans (stage_credential-SameAccess other node x.0 now created) (
          SameAccess-trans (bump-SameAccess node now version _ bumped b)
            (mark_assignment_pending-SameAccess other node version now bumped))) in
      LockedOut-SameAccess user created db' kept
        (create_user_credential-LockedOut other node protocol now key db created _ c differs locked)

  insert_assignment-SameAccess :
      (a : Assignment) (db db' : Db) → insert_assignment a db ≡ ok db' → SameAccess db db'
  unfolding insert_assignment
  insert_assignment-SameAccess a db db' h = ground (arith, SameAccess-refl db)

  assign_on-LockedOut :
      (other node limit : ℕ) (mode : ManagementMode) (remote now : ℕ) (key : Text) (n : Node)
      (db db' : Db) (made : CreatedCredential)
      → assign_on C id_text new_uuid other node limit mode remote now key db n ≡ ok (made, db')
      → other ≢ user
      → LockedOut user db
      → LockedOut user db'
  unfolding assign_on
  assign_on-LockedOut other node limit mode remote now key n db db' made h differs locked =
      let (protocol, h1, r1) = >>=-eq-ok (credential_protocol_for_adapter n.adapter_type) _ h in
      let (allowed, h2, r2) =
        >>=-eq-ok (allows_mode n.adapter_type mode remote n.sui_target_inbound_ids) _ r1 in
      let ((x, created), c, r3) =
        >>=-eq-ok (create_user_credential C id_text new_uuid other node protocol now key db) _ r2 in
      let prior = prior_traffic (find (is_total node other) created.totals) in
      let (used, h4, r4) = >>=-eq-ok (or_overflow (checked_add prior.0 prior.1)) _ r3 in
      let (inserted, i, r5) =
        >>=-eq-ok
          (insert_assignment (new_assignment other node x.0 mode remote limit prior used now)
            created)
          _ r4 in
      let ((version, bumped), b, done) = >>=-eq-ok (bump_node_snapshot node now inserted) _ r5 in
      let kept : SameAccess created db' = subst (SameAccess created) (second_of done) (
        SameAccess-trans (insert_assignment-SameAccess _ created inserted i) (
          SameAccess-trans (bump-SameAccess node now version _ bumped b)
            (mark_assignment_pending-SameAccess other node version now bumped))) in
      LockedOut-SameAccess user created db' kept
        (create_user_credential-LockedOut other node protocol now key db created _ c differs locked)

  pub assign_user-LockedOut :
      (other node limit now : ℕ) (key : Text) (db db' : Db) (made : CreatedCredential)
      → assign_user C id_text new_uuid other node limit now key db ≡ ok (made, db')
      → LockedOut user db
      → LockedOut user db'
  unfolding assign_user assign_user_with_mode
  assign_user-LockedOut other node limit now key db db' made h locked =
      let (live, on) = past_live (exists (is_live_user other) db.users) _ h in
      let differs = live_other user other db.users locked.archived live in
      elim (Option-cases (find (is_live_node node) db.nodes)) [
        | inl e ↦ absurd (ground arith)
        | inr (n, e) ↦
            assign_on-LockedOut other node limit ManagementMode.managed 0 now key n db db' made
              (rw (e, assign_user_with_mode) at on) differs locked
      ]

  rotate_joined-LockedOut :
      (other node now : ℕ) (key : Text) (db db' : Db) (made : CreatedCredential)
      (o : Option Assignment) (live : Bool) (m : Option Node)
      → exists (is_live_user other) db.users ≡ live
      → rotate_joined C id_text new_uuid other node now key db o live m ≡ ok (made, db')
      → LockedOut user db
      → LockedOut user db'
  rotate_joined-LockedOut other node now key db db' made none live m is h locked =
      absurd (ground arith)
  rotate_joined-LockedOut other node now key db db' made (some a) false m is h locked =
      absurd (ground arith)
  rotate_joined-LockedOut other node now key db db' made (some a) true none is h locked =
      absurd (ground arith)
  rotate_joined-LockedOut other node now key db db' made (some a) true (some n) is h locked =
      let (protocol, h1, r1) =
        >>=-eq-ok (credential_protocol_for_adapter n.adapter_type) _
          (past_managed (is_managed a.management_mode) _ h) in
      stage_rotation-LockedOut other node protocol now key db db' made
        (past_current (is_current a) _ r1) (live_other user other db.users locked.archived is)
        locked

  pub rotate_assignment_credential-LockedOut :
      (other node now : ℕ) (key : Text) (db db' : Db) (made : CreatedCredential)
      → rotate_assignment_credential C id_text new_uuid other node now key db ≡ ok (made, db')
      → LockedOut user db
      → LockedOut user db'
  unfolding rotate_assignment_credential
  rotate_assignment_credential-LockedOut other node now key db db' made h locked =
      rotate_joined-LockedOut other node now key db db' made _ _ _ refl h locked
