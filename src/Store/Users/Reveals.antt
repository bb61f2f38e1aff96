-- ===== src/Store/Users/Reveals.antt =====
-- The secrets that internal/store/user.go tells when it assigns and rotates are those that it reveals.
use poly_fleet.Base.{
  ℕ, ◌≡◌, refl, ap, ◌∙◌, inl, inr, Bool, true, false, not, Option, none, some, [], if◌then◌else◌,
  Result, ok, err, pending, not_found, StoreError, >>=-eq-ok, find, exists, update, find-update,
  find_holds, patch, patch_holds, Option-cases, arith,
}
use mathlib.Core.Option
use poly_fleet.Schema.{
  Text, Db, Node, Assignment, AssignmentState, ManagementMode, CredentialProtocol, is_live_node,
  is_assignment,
}
use poly_fleet.Store.Secret.{Crypto, IsLawful}
use poly_fleet.Store.Snapshot.{bump_node_snapshot}
use poly_fleet.Store.Traffic.Account.{checked_add}
use poly_fleet.Store.Users.Credential.{
  CreatedCredential, credential_protocol_for_adapter, is_live_user, is_managed,
  create_user_credential, stage_credential, stage_rotation, rotate_joined,
  rotate_assignment_credential, is_current,
}
use poly_fleet.Store.Users.Assign.{
  allows_mode, is_total, prior_traffic, new_assignment, insert_assignment, or_overflow, assign_on,
  assign_user_with_mode, assign_user,
}
use poly_fleet.Store.Users.Reveal.{reveal_assignment_credential}
use poly_fleet.Store.Users.Revealed.{
  subst_pair, create_user_credential-Made, marked_reveal, Keeps-subst,
}

past_live :
    (b : Bool) (m : Result (CreatedCredential × Db)) {y : CreatedCredential × Db}
    → (if b then m else err not_found) ≡ ok y
    → (b ≡ true) × (m ≡ ok y)
past_live b m h = ground arith

past_managed :
    (b : Bool) (m : Result (CreatedCredential × Db)) {y : CreatedCredential × Db}
    → (if not b then err StoreError.read_only else m) ≡ ok y
    → (b ≡ true) × (m ≡ ok y)
past_managed b m h = ground arith

past_current :
    (b : Bool) (m : Result (CreatedCredential × Db)) {y : CreatedCredential × Db}
    → (if b then m else err pending) ≡ ok y
    → m ≡ ok y
past_current b m h = ground arith

abbrev desiring : ℕ → ℕ → Assignment → Assignment
desiring credential now a = record a {
  desired_credential_id = credential;
  state = AssignmentState.pending;
  last_error_code = [];
  last_error_message = [];
  updated_at = now;
}

insert_assignment_first :
    (user node : ℕ) (a : Assignment) (db db' : Db)
    → insert_assignment a db ≡ ok db'
    → a.node_id ≡ node
    → a.user_id ≡ user
    → (find (is_assignment node user) db'.assignments ≡ some a)
      × (db'.users ≡ db.users)
      × (db'.nodes ≡ db.nodes)
      × (db'.credentials ≡ db.credentials)
unfolding insert_assignment find
insert_assignment_first user node a db db' h on of = ground arith

-- The two calls that tell a credential of an assignment.
pub data Issued (C : Crypto) (id_text : ℕ → Text) (new_uuid : ℕ → ℕ) (user node : ℕ) (key : Text)
    (db db' : Db) (made : CreatedCredential) : Type 0 where
  by_assignment :
      (limit now : ℕ)
      → assign_user C id_text new_uuid user node limit now key db ≡ ok (made, db')
      → Issued C id_text new_uuid user node key db db' made
  by_rotation :
      (now : ℕ)
      → rotate_assignment_credential C id_text new_uuid user node now key db ≡ ok (made, db')
      → Issued C id_text new_uuid user node key db db' made

module _ (C : Crypto) (lawful : IsLawful C) (id_text : ℕ → Text) (new_uuid : ℕ → ℕ) where
  assign_on_reveal :
      (user node limit now : ℕ) (key : Text) (n : Node) (db db' : Db) (made : CreatedCredential)
      → exists (is_live_user user) db.users ≡ true
      → find (is_live_node node) db.nodes ≡ some n
      → assign_on C id_text new_uuid user node limit ManagementMode.managed 0 now key db n
        ≡ ok (made, db')
      → reveal_assignment_credential C id_text new_uuid user node key db' ≡ ok made
  unfolding assign_on
  assign_on_reveal user node limit now key n db db' made user_live live h =
      let (protocol, h1, r1) = >>=-eq-ok (credential_protocol_for_adapter n.adapter_type) _ h in
      let (allowed, h2, r2) =
        >>=-eq-ok (allows_mode n.adapter_type ManagementMode.managed 0 n.sui_target_inbound_ids) _
          r1 in
      let ((x, created), c, r3) =
        >>=-eq-ok (create_user_credential C id_text new_uuid user node protocol now key db) _ r2 in
      let prior = prior_traffic (find (is_total node user) created.totals) in
      let (used, h4, r4) = >>=-eq-ok (or_overflow (checked_add prior.0 prior.1)) _ r3 in
      let a = new_assignment user node x.0 ManagementMode.managed 0 limit prior used now in
      let (inserted, i, r5) = >>=-eq-ok (insert_assignment a created) _ r4 in
      let ((version, bumped), b, done) = >>=-eq-ok (bump_node_snapshot node now inserted) _ r5 in
      let m =
        create_user_credential-Made C id_text new_uuid user node protocol key lawful now db created
          x c in
      let (first, users, nodes, credentials) =
        insert_assignment_first user node a created inserted i refl refl in
      subst_pair
        (λ told' d. reveal_assignment_credential C id_text new_uuid user node key d ≡ ok told') done
        (marked_reveal C id_text new_uuid user node protocol key now version x inserted bumped a n
          (Keeps-subst C id_text new_uuid user node protocol key x created inserted credentials
            m.keeps)
          first refl refl (ap (exists (is_live_user user)) (users ∙ m.users) ∙ user_live)
          (ap (find (is_live_node node)) (nodes ∙ m.nodes) ∙ live) b)

  assign_user_reveals :
      (user node limit now : ℕ) (key : Text) (db db' : Db) (made : CreatedCredential)
      → assign_user C id_text new_uuid user node limit now key db ≡ ok (made, db')
      → reveal_assignment_credential C id_text new_uuid user node key db' ≡ ok made
  unfolding assign_user assign_user_with_mode
  assign_user_reveals user node limit now key db db' made h =
      let (user_live, on) = past_live (exists (is_live_user user) db.users) _ h in
      elim (Option-cases (find (is_live_node node) db.nodes)) [
        | inl e ↦ absurd (ground arith)
        | inr (n, e) ↦
            assign_on_reveal user node limit now key n db db' made user_live e
              (rw (e, assign_user_with_mode) at on)
      ]

  stage_rotation_reveals :
      (user node now : ℕ) (protocol : CredentialProtocol) (key : Text) (a : Assignment) (n : Node)
      (db db' : Db) (made : CreatedCredential)
      → find (is_assignment node user) db.assignments ≡ some a
      → is_managed a.management_mode ≡ true
      → exists (is_live_user user) db.users ≡ true
      → find (is_live_node node) db.nodes ≡ some n
      → stage_rotation C id_text new_uuid user node protocol now key db ≡ ok (made, db')
      → reveal_assignment_credential C id_text new_uuid user node key db' ≡ ok made
  unfolding stage_rotation stage_credential
  stage_rotation_reveals user node now protocol key a n db db' made there managed user_live live h =
      let ((x, created), c, more) =
        >>=-eq-ok (create_user_credential C id_text new_uuid user node protocol now key db) _ h in
      let ((version, bumped), b, done) =
        >>=-eq-ok (bump_node_snapshot node now (stage_credential user node x.0 now created)) _
          more in
      let m =
        create_user_credential-Made C id_text new_uuid user node protocol key lawful now db created
          x c in
      let staged = stage_credential user node x.0 now created in
      let f : Assignment → Assignment = desiring x.0 now in
      let p = is_assignment node user in
      let on : find p (update p f created.assignments) ≡ some (f a) =
        find-update p p f (λ m. refl) created.assignments
        ∙ ap (λ xs. Option.map (patch p f) (find p xs)) m.assignments
        ∙ ap (Option.map (patch p f)) there
        ∙ ap some (patch_holds p f a (find_holds p db.assignments there)) in
      subst_pair
        (λ told' d. reveal_assignment_credential C id_text new_uuid user node key d ≡ ok told') done
        (marked_reveal C id_text new_uuid user node protocol key now version x staged bumped (f a) n
          (Keeps-subst C id_text new_uuid user node protocol key x created staged refl m.keeps) on
          refl managed (ap (exists (is_live_user user)) m.users ∙ user_live)
          (ap (find (is_live_node node)) m.nodes ∙ live) b)

  rotate_joined_reveals :
      (user node now : ℕ) (key : Text) (db db' : Db) (made : CreatedCredential)
      (o : Option Assignment) (b : Bool) (m : Option Node)
      → find (is_assignment node user) db.assignments ≡ o
      → exists (is_live_user user) db.users ≡ b
      → find (is_live_node node) db.nodes ≡ m
      → rotate_joined C id_text new_uuid user node now key db o b m ≡ ok (made, db')
      → reveal_assignment_credential C id_text new_uuid user node key db' ≡ ok made
  rotate_joined_reveals user node now key db db' made none b m e u l h = absurd (ground arith)
  rotate_joined_reveals user node now key db db' made (some a) false m e u l h =
      absurd (ground arith)
  rotate_joined_reveals user node now key db db' made (some a) true none e u l h =
      absurd (ground arith)
  rotate_joined_reveals user node now key db db' made (some a) true (some n) e u l h =
      let (managed, first) = past_managed (is_managed a.management_mode) _ h in
      let (protocol, spoken, rest) =
        >>=-eq-ok (credential_protocol_for_adapter n.adapter_type) _ first in
      stage_rotation_reveals user node now protocol key a n db db' made e managed u l
        (past_current (is_current a) _ rest)

  rotate_assignment_credential_reveals :
      (user node now : ℕ) (key : Text) (db db' : Db) (made : CreatedCredential)
      → rotate_assignment_credential C id_text new_uuid user node now key db ≡ ok (made, db')
      → reveal_assignment_credential C id_text new_uuid user node key db' ≡ ok made
  unfolding rotate_assignment_credential
  rotate_assignment_credential_reveals user node now key db db' made h =
      rotate_joined_reveals user node now key db db' made _ _ _ refl refl refl h

  -- The credential that the assignment of a user to a node tells, or the rotation of the assignment's
  -- credential, is what the assignment reveals afterwards, under the same master key, if the cipher
  -- opens what it has sealed.
  pub reveal-Issued :
      (user node : ℕ) (key : Text) (db db' : Db) (made : CreatedCredential)
      → Issued C id_text new_uuid user node key db db' made
      → reveal_assignment_credential C id_text new_uuid user node key db' ≡ ok made
  reveal-Issued user node key db db' made (by_assignment limit now h) =
      assign_user_reveals user node limit now key db db' made h
  reveal-Issued user node key db db' made (by_rotation now h) =
      rotate_assignment_credential_reveals user node now key db db' made h
