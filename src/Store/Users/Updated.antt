-- ===== src/Store/Users/Updated.antt =====
-- `UpdateUser` and `UpdateAssignment` of internal/store/user.go leave an archived user locked out.
use poly_fleet.Base.{
  ℕ, ◌≡◌, subst, inl, inr, Bool, true, false, Option, none, some, List, [], ◌∷◌, if◌then◌else◌,
  Result, ok, err, conflict, StoreError, >>=-eq-ok, find, update, All-update, Option-cases, arith,
}
use poly_fleet.Schema.{Text, Db, User, Assignment, KickReason, is_none}
use poly_fleet.Store.Snapshot.{
  Changed, add_changed_assignment, assignment_node_ids, users_of, mark_users, bump_nodes,
  bump_changed_assignments, bump_node_snapshot, mark_assignment_pending,
}
use poly_fleet.Store.Traffic.Quota.{QuotaRow}
use poly_fleet.Store.Users.Credential.{is_live_user, is_managed}
use poly_fleet.Store.Users.Update.{
  UpdateUser, updated_user, update_reason, kick_for, update_nodes, update_found, update_user,
  assignment_reason, update_assignment_found, update_assignment_joined, update_assignment,
}
use poly_fleet.Store.Users.Access.{
  SameAccess, SameAccess-refl, SameAccess-trans, request_kick-SameAccess, bump-SameAccess,
  mark_assignment_pending-SameAccess, LockedOut, LockedOut-SameAccess,
}

kick_for-SameAccess :
    (reason : Option KickReason) (node user now : ℕ) (db db' : Db)
    → kick_for reason node user now db ≡ ok db'
    → SameAccess db db'
kick_for-SameAccess none node user now db db' h =
    let is : db ≡ db' = ground arith in subst (SameAccess db) is (SameAccess-refl db)
kick_for-SameAccess (some reason) node user now db db' h =
    request_kick-SameAccess node user reason now db db' h

mark_users-SameAccess :
    (users : List ℕ) (node version now : ℕ) (db : Db)
    → SameAccess db (mark_users users node version now db)
unfolding mark_users
mark_users-SameAccess [] node version now db = SameAccess-refl db
mark_users-SameAccess (user ∷ users) node version now db =
    SameAccess-trans (mark_assignment_pending-SameAccess user node version now db)
      (mark_users-SameAccess users node version now _)

bump_nodes-SameAccess :
    (nodes : List ℕ) (changed : Changed) (now : ℕ) (db db' : Db)
    → bump_nodes nodes changed now db ≡ ok db'
    → SameAccess db db'
unfolding bump_nodes
bump_nodes-SameAccess [] changed now db db' h =
    let is : db ≡ db' = ground arith in subst (SameAccess db) is (SameAccess-refl db)
bump_nodes-SameAccess (node ∷ nodes) changed now db db' h =
    let ((version, bumped), b, rest) = >>=-eq-ok (bump_node_snapshot node now db) _ h in
    SameAccess-trans (bump-SameAccess node now version db bumped b) (
      SameAccess-trans (mark_users-SameAccess (users_of node changed) node version now bumped)
        (bump_nodes-SameAccess nodes changed now _ db' rest))

update_nodes-SameAccess :
    (input : UpdateUser) (u : User) (nodes : List ℕ) (before after : List QuotaRow)
    (changed changed' : Changed) (db db' : Db)
    → update_nodes input u nodes before after changed db ≡ ok (changed', db')
    → SameAccess db db'
unfolding update_nodes
update_nodes-SameAccess input u [] before after changed changed' db db' h =
    let is : db ≡ db' = ground arith in subst (SameAccess db) is (SameAccess-refl db)
update_nodes-SameAccess input u (node ∷ nodes) before after changed changed' db db' h =
    let (kicked, k, rest) =
      >>=-eq-ok (kick_for (update_reason input u node before after) node u.id input.now db) _ h in
    SameAccess-trans
      (kick_for-SameAccess (update_reason input u node before after) node u.id input.now db kicked
        k)
      (update_nodes-SameAccess input u nodes before after (add_changed_assignment node u.id changed)
        changed' kicked db' rest)

past_name : (b : Bool) (m : Result Db) {y : Db} → (if b then err conflict else m) ≡ ok y → m ≡ ok y
past_name b m h = ground arith

update_assignment_found-SameAccess :
    (other node limit now : ℕ) (enabled : Bool) (db db' : Db) (a : Assignment)
    → update_assignment_found other node enabled limit now db a ≡ ok db'
    → SameAccess db db'
unfolding update_assignment_found
update_assignment_found-SameAccess other node limit now enabled db db' a h =
    let (kicked, k, more) =
      >>=-eq-ok (kick_for (assignment_reason enabled a _ _) node other now _) _ h in
    let ((version, bumped), b, done) = >>=-eq-ok (bump_node_snapshot node now kicked) _ more in
    let is : mark_assignment_pending other node version now bumped ≡ db' = ground arith in
    let marked =
      SameAccess-trans (bump-SameAccess node now version kicked bumped b)
        (mark_assignment_pending-SameAccess other node version now bumped) in
    let first = kick_for-SameAccess (assignment_reason enabled a _ _) node other now _ kicked k in
    let whole = SameAccess-trans first (subst (SameAccess kicked) is marked) in
    record { users = whole.users; credentials = whole.credentials }

past_read_only :
    (b : Bool) (m : Result Db) {y : Db}
    → (if b then m else err StoreError.read_only) ≡ ok y
    → m ≡ ok y
past_read_only b m h = ground arith

update_assignment_joined-SameAccess :
    (other node limit now : ℕ) (enabled : Bool) (db db' : Db) (o : Option Assignment) (live : Bool)
    → update_assignment_joined other node enabled limit now db o live ≡ ok db'
    → SameAccess db db'
update_assignment_joined-SameAccess other node limit now enabled db db' none live h =
    absurd (ground arith)
update_assignment_joined-SameAccess other node limit now enabled db db' (some a) false h =
    absurd (ground arith)
update_assignment_joined-SameAccess other node limit now enabled db db' (some a) true h =
    update_assignment_found-SameAccess other node limit now enabled db db' a
      (past_read_only (is_managed a.management_mode) _ h)

pub update_assignment-SameAccess :
    (other node limit now : ℕ) (enabled : Bool) (db db' : Db)
    → update_assignment other node enabled limit now db ≡ ok db'
    → SameAccess db db'
unfolding update_assignment
update_assignment-SameAccess other node limit now enabled db db' h =
    update_assignment_joined-SameAccess other node limit now enabled db db' _ _ h

module _ (user : ℕ) where
  updated_row-LockedOut :
      (other : ℕ) (input : UpdateUser) (db : Db)
      → LockedOut user db
      → LockedOut user
          (record db { users = update (is_live_user other) (updated_user input) db.users })
  updated_row-LockedOut other input db h = record {
    archived =
        All-update (λ (u : User). u.id ≡ user → is_none u.archived_at ≡ false) (is_live_user other)
          (updated_user input) (λ u hit before on. before on) db.users h.archived;
    revoked = h.revoked;
  }

  update_found-LockedOut :
      (input : UpdateUser) (u : User) (db db' : Db)
      → update_found input u db ≡ ok db'
      → LockedOut user db
      → LockedOut user db'
  unfolding update_found bump_changed_assignments
  update_found-LockedOut input u db db' h locked =
      let ((changed, mid), n, rest) =
        >>=-eq-ok (update_nodes input u (assignment_node_ids u.id db) _ _ [] _) _ h in
      LockedOut-SameAccess user _ db'
        (SameAccess-trans
          (update_nodes-SameAccess input u (assignment_node_ids u.id db) _ _ [] changed _ mid n)
          (bump_nodes-SameAccess _ changed input.now mid db' rest))
        (updated_row-LockedOut u.id input db locked)

  pub update_user-LockedOut :
      (same_name : Text → Text → Bool) (other : ℕ) (input : UpdateUser) (db db' : Db)
      → update_user same_name other input db ≡ ok db'
      → LockedOut user db
      → LockedOut user db'
  unfolding update_user
  update_user-LockedOut same_name other input db db' h locked =
      elim (Option-cases (find (is_live_user other) db.users)) [
        | inl e ↦ absurd (ground arith)
        | inr (u, e) ↦
            update_found-LockedOut input u db db' (past_name _ _ (rw (e, update_user) at h)) locked
      ]
