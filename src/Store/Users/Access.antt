-- ===== src/Store/Users/Access.antt =====
-- Who may be let in: the users and credentials of internal/store/user.go, and the calls that keep an
-- archived user out.
use poly_fleet.Base.{
  ℕ, ◌+◌, ◌≡◌, refl, sym, subst, ◌∙◌, inl, inr, Bool, false, ◌&&◌, List, [], ◌∷◌, ◌==◌,
  if◌then◌else◌, Result, ok, err, not_found, >>=-eq-ok, find, exists, All, All-update_where,
  Option-cases, arith,
}
use poly_fleet.Schema.{Db, User, KickReason, is_none, is_live_node}
use poly_fleet.Store.Snapshot.{
  insert_snapshot, bump_node_snapshot, mark_assignment_pending, assignment_node_ids,
}
use poly_fleet.Store.Kick.{upsert_kick, request_kick}
use poly_fleet.Store.Users.Credential.{is_live_user}
use poly_fleet.Store.Users.Remove.{revoke, is_usable, archive_row, archive_nodes, archive_user}

-- Neither users nor credentials have changed.
pub record SameAccess (db db' : Db) : Type 0 where
  pub users : db'.users ≡ db.users
  pub credentials : db'.credentials ≡ db.credentials

pub SameAccess-refl : (db : Db) → SameAccess db db
SameAccess-refl db = record { users = refl; credentials = refl }

pub SameAccess-trans : {a b c : Db} → SameAccess a b → SameAccess b c → SameAccess a c
SameAccess-trans f g = record {
  users = g.users ∙ f.users;
  credentials = g.credentials ∙ f.credentials;
}

pub request_kick-SameAccess :
    (node user : ℕ) (reason : KickReason) (now : ℕ) (db db' : Db)
    → request_kick node user reason now db ≡ ok db'
    → SameAccess db db'
unfolding request_kick upsert_kick
request_kick-SameAccess node user reason now db db' h = ground (arith, SameAccess-refl db)

insert_snapshot-SameAccess :
    (node version now : ℕ) (db db' : Db)
    → insert_snapshot node version now db ≡ ok db'
    → SameAccess db db'
unfolding insert_snapshot
insert_snapshot-SameAccess node version now db db' h = ground (arith, SameAccess-refl db)

answered_access :
    {a b : ℕ} {x y : Db} (db : Db)
    → ◌≡◌ {A = Result (ℕ × Db)} (ok (a, x)) (ok (b, y))
    → SameAccess db x
    → SameAccess db y
answered_access {x} {y} db h same = let is : x ≡ y = ground arith in subst (SameAccess db) is same

pub bump-SameAccess :
    (node now version : ℕ) (db db' : Db)
    → bump_node_snapshot node now db ≡ ok (version, db')
    → SameAccess db db'
unfolding bump_node_snapshot
bump-SameAccess node now version db db' h =
    elim (Option-cases (find (is_live_node node) db.nodes)) [
      | inl e ↦ absurd (ground arith)
      | inr (n, e) ↦
          let (db1, inserted, same) =
            >>=-eq-ok (insert_snapshot node (n.desired_version + 1) now _) _
              (rw (e, bump_node_snapshot) at h) in
          let kept = insert_snapshot-SameAccess node (n.desired_version + 1) now _ db1 inserted in
          answered_access db same (record { users = kept.users; credentials = kept.credentials })
    ]

pub mark_assignment_pending-SameAccess :
    (user node version now : ℕ) (db : Db)
    → SameAccess db (mark_assignment_pending user node version now db)
unfolding mark_assignment_pending
mark_assignment_pending-SameAccess user node version now db = record {
  users = refl;
  credentials = refl;
}

-- The user is archived, and none of the user's credentials can be used.
pub record LockedOut (user : ℕ) (db : Db) : Type 0 where
  pub archived : All (λ (u : User). u.id ≡ user → is_none u.archived_at ≡ false) db.users
  pub revoked : All (λ c. c.user_id ≡ user → is_usable c.state ≡ false) db.credentials

pub LockedOut-SameAccess :
    (user : ℕ) (db db' : Db) → SameAccess db db' → LockedOut user db → LockedOut user db'
LockedOut-SameAccess user db db' same h = record {
  archived =
      subst (All (λ (u : User). u.id ≡ user → is_none u.archived_at ≡ false)) (sym same.users)
        h.archived;
  revoked =
      subst (All (λ c. c.user_id ≡ user → is_usable c.state ≡ false)) (sym same.credentials)
        h.revoked;
}

archive_row-LockedOut : (user now : ℕ) (db : Db) → LockedOut user (archive_row user now db)
unfolding archive_row
archive_row-LockedOut user now db = record {
  archived =
      All-update_where (λ (u : User). u.id ≡ user → is_none u.archived_at ≡ false)
        (is_live_user user) _ (λ u hit on. refl) (λ u miss on. ground arith) db.users;
  revoked =
      All-update_where (λ c. c.user_id ≡ user → is_usable c.state ≡ false)
        (λ c. (c.user_id == user) && is_usable c.state) (revoke now) (λ c hit on. refl)
        (λ c miss on. ground arith) db.credentials;
}

pub archive_nodes-SameAccess :
    (user : ℕ) (nodes : List ℕ) (now : ℕ) (db db' : Db)
    → archive_nodes user nodes now db ≡ ok db'
    → SameAccess db db'
unfolding archive_nodes
archive_nodes-SameAccess user [] now db db' h =
    let is : db ≡ db' = ground arith in subst (SameAccess db) is (SameAccess-refl db)
archive_nodes-SameAccess user (node ∷ nodes) now db db' h =
    let (kicked, k, more) =
      >>=-eq-ok (request_kick node user KickReason.user_archived now db) _ h in
    let ((version, bumped), b, rest) = >>=-eq-ok (bump_node_snapshot node now kicked) _ more in
    SameAccess-trans (request_kick-SameAccess node user KickReason.user_archived now db kicked k) (
      SameAccess-trans (bump-SameAccess node now version kicked bumped b) (
        SameAccess-trans (mark_assignment_pending-SameAccess user node version now bumped)
          (archive_nodes-SameAccess user nodes now _ db' rest)))

pub past_user :
    (b : Bool) (m : Result Db) {db : Db} → (if b then m else err not_found) ≡ ok db → m ≡ ok db
past_user b m h = ground arith

-- Archiving a user locks the user out.
pub archive_user-LockedOut :
    (user now : ℕ) (db db' : Db) → archive_user user now db ≡ ok db' → LockedOut user db'
unfolding archive_user
archive_user-LockedOut user now db db' h =
    let loop = past_user (exists (is_live_user user) db.users) _ h in
    LockedOut-SameAccess user (archive_row user now db) db'
      (archive_nodes-SameAccess user (assignment_node_ids user db) now _ db' loop)
      (archive_row-LockedOut user now db)
