-- ===== src/Store/Users/Outlives.antt =====
-- What an archived user of internal/store/user.go is through the calls that follow.
use poly_fleet.Base.{ℕ, ◌≡◌, Bool, Option, ok}
use poly_fleet.Schema.{Text, Db, AgentIdentity}
use poly_fleet.Store.Secret.{Crypto}
use poly_fleet.Store.Agents.Tokens.{EnrollmentFacts, EnrollResponse, Codec}
use poly_fleet.Store.Agents.Enrol.{enroll_agent}
use poly_fleet.Store.Agents.Heartbeat.{HeartbeatRequest, record_heartbeat}
use poly_fleet.Store.Agents.Desired.{AppliedRealityMaterial, acknowledge_desired_with_material}
use poly_fleet.Store.Users.Credential.{CreatedCredential, rotate_assignment_credential}
use poly_fleet.Store.Users.Assign.{assign_user}
use poly_fleet.Store.Users.Remove.{unassign_user, archive_user}
use poly_fleet.Store.Users.Update.{UpdateUser, update_user, update_assignment}
use poly_fleet.Store.Users.Access.{LockedOut, LockedOut-SameAccess, archive_user-LockedOut}
use poly_fleet.Store.Users.Barred.{
  unassign_user-LockedOut, acknowledge-LockedOut, archive_user-Kept,
}
use poly_fleet.Store.Users.Granted.{assign_user-LockedOut, rotate_assignment_credential-LockedOut}
use poly_fleet.Store.Users.Updated.{update_user-LockedOut, update_assignment-SameAccess}
use poly_fleet.Store.Users.Calls.{enroll_agent-LockedOut, record_heartbeat-SameAccess}

module _ (C : Crypto) (J : Codec) (new_uuid : ℕ → ℕ) (hash_of : ℕ → ℕ → Text)
    (same_name : Text → Text → Bool) where
  -- The calls of the administrator, and those of the Agents.
  pub data Call : Db → Db → Type 0 where
    assigned :
        (user node limit now : ℕ) (key : Text) (made : CreatedCredential) {db db' : Db}
        → assign_user C J.id_text new_uuid user node limit now key db ≡ ok (made, db')
        → Call db db'
    rotated :
        (user node now : ℕ) (key : Text) (made : CreatedCredential) {db db' : Db}
        → rotate_assignment_credential C J.id_text new_uuid user node now key db ≡ ok (made, db')
        → Call db db'
    updated :
        (user : ℕ) (input : UpdateUser) {db db' : Db}
        → update_user same_name user input db ≡ ok db'
        → Call db db'
    adjusted :
        (user node : ℕ) (enabled : Bool) (limit now : ℕ) {db db' : Db}
        → update_assignment user node enabled limit now db ≡ ok db'
        → Call db db'
    unassigned :
        (user node now : ℕ) {db db' : Db} → unassign_user user node now db ≡ ok db' → Call db db'
    archived : (user now : ℕ) {db db' : Db} → archive_user user now db ≡ ok db' → Call db db'
    enrolled :
        (token : Text) (facts : EnrollmentFacts) (key : Text) (now : ℕ) (r : EnrollResponse)
        {db db' : Db}
        → enroll_agent C J token facts key now db ≡ ok (r, db')
        → Call db db'
    heard :
        (identity : AgentIdentity) (h : HeartbeatRequest) (now version : ℕ) {db db' : Db}
        → record_heartbeat identity h now db ≡ ok (version, db')
        → Call db db'
    acknowledged :
        (identity : AgentIdentity) (version : ℕ) (hash status code message : Text)
        (material : Option AppliedRealityMaterial) (now : ℕ) {db db' : Db}
        → acknowledge_desired_with_material hash_of identity version hash status code message
            material now db
          ≡ ok db'
        → Call db db'

  pub data Calls : Db → Db → Type 0 where
    done : {db : Db} → Calls db db
    then : (a b : Db) {c : Db} → Call a b → Calls b c → Calls a c

  Call-LockedOut : (user : ℕ) (a b : Db) → Call a b → LockedOut user a → LockedOut user b
  Call-LockedOut user a b (assigned other node limit now key made h) locked =
      assign_user-LockedOut C J.id_text new_uuid user other node limit now key a b made h locked
  Call-LockedOut user a b (rotated other node now key made h) locked =
      rotate_assignment_credential-LockedOut C J.id_text new_uuid user other node now key a b made h
        locked
  Call-LockedOut user a b (updated other input h) locked =
      update_user-LockedOut user same_name other input a b h locked
  Call-LockedOut user a b (adjusted other node enabled limit now h) locked =
      LockedOut-SameAccess user a b
        (update_assignment-SameAccess other node limit now enabled a b h) locked
  Call-LockedOut user a b (unassigned other node now h) locked =
      unassign_user-LockedOut user other node now a b h locked
  Call-LockedOut user a b (archived other now h) locked =
      archive_user-Kept user other now a b h locked
  Call-LockedOut user a b (enrolled token facts key now r h) locked =
      enroll_agent-LockedOut C J user token facts key now a r b h locked
  Call-LockedOut user a b (heard identity h now version e) locked =
      LockedOut-SameAccess user a b (record_heartbeat-SameAccess identity h now version a b e)
        locked
  Call-LockedOut user a b (acknowledged identity version hash status code message material now h)
        locked =
      acknowledge-LockedOut user hash_of identity version hash status code message material now a b
        h locked

  Calls-LockedOut : (user : ℕ) (a c : Db) → Calls a c → LockedOut user a → LockedOut user c
  Calls-LockedOut user a c done locked = locked
  Calls-LockedOut user a c (then a' b call rest) locked =
      Calls-LockedOut user b c rest (Call-LockedOut user a' b call locked)

  -- From the archiving of a user on, whatever calls follow that assign, rotate, update, unassign or
  -- archive, or that Agents make when they enrol, send heartbeats and acknowledge versions, the user
  -- stays archived, and no credential of the user is staged or applied.
  pub archive_user-Calls :
      (user now : ℕ) (db a c : Db) → archive_user user now db ≡ ok a → Calls a c → LockedOut user c
  archive_user-Calls user now db a c h calls =
      Calls-LockedOut user a c calls (archive_user-LockedOut user now db a h)
