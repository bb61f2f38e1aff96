-- ===== src/Store/Users/Revealed.antt =====
-- What a new credential of internal/store/user.go leaves to be revealed.
use poly_fleet.Base.{
  ℕ, suc, ◌+◌, ◌≡◌, refl, ap, subst, ◌∙◌, inl, inr, Bool, true, Option, some, [], ◌==◌,
  if◌then◌else◌, Result, ok, >>=-eq-ok, find, exists, update, find-update, find_holds, patch,
  patch_holds, Option-cases, eq_refl, arith,
}
use mathlib.Core.Option
use poly_fleet.Schema.{
  Text, Db, Node, Assignment, AssignmentState, UserCredential, CredentialState, CredentialProtocol,
  is_live_node, is_assignment,
}
use poly_fleet.Store.Secret.{Crypto, IsLawful, seal, open_sealed, open_sealed-seal}
use poly_fleet.Store.Snapshot.{insert_snapshot, bump_node_snapshot, mark_assignment_pending}
use poly_fleet.Store.Agents.Bumped.{bump_node_snapshot-Bumped}
use poly_fleet.Store.Users.Credential.{
  CreatedCredential, credential_key_version, credential_aad, is_live_user, is_managed,
  create_user_credential,
}
use poly_fleet.Store.Users.Access.{bump-SameAccess}
use poly_fleet.Store.Users.Reveal.{
  reveal_found, reveal_by, reveal_joined, reveal_assignment_credential,
}

pub subst_pair :
    {A B : Type 0} (P : A → B → Type 0) {a b : A} {x y : B}
    → ◌≡◌ {A = Result (A × B)} (ok (a, x)) (ok (b, y))
    → P a x
    → P b y
subst_pair P {a} {b} {x} {y} h p =
    let first : a ≡ b = ground arith in
    let second : x ≡ y = ground arith in subst (λ k. P k y) first (subst (P a) second p)

head_found :
    {A : Type 0} (b : Bool) (x : A) (o : Option A) → b ≡ true → (if b then some x else o) ≡ some x
head_found b x o h = ground arith

insert_snapshot_assignments :
    (node version now : ℕ) (db db' : Db)
    → insert_snapshot node version now db ≡ ok db'
    → db'.assignments ≡ db.assignments
unfolding insert_snapshot
insert_snapshot_assignments node version now db db' h = ground arith

bump_assignments :
    (node now version : ℕ) (db db' : Db)
    → bump_node_snapshot node now db ≡ ok (version, db')
    → db'.assignments ≡ db.assignments
unfolding bump_node_snapshot
bump_assignments node now version db db' h =
    elim (Option-cases (find (is_live_node node) db.nodes)) [
      | inl e ↦ absurd (ground arith)
      | inr (n, e) ↦
          let (db1, inserted, same) =
            >>=-eq-ok (insert_snapshot node (n.desired_version + 1) now _) _
              (rw (e, bump_node_snapshot) at h) in
          subst_pair (λ (v : ℕ) (d : Db). d.assignments ≡ db.assignments) same
            (insert_snapshot_assignments node (n.desired_version + 1) now _ db1 inserted)
    ]

module _ (C : Crypto) (id_text : ℕ → Text) (new_uuid : ℕ → ℕ) (user node : ℕ)
    (protocol : CredentialProtocol) (key : Text) where
  -- The credential of the identifier, with its secret and fingerprint, is there to be opened.
  pub record Keeps (x : ℕ × Text × Text) (db : Db) : Type 0 where
    pub row : UserCredential
    pub there : find (λ c. c.id == x.0) db.credentials ≡ some row
    pub version : row.key_version ≡ credential_key_version
    pub state : row.state ≡ CredentialState.staged
    pub speaks : row.protocol ≡ protocol
    pub fingerprint : row.secret_fingerprint ≡ x.2
    pub opens :
        open_sealed C key row.secret_ciphertext
          (credential_aad C id_text new_uuid x.0 user node protocol)
        ≡ ok x.1

  pub record Made (db : Db) (x : ℕ × Text × Text) (created : Db) : Type 0 where
    pub keeps : Keeps x created
    pub users : created.users ≡ db.users
    pub nodes : created.nodes ≡ db.nodes
    pub assignments : created.assignments ≡ db.assignments

  pub create_user_credential-Made :
      IsLawful C
      → (now : ℕ) (db created : Db) (x : ℕ × Text × Text)
      → create_user_credential C id_text new_uuid user node protocol now key db ≡ ok (x, created)
      → Made db x created
  unfolding create_user_credential find
  create_user_credential-Made lawful now db created x h =
      let (ciphertext, sealed, done) = >>=-eq-ok (seal C (suc (suc db.drawn)) key _ _) _ h in
      subst_pair (Made db) done (record {
        keeps = record {
          row = _;
          there = head_found _ _ _ (eq_refl (new_uuid (suc db.drawn)));
          version = refl;
          state = refl;
          speaks = refl;
          fingerprint = refl;
          opens = open_sealed-seal C lawful (suc (suc db.drawn)) key _ _ sealed;
        };
        users = refl;
        nodes = refl;
        assignments = refl;
      })

  -- What is told of the new credential.
  abbrev pub told : ℕ × Text × Text → ℕ → CreatedCredential
  told x version = record {
    user_id = user;
    node_id = node;
    credential_id = x.0;
    fingerprint = x.2;
    protocol = protocol;
    desired_version = version;
    secret = x.1;
  }

  abbrev marked : ℕ → ℕ → Assignment → Assignment
  marked version now a = record a {
    desired_version = version;
    state = AssignmentState.pending;
    last_error_code = [];
    last_error_message = [];
    updated_at = now;
  }

  reveal_found-Keeps :
      (x : ℕ × Text × Text) (db : Db) (k : Keeps x db) (a : Assignment) (version : ℕ)
      → a.desired_credential_id ≡ x.0
      → is_managed a.management_mode ≡ true
      → a.desired_version ≡ version
      → reveal_found C id_text new_uuid user node key a k.row ≡ ok (told x version)
  unfolding reveal_found
  reveal_found-Keeps x db k a version desires managed at =
      rw (managed, k.version, k.state, desires, k.speaks, k.opens, k.fingerprint, at) refl

  -- After the new version has been marked, the desired credential is revealed.
  pub marked_reveal :
      (now version : ℕ) (x : ℕ × Text × Text) (db bumped : Db) (a : Assignment) (n : Node)
      → Keeps x db
      → find (is_assignment node user) db.assignments ≡ some a
      → a.desired_credential_id ≡ x.0
      → is_managed a.management_mode ≡ true
      → exists (is_live_user user) db.users ≡ true
      → find (is_live_node node) db.nodes ≡ some n
      → bump_node_snapshot node now db ≡ ok (version, bumped)
      → reveal_assignment_credential C id_text new_uuid user node key
          (mark_assignment_pending user node version now bumped)
        ≡ ok (told x version)
  unfolding reveal_assignment_credential mark_assignment_pending
  marked_reveal now version x db bumped a n k there desires managed user_live live b =
      let same = bump-SameAccess node now version db bumped b in
      let rows = bump_assignments node now version db bumped b in
      let fresh = bump_node_snapshot-Bumped node now version db bumped n live b in
      let f : Assignment → Assignment = marked version now in
      let on : find (is_assignment node user)
            (update (is_assignment node user) f bumped.assignments)
          ≡ some (f a) =
        find-update (is_assignment node user) (is_assignment node user) f (λ m. refl)
          bumped.assignments
        ∙ ap
            (λ xs.
              Option.map (patch (is_assignment node user) f) (find (is_assignment node user) xs))
            rows
        ∙ ap (Option.map (patch (is_assignment node user) f)) there
        ∙ ap some (
            patch_holds (is_assignment node user) f a
              (find_holds (is_assignment node user) db.assignments there)) in
      let users : exists (is_live_user user) bumped.users ≡ true =
        ap (exists (is_live_user user)) same.users ∙ user_live in
      let credential : find (λ c. c.id == a.desired_credential_id) bumped.credentials ≡ some k.row =
        ap (λ i. find (λ c. c.id == i) bumped.credentials) desires
        ∙ ap (find (λ c. c.id == x.0)) same.credentials
        ∙ k.there in
      let joined =
        reveal_joined C id_text new_uuid user node key
          (mark_assignment_pending user node version now bumped) in
      ap
        (λ o.
          joined o (exists (is_live_user user) bumped.users)
            (find (is_live_node node) bumped.nodes))
        on
      ∙ ap (λ e. joined (some (f a)) e (find (is_live_node node) bumped.nodes)) users
      ∙ ap (joined (some (f a)) true) fresh.live
      ∙ ap (reveal_by C id_text new_uuid user node key (f a)) credential
      ∙ reveal_found-Keeps x db k (f a) version desires managed refl

  pub Keeps-subst :
      (x : ℕ × Text × Text) (db db' : Db)
      → db'.credentials ≡ db.credentials
      → Keeps x db
      → Keeps x db'
  Keeps-subst x db db' same k = record {
    row = k.row;
    there = ap (find (λ c. c.id == x.0)) same ∙ k.there;
    version = k.version;
    state = k.state;
    speaks = k.speaks;
    fingerprint = k.fingerprint;
    opens = k.opens;
  }
