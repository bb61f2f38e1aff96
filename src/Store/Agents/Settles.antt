-- ===== src/Store/Agents/Settles.antt =====
-- What an acknowledgement by `AcknowledgeDesiredWithMaterial` of internal/store/agent.go settles.
use poly_fleet.Base.{
  ℕ, ◌≤◌, ◌≡◌, ◌≢◌, refl, sym, ap, ◌∙◌, Bool, true, ◌&&◌, some, List, [], ◌∷◌, ◌==◌, find, exists,
  update, All, All-update, All-update_where, find-update, find_holds, patch_holds, &&-eq-true,
  arith,
}
use mathlib.Core.Option
use poly_fleet.Schema.{
  Db, Node, Assignment, AssignmentState, CredentialState, UserCredential, AgentIdentity, is_node,
  is_live_node, is_none,
}
use poly_fleet.Store.Agents.Invalidate.{is_desired}
use poly_fleet.Store.Agents.Desired.{
  applied_node, retire_credentials, apply_credentials, is_reached, apply_assignments,
  settle_applied,
}

module _ {ℓ} {A : Type ℓ} where
  All-both {κ μ} :
      (P : A → Type κ) (Q : A → Type μ) (xs : List A)
      → All P xs
      → All Q xs
      → All (λ x. P x × Q x) xs
  All-both P Q [] h g = tt
  All-both P Q (x ∷ xs) h g = ((h.0, g.0), All-both P Q xs h.1 g.1)

  exists-update :
      (q p : A → Bool) (f : A → A)
      → ((x : A) → q (f x) ≡ q x)
      → (xs : List A) → exists q (update p f xs) ≡ exists q xs
  unfolding exists update
  exists-update q p f keep [] = refl
  exists-update q p f keep (x ∷ xs) = ground (arith, keep x, exists-update q p f keep xs)

-- An assignment that is in force: applied, with the credential that is desired.
pub record InForce (version : ℕ) (a : Assignment) : Type 0 where
  pub state : a.state ≡ AssignmentState.applied
  pub credential : a.applied_credential_id ≡ some a.desired_credential_id
  pub applied_version : a.applied_version ≡ version

-- A credential of the node is applied only if an assignment of the node desires it, and if one does it
-- is not left staged.
abbrev pub Current : ℕ → List Assignment → UserCredential → Type 0
Current node assignments c =
    c.node_id ≡ node
    → (c.state ≡ CredentialState.applied → is_desired node assignments c ≡ true)
      × (is_desired node assignments c ≡ true → c.state ≢ CredentialState.staged)

-- The node has applied the version that is desired, and so have its assignments and credentials.
pub record Settled (node version : ℕ) (db : Db) : Type 0 where
  pub row : Node
  pub live : find (is_live_node node) db.nodes ≡ some row
  pub desired : row.desired_version ≡ version
  pub applied : row.applied_version ≡ version
  pub assignments :
      All (λ a. a.node_id ≡ node → a.desired_version ≤ version → InForce version a) db.assignments
  pub credentials : All (Current node db.assignments) db.credentials

apply_assignments-InForce :
    (node version now : ℕ) (rows : List Assignment)
    → All
        (λ a. a.node_id ≡ node → a.desired_version ≤ version → InForce version a)
        (apply_assignments node version now rows)
unfolding apply_assignments
apply_assignments-InForce node version now rows =
    All-update_where (λ a. a.node_id ≡ node → a.desired_version ≤ version → InForce version a)
      (is_reached node version) _
      (λ a hit on reached. record { state = refl; credential = refl; applied_version = refl })
      (λ a miss on reached. absurd (ground arith)) rows

-- The two updates of credentials, for any selection of desired ones.
module _ (node now : ℕ) (assignments : List Assignment) where
  abbrev Wanted : UserCredential → Type 0
  Wanted c =
      c.node_id ≡ node → c.state ≡ CredentialState.applied → is_desired node assignments c ≡ true

  abbrev Taken : UserCredential → Type 0
  Taken c =
      c.node_id ≡ node → is_desired node assignments c ≡ true → c.state ≢ CredentialState.staged

  retire_credentials-Wanted :
      (cs : List UserCredential) → All Wanted (retire_credentials node now assignments cs)
  unfolding retire_credentials
  retire_credentials-Wanted cs =
      All-update_where Wanted _ _ (λ c hit on applied. absurd (ground arith))
        (λ c miss on applied. ground arith) cs

  apply_credentials-Wanted :
      (cs : List UserCredential)
      → All Wanted cs
      → All Wanted (apply_credentials node now assignments cs)
  unfolding apply_credentials is_desired
  apply_credentials-Wanted cs h =
      All-update Wanted _ _ (λ c hit before on applied. ground arith) cs h

  apply_credentials-Taken :
      (cs : List UserCredential) → All Taken (apply_credentials node now assignments cs)
  unfolding apply_credentials
  apply_credentials-Taken cs =
      All-update_where Taken _ _ (λ c hit on desired is. absurd (ground arith))
        (λ c miss on desired is. ground arith) cs

-- The credentials that are desired before the assignments are written are those that are desired after.
is_desired-apply_assignments :
    (node version now : ℕ) (rows : List Assignment) (c : UserCredential)
    → is_desired node (apply_assignments node version now rows) c ≡ is_desired node rows c
unfolding is_desired apply_assignments
is_desired-apply_assignments node version now rows c =
    exists-update (λ a. (a.node_id == node) && (a.desired_credential_id == c.id)) _ _ (λ a. refl)
      rows

All-Current :
    (node version now : ℕ) (rows : List Assignment) (cs : List UserCredential)
    → All (λ c. Wanted node now rows c × Taken node now rows c) cs
    → All (Current node (apply_assignments node version now rows)) cs
All-Current node version now rows [] h = tt
All-Current node version now rows (c ∷ cs) h =
    let same = is_desired-apply_assignments node version now rows c in
    (
      λ on. (λ is. same ∙ h.0.0 on is, λ desired. h.0.1 on (sym same ∙ desired)),
      All-Current node version now rows cs h.1,
    )

pub settle_applied-Settled :
    (identity : AgentIdentity) (version now : ℕ) (db : Db) (n : Node)
    → find (is_live_node identity.node_id) db.nodes ≡ some n
    → n.desired_version ≡ version
    → Settled identity.node_id version (settle_applied identity version now db)
unfolding settle_applied
settle_applied-Settled identity version now db n live desired =
    let node = identity.node_id in
    let retired = retire_credentials node now db.assignments db.credentials in
    let here = find_holds (is_live_node node) db.nodes live in
    record {
      row = applied_node identity.enabled version now n;
      live =
          find-update (is_live_node node) (is_node node) (applied_node identity.enabled version now)
            (λ m. refl) db.nodes
          ∙ ap (Option.map _) live
          ∙ ap some (
              patch_holds (is_node node) (applied_node identity.enabled version now) n
                (&&-eq-true (n.id == node) (is_none n.archived_at) here).0);
      desired = desired;
      applied = refl;
      assignments = apply_assignments-InForce node version now db.assignments;
      credentials = All-Current node version now db.assignments _ (
          All-both (Wanted node now db.assignments) (Taken node now db.assignments)
            (apply_credentials node now db.assignments retired)
            (apply_credentials-Wanted node now db.assignments retired
              (retire_credentials-Wanted node now db.assignments db.credentials))
            (apply_credentials-Taken node now db.assignments retired));
    }
