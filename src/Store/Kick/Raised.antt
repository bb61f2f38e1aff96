-- ===== src/Store/Kick/Raised.antt =====
-- How `RequestUserKick` of internal/store/traffic.go raises the generations of kicks.
use poly_fleet.Base.{
  ℕ, ◌+◌, ◌≡◌, refl, sym, ap, subst, ◌∙◌, Bool, true, false, List, [], ◌∷◌, inl, inr, ◌==◌,
  if◌then◌else◌, ok, >>=-eq-ok, find, exists, select, update, count, All, length, Option-cases,
  Bool-cases, eq_refl, arith, &&-eq-true,
}
use poly_fleet.Schema.{Db, KickTarget, KickReason, manual, is_live_node}
use poly_fleet.Store.Snapshot.{
  Changed, add_changed_assignment, assignment_node_ids, insert_snapshot, bump_node_snapshot,
  mark_assignment_pending, mark_users, users_of, bump_nodes, bump_changed_assignments,
}
use poly_fleet.Store.Kick.{
  is_kick, upsert_kick, request_kick, kick_nodes, kickable, kickable_in, kick_all, kick_targets,
  request_user_kick,
}

-- The generation of a node's kick for a user, or 0.
unfoldable pub generation : ℕ → ℕ → List KickTarget → ℕ
generation node user [] = 0
generation node user (k ∷ ks) =
    if is_kick node user k then k.generation else generation node user ks

abbrev pub is_same : ℕ → ℕ → Bool
is_same k x = x == k

abbrev raise : KickReason → ℕ → KickTarget → KickTarget
raise reason now k = record k { generation = k.generation + 1; reason = reason; requested_at = now }

other_generation :
    (node user k : ℕ) (reason : KickReason) (now : ℕ) (ks : List KickTarget)
    → (node == k) ≡ false
    → generation k user (update (is_kick node user) (raise reason now) ks) ≡ generation k user ks
unfolding update generation
other_generation node user k reason now [] h = refl
other_generation node user k reason now (x ∷ ks) h =
    ground (arith, other_generation node user k reason now ks h)

update_generation :
    (node user k : ℕ) (reason : KickReason) (now : ℕ) (ks : List KickTarget)
    → exists (is_kick node user) ks ≡ true
    → generation k user (update (is_kick node user) (raise reason now) ks)
      ≡ generation k user ks + (if node == k then 1 else 0)
unfolding exists update generation
update_generation node user k reason now [] h = absurd (ground arith)
update_generation node user k reason now (x ∷ ks) h = elim (Bool-cases (node == k)) [
  | inr other ↦ ground (arith, other_generation node user k reason now (x ∷ ks) other)
  | inl same ↦ elim (Bool-cases (is_kick node user x)) [
    | inl hit ↦ ground arith
    | inr miss ↦ ground (arith, update_generation node user k reason now ks)
  ]
]

absent_generation :
    (node user : ℕ) (ks : List KickTarget)
    → exists (is_kick node user) ks ≡ false
    → generation node user ks ≡ 0
unfolding exists generation
absent_generation node user [] h = refl
absent_generation node user (x ∷ ks) h = ground (arith, absent_generation node user ks)

insert_snapshot-kicks :
    (node version now : ℕ) (db db' : Db)
    → insert_snapshot node version now db ≡ ok db'
    → db'.kicks ≡ db.kicks
unfolding insert_snapshot
insert_snapshot-kicks node version now db db' h = ground arith

bump_node_snapshot-kicks :
    (node now : ℕ) (db db' : Db) (version : ℕ)
    → bump_node_snapshot node now db ≡ ok (version, db')
    → db'.kicks ≡ db.kicks
unfolding bump_node_snapshot
bump_node_snapshot-kicks node now db db' version h =
    elim (Option-cases (find (is_live_node node) db.nodes)) [
      | inl e ↦ absurd (ground arith)
      | inr (n, e) ↦
          let (db1, inserted, same) =
            >>=-eq-ok (insert_snapshot node (n.desired_version + 1) now _) _
              (rw (e, bump_node_snapshot) at h) in
          ground (arith, insert_snapshot-kicks node (n.desired_version + 1) now _ db1 inserted)
    ]

mark_users-kicks :
    (users : List ℕ) (node version now : ℕ) (db : Db)
    → (mark_users users node version now db).kicks ≡ db.kicks
unfolding mark_users mark_assignment_pending
mark_users-kicks [] node version now db = refl
mark_users-kicks (user ∷ users) node version now db = mark_users-kicks users node version now _

bump_nodes-kicks :
    (nodes : List ℕ) (changed : Changed) (now : ℕ) (db db' : Db)
    → bump_nodes nodes changed now db ≡ ok db'
    → db'.kicks ≡ db.kicks
unfolding bump_nodes
bump_nodes-kicks [] changed now db db' h = ground arith
bump_nodes-kicks (node ∷ nodes) changed now db db' h =
    let ((version, bumped), e, rest) = >>=-eq-ok (bump_node_snapshot node now db) _ h in
    bump_nodes-kicks nodes changed now _ db' rest
    ∙ (mark_users-kicks (users_of node changed) node version now bumped
        ∙ bump_node_snapshot-kicks node now db bumped version e)

upsert_kick_generation :
    (node user k : ℕ) (reason : KickReason) (now : ℕ) (db : Db)
    → generation k user (upsert_kick node user reason now db).kicks
      ≡ generation k user db.kicks + (if node == k then 1 else 0)
unfolding upsert_kick generation
upsert_kick_generation node user k reason now db =
    elim (Bool-cases (exists (is_kick node user) db.kicks)) [
      | inl there ↦ rw there (update_generation node user k reason now db.kicks there)
      | inr gone ↦ rw gone (ground (arith, eq_refl user, absent_generation node user db.kicks gone))
    ]

-- Requests to nodes that take kicks.
request_kick_nodes :
    (node user : ℕ) (reason : KickReason) (now : ℕ) (db db' : Db)
    → request_kick node user reason now db ≡ ok db'
    → db'.nodes ≡ db.nodes
unfolding request_kick upsert_kick
request_kick_nodes node user reason now db db' h = ground arith

request_kick_generation :
    (node user k : ℕ) (reason : KickReason) (now : ℕ) (db db' : Db)
    → kickable db node ≡ true
    → request_kick node user reason now db ≡ ok db'
    → generation k user db'.kicks ≡ generation k user db.kicks + (if node == k then 1 else 0)
unfolding request_kick
request_kick_generation node user k reason now db db' able h =
    ground (arith, upsert_kick_generation node user k reason now db)

kick_nodes_generation :
    (nodes : List ℕ) (user k : ℕ) (reason : KickReason) (now : ℕ) (changed changed' : Changed)
    (db db' : Db)
    → All (λ node. kickable db node ≡ true) nodes
    → kick_nodes nodes user reason now changed db ≡ ok (changed', db')
    → generation k user db'.kicks ≡ generation k user db.kicks + count (is_same k) nodes
unfolding kick_nodes count
kick_nodes_generation [] user k reason now changed changed' db db' able h = ground arith
kick_nodes_generation (node ∷ nodes) user k reason now changed changed' db db' able h =
    let (db1, e, rest) = >>=-eq-ok (request_kick node user reason now db) _ h in
    let first = request_kick_generation node user k reason now db db1 able.0 e in
    let still = request_kick_nodes node user reason now db db1 e in
    let later =
      kick_nodes_generation nodes user k reason now (add_changed_assignment node user changed)
        changed' db1 db' (subst (λ ns. All (λ x. kickable_in ns x ≡ true) nodes) (sym still) able.1)
        rest in
    omega (arith, first, later)

select-All :
    (p q : ℕ → Bool) (xs : List ℕ)
    → ((x : ℕ) → p x ≡ true → q x ≡ true)
    → All (λ x. q x ≡ true) (select p xs)
unfolding select
select-All p q [] f = tt
select-All p q (x ∷ xs) f = elim (Bool-cases (p x)) [
  | inl hit ↦ rw hit (f x hit, select-All p q xs f)
  | inr miss ↦ rw miss (select-All p q xs f)
]

targets_kickable :
    (user node : ℕ) (db : Db) → All (λ k. kickable db k ≡ true) (kick_targets user node db)
unfolding kick_targets
targets_kickable user node db =
    select-All _ (kickable db) (assignment_node_ids user db)
      (λ k h. (&&-eq-true (kickable db k) _ h).0)

kick_all_generation :
    (targets : List ℕ) (user now k n : ℕ) (db db' : Db)
    → All (λ node. kickable db node ≡ true) targets
    → kick_all targets user now db ≡ ok (n, db')
    → (generation k user db'.kicks ≡ generation k user db.kicks + count (is_same k) targets)
      × (n ≡ length targets)
unfolding kick_all bump_changed_assignments
kick_all_generation targets user now k n db db' able h =
    let ((changed, db1), e, rest) = >>=-eq-ok (kick_nodes targets user manual now [] db) _ h in
    let (db2, e2, done) = >>=-eq-ok (bump_changed_assignments changed now db1) _ rest in
    let raised = kick_nodes_generation targets user k manual now [] changed db db1 able e in
    let kept = bump_nodes-kicks _ changed now db1 db2 e2 in
    let same : db2 ≡ db' = ground arith in
    (
      subst
          (λ d. generation k user d.kicks ≡ generation k user db.kicks + count (is_same k) targets)
          same (ap (generation k user) kept ∙ raised),
      ground arith,
    )

-- A request to kick a user raises the generation of the user's kick by one on every node that it
-- finds (as often as the user is assigned to it) and on no other, and answers how many it finds.
pub request_user_kick_generation :
    (user node now k n : ℕ) (db db' : Db)
    → request_user_kick user node now db ≡ ok (n, db')
    → (generation k user db'.kicks
        ≡ generation k user db.kicks + count (is_same k) (kick_targets user node db))
      × (n ≡ length (kick_targets user node db))
unfolding request_user_kick
request_user_kick_generation user node now k n db db' h = ground (
  arith,
  kick_all_generation (kick_targets user node db) user now k n db db'
      (targets_kickable user node db),
)
