-- ===== src/Store/Operation/Delivered.antt =====
-- What `ListPendingNodeOperations` of internal/store/operation.go sends to an Agent.
use poly_fleet.Base.{
  ℕ, suc, zero, ◌≤◌, ◌<◌, ◌≡◌, ◌⊎◌, true, ◌||◌, List, [], ◌∷◌, inl, inr, leb, ltb, if◌then◌else◌,
  ok, find, select, All, take, length, Option-cases, Bool-cases, arith,
}
use poly_fleet.Schema.{Db, Operation, AgentIdentity, is_live_node}
use poly_fleet.Store.Operation.Pending.{
  list_pending_node_operations, expire_overdue, pending_operations, deliverable, insert_by_sequence,
  by_sequence, is_queued, is_running,
}

-- The sequences do not fall.
abbrev pub Ascending : List Operation → Type 0
Ascending [] = Unit
Ascending (o ∷ os) = All (λ x. o.sequence ≤ x.sequence) os × Ascending os

-- What an Agent may be sent: work of its node after the sequence that it has seen, which runs already
-- or is queued and expires later.
pub record Due (node after now : ℕ) (o : Operation) : Type 0 where
  pub node_id : o.node_id ≡ node
  pub sequence : after < o.sequence
  pub status : (is_running o.status ≡ true) ⊎ ((is_queued o.status ≡ true) × (now < o.expires_at))

deliverable-Due :
    (node after now : ℕ) (o : Operation)
    → deliverable node after now o ≡ true
    → Due node after now o
deliverable-Due node after now o h = record {
  node_id = ground arith;
  sequence = ground arith;
  status = elim (Bool-cases (is_running o.status)) [
    | inl on ↦ inl on
    | inr off ↦ inr (ground arith, ground arith)
  ];
}

select-Due :
    (node after now : ℕ) (os : List Operation)
    → All (Due node after now) (select (deliverable node after now) os)
unfolding select
select-Due node after now [] = tt
select-Due node after now (o ∷ os) = elim (Bool-cases (deliverable node after now o)) [
  | inl hit ↦ rw hit (deliverable-Due node after now o hit, select-Due node after now os)
  | inr miss ↦ rw miss (select-Due node after now os)
]

insert-All :
    (P : Operation → Type 0) (o : Operation) (os : List Operation)
    → P o
    → All P os
    → All P (insert_by_sequence o os)
unfolding insert_by_sequence
insert-All P o [] h t = (h, tt)
insert-All P o (x ∷ xs) h t = elim (Bool-cases (leb o.sequence x.sequence)) [
  | inl le ↦ rw le (h, t)
  | inr gt ↦ rw gt (t.0, insert-All P o xs h t.1)
]

by_sequence-All : (P : Operation → Type 0) (os : List Operation) → All P os → All P (by_sequence os)
unfolding by_sequence
by_sequence-All P [] t = tt
by_sequence-All P (o ∷ os) t = insert-All P o (by_sequence os) t.0 (by_sequence-All P os t.1)

All-weaken :
    (P Q : Operation → Type 0)
    → ((x : Operation) → P x → Q x)
    → (os : List Operation) → All P os
    → All Q os
All-weaken P Q f [] t = tt
All-weaken P Q f (o ∷ os) t = (f o t.0, All-weaken P Q f os t.1)

insert-Ascending :
    (o : Operation) (os : List Operation) → Ascending os → Ascending (insert_by_sequence o os)
unfolding insert_by_sequence
insert-Ascending o [] t = (tt, tt)
insert-Ascending o (x ∷ xs) t = elim (Bool-cases (leb o.sequence x.sequence)) [
  | inl le ↦ rw le (
    (
      ground arith,
      All-weaken (λ y. x.sequence ≤ y.sequence) (λ y. o.sequence ≤ y.sequence) (λ y h. ground arith)
          xs t.0,
    ),
    t,
  )
  | inr gt ↦
      rw gt (
        insert-All (λ y. x.sequence ≤ y.sequence) o xs (ground arith) t.0,
        insert-Ascending o xs t.1,
      )
]

by_sequence-Ascending : (os : List Operation) → Ascending (by_sequence os)
unfolding by_sequence
by_sequence-Ascending [] = tt
by_sequence-Ascending (o ∷ os) = insert-Ascending o (by_sequence os) (by_sequence-Ascending os)

take-All : (P : Operation → Type 0) (n : ℕ) (os : List Operation) → All P os → All P (take n os)
take-All P zero os t = tt
take-All P (suc n) [] t = tt
take-All P (suc n) (o ∷ os) t = (t.0, take-All P n os t.1)

take-Ascending : (n : ℕ) (os : List Operation) → Ascending os → Ascending (take n os)
take-Ascending zero os t = tt
take-Ascending (suc n) [] t = tt
take-Ascending (suc n) (o ∷ os) t = (take-All _ n os t.0, take-Ascending n os t.1)

length-take : (n : ℕ) (os : List Operation) → length (take n os) ≤ n
length-take zero os = ground arith
length-take (suc n) [] = ground arith
length-take (suc n) (o ∷ os) = ground (arith, length-take n os)

-- An Agent is sent at most 20 operations, in the order of their sequences, and every one is work of
-- its node after the sequence that it has seen, which runs already or is queued and expires later.
pub list_pending-Due :
    (identity : AgentIdentity) (after now limit : ℕ) (db db' : Db) (sent : List Operation)
    → list_pending_node_operations identity after now limit db ≡ ok (sent, db')
    → (length sent ≤ 20) × Ascending sent × All (Due identity.node_id after now) sent
unfolding list_pending_node_operations pending_operations
list_pending-Due identity after now limit db db' sent done =
    elim (Option-cases (find (is_live_node identity.node_id) db.nodes)) [
      | inl e ↦ absurd (ground arith)
      | inr (n, e) ↦
          let expired = expire_overdue identity.node_id after now db.operations in
          let rows = select (deliverable identity.node_id after now) expired in
          let bound = if ltb limit 1 || ltb 20 limit then 20 else limit in
          let same : sent ≡ take bound (by_sequence rows) = ground arith in
          rw same (
            ground (arith, length-take bound (by_sequence rows)),
            take-Ascending bound (by_sequence rows) (by_sequence-Ascending rows),
            take-All _ bound (by_sequence rows)
                (by_sequence-All _ rows (select-Due identity.node_id after now expired)),
          )
    ]
