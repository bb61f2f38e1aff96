-- ===== src/Store/Operation/Created.antt =====
-- The operation that `CreateTargetedNodeOperation` of internal/store/operation.go adds.
use poly_fleet.Base.{
  ℕ, ◌+◌, ◌≤◌, ◌<◌, ◌≡◌, refl, subst, Bool, ◌&&◌, Option, List, [], ◌∷◌, inl, inr, none, some, ◌==◌,
  leb, Result, ok, >>=-eq-ok, find, count, Option-cases, eq_refl, arith,
}
use poly_fleet.Schema.{Db, Operation, OperationType, queued, Text, ℤ, pos, negsuc}
use poly_fleet.Store.Operation.Queue.{
  is_operation, insert_node_operation, queue_operation, max_sequence,
  ensure_operation_queue_capacity, create_targeted_node_operation, get_node_operation,
  valid_operation_type, normalize_operation_lines, normalize_operation_target,
}

-- The operations of the node whose sequence is not below a number.
abbrev pub reaches : ℕ → ℕ → Operation → Bool
reaches node sequence o = (o.node_id == node) && leb sequence o.sequence

max_sequence_bound :
    (node m : ℕ) (os : List Operation) → max_sequence node os < m → count (reaches node m) os ≡ 0
unfolding max_sequence count
max_sequence_bound node m [] h = refl
max_sequence_bound node m (o ∷ os) h = ground (arith, max_sequence_bound node m os)

normalize_lines_bound :
    (type : OperationType) (lines : ℤ) (n : ℕ)
    → normalize_operation_lines type lines ≡ ok n
    → n ≤ 200
unfolding normalize_operation_lines
normalize_lines_bound type (negsuc k) n h = absurd (ground arith)
normalize_lines_bound type (pos k) n h = ground arith

module _ (new_uuid : ℕ → ℕ) where
  -- The row that is inserted is the one that is read back.
  record Added (node lines : ℕ) (db : Db) (o : Operation) (db' : Db) : Type 0 where
    row : db'.operations ≡ o ∷ db.operations
    sequence : o.sequence ≡ max_sequence node db.operations + 1
    node_id : o.node_id ≡ node
    max_lines : o.max_lines ≡ lines
    status : o.status ≡ queued

  insert-Added :
      (node : ℕ) (type : OperationType) (lines : ℕ) (target : Text) (retry_of : Option ℕ)
      (attempt by now : ℕ) (db db' : Db) (o : Operation)
      → insert_node_operation new_uuid node type lines target retry_of attempt by now db
        ≡ ok (o, db')
      → Added node lines db o db'
  unfolding insert_node_operation
  insert-Added node type lines target retry_of attempt by now db db' o done = ground arith

  queue-Added :
      (node : ℕ) (type : OperationType) (lines : ℕ) (target : Text) (by now : ℕ) (db db' : Db)
      (o : Operation)
      → queue_operation new_uuid node type lines target by now db ≡ ok (o, db')
      → Added node lines db o db'
  unfolding queue_operation ensure_operation_queue_capacity
  queue-Added node type lines target by now db db' o done =
      ground (arith, insert-Added node type lines target none 1 by now db db' o)

  read_back :
      (node : ℕ) (o x : Operation) (os : List Operation) (db : Db)
      → db.operations ≡ o ∷ os
      → o.node_id ≡ node
      → get_node_operation node o.id db ≡ ok x
      → x ≡ o
  unfolding get_node_operation find
  read_back node o x os db row here done =
      elim (Option-cases (find (is_operation node o.id) db.operations)) [
        | inl e ↦ absurd (ground arith)
        | inr (y, e) ↦
            let first : find (is_operation node o.id) (o ∷ os) ≡ some y =
              subst (λ rows. find (is_operation node o.id) rows ≡ some y) row e in
            ground (arith, eq_refl o.id, eq_refl node)
      ]

  finish :
      (node n : ℕ) (db db1 db' : Db) (made again o : Operation)
      → Added node n db made db1
      → again ≡ made
      → n ≤ 200
      → ◌≡◌ {A = Result (Operation × Db)} (ok (again, db1)) (ok (o, db'))
      → (db'.operations ≡ o ∷ db.operations)
        × (o.node_id ≡ node)
        × (o.status ≡ queued)
        × (o.max_lines ≤ 200)
        × (count (reaches node o.sequence) db.operations ≡ 0)
  finish node n db db1 db' made again o added same bound done =
      let is : made ≡ o = ground arith in
      let to : db1 ≡ db' = ground arith in
      let rows : db'.operations ≡ made ∷ db.operations =
        subst (λ d. d.operations ≡ made ∷ db.operations) to added.row in
      subst
        (λ y.
          (db'.operations ≡ y ∷ db.operations)
          × (y.node_id ≡ node)
          × (y.status ≡ queued)
          × (y.max_lines ≤ 200)
          × (count (reaches node y.sequence) db.operations ≡ 0))
        is
        (
          rows,
          added.node_id,
          added.status,
          ground (arith, added.max_lines),
          max_sequence_bound node made.sequence db.operations (ground (arith, added.sequence)),
        )

  -- An operation that is created stands first in the table, before those that were there, is queued,
  -- asks for at most 200 lines, and has a greater sequence than all other operations of its node.
  pub create_appends :
      (parse_ip : Text → Option Text) (node : ℕ) (type : Text) (lines : ℤ) (target : Text)
      (by now : ℕ) (db db' : Db) (o : Operation)
      → create_targeted_node_operation new_uuid parse_ip node type lines target by now db
        ≡ ok (o, db')
      → (db'.operations ≡ o ∷ db.operations)
        × (o.node_id ≡ node)
        × (o.status ≡ queued)
        × (o.max_lines ≤ 200)
        × (count (reaches node o.sequence) db.operations ≡ 0)
  unfolding create_targeted_node_operation
  create_appends parse_ip node type lines target by now db db' o done =
      elim (Option-cases (valid_operation_type type)) [
        | inl e ↦ absurd (ground arith)
        | inr (t, e) ↦
            let (n, e1, done1) =
              >>=-eq-ok (normalize_operation_lines t lines) _
                (rw (e, create_targeted_node_operation) at done) in
            let (x, e2, done2) = >>=-eq-ok (normalize_operation_target parse_ip t target) _ done1 in
            let ((made, db1), e3, done3) =
              >>=-eq-ok (queue_operation new_uuid node t n x by now db) _ done2 in
            let (again, e4, done4) = >>=-eq-ok (get_node_operation node made.id db1) _ done3 in
            let added = queue-Added node t n x by now db db1 made e3 in
            let same = read_back node made again db.operations db1 added.row added.node_id e4 in
            finish node n db db1 db' made again o added same (normalize_lines_bound t lines n e1)
              done4
      ]
