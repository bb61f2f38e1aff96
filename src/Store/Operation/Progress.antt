-- ===== src/Store/Operation/Progress.antt =====
-- What insertions and updates of the table of operations keep: internal/store/operation.go.
use poly_fleet.Base.{
  ℕ, ◌≤◌, ◌<◌, ◌≡◌, subst, max, Bool, true, false, ◌&&◌, ◌||◌, List, ◌∷◌, inl, inr, some, ◌==◌,
  find, exists, update, count, Bool-cases, find-update, find-count, exists_none, count_le,
  count-update, count-update_le, arith,
}
use poly_fleet.Schema.{Operation}
use poly_fleet.Store.Operation.Queue.{is_pending, is_open}

abbrev pub has_key : ℕ → Operation → Bool
has_key k o = o.id == k

-- The primary key.
abbrev pub Keyed : List Operation → Type 0
Keyed os = (k : ℕ) → count (has_key k) os ≤ 1

-- From one table to another no operation that is done changes, and no queue grows beyond 20.
pub record Progress (os os' : List Operation) : Type 0 where
  pub keyed : Keyed os → Keyed os'
  pub kept :
      Keyed os
      → (k : ℕ) (o : Operation) → find (has_key k) os ≡ some o
      → is_open o.status ≡ false
      → find (has_key k) os' ≡ some o
  pub pending : (node : ℕ) → count (is_pending node) os' ≤ max 20 (count (is_pending node) os)

pub Progress-refl : (os : List Operation) → Progress os os
Progress-refl os = record {
  keyed = λ keys. keys;
  kept = λ keys k o e final. e;
  pending = λ node. ground arith;
}

pub Progress-trans : {a b c : List Operation} → Progress a b → Progress b c → Progress a c
Progress-trans p q = record {
  keyed = λ keys. q.keyed (p.keyed keys);
  kept = λ keys k o e final. q.kept (p.keyed keys) k o (p.kept keys k o e final) final;
  pending = λ node. ground (arith, p.pending node, q.pending node);
}

module _ (o : Operation) (os : List Operation)
    (fresh : exists
        (λ (x : Operation).
          (x.id == o.id) || ((x.node_id == o.node_id) && (x.sequence == o.sequence)))
        os
      ≡ false) where
  absent : (k : ℕ) → (o.id == k) ≡ true → count (has_key k) os ≡ 0
  absent k e =
      let same : o.id ≡ k = ground arith in
      let gone : count (has_key o.id) os ≡ 0 = ground (
        arith,
        count_le (has_key o.id)
            (λ (x : Operation).
              (x.id == o.id) || ((x.node_id == o.node_id) && (x.sequence == o.sequence)))
            (λ x h. ground arith) os,
        exists_none _ os fresh,
      ) in
      subst (λ i. count (has_key i) os ≡ 0) same gone

  pub insert-Progress : count (is_pending o.node_id) os < 20 → Progress os (o ∷ os)
  unfolding find count
  insert-Progress room = record {
    keyed = λ keys k. ground (arith, keys k, absent k);
    kept = λ keys k x e final. ground (arith, absent k, find-count (has_key k) os e);
    pending = λ node. elim (Bool-cases (o.node_id == node)) [
      | inl hit ↦
          let same : o.node_id ≡ node = ground arith in
          ground (arith, subst (λ n. count (is_pending n) os < 20) same room)
      | inr miss ↦ ground arith
    ];
  }

-- An update of rows that are not done.
pub update-Progress :
    (p : Operation → Bool) (f : Operation → Operation) (os : List Operation)
    → ((k : ℕ) (x : Operation) → has_key k (f x) ≡ has_key k x)
    → (Keyed os
        → (k : ℕ) (x : Operation) → find (has_key k) os ≡ some x
        → p x ≡ true
        → is_open x.status ≡ true)
    → ((node : ℕ) (x : Operation)
        → p x ≡ true
        → is_pending node (f x) ≡ true
        → is_pending node x ≡ true)
    → Progress os (update p f os)
update-Progress p f os keep live shrink = record {
  keyed = λ keys k. rw (count-update (has_key k) p f (keep k) os) (keys k);
  kept = λ keys k x e final.
      rw (find-update (has_key k) p f (keep k) os, e) (ground (arith, live keys k x e));
  pending = λ node. ground (arith, count-update_le (is_pending node) p f (shrink node) os);
}
