-- ===== src/Agent/Reached.antt =====
-- No kick is lost between the two tables of internal/agent/local_store.go.
use poly_fleet.Base.{
  ℕ, ◌≤◌, ◌≡◌, refl, subst, max, true, ◌||◌, List, [], ◌∷◌, inl, inr, ◌==◌, leb, ltb, if◌then◌else◌,
  ok, delete, Bool-cases, arith,
}
use poly_fleet.Agent.Kicks.{
  DesiredKick, KickState, KickRow, KickStore, applied_generation, greater, upsert_kick_row,
  queue_kicks, upsert_state, is_settled, mark_kicks_applied,
}

-- The greatest generation that waits for a user.
unfoldable pub queued_generation : ℕ → List KickRow → ℕ
queued_generation user [] = 0
queued_generation user (r ∷ rs) =
    max (if r.user_id == user then r.generation else 0) (queued_generation user rs)

-- The greatest generation that a list of kicks asks for.
unfoldable pub asked_generation : ℕ → List DesiredKick → ℕ
asked_generation user [] = 0
asked_generation user (k ∷ ks) =
    max (if k.user_id == user then k.generation else 0) (asked_generation user ks)

-- The greatest generation that waits or has been applied.
abbrev pub reached : ℕ → KickStore → ℕ
reached user s = max (applied_generation user s.states) (queued_generation user s.outbox)

greater-max : (old new : ℕ) → greater old new ≡ max old new
unfolding greater
greater-max old new = ground arith

abbrev asked_of : ℕ → DesiredKick → ℕ
asked_of user k = if k.user_id == user then k.generation else 0

upsert_state_applied :
    (k : DesiredKick) (now user : ℕ) (ss : List KickState)
    → applied_generation user (upsert_state k now ss)
      ≡ max (asked_of user k) (applied_generation user ss)
unfolding upsert_state applied_generation
upsert_state_applied k now user [] = ground arith
upsert_state_applied k now user (s ∷ ss) = elim (Bool-cases (s.user_id == k.user_id)) [
  | inl hit ↦ rw hit (ground (arith, greater-max s.applied_generation k.generation))
  | inr miss ↦ rw miss (ground (arith, upsert_state_applied k now user ss))
]

upsert_kick_row_queued :
    (k : DesiredKick) (now user : ℕ) (rs : List KickRow)
    → queued_generation user (upsert_kick_row k now rs)
      ≡ max (asked_of user k) (queued_generation user rs)
unfolding upsert_kick_row queued_generation
upsert_kick_row_queued k now user [] = ground arith
upsert_kick_row_queued k now user (r ∷ rs) = elim (Bool-cases (r.user_id == k.user_id)) [
  | inl hit ↦ rw hit (ground (arith, greater-max r.generation k.generation))
  | inr miss ↦ rw miss (ground (arith, upsert_kick_row_queued k now user rs))
]

delete_settled_queued :
    (k : DesiredKick) (user : ℕ) (rs : List KickRow)
    → max (asked_of user k) (queued_generation user (delete (is_settled k) rs))
      ≡ max (asked_of user k) (queued_generation user rs)
unfolding delete queued_generation
delete_settled_queued k user [] = refl
delete_settled_queued k user (r ∷ rs) = elim (Bool-cases (is_settled k r)) [
  | inl hit ↦ rw hit (ground (arith, delete_settled_queued k user rs))
  | inr miss ↦ rw miss (ground (arith, delete_settled_queued k user rs))
]

applied_reaches :
    (k : DesiredKick) (user : ℕ) (s : KickStore)
    → leb k.generation (applied_generation k.user_id s.states) ≡ true
    → asked_of user k ≤ applied_generation user s.states
applied_reaches k user s h = elim (Bool-cases (k.user_id == user)) [
  | inl hit ↦
      let same : k.user_id ≡ user = ground arith in
      let on : k.generation ≤ applied_generation user s.states =
        subst (λ u. k.generation ≤ applied_generation u s.states) same (ground arith) in
      rw hit on
  | inr miss ↦ rw miss (ground arith)
]

-- Queueing kicks raises, for every user, what waits or has been applied to what they ask for, and no
-- further: a kick waits or has been applied already.
pub queue_kicks-reached :
    (ks : List DesiredKick) (now user : ℕ) (s s' : KickStore)
    → queue_kicks ks now s ≡ ok s'
    → reached user s' ≡ max (asked_generation user ks) (reached user s)
unfolding queue_kicks asked_generation
queue_kicks-reached [] now user s s' h = ground arith
queue_kicks-reached (k ∷ ks) now user s s' h =
    elim (Bool-cases ((k.user_id == 0) || ltb k.generation 1)) [
      | inl bad ↦ absurd (ground arith)
      | inr good ↦ elim (Bool-cases (leb k.generation (applied_generation k.user_id s.states))) [
        | inl old ↦
            let later = queue_kicks-reached ks now user s s' (ground arith) in
            let passed = applied_reaches k user s old in omega (arith, later, passed)
        | inr new ↦
            let next : KickStore = record s { outbox = upsert_kick_row k now s.outbox } in
            let later = queue_kicks-reached ks now user next s' (ground arith) in
            omega (arith, later, upsert_kick_row_queued k now user s.outbox)
      ]
    ]

-- Marking kicks as applied keeps what waits beyond them: for every user it raises what waits or has
-- been applied to what has been marked, and no further.
pub mark_kicks_reached :
    (ks : List DesiredKick) (now user : ℕ) (s : KickStore)
    → reached user (mark_kicks_applied ks now s) ≡ max (asked_generation user ks) (reached user s)
unfolding mark_kicks_applied asked_generation
mark_kicks_reached [] now user s = ground arith
mark_kicks_reached (k ∷ ks) now user s =
    let next : KickStore = record {
      states = upsert_state k now s.states;
      outbox = delete (is_settled k) s.outbox;
    } in
    omega (
      arith,
      mark_kicks_reached ks now user next,
      upsert_state_applied k now user s.states,
      delete_settled_queued k user s.outbox,
    )
