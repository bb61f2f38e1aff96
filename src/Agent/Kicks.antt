-- ===== src/Agent/Kicks.antt =====
-- `queueKicks`, `markKicksApplied` and `recordKickFailure` of internal/agent/local_store.go.
use poly_fleet.Base.{
  ℕ, ◌+◌, Bool, ◌&&◌, ◌||◌, Option, none, some, List, [], ◌∷◌, ◌==◌, leb, ltb, if◌then◌else◌,
  Result, ok, err, internal, update, delete, take,
}
use poly_fleet.Schema.{Text}

pub record DesiredKick : Type 0 where
  pub user_id : ℕ
  pub generation : ℕ

pub record KickState : Type 0 where
  pub user_id : ℕ
  pub applied_generation : ℕ
  pub updated_at : ℕ

pub record KickRow : Type 0 where
  pub user_id : ℕ
  pub generation : ℕ
  pub attempt_count : ℕ
  pub last_attempt_at : Option ℕ
  pub last_error_code : Text
  pub created_at : ℕ

-- The tables kick_state and kick_outbox.
pub record KickStore : Type 0 where
  pub states : List KickState
  pub outbox : List KickRow

unfoldable pub applied_generation : ℕ → List KickState → ℕ
applied_generation user [] = 0
applied_generation user (s ∷ ss) =
    if s.user_id == user then s.applied_generation else applied_generation user ss

-- CASE WHEN excluded.generation > generation THEN ...
unfoldable pub greater : ℕ → ℕ → ℕ
greater old new = if ltb old new then new else old

-- INSERT ... ON CONFLICT(user_id) DO UPDATE, which keeps the greater generation.
unfoldable pub upsert_kick_row : DesiredKick → ℕ → List KickRow → List KickRow
upsert_kick_row k now [] =
    record {
      user_id = k.user_id;
      generation = k.generation;
      attempt_count = 0;
      last_attempt_at = none;
      last_error_code = [];
      created_at = now;
    }
    ∷ []
upsert_kick_row k now (r ∷ rs) =
    let rest = upsert_kick_row k now rs in
    if r.user_id == k.user_id
    then record r { generation = greater r.generation k.generation; last_error_code = [] } ∷ rs
    else r ∷ rest

unfoldable pub queue_kicks : List DesiredKick → ℕ → KickStore → Result KickStore
queue_kicks [] now s = ok s
queue_kicks (k ∷ ks) now s =
    let skipped = queue_kicks ks now s in
    let queued = queue_kicks ks now (record s { outbox = upsert_kick_row k now s.outbox }) in
    if (k.user_id == 0) || ltb k.generation 1
    then err internal
    else if leb k.generation (applied_generation k.user_id s.states)
    then skipped
    else queued

unfoldable pub upsert_state : DesiredKick → ℕ → List KickState → List KickState
upsert_state k now [] =
    record { user_id = k.user_id; applied_generation = k.generation; updated_at = now } ∷ []
upsert_state k now (s ∷ ss) =
    let rest = upsert_state k now ss in
    if s.user_id == k.user_id
    then record s {
      applied_generation = greater s.applied_generation k.generation;
      updated_at = now;
    }
      ∷ ss
    else s ∷ rest

abbrev pub is_settled : DesiredKick → KickRow → Bool
is_settled k r = (r.user_id == k.user_id) && leb r.generation k.generation

unfoldable pub mark_kicks_applied : List DesiredKick → ℕ → KickStore → KickStore
mark_kicks_applied [] now s = s
mark_kicks_applied (k ∷ ks) now s =
    mark_kicks_applied ks now
      (record { states = upsert_state k now s.states; outbox = delete (is_settled k) s.outbox })

unfoldable pub record_kick_failure : List DesiredKick → Text → ℕ → KickStore → KickStore
record_kick_failure [] code now s = s
record_kick_failure (k ∷ ks) code now s = record_kick_failure ks code now (record s {
  outbox =
      update (λ r. (r.user_id == k.user_id) && (r.generation == k.generation))
        (λ r. record r {
          attempt_count = r.attempt_count + 1;
          last_attempt_at = some now;
          last_error_code = take 64 code;
        })
        s.outbox;
})
