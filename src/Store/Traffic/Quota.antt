-- ===== src/Store/Traffic/Quota.antt =====
-- The quota states before and after a batch: `effectiveQuotaStatesTx` of internal/store/traffic.go
-- and the loop over the changed states in `IngestTrafficBatch`.
use poly_fleet.Base.{
  ℕ, Bool, true, false, ◌&&◌, ◌||◌, not, Option, none, some, List, [], ◌∷◌, ◌++◌, ◌==◌,
  if◌then◌else◌, Result, ok, ◌>>=◌, find, exists,
}
use poly_fleet.Schema.{Db, User, Assignment, QuotaState, limited, is_none, is_user, quota_limited}
use poly_fleet.Store.Snapshot.{Changed, add_changed_assignment}
use poly_fleet.Store.Kick.{request_kick}

-- effectiveQuotaState, with its key
pub record QuotaRow : Type 0 where
  pub node_id : ℕ
  pub user_id : ℕ
  pub is_limited : Bool

abbrev pub is_limited_state : QuotaState → Bool
is_limited_state limited = true
is_limited_state _ = false

unfoldable pub user_quota_rows : User → List Assignment → List QuotaRow
user_quota_rows u [] = []
user_quota_rows u (a ∷ rows) =
    let rest = user_quota_rows u rows in
    if a.user_id == u.id
    then record {
      node_id = a.node_id;
      user_id = u.id;
      is_limited = is_limited_state u.quota_state || is_limited_state a.quota_state;
    }
      ∷ rest
    else rest

unfoldable pub quota_rows_of : ℕ → Db → List QuotaRow
quota_rows_of user db =
    elim (find (λ (u : User). is_user user u && is_none u.archived_at) db.users) [
      | none ↦ []
      | some u ↦ user_quota_rows u db.assignments
    ]

-- `seen` holds the users that have been read.
unfoldable pub effective_quota_states : List ℕ → List ℕ → Db → List QuotaRow
effective_quota_states [] seen db = []
effective_quota_states (user ∷ users) seen db =
    let skipped = effective_quota_states users seen db in
    let read = quota_rows_of user db ++ effective_quota_states users (user ∷ seen) db in
    if exists (λ s. s == user) seen then skipped else read

abbrev pub same_key : QuotaRow → QuotaRow → Bool
same_key r s = (r.node_id == s.node_id) && (r.user_id == s.user_id)

abbrev pub same_bool : Bool → Bool → Bool
same_bool true b = b
same_bool false b = not b

abbrev pub is_unchanged : QuotaRow → Option QuotaRow → Bool
is_unchanged current none = false
is_unchanged current (some previous) = same_bool previous.is_limited current.is_limited

-- The loop over the states after the batch.
unfoldable pub apply_transitions :
    List QuotaRow → List QuotaRow → ℕ → Changed → Db → Result (Changed × Db)
apply_transitions previous [] now changed db = ok (changed, db)
apply_transitions previous (current ∷ rest) now changed db =
    let skipped = apply_transitions previous rest now changed db in
    if is_unchanged current (find (same_key current) previous)
    then skipped
    else ((if current.is_limited
          then request_kick current.node_id current.user_id quota_limited now db
          else ok db)
        >>= λ db'.
            apply_transitions previous rest now
              (add_changed_assignment current.node_id current.user_id changed) db')
