-- ===== src/Store/Kick/Examples.antt =====
-- A kick of the one assigned user on all nodes.
use poly_fleet.Base.{
  ℕ, ◌+◌, ◌≡◌, refl, Result, ok, err, find, exists, select, update, count, length,
}
use poly_fleet.Schema.{Db}
use poly_fleet.Store.Fixtures.{start}
use poly_fleet.Store.Snapshot.{
  insert_snapshot, bump_node_snapshot, mark_assignment_pending, insert_sorted, sorted,
  assignment_node_ids, add_user, add_changed_assignment, users_of, mark_users, bump_nodes,
  bump_changed_assignments,
}
use poly_fleet.Store.Kick.{
  upsert_kick, request_kick, kick_nodes, kick_targets, kick_all, request_user_kick,
}
use poly_fleet.Store.Kick.Raised.{generation, is_same, request_user_kick_generation}

abbrev answer : Result (ℕ × Db)
answer = request_user_kick 2 0 10 start

abbrev answer_of : Result (ℕ × Db) → ℕ × Db
answer_of (ok x) = x
answer_of (err e) = (0, start)

kicked : ℕ × Db
unfolding request_user_kick kick_all kick_targets kick_nodes request_kick upsert_kick
    assignment_node_ids insert_sorted sorted add_user add_changed_assignment users_of mark_users
    mark_assignment_pending insert_snapshot bump_node_snapshot bump_nodes bump_changed_assignments
    find exists select update
kicked = answer_of answer

kicked_ok : answer ≡ ok kicked
unfolding kicked
kicked_ok = refl

kicked_once : (kicked.0 ≡ 1) × (generation 1 2 kicked.1.kicks ≡ 1)
unfolding kicked generation
kicked_once = (refl, refl)

request_user_kick_generation_example :
    (generation 1 2 kicked.1.kicks
      ≡ generation 1 2 start.kicks + count (is_same 1) (kick_targets 2 0 start))
    × (kicked.0 ≡ length (kick_targets 2 0 start))
request_user_kick_generation_example =
    request_user_kick_generation 2 0 10 1 kicked.0 start kicked.1 kicked_ok
