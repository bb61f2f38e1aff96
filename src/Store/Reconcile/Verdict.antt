-- ===== src/Store/Reconcile/Verdict.antt =====
-- What the loops of `ReconcileAlerts` in internal/store/alert.go leave of the active alerts, from the
-- conditions alone.
use poly_fleet.Base.{
  ℕ, ◌+◌, ◌-◌, ◌/◌, ◌≡◌, Bool, ◌&&◌, not, List, [], ◌∷◌, ◌==◌, leb, ltb, if◌then◌else◌, arith,
}
use poly_fleet.Schema.{
  AlertType, offline, degraded, core_down, usage_error, sync_failed, sync_stuck, operation_failed,
  traffic_quota_warning, traffic_quota_exhausted,
}
use poly_fleet.Store.Texts.{is_empty}
use poly_fleet.Store.Alert.Effect.{is_target, one_if}
use poly_fleet.Store.Reconcile.{AlertCondition, Check, checks}

-- How many active alerts of the type the node has after the checks, by how many it had.
unfoldable pub verdict : ℕ → List Check → ℕ → AlertType → ℕ → ℕ
verdict node [] n t before = before
verdict node (k ∷ ks) n t before =
    verdict node ks n t (if is_target node k.alert_type n t then one_if k.active else before)

unfoldable pub verdicts : ℕ → ℕ → ℕ → List AlertCondition → ℕ → AlertType → ℕ → ℕ
verdicts now offline_after stuck_after [] n t before = before
verdicts now offline_after stuck_after (c ∷ cs) n t before =
    verdicts now offline_after stuck_after cs n t
      (verdict c.node_id (checks now offline_after stuck_after c) n t before)

-- When an alert of each type is due for a node.
unfoldable pub due : ℕ → ℕ → ℕ → AlertCondition → AlertType → Bool
due now offline_after stuck_after c offline =
    c.enabled && (c.installed && leb (c.last_activity_at + offline_after) now)
due now offline_after stuck_after c degraded = c.enabled && c.is_degraded
due now offline_after stuck_after c core_down =
    c.enabled
    && (c.installed && (not c.core_running && ltb now (c.last_activity_at + offline_after)))
due now offline_after stuck_after c usage_error =
    c.enabled && (c.usage_enabled && not (is_empty c.usage_error_code))
due now offline_after stuck_after c sync_failed = c.enabled && c.failed_assignments
due now offline_after stuck_after c sync_stuck =
    c.enabled
    && (c.installed
        && (ltb c.applied_version c.desired_version
            && leb (c.desired_created_at + stuck_after) now))
due now offline_after stuck_after c operation_failed = c.unrecovered_operation_failure
due now offline_after stuck_after c traffic_quota_warning =
    leb (c.traffic_limit_bytes - c.traffic_limit_bytes / 5) c.traffic_used_bytes
    && ltb c.traffic_used_bytes c.traffic_limit_bytes
due now offline_after stuck_after c traffic_quota_exhausted =
    ltb 0 c.traffic_limit_bytes && leb c.traffic_limit_bytes c.traffic_used_bytes

module _ (now offline_after stuck_after : ℕ) (c : AlertCondition) (n : ℕ) (before : ℕ) where
  abbrev Agrees : AlertType → Type 0
  Agrees t =
      verdict c.node_id (checks now offline_after stuck_after c) n t before
      ≡ (if c.node_id == n then one_if (due now offline_after stuck_after c t) else before)

  pub verdict-due : (t : AlertType) → Agrees t
  unfolding verdict checks due
  verdict-due offline = ground arith
  verdict-due degraded = ground arith
  verdict-due core_down = ground arith
  verdict-due usage_error = ground arith
  verdict-due sync_failed = ground arith
  verdict-due sync_stuck = ground arith
  verdict-due operation_failed = ground arith
  verdict-due traffic_quota_warning = ground arith
  verdict-due traffic_quota_exhausted = ground arith
