-- ===== src/Health/Status.antt =====
-- The status that the health check reports.
use traitkeeper_eco.Base.{◌≡◌, not, ◌||◌, [], ◌↔◌, arith, ltb, if◌then◌else◌}
use traitkeeper_eco.Health.{HealthMetrics, HealthStatus, check_thresholds}

-- The last of the failing checks decides: a failing worker or more than ten failed tasks make the
-- status a warning again, whatever critical failure was found before.
pub last_failing_check_decides :
    (m : HealthMetrics)
    → (check_thresholds m).0 ≡ (
        if ltb 10 m.failed_tasks_24h
        then (if ltb 50 m.failed_tasks_24h then HealthStatus.critical else HealthStatus.warning)
        else if not m.health_worker_running
        then HealthStatus.warning
        else if not m.indexer_running || not m.redis_connected || ltb 900 m.disk_usage
        then HealthStatus.critical
        else if ltb 850 m.memory_percent || ltb 800 m.cpu_percent
        then HealthStatus.warning
        else HealthStatus.healthy)
unfolding check_thresholds
last_failing_check_decides m = ground arith

-- The status is healthy exactly when there is no alert.
pub healthy_iff_no_alerts :
    (m : HealthMetrics)
    → ((check_thresholds m).0 ≡ HealthStatus.healthy) ↔ ((check_thresholds m).1 ≡ [])
unfolding check_thresholds
healthy_iff_no_alerts m = (λ h. ground arith, λ h. ground arith)
