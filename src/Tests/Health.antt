-- ===== src/Tests/Health.antt =====
-- A server under load, and its alerts.
use traitkeeper_eco.Base.{
  ◌≡◌, refl, true, false, not, ◌||◌, none, some, List, [], ◌∷◌, ◌++◌, ◌↔◌, codes, ltb, All,
  if◌then◌else◌,
}
use traitkeeper_eco.Health.{
  HealthMetrics, HealthStatus, Message, SystemAlert, AlertCategory, check_health, check_thresholds,
  has_message, same_message, auto_resolve_stale_alerts, should_resolve,
  create_system_alert_from_message, category_of,
}
use traitkeeper_eco.Health.Status.{last_failing_check_decides, healthy_iff_no_alerts}
use traitkeeper_eco.Health.Alerts.{
  Holds, open_alerts_describe_the_present, failed_check_resolves_alerts,
}

abbrev loaded : HealthMetrics
loaded = record {
  cpu_percent = 912;
  memory_percent = 400;
  disk_usage = 950;
  redis_connected = true;
  indexer_running = true;
  health_worker_running = true;
  failed_tasks_24h = 11;
}

-- The alert of the reading before, and that of this one.
abbrev alerts : List SystemAlert
alerts =
    record {
      category = AlertCategory.resource;
      message = Message.high_cpu 905;
      is_resolved = false;
    }
    ∷ record {
      category = AlertCategory.resource;
      message = Message.low_disk 950;
      is_resolved = false;
    }
    ∷ []

-- The disk is full, and the status is a warning.
loaded_status : (check_thresholds loaded).0 ≡ HealthStatus.warning
unfolding check_thresholds
loaded_status = refl

loaded_run : (auto_resolve_stale_alerts (check_health (some loaded) true []) alerts).0 ≡ 1
unfolding auto_resolve_stale_alerts should_resolve check_health check_thresholds has_message
    same_message
loaded_run = refl

-- The message of a new alert is that of the check.
created : List SystemAlert
created = create_system_alert_from_message (Message.high_cpu 912) alerts

created_category : category_of (Message.text (codes "Slow requests")) ≡ AlertCategory.performance
unfolding category_of
created_category = refl

open_alerts_describe_the_present_example :
    All
      (λ a. a.is_resolved ≡ false → Holds loaded a.message)
      (auto_resolve_stale_alerts (check_health (some loaded) true []) alerts).1
open_alerts_describe_the_present_example = open_alerts_describe_the_present loaded true [] alerts

failed_check_resolves_alerts_example :
    All
      (λ a.
        a.is_resolved ≡ false
        → a.message ≡ Message.text (codes "Health check error: " ++ codes "busy"))
      (auto_resolve_stale_alerts (check_health none false (codes "busy")) alerts).1
failed_check_resolves_alerts_example = failed_check_resolves_alerts false (codes "busy") alerts

last_failing_check_decides_example : (check_thresholds loaded).0 ≡ (
    if ltb 10 11
    then (if ltb 50 11 then HealthStatus.critical else HealthStatus.warning)
    else if not true
    then HealthStatus.warning
    else if not true || not true || ltb 900 950
    then HealthStatus.critical
    else if ltb 850 400 || ltb 800 912
    then HealthStatus.warning
    else HealthStatus.healthy)
last_failing_check_decides_example = last_failing_check_decides loaded

healthy_iff_no_alerts_example :
    ((check_thresholds loaded).0 ≡ HealthStatus.healthy) ↔ ((check_thresholds loaded).1 ≡ [])
healthy_iff_no_alerts_example = healthy_iff_no_alerts loaded
