-- ===== src/Health.antt =====
-- The health check (system_health/monitoring.py) and the alerts that it opens and closes
-- (system_health/utils.py, system_health/models.py).
pub mod Status
pub mod Alerts
use traitkeeper_eco.Base.{
  ℕ, ◌+◌, Bool, true, false, not, ◌&&◌, ◌||◌, Option, none, some, List, [], ◌∷◌, ◌++◌, Text, codes,
  same_text, lower, ltb, leb, ◌==◌, if◌then◌else◌,
}

-- Percentages are tenths, as the messages show them.
pub record HealthMetrics : Type 0 where
  pub cpu_percent : ℕ
  pub memory_percent : ℕ
  pub disk_usage : ℕ
  pub redis_connected : Bool
  pub indexer_running : Bool
  pub health_worker_running : Bool
  pub failed_tasks_24h : ℕ

pub data HealthStatus : Type 0 where
  healthy warning critical error : HealthStatus

-- The messages of the check, and any text that is none of them.
pub data Message : Type 0 where
  high_cpu high_memory low_disk : ℕ → Message
  redis_failed indexer_not_running health_not_running : Message
  high_failure_rate : ℕ → Message
  text : Text → Message

-- The answer of the check, without metrics when it raised. `indexer_container` tells whether a
-- container of the indexer runs.
pub record HealthCheck : Type 0 where
  pub status : HealthStatus
  pub metrics : Option HealthMetrics
  pub alerts : List Message
  pub indexer_container : Bool

-- One `if` of the check: an alert more, and the status that it sets.
abbrev raise_if :
    Bool → Message → HealthStatus → HealthStatus × List Message → HealthStatus × List Message
raise_if test m s (status, alerts) = if test then (s, alerts ++ m ∷ []) else (status, alerts)

unfoldable pub check_thresholds : HealthMetrics → HealthStatus × List Message
check_thresholds m =
    raise_if (ltb 10 m.failed_tasks_24h) (Message.high_failure_rate m.failed_tasks_24h)
      (if ltb 50 m.failed_tasks_24h then HealthStatus.critical else HealthStatus.warning)
      (raise_if (not m.health_worker_running) Message.health_not_running HealthStatus.warning (
        raise_if (not m.indexer_running) Message.indexer_not_running HealthStatus.critical (
          raise_if (not m.redis_connected) Message.redis_failed HealthStatus.critical (
            raise_if (ltb 900 m.disk_usage) (Message.low_disk m.disk_usage) HealthStatus.critical (
              raise_if (ltb 850 m.memory_percent) (Message.high_memory m.memory_percent)
                HealthStatus.warning
                (raise_if (ltb 800 m.cpu_percent) (Message.high_cpu m.cpu_percent)
                  HealthStatus.warning (HealthStatus.healthy, [])))))))

-- `failure` is the text of the exception, when the metrics or the containers cannot be read.
unfoldable pub check_health : Option HealthMetrics → Bool → Text → HealthCheck
unfolding check_thresholds
check_health none indexer_container failure = record {
  status = HealthStatus.error;
  metrics = none;
  alerts = Message.text (codes "Health check error: " ++ failure) ∷ [];
  indexer_container = false;
}
check_health (some m) indexer_container failure = record {
  status = (check_thresholds m).0;
  metrics = some m;
  alerts = (check_thresholds m).1;
  indexer_container = indexer_container;
}

pub data AlertCategory : Type 0 where
  service resource performance security other : AlertCategory

pub record SystemAlert : Type 0 where
  pub category : AlertCategory
  pub message : Message
  pub is_resolved : Bool

unfoldable pub same_message : Message → Message → Bool
same_message (Message.high_cpu a) (Message.high_cpu b) = a == b
same_message (Message.high_memory a) (Message.high_memory b) = a == b
same_message (Message.low_disk a) (Message.low_disk b) = a == b
same_message Message.redis_failed Message.redis_failed = true
same_message Message.indexer_not_running Message.indexer_not_running = true
same_message Message.health_not_running Message.health_not_running = true
same_message (Message.high_failure_rate a) (Message.high_failure_rate b) = a == b
same_message (Message.text a) (Message.text b) = same_text a b
same_message _ _ = false

unfoldable pub has_message : Message → List Message → Bool
unfolding same_message
has_message m [] = false
has_message m (n ∷ ms) = let rest = has_message m ms in same_message n m || rest

-- The branch for alerts of a service: those of Redis and the database look for a dictionary where
-- the check has a word, and close nothing. Other texts are not read.
abbrev service_restored : HealthCheck → Message → Bool
service_restored h Message.indexer_not_running = h.indexer_container
service_restored h _ = false

-- The branch for alerts of a resource; `low_disk` reads "Low disk space", which has neither "full"
-- nor "high".
abbrev resource_normal : Option HealthMetrics → Message → Bool
resource_normal none _ = false
resource_normal (some m) (Message.high_cpu n) = ltb m.cpu_percent 800
resource_normal (some m) (Message.high_memory n) = ltb m.memory_percent 850
resource_normal (some m) _ = false

abbrev condition_gone : HealthCheck → AlertCategory → Message → Bool
condition_gone h AlertCategory.service m = service_restored h m
condition_gone h AlertCategory.resource m = resource_normal h.metrics m
condition_gone h _ m = false

unfoldable pub should_resolve : HealthCheck → SystemAlert → Bool
unfolding has_message
should_resolve h a = condition_gone h a.category a.message || not (has_message a.message h.alerts)

abbrev pub mark_resolved : SystemAlert → SystemAlert
mark_resolved a = record a { is_resolved = true }

-- The alerts after a run, and how many it resolved.
unfoldable pub auto_resolve_stale_alerts : HealthCheck → List SystemAlert → ℕ × List SystemAlert
unfolding should_resolve
auto_resolve_stale_alerts h [] = (0, [])
auto_resolve_stale_alerts h (a ∷ alerts) =
    let (n, rest) = auto_resolve_stale_alerts h alerts in
    if not a.is_resolved && should_resolve h a
    then (n + 1, mark_resolved a ∷ rest)
    else (n, a ∷ rest)

-- `word in text`
unfoldable pub begins_with : Text → Text → Bool
begins_with [] t = true
begins_with (c ∷ w) [] = false
begins_with (c ∷ w) (d ∷ t) = let rest = begins_with w t in c == d && rest

unfoldable pub contains : Text → Text → Bool
unfolding begins_with
contains w [] = begins_with w []
contains w (c ∷ t) = let rest = contains w t in begins_with w (c ∷ t) || rest

abbrev has_word : Text → List Text → Bool
has_word t [] = false
has_word t (w ∷ ws) = contains w t || has_word t ws

abbrev text_category : Text → AlertCategory
text_category t =
    if has_word t (codes "cpu" ∷ codes "memory" ∷ codes "disk" ∷ [])
    then AlertCategory.resource
    else if has_word t (codes "redis" ∷ codes "indexer" ∷ codes "service" ∷ [])
    then AlertCategory.service
    else if has_word t (codes "performance" ∷ codes "slow" ∷ [])
    then AlertCategory.performance
    else AlertCategory.other

-- The category that `create_system_alert_from_message` finds in the words of the message; DATA is
-- among the others.
unfoldable pub category_of : Message → AlertCategory
unfolding contains lower
category_of (Message.high_cpu n) = AlertCategory.resource
category_of (Message.high_memory n) = AlertCategory.resource
category_of (Message.low_disk n) = AlertCategory.resource
category_of Message.redis_failed = AlertCategory.service
category_of Message.indexer_not_running = AlertCategory.service
category_of Message.health_not_running = AlertCategory.other
category_of (Message.high_failure_rate n) = AlertCategory.other
category_of (Message.text t) = text_category (lower t)

unfoldable pub is_open : Message → List SystemAlert → Bool
unfolding same_message
is_open m [] = false
is_open m (a ∷ alerts) =
    let rest = is_open m alerts in (same_message a.message m && not a.is_resolved) || rest

-- A message of the check opens an alert unless one is open.
unfoldable pub create_system_alert_from_message : Message → List SystemAlert → List SystemAlert
unfolding is_open category_of
create_system_alert_from_message m alerts =
    if is_open m alerts
    then alerts
    else alerts ++ (record { category = category_of m; message = m; is_resolved = false } ∷ [])
