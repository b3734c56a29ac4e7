-- ===== src/Health/Alerts.antt =====
-- Which alerts outlive a run of `auto_resolve_stale_alerts`.
use traitkeeper_eco.Base.{
  ◌≡◌, ◌<◌, sym, ap, Bool, true, false, not, ◌&&◌, none, some, List, [], ◌∷◌, ◌++◌, Text, codes,
  same_text_iff, arith, All, Bool-cases, inl, inr,
}
use mathlib.Core.Path.{subst⁻¹}
use traitkeeper_eco.Health.{
  HealthMetrics, HealthCheck, Message, SystemAlert, check_health, check_thresholds, same_message,
  has_message, should_resolve, mark_resolved, auto_resolve_stale_alerts,
}

run_closes :
    (h : HealthCheck) (a : SystemAlert) (alerts : List SystemAlert)
    → not a.is_resolved && should_resolve h a ≡ true
    → (auto_resolve_stale_alerts h (a ∷ alerts)).1
      ≡ mark_resolved a ∷ (auto_resolve_stale_alerts h alerts).1
unfolding auto_resolve_stale_alerts
run_closes h a alerts closed = ground (arith, closed)

run_keeps :
    (h : HealthCheck) (a : SystemAlert) (alerts : List SystemAlert)
    → not a.is_resolved && should_resolve h a ≡ false
    → (auto_resolve_stale_alerts h (a ∷ alerts)).1 ≡ a ∷ (auto_resolve_stale_alerts h alerts).1
unfolding auto_resolve_stale_alerts
run_keeps h a alerts kept = ground (arith, kept)

-- What a run does to one alert, and what holds of all of them.
module _ (h : HealthCheck) (P : SystemAlert → Type 0) where
  run-All :
      (alerts : List SystemAlert)
      → ((a : SystemAlert) → not a.is_resolved && should_resolve h a ≡ true → P (mark_resolved a))
      → ((a : SystemAlert) → not a.is_resolved && should_resolve h a ≡ false → P a)
      → All P (auto_resolve_stale_alerts h alerts).1
  unfolding auto_resolve_stale_alerts
  run-All [] closed kept = tt
  run-All (a ∷ alerts) closed kept = elim (Bool-cases (not a.is_resolved && should_resolve h a)) [
    | inl closes ↦
        subst⁻¹ (All P) (run_closes h a alerts closes) (closed a closes, run-All alerts closed kept)
    | inr stays ↦
        subst⁻¹ (All P) (run_keeps h a alerts stays) (kept a stays, run-All alerts closed kept)
  ]

-- What a message of the check says of the metrics; no other text says anything.
abbrev pub Holds : HealthMetrics → Message → Type 0
Holds m (Message.high_cpu n) = (n ≡ m.cpu_percent) × (800 < n)
Holds m (Message.high_memory n) = (n ≡ m.memory_percent) × (850 < n)
Holds m (Message.low_disk n) = (n ≡ m.disk_usage) × (900 < n)
Holds m Message.redis_failed = m.redis_connected ≡ false
Holds m Message.indexer_not_running = m.indexer_running ≡ false
Holds m Message.health_not_running = m.health_worker_running ≡ false
Holds m (Message.high_failure_rate n) = (n ≡ m.failed_tasks_24h) × (10 < n)
Holds m (Message.text t) = ⊥

reported-Holds :
    (m : HealthMetrics) (x : Message) → has_message x (check_thresholds m).1 ≡ true → Holds m x
unfolding check_thresholds has_message same_message
reported-Holds m (Message.high_cpu n) h = (ground (arith, h), ground (arith, h))
reported-Holds m (Message.high_memory n) h = (ground (arith, h), ground (arith, h))
reported-Holds m (Message.low_disk n) h = (ground (arith, h), ground (arith, h))
reported-Holds m Message.redis_failed h = ground (arith, h)
reported-Holds m Message.indexer_not_running h = ground (arith, h)
reported-Holds m Message.health_not_running h = ground (arith, h)
reported-Holds m (Message.high_failure_rate n) h = (ground (arith, h), ground (arith, h))
reported-Holds m (Message.text t) h = absurd (ground (arith, h))

unresolved_is_reported :
    (h : HealthCheck) (a : SystemAlert)
    → not a.is_resolved && should_resolve h a ≡ false
    → a.is_resolved ≡ false
    → has_message a.message h.alerts ≡ true
unfolding should_resolve
unresolved_is_reported h a kept waiting = ground (arith, kept, waiting)

only_message :
    (x : Message) (t : Text) → has_message x (Message.text t ∷ []) ≡ true → x ≡ Message.text t
unfolding has_message same_message
only_message (Message.text u) t h =
    ap Message.text (sym ((same_text_iff t u).0 (ground (arith, h))))
only_message (Message.high_cpu n) t h = absurd (ground (arith, h))
only_message (Message.high_memory n) t h = absurd (ground (arith, h))
only_message (Message.low_disk n) t h = absurd (ground (arith, h))
only_message Message.redis_failed t h = absurd (ground (arith, h))
only_message Message.indexer_not_running t h = absurd (ground (arith, h))
only_message Message.health_not_running t h = absurd (ground (arith, h))
only_message (Message.high_failure_rate n) t h = absurd (ground (arith, h))

-- After a run that could read the metrics, whatever alerts were stored, the message of each alert
-- that is still open holds of the metrics as they are, with the same reading.
pub open_alerts_describe_the_present :
    (m : HealthMetrics) (indexer_container : Bool) (failure : Text) (alerts : List SystemAlert)
    → All
        (λ a. a.is_resolved ≡ false → Holds m a.message)
        (auto_resolve_stale_alerts (check_health (some m) indexer_container failure) alerts).1
unfolding check_health
open_alerts_describe_the_present m indexer_container failure alerts =
    run-All (check_health (some m) indexer_container failure)
      (λ a. a.is_resolved ≡ false → Holds m a.message) alerts
      (λ a closed waiting. absurd (ground (arith, waiting)))
      (λ a kept waiting.
        reported-Holds m a.message
          (unresolved_is_reported (check_health (some m) indexer_container failure) a kept waiting))

-- When the check itself fails, the run resolves every alert that is not the message of this failure,
-- although nothing is known of the conditions.
pub failed_check_resolves_alerts :
    (indexer_container : Bool) (failure : Text) (alerts : List SystemAlert)
    → All
        (λ a.
          a.is_resolved ≡ false
          → a.message ≡ Message.text (codes "Health check error: " ++ failure))
        (auto_resolve_stale_alerts (check_health none indexer_container failure) alerts).1
unfolding check_health
failed_check_resolves_alerts indexer_container failure alerts =
    run-All (check_health none indexer_container failure)
      (λ a.
        a.is_resolved ≡ false → a.message ≡ Message.text (codes "Health check error: " ++ failure))
      alerts (λ a closed waiting. absurd (ground (arith, waiting)))
      (λ a kept waiting.
        only_message a.message (codes "Health check error: " ++ failure)
          (unresolved_is_reported (check_health none indexer_container failure) a kept waiting))
