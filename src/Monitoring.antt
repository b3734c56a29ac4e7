-- ===== src/Monitoring.antt =====
-- The methods of TransactionMonitoring (marketplace/models.py), and `_create_transaction_record` of
-- marketplace/services.py, which opens a record.
pub mod Lifecycle
use traitkeeper_eco.Base.{
  ℕ, ◌+◌, ◌-◌, ◌*◌, ◌/◌, ◌<◌, ℤ, pos, sub_ℕ, Bool, true, false, ◌&&◌, ◌||◌, Option, none, some,
  List, String, leb, ltb, count_if, select, if◌then◌else◌, ◌==◌,
}
use traitkeeper_eco.Schema.{
  TransactionMonitoring, TransactionStatus, ErrorText, attribute_error, blank, timeout_after,
}
use traitkeeper_eco.Orm.{Db, Action, raise, create_monitoring, update_monitoring}
use traitkeeper_eco.Chain.{hour, minute}

-- `create_from_transaction`, through `_create_transaction_record`, which reads the name of the
-- provider from the client first.
unfoldable pub create_transaction_record :
    Bool → ℕ → ℕ → String → Option ℕ → Option ℕ → Action TransactionMonitoring
unfolding create_monitoring
create_transaction_record is_client_initialized now signature action_type nft_mint user_wallet =
    let created : Action TransactionMonitoring = create_monitoring (record {
      transaction_signature = signature;
      action_type = action_type;
      submitted_at = now;
      confirmed_at = none;
      finalized_at = none;
      status = TransactionStatus.submitted;
      confirmation_time_ms = none;
      finalization_time_ms = none;
      nft_mint = nft_mint;
      user_wallet = user_wallet;
      error_message = blank;
      retry_count = 0;
    }) in
    if is_client_initialized then created else raise attribute_error

-- `int((now - submitted_at).total_seconds() * 1000)`: whole milliseconds, towards zero.
abbrev pub elapsed_ms : ℕ → ℕ → ℤ
elapsed_ms from to = sub_ℕ ((to - from) / 1000) ((from - to) / 1000)

unfoldable pub mark_confirmed : ℕ → TransactionMonitoring → TransactionMonitoring
mark_confirmed now t = record t {
  confirmed_at = some now;
  status = TransactionStatus.confirmed;
  confirmation_time_ms = some (elapsed_ms t.submitted_at now);
}

unfoldable pub mark_finalized : ℕ → TransactionMonitoring → TransactionMonitoring
mark_finalized now t = record t {
  finalized_at = some now;
  status = TransactionStatus.finalized;
  finalization_time_ms = some (elapsed_ms t.submitted_at now);
}

unfoldable pub mark_failed : ErrorText → TransactionMonitoring → TransactionMonitoring
mark_failed error t = record t { status = TransactionStatus.failed; error_message = error }

unfoldable pub mark_timeout : TransactionMonitoring → TransactionMonitoring
mark_timeout t = record t {
  status = TransactionStatus.timeout;
  error_message = timeout_after t.retry_count;
}

unfoldable pub increment_retry : TransactionMonitoring → TransactionMonitoring
increment_retry t = record t { retry_count = t.retry_count + 1 }

-- `status__in=[PENDING, SUBMITTED]`
unfoldable pub is_waiting : TransactionStatus → Bool
is_waiting TransactionStatus.pending = true
is_waiting TransactionStatus.submitted = true
is_waiting _ = false

-- `status__in=[FAILED, TIMEOUT]`
unfoldable pub is_failure : TransactionStatus → Bool
is_failure TransactionStatus.failed = true
is_failure TransactionStatus.timeout = true
is_failure _ = false

-- `submitted_at < now - minutes`
unfoldable pub is_stuck : ℕ → ℕ → TransactionMonitoring → Bool
unfolding is_waiting
is_stuck now minutes t = is_waiting t.status && ltb (t.submitted_at + minutes * minute) now

unfoldable pub get_stuck_transactions : ℕ → ℕ → Db → List TransactionMonitoring
unfolding is_stuck
get_stuck_transactions now minutes db = select (is_stuck now minutes) db.monitoring

-- `submitted_at >= now - 24h`
unfoldable pub is_recent : ℕ → TransactionMonitoring → Bool
is_recent now t = leb now (t.submitted_at + 24 * hour)

-- The numbers of recent records and of recent failures, which `get_failure_rate_24h` divides.
unfoldable pub failure_counts_24h : ℕ → Db → ℕ × ℕ
unfolding is_recent is_failure
failure_counts_24h now db = (
  count_if (λ t. is_recent now t && is_failure t.status) db.monitoring,
  count_if (is_recent now) db.monitoring,
)

-- The rate in percent as a fraction, a numerator and a denominator: 0 over 1 with no record, and
-- otherwise `failed / total * 100`.
unfoldable pub get_failure_rate_24h : ℕ → Db → ℕ × ℕ
unfolding failure_counts_24h
get_failure_rate_24h now db =
    let (failed, total) = failure_counts_24h now db in
    if total == 0 then (0, 1) else (failed * 100, total)
