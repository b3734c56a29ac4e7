-- ===== src/Monitoring/Lifecycle.antt =====
-- The marks that a record of TransactionMonitoring takes, and what its statistics report.
use traitkeeper_eco.Base.{
  refl, false, ◌≡◌, is_none, ℕ, ◌*◌, ◌≤◌, ◌<◌, Bool, ◌&&◌, List, [], ◌∷◌, arith, count_if,
}
use traitkeeper_eco.Orm.{Db}
use traitkeeper_eco.Schema.{TransactionMonitoring, TransactionStatus, ErrorText}
use traitkeeper_eco.Monitoring.{
  mark_confirmed, mark_finalized, mark_failed, mark_timeout, increment_retry, is_waiting, is_stuck,
  is_recent, is_failure, get_failure_rate_24h,
}

-- The methods of a record that change it.
pub data Mark : Type 0 where
  confirm finalize : (now : ℕ) → Mark
  fail : ErrorText → Mark
  time_out retry : Mark

unfoldable pub marked : Mark → TransactionMonitoring → TransactionMonitoring
unfolding mark_confirmed mark_finalized mark_failed mark_timeout increment_retry
marked (confirm now) t = mark_confirmed now t
marked (finalize now) t = mark_finalized now t
marked (fail e) t = mark_failed e t
marked time_out t = mark_timeout t
marked retry t = increment_retry t

unfoldable pub marked_by : List Mark → TransactionMonitoring → TransactionMonitoring
unfolding marked
marked_by [] t = t
marked_by (m ∷ ms) t = marked_by ms (marked m t)

-- A time and its duration are set together, and a record that counts as confirmed or finalized has
-- them.
pub record IsTimed (t : TransactionMonitoring) : Type 0 where
  pub confirmation : is_none t.confirmed_at ≡ is_none t.confirmation_time_ms
  pub finalization : is_none t.finalized_at ≡ is_none t.finalization_time_ms
  pub confirmed : t.status ≡ TransactionStatus.confirmed → is_none t.confirmed_at ≡ false
  pub finalized : t.status ≡ TransactionStatus.finalized → is_none t.finalized_at ≡ false

marked-IsTimed :
    (m : Mark) (t : TransactionMonitoring)
    → IsTimed t
    → IsTimed (marked m t) × (is_waiting t.status ≡ false → is_waiting (marked m t).status ≡ false)
unfolding marked mark_confirmed mark_finalized mark_failed mark_timeout increment_retry is_waiting
marked-IsTimed (confirm now) t h = (
  record {
    confirmation = refl;
    finalization = h.finalization;
    confirmed = λ e. refl;
    finalized = λ e. ground arith;
  },
  λ w. refl,
)
marked-IsTimed (finalize now) t h = (
  record {
    confirmation = h.confirmation;
    finalization = refl;
    confirmed = λ e. ground arith;
    finalized = λ e. refl;
  },
  λ w. refl,
)
marked-IsTimed (fail x) t h = (
  record {
    confirmation = h.confirmation;
    finalization = h.finalization;
    confirmed = λ e. ground arith;
    finalized = λ e. ground arith;
  },
  λ w. refl,
)
marked-IsTimed time_out t h = (
  record {
    confirmation = h.confirmation;
    finalization = h.finalization;
    confirmed = λ e. ground arith;
    finalized = λ e. ground arith;
  },
  λ w. refl,
)
marked-IsTimed retry t h = (
  record {
    confirmation = h.confirmation;
    finalization = h.finalization;
    confirmed = h.confirmed;
    finalized = h.finalized;
  },
  λ w. w,
)

-- Marks in any order keep the times of a record and its status consistent, and a record that has
-- stopped waiting is never reported as stuck again.
pub marks_keep_times :
    (marks : List Mark) (t : TransactionMonitoring) (now minutes : ℕ)
    → IsTimed t
    → is_waiting t.status ≡ false
    → IsTimed (marked_by marks t) × (is_stuck now minutes (marked_by marks t) ≡ false)
unfolding marked_by is_stuck
marks_keep_times [] t now minutes h w = (h, ground arith)
marks_keep_times (m ∷ ms) t now minutes h w =
    let (h', w') = marked-IsTimed m t h in marks_keep_times ms (marked m t) now minutes h' (w' w)

count-and-le {ℓ} :
    {A : Type ℓ} (p q : A → Bool) (xs : List A) → count_if (λ x. p x && q x) xs ≤ count_if p xs
count-and-le p q [] = omega arith
count-and-le p q (x ∷ xs) = ground (arith, count-and-le p q xs)

-- The failure rate lies between 0 and 100 percent: its denominator is positive, and its numerator
-- is at most 100 times that.
pub failure_rate_bounds :
    (now : ℕ) (db : Db)
    → (0 < (get_failure_rate_24h now db).1)
      × ((get_failure_rate_24h now db).0 ≤ 100 * (get_failure_rate_24h now db).1)
unfolding get_failure_rate_24h
failure_rate_bounds now db =
    ground (arith, count-and-le (is_recent now) (λ t. is_failure t.status) db.monitoring)
