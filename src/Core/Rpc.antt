-- ===== src/Core/Rpc.antt =====
-- SolanaRPCProvider (core/api_provider/base.py): requests with retries, batches of transactions,
-- and the subscription to logs.
pub mod Retries
pub mod Batches
use traitkeeper_eco.Base.{
  ℕ, zero, suc, ◌+◌, ◌-◌, ◌*◌, ◌/◌, Bool, true, false, ◌&&◌, Option, none, some, List, [], ◌∷◌,
  ◌++◌, map, ltb, length, if◌then◌else◌,
}

-- What comes of one attempt: HTTP status 429, any exception, or the body of the response.
pub data Attempt (B : Type 0) : Type 0 where
  too_many_requests failed : Attempt B
  body : B → Attempt B

abbrev pub max_retries : ℕ
max_retries = 3

abbrev pub retry_delay_seconds : ℕ
retry_delay_seconds = 2

-- The result, and the seconds slept before each further attempt.
abbrev pub Posted : Type 0 → Type 0
Posted B = Option B × List ℕ

abbrev pub after_sleep : {B : Type 0} → ℕ → Posted B → Posted B
after_sleep d (r, sleeps) = (r, d ∷ sleeps)

-- `for attempt in range(max_retries)`, with the rounds that are left.
unfoldable pub post_attempts : {B : Type 0} → (ℕ → Attempt B) → ℕ → ℕ → Posted B
post_attempts answers zero attempt = (none, [])
post_attempts answers (suc left) attempt = elim (answers attempt) [
  | Attempt.too_many_requests ↦
      after_sleep (retry_delay_seconds * 2) (post_attempts answers left (attempt + 1))
  | Attempt.failed ↦
      let rest = post_attempts answers left (attempt + 1) in
      if ltb attempt (max_retries - 1)
      then after_sleep (retry_delay_seconds * (attempt + 1)) rest
      else (none, [])
  | Attempt.body b ↦ (some b, [])
]

unfoldable pub async_post : {B : Type 0} → (ℕ → Attempt B) → Posted B
unfolding post_attempts
async_post answers = post_attempts answers max_retries 0

-- The body of a JSON-RPC response: whether it has the key "error", and its "result" unless that is
-- missing or null.
pub record RpcBody (V : Type 0) : Type 0 where
  pub error : Bool
  pub result : Option V

abbrev result_of : {V : Type 0} → Option (RpcBody V) → Option V
result_of none = none
result_of (some b) = b.result

-- `response.get("result") if response else None`: get_account_info, get_signatures_for_address.
unfoldable pub get_result : {V : Type 0} → (ℕ → Attempt (RpcBody V)) → Option V
unfolding async_post
get_result answers = result_of (async_post answers).0

-- `data.get("result") == "ok"`, where `is_ok` is that comparison.
unfoldable pub check_availability : {V : Type 0} → (V → Bool) → (ℕ → Attempt (RpcBody V)) → Bool
unfolding async_post
check_availability is_ok answers = elim (result_of (async_post answers).0) [
  | none ↦ false
  | some v ↦ is_ok v
]

abbrev if_truthy : {V : Type 0} → (V → Bool) → Option V → Option V
if_truthy truthy none = none
if_truthy truthy (some v) = if truthy v then some v else none

unfoldable pub get_raw_transaction :
    {V : Type 0} → (V → Bool) → (ℕ → Attempt (RpcBody V)) → Option V
unfolding async_post
get_raw_transaction truthy answers = elim (async_post answers).0 [
  | none ↦ none
  | some b ↦ if b.error then none else if_truthy truthy b.result
]

-- `xs[i:i + n]`
unfoldable pub slice : {A : Type 0} → ℕ → ℕ → List A → List A
slice zero zero xs = []
slice zero (suc n) [] = []
slice zero (suc n) (x ∷ xs) = x ∷ slice zero n xs
slice (suc i) n [] = []
slice (suc i) n (x ∷ xs) = slice i n xs

abbrev pub batch_size : ℕ
batch_size = 20

-- `for i in range(0, len(signatures), batch_size)`, with the rounds that are left; `gather` keeps
-- the order of its tasks.
unfoldable pub fetch_batches : {A B : Type 0} → (A → B) → List A → ℕ → ℕ → List B
unfolding slice
fetch_batches get signatures zero i = []
fetch_batches get signatures (suc left) i =
    map get (slice i batch_size signatures) ++ fetch_batches get signatures left (i + batch_size)

-- `len(range(0, n, batch_size))`
abbrev pub batch_count : ℕ → ℕ
batch_count n = (n + (batch_size - 1)) / batch_size

unfoldable pub get_transactions : {A B : Type 0} → (A → B) → List A → List B
unfolding fetch_batches
get_transactions get signatures = fetch_batches get signatures (batch_count (length signatures)) 0
