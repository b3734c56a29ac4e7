-- ===== src/Indexer/Tasks.antt =====
-- BackgroundTaskManager (indexer/background_task_manager.py): queues of tasks by priority, the
-- workers that run them, and the handling of live events.
pub mod Next
pub mod Effort
pub mod Events
use traitkeeper_eco.Base.{
  ℕ, suc, ◌+◌, ◌*◌, Bool, true, false, Option, none, some, List, [], ◌∷◌, ◌++◌, Result, ok, err,
  Text, codes, leb, ltb, length, if◌then◌else◌,
}
use traitkeeper_eco.Core.Cache.{CacheManager, CacheType, Caches, Reach, get, get_key_with_prefix}

pub data TaskPriority : Type 0 where
  low medium high critical : TaskPriority

unfoldable pub value : TaskPriority → ℕ
value TaskPriority.low = 1
value TaskPriority.medium = 2
value TaskPriority.high = 3
value TaskPriority.critical = 4

-- `Task`; what it runs is told by its id. Times are seconds.
pub record Task : Type 0 where
  pub id : Text
  pub priority : TaskPriority
  pub retry_count : ℕ
  pub max_retries : ℕ
  pub scheduled_for : ℕ

pub record TaskQueues : Type 0 where
  pub low : List Task
  pub medium : List Task
  pub high : List Task
  pub critical : List Task

-- An entry of the history: the task's id, and whether it succeeded.
pub record Entry : Type 0 where
  pub id : Text
  pub success : Bool

pub record Manager : Type 0 where
  pub task_queues : TaskQueues
  pub task_history : List Entry
  pub is_running : Bool
  pub real_time_enabled : Bool
  pub worker_threads : ℕ

abbrev pub queue : TaskPriority → TaskQueues → List Task
queue TaskPriority.low q = q.low
queue TaskPriority.medium q = q.medium
queue TaskPriority.high q = q.high
queue TaskPriority.critical q = q.critical

abbrev pub set_queue : TaskPriority → List Task → TaskQueues → TaskQueues
set_queue TaskPriority.low ts q = record q { low = ts }
set_queue TaskPriority.medium ts q = record q { medium = ts }
set_queue TaskPriority.high ts q = record q { high = ts }
set_queue TaskPriority.critical ts q = record q { critical = ts }

-- `deque(maxlen=1000)`: an entry more drops the oldest.
unfoldable pub remember : Entry → List Entry → List Entry
remember e [] = e ∷ []
remember e (x ∷ xs) = if ltb (length (x ∷ xs)) 1000 then x ∷ (xs ++ e ∷ []) else xs ++ e ∷ []

unfoldable pub add_task : Task → TaskQueues → TaskQueues
add_task t q = set_queue t.priority (queue t.priority q ++ t ∷ []) q

unfoldable pub add_tasks : List Task → TaskQueues → TaskQueues
unfolding add_task
add_tasks [] q = q
add_tasks (t ∷ ts) q = add_tasks ts (add_task t q)

-- The head of a queue, when it is due.
unfoldable pub due_head : ℕ → List Task → Option (Task × List Task)
due_head now [] = none
due_head now (t ∷ ts) = if leb t.scheduled_for now then some (t, ts) else none

-- One round of the loop over the priorities, before the others.
abbrev pub or_next :
    ℕ → TaskPriority → TaskQueues → Option Task × TaskQueues → Option Task × TaskQueues
or_next now p q rest = elim (due_head now (queue p q)) [
  | some (t, ts) ↦ (some t, set_queue p ts q)
  | none ↦ rest
]

unfoldable pub get_next_task : ℕ → TaskQueues → Option Task × TaskQueues
unfolding due_head
get_next_task now q = or_next now TaskPriority.critical q (
    or_next now TaskPriority.high q
      (or_next now TaskPriority.medium q (or_next now TaskPriority.low q (none, q))))

-- What a task's function does: it adds tasks, and returns or raises.
pub record Run : Type 0 where
  pub added : List Task
  pub raises : Bool

abbrev pub minutes : ℕ → ℕ
minutes n = n * 60

-- The task as it is queued again.
abbrev pub retried : ℕ → Task → Task
retried now t = record t {
  retry_count = t.retry_count + 1;
  scheduled_for = now + minutes ((t.retry_count + 1) * 2);
}

unfoldable pub execute_task : ℕ → Run → Task → Manager → Manager
unfolding add_task add_tasks remember
execute_task now run t a =
    let q = add_tasks run.added a.task_queues in
    record a {
      task_history =
          remember (record { id = t.id; success = if run.raises then false else true })
            a.task_history;
      task_queues =
          if run.raises
          then (if ltb t.retry_count t.max_retries then add_task (retried now t) q else q)
          else q;
    }

-- A round of a worker's loop while the manager runs: `runs` is what the functions of tasks do.
unfoldable pub worker_round : ℕ → (Task → Run) → Manager → Manager
unfolding get_next_task execute_task
worker_round now runs a =
    let (next, q) = get_next_task now a.task_queues in
    elim next [ none ↦ a | some t ↦ execute_task now (runs t) t (record a { task_queues = q }) ]

unfoldable pub run_worker : ℕ → (Task → Run) → Manager → Manager
unfolding worker_round
run_worker now runs a = if a.is_running then worker_round now runs a else a

abbrev pub new_task : Text → TaskPriority → ℕ → Task
new_task id priority scheduled_for = record {
  id = id;
  priority = priority;
  retry_count = 0;
  max_retries = 3;
  scheduled_for = scheduled_for;
}

abbrev pub collection_indexing : ℕ → Task
collection_indexing t = new_task (codes "periodic_collection_indexing") TaskPriority.high t

abbrev pub failed_transaction_retry : ℕ → Task
failed_transaction_retry t = new_task (codes "failed_transaction_retry") TaskPriority.medium t

unfoldable pub schedule_periodic_tasks : ℕ → TaskQueues → TaskQueues
unfolding add_task
schedule_periodic_tasks now q =
    add_task (failed_transaction_retry (now + minutes 10)) (add_task (collection_indexing now) q)

-- `try … finally`: the next run is added whether the work raises or not.
unfoldable pub run_collection_indexing : ℕ → Bool → Run
run_collection_indexing now raises = record {
  added = collection_indexing (now + minutes 15) ∷ [];
  raises = raises;
}

unfoldable pub run_failed_transaction_retry : ℕ → Bool → Run
run_failed_transaction_retry now raises = record {
  added = failed_transaction_retry (now + minutes 30) ∷ [];
  raises = raises;
}

-- `crashes` tells whether the subscription raises.
unfoldable pub start_real_time : Bool → Manager → Manager
start_real_time crashes a =
    if a.real_time_enabled
    then a
    else record a { real_time_enabled = if crashes then false else true }

unfoldable pub start : ℕ → Bool → Manager → Manager
unfolding schedule_periodic_tasks start_real_time
start now crashes a =
    if a.is_running
    then a
    else start_real_time crashes (record a {
      is_running = true;
      worker_threads = a.worker_threads + 3;
      task_queues = schedule_periodic_tasks now a.task_queues;
    })

unfoldable pub stop : Manager → Manager
stop a = record a { is_running = false; real_time_enabled = false }

-- `total_pending_tasks` of `get_status`.
unfoldable pub total_pending_tasks : TaskQueues → ℕ
total_pending_tasks q = length q.low + length q.medium + length q.high + length q.critical

pub data Failure : Type 0 where
  type_error parser_error : Failure

-- What the parser makes of an event.
pub data Parsed : Type 0 where
  stored nothing raised : Parsed

abbrev pub event_key : {L R V J : Type 0} → CacheManager L R V J → Text → Text
event_key m event_id =
    get_key_with_prefix m.settings CacheType.global (codes "processed_event:" ++ event_id)

-- What comes after the parser: on an event that was stored, a call of `set` with an argument `ttl`
-- that CacheManager.set does not take, and without its `cache_type`.
abbrev after_parse : Parsed → Result Failure Bool
after_parse Parsed.stored = err type_error
after_parse Parsed.nothing = ok false
after_parse Parsed.raised = err parser_error

-- `_process_event_once`, with the log of the events that the parser was called on.
unfoldable pub process_event_once :
    {L R V J : Type 0}
    → CacheManager L R V J
    → (V → Bool)
    → ℕ
    → Reach
    → (Text → Parsed)
    → Option Text
    → Caches L R × List Text
    → Result Failure Bool × Caches L R × List Text
process_event_once m truthy now reach parse none (w, log) = (ok false, w, log)
process_event_once {L} {R} m truthy now reach parse (some event_id) (w, log) =
    let (found, w₁) = get m now reach (event_key m event_id) w in
    let parsed : Result Failure Bool × Caches L R × List Text =
      (after_parse (parse event_id), w₁, log ++ event_id ∷ []) in
    elim found [ none ↦ parsed | some v ↦ if truthy v then (ok true, w₁, log) else parsed ]
