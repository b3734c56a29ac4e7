-- ===== src/Indexer/Tasks/Effort.antt =====
-- How many tasks BackgroundTaskManager still has to run.
use traitkeeper_eco.Base.{
  ℕ, ◌+◌, ◌-◌, ◌≤◌, ◌<◌, ◌≡◌, refl, ap, true, Option, none, some, List, [], ◌∷◌, ◌++◌, arith, ltb,
  length, Option-cases, Bool-cases, ◌⊎◌, inl, inr, if◌then◌else◌,
}
use traitkeeper_eco.Indexer.Tasks.{
  Task, TaskQueues, TaskPriority, Manager, Run, queue, set_queue, get_next_task, add_task,
  add_tasks, execute_task, worker_round, total_pending_tasks, retried, run_collection_indexing,
  run_failed_transaction_retry,
}
use traitkeeper_eco.Indexer.Tasks.Next.{IsNext, get_next_task-IsNext}

module _ (f : Task → ℕ) where
  abbrev pub sum : List Task → ℕ
  sum [] = 0
  sum (t ∷ ts) = f t + sum ts

  -- A measure of tasks, added up over the queues.
  abbrev pub total : TaskQueues → ℕ
  total q = sum q.low + sum q.medium + sum q.high + sum q.critical

  sum-append : (ts : List Task) (t : Task) → sum (ts ++ t ∷ []) ≡ sum ts + f t
  sum-append [] t = omega arith
  sum-append (x ∷ ts) t = omega (arith, sum-append ts t)

  total-set_queue :
      (p : TaskPriority) (ts : List Task) (q : TaskQueues)
      → total (set_queue p ts q) + sum (queue p q) ≡ total q + sum ts
  total-set_queue TaskPriority.low ts q = omega arith
  total-set_queue TaskPriority.medium ts q = omega arith
  total-set_queue TaskPriority.high ts q = omega arith
  total-set_queue TaskPriority.critical ts q = omega arith

  total-add_task : (t : Task) (q : TaskQueues) → total (add_task t q) ≡ total q + f t
  unfolding add_task
  total-add_task t q = omega (
    arith,
    total-set_queue t.priority (queue t.priority q ++ t ∷ []) q,
    sum-append (queue t.priority q) t,
  )

  total-add_tasks : (ts : List Task) (q : TaskQueues) → total (add_tasks ts q) ≡ total q + sum ts
  unfolding add_tasks
  total-add_tasks [] q = omega arith
  total-add_tasks (t ∷ ts) q = omega (arith, total-add_tasks ts (add_task t q), total-add_task t q)

  taken :
      (now : ℕ) (q : TaskQueues) (o : Option Task) (after : TaskQueues) (t : Task)
      → IsNext now q (o, after)
      → o ≡ some t
      → total after + f t ≡ total q
  taken now q none after t next e = ground (arith, e)
  taken now q (some u) after t (p, ts, head, due, popped, above) e =
      ground (arith, ap total popped, ap f same, total-set_queue p ts q, ap sum head)
    where
      same : u ≡ t
      same = ground (arith, e)

  -- The task that is taken leaves the queues, and nothing else does.
  pub total-get_next_task :
      (now : ℕ) (q : TaskQueues) (t : Task)
      → (get_next_task now q).0 ≡ some t
      → total (get_next_task now q).1 + f t ≡ total q
  total-get_next_task now q t e =
      taken now q (get_next_task now q).0 (get_next_task now q).1 t (get_next_task-IsNext now q) e

  -- What the retry of a task that raised is worth.
  abbrev pub retry : ℕ → Run → Task → ℕ
  retry now run t =
      if run.raises then (if ltb t.retry_count t.max_retries then f (retried now t) else 0) else 0

  total-execute_task :
      (now : ℕ) (run : Run) (t : Task) (a : Manager)
      → total (execute_task now run t a).task_queues
        ≡ total a.task_queues + sum run.added + retry now run t
  unfolding execute_task
  total-execute_task now run t a = elim (Bool-cases run.raises) [
    | inr fine ↦ ground (arith, fine, total-add_tasks run.added a.task_queues)
    | inl raised ↦ elim (Bool-cases (ltb t.retry_count t.max_retries)) [
      | inl again ↦ ground (
        arith,
        raised,
        again,
        total-add_tasks run.added a.task_queues,
        total-add_task (retried now t) (add_tasks run.added a.task_queues),
      )
      | inr spent ↦ ground (arith, raised, spent, total-add_tasks run.added a.task_queues)
    ]
  ]

  -- A round that takes a task executes it.
  round_executes :
      (now : ℕ) (runs : Task → Run) (t : Task) (a : Manager)
      → (get_next_task now a.task_queues).0 ≡ some t
      → worker_round now runs a
        ≡ execute_task now
            (runs t)
            t
            (record a { task_queues = (get_next_task now a.task_queues).1 })
  unfolding worker_round
  round_executes now runs t a e = ground (arith, e)

  -- No task is lost and none is made up: by any measure of tasks, what is queued before a round
  -- that takes a task, and what the task's function adds, is the task, its retry, and what is
  -- queued after the round. A task that raises is retried while its retries are below its maximum.
  pub round_accounts_for_every_task :
      (now : ℕ) (runs : Task → Run) (t : Task) (a : Manager)
      → (get_next_task now a.task_queues).0 ≡ some t
      → total a.task_queues + sum (runs t).added + retry now (runs t) t
        ≡ f t + total (worker_round now runs a).task_queues
  round_accounts_for_every_task now runs t a e = omega (
    arith,
    ap (λ b. total b.task_queues) (round_executes now runs t a e),
    total-execute_task now (runs t) t
        (record a { task_queues = (get_next_task now a.task_queues).1 }),
    total-get_next_task now a.task_queues t e,
  )

abbrev one : Task → ℕ
one t = 1

sum-one : (ts : List Task) → sum one ts ≡ length ts
sum-one [] = refl
sum-one (t ∷ ts) = omega (arith, sum-one ts)

total-one : (q : TaskQueues) → total one q ≡ total_pending_tasks q
unfolding total_pending_tasks
total-one q = omega (arith, sum-one q.low, sum-one q.medium, sum-one q.high, sum-one q.critical)

-- A run that adds one task and raises.
one_more :
    (now : ℕ) (runs : Task → Run) (t u : Task) (a : Manager)
    → (get_next_task now a.task_queues).0 ≡ some t
    → t.retry_count < t.max_retries
    → runs t ≡ record { added = u ∷ []; raises = true }
    → total_pending_tasks (worker_round now runs a).task_queues
      ≡ total_pending_tasks a.task_queues + 1
one_more now runs t u a e left job = ground (
  arith,
  total-one a.task_queues,
  total-one (worker_round now runs a).task_queues,
  round_accounts_for_every_task one now runs t a e,
  ap (λ r. sum one r.added) job,
  ap (λ r. r.raises) job,
)

-- A periodic job that raises, with retries left, leaves one more task queued than before it ran: its
-- next run and its retry.
pub failed_job_is_queued_twice :
    (now : ℕ) (runs : Task → Run) (t : Task) (a : Manager)
    → (get_next_task now a.task_queues).0 ≡ some t
    → t.retry_count < t.max_retries
    → (runs t ≡ run_collection_indexing now true) ⊎ (runs t ≡ run_failed_transaction_retry now true)
    → total_pending_tasks (worker_round now runs a).task_queues
      ≡ total_pending_tasks a.task_queues + 1
unfolding run_collection_indexing run_failed_transaction_retry
failed_job_is_queued_twice now runs t a e left (inl job) = one_more now runs t _ a e left job
failed_job_is_queued_twice now runs t a e left (inr job) = one_more now runs t _ a e left job

-- The runs that are still to come if every task keeps failing: one, and one for each retry left.
abbrev pub effort : Task → ℕ
effort t = t.max_retries - t.retry_count + 1

retry-lt : (now : ℕ) (run : Run) (t : Task) → retry effort now run t < effort t
retry-lt now run t = ground arith

idle :
    (now : ℕ) (runs : Task → Run) (a : Manager)
    → (get_next_task now a.task_queues).0 ≡ none
    → worker_round now runs a ≡ a
unfolding worker_round
idle now runs a h = ground (arith, h)

-- Rounds of workers at given times, with the number of tasks that they execute.
unfoldable pub rounds : List (ℕ × (Task → Run)) → Manager → ℕ × Manager
rounds [] a = (0, a)
rounds ((now, runs) ∷ later) a =
    let (n, b) = rounds later (worker_round now runs a) in
    (elim (get_next_task now a.task_queues).0 [ none ↦ n | some t ↦ n + 1 ], b)

-- No function adds a task.
abbrev pub AddNothing : List (ℕ × (Task → Run)) → Type 0
AddNothing [] = Unit
AddNothing ((now, runs) ∷ later) = ((t : Task) → (runs t).added ≡ []) × AddNothing later

-- Retries come to an end: when the tasks' functions add no tasks, the workers' rounds, however many
-- and at whatever times, execute no more tasks than one for each task that is queued and one for
-- each retry that it has left, whichever of the executions fail.
pub executions_are_bounded :
    (later : List (ℕ × (Task → Run))) (a : Manager)
    → AddNothing later
    → (rounds later a).0 + total effort (rounds later a).1.task_queues ≤ total effort a.task_queues
unfolding rounds
executions_are_bounded [] a h = omega arith
executions_are_bounded ((now, runs) ∷ later) a h =
    elim (Option-cases (get_next_task now a.task_queues).0) [
      | inl none_due ↦ ground (
        arith,
        none_due,
        ap (λ b. total effort b.task_queues) (idle now runs a none_due),
        executions_are_bounded later (worker_round now runs a) h.1,
      )
      | inr (t, e) ↦ ground (
        arith,
        e,
        executions_are_bounded later (worker_round now runs a) h.1,
        round_accounts_for_every_task effort now runs t a e,
        ap (sum effort) (h.0 t),
        retry-lt now (runs t) t,
      )
    ]
