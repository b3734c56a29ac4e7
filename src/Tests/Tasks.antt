-- ===== src/Tests/Tasks.antt =====
-- A manager of background tasks.
use traitkeeper_eco.Base.{ℕ, ◌+◌, ◌≤◌, ◌≡◌, refl, true, false, List, [], ◌∷◌, Text, codes}
use traitkeeper_eco.Indexer.Tasks.{
  Task, TaskPriority, TaskQueues, Manager, Run, Parsed, get_next_task, worker_round, new_task,
  collection_indexing, run_collection_indexing,
}
use traitkeeper_eco.Indexer.Tasks.Next.{IsNext, get_next_task-IsNext}
use traitkeeper_eco.Indexer.Tasks.Effort.{
  total, sum, retry, round_accounts_for_every_task, rounds, effort, executions_are_bounded,
}
use traitkeeper_eco.Indexer.Tasks.Events.{IsUnmarked}
use traitkeeper_eco.Tests.Stores.{read}
use traitkeeper_eco.Tests.Caches.{manager, empty}

-- A medium task that is due waits behind one that is not.
abbrev queues : TaskQueues
queues = record {
  low = [];
  medium =
      new_task (codes "later") TaskPriority.medium 900
      ∷ new_task (codes "now") TaskPriority.medium 0
      ∷ [];
  high = collection_indexing 100 ∷ [];
  critical = [];
}

get_next_task-IsNext_example : IsNext 100 queues (get_next_task 100 queues)
get_next_task-IsNext_example = get_next_task-IsNext 100 queues

abbrev working : Manager
working = record {
  task_queues = queues;
  task_history = [];
  is_running = true;
  real_time_enabled = false;
  worker_threads = 3;
}

abbrev failing : Task → Run
failing t = run_collection_indexing 100 true

round_accounts_for_every_task_example :
    total (λ t. t.retry_count + 1) working.task_queues
      + sum (λ t. t.retry_count + 1) (failing (collection_indexing 100)).added
      + retry
          (λ t. t.retry_count + 1)
          100
          (failing (collection_indexing 100))
          (collection_indexing 100)
    ≡ 1 + total (λ t. t.retry_count + 1) (worker_round 100 failing working).task_queues
unfolding get_next_task
round_accounts_for_every_task_example =
    round_accounts_for_every_task (λ t. t.retry_count + 1) 100 failing (collection_indexing 100)
      working refl

abbrev only_raises : Task → Run
only_raises t = record { added = []; raises = true }

abbrev two_rounds : List (ℕ × (Task → Run))
two_rounds = (100, only_raises) ∷ (5000, only_raises) ∷ []

executions_are_bounded_example :
    (rounds two_rounds working).0 + total effort (rounds two_rounds working).1.task_queues
    ≤ total effort queues
executions_are_bounded_example =
    executions_are_bounded two_rounds working ((λ t. refl), ((λ t. refl), tt))

abbrev signature : Text
signature = codes "5sig"

abbrev parser : Text → Parsed
parser e = Parsed.stored

empty-IsUnmarked : IsUnmarked manager (λ n. true) parser signature empty
unfolding read
empty-IsUnmarked t = (refl, refl)
