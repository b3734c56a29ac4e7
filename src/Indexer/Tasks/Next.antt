-- ===== src/Indexer/Tasks/Next.antt =====
-- Which task `_get_next_task` of BackgroundTaskManager takes.
use traitkeeper_eco.Base.{
  ℕ, ◌≤◌, ◌<◌, ◌≡◌, refl, Option, none, some, List, [], ◌∷◌, arith, leb, Bool-cases, ◌⊎◌, inl, inr,
}
use mathlib.Core.Path.{subst⁻¹}
use traitkeeper_eco.Indexer.Tasks.{
  Task, TaskQueues, TaskPriority, value, queue, set_queue, due_head, or_next, get_next_task,
}

-- The queue is empty, or its head is not due.
abbrev pub IsWaiting : ℕ → List Task → Type 0
IsWaiting now [] = Unit
IsWaiting now (t ∷ ts) = now < t.scheduled_for

-- A due head of a queue such that those above it wait, with the queue taken off.
abbrev pub IsNext : ℕ → TaskQueues → Option Task × TaskQueues → Type 0
IsNext now q (none, after) = (after ≡ q) × ((p : TaskPriority) → IsWaiting now (queue p q))
IsNext now q (some t, after) =
    (p : TaskPriority) × (ts : List Task) × (queue p q ≡ t ∷ ts)
    × (t.scheduled_for ≤ now)
    × (after ≡ set_queue p ts q)
    × ((r : TaskPriority) → value p < value r → IsWaiting now (queue r q))

due_head-cases :
    (now : ℕ) (ts : List Task)
    → ((due_head now ts ≡ none) × IsWaiting now ts)
      ⊎ ((t : Task) × (rest : List Task) × (due_head now ts ≡ some (t, rest))
          × (ts ≡ t ∷ rest)
          × (t.scheduled_for ≤ now))
unfolding due_head
due_head-cases now [] = inl (refl, tt)
due_head-cases now (t ∷ ts) = elim (Bool-cases (leb t.scheduled_for now)) [
  | inl due ↦ inr (t, ts, ground (arith, due), refl, ground (arith, due))
  | inr later ↦ inl (ground (arith, later), ground (arith, later))
]

-- The priorities above each.
module _ (W : TaskPriority → Type 0) where
  above_critical : (r : TaskPriority) → value TaskPriority.critical < value r → W r
  unfolding value
  above_critical TaskPriority.low h = absurd (omega arith)
  above_critical TaskPriority.medium h = absurd (omega arith)
  above_critical TaskPriority.high h = absurd (omega arith)
  above_critical TaskPriority.critical h = absurd (omega arith)

  above_high :
      W TaskPriority.critical → (r : TaskPriority) → value TaskPriority.high < value r → W r
  unfolding value
  above_high c TaskPriority.low h = absurd (omega arith)
  above_high c TaskPriority.medium h = absurd (omega arith)
  above_high c TaskPriority.high h = absurd (omega arith)
  above_high c TaskPriority.critical h = c

  above_medium :
      W TaskPriority.critical
      → W TaskPriority.high
      → (r : TaskPriority) → value TaskPriority.medium < value r
      → W r
  unfolding value
  above_medium c h TaskPriority.low l = absurd (omega arith)
  above_medium c h TaskPriority.medium l = absurd (omega arith)
  above_medium c h TaskPriority.high l = h
  above_medium c h TaskPriority.critical l = c

  above_low :
      W TaskPriority.critical
      → W TaskPriority.high
      → W TaskPriority.medium
      → (r : TaskPriority) → value TaskPriority.low < value r
      → W r
  unfolding value
  above_low c h m TaskPriority.low l = absurd (omega arith)
  above_low c h m TaskPriority.medium l = m
  above_low c h m TaskPriority.high l = h
  above_low c h m TaskPriority.critical l = c

  all_priorities :
      W TaskPriority.critical
      → W TaskPriority.high
      → W TaskPriority.medium
      → W TaskPriority.low
      → (r : TaskPriority) → W r
  all_priorities c h m l TaskPriority.low = l
  all_priorities c h m l TaskPriority.medium = m
  all_priorities c h m l TaskPriority.high = h
  all_priorities c h m l TaskPriority.critical = c

module _ (now : ℕ) (q : TaskQueues) where
  abbrev Waits : TaskPriority → Type 0
  Waits p = IsWaiting now (queue p q)

  -- One round of the loop: the queue's head is next, or the rest of the loop tells.
  or_next-IsNext :
      (p : TaskPriority) (rest : Option Task × TaskQueues)
      → ((r : TaskPriority) → value p < value r → Waits r)
      → (Waits p → IsNext now q rest)
      → IsNext now q (or_next now p q rest)
  or_next-IsNext p rest above later = elim (due_head-cases now (queue p q)) [
    | inl (none_due, waits) ↦ subst⁻¹ (IsNext now q) (ground (arith, none_due)) (later waits)
    | inr (t, ts, found, e, due) ↦
        subst⁻¹ (IsNext now q) {y = (some t, set_queue p ts q)} (ground (arith, found))
          (p, ts, e, due, refl, above)
  ]

-- The task that is taken is the head of a queue, is due, and every queue of a higher priority is
-- empty or has a head that is not due; the task is removed and nothing else changes. No task is
-- taken only when every queue is empty or has a head that is not due.
pub get_next_task-IsNext : (now : ℕ) (q : TaskQueues) → IsNext now q (get_next_task now q)
unfolding get_next_task
get_next_task-IsNext now q =
    or_next-IsNext now q TaskPriority.critical _ (above_critical (Waits now q)) λ c.
      or_next-IsNext now q TaskPriority.high _ (above_high (Waits now q) c) λ h.
        or_next-IsNext now q TaskPriority.medium _ (above_medium (Waits now q) c h) λ m.
          or_next-IsNext now q TaskPriority.low _ (above_low (Waits now q) c h m)
            λ l. (refl, all_priorities (Waits now q) c h m l)
