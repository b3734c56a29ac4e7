-- ===== src/Indexer/Tasks/Events.antt =====
-- Live events that are delivered more than once to BackgroundTaskManager.
use traitkeeper_eco.Base.{
  ℕ, ◌≡◌, ap, ◌∙◌, Bool, none, some, List, [], ◌∷◌, ◌++◌, Result, err, Text, map, arith,
}
use mathlib.Core.Path.{sym}
use mathlib.Core.List.{append_assoc, append-nil}
use traitkeeper_eco.Core.Cache.{CacheManager, Caches, Reach, get}
use traitkeeper_eco.Indexer.Tasks.{Failure, Parsed, process_event_once, event_key}

module _ {L R V J : Type 0} (m : CacheManager L R V J) (truthy : V → Bool) (parse : Text → Parsed)
    (id : Text) where
  -- One delivery: the result, and the caches and the log after it.
  abbrev outcome :
      ℕ → Reach → Caches L R × List Text → Result Failure Bool × (Caches L R × List Text)
  outcome now reach s =
      let (result, w, log) = process_event_once m truthy now reach parse (some id) s in
      (result, (w, log))

  -- The deliveries of one event, at their times.
  unfoldable pub deliver : List (ℕ × Reach) → Caches L R × List Text → Caches L R × List Text
  unfolding process_event_once
  deliver [] s = s
  deliver ((now, reach) ∷ later) s =
      let (result, after) = outcome now reach s in deliver later after

  -- No cache ever has the event's key.
  abbrev pub IsUnmarked : Caches L R → Type 0
  IsUnmarked w =
      (t : ℕ)
      → (m.local.get t (event_key m id) w.local ≡ none)
        × (m.redis.get t (event_key m id) w.remote ≡ none)

  nothing_found :
      (t : ℕ) (reach : Reach) (w : Caches L R)
      → IsUnmarked w
      → get m t reach (event_key m id) w ≡ (none, w)
  unfolding get
  nothing_found t reach w h = ground (arith, (h t).0, (h t).1)

  delivered :
      (t : ℕ) (reach : Reach) (w : Caches L R) (log : List Text)
      → IsUnmarked w
      → ((process_event_once m truthy t reach parse (some id) (w, log)).1 ≡ w)
        × ((process_event_once m truthy t reach parse (some id) (w, log)).2 ≡ log ++ id ∷ [])
  unfolding process_event_once
  delivered t reach w log h = ground (arith, nothing_found t reach w h)

  raised :
      (t : ℕ) (reach : Reach) (w : Caches L R) (log : List Text)
      → IsUnmarked w
      → parse id ≡ Parsed.stored
      → (process_event_once m truthy t reach parse (some id) (w, log)).0 ≡ err Failure.type_error
  unfolding process_event_once
  raised t reach w log h done = ground (arith, nothing_found t reach w h, done)

  delivered_all :
      (ds : List (ℕ × Reach)) (w : Caches L R) (log : List Text)
      → IsUnmarked w
      → deliver ds (w, log) ≡ (w, log ++ map (λ _. id) ds)
  unfolding deliver
  delivered_all [] w log h = ap (λ xs. (w, xs)) (sym (append-nil log))
  delivered_all ((t, reach) ∷ ds) w log h =
      ap (λ x. deliver ds (x, (process_event_once m truthy t reach parse (some id) (w, log)).2))
        (delivered t reach w log h).0
      ∙ ap (λ x. deliver ds (w, x)) (delivered t reach w log h).1
      ∙ delivered_all ds w (log ++ id ∷ []) h
      ∙ ap (λ xs. (w, xs)) (append_assoc log (id ∷ []) (map (λ _. id) ds))

  -- An event that no cache has marked is given to the parser at each of its deliveries, however many
  -- there are, and none of them marks it; each delivery after which it is stored raises TypeError.
  pub events_are_parsed_at_every_delivery :
      (ds : List (ℕ × Reach)) (w : Caches L R) (log : List Text)
      → IsUnmarked w
      → (deliver ds (w, log) ≡ (w, log ++ map (λ _. id) ds))
        × ((t : ℕ) (reach : Reach)
            → parse id ≡ Parsed.stored
            → (process_event_once m truthy t reach parse (some id) (deliver ds (w, log))).0
              ≡ err Failure.type_error)
  events_are_parsed_at_every_delivery ds w log h = (
    delivered_all ds w log h,
    λ t reach done.
        ap (λ s. (process_event_once m truthy t reach parse (some id) s).0)
          (delivered_all ds w log h)
        ∙ raised t reach w (log ++ map (λ _. id) ds) h done,
  )
