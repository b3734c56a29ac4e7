-- ===== src/Perception/Webhooks.antt =====
-- What a webhook to ParallelLinesIntegrationService may change.
use traitkeeper_eco.Base.{
  ℕ, ◌≤◌, ◌≡◌, ◌≢◌, refl, ◌∙◌, ℤ, Bool, true, false, Option, none, some, List, [], ◌∷◌, ◌++◌, ok,
  Text, arith, Bool-cases, Result-cases, ◌⊎◌, inl, inr,
}
use mathlib.Core.Path.{subst⁻¹}
use traitkeeper_eco.Core.Cache.{LocalCache}
use traitkeeper_eco.Perception.{
  EntityType, Snapshot, LogStatus, PerceptionData, Payload, Headers, Surroundings, State, GraphData,
  million,
}
use traitkeeper_eco.Perception.Calls.{
  Valid, Validation, authenticate_webhook, validate_payload, validate_index, resolve_entity,
  create_perception_snapshot, process_perception_graph, graph_if_any, store_perception,
  process_webhook, compared, expected_signature, logged,
}

module _ {L : Type 0} (c : LocalCache L ℤ) where
  -- Without the development mode, a webhook whose headers have neither the signature that the secret
  -- gives for its payload nor the stored key is refused: nothing changes but the log, where the
  -- failed authentication is noted.
  pub forged_webhook_is_refused :
      (e : Surroundings) (now : ℕ) (payload : Payload) (headers : Headers) (s : State L)
      → e.dev_mode ≡ false
      → compared headers.signature (expected_signature e payload) ≢ some true
      → compared headers.api_key e.stored_api_key ≢ some true
      → process_webhook c e now payload headers s ≡ (some false, logged LogStatus.auth_error s)
  unfolding process_webhook
  forged_webhook_is_refused e now payload headers s dev no_signature no_key =
      ground (arith, dev, no_signature, no_key)

  -- The new row of a snapshot.
  abbrev pub Stored : Surroundings → Payload → Headers → List Snapshot → List Snapshot → Type 0
  Stored e payload headers before after =
      (x : Snapshot) × (after ≡ before ++ x ∷ [])
      × (authenticate_webhook e payload headers ≡ true)
      × (x.perception_index ≤ million)
      × (resolve_entity e x.entity_type x.entity_id ≡ true)
      × (x.entity_type ≢ EntityType.trait)
      × (e.async_unsafe ≡ true)

  pub graph_keeps_snapshots :
      (o : Option GraphData) (g : Option Text) (s : State L)
      → ((graph_if_any c o g s).1.snapshots ≡ s.snapshots)
        × ((graph_if_any c o g s).1.logs ≡ s.logs)
  unfolding process_perception_graph
  graph_keeps_snapshots none g s = (refl, refl)
  graph_keeps_snapshots (some graph) g s = (ground arith, ground arith)

  cong_resolve :
      (e : Surroundings) {t u : EntityType} {i j : Text}
      → t ≡ u
      → i ≡ j
      → resolve_entity e t i ≡ resolve_entity e u j
  cong_resolve e p q = cc

  valid_index :
      (t : EntityType) (id : Text) (d : PerceptionData) (v : Valid)
      → validate_index t id d ≡ Validation.valid v
      → v.perception_index ≤ million
  valid_index t id d v h = ground (arith, h)

  valid_payload :
      (p : Payload) (v : Valid)
      → validate_payload p ≡ Validation.valid v
      → v.perception_index ≤ million
  unfolding validate_payload
  valid_payload p v h = ground (arith, h)

  -- The stored snapshot is the one that was made, and makes no trait's.
  pub made :
      (e : Surroundings) (now : ℕ) (v : Valid) (x : Snapshot)
      → create_perception_snapshot e now v ≡ ok x
      → (x.perception_index ≡ v.perception_index)
        × (x.entity_type ≡ v.entity_type)
        × (x.entity_id ≡ v.entity_id)
        × (x.entity_type ≢ EntityType.trait)
        × (e.async_unsafe ≡ true)
  unfolding create_perception_snapshot
  made e now v x h = ground (arith, h)

  abbrev pub with_snapshot : Snapshot → State L → State L
  with_snapshot x s = record s { snapshots = s.snapshots ++ x ∷ [] }

  -- One entry, or a success and a failure when Django's cache does not answer.
  abbrev pub AreLogged : Surroundings → List LogStatus → List LogStatus → Type 0
  AreLogged e before after =
      ((status : LogStatus) × (after ≡ before ++ status ∷ []))
      ⊎ ((e.cache_answers ≡ false)
          × (after ≡ before ++ LogStatus.success ∷ [] ++ LogStatus.failed ∷ []))

  -- What is stored and logged of a webhook that was let through.
  store_effect :
      (e : Surroundings) (now : ℕ) (v : Valid) (graph : Option GraphData) (s : State L)
      → AreLogged e s.logs (store_perception c e now v graph s).1.logs
        × (((store_perception c e now v graph s).1.snapshots ≡ s.snapshots)
            ⊎ ((x : Snapshot) × (create_perception_snapshot e now v ≡ ok x)
                × ((store_perception c e now v graph s).1.snapshots ≡ s.snapshots ++ x ∷ [])))
  unfolding store_perception
  store_effect e now v graph s = elim (Result-cases (create_perception_snapshot e now v)) [
    | inr (y, failed) ↦
        (inl (LogStatus.failed, ground (arith, failed)), inl (ground (arith, failed)))
    | inl (x, done) ↦
        elim (Result-cases
          (graph_if_any c graph v.perception_data.perception_graph_id (with_snapshot x s)).0) [
            | inl (b, linked) ↦ (
              elim (Bool-cases e.cache_answers) [
                | inl up ↦ inl (
                  LogStatus.success,
                  ground (
                    arith,
                    done,
                    linked,
                    up,
                    graph_keeps_snapshots graph v.perception_data.perception_graph_id
                        (with_snapshot x s),
                  ),
                )
                | inr down ↦ inr (
                  down,
                  ground (
                    arith,
                    done,
                    linked,
                    down,
                    graph_keeps_snapshots graph v.perception_data.perception_graph_id
                        (with_snapshot x s),
                  ),
                )
              ],
              inr (
                x,
                done,
                ground (
                  arith,
                  done,
                  linked,
                  graph_keeps_snapshots graph v.perception_data.perception_graph_id
                      (with_snapshot x s),
                ),
              ),
            )
            | inr (y, broken) ↦ (
              inl (
                LogStatus.failed,
                ground (
                  arith,
                  done,
                  broken,
                  graph_keeps_snapshots graph v.perception_data.perception_graph_id
                      (with_snapshot x s),
                ),
              ),
              inr (
                x,
                done,
                ground (
                  arith,
                  done,
                  broken,
                  graph_keeps_snapshots graph v.perception_data.perception_graph_id
                      (with_snapshot x s),
                ),
              ),
            )
          ]
  ]

  Validation-cases :
      (r : Validation)
      → ((v : Valid) × (r ≡ Validation.valid v))
        ⊎ ((r ≡ Validation.invalid) ⊎ (r ≡ Validation.raises))
  Validation-cases (Validation.valid v) = inl (v, refl)
  Validation-cases Validation.invalid = inr (inl refl)
  Validation-cases Validation.raises = inr (inr refl)

  -- The log grows as it should, and the snapshots by one row or none.
  abbrev Effect : Surroundings → Payload → Headers → State L → State L → Type 0
  Effect e payload headers s after =
      AreLogged e s.logs after.logs
      × ((after.snapshots ≡ s.snapshots) ⊎ Stored e payload headers s.snapshots after.snapshots)

  only_logged :
      (e : Surroundings) (payload : Payload) (headers : Headers) (s : State L) (status : LogStatus)
      → Effect e payload headers s (logged status s)
  only_logged e payload headers s status = (inl (status, refl), inl refl)

  store_outcome :
      (e : Surroundings) (now : ℕ) (payload : Payload) (headers : Headers) (s : State L) (v : Valid)
      → authenticate_webhook e payload headers ≡ true
      → validate_payload payload ≡ Validation.valid v
      → resolve_entity e v.entity_type v.entity_id ≡ true
      → Effect e payload headers s (store_perception c e now v payload.perception_graph s).1
  store_outcome e now payload headers s v up checked known = (
    (store_effect e now v payload.perception_graph s).0,
    elim (store_effect e now v payload.perception_graph s).1 [
      | inl same ↦ inl same
      | inr (x, done, added) ↦ inr (
        x,
        added,
        up,
        omega (arith, (made e now v x done).0, valid_payload payload v checked),
        cong_resolve e (made e now v x done).1 (made e now v x done).2 ∙ known,
        (made e now v x done).3,
        (made e now v x done).4,
      )
    ],
  )

  same_outcome :
      (e : Surroundings) (now : ℕ) (payload : Payload) (headers : Headers) (s after : State L)
      → (process_webhook c e now payload headers s).1 ≡ after
      → Effect e payload headers s after
      → Effect e payload headers s (process_webhook c e now payload headers s).1
  same_outcome e now payload headers s after same h = subst⁻¹ (Effect e payload headers s) same h

  -- Every webhook that is answered is logged once, or as a success and then as a failure when Django's
  -- cache does not answer, and changes the snapshots at most by one row at the end, which is there only when the webhook was authenticated, its index is between zero and
  -- one, its entity is known and is no trait, and the process allows a blocking connection in an
  -- event loop: the snapshots of traits are never stored, and without that setting none is.
  pub webhook_adds_at_most_one_snapshot :
      (e : Surroundings) (now : ℕ) (payload : Payload) (headers : Headers) (s : State L)
      (answer : Bool)
      → (process_webhook c e now payload headers s).0 ≡ some answer
      → AreLogged e s.logs (process_webhook c e now payload headers s).1.logs
        × (((process_webhook c e now payload headers s).1.snapshots ≡ s.snapshots)
            ⊎ Stored e payload headers s.snapshots
                (process_webhook c e now payload headers s).1.snapshots)
  unfolding process_webhook
  webhook_adds_at_most_one_snapshot e now payload headers s answer h =
      elim (Bool-cases (authenticate_webhook e payload headers)) [
        | inr down ↦
            same_outcome e now payload headers s (logged LogStatus.auth_error s)
              (ground (arith, down)) (only_logged e payload headers s LogStatus.auth_error)
        | inl up ↦ elim (Validation-cases (validate_payload payload)) [
          | inr (inr raised) ↦ absurd (ground (arith, up, raised, h))
          | inr (inl bad) ↦
              same_outcome e now payload headers s (logged LogStatus.validation_error s)
                (ground (arith, up, bad))
                (only_logged e payload headers s LogStatus.validation_error)
          | inl (v, checked) ↦ elim (Bool-cases (resolve_entity e v.entity_type v.entity_id)) [
            | inr unknown ↦
                same_outcome e now payload headers s (logged LogStatus.failed s)
                  (ground (arith, up, checked, unknown))
                  (only_logged e payload headers s LogStatus.failed)
            | inl known ↦
                same_outcome e now payload headers s
                  ((store_perception c e now v payload.perception_graph s).1)
                  (ground (arith, up, checked, known))
                  (store_outcome e now payload headers s v up checked known)
          ]
        ]
      ]
