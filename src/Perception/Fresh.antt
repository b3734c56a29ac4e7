-- ===== src/Perception/Fresh.antt =====
-- The score of an entity after a webhook.
use traitkeeper_eco.Base.{
  ℕ, ◌<◌, ◌≡◌, ◌≢◌, refl, ap, ◌∙◌, ℤ, Bool, true, ◌&&◌, Option, none, some, List, [], ◌∷◌, ◌++◌, ok,
  Text, same_text, same_text_iff, arith, All, Bool-cases, Result-cases, inl, inr,
}
use traitkeeper_eco.Core.Cache.{LocalCache}
use traitkeeper_eco.Core.Cache.Laws.{IsLocalCache}
use traitkeeper_eco.Perception.Webhooks.{graph_keeps_snapshots, with_snapshot, made}
use traitkeeper_eco.Perception.{
  EntityType, Snapshot, Payload, Headers, Surroundings, State, GraphData, same_type,
}
use traitkeeper_eco.Perception.Calls.{
  Valid, Validation, authenticate_webhook, validate_payload, resolve_entity,
  create_perception_snapshot, graph_if_any, store_perception, process_webhook, latest_snapshot,
  adjusted, get_perception_index, cache_key,
}

abbrev is_of : EntityType → Text → Snapshot → Bool
is_of t id r = same_type r.entity_type t && same_text r.entity_id id

-- The snapshot is later than all those of its entity.
abbrev pub IsNewest : Snapshot → List Snapshot → Type 0
IsNewest x rows =
    All (λ r. is_of x.entity_type x.entity_id r ≡ true → r.timestamp < x.timestamp) rows

same_type_refl : (t : EntityType) → same_type t t ≡ true
same_type_refl EntityType.collection = refl
same_type_refl EntityType.nft = refl
same_type_refl EntityType.trait = refl

latest_snapshot-append :
    (x : Snapshot) (rows : List Snapshot)
    → IsNewest x rows
    → latest_snapshot x.entity_type x.entity_id (rows ++ x ∷ []) ≡ some x
unfolding latest_snapshot
latest_snapshot-append x [] h =
    ground (arith, same_type_refl x.entity_type, same_text_iff x.entity_id x.entity_id)
latest_snapshot-append x (r ∷ rows) h = elim (Bool-cases (is_of x.entity_type x.entity_id r)) [
  | inl same ↦ ground (arith, latest_snapshot-append x rows h.1, same, h.0 same)
  | inr other ↦ ground (arith, latest_snapshot-append x rows h.1, other)
]

same_key : {t u : EntityType} {i j : Text} → t ≡ u → i ≡ j → cache_key t i ≡ cache_key u j
same_key {u} {i} p q = ap (λ x. cache_key x i) p ∙ ap (cache_key u) q

module _ {L : Type 0} (c : LocalCache L ℤ) (laws : IsLocalCache c) where
  -- A webhook that was stored and linked dropped the cached score.
  store_success :
      (e : Surroundings) (now : ℕ) (v : Valid) (graph : Option GraphData) (s : State L)
      (x : Snapshot)
      → create_perception_snapshot e now v ≡ ok x
      → (store_perception c e now v graph s).0 ≡ true
      → ((store_perception c e now v graph s).1.snapshots ≡ s.snapshots ++ x ∷ [])
        × ((t : ℕ)
            → c.get t
                (cache_key v.entity_type v.entity_id)
                (store_perception c e now v graph s).1.cache
              ≡ none)
  unfolding store_perception
  store_success e now v graph s x done h =
      elim (Result-cases
        (graph_if_any c graph v.perception_data.perception_graph_id (with_snapshot c x s)).0) [
          | inr (y, broken) ↦ absurd (ground (arith, done, broken, h))
          | inl (b, linked) ↦ (
            ground (
              arith,
              done,
              linked,
              h,
              graph_keeps_snapshots c graph v.perception_data.perception_graph_id
                  (with_snapshot c x s),
            ),
            λ t.
                ap (c.get t (cache_key v.entity_type v.entity_id)) (ground (arith, done, linked, h))
                ∙ laws.get-delete t (cache_key v.entity_type v.entity_id)
                    (graph_if_any c graph v.perception_data.perception_graph_id
                      (with_snapshot c x s)).1.cache,
          )
        ]

  -- With no cached score, the latest snapshot of an entity that is no trait tells the score.
  score_of_latest :
      (t : ℕ) (ty : EntityType) (id : Text) (s : State L) (x : Snapshot)
      → c.get t (cache_key ty id) s.cache ≡ none
      → ty ≢ EntityType.trait
      → latest_snapshot ty id s.snapshots ≡ some x
      → (get_perception_index c true true t ty id s).0 ≡ ok (adjusted x)
  unfolding get_perception_index
  score_of_latest t EntityType.collection id s x missing plain latest =
      ground (arith, missing, latest)
  score_of_latest t EntityType.nft id s x missing plain latest = ground (arith, missing, latest)
  score_of_latest t EntityType.trait id s x missing plain latest = absurd (plain refl)

  stored_by :
      (e : Surroundings) (now : ℕ) (payload : Payload) (headers : Headers) (s : State L) (v : Valid)
      → validate_payload payload ≡ Validation.valid v
      → (process_webhook c e now payload headers s).0 ≡ some true
      → (process_webhook c e now payload headers s
          ≡ (some true, (store_perception c e now v payload.perception_graph s).1))
        × ((store_perception c e now v payload.perception_graph s).0 ≡ true)
  unfolding process_webhook
  stored_by e now payload headers s v checked h =
      elim (Bool-cases (authenticate_webhook e payload headers)) [
        | inr down ↦ absurd (ground (arith, down, h))
        | inl up ↦ elim (Bool-cases (resolve_entity e v.entity_type v.entity_id)) [
          | inr unknown ↦ absurd (ground (arith, up, checked, unknown, h))
          | inl known ↦
              (ground (arith, up, checked, known, h), ground (arith, up, checked, known, h))
        ]
      ]

  -- After a webhook that succeeded, if its snapshot is later than all that are stored of its entity,
  -- the score of the entity is that of the snapshot at any time at which Django's cache answers,
  -- whatever was cached before.
  pub webhook_refreshes_score :
      (e : Surroundings) (now t : ℕ) (payload : Payload) (headers : Headers) (s : State L)
      (v : Valid) (x : Snapshot)
      → validate_payload payload ≡ Validation.valid v
      → create_perception_snapshot e now v ≡ ok x
      → IsNewest x s.snapshots
      → (process_webhook c e now payload headers s).0 ≡ some true
      → (get_perception_index c true true t x.entity_type x.entity_id
          (process_webhook c e now payload headers s).1).0
        ≡ ok (adjusted x)
  webhook_refreshes_score e now t payload headers s v x checked done newest h =
      score_of_latest t x.entity_type x.entity_id _ x gone (made c e now v x done).3 (
        ap (λ a. latest_snapshot x.entity_type x.entity_id a.1.snapshots)
          (stored_by e now payload headers s v checked h).0
        ∙ ap (latest_snapshot x.entity_type x.entity_id) effect.0
        ∙ latest_snapshot-append x s.snapshots newest)
    where
      effect :
          ((store_perception c e now v payload.perception_graph s).1.snapshots
            ≡ s.snapshots ++ x ∷ [])
          × ((t : ℕ)
              → c.get t
                  (cache_key v.entity_type v.entity_id)
                  (store_perception c e now v payload.perception_graph s).1.cache
                ≡ none)
      effect =
          store_success e now v payload.perception_graph s x done
            (stored_by e now payload headers s v checked h).1

      gone :
          c.get t
            (cache_key x.entity_type x.entity_id)
            (process_webhook c e now payload headers s).1.cache
          ≡ none
      gone =
          ap (λ a. c.get t (cache_key x.entity_type x.entity_id) a.1.cache)
            (stored_by e now payload headers s v checked h).0
          ∙ ap (λ k. c.get t k (store_perception c e now v payload.perception_graph s).1.cache)
              (same_key (made c e now v x done).1 (made c e now v x done).2)
          ∙ effect.1 t
