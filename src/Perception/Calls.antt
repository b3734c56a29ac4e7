-- ===== src/Perception/Calls.antt =====
-- The methods of ParallelLinesIntegrationService (marketplace/perception_service.py).
use traitkeeper_eco.Base.{
  ℕ, ◌+◌, ◌*◌, ℤ, pos, negsuc, sub_ℕ, Bool, true, false, ◌&&◌, ◌||◌, Option, none, some, List, [],
  ◌∷◌, ◌++◌, Result, ok, err, Text, codes, same_text, has_text, leb, ltb, if◌then◌else◌,
}
use traitkeeper_eco.Core.Cache.{LocalCache}
use traitkeeper_eco.Perception.{
  EntityType, Failure, Field, GraphData, GraphEdge, GraphNode, Headers, LogStatus, Payload,
  PerceptionData, Snapshot, Stamp, State, Surroundings, million, same_type,
}

-- What a check of a credential tells: nothing when the header is absent or the secret is not found.
abbrev pub compared : Option Text → Option Text → Option Bool
compared none _ = none
compared (some given) none = none
compared (some given) (some expected) = some (same_text given expected)

abbrev pub expected_signature : Surroundings → Payload → Option Text
expected_signature s payload = elim s.webhook_secret [
  | none ↦ none
  | some secret ↦ some (s.sign secret payload)
]

unfoldable pub authenticate_webhook : Surroundings → Payload → Headers → Bool
authenticate_webhook s payload headers =
    elim (compared headers.signature (expected_signature s payload)) [
      | some b ↦ b
      | none ↦ elim (compared headers.api_key s.stored_api_key) [ some b ↦ b | none ↦ s.dev_mode ]
    ]

-- What a valid payload holds.
pub record Valid : Type 0 where
  pub entity_type : EntityType
  pub entity_id : Text
  pub perception_data : PerceptionData
  pub perception_index : ℕ

pub data Validation : Type 0 where
  valid : Valid → Validation
  invalid : Validation
  raises : Validation

-- `isinstance(…, (int, float))` and `0 <= perception_index <= 1`
abbrev pub validate_index : EntityType → Text → PerceptionData → Validation
validate_index t id d = elim d.perception_index [
  | Field.missing ↦ Validation.invalid
  | Field.other ↦ Validation.invalid
  | Field.value i ↦ elim i [
    | negsuc n ↦ Validation.invalid
    | pos n ↦
        if leb n million
        then Validation.valid
            (record { entity_type = t; entity_id = id; perception_data = d; perception_index = n })
        else Validation.invalid
  ]
]

-- `'perception_index' not in perception_data` raises when that is no object.
abbrev pub validate_data : EntityType → Text → Field PerceptionData → Validation
validate_data t id Field.missing = Validation.invalid
validate_data t id Field.other = Validation.raises
validate_data t id (Field.value d) = validate_index t id d

unfoldable pub validate_payload : Payload → Validation
validate_payload p = elim p.entity_type [
  | Field.missing ↦ Validation.invalid
  | Field.other ↦ Validation.invalid
  | Field.value t ↦ elim p.entity_id [
    | none ↦ Validation.invalid
    | some id ↦ validate_data t id p.perception_data
  ]
]

unfoldable pub resolve_entity : Surroundings → EntityType → Text → Bool
resolve_entity s EntityType.collection id = has_text id s.collections
resolve_entity s EntityType.nft id = has_text id s.nfts
resolve_entity s EntityType.trait id = has_text id s.traits

-- `transaction.atomic` around a coroutine opens its block in the event loop, where Django refuses
-- to use a connection. The column of a snapshot is `trait_value`, and the keyword that is passed is
-- `trait`.
unfoldable pub create_perception_snapshot : Surroundings → ℕ → Valid → Result Failure Snapshot
create_perception_snapshot e now v =
    let snapshot : ℕ → Snapshot = λ t. record {
      entity_type = v.entity_type;
      entity_id = v.entity_id;
      perception_index = v.perception_index;
      manipulation_probability = v.perception_data.manipulation_probability;
      timestamp = t;
    } in
    let made : Result Failure Snapshot = elim v.perception_data.timestamp [
      | Stamp.unreadable ↦ err Failure.value_error
      | Stamp.absent ↦
          if same_type v.entity_type EntityType.trait
          then err Failure.type_error
          else ok (snapshot now)
      | Stamp.at t ↦
          if same_type v.entity_type EntityType.trait
          then err Failure.type_error
          else ok (snapshot t)
    ] in
    if e.async_unsafe then made else err Failure.synchronous_only

abbrev same_graph : Option Text → Option Text → Bool
same_graph none none = true
same_graph none (some h) = false
same_graph (some g) none = false
same_graph (some g) (some h) = same_text g h

-- `objects.get(graph_id=…, node_id=…)`; a graph without an id matches no row.
unfoldable pub has_node : Option Text → Text → List GraphNode → Bool
has_node none id ns = false
has_node (some g) id [] = false
has_node (some g) id (n ∷ ns) =
    let rest = has_node (some g) id ns in
    (same_graph n.graph_id (some g) && same_text n.node_id id) || rest

-- `update_or_create`
unfoldable pub put_node : Option Text → Text → List GraphNode → List GraphNode
unfolding has_node
put_node g id ns =
    if has_node g id ns then ns else ns ++ (record { graph_id = g; node_id = id } ∷ [])

unfoldable pub process_nodes :
    Option Text → List (Option Text) → List GraphNode → Result Failure Bool × List GraphNode
unfolding put_node
process_nodes g [] ns = (ok true, ns)
process_nodes g (none ∷ ids) ns = (err Failure.key_error, ns)
process_nodes g (some id ∷ ids) ns = process_nodes g ids (put_node g id ns)

unfoldable pub process_edges :
    Option Text
    → List GraphNode
    → List (Option Text × Option Text)
    → List GraphEdge
    → Result Failure Bool × List GraphEdge
unfolding has_node
process_edges g ns [] es = (ok true, es)
process_edges g ns ((none, target) ∷ more) es = (err Failure.key_error, es)
process_edges g ns ((some source, none) ∷ more) es =
    (if has_node g source ns then err Failure.key_error else err Failure.not_found, es)
process_edges g ns ((some source, some target) ∷ more) es =
    let edge : GraphEdge = record { graph_id = g; source_node = source; target_node = target } in
    let rest = process_edges g ns more (es ++ edge ∷ []) in
    if has_node g source ns && has_node g target ns then rest else (err Failure.not_found, es)

abbrev type_name : EntityType → Text
type_name EntityType.collection = codes "collection"
type_name EntityType.nft = codes "nft"
type_name EntityType.trait = codes "trait"

abbrev pub cache_key : EntityType → Text → Text
cache_key t id = codes "perception_index:" ++ (type_name t ++ (codes ":" ++ id))

-- `order_by('-timestamp').first()` of the entity's snapshots.
unfoldable pub latest_snapshot : EntityType → Text → List Snapshot → Option Snapshot
latest_snapshot t id [] = none
latest_snapshot t id (s ∷ rows) =
    let rest = latest_snapshot t id rows in
    if same_type s.entity_type t && same_text s.entity_id id
    then (elim rest [
      | none ↦ some s
      | some r ↦ if ltb s.timestamp r.timestamp then some r else some s
    ])
    else rest

-- Scores are multiples of 1 / (4 * million * million), in which the damped ones are whole.
abbrev pub one : ℕ
one = 4 * (million * million)

-- `p * (1 - m / 2) + 0.5 * (m / 2)`
abbrev pub damped : ℕ → ℕ → ℤ
damped p m = sub_ℕ (4 * (p * million) + m * million) (2 * (p * m))

-- The index, damped when the probability of manipulation is above 0.7.
unfoldable pub adjust : ℕ → Option ℤ → ℤ
adjust p none = pos (4 * (p * million))
adjust p (some (negsuc n)) = pos (4 * (p * million))
adjust p (some (pos m)) = if ltb 700_000 m then damped p m else pos (4 * (p * million))

unfoldable pub adjusted : Snapshot → ℤ
unfolding adjust
adjusted s = adjust s.perception_index s.manipulation_probability

abbrev default_perception_index : ℤ
default_perception_index = pos (2 * (million * million))

abbrev pub logged : {L : Type 0} → LogStatus → State L → State L
logged status s = record s { logs = s.logs ++ status ∷ [] }

module _ {L : Type 0} (c : LocalCache L ℤ) where
  unfoldable pub process_perception_graph :
      GraphData → Option Text → State L → Result Failure Bool × State L
  unfolding process_nodes process_edges
  process_perception_graph graph g s =
      let (done, ns) = process_nodes g graph.nodes s.nodes in
      let (linked, es) = process_edges g ns graph.edges s.edges in
      elim done [
        | err x ↦ (err x, record s { nodes = ns })
        | ok b ↦ (linked, record s { nodes = ns; edges = es })
      ]

  abbrev pub graph_if_any : Option GraphData → Option Text → State L → Result Failure Bool × State L
  graph_if_any none g s = (ok true, s)
  graph_if_any (some graph) g s = process_perception_graph graph g s

  -- The body of the `try` in `process_webhook`, from the creation of the snapshot on. The cached score
  -- is dropped after the success is logged, and a cache that does not answer leads to the handler.
  unfoldable pub store_perception :
      Surroundings → ℕ → Valid → Option GraphData → State L → Bool × State L
  unfolding process_perception_graph create_perception_snapshot
  store_perception e now v graph s = elim (create_perception_snapshot e now v) [
    | err x ↦ (false, logged LogStatus.failed s)
    | ok snapshot ↦
        let (linked, s₁) =
          graph_if_any graph v.perception_data.perception_graph_id
            (record s { snapshots = s.snapshots ++ snapshot ∷ [] }) in
        elim linked [
          | err x ↦ (false, logged LogStatus.failed s₁)
          | ok b ↦
              if e.cache_answers
              then (
                true,
                logged LogStatus.success
                    (record s₁ { cache = c.delete (cache_key v.entity_type v.entity_id) s₁.cache }),
              )
              else (false, logged LogStatus.failed (logged LogStatus.success s₁))
        ]
  ]

  -- The answer, none when an exception leaves the method.
  unfoldable pub process_webhook :
      Surroundings → ℕ → Payload → Headers → State L → Option Bool × State L
  unfolding authenticate_webhook validate_payload resolve_entity store_perception
  process_webhook e now payload headers s =
      let refused : Option Bool × State L = (some false, logged LogStatus.auth_error s) in
      let checked : Option Bool × State L = elim (validate_payload payload) [
        | Validation.raises ↦ (none, s)
        | Validation.invalid ↦ (some false, logged LogStatus.validation_error s)
        | Validation.valid v ↦
            let (answer, s₁) = store_perception e now v payload.perception_graph s in
            if resolve_entity e v.entity_type v.entity_id
            then (some answer, s₁)
            else (some false, logged LogStatus.failed s)
      ] in
      if authenticate_webhook e payload headers then checked else refused

  -- Without the cache the filter by an entity comes first; the model has no field `trait`.
  -- `cache_reads` and `cache_writes` tell whether Django's cache answers the one and the other.
  unfoldable pub get_perception_index :
      (cache_reads cache_writes : Bool)
      → ℕ
      → EntityType
      → Text
      → State L
      → Result Failure ℤ × State L
  unfolding latest_snapshot adjusted
  get_perception_index cache_reads cache_writes now t id s =
      let answered : Result Failure ℤ × State L = elim (c.get now (cache_key t id) s.cache) [
        | some index ↦ (ok index, s)
        | none ↦
            if same_type t EntityType.trait
            then (err Failure.field_error, s)
            else (elim (latest_snapshot t id s.snapshots) [
              | none ↦ (ok default_perception_index, s)
              | some row ↦
                  if cache_writes
                  then (
                    ok (adjusted row),
                    record s { cache = c.set now (cache_key t id) (adjusted row) 300 s.cache },
                  )
                  else (err Failure.cache_error, s)
            ])
      ] in
      if cache_reads then answered else (err Failure.cache_error, s)
