-- ===== src/Tests/Perception.antt =====
-- One collection, whose score comes with a webhook.
use traitkeeper_eco.Base.{
  ◌≡◌, refl, ◌⊎◌, ℤ, pos, true, false, none, some, List, [], ◌∷◌, ok, Text, codes, same_text,
  has_text, arith,
}
use traitkeeper_eco.Perception.{
  EntityType, Snapshot, LogStatus, Field, Stamp, PerceptionData, Payload, Headers, Surroundings,
  State,
}
use traitkeeper_eco.Perception.Calls.{
  Valid, logged, authenticate_webhook, validate_payload, create_perception_snapshot, resolve_entity,
  store_perception, process_webhook, process_perception_graph, process_nodes, process_edges,
  put_node, has_node, adjusted, get_perception_index,
}
use traitkeeper_eco.Perception.Webhooks.{
  AreLogged, Stored, forged_webhook_is_refused, webhook_adds_at_most_one_snapshot,
}
use traitkeeper_eco.Perception.Fresh.{webhook_refreshes_score}
use traitkeeper_eco.Tests.Stores.{Entry, list_cache, list_cache_lem}

abbrev id : Text
id = codes "DGds"

-- A signature is the secret alone here.
abbrev around : Surroundings
around = record {
  webhook_secret = some (codes "s3");
  stored_api_key = none;
  sign = λ secret payload. secret;
  collections = id ∷ [];
  nfts = [];
  traits = [];
  dev_mode = false;
  async_unsafe = true;
  cache_answers = true;
}

abbrev perceived : PerceptionData
perceived = record {
  perception_index = Field.value (pos 800_000);
  manipulation_probability = some (pos 900_000);
  timestamp = Stamp.at 70;
  perception_graph_id = some (codes "g1");
}

abbrev payload : Payload
payload = record {
  entity_type = Field.value EntityType.collection;
  entity_id = some id;
  perception_data = Field.value perceived;
  perception_graph = some (record {
    nodes = some (codes "a") ∷ some (codes "b") ∷ [];
    edges = (some (codes "a"), some (codes "b")) ∷ [];
  });
}

abbrev signed : Headers
signed = record { signature = some (codes "s3"); api_key = none }

abbrev forged : Headers
forged = record { signature = some (codes "s4"); api_key = none }

abbrev older : Snapshot
older = record {
  entity_type = EntityType.collection;
  entity_id = id;
  perception_index = 300_000;
  manipulation_probability = none;
  timestamp = 60;
}

abbrev before : State (List (Entry ℤ))
before = record { snapshots = older ∷ []; logs = []; nodes = []; edges = []; cache = [] }

abbrev newer : Snapshot
newer = record {
  entity_type = EntityType.collection;
  entity_id = id;
  perception_index = 800_000;
  manipulation_probability = some (pos 900_000);
  timestamp = 70;
}

abbrev checked : Valid
checked = record {
  entity_type = EntityType.collection;
  entity_id = id;
  perception_data = perceived;
  perception_index = 800_000;
}

forged_webhook_is_refused_example :
    process_webhook list_cache around 80 payload forged before
    ≡ (some false, logged LogStatus.auth_error before)
unfolding same_text
forged_webhook_is_refused_example =
    forged_webhook_is_refused list_cache around 80 payload forged before refl
      (λ e. ground (arith, e)) (λ e. ground (arith, e))

answered : (process_webhook list_cache around 80 payload signed before).0 ≡ some true
unfolding process_webhook authenticate_webhook validate_payload resolve_entity store_perception
    create_perception_snapshot process_perception_graph process_nodes process_edges put_node
    has_node same_text has_text
answered = refl

webhook_adds_at_most_one_snapshot_example :
    AreLogged list_cache around []
      (process_webhook list_cache around 80 payload signed before).1.logs
    × (((process_webhook list_cache around 80 payload signed before).1.snapshots ≡ older ∷ [])
        ⊎ Stored list_cache around payload signed
            (older ∷ [])
            (process_webhook list_cache around 80 payload signed before).1.snapshots)
webhook_adds_at_most_one_snapshot_example =
    webhook_adds_at_most_one_snapshot list_cache around 80 payload signed before true answered

webhook_refreshes_score_example :
    (get_perception_index list_cache true true 81 EntityType.collection id
      (process_webhook list_cache around 80 payload signed before).1).0
    ≡ ok (adjusted newer)
unfolding validate_payload create_perception_snapshot
webhook_refreshes_score_example =
    webhook_refreshes_score list_cache list_cache_lem around 80 81 payload signed before checked
      newer refl refl (λ same. omega arith, tt) answered
