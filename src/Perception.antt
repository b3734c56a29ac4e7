-- ===== src/Perception.antt =====
-- ParallelLinesIntegrationService (marketplace/perception_service.py): the rows and the payload
-- of the webhooks that bring scores of perception, and what surrounds them.
pub mod Calls
pub mod Webhooks
pub mod Damping
pub mod Fresh
use traitkeeper_eco.Base.{
  ℕ, ◌+◌, ◌-◌, ◌*◌, ℤ, pos, negsuc, sub_ℕ, leb_ℤ, Bool, true, false, not, ◌&&◌, ◌||◌, Option, none,
  some, List, [], ◌∷◌, ◌++◌, Result, ok, err, Text, codes, same_text, has_text, leb, ltb, is_none,
  if◌then◌else◌,
}
use traitkeeper_eco.Core.Cache.{LocalCache}

pub data EntityType : Type 0 where
  collection nft trait : EntityType

abbrev pub same_type : EntityType → EntityType → Bool
same_type EntityType.collection EntityType.collection = true
same_type EntityType.nft EntityType.nft = true
same_type EntityType.trait EntityType.trait = true
same_type _ _ = false

-- Indices and probabilities are numbers of millionths.
abbrev pub million : ℕ
million = 1_000_000

pub record Snapshot : Type 0 where
  pub entity_type : EntityType
  pub entity_id : Text
  pub perception_index : ℕ
  pub manipulation_probability : Option ℤ
  pub timestamp : ℕ

-- The statuses that the service logs.
pub data LogStatus : Type 0 where
  success failed auth_error validation_error : LogStatus

pub record GraphNode : Type 0 where
  pub graph_id : Option Text
  pub node_id : Text

pub record GraphEdge : Type 0 where
  pub graph_id : Option Text
  pub source_node : Text
  pub target_node : Text

-- An attribute of JSON that ought to be a number or an object: missing, something else (of an object,
-- null or a number, on which `in` raises), or that.
pub data Field (A : Type 0) : Type 0 where
  missing other : Field A
  value : A → Field A

-- A time stamp: absent, unreadable or read.
pub data Stamp : Type 0 where
  absent unreadable : Stamp
  at : ℕ → Stamp

-- The manipulation probability is the one in `submind`.
pub record PerceptionData : Type 0 where
  pub perception_index : Field ℤ
  pub manipulation_probability : Option ℤ
  pub timestamp : Stamp
  pub perception_graph_id : Option Text

-- The ids of the nodes and the ends of the edges, none where the key is missing.
pub record GraphData : Type 0 where
  pub nodes : List (Option Text)
  pub edges : List (Option Text × Option Text)

pub record Payload : Type 0 where
  pub entity_type : Field EntityType
  pub entity_id : Option Text
  pub perception_data : Field PerceptionData
  pub perception_graph : Option GraphData

pub record Headers : Type 0 where
  pub signature : Option Text
  pub api_key : Option Text

-- The secrets that EncryptedSecret gives out, none where it raises, the signature that HMAC makes
-- of a payload, the ids of the entities, PARALLEL_LINES_DEV_MODE, whether the process runs with
-- DJANGO_ALLOW_ASYNC_UNSAFE, and whether Django's cache answers, which raises when its Redis is out.
pub record Surroundings : Type 0 where
  pub webhook_secret : Option Text
  pub stored_api_key : Option Text
  pub sign : Text → Payload → Text
  pub collections : List Text
  pub nfts : List Text
  pub traits : List Text
  pub dev_mode : Bool
  pub async_unsafe : Bool
  pub cache_answers : Bool

pub record State (L : Type 0) : Type 0 where
  pub snapshots : List Snapshot
  pub logs : List LogStatus
  pub nodes : List GraphNode
  pub edges : List GraphEdge
  pub cache : L

pub data Failure : Type 0 where
  type_error value_error key_error not_found field_error synchronous_only cache_error : Failure
