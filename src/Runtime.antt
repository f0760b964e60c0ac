-- ===== src/Runtime.antt =====
-- db/init/003-runtime-control-plane.sql: the tables of the runtime control plane, as the rows that
-- services/controller/src/worker.rs reads and writes. Columns that the schema restricts to given
-- words are data types, identifiers and instants are numbers, and a `bigint` or `integer` that the
-- schema keeps at 0 or above is a natural number. `now()`, `gen_random_uuid()`, the rows that other
-- transactions hold locked, the collation and the text that serde and Debug give a value are the
-- fields of `Env`, one for each statement or transaction.
use ctfdpp.Base.{ℕ, ◌+◌, Bool, true, false, Option, String, List, ◌∷◌, []}
use ctfdpp.Base.Json.{Value, Fields, field, end, object}
use ctfdpp.Remote.{RemoteServer}

pub data CommandStatus : Type 0 where
  pending claimed completed failed cancelled : CommandStatus

pub data CommandKind : Type 0 where
  start terminate extend inspect reconcile : CommandKind

pub data DesiredState : Type 0 where
  running stopped : DesiredState

pub data ObservedState : Type 0 where
  requested starting ready stopping cleanup_pending : ObservedState
  terminated expired observed_failed unknown : ObservedState

pub record Instance : Type 0 where
  pub id : ℕ
  pub owner_user_id : ℕ
  pub challenge_id : ℕ
  pub private_challenges_revision : ℕ
  pub challenge_runtime_revision : ℕ
  pub deployment_snapshot : Value
  pub active : Bool
  pub desired_state : DesiredState
  pub observed_state : ObservedState
  pub desired_expires_at : ℕ
  pub maximum_expires_at : ℕ
  pub observed_expires_at : Option ℕ
  pub expires_at : ℕ
  pub remote_server_id : Option ℕ
  pub remote_container_id : Option String
  pub remote_ip : Option String
  pub container_port : Option ℕ
  pub published_ip : Option String
  pub published_port : Option ℕ
  pub protocol : Option String
  pub public_hostname : Option String
  pub endpoint_url : Option String
  pub generation : ℕ
  pub observed_generation : ℕ
  pub created_at : ℕ
  pub activated_at : Option ℕ
  pub ready_at : Option ℕ
  pub last_observed_at : Option ℕ
  pub stopped_at : Option ℕ
  pub failure_code : Option String
  pub failure_message : Option String

pub record Command : Type 0 where
  pub id : ℕ
  pub instance_id : ℕ
  pub kind : CommandKind
  pub generation : ℕ
  pub setting_revision : ℕ
  pub challenge_runtime_revision : ℕ
  pub payload : Value
  pub status : CommandStatus
  pub requested_by_user_id : Option ℕ
  pub available_at : ℕ
  pub created_at : ℕ
  pub claimed_at : Option ℕ
  pub claim_token : Option ℕ
  pub completed_at : Option ℕ
  pub last_error : Option String
  pub attempts : ℕ

pub record Event : Type 0 where
  pub instance_id : ℕ
  pub event_type : String
  pub source : String
  pub actor_user_id : Option ℕ
  pub payload : Value

pub record ServerRow : Type 0 where
  pub server : RemoteServer
  pub open server use *
  pub enabled : Bool

pub record RuntimeConfig : Type 0 where
  pub challenge_id : ℕ
  pub enabled : Bool
  pub managed : Bool  -- runtime_mode = 'managed'
  pub revision : ℕ

-- The row of `runtime_settings` whose key is 'private_challenges'.
pub record RuntimeSetting : Type 0 where
  pub enabled : Bool
  pub revision : ℕ

pub record Db : Type 0 where
  pub instances : List Instance
  pub commands : List Command
  pub events : List Event
  pub servers : List ServerRow
  pub setting : Option RuntimeSetting
  pub configs : List RuntimeConfig

pub record Env : Type 0 where
  pub now : ℕ  -- now(), the start of the transaction, in seconds
  pub clock : ℕ  -- Utc::now(), read by the controller before the transaction
  pub fresh_id : ℕ  -- gen_random_uuid()
  pub locked : ℕ → Bool  -- the rows that SKIP LOCKED passes over
  pub name_le : String → String → Bool  -- the database's collation
  pub uuid_text : ℕ → String
  pub time_text : ℕ → String
  pub number_text : ℕ → String
  pub debug_text : Option String → String
  pub debug_number : Option ℕ → String

-- A generation is a positive bigint, and one below the largest: the source adds one without a check.
abbrev pub next_generation : ℕ → ℕ
next_generation g = g + 1

-- `json!({ … })`
abbrev pub json_fields : List (String × Value) → Fields
json_fields [] = end
json_fields ((k, v) ∷ rest) = field k v (json_fields rest)

abbrev pub json : List (String × Value) → Value
json fs = object (json_fields fs)

abbrev pub is_claimed : CommandStatus → Bool
is_claimed claimed = true
is_claimed status = false

abbrev pub is_pending : CommandStatus → Bool
is_pending pending = true
is_pending status = false

-- status IN ('pending','claimed')
abbrev pub is_open : CommandStatus → Bool
is_open pending = true
is_open claimed = true
is_open status = false

abbrev pub is_failed : CommandStatus → Bool
is_failed failed = true
is_failed status = false

abbrev pub is_terminate : CommandKind → Bool
is_terminate terminate = true
is_terminate kind = false

abbrev pub is_start : CommandKind → Bool
is_start start = true
is_start kind = false

abbrev pub is_running : DesiredState → Bool
is_running running = true
is_running stopped = false

abbrev pub is_requested : ObservedState → Bool
is_requested requested = true
is_requested state = false
