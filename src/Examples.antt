-- ===== src/Examples.antt =====
-- The theorems of the other files at concrete inputs, and the data that these share.
pub mod Journal
pub mod Worker
pub mod RateLimit
pub mod Execute
pub mod Gateway
pub mod Flags
pub mod Submissions
use ctfdpp.Base.{ℕ, Option, none, some, String, List, [], ◌∷◌, Bool, true, false, ltb}
use ctfdpp.Base.Json.{Value, null, string, number, object, field, end}
use ctfdpp.Remote.{RemoteServer, RemoteResult, default_result}
use ctfdpp.Runtime.{
  Env, Db, Command, Instance, running, ready, start, terminate, pending, claimed, completed, json,
  CommandKind, CommandStatus, ServerRow,
}
use ctfdpp.Worker.Claims.{CommandRow}
use ctfdpp.Worker.Transitions.{InstanceRow}

abbrev pub host : RemoteServer
host = record {
  id = 7;
  name = "runtime";
  hostname = "runtime.invalid";
  ssh_port = 22;
  ssh_user = "ctfzone_runtime";
  helper_path = "/usr/local/libexec/ctfzone-runtime-helper";
  identity_file = none;
  host_key_alias = none;
  pool = none;
  capacity = 1;
}

abbrev pub deployment : Value
deployment =
    json (
      ("deployment", json (("image", string "web") ∷ ("flag_value", string "flag{one}") ∷ [])) ∷ [])

abbrev pub env : Env
env = record {
  now = 100;
  clock = 100;
  fresh_id = 900;
  locked = λ id. false;
  name_le = λ a b. true;
  uuid_text = λ id. "uuid";
  time_text = λ t. "time";
  number_text = λ n. "number";
  debug_text = λ o. "debug";
  debug_number = λ o. "debug";
}

abbrev pub command : ℕ → CommandKind → CommandStatus → Option ℕ → Command
command id kind status token = record {
  id = id;
  instance_id = 1;
  kind = kind;
  generation = 1;
  setting_revision = 1;
  challenge_runtime_revision = 1;
  payload = null;
  status = status;
  requested_by_user_id = none;
  available_at = 10;
  created_at = 10;
  claimed_at = token;
  claim_token = token;
  completed_at = none;
  last_error = none;
  attempts = 0;
}

abbrev pub running_instance : Instance
running_instance = record {
  id = 1;
  owner_user_id = 3;
  challenge_id = 4;
  private_challenges_revision = 1;
  challenge_runtime_revision = 1;
  deployment_snapshot = deployment;
  active = true;
  desired_state = running;
  observed_state = ready;
  desired_expires_at = 200;
  maximum_expires_at = 300;
  observed_expires_at = none;
  expires_at = 200;
  remote_server_id = some 7;
  remote_container_id = none;
  remote_ip = none;
  container_port = none;
  published_ip = none;
  published_port = none;
  protocol = none;
  public_hostname = none;
  endpoint_url = none;
  generation = 1;
  observed_generation = 0;
  created_at = 5;
  activated_at = none;
  ready_at = none;
  last_observed_at = none;
  stopped_at = none;
  failure_code = none;
  failure_message = none;
}

abbrev pub tables : List Command → Db
tables cs = record {
  instances = running_instance ∷ [];
  commands = cs;
  events = [];
  servers = record { server = host; enabled = true } ∷ [];
  setting = none;
  configs = [];
}

-- The row of a start command with the claim token 50.
abbrev pub row : CommandRow
row = record {
  id = 11;
  claim_token = 50;
  instance_id = 1;
  kind = start;
  generation = 1;
  setting_revision = 1;
  challenge_runtime_revision = 1;
  payload = null;
  attempts = 1;
}

abbrev pub instance_row : InstanceRow
instance_row = record {
  id = 1;
  owner_user_id = 3;
  challenge_id = 4;
  deployment_snapshot = deployment;
  desired_state = running;
  desired_expires_at = 200;
  maximum_expires_at = 300;
  expires_at = 200;
  remote_server_id = some 7;
  remote_container_id = none;
  generation = 1;
  active = true;
}
