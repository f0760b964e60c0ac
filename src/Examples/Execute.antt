-- ===== src/Examples/Execute.antt =====
-- The theorems on the execution of commands at concrete inputs.
use ctfdpp.Base.{◌≢◌, ◌≡◌, refl, none, some, [], ◌∷◌, true}
use ctfdpp.Remote.{RemoteResult, default_result}
use ctfdpp.Runtime.{start, claimed}
use ctfdpp.Journal.{nothing, replaced}
use ctfdpp.Worker.Effects.{Outside, World, answered}
use ctfdpp.Worker.Execute.{execute_command, find_instance}
use ctfdpp.Worker.Execute.Warrants.{AllJustified}
use ctfdpp.Worker.Execute.Justified.{execute_command-AllJustified}
use ctfdpp.Base.{◌⊎◌}
use ctfdpp.Base.Json.{get_member}
use ctfdpp.Remote.{stop_instance, ensure_instance, flag_value_of, validate_flag_value}
use ctfdpp.Runtime.{Db}
use ctfdpp.Worker.Execute.{remote_payload}
use ctfdpp.Worker.Execute.Payload.{remote_payload-flag}
use ctfdpp.Examples.{env, command, tables, row, instance_row, host}

abbrev world : World
world = record {
  db = tables (command 11 start claimed (some 50) ∷ []);
  journal = none;
  step = 0;
  trace = [];
}

abbrev up : RemoteResult
up = record default_result {
  container_id = some "abc";
  ready = some true;
  effective_generation = some 1;
}

abbrev outside : Outside
outside = record {
  env = λ n. env;
  others = λ n db. db;
  reply = λ n. answered;
  io = λ n. record { written = true; torn = nothing; file_length = some 10; compaction = replaced };
  ssh = λ n server operation payload. some up;
  failure = λ n. "failed";
  operation_timeout = 60;
  default_identity_file = some "/run/secrets/id";
}

execute_command-AllJustified_example :
    AllJustified outside row instance_row (execute_command outside row world).0.trace
unfolding find_instance
execute_command-AllJustified_example =
    execute_command-AllJustified outside row instance_row world refl refl refl

remote_payload-flag_example :
    let payload = remote_payload env row instance_row stop_instance "terminate" in
    ((stop_instance ≡ ensure_instance)
      × (flag_value_of payload ≡ get_member "flag_value" instance_row.deployment_snapshot))
    ⊎ ((stop_instance ≢ ensure_instance)
        × (flag_value_of payload ≡ none)
        × (validate_flag_value stop_instance payload ≡ true))
remote_payload-flag_example = remote_payload-flag env row instance_row stop_instance "terminate"

abbrev held : Db
held = tables (command 11 start claimed (some 50) ∷ [])

abbrev free : Db
free = record held {
  servers = record { server = record host { capacity = 2 }; enabled = true } ∷ [];
}
