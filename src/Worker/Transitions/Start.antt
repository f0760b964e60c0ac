-- ===== src/Worker/Transitions/Start.antt =====
-- services/controller/src/worker.rs: the transactions of a start command, placement on a host
-- included.
use ctfdpp.Base.{
  ℕ, Bool, true, false, not, ◌&&◌, Option, none, some, String, List, [], ◌∷◌, ltb, ◌==◌,
  if◌then◌else◌, count_where, select, str_eq, update_where, any,
}
use ctfdpp.Base.Json.{Value, string, number, get_member, and_then, as_str}
use ctfdpp.Remote.{RemoteServer, RemoteResult, or_else}
use ctfdpp.Runtime.{
  Db, Env, Instance, stopped, starting, ready, expired, observed_failed, is_running, is_requested,
  json, ServerRow,
}
use ctfdpp.Worker.Events.{Result, ok, error, append_event}
use ctfdpp.Worker.Claims.{CommandRow, mark_command_cancelled}
use ctfdpp.Worker.Transitions.{
  InstanceRow, at_generation, update_instance, claimed_or, updated_or, command_id, opt_text,
  complete_then_commit,
}

-- COALESCE(column, value)
abbrev pub coalesce {ℓ} : {A : Type ℓ} → Option A → A → Option A
coalesce none a = some a
coalesce (some b) a = some b

abbrev pub starting_row : Env → RemoteServer → Instance → Instance
starting_row env server i = record i {
  observed_state = starting;
  remote_server_id = some server.id;
  activated_at = coalesce i.activated_at env.now;
  last_observed_at = some env.now;
  failure_code = none;
  failure_message = none;
}

abbrev pub may_start : Instance → Bool
may_start i = i.active && is_running i.desired_state

abbrev pub place : Env → CommandRow → InstanceRow → RemoteServer → Db → Option Db
place env command instance_row server db =
    update_instance (at_generation command instance_row may_start) (starting_row env server) db

abbrev pub started_event : Env → CommandRow → InstanceRow → RemoteServer → Db → Db
started_event env command instance_row server =
    append_event instance_row.id "instance.starting"
      (json (command_id env command ∷ ("remote_server_id", string (env.uuid_text server.id)) ∷ []))

unfoldable pub mark_starting : Env → CommandRow → InstanceRow → RemoteServer → Db → Db × Bool
mark_starting env command instance_row server db = claimed_or command db false λ db.
    updated_or db false (place env command instance_row server db)
      λ db'. (started_event env command instance_row server db', true)

-- WHERE i.remote_server_id=s.id AND i.active
abbrev pub runs_on : ℕ → Instance → Bool
runs_on server_id i = i.active && is_some_id i.remote_server_id
  where
    is_some_id : Option ℕ → Bool
    is_some_id none = false
    is_some_id (some s) = s == server_id

unfoldable pub active_on : Db → ℕ → ℕ
active_on db server_id = count_where (runs_on server_id) db.instances

abbrev pub pool_matches : Option String → Option String → Bool
pool_matches none pool = true
pool_matches (some p) none = false
pool_matches (some p) (some q) = str_eq q p

abbrev pub is_placeable : Env → Option String → Db → ServerRow → Bool
is_placeable env requested_pool db s =
    s.enabled
    && pool_matches requested_pool s.pool
    && ltb (active_on db s.id) s.capacity
    && not (env.locked s.id)

-- ORDER BY the number of active instances, then the name
abbrev pub placed_before : Env → Db → ServerRow → ServerRow → Bool
placed_before env db s t =
    if active_on db s.id == active_on db t.id
    then env.name_le s.name t.name
    else ltb (active_on db s.id) (active_on db t.id)

abbrev pub earlier_of : Env → Db → ServerRow → Option ServerRow → ServerRow
earlier_of env db s none = s
earlier_of env db s (some t) = if placed_before env db s t then s else t

unfoldable pub first_server : Env → Db → List ServerRow → Option ServerRow
first_server env db [] = none
first_server env db (s ∷ ss) = some (earlier_of env db s (first_server env db ss))

abbrev pub requested_pool : Value → Option String
requested_pool snapshot = and_then (get_member "remote_pool" snapshot) as_str

unfoldable pub select_remote_server_locked : Env → Value → Db → Option ServerRow
select_remote_server_locked env snapshot db =
    first_server env db (select (is_placeable env (requested_pool snapshot) db) db.servers)

unfoldable pub place_selected :
    Env → CommandRow → InstanceRow → Db → Option ServerRow → Db × Result (Option RemoteServer)
place_selected env command instance_row db none =
    (db, error "no enabled remote server has available capacity")
place_selected env command instance_row db (some s) =
    updated_or db (ok none) (place env command instance_row s.server db)
      λ db'. (started_event env command instance_row s.server db', ok (some s.server))

unfoldable pub select_and_mark_starting :
    Env → CommandRow → InstanceRow → Db → Db × Result (Option RemoteServer)
unfolding place_selected
select_and_mark_starting env command instance_row db = claimed_or command db (ok none) λ db.
    place_selected env command instance_row db
      (select_remote_server_locked env instance_row.deployment_snapshot db)

abbrev pub effective_deadline : InstanceRow → RemoteResult → ℕ
effective_deadline instance_row result =
    or_else result.effective_expires_at instance_row.desired_expires_at

abbrev pub ready_row :
    Env → CommandRow → InstanceRow → RemoteServer → RemoteResult → Instance → Instance
ready_row env command instance_row server result i = record i {
  observed_state = ready;
  observed_generation = command.generation;
  observed_expires_at = some (effective_deadline instance_row result);
  expires_at = effective_deadline instance_row result;
  remote_server_id = some server.id;
  remote_container_id = result.container_id;
  remote_ip = result.remote_ip;
  container_port = result.container_port;
  published_ip = result.published_ip;
  published_port = result.published_port;
  protocol = protocol_or result.protocol;
  public_hostname = result.public_hostname;
  endpoint_url = result.endpoint_url;
  ready_at = coalesce i.ready_at env.now;
  last_observed_at = some env.now;
  failure_code = none;
  failure_message = none;
}
  where
    protocol_or : Option String → Option String
    protocol_or none = i.protocol
    protocol_or (some p) = some p

abbrev opt_number : Option ℕ → Value
opt_number none = Value.null
opt_number (some n) = number n

abbrev pub ready_event : Env → CommandRow → InstanceRow → RemoteServer → RemoteResult → Db → Db
ready_event env command instance_row server result = append_event instance_row.id "instance.ready" (
    json (
      command_id env command
      ∷ ("remote_server_id", string (env.uuid_text server.id))
      ∷ ("expires_at", string (env.time_text (effective_deadline instance_row result)))
      ∷ ("published_ip", opt_text result.published_ip)
      ∷ ("published_port", opt_number result.published_port)
      ∷ ("endpoint_url", opt_text result.endpoint_url)
      ∷ []))

unfoldable pub finish_start :
    Env → CommandRow → InstanceRow → RemoteServer → RemoteResult → Db → Db × Result Bool
finish_start env command instance_row server result db =
    if ltb instance_row.maximum_expires_at (effective_deadline instance_row result)
    then (db, error "remote helper returned a deadline beyond the maximum lifetime")
    else claimed_or command db (error "runtime command claim lease was lost after remote startup")
        λ db.
          updated_or db (ok false)
            (update_instance (at_generation command instance_row (λ i. true))
              (ready_row env command instance_row server result) db)
            λ db'.
              complete_then_commit env command db
                (ready_event env command instance_row server result db')

-- An UPDATE of a row that may be missing, with an event only if it was found.
unfoldable pub update_if_found : (Instance → Bool) → (Instance → Instance) → (Db → Db) → Db → Db
update_if_found target change event db =
    if any target db.instances
    then event (record db { instances = update_where target change db.instances })
    else db

unfoldable pub cancel_then_commit : Env → CommandRow → String → Db → Db → Db × Result (Unit {0})
cancel_then_commit env command reason before db =
    elim (mark_command_cancelled env command reason db) [
      | none ↦ (before, error "runtime command claim lease was lost while cancelling work")
      | some db' ↦ (db', ok tt)
    ]

abbrev pub unstarted : CommandRow → InstanceRow → Instance → Bool
unstarted command instance_row =
    at_generation command instance_row (λ i. is_requested i.observed_state && i.active)

-- The gate as the start command found it; the event records its revisions.
pub record RuntimeGate : Type 0 where
  pub setting_enabled : Bool
  pub setting_revision : ℕ
  pub runtime_enabled : Bool
  pub runtime_revision : ℕ

abbrev pub rejected_row : Env → Instance → Instance
rejected_row env i = record i {
  active = false;
  desired_state = stopped;
  observed_state = observed_failed;
  stopped_at = some env.now;
  last_observed_at = some env.now;
  failure_code = some "runtime_policy_stale";
  failure_message = some "Runtime policy changed before launch";
}

unfoldable pub reject_start :
    Env → CommandRow → InstanceRow → RuntimeGate → Db → Db × Result (Unit {0})
reject_start env command instance_row gate db = claimed_or command db (ok tt) λ db.
    cancel_then_commit env command "runtime policy changed before launch" db (
      update_if_found (unstarted command instance_row) (rejected_row env)
        (append_event instance_row.id "instance.failed" (
          json (
            command_id env command
            ∷ ("reason", string "runtime_policy_stale")
            ∷ ("current_setting_revision", number gate.setting_revision)
            ∷ ("current_runtime_revision", number gate.runtime_revision)
            ∷ [])))
        db)

abbrev pub expired_row : Env → CommandRow → Instance → Instance
expired_row env command i = record i {
  active = false;
  desired_state = stopped;
  observed_state = expired;
  observed_generation = command.generation;
  stopped_at = some env.now;
  last_observed_at = some env.now;
  failure_code = none;
  failure_message = none;
}

unfoldable pub expire_unstarted_instance :
    Env → CommandRow → InstanceRow → Db → Db × Result (Unit {0})
expire_unstarted_instance env command instance_row db = claimed_or command db (ok tt) λ db.
    cancel_then_commit env command "deadline elapsed before launch" db (
      update_if_found (unstarted command instance_row) (expired_row env command)
        (append_event instance_row.id "instance.expired" (
          json (command_id env command ∷ ("reason", string "deadline_elapsed_before_launch") ∷ [])))
        db)

unfoldable pub cancel_stale_command : Env → CommandRow → InstanceRow → Db → Db × Result (Unit {0})
cancel_stale_command env command instance_row db = claimed_or command db (ok tt) λ before.
    elim (mark_command_cancelled env command "stale generation" before) [
      | none ↦ (before, error "runtime command claim lease was lost while cancelling work")
      | some db' ↦ (
        append_event instance_row.id "command.cancelled"
            (json (
              command_id env command
              ∷ ("reason", string "stale_generation")
              ∷ ("current_generation", number instance_row.generation)
              ∷ []))
            db',
        ok tt,
      )
    ]
