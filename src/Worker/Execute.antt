-- ===== src/Worker/Execute.antt =====
-- services/controller/src/worker.rs: the execution of a claimed command, against the tables, the
-- journal and the host of its instance.
pub mod Post
pub mod Warrants
pub mod Rules
pub mod Justified
pub mod Payload
use ctfdpp.Base.{
  ℕ, Bool, true, false, not, ◌&&◌, ◌||◌, Option, none, some, String, [], ◌∷◌, leb, ◌==◌,
  if◌then◌else◌, find, is_some, is_equal_to,
}
use ctfdpp.Base.Json.{Value, object, number, string, remove_field, null}
use ctfdpp.Remote.{
  RemoteServer, RemoteOperation, ensure_instance, stop_instance, update_deadline, inspect_instance,
  RemoteResult, is_some_true,
}
use ctfdpp.Runtime.{
  Db, Env, Instance, is_running, start, terminate, extend, inspect, reconcile, CommandKind, json,
  ServerRow, RuntimeConfig, RuntimeSetting,
}
use ctfdpp.Journal.{JournalIntent}
use ctfdpp.Worker.Events.{Result, ok, error}
use ctfdpp.Worker.Claims.{CommandRow, cancel_command, complete_command, claim_command}
use ctfdpp.Worker.Transitions.{InstanceRow, opt_text}
use ctfdpp.Worker.Transitions.Start.{
  mark_starting, select_and_mark_starting, finish_start, reject_start, expire_unstarted_instance,
  cancel_stale_command, RuntimeGate,
}
use ctfdpp.Worker.Transitions.Stop.{mark_stopping, finish_termination, finish_extension}
use ctfdpp.Worker.Transitions.Inspect.{finish_inspection, schedule_retry}
use ctfdpp.Worker.Transactions.{
  Work, marks_starting, selects_host, finishes_start, marks_stopping, finishes_termination,
  finishes_extension, finishes_inspection, rejects_start, expires_unstarted, cancels_stale, cancels,
  completes, retries,
}
use ctfdpp.Worker.Effects.{
  Outside, World, M, ◌>>=◌, ◌>>◌, return, bail_if, or_bail, ask, transact, query, write_intent,
  write_result, write_acknowledged, execute,
}

-- Only a startup carries the flag.
abbrev pub without_flag : RemoteOperation → Value → Value
without_flag ensure_instance deployment = deployment
without_flag operation (object fs) = object (remove_field "flag_value" fs)
without_flag operation v = v

unfoldable pub remote_payload : Env → CommandRow → InstanceRow → RemoteOperation → String → Value
remote_payload env command row operation reason = json (
    ("instance_id", string (env.uuid_text row.id))
    ∷ ("owner_user_id", number row.owner_user_id)
    ∷ ("challenge_id", number row.challenge_id)
    ∷ ("generation", number command.generation)
    ∷ ("expires_at", string (env.time_text row.desired_expires_at))
    ∷ ("maximum_expires_at", string (env.time_text row.maximum_expires_at))
    ∷ ("deployment", without_flag operation row.deployment_snapshot)
    ∷ ("reason", string reason)
    ∷ ("command_payload", command.payload)
    ∷ ("remote_container_id", opt_text row.remote_container_id)
    ∷ [])

abbrev pub journal_intent :
    CommandRow → InstanceRow → RemoteOperation → Option RemoteServer → Value → JournalIntent
journal_intent command row operation server payload = record {
  instance_id = row.id;
  command_id = command.id;
  generation = command.generation;
  setting_revision = command.setting_revision;
  challenge_runtime_revision = command.challenge_runtime_revision;
  operation = operation;
  remote_server = server;
  effective_expires_at = row.desired_expires_at;
  payload = payload;
}

-- The conditions under which `require_remote_removal`, `require_remote_generation` and
-- `require_remote_ready` fail.
unfoldable pub removal_refused : RemoteResult → Bool
removal_refused result = is_some_true result.stale_generation || not (is_some_true result.absent)

unfoldable pub other_generation : RemoteResult → ℕ → Bool
other_generation result generation =
    is_some_true result.stale_generation || not (is_equal_to generation result.effective_generation)

unfoldable pub not_ready : RemoteResult → Bool
not_ready result = not (is_some_true result.ready)

unfoldable pub not_running : RemoteResult → Bool
not_running result = is_some_true result.absent || not (is_some result.container_id)

-- `load_instance`, `load_remote_server` and the query of `execute_start`.
abbrev row_of_instance : Instance → InstanceRow
row_of_instance i = record {
  id = i.id;
  owner_user_id = i.owner_user_id;
  challenge_id = i.challenge_id;
  deployment_snapshot = i.deployment_snapshot;
  desired_state = i.desired_state;
  desired_expires_at = i.desired_expires_at;
  maximum_expires_at = i.maximum_expires_at;
  expires_at = i.expires_at;
  remote_server_id = i.remote_server_id;
  remote_container_id = i.remote_container_id;
  generation = i.generation;
  active = i.active;
}

unfoldable pub find_instance : ℕ → Db → Option InstanceRow
find_instance id db = elim (find (λ i. i.id == id) db.instances) [
  | none ↦ none
  | some i ↦ some (row_of_instance i)
]

unfoldable pub load_instance : Outside → ℕ → M InstanceRow
load_instance o id = do found ← query o (find_instance id); or_bail o found

unfoldable pub find_server : ℕ → Db → Option RemoteServer
find_server id db = elim (find (λ s. s.id == id) db.servers) [
  | none ↦ none
  | some s ↦ some s.server
]

unfoldable pub load_remote_server : Outside → ℕ → M RemoteServer
load_remote_server o id = do found ← query o (find_server id); or_bail o found

unfoldable pub gate_of : ℕ → Db → RuntimeGate
gate_of challenge_id db = joined db.setting (find (λ c. c.challenge_id == challenge_id) db.configs)
  where
    joined : Option RuntimeSetting → Option RuntimeConfig → RuntimeGate
    joined s r = record {
      setting_enabled = elim s [ none ↦ false | some s ↦ s.enabled ];
      setting_revision = elim s [ none ↦ 0 | some s ↦ s.revision ];
      runtime_enabled = elim r [ none ↦ false | some r ↦ r.enabled && r.managed ];
      runtime_revision = elim r [ none ↦ 0 | some r ↦ r.revision ];
    }

unfoldable pub gate_closed : CommandRow → RuntimeGate → Bool
gate_closed command gate =
    not gate.setting_enabled
    || not gate.runtime_enabled
    || not (command.setting_revision == gate.setting_revision)
    || not (command.challenge_runtime_revision == gate.runtime_revision)

module _ (o : Outside) (command : CommandRow) (row : InstanceRow) where
  -- The transactions of worker.rs, each with the answer that its caller reads.
  abbrev pub cancel : String → M (Unit {0})
  cancel reason =
      transact o (cancels reason) λ env db. (cancel_command env command reason db, ok tt)

  abbrev pub complete : M (Unit {0})
  complete = transact o completes λ env db. (complete_command env command db, ok tt)

  abbrev pub expire : M (Unit {0})
  expire = transact o expires_unstarted λ env db. expire_unstarted_instance env command row db

  abbrev pub reject : RuntimeGate → M (Unit {0})
  reject gate = transact o (rejects_start gate) λ env db. reject_start env command row gate db

  abbrev pub cancel_stale : M (Unit {0})
  cancel_stale = transact o cancels_stale λ env db. cancel_stale_command env command row db

  abbrev pub cancel_unless : Bool → String → M (Unit {0})
  cancel_unless true reason = return tt
  cancel_unless false reason = cancel reason

  -- Intent, request and result, with the checks that the operation makes before the result is
  -- recorded.
  unfoldable pub exchange :
      RemoteServer → RemoteOperation → Value → (RemoteResult → M (Unit {0})) → M RemoteResult
  exchange server operation payload checks = do
    write_intent o (journal_intent command row operation (some server) payload)
    result ← execute o server operation payload
    checks result
    write_result o (journal_intent command row operation (some server) payload) result
    return result

  unfoldable pub acknowledge : RemoteServer → RemoteOperation → Value → M (Unit {0})
  acknowledge server operation payload =
      write_acknowledged o (journal_intent command row operation (some server) payload)

  abbrev pub unchecked : RemoteResult → M (Unit {0})
  unchecked result = return tt

  abbrev pub start_checks : RemoteResult → M (Unit {0})
  start_checks result = do
    bail_if o (other_generation result command.generation)
    bail_if o (not_running result)
    bail_if o (not_ready result)

  abbrev pub inspect_checks : RemoteResult → M (Unit {0})
  inspect_checks result =
      bail_if o (not (is_some_true result.absent) && other_generation result command.generation)

  -- The host's workload of a generation that is gone by the time it is up.
  unfoldable pub clean_up_start : RemoteServer → M (Unit {0})
  clean_up_start server = do
    env ← ask o
    let payload = remote_payload env command row stop_instance "generation_changed_after_start"
    result ← exchange server stop_instance payload unchecked
    bail_if o (removal_refused result)
    cancel "instance generation changed while remote workload was starting"
    acknowledge server stop_instance payload

  unfoldable pub settle_start : RemoteServer → Bool → M (Unit {0})
  settle_start server true = return tt
  settle_start server false = clean_up_start server

  unfoldable pub run_start : RemoteServer → M (Unit {0})
  run_start server = do
    env ← ask o
    let payload = remote_payload env command row ensure_instance "start"
    result ← exchange server ensure_instance payload start_checks
    committed ←
        transact o (finishes_start server result)
          λ env db. finish_start env command row server result db
    settle_start server committed
    acknowledge server ensure_instance payload

  unfoldable pub start_marked : RemoteServer → Bool → M (Unit {0})
  start_marked server true = run_start server
  start_marked server false = cancel "instance generation changed before remote workload startup"

  unfoldable pub start_selected : Option RemoteServer → M (Unit {0})
  start_selected none = cancel "instance generation changed before remote workload startup"
  start_selected (some server) = run_start server

  unfoldable pub start_placed : Option ℕ → M (Unit {0})
  start_placed (some server_id) = do
    server ← load_remote_server o server_id
    marked ←
        transact o (marks_starting server)
          λ env db. (let out = mark_starting env command row server db in (out.0, ok out.1))
    start_marked server marked
  start_placed none = do
    server ← transact o selects_host λ env db. select_and_mark_starting env command row db
    start_selected server

  unfoldable pub start_gated : RuntimeGate → M (Unit {0})
  start_gated gate =
      if gate_closed command gate then reject gate else start_placed row.remote_server_id

  unfoldable pub start_timely : Env → M (Unit {0})
  start_timely env =
      if leb row.desired_expires_at env.clock
      then expire
      else (do gate ← query o (gate_of row.challenge_id); start_gated gate)

  unfoldable pub execute_start : M (Unit {0})
  execute_start =
      if not row.active || not (is_running row.desired_state)
      then cancel "instance no longer desires a running workload"
      else (do env ← ask o; start_timely env)

  unfoldable pub stop_on : RemoteServer → M (Unit {0})
  stop_on server = do
    env ← ask o
    let payload = remote_payload env command row stop_instance "terminate"
    result ← exchange server stop_instance payload unchecked
    bail_if o (removal_refused result)
    terminated ← transact o finishes_termination λ env db. finish_termination env command row db
    cancel_unless terminated "instance generation changed while remote workload was stopping"
    acknowledge server stop_instance payload

  unfoldable pub stop_marked : Option RemoteServer → Bool → M (Unit {0})
  stop_marked server false = cancel "instance generation changed before remote workload cleanup"
  stop_marked (some server) true = stop_on server
  stop_marked none true = do
    terminated ← transact o finishes_termination λ env db. finish_termination env command row db
    cancel_unless terminated "instance generation changed before local cleanup completion"

  unfoldable pub load_if_placed : Option ℕ → M (Option RemoteServer)
  load_if_placed none = return none
  load_if_placed (some server_id) = do server ← load_remote_server o server_id; return (some server)

  unfoldable pub execute_terminate : M (Unit {0})
  execute_terminate = if not row.active then complete else (do
    server ← load_if_placed row.remote_server_id
    marked ←
        transact o marks_stopping
          λ env db. (let out = mark_stopping env command row db in (out.0, ok out.1))
    stop_marked server marked)

  unfoldable pub extend_on : RemoteServer → M (Unit {0})
  extend_on server = do
    env ← ask o
    let payload = remote_payload env command row update_deadline "extend"
    result ← exchange server update_deadline payload unchecked
    bail_if o (is_some_true result.stale_generation)
    bail_if o (other_generation result command.generation)
    extended ←
        transact o (finishes_extension result) λ env db. finish_extension env command row result db
    cancel_unless extended "instance generation changed while its deadline was being extended"
    acknowledge server update_deadline payload

  unfoldable pub extend_timely : Env → M (Unit {0})
  extend_timely env =
      if not row.active || not (is_running row.desired_state) || leb row.expires_at env.clock
      then cancel "instance can no longer be extended"
      else (do
        server_id ← or_bail o row.remote_server_id
        server ← load_remote_server o server_id
        extend_on server)

  unfoldable pub execute_extend : M (Unit {0})
  execute_extend = do env ← ask o; extend_timely env

  unfoldable pub inspect_on : Option ℕ → M (Unit {0})
  inspect_on none = cancel "instance has no remote server to inspect"
  inspect_on (some server_id) = do
    server ← load_remote_server o server_id
    env ← ask o
    let payload = remote_payload env command row inspect_instance "inspect"
    result ← exchange server inspect_instance payload inspect_checks
    inspected ←
        transact o (finishes_inspection result)
          λ env db. finish_inspection env command row result db
    cancel_unless inspected "instance generation changed while remote workload was inspected"
    acknowledge server inspect_instance payload

  unfoldable pub execute_inspect : M (Unit {0})
  execute_inspect = inspect_on row.remote_server_id

  unfoldable pub execute_kind : CommandKind → M (Unit {0})
  execute_kind start = execute_start
  execute_kind terminate = execute_terminate
  execute_kind extend = execute_extend
  execute_kind inspect = execute_inspect
  execute_kind reconcile = execute_inspect

  unfoldable pub execute_on : M (Unit {0})
  execute_on =
      if not (command.generation == row.generation) then cancel_stale else execute_kind command.kind

unfoldable pub execute_command : Outside → CommandRow → M (Unit {0})
execute_command o command = do row ← load_instance o command.instance_id; execute_on o command row
