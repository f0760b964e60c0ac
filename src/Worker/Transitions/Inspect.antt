-- ===== src/Worker/Transitions/Inspect.antt =====
-- services/controller/src/worker.rs: the transaction of an inspect or reconcile command, and what
-- becomes of a command that failed.
use Prim.Native.String.{◌++◌ as ◌<>◌}
use Prim.Native.Nat.{zero, suc}
use ctfdpp.Base.{
  ℕ, ◌+◌, Bool, false, not, ◌&&◌, ◌||◌, Option, none, some, String, [], ◌∷◌, leb, ◌==◌,
  if◌then◌else◌, any, update_where,
}
use ctfdpp.Base.Json.{string}
use ctfdpp.Remote.{RemoteResult, is_some_true, or_else}
use ctfdpp.Runtime.{
  Db, Env, Instance, ObservedState, ready, cleanup_pending, expired, observed_failed, unknown,
  CommandKind, start, terminate, extend, inspect, reconcile, Command, failed, pending, is_running,
  is_start, json,
}
use ctfdpp.Worker.Events.{Result, ok, append_event}
use ctfdpp.Worker.Claims.{CommandRow, lock_command_claim, holds, ended, retry_backoff_seconds}
use ctfdpp.Worker.Termination.{create_termination_command}
use ctfdpp.Worker.Transitions.{
  InstanceRow, at_generation, update_instance, claimed_or, updated_or, command_id, opt_text,
  complete_then_commit,
}
use ctfdpp.Worker.Transitions.Stop.{is_active}

-- `value.chars().take(maximum).collect()`
unfoldable pub truncate : ℕ → String → String
truncate zero s = String.[]
truncate (suc n) String.[] = String.[]
truncate (suc n) (String.◌∷◌ c s) = String.◌∷◌ c (truncate n s)

abbrev pub absent_row : Env → Bool → Instance → Instance
absent_row env was_expired i = record i {
  active = false;
  observed_state = if was_expired then expired else observed_failed;
  stopped_at = some env.now;
  last_observed_at = some env.now;
  failure_code = if was_expired then none else some "remote_workload_missing";
}

abbrev pub not_ready_message : Env → RemoteResult → String
not_ready_message env result = truncate 1000 (
    "remote workload is not ready (runtime status "
    <> (env.debug_text result.runtime_status
        <> (", health status " <> (env.debug_text result.health_status <> ")"))))

abbrev pub not_ready_row : Env → String → Instance → Instance
not_ready_row env message i = record i {
  observed_state = cleanup_pending;
  failure_code = some "remote_workload_not_ready";
  failure_message = some message;
  last_observed_at = some env.now;
}

abbrev pub reconciled_row : Env → CommandRow → Instance → Instance
reconciled_row env command i = record i {
  observed_state = ready;
  last_observed_at = some env.now;
  observed_generation = command.generation;
}

-- The rest of a branch, if its UPDATE found the row.
unfoldable pub after_update : Option Db → (Db → Db) → Option Db
after_update none act = none
after_update (some db) act = some (act db)

-- The three outcomes of an inspection, each an UPDATE of the row with its events.
abbrev pub inspected_absent : Env → CommandRow → InstanceRow → Db → Option Db
inspected_absent env command instance_row db =
    let was_expired =
      leb instance_row.expires_at env.clock || not (is_running instance_row.desired_state) in
    after_update
      (update_instance (at_generation command instance_row is_active) (absent_row env was_expired)
        db)
      λ db'.
        (append_event instance_row.id
          (if was_expired then "instance.expired" else "instance.failed")
          (json (command_id env command ∷ ("reason", string "remote_workload_absent") ∷ [])) db')

abbrev pub inspected_not_ready : Env → CommandRow → InstanceRow → RemoteResult → Db → Option Db
inspected_not_ready env command instance_row result db =
    after_update
      (update_instance (at_generation command instance_row is_active)
        (not_ready_row env (not_ready_message env result)) db)
      λ db'.
        (create_termination_command env instance_row.id "remote_workload_not_ready" (
          append_event instance_row.id "instance.failed"
            (json (
              command_id env command
              ∷ ("reason", string "remote_workload_not_ready")
              ∷ ("runtime_status", opt_text result.runtime_status)
              ∷ ("health_status", opt_text result.health_status)
              ∷ []))
            db')).0

abbrev pub inspected_ready : Env → CommandRow → InstanceRow → Db → Option Db
inspected_ready env command instance_row db =
    after_update
      (update_instance (at_generation command instance_row is_active) (reconciled_row env command)
        db)
      λ db'.
        (append_event instance_row.id "instance.reconciled" (json (command_id env command ∷ []))
          db')

unfoldable pub inspected : Env → CommandRow → InstanceRow → RemoteResult → Db → Option Db
inspected env command instance_row result db =
    if or_else result.absent false
    then inspected_absent env command instance_row db
    else if not (is_some_true result.ready)
    then inspected_not_ready env command instance_row result db
    else inspected_ready env command instance_row db

unfoldable pub finish_inspection :
    Env → CommandRow → InstanceRow → RemoteResult → Db → Db × Result Bool
finish_inspection env command instance_row result db = claimed_or command db (ok false) λ db.
    updated_or db (ok false) (inspected env command instance_row result db)
      λ db'. complete_then_commit env command db db'

-- The observed state of an instance whose command failed for good.
abbrev pub failure_state : CommandKind → ObservedState
failure_state extend = ready
failure_state inspect = unknown
failure_state reconcile = unknown
failure_state kind = cleanup_pending

abbrev pub kind_text : CommandKind → String
kind_text start = "start"
kind_text terminate = "terminate"
kind_text extend = "extend"
kind_text inspect = "inspect"
kind_text reconcile = "reconcile"

abbrev pub failed_row : Env → CommandRow → String → Instance → Instance
failed_row env command message i = record i {
  observed_state = failure_state command.kind;
  failure_code = some "command_failed";
  failure_message = some message;
  last_observed_at = some env.now;
}

abbrev pub failed_target : CommandRow → Instance → Bool
failed_target command i =
    i.id == command.instance_id && i.generation == command.generation && i.active

-- The instance's row and event, and the cleanup that a failed start queues.
unfoldable pub fail_instance : Env → CommandRow → String → Db → Db
fail_instance env command message db =
    if any (failed_target command) db.instances
    then (let db' =
          append_event command.instance_id "instance.failed"
            (json (
              command_id env command
              ∷ ("kind", string (kind_text command.kind))
              ∷ ("error", string message)
              ∷ []))
            (record db {
              instances =
                  update_where (failed_target command) (failed_row env command message)
                    db.instances;
            }) in
        if is_start command.kind
        then (create_termination_command env command.instance_id "start_command_failed" db').0
        else db')
    else db

abbrev pub postponed : Env → CommandRow → String → Command → Command
postponed env command message c = record c {
  status = pending;
  claimed_at = none;
  claim_token = none;
  available_at = env.now + retry_backoff_seconds command.attempts;
  last_error = some message;
}

unfoldable pub schedule_retry : Env → CommandRow → ℕ → String → Db → Db
unfolding fail_instance
schedule_retry env command max_attempts text db =
    let message = truncate 1000 text in
    if leb max_attempts command.attempts
    then (if lock_command_claim command db
        then fail_instance env command message (record db {
          commands = update_where (holds command) (ended failed (some message) env.now) db.commands;
        })
        else db)
    else record db {
      commands = update_where (holds command) (postponed env command message) db.commands;
    }
