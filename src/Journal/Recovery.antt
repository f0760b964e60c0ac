-- ===== src/Journal/Recovery.antt =====
-- The two loops of services/controller/src/journal.rs over what the journal still holds: removing
-- overdue workloads while PostgreSQL is away, and dropping what PostgreSQL has finished. A loop goes
-- over the table's values in the order of the model's list; the order of a hash map is unspecified.
pub mod Laws
pub mod Reconciling
pub mod Cleaning
use ctfdpp.Base.{
  ℕ, ◌+◌, Bool, true, false, not, ◌&&◌, ◌||◌, Option, none, some, List, [], ◌∷◌, String, ltb, ◌==◌,
  if◌then◌else◌,
}
use ctfdpp.Base.Json.{Value, object, field, end, string, number}
use ctfdpp.Remote.{RemoteServer, RemoteOperation, RemoteResult, stop_instance, is_some_true}
use ctfdpp.Runtime.{CommandStatus, completed, failed, cancelled, claimed}
use ctfdpp.Journal.{
  JournalRecord, JournalFile, Io, database_acknowledged, degraded_cleanup, is_degraded, append,
  current_unacknowledged,
}

-- What one round of a loop does: return an error, go on, or append a record and count it.
pub data Decision : Type 0 where
  fail skip : Decision
  write : JournalRecord → Decision

-- `io` is the file system's answer when the loop writes for a record.
module _ (io : JournalRecord → Io) (decide : JournalRecord → Decision) where
  unfoldable pub for_each : List JournalRecord → ℕ → JournalFile → JournalFile × Option ℕ
  for_each [] count file = (file, some count)
  for_each (r ∷ rs) count file = elim (decide r) [
    | fail ↦ (file, none)
    | skip ↦ for_each rs count file
    | write r' ↦ elim (append (io r) r' file).1 [
      | true ↦ for_each rs (count + 1) (append (io r) r' file).0
      | false ↦ ((append (io r) r' file).0, none)
    ]
  ]

-- The row that the query finds: the command's status and generation and the instance's generation.
pub data CommandState : Type 0 where
  query_failed missing : CommandState
  found : CommandStatus → ℕ → ℕ → CommandState

abbrev pub is_finished_status : CommandStatus → Bool
is_finished_status completed = true
is_finished_status failed = true
is_finished_status cancelled = true
is_finished_status status = false

abbrev pub is_claimed : CommandStatus → Bool
is_claimed claimed = true
is_claimed status = false

unfoldable pub database_finished : CommandState → ℕ → Bool
database_finished query_failed generation = false
database_finished missing generation = true
database_finished (found status command_generation instance_generation) generation =
    is_finished_status status
    || not (command_generation == generation)
    || not (instance_generation == generation) && not (is_claimed status)

abbrev pub finished : ℕ → JournalRecord → JournalRecord
finished now r = record r {
  phase = database_acknowledged;
  remote_result = none;
  payload = none;
  updated_at = now;
}

unfoldable pub reconcile_decision : (ℕ → ℕ → CommandState) → ℕ → JournalRecord → Decision
unfolding database_finished
reconcile_decision query now r = elim (query r.command_id r.instance_id) [
  | query_failed ↦ fail
  | state ↦ if database_finished state r.generation then write (finished now r) else skip
]

pub reconcile_database_acknowledgements :
    (JournalRecord → Io) → (ℕ → ℕ → CommandState) → ℕ → JournalFile → JournalFile × Option ℕ
reconcile_database_acknowledgements io query now file =
    for_each io (reconcile_decision query now) (current_unacknowledged file) 0 file

-- What the remote call yields; `none` is an error of any kind.
abbrev pub Execute : Type 0
Execute = RemoteServer → RemoteOperation → Value → Option RemoteResult

-- `uuid` is the text that serde gives an identifier.
abbrev pub cleanup_payload : (ℕ → String) → JournalRecord → Value
cleanup_payload uuid r = object (
    field "instance_id" (string (uuid r.instance_id)) (
      field "generation" (number r.generation)
        (field "reason" (string "degraded_deadline_recovery") end)))

abbrev pub cleaned : ℕ → JournalRecord → Value → RemoteResult → JournalRecord
cleaned now r payload result = record r {
  phase = degraded_cleanup;
  remote_result = some result;
  payload = some payload;
  updated_at = now;
}

abbrev pub confirmed : RemoteResult → Bool
confirmed result = is_some_true result.absent || is_some_true result.stale_generation

stop_answered : (ℕ → String) → ℕ → JournalRecord → Option RemoteResult → Decision
stop_answered uuid now r none = skip
stop_answered uuid now r (some result) =
    if confirmed result then write (cleaned now r (cleanup_payload uuid r) result) else skip

stop_overdue : (ℕ → String) → Execute → ℕ → JournalRecord → Option RemoteServer → Decision
unfolding stop_answered
stop_overdue uuid execute now r none = skip
stop_overdue uuid execute now r (some server) =
    stop_answered uuid now r (execute server stop_instance (cleanup_payload uuid r))

unfoldable pub cleanup_decision : (ℕ → String) → Execute → ℕ → JournalRecord → Decision
unfolding stop_overdue
cleanup_decision uuid execute now r =
    if is_degraded r.phase
    then skip
    else if ltb now r.effective_expires_at
    then skip
    else stop_overdue uuid execute now r r.remote_server

pub cleanup_overdue_without_database :
    (JournalRecord → Io) → (ℕ → String) → Execute → ℕ → JournalFile → JournalFile × Option ℕ
cleanup_overdue_without_database io uuid execute now file =
    for_each io (cleanup_decision uuid execute now) (current_unacknowledged file) 0 file
