-- ===== src/Worker/Transitions.antt =====
-- services/controller/src/worker.rs: the transactions in which a claimed command changes its
-- instance. Each takes the claim first, names the command's generation in its WHERE clause, and
-- rolls back when either no longer holds.
pub mod Start
pub mod Placement
pub mod Stop
pub mod Inspect
use ctfdpp.Base.{
  ℕ, Bool, true, false, not, ◌&&◌, ◌||◌, Option, none, some, String, List, [], ◌∷◌, ltb, leb, ◌==◌,
  if◌then◌else◌, any, update_where, str_eq,
}
use ctfdpp.Base.Json.{Value, null, string, get_member, and_then, as_str}
use Prim.Native.String.{◌++◌ as ◌<>◌}
use ctfdpp.Remote.{RemoteServer, RemoteResult, or_else, is_some_true}
use ctfdpp.Runtime.{
  Db, Env, Instance, DesiredState, running, stopped, ObservedState, starting, ready, stopping,
  cleanup_pending, terminated, expired, observed_failed, is_running, is_requested, json,
}
use ctfdpp.Worker.Events.{Result, ok, error, append_event}
use ctfdpp.Worker.Claims.{
  CommandRow, lock_command_claim, mark_command_completed, mark_command_cancelled,
}
use ctfdpp.Worker.Termination.{create_termination_command}

-- What `load_instance` returns of a row.
pub record InstanceRow : Type 0 where
  pub id : ℕ
  pub owner_user_id : ℕ
  pub challenge_id : ℕ
  pub deployment_snapshot : Value
  pub desired_state : DesiredState
  pub desired_expires_at : ℕ
  pub maximum_expires_at : ℕ
  pub expires_at : ℕ
  pub remote_server_id : Option ℕ
  pub remote_container_id : Option String
  pub generation : ℕ
  pub active : Bool

-- id=$1 AND generation=$2, with a further condition
abbrev pub at_generation : CommandRow → InstanceRow → (Instance → Bool) → Instance → Bool
at_generation command instance_row also i =
    i.id == instance_row.id && i.generation == command.generation && also i

-- An UPDATE that rolls the transaction back when it finds no row.
unfoldable pub update_instance : (Instance → Bool) → (Instance → Instance) → Db → Option Db
update_instance target change db =
    if any target db.instances
    then some (record db { instances = update_where target change db.instances })
    else none

-- The claim is taken, or the transaction rolls back with an answer; likewise for an UPDATE.
unfoldable pub claimed_or : {A : Type 0} → CommandRow → Db → A → (Db → Db × A) → Db × A
claimed_or command db lost act = if lock_command_claim command db then act db else (db, lost)

unfoldable pub updated_or : {A : Type 0} → Db → A → Option Db → (Db → Db × A) → Db × A
updated_or db missing none act = (db, missing)
updated_or db missing (some db') act = act db'

abbrev pub command_id : Env → CommandRow → String × Value
command_id env command = ("command_id", string (env.uuid_text command.id))

abbrev pub opt_text : Option String → Value
opt_text none = null
opt_text (some s) = string s

-- The last statements of a transaction that completes its command.
unfoldable pub complete_then_commit : Env → CommandRow → Db → Db → Db × Result Bool
complete_then_commit env command before db = elim (mark_command_completed env command db) [
  | none ↦ (before, error "runtime command claim lease was lost before completion")
  | some db' ↦ (db', ok true)
]
