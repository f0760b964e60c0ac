-- ===== src/Worker/Transitions/Stop.antt =====
-- services/controller/src/worker.rs: the transactions of a terminate and of an extend command.
use ctfdpp.Base.{
  ℕ, Bool, true, false, ◌||◌, Option, none, some, String, [], ◌∷◌, ltb, leb, if◌then◌else◌, str_eq,
}
use ctfdpp.Base.Json.{string, get_member, and_then, as_str}
use ctfdpp.Remote.{RemoteResult}
use ctfdpp.Runtime.{Db, Env, Instance, stopped, stopping, terminated, expired, json}
use ctfdpp.Worker.Events.{Result, ok, error, append_event}
use ctfdpp.Worker.Claims.{CommandRow}
use ctfdpp.Worker.Transitions.{
  InstanceRow, at_generation, update_instance, claimed_or, updated_or, command_id,
  complete_then_commit,
}
use ctfdpp.Worker.Transitions.Start.{effective_deadline}

abbrev pub stopping_row : Env → Instance → Instance
stopping_row env i = record i { observed_state = stopping; last_observed_at = some env.now }

abbrev pub is_active : Instance → Bool
is_active i = i.active

unfoldable pub mark_stopping : Env → CommandRow → InstanceRow → Db → Db × Bool
mark_stopping env command instance_row db = claimed_or command db false λ db.
    updated_or db false
      (update_instance (at_generation command instance_row is_active) (stopping_row env) db)
      λ db'. (
        append_event instance_row.id "instance.stopping" (json (command_id env command ∷ [])) db',
        true,
      )

abbrev is_deadline_reason : Option String → Bool
is_deadline_reason none = false
is_deadline_reason (some s) = str_eq s "absolute_deadline_reached"

-- Past the deadline, or queued because of it.
abbrev pub terminated_by_deadline : Env → CommandRow → InstanceRow → Bool
terminated_by_deadline env command instance_row =
    leb instance_row.expires_at env.clock
    || is_deadline_reason (and_then (get_member "reason" command.payload) as_str)

abbrev pub terminated_row : Env → CommandRow → Bool → Instance → Instance
terminated_row env command by_deadline i = record i {
  active = false;
  desired_state = stopped;
  observed_state = if by_deadline then expired else terminated;
  observed_generation = command.generation;
  last_observed_at = some env.now;
  stopped_at = some env.now;
  failure_code = none;
  failure_message = none;
}

abbrev terminated_events : Env → CommandRow → InstanceRow → Bool → Db → Db
terminated_events env command instance_row by_deadline db =
    append_event instance_row.id "instance.cleanup_completed" (json (command_id env command ∷ [])) (
      append_event instance_row.id
        (if by_deadline then "instance.expired" else "instance.terminated")
        (json (
          command_id env command
          ∷ ("intended_expires_at", string (env.time_text instance_row.expires_at))
          ∷ []))
        db)

unfoldable pub finish_termination : Env → CommandRow → InstanceRow → Db → Db × Result Bool
finish_termination env command instance_row db =
    let by_deadline = terminated_by_deadline env command instance_row in
    claimed_or command db (ok false) λ db.
      updated_or db (ok false)
        (update_instance (at_generation command instance_row is_active)
          (terminated_row env command by_deadline) db)
        λ db'.
          complete_then_commit env command db
            (terminated_events env command instance_row by_deadline db')

abbrev pub extended_row : Env → CommandRow → ℕ → Instance → Instance
extended_row env command effective i = record i {
  observed_expires_at = some effective;
  expires_at = effective;
  observed_generation = command.generation;
  last_observed_at = some env.now;
  failure_code = none;
  failure_message = none;
}

unfoldable pub finish_extension :
    Env → CommandRow → InstanceRow → RemoteResult → Db → Db × Result Bool
finish_extension env command instance_row result db =
    let effective = effective_deadline instance_row result in
    if ltb instance_row.maximum_expires_at effective || leb effective env.clock
    then (db, error "remote helper returned an invalid extended deadline")
    else claimed_or command db (ok false) λ db.
      updated_or db (ok false)
        (update_instance (at_generation command instance_row is_active)
          (extended_row env command effective) db)
        λ db'. complete_then_commit env command db (
          append_event instance_row.id "instance.extended"
            (json (command_id env command ∷ ("expires_at", string (env.time_text effective)) ∷ []))
            db')
