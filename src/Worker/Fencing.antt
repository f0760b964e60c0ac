-- ===== src/Worker/Fencing.antt =====
-- A claimant that has lost its claim cannot write: the transactions of worker.rs against a command
-- row whose token is another one.
use ctfdpp.Base.{
  ℕ, ◌≡◌, false, String, any, update_where, update_where-none, Bool-cases, inl, inr, leb, ltb, ◌||◌,
}
use ctfdpp.Remote.{RemoteServer, RemoteResult}
use ctfdpp.Runtime.{Db, Env, Command}
use ctfdpp.Worker.Claims.{CommandRow, holds, lock_command_claim, cancel_command, complete_command}
use ctfdpp.Worker.Transitions.{InstanceRow, claimed_or}
use ctfdpp.Worker.Transitions.Start.{
  mark_starting, select_and_mark_starting, finish_start, reject_start, expire_unstarted_instance,
  cancel_stale_command, RuntimeGate, effective_deadline,
}
use ctfdpp.Worker.Transitions.Stop.{mark_stopping, finish_termination, finish_extension}
use ctfdpp.Worker.Transitions.Inspect.{finish_inspection, schedule_retry}

module _ (env : Env) (command : CommandRow) (db : Db)
    (lost : lock_command_claim command db ≡ false) where
  unheld : any (holds command) db.commands ≡ false
  unfolding lock_command_claim
  unheld = lost

  update_held_none :
      (f : Command → Command)
      → record db { commands = update_where (holds command) f db.commands } ≡ db
  update_held_none f =
      λ i. record db { commands = update_where-none (holds command) f db.commands unheld i }

  schedule_retry-lost :
      (max_attempts : ℕ) (text : String) → schedule_retry env command max_attempts text db ≡ db
  unfolding schedule_retry
  schedule_retry-lost max_attempts text = elim (Bool-cases (leb max_attempts command.attempts)) [
    | inl spent ↦ rw (spent, lost)
    | inr left ↦ rw left (update_held_none _)
  ]

  -- Once a claim is lost, no transaction of its command changes a table: not the instances, the
  -- commands or the events, whatever the command was doing and whatever its host answered.
  pub lost_claim_changes_nothing :
      (instance_row : InstanceRow) (server : RemoteServer) (result : RemoteResult)
      (gate : RuntimeGate) (max_attempts : ℕ) (text : String)
      → ((mark_starting env command instance_row server db).0 ≡ db)
        × ((select_and_mark_starting env command instance_row db).0 ≡ db)
        × ((finish_start env command instance_row server result db).0 ≡ db)
        × ((mark_stopping env command instance_row db).0 ≡ db)
        × ((finish_termination env command instance_row db).0 ≡ db)
        × ((finish_extension env command instance_row result db).0 ≡ db)
        × ((finish_inspection env command instance_row result db).0 ≡ db)
        × ((reject_start env command instance_row gate db).0 ≡ db)
        × ((expire_unstarted_instance env command instance_row db).0 ≡ db)
        × ((cancel_stale_command env command instance_row db).0 ≡ db)
        × (cancel_command env command text db ≡ db)
        × (complete_command env command db ≡ db)
        × (schedule_retry env command max_attempts text db ≡ db)
  unfolding mark_starting select_and_mark_starting finish_start mark_stopping finish_termination
      finish_extension finish_inspection reject_start expire_unstarted_instance cancel_stale_command
      cancel_command complete_command claimed_or
  lost_claim_changes_nothing instance_row server result gate max_attempts text = (
    rw lost,
    rw lost,
    elim (Bool-cases
        (ltb instance_row.maximum_expires_at (effective_deadline instance_row result))) [
          | inl beyond ↦ rw beyond
          | inr within ↦ rw (within, lost)
        ],
    rw lost,
    rw lost,
    elim (Bool-cases (
        ltb instance_row.maximum_expires_at (effective_deadline instance_row result)
        || leb (effective_deadline instance_row result) env.clock)) [
          | inl invalid ↦ rw invalid
          | inr valid ↦ rw (valid, lost)
        ],
    rw lost,
    rw lost,
    rw lost,
    rw lost,
    update_held_none _,
    update_held_none _,
    schedule_retry-lost max_attempts text,
  )
