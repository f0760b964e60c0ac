-- ===== src/Worker/Transactions.antt =====
-- services/controller/src/worker.rs: the transactions that claim commands, recover claims, queue
-- terminate commands and carry out a claimed command (not those that queue inspections), with
-- their effect on the tables.
use ctfdpp.Base.{ℕ, String}
use ctfdpp.Remote.{RemoteServer, RemoteResult}
use ctfdpp.Runtime.{Db, Env}
use ctfdpp.Worker.Claims.{
  CommandRow, claim_command, cancel_command, complete_command, recover_stale_claims,
  recover_all_claims_on_startup,
}
use ctfdpp.Worker.Termination.{create_termination_command}
use ctfdpp.Worker.Transitions.{InstanceRow}
use ctfdpp.Worker.Transitions.Start.{
  mark_starting, select_and_mark_starting, finish_start, reject_start, expire_unstarted_instance,
  cancel_stale_command, RuntimeGate,
}
use ctfdpp.Worker.Transitions.Stop.{mark_stopping, finish_termination, finish_extension}
use ctfdpp.Worker.Transitions.Inspect.{finish_inspection, schedule_retry}

-- The transactions of one claimed command on its instance.
pub data Work : Type 0 where
  marks_starting : RemoteServer → Work
  selects_host : Work
  finishes_start : RemoteServer → RemoteResult → Work
  marks_stopping : Work
  finishes_termination : Work
  finishes_extension : RemoteResult → Work
  finishes_inspection : RemoteResult → Work
  rejects_start : RuntimeGate → Work
  expires_unstarted : Work
  cancels_stale : Work
  cancels : String → Work
  completes : Work
  retries : ℕ → String → Work

unfoldable pub work : Env → CommandRow → InstanceRow → Work → Db → Db
work env command row (marks_starting server) db = (mark_starting env command row server db).0
work env command row selects_host db = (select_and_mark_starting env command row db).0
work env command row (finishes_start server result) db =
    (finish_start env command row server result db).0
work env command row marks_stopping db = (mark_stopping env command row db).0
work env command row finishes_termination db = (finish_termination env command row db).0
work env command row (finishes_extension result) db = (finish_extension env command row result db).0
work env command row (finishes_inspection result) db =
    (finish_inspection env command row result db).0
work env command row (rejects_start gate) db = (reject_start env command row gate db).0
work env command row expires_unstarted db = (expire_unstarted_instance env command row db).0
work env command row cancels_stale db = (cancel_stale_command env command row db).0
work env command row (cancels reason) db = cancel_command env command reason db
work env command row completes db = complete_command env command db
work env command row (retries max_attempts text) db =
    schedule_retry env command max_attempts text db

pub data Transaction : Type 0 where
  claims recovers_all : Transaction
  recovers_stale : ℕ → Transaction
  terminates : ℕ → String → Transaction
  works : CommandRow → InstanceRow → Work → Transaction

unfoldable pub apply : Env → Transaction → Db → Db
unfolding work
apply env claims db = (claim_command env db).0
apply env recovers_all db = recover_all_claims_on_startup env db
apply env (recovers_stale stale_after) db = recover_stale_claims env stale_after db
apply env (terminates id reason) db = (create_termination_command env id reason db).0
apply env (works command row w) db = work env command row w db
