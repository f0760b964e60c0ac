-- ===== src/Worker/Execute/Warrants.antt =====
-- What warrants an act of an execution in worker.rs: for a request, the journal and the checks; for
-- a transaction that ends an operation, the answer of the host.
use ctfdpp.Base.{◌≡◌, ◌⊎◌, true, false, not, ◌&&◌, none, some, List, [], ◌∷◌}
use ctfdpp.Base.Json.{Value}
use ctfdpp.Base.Keyed.{get, pair_eq}
use ctfdpp.Remote.{
  RemoteServer, RemoteOperation, RemoteResult, ensure_instance, stop_instance, update_deadline,
  inspect_instance, validate_flag_value, validate_startup_timeout, validate_remote_server,
  is_some_true,
}
use ctfdpp.Journal.{JournalRecord, JournalFile, intent_phase, key, current_unacknowledged}
use ctfdpp.Journal.Compaction.{IsTerminated}
use ctfdpp.Worker.Claims.{CommandRow}
use ctfdpp.Worker.Transitions.{InstanceRow}
use ctfdpp.Worker.Transactions.{
  Work, finishes_start, finishes_termination, finishes_extension, finishes_inspection,
}
use ctfdpp.Worker.Effects.{Outside, World, Act, wrote, called}
use ctfdpp.Worker.Execute.{removal_refused, other_generation, not_ready, not_running}

-- An act that is done by the time the list shows.
abbrev pub Earlier : Act → List Act → Type 0
Earlier act [] = ⊥
Earlier act (a ∷ rest) = (a ≡ act) ⊎ Earlier act rest

-- The helper of a server has answered a request.
abbrev pub Answered : RemoteServer → RemoteOperation → RemoteResult → List Act → Type 0
Answered server operation result acts =
    (payload : Value) × (journal : JournalFile) × Earlier
      (called server operation payload journal (some result)) acts

module _ (o : Outside) (command : CommandRow) (row : InstanceRow) where
  -- The journal tells of a request: its record for the command is the intent of it.
  abbrev pub Announced : RemoteServer → RemoteOperation → Value → JournalFile → Type 0
  Announced server operation payload journal =
      (r : JournalRecord) × (get key (row.id, command.id) (current_unacknowledged journal) ≡ some r)
      × (r.phase ≡ intent_phase)
      × (r.operation ≡ operation)
      × (r.generation ≡ command.generation)
      × (r.remote_server ≡ some server)
      × (r.effective_expires_at ≡ row.desired_expires_at)

  -- The checks on a request.
  abbrev pub Checked : RemoteServer → RemoteOperation → Value → Type 0
  Checked server operation payload =
      (validate_flag_value operation payload ≡ true)
      × (validate_remote_server server ≡ true)
      × (validate_startup_timeout operation payload o.operation_timeout ≡ true)

  -- What must have been answered before a transaction that ends an operation.
  abbrev pub Warranted : Work → List Act → Type 0
  Warranted (finishes_start server result) before =
      Answered server ensure_instance result before
      × (other_generation result command.generation ≡ false)
      × (not_running result ≡ false)
      × (not_ready result ≡ false)
  Warranted finishes_termination before =
      (row.remote_server_id ≡ none)
      ⊎ ((server : RemoteServer) × (result : RemoteResult) × Answered server stop_instance result
            before
          × (removal_refused result ≡ false))
  Warranted (finishes_extension result) before =
      (server : RemoteServer) × Answered server update_deadline result before
      × (other_generation result command.generation ≡ false)
  Warranted (finishes_inspection result) before =
      (server : RemoteServer) × Answered server inspect_instance result before
      × ((not (is_some_true result.absent) && other_generation result command.generation) ≡ false)
  Warranted what before = Unit {0}

  abbrev pub Justified : Act → List Act → Type 0
  Justified (wrote what) before = Warranted what before
  Justified (called server operation payload journal result) before =
      Announced server operation payload journal × Checked server operation payload

  abbrev pub AllJustified : List Act → Type 0
  AllJustified [] = Unit {0}
  AllJustified (a ∷ rest) = Justified a rest × AllJustified rest

  abbrev pub Fine : World → Type 0
  Fine w = AllJustified w.trace

  abbrev pub Sound : World → Type 0
  Sound w = AllJustified w.trace × IsTerminated w.journal
