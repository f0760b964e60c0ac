-- ===== src/Examples/Journal.antt =====
-- The theorems on the operation journal at concrete inputs.
use ctfdpp.Base.{ℕ, ◌≡◌, refl, ◌⊎◌, none, some, String, [], ◌∷◌, true}
use ctfdpp.Base.Json.{string, modify_field, contains_key, insert_field}
use ctfdpp.Base.Keyed.{get, put, pair_eq}
use ctfdpp.Remote.{RemoteResult, ensure_instance, default_result}
use ctfdpp.Runtime.{completed}
use ctfdpp.Journal.{
  JournalRecord, JournalIntent, JournalFile, FileText, Io, entry, invalid, key, intent_phase,
  database_acknowledged, nothing, replaced, append, current_unacknowledged, redact_record,
  redact_payload, intent, remote_result,
}
use ctfdpp.Journal.Redaction.{with_flag, intent_hides_flag}
use ctfdpp.Journal.Compaction.{updated, append_updates, append_lost}
use ctfdpp.Journal.Recovery.{
  Execute, CommandState, found, reconcile_database_acknowledgements, cleaned, cleanup_payload,
  cleanup_overdue_without_database,
}
use ctfdpp.Journal.Recovery.Reconciling.{LeavesOpen, reconcile-LeavesOpen}
use ctfdpp.Journal.Recovery.Cleaning.{Cleans, cleanup_only_overdue}
use ctfdpp.Examples.{host, deployment}

abbrev journaled : JournalRecord
journaled = record {
  instance_id = 1;
  command_id = 11;
  generation = 1;
  setting_revision = 1;
  challenge_runtime_revision = 1;
  operation = ensure_instance;
  phase = intent_phase;
  remote_server = some host;
  effective_expires_at = 50;
  remote_result = none;
  payload = some deployment;
  updated_at = 10;
}

abbrev file : JournalFile
file = some (record { lines = entry journaled ∷ invalid ∷ []; tail = none })

abbrev disk : Io
disk = record { written = true; torn = nothing; file_length = some 10; compaction = replaced }

abbrev acknowledgement : JournalRecord
acknowledgement = record journaled { phase = database_acknowledged; payload = none }

append_updates_example :
    get key (1, 11) (current_unacknowledged (append disk acknowledgement file).0)
    ≡ updated acknowledgement (1, 11) (get key (1, 11) (current_unacknowledged file))
append_updates_example = (append_updates disk acknowledgement file (1, 11) refl refl).2

abbrev torn_text : FileText
torn_text = record { lines = []; tail = some invalid }

append_lost_example :
    get key (1, 11) (current_unacknowledged (append disk journaled (some torn_text)).0)
    ≡ get key (1, 11) (current_unacknowledged (some torn_text))
append_lost_example = (append_lost disk journaled torn_text (1, 11) refl refl).1

abbrev start_intent : JournalIntent
start_intent = record {
  instance_id = 1;
  command_id = 11;
  generation = 1;
  setting_revision = 1;
  challenge_runtime_revision = 1;
  operation = ensure_instance;
  remote_server = some host;
  effective_expires_at = 50;
  payload = deployment;
}

abbrev flagged : String → JournalIntent
flagged s = record start_intent { payload = with_flag (string s) deployment }

intent_hides_flag_example :
    (intent disk 10 (flagged "flag{one}") none ≡ intent disk 10 (flagged "flag{two}") none)
    × (remote_result disk 10 (flagged "flag{one}") default_result none
        ≡ remote_result disk 10 (flagged "flag{two}") default_result none)
intent_hides_flag_example =
    intent_hides_flag disk 10 start_intent default_result (string "flag{one}") (string "flag{two}")
      none

abbrev database : ℕ → ℕ → CommandState
database command instance' = found completed 1 1

reconcile-LeavesOpen_example : LeavesOpen database (get key (1, 11) (current_unacknowledged file)) (
    get key
      (1, 11)
      (current_unacknowledged (reconcile_database_acknowledgements (λ r. disk) database 20 file).0))
reconcile-LeavesOpen_example =
    reconcile-LeavesOpen database 20 (λ c i e. cc) (λ r. disk) file (1, 11) (λ r. refl) refl

abbrev answering : Execute
answering server operation payload = some (record default_result { absent = some true })

abbrev uuid : ℕ → String
uuid n = "uuid"

cleanup_only_overdue_example :
    let after =
      get key
        (1, 11)
        (current_unacknowledged
          (cleanup_overdue_without_database (λ r. disk) uuid answering 60 file).0) in
    ((result : RemoteResult) × Cleans uuid answering 60 (redact_record journaled) result
      × (after
          ≡ some (
              redact_record
                (cleaned 60 (redact_record journaled) (cleanup_payload uuid journaled) result))))
    ⊎ (((result : RemoteResult) → ¬ Cleans uuid answering 60 (redact_record journaled) result)
        × (after ≡ some (redact_record journaled)))
unfolding get current_unacknowledged put redact_payload modify_field contains_key insert_field
cleanup_only_overdue_example =
    cleanup_only_overdue uuid answering 60 (λ r. disk) file (1, 11) (redact_record journaled)
      (λ r. refl) refl refl
