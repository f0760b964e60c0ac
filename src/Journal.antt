-- ===== src/Journal.antt =====
-- services/controller/src/journal.rs: the controller's operation journal, an append-only file of one
-- JSON record to a line that says which remote operations PostgreSQL has not acknowledged.
-- The file is the list of its lines, as the reader tells them apart, and the text behind its last
-- newline. What the file system answers to one call of `append` (a failed write and what it leaves,
-- the file's length, how far compaction got) is an `Io`.
-- A file that cannot be read, or is not UTF-8, for which the source returns an error, is left out.
-- Instants and identifiers are numbers; `updated_at` is an argument, the clock's answer.
pub mod Redaction
pub mod Replay
pub mod Compaction
pub mod Recovery
use ctfdpp.Base.{
  ℕ, ◌*◌, Bool, true, false, not, ◌&&◌, ◌||◌, Option, none, some, List, [], ◌∷◌, ◌++◌, map, String,
  ltb, leb, ◌==◌, if◌then◌else◌,
}
use ctfdpp.Base.Json.{
  Value, object, string, Fields, contains_key, insert_field, modify_field, get_member, number,
  field, end,
}
use ctfdpp.Base.Keyed.{remove, put, pair_eq}
use ctfdpp.Base.Keyed.Sorting.{sort_by}
use ctfdpp.Remote.{
  RemoteServer, RemoteOperation, RemoteResult, stop_instance, is_some_true, or_else,
}

pub data JournalPhase : Type 0 where
  intent_phase result_phase database_acknowledged degraded_cleanup : JournalPhase

pub record JournalRecord : Type 0 where
  pub instance_id : ℕ
  pub command_id : ℕ
  pub generation : ℕ
  pub setting_revision : ℕ
  pub challenge_runtime_revision : ℕ
  pub operation : RemoteOperation
  pub phase : JournalPhase
  pub remote_server : Option RemoteServer
  pub effective_expires_at : ℕ
  pub remote_result : Option RemoteResult
  pub payload : Option Value
  pub updated_at : ℕ

pub record JournalIntent : Type 0 where
  pub instance_id : ℕ
  pub command_id : ℕ
  pub generation : ℕ
  pub setting_revision : ℕ
  pub challenge_runtime_revision : ℕ
  pub operation : RemoteOperation
  pub remote_server : Option RemoteServer
  pub effective_expires_at : ℕ
  pub payload : Value

abbrev pub redacted_flag_value : String
redacted_flag_value = "[redacted]"

abbrev pub redact_flag : Fields → Fields
redact_flag ds =
    if contains_key "flag_value" ds
    then insert_field "flag_value" (string redacted_flag_value) ds
    else ds

abbrev pub redact_deployment : Value → Value
redact_deployment (object ds) = object (redact_flag ds)
redact_deployment v = v

unfoldable pub redact_payload : Value → Value
redact_payload (object fs) = object (modify_field "deployment" redact_deployment fs)
redact_payload v = v

abbrev pub redact_option : Option Value → Option Value
redact_option none = none
redact_option (some v) = some (redact_payload v)

abbrev pub redact_record : JournalRecord → JournalRecord
redact_record r = record r { payload = redact_option r.payload }

-- A line that is blank, one that parses as a record, and one that does not.
pub data Line : Type 0 where
  blank : Line
  entry : JournalRecord → Line
  invalid : Line

-- The lines that end in a newline, and the text behind the last of them, if there is any.
pub record FileText : Type 0 where
  pub lines : List Line
  pub tail : Option Line

-- `none` is a file that is not there.
abbrev pub JournalFile : Type 0
JournalFile = Option FileText

abbrev pub empty_text : FileText
empty_text = record { lines = []; tail = none }

abbrev pub text_of : JournalFile → FileText
text_of none = empty_text
text_of (some t) = t

abbrev pub tail_lines : Option Line → List Line
tail_lines none = []
tail_lines (some l) = l ∷ []

-- `str::lines` yields an unterminated last line too.
abbrev pub lines_of : JournalFile → List Line
lines_of file = (text_of file).lines ++ tail_lines (text_of file).tail

-- A line written behind an unterminated one: JSON behind blanks is read, and JSON behind a record
-- or a part of one is not.
abbrev pub glue : Option Line → Line → Line
glue none l = l
glue (some blank) l = l
glue (some (entry r)) l = invalid
glue (some invalid) l = invalid

abbrev pub key : JournalRecord → ℕ × ℕ
key r = (r.instance_id, r.command_id)

abbrev pub is_acknowledged : JournalPhase → Bool
is_acknowledged database_acknowledged = true
is_acknowledged phase = false

abbrev pub is_degraded : JournalPhase → Bool
is_degraded degraded_cleanup = true
is_degraded phase = false

-- One line of `current_unacknowledged_locked`'s loop.
abbrev pub replay_record : JournalRecord → List JournalRecord → List JournalRecord
replay_record r current =
    if is_acknowledged r.phase then remove key (key r) current else put key r current

abbrev pub replay_line : Line → List JournalRecord → List JournalRecord
replay_line blank current = current
replay_line (entry r) current = replay_record (redact_record r) current
replay_line invalid current = current

unfoldable pub replay : List Line → List JournalRecord → List JournalRecord
replay [] current = current
replay (l ∷ ls) current = replay ls (replay_line l current)

unfoldable pub current_unacknowledged : JournalFile → List JournalRecord
unfolding replay
current_unacknowledged file = replay (lines_of file) []

-- The order by `updated_at`, then `instance_id`, then `command_id`.
pub older : JournalRecord → JournalRecord → Bool
older a b =
    if not (a.updated_at == b.updated_at)
    then ltb a.updated_at b.updated_at
    else if not (a.instance_id == b.instance_id)
    then ltb a.instance_id b.instance_id
    else leb a.command_id b.command_id

-- How far `compact_locked` gets: the journal could not be read or its replacement not be written,
-- the rename succeeded but the directory could not be synced, or all succeeded.
pub data Replacement : Type 0 where
  not_replaced replaced_unsynced replaced : Replacement

unfoldable pub compacted : List JournalRecord → FileText
compacted rs = record { lines = map entry (sort_by key older rs); tail = none }

unfoldable pub compact_locked : Replacement → JournalFile → JournalFile × Bool
unfolding compacted
compact_locked not_replaced file = (file, false)
compact_locked replaced_unsynced file = (some (compacted (current_unacknowledged file)), false)
compact_locked replaced file = (some (compacted (current_unacknowledged file)), true)

-- What a write or sync that failed leaves: nothing, a part of the line, the record without its
-- newline, or the line.
pub data Torn : Type 0 where
  nothing fragment unterminated whole_line : Torn

-- The file system's answers to one call of `append`.
pub record Io : Type 0 where
  pub written : Bool
  pub torn : Torn
  pub file_length : Option ℕ
  pub compaction : Replacement

abbrev pub compaction_threshold_bytes : ℕ
compaction_threshold_bytes = 1024 * 1024

abbrev pub threshold_reached : Option ℕ → Bool
threshold_reached none = false
threshold_reached (some n) = leb compaction_threshold_bytes n

abbrev pub write_line : Line → FileText → FileText
write_line l t = record { lines = t.lines ++ glue t.tail l ∷ []; tail = none }

abbrev pub write_torn : Torn → Line → FileText → FileText
write_torn nothing l t = t
write_torn fragment l t = record t { tail = some (glue t.tail invalid) }
write_torn unterminated l t = record t { tail = some (glue t.tail l) }
write_torn whole_line l t = write_line l t

unfoldable pub append_locked : Io → JournalRecord → JournalFile → JournalFile × Bool
append_locked io r file =
    if io.written
    then (some (write_line (entry (redact_record r)) (text_of file)), true)
    else (some (write_torn io.torn (entry (redact_record r)) (text_of file)), false)

-- A failed compaction is logged only.
unfoldable pub append : Io → JournalRecord → JournalFile → JournalFile × Bool
unfolding append_locked
append io r file =
    let (file', done) = append_locked io r file in
    let immediate = is_acknowledged r.phase || is_degraded r.phase in
    if not done
    then (file', false)
    else if immediate || threshold_reached io.file_length
    then ((compact_locked io.compaction file').0, true)
    else (file', true)

abbrev pub intent_record : ℕ → JournalIntent → JournalRecord
intent_record now i = record {
  instance_id = i.instance_id;
  command_id = i.command_id;
  generation = i.generation;
  setting_revision = i.setting_revision;
  challenge_runtime_revision = i.challenge_runtime_revision;
  operation = i.operation;
  phase = intent_phase;
  remote_server = i.remote_server;
  effective_expires_at = i.effective_expires_at;
  remote_result = none;
  payload = some (redact_payload i.payload);
  updated_at = now;
}

abbrev pub result_record : ℕ → JournalIntent → RemoteResult → JournalRecord
result_record now i result = record {
  instance_id = i.instance_id;
  command_id = i.command_id;
  generation = i.generation;
  setting_revision = i.setting_revision;
  challenge_runtime_revision = i.challenge_runtime_revision;
  operation = i.operation;
  phase = result_phase;
  remote_server = i.remote_server;
  effective_expires_at = or_else result.effective_expires_at i.effective_expires_at;
  remote_result = some result;
  payload = some (redact_payload i.payload);
  updated_at = now;
}

abbrev pub acknowledged_record : ℕ → JournalIntent → JournalRecord
acknowledged_record now i = record {
  instance_id = i.instance_id;
  command_id = i.command_id;
  generation = i.generation;
  setting_revision = i.setting_revision;
  challenge_runtime_revision = i.challenge_runtime_revision;
  operation = i.operation;
  phase = database_acknowledged;
  remote_server = i.remote_server;
  effective_expires_at = i.effective_expires_at;
  remote_result = none;
  payload = none;
  updated_at = now;
}

unfoldable pub intent : Io → ℕ → JournalIntent → JournalFile → JournalFile × Bool
unfolding append
intent io now i = append io (intent_record now i)

unfoldable pub remote_result :
    Io → ℕ → JournalIntent → RemoteResult → JournalFile → JournalFile × Bool
unfolding append
remote_result io now i result = append io (result_record now i result)

unfoldable pub acknowledged : Io → ℕ → JournalIntent → JournalFile → JournalFile × Bool
unfolding append
acknowledged io now i = append io (acknowledged_record now i)
