-- ===== src/Worker/Effects.antt =====
-- services/controller/src/worker.rs and remote.rs: the effects of a command's execution. The world
-- is the tables, the journal and a trace of what the controller did; `Outside` gives the answers of
-- PostgreSQL, of the file system and of the hosts, one for each step. Between two steps, other
-- writers of the tables may do anything.
use ctfdpp.Base.{
  ℕ, ◌+◌, Bool, true, false, not, Option, none, some, String, List, ◌∷◌, ◌||◌, is_some,
}
use ctfdpp.Base.Json.{Value}
use ctfdpp.Remote.{
  RemoteServer, RemoteOperation, RemoteResult, validate_flag_value, validate_startup_timeout,
  validate_remote_server,
}
use ctfdpp.Runtime.{Db, Env}
use ctfdpp.Journal.{JournalIntent, JournalFile, Io, intent, remote_result, acknowledged}
use ctfdpp.Worker.Events.{Result, ok, error}
use ctfdpp.Worker.Transactions.{Work}

-- PostgreSQL's reply: the answer, an error before the commit, or a commit whose answer is lost.
pub data Reply : Type 0 where
  answered refused unanswered : Reply

pub record Outside : Type 0 where
  pub env : ℕ → Env
  pub others : ℕ → Db → Db
  pub reply : ℕ → Reply
  pub io : ℕ → Io
  pub ssh : ℕ → RemoteServer → RemoteOperation → Value → Option RemoteResult
  pub failure : ℕ → String  -- the text of the error, if the execution fails at a step
  pub operation_timeout : ℕ
  pub default_identity_file : Option String

-- What leaves the controller: a transaction, or a request with the journal as it was then.
pub data Act : Type 0 where
  wrote : Work → Act
  called : RemoteServer → RemoteOperation → Value → JournalFile → Option RemoteResult → Act

pub record World : Type 0 where
  pub db : Db
  pub journal : JournalFile
  pub step : ℕ
  pub trace : List Act  -- the latest first

abbrev pub M : Type 0 → Type 0
M A = World → World × Result A

infixl 5 ◌>>=◌ ◌>>◌
abbrev pub bind_result : {A B : Type 0} → World × Result A → (A → M B) → World × Result B
bind_result (w, ok a) k = k a w
bind_result (w, error s) k = (w, error s)

unfoldable pub ◌>>=◌ : {A B : Type 0} → M A → (A → M B) → M B
◌>>=◌ m k w = bind_result (m w) k

unfoldable pub ◌>>◌ : {A B : Type 0} → M A → M B → M B
unfolding ◌>>=◌
m >> k = m >>= λ a. k

unfoldable pub return : {A : Type 0} → A → M A
return a w = (w, ok a)

-- `bail!` under a condition, and `context(…)?` on an option
unfoldable pub bail_if : Outside → Bool → M (Unit {0})
bail_if o true w = (w, error (o.failure w.step))
bail_if o false w = (w, ok tt)

unfoldable pub or_bail : {A : Type 0} → Outside → Option A → M A
or_bail o none w = (w, error (o.failure w.step))
or_bail o (some a) w = (w, ok a)

-- The environment of the step, with `Utc::now()` as `clock`.
unfoldable pub ask : Outside → M Env
ask o w = (w, ok (o.env w.step))

abbrev pub replied :
    {A : Type 0} → Outside → World → List Act → Reply → Db → Db × Result A → World × Result A
replied o w acts answered before (after, a) =
    (record w { db = after; step = w.step + 1; trace = acts }, a)
replied o w acts refused before (after, a) =
    (record w { db = before; step = w.step + 1; trace = acts }, error (o.failure w.step))
replied o w acts unanswered before (after, a) =
    (record w { db = after; step = w.step + 1; trace = acts }, error (o.failure w.step))

-- A transaction of the command, and a query.
unfoldable pub transact : {A : Type 0} → Outside → Work → (Env → Db → Db × Result A) → M A
transact o what run w =
    let db = o.others w.step w.db in
    replied o w (wrote what ∷ w.trace) (o.reply w.step) db (run (o.env w.step) db)

unfoldable pub query : {A : Type 0} → Outside → (Db → A) → M A
query o read w =
    let db = o.others w.step w.db in replied o w w.trace (o.reply w.step) db (db, ok (read db))

abbrev pub journaled : Outside → World → JournalFile × Bool → World × Result (Unit {0})
journaled o w (file, true) = (record w { journal = file; step = w.step + 1 }, ok tt)
journaled o w (file, false) =
    (record w { journal = file; step = w.step + 1 }, error (o.failure w.step))

unfoldable pub write_intent : Outside → JournalIntent → M (Unit {0})
write_intent o i w = journaled o w (intent (o.io w.step) (o.env w.step).clock i w.journal)

unfoldable pub write_result : Outside → JournalIntent → RemoteResult → M (Unit {0})
write_result o i result w =
    journaled o w (remote_result (o.io w.step) (o.env w.step).clock i result w.journal)

unfoldable pub write_acknowledged : Outside → JournalIntent → M (Unit {0})
write_acknowledged o i w =
    journaled o w (acknowledged (o.io w.step) (o.env w.step).clock i w.journal)

-- The request to the helper through the SSH client; `none` is any failure of it.
unfoldable pub send : Outside → RemoteServer → RemoteOperation → Value → M RemoteResult
send o server operation payload w =
    let result = o.ssh w.step server operation payload in
    let after : World = record w {
      step = w.step + 1;
      trace = called server operation payload w.journal result ∷ w.trace;
    } in
    or_bail o result after

abbrev has_identity : Outside → RemoteServer → Bool
has_identity o server = is_some server.identity_file || is_some o.default_identity_file

-- `RemoteExecutor::execute` with the SSH driver.
unfoldable pub execute : Outside → RemoteServer → RemoteOperation → Value → M RemoteResult
execute o server operation payload = do
  bail_if o (not (validate_flag_value operation payload))
  bail_if o (not (validate_remote_server server))
  bail_if o (not (validate_startup_timeout operation payload o.operation_timeout))
  bail_if o (not (has_identity o server))
  send o server operation payload
