-- ===== src/Worker/Claims.antt =====
-- services/controller/src/worker.rs: the claim on a command. A claimed command carries a token, and
-- every write that ends or releases the claim names the token in its WHERE clause.
use ctfdpp.Base.{
  ℕ, ◌+◌, ◌*◌, ◌^◌, min, max, Bool, false, not, ◌&&◌, Option, none, some, String, List, [], ◌∷◌,
  ltb, leb, ◌==◌, if◌then◌else◌, any, update_where, count_where, select,
}
use ctfdpp.Base.Json.{Value}
use ctfdpp.Runtime.{
  Db, Env, Command, CommandKind, CommandStatus, pending, claimed, completed, cancelled, is_claimed,
  is_pending,
}

-- What `claim_command` returns of a row.
pub record CommandRow : Type 0 where
  pub id : ℕ
  pub claim_token : ℕ
  pub instance_id : ℕ
  pub kind : CommandKind
  pub generation : ℕ
  pub setting_revision : ℕ
  pub challenge_runtime_revision : ℕ
  pub payload : Value
  pub attempts : ℕ

abbrev pub token_is : ℕ → Option ℕ → Bool
token_is t none = false
token_is t (some u) = u == t

-- id=$1 AND status='claimed' AND claim_token=$2
abbrev pub holds : CommandRow → Command → Bool
holds row c = c.id == row.id && is_claimed c.status && token_is row.claim_token c.claim_token

unfoldable pub lock_command_claim : CommandRow → Db → Bool
lock_command_claim row db = any (holds row) db.commands

abbrev pub ended : CommandStatus → Option String → ℕ → Command → Command
ended status last_error now c = record c {
  status = status;
  claimed_at = none;
  claim_token = none;
  completed_at = some now;
  last_error = last_error;
}

unfoldable pub cancel_command : Env → CommandRow → String → Db → Db
cancel_command env row reason db = record db {
  commands = update_where (holds row) (ended cancelled (some reason) env.now) db.commands;
}

unfoldable pub complete_command : Env → CommandRow → Db → Db
complete_command env row db = record db {
  commands = update_where (holds row) (ended completed none env.now) db.commands;
}

-- `none` is the error when other than one row was updated.
unfoldable pub mark_command_cancelled : Env → CommandRow → String → Db → Option Db
unfolding cancel_command
mark_command_cancelled env row reason db =
    if count_where (holds row) db.commands == 1
    then some (cancel_command env row reason db)
    else none

unfoldable pub mark_command_completed : Env → CommandRow → Db → Option Db
unfolding complete_command
mark_command_completed env row db =
    if count_where (holds row) db.commands == 1 then some (complete_command env row db) else none

-- WHERE status='pending' AND available_at <= now(), less the rows that others hold locked.
abbrev pub is_candidate : Env → Command → Bool
is_candidate env c = is_pending c.status && leb c.available_at env.now && not (env.locked c.id)

-- ORDER BY created_at LIMIT 1
abbrev pub older_of : Command → Option Command → Command
older_of c none = c
older_of c (some d) = if leb c.created_at d.created_at then c else d

unfoldable pub oldest : List Command → Option Command
oldest [] = none
oldest (c ∷ cs) = some (older_of c (oldest cs))

abbrev pub row_of : ℕ → Command → CommandRow
row_of token c = record {
  id = c.id;
  claim_token = token;
  instance_id = c.instance_id;
  kind = c.kind;
  generation = c.generation;
  setting_revision = c.setting_revision;
  challenge_runtime_revision = c.challenge_runtime_revision;
  payload = c.payload;
  attempts = c.attempts + 1;
}

abbrev pub claim : Env → Command → Command
claim env c = record c {
  status = claimed;
  claimed_at = some env.now;
  claim_token = some env.fresh_id;
  attempts = c.attempts + 1;
}

abbrev pub claim_chosen : Env → Db → Option Command → Db × Option CommandRow
claim_chosen env db none = (db, none)
claim_chosen env db (some c) = (
  record db { commands = update_where (λ d. d.id == c.id) (claim env) db.commands },
  some (row_of env.fresh_id c),
)

unfoldable pub claim_command : Env → Db → Db × Option CommandRow
claim_command env db = claim_chosen env db (oldest (select (is_candidate env) db.commands))

abbrev pub released : ℕ → String → Command → Command
released now message c = record c {
  status = pending;
  claimed_at = none;
  claim_token = none;
  available_at = now;
  last_error = some message;
}

-- claimed_at < now() - stale_after, with the subtraction moved to the other side.
unfoldable pub recover_stale_claims : Env → ℕ → Db → Db
recover_stale_claims env stale_after db = record db {
  commands =
      update_where (λ c. is_claimed c.status && claimed_before c.claimed_at)
        (released env.now "controller claim recovered after restart") db.commands;
}
  where
    claimed_before : Option ℕ → Bool
    claimed_before none = false
    claimed_before (some s) = ltb (s + stale_after) env.now

unfoldable pub recover_all_claims_on_startup : Env → Db → Db
recover_all_claims_on_startup env db = record db {
  commands =
      update_where (λ c. is_claimed c.status)
        (released env.now "controller claim recovered during single-controller startup")
        db.commands;
}

-- `attempts.clamp(1, 6)` as a shift of 5 seconds, capped at 300.
unfoldable pub retry_backoff_seconds : ℕ → ℕ
retry_backoff_seconds attempts = min (5 * 2 ^ min (max attempts 1) 6) 300
