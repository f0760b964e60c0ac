-- ===== src/Lib.antt =====
-- CTFZone, a platform for capture-the-flag events: the controller that runs challenge instances on
-- remote hosts (services/controller, in Rust), with the tables that it shares with the API, the rate
-- limiter of the API (services/api), and the SSH gateway that opens terminals on the hosts of players
-- (services/ssh-gateway).
--
-- Runtime: the rows of db/init/003-runtime-control-plane.sql that the controller reads and writes,
--   and `Env`, what PostgreSQL supplies to a statement (the time, new identifiers, row locks, the
--   collation). Base holds lists, keyed tables and JSON values.
-- Remote: services/controller/src/remote.rs, the requests to a host's helper, the helper's answer,
--   and the checks before a request leaves.
-- Journal: services/controller/src/journal.rs, the append-only file that outlives a crash. A file is
--   its list of lines with the line that is not terminated, if there is one; `append` takes the
--   answers of the file system, failures in the middle of a write or of the compaction included.
--   Journal/Recovery has the loops `reconcile_database_acknowledgements` and
--   `cleanup_overdue_without_database` (Reconciling and Cleaning are about them); the other children are about what the file yields when it
--   is read (Replay, Compaction) and what it never holds (Redaction). The error of a file that cannot
--   be read, or is not UTF-8, is left out.
-- Worker: services/controller/src/worker.rs. Claims is the queue of commands with its claim tokens,
--   Termination the statements that queue terminate commands, Transitions (Start, Stop, Inspect)
--   the transactions in which a claimed command changes its instance, Transactions all of these as
--   one type (the queueing of inspections is left out), and Effects and Execute the functions `execute_command`, `execute_start`,
--   `execute_terminate`, `execute_extend` and `execute_inspect` over tables, journal and host.
--   Fencing, Stale, Retry, Queue, Transitions/Placement and the children of Execute hold proofs.
-- RateLimit: services/api/src/rate_limit.rs, the fixed windows that bound how often a subject may
--   try an operation.
-- Gateway: services/ssh-gateway/src. Address is `IpAddr`, Policy the settings of config.rs,
--   Destination the checks of destination.rs (Ranges4, Ranges6 and Scope on private ranges, Resolution
--   on `resolve`), Tickets the token buckets of rate_limit.rs, Ssh the checks of ssh.rs, and Terminal
--   the sessions of terminal.rs: Session is `session` and `run_grant`, Bridge is `bridge_terminal`.
--   A session is the list of its actions; `World` has what the name service, the API, the files, the
--   SSH processes and the browser answer, for the loop one `Poll` for each turn of its `select!`.
--   Tokens are whole units of 10⁻⁹ of a token where the code has `f64`. `ipnet`, base64 and SHA-256
--   are parameters.
-- Flags: services/api/src/routes/flag_policy.rs, the flags that are generated for each user: the
--   rendering of a template (Slots, Described and Variants are about it) and, in Allocation, the choice
--   of a mask and the row of ctfzone.user_challenge_flags that it is stored in (Free and Distinct).
--   A template with leet variation has at most 62 positions (MAX_LEET_POSITIONS, which a definition is checked for
--   when it is stored), so the shifts of 64-bit masks are powers of two without a bound here.
-- Submissions: services/api/src/routes/challenges.rs, an attempt at a challenge. The parent has the
--   tables and their queries, Compare is `flag_matches` and `compare_submission` (Reference says what
--   they decide without the loops), Attempt the transaction of `attempt` from the lock of the account
--   to its commit (Solves is about the solves that it leaves, Limits about guesses). The clock, the
--   new identifiers, the regular expressions, HMAC and `to_lowercase` are parameters; a limit on the
--   attempts that is absent or not positive is 0.
-- Examples: the theorems at concrete inputs.
--
-- A transaction is a function on the tables: PostgreSQL runs the transactions of the controller one
-- after another, and `Outside.others` stands for those of other writers in between. A statement that
-- fails rolls back, or commits with its answer lost (`Outside.reply`). The SSH client and the helper
-- are `Outside.ssh`, any function into an optional result. The texts of the errors within an
-- execution are `Outside.failure`. The development driver that answers without a host is left out.
--
-- Loops run over the finite list that they are given, so there is no fuel. Identifiers are numbers,
-- instants are numbers of seconds, and a generation is a number: the source adds one to a
-- positive bigint without a check, and the largest is left out.
--
-- Not modelled: the connection loop and its shutdown, the queueing of inspections, the mode that the
-- controller reports, its configuration and object storage, of an attempt the
-- checks before its transaction and the new value of a dynamic challenge (`f64`), the rest of the API
-- (services/api), and
-- of the SSH gateway the upgrade request, the key files (identity.rs) and the arguments of the SSH
-- client; and the Python parts.
pub mod Base
pub mod Runtime
pub mod Remote
pub mod Journal
pub mod Worker
pub mod Flags
pub mod Gateway
pub mod RateLimit
pub mod Submissions
pub mod Examples
