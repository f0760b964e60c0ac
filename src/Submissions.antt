-- ===== src/Submissions.antt =====
-- services/api/src/routes/challenges.rs: the tables that an attempt at a challenge reads and writes,
-- and its queries. Identifiers are numbers, and so are instants, in seconds.
pub mod Compare
pub mod Reference
pub mod Attempt
pub mod Solves
pub mod Limits
use ctfdpp.Base.{
  ℕ, suc, ◌+◌, ◌-◌, ◌*◌, min, max, Bool, true, false, not, ◌&&◌, ◌||◌, Option, none, some, List, [],
  ◌∷◌, ◌++◌, leb, ltb, ◌==◌, if◌then◌else◌, any, select, count_where, is_equal_to,
}
use ctfdpp.Flags.Allocation.{Assignment}

pub data SubmissionType : Type 0 where
  correct partial incorrect discard ratelimited : SubmissionType

pub record Submission : Type 0 where
  pub id : ℕ
  pub challenge_id : ℕ
  pub user_id : ℕ
  pub team_id : Option ℕ
  pub provided : List ℕ
  pub kind : SubmissionType
  pub date : ℕ

pub record Solve : Type 0 where
  pub id : ℕ
  pub challenge_id : ℕ
  pub user_id : ℕ
  pub team_id : Option ℕ

pub record SharedFlagEvidence : Type 0 where
  pub flag_id : ℕ
  pub source_user_id : ℕ
  pub accepted : Bool
  pub match_tag : ℕ

-- A row of ctfzone.flag_sharing_events.
pub record SharingEvent : Type 0 where
  pub submission_id : ℕ
  pub challenge_id : ℕ
  pub submitting_user_id : ℕ
  pub team_id_snapshot : Option ℕ
  pub evidence : SharedFlagEvidence

-- The columns of ctfzone.users that an attempt reads; `is_user` says that `type` is 'user'.
pub record User : Type 0 where
  pub id : ℕ
  pub is_user : Bool
  pub team_id : Option ℕ

pub record Tables : Type 0 where
  pub submissions : List Submission
  pub solves : List Solve
  pub sharing_events : List SharingEvent
  pub assignments : List Assignment
  pub users : List User

pub data Account : Type 0 where
  user team : ℕ → Account

abbrev pub same_type : SubmissionType → SubmissionType → Bool
same_type correct correct = true
same_type partial partial = true
same_type incorrect incorrect = true
same_type discard discard = true
same_type ratelimited ratelimited = true
same_type a b = false

-- The WHERE clauses on the account.
abbrev pub submitted_by : Account → Submission → Bool
submitted_by (user id) s = s.user_id == id
submitted_by (team id) s = is_equal_to id s.team_id

abbrev pub solved_by : Account → Solve → Bool
solved_by (user id) s = s.user_id == id
solved_by (team id) s = is_equal_to id s.team_id

abbrev pub for_challenge : Option ℕ → Submission → Bool
for_challenge none s = true
for_challenge (some challenge_id) s = s.challenge_id == challenge_id

-- The cut-off may lie before the epoch of the dates, so it is how far back to look.
abbrev pub since_date : ℕ → Option ℕ → Submission → Bool
since_date now none s = true
since_date now (some window) s = leb now (s.date + window)

abbrev counted : Account → Option ℕ → ℕ → Option ℕ → SubmissionType → Submission → Bool
counted account challenge_id now window kind s =
    same_type s.kind kind
    && submitted_by account s
    && for_challenge challenge_id s
    && since_date now window s

unfoldable pub submission_count : Account → Option ℕ → ℕ → Option ℕ → SubmissionType → Tables → ℕ
submission_count account challenge_id now window kind tables =
    count_where (counted account challenge_id now window kind) tables.submissions

abbrev is_solve : Account → ℕ → Solve → Bool
is_solve account challenge_id s = solved_by account s && s.challenge_id == challenge_id

unfoldable pub has_solved : Account → ℕ → Tables → Bool
has_solved account challenge_id tables = any (is_solve account challenge_id) tables.solves

-- `insert_submission`, with the new identifier and the date that PostgreSQL supplies.
unfoldable pub insert_submission :
    ℕ → ℕ → ℕ → Option ℕ → ℕ → List ℕ → SubmissionType → Tables → Tables
insert_submission id date user_id team_id challenge_id provided kind tables = record tables {
  submissions =
      tables.submissions
      ++ record {
        id = id;
        challenge_id = challenge_id;
        user_id = user_id;
        team_id = team_id;
        provided = provided;
        kind = kind;
        date = date;
      }
        ∷ [];
}

unfoldable pub record_shared_flag_evidence :
    ℕ → ℕ → ℕ → Option ℕ → Option SharedFlagEvidence → Tables → Tables
record_shared_flag_evidence submission_id challenge_id user_id team_id none tables = tables
record_shared_flag_evidence submission_id challenge_id user_id team_id (some evidence) tables =
    record tables {
      sharing_events =
          tables.sharing_events
          ++ record {
            submission_id = submission_id;
            challenge_id = challenge_id;
            submitting_user_id = user_id;
            team_id_snapshot = team_id;
            evidence = evidence;
          }
            ∷ [];
    }

abbrev clashes : Solve → Solve → Bool
clashes new old =
    old.challenge_id == new.challenge_id
    && (old.user_id == new.user_id || same_team new.team_id old.team_id)
  where
    same_team : Option ℕ → Option ℕ → Bool
    same_team none t = false
    same_team (some id) t = is_equal_to id t

-- The INSERT into ctfzone.solves, with its unique keys on the challenge and the user, and on the
-- challenge and the team.
unfoldable pub insert_solve : Solve → Tables → Option Tables
insert_solve new tables =
    if any (clashes new) tables.solves
    then none
    else some (record tables { solves = tables.solves ++ new ∷ [] })
