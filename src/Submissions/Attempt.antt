-- ===== src/Submissions/Attempt.antt =====
-- services/api/src/routes/challenges.rs: the transaction of `attempt`, from the lock of the account
-- and the challenge to the commit. An error rolls the transaction back. The new value of a dynamic
-- challenge, which is computed in `f64`, is left out.
use ctfdpp.Base.{
  ℕ, Bool, not, ◌&&◌, Option, none, some, List, [], ◌∷◌, leb, ltb, ◌==◌, if◌then◌else◌, any, all,
  find,
}
use ctfdpp.Submissions.{
  SubmissionType, correct, partial, incorrect, discard, ratelimited, Solve, Tables, User, Account,
  user, team, solved_by, SharedFlagEvidence, submission_count, has_solved, insert_submission,
  record_shared_flag_evidence, insert_solve,
}
use ctfdpp.Submissions.Compare.{
  FlagRow, FlagEvaluation, FlagResult, correct_flag, partly_correct, incorrect_flag,
  ComparisonResult, Logic, compare_submission,
}

pub data ChallengeState : Type 0 where
  visible hidden locked : ChallengeState

-- `supported` says whether the type is standard or dynamic; `prerequisites` are the identifiers that
-- `requirements_met` reads from the requirements.
pub record Challenge : Type 0 where
  pub id : ℕ
  pub supported : Bool
  pub state : ChallengeState
  pub logic : Logic
  pub max_attempts : ℕ
  pub prerequisites : List ℕ

-- The request with its user, and the settings that it reads.
pub record Request : Type 0 where
  pub user_id : ℕ
  pub submission : List ℕ
  pub preview : Bool
  pub team_mode : Bool
  pub incorrect_limit : ℕ
  pub timeout_behavior : Bool
  pub max_timeout : ℕ
  pub now : ℕ
  pub date : ℕ
  pub fresh_id : ℕ

pub data Response : Type 0 where
  no_team not_found unsupported challenge_locked prerequisites_open no_flags failed : Response
  too_many_tries no_tries_left too_fast already_solved : Response
  answered : FlagResult → Response

abbrev pub requirements_met : Account → List ℕ → Tables → Bool
requirements_met account prerequisites tables =
    all (λ id. any (λ s. solved_by account s && s.challenge_id == id) tables.solves) prerequisites

abbrev pub account_of : Request → Tables → Option (Option ℕ)
account_of request tables =
    if request.team_mode
    then member_team (find (λ u. u.id == request.user_id && u.is_user) tables.users)
    else some none
  where
    member_team : Option User → Option (Option ℕ)
    member_team none = none
    member_team (some u) = in_team u.team_id
      where
        in_team : Option ℕ → Option (Option ℕ)
        in_team none = none
        in_team (some id) = some (some id)

abbrev pub account_from : Request → Option ℕ → Account
account_from request none = user request.user_id
account_from request (some id) = team id

module _ (evaluate : Tables → ℕ → ℕ → FlagRow → List ℕ → Option FlagEvaluation)
    (request : Request) where
  -- `insert_submission` with the data of the request.
  abbrev pub submitted : Option ℕ → ℕ → SubmissionType → Tables → Tables
  submitted team_id challenge_id kind tables =
      insert_submission request.fresh_id request.date request.user_id team_id challenge_id
        request.submission kind tables

  abbrev pub with_evidence :
      Option ℕ → ℕ → SubmissionType → Option SharedFlagEvidence → Tables → Tables
  with_evidence team_id challenge_id kind shared tables =
      record_shared_flag_evidence request.fresh_id challenge_id request.user_id team_id shared
        (submitted team_id challenge_id kind tables)

  abbrev pub committed_or : Tables → Response → Option Tables → Tables × Response
  committed_or before response none = (before, failed)
  committed_or before response (some tables) = (tables, response)

  abbrev pub solve_of_request : Option ℕ → ℕ → Solve
  solve_of_request team_id challenge_id = record {
    id = request.fresh_id;
    challenge_id = challenge_id;
    user_id = request.user_id;
    team_id = team_id;
  }

  abbrev pub with_result :
      Option ℕ → Challenge → Tables → Option SharedFlagEvidence → FlagResult → Tables × Response
  with_result team_id challenge tables shared correct_flag =
      committed_or tables (answered correct_flag) (
        insert_solve (solve_of_request team_id challenge.id)
          (with_evidence team_id challenge.id correct shared tables))
  with_result team_id challenge tables shared partly_correct =
      (with_evidence team_id challenge.id partial shared tables, answered partly_correct)
  with_result team_id challenge tables shared incorrect_flag =
      (with_evidence team_id challenge.id incorrect shared tables, answered incorrect_flag)

  abbrev pub compared : Option ℕ → Challenge → Tables → Option ComparisonResult → Tables × Response
  compared team_id challenge tables none = (tables, failed)
  compared team_id challenge tables (some comparison) =
      if has_solved (account_from request team_id) challenge.id tables
      then (with_evidence team_id challenge.id discard comparison.shared tables, already_solved)
      else with_result team_id challenge tables comparison.shared comparison.outcome

  abbrev pub comparison_of : Option ℕ → Challenge → List FlagRow → Tables → Option ComparisonResult
  comparison_of team_id challenge flags tables =
      compare_submission (evaluate tables challenge.id request.user_id)
        (account_from request team_id) challenge.id request.user_id challenge.logic
        request.team_mode flags request.submission tables

  abbrev pub recent_incorrect : Option ℕ → Tables → ℕ
  recent_incorrect team_id tables =
      submission_count (account_from request team_id) none request.now (some 60) incorrect tables

  abbrev pub attempt_window : Option ℕ
  attempt_window = if request.timeout_behavior then some request.max_timeout else none

  abbrev pub out_of_tries : Option ℕ → Challenge → Tables → Bool
  out_of_tries team_id challenge tables =
      ltb 0 challenge.max_attempts
      && leb challenge.max_attempts (
          submission_count (account_from request team_id) (some challenge.id) request.now
            attempt_window incorrect tables)

  unfoldable pub limited : Option ℕ → Challenge → List FlagRow → Tables → Tables × Response
  limited team_id challenge flags tables =
      if out_of_tries team_id challenge tables
      then (if request.timeout_behavior
          then (submitted team_id challenge.id ratelimited tables, too_many_tries)
          else (tables, no_tries_left))
      else if leb request.incorrect_limit (recent_incorrect team_id tables)
      then (submitted team_id challenge.id ratelimited tables, too_fast)
      else compared team_id challenge tables (comparison_of team_id challenge flags tables)

  abbrev pub previewed : Tables → Option ComparisonResult → Tables × Response
  previewed tables none = (tables, failed)
  previewed tables (some comparison) = (tables, answered comparison.outcome)

  abbrev pub with_flags : Option ℕ → Challenge → List FlagRow → Tables → Tables × Response
  with_flags team_id challenge [] tables = (tables, no_flags)
  with_flags team_id challenge (flag ∷ flags) tables =
      if request.preview
      then previewed tables (comparison_of team_id challenge (flag ∷ flags) tables)
      else limited team_id challenge (flag ∷ flags) tables

  abbrev pub refused : Option ℕ → Challenge → Tables → Option Response
  refused team_id challenge tables =
      if not challenge.supported
      then some unsupported
      else if request.preview
      then none
      else for_state challenge.state
    where
      for_state : ChallengeState → Option Response
      for_state hidden = some not_found
      for_state locked = some challenge_locked
      for_state visible =
          if requirements_met (account_from request team_id) challenge.prerequisites tables
          then none
          else some prerequisites_open

  abbrev pub unless_refused : Tables → Option Response → Tables × Response → Tables × Response
  unless_refused tables (some response) rest = (tables, response)
  unless_refused tables none rest = rest

  abbrev pub with_challenge :
      Option ℕ → List FlagRow → Tables → Option Challenge → Tables × Response
  with_challenge team_id flags tables none = (tables, not_found)
  with_challenge team_id flags tables (some challenge) =
      unless_refused tables (refused team_id challenge tables)
        (with_flags team_id challenge flags tables)

  abbrev pub with_account :
      Option Challenge → List FlagRow → Tables → Option (Option ℕ) → Tables × Response
  with_account challenge flags tables none = (tables, no_team)
  with_account challenge flags tables (some team_id) = with_challenge team_id flags tables challenge

  unfoldable pub attempt : Option Challenge → List FlagRow → Tables → Tables × Response
  attempt challenge flags tables = with_account challenge flags tables (account_of request tables)
