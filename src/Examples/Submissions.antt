-- ===== src/Examples/Submissions.antt =====
-- The theorems on attempts at concrete inputs.
use ctfdpp.Base.{ℕ, ◌≡◌, refl, true, false, Option, none, some, List, [], ◌∷◌, length, All}
use ctfdpp.Flags.Allocation.{FlagPolicyData}
use ctfdpp.Submissions.{
  Tables, incorrect, user, submission_count, has_solved, insert_submission,
  record_shared_flag_evidence, insert_solve,
}
use ctfdpp.Submissions.Compare.{
  FlagRow, static_flag, FlagEvaluation, all_flags, any_flag, correct_flag, partly_correct,
  flag_matches, flag_matches_literal, compare_submission, first_matching,
}
use ctfdpp.Submissions.Reference.{decision, Decides, compare_submission-Decides}
use ctfdpp.Submissions.Attempt.{Challenge, visible, Request, answered, attempt, limited}
use ctfdpp.Submissions.Solves.{Ledger, attempt-Ledger}
use ctfdpp.Submissions.Limits.{attempt-blind}

abbrev policy : FlagPolicyData
policy = record { case_sensitive = true; leet_variation = false; accept_other_users = false }

abbrev first_flag : FlagRow
first_flag = record { id = 1; flag_type = static_flag; content = 97 ∷ []; policy = some policy }

abbrev second_flag : FlagRow
second_flag = record { id = 2; flag_type = static_flag; content = 98 ∷ []; policy = some policy }

abbrev no_tables : Tables
no_tables = record {
  submissions = [];
  solves = [];
  sharing_events = [];
  assignments = [];
  users = [];
}

abbrev evaluate : Tables → ℕ → ℕ → FlagRow → List ℕ → Option FlagEvaluation
evaluate = flag_matches (λ pattern case text. none) (λ challenge text. length text) (λ text. text)

-- The answer for a flag with a literal text.
abbrev literal : FlagRow → List ℕ → FlagEvaluation
literal flag text = record {
  matched =
      flag_matches_literal (λ pattern case text. none) (λ challenge text. length text)
        (λ text. text) flag.content text true;
  shared = none;
}

literals :
    All
      (λ f. (c : List ℕ) → evaluate no_tables 4 3 f c ≡ some (literal f c))
      (first_flag ∷ second_flag ∷ [])
unfolding flag_matches
literals = (λ c. refl, (λ c. refl, tt))

compare_submission-Decides_example :
    Decides literal
      (evaluate no_tables 4 3)
      (compare_submission
        (evaluate no_tables 4 3)
        (user 3)
        4
        3
        all_flags
        false
        (first_flag ∷ second_flag ∷ [])
        (98 ∷ [])
        no_tables)
      (decision literal
        (user 3)
        4
        3
        all_flags
        false
        (first_flag ∷ second_flag ∷ [])
        (98 ∷ [])
        no_tables)
compare_submission-Decides_example =
    compare_submission-Decides literal (evaluate no_tables 4 3) (user 3) 4 3 all_flags false
      first_flag (second_flag ∷ []) (98 ∷ []) no_tables literals

-- One of two flags is a part of the solution.
partly_test :
    decision literal
      (user 3)
      4
      3
      all_flags
      false
      (first_flag ∷ second_flag ∷ [])
      (98 ∷ [])
      no_tables
    ≡ partly_correct
unfolding flag_matches_literal
partly_test = refl

abbrev challenge : Challenge
challenge = record {
  id = 4;
  supported = true;
  state = visible;
  logic = any_flag;
  max_attempts = 0;
  prerequisites = [];
}

abbrev request : Request
request = record {
  user_id = 3;
  submission = 97 ∷ [];
  preview = false;
  team_mode = false;
  incorrect_limit = 1;
  timeout_behavior = false;
  max_timeout = 300;
  now = 1000;
  date = 1000;
  fresh_id = 9;
}

attempt-Ledger_example :
    Ledger (attempt evaluate request (some challenge) (first_flag ∷ []) no_tables).0
attempt-Ledger_example =
    attempt-Ledger evaluate request (some challenge) (first_flag ∷ []) no_tables
      (record { solved = refl })

-- The right flag is a solve.
solved_test :
    (attempt evaluate request (some challenge) (first_flag ∷ []) no_tables).1
    ≡ answered correct_flag
unfolding attempt limited submission_count compare_submission first_matching flag_matches
    flag_matches_literal has_solved insert_solve insert_submission record_shared_flag_evidence
solved_test = refl

-- An incorrect submission half a minute ago.
abbrev after_guess : Tables
after_guess = record no_tables {
  submissions =
      record {
        id = 8;
        challenge_id = 4;
        user_id = 3;
        team_id = none;
        provided = 99 ∷ [];
        kind = incorrect;
        date = 970;
      }
      ∷ [];
}

attempt-blind_example :
    (attempt evaluate request (some challenge) (first_flag ∷ []) after_guess).1
    ≡ (attempt evaluate
        (record request { submission = 98 ∷ [] })
        (some challenge)
        (first_flag ∷ [])
        after_guess).1
unfolding submission_count
attempt-blind_example =
    attempt-blind evaluate request (98 ∷ []) none (some challenge) (first_flag ∷ []) after_guess
      refl refl refl
