-- ===== src/Submissions/Reference.antt =====
-- services/api/src/routes/challenges.rs: what `compare_submission` decides, without its loops.
use ctfdpp.Base.{
  ℕ, ◌≡◌, refl, inl, inr, Bool, true, false, Option, none, some, List, [], ◌∷◌, ◌++◌, All,
  if◌then◌else◌, any, all, Bool-cases,
}
use ctfdpp.Submissions.{Tables, Account, SharedFlagEvidence}
use ctfdpp.Submissions.Compare.{
  FlagRow, FlagEvaluation, FlagResult, correct_flag, partly_correct, incorrect_flag,
  ComparisonResult, Logic, all_flags, team_flags, any_flag, first_matching, matched_by_any,
  all_matched, kept_evidence, outcome_or, partials_of, team_outcome, compare_flags,
  compare_submission,
}

module _ (e : FlagRow → List ℕ → FlagEvaluation) where
  abbrev matches_one : List FlagRow → List ℕ → Bool
  matches_one flags submission = any (λ f. (e f submission).matched) flags

  abbrev matches_with_earlier : List FlagRow → List (List ℕ) → List ℕ → Bool
  matches_with_earlier flags partials submission =
      all (λ f. any (λ c. (e f c).matched) (partials ++ submission ∷ [])) flags

  -- The decision: for the logic of all flags, every flag is matched by the submission or by an earlier
  -- partial one; for the team's logic every member has submitted a flag; else one flag is matched.
  abbrev pub decision : Account → ℕ → ℕ → Logic → Bool → List FlagRow → List ℕ → Tables → FlagResult
  decision account challenge_id user_id all_flags team_mode flags submission tables =
      if matches_with_earlier flags (partials_of account challenge_id tables) submission
      then correct_flag
      else if matches_one flags submission
      then partly_correct
      else incorrect_flag
  decision account challenge_id user_id team_flags true flags submission tables =
      if matches_one flags submission
      then team_outcome account challenge_id user_id tables
      else incorrect_flag
  decision account challenge_id user_id team_flags false flags submission tables =
      if matches_one flags submission then correct_flag else incorrect_flag
  decision account challenge_id user_id any_flag team_mode flags submission tables =
      if matches_one flags submission then correct_flag else incorrect_flag

  module _ (evaluate : FlagRow → List ℕ → Option FlagEvaluation) where
    -- The flag can be evaluated on every text.
    abbrev pub Evaluates : FlagRow → Type 0
    Evaluates f = (c : List ℕ) → evaluate f c ≡ some (e f c)

    -- A loop that ends with the given answer, and some evidence.
    abbrev Answers : Option (Bool × Option SharedFlagEvidence) → Bool → Type 0
    Answers result b = (shared : Option SharedFlagEvidence) × (result ≡ some (b, shared))

    first_matching-Answers :
        (submission : List ℕ) (flags : List FlagRow) (shared : Option SharedFlagEvidence)
        → All Evaluates flags
        → Answers (first_matching evaluate submission flags shared) (matches_one flags submission)
    unfolding first_matching
    first_matching-Answers submission [] shared total = (shared, refl)
    first_matching-Answers submission (f ∷ flags) shared total =
        let kept = kept_evidence shared (e f submission).shared in
        elim (Bool-cases (e f submission).matched) [
          | inl hit ↦ (kept, rw (total.0 submission, hit) refl)
          | inr miss ↦
              let r = first_matching-Answers submission flags kept total.1 in
              (r.0, rw (total.0 submission, miss) r.1)
        ]

    matched_by_any-Answers :
        (f : FlagRow) (partials : List (List ℕ)) (submission : List ℕ)
        (shared : Option SharedFlagEvidence)
        → Evaluates f
        → Answers
            (matched_by_any evaluate f partials submission shared)
            (any (λ c. (e f c).matched) (partials ++ submission ∷ []))
    unfolding matched_by_any
    matched_by_any-Answers f [] submission shared total =
        let kept = kept_evidence shared (e f submission).shared in
        elim (Bool-cases (e f submission).matched) [
          | inl hit ↦ (kept, rw (total submission, hit) refl)
          | inr miss ↦ (kept, rw (total submission, miss) refl)
        ]
    matched_by_any-Answers f (c ∷ partials) submission shared total =
        elim (Bool-cases (e f c).matched) [
          | inl hit ↦ (shared, rw (total c, hit) refl)
          | inr miss ↦
              let r = matched_by_any-Answers f partials submission shared total in
              (r.0, rw (total c, miss) r.1)
        ]

    all_matched-Answers :
        (partials : List (List ℕ)) (submission : List ℕ) (flags : List FlagRow)
        (shared : Option SharedFlagEvidence)
        → All Evaluates flags
        → Answers
            (all_matched evaluate partials submission flags shared)
            (matches_with_earlier flags partials submission)
    unfolding all_matched
    all_matched-Answers partials submission [] shared total = (shared, refl)
    all_matched-Answers partials submission (f ∷ flags) shared total =
        let one = matched_by_any-Answers f partials submission shared total.0 in
        elim (Bool-cases (any (λ c. (e f c).matched) (partials ++ submission ∷ []))) [
          | inl hit ↦
              let r = all_matched-Answers partials submission flags one.0 total.1 in
              (r.0, rw (one.1, hit) r.1)
          | inr miss ↦ (one.0, rw (one.1, miss) refl)
        ]

    -- The comparison ends with the given outcome.
    abbrev pub Decides : Option ComparisonResult → FlagResult → Type 0
    Decides result outcome =
        (shared : Option SharedFlagEvidence) × (result
          ≡ some (record { outcome = outcome; shared = shared }))

    single-Decides :
        (hit : FlagResult) (submission : List ℕ) (flags : List FlagRow)
        → All Evaluates flags
        → Decides
            (outcome_or evaluate hit incorrect_flag (first_matching evaluate submission flags none))
            (if matches_one flags submission then hit else incorrect_flag)
    single-Decides hit submission flags total =
        let r = first_matching-Answers submission flags none total in (r.0, rw r.1 refl)

    compare_flags-Decides :
        (account : Account) (challenge_id user_id : ℕ) (logic : Logic) (team_mode : Bool)
        (flags : List FlagRow) (submission : List ℕ) (tables : Tables)
        → All Evaluates flags
        → Decides
            (compare_flags evaluate account challenge_id user_id logic team_mode flags submission
              tables)
            (decision account challenge_id user_id logic team_mode flags submission tables)
    compare_flags-Decides account challenge_id user_id all_flags team_mode flags submission tables
          total =
        let partials = partials_of account challenge_id tables in
        let whole = all_matched-Answers partials submission flags none total in
        elim (Bool-cases (matches_with_earlier flags partials submission)) [
          | inl every ↦ (whole.0, rw (whole.1, every) refl)
          | inr some_open ↦
              let r = first_matching-Answers submission flags whole.0 total in
              (r.0, rw (whole.1, some_open, r.1) refl)
        ]
    compare_flags-Decides account challenge_id user_id team_flags true flags submission tables
          total =
        single-Decides (team_outcome account challenge_id user_id tables) submission flags total
    compare_flags-Decides account challenge_id user_id team_flags false flags submission tables
          total =
        single-Decides correct_flag submission flags total
    compare_flags-Decides account challenge_id user_id any_flag team_mode flags submission tables
          total =
        single-Decides correct_flag submission flags total

    -- When every flag of the challenge can be evaluated, `compare_submission` ends without an error and
    -- with the outcome of `decision`: no loop stops too early or goes on too long.
    pub compare_submission-Decides :
        (account : Account) (challenge_id user_id : ℕ) (logic : Logic) (team_mode : Bool)
        (flag : FlagRow) (flags : List FlagRow) (submission : List ℕ) (tables : Tables)
        → All Evaluates (flag ∷ flags)
        → Decides
            (compare_submission evaluate account challenge_id user_id logic team_mode
              (flag ∷ flags)
              submission
              tables)
            (decision account challenge_id user_id logic team_mode (flag ∷ flags) submission tables)
    unfolding compare_submission
    compare_submission-Decides account challenge_id user_id logic team_mode flag flags submission
          tables total =
        compare_flags-Decides account challenge_id user_id logic team_mode (flag ∷ flags) submission
          tables total
