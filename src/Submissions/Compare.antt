-- ===== src/Submissions/Compare.antt =====
-- services/api/src/routes/challenges.rs: `flag_matches` and `compare_submission`; and from
-- flag_policy.rs the three kinds of match. The regular expressions, HMAC and the change to lower case
-- are third-party or library code and so parameters. `none` is an error, which ends the attempt.
use ctfdpp.Base.{
  ℕ, Bool, true, false, not, ◌&&◌, Option, none, some, List, [], ◌∷◌, map, ◌==◌, if◌then◌else◌, any,
  all, select, find, is_equal_to,
}
use ctfdpp.Flags.Allocation.{FlagPolicyData, Assignment}
use ctfdpp.Submissions.{
  Submission, SharedFlagEvidence, Tables, Account, user, team, partial, same_type, submitted_by,
}

pub data FlagType : Type 0 where
  static_flag regex_flag generated_flag unsupported_flag : FlagType

-- `policy` is what `serde_json` reads from the data of the row.
pub record FlagRow : Type 0 where
  pub id : ℕ
  pub flag_type : FlagType
  pub content : List ℕ
  pub policy : Option FlagPolicyData

pub record FlagEvaluation : Type 0 where
  pub matched : Bool
  pub shared : Option SharedFlagEvidence

pub data FlagMatch : Type 0 where
  no_match own_flag : FlagMatch
  other_flag : SharedFlagEvidence → FlagMatch

pub data FlagResult : Type 0 where
  correct_flag partly_correct incorrect_flag : FlagResult

pub record ComparisonResult : Type 0 where
  pub outcome : FlagResult
  pub shared : Option SharedFlagEvidence

pub data Logic : Type 0 where
  all_flags team_flags any_flag : Logic

abbrev text_eq : List ℕ → List ℕ → Bool
text_eq [] [] = true
text_eq (a ∷ xs) [] = false
text_eq [] (b ∷ ys) = false
text_eq (a ∷ xs) (b ∷ ys) = a == b && text_eq xs ys

module _ (is_match : List ℕ → Bool → List ℕ → Option Bool) (match_tag : ℕ → List ℕ → ℕ)
    (to_lowercase : List ℕ → List ℕ) where
  unfoldable pub flag_matches_literal : List ℕ → List ℕ → Bool → Bool
  flag_matches_literal saved provided case_sensitive =
      if case_sensitive
      then text_eq saved provided
      else text_eq (to_lowercase saved) (to_lowercase provided)

  abbrev tagged : ℕ → ℕ → Assignment → Bool
  tagged challenge_id tag a = a.challenge_id == challenge_id && a.match_tag == tag

  abbrev owner_match : FlagRow → FlagPolicyData → ℕ → ℕ → Option Assignment → FlagMatch
  owner_match flag policy user_id tag none = no_match
  owner_match flag policy user_id tag (some owner) =
      if not (owner.flag_id == flag.id)
      then no_match
      else if owner.user_id == user_id
      then own_flag
      else other_flag (record {
        flag_id = flag.id;
        source_user_id = owner.user_id;
        accepted = policy.accept_other_users;
        match_tag = tag;
      })

  unfoldable pub generated_flag_match :
      FlagRow → FlagPolicyData → List ℕ → ℕ → ℕ → Tables → FlagMatch
  generated_flag_match flag policy provided user_id challenge_id tables =
      let tag =
        match_tag challenge_id
          (if policy.case_sensitive then provided else to_lowercase provided) in
      owner_match flag policy user_id tag (find (tagged challenge_id tag) tables.assignments)

  abbrev evaluated : FlagMatch → FlagEvaluation
  evaluated no_match = record { matched = false; shared = none }
  evaluated own_flag = record { matched = true; shared = none }
  evaluated (other_flag evidence) = record { matched = evidence.accepted; shared = some evidence }

  abbrev unshared : Option Bool → Option FlagEvaluation
  unshared none = none
  unshared (some matched) = some (record { matched = matched; shared = none })

  abbrev matches_type :
      FlagRow → FlagPolicyData → List ℕ → ℕ → ℕ → Tables → FlagType → Option FlagEvaluation
  matches_type flag policy provided challenge_id user_id tables static_flag =
      unshared (some (flag_matches_literal flag.content provided policy.case_sensitive))
  matches_type flag policy provided challenge_id user_id tables regex_flag =
      unshared (is_match flag.content policy.case_sensitive provided)
  matches_type flag policy provided challenge_id user_id tables generated_flag =
      some (evaluated (generated_flag_match flag policy provided user_id challenge_id tables))
  matches_type flag policy provided challenge_id user_id tables unsupported_flag = none

  abbrev with_options :
      FlagRow → List ℕ → ℕ → ℕ → Tables → Option FlagPolicyData → Option FlagEvaluation
  with_options flag provided challenge_id user_id tables none = none
  with_options flag provided challenge_id user_id tables (some policy) =
      matches_type flag policy provided challenge_id user_id tables flag.flag_type

  unfoldable pub flag_matches : Tables → ℕ → ℕ → FlagRow → List ℕ → Option FlagEvaluation
  flag_matches tables challenge_id user_id flag provided =
      with_options flag provided challenge_id user_id tables flag.policy

-- The team's logic: every member must have submitted a flag.
abbrev pub team_complete : List ℕ → List ℕ → Bool
team_complete submitters members =
    all (λ m. any (λ s. s == m) submitters) members
    && all (λ s. any (λ m. m == s) members) submitters

abbrev pub is_partial : Account → ℕ → Submission → Bool
is_partial account challenge_id s =
    submitted_by account s && s.challenge_id == challenge_id && same_type s.kind partial

abbrev pub partials_of : Account → ℕ → Tables → List (List ℕ)
partials_of account challenge_id tables =
    map (λ s. s.provided) (select (is_partial account challenge_id) tables.submissions)

-- `submitters`, with the submitting user.
abbrev pub submitters_of : Account → ℕ → ℕ → Tables → List ℕ
submitters_of account challenge_id user_id tables =
    user_id ∷ map (λ s. s.user_id) (select (is_partial account challenge_id) tables.submissions)

abbrev pub account_id : Account → ℕ
account_id (user id) = id
account_id (team id) = id

abbrev pub members_of : Account → Tables → List ℕ
members_of account tables =
    map (λ u. u.id) (select (λ u. is_equal_to (account_id account) u.team_id) tables.users)

abbrev pub team_outcome : Account → ℕ → ℕ → Tables → FlagResult
team_outcome account challenge_id user_id tables =
    if team_complete (submitters_of account challenge_id user_id tables) (members_of account tables)
    then correct_flag
    else partly_correct

-- The loops of `compare_submission`, over the evaluation of a flag on a text.
abbrev pub kept_evidence :
    Option SharedFlagEvidence → Option SharedFlagEvidence → Option SharedFlagEvidence
kept_evidence shared none = shared
kept_evidence shared (some evidence) = some evidence

module _ (evaluate : FlagRow → List ℕ → Option FlagEvaluation) where
  -- The first flag that the submission matches; the evidence is that of the last evaluation with any.
  abbrev pub seen :
      FlagEvaluation
      → Option SharedFlagEvidence
      → (Option SharedFlagEvidence → Option (Bool × Option SharedFlagEvidence))
      → Option (Bool × Option SharedFlagEvidence)
  seen evaluation shared rest =
      let kept = kept_evidence shared evaluation.shared in
      let more = rest kept in if evaluation.matched then some (true, kept) else more

  abbrev pub next_flag :
      Option FlagEvaluation
      → Option SharedFlagEvidence
      → (Option SharedFlagEvidence → Option (Bool × Option SharedFlagEvidence))
      → Option (Bool × Option SharedFlagEvidence)
  next_flag none shared rest = none
  next_flag (some evaluation) shared rest = seen evaluation shared rest

  unfoldable pub first_matching :
      List ℕ → List FlagRow → Option SharedFlagEvidence → Option (Bool × Option SharedFlagEvidence)
  first_matching submission [] shared = some (false, shared)
  first_matching submission (flag ∷ flags) shared =
      next_flag (evaluate flag submission) shared (first_matching submission flags)

  -- One flag against the texts that were provided: the earlier ones, and the submission as the last.
  abbrev pub current_match :
      Option FlagEvaluation → Option SharedFlagEvidence → Option (Bool × Option SharedFlagEvidence)
  current_match none shared = none
  current_match (some evaluation) shared =
      some (evaluation.matched, kept_evidence shared evaluation.shared)

  abbrev pub earlier_match :
      Option FlagEvaluation
      → Option SharedFlagEvidence
      → Option (Bool × Option SharedFlagEvidence)
      → Option (Bool × Option SharedFlagEvidence)
  earlier_match none shared rest = none
  earlier_match (some evaluation) shared rest =
      if evaluation.matched then some (true, shared) else rest

  unfoldable pub matched_by_any :
      FlagRow
      → List (List ℕ)
      → List ℕ
      → Option SharedFlagEvidence
      → Option (Bool × Option SharedFlagEvidence)
  matched_by_any flag [] submission shared = current_match (evaluate flag submission) shared
  matched_by_any flag (earlier ∷ partials) submission shared =
      let rest = matched_by_any flag partials submission shared in
      earlier_match (evaluate flag earlier) shared rest

  abbrev pub go_on :
      Option (Bool × Option SharedFlagEvidence)
      → (Option SharedFlagEvidence → Option (Bool × Option SharedFlagEvidence))
      → Option (Bool × Option SharedFlagEvidence)
  go_on none rest = none
  go_on (some (matched, shared)) rest =
      let more = rest shared in if matched then more else some (false, shared)

  unfoldable pub all_matched :
      List (List ℕ)
      → List ℕ
      → List FlagRow
      → Option SharedFlagEvidence
      → Option (Bool × Option SharedFlagEvidence)
  all_matched partials submission [] shared = some (true, shared)
  all_matched partials submission (flag ∷ flags) shared =
      go_on (matched_by_any flag partials submission shared) (all_matched partials submission flags)

  abbrev pub outcome_or :
      FlagResult → FlagResult → Option (Bool × Option SharedFlagEvidence) → Option ComparisonResult
  outcome_or hit miss none = none
  outcome_or hit miss (some (matched, shared)) =
      some (record { outcome = if matched then hit else miss; shared = shared })

  abbrev pub compared_all :
      List ℕ → List FlagRow → Option (Bool × Option SharedFlagEvidence) → Option ComparisonResult
  compared_all submission flags none = none
  compared_all submission flags (some (matched, shared)) =
      let single =
        outcome_or partly_correct incorrect_flag (first_matching submission flags shared) in
      if matched then some (record { outcome = correct_flag; shared = shared }) else single

  abbrev pub compare_flags :
      Account → ℕ → ℕ → Logic → Bool → List FlagRow → List ℕ → Tables → Option ComparisonResult
  compare_flags account challenge_id user_id all_flags team_mode flags submission tables =
      compared_all submission flags
        (all_matched (partials_of account challenge_id tables) submission flags none)
  compare_flags account challenge_id user_id team_flags true flags submission tables =
      outcome_or (team_outcome account challenge_id user_id tables) incorrect_flag
        (first_matching submission flags none)
  compare_flags account challenge_id user_id team_flags false flags submission tables =
      outcome_or correct_flag incorrect_flag (first_matching submission flags none)
  compare_flags account challenge_id user_id any_flag team_mode flags submission tables =
      outcome_or correct_flag incorrect_flag (first_matching submission flags none)

  unfoldable pub compare_submission :
      Account → ℕ → ℕ → Logic → Bool → List FlagRow → List ℕ → Tables → Option ComparisonResult
  compare_submission account challenge_id user_id logic team_mode [] submission tables =
      some (record { outcome = incorrect_flag; shared = none })
  compare_submission account challenge_id user_id logic team_mode (flag ∷ flags) submission tables =
      compare_flags account challenge_id user_id logic team_mode (flag ∷ flags) submission tables
