-- ===== src/Submissions/Solves.antt =====
-- services/api/src/routes/challenges.rs: what an attempt leaves in the tables.
use ctfdpp.Base.{
  ℕ, ◌≡◌, ◌∙◌, ap, refl, inl, inr, Bool, true, false, Option, none, some, List, [], ◌∷◌, ◌++◌, map,
  if◌then◌else◌, any, select, leb, Bool-cases,
}
use ctfdpp.Submissions.{
  SubmissionType, correct, partial, incorrect, discard, ratelimited, Submission, Solve, Tables,
  SharedFlagEvidence, same_type, has_solved, insert_submission, record_shared_flag_evidence,
  insert_solve, clashes,
}
use ctfdpp.Submissions.Compare.{
  FlagRow, FlagEvaluation, FlagResult, correct_flag, partly_correct, incorrect_flag,
  ComparisonResult,
}
use ctfdpp.Submissions.Attempt.{
  Challenge, Request, Response, account_of, account_from, submitted, with_evidence,
  solve_of_request, with_result, compared, comparison_of, out_of_tries, recent_incorrect, limited,
  previewed, with_flags, refused, unless_refused, with_account, attempt,
}

-- The solve that a correct submission stands for.
abbrev pub solve_of : Submission → Solve
solve_of s = record {
  id = s.id;
  challenge_id = s.challenge_id;
  user_id = s.user_id;
  team_id = s.team_id;
}

abbrev pub is_correct : Submission → Bool
is_correct s = same_type s.kind correct

-- The solves are those of the correct submissions, in their order.
pub record Ledger (tables : Tables) : Type 0 where
  pub solved : map solve_of (select is_correct tables.submissions) ≡ tables.solves

select_append :
    (xs : List Submission) (s : Submission)
    → map solve_of (select is_correct (xs ++ s ∷ []))
      ≡ map solve_of (select is_correct xs) ++ (if is_correct s then solve_of s ∷ [] else [])
select_append [] s = elim (Bool-cases (is_correct s)) [
  | inl hit ↦ rw hit refl
  | inr miss ↦ rw miss refl
]
select_append (x ∷ xs) s = elim (Bool-cases (is_correct x)) [
  | inl hit ↦ rw hit (ap (λ l. solve_of x ∷ l) (select_append xs s))
  | inr miss ↦ rw miss (select_append xs s)
]

append_none : (xs : List Solve) → xs ++ [] ≡ xs
append_none [] = refl
append_none (x ∷ xs) = ap (λ l. x ∷ l) (append_none xs)

module _ (evaluate : Tables → ℕ → ℕ → FlagRow → List ℕ → Option FlagEvaluation)
    (request : Request) where
  abbrev KeepsLedger : Tables × Response → Type 0
  KeepsLedger r = Ledger r.0

  submitted-Ledger :
      (team_id : Option ℕ) (challenge_id : ℕ) (kind : SubmissionType) (tables : Tables)
      → same_type kind correct ≡ false
      → Ledger tables
      → Ledger (submitted evaluate request team_id challenge_id kind tables)
  unfolding insert_submission
  submitted-Ledger team_id challenge_id kind tables other h = record {
    solved = select_append tables.submissions _ ∙ rw other (append_none _) ∙ h.solved;
  }

  with_evidence-Ledger :
      (team_id : Option ℕ) (challenge_id : ℕ) (kind : SubmissionType)
      (shared : Option SharedFlagEvidence) (tables : Tables)
      → same_type kind correct ≡ false
      → Ledger tables
      → Ledger (with_evidence evaluate request team_id challenge_id kind shared tables)
  unfolding record_shared_flag_evidence
  with_evidence-Ledger team_id challenge_id kind none tables other h =
      submitted-Ledger team_id challenge_id kind tables other h
  with_evidence-Ledger team_id challenge_id kind (some evidence) tables other h =
      let k = submitted-Ledger team_id challenge_id kind tables other h in
      record { solved = k.solved }

  correct-Ledger :
      (team_id : Option ℕ) (challenge : Challenge) (tables : Tables)
      (shared : Option SharedFlagEvidence)
      → Ledger tables
      → KeepsLedger (with_result evaluate request team_id challenge tables shared correct_flag)
  unfolding insert_solve insert_submission record_shared_flag_evidence
  correct-Ledger team_id challenge tables none h =
      elim (Bool-cases
        (any (clashes (solve_of_request evaluate request team_id challenge.id)) tables.solves)) [
          | inl clash ↦ rw clash h
          | inr fresh ↦ rw fresh (record {
            solved =
                select_append tables.submissions _
                ∙ ap (λ l. l ++ solve_of_request evaluate request team_id challenge.id ∷ [])
                    h.solved;
          })
        ]
  correct-Ledger team_id challenge tables (some evidence) h =
      elim (Bool-cases
        (any (clashes (solve_of_request evaluate request team_id challenge.id)) tables.solves)) [
          | inl clash ↦ rw clash h
          | inr fresh ↦ rw fresh (record {
            solved =
                select_append tables.submissions _
                ∙ ap (λ l. l ++ solve_of_request evaluate request team_id challenge.id ∷ [])
                    h.solved;
          })
        ]

  Ledger-if :
      (b : Bool) (x y : Tables × Response)
      → KeepsLedger x
      → KeepsLedger y
      → KeepsLedger (if b then x else y)
  Ledger-if true x y hx hy = hx
  Ledger-if false x y hx hy = hy

  with_result-Ledger :
      (team_id : Option ℕ) (challenge : Challenge) (tables : Tables)
      (shared : Option SharedFlagEvidence) (result : FlagResult)
      → Ledger tables
      → KeepsLedger (with_result evaluate request team_id challenge tables shared result)
  with_result-Ledger team_id challenge tables shared correct_flag h =
      correct-Ledger team_id challenge tables shared h
  with_result-Ledger team_id challenge tables shared partly_correct h =
      with_evidence-Ledger team_id challenge.id partial shared tables refl h
  with_result-Ledger team_id challenge tables shared incorrect_flag h =
      with_evidence-Ledger team_id challenge.id incorrect shared tables refl h

  compared-Ledger :
      (team_id : Option ℕ) (challenge : Challenge) (tables : Tables)
      (comparison : Option ComparisonResult)
      → Ledger tables
      → KeepsLedger (compared evaluate request team_id challenge tables comparison)
  compared-Ledger team_id challenge tables none h = h
  compared-Ledger team_id challenge tables (some comparison) h =
      Ledger-if (has_solved (account_from request team_id) challenge.id tables) _ _
        (with_evidence-Ledger team_id challenge.id discard comparison.shared tables refl h)
        (with_result-Ledger team_id challenge tables comparison.shared comparison.outcome h)

  limited-Ledger :
      (team_id : Option ℕ) (challenge : Challenge) (flags : List FlagRow) (tables : Tables)
      → Ledger tables
      → KeepsLedger (limited evaluate request team_id challenge flags tables)
  unfolding limited
  limited-Ledger team_id challenge flags tables h =
      let noted = submitted-Ledger team_id challenge.id ratelimited tables refl h in
      Ledger-if (out_of_tries evaluate request team_id challenge tables) _ _
        (Ledger-if request.timeout_behavior _ _ noted h)
        (Ledger-if (leb request.incorrect_limit (recent_incorrect evaluate request team_id tables))
          _ _ noted
          (compared-Ledger team_id challenge tables
            (comparison_of evaluate request team_id challenge flags tables) h))

  previewed-Ledger :
      (tables : Tables) (comparison : Option ComparisonResult)
      → Ledger tables
      → KeepsLedger (previewed evaluate request tables comparison)
  previewed-Ledger tables none h = h
  previewed-Ledger tables (some comparison) h = h

  with_flags-Ledger :
      (team_id : Option ℕ) (challenge : Challenge) (flags : List FlagRow) (tables : Tables)
      → Ledger tables
      → KeepsLedger (with_flags evaluate request team_id challenge flags tables)
  with_flags-Ledger team_id challenge [] tables h = h
  with_flags-Ledger team_id challenge (flag ∷ flags) tables h =
      Ledger-if request.preview _ _
        (previewed-Ledger tables
          (comparison_of evaluate request team_id challenge (flag ∷ flags) tables) h)
        (limited-Ledger team_id challenge (flag ∷ flags) tables h)

  unless_refused-Ledger :
      (tables : Tables) (response : Option Response) (rest : Tables × Response)
      → Ledger tables
      → KeepsLedger rest
      → KeepsLedger (unless_refused evaluate request tables response rest)
  unless_refused-Ledger tables none rest h k = k
  unless_refused-Ledger tables (some response) rest h k = h

  -- An attempt, whatever its flags, its texts and its answer, keeps the solves the list of the correct
  -- submissions: each correct submission is one solve of the same user, team and challenge, and there
  -- are no other solves.
  pub attempt-Ledger :
      (challenge : Option Challenge) (flags : List FlagRow) (tables : Tables)
      → Ledger tables
      → KeepsLedger (attempt evaluate request challenge flags tables)
  unfolding attempt
  attempt-Ledger challenge flags tables h = go (account_of request tables) challenge
    where
      go :
          (account : Option (Option ℕ)) (challenge : Option Challenge)
          → KeepsLedger (with_account evaluate request challenge flags tables account)
      go none challenge = h
      go (some team_id) none = h
      go (some team_id) (some challenge) =
          unless_refused-Ledger tables (refused evaluate request team_id challenge tables) _ h
            (with_flags-Ledger team_id challenge flags tables h)
