-- ===== src/Submissions/Limits.antt =====
-- services/api/src/routes/challenges.rs: that guessing is bounded, and that a solve is final.
use ctfdpp.Base.{
  ℕ, ◌≡◌, ◌∙◌, sym, ap, refl, inl, inr, Bool, true, false, Option, none, some, List, [], ◌∷◌,
  if◌then◌else◌, leb, Bool-cases,
}
use ctfdpp.Submissions.{Tables}
use ctfdpp.Submissions.Compare.{FlagRow, FlagEvaluation}
use ctfdpp.Submissions.Attempt.{
  Challenge, Request, Response, account_of, out_of_tries, recent_incorrect, limited, refused,
  with_flags, unless_refused, with_challenge, with_account, attempt,
}

not_chosen :
    (b : Bool) (x y x' y' : Tables × Response)
    → b ≡ false
    → y.1 ≡ y'.1
    → (if b then x else y).1 ≡ (if b then x' else y').1
not_chosen b x y x' y' h same = rw h same

module _ (evaluate : Tables → ℕ → ℕ → FlagRow → List ℕ → Option FlagEvaluation) (request : Request)
    (other : List ℕ) where
  abbrev guess : Request
  guess = record request { submission = other }

  limited-blind :
      (team_id : Option ℕ) (challenge : Challenge) (flags : List FlagRow) (tables : Tables)
      → leb request.incorrect_limit (recent_incorrect evaluate request team_id tables) ≡ true
      → (limited evaluate request team_id challenge flags tables).1
        ≡ (limited evaluate guess team_id challenge flags tables).1
  unfolding limited
  limited-blind team_id challenge flags tables over =
      elim (Bool-cases (out_of_tries evaluate request team_id challenge tables)) [
        | inl tried ↦ elim (Bool-cases request.timeout_behavior) [
          | inl waits ↦ rw (tried, waits) refl
          | inr stays ↦ rw (tried, stays) refl
        ]
        | inr open_tries ↦ rw (open_tries, over) refl
      ]

  with_flags-blind :
      (team_id : Option ℕ) (challenge : Challenge) (flags : List FlagRow) (tables : Tables)
      → request.preview ≡ false
      → leb request.incorrect_limit (recent_incorrect evaluate request team_id tables) ≡ true
      → (with_flags evaluate request team_id challenge flags tables).1
        ≡ (with_flags evaluate guess team_id challenge flags tables).1
  with_flags-blind team_id challenge [] tables playing over = refl
  with_flags-blind team_id challenge (flag ∷ flags) tables playing over =
      not_chosen request.preview _ _ _ _ playing
        (limited-blind team_id challenge (flag ∷ flags) tables over)

  -- While an account has at least as many incorrect submissions of the last minute as the limit, the
  -- answer to an attempt that is not a preview does not depend on the text that is submitted.
  pub attempt-blind :
      (team_id : Option ℕ) (challenge : Option Challenge) (flags : List FlagRow) (tables : Tables)
      → request.preview ≡ false
      → account_of request tables ≡ some team_id
      → leb request.incorrect_limit (recent_incorrect evaluate request team_id tables) ≡ true
      → (attempt evaluate request challenge flags tables).1
        ≡ (attempt evaluate guess challenge flags tables).1
  unfolding attempt
  attempt-blind team_id challenge flags tables playing member over =
      ap (λ o. (with_account evaluate request challenge flags tables o).1) member
      ∙ known challenge
      ∙ sym (ap (λ o. (with_account evaluate guess challenge flags tables o).1) member)
    where
      unless :
          (challenge : Challenge) (response : Option Response)
          → (unless_refused evaluate request tables response
              (with_flags evaluate request team_id challenge flags tables)).1
            ≡ (unless_refused evaluate guess tables response
                (with_flags evaluate guess team_id challenge flags tables)).1
      unless challenge none = with_flags-blind team_id challenge flags tables playing over
      unless challenge (some response) = refl

      known :
          (challenge : Option Challenge)
          → (with_challenge evaluate request team_id flags tables challenge).1
            ≡ (with_challenge evaluate guess team_id flags tables challenge).1
      known none = refl
      known (some challenge) = unless challenge (refused evaluate request team_id challenge tables)
