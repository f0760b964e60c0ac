-- ===== src/Journal/Recovery/Reconciling.antt =====
-- What `reconcile_database_acknowledgements` leaves in the journal.
use ctfdpp.Base.{
  ℕ, ◌≡◌, refl, sym, ◌∙◌, subst, Option, none, some, true, false, arith, ◌==◌, if◌then◌else◌,
  Bool-cases, inl, inr, ◌≢◌, ◌⊎◌,
}
use ctfdpp.Base.Keyed.{get, pair_eq}
use ctfdpp.Journal.{JournalRecord, key, current_unacknowledged, JournalFile, Io}
use ctfdpp.Runtime.{CommandStatus, pending, claimed, completed, failed, cancelled}
use ctfdpp.Journal.Compaction.{IsTerminated}
use ctfdpp.Journal.Recovery.{
  skip, write, CommandState, query_failed, missing, found, database_finished, is_finished_status,
  is_claimed, finished, reconcile_decision, reconcile_database_acknowledgements,
}
use ctfdpp.Journal.Recovery.Laws.{outcome, KeepsKey, for_each_current}

reconcile_decides :
    (query : ℕ → ℕ → CommandState) (now : ℕ) (r : JournalRecord)
    → query r.command_id r.instance_id ≢ query_failed
    → reconcile_decision query now r ≡ (
        if database_finished (query r.command_id r.instance_id) r.generation
        then write (finished now r)
        else skip)
unfolding reconcile_decision
reconcile_decides query now r ok = go (query r.command_id r.instance_id) refl
  where
    go :
        (s : CommandState)
        → query r.command_id r.instance_id ≡ s
        → reconcile_decision query now r ≡ (
            if database_finished (query r.command_id r.instance_id) r.generation
            then write (finished now r)
            else skip)
    go query_failed e = absurd (ok e)
    go missing e = rw (e, reconcile_decision)
    go (found st c i) e = rw (e, reconcile_decision)

abbrev still_open : (ℕ → ℕ → CommandState) → Option JournalRecord → Option JournalRecord
still_open query none = none
still_open query (some r) =
    if database_finished (query r.command_id r.instance_id) r.generation then none else some r

-- PostgreSQL has no more use for an operation of the given generation: the command is gone, has ended,
-- is of another generation, or is not claimed while the instance is of another generation.
abbrev pub IsOver : CommandState → ℕ → Type 0
IsOver query_failed generation = ⊥
IsOver missing generation = Unit
IsOver (found status command_generation instance_generation) generation =
    (status ≡ completed)
    ⊎ (status ≡ failed)
    ⊎ (status ≡ cancelled)
    ⊎ (command_generation ≢ generation)
    ⊎ ((instance_generation ≢ generation) × (status ≢ claimed))

-- What is left of an operation's record: nothing if the operation is over, else the record.
abbrev pub LeavesOpen :
    (ℕ → ℕ → CommandState) → Option JournalRecord → Option JournalRecord → Type 0
LeavesOpen query none after = after ≡ none
LeavesOpen query (some r) after =
    (IsOver (query r.command_id r.instance_id) r.generation × (after ≡ none))
    ⊎ ((¬ IsOver (query r.command_id r.instance_id) r.generation) × (after ≡ some r))

ended_status :
    (status : CommandStatus)
    → is_finished_status status ≡ true
    → (status ≡ completed) ⊎ (status ≡ failed) ⊎ (status ≡ cancelled)
ended_status completed h = inl refl
ended_status failed h = inr (inl refl)
ended_status cancelled h = inr (inr refl)
ended_status status h = cc

finished_open :
    (status : CommandStatus)
    → (status ≡ completed) ⊎ (status ≡ failed) ⊎ (status ≡ cancelled)
    → is_finished_status status ≡ false
    → ⊥
finished_open completed h e = cc
finished_open failed h e = cc
finished_open cancelled h e = cc
finished_open pending h e = elim h [ inl k ↦ cc | inr (inl k) ↦ cc | inr (inr k) ↦ cc ]
finished_open claimed h e = elim h [ inl k ↦ cc | inr (inl k) ↦ cc | inr (inr k) ↦ cc ]

claimed_status : (status : CommandStatus) → is_claimed status ≡ true → status ≡ claimed
claimed_status claimed h = refl
claimed_status status h = cc

claimed_open : (status : CommandStatus) → status ≡ claimed → is_claimed status ≡ false → ⊥
claimed_open claimed e h = cc
claimed_open status e h = cc

finished-IsOver :
    (state : CommandState) (generation : ℕ)
    → database_finished state generation ≡ true
    → IsOver state generation
unfolding database_finished
finished-IsOver query_failed g h = cc
finished-IsOver missing g h = tt
finished-IsOver (found status c i) g h = elim (Bool-cases (is_finished_status status)) [
  | inl done ↦ elim (ended_status status done) [
    | inl e ↦ inl e
    | inr (inl e) ↦ inr (inl e)
    | inr (inr e) ↦ inr (inr (inl e))
  ]
  | inr going ↦ elim (Bool-cases (c == g)) [
    | inl same ↦
        inr (inr (inr (inr ((λ e. ground arith), λ e. claimed_open status e (ground arith)))))
    | inr differs ↦ inr (inr (inr (inl (λ e. ground arith))))
  ]
]

unfinished-IsOver :
    (state : CommandState) (generation : ℕ)
    → database_finished state generation ≡ false
    → ¬ IsOver state generation
unfolding database_finished
unfinished-IsOver query_failed g h over = over
unfinished-IsOver missing g h over = cc
unfinished-IsOver (found status c i) g h over = elim over [
  | inl e ↦ finished_open status (inl e) (ground arith)
  | inr (inl e) ↦ finished_open status (inr (inl e)) (ground arith)
  | inr (inr (inl e)) ↦ finished_open status (inr (inr e)) (ground arith)
  | inr (inr (inr (inl e))) ↦ e (ground arith)
  | inr (inr (inr (inr (other, open_status)))) ↦ open_status (claimed_status status (ground arith))
]

still_open-LeavesOpen :
    (query : ℕ → ℕ → CommandState) (o : Option JournalRecord)
    → LeavesOpen query o (still_open query o)
still_open-LeavesOpen query none = refl
still_open-LeavesOpen query (some r) =
    elim (Bool-cases (database_finished (query r.command_id r.instance_id) r.generation)) [
      | inl done ↦ inl (finished-IsOver _ _ done, rw done refl)
      | inr going ↦ inr (unfinished-IsOver _ _ going, rw going refl)
    ]

module _ (query : ℕ → ℕ → CommandState) (now : ℕ)
    (answers : (c i : ℕ) → query c i ≢ query_failed) where
  reconcile_keeps : (r : JournalRecord) → KeepsKey (reconcile_decision query now r) r
  reconcile_keeps r =
      rw (reconcile_decides query now r (answers r.command_id r.instance_id))
        (elim (Bool-cases (database_finished (query r.command_id r.instance_id) r.generation)) [
          | inl done ↦ rw done refl
          | inr open' ↦ rw open' tt
        ])

  reconcile_outcome :
      (o : Option JournalRecord) → outcome (reconcile_decision query now) o o ≡ still_open query o
  reconcile_outcome none = refl
  reconcile_outcome (some r) =
      rw (reconcile_decides query now r (answers r.command_id r.instance_id))
        (elim (Bool-cases (database_finished (query r.command_id r.instance_id) r.generation)) [
          | inl done ↦ rw done
          | inr open' ↦ rw open'
        ])

  -- When every query is answered, every write succeeds and the journal has no unterminated last line,
  -- `reconcile_database_acknowledgements` drops from the journal exactly the operations whose command
  -- is gone from PostgreSQL, has ended, was issued for another generation, or belongs to an instance
  -- of another generation and is not claimed. The records of the other operations stay as they were.
  pub reconcile-LeavesOpen :
      (io : JournalRecord → Io) (f : JournalFile) (k : ℕ × ℕ)
      → ((r : JournalRecord) → (io r).written ≡ true)
      → IsTerminated f
      → LeavesOpen query (get key k (current_unacknowledged f)) (
          get key k (current_unacknowledged (reconcile_database_acknowledgements io query now f).0))
  unfolding reconcile_database_acknowledgements
  reconcile-LeavesOpen io f k written h =
      let old = get key k (current_unacknowledged f) in
      subst (LeavesOpen query old)
        (sym (
          (for_each_current io (reconcile_decision query now) written reconcile_keeps f k h).1
          ∙ reconcile_outcome old))
        (still_open-LeavesOpen query old)
