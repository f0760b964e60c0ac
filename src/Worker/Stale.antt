-- ===== src/Worker/Stale.antt =====
-- A command of an old generation cannot touch its instance: the transactions of worker.rs where no
-- row has the command's generation.
use ctfdpp.Base.{
  ℕ, ◌≡◌, refl, Bool, true, false, Option, none, some, String, List, [], ◌∷◌, any, ◌&&◌, ◌==◌,
  arith, Bool-cases, inl, inr, leb, ltb, ◌||◌, count_where,
}
use ctfdpp.Remote.{RemoteServer, RemoteResult, or_else, is_some_true}
use ctfdpp.Runtime.{Db, Env, Instance, ServerRow}
use ctfdpp.Worker.Events.{append_event}
use ctfdpp.Worker.Claims.{
  CommandRow, holds, lock_command_claim, cancel_command, complete_command, mark_command_cancelled,
}
use ctfdpp.Worker.Transitions.{InstanceRow, at_generation, update_instance, claimed_or, updated_or}
use ctfdpp.Worker.Transitions.Start.{
  place_selected, mark_starting, select_and_mark_starting, finish_start, reject_start,
  expire_unstarted_instance, update_if_found, cancel_then_commit, cancel_stale_command,
  effective_deadline,
}
use ctfdpp.Worker.Transitions.Stop.{mark_stopping, finish_termination, finish_extension, is_active}
use ctfdpp.Worker.Transitions.Inspect.{
  finish_inspection, schedule_retry, fail_instance, failed_target, inspected, after_update,
}
use ctfdpp.Worker.Transactions.{
  Work, marks_starting, selects_host, finishes_start, marks_stopping, finishes_termination,
  finishes_extension, finishes_inspection, rejects_start, expires_unstarted, cancels_stale, cancels,
  completes, retries, work,
}

abbrev pub of_generation : CommandRow → InstanceRow → Instance → Bool
of_generation command row i = i.id == row.id && i.generation == command.generation

any_less :
    (p q : Instance → Bool)
    → ((i : Instance) → q i ≡ true → p i ≡ true)
    → (is : List Instance) → any p is ≡ false
    → any q is ≡ false
any_less p q less [] h = refl
any_less p q less (i ∷ is) h = let rest = any_less p q less is in let first = less i in ground arith

module _ (env : Env) (command : CommandRow) (row : InstanceRow) (db : Db)
    (same : command.instance_id ≡ row.id)
    (stale : any (of_generation command row) db.instances ≡ false) where
  abbrev Keeps : Db → Type 0
  Keeps after = after.instances ≡ db.instances

  untargeted : (also : Instance → Bool) → any (at_generation command row also) db.instances ≡ false
  untargeted also = any_less _ _ (λ i h. ground arith) db.instances stale

  update_instance-none :
      (also : Instance → Bool) (f : Instance → Instance)
      → update_instance (at_generation command row also) f db ≡ none
  unfolding update_instance
  update_instance-none also f = rw (untargeted also)

  claimed_or-Keeps :
      {A : Type 0} (lost : A) (act : Db → Db × A)
      → Keeps (act db).0
      → Keeps (claimed_or command db lost act).0
  unfolding claimed_or
  claimed_or-Keeps lost act h = elim (Bool-cases (lock_command_claim command db)) [
    | inl held ↦ rw held h
    | inr lost' ↦ rw lost'
  ]

  updated_or-Keeps :
      {A : Type 0} (missing : A) (also : Instance → Bool) (f : Instance → Instance)
      (act : Db → Db × A)
      → Keeps (updated_or db missing (update_instance (at_generation command row also) f db) act).0
  unfolding updated_or
  updated_or-Keeps missing also f act = rw (update_instance-none also f)

  cancel_then_commit-Keeps :
      (reason : String) (also : Instance → Bool) (f : Instance → Instance) (event : Db → Db)
      → Keeps
          (cancel_then_commit env command reason db
            (update_if_found (at_generation command row also) f event db)).0
  unfolding cancel_then_commit update_if_found mark_command_cancelled cancel_command
  cancel_then_commit-Keeps reason also f event = rw (untargeted also) unchanged
    where
      unchanged : Keeps (cancel_then_commit env command reason db db).0
      unchanged = elim (Bool-cases (count_where (holds command) db.commands == 1)) [
        | inl held ↦ rw (cancel_then_commit, mark_command_cancelled, held)
        | inr lost ↦ rw (cancel_then_commit, mark_command_cancelled, lost)
      ]

  cancels_stale-Keeps : Keeps (cancel_stale_command env command row db).0
  unfolding cancel_stale_command mark_command_cancelled cancel_command append_event
  cancels_stale-Keeps =
      claimed_or-Keeps _ _ (elim (Bool-cases (count_where (holds command) db.commands == 1)) [
        | inl held ↦ rw held
        | inr lost ↦ rw lost
      ])

  place_selected-Keeps : (o : Option ServerRow) → Keeps (place_selected env command row db o).0
  unfolding place_selected
  place_selected-Keeps none = refl
  place_selected-Keeps (some s) = updated_or-Keeps _ _ _ _

  inspected-none : (result : RemoteResult) → inspected env command row result db ≡ none
  unfolding inspected after_update
  inspected-none result = elim (Bool-cases (or_else result.absent false)) [
    | inl gone ↦ rw (gone, update_instance-none is_active _)
    | inr present ↦ elim (Bool-cases (is_some_true result.ready)) [
      | inl ready ↦ rw (present, ready, update_instance-none is_active _)
      | inr waiting ↦ rw (present, waiting, update_instance-none is_active _)
    ]
  ]

  finish_inspection-Keeps :
      (result : RemoteResult) → Keeps (finish_inspection env command row result db).0
  unfolding finish_inspection updated_or
  finish_inspection-Keeps result = claimed_or-Keeps _ _ (rw (inspected-none result))

  schedule_retry-Keeps :
      (max_attempts : ℕ) (text : String) → Keeps (schedule_retry env command max_attempts text db)
  unfolding schedule_retry fail_instance
  schedule_retry-Keeps max_attempts text = elim (Bool-cases (leb max_attempts command.attempts)) [
    | inl spent ↦ elim (Bool-cases (lock_command_claim command db)) [
      | inl held ↦ rw (
        spent,
        held,
        any_less (of_generation command row) (failed_target command) (λ i h. ground arith)
            db.instances stale,
      )
      | inr lost ↦ rw (spent, lost)
    ]
    | inr left ↦ rw left
  ]

  finish_start-Keeps :
      (server : RemoteServer) (result : RemoteResult)
      → Keeps (finish_start env command row server result db).0
  unfolding finish_start
  finish_start-Keeps server result =
      elim (Bool-cases (ltb row.maximum_expires_at (effective_deadline row result))) [
        | inl beyond ↦ rw beyond
        | inr within ↦ rw within (claimed_or-Keeps _ _ (updated_or-Keeps _ _ _ _))
      ]

  finish_extension-Keeps :
      (result : RemoteResult) → Keeps (finish_extension env command row result db).0
  unfolding finish_extension
  finish_extension-Keeps result =
      elim (Bool-cases (
        ltb row.maximum_expires_at (effective_deadline row result)
        || leb (effective_deadline row result) env.clock)) [
          | inl bad ↦ rw bad
          | inr good ↦ rw good (claimed_or-Keeps _ _ (updated_or-Keeps _ _ _ _))
        ]

  -- A command whose generation is not that of its instance changes no row of the instances, with
  -- any transaction of worker.rs, whether it holds its claim or not.
  pub work-stale : (w : Work) → Keeps (work env command row w db)
  unfolding work mark_starting select_and_mark_starting mark_stopping finish_termination
      reject_start expire_unstarted_instance cancel_command complete_command
  work-stale (marks_starting server) = claimed_or-Keeps _ _ (updated_or-Keeps _ _ _ _)
  work-stale selects_host = claimed_or-Keeps _ _ (place_selected-Keeps _)
  work-stale (finishes_start server result) = finish_start-Keeps server result
  work-stale marks_stopping = claimed_or-Keeps _ _ (updated_or-Keeps _ _ _ _)
  work-stale finishes_termination = claimed_or-Keeps _ _ (updated_or-Keeps _ _ _ _)
  work-stale (finishes_extension result) = finish_extension-Keeps result
  work-stale (finishes_inspection result) = finish_inspection-Keeps result
  work-stale (rejects_start gate) = claimed_or-Keeps _ _ (cancel_then_commit-Keeps _ _ _ _)
  work-stale expires_unstarted = claimed_or-Keeps _ _ (cancel_then_commit-Keeps _ _ _ _)
  work-stale cancels_stale = cancels_stale-Keeps
  work-stale (cancels reason) = refl
  work-stale completes = refl
  work-stale (retries max_attempts text) = schedule_retry-Keeps max_attempts text
