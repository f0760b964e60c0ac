-- ===== src/Worker/Queue/Steps.antt =====
-- The transactions that queue a cleanup or choose a command, and the theorem about all of them.
use ctfdpp.Base.{
  ℕ, ◌≡◌, refl, ◌∙◌, Bool, false, Option, none, some, String, any, All-intro, update_where,
  count_where, Bool-cases, inl, inr, leb, ◌==◌,
}
use ctfdpp.Base.Keyed.{get, nat_eq}
use ctfdpp.Base.Keyed.Rows.{get-update_where}
use ctfdpp.Remote.{or_else, is_some_true, RemoteResult}
use ctfdpp.Runtime.{Db, Env, completed, failed, cancelled, Instance, is_start}
use ctfdpp.Worker.Events.{append_event}
use ctfdpp.Worker.Claims.{
  CommandRow, holds, cancel_command, complete_command, mark_command_cancelled, lock_command_claim,
}
use ctfdpp.Worker.Transitions.{InstanceRow, updated_or, update_instance}
use ctfdpp.Worker.Transitions.Start.{cancel_stale_command}
use ctfdpp.Worker.Transitions.Inspect.{
  schedule_retry, fail_instance, failed_target, inspected, finish_inspection, after_update,
  truncate,
}
use ctfdpp.Worker.Transactions.{
  Work, marks_starting, selects_host, finishes_start, marks_stopping, finishes_termination,
  finishes_extension, finishes_inspection, rejects_start, expires_unstarted, cancels_stale, cancels,
  completes, retries, work,
}
use ctfdpp.Worker.Queue.{complete, give_up, cancel, command_id, update, none_made}
use ctfdpp.Worker.Queue.Rows.{
  one, close-Changes, postponed-Moves, holds-claimed, create_termination_command-Changes,
}
use ctfdpp.Worker.Queue.Diagram.{
  Changes-trans, From, claimed_or-Changes, complete_then_commit-Changes, starting-Changes,
  finish_start-Changes, finish_termination-Changes, finish_extension-Changes, stopping-Changes,
  selects-Changes, reject-Changes, expire-Changes,
}

module _ (env : Env) (command : CommandRow) (before : Db) where
  cancels_stale-Changes :
      (row : InstanceRow) → From env command before (cancel_stale_command env command row before).0
  unfolding cancel_stale_command mark_command_cancelled append_event
  cancels_stale-Changes row =
      claimed_or-Changes env command before _ _
        (elim (Bool-cases (count_where (holds command) before.commands == 1)) [
          | inl held ↦ rw held (
              close-Changes command cancelled (some "stale generation") env.now before.commands
                cancel refl)
          | inr gone ↦ rw gone none_made
        ])

  abbrev FromOption : Option Db → Type 0
  FromOption none = Unit {0}
  FromOption (some db) = From env command before db

  after_update-Changes :
      (target : Instance → Bool) (change : Instance → Instance) (act : Db → Db)
      → From env command before
          (act (record before { instances = update_where target change before.instances }))
      → FromOption (after_update (update_instance target change before) act)
  unfolding after_update update_instance
  after_update-Changes target change act h = elim (Bool-cases (any target before.instances)) [
    | inl found ↦ rw found h
    | inr gone ↦ rw gone tt
  ]

  updated_or-Changes :
      {A : Type 0} (missing : A) (o : Option Db) (act : Db → Db × A)
      → FromOption o
      → ((db : Db) → From env command before db → From env command before (act db).0)
      → From env command before (updated_or before missing o act).0
  unfolding updated_or
  updated_or-Changes missing none act h keep = none_made
  updated_or-Changes missing (some db) act h keep = keep db h

  module _ (fresh : get command_id env.fresh_id before.commands ≡ none) where
    inspected-Changes :
        (row : InstanceRow) (result : RemoteResult)
        → FromOption (inspected env command row result before)
    unfolding inspected append_event
    inspected-Changes row result = elim (Bool-cases (or_else result.absent false)) [
      | inl gone ↦ rw gone (after_update-Changes _ _ _ none_made)
      | inr present ↦ elim (Bool-cases (is_some_true result.ready)) [
        | inl ready ↦ rw (present, ready) (after_update-Changes _ _ _ none_made)
        | inr not_ready ↦
            rw (present, not_ready)
              (after_update-Changes _ _ _
                (create_termination_command-Changes env row.id "remote_workload_not_ready" _ fresh))
      ]
    ]

    finish_inspection-Changes :
        (row : InstanceRow) (result : RemoteResult)
        → From env command before (finish_inspection env command row result before).0
    unfolding finish_inspection
    finish_inspection-Changes row result = claimed_or-Changes env command before _ _ (
        updated_or-Changes _ _ _ (inspected-Changes row result)
          λ db h. complete_then_commit-Changes env command before db h)

    fail_instance-Changes :
        (message : String) (db : Db)
        → get command_id env.fresh_id db.commands ≡ none
        → From env command before db
        → From env command before (fail_instance env command message db)
    unfolding fail_instance append_event
    fail_instance-Changes message db unused h =
        elim (Bool-cases (any (failed_target command) db.instances)) [
          | inl found ↦ elim (Bool-cases (is_start command.kind)) [
            | inl start' ↦
                rw (found, start')
                  (Changes-trans h (
                    create_termination_command-Changes env command.instance_id
                      "start_command_failed" _ unused))
            | inr other ↦ rw (found, other) h
          ]
          | inr gone ↦ rw gone h
        ]

    schedule_retry-Changes :
        (max_attempts : ℕ) (text : String)
        → From env command before (schedule_retry env command max_attempts text before)
    unfolding schedule_retry
    schedule_retry-Changes max_attempts text =
        elim (Bool-cases (leb max_attempts command.attempts)) [
          | inl spent ↦ elim (Bool-cases (lock_command_claim command before)) [
            | inl held ↦
                rw (spent, held)
                  (fail_instance-Changes _ _
                    (get-update_where command_id (holds command) _ (λ c. refl) env.fresh_id
                        before.commands
                      ∙ rw fresh)
                    (close-Changes command failed _ env.now before.commands give_up refl))
            | inr lost ↦ rw (spent, lost) none_made
          ]
          | inr left ↦ rw left (
              one (
                update (holds command) _
                  (All-intro _
                    (λ c h.
                      postponed-Moves env command (truncate 1000 text) c
                        (holds-claimed command c h))
                    before.commands)
                  (λ c. refl) refl))
        ]

    pub work-Changes :
        (row : InstanceRow) (w : Work) → From env command before (work env command row w before)
    unfolding work
    work-Changes row (marks_starting server) = starting-Changes env command before row server
    work-Changes row selects_host = selects-Changes env command before row
    work-Changes row (finishes_start server result) =
        finish_start-Changes env command before row server result
    work-Changes row marks_stopping = stopping-Changes env command before row
    work-Changes row finishes_termination = finish_termination-Changes env command before row
    work-Changes row (finishes_extension result) =
        finish_extension-Changes env command before row result
    work-Changes row (finishes_inspection result) = finish_inspection-Changes row result
    work-Changes row (rejects_start gate) = reject-Changes env command before row gate
    work-Changes row expires_unstarted = expire-Changes env command before row
    work-Changes row cancels_stale = cancels_stale-Changes row
    work-Changes row (cancels reason) =
        unfold cancel_command in
        close-Changes command cancelled (some reason) env.now before.commands cancel refl
    work-Changes row completes =
        unfold complete_command in
        close-Changes command completed none env.now before.commands complete refl
    work-Changes row (retries max_attempts text) = schedule_retry-Changes max_attempts text
