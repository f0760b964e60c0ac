-- ===== src/Worker/Queue/Diagram.antt =====
-- Every transaction of worker.rs moves command rows along the diagram only.
use ctfdpp.Base.{
  ℕ, ◌≡◌, refl, sym, subst, Bool, Option, none, some, String, List, any, update_where, count_where,
  Bool-cases, inl, inr, leb, ltb, ◌||◌, ◌==◌,
}
use ctfdpp.Base.Keyed.{nat_eq}
use ctfdpp.Base.Json.{Value}
use ctfdpp.Remote.{RemoteResult, RemoteServer}
use ctfdpp.Runtime.{Db, Env, Command, completed, cancelled, Instance, ServerRow}
use ctfdpp.Worker.Events.{append_event}
use ctfdpp.Worker.Claims.{
  CommandRow, holds, mark_command_cancelled, mark_command_completed, lock_command_claim,
}
use ctfdpp.Worker.Transitions.{
  InstanceRow, claimed_or, updated_or, update_instance, complete_then_commit,
}
use ctfdpp.Worker.Transitions.Start.{
  mark_starting, select_and_mark_starting, finish_start, reject_start, expire_unstarted_instance,
  cancel_then_commit, update_if_found, effective_deadline, place_selected,
  select_remote_server_locked, RuntimeGate,
}
use ctfdpp.Worker.Transitions.Stop.{mark_stopping, finish_termination, finish_extension}
use ctfdpp.Worker.Queue.{complete, cancel, Changes, none_made, then_made}
use ctfdpp.Worker.Queue.Rows.{close-Changes}

pub Changes-trans : {bs cs ds : List Command} → Changes bs cs → Changes cs ds → Changes bs ds
Changes-trans p none_made = p
Changes-trans p (then_made q c) = then_made (Changes-trans p q) c

same-Changes : {cs ds : List Command} → ds ≡ cs → Changes cs ds
same-Changes {cs} e = subst (Changes cs) (sym e) none_made

module _ (env : Env) (command : CommandRow) (before : Db) where
  -- The tables after a part of a transaction that began at `before`.
  abbrev pub From : Db → Type 0
  From db = Changes before.commands db.commands

  pub claimed_or-Changes :
      {A : Type 0} (lost : A) (act : Db → Db × A)
      → From (act before).0
      → From (claimed_or command before lost act).0
  unfolding claimed_or
  claimed_or-Changes lost act h = elim (Bool-cases (lock_command_claim command before)) [
    | inl held ↦ rw held h
    | inr gone ↦ rw gone none_made
  ]

  pub update_instance-Changes :
      {A : Type 0} (missing : A) (target : Instance → Bool) (change : Instance → Instance)
      (act : Db → Db × A)
      → ((db : Db) → From db → From (act db).0)
      → From (updated_or before missing (update_instance target change before) act).0
  unfolding updated_or update_instance
  update_instance-Changes missing target change act h =
      elim (Bool-cases (any target before.instances)) [
        | inl found ↦ rw found (
            h (record before { instances = update_where target change before.instances }) none_made)
        | inr gone ↦ rw gone none_made
      ]

  pub complete_then_commit-Changes :
      (db : Db) → From db → From (complete_then_commit env command before db).0
  unfolding complete_then_commit mark_command_completed
  complete_then_commit-Changes db h =
      elim (Bool-cases (count_where (holds command) db.commands == 1)) [
        | inl held ↦
            rw (held, complete_then_commit)
              (Changes-trans h
                (close-Changes command completed none env.now db.commands complete refl))
        | inr gone ↦ rw (gone, complete_then_commit) none_made
      ]

  cancel_then_commit-Changes :
      (reason : String) (db : Db)
      → From db
      → From (cancel_then_commit env command reason before db).0
  unfolding cancel_then_commit mark_command_cancelled
  cancel_then_commit-Changes reason db h =
      elim (Bool-cases (count_where (holds command) db.commands == 1)) [
        | inl held ↦
            rw (held, cancel_then_commit)
              (Changes-trans h
                (close-Changes command cancelled (some reason) env.now db.commands cancel refl))
        | inr gone ↦ rw (gone, cancel_then_commit) none_made
      ]

  update_if_found-Changes :
      (target : Instance → Bool) (change : Instance → Instance) (event : Db → Db)
      → ((db : Db) → From db → From (event db))
      → From (update_if_found target change event before)
  unfolding update_if_found
  update_if_found-Changes target change event h = elim (Bool-cases (any target before.instances)) [
    | inl found ↦
        rw found
          (h (record before { instances = update_where target change before.instances }) none_made)
    | inr gone ↦ rw gone none_made
  ]

  -- An event changes no command.
  pub event-Changes :
      (id : ℕ) (event_type : String) (payload : Value) (db : Db)
      → From db
      → From (append_event id event_type payload db)
  unfolding append_event
  event-Changes id event_type payload db h = h

  module _ (row : InstanceRow) where
    pub starting-Changes :
        (server : RemoteServer) → From (mark_starting env command row server before).0
    unfolding mark_starting
    starting-Changes server =
        claimed_or-Changes _ _ (update_instance-Changes _ _ _ _ λ db h. event-Changes _ _ _ db h)

    pub finish_start-Changes :
        (server : RemoteServer) (result : RemoteResult)
        → From (finish_start env command row server result before).0
    unfolding finish_start
    finish_start-Changes server result =
        elim (Bool-cases (ltb row.maximum_expires_at (effective_deadline row result))) [
          | inl beyond ↦ rw beyond none_made
          | inr within ↦ rw within (
              claimed_or-Changes _ _ (
                update_instance-Changes _ _ _ _
                  λ db h. complete_then_commit-Changes _ (event-Changes _ _ _ db h)))
        ]

    pub finish_termination-Changes : From (finish_termination env command row before).0
    unfolding finish_termination
    finish_termination-Changes = claimed_or-Changes _ _ (
        update_instance-Changes _ _ _ _
          λ db h. complete_then_commit-Changes _ (event-Changes _ _ _ _ (event-Changes _ _ _ db h)))

    pub finish_extension-Changes :
        (result : RemoteResult) → From (finish_extension env command row result before).0
    unfolding finish_extension
    finish_extension-Changes result =
        elim (Bool-cases (
          ltb row.maximum_expires_at (effective_deadline row result)
          || leb (effective_deadline row result) env.clock)) [
            | inl invalid ↦ rw invalid none_made
            | inr valid ↦ rw valid (
                claimed_or-Changes _ _ (
                  update_instance-Changes _ _ _ _
                    λ db h. complete_then_commit-Changes _ (event-Changes _ _ _ db h)))
          ]

    pub stopping-Changes : From (mark_stopping env command row before).0
    unfolding mark_stopping
    stopping-Changes =
        claimed_or-Changes _ _ (update_instance-Changes _ _ _ _ λ db h. event-Changes _ _ _ db h)

    place_selected-Changes :
        (s : Option ServerRow) → From (place_selected env command row before s).0
    unfolding place_selected
    place_selected-Changes none = none_made
    place_selected-Changes (some s) =
        update_instance-Changes _ _ _ _ λ db h. event-Changes _ _ _ db h

    pub selects-Changes : From (select_and_mark_starting env command row before).0
    unfolding select_and_mark_starting
    selects-Changes =
        claimed_or-Changes _ _
          (place_selected-Changes (select_remote_server_locked env row.deployment_snapshot before))

    pub reject-Changes : (gate : RuntimeGate) → From (reject_start env command row gate before).0
    unfolding reject_start
    reject-Changes gate = claimed_or-Changes _ _ (
        cancel_then_commit-Changes _ _
          (update_if_found-Changes _ _ _ λ db h. event-Changes _ _ _ db h))

    pub expire-Changes : From (expire_unstarted_instance env command row before).0
    unfolding expire_unstarted_instance
    expire-Changes = claimed_or-Changes _ _ (
        cancel_then_commit-Changes _ _
          (update_if_found-Changes _ _ _ λ db h. event-Changes _ _ _ db h))
