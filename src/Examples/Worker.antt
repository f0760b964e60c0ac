-- ===== src/Examples/Worker.antt =====
-- The theorems on the command queue at concrete inputs.
use ctfdpp.Base.{◌≡◌, refl, none, some, List, [], ◌∷◌, true, arith}
use ctfdpp.Base.Keyed.{get, nat_eq}
use ctfdpp.Remote.{default_result}
use ctfdpp.Runtime.{Command, start, pending, claimed, completed}
use ctfdpp.Worker.Claims.{lock_command_claim}
use ctfdpp.Worker.Transitions.Start.{finish_start}
use ctfdpp.Worker.Stale.{work-stale}
use ctfdpp.Worker.Transactions.{work, finishes_termination}
use ctfdpp.Base.{◌≤◌, arith}
use ctfdpp.Worker.Retry.{schedule_retry-available}
use ctfdpp.Worker.Transitions.Inspect.{schedule_retry, truncate}
use ctfdpp.Worker.Fencing.{lost_claim_changes_nothing}
use ctfdpp.Worker.Transactions.{claims, apply}
use ctfdpp.Worker.Queue.{Changes, command_id}
use ctfdpp.Worker.Queue.Claiming.{apply-Changes}
use ctfdpp.Worker.Queue.Invariant.{Inv, Reach, here, next, Reach-Inv, Reach-ended}
use ctfdpp.Examples.{env, command, tables, row, instance_row, host}

-- A pending start command, and one that another claimant holds.
abbrev queued : List Command
queued = command 11 start pending none ∷ command 12 start completed none ∷ []

abbrev reclaimed : List Command
reclaimed = command 11 start claimed (some 51) ∷ []

lost_claim_changes_nothing_example :
    (finish_start env row instance_row host default_result (tables reclaimed)).0 ≡ tables reclaimed
unfolding lock_command_claim
lost_claim_changes_nothing_example =
    (lost_claim_changes_nothing env row (tables reclaimed) refl instance_row host default_result
      (record {
        setting_enabled = true;
        setting_revision = 1;
        runtime_enabled = true;
        runtime_revision = 1;
      })
      3 "error").2

apply-Changes_example : Changes queued (apply env claims (tables queued)).commands
unfolding get
apply-Changes_example = apply-Changes env claims (tables queued) (refl, (refl, tt)) refl

one_step : Reach (tables queued) (apply env claims (tables queued))
unfolding get
one_step = next env claims here refl refl

queued-Inv : Inv queued
unfolding get
queued-Inv = record {
  distinct = (refl, (refl, tt));
  metadata = (record { token = refl; time = refl }, (record { token = refl; time = refl }, tt));
  one_cleanup = λ id. ground arith;
}

Reach-Inv_example : Inv (apply env claims (tables queued)).commands
Reach-Inv_example = Reach-Inv one_step queued-Inv

Reach-ended_example :
    get command_id 12 (apply env claims (tables queued)).commands
    ≡ some (command 12 start completed none)
unfolding get
Reach-ended_example = Reach-ended one_step 12 (command 12 start completed none) queued-Inv refl refl

-- A command of a later generation than the instance's row.
work-stale_example :
    (work env
      (record row { generation = 9 })
      instance_row
      finishes_termination
      (tables queued)).instances
    ≡ (tables queued).instances
work-stale_example =
    work-stale env (record row { generation = 9 }) instance_row (tables queued) refl refl
      finishes_termination

abbrev failing : Command
failing = command 11 start claimed (some 50)

schedule_retry-available_example :
    (d : Command) × (get command_id 11
        (schedule_retry env row 3 "timeout" (tables (failing ∷ []))).commands
      ≡ some d)
    × (d.status ≡ pending)
    × (d.claim_token ≡ none)
    × (d.last_error ≡ some (truncate 1000 "timeout"))
    × (110 ≤ d.available_at)
    × (d.available_at ≤ 400)
unfolding get
schedule_retry-available_example =
    schedule_retry-available env row 3 "timeout" (tables (failing ∷ [])) failing (omega arith) refl
      refl
