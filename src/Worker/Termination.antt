-- ===== src/Worker/Termination.antt =====
-- services/controller/src/worker.rs: the commands that the controller queues itself.
use ctfdpp.Base.{
  ℕ, ◌+◌, Bool, false, not, ◌&&◌, ◌||◌, Option, none, some, String, List, [], ◌∷◌, ◌++◌, ltb, leb,
  ◌==◌, if◌then◌else◌, any, find, update_where, select,
}
use ctfdpp.Base.Json.{string}
use ctfdpp.Base.Keyed.{nat_eq}
use ctfdpp.Base.Keyed.Sorting.{sort_by}
use ctfdpp.Runtime.{
  Db, Env, Command, terminate, pending, Instance, stopped, is_open, is_terminate, is_failed,
  is_running, next_generation, json, RuntimeConfig, RuntimeSetting,
}
use ctfdpp.Worker.Events.{append_event}

-- instance_id=$1 AND kind='terminate' AND status IN ('pending','claimed')
abbrev pub open_terminate : ℕ → Command → Bool
open_terminate id c = c.instance_id == id && is_terminate c.kind && is_open c.status

abbrev pub terminate_command : Env → Instance → ℕ → String → Command
terminate_command env row generation reason = record {
  id = env.fresh_id;
  instance_id = row.id;
  kind = terminate;
  generation = generation;
  setting_revision = row.private_challenges_revision;
  challenge_runtime_revision = row.challenge_runtime_revision;
  payload =
      json (("reason", string reason) ∷ ("deadline", string (env.time_text row.expires_at)) ∷ []);
  status = pending;
  requested_by_user_id = none;
  available_at = env.now;
  created_at = env.now;
  claimed_at = none;
  claim_token = none;
  completed_at = none;
  last_error = none;
  attempts = 0;
}

abbrev pub stop_instance_row : ℕ → Instance → Instance
stop_instance_row generation i = record i { desired_state = stopped; generation = generation }

-- The index on (instance_id, kind, generation) over open commands.
abbrev pub conflicts : ℕ → ℕ → Command → Bool
conflicts id generation c = open_terminate id c && c.generation == generation

-- ON CONFLICT DO NOTHING: the instance's row is updated and no command is queued.
abbrev pub stop_only : Instance → ℕ → Db → Db
stop_only row generation db = record db {
  instances = update_where (λ i. i.id == row.id) (stop_instance_row generation) db.instances;
}

abbrev pub queue_termination : Env → Instance → String → Db → Db
queue_termination env row reason db =
    append_event row.id "instance.termination_requested"
      (json (("reason", string reason) ∷ ("command_id", string (env.uuid_text env.fresh_id)) ∷ []))
      (record db {
        instances =
            update_where (λ i. i.id == row.id) (stop_instance_row (next_generation row.generation))
              db.instances;
        commands =
            db.commands ++ terminate_command env row (next_generation row.generation) reason ∷ [];
      })

unfoldable pub terminate_found : Env → ℕ → String → Db → Instance → Db × Option (ℕ × ℕ)
terminate_found env id reason db row =
    if any (open_terminate id) db.commands
    then (db, none)
    else if any (conflicts id (next_generation row.generation)) db.commands
    then (stop_only row (next_generation row.generation) db, none)
    else (queue_termination env row reason db, some (env.fresh_id, row.owner_user_id))

-- `some` is the command's identifier and the owner.
unfoldable pub create_termination_command : Env → ℕ → String → Db → Db × Option (ℕ × ℕ)
unfolding terminate_found
create_termination_command env id reason db =
    elim (find (λ i. i.id == id && i.active) db.instances) [
      | none ↦ (db, none)
      | some row ↦ terminate_found env id reason db row
    ]

-- A terminate command of the instance that failed within the last `safety_retry` seconds.
abbrev recently_failed : ℕ → ℕ → ℕ → Command → Bool
recently_failed now safety_retry id c =
    c.instance_id == id && is_terminate c.kind && is_failed c.status && is_after c.completed_at
  where
    is_after : Option ℕ → Bool
    is_after none = false
    is_after (some t) = ltb now (t + safety_retry)

abbrev may_terminate : Env → ℕ → Db → Instance → Bool
may_terminate env safety_retry db i =
    not (any (open_terminate i.id) db.commands)
    && not (any (recently_failed env.now safety_retry i.id) db.commands)

abbrev setting_enabled : Option RuntimeSetting → Bool
setting_enabled none = false
setting_enabled (some s) = s.enabled

abbrev config_allows : Option RuntimeConfig → Bool
config_allows none = false
config_allows (some c) = c.enabled && c.managed

-- Private challenges are on, and the challenge's runtime is enabled and managed.
unfoldable pub policy_allows : Db → Instance → Bool
policy_allows db i =
    setting_enabled db.setting
    && config_allows (find (λ c. c.challenge_id == i.challenge_id) db.configs)

abbrev is_policy_candidate : Env → ℕ → Db → Instance → Bool
is_policy_candidate env safety_retry db i =
    i.active
    && (not (is_running i.desired_state) || not (policy_allows db i))
    && may_terminate env safety_retry db i

abbrev policy_reason : Instance → String
policy_reason i =
    if is_running i.desired_state then "runtime_policy_disabled" else "cleanup_safety_retry"

-- One transaction for each candidate of a query made before, in its order.
unfoldable pub terminate_each : (ℕ → Env) → (Instance → String) → List Instance → Db → Db
terminate_each envs reason [] db = db
terminate_each envs reason (i ∷ is) db =
    terminate_each envs reason is (create_termination_command (envs i.id) i.id (reason i) db).0

created_before : Instance → Instance → Bool
created_before i j = leb i.created_at j.created_at

pub enqueue_policy_terminations : Env → (ℕ → Env) → ℕ → Db → Db
unfolding created_before
enqueue_policy_terminations env envs safety_retry db =
    terminate_each envs policy_reason
      (sort_by (λ i. i.id) created_before
        (select (is_policy_candidate env safety_retry db) db.instances))
      db

abbrev is_overdue : Env → ℕ → Db → Instance → Bool
is_overdue env safety_retry db i =
    i.active && leb i.expires_at env.now && may_terminate env safety_retry db i

expires_before : Instance → Instance → Bool
expires_before i j = leb i.expires_at j.expires_at

pub enqueue_overdue_terminations : Env → (ℕ → Env) → ℕ → Db → Db
unfolding expires_before
enqueue_overdue_terminations env envs safety_retry db =
    terminate_each envs (λ i. "absolute_deadline_reached")
      (sort_by (λ i. i.id) expires_before (select (is_overdue env safety_retry db) db.instances)) db
