-- ===== src/Worker/Queue/Rows.antt =====
-- The updates of command rows that worker.rs makes, as moves along the diagram.
use ctfdpp.Base.{
  ℕ, ◌≡◌, refl, sym, subst, true, false, Option, none, some, String, List, any, update_where, arith,
  Bool-cases, Option-cases, inl, inr, ◌==◌, ◌&&◌, find, find_sound, All-intro,
}
use ctfdpp.Base.Keyed.{get, nat_eq}
use ctfdpp.Runtime.{
  Db, Env, Command, CommandStatus, pending, claimed, is_claimed, Instance, next_generation,
}
use ctfdpp.Worker.Claims.{CommandRow, holds, ended, released}
use ctfdpp.Worker.Termination.{
  open_terminate, terminate_command, terminate_found, create_termination_command, conflicts,
  queue_termination,
}
use ctfdpp.Worker.Events.{append_event}
use ctfdpp.Worker.Transitions.Inspect.{postponed}
use ctfdpp.Worker.Queue.{
  ◌⟶◌, release, Moves, command_id, Change, update, queue, Changes, none_made, then_made,
}

pub one : {cs ds : List Command} → Change cs ds → Changes cs ds
one c = then_made none_made c

pub holds-claimed : (row : CommandRow) (c : Command) → holds row c ≡ true → c.status ≡ claimed
holds-claimed row c h = ground arith

ended-Moves :
    (status : CommandStatus) (err : Option String) (now : ℕ) (c : Command)
    → claimed ⟶ status
    → is_claimed status ≡ false
    → c.status ≡ claimed
    → Moves c (ended status err now c)
ended-Moves status err now c e n h = record {
  same_id = refl;
  same_instance = refl;
  same_kind = refl;
  same_generation = refl;
  edge = subst (λ s. s ⟶ status) (sym h) e;
  metadata = record { token = sym n; time = sym n };
}

pub close-Changes :
    (row : CommandRow) (status : CommandStatus) (err : Option String) (now : ℕ) (cs : List Command)
    → claimed ⟶ status
    → is_claimed status ≡ false
    → Changes cs (update_where (holds row) (ended status err now) cs)
close-Changes row status err now cs e n = one (
    update (holds row) (ended status err now)
      (All-intro _ (λ c h. ended-Moves status err now c e n (holds-claimed row c h)) cs) (λ c. refl)
      refl)

pub released-Moves :
    (now : ℕ) (message : String) (c : Command)
    → c.status ≡ claimed
    → Moves c (released now message c)
released-Moves now message c h = record {
  same_id = refl;
  same_instance = refl;
  same_kind = refl;
  same_generation = refl;
  edge = subst (λ s. s ⟶ pending) (sym h) release;
  metadata = record { token = refl; time = refl };
}

pub postponed-Moves :
    (env : Env) (row : CommandRow) (message : String) (c : Command)
    → c.status ≡ claimed
    → Moves c (postponed env row message c)
postponed-Moves env row message c h = record {
  same_id = refl;
  same_instance = refl;
  same_kind = refl;
  same_generation = refl;
  edge = subst (λ s. s ⟶ pending) (sym h) release;
  metadata = record { token = refl; time = refl };
}

row_id :
    (id : ℕ) (is : List Instance) (row : Instance)
    → find (λ i. i.id == id && i.active) is ≡ some row
    → row.id ≡ id
row_id id is row e =
    let hit = find_sound (λ (i : Instance). i.id == id && i.active) is e in ground arith

terminate_found-Changes :
    (env : Env) (id : ℕ) (reason : String) (db : Db) (row : Instance)
    → row.id ≡ id
    → get command_id env.fresh_id db.commands ≡ none
    → Changes db.commands (terminate_found env id reason db row).0.commands
unfolding terminate_found append_event
terminate_found-Changes env id reason db row same fresh =
    elim (Bool-cases (any (open_terminate id) db.commands)) [
      | inl busy ↦ rw busy none_made
      | inr free ↦
          elim (Bool-cases (any (conflicts id (next_generation row.generation)) db.commands)) [
            | inl c ↦ rw (free, c) none_made
            | inr c ↦ rw (free, c) (one (queued free))
          ]
    ]
  where
    queued :
        any (open_terminate id) db.commands ≡ false
        → Change db.commands (queue_termination env row reason db).commands
    queued free =
        queue (terminate_command env row (next_generation row.generation) reason) refl refl
          (record { token = refl; time = refl })
          (subst (λ n. any (open_terminate n) db.commands ≡ false) (sym same) free) fresh refl

pub create_termination_command-Changes :
    (env : Env) (id : ℕ) (reason : String) (db : Db)
    → get command_id env.fresh_id db.commands ≡ none
    → Changes db.commands (create_termination_command env id reason db).0.commands
unfolding create_termination_command
create_termination_command-Changes env id reason db fresh =
    elim (Option-cases (find (λ i. i.id == id && i.active) db.instances)) [
      | inl e ↦ rw (e, create_termination_command) none_made
      | inr (row, e) ↦
          rw (e, create_termination_command)
            (terminate_found-Changes env id reason db row (row_id id db.instances row e) fresh)
    ]
