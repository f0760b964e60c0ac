-- ===== src/Worker/Queue/Claiming.antt =====
-- `claim_command`, the recovery of claims, and the theorem about every transaction.
use ctfdpp.Base.{
  ℕ, ◌≡◌, refl, sym, subst, Bool, true, false, Option, none, some, List, [], ◌∷◌, arith, leb, ◌≤◌,
  ◌==◌, select, if◌then◌else◌, All, All-intro, All-map, All-select,
}
use native.Mathlib.Nat.{le_trans}
use ctfdpp.Base.Keyed.{get, nat_eq, NodupKeys}
use ctfdpp.Base.Keyed.Rows.{same_row, get_self}
use ctfdpp.Runtime.{Db, Env, Command, pending, claimed}
use ctfdpp.Worker.Claims.{
  claim, claim_chosen, is_candidate, oldest, older_of, claim_command, recover_stale_claims,
  recover_all_claims_on_startup,
}
use ctfdpp.Worker.Transactions.{
  Transaction, claims, recovers_all, recovers_stale, terminates, works, apply,
}
use ctfdpp.Worker.Queue.{◌⟶◌, take, Moves, command_id, update, Changes, none_made}
use ctfdpp.Worker.Queue.Rows.{one, released-Moves, create_termination_command-Changes}
use ctfdpp.Worker.Queue.Steps.{work-Changes}

abbrev pub OnOption {κ} : (Command → Type κ) → Option Command → Type κ
OnOption P none = Unit
OnOption P (some c) = P c

older_of-holds {κ} :
    (P : Command → Type κ) (c : Command) (o : Option Command)
    → P c
    → OnOption P o
    → P (older_of c o)
older_of-holds P c none hc ho = hc
older_of-holds P c (some d) hc ho = pick (leb c.created_at d.created_at)
  where
    pick : (b : Bool) → P (if b then c else d)
    pick true = hc
    pick false = ho

-- The row that the query takes is one of those that it orders, and none of them is older.
oldest-holds {κ} : (P : Command → Type κ) (cs : List Command) → All P cs → OnOption P (oldest cs)
unfolding oldest
oldest-holds P [] h = tt
oldest-holds P (c ∷ cs) h = older_of-holds P c (oldest cs) h.0 (oldest-holds P cs h.1)

older_of-le :
    (c : Command) (o : Option Command)
    → ((older_of c o).created_at ≤ c.created_at)
      × OnOption (λ d. (older_of c o).created_at ≤ d.created_at) o
older_of-le c none = (ground arith, tt)
older_of-le c (some d) = (ground arith, ground arith)

oldest-le :
    (cs : List Command) → OnOption (λ c. All (λ d. c.created_at ≤ d.created_at) cs) (oldest cs)
unfolding oldest
oldest-le [] = tt
oldest-le (c ∷ []) = (ground arith, tt)
oldest-le (c ∷ d ∷ ds) =
    let least = older_of-le c (oldest (d ∷ ds)) in
    (least.0, All-map _ _ (λ e le. le_trans least.1 le) (d ∷ ds) (oldest-le (d ∷ ds)))

module _ (env : Env) (db : Db) where
  chosen : Option Command
  chosen = oldest (select (is_candidate env) db.commands)

  claim-Moves : (c : Command) → c.status ≡ pending → Moves c (claim env c)
  claim-Moves c p = record {
    same_id = refl;
    same_instance = refl;
    same_kind = refl;
    same_generation = refl;
    edge = subst (λ s. s ⟶ claimed) (sym p) take;
    metadata = record { token = refl; time = refl };
  }

  -- A chosen row is the one that its identifier reads, and is available.
  abbrev IsChosen : Command → Type 0
  IsChosen c = (get command_id c.id db.commands ≡ some c) × (is_candidate env c ≡ true)

  candidate-pending : (c : Command) → is_candidate env c ≡ true → c.status ≡ pending
  candidate-pending c h = ground arith

  module _ (unique : NodupKeys command_id db.commands) where
    select-IsChosen : OnOption IsChosen (oldest (select (is_candidate env) db.commands))
    select-IsChosen =
        oldest-holds IsChosen (select (is_candidate env) db.commands)
          (All-select _ (is_candidate env) db.commands (get_self command_id db.commands unique))

    claim_chosen-Changes :
        (o : Option Command)
        → OnOption IsChosen o
        → Changes db.commands (claim_chosen env db o).0.commands
    claim_chosen-Changes none h = none_made
    claim_chosen-Changes (some c) h = one (
        update (λ d. d.id == c.id) (claim env)
          (All-map _ _
            (λ d same e.
              claim-Moves d
                (subst (λ x. x.status ≡ pending) (sym (same e)) (candidate-pending c h.1)))
            db.commands (same_row command_id db.commands c.id c unique h.0))
          (λ d. refl) refl)

    claim_command-Changes : Changes db.commands (claim_command env db).0.commands
    unfolding claim_command
    claim_command-Changes = claim_chosen-Changes _ select-IsChosen

recover_all-Changes :
    (env : Env) (db : Db) → Changes db.commands (recover_all_claims_on_startup env db).commands
unfolding recover_all_claims_on_startup
recover_all-Changes env db = one (
    update _ _ (All-intro _ (λ c h. released-Moves env.now _ c (ground arith)) db.commands)
      (λ c. refl) refl)

recover_stale-Changes :
    (env : Env) (stale_after : ℕ) (db : Db)
    → Changes db.commands (recover_stale_claims env stale_after db).commands
unfolding recover_stale_claims
recover_stale-Changes env stale_after db = one (
    update _ _ (All-intro _ (λ c h. released-Moves env.now _ c (ground arith)) db.commands)
      (λ c. refl) refl)

-- A transaction that claims a command, recovers claims, queues a terminate command or carries out a
-- claimed command changes the command table only along the diagram: rows go
-- from pending to claimed, and from claimed back to pending or to completed, failed or cancelled,
-- keeping their identity, with claim token and time exactly while claimed; and the only rows that
-- join are pending terminate commands for an instance that has no open one. The identifiers in the
-- table are distinct, and the one generated for the transaction is not among them.
pub apply-Changes :
    (env : Env) (t : Transaction) (db : Db)
    → NodupKeys command_id db.commands
    → get command_id env.fresh_id db.commands ≡ none
    → Changes db.commands (apply env t db).commands
unfolding apply
apply-Changes env claims db unique fresh = claim_command-Changes env db unique
apply-Changes env recovers_all db unique fresh = recover_all-Changes env db
apply-Changes env (recovers_stale stale_after) db unique fresh =
    recover_stale-Changes env stale_after db
apply-Changes env (terminates id reason) db unique fresh =
    create_termination_command-Changes env id reason db fresh
apply-Changes env (works command row w) db unique fresh = work-Changes env command db fresh row w
