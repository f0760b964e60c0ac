-- ===== src/Worker/Queue/Invariant.antt =====
-- What holds of the command table after the transactions of worker.rs.
use native.Mathlib.Nat.{le_trans}
use ctfdpp.Base.{
  ℕ, ◌+◌, ◌≤◌, ◌≡◌, refl, sym, ap, ◌∙◌, subst, Bool, true, false, Option, none, some, List, [], ◌∷◌,
  ◌++◌, update_where, count_where, count_where-none, arith, ◌==◌, ==_iff, if◌then◌else◌, All,
  All-append,
}
use ctfdpp.Base.Keyed.{get, nat_eq, NodupKeys, All-get}
use ctfdpp.Base.Keyed.Rows.{get-update_where, update_where-NodupKeys, append-NodupKeys, get-append}
use ctfdpp.Runtime.{Db, Env, Command, CommandStatus, is_open}
use ctfdpp.Worker.Termination.{open_terminate}
use ctfdpp.Worker.Transactions.{Transaction, apply}
use ctfdpp.Worker.Queue.{
  ◌⟶◌, take, release, complete, give_up, cancel, HasClaimMetadata, Moves, command_id, Change,
  update, queue, Changes, none_made, then_made,
}
use ctfdpp.Worker.Queue.Claiming.{apply-Changes}

edge_from_open : {s t : CommandStatus} → s ⟶ t → is_open s ≡ true
edge_from_open take = refl
edge_from_open release = refl
edge_from_open complete = refl
edge_from_open give_up = refl
edge_from_open cancel = refl

-- A row that has ended stays as it is.
abbrev Stays : List Command → List Command → Type 0
Stays cs ds =
    (k : ℕ) (c : Command)
    → get command_id k cs ≡ some c
    → is_open c.status ≡ false
    → get command_id k ds ≡ some c

Change-Stays : {cs ds : List Command} → Change cs ds → Stays cs ds
Change-Stays {cs} (update p f moves same e) k c g closed =
    ap (get command_id k) e ∙ get-update_where command_id p f same k cs ∙ rw g (unmoved (p c) refl)
  where
    unmoved : (b : Bool) → p c ≡ b → ◌≡◌ {A = Option Command} (some (if b then f c else c)) (some c)
    unmoved false h = refl
    unmoved true h =
        let m : Moves c (f c) =
          All-get command_id (λ c. p c ≡ true → Moves c (f c)) k cs moves g h in
        let open' = edge_from_open m.edge in cc
Change-Stays {cs} (queue new s t m free fresh e) k c g closed =
    ap (get command_id k) e ∙ get-append command_id k cs (new ∷ []) ∙ rw g

Changes-Stays : {cs ds : List Command} → Changes cs ds → Stays cs ds
Changes-Stays none_made k c g closed = g
Changes-Stays (then_made h last) k c g closed =
    Change-Stays last k c (Changes-Stays h k c g closed) closed

-- At most one open terminate command for an instance, distinct identifiers, and claim metadata
-- exactly on the claimed rows.
pub record Inv (cs : List Command) : Type 0 where
  pub distinct : NodupKeys command_id cs
  pub metadata : All HasClaimMetadata cs
  pub one_cleanup : (id : ℕ) → count_where (open_terminate id) cs ≤ 1

count-moved :
    (id : ℕ) (p : Command → Bool) (f : Command → Command) (cs : List Command)
    → All (λ c. p c ≡ true → Moves c (f c)) cs
    → count_where (open_terminate id) (update_where p f cs) ≤ count_where (open_terminate id) cs
count-moved id p f [] moves = omega arith
count-moved id p f (c ∷ cs) moves = omega (arith, head (p c) refl, count-moved id p f cs moves.1)
  where
    weight : Command → ℕ
    weight d = if open_terminate id d then 1 else 0

    still : Moves c (f c) → weight (f c) ≤ weight c
    still m = let open' = edge_from_open m.edge in ground arith

    head : (b : Bool) → p c ≡ b → weight (if b then f c else c) ≤ weight c
    head true e = still (moves.0 e)
    head false e = omega arith

count-append :
    (p : Command → Bool) (cs : List Command) (c : Command)
    → count_where p (cs ++ c ∷ []) ≡ count_where p cs + (if p c then 1 else 0)
count-append p [] c = omega arith
count-append p (d ∷ cs) c = omega (arith, count-append p cs c)

metadata-moved :
    (p : Command → Bool) (f : Command → Command) (cs : List Command)
    → All (λ c. p c ≡ true → Moves c (f c)) cs
    → All HasClaimMetadata cs
    → All HasClaimMetadata (update_where p f cs)
metadata-moved p f [] moves h = tt
metadata-moved p f (c ∷ cs) moves h = (head (p c) refl, metadata-moved p f cs moves.1 h.1)
  where
    head : (b : Bool) → p c ≡ b → HasClaimMetadata (if b then f c else c)
    head true e = (moves.0 e).metadata
    head false e = h.0

Change-Inv : {cs ds : List Command} → Change cs ds → Inv cs → Inv ds
Change-Inv {cs} (update p f moves same e) v = subst Inv (sym e) (record {
  distinct = update_where-NodupKeys command_id p f same cs v.distinct;
  metadata = metadata-moved p f cs moves v.metadata;
  one_cleanup = λ id. le_trans (count-moved id p f cs moves) (v.one_cleanup id);
})
Change-Inv {cs} (queue new s t m free fresh e) v = subst Inv (sym e) (record {
  distinct = append-NodupKeys command_id cs new fresh v.distinct;
  metadata = All-append HasClaimMetadata cs (new ∷ []) v.metadata (m, tt);
  one_cleanup = λ id. joined id (new.instance_id == id) refl;
})
  where
    closed : (id : ℕ) → (new.instance_id == id) ≡ true → count_where (open_terminate id) cs ≡ 0
    closed id h =
        subst (λ i. count_where (open_terminate i) cs ≡ 0) ((==_iff new.instance_id id).0 h)
          (count_where-none (open_terminate new.instance_id) cs free)

    joined :
        (id : ℕ) (b : Bool)
        → (new.instance_id == id) ≡ b
        → count_where (open_terminate id) (cs ++ new ∷ []) ≤ 1
    joined id true h = ground (arith, count-append (open_terminate id) cs new, closed id h)
    joined id false h = ground (arith, count-append (open_terminate id) cs new, v.one_cleanup id)

Changes-Inv : {cs ds : List Command} → Changes cs ds → Inv cs → Inv ds
Changes-Inv none_made v = v
Changes-Inv (then_made h last) v = Change-Inv last (Changes-Inv h v)

-- Transactions one after another, each with an identifier that is new when it begins.
pub data Reach (db : Db) : Db → Type 0 where
  here : Reach db db
  next :
      {mid after : Db} (env : Env) (t : Transaction)
      → Reach db mid
      → get command_id env.fresh_id mid.commands ≡ none
      → after ≡ apply env t mid
      → Reach db after

-- After any sequence of transactions that claim commands, recover claims, queue terminate commands
-- or carry out a claimed command, each with a new identifier, the invariant of the command table
-- holds if it held at the start: identifiers are distinct, claim token and time
-- are set exactly on the claimed rows, and no instance has two open terminate commands.
pub Reach-Inv : {db after : Db} → Reach db after → Inv db.commands → Inv after.commands
Reach-Inv here v = v
Reach-Inv (next {mid = mid} env t r fresh e) v =
    let w = Reach-Inv r v in
    subst (λ d. Inv d.commands) (sym e) (Changes-Inv (apply-Changes env t mid w.distinct fresh) w)

-- A command that is completed, failed or cancelled keeps its row for good: after any sequence of
-- transactions that claim commands, recover claims, queue terminate commands or carry out a claimed
-- command, from a table with the invariant, its identifier reads the same row.
pub Reach-ended :
    {db after : Db} (r : Reach db after) (k : ℕ) (c : Command)
    → Inv db.commands
    → get command_id k db.commands ≡ some c
    → is_open c.status ≡ false
    → get command_id k after.commands ≡ some c
Reach-ended here k c v g closed = g
Reach-ended (next {mid = mid} env t r fresh e) k c v g closed =
    let w = Reach-Inv r v in
    subst (λ d. get command_id k d.commands ≡ some c) (sym e)
      (Changes-Stays (apply-Changes env t mid w.distinct fresh) k c (Reach-ended r k c v g closed)
        closed)
