-- ===== src/Worker/Queue.antt =====
-- The life of a row of `runtime_commands`: which changes of its status there are, and what a
-- transaction of worker.rs may do to the table.
pub mod Rows
pub mod Diagram
pub mod Steps
pub mod Claiming
pub mod Invariant
use ctfdpp.Base.{
  ℕ, ◌≡◌, Bool, true, false, Option, none, some, List, [], ◌∷◌, ◌++◌, any, update_where, All,
  is_some,
}
use ctfdpp.Base.Keyed.{get, nat_eq}
use ctfdpp.Runtime.{
  Command, CommandStatus, pending, claimed, completed, failed, cancelled, terminate, is_claimed,
}
use ctfdpp.Worker.Termination.{open_terminate}

infix 40 ◌⟶◌
pub data ◌⟶◌ : CommandStatus → CommandStatus → Type 0 where
  take : pending ⟶ claimed
  release : claimed ⟶ pending
  complete : claimed ⟶ completed
  give_up : claimed ⟶ failed
  cancel : claimed ⟶ cancelled

-- The schema's constraint runtime_commands_claim_metadata.
pub record HasClaimMetadata (c : Command) : Type 0 where
  pub token : is_some c.claim_token ≡ is_claimed c.status
  pub time : is_some c.claimed_at ≡ is_claimed c.status

-- One row moves along the diagram and stays the same command.
pub record Moves (c d : Command) : Type 0 where
  pub same_id : d.id ≡ c.id
  pub same_instance : d.instance_id ≡ c.instance_id
  pub same_kind : d.kind ≡ c.kind
  pub same_generation : d.generation ≡ c.generation
  pub edge : c.status ⟶ d.status
  pub metadata : HasClaimMetadata d

abbrev pub command_id : Command → ℕ
command_id c = c.id

-- A change of the table: the rows that a test picks move, or a pending terminate command joins for
-- an instance that has no open one.
pub data Change (cs ds : List Command) : Type 0 where
  update :
      (p : Command → Bool) (f : Command → Command)
      → All (λ c. p c ≡ true → Moves c (f c)) cs
      → ((c : Command) → (f c).id ≡ c.id)
      → ds ≡ update_where p f cs
      → Change cs ds
  queue :
      (c : Command)
      → c.status ≡ pending
      → c.kind ≡ terminate
      → HasClaimMetadata c
      → any (open_terminate c.instance_id) cs ≡ false
      → get command_id c.id cs ≡ none
      → ds ≡ cs ++ c ∷ []
      → Change cs ds

pub data Changes (cs : List Command) : List Command → Type 0 where
  none_made : Changes cs cs
  then_made : {ds es : List Command} → Changes cs ds → Change ds es → Changes cs es
