-- ===== src/Worker/Execute/Justified.antt =====
-- Every act of an execution is justified when it is done.
use ctfdpp.Base.{
  ℕ, ◌≡◌, refl, Bool, true, false, not, ◌||◌, Option, none, some, String, inl, inr, if◌then◌else◌,
  leb, ◌==◌, [], subst, sym,
}
use ctfdpp.Remote.{
  RemoteServer, RemoteOperation, RemoteResult, ensure_instance, stop_instance, update_deadline,
  inspect_instance,
}
use ctfdpp.Runtime.{Env, CommandKind, start, terminate, extend, inspect, reconcile, is_running}
use ctfdpp.Base.Json.{Value}
use ctfdpp.Worker.Events.{Result, ok, error}
use ctfdpp.Worker.Claims.{CommandRow}
use ctfdpp.Worker.Transitions.{InstanceRow}
use ctfdpp.Worker.Transitions.Start.{RuntimeGate}
use ctfdpp.Journal.Compaction.{IsTerminated}
use ctfdpp.Worker.Effects.{Outside, World, M}
use ctfdpp.Worker.Execute.{
  journal_intent, other_generation, not_ready, not_running, acknowledge, find_server, find_instance,
  gate_closed, clean_up_start, settle_start, run_start, start_marked, start_selected, start_placed,
  start_gated, start_timely, execute_start, stop_on, stop_marked, load_if_placed, execute_terminate,
  extend_on, extend_timely, execute_extend, inspect_on, execute_inspect, execute_kind, execute_on,
  execute_command, load_instance, load_remote_server, cancel_unless, start_checks, inspect_checks,
  unchecked,
}
use ctfdpp.Worker.Execute.Post.{
  Post, bind-Post, weaken, then-Post, return-Post, ask-Post, bail_if-Post, or_bail-Post,
}
use ctfdpp.Worker.Execute.Warrants.{AllJustified, Fine, Sound}
use ctfdpp.Worker.Execute.Rules.{
  Heard, transact-Post, query-Post, write_acknowledged-Post, exchange-Post,
}

if-Post :
    {A : Type 0} {P : A → World → Type 0} {E : World → Type 0} (b : Bool) (m k : M A) (w : World)
    → Post P E (m w)
    → Post P E (k w)
    → Post P E ((if b then m else k) w)
if-Post true m k w holds_then holds_else = holds_then
if-Post false m k w holds_then holds_else = holds_else

module _ (o : Outside) (command : CommandRow) (row : InstanceRow) where
  abbrev IsSound : World → Type 0
  IsSound w = Sound o command row w

  abbrev IsFine : World → Type 0
  IsFine w = Fine o command row w

  abbrev Safe : {A : Type 0} → World × Result A → Type 0
  Safe out = Post (λ a v. IsSound v) IsFine out

  load_remote_server-Safe : (id : ℕ) (w : World) → IsSound w → Safe (load_remote_server o id w)
  unfolding load_remote_server
  load_remote_server-Safe id w s =
      bind-Post _ _ w (query-Post o command row (find_server id) w s)
        λ found v h. weaken _ (λ a v h. h.0) (or_bail-Post IsSound IsFine o found v h.0 (λ s. s.0))

  cancel_unless-Safe :
      (b : Bool) (reason : String) (w : World)
      → IsSound w
      → Safe (cancel_unless o command row b reason w)
  cancel_unless-Safe true reason w s = return-Post tt w s
  cancel_unless-Safe false reason w s = transact-Post o command row _ _ w tt s

  acknowledge-Safe :
      (server : RemoteServer) (operation : RemoteOperation) (payload : Value) (w : World)
      → IsSound w
      → Safe (acknowledge o command row server operation payload w)
  unfolding acknowledge
  acknowledge-Safe server operation payload w s =
      weaken _ (λ a v h. h.0)
        (write_acknowledged-Post o command row
          (journal_intent command row operation (some server) payload) w s)

  clean_up_start-Safe :
      (server : RemoteServer) (w : World) → IsSound w → Safe (clean_up_start o command row server w)
  unfolding clean_up_start
  clean_up_start-Safe server w s = bind-Post _ _ w (ask-Post o w s) λ env v s.
      bind-Post _ _ v
        (exchange-Post o command row (λ result. Unit {0}) server stop_instance _
          (unchecked o command row) v s λ result u h. return-Post tt u (h, tt))
        λ result v h. then-Post _ _ v (bail_if-Post IsSound IsFine o _ v h.0.0 (λ s. s.0)) λ a v h.
          then-Post _ _ v (transact-Post o command row _ _ v tt h.0)
            λ a v s. acknowledge-Safe server stop_instance _ v s

  settle_start-Safe :
      (server : RemoteServer) (b : Bool) (w : World)
      → IsSound w
      → Safe (settle_start o command row server b w)
  unfolding settle_start
  settle_start-Safe server true w s = return-Post tt w s
  settle_start-Safe server false w s = clean_up_start-Safe server w s

  -- The checks on the answer to a startup.
  abbrev Up : RemoteResult → Type 0
  Up result =
      (other_generation result command.generation ≡ false)
      × (not_running result ≡ false)
      × (not_ready result ≡ false)

  start_checks-Up :
      (server : RemoteServer) (result : RemoteResult) (w : World)
      → Heard o command row server ensure_instance result w
      → Post
          (λ a v. Heard o command row server ensure_instance result v × Up result)
          IsFine
          (start_checks o command row result w)
  start_checks-Up server result w h =
      let heard : World → Type 0 = Heard o command row server ensure_instance result in
      then-Post _ _ w (bail_if-Post heard IsFine o _ w h (λ h. h.0.0)) λ a v f.
        then-Post _ _ v (bail_if-Post heard IsFine o _ v f.0 (λ h. h.0.0)) λ a v g.
          weaken _ (λ a v i. (i.0, (f.1, g.1, i.1)))
            (bail_if-Post heard IsFine o _ v g.0 (λ h. h.0.0))

  run_start-Safe :
      (server : RemoteServer) (w : World) → IsSound w → Safe (run_start o command row server w)
  unfolding run_start
  run_start-Safe server w s = bind-Post _ _ w (ask-Post o w s) λ env v s.
      bind-Post _ _ v
        (exchange-Post o command row Up server ensure_instance _ (start_checks o command row) v s
          (start_checks-Up server))
        λ result v h.
          bind-Post _ _ v (transact-Post o command row _ _ v (h.0.1, h.1.0, h.1.1, h.1.2) h.0.0)
            λ committed v s.
              then-Post _ _ v (settle_start-Safe server committed v s)
                λ a v s. acknowledge-Safe server ensure_instance _ v s

  start_marked-Safe :
      (server : RemoteServer) (b : Bool) (w : World)
      → IsSound w
      → Safe (start_marked o command row server b w)
  unfolding start_marked
  start_marked-Safe server true w s = run_start-Safe server w s
  start_marked-Safe server false w s = transact-Post o command row _ _ w tt s

  start_selected-Safe :
      (server : Option RemoteServer) (w : World)
      → IsSound w
      → Safe (start_selected o command row server w)
  unfolding start_selected
  start_selected-Safe none w s = transact-Post o command row _ _ w tt s
  start_selected-Safe (some server) w s = run_start-Safe server w s

  start_placed-Safe :
      (placed : Option ℕ) (w : World) → IsSound w → Safe (start_placed o command row placed w)
  unfolding start_placed
  start_placed-Safe (some id) w s = bind-Post _ _ w (load_remote_server-Safe id w s) λ server v s.
      bind-Post _ _ v (transact-Post o command row _ _ v tt s)
        λ marked v s. start_marked-Safe server marked v s
  start_placed-Safe none w s =
      bind-Post _ _ w (transact-Post o command row _ _ w tt s)
        λ server v s. start_selected-Safe server v s

  start_gated-Safe :
      (gate : RuntimeGate) (w : World) → IsSound w → Safe (start_gated o command row gate w)
  unfolding start_gated
  start_gated-Safe gate w s =
      if-Post (gate_closed command gate) _ _ w (transact-Post o command row _ _ w tt s)
        (start_placed-Safe row.remote_server_id w s)

  start_timely-Safe : (env : Env) (w : World) → IsSound w → Safe (start_timely o command row env w)
  unfolding start_timely
  start_timely-Safe env w s =
      if-Post (leb row.desired_expires_at env.clock) _ _ w (transact-Post o command row _ _ w tt s)
        (bind-Post _ _ w (query-Post o command row _ w s) λ gate v h. start_gated-Safe gate v h.0)

  execute_start-Safe : (w : World) → IsSound w → Safe (execute_start o command row w)
  unfolding execute_start
  execute_start-Safe w s =
      if-Post (not row.active || not (is_running row.desired_state)) _ _ w
        (transact-Post o command row _ _ w tt s)
        (bind-Post _ _ w (ask-Post o w s) λ env v s. start_timely-Safe env v s)

  stop_on-Safe :
      (server : RemoteServer) (w : World) → IsSound w → Safe (stop_on o command row server w)
  unfolding stop_on
  stop_on-Safe server w s = bind-Post _ _ w (ask-Post o w s) λ env v s.
      bind-Post _ _ v
        (exchange-Post o command row (λ result. Unit {0}) server stop_instance _
          (unchecked o command row) v s λ result u h. return-Post tt u (h, tt))
        λ result v h.
          then-Post _ _ v
            (bail_if-Post (Heard o command row server stop_instance result) IsFine o _ v h.0
              (λ h. h.0.0))
            λ a v h.
              bind-Post _ _ v
                (transact-Post o command row _ _ v (inr (server, result, h.0.1, h.1)) h.0.0)
                λ terminated v s.
                  then-Post _ _ v (cancel_unless-Safe terminated _ v s)
                    λ a v s. acknowledge-Safe server stop_instance _ v s

  stop_marked-Safe :
      (server : Option RemoteServer) (b : Bool) (w : World)
      → (server ≡ none → row.remote_server_id ≡ none)
      → IsSound w
      → Safe (stop_marked o command row server b w)
  unfolding stop_marked
  stop_marked-Safe (some server) true w e s = stop_on-Safe server w s
  stop_marked-Safe none true w e s =
      bind-Post _ _ w (transact-Post o command row _ _ w (inl (e refl)) s)
        λ terminated v s. cancel_unless-Safe terminated _ v s
  stop_marked-Safe server false w e s = transact-Post o command row _ _ w tt s

  load_if_placed-Safe :
      (placed : Option ℕ) (w : World)
      → IsSound w
      → Post
          (λ server v. (server ≡ none → placed ≡ none) × IsSound v)
          IsFine
          (load_if_placed o command row placed w)
  unfolding load_if_placed
  load_if_placed-Safe none w s = return-Post none w ((λ e. refl), s)
  load_if_placed-Safe (some id) w s =
      bind-Post _ _ w (load_remote_server-Safe id w s)
        λ server v s. return-Post (some server) v ((λ e. cc), s)

  execute_terminate-Safe : (w : World) → IsSound w → Safe (execute_terminate o command row w)
  unfolding execute_terminate
  execute_terminate-Safe w s =
      if-Post (not row.active) _ _ w (transact-Post o command row _ _ w tt s) (
        bind-Post _ _ w (load_if_placed-Safe row.remote_server_id w s) λ server v h.
          bind-Post _ _ v (transact-Post o command row _ _ v tt h.1)
            λ marked v s. stop_marked-Safe server marked v h.0 s)

  extend_on-Safe :
      (server : RemoteServer) (w : World) → IsSound w → Safe (extend_on o command row server w)
  unfolding extend_on
  extend_on-Safe server w s = bind-Post _ _ w (ask-Post o w s) λ env v s.
      bind-Post _ _ v
        (exchange-Post o command row (λ result. Unit {0}) server update_deadline _
          (unchecked o command row) v s λ result u h. return-Post tt u (h, tt))
        λ result v h.
          let heard : World → Type 0 = Heard o command row server update_deadline result in
          then-Post _ _ v (bail_if-Post heard IsFine o _ v h.0 (λ h. h.0.0)) λ a v h.
            then-Post _ _ v (bail_if-Post heard IsFine o _ v h.0 (λ h. h.0.0)) λ a v h.
              bind-Post _ _ v (transact-Post o command row _ _ v (server, h.0.1, h.1) h.0.0)
                λ extended v s.
                  then-Post _ _ v (cancel_unless-Safe extended _ v s)
                    λ a v s. acknowledge-Safe server update_deadline _ v s

  extend_timely-Safe :
      (env : Env) (w : World) → IsSound w → Safe (extend_timely o command row env w)
  unfolding extend_timely
  extend_timely-Safe env w s =
      if-Post (not row.active || not (is_running row.desired_state) || leb row.expires_at env.clock)
        _ _ w (transact-Post o command row _ _ w tt s)
        (bind-Post _ _ w (or_bail-Post IsSound IsFine o row.remote_server_id w s (λ s. s.0))
          λ id v h.
            bind-Post _ _ v (load_remote_server-Safe id v h.0)
              λ server v s. extend_on-Safe server v s)

  inspect_on-Safe :
      (placed : Option ℕ) (w : World) → IsSound w → Safe (inspect_on o command row placed w)
  unfolding inspect_on
  inspect_on-Safe none w s = transact-Post o command row _ _ w tt s
  inspect_on-Safe (some id) w s = bind-Post _ _ w (load_remote_server-Safe id w s) λ server v s.
      bind-Post _ _ v (ask-Post o v s) λ env v s.
        bind-Post _ _ v
          (exchange-Post o command row _ server inspect_instance _ (inspect_checks o command row) v
            s
            λ result u h.
              bail_if-Post (Heard o command row server inspect_instance result) IsFine o _ u h
                (λ h. h.0.0))
          λ result v h.
            bind-Post _ _ v (transact-Post o command row _ _ v (server, h.0.1, h.1) h.0.0)
              λ inspected v s.
                then-Post _ _ v (cancel_unless-Safe inspected _ v s)
                  λ a v s. acknowledge-Safe server inspect_instance _ v s

  execute_kind-Safe :
      (kind : CommandKind) (w : World) → IsSound w → Safe (execute_kind o command row kind w)
  unfolding execute_kind execute_inspect execute_extend
  execute_kind-Safe start w s = execute_start-Safe w s
  execute_kind-Safe terminate w s = execute_terminate-Safe w s
  execute_kind-Safe extend w s =
      bind-Post _ _ w (ask-Post o w s) λ env v s. extend_timely-Safe env v s
  execute_kind-Safe inspect w s = inspect_on-Safe row.remote_server_id w s
  execute_kind-Safe reconcile w s = inspect_on-Safe row.remote_server_id w s

  execute_on-Safe : (w : World) → IsSound w → Safe (execute_on o command row w)
  unfolding execute_on
  execute_on-Safe w s =
      if-Post (not (command.generation == row.generation)) _ _ w
        (transact-Post o command row _ _ w tt s) (execute_kind-Safe command.kind w s)

all_of :
    {A : Type 0} {Q : A → World → Type 0} {E : World → Type 0} (out : World × Result A)
    → ((a : A) (v : World) → Q a v → E v)
    → Post Q E out
    → E out.0
all_of (v, ok a) h p = h a v p.post
all_of (v, error text) h p = p.post

-- From a journal that ends with a newline, every act of `execute_command` is justified when it is
-- done, whether the execution succeeds or fails, and whatever PostgreSQL, the file system, the
-- hosts and other writers of the tables answer or do. A request leaves only once the journal tells
-- of it: the record of the command is then an intent with the request's operation, host, generation
-- and deadline; and only with a valid flag, host and startup timeout. A start is finished only
-- with the answer of its host that the workload of the command's generation runs and is ready, and
-- a deadline is extended only with an answer of that generation. A termination is finished only
-- after the host has confirmed the removal without naming a newer generation, unless the instance
-- was never placed. An inspection is finished only with an answer of that generation or of an
-- absent workload.
pub execute_command-AllJustified :
    (o : Outside) (command : CommandRow) (row : InstanceRow) (w : World)
    → find_instance command.instance_id (o.others w.step w.db) ≡ some row
    → IsTerminated w.journal
    → w.trace ≡ []
    → AllJustified o command row (execute_command o command w).0.trace
unfolding execute_command load_instance
execute_command-AllJustified o command row w found terminated fresh =
    all_of _ (λ a v s. s.0)
      (bind-Post _ _ w loads λ loaded v h.
        subst
          (λ r.
            Post (λ a u. IsSound o command row u) (IsFine o command row) (execute_on o command r v))
          (sym h.1) (execute_on-Safe o command row v h.0))
  where
    begins : IsSound o command row w
    begins = (subst (AllJustified o command row) (sym fresh) tt, terminated)

    loads :
        Post
          (λ loaded v. IsSound o command row v × (loaded ≡ row))
          (IsFine o command row)
          (load_instance o command.instance_id w)
    loads =
        bind-Post _ _ w (query-Post o command row (find_instance command.instance_id) w begins)
          λ loaded v h.
            weaken _ (λ a u k. (k.0, (let e = k.1 in let f = h.1 in cc)))
              (or_bail-Post (IsSound o command row) (IsFine o command row) o loaded v h.0
                (λ s. s.0))
