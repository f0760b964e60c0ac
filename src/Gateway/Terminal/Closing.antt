-- ===== src/Gateway/Terminal/Closing.antt =====
-- services/ssh-gateway/src/terminal.rs: how the loop of a terminal session ends.
use ctfdpp.Base.{
  ℕ, ◌+◌, ◌≤◌, ◌≡◌, ◌∙◌, ap, subst, refl, Bool, true, false, Option, String, List, [], ◌∷◌, ◌++◌,
  ◌==◌, if◌then◌else◌, count_where, arith, str_eq,
}
use ctfdpp.Gateway.Policy.{Config}
use ctfdpp.Gateway.Ssh.{TicketGrant}
use ctfdpp.Gateway.Terminal.{Action, Outcome, returned, failed, running, Trace, ◌then◌}
use ctfdpp.Gateway.Terminal.Bridge.{
  Poll, Bridge, Turn, next, break, turn, finish, after_turn, bridge_loop, bridge_terminal, opened,
}
use ctfdpp.Gateway.Terminal.Turns.{closes, stops, spawns, Steady, turn-Steady, max_u64}

abbrev pub ended_once : Outcome → ℕ
ended_once running = 0
ended_once returned = 1
ended_once failed = 1

-- The processes that must be stopped by now, of those that were started.
abbrev pub owed : Outcome → ℕ → ℕ
owed running n = 0
owed returned n = n
owed failed n = n

-- What a trace of the session `s` says of the session `t`, when `n` processes run as it begins.
pub record Settled (t s n : ℕ) (trace : Trace) : Type 0 where
  pub closed_once : closes t trace.actions ≡ (if s == t then ended_once trace.outcome else 0)
  pub balanced : stops trace.actions ≡ owed trace.outcome (n + spawns trace.actions)

count-append :
    {A : Type 0} (p : A → Bool) (xs ys : List A)
    → count_where p (xs ++ ys) ≡ count_where p xs + count_where p ys
count-append p [] ys = omega arith
count-append p (x ∷ xs) ys = omega (arith, count-append p xs ys)

closes-append : (t : ℕ) (xs ys : List Action) → closes t (xs ++ ys) ≡ closes t xs + closes t ys
unfolding closes
closes-append t xs ys = count-append _ xs ys

stops-append : (xs ys : List Action) → stops (xs ++ ys) ≡ stops xs + stops ys
unfolding stops
stops-append xs ys = count-append _ xs ys

spawns-append : (xs ys : List Action) → spawns (xs ++ ys) ≡ spawns xs + spawns ys
unfolding spawns
spawns-append xs ys = count-append _ xs ys

-- Actions that close, start and stop nothing.
pub then-Settled :
    (t s n : ℕ) (before : List Action) (trace : Trace)
    → closes t before ≡ 0
    → stops before ≡ 0
    → spawns before ≡ 0
    → Settled t s n trace
    → Settled t s n (before then trace)
then-Settled t s n before trace unclosed unstopped unspawned h = record {
  closed_once =
      closes-append t before trace.actions
      ∙ ap (λ k. k + closes t trace.actions) unclosed
      ∙ omega arith
      ∙ h.closed_once;
  balanced =
      stops-append before trace.actions
      ∙ ap (λ k. k + stops trace.actions) unstopped
      ∙ omega arith
      ∙ h.balanced
      ∙ ap (λ k. owed trace.outcome (n + k)) same;
}
  where
    same : spawns trace.actions ≡ spawns (before ++ trace.actions)
    same = omega (arith, spawns-append before trace.actions)

finish-Settled :
    (t : ℕ) (b : Bridge) (reason : String) (exit_code : Option ℕ) (actions : List Action)
    → closes t actions ≡ 0
    → stops actions ≡ (if str_eq reason "remote_exit" then 1 else 0)
    → spawns actions ≡ 0
    → Settled t b.session_id 1 (actions then finish b reason exit_code)
unfolding finish closes stops spawns
finish-Settled t b reason exit_code actions unclosed stopped unspawned = record {
  closed_once = closes-append t actions _ ∙ ground arith;
  balanced =
      stops-append actions _
      ∙ ground (arith, spawns-append actions (finish b reason exit_code).actions);
}

module _ (t s : ℕ) where
  after_turn-Settled :
      (b : Bridge) (r : Turn) (rest : Bridge → Trace)
      → b.session_id ≡ s
      → Steady b r
      → ((c : Bridge) → c.session_id ≡ s → c.bytes_to_browser ≤ max_u64 → Settled t s 1 (rest c))
      → Settled t s 1 (after_turn r rest)
  after_turn-Settled b (next actions c) rest same h settle =
      then-Settled t s 1 actions (rest c) (h.silent t) h.stopped h.unspawned
        (settle c (h.session_kept ∙ same) (let k = h.counted in omega arith))
  after_turn-Settled b (break actions c reason exit_code) rest same h settle =
      subst (λ i. Settled t i 1 (actions then finish c reason exit_code)) (h.session_kept ∙ same)
        (finish-Settled t c reason exit_code actions (h.silent t) h.stopped h.unspawned)

  pub bridge_loop-Settled :
      (polls : List Poll) (b : Bridge)
      → b.session_id ≡ s
      → b.bytes_to_browser ≤ max_u64
      → Settled t s 1 (bridge_loop polls b)
  unfolding bridge_loop closes stops spawns
  bridge_loop-Settled [] b same bound = record { closed_once = ground arith; balanced = refl }
  bridge_loop-Settled (p ∷ polls) b same bound =
      after_turn-Settled b (turn b p) (bridge_loop polls) same (turn-Steady b bound p)
        (λ c e d. bridge_loop-Settled polls c e d)

  pub bridge_terminal-Settled :
      {Net : Type 0} (config : Config Net) (grant : TicketGrant) (now : ℕ) (parts : Bool)
      (polls : List Poll)
      → Settled t s 1 (bridge_terminal config grant s now parts polls)
  unfolding bridge_terminal closes stops spawns
  bridge_terminal-Settled config grant now true polls =
      bridge_loop-Settled polls (opened config grant s now) refl (omega arith)
  bridge_terminal-Settled config grant now false polls = record {
    closed_once = ground arith;
    balanced = refl;
  }
