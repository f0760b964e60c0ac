-- ===== src/Gateway/Terminal/Deadlines.antt =====
-- services/ssh-gateway/src/terminal.rs: that a terminal session ends by its deadline.
use ctfdpp.Base.{
  ℕ, ◌+◌, ◌≤◌, ◌≡◌, ◌≢◌, ap, inl, inr, refl, Bool, true, false, List, [], ◌∷◌, ◌++◌, leb,
  if◌then◌else◌, arith, Bool-cases,
}
use ctfdpp.Gateway.Policy.{Config}
use ctfdpp.Gateway.Ssh.{TicketGrant}
use ctfdpp.Gateway.Terminal.{Trace, returned, running, ◌then◌}
use ctfdpp.Gateway.Terminal.Bridge.{
  Poll, Bridge, Turn, next, break, turn, after_turn, bridge_loop, bridge_terminal, opened, finish,
}
use ctfdpp.Gateway.Terminal.Turns.{Steady, turn-Steady, max_u64}

-- A turn at or after the deadline ends the loop, whatever comes next.
overdue_turn :
    (b : Bridge) (p : Poll) (f g : Bridge → Trace)
    → b.absolute ≤ p.now
    → (after_turn (turn b p) f ≡ after_turn (turn b p) g)
      × ((after_turn (turn b p) f).outcome ≡ returned)
unfolding turn finish
overdue_turn b p f g late = elim (Bool-cases p.shutdown) [
  | inl down ↦ rw down (refl, refl)
  | inr up ↦ let due : leb b.absolute p.now ≡ true = ground arith in rw (up, due) (refl, refl)
]

abbrev Ends : List Poll → List Poll → Bridge → Type 0
Ends polls until b =
    (bridge_loop polls b ≡ bridge_loop until b) × ((bridge_loop polls b).outcome ≡ returned)

bridge_loop-deadline :
    (before after : List Poll) (p : Poll) (b : Bridge)
    → b.bytes_to_browser ≤ max_u64
    → b.absolute ≤ p.now
    → Ends (before ++ p ∷ after) (before ++ p ∷ []) b
unfolding bridge_loop finish
bridge_loop-deadline [] after p b bound late =
    overdue_turn b p (bridge_loop after) (bridge_loop []) late
bridge_loop-deadline (q ∷ before) after p b bound late =
    go (turn b q) (turn-Steady b bound q)
      (λ c small due. bridge_loop-deadline before after p c small due)
  where
    go :
        (r : Turn)
        → Steady b r
        → ((c : Bridge)
            → c.bytes_to_browser ≤ max_u64
            → c.absolute ≤ p.now
            → Ends (before ++ p ∷ after) (before ++ p ∷ []) c)
        → (after_turn r (bridge_loop (before ++ p ∷ after))
            ≡ after_turn r (bridge_loop (before ++ p ∷ [])))
          × ((after_turn r (bridge_loop (before ++ p ∷ after))).outcome ≡ returned)
    go (next actions c) h rest =
        let due : c.absolute ≤ p.now = (let k = h.absolute_kept in omega arith) in
        let small : c.bytes_to_browser ≤ max_u64 = (let k = h.counted in omega arith) in
        let r = rest c small due in (ap (λ t. actions then t) r.0, r.1)
    go (break actions c reason exit_code) h rest = (refl, refl)

-- A terminal session is over at the latest with the first turn of its loop at or after the instant at
-- which the configured maximum is reached: what is ready in later turns is not looked at.
pub bridge_terminal-deadline :
    {Net : Type 0} (config : Config Net) (grant : TicketGrant) (session_id now : ℕ) (parts : Bool)
    (before after : List Poll) (p : Poll)
    → now + config.maximum_session ≤ p.now
    → (bridge_terminal config grant session_id now parts (before ++ p ∷ after)
        ≡ bridge_terminal config grant session_id now parts (before ++ p ∷ []))
      × ((bridge_terminal config grant session_id now parts (before ++ p ∷ after)).outcome
          ≢ running)
unfolding bridge_terminal
bridge_terminal-deadline config grant session_id now true before after p late =
    let e =
      bridge_loop-deadline before after p (opened config grant session_id now) (omega arith)
        (omega arith) in
    (e.0, λ still. cc)
bridge_terminal-deadline config grant session_id now false before after p late = (refl, λ still. cc)
