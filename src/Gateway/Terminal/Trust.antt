-- ===== src/Gateway/Terminal/Trust.antt =====
-- services/ssh-gateway/src/terminal.rs: to which hosts, and with which keys, SSH is run.
use ctfdpp.Base.{
  ℕ, ◌+◌, ◌≤◌, ◌≡◌, ◌∙◌, sym, ap, inl, inr, refl, Bool, true, false, not, Option, none, some,
  String, List, [], ◌∷◌, ◌++◌, if◌then◌else◌, arith, Bool-cases, All, All-append, eq_iff,
}
use ctfdpp.Gateway.Address.{IpAddr}
use ctfdpp.Gateway.Destination.{Resolved, ok, err, resolve}
use ctfdpp.Gateway.Ssh.{
  TicketGrant, TicketPurpose, probe, terminal, HostKey, host_key_eq, trusted_host_key, safe_user,
  safe_alias,
}
use ctfdpp.Gateway.Terminal.{
  Action, error_frame, close_if_session, spawn_terminal, run_preflight, returned, Trace, ◌then◌,
  stop_with,
}
use ctfdpp.Gateway.Terminal.Bridge.{
  Bridge, Poll, Turn, next, break, turn, finish, after_turn, bridge_loop, bridge_terminal, opened,
}
use ctfdpp.Gateway.Terminal.Turns.{Steady, turn-Steady, connects, is_connection, max_u64}
use ctfdpp.Gateway.Terminal.Session.{
  World, target_ready, deny, connected, start_terminal, preflighted, matched, with_probe,
  with_address, resolved, for_purpose, for_session, run_grant, admitted,
}

-- A trace in which no SSH client is run.
abbrev Unconnected : Trace → Type 0
Unconnected trace = connects trace.actions ≡ 0

connects-append : (xs ys : List Action) → connects (xs ++ ys) ≡ connects xs + connects ys
unfolding connects
connects-append [] ys = omega arith
connects-append (x ∷ xs) ys = omega (arith, connects-append xs ys)

finish-Unconnected :
    (b : Bridge) (reason : String) (exit_code : Option ℕ) → Unconnected (finish b reason exit_code)
unfolding finish connects
finish-Unconnected b reason exit_code = ground arith

bridge_loop-Unconnected :
    (polls : List Poll) (b : Bridge)
    → b.bytes_to_browser ≤ max_u64
    → Unconnected (bridge_loop polls b)
unfolding bridge_loop connects
bridge_loop-Unconnected [] b small = refl
bridge_loop-Unconnected (p ∷ polls) b small =
    go (turn b p) (turn-Steady b small p) (λ c le. bridge_loop-Unconnected polls c le)
  where
    go :
        (r : Turn)
        → Steady b r
        → ((c : Bridge) → c.bytes_to_browser ≤ max_u64 → Unconnected (bridge_loop polls c))
        → Unconnected (after_turn r (bridge_loop polls))
    go (next actions c) h rest =
        let le : c.bytes_to_browser ≤ max_u64 = (let k = h.counted in omega arith) in
        omega
          (arith, connects-append actions (bridge_loop polls c).actions, h.unconnected, rest c le)
    go (break actions c reason exit_code) h rest = omega (
      arith,
      connects-append actions (finish c reason exit_code).actions,
      h.unconnected,
      finish-Unconnected c reason exit_code,
    )

module _ {Net : Type 0} (contains : Net → IpAddr → Bool) (prefix_len : Net → ℕ)
    (decode : String → Option (List ℕ)) (digest : List ℕ → String) (world : World Net)
    (grant : TicketGrant) where
  -- What must hold of an address before SSH is run against it.
  pub record Trusted (address : IpAddr × ℕ) : Type 0 where
    pub permitted :
        resolve contains prefix_len world.config world.lookup world.interfaces grant.hostname
          grant.ssh_port
        ≡ ok address
    pub user_safe : safe_user grant.ssh_user ≡ true
    pub alias_safe : safe_alias grant.host_key_alias ≡ true
    pub key : HostKey
    pub key_seen : world.observed_key ≡ some key
    pub key_pinned : trusted_host_key decode digest grant ≡ some key
    pub identity_valid : world.binding_valid ≡ true

  abbrev pub Warranted : Action → Type 0
  Warranted (run_preflight address) = Trusted address
  Warranted (spawn_terminal address) = Trusted address
  Warranted action = Unit

  abbrev AllWarranted : Trace → Type 0
  AllWarranted trace = All Warranted trace.actions

  harmless : (a : Action) → is_connection a ≡ false → Warranted a
  harmless (run_preflight address) h = cc
  harmless (spawn_terminal address) h = cc
  harmless action h = tt

  unconnected-Warranted : (actions : List Action) → connects actions ≡ 0 → All Warranted actions
  unfolding connects
  unconnected-Warranted [] h = tt
  unconnected-Warranted (a ∷ actions) h = elim (Bool-cases (is_connection a)) [
    | inl runs ↦ let k = rw runs at h in absurd (omega arith)
    | inr none_run ↦ (
      harmless a none_run,
      unconnected-Warranted actions (let k = rw none_run at h in omega arith),
    )
  ]

  Warranted-if :
      (b : Bool) (x y : Trace)
      → (b ≡ true → AllWarranted x)
      → (b ≡ false → AllWarranted y)
      → AllWarranted (if b then x else y)
  Warranted-if true x y hx hy = hx refl
  Warranted-if false x y hx hy = hy refl

  then-Warranted :
      (before : List Action) (trace : Trace)
      → All Warranted before
      → AllWarranted trace
      → AllWarranted (before then trace)
  then-Warranted before trace hb ht = All-append Warranted before trace.actions hb ht

  bridge_terminal-Warranted :
      (session_id now : ℕ) (parts : Bool) (polls : List Poll)
      → AllWarranted (bridge_terminal world.config grant session_id now parts polls)
  unfolding bridge_terminal
  bridge_terminal-Warranted session_id now true polls =
      unconnected-Warranted _
        (bridge_loop-Unconnected polls (opened world.config grant session_id now) (omega arith))
  bridge_terminal-Warranted session_id now false polls = (tt, (tt, tt))

  deny-Warranted : (session : Option ℕ) (reason : String) → AllWarranted (deny session reason)
  deny-Warranted none reason = (tt, tt)
  deny-Warranted (some s) reason = (tt, (tt, tt))

  ready-safe :
      (written : Bool)
      → not (target_ready grant written) ≡ false
      → (safe_user grant.ssh_user ≡ true) × (safe_alias grant.host_key_alias ≡ true)
  ready-safe written h = ground arith

  host_key_same : (a b : HostKey) → host_key_eq a b ≡ true → a ≡ b
  host_key_same a b h =
      let k : a.public_key ≡ b.public_key = (eq_iff a.public_key b.public_key).0 (ground arith) in
      let f : a.fingerprint ≡ b.fingerprint =
        (eq_iff a.fingerprint b.fingerprint).0 (ground arith) in
      λ i. record { public_key = k i; fingerprint = f i }

  connected-Warranted :
      (s : ℕ) → AllWarranted (connected contains prefix_len decode digest world grant s)
  connected-Warranted s = (
    tt,
    Warranted-if world.connection_recorded _ _
        (λ e.
          Warranted-if world.ready_sent _ _
            (λ d. (tt, bridge_terminal-Warranted s world.opened_at world.parts_taken world.polls))
            (λ d. (tt, (tt, tt))))
        (λ e. (tt, (tt, (tt, tt)))),
  )

  -- What is known of the address when its key was found to be the pinned one.
  module _ (s : ℕ) (address : IpAddr × ℕ)
      (trust : safe_user grant.ssh_user ≡ true
        → safe_alias grant.host_key_alias ≡ true
        → Trusted address) where
    start_terminal-Warranted :
        AllWarranted (start_terminal contains prefix_len decode digest world grant s address)
    unfolding start_terminal
    start_terminal-Warranted =
        Warranted-if (not (target_ready grant world.files_written)) _ _ (λ e. (tt, (tt, tt)))
          (λ e.
            Warranted-if (not world.spawned) _ _ (λ d. (tt, (tt, tt)))
              (λ d. (
                let safe = ready-safe world.files_written e in trust safe.0 safe.1,
                connected-Warranted s,
              )))

    preflighted-Warranted :
        AllWarranted (preflighted contains prefix_len decode digest world grant s address)
    unfolding preflighted
    preflighted-Warranted =
        Warranted-if (not (target_ready grant world.preflight_files_written)) _ _
          (λ e. (tt, (tt, tt)))
          (λ e. (
            let safe = ready-safe world.preflight_files_written e in trust safe.0 safe.1,
            Warranted-if (not world.preflight_ok) _ _ (λ d. (tt, (tt, tt)))
                (λ d. start_terminal-Warranted),
          ))

  module _ (s : ℕ) (address : IpAddr × ℕ)
      (permitted : resolve contains prefix_len world.config world.lookup world.interfaces
          grant.hostname grant.ssh_port
        ≡ ok address) where
    matched-Warranted :
        (observed : HostKey) (trusted : Option HostKey)
        → world.observed_key ≡ some observed
        → trusted_host_key decode digest grant ≡ trusted
        → AllWarranted
            (matched contains prefix_len decode digest world grant s address observed trusted)
    matched-Warranted observed none seen pinned = (tt, (tt, tt))
    matched-Warranted observed (some key) seen pinned =
        Warranted-if (host_key_eq observed key) _ _
          (λ same.
            Warranted-if world.binding_valid _ _
              (λ valid. preflighted-Warranted s address (λ u a. record {
                permitted = permitted;
                user_safe = u;
                alias_safe = a;
                key = observed;
                key_seen = seen;
                key_pinned = pinned ∙ ap some (sym (host_key_same observed key same));
                identity_valid = valid;
              }))
              (λ invalid. (tt, (tt, (tt, (tt, tt))))))
          (λ changed. (tt, (tt, (tt, tt))))

  with_key-Warranted :
      (session : Option ℕ) (address : IpAddr × ℕ) (observed : Option HostKey)
      → resolve contains prefix_len world.config world.lookup world.interfaces grant.hostname
          grant.ssh_port
        ≡ ok address
      → world.observed_key ≡ observed
      → AllWarranted
          (with_probe contains prefix_len decode digest world grant session address observed)
  with_key-Warranted session address none permitted seen =
      (tt, deny-Warranted session "host_key_probe_failed")
  with_key-Warranted none address (some observed) permitted seen =
      (tt, (tt, Warranted-if (not world.host_key_recorded) _ _ (λ e. tt) (λ e. (tt, tt))))
  with_key-Warranted (some s) address (some observed) permitted seen = (
    tt,
    matched-Warranted s address permitted observed (trusted_host_key decode digest grant) seen refl,
  )

  resolved-Warranted :
      (session : Option ℕ)
      → AllWarranted (resolved contains prefix_len decode digest world grant session)
  resolved-Warranted session =
      go
        (resolve contains prefix_len world.config world.lookup world.interfaces grant.hostname
          grant.ssh_port)
        refl
    where
      go :
          (answer : Resolved (IpAddr × ℕ))
          → resolve contains prefix_len world.config world.lookup world.interfaces grant.hostname
              grant.ssh_port
            ≡ answer
          → AllWarranted (with_address contains prefix_len decode digest world grant session answer)
      go (ok address) e = with_key-Warranted session address world.observed_key e refl
      go (err x) e = deny-Warranted session "destination_denied"

  run_grant-Warranted : AllWarranted (run_grant contains prefix_len decode digest world grant)
  unfolding run_grant
  run_grant-Warranted = purpose grant.purpose
    where
      for_terminal :
          (session : Option ℕ)
          → AllWarranted (for_session contains prefix_len decode digest world grant session)
      for_terminal none = (tt, tt)
      for_terminal (some s) = resolved-Warranted (some s)

      purpose :
          (p : TicketPurpose)
          → AllWarranted (for_purpose contains prefix_len decode digest world grant p)
      purpose probe = resolved-Warranted none
      purpose terminal = for_terminal grant.session_id

  -- Whatever the other parts answer, SSH is only run against an address that `resolve` permits, as a
  -- safe user (not root) and with a safe alias, after the key that was read from the host was found to
  -- be the key that the grant pins, and with an identity that was found valid.
  pub admitted-Warranted : AllWarranted (admitted contains prefix_len decode digest world grant)
  unfolding admitted
  admitted-Warranted =
      Warranted-if world.shutting_down _ _
        (λ e. away grant.session_id "gateway_shutdown" "gateway_shutdown")
        (λ e.
          Warranted-if (not world.capacity_left) _ _
            (λ d. away grant.session_id "gateway_capacity" "capacity_full")
            (λ d. run_grant-Warranted))
    where
      away :
          (session : Option ℕ) (reason code : String)
          → AllWarranted
              (close_if_session session reason then stop_with returned (error_frame code ∷ []))
      away none reason code = (tt, tt)
      away (some s) reason code = (tt, (tt, tt))
