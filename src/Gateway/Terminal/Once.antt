-- ===== src/Gateway/Terminal/Once.antt =====
-- services/ssh-gateway/src/terminal.rs: that the API hears of the end of every terminal session once,
-- and that no SSH process outlives its session.
use ctfdpp.Base.{
  ℕ, ◌≡◌, ◌∙◌, sym, ap, subst, refl, Bool, true, false, not, Option, none, some, String, List, [],
  ◌∷◌, if◌then◌else◌, arith,
}
use ctfdpp.Gateway.Address.{IpAddr}
use ctfdpp.Gateway.Destination.{Resolved, ok, err, resolve}
use ctfdpp.Gateway.Ssh.{TicketGrant, terminal, HostKey, host_key_eq, trusted_host_key}
use ctfdpp.Gateway.Terminal.{
  error_frame, close_if_session, report_closed, ready_frame, terminate, report_connected,
  mark_for_rotation, report_identity_invalid, report_host_key, probe_host_key, spawn_terminal,
  run_preflight, returned, failed, Trace, ◌then◌, stop_with,
}
use ctfdpp.Gateway.Terminal.Bridge.{bridge_terminal}
use ctfdpp.Gateway.Terminal.Turns.{closes, stops, spawns}
use ctfdpp.Gateway.Terminal.Closing.{owed, Settled, then-Settled, bridge_terminal-Settled}
use ctfdpp.Gateway.Terminal.Session.{
  World, target_ready, fail_with, deny, bridged, connected, start_terminal, preflighted, bound,
  matched, with_probe, with_address, for_purpose, for_session, run_grant, admitted,
}

Settled-if :
    (t s n : ℕ) (b : Bool) (x y : Trace)
    → Settled t s n x
    → Settled t s n y
    → Settled t s n (if b then x else y)
Settled-if t s n true x y hx hy = hx
Settled-if t s n false x y hx hy = hy

-- The process starts to run.
spawn-Settled :
    (t s : ℕ) (address : IpAddr × ℕ) (trace : Trace)
    → Settled t s 1 trace
    → Settled t s 0 (spawn_terminal address ∷ [] then trace)
unfolding closes stops spawns
spawn-Settled t s address trace h = record {
  closed_once = omega arith ∙ h.closed_once;
  balanced = omega arith ∙ h.balanced ∙ ap (owed trace.outcome) (omega arith);
}

fail_with-Settled : (t s : ℕ) (reason : String) → Settled t s 0 (fail_with s reason)
unfolding closes stops spawns
fail_with-Settled t s reason = record { closed_once = ground arith; balanced = refl }

deny-Settled : (t s : ℕ) (reason : String) → Settled t s 0 (deny (some s) reason)
unfolding closes stops spawns
deny-Settled t s reason = record { closed_once = ground arith; balanced = refl }

module _ {Net : Type 0} (contains : Net → IpAddr → Bool) (prefix_len : Net → ℕ)
    (decode : String → Option (List ℕ)) (digest : List ℕ → String) (world : World Net)
    (grant : TicketGrant) (t s : ℕ) where
  bridged-Settled : Settled t s 1 (bridged contains prefix_len decode digest world grant s)
  unfolding closes stops spawns
  bridged-Settled = either world.ready_sent
    where
      either :
          (b : Bool)
          → Settled t s 1 (
              if b
              then ready_frame s ∷ []
              then bridge_terminal world.config grant s world.opened_at world.parts_taken
                  world.polls
              else stop_with failed
                  (terminate ∷ report_closed s "browser_disconnected" 0 0 none ∷ []))
      either true = then-Settled t s 1 (ready_frame s ∷ []) _ refl refl refl (
          bridge_terminal-Settled t s world.config grant world.opened_at world.parts_taken
            world.polls)
      either false = record { closed_once = ground arith; balanced = refl }

  lost-Settled : Settled t s 1 (terminate ∷ [] then fail_with s "control_plane_unavailable")
  unfolding closes stops spawns
  lost-Settled = record { closed_once = ground arith; balanced = refl }

  connected-Settled : Settled t s 1 (connected contains prefix_len decode digest world grant s)
  unfolding closes stops spawns
  connected-Settled =
      then-Settled t s 1 (report_connected s ∷ []) _ refl refl refl
        (Settled-if t s 1 world.connection_recorded _ _ bridged-Settled lost-Settled)

  start_terminal-Settled :
      (address : IpAddr × ℕ)
      → Settled t s 0 (start_terminal contains prefix_len decode digest world grant s address)
  unfolding start_terminal
  start_terminal-Settled address =
      Settled-if t s 0 (not (target_ready grant world.files_written)) _ _
        (fail_with-Settled t s "ssh_start_failed")
        (Settled-if t s 0 (not world.spawned) _ _ (fail_with-Settled t s "ssh_start_failed")
          (spawn-Settled t s address _ connected-Settled))

  preflighted-Settled :
      (address : IpAddr × ℕ)
      → Settled t s 0 (preflighted contains prefix_len decode digest world grant s address)
  unfolding preflighted closes stops spawns
  preflighted-Settled address =
      Settled-if t s 0 (not (target_ready grant world.preflight_files_written)) _ _
        (fail_with-Settled t s "authentication_failed")
        (then-Settled t s 0 (run_preflight address ∷ []) _ refl refl refl (
          Settled-if t s 0 (not world.preflight_ok) _ _
            (fail_with-Settled t s "authentication_failed") (start_terminal-Settled address)))

  bound-Settled :
      (address : IpAddr × ℕ)
      → Settled t s 0 (bound contains prefix_len decode digest world grant s address)
  unfolding closes stops spawns
  bound-Settled address = Settled-if t s 0 world.binding_valid _ _ (preflighted-Settled address) (
      then-Settled t s 0
        (mark_for_rotation grant.host_id ∷ report_identity_invalid grant.host_id ∷ []) _ refl refl
        refl (fail_with-Settled t s "identity_unavailable"))

  matched-Settled :
      (address : IpAddr × ℕ) (observed : HostKey) (trusted : Option HostKey)
      → Settled t s 0
          (matched contains prefix_len decode digest world grant s address observed trusted)
  unfolding closes stops spawns
  matched-Settled address observed none = fail_with-Settled t s "host_key_untrusted"
  matched-Settled address observed (some trusted) =
      Settled-if t s 0 (host_key_eq observed trusted) _ _ (bound-Settled address) (
        then-Settled t s 0 (report_host_key grant.host_id grant.ticket_id observed.public_key ∷ [])
          _ refl refl refl (fail_with-Settled t s "host_key_mismatch"))

  with_probe-Settled :
      (address : IpAddr × ℕ) (observed : Option HostKey)
      → Settled t s 0
          (with_probe contains prefix_len decode digest world grant (some s) address observed)
  unfolding closes stops spawns
  with_probe-Settled address none =
      then-Settled t s 0 (probe_host_key address ∷ []) _ refl refl refl
        (deny-Settled t s "host_key_probe_failed")
  with_probe-Settled address (some observed) =
      then-Settled t s 0 (probe_host_key address ∷ []) _ refl refl refl
        (matched-Settled address observed (trusted_host_key decode digest grant))

  with_address-Settled :
      (answer : Resolved (IpAddr × ℕ))
      → Settled t s 0 (with_address contains prefix_len decode digest world grant (some s) answer)
  with_address-Settled (ok address) = with_probe-Settled address world.observed_key
  with_address-Settled (err e) = deny-Settled t s "destination_denied"

  run_grant-Settled :
      grant.purpose ≡ terminal
      → grant.session_id ≡ some s
      → Settled t s 0 (run_grant contains prefix_len decode digest world grant)
  unfolding run_grant
  run_grant-Settled is_terminal has_session =
      subst (λ p. Settled t s 0 (for_purpose contains prefix_len decode digest world grant p))
        (sym is_terminal)
        (subst (λ o. Settled t s 0 (for_session contains prefix_len decode digest world grant o))
          (sym has_session)
          (with_address-Settled (
            resolve contains prefix_len world.config world.lookup world.interfaces grant.hostname
              grant.ssh_port)))

  turned_away :
      (reason code : String)
      → Settled t s 0
          (close_if_session (some s) reason then stop_with returned (error_frame code ∷ []))
  unfolding closes stops spawns
  turned_away reason code = record { closed_once = ground arith; balanced = refl }

  -- A terminal session that the ticket service has opened is reported closed once when it is over and
  -- not before, under its own id and no other; and by then every SSH process that it started was
  -- terminated or had exited. This holds whatever the browser, the API, the name service, the files
  -- and the SSH processes answer.
  pub admitted-Settled :
      grant.purpose ≡ terminal
      → grant.session_id ≡ some s
      → Settled t s 0 (admitted contains prefix_len decode digest world grant)
  unfolding admitted
  admitted-Settled is_terminal has_session =
      Settled-if t s 0 world.shutting_down _ _ (away "gateway_shutdown" "gateway_shutdown") (
        Settled-if t s 0 (not world.capacity_left) _ _ (away "gateway_capacity" "capacity_full")
          (run_grant-Settled is_terminal has_session))
    where
      away :
          (reason code : String)
          → Settled t s 0 (
              close_if_session grant.session_id reason
              then stop_with returned (error_frame code ∷ []))
      away reason code =
          subst
            (λ o.
              Settled t s 0
                (close_if_session o reason then stop_with returned (error_frame code ∷ [])))
            (sym has_session) (turned_away reason code)
