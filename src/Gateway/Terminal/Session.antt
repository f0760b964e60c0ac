-- ===== src/Gateway/Terminal/Session.antt =====
-- services/ssh-gateway/src/terminal.rs: `session` and `run_grant`, from the first message to the end.
use ctfdpp.Base.{ℕ, Bool, not, ◌&&◌, Option, none, some, String, List, [], ◌∷◌, if◌then◌else◌}
use ctfdpp.Gateway.Address.{IpAddr}
use ctfdpp.Gateway.Policy.{Config}
use ctfdpp.Gateway.Destination.{Lookup, Resolved, ok, err, resolve}
use ctfdpp.Gateway.Ssh.{
  TicketPurpose, probe, terminal, TicketGrant, HostKey, host_key_eq, validate_target, safe_alias,
  trusted_host_key,
}
use ctfdpp.Gateway.Terminal.{
  error_frame, host_key_frame, ready_frame, report_host_key, report_identity_invalid,
  report_connected, report_closed, probe_host_key, mark_for_rotation, run_preflight, spawn_terminal,
  terminate, returned, failed, Trace, ◌then◌, stop_with, FirstMessage, Authentication, accepted,
  rejected, receive_auth, close_if_session,
}
use ctfdpp.Gateway.Terminal.Bridge.{Poll, bridge_terminal}

-- What the ticket service answers, if it answers in time.
pub data Consumed : Type 0 where
  granted : TicketGrant → Consumed
  refused too_late : Consumed

-- What the rest of the system answers in a session. `files_written` is the success of
-- `create_session_files` after its check of the alias, `preflight_ok` and `spawned` that of the SSH
-- processes, and `binding_valid` that of `identity::validate_identity_binding`.
pub record World (Net : Type 0) : Type 0 where
  pub config : Config Net
  pub first_message : FirstMessage
  pub consumed : Consumed
  pub shutting_down : Bool
  pub capacity_left : Bool
  pub lookup : Lookup
  pub interfaces : Option (List Net)
  pub observed_key : Option HostKey
  pub host_key_recorded : Bool
  pub host_key_sent : Bool
  pub binding_valid : Bool
  pub preflight_files_written : Bool
  pub preflight_ok : Bool
  pub files_written : Bool
  pub spawned : Bool
  pub connection_recorded : Bool
  pub ready_sent : Bool
  pub opened_at : ℕ
  pub parts_taken : Bool
  pub polls : List Poll

-- A report of the end of the session, and the error frame with the same reason.
abbrev pub fail_with : ℕ → String → Trace
fail_with session_id reason =
    stop_with failed (report_closed session_id reason 0 0 none ∷ error_frame reason ∷ [])

abbrev pub deny : Option ℕ → String → Trace
deny api_session_id reason =
    close_if_session api_session_id reason then stop_with failed (error_frame reason ∷ [])

-- The guards of `preflight` and `spawn_terminal` before their processes start.
abbrev pub target_ready : TicketGrant → Bool → Bool
target_ready grant files_written =
    validate_target grant && (safe_alias grant.host_key_alias && files_written)

module _ {Net : Type 0} (contains : Net → IpAddr → Bool) (prefix_len : Net → ℕ)
    (decode : String → Option (List ℕ)) (digest : List ℕ → String) (world : World Net) where
  abbrev pub bridged : TicketGrant → ℕ → Trace
  bridged grant session_id =
      if world.ready_sent
      then ready_frame session_id ∷ []
      then bridge_terminal world.config grant session_id world.opened_at world.parts_taken
          world.polls
      else stop_with failed
          (terminate ∷ report_closed session_id "browser_disconnected" 0 0 none ∷ [])

  abbrev pub connected : TicketGrant → ℕ → Trace
  connected grant session_id =
      report_connected session_id ∷ []
      then (if world.connection_recorded
          then bridged grant session_id
          else terminate ∷ [] then fail_with session_id "control_plane_unavailable")

  unfoldable pub start_terminal : TicketGrant → ℕ → IpAddr × ℕ → Trace
  start_terminal grant session_id address =
      if not (target_ready grant world.files_written)
      then fail_with session_id "ssh_start_failed"
      else if not world.spawned
      then fail_with session_id "ssh_start_failed"
      else spawn_terminal address ∷ [] then connected grant session_id

  unfoldable pub preflighted : TicketGrant → ℕ → IpAddr × ℕ → Trace
  preflighted grant session_id address =
      if not (target_ready grant world.preflight_files_written)
      then fail_with session_id "authentication_failed"
      else run_preflight address ∷ []
        then (if not world.preflight_ok
            then fail_with session_id "authentication_failed"
            else start_terminal grant session_id address)

  abbrev pub bound : TicketGrant → ℕ → IpAddr × ℕ → Trace
  bound grant session_id address =
      if world.binding_valid
      then preflighted grant session_id address
      else mark_for_rotation grant.host_id ∷ report_identity_invalid grant.host_id ∷ []
        then fail_with session_id "identity_unavailable"

  abbrev pub matched : TicketGrant → ℕ → IpAddr × ℕ → HostKey → Option HostKey → Trace
  matched grant session_id address observed none = fail_with session_id "host_key_untrusted"
  matched grant session_id address observed (some trusted) =
      if host_key_eq observed trusted
      then bound grant session_id address
      else report_host_key grant.host_id grant.ticket_id observed.public_key ∷ []
        then fail_with session_id "host_key_mismatch"

  -- The end of a probe: the candidate is recorded, and shown to the browser.
  abbrev pub probed : TicketGrant → HostKey → Trace
  probed grant observed =
      report_host_key grant.host_id grant.ticket_id observed.public_key ∷ []
      then (if not world.host_key_recorded
          then stop_with failed []
          else stop_with (if world.host_key_sent then returned else failed)
              (host_key_frame observed.fingerprint ∷ []))

  -- After the destination and its key are known. A probe has no session.
  abbrev pub with_key : TicketGrant → Option ℕ → IpAddr × ℕ → HostKey → Trace
  with_key grant none address observed = probed grant observed
  with_key grant (some session_id) address observed =
      matched grant session_id address observed (trusted_host_key decode digest grant)

  abbrev pub with_probe : TicketGrant → Option ℕ → IpAddr × ℕ → Option HostKey → Trace
  with_probe grant session address none =
      probe_host_key address ∷ [] then deny session "host_key_probe_failed"
  with_probe grant session address (some observed) =
      probe_host_key address ∷ [] then with_key grant session address observed

  abbrev pub with_address : TicketGrant → Option ℕ → Resolved (IpAddr × ℕ) → Trace
  with_address grant session (err e) = deny session "destination_denied"
  with_address grant session (ok address) = with_probe grant session address world.observed_key

  abbrev pub resolved : TicketGrant → Option ℕ → Trace
  resolved grant session = with_address grant session (
      resolve contains prefix_len world.config world.lookup world.interfaces grant.hostname
        grant.ssh_port)

  abbrev pub for_session : TicketGrant → Option ℕ → Trace
  for_session grant none = stop_with failed (error_frame "invalid_ticket" ∷ [])
  for_session grant (some session_id) = resolved grant (some session_id)

  abbrev pub for_purpose : TicketGrant → TicketPurpose → Trace
  for_purpose grant probe = resolved grant none
  for_purpose grant terminal = for_session grant grant.session_id

  unfoldable pub run_grant : TicketGrant → Trace
  run_grant grant = for_purpose grant grant.purpose

  unfoldable pub admitted : TicketGrant → Trace
  admitted grant =
      if world.shutting_down
      then close_if_session grant.session_id "gateway_shutdown"
      then stop_with returned (error_frame "gateway_shutdown" ∷ [])
      else if not world.capacity_left
      then close_if_session grant.session_id "gateway_capacity"
      then stop_with returned (error_frame "capacity_full" ∷ [])
      else run_grant grant

  abbrev with_consumed : Consumed → Trace
  with_consumed (granted grant) = admitted grant
  with_consumed refused = stop_with returned (error_frame "ticket_rejected" ∷ [])
  with_consumed too_late = stop_with returned (error_frame "auth_timeout" ∷ [])

  abbrev authenticated : Authentication → Trace
  authenticated (rejected code) = stop_with returned (error_frame code ∷ [])
  authenticated (accepted auth) = with_consumed world.consumed

  unfoldable pub session : Trace
  session = authenticated (receive_auth world.first_message)
