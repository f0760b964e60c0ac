-- ===== src/Gateway/Terminal/Bridge.antt =====
-- services/ssh-gateway/src/terminal.rs: `bridge_terminal`, the loop that carries bytes between the
-- browser and the SSH process until one of its ends, its deadlines or the control plane stops it.
use ctfdpp.Base.{
  ℕ, ◌+◌, ◌*◌, ◌^◌, ◌-◌, ◌/◌, min, max, Bool, not, Option, none, some, String, List, [], ◌∷◌, ltb,
  leb, if◌then◌else◌, str_eq,
}
use ctfdpp.Gateway.Policy.{Config}
use ctfdpp.Gateway.Ssh.{TicketGrant}
use ctfdpp.Gateway.Terminal.{
  Action, error_frame, exit_frame, output_frame, report_closed, heartbeat, input_bytes, resize,
  terminate, disarm, returned, failed, running, Trace, ◌then◌, stop_with, valid_dimensions,
}

pub data Heartbeat : Type 0 where
  alive revoked unanswered : Heartbeat

-- What `try_wait` says: an exit code, nothing yet, or an error.
pub data ChildStatus : Type 0 where
  exited : ℕ → ChildStatus
  still_running wait_failed : ChildStatus

pub data Send : Type 0 where
  sent queue_full disconnected : Send

-- A message of the browser, with the answer of the queue or of the terminal; a text is given as the
-- columns and rows of the `resize` that `serde_json` reads from it.
pub data Message : Type 0 where
  binary : ℕ → Send → Message
  text : Option (ℕ × ℕ) → Bool → Message
  ping closed : Message

-- Output of the SSH process with whether the browser took it in time, or its end with what the wait
-- for the exit finds.
pub data Output : Type 0 where
  bytes : ℕ → Bool → Output
  end : ChildStatus → Output

-- One turn of the loop: the instant, what is ready then, and the instant that the branch's body reads
-- when it resets the idle deadline.
pub record Poll : Type 0 where
  pub now : ℕ
  pub shutdown : Bool
  pub heartbeat_due : Option Heartbeat
  pub child : Option ChildStatus
  pub message : Option Message
  pub output : Option Output
  pub body_at : ℕ

pub record Bridge : Type 0 where
  pub session_id : ℕ
  pub idle_for : ℕ
  pub idle : ℕ
  pub absolute : ℕ
  pub missed_heartbeats : ℕ
  pub bytes_from_browser : ℕ
  pub bytes_to_browser : ℕ

abbrev pub max_pty_frame_bytes : ℕ
max_pty_frame_bytes = 16 * 1024

-- `saturating_add` of `u64` and of `u8`
abbrev pub add_u64 : ℕ → ℕ → ℕ
add_u64 a b = min (a + b) (2 ^ 64 - 1)

abbrev pub add_u8 : ℕ → ℕ → ℕ
add_u8 a b = min (a + b) (2 ^ 8 - 1)

-- A turn goes on with the next state, or ends the loop with the reason and the exit code.
pub data Turn : Type 0 where
  next : List Action → Bridge → Turn
  break : List Action → Bridge → String → Option ℕ → Turn

abbrev pub end_with : Bridge → String → Turn
end_with bridge reason = break [] bridge reason none

abbrev pub touched : ℕ → Bridge → Bridge
touched at bridge = record bridge { idle = at + bridge.idle_for }

-- `exit_code().min(i32::MAX as u32)`
abbrev pub clamp_exit : ℕ → ℕ
clamp_exit code = min code (2 ^ 31 - 1)

abbrev pub on_heartbeat : Bridge → Heartbeat → Turn
on_heartbeat bridge alive = next [] (record bridge { missed_heartbeats = 0 })
on_heartbeat bridge revoked = end_with bridge "session_revoked"
on_heartbeat bridge unanswered =
    let missed = record bridge { missed_heartbeats = add_u8 bridge.missed_heartbeats 1 } in
    if leb 2 missed.missed_heartbeats
    then end_with missed "control_plane_unavailable"
    else next [] missed

abbrev pub with_heartbeat : Bridge → Turn → Turn
with_heartbeat bridge (next actions after) =
    next (heartbeat bridge.session_id bridge.bytes_from_browser bridge.bytes_to_browser ∷ actions)
      after
with_heartbeat bridge (break actions after reason exit_code) =
    break (heartbeat bridge.session_id bridge.bytes_from_browser bridge.bytes_to_browser ∷ actions)
      after reason exit_code

abbrev pub on_child : Bridge → ChildStatus → Turn
on_child bridge (exited code) = break (disarm ∷ []) bridge "remote_exit" (some (clamp_exit code))
on_child bridge still_running = next [] bridge
on_child bridge wait_failed = end_with bridge "ssh_wait_failed"

abbrev pub on_sent : ℕ → ℕ → Bridge → Send → Turn
on_sent at size bridge sent = next (input_bytes size ∷ []) (touched at bridge)
on_sent at size bridge queue_full = end_with bridge "input_backpressure"
on_sent at size bridge disconnected = end_with bridge "ssh_input_closed"

abbrev pub on_resize : ℕ → Bridge → Option (ℕ × ℕ) → Bool → Turn
on_resize at bridge none done = end_with bridge "invalid_control"
on_resize at bridge (some (cols, rows)) done =
    if not (valid_dimensions cols rows)
    then end_with bridge "invalid_control"
    else if not done
    then break (resize cols rows ∷ []) bridge "resize_failed" none
    else next (resize cols rows ∷ []) (touched at bridge)

abbrev pub on_message : ℕ → Bridge → Message → Turn
on_message at bridge (binary size answer) =
    if ltb max_pty_frame_bytes size
    then end_with bridge "input_too_large"
    else on_sent at size
        (record bridge { bytes_from_browser = add_u64 bridge.bytes_from_browser size }) answer
on_message at bridge (text control done) = on_resize at bridge control done
on_message at bridge ping = next [] bridge
on_message at bridge closed = end_with bridge "browser_disconnected"

abbrev pub on_end : Bridge → ChildStatus → Turn
on_end bridge (exited code) = break (disarm ∷ []) bridge "remote_exit" (some (clamp_exit code))
on_end bridge still_running = end_with bridge "ssh_output_closed"
on_end bridge wait_failed = end_with bridge "ssh_wait_failed"

abbrev pub on_output : ℕ → Bridge → Output → Turn
on_output at bridge (bytes size taken) =
    let counted = record bridge { bytes_to_browser = add_u64 bridge.bytes_to_browser size } in
    if taken
    then next (output_frame size ∷ []) (touched at counted)
    else break (output_frame size ∷ []) counted "slow_browser" none
on_output at bridge (end status) = on_end bridge status

-- The data branches, which come after the control branches.
abbrev pub poll_output : Bridge → ℕ → Option Output → Turn
poll_output bridge at none = next [] bridge
poll_output bridge at (some output) = on_output at bridge output

abbrev pub poll_message : Bridge → ℕ → Option Message → Option Output → Turn
poll_message bridge at (some message) output = on_message at bridge message
poll_message bridge at none output = poll_output bridge at output

abbrev pub poll_child : Bridge → ℕ → Option ChildStatus → Option Message → Option Output → Turn
poll_child bridge at (some status) message output = on_child bridge status
poll_child bridge at none message output = poll_message bridge at message output

abbrev pub poll_heartbeat : Bridge → Poll → Option Heartbeat → Turn
poll_heartbeat bridge poll (some answer) = with_heartbeat bridge (on_heartbeat bridge answer)
poll_heartbeat bridge poll none = poll_child bridge poll.body_at poll.child poll.message poll.output

-- The `biased` select: the first ready branch in the order of the source.
unfoldable pub turn : Bridge → Poll → Turn
turn bridge poll =
    if poll.shutdown
    then end_with bridge "gateway_shutdown"
    else if leb bridge.absolute poll.now
    then end_with bridge "session_timeout"
    else if leb bridge.idle poll.now
    then end_with bridge "idle_timeout"
    else poll_heartbeat bridge poll poll.heartbeat_due

abbrev exit_code_or_one : Option ℕ → ℕ
exit_code_or_one none = 1
exit_code_or_one (some code) = code

abbrev final_frame : String → Option ℕ → List Action
final_frame reason exit_code =
    if str_eq reason "remote_exit"
    then exit_frame (exit_code_or_one exit_code) ∷ []
    else if str_eq reason "browser_disconnected"
    then []
    else error_frame reason ∷ []

abbrev stop_terminal : String → List Action
stop_terminal reason = if str_eq reason "remote_exit" then [] else terminate ∷ []

-- What follows the loop.
unfoldable pub finish : Bridge → String → Option ℕ → Trace
finish bridge reason exit_code =
    stop_terminal reason
    then final_frame reason exit_code
    then stop_with returned (
        report_closed bridge.session_id reason bridge.bytes_from_browser bridge.bytes_to_browser
          exit_code
        ∷ [])

-- A turn of the loop, and then the turns of the rest.
abbrev pub after_turn : Turn → (Bridge → Trace) → Trace
after_turn (next actions bridge) rest = actions then rest bridge
after_turn (break actions bridge reason exit_code) rest =
    actions then finish bridge reason exit_code

unfoldable pub bridge_loop : List Poll → Bridge → Trace
bridge_loop [] bridge = stop_with running []
bridge_loop (poll ∷ polls) bridge = after_turn (turn bridge poll) (bridge_loop polls)

-- The limits of the grant, at least a second, under those of the configuration.
abbrev pub seconds_within : ℕ → ℕ → ℕ
seconds_within granted configured = min (max granted 1) (configured / 1000)

abbrev pub opened : {Net : Type 0} → Config Net → TicketGrant → ℕ → ℕ → Bridge
opened config grant session_id now =
    let idle_for = seconds_within grant.idle_timeout_seconds config.idle_timeout * 1000 in
    let open_for = seconds_within grant.absolute_timeout_seconds config.maximum_session * 1000 in
    record {
      session_id = session_id;
      idle_for = idle_for;
      idle = now + idle_for;
      absolute = now + open_for;
      missed_heartbeats = 0;
      bytes_from_browser = 0;
      bytes_to_browser = 0;
    }

-- `parts` says whether `take_parts` succeeds.
unfoldable pub bridge_terminal :
    {Net : Type 0} → Config Net → TicketGrant → ℕ → ℕ → Bool → List Poll → Trace
bridge_terminal config grant session_id now parts polls =
    if parts
    then bridge_loop polls (opened config grant session_id now)
    else stop_with failed (terminate ∷ report_closed session_id "ssh_start_failed" 0 0 none ∷ [])
