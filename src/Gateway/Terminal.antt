-- ===== src/Gateway/Terminal.antt =====
-- services/ssh-gateway/src/terminal.rs: what a terminal session does, as the sequence of its actions.
-- The answers of the browser, the API, the files and the SSH processes are arguments. Instants are
-- in milliseconds.
pub mod Bridge
pub mod Session
pub mod Turns
pub mod Closing
pub mod Once
pub mod Deadlines
pub mod Trust
use ctfdpp.Base.{
  ℕ, Bool, true, false, ◌&&◌, ◌||◌, Option, none, some, String, List, [], ◌∷◌, ◌++◌, ltb, leb, ◌==◌,
  if◌then◌else◌, not, byte_length, all_chars, is_ascii_alphanumeric, str_eq,
}
use ctfdpp.Gateway.Address.{IpAddr}

pub data Action : Type 0 where
  -- To the browser: an error frame (its code), the three control frames, and terminal output.
  error_frame : String → Action
  host_key_frame : String → Action
  ready_frame : ℕ → Action
  exit_frame : ℕ → Action
  output_frame : ℕ → Action
  -- To the API.
  report_closed : ℕ → String → ℕ → ℕ → Option ℕ → Action
  report_host_key : ℕ → ℕ → String → Action
  report_identity_invalid : ℕ → Action
  report_connected : ℕ → Action
  heartbeat : ℕ → ℕ → ℕ → Action
  -- To the files and processes of the gateway.
  probe_host_key : IpAddr × ℕ → Action
  mark_for_rotation : ℕ → Action
  run_preflight : IpAddr × ℕ → Action
  spawn_terminal : IpAddr × ℕ → Action
  input_bytes : ℕ → Action
  resize : ℕ → ℕ → Action
  terminate : Action
  disarm : Action

pub data Outcome : Type 0 where
  returned failed running : Outcome

pub record Trace : Type 0 where
  pub actions : List Action
  pub outcome : Outcome

infixr 20 ◌then◌
abbrev pub ◌then◌ : List Action → Trace → Trace
before then trace = record trace { actions = before ++ trace.actions }

abbrev pub stop_with : Outcome → List Action → Trace
stop_with outcome actions = record { actions = actions; outcome = outcome }

abbrev max_ticket_bytes : ℕ
max_ticket_bytes = 128

abbrev is_ticket_char : ℕ → Bool
is_ticket_char c = is_ascii_alphanumeric c || c == b'-' || c == b'_'

unfoldable pub valid_ticket : String → Bool
valid_ticket value =
    leb 43 (byte_length value)
    && leb (byte_length value) max_ticket_bytes
    && all_chars is_ticket_char value

abbrev pub valid_dimensions : ℕ → ℕ → Bool
valid_dimensions cols rows = leb 20 cols && leb cols 500 && leb 5 rows && leb rows 200

pub record AuthFrame : Type 0 where
  pub kind : String
  pub ticket : String
  pub cols : ℕ
  pub rows : ℕ
  pub term : String

-- The first message; a text is given as what `serde_json` reads from it.
pub data FirstMessage : Type 0 where
  silent ended broken other_kind : FirstMessage
  text : Option AuthFrame → FirstMessage

pub data Authentication : Type 0 where
  accepted : AuthFrame → Authentication
  rejected : String → Authentication

abbrev auth_checked : AuthFrame → Authentication
auth_checked auth =
    if not (str_eq auth.kind "auth")
      || not (valid_ticket auth.ticket)
      || not (valid_dimensions auth.cols auth.rows)
      || not (str_eq auth.term "xterm" || str_eq auth.term "xterm-256color")
    then rejected "authentication_invalid"
    else accepted auth

unfoldable pub receive_auth : FirstMessage → Authentication
receive_auth silent = rejected "authentication_timeout"
receive_auth ended = rejected "authentication_missing"
receive_auth broken = rejected "authentication_invalid"
receive_auth other_kind = rejected "authentication_invalid"
receive_auth (text none) = rejected "authentication_invalid"
receive_auth (text (some auth)) = auth_checked auth

abbrev pub close_if_session : Option ℕ → String → List Action
close_if_session none reason = []
close_if_session (some session_id) reason = report_closed session_id reason 0 0 none ∷ []
