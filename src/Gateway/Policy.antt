-- ===== src/Gateway/Policy.antt =====
-- services/ssh-gateway/src/config.rs: the settings that bound the sessions, and their checks.
use ctfdpp.Base.{ℕ, Bool, ◌&&◌, Option, none, some, List, any, ltb, leb, if◌then◌else◌}

pub record PortRange : Type 0 where
  pub start : ℕ
  pub end : ℕ

abbrev pub contains_port : ℕ → PortRange → Bool
contains_port port range = leb range.start port && leb port range.end

-- The settings that the sessions read; `Net` is `ipnet::IpNet`. Durations are in milliseconds.
pub record Config (Net : Type 0) : Type 0 where
  pub allowed_cidrs : List Net
  pub local_denied_cidrs : List Net
  pub allowed_ports : List PortRange
  pub connect_timeout : ℕ
  pub idle_timeout : ℕ
  pub maximum_session : ℕ
  pub heartbeat_interval : ℕ

abbrev pub port_allowed : {Net : Type 0} → Config Net → ℕ → Bool
port_allowed config port = any (contains_port port) config.allowed_ports

pub data TimingError : Type 0 where
  idle_exceeds_session heartbeat_exceeds_session heartbeat_too_long : TimingError

abbrev pub maximum_heartbeat_interval : ℕ
maximum_heartbeat_interval = 30000

-- `validate_session_timing`, with the error that it returns
unfoldable pub validate_session_timing : ℕ → ℕ → ℕ → Option TimingError
validate_session_timing idle_timeout maximum_session heartbeat_interval =
    if ltb maximum_session idle_timeout
    then some idle_exceeds_session
    else if leb maximum_session heartbeat_interval
    then some heartbeat_exceeds_session
    else if ltb maximum_heartbeat_interval heartbeat_interval
    then some heartbeat_too_long
    else none
