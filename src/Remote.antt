-- ===== src/Remote.antt =====
-- services/controller/src/remote.rs: what the controller sends to a runtime host and what the
-- host's helper answers, with the checks before a request leaves. Identifiers (UUIDs) and instants
-- are numbers. `i32` columns that the database holds at 0 or above are natural numbers.
use ctfdpp.Base.{
  ℕ, ◌+◌, ◌-◌, ◌^◌, min, String, Bool, true, false, not, ◌&&◌, ◌||◌, Option, none, some, ltb, leb,
  ◌==◌, is_empty, byte_length, all_chars, starts_with_char, is_ascii_alphanumeric,
}
use ctfdpp.Base.Json.{Value, null, string, get_member, and_then, as_u64}

pub record RemoteServer : Type 0 where
  pub id : ℕ
  pub name : String
  pub hostname : String
  pub ssh_port : ℕ
  pub ssh_user : String
  pub helper_path : String
  pub identity_file : Option String
  pub host_key_alias : Option String
  pub pool : Option String
  pub capacity : ℕ

pub data RemoteOperation : Type 0 where
  ensure_instance inspect_instance stop_instance update_deadline : RemoteOperation

unfoldable pub helper_name : RemoteOperation → String
helper_name ensure_instance = "ensure-instance"
helper_name inspect_instance = "inspect-instance"
helper_name stop_instance = "stop-instance"
helper_name update_deadline = "update-deadline"

pub record RemoteResult : Type 0 where
  pub container_id : Option String
  pub remote_ip : Option String
  pub container_port : Option ℕ
  pub published_ip : Option String
  pub published_port : Option ℕ
  pub protocol : Option String
  pub public_hostname : Option String
  pub endpoint_url : Option String
  pub effective_expires_at : Option ℕ
  pub absent : Option Bool
  pub ready : Option Bool
  pub runtime_status : Option String
  pub health_status : Option String
  pub stale_generation : Option Bool
  pub effective_generation : Option ℕ

abbrev pub default_result : RemoteResult
default_result = record {
  container_id = none;
  remote_ip = none;
  container_port = none;
  published_ip = none;
  published_port = none;
  protocol = none;
  public_hostname = none;
  endpoint_url = none;
  effective_expires_at = none;
  absent = none;
  ready = none;
  runtime_status = none;
  health_status = none;
  stale_generation = none;
  effective_generation = none;
}

-- `option == Some(true)`
abbrev pub is_some_true : Option Bool → Bool
is_some_true none = false
is_some_true (some b) = b

abbrev pub max_flag_value_bytes : ℕ
max_flag_value_bytes = 512

abbrev pub flag_value_of : Value → Option Value
flag_value_of payload = and_then (get_member "deployment" payload) (get_member "flag_value")

abbrev valid_flag_text : String → Bool
valid_flag_text s =
    not (is_empty s) && leb (byte_length s) max_flag_value_bytes && all_chars (λ c. not (c == 0)) s

-- What an operation may carry as `deployment.flag_value`; `true` is `Ok(())`.
unfoldable pub flag_allowed : RemoteOperation → Option Value → Bool
flag_allowed operation none = true
flag_allowed ensure_instance (some null) = true
flag_allowed ensure_instance (some (string s)) = valid_flag_text s
flag_allowed ensure_instance (some v) = false
flag_allowed operation (some v) = false

unfoldable pub validate_flag_value : RemoteOperation → Value → Bool
unfolding flag_allowed
validate_flag_value operation payload = flag_allowed operation (flag_value_of payload)

abbrev startup_timeout_of : Value → Option ℕ
startup_timeout_of payload = and_then (get_member "deployment" payload) λ d.
    and_then (get_member "healthcheck" d)
      λ h. and_then (get_member "startup_timeout_seconds" h) as_u64

abbrev pub or_else {ℓ} : {A : Type ℓ} → Option A → A → A
or_else none d = d
or_else (some a) d = a

-- `u64::saturating_add`
abbrev saturating_add : ℕ → ℕ → ℕ
saturating_add a b = min (a + b) (2 ^ 64 - 1)

-- `operation_timeout` in whole seconds, as the configuration gives it.
unfoldable pub validate_startup_timeout : RemoteOperation → Value → ℕ → Bool
validate_startup_timeout ensure_instance payload operation_timeout =
    leb (saturating_add (or_else (startup_timeout_of payload) 45) 5) operation_timeout
validate_startup_timeout operation payload operation_timeout = true

is_host_char : ℕ → Bool
is_host_char c = is_ascii_alphanumeric c || c == b'.' || c == b':' || c == b'_' || c == b'-'

unfoldable pub safe_host_component : String → Bool
unfolding is_host_char
safe_host_component s =
    not (is_empty s) && not (starts_with_char b'-' s) && all_chars is_host_char s

is_user_char : ℕ → Bool
is_user_char c = is_ascii_alphanumeric c || c == b'.' || c == b'_' || c == b'-'

unfoldable pub safe_user : String → Bool
unfolding is_user_char
safe_user s = not (is_empty s) && not (starts_with_char b'-' s) && all_chars is_user_char s

is_path_char : ℕ → Bool
is_path_char c = is_ascii_alphanumeric c || c == b'/' || c == b'.' || c == b'_' || c == b'-'

abbrev alias_ok : Option String → Bool
alias_ok none = true
alias_ok (some alias) = safe_host_component alias

unfoldable pub validate_remote_server : RemoteServer → Bool
unfolding is_path_char
validate_remote_server server =
    ltb 0 server.ssh_port
    && leb server.ssh_port 65535
    && safe_host_component server.hostname
    && safe_user server.ssh_user
    && starts_with_char b'/' server.helper_path
    && all_chars is_path_char server.helper_path
    && alias_ok server.host_key_alias
