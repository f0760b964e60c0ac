-- ===== src/Examples/Gateway.antt =====
-- The theorems on the SSH gateway at concrete inputs.
use ctfdpp.Base.{
  ℕ, ◌+◌, ◌-◌, ◌*◌, ◌/◌, ◌^◌, ◌≤◌, ◌≡◌, ◌≢◌, refl, Bool, true, false, Option, none, some, String,
  List, [], ◌∷◌, ◌++◌, ◌==◌, arith, All, byte_length, all_chars, starts_with,
}
use ctfdpp.Base.Keyed.{get}
use ctfdpp.Gateway.Address.{IpAddr, v4, v6}
use ctfdpp.Gateway.Policy.{Config}
use ctfdpp.Gateway.Destination.{
  sensitive_minimum_prefix, resolve, admits, answered, collect_addresses, insert_address,
  select_resolved_address, address_allowed_with_local, intrinsically_unsafe, safe_hostname,
}
use ctfdpp.Gateway.Destination.Scope.{admits-same_scope}
use ctfdpp.Gateway.Destination.Resolution.{Granted, resolve-Granted}
use ctfdpp.Gateway.Tickets.{LimiterState, default_limits, with_policy, unit, allow}
use ctfdpp.Gateway.Tickets.Bounds.{Bounded, BoundedLock, guarded, allow-BoundedLock}
use ctfdpp.Gateway.Tickets.Quota.{passed, Timed, passed-le-refill}
use ctfdpp.Gateway.Ssh.{
  TicketGrant, terminal, ed25519_header, trusted_host_key, canonical_host_key, fields_from,
  safe_user, safe_alias,
}
use ctfdpp.Gateway.Terminal.{text, running, returned}
use ctfdpp.Gateway.Terminal.Bridge.{
  Poll, bytes, binary, sent, exited, alive, bridge_terminal, bridge_loop, turn, finish,
}
use ctfdpp.Gateway.Terminal.Closing.{Settled}
use ctfdpp.Gateway.Terminal.Once.{admitted-Settled}
use ctfdpp.Gateway.Terminal.Deadlines.{bridge_terminal-deadline}
use ctfdpp.Gateway.Terminal.Session.{
  World, granted, admitted, run_grant, preflighted, start_terminal,
}
use ctfdpp.Gateway.Terminal.Trust.{Warranted, admitted-Warranted}

-- IPv4 networks: a base address and the length of the prefix.
abbrev Network : Type 0
Network = ℕ × ℕ

abbrev in_network : Network → IpAddr → Bool
in_network n (v4 a) = a / 2 ^ (32 - n.1) == n.0 / 2 ^ (32 - n.1)
in_network n (v6 a) = false

abbrev prefix : Network → ℕ
prefix n = n.1

same_prefix :
    (n : Network) (a b : ℕ)
    → in_network n (v4 a) ≡ true
    → in_network n (v4 b) ≡ true
    → a / 2 ^ (32 - prefix n) ≡ b / 2 ^ (32 - prefix n)
same_prefix n a b h g = ground arith

no_v6 : (n : Network) (a b : ℕ) → in_network n (v4 a) ≡ true → in_network n (v6 b) ≡ false
no_v6 n a b h = refl

same_prefix_v6 :
    (n : Network) (a b : ℕ)
    → in_network n (v6 a) ≡ true
    → in_network n (v6 b) ≡ true
    → a / 2 ^ (128 - prefix n) ≡ b / 2 ^ (128 - prefix n)
same_prefix_v6 n a b h g = cc

-- 10.2.3.4 and 10.2.9.9 in 10.2.0.0/16
admits-same_scope_example : sensitive_minimum_prefix (v4 0x0a020909) ≡ some 8
unfolding sensitive_minimum_prefix admits
admits-same_scope_example =
    admits-same_scope in_network prefix same_prefix same_prefix_v6 no_v6 (v4 0x0a020304)
      (v4 0x0a020909) (0x0a020000, 16) 8 refl refl refl

abbrev config : Config Network
config = record {
  allowed_cidrs = (0, 0) ∷ (0x0a020000, 16) ∷ [];
  local_denied_cidrs = (0xac140000, 24) ∷ [];
  allowed_ports = record { start = 22; end = 22 } ∷ [];
  connect_timeout = 10000;
  idle_timeout = 600000;
  maximum_session = 1800000;
  heartbeat_interval = 15000;
}

resolve-Granted_example :
    Granted in_network prefix config []
      (v4 0x08080808 ∷ v4 0x0a020304 ∷ [])
      "host-1.example"
      22
      (v4 0x08080808, 22)
unfolding resolve collect_addresses insert_address select_resolved_address
    address_allowed_with_local intrinsically_unsafe sensitive_minimum_prefix admits safe_hostname
    byte_length all_chars
resolve-Granted_example =
    resolve-Granted in_network prefix config [] (v4 0x08080808 ∷ v4 0x0a020304 ∷ [])
      "host-1.example" 22 (v4 0x08080808, 22) refl

abbrev empty_table : LimiterState
empty_table = with_policy default_limits 0

empty_table-Bounded : Bounded default_limits empty_table
empty_table-Bounded = record { few = omega arith; single = tt; filled = tt }

allow-BoundedLock_example :
    BoundedLock default_limits (allow default_limits (v6 5) 7 (some empty_table)).0
allow-BoundedLock_example =
    allow-BoundedLock default_limits (v6 5) 7 (some empty_table) (guarded empty_table-Bounded)

abbrev attempts : List (IpAddr × ℕ)
attempts = (v4 1, 5) ∷ (v4 2, 6) ∷ (v4 1, 9) ∷ []

attempts-Timed : Timed 5 9 attempts
unfolding Timed
attempts-Timed = (omega arith, (omega arith, (omega arith, omega arith)))

passed-le-refill_example :
    passed default_limits (v4 1) attempts (some empty_table) * unit ≤ 20 * unit + (9 - 5) * 2
unfolding get
passed-le-refill_example =
    passed-le-refill default_limits (v4 1) 5 9 attempts empty_table (omega arith) (omega arith)
      attempts-Timed empty_table-Bounded refl

abbrev decode : String → Option (List ℕ)
decode encoded = some (
    ed25519_header
    ++ 0 ∷ 0 ∷ 0 ∷ 0 ∷ 0 ∷ 0 ∷ 0 ∷ 0 ∷ 0 ∷ 0 ∷ 0 ∷ 0 ∷ 0 ∷ 0 ∷ 0 ∷ 0 ∷ 0 ∷ 0 ∷ 0 ∷ 0 ∷ 0 ∷ 0 ∷ 0 ∷ 0
      ∷ 0 ∷ 0 ∷ 0 ∷ 0 ∷ 0 ∷ 0 ∷ 0 ∷ 0 ∷ [])

abbrev digest : List ℕ → String
digest decoded = "digest"

abbrev grant : TicketGrant
grant = record {
  ticket_id = 1;
  session_id = some 40;
  purpose = terminal;
  host_id = 3;
  hostname = "host-1.example";
  ssh_port = 22;
  ssh_user = "player";
  identity_public_key = "ssh-ed25519 AAAA";
  identity_fingerprint = "SHA256:identity";
  trusted_host_public_key = some "ssh-ed25519 AAAA";
  trusted_host_key_fingerprint = some "SHA256:digest";
  host_key_alias = "ctfzone-host:22";
  idle_timeout_seconds = 600;
  absolute_timeout_seconds = 1800;
}

abbrev quiet_turn : ℕ → Poll
quiet_turn now = record {
  now = now;
  shutdown = false;
  heartbeat_due = none;
  child = none;
  message = none;
  output = none;
  body_at = now;
}

-- A byte each way, a heartbeat, and the exit of the shell.
abbrev turns : List Poll
turns =
    record (quiet_turn 1001) { message = some (binary 1 sent) }
    ∷ record (quiet_turn 1002) { output = some (bytes 1 true) }
    ∷ record (quiet_turn 16000) { heartbeat_due = some alive }
    ∷ record (quiet_turn 16200) { child = some (exited 0) }
    ∷ []

abbrev world : World Network
world = record {
  config = config;
  first_message = text none;
  consumed = granted grant;
  shutting_down = false;
  capacity_left = true;
  lookup = answered (v4 0x08080808 ∷ []);
  interfaces = some [];
  observed_key = some (record { public_key = "ssh-ed25519 AAAA"; fingerprint = "SHA256:digest" });
  host_key_recorded = true;
  host_key_sent = true;
  binding_valid = true;
  preflight_files_written = true;
  preflight_ok = true;
  files_written = true;
  spawned = true;
  connection_recorded = true;
  ready_sent = true;
  opened_at = 1000;
  parts_taken = true;
  polls = turns;
}

admitted-Settled_example : Settled 40 40 0 (admitted in_network prefix decode digest world grant)
admitted-Settled_example =
    admitted-Settled in_network prefix decode digest world grant 40 40 refl refl

admitted-Warranted_example :
    All
      (Warranted in_network prefix decode digest world grant)
      (admitted in_network prefix decode digest world grant).actions
admitted-Warranted_example = admitted-Warranted in_network prefix decode digest world grant

-- An hour after the start, output is ready and more turns would follow.
bridge_terminal-deadline_example :
    (bridge_terminal config grant 40 1000 true
        (turns ++ record (quiet_turn 3601000) { output = some (bytes 9 true) } ∷ turns)
      ≡ bridge_terminal config grant 40 1000 true
          (turns ++ record (quiet_turn 3601000) { output = some (bytes 9 true) } ∷ []))
    × ((bridge_terminal config grant 40 1000 true
          (turns ++ record (quiet_turn 3601000) { output = some (bytes 9 true) } ∷ turns)).outcome
        ≢ running)
bridge_terminal-deadline_example =
    bridge_terminal-deadline config grant 40 1000 true turns turns
      (record (quiet_turn 3601000) { output = some (bytes 9 true) }) (omega arith)

-- The session runs through to the exit of the shell.
session_runs : (admitted in_network prefix decode digest world grant).outcome ≡ returned
unfolding admitted run_grant resolve collect_addresses insert_address select_resolved_address
    address_allowed_with_local intrinsically_unsafe sensitive_minimum_prefix admits safe_hostname
    byte_length all_chars preflighted start_terminal bridge_terminal bridge_loop turn finish
    trusted_host_key canonical_host_key fields_from starts_with safe_user safe_alias
session_runs = refl
