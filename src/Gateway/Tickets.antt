-- ===== src/Gateway/Tickets.antt =====
-- services/ssh-gateway/src/rate_limit.rs: the token bucket of each client network, which bounds how
-- often a ticket may be presented. Instants and durations are in nanoseconds and tokens are counted
-- in units of 10⁻⁹ of one token, so that a refill of r tokens in a second is r units in a nanosecond;
-- the rounding of `f64` is not modelled. `checked_duration_since(..).unwrap_or_default()` is the
-- subtraction that stops at 0. The state is `none` once the lock is poisoned.
pub mod Quota
pub mod Bounds
pub mod Spending
use ctfdpp.Base.{
  ℕ, ◌+◌, ◌-◌, ◌*◌, ◌/◌, ◌%◌, min, Bool, true, false, Option, none, some, List, [], ◌∷◌, ltb, leb,
  ◌==◌, if◌then◌else◌, select, length,
}
use ctfdpp.Base.Keyed.{get, put}
use ctfdpp.Gateway.Address.{IpAddr, v4, v6, to_ipv4_mapped, address_eq}

pub record Bucket : Type 0 where
  pub client : IpAddr
  pub tokens : ℕ
  pub updated_at : ℕ
  pub last_seen_at : ℕ

abbrev pub bucket_client : Bucket → IpAddr
bucket_client b = b.client

pub record LimiterState : Type 0 where
  pub clients : List Bucket
  pub next_cleanup : ℕ

-- The fields of `ClientTicketLimiter` beside its state. `burst` is a number of tokens.
pub record Limits : Type 0 where
  pub burst : ℕ
  pub refill_per_second : ℕ
  pub maximum_clients : ℕ
  pub client_expiry : ℕ
  pub cleanup_interval : ℕ

-- One token, which is also one second.
abbrev pub unit : ℕ
unit = 1000000000

abbrev pub default_limits : Limits
default_limits = record {
  burst = 20;
  refill_per_second = 2;
  maximum_clients = 2048;
  client_expiry = 600 * unit;
  cleanup_interval = 30 * unit;
}

abbrev pub full : Limits → ℕ
full limits = limits.burst * unit

abbrev pub with_policy : Limits → ℕ → LimiterState
with_policy limits now = record { clients = []; next_cleanup = now + limits.cleanup_interval }

abbrev pub is_recent : Limits → ℕ → Bucket → Bool
is_recent limits now bucket = ltb (now - bucket.last_seen_at) limits.client_expiry

unfoldable pub remove_expired : Limits → ℕ → LimiterState → LimiterState
remove_expired limits now state = record state {
  clients = select (is_recent limits now) state.clients;
}

abbrev pub swept : Limits → ℕ → LimiterState → LimiterState
swept limits now state =
    if leb state.next_cleanup now
    then record (remove_expired limits now state) { next_cleanup = now + limits.cleanup_interval }
    else state

abbrev pub refilled : Limits → ℕ → Bucket → Bucket
refilled limits now bucket = record bucket {
  tokens = min (bucket.tokens + (now - bucket.updated_at) * limits.refill_per_second) (full limits);
  updated_at = now;
  last_seen_at = now;
}

abbrev pub stored : Bucket → LimiterState → LimiterState
stored bucket state = record state { clients = put bucket_client bucket state.clients }

abbrev pub spend : LimiterState → Bucket → LimiterState × Bool
spend state bucket =
    if ltb bucket.tokens unit
    then (stored bucket state, false)
    else (stored (record bucket { tokens = bucket.tokens - unit }) state, true)

abbrev pub fresh : Limits → IpAddr → ℕ → Bucket
fresh limits client_ip now = record {
  client = client_ip;
  tokens = full limits - unit;
  updated_at = now;
  last_seen_at = now;
}

abbrev pub enter : Limits → IpAddr → ℕ → LimiterState → LimiterState × Bool
enter limits client_ip now state =
    if leb limits.maximum_clients (length state.clients)
    then (state, false)
    else (stored (fresh limits client_ip now) state, true)

abbrev pub admit : Limits → IpAddr → ℕ → LimiterState → LimiterState × Bool
admit limits client_ip now state =
    if leb limits.maximum_clients (length state.clients)
    then enter limits client_ip now (remove_expired limits now state)
    else enter limits client_ip now state

abbrev pub charge : Limits → IpAddr → ℕ → LimiterState → Option Bucket → LimiterState × Bool
charge limits client_ip now state (some bucket) = spend state (refilled limits now bucket)
charge limits client_ip now state none = admit limits client_ip now state

unfoldable pub allow_live : Limits → IpAddr → ℕ → LimiterState → LimiterState × Bool
allow_live limits client_ip now state =
    let kept = swept limits now state in
    charge limits client_ip now kept (get bucket_client client_ip kept.clients)

abbrev relocked : LimiterState × Bool → Option LimiterState × Bool
relocked answer = (some answer.0, answer.1)

unfoldable pub allow_at : Limits → IpAddr → ℕ → Option LimiterState → Option LimiterState × Bool
allow_at limits client_ip now none = (none, false)
allow_at limits client_ip now (some state) = relocked (allow_live limits client_ip now state)

abbrev network_of : ℕ → Option ℕ → IpAddr
network_of a (some mapped) = v4 mapped
network_of a none = v6 (a / 0x10000000000000000 * 0x10000000000000000)

unfoldable pub normalize_client_ip : IpAddr → IpAddr
normalize_client_ip (v4 a) = v4 a
normalize_client_ip (v6 a) = network_of a (to_ipv4_mapped a)

unfoldable pub allow : Limits → IpAddr → ℕ → Option LimiterState → Option LimiterState × Bool
allow limits client_ip now state = allow_at limits (normalize_client_ip client_ip) now state
