-- ===== src/Gateway/Tickets/Bounds.antt =====
-- services/ssh-gateway/src/rate_limit.rs: what the limiter's table holds.
use ctfdpp.Base.{
  ℕ, ◌-◌, ◌≤◌, ◌≡◌, ◌∙◌, ap, inl, inr, refl, Bool, true, false, Option, none, some, All, All-map,
  All-select, ltb, leb, if◌then◌else◌, length, length-select-le, arith, Bool-cases,
}
use ctfdpp.Base.Keyed.{get, put, put-NodupKeys, NodupKeys, All-put}
use ctfdpp.Base.Keyed.Selecting.{select-NodupKeys, length-put-le, length-put-present, get_key}
use ctfdpp.Gateway.Address.{IpAddr, address_eq}
use ctfdpp.Gateway.Tickets.{
  Bucket, bucket_client, LimiterState, Limits, unit, full, is_recent, remove_expired, refilled,
  spend, fresh, enter, admit, charge, normalize_client_ip, allow_live, allow_at, allow,
}

-- A well-formed table: within the number of clients, one bucket for each, none over the burst.
pub record Bounded (limits : Limits) (state : LimiterState) : Type 0 where
  pub few : length state.clients ≤ limits.maximum_clients
  pub single : NodupKeys bucket_client state.clients
  pub filled : All (λ b. b.tokens ≤ full limits) state.clients

pub remove_expired-Bounded :
    (limits : Limits) (now : ℕ) (state : LimiterState)
    → Bounded limits state
    → Bounded limits (remove_expired limits now state)
unfolding remove_expired
remove_expired-Bounded limits now state h = record {
  few = let r = length-select-le (is_recent limits now) state.clients in omega (arith, h.few);
  single = select-NodupKeys bucket_client (is_recent limits now) state.clients h.single;
  filled = All-map _ _ (λ b g. g.0) _ (All-select _ (is_recent limits now) state.clients h.filled);
}

put-Bounded :
    (limits : Limits) (b : Bucket) (state : LimiterState)
    → Bounded limits state
    → b.tokens ≤ full limits
    → length (put bucket_client b state.clients) ≤ limits.maximum_clients
    → Bounded limits (record state { clients = put bucket_client b state.clients })
put-Bounded limits b state h t n = record {
  few = n;
  single = put-NodupKeys bucket_client b state.clients h.single;
  filled = All-put bucket_client _ b state.clients t h.filled;
}

-- A bucket that is taken from the table and put back, with no more tokens than the burst.
put_back-Bounded :
    (limits : Limits) (k : IpAddr) (b c : Bucket) (state : LimiterState)
    → Bounded limits state
    → get bucket_client k state.clients ≡ some b
    → c.client ≡ b.client
    → c.tokens ≤ full limits
    → Bounded limits (record state { clients = put bucket_client c state.clients })
put_back-Bounded limits k b c state h g same t =
    let key = get_key bucket_client k state.clients b g in
    let there : get bucket_client c.client state.clients ≡ some b =
      ap (λ j. get bucket_client j state.clients) (same ∙ key) ∙ g in
    let n = length-put-present bucket_client c state.clients b there in
    put-Bounded limits c state h t (let m = h.few in omega arith)

pub swept-Bounded :
    (limits : Limits) (now next : ℕ) (state : LimiterState)
    → Bounded limits state
    → Bounded limits (record (remove_expired limits now state) { next_cleanup = next })
swept-Bounded limits now next state h =
    let r = remove_expired-Bounded limits now state h in
    record { few = r.few; single = r.single; filled = r.filled }

module _ (limits : Limits) (k : IpAddr) (now : ℕ) where
  spend-Bounded :
      (state : LimiterState) (b c : Bucket)
      → Bounded limits state
      → get bucket_client k state.clients ≡ some b
      → c.client ≡ b.client
      → c.tokens ≤ full limits
      → Bounded limits (spend state c).0
  spend-Bounded state b c h g same t = elim (Bool-cases (ltb c.tokens unit)) [
    | inl short ↦ rw short (put_back-Bounded limits k b c state h g same t)
    | inr enough ↦ rw enough (
        put_back-Bounded limits k b (record c { tokens = c.tokens - unit }) state h g same
          (omega (arith, t)))
  ]

  enter-Bounded :
      (state : LimiterState) → Bounded limits state → Bounded limits (enter limits k now state).0
  enter-Bounded state h = elim (Bool-cases (leb limits.maximum_clients (length state.clients))) [
    | inl crowded ↦ rw crowded h
    | inr room ↦
        let n = length-put-le bucket_client (fresh limits k now) state.clients in
        rw room (put-Bounded limits (fresh limits k now) state h (omega arith) (ground arith))
  ]

  admit-Bounded :
      (state : LimiterState) → Bounded limits state → Bounded limits (admit limits k now state).0
  admit-Bounded state h = either (leb limits.maximum_clients (length state.clients))
    where
      either :
          (crowded : Bool)
          → Bounded limits
              (if crowded
                then enter limits k now (remove_expired limits now state)
                else enter limits k now state).0
      either true =
          enter-Bounded (remove_expired limits now state)
            (remove_expired-Bounded limits now state h)
      either false = enter-Bounded state h

  charge-Bounded :
      (state : LimiterState) (found : Option Bucket)
      → get bucket_client k state.clients ≡ found
      → Bounded limits state
      → Bounded limits (charge limits k now state found).0
  charge-Bounded state none g h = admit-Bounded state h
  charge-Bounded state (some b) g h =
      spend-Bounded state b (refilled limits now b) h g refl (omega arith)

  pub allow_live-Bounded :
      (state : LimiterState)
      → Bounded limits state
      → Bounded limits (allow_live limits k now state).0
  unfolding allow_live
  allow_live-Bounded state h = elim (Bool-cases (leb state.next_cleanup now)) [
    | inl due ↦ rw due (charge-Bounded _ _ refl (swept-Bounded limits now _ state h))
    | inr early ↦ rw early (charge-Bounded _ _ refl h)
  ]

-- A table that the lock still guards is well-formed.
pub data BoundedLock (limits : Limits) : Option LimiterState → Type 0 where
  poisoned : BoundedLock limits none
  guarded : {state : LimiterState} → Bounded limits state → BoundedLock limits (some state)

-- Presenting a ticket keeps the table within the limits, whatever the client and the instant: never
-- more clients than the maximum, one bucket for each client, and no bucket over the burst.
pub allow-BoundedLock :
    (limits : Limits) (client_ip : IpAddr) (now : ℕ) (lock : Option LimiterState)
    → BoundedLock limits lock
    → BoundedLock limits (allow limits client_ip now lock).0
unfolding allow allow_at
allow-BoundedLock limits client_ip now none h = poisoned
allow-BoundedLock limits client_ip now (some state) (guarded h) =
    guarded (allow_live-Bounded limits (normalize_client_ip client_ip) now state h)
