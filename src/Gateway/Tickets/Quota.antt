-- ===== src/Gateway/Tickets/Quota.antt =====
-- services/ssh-gateway/src/rate_limit.rs: how many tickets one client network may present.
use native.Mathlib.Nat.{mul-le-mul_right, add-mul}
use ctfdpp.Base.{
  ℕ, ◌+◌, ◌-◌, ◌*◌, ◌≤◌, ◌≡◌, ◌∙◌, sym, ap, subst, inl, inr, refl, Bool, true, false, Option, none,
  some, List, [], ◌∷◌, ltb, leb, if◌then◌else◌, length, arith, Bool-cases, ◌&&◌,
}
use ctfdpp.Base.Keyed.{get, put, get-put}
use ctfdpp.Base.Keyed.Selecting.{get_key}
use ctfdpp.Gateway.Address.{IpAddr, address_eq, address_beq, beq_iff}
use ctfdpp.Gateway.Tickets.{
  Bucket, bucket_client, LimiterState, Limits, unit, full, remove_expired, swept, refilled, stored,
  fresh, enter, charge, allow_live, allow_at, allow, normalize_client_ip,
}
use ctfdpp.Gateway.Tickets.Spending.{
  Spent, unseen, seen, State, Charged, later, kept-State, charge-State,
}
use ctfdpp.Gateway.Tickets.Bounds.{Bounded, allow_live-Bounded, swept-Bounded}

-- How many of the requests of a client network are let through.
unfoldable pub passed : Limits → IpAddr → List (IpAddr × ℕ) → Option LimiterState → ℕ
passed limits k [] lock = 0
passed limits k ((ip, now) ∷ requests) lock =
    (if address_beq (normalize_client_ip ip) k && (allow limits ip now lock).1 then 1 else 0)
    + passed limits k requests (allow limits ip now lock).0

-- Requests in the order of their instants, from one instant to another.
unfoldable pub Timed : ℕ → ℕ → List (IpAddr × ℕ) → Type 0
Timed from until [] = from ≤ until
Timed from until ((ip, now) ∷ requests) = (from ≤ now) × Timed now until requests

until_later :
    (from until : ℕ) (requests : List (IpAddr × ℕ)) → Timed from until requests → from ≤ until
unfolding Timed
until_later from until [] h = h
until_later from until ((ip, now) ∷ requests) h =
    let rest = until_later now until requests h.1 in omega (arith, h.0)

module _ (limits : Limits) (k : IpAddr) (start : ℕ) where
  module _ (j : IpAddr) (other : address_beq j k ≡ false) where
    stored-other :
        (n now : ℕ) (b : Bucket) (state : LimiterState)
        → b.client ≡ j
        → State limits k start n now state
        → State limits k start n now (stored b state)
    stored-other n now b state same h =
        let untouched : get bucket_client k (put bucket_client b state.clients)
            ≡ get bucket_client k state.clients =
          get-put bucket_client k b state.clients ∙ rw (same, other) refl in
        subst (Spent limits k start n now) (sym untouched) h

    enter-other :
        (n now : ℕ) (state : LimiterState)
        → State limits k start n now state
        → State limits k start n now (enter limits j now state).0
    enter-other n now state h =
        elim (Bool-cases (leb limits.maximum_clients (length state.clients))) [
          | inl crowded ↦ rw crowded h
          | inr room ↦ rw room (stored-other n now (fresh limits j now) state refl h)
        ]

    charge-other :
        (n now : ℕ) (state : LimiterState) (found : Option Bucket)
        → full limits ≤ limits.client_expiry * limits.refill_per_second
        → Bounded limits state
        → get bucket_client j state.clients ≡ found
        → State limits k start n now state
        → State limits k start n now (charge limits j now state found).0
    charge-other n now state none covers bounded e h =
        either (leb limits.maximum_clients (length state.clients))
      where
        either :
            (crowded : Bool)
            → State limits k start n now
                (if crowded
                  then enter limits j now (remove_expired limits now state)
                  else enter limits j now state).0
        either true =
            enter-other n now (remove_expired limits now state)
              (kept-State limits k start n now state covers bounded h)
        either false = enter-other n now state h
    charge-other n now state (some b) covers bounded e h =
        let own = get_key bucket_client j state.clients b e in
        elim (Bool-cases (ltb (refilled limits now b).tokens unit)) [
          | inl short ↦ rw short (stored-other n now (refilled limits now b) state own h)
          | inr enough ↦ rw enough (stored-other n now _ state own h)
        ]

  -- One request, for this client or another.
  allow_live-State :
      (n t now : ℕ) (j : IpAddr) (state : LimiterState)
      → 1 ≤ limits.burst
      → full limits ≤ limits.client_expiry * limits.refill_per_second
      → t ≤ now
      → Bounded limits state
      → State limits k start n t state
      → State limits k start
          (n + (if address_beq j k && (allow_live limits j now state).1 then 1 else 0))
          now
          (allow_live limits j now state).0
  unfolding allow_live
  allow_live-State n t now j state some_burst covers le bounded h =
      after (swept limits now state) (clean (leb state.next_cleanup now))
        (tidy (leb state.next_cleanup now))
    where
      clean :
          (due : Bool)
          → State limits k start n now (
              if due
              then record (remove_expired limits now state) {
                next_cleanup = now + limits.cleanup_interval;
              }
              else state)
      clean true =
          kept-State limits k start n now state covers bounded (later limits k start n t now _ le h)
      clean false = later limits k start n t now _ le h

      tidy :
          (due : Bool)
          → Bounded limits (
              if due
              then record (remove_expired limits now state) {
                next_cleanup = now + limits.cleanup_interval;
              }
              else state)
      tidy true = swept-Bounded limits now _ state bounded
      tidy false = bounded

      after :
          (s : LimiterState)
          → State limits k start n now s
          → Bounded limits s
          → State limits k start
              (n
                + (if address_beq j k && (charge limits j now s (get bucket_client j s.clients)).1
                    then 1
                    else 0))
              now
              (charge limits j now s (get bucket_client j s.clients)).0
      after s g b = elim (Bool-cases (address_beq j k)) [
        | inl hit ↦
            let same = (beq_iff j k).0 hit in
            rw hit (
              subst
                (λ i.
                  Charged limits k start n now
                    (charge limits i now s (get bucket_client i s.clients)))
                (sym same)
                (charge-State limits k start n now s (get bucket_client k s.clients) some_burst refl
                  g))
        | inr miss ↦ rw miss (
            subst
              (λ m.
                State limits k start m now
                  (charge limits j now s (get bucket_client j s.clients)).0)
              (omega arith)
              (charge-other j miss n now s (get bucket_client j s.clients) covers b refl g))
      ]

  passed-State :
      (n t until : ℕ) (requests : List (IpAddr × ℕ)) (state : LimiterState)
      → 1 ≤ limits.burst
      → full limits ≤ limits.client_expiry * limits.refill_per_second
      → Timed t until requests
      → Bounded limits state
      → State limits k start n t state
      → (n + passed limits k requests (some state)) * unit + start * limits.refill_per_second
        ≤ full limits + until * limits.refill_per_second
  unfolding passed Timed allow allow_at
  passed-State n t until [] state some_burst covers timed bounded h =
      within (get bucket_client k state.clients) h
    where
      within :
          (o : Option Bucket)
          → Spent limits k start n t o
          → (n + 0) * unit + start * limits.refill_per_second
            ≤ full limits + until * limits.refill_per_second
      within none (unseen s) =
          let m = mul-le-mul_right limits.refill_per_second timed in omega (arith, s)
      within (some b) (seen s) =
          let p = s.past in
          let u : b.updated_at ≤ until = omega arith in
          let m = mul-le-mul_right limits.refill_per_second u in let q = s.paid in omega arith
  passed-State n t until ((ip, now) ∷ requests) state some_burst covers timed bounded h =
      let j = normalize_client_ip ip in
      let one = if address_beq j k && (allow_live limits j now state).1 then 1 else 0 in
      let rest =
        passed-State (n + one) now until requests (allow_live limits j now state).0 some_burst
          covers timed.1 (allow_live-Bounded limits j now state bounded)
          (allow_live-State n t now j state some_burst covers timed.0 bounded h) in
      omega (arith, rest)

  -- From a table without a bucket for a client network, in any sequence of requests in the order of
  -- their instants, by this network and by others, with cleanups and evictions in between, the tickets
  -- of the network that are let through are at most the burst and what is refilled in the time that the
  -- sequence takes, when buckets are kept long enough for an empty one to fill.
  pub passed-le-refill :
      (until : ℕ) (requests : List (IpAddr × ℕ)) (state : LimiterState)
      → 1 ≤ limits.burst
      → full limits ≤ limits.client_expiry * limits.refill_per_second
      → Timed start until requests
      → Bounded limits state
      → get bucket_client k state.clients ≡ none
      → passed limits k requests (some state) * unit
        ≤ full limits + (until - start) * limits.refill_per_second
  passed-le-refill until requests state some_burst covers timed bounded absent =
      let total =
        passed-State 0 start until requests state some_burst covers timed bounded
          (subst (Spent limits k start 0 start) (sym absent) (unseen (omega arith))) in
      let le = until_later start until requests timed in
      let d : start + (until - start) ≡ until = omega arith in
      let m = ap (λ x. x * limits.refill_per_second) d in
      let a = add-mul start (until - start) limits.refill_per_second in omega (arith, total)
