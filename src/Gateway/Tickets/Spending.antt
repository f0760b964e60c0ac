-- ===== src/Gateway/Tickets/Spending.antt =====
-- services/ssh-gateway/src/rate_limit.rs: what a client network has spent and
-- has left.
use native.Mathlib.Nat.{mul-le-mul_right, add-mul}
use ctfdpp.Base.{
  ℕ, ◌+◌, ◌-◌, ◌*◌, ◌≤◌, ◌≡◌, ◌∙◌, sym, ap, subst, inl, inr, refl, Bool, true, false, Option, none,
  some, ltb, leb, if◌then◌else◌, length, arith, Bool-cases,
}
use ctfdpp.Base.Keyed.{get, put, get-put}
use ctfdpp.Base.Keyed.Selecting.{get-select-none, get-select-some, get-select-dropped, get_key}
use ctfdpp.Gateway.Address.{IpAddr, address_eq, beq_iff}
use ctfdpp.Gateway.Tickets.{
  Bucket, bucket_client, LimiterState, Limits, unit, full, is_recent, remove_expired, refilled,
  spend, stored, fresh, enter, admit, charge,
}
use ctfdpp.Gateway.Tickets.Bounds.{Bounded}

module _ (limits : Limits) (k : IpAddr) (start : ℕ) where
  -- What `n` admitted requests leave: the tokens spent and those left are within the burst and what
  -- was refilled since the start.
  pub record Left (n now : ℕ) (b : Bucket) : Type 0 where
    pub together : b.updated_at ≡ b.last_seen_at
    pub past : b.updated_at ≤ now
    pub paid :
        n * unit + b.tokens + start * limits.refill_per_second
        ≤ full limits + b.updated_at * limits.refill_per_second

  -- The same when the table has no bucket for the client.
  abbrev pub Absent : ℕ → ℕ → Type 0
  Absent n now = n * unit + start * limits.refill_per_second ≤ now * limits.refill_per_second

  pub data Spent (n now : ℕ) : Option Bucket → Type 0 where
    unseen : Absent n now → Spent n now none
    seen : {b : Bucket} → Left n now b → Spent n now (some b)

  pub later : (n t now : ℕ) (o : Option Bucket) → t ≤ now → Spent n t o → Spent n now o
  later n t now none le (unseen h) =
      let m = mul-le-mul_right limits.refill_per_second le in unseen (omega arith)
  later n t now (some b) le (seen h) =
      seen (record { together = h.together; past = (let p = h.past in omega arith); paid = h.paid })

  expired :
      (n now : ℕ) (b : Bucket)
      → full limits ≤ limits.client_expiry * limits.refill_per_second
      → is_recent limits now b ≡ false
      → Left n now b
      → Absent n now
  expired n now b covers old h =
      let p = h.past in
      let e = h.together in
      let q = h.paid in
      let gone : b.updated_at + limits.client_expiry ≤ now = ground arith in
      let m = mul-le-mul_right limits.refill_per_second gone in
      let s = add-mul b.updated_at limits.client_expiry limits.refill_per_second in omega arith

  refilled-Left : (n now : ℕ) (b : Bucket) → Left n now b → Left n now (refilled limits now b)
  refilled-Left n now b h =
      let p = h.past in
      let q = h.paid in
      let d : b.updated_at + (now - b.updated_at) ≡ now = omega arith in
      let s = add-mul b.updated_at (now - b.updated_at) limits.refill_per_second in
      let m = ap (λ x. x * limits.refill_per_second) d in
      record { together = refl; past = omega arith; paid = omega arith }

  spend-Left :
      (n now : ℕ) (b : Bucket)
      → ltb b.tokens unit ≡ false
      → Left n now b
      → Left (n + 1) now (record b { tokens = b.tokens - unit })
  spend-Left n now b enough h =
      let q = h.paid in record { together = h.together; past = h.past; paid = ground arith }

  fresh-Left : (n now : ℕ) → 1 ≤ limits.burst → Absent n now → Left (n + 1) now (fresh limits k now)
  fresh-Left n now some_burst h = record { together = refl; past = omega arith; paid = omega arith }

  abbrev pub State : ℕ → ℕ → LimiterState → Type 0
  State n now state = Spent n now (get bucket_client k state.clients)

  -- What an answer to this client leaves.
  abbrev pub Charged : ℕ → ℕ → LimiterState × Bool → Type 0
  Charged n now answer = State (n + (if answer.1 then 1 else 0)) now answer.0

  stored-State :
      (n now : ℕ) (b : Bucket) (state : LimiterState)
      → b.client ≡ k
      → Left n now b
      → State n now (stored b state)
  stored-State n now b state same h =
      let read : get bucket_client k (put bucket_client b state.clients) ≡ some b =
        get-put bucket_client k b state.clients ∙ rw ((beq_iff b.client k).1 same) in
      subst (Spent n now) (sym read) (seen h)

  pub kept-State :
      (n now : ℕ) (state : LimiterState)
      → full limits ≤ limits.client_expiry * limits.refill_per_second
      → Bounded limits state
      → State n now state
      → State n now (remove_expired limits now state)
  unfolding remove_expired
  kept-State n now state covers bounded h = go (get bucket_client k state.clients) refl h
    where
      go :
          (o : Option Bucket)
          → get bucket_client k state.clients ≡ o
          → Spent n now o
          → State n now (remove_expired limits now state)
      go none e s =
          subst (Spent n now)
            (sym (get-select-none bucket_client k (is_recent limits now) state.clients e)) s
      go (some b) e (seen s) = elim (Bool-cases (is_recent limits now b)) [
        | inl recent ↦
            subst (Spent n now)
              (sym
                (get-select-some bucket_client k (is_recent limits now) state.clients b e recent))
              (seen s)
        | inr old ↦
            subst (Spent n now)
              (sym (
                get-select-dropped bucket_client k (is_recent limits now) state.clients b
                  bounded.single e old))
              (unseen (expired n now b covers old s))
      ]

  spend-State :
      (n now : ℕ) (b : Bucket) (state : LimiterState)
      → b.client ≡ k
      → Left n now b
      → Charged n now (spend state b)
  spend-State n now b state same h = elim (Bool-cases (ltb b.tokens unit)) [
    | inl short ↦
        rw short (stored-State (n + 0) now b state same (subst (λ m. Left m now b) (omega arith) h))
    | inr enough ↦ rw enough (
        stored-State (n + 1) now (record b { tokens = b.tokens - unit }) state same
          (spend-Left n now b enough h))
  ]

  enter-State :
      (n now : ℕ) (state : LimiterState)
      → 1 ≤ limits.burst
      → get bucket_client k state.clients ≡ none
      → Absent n now
      → Charged n now (enter limits k now state)
  enter-State n now state some_burst e h =
      elim (Bool-cases (leb limits.maximum_clients (length state.clients))) [
        | inl crowded ↦ rw crowded (subst (Spent (n + 0) now) (sym e) (unseen (omega (arith, h))))
        | inr room ↦ rw room (
            stored-State (n + 1) now (fresh limits k now) state refl
              (fresh-Left n now some_burst h))
      ]

  admit-State :
      (n now : ℕ) (state : LimiterState)
      → 1 ≤ limits.burst
      → get bucket_client k state.clients ≡ none
      → Absent n now
      → Charged n now (admit limits k now state)
  unfolding remove_expired
  admit-State n now state some_burst e h =
      either (leb limits.maximum_clients (length state.clients))
    where
      gone : get bucket_client k (remove_expired limits now state).clients ≡ none
      gone = get-select-none bucket_client k (is_recent limits now) state.clients e

      either :
          (crowded : Bool)
          → Charged n now (
              if crowded
              then enter limits k now (remove_expired limits now state)
              else enter limits k now state)
      either true = enter-State n now (remove_expired limits now state) some_burst gone h
      either false = enter-State n now state some_burst e h

  pub charge-State :
      (n now : ℕ) (state : LimiterState) (found : Option Bucket)
      → 1 ≤ limits.burst
      → get bucket_client k state.clients ≡ found
      → Spent n now found
      → Charged n now (charge limits k now state found)
  charge-State n now state none some_burst e (unseen h) = admit-State n now state some_burst e h
  charge-State n now state (some b) some_burst e (seen h) =
      spend-State n now (refilled limits now b) state (get_key bucket_client k state.clients b e)
        (refilled-Left n now b h)
