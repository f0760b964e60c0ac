-- ===== src/Worker/Retry.antt =====
-- services/controller/src/worker.rs: when a command that failed is tried again.
use Prim.Native.Nat.{zero, suc}
use ctfdpp.Base.{
  ℕ, ◌+◌, ◌*◌, ◌^◌, ◌≤◌, ◌<◌, ◌≡◌, refl, ◌∙◌, min, max, true, false, none, some, String, arith, leb,
}
use ctfdpp.Base.Keyed.{get, nat_eq}
use ctfdpp.Base.Keyed.Rows.{get-update_where}
use ctfdpp.Runtime.{Db, Env, Command, pending}
use ctfdpp.Worker.Claims.{CommandRow, holds, retry_backoff_seconds}
use ctfdpp.Worker.Transitions.Inspect.{schedule_retry, truncate, postponed}

abbrev command_id : Command → ℕ
command_id c = c.id

capped : (n : ℕ) → 1 ≤ n → n ≤ 6 → (10 ≤ min (5 * 2 ^ n) 300) × (min (5 * 2 ^ n) 300 ≤ 300)
capped zero low high = omega arith
capped (suc zero) low high = omega arith
capped (suc (suc zero)) low high = omega arith
capped (suc (suc (suc zero))) low high = omega arith
capped (suc (suc (suc (suc zero)))) low high = omega arith
capped (suc (suc (suc (suc (suc zero))))) low high = omega arith
capped (suc (suc (suc (suc (suc (suc zero)))))) low high = omega arith
capped (suc (suc (suc (suc (suc (suc (suc n))))))) low high = omega arith

backoff_bounds :
    (attempts : ℕ) → (10 ≤ retry_backoff_seconds attempts) × (retry_backoff_seconds attempts ≤ 300)
unfolding retry_backoff_seconds
backoff_bounds attempts = capped (min (max attempts 1) 6) (omega arith) (omega arith)

-- A command that failed with attempts left and still has its claim is pending again, without a
-- claim, and available no sooner than 10 and no later than 300 seconds from now; its error is kept up
-- to 1000 characters.
pub schedule_retry-available :
    (env : Env) (command : CommandRow) (max_attempts : ℕ) (text : String) (db : Db) (c : Command)
    → command.attempts < max_attempts
    → get command_id command.id db.commands ≡ some c
    → holds command c ≡ true
    → (d : Command) × (get command_id command.id
          (schedule_retry env command max_attempts text db).commands
        ≡ some d)
      × (d.status ≡ pending)
      × (d.claim_token ≡ none)
      × (d.last_error ≡ some (truncate 1000 text))
      × (env.now + 10 ≤ d.available_at)
      × (d.available_at ≤ env.now + 300)
unfolding schedule_retry
schedule_retry-available env command max_attempts text db c left g held =
    let bounds = backoff_bounds command.attempts in
    let again : leb max_attempts command.attempts ≡ false = ground arith in
    (
      postponed env command (truncate 1000 text) c,
      rw again (
          get-update_where command_id (holds command) (postponed env command (truncate 1000 text))
            (λ c. refl) command.id db.commands
          ∙ rw (g, held)),
      refl,
      refl,
      refl,
      omega (arith, bounds.0),
      omega (arith, bounds.1),
    )
