-- ===== src/Examples/RateLimit.antt =====
-- The theorem on the rate limiter at a concrete input.
use ctfdpp.Base.{◌≤◌, refl, arith, inr, [], ◌∷◌}
use ctfdpp.Base.Keyed.{get}
use ctfdpp.RateLimit.{Request}
use ctfdpp.RateLimit.Quota.{passed, passed-le-limit}

abbrev login : Request
login = record { now = 100; operation = "login"; subject = "one"; limit = 1; interval = 60 }

passed-le-limit_example : passed "login:one" (login ∷ record login { now = 130 } ∷ []) [] ≤ 1
unfolding get
passed-le-limit_example =
    passed-le-limit "login:one" 1 60 100 (login ∷ record login { now = 130 } ∷ []) []
      (
        (omega arith, omega arith, inr (refl, refl, refl)),
        ((omega arith, omega arith, inr (refl, refl, refl)), tt),
      )
      refl
