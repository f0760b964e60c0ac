-- ===== src/RateLimit/Quota.antt =====
-- How many requests the windows let through.
use ctfdpp.Base.{
  ℕ, ◌+◌, ◌-◌, ◌≤◌, ◌<◌, ◌≡◌, ◌≢◌, ◌⊎◌, inl, inr, refl, sym, ap, subst, ◌∙◌, true, false, ◌&&◌,
  Option, none, some, String, List, [], ◌∷◌, All, leb, if◌then◌else◌, select, str_eq, eq_iff, arith,
  Bool-cases,
}
use ctfdpp.Base.Keyed.{get, put, get-put}
use ctfdpp.Base.Keyed.Selecting.{get-select-none, get-select-some, get_key}
use ctfdpp.RateLimit.{
  text_eq, Window, window_key, Request, request_key, is_live, entered, refreshed, charged, allow,
}

entered_key :
    (r : Request) (ws : List Window)
    → (entered r (get window_key (request_key r) ws)).key ≡ request_key r
entered_key r ws = go (get window_key (request_key r) ws) refl
  where
    go :
        (o : Option Window)
        → get window_key (request_key r) ws ≡ o
        → (entered r o).key ≡ request_key r
    go none e = refl
    go (some w) e = get_key window_key (request_key r) ws w e

refreshed_key : (r : Request) (w : Window) → (refreshed r w).key ≡ w.key
refreshed_key r w = ground arith

-- How many of the requests for the key are let through.
unfoldable pub passed : String → List Request → List Window → ℕ
passed k [] windows = 0
passed k (r ∷ rs) windows =
    (if str_eq (request_key r) k && (allow r windows).1 then 1 else 0)
    + passed k rs (allow r windows).0

module _ (k : String) (limit interval start : ℕ) where
  -- A request within the time span: one for another key, or one with this limit and interval.
  abbrev pub Fits : Request → Type 0
  Fits r =
      (start ≤ r.now)
      × (r.now < start + interval)
      × ((request_key r ≢ k) ⊎ ((request_key r ≡ k) × (r.limit ≡ limit) × (r.interval ≡ interval)))

  abbrev Counts : ℕ → Window → Type 0
  Counts n w =
      (w.key ≡ k) × (w.interval ≡ interval) × (start ≤ w.started) × (w.count ≡ n) × (n ≤ limit)

  -- What the table holds for the key after `n` requests were let through.
  abbrev Holding : ℕ → Option Window → Type 0
  Holding n none = n ≡ 0
  Holding n (some w) = Counts n w

  abbrev State : ℕ → List Window → Type 0
  State n windows = Holding n (get window_key k windows)

  put-State : (ws : List Window) (w : Window) (n : ℕ) → Counts n w → State n (put window_key w ws)
  put-State ws w n c =
      let stored : get window_key k (put window_key w ws) ≡ some w =
        get-put window_key k w ws ∙ rw ((eq_iff w.key k).1 c.0) in
      subst (Holding n) (sym stored) c

  charged-State :
      (r : Request) (ws : List Window) (w : Window) (n : ℕ)
      → r.limit ≡ limit
      → Counts n w
      → State (n + (if (charged r ws w).1 then 1 else 0)) (charged r ws w).0
  charged-State r ws w n same (kw, iw, sw, cw, nw) = elim (Bool-cases (leb r.limit w.count)) [
    | inl full ↦ rw full (put-State ws w (n + 0) (kw, iw, sw, cw ∙ omega arith, omega arith))
    | inr room ↦
        let more : n + 1 ≤ limit = ground arith in
        rw room (
          put-State ws (record w { count = w.count + 1 }) (n + 1)
            (kw, iw, sw, ap (λ m. m + 1) cw, more))
  ]

  kept-State :
      (r : Request) (ws : List Window) (n : ℕ)
      → Fits r
      → State n ws
      → State n (select (is_live r.now) ws)
  kept-State r ws n fits h = go (get window_key k ws) refl h
    where
      go :
          (o : Option Window)
          → get window_key k ws ≡ o
          → Holding n o
          → State n (select (is_live r.now) ws)
      go none e h = subst (Holding n) (sym (get-select-none window_key k (is_live r.now) ws e)) h
      go (some w) e h =
          let live : is_live r.now w ≡ true = ground arith in
          subst (Holding n) (sym (get-select-some window_key k (is_live r.now) ws w e live)) h

  refreshed_live :
      (r : Request) (w : Window)
      → w.interval ≡ r.interval
      → r.now - w.started < w.interval
      → refreshed r w ≡ w
  refreshed_live r w same live = ground arith

  entered-Counts :
      (r : Request) (n : ℕ) (o : Option Window)
      → Fits r
      → request_key r ≡ k
      → r.interval ≡ interval
      → Holding n o
      → Counts n (refreshed r (entered r o))
  entered-Counts r n none fits same int h =
      subst (Counts n) (sym (refreshed_live r (entered r none) refl (ground arith)))
        (same, int, fits.0, sym h, omega arith)
  entered-Counts r n (some w) fits same int h =
      subst (Counts n) (sym (refreshed_live r w (h.1 ∙ sym int) (ground arith))) h

  charged-other :
      (r : Request) (ws : List Window) (w : Window)
      → str_eq w.key k ≡ false
      → get window_key k (charged r ws w).0 ≡ get window_key k ws
  charged-other r ws w miss =
      let v : Window = record w { count = w.count + 1 } in
      elim (Bool-cases (leb r.limit w.count)) [
        | inl full ↦ rw full (get-put window_key k w ws ∙ rw miss)
        | inr room ↦ rw room (get-put window_key k v ws ∙ rw miss)
      ]

  -- One request.
  allow-State :
      (r : Request) (ws : List Window) (n : ℕ)
      → Fits r
      → State n ws
      → State (n + (if str_eq (request_key r) k && (allow r ws).1 then 1 else 0)) (allow r ws).0
  unfolding allow
  allow-State r ws n (early, late, inr (same, lim, int)) h =
      let kept = select (is_live r.now) ws in
      let c =
        entered-Counts r n (get window_key (request_key r) kept) (early, late, inr (same, lim, int))
          same int
          (subst (λ j. Holding n (get window_key j kept)) (sym same)
            (kept-State r ws n (early, late, inr (same, lim, int)) h)) in
      rw ((eq_iff (request_key r) k).1 same) (charged-State r kept _ n lim c)
  allow-State r ws n (early, late, inl other) h =
      let kept = select (is_live r.now) ws in
      let w = refreshed r (entered r (get window_key (request_key r) kept)) in
      let own : w.key ≡ request_key r = refreshed_key r _ ∙ entered_key r kept in
      elim (Bool-cases (str_eq (request_key r) k)) [
        | inl hit ↦ absurd (other ((eq_iff (request_key r) k).0 hit))
        | inr miss ↦
            let untouched = charged-other r kept w (ap (λ j. str_eq j k) own ∙ miss) in
            let m : n ≡ n + 0 = omega arith in
            rw miss (
              subst (λ m. State m (charged r kept w).0) m
                (subst (Holding n) (sym untouched) (kept-State r ws n (early, late, inl other) h)))
      ]

  passed-State :
      (rs : List Request) (ws : List Window) (n : ℕ)
      → All Fits rs
      → State n ws
      → n + passed k rs ws ≤ limit
  unfolding passed
  passed-State [] ws n fits h = within (get window_key k ws) h
    where
      within : (o : Option Window) → Holding n o → n + 0 ≤ limit
      within none e = omega arith
      within (some w) c = omega (arith, c.4)
  passed-State (r ∷ rs) ws n fits h =
      let m = if str_eq (request_key r) k && (allow r ws).1 then 1 else 0 in
      let rest = passed-State rs (allow r ws).0 (n + m) fits.1 (allow-State r ws n fits.0 h) in
      omega (arith, rest)

  -- From a table without a window for the key, no more requests for the key than the limit are let
  -- through within one interval, whatever requests for other keys come in between and whatever
  -- their limits and intervals are.
  pub passed-le-limit :
      (rs : List Request) (ws : List Window)
      → All Fits rs
      → get window_key k ws ≡ none
      → passed k rs ws ≤ limit
  passed-le-limit rs ws fits h =
      omega (arith, passed-State rs ws 0 fits (subst (Holding 0) (sym h) refl))
