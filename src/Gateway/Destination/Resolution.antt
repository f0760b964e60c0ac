-- ===== src/Gateway/Destination/Resolution.antt =====
-- services/ssh-gateway/src/destination.rs: what `resolve` guarantees of the address it returns.
use ctfdpp.Base.{
  ℕ, ◌++◌, ◌≡◌, inl, inr, refl, sym, ap, subst, ◌∙◌, Bool, true, false, not, some, String, List, [],
  ◌∷◌, All, All-map, any-All, any, arith, Bool-cases, Elem,
}
use ctfdpp.Gateway.Address.{IpAddr, v4, v6, address_ltb, address_beq, beq_iff}
use ctfdpp.Gateway.Policy.{Config, port_allowed}
use ctfdpp.Gateway.Destination.{
  safe_hostname, intrinsically_unsafe, insert_address, collect_addresses, Resolved, ok, err,
  answered, admits, canonical, address_allowed_with_local, select_resolved_address, resolve,
}

ltb_irrefl : (a : IpAddr) → address_ltb a a ≡ false
ltb_irrefl (v4 a) = ground arith
ltb_irrefl (v6 a) = ground arith

-- An address that is not below another is not below what lies under that one.
above_lower :
    (a b c : IpAddr) → address_ltb a b ≡ true → address_ltb c b ≡ false → address_ltb c a ≡ false
above_lower (v4 a) (v4 b) (v4 c) h g = ground arith
above_lower (v4 a) (v4 b) (v6 c) h g = refl
above_lower (v4 a) (v6 b) (v4 c) h g = cc
above_lower (v4 a) (v6 b) (v6 c) h g = refl
above_lower (v6 a) (v4 b) c h g = cc
above_lower (v6 a) (v6 b) (v4 c) h g = cc
above_lower (v6 a) (v6 b) (v6 c) h g = ground arith

asymmetric : (a b : IpAddr) → address_ltb a b ≡ true → address_ltb b a ≡ false
asymmetric a b h = above_lower a b b h (ltb_irrefl b)

module _ (P : IpAddr → Type 0) where
  insert-All-back : (a : IpAddr) (bs : List IpAddr) → All P (insert_address a bs) → P a × All P bs
  unfolding insert_address
  insert-All-back a [] h = h
  insert-All-back a (b ∷ bs) h = elim (Bool-cases (address_ltb a b)) [
    | inl lower ↦ let k = rw lower at h in (k.0, k.1)
    | inr other ↦ elim (Bool-cases (address_beq a b)) [
      | inl same ↦ let k = rw (other, same) at h in (subst P (sym ((beq_iff a b).0 same)) k.0, k)
      | inr apart ↦
          let k = rw (other, apart) at h in let r = insert-All-back a bs k.1 in (r.0, (k.0, r.1))
    ]
  ]

  collect-All-back : (answers : List IpAddr) → All P (collect_addresses answers) → All P answers
  unfolding collect_addresses
  collect-All-back [] h = tt
  collect-All-back (a ∷ answers) h =
      let r = insert-All-back a (collect_addresses answers) h in (r.0, collect-All-back answers r.1)

abbrev pub AtLeast : IpAddr → IpAddr → Type 0
AtLeast a b = address_ltb b a ≡ false

-- The first of a set stands among its elements, and none is below it.
abbrev First : List IpAddr → List IpAddr → Type 0
First [] answers = answers ≡ []
First (a ∷ rest) answers = All (AtLeast a) answers × Elem a answers

insert-First :
    (x : IpAddr) (set answers : List IpAddr)
    → First set answers
    → First (insert_address x set) (x ∷ answers)
unfolding insert_address
insert-First x [] answers h = ((ltb_irrefl x, subst (All (AtLeast x)) (sym h) tt), inl refl)
insert-First x (b ∷ bs) answers h = elim (Bool-cases (address_ltb x b)) [
  | inl lower ↦ rw lower (
    (ltb_irrefl x, All-map (AtLeast b) (AtLeast x) (λ c g. above_lower x b c lower g) answers h.0),
    inl refl,
  )
  | inr other ↦
      let keep : First (b ∷ bs) (x ∷ answers) = ((other, h.0), inr h.1) in
      elim (Bool-cases (address_beq x b)) [
        | inl same ↦ rw (other, same) keep
        | inr apart ↦ rw (other, apart) keep
      ]
]

collect-First : (answers : List IpAddr) → First (collect_addresses answers) answers
unfolding collect_addresses
collect-First [] = refl
collect-First (a ∷ answers) =
    insert-First a (collect_addresses answers) answers (collect-First answers)

of_not : (b : Bool) → not b ≡ false → b ≡ true
of_not true h = refl
of_not false h = cc

abbrev value_or {ℓ} : {A : Type ℓ} → A → Resolved A → A
value_or d (ok a) = a
value_or d (err e) = d

module _ {Net : Type 0} (contains : Net → IpAddr → Bool) (prefix_len : Net → ℕ) where
  -- What the rules ask of one answer of the name service.
  pub record Permitted (config : Config Net) (local : List Net) (a : IpAddr) : Type 0 where
    pub ordinary : intrinsically_unsafe (canonical a) ≡ false
    pub not_local : any (λ n. contains n (canonical a)) (config.local_denied_cidrs ++ local) ≡ false
    pub named : any (admits contains prefix_len (canonical a)) config.allowed_cidrs ≡ true

  -- What holds of the address that the gateway connects to.
  pub record Granted (config : Config Net) (local : List Net) (answers : List IpAddr)
      (hostname : String) (port : ℕ) (target : IpAddr × ℕ) : Type 0 where
    pub port_kept : target.1 ≡ port
    pub port_open : port_allowed config port ≡ true
    pub host_safe : safe_hostname hostname ≡ true
    pub all_permitted : All (Permitted config local) answers
    pub answer : Elem target.0 answers
    pub least : All (AtLeast target.0) answers

  allowed-Permitted :
      (config : Config Net) (local : List Net) (a : IpAddr)
      → address_allowed_with_local contains prefix_len config a local ≡ true
      → Permitted config local a
  unfolding address_allowed_with_local
  allowed-Permitted config local a h = elim (Bool-cases (intrinsically_unsafe (canonical a))) [
    | inl bad ↦ let k = rw bad at h in cc
    | inr fair ↦
        elim (Bool-cases
          (any (λ n. contains n (canonical a)) (config.local_denied_cidrs ++ local))) [
            | inl near ↦ let k = rw (fair, near) at h in cc
            | inr far ↦ record { ordinary = fair; not_local = far; named = rw (fair, far) at h }
          ]
  ]

  selected_parts :
      (config : Config Net) (local : List Net) (b : IpAddr) (bs : List IpAddr) (a : IpAddr)
      → select_resolved_address contains prefix_len config (b ∷ bs) local ≡ ok a
      → (b ≡ a) × All (Permitted config local) (b ∷ bs)
  unfolding select_resolved_address
  selected_parts config local b bs a h =
      elim (Bool-cases
        (any (λ c. not (address_allowed_with_local contains prefix_len config c local)) (b ∷ bs))) [
          | inl bad ↦ let k = rw bad at h in cc
          | inr clear ↦ (
            ap (value_or a) (rw clear at h),
            All-map _ _ (λ c g. allowed-Permitted config local c (of_not _ g)) (b ∷ bs)
                (any-All _ (b ∷ bs) clear),
          )
        ]

  -- When `resolve` returns an address and a port, the port is the requested one and is open, the host
  -- name is safe, every address that the name service answered is permitted (also the ones that are
  -- not used), and the address is the least of them.
  pub resolve-Granted :
      (config : Config Net) (local : List Net) (answers : List IpAddr) (hostname : String)
      (port : ℕ) (target : IpAddr × ℕ)
      → resolve contains prefix_len config (answered answers) (some local) hostname port ≡ ok target
      → Granted config local answers hostname port target
  unfolding resolve
  resolve-Granted config local answers hostname port target h =
      elim (Bool-cases (port_allowed config port)) [
        | inr closed ↦ let k = rw closed at h in cc
        | inl opened ↦ elim (Bool-cases (safe_hostname hostname)) [
          | inr bad ↦ let k = rw (opened, bad) at h in cc
          | inl safe ↦ go opened safe (collect_addresses answers) refl (collect-First answers)
        ]
      ]
    where
      go :
          port_allowed config port ≡ true
          → safe_hostname hostname ≡ true
          → (set : List IpAddr) → collect_addresses answers ≡ set
          → First set answers
          → Granted config local answers hostname port target
      go opened safe [] e f = let k = rw (opened, safe, e) at h in cc
      go opened safe (b ∷ bs) e f =
          found (select_resolved_address contains prefix_len config (b ∷ bs) local) refl
        where
          found :
              (r : Resolved IpAddr)
              → select_resolved_address contains prefix_len config (b ∷ bs) local ≡ r
              → Granted config local answers hostname port target
          found (err x) g = let k = rw (opened, safe, e, g) at h in cc
          found (ok a) g =
              let parts = selected_parts config local b bs a g in
              let t : (a, port) ≡ target = ap (value_or (a, port)) (rw (opened, safe, e, g) at h) in
              let same : b ≡ target.0 = parts.0 ∙ ap (λ z. z.0) t in
              record {
                port_kept = sym (ap (λ z. z.1) t);
                port_open = opened;
                host_safe = safe;
                all_permitted =
                    collect-All-back _ answers
                      (subst (All (Permitted config local)) (sym e) parts.1);
                answer = subst (λ z. Elem z answers) same f.1;
                least = subst (λ z. All (AtLeast z) answers) same f.0;
              }
