-- ===== src/Flags/Allocation/Free.antt =====
-- services/api/src/routes/flag_policy.rs: that a free leet mask is found while there is one.
use mathlib.Core.Option.{some-injective}
use ctfdpp.Base.{
  ℕ, suc, zero, ◌+◌, ◌≤◌, ◌<◌, ◌≡◌, ◌≢◌, subst, refl, inl, inr, min, Bool, true, false, not, Option,
  none, some, List, [], ◌∷◌, ◌++◌, All, leb, any, find, select, count_where, is_equal_to, arith,
  Bool-cases, find_sound, All-append, All-map,
}
use ctfdpp.Flags.Allocation.{
  StoredFlag, Assignment, of_flag, has_mask, is_free, generate_series, leet_capacity, available,
  next_available_leet_mask,
}

-- Every mask from 1 to `n` stands in a row of the flag.
abbrev Taken : ℕ → ℕ → List Assignment → Type 0
Taken flag_id zero rows = Unit
Taken flag_id (suc n) rows = (any (has_mask flag_id (suc n)) rows ≡ true) × Taken flag_id n rows

-- Without the rows of one mask, there are fewer rows of the flag, and all other masks are there still.
abbrev without : ℕ → List Assignment → List Assignment
without mask rows = select (λ a. not (is_equal_to mask a.leet_mask)) rows

no_more :
    (flag_id mask : ℕ) (rows : List Assignment)
    → count_where (of_flag flag_id) (without mask rows) ≤ count_where (of_flag flag_id) rows
no_more flag_id mask [] = omega arith
no_more flag_id mask (a ∷ rows) =
    let rest = no_more flag_id mask rows in
    elim (Bool-cases (is_equal_to mask a.leet_mask)) [
      | inl gone ↦ rw gone (omega arith)
      | inr kept ↦ rw kept (omega arith)
    ]

fewer :
    (flag_id mask : ℕ) (rows : List Assignment)
    → any (has_mask flag_id mask) rows ≡ true
    → count_where (of_flag flag_id) (without mask rows) + 1 ≤ count_where (of_flag flag_id) rows
fewer flag_id mask [] h = cc
fewer flag_id mask (a ∷ rows) h = elim (Bool-cases (is_equal_to mask a.leet_mask)) [
  | inr kept ↦
      let later : any (has_mask flag_id mask) rows ≡ true = ground arith in
      let rest = fewer flag_id mask rows later in rw kept (omega arith)
  | inl gone ↦ elim (Bool-cases (of_flag flag_id a)) [
    | inl own ↦ let rest = no_more flag_id mask rows in rw (gone, own) (omega arith)
    | inr other ↦
        let later : any (has_mask flag_id mask) rows ≡ true = ground arith in
        let rest = fewer flag_id mask rows later in rw (gone, other) (omega arith)
  ]
]

others_stay :
    (flag_id mask other : ℕ) (rows : List Assignment)
    → other ≢ mask
    → any (has_mask flag_id other) rows ≡ true
    → any (has_mask flag_id other) (without mask rows) ≡ true
others_stay flag_id mask other [] apart h = cc
others_stay flag_id mask other (a ∷ rows) apart h = elim (Bool-cases (has_mask flag_id other a)) [
  | inl here ↦
      let kept : is_equal_to mask a.leet_mask ≡ false =
        differs mask other a.leet_mask apart (ground arith) in
      rw kept (ground arith)
  | inr there ↦
      let later : any (has_mask flag_id other) rows ≡ true = ground arith in
      let rest = others_stay flag_id mask other rows apart later in
      elim (Bool-cases (is_equal_to mask a.leet_mask)) [
        | inl gone ↦ rw gone rest
        | inr kept ↦ rw kept (ground arith)
      ]
]
  where
    differs :
        (mask other : ℕ) (o : Option ℕ)
        → other ≢ mask
        → is_equal_to other o ≡ true
        → is_equal_to mask o ≡ false
    differs mask other none apart h = refl
    differs mask other (some m) apart h = ground arith

Taken-below :
    (flag_id mask n : ℕ) (rows : List Assignment)
    → n < mask
    → Taken flag_id n rows
    → Taken flag_id n (without mask rows)
Taken-below flag_id mask zero rows below h = tt
Taken-below flag_id mask (suc n) rows below h = (
  others_stay flag_id mask (suc n) rows (λ e. absurd (omega arith)) h.0,
  Taken-below flag_id mask n rows (omega arith) h.1,
)

-- As many masks as are taken, so many rows there are.
Taken-le :
    (flag_id n : ℕ) (rows : List Assignment)
    → Taken flag_id n rows
    → n ≤ count_where (of_flag flag_id) rows
Taken-le flag_id zero rows h = omega arith
Taken-le flag_id (suc n) rows h =
    let less = fewer flag_id (suc n) rows h.0 in
    let rest =
      Taken-le flag_id n (without (suc n) rows)
        (Taken-below flag_id (suc n) n rows (omega arith) h.1) in
    omega arith

find-append :
    (p : ℕ → Bool) (xs ys : List ℕ)
    → find p (xs ++ ys) ≡ none
    → (find p xs ≡ none) × (find p ys ≡ none)
find-append p [] ys h = (refl, h)
find-append p (x ∷ xs) ys h = elim (Bool-cases (p x)) [
  | inl hit ↦ let k = rw hit at h in cc
  | inr miss ↦ let r = find-append p xs ys (rw miss at h) in (rw miss r.0, r.1)
]

none_free :
    (flag_id n : ℕ) (rows : List Assignment)
    → find (is_free flag_id rows) (generate_series n) ≡ none
    → Taken flag_id n rows
unfolding generate_series
none_free flag_id zero rows h = tt
none_free flag_id (suc n) rows h =
    let parts = find-append (is_free flag_id rows) (generate_series n) (suc n ∷ []) h in
    (
      elim (Bool-cases (any (has_mask flag_id (suc n)) rows)) [
        | inl taken ↦ taken
        | inr open_mask ↦ let k = rw open_mask at parts.1 in cc
      ],
      none_free flag_id n rows parts.0,
    )

abbrev pub Within : ℕ → ℕ → Type 0
Within n m = (1 ≤ m) × (m ≤ n)

series-Within : (n : ℕ) → All (Within n) (generate_series n)
unfolding generate_series
series-Within zero = tt
series-Within (suc n) =
    All-append (Within (suc n)) (generate_series n) (suc n ∷ [])
      (All-map (Within n) (Within (suc n)) (λ m w. (w.0, omega (arith, w.1))) (generate_series n)
        (series-Within n))
      ((omega arith, omega arith), tt)

find-All :
    (P : ℕ → Type 0) (p : ℕ → Bool) (xs : List ℕ) (m : ℕ) → All P xs → find p xs ≡ some m → P m
find-All P p [] m h g = cc
find-All P p (x ∷ xs) m h g = elim (Bool-cases (p x)) [
  | inl hit ↦ subst P (some-injective x m (rw hit at g)) h.0
  | inr miss ↦ find-All P p xs m h.1 (rw miss at g)
]

-- While the flag has fewer assignments than its template has masks, the query for the next mask has a
-- row, and its mask is one of the template's and of no assignment of the flag.
pub next_available_leet_mask-free :
    (flag : StoredFlag) (rows : List Assignment)
    → count_where (of_flag flag.id) rows < leet_capacity flag.content
    → (m : ℕ) × (next_available_leet_mask flag rows ≡ available m)
      × Within (leet_capacity flag.content) m
      × (any (has_mask flag.id m) rows ≡ false)
unfolding next_available_leet_mask
next_available_leet_mask-free flag rows room =
    go (find (is_free flag.id rows) (generate_series last)) refl
  where
    last : ℕ
    last = min (leet_capacity flag.content) (count_where (of_flag flag.id) rows + 1)

    open_space : leb (leet_capacity flag.content) (count_where (of_flag flag.id) rows) ≡ false
    open_space = ground arith

    go :
        (o : Option ℕ)
        → find (is_free flag.id rows) (generate_series last) ≡ o
        → (m : ℕ) × (next_available_leet_mask flag rows ≡ available m)
          × Within (leet_capacity flag.content) m
          × (any (has_mask flag.id m) rows ≡ false)
    go none e =
        let enough = Taken-le flag.id last rows (none_free flag.id last rows e) in
        absurd (omega arith)
    go (some m) e =
        let w = find-All (Within last) _ (generate_series last) m (series-Within last) e in
        let free = find_sound (is_free flag.id rows) (generate_series last) e in
        (m, rw (open_space, e) refl, (w.0, omega (arith, w.1)), ground arith)
