-- ===== src/Base/Keyed/Selecting.antt =====
-- Reading a table by key after some of its rows were dropped, and what is read has the key.
use mathlib.Core.Path.{◌≡◌, refl, ◌∙◌, sym, ap, subst}
use mathlib.Core.Logic.{inl, inr}
use mathlib.Core.Bool.{Bool, true, false, not}
use mathlib.Core.Option.{none, some, some-injective}
use mathlib.Core.List.{List, [], ◌∷◌}
use Prim.Native.Nat.{◌≤◌, suc}
use native.Mathlib.Omega.{arith}
use ctfdpp.Base.Tests.{Bool-cases}
use ctfdpp.Base.Lists.{select, length, length-select-le}
use ctfdpp.Base.Keyed.{Eq, get, NodupKeys, put, remove}

module _ {ℓ κ} {A : Type ℓ} {K : Type κ} ⦃e : Eq K⦄ (key : A → K) where
  pub get-select-none :
      (k : K) (p : A → Bool) (xs : List A) → get key k xs ≡ none → get key k (select p xs) ≡ none
  unfolding get
  get-select-none k p [] h = refl
  get-select-none k p (x ∷ xs) h = let rest = get-select-none k p xs in ground arith

  pub get-select-some :
      (k : K) (p : A → Bool) (xs : List A) (y : A)
      → get key k xs ≡ some y
      → p y ≡ true
      → get key k (select p xs) ≡ some y
  unfolding get
  get-select-some k p [] y h py = cc
  get-select-some k p (x ∷ xs) y h py = elim (Bool-cases (e.beq (key x) k)) [
    | inl hit ↦
        let same : x ≡ y = some-injective x y (rw hit at h) in
        let px = subst (λ z. p z ≡ true) (sym same) py in rw (px, hit) (ap some same)
    | inr miss ↦
        let rest = get-select-some k p xs y (rw miss at h) py in
        elim (Bool-cases (p x)) [ inl px ↦ rw (px, miss) rest | inr px ↦ rw px rest ]
  ]

  pub get-select-dropped :
      (k : K) (p : A → Bool) (xs : List A) (y : A)
      → NodupKeys key xs
      → get key k xs ≡ some y
      → p y ≡ false
      → get key k (select p xs) ≡ none
  unfolding get
  get-select-dropped k p [] y u h py = cc
  get-select-dropped k p (x ∷ xs) y u h py = elim (Bool-cases (e.beq (key x) k)) [
    | inl hit ↦
        let same : x ≡ y = some-injective x y (rw hit at h) in
        let px = subst (λ z. p z ≡ false) (sym same) py in
        let gone = subst (λ j. get key j xs ≡ none) ((e.beq_iff (key x) k).0 hit) u.0 in
        rw px (get-select-none k p xs gone)
    | inr miss ↦
        let rest = get-select-dropped k p xs y u.1 (rw miss at h) py in
        elim (Bool-cases (p x)) [ inl px ↦ rw (px, miss) rest | inr px ↦ rw px rest ]
  ]

  pub get_key : (k : K) (xs : List A) (x : A) → get key k xs ≡ some x → key x ≡ k
  unfolding get
  get_key k [] x h = cc
  get_key k (y ∷ ys) x h = elim (Bool-cases (e.beq (key y) k)) [
    | inl hit ↦
        let same : y ≡ x = some-injective y x (rw hit at h) in
        ap key (sym same) ∙ (e.beq_iff (key y) k).0 hit
    | inr miss ↦ get_key k ys x (rw miss at h)
  ]

  pub select-NodupKeys :
      (p : A → Bool) (xs : List A) → NodupKeys key xs → NodupKeys key (select p xs)
  select-NodupKeys p [] h = tt
  select-NodupKeys p (x ∷ xs) h = elim (Bool-cases (p x)) [
    | inl keep ↦ rw keep (get-select-none (key x) p xs h.0, select-NodupKeys p xs h.1)
    | inr drop ↦ rw drop (select-NodupKeys p xs h.1)
  ]

  pub length-put-le : (x : A) (xs : List A) → length (put key x xs) ≤ suc (length xs)
  unfolding put remove
  length-put-le x xs = omega (arith, length-select-le (λ y. not (e.beq (key y) (key x))) xs)

  -- Replacing a row that is there.
  pub length-put-present :
      (x : A) (xs : List A) (y : A)
      → get key (key x) xs ≡ some y
      → length (put key x xs) ≤ length xs
  unfolding put remove get
  length-put-present x [] y h = cc
  length-put-present x (z ∷ zs) y h = elim (Bool-cases (e.beq (key z) (key x))) [
    | inl hit ↦
        rw hit (let r = length-select-le (λ y. not (e.beq (key y) (key x))) zs in omega arith)
    | inr miss ↦ rw miss (let r = length-put-present x zs y (rw miss at h) in omega arith)
  ]
