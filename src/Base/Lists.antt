-- ===== src/Base/Lists.antt =====
-- Lists measured by native numbers, and the tests over lists that the program's iterators make.
use Prim.Native.Nat.{ℕ, suc, ◌+◌, ◌≤◌}
use mathlib.Core.Path.{◌≡◌, refl, subst}
use mathlib.Core.Logic.{◌⊎◌, inl, inr}
use mathlib.Core.Bool.{Bool, true, false, ◌&&◌, ◌||◌}
use mathlib.Core.Option.{Option, none, some, some-injective}
use mathlib.Core.List.{List, [], ◌∷◌, ◌++◌}
use native.Mathlib.Omega.{arith}
use ctfdpp.Base.Tests.{if◌then◌else◌}

module _ {ℓ} {A : Type ℓ} where
  abbrev pub length : List A → ℕ
  length [] = 0
  length (x ∷ xs) = suc (length xs)

  -- `Iterator::any` and `Iterator::all`
  abbrev pub any : (A → Bool) → List A → Bool
  any p [] = false
  any p (x ∷ xs) = p x || any p xs

  abbrev pub all : (A → Bool) → List A → Bool
  all p [] = true
  all p (x ∷ xs) = p x && all p xs

  -- `Iterator::filter`, `HashMap::retain`, and the WHERE clause of a query
  abbrev pub select : (A → Bool) → List A → List A
  select p [] = []
  select p (x ∷ xs) = let rest = select p xs in if p x then x ∷ rest else rest

  abbrev pub find : (A → Bool) → List A → Option A
  find p [] = none
  find p (x ∷ xs) = if p x then some x else find p xs

  -- The UPDATE of the rows that a WHERE clause picks.
  abbrev pub update_where : (A → Bool) → (A → A) → List A → List A
  update_where p f [] = []
  update_where p f (x ∷ xs) = (if p x then f x else x) ∷ update_where p f xs

  abbrev pub count_where : (A → Bool) → List A → ℕ
  count_where p [] = 0
  count_where p (x ∷ xs) = (if p x then 1 else 0) + count_where p xs

  abbrev pub All {κ} : (A → Type κ) → List A → Type κ
  All P [] = Unit
  All P (x ∷ xs) = P x × All P xs

  pub length-append : (xs ys : List A) → length (xs ++ ys) ≡ length xs + length ys
  length-append [] ys = omega arith
  length-append (x ∷ xs) ys = omega (arith, length-append xs ys)

  pub length-select-le : (p : A → Bool) (xs : List A) → length (select p xs) ≤ length xs
  length-select-le p [] = omega arith
  length-select-le p (x ∷ xs) = ground (arith, length-select-le p xs)

  pub All-append {κ} : (P : A → Type κ) (xs ys : List A) → All P xs → All P ys → All P (xs ++ ys)
  All-append P [] ys hx hy = hy
  All-append P (x ∷ xs) ys hx hy = (hx.0, All-append P xs ys hx.1 hy)

  pub All-update_where {κ} :
      (P : A → Type κ) (p : A → Bool) (f : A → A)
      → ((x : A) → p x ≡ true → P x → P (f x))
      → (xs : List A) → All P xs
      → All P (update_where p f xs)
  All-update_where P p f keep [] h = h
  All-update_where P p f keep (x ∷ xs) h = (head (p x) refl, All-update_where P p f keep xs h.1)
    where
      head : (b : Bool) → p x ≡ b → P (if b then f x else x)
      head true e = keep x e h.0
      head false e = h.0

  pub update_where-none :
      (p : A → Bool) (f : A → A) (xs : List A) → any p xs ≡ false → update_where p f xs ≡ xs
  update_where-none p f [] h = refl
  update_where-none p f (x ∷ xs) h = ground (arith, update_where-none p f xs)

  pub count_where-none : (p : A → Bool) (xs : List A) → any p xs ≡ false → count_where p xs ≡ 0
  count_where-none p [] h = refl
  count_where-none p (x ∷ xs) h = ground (arith, count_where-none p xs)

  pub length-update_where :
      (p : A → Bool) (f : A → A) (xs : List A) → length (update_where p f xs) ≡ length xs
  length-update_where p f [] = refl
  length-update_where p f (x ∷ xs) = omega (arith, length-update_where p f xs)

  pub find_sound : (p : A → Bool) (xs : List A) {x : A} → find p xs ≡ some x → p x ≡ true
  find_sound p [] h = cc
  find_sound p (y ∷ ys) {x} h = head (p y) refl (λ g. find_sound p ys g)
    where
      head : (b : Bool) → p y ≡ b → (find p ys ≡ some x → p x ≡ true) → p x ≡ true
      head true e rest = subst (λ z. p z ≡ true) (some-injective y x (rw e at h)) e
      head false e rest = rest (rw e at h)

  pub any-All : (p : A → Bool) (xs : List A) → any p xs ≡ false → All (λ x. p x ≡ false) xs
  any-All p [] h = tt
  any-All p (x ∷ xs) h =
      let head : p x ≡ false = ground arith in (head, any-All p xs (ground arith))

  pub All-map {κ μ} :
      (P : A → Type κ) (Q : A → Type μ)
      → ((x : A) → P x → Q x)
      → (xs : List A) → All P xs
      → All Q xs
  All-map P Q f [] h = tt
  All-map P Q f (x ∷ xs) h = (f x h.0, All-map P Q f xs h.1)

  pub All-intro {κ} : (P : A → Type κ) → ((x : A) → P x) → (xs : List A) → All P xs
  All-intro P f [] = tt
  All-intro P f (x ∷ xs) = (f x, All-intro P f xs)

  -- What a test picks has what the test says and what all had.
  pub All-select {κ} :
      (P : A → Type κ) (p : A → Bool) (xs : List A)
      → All P xs
      → All (λ x. P x × (p x ≡ true)) (select p xs)
  All-select P p [] h = tt
  All-select P p (x ∷ xs) h = keep (p x) refl (All-select P p xs h.1)
    where
      keep :
          (b : Bool)
          → p x ≡ b
          → All (λ x. P x × (p x ≡ true)) (select p xs)
          → All (λ x. P x × (p x ≡ true)) (if b then x ∷ select p xs else select p xs)
      keep true e rest = ((h.0, e), rest)
      keep false e rest = rest

module _ {A : Type 0} where
  abbrev pub Elem : A → List A → Type 0
  Elem x [] = ⊥
  Elem x (y ∷ ys) = (y ≡ x) ⊎ Elem x ys

  pub Elem-select :
      (x : A) (p : A → Bool) (xs : List A) → Elem x (select p xs) → Elem x xs × (p x ≡ true)
  Elem-select x p [] h = absurd h
  Elem-select x p (y ∷ ys) h = head (p y) refl (λ m. Elem-select x p ys m) h
    where
      head :
          (b : Bool)
          → p y ≡ b
          → (Elem x (select p ys) → Elem x ys × (p x ≡ true))
          → Elem x (if b then y ∷ select p ys else select p ys)
          → Elem x (y ∷ ys) × (p x ≡ true)
      head true e rest (inl same) = (inl same, subst (λ z. p z ≡ true) same e)
      head true e rest (inr m) = (inr (rest m).0, (rest m).1)
      head false e rest m = (inr (rest m).0, (rest m).1)
