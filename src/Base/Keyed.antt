-- ===== src/Base/Keyed.antt =====
-- A table of rows that carry their own key, as a hash map of records or a database table is used:
-- reading by key, replacing and removing.
pub mod Sorting
pub mod Rows
pub mod Selecting
use mathlib.Core.Path.{◌≡◌, refl, ◌∙◌, sym, ap, subst}
use mathlib.Core.Logic.{◌↔◌, inl, inr}
use mathlib.Core.Bool.{Bool, true, false, not, ◌&&◌}
use mathlib.Core.Option.{Option, none, some, some-injective}
use mathlib.Core.List.{List, [], ◌∷◌, ◌++◌}
use Prim.Native.Nat.{ℕ}
use native.Mathlib.Omega.{arith}
use ctfdpp.Base.Tests.{if◌then◌else◌, ◌==◌ as nat_beq, ==_iff, Bool-cases}
use ctfdpp.Base.Lists.{select, All, update_where}

pub record Eq {ℓ} (A : Type ℓ) : Type ℓ where
  pub beq : A → A → Bool
  pub beq_iff : (a b : A) → (beq a b ≡ true) ↔ (a ≡ b)

instance abbrev pub nat_eq : Eq ℕ
nat_eq = record { beq = nat_beq; beq_iff = ==_iff }

abbrev pub pair_beq : ℕ × ℕ → ℕ × ℕ → Bool
pair_beq a b = nat_beq a.0 b.0 && nat_beq a.1 b.1

pub pair_beq_iff : (a b : ℕ × ℕ) → (pair_beq a b ≡ true) ↔ (a ≡ b)
pair_beq_iff a b = ground (arith, ==_iff a.0 b.0, ==_iff a.1 b.1)

instance abbrev pub pair_eq : Eq (ℕ × ℕ)
pair_eq = record { beq = pair_beq; beq_iff = pair_beq_iff }

module _ {ℓ κ} {A : Type ℓ} {K : Type κ} ⦃e : Eq K⦄ (key : A → K) where
  unfoldable pub get : K → List A → Option A
  get k [] = none
  get k (x ∷ xs) = if e.beq (key x) k then some x else get k xs

  unfoldable pub remove : K → List A → List A
  remove k = select (λ x. not (e.beq (key x) k))

  unfoldable pub put : A → List A → List A
  unfolding remove
  put x xs = x ∷ remove (key x) xs

  pub get-nil : (k : K) → get k [] ≡ none
  unfolding get
  get-nil k = refl

  pub get-cons :
      (k : K) (x : A) (xs : List A)
      → get k (x ∷ xs) ≡ (if e.beq (key x) k then some x else get k xs)
  unfolding get
  get-cons k x xs = refl

  pub beq_cong : (a b c : K) → e.beq a b ≡ true → e.beq a c ≡ e.beq b c
  beq_cong a b c h = ap (λ z. e.beq z c) ((e.beq_iff a b).0 h)

  pub beq_euclid : (a b c : K) → e.beq a c ≡ true → e.beq b c ≡ true → e.beq a b ≡ true
  beq_euclid a b c h g = (e.beq_iff a b).1 ((e.beq_iff a c).0 h ∙ sym ((e.beq_iff b c).0 g))

  pub get-remove :
      (j k : K) (xs : List A) → get j (remove k xs) ≡ (if e.beq k j then none else get j xs)
  unfolding get remove
  get-remove j k [] = ground arith
  get-remove j k (x ∷ xs) =
      ground (arith, get-remove j k xs, beq_cong (key x) k j, beq_euclid (key x) k j)

  pub get-put :
      (j : K) (x : A) (xs : List A)
      → get j (put x xs) ≡ (if e.beq (key x) j then some x else get j xs)
  unfolding put get
  get-put j x xs = ground (arith, get-remove j (key x) xs)

  abbrev pub NodupKeys : List A → Type ℓ
  NodupKeys [] = Unit
  NodupKeys (x ∷ xs) = (get (key x) xs ≡ none) × NodupKeys xs

  pub remove-NodupKeys : (k : K) (xs : List A) → NodupKeys xs → NodupKeys (remove k xs)
  unfolding remove
  remove-NodupKeys k [] h = tt
  remove-NodupKeys k (x ∷ xs) h = elim (Bool-cases (e.beq (key x) k)) [
    | inl hit ↦ rw hit (remove-NodupKeys k xs h.1)
    | inr miss ↦ rw miss (ground (arith, get-remove (key x) k xs, h.0), remove-NodupKeys k xs h.1)
  ]

  pub put-NodupKeys : (x : A) (xs : List A) → NodupKeys xs → NodupKeys (put x xs)
  unfolding put
  put-NodupKeys x xs h = (
    ground (arith, get-remove (key x) (key x) xs, (e.beq_iff (key x) (key x)).1 refl),
    remove-NodupKeys (key x) xs h,
  )

  pub All-remove {μ} : (P : A → Type μ) (k : K) (xs : List A) → All P xs → All P (remove k xs)
  unfolding remove
  All-remove P k [] h = tt
  All-remove P k (x ∷ xs) h = elim (Bool-cases (e.beq (key x) k)) [
    | inl hit ↦ rw hit (All-remove P k xs h.1)
    | inr miss ↦ rw miss (h.0, All-remove P k xs h.1)
  ]

  pub All-put {μ} : (P : A → Type μ) (x : A) (xs : List A) → P x → All P xs → All P (put x xs)
  unfolding put
  All-put P x xs hx h = (hx, All-remove P (key x) xs h)

  pub All-get {μ} :
      (P : A → Type μ) (k : K) (xs : List A) {x : A} → All P xs → get k xs ≡ some x → P x
  unfolding get
  All-get P k [] h g = cc
  All-get P k (y ∷ ys) {x} h g = elim (Bool-cases (e.beq (key y) k)) [
    | inl hit ↦ subst P (some-injective y x (rw hit at g)) h.0
    | inr miss ↦ All-get P k ys h.1 (rw miss at g)
  ]

  pub get_tail : (x y : A) (ys : List A) → get (key x) (y ∷ ys) ≡ none → get (key x) ys ≡ none
  unfolding get
  get_tail x y ys h = ground arith
