-- ===== src/Base/Keyed/Rows.antt =====
-- Updating, adding and finding the rows of a table by key.
use mathlib.Core.Path.{◌≡◌, refl, ◌∙◌, sym, ap}
use mathlib.Core.Logic.{inl, inr}
use mathlib.Core.Bool.{Bool, true, false}
use mathlib.Core.Option.{none, some, some-injective}
use mathlib.Core.List.{List, [], ◌∷◌, ◌++◌}
use native.Mathlib.Omega.{arith}
use ctfdpp.Base.Tests.{if◌then◌else◌, Bool-cases}
use Prim.Native.Nat.{◌≤◌}
use ctfdpp.Base.Lists.{All, count_where, update_where, All-map}
use ctfdpp.Base.Keyed.{Eq, get, NodupKeys, beq_euclid, get_tail}

module _ {ℓ κ} {A : Type ℓ} {K : Type κ} ⦃e : Eq K⦄ (key : A → K) where
  -- An UPDATE that keeps the keys changes the row that is read by the key, and no other.
  pub get-update_where :
      (p : A → Bool) (f : A → A)
      → ((x : A) → key (f x) ≡ key x)
      → (k : K) (xs : List A)
      → get key k (update_where p f xs)
        ≡ elim (get key k xs) [ none ↦ none | some x ↦ some (if p x then f x else x) ]
  unfolding get
  get-update_where p f same k [] = refl
  get-update_where p f same k (x ∷ xs) = elim (Bool-cases (p x)) [
    | inl hit ↦
        rw (hit, same x)
          (elim (Bool-cases (e.beq (key x) k)) [
            | inl here ↦ rw here (rw hit)
            | inr there ↦ rw there (get-update_where p f same k xs)
          ])
    | inr miss ↦ rw miss (elim (Bool-cases (e.beq (key x) k)) [
      | inl here ↦ rw here (rw miss)
      | inr there ↦ rw there (get-update_where p f same k xs)
    ])
  ]

  pub update_where-NodupKeys :
      (p : A → Bool) (f : A → A)
      → ((x : A) → key (f x) ≡ key x)
      → (xs : List A) → NodupKeys key xs
      → NodupKeys key (update_where p f xs)
  unfolding get
  update_where-NodupKeys p f same [] h = tt
  update_where-NodupKeys p f same (x ∷ xs) h = (
    ap (λ k. get key k (update_where p f xs)) (key_kept (p x))
        ∙ get-update_where p f same (key x) xs
        ∙ rw h.0,
    update_where-NodupKeys p f same xs h.1,
  )
    where
      key_kept : (b : Bool) → key (if b then f x else x) ≡ key x
      key_kept true = same x
      key_kept false = refl

  pub get-append :
      (k : K) (xs ys : List A)
      → get key k (xs ++ ys) ≡ elim (get key k xs) [ none ↦ get key k ys | some x ↦ some x ]
  unfolding get
  get-append k [] ys = refl
  get-append k (x ∷ xs) ys = elim (Bool-cases (e.beq (key x) k)) [
    | inl here ↦ rw here
    | inr there ↦ rw there (get-append k xs ys)
  ]

  head_differs :
      (x y : A) (ys : List A) → get key (key x) (y ∷ ys) ≡ none → e.beq (key x) (key y) ≡ false
  unfolding get
  head_differs x y ys h =
      ground (arith, beq_euclid key (key y) (key x) (key y), (e.beq_iff (key y) (key y)).1 refl)

  pub append-NodupKeys :
      (xs : List A) (x : A)
      → get key (key x) xs ≡ none
      → NodupKeys key xs
      → NodupKeys key (xs ++ x ∷ [])
  unfolding get
  append-NodupKeys [] x fresh h = (refl, tt)
  append-NodupKeys (y ∷ ys) x fresh h = (
    get-append (key y) ys (x ∷ []) ∙ rw h.0 (rw (head_differs x y ys fresh)),
    append-NodupKeys ys x (get_tail key x y ys fresh) h.1,
  )

  -- Under distinct keys each row is the one that its key reads.
  pub get_self : (xs : List A) → NodupKeys key xs → All (λ x. get key (key x) xs ≡ some x) xs
  unfolding get
  get_self [] h = tt
  get_self (x ∷ xs) h =
      (rw ((e.beq_iff (key x) (key x)).1 refl), All-map _ _ behind xs (get_self xs h.1))
    where
      behind : (y : A) → get key (key y) xs ≡ some y → get key (key y) (x ∷ xs) ≡ some y
      behind y g = elim (Bool-cases (e.beq (key x) (key y))) [
        | inl same ↦
            let gone = ap (λ k. get key k xs) ((e.beq_iff (key x) (key y)).0 same) in cc (h.0)
        | inr other ↦ rw other g
      ]

  pub same_row :
      (xs : List A) (k : K) (x : A)
      → NodupKeys key xs
      → get key k xs ≡ some x
      → All (λ y. e.beq (key y) k ≡ true → y ≡ x) xs
  same_row xs k x h g =
      All-map _ _
        (λ y self same.
          some-injective y x (sym self ∙ ap (λ j. get key j xs) ((e.beq_iff (key y) k).0 same) ∙ g))
        xs (get_self xs h)

  count_where-absent :
      (k : K) (p : A → Bool)
      → ((x : A) → p x ≡ true → e.beq (key x) k ≡ true)
      → (x : A) (xs : List A) → p x ≡ true
      → get key (key x) xs ≡ none
      → count_where p xs ≡ 0
  unfolding get
  count_where-absent k p only x [] px h = refl
  count_where-absent k p only x (y ∷ ys) px h = elim (Bool-cases (p y)) [
    | inl py ↦
        let same = beq_euclid key (key y) (key x) k (only y py) (only x px) in
        (let k = rw same at h in cc)
    | inr n ↦ let rest = count_where-absent k p only x ys px (get_tail key x y ys h) in ground arith
  ]

  -- A test that passes only rows with one key passes at most one.
  pub count_where-le-one :
      (k : K) (p : A → Bool)
      → ((x : A) → p x ≡ true → e.beq (key x) k ≡ true)
      → (xs : List A) → NodupKeys key xs
      → count_where p xs ≤ 1
  count_where-le-one k p only [] h = omega arith
  count_where-le-one k p only (x ∷ xs) h = elim (Bool-cases (p x)) [
    | inl px ↦ let zero = count_where-absent k p only x xs px h.0 in rw px (omega (arith, zero))
    | inr n ↦ let rest = count_where-le-one k p only xs h.1 in ground arith
  ]
