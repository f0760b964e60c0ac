-- ===== src/Base/Keyed/Sorting.antt =====
-- Sorting rows by any test does not change what is read by key.
use mathlib.Core.Path.{◌≡◌, refl, ◌∙◌}
use mathlib.Core.Logic.{inl, inr}
use mathlib.Core.Bool.{Bool}
use mathlib.Core.Option.{none, some}
use mathlib.Core.List.{List, [], ◌∷◌}
use native.Mathlib.Omega.{arith}
use ctfdpp.Base.Tests.{if◌then◌else◌, Bool-cases}
use ctfdpp.Base.Lists.{All}
use ctfdpp.Base.Keyed.{Eq, get, NodupKeys, beq_cong, beq_euclid, get_tail}

module _ {ℓ κ} {A : Type ℓ} {K : Type κ} ⦃e : Eq K⦄ (key : A → K) where
  -- A stable sort by a total test.
  unfoldable pub insert_sorted : (A → A → Bool) → A → List A → List A
  insert_sorted le x [] = x ∷ []
  insert_sorted le x (y ∷ ys) =
      let rest = insert_sorted le x ys in if le x y then x ∷ y ∷ ys else y ∷ rest

  unfoldable pub sort_by : (A → A → Bool) → List A → List A
  unfolding insert_sorted
  sort_by le [] = []
  sort_by le (x ∷ xs) = insert_sorted le x (sort_by le xs)

  get-insert_sorted :
      (le : A → A → Bool) (j : K) (x : A) (xs : List A)
      → get key (key x) xs ≡ none
      → get key j (insert_sorted le x xs) ≡ (if e.beq (key x) j then some x else get key j xs)
  unfolding get insert_sorted
  get-insert_sorted le j x [] h = refl
  get-insert_sorted le j x (y ∷ ys) h = ground (
    arith,
    get-insert_sorted le j x ys,
    beq_cong key (key x) j (key y),
    beq_euclid key (key y) (key x) j,
  )

  fresh_behind :
      (le : A → A → Bool) (x y : A) (ys : List A)
      → get key (key x) (y ∷ ys) ≡ none
      → get key (key y) ys ≡ none
      → get key (key y) (insert_sorted le x ys) ≡ none
  unfolding get
  fresh_behind le x y ys h g = ground (
    arith,
    get-insert_sorted le (key y) x ys (get_tail key x y ys h),
    beq_euclid key (key y) (key x) (key y),
    (e.beq_iff (key y) (key y)).1 refl,
  )

  insert_sorted-NodupKeys :
      (le : A → A → Bool) (x : A) (xs : List A)
      → get key (key x) xs ≡ none
      → NodupKeys key xs
      → NodupKeys key (insert_sorted le x xs)
  unfolding insert_sorted get
  insert_sorted-NodupKeys le x [] h n = (refl, tt)
  insert_sorted-NodupKeys le x (y ∷ ys) h n = elim (Bool-cases (le x y)) [
    | inl low ↦ rw low (h, n)
    | inr high ↦
        rw high (
          fresh_behind le x y ys h n.0,
          insert_sorted-NodupKeys le x ys (get_tail key x y ys h) n.1,
        )
  ]

  pub All-sort_by {μ} :
      (P : A → Type μ) (le : A → A → Bool) (xs : List A) → All P xs → All P (sort_by le xs)
  unfolding sort_by
  All-sort_by P le [] h = tt
  All-sort_by P le (x ∷ xs) h = add (sort_by le xs) (All-sort_by P le xs h.1)
    where
      add : (ys : List A) → All P ys → All P (insert_sorted le x ys)
      add [] g = (h.0, tt)
      add (y ∷ ys) g = elim (Bool-cases (le x y)) [
        | inl low ↦ rw low (h.0, g)
        | inr high ↦ rw high (g.0, add ys g.1)
      ]

  sort_by_keys :
      (le : A → A → Bool) (xs : List A)
      → NodupKeys key xs
      → ((j : K) → get key j (sort_by le xs) ≡ get key j xs) × NodupKeys key (sort_by le xs)
  unfolding sort_by get
  sort_by_keys le [] h = (λ j. refl, tt)
  sort_by_keys le (x ∷ xs) h =
      let (same, nodup) = sort_by_keys le xs h.1 in
      let fresh : get key (key x) (sort_by le xs) ≡ none = same (key x) ∙ h.0 in
      (
        λ j. get-insert_sorted le j x (sort_by le xs) fresh ∙ rw (same j),
        insert_sorted-NodupKeys le x (sort_by le xs) fresh nodup,
      )

  pub get-sort_by :
      (le : A → A → Bool) (xs : List A) (j : K)
      → NodupKeys key xs
      → get key j (sort_by le xs) ≡ get key j xs
  get-sort_by le xs j h = (sort_by_keys le xs h).0 j

  pub sort_by-NodupKeys :
      (le : A → A → Bool) (xs : List A) → NodupKeys key xs → NodupKeys key (sort_by le xs)
  sort_by-NodupKeys le xs h = (sort_by_keys le xs h).1
