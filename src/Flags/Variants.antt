-- ===== src/Flags/Variants.antt =====
-- services/api/src/routes/flag_policy.rs: that different leet masks give different flags.
use native.Mathlib.Nat.{pow-suc, div-div-eq-div-mul}
use native.Mathlib.Numerals.{unary_clauses}
use ctfdpp.Base.{
  ℕ, suc, zero, ◌+◌, ◌/◌, ◌%◌, ◌^◌, ◌<◌, ◌≡◌, ◌≢◌, sym, ap, subst, refl, inl, inr, Bool, true,
  false, ◌&&◌, Option, none, some, List, [], ◌∷◌, ◌++◌, ◌==◌, if◌then◌else◌, length, char_bytes,
  starts_with, is_some, arith, Bool-cases,
}
use ctfdpp.Flags.{
  random_token_placeholder, leet_replacement, leet_scope, in_scope, leet_positions, token_text,
  rendered_char, render_from, render_generated_flag,
}
use ctfdpp.Flags.Slots.{slots_from, slots-leet_positions}

abbrev tail_of : List ℕ → List ℕ
tail_of [] = []
tail_of (x ∷ xs) = xs

abbrev head_of : List ℕ → ℕ
head_of [] = 0
head_of (x ∷ xs) = x

append_cancel : (xs ys zs : List ℕ) → xs ++ ys ≡ xs ++ zs → ys ≡ zs
append_cancel [] ys zs h = h
append_cancel (x ∷ xs) ys zs h = append_cancel xs ys zs (ap tail_of h)

-- Two numbers with the same lowest `n` bits.
abbrev Agree : ℕ → ℕ → ℕ → Type 0
Agree zero x y = Unit
Agree (suc n) x y = (x % 2 ≡ y % 2) × Agree n (x / 2) (y / 2)

Agree-equal : (n x y : ℕ) → Agree n x y → x < 2 ^ n → y < 2 ^ n → x ≡ y
Agree-equal zero x y h small small' = omega arith
Agree-equal (suc n) x y h small small' =
    let power = pow-suc 2 n in
    let e = Agree-equal n (x / 2) (y / 2) h.1 (omega arith) (omega arith) in
    let low = h.0 in omega arith

not_own_replacement : (c r : ℕ) → leet_replacement c ≡ some r → r ≢ c
not_own_replacement c r h = ground arith

same_bit :
    (x y r c : ℕ)
    → r ≢ c
    → (if x % 2 == 1 then r else c) ≡ (if y % 2 == 1 then r else c)
    → x % 2 ≡ y % 2
same_bit x y r c apart h = ground arith

next_bit : (m i : ℕ) → m / 2 ^ (i + 1) ≡ m / 2 ^ i / 2
next_bit m i = simp unary_clauses (sym (div-div-eq-div-mul m (2 ^ i) 2))

Agree-shift : (n k x y : ℕ) → n ≡ k → Agree n x y → Agree k x y
Agree-shift n k x y e h = subst (λ j. Agree j x y) e h

whole : (m : ℕ) → m / 2 ^ 0 ≡ m
whole m = omega arith

-- Both renderings put out the same token, so they agree behind it; a replaced character is never the
-- character itself, so they agree on the bit where they put out the same.
module _ (scope : ℕ × ℕ) (token : Option (List ℕ)) (m m' : ℕ) where
  char-Agree :
      (visited : Bool) (replacement : Option ℕ) (i c n : ℕ) (rest rest' : ℕ → List ℕ)
      → ((r : ℕ) → replacement ≡ some r → r ≢ c)
      → rendered_char visited replacement (some m) i c rest
        ≡ rendered_char visited replacement (some m') i c rest'
      → ((j : ℕ) → rest j ≡ rest' j → Agree n (m / 2 ^ j) (m' / 2 ^ j))
      → Agree ((if visited && is_some replacement then 1 else 0) + n) (m / 2 ^ i) (m' / 2 ^ i)
  char-Agree false replacement i c n rest rest' apart same ih =
      Agree-shift n (0 + n) _ _ (omega arith) (ih i (ap tail_of same))
  char-Agree true none i c n rest rest' apart same ih =
      Agree-shift n (0 + n) _ _ (omega arith) (ih i (ap tail_of same))
  char-Agree true (some r) i c n rest rest' apart same ih =
      Agree-shift (suc n) (1 + n) _ _ (omega arith) (
        same_bit (m / 2 ^ i) (m' / 2 ^ i) r c (apart r refl) (ap head_of same),
        subst (λ x. Agree n x (m' / 2 ^ i / 2)) (next_bit m i)
            (subst (λ y. Agree n (m / 2 ^ (i + 1)) y) (next_bit m' i)
              (ih (i + 1) (ap tail_of same))),
      )

  render-Agree :
      (skip cursor : ℕ) (cs : List ℕ) (i : ℕ)
      → render_from scope token (some m) skip cursor cs i
        ≡ render_from scope token (some m') skip cursor cs i
      → Agree (slots_from scope skip cursor cs) (m / 2 ^ i) (m' / 2 ^ i)
  unfolding render_from slots_from
  render-Agree skip cursor [] i same = tt
  render-Agree (suc skip) cursor (c ∷ cs) i same =
      render-Agree skip (cursor + char_bytes c) cs i same
  render-Agree zero cursor (c ∷ cs) i same =
      elim (Bool-cases (starts_with random_token_placeholder (c ∷ cs))) [
        | inl hit ↦ rw hit (
            render-Agree 15 (cursor + char_bytes c) cs i
              (append_cancel (token_text token) _ _ (rw hit at same)))
        | inr miss ↦ rw miss (
            char-Agree (in_scope scope cursor) (leet_replacement c) i c _ _ _
              (λ r e. not_own_replacement c r e) (rw miss at same)
              (λ j e. render-Agree 0 (cursor + char_bytes c) cs j e))
      ]

-- Of one template and one token, two masks within the positions that `leet_positions` counts give
-- different flags unless they are the same.
pub render_generated_flag-injective :
    (template : List ℕ) (token : Option (List ℕ)) (m m' : ℕ)
    → m < 2 ^ length (leet_positions template)
    → m' < 2 ^ length (leet_positions template)
    → render_generated_flag template token (some m) ≡ render_generated_flag template token (some m')
    → m ≡ m'
unfolding render_generated_flag
render_generated_flag-injective template token m m' small small' same =
    Agree-equal (length (leet_positions template)) m m' agree small small'
  where
    slots : ℕ
    slots = slots_from (leet_scope template) 0 0 template

    agree : Agree (length (leet_positions template)) m m'
    agree =
        subst (λ n. Agree n m m') (slots-leet_positions template)
          (subst (λ x. Agree slots x m') (whole m)
            (subst (λ y. Agree slots (m / 2 ^ 0) y) (whole m')
              (render-Agree (leet_scope template) token m m' 0 0 template 0 same)))
