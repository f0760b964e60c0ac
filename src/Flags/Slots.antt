-- ===== src/Flags/Slots.antt =====
-- services/api/src/routes/flag_policy.rs: that `render_generated_flag` and `leet_positions`, which pass
-- over the placeholders in different ways, find the same characters to replace.
use ctfdpp.Base.{
  ℕ, suc, zero, ◌+◌, ◌≤◌, ◌<◌, ◌≡◌, ◌∙◌, sym, ap, subst, refl, inl, inr, Bool, true, false, not,
  ◌&&◌, ◌||◌, List, [], ◌∷◌, all, ltb, ◌==◌, if◌then◌else◌, any, length, char_bytes, starts_with,
  is_some, arith, Bool-cases,
}
use ctfdpp.Flags.{
  random_token_placeholder, leet_replacement, match_indices, covers, inside_random_token,
  leet_scope, in_scope, positions_from, leet_positions,
}

-- A count for proofs about the loop of `render_generated_flag`: its visits of characters in the scope
-- with a replacement.
unfoldable pub slots_from : ℕ × ℕ → ℕ → ℕ → List ℕ → ℕ
slots_from scope skip cursor [] = 0
slots_from scope (suc skip) cursor (c ∷ cs) = slots_from scope skip (cursor + char_bytes c) cs
slots_from scope zero cursor (c ∷ cs) =
    let after = slots_from scope 15 (cursor + char_bytes c) cs in
    let next = slots_from scope 0 (cursor + char_bytes c) cs in
    if starts_with random_token_placeholder (c ∷ cs)
    then after
    else (if in_scope scope cursor && is_some (leet_replacement c) then 1 else 0) + next

-- The next `k` characters are of one byte.
abbrev pub Narrow : ℕ → List ℕ → Type 0
Narrow k [] = Unit
Narrow zero (c ∷ cs) = Unit
Narrow (suc k) (c ∷ cs) = (char_bytes c ≡ 1) × Narrow k cs

prefix-Narrow :
    (prefix cs : List ℕ)
    → all (λ b. char_bytes b == 1) prefix ≡ true
    → starts_with prefix cs ≡ true
    → Narrow (length prefix) cs
unfolding starts_with
prefix-Narrow prefix [] narrow h = tt
prefix-Narrow [] (c ∷ cs) narrow h = tt
prefix-Narrow (p ∷ prefix) (c ∷ cs) narrow h =
    let same : p ≡ c = ground arith in
    let one : char_bytes p ≡ 1 = ground arith in
    (subst (λ b. char_bytes b ≡ 1) same one, prefix-Narrow prefix cs (ground arith) (ground arith))

pub placeholder-Narrow :
    (c : ℕ) (cs : List ℕ)
    → starts_with random_token_placeholder (c ∷ cs) ≡ true
    → (char_bytes c ≡ 1) × Narrow 15 cs
placeholder-Narrow c cs h = prefix-Narrow random_token_placeholder (c ∷ cs) refl h

pub char_bytes_pos : (c : ℕ) → 1 ≤ char_bytes c
char_bytes_pos c = ground arith

-- The matches that are still to come start behind the text that was passed.
pub matches_ahead :
    (skip offset : ℕ) (cs : List ℕ) (x : ℕ)
    → x < offset
    → any (covers x) (match_indices skip offset cs) ≡ false
unfolding match_indices
matches_ahead skip offset [] x h = refl
matches_ahead (suc skip) offset (c ∷ cs) x h =
    matches_ahead skip (offset + char_bytes c) cs x (omega arith)
matches_ahead zero offset (c ∷ cs) x h =
    let after = matches_ahead 15 (offset + char_bytes c) cs x (omega arith) in
    let next = matches_ahead 0 (offset + char_bytes c) cs x (omega arith) in
    elim (Bool-cases (starts_with random_token_placeholder (c ∷ cs))) [
      | inl hit ↦ rw hit (ground arith)
      | inr miss ↦ rw miss next
    ]

pub or_assoc : (a b c : Bool) → (a || (b || c)) ≡ ((a || b) || c)
or_assoc a b c = ground arith

pub outside : (a b : Bool) → a ≡ false → b ≡ false → (a || b) ≡ false
outside a b h g = ground arith

pub Narrow-zero : (cs : List ℕ) → Narrow 0 cs
Narrow-zero [] = tt
Narrow-zero (c ∷ cs) = tt

-- A match that starts at the offset covers the fifteen bytes behind its first.
pub started :
    (offset x : ℕ) (before : Bool) (width : ℕ)
    → width ≡ 1
    → offset + width ≤ x
    → before ≡ ltb x (offset + 0)
    → (before || covers x offset) ≡ ltb x (offset + width + 15)
started offset x before width one ahead h = ground arith

unlisted :
    (a inside r : Bool) (offset : ℕ) (rest : List ℕ)
    → inside ≡ true
    → length (if a && not inside && r then offset ∷ rest else rest) ≡ length rest
unlisted a inside r offset rest h = ground arith

listed :
    (a inside r : Bool) (offset : ℕ) (rest : List ℕ)
    → inside ≡ false
    → length (if a && not inside && r then offset ∷ rest else rest)
      ≡ (if a && r then 1 else 0) + length rest
listed a inside r offset rest h = ground arith

-- The character at the offset is in a placeholder exactly while the loop skips.
module _ (template : List ℕ) where
  -- What was passed covers an offset ahead exactly as far as the loop still skips.
  abbrev pub Passed : ℕ → ℕ → (ℕ → Bool) → Type 0
  Passed skip offset before = (x : ℕ) → offset ≤ x → before x ≡ ltb x (offset + skip)

  abbrev pub Splits : ℕ → ℕ → List ℕ → (ℕ → Bool) → Type 0
  Splits skip offset cs before =
      (x : ℕ)
      → inside_random_token template x ≡ (before x || any (covers x) (match_indices skip offset cs))

  slots-positions :
      (skip offset : ℕ) (cs : List ℕ) (before : ℕ → Bool)
      → Narrow skip cs
      → Splits skip offset cs before
      → Passed skip offset before
      → slots_from (leet_scope template) skip offset cs ≡ length (positions_from template offset cs)
  unfolding slots_from positions_from match_indices
  slots-positions skip offset [] before narrow splits passed = refl
  slots-positions (suc skip) offset (c ∷ cs) before narrow splits passed =
      let covered : before offset ≡ true = passed offset (omega arith) ∙ ground arith in
      let inside : inside_random_token template offset ≡ true = splits offset ∙ rw covered refl in
      let step : char_bytes c ≡ 1 = narrow.0 in
      let rest =
        slots-positions skip (offset + char_bytes c) cs before narrow.1 splits
          (λ x ahead. passed x (omega arith) ∙ ground arith) in
      rest
      ∙ sym (
          unlisted (in_scope (leet_scope template) offset) (inside_random_token template offset)
            (is_some (leet_replacement c)) offset
            (positions_from template (offset + char_bytes c) cs) inside)
  slots-positions zero offset (c ∷ cs) before narrow splits passed =
      elim (Bool-cases (starts_with random_token_placeholder (c ∷ cs))) [
        | inl hit ↦
            let narrow = placeholder-Narrow c cs hit in
            let inside : inside_random_token template offset ≡ true =
              splits offset ∙ rw hit (ground arith) in
            let rest =
              slots-positions 15 (offset + char_bytes c) cs (λ x. before x || covers x offset)
                narrow.1 (λ x. splits x ∙ rw hit (or_assoc (before x) _ _))
                (λ x ahead.
                  started offset x (before x) (char_bytes c) narrow.0 ahead
                    (passed x (omega arith))) in
            rw hit (
              rest
              ∙ sym (
                  unlisted (in_scope (leet_scope template) offset)
                    (inside_random_token template offset) (is_some (leet_replacement c)) offset
                    (positions_from template (offset + char_bytes c) cs) inside))
        | inr miss ↦
            let inside : inside_random_token template offset ≡ false =
              splits offset
              ∙ rw miss (
                  outside (before offset) _ (passed offset (omega arith) ∙ ground arith) (
                    matches_ahead 0 (offset + char_bytes c) cs offset
                      (let p = char_bytes_pos c in omega arith))) in
            let rest =
              slots-positions 0 (offset + char_bytes c) cs before (Narrow-zero cs)
                (λ x. splits x ∙ rw miss refl) (λ x ahead. passed x (omega arith) ∙ ground arith) in
            rw miss (
              ap
                (λ n.
                  (if in_scope (leet_scope template) offset && is_some (leet_replacement c)
                    then 1
                    else 0)
                  + n)
                rest
              ∙ sym (
                  listed (in_scope (leet_scope template) offset)
                    (inside_random_token template offset) (is_some (leet_replacement c)) offset
                    (positions_from template (offset + char_bytes c) cs) inside))
      ]

-- The count is the number of positions that `leet_positions` lists.
pub slots-leet_positions :
    (template : List ℕ)
    → slots_from (leet_scope template) 0 0 template ≡ length (leet_positions template)
unfolding inside_random_token
slots-leet_positions template =
    slots-positions template 0 0 template (λ x. false) (Narrow-zero template) (λ x. refl)
      (λ x ahead. ground arith)
