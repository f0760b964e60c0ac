-- ===== src/Flags/Described.antt =====
-- services/api/src/routes/flag_policy.rs: what `render_generated_flag` puts out, told from the list of
-- `leet_positions` and from the placeholders that `match_indices` finds.
use ctfdpp.Base.{
  ℕ, suc, zero, ◌+◌, ◌≤◌, ◌<◌, ◌≡◌, ◌∙◌, ap, refl, inl, inr, Bool, true, false, not, ◌&&◌, ◌||◌,
  Option, none, some, List, [], ◌∷◌, ◌++◌, ◌==◌, if◌then◌else◌, any, char_bytes, starts_with,
  is_some, arith, Bool-cases,
}
use ctfdpp.Flags.{
  random_token_placeholder, leet_replacement, match_indices, covers, inside_random_token,
  leet_scope, in_scope, positions_from, leet_positions, token_text, replaces, pushed_char,
  rendered_char, render_from, render_generated_flag,
}
use ctfdpp.Flags.Slots.{
  Narrow, placeholder-Narrow, Narrow-zero, char_bytes_pos, matches_ahead, or_assoc, outside,
  started, Passed, Splits,
}

-- Whether the next listed position is the given one.
abbrev pub due : ℕ → List ℕ → Bool
due offset [] = false
due offset (p ∷ positions) = p == offset

abbrev pub later : List ℕ → List ℕ
later [] = []
later (p ∷ positions) = positions

-- The replacement of a character, of one without a replacement the character itself.
abbrev pub leet_or : ℕ → Option ℕ → ℕ
leet_or c none = c
leet_or c (some r) = r

-- The rest of a text from the given offset: each placeholder becomes the token, and the character at
-- the position with number `index` is replaced if the mask has that bit.
unfoldable pub described : List ℕ → Option (List ℕ) → Option ℕ → ℕ → List ℕ → ℕ → List ℕ → List ℕ
described starts token mask offset positions index [] = []
described starts token mask offset positions index (c ∷ cs) =
    let same = described starts token mask (offset + char_bytes c) positions index cs in
    let next =
      described starts token mask (offset + char_bytes c) (later positions) (index + 1) cs in
    if any (λ s. s == offset) starts
    then token_text token ++ same
    else if any (covers offset) starts
    then same
    else if due offset positions
    then (if replaces mask index then leet_or c (leet_replacement c) else c) ∷ next
    else c ∷ same

starts_later :
    (skip offset : ℕ) (cs : List ℕ) (x : ℕ)
    → x < offset
    → any (λ s. s == x) (match_indices skip offset cs) ≡ false
unfolding match_indices
starts_later skip offset [] x h = refl
starts_later (suc skip) offset (c ∷ cs) x h =
    starts_later skip (offset + char_bytes c) cs x (omega arith)
starts_later zero offset (c ∷ cs) x h =
    let after = starts_later 15 (offset + char_bytes c) cs x (omega arith) in
    let next = starts_later 0 (offset + char_bytes c) cs x (omega arith) in
    elim (Bool-cases (starts_with random_token_placeholder (c ∷ cs))) [
      | inl hit ↦ rw hit (ground arith)
      | inr miss ↦ rw miss next
    ]

due-if :
    (b : Bool) (x offset : ℕ) (rest : List ℕ)
    → x < offset
    → due x rest ≡ false
    → due x (if b then offset ∷ rest else rest) ≡ false
due-if true x offset rest h g = ground arith
due-if false x offset rest h g = g

module _ (template : List ℕ) (token : Option (List ℕ)) (mask : Option ℕ) where
  due_later :
      (offset : ℕ) (cs : List ℕ) (x : ℕ)
      → x < offset
      → due x (positions_from template offset cs) ≡ false
  unfolding positions_from
  due_later offset [] x h = refl
  due_later offset (c ∷ cs) x h =
      due-if _ x offset _ h (due_later (offset + char_bytes c) cs x (omega arith))

  abbrev starts : List ℕ
  starts = match_indices 0 0 template

  abbrev told : ℕ → List ℕ → ℕ → List ℕ → List ℕ
  told = described starts token mask

  -- The matches that start before the offset, and those ahead.
  abbrev Starts : ℕ → ℕ → List ℕ → (ℕ → Bool) → Type 0
  Starts skip offset cs earlier =
      (x : ℕ)
      → any (λ s. s == x) starts ≡ (earlier x || any (λ s. s == x) (match_indices skip offset cs))

  abbrev Behind : ℕ → (ℕ → Bool) → Type 0
  Behind offset earlier = (x : ℕ) → offset ≤ x → earlier x ≡ false

  -- A character outside the placeholders.
  plain :
      (scoped inside : Bool) (replacement : Option ℕ) (offset c index : ℕ) (cs positions : List ℕ)
      (rest : ℕ → List ℕ)
      → inside ≡ false
      → any (λ s. s == offset) starts ≡ false
      → any (covers offset) starts ≡ false
      → leet_replacement c ≡ replacement
      → due offset positions ≡ false
      → ((i : ℕ) → rest i ≡ told (offset + char_bytes c) positions i cs)
      → rendered_char scoped replacement mask index c rest
        ≡ told offset
            (if scoped && not inside && is_some replacement then offset ∷ positions else positions)
            index
            (c ∷ cs)
  unfolding described
  plain false inside replacement offset c index cs positions rest out start cover same no_due ih =
      rw (start, cover, no_due) (ap (λ l. c ∷ l) (ih index))
  plain true inside none offset c index cs positions rest out start cover same no_due ih =
      rw (start, cover, out, no_due) (ap (λ l. c ∷ l) (ih index))
  plain true inside (some r) offset c index cs positions rest out start cover same no_due ih =
      let here : (offset == offset) ≡ true = ground arith in
      rw (start, cover, out, here, same) (ap (λ l. pushed_char mask index c r ∷ l) (ih (index + 1)))

  covered :
      (a inside r : Bool) (offset : ℕ) (rest : List ℕ)
      → inside ≡ true
      → (if a && not inside && r then offset ∷ rest else rest) ≡ rest
  covered a inside r offset rest h = ground arith

  -- A character that is not the first of its placeholder.
  passed_over :
      (scoped inside r : Bool) (offset c index : ℕ) (cs positions : List ℕ)
      → inside ≡ true
      → any (λ s. s == offset) starts ≡ false
      → any (covers offset) starts ≡ true
      → told (offset + char_bytes c) positions index cs
        ≡ told offset
            (if scoped && not inside && r then offset ∷ positions else positions)
            index
            (c ∷ cs)
  unfolding described
  passed_over scoped inside r offset c index cs positions within start cover =
      rw (covered scoped inside r offset positions within, start, cover) refl

  replaced_by_token :
      (scoped inside r : Bool) (offset c index : ℕ) (cs positions : List ℕ)
      → inside ≡ true
      → any (λ s. s == offset) starts ≡ true
      → token_text token ++ told (offset + char_bytes c) positions index cs
        ≡ told offset
            (if scoped && not inside && r then offset ∷ positions else positions)
            index
            (c ∷ cs)
  unfolding described
  replaced_by_token scoped inside r offset c index cs positions within start =
      rw (covered scoped inside r offset positions within, start) refl

  render_from-described :
      (skip offset : ℕ) (cs : List ℕ) (before earlier : ℕ → Bool) (index : ℕ)
      → Narrow skip cs
      → Splits template skip offset cs before
      → Passed template skip offset before
      → Starts skip offset cs earlier
      → Behind offset earlier
      → render_from (leet_scope template) token mask skip offset cs index
        ≡ told offset (positions_from template offset cs) index cs
  unfolding render_from described positions_from match_indices inside_random_token
  render_from-described skip offset [] before earlier index narrow splits passed begins behind =
      refl
  render_from-described (suc skip) offset (c ∷ cs) before earlier index narrow splits passed begins
        behind =
      let hidden : before offset ≡ true = passed offset (omega arith) ∙ ground arith in
      let inside : inside_random_token template offset ≡ true = splits offset ∙ rw hidden refl in
      let step : char_bytes c ≡ 1 = narrow.0 in
      let start : any (λ s. s == offset) starts ≡ false =
        begins offset
        ∙ outside (earlier offset) _ (behind offset (omega arith))
            (starts_later skip (offset + char_bytes c) cs offset (omega arith)) in
      render_from-described skip (offset + char_bytes c) cs before earlier index narrow.1 splits
        (λ x ahead. passed x (omega arith) ∙ ground arith) begins
        (λ x ahead. behind x (omega arith))
      ∙ passed_over (in_scope (leet_scope template) offset) (inside_random_token template offset)
          (is_some (leet_replacement c)) offset c index cs
          (positions_from template (offset + char_bytes c) cs) inside start inside
  render_from-described zero offset (c ∷ cs) before earlier index narrow splits passed begins
        behind =
      elim (Bool-cases (starts_with random_token_placeholder (c ∷ cs))) [
        | inl hit ↦
            let narrow = placeholder-Narrow c cs hit in
            let step : char_bytes c ≡ 1 = narrow.0 in
            let inside : inside_random_token template offset ≡ true =
              splits offset ∙ rw hit (ground arith) in
            let start : any (λ s. s == offset) starts ≡ true =
              begins offset ∙ rw hit (ground arith) in
            rw hit (
              ap (λ l. token_text token ++ l)
                (render_from-described 15 (offset + char_bytes c) cs
                  (λ x. before x || covers x offset) (λ x. earlier x || offset == x) index narrow.1
                  (λ x. splits x ∙ rw hit (or_assoc (before x) _ _))
                  (λ x ahead.
                    started offset x (before x) (char_bytes c) narrow.0 ahead
                      (passed x (omega arith)))
                  (λ x. begins x ∙ rw hit (or_assoc (earlier x) _ _))
                  (λ x ahead. outside (earlier x) _ (behind x (omega arith)) (ground arith)))
              ∙ replaced_by_token (in_scope (leet_scope template) offset)
                  (inside_random_token template offset) (is_some (leet_replacement c)) offset c
                  index cs (positions_from template (offset + char_bytes c) cs) inside start)
        | inr miss ↦
            let p = char_bytes_pos c in
            let cover : any (covers offset) starts ≡ false =
              splits offset
              ∙ rw miss (
                  outside (before offset) _ (passed offset (omega arith) ∙ ground arith)
                    (matches_ahead 0 (offset + char_bytes c) cs offset (omega arith))) in
            let start : any (λ s. s == offset) starts ≡ false =
              begins offset
              ∙ rw miss (
                  outside (earlier offset) _ (behind offset (omega arith))
                    (starts_later 0 (offset + char_bytes c) cs offset (omega arith))) in
            rw miss (
              plain (in_scope (leet_scope template) offset) (inside_random_token template offset)
                (leet_replacement c) offset c index cs
                (positions_from template (offset + char_bytes c) cs) _ cover start cover refl
                (due_later (offset + char_bytes c) cs offset (omega arith))
                (λ i.
                  render_from-described 0 (offset + char_bytes c) cs before earlier i
                    (Narrow-zero cs) (λ x. splits x ∙ rw miss refl)
                    (λ x ahead. passed x (omega arith) ∙ ground arith)
                    (λ x. begins x ∙ rw miss refl) (λ x ahead. behind x (omega arith))))
      ]

-- `render_generated_flag` puts out the template with every placeholder that `match_indices` finds
-- replaced by the token, and with the characters that `leet_positions` lists replaced where the mask
-- has the bit of their place in that list. Without a token the placeholders stay, and without a mask
-- no character is replaced.
pub render_generated_flag-described :
    (template : List ℕ) (token : Option (List ℕ)) (mask : Option ℕ)
    → render_generated_flag template token mask
      ≡ described (match_indices 0 0 template) token mask 0 (leet_positions template) 0 template
unfolding render_generated_flag inside_random_token
render_generated_flag-described template token mask =
    render_from-described template token mask 0 0 template (λ x. false) (λ x. false) 0
      (Narrow-zero template) (λ x. refl) (λ x ahead. ground arith) (λ x. refl) (λ x ahead. refl)
