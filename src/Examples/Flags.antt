-- ===== src/Examples/Flags.antt =====
-- The theorems on generated flags at concrete inputs.
use ctfdpp.Base.{
  ℕ, ◌≡◌, ◌≢◌, refl, inl, inr, subst, true, false, none, some, List, [], ◌∷◌, length, any, arith,
  starts_with,
}
use ctfdpp.Flags.{
  leet_positions, render_generated_flag, leet_scope, positions_from, inside_random_token,
  match_indices, first_outside, last_outside, text_bytes, render_from, random_token_placeholder,
}
use ctfdpp.Flags.Variants.{render_generated_flag-injective}
use ctfdpp.Flags.Described.{described, render_generated_flag-described}
use ctfdpp.Flags.Allocation.{
  StoredFlag, FlagPolicyData, Assignment, has_mask, leet_capacity, available, rendered, Random,
  next_available_leet_mask, materialize_flag, generate_series,
}
use ctfdpp.Flags.Allocation.Free.{Within, next_available_leet_mask-free}
use ctfdpp.Flags.Allocation.Distinct.{AllMasked, IsMasked, materialize_flag-distinct}

-- "flag{test}"
abbrev template : List ℕ
template = 102 ∷ 108 ∷ 97 ∷ 103 ∷ 123 ∷ 116 ∷ 101 ∷ 115 ∷ 116 ∷ 125 ∷ []

-- The letters behind the brace, and not the `a` before it, may change.
positions_test : leet_positions template ≡ 5 ∷ 6 ∷ 7 ∷ 8 ∷ []
unfolding leet_scope positions_from inside_random_token match_indices first_outside last_outside
    text_bytes starts_with
positions_test = refl

-- "flag{7es7}"
render_test :
    render_generated_flag template none (some 9)
    ≡ 102 ∷ 108 ∷ 97 ∷ 103 ∷ 123 ∷ 55 ∷ 101 ∷ 115 ∷ 55 ∷ 125 ∷ []
unfolding render_generated_flag render_from leet_scope positions_from inside_random_token
    match_indices first_outside last_outside text_bytes starts_with
render_test = refl

-- "{{RANDOM_TOKEN}}" behind a letter, with "b" as the token: "7b"
token_test :
    described (1 ∷ []) (some (98 ∷ [])) (some 1) 0 (0 ∷ []) 0 (116 ∷ random_token_placeholder)
    ≡ 55 ∷ 98 ∷ []
unfolding described
token_test = refl

render_generated_flag-described_example :
    render_generated_flag template none (some 9)
    ≡ described (match_indices 0 0 template) none (some 9) 0 (leet_positions template) 0 template
render_generated_flag-described_example = render_generated_flag-described template none (some 9)

four : length (leet_positions template) ≡ 4
unfolding leet_scope positions_from inside_random_token match_indices first_outside last_outside
    text_bytes starts_with
four = refl

abbrev mask : ℕ
mask = 9

render_generated_flag-injective_example : mask ≡ mask
render_generated_flag-injective_example =
    render_generated_flag-injective template none mask mask (rw four (omega arith))
      (rw four (omega arith)) refl

abbrev policy : FlagPolicyData
policy = record { case_sensitive = true; leet_variation = true; accept_other_users = false }

abbrev flag : StoredFlag
flag = record { id = 3; content = template; policy = some policy; revision = 1 }

-- The first user of the flag.
abbrev first : Assignment
first = record {
  flag_id = 3;
  challenge_id = 8;
  user_id = 20;
  definition_revision = 1;
  match_tag = 77;
  random_token = none;
  leet_mask = some 1;
  leet_position_count = some 4;
}

next_available_leet_mask-free_example :
    (m : ℕ) × (next_available_leet_mask flag (first ∷ []) ≡ available m)
    × Within (leet_capacity template) m
    × (any (has_mask 3 m) (first ∷ []) ≡ false)
next_available_leet_mask-free_example =
    next_available_leet_mask-free flag (first ∷ []) (rw four (omega arith))

abbrev random : Random
random = record { token = []; number = 0 }

-- The second user of the flag gets mask 2: "flag{t3st}".
second_text :
    (materialize_flag
      (λ challenge text. length text)
      (λ text. text)
      random
      8
      21
      flag
      (first ∷ [])).0
    ≡ rendered (102 ∷ 108 ∷ 97 ∷ 103 ∷ 123 ∷ 116 ∷ 51 ∷ 115 ∷ 116 ∷ 125 ∷ [])
unfolding materialize_flag next_available_leet_mask generate_series render_generated_flag
    render_from leet_scope positions_from inside_random_token match_indices first_outside
    last_outside text_bytes starts_with
second_text = refl

first-AllMasked : AllMasked flag (first ∷ [])
first-AllMasked a (inl same) own =
    subst (λ x. IsMasked flag x) same
      (record { mask = 1; plain = refl; masked = refl; small = rw four (omega arith) })
first-AllMasked a (inr none_left) own = absurd none_left

materialize_flag-distinct_example :
    render_generated_flag template none (some 1)
    ≢ 102 ∷ 108 ∷ 97 ∷ 103 ∷ 123 ∷ 116 ∷ 51 ∷ 115 ∷ 116 ∷ 125 ∷ []
unfolding match_indices starts_with
materialize_flag-distinct_example =
    materialize_flag-distinct (λ challenge text. length text) (λ text. text) random 8 21 flag policy
      (first ∷ []) (102 ∷ 108 ∷ 97 ∷ 103 ∷ 123 ∷ 116 ∷ 51 ∷ 115 ∷ 116 ∷ 125 ∷ []) first refl refl
      refl refl first-AllMasked (inl refl) refl second_text
