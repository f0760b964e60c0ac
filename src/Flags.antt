-- ===== src/Flags.antt =====
-- services/api/src/routes/flag_policy.rs: the flags that are generated for each user. A text is the
-- list of its code points; positions in it are offsets in bytes, as in the source.
pub mod Slots
pub mod Described
pub mod Variants
pub mod Allocation
use ctfdpp.Base.{
  ℕ, suc, zero, ◌+◌, ◌-◌, ◌/◌, ◌%◌, ◌^◌, Bool, true, false, not, ◌&&◌, ◌||◌, Option, none, some,
  List, [], ◌∷◌, ◌++◌, ltb, leb, ◌==◌, if◌then◌else◌, any, length, char_bytes, starts_with, is_some,
}

-- "{{RANDOM_TOKEN}}"
abbrev pub random_token_placeholder : List ℕ
random_token_placeholder =
    123 ∷ 123 ∷ 82 ∷ 65 ∷ 78 ∷ 68 ∷ 79 ∷ 77 ∷ 95 ∷ 84 ∷ 79 ∷ 75 ∷ 69 ∷ 78 ∷ 125 ∷ 125 ∷ []

abbrev pub leet_replacement : ℕ → Option ℕ
leet_replacement c =
    if c == b'a' || c == b'A'
    then some b'4'
    else if c == b'e' || c == b'E'
    then some b'3'
    else if c == b'i' || c == b'I'
    then some b'1'
    else if c == b'o' || c == b'O'
    then some b'0'
    else if c == b's' || c == b'S'
    then some b'5'
    else if c == b't' || c == b'T'
    then some b'7'
    else none

-- `str::len`
unfoldable pub text_bytes : List ℕ → ℕ
text_bytes [] = 0
text_bytes (c ∷ cs) = char_bytes c + text_bytes cs

-- `match_indices(RANDOM_TOKEN_PLACEHOLDER)`: the starts of the matches that do not overlap. `skip` is
-- the number of characters of the last match that are still to pass.
unfoldable pub match_indices : ℕ → ℕ → List ℕ → List ℕ
match_indices skip offset [] = []
match_indices (suc skip) offset (c ∷ cs) = match_indices skip (offset + char_bytes c) cs
match_indices zero offset (c ∷ cs) =
    let after = match_indices 15 (offset + char_bytes c) cs in
    let next = match_indices 0 (offset + char_bytes c) cs in
    if starts_with random_token_placeholder (c ∷ cs) then offset ∷ after else next

abbrev pub covers : ℕ → ℕ → Bool
covers index start = leb start index && ltb index (start + 16)

unfoldable pub inside_random_token : List ℕ → ℕ → Bool
inside_random_token template index = any (covers index) (match_indices 0 0 template)

-- The first and the last character of the text that is the given one, outside the placeholders.
unfoldable pub first_outside : List ℕ → ℕ → ℕ → List ℕ → Option ℕ
first_outside template wanted offset [] = none
first_outside template wanted offset (c ∷ cs) =
    if c == wanted && not (inside_random_token template offset)
    then some offset
    else first_outside template wanted (offset + char_bytes c) cs

abbrev later_or : ℕ → Bool → Option ℕ → Option ℕ
later_or offset here (some later) = some later
later_or offset here none = if here then some offset else none

unfoldable pub last_outside : List ℕ → ℕ → ℕ → List ℕ → Option ℕ
last_outside template wanted offset [] = none
last_outside template wanted offset (c ∷ cs) =
    later_or offset (c == wanted && not (inside_random_token template offset))
      (last_outside template wanted (offset + char_bytes c) cs)

abbrev scope_between : List ℕ → Option ℕ → Option ℕ → ℕ × ℕ
scope_between template none close = (0, text_bytes template)
scope_between template (some open_at) none = (0, text_bytes template)
scope_between template (some open_at) (some close_at) =
    if ltb open_at close_at then (open_at + 1, close_at) else (0, text_bytes template)

unfoldable pub leet_scope : List ℕ → ℕ × ℕ
leet_scope template =
    scope_between template (first_outside template b'{' 0 template)
      (last_outside template b'}' 0 template)

abbrev pub in_scope : ℕ × ℕ → ℕ → Bool
in_scope scope index = leb scope.0 index && ltb index scope.1

unfoldable pub positions_from : List ℕ → ℕ → List ℕ → List ℕ
positions_from template offset [] = []
positions_from template offset (c ∷ cs) =
    let rest = positions_from template (offset + char_bytes c) cs in
    if in_scope (leet_scope template) offset
      && not (inside_random_token template offset)
      && is_some (leet_replacement c)
    then offset ∷ rest
    else rest

abbrev pub leet_positions : List ℕ → List ℕ
leet_positions template = positions_from template 0 template

-- `mask & (1 << leet_index) != 0`, without a mask never. The shift of a `u64` is exact: a definition
-- with leet variation has at most 62 positions.
abbrev pub replaces : Option ℕ → ℕ → Bool
replaces none leet_index = false
replaces (some mask) leet_index = mask / 2 ^ leet_index % 2 == 1

abbrev pub token_text : Option (List ℕ) → List ℕ
token_text (some token) = token
token_text none = random_token_placeholder

abbrev pub pushed_char : Option ℕ → ℕ → ℕ → ℕ → ℕ
pushed_char mask leet_index c replacement = if replaces mask leet_index then replacement else c

-- A character outside the placeholders, and the rest of the text with the next index.
abbrev pub rendered_char : Bool → Option ℕ → Option ℕ → ℕ → ℕ → (ℕ → List ℕ) → List ℕ
rendered_char false replacement mask leet_index c rest = c ∷ rest leet_index
rendered_char true none mask leet_index c rest = c ∷ rest leet_index
rendered_char true (some replacement) mask leet_index c rest =
    pushed_char mask leet_index c replacement ∷ rest (leet_index + 1)

-- The loop of `render_generated_flag`: the jump over a placeholder is `skip`.
unfoldable pub render_from : ℕ × ℕ → Option (List ℕ) → Option ℕ → ℕ → ℕ → List ℕ → ℕ → List ℕ
render_from scope token mask skip cursor [] leet_index = []
render_from scope token mask (suc skip) cursor (c ∷ cs) leet_index =
    render_from scope token mask skip (cursor + char_bytes c) cs leet_index
render_from scope token mask zero cursor (c ∷ cs) leet_index =
    let after = render_from scope token mask 15 (cursor + char_bytes c) cs leet_index in
    let next =
      rendered_char (in_scope scope cursor) (leet_replacement c) mask leet_index c
        (render_from scope token mask 0 (cursor + char_bytes c) cs) in
    if starts_with random_token_placeholder (c ∷ cs) then token_text token ++ after else next

unfoldable pub render_generated_flag : List ℕ → Option (List ℕ) → Option ℕ → List ℕ
render_generated_flag template token mask =
    render_from (leet_scope template) token mask 0 0 template 0
