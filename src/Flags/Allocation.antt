-- ===== src/Flags/Allocation.antt =====
-- services/api/src/routes/flag_policy.rs: `materialize_flag`, which allocates a user's flag. The HMAC
-- and the change of a text to lower case are parameters; a match tag is a number of 32 bytes. The
-- advisory lock makes the allocations of one flag a sequence.
pub mod Free
pub mod Distinct
use ctfdpp.Base.{
  ℕ, suc, zero, ◌+◌, ◌-◌, ◌^◌, ◌%◌, min, Bool, true, false, not, ◌&&◌, Option, none, some, List, [],
  ◌∷◌, ◌++◌, ◌==◌, leb, if◌then◌else◌, any, find, count_where, length, is_equal_to,
}
use ctfdpp.Flags.{match_indices, leet_positions, render_generated_flag}

pub record FlagPolicyData : Type 0 where
  pub case_sensitive : Bool
  pub leet_variation : Bool
  pub accept_other_users : Bool

-- A row of ctfzone.flags; `policy` is what `parse_policy` reads from its data.
pub record StoredFlag : Type 0 where
  pub id : ℕ
  pub content : List ℕ
  pub policy : Option FlagPolicyData
  pub revision : ℕ

-- A row of ctfzone.user_challenge_flags.
pub record Assignment : Type 0 where
  pub flag_id : ℕ
  pub challenge_id : ℕ
  pub user_id : ℕ
  pub definition_revision : ℕ
  pub match_tag : ℕ
  pub random_token : Option (List ℕ)
  pub leet_mask : Option ℕ
  pub leet_position_count : Option ℕ

abbrev pub of_flag : ℕ → Assignment → Bool
of_flag flag_id a = a.flag_id == flag_id

abbrev pub of_user : ℕ → ℕ → Assignment → Bool
of_user flag_id user_id a = of_flag flag_id a && a.user_id == user_id

abbrev pub has_mask : ℕ → ℕ → Assignment → Bool
has_mask flag_id candidate a = of_flag flag_id a && is_equal_to candidate a.leet_mask

-- `generate_series(1, n)`
unfoldable pub generate_series : ℕ → List ℕ
generate_series zero = []
generate_series (suc n) = generate_series n ++ suc n ∷ []

-- `((1_u64 << position_count) - 1) as i64`, exact for at most 62 positions (MAX_LEET_POSITIONS)
abbrev pub leet_capacity : List ℕ → ℕ
leet_capacity template = 2 ^ length (leet_positions template) - 1

-- `unavailable` is what `fetch_one` returns when the query has no row.
pub data NextMask : Type 0 where
  exhausted unavailable : NextMask
  available : ℕ → NextMask

abbrev pub is_free : ℕ → List Assignment → ℕ → Bool
is_free flag_id rows candidate = not (any (has_mask flag_id candidate) rows)

abbrev chosen_mask : Option ℕ → NextMask
chosen_mask none = unavailable
chosen_mask (some mask) = available mask

unfoldable pub next_available_leet_mask : StoredFlag → List Assignment → NextMask
next_available_leet_mask flag rows =
    let capacity = leet_capacity flag.content in
    let assigned = count_where (of_flag flag.id) rows in
    if leb capacity assigned
    then exhausted
    else chosen_mask (find (is_free flag.id rows) (generate_series (min capacity (assigned + 1))))

pub data Allocation : Type 0 where
  rendered : List ℕ → Allocation
  definition_changed options_invalid space_exhausted not_unique database_error : Allocation

-- The random values of one call.
pub record Random : Type 0 where
  pub token : List ℕ
  pub number : ℕ

-- `str::contains`
abbrev pub has_placeholder : List ℕ → Bool
has_placeholder content = leb 1 (length (match_indices 0 0 content))

module _ (match_tag : ℕ → List ℕ → ℕ) (to_lowercase : List ℕ → List ℕ) (random : Random) where
  abbrev pub tag_of : Bool → ℕ → List ℕ → ℕ
  tag_of case_sensitive challenge_id flag =
      match_tag challenge_id (if case_sensitive then flag else to_lowercase flag)

  abbrev pub same_tag : ℕ → ℕ → Assignment → Bool
  same_tag challenge_id tag a = a.challenge_id == challenge_id && a.match_tag == tag

  -- The INSERT, with the unique key of the table.
  abbrev pub inserted : List Assignment → Assignment → List ℕ → Allocation × List Assignment
  inserted rows row text =
      if any (same_tag row.challenge_id row.match_tag) rows
      then (not_unique, rows)
      else (rendered text, rows ++ row ∷ [])

  abbrev pub positions_of : Bool → List ℕ → Option ℕ
  positions_of leet_variation content =
      if leet_variation then some (length (leet_positions content)) else none

  abbrev pub allocated :
      ℕ
      → ℕ
      → StoredFlag
      → FlagPolicyData
      → List Assignment
      → Option (List ℕ)
      → Option ℕ
      → Allocation × List Assignment
  allocated challenge_id user_id flag policy rows token mask =
      let text = render_generated_flag flag.content token mask in
      inserted rows
        (record {
          flag_id = flag.id;
          challenge_id = challenge_id;
          user_id = user_id;
          definition_revision = flag.revision;
          match_tag = tag_of policy.case_sensitive challenge_id text;
          random_token = token;
          leet_mask = mask;
          leet_position_count = positions_of policy.leet_variation flag.content;
        })
        text

  abbrev pub with_next_mask :
      ℕ
      → ℕ
      → StoredFlag
      → FlagPolicyData
      → List Assignment
      → NextMask
      → Allocation × List Assignment
  with_next_mask challenge_id user_id flag policy rows exhausted = (space_exhausted, rows)
  with_next_mask challenge_id user_id flag policy rows unavailable = (database_error, rows)
  with_next_mask challenge_id user_id flag policy rows (available mask) =
      allocated challenge_id user_id flag policy rows none (some mask)

  abbrev pub with_policy :
      ℕ → ℕ → StoredFlag → List Assignment → Option FlagPolicyData → Allocation × List Assignment
  with_policy challenge_id user_id flag rows none = (options_invalid, rows)
  with_policy challenge_id user_id flag rows (some policy) =
      if policy.leet_variation
      then (if has_placeholder flag.content
          then allocated challenge_id user_id flag policy rows (some random.token)
              (some (random.number % leet_capacity flag.content + 1))
          else with_next_mask challenge_id user_id flag policy rows
              (next_available_leet_mask flag rows))
      else allocated challenge_id user_id flag policy rows
          (if has_placeholder flag.content then some random.token else none) none

  abbrev pub with_existing :
      ℕ → ℕ → StoredFlag → List Assignment → Option Assignment → Allocation × List Assignment
  with_existing challenge_id user_id flag rows none =
      with_policy challenge_id user_id flag rows flag.policy
  with_existing challenge_id user_id flag rows (some row) =
      if row.definition_revision == flag.revision
      then (rendered (render_generated_flag flag.content row.random_token row.leet_mask), rows)
      else (definition_changed, rows)

  unfoldable pub materialize_flag :
      ℕ → ℕ → StoredFlag → List Assignment → Allocation × List Assignment
  materialize_flag challenge_id user_id flag rows =
      with_existing challenge_id user_id flag rows (find (of_user flag.id user_id) rows)
