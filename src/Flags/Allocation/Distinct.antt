-- ===== src/Flags/Allocation/Distinct.antt =====
-- services/api/src/routes/flag_policy.rs: that the generated flags of different users differ.
use native.Mathlib.Nat.{one-le-pow}
use ctfdpp.Base.{
  ℕ, ◌^◌, ◌≤◌, ◌<◌, ◌≡◌, ◌≢◌, ◌∙◌, sym, ap, subst, refl, inl, inr, Bool, true, false, Option, none,
  some, List, [], ◌∷◌, leb, if◌then◌else◌, any, find, count_where, length, arith, Bool-cases, Elem,
}
use ctfdpp.Flags.{leet_positions, render_generated_flag}
use ctfdpp.Flags.Variants.{render_generated_flag-injective}
use ctfdpp.Flags.Allocation.{
  StoredFlag, FlagPolicyData, Assignment, of_flag, of_user, has_mask, leet_capacity, NextMask,
  exhausted, unavailable, with_existing, with_policy, available, next_available_leet_mask,
  Allocation, rendered, Random, materialize_flag, has_placeholder, allocated, with_next_mask,
  same_tag, tag_of,
}
use ctfdpp.Flags.Allocation.Free.{next_available_leet_mask-free}

any-Elem :
    (p : Assignment → Bool) (rows : List Assignment) (a : Assignment)
    → Elem a rows
    → any p rows ≡ false
    → p a ≡ false
any-Elem p [] a here h = absurd here
any-Elem p (x ∷ rows) a (inl same) h = subst (λ z. p z ≡ false) same (ground arith)
any-Elem p (x ∷ rows) a (inr there) h = any-Elem p rows a there (ground arith)

abbrev text_or : List ℕ → Allocation → List ℕ
text_or d (rendered text) = text
text_or d other = d

abbrev outcome_of : Allocation × List Assignment → Allocation
outcome_of r = r.0

abbrev mask_or_zero : NextMask → ℕ
mask_or_zero (available m) = m
mask_or_zero exhausted = 0
mask_or_zero unavailable = 0

inner_branch :
    {A : Type 0} (a b : Bool) (x y z : A)
    → a ≡ true
    → b ≡ false
    → (if a then (if b then x else y) else z) ≡ y
inner_branch a b x y z h g = rw (h, g) refl

available_room :
    (flag : StoredFlag) (rows : List Assignment) (m : ℕ)
    → next_available_leet_mask flag rows ≡ available m
    → count_where (of_flag flag.id) rows < leet_capacity flag.content
unfolding next_available_leet_mask
available_room flag rows m e =
    elim (Bool-cases (leb (leet_capacity flag.content) (count_where (of_flag flag.id) rows))) [
      | inl full ↦ let k = rw full at e in cc
      | inr room ↦ ground arith
    ]

power_pos : (n : ℕ) → 1 ≤ 2 ^ n
power_pos n = one-le-pow n 2 (omega arith)

-- An assignment with one of the template's masks and no random token.
pub record IsMasked (flag : StoredFlag) (a : Assignment) : Type 0 where
  pub mask : ℕ
  pub plain : a.random_token ≡ none
  pub masked : a.leet_mask ≡ some mask
  pub small : mask ≤ leet_capacity flag.content

abbrev pub AllMasked : StoredFlag → List Assignment → Type 0
AllMasked flag rows = (a : Assignment) → Elem a rows → of_flag flag.id a ≡ true → IsMasked flag a

module _ (match_tag : ℕ → List ℕ → ℕ) (to_lowercase : List ℕ → List ℕ) (random : Random) where
  allocated-text :
      (challenge_id user_id : ℕ) (flag : StoredFlag) (policy : FlagPolicyData)
      (rows : List Assignment) (token : Option (List ℕ)) (mask : Option ℕ) (text : List ℕ)
      → (allocated match_tag to_lowercase random challenge_id user_id flag policy rows token mask).0
        ≡ rendered text
      → render_generated_flag flag.content token mask ≡ text
  allocated-text challenge_id user_id flag policy rows token mask text h =
      elim (Bool-cases (any (same_tag match_tag to_lowercase random challenge_id tag) rows)) [
        | inl clash ↦ let k = rw clash at h in cc
        | inr unique ↦ ap (text_or []) (rw unique at h)
      ]
    where
      tag : ℕ
      tag =
          tag_of match_tag to_lowercase random policy.case_sensitive challenge_id
            (render_generated_flag flag.content token mask)

  -- The new flag differs from the flag of any one mask that is taken.
  distinct_mask :
      (challenge_id user_id : ℕ) (flag : StoredFlag) (policy : FlagPolicyData)
      (rows : List Assignment) (text : List ℕ) (other : Assignment) (mask : ℕ)
      → flag.policy ≡ some policy
      → policy.leet_variation ≡ true
      → has_placeholder flag.content ≡ false
      → find (of_user flag.id user_id) rows ≡ none
      → Elem other rows
      → of_flag flag.id other ≡ true
      → other.leet_mask ≡ some mask
      → mask ≤ leet_capacity flag.content
      → (materialize_flag match_tag to_lowercase random challenge_id user_id flag rows).0
        ≡ rendered text
      → render_generated_flag flag.content none (some mask) ≢ text
  unfolding materialize_flag
  distinct_mask challenge_id user_id flag policy rows text other mask options leet plain new member
        own masked small done same =
      go (next_available_leet_mask flag rows) refl
    where
      from_mask :
          (materialize_flag match_tag to_lowercase random challenge_id user_id flag rows).0
          ≡ (with_next_mask match_tag to_lowercase random challenge_id user_id flag policy rows
              (next_available_leet_mask flag rows)).0
      from_mask =
          ap (λ o. (with_existing match_tag to_lowercase random challenge_id user_id flag rows o).0)
            new
          ∙ ap (λ o. (with_policy match_tag to_lowercase random challenge_id user_id flag rows o).0)
              options
          ∙ ap outcome_of
              (inner_branch policy.leet_variation (has_placeholder flag.content) _ _ _ leet plain)

      by_mask :
          {next : NextMask}
          → next_available_leet_mask flag rows ≡ next
          → (with_next_mask match_tag to_lowercase random challenge_id user_id flag policy rows
              next).0
            ≡ rendered text
      by_mask e =
          sym (
            ap
              (λ n.
                (with_next_mask match_tag to_lowercase random challenge_id user_id flag policy rows
                  n).0)
              e)
          ∙ sym from_mask
          ∙ done

      go : (next : NextMask) → next_available_leet_mask flag rows ≡ next → ⊥
      go exhausted e = let k = by_mask e in cc
      go unavailable e = let k = by_mask e in cc
      go (available m) e =
          let k = by_mask e in
          let room = available_room flag rows m e in
          let free = next_available_leet_mask-free flag rows room in
          let own_mask : free.0 ≡ m = ap mask_or_zero (sym free.1 ∙ e) in
          let power = power_pos (length (leet_positions flag.content)) in
          let below : free.0 ≤ leet_capacity flag.content = free.2.1 in
          let equal : mask ≡ m =
            render_generated_flag-injective flag.content none mask m (omega arith) (omega arith) (
              same
              ∙ sym (allocated-text challenge_id user_id flag policy rows none (some m) text k)) in
          let unused = any-Elem (has_mask flag.id free.0) rows other member free.3 in ground arith

  -- A flag definition with leet variation and without a random token, of whose assignments each has one
  -- of the template's masks and no token (`materialize_flag-AllMasked`): a user without an assignment
  -- of the definition who is given a flag gets one that differs from the flag of every assignment of
  -- the definition.
  pub materialize_flag-distinct :
      (challenge_id user_id : ℕ) (flag : StoredFlag) (policy : FlagPolicyData)
      (rows : List Assignment) (text : List ℕ) (other : Assignment)
      → flag.policy ≡ some policy
      → policy.leet_variation ≡ true
      → has_placeholder flag.content ≡ false
      → find (of_user flag.id user_id) rows ≡ none
      → AllMasked flag rows
      → Elem other rows
      → of_flag flag.id other ≡ true
      → (materialize_flag match_tag to_lowercase random challenge_id user_id flag rows).0
        ≡ rendered text
      → render_generated_flag flag.content other.random_token other.leet_mask ≢ text
  materialize_flag-distinct challenge_id user_id flag policy rows text other options leet plain new
        all_masked member own done same =
      let m = all_masked other member own in
      distinct_mask challenge_id user_id flag policy rows text other m.mask options leet plain new
        member own m.masked m.small done
        (sym (ap (λ t. render_generated_flag flag.content t (some m.mask)) m.plain)
          ∙ sym (ap (λ k. render_generated_flag flag.content other.random_token k) m.masked)
          ∙ same)
