-- ===== src/Gateway/Destination/Scope.antt =====
-- services/ssh-gateway/src/destination.rs: which networks admit a private or reserved address.
use native.Mathlib.Nat.{div-div-eq-div-mul}
use native.Mathlib.Numerals.{unary_clauses}
use ctfdpp.Base.{
  ℕ, suc, zero, ◌+◌, ◌-◌, ◌/◌, ◌^◌, ◌≤◌, ◌≡◌, ◌⊎◌, inl, inr, sym, ap, ◌∙◌, Bool, true, false, some,
  arith,
}
use ctfdpp.Gateway.Address.{IpAddr, v4, v6}
use ctfdpp.Gateway.Destination.Ranges4.{
  v4_prefixes, v4_scope8, v4_scope10, v4_scope12, v4_scope16, v4_scope24, v4_scope15, v4_scope4,
}
use ctfdpp.Gateway.Destination.Ranges6.{
  v6_prefixes, v6_scope96, v6_scope48, v6_scope64, v6_scope7, v6_scope10, v6_scope32, v6_scope23,
  v6_scope16, v6_scope20,
}
use ctfdpp.Gateway.Destination.{sensitive_minimum_prefix, admits}

-- Numbers that agree above the low `k` bits agree above any more.
coarser : (d k a b : ℕ) → a / 2 ^ k ≡ b / 2 ^ k → a / 2 ^ (k + d) ≡ b / 2 ^ (k + d)
coarser zero k a b h = simp unary_clauses h
coarser (suc d) k a b h = halve a ∙ ap (λ n. n / 2) (coarser d k a b h) ∙ sym (halve b)
  where
    halve : (n : ℕ) → n / 2 ^ (k + suc d) ≡ n / 2 ^ (k + d) / 2
    halve n = simp unary_clauses (sym (div-div-eq-div-mul n (2 ^ (k + d)) 2))

-- Two addresses of one network agree on every prefix that is no longer than the network's.
shorter_prefix :
    (w m len a b : ℕ)
    → m ≤ len
    → a / 2 ^ (w - len) ≡ b / 2 ^ (w - len)
    → a / 2 ^ (w - m) ≡ b / 2 ^ (w - m)
shorter_prefix w m len a b short h =
    let same : (w - len) + ((w - m) - (w - len)) ≡ w - m = omega arith in
    let wide = coarser ((w - m) - (w - len)) (w - len) a b h in
    ap (λ k. a / 2 ^ k) (sym same) ∙ wide ∙ ap (λ k. b / 2 ^ k) same

scope_v4 :
    (a b m : ℕ)
    → sensitive_minimum_prefix (v4 a) ≡ some m
    → a / 2 ^ (32 - m) ≡ b / 2 ^ (32 - m)
    → sensitive_minimum_prefix (v4 b) ≡ some m
scope_v4 a b m h same = by_prefix (v4_prefixes a m h)
  where
    at :
        (n : ℕ)
        → m ≡ n
        → (sensitive_minimum_prefix (v4 a) ≡ some n
            → a / 2 ^ (32 - n) ≡ b / 2 ^ (32 - n)
            → sensitive_minimum_prefix (v4 b) ≡ some n)
        → sensitive_minimum_prefix (v4 b) ≡ some m
    at n e f = rw e (f (rw e at h) (rw e at same))

    by_prefix :
        (m ≡ 8) ⊎ (m ≡ 10) ⊎ (m ≡ 12) ⊎ (m ≡ 16) ⊎ (m ≡ 24) ⊎ (m ≡ 15) ⊎ (m ≡ 4)
        → sensitive_minimum_prefix (v4 b) ≡ some m
    by_prefix (inl e) = at 8 e (v4_scope8 a b)
    by_prefix (inr (inl e)) = at 10 e (v4_scope10 a b)
    by_prefix (inr (inr (inl e))) = at 12 e (v4_scope12 a b)
    by_prefix (inr (inr (inr (inl e)))) = at 16 e (v4_scope16 a b)
    by_prefix (inr (inr (inr (inr (inl e))))) = at 24 e (v4_scope24 a b)
    by_prefix (inr (inr (inr (inr (inr (inl e)))))) = at 15 e (v4_scope15 a b)
    by_prefix (inr (inr (inr (inr (inr (inr e)))))) = at 4 e (v4_scope4 a b)

scope_v6 :
    (a b m : ℕ)
    → sensitive_minimum_prefix (v6 a) ≡ some m
    → a / 2 ^ (128 - m) ≡ b / 2 ^ (128 - m)
    → sensitive_minimum_prefix (v6 b) ≡ some m
scope_v6 a b m h same = by_prefix (v6_prefixes a m h)
  where
    at :
        (n : ℕ)
        → m ≡ n
        → (sensitive_minimum_prefix (v6 a) ≡ some n
            → a / 2 ^ (128 - n) ≡ b / 2 ^ (128 - n)
            → sensitive_minimum_prefix (v6 b) ≡ some n)
        → sensitive_minimum_prefix (v6 b) ≡ some m
    at n e f = rw e (f (rw e at h) (rw e at same))

    by_prefix :
        (m ≡ 96)
          ⊎ (m ≡ 48)
          ⊎ (m ≡ 64)
          ⊎ (m ≡ 7)
          ⊎ (m ≡ 10)
          ⊎ (m ≡ 32)
          ⊎ (m ≡ 23)
          ⊎ (m ≡ 16)
          ⊎ (m ≡ 20)
        → sensitive_minimum_prefix (v6 b) ≡ some m
    by_prefix (inl e) = at 96 e (v6_scope96 a b)
    by_prefix (inr (inl e)) = at 48 e (v6_scope48 a b)
    by_prefix (inr (inr (inl e))) = at 64 e (v6_scope64 a b)
    by_prefix (inr (inr (inr (inl e)))) = at 7 e (v6_scope7 a b)
    by_prefix (inr (inr (inr (inr (inl e))))) = at 10 e (v6_scope10 a b)
    by_prefix (inr (inr (inr (inr (inr (inl e)))))) = at 32 e (v6_scope32 a b)
    by_prefix (inr (inr (inr (inr (inr (inr (inl e))))))) = at 23 e (v6_scope23 a b)
    by_prefix (inr (inr (inr (inr (inr (inr (inr (inl e)))))))) = at 16 e (v6_scope16 a b)
    by_prefix (inr (inr (inr (inr (inr (inr (inr (inr e)))))))) = at 20 e (v6_scope20 a b)

-- What the documentation of `ipnet` says of `contains` and `prefix_len`: a network holds addresses of
-- one family that agree on its prefix.
module _ {Net : Type 0} (contains : Net → IpAddr → Bool) (prefix_len : Net → ℕ)
    (prefix_v4 : (n : Net) (a b : ℕ)
      → contains n (v4 a) ≡ true
      → contains n (v4 b) ≡ true
      → a / 2 ^ (32 - prefix_len n) ≡ b / 2 ^ (32 - prefix_len n))
    (prefix_v6 : (n : Net) (a b : ℕ)
      → contains n (v6 a) ≡ true
      → contains n (v6 b) ≡ true
      → a / 2 ^ (128 - prefix_len n) ≡ b / 2 ^ (128 - prefix_len n))
    (one_family : (n : Net) (a b : ℕ) → contains n (v4 a) ≡ true → contains n (v6 b) ≡ false) where
  admits_parts :
      (a : IpAddr) (n : Net) (m : ℕ)
      → sensitive_minimum_prefix a ≡ some m
      → admits contains prefix_len a n ≡ true
      → (contains n a ≡ true) × (m ≤ prefix_len n)
  unfolding admits
  admits_parts a n m h g = let k = rw h at g in ground arith

  -- A network that admits an address of a private or reserved range holds only addresses of ranges
  -- with the same least prefix: to reach one private address, the operator must have named a network
  -- that is private as a whole.
  pub admits-same_scope :
      (a b : IpAddr) (n : Net) (m : ℕ)
      → sensitive_minimum_prefix a ≡ some m
      → admits contains prefix_len a n ≡ true
      → contains n b ≡ true
      → sensitive_minimum_prefix b ≡ some m
  admits-same_scope (v4 a) (v4 b) n m h g inside =
      let p = admits_parts (v4 a) n m h g in
      scope_v4 a b m h (shorter_prefix 32 m (prefix_len n) a b p.1 (prefix_v4 n a b p.0 inside))
  admits-same_scope (v6 a) (v6 b) n m h g inside =
      let p = admits_parts (v6 a) n m h g in
      scope_v6 a b m h (shorter_prefix 128 m (prefix_len n) a b p.1 (prefix_v6 n a b p.0 inside))
  admits-same_scope (v4 a) (v6 b) n m h g inside =
      let p = admits_parts (v4 a) n m h g in let f = one_family n a b p.0 in cc
  admits-same_scope (v6 a) (v4 b) n m h g inside =
      let p = admits_parts (v6 a) n m h g in let f = one_family n b a inside in cc
