-- ===== src/Gateway/Destination/Ranges4.antt =====
-- services/ssh-gateway/src/destination.rs: that a range of private or reserved IPv4 addresses is a
-- union of networks with the prefix that the range asks for.
use ctfdpp.Base.{ℕ, ◌/◌, ◌%◌, ◌≡◌, ◌⊎◌, some, arith}
use ctfdpp.Gateway.Address.{v4}
use ctfdpp.Gateway.Destination.{sensitive_minimum_prefix}

pub v4_prefixes :
    (a m : ℕ)
    → sensitive_minimum_prefix (v4 a) ≡ some m
    → (m ≡ 8) ⊎ (m ≡ 10) ⊎ (m ≡ 12) ⊎ (m ≡ 16) ⊎ (m ≡ 24) ⊎ (m ≡ 15) ⊎ (m ≡ 4)
unfolding sensitive_minimum_prefix
v4_prefixes a m h = ground arith

pub v4_scope8 :
    (a b : ℕ)
    → sensitive_minimum_prefix (v4 a) ≡ some 8
    → a / 0x1000000 ≡ b / 0x1000000
    → sensitive_minimum_prefix (v4 b) ≡ some 8
unfolding sensitive_minimum_prefix
v4_scope8 a b h same = ground arith

pub v4_scope10 :
    (a b : ℕ)
    → sensitive_minimum_prefix (v4 a) ≡ some 10
    → a / 0x400000 ≡ b / 0x400000
    → sensitive_minimum_prefix (v4 b) ≡ some 10
unfolding sensitive_minimum_prefix
v4_scope10 a b h same =
    let f : a / 0x1000000 ≡ b / 0x1000000 = omega arith in
    let g : a / 0x10000 % 0x100 / 64 ≡ b / 0x10000 % 0x100 / 64 = omega arith in ground arith

pub v4_scope12 :
    (a b : ℕ)
    → sensitive_minimum_prefix (v4 a) ≡ some 12
    → a / 0x100000 ≡ b / 0x100000
    → sensitive_minimum_prefix (v4 b) ≡ some 12
unfolding sensitive_minimum_prefix
v4_scope12 a b h same =
    let f : a / 0x1000000 ≡ b / 0x1000000 = omega arith in
    let g : a / 0x10000 % 0x100 / 16 ≡ b / 0x10000 % 0x100 / 16 = omega arith in ground arith

pub v4_scope16 :
    (a b : ℕ)
    → sensitive_minimum_prefix (v4 a) ≡ some 16
    → a / 0x10000 ≡ b / 0x10000
    → sensitive_minimum_prefix (v4 b) ≡ some 16
unfolding sensitive_minimum_prefix
v4_scope16 a b h same =
    let f : a / 0x1000000 ≡ b / 0x1000000 = omega arith in
    let g : a / 0x10000 % 0x100 ≡ b / 0x10000 % 0x100 = omega arith in ground arith

pub v4_scope24 :
    (a b : ℕ)
    → sensitive_minimum_prefix (v4 a) ≡ some 24
    → a / 0x100 ≡ b / 0x100
    → sensitive_minimum_prefix (v4 b) ≡ some 24
unfolding sensitive_minimum_prefix
v4_scope24 a b h same =
    let f : a / 0x1000000 ≡ b / 0x1000000 = omega arith in
    let g : a / 0x10000 % 0x100 ≡ b / 0x10000 % 0x100 = omega arith in ground arith

pub v4_scope15 :
    (a b : ℕ)
    → sensitive_minimum_prefix (v4 a) ≡ some 15
    → a / 0x20000 ≡ b / 0x20000
    → sensitive_minimum_prefix (v4 b) ≡ some 15
unfolding sensitive_minimum_prefix
v4_scope15 a b h same =
    let f : a / 0x1000000 ≡ b / 0x1000000 = omega arith in
    let g : a / 0x10000 % 0x100 / 2 ≡ b / 0x10000 % 0x100 / 2 = omega arith in ground arith

pub v4_scope4 :
    (a b : ℕ)
    → sensitive_minimum_prefix (v4 a) ≡ some 4
    → a / 0x10000000 ≡ b / 0x10000000
    → sensitive_minimum_prefix (v4 b) ≡ some 4
unfolding sensitive_minimum_prefix
v4_scope4 a b h same = ground arith
