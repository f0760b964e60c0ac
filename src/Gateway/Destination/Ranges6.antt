-- ===== src/Gateway/Destination/Ranges6.antt =====
-- services/ssh-gateway/src/destination.rs: that a range of private or reserved IPv6 addresses is a
-- union of networks with the prefix that the range asks for.
use ctfdpp.Base.{ℕ, ◌/◌, ◌%◌, ◌≡◌, ◌≤◌, ◌⊎◌, some, arith}
use ctfdpp.Gateway.Address.{v6}
use ctfdpp.Gateway.Destination.{sensitive_minimum_prefix}

pub v6_prefixes :
    (a m : ℕ)
    → sensitive_minimum_prefix (v6 a) ≡ some m
    → (m ≡ 96)
      ⊎ (m ≡ 48)
      ⊎ (m ≡ 64)
      ⊎ (m ≡ 7)
      ⊎ (m ≡ 10)
      ⊎ (m ≡ 32)
      ⊎ (m ≡ 23)
      ⊎ (m ≡ 16)
      ⊎ (m ≡ 20)
unfolding sensitive_minimum_prefix
v6_prefixes a m h = ground arith

v6_class96 :
    (a : ℕ)
    → sensitive_minimum_prefix (v6 a) ≡ some 96
    → (a / 0x100000000 ≡ 0)
      ⊎ ((a / 0x10000000000000000000000000000 ≡ 0x64)
          × (a / 0x1000000000000000000000000 % 0x10000 ≡ 0xff9b)
          × (a / 0x100000000 % 0x10000000000000000 ≡ 0))
unfolding sensitive_minimum_prefix
v6_class96 a h = ground arith

v6_in96 :
    (b : ℕ)
    → (b / 0x100000000 ≡ 0)
      ⊎ ((b / 0x10000000000000000000000000000 ≡ 0x64)
          × (b / 0x1000000000000000000000000 % 0x10000 ≡ 0xff9b)
          × (b / 0x100000000 % 0x10000000000000000 ≡ 0))
    → sensitive_minimum_prefix (v6 b) ≡ some 96
unfolding sensitive_minimum_prefix
v6_in96 b h = ground arith

pub v6_scope96 :
    (a b : ℕ)
    → sensitive_minimum_prefix (v6 a) ≡ some 96
    → a / 0x100000000 ≡ b / 0x100000000
    → sensitive_minimum_prefix (v6 b) ≡ some 96
v6_scope96 a b h same = let c = v6_class96 a h in v6_in96 b (ground arith)

v6_class48 :
    (a : ℕ)
    → sensitive_minimum_prefix (v6 a) ≡ some 48
    → (a / 0x10000000000000000000000000000 ≡ 0x64)
      × (a / 0x1000000000000000000000000 % 0x10000 ≡ 0xff9b)
      × (a / 0x100000000000000000000 % 0x10000 ≡ 1)
unfolding sensitive_minimum_prefix
v6_class48 a h = ground arith

v6_in48 :
    (b : ℕ)
    → (b / 0x10000000000000000000000000000 ≡ 0x64)
      × (b / 0x1000000000000000000000000 % 0x10000 ≡ 0xff9b)
      × (b / 0x100000000000000000000 % 0x10000 ≡ 1)
    → sensitive_minimum_prefix (v6 b) ≡ some 48
unfolding sensitive_minimum_prefix
v6_in48 b h = ground arith

pub v6_scope48 :
    (a b : ℕ)
    → sensitive_minimum_prefix (v6 a) ≡ some 48
    → a / 0x100000000000000000000 ≡ b / 0x100000000000000000000
    → sensitive_minimum_prefix (v6 b) ≡ some 48
v6_scope48 a b h same = let c = v6_class48 a h in v6_in48 b (ground arith)

v6_class64 :
    (a : ℕ)
    → sensitive_minimum_prefix (v6 a) ≡ some 64
    → (a / 0x10000000000000000000000000000 ≡ 0x100)
      × (a / 0x10000000000000000 % 0x1000000000000 ≡ 0)
unfolding sensitive_minimum_prefix
v6_class64 a h = ground arith

v6_in64 :
    (b : ℕ)
    → (b / 0x10000000000000000000000000000 ≡ 0x100)
      × (b / 0x10000000000000000 % 0x1000000000000 ≡ 0)
    → sensitive_minimum_prefix (v6 b) ≡ some 64
unfolding sensitive_minimum_prefix
v6_in64 b h = ground arith

pub v6_scope64 :
    (a b : ℕ)
    → sensitive_minimum_prefix (v6 a) ≡ some 64
    → a / 0x10000000000000000 ≡ b / 0x10000000000000000
    → sensitive_minimum_prefix (v6 b) ≡ some 64
v6_scope64 a b h same = let c = v6_class64 a h in v6_in64 b (ground arith)

v6_class7 :
    (a : ℕ)
    → sensitive_minimum_prefix (v6 a) ≡ some 7
    → a / 0x10000000000000000000000000000 / 0x200 ≡ 126
unfolding sensitive_minimum_prefix
v6_class7 a h = ground arith

v6_in7 :
    (b : ℕ)
    → b / 0x10000000000000000000000000000 / 0x200 ≡ 126
    → sensitive_minimum_prefix (v6 b) ≡ some 7
unfolding sensitive_minimum_prefix
v6_in7 b h = ground arith

pub v6_scope7 :
    (a b : ℕ)
    → sensitive_minimum_prefix (v6 a) ≡ some 7
    → a / 0x2000000000000000000000000000000 ≡ b / 0x2000000000000000000000000000000
    → sensitive_minimum_prefix (v6 b) ≡ some 7
v6_scope7 a b h same = let c = v6_class7 a h in v6_in7 b (ground arith)

v6_class10 :
    (a : ℕ)
    → sensitive_minimum_prefix (v6 a) ≡ some 10
    → a / 0x10000000000000000000000000000 / 64 ≡ 0x3fb
unfolding sensitive_minimum_prefix
v6_class10 a h = ground arith

v6_in10 :
    (b : ℕ)
    → b / 0x10000000000000000000000000000 / 64 ≡ 0x3fb
    → sensitive_minimum_prefix (v6 b) ≡ some 10
unfolding sensitive_minimum_prefix
v6_in10 b h = ground arith

pub v6_scope10 :
    (a b : ℕ)
    → sensitive_minimum_prefix (v6 a) ≡ some 10
    → a / 0x400000000000000000000000000000 ≡ b / 0x400000000000000000000000000000
    → sensitive_minimum_prefix (v6 b) ≡ some 10
v6_scope10 a b h same = let c = v6_class10 a h in v6_in10 b (ground arith)

v6_class32 :
    (a : ℕ)
    → sensitive_minimum_prefix (v6 a) ≡ some 32
    → (a / 0x10000000000000000000000000000 ≡ 0x2001)
      × (a / 0x1000000000000000000000000 % 0x10000 ≡ 0xdb8)
unfolding sensitive_minimum_prefix
v6_class32 a h = ground arith

v6_in32 :
    (b : ℕ)
    → (b / 0x10000000000000000000000000000 ≡ 0x2001)
      × (b / 0x1000000000000000000000000 % 0x10000 ≡ 0xdb8)
    → sensitive_minimum_prefix (v6 b) ≡ some 32
unfolding sensitive_minimum_prefix
v6_in32 b h = ground arith

pub v6_scope32 :
    (a b : ℕ)
    → sensitive_minimum_prefix (v6 a) ≡ some 32
    → a / 0x1000000000000000000000000 ≡ b / 0x1000000000000000000000000
    → sensitive_minimum_prefix (v6 b) ≡ some 32
v6_scope32 a b h same = let c = v6_class32 a h in v6_in32 b (ground arith)

v6_class23 :
    (a : ℕ)
    → sensitive_minimum_prefix (v6 a) ≡ some 23
    → (a / 0x10000000000000000000000000000 ≡ 0x2001)
      × (a / 0x1000000000000000000000000 % 0x10000 ≤ 0x1ff)
unfolding sensitive_minimum_prefix
v6_class23 a h = ground arith

v6_in23 :
    (b : ℕ)
    → (b / 0x10000000000000000000000000000 ≡ 0x2001)
      × (b / 0x1000000000000000000000000 % 0x10000 ≤ 0x1ff)
    → sensitive_minimum_prefix (v6 b) ≡ some 23
unfolding sensitive_minimum_prefix
v6_in23 b h = ground arith

pub v6_scope23 :
    (a b : ℕ)
    → sensitive_minimum_prefix (v6 a) ≡ some 23
    → a / 0x200000000000000000000000000 ≡ b / 0x200000000000000000000000000
    → sensitive_minimum_prefix (v6 b) ≡ some 23
v6_scope23 a b h same = let c = v6_class23 a h in v6_in23 b (ground arith)

v6_class16 :
    (a : ℕ)
    → sensitive_minimum_prefix (v6 a) ≡ some 16
    → a / 0x10000000000000000000000000000 ≡ 0x2002
unfolding sensitive_minimum_prefix
v6_class16 a h = ground arith

v6_in16 :
    (b : ℕ)
    → b / 0x10000000000000000000000000000 ≡ 0x2002
    → sensitive_minimum_prefix (v6 b) ≡ some 16
unfolding sensitive_minimum_prefix
v6_in16 b h = ground arith

pub v6_scope16 :
    (a b : ℕ)
    → sensitive_minimum_prefix (v6 a) ≡ some 16
    → a / 0x10000000000000000000000000000 ≡ b / 0x10000000000000000000000000000
    → sensitive_minimum_prefix (v6 b) ≡ some 16
v6_scope16 a b h same = let c = v6_class16 a h in v6_in16 b (ground arith)

v6_class20 :
    (a : ℕ)
    → sensitive_minimum_prefix (v6 a) ≡ some 20
    → (a / 0x10000000000000000000000000000 ≡ 0x3fff)
      × (a / 0x1000000000000000000000000 % 0x10000 / 0x1000 ≡ 0)
unfolding sensitive_minimum_prefix
v6_class20 a h = ground arith

v6_in20 :
    (b : ℕ)
    → (b / 0x10000000000000000000000000000 ≡ 0x3fff)
      × (b / 0x1000000000000000000000000 % 0x10000 / 0x1000 ≡ 0)
    → sensitive_minimum_prefix (v6 b) ≡ some 20
unfolding sensitive_minimum_prefix
v6_in20 b h = ground arith

pub v6_scope20 :
    (a b : ℕ)
    → sensitive_minimum_prefix (v6 a) ≡ some 20
    → a / 0x1000000000000000000000000000 ≡ b / 0x1000000000000000000000000000
    → sensitive_minimum_prefix (v6 b) ≡ some 20
v6_scope20 a b h same = let c = v6_class20 a h in v6_in20 b (ground arith)
