-- ===== src/Gateway/Address.antt =====
-- `std::net::IpAddr`, as services/ssh-gateway/src/destination.rs and rate_limit.rs use it: an address
-- is a number of 32 or of 128 bits, its octets and segments are parts of that number.
use ctfdpp.Base.{
  ℕ, ◌/◌, ◌%◌, Bool, true, false, Option, none, some, ltb, ◌==◌, if◌then◌else◌, ◌≡◌, ◌↔◌, ap, arith,
}
use ctfdpp.Base.Keyed.{Eq}

pub data IpAddr : Type 0 where
  v4 : ℕ → IpAddr
  v6 : ℕ → IpAddr

-- The first two octets of an IPv4 address.
abbrev pub first_octet : ℕ → ℕ
first_octet a = a / 0x1000000

abbrev pub second_octet : ℕ → ℕ
second_octet a = a / 0x10000 % 0x100

abbrev pub segment_0 : ℕ → ℕ
segment_0 a = a / 0x10000000000000000000000000000

abbrev pub segment_1 : ℕ → ℕ
segment_1 a = a / 0x1000000000000000000000000 % 0x10000

abbrev pub segment_2 : ℕ → ℕ
segment_2 a = a / 0x100000000000000000000 % 0x10000

-- `to_ipv4_mapped`: the last 32 bits of ::ffff:0:0/96.
abbrev pub to_ipv4_mapped : ℕ → Option ℕ
to_ipv4_mapped a = if a / 0x100000000 == 0xffff then some (a % 0x100000000) else none

-- `Ord` of `IpAddr`: the variants in order, then the octets.
abbrev pub address_ltb : IpAddr → IpAddr → Bool
address_ltb (v4 a) (v4 b) = ltb a b
address_ltb (v4 a) (v6 b) = true
address_ltb (v6 a) (v4 b) = false
address_ltb (v6 a) (v6 b) = ltb a b

abbrev pub address_beq : IpAddr → IpAddr → Bool
address_beq (v4 a) (v4 b) = a == b
address_beq (v4 a) (v6 b) = false
address_beq (v6 a) (v4 b) = false
address_beq (v6 a) (v6 b) = a == b

abbrev number_of : IpAddr → ℕ
number_of (v4 a) = a
number_of (v6 a) = a

pub beq_iff : (a b : IpAddr) → (address_beq a b ≡ true) ↔ (a ≡ b)
beq_iff (v4 a) (v4 b) =
    (λ h. let e : a ≡ b = ground arith in ap v4 e, λ h. let e = ap number_of h in ground arith)
beq_iff (v4 a) (v6 b) = (λ h. cc, λ h. cc)
beq_iff (v6 a) (v4 b) = (λ h. cc, λ h. cc)
beq_iff (v6 a) (v6 b) =
    (λ h. let e : a ≡ b = ground arith in ap v6 e, λ h. let e = ap number_of h in ground arith)

instance abbrev pub address_eq : Eq IpAddr
address_eq = record { beq = address_beq; beq_iff = beq_iff }
