-- ===== src/Gateway/Destination.antt =====
-- services/ssh-gateway/src/destination.rs: which addresses a terminal session may connect to.
-- `ipnet::IpNet` is a parameter, with its `contains` and `prefix_len`.
pub mod Ranges4
pub mod Ranges6
pub mod Scope
pub mod Resolution
use ctfdpp.Base.{
  ℕ, ◌/◌, ◌%◌, ◌*◌, ◌++◌, Bool, true, false, not, ◌&&◌, ◌||◌, Option, none, some, String, List, [],
  ◌∷◌, ltb, leb, ◌==◌, if◌then◌else◌, any, is_empty, byte_length, all_chars, starts_with_char,
  is_ascii_alphanumeric, is_ascii,
}
use ctfdpp.Gateway.Address.{
  IpAddr, v4, v6, first_octet, second_octet, segment_0, segment_1, segment_2, to_ipv4_mapped,
  address_ltb, address_beq,
}
use ctfdpp.Gateway.Policy.{Config, port_allowed}

-- `characters` of the test of `safe_hostname`
abbrev is_destination_char : ℕ → Bool
is_destination_char c = is_ascii_alphanumeric c || c == b'.' || c == b':' || c == b'_' || c == b'-'

unfoldable pub safe_hostname : String → Bool
safe_hostname value =
    not (is_empty value)
    && leb (byte_length value) 253
    && not (starts_with_char b'-' value)
    && all_chars is_ascii value
    && all_chars is_destination_char value

unfoldable pub intrinsically_unsafe : IpAddr → Bool
intrinsically_unsafe (v4 a) =
    a == 0
    || first_octet a == 127
    || (first_octet a == 169 && second_octet a == 254)
    || (leb 224 (first_octet a) && leb (first_octet a) 239)
    || a == 0xffffffff
    || a == 0xa9fea9fe
intrinsically_unsafe (v6 a) =
    a == 0 || a == 1 || segment_0 a / 0x100 == 0xff || segment_0 a / 64 * 64 == 0xfe80

-- The least prefix of an allowed network that admits the address, for the ranges of private and
-- reserved addresses. A mask that clears the low bits of a segment is a division and a product.
abbrev sensitive_v4 : ℕ → ℕ → Option ℕ
sensitive_v4 first second =
    if first == 0
    then some 8
    else if first == 10
    then some 8
    else if first == 100 && leb 64 second && leb second 127
    then some 10
    else if first == 172 && leb 16 second && leb second 31
    then some 12
    else if first == 192 && second == 168
    then some 16
    else if first == 192 && second == 0
    then some 24
    else if first == 192 && second == 0x02
    then some 24
    else if first == 198 && leb 18 second && leb second 19
    then some 15
    else if first == 198 && second == 51
    then some 24
    else if first == 203 && second == 0
    then some 24
    else if leb 240 first && leb first 255
    then some 4
    else none

-- `segments[2..6]`, `segments[1..4]` and `segments[..6]` as numbers
abbrev segments_2_6 : ℕ → ℕ
segments_2_6 a = a / 0x100000000 % 0x10000000000000000

abbrev segments_1_4 : ℕ → ℕ
segments_1_4 a = a / 0x10000000000000000 % 0x1000000000000

abbrev segments_0_6 : ℕ → ℕ
segments_0_6 a = a / 0x100000000

abbrev sensitive_v6 : ℕ → Option ℕ
sensitive_v6 a =
    if segments_0_6 a == 0
      || (segment_0 a == 0x0064 && segment_1 a == 0xff9b && segments_2_6 a == 0)
    then some 96
    else if segment_0 a == 0x0064 && segment_1 a == 0xff9b && segment_2 a == 1
    then some 48
    else if segment_0 a == 0x0100 && segments_1_4 a == 0
    then some 64
    else if segment_0 a / 0x200 * 0x200 == 0xfc00
    then some 7
    else if segment_0 a / 64 * 64 == 0xfec0
    then some 10
    else if segment_0 a == 0x2001 && segment_1 a == 0x0db8
    then some 32
    else if segment_0 a == 0x2001 && leb (segment_1 a) 0x01ff
    then some 23
    else if segment_0 a == 0x2002
    then some 16
    else if segment_0 a == 0x3fff && segment_1 a / 0x1000 == 0
    then some 20
    else none

unfoldable pub sensitive_minimum_prefix : IpAddr → Option ℕ
sensitive_minimum_prefix (v4 a) = sensitive_v4 (first_octet a) (second_octet a)
sensitive_minimum_prefix (v6 a) = sensitive_v6 a

-- `Option::is_none_or` with the comparison of the closure
abbrev pub wide_enough : Option ℕ → ℕ → Bool
wide_enough none prefix = true
wide_enough (some minimum) prefix = leb minimum prefix

-- `BTreeSet::insert`: ascending, without repeats
unfoldable pub insert_address : IpAddr → List IpAddr → List IpAddr
insert_address a [] = a ∷ []
insert_address a (b ∷ bs) =
    let rest = insert_address a bs in
    if address_ltb a b then a ∷ b ∷ bs else if address_beq a b then b ∷ bs else b ∷ rest

unfoldable pub collect_addresses : List IpAddr → List IpAddr
collect_addresses [] = []
collect_addresses (a ∷ answers) = insert_address a (collect_addresses answers)

pub data ResolveError : Type 0 where
  port_outside invalid_hostname lookup_timed_out lookup_failed no_address interfaces_failed
        disallowed_address :
      ResolveError

pub data Resolved {ℓ} (A : Type ℓ) : Type ℓ where
  ok : A → Resolved A
  err : ResolveError → Resolved A

-- What the name service answers, if it answers in time.
pub data Lookup : Type 0 where
  timed_out failed : Lookup
  answered : List IpAddr → Lookup

abbrev mapped_or : IpAddr → Option ℕ → IpAddr
mapped_or a none = a
mapped_or a (some mapped) = v4 mapped

-- The address that the rules are applied to.
abbrev pub canonical : IpAddr → IpAddr
canonical (v4 a) = v4 a
canonical (v6 a) = mapped_or (v6 a) (to_ipv4_mapped a)

module _ {Net : Type 0} (contains : Net → IpAddr → Bool) (prefix_len : Net → ℕ) where
  -- The closure over the allowed networks, and the one over the denied ones.
  unfoldable pub admits : IpAddr → Net → Bool
  admits a network =
      contains network a && wide_enough (sensitive_minimum_prefix a) (prefix_len network)

  abbrev denies : IpAddr → Net → Bool
  denies a network = contains network a

  abbrev address_checked : Config Net → IpAddr → List Net → Bool
  address_checked config a runtime_local_networks =
      if intrinsically_unsafe a
      then false
      else if any (denies a) (config.local_denied_cidrs ++ runtime_local_networks)
      then false
      else any (admits a) config.allowed_cidrs

  unfoldable pub address_allowed_with_local : Config Net → IpAddr → List Net → Bool
  address_allowed_with_local config a runtime_local_networks =
      address_checked config (canonical a) runtime_local_networks

  abbrev disallowed : Config Net → List Net → IpAddr → Bool
  disallowed config local a = not (address_allowed_with_local config a local)

  abbrev first_address : List IpAddr → Resolved IpAddr
  first_address [] = err no_address
  first_address (a ∷ addresses) = ok a

  unfoldable pub select_resolved_address : Config Net → List IpAddr → List Net → Resolved IpAddr
  select_resolved_address config [] local = err no_address
  select_resolved_address config (a ∷ addresses) local =
      if any (disallowed config local) (a ∷ addresses)
      then err disallowed_address
      else first_address (a ∷ addresses)

  abbrev with_port : ℕ → Resolved IpAddr → Resolved (IpAddr × ℕ)
  with_port port (ok a) = ok (a, port)
  with_port port (err e) = err e

  -- `local_interface_networks` fails or lists the networks.
  abbrev with_networks : Config Net → ℕ → List IpAddr → Option (List Net) → Resolved (IpAddr × ℕ)
  with_networks config port addresses none = err interfaces_failed
  with_networks config port addresses (some local) =
      with_port port (select_resolved_address config addresses local)

  abbrev with_answers : Config Net → ℕ → Option (List Net) → List IpAddr → Resolved (IpAddr × ℕ)
  with_answers config port local [] = err no_address
  with_answers config port local (a ∷ addresses) = with_networks config port (a ∷ addresses) local

  abbrev with_lookup : Config Net → ℕ → Option (List Net) → Lookup → Resolved (IpAddr × ℕ)
  with_lookup config port local timed_out = err lookup_timed_out
  with_lookup config port local failed = err lookup_failed
  with_lookup config port local (answered answers) =
      with_answers config port local (collect_addresses answers)

  unfoldable pub resolve :
      Config Net → Lookup → Option (List Net) → String → ℕ → Resolved (IpAddr × ℕ)
  resolve config lookup local hostname port =
      if not (port_allowed config port)
      then err port_outside
      else if not (safe_hostname hostname)
      then err invalid_hostname
      else with_lookup config port local lookup
