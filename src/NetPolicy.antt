-- ===== src/NetPolicy.antt =====
-- internal/netpolicy/public_ipv4.go: which addresses are public. An address is its number, of 32 or
-- 128 bits; what netip tells of an IPv6 address is an argument.
pub mod Ranges
mod Tests
use akastr_agent.Base.{
  ℕ, ◌+◌, ◌-◌, ◌*◌, ◌/◌, ◌^◌, ◌≤◌, ◌<◌, Bool, true, false, not, ◌&&◌, ◌||◌, List, [], ◌∷◌, ltb, leb,
  ◌==◌, if◌then◌else◌, ◌≡◌, arith,
}

-- An address as netip.Addr has it: IPv4, IPv6, or IPv4 mapped into IPv6
pub data Address : Type 0 where
  ipv4 : ℕ → Address
  mapped : ℕ → Address
  ipv6 : ℕ → Address

-- netip.Prefix of an address of this many bits
pub record Prefix : Type 0 where
  pub base : ℕ
  pub host_bits : ℕ

-- Contains
unfoldable pub covers : Prefix → ℕ → Bool
covers p a = a / 2 ^ p.host_bits == p.base / 2 ^ p.host_bits

unfoldable pub dotted : ℕ → ℕ → ℕ → ℕ → ℕ
dotted a b c d = ((a * 256 + b) * 256 + c) * 256 + d

unfoldable pub prefix_of : ℕ → ℕ → Prefix
prefix_of base bits = record { base = base; host_bits = 32 - bits }

unfoldable pub non_public_ipv4 : List Prefix
non_public_ipv4 =
    prefix_of (dotted 0 0 0 0) 8
    ∷ prefix_of (dotted 10 0 0 0) 8
    ∷ prefix_of (dotted 100 64 0 0) 10
    ∷ prefix_of (dotted 127 0 0 0) 8
    ∷ prefix_of (dotted 169 254 0 0) 16
    ∷ prefix_of (dotted 172 16 0 0) 12
    ∷ prefix_of (dotted 192 0 0 0) 24
    ∷ prefix_of (dotted 192 0 2 0) 24
    ∷ prefix_of (dotted 192 88 99 0) 24
    ∷ prefix_of (dotted 192 168 0 0) 16
    ∷ prefix_of (dotted 198 18 0 0) 15
    ∷ prefix_of (dotted 198 51 100 0) 24
    ∷ prefix_of (dotted 203 0 113 0) 24
    ∷ prefix_of (dotted 224 0 0 0) 4
    ∷ prefix_of (dotted 240 0 0 0) 4
    ∷ []

unfoldable pub any_covers : List Prefix → ℕ → Bool
any_covers [] a = false
any_covers (p ∷ ps) a = covers p a || any_covers ps a

-- IsPublicIPv4; Unmap makes an IPv4 address of one mapped into IPv6.
unfoldable pub is_public_ipv4 : Address → Bool
is_public_ipv4 (ipv4 a) = not (any_covers non_public_ipv4 a)
is_public_ipv4 (mapped a) = not (any_covers non_public_ipv4 a)
is_public_ipv4 (ipv6 a) = false

-- ipv6SpecialPurpose
pub record SpecialPurpose : Type 0 where
  pub prefix : Prefix
  pub globally_reachable : Bool

-- The first prefix of the list that contains the address decides.
unfoldable pub special : List SpecialPurpose → ℕ → Bool
special [] a = true
special (s ∷ ss) a =
    let rest = special ss a in if covers s.prefix a then s.globally_reachable else rest

unfoldable pub special_of : ℕ → ℕ → Bool → SpecialPurpose
special_of base bits reachable = record {
  prefix = record { base = base; host_bits = 128 - bits };
  globally_reachable = reachable;
}

-- From 2001:1::1/128 to 5f00::/16, in the order of the source
unfoldable pub special_purpose_ipv6 : List SpecialPurpose
special_purpose_ipv6 =
    special_of 42540488241204005274814694018844196865 128 true
    ∷ special_of 42540488241204005274814694018844196866 128 true
    ∷ special_of 42540488241204005274814694018844196867 128 true
    ∷ special_of 42540488399660330303343369205932097536 32 true
    ∷ special_of 42540488479219738492182115193345540096 48 true
    ∷ special_of 42540490697277043217009159418706657280 28 true
    ∷ special_of 42540491964927643445238560915409862656 28 true
    ∷ special_of 524413980668812575603097810486951936 48 false
    ∷ special_of 1329227995784915872903807060280344576 64 false
    ∷ special_of 1329227995784915891350551133989896192 64 false
    ∷ special_of 42540488161975842760550356425300246528 23 false
    ∷ special_of 42540766411282592856903984951653826560 32 false
    ∷ special_of 42545680458834377588178886921629466624 16 false
    ∷ special_of 85065399433376081038215121361612832768 20 false
    ∷ special_of 126276659599567007925861670726632734720 16 false
    ∷ []

-- IsPublicIPv6; `unicast` is whether netip has the address as global
-- unicast, and neither private, loopback nor link-local.
unfoldable pub is_public_ipv6 : (ℕ → Bool) → Address → Bool
is_public_ipv6 unicast (ipv6 a) = unicast a && special special_purpose_ipv6 a
is_public_ipv6 unicast _ = false
