-- ===== src/NetPolicy/Ranges.antt =====
-- The IPv4 addresses that are not public, as ranges of numbers.
use native.Mathlib.Nat.{le-div_iff_mul-le}
use akastr_agent.Base.{
  ℕ, zero, suc, ◌<◌, ◌^◌, ◌*◌, ◌/◌, Bool, false, not, ◌&&◌, ◌||◌, List, [], ◌∷◌, leb, ltb, ◌==◌,
  ◌≡◌, refl, ap, ◌∙◌, arith,
}
use akastr_agent.NetPolicy.{
  ipv4, Prefix, covers, dotted, prefix_of, non_public_ipv4, any_covers, is_public_ipv4,
}

-- The first number of a range, and the first after it
abbrev pub Range : Type 0
Range = ℕ × ℕ

unfoldable pub within : List Range → ℕ → Bool
within [] a = false
within (r ∷ rs) a = (leb r.0 a && ltb a r.1) || within rs a

-- The addresses from 0.0.0.0 to 0.255.255.255, and so on
abbrev pub reserved : List Range
reserved =
    (0, 16777216)
    ∷ (167772160, 184549376)
    ∷ (1681915904, 1686110208)
    ∷ (2130706432, 2147483648)
    ∷ (2851995648, 2852061184)
    ∷ (2886729728, 2887778304)
    ∷ (3221225472, 3221225728)
    ∷ (3221225984, 3221226240)
    ∷ (3227017984, 3227018240)
    ∷ (3232235520, 3232301056)
    ∷ (3323068416, 3323199488)
    ∷ (3325256704, 3325256960)
    ∷ (3405803776, 3405804032)
    ∷ (3758096384, 4026531840)
    ∷ (4026531840, 4294967296)
    ∷ []

unfoldable range_of : Prefix → Range
range_of p = let size = 2 ^ p.host_bits in (p.base / size * size, suc (p.base / size) * size)

unfoldable ranges : List Prefix → List Range
ranges [] = []
ranges (p ∷ ps) = range_of p ∷ ranges ps

pow_positive : (n : ℕ) → 0 < 2 ^ n
pow_positive zero = omega arith
pow_positive (suc n) = omega (arith, pow_positive n)

div_range : (a s q : ℕ) → 0 < s → (a / s == q) ≡ (leb (q * s) a && ltb a (suc q * s))
div_range a s q h = ground (
  arith,
  le-div_iff_mul-le {k = s} {x = q} {y = a} h,
  le-div_iff_mul-le {k = s} {x = suc q} {y = a} h,
)

within-ranges : (ps : List Prefix) (a : ℕ) → any_covers ps a ≡ within (ranges ps) a
unfolding any_covers covers within ranges range_of
within-ranges [] a = refl
within-ranges (p ∷ ps) a = ground (
  arith,
  within-ranges ps a,
  div_range a (2 ^ p.host_bits) (p.base / 2 ^ p.host_bits) (pow_positive p.host_bits),
)

-- The ranges of the source's prefixes
ranges-non_public_ipv4 : ranges non_public_ipv4 ≡ reserved
unfolding ranges range_of non_public_ipv4 prefix_of dotted
ranges-non_public_ipv4 = refl

-- An IPv4 address is public exactly when its number lies in none of the reserved ranges.
pub is_public_ipv4-within : (a : ℕ) → is_public_ipv4 (ipv4 a) ≡ not (within reserved a)
unfolding is_public_ipv4
is_public_ipv4-within a =
    ap not (within-ranges non_public_ipv4 a ∙ ap (λ rs. within rs a) ranges-non_public_ipv4)
