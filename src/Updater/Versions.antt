-- ===== src/Updater/Versions.antt =====
-- internal/update/client.go: versions. The pattern semanticVersion and strconv.ParseUint read a text
-- together: its numbers are canonical, and those from 2 ^ 64 on are refused.
use akastr_agent.Base.{
  ℕ, ◌+◌, ◌-◌, ◌*◌, ◌<◌, String, Bool, true, false, not, ◌&&◌, Option, none, some, List, [], ◌∷◌,
  ltb, leb, ◌==◌, if◌then◌else◌, codes, ◌≡◌, refl, arith, ◌↔◌,
}

-- versionParts
pub record VersionParts : Type 0 where
  pub major : ℕ
  pub minor : ℕ
  pub patch : ℕ

unfoldable pub digit : ℕ → Bool
digit c = leb b'0' c && leb c b'9'

-- The digits that a text starts with, and what is left
unfoldable pub span_digits : List ℕ → List ℕ × List ℕ
span_digits [] = ([], [])
span_digits (c ∷ cs) =
    let rest = span_digits cs in if digit c then (c ∷ rest.0, rest.1) else ([], c ∷ cs)

unfoldable pub value_from : ℕ → List ℕ → ℕ
value_from n [] = n
value_from n (c ∷ cs) = value_from (n * 10 + (c - b'0')) cs

-- 0|[1-9][0-9]*
unfoldable pub canonical : List ℕ → Bool
canonical [] = false
canonical (c ∷ []) = true
canonical (c ∷ d ∷ cs) = not (c == b'0')

unfoldable pub number_of : List ℕ → Option ℕ
number_of ds =
    let n = value_from 0 ds in if canonical ds && ltb n 18446744073709551616 then some n else none

-- What stands between the numbers
unfoldable pub after_dot : List ℕ → Option (List ℕ)
after_dot [] = none
after_dot (c ∷ cs) = if c == b'.' then some cs else none

unfoldable pub parse_patch : ℕ → ℕ → List ℕ → Option VersionParts
parse_patch a b cs =
    let s = span_digits cs in
    elim s.1 [
      | (_ ∷ _) ↦ none
      | [] ↦ elim (number_of s.0) [
        | none ↦ none
        | some c ↦ some (record { major = a; minor = b; patch = c })
      ]
    ]

unfoldable pub parse_minor : ℕ → List ℕ → Option VersionParts
parse_minor a cs =
    let s = span_digits cs in
    elim (after_dot s.1) [
      | none ↦ none
      | some rest ↦ elim (number_of s.0) [ none ↦ none | some b ↦ parse_patch a b rest ]
    ]

unfoldable pub parse_major : List ℕ → Option VersionParts
parse_major cs =
    let s = span_digits cs in
    elim (after_dot s.1) [
      | none ↦ none
      | some rest ↦ elim (number_of s.0) [ none ↦ none | some a ↦ parse_minor a rest ]
    ]

unfoldable pub parse_codes : List ℕ → Option VersionParts
parse_codes [] = none
parse_codes (c ∷ cs) = if c == b'v' then parse_major cs else none

-- parseVersion; none is an error.
unfoldable pub parse_version : String → Option VersionParts
parse_version s = parse_codes (codes s)

-- compareVersion, whether it is below zero
unfoldable pub older : VersionParts → VersionParts → Bool
older l r =
    if not (l.major == r.major)
    then ltb l.major r.major
    else if not (l.minor == r.minor)
    then ltb l.minor r.minor
    else ltb l.patch r.patch

-- The version as one number
abbrev pub rank : VersionParts → ℕ
rank v = (v.major * 18446744073709551616 + v.minor) * 18446744073709551616 + v.patch

abbrev pub Small : VersionParts → Type 0
Small v =
    (v.major < 18446744073709551616)
    × (v.minor < 18446744073709551616)
    × (v.patch < 18446744073709551616)

-- The order of versions is that of their numbers.
pub older-rank : (l r : VersionParts) → Small l → Small r → (older l r ≡ true) ↔ (rank l < rank r)
unfolding older
older-rank l r hl hr = ground (arith, hl, hr)

number_of_small : (ds : List ℕ) (n : ℕ) → number_of ds ≡ some n → n < 18446744073709551616
unfolding number_of
number_of_small ds n e = ground (arith, e)

parse_patch-Small :
    (a b : ℕ) (cs : List ℕ) (v : VersionParts)
    → a < 18446744073709551616
    → b < 18446744073709551616
    → parse_patch a b cs ≡ some v
    → Small v
unfolding parse_patch
parse_patch-Small a b cs v ha hb e = go (span_digits cs).1 (number_of (span_digits cs).0) refl e
  where
    go :
        (l : List ℕ) (n : Option ℕ)
        → number_of (span_digits cs).0 ≡ n
        → elim l as (λ _. Option VersionParts) [
          | (_ ∷ _) ↦ none
          | [] ↦ elim n [ none ↦ none | some c ↦ some (record { major = a; minor = b; patch = c }) ]
        ]
          ≡ some v
        → Small v
    go (x ∷ xs) n q t = ground (arith, t)
    go [] none q t = ground (arith, t)
    go [] (some c) q t = ground (arith, t, ha, hb, number_of_small (span_digits cs).0 c q)

parse_minor-Small :
    (a : ℕ) (cs : List ℕ) (v : VersionParts)
    → a < 18446744073709551616
    → parse_minor a cs ≡ some v
    → Small v
unfolding parse_minor
parse_minor-Small a cs v ha e =
    go (after_dot (span_digits cs).1) (number_of (span_digits cs).0) refl e
  where
    go :
        (o : Option (List ℕ)) (n : Option ℕ)
        → number_of (span_digits cs).0 ≡ n
        → elim o as (λ _. Option VersionParts) [
          | none ↦ none
          | some rest ↦ elim n [ none ↦ none | some b ↦ parse_patch a b rest ]
        ]
          ≡ some v
        → Small v
    go none n q t = ground (arith, t)
    go (some rest) none q t = ground (arith, t)
    go (some rest) (some b) q t =
        parse_patch-Small a b rest v ha (number_of_small (span_digits cs).0 b q) t

parse_major-Small : (cs : List ℕ) (v : VersionParts) → parse_major cs ≡ some v → Small v
unfolding parse_major
parse_major-Small cs v e = go (after_dot (span_digits cs).1) (number_of (span_digits cs).0) refl e
  where
    go :
        (o : Option (List ℕ)) (n : Option ℕ)
        → number_of (span_digits cs).0 ≡ n
        → elim o as (λ _. Option VersionParts) [
          | none ↦ none
          | some rest ↦ elim n [ none ↦ none | some a ↦ parse_minor a rest ]
        ]
          ≡ some v
        → Small v
    go none n q t = ground (arith, t)
    go (some rest) none q t = ground (arith, t)
    go (some rest) (some a) q t =
        parse_minor-Small a rest v (number_of_small (span_digits cs).0 a q) t

parse_codes-Small : (cs : List ℕ) (v : VersionParts) → parse_codes cs ≡ some v → Small v
unfolding parse_codes
parse_codes-Small [] v e = ground (arith, e)
parse_codes-Small (c ∷ cs) v e = ground (arith, e, parse_major-Small cs v)

-- The numbers of a version that is read fit 64 bits.
pub parse_version-Small : (s : String) (v : VersionParts) → parse_version s ≡ some v → Small v
unfolding parse_version
parse_version-Small s v e = parse_codes-Small (codes s) v e
