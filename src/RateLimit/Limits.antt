-- ===== src/RateLimit/Limits.antt =====
-- The targets of internal/modules/ratelimit/ratelimit.go as decoded, and what host.go and rules.go
-- read of an output of tc.
use akastr_agent.Base.{
  ℕ, suc, String, Bool, false, ◌&&◌, ◌||◌, not, Option, none, some, List, [], ◌∷◌, Assoc, get, put,
  length, ltb, is, if◌then◌else◌, String-discrete, codes, is_infix,
}
use akastr_agent.RateLimit.{Target, Rule, Installed}
use akastr_agent.RateLimit.Converge.{has_name}

abbrev pub max_mbps : ℕ
max_mbps = 10000

-- The code of a target that is not fully applied; none is the empty text.
pub data Code : Type 0 where
  fine log_unavailable apply_failed : Code

unfoldable pub has_own_filter : List ℕ → Bool
has_own_filter out = is_infix (codes "pref 49001 ") out || is_infix (codes "pref 49002 ") out

-- The loop of decodeTarget over the emails, with what it has seen.
unfoldable pub emails_invalid : (String → Bool) → List String → List String → Bool
emails_invalid owned seen [] = false
emails_invalid owned seen (e ∷ es) =
    let rest = emails_invalid owned (e ∷ seen) es in not (owned e) || has_name seen e || rest

-- `decode` is the strict decoder and `owned` the pattern of the emails the panel module owns.
unfoldable pub decode_target :
    {Raw : Type 0} → (Raw → Option Target) → (String → Bool) → Raw → Option Target
decode_target decode owned raw = elim (decode raw) [
  | none ↦ none
  | some t ↦ if ltb max_mbps t.down_mbps || emails_invalid owned [] t.emails then none else some t
]

-- want[dev]
unfoldable pub count_filters : String → Assoc Rule Installed → ℕ
count_filters dev [] = 0
count_filters dev ((x, i) ∷ m) =
    let rest = count_filters dev m in if is (String-discrete x.dev dev) then suc rest else rest

unfoldable pub count_lines : List (List ℕ) → ℕ
count_lines [] = 0
count_lines (l ∷ ls) =
    let rest = count_lines ls in
    if has_own_filter l && is_infix (codes "handle 0x") l then suc rest else rest

-- The limits Cloud names; a target of which nothing can be read keeps what its group had.
unfoldable pub limits_of :
    {Raw : Type 0}
    → (Raw → Option Target)
    → Assoc String Target
    → Assoc String (Option Raw)
    → Assoc String Target
limits_of decode old [] = []
limits_of decode old ((key, raw) ∷ targets) =
    let rest = limits_of decode old targets in
    elim raw [
      | none ↦ elim (get old key) [ none ↦ rest | some t ↦ put rest key t ]
      | some r ↦ elim (decode r) [
        | none ↦ rest
        | some t ↦ if ltb 0 t.down_mbps && ltb 0 (length t.emails) then put rest key t else rest
      ]
    ]

unfoldable pub codes_for : {V : Type 0} → Code → Assoc String V → Assoc String Code
codes_for c [] = []
codes_for c ((key, v) ∷ m) = put (codes_for c m) key c
