-- ===== src/Operation/Token.antt =====
-- The regular expression stableToken of internal/operation/engine.go.
use akastr_agent.Base.{
  codes, ℕ, String, Bool, true, false, ◌&&◌, ◌||◌, List, [], ◌∷◌, leb, ◌==◌, length,
}

-- [a-z0-9]
abbrev head_char : ℕ → Bool
head_char c = (leb b'a' c && leb c b'z') || (leb b'0' c && leb c b'9')

-- [a-z0-9._-]
abbrev tail_char : ℕ → Bool
tail_char c = head_char c || c == b'.' || c == b'_' || c == b'-'

all_tail : List ℕ → Bool
all_tail [] = true
all_tail (c ∷ cs) = tail_char c && all_tail cs

matches : List ℕ → Bool
unfolding all_tail
matches [] = false
matches (c ∷ cs) = head_char c && leb (length cs) 127 && all_tail cs

-- stableToken.MatchString
unfoldable pub stable_token : String → Bool
unfolding matches
stable_token s = matches (codes s)
