-- ===== src/Protocol.antt =====
-- internal/protocol/protocol.go: the identifiers on the wire.
use akastr_agent.Base.{
  ℕ, ◌++◌, replicate, String, Bool, true, false, ◌&&◌, ◌||◌, List, [], ◌∷◌, leb, ◌==◌, codes,
}

-- [0-9a-f]
abbrev hex_digit : ℕ → Bool
hex_digit c = (leb b'0' c && leb c b'9') || (leb b'a' c && leb c b'f')

-- A pattern is matched one place at a time.
pub data Place : Type 0 where
  hex dash version variant : Place

unfoldable pub matches_place : Place → ℕ → Bool
matches_place hex c = hex_digit c
matches_place dash c = c == b'-'
matches_place version c = leb b'1' c && leb c b'5'
matches_place variant c = c == b'8' || c == b'9' || c == b'a' || c == b'b'

unfoldable pub matches_places : List Place → List ℕ → Bool
unfolding matches_place
matches_places [] [] = true
matches_places (p ∷ ps) (c ∷ cs) = matches_place p c && matches_places ps cs
matches_places _ _ = false

unfoldable pub uuid_places : List Place
uuid_places =
    replicate 8 hex
    ++ dash
      ∷ (replicate 4 hex
          ++ dash
            ∷ version
            ∷ (replicate 3 hex ++ dash ∷ variant ∷ (replicate 3 hex ++ dash ∷ replicate 12 hex)))

-- ValidUUID: canonicalUUID.MatchString
unfoldable pub valid_uuid : String → Bool
unfolding matches_places uuid_places
valid_uuid s = matches_places uuid_places (codes s)
