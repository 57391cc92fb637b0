-- ===== src/Xui/Targets.antt =====
-- internal/modules/xui/module.go: what a target is checked for, alone and against an inbound. The
-- strict decoder, base64 and what unicode says of a comment are parameters.
use akastr_agent.Base.{
  ℕ, String, Bool, true, false, not, ◌&&◌, ◌||◌, ◌==◌, ltb, leb, Option, none, some, List, [], ◌∷◌,
  length, is, if◌then◌else◌, String-discrete, has_prefix, codes, Result, ok, err,
}
use akastr_agent.Protocol.{valid_uuid}
use akastr_agent.Xui.{Client, InboundId, at, below, Code, inbound_changed}

abbrev pub max_safe_int : ℕ
max_safe_int = 9007199254740991

abbrev pub is_text : String → String → Bool
is_text s t = is (String-discrete s t)

-- [a-z0-9]
unfoldable pub owned_char : ℕ → Bool
owned_char c = (leb b'a' c && leb c b'z') || (leb b'0' c && leb c b'9')

unfoldable pub all_owned : List ℕ → Bool
all_owned [] = true
all_owned (c ∷ cs) = owned_char c && all_owned cs

unfoldable pub owned_codes : List ℕ → Bool
owned_codes (a ∷ k ∷ d ∷ cs) =
    a == b'a' && k == b'k' && d == b'-' && leb 1 (length cs) && leb (length cs) 61 && all_owned cs
owned_codes _ = false

-- Owned: the pattern ^ak-[a-z0-9]{1,61}$
unfoldable pub owned : String → Bool
owned s = owned_codes (codes s)

unfoldable pub vision_flow : String
vision_flow = "xtls-rprx-vision"

unfoldable pub has_text : List String → String → Bool
has_text [] s = false
has_text (t ∷ ts) s = is_text t s || has_text ts s

-- strings.ContainsAny(s, "\x00\r\n\"")
unfoldable pub unprintable : List ℕ → Bool
unprintable [] = false
unprintable (c ∷ cs) = c == 0 || c == 13 || c == 10 || c == 34 || unprintable cs

-- `bytes` is len, the number of bytes of a text.
module _ (bytes : String → ℕ) (valid_comment : String → Bool) where
  unfoldable pub invalid_client : List String → List String → Client → Bool
  invalid_client emails credentials c =
      not (owned c.email)
      || has_text emails c.email
      || has_text credentials c.credential
      || ltb (bytes c.credential) 16
      || ltb 256 (bytes c.credential)
      || unprintable (codes c.credential)
      || (not (is_text c.flow "") && not (is_text c.flow vision_flow))
      || ltb max_safe_int c.total_bytes
      || ltb max_safe_int c.reset_seq
      || not (valid_comment c.comment)

  -- The loop of decodeTarget, whose elements are what the strict decoder reads; none is an error.
  unfoldable pub check_clients :
      List String → List String → List (Option Client) → Option (List Client)
  check_clients emails credentials [] = some []
  check_clients emails credentials (none ∷ cs) = none
  check_clients emails credentials (some c ∷ cs) =
      let rest = check_clients (c.email ∷ emails) (c.credential ∷ credentials) cs in
      if invalid_client emails credentials c
      then none
      else elim rest [ none ↦ none | some done ↦ some (c ∷ done) ]

-- id < 1
unfoldable pub below_one : InboundId → Bool
below_one (at n) = ltb n 1
below_one (below n) = true

-- decodeTarget: `itoa` is strconv.Itoa, and `decode` the strict decoder of the document, which reads
-- none, a document without clients, or one with what it reads of each.
unfoldable pub decode_target :
    {Raw : Type 0}
    → (String → ℕ)
    → (String → Bool)
    → (String → Option InboundId)
    → (InboundId → String)
    → (Raw → Option (Option (List (Option Client))))
    → String
    → Raw
    → Option (List Client)
decode_target bytes valid_comment atoi itoa decode key raw = elim (atoi key) [
  | none ↦ none
  | some id ↦ if below_one id || not (is_text (itoa id) key) then none else elim (decode raw) [
    | none ↦ none
    | some o ↦ elim o [ none ↦ none | some cs ↦ check_clients bytes valid_comment [] [] cs ]
  ]
]

-- credentialField
unfoldable pub credential_field : String → String
credential_field proto =
    if is_text proto "trojan" || is_text proto "shadowsocks"
    then "password"
    else if is_text proto "hysteria" || is_text proto "hysteria2"
    then "auth"
    else "id"

unfoldable pub ss2022 : String → String → Bool
ss2022 proto method = is_text proto "shadowsocks" && has_prefix method "2022-"

-- `key_size` is the number of bytes that base64 decodes, or none.
unfoldable pub misfit : (String → Option ℕ) → String → String → Client → Bool
misfit key_size proto method c =
    if not (is_text c.flow "") && not (is_text proto "vless")
    then true
    else if is_text proto "vless"
    then not (valid_uuid c.credential)
    else if ss2022 proto method
    then elim (key_size c.credential) [
      | none ↦ true
      | some n ↦ not (n == (if is_text method "2022-blake3-aes-128-gcm" then 16 else 32))
    ]
    else not (is_text proto "hysteria" || is_text proto "hysteria2")

-- compatible
unfoldable pub compatible :
    (String → Option ℕ) → String → String → List Client → Result Code (Unit {0})
compatible key_size proto method [] = ok tt
compatible key_size proto method (c ∷ cs) =
    let rest = compatible key_size proto method cs in
    if misfit key_size proto method c then err inbound_changed else rest
