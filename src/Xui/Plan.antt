-- ===== src/Xui/Plan.antt =====
-- internal/modules/xui/apply.go: plan. `parse_float` is strconv.ParseFloat of a text, where its value
-- is a natural number.
use akastr_agent.Base.{
  ℕ, ◌+◌, ◌-◌, String, Bool, true, false, not, ◌&&◌, ◌||◌, ◌==◌, ltb, Option, none, some, List, [],
  ◌∷◌, ◌++◌, length, Assoc, get, put, is, if◌then◌else◌, String-discrete, has_prefix, Result, ok,
  err, ◌>>◌, refuse, sort, str_leb,
}
use akastr_agent.Xui.{
  Value, text, number, flag, Value-discrete, Fields, Client, Stat, Inbound, Action, add, update,
  delete_client, Code, inbound_invalid, client_conflict,
}
use akastr_agent.Xui.Targets.{is_text, has_text, credential_field, compatible}

-- c[key].(string), the empty text for anything else
unfoldable pub text_of : Fields → String → String
text_of c key = elim (get c key) [ none ↦ "" | some v ↦ elim v [ text s ↦ s | _ ↦ "" ] ]

-- identity
unfoldable pub identity : String → Fields → String
identity proto c =
    if is_text proto "shadowsocks" then text_of c "email" else text_of c (credential_field proto)

unfoldable pub is_owned : Fields → Bool
is_owned c = has_prefix (text_of c "email") "ak-"

-- used[email]; a later entry of an email replaces an earlier one.
unfoldable pub used_map : List Stat → Assoc String ℕ → Assoc String ℕ
used_map [] m = m
used_map (s ∷ ss) m = used_map ss (put m s.email (s.up + s.down))

unfoldable pub used_of : Assoc String ℕ → String → ℕ
used_of m e = elim (get m e) [ none ↦ 0 | some n ↦ n ]

-- The loop over the clients: owned, and foreign as the list of its texts.
unfoldable pub owned_of : List Fields → Assoc String Fields → Assoc String Fields
owned_of [] m = m
owned_of (c ∷ cs) m = owned_of cs (if is_owned c then put m (text_of c "email") c else m)

unfoldable pub foreign_of : String → List Fields → List String
foreign_of proto [] = []
foreign_of proto (c ∷ cs) =
    let rest = foreign_of proto cs in
    let secret = text_of c (credential_field proto) in
    if is_owned c
    then rest
    else identity proto c ∷ (if is_text secret "" then rest else secret ∷ rest)

unfoldable pub owned_conflict : String → List String → Assoc String Fields → Bool
owned_conflict proto foreign [] = false
owned_conflict proto foreign ((e, c) ∷ m) =
    has_text foreign (identity proto c) || owned_conflict proto foreign m

unfoldable pub target_conflict : List String → List Client → Bool
target_conflict foreign [] = false
target_conflict foreign (c ∷ cs) = has_text foreign c.credential || target_conflict foreign cs

unfoldable pub target_has : List Client → String → Bool
target_has [] e = false
target_has (c ∷ cs) e = is_text c.email e || target_has cs e

-- The owned clients that the target does not name, sorted
unfoldable pub unwanted : List Client → Assoc String Fields → List String
unwanted cs [] = []
unwanted cs ((e, c) ∷ m) = let rest = unwanted cs m in if target_has cs e then rest else e ∷ rest

-- owned[email]; a Go map gives nil for what it does not hold.
unfoldable pub owned_at : Assoc String Fields → String → Fields
owned_at m e = elim (get m e) [ none ↦ [] | some c ↦ c ]

-- c["enable"] != false
unfoldable pub is_enabled : Fields → Bool
is_enabled c = elim (get c "enable") [ none ↦ true | some v ↦ elim v [ flag b ↦ b | _ ↦ true ] ]

unfoldable pub removals : String → Assoc String Fields → ℕ → List String → List Action
removals proto m remaining [] = []
removals proto m remaining (e ∷ es) =
    let c = owned_at m e in
    let fewer = removals proto m (remaining - 1) es in
    let same = removals proto m remaining es in
    if ltb 1 remaining
    then delete_client (identity proto c) ∷ fewer
    else if is_enabled c
    then update (identity proto c) (put c "enable" (flag false)) ∷ same
    else same

-- t.Enable && (t.TotalBytes == 0 || used[t.Email] < t.TotalBytes)
unfoldable pub enabled : Assoc String ℕ → Client → Bool
enabled used t = t.enable && (t.total_bytes == 0 || ltb (used_of used t.email) t.total_bytes)

-- fields
unfoldable pub fields_of : String → Assoc String ℕ → Client → Fields
fields_of proto used t =
    (credential_field proto, text t.credential)
    ∷ ("enable", flag (enabled used t))
    ∷ ("totalGB", number t.total_bytes)
    ∷ ("expiryTime", number 0)
    ∷ (if is_text proto "vless" then ("flow", text t.flow) ∷ [] else [])

unfoldable pub put_fields : Fields → Fields → Fields
put_fields [] c = c
put_fields ((k, v) ∷ fs) c = put_fields fs (put c k v)

unfoldable pub new_client : Client → Fields
new_client t =
    ("email", text t.email)
    ∷ ("subId", text t.email)
    ∷ ("limitIp", number 0)
    ∷ ("tgId", number 0)
    ∷ ("reset", number 0)
    ∷ ("comment", text t.comment)
    ∷ []

module _ (parse_float : String → Option ℕ) where
  unfoldable pub same_number : Option Value → ℕ → Bool
  same_number none n = false
  same_number (some (number m)) n = m == n
  same_number (some (text s)) n = elim (parse_float s) [ none ↦ false | some m ↦ m == n ]
  same_number (some _) n = false

  -- sameValue
  unfoldable pub same_value : Option Value → Value → Bool
  same_value current (number n) = same_number current n
  same_value none want = false
  same_value (some v) want = is (Value-discrete v want)

  -- The loop over fields: the client with those that differ set, and whether one did.
  unfoldable pub merge_fields : Fields → Fields → Fields → Fields × Bool
  merge_fields current [] updated = (updated, false)
  merge_fields current ((k, v) ∷ fs) updated =
      let kept = merge_fields current fs updated in
      let rest = merge_fields current fs (put updated k v) in
      if same_value (get current k) v then kept else (rest.0, true)

  unfoldable pub client_actions :
      String → Assoc String ℕ → Assoc String Fields → Client → List Action
  client_actions proto used m t = elim (get m t.email) [
    | none ↦ add (put_fields (fields_of proto used t) (new_client t)) ∷ []
    | some current ↦
        let merged = merge_fields current (fields_of proto used t) current in
        let commented = not (is_text (text_of current "comment") t.comment) in
        let updated = if commented then put merged.0 "comment" (text t.comment) else merged.0 in
        if merged.1 || commented then update (identity proto current) updated ∷ [] else []
  ]

  unfoldable pub all_actions :
      String → Assoc String ℕ → Assoc String Fields → List Client → List Action
  all_actions proto used m [] = []
  all_actions proto used m (t ∷ ts) = client_actions proto used m t ++ all_actions proto used m ts

  -- plan on the settings, once it is known that they are there
  unfoldable pub plan_clients :
      (String → Option ℕ) → Inbound → String → List Fields → List Client → Result Code (List Action)
  plan_clients key_size ib method clients target =
      let m = owned_of clients [] in
      let foreign = foreign_of ib.protocol clients in
      compatible key_size ib.protocol method target
      >> refuse (owned_conflict ib.protocol foreign m || target_conflict foreign target)
          client_conflict
      >> ok (
          removals ib.protocol m (length clients) (sort str_leb (unwanted target m))
          ++ all_actions ib.protocol (used_map ib.stats []) m target)

  unfoldable pub plan : (String → Option ℕ) → Inbound → List Client → Result Code (List Action)
  plan key_size ib target = elim ib.settings [
    | none ↦ err inbound_invalid
    | some s ↦ elim s.clients [
      | none ↦
          if ltb 0 (length target)
          then err inbound_invalid
          else plan_clients key_size ib s.method [] target
      | some clients ↦ plan_clients key_size ib s.method clients target
    ]
  ]
