-- ===== src/Operation/Validate.antt =====
-- validateSnapshot of internal/operation/engine.go; `valid` is json.Valid. Of an invalid file the
-- model names the first check that fails.
use akastr_agent.Base.{
  ℕ, String, Bool, true, false, ◌&&◌, ◌||◌, not, Option, some, List, [], ◌∷◌, ltb, ◌==◌, is,
  is_some, length, Result, ok, err, ◌>>=◌, ◌>>◌, refuse, Assoc, String-discrete,
}
use akastr_agent.Operation.Token.{stable_token}
use akastr_agent.Operation.Records.{
  Record, Snapshot, Decoded, Error, invalid_token, invalid_schema, missing_collections,
  invalid_active, invalid_recent, no_start_time, duplicate_id, state_schema_version, is_running,
  is_terminal,
}

abbrev pub max_result : ℕ
max_result = 8192

-- len(result) > 0 && result[0] != '{'
abbrev pub not_object : List ℕ → Bool
not_object [] = false
not_object (c ∷ cs) = not (c == b'{')

abbrev pub non_empty : List ℕ → Bool
non_empty [] = false
non_empty (c ∷ cs) = true

-- `seen` of validateSnapshot.
unfoldable pub seen_before : List String → String → Bool
seen_before [] id = false
seen_before (s ∷ seen) id = is (String-discrete s id) || seen_before seen id

-- validateRecordTokens
unfoldable pub validate_record_tokens : Record → Result Error (Unit {0})
validate_record_tokens r =
    refuse
      (not (stable_token r.operation_id && stable_token r.kind && stable_token r.exclusive_group))
      invalid_token
    >> refuse (r.started_at == 0) no_start_time

abbrev bad_active : String → Record → Bool
bad_active group r =
    not (is (String-discrete r.exclusive_group group))
    || not (is_running r.status)
    || is_some r.finished_at
    || not (is (String-discrete r.terminal_code ""))

-- The body of the loop over the active records; it returns the ids seen so far.
unfoldable pub check_active : List String → String → Record → Result Error (List String)
check_active seen group r =
    refuse (bad_active group r) invalid_active
    >> validate_record_tokens r
    >> refuse (seen_before seen r.operation_id) duplicate_id
    >> ok (r.operation_id ∷ seen)

unfoldable pub all_active : List String → Assoc String Record → Result Error (List String)
all_active seen [] = ok seen
all_active seen ((group, r) ∷ m) = check_active seen group r >>= λ next. all_active next m

module _ (valid : List ℕ → Bool) where
  abbrev pub bad_result : List ℕ → Bool
  bad_result result =
      ltb max_result (length result)
      || (non_empty result && (not (valid result) || not_object result))

  -- The body of the loop over the recent records.
  unfoldable pub check_recent : List String → Record → Result Error (List String)
  check_recent seen r =
      refuse (not (is_terminal r.status)) invalid_recent
      >> refuse (not (is_some r.finished_at) || not (stable_token r.terminal_code)) invalid_recent
      >> refuse (bad_result r.terminal_result) invalid_recent
      >> validate_record_tokens r
      >> refuse (seen_before seen r.operation_id) duplicate_id
      >> ok (r.operation_id ∷ seen)

  unfoldable pub all_recent : List String → List Record → Result Error (List String)
  all_recent seen [] = ok seen
  all_recent seen (r ∷ rs) = check_recent seen r >>= λ next. all_recent next rs

  -- The two loops, and the snapshot that passes them.
  unfoldable pub validate_records :
      Option (Assoc String Record) → Option (List Record) → Result Error Snapshot
  validate_records (some active) (some recent) = all_active [] active >>= λ seen.
      all_recent seen recent >>= λ _. ok (record { active = active; recent = recent })
  validate_records _ _ = err missing_collections

  unfoldable pub validate_snapshot : Decoded → Result Error Snapshot
  validate_snapshot d =
      refuse (not (d.schema_version == state_schema_version)) invalid_schema
      >> validate_records d.active d.recent
