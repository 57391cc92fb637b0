-- ===== src/Operation/Journal.antt =====
-- The methods of Engine in internal/operation/engine.go. The engine's mutex makes each one a
-- single step; `fault` is the system call that fails in its save, and `valid` is json.Valid.
use akastr_agent.Base.{
  ℕ, ◌-◌, String, Bool, ◌&&◌, ◌||◌, not, Option, none, some, List, [], ◌∷◌, ◌++◌, ltb,
  if◌then◌else◌, is, is_some, length, drop, Result, ok, err, ◌>>=◌, ◌>>◌, refuse, get, put, delete,
  String-discrete,
}
use akastr_agent.State.{File, SaveStep, save, load}
use akastr_agent.Operation.Token.{stable_token}
use akastr_agent.Operation.Records.{
  Record, Status, running, Snapshot, Decoded, encoded, Error, invalid_token, conflict, duplicate,
  not_found, invalid_status, invalid_code, invalid_result, missing_file_name, invalid_limit,
  load_failed, save_failed, decoded_file, is_terminal, contains_id, find_active, find_recent,
}
use akastr_agent.Operation.Validate.{max_result, not_object, non_empty, validate_snapshot}

pub record Engine : Type 0 where
  pub file : File Decoded
  pub recent_limit : ℕ
  pub snapshot : Snapshot

-- Saving, and what each method does after it: on an error the engine keeps its snapshot.
unfoldable pub commit : Option SaveStep → Snapshot → Record → Engine → Engine × Result Error Record
commit fault next r e =
    let (file', failure) = save fault (encoded next) e.file in
    elim failure [
      | none ↦ (record e { file = file'; snapshot = next }, ok r)
      | some s ↦ (record e { file = file' }, err (save_failed s))
    ]

-- What Begin refuses before it writes.
unfoldable pub begin_guard : String → String → String → Snapshot → Result Error (Unit {0})
begin_guard id kind group s =
    refuse (not (stable_token id)) invalid_token
    >> refuse (not (stable_token kind)) invalid_token
    >> refuse (not (stable_token group)) invalid_token
    >> refuse (is_some (get s.active group)) conflict
    >> refuse (contains_id s id) duplicate

abbrev pub started : String → String → String → ℕ → Record
started id kind group now = record {
  operation_id = id;
  kind = kind;
  exclusive_group = group;
  status = running;
  started_at = now;
  finished_at = none;
  terminal_code = "";
  terminal_result = [];
}

abbrev pub with_active : Snapshot → Record → Snapshot
with_active s r = record s { active = put s.active r.exclusive_group r }

unfoldable pub begin :
    Option SaveStep → ℕ → String → String → String → Engine → Engine × Result Error Record
begin fault now id kind group e = elim (begin_guard id kind group e.snapshot) [
  | err x ↦ (e, err x)
  | ok _ ↦ let r = started id kind group now in commit fault (with_active e.snapshot r) r e
]

-- append, and the cut to the newest `limit` records.
unfoldable pub remember : ℕ → List Record → Record → List Record
remember limit rs r =
    let all = rs ++ r ∷ [] in if ltb limit (length all) then drop (length all - limit) all else all

abbrev pub ended : Record → ℕ → Status → String → List ℕ → Record
ended r now status code result = record r {
  status = status;
  finished_at = some now;
  terminal_code = code;
  terminal_result = result;
}

abbrev pub with_ended : ℕ → Snapshot → String → Record → Snapshot
with_ended limit s group r = record {
  active = delete s.active group;
  recent = remember limit s.recent r;
}

module _ (valid : List ℕ → Bool) where
  -- What FinishWithResult refuses before it looks for the command.
  unfoldable pub finish_guard : Status → String → List ℕ → Result Error (Unit {0})
  finish_guard status code result =
      refuse (not (is_terminal status)) invalid_status
      >> refuse (not (stable_token code)) invalid_code
      >> refuse (ltb max_result (length result) || (non_empty result && not (valid result)))
          invalid_result
      >> refuse (not_object result) invalid_result

  -- The rest of FinishWithResult, on what findActive found.
  unfoldable pub finish_found :
      Option SaveStep
      → ℕ
      → Status
      → String
      → List ℕ
      → Option (String × Record)
      → Engine
      → Engine × Result Error Record
  finish_found fault now status code result none e = (e, err not_found)
  finish_found fault now status code result (some (group, r)) e =
      let done = ended r now status code result in
      commit fault (with_ended e.recent_limit e.snapshot group done) done e

  unfoldable pub finish_with_result :
      Option SaveStep
      → ℕ
      → String
      → Status
      → String
      → List ℕ
      → Engine
      → Engine × Result Error Record
  finish_with_result fault now id status code result e = elim (finish_guard status code result) [
    | err x ↦ (e, err x)
    | ok _ ↦ finish_found fault now status code result (find_active e.snapshot.active id) e
  ]

  -- Finish: without a result.
  unfoldable pub finish_plain :
      Option SaveStep → ℕ → String → Status → String → Engine → Engine × Result Error Record
  finish_plain fault now id status code = finish_with_result fault now id status code []

module _ (valid : List ℕ → Bool) (layout : List ℕ → List ℕ) where
  -- Open, for an options value with a file name or none. Only a missing file starts empty.
  abbrev opened : File Decoded → ℕ → Option Decoded → Result Error Engine
  opened f limit none =
      ok (record { file = f; recent_limit = limit; snapshot = record { active = []; recent = [] } })
  opened f limit (some d) = validate_snapshot valid (decoded_file layout d) >>= λ s.
      ok (record { file = f; recent_limit = limit; snapshot = s })

  unfoldable pub open_journal : Bool → String → ℕ → File Decoded → Result Error Engine
  open_journal unopened name limit f =
      refuse (is (String-discrete name "")) missing_file_name
      >> refuse (ltb limit 1) invalid_limit
      >> elim (load unopened f) [ err _ ↦ err load_failed | ok found ↦ opened f limit found ]

-- Recent
abbrev pub recent : Engine → String → Option Record
recent e id = find_recent e.snapshot.recent id

-- Active
abbrev pub active : Engine → String → Option (String × Record)
active e id = find_active e.snapshot.active id
