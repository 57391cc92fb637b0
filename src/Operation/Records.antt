-- ===== src/Operation/Records.antt =====
-- The records of the journal in internal/operation/engine.go, and the loops over them. Times are
-- numbers and 0 is the zero time; a command's result is kept as the bytes of its JSON text.
use akastr_agent.Base.{
  ℕ, String, Bool, true, false, ◌||◌, Option, none, some, List, [], ◌∷◌, if◌then◌else◌, is, Assoc,
  String-discrete,
}
use akastr_agent.State.{SaveStep}

-- A status is a text in the source; `other` is any that it does not name.
pub data Status : Type 0 where
  running succeeded failed cancelled : Status
  other : String → Status

abbrev pub is_running : Status → Bool
is_running running = true
is_running _ = false

-- status == succeeded || status == failed || status == cancelled
abbrev pub is_terminal : Status → Bool
is_terminal succeeded = true
is_terminal failed = true
is_terminal cancelled = true
is_terminal _ = false

pub record Record : Type 0 where
  pub operation_id : String
  pub kind : String
  pub exclusive_group : String
  pub status : Status
  pub started_at : ℕ
  pub finished_at : Option ℕ
  pub terminal_code : String
  pub terminal_result : List ℕ

-- The snapshot in memory, which has the program's schema version and both collections.
pub record Snapshot : Type 0 where
  pub active : Assoc String Record
  pub recent : List Record

-- A snapshot as the decoder leaves it, where a collection may be nil.
pub record Decoded : Type 0 where
  pub schema_version : ℕ
  pub active : Option (Assoc String Record)
  pub recent : Option (List Record)

abbrev pub state_schema_version : ℕ
state_schema_version = 1

-- What is saved of a snapshot.
abbrev pub encoded : Snapshot → Decoded
encoded s = record {
  schema_version = state_schema_version;
  active = some s.active;
  recent = some s.recent;
}

-- What a result that was saved is when it is read: Save lays out the whole file with indents, a
-- result in it included, and the decoder keeps the text it finds; `layout` is the text in the file.
-- An empty result is left out of the file.
unfoldable pub relaid : (List ℕ → List ℕ) → List ℕ → List ℕ
relaid layout [] = []
relaid layout (c ∷ cs) = layout (c ∷ cs)

unfoldable pub relaid_record : (List ℕ → List ℕ) → Record → Record
relaid_record layout r = record r { terminal_result = relaid layout r.terminal_result }

unfoldable pub relaid_active : (List ℕ → List ℕ) → Assoc String Record → Assoc String Record
relaid_active layout [] = []
relaid_active layout ((group, r) ∷ m) = (group, relaid_record layout r) ∷ relaid_active layout m

unfoldable pub relaid_recent : (List ℕ → List ℕ) → List Record → List Record
relaid_recent layout [] = []
relaid_recent layout (r ∷ rs) = relaid_record layout r ∷ relaid_recent layout rs

abbrev pub relaid_snapshot : (List ℕ → List ℕ) → Snapshot → Snapshot
relaid_snapshot layout s = record {
  active = relaid_active layout s.active;
  recent = relaid_recent layout s.recent;
}

-- What the decoder makes of a file that holds a snapshot.
abbrev pub decoded_file : (List ℕ → List ℕ) → Decoded → Decoded
decoded_file layout d = record {
  schema_version = d.schema_version;
  active = elim d.active [ none ↦ none | some m ↦ some (relaid_active layout m) ];
  recent = elim d.recent [ none ↦ none | some rs ↦ some (relaid_recent layout rs) ];
}

pub data Error : Type 0 where
  invalid_token conflict duplicate not_found invalid_status invalid_code invalid_result : Error
  missing_file_name invalid_limit load_failed invalid_schema missing_collections : Error
  invalid_active invalid_recent no_start_time duplicate_id : Error
  save_failed : SaveStep → Error

abbrev has_id : Record → String → Bool
has_id r id = is (String-discrete r.operation_id id)

-- findActive
unfoldable pub find_active : Assoc String Record → String → Option (String × Record)
find_active [] id = none
find_active ((group, r) ∷ m) id =
    let rest = find_active m id in if has_id r id then some (group, r) else rest

-- The two loops of containsOperationID.
unfoldable pub contains_active : Assoc String Record → String → Bool
contains_active [] id = false
contains_active (e ∷ m) id = has_id e.1 id || contains_active m id

unfoldable pub contains_recent : List Record → String → Bool
contains_recent [] id = false
contains_recent (r ∷ rs) id = has_id r id || contains_recent rs id

-- containsOperationID
abbrev pub contains_id : Snapshot → String → Bool
contains_id s id = contains_active s.active id || contains_recent s.recent id

-- The loop of Recent, which runs from the newest record, the last one, to the oldest.
unfoldable pub find_recent : List Record → String → Option Record
find_recent [] id = none
find_recent (r ∷ rs) id = elim (find_recent rs id) [
  | some newer ↦ some newer
  | none ↦ if has_id r id then some r else none
]
