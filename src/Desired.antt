-- ===== src/Desired.antt =====
-- internal/desired/engine.go: the targets of a Desired module, of which the controller sends every
-- key after a session becomes ready, and the pass that applies them. The unit's mutex makes each
-- method one step; a pass is several, as the mutex is released while the module applies and while a
-- status is sent. A state is the text of its JSON; times are numbers of seconds.
pub mod Backoff
pub mod Keys
pub mod Reports
pub mod Tests
use akastr_agent.Base.{
  ℕ, ◌*◌, min, max, String, Bool, true, false, ◌&&◌, ◌||◌, not, Option, none, some, List, [], ◌∷◌,
  Assoc, is, is_some, if◌then◌else◌, String-discrete, ℕ_discrete, get, put, delete, Result, ok, err,
  ◌==◌,
}

pub record Target : Type 0 where
  pub version : ℕ
  pub state : String

-- status; no code is "".
pub record Status : Type 0 where
  pub version : ℕ
  pub code : String

-- unit
pub record DesiredUnit : Type 0 where
  pub targets : Assoc String Target
  pub invalid : Assoc String ℕ
  pub complete : Bool
  pub sent : Assoc String Status

abbrev pub new_unit : DesiredUnit
new_unit = record { targets = []; invalid = []; complete = false; sent = [] }

-- Whether the unit's module accepts a state for a key.
abbrev pub Validate : Type 0
Validate = String → String → Bool

-- Put, on the unit of the module.
unfoldable pub put_state : Validate → String → ℕ → String → DesiredUnit → DesiredUnit
put_state validate key version state u =
    if validate key state
    then record u {
      targets = put u.targets key (record { version = version; state = state });
      invalid = delete u.invalid key;
    }
    else record u { invalid = put u.invalid key version }

abbrev pub is_key : String → List String → Bool
is_key k [] = false
is_key k (j ∷ ks) = is (String-discrete j k) || is_key k ks

-- The deletion of the keys that are not named.
unfoldable pub keep_keys : {V : Type 0} → List String → Assoc String V → Assoc String V
keep_keys ks [] = []
keep_keys ks ((k, v) ∷ m) = let rest = keep_keys ks m in if is_key k ks then (k, v) ∷ rest else rest

-- Keys
unfoldable pub set_keys : List String → DesiredUnit → DesiredUnit
set_keys ks u = record {
  targets = keep_keys ks u.targets;
  invalid = keep_keys ks u.invalid;
  complete = true;
  sent = keep_keys ks u.sent;
}

-- ControlReady
unfoldable pub control_ready : DesiredUnit → DesiredUnit
control_ready u = record u { sent = [] }

-- named
unfoldable pub named : String → DesiredUnit → Bool
named k u = is_some (get u.targets k) || is_some (get u.invalid k)

-- Whether the status last sent for a key, a zero status if none was, is another.
unfoldable pub differs : Status → Option Status → Bool
differs r none = not (r.version == 0 && is (String-discrete r.code ""))
differs r (some s) = not (s.version == r.version && is (String-discrete s.code r.code))

-- reportable
unfoldable pub reportable : String → Status → DesiredUnit → Bool
reportable k r u = named k u && differs r (get u.sent k)

-- What a pass takes of the unit: the states to apply, none for a key whose target is unusable, and
-- the versions of the targets and of the invalid ones.
pub record Pass : Type 0 where
  pub states : Assoc String (Option String)
  pub results : Assoc String Status
  pub invalid : Assoc String ℕ

unfoldable pub target_states : Assoc String Target → Assoc String (Option String)
target_states [] = []
target_states ((k, t) ∷ m) = (k, some t.state) ∷ target_states m

unfoldable pub target_results : Assoc String Target → Assoc String Status
target_results [] = []
target_results ((k, t) ∷ m) = (k, record { version = t.version; code = "" }) ∷ target_results m

-- Still named, so what the key covers must not be removed.
unfoldable pub add_invalid :
    Assoc String ℕ → Assoc String (Option String) → Assoc String (Option String)
add_invalid [] states = states
add_invalid ((k, v) ∷ m) states =
    let rest = add_invalid m states in if is_some (get rest k) then rest else put rest k none

-- The first part of pass: none when the keys are not complete.
unfoldable pub begin_pass : DesiredUnit → Option Pass
begin_pass u =
    if u.complete
    then some (record {
      states = add_invalid u.invalid (target_states u.targets);
      results = target_results u.targets;
      invalid = u.invalid;
    })
    else none

-- What the module's Apply returns: codes by key, and whether it returns an error.
pub record Applied : Type 0 where
  pub codes : Assoc String String
  pub failed : Bool

-- m[k] of a map of codes.
abbrev pub code_of : Option String → String
code_of none = ""
code_of (some c) = c

unfoldable pub with_codes : Assoc String String → Assoc String Status → Assoc String Status × Bool
with_codes codes [] = ([], false)
with_codes codes ((k, r) ∷ m) =
    let (rest, failed) = with_codes codes m in
    let code = code_of (get codes k) in
    if is (String-discrete code "")
    then ((k, r) ∷ rest, failed)
    else ((k, record r { code = code }) ∷ rest, true)

abbrev pub invalid_code : String
invalid_code = "target_invalid"

unfoldable pub with_invalid : Assoc String ℕ → Assoc String Status → Assoc String Status
with_invalid [] rs = rs
with_invalid ((k, v) ∷ m) rs =
    put (with_invalid m rs) k (record { version = v; code = invalid_code })

-- The second part of pass, after Apply: the results, and whether the pass failed.
unfoldable pub applied : Pass → Applied → Assoc String Status × Bool
applied p a =
    let (rs, failed) = with_codes a.codes p.results in
    (with_invalid p.invalid rs, a.failed || failed)

-- The end of pass, for one key whose status was sent: a key retired meanwhile is not remembered.
unfoldable pub remember_sent : String → Status → DesiredUnit → DesiredUnit
remember_sent k r u = if named k u then record u { sent = put u.sent k r } else u

-- One turn of the loop that reports; `delivered` is whether send succeeds, and `meanwhile` what other
-- methods do to the unit while it is sent, when its mutex is free. The status, if it is sent.
unfoldable pub report :
    Bool → (DesiredUnit → DesiredUnit) → String → Status → DesiredUnit → DesiredUnit × Option Status
report delivered meanwhile k r u =
    if reportable k r u
    then (if delivered then remember_sent k r (meanwhile u) else meanwhile u, some r)
    else (u, none)

-- The delay until the next pass, and the backoff: of run.
unfoldable pub next_delay : ℕ → ℕ → Bool → ℕ → ℕ × ℕ
next_delay retry recheck failed backoff =
    let longer = min (max retry (2 * backoff)) recheck in
    if failed then (longer, longer) else (recheck, 0)
