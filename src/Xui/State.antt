-- ===== src/Xui/State.antt =====
-- internal/modules/xui/state.go: the module's durable state. An error of Save is the step that
-- fails.
use akastr_agent.Base.{
  ℕ, String, Bool, true, false, not, ◌==◌, Option, none, some, [], ◌∷◌, Assoc, get, put, length,
  Result, ok, err, if◌then◌else◌, String-discrete, is_some,
}
use akastr_agent.State.{File, SaveStep, save, load}

-- stateFile, whose schema is 1 when it is saved
pub record StateFile : Type 0 where
  pub schema : ℕ
  pub resets : Assoc String ℕ
  pub restart_pending : Bool

pub record LocalState : Type 0 where
  pub file : File StateFile
  pub resets : Assoc String ℕ
  pub restart_pending : Bool
  pub dirty : Bool

unfoldable pub opened : File StateFile → Result (Unit {0}) (Option StateFile) → Option LocalState
opened f (err e) = none
opened f (ok none) = some (record { file = f; resets = []; restart_pending = false; dirty = false })
opened f (ok (some s)) =
    if s.schema == 1
    then some
        (record { file = f; resets = s.resets; restart_pending = s.restart_pending; dirty = false })
    else none

-- openState; none is an error.
unfoldable pub open_state : Bool → File StateFile → Option LocalState
open_state unopened f = opened f (load unopened f)

-- save, and whether it succeeded
unfoldable pub save_state : Option SaveStep → Bool → LocalState → LocalState × Bool
save_state fault pending s =
    let r =
      save fault (record { schema = 1; resets = s.resets; restart_pending = pending }) s.file in
    (record s { file = r.0 }, not (is_some r.1))

unfoldable pub reset_of : LocalState → String → ℕ
reset_of s email = elim (get s.resets email) [ none ↦ 0 | some n ↦ n ]

unfoldable pub flush : Option SaveStep → LocalState → LocalState × Bool
flush fault s =
    let r = save_state fault s.restart_pending s in
    if not s.dirty
    then (s, true)
    else if r.1
    then (record r.0 { dirty = false }, true)
    else (r.0, false)

unfoldable pub set_reset : Option SaveStep → String → ℕ → LocalState → LocalState × Bool
set_reset fault email seq s =
    flush fault (record s { resets = put s.resets email seq; dirty = true })

-- s.restartPending == pending
unfoldable pub same : Bool → Bool → Bool
same true b = b
same false b = not b

unfoldable pub set_restart_pending : Option SaveStep → Bool → LocalState → LocalState × Bool
set_restart_pending fault pending s =
    let r = save_state fault pending s in
    if same s.restart_pending pending
    then (s, true)
    else if r.1
    then (record r.0 { restart_pending = pending; dirty = false }, true)
    else (r.0, false)

unfoldable pub kept : (String → Bool) → Assoc String ℕ → Assoc String ℕ
kept wanted [] = []
kept wanted ((e, n) ∷ m) = let rest = kept wanted m in if wanted e then (e, n) ∷ rest else rest

unfoldable pub keep_only : Option SaveStep → (String → Bool) → LocalState → LocalState × Bool
keep_only fault wanted s =
    let k = kept wanted s.resets in
    if length k == length s.resets
    then (s, true)
    else flush fault (record s { resets = k; dirty = true })
