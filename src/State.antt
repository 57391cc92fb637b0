-- ===== src/State.antt =====
-- internal/state/json_file.go: the atomic replacement of a small state file. What encoding/json
-- reads from a file is a value of the model's own; `fault` names the system call that fails, if
-- one does.
pub mod Atomic
mod Tests
use akastr_agent.Base.{Bool, true, false, ◌||◌, Option, none, some, if◌then◌else◌, Result, ok, err}

-- What stands under the file's name. `malformed` is anything that the strict decoder refuses:
-- unknown fields, trailing values, no JSON at all.
pub data Stored {ℓ} (A : Type ℓ) : Type ℓ where
  missing malformed : Stored A
  holds : A → Stored A

-- The file under its own name. The temporary file that Save writes has a name of its own, which
-- nothing reads: whether the deferred os.Remove deletes it after a failure is left out.
pub record File {ℓ} (A : Type ℓ) : Type ℓ where
  pub stored : Stored A

pub data SaveStep : Type 0 where
  make_directory create_temporary set_permissions encode sync_temporary close_temporary : SaveStep
  rename sync_directory : SaveStep

pub SaveStep-discrete : Discrete SaveStep
SaveStep-discrete = hlevel

abbrev pub same_step : SaveStep → SaveStep → Bool
same_step make_directory make_directory = true
same_step create_temporary create_temporary = true
same_step set_permissions set_permissions = true
same_step encode encode = true
same_step sync_temporary sync_temporary = true
same_step close_temporary close_temporary = true
same_step rename rename = true
same_step sync_directory sync_directory = true
same_step _ _ = false

abbrev pub fails : Option SaveStep → SaveStep → Bool
fails none s = false
fails (some t) s = same_step t s

module _ {ℓ} {A : Type ℓ} where
  -- From the rename on.
  replace : Option SaveStep → A → File A → File A × Option SaveStep
  replace fault value f = if fails fault rename then (f, some rename) else (
    record { stored = holds value },
    if fails fault sync_directory then some sync_directory else none,
  )

  -- From the creation of the temporary file on.
  write_temporary : Option SaveStep → A → File A → File A × Option SaveStep
  unfolding replace
  write_temporary fault value f =
      if fails fault set_permissions
      then (f, some set_permissions)
      else if fails fault encode
      then (f, some encode)
      else if fails fault sync_temporary
      then (f, some sync_temporary)
      else if fails fault close_temporary
      then (f, some close_temporary)
      else replace fault value f

  -- Save: the file afterwards, and the step whose error it returns.
  unfoldable pub save : Option SaveStep → A → File A → File A × Option SaveStep
  unfolding write_temporary
  save fault value f =
      if fails fault make_directory
      then (f, some make_directory)
      else if fails fault create_temporary
      then (f, some create_temporary)
      else write_temporary fault value f

  -- Load: `unopened` is an error of os.Open other than a missing file. `ok none` is (false, nil).
  unfoldable pub load : Bool → File A → Result (Unit {0}) (Option A)
  load unopened f =
      if unopened
      then err tt
      else elim f.stored [ missing ↦ ok none | malformed ↦ err tt | holds a ↦ ok (some a) ]

  -- Remove: `unlinked` says whether os.Remove succeeds, which it does not on a missing file, and
  -- `synced` whether the directory is synced then; false is an error.
  unfoldable pub remove : Bool → Bool → File A → File A × Bool
  remove unlinked synced f = elim f.stored [
    | missing ↦ (f, false)
    | _ ↦ if unlinked then (record { stored = missing }, synced) else (f, false)
  ]
