-- ===== src/Updater/Target.antt =====
-- internal/update/client.go: what a target is checked for; and updater.go: check. The decoder and the
-- request of the check are parameters.
use akastr_agent.Base.{
  ℕ, String, Bool, true, false, not, ◌&&◌, ◌||◌, Option, none, some, ◌++◌, replicate, ltb, ◌==◌, is,
  if◌then◌else◌, String-discrete, codes, same_codes, Result, ok, err, ◌>>=◌, ◌>>◌, refuse,
}
use akastr_agent.Protocol.{hex, matches_places}
use akastr_agent.Updater.{Updater, Outside, apply, check_interval, busy_interval}
use akastr_agent.Updater.Versions.{VersionParts, parse_version, older}

-- Target; its configuration counts only as being there or not.
pub record Target : Type 0 where
  pub schema : String
  pub status : String
  pub version : String
  pub binary_url : String
  pub binary_sha256 : String
  pub revision : ℕ
  pub has_configuration : Bool

pub data Fault : Type 0 where
  bad_status bad_current bad_software backwards mismatch bad_configuration : Fault

abbrev pub is_text : String → String → Bool
is_text s t = is (String-discrete s t)

-- sha256Hex
unfoldable pub is_sha256 : String → Bool
is_sha256 s = matches_places (replicate 64 hex) (codes s)

-- The download's address of a version
unfoldable pub is_binary_url : String → String → Bool
is_binary_url version url = same_codes (codes url) (
    codes "https://github.com/akastrmix/akastr-agent/releases/download/"
    ++ codes version
    ++ codes "/akastr-agent-linux-amd64")

unfoldable pub known_status : String → Bool
known_status s = is_text s "current" || is_text s "busy" || is_text s "update_available"

unfoldable pub changed : String → ℕ → Target → Bool
changed version revision t = not (is_text t.version version) || not (t.revision == revision)

-- ==, on truth values
unfoldable pub iff : Bool → Bool → Bool
iff true b = b
iff false b = not b

unfoldable pub version_fault : String → Target → Result Fault (VersionParts × VersionParts)
version_fault version t = elim (parse_version version) [
  | none ↦ err bad_current
  | some current ↦ elim (parse_version t.version) [
    | none ↦ err bad_software
    | some next ↦
        if not (is_sha256 t.binary_sha256) || not (is_binary_url t.version t.binary_url)
        then err bad_software
        else ok (current, next)
  ]
]

-- validate
unfoldable pub validate : String → ℕ → Target → Result Fault (Unit {0})
validate version revision t =
    refuse (not (is_text t.schema "akastr-agent-maintenance.v2") || not (known_status t.status))
      bad_status
    >> (version_fault version t >>= λ v.
        refuse (older v.1 v.0 || ltb t.revision revision) backwards
        >> refuse (iff (is_text t.status "current") (changed version revision t)) mismatch
        >> refuse
            (not (
              iff t.has_configuration
                (is_text t.status "update_available" && not (t.revision == revision))))
            bad_configuration)

abbrev pub retry_interval : ℕ
retry_interval = 10

pub record Checker : Type 0 where
  pub updater : Updater
  pub last_error : String

-- What check makes of the answer, a target that is accepted or none; the delay until the next one.
unfoldable pub answered :
    (String → Bool) → (Target → String) → Outside → Option Target → Checker → Checker × ℕ
answered is_code name x none c = (c, retry_interval)
answered is_code name x (some t) c =
    let a = apply is_code (name t) x c.updater in
    if is_text t.status "current"
    then (record c { last_error = "" }, check_interval)
    else if is_text t.status "busy"
    then (c, busy_interval)
    else (
      record {
        updater = a.updater;
        last_error = if is_text a.code "" then c.last_error else a.code;
      },
      a.delay,
    )

-- decodeTarget, on what the decoder reads of the answer
unfoldable pub accepted : String → ℕ → Option Target → Option Target
accepted version revision none = none
accepted version revision (some t) = elim (validate version revision t) [
  | ok _ ↦ some t
  | err _ ↦ none
]

-- check, of a process of this version and revision
unfoldable pub check :
    (String → Bool)
    → (Target → String)
    → String
    → ℕ
    → Outside
    → Option Target
    → Checker
    → Checker × ℕ
check is_code name version revision x answer c =
    answered is_code name x (accepted version revision answer) c
