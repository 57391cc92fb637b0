-- ===== src/Updater.antt =====
-- internal/update/attempts.go and updater.go: when a prepared candidate may replace the process, and
-- the record, written before, that bounds how often one target is tried. Times are numbers of
-- seconds. What the locks, the preparation and the exec do comes from outside.
pub mod Versions
pub mod Target
pub mod Forward
pub mod Starts
pub mod Tests
use akastr_agent.Base.{
  ℕ, suc, ◌+◌, ◌-◌, String, Bool, true, false, ◌&&◌, ◌||◌, not, Option, none, some, ltb, leb, ◌==◌,
  is, if◌then◌else◌, String-discrete, Result, ok, err,
}
use akastr_agent.State.{File, SaveStep, save, load}
use akastr_agent.Lifecycle.{Gate, try_update, release}

-- attemptRecord
pub record Attempts : Type 0 where
  pub schema : ℕ
  pub target : String
  pub attempts : ℕ
  pub last_attempt_at : ℕ
  pub last_error : String

abbrev pub max_consecutive_attempts : ℕ
max_consecutive_attempts = 2

abbrev pub retry_exhausted_after : ℕ
retry_exhausted_after = 21600

abbrev pub rejected_retry : ℕ
rejected_retry = 1800

abbrev pub check_interval : ℕ
check_interval = 60

abbrev pub busy_interval : ℕ
busy_interval = 15

-- The checks of loadAttempts on what it has loaded; `is_code` is what stableCode matches.
unfoldable pub check_loaded :
    (String → Bool) → Result (Unit {0}) (Option Attempts) → Option Attempts
check_loaded is_code (err _) = none
check_loaded is_code (ok none) =
    some (record { schema = 1; target = ""; attempts = 0; last_attempt_at = 0; last_error = "" })
check_loaded is_code (ok (some r)) =
    if not (r.schema == 1)
      || (not (is (String-discrete r.last_error "")) && not (is_code r.last_error))
    then none
    else some r

-- loadAttempts; none is an error.
unfoldable pub load_attempts : (String → Bool) → Bool → File Attempts → Option Attempts
load_attempts is_code unopened f = check_loaded is_code (load unopened f)

-- allowed
unfoldable pub allowed : ℕ → Attempts → Bool
allowed now r =
    ltb r.attempts max_consecutive_attempts || leb retry_exhausted_after (now - r.last_attempt_at)

-- failureCode
unfoldable pub failure_code : Attempts → String
failure_code r = if is (String-discrete r.last_error "") then "candidate_failed" else r.last_error

-- RecordCandidateFailure: false is an error.
unfoldable pub record_candidate_failure :
    (String → Bool)
    → Bool
    → Option SaveStep
    → String
    → String
    → File Attempts
    → File Attempts × Bool
record_candidate_failure is_code unopened fault target code f =
    elim (load_attempts is_code unopened f) [
      | none ↦ (f, false)
      | some r ↦
          if not (is (String-discrete r.target target)) || not (is_code code)
          then (f, false)
          else (let (f', failure) = save fault (record r { last_error = code }) f in
              (f', elim failure [ none ↦ true | some _ ↦ false ]))
    ]

pub record Updater : Type 0 where
  pub file : File Attempts
  pub gate : Gate
  pub rejected : String
  pub rejected_at : ℕ

pub data Lock : Type 0 where
  locked lock_failed held : Lock

-- What apply finds outside: the layout's lock, the file, two answers of CheckSafe, the code of
-- prepare, if it has one, and the times of its calls.
pub record Outside : Type 0 where
  pub lock : Lock
  pub unopened : Bool
  pub now : ℕ
  pub safe_before : Bool
  pub prepared : Option String
  pub prepared_at : ℕ
  pub safe_after : Bool
  pub started_at : ℕ
  pub fault : Option SaveStep
  pub replaced : Bool

-- apply's delay and code; `started` is the updater when it calls Exec, if it does.
pub record Applied : Type 0 where
  pub updater : Updater
  pub started : Option Updater
  pub delay : ℕ
  pub code : String

abbrev pub returns : Updater → ℕ → String → Applied
returns u delay code = record { updater = u; started = none; delay = delay; code = code }

abbrev pub counted : Outside → Attempts → Attempts
counted x r = record r {
  attempts = r.attempts + 1;
  last_attempt_at = x.started_at;
  last_error = "";
}

-- The end of apply, with the update lease; the deferred release comes last.
unfoldable pub start : Outside → Attempts → Option ℕ → Updater → Applied
start x r lease u =
    let (file', failure) = save x.fault (counted x r) u.file in
    let saved : Updater = record u { file = file' } in
    let released : Updater = record saved { gate = release u.gate lease } in
    elim failure [
      | some _ ↦ returns released check_interval "update_state_invalid"
      | none ↦ record {
        updater = released;
        started = some saved;
        delay = check_interval;
        code = if x.replaced then "" else "update_exec_failed";
      }
    ]

-- From TryUpdate on.
unfoldable pub try_start : Outside → Attempts → Updater → Applied
try_start x r u = elim (try_update u.gate).1 [
  | none ↦ returns u busy_interval ""
  | some lease ↦
      (let leased : Updater = record u { gate = (try_update u.gate).0 } in
        if x.safe_after
        then start x r (some lease) leased
        else returns (record leased { gate = release leased.gate (some lease) }) busy_interval "")
]

-- What prepare's code does.
unfoldable pub after_prepare : String → Outside → Attempts → Updater → Applied
after_prepare target x r u = elim x.prepared [
  | none ↦ try_start x r u
  | some code ↦
      if is (String-discrete code "update_candidate_invalid")
      then returns (record u { rejected = target; rejected_at = x.prepared_at }) check_interval code
      else returns u check_interval code
]

-- With the record of this target.
unfoldable pub apply_record : String → Outside → Attempts → Updater → Applied
apply_record target x r u =
    if not (allowed x.now r)
    then returns u check_interval (failure_code r)
    else if not x.safe_before
    then returns u busy_interval ""
    else if is (String-discrete u.rejected target) && ltb (x.now - u.rejected_at) rejected_retry
    then returns u check_interval "update_candidate_invalid"
    else after_prepare target x r u

abbrev pub record_of : String → Attempts → Attempts
record_of target r =
    if is (String-discrete r.target target)
    then r
    else record { schema = 1; target = target; attempts = 0; last_attempt_at = 0; last_error = "" }

-- apply, on the name of a target.
unfoldable pub apply : (String → Bool) → String → Outside → Updater → Applied
apply is_code target x u = elim x.lock [
  | locked ↦ returns u busy_interval ""
  | lock_failed ↦ returns u check_interval "update_state_invalid"
  | held ↦ elim (load_attempts is_code x.unopened u.file) [
    | none ↦ returns u check_interval "update_state_invalid"
    | some r ↦ apply_record target x (record_of target r) u
  ]
]
