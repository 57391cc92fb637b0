-- ===== src/IpWatch/Open.antt =====
-- OpenMonitor of internal/modules/ipwatch/monitor.go, and the checks of the state file.
use akastr_agent.Base.{
  ℕ, String, Bool, true, ◌||◌, not, Option, none, some, ltb, ◌==◌, if◌then◌else◌, is, Result, ok,
  err, ◌>>◌, refuse, String-discrete,
}
use akastr_agent.State.{File, load}
use akastr_agent.Protocol.{valid_uuid}
use akastr_agent.IpWatch.{
  Outcome, Attempt, Persisted, FamilyState, Monitor, Error, invalid_options, load_failed,
  bad_schema, invalid_attempt, invalid_outcome,
}

-- What the attempt of a file must be; `is_time` says whether time.Parse reads a text as a time of
-- RFC 3339 other than the zero time.
unfoldable pub check_outcome :
    (String → Bool) → (String → Bool) → Attempt → Option Outcome → Result Error (Unit {0})
check_outcome is_ipv4 is_time a none = ok tt
check_outcome is_ipv4 is_time a (some o) =
    refuse
      (not (valid_uuid o.report_id)
        || not (is_ipv4 o.address)
        || (if o.changed
            then is (String-discrete o.address a.address)
            else not (is (String-discrete o.address a.address)))
        || not (is_time o.observed_at))
      invalid_outcome

unfoldable pub check_attempt :
    (String → Bool) → (String → Bool) → Option Attempt → Result Error (Unit {0})
check_attempt is_ipv4 is_time none = ok tt
check_attempt is_ipv4 is_time (some a) =
    refuse (not (valid_uuid a.command_id) || not (is_ipv4 a.address) || a.reconcile_at == 0)
      invalid_attempt
    >> check_outcome is_ipv4 is_time a a.outcome

-- validateMonitorState; the confirmations, an int of the source, are a ℕ.
unfoldable pub validate_monitor_state :
    (String → Bool) → (String → Bool) → Persisted → Result Error (Unit {0})
validate_monitor_state is_ipv4 is_time p =
    refuse (not (p.schema_version == 1)) bad_schema
    >> check_attempt is_ipv4 is_time p.change_attempt

-- Every process reports the first observation of a family.
abbrev pub unreported : FamilyState
unreported = record { reported = ""; pending = none; announce = true }

abbrev pub fresh : File Persisted → ℕ → Bool → Persisted → Monitor
fresh file interval observe_ipv6 p = record {
  file = file;
  interval = interval;
  observe_ipv6 = observe_ipv6;
  persisted = p;
  ipv4 = unreported;
  ipv6 = unreported;
}

-- The part of OpenMonitor that follows the reading of the file.
unfoldable pub open_loaded :
    (String → Bool)
    → (String → Bool)
    → File Persisted
    → ℕ
    → Bool
    → Result (Unit {0}) (Option Persisted)
    → Result Error Monitor
open_loaded is_ipv4 is_time file interval observe_ipv6 (err _) = err load_failed
open_loaded is_ipv4 is_time file interval observe_ipv6 (ok none) =
    ok (fresh file interval observe_ipv6 (record { schema_version = 1; change_attempt = none }))
open_loaded is_ipv4 is_time file interval observe_ipv6 (ok (some p)) =
    validate_monitor_state is_ipv4 is_time p >> ok (fresh file interval observe_ipv6 p)

-- OpenMonitor, with an observer; `unopened` is an error of the file's opening.
unfoldable pub open_monitor :
    (String → Bool) → (String → Bool) → Bool → File Persisted → ℕ → Bool → Result Error Monitor
open_monitor is_ipv4 is_time unopened file interval observe_ipv6 =
    refuse (ltb interval 10 || ltb 300 interval) invalid_options
    >> open_loaded is_ipv4 is_time file interval observe_ipv6 (load unopened file)
