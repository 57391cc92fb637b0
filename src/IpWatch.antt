-- ===== src/IpWatch.antt =====
-- internal/modules/ipwatch/monitor.go and module.go: what the node has told the controller about
-- its public addresses, and the reconciliation of a ChangeIP. The monitor's mutex makes each
-- method one step; a step of the IPv4 loop is two, as the mutex is released while the address is
-- observed (`next_ipv4`, then `observed_ipv4`). Times are numbers, in seconds; the text of an
-- observation's time and the new report's id come from outside.
pub mod Change
pub mod Open
pub mod Loop
pub mod Observed
pub mod Invariant
pub mod Reports
pub mod Valid
pub mod Reopen
pub mod Tests
use akastr_agent.Base.{
  ℕ, ◌+◌, String, Bool, true, false, ◌&&◌, ◌||◌, not, Option, none, some, List, [], ◌∷◌, ltb, leb,
  ◌==◌, if◌then◌else◌, is, is_some, Result, ok, err, ◌>>=◌, ◌>>◌, refuse, String-discrete,
}
use akastr_agent.State.{File, SaveStep, save, load}
use akastr_agent.Protocol.{valid_uuid}

pub record Outcome : Type 0 where
  pub report_id : String
  pub changed : Bool
  pub address : String
  pub observed_at : String

pub record Attempt : Type 0 where
  pub command_id : String
  pub address : String
  pub reconcile_at : ℕ
  pub confirmations : ℕ
  pub outcome : Option Outcome

-- monitorState
pub record Persisted : Type 0 where
  pub schema_version : ℕ
  pub change_attempt : Option Attempt

pub data Family : Type 0 where
  ipv4 ipv6 : Family

-- protocol.ReportBody with AddressData or UnchangedData.
pub data Report : Type 0 where
  address_report : String → Family → String → String → Option String → Report
  unchanged_report : String → String → String → String → Report

-- addressReport; its data names no command.
pub record Pending : Type 0 where
  pub id : String
  pub family : Family
  pub address : String
  pub observed_at : String

pub record FamilyState : Type 0 where
  pub reported : String
  pub pending : Option Pending
  pub announce : Bool

pub record Monitor : Type 0 where
  pub file : File Persisted
  pub interval : ℕ
  pub observe_ipv6 : Bool
  pub persisted : Persisted
  pub ipv4 : FamilyState
  pub ipv6 : FamilyState

pub data Error : Type 0 where
  invalid_options load_failed bad_schema invalid_attempt invalid_outcome : Error
  invalid_command invalid_input already_active not_settled not_active : Error
  save_failed : SaveStep → Error

abbrev pub change_reconcile_grace : ℕ
change_reconcile_grace = 120

abbrev pub change_unchanged_confirmations : ℕ
change_unchanged_confirmations = 2

abbrev pub change_observe_interval : ℕ
change_observe_interval = 10

-- addressReport.body
abbrev pub body : Pending → Report
body p = address_report p.id p.family p.address p.observed_at none

-- outcomeReport
abbrev pub outcome_report : Attempt → Outcome → Report
outcome_report a o =
    if o.changed
    then address_report o.report_id ipv4 o.address o.observed_at (some a.command_id)
    else unchanged_report o.report_id a.command_id o.address o.observed_at

-- familyState.observed
unfoldable pub observed :
    String → Family → String → String → FamilyState → FamilyState × Option Report
observed id family address at f =
    if not f.announce && is (String-discrete address f.reported)
    then (f, none)
    else (let p : Pending = record {
      id = id;
      family = family;
      address = address;
      observed_at = at;
    } in
        (record f { announce = false; pending = some p }, some (body p)))

-- NotifyControlReady; waking the loops is a matter of time only.
abbrev renewed : FamilyState → FamilyState
renewed f = record f { pending = none; announce = true }

unfoldable pub notify_control_ready : Monitor → Monitor
notify_control_ready m = record m { ipv4 = renewed m.ipv4; ipv6 = renewed m.ipv6 }

-- AddressSettled
unfoldable pub address_settled : Monitor → Bool
address_settled m =
    not (is (String-discrete m.ipv4.reported ""))
    && not (is_some m.ipv4.pending)
    && not m.ipv4.announce

-- reconciling
abbrev pub reconciling : Monitor → Bool
reconciling m = is_some m.persisted.change_attempt

-- ipv4Delay
unfoldable pub ipv4_delay : Monitor → ℕ
ipv4_delay m =
    if reconciling m && ltb change_observe_interval m.interval
    then change_observe_interval
    else m.interval

-- ChangeAddress
unfoldable pub change_address : String → Monitor → Option String
change_address id m = elim m.persisted.change_attempt [
  | none ↦ none
  | some a ↦ if is (String-discrete a.command_id id) then some a.address else none
]

-- Saving the next attempt, and what follows: on an error the monitor keeps the one it had.
unfoldable pub commit : Option SaveStep → Option Attempt → Monitor → Monitor × Option SaveStep
commit fault attempt m =
    let next = record m.persisted { change_attempt = attempt } in
    let (file', failure) = save fault next m.file in
    elim failure [
      | none ↦ (record m { file = file'; persisted = next }, none)
      | some s ↦ (record m { file = file' }, some s)
    ]

abbrev pub saved : Option SaveStep → Result Error (Unit {0})
saved none = ok tt
saved (some s) = err (save_failed s)
