-- ===== src/IpWatch/Change.antt =====
-- The attempts of internal/modules/ipwatch/monitor.go: ArmChange, CancelChange and Acknowledge.
use akastr_agent.Base.{
  ℕ, ◌+◌, String, Bool, true, false, ◌&&◌, ◌||◌, not, Option, none, some, ◌==◌, if◌then◌else◌, is,
  is_some, Result, ok, err, String-discrete,
}
use akastr_agent.State.{SaveStep}
use akastr_agent.Protocol.{valid_uuid}
use akastr_agent.IpWatch.{
  change_reconcile_grace, commit, saved, Outcome, Attempt, FamilyState, Monitor, Error,
  invalid_command, invalid_input, already_active, not_settled, not_active, save_failed,
}

-- CancelChange
unfoldable pub cancel_change :
    Option SaveStep → String → Monitor → Monitor × Result Error (Unit {0})
cancel_change fault id m = elim m.persisted.change_attempt [
  | none ↦ (m, err not_active)
  | some a ↦
      if not (is (String-discrete a.command_id id)) || is_some a.outcome
      then (m, err not_active)
      else (let (m', failure) = commit fault none m in (m', saved failure))
]

-- The loop of Acknowledge over the two families.
unfoldable pub acknowledge_family : String → FamilyState → Option FamilyState
acknowledge_family report f = elim f.pending [
  | none ↦ none
  | some p ↦
      if is (String-discrete p.id report)
      then some (record f { reported = p.address; pending = none })
      else none
]

unfoldable pub acknowledge_pending : String → Monitor → Monitor × Bool
acknowledge_pending report m = elim (acknowledge_family report m.ipv4) [
  | some f ↦ (record m { ipv4 = f }, true)
  | none ↦ elim (acknowledge_family report m.ipv6) [
    | some f ↦ (record m { ipv6 = f }, true)
    | none ↦ (m, false)
  ]
]

abbrev pub acknowledged : Outcome → Monitor × Option SaveStep → Monitor × Result Error Bool
acknowledged o (m, none) = (record m { ipv4 = record m.ipv4 { reported = o.address } }, ok true)
acknowledged o (m, some s) = (m, err (save_failed s))

-- Acknowledge; with an error the report is handled too.
unfoldable pub acknowledge_outcome :
    Option SaveStep → String → Option Outcome → Monitor → Monitor × Result Error Bool
acknowledge_outcome fault report none m =
    let (m', own) = acknowledge_pending report m in (m', ok own)
acknowledge_outcome fault report (some o) m =
    if is (String-discrete o.report_id report)
    then acknowledged o (commit fault none m)
    else (let (m', own) = acknowledge_pending report m in (m', ok own))

abbrev pub outcome_of : Option Attempt → Option Outcome
outcome_of none = none
outcome_of (some a) = a.outcome

unfoldable pub acknowledge : Option SaveStep → String → Monitor → Monitor × Result Error Bool
acknowledge fault report m =
    acknowledge_outcome fault report (outcome_of m.persisted.change_attempt) m

abbrev pub armed : String → String → ℕ → Attempt
armed id address started_at = record {
  command_id = id;
  address = address;
  reconcile_at = started_at + change_reconcile_grace;
  confirmations = 0;
  outcome = none;
}

-- What ArmChange does on an attempt that is there already, or on none.
unfoldable pub arm_attempt :
    Option SaveStep
    → String
    → String
    → ℕ
    → Option Attempt
    → Monitor
    → Monitor × Result Error (Unit {0})
arm_attempt fault id address started_at (some a) m =
    if is (String-discrete a.command_id id) && is (String-discrete a.address address)
    then (m, ok tt)
    else (m, err already_active)
arm_attempt fault id address started_at none m =
    if not (is (String-discrete m.ipv4.reported address))
      || is_some m.ipv4.pending
      || m.ipv4.announce
    then (m, err not_settled)
    else (let (m', failure) = commit fault (some (armed id address started_at)) m in
        (m', saved failure))

-- ArmChange; `is_ipv4` says whether netip reads a text as an IPv4 address.
unfoldable pub arm_change :
    (String → Bool)
    → Option SaveStep
    → String
    → String
    → ℕ
    → Monitor
    → Monitor × Result Error (Unit {0})
arm_change is_ipv4 fault id address started_at m =
    if not (valid_uuid id)
    then (m, err invalid_command)
    else if not (is_ipv4 address) || started_at == 0
    then (m, err invalid_input)
    else arm_attempt fault id address started_at m.persisted.change_attempt m
