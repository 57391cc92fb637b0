-- ===== src/IpWatch/Loop.antt =====
-- The loops of internal/modules/ipwatch/monitor.go, and the histories of a monitor: calls of its
-- methods between the two halves of a step of the IPv4 loop, which alone decides outcomes. A half
-- decides on a report under the lock; it is published once the lock is released, so that other calls
-- may come before its publication, which changes nothing of the monitor.
use akastr_agent.Base.{
  ℕ, ◌+◌, String, Bool, true, false, not, Option, none, some, List, [], ◌∷◌, ltb, leb,
  if◌then◌else◌, is, Result, ok, err, String-discrete,
}
use akastr_agent.State.{SaveStep}
use akastr_agent.IpWatch.Change.{arm_change, cancel_change, acknowledge}
use akastr_agent.IpWatch.{
  Monitor, Attempt, ipv4, ipv6, FamilyState, Report, Error, save_failed, observed, body,
  outcome_report, change_unchanged_confirmations, commit, notify_control_ready,
}

-- What the first half of a step of the IPv4 loop finds to do.
pub data Next : Type 0 where
  resend : Report → Next
  observe : Next

abbrev pub next_pending : FamilyState → Next
next_pending f = elim f.pending [ some p ↦ resend (body p) | none ↦ observe ]

abbrev pub next_attempt : Option Attempt → FamilyState → Next
next_attempt none f = next_pending f
next_attempt (some a) f = elim a.outcome [
  | some o ↦ resend (outcome_report a o)
  | none ↦ next_pending f
]

-- The first half of stepIPv4, up to the release of the lock.
unfoldable pub next_ipv4 : Monitor → Next
next_ipv4 m = next_attempt m.persisted.change_attempt m.ipv4

-- What an observation is: the address, the text of its time, and the id of the report that it may
-- make.
pub record Observation : Type 0 where
  pub address : String
  pub observed_at : String
  pub report_id : String

-- An attempt after an observation, or none when it comes within the grace period.
unfoldable pub settle : ℕ → Observation → Attempt → Option Attempt
settle now o a =
    if not (is (String-discrete o.address a.address))
    then some (record a {
      outcome = some (record {
        report_id = o.report_id;
        changed = true;
        address = o.address;
        observed_at = o.observed_at;
      });
    })
    else if not (ltb now a.reconcile_at)
    then some (record a {
      confirmations = a.confirmations + 1;
      outcome =
          if leb change_unchanged_confirmations (a.confirmations + 1)
          then some (record {
            report_id = o.report_id;
            changed = false;
            address = o.address;
            observed_at = o.observed_at;
          })
          else a.outcome;
    })
    else none

abbrev pub settled_report : Attempt → Option Report
settled_report a = elim a.outcome [ none ↦ none | some o ↦ some (outcome_report a o) ]

abbrev pub after_commit :
    Attempt → Monitor × Option SaveStep → Monitor × Result Error (Option Report)
after_commit a c = (c.0, elim c.1 [ none ↦ ok (settled_report a) | some s ↦ err (save_failed s) ])

unfoldable pub observed_attempt :
    Option SaveStep
    → ℕ
    → Observation
    → Option Attempt
    → Monitor
    → Monitor × Result Error (Option Report)
observed_attempt fault now o none m =
    let (f, report) = observed o.report_id ipv4 o.address o.observed_at m.ipv4 in
    (record m { ipv4 = f }, ok report)
observed_attempt fault now o (some a) m = elim (settle now o a) [
  | none ↦ (m, ok none)
  | some s ↦ after_commit s (commit fault (some s) m)
]

-- The second half of stepIPv4, on a successful observation: the report to publish afterwards, if any.
unfoldable pub observed_ipv4 :
    Option SaveStep → ℕ → Observation → Monitor → Monitor × Result Error (Option Report)
observed_ipv4 fault now o m = observed_attempt fault now o m.persisted.change_attempt m

-- The second half of stepIPv6; the first is `next_pending` of its family.
unfoldable pub observed_ipv6 : Observation → Monitor → Monitor × Option Report
observed_ipv6 o m =
    let (f, report) = observed o.report_id ipv6 o.address o.observed_at m.ipv6 in
    (record m { ipv6 = f }, report)

-- A monitor at work: whether the IPv4 loop, or the IPv6 loop, is between its two halves.
pub record Watch : Type 0 where
  pub monitor : Monitor
  pub observing : Bool
  pub observing_ipv6 : Bool

pub data Call : Type 0 where
  notifies looks looks_ipv6 gives_up gives_up_ipv6 : Call
  arms : Option SaveStep → String → String → ℕ → Call
  cancels acknowledges : Option SaveStep → String → Call
  observes : Option SaveStep → ℕ → Observation → Call
  observes_ipv6 : Observation → Call

abbrev pub published : Next → List Report
published (resend r) = r ∷ []
published observe = []

abbrev pub is_observe : Next → Bool
is_observe (resend r) = false
is_observe observe = true

abbrev pub to_publish : Result Error (Option Report) → List Report
to_publish (ok (some r)) = r ∷ []
to_publish _ = []

abbrev pub option_list : Option Report → List Report
option_list (some r) = r ∷ []
option_list none = []

module _ (is_ipv4 : String → Bool) where
  -- One step, and the reports that its loop is to publish after it. A half that is not due does nothing, and an
  -- observation that fails (`gives_up`) ends the step.
  unfoldable pub step : Watch → Call → Watch × List Report
  step w notifies = (record w { monitor = notify_control_ready w.monitor }, [])
  step w (arms fault id address started_at) =
      (record w { monitor = (arm_change is_ipv4 fault id address started_at w.monitor).0 }, [])
  step w (cancels fault id) = (record w { monitor = (cancel_change fault id w.monitor).0 }, [])
  step w (acknowledges fault id) = (record w { monitor = (acknowledge fault id w.monitor).0 }, [])
  step w looks = if w.observing then (w, []) else (
    record w { observing = is_observe (next_ipv4 w.monitor) },
    published (next_ipv4 w.monitor),
  )
  step w gives_up = (record w { observing = false }, [])
  step w (observes fault now o) =
      if w.observing
      then (let (m, r) = observed_ipv4 fault now o w.monitor in
          (record w { monitor = m; observing = false }, to_publish r))
      else (w, [])
  step w looks_ipv6 = if w.observing_ipv6 then (w, []) else (
    record w { observing_ipv6 = is_observe (next_pending w.monitor.ipv6) },
    published (next_pending w.monitor.ipv6),
  )
  step w gives_up_ipv6 = (record w { observing_ipv6 = false }, [])
  step w (observes_ipv6 o) =
      if w.observing_ipv6
      then (let (m, r) = observed_ipv6 o w.monitor in
          (record w { monitor = m; observing_ipv6 = false }, option_list r))
      else (w, [])

  unfoldable pub run : Watch → List Call → Watch
  run w [] = w
  run w (c ∷ cs) = run (step w c).0 cs
