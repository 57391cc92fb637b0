-- ===== src/ChangeIp.antt =====
-- internal/modules/changeip/handler.go: the command that asks a provider for a new address, with the
-- IP monitor as its reconciler. Between the arming of the attempt and the end of the provider's run
-- the monitor's loops and the controller go on: their calls are the argument `meanwhile`.
pub mod Reconciliation
pub mod Tests
use akastr_agent.Base.{
  ℕ, String, ◌≡◌, refl, Bool, true, false, not, Option, none, some, List, Result, ok, err, is,
  String-discrete, if◌then◌else◌,
}
use akastr_agent.State.{SaveStep}
use akastr_agent.IpWatch.Change.{arm_change, cancel_change}
use akastr_agent.IpWatch.{Monitor, Attempt, address_settled, change_address, Error}
use akastr_agent.IpWatch.Loop.{Observation, Watch, Call, run}

pub data TriggerState : Type 0 where
  trigger_confirmed trigger_unknown trigger_failed : TriggerState

-- The provider's Result, without its exit code and start time.
pub record Trigger : Type 0 where
  pub state : TriggerState
  pub code : String
  pub finished_at : String

-- protocol.ExecutionResult with changeResult; the old address may be missing.
pub record ChangeResult : Type 0 where
  pub outcome : String
  pub code : String
  pub old_ipv4 : Option String
  pub observed_at : String

-- reconciliationPending
abbrev pub reconciliation_pending : Option String → String → ChangeResult
reconciliation_pending old at = record {
  outcome = "succeeded";
  code = "change_trigger_unknown";
  old_ipv4 = old;
  observed_at = at;
}

-- failure
abbrev pub failure : String → Option String → String → ChangeResult
failure code old at = record { outcome = "failed"; code = code; old_ipv4 = old; observed_at = at }

-- Accepting
unfoldable pub accepting : Option Monitor → Bool
accepting none = false
accepting (some m) = address_settled m

-- Recover, on the expected address of the command's payload.
unfoldable pub recover : String → String → String → Option Monitor → ChangeResult
recover id expected now none = reconciliation_pending (some expected) now
recover id expected now (some m) = elim (change_address id m) [
  | none ↦ reconciliation_pending (some expected) now
  | some persisted ↦ reconciliation_pending (some persisted) now
]

-- What a run of the handler finds outside it: whether the payload is valid and the address that it
-- expects, the observation, if it succeeds, the texts of the time, and the provider's answer.
pub record Outside : Type 0 where
  pub payload : Option String
  pub observation : Option Observation
  pub started_at : ℕ
  pub now : String
  pub arm_fault : Option SaveStep
  pub cancel_fault : Option SaveStep
  pub meanwhile : List Call
  pub trigger : Trigger

-- A run: the monitor at work afterwards, the one that the provider was asked with, if it was, and the
-- result.
pub record Run : Type 0 where
  pub after : Watch
  pub asked : Option Watch
  pub result : ChangeResult

module _ (is_ipv4 : String → Bool) where
  -- What follows the provider's failure.
  failed_trigger : String → String → Outside → Watch → Watch → Run
  failed_trigger id before x asked w = elim (cancel_change x.cancel_fault id w.monitor).1 [
    | err _ ↦ record {
      after = record w { monitor = (cancel_change x.cancel_fault id w.monitor).0 };
      asked = some asked;
      result = reconciliation_pending (some before) x.trigger.finished_at;
    }
    | ok _ ↦ record {
      after = record w { monitor = (cancel_change x.cancel_fault id w.monitor).0 };
      asked = some asked;
      result = failure x.trigger.code (some before) x.trigger.finished_at;
    }
  ]

  -- Once the provider has answered.
  answered : String → String → Outside → Watch → Watch → TriggerState → Run
  unfolding failed_trigger
  answered id before x asked w trigger_failed = failed_trigger id before x asked w
  answered id before x asked w trigger_unknown = record {
    after = w;
    asked = some asked;
    result = reconciliation_pending (some before) x.trigger.finished_at;
  }
  answered id before x asked w trigger_confirmed = record {
    after = w;
    asked = some asked;
    result = record {
      outcome = "succeeded";
      code = "change_triggered";
      old_ipv4 = some before;
      observed_at = x.trigger.finished_at;
    };
  }

  -- The arming of the attempt, and the provider.
  arm_and_ask : String → String → Outside → Watch → Monitor × Result Error (Unit {0}) → Run
  unfolding answered
  arm_and_ask id before x w (m, err _) = record {
    after = record w { monitor = m };
    asked = none;
    result = failure "reconciliation_state_failed" (some before) x.now;
  }
  arm_and_ask id before x w (m, ok _) =
      let armed : Watch = record w { monitor = m } in
      answered id before x armed (run is_ipv4 armed x.meanwhile) x.trigger.state

  observed_before : String → String → Outside → Watch → Option Observation → Run
  unfolding arm_and_ask
  observed_before id expected x w none = record {
    after = w;
    asked = none;
    result = failure "ipv4_observe_failed" none x.now;
  }
  observed_before id expected x w (some o) =
      if not (is (String-discrete o.address expected))
      then record {
        after = w;
        asked = none;
        result = failure "stale_expected_ipv4" (some o.address) o.observed_at;
      }
      else arm_and_ask id o.address x w
          (arm_change is_ipv4 x.arm_fault id o.address x.started_at w.monitor)

  -- Handler.Run, with a reconciler.
  unfoldable pub handle : String → Outside → Watch → Run
  unfolding observed_before
  handle id x w = elim x.payload [
    | none ↦ record { after = w; asked = none; result = failure "payload_invalid" none x.now }
    | some expected ↦ observed_before id expected x w x.observation
  ]
