-- ===== src/IpWatch/Invariant.antt =====
-- What holds of a monitor between two calls, and what its reports say of an open ChangeIP.
use akastr_agent.Base.{
  String, ◌≡◌, inr, refl, ap, ◌∙◌, Bool, true, Option, none, some, List, [], ◌∷◌, String-discrete,
  arith,
}
use akastr_agent.State.{SaveStep}
use akastr_agent.IpWatch.Change.{
  outcome_of, arm_change, acknowledge_family, acknowledge_pending, acknowledge_outcome,
  acknowledged, acknowledge,
}
use akastr_agent.IpWatch.{Monitor, Attempt, Outcome, FamilyState, commit}
use akastr_agent.IpWatch.Loop.{
  next_ipv4, next_attempt, is_observe, Watch, Call, notifies, looks, looks_ipv6, gives_up,
  gives_up_ipv6, arms, cancels, acknowledges, observes, observes_ipv6, step, run,
}
use akastr_agent.IpWatch.Observed.{
  commit-Committed, same_attempt, commit-Inv, none-Inv, gives_up-Inv, arm_attempt-Inv,
  cancel_change-Inv, notify_control_ready-Inv, observes-Inv, observes_ipv6-Inv, Inv, Committed,
}

pub acknowledge_pending_keeps :
    (report : String) (m : Monitor) → (acknowledge_pending report m).0.persisted ≡ m.persisted
unfolding acknowledge_pending
acknowledge_pending_keeps report m = ground arith

acknowledge_quiet :
    (report : String) (m : Monitor)
    → m.ipv4.pending ≡ none
    → (acknowledge_pending report m).0.ipv4 ≡ m.ipv4
unfolding acknowledge_pending acknowledge_family
acknowledge_quiet report m q = ground arith

-- While an attempt is open only an IPv6 report is acknowledged besides its outcome.
acknowledge_pending-Inv :
    (report : String) (b : Bool) (m : Monitor) → Inv b m → Inv b (acknowledge_pending report m).0
unfolding acknowledge_pending acknowledge_family
acknowledge_pending-Inv report b m v = go m.persisted.change_attempt refl
  where
    go :
        (o : Option Attempt)
        → m.persisted.change_attempt ≡ o
        → Inv b (acknowledge_pending report m).0
    go none e = none-Inv b _ (ap (λ p. p.change_attempt) (acknowledge_pending_keeps report m) ∙ e)
    go (some a) e =
        same_attempt b m v (acknowledge_pending report m).0
          (ap (λ p. p.change_attempt) (acknowledge_pending_keeps report m))
          (inr (ap (λ f. f.pending) (acknowledge_quiet report m (v.held a e))))

acknowledged-Inv :
    (x : Outcome) (b : Bool) (m : Monitor) (c : Monitor × Option SaveStep)
    → Inv b m
    → Committed m none c
    → Inv b c.0
    → Inv b (acknowledged x c).0
acknowledged-Inv x b m (n, none) v k w = none-Inv b _ (ground arith)
acknowledged-Inv x b m (n, some s) v k w = w

acknowledge_outcome-Inv :
    (fault : Option SaveStep) (report : String) (b : Bool) (m : Monitor)
    → Inv b m
    → (x : Option Outcome) → Inv b (acknowledge_outcome fault report x m).0
unfolding acknowledge_outcome
acknowledge_outcome-Inv fault report b m v none = acknowledge_pending-Inv report b m v
acknowledge_outcome-Inv fault report b m v (some x) = ground (
  arith,
  acknowledge_pending-Inv report b m v,
  acknowledged-Inv x b m (commit fault none m) v (commit-Committed fault none m)
      (commit-Inv b m v fault none (λ a e. cc)),
)

observes_undecided :
    (o : Option Attempt) (f : FamilyState)
    → is_observe (next_attempt o f) ≡ true
    → outcome_of o ≡ none
observes_undecided o f = ground arith

looks-Inv : (m : Monitor) (b : Bool) → Inv b m → Inv (is_observe (next_ipv4 m)) m
unfolding next_ipv4
looks-Inv m b v = record {
  held = v.held;
  undecided = observes_undecided m.persisted.change_attempt m.ipv4;
  settled = v.settled;
}

pub step-Inv :
    (is_ipv4 : String → Bool) (w : Watch) (c : Call)
    → Inv w.observing w.monitor
    → Inv (step is_ipv4 w c).0.observing (step is_ipv4 w c).0.monitor
unfolding step acknowledge arm_change
step-Inv is_ipv4 w notifies v = notify_control_ready-Inv w.observing w.monitor v
step-Inv is_ipv4 w (arms fault id address at) v = ground (
  arith,
  arm_attempt-Inv fault id address at w.observing w.monitor v w.monitor.persisted.change_attempt,
)
step-Inv is_ipv4 w (cancels fault id) v = cancel_change-Inv fault id w.observing w.monitor v
step-Inv is_ipv4 w (acknowledges fault id) v =
    acknowledge_outcome-Inv fault id w.observing w.monitor v
      (outcome_of w.monitor.persisted.change_attempt)
step-Inv is_ipv4 w looks v = ground (arith, looks-Inv w.monitor w.observing v)
step-Inv is_ipv4 w gives_up v = gives_up-Inv w.observing w.monitor v
step-Inv is_ipv4 w (observes fault now x) v = ground (arith, observes-Inv fault now x w.monitor)
step-Inv is_ipv4 w looks_ipv6 v = ground arith
step-Inv is_ipv4 w gives_up_ipv6 v = v
step-Inv is_ipv4 w (observes_ipv6 x) v = ground (arith, observes_ipv6-Inv w.observing x w.monitor v)

pub run-Inv :
    (is_ipv4 : String → Bool) (w : Watch) (cs : List Call)
    → Inv w.observing w.monitor
    → Inv (run is_ipv4 w cs).observing (run is_ipv4 w cs).monitor
unfolding run
run-Inv is_ipv4 w [] v = v
run-Inv is_ipv4 w (c ∷ cs) v = run-Inv is_ipv4 (step is_ipv4 w c).0 cs (step-Inv is_ipv4 w c v)
