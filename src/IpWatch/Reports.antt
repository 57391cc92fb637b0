-- ===== src/IpWatch/Reports.antt =====
-- What a monitor tells the controller while a ChangeIP is open, and for how long it does.
use akastr_agent.Base.{
  ℕ, String, ◌≡◌, ◌≢◌, ◌⊎◌, inl, inr, refl, sym, ap, subst, ◌∙◌, Bool, true, false, Option, none,
  some, [], ◌∷◌, All, is, Option-cases, String-discrete, arith,
}
use akastr_agent.State.{SaveStep}
use akastr_agent.IpWatch.Change.{
  outcome_of, arm_attempt, arm_change, cancel_change, acknowledge_outcome, acknowledged,
  acknowledge,
}
use akastr_agent.IpWatch.{
  Monitor, Attempt, Outcome, ipv4, FamilyState, Report, address_report, unchanged_report,
  outcome_report, commit, notify_control_ready,
}
use akastr_agent.IpWatch.Loop.{
  Observation, next_ipv4, settle, settled_report, after_commit, next_attempt, observed_attempt,
  observed_ipv4, observed_ipv6, Watch, Call, notifies, looks, looks_ipv6, gives_up, gives_up_ipv6,
  arms, cancels, acknowledges, observes, observes_ipv6, step, published, to_publish, option_list,
}
use akastr_agent.IpWatch.Observed.{Inv, IsSettled, Committed, commit-Committed}
use akastr_agent.IpWatch.Invariant.{acknowledge_pending_keeps}

-- A report that is the outcome of an attempt, under its command: an address that differs from the
-- one before, or the same one.
pub IsAbout : Attempt → Report → Type 0
IsAbout a (address_report id f address at command) =
    (f ≡ ipv4) × (command ≡ some a.command_id) × (address ≢ a.address)
IsAbout a (unchanged_report id command address at) =
    (command ≡ a.command_id) × (address ≡ a.address)

outcome_report-IsAbout :
    (a : Attempt) (o : Outcome) → IsSettled a o → IsAbout a (outcome_report a o)
unfolding IsAbout
outcome_report-IsAbout a o s = ground (arith, s.changed, s.unchanged)

next_attempt-IsAbout :
    (a : Attempt) (f : FamilyState)
    → f.pending ≡ none
    → ((o : Outcome) → a.outcome ≡ some o → IsSettled a o)
    → All (IsAbout a) (published (next_attempt (some a) f))
unfolding IsAbout
next_attempt-IsAbout a f q s = elim (Option-cases a.outcome) [
  | inl n ↦ rw (n, q) tt
  | inr (o, n) ↦ rw (n) (outcome_report-IsAbout a o (s o n), tt)
]

-- The attempt after an observation has the command and the address that it had.
settle_report :
    (now : ℕ) (x : Observation) (a s : Attempt)
    → a.outcome ≡ none
    → settle now x a ≡ some s
    → All (IsAbout a) (option_list (settled_report s))
unfolding settle IsAbout
settle_report now x a s n e = ground arith

-- It is published once it is saved.
after_commit-IsAbout :
    (a s : Attempt) (c : Monitor × Option SaveStep)
    → All (IsAbout a) (option_list (settled_report s))
    → All (IsAbout a) (to_publish (after_commit s c).1)
after_commit-IsAbout a s (m, none) h = ground arith
after_commit-IsAbout a s (m, some x) h = tt

observed_attempt-IsAbout :
    (fault : Option SaveStep) (now : ℕ) (x : Observation) (a : Attempt) (m : Monitor)
    → a.outcome ≡ none
    → All (IsAbout a) (to_publish (observed_attempt fault now x (some a) m).1)
unfolding observed_attempt
observed_attempt-IsAbout fault now x a m n = go (settle now x a) refl
  where
    go :
        (o : Option Attempt)
        → settle now x a ≡ o
        → All (IsAbout a) (to_publish (observed_attempt fault now x (some a) m).1)
    go none q = rw (q, observed_attempt) tt
    go (some s) q =
        rw (q, observed_attempt)
          (after_commit-IsAbout a s (commit fault (some s) m) (settle_report now x a s n q))

-- While a ChangeIP is open, each report that a step of the IPv4 loop decides on, sent again or new,
-- is the outcome of that ChangeIP and names its command: either an address other than the one before
-- it, or that same address as unchanged. A report that was decided on before may still be published.
pub step-IsAbout :
    (is_ipv4 : String → Bool) (fault : Option SaveStep) (now : ℕ) (x : Observation) (w : Watch)
    (a : Attempt)
    → Inv w.observing w.monitor
    → w.monitor.persisted.change_attempt ≡ some a
    → All (IsAbout a) (step is_ipv4 w looks).1
      × All (IsAbout a) (step is_ipv4 w (observes fault now x)).1
unfolding step next_ipv4 observed_ipv4
step-IsAbout is_ipv4 fault now x w a v e = (ground (arith, looked), ground (arith, seen))
  where
    looked :
        All (IsAbout a) (published (next_attempt w.monitor.persisted.change_attempt w.monitor.ipv4))
    looked =
        subst (λ o. All (IsAbout a) (published (next_attempt o w.monitor.ipv4))) (sym e)
          (next_attempt-IsAbout a w.monitor.ipv4 (v.held a e) (λ o. v.settled a o e))

    seen :
        w.observing ≡ true
        → All (IsAbout a) (
            to_publish
              (observed_attempt fault now x w.monitor.persisted.change_attempt w.monitor).1)
    seen h =
        subst (λ o. All (IsAbout a) (to_publish (observed_attempt fault now x o w.monitor).1))
          (sym e)
          (observed_attempt-IsAbout fault now x a w.monitor (ap outcome_of (sym e) ∙ v.undecided h))

-- What a step may do to a decided outcome: nothing, or drop it with its attempt.
pub IsKept : Attempt → Option Attempt → Bool → Type 0
IsKept a next acknowledged = (next ≡ some a) ⊎ ((acknowledged ≡ true) × (next ≡ none))

-- The call that the controller makes once it has stored a report.
abbrev pub acknowledges_report : String → Call → Bool
acknowledges_report id (acknowledges fault report) = is (String-discrete id report)
acknowledges_report id _ = false

acknowledged_keeps :
    (o : Outcome) (m : Monitor) (c : Monitor × Option SaveStep)
    → Committed m none c
    → ((acknowledged o c).0.persisted.change_attempt ≡ none)
      ⊎ ((acknowledged o c).0.persisted.change_attempt ≡ m.persisted.change_attempt)
acknowledged_keeps o m (n, none) k = ground (arith, k.attempt)
acknowledged_keeps o m (n, some s) k = elim k.attempt [
  | inl (h, _) ↦ cc
  | inr (_, _, p) ↦ inr (ap (λ x. x.change_attempt) p)
]

-- The method on a decided attempt.
module _ (m : Monitor) (a : Attempt) (o : Outcome) (e : m.persisted.change_attempt ≡ some a)
    (q : a.outcome ≡ some o) where
  arms-IsKept :
      (is_ipv4 : String → Bool) (fault : Option SaveStep) (id address : String) (at : ℕ)
      → (arm_change is_ipv4 fault id address at m).0.persisted.change_attempt ≡ some a
  unfolding arm_change arm_attempt
  arms-IsKept is_ipv4 fault id address at = ground arith

  cancels-IsKept :
      (fault : Option SaveStep) (id : String)
      → (cancel_change fault id m).0.persisted.change_attempt ≡ some a
  unfolding cancel_change
  cancels-IsKept fault id = ground arith

  acknowledges-IsKept :
      (fault : Option SaveStep) (report : String)
      → IsKept a
          (acknowledge fault report m).0.persisted.change_attempt
          (is (String-discrete o.report_id report))
  unfolding acknowledge acknowledge_outcome IsKept
  acknowledges-IsKept fault report =
      subst
        (λ x.
          IsKept a (acknowledge_outcome fault report x m).0.persisted.change_attempt
            (is (String-discrete o.report_id report)))
        (sym (ap outcome_of e ∙ q))
        (ground (
          arith,
          acknowledged_keeps o m (commit fault none m) (commit-Committed fault none m),
          ap (λ p. p.change_attempt) (acknowledge_pending_keeps report m),
          e,
        ))

-- An outcome that is decided stays as it is, and the IPv4 loop sends it, until it is acknowledged:
-- no other call, ChangeIP's cancellation of its own command included, drops or changes it.
pub step-IsKept :
    (is_ipv4 : String → Bool) (w : Watch) (c : Call) (a : Attempt) (o : Outcome)
    → Inv w.observing w.monitor
    → w.monitor.persisted.change_attempt ≡ some a
    → a.outcome ≡ some o
    → ((step is_ipv4 w looks).1 ≡ outcome_report a o ∷ [])
      × IsKept a
          (step is_ipv4 w c).0.monitor.persisted.change_attempt
          (acknowledges_report o.report_id c)
unfolding step next_ipv4 observed_ipv6 IsKept notify_control_ready
step-IsKept is_ipv4 w c a o v e q = (ground (arith, v.undecided), kept c)
  where
    kept :
        (c : Call)
        → IsKept a
            (step is_ipv4 w c).0.monitor.persisted.change_attempt
            (acknowledges_report o.report_id c)
    kept notifies = inl e
    kept (arms fault id address at) =
        inl (arms-IsKept w.monitor a o e q is_ipv4 fault id address at)
    kept (cancels fault id) = inl (cancels-IsKept w.monitor a o e q fault id)
    kept (acknowledges fault report) = acknowledges-IsKept w.monitor a o e q fault report
    kept looks = inl (ground arith)
    kept gives_up = inl e
    kept (observes fault now x) = inl (ground (arith, v.undecided))
    kept looks_ipv6 = inl (ground arith)
    kept gives_up_ipv6 = inl e
    kept (observes_ipv6 x) = inl (ground arith)
