-- ===== src/IpWatch/Valid.antt =====
-- The states that pass the checks of a loaded one, and that every call keeps them so, in memory and
-- in the reconciliation file.
use akastr_agent.Base.{
  ℕ, String, ◌≡◌, ◌⊎◌, inl, inr, refl, sym, ap, subst, ◌∙◌, Bool, true, false, Option, none, some,
  ok, Option-cases, String-discrete, arith,
}
use akastr_agent.State.{File, Stored, missing, holds, SaveStep, save}
use akastr_agent.State.Atomic.{save_atomic}
use akastr_agent.Protocol.{valid_uuid}
use akastr_agent.IpWatch.Change.{
  outcome_of, arm_attempt, arm_change, cancel_change, acknowledge_pending, acknowledge_outcome,
  acknowledged, acknowledge, armed,
}
use akastr_agent.IpWatch.Open.{
  check_outcome, check_attempt, validate_monitor_state, open_loaded, open_monitor,
}
use akastr_agent.IpWatch.{Persisted, Monitor, Attempt, Outcome, commit, notify_control_ready}
use akastr_agent.IpWatch.Loop.{
  Observation, settle, observed_attempt, observed_ipv4, observed_ipv6, Watch, Call, notifies, looks,
  looks_ipv6, gives_up, gives_up_ipv6, arms, cancels, acknowledges, observes, observes_ipv6, step,
}
use akastr_agent.IpWatch.Observed.{Inv}

module _ (is_ipv4 is_time : String → Bool) where
  -- A state that passes the checks of a loaded one.
  abbrev pub IsValid : Persisted → Type 0
  IsValid p = validate_monitor_state is_ipv4 is_time p ≡ ok tt

  pub open-Inv :
      (unopened : Bool) (file : File Persisted) (interval : ℕ) (observe_ipv6 : Bool) (m : Monitor)
      → open_monitor is_ipv4 is_time unopened file interval observe_ipv6 ≡ ok m
      → Inv false m
  unfolding open_monitor open_loaded validate_monitor_state check_attempt check_outcome
  open-Inv unopened file interval observe_ipv6 m e = record {
    held = λ a p. ground arith;
    undecided = λ p. ground arith;
    settled = λ a o p q. ground arith;
  }

  -- What the state file holds between two calls: nothing, or a valid state.
  abbrev pub IsMonitorFile : Stored Persisted → Type 0
  IsMonitorFile stored = (stored ≡ missing) ⊎ ((p : Persisted) × (stored ≡ holds p) × IsValid p)

  pub record IsSound (m : Monitor) : Type 0 where
    pub memory : IsValid m.persisted
    pub disk : IsMonitorFile m.file.stored

  -- An observation of the provider, whose report has a new identifier.
  pub record IsGood (x : Observation) : Type 0 where
    pub good_address : is_ipv4 x.address ≡ true
    pub good_time : is_time x.observed_at ≡ true
    pub good_id : valid_uuid x.report_id ≡ true

  unfoldable pub IsGoodCall : Call → Type 0
  IsGoodCall (observes fault now x) = IsGood x
  IsGoodCall _ = Unit

  commit-IsSound :
      (fault : Option SaveStep) (next : Option Attempt) (m : Monitor)
      → IsValid (record m.persisted { change_attempt = next })
      → IsSound m
      → IsSound (commit fault next m).0
  unfolding commit
  commit-IsSound fault next m w v =
      let p : Persisted = record m.persisted { change_attempt = next } in
      let disk : IsMonitorFile (save fault p m.file).0.stored =
        elim (save_atomic fault p m.file).0 [
          | inl new ↦ inr (p, new, w)
          | inr old ↦ subst IsMonitorFile (sym old) v.disk
        ] in
      elim (Option-cases (save fault p m.file).1) [
        | inl q ↦ rw (q, commit) (record { memory = w; disk = disk })
        | inr (s, q) ↦ rw (q, commit) (record { memory = v.memory; disk = disk })
      ]

  same-IsSound :
      (m m' : Monitor) → m'.file ≡ m.file → m'.persisted ≡ m.persisted → IsSound m → IsSound m'
  same-IsSound m m' f p v = record {
    memory = subst IsValid (sym p) v.memory;
    disk = subst (λ f. IsMonitorFile f.stored) (sym f) v.disk;
  }

  none-IsValid : (p : Persisted) → IsValid p → IsValid (record p { change_attempt = none })
  unfolding validate_monitor_state check_attempt
  none-IsValid p v = ground arith

  settle-IsValid :
      (now : ℕ) (x : Observation) (p : Persisted) (a s : Attempt)
      → IsGood x
      → IsValid p
      → p.change_attempt ≡ some a
      → a.outcome ≡ none
      → settle now x a ≡ some s
      → IsValid (record p { change_attempt = some s })
  unfolding validate_monitor_state check_attempt check_outcome settle
  settle-IsValid now x p a s g v e n q = ground arith

  armed-IsValid :
      (id address : String) (at : ℕ) (p : Persisted)
      → valid_uuid id ≡ true
      → is_ipv4 address ≡ true
      → IsValid p
      → IsValid (record p { change_attempt = some (armed id address at) })
  unfolding validate_monitor_state check_attempt check_outcome
  armed-IsValid id address at p u a v = ground arith

  arm-IsSound :
      (fault : Option SaveStep) (id address : String) (at : ℕ) (m : Monitor)
      → IsSound m
      → IsSound (arm_change is_ipv4 fault id address at m).0
  unfolding arm_change arm_attempt
  arm-IsSound fault id address at m v = ground (arith, kept)
    where
      kept :
          valid_uuid id ≡ true
          → is_ipv4 address ≡ true
          → IsSound (commit fault (some (armed id address at)) m).0
      kept u a =
          commit-IsSound fault (some (armed id address at)) m
            (armed-IsValid id address at m.persisted u a v.memory) v

  cancel-IsSound :
      (fault : Option SaveStep) (id : String) (m : Monitor)
      → IsSound m
      → IsSound (cancel_change fault id m).0
  unfolding cancel_change
  cancel-IsSound fault id m v =
      ground (arith, commit-IsSound fault none m (none-IsValid m.persisted v.memory) v)

  acknowledged-IsSound :
      (o : Outcome) (c : Monitor × Option SaveStep) → IsSound c.0 → IsSound (acknowledged o c).0
  acknowledged-IsSound o (m, none) v = same-IsSound m (acknowledged o (m, none)).0 refl refl v
  acknowledged-IsSound o (m, some s) v = v

  pending-IsSound :
      (report : String) (m : Monitor) → IsSound m → IsSound (acknowledge_pending report m).0
  unfolding acknowledge_pending
  pending-IsSound report m v =
      same-IsSound m (acknowledge_pending report m).0 (ground arith) (ground arith) v

  acknowledge-IsSound :
      (fault : Option SaveStep) (report : String) (m : Monitor) (x : Option Outcome)
      → IsSound m
      → IsSound (acknowledge_outcome fault report x m).0
  unfolding acknowledge_outcome
  acknowledge-IsSound fault report m none v = pending-IsSound report m v
  acknowledge-IsSound fault report m (some o) v = ground (
    arith,
    pending-IsSound report m v,
    acknowledged-IsSound o (commit fault none m)
        (commit-IsSound fault none m (none-IsValid m.persisted v.memory) v),
  )

  observed-IsSound :
      (fault : Option SaveStep) (now : ℕ) (x : Observation) (m : Monitor)
      → Inv true m
      → IsGood x
      → IsSound m
      → (o : Option Attempt) → m.persisted.change_attempt ≡ o
      → IsSound (observed_attempt fault now x o m).0
  unfolding observed_attempt
  observed-IsSound fault now x m i g v none e =
      same-IsSound m (observed_attempt fault now x none m).0 refl refl v
  observed-IsSound fault now x m i g v (some a) e = go (settle now x a) refl
    where
      go :
          (o : Option Attempt)
          → settle now x a ≡ o
          → IsSound (observed_attempt fault now x (some a) m).0
      go none q = rw (q, observed_attempt) v
      go (some s) q =
          rw (q, observed_attempt)
            (commit-IsSound fault (some s) m
              (settle-IsValid now x m.persisted a s g v.memory e
                (ap outcome_of (sym e) ∙ i.undecided refl) q)
              v)

  pub step-IsSound :
      (w : Watch) (c : Call)
      → Inv w.observing w.monitor
      → IsGoodCall c
      → IsSound w.monitor
      → IsSound (step is_ipv4 w c).0.monitor
  unfolding step IsGoodCall acknowledge observed_ipv4 observed_ipv6 notify_control_ready
  step-IsSound w notifies i g v =
      same-IsSound w.monitor (notify_control_ready w.monitor) refl refl v
  step-IsSound w (arms fault id address at) i g v = arm-IsSound fault id address at w.monitor v
  step-IsSound w (cancels fault id) i g v = cancel-IsSound fault id w.monitor v
  step-IsSound w (acknowledges fault id) i g v =
      acknowledge-IsSound fault id w.monitor (outcome_of w.monitor.persisted.change_attempt) v
  step-IsSound w looks i g v = ground (arith, v)
  step-IsSound w gives_up i g v = v
  step-IsSound w (observes fault now x) i g v = ground (arith, v, kept)
    where
      kept :
          w.observing ≡ true
          → IsSound (observed_attempt fault now x w.monitor.persisted.change_attempt w.monitor).0
      kept h =
          observed-IsSound fault now x w.monitor (subst (λ b. Inv b w.monitor) h i) g v
            w.monitor.persisted.change_attempt refl
  step-IsSound w looks_ipv6 i g v = ground (arith, v)
  step-IsSound w gives_up_ipv6 i g v = v
  step-IsSound w (observes_ipv6 x) i g v =
      ground (arith, v, same-IsSound w.monitor (observed_ipv6 x w.monitor).0 refl refl v)
