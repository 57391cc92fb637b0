-- ===== src/ChangeIp/Reconciliation.antt =====
-- When a ChangeIP asks its provider, and what its result says of the attempt that is left open.
use akastr_agent.Base.{
  ℕ, String, ◌≡◌, ◌⊎◌, inl, inr, refl, ap, subst, Bool, Option, none, some, Result, ok, err,
  String-discrete, arith,
}
use akastr_agent.State.{SaveStep}
use akastr_agent.IpWatch.Change.{arm_attempt, armed, arm_change, cancel_change}
use akastr_agent.IpWatch.{Monitor, Attempt, Error, save_failed, saved, commit}
use akastr_agent.IpWatch.Loop.{Observation, Watch, run}
use akastr_agent.IpWatch.Observed.{Committed, commit-Committed}
use akastr_agent.ChangeIp.{
  TriggerState, trigger_confirmed, trigger_unknown, trigger_failed, Outside, Run, failed_trigger,
  answered, arm_and_ask, observed_before, handle,
}

abbrev pub attempt_of : Watch → Option Attempt
attempt_of w = w.monitor.persisted.change_attempt

saved_iff :
    (m : Monitor) (next : Option Attempt) (c : Monitor × Option SaveStep)
    → Committed m next c
    → ((saved c.1 ≡ ok tt) × (c.0.persisted.change_attempt ≡ next))
      ⊎ ((e : Error) × (saved c.1 ≡ err e)
          × (c.0.persisted.change_attempt ≡ m.persisted.change_attempt))
saved_iff m next (n, none) k = ground (arith, k.attempt)
saved_iff m next (n, some s) k = elim k.attempt [
  | inl (h, _) ↦ cc
  | inr (_, _, p) ↦ inr (save_failed s, refl, ap (λ x. x.change_attempt) p)
]

cancel_change_tells :
    (fault : Option SaveStep) (id : String) (m : Monitor)
    → (((cancel_change fault id m).1 ≡ ok tt)
        × ((cancel_change fault id m).0.persisted.change_attempt ≡ none))
      ⊎ ((e : Error) × ((cancel_change fault id m).1 ≡ err e)
          × ((cancel_change fault id m).0.persisted.change_attempt ≡ m.persisted.change_attempt))
unfolding cancel_change
cancel_change_tells fault id m =
    ground (arith, saved_iff m none (commit fault none m) (commit-Committed fault none m))

-- The attempt of a command is open.
pub record IsArmed (id address : String) (o : Option Attempt) : Type 0 where
  pub attempt : Attempt
  pub open_attempt : o ≡ some attempt
  pub own_id : attempt.command_id ≡ id
  pub own_address : attempt.address ≡ address

-- What is done to a monitor and answered: the attempt of the command is open, or none is added.
abbrev Tells : String → String → Monitor → Monitor × Result Error (Unit {0}) → Type 0
Tells id address m c =
    ((c.1 ≡ ok tt) × IsArmed id address c.0.persisted.change_attempt)
    ⊎ ((e : Error) × (c.1 ≡ err e) × (c.0.persisted.change_attempt ≡ m.persisted.change_attempt))

arm_attempt-Tells :
    (fault : Option SaveStep) (id address : String) (at : ℕ) (m : Monitor) (o : Option Attempt)
    → m.persisted.change_attempt ≡ o
    → Tells id address m (arm_attempt fault id address at o m)
unfolding arm_attempt
arm_attempt-Tells fault id address at m (some a) e = ground (arith, was_armed)
  where
    was_armed :
        a.command_id ≡ id → a.address ≡ address → IsArmed id address m.persisted.change_attempt
    was_armed p q = record { attempt = a; open_attempt = e; own_id = p; own_address = q }
arm_attempt-Tells fault id address at m none e = ground (
  arith,
  saved_iff m (some (armed id address at)) (commit fault (some (armed id address at)) m)
      (commit-Committed fault (some (armed id address at)) m),
  is_armed (commit fault (some (armed id address at)) m).0.persisted.change_attempt,
)
  where
    is_armed : (o : Option Attempt) → o ≡ some (armed id address at) → IsArmed id address o
    is_armed o p = record {
      attempt = armed id address at;
      open_attempt = p;
      own_id = refl;
      own_address = refl;
    }

arm_change-Tells :
    (is_ipv4 : String → Bool) (fault : Option SaveStep) (id address : String) (at : ℕ) (m : Monitor)
    → Tells id address m (arm_change is_ipv4 fault id address at m)
unfolding arm_change
arm_change-Tells is_ipv4 fault id address at m =
    ground (arith, arm_attempt-Tells fault id address at m m.persisted.change_attempt refl)

-- What a run of ChangeIP tells. Either it fails without asking the provider, and leaves the attempt
-- as it was; or it asks while the attempt of its command is open, from the address that the command
-- expects, and then it fails and leaves no attempt, or it succeeds and leaves the attempt that the
-- monitor has by then.
pub record NotAsked (w : Watch) (r : Run) : Type 0 where
  pub not_asked : r.asked ≡ none
  pub fails : r.result.outcome ≡ "failed"
  pub untouched : attempt_of r.after ≡ attempt_of w

pub record Asked (is_ipv4 : String → Bool) (id address : String) (x : Outside) (r : Run)
    : Type 0 where
  pub at_work : Watch
  pub asked : r.asked ≡ some at_work
  pub armed_then : IsArmed id address (attempt_of at_work)
  pub ends :
      ((r.result.outcome ≡ "failed")
        × (x.trigger.state ≡ trigger_failed)
        × (attempt_of r.after ≡ none))
      ⊎ ((r.result.outcome ≡ "succeeded")
          × (attempt_of r.after ≡ attempt_of (run is_ipv4 at_work x.meanwhile)))

answered_ends :
    (is_ipv4 : String → Bool) (id address : String) (x : Outside) (v w : Watch) (t : TriggerState)
    → (answered is_ipv4 id address x v w t).asked ≡ some v
      × ((((answered is_ipv4 id address x v w t).result.outcome ≡ "failed")
            × (t ≡ trigger_failed)
            × (attempt_of (answered is_ipv4 id address x v w t).after ≡ none))
          ⊎ (((answered is_ipv4 id address x v w t).result.outcome ≡ "succeeded")
              × (attempt_of (answered is_ipv4 id address x v w t).after ≡ attempt_of w)))
unfolding answered failed_trigger
answered_ends is_ipv4 id address x v w trigger_failed =
    ground (arith, cancel_change_tells x.cancel_fault id w.monitor)
answered_ends is_ipv4 id address x v w trigger_unknown = (refl, inr (refl, refl))
answered_ends is_ipv4 id address x v w trigger_confirmed = (refl, inr (refl, refl))

arm_and_ask-Tells :
    (is_ipv4 : String → Bool) (id address : String) (x : Outside) (w : Watch)
    (c : Monitor × Result Error (Unit {0}))
    → Tells id address w.monitor c
    → NotAsked w (arm_and_ask is_ipv4 id address x w c)
      ⊎ Asked is_ipv4 id address x (arm_and_ask is_ipv4 id address x w c)
unfolding arm_and_ask
arm_and_ask-Tells is_ipv4 id address x w (m, err e) (inl (p, q)) = ground arith
arm_and_ask-Tells is_ipv4 id address x w (m, err e) (inr (e', p, q)) =
    inl (record { not_asked = refl; fails = refl; untouched = q })
arm_and_ask-Tells is_ipv4 id address x w (m, ok _) (inr (e', p, q)) = ground arith
arm_and_ask-Tells is_ipv4 id address x w (m, ok _) (inl (p, q)) =
    let v : Watch = record w { monitor = m } in
    let h = answered_ends is_ipv4 id address x v (run is_ipv4 v x.meanwhile) x.trigger.state in
    inr (record { at_work = v; asked = h.0; armed_then = q; ends = h.1 })

observed_tells :
    (is_ipv4 : String → Bool) (id expected : String) (x : Outside) (w : Watch)
    (o : Option Observation)
    → NotAsked w (observed_before is_ipv4 id expected x w o)
      ⊎ Asked is_ipv4 id expected x (observed_before is_ipv4 id expected x w o)
unfolding observed_before
observed_tells is_ipv4 id expected x w none =
    inl (record { not_asked = refl; fails = refl; untouched = refl })
observed_tells is_ipv4 id expected x w (some o) = go (String-discrete o.address expected) refl
  where
    go :
        (d : Dec (o.address ≡ expected))
        → String-discrete o.address expected ≡ d
        → NotAsked w (observed_before is_ipv4 id expected x w (some o))
          ⊎ Asked is_ipv4 id expected x (observed_before is_ipv4 id expected x w (some o))
    go (no n) q =
        rw (q, observed_before) (inl (record { not_asked = refl; fails = refl; untouched = refl }))
    go (yes p) q =
        rw (q, observed_before)
          (subst
            (λ a.
              NotAsked w (
                arm_and_ask is_ipv4 id o.address x w
                  (arm_change is_ipv4 x.arm_fault id o.address x.started_at w.monitor))
              ⊎ Asked is_ipv4 id a x (
                  arm_and_ask is_ipv4 id o.address x w
                    (arm_change is_ipv4 x.arm_fault id o.address x.started_at w.monitor)))
            p
            (arm_and_ask-Tells is_ipv4 id o.address x w
              (arm_change is_ipv4 x.arm_fault id o.address x.started_at w.monitor)
              (arm_change-Tells is_ipv4 x.arm_fault id o.address x.started_at w.monitor)))

-- A run on a valid payload either fails without asking the provider and leaves the attempt of the
-- monitor as it was; or it asks the provider while the attempt of its command is open, from the
-- address that the payload expects, and then it fails only after the provider's failure and leaves
-- no attempt, or it succeeds and leaves the attempt that the monitor has after the calls meanwhile.
pub handle_tells :
    (is_ipv4 : String → Bool) (id expected : String) (x : Outside) (w : Watch)
    → x.payload ≡ some expected
    → NotAsked w (handle is_ipv4 id x w) ⊎ Asked is_ipv4 id expected x (handle is_ipv4 id x w)
unfolding handle
handle_tells is_ipv4 id expected x w e =
    simp (e, handle) (observed_tells is_ipv4 id expected x w x.observation)
