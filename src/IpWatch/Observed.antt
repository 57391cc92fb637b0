-- ===== src/IpWatch/Observed.antt =====
-- The invariant of the monitor, kept by its commands and by observations.
use akastr_agent.Base.{
  ℕ, String, ◌≡◌, ◌≢◌, ◌⊎◌, inl, inr, refl, sym, ap, subst, ◌∙◌, ◌||◌, Bool, true, false, not,
  Option, none, some, is, is_some, Option-cases, Bool-cases, String-discrete, arith,
}
use akastr_agent.State.{SaveStep, save}
use akastr_agent.IpWatch.Change.{outcome_of, arm_attempt, cancel_change}
use akastr_agent.IpWatch.{Monitor, Attempt, Outcome, FamilyState, commit, notify_control_ready}
use akastr_agent.IpWatch.Loop.{Observation, settle, observed_attempt, observed_ipv4, observed_ipv6}

-- An attempt that is open holds back every other report of the IPv4 address. The outcome says how
-- its address compares with the one before the change.
pub record IsSettled (a : Attempt) (o : Outcome) : Type 0 where
  pub changed : o.changed ≡ true → o.address ≢ a.address
  pub unchanged : o.changed ≡ false → o.address ≡ a.address

pub record Inv (observing : Bool) (m : Monitor) : Type 0 where
  pub held : (a : Attempt) → m.persisted.change_attempt ≡ some a → m.ipv4.pending ≡ none
  pub undecided : observing ≡ true → outcome_of m.persisted.change_attempt ≡ none
  pub settled :
      (a : Attempt) (o : Outcome)
      → m.persisted.change_attempt ≡ some a
      → a.outcome ≡ some o
      → IsSettled a o

-- What a new attempt has to be for a monitor to keep the invariant.
pub record Fits (observing : Bool) (f : FamilyState) (a : Attempt) : Type 0 where
  pub held : f.pending ≡ none
  pub undecided : observing ≡ true → a.outcome ≡ none
  pub settled : (o : Outcome) → a.outcome ≡ some o → IsSettled a o

-- What a commit leaves: the addresses, and the new attempt or, when its save failed, the old one.
pub record Committed (m : Monitor) (next : Option Attempt) (c : Monitor × Option SaveStep)
    : Type 0 where
  pub same_ipv4 : c.0.ipv4 ≡ m.ipv4
  pub same_ipv6 : c.0.ipv6 ≡ m.ipv6
  pub attempt :
      ((c.1 ≡ none) × (c.0.persisted.change_attempt ≡ next))
      ⊎ ((s : SaveStep) × (c.1 ≡ some s) × (c.0.persisted ≡ m.persisted))

pub commit-Committed :
    (fault : Option SaveStep) (next : Option Attempt) (m : Monitor)
    → Committed m next (commit fault next m)
unfolding commit
commit-Committed fault next m =
    go (save fault (record m.persisted { change_attempt = next }) m.file).1 refl
  where
    go :
        (o : Option SaveStep)
        → (save fault (record m.persisted { change_attempt = next }) m.file).1 ≡ o
        → Committed m next (commit fault next m)
    go none q =
        rw (q, commit) record { same_ipv4 = refl; same_ipv6 = refl; attempt = inl (refl, refl) }
    go (some s) q =
        rw (q, commit) record { same_ipv4 = refl; same_ipv6 = refl; attempt = inr (s, refl, refl) }

module _ (b : Bool) (m : Monitor) (v : Inv b m) where
  -- A call that leaves the attempt as it was.
  pub same_attempt :
      (m' : Monitor)
      → m'.persisted.change_attempt ≡ m.persisted.change_attempt
      → m'.ipv4.pending ≡ none ⊎ m'.ipv4.pending ≡ m.ipv4.pending
      → Inv b m'
  same_attempt m' p q = record {
    held = λ a e. elim q [ inl n ↦ n | inr n ↦ n ∙ v.held a (sym p ∙ e) ];
    undecided = λ e. ap outcome_of p ∙ v.undecided e;
    settled = λ a o e. v.settled a o (sym p ∙ e);
  }

  pub commit-Inv :
      (fault : Option SaveStep) (next : Option Attempt)
      → ((a : Attempt) → next ≡ some a → Fits b m.ipv4 a)
      → Inv b (commit fault next m).0
  commit-Inv fault next fits = go (commit fault next m) (commit-Committed fault next m)
    where
      go : (c : Monitor × Option SaveStep) → Committed m next c → Inv b c.0
      go c k = elim k.attempt [
        | inl (q, p) ↦ record {
          held = λ a e. ap (λ f. f.pending) k.same_ipv4 ∙ (fits a (sym p ∙ e)).held;
          undecided = λ e. elim (Option-cases next) [
            | inl n ↦ ap outcome_of (p ∙ n)
            | inr (a, n) ↦ ap outcome_of (p ∙ n) ∙ (fits a n).undecided e
          ];
          settled = λ a o e. (fits a (sym p ∙ e)).settled o;
        }
        | inr (s, q, p) ↦
            same_attempt c.0 (ap (λ x. x.change_attempt) p) (inr (ap (λ x. x.pending) k.same_ipv4))
      ]

-- A call that leaves no attempt.
pub none-Inv : (b : Bool) (m : Monitor) → m.persisted.change_attempt ≡ none → Inv b m
none-Inv b m p = record {
  held = λ a e. cc;
  undecided = λ e. ap outcome_of p;
  settled = λ a o e. cc;
}

pub gives_up-Inv : (b : Bool) (m : Monitor) → Inv b m → Inv false m
gives_up-Inv b m v = record { held = v.held; undecided = λ p. ground arith; settled = v.settled }

-- A new attempt fits a family without a report that is on its way, whose address is the
-- controller's.
abbrev unsettled : String → FamilyState → Bool
unsettled address f =
    not (is (String-discrete f.reported address)) || is_some f.pending || f.announce

pub arm_attempt-Inv :
    (fault : Option SaveStep) (id address : String) (at : ℕ) (b : Bool) (m : Monitor)
    → Inv b m
    → (o : Option Attempt) → Inv b (arm_attempt fault id address at o m).0
unfolding arm_attempt
arm_attempt-Inv fault id address at b m v none = elim (Bool-cases (unsettled address m.ipv4)) [
  | inl q ↦ rw (q) v
  | inr q ↦ rw (q) (
      commit-Inv b m v fault _ (λ a e. record {
        held = ground arith;
        undecided = λ _. ground arith;
        settled = λ o p. ground arith;
      }))
]
arm_attempt-Inv fault id address at b m v (some a) = ground arith

pub cancel_change-Inv :
    (fault : Option SaveStep) (id : String) (b : Bool) (m : Monitor)
    → Inv b m
    → Inv b (cancel_change fault id m).0
unfolding cancel_change
cancel_change-Inv fault id b m v = ground (arith, commit-Inv b m v fault none)

pub notify_control_ready-Inv : (b : Bool) (m : Monitor) → Inv b m → Inv b (notify_control_ready m)
unfolding notify_control_ready
notify_control_ready-Inv b m v = same_attempt b m v (notify_control_ready m) refl (inl refl)

settle-Fits :
    (now : ℕ) (x : Observation) (f : FamilyState) (a a' : Attempt)
    → a.outcome ≡ none
    → f.pending ≡ none
    → settle now x a ≡ some a'
    → Fits false f a'
unfolding settle
settle-Fits now x f a a' n h e = record {
  held = ground arith;
  undecided = λ p. ground arith;
  settled = λ o p. ground arith;
}

observed_attempt-Inv :
    (fault : Option SaveStep) (now : ℕ) (x : Observation) (m : Monitor)
    → Inv true m
    → (o : Option Attempt) → m.persisted.change_attempt ≡ o
    → Inv false (observed_attempt fault now x o m).0
unfolding observed_attempt
observed_attempt-Inv fault now x m v none e = none-Inv false _ e
observed_attempt-Inv fault now x m v (some a) e = go (settle now x a) refl
  where
    go :
        (o : Option Attempt)
        → settle now x a ≡ o
        → Inv false (observed_attempt fault now x (some a) m).0
    go none q = rw (q, observed_attempt) (gives_up-Inv true m v)
    go (some a') q =
        rw (q, observed_attempt)
          (commit-Inv false m (gives_up-Inv true m v) fault (some a') (λ b p.
            subst (Fits false m.ipv4) (ap (λ o. elim o [ none ↦ a' | some c ↦ c ]) p) (
              settle-Fits now x m.ipv4 a a' (ap outcome_of (sym e) ∙ v.undecided refl) (v.held a e)
                q)))

pub observes-Inv :
    (fault : Option SaveStep) (now : ℕ) (x : Observation) (m : Monitor)
    → Inv true m
    → Inv false (observed_ipv4 fault now x m).0
unfolding observed_ipv4
observes-Inv fault now x m v = observed_attempt-Inv fault now x m v m.persisted.change_attempt refl

-- The IPv6 family is of no concern.
pub observes_ipv6-Inv :
    (b : Bool) (x : Observation) (m : Monitor) → Inv b m → Inv b (observed_ipv6 x m).0
unfolding observed_ipv6
observes_ipv6-Inv b x m v = same_attempt b m v (observed_ipv6 x m).0 refl (inr refl)
