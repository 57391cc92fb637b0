-- ===== src/RateLimit/Failures.antt =====
-- That a limiter that failed keeps no rule, whatever came before, and reports every target.
use akastr_agent.Base.{
  String, Bool, true, false, Option, none, some, List, [], ◌∷◌, Assoc, get, length, ◌+◌, ◌==◌,
  if◌then◌else◌, String-discrete, ◌≡◌, ◌≢◌, refl, sym, subst, ap, arith,
}
use akastr_agent.RateLimit.{Target, Wanted, Rules, new_rules}
use akastr_agent.RateLimit.Plan.{plan}
use akastr_agent.RateLimit.Converge.{converge}
use akastr_agent.RateLimit.Kept.{RulesInv}
use akastr_agent.RateLimit.Converged.{converge-RulesInv}
use akastr_agent.RateLimit.Limits.{Code, fine, log_unavailable, apply_failed}
use akastr_agent.RateLimit.Limiter.{Host, Limiter, cleanup, remove_all, want_of, sync_clean, sync}

pub new_rules-RulesInv : RulesInv new_rules
unfolding new_rules get
new_rules-RulesInv = record {
  distinct = tt;
  sound = (λ g i q. ground (arith, q), λ g h i q r. ground (arith, q));
  indexed = λ x h q. ground (arith, q);
}

-- The rules are sound, and there are none once the limiter has failed or is not clean.
pub record LimiterInv (l : Limiter) : Type 0 where
  pub rules : RulesInv l.rules
  pub failed : l.code ≡ apply_failed → l.rules ≡ new_rules
  pub dirty : l.clean ≡ false → l.rules ≡ new_rules

-- What remove_all and sync come to.
pub record Synced (c : Limiter × Bool) : Type 0 where
  pub inv : LimiterInv c.0
  pub error : c.1 ≡ false → (c.0.code ≡ apply_failed)

pub emptied : (l : Limiter) → l.rules ≡ new_rules → LimiterInv l
emptied l e = record {
  rules = subst RulesInv (sym e) new_rules-RulesInv;
  failed = λ _. e;
  dirty = λ _. e;
}

module _ {W : Type 0} (h : Host W) where
  pub remove_all_outcome :
      (l : Limiter) (P : W × (Limiter × Bool) → Type 0)
      → ((u : W) → P (u, (record l { rules = new_rules; clean = false }, false)))
      → ((u : W) → P (u, (record l { rules = new_rules; clean = true }, true)))
      → (w : W) → P (remove_all h l w)
  unfolding remove_all
  remove_all_outcome l P bad good w = go (h.links w)
    where
      cleaned :
          (c : W × Bool)
          → P (
            c.0,
            if c.1
                then (record l { rules = new_rules; clean = false }, false)
                else (record l { rules = new_rules; clean = true }, true),
          )
      cleaned (v, true) = bad v
      cleaned (v, false) = good v

      go :
          (ds : W × Option (List String))
          → P (elim ds.1 as (λ _. W × (Limiter × Bool)) [
            | none ↦ (ds.0, (record l { rules = new_rules; clean = false }, false))
            | some names ↦
                (let c = cleanup h names ds.0 in
                  (
                    c.0,
                    if c.1
                        then (record l { rules = new_rules; clean = false }, false)
                        else (record l { rules = new_rules; clean = true }, true),
                  ))
          ])
      go (v, none) = bad v
      go (v, some names) = cleaned (cleanup h names v)

  remove_all-Synced : (l : Limiter) (w : W) → l.code ≡ apply_failed → Synced (remove_all h l w).1
  remove_all-Synced l w e =
      remove_all_outcome l (λ c. Synced c.1)
        (λ _. record {
          inv = emptied (record l { rules = new_rules; clean = false }) refl;
          error = λ _. e;
        })
        (λ _. record {
          inv = emptied (record l { rules = new_rules; clean = true }) refl;
          error = λ _. e;
        })
        w

  unfailing : (b : Bool) → (if b then log_unavailable else fine) ≢ apply_failed
  unfailing true = λ e. ground (arith, e)
  unfailing false = λ e. ground (arith, e)

  want_of_code :
      (m : Assoc String Target) (w : W) (r : Wanted × Code)
      → (want_of h m w).1 ≡ some r
      → r.1 ≢ apply_failed
  unfolding want_of
  want_of_code [] w r q = ground (arith, q)
  want_of_code (t ∷ ts) w r q = go (h.routes w) q
    where
      made : Wanted → Bool → Wanted × Code
      made p b = (p, if b then log_unavailable else fine)

      some_code : (p : Wanted) (b : Bool) → some (made p b) ≡ some r → r.1 ≢ apply_failed
      some_code p b e = λ f. unfailing b (ground (arith, e, f))

      planned :
          (b : Bool) (p : Wanted) (u : W)
          → (if◌then◌else◌ {A = W × Option (Wanted × Code)} b
              (u, none)
              (u, some (made p (h.flows_fail u)))).1
            ≡ some r
          → r.1 ≢ apply_failed
      planned true p u e = ground (arith, e)
      planned false p u e = some_code p (h.flows_fail u) e

      go :
          (x : W × Option (List String × List String))
          → (elim x.1 as (λ _. W × Option (Wanted × Code)) [
            | none ↦ (x.0, none)
            | some devs ↦ if length devs.0 + length devs.1 == 0 then (x.0, none) else (
              x.0,
              some (
                  made
                    (plan h.is6 h.before_flow devs.0 devs.1 (h.flows x.0) (t ∷ ts))
                    (h.flows_fail x.0)),
            )
          ]).1
            ≡ some r
          → r.1 ≢ apply_failed
      go (u, none) e = ground (arith, e)
      go (u, some devs) e =
          planned (length devs.0 + length devs.1 == 0)
            (plan h.is6 h.before_flow devs.0 devs.1 (h.flows u) (t ∷ ts)) u e

  sync_clean-Synced :
      (l : Limiter) (w : W) → RulesInv l.rules → l.clean ≡ true → Synced (sync_clean h l w).1
  unfolding sync_clean
  sync_clean-Synced l w v t = go (want_of h l.limits w) refl
    where
      installed :
          (c : W × (Rules × Bool)) (k : Code)
          → RulesInv c.1.0
          → k ≢ apply_failed
          → Synced
              (if c.1.1
                then (c.0, (record l { rules = c.1.0; code = k }, true))
                else remove_all h (record l { rules = c.1.0; code = apply_failed }) c.0).1
      installed (u, (r, true)) k i n = record {
        inv = record { rules = i; failed = λ e. absurd (n e); dirty = λ e. ground (arith, e, t) };
        error = λ e. ground (arith, e);
      }
      installed (u, (r, false)) k i n =
          remove_all-Synced (record l { rules = r; code = apply_failed }) u refl

      go :
          (x : W × Option (Wanted × Code))
          → want_of h l.limits w ≡ x
          → Synced
              (elim x.1 as (λ _. W × (Limiter × Bool)) [
                | none ↦ remove_all h (record l { code = apply_failed }) x.0
                | some rules ↦
                    (let c = converge h.run h.is6 h.before_rule l.rules rules.0 x.0 in
                      if c.1.1
                      then (c.0, (record l { rules = c.1.0; code = rules.1 }, true))
                      else remove_all h (record l { rules = c.1.0; code = apply_failed }) c.0)
              ]).1
      go (u, none) q = remove_all-Synced (record l { code = apply_failed }) u refl
      go (u, some r) q =
          installed (converge h.run h.is6 h.before_rule l.rules r.0 u) r.1
            (converge-RulesInv h.run h.is6 h.before_rule l.rules r.0 u v)
            (want_of_code l.limits w r (ap (λ p. p.1) q))

  pub sync-Synced : (l : Limiter) (w : W) → RulesInv l.rules → Synced (sync h l w).1
  unfolding sync
  sync-Synced l w v = go l.clean refl
    where
      go :
          (b : Bool)
          → l.clean ≡ b
          → Synced
              (if b
                then sync_clean h l w
                else (let r = remove_all h l w in
                    if r.1.1
                    then sync_clean h (record r.1.0 { clean = true }) r.0
                    else (r.0, (record r.1.0 { code = apply_failed }, false)))).1
      go true t = sync_clean-Synced l w v t
      go false f =
          remove_all_outcome l
            (λ r.
              Synced
                (if r.1.1
                  then sync_clean h (record r.1.0 { clean = true }) r.0
                  else (r.0, (record r.1.0 { code = apply_failed }, false))).1)
            (λ u. record {
              inv =
                  emptied (record l { rules = new_rules; clean = false; code = apply_failed }) refl;
              error = λ _. refl;
            })
            (λ u.
              sync_clean-Synced (record l { rules = new_rules; clean = true }) u new_rules-RulesInv
                refl)
            w
