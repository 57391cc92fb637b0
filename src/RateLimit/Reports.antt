-- ===== src/RateLimit/Reports.antt =====
-- What the limiter tells Cloud of a failure, and what holds of it after any history.
use akastr_agent.Base.{
  String, Bool, true, false, not, Option, some, List, [], ◌∷◌, Assoc, get, get-put, is_some,
  if◌then◌else◌, String-discrete, ◌≡◌, refl, arith,
}
use akastr_agent.RateLimit.{Target, new_rules}
use akastr_agent.RateLimit.Kept.{RulesInv}
use akastr_agent.RateLimit.Failures.{LimiterInv, Synced, emptied, sync-Synced, remove_all_outcome}
use akastr_agent.RateLimit.Limits.{
  Code, limits_of, decode_target, codes_for, fine, log_unavailable, apply_failed,
}
use akastr_agent.RateLimit.Limiter.{Host, Limiter, new, sync, drifted, prepare, apply, tick, stop}

-- What calls the limiter: Apply with Cloud's targets, Run on a tick, and Run on the way out.
pub data Step (Raw : Type 0) : Type 0 where
  applies : Assoc String (Option Raw) → Step Raw
  ticks : Step Raw
  stops : Step Raw

module _ {W Raw : Type 0} (h : Host W) (decode : Raw → Option Target) (owned : String → Bool) where
  unfoldable pub step : Step Raw → W × Limiter → W × Limiter
  step (applies targets) s = let a = apply h decode owned s.1 targets s.0 in (a.0, a.1.0)
  step ticks s = tick h s.1 s.0
  step stops s = stop h s.1 s.0

  unfoldable pub run : List (Step Raw) → W × Limiter → W × Limiter
  run [] s = s
  run (x ∷ xs) s = run xs (step x s)

  prepare-RulesInv : (l : Limiter) (w : W) → RulesInv l.rules → RulesInv (prepare h l w).1.rules
  unfolding prepare
  prepare-RulesInv l w v =
      elim l.clean
        as (λ b.
          RulesInv
            (if◌then◌else◌ {A = W × Limiter} b
              (
                (drifted h l.rules l.rules.clsact w).0,
                record l { clean = not (drifted h l.rules l.rules.clsact w).1 },
              )
              (w, l)).1.rules) [ true ↦ v | false ↦ v ]

  tick-LimiterInv : (l : Limiter) (w : W) → LimiterInv l → LimiterInv (tick h l w).1
  unfolding tick
  tick-LimiterInv l w v =
      elim l.code
        as (λ c.
          LimiterInv
            (elim c as (λ _. W × Limiter) [
              | apply_failed ↦ (w, l)
              | _ ↦ ((sync h l w).0, (sync h l w).1.0)
            ]).1) [
              | apply_failed ↦ v
              | fine ↦ (sync-Synced h l w v.rules).inv
              | log_unavailable ↦ (sync-Synced h l w v.rules).inv
            ]

  step-LimiterInv : (x : Step Raw) (s : W × Limiter) → LimiterInv s.1 → LimiterInv (step x s).1
  unfolding step apply stop
  step-LimiterInv (applies targets) s v =
      (sync-Synced h _ _ (
        prepare-RulesInv
          (record s.1 { limits = limits_of (decode_target decode owned) s.1.limits targets }) s.0
          v.rules)).inv
  step-LimiterInv ticks s v = tick-LimiterInv s.1 s.0 v
  step-LimiterInv stops s v =
      remove_all_outcome h s.1 (λ c. LimiterInv c.1.0)
        (λ _. emptied (record s.1 { rules = new_rules; clean = false }) refl)
        (λ _. emptied (record s.1 { rules = new_rules; clean = true }) refl) s.0

  run-LimiterInv :
      (xs : List (Step Raw)) (s : W × Limiter) → LimiterInv s.1 → LimiterInv (run xs s).1
  unfolding run
  run-LimiterInv [] s v = v
  run-LimiterInv (x ∷ xs) s v = run-LimiterInv xs (step x s) (step-LimiterInv x s v)

  -- Whatever happened to a new limiter, its police indexes are in the module's range, one for each
  -- group and none of an action being released, and it has no rules when it has failed or is not
  -- clean.
  pub history-LimiterInv : (xs : List (Step Raw)) (w : W) → LimiterInv (run xs (w, new)).1
  unfolding new
  history-LimiterInv xs w = run-LimiterInv xs (w, new) (emptied new refl)

get-codes_for :
    {V : Type 0} (c : Code) (m : Assoc String V) (key : String)
    → is_some (get m key) ≡ true
    → get (codes_for c m) key ≡ some c
unfolding codes_for get
get-codes_for c [] key t = ground (arith, t)
get-codes_for c ((k, v) ∷ m) key t =
    ground (arith, get-put (codes_for c m) k key c, get-codes_for c m key, t)

module _ {W Raw : Type 0} (h : Host W) (decode : Raw → Option Target) (owned : String → Bool) where
  -- When Apply returns an error, no target counts as applied, not even a release, and the limiter
  -- knows of no rule of its own.
  pub apply_failure :
      (l : Limiter) (targets : Assoc String (Option Raw)) (w : W) (key : String)
      → LimiterInv l
      → is_some (get targets key) ≡ true
      → (apply h decode owned l targets w).1.1.1 ≡ false
      → (get (apply h decode owned l targets w).1.1.0 key ≡ some apply_failed)
        × ((apply h decode owned l targets w).1.0.rules ≡ new_rules)
  unfolding apply
  apply_failure l targets w key v t e =
      go _ (sync h p.1 p.0).1
        (sync-Synced h p.1 p.0 (
          prepare-RulesInv h decode owned
            (record l { limits = limits_of (decode_target decode owned) l.limits targets }) w
            v.rules))
        e
    where
      p : W × Limiter
      p =
          prepare h (record l { limits = limits_of (decode_target decode owned) l.limits targets })
            w

      go :
          (ok : Assoc String Code) (c : Limiter × Bool)
          → Synced c
          → (if◌then◌else◌ {A = Assoc String Code × Bool} c.1
              (ok, true)
              (codes_for apply_failed targets, false)).1
            ≡ false
          → (get
                (if◌then◌else◌ {A = Assoc String Code × Bool} c.1
                  (ok, true)
                  (codes_for apply_failed targets, false)).0
                key
              ≡ some apply_failed)
            × (c.0.rules ≡ new_rules)
      go ok (m, true) s f = ground (arith, f)
      go ok (m, false) s f = (get-codes_for apply_failed targets key t, s.inv.failed (s.error refl))
