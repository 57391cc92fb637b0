-- ===== src/Xui/Ascending.antt =====
-- That the loop over the inbounds does not execute a traffic reset twice, whatever saves fail.
use akastr_agent.Base.{
  Bool, true, false, not, ◌&&◌, ltb, Option, none, some, List, [], ◌∷◌, length, get, is_some,
  if◌then◌else◌, String-discrete, Result, ok, err,
}
use akastr_agent.Xui.{
  InboundId, InboundId-discrete, Client, Stat, Inbound, Action, Code, write_failed, state_failed,
}
use akastr_agent.Xui.State.{set_restart_pending}
use akastr_agent.Xui.Targets.{ss2022}
use akastr_agent.Xui.Plan.{plan}
use akastr_agent.Xui.Panel.{
  World, Run, resets_due, has_clients, method_of, with_state, reset, write_all, write_actions,
  after_reset, converge_target, converge,
}
use akastr_agent.Xui.Apply.{Parsed, Pass, note, has_id, visit}
use akastr_agent.Xui.Resets.{pending_resets, OnceRun, with_state-OnceRun, reset-OnceRun}

module _ {W : Type 0} (x : World W) where
  write_all-OnceRun :
      (id : InboundId) (acts : List Action) (wrote : Bool) (r : Run W)
      → OnceRun r
      → OnceRun (write_all x id wrote acts r).0
  unfolding write_all
  write_all-OnceRun id [] wrote r h = h
  write_all-OnceRun id (a ∷ acts) wrote r h =
      go (x.write id a r.world) (λ w. write_all-OnceRun id acts true (record r { world = w }) h)
    where
      go :
          (p : W × Bool)
          → ((w : W) → OnceRun (write_all x id true acts (record r { world = w })).0)
          → OnceRun
              (if◌then◌else◌ {A = Run W × (Bool × Option Code)} p.1
                (write_all x id true acts (record r { world = p.0 }))
                (record r { world = p.0 }, (wrote, some write_failed))).0
      go (w, true) ih = ih w
      go (w, false) ih = h

  write_actions-OnceRun :
      (ib : Inbound) (acts : List Action) (r : Run W)
      → OnceRun r
      → OnceRun (write_actions x ib acts r).0
  unfolding write_actions
  write_actions-OnceRun ib acts r h = go (ltb 0 (length acts) && ss2022 ib.protocol (method_of ib))
    where
      pending : Run W × Bool
      pending = with_state x (λ fault. set_restart_pending fault true) r

      kept : OnceRun pending.0
      kept =
          with_state-OnceRun x (λ fault. set_restart_pending fault true) r
            (λ fault. pending_resets fault true r.state) h

      saved :
          (b : Bool)
          → OnceRun
              (if◌then◌else◌ {A = Run W × (Bool × Option Code)} b
                (write_all x ib.id false acts pending.0)
                (pending.0, (false, some state_failed))).0
      saved true = write_all-OnceRun ib.id acts false pending.0 kept
      saved false = kept

      go :
          (b : Bool)
          → OnceRun
              (if◌then◌else◌ {A = Run W × (Bool × Option Code)} b
                (if pending.1
                  then write_all x ib.id false acts pending.0
                  else (pending.0, (false, some state_failed)))
                (write_all x ib.id false acts r)).0
      go true = saved pending.1
      go false = write_all-OnceRun ib.id acts false r h

  after_reset-OnceRun :
      (ib : Inbound) (target : List Client) (s : Run W × Result Code (List Stat))
      → OnceRun s.0
      → OnceRun (after_reset x ib target s).0
  unfolding after_reset
  after_reset-OnceRun ib target (r, err e) h = h
  after_reset-OnceRun ib target (r, ok stats) h =
      go (plan x.parse_float x.key_size (record ib { stats = stats }) target)
    where
      go :
          (p : Result Code (List Action))
          → OnceRun
              (elim p as (λ _. Run W × (Bool × Option Code)) [
                | err e ↦ (r, (false, some e))
                | ok acts ↦ write_actions x (record ib { stats = stats }) acts r
              ]).0
      go (ok acts) = write_actions-OnceRun (record ib { stats = stats }) acts r h
      go (err e) = h

  converge_target-OnceRun :
      (ib : Inbound) (target : List Client) (r : Run W)
      → OnceRun r
      → OnceRun (converge_target x ib target r).0
  unfolding converge_target
  converge_target-OnceRun ib target r h = go (plan x.parse_float x.key_size ib target)
    where
      split :
          (acts : List Action) (b : Bool)
          → OnceRun
              (if◌then◌else◌ {A = Run W × (Bool × Option Code)} b
                (after_reset x ib target (reset x ib.id ib.stats target r))
                (write_actions x ib acts r)).0
      split acts true =
          after_reset-OnceRun ib target (reset x ib.id ib.stats target r)
            (reset-OnceRun x ib.id target ib.stats r h)
      split acts false = write_actions-OnceRun ib acts r h

      go :
          (p : Result Code (List Action))
          → OnceRun
              (elim p as (λ _. Run W × (Bool × Option Code)) [
                | err e ↦ (r, (false, some e))
                | ok acts ↦
                    (if resets_due r.state target
                      then after_reset x ib target (reset x ib.id ib.stats target r)
                      else write_actions x ib acts r)
              ]).0
      go (ok acts) = split acts (resets_due r.state target)
      go (err e) = h

  converge-OnceRun :
      (ib : Inbound) (named : Option (List Client)) (r : Run W)
      → OnceRun r
      → OnceRun (converge x ib named r).0
  unfolding converge
  converge-OnceRun ib none r h = go (has_clients ib)
    where
      go :
          (b : Bool)
          → OnceRun
              (if◌then◌else◌ {A = Run W × (Bool × Option Code)}
                (not b)
                (r, (false, none))
                (converge_target x ib [] r)).0
      go true = converge_target-OnceRun ib [] r h
      go false = h
  converge-OnceRun ib (some target) r h = converge_target-OnceRun ib target r h

  pub visit-OnceRun :
      (p : Parsed) (ibs : List Inbound) (a : Pass) (r : Run W)
      → OnceRun r
      → OnceRun (visit x p ibs a r).0
  unfolding visit
  visit-OnceRun p [] a r h = h
  visit-OnceRun p (ib ∷ more) a r h = go (has_id p.held ib.id) _ _ (visit-OnceRun p more a r h) (
      visit-OnceRun p more
        (note p ib.id (is_some (get p.targets ib.id)) a (converge x ib (get p.targets ib.id) r).1)
        (converge x ib (get p.targets ib.id) r).0 (converge-OnceRun ib (get p.targets ib.id) r h))
    where
      go :
          (b : Bool) (u v : Run W × Pass)
          → OnceRun u.0
          → OnceRun v.0
          → OnceRun (if b then u else v).0
      go true u v k l = k
      go false u v k l = l
