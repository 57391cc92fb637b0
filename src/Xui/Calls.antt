-- ===== src/Xui/Calls.antt =====
-- That a traffic reset is not executed twice in several calls of Apply.
use akastr_agent.Base.{
  ℕ, ◌≤◌, ◌<◌, String, Bool, true, false, not, ltb, length, Option, none, some, List, [], ◌∷◌,
  Assoc, get, if◌then◌else◌, String-discrete, Result, ok, err, All, ◌≡◌, ◌⊎◌, inl, inr, refl, sym,
  subst, arith,
}
use akastr_agent.State.{SaveStep}
use akastr_agent.Xui.{Inbound, Code, panel}
use akastr_agent.Xui.State.{LocalState, flush, set_restart_pending, kept, keep_only}
use akastr_agent.Xui.Targets.{has_text}
use akastr_agent.Xui.Panel.{World, Run, with_state}
use akastr_agent.Xui.Apply.{
  Parsed, Pass, Codes, target_emails, fail_all, missing, visit, confirm, finish, confirm_writes,
  restart_due, apply,
}
use akastr_agent.Xui.Resets.{
  mark, Marked, Ascending, Once, OnceRun, flush_resets, pending_resets, with_state-OnceRun,
}
use akastr_agent.Xui.Ascending.{visit-OnceRun}

-- The executed resets of clients that are named.
unfoldable pub of_named : (String → Bool) → List (String × ℕ) → List (String × ℕ)
of_named wanted [] = []
of_named wanted (o ∷ os) = let rest = of_named wanted os in if wanted o.0 then o ∷ rest else rest

of_named-All :
    (P : String × ℕ → Type 0) (wanted : String → Bool) (os : List (String × ℕ))
    → All P os
    → All P (of_named wanted os)
unfolding of_named
of_named-All P wanted [] h = tt
of_named-All P wanted (o ∷ os) h = ground (arith, of_named-All P wanted os h.1, h.0)

of_named-Ascending :
    (wanted : String → Bool) (os : List (String × ℕ))
    → Ascending os
    → Ascending (of_named wanted os)
unfolding of_named
of_named-Ascending wanted [] h = tt
of_named-Ascending wanted (o ∷ os) h = ground (
  arith,
  of_named-Ascending wanted os h.1,
  of_named-All (λ p. (p.0 ≡ o.0) → p.1 < o.1) wanted os h.0,
)

-- The mark of a client that is named is kept.
mark-kept :
    (wanted : String → Bool) (m : Assoc String ℕ) (e : String)
    → wanted e ≡ true
    → mark (kept wanted m) e ≡ mark m e
unfolding mark kept get
mark-kept wanted [] e h = refl
mark-kept wanted ((j, n) ∷ m) e h = ground (arith, mark-kept wanted m e h, h)

kept-Marked :
    (wanted : String → Bool) (m : Assoc String ℕ) (os : List (String × ℕ))
    → Marked m os
    → Marked (kept wanted m) (of_named wanted os)
unfolding of_named
kept-Marked wanted m [] h = tt
kept-Marked wanted m (o ∷ os) h =
    ground (arith, kept-Marked wanted m os h.1, h.0, mark-kept wanted m o.0)

keep_only_resets :
    (fault : Option SaveStep) (wanted : String → Bool) (s : LocalState)
    → ((keep_only fault wanted s).0.resets ≡ s.resets)
      ⊎ ((keep_only fault wanted s).0.resets ≡ kept wanted s.resets)
unfolding keep_only
keep_only_resets fault wanted s =
    ground (arith, flush_resets fault (record s { resets = kept wanted s.resets; dirty = true }))

-- Either of two results, when both have a property.
if-All : {A : Type 0} (P : A → Type 0) (b : Bool) (u v : A) → P u → P v → P (if b then u else v)
if-All P true u v h k = h
if-All P false u v h k = k

module _ {W : Type 0} (x : World W) where
  -- What holds of the resets of the clients that Apply names.
  abbrev OnceNamed : (String → Bool) → Run W → Type 0
  OnceNamed wanted r = Once r.state.resets (of_named wanted r.executed)

  OnceRun-OnceNamed : (wanted : String → Bool) (r : Run W) → OnceRun r → OnceNamed wanted r
  OnceRun-OnceNamed wanted r h = (
    of_named-All (λ o. o.1 ≤ mark r.state.resets o.0) wanted r.executed h.0,
    of_named-Ascending wanted r.executed h.1,
  )

  keep_only-OnceNamed :
      (wanted : String → Bool) (r : Run W)
      → OnceRun r
      → OnceNamed wanted (with_state x (λ fault. keep_only fault wanted) r).0
  unfolding with_state
  keep_only-OnceNamed wanted r h = elim (keep_only_resets (x.fault r.world).1 wanted r.state) [
    | inl same ↦
        subst (λ m. Once m (of_named wanted r.executed)) (sym same) (OnceRun-OnceNamed wanted r h)
    | inr cut ↦
        subst (λ m. Once m (of_named wanted r.executed)) (sym cut)
          (
            kept-Marked wanted r.state.resets r.executed h.0,
            of_named-Ascending wanted r.executed h.1,
          )
  ]

  module _ (p : Parsed) where
    abbrev wanted : String → Bool
    wanted = has_text (target_emails p.targets)

    abbrev Out : Run W × (Codes × Option Code) → Type 0
    Out o = OnceNamed wanted o.0

    finish-OnceNamed : (a : Pass) (r : Run W) → OnceRun r → Out (finish x p a r)
    unfolding finish
    finish-OnceNamed a r h =
        let k = with_state x (λ fault. keep_only fault wanted) r in
        if-All Out (ltb 0 (length p.held)) _ _ (OnceRun-OnceNamed wanted r h)
          (if-All Out k.1 _ _ (keep_only-OnceNamed wanted r h) (keep_only-OnceNamed wanted r h))

    confirm_writes-OnceNamed : (a : Pass) (r : Run W) → OnceRun r → Out (confirm_writes x p a r)
    unfolding confirm_writes
    confirm_writes-OnceNamed a r h =
        if-All Out (not a.wrote) _ _ (finish-OnceNamed a r h) (go (x.inbounds r.world).1)
      where
        again : Run W
        again = record r { world = (x.inbounds r.world).0 }

        go :
            (o : Result String (List Inbound))
            → Out (elim o as (λ _. Run W × (Codes × Option Code)) [
              | err e ↦ (again, (fail_all (panel e) p.keys p.targets a.codes, some (panel e)))
              | ok ibs ↦ finish x p (record a { codes = confirm x p ibs a.codes }) again
            ])
        go (err e) = OnceRun-OnceNamed wanted again h
        go (ok ibs) = finish-OnceNamed (record a { codes = confirm x p ibs a.codes }) again h

    restart_due-OnceNamed : (a : Pass) (r : Run W) → OnceRun r → Out (restart_due x p a r)
    unfolding restart_due
    restart_due-OnceNamed a r h =
        let done = x.restart r.world in
        let after = record r { world = done.0 } in
        let cleared = with_state x (λ fault. set_restart_pending fault false) after in
        let k =
          with_state-OnceRun x (λ fault. set_restart_pending fault false) after
            (λ fault. pending_resets fault false after.state) h in
        if-All Out (not r.state.restart_pending) _ _ (confirm_writes-OnceNamed a r h) (
          if-All Out (not done.1) _ _ (OnceRun-OnceNamed wanted after h) (
            if-All Out cleared.1 _ _ (confirm_writes-OnceNamed a cleared.0 k)
              (OnceRun-OnceNamed wanted cleared.0 k)))

    apply-OnceNamed : (r : Run W) → OnceRun r → Out (apply x p r)
    unfolding apply
    apply-OnceNamed r h =
        if-All Out (not flushed.1) _ _ (OnceRun-OnceNamed wanted flushed.0 k)
          (go (x.inbounds flushed.0.world).1)
      where
        flushed : Run W × Bool
        flushed = with_state x flush r

        k : OnceRun flushed.0
        k = with_state-OnceRun x flush r (λ fault. flush_resets fault r.state) h

        start : Run W
        start = record flushed.0 { world = (x.inbounds flushed.0.world).0 }

        first : Pass
        first = record { codes = p.codes; wrote = false; cleanup = none }

        go :
            (o : Result String (List Inbound))
            → Out (elim o as (λ _. Run W × (Codes × Option Code)) [
              | err e ↦ (start, (fail_all (panel e) p.keys p.targets p.codes, some (panel e)))
              | ok ibs ↦
                  let v = visit x p ibs first start in
                  restart_due x p (record v.1 { codes = missing p ibs p.targets v.1.codes }) v.0
            ])
        go (err e) = OnceRun-OnceNamed wanted start k
        go (ok ibs) =
            restart_due-OnceNamed
              (record (visit x p ibs first start).1 {
                codes = missing p ibs p.targets (visit x p ibs first start).1.codes;
              })
              (visit x p ibs first start).0 (visit-OnceRun x p ibs first start k)

  -- Several calls of Apply. Of the resets executed, those of the clients are kept that each call
  -- since has named.
  unfoldable pub applies : List Parsed → Run W → Run W
  applies [] r = r
  applies (p ∷ ps) r =
      let done = (apply x p r).0 in
      applies ps
        (record done { executed = of_named (has_text (target_emails p.targets)) done.executed })

  OnceRun-applies : (ps : List Parsed) (r : Run W) → OnceRun r → OnceRun (applies ps r)
  unfolding applies
  OnceRun-applies [] r h = h
  OnceRun-applies (p ∷ ps) r h = OnceRun-applies ps _ (apply-OnceNamed p r h)

  -- Whatever the panel refuses and whichever saves fail, in any calls of Apply each traffic reset
  -- that is executed of a client has a higher sequence number than those executed of it before,
  -- since the last call that did not name the client, and the state records at least that number.
  pub applies-OnceRun : (ps : List Parsed) (r : Run W) → r.executed ≡ [] → OnceRun (applies ps r)
  applies-OnceRun ps r e =
      OnceRun-applies ps r (subst (λ os. Once r.state.resets os) (sym e) (tt, tt))
