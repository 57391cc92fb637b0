-- ===== src/RateLimit/Limiter.antt =====
-- internal/modules/ratelimit/ratelimit.go and cleanup of host.go. A context that is done is a test
-- on the world; the wait between two attempts changes nothing of it.
use akastr_agent.Base.{
  ℕ, zero, suc, ◌+◌, String, Bool, true, false, ◌&&◌, ◌||◌, not, Option, none, some, List, [], ◌∷◌,
  Assoc, length, ltb, leb, ◌==◌, is_some, if◌then◌else◌, String-discrete, contains, codes, blank,
  split_at,
}
use akastr_agent.Ledger.{AddrPort, Flow}
use akastr_agent.RateLimit.{
  Target, Rule, Wanted, Rules, new_rules, action_base, max_users, pref_ipv4, pref_ipv6,
}
use akastr_agent.RateLimit.Plan.{plan}
use akastr_agent.RateLimit.Converge.{
  Command, show_qdisc, del_qdisc, show_egress, show_ingress, del_pref, list_actions, del_action,
  converge,
}
use akastr_agent.RateLimit.Limits.{
  Code, fine, apply_failed, log_unavailable, has_own_filter, decode_target, count_filters,
  count_lines, limits_of, codes_for,
}

-- What the limiter needs of the host and of the ledger.
pub record Host (W : Type 0) : Type 0 where
  pub run : Command → W → W × Option String
  pub routes : W → W × Option (List String × List String)
  pub links : W → W × Option (List String)
  pub flows_fail : W → Bool
  pub flows : W → String → List Flow
  pub done : W → Bool
  -- the indexes of the police actions that a listing names
  pub police_indexes : String → List ℕ
  pub is6 : AddrPort → Bool
  pub before_flow : Flow → Flow → Bool
  pub before_rule : Rule → Rule → Bool

pub record Limiter : Type 0 where
  pub limits : Assoc String Target
  pub clean : Bool
  pub rules : Rules
  pub code : Code

unfoldable pub new : Limiter
new = record { limits = []; clean = false; rules = new_rules; code = fine }

module _ {W : Type 0} (h : Host W) where
  -- The loop of cleanup over the interfaces; true for each failure.
  unfoldable pub clean_dev : String → W → W × Bool
  clean_dev dev w =
      let hook = h.run (show_qdisc dev) w in
      elim hook.1 [
        | none ↦ (hook.0, true)
        | some out ↦
            if not (contains out "clsact")
            then (hook.0, false)
            else let w4 = (h.run (del_pref dev pref_ipv4) hook.0).0 in
              let w6 = (h.run (del_pref dev pref_ipv6) w4).0 in
              let egress = h.run (show_egress dev) w6 in
              let ingress = h.run (show_ingress dev) egress.0 in
              elim egress.1 [
                | none ↦ (ingress.0, true)
                | some e ↦ elim ingress.1 [
                  | none ↦ (ingress.0, true)
                  | some i ↦
                      if has_own_filter (codes e)
                      then (ingress.0, true)
                      else if blank (codes e) && blank (codes i)
                      then (let r = h.run (del_qdisc dev) ingress.0 in (r.0, not (is_some r.1)))
                      else (ingress.0, false)
                ]
              ]
      ]

  unfoldable pub clean_devs : List String → W → W × Bool
  clean_devs [] w = (w, false)
  clean_devs (d ∷ ds) w =
      let first = clean_dev d w in let rest = clean_devs ds first.0 in (rest.0, first.1 || rest.1)

  -- The loop over the listed actions; how many remain.
  unfoldable pub del_actions : List ℕ → W → W × ℕ
  del_actions [] w = (w, 0)
  del_actions (i ∷ js) w =
      let skip = del_actions js w in
      let r = h.run (del_action i) w in
      let rest = del_actions js r.0 in
      if leb i action_base || ltb (action_base + max_users) i
      then skip
      else (rest.0, if is_some r.1 then rest.1 else suc rest.1)

  -- The attempts left after this one are the first argument; true is a failure.
  unfoldable pub clean_actions : ℕ → W → W × Bool
  clean_actions zero w =
      let r = h.run list_actions w in
      elim r.1 [
        | none ↦ (r.0, true)
        | some out ↦
            let left = del_actions (h.police_indexes out) r.0 in (left.0, not (left.1 == 0))
      ]
  clean_actions (suc n) w =
      let r = h.run list_actions w in
      elim r.1 [
        | none ↦ (r.0, true)
        | some out ↦
            let left = del_actions (h.police_indexes out) r.0 in
            let rest = clean_actions n left.0 in
            if left.1 == 0 then (left.0, false) else if h.done left.0 then (left.0, true) else rest
      ]

  unfoldable pub cleanup : List String → W → W × Bool
  cleanup ds w =
      let hooks = clean_devs ds w in
      let actions = clean_actions 4 hooks.0 in (actions.0, hooks.1 || actions.1)

  -- The Boolean of these is whether there was no error.
  unfoldable pub remove_all : Limiter → W → W × (Limiter × Bool)
  remove_all l w =
      let dirty = record l { rules = new_rules; clean = false } in
      let ds = h.links w in
      elim ds.1 [
        | none ↦ (ds.0, (dirty, false))
        | some names ↦
            let c = cleanup names ds.0 in
            (c.0, if c.1 then (dirty, false) else (record dirty { clean = true }, true))
      ]

  -- want, on the limits; none where the source returns an empty rule set and codeApplyFailed.
  unfoldable pub want_of : Assoc String Target → W → W × Option (Wanted × Code)
  want_of [] w = (w, some (record { rates = []; rules = [] }, fine))
  want_of (t ∷ ts) w =
      let routes = h.routes w in
      elim routes.1 [
        | none ↦ (routes.0, none)
        | some devs ↦ if length devs.0 + length devs.1 == 0 then (routes.0, none) else (
          routes.0,
          some (
            plan h.is6 h.before_flow devs.0 devs.1 (h.flows routes.0) (t ∷ ts),
            if h.flows_fail routes.0 then log_unavailable else fine,
          ),
        )
      ]

  -- sync once what an earlier process left is gone
  unfoldable pub sync_clean : Limiter → W → W × (Limiter × Bool)
  sync_clean l w =
      let wanted = want_of l.limits w in
      elim wanted.1 [
        | none ↦ remove_all (record l { code = apply_failed }) wanted.0
        | some rules ↦
            let c = converge h.run h.is6 h.before_rule l.rules rules.0 wanted.0 in
            if c.1.1
            then (c.0, (record l { rules = c.1.0; code = rules.1 }, true))
            else remove_all (record l { rules = c.1.0; code = apply_failed }) c.0
      ]

  unfoldable pub sync : Limiter → W → W × (Limiter × Bool)
  sync l w =
      if l.clean
      then sync_clean l w
      else let r = remove_all l w in
        if r.1.1
        then sync_clean (record r.1.0 { clean = true }) r.0
        else (r.0, (record r.1.0 { code = apply_failed }, false))

  unfoldable pub drifted : Rules → List String → W → W × Bool
  drifted r [] w = (w, false)
  drifted r (d ∷ ds) w =
      let shown = h.run (show_egress d) w in
      let rest = drifted r ds shown.0 in
      elim shown.1 [
        | none ↦ (shown.0, true)
        | some out ↦
            if count_lines (split_at 10 (codes out)) == count_filters d r.filters
            then rest
            else (shown.0, true)
      ]

  -- The limiter that Apply synchronizes: with the new limits, and not clean if the rules drifted.
  unfoldable pub prepare : Limiter → W → W × Limiter
  prepare l w =
      let d = drifted l.rules l.rules.clsact w in
      if l.clean then (d.0, record l { clean = not d.1 }) else (w, l)

  -- Apply, with its codes and whether there was no error
  unfoldable pub apply :
      {Raw : Type 0}
      → (Raw → Option Target)
      → (String → Bool)
      → Limiter
      → Assoc String (Option Raw)
      → W
      → W × (Limiter × (Assoc String Code × Bool))
  apply decode owned l targets w =
      let limits = limits_of (decode_target decode owned) l.limits targets in
      let p = prepare (record l { limits = limits }) w in
      let s = sync p.1 p.0 in
      (
        s.0,
        (s.1.0, if s.1.1 then (reported s.1.0, true) else (codes_for apply_failed targets, false)),
      )
    where
      reported : Limiter → Assoc String Code
      reported m = elim m.code [ fine ↦ [] | c ↦ codes_for c m.limits ]

  -- What Run does on a tick, and on the way out.
  unfoldable pub tick : Limiter → W → W × Limiter
  tick l w = elim l.code [ apply_failed ↦ (w, l) | _ ↦ let s = sync l w in (s.0, s.1.0) ]

  unfoldable pub stop : Limiter → W → W × Limiter
  stop l w = let r = remove_all l w in (r.0, r.1.0)
