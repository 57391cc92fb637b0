-- ===== src/Xui/Panel.antt =====
-- internal/modules/xui/apply.go: Apply, converge and reset. The panel's client and the disk are steps
-- of a world W; `executed` lists the traffic resets that the panel was asked for and accepted.
use akastr_agent.Base.{
  ℕ, String, Bool, true, false, not, ◌&&◌, ◌||◌, ltb, leb, Option, none, some, List, [], ◌∷◌,
  length, if◌then◌else◌, String-discrete, Result, ok, err,
}
use akastr_agent.State.{SaveStep}
use akastr_agent.Xui.{
  InboundId, InboundId-discrete, Client, Stat, Inbound, Action, Code, state_failed, write_failed,
}
use akastr_agent.Xui.State.{LocalState, reset_of, set_reset, set_restart_pending}
use akastr_agent.Xui.Targets.{is_text, ss2022}
use akastr_agent.Xui.Plan.{plan}

-- What Apply needs: the panel's requests, the outcome of the next save, and what the standard library
-- reads of texts.
pub record World (W : Type 0) : Type 0 where
  pub inbounds : W → W × Result String (List Inbound)
  pub restart : W → W × Bool
  pub reset_traffic : InboundId → String → W → W × Bool
  pub write : InboundId → Action → W → W × Bool
  pub fault : W → W × Option SaveStep
  pub parse_float : String → Option ℕ
  pub key_size : String → Option ℕ

-- What a call threads through.
pub record Run (W : Type 0) : Type 0 where
  pub world : W
  pub state : LocalState
  pub executed : List (String × ℕ)

-- existing, whose last entry of an email counts
unfoldable pub has_stat : List Stat → String → Bool
has_stat [] e = false
has_stat (s ∷ ss) e = is_text s.email e || has_stat ss e

unfoldable pub zero_stat : List Stat → String → List Stat
zero_stat [] e = []
zero_stat (s ∷ ss) e =
    let rest = s ∷ zero_stat ss e in
    if has_stat ss e
    then rest
    else if is_text s.email e
    then record s { up = 0; down = 0 } ∷ ss
    else s ∷ ss

unfoldable pub resets_due : LocalState → List Client → Bool
resets_due s [] = false
resets_due s (c ∷ cs) = ltb (reset_of s c.email) c.reset_seq || resets_due s cs

unfoldable pub has_clients : Inbound → Bool
has_clients ib = elim ib.settings [
  | none ↦ false
  | some s ↦ elim s.clients [ none ↦ false | some cs ↦ ltb 0 (length cs) ]
]

unfoldable pub method_of : Inbound → String
method_of ib = elim ib.settings [ none ↦ "" | some s ↦ s.method ]

module _ {W : Type 0} (x : World W) where
  -- A step of the local state, with the outcome of the save that it may make
  unfoldable pub with_state :
      (Option SaveStep → LocalState → LocalState × Bool) → Run W → Run W × Bool
  with_state f r =
      let w = x.fault r.world in
      let s = f w.1 r.state in (record r { world = w.0; state = s.0 }, s.1)

  -- p.state.setReset, after the panel's reset or without one
  unfoldable pub record_reset : Client → Run W → Run W × Option Code
  record_reset c r =
      let s = with_state (λ fault. set_reset fault c.email c.reset_seq) r in
      (s.0, if s.1 then none else some state_failed)

  unfoldable pub ask_reset : InboundId → Client → Run W → Run W × Bool
  ask_reset id c r =
      let p = x.reset_traffic id c.email r.world in
      (
        record r {
          world = p.0;
          executed = if p.1 then (c.email, c.reset_seq) ∷ r.executed else r.executed;
        },
        p.1,
      )

  unfoldable pub recorded : List Stat → Run W × Option Code → Run W × Result Code (List Stat)
  recorded kept s = (s.0, elim s.1 [ none ↦ ok kept | some e ↦ err e ])

  -- The body of the loop of reset, for a reset that is due
  unfoldable pub reset_client :
      InboundId → List Stat → Client → Run W → Run W × Result Code (List Stat)
  reset_client id stats c r =
      if has_stat stats c.email
      then (let p = ask_reset id c r in
          if p.1
          then recorded (zero_stat stats c.email) (record_reset c p.0)
          else (p.0, err write_failed))
      else recorded stats (record_reset c r)

  unfoldable pub reset :
      InboundId → List Stat → List Client → Run W → Run W × Result Code (List Stat)
  reset id stats [] r = (r, ok stats)
  reset id stats (c ∷ cs) r =
      let skip = reset id stats cs r in
      let one = reset_client id stats c r in
      if leb c.reset_seq (reset_of r.state c.email)
      then skip
      else elim one.1 [ err e ↦ (one.0, err e) | ok kept ↦ reset id kept cs one.0 ]

  -- The loop over the actions; `wrote` is whether one was written before.
  unfoldable pub write_all : InboundId → Bool → List Action → Run W → Run W × (Bool × Option Code)
  write_all id wrote [] r = (r, (wrote, none))
  write_all id wrote (a ∷ more) r =
      let p = x.write id a r.world in
      let rest = write_all id true more (record r { world = p.0 }) in
      if p.1 then rest else (record r { world = p.0 }, (wrote, some write_failed))

  -- What converge does once its actions are settled
  unfoldable pub write_actions : Inbound → List Action → Run W → Run W × (Bool × Option Code)
  write_actions ib actions r =
      let pending = with_state (λ fault. set_restart_pending fault true) r in
      if ltb 0 (length actions) && ss2022 ib.protocol (method_of ib)
      then if pending.1
        then write_all ib.id false actions pending.0
        else (pending.0, (false, some state_failed))
      else write_all ib.id false actions r

  -- The target is planned again after a reset, which changes what is used.
  unfoldable pub after_reset :
      Inbound → List Client → Run W × Result Code (List Stat) → Run W × (Bool × Option Code)
  after_reset ib target s = elim s.1 [
    | err e ↦ (s.0, (false, some e))
    | ok stats ↦ elim (plan x.parse_float x.key_size (record ib { stats = stats }) target) [
      | err e ↦ (s.0, (false, some e))
      | ok actions ↦ write_actions (record ib { stats = stats }) actions s.0
    ]
  ]

  unfoldable pub converge_target : Inbound → List Client → Run W → Run W × (Bool × Option Code)
  converge_target ib target r = elim (plan x.parse_float x.key_size ib target) [
    | err e ↦ (r, (false, some e))
    | ok actions ↦
        if resets_due r.state target
        then after_reset ib target (reset ib.id ib.stats target r)
        else write_actions ib actions r
  ]

  -- converge; none is a target that no key names.
  unfoldable pub converge : Inbound → Option (List Client) → Run W → Run W × (Bool × Option Code)
  converge ib none r = if not (has_clients ib) then (r, (false, none)) else converge_target ib [] r
  converge ib (some target) r = converge_target ib target r
