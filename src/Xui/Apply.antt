-- ===== src/Xui/Apply.antt =====
-- internal/modules/xui/apply.go: Apply. What becomes of the raw targets is a parameter, `decode`,
-- as `decode_target` fills it.
use akastr_agent.Base.{
  String, Bool, false, not, ◌&&◌, ◌||◌, ltb, Option, none, some, List, [], ◌∷◌, length, Assoc, get,
  put, is, is_some, if◌then◌else◌, String-discrete, ok, err,
}
use akastr_agent.Xui.{
  InboundId, InboundId-discrete, Client, Inbound, Code, target_invalid, state_failed,
  inbound_missing, restart_failed, unconfirmed, panel,
}
use akastr_agent.Xui.State.{flush, set_restart_pending, keep_only}
use akastr_agent.Xui.Targets.{has_text}
use akastr_agent.Xui.Plan.{plan}
use akastr_agent.Xui.Panel.{World, Run, with_state, converge}

abbrev pub Codes : Type 0
Codes = Assoc String Code

unfoldable pub has_id : List InboundId → InboundId → Bool
has_id [] i = false
has_id (j ∷ js) i = is (InboundId-discrete j i) || has_id js i

-- codes, targets, keys and held after the first loop of Apply
pub record Parsed : Type 0 where
  pub codes : Codes
  pub targets : Assoc InboundId (List Client)
  pub keys : Assoc InboundId String
  pub held : List InboundId

unfoldable pub parse :
    {Raw : Type 0}
    → (String → Option InboundId)
    → (String → Raw → Option (List Client))
    → Assoc String (Option Raw)
    → Parsed
parse atoi decode [] = record { codes = []; targets = []; keys = []; held = [] }
parse atoi decode ((key, raw) ∷ more) =
    let p = parse atoi decode more in
    elim (atoi key) [
      | none ↦ record p { codes = put p.codes key target_invalid }
      | some id ↦
          let named = record p { keys = put p.keys id key } in
          elim raw [
            | none ↦ record named { held = id ∷ p.held }
            | some r ↦ elim (decode key r) [
              | none ↦ record named { codes = put p.codes key target_invalid; held = id ∷ p.held }
              | some cs ↦ record named { targets = put p.targets id cs }
            ]
          ]
    ]

-- keys[id]
unfoldable pub key_of : Assoc InboundId String → InboundId → String
key_of keys id = elim (get keys id) [ none ↦ "" | some k ↦ k ]

-- fail: the code for each target without one
unfoldable pub fail_all :
    Code → Assoc InboundId String → Assoc InboundId (List Client) → Codes → Codes
fail_all c keys [] codes = codes
fail_all c keys ((id, t) ∷ m) codes =
    let rest = fail_all c keys m codes in
    let key = key_of keys id in if is_some (get rest key) then rest else put rest key c

-- What the loop over the inbounds makes of codes, wrote and cleanup
pub record Pass : Type 0 where
  pub codes : Codes
  pub wrote : Bool
  pub cleanup : Option Code

unfoldable pub note : Parsed → InboundId → Bool → Pass → Bool × Option Code → Pass
note p id named a r = record {
  codes = elim r.1 [
    | none ↦ a.codes
    | some e ↦ if named then put a.codes (key_of p.keys id) e else a.codes
  ];
  wrote = a.wrote || r.0;
  cleanup = elim r.1 [
    | none ↦ a.cleanup
    | some e ↦ if named || is_some a.cleanup then a.cleanup else some e
  ];
}

-- An inbound that the panel no longer has is missed by a target with clients.
unfoldable pub missing : Parsed → List Inbound → Assoc InboundId (List Client) → Codes → Codes
missing p ibs [] codes = codes
missing p ibs ((id, t) ∷ m) codes =
    let rest = missing p ibs m codes in
    if not (present ibs id) && ltb 0 (length t)
    then put rest (key_of p.keys id) inbound_missing
    else rest
  where
    present : List Inbound → InboundId → Bool
    present [] i = false
    present (ib ∷ more) i = is (InboundId-discrete ib.id i) || present more i

unfoldable pub target_emails : Assoc InboundId (List Client) → List String
target_emails [] = []
target_emails ((id, t) ∷ m) = emails t (target_emails m)
  where
    emails : List Client → List String → List String
    emails [] es = es
    emails (c ∷ cs) es = c.email ∷ emails cs es

module _ {W : Type 0} (x : World W) where
  unfoldable pub visit : Parsed → List Inbound → Pass → Run W → Run W × Pass
  visit p [] a r = (r, a)
  visit p (ib ∷ more) a r =
      let target = get p.targets ib.id in
      let c = converge x ib target r in
      let skip = visit p more a r in
      let rest = visit p more (note p ib.id (is_some target) a c.1) c.0 in
      if has_id p.held ib.id then skip else rest

  -- Each inbound that has a target and no code is planned again, and should want nothing.
  unfoldable pub confirm : Parsed → List Inbound → Codes → Codes
  confirm p [] codes = codes
  confirm p (ib ∷ more) codes = confirm p more (elim (get p.targets ib.id) [
    | none ↦ codes
    | some target ↦
        let key = key_of p.keys ib.id in
        if is_some (get codes key) then codes else elim (plan x.parse_float x.key_size ib target) [
          | ok [] ↦ codes
          | _ ↦ put codes key unconfirmed
        ]
  ])

  -- What is left after a restart that was due: the confirmation, and the reset marks that are kept
  unfoldable pub finish : Parsed → Pass → Run W → Run W × (Codes × Option Code)
  finish p a r =
      let kept = with_state x (λ fault. keep_only fault (has_text (target_emails p.targets))) r in
      if ltb 0 (length p.held)
      then (r, (a.codes, a.cleanup))
      else if kept.1
      then (kept.0, (a.codes, a.cleanup))
      else (kept.0, (fail_all state_failed p.keys p.targets a.codes, some state_failed))

  unfoldable pub confirm_writes : Parsed → Pass → Run W → Run W × (Codes × Option Code)
  confirm_writes p a r =
      let listed = x.inbounds r.world in
      let again = record r { world = listed.0 } in
      if not a.wrote then finish p a r else elim listed.1 [
        | err e ↦ (again, (fail_all (panel e) p.keys p.targets a.codes, some (panel e)))
        | ok ibs ↦ finish p (record a { codes = confirm p ibs a.codes }) again
      ]

  unfoldable pub restart_due : Parsed → Pass → Run W → Run W × (Codes × Option Code)
  restart_due p a r =
      let done = x.restart r.world in
      let cleared =
        with_state x (λ fault. set_restart_pending fault false) (record r { world = done.0 }) in
      if not r.state.restart_pending
      then confirm_writes p a r
      else if not done.1
      then (
        record r { world = done.0 },
        (fail_all restart_failed p.keys p.targets a.codes, some restart_failed),
      )
      else if cleared.1
      then confirm_writes p a cleared.0
      else (cleared.0, (fail_all state_failed p.keys p.targets a.codes, some state_failed))

  -- Apply on the parsed targets, with its codes and its error
  unfoldable pub apply : Parsed → Run W → Run W × (Codes × Option Code)
  apply p r =
      let flushed = with_state x flush r in
      let listed = x.inbounds flushed.0.world in
      let start = record flushed.0 { world = listed.0 } in
      if not flushed.1
      then (flushed.0, (fail_all state_failed p.keys p.targets p.codes, some state_failed))
      else elim listed.1 [
        | err e ↦ (start, (fail_all (panel e) p.keys p.targets p.codes, some (panel e)))
        | ok ibs ↦
            let v = visit p ibs (record { codes = p.codes; wrote = false; cleanup = none }) start in
            restart_due p (record v.1 { codes = missing p ibs p.targets v.1.codes }) v.0
      ]
