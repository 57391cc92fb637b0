-- ===== src/RateLimit/Plan.antt =====
-- internal/modules/ratelimit/rules.go: plan. An early return of the source's nested loops is an
-- `err` that carries the rules so far.
use akastr_agent.Base.{
  ℕ, String, Bool, none, some, List, [], ◌∷◌, Assoc, length, get, put, ltb, leb, is, if◌then◌else◌,
  Result, ok, err, ◌>>=◌, String-discrete, sort, str_leb,
}
use akastr_agent.Ledger.{AddrPort, Flow}
use akastr_agent.RateLimit.{Target, Rule, Rule-discrete, Wanted, max_filters}

-- limits[group].DownMbps
unfoldable pub limit_of : Assoc String Target → String → ℕ
limit_of limits g = elim (get limits g) [ none ↦ 0 | some t ↦ t.down_mbps ]

-- limits[group].Emails
unfoldable pub emails_of : Assoc String Target → String → List String
emails_of limits g = elim (get limits g) [ none ↦ [] | some t ↦ t.emails ]

-- The body of the loop over a group's emails: a client in two groups follows the lower limit.
unfoldable pub claim_email :
    Assoc String Target → String → String → Assoc String String → Assoc String String
claim_email limits g e owner = elim (get owner e) [
  | none ↦ put owner e g
  | some c ↦ if ltb (limit_of limits g) (limit_of limits c) then put owner e g else owner
]

unfoldable pub claim_emails :
    Assoc String Target → String → List String → Assoc String String → Assoc String String
claim_emails limits g [] owner = owner
claim_emails limits g (e ∷ es) owner = claim_emails limits g es (claim_email limits g e owner)

unfoldable pub claim_groups :
    Assoc String Target → List String → Assoc String String → Assoc String String
claim_groups limits [] owner = owner
claim_groups limits (g ∷ gs) owner =
    claim_groups limits gs (claim_emails limits g (emails_of limits g) owner)

-- maps.Keys
unfoldable pub keys : {V : Type 0} → Assoc String V → List String
keys [] = []
keys ((k, v) ∷ m) = k ∷ keys m

unfoldable pub owners : Assoc String Target → Assoc String String
owners limits = claim_groups limits (sort str_leb (keys limits)) []

unfoldable pub rule_of : Flow → String → Rule
rule_of f d = record {
  dev = d;
  proto = f.proto;
  local_ip = f.local_ip;
  local_port = f.local_port;
  remote = f.remote;
}

unfoldable pub add_devs : String → Flow → List String → Wanted → Result Wanted Wanted
add_devs g f [] w = ok w
add_devs g f (d ∷ ds) w =
    let rest = add_devs g f ds (record w { rules = put w.rules (rule_of f d) g }) in
    if leb max_filters (length w.rules) then err w else rest

unfoldable pub returned : Result Wanted Wanted → Wanted
returned (ok w) = w
returned (err w) = w

-- owner[email] == group, where a missing owner is the empty text
unfoldable pub owned_by : Assoc String String → String → String → Bool
owned_by owner g e = elim (get owner e) [
  | none ↦ is (String-discrete "" g)
  | some c ↦ is (String-discrete c g)
]

-- The interfaces a connection's rules stand on: those of the IPv4 or the IPv6 default routes.
unfoldable pub devs_of : (AddrPort → Bool) → List String → List String → Flow → List String
devs_of is6 v4 v6 f = if is6 f.remote then v6 else v4

-- `is6` is the library's test on an address, `before` its order on flows, `v4` and `v6` the
-- interfaces of the default routes, and `flows` what the ledger knows of a client.
module _ (is6 : AddrPort → Bool) (before : Flow → Flow → Bool) (v4 v6 : List String)
    (flows : String → List Flow) (limits : Assoc String Target) where
  unfoldable pub add_flows : String → List Flow → Wanted → Result Wanted Wanted
  add_flows g [] w = ok w
  add_flows g (f ∷ fs) w = add_devs g f (devs_of is6 v4 v6 f) w >>= add_flows g fs

  unfoldable pub add_emails :
      Assoc String String → String → List String → Wanted → Result Wanted Wanted
  add_emails owner g [] w = ok w
  add_emails owner g (e ∷ es) w =
      (if owned_by owner g e then add_flows g (sort before (flows e)) w else ok w)
      >>= add_emails owner g es

  unfoldable pub add_groups : Assoc String String → List String → Wanted → Result Wanted Wanted
  add_groups owner [] w = ok w
  add_groups owner (g ∷ gs) w =
      add_emails owner g (sort str_leb (emails_of limits g))
        (record w { rates = put w.rates g (limit_of limits g) })
      >>= add_groups owner gs

  unfoldable pub plan : Wanted
  plan =
      returned (
        add_groups (owners limits) (sort str_leb (keys limits)) (record { rates = []; rules = [] }))
