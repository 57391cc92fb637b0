-- ===== src/RateLimit/Tests.antt =====
-- The rate limiter on concrete limits, connections and hosts.
use akastr_agent.Base.{
  contains, delete, put, insert, sort, ℕ, String, Bool, true, false, Option, none, some, List, [],
  ◌∷◌, Assoc, Elem, get, length, String-discrete, ◌≡◌, ◌≤◌, refl, inl, arith, is_some, All, ◌⊎◌,
  ◌<◌, ◌+◌, is_prefix, is_infix,
}
use akastr_agent.Ledger.{AddrPort, Flow, tcp}
use akastr_agent.RateLimit.{
  Target, Rule-discrete, Wanted, new_rules, max_filters, max_users, action_base,
}
use akastr_agent.RateLimit.Plan.{
  plan, rule_of, emails_of, owners, devs_of, limit_of, returned, add_groups, keys, add_emails,
  owned_by, claim_groups, claim_emails, claim_email, add_devs, add_flows,
}
use akastr_agent.RateLimit.Planned.{Polices, plan-Polices}
use akastr_agent.RateLimit.Complete.{plan_complete}
use akastr_agent.RateLimit.Assign.{free_from, has, assign, place, newcomers, keep, use_all}
use akastr_agent.RateLimit.Indexes.{free_from_lowest}
use akastr_agent.RateLimit.Converge.{
  Command, converge, converge_rest, hooks, devs, index_of, drop_orphans, add_filters, add_name,
  add_names, burst, del_filters, drop_filters, edit, group_of, has_name, put_all, put_rates,
  rate_of, record_batch, release_orphans, release_rates, replace_actions, rule_keys, run_batch,
  settled, target,
}
use akastr_agent.RateLimit.Refined.{index_at}
use akastr_agent.RateLimit.Installs.{wanted_index}
use akastr_agent.RateLimit.{Installed}
use akastr_agent.RateLimit.Converge.{Edit}
use akastr_agent.Base.{◌≢◌}
use akastr_agent.RateLimit.Sent.{deletes, adds, converge_sends}
use akastr_agent.RateLimit.Failures.{LimiterInv, new_rules-RulesInv, emptied}
use akastr_agent.RateLimit.Limits.{apply_failed}
use akastr_agent.RateLimit.Limiter.{remove_all, prepare, sync, Host, new, apply}
use akastr_agent.RateLimit.Reports.{applies, ticks, stops, run, history-LimiterInv, apply_failure}

abbrev no6 : AddrPort → Bool
no6 a = false

abbrev in_order : {A : Type 0} → A → A → Bool
in_order a b = true

abbrev flow : Flow
flow = record {
  proto = tcp;
  local_ip = some "10.0.0.1";
  local_port = 443;
  remote = record { ip = "1.1.1.1"; port = 5000 };
}

abbrev flows_of : String → List Flow
flows_of e = flow ∷ []

-- Two groups that share a client.
abbrev two_groups : Assoc String Target
two_groups =
    ("a", record { down_mbps = 20; emails = "v" ∷ [] })
    ∷ ("b", record { down_mbps = 10; emails = "v" ∷ [] })
    ∷ []

abbrev planned : Wanted
planned = plan no6 in_order ("eth0" ∷ []) [] flows_of two_groups

lower_limit : get (owners two_groups) "v" ≡ some "b"
unfolding owners get claim_groups sort keys insert claim_emails emails_of String-discrete
    claim_email put delete limit_of
lower_limit = refl

plan-Polices_example :
    All (Polices no6 in_order ("eth0" ∷ []) [] flows_of two_groups) planned.rules
    × (length planned.rules ≤ max_filters)
plan-Polices_example = plan-Polices no6 in_order ("eth0" ∷ []) [] flows_of two_groups

one_rule : length planned.rules ≡ 1
unfolding plan returned add_groups sort keys insert add_emails emails_of get String-discrete
    owned_by owners claim_groups claim_emails claim_email put delete add_devs add_flows devs_of
    limit_of rule_of
one_rule = refl

v_in_b : Elem "v" (emails_of two_groups "b")
unfolding emails_of get String-discrete
v_in_b = inl refl

on_eth0 : Elem "eth0" (devs_of no6 ("eth0" ∷ []) [] flow)
unfolding devs_of
on_eth0 = inl refl

plan_complete_example : is_some (get planned.rules (rule_of flow "eth0")) ≡ true
plan_complete_example =
    plan_complete no6 in_order ("eth0" ∷ []) [] flows_of two_groups "b" "v" flow "eth0" v_in_b
      (inl refl) on_eth0 (omega (arith, one_rule))

-- A world that tc does not change and a tc that does not fail.
abbrev quiet : Command → ℕ → ℕ × Option String
quiet c w = (w, some "")

abbrev one_wanted : Wanted
one_wanted = record { rates = ("a", 20) ∷ []; rules = (rule_of flow "eth0", "a") ∷ [] }

converges : (converge quiet no6 in_order new_rules one_wanted 0).1.1 ≡ true
unfolding converge converge_rest hooks devs index_of get assign place sort newcomers keep new_rules
    insert free_from has use_all drop_orphans delete put String-discrete contains is_infix is_prefix
    add_filters add_name add_names burst del_filters drop_filters edit group_of has_name put_all
    put_rates rate_of record_batch release_orphans release_rates replace_actions rule_keys run_batch
    settled target rule_of
converges = refl

unnamed : get one_wanted.rates "" ≡ none
unfolding get String-discrete
unnamed = refl

abbrev first_filter : Installed
first_filter = record { handle = 1; index = 49001 }

converge_sends_example :
    let c = converge quiet no6 in_order new_rules one_wanted 0 in
    let x = rule_of flow "eth0" in
    (index_at (get c.1.0.filters x) ≡ wanted_index c.1.0.actions one_wanted.rules x)
    × ((edits : List Edit) × (v : ℕ) × (run_batch quiet edits v ≡ (c.0, true))
        × ((get new_rules.filters x ≢ some first_filter)
            ⊎ ((target c.1.0.actions one_wanted.rules x ≡ first_filter.index)
                ⊎ Elem (deletes no6 x first_filter) edits))
        × ((get c.1.0.filters x ≢ some first_filter)
            ⊎ ((get new_rules.filters x ≡ some first_filter)
                ⊎ Elem (adds no6 x first_filter) edits)))
converge_sends_example =
    converge_sends quiet no6 in_order new_rules one_wanted 0 (rule_of flow "eth0") first_filter
      first_filter new_rules-RulesInv unnamed converges

-- A host whose interfaces cannot be listed.
abbrev deaf : Host ℕ
deaf = record {
  run = quiet;
  routes = λ w. (w, some ("eth0" ∷ [], []));
  links = λ w. (w, none);
  flows_fail = λ w. false;
  flows = λ w. flows_of;
  done = λ w. false;
  police_indexes = λ out. [];
  is6 = no6;
  before_flow = in_order;
  before_rule = in_order;
}

abbrev read : Target → Option Target
read t = some t

abbrev anyone : String → Bool
anyone e = true

abbrev targets : Assoc String (Option Target)
targets = ("a", some (record { down_mbps = 20; emails = "u" ∷ [] })) ∷ []

fails : (apply deaf read anyone new targets 0).1.1.1 ≡ false
unfolding apply sync prepare new remove_all
fails = refl

new_empty : new.rules ≡ new_rules
unfolding new_rules new
new_empty = refl

named : is_some (get targets "a") ≡ true
unfolding get String-discrete
named = refl

apply_failure_example :
    (get (apply deaf read anyone new targets 0).1.1.0 "a" ≡ some apply_failed)
    × ((apply deaf read anyone new targets 0).1.0.rules ≡ new_rules)
apply_failure_example =
    apply_failure deaf read anyone new targets 0 "a" (emptied new new_empty) named fails

history-LimiterInv_example :
    LimiterInv (run deaf read anyone (applies targets ∷ ticks ∷ stops ∷ []) (0, new)).1
history-LimiterInv_example =
    history-LimiterInv deaf read anyone (applies targets ∷ ticks ∷ stops ∷ []) 0

-- The first two indexes are in use.
abbrev in_use : List ℕ
in_use = 2885681153 ∷ 2885681154 ∷ []

free_from_lowest_example :
    let free = free_from 4096 in_use 1 in
    (1 ≤ free)
    × ((max_users < free) ⊎ (has in_use (action_base + free) ≡ false))
    × ((i : ℕ) → 1 ≤ i → i < free → has in_use (action_base + i) ≡ true)
free_from_lowest_example = free_from_lowest 4096 in_use 1 (omega arith)
