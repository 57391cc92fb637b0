-- ===== src/ChangeIp/Tests.antt =====
-- The theorem of ChangeIP's runs, applied.
use akastr_agent.Base.{String, ◌⊎◌, refl, Bool, none, some, [], ◌∷◌, is, String-discrete, false}
use akastr_agent.State.{missing}
use akastr_agent.IpWatch.Open.{fresh}
use akastr_agent.IpWatch.Loop.{Watch, looks}
use akastr_agent.ChangeIp.{Outside, trigger_failed, handle}
use akastr_agent.ChangeIp.Reconciliation.{NotAsked, Asked, handle_tells}

abbrev node_address : String
node_address = "198.18.0.1"

abbrev is_node_address : String → Bool
is_node_address s = is (String-discrete s node_address)

abbrev command_id : String
command_id = "6f7f3c2a-1111-4aaa-8bbb-000000000003"

-- A monitor whose address the controller has stored.
abbrev settled_watch : Watch
settled_watch = record {
  monitor =
      record (fresh (record { stored = missing }) 60 false
        (record { schema_version = 1; change_attempt = none })) {
          ipv4 = record { reported = node_address; pending = none; announce = false };
        };
  observing = false;
  observing_ipv6 = false;
}

abbrev refused : Outside
refused = record {
  payload = some node_address;
  observation = some (record {
    address = node_address;
    observed_at = "noon";
    report_id = "6f7f3c2a-1111-4aaa-8bbb-000000000004";
  });
  started_at = 1000;
  now = "noon";
  arm_fault = none;
  cancel_fault = none;
  meanwhile = looks ∷ [];
  trigger = record { state = trigger_failed; code = "start_failed"; finished_at = "later" };
}

handle_tells_example :
    NotAsked settled_watch (handle is_node_address command_id refused settled_watch)
    ⊎ Asked is_node_address command_id node_address refused
        (handle is_node_address command_id refused settled_watch)
handle_tells_example =
    handle_tells is_node_address command_id node_address refused settled_watch refl
