-- ===== src/RateLimit.antt =====
-- internal/modules/ratelimit: what Cloud limits, and the filters that police it. An address the
-- source leaves invalid, as the local one of a UDP flow, is none; a rate is a number of Mbit/s.
pub mod Plan
pub mod Owner
pub mod Planned
pub mod Complete
pub mod Assign
pub mod Indexes
pub mod Origins
pub mod Converge
pub mod Refined
pub mod Installs
pub mod Kept
pub mod Converged
pub mod Sent
pub mod Limits
pub mod Limiter
pub mod Failures
pub mod Reports
pub mod Tests
use akastr_agent.Base.{ℕ, String, Option, List, [], Assoc, String-discrete, ℕ_discrete}
use akastr_agent.Ledger.{AddrPort, AddrPort-discrete, Proto, tcp, udp}

pub record Target : Type 0 where
  pub down_mbps : ℕ
  pub emails : List String

instance pub Proto-discrete : Discrete Proto
Proto-discrete = hlevel

-- rule
pub record Rule : Type 0 where
  pub dev : String
  pub proto : Proto
  pub local_ip : Option String
  pub local_port : ℕ
  pub remote : AddrPort

instance pub Rule-discrete : Discrete Rule
Rule-discrete = hlevel (String-discrete, ℕ_discrete, AddrPort-discrete, Proto-discrete)

-- desired
pub record Wanted : Type 0 where
  pub rates : Assoc String ℕ
  pub rules : Assoc Rule String

abbrev pub pref_ipv4 : ℕ
pref_ipv4 = 49001

abbrev pub pref_ipv6 : ℕ
pref_ipv6 = 49002

abbrev pub action_base : ℕ
action_base = 2885681152

abbrev pub max_users : ℕ
max_users = 4096

abbrev pub max_filters : ℕ
max_filters = 16384

-- installed
pub record Installed : Type 0 where
  pub handle : ℕ
  pub index : ℕ

-- rules; a Go set is the list of its elements.
pub record Rules : Type 0 where
  pub clsact : List String
  pub actions : Assoc String ℕ
  pub rates : Assoc ℕ ℕ
  pub filters : Assoc Rule Installed
  pub orphans : List ℕ
  pub next_handle : ℕ

unfoldable pub new_rules : Rules
new_rules = record {
  clsact = [];
  actions = [];
  rates = [];
  filters = [];
  orphans = [];
  next_handle = 0;
}
