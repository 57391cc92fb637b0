-- ===== src/Xui.antt =====
-- internal/modules/xui: what Cloud wants in the panel's inbounds, and what the panel has there. The
-- JSON of an inbound's settings is parsed by the standard library: none is what it cannot parse.
-- Traffic counters are below 2 ^ 62, so their sum does not wrap.
pub mod State
pub mod Targets
pub mod Plan
pub mod Panel
pub mod Apply
pub mod Resets
pub mod Ascending
pub mod Calls
pub mod Durable
pub mod Spares
pub mod Foreign
mod Tests
use akastr_agent.Base.{
  ℕ, String, Bool, Option, List, Assoc, String-discrete, ℕ_discrete, true, false, none, some, ◌≡◌,
  ◌≢◌,
}

-- A value of a client's JSON object. A number that no target names, a null, an array or an object
-- is `other`, with a number that tells it from the rest.
pub data Value : Type 0 where
  text : String → Value
  number : ℕ → Value
  flag : Bool → Value
  other : ℕ → Value

instance pub Value-discrete : Discrete Value
Value-discrete = hlevel (String-discrete, ℕ_discrete)

-- map[string]any
abbrev pub Fields : Type 0
Fields = Assoc String Value

-- Client
pub record Client : Type 0 where
  pub email : String
  pub credential : String
  pub flow : String
  pub enable : Bool
  pub total_bytes : ℕ
  pub reset_seq : ℕ
  pub comment : String

pub record Settings : Type 0 where
  pub clients : Option (List Fields)
  pub method : String

pub record Stat : Type 0 where
  pub email : String
  pub up : ℕ
  pub down : ℕ

-- An integer, as the panel numbers its inbounds and strconv.Atoi reads a key; `below n` is
-- the negative one that lies n + 1 below zero.
pub data InboundId : Type 0 where
  at below : ℕ → InboundId

instance pub InboundId-discrete : Discrete InboundId
InboundId-discrete = hlevel ℕ_discrete

pub record Inbound : Type 0 where
  pub id : InboundId
  pub protocol : String
  pub settings : Option Settings
  pub stats : List Stat

-- action; update and delete name the client that they address.
pub data Action : Type 0 where
  add : Fields → Action
  update : (identity : String) → Fields → Action
  delete_client : (identity : String) → Action

-- The codes of the module, and those that the panel's client returns.
pub data Code : Type 0 where
  target_invalid state_failed inbound_missing restart_failed unconfirmed inbound_invalid : Code
  inbound_changed client_conflict write_failed : Code
  panel : String → Code
