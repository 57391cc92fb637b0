-- ===== src/Transport.antt =====
-- internal/transport/client.go: the commands of the control connection and their leases of the
-- lifecycle gate. The client's mutex makes each handler one step up to the message that it writes;
-- the end of an execution is a step of its own. A lease is its number in the gate.
pub mod Held
pub mod Leases
pub mod Tests
use akastr_agent.Base.{
  ℕ, String, Bool, true, false, ◌||◌, not, Option, none, some, List, [], ◌∷◌, Assoc, is_some,
  if◌then◌else◌, String-discrete, get, put, delete,
}
use akastr_agent.Lifecycle.{Gate, try_operation, release}

pub record Client : Type 0 where
  pub running : Assoc String ℕ
  pub pending : Assoc String ℕ
  pub failed : Bool
  pub gate : Gate

-- acceptOffer, on an offer that its module would accept or not: whether it is answered.
unfoldable pub accept_offer : Bool → String → Client → Client × Bool
accept_offer accepting id c =
    if not accepting
    then (c, false)
    else if is_some (get c.running id) || is_some (get c.pending id)
    then (c, true)
    else elim (try_operation c.gate).1 [
      | none ↦ (c, false)
      | some lease ↦
          (record c { gate = (try_operation c.gate).0; pending = put c.pending id lease }, true)
    ]

-- handleAcceptedAck: whether the command is executed.
unfoldable pub handle_accepted_ack : Bool → String → Client → Client × Bool
handle_accepted_ack accepted id c = elim (get c.pending id) [
  | none ↦ (record c { pending = delete c.pending id }, false)
  | some lease ↦
      if not accepted || is_some (get c.running id)
      then (record c { pending = delete c.pending id; gate = release c.gate (some lease) }, false)
      else (record c { pending = delete c.pending id; running = put c.running id lease }, true)
]

-- execute, once the runtime has returned: with an error the client stops.
unfoldable pub end_execution : Bool → String → Client → Client
end_execution is_error id c = record c {
  running = delete c.running id;
  failed = c.failed || is_error;
  gate = release c.gate (get c.running id);
}

unfoldable pub release_all : Assoc String ℕ → Gate → Gate
release_all [] g = g
release_all ((k, lease) ∷ m) g = release_all m (release g (some lease))

-- releasePending, at the end of a session.
unfoldable pub release_pending : Client → Client
release_pending c = record c { pending = []; gate = release_all c.pending c.gate }
