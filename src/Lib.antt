-- ===== src/Lib.antt =====
-- A model of akastr-agent, the program that a node of AkastrCloud runs: it keeps one control
-- connection, runs the commands that the controller offers, applies the targets that it sends,
-- and reports what it observes. The model covers the parts that decide what is run, kept and
-- reported; the network, the host's tools and the formats of the standard library stay outside
-- it, as arguments.
--
-- Parts, and how they interact:
-- - State: internal/state/json_file.go, the files that every other part keeps its state in. A
--   save is a sequence of steps, any of which may fail; `save` says what is on disk then, and
--   `load` what the next process reads. What encoding/json accepts is the distinction of a file
--   that `holds` a value from a malformed one. The temporary file, whose name nothing reads, is
--   left out.
-- - Lifecycle: internal/lifecycle/gate.go, the gate through which operations and an update
--   exclude one another. Leases are numbered in the order in which they are granted.
-- - Operation: internal/operation/engine.go (Token, Records, Validate, Journal) and executor.go
--   (Executor). The journal of commands, in memory and on disk, and the execution of one command
--   by its handler. A handler is a record of functions, and so is the codec of results; a
--   restart is `open_journal` on the file that the last process left, where a result has the
--   text that the file's indents give it (`layout`). Between the calls of an execution other
--   commands may change the journal (`Moment`). WellFormed, Accepted, Methods, Reopen, Fits,
--   History and Results hold the theorems of the journal, Once, Replay and Crash those of the
--   executor.
-- - Protocol: internal/protocol/protocol.go, the pattern of the identifiers.
-- - IpWatch: internal/modules/ipwatch/monitor.go and module.go, the monitor of the public
--   addresses and of an open ChangeIP. Change arms, cancels and acknowledges attempts, Open
--   reads the state file, Loop has the two loops, as steps between which any other method may be
--   called; a step decides under the lock on a report, which is published once the lock is
--   released. Observed, Invariant and Reports say what the controller is told, Valid and Reopen
--   what the next process finds. What netip and time.Parse accept are the arguments `is_ipv4`
--   and `is_time`.
-- - ChangeIp: internal/modules/changeip/handler.go, the command that asks a provider for another
--   address, on top of IpWatch. The observation, the provider's answer and the monitor's calls
--   meanwhile are the record `Outside`.
-- - Ledger: internal/xray/ledger/ledger.go, the account of connections. Sockets and Claims have
--   what a line of the access log does (claim, carrier, candidate, bind, replayed, dispute),
--   Dumps what the kernel's dumps and close notices do (take, close, expire) and the answers
--   (Flows, Connections). Candidate, Follows, Changes, Account, Counted, Seen, Kernel, History
--   and Present hold the theorems.
-- - Desired: internal/desired/engine.go, the targets of a module and the pass that applies them.
-- - Transport: internal/transport/client.go, the commands that are offered, acknowledged and
--   executed, and the leases that they hold, on top of Lifecycle.
-- - Updater: internal/update/attempts.go, updater.go and client.go, the record of the tries of
--   an update, the checks of a target (Versions, Target, with their theorems there and in
--   Forward) and the decision to start a candidate, on top of State and Lifecycle.
-- - RateLimit: internal/modules/ratelimit/rules.go, ratelimit.go and cleanup of host.go: the
--   filters that limit the users' downloads. Plan, Assign and Converge have what rules.go does,
--   Limits the reading of the targets, Limiter the methods of the limiter and the removal of all
--   rules. tc is a function from a command and the world to the next world; a command is a
--   value, not its text. Owner, Planned, Complete, Indexes, Origins, Refined, Installs, Kept,
--   Converged, Sent, Failures and Reports hold the theorems.
-- - Xui: internal/modules/xui/apply.go, module.go and state.go, the clients that Cloud owns in
--   the panel's inbounds. State has the durable record of resets and of a restart that is due,
--   on top of State; Targets the checks of a target; Plan the writes that bring an inbound to
--   its target; Panel a reset and the convergence of one inbound; Apply the whole pass. The
--   panel and the disk are steps of a world. Spares, Foreign, Resets, Ascending, Calls and
--   Durable hold the theorems.
-- - ConnectionRecords: internal/modules/connectionrecords/module.go, the queue of connection
--   records, its bound and the batch that waits for its acknowledgement; Counts, Conserved and
--   Order hold the theorem.
-- - NetPolicy: internal/netpolicy/public_ipv4.go, which addresses are public; Ranges holds the
--   theorem.
-- - Base: what the parts share: tests, results of fallible functions, lists, and a Go map as an
--   association list without assumptions on its order.
--
-- Mutexes make each method one step, and a method that releases its mutex is several. Times and
-- counts are natural numbers, so a difference of times stops at zero where the source's is
-- negative; every use of one is a comparison with a positive bound. Loops are over lists, but
-- for two: the search for a free police index, on as much fuel as there are indexes left, and
-- the five attempts at deleting the police actions.
--
-- Not modelled: processes, sockets, HTTP, files other than those of State, cryptography and the
-- decoding of JSON. Of the control connection only the handlers above are; the routing module
-- and the access log's parser are not modelled, nor are the updater's preparation of a candidate
-- and its download.
mod Base
pub mod State
pub mod Protocol
pub mod RateLimit
pub mod Xui
pub mod NetPolicy
pub mod ConnectionRecords
pub mod IpWatch
pub mod ChangeIp
pub mod Ledger
pub mod Desired
pub mod Updater
pub mod Transport
pub mod Lifecycle
pub mod Operation
