-- ===== src/Lifecycle.antt =====
-- internal/lifecycle/gate.go: the gate that keeps a process replacement and running operations
-- apart. A lease is a pointer in the source; here it is its position in the list of the leases
-- that the gate handed out, and `none` is the nil lease.
pub mod Leases
pub mod Exclusion
mod Tests
use akastr_agent.Base.{
  ℕ, ◌+◌, ◌-◌, Bool, true, false, ◌||◌, not, Option, none, some, List, [], ◌∷◌, ◌++◌, ◌==◌,
  if◌then◌else◌, length, get_elem?, set,
}

-- Which closure a lease runs when it is released.
pub data Kind : Type 0 where
  operation update : Kind

-- `released` is the state of the lease's sync.Once.
pub record Lease : Type 0 where
  pub kind : Kind
  pub released : Bool

pub record Gate : Type 0 where
  pub updating : Bool
  pub operations : ℕ
  pub leases : List Lease

unfoldable pub new : Gate
new = record { updating = false; operations = 0; leases = [] }

abbrev hand_out : Kind → List Lease → List Lease
hand_out k ls = ls ++ record { kind = k; released = false } ∷ []

unfoldable pub try_operation : Gate → Gate × Option ℕ
try_operation g = if g.updating then (g, none) else (
  record g { operations = g.operations + 1; leases = hand_out operation g.leases },
  some (length g.leases),
)

unfoldable pub try_update : Gate → Gate × Option ℕ
try_update g =
    if g.updating || not (g.operations == 0)
    then (g, none)
    else (record g { updating = true; leases = hand_out update g.leases }, some (length g.leases))

-- The closure of a lease. `operations` never goes below 0: `release-Inv` of Leases has the count
-- of the open leases in it, this one included.
abbrev closure : Kind → Gate → Gate
closure operation g = record g { operations = g.operations - 1 }
closure update g = record g { updating = false }

-- once.Do
unfoldable pub once : ℕ → Gate → Option Lease → Gate
once i g none = g
once i g (some l) =
    if l.released
    then g
    else closure l.kind (record g { leases = set g.leases i (record l { released = true }) })

unfoldable pub release : Gate → Option ℕ → Gate
unfolding once
release g none = g
release g (some i) = once i g (get_elem? g.leases i)

-- A call of the gate by some goroutine; each holds the gate's mutex throughout.
pub data Call : Type 0 where
  tries_operation tries_update : Call
  releases : Option ℕ → Call

pub step : Gate → Call → Gate
step g tries_operation = (try_operation g).0
step g tries_update = (try_update g).0
step g (releases l) = release g l

pub run : Gate → List Call → Gate
run g [] = g
run g (c ∷ cs) = run (step g c) cs
