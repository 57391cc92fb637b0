-- ===== src/Lifecycle/Exclusion.antt =====
-- When the gate grants a lease, and that a lease counts once.
use akastr_agent.Base.{
  ℕ, zero, suc, ◌≡◌, ◌↔◌, refl, true, Option, none, some, List, [], ◌∷◌, length, get_elem?, set,
  arith,
}
use akastr_agent.Lifecycle.{
  operation, update, Lease, Gate, Call, new, try_operation, try_update, once, release, run,
}
use akastr_agent.Lifecycle.Leases.{Inv, open_leases, run_counts}

try_operation_iff :
    (g : Gate) → Inv g → ((try_operation g).1 ≡ none) ↔ (open_leases update g.leases ≡ 1)
unfolding try_operation
try_operation_iff g v = ground (arith, v.updater)

try_update_iff :
    (g : Gate)
    → Inv g
    → ((try_update g).1 ≡ some (length g.leases))
      ↔ ((open_leases operation g.leases ≡ 0) × (open_leases update g.leases ≡ 0))
unfolding try_update
try_update_iff g v = ground (arith, v.updater, v.counted)

-- After any calls of a new gate, an operation is refused exactly while the update lease is out,
-- and an update is granted exactly while no lease of either kind is out.
pub run_grants :
    (cs : List Call)
    → let g = run new cs in
      (((try_operation g).1 ≡ none) ↔ (open_leases update g.leases ≡ 1))
      × (((try_update g).1 ≡ some (length g.leases))
          ↔ ((open_leases operation g.leases ≡ 0) × (open_leases update g.leases ≡ 0)))
run_grants cs = (try_operation_iff _ (run_counts cs), try_update_iff _ (run_counts cs))

get-set_self :
    (xs : List Lease) (i : ℕ) {l : Lease} (m : Lease)
    → get_elem? xs i ≡ some l
    → get_elem? (set xs i m) i ≡ some m
get-set_self [] i m e = ground arith
get-set_self (x ∷ xs) zero m e = refl
get-set_self (x ∷ xs) (suc i) m e = get-set_self xs i m e

once_twice :
    (i : ℕ) (g : Gate) (o : Option Lease)
    → get_elem? g.leases i ≡ o
    → release (once i g o) (some i) ≡ once i g o
unfolding once release
once_twice i g none e = ground arith
once_twice i g (some l) e = ground (arith, get-set_self g.leases i (record l { released = true }) e)

-- Releasing a lease a second time changes nothing, whatever lease it is.
pub release-release : (g : Gate) (o : Option ℕ) → release (release g o) o ≡ release g o
unfolding release
release-release g none = refl
release-release g (some i) = once_twice i g (get_elem? g.leases i) refl
