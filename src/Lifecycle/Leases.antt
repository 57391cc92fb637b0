-- ===== src/Lifecycle/Leases.antt =====
-- The gate's two fields count the leases that are out.
use akastr_agent.Base.{
  ℕ, zero, suc, ◌+◌, ◌≡◌, refl, Bool, true, false, ◌&&◌, not, Option, none, some, List, [], ◌∷◌,
  ◌++◌, if◌then◌else◌, get_elem?, set, arith,
}
use akastr_agent.Lifecycle.{
  Kind, operation, update, Lease, Gate, Call, tries_operation, tries_update, releases, new,
  try_operation, try_update, once, release, step, run,
}

abbrev pub same : Kind → Kind → Bool
same operation operation = true
same update update = true
same _ _ = false

-- How many leases of a kind are not released.
pub open_leases : Kind → List Lease → ℕ
open_leases k [] = 0
open_leases k (l ∷ ls) =
    let rest = open_leases k ls in if same k l.kind && not l.released then suc rest else rest

open_leases-append :
    (k : Kind) (xs ys : List Lease) → open_leases k (xs ++ ys) ≡ open_leases k xs + open_leases k ys
unfolding open_leases
open_leases-append k [] ys = omega arith
open_leases-append k (x ∷ xs) ys = ground (arith, open_leases-append k xs ys)

-- Releasing an open lease takes it out of the count of its kind, and of no other.
open_leases-set :
    (k : Kind) (xs : List Lease) (i : ℕ) (l : Lease)
    → get_elem? xs i ≡ some l
    → l.released ≡ false
    → open_leases k (set xs i (record l { released = true })) + (if same k l.kind then 1 else 0)
      ≡ open_leases k xs
unfolding open_leases
open_leases-set k [] i l e h = ground arith
open_leases-set k (x ∷ xs) zero l e h = ground arith
open_leases-set k (x ∷ xs) (suc i) l e h = ground (arith, open_leases-set k xs i l e h)

pub record Inv (g : Gate) : Type 0 where
  pub counted : g.operations ≡ open_leases operation g.leases
  pub updater : open_leases update g.leases ≡ (if g.updating then 1 else 0)
  pub apart : g.updating ≡ true → g.operations ≡ 0

new-Inv : Inv new
unfolding new open_leases
new-Inv = ground arith

abbrev fresh : Kind → List Lease
fresh k = record { kind = k; released = false } ∷ []

pub try_operation-Inv : (g : Gate) → Inv g → Inv (try_operation g).0
unfolding try_operation open_leases
try_operation-Inv g v = ground (
  arith,
  open_leases-append operation g.leases (fresh operation),
  open_leases-append update g.leases (fresh operation),
)

pub try_update-Inv : (g : Gate) → Inv g → Inv (try_update g).0
unfolding try_update open_leases
try_update-Inv g v = ground (
  arith,
  open_leases-append operation g.leases (fresh update),
  open_leases-append update g.leases (fresh update),
)

once-Inv :
    (i : ℕ) (g : Gate) (o : Option Lease) → get_elem? g.leases i ≡ o → Inv g → Inv (once i g o)
unfolding once
once-Inv i g none e v = v
once-Inv i g (some l) e v =
    ground (arith, open_leases-set operation g.leases i l e, open_leases-set update g.leases i l e)

pub release-Inv : (g : Gate) (o : Option ℕ) → Inv g → Inv (release g o)
unfolding release
release-Inv g none v = v
release-Inv g (some i) v = once-Inv i g (get_elem? g.leases i) refl v

pub step-Inv : (g : Gate) (c : Call) → Inv g → Inv (step g c)
unfolding step
step-Inv g tries_operation v = try_operation-Inv g v
step-Inv g tries_update v = try_update-Inv g v
step-Inv g (releases o) v = release-Inv g o v

run_keeps : (g : Gate) (cs : List Call) → Inv g → Inv (run g cs)
unfolding run
run_keeps g [] v = v
run_keeps g (c ∷ cs) v = run_keeps (step g c) cs (step-Inv g c v)

-- After any calls of a new gate, in any order and with any leases released any number of times:
-- `operations` is the number of operation leases not released, `updating` says whether the one
-- update lease is not released, and while it is not, no operation lease is out.
pub run_counts : (cs : List Call) → Inv (run new cs)
run_counts cs = run_keeps new cs new-Inv
