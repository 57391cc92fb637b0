-- ===== src/Lifecycle/Tests.antt =====
-- The theorems of this part at concrete inputs.
use akastr_agent.Base.{◌≡◌, ◌↔◌, none, some, List, [], ◌∷◌, length}
use akastr_agent.Lifecycle.{
  Call, tries_operation, tries_update, releases, operation, update, new, try_operation, try_update,
  release, run,
}
use akastr_agent.Lifecycle.Leases.{Inv, open_leases, run_counts}
use akastr_agent.Lifecycle.Exclusion.{run_grants, release-release}

-- An operation, an update that is refused, the release of the operation twice, an update.
abbrev calls : List Call
calls = tries_operation ∷ tries_update ∷ releases (some 0) ∷ releases (some 0) ∷ tries_update ∷ []

run_counts_example : Inv (run new calls)
run_counts_example = run_counts calls

run_grants_example :
    (((try_operation (run new calls)).1 ≡ none) ↔ (open_leases update (run new calls).leases ≡ 1))
    × (((try_update (run new calls)).1 ≡ some (length (run new calls).leases)) ↔ (
        (open_leases operation (run new calls).leases ≡ 0)
        × (open_leases update (run new calls).leases ≡ 0)))
run_grants_example = run_grants calls

release-release_example :
    release (release (run new calls) (some 1)) (some 1) ≡ release (run new calls) (some 1)
release-release_example = release-release (run new calls) (some 1)
