-- ===== src/Transport/Tests.antt =====
-- The theorem of the client's leases, applied.
use akastr_agent.Base.{true, false, [], ◌∷◌}
use akastr_agent.Transport.Leases.{Inv, idle, run, run-leases, offers, acks, ends, session_ends}

run-leases_example : Inv (
    run idle (
      offers true "a"
      ∷ offers true "b"
      ∷ acks true "a"
      ∷ acks false "b"
      ∷ offers true "c"
      ∷ ends false "a"
      ∷ session_ends
      ∷ []))
run-leases_example = run-leases (
    offers true "a"
    ∷ offers true "b"
    ∷ acks true "a"
    ∷ acks false "b"
    ∷ offers true "c"
    ∷ ends false "a"
    ∷ session_ends
    ∷ [])
