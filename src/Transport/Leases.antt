-- ===== src/Transport/Leases.antt =====
-- A lease of the gate is out exactly for each pending or running command.
use akastr_agent.Base.{
  ℕ, ◌+◌, ◌-◌, String, ◌≡◌, ◌≢◌, refl, sym, subst, Bool, true, false, ◌||◌, Option, none, some,
  List, [], ◌∷◌, Assoc, String-discrete, get, put, delete, All, All_map, All_both, All-delete,
  delete_absent, All-get, Distinct, Distinct-delete, delete_of_absent, delete_of_ne, length,
  get_elem?, set, arith,
}
use akastr_agent.Lifecycle.{Gate, operation, try_operation, once, release}
use akastr_agent.Transport.{
  Client, accept_offer, handle_accepted_ack, end_execution, release_all, release_pending,
}
use akastr_agent.Transport.Held.{
  taken, Held, NotIn, Unique, get-append_last, Held-NotIn, Held-append, Held-set, Unique-delete,
  NotIn-delete, length-delete,
}

pub record Inv (c : Client) : Type 0 where
  pub pending_keys : Distinct c.pending
  pub running_keys : Distinct c.running
  pub pending_held : Held c.gate.leases c.pending
  pub running_held : Held c.gate.leases c.running
  pub pending_unique : Unique c.pending
  pub running_unique : Unique c.running
  pub apart : All (λ e. NotIn e.1 c.running) c.pending
  pub counted : c.gate.operations ≡ length c.pending + length c.running

-- Releasing a lease that is out.
release-taken :
    (g : Gate) (i : ℕ)
    → get_elem? g.leases i ≡ some taken
    → release g (some i) ≡ record g {
      operations = g.operations - 1;
      leases = set g.leases i (record { kind = operation; released = true });
    }
unfolding release once
release-taken g i e = ground (arith, e)

head_found : (k : String) (i : ℕ) (m : Assoc String ℕ) → get ((k, i) ∷ m) k ≡ some i
unfolding get
head_found k i m = ground arith

head_gone :
    (k : String) (i : ℕ) (m : Assoc String ℕ) → All (λ o. o.0 ≢ k) m → delete ((k, i) ∷ m) k ≡ m
unfolding delete
head_gone k i m h = ground (arith, delete_of_ne m k h)

-- The commands that keep a lease when one is released.
module _ (c : Client) (v : Inv c) where
  -- A pending command is dropped.
  drop_pending-Inv :
      (id : String) (i : ℕ)
      → get c.pending id ≡ some i
      → Inv (record c { pending = delete c.pending id; gate = release c.gate (some i) })
  drop_pending-Inv id i e =
      rw (release-taken c.gate i (All-get _ c.pending id i v.pending_held e)) (record {
        pending_keys = Distinct-delete c.pending id v.pending_keys;
        running_keys = v.running_keys;
        pending_held =
            Held-set c.gate.leases i _ (delete c.pending id)
              (NotIn-delete c.pending id i v.pending_unique e)
              (All-delete _ c.pending id v.pending_held);
        running_held =
            Held-set c.gate.leases i _ c.running (All-get _ c.pending id i v.apart e)
              v.running_held;
        pending_unique = Unique-delete c.pending id v.pending_unique;
        running_unique = v.running_unique;
        apart = All-delete _ c.pending id v.apart;
        counted = omega (arith, v.counted, length-delete c.pending id i v.pending_keys e);
      })

  -- A pending command runs.
  run_pending-Inv :
      (id : String) (i : ℕ)
      → get c.pending id ≡ some i
      → get c.running id ≡ none
      → Inv (record c { pending = delete c.pending id; running = put c.running id i })
  unfolding put
  run_pending-Inv id i e n = rw (delete_of_absent c.running id n) (record {
    pending_keys = Distinct-delete c.pending id v.pending_keys;
    running_keys =
        subst (λ m. Distinct ((id, i) ∷ m)) (delete_of_absent c.running id n)
          (delete_absent c.running id, Distinct-delete c.running id v.running_keys);
    pending_held = All-delete _ c.pending id v.pending_held;
    running_held = (All-get _ c.pending id i v.pending_held e, v.running_held);
    pending_unique = Unique-delete c.pending id v.pending_unique;
    running_unique = (All-get _ c.pending id i v.apart e, v.running_unique);
    apart =
        All_both _ _ _ (delete c.pending id) (λ o a b. ((λ q. b (sym q)), a))
          (All-delete _ c.pending id v.apart) (NotIn-delete c.pending id i v.pending_unique e);
    counted = omega (arith, v.counted, length-delete c.pending id i v.pending_keys e);
  })

  -- A running command ends.
  end_running-Inv :
      (id : String) (i : ℕ) (failed : Bool)
      → get c.running id ≡ some i
      → Inv (record c {
        running = delete c.running id;
        failed = failed;
        gate = release c.gate (some i);
      })
  end_running-Inv id i failed e =
      rw (release-taken c.gate i (All-get _ c.running id i v.running_held e)) (record {
        pending_keys = v.pending_keys;
        running_keys = Distinct-delete c.running id v.running_keys;
        pending_held =
            Held-set c.gate.leases i _ c.pending (not_pending c.pending v.apart) v.pending_held;
        running_held =
            Held-set c.gate.leases i _ (delete c.running id)
              (NotIn-delete c.running id i v.running_unique e)
              (All-delete _ c.running id v.running_held);
        pending_unique = v.pending_unique;
        running_unique = Unique-delete c.running id v.running_unique;
        apart = All_map _ _ c.pending (λ o h. All-delete _ c.running id h) v.apart;
        counted = omega (arith, v.counted, length-delete c.running id i v.running_keys e);
      })
    where
      not_pending : (m : Assoc String ℕ) → All (λ o. NotIn o.1 c.running) m → NotIn i m
      not_pending [] a = tt
      not_pending (o ∷ m) a =
          (λ q. All-get (λ x. x.1 ≢ o.1) c.running id i a.0 e (sym q), not_pending m a.1)

  -- An offer takes a lease.
  add_pending-Inv :
      (id : String)
      → get c.pending id ≡ none
      → c.gate.updating ≡ false
      → Inv (record c {
        gate = (try_operation c.gate).0;
        pending = put c.pending id (length c.gate.leases);
      })
  unfolding put try_operation
  add_pending-Inv id n u =
      rw (u, delete_of_absent c.pending id n)
        (record {
          pending_keys =
              subst (λ m. Distinct ((id, length c.gate.leases) ∷ m))
                (delete_of_absent c.pending id n)
                (delete_absent c.pending id, Distinct-delete c.pending id v.pending_keys);
          running_keys = v.running_keys;
          pending_held = (
            get-append_last c.gate.leases taken,
            Held-append c.gate.leases taken c.pending v.pending_held,
          );
          running_held = Held-append c.gate.leases taken c.running v.running_held;
          pending_unique = (Held-NotIn c.gate.leases c.pending v.pending_held, v.pending_unique);
          running_unique = v.running_unique;
          apart = (Held-NotIn c.gate.leases c.running v.running_held, v.apart);
          counted = omega (arith, v.counted);
        })

accept_offer-Inv :
    (accepting : Bool) (id : String) (c : Client) → Inv c → Inv (accept_offer accepting id c).0
unfolding accept_offer try_operation
accept_offer-Inv accepting id c v = ground (arith, add_pending-Inv c v id)

handle_accepted_ack-Inv :
    (accepted : Bool) (id : String) (c : Client) → Inv c → Inv (handle_accepted_ack accepted id c).0
unfolding handle_accepted_ack
handle_accepted_ack-Inv accepted id c v = go (get c.pending id) refl (get c.running id) refl
  where
    go :
        (o : Option ℕ)
        → get c.pending id ≡ o
        → (r : Option ℕ) → get c.running id ≡ r
        → Inv (handle_accepted_ack accepted id c).0
    go none p r q = rw (p, handle_accepted_ack, delete_of_absent c.pending id p) v
    go (some i) p r q =
        rw (p, handle_accepted_ack)
          (ground (arith, drop_pending-Inv c v id i p, run_pending-Inv c v id i p, q))

end_execution-Inv :
    (is_error : Bool) (id : String) (c : Client) → Inv c → Inv (end_execution is_error id c)
unfolding end_execution release
end_execution-Inv is_error id c v = go (get c.running id) refl
  where
    go : (o : Option ℕ) → get c.running id ≡ o → Inv (end_execution is_error id c)
    go none p =
        rw (p, end_execution, release, delete_of_absent c.running id p)
          (record {
            pending_keys = v.pending_keys;
            running_keys = v.running_keys;
            pending_held = v.pending_held;
            running_held = v.running_held;
            pending_unique = v.pending_unique;
            running_unique = v.running_unique;
            apart = v.apart;
            counted = v.counted;
          })
    go (some i) p = rw (p, end_execution) (end_running-Inv c v id i (c.failed || is_error) p)

-- Releasing the leases of a map of pending commands.
release_all-Inv :
    (m : Assoc String ℕ) (c : Client)
    → Inv (record c { pending = m })
    → Inv (record c { pending = []; gate = release_all m c.gate })
unfolding release_all
release_all-Inv [] c v = v
release_all-Inv ((k, i) ∷ m) c v =
    release_all-Inv m (record c { gate = release c.gate (some i) })
      (subst (λ n. Inv (record c { pending = n; gate = release c.gate (some i) }))
        (head_gone k i m v.pending_keys.0)
        (drop_pending-Inv (record c { pending = (k, i) ∷ m }) v k i (head_found k i m)))

release_pending-Inv : (c : Client) → Inv c → Inv (release_pending c)
unfolding release_pending
release_pending-Inv c v = release_all-Inv c.pending c v

pub data Call : Type 0 where
  offers acks ends : Bool → String → Call
  session_ends : Call

unfoldable pub step : Client → Call → Client
step c (offers accepting id) = (accept_offer accepting id c).0
step c (acks accepted id) = (handle_accepted_ack accepted id c).0
step c (ends is_error id) = end_execution is_error id c
step c session_ends = release_pending c

unfoldable pub run : Client → List Call → Client
run c [] = c
run c (x ∷ xs) = run (step c x) xs

step-Inv : (c : Client) (x : Call) → Inv c → Inv (step c x)
unfolding step
step-Inv c (offers accepting id) v = accept_offer-Inv accepting id c v
step-Inv c (acks accepted id) v = handle_accepted_ack-Inv accepted id c v
step-Inv c (ends is_error id) v = end_execution-Inv is_error id c v
step-Inv c session_ends v = release_pending-Inv c v

run_keeps : (c : Client) (xs : List Call) → Inv c → Inv (run c xs)
unfolding run
run_keeps c [] v = v
run_keeps c (x ∷ xs) v = run_keeps (step c x) xs (step-Inv c x v)

abbrev pub idle : Client
idle = record {
  running = [];
  pending = [];
  failed = false;
  gate = record { updating = false; operations = 0; leases = [] };
}

-- After any offers, acknowledgements, ends of executions and ends of sessions, in any order: each
-- pending or running command has a lease of the gate of its own that is out, and the gate counts as
-- many operations as there are such commands.
pub run-leases : (xs : List Call) → Inv (run idle xs)
run-leases xs = run_keeps idle xs (record {
  pending_keys = tt;
  running_keys = tt;
  pending_held = tt;
  running_held = tt;
  pending_unique = tt;
  running_unique = tt;
  apart = tt;
  counted = refl;
})
