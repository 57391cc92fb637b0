-- ===== src/IpWatch/Reopen.antt =====
-- The reconciliation file: what a process leaves there, the next one opens.
use akastr_agent.Base.{
  ℕ, ◌≤◌, String, ◌≡◌, inl, inr, refl, Bool, false, none, List, [], ◌∷◌, All, ok, String-discrete,
  arith,
}
use akastr_agent.State.{File, missing, load}
use akastr_agent.IpWatch.Open.{
  check_attempt, validate_monitor_state, fresh, open_loaded, open_monitor,
}
use akastr_agent.IpWatch.{Persisted, Monitor}
use akastr_agent.IpWatch.Loop.{Watch, Call, step, run}
use akastr_agent.IpWatch.Observed.{Inv, none-Inv}
use akastr_agent.IpWatch.Invariant.{step-Inv, run-Inv}
use akastr_agent.IpWatch.Valid.{IsValid, IsMonitorFile, IsSound, IsGoodCall, step-IsSound, open-Inv}

-- The monitor of a first start, at work.
abbrev pub first_watch : ℕ → Bool → Watch
first_watch interval observe_ipv6 = record {
  monitor =
      fresh (record { stored = missing }) interval observe_ipv6
        (record { schema_version = 1; change_attempt = none });
  observing = false;
  observing_ipv6 = false;
}

module _ (is_ipv4 is_time : String → Bool) where
  run-IsSound :
      (w : Watch) (cs : List Call)
      → Inv w.observing w.monitor
      → All (IsGoodCall is_ipv4 is_time) cs
      → (IsSound is_ipv4 is_time) w.monitor
      → (IsSound is_ipv4 is_time) (run is_ipv4 w cs).monitor
  unfolding run
  run-IsSound w [] i g v = v
  run-IsSound w (c ∷ cs) i g v =
      run-IsSound (step is_ipv4 w c).0 cs (step-Inv is_ipv4 w c i) g.1
        (step-IsSound is_ipv4 is_time w c i g.0 v)

  IsValid-none : (IsValid is_ipv4 is_time) (record { schema_version = 1; change_attempt = none })
  unfolding validate_monitor_state check_attempt
  IsValid-none = ground arith

  opens_file :
      (file : File Persisted) (interval : ℕ) (observe_ipv6 : Bool)
      → (IsMonitorFile is_ipv4 is_time) file.stored
      → 10 ≤ interval
      → interval ≤ 300
      → (m : Monitor) × (open_monitor is_ipv4 is_time false file interval observe_ipv6 ≡ ok m)
        × (m.file ≡ file)
        × (IsValid is_ipv4 is_time) m.persisted
  unfolding open_monitor open_loaded load
  opens_file file interval observe_ipv6 (inl gone) low high = (
    fresh file interval observe_ipv6 (record { schema_version = 1; change_attempt = none }),
    ground arith,
    refl,
    IsValid-none,
  )
  opens_file file interval observe_ipv6 (inr (p, held, w)) low high =
      (fresh file interval observe_ipv6 p, ground (arith, w), refl, w)

  -- From a first start, whatever is called in whatever order, with whatever saves failing, if the
  -- observations are of IPv4 addresses at times, with identifiers for their reports: the next start
  -- opens the file that is left, with a valid state.
  pub run_opens :
      (interval : ℕ) (observe_ipv6 : Bool) (cs : List Call)
      → 10 ≤ interval
      → interval ≤ 300
      → All (IsGoodCall is_ipv4 is_time) cs
      → (m : Monitor) × (open_monitor is_ipv4 is_time false
            (run is_ipv4 (first_watch interval observe_ipv6) cs).monitor.file
            interval
            observe_ipv6
          ≡ ok m)
        × (IsValid is_ipv4 is_time) m.persisted
  run_opens interval observe_ipv6 cs low high g =
      let w = first_watch interval observe_ipv6 in
      let v =
        run-IsSound w cs (none-Inv false w.monitor refl) g
          (record { memory = IsValid-none; disk = inl refl }) in
      let (m, e, _, valid) =
        opens_file (run is_ipv4 w cs).monitor.file interval observe_ipv6 v.disk low high in
      (m, e, valid)

  -- A monitor that opens, from whatever file an earlier process left, keeps these whatever is called
  -- in whatever order, with whatever saves failing: an open ChangeIP holds back every other report of
  -- the IPv4 address, has no outcome while the address is observed, and has an outcome that says
  -- rightly whether its address is another than the one before.
  pub open_run-Inv :
      (unopened : Bool) (file : File Persisted) (interval : ℕ) (observe_ipv6 : Bool) (m : Monitor)
      (cs : List Call)
      → open_monitor is_ipv4 is_time unopened file interval observe_ipv6 ≡ ok m
      → (let w : Watch = record { monitor = m; observing = false; observing_ipv6 = false } in
          Inv (run is_ipv4 w cs).observing (run is_ipv4 w cs).monitor)
  open_run-Inv unopened file interval observe_ipv6 m cs e =
      run-Inv is_ipv4 (record { monitor = m; observing = false; observing_ipv6 = false }) cs
        (open-Inv is_ipv4 is_time unopened file interval observe_ipv6 m e)
