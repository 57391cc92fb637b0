-- ===== src/Ledger/Tests.antt =====
-- The theorems of the account, applied.
use akastr_agent.Base.{String-discrete, ◌≡◌, refl, inl, false}
use akastr_agent.Ledger.{Socket, Conn-discrete}
use akastr_agent.Base.{
  ℕ, ◌+◌, String, ◌≢◌, true, not, ◌&&◌, ◌||◌, ◌==◌, none, some, List, [], ◌∷◌, arith,
}
use akastr_agent.Ledger.{AddrPort, Line, KernelConn}
use akastr_agent.Ledger.Sockets.{candidate, candidate_from, passed_over, by_conn, new_socket}
use akastr_agent.Ledger.Follows.{IsIn}
use akastr_agent.Ledger.Candidate.{Fits, IsOnlyFit, candidate_only}
use akastr_agent.Ledger.Claims.{claim}
use akastr_agent.Ledger.Dumps.{close}
use akastr_agent.Ledger.Changes.{Inv, Step}
use akastr_agent.Ledger.Counted.{counters, claim-counters}
use akastr_agent.Ledger.Present.{present, close_shows}
use akastr_agent.Ledger.History.{Call, polls, claims, closes, run, new, run-Inv}

abbrev node : AddrPort
node = record { ip = "192.0.2.1"; port = 443 }

abbrev client : AddrPort
client = record { ip = "198.51.100.7"; port = 50000 }

abbrev carried : ℕ → KernelConn
carried n = record {
  cookie = 7;
  local = node;
  remote = client;
  bytes_acked = n;
  bytes_received = n;
}

abbrev line_of : String → ℕ → Line
line_of email at = record {
  conn = record { port = 443; remote = client };
  email = email;
  at = at;
  tcp = true;
  udp = true;
}

-- A first dump without connections, and a second one that shows one.
abbrev shown : List Call
shown = polls 100 100 (some []) ∷ polls 102 102 (some (carried 10 ∷ [])) ∷ []

after_zero : (n : ℕ) → 1 + n ≢ 0
after_zero n = ground arith

shown-Inv : Inv (run (new true) shown).sockets
shown-Inv = run-Inv true shown (after_zero 99, (after_zero 101, tt))

-- Two users' lines while the connection is open, and a close notice.
abbrev busy : List Call
busy =
    polls 100 100 (some [])
    ∷ polls 102 102 (some (carried 10 ∷ []))
    ∷ claims 103 (line_of "a" 103 ∷ line_of "b" 103 ∷ [])
    ∷ closes 104 (carried 30)
    ∷ polls 140 140 none
    ∷ []

run-Inv_example : Inv (run (new true) busy).sockets
run-Inv_example =
    run-Inv true busy
      (after_zero 99, (after_zero 101, (tt, (after_zero 103, (after_zero 139, tt)))))

claim-counters_example :
    Step
      (run (new true) shown).sockets
      (claim 103 (line_of "a" 103 ∷ line_of "b" 103 ∷ []) (run (new true) shown)).sockets
    × (counters (claim 103 (line_of "a" 103 ∷ line_of "b" 103 ∷ []) (run (new true) shown)).sockets
        ≡ counters (run (new true) shown).sockets)
claim-counters_example =
    claim-counters 103 (line_of "a" 103 ∷ line_of "b" 103 ∷ []) (run (new true) shown) shown-Inv

close_shows_example :
    Step (run (new true) shown).sockets (close 105 (carried 25) (run (new true) shown)).sockets
    × (present 7 (close 105 (carried 25) (run (new true) shown)).sockets ≡ (
        present 7 (run (new true) shown).sockets
        || (not ((run (new true) shown).dumped == 0) && (7 == 7))))
close_shows_example =
    close_shows 105 (carried 25) (run (new true) shown) 7 (after_zero 104) shown-Inv

abbrev tcp_line : Line
tcp_line = record {
  conn = record { port = 443; remote = client };
  email = "a";
  at = 103;
  tcp = true;
  udp = false;
}

abbrev opened : Socket
opened = new_socket 100 (carried 10)

opened-Fits : Fits tcp_line opened
unfolding new_socket
opened-Fits = record {
  unbound = refl;
  undisputed = refl;
  opened = ground arith;
  still_open = inl refl;
  not_flow = inl refl;
}

finds : candidate tcp_line (opened ∷ []) ≡ some opened
unfolding candidate candidate_from passed_over by_conn new_socket
finds = ground arith

first-IsIn : (s : Socket) (ss : List Socket) → IsIn s (s ∷ ss)
unfolding IsIn
first-IsIn s ss = inl refl

opened_conn : opened.conn ≡ tcp_line.conn
unfolding new_socket
opened_conn = refl

candidate_only_example :
    IsIn opened (opened ∷ [])
    × (opened.conn ≡ tcp_line.conn)
    × Fits tcp_line opened
    × IsOnlyFit tcp_line opened (opened ∷ [])
candidate_only_example = candidate_only tcp_line (opened ∷ []) opened finds
