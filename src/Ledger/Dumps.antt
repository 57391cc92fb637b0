-- ===== src/Ledger/Dumps.antt =====
-- take and close: what the kernel tells, and what is forgotten in time; and what the ledger answers.
use akastr_agent.Base.{
  ℕ, suc, ◌+◌, ◌-◌, String, Bool, true, false, ◌&&◌, ◌||◌, not, Option, none, some, List, [], ◌∷◌,
  ◌++◌, ltb, leb, ◌==◌, is, if◌then◌else◌, String-discrete, Assoc, get, delete,
}
use akastr_agent.Ledger.{
  KernelConn, Socket, ClaimKey, ClaimKey-discrete, Claim, Ended, Ledger, Flow, tcp, udp,
  missing_dumps, keep_closed, claim_wait, udp_keep,
}
use akastr_agent.Ledger.Sockets.{find_socket, modify, new_socket, update, bind, candidate}

-- Every open socket is missing until the dump shows it.
abbrev pub miss : Socket → Socket
miss s = if s.closed_at == 0 then record s { missing = s.missing + 1 } else s

unfoldable pub map_sockets : (Socket → Socket) → List Socket → List Socket
map_sockets f [] = []
map_sockets f (s ∷ ss) = f s ∷ map_sockets f ss

-- A socket that a dump shows, unless its close was noticed.
unfoldable pub show : KernelConn → Socket → Socket
show c s = if s.noticed then s else update c (record s { missing = 0; closed_at = 0 })

-- The loop over the dump: the sockets, and the cookies of those added.
unfoldable pub take_conns : ℕ → List KernelConn → List Socket → List Socket × List ℕ
take_conns dumped [] ss = (ss, [])
take_conns dumped (c ∷ cs) ss = elim (find_socket c.cookie ss) [
  | none ↦
      (let (ss', added) = take_conns dumped cs (ss ++ new_socket dumped c ∷ []) in
        (ss', c.cookie ∷ added))
  | some s ↦ take_conns dumped cs (modify c.cookie (show c) ss)
]

-- bindSocket, on the socket with a cookie.
abbrev pub is_candidate : ℕ → Option Socket → Bool
is_candidate cookie none = false
is_candidate cookie (some s) = s.cookie == cookie

unfoldable pub bind_at : Socket → Option Claim → Ledger → Ledger
bind_at s none l = l
bind_at s (some c) l =
    if is_candidate s.cookie (candidate (record c.line { conn = s.conn }) l.sockets)
    then record l {
      sockets = modify s.cookie (bind c) l.sockets;
      claims = delete l.claims (record { conn = s.conn; tcp = true });
    }
    else l

unfoldable pub bind_socket : ℕ → Ledger → Ledger
bind_socket cookie l = elim (find_socket cookie l.sockets) [
  | none ↦ l
  | some s ↦ bind_at s (get l.claims (record { conn = s.conn; tcp = true })) l
]

unfoldable pub bind_sockets : List ℕ → Ledger → Ledger
bind_sockets [] l = l
bind_sockets (c ∷ cs) l = bind_sockets cs (bind_socket c l)

-- A connection that is missing from two dumps has closed.
abbrev pub close_missing : ℕ → Socket → Socket
close_missing now s =
    if s.closed_at == 0 && leb missing_dumps s.missing then record s { closed_at = now } else s

-- What remove tells of a socket, if anything.
unfoldable pub ended_of : Bool → Socket → List Ended
ended_of tells s =
    if not (is (String-discrete s.email "")) && not (s.after == 0) && tells
    then record {
      line = s.line;
      at = s.closed_at;
      up = s.received;
      down = s.acked;
      requests = s.requests;
    }
      ∷ []
    else []

abbrev pub is_over : ℕ → Socket → Bool
is_over now s = not (s.closed_at == 0) && ltb keep_closed (now - s.closed_at)

-- expire, the sockets and what they tell.
unfoldable pub expire_sockets : Bool → ℕ → List Socket → List Socket × List Ended
expire_sockets tells now [] = ([], [])
expire_sockets tells now (s ∷ ss) =
    let (kept, told) = expire_sockets tells now ss in
    if is_over now s then (kept, ended_of tells s ++ told) else (s ∷ kept, told)

abbrev pub is_stale : ℕ → Claim → Bool
is_stale now c =
    if c.line.udp then ltb udp_keep (now - c.line.at) else ltb claim_wait (now - c.arrived)

unfoldable pub expire_claims : ℕ → Assoc ClaimKey Claim → Assoc ClaimKey Claim
expire_claims now [] = []
expire_claims now ((at, c) ∷ m) =
    let rest = expire_claims now m in if is_stale now c then rest else (at, c) ∷ rest

-- expire
unfoldable pub expire : ℕ → Ledger → Ledger
expire now l =
    let (sockets, told) = expire_sockets l.tells now l.sockets in
    record l {
      sockets = sockets;
      claims = expire_claims now l.claims;
      finished = l.finished ++ told;
    }

-- take without its end, on a dump that did not fail.
unfoldable pub refresh : ℕ → ℕ → List KernelConn → Ledger → Ledger
refresh start now conns l =
    let (shown, added) = take_conns l.dumped conns (map_sockets miss l.sockets) in
    let bound = bind_sockets added (record l { dump_failed = false; sockets = shown }) in
    record bound {
      sockets = map_sockets (close_missing now) bound.sockets;
      started = if l.dumped == 0 then start else l.started;
      dumped = start;
    }

-- take: no conns is an error of the dump.
unfoldable pub take : ℕ → ℕ → Option (List KernelConn) → Ledger → Ledger
take start now none l = expire now (record l { dump_failed = true })
take start now (some conns) l = expire now (refresh start now conns l)

-- poll: what it tells of, and the ledger afterwards.
unfoldable pub poll : ℕ → ℕ → Option (List KernelConn) → Ledger → Ledger × List Ended
poll start now conns l =
    let l' = take start now conns l in (record l' { finished = [] }, l'.finished)

abbrev pub notice : ℕ → KernelConn → Socket → Socket
notice now c s =
    let u = update c s in
    record u { closed_at = if u.closed_at == 0 then now else u.closed_at; noticed = true }

-- close
unfoldable pub close : ℕ → KernelConn → Ledger → Ledger
close now c l = if l.dumped == 0 then l else elim (find_socket c.cookie l.sockets) [
  | none ↦ bind_socket c.cookie (record l {
    sockets = l.sockets ++ record (new_socket l.dumped c) { closed_at = now; noticed = true } ∷ [];
  })
  | some s ↦ record l { sockets = modify c.cookie (notice now c) l.sockets }
]

-- Flows of one user, as a named one; the source puts them under the users' names.
unfoldable pub tcp_flows : String → List Socket → List Flow
tcp_flows email [] = []
tcp_flows email (s ∷ ss) =
    let rest = tcp_flows email ss in
    if is (String-discrete s.email email) && s.closed_at == 0
    then record {
      proto = tcp;
      local_ip = some s.local.ip;
      local_port = s.local.port;
      remote = s.conn.remote;
    }
      ∷ rest
    else rest

unfoldable pub udp_flows : String → ℕ → ℕ → Assoc ClaimKey Claim → List Flow
udp_flows email now dumped [] = []
udp_flows email now dumped ((at, c) ∷ m) =
    let rest = udp_flows email now dumped m in
    if c.line.udp
      && is (String-discrete c.line.email email)
      && leb (now - c.line.at) udp_keep
      && (not c.line.tcp || ltb c.arrived dumped)
    then record { proto = udp; local_ip = none; local_port = at.conn.port; remote = at.conn.remote }
      ∷ rest
    else rest

unfoldable pub flows : String → ℕ → Ledger → List Flow
flows email now l = tcp_flows email l.sockets ++ udp_flows email now l.dumped l.claims

-- Connections: how many open bound connections a user has.
unfoldable pub connections : String → List Socket → ℕ
connections email [] = 0
connections email (s ∷ ss) =
    let rest = connections email ss in
    if not (is (String-discrete s.email ""))
      && s.closed_at == 0
      && is (String-discrete s.email email)
    then suc rest
    else rest
