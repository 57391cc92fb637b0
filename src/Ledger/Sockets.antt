-- ===== src/Ledger/Sockets.antt =====
-- The connections of the account, one by one.
use akastr_agent.Base.{
  ℕ, Bool, true, false, ◌&&◌, ◌||◌, not, Option, none, some, List, [], ◌∷◌, ltb, ◌==◌, is,
  if◌then◌else◌, String-discrete,
}
use akastr_agent.Ledger.{Conn, Conn-discrete, Line, KernelConn, Socket, Claim, closed_before}

-- l.sockets[cookie]
unfoldable pub find_socket : ℕ → List Socket → Option Socket
find_socket c [] = none
find_socket c (s ∷ ss) = let rest = find_socket c ss in if s.cookie == c then some s else rest

-- An assignment to fields of the socket with a cookie.
unfoldable pub modify : ℕ → (Socket → Socket) → List Socket → List Socket
modify c f [] = []
modify c f (s ∷ ss) = let rest = modify c f ss in if s.cookie == c then f s ∷ rest else s ∷ rest

-- l.byConn[conn]
unfoldable pub by_conn : Conn → List Socket → List Socket
by_conn c [] = []
by_conn c (s ∷ ss) =
    let rest = by_conn c ss in if is (Conn-discrete s.conn c) then s ∷ rest else rest

-- The socket that add makes; `dumped` is when the last dump started.
unfoldable pub new_socket : ℕ → KernelConn → Socket
new_socket dumped c = record {
  cookie = c.cookie;
  conn = record { port = c.local.port; remote = c.remote };
  local = c.local;
  email = "";
  line = none;
  requests = 0;
  acked = c.bytes_acked;
  received = c.bytes_received;
  after = dumped;
  closed_at = 0;
  noticed = false;
  missing = 0;
  disputed = false;
}

-- update
unfoldable pub update : KernelConn → Socket → Socket
update c s =
    if ltb c.bytes_acked s.acked || ltb c.bytes_received s.received
    then s
    else record s { acked = c.bytes_acked; received = c.bytes_received }

-- bind
unfoldable pub bind : Claim → Socket → Socket
bind c s =
    if ltb s.after c.rival
    then record s { disputed = true }
    else record s { email = c.line.email; line = some c.line; requests = c.requests }

unfoldable pub carries : Line → Socket → Bool
carries l s =
    is (String-discrete s.email l.email) && (s.closed_at == 0 || not (ltb s.closed_at l.at))

-- The loop of carrier over the sockets of the connection.
unfoldable pub carrier : Line → List Socket → Option Socket
carrier l [] = none
carrier l (s ∷ ss) = let rest = carrier l ss in if carries l s then some s else rest

-- What candidate passes over.
unfoldable pub passed_over : Line → Socket → Bool
passed_over l s =
    not (is (String-discrete s.email ""))
    || s.disputed
    || ltb l.at s.after
    || (l.udp && s.after == 0)
    || closed_before l.at s

-- The loop of candidate, with what it has found.
unfoldable pub candidate_from : Line → Option Socket → List Socket → Option Socket
candidate_from l found [] = found
candidate_from l found (s ∷ ss) =
    let skipped = candidate_from l found ss in
    let taken = candidate_from l (some s) ss in
    if passed_over l s then skipped else elim found [ some _ ↦ none | none ↦ taken ]

-- candidate
unfoldable pub candidate : Line → List Socket → Option Socket
candidate l ss = candidate_from l none (by_conn l.conn ss)

-- The loop of replayed, which takes a bound connection open at the start over to a newer line.
unfoldable pub replayed_by : Line → List Socket → Option Socket
replayed_by l [] = none
replayed_by l (s ∷ ss) =
    let rest = replayed_by l ss in
    if s.after == 0
      && not (is (String-discrete s.email ""))
      && (elim s.line [ none ↦ not (l.at == 0) | some b ↦ ltb b.at l.at ])
    then some s
    else rest
