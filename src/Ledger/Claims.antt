-- ===== src/Ledger/Claims.antt =====
-- claim: the lines of the access log.
use akastr_agent.Base.{
  ℕ, zero, suc, ◌+◌, ◌-◌, ◌*◌, ◌/◌, Bool, true, false, ◌&&◌, ◌||◌, not, Option, none, some, List,
  [], ◌∷◌, ltb, leb, ◌==◌, is, if◌then◌else◌, String-discrete, Assoc, get, put, delete, length,
}
use akastr_agent.Ledger.{
  Conn-discrete, Line, Socket, ClaimKey, ClaimKey-discrete, Claim, Ledger, claim_wait, max_claims,
  closed_before,
}
use akastr_agent.Ledger.Sockets.{modify, by_conn, bind, carrier, candidate, replayed_by}

-- Whether the log's tail is still coming in.
abbrev pub tail_comes_in : ℕ → Ledger → Bool
tail_comes_in now l = leb (now - l.tail) claim_wait

-- replayed
unfoldable pub replayed : Line → ℕ → Ledger → Option Socket
replayed line now l =
    if line.udp || l.started == 0 || ltb l.started line.at || not (tail_comes_in now l)
    then none
    else replayed_by line (by_conn line.conn l.sockets)

-- Whether the loop of dispute leaves a bound connection nobody's; `tail` is its first assignment.
unfoldable pub disputes : ℕ → Bool → Line → Socket → Bool
disputes started tail line s =
    (s.after == 0 && tail && (elim s.line [ none ↦ true | some b ↦ not (ltb started b.at) ]))
    || (line.udp && not (s.after == 0) && ltb s.after line.at)

-- One turn of that loop: the socket, and whether it is disputed by the line.
unfoldable pub dispute_socket : ℕ → Bool → Line → Socket → Socket × Bool
dispute_socket started tail line s =
    if not (is (Conn-discrete s.conn line.conn)) || closed_before line.at s
    then (s, false)
    else if s.disputed
    then (s, line.udp)
    else if is (String-discrete s.email "") || is (String-discrete s.email line.email)
    then (s, false)
    else if disputes started tail line s
    then (record s { email = ""; line = none; requests = 0; disputed = true }, true)
    else (s, false)

unfoldable pub dispute_all : ℕ → Bool → Line → List Socket → List Socket × Bool
dispute_all started tail line [] = ([], false)
dispute_all started tail line (s ∷ ss) =
    let (rest, disputed) = dispute_all started tail line ss in
    let (s', d) = dispute_socket started tail line s in (s' ∷ rest, d || disputed)

-- dispute
unfoldable pub dispute : Line → ℕ → Ledger → List Socket × Bool
dispute line now l =
    dispute_all l.started (not (l.started == 0) && ltb l.started line.at && tail_comes_in now l)
      line l.sockets

-- The rival of a line that may be UDP, from the claim that waits at its address.
abbrev pub rival_of : Line → Option Claim → ℕ
rival_of line none = 0
rival_of line (some w) =
    if line.udp
    then if is (String-discrete w.line.email line.email) then w.rival else w.line.at
    else 0

abbrev pub key_of : Line → ClaimKey
key_of line = record { conn = line.conn; tcp = line.tcp }

abbrev pub rebound : Line → Socket → Socket
rebound line s = record s { email = line.email; line = some line; requests = 1 }

abbrev pub requested : Socket → Socket
requested s = record s { requests = s.requests + 1 }

abbrev pub gathered : Claim → Option Claim → Claim
gathered c none = c
gathered c (some w) =
    if is (String-discrete w.line.email c.line.email)
    then record c { requests = c.requests + w.requests }
    else c

-- The end of a turn: the line waits, unless it disputes a connection.
unfoldable pub wait_or_dispute : Claim → ℕ → Ledger → Ledger
wait_or_dispute c now l =
    let (sockets, disputed) = dispute c.line now l in
    if disputed
    then record l { sockets = sockets }
    else record l { sockets = sockets; claims = put l.claims (key_of c.line) c }

-- The socket that a line takes, with what it does to it: the three tests of the loop in turn.
unfoldable pub taken : Claim → ℕ → Ledger → Option (ℕ × (Socket → Socket))
taken c now l = elim (replayed c.line now l) [
  | some s ↦ some (s.cookie, rebound c.line)
  | none ↦ elim (carrier c.line (by_conn c.line.conn l.sockets)) [
    | some s ↦ some (s.cookie, requested)
    | none ↦ elim (candidate c.line l.sockets) [ some s ↦ some (s.cookie, bind c) | none ↦ none ]
  ]
]

unfoldable pub claim_tcp : Line → ℕ → Ledger → Ledger
claim_tcp line now l =
    let waiting = get l.claims (key_of line) in
    let c : Claim = record {
      line = line;
      arrived = now;
      requests = 1;
      rival = rival_of line waiting;
    } in
    elim (taken c now l) [
      | some (cookie, f) ↦ record l {
        sockets = modify cookie f l.sockets;
        claims = delete l.claims (key_of line);
      }
      | none ↦ wait_or_dispute (gathered c waiting) now l
    ]

-- One turn of the loop over the batch.
unfoldable pub claim_line : ℕ → Line → Ledger → Ledger
claim_line now line l = if line.tcp then claim_tcp line now l else record l {
  claims =
      put l.claims (key_of line) (record { line = line; arrived = now; requests = 1; rival = 0 });
}

unfoldable pub claim_lines : ℕ → List Line → Ledger → Ledger
claim_lines now [] l = l
claim_lines now (line ∷ rest) l = claim_lines now rest (claim_line now line l)

-- The keys by their claims' arrival; the sort of the source is not stable, and this is one order
-- that it may give.
unfoldable pub insert_key : ClaimKey × Claim → List (ClaimKey × Claim) → List (ClaimKey × Claim)
insert_key e [] = e ∷ []
insert_key e (o ∷ os) =
    let rest = insert_key e os in if leb e.1.arrived o.1.arrived then e ∷ o ∷ os else o ∷ rest

unfoldable pub by_arrival : List (ClaimKey × Claim) → List (ClaimKey × Claim)
by_arrival [] = []
by_arrival (e ∷ es) = insert_key e (by_arrival es)

-- Deletes the first n keys.
unfoldable pub delete_first :
    ℕ → List (ClaimKey × Claim) → Assoc ClaimKey Claim → Assoc ClaimKey Claim
delete_first zero es m = m
delete_first (suc n) [] m = m
delete_first (suc n) (e ∷ es) m = delete_first n es (delete m e.0)

-- dropOldClaims
unfoldable pub drop_old_claims : Assoc ClaimKey Claim → Assoc ClaimKey Claim
drop_old_claims m = delete_first (length m - max_claims * 9 / 10) (by_arrival m) m

-- claim
unfoldable pub claim : ℕ → List Line → Ledger → Ledger
claim now batch l =
    let begun = if l.tail == 0 && not (l.started == 0) then record l { tail = now } else l in
    let done = claim_lines now batch begun in
    if ltb max_claims (length done.claims)
    then record done { claims = drop_old_claims done.claims }
    else done
