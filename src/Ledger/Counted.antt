-- ===== src/Ledger/Counted.antt =====
-- That the lines of the access log leave the counters of the connections alone.
use akastr_agent.Base.{
  ℕ, ◌≡◌, refl, ◌∙◌, subst, Bool, ◌&&◌, not, ltb, ◌==◌, Option, none, some, List, [], ◌∷◌, get,
  String-discrete, arith,
}
use akastr_agent.Ledger.{Conn-discrete, ClaimKey-discrete, Line, Socket, Claim, Ledger}
use akastr_agent.Ledger.Sockets.{modify, by_conn, bind, carrier, candidate}
use akastr_agent.Ledger.Claims.{
  dispute_socket, dispute_all, dispute, tail_comes_in, replayed, rival_of, key_of, rebound,
  requested, gathered, wait_or_dispute, taken, claim_tcp, claim_line, claim_lines, claim,
}
use akastr_agent.Ledger.Changes.{Inv, Step}
use akastr_agent.Ledger.Account.{claim-Step}

-- The acknowledged and received bytes of each connection, in order
unfoldable pub counters : List Socket → List (ℕ × ℕ)
counters [] = []
counters (s ∷ ss) = (s.acked, s.received) ∷ counters ss

-- A change that leaves the counters of any connection alone.
Quiet : (Socket → Socket) → Type 0
Quiet f = (s : Socket) → ((f s).acked ≡ s.acked) × ((f s).received ≡ s.received)

counters-modify :
    (c : ℕ) (f : Socket → Socket) (ss : List Socket)
    → Quiet f
    → counters (modify c f ss) ≡ counters ss
unfolding modify counters Quiet
counters-modify c f [] h = refl
counters-modify c f (s ∷ ss) h = ground (arith, counters-modify c f ss h, h s)

bind-Quiet : (c : Claim) → Quiet (bind c)
unfolding bind Quiet
bind-Quiet c s = ground arith

dispute_socket-Quiet :
    (started : ℕ) (tail : Bool) (line : Line) → Quiet (λ s. (dispute_socket started tail line s).0)
unfolding dispute_socket Quiet
dispute_socket-Quiet started tail line s = ground arith

counters-dispute_all :
    (started : ℕ) (tail : Bool) (line : Line) (ss : List Socket)
    → counters (dispute_all started tail line ss).0 ≡ counters ss
unfolding dispute_all counters Quiet
counters-dispute_all started tail line [] = refl
counters-dispute_all started tail line (s ∷ ss) =
    ground
      (arith, counters-dispute_all started tail line ss, dispute_socket-Quiet started tail line s)

counters-wait :
    (c : Claim) (now : ℕ) (l : Ledger)
    → counters (wait_or_dispute c now l).sockets ≡ counters l.sockets
unfolding wait_or_dispute dispute
counters-wait c now l = ground (
  arith,
  counters-dispute_all l.started
      (not (l.started == 0) && ltb l.started c.line.at && tail_comes_in now l) c.line l.sockets,
)

TakesQuietly : Option (ℕ × (Socket → Socket)) → Type 0
TakesQuietly none = Unit
TakesQuietly (some (k, f)) = Quiet f

taken-TakesQuietly : (c : Claim) (now : ℕ) (l : Ledger) → TakesQuietly (taken c now l)
unfolding taken TakesQuietly Quiet
taken-TakesQuietly c now l =
    go (replayed c.line now l) (carrier c.line (by_conn c.line.conn l.sockets))
      (candidate c.line l.sockets)
  where
    go :
        (a b d : Option Socket)
        → TakesQuietly (elim a as (λ _. Option (ℕ × (Socket → Socket))) [
          | some s ↦ some (s.cookie, rebound c.line)
          | none ↦ elim b [
            | some s ↦ some (s.cookie, requested)
            | none ↦ elim d [ some s ↦ some (s.cookie, bind c) | none ↦ none ]
          ]
        ])
    go (some s) b d = λ t. (refl, refl)
    go none (some s) d = λ t. (refl, refl)
    go none none (some s) = bind-Quiet c
    go none none none = tt

counters-claim_tcp :
    (line : Line) (now : ℕ) (l : Ledger)
    → counters (claim_tcp line now l).sockets ≡ counters l.sockets
unfolding claim_tcp Quiet TakesQuietly
counters-claim_tcp line now l = go (taken c now l) refl
  where
    c : Claim
    c = record {
      line = line;
      arrived = now;
      requests = 1;
      rival = rival_of line (get l.claims (key_of line));
    }

    go :
        (o : Option (ℕ × (Socket → Socket)))
        → taken c now l ≡ o
        → counters (claim_tcp line now l).sockets ≡ counters l.sockets
    go none q = rw (q, claim_tcp) (counters-wait (gathered c (get l.claims (key_of line))) now l)
    go (some (k, f)) q =
        rw (q, claim_tcp)
          (counters-modify k f l.sockets (subst TakesQuietly q (taken-TakesQuietly c now l)))

counters-claim_line :
    (now : ℕ) (line : Line) (l : Ledger)
    → counters (claim_line now line l).sockets ≡ counters l.sockets
unfolding claim_line
counters-claim_line now line l = ground (arith, counters-claim_tcp line now l)

counters-claim_lines :
    (now : ℕ) (lines : List Line) (l : Ledger)
    → counters (claim_lines now lines l).sockets ≡ counters l.sockets
unfolding claim_lines
counters-claim_lines now [] l = refl
counters-claim_lines now (x ∷ xs) l =
    counters-claim_lines now xs (claim_line now x l) ∙ counters-claim_line now x l

-- A batch of lines keeps every connection of the account, in its order, each with its identity, and
-- changes none of their counters; one opened since the start keeps its user or is disputed, and one
-- that is disputed stays so, without a user. No connection is added.
pub claim-counters :
    (now : ℕ) (batch : List Line) (l : Ledger)
    → Inv l.sockets
    → Step l.sockets (claim now batch l).sockets
      × (counters (claim now batch l).sockets ≡ counters l.sockets)
unfolding claim
claim-counters now batch l v = (
  claim-Step now batch l v,
  ground (
    arith,
    counters-claim_lines now batch l,
    counters-claim_lines now batch (record l { tail = now }),
  ),
)
