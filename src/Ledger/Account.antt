-- ===== src/Ledger/Account.antt =====
-- The lines of the access log keep the account sound, and each connection follows what it was.
use akastr_agent.Base.{
  ℕ, ◌≡◌, ◌≢◌, inl, refl, subst, false, Option, none, some, List, [], ◌∷◌, String-discrete, arith,
  get,
}
use akastr_agent.Ledger.{Conn-discrete, ClaimKey-discrete, Line, Socket, Claim, Ledger}
use akastr_agent.Ledger.Sockets.{modify, by_conn, bind, carrier, passed_over, candidate}
use akastr_agent.Ledger.Claims.{
  replayed, rival_of, key_of, rebound, requested, gathered, taken, claim_tcp, claim_line,
  claim_lines, claim,
}
use akastr_agent.Ledger.Follows.{
  Follows, IsSound, IsIn, IsIn-All, by_conn-IsIn, replayed_by_finds, carrier_finds,
  candidate_from_finds,
}
use akastr_agent.Ledger.Changes.{
  Step-refl, Step-trans, modify_one-Step, rebound-Follows, bind_cookie, bind-Follows, bind-IsSound,
  wait_or_dispute-Step, Inv, Step,
}

-- What a line takes, it may take.
abbrev MayTake : List Socket → Option (ℕ × (Socket → Socket)) → Type 0
MayTake ss none = Unit
MayTake ss (some (k, f)) = Step ss (modify k f ss)

requested-Follows : (s : Socket) → Follows s (requested s)
requested-Follows s = record {
  same_cookie = refl;
  same_conn = refl;
  same_after = refl;
  acked_grows = omega arith;
  received_grows = omega arith;
  stays_noticed = λ p. p;
  stays_disputed = λ p. p;
  keeps_user = λ _ _. inl refl;
}

replayed_finds :
    (line : Line) (now : ℕ) (l : Ledger) (s : Socket)
    → replayed line now l ≡ some s
    → IsIn s l.sockets × (s.after ≡ 0) × (s.email ≢ "")
unfolding replayed
replayed_finds line now l s e = ground (
  arith,
  replayed_by_finds line (by_conn line.conn l.sockets) s,
  by_conn-IsIn line.conn l.sockets s,
)

pub candidate_finds :
    (line : Line) (ss : List Socket) (s : Socket)
    → candidate line ss ≡ some s
    → IsIn s ss × (passed_over line s ≡ false)
unfolding candidate
candidate_finds line ss s e =
    ground (
      arith,
      candidate_from_finds line none (by_conn line.conn ss) s e,
      by_conn-IsIn line.conn ss s,
    )

rebound-IsSound : (line : Line) (s : Socket) → s.email ≢ "" → IsSound s → IsSound (rebound line s)
rebound-IsSound line s n v = record {
  disputed_nobody = λ p. absurd (n (v.disputed_nobody p));
  noticed_closed = v.noticed_closed;
}

module _ (c : Claim) (now : ℕ) (l : Ledger) (v : Inv l.sockets) where
  replayed-Step :
      (s : Socket)
      → replayed c.line now l ≡ some s
      → Step l.sockets (modify s.cookie (rebound c.line) l.sockets)
  replayed-Step s q =
      let (h, old, bound) = replayed_finds c.line now l s q in
      modify_one-Step (rebound c.line) l.sockets s (λ _. refl) v h (rebound-Follows c.line s old)
        (rebound-IsSound c.line s bound (IsIn-All IsSound l.sockets s v.sound h))

  carrier-Step :
      (s : Socket)
      → carrier c.line (by_conn c.line.conn l.sockets) ≡ some s
      → Step l.sockets (modify s.cookie requested l.sockets)
  carrier-Step s q =
      let h =
        by_conn-IsIn c.line.conn l.sockets s
          (carrier_finds c.line (by_conn c.line.conn l.sockets) s q) in
      let w = IsIn-All IsSound l.sockets s v.sound h in
      modify_one-Step requested l.sockets s (λ _. refl) v h (requested-Follows s)
        (record { disputed_nobody = w.disputed_nobody; noticed_closed = w.noticed_closed })

  candidate-Step :
      (s : Socket)
      → candidate c.line l.sockets ≡ some s
      → Step l.sockets (modify s.cookie (bind c) l.sockets)
  candidate-Step s q =
      let (h, free) = candidate_finds c.line l.sockets s q in
      modify_one-Step (bind c) l.sockets s (bind_cookie c) v h (bind-Follows c s free)
        (bind-IsSound c s free (IsIn-All IsSound l.sockets s v.sound h))

  taken-MayTake : MayTake l.sockets (taken c now l)
  unfolding taken
  taken-MayTake =
      go (replayed c.line now l) refl (carrier c.line (by_conn c.line.conn l.sockets)) refl
        (candidate c.line l.sockets) refl
    where
      go :
          (a : Option Socket)
          → replayed c.line now l ≡ a
          → (b : Option Socket) → carrier c.line (by_conn c.line.conn l.sockets) ≡ b
          → (d : Option Socket) → candidate c.line l.sockets ≡ d
          → MayTake l.sockets (taken c now l)
      go (some s) p b q d r = rw (p, taken) (replayed-Step s p)
      go none p (some s) q d r = rw (p, q, taken) (carrier-Step s q)
      go none p none q (some s) r = rw (p, q, r, taken) (candidate-Step s r)
      go none p none q none r = rw (p, q, r, taken) tt

claim_tcp-Step :
    (line : Line) (now : ℕ) (l : Ledger)
    → Inv l.sockets
    → Step l.sockets (claim_tcp line now l).sockets
unfolding claim_tcp
claim_tcp-Step line now l v = go (taken c now l) refl
  where
    c : Claim
    c = record {
      line = line;
      arrived = now;
      requests = 1;
      rival = rival_of line (get l.claims (key_of line));
    }

    go :
        (o : Option (ℕ × (Socket → Socket)))
        → taken c now l ≡ o
        → Step l.sockets (claim_tcp line now l).sockets
    go none q =
        rw (q, claim_tcp) (wait_or_dispute-Step (gathered c (get l.claims (key_of line))) now l v)
    go (some (k, f)) q = rw (q, claim_tcp) (subst (MayTake l.sockets) q (taken-MayTake c now l v))

claim_line-Step :
    (now : ℕ) (line : Line) (l : Ledger)
    → Inv l.sockets
    → Step l.sockets (claim_line now line l).sockets
unfolding claim_line
claim_line-Step now line l v = ground (arith, claim_tcp-Step line now l v, Step-refl l.sockets v)

claim_lines-Step :
    (now : ℕ) (lines : List Line) (l : Ledger)
    → Inv l.sockets
    → Step l.sockets (claim_lines now lines l).sockets
unfolding claim_lines
claim_lines-Step now [] l v = Step-refl l.sockets v
claim_lines-Step now (x ∷ xs) l v =
    let h = claim_line-Step now x l v in
    Step-trans l.sockets (claim_line now x l).sockets
      (claim_lines now xs (claim_line now x l)).sockets h
      (claim_lines-Step now xs (claim_line now x l) h.inv)

-- A batch of lines keeps every connection of the account, in its order, each with its identity and
-- its counters; one opened since the start keeps its user or is disputed, and one that is disputed
-- stays so, without a user.
pub claim-Step :
    (now : ℕ) (batch : List Line) (l : Ledger)
    → Inv l.sockets
    → Step l.sockets (claim now batch l).sockets
unfolding claim
claim-Step now batch l v =
    ground (
      arith,
      claim_lines-Step now batch l v,
      claim_lines-Step now batch (record l { tail = now }) v,
    )
