-- ===== src/Ledger/Candidate.antt =====
-- The one connection that a line can belong to.
use akastr_agent.Base.{
  ◌≤◌, ◌≡◌, ◌≢◌, ◌⊎◌, inl, inr, true, false, none, some, List, [], ◌∷◌, All, String-discrete,
  Bool-cases, arith,
}
use akastr_agent.Ledger.{Conn-discrete, Line, Socket}
use akastr_agent.Ledger.Sockets.{by_conn, passed_over, candidate_from, candidate}
use akastr_agent.Ledger.Follows.{IsIn, candidate_from_finds}
use akastr_agent.Ledger.Account.{candidate_finds}

-- What candidate passes over, in words: a connection that has a user or is disputed, that opened after
-- the line was written or had closed before, or that was open at the start when the line may be UDP.
pub record Fits (line : Line) (s : Socket) : Type 0 where
  pub unbound : s.email ≡ ""
  pub undisputed : s.disputed ≡ false
  pub opened : s.after ≤ line.at
  pub still_open : (s.closed_at ≡ 0) ⊎ (line.at ≤ s.closed_at)
  pub not_flow : (line.udp ≡ false) ⊎ (1 ≤ s.after)

passed_over-Fits : (line : Line) (s : Socket) → passed_over line s ≡ false → Fits line s
unfolding passed_over
passed_over-Fits line s h = record {
  unbound = ground arith;
  undisputed = ground arith;
  opened = ground arith;
  still_open = ground arith;
  not_flow = ground arith;
}

Fits-passed_over : (line : Line) (s : Socket) → Fits line s → passed_over line s ≡ false
unfolding passed_over
Fits-passed_over line s f =
    ground (arith, f.unbound, f.undisputed, f.opened, f.still_open, f.not_flow)

-- Once one is found, a second one is the end.
found_only :
    (line : Line) (x : Socket) (ss : List Socket) (s : Socket)
    → candidate_from line (some x) ss ≡ some s
    → (x ≡ s) × All (λ t. passed_over line t ≡ true) ss
unfolding candidate_from
found_only line x [] s e = (ground arith, tt)
found_only line x (t ∷ ts) s e = ground (arith, found_only line x ts s)

AllOnly : Line → Socket → List Socket → Type 0
AllOnly line s ss = All (λ t. (passed_over line t ≡ true) ⊎ (t ≡ s)) ss

passed-AllOnly :
    (line : Line) (s : Socket) (ss : List Socket)
    → All (λ t. passed_over line t ≡ true) ss
    → AllOnly line s ss
unfolding AllOnly
passed-AllOnly line s [] h = tt
passed-AllOnly line s (t ∷ ts) h = (inl h.0, passed-AllOnly line s ts h.1)

none_only :
    (line : Line) (ss : List Socket) (s : Socket)
    → candidate_from line none ss ≡ some s
    → AllOnly line s ss
unfolding candidate_from AllOnly
none_only line [] s e = tt
none_only line (t ∷ ts) s e = elim (Bool-cases (passed_over line t)) [
  | inl p ↦ (inl p, none_only line ts s (ground (arith, p, e)))
  | inr p ↦
      (let h = found_only line t ts s (ground (arith, p, e)) in
        (inr h.0, passed-AllOnly line s ts h.1))
]

by_conn_head :
    (line : Line) (x : Socket) (xs : List Socket) (s : Socket)
    → AllOnly line s (by_conn line.conn (x ∷ xs))
    → x.conn ≡ line.conn
    → (passed_over line x ≡ true) ⊎ (x ≡ s)
unfolding by_conn AllOnly
by_conn_head line x xs s a e = ground (arith, a, e)

by_conn_tail :
    (line : Line) (x : Socket) (xs : List Socket) (s : Socket)
    → AllOnly line s (by_conn line.conn (x ∷ xs))
    → AllOnly line s (by_conn line.conn xs)
unfolding by_conn AllOnly
by_conn_tail line x xs s a = ground (arith, a)

by_conn_conn :
    (line : Line) (ss : List Socket) (s : Socket)
    → IsIn s (by_conn line.conn ss)
    → s.conn ≡ line.conn
unfolding by_conn IsIn
by_conn_conn line [] s h = absurd h
by_conn_conn line (t ∷ ts) s h = ground (arith, by_conn_conn line ts s, h)

candidate_conn :
    (line : Line) (ss : List Socket) (s : Socket) → candidate line ss ≡ some s → s.conn ≡ line.conn
unfolding candidate
candidate_conn line ss s e = elim (candidate_from_finds line none (by_conn line.conn ss) s e) [
  | inl q ↦ cc
  | inr (h, _) ↦ by_conn_conn line ss s h
]

-- No other connection of the account is one that the line names and that fits it.
abbrev pub IsOnlyFit : Line → Socket → List Socket → Type 0
IsOnlyFit line s ss = All (λ t. (t.conn ≢ line.conn) ⊎ ((¬ Fits line t) ⊎ (t ≡ s))) ss

only_fit :
    (line : Line) (s : Socket) (ss : List Socket)
    → AllOnly line s (by_conn line.conn ss)
    → IsOnlyFit line s ss
unfolding by_conn AllOnly
only_fit line s [] a = tt
only_fit line s (t ∷ ts) a = (
  elim (Conn-discrete t.conn line.conn) [
    | no differs ↦ inl differs
    | yes names ↦ inr (elim (by_conn_head line t ts s a names) [
      | inr q ↦ inr q
      | inl p ↦ inl (λ f. ground (arith, p, Fits-passed_over line t f))
    ])
  ],
  only_fit line s ts (by_conn_tail line t ts s a),
)

-- When candidate gives a line a connection, that one is of the account, is named by the line and
-- fits it, and no other connection of the account is named by the line and fits it.
pub candidate_only :
    (line : Line) (ss : List Socket) (s : Socket)
    → candidate line ss ≡ some s
    → IsIn s ss × (s.conn ≡ line.conn) × Fits line s × IsOnlyFit line s ss
unfolding candidate
candidate_only line ss s e =
    let (h, free) = candidate_finds line ss s e in
    (
      h,
      candidate_conn line ss s e,
      passed_over-Fits line s free,
      only_fit line s ss (none_only line (by_conn line.conn ss) s e),
    )
