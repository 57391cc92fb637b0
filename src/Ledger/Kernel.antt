-- ===== src/Ledger/Kernel.antt =====
-- The dumps and the close notices keep the account sound, and each connection follows what it was
-- until it is forgotten.
use akastr_agent.Base.{
  ℕ, ◌≡◌, ◌≢◌, refl, sym, subst, true, Option, none, some, List, [], ◌∷◌, ◌++◌, All, All-append,
  String-discrete, arith, get,
}
use akastr_agent.Ledger.{Conn, ClaimKey-discrete, KernelConn, Socket, Claim, Ledger}
use akastr_agent.Ledger.Sockets.{find_socket, modify, new_socket, bind, passed_over, candidate}
use akastr_agent.Ledger.Dumps.{show, take_conns, is_candidate, bind_at, bind_socket, bind_sockets}
use akastr_agent.Ledger.Follows.{
  IsSound, Follows-refl, Pairwise, DistinctCookies, IsIn-All, find_socket_finds,
}
use akastr_agent.Ledger.Changes.{
  Inv, Step, Step-refl, Step-trans, modify_one-Step, bind_cookie, bind-Follows, bind-IsSound,
}
use akastr_agent.Ledger.Account.{candidate_finds}
use akastr_agent.Ledger.Seen.{show-Follows, show-IsSound}

find_socket_absent :
    (c : ℕ) (ss : List Socket) → find_socket c ss ≡ none → All (λ t. t.cookie ≢ c) ss
unfolding find_socket
find_socket_absent c [] e = tt
find_socket_absent c (s ∷ ss) e = ground (arith, find_socket_absent c ss)

-- A connection that the kernel shows for the first time.
pub append-Step :
    (ss : List Socket) (s : Socket)
    → find_socket s.cookie ss ≡ none
    → IsSound s
    → Inv ss
    → Step ss (ss ++ s ∷ [])
unfolding Pairwise DistinctCookies
append-Step ss s e w v = record {
  follows = follows ss;
  inv = record {
    distinct = distinct ss v.distinct (find_socket_absent s.cookie ss e);
    sound = All-append IsSound ss (s ∷ []) v.sound (w, tt);
  };
}
  where
    follows : (xs : List Socket) → Pairwise xs (xs ++ s ∷ [])
    follows [] = tt
    follows (x ∷ xs) = (Follows-refl x, follows xs)

    distinct :
        (xs : List Socket)
        → DistinctCookies xs
        → All (λ t. t.cookie ≢ s.cookie) xs
        → DistinctCookies (xs ++ s ∷ [])
    distinct [] d a = (tt, tt)
    distinct (x ∷ xs) d a = (
      All-append (λ t. t.cookie ≢ x.cookie) xs (s ∷ []) d.0 (λ q. a.0 (sym q), tt),
      distinct xs d.1 a.1,
    )

show_cookie : (c : KernelConn) (s : Socket) → (show c s).cookie ≡ s.cookie
show_cookie c s = (show-Follows c s).same_cookie

new_socket-IsSound : (dumped : ℕ) (c : KernelConn) → IsSound (new_socket dumped c)
unfolding new_socket
new_socket-IsSound dumped c = record { disputed_nobody = λ _. refl; noticed_closed = ground arith }

pub take_conns-Step :
    (dumped : ℕ) (cs : List KernelConn) (ss : List Socket)
    → Inv ss
    → Step ss (take_conns dumped cs ss).0
unfolding take_conns new_socket
take_conns-Step dumped [] ss v = Step-refl ss v
take_conns-Step dumped (c ∷ cs) ss v = go (find_socket c.cookie ss) refl (take_conns-Step dumped cs)
  where
    go :
        (o : Option Socket)
        → find_socket c.cookie ss ≡ o
        → ((xs : List Socket) → Inv xs → Step xs (take_conns dumped cs xs).0)
        → Step ss (take_conns dumped (c ∷ cs) ss).0
    go none q ih =
        let h = append-Step ss (new_socket dumped c) q (new_socket-IsSound dumped c) v in
        rw (q, take_conns)
          (Step-trans ss (ss ++ new_socket dumped c ∷ [])
            (take_conns dumped cs (ss ++ new_socket dumped c ∷ [])).0 h
            (ih (ss ++ new_socket dumped c ∷ []) h.inv))
    go (some s) q ih =
        let (i, e) = find_socket_finds c.cookie ss s q in
        let h : Step ss (modify c.cookie (show c) ss) =
          subst (λ k. Step ss (modify k (show c) ss)) e
            (modify_one-Step (show c) ss s (show_cookie c) v i (show-Follows c s)
              (show-IsSound c s (IsIn-All IsSound ss s v.sound i))) in
        rw (q, take_conns)
          (Step-trans ss (modify c.cookie (show c) ss)
            (take_conns dumped cs (modify c.cookie (show c) ss)).0 h
            (ih (modify c.cookie (show c) ss) h.inv))

bind-candidate :
    (c : Claim) (conn : Conn) (ss : List Socket) (t : Socket)
    → Inv ss
    → candidate (record c.line { conn = conn }) ss ≡ some t
    → Step ss (modify t.cookie (bind c) ss)
unfolding passed_over
bind-candidate c conn ss t v q =
    let (h, free) = candidate_finds (record c.line { conn = conn }) ss t q in
    modify_one-Step (bind c) ss t (bind_cookie c) v h (bind-Follows c t free)
      (bind-IsSound c t free (IsIn-All IsSound ss t v.sound h))

bind_found :
    (c : Claim) (s : Socket) (ss : List Socket) (o : Option Socket)
    → Inv ss
    → candidate (record c.line { conn = s.conn }) ss ≡ o
    → is_candidate s.cookie o ≡ true
    → Step ss (modify s.cookie (bind c) ss)
bind_found c s ss none v q e = ground arith
bind_found c s ss (some t) v q e =
    subst (λ k. Step ss (modify k (bind c) ss)) (ground arith) (bind-candidate c s.conn ss t v q)

bind_at-Step :
    (s : Socket) (o : Option Claim) (l : Ledger)
    → Inv l.sockets
    → Step l.sockets (bind_at s o l).sockets
unfolding bind_at
bind_at-Step s none l v = Step-refl l.sockets v
bind_at-Step s (some c) l v = ground (
  arith,
  Step-refl l.sockets v,
  bind_found c s l.sockets (candidate (record c.line { conn = s.conn }) l.sockets) v refl,
)

pub bind_socket-Step :
    (cookie : ℕ) (l : Ledger) → Inv l.sockets → Step l.sockets (bind_socket cookie l).sockets
unfolding bind_socket
bind_socket-Step cookie l v = go (find_socket cookie l.sockets)
  where
    go :
        (o : Option Socket)
        → Step l.sockets
            (elim o as (λ _. Ledger) [
              | none ↦ l
              | some s ↦ bind_at s (get l.claims (record { conn = s.conn; tcp = true })) l
            ]).sockets
    go none = Step-refl l.sockets v
    go (some s) = bind_at-Step s (get l.claims (record { conn = s.conn; tcp = true })) l v

pub bind_sockets-Step :
    (cs : List ℕ) (l : Ledger) → Inv l.sockets → Step l.sockets (bind_sockets cs l).sockets
unfolding bind_sockets
bind_sockets-Step [] l v = Step-refl l.sockets v
bind_sockets-Step (c ∷ cs) l v =
    let h = bind_socket-Step c l v in
    Step-trans l.sockets (bind_socket c l).sockets (bind_sockets cs (bind_socket c l)).sockets h
      (bind_sockets-Step cs (bind_socket c l) h.inv)
