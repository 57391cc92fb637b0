-- ===== src/Ledger/History.antt =====
-- The account over the calls of the log and of the kernel, in any order.
use akastr_agent.Base.{
  ℕ, ◌≢◌, ◌≡◌, refl, subst, Bool, true, false, Option, none, some, List, [], ◌∷◌, ◌++◌, ◌==◌, All,
  arith,
}
use akastr_agent.Ledger.{Line, KernelConn, Socket, Ledger}
use akastr_agent.Ledger.Sockets.{find_socket, new_socket, modify}
use akastr_agent.Ledger.Claims.{claim}
use akastr_agent.Ledger.Dumps.{
  miss, map_sockets, take_conns, bind_socket, bind_sockets, close_missing, expire_sockets, expire,
  refresh, take, poll, notice, close,
}
use akastr_agent.Ledger.Follows.{IsSound, IsIn-All, DistinctCookies, find_socket_finds}
use akastr_agent.Ledger.Changes.{Inv, Step, Step-refl, Step-trans, modify_one-Step}
use akastr_agent.Ledger.Account.{claim-Step}
use akastr_agent.Ledger.Seen.{
  map_sockets-Step, miss-Follows, miss-IsSound, close_missing-Follows, close_missing-IsSound,
  notice-Follows, notice-IsSound,
}
use akastr_agent.Ledger.Kernel.{append-Step, take_conns-Step, bind_socket-Step, bind_sockets-Step}

-- A dump that is taken in keeps every connection of the account, in its order, each with its
-- identity, its user or nobody, and counters that have not fallen; those it shows first are added.
pub refresh-Step :
    (start now : ℕ) (conns : List KernelConn) (l : Ledger)
    → now ≢ 0
    → Inv l.sockets
    → Step l.sockets (refresh start now conns l).sockets
unfolding refresh
refresh-Step start now conns l n v =
    Step-trans l.sockets missed done a
      (Step-trans missed shown done b (Step-trans shown bound done c d))
  where
    missed : List Socket
    missed = map_sockets miss l.sockets

    a : Step l.sockets missed
    a = map_sockets-Step miss l.sockets miss-Follows miss-IsSound v

    shown : List Socket
    shown = (take_conns l.dumped conns missed).0

    b : Step missed shown
    b = take_conns-Step l.dumped conns missed a.inv

    bound : List Socket
    bound =
        (bind_sockets (take_conns l.dumped conns missed).1
          (record l { dump_failed = false; sockets = shown })).sockets

    c : Step shown bound
    c =
        bind_sockets-Step (take_conns l.dumped conns missed).1
          (record l { dump_failed = false; sockets = shown }) b.inv

    done : List Socket
    done = map_sockets (close_missing now) bound

    d : Step bound done
    d =
        map_sockets-Step (close_missing now) bound (close_missing-Follows now)
          (λ s. close_missing-IsSound now s n) c.inv

close_known :
    (now : ℕ) (c : KernelConn) (l : Ledger) (s : Socket)
    → now ≢ 0
    → Inv l.sockets
    → find_socket c.cookie l.sockets ≡ some s
    → Step l.sockets (modify c.cookie (notice now c) l.sockets)
close_known now c l s n v q =
    let (i, e) = find_socket_finds c.cookie l.sockets s q in
    subst (λ k. Step l.sockets (modify k (notice now c) l.sockets)) e
      (modify_one-Step (notice now c) l.sockets s (λ t. (notice-Follows now c t).same_cookie) v i
        (notice-Follows now c s)
        (notice-IsSound now c s n (IsIn-All IsSound l.sockets s v.sound i)))

close_new :
    (now : ℕ) (c : KernelConn) (l : Ledger)
    → now ≢ 0
    → Inv l.sockets
    → find_socket c.cookie l.sockets ≡ none
    → Step l.sockets
        (bind_socket c.cookie (record l {
          sockets =
              l.sockets ++ record (new_socket l.dumped c) { closed_at = now; noticed = true } ∷ [];
        })).sockets
unfolding new_socket
close_new now c l n v q =
    let s : Socket = record (new_socket l.dumped c) { closed_at = now; noticed = true } in
    let h =
      append-Step l.sockets s q (record { disputed_nobody = λ _. refl; noticed_closed = λ _. n })
        v in
    Step-trans l.sockets (l.sockets ++ s ∷ [])
      (bind_socket c.cookie (record l { sockets = l.sockets ++ s ∷ [] })).sockets h
      (bind_socket-Step c.cookie (record l { sockets = l.sockets ++ s ∷ [] }) h.inv)

-- A close notice keeps every connection of the account, in its order, each with its identity, its user
-- or nobody, and counters that have not fallen; it may add the one that it is about.
pub close-Step :
    (now : ℕ) (c : KernelConn) (l : Ledger)
    → now ≢ 0
    → Inv l.sockets
    → Step l.sockets (close now c l).sockets
unfolding close
close-Step now c l n v = go (l.dumped == 0) refl (find_socket c.cookie l.sockets) refl
  where
    go :
        (b : Bool)
        → (l.dumped == 0) ≡ b
        → (o : Option Socket) → find_socket c.cookie l.sockets ≡ o
        → Step l.sockets (close now c l).sockets
    go true p o q = rw (p, close) (Step-refl l.sockets v)
    go false p none q = rw (p, q, close) (close_new now c l n v q)
    go false p (some s) q = rw (p, q, close) (close_known now c l s n v q)

-- What expire leaves is a sublist.
expire_sockets-All :
    (P : Socket → Type 0) (tells : Bool) (now : ℕ) (ss : List Socket)
    → All P ss
    → All P (expire_sockets tells now ss).0
unfolding expire_sockets
expire_sockets-All P tells now [] h = tt
expire_sockets-All P tells now (s ∷ ss) h =
    ground (arith, expire_sockets-All P tells now ss h.1, h.0)

expire_sockets-DistinctCookies :
    (tells : Bool) (now : ℕ) (ss : List Socket)
    → DistinctCookies ss
    → DistinctCookies (expire_sockets tells now ss).0
unfolding expire_sockets DistinctCookies
expire_sockets-DistinctCookies tells now [] d = tt
expire_sockets-DistinctCookies tells now (s ∷ ss) d = ground (
  arith,
  expire_sockets-DistinctCookies tells now ss d.1,
  expire_sockets-All (λ t. t.cookie ≢ s.cookie) tells now ss d.0,
)

expire-Inv : (now : ℕ) (l : Ledger) → Inv l.sockets → Inv (expire now l).sockets
unfolding expire
expire-Inv now l v = record {
  distinct = expire_sockets-DistinctCookies l.tells now l.sockets v.distinct;
  sound = expire_sockets-All IsSound l.tells now l.sockets v.sound;
}

pub data Call : Type 0 where
  claims : ℕ → List Line → Call
  closes : ℕ → KernelConn → Call
  polls : ℕ → ℕ → Option (List KernelConn) → Call

-- The time of a call is not the zero time.
abbrev pub IsTimed : Call → Type 0
IsTimed (claims now batch) = Unit
IsTimed (closes now c) = now ≢ 0
IsTimed (polls start now conns) = now ≢ 0

unfoldable pub step : Ledger → Call → Ledger
step l (claims now batch) = claim now batch l
step l (closes now c) = close now c l
step l (polls start now conns) = (poll start now conns l).0

unfoldable pub run : Ledger → List Call → Ledger
run l [] = l
run l (c ∷ cs) = run (step l c) cs

take-Inv :
    (start now : ℕ) (conns : Option (List KernelConn)) (l : Ledger)
    → now ≢ 0
    → Inv l.sockets
    → Inv (take start now conns l).sockets
unfolding take
take-Inv start now none l n v = expire-Inv now (record l { dump_failed = true }) v
take-Inv start now (some conns) l n v =
    expire-Inv now (refresh start now conns l) (refresh-Step start now conns l n v).inv

step-Inv : (l : Ledger) (c : Call) → IsTimed c → Inv l.sockets → Inv (step l c).sockets
unfolding step poll
step-Inv l (claims now batch) n v = (claim-Step now batch l v).inv
step-Inv l (closes now c) n v = (close-Step now c l n v).inv
step-Inv l (polls start now conns) n v = take-Inv start now conns l n v

run_keeps : (l : Ledger) (cs : List Call) → All IsTimed cs → Inv l.sockets → Inv (run l cs).sockets
unfolding run
run_keeps l [] n v = v
run_keeps l (c ∷ cs) n v = run_keeps (step l c) cs n.1 (step-Inv l c n.0 v)

abbrev pub new : Bool → Ledger
new tells = record {
  tells = tells;
  dumped = 0;
  started = 0;
  tail = 0;
  dump_failed = false;
  sockets = [];
  claims = [];
  finished = [];
}

-- After any lines, close notices and dumps, in any order and with any dumps failing, a new ledger
-- holds at most one connection for each cookie, a disputed connection has no user, and one whose
-- close was noticed has a time of its close.
pub run-Inv : (tells : Bool) (cs : List Call) → All IsTimed cs → Inv (run (new tells) cs).sockets
unfolding run DistinctCookies
run-Inv tells cs n = run_keeps (new tells) cs n (record { distinct = tt; sound = tt })
