-- ===== src/Ledger/Present.antt =====
-- Which connections a dump and a close notice add.
use akastr_agent.Base.{
  ℕ, ◌≡◌, ◌≢◌, refl, Bool, true, false, ◌&&◌, ◌||◌, not, Option, none, some, List, [], ◌∷◌, ◌++◌,
  ◌==◌, is_some, get, arith,
}
use akastr_agent.Ledger.{KernelConn, Socket, Claim, ClaimKey-discrete, Ledger}
use akastr_agent.Ledger.Sockets.{find_socket, modify, new_socket, bind}
use akastr_agent.Ledger.Dumps.{bind_at, bind_socket, notice, close}
use akastr_agent.Ledger.Changes.{Inv, Step, bind_cookie}
use akastr_agent.Ledger.Seen.{notice-Follows}
use akastr_agent.Ledger.History.{close-Step}

-- Whether the account has a connection of a cookie, and whether a dump shows it.
abbrev pub present : ℕ → List Socket → Bool
present k ss = is_some (find_socket k ss)

unfoldable pub is_shown : ℕ → List KernelConn → Bool
is_shown k [] = false
is_shown k (c ∷ cs) = (c.cookie == k) || is_shown k cs

present-modify :
    (k c : ℕ) (f : Socket → Socket) (ss : List Socket)
    → ((t : Socket) → (f t).cookie ≡ t.cookie)
    → present k (modify c f ss) ≡ present k ss
unfolding find_socket modify
present-modify k c f [] h = refl
present-modify k c f (s ∷ ss) h = ground (arith, present-modify k c f ss h, h s)

present-append :
    (k : ℕ) (ss : List Socket) (s : Socket)
    → present k (ss ++ s ∷ []) ≡ (present k ss || (s.cookie == k))
unfolding find_socket
present-append k [] s = ground arith
present-append k (t ∷ ts) s = ground (arith, present-append k ts s)

present-bind_socket :
    (k c : ℕ) (l : Ledger) → present k (bind_socket c l).sockets ≡ present k l.sockets
unfolding bind_socket bind_at
present-bind_socket k c l = go (find_socket c l.sockets)
  where
    bound :
        (s : Socket) (o : Option Claim) → present k (bind_at s o l).sockets ≡ present k l.sockets
    bound s none = refl
    bound s (some x) = ground (arith, present-modify k s.cookie (bind x) l.sockets (bind_cookie x))

    go :
        (o : Option Socket)
        → present k
            (elim o as (λ _. Ledger) [
              | none ↦ l
              | some s ↦ bind_at s (get l.claims (record { conn = s.conn; tcp = true })) l
            ]).sockets
          ≡ present k l.sockets
    go none = refl
    go (some s) = bound s (get l.claims (record { conn = s.conn; tcp = true }))

find_known :
    (k c : ℕ) (ss : List Socket) → present c ss ≡ true → (c == k) ≡ true → present k ss ≡ true
find_known k c ss h e = ground (arith, h, e)

-- A close notice keeps every connection of the account, in its order, each with its identity and
-- with counters that have not fallen; one opened since the start keeps its user or is disputed.
-- After the first dump the account then has the connection of the notice, and no other new one.
pub close_shows :
    (now : ℕ) (c : KernelConn) (l : Ledger) (k : ℕ)
    → now ≢ 0
    → Inv l.sockets
    → let r = (close now c l).sockets in
      Step l.sockets r
      × (present k r ≡ (present k l.sockets || (not (l.dumped == 0) && (c.cookie == k))))
unfolding close new_socket
close_shows now c l k n v =
    (close-Step now c l n v, go (l.dumped == 0) refl (find_socket c.cookie l.sockets) refl)
  where
    go :
        (b : Bool)
        → (l.dumped == 0) ≡ b
        → (o : Option Socket) → find_socket c.cookie l.sockets ≡ o
        → present k (close now c l).sockets
          ≡ (present k l.sockets || (not (l.dumped == 0) && (c.cookie == k)))
    go true p o q = rw (p, close) (ground (arith))
    go false p none q =
        let s : Socket = record (new_socket l.dumped c) { closed_at = now; noticed = true } in
        rw (p, q, close)
          (ground (
            arith,
            present-bind_socket k c.cookie (record l { sockets = l.sockets ++ s ∷ [] }),
            present-append k l.sockets s,
          ))
    go false p (some s) q =
        rw (p, q, close)
          (ground (
            arith,
            q,
            present-modify k c.cookie (notice now c) l.sockets
                (λ t. (notice-Follows now c t).same_cookie),
            find_known k c.cookie l.sockets,
          ))
