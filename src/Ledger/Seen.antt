-- ===== src/Ledger/Seen.antt =====
-- What a dump and a close notice make of a single connection.
use akastr_agent.Base.{ℕ, ◌≢◌, sym, subst, ◌∙◌, List, [], ◌∷◌, All, String-discrete, arith}
use akastr_agent.Ledger.{ClaimKey-discrete, KernelConn, Socket}
use akastr_agent.Ledger.Sockets.{update}
use akastr_agent.Ledger.Dumps.{miss, map_sockets, show, close_missing, notice}
use akastr_agent.Ledger.Follows.{Follows, IsSound, Pairwise, DistinctCookies}
use akastr_agent.Ledger.Changes.{Inv, Step}

-- An assignment to all sockets.
pub map_sockets-Step :
    (f : Socket → Socket) (ss : List Socket)
    → ((s : Socket) → Follows s (f s))
    → ((s : Socket) → IsSound s → IsSound (f s))
    → Inv ss
    → Step ss (map_sockets f ss)
unfolding map_sockets Pairwise DistinctCookies
map_sockets-Step f ss h k v = record {
  follows = follows ss;
  inv = record { distinct = distinct ss v.distinct; sound = sound ss v.sound };
}
  where
    follows : (ss : List Socket) → Pairwise ss (map_sockets f ss)
    follows [] = tt
    follows (s ∷ ss) = (h s, follows ss)

    absent :
        (k : ℕ) (ss : List Socket)
        → All (λ t. t.cookie ≢ k) ss
        → All (λ t. t.cookie ≢ k) (map_sockets f ss)
    absent k [] a = tt
    absent k (s ∷ ss) a = (λ e. a.0 (sym (h s).same_cookie ∙ e), absent k ss a.1)

    distinct : (ss : List Socket) → DistinctCookies ss → DistinctCookies (map_sockets f ss)
    distinct [] d = tt
    distinct (s ∷ ss) d = (
      subst (λ k. All (λ t. t.cookie ≢ k) (map_sockets f ss)) (sym (h s).same_cookie)
          (absent s.cookie ss d.0),
      distinct ss d.1,
    )

    sound : (ss : List Socket) → All IsSound ss → All IsSound (map_sockets f ss)
    sound [] a = tt
    sound (s ∷ ss) a = (k s a.0, sound ss a.1)

pub miss-Follows : (s : Socket) → Follows s (miss s)
miss-Follows s = record {
  same_cookie = ground arith;
  same_conn = ground arith;
  same_after = ground arith;
  acked_grows = ground arith;
  received_grows = ground arith;
  stays_noticed = ground arith;
  stays_disputed = ground arith;
  keeps_user = ground arith;
}

pub miss-IsSound : (s : Socket) → IsSound s → IsSound (miss s)
miss-IsSound s v = record {
  disputed_nobody = ground (arith, v.disputed_nobody);
  noticed_closed = ground (arith, v.noticed_closed);
}

pub close_missing-Follows : (now : ℕ) (s : Socket) → Follows s (close_missing now s)
close_missing-Follows now s = record {
  same_cookie = ground arith;
  same_conn = ground arith;
  same_after = ground arith;
  acked_grows = ground arith;
  received_grows = ground arith;
  stays_noticed = ground arith;
  stays_disputed = ground arith;
  keeps_user = ground arith;
}

pub close_missing-IsSound :
    (now : ℕ) (s : Socket) → now ≢ 0 → IsSound s → IsSound (close_missing now s)
close_missing-IsSound now s n v = record {
  disputed_nobody = ground (arith, v.disputed_nobody);
  noticed_closed = ground (arith, v.noticed_closed);
}

pub show-Follows : (c : KernelConn) (s : Socket) → Follows s (show c s)
unfolding show update
show-Follows c s = record {
  same_cookie = ground arith;
  same_conn = ground arith;
  same_after = ground arith;
  acked_grows = ground arith;
  received_grows = ground arith;
  stays_noticed = ground arith;
  stays_disputed = ground arith;
  keeps_user = ground arith;
}

pub show-IsSound : (c : KernelConn) (s : Socket) → IsSound s → IsSound (show c s)
unfolding show update
show-IsSound c s v = record {
  disputed_nobody = ground (arith, v.disputed_nobody);
  noticed_closed = ground (arith, v.noticed_closed);
}

pub notice-Follows : (now : ℕ) (c : KernelConn) (s : Socket) → Follows s (notice now c s)
unfolding update
notice-Follows now c s = record {
  same_cookie = ground arith;
  same_conn = ground arith;
  same_after = ground arith;
  acked_grows = ground arith;
  received_grows = ground arith;
  stays_noticed = ground arith;
  stays_disputed = ground arith;
  keeps_user = ground arith;
}

pub notice-IsSound :
    (now : ℕ) (c : KernelConn) (s : Socket) → now ≢ 0 → IsSound s → IsSound (notice now c s)
unfolding update
notice-IsSound now c s n v = record {
  disputed_nobody = ground (arith, v.disputed_nobody);
  noticed_closed = ground arith;
}
