-- ===== src/Ledger/Changes.antt =====
-- What the changes of single sockets keep: who they are, their counters and the invariant.
use akastr_agent.Base.{
  ℕ, ◌≡◌, ◌≢◌, refl, sym, subst, ◌∙◌, Bool, false, ◌&&◌, not, List, [], ◌∷◌, ltb, ◌==◌, All,
  All_map, String-discrete, arith,
}
use akastr_agent.Ledger.{Conn-discrete, ClaimKey-discrete, Line, Socket, Claim, Ledger}
use akastr_agent.Ledger.Sockets.{modify, bind, passed_over}
use akastr_agent.Ledger.Claims.{
  dispute_socket, dispute_all, dispute, rebound, wait_or_dispute, tail_comes_in,
}
use akastr_agent.Ledger.Follows.{
  Follows, IsSound, Pairwise, Pairwise-refl, Pairwise-trans, IsIn, DistinctCookies, modify_one,
  only_one,
}

-- The sockets of an account: one for each cookie, none both bound and disputed.
pub record Inv (ss : List Socket) : Type 0 where
  pub distinct : DistinctCookies ss
  pub sound : All IsSound ss

-- From an account to a later one, whose sockets are those of the first in their order, and others.
pub record Step (ss ts : List Socket) : Type 0 where
  pub follows : Pairwise ss ts
  pub inv : Inv ts

pub Step-refl : (ss : List Socket) → Inv ss → Step ss ss
Step-refl ss v = record { follows = Pairwise-refl ss; inv = v }

pub Step-trans : (ss ts us : List Socket) → Step ss ts → Step ts us → Step ss us
Step-trans ss ts us h k = record {
  follows = Pairwise-trans ss ts us h.follows k.follows;
  inv = k.inv;
}

modify_absent :
    (k c : ℕ) (f : Socket → Socket) (ss : List Socket)
    → ((t : Socket) → (f t).cookie ≡ t.cookie)
    → All (λ t. t.cookie ≢ k) ss
    → All (λ t. t.cookie ≢ k) (modify c f ss)
unfolding modify
modify_absent k c f [] h a = tt
modify_absent k c f (s ∷ ss) h a = ground (arith, modify_absent k c f ss h a.1, h s)

modify-DistinctCookies :
    (c : ℕ) (f : Socket → Socket) (ss : List Socket)
    → ((t : Socket) → (f t).cookie ≡ t.cookie)
    → DistinctCookies ss
    → DistinctCookies (modify c f ss)
unfolding modify DistinctCookies
modify-DistinctCookies c f [] h d = tt
modify-DistinctCookies c f (s ∷ ss) h d = ground (
  arith,
  modify-DistinctCookies c f ss h d.1,
  modify_absent s.cookie c f ss h d.0,
  subst (λ k. All (λ t. t.cookie ≢ k) (modify c f ss)) (sym (h s))
      (modify_absent s.cookie c f ss h d.0),
)

modify-IsSound :
    (c : ℕ) (f : Socket → Socket) (ss : List Socket)
    → All (λ t. t.cookie ≡ c → IsSound (f t)) ss
    → All IsSound ss
    → All IsSound (modify c f ss)
unfolding modify
modify-IsSound c f [] h a = tt
modify-IsSound c f (s ∷ ss) h a = ground (arith, modify-IsSound c f ss h.1 a.1, h.0, a.0)

pub modify_one-Step :
    (f : Socket → Socket) (ss : List Socket) (s : Socket)
    → ((t : Socket) → (f t).cookie ≡ t.cookie)
    → Inv ss
    → IsIn s ss
    → Follows s (f s)
    → IsSound (f s)
    → Step ss (modify s.cookie f ss)
modify_one-Step f ss s c v h k w = record {
  follows = modify_one f ss s v.distinct h k;
  inv = record {
    distinct = modify-DistinctCookies s.cookie f ss c v.distinct;
    sound =
        modify-IsSound s.cookie f ss
          (All_map _ _ ss (λ t g e. subst (λ x. IsSound (f x)) (sym (g e)) w)
            (only_one ss s v.distinct h))
          v.sound;
  };
}

-- Each of the three ways in which a line takes a connection.
pub rebound-Follows : (l : Line) (s : Socket) → s.after ≡ 0 → Follows s (rebound l s)
rebound-Follows l s h = record {
  same_cookie = refl;
  same_conn = refl;
  same_after = refl;
  acked_grows = omega arith;
  received_grows = omega arith;
  stays_noticed = λ p. p;
  stays_disputed = λ p. p;
  keeps_user = λ n _. absurd (n h);
}

pub bind_cookie : (c : Claim) (s : Socket) → (bind c s).cookie ≡ s.cookie
unfolding bind
bind_cookie c s = ground arith

pub bind-Follows : (c : Claim) (s : Socket) → passed_over c.line s ≡ false → Follows s (bind c s)
unfolding bind passed_over
bind-Follows c s h = record {
  same_cookie = ground arith;
  same_conn = ground arith;
  same_after = ground arith;
  acked_grows = ground arith;
  received_grows = ground arith;
  stays_noticed = ground arith;
  stays_disputed = ground arith;
  keeps_user = ground arith;
}

pub bind-IsSound :
    (c : Claim) (s : Socket) → passed_over c.line s ≡ false → IsSound s → IsSound (bind c s)
unfolding bind passed_over
bind-IsSound c s h v = record {
  disputed_nobody = ground arith;
  noticed_closed = ground (arith, v.noticed_closed);
}

dispute_socket-Follows :
    (started : ℕ) (tail : Bool) (l : Line) (s : Socket)
    → Follows s (dispute_socket started tail l s).0
unfolding dispute_socket
dispute_socket-Follows started tail l s = record {
  same_cookie = ground arith;
  same_conn = ground arith;
  same_after = ground arith;
  acked_grows = ground arith;
  received_grows = ground arith;
  stays_noticed = ground arith;
  stays_disputed = ground arith;
  keeps_user = ground arith;
}

dispute_socket-IsSound :
    (started : ℕ) (tail : Bool) (l : Line) (s : Socket)
    → IsSound s
    → IsSound (dispute_socket started tail l s).0
unfolding dispute_socket
dispute_socket-IsSound started tail l s v = record {
  disputed_nobody = ground (arith, v.disputed_nobody);
  noticed_closed = ground (arith, v.noticed_closed);
}

dispute_all-Step :
    (started : ℕ) (tail : Bool) (l : Line) (ss : List Socket)
    → Inv ss
    → Step ss (dispute_all started tail l ss).0
unfolding dispute_all Pairwise DistinctCookies
dispute_all-Step started tail l ss v = record {
  follows = follows ss;
  inv = record { distinct = distinct ss v.distinct; sound = sound ss v.sound };
}
  where
    follows : (ss : List Socket) → Pairwise ss (dispute_all started tail l ss).0
    follows [] = tt
    follows (s ∷ ss) = (dispute_socket-Follows started tail l s, follows ss)

    absent :
        (k : ℕ) (ss : List Socket)
        → All (λ t. t.cookie ≢ k) ss
        → All (λ t. t.cookie ≢ k) (dispute_all started tail l ss).0
    absent k [] a = tt
    absent k (s ∷ ss) a =
        (λ e. a.0 (sym (dispute_socket-Follows started tail l s).same_cookie ∙ e), absent k ss a.1)

    distinct :
        (ss : List Socket) → DistinctCookies ss → DistinctCookies (dispute_all started tail l ss).0
    distinct [] d = tt
    distinct (s ∷ ss) d = (
      subst (λ k. All (λ t. t.cookie ≢ k) (dispute_all started tail l ss).0)
          (sym (dispute_socket-Follows started tail l s).same_cookie) (absent s.cookie ss d.0),
      distinct ss d.1,
    )

    sound : (ss : List Socket) → All IsSound ss → All IsSound (dispute_all started tail l ss).0
    sound [] a = tt
    sound (s ∷ ss) a = (dispute_socket-IsSound started tail l s a.0, sound ss a.1)

pub wait_or_dispute-Step :
    (c : Claim) (now : ℕ) (l : Ledger)
    → Inv l.sockets
    → Step l.sockets (wait_or_dispute c now l).sockets
unfolding wait_or_dispute dispute
wait_or_dispute-Step c now l v = ground (
  arith,
  dispute_all-Step l.started
      (not (l.started == 0) && ltb l.started c.line.at && tail_comes_in now l) c.line l.sockets v,
)
