-- ===== src/Ledger/Follows.antt =====
-- What may become of a connection of the account in one step.
use akastr_agent.Base.{
  ℕ, ◌≤◌, ◌≡◌, ◌≢◌, ◌⊎◌, inl, inr, refl, sym, ap, subst, ◌∙◌, true, false, Option, none, some, List,
  [], ◌∷◌, All, All_map, String-discrete, arith,
}
use akastr_agent.Ledger.{Conn, Conn-discrete, Line, Socket}
use akastr_agent.Ledger.Sockets.{
  find_socket, modify, by_conn, carrier, passed_over, candidate_from, replayed_by,
}

-- A connection keeps its identity, and its counters only grow. One opened since the start keeps its
-- user or becomes nobody's; one that is nobody's since lines of two users named it stays so.
pub record Follows (s t : Socket) : Type 0 where
  pub same_cookie : t.cookie ≡ s.cookie
  pub same_conn : t.conn ≡ s.conn
  pub same_after : t.after ≡ s.after
  pub acked_grows : s.acked ≤ t.acked
  pub received_grows : s.received ≤ t.received
  pub stays_noticed : s.noticed ≡ true → t.noticed ≡ true
  pub stays_disputed : s.disputed ≡ true → t.disputed ≡ true
  pub keeps_user : s.after ≢ 0 → s.email ≢ "" → (t.email ≡ s.email) ⊎ (t.disputed ≡ true)

pub record IsSound (s : Socket) : Type 0 where
  pub disputed_nobody : s.disputed ≡ true → s.email ≡ ""
  pub noticed_closed : s.noticed ≡ true → s.closed_at ≢ 0

pub Follows-refl : (s : Socket) → Follows s s
Follows-refl s = record {
  same_cookie = refl;
  same_conn = refl;
  same_after = refl;
  acked_grows = omega arith;
  received_grows = omega arith;
  stays_noticed = λ h. h;
  stays_disputed = λ h. h;
  keeps_user = λ _ _. inl refl;
}

pub Follows-trans : (s t u : Socket) → Follows s t → Follows t u → Follows s u
Follows-trans s t u h k = record {
  same_cookie = k.same_cookie ∙ h.same_cookie;
  same_conn = k.same_conn ∙ h.same_conn;
  same_after = k.same_after ∙ h.same_after;
  acked_grows = omega (arith, h.acked_grows, k.acked_grows);
  received_grows = omega (arith, h.received_grows, k.received_grows);
  stays_noticed = λ p. k.stays_noticed (h.stays_noticed p);
  stays_disputed = λ p. k.stays_disputed (h.stays_disputed p);
  keeps_user = λ n m. elim (h.keeps_user n m) [
    | inl e ↦ elim (k.keeps_user (λ z. n (sym h.same_after ∙ z)) (λ z. m (sym e ∙ z))) [
      | inl g ↦ inl (g ∙ e)
      | inr g ↦ inr g
    ]
    | inr e ↦ inr (k.stays_disputed e)
  ];
}

unfoldable pub Pairwise : List Socket → List Socket → Type 0
Pairwise [] ts = Unit
Pairwise (s ∷ ss) [] = ⊥
Pairwise (s ∷ ss) (t ∷ ts) = Follows s t × Pairwise ss ts

unfoldable pub IsIn : Socket → List Socket → Type 0
IsIn s [] = ⊥
IsIn s (t ∷ ts) = (t ≡ s) ⊎ IsIn s ts

-- No two sockets have one cookie.
unfoldable pub DistinctCookies : List Socket → Type 0
DistinctCookies [] = Unit
DistinctCookies (s ∷ ss) = All (λ t. t.cookie ≢ s.cookie) ss × DistinctCookies ss

first_differs :
    (t : Socket) (ts : List Socket) (s : Socket)
    → All (λ u. u.cookie ≢ t.cookie) ts
    → IsIn s ts
    → t.cookie ≢ s.cookie
unfolding IsIn
first_differs t [] s d h = absurd h
first_differs t (u ∷ us) s d (inl e) = λ q. d.0 (ap (λ x. x.cookie) e ∙ sym q)
first_differs t (u ∷ us) s d (inr h) = first_differs t us s d.1 h

pub only_one :
    (ss : List Socket) (s : Socket)
    → DistinctCookies ss
    → IsIn s ss
    → All (λ t. t.cookie ≡ s.cookie → t ≡ s) ss
unfolding DistinctCookies IsIn
only_one [] s d h = tt
only_one (t ∷ ts) s d (inl e) =
    (λ _. e, All_map _ _ ts (λ u n h. absurd (n (h ∙ ap (λ x. x.cookie) (sym e)))) d.0)
only_one (t ∷ ts) s d (inr h) = (λ e. absurd (first_differs t ts s d.0 h e), only_one ts s d.1 h)

pub modify-Follows :
    (c : ℕ) (f : Socket → Socket) (ss : List Socket)
    → All (λ t. t.cookie ≡ c → Follows t (f t)) ss
    → Pairwise ss (modify c f ss)
unfolding modify Pairwise
modify-Follows c f [] h = tt
modify-Follows c f (s ∷ ss) h = ground (arith, modify-Follows c f ss h.1, h.0, Follows-refl s)

pub Pairwise-refl : (ss : List Socket) → Pairwise ss ss
unfolding Pairwise
Pairwise-refl [] = tt
Pairwise-refl (s ∷ ss) = (Follows-refl s, Pairwise-refl ss)

pub Pairwise-trans : (ss ts us : List Socket) → Pairwise ss ts → Pairwise ts us → Pairwise ss us
unfolding Pairwise
Pairwise-trans [] ts us h k = tt
Pairwise-trans (s ∷ ss) (t ∷ ts) (u ∷ us) h k =
    (Follows-trans s t u h.0 k.0, Pairwise-trans ss ts us h.1 k.1)
Pairwise-trans (s ∷ ss) (t ∷ ts) [] h k = absurd k
Pairwise-trans (s ∷ ss) [] us h k = absurd h

-- Of the one socket that an operation means.
pub modify_one :
    (f : Socket → Socket) (ss : List Socket) (s : Socket)
    → DistinctCookies ss
    → IsIn s ss
    → Follows s (f s)
    → Pairwise ss (modify s.cookie f ss)
modify_one f ss s d h k =
    modify-Follows s.cookie f ss
      (All_map _ _ ss (λ t g e. subst (λ x. Follows x (f x)) (sym (g e)) k) (only_one ss s d h))

pub IsIn-All : (P : Socket → Type 0) (ss : List Socket) (s : Socket) → All P ss → IsIn s ss → P s
unfolding IsIn
IsIn-All P [] s a h = absurd h
IsIn-All P (t ∷ ts) s a (inl e) = subst P e a.0
IsIn-All P (t ∷ ts) s a (inr h) = IsIn-All P ts s a.1 h

pub by_conn-IsIn : (c : Conn) (ss : List Socket) (s : Socket) → IsIn s (by_conn c ss) → IsIn s ss
unfolding IsIn by_conn
by_conn-IsIn c [] s h = h
by_conn-IsIn c (t ∷ ts) s h = ground (arith, by_conn-IsIn c ts s, h)

-- What the three searches find.
pub replayed_by_finds :
    (l : Line) (ss : List Socket) (s : Socket)
    → replayed_by l ss ≡ some s
    → IsIn s ss × (s.after ≡ 0) × (s.email ≢ "")
unfolding IsIn replayed_by
replayed_by_finds l [] s e = ground arith
replayed_by_finds l (t ∷ ts) s e = ground (arith, replayed_by_finds l ts s)

pub carrier_finds : (l : Line) (ss : List Socket) (s : Socket) → carrier l ss ≡ some s → IsIn s ss
unfolding IsIn carrier
carrier_finds l [] s e = ground arith
carrier_finds l (t ∷ ts) s e = ground (arith, carrier_finds l ts s)

pub candidate_from_finds :
    (l : Line) (o : Option Socket) (ss : List Socket) (s : Socket)
    → candidate_from l o ss ≡ some s
    → (o ≡ some s) ⊎ (IsIn s ss × (passed_over l s ≡ false))
unfolding IsIn candidate_from
candidate_from_finds l o [] s e = inl e
candidate_from_finds l none (t ∷ ts) s e =
    ground (arith, candidate_from_finds l none ts s, candidate_from_finds l (some t) ts s)
candidate_from_finds l (some x) (t ∷ ts) s e = ground (arith, candidate_from_finds l (some x) ts s)

pub find_socket_finds :
    (c : ℕ) (ss : List Socket) (s : Socket) → find_socket c ss ≡ some s → IsIn s ss × (s.cookie ≡ c)
unfolding IsIn find_socket
find_socket_finds c [] s e = ground arith
find_socket_finds c (t ∷ ts) s e = ground (arith, find_socket_finds c ts s)
