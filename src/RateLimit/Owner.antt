-- ===== src/RateLimit/Owner.antt =====
-- Whom plan takes as the owner of a client: of the groups that name it, one of the lowest limit.
use akastr_agent.Base.{
  ℕ, ◌≤◌, String, Option, none, some, List, [], ◌∷◌, Assoc, get, get-put, ◌≡◌, refl, sym, subst,
  arith, All, Elem, All-Elem, Elem-sort, sort, str_leb, String-discrete, inl, inr, ite, ltb, true,
  false, if◌then◌else◌,
}
use akastr_agent.RateLimit.{Target}
use akastr_agent.RateLimit.Plan.{
  limit_of, emails_of, claim_email, claim_emails, claim_groups, keys, owners,
}

module _ (limits : Assoc String Target) where
  -- Whose the client is after a group's claim.
  unfoldable winner : String → Option String → String
  winner g none = g
  winner g (some c) = if ltb (limit_of limits g) (limit_of limits c) then g else c

  get-claim_email :
      (m : Assoc String String) (e g x : String)
      → get (claim_email limits g e m) x
        ≡ ite (String-discrete e x) (some (winner g (get m e))) (get m x)
  unfolding claim_email winner
  get-claim_email m e g x = ground (arith, get-put m e x g)

  -- The owner there is, if any, has a limit of at most n.
  abbrev pub AtMost : ℕ → Option String → Type 0
  AtMost n none = ⊥
  AtMost n (some c) = limit_of limits c ≤ n

  -- The owner there is, if any, names the client.
  abbrev pub Names : String → Option String → Type 0
  Names e none = Unit
  Names e (some c) = Elem e (emails_of limits c)

  winner_le : (g : String) (o : Option String) → limit_of limits (winner g o) ≤ limit_of limits g
  unfolding winner
  winner_le g none = omega arith
  winner_le g (some c) = ground arith

  winner-AtMost :
      (n : ℕ) (g : String) (o : Option String) → AtMost n o → limit_of limits (winner g o) ≤ n
  unfolding winner
  winner-AtMost n g none h = absurd h
  winner-AtMost n g (some c) h = ground arith

  winner-Names :
      (e g : String) (o : Option String)
      → Elem e (emails_of limits g)
      → Names e o
      → Elem e (emails_of limits (winner g o))
  unfolding winner
  winner-Names e g none k h = k
  winner-Names e g (some c) k h =
      elim (ltb (limit_of limits g) (limit_of limits c))
        as (λ b. Elem e (emails_of limits (if b then g else c))) [ true ↦ k | false ↦ h ]

  claim_email-AtMost :
      (m : Assoc String String) (e g x : String) (n : ℕ)
      → AtMost n (get m x)
      → AtMost n (get (claim_email limits g e m) x)
  claim_email-AtMost m e g x n h =
      subst (AtMost n) (sym (get-claim_email m e g x))
        (elim (String-discrete e x)
          as (λ d. AtMost n (ite d (some (winner g (get m e))) (get m x))) [
            | yes p ↦ winner-AtMost n g (get m e) (subst (λ y. AtMost n (get m y)) (sym p) h)
            | no _ ↦ h
          ])

  claim_email-Names :
      (m : Assoc String String) (e g x : String)
      → Elem e (emails_of limits g)
      → Names e (get m e)
      → Names x (get m x)
      → Names x (get (claim_email limits g e m) x)
  claim_email-Names m e g x k hₑ h =
      subst (Names x) (sym (get-claim_email m e g x))
        (elim (String-discrete e x)
          as (λ d. Names x (ite d (some (winner g (get m e))) (get m x))) [
            | yes p ↦
                subst (λ y. Elem y (emails_of limits (winner g (get m e)))) p
                  (winner-Names e g (get m e) k hₑ)
            | no _ ↦ h
          ])

  claim_email_self :
      (m : Assoc String String) (e g : String)
      → AtMost (limit_of limits g) (get (claim_email limits g e m) e)
  claim_email_self m e g =
      subst (AtMost (limit_of limits g)) (sym (get-claim_email m e g e))
        (elim (String-discrete e e)
          as (λ d. AtMost (limit_of limits g) (ite d (some (winner g (get m e))) (get m e))) [
            | yes p ↦ winner_le g (get m e)
            | no n ↦ absurd (n refl)
          ])

  claim_emails-AtMost :
      (g x : String) (n : ℕ) (es : List String) (m : Assoc String String)
      → AtMost n (get m x)
      → AtMost n (get (claim_emails limits g es m) x)
  unfolding claim_emails
  claim_emails-AtMost g x n [] m h = h
  claim_emails-AtMost g x n (e ∷ es) m h =
      claim_emails-AtMost g x n es (claim_email limits g e m) (claim_email-AtMost m e g x n h)

  claim_emails_covered :
      (g x : String) (es : List String) (m : Assoc String String)
      → Elem x es
      → AtMost (limit_of limits g) (get (claim_emails limits g es m) x)
  unfolding claim_emails
  claim_emails_covered g x [] m h = absurd h
  claim_emails_covered g x (e ∷ es) m (inl p) =
      subst
        (λ y.
          AtMost (limit_of limits g) (get (claim_emails limits g es (claim_email limits g e m)) y))
        p
        (claim_emails-AtMost g e (limit_of limits g) es (claim_email limits g e m)
          (claim_email_self m e g))
  claim_emails_covered g x (e ∷ es) m (inr h) =
      claim_emails_covered g x es (claim_email limits g e m) h

  claim_emails-Names :
      (g : String) (es : List String) (m : Assoc String String)
      → All (λ e. Elem e (emails_of limits g)) es
      → ((x : String) → Names x (get m x))
      → (x : String) → Names x (get (claim_emails limits g es m) x)
  unfolding claim_emails
  claim_emails-Names g [] m k h = h
  claim_emails-Names g (e ∷ es) m k h =
      claim_emails-Names g es (claim_email limits g e m) k.1
        (λ x. claim_email-Names m e g x k.0 (h e) (h x))

  claim_groups-AtMost :
      (x : String) (n : ℕ) (gs : List String) (m : Assoc String String)
      → AtMost n (get m x)
      → AtMost n (get (claim_groups limits gs m) x)
  unfolding claim_groups
  claim_groups-AtMost x n [] m h = h
  claim_groups-AtMost x n (g ∷ gs) m h =
      claim_groups-AtMost x n gs (claim_emails limits g (emails_of limits g) m)
        (claim_emails-AtMost g x n (emails_of limits g) m h)

  claim_groups_covered :
      (x g : String) (gs : List String) (m : Assoc String String)
      → Elem g gs
      → Elem x (emails_of limits g)
      → AtMost (limit_of limits g) (get (claim_groups limits gs m) x)
  unfolding claim_groups
  claim_groups_covered x g [] m k h = absurd k
  claim_groups_covered x g (j ∷ gs) m (inl p) h =
      claim_groups-AtMost x (limit_of limits g) gs (claim_emails limits j (emails_of limits j) m) (
        subst
          (λ i. AtMost (limit_of limits g) (get (claim_emails limits i (emails_of limits i) m) x))
          (sym p) (claim_emails_covered g x (emails_of limits g) m h))
  claim_groups_covered x g (j ∷ gs) m (inr k) h =
      claim_groups_covered x g gs (claim_emails limits j (emails_of limits j) m) k h

  claim_groups-Names :
      (gs : List String) (m : Assoc String String)
      → ((x : String) → Names x (get m x))
      → (x : String) → Names x (get (claim_groups limits gs m) x)
  unfolding claim_groups
  claim_groups-Names [] m h = h
  claim_groups-Names (g ∷ gs) m h =
      claim_groups-Names gs (claim_emails limits g (emails_of limits g) m)
        (claim_emails-Names g (emails_of limits g) m (All-Elem (emails_of limits g)) h)

  pub Elem-keys :
      (m : Assoc String Target) (g x : String)
      → Elem x (elim (get m g) as (λ _. List String) [ none ↦ [] | some t ↦ t.emails ])
      → Elem g (keys m)
  unfolding get keys
  Elem-keys [] g x h = absurd h
  Elem-keys ((k, v) ∷ m) g x h =
      (elim (String-discrete k g)
          as (λ d.
            Elem x (elim (ite d (some v) (get m g)) as (λ _. List String) [
              | none ↦ []
              | some t ↦ t.emails
            ])
            → Elem g (k ∷ keys m)) [ yes p ↦ λ _. inl p | no _ ↦ λ k. inr (Elem-keys m g x k) ])
        h

  -- The owner of a client that a group names has a limit of at most the group's,
  pub owners-AtMost :
      (x g : String)
      → Elem x (emails_of limits g)
      → AtMost (limit_of limits g) (get (owners limits) x)
  unfolding owners emails_of
  owners-AtMost x g h =
      claim_groups_covered x g (sort str_leb (keys limits)) []
        (Elem-sort str_leb g (keys limits) (Elem-keys limits g x h)) h

  -- and names it.
  pub owners-Names : (x : String) → Names x (get (owners limits) x)
  unfolding owners get
  owners-Names = claim_groups-Names (sort str_leb (keys limits)) [] (λ x. tt)
