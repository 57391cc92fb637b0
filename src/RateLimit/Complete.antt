-- ===== src/RateLimit/Complete.antt =====
-- That plan leaves no connection of a limited client out while there is room for filters.
use akastr_agent.Base.{
  ◌≤◌, ◌<◌, String, Bool, true, false, Option, none, some, List, [], ◌∷◌, Assoc, get, put, get-put,
  length, ◌≡◌, refl, sym, subst, arith, Elem, Elem-sort, sort, str_leb, is_some, leb,
  String-discrete, inl, inr, if◌then◌else◌, Result, ok, err, ◌>>=◌,
}
use akastr_agent.Ledger.{AddrPort, Flow}
use akastr_agent.RateLimit.{Target, Rule, Rule-discrete, Wanted, max_filters}
use akastr_agent.RateLimit.Plan.{
  limit_of, emails_of, keys, owners, rule_of, add_devs, returned, devs_of, add_flows, owned_by,
  add_emails, add_groups, plan,
}
use akastr_agent.RateLimit.Owner.{AtMost, Names, owners-AtMost, owners-Names, Elem-keys}
use akastr_agent.RateLimit.Planned.{Ends, Ends-bind}

abbrev Rules : Type 0
Rules = Assoc Rule String

abbrev pub Has : Rule → Rules → Type 0
Has r m = is_some (get m r) ≡ true

-- The loop ends with rules that fulfil the predicate, or the function returns for want of room.
abbrev Reaches : (Rules → Type 0) → Result Wanted Wanted → Type 0
Reaches P r = Ends (λ w. P w.rules) (λ w. max_filters ≤ length w.rules) r

Reaches-bind :
    (P Q : Rules → Type 0) (r : Result Wanted Wanted) (k : Wanted → Result Wanted Wanted)
    → Reaches P r
    → ((w : Wanted) → P w.rules → Reaches Q (k w))
    → Reaches Q (r >>= k)
Reaches-bind P Q r k h f =
    Ends-bind (λ w. P w.rules) (λ w. Q w.rules) (λ w. max_filters ≤ length w.rules) r k h f

Has-put : (m : Rules) (r s : Rule) (g : String) → Has r m → Has r (put m s g)
Has-put m r s g h = subst (λ o. is_some o ≡ true) (sym (get-put m s r g)) (ground (arith, h))

Has-put_self : (m : Rules) (r : Rule) (g : String) → Has r (put m r g)
Has-put_self m r g = subst (λ o. is_some o ≡ true) (sym (get-put m r r g)) (ground arith)

Reaches-room :
    (P : Rules → Type 0) (w : Wanted) (r : Result Wanted Wanted)
    → Reaches P r
    → Reaches P (if leb max_filters (length w.rules) then err w else r)
Reaches-room P w r h = go (leb max_filters (length w.rules)) refl
  where
    go : (b : Bool) → leb max_filters (length w.rules) ≡ b → Reaches P (if b then err w else r)
    go true q = ground (arith, q)
    go false q = h

module _ (is6 : AddrPort → Bool) (before : Flow → Flow → Bool) (v4 v6 : List String)
    (flows : String → List Flow) (limits : Assoc String Target) where
  -- What a put keeps, each loop keeps.
  module _ (P : Rules → Type 0)
      (put_keeps : (m : Rules) (s : Rule) (g : String) → P m → P (put m s g)) where
    add_devs_keeps :
        (g : String) (f : Flow) (ds : List String) (w : Wanted)
        → P w.rules
        → Reaches P (add_devs g f ds w)
    unfolding add_devs
    add_devs_keeps g f [] w h = h
    add_devs_keeps g f (d ∷ ds) w h = Reaches-room P w _ (
        add_devs_keeps g f ds (record w { rules = put w.rules (rule_of f d) g })
          (put_keeps w.rules (rule_of f d) g h))

    add_flows_keeps :
        (g : String) (fs : List Flow) (w : Wanted)
        → P w.rules
        → Reaches P (add_flows is6 before v4 v6 flows limits g fs w)
    unfolding add_flows
    add_flows_keeps g [] w h = h
    add_flows_keeps g (f ∷ fs) w h =
        Reaches-bind P P _ _ (add_devs_keeps g f (devs_of is6 v4 v6 f) w h) (add_flows_keeps g fs)

    add_emails_step :
        (o : Assoc String String) (g e : String) (w : Wanted)
        → P w.rules
        → Reaches P (
            if owned_by o g e
            then add_flows is6 before v4 v6 flows limits g (sort before (flows e)) w
            else ok w)
    add_emails_step o g e w h = go (owned_by o g e)
      where
        go :
            (b : Bool)
            → Reaches P (
                if b
                then add_flows is6 before v4 v6 flows limits g (sort before (flows e)) w
                else ok w)
        go true = add_flows_keeps g (sort before (flows e)) w h
        go false = h

    add_emails_keeps :
        (o : Assoc String String) (g : String) (es : List String) (w : Wanted)
        → P w.rules
        → Reaches P (add_emails is6 before v4 v6 flows limits o g es w)
    unfolding add_emails
    add_emails_keeps o g [] w h = h
    add_emails_keeps o g (e ∷ es) w h =
        Reaches-bind P P _ _ (add_emails_step o g e w h) (add_emails_keeps o g es)

    add_groups_keeps :
        (o : Assoc String String) (gs : List String) (w : Wanted)
        → P w.rules
        → Reaches P (add_groups is6 before v4 v6 flows limits o gs w)
    unfolding add_groups
    add_groups_keeps o [] w h = h
    add_groups_keeps o (g ∷ gs) w h =
        Reaches-bind P P _ _
          (add_emails_keeps o g (sort str_leb (emails_of limits g))
            (record w { rates = put w.rates g (limit_of limits g) }) h)
          (add_groups_keeps o gs)

  abbrev Any : Rules → Type 0
  Any m = Unit

  add_devs-Reaches :
      (g d : String) (f : Flow) (ds : List String) (w : Wanted)
      → Elem d ds
      → Reaches (Has (rule_of f d)) (add_devs g f ds w)
  unfolding add_devs
  add_devs-Reaches g d f [] w h = absurd h
  add_devs-Reaches g d f (c ∷ ds) w h = Reaches-room (Has (rule_of f d)) w _ (elim h [
    | inl e ↦
        add_devs_keeps (Has (rule_of f d)) (λ m s j. Has-put m (rule_of f d) s j) g f ds
          (record w { rules = put w.rules (rule_of f c) g })
          (subst (λ x. Has (rule_of f x) (put w.rules (rule_of f c) g)) e
            (Has-put_self w.rules (rule_of f c) g))
    | inr k ↦ add_devs-Reaches g d f ds (record w { rules = put w.rules (rule_of f c) g }) k
  ])

  module _ (f : Flow) (d : String) (hd : Elem d (devs_of is6 v4 v6 f)) where
    abbrev Policed : Rules → Type 0
    Policed = Has (rule_of f d)

    Policed-put : (m : Rules) (s : Rule) (g : String) → Policed m → Policed (put m s g)
    Policed-put m s g h = Has-put m (rule_of f d) s g h

    add_flows-Reaches :
        (g : String) (fs : List Flow) (w : Wanted)
        → Elem f fs
        → Reaches Policed (add_flows is6 before v4 v6 flows limits g fs w)
    unfolding add_flows
    add_flows-Reaches g [] w h = absurd h
    add_flows-Reaches g (e ∷ fs) w (inl p) =
        Reaches-bind Policed Policed _ _
          (subst (λ x. Reaches Policed (add_devs g x (devs_of is6 v4 v6 x) w)) (sym p)
            (add_devs-Reaches g d f (devs_of is6 v4 v6 f) w hd))
          (add_flows_keeps Policed Policed-put g fs)
    add_flows-Reaches g (e ∷ fs) w (inr h) =
        Reaches-bind Any Policed _ _
          (add_devs_keeps Any (λ _ _ _ _. tt) g e (devs_of is6 v4 v6 e) w tt)
          (λ v _. add_flows-Reaches g fs v h)

    module _ (x : String) (hf : Elem f (flows x)) (o : Assoc String String) (c : String)
        (own : owned_by o c x ≡ true) where
      add_emails-Reaches :
          (es : List String) (w : Wanted)
          → Elem x es
          → Reaches Policed (add_emails is6 before v4 v6 flows limits o c es w)
      unfolding add_emails
      add_emails-Reaches [] w h = absurd h
      add_emails-Reaches (e ∷ es) w (inl p) =
          Reaches-bind Policed Policed _ _
            (subst
              (λ y. Reaches Policed (
                if owned_by o c y
                then add_flows is6 before v4 v6 flows limits c (sort before (flows y)) w
                else ok w))
              (sym p)
              (subst
                (λ b. Reaches Policed (
                  if b
                  then add_flows is6 before v4 v6 flows limits c (sort before (flows x)) w
                  else ok w))
                (sym own)
                (add_flows-Reaches c (sort before (flows x)) w (Elem-sort before f (flows x) hf))))
            (add_emails_keeps Policed Policed-put o c es)
      add_emails-Reaches (e ∷ es) w (inr h) =
          Reaches-bind Any Policed _ _ (add_emails_step Any (λ _ _ _ _. tt) o c e w tt)
            (λ v _. add_emails-Reaches es v h)

      add_groups-Reaches :
          (gs : List String) (w : Wanted)
          → Elem x (emails_of limits c)
          → Elem c gs
          → Reaches Policed (add_groups is6 before v4 v6 flows limits o gs w)
      unfolding add_groups
      add_groups-Reaches [] w k h = absurd h
      add_groups-Reaches (g ∷ gs) w k (inl p) =
          Reaches-bind Policed Policed _ _
            (subst
              (λ j. Reaches Policed (
                add_emails is6 before v4 v6 flows limits o j (sort str_leb (emails_of limits j))
                  (record w { rates = put w.rates j (limit_of limits j) })))
              (sym p)
              (add_emails-Reaches (sort str_leb (emails_of limits c))
                (record w { rates = put w.rates c (limit_of limits c) })
                (Elem-sort str_leb x (emails_of limits c) k)))
            (add_groups_keeps Policed Policed-put o gs)
      add_groups-Reaches (g ∷ gs) w k (inr h) =
          Reaches-bind Any Policed _ _
            (add_emails_keeps Any (λ _ _ _ _. tt) o g (sort str_leb (emails_of limits g))
              (record w { rates = put w.rates g (limit_of limits g) }) tt)
            (λ v _. add_groups-Reaches gs v k h)

    Reaches-returned :
        (P : Rules → Type 0) (r : Result Wanted Wanted)
        → Reaches P r
        → length (returned r).rules < max_filters
        → P (returned r).rules
    unfolding returned
    Reaches-returned P (ok w) h lt = h
    Reaches-returned P (err w) h lt = absurd (omega (arith, h, lt))

    plan-Policed :
        (x c : String)
        → Elem f (flows x)
        → Elem x (emails_of limits c)
        → get (owners limits) x ≡ some c
        → length (plan is6 before v4 v6 flows limits).rules < max_filters
        → Policed (plan is6 before v4 v6 flows limits).rules
    unfolding plan owned_by emails_of
    plan-Policed x c hf k q lt =
        Reaches-returned Policed _
          (add_groups-Reaches x hf (owners limits) c (ground (arith, q))
            (sort str_leb (keys limits)) (record { rates = []; rules = [] }) k
            (Elem-sort str_leb c (keys limits) (Elem-keys limits limits c x k)))
          lt

  -- While there are fewer rules than max_filters, each connection of each client that a group
  -- names has its rule on each interface of the default routes of its family.
  pub plan_complete :
      (g x : String) (f : Flow) (d : String)
      → Elem x (emails_of limits g)
      → Elem f (flows x)
      → Elem d (devs_of is6 v4 v6 f)
      → length (plan is6 before v4 v6 flows limits).rules < max_filters
      → is_some (get (plan is6 before v4 v6 flows limits).rules (rule_of f d)) ≡ true
  plan_complete g x f d k hf hd lt =
      go (get (owners limits) x) refl (owners-AtMost limits x g k) (owners-Names limits x)
    where
      go :
          (o : Option String)
          → get (owners limits) x ≡ o
          → AtMost limits (limit_of limits g) (get (owners limits) x)
          → Names limits x (get (owners limits) x)
          → is_some (get (plan is6 before v4 v6 flows limits).rules (rule_of f d)) ≡ true
      go none q a n = absurd (subst (AtMost limits (limit_of limits g)) q a)
      go (some c) q a n = plan-Policed f d hd x c hf (subst (Names limits x) q n) q lt
