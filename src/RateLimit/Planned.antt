-- ===== src/RateLimit/Planned.antt =====
-- The rules that plan makes: which connections they police, at which limit, and how many they are.
use akastr_agent.Base.{
  ◌≤◌, ◌<◌, String, Bool, true, false, Option, none, some, List, [], ◌∷◌, Assoc, get, put, delete,
  length, ◌≡◌, refl, subst, arith, All, All-delete, Elem, All-Elem, All-sort, sort, str_leb, of_is,
  String-discrete, leb, is, if◌then◌else◌, Result, ok, err, ◌>>=◌,
}
use akastr_agent.Ledger.{AddrPort, Flow}
use akastr_agent.RateLimit.{Target, Rule, Rule-discrete, Wanted, max_filters}
use akastr_agent.RateLimit.Plan.{
  limit_of, emails_of, keys, owners, rule_of, add_devs, returned, devs_of, add_flows, owned_by,
  add_emails, add_groups, plan,
}
use akastr_agent.RateLimit.Owner.{AtMost, owners-AtMost}

-- What holds of the rules when a loop ends, and what when the function returns.
abbrev pub Ends : (Wanted → Type 0) → (Wanted → Type 0) → Result Wanted Wanted → Type 0
Ends P E (ok w) = P w
Ends P E (err w) = E w

pub Ends-bind :
    (P Q E : Wanted → Type 0) (r : Result Wanted Wanted) (k : Wanted → Result Wanted Wanted)
    → Ends P E r
    → ((w : Wanted) → P w → Ends Q E (k w))
    → Ends Q E (r >>= k)
Ends-bind P Q E (ok w) k h f = f w h
Ends-bind P Q E (err w) k h f = h

length-delete : (m : Assoc Rule String) (r : Rule) → length (delete m r) ≤ length m
unfolding delete
length-delete [] r = omega arith
length-delete ((j, v) ∷ m) r = ground (arith, length-delete m r)

module _ (is6 : AddrPort → Bool) (before : Flow → Flow → Bool) (v4 v6 : List String)
    (flows : String → List Flow) (limits : Assoc String Target) where
  -- The rule polices a connection of a client that the group names, on an interface for it, and of
  -- the groups that name the client none has a lower limit.
  abbrev pub Polices : Rule × String → Type 0
  Polices (r, g) =
      (e : String) × (f : Flow) × (d : String) × Elem e (emails_of limits g)
      × Elem f (flows e)
      × Elem d (devs_of is6 v4 v6 f)
      × (r ≡ rule_of f d)
      × ((h : String) → Elem e (emails_of limits h) → limit_of limits g ≤ limit_of limits h)

  abbrev Good : Wanted → Type 0
  Good w = All Polices w.rules × (length w.rules ≤ max_filters)

  Good-put :
      (w : Wanted) (r : Rule) (g : String)
      → Polices (r, g)
      → length w.rules < max_filters
      → Good w
      → Good (record w { rules = put w.rules r g })
  unfolding put
  Good-put w r g p lt h =
      ((p, All-delete Polices w.rules r h.0), omega (arith, lt, length-delete w.rules r))

  -- What a client's owner has to be for its rules.
  abbrev Owns : String → String → Type 0
  Owns g e =
      Elem e (emails_of limits g)
      × ((h : String) → Elem e (emails_of limits h) → limit_of limits g ≤ limit_of limits h)

  add_devs-Good :
      (g e : String) (f : Flow)
      → Owns g e
      → Elem f (flows e)
      → (ds : List String) → All (λ d. Elem d (devs_of is6 v4 v6 f)) ds
      → (w : Wanted) → Good w
      → Ends Good Good (add_devs g f ds w)
  unfolding add_devs
  add_devs-Good g e f o hf [] hd w h = h
  add_devs-Good g e f o hf (d ∷ ds) hd w h =
      go (leb max_filters (length w.rules)) refl
        (add_devs-Good g e f o hf ds hd.1 (record w { rules = put w.rules (rule_of f d) g }))
    where
      go :
          (b : Bool)
          → leb max_filters (length w.rules) ≡ b
          → (Good (record w { rules = put w.rules (rule_of f d) g })
              → Ends Good Good (add_devs g f ds (record w { rules = put w.rules (rule_of f d) g })))
          → Ends Good Good (
              if b
              then err w
              else add_devs g f ds (record w { rules = put w.rules (rule_of f d) g }))
      go true q ih = h
      go false q ih =
          ih (Good-put w (rule_of f d) g (e, f, d, o.0, hf, hd.0, refl, o.1) (ground (arith, q)) h)

  owned_by-Owns :
      (g e : String) → Elem e (emails_of limits g) → owned_by (owners limits) g e ≡ true → Owns g e
  unfolding owned_by
  owned_by-Owns g e k q = go (get (owners limits) e) refl q
    where
      go :
          (o : Option String)
          → get (owners limits) e ≡ o
          → elim o as (λ _. Bool) [
            | none ↦ is (String-discrete "" g)
            | some c ↦ is (String-discrete c g)
          ]
            ≡ true
          → Owns g e
      go none p t =
          absurd (subst (AtMost limits (limit_of limits g)) p (owners-AtMost limits e g k))
      go (some c) p t = (
        k,
        λ h m.
            subst (λ x. limit_of limits x ≤ limit_of limits h) (of_is (String-discrete c g) t)
              (subst (AtMost limits (limit_of limits h)) p (owners-AtMost limits e h m)),
      )

  add_flows-Good :
      (g e : String)
      → Owns g e
      → (fs : List Flow) → All (λ f. Elem f (flows e)) fs
      → (w : Wanted) → Good w
      → Ends Good Good (add_flows is6 before v4 v6 flows limits g fs w)
  unfolding add_flows
  add_flows-Good g e o [] hf w h = h
  add_flows-Good g e o (f ∷ fs) hf w h =
      Ends-bind Good Good Good (add_devs g f (devs_of is6 v4 v6 f) w)
        (add_flows is6 before v4 v6 flows limits g fs)
        (add_devs-Good g e f o hf.0 (devs_of is6 v4 v6 f) (All-Elem (devs_of is6 v4 v6 f)) w h)
        (add_flows-Good g e o fs hf.1)

  add_emails-Good :
      (g : String) (es : List String)
      → All (λ e. Elem e (emails_of limits g)) es
      → (w : Wanted) → Good w
      → Ends Good Good (add_emails is6 before v4 v6 flows limits (owners limits) g es w)
  unfolding add_emails
  add_emails-Good g [] he w h = h
  add_emails-Good g (e ∷ es) he w h =
      Ends-bind Good Good Good
        (if owned_by (owners limits) g e
          then add_flows is6 before v4 v6 flows limits g (sort before (flows e)) w
          else ok w)
        (add_emails is6 before v4 v6 flows limits (owners limits) g es)
        (go (owned_by (owners limits) g e) refl) (add_emails-Good g es he.1)
    where
      go :
          (b : Bool)
          → owned_by (owners limits) g e ≡ b
          → Ends Good Good (
              if b
              then add_flows is6 before v4 v6 flows limits g (sort before (flows e)) w
              else ok w)
      go true q =
          add_flows-Good g e (owned_by-Owns g e he.0 q) (sort before (flows e))
            (All-sort before (λ f. Elem f (flows e)) (flows e) (All-Elem (flows e))) w h
      go false q = h

  add_groups-Good :
      (gs : List String) (w : Wanted)
      → Good w
      → Ends Good Good (add_groups is6 before v4 v6 flows limits (owners limits) gs w)
  unfolding add_groups
  add_groups-Good [] w h = h
  add_groups-Good (g ∷ gs) w h =
      Ends-bind Good Good Good
        (add_emails is6 before v4 v6 flows limits (owners limits) g
          (sort str_leb (emails_of limits g))
          (record w { rates = put w.rates g (limit_of limits g) }))
        (add_groups is6 before v4 v6 flows limits (owners limits) gs)
        (add_emails-Good g (sort str_leb (emails_of limits g))
          (All-sort str_leb (λ e. Elem e (emails_of limits g)) (emails_of limits g)
            (All-Elem (emails_of limits g)))
          (record w { rates = put w.rates g (limit_of limits g) }) h)
        (add_groups-Good gs)

  Ends-returned : (P : Wanted → Type 0) (r : Result Wanted Wanted) → Ends P P r → P (returned r)
  unfolding returned
  Ends-returned P (ok w) h = h
  Ends-returned P (err w) h = h

  -- Each rule of the plan polices a connection of a client that its group names, on an interface
  -- of the default routes of the connection's family, and no group that names the client has a
  -- lower limit; and there are at most max_filters rules.
  pub plan-Polices :
      All Polices (plan is6 before v4 v6 flows limits).rules
      × (length (plan is6 before v4 v6 flows limits).rules ≤ max_filters)
  unfolding plan
  plan-Polices =
      Ends-returned Good
        (add_groups is6 before v4 v6 flows limits (owners limits) (sort str_leb (keys limits))
          (record { rates = []; rules = [] }))
        (add_groups-Good (sort str_leb (keys limits)) (record { rates = []; rules = [] })
          (tt, omega arith))
