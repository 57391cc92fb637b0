-- ===== src/Xui/Foreign.antt =====
-- That a plan addresses no client that Cloud does not own.
use akastr_agent.Base.{
  ℕ, String, Bool, true, false, ◌||◌, Option, some, List, [], ◌∷◌, ◌++◌, length, Assoc, get,
  is_some, if◌then◌else◌, String-discrete, Result, ok, err, ◌>>◌, refuse, sort, str_leb, ◌≡◌, ◌≢◌,
  refl, subst, ap, arith, ◌⊎◌, inl, inr, All, All-append, Elem, All-sort, All_map,
}
use akastr_agent.Xui.{
  Fields, Client, Settings, Inbound, Action, add, update, delete_client, Code, client_conflict,
}
use akastr_agent.Xui.Targets.{is_text, has_text, credential_field, compatible}
use akastr_agent.Xui.Plan.{
  text_of, identity, is_owned, used_map, owned_of, foreign_of, owned_conflict, target_conflict,
  unwanted, removals, all_actions, plan_clients, plan,
}
use akastr_agent.Xui.Spares.{
  Spares, Apart, Apart-owned_conflict, unwanted_found, removals-Spares, all_actions-Spares,
}

has_text-Elem : (ts : List String) (s t : String) → Elem t ts → has_text ts s ≡ false → s ≢ t
unfolding has_text
has_text-Elem [] s t h e = absurd h
has_text-Elem (u ∷ ts) s t (inl q) e = λ p. ground (arith, e, q, p)
has_text-Elem (u ∷ ts) s t (inr h) e = has_text-Elem ts s t h (ground (arith, e))

Elem-foreign :
    (proto : String) (c : Fields) (cs : List Fields)
    → Elem c cs
    → is_owned c ≡ false
    → Elem (identity proto c) (foreign_of proto cs)
unfolding foreign_of
Elem-foreign proto c [] h f = absurd h
Elem-foreign proto c (d ∷ cs) h f =
    go (is_owned d) refl (is_text (text_of d (credential_field proto)) "") h
      (Elem-foreign proto c cs)
  where
    rest : List String
    rest = foreign_of proto cs

    secret : String
    secret = text_of d (credential_field proto)

    go :
        (a : Bool)
        → is_owned d ≡ a
        → (b : Bool) → (d ≡ c) ⊎ Elem c cs
        → (Elem c cs → is_owned c ≡ false → Elem (identity proto c) rest)
        → Elem
            (identity proto c)
            (if a then rest else identity proto d ∷ (if b then rest else secret ∷ rest))
    go true q b (inl e) ih = ground (arith, q, ap is_owned e, f)
    go true q b (inr k) ih = ih k f
    go false q b (inl e) ih = inl (ap (identity proto) e)
    go false q true (inr k) ih = inr (ih k f)
    go false q false (inr k) ih = inr (inr (ih k f))

-- The action leaves a client alone, which the panel addresses by its identity: it adds a client, or
-- it names another identity.
abbrev pub Misses : String → Fields → Action → Type 0
Misses proto c (add d) = Unit
Misses proto c (update i d) = i ≢ identity proto c
Misses proto c (delete_client i) = i ≢ identity proto c

Spares-Misses :
    (proto : String) (c : Fields) (foreign : List String)
    → Elem (identity proto c) foreign
    → (a : Action) → Spares foreign a
    → Misses proto c a
Spares-Misses proto c foreign h (add d) s = tt
Spares-Misses proto c foreign h (update i d) s = has_text-Elem foreign i (identity proto c) h s
Spares-Misses proto c foreign h (delete_client i) s = has_text-Elem foreign i (identity proto c) h s

target_apart :
    (foreign : List String) (u : String) (ts : List Client)
    → Elem u foreign
    → target_conflict foreign ts ≡ false
    → All (λ t. t.credential ≢ u) ts
unfolding target_conflict
target_apart foreign u [] h e = tt
target_apart foreign u (t ∷ ts) h e = (
  has_text-Elem foreign t.credential u h (ground (arith, e)),
  target_apart foreign u ts h (ground (arith, e)),
)

accepted_cases :
    (r : Result Code (Unit {0})) (b : Bool) (xs ys : List Action)
    → (r >> refuse b client_conflict >> ok xs) ≡ ok ys
    → (b ≡ false) × (xs ≡ ys)
accepted_cases (err c) b xs ys e = ground (arith, e)
accepted_cases (ok u) true xs ys e = ground (arith, e)
accepted_cases (ok u) false xs ys e = (refl, ground (arith, e))

module _ (pf key_size : String → Option ℕ) (ib : Inbound) where
  plan_clients-Misses :
      (method : String) (clients : List Fields) (c : Fields) (target : List Client)
      (actions : List Action)
      → plan_clients pf key_size ib method clients target ≡ ok actions
      → Elem c clients
      → is_owned c ≡ false
      → All (Misses ib.protocol c) actions × All (λ t. t.credential ≢ identity ib.protocol c) target
  unfolding plan_clients
  plan_clients-Misses method clients c target actions e h f = (
    All_map (Spares foreign) (Misses ib.protocol c) actions
        (Spares-Misses ib.protocol c foreign here)
        (subst (All (Spares foreign)) accepted.1 (
          All-append (Spares foreign) (removals ib.protocol m (length clients) gone)
            (all_actions pf ib.protocol used m target)
            (removals-Spares ib.protocol foreign m apart (length clients) gone (
              All-sort str_leb (λ k. is_some (get m k) ≡ true) (unwanted target m)
                (unwanted_found target m m (λ k t. t))))
            (all_actions-Spares ib.protocol foreign m apart pf used target))),
    target_apart foreign (identity ib.protocol c) target here (ground (arith, accepted.0)),
  )
    where
      m : Assoc String Fields
      m = owned_of clients []

      foreign : List String
      foreign = foreign_of ib.protocol clients

      used : Assoc String ℕ
      used = used_map ib.stats []

      gone : List String
      gone = sort str_leb (unwanted target m)

      accepted :
          ((owned_conflict ib.protocol foreign m || target_conflict foreign target) ≡ false)
          × ((removals ib.protocol m (length clients) gone
                ++ all_actions pf ib.protocol used m target)
              ≡ actions)
      accepted = accepted_cases (compatible key_size ib.protocol method target) _ _ actions e

      apart : Apart ib.protocol foreign m
      apart = Apart-owned_conflict ib.protocol foreign m (ground (arith, accepted.0))

      here : Elem (identity ib.protocol c) foreign
      here = Elem-foreign ib.protocol c clients h f

  -- Where plan succeeds, none of its actions reaches a client of the inbound that Cloud does not own,
  -- and no credential of the target is the identity of such a client.
  pub plan-Misses :
      (s : Settings) (clients : List Fields) (c : Fields) (target : List Client)
      (actions : List Action)
      → ib.settings ≡ some s
      → s.clients ≡ some clients
      → plan pf key_size ib target ≡ ok actions
      → Elem c clients
      → is_owned c ≡ false
      → All (Misses ib.protocol c) actions × All (λ t. t.credential ≢ identity ib.protocol c) target
  unfolding plan
  plan-Misses s clients c target actions p q e h f =
      plan_clients-Misses s.method clients c target actions (ground (arith, p, q, e)) h f
